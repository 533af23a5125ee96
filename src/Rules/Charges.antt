-- ===== src/Rules/Charges.antt =====
-- packages/rules/src/charges.ts: spending and restoring the charges of magic items. Amounts are
-- whole numbers (`z.number().int()`).
use dnd_inventory.Prelude.{ℕ, ◌-◌, Bool, true, false, Option, none, some, ltb, ◌==◌}
use dnd_inventory.Prelude.Text.{Text}
use dnd_inventory.Result.{Result, ok, ◌>>◌, throw_if, bad_quantity}

pub data RechargeRule : Type 0 where
  dawn dusk long_rest short_rest custom never : RechargeRule

pub data BatchRechargeTrigger : Type 0 where
  dawn dusk long_rest short_rest : BatchRechargeTrigger

pub record ChargeSpec : Type 0 where
  pub max : ℕ
  pub recharge_rule : RechargeRule
  pub recharge_amount : Option Text

-- `Math.max(0, current - amount)`: subtraction on ℕ stops at 0.
unfoldable pub use_charge : ℕ → ℕ → Result ℕ
use_charge current amount = do throw_if (amount == 0) bad_quantity; ok (current - amount)

unfoldable pub can_use_charge : Option ℕ → Bool
can_use_charge none = false
can_use_charge (some n) = ltb 0 n

abbrev pub recharge_to : ChargeSpec → ℕ
recharge_to spec = spec.max

abbrev pub same_trigger : RechargeRule → BatchRechargeTrigger → Bool
same_trigger RechargeRule.dawn BatchRechargeTrigger.dawn = true
same_trigger RechargeRule.dusk BatchRechargeTrigger.dusk = true
same_trigger RechargeRule.long_rest BatchRechargeTrigger.long_rest = true
same_trigger RechargeRule.short_rest BatchRechargeTrigger.short_rest = true
same_trigger _ _ = false

abbrev pub eligible_for_batch_recharge : ChargeSpec → BatchRechargeTrigger → Bool
eligible_for_batch_recharge spec trigger = same_trigger spec.recharge_rule trigger

abbrev is_never : RechargeRule → Bool
is_never RechargeRule.never = true
is_never _ = false

abbrev pub is_single_use : ChargeSpec → Bool
is_single_use spec = is_never spec.recharge_rule
