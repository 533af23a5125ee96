-- ===== src/Tests/Charges.antt =====
-- Spending and restoring charges.
use dnd_inventory.Prelude.{refl, arith, none, some, [], ◌∷◌, All}
use dnd_inventory.Prelude.Text.{codes}
use dnd_inventory.Rules.Charges.{ChargeSpec, RechargeRule, BatchRechargeTrigger, use_charge}
use dnd_inventory.State.{State, ItemInstance, ItemDefinition, ItemCategory}
use dnd_inventory.Rules.Pricing.{ItemSource}
use dnd_inventory.Reducer.Shared.{ReducerResult}
use dnd_inventory.Reducer.Counts.{ItemsAreSound, IsMoved}
use dnd_inventory.Reducer.ChargeActions.{spend_charge, recharge_single, recharge_batch, batch_rows}
use dnd_inventory.Reducer.ChargeActions.Bounds.{
  IsWithinMax, given-IsWithinMax, spend_charge-IsWithinMax, recharge_single-IsWithinMax,
}
use dnd_inventory.Reducer.ChargeActions.Batch.{recharge_batch-IsWithinMax}
use dnd_inventory.Tests.Data.{campaign, item, success}

abbrev seven : ChargeSpec
seven = record {
  max = 7;
  recharge_rule = RechargeRule.dawn;
  recharge_amount = some (codes "1d6+1");
}

abbrev wand : ItemDefinition
wand = record {
  id = 43;
  name = codes "Wand";
  source = ItemSource.dmg;
  category = ItemCategory.magic;
  weight = some 100;
  flat_weight = none;
  cost = none;
  description = none;
  tags = none;
  rarity = none;
  requires_attunement = none;
  attunement_prereq = none;
  charges = some seven;
  duplicated_from_id = none;
  created_by = none;
  party_id = none;
}

abbrev wand_row : ItemInstance
wand_row = record (item 33 43 10 1) { current_charges = some 3 }

-- The character 20 carries a wand with 3 of 7 charges.
abbrev with_wand : State
with_wand = record campaign { catalog = wand ∷ []; items = wand_row ∷ [] }

wand-ItemsAreSound : ItemsAreSound with_wand.items
wand-ItemsAreSound = record { ids = (tt, tt); filled = omega arith }

wand-IsWithinMax : All (IsWithinMax with_wand.catalog) with_wand.items
wand-IsWithinMax =
    (given-IsWithinMax with_wand wand_row wand_row seven 3 refl refl refl (omega arith), tt)

abbrev zapped : ReducerResult
zapped = success (spend_charge (some with_wand) 33 20 (some 2))

spend_charge-IsWithinMax_example : All (IsWithinMax with_wand.catalog) zapped.state.items
unfolding spend_charge use_charge
spend_charge-IsWithinMax_example =
    spend_charge-IsWithinMax with_wand 33 20 (some 2) zapped wand-ItemsAreSound wand-IsWithinMax
      refl

abbrev restored : ReducerResult
restored = success (recharge_single (some with_wand) 33 20 (some 6))

recharge_single-IsWithinMax_example : All (IsWithinMax with_wand.catalog) restored.state.items
unfolding recharge_single
recharge_single-IsWithinMax_example =
    recharge_single-IsWithinMax with_wand 33 20 (some 6) restored wand-ItemsAreSound
      wand-IsWithinMax refl

abbrev dawned : ReducerResult
dawned =
    success (recharge_batch (some with_wand) 20 BatchRechargeTrigger.dawn (some ((33, 2) ∷ [])))

recharge_batch-IsWithinMax_example :
    All (IsWithinMax with_wand.catalog) dawned.state.items
    × IsMoved with_wand.items dawned.state.items
unfolding recharge_batch batch_rows
recharge_batch-IsWithinMax_example =
    recharge_batch-IsWithinMax with_wand 20 BatchRechargeTrigger.dawn (some ((33, 2) ∷ [])) dawned
      wand-ItemsAreSound wand-IsWithinMax refl
