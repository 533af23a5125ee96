-- ===== src/Reducer/ChargeActions/Bounds.antt =====
-- That the charges of a row stay within the maximum of its definition.
use dnd_inventory.Prelude.{
  ℕ, ◌≤◌, ◌≡◌, refl, subst, arith, inl, inr, Option, none, some, List, All, find_row, update_row,
  ltb, ◌==◌, ◌&&◌, or_else, Bool-cases, All-find_row, All-update_found, All-remove_row,
  find_row_self,
}
use dnd_inventory.Result.{
  ok, or_throw, returned, passed, found, done, unknown_definition, no_charges, charges_unset,
  bad_quantity, insufficient_charges, no_change,
}
use dnd_inventory.Rules.Charges.{ChargeSpec, use_charge, is_single_use}
use dnd_inventory.State.{State, ItemInstance, ItemDefinition, item_id, definition_id}
use dnd_inventory.Reducer.Shared.{ReducerResult}
use dnd_inventory.Reducer.Counts.{ItemsAreSound}
use dnd_inventory.Reducer.Flags.{resolve_inventory_row}
use dnd_inventory.Reducer.Flags.Flips.{resolve_inventory_row-ok}
use dnd_inventory.Reducer.ChargeActions.{
  charges_of, set_charges, use_up, spent_items, spend_charge, recharged, recharge_single,
}

-- The charges of a row are at most the maximum of its definition, where that has charges.
abbrev pub IsWithinMax : List ItemDefinition → ItemInstance → Type 0
IsWithinMax catalog i =
    (n : ℕ) (def : ItemDefinition) (spec : ChargeSpec)
    → i.current_charges ≡ some n
    → find_row definition_id i.definition_id catalog ≡ some def
    → def.charges ≡ some spec
    → n ≤ spec.max

charges_of-ok :
    (s : State) (row : ItemInstance) (spec : ChargeSpec)
    → charges_of s row ≡ ok spec
    → (def : ItemDefinition) × (find_row definition_id row.definition_id s.catalog ≡ some def)
      × (def.charges ≡ some spec)
charges_of-ok s row spec h =
    found (find_row definition_id row.definition_id s.catalog) unknown_definition _ h
      λ def e h. (def, e, or_throw-ok def.charges h)
  where
    or_throw-ok : (o : Option ChargeSpec) → or_throw o no_charges ≡ ok spec → o ≡ some spec
    or_throw-ok none h = cc
    or_throw-ok (some x) h = cc

-- A row of the same definition that is given `n` charges.
pub given-IsWithinMax :
    (s : State) (row new_row : ItemInstance) (spec : ChargeSpec) (n : ℕ)
    → charges_of s row ≡ ok spec
    → new_row.definition_id ≡ row.definition_id
    → new_row.current_charges ≡ some n
    → n ≤ spec.max
    → IsWithinMax s.catalog new_row
given-IsWithinMax s row new_row spec n h same has below m def' spec' e e_def e_spec =
    let (def, e1, e2) = charges_of-ok s row spec h in
    let e_def' : find_row definition_id row.definition_id s.catalog ≡ some def' =
      subst (λ k. find_row definition_id k s.catalog ≡ some def') same e_def in
    let defs : def ≡ def' = cc in
    let specs : spec ≡ spec' = cc in
    let counts : m ≡ n = cc in subst (λ x. m ≤ x.max) specs (rw counts below)

module _ (s : State) (row : ItemInstance) (spec : ChargeSpec) (sound : ItemsAreSound s.items)
    (within : All (IsWithinMax s.catalog) s.items) (e : find_row item_id row.id s.items ≡ some row)
    (h : charges_of s row ≡ ok spec) where
  set_charges-IsWithinMax :
      (n : ℕ)
      → n ≤ spec.max
      → All (IsWithinMax s.catalog) (update_row item_id row.id (set_charges n) s.items)
  set_charges-IsWithinMax n below =
      All-update_found item_id (IsWithinMax s.catalog) row.id (set_charges n) s.items sound.ids e
        (given-IsWithinMax s row (set_charges n row) spec n h refl refl below) within

  spent_items-IsWithinMax :
      (left : ℕ) → left ≤ spec.max → All (IsWithinMax s.catalog) (spent_items spec row left s.items)
  spent_items-IsWithinMax left below =
      elim (Bool-cases (is_single_use spec && left == 0 && ltb 0 row.quantity)) [
        | inr kept ↦ rw kept (set_charges-IsWithinMax left below)
        | inl used ↦ rw used (elim (Bool-cases (row.quantity == 1)) [
          | inl last ↦
              rw last (All-remove_row item_id (IsWithinMax s.catalog) row.id s.items within)
          | inr more ↦ rw more (
              All-update_found item_id (IsWithinMax s.catalog) row.id (use_up spec.max) s.items
                sound.ids e
                (given-IsWithinMax s row (use_up spec.max row) spec spec.max h refl refl
                  (omega arith))
                within)
        ])
      ]

use_charge-≤ :
    (current amount max left : ℕ) → current ≤ max → use_charge current amount ≡ ok left → left ≤ max
unfolding use_charge
use_charge-≤ current amount max left below e = ground arith

pub recharged-≤ :
    (spec : ChargeSpec) (before : ℕ) (amount : Option ℕ) (after : ℕ)
    → recharged spec before amount ≡ ok after
    → after ≤ spec.max
recharged-≤ spec before none after e = ground arith
recharged-≤ spec before (some amount) after e = ground arith

-- Where ids are distinct, no row is empty and no row has more charges than its definition allows,
-- the last holds after a `use-charge` that succeeds, also where it uses up one item of a stack and
-- charges the rest.
pub spend_charge-IsWithinMax :
    (s : State) (item character_key : ℕ) (amount : Option ℕ) (r : ReducerResult)
    → ItemsAreSound s.items
    → All (IsWithinMax s.catalog) s.items
    → spend_charge (some s) item character_key amount ≡ ok r
    → All (IsWithinMax s.catalog) r.state.items
unfolding spend_charge use_charge
spend_charge-IsWithinMax s item character_key amount r sound within h =
    returned (resolve_inventory_row s item character_key) _ h λ pair got h.
      returned (charges_of s pair.0) _ h λ spec e_spec h.
        found pair.0.current_charges charges_unset _ h λ current e_current h.
          passed (or_else amount 1 == 0) bad_quantity _ h λ _ h.
            passed (ltb current (or_else amount 1)) insufficient_charges _ h λ enough h.
              returned (use_charge current (or_else amount 1)) _ h λ left e_left h. done h λ same.
                let e =
                  find_row_self item_id item s.items
                    (resolve_inventory_row-ok s item character_key pair got).0 in
                let (def, e_def, e_charges) = charges_of-ok s pair.0 spec e_spec in
                let was : current ≤ spec.max =
                  All-find_row item_id (IsWithinMax s.catalog) pair.0.id s.items within e current
                    def spec e_current e_def e_charges in
                let now : left ≤ spec.max =
                  use_charge-≤ current (or_else amount 1) spec.max left was e_left in
                subst (λ (x : ReducerResult). All (IsWithinMax s.catalog) x.state.items) same
                  (spent_items-IsWithinMax s pair.0 spec sound within e e_spec left now)

-- Where ids are distinct, no row is empty and no row has more charges than its definition allows,
-- the last holds after a `recharge` of one row that succeeds, in part or in full.
pub recharge_single-IsWithinMax :
    (s : State) (item character_key : ℕ) (amount : Option ℕ) (r : ReducerResult)
    → ItemsAreSound s.items
    → All (IsWithinMax s.catalog) s.items
    → recharge_single (some s) item character_key amount ≡ ok r
    → All (IsWithinMax s.catalog) r.state.items
unfolding recharge_single
recharge_single-IsWithinMax s item character_key amount r sound within h =
    returned (resolve_inventory_row s item character_key) _ h λ pair got h.
      returned (charges_of s pair.0) _ h λ spec e_spec h.
        returned (recharged spec (or_else pair.0.current_charges 0) amount) _ h λ after e_after h.
          passed (or_else pair.0.current_charges 0 == after) no_change _ h λ _ h. done h λ same.
            let e =
              find_row_self item_id item s.items
                (resolve_inventory_row-ok s item character_key pair got).0 in
            subst (λ (x : ReducerResult). All (IsWithinMax s.catalog) x.state.items) same
              (set_charges-IsWithinMax s pair.0 spec sound within e e_spec after
                (recharged-≤ spec (or_else pair.0.current_charges 0) amount after e_after))
