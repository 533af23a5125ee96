-- ===== src/Reducer/ChargeActions.antt =====
-- packages/rules/src/reducer/index.ts: `use-charge` and `recharge`.
pub mod Bounds
pub mod Batch
use dnd_inventory.Prelude.{
  ℕ, ◌+◌, ◌-◌, Bool, true, false, not, ◌&&◌, Option, none, some, List, [], ◌∷◌, ◌++◌, map, find,
  find_row, update_row, remove_row, min, ltb, ◌==◌, or_else, is_some, if◌then◌else◌,
}
use dnd_inventory.Result.{
  Result, ok, ◌>>=◌, ◌>>◌, or_throw, throw_if, unknown_definition, unknown_character, no_charges,
  charges_unset, bad_quantity, insufficient_charges, no_change,
}
use dnd_inventory.Rules.Charges.{
  ChargeSpec, BatchRechargeTrigger, use_charge, recharge_to, is_single_use,
  eligible_for_batch_recharge,
}
use dnd_inventory.State.{
  State, AppState, ItemInstance, ItemDefinition, Character, item_id, definition_id, character_id,
}
use dnd_inventory.State.Log.{LogSlice}
use dnd_inventory.Reducer.Shared.{ReducerResult, require_state}
use dnd_inventory.Reducer.Flags.{resolve_inventory_row}

-- The definition of a row, and its block of charges.
abbrev pub charges_of : State → ItemInstance → Result ChargeSpec
charges_of s row = do
  def ← or_throw (find_row definition_id row.definition_id s.catalog) unknown_definition
  or_throw def.charges no_charges

abbrev pub set_charges : ℕ → ItemInstance → ItemInstance
set_charges n i = record i { current_charges = some n }

-- One item of a stack is used up, the rest is fully charged.
abbrev pub use_up : ℕ → ItemInstance → ItemInstance
use_up max i = record i { quantity = i.quantity - 1; current_charges = some max }

-- The items after the charges of `row` have become `left`.
abbrev pub spent_items : ChargeSpec → ItemInstance → ℕ → List ItemInstance → List ItemInstance
spent_items spec row left items =
    if is_single_use spec && left == 0 && ltb 0 row.quantity
    then if row.quantity == 1
      then remove_row item_id row.id items
      else update_row item_id row.id (use_up spec.max) items
    else update_row item_id row.id (set_charges left) items

unfoldable pub spend_charge : AppState → ℕ → ℕ → Option ℕ → Result ReducerResult
spend_charge state item character_key given_amount = do
  s ← require_state state
  (row, _) ← resolve_inventory_row s item character_key
  spec ← charges_of s row
  current ← or_throw row.current_charges charges_unset
  let amount = or_else given_amount 1
  throw_if (amount == 0) bad_quantity
  throw_if (ltb current amount) insufficient_charges
  left ← use_charge current amount
  let consumed = is_single_use spec && left == 0 && ltb 0 row.quantity
  ok (record {
    state = record s { items = spent_items spec row left s.items };
    log_entries =
        LogSlice.use_charge row.id character_key amount
        ∷ (if consumed
            then LogSlice.consume row.owner_id row.id 1 (row.quantity == 1) ∷ []
            else []);
  })

-- The charges after a recharge: all of them, or an amount up to the maximum.
abbrev pub recharged : ChargeSpec → ℕ → Option ℕ → Result ℕ
recharged spec before none = ok (recharge_to spec)
recharged spec before (some amount) = do
  throw_if (amount == 0) bad_quantity
  ok (min (before + amount) spec.max)

-- The modes `single` and `manual`.
unfoldable pub recharge_single : AppState → ℕ → ℕ → Option ℕ → Result ReducerResult
recharge_single state item character_key amount = do
  s ← require_state state
  (row, _) ← resolve_inventory_row s item character_key
  spec ← charges_of s row
  let before = or_else row.current_charges 0
  after ← recharged spec before amount
  throw_if (before == after) no_change
  ok (record {
    state = record s { items = update_row item_id row.id (set_charges after) s.items };
    log_entries = LogSlice.recharge row.id character_key before after none ∷ [];
  })

pub record Update : Type 0 where
  pub row : ItemInstance
  pub before : ℕ
  pub after : ℕ

-- The amount rolled for a row whose definition has a formula.
abbrev pub roll_amount : Option (List (ℕ × ℕ)) → ChargeSpec → ItemInstance → Option ℕ
roll_amount none spec row = none
roll_amount (some amounts) spec row =
    if is_some spec.recharge_amount
    then elim (find (λ (a : ℕ × ℕ). a.0 == row.id) amounts) [ none ↦ none | some a ↦ some a.1 ]
    else none

-- The charges of a row that the batch regards: in the Inventory, with charges that the trigger
-- restores.
abbrev pub batch_spec : State → Character → BatchRechargeTrigger → ItemInstance → Option ChargeSpec
batch_spec s character trigger row =
    if row.owner_id == character.inventory_stash_id
    then elim (find_row definition_id row.definition_id s.catalog) [
      | none ↦ none
      | some def ↦ elim def.charges [
        | none ↦ none
        | some spec ↦ if eligible_for_batch_recharge spec trigger then some spec else none
      ]
    ]
    else none

-- The updates of one row: none where the loop passes it over.
abbrev pub batch_row :
    State
    → Character
    → BatchRechargeTrigger
    → Option (List (ℕ × ℕ))
    → ItemInstance
    → Result (List Update)
batch_row s character trigger amounts row = elim (batch_spec s character trigger row) [
  | none ↦ ok []
  | some spec ↦
      let before = or_else row.current_charges 0 in
      recharged spec before (roll_amount amounts spec row) >>= λ after.
      ok (
        if before == after then [] else (record { row = row; before = before; after = after }) ∷ [])
]

unfoldable pub batch_rows :
    State
    → Character
    → BatchRechargeTrigger
    → Option (List (ℕ × ℕ))
    → List ItemInstance
    → Result (List Update)
batch_rows s character trigger amounts [] = ok []
batch_rows s character trigger amounts (row ∷ rows) = do
  here ← batch_row s character trigger amounts row
  rest ← batch_rows s character trigger amounts rows
  ok (here ++ rest)

abbrev pub apply_update : List Update → ItemInstance → ItemInstance
apply_update updated i = elim (find (λ (u : Update). u.row.id == i.id) updated) [
  | none ↦ i
  | some u ↦ set_charges u.after i
]

-- The mode `batch`.
unfoldable pub recharge_batch :
    AppState → ℕ → BatchRechargeTrigger → Option (List (ℕ × ℕ)) → Result ReducerResult
unfolding batch_rows
recharge_batch state character_key trigger amounts = do
  s ← require_state state
  character ← or_throw (find_row character_id character_key s.characters) unknown_character
  updated ← batch_rows s character trigger amounts s.items
  ok (record {
    state = record s { items = map (apply_update updated) s.items };
    log_entries =
        map
          (λ (u : Update). LogSlice.recharge u.row.id character_key u.before u.after (some trigger))
          updated;
  })
