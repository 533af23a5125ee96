-- ===== src/Reducer/Stacks.antt =====
-- packages/rules/src/reducer/index.ts and packages/rules/src/inventory.ts: `consume`,
-- `edit-item-instance` and `split`, and the checks of a quantity to be moved.
pub mod Quantities
use dnd_inventory.Prelude.{
  ℕ, ◌+◌, ◌-◌, Bool, true, false, not, ◌&&◌, Option, none, some, List, [], ◌∷◌, ◌++◌, find,
  find_row, update_row, remove_row, leb, ltb, ◌==◌, or_else, if◌then◌else◌,
}
use dnd_inventory.Prelude.Text.{Text, text_eq}
use dnd_inventory.Result.{
  Result, ok, ◌>>=◌, ◌>>◌, or_throw, throw_if, bad_uuid, bad_quantity, unknown_item, no_change,
  quantity_exceeds_source,
}
use dnd_inventory.State.{State, AppState, ItemInstance, Context, item_id}
use dnd_inventory.State.Log.{LogSlice, ItemField}
use dnd_inventory.Reducer.Shared.{ReducerResult, require_state, same_notes}

-- `findAutoStackTarget` of inventory.ts.
abbrev pub find_auto_stack_target : List ItemInstance → ℕ → ℕ → Option Text → Option ItemInstance
find_auto_stack_target items stash def notes =
    find
      (λ (i : ItemInstance).
        i.owner_id == stash && i.definition_id == def && same_notes i.notes notes)
      items

-- `validateTransfer` of inventory.ts.
abbrev pub validate_transfer : ItemInstance → ℕ → Result (Unit {0})
validate_transfer source qty = do
  throw_if (leb qty 0) bad_quantity
  throw_if (ltb source.quantity qty) quantity_exceeds_source

-- `validateSplit` of inventory.ts.
abbrev pub validate_split : ItemInstance → ℕ → Result (Unit {0})
validate_split source qty = do
  throw_if (leb qty 0) bad_quantity
  throw_if (leb source.quantity qty) quantity_exceeds_source

abbrev pub take_quantity : ℕ → ItemInstance → ItemInstance
take_quantity qty i = record i { quantity = i.quantity - qty }

-- The items once `quantity` of `row` are consumed.
abbrev pub consumed_items : ItemInstance → ℕ → List ItemInstance → List ItemInstance
consumed_items row quantity items =
    let remaining = row.quantity - quantity in
    if remaining == 0
    then remove_row item_id row.id items
    else update_row item_id row.id (λ i. record i { quantity = remaining }) items

unfoldable pub consume : AppState → ℕ → ℕ → Result ReducerResult
consume state item quantity = do
  s ← require_state state
  throw_if (leb quantity 0) bad_quantity
  row ← or_throw (find_row item_id item s.items) unknown_item
  throw_if (ltb row.quantity quantity) quantity_exceeds_source
  let removed = (row.quantity - quantity) == 0
  ok (record {
    state = record s { items = consumed_items row quantity s.items };
    log_entries = LogSlice.consume row.owner_id row.id quantity removed ∷ [];
  })

-- A key of the patch: absent, or present with a value that may be undefined.
abbrev pub Patch : Type 0
Patch = Option (Option Text)

abbrev pub opt_text_eq : Option Text → Option Text → Bool
opt_text_eq none none = true
opt_text_eq (some a) (some b) = text_eq a b
opt_text_eq _ _ = false

-- Whether a key is in the patch and differs from the row's value.
abbrev pub changes : Patch → Option Text → Bool
changes none old = false
changes (some new_value) old = not (opt_text_eq new_value old)

unfoldable pub edit_item_instance : AppState → ℕ → Patch → Patch → Result ReducerResult
edit_item_instance state item name_patch notes_patch = do
  s ← require_state state
  row ← or_throw (find_row item_id item s.items) unknown_item
  let name_changes = changes name_patch row.custom_name
  let notes_change = changes notes_patch row.notes
  throw_if (not name_changes && not notes_change) no_change
  let next = record row {
    custom_name = if name_changes then or_else name_patch none else row.custom_name;
    notes = if notes_change then or_else notes_patch none else row.notes;
  }
  let fields =
      (if name_changes then ItemField.custom_name ∷ [] else [])
      ++ (if notes_change then ItemField.notes ∷ [] else [])
  ok (record {
    state = record s { items = update_row item_id row.id (λ _. next) s.items };
    log_entries = LogSlice.edit_item_instance row.id fields ∷ [];
  })

-- The row that `split` and the auto-split of `equip` break off.
abbrev pub split_row : ItemInstance → ℕ → ℕ → ItemInstance
split_row source new_id qty = record source {
  id = new_id;
  quantity = qty;
  equipped = false;
  attuned = false;
}

unfoldable pub split : Context → AppState → ℕ → ℕ → ℕ → Result ReducerResult
split ctx state item quantity new_id = do
  s ← require_state state
  throw_if (not (ctx.is_valid_uuid_v7 new_id)) bad_uuid
  source ← or_throw (find_row item_id item s.items) unknown_item
  validate_split source quantity
  ok (record {
    state = record s {
      items =
          update_row item_id source.id (take_quantity quantity) s.items
          ++ split_row source new_id quantity ∷ [];
    };
    log_entries = LogSlice.split source.id new_id quantity source.owner_id ∷ [];
  })
