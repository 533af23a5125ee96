-- ===== src/Reducer/Identify.antt =====
-- packages/rules/src/reducer/index.ts: `identify` and `identify-batch`.
pub mod Batch
use dnd_inventory.Prelude.{
  ℕ, Bool, true, false, not, ◌&&◌, Option, none, some, List, [], ◌∷◌, map, filter, find_row,
  update_row, includes, bool_eq, or_else, is_some, ◌==◌, if◌then◌else◌,
}
use dnd_inventory.Prelude.Text.{Text}
use dnd_inventory.Result.{
  Result, ok, ◌>>=◌, ◌>>◌, or_throw, throw_if, unknown_item, unknown_definition, no_change,
}
use dnd_inventory.State.{State, AppState, ItemInstance, item_id, definition_id}
use dnd_inventory.State.Log.{LogSlice}
use dnd_inventory.Reducer.Shared.{ReducerResult, require_state}
use dnd_inventory.Reducer.Stacks.{Patch, opt_text_eq}
use dnd_inventory.Reducer.Transfer.{is_empty}

-- The hint of a row: the payload's where it has the key, else the old one.
abbrev pub patched_hint : Patch → ItemInstance → Option Text
patched_hint patch i = or_else patch i.hint

abbrev pub identify_row : Bool → Patch → ItemInstance → ItemInstance
identify_row flag patch i = record i { identified = flag; hint = patched_hint patch i }

abbrev pub identify_log : Bool → Patch → ItemInstance → LogSlice
identify_log flag patch i = LogSlice.identify i.id i.identified flag i.hint (patched_hint patch i)

unfoldable pub identify : AppState → ℕ → Bool → Patch → Result ReducerResult
identify state item flag patch = do
  s ← require_state state
  row ← or_throw (find_row item_id item s.items) unknown_item
  _ ← or_throw (find_row definition_id row.definition_id s.catalog) unknown_definition
  throw_if (bool_eq row.identified flag && opt_text_eq row.hint (patched_hint patch row)) no_change
  ok (record {
    state = record s {
      items = update_row item_id row.id (λ _. identify_row flag patch row) s.items;
    };
    log_entries = identify_log flag patch row ∷ [];
  })

-- The rows that a batch changes.
abbrev pub is_affected : ℕ → Bool → ItemInstance → Bool
is_affected definition flag i = i.definition_id == definition && not (bool_eq i.identified flag)

abbrev pub affected_rows : ℕ → Bool → List ItemInstance → List ItemInstance
affected_rows definition flag items = filter (is_affected definition flag) items

abbrev pub identify_affected : List ℕ → Bool → Patch → ItemInstance → ItemInstance
identify_affected ids flag patch i = if includes i.id ids then identify_row flag patch i else i

unfoldable pub identify_batch : AppState → ℕ → Bool → Patch → Result ReducerResult
identify_batch state definition flag patch = do
  s ← require_state state
  let affected = affected_rows definition flag s.items
  throw_if (is_empty affected) no_change
  ok (record {
    state = record s { items = map (identify_affected (map item_id affected) flag patch) s.items };
    log_entries = map (identify_log flag patch) affected;
  })
