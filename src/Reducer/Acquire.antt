-- ===== src/Reducer/Acquire.antt =====
-- packages/rules/src/reducer/index.ts: `acquire`, and the tags `#1`, `#2`, ... of containers.
pub mod Tags
pub mod Placing
pub mod Quantities
use dnd_inventory.Prelude.{
  ℕ, suc, Bool, true, false, not, ◌&&◌, Option, none, some, List, [], ◌∷◌, ◌++◌, find, any,
  find_row, update_row, leb, ltb, ◌==◌, or_else, max, ◌+◌, if◌then◌else◌,
}
use dnd_inventory.Prelude.Text.{Text}
use dnd_inventory.Prelude.Decimal.{is_digit, parse_digits, Whole}
use dnd_inventory.Result.{
  Result, ok, ◌>>=◌, ◌>>◌, or_throw, throw_if, bad_uuid, bad_quantity, unknown_stash,
  unknown_definition,
}
use dnd_inventory.State.{
  State, AppState, ItemInstance, ItemDefinition, ItemCategory, Context, item_id, stash_id,
  definition_id,
}
use dnd_inventory.State.Log as Log
use dnd_inventory.State.Log.{AcquireSource, LogSlice}
use dnd_inventory.Rules.Charges.{ChargeSpec}
use dnd_inventory.Reducer.Shared.{
  ReducerResult, require_state, is_inventory, same_notes, check_hard_mode,
}

pub record AcquirePayload : Type 0 where
  pub stash_id : ℕ
  pub definition_id : ℕ
  pub quantity : ℕ
  pub source : AcquireSource
  pub notes : Option Text
  pub new_item_instance_id : ℕ

-- The match of `/^#(\d+)$/`, read by `Number.parseInt`.
unfoldable pub parse_tag : Whole → Text → Option ℕ
unfolding parse_digits
parse_tag whole [] = none
parse_tag whole (c ∷ []) = none
parse_tag whole (c ∷ d ∷ ds) =
    if c == b'#'
    then elim (parse_digits 0 (d ∷ ds)) [ none ↦ none | some n ↦ some (whole.nearest n) ]
    else none

-- The number of a row's tag, 0 where the loop passes the row over.
abbrev pub tag_number : Whole → ℕ → ℕ → ItemInstance → ℕ
tag_number whole def stash row =
    if row.definition_id == def && row.owner_id == stash
    then elim row.notes [ none ↦ 0 | some notes ↦ or_else (parse_tag whole notes) 0 ]
    else 0

unfoldable pub highest_tag : Whole → ℕ → ℕ → ℕ → List ItemInstance → ℕ
highest_tag whole def stash highest [] = highest
highest_tag whole def stash highest (row ∷ rows) =
    let n = tag_number whole def stash row in
    highest_tag whole def stash (if ltb highest n then n else highest) rows

unfoldable pub next_container_notes : Whole → List ItemInstance → ℕ → ℕ → Text
unfolding highest_tag
next_container_notes whole items def stash =
    b'#' ∷ whole.show (whole.nearest (highest_tag whole def stash 0 items + 1))

abbrev is_container : ItemCategory → Bool
is_container ItemCategory.container = true
is_container _ = false

-- The notes of the row: those given, or a fresh tag for a container.
abbrev pub effective_notes : Whole → State → ItemDefinition → AcquirePayload → Option Text
effective_notes whole s definition p = elim p.notes [
  | some notes ↦ some notes
  | none ↦
      if is_container definition.category
      then some (next_container_notes whole s.items p.definition_id p.stash_id)
      else none
]

-- The rows that `acquire` stacks onto.
abbrev pub stacks : ℕ → ℕ → Option Text → ItemInstance → Bool
stacks stash def notes i =
    i.owner_id == stash
    && i.definition_id == def
    && same_notes i.notes notes
    && not i.equipped
    && not i.attuned

abbrev pub charges_max : ItemDefinition → Option ℕ
charges_max d = elim d.charges [ none ↦ none | some spec ↦ some spec.max ]

-- `intoInventory && definition.charges !== undefined ? definition.charges.max : null`
abbrev pub initial_charges : State → ItemDefinition → ℕ → Option ℕ
initial_charges s definition stash = elim (find_row stash_id stash s.stashes) [
  | none ↦ none
  | some target ↦ if is_inventory target then charges_max definition else none
]

abbrev pub acquired_row : Whole → State → ItemDefinition → AcquirePayload → ItemInstance
acquired_row whole s definition p = record {
  id = p.new_item_instance_id;
  definition_id = p.definition_id;
  owner_id = p.stash_id;
  container_instance_id = none;
  quantity = p.quantity;
  equipped = false;
  attuned = false;
  identified = true;
  hint = none;
  current_charges = initial_charges s definition p.stash_id;
  custom_name = none;
  notes = effective_notes whole s definition p;
}

-- The id of the row that takes the items, and the items after it has taken them.
unfoldable pub place_acquired :
    Whole → State → ItemDefinition → AcquirePayload → ℕ × List ItemInstance
unfolding next_container_notes
place_acquired whole s definition p =
    elim (find (stacks p.stash_id p.definition_id (effective_notes whole s definition p)) s.items) [
      | some existing ↦ (
        existing.id,
        update_row item_id existing.id (λ i. record i { quantity = i.quantity + p.quantity })
            s.items,
      )
      | none ↦ (p.new_item_instance_id, s.items ++ acquired_row whole s definition p ∷ [])
    ]

unfoldable pub acquire : Context → AppState → AcquirePayload → Result ReducerResult
unfolding place_acquired
acquire ctx state p = do
  s ← require_state state
  throw_if (not (ctx.is_valid_uuid_v7 p.new_item_instance_id)) bad_uuid
  throw_if (leb p.quantity 0) bad_quantity
  throw_if (not (any (λ st. st.id == p.stash_id) s.stashes)) unknown_stash
  definition ← or_throw (find_row definition_id p.definition_id s.catalog) unknown_definition
  let placed = place_acquired ctx.whole s definition p
  check_hard_mode s placed.1 p.stash_id
  ok (record {
    state = record s { items = placed.1 };
    log_entries = LogSlice.acquire p.stash_id placed.0 p.definition_id p.quantity p.source ∷ [];
  })
