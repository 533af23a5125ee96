-- ===== src/Reducer/Flags.antt =====
-- packages/rules/src/reducer/index.ts: `equip`, `unequip`, `attune` and `unattune`.
pub mod Flips
pub mod Restack
pub mod Singles
pub mod Slots
use dnd_inventory.Prelude.{
  ℕ, ◌-◌, Bool, true, false, not, ◌&&◌, Option, none, some, List, [], ◌∷◌, ◌++◌, find, find_row,
  update_row, remove_row, filter, length, ◌+◌, ltb, bool_eq, opt_eq, is_some, ◌==◌, if◌then◌else◌,
}
use dnd_inventory.Prelude.Text.{Text}
use dnd_inventory.Result.{
  Result, ok, ◌>>=◌, ◌>>◌, or_throw, throw_if, bad_uuid, unknown_character, unknown_item,
  not_in_inventory, already_in_state, missing_split_id, unknown_definition, not_magic, no_free_slot,
}
use dnd_inventory.Rules.Attunement.{has_free_slot}
use dnd_inventory.State.{
  State, AppState, ItemInstance, Character, Context, item_id, character_id, definition_id,
}
use dnd_inventory.State.Log.{LogSlice}
use dnd_inventory.Reducer.Shared.{ReducerResult, require_state, same_notes}

-- `resolveInventoryRow`
abbrev pub resolve_inventory_row : State → ℕ → ℕ → Result (ItemInstance × Character)
resolve_inventory_row s item character_key = do
  character ← or_throw (find_row character_id character_key s.characters) unknown_character
  row ← or_throw (find_row item_id item s.items) unknown_item
  throw_if (not (row.owner_id == character.inventory_stash_id)) not_in_inventory
  ok (row, character)

-- The patch `{ equipped?, attuned? }`, of which the callers give one.
pub data FlagPatch : Type 0 where
  equipped attuned : Bool → FlagPatch

abbrev pub patch_row : FlagPatch → ItemInstance → ItemInstance
patch_row (FlagPatch.equipped b) i = record i { equipped = b }
patch_row (FlagPatch.attuned b) i = record i { attuned = b }

-- A row that may merge: no flag, no charges.
abbrev pub is_mundane : ItemInstance → Bool
is_mundane i = not i.equipped && not i.attuned && not (is_some i.current_charges)

-- The rows that a row whose flags are cleared merges into.
abbrev pub merges_with : ItemInstance → ItemInstance → Bool
merges_with source i =
    not (i.id == source.id)
    && i.owner_id == source.owner_id
    && i.definition_id == source.definition_id
    && same_notes i.notes source.notes
    && opt_eq i.container_instance_id source.container_instance_id
    && is_mundane i

-- `applyFlagFlipWithRestack`
unfoldable pub flip_and_restack : List ItemInstance → ℕ → FlagPatch → List ItemInstance
flip_and_restack items row patch = elim (find_row item_id row items) [
  | none ↦ update_row item_id row (patch_row patch) items
  | some source ↦
      let patched = patch_row patch source in
      if is_mundane patched
      then elim (find (merges_with source) items) [
        | none ↦ update_row item_id row (λ _. patched) items
        | some target ↦
            update_row item_id target.id
              (λ (i : ItemInstance). record i { quantity = i.quantity + patched.quantity })
              (remove_row item_id source.id items)
      ]
      else update_row item_id row (λ _. patched) items
]

-- The row that the auto-split breaks off, with the one flag set.
abbrev pub single_row : ItemInstance → ℕ → FlagPatch → ItemInstance
single_row row new_id patch =
    patch_row patch (record row { id = new_id; quantity = 1; equipped = false; attuned = false })

-- The items after the auto-split.
abbrev pub split_off_items : List ItemInstance → ItemInstance → ℕ → FlagPatch → List ItemInstance
split_off_items items row new_id patch =
    update_row item_id row.id (λ (i : ItemInstance). record i { quantity = i.quantity - 1 }) items
    ++ single_row row new_id patch ∷ []

-- The auto-split of a stacked row; `log` is the entry of the row that was flipped.
abbrev pub split_off :
    Context → State → ItemInstance → Option ℕ → FlagPatch → (ℕ → LogSlice) → Result ReducerResult
split_off ctx s row new_item patch log = do
  new_id ← or_throw new_item missing_split_id
  throw_if (not (ctx.is_valid_uuid_v7 new_id)) bad_uuid
  ok (record {
    state = record s { items = split_off_items s.items row new_id patch };
    log_entries = LogSlice.split row.id new_id 1 row.owner_id ∷ log new_id ∷ [];
  })

-- What both handlers do after their checks.
abbrev pub flip :
    Context
    → State
    → ItemInstance
    → Bool
    → Option ℕ
    → FlagPatch
    → (ℕ → LogSlice)
    → Result ReducerResult
flip ctx s row on new_item patch log =
    if on && ltb 1 row.quantity
    then split_off ctx s row new_item patch log
    else ok (record {
      state = record s { items = flip_and_restack s.items row.id patch };
      log_entries = log row.id ∷ [];
    })

pub record EquipPayload : Type 0 where
  pub item_instance_id : ℕ
  pub character_id : ℕ
  pub slot : Option Text
  pub new_item_instance_id : Option ℕ

abbrev equip_log : Bool → EquipPayload → ℕ → LogSlice
equip_log true p item = LogSlice.equip item p.character_id p.slot
equip_log false p item = LogSlice.unequip item p.character_id p.slot

-- `equip` where `on`, else `unequip`.
unfoldable pub equip_or_unequip : Context → AppState → Bool → EquipPayload → Result ReducerResult
unfolding flip_and_restack
equip_or_unequip ctx state on p = do
  s ← require_state state
  (row, character) ← resolve_inventory_row s p.item_instance_id p.character_id
  throw_if (bool_eq row.equipped on) already_in_state
  flip ctx s row on p.new_item_instance_id (FlagPatch.equipped on) (equip_log on p)

pub record AttunePayload : Type 0 where
  pub item_instance_id : ℕ
  pub character_id : ℕ
  pub override_cap : Bool
  pub new_item_instance_id : Option ℕ

-- How many rows of a stash are attuned.
abbrev pub attuned_count : ℕ → List ItemInstance → ℕ
attuned_count stash items = length (filter (λ i. i.owner_id == stash && i.attuned) items)

abbrev pub requires_attunement : Option Bool → Bool
requires_attunement (some true) = true
requires_attunement _ = false

-- The checks of `attune` only: a magic item, and a free slot unless overridden.
abbrev pub check_attune : State → ItemInstance → Character → Bool → Result (Unit {0})
check_attune s row character override_cap = do
  def ← or_throw (find_row definition_id row.definition_id s.catalog) unknown_definition
  throw_if (not (requires_attunement def.requires_attunement)) not_magic
  throw_if
      (not override_cap
        && not (
            has_free_slot (attuned_count character.inventory_stash_id s.items)
              character.max_attunement))
      no_free_slot

abbrev attune_log : Bool → AttunePayload → ℕ → LogSlice
attune_log true p item = LogSlice.attune item p.character_id p.override_cap
attune_log false p item = LogSlice.unattune item p.character_id

-- `attune` where `on`, else `unattune`.
unfoldable pub attune_or_unattune : Context → AppState → Bool → AttunePayload → Result ReducerResult
unfolding flip_and_restack
attune_or_unattune ctx state on p = do
  s ← require_state state
  (row, character) ← resolve_inventory_row s p.item_instance_id p.character_id
  throw_if (bool_eq row.attuned on) already_in_state
  if on then check_attune s row character p.override_cap else ok tt
  flip ctx s row on p.new_item_instance_id (FlagPatch.attuned on) (attune_log on p)
