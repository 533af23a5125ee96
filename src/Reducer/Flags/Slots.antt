-- ===== src/Reducer/Flags/Slots.antt =====
-- That `attune` keeps to a character's attunement slots.
use dnd_inventory.Prelude.{
  ℕ, ◌+◌, ◌-◌, ◌<◌, ◌≤◌, ◌≡◌, refl, subst, arith, true, false, Option, some, List, [], ◌∷◌, ◌++◌,
  find_row, update_row, ◌==◌, not, ◌&&◌, if◌then◌else◌, sum_of, sum_of-append, sum_of-update_row,
  find_row_self,
}
use dnd_inventory.Result.{ok, passed, found, unknown_definition, not_magic}
use dnd_inventory.State.{
  State, ItemInstance, Character, Context, item_id, definition_id, character_id,
}
use dnd_inventory.Reducer.Shared.{ReducerResult}
use dnd_inventory.Reducer.Counts.{ItemsAreSound}
use dnd_inventory.Reducer.Flags.{
  FlagPatch, patch_row, is_mundane, flip_and_restack, single_row, AttunePayload, attuned_count,
  requires_attunement, check_attune, attune_or_unattune,
}
use dnd_inventory.Reducer.Flags.Flips.{FlippedItems, split_away, flipped, attune_or_unattune-IsFlip}

abbrev attuned_as : ℕ → ItemInstance → ℕ
attuned_as stash i = if i.owner_id == stash && i.attuned then 1 else 0

attuned_count-sum_of :
    (stash : ℕ) (items : List ItemInstance)
    → attuned_count stash items ≡ sum_of (attuned_as stash) items
attuned_count-sum_of stash [] = refl
attuned_count-sum_of stash (i ∷ items) = ground (arith, attuned_count-sum_of stash items)

attuned_row-flagged :
    (row : ItemInstance) → is_mundane (patch_row (FlagPatch.attuned true) row) ≡ false
attuned_row-flagged row = ground arith

-- Setting the flag on one row attunes at most one more.
FlippedItems-attuned_count :
    (items : List ItemInstance) (row : ItemInstance) (new_item : Option ℕ)
    (after : List ItemInstance) (stash : ℕ)
    → ItemsAreSound items
    → find_row item_id row.id items ≡ some row
    → FlippedItems items row new_item true (FlagPatch.attuned true) after
    → attuned_count stash after ≤ attuned_count stash items + 1
unfolding flip_and_restack
FlippedItems-attuned_count items row new_item _ stash sound e (split_away new_id given many) =
    let f : ItemInstance → ItemInstance = λ i. record i { quantity = i.quantity - 1 } in
    let last = single_row row new_id (FlagPatch.attuned true) in
    let rest = update_row item_id row.id f items in
    ground (
      arith,
      attuned_count-sum_of stash items,
      attuned_count-sum_of stash (rest ++ last ∷ []),
      sum_of-append (attuned_as stash) rest (last ∷ []),
      sum_of-update_row item_id (attuned_as stash) row.id f items sound.ids e,
    )
FlippedItems-attuned_count items row new_item _ stash sound e (flipped few) =
    rw (flip_and_restack, e, attuned_row-flagged row) overwritten
  where
    patched : ItemInstance
    patched = record row { attuned = true }

    overwritten :
        attuned_count stash (update_row item_id row.id (λ _. patched) items)
        ≤ attuned_count stash items + 1
    overwritten = ground (
      arith,
      attuned_count-sum_of stash items,
      attuned_count-sum_of stash (update_row item_id row.id (λ _. patched) items),
      sum_of-update_row item_id (attuned_as stash) row.id (λ _. patched) items sound.ids e,
    )

-- The check of `attune` leaves a slot where the cap is not overridden.
check_attune-free :
    (s : State) (row : ItemInstance) (character : Character)
    → check_attune s row character false ≡ ok tt
    → attuned_count character.inventory_stash_id s.items < character.max_attunement
check_attune-free s row character h =
    found (find_row definition_id row.definition_id s.catalog) unknown_definition _ h λ def _ h.
      passed (not (requires_attunement def.requires_attunement)) not_magic _ h λ _ h. ground arith

-- Where ids are distinct and no row is empty, after an `attune` that succeeds and does not override
-- the cap, the character's Inventory has no more attuned rows than the character has slots.
pub attune-slots :
    (ctx : Context) (s : State) (p : AttunePayload) (r : ReducerResult)
    → ItemsAreSound s.items
    → p.override_cap ≡ false
    → attune_or_unattune ctx (some s) true p ≡ ok r
    → (character : Character) × (find_row character_id p.character_id s.characters ≡ some character)
      × (attuned_count character.inventory_stash_id r.state.items ≤ character.max_attunement)
attune-slots ctx s p r sound capped h =
    let step = attune_or_unattune-IsFlip ctx s true p r h in
    let flip = step.0 in
    let free =
      check_attune-free s flip.row flip.character
        (subst (λ b. check_attune s flip.row flip.character b ≡ ok tt) capped step.1) in
    let one_more =
      FlippedItems-attuned_count s.items flip.row p.new_item_instance_id r.state.items
        flip.character.inventory_stash_id sound
        (find_row_self item_id p.item_instance_id s.items flip.row_found) flip.items in
    (flip.character, flip.character_found, omega (arith, free, one_more))
