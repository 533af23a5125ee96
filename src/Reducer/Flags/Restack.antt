-- ===== src/Reducer/Flags/Restack.antt =====
-- What `equip`, `unequip`, `attune` and `unattune` do to the quantities.
use dnd_inventory.Prelude.{
  ℕ, ◌-◌, ◌<◌, ◌≡◌, ◌≢◌, refl, subst, arith, Bool, true, false, inl, inr, Option, some, List,
  Absent, find_row, update_row, find, Bool-cases, Option-cases, find-true, find-find_row,
  find_row_self, sum_of-update_row, Absent-update_row,
}
use dnd_inventory.Result.{ok}
use dnd_inventory.State.{State, ItemInstance, Context, item_id}
use dnd_inventory.Reducer.Shared.{ReducerResult}
use dnd_inventory.Reducer.Counts.{
  quantity_as, ItemsAreSound, snoc-ItemsAreSound, count_of-snoc, update-ItemsAreSound, IsMoved,
  Keeps, set-IsMoved, merge-IsMoved,
}
use dnd_inventory.Reducer.Flags.{
  FlagPatch, patch_row, is_mundane, merges_with, flip_and_restack, single_row, split_off_items,
  EquipPayload, equip_or_unequip, AttunePayload, attune_or_unattune,
}
use dnd_inventory.Reducer.Flags.Flips.{
  Fresh, FlippedItems, split_away, flipped, equip_or_unequip-IsFlip, attune_or_unattune-IsFlip,
}

pub patch_row-Keeps : (patch : FlagPatch) → Keeps (patch_row patch)
patch_row-Keeps (FlagPatch.equipped b) i = (refl, refl, refl)
patch_row-Keeps (FlagPatch.attuned b) i = (refl, refl, refl)

-- A row to merge into is another one, of the same definition.
pub merges_with-ok :
    (source target : ItemInstance)
    → merges_with source target ≡ true
    → (target.id ≢ source.id) × (target.definition_id ≡ source.definition_id)
merges_with-ok source target h = ((λ e. absurd (ground arith)), ground arith)

module _ (items : List ItemInstance) (row : ItemInstance) (sound : ItemsAreSound items)
    (e : find_row item_id row.id items ≡ some row) (patch : FlagPatch) where
  flip_and_restack-IsMoved : IsMoved items (flip_and_restack items row.id patch)
  unfolding flip_and_restack
  flip_and_restack-IsMoved =
      let keeps = patch_row-Keeps patch row in
      let overwritten = set-IsMoved items row.id row (patch_row patch row) sound e keeps in
      rw (flip_and_restack, e)
        (elim (Bool-cases (is_mundane (patch_row patch row))) [
          | inr flagged ↦ rw flagged overwritten
          | inl mundane ↦ rw mundane (elim (Option-cases (find (merges_with row) items)) [
            | inl nothing ↦ rw nothing overwritten
            | inr (target, hit) ↦
                let other = merges_with-ok row target (find-true (merges_with row) items hit) in
                rw (hit, keeps.2)
                  (merge-IsMoved items row target sound e
                    (find-find_row item_id (merges_with row) items sound.ids hit) other.0 other.1)
          ])
        ])

  split_off_items-IsMoved :
      (new_id : ℕ)
      → Absent item_id new_id items
      → 1 < row.quantity
      → IsMoved items (split_off_items items row new_id patch)
  split_off_items-IsMoved new_id fresh many =
      let f : ItemInstance → ItemInstance = λ i. record i { quantity = i.quantity - 1 } in
      let keeps =
        patch_row-Keeps patch
          (record row { id = new_id; quantity = 1; equipped = false; attuned = false }) in
      record {
        counts = λ def. ground (
          arith,
          keeps,
          count_of-snoc (update_row item_id row.id f items) (single_row row new_id patch) def,
          sum_of-update_row item_id (quantity_as def) row.id f items sound.ids e,
        );
        sound =
            snoc-ItemsAreSound (update_row item_id row.id f items) (single_row row new_id patch)
              (rw keeps.0 (Absent-update_row item_id new_id row.id f items (λ _ h. h) fresh))
              (rw keeps.2 (omega arith))
              (update-ItemsAreSound items row row.id f (λ _. refl) e (omega arith) sound);
      }

pub FlippedItems-IsMoved :
    (items : List ItemInstance) (row : ItemInstance) (new_item : Option ℕ) (on : Bool)
    (patch : FlagPatch) (after : List ItemInstance)
    → ItemsAreSound items
    → find_row item_id row.id items ≡ some row
    → Fresh new_item items
    → FlippedItems items row new_item on patch after
    → IsMoved items after
FlippedItems-IsMoved items row new_item on patch _ sound e fresh (split_away new_id given many) =
    split_off_items-IsMoved items row sound e patch new_id (subst (λ o. Fresh o items) given fresh)
      many
FlippedItems-IsMoved items row new_item on patch _ sound e fresh (flipped few) =
    flip_and_restack-IsMoved items row sound e patch

-- Where ids are distinct and no row is empty, an `equip` or `unequip` that succeeds, with no row's
-- id for a split, leaves every definition's quantity as it was, whether it splits a row off, merges
-- the row away or only flips it; ids stay distinct, no row is left empty, and nothing but the items
-- changes.
pub equip_or_unequip-IsMoved :
    (ctx : Context) (s : State) (on : Bool) (p : EquipPayload) (r : ReducerResult)
    → ItemsAreSound s.items
    → Fresh p.new_item_instance_id s.items
    → equip_or_unequip ctx (some s) on p ≡ ok r
    → IsMoved s.items r.state.items × (r.state ≡ record s { items = r.state.items })
equip_or_unequip-IsMoved ctx s on p r sound fresh h =
    let flip = equip_or_unequip-IsFlip ctx s on p r h in
    (
      FlippedItems-IsMoved s.items flip.row p.new_item_instance_id on _ r.state.items sound
          (find_row_self item_id p.item_instance_id s.items flip.row_found) fresh flip.items,
      flip.rest,
    )

-- Where ids are distinct and no row is empty, an `attune` or `unattune` that succeeds, with no
-- row's id for a split, leaves every definition's quantity as it was; ids stay distinct, no row is
-- left empty, and nothing but the items changes.
pub attune_or_unattune-IsMoved :
    (ctx : Context) (s : State) (on : Bool) (p : AttunePayload) (r : ReducerResult)
    → ItemsAreSound s.items
    → Fresh p.new_item_instance_id s.items
    → attune_or_unattune ctx (some s) on p ≡ ok r
    → IsMoved s.items r.state.items × (r.state ≡ record s { items = r.state.items })
attune_or_unattune-IsMoved ctx s on p r sound fresh h =
    let flip = (attune_or_unattune-IsFlip ctx s on p r h).0 in
    (
      FlippedItems-IsMoved s.items flip.row p.new_item_instance_id on _ r.state.items sound
          (find_row_self item_id p.item_instance_id s.items flip.row_found) fresh flip.items,
      flip.rest,
    )
