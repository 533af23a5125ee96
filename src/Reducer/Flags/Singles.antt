-- ===== src/Reducer/Flags/Singles.antt =====
-- That an equipped or attuned row is a single item.
use dnd_inventory.Prelude.{
  ℕ, ◌+◌, ◌-◌, ◌<◌, ◌≡◌, refl, ◌∙◌, arith, Bool, true, false, inl, inr, Option, some, List, [], ◌∷◌,
  All, All-append, find_row, update_row, remove_row, find, ◌&&◌, ◌||◌, ltb, Bool-cases,
  Option-cases, find-true, find-find_row, find_row_self, find_row-remove_row_ne, All-find_row,
  All-update_found, All-remove_row, Unique-remove_row,
}
use dnd_inventory.Result.{ok}
use dnd_inventory.State.{State, ItemInstance, Context, item_id}
use dnd_inventory.Reducer.Shared.{ReducerResult}
use dnd_inventory.Reducer.Counts.{ItemsAreSound}
use dnd_inventory.Reducer.Flags.{
  FlagPatch, patch_row, is_mundane, merges_with, flip_and_restack, single_row, split_off_items,
  EquipPayload, equip_or_unequip, AttunePayload, attune_or_unattune,
}
use dnd_inventory.Reducer.Flags.Flips.{
  FlippedItems, split_away, flipped, equip_or_unequip-IsFlip, attune_or_unattune-IsFlip,
}
use dnd_inventory.Reducer.Flags.Restack.{merges_with-ok}

abbrev pub IsSingle : ItemInstance → Type 0
IsSingle i = (i.equipped || i.attuned) ≡ true → i.quantity ≡ 1

-- Whichever row is equipped or attuned has quantity 1.
abbrev pub FlaggedAreSingle : List ItemInstance → Type 0
FlaggedAreSingle items = All IsSingle items

abbrev patch_value : FlagPatch → Bool
patch_value (FlagPatch.equipped b) = b
patch_value (FlagPatch.attuned b) = b

patched-IsSingle :
    (patch : FlagPatch) (row : ItemInstance)
    → IsSingle row
    → 0 < row.quantity
    → (patch_value patch && ltb 1 row.quantity) ≡ false
    → IsSingle (patch_row patch row)
patched-IsSingle (FlagPatch.equipped true) row single p few = λ _. ground arith
patched-IsSingle (FlagPatch.equipped false) row single p few = λ h. single (ground arith)
patched-IsSingle (FlagPatch.attuned true) row single p few = λ _. ground arith
patched-IsSingle (FlagPatch.attuned false) row single p few = λ h. single (ground arith)

single_row-IsSingle :
    (row : ItemInstance) (new_id : ℕ) (patch : FlagPatch) → IsSingle (single_row row new_id patch)
single_row-IsSingle row new_id (FlagPatch.equipped b) _ = refl
single_row-IsSingle row new_id (FlagPatch.attuned b) _ = refl

module _ (items : List ItemInstance) (row : ItemInstance) (sound : ItemsAreSound items)
    (singles : FlaggedAreSingle items) (e : find_row item_id row.id items ≡ some row)
    (patch : FlagPatch) where
  row-IsSingle : IsSingle row
  row-IsSingle = All-find_row item_id IsSingle row.id items singles e

  row-positive : 0 < row.quantity
  row-positive =
      All-find_row item_id (λ (i : ItemInstance). 0 < i.quantity) row.id items sound.filled e

  flip_and_restack-FlaggedAreSingle :
      (patch_value patch && ltb 1 row.quantity) ≡ false
      → FlaggedAreSingle (flip_and_restack items row.id patch)
  unfolding flip_and_restack
  flip_and_restack-FlaggedAreSingle few =
      let patched = patch_row patch row in
      let overwritten : FlaggedAreSingle (update_row item_id row.id (λ _. patched) items) =
        All-update_found item_id IsSingle row.id (λ _. patched) items sound.ids e
          (patched-IsSingle patch row row-IsSingle row-positive few) singles in
      rw (flip_and_restack, e)
        (elim (Bool-cases (is_mundane patched)) [
          | inr flagged ↦ rw flagged overwritten
          | inl mundane ↦ rw mundane (elim (Option-cases (find (merges_with row) items)) [
            | inl nothing ↦ rw nothing overwritten
            | inr (target, hit) ↦
                let holds = find-true (merges_with row) items hit in
                let rest = remove_row item_id row.id items in
                rw hit (
                  All-update_found item_id IsSingle target.id
                    (λ (i : ItemInstance). record i { quantity = i.quantity + patched.quantity })
                    rest (Unique-remove_row item_id row.id items sound.ids)
                    (find_row-remove_row_ne item_id target.id row.id items
                        (merges_with-ok row target holds).0
                      ∙ find-find_row item_id (merges_with row) items sound.ids hit)
                    (λ h. absurd (ground arith))
                    (All-remove_row item_id IsSingle row.id items singles))
          ])
        ])

  split_off_items-FlaggedAreSingle :
      (new_id : ℕ) → 1 < row.quantity → FlaggedAreSingle (split_off_items items row new_id patch)
  split_off_items-FlaggedAreSingle new_id many =
      let f : ItemInstance → ItemInstance = λ i. record i { quantity = i.quantity - 1 } in
      All-append IsSingle (update_row item_id row.id f items) (single_row row new_id patch ∷ [])
        (All-update_found item_id IsSingle row.id f items sound.ids e
          (λ h. let one = row-IsSingle h in absurd (omega (arith, one, many))) singles)
        (single_row-IsSingle row new_id patch, tt)

FlippedItems-FlaggedAreSingle :
    (items : List ItemInstance) (row : ItemInstance) (new_item : Option ℕ) (patch : FlagPatch)
    (after : List ItemInstance)
    → ItemsAreSound items
    → FlaggedAreSingle items
    → find_row item_id row.id items ≡ some row
    → FlippedItems items row new_item (patch_value patch) patch after
    → FlaggedAreSingle after
FlippedItems-FlaggedAreSingle items row new_item patch _ sound singles e
      (split_away new_id given many) =
    split_off_items-FlaggedAreSingle items row sound singles e patch new_id many
FlippedItems-FlaggedAreSingle items row new_item patch _ sound singles e (flipped few) =
    flip_and_restack-FlaggedAreSingle items row sound singles e patch few

-- Where ids are distinct, no row is empty and every equipped or attuned row is a single item, the
-- last holds after an `equip` or `unequip` that succeeds: a stack is split before the flag is set,
-- and a row is merged into one without flags.
pub equip_or_unequip-FlaggedAreSingle :
    (ctx : Context) (s : State) (on : Bool) (p : EquipPayload) (r : ReducerResult)
    → ItemsAreSound s.items
    → FlaggedAreSingle s.items
    → equip_or_unequip ctx (some s) on p ≡ ok r
    → FlaggedAreSingle r.state.items
equip_or_unequip-FlaggedAreSingle ctx s on p r sound singles h =
    let flip = equip_or_unequip-IsFlip ctx s on p r h in
    FlippedItems-FlaggedAreSingle s.items flip.row p.new_item_instance_id (FlagPatch.equipped on)
      r.state.items sound singles (find_row_self item_id p.item_instance_id s.items flip.row_found)
      flip.items

-- Where ids are distinct, no row is empty and every equipped or attuned row is a single item, the
-- last holds after an `attune` or `unattune` that succeeds.
pub attune_or_unattune-FlaggedAreSingle :
    (ctx : Context) (s : State) (on : Bool) (p : AttunePayload) (r : ReducerResult)
    → ItemsAreSound s.items
    → FlaggedAreSingle s.items
    → attune_or_unattune ctx (some s) on p ≡ ok r
    → FlaggedAreSingle r.state.items
attune_or_unattune-FlaggedAreSingle ctx s on p r sound singles h =
    let flip = (attune_or_unattune-IsFlip ctx s on p r h).0 in
    FlippedItems-FlaggedAreSingle s.items flip.row p.new_item_instance_id (FlagPatch.attuned on)
      r.state.items sound singles (find_row_self item_id p.item_instance_id s.items flip.row_found)
      flip.items
