-- ===== src/Reducer/Transfer/Quantities.antt =====
-- What `transfer` does to the quantities.
use dnd_inventory.Prelude.{
  ◌<◌, ◌≤◌, ◌≡◌, ◌≢◌, refl, sym, ap, subst, arith, Bool, true, inl, inr, none, some, Absent,
  find_row, ◌==◌, not, ◌&&◌, if◌then◌else◌, Bool-cases, Option-cases, find_row_self, find-true,
  find-find_row, find,
}
use dnd_inventory.Result.{
  ok, returned, passed, found, done, bad_uuid, unknown_item, unknown_stash, same_stash,
}
use dnd_inventory.State.{State, ItemInstance, Stash, Context, item_id, stash_id}
use dnd_inventory.Reducer.Shared.{ReducerResult, same_notes, check_hard_mode}
use dnd_inventory.Reducer.Counts.{ItemsAreSound, IsMoved, Keeps}
use dnd_inventory.Reducer.Stacks.{find_auto_stack_target, validate_transfer}
use dnd_inventory.Reducer.Stacks.Quantities.{validate_transfer-ok}
use dnd_inventory.Reducer.Transfer.{
  TransferPayload, moved_row, stack_target, place_moved, transfer, changing_parent, check_container,
}
use dnd_inventory.Reducer.Transfer.Placing.{
  moved_items-IsMoved, parted_items-IsMoved, stacked_items-IsMoved,
}

module _ (s : State) (p : TransferPayload) (to_stash : Stash) (source : ItemInstance)
    (sound : ItemsAreSound s.items) (fresh : Absent item_id p.new_item_instance_id s.items)
    (e : find_row item_id source.id s.items ≡ some source) (pos : 0 < p.quantity)
    (enough : p.quantity ≤ source.quantity) where
  moved_row-Keeps : Keeps (moved_row s p to_stash source)
  moved_row-Keeps i = (refl, refl, refl)

  -- A row to stack onto lies in the destination, which is another stash.
  stack_target_lem :
      (target : ItemInstance)
      → stack_target s p source ≡ some target
      → (target.id ≢ source.id)
        × (target.definition_id ≡ source.definition_id)
        × (find_row item_id target.id s.items ≡ some target)
  stack_target_lem target h =
      let test : ItemInstance → Bool = λ i.
        i.owner_id == p.to_stash_id
        && i.definition_id == source.definition_id
        && same_notes i.notes source.notes in
      elim (Bool-cases (source.owner_id == p.to_stash_id)) [
        | inl here ↦ absurd (ground arith)
        | inr away ↦
            let hit : find test s.items ≡ some target =
              subst
                (λ b.
                  (if b
                    then none
                    else find_auto_stack_target s.items p.to_stash_id source.definition_id
                        source.notes)
                  ≡ some target)
                away h in
            let e_target = find-find_row item_id test s.items sound.ids hit in
            let holds : test target ≡ true = find-true test s.items hit in
            let there : target.owner_id ≡ p.to_stash_id = ground arith in
            (
              λ same.
                  let again : find_row item_id target.id s.items ≡ some source =
                    subst (λ k. find_row item_id k s.items ≡ some source) (sym same) e in
                  let eq : target ≡ source = cc in
                  ground (arith, ap (λ (i : ItemInstance). i.owner_id) eq),
              ground arith,
              e_target,
            )
      ]

  place_moved-IsMoved : IsMoved s.items (place_moved s p to_stash source).1
  unfolding place_moved
  place_moved-IsMoved =
      let moved = moved_row s p to_stash source in
      elim (Option-cases (stack_target s p source)) [
        | inl none_there ↦
            rw (place_moved, none_there)
              (elim (Bool-cases (p.quantity == source.quantity)) [
                | inl all ↦
                    rw all (moved_items-IsMoved p moved moved_row-Keeps source s.items sound e)
                | inr part ↦ rw part (
                    parted_items-IsMoved p moved moved_row-Keeps source s.items sound e fresh pos
                      (ground arith))
              ])
        | inr (target, h) ↦
            let t = stack_target_lem target h in
            rw (place_moved, h)
              (stacked_items-IsMoved p moved moved_row-Keeps source s.items sound e target t.0 t.1
                t.2 pos enough)
      ]

-- Where ids are distinct and no row is empty, a `transfer` that succeeds, under an id that no row
-- has, leaves every definition's quantity as it was, whichever of the four ways the row takes (onto
-- a stack or not, whole or in part); ids stay distinct, no row is left empty, and nothing but the
-- items changes.
pub transfer-IsMoved :
    (ctx : Context) (s : State) (p : TransferPayload) (r : ReducerResult)
    → ItemsAreSound s.items
    → Absent item_id p.new_item_instance_id s.items
    → transfer ctx (some s) p ≡ ok r
    → IsMoved s.items r.state.items × (r.state ≡ record s { items = r.state.items })
unfolding transfer
transfer-IsMoved ctx s p r sound fresh h =
    passed (not (ctx.is_valid_uuid_v7 p.new_item_instance_id)) bad_uuid _ h λ _ h.
      found (find_row item_id p.item_instance_id s.items) unknown_item _ h λ source e h.
        found (find_row stash_id p.to_stash_id s.stashes) unknown_stash _ h λ to_stash _ h.
          passed
            (source.owner_id == p.to_stash_id
              && not (changing_parent p.to_container_instance_id source.container_instance_id))
            same_stash _ h
            λ _ h. returned (check_container s p p.to_container_instance_id) _ h λ _ _ h.
              returned (validate_transfer source p.quantity) _ h λ _ valid h.
                returned (check_hard_mode s (place_moved s p to_stash source).1 p.to_stash_id) _ h
                  λ _ _ h. done h λ same.
                    let bounds = validate_transfer-ok source p.quantity valid in
                    subst
                      (λ (x : ReducerResult).
                        IsMoved s.items x.state.items
                        × (x.state ≡ record s { items = x.state.items }))
                      same
                      (
                        place_moved-IsMoved s p to_stash source sound fresh
                            (find_row_self item_id p.item_instance_id s.items e) bounds.0 bounds.1,
                        refl,
                      )
