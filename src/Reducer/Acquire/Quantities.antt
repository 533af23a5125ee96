-- ===== src/Reducer/Acquire/Quantities.antt =====
-- What `acquire` does to the quantities, and to the weight of an Inventory.
use dnd_inventory.Prelude.Decimal.{Whole}
use dnd_inventory.Prelude.{
  ℕ, Bool, [], ◌∷◌, ◌++◌, ◌+◌, ◌<◌, ◌≡◌, refl, subst, arith, true, inl, inr, some, List, Absent,
  find_row, find, any, update_row, ◌==◌, leb, not, if◌then◌else◌, Option-cases, sum_of-update_row,
  find-true, find-find_row,
}
use dnd_inventory.Result.{
  ok, returned, passed, found, done, bad_uuid, bad_quantity, unknown_stash, unknown_definition,
}
use dnd_inventory.State.{State, ItemInstance, ItemDefinition, Context, item_id, definition_id}
use dnd_inventory.Reducer.Shared.{ReducerResult, check_hard_mode}
use dnd_inventory.Reducer.Counts.{
  quantity_as, count_of, ItemsAreSound, snoc-ItemsAreSound, count_of-snoc, update-ItemsAreSound,
}
use dnd_inventory.Reducer.Acquire.Placing.{IsPlaced, stacked-IsPlaced, snoc-IsPlaced}
use dnd_inventory.Reducer.Acquire.{
  AcquirePayload, stacks, effective_notes, acquired_row, place_acquired, acquire,
}

-- Items to which `quantity` of a definition has been added.
pub record IsAcquired (definition quantity : ℕ) (items after : List ItemInstance) : Type 0 where
  pub counts :
      (def : ℕ)
      → count_of def after ≡ count_of def items + (if definition == def then quantity else 0)
  pub sound : ItemsAreSound after

module _ (items : List ItemInstance) (definition quantity : ℕ) (sound : ItemsAreSound items)
    (positive : 0 < quantity) where
  -- Onto the row that a search finds, where it is of the definition.
  pub stacked-IsAcquired :
      (test : ItemInstance → Bool) (existing : ItemInstance)
      → find test items ≡ some existing
      → existing.definition_id ≡ definition
      → IsAcquired definition quantity items (
          update_row item_id existing.id
            (λ (i : ItemInstance). record i { quantity = i.quantity + quantity })
            items)
  stacked-IsAcquired test existing hit def_eq =
      let add : ItemInstance → ItemInstance = λ i. record i { quantity = i.quantity + quantity } in
      let e = find-find_row item_id test items sound.ids hit in
      record {
        counts = λ def. ground (
          arith,
          def_eq,
          sum_of-update_row item_id (quantity_as def) existing.id add items sound.ids e,
        );
        sound =
            update-ItemsAreSound items existing existing.id add (λ _. refl) e (omega arith) sound;
      }

  -- As a row of its own.
  pub snoc-IsAcquired :
      (row : ItemInstance)
      → Absent item_id row.id items
      → row.definition_id ≡ definition
      → row.quantity ≡ quantity
      → IsAcquired definition quantity items (items ++ row ∷ [])
  snoc-IsAcquired row fresh def_eq amount = record {
    counts = λ def. ground (arith, def_eq, amount, count_of-snoc items row def);
    sound = snoc-ItemsAreSound items row fresh (omega (arith, amount)) sound;
  }

module _ (whole : Whole) (s : State) (definition : ItemDefinition) (p : AcquirePayload)
    (sound : ItemsAreSound s.items) (fresh : Absent item_id p.new_item_instance_id s.items)
    (positive : 0 < p.quantity) where
  abbrev test : ItemInstance → Bool
  test = stacks p.stash_id p.definition_id (effective_notes whole s definition p)

  place_acquired-IsAcquired :
      IsAcquired p.definition_id p.quantity s.items (place_acquired whole s definition p).1
  unfolding place_acquired
  place_acquired-IsAcquired = elim (Option-cases (find test s.items)) [
    | inl nothing ↦
        rw (place_acquired, nothing)
          (snoc-IsAcquired s.items p.definition_id p.quantity sound positive
            (acquired_row whole s definition p) fresh refl refl)
    | inr (existing, hit) ↦
        let holds : test existing ≡ true = find-true test s.items hit in
        rw (place_acquired, hit)
          (stacked-IsAcquired s.items p.definition_id p.quantity sound positive test existing hit
            (ground arith))
  ]

  place_acquired-IsPlaced :
      IsPlaced p.stash_id p.definition_id p.quantity s.items (place_acquired whole s definition p).1
  unfolding place_acquired
  place_acquired-IsPlaced = elim (Option-cases (find test s.items)) [
    | inl nothing ↦
        rw (place_acquired, nothing)
          (snoc-IsPlaced s.items p.stash_id p.definition_id p.quantity
            (acquired_row whole s definition p) fresh refl refl refl)
    | inr (existing, hit) ↦
        let holds : test existing ≡ true = find-true test s.items hit in
        rw (place_acquired, hit)
          (stacked-IsPlaced s.items p.stash_id p.definition_id p.quantity test existing sound.ids
            hit (ground arith) (ground arith))
  ]

-- Where ids are distinct and no row is empty, an `acquire` that succeeds, under an id that no row
-- has, adds exactly the quantity of the one definition in the one stash, to one row or as a new
-- one, and changes no other row; ids stay distinct, no row is left empty, and nothing but the items
-- changes.
pub acquire-IsAcquired :
    (ctx : Context) (s : State) (p : AcquirePayload) (r : ReducerResult)
    → ItemsAreSound s.items
    → Absent item_id p.new_item_instance_id s.items
    → acquire ctx (some s) p ≡ ok r
    → IsAcquired p.definition_id p.quantity s.items r.state.items
      × (r.state ≡ record s { items = r.state.items })
      × IsPlaced p.stash_id p.definition_id p.quantity s.items r.state.items
unfolding acquire
acquire-IsAcquired ctx s p r sound fresh h =
    passed (not (ctx.is_valid_uuid_v7 p.new_item_instance_id)) bad_uuid _ h λ _ h.
      passed (leb p.quantity 0) bad_quantity _ h λ positive h.
        passed (not (any (λ st. st.id == p.stash_id) s.stashes)) unknown_stash _ h λ _ h.
          found (find_row definition_id p.definition_id s.catalog) unknown_definition _ h
            λ definition _ h.
              returned (check_hard_mode s (place_acquired ctx.whole s definition p).1 p.stash_id) _
                h
                λ _ _ h. done h λ same.
                  subst
                    (λ (x : ReducerResult).
                      IsAcquired p.definition_id p.quantity s.items x.state.items
                      × (x.state ≡ record s { items = x.state.items })
                      × IsPlaced p.stash_id p.definition_id p.quantity s.items x.state.items)
                    same
                    (
                      place_acquired-IsAcquired ctx.whole s definition p sound fresh (ground arith),
                      refl,
                      place_acquired-IsPlaced ctx.whole s definition p sound fresh (ground arith),
                    )
