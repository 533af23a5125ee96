-- ===== src/Reducer/ChargeActions/Batch.antt =====
-- What the mode `batch` of `recharge` does.
use dnd_inventory.Prelude.{
  ℕ, ◌≤◌, ◌≡◌, refl, sym, subst, arith, Bool, inl, inr, Option, some, List, [], ◌∷◌, map, All,
  All-append, Absent, Unique, find, find-true, find_row, ◌==◌, or_else, Bool-cases, Option-cases,
}
use dnd_inventory.Result.{ok, returned, found, done, unknown_character}
use dnd_inventory.Rules.Charges.{ChargeSpec, BatchRechargeTrigger}
use dnd_inventory.State.{State, ItemInstance, Character, item_id, character_id}
use dnd_inventory.Reducer.Shared.{ReducerResult}
use dnd_inventory.Reducer.Counts.{ItemsAreSound, IsMoved, Keeps, map-IsMoved}
use dnd_inventory.Reducer.ChargeActions.{
  charges_of, set_charges, recharged, Update, roll_amount, batch_spec, batch_row, batch_rows,
  apply_update, recharge_batch,
}
use dnd_inventory.Reducer.ChargeActions.Bounds.{IsWithinMax, given-IsWithinMax, recharged-≤}

-- Every row is the one that its id finds.
Absent-found :
    (y : ItemInstance) (ys zs : List ItemInstance)
    → Absent item_id y.id zs
    → All (λ (i : ItemInstance). find_row item_id i.id ys ≡ some i) zs
    → All (λ (i : ItemInstance). find_row item_id i.id (y ∷ ys) ≡ some i) zs
Absent-found y ys [] a f = tt
Absent-found y ys (z ∷ zs) a f = (ground (arith, a.0, f.0), Absent-found y ys zs a.1 f.1)

Unique-found :
    (items : List ItemInstance)
    → Unique item_id items
    → All (λ (i : ItemInstance). find_row item_id i.id items ≡ some i) items
Unique-found [] u = tt
Unique-found (i ∷ items) u = (ground arith, Absent-found i items items u.0 (Unique-found items u.1))

-- An update is of a row of the state, to charges within its maximum.
abbrev IsUpdate : State → Update → Type 0
IsUpdate s u =
    (find_row item_id u.row.id s.items ≡ some u.row)
    × ((spec : ChargeSpec) × (charges_of s u.row ≡ ok spec) × (u.after ≤ spec.max))

batch_spec-charges_of :
    (s : State) (character : Character) (trigger : BatchRechargeTrigger) (row : ItemInstance)
    (spec : ChargeSpec)
    → batch_spec s character trigger row ≡ some spec
    → charges_of s row ≡ ok spec
batch_spec-charges_of s character trigger row spec e = ground arith

module _ (s : State) (character : Character) (trigger : BatchRechargeTrigger)
    (amounts : Option (List (ℕ × ℕ))) where
  batch_row-IsUpdate :
      (row : ItemInstance) (updated : List Update)
      → find_row item_id row.id s.items ≡ some row
      → batch_row s character trigger amounts row ≡ ok updated
      → All (IsUpdate s) updated
  batch_row-IsUpdate row updated e h = elim (Option-cases (batch_spec s character trigger row)) [
    | inl none_there ↦
        done (rw (batch_row, none_there) at h) λ same. subst (All (IsUpdate s)) same tt
    | inr (spec, e_spec) ↦
        let before = or_else row.current_charges 0 in
        returned (recharged spec before (roll_amount amounts spec row)) _
          (rw (batch_row, e_spec) at h)
          λ after e_after h. done h λ same.
            subst (All (IsUpdate s)) same (elim (Bool-cases (before == after)) [
              | inl full ↦ rw full tt
              | inr changed ↦ rw changed (
                (
                  e,
                  (
                    spec,
                    batch_spec-charges_of s character trigger row spec e_spec,
                    recharged-≤ spec before (roll_amount amounts spec row) after e_after,
                  ),
                ),
                tt,
              )
            ])
  ]

  batch_rows-IsUpdate :
      (rows : List ItemInstance) (updated : List Update)
      → All (λ (i : ItemInstance). find_row item_id i.id s.items ≡ some i) rows
      → batch_rows s character trigger amounts rows ≡ ok updated
      → All (IsUpdate s) updated
  unfolding batch_rows
  batch_rows-IsUpdate [] updated f h = done h λ same. subst (All (IsUpdate s)) same tt
  batch_rows-IsUpdate (row ∷ rows) updated f h =
      returned (batch_row s character trigger amounts row) _ h λ here e_here h.
        returned (batch_rows s character trigger amounts rows) _ h λ rest e_rest h. done h λ same.
          subst (All (IsUpdate s)) same (
            All-append (IsUpdate s) here rest (batch_row-IsUpdate row here f.0 e_here)
              (batch_rows-IsUpdate rows rest f.1 e_rest))

All-find :
    (P : Update → Type 0) (p : Update → Bool) (updated : List Update) {u : Update}
    → All P updated
    → find p updated ≡ some u
    → P u
All-find P p [] a e = cc
All-find P p (x ∷ xs) {u} a e = elim (Bool-cases (p x)) [
  | inl h ↦ let same : x ≡ u = ground arith in subst P same a.0
  | inr h ↦ All-find P p xs {u = u} a.1 (ground arith)
]

pub apply_update-Keeps : (updated : List Update) → Keeps (apply_update updated)
apply_update-Keeps updated i =
    elim (Option-cases (find (λ (u : Update). u.row.id == i.id) updated)) [
      | inl e ↦ rw (apply_update, e) (refl, refl, refl)
      | inr (u, e) ↦ rw (apply_update, e) (refl, refl, refl)
    ]

apply_update-IsWithinMax :
    (s : State) (updated : List Update) (i : ItemInstance)
    → All (IsUpdate s) updated
    → find_row item_id i.id s.items ≡ some i
    → IsWithinMax s.catalog i
    → IsWithinMax s.catalog (apply_update updated i)
apply_update-IsWithinMax s updated i all e within =
    elim (Option-cases (find (λ (u : Update). u.row.id == i.id) updated)) [
      | inl nothing ↦ rw (apply_update, nothing) within
      | inr (u, hit) ↦
          let (e_u, (spec, e_spec, below)) = All-find (IsUpdate s) _ updated all hit in
          let ids : u.row.id ≡ i.id = ground (arith, find-true _ updated hit) in
          let e_i = subst (λ k. find_row item_id k s.items ≡ some i) (sym ids) e in
          let rows : u.row ≡ i = cc in
          rw (apply_update, hit)
            (given-IsWithinMax s i (set_charges u.after i) spec u.after
              (subst (λ (x : ItemInstance). charges_of s x ≡ ok spec) rows e_spec) refl refl below)
    ]

apply_updates-IsWithinMax :
    (s : State) (updated : List Update) (items : List ItemInstance)
    → All (IsUpdate s) updated
    → All (λ (i : ItemInstance). find_row item_id i.id s.items ≡ some i) items
    → All (IsWithinMax s.catalog) items
    → All (IsWithinMax s.catalog) (map (apply_update updated) items)
apply_updates-IsWithinMax s updated [] all f within = tt
apply_updates-IsWithinMax s updated (i ∷ items) all f within = (
  apply_update-IsWithinMax s updated i all f.0 within.0,
  apply_updates-IsWithinMax s updated items all f.1 within.1,
)

-- Where ids are distinct, no row is empty and no row has more charges than its definition allows,
-- the last holds after a batch `recharge` that succeeds, whatever amounts were rolled; every
-- definition's quantity is as before.
pub recharge_batch-IsWithinMax :
    (s : State) (character_key : ℕ) (trigger : BatchRechargeTrigger)
    (amounts : Option (List (ℕ × ℕ))) (r : ReducerResult)
    → ItemsAreSound s.items
    → All (IsWithinMax s.catalog) s.items
    → recharge_batch (some s) character_key trigger amounts ≡ ok r
    → All (IsWithinMax s.catalog) r.state.items × IsMoved s.items r.state.items
unfolding recharge_batch
recharge_batch-IsWithinMax s character_key trigger amounts r sound within h =
    found (find_row character_id character_key s.characters) unknown_character _ h λ character _ h.
      returned (batch_rows s character trigger amounts s.items) _ h λ updated e h. done h λ same.
        let found_all = Unique-found s.items sound.ids in
        subst
          (λ (x : ReducerResult).
            All (IsWithinMax s.catalog) x.state.items × IsMoved s.items x.state.items)
          same
          (
            apply_updates-IsWithinMax s updated s.items
                (batch_rows-IsUpdate s character trigger amounts s.items updated found_all e)
                found_all within,
            map-IsMoved (apply_update updated) s.items (apply_update-Keeps updated) sound,
          )
