-- ===== src/Reducer/Stacks/Quantities.antt =====
-- What `consume` and `split` do to the quantities.
use dnd_inventory.Prelude.{
  ℕ, sym, ◌∙◌, none, false, find_row-key, find_row-Absent, find_row-remove_row_ne,
  Absent-remove_row_self, find_row-update_row_self, find_row-update_row_ne, find_row-append,
  find_row-snoc, find_row-snoc_ne, ◌+◌, ◌-◌, ◌<◌, ◌≤◌, ◌≡◌, ◌≢◌, refl, subst, arith, inl, inr, some,
  List, [], ◌∷◌, ◌++◌, Absent, find_row, update_row, remove_row, ◌==◌, leb, ltb, if◌then◌else◌, not,
  Bool-cases, sum_of-update_row, sum_of-remove_row, Unique-remove_row, All-remove_row,
  find_row_self, Absent-update_row,
}
use dnd_inventory.Result.{
  ok, returned, passed, found, done, bad_uuid, bad_quantity, unknown_item, quantity_exceeds_source,
}
use dnd_inventory.State.{State, ItemInstance, Context, item_id}
use dnd_inventory.Reducer.Shared.{ReducerResult}
use dnd_inventory.Reducer.Counts.{
  quantity_as, count_of, ItemsAreSound, snoc-ItemsAreSound, count_of-snoc, update-ItemsAreSound,
}
use dnd_inventory.Reducer.Stacks.{
  consume, consumed_items, validate_split, validate_transfer, split, take_quantity, split_row,
}

-- What consuming `quantity` of `row` makes of the items `items`.
pub record IsConsumed (row : ItemInstance) (quantity : ℕ) (items after : List ItemInstance)
    : Type 0 where
  pub enough : quantity ≤ row.quantity
  pub row_left : find_row item_id row.id after ≡ (
      if row.quantity == quantity
      then none
      else some (record row { quantity = row.quantity - quantity }))
  pub others : (j : ℕ) → j ≢ row.id → find_row item_id j after ≡ find_row item_id j items
  pub counts :
      (def : ℕ)
      → count_of def after + (if row.definition_id == def then quantity else 0) ≡ count_of def items
  pub sound : ItemsAreSound after

module _ (items : List ItemInstance) (k quantity : ℕ) (row : ItemInstance)
    (sound : ItemsAreSound items) (e : find_row item_id k items ≡ some row)
    (positive : 0 < quantity) (enough : quantity ≤ row.quantity) where
  key : row.id ≡ k
  key = find_row-key item_id k items e

  removed-IsConsumed :
      row.quantity ≡ quantity → IsConsumed row quantity items (remove_row item_id k items)
  removed-IsConsumed all = record {
    enough = enough;
    row_left = ground (
      arith,
      key,
      find_row-Absent item_id k (remove_row item_id k items)
          (Absent-remove_row_self item_id k items),
    );
    others = λ j n. find_row-remove_row_ne item_id j k items (λ h. n (h ∙ sym key));
    counts = λ def. ground (arith, sum_of-remove_row item_id (quantity_as def) k items sound.ids e);
    sound = record {
      ids = Unique-remove_row item_id k items sound.ids;
      filled = All-remove_row item_id (λ (i : ItemInstance). 0 < i.quantity) k items sound.filled;
    };
  }

  reduced-IsConsumed :
      row.quantity ≢ quantity
      → IsConsumed row quantity items
          (update_row item_id k (λ i. record i { quantity = row.quantity - quantity }) items)
  reduced-IsConsumed some_left =
      let f : ItemInstance → ItemInstance = λ i. record i { quantity = row.quantity - quantity } in
      record {
        enough = enough;
        row_left = ground (arith, some_left, key, find_row-update_row_self item_id k f items e key);
        others =
            λ j n. find_row-update_row_ne item_id j k f items (λ h. n (h ∙ sym key)) (λ _ h. h);
        counts = λ def.
            ground (arith, sum_of-update_row item_id (quantity_as def) k f items sound.ids e);
        sound = update-ItemsAreSound items row k f (λ _. refl) e (omega arith) sound;
      }

pub consumed_items-IsConsumed :
    (items : List ItemInstance) (k quantity : ℕ) (row : ItemInstance)
    → ItemsAreSound items
    → find_row item_id k items ≡ some row
    → 0 < quantity
    → quantity ≤ row.quantity
    → IsConsumed row quantity items (consumed_items row quantity items)
consumed_items-IsConsumed items k quantity row sound e positive enough =
    let e' : find_row item_id row.id items ≡ some row = find_row_self item_id k items e in
    elim (Bool-cases (row.quantity - quantity == 0)) [
      | inl all ↦
          rw all
            (removed-IsConsumed items row.id quantity row sound e' positive enough (ground arith))
      | inr some_left ↦ rw some_left (
          reduced-IsConsumed items row.id quantity row sound e' positive enough (λ h. ground arith))
    ]

-- Where ids are distinct and no row is empty, a `consume` that succeeds takes exactly the quantity
-- from the one row and nothing else of it, drops the row where nothing is left of it, and leaves
-- every other row as it was; ids stay distinct, and no row is left empty.
pub consume-IsConsumed :
    (s : State) (item quantity : ℕ) (r : ReducerResult)
    → ItemsAreSound s.items
    → consume (some s) item quantity ≡ ok r
    → (row : ItemInstance) × (find_row item_id item s.items ≡ some row)
      × IsConsumed row quantity s.items r.state.items
      × (r.state ≡ record s { items = r.state.items })
unfolding consume
consume-IsConsumed s item quantity r sound h =
    passed (leb quantity 0) bad_quantity _ h λ positive h.
      found (find_row item_id item s.items) unknown_item _ h λ row e h.
        passed (ltb row.quantity quantity) quantity_exceeds_source _ h λ enough h. done h λ same.
          let both =
            subst
              (λ (x : ReducerResult).
                IsConsumed row quantity s.items x.state.items
                × (x.state ≡ record s { items = x.state.items }))
              same
              (
                consumed_items-IsConsumed s.items item quantity row sound e (ground arith)
                    (ground arith),
                refl,
              ) in
          (row, e, both.0, both.1)

-- What splitting `quantity` off `source` makes of the items.
pub record IsSplit (source : ItemInstance) (quantity new_id : ℕ) (items after : List ItemInstance)
    : Type 0 where
  pub proper : (0 < quantity) × (quantity < source.quantity)
  pub remainder :
      find_row item_id source.id after
      ≡ some (record source { quantity = source.quantity - quantity })
  pub part :
      find_row item_id new_id after
      ≡ some (record source { id = new_id; quantity = quantity; equipped = false; attuned = false })
  pub others :
      (j : ℕ) → j ≢ source.id → j ≢ new_id → find_row item_id j after ≡ find_row item_id j items
  pub counts : (def : ℕ) → count_of def after ≡ count_of def items
  pub sound : ItemsAreSound after

pub validate_split-ok :
    (source : ItemInstance) (quantity : ℕ) {u : Unit {0}}
    → validate_split source quantity ≡ ok u
    → (0 < quantity) × (quantity < source.quantity)
validate_split-ok source quantity e = ground arith

pub validate_transfer-ok :
    (source : ItemInstance) (quantity : ℕ) {u : Unit {0}}
    → validate_transfer source quantity ≡ ok u
    → (0 < quantity) × (quantity ≤ source.quantity)
validate_transfer-ok source quantity e = ground arith

split_row-IsSplit :
    (items : List ItemInstance) (quantity new_id : ℕ) (source : ItemInstance)
    → ItemsAreSound items
    → Absent item_id new_id items
    → find_row item_id source.id items ≡ some source
    → 0 < quantity
    → quantity < source.quantity
    → IsSplit source quantity new_id items (
        update_row item_id source.id (take_quantity quantity) items
        ++ split_row source new_id quantity ∷ [])
split_row-IsSplit items quantity new_id source sound fresh e p q =
    let f = take_quantity quantity in
    let k = source.id in
    let rest = update_row item_id k f items in
    let part = split_row source new_id quantity in
    let absent = Absent-update_row item_id new_id k f items (λ _ h. h) fresh in
    record {
      proper = (p, q);
      remainder =
          find_row-append item_id k rest (part ∷ [])
            (find_row-update_row_self item_id k f items e refl);
      part = find_row-snoc item_id rest part absent;
      others = λ j n m.
          find_row-snoc_ne item_id j rest part m
          ∙ find_row-update_row_ne item_id j k f items n (λ _ h. h);
      counts = λ def. ground (
        arith,
        count_of-snoc rest part def,
        sum_of-update_row item_id (quantity_as def) k f items sound.ids e,
      );
      sound =
          snoc-ItemsAreSound rest part absent p
            (update-ItemsAreSound items source k f (λ _. refl) e (omega arith) sound);
    }

-- Where ids are distinct and no row is empty, a `split` that succeeds, under an id that no row has,
-- leaves a rest under the old id and a part under the new one that are not empty, the part neither
-- equipped nor attuned and both otherwise like the row, every other row and every definition's
-- quantity as it was; ids stay distinct.
pub split-IsSplit :
    (ctx : Context) (s : State) (item quantity new_id : ℕ) (r : ReducerResult)
    → ItemsAreSound s.items
    → Absent item_id new_id s.items
    → split ctx (some s) item quantity new_id ≡ ok r
    → (source : ItemInstance) × (find_row item_id item s.items ≡ some source)
      × IsSplit source quantity new_id s.items r.state.items
      × (r.state ≡ record s { items = r.state.items })
unfolding split
split-IsSplit ctx s item quantity new_id r sound fresh h =
    passed (not (ctx.is_valid_uuid_v7 new_id)) bad_uuid _ h λ _ h.
      found (find_row item_id item s.items) unknown_item _ h λ source e h.
        returned (validate_split source quantity) _ h λ _ valid h. done h λ same.
          let bounds = validate_split-ok source quantity valid in
          let both =
            subst
              (λ (x : ReducerResult).
                IsSplit source quantity new_id s.items x.state.items
                × (x.state ≡ record s { items = x.state.items }))
              same
              (
                split_row-IsSplit s.items quantity new_id source sound fresh
                    (find_row_self item_id item s.items e) bounds.0 bounds.1,
                refl,
              ) in
          (source, e, both.0, both.1)
