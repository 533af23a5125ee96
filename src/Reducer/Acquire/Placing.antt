-- ===== src/Reducer/Acquire/Placing.antt =====
-- Where the items lie that `acquire` and `purchase` add.
use dnd_inventory.Prelude.{
  ℕ, ◌+◌, ◌≡◌, ◌≢◌, refl, Bool, ◌⊎◌, inl, inr, none, some, List, [], ◌∷◌, ◌++◌, Absent, Unique,
  find, find_row, update_row, find-find_row, find_row-Absent, find_row-update_row_self,
  find_row-update_row_ne, find_row-snoc, find_row-snoc_ne,
}
use dnd_inventory.State.{ItemInstance, item_id}

-- One row of the stash and of the definition has `quantity` more, or is new with that quantity;
-- every other row is as it was.
pub record IsPlaced (stash definition quantity : ℕ) (items after : List ItemInstance) : Type 0 where
  pub row : ItemInstance
  pub now : find_row item_id row.id after ≡ some row
  pub there : row.owner_id ≡ stash
  pub of_definition : row.definition_id ≡ definition
  pub before :
      ((find_row item_id row.id items ≡ none) × (row.quantity ≡ quantity))
      ⊎ ((old : ItemInstance) × (find_row item_id row.id items ≡ some old)
          × (row ≡ record old { quantity = old.quantity + quantity }))
  pub others : (j : ℕ) → j ≢ row.id → find_row item_id j after ≡ find_row item_id j items

module _ (items : List ItemInstance) (stash definition quantity : ℕ) where
  -- Onto the row that a search finds.
  pub stacked-IsPlaced :
      (test : ItemInstance → Bool) (existing : ItemInstance)
      → Unique item_id items
      → find test items ≡ some existing
      → existing.owner_id ≡ stash
      → existing.definition_id ≡ definition
      → IsPlaced stash definition quantity items (
          update_row item_id existing.id
            (λ (i : ItemInstance). record i { quantity = i.quantity + quantity })
            items)
  stacked-IsPlaced test existing ids hit there of_definition =
      let add : ItemInstance → ItemInstance = λ i. record i { quantity = i.quantity + quantity } in
      let e = find-find_row item_id test items ids hit in
      record {
        row = add existing;
        now = find_row-update_row_self item_id existing.id add items e refl;
        there = there;
        of_definition = of_definition;
        before = inr (existing, e, refl);
        others = λ j n. find_row-update_row_ne item_id j existing.id add items n (λ _ e. e);
      }

  -- As a row of its own.
  pub snoc-IsPlaced :
      (row : ItemInstance)
      → Absent item_id row.id items
      → row.owner_id ≡ stash
      → row.definition_id ≡ definition
      → row.quantity ≡ quantity
      → IsPlaced stash definition quantity items (items ++ row ∷ [])
  snoc-IsPlaced row fresh there of_definition amount = record {
    row = row;
    now = find_row-snoc item_id items row fresh;
    there = there;
    of_definition = of_definition;
    before = inl (find_row-Absent item_id row.id items fresh, amount);
    others = λ j n. find_row-snoc_ne item_id j items row n;
  }
