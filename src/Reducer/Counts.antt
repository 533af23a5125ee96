-- ===== src/Reducer/Counts.antt =====
-- The items as quantities of each definition, and when a list of items is sound.
use dnd_inventory.Prelude.{
  ℕ, ◌+◌, ◌<◌, ◌≡◌, ◌≢◌, ◌∙◌, arith, sum_of, some, List, [], ◌∷◌, ◌++◌, All, Absent, Unique, ◌==◌,
  if◌then◌else◌, sum_of-append, Unique-snoc, All-append, Unique-update_row, find_row, update_row,
  All-update_found, sum_of-update_row, refl, map, sum_of-map, Unique-map, All-map, find_row-key,
  All-find_row, remove_row, find_row-remove_row_ne, Unique-remove_row, All-remove_row,
  sum_of-remove_row,
}
use dnd_inventory.State.{ItemInstance, item_id}

-- What a row adds to the quantity of a definition.
abbrev pub quantity_as : ℕ → ItemInstance → ℕ
quantity_as def i = if i.definition_id == def then i.quantity else 0

-- How many there are of a definition, in all stashes.
abbrev pub count_of : ℕ → List ItemInstance → ℕ
count_of def = sum_of (quantity_as def)

-- Ids are not repeated, and no row is empty.
pub record ItemsAreSound (items : List ItemInstance) : Type 0 where
  pub ids : Unique item_id items
  pub filled : All (λ (i : ItemInstance). 0 < i.quantity) items

module _ (items : List ItemInstance) (row : ItemInstance) where
  pub snoc-ItemsAreSound :
      Absent item_id row.id items
      → 0 < row.quantity
      → ItemsAreSound items
      → ItemsAreSound (items ++ row ∷ [])
  snoc-ItemsAreSound a p s = record {
    ids = Unique-snoc item_id items row a s.ids;
    filled = All-append (λ (i : ItemInstance). 0 < i.quantity) items (row ∷ []) s.filled (p, tt);
  }

  pub count_of-snoc :
      (def : ℕ) → count_of def (items ++ row ∷ []) ≡ count_of def items + quantity_as def row
  count_of-snoc def = omega (arith, sum_of-append (quantity_as def) items (row ∷ []))

  -- A rewrite of the row that an id finds, which keeps the id.
  pub update-ItemsAreSound :
      (k : ℕ) (f : ItemInstance → ItemInstance)
      → ((i : ItemInstance) → item_id (f i) ≡ item_id i)
      → find_row item_id k items ≡ some row
      → 0 < (f row).quantity
      → ItemsAreSound items
      → ItemsAreSound (update_row item_id k f items)
  update-ItemsAreSound k f keeps e p s = record {
    ids = Unique-update_row item_id k f items (λ i h. keeps i ∙ h) s.ids;
    filled =
        All-update_found item_id (λ (i : ItemInstance). 0 < i.quantity) k f items s.ids e p
          s.filled;
  }

-- Items among which quantities have only changed place.
pub record IsMoved (items after : List ItemInstance) : Type 0 where
  pub counts : (def : ℕ) → count_of def after ≡ count_of def items
  pub sound : ItemsAreSound after

-- A rewrite that keeps the id, the definition and the quantity.
abbrev pub Keeps : (ItemInstance → ItemInstance) → Type 0
Keeps g =
    (i : ItemInstance)
    → ((g i).id ≡ i.id) × ((g i).definition_id ≡ i.definition_id) × ((g i).quantity ≡ i.quantity)

pub map-IsMoved :
    (g : ItemInstance → ItemInstance) (items : List ItemInstance)
    → Keeps g
    → ItemsAreSound items
    → IsMoved items (map g items)
map-IsMoved g items keeps sound = record {
  counts = λ def. sum_of-map (quantity_as def) g items (λ i. rw ((keeps i).1, (keeps i).2) refl);
  sound = record {
    ids = Unique-map item_id g items (λ i. (keeps i).0) sound.ids;
    filled =
        All-map (λ (i : ItemInstance). 0 < i.quantity) g items (λ i h. rw (keeps i).2 h)
          sound.filled;
  };
}

-- Overwriting the row that an id finds, by one with the same id, definition and quantity.
pub set-IsMoved :
    (items : List ItemInstance) (k : ℕ) (row new_row : ItemInstance)
    → ItemsAreSound items
    → find_row item_id k items ≡ some row
    → (new_row.id ≡ row.id)
      × (new_row.definition_id ≡ row.definition_id)
      × (new_row.quantity ≡ row.quantity)
    → IsMoved items (update_row item_id k (λ _. new_row) items)
set-IsMoved items k row new_row sound e same =
    let key = find_row-key item_id k items e in
    record {
      counts = λ def. ground (
        arith,
        same,
        sum_of-update_row item_id (quantity_as def) k (λ _. new_row) items sound.ids e,
      );
      sound = record {
        ids = Unique-update_row item_id k (λ _. new_row) items (λ _ _. same.0 ∙ key) sound.ids;
        filled =
            All-update_found item_id (λ (i : ItemInstance). 0 < i.quantity) k (λ _. new_row) items
              sound.ids e
              (rw same.2 (
                All-find_row item_id (λ (i : ItemInstance). 0 < i.quantity) k items sound.filled e))
              sound.filled;
      };
    }

-- A row goes and another takes its quantity.
pub merge-IsMoved :
    (items : List ItemInstance) (source target : ItemInstance)
    → ItemsAreSound items
    → find_row item_id source.id items ≡ some source
    → find_row item_id target.id items ≡ some target
    → target.id ≢ source.id
    → target.definition_id ≡ source.definition_id
    → IsMoved items (
        update_row item_id target.id
          (λ (i : ItemInstance). record i { quantity = i.quantity + source.quantity })
          (remove_row item_id source.id items))
merge-IsMoved items source target sound e e_target apart alike =
    let f : ItemInstance → ItemInstance =
      λ i. record i { quantity = i.quantity + source.quantity } in
    let rest = remove_row item_id source.id items in
    let e_rest : find_row item_id target.id rest ≡ some target =
      find_row-remove_row_ne item_id target.id source.id items apart ∙ e_target in
    let rest_sound : ItemsAreSound rest = record {
      ids = Unique-remove_row item_id source.id items sound.ids;
      filled =
          All-remove_row item_id (λ (i : ItemInstance). 0 < i.quantity) source.id items
            sound.filled;
    } in
    let positive =
      All-find_row item_id (λ (i : ItemInstance). 0 < i.quantity) target.id rest rest_sound.filled
        e_rest in
    record {
      counts = λ def. ground (
        arith,
        alike,
        sum_of-remove_row item_id (quantity_as def) source.id items sound.ids e,
        sum_of-update_row item_id (quantity_as def) target.id f rest rest_sound.ids e_rest,
      );
      sound =
          update-ItemsAreSound rest target target.id f (λ _. refl) e_rest (omega (arith, positive))
            rest_sound;
    }
