-- ===== src/Rules/Weight/Flat.antt =====
-- What flat containers take off the weight.
use dnd_inventory.Prelude.{ℕ, ◌+◌, ◌*◌, ◌≤◌, ◌≡◌, arith, none, some, List, [], ◌∷◌, map, ap, ◌∙◌}
use dnd_inventory.Rules.Weight.{
  DefWeight, WeightRow, map_get, flat_parents, row_weight, total_from, container_aware_weight,
  total_weight,
}

-- A row's weight and quantity, as `totalWeight` takes them; 0 where the definition is unknown.
abbrev pub weight_and_quantity : List (ℕ × DefWeight) → WeightRow → ℕ × ℕ
weight_and_quantity defs row = elim (map_get row.definition_id defs) [
  | none ↦ (0, row.quantity)
  | some def ↦ (def.weight, row.quantity)
]

row_weight-≤ :
    (defs : List (ℕ × DefWeight)) (flat : List ℕ) (row : WeightRow)
    → row_weight defs flat row ≤ (weight_and_quantity defs row).0 * (weight_and_quantity defs row).1
row_weight-≤ defs flat row = ground arith

row_weight-no_flat :
    (defs : List (ℕ × DefWeight)) (row : WeightRow)
    → row_weight defs [] row ≡ (weight_and_quantity defs row).0 * (weight_and_quantity defs row).1
row_weight-no_flat defs row = ground arith

total_from-≤ :
    (defs : List (ℕ × DefWeight)) (flat : List ℕ) (n : ℕ) (rows : List WeightRow)
    → total_from defs flat n rows ≤ n + total_weight (map (weight_and_quantity defs) rows)
unfolding total_from total_weight
total_from-≤ defs flat n [] = omega arith
total_from-≤ defs flat n (row ∷ rows) =
    omega (
      arith,
      row_weight-≤ defs flat row,
      total_from-≤ defs flat (n + row_weight defs flat row) rows,
    )

total_from-no_flat :
    (defs : List (ℕ × DefWeight)) (n : ℕ) (rows : List WeightRow)
    → total_from defs [] n rows ≡ n + total_weight (map (weight_and_quantity defs) rows)
unfolding total_from total_weight
total_from-no_flat defs n [] = omega arith
total_from-no_flat defs n (row ∷ rows) =
    omega (
      arith,
      row_weight-no_flat defs row,
      total_from-no_flat defs (n + row_weight defs [] row) rows,
    )

-- The weight that regards flat containers is at most the plain sum of weight times quantity, and is
-- that sum where no row is a flat container.
pub container_aware_weight-total_weight :
    (rows : List WeightRow) (defs : List (ℕ × DefWeight))
    → (container_aware_weight rows defs ≤ total_weight (map (weight_and_quantity defs) rows))
      × (flat_parents defs rows ≡ []
          → container_aware_weight rows defs ≡ total_weight (map (weight_and_quantity defs) rows))
unfolding container_aware_weight
container_aware_weight-total_weight rows defs = (
  omega (arith, total_from-≤ defs (flat_parents defs rows) 0 rows),
  λ none_flat.
      ap (λ flat. total_from defs flat 0 rows) none_flat
      ∙ omega (arith, total_from-no_flat defs 0 rows),
)
