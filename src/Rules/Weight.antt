-- ===== src/Rules/Weight.antt =====
-- packages/rules/src/weight.ts: the weight of rows, in hundredths of a pound.
pub mod Flat
use dnd_inventory.Prelude.{
  ℕ, ◌+◌, ◌*◌, Bool, true, false, Option, none, some, List, [], ◌∷◌, ◌==◌, if◌then◌else◌, includes,
}

pub record DefWeight : Type 0 where
  pub weight : ℕ
  pub flat_weight : Option Bool

pub record WeightRow : Type 0 where
  pub id : ℕ
  pub definition_id : ℕ
  pub quantity : ℕ
  pub container_instance_id : Option ℕ

-- `new Map(entries).get(k)`: the last entry of a key wins.
abbrev pub map_get {ℓ} : {V : Type ℓ} → ℕ → List (ℕ × V) → Option V
map_get k [] = none
map_get k ((j, v) ∷ rest) = elim (map_get k rest) [
  | some w ↦ some w
  | none ↦ if j == k then some v else none
]

abbrev is_flat : Option DefWeight → Bool
is_flat none = false
is_flat (some def) = elim def.flat_weight [ some true ↦ true | _ ↦ false ]

-- The ids of the rows whose definition has `flatWeight === true`.
abbrev pub flat_parents : List (ℕ × DefWeight) → List WeightRow → List ℕ
flat_parents defs [] = []
flat_parents defs (row ∷ rows) =
    let rest = flat_parents defs rows in
    if is_flat (map_get row.definition_id defs) then row.id ∷ rest else rest

abbrev pub in_flat_parent : List ℕ → Option ℕ → Bool
in_flat_parent flat none = false
in_flat_parent flat (some parent) = includes parent flat

-- What a row adds to the total.
abbrev pub row_weight : List (ℕ × DefWeight) → List ℕ → WeightRow → ℕ
row_weight defs flat row = elim (map_get row.definition_id defs) [
  | none ↦ 0
  | some def ↦
      if in_flat_parent flat row.container_instance_id then 0 else def.weight * row.quantity
]

unfoldable pub total_from : List (ℕ × DefWeight) → List ℕ → ℕ → List WeightRow → ℕ
total_from defs flat total [] = total
total_from defs flat total (row ∷ rows) =
    total_from defs flat (total + row_weight defs flat row) rows

unfoldable pub container_aware_weight : List WeightRow → List (ℕ × DefWeight) → ℕ
unfolding total_from
container_aware_weight rows defs = total_from defs (flat_parents defs rows) 0 rows

-- `totalWeight`, over rows of a weight and a quantity.
unfoldable pub total_weight : List (ℕ × ℕ) → ℕ
total_weight [] = 0
total_weight ((weight, quantity) ∷ items) = weight * quantity + total_weight items
