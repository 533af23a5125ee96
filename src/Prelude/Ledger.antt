-- ===== src/Prelude/Ledger.antt =====
-- Sums of integers over the rows of a table.
use Prim.Native.Nat.{ℕ}
use mathlib.Core.Path.{◌≡◌}
use mathlib.Core.Logic.{inl, inr}
use mathlib.Core.Bool.{true}
use mathlib.Core.List.{List, [], ◌∷◌, ◌++◌}
use mathlib.Core.Option.{some}
use native.Mathlib.Omega.{arith}
use dnd_inventory.Prelude.Tests.{◌==◌, Bool-cases}
use dnd_inventory.Prelude.Int.{ℤ, pos, ◌+ℤ◌, int_laws, parts_of_eq}
use dnd_inventory.Prelude.Table.{
  find_row, update_row, remove_row, Absent, Unique, update_row-Absent, remove_row-Absent,
}

module _ {ℓ} {A : Type ℓ} (m : A → ℤ) where
  abbrev pub sum_ℤ : List A → ℤ
  sum_ℤ [] = pos 0
  sum_ℤ (x ∷ xs) = m x +ℤ sum_ℤ xs

  pub sum_ℤ-append : (xs ys : List A) → sum_ℤ (xs ++ ys) ≡ sum_ℤ xs +ℤ sum_ℤ ys
  sum_ℤ-append [] ys = omega int_laws
  sum_ℤ-append (x ∷ xs) ys = rw (sum_ℤ-append xs ys) (omega int_laws)

module _ {ℓ} {A : Type ℓ} (key : A → ℕ) (m : A → ℤ) where
  hit :
      (k : ℕ) (y : A) (ys : List A) → Absent key (key y) ys → (key y == k) ≡ true → Absent key k ys
  hit k y ys a e = let same : key y ≡ k = ground arith in rw (← same) a

  -- Rewriting the one row with a key changes the sum by what that row gains.
  pub sum_ℤ-update_row :
      (k : ℕ) (f : A → A) (xs : List A) {x : A}
      → Unique key xs
      → find_row key k xs ≡ some x
      → sum_ℤ m (update_row key k f xs) +ℤ m x ≡ sum_ℤ m xs +ℤ m (f x)
  sum_ℤ-update_row k f [] u e = cc
  sum_ℤ-update_row k f (y ∷ ys) {x} u e = elim (Bool-cases (key y == k)) [
    | inl same ↦
        let found : y ≡ x = ground arith in
        rw (same, update_row-Absent key k f ys (hit k y ys u.0 same), found) (omega int_laws)
    | inr other ↦
        let ih = sum_ℤ-update_row k f ys {x = x} u.1 (ground arith) in
        rw other (omega (int_laws, parts_of_eq ih))
  ]

  pub sum_ℤ-remove_row :
      (k : ℕ) (xs : List A) {x : A}
      → Unique key xs
      → find_row key k xs ≡ some x
      → sum_ℤ m (remove_row key k xs) +ℤ m x ≡ sum_ℤ m xs
  sum_ℤ-remove_row k [] u e = cc
  sum_ℤ-remove_row k (y ∷ ys) {x} u e = elim (Bool-cases (key y == k)) [
    | inl same ↦
        let found : y ≡ x = ground arith in
        rw (same, remove_row-Absent key k ys (hit k y ys u.0 same), found) (omega int_laws)
    | inr other ↦
        let ih = sum_ℤ-remove_row k ys {x = x} u.1 (ground arith) in
        rw other (omega (int_laws, parts_of_eq ih))
  ]
