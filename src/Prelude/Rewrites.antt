-- ===== src/Prelude/Rewrites.antt =====
-- The arrays that `map`, `filter` and `find` make, in terms of a table's operations.
use Prim.Native.Nat.{ℕ}
use mathlib.Core.Path.{◌≡◌, refl, subst}
use mathlib.Core.Logic.{◌≢◌, inl, inr}
use mathlib.Core.Bool.{Bool, true, false, not}
use mathlib.Core.List.{List, [], ◌∷◌, ◌++◌, map}
use mathlib.Core.Option.{some}
use native.Mathlib.Omega.{arith}
use dnd_inventory.Prelude.Tests.{if◌then◌else◌, ◌==◌, Bool-cases}
use dnd_inventory.Prelude.Lists.{sum_of, All, find, filter}
use dnd_inventory.Prelude.Table.{
  find_row, update_row, remove_row, Absent, Unique, update_row-Absent,
}

module _ {ℓ} {A : Type ℓ} where
  pub find-true : (p : A → Bool) (xs : List A) {x : A} → find p xs ≡ some x → p x ≡ true
  find-true p [] e = cc
  find-true p (y ∷ ys) {x} e = elim (Bool-cases (p y)) [
    | inl h ↦ let same : y ≡ x = ground arith in subst (λ z. p z ≡ true) same h
    | inr h ↦ find-true p ys {x = x} (ground arith)
  ]

  pub sum_of-map :
      (m : A → ℕ) (g : A → A) (xs : List A)
      → ((x : A) → m (g x) ≡ m x)
      → sum_of m (map g xs) ≡ sum_of m xs
  sum_of-map m g [] h = refl
  sum_of-map m g (x ∷ xs) h = rw (h x, sum_of-map m g xs h)

  pub All-map {κ} :
      (P : A → Type κ) (g : A → A) (xs : List A)
      → ((x : A) → P x → P (g x))
      → All P xs
      → All P (map g xs)
  All-map P g [] h a = tt
  All-map P g (x ∷ xs) h a = (h x a.0, All-map P g xs h a.1)

module _ {ℓ} {A : Type ℓ} (key : A → ℕ) where
  pub Absent-find :
      (k : ℕ) (p : A → Bool) (xs : List A) {x : A}
      → Absent key k xs
      → find p xs ≡ some x
      → key x ≢ k
  Absent-find k p [] a e = cc
  Absent-find k p (y ∷ ys) {x} a e = elim (Bool-cases (p y)) [
    | inl h ↦ let same : y ≡ x = ground arith in subst (λ z. key z ≢ k) same a.0
    | inr h ↦ Absent-find k p ys {x = x} a.1 (ground arith)
  ]

  -- A row that any search finds is the one that its own id finds.
  pub find-find_row :
      (p : A → Bool) (xs : List A) {x : A}
      → Unique key xs
      → find p xs ≡ some x
      → find_row key (key x) xs ≡ some x
  find-find_row p [] u e = cc
  find-find_row p (y ∷ ys) {x} u e = elim (Bool-cases (p y)) [
    | inl h ↦ let same : y ≡ x = ground arith in rw same (ground arith)
    | inr h ↦
        let e' : find p ys ≡ some x = ground arith in
        ground (arith, Absent-find (key y) p ys {x = x} u.0 e', find-find_row p ys {x = x} u.1 e')
  ]

  pub map-update_row :
      (k : ℕ) (f : A → A) (xs : List A)
      → map (λ x. if key x == k then f x else x) xs ≡ update_row key k f xs
  map-update_row k f [] = refl
  map-update_row k f (x ∷ xs) = rw (map-update_row k f xs)

  pub filter-remove_row :
      (k : ℕ) (xs : List A) → filter (λ x. not (key x == k)) xs ≡ remove_row key k xs
  filter-remove_row k [] = refl
  filter-remove_row k (x ∷ xs) = rw (filter-remove_row k xs) (ground arith)

  -- A map with two tests is two updates.
  pub map-update_rows :
      (j k : ℕ) (f g : A → A) (xs : List A)
      → j ≢ k
      → ((x : A) → key (f x) ≡ key x)
      → map (λ x. if key x == j then f x else if key x == k then g x else x) xs
        ≡ update_row key k g (update_row key j f xs)
  map-update_rows j k f g [] n h = refl
  map-update_rows j k f g (x ∷ xs) n h = rw (map-update_rows j k f g xs n h) (ground (arith, h x))

  pub Absent-map :
      (k : ℕ) (g : A → A) (xs : List A)
      → ((x : A) → key (g x) ≡ key x)
      → Absent key k xs
      → Absent key k (map g xs)
  Absent-map k g [] h a = tt
  Absent-map k g (x ∷ xs) h a = (rw (h x) a.0, Absent-map k g xs h a.1)

  pub Unique-map :
      (g : A → A) (xs : List A)
      → ((x : A) → key (g x) ≡ key x)
      → Unique key xs
      → Unique key (map g xs)
  Unique-map g [] h u = tt
  Unique-map g (x ∷ xs) h u = (rw (h x) (Absent-map (key x) g xs h u.0), Unique-map g xs h u.1)

  pub All-remove_row {κ} :
      (P : A → Type κ) (k : ℕ) (xs : List A) → All P xs → All P (remove_row key k xs)
  All-remove_row P k [] a = tt
  All-remove_row P k (y ∷ ys) a =
      elim (key y == k)
        as (λ b. All P (if b then remove_row key k ys else y ∷ remove_row key k ys)) [
          | true ↦ All-remove_row P k ys a.1
          | false ↦ (a.0, All-remove_row P k ys a.1)
        ]

  -- An update of the one row with a key may use what is known of that row.
  pub All-update_found {κ} :
      (P : A → Type κ) (k : ℕ) (f : A → A) (xs : List A) {x : A}
      → Unique key xs
      → find_row key k xs ≡ some x
      → P (f x)
      → All P xs
      → All P (update_row key k f xs)
  All-update_found P k f [] u e p a = tt
  All-update_found P k f (y ∷ ys) {x} u e p a = elim (Bool-cases (key y == k)) [
    | inl h ↦
        let same : y ≡ x = ground arith in
        let key_y : key y ≡ k = ground arith in
        rw (h, same, update_row-Absent key k f ys (subst (λ j. Absent key j ys) key_y u.0)) (p, a.1)
    | inr h ↦ rw h (a.0, All-update_found P k f ys {x = x} u.1 (ground arith) p a.1)
  ]

  pub find_row-remove_row_ne :
      (j k : ℕ) (xs : List A) → j ≢ k → find_row key j (remove_row key k xs) ≡ find_row key j xs
  find_row-remove_row_ne j k [] n = refl
  find_row-remove_row_ne j k (y ∷ ys) n = ground (arith, find_row-remove_row_ne j k ys n)

  pub find_row-append :
      (k : ℕ) (xs ys : List A) {x : A}
      → find_row key k xs ≡ some x
      → find_row key k (xs ++ ys) ≡ some x
  find_row-append k [] ys e = cc
  find_row-append k (y ∷ xs) ys {x} e = ground (arith, find_row-append k xs ys {x = x})

  -- A rewrite of every row that keeps the keys rewrites the row that is found.
  pub find_row-map :
      (k : ℕ) (g : A → A) (xs : List A) {x : A}
      → ((y : A) → key (g y) ≡ key y)
      → find_row key k xs ≡ some x
      → find_row key k (map g xs) ≡ some (g x)
  find_row-map k g [] keeps e = cc
  find_row-map k g (y ∷ xs) {x} keeps e = ground (arith, keeps y, find_row-map k g xs {x = x} keeps)

  pub find_row-snoc :
      (xs : List A) (x : A) → Absent key (key x) xs → find_row key (key x) (xs ++ x ∷ []) ≡ some x
  find_row-snoc [] x a = ground arith
  find_row-snoc (y ∷ xs) x a = ground (arith, a.0, find_row-snoc xs x a.1)

  pub find_row-snoc_ne :
      (j : ℕ) (xs : List A) (x : A) → j ≢ key x → find_row key j (xs ++ x ∷ []) ≡ find_row key j xs
  find_row-snoc_ne j [] x n = ground (arith, n)
  find_row-snoc_ne j (y ∷ xs) x n = ground (arith, find_row-snoc_ne j xs x n)
