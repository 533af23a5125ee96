-- ===== src/Prelude/Table.antt =====
-- The arrays of rows with an `id`, as the reducer reads and rewrites them, and their laws where
-- ids are not repeated.
use Prim.Native.Nat.{ℕ, ◌+◌}
use mathlib.Core.Path.{◌≡◌, refl, sym, subst}
use mathlib.Core.Logic.{◌≢◌, inl, inr}
use mathlib.Core.List.{List, [], ◌∷◌, ◌++◌}
use mathlib.Core.Option.{Option, none, some}
use mathlib.Core.Bool.{true, false}
use native.Mathlib.Omega.{arith}
use dnd_inventory.Prelude.Tests.{if◌then◌else◌, ◌==◌, Bool-cases}
use dnd_inventory.Prelude.Lists.{sum_of, All}

module _ {ℓ} {A : Type ℓ} (key : A → ℕ) where
  -- `rows.find(r => r.id === k)`
  abbrev pub find_row : ℕ → List A → Option A
  find_row k [] = none
  find_row k (x ∷ xs) = if key x == k then some x else find_row k xs

  -- `rows.map(r => r.id === k ? f(r) : r)`
  abbrev pub update_row : ℕ → (A → A) → List A → List A
  update_row k f [] = []
  update_row k f (x ∷ xs) = (if key x == k then f x else x) ∷ update_row k f xs

  -- `rows.filter(r => r.id !== k)`
  abbrev pub remove_row : ℕ → List A → List A
  remove_row k [] = []
  remove_row k (x ∷ xs) = let rest = remove_row k xs in if key x == k then rest else x ∷ rest

  abbrev pub Absent : ℕ → List A → Type 0
  Absent k [] = Unit
  Absent k (x ∷ xs) = (key x ≢ k) × Absent k xs

  abbrev pub Unique : List A → Type 0
  Unique [] = Unit
  Unique (x ∷ xs) = Absent (key x) xs × Unique xs

  pub find_row-key : (k : ℕ) (xs : List A) {x : A} → find_row k xs ≡ some x → key x ≡ k
  find_row-key k [] e = cc
  find_row-key k (y ∷ ys) {x} e = ground (arith, find_row-key k ys {x = x})

  -- A row that is found is found again under its own key.
  pub find_row_self :
      (k : ℕ) (xs : List A) {x : A} → find_row k xs ≡ some x → find_row (key x) xs ≡ some x
  find_row_self k xs {x} e = subst (λ j. find_row j xs ≡ some x) (sym (find_row-key k xs e)) e

  pub find_row-Absent : (k : ℕ) (xs : List A) → Absent k xs → find_row k xs ≡ none
  find_row-Absent k [] h = refl
  find_row-Absent k (y ∷ ys) h = ground (arith, find_row-Absent k ys h.1)

  pub update_row-Absent : (k : ℕ) (f : A → A) (xs : List A) → Absent k xs → update_row k f xs ≡ xs
  update_row-Absent k f [] h = refl
  update_row-Absent k f (y ∷ ys) h = ground (arith, update_row-Absent k f ys h.1)

  pub remove_row-Absent : (k : ℕ) (xs : List A) → Absent k xs → remove_row k xs ≡ xs
  remove_row-Absent k [] h = refl
  remove_row-Absent k (y ∷ ys) h = ground (arith, remove_row-Absent k ys h.1)

  -- Rewriting the one row with an id changes a sum by what that row gains.
  pub sum_of-update_row :
      (m : A → ℕ) (k : ℕ) (f : A → A) (xs : List A) {x : A}
      → Unique xs
      → find_row k xs ≡ some x
      → sum_of m (update_row k f xs) + m x ≡ sum_of m xs + m (f x)
  sum_of-update_row m k f [] u e = cc
  sum_of-update_row m k f (y ∷ ys) {x} u e =
      ground (arith, update_row-Absent k f ys, sum_of-update_row m k f ys {x = x} u.1)

  pub sum_of-remove_row :
      (m : A → ℕ) (k : ℕ) (xs : List A) {x : A}
      → Unique xs
      → find_row k xs ≡ some x
      → sum_of m (remove_row k xs) + m x ≡ sum_of m xs
  sum_of-remove_row m k [] u e = cc
  sum_of-remove_row m k (y ∷ ys) {x} u e =
      ground (arith, remove_row-Absent k ys, sum_of-remove_row m k ys {x = x} u.1)

  pub find_row-update_row_self :
      (k : ℕ) (f : A → A) (xs : List A) {x : A}
      → find_row k xs ≡ some x
      → key (f x) ≡ k
      → find_row k (update_row k f xs) ≡ some (f x)
  find_row-update_row_self k f [] e h = cc
  find_row-update_row_self k f (y ∷ ys) {x} e h =
      ground (arith, find_row-update_row_self k f ys {x = x})

  pub find_row-update_row_ne :
      (j k : ℕ) (f : A → A) (xs : List A)
      → j ≢ k
      → ((x : A) → key x ≡ k → key (f x) ≡ k)
      → find_row j (update_row k f xs) ≡ find_row j xs
  find_row-update_row_ne j k f [] n h = refl
  find_row-update_row_ne j k f (y ∷ ys) n h =
      ground (arith, h y, find_row-update_row_ne j k f ys n h)

  pub Absent-update_row :
      (j k : ℕ) (f : A → A) (xs : List A)
      → ((x : A) → key x ≡ k → key (f x) ≡ k)
      → Absent j xs
      → Absent j (update_row k f xs)
  Absent-update_row j k f [] h a = tt
  Absent-update_row j k f (y ∷ ys) h a = ground (arith, h y, Absent-update_row j k f ys h a.1)

  pub Unique-update_row :
      (k : ℕ) (f : A → A) (xs : List A)
      → ((x : A) → key x ≡ k → key (f x) ≡ k)
      → Unique xs
      → Unique (update_row k f xs)
  Unique-update_row k f [] h u = tt
  Unique-update_row k f (y ∷ ys) h u =
      ground (arith, h y, Absent-update_row (key y) k f ys h u.0, Unique-update_row k f ys h u.1)

  pub Absent-remove_row : (j k : ℕ) (xs : List A) → Absent j xs → Absent j (remove_row k xs)
  Absent-remove_row j k [] a = tt
  Absent-remove_row j k (y ∷ ys) a = ground (arith, Absent-remove_row j k ys a.1)

  -- Nothing with the key is left.
  pub Absent-remove_row_self : (k : ℕ) (xs : List A) → Absent k (remove_row k xs)
  Absent-remove_row_self k [] = tt
  Absent-remove_row_self k (y ∷ ys) = ground (arith, Absent-remove_row_self k ys)

  pub Unique-remove_row : (k : ℕ) (xs : List A) → Unique xs → Unique (remove_row k xs)
  Unique-remove_row k [] u = tt
  Unique-remove_row k (y ∷ ys) u =
      ground (arith, Absent-remove_row (key y) k ys u.0, Unique-remove_row k ys u.1)

  pub Absent-snoc :
      (j : ℕ) (xs : List A) (x : A) → Absent j xs → key x ≢ j → Absent j (xs ++ x ∷ [])
  Absent-snoc j [] x a n = (n, tt)
  Absent-snoc j (y ∷ ys) x a n = (a.0, Absent-snoc j ys x a.1 n)

  pub Unique-snoc : (xs : List A) (x : A) → Absent (key x) xs → Unique xs → Unique (xs ++ x ∷ [])
  Unique-snoc [] x a u = (tt, tt)
  Unique-snoc (y ∷ ys) x a u =
      (Absent-snoc (key y) ys x u.0 (λ e. a.0 (sym e)), Unique-snoc ys x a.1 u.1)

  pub All-update_row {κ} :
      (P : A → Type κ) (k : ℕ) (f : A → A) (xs : List A)
      → ((x : A) → P x → P (f x))
      → All P xs
      → All P (update_row k f xs)
  All-update_row P k f [] h a = tt
  All-update_row P k f (y ∷ ys) h a =
      elim (key y == k) as (λ b. P (if b then f y else y) × All P (update_row k f ys)) [
        | true ↦ (h y a.0, All-update_row P k f ys h a.1)
        | false ↦ (a.0, All-update_row P k f ys h a.1)
      ]

  pub All-find_row {κ} :
      (P : A → Type κ) (k : ℕ) (xs : List A) {x : A} → All P xs → find_row k xs ≡ some x → P x
  All-find_row P k [] a e = cc
  All-find_row P k (y ∷ ys) {x} a e = elim (Bool-cases (key y == k)) [
    | inl same ↦ let found : y ≡ x = ground arith in subst P found a.0
    | inr other ↦ All-find_row P k ys a.1 (ground arith)
  ]
