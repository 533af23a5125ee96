-- ===== src/Prelude/Filters.antt =====
-- `filter` and `some` by a test, on tables and on sums.
use Prim.Native.Nat.{ℕ}
use mathlib.Core.Path.{◌≡◌, refl, subst}
use mathlib.Core.Logic.{inl, inr}
use mathlib.Core.Bool.{Bool, true, false, not, ◌||◌}
use mathlib.Core.List.{List, [], ◌∷◌, ◌++◌, map}
use mathlib.Core.Option.{some}
use native.Mathlib.Omega.{arith}
use dnd_inventory.Prelude.Tests.{if◌then◌else◌, ◌==◌, Bool-cases}
use dnd_inventory.Prelude.Lists.{All, filter, includes, any}
use dnd_inventory.Prelude.Int.{ℤ, ◌+ℤ◌, int_laws, parts_of_eq}
use dnd_inventory.Prelude.Ledger.{sum_ℤ}
use dnd_inventory.Prelude.Table.{find_row, Absent, Unique}

module _ {ℓ} {A : Type ℓ} (p : A → Bool) where
  -- Every row is in one of the two halves.
  pub sum_ℤ-filter :
      (m : A → ℤ) (xs : List A)
      → sum_ℤ m (filter p xs) +ℤ sum_ℤ m (filter (λ x. not (p x)) xs) ≡ sum_ℤ m xs
  sum_ℤ-filter m [] = omega int_laws
  sum_ℤ-filter m (x ∷ xs) =
      let ih = parts_of_eq (sum_ℤ-filter m xs) in
      elim (Bool-cases (p x)) [
        | inl h ↦ rw h (omega (int_laws, ih))
        | inr h ↦ rw h (omega (int_laws, ih))
      ]

  pub All-filter {κ} : (P : A → Type κ) (xs : List A) → All P xs → All P (filter p xs)
  All-filter P [] a = tt
  All-filter P (x ∷ xs) a =
      elim (p x) as (λ b. All P (if b then x ∷ filter p xs else filter p xs)) [
        | true ↦ (a.0, All-filter P xs a.1)
        | false ↦ All-filter P xs a.1
      ]

  pub All-filter-test : (xs : List A) → All (λ x. p x ≡ true) (filter p xs)
  All-filter-test [] = tt
  All-filter-test (x ∷ xs) = elim (Bool-cases (p x)) [
    | inl h ↦ rw h (h, All-filter-test xs)
    | inr h ↦ rw h (All-filter-test xs)
  ]

  pub any-filter :
      (q : A → Bool) (xs : List A)
      → ((x : A) → p x ≡ true → q x ≡ false)
      → any q (filter p xs) ≡ false
  any-filter q [] h = refl
  any-filter q (x ∷ xs) h = ground (arith, h x, any-filter q xs h)

module _ {ℓ} {A : Type ℓ} (p : A → Bool) where
  pub any-append : (xs ys : List A) → any p (xs ++ ys) ≡ (any p xs || any p ys)
  any-append [] ys = refl
  any-append (x ∷ xs) ys = ground (arith, any-append xs ys)

  -- A map under which the test gives the same result on every element.
  pub any-map :
      (q : A → Bool) (g : A → A) (xs : List A)
      → ((x : A) → p (g x) ≡ q x)
      → any p (map g xs) ≡ any q xs
  any-map q g [] h = refl
  any-map q g (x ∷ xs) h = rw (h x, any-map q g xs h) refl

  pub any-map-true :
      (q : A → Bool) (g : A → A) (xs : List A)
      → ((x : A) → q x ≡ true → p (g x) ≡ true)
      → any q xs ≡ true
      → any p (map g xs) ≡ true
  any-map-true q g [] h e = cc
  any-map-true q g (x ∷ xs) h e = ground (arith, h x, any-map-true q g xs h)

  pub any-false : (xs : List A) → ((x : A) → p x ≡ false) → any p xs ≡ false
  any-false [] h = refl
  any-false (x ∷ xs) h = rw (h x) (any-false xs h)

module _ {ℓ} {A : Type ℓ} (key : A → ℕ) where
  pub Absent-filter :
      (k : ℕ) (p : A → Bool) (xs : List A) → Absent key k xs → Absent key k (filter p xs)
  Absent-filter k p [] a = tt
  Absent-filter k p (x ∷ xs) a = ground (arith, Absent-filter k p xs a.1)

  pub Unique-filter : (p : A → Bool) (xs : List A) → Unique key xs → Unique key (filter p xs)
  Unique-filter p [] u = tt
  Unique-filter p (x ∷ xs) u =
      ground (arith, Absent-filter (key x) p xs u.0, Unique-filter p xs u.1)

  -- A test of the key keeps the row it passes.
  pub find_row-filter :
      (k : ℕ) (q : ℕ → Bool) (xs : List A)
      → q k ≡ true
      → find_row key k (filter (λ x. q (key x)) xs) ≡ find_row key k xs
  find_row-filter k q [] h = refl
  find_row-filter k q (x ∷ xs) h = elim (Bool-cases (key x == k)) [
    | inl same ↦ let e : key x ≡ k = ground arith in rw e (rw h (ground arith))
    | inr other ↦ ground (arith, find_row-filter k q xs h)
  ]

  Absent-includes :
      (k : ℕ) (p : A → Bool) (xs : List A)
      → Absent key k xs
      → includes k (map key (filter p xs)) ≡ false
  Absent-includes k p [] a = refl
  Absent-includes k p (x ∷ xs) a = ground (arith, Absent-includes k p xs a.1)

  -- The one row with a key fails the test, so the key is not among those that pass.
  pub includes-filter :
      (k : ℕ) (p : A → Bool) (xs : List A) {x : A}
      → Unique key xs
      → find_row key k xs ≡ some x
      → p x ≡ false
      → includes k (map key (filter p xs)) ≡ false
  includes-filter k p [] u e f = refl
  includes-filter k p (y ∷ ys) {x} u e f = elim (Bool-cases (key y == k)) [
    | inl same ↦
        let found : y ≡ x = ground arith in
        let key_y : key y ≡ k = ground arith in
        let fails : p y ≡ false = subst (λ z. p z ≡ false) (cc) f in
        rw fails (Absent-includes k p ys (subst (λ j. Absent key j ys) key_y u.0))
    | inr other ↦ ground (arith, includes-filter k p ys {x = x} u.1)
  ]

  -- Without the rows whose key a row that passes has, none that passes is left.
  pub any-filter-keys :
      (q : A → Bool) (xs : List A) (keys : List ℕ)
      → ((k : ℕ) → includes k (map key (filter q xs)) ≡ true → includes k keys ≡ true)
      → any q (filter (λ x. not (includes (key x) keys)) xs) ≡ false
  any-filter-keys q [] keys h = refl
  any-filter-keys q (x ∷ xs) keys h = elim (Bool-cases (q x)) [
    | inl pass ↦
        let gone : includes (key x) keys ≡ true = h (key x) (ground arith) in
        rw gone (any-filter-keys q xs keys (λ k e. h k (ground arith)))
    | inr fails ↦ ground (arith, any-filter-keys q xs keys (λ k e. h k (ground arith)))
  ]
