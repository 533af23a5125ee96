-- ===== src/Rules/Pricing/Printing.antt =====
-- What a printed price is worth.
use dnd_inventory.Prelude.{
  ℕ, ◌*◌, ◌%◌, ◌≤◌, ◌≡◌, arith, inl, inr, List, [], ◌∷◌, ◌==◌, All, if◌then◌else◌, Bool-cases,
}
use native.Mathlib.Nat.{div-add-mod}
use dnd_inventory.Rules.Currency.{Denom, multiplier, denom_eq}
use dnd_inventory.Rules.Pricing.{descend, shown_price, from_base, descent_no_ep, descent_with_ep}

-- An amount of coins that is worth `cp` copper, of a denomination up to `base`.
pub record IsWorth (cp : ℕ) (base : Denom) (shown : ℕ × Denom) : Type 0 where
  pub value : shown.0 * multiplier shown.1 ≡ cp
  pub below : multiplier shown.1 ≤ multiplier base

one_le : (d : Denom) → 1 ≤ multiplier d
one_le d = ground arith

descend-IsWorth :
    (cp : ℕ) (base : Denom) (ds : List Denom)
    → All (λ d. multiplier d ≤ multiplier base) ds
    → IsWorth cp base (descend cp ds)
unfolding descend
descend-IsWorth cp base [] a = record { value = omega arith; below = one_le base }
descend-IsWorth cp base (d ∷ ds) a = elim (Bool-cases (cp % multiplier d == 0)) [
  | inl exact ↦
      let none_left : cp % multiplier d ≡ 0 = ground arith in
      rw exact
        (record { value = omega (arith, none_left, div-add-mod cp (multiplier d)); below = a.0 })
  | inr uneven ↦ rw uneven (descend-IsWorth cp base ds a.1)
]

-- The ladder that a base currency gives.
abbrev ladder : Denom → List Denom
ladder base = from_base base (if denom_eq base Denom.ep then descent_with_ep else descent_no_ep)

ladder-below : (base : Denom) → All (λ d. multiplier d ≤ multiplier base) (ladder base)
ladder-below base = ground arith

-- A price is shown as coins that are worth exactly the price, never of a denomination above the
-- party's base currency.
pub shown_price-IsWorth : (cp : ℕ) (base : Denom) → IsWorth cp base (shown_price cp base)
unfolding shown_price
shown_price-IsWorth cp base = elim (Bool-cases (cp == 0)) [
  | inl zero ↦ rw zero (record { value = ground arith; below = one_le base })
  | inr some_price ↦ rw some_price (descend-IsWorth cp base (ladder base) (ladder-below base))
]
