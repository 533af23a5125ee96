-- ===== src/Reducer/Money/Coins.antt =====
-- A change of a holding, denomination by denomination.
use dnd_inventory.Prelude.{
  ℕ, ◌≡◌, refl, some, List, find_row, ℤ, pos, ◌+ℤ◌, ◌-ℤ◌, int_laws, sum_ℤ, subst,
}
use dnd_inventory.Result.{ok, throw_if-ok, would_be_negative}
use dnd_inventory.Rules.Currency.{
  Denom, Currency, full, get, add, subtract, difference, any_negative,
}
use dnd_inventory.State.{CurrencyHolding, holding_stash}

-- The holding of the stash is the one that it was, but for so many coins more of each denomination.
pub record GainsCoins (stash : ℕ) (v : Denom → ℤ) (before after : List CurrencyHolding)
    : Type 0 where
  pub old : CurrencyHolding
  pub new : CurrencyHolding
  pub was : find_row holding_stash stash before ≡ some old
  pub now : find_row holding_stash stash after ≡ some new
  pub same : new.id ≡ old.id
  pub coins : (d : Denom) → get d new.coins ≡ get d old.coins +ℤ v d

pub get-add : (d : Denom) (a b : Currency) → get d (add (full a) (full b)) ≡ get d a +ℤ get d b
unfolding add
get-add Denom.cp a b = refl
get-add Denom.sp a b = refl
get-add Denom.ep a b = refl
get-add Denom.gp a b = refl
get-add Denom.pp a b = refl

get-difference :
    (d : Denom) (a b : Currency)
    → get d (difference (full a) (full b)) ≡ get d a +ℤ (pos 0 -ℤ get d b)
get-difference Denom.cp a b = omega int_laws
get-difference Denom.sp a b = omega int_laws
get-difference Denom.ep a b = omega int_laws
get-difference Denom.gp a b = omega int_laws
get-difference Denom.pp a b = omega int_laws

pub get-subtract :
    (d : Denom) (a b c : Currency)
    → subtract (full a) (full b) ≡ ok c
    → get d c ≡ get d a +ℤ (pos 0 -ℤ get d b)
unfolding subtract
get-subtract d a b c e =
    let (fits, same) =
      throw_if-ok (any_negative (difference (full a) (full b))) would_be_negative _ e in
    let eq : difference (full a) (full b) ≡ c = cc in
    subst (λ r. get d r ≡ get d a +ℤ (pos 0 -ℤ get d b)) eq (get-difference d a b)

-- The coins of one denomination in all holdings of a list.
abbrev pub total_of : Denom → List CurrencyHolding → ℤ
total_of d = sum_ℤ (λ h. get d h.coins)
