-- ===== src/Rules/Currency/Copper.antt =====
-- What `fromCopper`, `add`, `subtract` and `convert` do to the value in copper.
use native.Mathlib.Nat.{div-add-mod}
use dnd_inventory.Prelude.{
  ℕ, ◌*◌, ◌/◌, ◌%◌, ◌≡◌, ◌∙◌, ap, refl, subst, arith, true, false, ℤ, pos, negsuc, ◌+ℤ◌, ◌-ℤ◌, ◌*ℤ◌,
  ◌≤ℤ◌, ◌<ℤ◌, floor_div, ltb_ℤ, eqb_ℤ, if◌then◌else◌, int_laws, parts_of_eq, +ℤ_nonneg,
}
use dnd_inventory.Result.{
  throw_if-ok, would_be_negative, lossy_conversion, same_denomination, bad_quantity, ok, err,
  negative_cp,
}
use dnd_inventory.Rules.Currency.{
  Denom, Currency, CurrencyDelta, full, to_copper, from_copper, add, subtract, difference,
  any_negative, get, put, convert, denom_eq, multiplier, js_rem, zero_currency,
}

-- No denomination is negative.
pub record IsNonneg (c : Currency) : Type 0 where
  pub cp : pos 0 ≤ℤ c.cp
  pub sp : pos 0 ≤ℤ c.sp
  pub ep : pos 0 ≤ℤ c.ep
  pub gp : pos 0 ≤ℤ c.gp
  pub pp : pos 0 ≤ℤ c.pp

-- No coins that a larger denomination could replace.
pub record IsCanonical (c : Currency) : Type 0 where
  pub cp : c.cp <ℤ pos 10
  pub sp : c.sp <ℤ pos 5
  pub ep : c.ep <ℤ pos 2
  pub gp : c.gp <ℤ pos 10

-- The `remaining` of a round is the remainder.
pub remaining_lem : (a m : ℕ) → pos a -ℤ pos (a / m) *ℤ pos m ≡ pos (a % m)
remaining_lem a m = omega (int_laws, div-add-mod a m)

greedy : ℕ → Currency
greedy n = record {
  pp = pos (n / 1000);
  gp = pos (n % 1000 / 100);
  ep = pos (n % 1000 % 100 / 50);
  sp = pos (n % 1000 % 100 % 50 / 10);
  cp = pos (n % 1000 % 100 % 50 % 10 / 1);
}

from_copper-greedy : (n : ℕ) → from_copper (pos n) ≡ ok (greedy n)
unfolding from_copper greedy floor_div
from_copper-greedy n = simp remaining_lem (ground arith)

greedy-copper : (n : ℕ) → to_copper (full (greedy n)) ≡ pos n
unfolding to_copper greedy
greedy-copper n = omega int_laws

greedy-IsNonneg : (n : ℕ) → IsNonneg (greedy n)
unfolding greedy
greedy-IsNonneg n = omega arith

greedy-IsCanonical : (n : ℕ) → IsCanonical (greedy n)
unfolding greedy
greedy-IsCanonical n = omega arith

-- From an amount of copper that is not negative `fromCopper` returns coins of exactly that value,
-- none of them negative and none of them replaceable by a larger denomination.
pub from_copper-total :
    (n : ℕ)
    → (c : Currency) × (from_copper (pos n) ≡ ok c)
      × (to_copper (full c) ≡ pos n)
      × IsNonneg c
      × IsCanonical c
from_copper-total n =
    (greedy n, from_copper-greedy n, greedy-copper n, greedy-IsNonneg n, greedy-IsCanonical n)

pub from_copper-negative : (n : ℕ) → from_copper (negsuc n) ≡ err negative_cp
unfolding from_copper
from_copper-negative n = ground arith

pub to_copper-add : (a b : CurrencyDelta) → to_copper (full (add a b)) ≡ to_copper a +ℤ to_copper b
unfolding to_copper add
to_copper-add a b = omega int_laws

pub any_negative-IsNonneg : (c : Currency) → any_negative c ≡ false → IsNonneg c
any_negative-IsNonneg c h = ground arith

pub IsNonneg-any_negative : (c : Currency) → IsNonneg c → any_negative c ≡ false
IsNonneg-any_negative c h = ground arith

to_copper-difference :
    (a b : CurrencyDelta) → to_copper (full (difference a b)) +ℤ to_copper b ≡ to_copper a
unfolding to_copper
to_copper-difference a b = omega int_laws

-- `subtract` succeeds only where no denomination falls short, and then takes exactly that value.
pub subtract-ok :
    (a b : CurrencyDelta) (c : Currency)
    → subtract a b ≡ ok c
    → IsNonneg c × (to_copper (full c) +ℤ to_copper b ≡ to_copper a)
unfolding subtract
subtract-ok a b c e =
    let (fits, same) = throw_if-ok (any_negative (difference a b)) would_be_negative _ e in
    let eq : difference a b ≡ c = cc in
    (
      subst IsNonneg eq (any_negative-IsNonneg _ fits),
      subst (λ r. to_copper (full r) +ℤ to_copper b ≡ to_copper a) eq (to_copper-difference a b),
    )

-- The coins that `convert` returns: `v` of the target for `q` of the source.
exchanged : Denom → Denom → ℤ → ℤ → Currency
exchanged source target q v = put target v (put source (pos 0 -ℤ q) zero_currency)

exchanged-copper :
    (s t : Denom) (q v : ℤ)
    → denom_eq s t ≡ false
    → to_copper (full (exchanged s t q v)) +ℤ q *ℤ pos (multiplier s) ≡ v *ℤ pos (multiplier t)
unfolding to_copper exchanged
exchanged-copper Denom.cp Denom.cp q v h = cc
exchanged-copper Denom.sp Denom.sp q v h = cc
exchanged-copper Denom.ep Denom.ep q v h = cc
exchanged-copper Denom.gp Denom.gp q v h = cc
exchanged-copper Denom.pp Denom.pp q v h = cc
exchanged-copper _ _ q v h = omega int_laws

floor_div-exact : (a m : ℕ) → a % m ≡ 0 → floor_div (pos a) m *ℤ pos m ≡ pos a
unfolding floor_div
floor_div-exact a m h = omega (int_laws, div-add-mod a m)

divides :
    (a m : ℕ)
    → (if eqb_ℤ (js_rem (pos a) m) (pos 0) then false else true) ≡ false
    → floor_div (pos a) m *ℤ pos m ≡ pos a
divides a m h = floor_div-exact a m (ground arith)

eq_zero : (a b c : ℤ) → a +ℤ b ≡ c → c ≡ b → a ≡ pos 0
eq_zero a b c h k = omega (int_laws, parts_of_eq h, parts_of_eq k)

pub pos_mul : (a b : ℕ) → pos a *ℤ pos b ≡ pos (a * b)
pos_mul a b = omega int_laws

get-put_self : (d : Denom) (v : ℤ) (c : Currency) → get d (put d v c) ≡ v
get-put_self Denom.cp v c = refl
get-put_self Denom.sp v c = refl
get-put_self Denom.ep v c = refl
get-put_self Denom.gp v c = refl
get-put_self Denom.pp v c = refl

get-put_ne :
    (d e : Denom) (v : ℤ) (c : Currency) → denom_eq d e ≡ false → get d (put e v c) ≡ get d c
get-put_ne Denom.cp Denom.cp v c h = cc
get-put_ne Denom.sp Denom.sp v c h = cc
get-put_ne Denom.ep Denom.ep v c h = cc
get-put_ne Denom.gp Denom.gp v c h = cc
get-put_ne Denom.pp Denom.pp v c h = cc
get-put_ne _ _ v c h = refl

get-zero : (d : Denom) → get d zero_currency ≡ pos 0
get-zero Denom.cp = refl
get-zero Denom.sp = refl
get-zero Denom.ep = refl
get-zero Denom.gp = refl
get-zero Denom.pp = refl

-- What an exchange of `qty` coins of the source for coins of the target adds to a holding.
pub record IsExchange (source target : Denom) (qty : ℤ) (c : Currency) : Type 0 where
  pub apart : denom_eq source target ≡ false
  pub enough : pos 1 ≤ℤ qty
  pub paid : get source c ≡ pos 0 -ℤ qty
  pub received : get target c *ℤ pos (multiplier target) ≡ qty *ℤ pos (multiplier source)
  pub others : (d : Denom) → denom_eq d source ≡ false → denom_eq d target ≡ false → get d c ≡ pos 0
  pub even : to_copper (full c) ≡ pos 0

exchanged-IsExchange :
    (s t : Denom) (q v : ℤ)
    → denom_eq s t ≡ false
    → pos 1 ≤ℤ q
    → v *ℤ pos (multiplier t) ≡ q *ℤ pos (multiplier s)
    → IsExchange s t q (exchanged s t q v)
unfolding exchanged
exchanged-IsExchange s t q v apart enough whole =
    let base = put s (pos 0 -ℤ q) zero_currency in
    record {
      apart = apart;
      enough = enough;
      paid = get-put_ne s t v base apart ∙ get-put_self s (pos 0 -ℤ q) zero_currency;
      received = ap (λ x. x *ℤ pos (multiplier t)) (get-put_self t v base) ∙ whole;
      others = λ d n m.
          get-put_ne d t v base m ∙ get-put_ne d s (pos 0 -ℤ q) zero_currency n ∙ get-zero d;
      even = eq_zero _ _ _ (exchanged-copper s t q v apart) whole;
    }

-- A conversion that succeeds is between two denominations, of one coin or more: it takes exactly
-- those coins of the source, gives coins of the target that are worth as much, and none of another,
-- so that the value stays as it was.
pub convert-ok :
    (source target : Denom) (qty : ℤ) (c : Currency)
    → convert source qty target ≡ ok c
    → IsExchange source target qty c
unfolding convert exchanged
convert-ok s t (negsuc q) c e = ground arith
convert-ok s t (pos q) c e =
    let (apart, e1) = throw_if-ok (denom_eq s t) same_denomination _ e in
    let (enough, e2) = throw_if-ok (ltb_ℤ (pos q) (pos 1)) bad_quantity _ e1 in
    let (exact, same) = throw_if-ok _ lossy_conversion _ e2 in
    exchange apart (ground arith) exact same
  where
    exchange :
        denom_eq s t ≡ false
        → pos 1 ≤ℤ pos q
        → (if eqb_ℤ (js_rem (pos q *ℤ pos (multiplier s)) (multiplier t)) (pos 0)
            then false
            else true)
          ≡ false
        → ok (exchanged s t (pos q) (floor_div (pos q *ℤ pos (multiplier s)) (multiplier t))) ≡ ok c
        → IsExchange s t (pos q) c
    exchange apart enough exact same =
        let v = floor_div (pos q *ℤ pos (multiplier s)) (multiplier t) in
        let whole : v *ℤ pos (multiplier t) ≡ pos q *ℤ pos (multiplier s) =
          rw pos_mul (divides _ (multiplier t) (rw pos_mul at exact)) in
        let eq : exchanged s t (pos q) v ≡ c = cc in
        subst (IsExchange s t (pos q)) eq (exchanged-IsExchange s t (pos q) v apart enough whole)

pub add-IsNonneg : (a b : Currency) → IsNonneg a → IsNonneg b → IsNonneg (add (full a) (full b))
unfolding add
add-IsNonneg a b p q = record {
  cp = +ℤ_nonneg a.cp b.cp p.cp q.cp;
  sp = +ℤ_nonneg a.sp b.sp p.sp q.sp;
  ep = +ℤ_nonneg a.ep b.ep p.ep q.ep;
  gp = +ℤ_nonneg a.gp b.gp p.gp q.gp;
  pp = +ℤ_nonneg a.pp b.pp p.pp q.pp;
}

-- What `fromCopper` returned is worth what it was given.
pub from_copper-ok :
    (amount : ℤ) (c : Currency)
    → from_copper amount ≡ ok c
    → (to_copper (full c) ≡ amount) × IsNonneg c
from_copper-ok (pos n) c e =
    let same : greedy n ≡ c = cc (from_copper-greedy n) in
    subst (λ r. (to_copper (full r) ≡ pos n) × IsNonneg r) same (greedy-copper n, greedy-IsNonneg n)
from_copper-ok (negsuc n) c e = cc (from_copper-negative n)
