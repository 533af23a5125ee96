-- ===== src/Rules/Currency.antt =====
-- packages/rules/src/currency.ts: the denomination ladder and the arithmetic on it. Amounts are
-- whole numbers, as the schemas demand (`z.number().int()`), and may be negative, so the
-- `Number.isInteger` tests always pass.
pub mod Copper
pub mod Splitting
use dnd_inventory.Prelude.{
  ℕ, ◌*◌, ◌/◌, ◌%◌, Bool, true, false, ◌||◌, Option, none, some, List, [], ◌∷◌, or_else,
  if◌then◌else◌, ℤ, pos, negsuc, pos_part, ◌+ℤ◌, ◌-ℤ◌, ◌*ℤ◌, floor_div, ltb_ℤ, eqb_ℤ, suc,
}
use dnd_inventory.Result.{
  Result, ok, ◌>>◌, throw_if, negative_cp, same_denomination, bad_quantity, lossy_conversion,
  would_be_negative, bad_share_count,
}

pub data Denom : Type 0 where
  cp sp ep gp pp : Denom

pub record Currency : Type 0 where
  pub cp : ℤ
  pub sp : ℤ
  pub ep : ℤ
  pub gp : ℤ
  pub pp : ℤ

-- `Partial<Currency>`
pub record CurrencyDelta : Type 0 where
  pub cp : Option ℤ
  pub sp : Option ℤ
  pub ep : Option ℤ
  pub gp : Option ℤ
  pub pp : Option ℤ

-- A `Currency` where a `CurrencyDelta` is expected.
abbrev pub full : Currency → CurrencyDelta
full c = record { cp = some c.cp; sp = some c.sp; ep = some c.ep; gp = some c.gp; pp = some c.pp }

abbrev pub zero_currency : Currency
zero_currency = record { cp = pos 0; sp = pos 0; ep = pos 0; gp = pos 0; pp = pos 0 }

abbrev pub multiplier : Denom → ℕ
multiplier Denom.cp = 1
multiplier Denom.sp = 10
multiplier Denom.ep = 50
multiplier Denom.gp = 100
multiplier Denom.pp = 1000

abbrev pub denoms_largest_first : List Denom
denoms_largest_first = Denom.pp ∷ Denom.gp ∷ Denom.ep ∷ Denom.sp ∷ Denom.cp ∷ []

-- `coins[d]`
abbrev pub get : Denom → Currency → ℤ
get Denom.cp c = c.cp
get Denom.sp c = c.sp
get Denom.ep c = c.ep
get Denom.gp c = c.gp
get Denom.pp c = c.pp

-- `coins[d] = v`
abbrev pub put : Denom → ℤ → Currency → Currency
put Denom.cp v c = record c { cp = v }
put Denom.sp v c = record c { sp = v }
put Denom.ep v c = record c { ep = v }
put Denom.gp v c = record c { gp = v }
put Denom.pp v c = record c { pp = v }

abbrev pub denom_eq : Denom → Denom → Bool
denom_eq Denom.cp Denom.cp = true
denom_eq Denom.sp Denom.sp = true
denom_eq Denom.ep Denom.ep = true
denom_eq Denom.gp Denom.gp = true
denom_eq Denom.pp Denom.pp = true
denom_eq _ _ = false

unfoldable pub to_copper : CurrencyDelta → ℤ
to_copper coins =
    or_else coins.cp (pos 0) *ℤ pos (multiplier Denom.cp)
    +ℤ or_else coins.sp (pos 0) *ℤ pos (multiplier Denom.sp)
    +ℤ or_else coins.ep (pos 0) *ℤ pos (multiplier Denom.ep)
    +ℤ or_else coins.gp (pos 0) *ℤ pos (multiplier Denom.gp)
    +ℤ or_else coins.pp (pos 0) *ℤ pos (multiplier Denom.pp)

-- The `for` loop of `fromCopper`.
unfoldable pub from_copper_loop : List Denom → ℤ → Currency → Currency
from_copper_loop [] remaining result = result
from_copper_loop (d ∷ ds) remaining result =
    let count = floor_div remaining (multiplier d) in
    from_copper_loop ds (remaining -ℤ count *ℤ pos (multiplier d)) (put d count result)

unfoldable pub from_copper : ℤ → Result Currency
unfolding from_copper_loop
from_copper amount = do
  throw_if (ltb_ℤ amount (pos 0)) negative_cp
  ok (from_copper_loop denoms_largest_first amount zero_currency)

-- JavaScript's `%`: the sign is that of the dividend.
abbrev pub js_rem : ℤ → ℕ → ℤ
js_rem (pos a) m = pos (a % m)
js_rem (negsuc a) m = pos 0 -ℤ pos (suc a % m)

unfoldable pub convert : Denom → ℤ → Denom → Result Currency
convert source qty target = do
  throw_if (denom_eq source target) same_denomination
  throw_if (ltb_ℤ qty (pos 1)) bad_quantity
  let cp_equivalent = qty *ℤ pos (multiplier source)
  throw_if (if eqb_ℤ (js_rem cp_equivalent (multiplier target)) (pos 0) then false else true)
      lossy_conversion
  let target_qty = floor_div cp_equivalent (multiplier target)
  ok (put target target_qty (put source (pos 0 -ℤ qty) zero_currency))

unfoldable pub add : CurrencyDelta → CurrencyDelta → Currency
add a b = record {
  cp = or_else a.cp (pos 0) +ℤ or_else b.cp (pos 0);
  sp = or_else a.sp (pos 0) +ℤ or_else b.sp (pos 0);
  ep = or_else a.ep (pos 0) +ℤ or_else b.ep (pos 0);
  gp = or_else a.gp (pos 0) +ℤ or_else b.gp (pos 0);
  pp = or_else a.pp (pos 0) +ℤ or_else b.pp (pos 0);
}

-- The test that `subtract` and the reducer make of a new holding.
abbrev pub any_negative : Currency → Bool
any_negative c =
    ltb_ℤ c.cp (pos 0)
    || ltb_ℤ c.sp (pos 0)
    || ltb_ℤ c.ep (pos 0)
    || ltb_ℤ c.gp (pos 0)
    || ltb_ℤ c.pp (pos 0)

abbrev pub difference : CurrencyDelta → CurrencyDelta → Currency
difference a b = record {
  cp = or_else a.cp (pos 0) -ℤ or_else b.cp (pos 0);
  sp = or_else a.sp (pos 0) -ℤ or_else b.sp (pos 0);
  ep = or_else a.ep (pos 0) -ℤ or_else b.ep (pos 0);
  gp = or_else a.gp (pos 0) -ℤ or_else b.gp (pos 0);
  pp = or_else a.pp (pos 0) -ℤ or_else b.pp (pos 0);
}

unfoldable pub subtract : CurrencyDelta → CurrencyDelta → Result Currency
subtract a b = do
  let result = difference a b
  throw_if (any_negative result) would_be_negative
  ok result

-- What a leftover of denomination `d` does to the pool, `ds` being the denominations below `d`.
unfoldable pub cascade : Denom → List Denom → ℤ → Currency → Currency
cascade d [] leftover working = record working { cp = leftover }
cascade d (next ∷ _) leftover working =
    put next (get next working +ℤ leftover *ℤ pos (multiplier d / multiplier next)) working

-- One round of the `for` loop of `splitEvenly`, on the pool and the share.
unfoldable pub split_step : ℕ → Denom → List Denom → Currency × Currency → Currency × Currency
unfolding cascade
split_step n d ds (working, share) =
    let qty = get d working in
    let each = floor_div qty n in
    let leftover = qty -ℤ each *ℤ pos n in
    let emptied = put d (pos 0) working in
    (if eqb_ℤ leftover (pos 0) then emptied else cascade d ds leftover emptied, put d each share)

unfoldable pub split_loop : ℕ → List Denom → Currency × Currency → Currency × Currency
split_loop n [] state = state
split_loop n (d ∷ ds) state = split_loop n ds (split_step n d ds state)

-- The share of each recipient, and what stays in the pool.
unfoldable pub split_evenly : Currency → ℤ → Result (Currency × Currency)
unfolding split_loop split_step
split_evenly pool n = do
  throw_if (ltb_ℤ n (pos 1)) bad_share_count
  let (working, share) = split_loop (pos_part n) denoms_largest_first (pool, zero_currency)
  ok (share, working)
