-- ===== src/Rules/Pricing.antt =====
-- packages/rules/src/pricing.ts: what an item costs in a shop, what a merchant pays for it, and how
-- a price is printed.
--
-- Price modifiers are JavaScript's floating-point numbers. A natural number stands for each, and
-- the operations on them are those of `Numbers`, about which the definitions assume nothing.
pub mod Printing
use dnd_inventory.Prelude.{
  ℕ, ◌*◌, ◌/◌, ◌%◌, Bool, true, false, Option, none, some, List, [], ◌∷◌, ◌++◌, or_else, ◌==◌,
  if◌then◌else◌,
}
use dnd_inventory.Prelude.Text.{Text, codes}
use dnd_inventory.Prelude.Decimal.{print}
use dnd_inventory.Rules.Currency.{Denom, multiplier, denom_eq}

-- `a * b`, a whole number as a number, `Math.floor(a + 0.5)` of a number that is not negative, and
-- the literals 1.0 and 0.5.
pub record Numbers : Type 0 where
  pub times : ℕ → ℕ → ℕ
  pub of_whole : ℕ → ℕ
  pub round : ℕ → ℕ
  pub one : ℕ
  pub half : ℕ

pub data ItemSource : Type 0 where
  phb dmg homebrew : ItemSource

pub record PriceContext : Type 0 where
  pub party_modifier : ℕ
  pub shop_modifier : Option ℕ

-- `source === 'homebrew' ? shop : ctx.partyModifier * shop`
abbrev pub price_scale : Numbers → ItemSource → PriceContext → ℕ
price_scale num ItemSource.homebrew c = or_else c.shop_modifier num.one
price_scale num _ c = num.times c.party_modifier (or_else c.shop_modifier num.one)

-- `baseCostCp` is a number, since a cost in the catalog need not be whole coppers.
unfoldable pub buy_price : Numbers → ℕ → ItemSource → PriceContext → ℕ
buy_price num base_cost_cp source c = num.round (num.times base_cost_cp (price_scale num source c))

unfoldable pub sell_price : Numbers → ℕ → ItemSource → PriceContext → ℕ → ℕ
unfolding buy_price
sell_price num base_cost_cp source c rate =
    let scaled = buy_price num base_cost_cp source c in
    num.round (num.times (num.of_whole scaled) rate)

abbrev pub descent_no_ep : List Denom
descent_no_ep = Denom.pp ∷ Denom.gp ∷ Denom.sp ∷ Denom.cp ∷ []

abbrev pub descent_with_ep : List Denom
descent_with_ep = Denom.pp ∷ Denom.gp ∷ Denom.ep ∷ Denom.sp ∷ Denom.cp ∷ []

-- The ladder from `ladder.indexOf(baseCurrency)` on.
abbrev pub from_base : Denom → List Denom → List Denom
from_base base [] = []
from_base base (d ∷ ds) = let rest = from_base base ds in if denom_eq d base then d ∷ ds else rest

-- The `for` loop: the first denomination that divides the price, with the quotient.
unfoldable pub descend : ℕ → List Denom → ℕ × Denom
descend cp [] = (cp, Denom.cp)
descend cp (d ∷ ds) =
    let rest = descend cp ds in if cp % multiplier d == 0 then (cp / multiplier d, d) else rest

abbrev pub denom_text : Denom → Text
denom_text Denom.cp = codes "cp"
denom_text Denom.sp = codes "sp"
denom_text Denom.ep = codes "ep"
denom_text Denom.gp = codes "gp"
denom_text Denom.pp = codes "pp"

-- The amount and the denomination that are shown.
unfoldable pub shown_price : ℕ → Denom → ℕ × Denom
unfolding descend
shown_price cp base =
    let ladder = if denom_eq base Denom.ep then descent_with_ep else descent_no_ep in
    if cp == 0 then (0, Denom.cp) else descend cp (from_base base ladder)

unfoldable pub format_price : ℕ → Denom → Text
unfolding shown_price print
format_price cp base = let shown = shown_price cp base in print shown.0 ++ b' ' ∷ denom_text shown.1
