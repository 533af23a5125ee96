-- ===== src/Tests/Rules.antt =====
-- The rules of coins, capacity and weight.
use dnd_inventory.Prelude.{
  ℕ, ◌+◌, ◌≤◌, ◌≡◌, refl, arith, true, none, some, List, [], ◌∷◌, map, pos, ◌-ℤ◌, ◌*ℤ◌, floor_div,
}
use dnd_inventory.Result.{ok}
use dnd_inventory.Rules.Currency.{
  Currency, Denom, full, to_copper, from_copper, convert, split_evenly, zero_currency,
}
use dnd_inventory.Rules.Currency.Copper.{
  IsNonneg, IsCanonical, IsExchange, from_copper-total, convert-ok,
}
use dnd_inventory.Rules.Currency.Splitting.{Split, split_evenly-total}
use dnd_inventory.Rules.Capacity.{encumbrance_state, would_exceed_threshold, variant, small}
use dnd_inventory.Rules.Capacity.Bands.{is_heavy, would_exceed_threshold-encumbrance_state}
use dnd_inventory.Rules.Weight.{
  WeightRow, DefWeight, container_aware_weight, total_weight, flat_parents,
}
use dnd_inventory.Rules.Weight.Flat.{weight_and_quantity, container_aware_weight-total_weight}

abbrev purse : Currency
purse = record zero_currency { pp = pos 1; gp = pos 2; cp = pos 4 }

purse-IsNonneg : IsNonneg purse
purse-IsNonneg = omega arith

split_evenly-total_example :
    (share : Currency) × (remainder : Currency) × (split_evenly purse (pos 3)
      ≡ ok (share, remainder))
    × Split purse 3 share remainder
split_evenly-total_example = split_evenly-total purse 3 (omega arith) purse-IsNonneg

from_copper-total_example :
    (c : Currency) × (from_copper (pos 1787) ≡ ok c)
    × (to_copper (full c) ≡ pos 1787)
    × IsNonneg c
    × IsCanonical c
from_copper-total_example = from_copper-total 1787

abbrev exchanged : Currency
exchanged = record zero_currency { sp = pos 5; ep = pos 0 -ℤ pos 1 }

convert-ok_example : IsExchange Denom.ep Denom.sp (pos 1) exchanged
unfolding convert floor_div ◌*ℤ◌ ◌-ℤ◌
convert-ok_example = convert-ok Denom.ep Denom.sp (pos 1) exchanged refl

would_exceed_threshold-encumbrance_state_example :
    would_exceed_threshold 4000 2000 12 small variant
    ≡ is_heavy (encumbrance_state (4000 + 2000) 12 small variant)
would_exceed_threshold-encumbrance_state_example =
    would_exceed_threshold-encumbrance_state 4000 2000 12 small variant

-- A flat bag (definition 1) that holds ten stones (definition 2).
abbrev packed : List WeightRow
packed =
    record { id = 5; definition_id = 1; quantity = 1; container_instance_id = none }
    ∷ record { id = 6; definition_id = 2; quantity = 10; container_instance_id = some 5 }
    ∷ []

abbrev weights : List (ℕ × DefWeight)
weights =
    (1, record { weight = 1500; flat_weight = some true })
    ∷ (2, record { weight = 100; flat_weight = none })
    ∷ []

container_aware_weight-total_weight_example :
    (container_aware_weight packed weights
      ≤ total_weight (map (weight_and_quantity weights) packed))
    × (flat_parents weights packed ≡ []
        → container_aware_weight packed weights
          ≡ total_weight (map (weight_and_quantity weights) packed))
container_aware_weight-total_weight_example = container_aware_weight-total_weight packed weights
