-- ===== src/Reducer/Shops/Trade/Paying.antt =====
-- The one holding that a purchase or a sale rewrites.
use dnd_inventory.Prelude.{
  ℕ, ◌≡◌, ◌≢◌, some, List, find_row, update_row, Unique, ℤ, ◌+ℤ◌, int_laws, parts_of_eq,
  sum_ℤ-update_row, find_row-key, find_row-update_row_self, find_row-update_row_ne,
  Unique-update_row, All-update_row,
}
use dnd_inventory.Rules.Currency.{Currency, full, to_copper}
use dnd_inventory.Rules.Currency.Copper.{IsNonneg}
use dnd_inventory.State.{CurrencyHolding, holding_stash}
use dnd_inventory.Reducer.Money.{with_coins}
use dnd_inventory.Reducer.Money.Conservation.{copper_of, total_copper, AllNonneg, GainsCopper}

-- The coins of one stash are worth `v` more, those of no other stash change.
pub record IsPaid (stash : ℕ) (v : ℤ) (before after : List CurrencyHolding) : Type 0 where
  pub total : total_copper after ≡ total_copper before +ℤ v
  pub gains : GainsCopper stash v before after
  pub others :
      (j : ℕ) → j ≢ stash → find_row holding_stash j after ≡ find_row holding_stash j before
  pub one_each : Unique holding_stash after
  pub nonneg : AllNonneg after

module _ (cs : List CurrencyHolding) (stash : ℕ) (holding : CurrencyHolding) (coins : Currency)
    (v : ℤ) (one_each : Unique holding_stash cs) (nonneg : AllNonneg cs)
    (e : find_row holding_stash stash cs ≡ some holding) (positive : IsNonneg coins)
    (worth : to_copper (full coins) ≡ copper_of holding +ℤ v) where
  abbrev new_holding : CurrencyHolding
  new_holding = with_coins coins holding

  pub new_holding-IsPaid : IsPaid stash v cs (update_row holding_stash stash (λ _. new_holding) cs)
  new_holding-IsPaid =
      let key = find_row-key holding_stash stash cs e in
      record {
        total = omega (
          int_laws,
          parts_of_eq worth,
          parts_of_eq
              (sum_ℤ-update_row holding_stash copper_of stash (λ _. new_holding) cs one_each e),
        );
        gains = (
          holding,
          new_holding,
          e,
          find_row-update_row_self holding_stash stash (λ _. new_holding) cs e key,
          worth,
        );
        others = λ j n.
            find_row-update_row_ne holding_stash j stash (λ _. new_holding) cs n (λ _ _. key);
        one_each =
            Unique-update_row holding_stash stash (λ _. new_holding) cs (λ _ _. key) one_each;
        nonneg =
            All-update_row holding_stash (λ (h : CurrencyHolding). IsNonneg h.coins) stash
              (λ _. new_holding) cs (λ _ _. positive) nonneg;
      }
