-- ===== src/Reducer/Money/Conservation.antt =====
-- What the coin actions conserve: the holdings of all stashes together, and their signs.
use dnd_inventory.Prelude.{
  ℕ, ◌≡◌, ◌≢◌, refl, sym, ◌∙◌, arith, some, List, [], ◌∷◌, All, find_row, update_row, Unique, sum_ℤ,
  sum_ℤ-update_row, ℤ, ◌+ℤ◌, int_laws, parts_of_eq, ◌==◌, find_row-update_row_self,
  find_row-update_row_ne, Unique-update_row, All-update_row,
}
use dnd_inventory.Result.{
  ok, passed, found, returned, done, same_stash, no_change, negative_delta, unknown_stash,
  no_holding,
}
use dnd_inventory.Rules.Currency.{Currency, full, add, subtract, any_negative, to_copper}
use dnd_inventory.Rules.Currency.Copper.{IsNonneg, any_negative-IsNonneg}
use dnd_inventory.State.{State, CurrencyHolding, holding_stash, stash_id}
use dnd_inventory.Reducer.Shared.{ReducerResult}
use dnd_inventory.Reducer.Money.{all_zero, with_coins, write_two, currency_transfer}

abbrev pub copper_of : CurrencyHolding → ℤ
copper_of h = to_copper (full h.coins)

-- The value in copper of all holdings.
abbrev pub total_copper : List CurrencyHolding → ℤ
total_copper = sum_ℤ copper_of

abbrev pub AllNonneg : List CurrencyHolding → Type 0
AllNonneg = All (λ h. IsNonneg h.coins)

-- One holding for each stash, none with a negative denomination.
pub record IsSound (s : State) : Type 0 where
  pub one_each : Unique holding_stash s.currencies
  pub nonneg : AllNonneg s.currencies

pub write_two-update_row :
    (f t : ℕ) (src dst : CurrencyHolding) (cs : List CurrencyHolding)
    → f ≢ t
    → src.stash_id ≡ f
    → write_two f src t dst cs
      ≡ update_row holding_stash t (λ _. dst) (update_row holding_stash f (λ _. src) cs)
unfolding write_two
write_two-update_row f t src dst [] n e = refl
write_two-update_row f t src dst (c ∷ cs) n e =
    ground (arith, write_two-update_row f t src dst cs n e)

-- What a transfer that succeeded found and wrote.
pub record Transferred (s : State) (f t : ℕ) (delta : Currency) (r : ReducerResult) : Type 0 where
  pub source : CurrencyHolding
  pub dest : CurrencyHolding
  pub taken : Currency
  pub source_found : find_row holding_stash f s.currencies ≡ some source
  pub dest_found : find_row holding_stash t s.currencies ≡ some dest
  pub covered : subtract (full source.coins) (full delta) ≡ ok taken
  pub apart : f ≢ t
  pub delta_nonneg : IsNonneg delta
  pub written : r.state ≡ record s {
    currencies =
        write_two f
          (with_coins taken source)
          t
          (with_coins (add (full dest.coins) (full delta)) dest)
          s.currencies;
  }

pub currency_transfer-Transferred :
    (s : State) (f t : ℕ) (delta : Currency) {r : ReducerResult}
    → currency_transfer (some s) f t delta ≡ ok r
    → Transferred s f t delta r
unfolding currency_transfer
currency_transfer-Transferred s f t delta h = passed (f == t) same_stash _ h λ apart h.
    passed (all_zero delta) no_change _ h λ _ h.
      passed (any_negative delta) negative_delta _ h λ positive h.
        found (find_row stash_id f s.stashes) unknown_stash _ h λ _ _ h.
          found (find_row stash_id t s.stashes) unknown_stash _ h λ _ _ h.
            found (find_row holding_stash f s.currencies) no_holding _ h λ source e1 h.
              found (find_row holding_stash t s.currencies) no_holding _ h λ dest e2 h.
                returned (subtract (full source.coins) (full delta)) _ h λ taken e3 h.
                  done h λ same. record {
                    source = source;
                    dest = dest;
                    taken = taken;
                    source_found = e1;
                    dest_found = e2;
                    covered = e3;
                    apart = λ e. absurd (ground arith);
                    delta_nonneg = any_negative-IsNonneg delta positive;
                    written = cc;
                  }

-- The coins that a stash holds are worth `v` copper more than before (or, swapped, less).
abbrev pub GainsCopper : ℕ → ℤ → List CurrencyHolding → List CurrencyHolding → Type 0
GainsCopper stash v before after =
    (old : CurrencyHolding) × (new : CurrencyHolding) × (find_row holding_stash stash before
      ≡ some old)
    × (find_row holding_stash stash after ≡ some new)
    × (copper_of new ≡ copper_of old +ℤ v)

-- One write, and the two writes of a transfer, one after the other.
abbrev pub one_write : ℕ → CurrencyHolding → List CurrencyHolding → List CurrencyHolding
one_write f new_source = update_row holding_stash f (λ _. new_source)

abbrev pub two_writes :
    ℕ → CurrencyHolding → ℕ → CurrencyHolding → List CurrencyHolding → List CurrencyHolding
two_writes f new_source t new_dest cs =
    update_row holding_stash t (λ _. new_dest) (one_write f new_source cs)

module _ (f t : ℕ) (source dest new_source new_dest : CurrencyHolding) (cs : List CurrencyHolding)
    (n : f ≢ t) (e : new_source.stash_id ≡ f) (e' : new_dest.stash_id ≡ t)
    (u : Unique holding_stash cs) (hs : find_row holding_stash f cs ≡ some source)
    (hd : find_row holding_stash t cs ≡ some dest) where
  one_write-Unique : Unique holding_stash (one_write f new_source cs)
  one_write-Unique = Unique-update_row holding_stash f (λ _. new_source) cs (λ _ _. e) u

  dest_in_one_write : find_row holding_stash t (one_write f new_source cs) ≡ some dest
  dest_in_one_write =
      find_row-update_row_ne holding_stash t f (λ _. new_source) cs (λ h. n (sym h)) (λ _ _. e) ∙ hd

  pub two_writes-Unique : Unique holding_stash (two_writes f new_source t new_dest cs)
  two_writes-Unique =
      Unique-update_row holding_stash t (λ _. new_dest) (one_write f new_source cs) (λ _ _. e')
        one_write-Unique

  pub two_writes-total :
      copper_of new_source +ℤ copper_of new_dest ≡ copper_of source +ℤ copper_of dest
      → total_copper (two_writes f new_source t new_dest cs) ≡ total_copper cs
  two_writes-total even = omega (
    int_laws,
    parts_of_eq even,
    parts_of_eq (sum_ℤ-update_row holding_stash copper_of f (λ _. new_source) cs u hs),
    parts_of_eq (
        sum_ℤ-update_row holding_stash copper_of t (λ _. new_dest) (one_write f new_source cs)
          one_write-Unique dest_in_one_write),
  )

  pub two_writes-source :
      find_row holding_stash f (two_writes f new_source t new_dest cs) ≡ some new_source
  two_writes-source =
      find_row-update_row_ne holding_stash f t (λ _. new_dest) (one_write f new_source cs) n
        (λ _ _. e')
      ∙ find_row-update_row_self holding_stash f (λ _. new_source) cs hs e

  pub two_writes-dest :
      find_row holding_stash t (two_writes f new_source t new_dest cs) ≡ some new_dest
  two_writes-dest =
      find_row-update_row_self holding_stash t (λ _. new_dest) (one_write f new_source cs)
        dest_in_one_write e'

  pub two_writes-others :
      (j : ℕ)
      → j ≢ f
      → j ≢ t
      → find_row holding_stash j (two_writes f new_source t new_dest cs)
        ≡ find_row holding_stash j cs
  two_writes-others j a b =
      find_row-update_row_ne holding_stash j t (λ _. new_dest) (one_write f new_source cs) b
        (λ _ _. e')
      ∙ find_row-update_row_ne holding_stash j f (λ _. new_source) cs a (λ _ _. e)

  pub two_writes-AllNonneg :
      IsNonneg new_source.coins
      → IsNonneg new_dest.coins
      → AllNonneg cs
      → AllNonneg (two_writes f new_source t new_dest cs)
  two_writes-AllNonneg p q a =
      All-update_row holding_stash (λ h. IsNonneg h.coins) t (λ _. new_dest)
        (one_write f new_source cs) (λ _ _. q)
        (All-update_row holding_stash (λ h. IsNonneg h.coins) f (λ _. new_source) cs (λ _ _. p) a)
