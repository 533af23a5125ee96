-- ===== src/Reducer/Money/Effects.antt =====
-- What `currency-change` and `currency-transfer` do to the holdings.
use dnd_inventory.Prelude.{
  ℕ, false, update_row, ◌≡◌, ◌≢◌, refl, subst, some, find_row, sum_ℤ-update_row, pos, ◌+ℤ◌, ◌-ℤ◌,
  int_laws, parts_of_eq, find_row-key, All-find_row, Unique-update_row, All-update_row,
  find_row-update_row_self, find_row-update_row_ne,
}
use dnd_inventory.Result.{
  ok, passed, found, done, unknown_stash, no_holding, no_change, would_be_negative,
}
use dnd_inventory.Reducer.Money.Coins.{GainsCoins, get-add, get-subtract}
use dnd_inventory.Rules.Currency.{get, Currency, full, add, any_negative, to_copper}
use dnd_inventory.Rules.Currency.Copper.{
  IsNonneg, subtract-ok, to_copper-add, add-IsNonneg, any_negative-IsNonneg,
}
use dnd_inventory.State.{State, CurrencyHolding, holding_stash, stash_id}
use dnd_inventory.State.Log.{ChangeReason}
use dnd_inventory.Reducer.Shared.{ReducerResult}
use dnd_inventory.Reducer.Money.{all_zero, with_coins, currency_change, currency_transfer}
use dnd_inventory.Reducer.Money.Conservation.{
  IsSound, Transferred, copper_of, total_copper, GainsCopper, two_writes, two_writes-Unique,
  two_writes-total, two_writes-source, two_writes-dest, two_writes-others, two_writes-AllNonneg,
  write_two-update_row, currency_transfer-Transferred,
}

-- A state in which a transfer of `delta` from `f` to `t` has been made in `s`.
pub record IsTransfer (s : State) (f t : ℕ) (delta : Currency) (s' : State) : Type 0 where
  pub total : total_copper s'.currencies ≡ total_copper s.currencies
  pub taken : GainsCoins f (λ d. pos 0 -ℤ get d delta) s.currencies s'.currencies
  pub given : GainsCoins t (λ d. get d delta) s.currencies s'.currencies
  pub debit : GainsCopper f (pos 0 -ℤ to_copper (full delta)) s.currencies s'.currencies
  pub credit : GainsCopper t (to_copper (full delta)) s.currencies s'.currencies
  pub others :
      (j : ℕ)
      → j ≢ f
      → j ≢ t
      → find_row holding_stash j s'.currencies ≡ find_row holding_stash j s.currencies
  pub sound : IsSound s'
  pub rest : s' ≡ record s { currencies = s'.currencies }

module _ (s : State) (f t : ℕ) (delta : Currency) (r : ReducerResult) (sound : IsSound s)
    (m : Transferred s f t delta r) where
  abbrev new_source : CurrencyHolding
  new_source = with_coins m.taken m.source

  abbrev new_dest : CurrencyHolding
  new_dest = with_coins (add (full m.dest.coins) (full delta)) m.dest

  source_key : m.source.stash_id ≡ f
  source_key = find_row-key holding_stash f s.currencies m.source_found

  dest_key : m.dest.stash_id ≡ t
  dest_key = find_row-key holding_stash t s.currencies m.dest_found

  taken_copper : to_copper (full m.taken) ≡ copper_of m.source +ℤ (pos 0 -ℤ to_copper (full delta))
  taken_copper = omega (int_laws, parts_of_eq (subtract-ok _ (full delta) m.taken m.covered).1)

  given_copper :
      to_copper (full (add (full m.dest.coins) (full delta)))
      ≡ copper_of m.dest +ℤ to_copper (full delta)
  given_copper = to_copper-add (full m.dest.coins) (full delta)

  dest-IsNonneg : IsNonneg (add (full m.dest.coins) (full delta))
  dest-IsNonneg =
      add-IsNonneg m.dest.coins delta
        (All-find_row holding_stash (λ h. IsNonneg h.coins) t s.currencies sound.nonneg
          m.dest_found)
        m.delta_nonneg

  even : copper_of new_source +ℤ copper_of new_dest ≡ copper_of m.source +ℤ copper_of m.dest
  even = omega (int_laws, parts_of_eq taken_copper, parts_of_eq given_copper)

  abbrev after : State
  after = record s { currencies = two_writes f new_source t new_dest s.currencies }

  after-IsTransfer : IsTransfer s f t delta after
  after-IsTransfer = record {
    total =
        two_writes-total f t m.source m.dest new_source new_dest s.currencies m.apart source_key
          dest_key sound.one_each m.source_found m.dest_found even;
    taken = record {
      old = m.source;
      new = new_source;
      was = m.source_found;
      now =
          two_writes-source f t m.source m.dest new_source new_dest s.currencies m.apart source_key
            dest_key sound.one_each m.source_found m.dest_found;
      same = refl;
      coins = λ d. get-subtract d m.source.coins delta m.taken m.covered;
    };
    given = record {
      old = m.dest;
      new = new_dest;
      was = m.dest_found;
      now =
          two_writes-dest f t m.source m.dest new_source new_dest s.currencies m.apart source_key
            dest_key sound.one_each m.source_found m.dest_found;
      same = refl;
      coins = λ d. get-add d m.dest.coins delta;
    };
    debit = (
      m.source,
      new_source,
      m.source_found,
      two_writes-source f t m.source m.dest new_source new_dest s.currencies m.apart source_key
          dest_key sound.one_each m.source_found m.dest_found,
      taken_copper,
    );
    credit = (
      m.dest,
      new_dest,
      m.dest_found,
      two_writes-dest f t m.source m.dest new_source new_dest s.currencies m.apart source_key
          dest_key sound.one_each m.source_found m.dest_found,
      given_copper,
    );
    others =
        two_writes-others f t m.source m.dest new_source new_dest s.currencies m.apart source_key
          dest_key sound.one_each m.source_found m.dest_found;
    sound = record {
      one_each =
          two_writes-Unique f t m.source m.dest new_source new_dest s.currencies m.apart source_key
            dest_key sound.one_each m.source_found m.dest_found;
      nonneg =
          two_writes-AllNonneg f t m.source m.dest new_source new_dest s.currencies m.apart
            source_key dest_key sound.one_each m.source_found m.dest_found
            (subtract-ok _ (full delta) m.taken m.covered).0 dest-IsNonneg sound.nonneg;
    };
    rest = refl;
  }

-- Where each stash has at most one holding and none has a negative denomination, a currency
-- transfer that succeeds moves the delta and nothing else: of each denomination, the source has as
-- many coins less and the destination as many more as the delta has, no other holding changes, the
-- value of all holdings is the same, and afterwards there is still one holding for each stash, none
-- of them negative.
pub currency_transfer-IsTransfer :
    (s : State) (f t : ℕ) (delta : Currency) (r : ReducerResult)
    → IsSound s
    → currency_transfer (some s) f t delta ≡ ok r
    → IsTransfer s f t delta r.state
currency_transfer-IsTransfer s f t delta r sound h =
    let m = currency_transfer-Transferred s f t delta h in
    let eq =
      write_two-update_row f t (with_coins m.taken m.source)
        (with_coins (add (full m.dest.coins) (full delta)) m.dest) s.currencies m.apart
        (source_key s f t delta r sound m) in
    rw (m.written, eq) (after-IsTransfer s f t delta r sound m)

-- What a change of `delta` to the holding of `stash` is.
pub record IsChange (s : State) (stash : ℕ) (delta : Currency) (s' : State) : Type 0 where
  pub total : total_copper s'.currencies ≡ total_copper s.currencies +ℤ to_copper (full delta)
  pub coins : GainsCoins stash (λ d. get d delta) s.currencies s'.currencies
  pub gain : GainsCopper stash (to_copper (full delta)) s.currencies s'.currencies
  pub others :
      (j : ℕ)
      → j ≢ stash
      → find_row holding_stash j s'.currencies ≡ find_row holding_stash j s.currencies
  pub sound : IsSound s'
  pub rest : s' ≡ record s { currencies = s'.currencies }

module _ (s : State) (stash : ℕ) (delta : Currency) (old : CurrencyHolding) (sound : IsSound s)
    (e : find_row holding_stash stash s.currencies ≡ some old)
    (fits : any_negative (add (full old.coins) (full delta)) ≡ false) where
  abbrev new : CurrencyHolding
  new = with_coins (add (full old.coins) (full delta)) old

  changed-IsChange :
      IsChange s stash delta
        (record s { currencies = update_row holding_stash stash (λ _. new) s.currencies })
  changed-IsChange =
      let key = find_row-key holding_stash stash s.currencies e in
      record {
        total = omega (
          int_laws,
          parts_of_eq (
              sum_ℤ-update_row holding_stash copper_of stash (λ _. new) s.currencies sound.one_each
                e),
          parts_of_eq (to_copper-add (full old.coins) (full delta)),
        );
        coins = record {
          old = old;
          new = new;
          was = e;
          now = find_row-update_row_self holding_stash stash (λ _. new) s.currencies e key;
          same = refl;
          coins = λ d. get-add d old.coins delta;
        };
        gain = (
          old,
          new,
          e,
          find_row-update_row_self holding_stash stash (λ _. new) s.currencies e key,
          to_copper-add (full old.coins) (full delta),
        );
        others = λ j n.
            find_row-update_row_ne holding_stash j stash (λ _. new) s.currencies n (λ _ _. key);
        sound = record {
          one_each =
              Unique-update_row holding_stash stash (λ _. new) s.currencies (λ _ _. key)
                sound.one_each;
          nonneg =
              All-update_row holding_stash (λ h. IsNonneg h.coins) stash (λ _. new) s.currencies
                (λ _ _. any_negative-IsNonneg _ fits) sound.nonneg;
        };
        rest = refl;
      }

-- Where each stash has at most one holding and none has a negative denomination, a currency change
-- that succeeds adds the delta to the one holding, denomination by denomination, leaves the others
-- alone, and leaves one holding for each stash, none of them negative.
pub currency_change-IsChange :
    (s : State) (stash : ℕ) (delta : Currency) (reason : ChangeReason) (r : ReducerResult)
    → IsSound s
    → currency_change (some s) stash delta reason ≡ ok r
    → IsChange s stash delta r.state
unfolding currency_change
currency_change-IsChange s stash delta reason r sound h =
    found (find_row stash_id stash s.stashes) unknown_stash _ h λ _ _ h.
      found (find_row holding_stash stash s.currencies) no_holding _ h λ old e h.
        passed (all_zero delta) no_change _ h λ _ h.
          passed (any_negative (add (full old.coins) (full delta))) would_be_negative _ h λ fits h.
            done h λ same.
              subst (λ x. IsChange s stash delta x.state) same
                (changed-IsChange s stash delta old sound e fits)
