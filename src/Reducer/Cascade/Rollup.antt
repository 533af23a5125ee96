-- ===== src/Reducer/Cascade/Rollup.antt =====
-- What the cascade of a character to Recovered Loot does to the coins, the items and the rows.
use dnd_inventory.Reducer.Money.Coins.{GainsCoins, total_of}
use dnd_inventory.State.{item_id}
use dnd_inventory.Rules.Currency.{Denom, get}
use dnd_inventory.Prelude.{
  ap, ◌≢◌, map, ◌+ℤ◌, find_row-map, find_row-update_row_self, find_row-update_row_ne,
}
use dnd_inventory.Prelude.{
  ℕ, ◌≡◌, refl, sym, subst, ◌∙◌, arith, Bool, true, false, not, inl, inr, some, none, List, [], ◌∷◌,
  ◌==◌, filter, includes, any, All, Unique, find_row, update_row, remove_row, Bool-cases, int_laws,
  parts_of_eq, sum_of, ◌++◌, sum_ℤ-update_row, sum_ℤ-filter, All-filter, All-filter-test,
  All-find_row, All-update_row, Unique-filter, Unique-update_row, find_row-filter, find_row-key,
  find_row-Absent, Absent-remove_row_self, includes-filter, any-filter-keys,
}
use dnd_inventory.Result.{ok, err, found, returned, done, no_holding, unknown_character}
use dnd_inventory.Rules.Currency.{full, to_copper, zero_currency}
use dnd_inventory.Rules.Currency.Copper.{IsNonneg}
use dnd_inventory.State.{
  State, Stash, Character, CurrencyHolding, ItemInstance, Context, stash_id, holding_stash,
  character_id, scope_is_recovered_loot,
}
use dnd_inventory.Reducer.Shared.{ReducerResult}
use dnd_inventory.Reducer.Counts.{ItemsAreSound, IsMoved, map-IsMoved}
use dnd_inventory.Reducer.Money.Conservation.{copper_of, total_copper, AllNonneg, IsSound}
use dnd_inventory.Reducer.Stashes.{rolled_up, sort_by_id}
use dnd_inventory.State.Log.{LogSlice}
use dnd_inventory.Reducer.Stashes.Deletion.{
  rolled_up-copper, rolled_up-get, rolled_up-id, rolled_up-stash, rolled_up-IsNonneg,
}
use dnd_inventory.Reducer.Cascade.{
  belongs_to, owned_stash_ids, recovered, cascade_log, aggregated, aggregate, plays, Cascade,
  cascaded, cascade_character, delete_character,
}
use dnd_inventory.Reducer.Cascade.Parts.{
  aggregate_from-copper, aggregate_from-IsNonneg, zero-copper, zero-IsNonneg, recovered-Keeps,
  recovered-emptied, unlink-no_player, aggregate_from-get, zero-get, in_loot, recovered-moved,
  recovered-stayed,
}

-- What taking a character out of a state makes of it.
pub record IsTakenOut (s : State) (character : ℕ) (s' : State) : Type 0 where
  pub copper : total_copper s'.currencies ≡ total_copper s.currencies
  pub items : IsMoved s.items s'.items
  pub holdings : IsSound s'
  pub no_character : find_row character_id character s'.characters ≡ none
  pub no_stash : any (belongs_to character) s'.stashes ≡ false
  pub no_player : any (plays character) s'.memberships ≡ false
  pub no_holding :
      All
        (λ (h : CurrencyHolding). includes h.stash_id (owned_stash_ids character s.stashes) ≡ false)
        s'.currencies
  pub emptied :
      All
        (λ (i : ItemInstance). includes i.owner_id (owned_stash_ids character s.stashes) ≡ false)
        s'.items
  pub moved :
      (k : ℕ) (i : ItemInstance)
      → find_row item_id k s.items ≡ some i
      → includes i.owner_id (owned_stash_ids character s.stashes) ≡ true
      → find_row item_id k s'.items ≡ some (in_loot s.party.recovered_loot_stash_id i)
  pub stayed :
      (k : ℕ) (i : ItemInstance)
      → find_row item_id k s.items ≡ some i
      → includes i.owner_id (owned_stash_ids character s.stashes) ≡ false
      → find_row item_id k s'.items ≡ some i
  pub coins :
      GainsCoins s.party.recovered_loot_stash_id
        (λ d. total_of d (
          filter
            (λ (h : CurrencyHolding). includes h.stash_id (owned_stash_ids character s.stashes))
            s.currencies))
        s.currencies
        s'.currencies
  pub other_holdings :
      (j : ℕ)
      → j ≢ s.party.recovered_loot_stash_id
      → includes j (owned_stash_ids character s.stashes) ≡ false
      → find_row holding_stash j s'.currencies ≡ find_row holding_stash j s.currencies

-- Recovered Loot is a stash of its own scope, and no two stashes have one id.
pub record HasLoot (s : State) : Type 0 where
  pub ids : Unique stash_id s.stashes
  pub stash : Stash
  pub there : find_row stash_id s.party.recovered_loot_stash_id s.stashes ≡ some stash
  pub scoped : scope_is_recovered_loot stash.scope ≡ true

loot_stash-other :
    (character : ℕ) (st : Stash)
    → scope_is_recovered_loot st.scope ≡ true
    → belongs_to character st ≡ false
loot_stash-other character st h = ground arith

module _ (s : State) (character : ℕ) (loot_holding : CurrencyHolding)
    (items : ItemsAreSound s.items) (sound : IsSound s) (has_loot : HasLoot s)
    (e_loot : find_row holding_stash s.party.recovered_loot_stash_id s.currencies
      ≡ some loot_holding) where
  abbrev loot : ℕ
  loot = s.party.recovered_loot_stash_id

  abbrev owned : List ℕ
  owned = owned_stash_ids character s.stashes

  abbrev kept : List CurrencyHolding
  kept = filter (λ (h : CurrencyHolding). not (includes h.stash_id owned)) s.currencies

  abbrev coming : CurrencyHolding
  coming = aggregate owned s.currencies loot_holding

  abbrev rolled : CurrencyHolding
  rolled = rolled_up coming loot_holding

  pub loot_apart : includes loot owned ≡ false
  loot_apart =
      includes-filter stash_id loot (belongs_to character) s.stashes has_loot.ids has_loot.there
        (loot_stash-other character has_loot.stash has_loot.scoped)

  loot_holding_key : loot_holding.stash_id ≡ loot
  loot_holding_key = find_row-key holding_stash loot s.currencies e_loot

  rolled_key : rolled.stash_id ≡ loot
  rolled_key = rolled_up-stash coming loot_holding ∙ loot_holding_key

  e_kept : find_row holding_stash loot kept ≡ some loot_holding
  e_kept =
      find_row-filter holding_stash loot (λ k. not (includes k owned)) s.currencies
        (ground (arith, loot_apart))
      ∙ e_loot

  kept-Unique : Unique holding_stash kept
  kept-Unique =
      Unique-filter holding_stash (λ h. not (includes h.stash_id owned)) s.currencies sound.one_each

  coming-copper :
      copper_of coming
      ≡ total_copper (filter (λ (h : CurrencyHolding). includes h.stash_id owned) s.currencies)
  coming-copper =
      let taken = filter (λ (h : CurrencyHolding). includes h.stash_id owned) s.currencies in
      omega
        (int_laws, parts_of_eq (aggregate_from-copper zero_currency taken), parts_of_eq zero-copper)

  cascaded-copper :
      total_copper (update_row holding_stash loot (λ _. rolled) kept) ≡ total_copper s.currencies
  cascaded-copper = omega (
    int_laws,
    parts_of_eq
        (sum_ℤ-update_row holding_stash copper_of loot (λ _. rolled) kept kept-Unique e_kept),
    parts_of_eq
        (sum_ℤ-filter (λ (h : CurrencyHolding). includes h.stash_id owned) copper_of s.currencies),
    parts_of_eq (rolled_up-copper coming loot_holding),
    parts_of_eq coming-copper,
  )

  coming-IsNonneg : IsNonneg coming.coins
  coming-IsNonneg =
      let test : CurrencyHolding → Bool = λ h. includes h.stash_id owned in
      aggregate_from-IsNonneg zero_currency (filter test s.currencies) zero-IsNonneg
        (All-filter test (λ (h : CurrencyHolding). IsNonneg h.coins) s.currencies sound.nonneg)

  cascaded-AllNonneg : AllNonneg (update_row holding_stash loot (λ _. rolled) kept)
  cascaded-AllNonneg =
      let loot_nonneg =
        All-find_row holding_stash (λ (h : CurrencyHolding). IsNonneg h.coins) loot s.currencies
          sound.nonneg e_loot in
      All-update_row holding_stash (λ (h : CurrencyHolding). IsNonneg h.coins) loot (λ _. rolled)
        kept (λ _ _. rolled_up-IsNonneg coming loot_holding coming-IsNonneg loot_nonneg)
        (All-filter (λ h. not (includes h.stash_id owned))
          (λ (h : CurrencyHolding). IsNonneg h.coins) s.currencies sound.nonneg)

  kept_without :
      (hs : List CurrencyHolding)
      → All (λ (h : CurrencyHolding). not (includes h.stash_id owned) ≡ true) hs
      → All
          (λ (h : CurrencyHolding). includes h.stash_id owned ≡ false)
          (update_row holding_stash loot (λ _. rolled) hs)
  kept_without [] a = tt
  kept_without (h ∷ hs) a = elim (Bool-cases (h.stash_id == loot)) [
    | inl same ↦
        rw same
          (subst (λ k. includes k owned ≡ false) (sym rolled_key) loot_apart, kept_without hs a.1)
    | inr other ↦ rw other (ground (arith, a.0), kept_without hs a.1)
  ]

  recovered-find :
      (k : ℕ) (i : ItemInstance)
      → find_row item_id k s.items ≡ some i
      → find_row item_id k (map (recovered owned loot) s.items) ≡ some (recovered owned loot i)
  recovered-find k i e =
      find_row-map item_id k (recovered owned loot) s.items (λ j. (recovered-Keeps owned loot j).0)
        e

  rolled-get :
      (d : Denom)
      → get d rolled.coins
        ≡ get d loot_holding.coins
          +ℤ total_of d (filter (λ (h : CurrencyHolding). includes h.stash_id owned) s.currencies)
  rolled-get d =
      let taken = filter (λ (h : CurrencyHolding). includes h.stash_id owned) s.currencies in
      omega (
        int_laws,
        parts_of_eq (rolled_up-get coming loot_holding d),
        parts_of_eq (aggregate_from-get d zero_currency taken),
        parts_of_eq (zero-get d),
      )

  pub cascaded-IsTakenOut : IsTakenOut s character (cascaded s character loot_holding)
  cascaded-IsTakenOut = record {
    copper = cascaded-copper;
    items = map-IsMoved (recovered owned loot) s.items (recovered-Keeps owned loot) items;
    holdings = record {
      one_each =
          Unique-update_row holding_stash loot (λ _. rolled) kept (λ _ _. rolled_key) kept-Unique;
      nonneg = cascaded-AllNonneg;
    };
    no_character =
        find_row-Absent character_id character (remove_row character_id character s.characters)
          (Absent-remove_row_self character_id character s.characters);
    no_stash = any-filter-keys stash_id (belongs_to character) s.stashes owned (λ k e. e);
    no_player = unlink-no_player character s.memberships;
    no_holding =
        kept_without kept
          (All-filter-test (λ (h : CurrencyHolding). not (includes h.stash_id owned)) s.currencies);
    emptied = recovered-emptied owned loot s.items loot_apart;
    moved = λ k i e h. recovered-find k i e ∙ ap some (recovered-moved owned loot i h);
    stayed = λ k i e h. recovered-find k i e ∙ ap some (recovered-stayed owned loot i h);
    coins = record {
      old = loot_holding;
      new = rolled;
      was = e_loot;
      now = find_row-update_row_self holding_stash loot (λ _. rolled) kept e_kept rolled_key;
      same = rolled_up-id coming loot_holding;
      coins = rolled-get;
    };
    other_holdings = λ j n h.
        find_row-update_row_ne holding_stash j loot (λ _. rolled) kept n (λ _ _. rolled_key)
        ∙ find_row-filter holding_stash j (λ k. not (includes k owned)) s.currencies
            (ground (arith, h));
  }

pub cascade_character-IsTakenOut :
    (ctx : Context) (s : State) (character : Character) (c : Cascade)
    → ItemsAreSound s.items
    → IsSound s
    → HasLoot s
    → cascade_character ctx s character ≡ ok c
    → IsTakenOut s character.id c.state
unfolding cascade_character
cascade_character-IsTakenOut ctx s character c items sound has_loot h =
    found (find_row holding_stash s.party.recovered_loot_stash_id s.currencies) no_holding _ h
      λ loot_holding e h. done h λ same.
        subst (λ (x : Cascade). IsTakenOut s character.id x.state) same
          (cascaded-IsTakenOut s character.id loot_holding items sound has_loot e)

-- Where each stash has at most one holding and none has a negative denomination, item ids are
-- distinct and no row is empty, stash ids are distinct and Recovered Loot is a stash of that scope,
-- a `delete-character` that succeeds destroys nothing: each row of its stashes is in Recovered
-- Loot, neither equipped nor attuned nor in a container and else as it was, and every other row is
-- as it was; Recovered Loot has the coins of its stashes, denomination by denomination, on top of
-- its own, and no holding of another stash changes. The value of all holdings and every
-- definition's quantity are as before, and the holdings and the items stay sound. No stash of the
-- character is left, no holding and no item with what had been its stashes, no player's membership
-- that points to it, and not the character.
pub delete_character-IsTakenOut :
    (ctx : Context) (s : State) (id : ℕ) (r : ReducerResult)
    → ItemsAreSound s.items
    → IsSound s
    → HasLoot s
    → delete_character ctx (some s) id ≡ ok r
    → IsTakenOut s id r.state
unfolding delete_character
delete_character-IsTakenOut ctx s id r items sound has_loot h =
    found (find_row character_id id s.characters) unknown_character _ h λ character e h.
      returned (cascade_character ctx s character) _ h λ c taken h. done h λ same.
        let out = cascade_character-IsTakenOut ctx s character c items sound has_loot taken in
        let key = find_row-key character_id id s.characters e in
        subst (λ (x : ReducerResult). IsTakenOut s id x.state) same
          (subst (λ k. IsTakenOut s k c.state) key out)

-- What `delete-character` returns.
abbrev deleted : Context → State → Character → CurrencyHolding → ReducerResult
deleted ctx s character loot_holding =
    let owned = owned_stash_ids character.id s.stashes in
    let doomed =
      sort_by_id ctx.locale_le (filter (λ (i : ItemInstance). includes i.owner_id owned) s.items) in
    let coming = aggregated owned s.currencies in
    record {
      state = cascaded s character.id loot_holding;
      log_entries =
          cascade_log s.party.recovered_loot_stash_id doomed coming
          ++ LogSlice.delete_character character.id character.name
              (sum_of (λ (i : ItemInstance). i.quantity) doomed) (to_copper (full coming))
            ∷ [];
    }

delete_character-deleted :
    (ctx : Context) (s : State) (character : Character) (loot_holding : CurrencyHolding)
    → find_row character_id character.id s.characters ≡ some character
    → find_row holding_stash s.party.recovered_loot_stash_id s.currencies ≡ some loot_holding
    → delete_character ctx (some s) character.id ≡ ok (deleted ctx s character loot_holding)
unfolding delete_character cascade_character
delete_character-deleted ctx s character loot_holding e e_loot = rw (e, e_loot) refl

-- A character that is there can be deleted wherever Recovered Loot has a holding: where each stash
-- has at most one holding and none has a negative denomination, item ids are distinct and no row is
-- empty, stash ids are distinct and Recovered Loot is a stash of that scope, `delete-character`
-- succeeds, takes the character out without loss, and a second one is refused.
pub delete_character-total :
    (ctx : Context) (s : State) (character : Character) (loot_holding : CurrencyHolding)
    → ItemsAreSound s.items
    → IsSound s
    → HasLoot s
    → find_row character_id character.id s.characters ≡ some character
    → find_row holding_stash s.party.recovered_loot_stash_id s.currencies ≡ some loot_holding
    → (r : ReducerResult) × (delete_character ctx (some s) character.id ≡ ok r)
      × IsTakenOut s character.id r.state
      × (delete_character ctx (some r.state) character.id ≡ err unknown_character)
unfolding delete_character
delete_character-total ctx s character loot_holding items sound has_loot e e_loot =
    let r = deleted ctx s character loot_holding in
    let h = delete_character-deleted ctx s character loot_holding e e_loot in
    let out = delete_character-IsTakenOut ctx s character.id r items sound has_loot h in
    (r, h, out, rw out.no_character refl)
