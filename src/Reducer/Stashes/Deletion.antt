-- ===== src/Reducer/Stashes/Deletion.antt =====
-- What `delete-stash` does to the coins and the items.
use dnd_inventory.Reducer.Money.Coins.{GainsCoins, get-add}
use dnd_inventory.Prelude.{
  ap, ℤ, find_row-map, find_row-update_row_self, find_row-update_row_ne, ℕ, ◌≡◌, ◌≢◌, refl, sym,
  subst, ◌∙◌, arith, true, false, inl, inr, some, none, List, [], ◌∷◌, map, All, Unique, find_row,
  update_row, remove_row, ◌==◌, not, Bool-cases, if◌then◌else◌, pos, pos_part, neg_part, ◌+ℤ◌,
  int_laws, parts_of_eq, sum_ℤ-update_row, sum_ℤ-remove_row, find_row-key, find_row-Absent,
  find_row-remove_row_ne, Absent-remove_row_self, Absent-update_row, Unique-update_row,
  Unique-remove_row, All-update_row, All-remove_row, All-find_row,
}
use dnd_inventory.Result.{
  ok, returned, passed, found, done, unknown_stash, no_holding, protected_stash,
}
use dnd_inventory.Rules.Currency.{Denom, get, Currency, full, add, to_copper}
use dnd_inventory.Rules.Currency.Copper.{IsNonneg, add-IsNonneg, to_copper-add}
use dnd_inventory.State.{
  State, Stash, CurrencyHolding, ItemInstance, Context, item_id, stash_id, holding_stash,
  scope_is_recovered_loot, scope_is_party,
}
use dnd_inventory.Reducer.Shared.{ReducerResult, is_inventory}
use dnd_inventory.Reducer.Counts.{ItemsAreSound, IsMoved, map-IsMoved, Keeps}
use dnd_inventory.Reducer.Money.{all_zero, with_coins}
use dnd_inventory.Reducer.Money.Conservation.{copper_of, total_copper, IsSound}
use dnd_inventory.Reducer.Stashes.{check_storage, rolled_up, reown, delete_stash}

-- What deleting the stash `id` makes of the state.
pub record IsDeleted (s : State) (id : ℕ) (s' : State) : Type 0 where
  pub copper : total_copper s'.currencies ≡ total_copper s.currencies
  pub items : IsMoved s.items s'.items
  pub holdings : IsSound s'
  pub no_stash : find_row stash_id id s'.stashes ≡ none
  pub no_holding : find_row holding_stash id s'.currencies ≡ none
  pub emptied : All (λ (i : ItemInstance). i.owner_id ≢ id) s'.items
  pub moved :
      (k : ℕ) (i : ItemInstance)
      → find_row item_id k s.items ≡ some i
      → i.owner_id ≡ id
      → find_row item_id k s'.items ≡ some (record i { owner_id = s.party.recovered_loot_stash_id })
  pub stayed :
      (k : ℕ) (i : ItemInstance)
      → find_row item_id k s.items ≡ some i
      → i.owner_id ≢ id
      → find_row item_id k s'.items ≡ some i
  pub coins :
      (coming : CurrencyHolding) × (find_row holding_stash id s.currencies ≡ some coming)
      × GainsCoins s.party.recovered_loot_stash_id
          (λ d. get d coming.coins)
          s.currencies
          s'.currencies
  pub other_holdings :
      (j : ℕ)
      → j ≢ id
      → j ≢ s.party.recovered_loot_stash_id
      → find_row holding_stash j s'.currencies ≡ find_row holding_stash j s.currencies

all_zero-copper : (c : Currency) → all_zero c ≡ true → to_copper (full c) ≡ pos 0
unfolding to_copper
all_zero-copper c h =
    let zeros : (pos_part c.cp ≡ neg_part c.cp)
        × (pos_part c.sp ≡ neg_part c.sp)
        × (pos_part c.ep ≡ neg_part c.ep)
        × (pos_part c.gp ≡ neg_part c.gp)
        × (pos_part c.pp ≡ neg_part c.pp) =
      ground arith in
    omega (int_laws, zeros.0, zeros.1, zeros.2, zeros.3, zeros.4)

pub rolled_up-copper :
    (coming holding : CurrencyHolding)
    → copper_of (rolled_up coming holding) ≡ copper_of holding +ℤ copper_of coming
rolled_up-copper coming holding = elim (Bool-cases (all_zero coming.coins)) [
  | inl zero ↦ rw (zero, all_zero-copper coming.coins zero) (omega int_laws)
  | inr some_coins ↦ rw some_coins (to_copper-add (full holding.coins) (full coming.coins))
]

zero-get : (c : Currency) (d : Denom) → all_zero c ≡ true → get d c ≡ pos 0
zero-get c Denom.cp h = ground arith
zero-get c Denom.sp h = ground arith
zero-get c Denom.ep h = ground arith
zero-get c Denom.gp h = ground arith
zero-get c Denom.pp h = ground arith

add_zero : (a b : ℤ) → b ≡ pos 0 → a ≡ a +ℤ b
add_zero a b h = omega (int_laws, parts_of_eq h)

-- Recovered Loot gains the coins of each denomination, and keeps its id.
pub rolled_up-get :
    (coming holding : CurrencyHolding) (d : Denom)
    → get d (rolled_up coming holding).coins ≡ get d holding.coins +ℤ get d coming.coins
rolled_up-get coming holding d = elim (Bool-cases (all_zero coming.coins)) [
  | inl zero ↦
      rw zero (add_zero (get d holding.coins) (get d coming.coins) (zero-get coming.coins d zero))
  | inr some_coins ↦ rw some_coins (get-add d holding.coins coming.coins)
]

pub rolled_up-id : (coming holding : CurrencyHolding) → (rolled_up coming holding).id ≡ holding.id
rolled_up-id coming holding = elim (Bool-cases (all_zero coming.coins)) [
  | inl zero ↦ rw zero refl
  | inr some_coins ↦ rw some_coins refl
]

pub rolled_up-stash :
    (coming holding : CurrencyHolding) → (rolled_up coming holding).stash_id ≡ holding.stash_id
rolled_up-stash coming holding =
    elim (all_zero coming.coins)
      as (λ b.
        holding_stash (
          if not b
          then with_coins (add (full holding.coins) (full coming.coins)) holding
          else holding)
        ≡ holding.stash_id) [ true ↦ refl | false ↦ refl ]

pub rolled_up-IsNonneg :
    (coming holding : CurrencyHolding)
    → IsNonneg coming.coins
    → IsNonneg holding.coins
    → IsNonneg (rolled_up coming holding).coins
rolled_up-IsNonneg coming holding p q = elim (Bool-cases (all_zero coming.coins)) [
  | inl zero ↦ rw zero q
  | inr some_coins ↦ rw some_coins (add-IsNonneg holding.coins coming.coins q p)
]

reown-Keeps : (from_stash to_stash : ℕ) → Keeps (reown from_stash to_stash)
reown-Keeps from_stash to_stash i =
    elim (i.owner_id == from_stash)
      as (λ b.
        let g : ItemInstance = if b then record i { owner_id = to_stash } else i in
        (g.id ≡ i.id) × (g.definition_id ≡ i.definition_id) × (g.quantity ≡ i.quantity)) [
          | true ↦ (refl, refl, refl)
          | false ↦ (refl, refl, refl)
        ]

reown-moved :
    (from_stash to_stash : ℕ) (i : ItemInstance)
    → i.owner_id ≡ from_stash
    → reown from_stash to_stash i ≡ record i { owner_id = to_stash }
reown-moved from_stash to_stash i h = ground (arith, h)

reown-stayed :
    (from_stash to_stash : ℕ) (i : ItemInstance)
    → i.owner_id ≢ from_stash
    → reown from_stash to_stash i ≡ i
reown-stayed from_stash to_stash i h = ground (arith, h)

reown-emptied :
    (from_stash to_stash : ℕ) (items : List ItemInstance)
    → to_stash ≢ from_stash
    → All (λ (i : ItemInstance). i.owner_id ≢ from_stash) (map (reown from_stash to_stash) items)
reown-emptied from_stash to_stash [] n = tt
reown-emptied from_stash to_stash (i ∷ items) n =
    let rest = reown-emptied from_stash to_stash items n in
    elim (Bool-cases (i.owner_id == from_stash)) [
      | inl h ↦ rw h (n, rest)
      | inr h ↦ rw h ((λ e. absurd (ground arith)), rest)
    ]

module _ (s : State) (id : ℕ) (loot_holding coming : CurrencyHolding)
    (items : ItemsAreSound s.items) (sound : IsSound s)
    (apart : s.party.recovered_loot_stash_id ≢ id)
    (e_coming : find_row holding_stash id s.currencies ≡ some coming)
    (e_loot : find_row holding_stash s.party.recovered_loot_stash_id s.currencies
      ≡ some loot_holding) where
  abbrev loot : ℕ
  loot = s.party.recovered_loot_stash_id

  abbrev left : List CurrencyHolding
  left = remove_row holding_stash id s.currencies

  abbrev rolled : CurrencyHolding
  rolled = rolled_up coming loot_holding

  abbrev deleted : State
  deleted = record s {
    stashes = remove_row stash_id id s.stashes;
    currencies = update_row holding_stash loot (λ _. rolled) left;
    items = map (reown id loot) s.items;
  }

  rolled_key : rolled.stash_id ≡ loot
  rolled_key =
      rolled_up-stash coming loot_holding ∙ find_row-key holding_stash loot s.currencies e_loot

  e_left : find_row holding_stash loot left ≡ some loot_holding
  e_left = find_row-remove_row_ne holding_stash loot id s.currencies apart ∙ e_loot

  left-Unique : Unique holding_stash left
  left-Unique = Unique-remove_row holding_stash id s.currencies sound.one_each

  coins-IsNonneg :
      (k : ℕ) {h : CurrencyHolding}
      → find_row holding_stash k s.currencies ≡ some h
      → IsNonneg h.coins
  coins-IsNonneg k e =
      All-find_row holding_stash (λ h. IsNonneg h.coins) k s.currencies sound.nonneg e

  deleted-copper : total_copper deleted.currencies ≡ total_copper s.currencies
  deleted-copper = omega (
    int_laws,
    parts_of_eq
        (sum_ℤ-update_row holding_stash copper_of loot (λ _. rolled) left left-Unique e_left),
    parts_of_eq (sum_ℤ-remove_row holding_stash copper_of id s.currencies sound.one_each e_coming),
    parts_of_eq (rolled_up-copper coming loot_holding),
  )

  reown-find :
      (k : ℕ) (i : ItemInstance)
      → find_row item_id k s.items ≡ some i
      → find_row item_id k (map (reown id loot) s.items) ≡ some (reown id loot i)
  reown-find k i e =
      find_row-map item_id k (reown id loot) s.items (λ j. (reown-Keeps id loot j).0) e

  pub deleted-IsDeleted : IsDeleted s id deleted
  deleted-IsDeleted = record {
    copper = deleted-copper;
    items = map-IsMoved (reown id loot) s.items (reown-Keeps id loot) items;
    holdings = record {
      one_each =
          Unique-update_row holding_stash loot (λ _. rolled) left (λ _ _. rolled_key) left-Unique;
      nonneg =
          All-update_row holding_stash (λ h. IsNonneg h.coins) loot (λ _. rolled) left
            (λ _ _.
              rolled_up-IsNonneg coming loot_holding (coins-IsNonneg id e_coming)
                (coins-IsNonneg loot e_loot))
            (All-remove_row holding_stash (λ h. IsNonneg h.coins) id s.currencies sound.nonneg);
    };
    no_stash =
        find_row-Absent stash_id id (remove_row stash_id id s.stashes)
          (Absent-remove_row_self stash_id id s.stashes);
    no_holding =
        find_row-Absent holding_stash id (update_row holding_stash loot (λ _. rolled) left) (
          Absent-update_row holding_stash id loot (λ _. rolled) left (λ _ _. rolled_key)
            (Absent-remove_row_self holding_stash id s.currencies));
    emptied = reown-emptied id loot s.items apart;
    moved = λ k i e h. reown-find k i e ∙ ap some (reown-moved id loot i h);
    stayed = λ k i e h. reown-find k i e ∙ ap some (reown-stayed id loot i h);
    coins = (
      coming,
      e_coming,
      record {
        old = loot_holding;
        new = rolled;
        was = e_loot;
        now = find_row-update_row_self holding_stash loot (λ _. rolled) left e_left rolled_key;
        same = rolled_up-id coming loot_holding;
        coins = rolled_up-get coming loot_holding;
      },
    );
    other_holdings = λ j n m.
        find_row-update_row_ne holding_stash j loot (λ _. rolled) left m (λ _ _. rolled_key)
        ∙ find_row-remove_row_ne holding_stash j id s.currencies n;
  }

-- A stash that the guards let through is not Recovered Loot.
pub check_storage-ok :
    (stash : Stash) {u : Unit {0}}
    → check_storage stash ≡ ok u
    → scope_is_recovered_loot stash.scope ≡ false
check_storage-ok stash h =
    passed (is_inventory stash) protected_stash _ h
      λ _ h. passed (scope_is_party stash.scope) protected_stash _ h λ _ h. ground arith

-- Where each stash has at most one holding and none has a negative denomination, item ids are
-- distinct and no row is empty, a `delete-stash` that succeeds, in a state whose Recovered Loot is
-- a stash of that scope, destroys nothing: each of its rows is in Recovered Loot, but for that as
-- it was, and every other row is as it was; Recovered Loot has its coins of each denomination on
-- top of its own, and no other holding changes. The value of all holdings and every definition's
-- quantity are as before, no row and no holding is left with the stash, which is gone, there is
-- still one holding for each stash, none negative, and the items' ids stay distinct.
pub delete_stash-IsDeleted :
    (ctx : Context) (s : State) (id : ℕ) (loot_stash : Stash) (r : ReducerResult)
    → ItemsAreSound s.items
    → IsSound s
    → find_row stash_id s.party.recovered_loot_stash_id s.stashes ≡ some loot_stash
    → scope_is_recovered_loot loot_stash.scope ≡ true
    → delete_stash ctx (some s) id ≡ ok r
    → IsDeleted s id r.state
unfolding delete_stash
delete_stash-IsDeleted ctx s id loot_stash r items sound e_stash is_loot h =
    found (find_row stash_id id s.stashes) unknown_stash _ h λ stash e h.
      returned (check_storage stash) _ h λ _ checked h.
        found (find_row holding_stash stash.id s.currencies) no_holding _ h λ coming e_coming h.
          found (find_row holding_stash s.party.recovered_loot_stash_id s.currencies) no_holding _ h
            λ loot_holding e_loot h. done h λ same.
              let key = find_row-key stash_id id s.stashes e in
              let apart : s.party.recovered_loot_stash_id ≢ id = λ clash.
                let two =
                  subst (λ k. find_row stash_id k s.stashes ≡ some loot_stash) clash e_stash in
                let st : loot_stash ≡ stash = cc in
                let scoped = check_storage-ok stash checked in cc in
              let here =
                subst (λ k. find_row holding_stash k s.currencies ≡ some coming) key e_coming in
              subst (λ (x : ReducerResult). IsDeleted s id x.state) same
                (subst
                  (λ k. IsDeleted s id (record s {
                    stashes = remove_row stash_id k s.stashes;
                    currencies =
                        update_row holding_stash s.party.recovered_loot_stash_id
                          (λ _. rolled_up coming loot_holding)
                          (remove_row holding_stash k s.currencies);
                    items = map (reown k s.party.recovered_loot_stash_id) s.items;
                  }))
                  (sym key)
                  (deleted-IsDeleted s id loot_holding coming items sound apart here e_loot))
