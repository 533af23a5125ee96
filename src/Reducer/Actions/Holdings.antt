-- ===== src/Reducer/Actions/Holdings.antt =====
-- That the actions on coins and stashes keep a state sound.
use dnd_inventory.Prelude.{
  ℕ, ◌≡◌, ◌≢◌, ◌≤ℤ◌, find_row-append, refl, sym, ◌∙◌, subst, arith, not, inl, inr, some, List, [],
  ◌∷◌, ◌++◌, Absent, Unique, All-append, Unique-snoc, find_row, update_row, ltb, length, includes,
  pos, ◌==◌, Bool-cases, find_row-key, All-find_row, Unique-update_row, find_row-update_row_ne,
  find_row_self,
}
use dnd_inventory.Prelude.Text.{Text, trim, text_eq}
use dnd_inventory.Result.{
  ok, found, passed, returned, done, no_recipients, not_a_party_stash, no_holding, bad_uuid,
  empty_name, unknown_character, unknown_stash, no_change,
}
use dnd_inventory.Rules.Currency.{Currency, split_evenly, zero_currency}
use dnd_inventory.Rules.Currency.Copper.{IsNonneg, add-IsNonneg}
use dnd_inventory.Rules.Currency.Splitting.{split_evenly-total}
use dnd_inventory.State.{
  State, Context, Stash, CurrencyHolding, stash_id, holding_stash, character_id, scope_is_party,
}
use dnd_inventory.State.Log.{ChangeReason}
use dnd_inventory.Reducer.Shared.{ReducerResult}
use dnd_inventory.Reducer.Money.{
  with_coins, recipient_inventories, distribute, currency_change, currency_transfer,
  split_evenly_action,
}
use dnd_inventory.Reducer.Money.Conservation.{AllNonneg}
use dnd_inventory.Reducer.Money.Effects.{currency_change-IsChange, currency_transfer-IsTransfer}
use dnd_inventory.Reducer.Stashes.{
  is_empty_text, empty_holding, storage_stash, check_storage, create_stash, rename_stash,
}
use dnd_inventory.Reducer.Stashes.Deletion.{check_storage-ok}
use dnd_inventory.Reducer.Actions.Invariant.{
  StateIsSound, StashesAreSound, CoinsAreSound, with_currencies, with_stashes, coins_of,
}

only_currencies :
    (s s' : State)
    → StateIsSound s
    → CoinsAreSound s'.currencies
    → s' ≡ record s { currencies = s'.currencies }
    → StateIsSound s'
only_currencies s s' w new e = subst StateIsSound (sym e) (with_currencies s s'.currencies w new)

-- Sharing the pool out rewrites rows in place.
module _ (pool : ℕ) (next_pool : CurrencyHolding) (inventories : List ℕ) (share : Currency)
    (key : next_pool.stash_id ≡ pool) where
  distribute-Absent :
      (j : ℕ) (cs : List CurrencyHolding)
      → Absent holding_stash j cs
      → Absent holding_stash j (distribute pool next_pool inventories share cs)
  unfolding distribute
  distribute-Absent j [] a = tt
  distribute-Absent j (c ∷ cs) a = ground (arith, key, distribute-Absent j cs a.1)

  distribute-Unique :
      (cs : List CurrencyHolding)
      → Unique holding_stash cs
      → Unique holding_stash (distribute pool next_pool inventories share cs)
  unfolding distribute
  distribute-Unique [] u = tt
  distribute-Unique (c ∷ cs) u =
      ground (arith, key, distribute-Absent c.stash_id cs u.0, distribute-Unique cs u.1)

  distribute-AllNonneg :
      (cs : List CurrencyHolding)
      → IsNonneg next_pool.coins
      → IsNonneg share
      → AllNonneg cs
      → AllNonneg (distribute pool next_pool inventories share cs)
  unfolding distribute
  distribute-AllNonneg [] p q a = tt
  distribute-AllNonneg (c ∷ cs) p q a =
      let rest = distribute-AllNonneg cs p q a.1 in
      elim (Bool-cases (c.stash_id == pool)) [
        | inl same ↦ rw (distribute, same) (p, rest)
        | inr other ↦ elim (Bool-cases (includes c.stash_id inventories)) [
          | inl gets ↦ rw (distribute, other, gets) (add-IsNonneg c.coins share a.0 q, rest)
          | inr not_one ↦ rw (distribute, other, not_one) (a.0, rest)
        ]
      ]

rest-IsNonneg : (c : Currency) → c ≡ record zero_currency { cp = c.cp } → pos 0 ≤ℤ c.cp → IsNonneg c
rest-IsNonneg c only h =
    subst IsNonneg (sym only)
      (record { cp = h; sp = omega arith; ep = omega arith; gp = omega arith; pp = omega arith })

-- A new row on either list.
snoc-StashesAreSound :
    (loot : ℕ) (stashes : List Stash) (stash : Stash)
    → Absent stash_id stash.id stashes
    → StashesAreSound loot stashes
    → StashesAreSound loot (stashes ++ stash ∷ [])
snoc-StashesAreSound loot stashes stash fresh sound = record {
  ids = Unique-snoc stash_id stashes stash fresh sound.ids;
  stash = sound.stash;
  there = find_row-append stash_id loot stashes (stash ∷ []) sound.there;
  scoped = sound.scoped;
}

empty_holding-CoinsAreSound :
    (id stash : ℕ) (cs : List CurrencyHolding)
    → Absent holding_stash stash cs
    → CoinsAreSound cs
    → CoinsAreSound (cs ++ empty_holding id stash ∷ [])
empty_holding-CoinsAreSound id stash cs fresh sound = record {
  one_each = Unique-snoc holding_stash cs (empty_holding id stash) fresh sound.one_each;
  nonneg =
      All-append (λ (h : CurrencyHolding). IsNonneg h.coins) cs (empty_holding id stash ∷ [])
        sound.nonneg (omega arith, tt);
}

-- A stash and its empty holding, both of an id that is new.
pub with_stash :
    (s : State) (stash : Stash) (holding : ℕ)
    → StateIsSound s
    → Absent stash_id stash.id s.stashes
    → Absent holding_stash stash.id s.currencies
    → StateIsSound (record s {
      stashes = s.stashes ++ stash ∷ [];
      currencies = s.currencies ++ empty_holding holding stash.id ∷ [];
    })
with_stash s stash holding w fresh_stash fresh_holding =
    let stashes = s.stashes ++ stash ∷ [] in
    let with_it : State = record s { stashes = stashes } in
    with_currencies with_it (s.currencies ++ empty_holding holding stash.id ∷ [])
      (with_stashes s stashes w (
        snoc-StashesAreSound s.party.recovered_loot_stash_id s.stashes stash fresh_stash w.stashes))
      (empty_holding-CoinsAreSound holding stash.id s.currencies fresh_holding w.coins)

module _ (ctx : Context) (s : State) (r : ReducerResult) (w : StateIsSound s) where
  pub currency_change-StateIsSound :
      (stash : ℕ) (delta : Currency) (reason : ChangeReason)
      → currency_change (some s) stash delta reason ≡ ok r
      → StateIsSound r.state
  currency_change-StateIsSound stash delta reason h =
      let out = currency_change-IsChange s stash delta reason r (coins_of s w) h in
      only_currencies s r.state w
        (record { one_each = out.sound.one_each; nonneg = out.sound.nonneg }) out.rest

  pub currency_transfer-StateIsSound :
      (from_stash to_stash : ℕ) (delta : Currency)
      → currency_transfer (some s) from_stash to_stash delta ≡ ok r
      → StateIsSound r.state
  currency_transfer-StateIsSound from_stash to_stash delta h =
      let out = currency_transfer-IsTransfer s from_stash to_stash delta r (coins_of s w) h in
      only_currencies s r.state w
        (record { one_each = out.sound.one_each; nonneg = out.sound.nonneg }) out.rest

  pub split_evenly_action-StateIsSound :
      (pool : ℕ) (recipients : List ℕ)
      → split_evenly_action (some s) pool recipients ≡ ok r
      → StateIsSound r.state
  unfolding split_evenly_action
  split_evenly_action-StateIsSound pool recipients h =
      passed (ltb (length recipients) 1) no_recipients _ h λ many h.
        found (find_row stash_id pool s.stashes) not_a_party_stash _ h λ stash _ h.
          passed (not (scope_is_party stash.scope)) not_a_party_stash _ h λ _ h.
            found (find_row holding_stash pool s.currencies) no_holding _ h λ old e h.
              returned (recipient_inventories s recipients) _ h λ inventories _ h.
                returned (split_evenly old.coins (pos (length recipients))) _ h λ pair e_split h.
                  done h λ same.
                    let nonneg =
                      All-find_row holding_stash (λ (c : CurrencyHolding). IsNonneg c.coins) pool
                        s.currencies w.coins.nonneg e in
                    let (share, remainder, e_total, shared) =
                      split_evenly-total old.coins (length recipients) (ground arith) nonneg in
                    let pair_eq : ◌≡◌ {A = Currency × Currency} (share, remainder) pair = cc in
                    let key = find_row-key holding_stash pool s.currencies e in
                    subst (λ (x : ReducerResult). StateIsSound x.state) same
                      (subst
                        (λ (q : Currency × Currency). StateIsSound (record s {
                          currencies =
                              distribute pool (with_coins q.1 old) inventories q.0 s.currencies;
                        }))
                        pair_eq
                        (with_currencies s
                          (distribute pool (with_coins remainder old) inventories share
                            s.currencies)
                          w
                          (record {
                            one_each =
                                distribute-Unique pool (with_coins remainder old) inventories share
                                  key s.currencies w.coins.one_each;
                            nonneg =
                                distribute-AllNonneg pool (with_coins remainder old) inventories
                                  share key s.currencies
                                  (rest-IsNonneg remainder shared.only_copper shared.rest_nonneg)
                                  shared.share_nonneg w.coins.nonneg;
                          })))

  pub create_stash-StateIsSound :
      (given_name : Text) (owner new_stash new_holding : ℕ)
      → Absent stash_id new_stash s.stashes
      → Absent holding_stash new_stash s.currencies
      → create_stash ctx (some s) given_name owner new_stash new_holding ≡ ok r
      → StateIsSound r.state
  unfolding create_stash
  create_stash-StateIsSound given_name owner new_stash new_holding fresh_stash fresh_holding h =
      passed (not (ctx.is_valid_uuid_v7 new_stash)) bad_uuid _ h λ _ h.
        passed (not (ctx.is_valid_uuid_v7 new_holding)) bad_uuid _ h λ _ h.
          passed (is_empty_text (trim given_name)) empty_name _ h λ _ h.
            found (find_row character_id owner s.characters) unknown_character _ h λ character _ h.
              done h λ same.
                subst (λ (x : ReducerResult). StateIsSound x.state) same
                  (with_stash s (storage_stash new_stash (trim given_name) character.id ctx.now)
                    new_holding w fresh_stash fresh_holding)

  pub rename_stash-StateIsSound :
      (id : ℕ) (given_name : Text)
      → rename_stash (some s) id given_name ≡ ok r
      → StateIsSound r.state
  unfolding rename_stash
  rename_stash-StateIsSound id given_name h =
      found (find_row stash_id id s.stashes) unknown_stash _ h λ stash e h.
        returned (check_storage stash) _ h λ _ checked h.
          passed (is_empty_text (trim given_name)) empty_name _ h λ _ h.
            passed (text_eq (trim given_name) stash.name) no_change _ h λ _ h. done h λ same.
              let renamed : Stash = record stash { name = trim given_name } in
              let loot = s.party.recovered_loot_stash_id in
              let apart : loot ≢ stash.id = λ clash.
                let here = find_row_self stash_id id s.stashes e in
                let two =
                  subst (λ k. find_row stash_id k s.stashes ≡ some w.stashes.stash) clash
                    w.stashes.there in
                let st : w.stashes.stash ≡ stash = cc in
                let scoped = check_storage-ok stash checked in
                let loot_scoped = w.stashes.scoped in cc in
              subst (λ (x : ReducerResult). StateIsSound x.state) same
                (with_stashes s (update_row stash_id stash.id (λ _. renamed) s.stashes) w (record {
                  ids =
                      Unique-update_row stash_id stash.id (λ _. renamed) s.stashes (λ _ _. refl)
                        w.stashes.ids;
                  stash = w.stashes.stash;
                  there =
                      find_row-update_row_ne stash_id loot stash.id (λ _. renamed) s.stashes apart
                        (λ _ _. refl)
                      ∙ w.stashes.there;
                  scoped = w.stashes.scoped;
                }))
