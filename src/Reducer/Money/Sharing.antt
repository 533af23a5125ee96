-- ===== src/Reducer/Money/Sharing.antt =====
-- What `split-evenly` does to the holdings.
use dnd_inventory.Prelude.{
  ℕ, suc, ◌≡◌, ◌≢◌, refl, sym, ap, subst, ◌∙◌, arith, false, not, some, List, [], ◌∷◌, Absent,
  Unique, find_row, update_row, ltb, length, includes, pos, ◌+ℤ◌, ◌*ℤ◌, int_laws, parts_of_eq,
  sum_ℤ-update_row, find_row-key, find_row-update_row_ne, Unique-update_row, All-find_row,
}
use dnd_inventory.Result.{
  ok, returned, passed, found, done, no_recipients, not_a_party_stash, no_holding,
  unknown_character,
}
use dnd_inventory.Rules.Currency.{Currency, full, add, to_copper, split_evenly}
use dnd_inventory.Rules.Currency.Copper.{IsNonneg, to_copper-add}
use dnd_inventory.Rules.Currency.Splitting.{Split, split_evenly-total}
use dnd_inventory.State.{
  State, CurrencyHolding, stash_id, holding_stash, character_id, scope_is_party,
}
use dnd_inventory.Reducer.Shared.{ReducerResult}
use dnd_inventory.Reducer.Money.{with_coins, recipient_inventories, distribute, split_evenly_action}
use dnd_inventory.Reducer.Money.Conservation.{copper_of, total_copper, IsSound}

abbrev id_of : ℕ → ℕ
id_of k = k

abbrev gain : Currency → CurrencyHolding → CurrencyHolding
gain share c = with_coins (add (full c.coins) (full share)) c

-- The holdings as the pool and then each recipient are written one after the other.
give : ℕ → CurrencyHolding → List ℕ → Currency → List CurrencyHolding → List CurrencyHolding
give pool next_pool [] share cs = update_row holding_stash pool (λ _. next_pool) cs
give pool next_pool (k ∷ ks) share cs =
    update_row holding_stash k (gain share) (give pool next_pool ks share cs)

includes-Absent : (k : ℕ) (ks : List ℕ) → Absent id_of k ks → includes k ks ≡ false
includes-Absent k [] a = refl
includes-Absent k (j ∷ js) a = ground (arith, includes-Absent k js a.1)

-- Every recipient's Inventory has a holding.
abbrev pub AllHeld : List CurrencyHolding → List ℕ → Type 0
AllHeld cs [] = Unit
AllHeld cs (k ∷ ks) =
    ((h : CurrencyHolding) × (find_row holding_stash k cs ≡ some h)) × AllHeld cs ks

module _ (pool : ℕ) (next_pool : CurrencyHolding) (share : Currency)
    (key : next_pool.stash_id ≡ pool) where
  distribute-nil :
      (cs : List CurrencyHolding)
      → distribute pool next_pool [] share cs ≡ update_row holding_stash pool (λ _. next_pool) cs
  unfolding distribute
  distribute-nil [] = refl
  distribute-nil (c ∷ cs) = ground (arith, distribute-nil cs)

  distribute-cons :
      (k : ℕ) (ks : List ℕ) (cs : List CurrencyHolding)
      → k ≢ pool
      → includes k ks ≡ false
      → distribute pool next_pool (k ∷ ks) share cs
        ≡ update_row holding_stash k (gain share) (distribute pool next_pool ks share cs)
  unfolding distribute
  distribute-cons k ks [] n a = refl
  distribute-cons k ks (c ∷ cs) n a = ground (arith, key, distribute-cons k ks cs n a)

  distribute-give :
      (ks : List ℕ) (cs : List CurrencyHolding)
      → Unique id_of ks
      → Absent id_of pool ks
      → distribute pool next_pool ks share cs ≡ give pool next_pool ks share cs
  unfolding give
  distribute-give [] cs u a = distribute-nil cs
  distribute-give (k ∷ ks) cs u a =
      distribute-cons k ks cs a.0 (includes-Absent k ks u.0)
      ∙ ap (update_row holding_stash k (gain share)) (distribute-give ks cs u.1 a.1)

  give-Unique :
      (ks : List ℕ) (cs : List CurrencyHolding)
      → Unique holding_stash cs
      → Unique holding_stash (give pool next_pool ks share cs)
  unfolding give
  give-Unique [] cs u = Unique-update_row holding_stash pool (λ _. next_pool) cs (λ _ _. key) u
  give-Unique (k ∷ ks) cs u =
      Unique-update_row holding_stash k (gain share) (give pool next_pool ks share cs) (λ _ h. h)
        (give-Unique ks cs u)

  give-others :
      (j : ℕ) (ks : List ℕ) (cs : List CurrencyHolding)
      → j ≢ pool
      → Absent id_of j ks
      → find_row holding_stash j (give pool next_pool ks share cs) ≡ find_row holding_stash j cs
  unfolding give
  give-others j [] cs n a =
      find_row-update_row_ne holding_stash j pool (λ _. next_pool) cs n (λ _ _. key)
  give-others j (k ∷ ks) cs n a =
      find_row-update_row_ne holding_stash j k (gain share) (give pool next_pool ks share cs)
        (λ e. a.0 (sym e)) (λ _ h. h)
      ∙ give-others j ks cs n a.1

  give-total :
      (ks : List ℕ) (cs : List CurrencyHolding) (old_pool : CurrencyHolding)
      → Unique holding_stash cs
      → find_row holding_stash pool cs ≡ some old_pool
      → Unique id_of ks
      → Absent id_of pool ks
      → AllHeld cs ks
      → total_copper (give pool next_pool ks share cs) +ℤ copper_of old_pool
        ≡ total_copper cs +ℤ (copper_of next_pool +ℤ pos (length ks) *ℤ to_copper (full share))
  unfolding give
  give-total [] cs old u e d a held = omega (
    int_laws,
    parts_of_eq (sum_ℤ-update_row holding_stash copper_of pool (λ _. next_pool) cs u e),
  )
  give-total (k ∷ ks) cs old u e d a held =
      let rest = give pool next_pool ks share cs in
      let (h, e_h) = held.0 in
      let e_rest = give-others k ks cs a.0 d.0 ∙ e_h in
      omega (
        int_laws,
        parts_of_eq (
            sum_ℤ-update_row holding_stash copper_of k (gain share) rest (give-Unique ks cs u)
              e_rest),
        parts_of_eq (to_copper-add (full h.coins) (full share)),
        parts_of_eq (give-total ks cs old u e d.1 a.1 held.1),
      )

recipient_inventories-length :
    (s : State) (recipients inventories : List ℕ)
    → recipient_inventories s recipients ≡ ok inventories
    → length inventories ≡ length recipients
unfolding recipient_inventories
recipient_inventories-length s [] inventories e =
    done e λ same. subst (λ (l : List ℕ). length l ≡ 0) same refl
recipient_inventories-length s (c ∷ cs) inventories e =
    found (find_row character_id c s.characters) unknown_character _ e λ character _ e.
      returned (recipient_inventories s cs) _ e λ rest e_rest e. done e λ same.
        subst (λ (l : List ℕ). length l ≡ suc (length cs)) same
          (ap suc (recipient_inventories-length s cs rest e_rest))

-- The Inventories that a split shares among are distinct, not the pool, and have holdings.
pub record AreRecipients (s : State) (pool : ℕ) (inventories : List ℕ) : Type 0 where
  pub distinct : Unique id_of inventories
  pub not_pool : Absent id_of pool inventories
  pub held : AllHeld s.currencies inventories

module _ (s : State) (pool : ℕ) (old : CurrencyHolding) (inventories : List ℕ) (sound : IsSound s)
    (e : find_row holding_stash pool s.currencies ≡ some old)
    (are : AreRecipients s pool inventories) where
  shared-total :
      (share remainder : Currency) (n : ℕ)
      → Split old.coins n share remainder
      → length inventories ≡ n
      → total_copper (distribute pool (with_coins remainder old) inventories share s.currencies)
        ≡ total_copper s.currencies
  shared-total share remainder n split count =
      let key = find_row-key holding_stash pool s.currencies e in
      let next = with_coins remainder old in
      rw (distribute-give pool next share key inventories s.currencies are.distinct are.not_pool) (
        omega (
          int_laws,
          parts_of_eq (
              give-total pool next share key inventories s.currencies old sound.one_each e
                are.distinct are.not_pool are.held),
          parts_of_eq (
              subst
                (λ k.
                  pos k *ℤ to_copper (full share) +ℤ to_copper (full remainder)
                  ≡ to_copper (full old.coins))
                (sym count) split.conserved),
        ))

-- Where each stash has at most one holding and none has a negative denomination, a `split-evenly`
-- that succeeds, among recipients whose Inventories are distinct, are not the pool and have
-- holdings, destroys no coins and makes none: the value of all holdings is as before.
pub split_evenly_action-total :
    (s : State) (pool : ℕ) (recipients inventories : List ℕ) (r : ReducerResult)
    → IsSound s
    → recipient_inventories s recipients ≡ ok inventories
    → AreRecipients s pool inventories
    → split_evenly_action (some s) pool recipients ≡ ok r
    → total_copper r.state.currencies ≡ total_copper s.currencies
unfolding split_evenly_action
split_evenly_action-total s pool recipients inventories r sound e_inv are h =
    passed (ltb (length recipients) 1) no_recipients _ h λ many h.
      found (find_row stash_id pool s.stashes) not_a_party_stash _ h λ stash _ h.
        passed (not (scope_is_party stash.scope)) not_a_party_stash _ h λ _ h.
          found (find_row holding_stash pool s.currencies) no_holding _ h λ old e h.
            returned (recipient_inventories s recipients) _ h λ found_inv e_found h.
              returned (split_evenly old.coins (pos (length recipients))) _ h λ pair e_split h.
                done h λ same.
                  let inv_eq : found_inv ≡ inventories = cc in
                  let nonneg =
                    All-find_row holding_stash (λ h. IsNonneg h.coins) pool s.currencies
                      sound.nonneg e in
                  let (share, remainder, e_total, split) =
                    split_evenly-total old.coins (length recipients) (ground arith) nonneg in
                  let pair_eq : ◌≡◌ {A = Currency × Currency} (share, remainder) pair = cc in
                  let key = find_row-key holding_stash pool s.currencies e in
                  let total =
                    shared-total s pool old inventories sound e are share remainder
                      (length recipients) split
                      (recipient_inventories-length s recipients inventories e_inv) in
                  subst
                    (λ (x : ReducerResult).
                      total_copper x.state.currencies ≡ total_copper s.currencies)
                    same
                    (subst
                      (λ (q : Currency × Currency).
                        total_copper
                          (distribute pool (with_coins q.1 old) found_inv q.0 s.currencies)
                        ≡ total_copper s.currencies)
                      pair_eq
                      (subst
                        (λ (inv : List ℕ).
                          total_copper
                            (distribute pool (with_coins remainder old) inv share s.currencies)
                          ≡ total_copper s.currencies)
                        (sym inv_eq) total))
