-- ===== src/Reducer/Members/Handover.antt =====
-- What `dm-transfer` makes of the memberships and the party.
use dnd_inventory.Prelude.{
  ℕ, ◌≡◌, ◌≢◌, refl, ap, subst, ◌∙◌, arith, Bool, true, false, not, filter, ◌||◌, inl, inr, Option,
  none, some, List, [], ◌∷◌, ◌++◌, map, any, opt_eq, ◌==◌, if◌then◌else◌, Bool-cases, any-append,
  any-map, any-map-true, any-false,
}
use dnd_inventory.Prelude.Text.{Text}
use dnd_inventory.Result.{ok, passed, done, dm_required, self_transfer, target_not_player}
use dnd_inventory.State.{State, Membership, Role, Context}
use dnd_inventory.Reducer.Shared.{ReducerResult}
use dnd_inventory.Reducer.Members.{
  is_active_dm, is_active_player, has_active_dm, has_active_player, is_past_dm, swap_row, swapped,
  dm_transfer, fresh_member,
}

-- The rows of everybody but the two, in order.
abbrev pub rows_but : ℕ → ℕ → List Membership → List Membership
rows_but actor new_dm = filter (λ (m : Membership). not (m.user_id == actor || m.user_id == new_dm))

-- What handing over the role of DM makes of the state.
pub record IsHandover (s : State) (new_dm : ℕ) (s' : State) : Type 0 where
  pub incoming : has_active_dm new_dm s.party.id s'.memberships ≡ true
  pub outgoing : has_active_dm s.user_id s.party.id s'.memberships ≡ false
  pub stays : has_active_player s.user_id s.party.id s'.memberships ≡ true
  pub players :
      (user : ℕ)
      → has_active_player user s.party.id s.memberships ≡ true
      → has_active_player user s.party.id s'.memberships ≡ true
  pub other_players :
      (user : ℕ)
      → user ≢ s.user_id
      → has_active_player user s.party.id s'.memberships
        ≡ has_active_player user s.party.id s.memberships
  pub others :
      (user : ℕ)
      → user ≢ s.user_id
      → user ≢ new_dm
      → has_active_dm user s.party.id s'.memberships ≡ has_active_dm user s.party.id s.memberships
  pub other_rows :
      rows_but s.user_id new_dm s'.memberships ≡ rows_but s.user_id new_dm s.memberships
  pub owner : s'.party.owner_user_id ≡ new_dm
  pub banker : s'.party.banker_user_id ≢ some new_dm
  pub banker_before :
      (user : ℕ) → s'.party.banker_user_id ≡ some user → s.party.banker_user_id ≡ some user
  pub banker_kept :
      s.party.banker_user_id ≢ some new_dm → s'.party.banker_user_id ≡ s.party.banker_user_id
  pub same_party : s'.party.id ≡ s.party.id

module _ (now : Text) (actor new_dm party : ℕ) where
  rows_but-swap_row :
      (members : List Membership)
      → rows_but actor new_dm (map (swap_row now actor new_dm party) members)
        ≡ rows_but actor new_dm members
  rows_but-swap_row [] = refl
  rows_but-swap_row (m ∷ members) = ground (arith, rows_but-swap_row members)

  -- Rows that follow do not count where they are of the two.
  rows_but-append :
      (members added : List Membership)
      → rows_but actor new_dm added ≡ []
      → rows_but actor new_dm (members ++ added) ≡ rows_but actor new_dm members
  rows_but-append [] added e = e
  rows_but-append (m ∷ members) added e = ground (arith, rows_but-append members added e)

  swapped-rows_but :
      (members : List Membership)
      → rows_but actor new_dm (swapped now actor new_dm party members)
        ≡ rows_but actor new_dm members
  swapped-rows_but members =
      rows_but-append _ _ (ground arith)
      ∙ rows_but-append _ _ (ground arith)
      ∙ rows_but-swap_row members

module _ (now : Text) (actor new_dm party : ℕ) (members : List Membership)
    (apart : new_dm ≢ actor) where
  abbrev g : Membership → Membership
  g = swap_row now actor new_dm party

  g-past :
      (m : Membership) → is_past_dm new_dm party m ≡ true → is_active_dm new_dm party (g m) ≡ true
  g-past m h = ground arith

  g-outgoing : (m : Membership) → is_active_dm actor party (g m) ≡ false
  g-outgoing m = ground arith

  g-player :
      (user : ℕ) (m : Membership)
      → is_active_player user party m ≡ true
      → is_active_player user party (g m) ≡ true
  g-player user m h = ground arith

  g-other :
      (user : ℕ) (m : Membership)
      → user ≢ actor
      → user ≢ new_dm
      → is_active_dm user party (g m) ≡ is_active_dm user party m
  g-other user m n k = ground arith

  g-other_player :
      (user : ℕ) (m : Membership)
      → user ≢ actor
      → is_active_player user party (g m) ≡ is_active_player user party m
  g-other_player user m n = ground arith

  abbrev minted_dm : List Membership
  minted_dm =
      if any (is_past_dm new_dm party) members
      then []
      else fresh_member now new_dm party Role.dm ∷ []

  abbrev minted_player : List Membership
  minted_player =
      if has_active_player actor party members
      then []
      else fresh_member now actor party Role.player ∷ []

  any-swapped :
      (p : Membership → Bool)
      → any p (swapped now actor new_dm party members)
        ≡ ((any p (map g members) || any p minted_dm) || any p minted_player)
  any-swapped p =
      any-append p (map g members ++ minted_dm) minted_player
      ∙ ap (λ b. b || any p minted_player) (any-append p (map g members) minted_dm)

  swapped-incoming : has_active_dm new_dm party (swapped now actor new_dm party members) ≡ true
  swapped-incoming = elim (Bool-cases (any (is_past_dm new_dm party) members)) [
    | inl past ↦
        let kept : any (is_active_dm new_dm party) (map g members) ≡ true =
          any-map-true (is_active_dm new_dm party) (is_past_dm new_dm party) g members g-past
            past in
        rw (any-swapped (is_active_dm new_dm party), kept) refl
    | inr fresh ↦ ground (arith, any-swapped (is_active_dm new_dm party))
  ]

  minted-outgoing :
      (any (is_active_dm actor party) minted_dm || any (is_active_dm actor party) minted_player)
      ≡ false
  minted-outgoing = ground arith

  swapped-outgoing : has_active_dm actor party (swapped now actor new_dm party members) ≡ false
  swapped-outgoing = rw (any-swapped (is_active_dm actor party), any-map-false) minted-outgoing
    where
      any-map-false : any (is_active_dm actor party) (map g members) ≡ false
      any-map-false =
          any-map (is_active_dm actor party) (λ _. false) g members g-outgoing
          ∙ any-false (λ _. false) members (λ _. refl)

  swapped-players :
      (user : ℕ)
      → has_active_player user party members ≡ true
      → has_active_player user party (swapped now actor new_dm party members) ≡ true
  swapped-players user h =
      let kept : any (is_active_player user party) (map g members) ≡ true =
        any-map-true (is_active_player user party) (is_active_player user party) g members
          (g-player user) h in
      rw (any-swapped (is_active_player user party), kept) refl

  swapped-stays : has_active_player actor party (swapped now actor new_dm party members) ≡ true
  swapped-stays = elim (Bool-cases (has_active_player actor party members)) [
    | inl there ↦ swapped-players actor there
    | inr missing ↦ ground (arith, any-swapped (is_active_player actor party))
  ]

  swapped-others :
      (user : ℕ)
      → user ≢ actor
      → user ≢ new_dm
      → has_active_dm user party (swapped now actor new_dm party members)
        ≡ has_active_dm user party members
  swapped-others user n m =
      let kept : any (is_active_dm user party) (map g members)
          ≡ any (is_active_dm user party) members =
        any-map (is_active_dm user party) (is_active_dm user party) g members
          (λ x. g-other user x n m) in
      ground (arith, any-swapped (is_active_dm user party), kept)

  swapped-other_players :
      (user : ℕ)
      → user ≢ actor
      → has_active_player user party (swapped now actor new_dm party members)
        ≡ has_active_player user party members
  swapped-other_players user n =
      let kept : any (is_active_player user party) (map g members)
          ≡ any (is_active_player user party) members =
        any-map (is_active_player user party) (is_active_player user party) g members
          (λ x. g-other_player user x n) in
      ground (arith, any-swapped (is_active_player user party), kept)

cleared-banker :
    (banker : Option ℕ) (new_dm : ℕ)
    → (if opt_eq banker (some new_dm) then none else banker) ≢ some new_dm
cleared-banker none new_dm = λ e. absurd (cc)
cleared-banker (some b) new_dm = λ e. absurd (ground arith)

kept-banker :
    (banker : Option ℕ) (new_dm user : ℕ)
    → (if opt_eq banker (some new_dm) then none else banker) ≡ some user
    → banker ≡ some user
kept-banker none new_dm user e = absurd (cc)
kept-banker (some b) new_dm user e = ground arith

untouched-banker :
    (banker : Option ℕ) (new_dm : ℕ)
    → banker ≢ some new_dm
    → (if opt_eq banker (some new_dm) then none else banker) ≡ banker
untouched-banker none new_dm n = refl
untouched-banker (some b) new_dm n = elim (Bool-cases (b == new_dm)) [
  | inl same ↦ absurd (n (ground (arith, same)))
  | inr other ↦ rw other refl
]

-- A `dm-transfer` that succeeds makes the target an active DM and leaves the actor none, but an
-- active player; everybody else is an active player as before, the target too, nobody else becomes
-- or stops being a DM and nobody else's rows change, the party belongs to the new DM, the new DM is
-- not its banker, and the banker stays the banker if it was not the target.
pub dm_transfer-IsHandover :
    (ctx : Context) (s : State) (new_dm : ℕ) (r : ReducerResult)
    → dm_transfer ctx (some s) new_dm ≡ ok r
    → IsHandover s new_dm r.state
unfolding dm_transfer
dm_transfer-IsHandover ctx s new_dm r h =
    passed (not (has_active_dm s.user_id s.party.id s.memberships)) dm_required _ h λ _ h.
      passed (new_dm == s.user_id) self_transfer _ h λ other h.
        passed (not (has_active_player new_dm s.party.id s.memberships)) target_not_player _ h
          λ _ h. done h λ same.
            let apart : new_dm ≢ s.user_id = λ e. absurd (ground arith) in
            subst (λ (x : ReducerResult). IsHandover s new_dm x.state) same
              (record {
                incoming = swapped-incoming ctx.now s.user_id new_dm s.party.id s.memberships apart;
                outgoing = swapped-outgoing ctx.now s.user_id new_dm s.party.id s.memberships apart;
                stays = swapped-stays ctx.now s.user_id new_dm s.party.id s.memberships apart;
                players = swapped-players ctx.now s.user_id new_dm s.party.id s.memberships apart;
                others = swapped-others ctx.now s.user_id new_dm s.party.id s.memberships apart;
                other_players =
                    swapped-other_players ctx.now s.user_id new_dm s.party.id s.memberships apart;
                other_rows = swapped-rows_but ctx.now s.user_id new_dm s.party.id s.memberships;
                owner = refl;
                banker = cleared-banker s.party.banker_user_id new_dm;
                banker_before = kept-banker s.party.banker_user_id new_dm;
                banker_kept = untouched-banker s.party.banker_user_id new_dm;
                same_party = refl;
              })
