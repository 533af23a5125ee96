-- ===== src/Reducer/Actions/People.antt =====
-- That the actions on the members, but for departures, keep a state sound.
use dnd_inventory.Prelude.{
  ℕ, ◌≡◌, ◌≢◌, refl, sym, ◌∙◌, subst, arith, true, not, inl, inr, some, none, List, [], ◌∷◌, any,
  is_some, ltb, length, ◌==◌, Bool-cases,
}
use dnd_inventory.Result.{
  ok, passed, done, dm_required, self_appoint, banker_set, banker_unset, target_not_player,
  too_few_members, self_transfer, already_member,
}
use dnd_inventory.State.{State, Context, Membership}
use dnd_inventory.State.Log.{RevokeReason}
use dnd_inventory.Reducer.Shared.{ReducerResult}
use dnd_inventory.Reducer.Members.{
  has_active_dm, has_active_player, active_user_ids, appoint_banker, revoke_banker, dm_transfer,
}
use dnd_inventory.Reducer.Members.Banker.{
  BankerIsPlayer, appoint_banker-BankerIsPlayer, dm_transfer-BankerIsPlayer,
}
use dnd_inventory.Reducer.Members.Handover.{dm_transfer-IsHandover}
use dnd_inventory.Reducer.Departures.{join_party}
use dnd_inventory.Reducer.Departures.Active.{is_dm_of}
use dnd_inventory.Reducer.Departures.Joining.{join_party-IsJoined}
use dnd_inventory.Reducer.Actions.Invariant.{StateIsSound, MembersAreSound, with_members}

-- An action that changed nothing but the party, its Recovered Loot aside, and the members.
pub record OnlyMembers (s s' : State) : Type 0 where
  pub loot : s'.party.recovered_loot_stash_id ≡ s.party.recovered_loot_stash_id
  pub rest : s' ≡ record s { party = s'.party; memberships = s'.memberships }

pub only_members :
    (s s' : State)
    → StateIsSound s
    → MembersAreSound s'.party s'.memberships
    → OnlyMembers s s'
    → StateIsSound s'
only_members s s' w new e =
    subst StateIsSound (sym e.rest) (with_members s s'.party s'.memberships w e.loot new)

-- An active DM is somebody's membership.
pub dm_of-has_active_dm :
    (user party : ℕ) (members : List Membership)
    → has_active_dm user party members ≡ true
    → any (is_dm_of party) members ≡ true
dm_of-has_active_dm user party [] h = cc
dm_of-has_active_dm user party (m ∷ members) h =
    ground (arith, dm_of-has_active_dm user party members)

some_dm :
    (party : ℕ) (members : List Membership)
    → any (is_dm_of party) members ≡ true
    → (user : ℕ) × (has_active_dm user party members ≡ true)
some_dm party [] h = cc
some_dm party (m ∷ members) h = elim (Bool-cases (is_dm_of party m)) [
  | inl dm ↦ (m.user_id, ground arith)
  | inr other ↦
      let (user, there) = some_dm party members (ground arith) in (user, ground (arith, there))
]

module _ (ctx : Context) (s : State) (r : ReducerResult) (w : StateIsSound s) where
  banker_of : BankerIsPlayer s
  banker_of = w.members.banker

  pub appoint_banker-StateIsSound :
      (banker : ℕ) → appoint_banker (some s) banker ≡ ok r → StateIsSound r.state
  unfolding appoint_banker
  appoint_banker-StateIsSound banker h =
      let new = (appoint_banker-BankerIsPlayer s banker r h).2 in
      passed (not (has_active_dm s.user_id s.party.id s.memberships)) dm_required _ h λ _ h.
        passed (banker == s.party.owner_user_id) self_appoint _ h λ _ h.
          passed (is_some s.party.banker_user_id) banker_set _ h λ _ h.
            passed (not (has_active_player banker s.party.id s.memberships)) target_not_player _ h
              λ _ h.
                passed (ltb (length (active_user_ids s.party.id s.memberships)) 2) too_few_members _
                  h
                  λ _ h. done h λ same.
                    only_members s r.state w
                      (record {
                        led =
                            subst
                              (λ (x : ReducerResult).
                                any (is_dm_of x.state.party.id) x.state.memberships ≡ true)
                              same w.members.led;
                        banker = new;
                      })
                      (subst (λ (x : ReducerResult). OnlyMembers s x.state) same
                        (record { loot = refl; rest = refl }))

  pub revoke_banker-StateIsSound :
      (reason : RevokeReason) → revoke_banker (some s) reason ≡ ok r → StateIsSound r.state
  unfolding revoke_banker
  revoke_banker-StateIsSound reason h =
      passed (not (has_active_dm s.user_id s.party.id s.memberships)) dm_required _ h λ _ h.
        passed (not (is_some s.party.banker_user_id)) banker_unset _ h λ _ h. done h λ same.
          subst (λ (x : ReducerResult). StateIsSound x.state) same
            (with_members s (record s.party { banker_user_id = none }) s.memberships w refl
              (record { led = w.members.led; banker = λ user e. cc }))

  dm_transfer-OnlyMembers :
      (new_dm : ℕ) → dm_transfer ctx (some s) new_dm ≡ ok r → OnlyMembers s r.state
  unfolding dm_transfer
  dm_transfer-OnlyMembers new_dm h =
      passed (not (has_active_dm s.user_id s.party.id s.memberships)) dm_required _ h λ _ h.
        passed (new_dm == s.user_id) self_transfer _ h λ _ h.
          passed (not (has_active_player new_dm s.party.id s.memberships)) target_not_player _ h
            λ _ h. done h λ same.
              subst (λ (x : ReducerResult). OnlyMembers s x.state) same
                (record { loot = refl; rest = refl })

  pub dm_transfer-StateIsSound :
      (new_dm : ℕ) → dm_transfer ctx (some s) new_dm ≡ ok r → StateIsSound r.state
  dm_transfer-StateIsSound new_dm h =
      let out = dm_transfer-IsHandover ctx s new_dm r h in
      only_members s r.state w
        (record {
          led =
              subst (λ k. any (is_dm_of k) r.state.memberships ≡ true) (sym out.same_party)
                (dm_of-has_active_dm new_dm s.party.id r.state.memberships out.incoming);
          banker = dm_transfer-BankerIsPlayer ctx s new_dm r banker_of h;
        })
        (dm_transfer-OnlyMembers new_dm h)

  pub join_party-StateIsSound : join_party ctx (some s) ≡ ok r → StateIsSound r.state
  unfolding join_party
  join_party-StateIsSound h =
      let (fresh, joined, _) = join_party-IsJoined ctx s r h in
      let party = s.party.id in
      let (dm, there) = some_dm party s.memberships w.members.led in
      let new : MembersAreSound s.party r.state.memberships = record {
        led = dm_of-has_active_dm dm party r.state.memberships (joined.dms dm ∙ there);
        banker = λ user e.
            let was = w.members.banker user e in
            let apart : user ≢ s.user_id = λ same.
              let both = subst (λ k. has_active_player k party s.memberships ≡ true) same was.1 in
              cc in
            (was.0, joined.other_players user apart ∙ was.1);
      } in
      passed (has_active_player s.user_id party s.memberships) already_member _ h λ _ h.
        done h λ same.
          subst StateIsSound
            (subst (λ (x : ReducerResult). record s { memberships = x.state.memberships } ≡ x.state)
              same refl)
            (with_members s s.party r.state.memberships w refl new)
