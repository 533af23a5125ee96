-- ===== src/Reducer/Members/Banker.antt =====
-- Who may be the banker of a party.
use dnd_inventory.Prelude.{
  ℕ, ◌≡◌, ◌≢◌, refl, sym, ◌∙◌, subst, arith, true, false, not, Option, none, some, is_some, ltb,
  length, ◌==◌,
}
use dnd_inventory.Result.{
  ok, passed, done, dm_required, self_appoint, banker_set, target_not_player, too_few_members,
}
use dnd_inventory.State.{State, Context}
use dnd_inventory.Reducer.Shared.{ReducerResult}
use dnd_inventory.Reducer.Members.{
  has_active_dm, has_active_player, active_user_ids, appoint_banker, dm_transfer,
}
use dnd_inventory.Reducer.Members.Handover.{dm_transfer-IsHandover}

-- A banker is an active player of the party and not its owner.
abbrev pub BankerIsPlayer : State → Type 0
BankerIsPlayer s =
    (banker : ℕ)
    → s.party.banker_user_id ≡ some banker
    → (banker ≢ s.party.owner_user_id) × (has_active_player banker s.party.id s.memberships ≡ true)

-- Whoever `appoint-banker` makes the banker, where there was none, is an active player of the party
-- and not its owner.
pub appoint_banker-BankerIsPlayer :
    (s : State) (banker : ℕ) (r : ReducerResult)
    → appoint_banker (some s) banker ≡ ok r
    → (s.party.banker_user_id ≡ none)
      × (r.state.party.banker_user_id ≡ some banker)
      × BankerIsPlayer r.state
unfolding appoint_banker
appoint_banker-BankerIsPlayer s banker r h =
    passed (not (has_active_dm s.user_id s.party.id s.memberships)) dm_required _ h λ _ h.
      passed (banker == s.party.owner_user_id) self_appoint _ h λ other h.
        passed (is_some s.party.banker_user_id) banker_set _ h λ unset h.
          passed (not (has_active_player banker s.party.id s.memberships)) target_not_player _ h
            λ player h.
              passed (ltb (length (active_user_ids s.party.id s.memberships)) 2) too_few_members _ h
                λ _ h. done h λ same.
                  subst
                    (λ (x : ReducerResult).
                      (s.party.banker_user_id ≡ none)
                      × (x.state.party.banker_user_id ≡ some banker)
                      × BankerIsPlayer x.state)
                    same
                    (
                      is_some-false s.party.banker_user_id unset,
                      refl,
                      λ b e.
                          let one : banker ≡ b = cc in
                          (
                            subst (λ k. k ≢ s.party.owner_user_id) one (λ e. absurd (ground arith)),
                            subst (λ k. has_active_player k s.party.id s.memberships ≡ true) one
                                (ground arith),
                          ),
                    )
  where
    is_some-false : (o : Option ℕ) → is_some o ≡ false → o ≡ none
    is_some-false none e = refl
    is_some-false (some k) e = cc

-- Where a banker is an active player and not the owner, the same holds after a `dm-transfer` that
-- succeeds.
pub dm_transfer-BankerIsPlayer :
    (ctx : Context) (s : State) (new_dm : ℕ) (r : ReducerResult)
    → BankerIsPlayer s
    → dm_transfer ctx (some s) new_dm ≡ ok r
    → BankerIsPlayer r.state
dm_transfer-BankerIsPlayer ctx s new_dm r ok_before h banker e =
    let after = dm_transfer-IsHandover ctx s new_dm r h in
    (
      λ owner.
          after.banker (subst (λ k. r.state.party.banker_user_id ≡ some k) (owner ∙ after.owner) e),
      subst (λ k. has_active_player banker k r.state.memberships ≡ true) (sym after.same_party)
          (after.players banker (ok_before banker (after.banker_before banker e)).1),
    )
