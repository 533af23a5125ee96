-- ===== src/Reducer/Departures/Joining.antt =====
-- What `join-party` makes of the memberships.
use dnd_inventory.Prelude.{
  ℕ, max, refl, ◌≡◌, ◌≢◌, subst, arith, true, false, ◌&&◌, inl, inr, none, some, List, [], ◌∷◌,
  ◌++◌, any, filter, not, sum_of, ◌==◌, if◌then◌else◌, Bool-cases,
}
use dnd_inventory.Prelude.Text.{Text}
use dnd_inventory.Result.{ok, passed, done, already_member}
use dnd_inventory.State.{State, Membership, Role, Context, is_player}
use dnd_inventory.Reducer.Shared.{ReducerResult}
use dnd_inventory.Reducer.Members.{has_active_dm, has_active_player, fresh_member}
use dnd_inventory.Reducer.Departures.{played_character, is_past_player, reopen_first, join_party}

-- The rows with one primary key, a player's.
abbrev pub player_rows : ℕ → ℕ → List Membership → ℕ
player_rows user party = sum_of (λ (m : Membership).
    if m.user_id == user && m.party_id == party && is_player m.role then 1 else 0)

-- The rows that are not a player's row of the user in the party, in order.
abbrev pub other_rows_of : ℕ → ℕ → List Membership → List Membership
other_rows_of user party =
    filter (λ (m : Membership). not (m.user_id == user && m.party_id == party && is_player m.role))

-- What joining makes of the memberships of a party.
pub record IsJoined (user party : ℕ) (before after : List Membership) : Type 0 where
  pub active : has_active_player user party after ≡ true
  pub no_character : played_character user party after ≡ none
  pub one_row : player_rows user party after ≡ max 1 (player_rows user party before)
  pub dms : (other : ℕ) → has_active_dm other party after ≡ has_active_dm other party before
  pub other_players :
      (other : ℕ)
      → other ≢ user
      → has_active_player other party after ≡ has_active_player other party before

module _ (now : Text) (user party : ℕ) where
  reopen_first-IsJoined :
      (members : List Membership)
      → has_active_player user party members ≡ false
      → any (is_past_player user party) members ≡ true
      → IsJoined user party members (reopen_first now user party members)
  reopen_first-IsJoined [] a p = cc
  reopen_first-IsJoined (m ∷ members) a p = elim (Bool-cases (is_past_player user party m)) [
    | inl past ↦ record {
      active = ground arith;
      no_character = ground arith;
      one_row = ground arith;
      dms = λ other. ground arith;
      other_players = λ other n. ground arith;
    }
    | inr other_row ↦
        let rest = reopen_first-IsJoined members (ground arith) (ground arith) in
        record {
          active = ground (arith, rest.active);
          no_character = ground (arith, rest.no_character);
          one_row = ground (arith, rest.one_row);
          dms = λ other. ground (arith, rest.dms other);
          other_players = λ other n. ground (arith, rest.other_players other n);
        }
  ]

  reopen_first-other_rows :
      (members : List Membership)
      → other_rows_of user party (reopen_first now user party members)
        ≡ other_rows_of user party members
  reopen_first-other_rows [] = refl
  reopen_first-other_rows (m ∷ members) = ground (arith, reopen_first-other_rows members)

  append-other_rows :
      (members : List Membership)
      → other_rows_of user party (members ++ fresh_member now user party Role.player ∷ [])
        ≡ other_rows_of user party members
  append-other_rows [] = ground arith
  append-other_rows (m ∷ members) = ground (arith, append-other_rows members)

  append-IsJoined :
      (members : List Membership)
      → has_active_player user party members ≡ false
      → any (is_past_player user party) members ≡ false
      → IsJoined user party members (members ++ fresh_member now user party Role.player ∷ [])
  append-IsJoined [] a p = record {
    active = ground arith;
    no_character = ground arith;
    one_row = ground arith;
    dms = λ other. ground arith;
    other_players = λ other n. ground arith;
  }
  append-IsJoined (m ∷ members) a p =
      let rest = append-IsJoined members (ground arith) (ground arith) in
      record {
        active = ground (arith, rest.active);
        no_character = ground (arith, rest.no_character);
        one_row = ground (arith, rest.one_row);
        dms = λ other. ground (arith, rest.dms other);
        other_players = λ other n. ground (arith, rest.other_players other n);
      }

-- A `join-party` that succeeds makes the actor an active player without a character, where it was
-- none; every row that is not a player's row of the actor in the party is as it was, in its place
-- among them, so that nobody becomes or stops being a DM and no other player changes; and the actor
-- has one player's row if it had none, and otherwise as many as before.
pub join_party-IsJoined :
    (ctx : Context) (s : State) (r : ReducerResult)
    → join_party ctx (some s) ≡ ok r
    → (has_active_player s.user_id s.party.id s.memberships ≡ false)
      × IsJoined s.user_id s.party.id s.memberships r.state.memberships
      × (other_rows_of s.user_id s.party.id r.state.memberships
          ≡ other_rows_of s.user_id s.party.id s.memberships)
unfolding join_party
join_party-IsJoined ctx s r h =
    let user = s.user_id in
    let party = s.party.id in
    passed (has_active_player user party s.memberships) already_member _ h λ fresh h. done h λ same.
      (
        fresh,
        subst (λ (x : ReducerResult). IsJoined user party s.memberships x.state.memberships) same
            (elim (Bool-cases (any (is_past_player user party) s.memberships)) [
              | inl past ↦
                  rw past (reopen_first-IsJoined ctx.now user party s.memberships fresh past)
              | inr first ↦ rw first (append-IsJoined ctx.now user party s.memberships fresh first)
            ]),
        subst
            (λ (x : ReducerResult).
              other_rows_of user party x.state.memberships ≡ other_rows_of user party s.memberships)
            same
            (elim (Bool-cases (any (is_past_player user party) s.memberships)) [
              | inl past ↦ rw past (reopen_first-other_rows ctx.now user party s.memberships)
              | inr first ↦ rw first (append-other_rows ctx.now user party s.memberships)
            ]),
      )
