-- ===== src/Reducer/Sessions/Current.antt =====
-- That at most one session of a party is the current one.
use dnd_inventory.Prelude.{
  ℕ, ◌+◌, ◌≤◌, ◌<◌, ◌≡◌, refl, subst, arith, Bool, true, inl, inr, Option, none, some, List, [],
  ◌∷◌, ◌++◌, All, Absent, Unique, Unique-update_row, Unique-snoc, Absent-update_row, find-true,
  find-find_row, find_row, update_row, max, not, ◌&&◌, is_some, if◌then◌else◌, Bool-cases,
  Option-cases, sum_of, sum_of-append, sum_of-update_row,
}
use dnd_inventory.Result.{
  ok, err, passed, found, done, bad_uuid, session_already_current, no_current_session,
}
use dnd_inventory.State.{State, GameSession, Context}
use dnd_inventory.Reducer.Shared.{ReducerResult}
use dnd_inventory.Reducer.Sessions.{
  session_id, StartPayload, highest_number, new_session, demote, demoted, current,
  start_game_session, end_game_session,
}

-- How many sessions are marked as current.
abbrev pub current_count : List GameSession → ℕ
current_count = sum_of (λ (gs : GameSession). if gs.is_current then 1 else 0)

-- Ids are not repeated, and at most one session is the current one.
pub record SessionsAreSound (sessions : List GameSession) : Type 0 where
  pub ids : Unique session_id sessions
  pub one_current : current_count sessions ≤ 1

current_count-current :
    (sessions : List GameSession) → current sessions ≡ none → current_count sessions ≡ 0
current_count-current [] e = refl
current_count-current (gs ∷ rest) e = elim (Bool-cases gs.is_current) [
  | inl h ↦ absurd (ground arith)
  | inr h ↦ let ih = current_count-current rest (ground arith) in rw h (omega (arith, ih))
]

current-none : (sessions : List GameSession) → current_count sessions ≡ 0 → current sessions ≡ none
current-none [] e = refl
current-none (gs ∷ rest) e = elim (Bool-cases gs.is_current) [
  | inl h ↦ absurd (ground arith)
  | inr h ↦ rw h (current-none rest (ground arith))
]

-- Ending the session that is found as the current one leaves none.
pub demote-current_count :
    (sessions : List GameSession) (gs : GameSession)
    → SessionsAreSound sessions
    → current sessions ≡ some gs
    → current_count (update_row session_id gs.id demote sessions) ≡ 0
demote-current_count sessions gs sound e =
    let test : GameSession → Bool = λ g. g.is_current in
    let is_on : gs.is_current ≡ true = find-true test sessions e in
    let measure : GameSession → ℕ = λ g. if g.is_current then 1 else 0 in
    ground (
      arith,
      is_on,
      sound.one_current,
      sum_of-update_row session_id measure gs.id demote sessions sound.ids
          (find-find_row session_id test sessions sound.ids e),
    )

demoted-current_count :
    (sessions : List GameSession)
    → SessionsAreSound sessions
    → current_count (demoted (current sessions) sessions) ≡ 0
demoted-current_count sessions sound = elim (Option-cases (current sessions)) [
  | inl e ↦ rw e (current_count-current sessions e)
  | inr (gs, e) ↦ rw e (demote-current_count sessions gs sound e)
]

demoted-Unique :
    (prior : Option GameSession) (sessions : List GameSession)
    → Unique session_id sessions
    → Unique session_id (demoted prior sessions)
demoted-Unique none sessions u = u
demoted-Unique (some gs) sessions u =
    Unique-update_row session_id gs.id demote sessions (λ _ h. h) u

demoted-Absent :
    (k : ℕ) (prior : Option GameSession) (sessions : List GameSession)
    → Absent session_id k sessions
    → Absent session_id k (demoted prior sessions)
demoted-Absent k none sessions a = a
demoted-Absent k (some gs) sessions a =
    Absent-update_row session_id k gs.id demote sessions (λ _ h. h) a

highest_number-≤ :
    (m : ℕ) (sessions : List GameSession)
    → (m ≤ highest_number m sessions)
      × All (λ (gs : GameSession). gs.number ≤ highest_number m sessions) sessions
highest_number-≤ m [] = (omega arith, tt)
highest_number-≤ m (gs ∷ rest) =
    let ih = highest_number-≤ (max m gs.number) rest in
    (omega (arith, ih.0), (omega (arith, ih.0), ih.1))

-- What starting a session makes of the sessions.
pub record IsStarted (ctx : Context) (s : State) (p : StartPayload) (after : List GameSession)
    : Type 0 where
  pub one_current : current_count after ≡ 1
  pub is_current : find_row session_id p.new_game_session_id after ≡ some (new_session ctx s p)
  pub numbered :
      All (λ (gs : GameSession). gs.number < (new_session ctx s p).number) s.game_sessions
  pub sound : SessionsAreSound after

find_row-snoc :
    (xs : List GameSession) (x : GameSession)
    → Absent session_id x.id xs
    → find_row session_id x.id (xs ++ x ∷ []) ≡ some x
find_row-snoc [] x a = ground arith
find_row-snoc (y ∷ ys) x a = ground (arith, find_row-snoc ys x a.1)

All-below :
    (n : ℕ) (sessions : List GameSession)
    → All (λ (gs : GameSession). gs.number ≤ n) sessions
    → All (λ (gs : GameSession). gs.number < n + 1) sessions
All-below n [] a = tt
All-below n (gs ∷ rest) a = (omega (arith, a.0), All-below n rest a.1)

pub new_session-IsStarted :
    (ctx : Context) (s : State) (p : StartPayload)
    → SessionsAreSound s.game_sessions
    → Absent session_id p.new_game_session_id s.game_sessions
    → IsStarted ctx s p
        (demoted (current s.game_sessions) s.game_sessions ++ new_session ctx s p ∷ [])
new_session-IsStarted ctx s p sound fresh =
    let rest = demoted (current s.game_sessions) s.game_sessions in
    let absent =
      demoted-Absent p.new_game_session_id (current s.game_sessions) s.game_sessions fresh in
    let measure : GameSession → ℕ = λ g. if g.is_current then 1 else 0 in
    let one : current_count (rest ++ new_session ctx s p ∷ []) ≡ 1 = omega (
      arith,
      sum_of-append measure rest (new_session ctx s p ∷ []),
      demoted-current_count s.game_sessions sound,
    ) in
    record {
      one_current = one;
      is_current = find_row-snoc rest (new_session ctx s p) absent;
      numbered =
          All-below (highest_number 0 s.game_sessions) s.game_sessions
            (highest_number-≤ 0 s.game_sessions).1;
      sound = record {
        ids =
            Unique-snoc session_id rest (new_session ctx s p) absent
              (demoted-Unique (current s.game_sessions) s.game_sessions sound.ids);
        one_current = omega (arith, one);
      };
    }

-- Where ids are distinct and at most one session is current, after a `start-game-session` that
-- succeeds, under an id that no session has, the new session is the one current session, whether or
-- not there was one before, and its number is above all others.
pub start_game_session-IsStarted :
    (ctx : Context) (s : State) (p : StartPayload) (r : ReducerResult)
    → SessionsAreSound s.game_sessions
    → Absent session_id p.new_game_session_id s.game_sessions
    → start_game_session ctx (some s) p ≡ ok r
    → IsStarted ctx s p r.state.game_sessions
unfolding start_game_session
start_game_session-IsStarted ctx s p r sound fresh h =
    passed (not (ctx.is_valid_uuid_v7 p.new_game_session_id)) bad_uuid _ h λ _ h.
      passed (is_some (current s.game_sessions) && not p.end_current_first) session_already_current
        _ h
        λ _ h. done h λ same.
          subst (λ (x : ReducerResult). IsStarted ctx s p x.state.game_sessions) same
            (new_session-IsStarted ctx s p sound fresh)

-- Where ids are distinct and at most one session is current, after an `end-game-session` that
-- succeeds no session is the current one, and a second is refused.
pub end_game_session-twice :
    (s : State) (r : ReducerResult)
    → SessionsAreSound s.game_sessions
    → end_game_session (some s) ≡ ok r
    → (current_count r.state.game_sessions ≡ 0)
      × (end_game_session (some r.state) ≡ err no_current_session)
unfolding end_game_session
end_game_session-twice s r sound h =
    found (current s.game_sessions) no_current_session _ h λ gs e h. done h λ same.
      let left = update_row session_id gs.id demote s.game_sessions in
      let none_left : current_count left ≡ 0 = demote-current_count s.game_sessions gs sound e in
      subst
        (λ (x : ReducerResult).
          (current_count x.state.game_sessions ≡ 0)
          × (end_game_session (some x.state) ≡ err no_current_session))
        same (none_left, rw (current-none left none_left) refl)
