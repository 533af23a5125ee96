-- ===== src/Reducer/Sessions.antt =====
-- packages/rules/src/reducer/index.ts: `start-game-session`, `end-game-session` and
-- `edit-game-session-notes`.
pub mod Current
use dnd_inventory.Prelude.{
  ℕ, ◌+◌, Bool, true, false, not, ◌&&◌, Option, none, some, List, [], ◌∷◌, ◌++◌, find, find_row,
  update_row, max, take, is_some, or_else, if◌then◌else◌,
}
use dnd_inventory.Prelude.Text.{Text, text_eq}
use dnd_inventory.Result.{
  Result, ok, ◌>>=◌, ◌>>◌, or_throw, throw_if, bad_uuid, session_already_current,
  no_current_session, unknown_session, no_change,
}
use dnd_inventory.State.{State, AppState, GameSession, Context}
use dnd_inventory.State.Log.{LogSlice}
use dnd_inventory.Reducer.Shared.{ReducerResult, require_state}

abbrev pub session_id : GameSession → ℕ
session_id gs = gs.id

pub record StartPayload : Type 0 where
  pub new_game_session_id : ℕ
  pub end_current_first : Bool
  pub date : Option Text
  pub notes : Option Text

-- `gameSessions.reduce((m, gs) => Math.max(m, gs.number), 0)`
abbrev pub highest_number : ℕ → List GameSession → ℕ
highest_number m [] = m
highest_number m (gs ∷ rest) = highest_number (max m gs.number) rest

abbrev pub new_session : Context → State → StartPayload → GameSession
new_session ctx s p = record {
  id = p.new_game_session_id;
  party_id = s.party.id;
  number = highest_number 0 s.game_sessions + 1;
  date = or_else p.date (take 10 ctx.now);
  notes = p.notes;
  is_current = true;
  created_at = ctx.now;
}

abbrev pub demote : GameSession → GameSession
demote gs = record gs { is_current = false }

-- The sessions with the current one ended, and the log slice of that.
abbrev pub demoted : Option GameSession → List GameSession → List GameSession
demoted none sessions = sessions
demoted (some prior) sessions = update_row session_id prior.id demote sessions

abbrev end_log : Option GameSession → List LogSlice
end_log none = []
end_log (some prior) = LogSlice.end_game_session prior.id prior.number ∷ []

abbrev pub current : List GameSession → Option GameSession
current sessions = find (λ (gs : GameSession). gs.is_current) sessions

unfoldable pub start_game_session : Context → AppState → StartPayload → Result ReducerResult
start_game_session ctx state p = do
  s ← require_state state
  throw_if (not (ctx.is_valid_uuid_v7 p.new_game_session_id)) bad_uuid
  let prior = current s.game_sessions
  throw_if (is_some prior && not p.end_current_first) session_already_current
  let started = new_session ctx s p
  ok (record {
    state = record s { game_sessions = demoted prior s.game_sessions ++ started ∷ [] };
    log_entries =
        end_log prior ++ LogSlice.start_game_session started.id started.number started.date ∷ [];
  })

unfoldable pub end_game_session : AppState → Result ReducerResult
end_game_session state = do
  s ← require_state state
  ended ← or_throw (current s.game_sessions) no_current_session
  ok (record {
    state = record s { game_sessions = update_row session_id ended.id demote s.game_sessions };
    log_entries = LogSlice.end_game_session ended.id ended.number ∷ [];
  })

-- Clearing the notes drops the field.
abbrev pub stored_notes : Text → Option Text
stored_notes [] = none
stored_notes (c ∷ cs) = some (c ∷ cs)

unfoldable pub edit_game_session_notes : AppState → ℕ → Text → Result ReducerResult
edit_game_session_notes state id new_notes = do
  s ← require_state state
  session ← or_throw (find_row session_id id s.game_sessions) unknown_session
  let old_notes = or_else session.notes []
  throw_if (text_eq old_notes new_notes) no_change
  ok (record {
    state = record s {
      game_sessions =
          update_row session_id session.id (λ gs. record gs { notes = stored_notes new_notes })
            s.game_sessions;
    };
    log_entries =
        LogSlice.edit_game_session_notes session.id session.number old_notes new_notes ∷ [];
  })
