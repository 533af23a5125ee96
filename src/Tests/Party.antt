-- ===== src/Tests/Party.antt =====
-- The members of a party, its banker and its sessions.
use dnd_inventory.Prelude.{◌≡◌, refl, arith, true, none, some}
use dnd_inventory.Result.{err, no_current_session}
use dnd_inventory.Reducer.Shared.{ReducerResult}
use dnd_inventory.Reducer.Members.{appoint_banker, dm_transfer}
use dnd_inventory.Reducer.Members.Handover.{IsHandover, dm_transfer-IsHandover}
use dnd_inventory.Reducer.Members.Banker.{BankerIsPlayer, appoint_banker-BankerIsPlayer}
use dnd_inventory.Reducer.Sessions.{StartPayload, start_game_session, end_game_session}
use dnd_inventory.Reducer.Sessions.Current.{
  SessionsAreSound, current_count, IsStarted, start_game_session-IsStarted, end_game_session-twice,
}
use dnd_inventory.Tests.Data.{context, campaign, success}

abbrev handed_over : ReducerResult
handed_over = success (dm_transfer context (some campaign) 2)

dm_transfer-IsHandover_example : IsHandover campaign 2 handed_over.state
unfolding dm_transfer
dm_transfer-IsHandover_example = dm_transfer-IsHandover context campaign 2 handed_over refl

abbrev appointed : ReducerResult
appointed = success (appoint_banker (some campaign) 2)

appoint_banker-BankerIsPlayer_example :
    (campaign.party.banker_user_id ≡ none)
    × (appointed.state.party.banker_user_id ≡ some 2)
    × BankerIsPlayer appointed.state
unfolding appoint_banker
appoint_banker-BankerIsPlayer_example = appoint_banker-BankerIsPlayer campaign 2 appointed refl

sessions_sound : SessionsAreSound campaign.game_sessions
sessions_sound = record { ids = (tt, tt); one_current = omega arith }

abbrev next_session : StartPayload
next_session = record {
  new_game_session_id = 61;
  end_current_first = true;
  date = none;
  notes = none;
}

abbrev started : ReducerResult
started = success (start_game_session context (some campaign) next_session)

start_game_session-IsStarted_example :
    IsStarted context campaign next_session started.state.game_sessions
unfolding start_game_session
start_game_session-IsStarted_example =
    start_game_session-IsStarted context campaign next_session started sessions_sound (ground arith)
      refl

abbrev ended : ReducerResult
ended = success (end_game_session (some campaign))

end_game_session-twice_example :
    (current_count ended.state.game_sessions ≡ 0)
    × (end_game_session (some ended.state) ≡ err no_current_session)
unfolding end_game_session
end_game_session-twice_example = end_game_session-twice campaign ended sessions_sound refl
