-- ===== src/Tests/Departing.antt =====
-- A character that is deleted, and players who leave, join and are kicked.
use dnd_inventory.Prelude.{any, true}
use dnd_inventory.Prelude.{◌≡◌, ◌≢◌, refl, false, some, [], ◌∷◌}
use dnd_inventory.Result.{ok, err, unknown_character}
use dnd_inventory.State.{State, Role}
use dnd_inventory.Rules.Currency.{zero_currency}
use dnd_inventory.Reducer.Shared.{ReducerResult}
use dnd_inventory.Reducer.Money.Conservation.{IsSound}
use dnd_inventory.Reducer.Members.{has_active_player, has_active_dm}
use dnd_inventory.Reducer.Cascade.{cascade_character, delete_character}
use dnd_inventory.Reducer.Cascade.Rollup.{
  HasLoot, IsTakenOut, delete_character-IsTakenOut, delete_character-total,
}
use dnd_inventory.Reducer.Departures.{
  is_active, cascade_if_any, leave_party, kick_player, join_party,
}
use dnd_inventory.Reducer.Departures.Active.{IsDeparted, IsConserved}
use dnd_inventory.Reducer.Departures.Leaving.{leave_party-IsDeparted, kick_player-IsDeparted}
use dnd_inventory.Reducer.Departures.Joining.{IsJoined, other_rows_of, join_party-IsJoined}
use dnd_inventory.Tests.Data.{
  context, campaign, hero, holding, member, success, campaign-ItemsAreSound, campaign-IsSound,
  campaign-HasLoot,
}

abbrev buried : ReducerResult
buried = success (delete_character context (some campaign) 20)

-- The character has two Inventories' worth of rows and a chest.
delete_character-IsTakenOut_example : IsTakenOut campaign 20 buried.state
unfolding delete_character cascade_character
delete_character-IsTakenOut_example =
    delete_character-IsTakenOut context campaign 20 buried campaign-ItemsAreSound campaign-IsSound
      campaign-HasLoot refl

delete_character-total_example :
    (r : ReducerResult) × (delete_character context (some campaign) 20 ≡ ok r)
    × IsTakenOut campaign 20 r.state
    × (delete_character context (some r.state) 20 ≡ err unknown_character)
delete_character-total_example =
    delete_character-total context campaign (hero 20 10) (holding 52 12 zero_currency)
      campaign-ItemsAreSound campaign-IsSound campaign-HasLoot refl refl

-- The player plays character 20, and it is the player who acts.
abbrev as_player : State
as_player = record campaign {
  user_id = 2;
  memberships = member 1 Role.dm ∷ record (member 2 Role.player) { character_id = some 20 } ∷ [];
}

as_player-IsSound : IsSound as_player
as_player-IsSound = record {
  one_each = campaign-IsSound.one_each;
  nonneg = campaign-IsSound.nonneg;
}

as_player-HasLoot : HasLoot as_player
as_player-HasLoot = record {
  ids = campaign-HasLoot.ids;
  stash = campaign-HasLoot.stash;
  there = campaign-HasLoot.there;
  scoped = campaign-HasLoot.scoped;
}

abbrev gone : ReducerResult
gone = success (leave_party context (some as_player))

leave_party-IsDeparted_example :
    IsDeparted as_player 2 gone.state × IsConserved as_player gone.state
unfolding leave_party cascade_character cascade_if_any
leave_party-IsDeparted_example =
    leave_party-IsDeparted context as_player gone campaign-ItemsAreSound as_player-IsSound
      as_player-HasLoot refl

abbrev kicked : ReducerResult
kicked = success (kick_player context (some campaign) 2)

kick_player-IsDeparted_example :
    (2 ≢ campaign.user_id)
    × (any (is_active 2 100) campaign.memberships ≡ true)
    × (has_active_dm 2 100 campaign.memberships ≡ false)
    × IsDeparted campaign 2 kicked.state
    × IsConserved campaign kicked.state
unfolding kick_player cascade_character cascade_if_any
kick_player-IsDeparted_example =
    kick_player-IsDeparted context campaign 2 kicked campaign-ItemsAreSound campaign-IsSound
      campaign-HasLoot refl

-- The DM joins as a player too.
abbrev joined : ReducerResult
joined = success (join_party context (some campaign))

join_party-IsJoined_example :
    (has_active_player 1 100 campaign.memberships ≡ false)
    × IsJoined 1 100 campaign.memberships joined.state.memberships
    × (other_rows_of 1 100 joined.state.memberships ≡ other_rows_of 1 100 campaign.memberships)
unfolding join_party
join_party-IsJoined_example = join_party-IsJoined context campaign joined refl
