-- ===== src/Reducer/Actions/Runs.antt =====
-- The states that a party goes through.
use dnd_inventory.Prelude.{◌≡◌, none, some}
use dnd_inventory.Result.{ok}
use dnd_inventory.State.{State, AppState, Context}
use dnd_inventory.Reducer.Shared.{ReducerResult}
use dnd_inventory.Reducer.Action.{Action}
use dnd_inventory.Reducer.Actions.{reduce}
use dnd_inventory.Reducer.Actions.Invariant.{StateIsSound}
use dnd_inventory.Reducer.Actions.Preserved.{AppIsSound, HasNewIds, reduce-StateIsSound}

-- A run: each state is what `reduce` made of the one before, by an action with new ids. An action
-- that throws leaves the state as it was. The context, with its clock, may change from step to
-- step.
pub data Run : AppState → AppState → Type 0 where
  stay : {state : AppState} → Run state state
  step :
      {first last : AppState} (ctx : Context) (a : Action) (r : ReducerResult)
      → Run first last
      → HasNewIds ctx last a
      → reduce ctx last a ≡ ok r
      → Run first (some r.state)

Run-AppIsSound : {first last : AppState} → Run first last → AppIsSound first → AppIsSound last
Run-AppIsSound stay w = w
Run-AppIsSound (step {last = last} ctx a r before new h) w =
    reduce-StateIsSound ctx last a r (Run-AppIsSound before w) new h

-- Every state that a run of actions with new ids reaches from no state at all is sound.
pub Run-StateIsSound : (s : State) → Run none (some s) → StateIsSound s
Run-StateIsSound s run = Run-AppIsSound run tt
