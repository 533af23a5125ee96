-- ===== src/Tests/Runs.antt =====
-- A party from its first action on.
use dnd_inventory.Prelude.{◌≡◌, refl, arith, none, some, pos, ◌+ℤ◌, ◌-ℤ◌, subst}
use dnd_inventory.Prelude.Text.{codes}
use dnd_inventory.Result.{done}
use dnd_inventory.Rules.Currency.{Currency, zero_currency, add, subtract, full, to_copper}
use dnd_inventory.Rules.Capacity.{medium}
use dnd_inventory.State.Log.{ChangeReason}
use dnd_inventory.Reducer.Shared.{ReducerResult}
use dnd_inventory.Reducer.Money.{currency_change, currency_transfer}
use dnd_inventory.Reducer.Cascade.{cascade_character, delete_character}
use dnd_inventory.Reducer.Shops.{create_shop}
use dnd_inventory.Reducer.Characters.{NewCharacter, CreatePayload}
use dnd_inventory.Reducer.Characters.Founding.{PartyIds, create_character, bootstrap}
use dnd_inventory.Reducer.Action.{Action}
use dnd_inventory.Reducer.Actions.{reduce}
use dnd_inventory.Reducer.Actions.Invariant.{StateIsSound}
use dnd_inventory.Reducer.Actions.Newcomers.{IdsAreDistinct}
use dnd_inventory.Reducer.Actions.Preserved.{HasNewIds, reduce-StateIsSound}
use dnd_inventory.Reducer.Actions.Moves.{Moves, rest, move, IsKept, Moves-IsKept}
use dnd_inventory.Reducer.Actions.Wealth.{wealth, with_copper, reduce-Promise}
use dnd_inventory.Reducer.Actions.Runs.{Run, stay, step, Run-StateIsSound}
use dnd_inventory.Tests.Data.{context, success}

abbrev newcomer : NewCharacter
newcomer = record {
  id = 20;
  inventory_stash_id = 10;
  holding_id = 50;
  name = codes "Brakka";
  species = codes "Dwarf";
  size = medium;
  class = codes "Fighter";
  level = 3;
  str = 14;
}

abbrev beginning : CreatePayload
beginning = record {
  party_name = some (codes "The Company");
  new_user_id = some 1;
  new_party_id = some 100;
  new_party_stash_id = some 13;
  new_loot_stash_id = some 12;
  new_party_stash_currency_id = some 53;
  new_loot_currency_id = some 52;
  character = some newcomer;
}

abbrev founded : ReducerResult
founded = success (create_character context none beginning)

abbrev ids_of : PartyIds
ids_of = record {
  user = 1;
  party = 100;
  party_stash = 13;
  loot = 12;
  party_holding = 53;
  loot_holding = 52;
}

beginning-IdsAreDistinct : IdsAreDistinct ids_of (some newcomer)
beginning-IdsAreDistinct = record { shared = omega arith; own = λ c e. ground arith }

beginning-HasNewIds : HasNewIds context none (Action.create_character beginning)
beginning-HasNewIds = λ ids e.
    done {P = IdsAreDistinct ids (some newcomer)} e
      λ same. subst (λ k. IdsAreDistinct k (some newcomer)) same beginning-IdsAreDistinct

abbrev reward : Currency
reward = record zero_currency { gp = pos 5 }

abbrev rewarded : ReducerResult
rewarded = success (currency_change (some founded.state) 10 reward ChangeReason.deposit)

abbrev deleted : ReducerResult
deleted = success (delete_character context (some rewarded.state) 20)

three_steps : Run none (some deleted.state)
unfolding reduce create_character bootstrap currency_change delete_character cascade_character ◌+ℤ◌
    add
three_steps =
    step context (Action.delete_character 20) deleted
      (step context (Action.currency_change 10 reward ChangeReason.deposit) rewarded
        (step context (Action.create_character beginning) founded stay beginning-HasNewIds refl) tt
        refl)
      tt refl

Run-StateIsSound_example : StateIsSound deleted.state
Run-StateIsSound_example = Run-StateIsSound deleted.state three_steps

founded-StateIsSound : StateIsSound founded.state
unfolding reduce create_character bootstrap
founded-StateIsSound =
    reduce-StateIsSound context none (Action.create_character beginning) founded tt
      beginning-HasNewIds refl

abbrev opened : ReducerResult
opened = success (create_shop context (some founded.state) (codes "The Wick") 90)

reduce-StateIsSound_example : StateIsSound opened.state
unfolding reduce create_shop create_character bootstrap
reduce-StateIsSound_example =
    reduce-StateIsSound context (some founded.state) (Action.create_shop (codes "The Wick") 90)
      opened founded-StateIsSound tt refl

-- The coins go to the Party Stash, and the character is deleted.
rewarded-StateIsSound : StateIsSound rewarded.state
unfolding reduce create_character bootstrap currency_change ◌+ℤ◌ add
rewarded-StateIsSound = Run-StateIsSound rewarded.state (
    step context (Action.currency_change 10 reward ChangeReason.deposit) rewarded
      (step context (Action.create_character beginning) founded stay beginning-HasNewIds refl) tt
      refl)

abbrev stored : ReducerResult
stored = success (currency_transfer (some rewarded.state) 10 13 reward)

abbrev dissolved : ReducerResult
dissolved = success (delete_character context (some stored.state) 20)

two_moves : Moves rewarded.state dissolved.state
unfolding reduce currency_transfer delete_character cascade_character create_character bootstrap
    currency_change ◌+ℤ◌ ◌-ℤ◌ add subtract
two_moves =
    move context (Action.delete_character 20) dissolved
      (move context (Action.currency_transfer 10 13 reward) stored rest tt refl refl) tt refl refl

Moves-IsKept_example : IsKept rewarded.state dissolved.state
Moves-IsKept_example = Moves-IsKept two_moves rewarded-StateIsSound

reduce-Promise_example :
    wealth rewarded.state ≡ with_copper (to_copper (full reward)) (wealth founded.state)
unfolding reduce currency_change create_character bootstrap ◌+ℤ◌ add
reduce-Promise_example =
    reduce-Promise context founded.state rewarded founded-StateIsSound
      (Action.currency_change 10 reward ChangeReason.deposit) tt refl refl
