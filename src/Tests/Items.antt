-- ===== src/Tests/Items.antt =====
-- The movements of items.
use dnd_inventory.Prelude.{◌≡◌, refl, arith, false, none, some, find, find_row}
use dnd_inventory.Rules.Capacity.{heavy_threshold}
use dnd_inventory.Rules.Capacity.Bands.{is_heavy}
use dnd_inventory.Rules.Weight.{container_aware_weight, total_from}
use dnd_inventory.State.{ItemInstance, item_id}
use dnd_inventory.State.Log.{AcquireSource, keep}
use dnd_inventory.Reducer.Shared.{ReducerResult, check_hard_mode, hard_mode_character}
use dnd_inventory.Reducer.Counts.{IsMoved}
use dnd_inventory.Reducer.Acquire.{
  AcquirePayload, acquire, place_acquired, next_container_notes, stacks,
}
use dnd_inventory.Reducer.Acquire.Placing.{IsPlaced}
use dnd_inventory.Reducer.Acquire.Quantities.{IsAcquired, acquire-IsAcquired}
use dnd_inventory.Reducer.Acquire.Tags.{next_container_notes-fresh}
use dnd_inventory.Reducer.Stacks.{consume, split}
use dnd_inventory.Reducer.Stacks.Quantities.{IsConsumed, consume-IsConsumed, IsSplit, split-IsSplit}
use dnd_inventory.Reducer.Transfer.{TransferPayload, transfer, place_moved, stacked_items}
use dnd_inventory.Reducer.Transfer.Quantities.{transfer-IsMoved}
use dnd_inventory.Reducer.Stashes.{delete_stash}
use dnd_inventory.Reducer.Stashes.Deletion.{IsDeleted, delete_stash-IsDeleted}
use dnd_inventory.Reducer.HardMode.{load_of, acquire-light, transfer-light}
use dnd_inventory.Prelude.Decimal.{IsExact}
use dnd_inventory.Tests.Data.{
  exactly, context, campaign, hero, success, campaign-ItemsAreSound, campaign-IsSound,
}

-- Three of five torches go from the Inventory onto the stack in the chest.
abbrev torches : TransferPayload
torches = record {
  item_instance_id = 31;
  to_stash_id = 14;
  quantity = 3;
  to_container_instance_id = keep;
  new_item_instance_id = 70;
}

abbrev stored : ReducerResult
stored = success (transfer context (some campaign) torches)

transfer-IsMoved_example :
    IsMoved campaign.items stored.state.items
    × (stored.state ≡ record campaign { items = stored.state.items })
unfolding transfer place_moved stacked_items check_hard_mode hard_mode_character
transfer-IsMoved_example =
    transfer-IsMoved context campaign torches stored campaign-ItemsAreSound (ground arith) refl

-- The two of the chest go back to the Inventory of the character 20.
abbrev returned_torches : TransferPayload
returned_torches = record torches { item_instance_id = 32; to_stash_id = 10; quantity = 2 }

abbrev fetched : ReducerResult
fetched = success (transfer context (some campaign) returned_torches)

transfer-light_example : is_heavy (load_of campaign fetched.state.items 10 (hero 20 10)) ≡ false
unfolding transfer place_moved stacked_items check_hard_mode hard_mode_character heavy_threshold
    container_aware_weight total_from
transfer-light_example =
    transfer-light context campaign returned_torches (hero 20 10) fetched refl refl

-- Ten torches are found and taken to the Inventory.
abbrev found_torches : AcquirePayload
found_torches = record {
  stash_id = 10;
  definition_id = 41;
  quantity = 10;
  source = AcquireSource.hoard;
  notes = none;
  new_item_instance_id = 71;
}

abbrev acquired : ReducerResult
acquired = success (acquire context (some campaign) found_torches)

acquire-IsAcquired_example :
    IsAcquired 41 10 campaign.items acquired.state.items
    × (acquired.state ≡ record campaign { items = acquired.state.items })
    × IsPlaced found_torches.stash_id 41 10 campaign.items acquired.state.items
unfolding acquire place_acquired check_hard_mode hard_mode_character heavy_threshold
    container_aware_weight total_from
acquire-IsAcquired_example =
    acquire-IsAcquired context campaign found_torches acquired campaign-ItemsAreSound (ground arith)
      refl

acquire-light_example : is_heavy (load_of campaign acquired.state.items 10 (hero 20 10)) ≡ false
unfolding acquire place_acquired check_hard_mode hard_mode_character heavy_threshold
    container_aware_weight total_from
acquire-light_example = acquire-light context campaign found_torches (hero 20 10) acquired refl refl

exactly-IsExact : IsExact exactly
exactly-IsExact n h = (refl, refl)

next_container_notes-fresh_example :
    find (stacks 10 42 (some (next_container_notes exactly campaign.items 42 10))) campaign.items
    ≡ none
next_container_notes-fresh_example =
    next_container_notes-fresh exactly campaign.items 42 10 exactly-IsExact (omega arith)

abbrev burnt : ReducerResult
burnt = success (consume (some campaign) 31 5)

consume-IsConsumed_example :
    (row : ItemInstance) × (find_row item_id 31 campaign.items ≡ some row)
    × IsConsumed row 5 campaign.items burnt.state.items
    × (burnt.state ≡ record campaign { items = burnt.state.items })
unfolding consume
consume-IsConsumed_example = consume-IsConsumed campaign 31 5 burnt campaign-ItemsAreSound refl

abbrev parted : ReducerResult
parted = success (split context (some campaign) 31 2 72)

split-IsSplit_example :
    (source : ItemInstance) × (find_row item_id 31 campaign.items ≡ some source)
    × IsSplit source 2 72 campaign.items parted.state.items
    × (parted.state ≡ record campaign { items = parted.state.items })
unfolding split
split-IsSplit_example =
    split-IsSplit context campaign 31 2 72 parted campaign-ItemsAreSound (ground arith) refl

abbrev emptied : ReducerResult
emptied = success (delete_stash context (some campaign) 14)

delete_stash-IsDeleted_example : IsDeleted campaign 14 emptied.state
unfolding delete_stash
delete_stash-IsDeleted_example =
    delete_stash-IsDeleted context campaign 14 _ emptied campaign-ItemsAreSound campaign-IsSound
      refl refl refl
