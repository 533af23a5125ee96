-- ===== src/Tests/Flags.antt =====
-- Equipping and attuning.
use dnd_inventory.Prelude.{◌≡◌, ◌≤◌, refl, arith, true, false, none, some, find_row}
use dnd_inventory.State.{Character, character_id}
use dnd_inventory.Reducer.Shared.{ReducerResult}
use dnd_inventory.Reducer.Flags.{
  EquipPayload, equip_or_unequip, AttunePayload, attune_or_unattune, attuned_count,
}
use dnd_inventory.Reducer.Flags.Singles.{
  FlaggedAreSingle, equip_or_unequip-FlaggedAreSingle, attune_or_unattune-FlaggedAreSingle,
}
use dnd_inventory.Reducer.Flags.Slots.{attune-slots}
use dnd_inventory.Tests.Data.{context, campaign, success, campaign-ItemsAreSound}

-- One of two rings is put on, so that the row is split.
abbrev put_on : EquipPayload
put_on = record {
  item_instance_id = 30;
  character_id = 20;
  slot = none;
  new_item_instance_id = some 73;
}

abbrev wearing : ReducerResult
wearing = success (equip_or_unequip context (some campaign) true put_on)

singles : FlaggedAreSingle campaign.items
singles = ground arith

equip_or_unequip-FlaggedAreSingle_example : FlaggedAreSingle wearing.state.items
unfolding equip_or_unequip
equip_or_unequip-FlaggedAreSingle_example =
    equip_or_unequip-FlaggedAreSingle context campaign true put_on wearing campaign-ItemsAreSound
      singles refl

abbrev attune_one : AttunePayload
attune_one = record {
  item_instance_id = 30;
  character_id = 20;
  override_cap = false;
  new_item_instance_id = some 73;
}

abbrev bound : ReducerResult
bound = success (attune_or_unattune context (some campaign) true attune_one)

attune_or_unattune-FlaggedAreSingle_example : FlaggedAreSingle bound.state.items
unfolding attune_or_unattune
attune_or_unattune-FlaggedAreSingle_example =
    attune_or_unattune-FlaggedAreSingle context campaign true attune_one bound
      campaign-ItemsAreSound singles refl

attune-slots_example :
    (character : Character) × (find_row character_id 20 campaign.characters ≡ some character)
    × (attuned_count character.inventory_stash_id bound.state.items ≤ character.max_attunement)
unfolding attune_or_unattune
attune-slots_example =
    attune-slots context campaign attune_one bound campaign-ItemsAreSound refl refl
