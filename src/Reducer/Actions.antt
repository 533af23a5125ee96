-- ===== src/Reducer/Actions.antt =====
-- packages/rules/src/reducer/index.ts: `reduce`, over the actions of
-- packages/rules/src/reducer/types.ts.
pub mod Invariant
pub mod Goods
pub mod Holdings
pub mod Removals
pub mod People
pub mod Newcomers
pub mod Trading
pub mod Stocking
pub mod Rest
pub mod Preserved
pub mod Runs
pub mod Moves
pub mod Wealth
use dnd_inventory.Prelude.{ℕ, Bool, true, false, Option, List, ℤ}
use dnd_inventory.Prelude.Text.{Text}
use dnd_inventory.Result.{Result}
use dnd_inventory.Rules.Currency.{Currency, Denom}
use dnd_inventory.Rules.Capacity.{EncumbranceRule}
use dnd_inventory.Rules.Charges.{BatchRechargeTrigger}
use dnd_inventory.State.{AppState, Context, ItemDefinition, WishlistEntry}
use dnd_inventory.State.Log.{ChangeReason, RevokeReason}
use dnd_inventory.Reducer.Action.{Action}
use dnd_inventory.Reducer.Shared.{ReducerResult}
use dnd_inventory.Reducer.Acquire.{AcquirePayload, acquire}
use dnd_inventory.Reducer.Stacks.{Patch, consume, edit_item_instance, split}
use dnd_inventory.Reducer.Transfer.{TransferPayload, transfer}
use dnd_inventory.Reducer.Money.{currency_change, currency_transfer, split_evenly_action}
use dnd_inventory.Reducer.Stashes.{create_stash, rename_stash, delete_stash}
use dnd_inventory.Reducer.Flags.{EquipPayload, AttunePayload, equip_or_unequip, attune_or_unattune}
use dnd_inventory.Reducer.ChargeActions.{spend_charge, recharge_single, recharge_batch}
use dnd_inventory.Reducer.Identify.{identify, identify_batch}
use dnd_inventory.Reducer.Sessions.{
  StartPayload, start_game_session, end_game_session, edit_game_session_notes,
}
use dnd_inventory.Reducer.Members.{appoint_banker, revoke_banker, dm_transfer}
use dnd_inventory.Reducer.Departures.{leave_party, kick_player, join_party}
use dnd_inventory.Reducer.Cascade.{delete_character}
use dnd_inventory.Reducer.Characters.{CreatePayload}
use dnd_inventory.Reducer.Characters.Founding.{create_character}
use dnd_inventory.Reducer.Characters.Sheet.{
  CharacterPatch, rename_character, edit_character, wishlist_add, wishlist_remove,
}
use dnd_inventory.Reducer.Settings.{rename_party, set_encumbrance, update_party_economy}
use dnd_inventory.Reducer.Shops.{
  ShopPatch, StockOperation, create_shop, edit_shop, delete_shop, set_shop_open, edit_shop_stock,
}
use dnd_inventory.Reducer.Shops.Trade.{PurchasePayload, SalePayload, purchase, sale}
use dnd_inventory.Reducer.Catalog.{
  HomebrewPayload, HomebrewPatch, seed_catalog, create_homebrew, edit_homebrew, delete_homebrew,
}

unfoldable pub reduce : Context → AppState → Action → Result ReducerResult
reduce ctx state (Action.create_character p) = create_character ctx state p
reduce ctx state (Action.acquire p) = acquire ctx state p
reduce ctx state (Action.consume item quantity) = consume state item quantity
reduce ctx state (Action.seed_catalog version entries) = seed_catalog state version entries
reduce ctx state (Action.edit_item_instance item name notes) =
    edit_item_instance state item name notes
reduce ctx state (Action.create_stash name owner new_stash new_holding) =
    create_stash ctx state name owner new_stash new_holding
reduce ctx state (Action.rename_stash stash name) = rename_stash state stash name
reduce ctx state (Action.delete_stash stash) = delete_stash ctx state stash
reduce ctx state (Action.currency_change stash delta reason) =
    currency_change state stash delta reason
reduce ctx state (Action.transfer p) = transfer ctx state p
reduce ctx state (Action.split item quantity new_item) = split ctx state item quantity new_item
reduce ctx state (Action.currency_transfer from_stash to_stash delta) =
    currency_transfer state from_stash to_stash delta
reduce ctx state (Action.create_homebrew p) = create_homebrew ctx state p
reduce ctx state (Action.edit_homebrew definition patch) = edit_homebrew state definition patch
reduce ctx state (Action.delete_homebrew definition) = delete_homebrew state definition
reduce ctx state (Action.rename_character character name) = rename_character state character name
reduce ctx state (Action.rename_party party name) = rename_party state party name
reduce ctx state (Action.set_encumbrance party rule enforce) =
    set_encumbrance state party rule enforce
reduce ctx state (Action.update_party_economy party modifier base) =
    update_party_economy state party modifier base
reduce ctx state (Action.create_shop name new_shop) = create_shop ctx state name new_shop
reduce ctx state (Action.edit_shop shop patch) = edit_shop state shop patch
reduce ctx state (Action.delete_shop shop) = delete_shop state shop
reduce ctx state (Action.set_shop_open shop is_open) = set_shop_open state shop is_open
reduce ctx state (Action.edit_shop_stock shop operation) = edit_shop_stock ctx state shop operation
reduce ctx state (Action.purchase p) = purchase ctx state p
reduce ctx state (Action.sale p) = sale ctx state p
reduce ctx state (Action.equip p) = equip_or_unequip ctx state true p
reduce ctx state (Action.unequip p) = equip_or_unequip ctx state false p
reduce ctx state (Action.attune p) = attune_or_unattune ctx state true p
reduce ctx state (Action.unattune p) = attune_or_unattune ctx state false p
reduce ctx state (Action.use_charge item character amount) =
    spend_charge state item character amount
reduce ctx state (Action.recharge item character amount) =
    recharge_single state item character amount
reduce ctx state (Action.recharge_batch character trigger amounts) =
    recharge_batch state character trigger amounts
reduce ctx state (Action.identify item identified hint) = identify state item identified hint
reduce ctx state (Action.identify_batch definition identified hint) =
    identify_batch state definition identified hint
reduce ctx state (Action.edit_character character patch) = edit_character state character patch
reduce ctx state (Action.delete_character character) = delete_character ctx state character
reduce ctx state (Action.wishlist_add character entry) = wishlist_add state character entry
reduce ctx state (Action.wishlist_remove character entry) = wishlist_remove state character entry
reduce ctx state Action.leave_party = leave_party ctx state
reduce ctx state Action.join_party = join_party ctx state
reduce ctx state (Action.kick_player user) = kick_player ctx state user
reduce ctx state (Action.appoint_banker user) = appoint_banker state user
reduce ctx state (Action.revoke_banker reason) = revoke_banker state reason
reduce ctx state (Action.dm_transfer user) = dm_transfer ctx state user
reduce ctx state (Action.split_evenly pool recipients) = split_evenly_action state pool recipients
reduce ctx state (Action.start_game_session p) = start_game_session ctx state p
reduce ctx state Action.end_game_session = end_game_session state
reduce ctx state (Action.edit_game_session_notes session notes) =
    edit_game_session_notes state session notes
