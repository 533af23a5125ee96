-- ===== src/Reducer/Actions/Preserved.antt =====
-- That `reduce` keeps a state sound, whatever the action.
use dnd_inventory.Prelude.{◌<◌, ◌≡◌, true, false, none, some, Absent, All}
use dnd_inventory.Result.{ok}
use dnd_inventory.State.{State, AppState, Context, Shop, item_id, stash_id, holding_stash, entry_id}
use dnd_inventory.Reducer.Shared.{ReducerResult}
use dnd_inventory.Reducer.Action.{Action}
use dnd_inventory.Reducer.Actions.{reduce}
use dnd_inventory.Reducer.Actions.Invariant.{StateIsSound}
use dnd_inventory.Reducer.Actions.Goods.{
  acquire-StateIsSound, consume-StateIsSound, split-StateIsSound, transfer-StateIsSound,
  equip-StateIsSound, attune-StateIsSound, edit_item_instance-StateIsSound, identify-StateIsSound,
  identify_batch-StateIsSound, spend_charge-StateIsSound, recharge_single-StateIsSound,
  recharge_batch-StateIsSound,
}
use dnd_inventory.Reducer.Actions.Holdings.{
  currency_change-StateIsSound, currency_transfer-StateIsSound, split_evenly_action-StateIsSound,
  create_stash-StateIsSound, rename_stash-StateIsSound,
}
use dnd_inventory.Reducer.Actions.Removals.{
  delete_stash-StateIsSound, delete_character-StateIsSound, leave_party-StateIsSound,
  kick_player-StateIsSound,
}
use dnd_inventory.Reducer.Actions.People.{
  appoint_banker-StateIsSound, revoke_banker-StateIsSound, dm_transfer-StateIsSound,
  join_party-StateIsSound,
}
use dnd_inventory.Reducer.Actions.Newcomers.{create_in_party-StateIsSound, IdsAreDistinct}
use dnd_inventory.Reducer.Actions.Newcomers.{bootstrap-StateIsSound}
use dnd_inventory.Reducer.Actions.Trading.{
  create_shop-StateIsSound, edit_shop-StateIsSound, delete_shop-StateIsSound,
  set_shop_open-StateIsSound, purchase-StateIsSound, sale-StateIsSound,
}
use dnd_inventory.Reducer.Actions.Stocking.{edit_shop_stock-StateIsSound}
use dnd_inventory.Reducer.Actions.Rest.{
  start_game_session-StateIsSound, end_game_session-StateIsSound,
  edit_game_session_notes-StateIsSound, rename_party-StateIsSound, set_encumbrance-StateIsSound,
  update_party_economy-StateIsSound, rename_character-StateIsSound, edit_character-StateIsSound,
  wishlist_add-StateIsSound, wishlist_remove-StateIsSound, seed_catalog-StateIsSound,
  create_homebrew-StateIsSound, edit_homebrew-StateIsSound, delete_homebrew-StateIsSound,
}
use dnd_inventory.Reducer.Acquire.{acquire}
use dnd_inventory.Reducer.Stacks.{consume, edit_item_instance, split}
use dnd_inventory.Reducer.Transfer.{transfer}
use dnd_inventory.Reducer.Money.{currency_change, currency_transfer, split_evenly_action}
use dnd_inventory.Reducer.Stashes.{create_stash, rename_stash, delete_stash}
use dnd_inventory.Reducer.Flags.{equip_or_unequip, attune_or_unattune}
use dnd_inventory.Reducer.ChargeActions.{spend_charge, recharge_single, recharge_batch}
use dnd_inventory.Reducer.Identify.{identify, identify_batch}
use dnd_inventory.Reducer.Sessions.{start_game_session, end_game_session, edit_game_session_notes}
use dnd_inventory.Reducer.Members.{appoint_banker, revoke_banker, dm_transfer}
use dnd_inventory.Reducer.Departures.{leave_party, kick_player, join_party}
use dnd_inventory.Reducer.Cascade.{delete_character}
use dnd_inventory.Reducer.Characters.Sheet.{
  rename_character, edit_character, wishlist_add, wishlist_remove,
}
use dnd_inventory.Reducer.Settings.{rename_party, set_encumbrance, update_party_economy}
use dnd_inventory.Reducer.Shops.{
  create_shop, edit_shop, delete_shop, set_shop_open, edit_shop_stock,
}
use dnd_inventory.Reducer.Shops.Trade.{purchase, sale}
use dnd_inventory.Reducer.Catalog.{seed_catalog, create_homebrew, edit_homebrew, delete_homebrew}
use dnd_inventory.Reducer.Flags.Flips.{Fresh}
use dnd_inventory.Reducer.Sessions.{session_id}
use dnd_inventory.Reducer.Characters.{NewCharacter}
use dnd_inventory.Reducer.Characters.Founding.{PartyIds, party_ids, create_character}

abbrev pub AppIsSound : AppState → Type 0
AppIsSound none = Unit
AppIsSound (some s) = StateIsSound s

-- The new ids of an action are of nothing there is, and a trade is of one or more.
abbrev pub NewIn : State → Action → Type 0
NewIn s (Action.create_character p) =
    (c : NewCharacter)
    → p.character ≡ some c
    → Absent stash_id c.inventory_stash_id s.stashes
      × Absent holding_stash c.inventory_stash_id s.currencies
NewIn s (Action.acquire p) = Absent item_id p.new_item_instance_id s.items
NewIn s (Action.create_stash _ _ new_stash _) =
    Absent stash_id new_stash s.stashes × Absent holding_stash new_stash s.currencies
NewIn s (Action.transfer p) = Absent item_id p.new_item_instance_id s.items
NewIn s (Action.split _ _ new_item) = Absent item_id new_item s.items
NewIn s (Action.equip p) = Fresh p.new_item_instance_id s.items
NewIn s (Action.unequip p) = Fresh p.new_item_instance_id s.items
NewIn s (Action.attune p) = Fresh p.new_item_instance_id s.items
NewIn s (Action.unattune p) = Fresh p.new_item_instance_id s.items
NewIn s (Action.purchase p) = Absent item_id p.new_item_instance_id s.items × (0 < p.quantity)
NewIn s (Action.sale p) =
    All (λ (sh : Shop). Absent entry_id p.new_stock_entry_id sh.stock) s.shops × (0 < p.quantity)
NewIn s (Action.start_game_session p) = Absent session_id p.new_game_session_id s.game_sessions
NewIn s _ = Unit

abbrev pub HasNewIds : Context → AppState → Action → Type 0
HasNewIds ctx (some s) a = NewIn s a
HasNewIds ctx none (Action.create_character p) =
    (ids : PartyIds) → party_ids ctx p ≡ ok ids → IdsAreDistinct ids p.character
HasNewIds ctx none _ = Unit

module _ (ctx : Context) (s : State) (r : ReducerResult) (w : StateIsSound s) where
  step-StateIsSound : (a : Action) → NewIn s a → reduce ctx (some s) a ≡ ok r → StateIsSound r.state
  unfolding reduce create_character
  step-StateIsSound (Action.create_character p) new h =
      create_in_party-StateIsSound ctx s p r w new h
  step-StateIsSound (Action.acquire p) new h = acquire-StateIsSound ctx s r w p new h
  step-StateIsSound (Action.consume item quantity) new h =
      consume-StateIsSound ctx s r w item quantity h
  step-StateIsSound (Action.seed_catalog version entries) new h =
      seed_catalog-StateIsSound ctx s r w version entries h
  step-StateIsSound (Action.edit_item_instance item name notes) new h =
      edit_item_instance-StateIsSound ctx s r w item name notes h
  step-StateIsSound (Action.create_stash name owner new_stash new_holding) new h =
      create_stash-StateIsSound ctx s r w name owner new_stash new_holding new.0 new.1 h
  step-StateIsSound (Action.rename_stash stash name) new h =
      rename_stash-StateIsSound ctx s r w stash name h
  step-StateIsSound (Action.delete_stash stash) new h = delete_stash-StateIsSound s w ctx stash r h
  step-StateIsSound (Action.currency_change stash delta reason) new h =
      currency_change-StateIsSound ctx s r w stash delta reason h
  step-StateIsSound (Action.transfer p) new h = transfer-StateIsSound ctx s r w p new h
  step-StateIsSound (Action.split item quantity new_item) new h =
      split-StateIsSound ctx s r w item quantity new_item new h
  step-StateIsSound (Action.currency_transfer from_stash to_stash delta) new h =
      currency_transfer-StateIsSound ctx s r w from_stash to_stash delta h
  step-StateIsSound (Action.create_homebrew p) new h = create_homebrew-StateIsSound ctx s r w p h
  step-StateIsSound (Action.edit_homebrew definition patch) new h =
      edit_homebrew-StateIsSound ctx s r w definition patch h
  step-StateIsSound (Action.delete_homebrew definition) new h =
      delete_homebrew-StateIsSound ctx s r w definition h
  step-StateIsSound (Action.rename_character character name) new h =
      rename_character-StateIsSound ctx s r w character name h
  step-StateIsSound (Action.rename_party party name) new h =
      rename_party-StateIsSound ctx s r w party name h
  step-StateIsSound (Action.set_encumbrance party rule enforce) new h =
      set_encumbrance-StateIsSound ctx s r w party rule enforce h
  step-StateIsSound (Action.update_party_economy party modifier base) new h =
      update_party_economy-StateIsSound ctx s r w party modifier base h
  step-StateIsSound (Action.create_shop name new_shop) new h =
      create_shop-StateIsSound ctx s r w name new_shop h
  step-StateIsSound (Action.edit_shop shop patch) new h =
      edit_shop-StateIsSound ctx s r w shop patch h
  step-StateIsSound (Action.delete_shop shop) new h = delete_shop-StateIsSound ctx s r w shop h
  step-StateIsSound (Action.set_shop_open shop is_open) new h =
      set_shop_open-StateIsSound ctx s r w shop is_open h
  step-StateIsSound (Action.edit_shop_stock shop operation) new h =
      edit_shop_stock-StateIsSound ctx s r w shop operation h
  step-StateIsSound (Action.purchase p) new h = purchase-StateIsSound ctx s r w p new.0 new.1 h
  step-StateIsSound (Action.sale p) new h = sale-StateIsSound ctx s r w p new.0 new.1 h
  step-StateIsSound (Action.equip p) new h = equip-StateIsSound ctx s r w true p new h
  step-StateIsSound (Action.unequip p) new h = equip-StateIsSound ctx s r w false p new h
  step-StateIsSound (Action.attune p) new h = attune-StateIsSound ctx s r w true p new h
  step-StateIsSound (Action.unattune p) new h = attune-StateIsSound ctx s r w false p new h
  step-StateIsSound (Action.use_charge item character amount) new h =
      spend_charge-StateIsSound ctx s r w item character amount h
  step-StateIsSound (Action.recharge item character amount) new h =
      recharge_single-StateIsSound ctx s r w item character amount h
  step-StateIsSound (Action.recharge_batch character trigger amounts) new h =
      recharge_batch-StateIsSound ctx s r w character trigger amounts h
  step-StateIsSound (Action.identify item identified hint) new h =
      identify-StateIsSound ctx s r w item identified hint h
  step-StateIsSound (Action.identify_batch definition identified hint) new h =
      identify_batch-StateIsSound ctx s r w definition identified hint h
  step-StateIsSound (Action.edit_character character patch) new h =
      edit_character-StateIsSound ctx s r w character patch h
  step-StateIsSound (Action.delete_character character) new h =
      delete_character-StateIsSound s w ctx character r h
  step-StateIsSound (Action.wishlist_add character entry) new h =
      wishlist_add-StateIsSound ctx s r w character entry h
  step-StateIsSound (Action.wishlist_remove character entry) new h =
      wishlist_remove-StateIsSound ctx s r w character entry h
  step-StateIsSound Action.leave_party new h = leave_party-StateIsSound s w ctx r h
  step-StateIsSound Action.join_party new h = join_party-StateIsSound ctx s r w h
  step-StateIsSound (Action.kick_player user) new h = kick_player-StateIsSound s w ctx user r h
  step-StateIsSound (Action.appoint_banker user) new h =
      appoint_banker-StateIsSound ctx s r w user h
  step-StateIsSound (Action.revoke_banker reason) new h =
      revoke_banker-StateIsSound ctx s r w reason h
  step-StateIsSound (Action.dm_transfer user) new h = dm_transfer-StateIsSound ctx s r w user h
  step-StateIsSound (Action.split_evenly pool recipients) new h =
      split_evenly_action-StateIsSound ctx s r w pool recipients h
  step-StateIsSound (Action.start_game_session p) new h =
      start_game_session-StateIsSound ctx s r w p new h
  step-StateIsSound Action.end_game_session new h = end_game_session-StateIsSound ctx s r w h
  step-StateIsSound (Action.edit_game_session_notes session notes) new h =
      edit_game_session_notes-StateIsSound ctx s r w session notes h

-- Without a state only `create-character` does anything.
first-StateIsSound :
    (ctx : Context) (a : Action) (r : ReducerResult)
    → HasNewIds ctx none a
    → reduce ctx none a ≡ ok r
    → StateIsSound r.state
unfolding reduce create_character acquire consume edit_item_instance split transfer currency_change
    currency_transfer split_evenly_action create_stash rename_stash delete_stash equip_or_unequip
    attune_or_unattune spend_charge recharge_single recharge_batch identify identify_batch
    start_game_session end_game_session edit_game_session_notes appoint_banker revoke_banker
    dm_transfer leave_party kick_player join_party delete_character rename_character edit_character
    wishlist_add wishlist_remove rename_party set_encumbrance update_party_economy create_shop
    edit_shop delete_shop set_shop_open edit_shop_stock purchase sale seed_catalog create_homebrew
    edit_homebrew delete_homebrew
first-StateIsSound ctx (Action.create_character p) r new h = bootstrap-StateIsSound ctx p r new h
first-StateIsSound ctx _ r new h = absurd (cc)

-- From no state, or from one that is sound, an action that succeeds, whose new ids are of nothing
-- there is and which trades one item or more if it trades, leads to a state that is sound: item ids
-- are distinct and no row is empty; each stash has at most one holding and none has a negative
-- denomination; stash ids are distinct and Recovered Loot is a stash of that scope; the ids of
-- shops and of their stock are distinct and no quantity in stock is below 0 but -1; session ids are
-- distinct and at most one is current; and the party has an active DM, and a banker only among its
-- active players other than the owner.
pub reduce-StateIsSound :
    (ctx : Context) (state : AppState) (a : Action) (r : ReducerResult)
    → AppIsSound state
    → HasNewIds ctx state a
    → reduce ctx state a ≡ ok r
    → StateIsSound r.state
reduce-StateIsSound ctx none a r w new h = first-StateIsSound ctx a r new h
reduce-StateIsSound ctx (some s) a r w new h = step-StateIsSound ctx s r w a new h
