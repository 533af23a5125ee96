-- ===== src/Reducer/Action.antt =====
-- packages/rules/src/reducer/types.ts: the actions.
use dnd_inventory.Prelude.{ℕ, Bool, Option, List}
use dnd_inventory.Prelude.Text.{Text}
use dnd_inventory.Rules.Currency.{Currency, Denom}
use dnd_inventory.Rules.Capacity.{EncumbranceRule}
use dnd_inventory.Rules.Charges.{BatchRechargeTrigger}
use dnd_inventory.State.{ItemDefinition, WishlistEntry}
use dnd_inventory.State.Log.{ChangeReason, RevokeReason}
use dnd_inventory.Reducer.Acquire.{AcquirePayload}
use dnd_inventory.Reducer.Stacks.{Patch}
use dnd_inventory.Reducer.Transfer.{TransferPayload}
use dnd_inventory.Reducer.Flags.{EquipPayload, AttunePayload}
use dnd_inventory.Reducer.Sessions.{StartPayload}
use dnd_inventory.Reducer.Characters.{CreatePayload}
use dnd_inventory.Reducer.Characters.Sheet.{CharacterPatch}
use dnd_inventory.Reducer.Shops.{ShopPatch, StockOperation}
use dnd_inventory.Reducer.Shops.Trade.{PurchasePayload, SalePayload}
use dnd_inventory.Reducer.Catalog.{HomebrewPayload, HomebrewPatch}

-- One constructor for each type of action, its arguments the payload's. A `recharge` has two, for
-- the modes `single` and `manual` and for the mode `batch`.
pub data Action : Type 0 where
  create_character : CreatePayload → Action
  acquire : AcquirePayload → Action
  consume : (item quantity : ℕ) → Action
  seed_catalog : (version : ℕ) → List ItemDefinition → Action
  edit_item_instance : (item : ℕ) (name notes : Patch) → Action
  create_stash : (name : Text) (owner new_stash new_holding : ℕ) → Action
  rename_stash : (stash : ℕ) (name : Text) → Action
  delete_stash : (stash : ℕ) → Action
  currency_change : (stash : ℕ) → Currency → ChangeReason → Action
  transfer : TransferPayload → Action
  split : (item quantity new_item : ℕ) → Action
  currency_transfer : (from_stash to_stash : ℕ) → Currency → Action
  create_homebrew : HomebrewPayload → Action
  edit_homebrew : (definition : ℕ) → HomebrewPatch → Action
  delete_homebrew : (definition : ℕ) → Action
  rename_character : (character : ℕ) (name : Text) → Action
  rename_party : (party : ℕ) (name : Text) → Action
  set_encumbrance : (party : ℕ) → EncumbranceRule → (enforce : Bool) → Action
  update_party_economy : (party modifier : ℕ) → Denom → Action
  create_shop : (name : Text) (new_shop : ℕ) → Action
  edit_shop : (shop : ℕ) → ShopPatch → Action
  delete_shop : (shop : ℕ) → Action
  set_shop_open : (shop : ℕ) (is_open : Bool) → Action
  edit_shop_stock : (shop : ℕ) → StockOperation → Action
  purchase : PurchasePayload → Action
  sale : SalePayload → Action
  equip unequip : EquipPayload → Action
  attune unattune : AttunePayload → Action
  use_charge : (item character : ℕ) (amount : Option ℕ) → Action
  recharge : (item character : ℕ) (amount : Option ℕ) → Action
  recharge_batch : (character : ℕ) → BatchRechargeTrigger → Option (List (ℕ × ℕ)) → Action
  identify : (item : ℕ) (identified : Bool) (hint : Patch) → Action
  identify_batch : (definition : ℕ) (identified : Bool) (hint : Patch) → Action
  edit_character : (character : ℕ) → CharacterPatch → Action
  delete_character : (character : ℕ) → Action
  wishlist_add : (character : ℕ) → WishlistEntry → Action
  wishlist_remove : (character entry : ℕ) → Action
  leave_party join_party : Action
  kick_player : (user : ℕ) → Action
  appoint_banker : (user : ℕ) → Action
  revoke_banker : RevokeReason → Action
  dm_transfer : (user : ℕ) → Action
  split_evenly : (pool : ℕ) (recipients : List ℕ) → Action
  start_game_session : StartPayload → Action
  end_game_session : Action
  edit_game_session_notes : (session : ℕ) (notes : Text) → Action
