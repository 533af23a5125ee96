-- ===== src/State/Log.antt =====
-- packages/shared/src/schemas/transactionLog.ts: the slices `{ type, payload }` that the reducer
-- returns for the log, one constructor for each type, its arguments in the payload's order.
use dnd_inventory.Prelude.{ℕ, Bool, Option, List, ℤ}
use dnd_inventory.Prelude.Text.{Text}
use dnd_inventory.Rules.Currency.{Denom, Currency}
use dnd_inventory.Rules.Capacity.{EncumbranceRule}
use dnd_inventory.Rules.Charges.{BatchRechargeTrigger}

pub data AcquireSource : Type 0 where
  hoard purchase custom_create duplicate catalog_add : AcquireSource

pub data ChangeReason : Type 0 where
  deposit withdraw convert gameplay_drain stash_deleted character_deleted : ChangeReason

pub data ItemField : Type 0 where
  custom_name notes equipped attuned : ItemField

-- The fields of a character that `edit-character` may change.
pub data CharacterField : Type 0 where
  species class level str max_attunement : CharacterField

-- The fields of a homebrew definition that `edit-homebrew` may change.
pub data HomebrewField : Type 0 where
  name category weight cost description tags : HomebrewField
  rarity requires_attunement attunement_prereq : HomebrewField

pub data WishlistKind : Type 0 where
  catalog text : WishlistKind

pub data ShopField : Type 0 where
  name price_modifier sell_to_merchant_rate : ShopField

-- The operation of an `edit-shop-stock` entry. A price that is `null` is `none`.
pub data StockChange : Type 0 where
  added : (entry definition : ℕ) (price : Option ℕ) (quantity : ℤ) → StockChange
  updated :
      (entry definition : ℕ) (old_price new_price : Option ℕ) (old_quantity new_quantity : ℤ)
      → StockChange
  removed : (entry definition : ℕ) → StockChange

pub data RevokeReason : Type 0 where
  manual reassigned left_party kicked dm_transfer : RevokeReason

-- `none` is the trigger `manual`.
abbrev pub RechargeTrigger : Type 0
RechargeTrigger = Option BatchRechargeTrigger

-- `{ shopId, stockEntryId, itemDefinitionId, itemInstanceId, stashId, quantity, unitCp, totalCp }`,
-- of a `purchase` and of a `sale`.
pub record Trade : Type 0 where
  pub shop : ℕ
  pub entry : ℕ
  pub definition : ℕ
  pub item : ℕ
  pub stash : ℕ
  pub quantity : ℕ
  pub unit_cp : ℕ
  pub total_cp : ℕ

-- `toContainerInstanceId?: string | null`: absent, null or an id.
pub data ParentChange : Type 0 where
  keep take_out : ParentChange
  pack_into : ℕ → ParentChange

-- The character, its name and its Inventory are absent from the entry of a DM without a character.
pub data LogSlice : Type 0 where
  acquire : (stash item definition quantity : ℕ) → AcquireSource → LogSlice
  consume : (stash item quantity : ℕ) (removed : Bool) → LogSlice
  seed_catalog : (version : ℕ) (added updated : List ℕ) → LogSlice
  edit_item_instance : (item : ℕ) → List ItemField → LogSlice
  create_stash : (stash : ℕ) (name : Text) (owner : ℕ) → LogSlice
  rename_stash : (stash : ℕ) (old_name new_name : Text) → LogSlice
  delete_stash :
      (stash : ℕ) (name : Text) (item_count : ℕ) (total_cp : ℤ) (owner : Option ℕ) → LogSlice
  currency_change : (stash : ℕ) → Currency → ChangeReason → LogSlice
  transfer : (item quantity from_stash to_stash : ℕ) → ParentChange → LogSlice
  split : (source new_item quantity stash : ℕ) → LogSlice
  currency_transfer : (from_stash to_stash : ℕ) → Currency → LogSlice
  rename_character : (character : ℕ) (old_name new_name : Text) → LogSlice
  rename_party : (party : ℕ) (old_name new_name : Text) → LogSlice
  set_encumbrance :
      (party : ℕ) (old_rule new_rule : EncumbranceRule) (old_enforce new_enforce : Bool) → LogSlice
  equip unequip : (item character : ℕ) (slot : Option Text) → LogSlice
  attune : (item character : ℕ) (override_cap : Bool) → LogSlice
  unattune : (item character : ℕ) → LogSlice
  use_charge : (item character amount : ℕ) → LogSlice
  recharge : (item character before after : ℕ) → RechargeTrigger → LogSlice
  identify :
      (item : ℕ) (old_identified new_identified : Bool) (old_hint new_hint : Option Text) → LogSlice
  leave_party : (party : ℕ) (character : Option ℕ) → LogSlice
  kick_player : (user : ℕ) → LogSlice
  join_party : (party : ℕ) → LogSlice
  appoint_banker : (user : ℕ) → LogSlice
  revoke_banker : RevokeReason → LogSlice
  dm_transfer : (old_dm new_dm : ℕ) → LogSlice
  split_evenly : (from_stash : ℕ) → List ℕ → (share remainder : Currency) → LogSlice
  start_game_session : (session number : ℕ) (date : Text) → LogSlice
  end_game_session : (session number : ℕ) → LogSlice
  edit_game_session_notes : (session number : ℕ) (old_notes new_notes : Text) → LogSlice
  delete_character : (character : ℕ) (name : Text) (item_count : ℕ) (total_cp : ℤ) → LogSlice
  create_character : (user party party_stash loot_stash : ℕ) → Option (ℕ × Text × ℕ) → LogSlice
  edit_character : (character : ℕ) → List CharacterField → LogSlice
  wishlist_add : (character entry : ℕ) → WishlistKind → (label : Text) → LogSlice
  wishlist_remove : (character entry : ℕ) → LogSlice
  update_party_economy :
      (party old_modifier new_modifier : ℕ) (old_base new_base : Denom) → LogSlice
  create_shop delete_shop : (shop : ℕ) (name : Text) → LogSlice
  edit_shop : (shop : ℕ) → List ShopField → LogSlice
  set_shop_open : (shop : ℕ) (is_open : Bool) → LogSlice
  edit_shop_stock : (shop : ℕ) → StockChange → LogSlice
  purchase sale : Trade → LogSlice
  create_homebrew delete_homebrew : (definition : ℕ) (name : Text) → LogSlice
  edit_homebrew : (definition : ℕ) → List HomebrewField → LogSlice
