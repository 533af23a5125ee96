-- ===== src/State.antt =====
-- packages/shared/src/schemas: the application state. Ids are strings that the code only compares
-- (and sorts, see `Context`): numbers stand for them. Times and names are texts. The JSON
-- `conditionOverrides` of an item, the constants `version` and `ownerType`, and the `log`, which
-- the reducer does not touch, are left out.
pub mod Log
use dnd_inventory.Prelude.Decimal.{Whole}
use dnd_inventory.Prelude.{ℕ, Bool, true, false, Option, none, some, List, ℤ}
use dnd_inventory.Prelude.Text.{Text}
use dnd_inventory.Rules.Currency.{Denom, Currency}
use dnd_inventory.Rules.Capacity.{CreatureSize, EncumbranceRule}
use dnd_inventory.Rules.Charges.{ChargeSpec}
use dnd_inventory.Rules.Pricing.{Numbers, ItemSource}

pub record ItemInstance : Type 0 where
  pub id : ℕ
  pub definition_id : ℕ
  pub owner_id : ℕ
  pub container_instance_id : Option ℕ
  pub quantity : ℕ
  pub equipped : Bool
  pub attuned : Bool
  pub identified : Bool
  pub hint : Option Text
  pub current_charges : Option ℕ
  pub custom_name : Option Text
  pub notes : Option Text

pub data ItemCategory : Type 0 where
  weapon armor gear tool ammunition consumable magic currency container other : ItemCategory

pub data Rarity : Type 0 where
  common uncommon rare very_rare legendary artifact : Rarity

-- `amount` need not be whole: it is a number of `Numbers`.
pub record Cost : Type 0 where
  pub amount : ℕ
  pub currency : Denom

-- `weight` is in hundredths of a pound.
pub record ItemDefinition : Type 0 where
  pub id : ℕ
  pub name : Text
  pub source : ItemSource
  pub category : ItemCategory
  pub weight : Option ℕ
  pub flat_weight : Option Bool
  pub cost : Option Cost
  pub description : Option Text
  pub tags : Option (List Text)
  pub rarity : Option (Option Rarity)
  pub requires_attunement : Option Bool
  pub attunement_prereq : Option Text
  pub charges : Option ChargeSpec
  pub duplicated_from_id : Option ℕ
  pub created_by : Option ℕ
  pub party_id : Option ℕ

pub data Scope : Type 0 where
  character party recovered_loot : Scope

pub record Stash : Type 0 where
  pub id : ℕ
  pub scope : Scope
  pub name : Text
  pub owner_character_id : Option ℕ
  pub party_id : Option ℕ
  pub is_carried : Bool
  pub created_at : Text

-- The five denominations are one field, `coins`.
pub record CurrencyHolding : Type 0 where
  pub id : ℕ
  pub stash_id : ℕ
  pub coins : Currency

pub data WishlistEntry : Type 0 where
  catalog : ℕ → ℕ → WishlistEntry
  text : ℕ → Text → WishlistEntry

pub record Character : Type 0 where
  pub id : ℕ
  pub party_id : ℕ
  pub owner_user_id : ℕ
  pub name : Text
  pub species : Text
  pub size : CreatureSize
  pub class : Text
  pub level : ℕ
  pub str : ℕ
  pub max_attunement : ℕ
  pub inventory_stash_id : ℕ
  pub wishlist : List WishlistEntry

pub data Role : Type 0 where
  dm player : Role

pub record Membership : Type 0 where
  pub user_id : ℕ
  pub party_id : ℕ
  pub role : Role
  pub character_id : Option ℕ
  pub joined_at : Text
  pub left_at : Option Text

-- `price_modifier` is a number of `Numbers`.
pub record Party : Type 0 where
  pub id : ℕ
  pub name : Text
  pub owner_user_id : ℕ
  pub invite_code : Text
  pub recovered_loot_stash_id : ℕ
  pub banker_user_id : Option ℕ
  pub encumbrance_rule : EncumbranceRule
  pub enforce_encumbrance : Bool
  pub price_modifier : ℕ
  pub base_currency : Denom
  pub created_at : Text

pub record GameSession : Type 0 where
  pub id : ℕ
  pub party_id : ℕ
  pub number : ℕ
  pub date : Text
  pub notes : Option Text
  pub is_current : Bool
  pub created_at : Text

-- A quantity of -1 is unlimited stock.
pub record ShopStockEntry : Type 0 where
  pub id : ℕ
  pub item_definition_id : ℕ
  pub price_override : Option ℕ
  pub quantity : ℤ

-- `price_modifier` and `sell_to_merchant_rate` are numbers of `Numbers`.
pub record Shop : Type 0 where
  pub id : ℕ
  pub party_id : ℕ
  pub name : Text
  pub price_modifier : ℕ
  pub sell_to_merchant_rate : ℕ
  pub is_open : Bool
  pub stock : List ShopStockEntry
  pub created_at : Text

-- `user_id` is `user.id`, all that the reducer reads of the user.
pub record State : Type 0 where
  pub seed_version : ℕ
  pub user_id : ℕ
  pub party : Party
  pub memberships : List Membership
  pub characters : List Character
  pub game_sessions : List GameSession
  pub stashes : List Stash
  pub shops : List Shop
  pub catalog : List ItemDefinition
  pub items : List ItemInstance
  pub currencies : List CurrencyHolding

-- `null` before the first character is created.
abbrev pub AppState : Type 0
AppState = Option State

-- The keys by which rows are searched.
abbrev pub item_id : ItemInstance → ℕ
item_id i = i.id

abbrev pub stash_id : Stash → ℕ
stash_id st = st.id

abbrev pub holding_stash : CurrencyHolding → ℕ
holding_stash c = c.stash_id

abbrev pub definition_id : ItemDefinition → ℕ
definition_id d = d.id

abbrev pub character_id : Character → ℕ
character_id c = c.id

abbrev pub wish_id : WishlistEntry → ℕ
wish_id (WishlistEntry.catalog id _) = id
wish_id (WishlistEntry.text id _) = id

abbrev pub shop_id : Shop → ℕ
shop_id sh = sh.id

abbrev pub entry_id : ShopStockEntry → ℕ
entry_id e = e.id

abbrev pub scope_is_character : Scope → Bool
scope_is_character Scope.character = true
scope_is_character _ = false

abbrev pub scope_is_party : Scope → Bool
scope_is_party Scope.party = true
scope_is_party _ = false

abbrev pub scope_is_recovered_loot : Scope → Bool
scope_is_recovered_loot Scope.recovered_loot = true
scope_is_recovered_loot _ = false

abbrev pub is_dm : Role → Bool
is_dm Role.dm = true
is_dm Role.player = false

abbrev pub is_player : Role → Bool
is_player Role.dm = false
is_player Role.player = true

-- What a call of the reducer takes from outside: the UUID test of the `uuid` package, the order of
-- ids by `localeCompare`, the time, an invite code, and JavaScript's arithmetic.
pub record Context : Type 0 where
  pub is_valid_uuid_v7 : ℕ → Bool
  pub locale_le : ℕ → ℕ → Bool
  pub now : Text
  pub new_invite_code : Text
  pub numbers : Numbers
  pub whole : Whole
