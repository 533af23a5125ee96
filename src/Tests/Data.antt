-- ===== src/Tests/Data.antt =====
-- A small campaign: a DM, a player with a character, their stashes, coins and items.
use dnd_inventory.Prelude.Decimal.{Whole, print}
use dnd_inventory.Prelude.{
  ℕ, refl, ◌+◌, ◌*◌, ◌/◌, arith, Bool, true, false, none, some, [], ◌∷◌, pos, leb,
}
use dnd_inventory.Prelude.Text.{Text, codes}
use dnd_inventory.Result.{Result, ok, err}
use dnd_inventory.Rules.Currency.{Currency, Denom, zero_currency}
use dnd_inventory.Rules.Currency.Copper.{IsNonneg}
use dnd_inventory.Rules.Capacity.{phb, medium}
use dnd_inventory.Rules.Pricing.{Numbers, ItemSource}
use dnd_inventory.State.{
  State, Context, Character, Membership, Party, Role, Stash, Scope, CurrencyHolding, ItemInstance,
  ItemDefinition, ItemCategory, GameSession,
}
use dnd_inventory.Reducer.Shared.{ReducerResult}
use dnd_inventory.Reducer.Counts.{ItemsAreSound}
use dnd_inventory.Reducer.Money.Conservation.{IsSound}
use dnd_inventory.Reducer.Cascade.Rollup.{HasLoot}

-- Fixed-point arithmetic in thousandths.
abbrev pub thousandths : Numbers
thousandths = record {
  times = λ a b. a * b / 1000;
  of_whole = λ n. n * 1000;
  round = λ a. (a + 500) / 1000;
  one = 1000;
  half = 500;
}

-- Whole numbers that are all exact.
abbrev pub exactly : Whole
exactly = record { nearest = λ n. n; show = print }

abbrev pub context : Context
context = record {
  is_valid_uuid_v7 = λ _. true;
  locale_le = leb;
  now = codes "2026-07-01T18:00:00Z";
  new_invite_code = codes "ABC234";
  numbers = thousandths;
  whole = exactly;
}

abbrev pub stash : ℕ → Scope → Text → Bool → Stash
stash id scope name carried = record {
  id = id;
  scope = scope;
  name = name;
  owner_character_id = some 20;
  party_id = some 100;
  is_carried = carried;
  created_at = [];
}

abbrev pub item : ℕ → ℕ → ℕ → ℕ → ItemInstance
item id definition owner quantity = record {
  id = id;
  definition_id = definition;
  owner_id = owner;
  container_instance_id = none;
  quantity = quantity;
  equipped = false;
  attuned = false;
  identified = true;
  hint = none;
  current_charges = none;
  custom_name = none;
  notes = none;
}

abbrev pub definition : ℕ → Text → ℕ → Bool → ItemCategory → ItemDefinition
definition id name weight magic category = record {
  id = id;
  name = name;
  source = ItemSource.phb;
  category = category;
  weight = some weight;
  flat_weight = none;
  cost = none;
  description = none;
  tags = none;
  rarity = none;
  requires_attunement = some magic;
  attunement_prereq = none;
  charges = none;
  duplicated_from_id = none;
  created_by = none;
  party_id = none;
}

abbrev pub coins : ℕ → ℕ → ℕ → Currency
coins gold silver copper = record zero_currency { gp = pos gold; sp = pos silver; cp = pos copper }

abbrev pub holding : ℕ → ℕ → Currency → CurrencyHolding
holding id owner amount = record { id = id; stash_id = owner; coins = amount }

abbrev pub member : ℕ → Role → Membership
member user role = record {
  user_id = user;
  party_id = 100;
  role = role;
  character_id = none;
  joined_at = [];
  left_at = none;
}

abbrev pub hero : ℕ → ℕ → Character
hero id inventory = record {
  id = id;
  party_id = 100;
  owner_user_id = 2;
  name = codes "Brakka";
  species = codes "Dwarf";
  size = medium;
  class = codes "Fighter";
  level = 3;
  str = 14;
  max_attunement = 3;
  inventory_stash_id = inventory;
  wishlist = [];
}

abbrev party : Party
party = record {
  id = 100;
  name = codes "The Company";
  owner_user_id = 1;
  invite_code = codes "ABC234";
  recovered_loot_stash_id = 12;
  banker_user_id = none;
  encumbrance_rule = phb;
  enforce_encumbrance = true;
  price_modifier = 1000;
  base_currency = Denom.gp;
  created_at = [];
}

abbrev session : GameSession
session = record {
  id = 60;
  party_id = 100;
  number = 4;
  date = codes "2026-06-24";
  notes = none;
  is_current = true;
  created_at = [];
}

-- Stash 10 and 11 are Inventories, 12 is Recovered Loot, 13 the Party Stash and 14 a chest.
-- Definition 40 is a ring to attune to, 41 a torch and 42 a pouch.
abbrev pub campaign : State
campaign = record {
  seed_version = 1;
  user_id = 1;
  party = party;
  memberships = member 1 Role.dm ∷ member 2 Role.player ∷ [];
  characters = hero 20 10 ∷ hero 21 11 ∷ [];
  game_sessions = session ∷ [];
  stashes =
      stash 10 Scope.character (codes "Inventory") true
      ∷ stash 11 Scope.character (codes "Inventory") true
      ∷ stash 12 Scope.recovered_loot (codes "Recovered Loot") false
      ∷ stash 13 Scope.party (codes "Party Stash") false
      ∷ stash 14 Scope.character (codes "Chest") false
      ∷ [];
  shops = [];
  catalog =
      definition 40 (codes "Ring") 10 true ItemCategory.magic
      ∷ definition 41 (codes "Torch") 100 false ItemCategory.gear
      ∷ definition 42 (codes "Pouch") 100 false ItemCategory.container
      ∷ [];
  items = item 30 40 10 2 ∷ item 31 41 10 5 ∷ item 32 41 14 2 ∷ [];
  currencies =
      holding 50 10 (coins 5 0 0)
      ∷ holding 51 11 (coins 0 3 0)
      ∷ holding 52 12 zero_currency
      ∷ holding 53 13 (coins 3 0 1)
      ∷ holding 54 14 (coins 0 7 0)
      ∷ [];
}

-- What a call that succeeds returns.
abbrev pub success : Result ReducerResult → ReducerResult
success (ok r) = r
success (err _) = record { state = campaign; log_entries = [] }

coins-IsNonneg : (gold silver copper : ℕ) → IsNonneg (coins gold silver copper)
coins-IsNonneg gold silver copper = omega arith

pub campaign-ItemsAreSound : ItemsAreSound campaign.items
campaign-ItemsAreSound = record { ids = ground arith; filled = omega arith }

pub campaign-IsSound : IsSound campaign
campaign-IsSound = record {
  one_each = ground arith;
  nonneg = (
    coins-IsNonneg 5 0 0,
    (
      coins-IsNonneg 0 3 0,
      (coins-IsNonneg 0 0 0, (coins-IsNonneg 3 0 1, (coins-IsNonneg 0 7 0, tt))),
    ),
  );
}

pub campaign-HasLoot : HasLoot campaign
campaign-HasLoot = record {
  ids = ground arith;
  stash = stash 12 Scope.recovered_loot (codes "Recovered Loot") false;
  there = refl;
  scoped = refl;
}
