-- ===== src/Reducer/Characters.antt =====
-- packages/rules/src/reducer/index.ts: `create-character` in a party that is there.
pub mod Sheet
pub mod Founding
use dnd_inventory.Prelude.{
  ℕ, Bool, true, false, not, ◌&&◌, Option, none, some, List, [], ◌∷◌, ◌++◌, any, find, is_some,
  opt_eq, or_else, ◌==◌, if◌then◌else◌,
}
use dnd_inventory.Prelude.Text.{Text, codes}
use dnd_inventory.Result.{
  Result, ok, err, ◌>>=◌, ◌>>◌, or_throw, throw_if, bad_uuid, not_a_member, already_has_character,
  dm_only_after_bootstrap, party_name_after_bootstrap, no_party_stash,
}
use dnd_inventory.Rules.Currency.{Denom}
use dnd_inventory.Rules.Capacity.{CreatureSize, EncumbranceRule}
use dnd_inventory.State.{
  State, AppState, Character, Membership, Party, Role, Stash, Scope, CurrencyHolding, Context,
  is_player, scope_is_party,
}
use dnd_inventory.State.Log.{LogSlice}
use dnd_inventory.Reducer.Shared.{ReducerResult}
use dnd_inventory.Reducer.Stashes.{empty_holding}
use dnd_inventory.Reducer.Members.{fresh_member}

pub record NewCharacter : Type 0 where
  pub id : ℕ
  pub inventory_stash_id : ℕ
  pub holding_id : ℕ
  pub name : Text
  pub species : Text
  pub size : CreatureSize
  pub class : Text
  pub level : ℕ
  pub str : ℕ

-- `dmOnly: true` is a payload without a character.
pub record CreatePayload : Type 0 where
  pub party_name : Option Text
  pub new_user_id : Option ℕ
  pub new_party_id : Option ℕ
  pub new_party_stash_id : Option ℕ
  pub new_loot_stash_id : Option ℕ
  pub new_party_stash_currency_id : Option ℕ
  pub new_loot_currency_id : Option ℕ
  pub character : Option NewCharacter

abbrev pub character_row : ℕ → ℕ → NewCharacter → Character
character_row user party c = record {
  id = c.id;
  party_id = party;
  owner_user_id = user;
  name = c.name;
  species = c.species;
  size = c.size;
  class = c.class;
  level = c.level;
  str = c.str;
  max_attunement = 3;
  inventory_stash_id = c.inventory_stash_id;
  wishlist = [];
}

abbrev pub inventory_row : Text → NewCharacter → Stash
inventory_row now c = record {
  id = c.inventory_stash_id;
  scope = Scope.character;
  name = codes "Inventory";
  owner_character_id = some c.id;
  party_id = none;
  is_carried = true;
  created_at = now;
}

abbrev pub player_row : Text → ℕ → ℕ → ℕ → Membership
player_row now user party character = record (fresh_member now user party Role.player) {
  character_id = some character;
}

-- The three ids of a new character.
abbrev pub check_character_ids : Context → NewCharacter → Result (Unit {0})
check_character_ids ctx c = do
  throw_if (not (ctx.is_valid_uuid_v7 c.id)) bad_uuid
  throw_if (not (ctx.is_valid_uuid_v7 c.inventory_stash_id)) bad_uuid
  throw_if (not (ctx.is_valid_uuid_v7 c.holding_id)) bad_uuid

-- An active membership, of the actor, in any role.
abbrev pub is_active_of : ℕ → Membership → Bool
is_active_of user m = m.user_id == user && not (is_some m.left_at)

abbrev pub has_character_as_player : ℕ → Membership → Bool
has_character_as_player user m =
    m.user_id == user && is_player m.role && not (is_some m.left_at) && is_some m.character_id

abbrev pub waits_for_character : ℕ → Membership → Bool
waits_for_character user m =
    m.user_id == user && is_player m.role && not (is_some m.left_at) && not (is_some m.character_id)

-- The `map` that gives the character to the row that `find` returned, the first that waits.
abbrev pub give_character : ℕ → ℕ → List Membership → List Membership
give_character user character [] = []
give_character user character (m ∷ members) =
    let rest = give_character user character members in
    if waits_for_character user m
    then record m { character_id = some character } ∷ members
    else m ∷ rest

abbrev pub enrolled : Text → ℕ → ℕ → ℕ → List Membership → List Membership
enrolled now user party character members =
    if any (waits_for_character user) members
    then give_character user character members
    else members ++ player_row now user party character ∷ []

abbrev pub is_party_stash : ℕ → Stash → Bool
is_party_stash party st = scope_is_party st.scope && opt_eq st.party_id (some party)

-- The state with the new character, its Inventory and an empty holding for it.
abbrev pub with_character : Text → State → NewCharacter → State
with_character now s c = record s {
  memberships = enrolled now s.user_id s.party.id c.id s.memberships;
  characters = s.characters ++ character_row s.user_id s.party.id c ∷ [];
  stashes = s.stashes ++ inventory_row now c ∷ [];
  currencies = s.currencies ++ empty_holding c.holding_id c.inventory_stash_id ∷ [];
}

unfoldable pub create_in_party : Context → State → CreatePayload → Result ReducerResult
create_in_party ctx s p = do
  c ← or_throw p.character dm_only_after_bootstrap
  throw_if (is_some p.party_name) party_name_after_bootstrap
  check_character_ids ctx c
  throw_if (not (any (is_active_of s.user_id) s.memberships)) not_a_member
  throw_if (any (has_character_as_player s.user_id) s.memberships) already_has_character
  party_stash ← or_throw (find (is_party_stash s.party.id) s.stashes) no_party_stash
  ok (record {
    state = with_character ctx.now s c;
    log_entries =
        LogSlice.create_character s.user_id s.party.id party_stash.id
          s.party.recovered_loot_stash_id (some (c.id, c.name, c.inventory_stash_id))
        ∷ [];
  })
