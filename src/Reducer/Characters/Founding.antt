-- ===== src/Reducer/Characters/Founding.antt =====
-- packages/rules/src/reducer/index.ts: `create-character` of the first character, with a new party,
-- and the choice between its two forms.
use dnd_inventory.Prelude.{
  ℕ, false, Option, none, some, List, [], ◌∷◌, ◌++◌, or_else, if◌then◌else◌,
}
use dnd_inventory.Prelude.Text.{Text, codes}
use dnd_inventory.Result.{Result, ok, err, ◌>>=◌, ◌>>◌, bad_uuid}
use dnd_inventory.Rules.Currency.{Denom}
use dnd_inventory.Rules.Capacity.{EncumbranceRule}
use dnd_inventory.State.{State, AppState, Party, Role, Stash, Scope, Context}
use dnd_inventory.State.Log.{LogSlice}
use dnd_inventory.Reducer.Shared.{ReducerResult}
use dnd_inventory.Reducer.Stashes.{empty_holding}
use dnd_inventory.Reducer.Members.{fresh_member}
use dnd_inventory.Reducer.Characters.{
  NewCharacter, CreatePayload, character_row, inventory_row, player_row, check_character_ids,
  create_in_party,
}

-- An id that is there and passes the UUID test.
abbrev pub valid_id : Context → Option ℕ → Result ℕ
valid_id ctx none = err bad_uuid
valid_id ctx (some id) = if ctx.is_valid_uuid_v7 id then ok id else err bad_uuid

-- The ids that a new party needs.
pub record PartyIds : Type 0 where
  pub user : ℕ
  pub party : ℕ
  pub party_stash : ℕ
  pub loot : ℕ
  pub party_holding : ℕ
  pub loot_holding : ℕ

abbrev pub party_ids : Context → CreatePayload → Result PartyIds
party_ids ctx p = do
  user ← valid_id ctx p.new_user_id
  party ← valid_id ctx p.new_party_id
  party_stash ← valid_id ctx p.new_party_stash_id
  loot ← valid_id ctx p.new_loot_stash_id
  party_holding ← valid_id ctx p.new_party_stash_currency_id
  loot_holding ← valid_id ctx p.new_loot_currency_id
  ok (record {
    user = user;
    party = party;
    party_stash = party_stash;
    loot = loot;
    party_holding = party_holding;
    loot_holding = loot_holding;
  })

abbrev pub shared_stash : Text → ℕ → ℕ → Scope → Text → Stash
shared_stash now party id scope name = record {
  id = id;
  scope = scope;
  name = name;
  owner_character_id = none;
  party_id = some party;
  is_carried = false;
  created_at = now;
}

abbrev pub new_party : Context → PartyIds → Option Text → Party
new_party ctx ids name = record {
  id = ids.party;
  name = or_else name (codes "My Campaign");
  owner_user_id = ids.user;
  invite_code = ctx.new_invite_code;
  recovered_loot_stash_id = ids.loot;
  banker_user_id = none;
  encumbrance_rule = EncumbranceRule.off;
  enforce_encumbrance = false;
  price_modifier = ctx.numbers.one;
  base_currency = Denom.gp;
  created_at = ctx.now;
}

-- The state of a party with its DM alone.
abbrev pub party_shell : Context → PartyIds → Option Text → State
party_shell ctx ids name = record {
  seed_version = 0;
  user_id = ids.user;
  party = new_party ctx ids name;
  memberships = fresh_member ctx.now ids.user ids.party Role.dm ∷ [];
  characters = [];
  game_sessions = [];
  stashes =
      shared_stash ctx.now ids.party ids.party_stash Scope.party (codes "Party Stash")
      ∷ shared_stash ctx.now ids.party ids.loot Scope.recovered_loot (codes "Recovered Loot")
      ∷ [];
  shops = [];
  catalog = [];
  items = [];
  currencies =
      empty_holding ids.party_holding ids.party_stash
      ∷ empty_holding ids.loot_holding ids.loot
      ∷ [];
}

-- The same with the character of the DM, who is then a player too.
abbrev pub first_state : Context → PartyIds → Option Text → NewCharacter → State
first_state ctx ids name c =
    let shell = party_shell ctx ids name in
    record shell {
      memberships = shell.memberships ++ player_row ctx.now ids.user ids.party c.id ∷ [];
      characters = character_row ids.user ids.party c ∷ [];
      stashes = inventory_row ctx.now c ∷ shell.stashes;
      currencies = empty_holding c.holding_id c.inventory_stash_id ∷ shell.currencies;
    }

abbrev pub first_slice : PartyIds → Option (ℕ × Text × ℕ) → List LogSlice
first_slice ids character =
    LogSlice.create_character ids.user ids.party ids.party_stash ids.loot character ∷ []

unfoldable pub bootstrap : Context → CreatePayload → Result ReducerResult
bootstrap ctx p = do
  ids ← party_ids ctx p
  elim p.character [
    | none ↦
        ok (record { state = party_shell ctx ids p.party_name; log_entries = first_slice ids none })
    | some c ↦ do
      check_character_ids ctx c
      ok (record {
        state = first_state ctx ids p.party_name c;
        log_entries = first_slice ids (some (c.id, c.name, c.inventory_stash_id));
      })
  ]

unfoldable pub create_character : Context → AppState → CreatePayload → Result ReducerResult
unfolding create_in_party bootstrap
create_character ctx none p = bootstrap ctx p
create_character ctx (some s) p = create_in_party ctx s p
