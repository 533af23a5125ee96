-- ===== src/Reducer/Stashes.antt =====
-- packages/rules/src/reducer/index.ts: `create-stash`, `rename-stash` and `delete-stash`.
pub mod Deletion
use dnd_inventory.Prelude.{
  ℕ, Bool, true, false, not, ◌&&◌, ◌||◌, Option, none, some, List, [], ◌∷◌, ◌++◌, map, filter,
  find_row, update_row, remove_row, sum_of, ◌==◌, if◌then◌else◌,
}
use dnd_inventory.Prelude.Text.{Text, trim, text_eq}
use dnd_inventory.Result.{
  Result, ok, err, ◌>>=◌, ◌>>◌, or_throw, throw_if, bad_uuid, empty_name, unknown_character,
  unknown_stash, protected_stash, no_change, no_holding,
}
use dnd_inventory.Rules.Currency.{Currency, zero_currency, full, add, to_copper}
use dnd_inventory.State.{
  State, AppState, Stash, Scope, CurrencyHolding, ItemInstance, Context, stash_id, holding_stash,
  character_id, scope_is_party, scope_is_recovered_loot,
}
use dnd_inventory.State.Log.{LogSlice, ChangeReason, ParentChange, keep}
use dnd_inventory.Reducer.Shared.{ReducerResult, require_state, is_inventory}
use dnd_inventory.Reducer.Money.{all_zero, with_coins}

abbrev pub is_empty_text : Text → Bool
is_empty_text [] = true
is_empty_text (c ∷ cs) = false

-- A holding with nothing in it, as the handlers that make a stash make it.
abbrev pub empty_holding : ℕ → ℕ → CurrencyHolding
empty_holding id stash = record { id = id; stash_id = stash; coins = zero_currency }

abbrev pub storage_stash : ℕ → Text → ℕ → Text → Stash
storage_stash id name owner now = record {
  id = id;
  scope = Scope.character;
  name = name;
  owner_character_id = some owner;
  party_id = none;
  is_carried = false;
  created_at = now;
}

unfoldable pub create_stash : Context → AppState → Text → ℕ → ℕ → ℕ → Result ReducerResult
create_stash ctx state given_name owner_character_id new_stash new_holding = do
  s ← require_state state
  throw_if (not (ctx.is_valid_uuid_v7 new_stash)) bad_uuid
  throw_if (not (ctx.is_valid_uuid_v7 new_holding)) bad_uuid
  let name = trim given_name
  throw_if (is_empty_text name) empty_name
  owner ← or_throw (find_row character_id owner_character_id s.characters) unknown_character
  ok (record {
    state = record s {
      stashes = s.stashes ++ storage_stash new_stash name owner.id ctx.now ∷ [];
      currencies = s.currencies ++ empty_holding new_holding new_stash ∷ [];
    };
    log_entries = LogSlice.create_stash new_stash name owner.id ∷ [];
  })

-- The three guards by which only Storage stashes are renamed and deleted.
abbrev pub check_storage : Stash → Result (Unit {0})
check_storage stash = do
  throw_if (is_inventory stash) protected_stash
  throw_if (scope_is_party stash.scope) protected_stash
  throw_if (scope_is_recovered_loot stash.scope) protected_stash

unfoldable pub rename_stash : AppState → ℕ → Text → Result ReducerResult
rename_stash state id given_name = do
  s ← require_state state
  stash ← or_throw (find_row stash_id id s.stashes) unknown_stash
  check_storage stash
  let new_name = trim given_name
  throw_if (is_empty_text new_name) empty_name
  throw_if (text_eq new_name stash.name) no_change
  ok (record {
    state = record s {
      stashes = update_row stash_id stash.id (λ _. record stash { name = new_name }) s.stashes;
    };
    log_entries = LogSlice.rename_stash stash.id stash.name new_name ∷ [];
  })

-- `sort((a, b) => a.id.localeCompare(b.id))`, which is stable.
abbrev insert_by_id : (ℕ → ℕ → Bool) → ItemInstance → List ItemInstance → List ItemInstance
insert_by_id le i [] = i ∷ []
insert_by_id le i (j ∷ js) =
    let rest = insert_by_id le i js in if le i.id j.id then i ∷ j ∷ js else j ∷ rest

abbrev pub sort_by_id : (ℕ → ℕ → Bool) → List ItemInstance → List ItemInstance
sort_by_id le [] = []
sort_by_id le (i ∷ is) = insert_by_id le i (sort_by_id le is)

abbrev pub owned_by : ℕ → List ItemInstance → List ItemInstance
owned_by stash items = filter (λ i. i.owner_id == stash) items

-- `items.map(i => i.ownerId === from ? { ...i, ownerId: to } : i)`
abbrev pub reown : ℕ → ℕ → ItemInstance → ItemInstance
reown from_stash to_stash i =
    if i.owner_id == from_stash then record i { owner_id = to_stash } else i

-- The holding that takes in another's coins, where there are any.
abbrev pub rolled_up : CurrencyHolding → CurrencyHolding → CurrencyHolding
rolled_up coming holding =
    if not (all_zero coming.coins)
    then with_coins (add (full holding.coins) (full coming.coins)) holding
    else holding

abbrev delete_stash_log : Context → State → Stash → CurrencyHolding → List LogSlice
delete_stash_log ctx s stash coming =
    let loot = s.party.recovered_loot_stash_id in
    let doomed = sort_by_id ctx.locale_le (owned_by stash.id s.items) in
    map (λ (i : ItemInstance). LogSlice.transfer i.id i.quantity stash.id loot keep) doomed
    ++ (if not (all_zero coming.coins)
        then LogSlice.currency_change loot coming.coins ChangeReason.stash_deleted ∷ []
        else [])
    ++ LogSlice.delete_stash stash.id stash.name (sum_of (λ (i : ItemInstance). i.quantity) doomed)
        (to_copper (full coming.coins)) stash.owner_character_id
      ∷ []

unfoldable pub delete_stash : Context → AppState → ℕ → Result ReducerResult
delete_stash ctx state id = do
  s ← require_state state
  stash ← or_throw (find_row stash_id id s.stashes) unknown_stash
  check_storage stash
  let loot = s.party.recovered_loot_stash_id
  coming ← or_throw (find_row holding_stash stash.id s.currencies) no_holding
  loot_holding ← or_throw (find_row holding_stash loot s.currencies) no_holding
  ok (record {
    state = record s {
      stashes = remove_row stash_id stash.id s.stashes;
      currencies =
          update_row holding_stash loot (λ _. rolled_up coming loot_holding)
            (remove_row holding_stash stash.id s.currencies);
      items = map (reown stash.id loot) s.items;
    };
    log_entries = delete_stash_log ctx s stash coming;
  })
