-- ===== src/Reducer/Cascade.antt =====
-- packages/rules/src/reducer/index.ts: `delete-character`, and the cascade to Recovered Loot that
-- it shares with `leave-party` and `kick-player`.
pub mod Parts
pub mod Rollup
use dnd_inventory.Prelude.{
  ℕ, Bool, true, false, not, ◌&&◌, ◌||◌, Option, none, some, List, [], ◌∷◌, ◌++◌, map, filter,
  includes, opt_eq, find_row, update_row, remove_row, sum_of, ℤ, if◌then◌else◌, ◌==◌,
}
use dnd_inventory.Result.{Result, ok, ◌>>=◌, or_throw, no_holding, unknown_character}
use dnd_inventory.Rules.Currency.{Currency, zero_currency, full, add, to_copper}
use dnd_inventory.State.{
  State, AppState, Stash, Character, Membership, CurrencyHolding, ItemInstance, Context, stash_id,
  holding_stash, character_id, scope_is_character, is_player,
}
use dnd_inventory.State.Log.{LogSlice, ChangeReason, keep}
use dnd_inventory.Reducer.Shared.{ReducerResult, require_state}
use dnd_inventory.Reducer.Money.{all_zero}
use dnd_inventory.Reducer.Stashes.{sort_by_id, rolled_up}

-- `st.scope === 'character' && st.ownerCharacterId === character.id`
abbrev pub belongs_to : ℕ → Stash → Bool
belongs_to character st =
    scope_is_character st.scope && opt_eq st.owner_character_id (some character)

-- The ids of the stashes that a character owns.
abbrev pub owned_stash_ids : ℕ → List Stash → List ℕ
owned_stash_ids character stashes = map stash_id (filter (belongs_to character) stashes)

-- An item of an owned stash goes to Recovered Loot, its flags and its container cleared.
abbrev pub recovered : List ℕ → ℕ → ItemInstance → ItemInstance
recovered owned loot i =
    if includes i.owner_id owned
    then record i {
      owner_id = loot;
      equipped = false;
      attuned = false;
      container_instance_id = none;
    }
    else i

-- The `reduce` over the owned holdings.
abbrev pub aggregate_from : Currency → List CurrencyHolding → Currency
aggregate_from acc [] = acc
aggregate_from acc (h ∷ hs) = aggregate_from (add (full acc) (full h.coins)) hs

abbrev pub aggregated : List ℕ → List CurrencyHolding → Currency
aggregated owned currencies =
    aggregate_from zero_currency
      (filter (λ (h : CurrencyHolding). includes h.stash_id owned) currencies)

-- The coins of the owned holdings as a holding of Recovered Loot.
abbrev pub aggregate : List ℕ → List CurrencyHolding → CurrencyHolding → CurrencyHolding
aggregate owned currencies loot_holding = record loot_holding {
  coins = aggregated owned currencies;
}

-- `m.role === 'player' && m.characterId === character.id`
abbrev pub plays : ℕ → Membership → Bool
plays character m = is_player m.role && opt_eq m.character_id (some character)

abbrev pub unlink : ℕ → Membership → Membership
unlink character m = if plays character m then record m { character_id = none } else m

pub record Cascade : Type 0 where
  pub state : State
  pub log_entries : List LogSlice
  pub item_count : ℕ
  pub currency_total_cp : ℤ

abbrev pub cascade_log : ℕ → List ItemInstance → Currency → List LogSlice
cascade_log loot doomed coming =
    map (λ (i : ItemInstance). LogSlice.transfer i.id i.quantity i.owner_id loot keep) doomed
    ++ (if not (all_zero coming)
        then LogSlice.currency_change loot coming ChangeReason.character_deleted ∷ []
        else [])

-- The state that the cascade leaves.
abbrev pub cascaded : State → ℕ → CurrencyHolding → State
cascaded s character loot_holding =
    let loot = s.party.recovered_loot_stash_id in
    let owned = owned_stash_ids character s.stashes in
    record s {
      characters = remove_row character_id character s.characters;
      stashes = filter (λ (st : Stash). not (includes st.id owned)) s.stashes;
      currencies =
          update_row holding_stash loot
            (λ _. rolled_up (aggregate owned s.currencies loot_holding) loot_holding)
            (filter (λ (h : CurrencyHolding). not (includes h.stash_id owned)) s.currencies);
      items = map (recovered owned loot) s.items;
      memberships = map (unlink character) s.memberships;
    }

unfoldable pub cascade_character : Context → State → Character → Result Cascade
cascade_character ctx s character = do
  let loot = s.party.recovered_loot_stash_id
  loot_holding ← or_throw (find_row holding_stash loot s.currencies) no_holding
  let owned = owned_stash_ids character.id s.stashes
  let doomed =
      sort_by_id ctx.locale_le (filter (λ (i : ItemInstance). includes i.owner_id owned) s.items)
  let coming = aggregated owned s.currencies
  ok (record {
    state = cascaded s character.id loot_holding;
    log_entries = cascade_log loot doomed coming;
    item_count = sum_of (λ (i : ItemInstance). i.quantity) doomed;
    currency_total_cp = to_copper (full coming);
  })

unfoldable pub delete_character : Context → AppState → ℕ → Result ReducerResult
unfolding cascade_character
delete_character ctx state id = do
  s ← require_state state
  character ← or_throw (find_row character_id id s.characters) unknown_character
  cascade ← cascade_character ctx s character
  ok (record {
    state = cascade.state;
    log_entries =
        cascade.log_entries
        ++ LogSlice.delete_character character.id character.name cascade.item_count
            cascade.currency_total_cp
          ∷ [];
  })
