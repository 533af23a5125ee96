-- ===== src/Reducer/Settings.antt =====
-- packages/rules/src/reducer/index.ts: `rename-party`, `set-encumbrance` and
-- `update-party-economy`.
use dnd_inventory.Prelude.{ℕ, Bool, true, false, not, ◌&&◌, [], ◌∷◌, bool_eq, ◌==◌}
use dnd_inventory.Prelude.Text.{Text, trim, text_eq}
use dnd_inventory.Result.{Result, ok, ◌>>=◌, ◌>>◌, throw_if, unknown_party, empty_name, no_change}
use dnd_inventory.Rules.Currency.{Denom, denom_eq}
use dnd_inventory.Rules.Capacity.{EncumbranceRule, off, phb, variant}
use dnd_inventory.State.{AppState}
use dnd_inventory.State.Log.{LogSlice}
use dnd_inventory.Reducer.Shared.{ReducerResult, require_state}
use dnd_inventory.Reducer.Stashes.{is_empty_text}

unfoldable pub rename_party : AppState → ℕ → Text → Result ReducerResult
rename_party state party given_name = do
  s ← require_state state
  throw_if (not (party == s.party.id)) unknown_party
  let new_name = trim given_name
  throw_if (is_empty_text new_name) empty_name
  throw_if (text_eq new_name s.party.name) no_change
  ok (record {
    state = record s { party = record s.party { name = new_name } };
    log_entries = LogSlice.rename_party s.party.id s.party.name new_name ∷ [];
  })

abbrev pub rule_eq : EncumbranceRule → EncumbranceRule → Bool
rule_eq off off = true
rule_eq phb phb = true
rule_eq variant variant = true
rule_eq _ _ = false

unfoldable pub set_encumbrance : AppState → ℕ → EncumbranceRule → Bool → Result ReducerResult
set_encumbrance state party rule enforce = do
  s ← require_state state
  throw_if (not (party == s.party.id)) unknown_party
  throw_if (rule_eq rule s.party.encumbrance_rule && bool_eq enforce s.party.enforce_encumbrance)
      no_change
  ok (record {
    state = record s {
      party = record s.party { encumbrance_rule = rule; enforce_encumbrance = enforce };
    };
    log_entries =
        LogSlice.set_encumbrance s.party.id s.party.encumbrance_rule rule
          s.party.enforce_encumbrance enforce
        ∷ [];
  })

unfoldable pub update_party_economy : AppState → ℕ → ℕ → Denom → Result ReducerResult
update_party_economy state party modifier base = do
  s ← require_state state
  throw_if (not (party == s.party.id)) unknown_party
  throw_if (modifier == s.party.price_modifier && denom_eq base s.party.base_currency) no_change
  ok (record {
    state = record s { party = record s.party { price_modifier = modifier; base_currency = base } };
    log_entries =
        LogSlice.update_party_economy s.party.id s.party.price_modifier modifier
          s.party.base_currency base
        ∷ [];
  })
