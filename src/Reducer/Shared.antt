-- ===== src/Reducer/Shared.antt =====
-- packages/rules/src/reducer/index.ts: what the handlers share.
use dnd_inventory.Prelude.{
  ℕ, Bool, true, false, not, ◌||◌, ◌&&◌, Option, none, some, List, map, find_row, filter, [], ◌==◌,
  or_else, if◌then◌else◌,
}
use dnd_inventory.Prelude.Text.{Text, text_eq}
use dnd_inventory.Result.{Result, ok, or_throw, throw_if, no_state, over_capacity}
use dnd_inventory.Rules.Capacity.{EncumbranceRule, off, heavy_threshold, exceeds}
use dnd_inventory.Rules.Weight.{WeightRow, DefWeight, container_aware_weight}
use dnd_inventory.State.{
  State, AppState, ItemInstance, ItemDefinition, Stash, Character, scope_is_character, stash_id,
  character_id,
}
use dnd_inventory.State.Log.{LogSlice}

pub record ReducerResult : Type 0 where
  pub state : State
  pub log_entries : List LogSlice

abbrev pub require_state : AppState → Result State
require_state state = or_throw state no_state

abbrev pub rule_is_off : EncumbranceRule → Bool
rule_is_off off = true
rule_is_off _ = false

-- A character's Inventory, as the handlers test for it.
abbrev pub is_inventory : Stash → Bool
is_inventory st = scope_is_character st.scope && st.is_carried

-- `i.notes ?? ''` on two rows.
abbrev pub same_notes : Option Text → Option Text → Bool
same_notes a b = text_eq (or_else a []) (or_else b [])

-- The early returns of `checkHardMode`: the character whose Inventory `destination` is, where the
-- party enforces a rule.
unfoldable pub hard_mode_character : State → ℕ → Option Character
hard_mode_character s destination =
    if not s.party.enforce_encumbrance || rule_is_off s.party.encumbrance_rule
    then none
    else elim (find_row stash_id destination s.stashes) [
      | none ↦ none
      | some stash ↦
          if is_inventory stash
          then elim stash.owner_character_id [
            | none ↦ none
            | some owner ↦ find_row character_id owner s.characters
          ]
          else none
    ]

abbrev pub def_weight : ItemDefinition → ℕ × DefWeight
def_weight d = (d.id, record { weight = or_else d.weight 0; flat_weight = d.flat_weight })

abbrev pub weight_row : ItemInstance → WeightRow
weight_row i = record {
  id = i.id;
  definition_id = i.definition_id;
  quantity = i.quantity;
  container_instance_id = i.container_instance_id;
}

-- The weight of what a stash holds.
abbrev pub stash_weight : State → List ItemInstance → ℕ → ℕ
stash_weight s items stash =
    container_aware_weight (map weight_row (filter (λ i. i.owner_id == stash) items))
      (map def_weight s.catalog)

unfoldable pub check_hard_mode : State → List ItemInstance → ℕ → Result (Unit {0})
unfolding hard_mode_character
check_hard_mode s next_items destination = elim (hard_mode_character s destination) [
  | none ↦ ok tt
  | some character ↦
      throw_if
        (exceeds (stash_weight s next_items destination)
          (heavy_threshold character.str character.size s.party.encumbrance_rule))
        over_capacity
]
