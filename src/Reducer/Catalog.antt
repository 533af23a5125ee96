-- ===== src/Reducer/Catalog.antt =====
-- packages/rules/src/reducer/index.ts: `seed-catalog`, `create-homebrew`, `edit-homebrew` and
-- `delete-homebrew`.
use dnd_inventory.Prelude.{
  ℕ, Bool, true, false, not, ◌&&◌, Option, none, some, List, [], ◌∷◌, ◌++◌, map, filter, any,
  find_row, update_row, remove_row, includes, or_else, bool_eq, ◌==◌, if◌then◌else◌,
}
use dnd_inventory.Prelude.Text.{Text, trim, text_eq}
use dnd_inventory.Result.{
  Result, ok, ◌>>=◌, ◌>>◌, or_throw, throw_if, bad_uuid, empty_name, no_change, unknown_definition,
  not_homebrew, in_use,
}
use dnd_inventory.Rules.Currency.{denom_eq}
use dnd_inventory.Rules.Pricing.{ItemSource}
use dnd_inventory.State.{
  State, AppState, ItemDefinition, ItemInstance, ItemCategory, Rarity, Cost, Context, definition_id,
}
use dnd_inventory.State.Log.{LogSlice, HomebrewField}
use dnd_inventory.Reducer.Shared.{ReducerResult, require_state}
use dnd_inventory.Reducer.Stashes.{is_empty_text}
use dnd_inventory.Reducer.Shops.{is_empty_list}

-- The last entry with an id: what the `Map` holds for it once the loop has set every entry.
abbrev pub last_row : ℕ → List ItemDefinition → Option ItemDefinition
last_row k [] = none
last_row k (d ∷ ds) = elim (last_row k ds) [
  | some later ↦ some later
  | none ↦ if d.id == k then some d else none
]

-- The ids that the loop counts as added and as updated: an id is known once it has been set.
abbrev pub added_ids : List ℕ → List ItemDefinition → List ℕ
added_ids known [] = []
added_ids known (d ∷ ds) =
    let rest = added_ids (d.id ∷ known) ds in if includes d.id known then rest else d.id ∷ rest

abbrev pub updated_ids : List ℕ → List ItemDefinition → List ℕ
updated_ids known [] = []
updated_ids known (d ∷ ds) =
    let rest = updated_ids (d.id ∷ known) ds in if includes d.id known then d.id ∷ rest else rest

abbrev pub upserted : List ItemDefinition → List ItemDefinition → List ItemDefinition
upserted entries catalog =
    map (λ (d : ItemDefinition). or_else (last_row d.id entries) d) catalog
    ++ filter
        (λ (d : ItemDefinition). includes d.id (added_ids (map definition_id catalog) entries))
        entries

unfoldable pub seed_catalog : AppState → ℕ → List ItemDefinition → Result ReducerResult
seed_catalog state version entries = do
  s ← require_state state
  let known = map definition_id s.catalog
  ok (record {
    state = record s { catalog = upserted entries s.catalog; seed_version = version };
    log_entries =
        LogSlice.seed_catalog version (added_ids known entries) (updated_ids known entries) ∷ [];
  })

pub record HomebrewPayload : Type 0 where
  pub new_definition_id : ℕ
  pub name : Text
  pub category : ItemCategory
  pub weight : Option ℕ
  pub cost : Option Cost
  pub description : Option Text
  pub tags : Option (List Text)
  pub rarity : Option (Option Rarity)
  pub requires_attunement : Option Bool
  pub attunement_prereq : Option Text
  pub duplicated_from_id : Option ℕ

abbrev pub homebrew_row : State → Text → HomebrewPayload → ItemDefinition
homebrew_row s name p = record {
  id = p.new_definition_id;
  name = name;
  source = ItemSource.homebrew;
  category = p.category;
  weight = p.weight;
  flat_weight = none;
  cost = p.cost;
  description = p.description;
  tags = p.tags;
  rarity = p.rarity;
  requires_attunement = p.requires_attunement;
  attunement_prereq = p.attunement_prereq;
  charges = none;
  duplicated_from_id = p.duplicated_from_id;
  created_by = some s.user_id;
  party_id = some s.party.id;
}

unfoldable pub create_homebrew : Context → AppState → HomebrewPayload → Result ReducerResult
create_homebrew ctx state p = do
  s ← require_state state
  throw_if (not (ctx.is_valid_uuid_v7 p.new_definition_id)) bad_uuid
  let name = trim p.name
  throw_if (is_empty_text name) empty_name
  ok (record {
    state = record s { catalog = s.catalog ++ homebrew_row s name p ∷ [] };
    log_entries = LogSlice.create_homebrew p.new_definition_id name ∷ [];
  })

abbrev pub is_homebrew : ItemSource → Bool
is_homebrew ItemSource.homebrew = true
is_homebrew _ = false

-- `JSON.stringify(a) === JSON.stringify(b)`, on the fields that may be edited.
abbrev option_eq {ℓ} : {A : Type ℓ} → (A → A → Bool) → Option A → Option A → Bool
option_eq eq none none = true
option_eq eq (some a) (some b) = eq a b
option_eq eq _ _ = false

abbrev nat_eq : ℕ → ℕ → Bool
nat_eq a b = a == b

abbrev cost_eq : Cost → Cost → Bool
cost_eq a b = a.amount == b.amount && denom_eq a.currency b.currency

abbrev tags_eq : List Text → List Text → Bool
tags_eq [] [] = true
tags_eq (a ∷ as') (b ∷ bs) = text_eq a b && tags_eq as' bs
tags_eq _ _ = false

abbrev category_code : ItemCategory → ℕ
category_code ItemCategory.weapon = 0
category_code ItemCategory.armor = 1
category_code ItemCategory.gear = 2
category_code ItemCategory.tool = 3
category_code ItemCategory.ammunition = 4
category_code ItemCategory.consumable = 5
category_code ItemCategory.magic = 6
category_code ItemCategory.currency = 7
category_code ItemCategory.container = 8
category_code ItemCategory.other = 9

abbrev category_eq : ItemCategory → ItemCategory → Bool
category_eq a b = category_code a == category_code b

abbrev rarity_code : Rarity → ℕ
rarity_code Rarity.common = 0
rarity_code Rarity.uncommon = 1
rarity_code Rarity.rare = 2
rarity_code Rarity.very_rare = 3
rarity_code Rarity.legendary = 4
rarity_code Rarity.artifact = 5

abbrev rarity_eq : Rarity → Rarity → Bool
rarity_eq a b = rarity_code a == rarity_code b

-- An absent key is `none`; one that is there, to clear the field, is `some none`.
pub record HomebrewPatch : Type 0 where
  pub name : Option Text
  pub category : Option ItemCategory
  pub weight : Option (Option ℕ)
  pub cost : Option (Option Cost)
  pub description : Option (Option Text)
  pub tags : Option (Option (List Text))
  pub rarity : Option (Option (Option Rarity))
  pub requires_attunement : Option (Option Bool)
  pub attunement_prereq : Option (Option Text)

-- Whether the key is there, with a value other than the present one.
abbrev differs {ℓ} : {A : Type ℓ} → (A → A → Bool) → Option A → A → Bool
differs eq none old = false
differs eq (some new_value) old = not (eq new_value old)

abbrev if_changed : Bool → HomebrewField → List HomebrewField
if_changed b field = if b then field ∷ [] else []

-- The `for` loop over `HOMEBREW_EDITABLE_FIELDS`.
abbrev pub changed_homebrew : ItemDefinition → HomebrewPatch → List HomebrewField
changed_homebrew d p =
    if_changed (differs text_eq p.name d.name) HomebrewField.name
    ++ if_changed (differs category_eq p.category d.category) HomebrewField.category
    ++ if_changed (differs (option_eq nat_eq) p.weight d.weight) HomebrewField.weight
    ++ if_changed (differs (option_eq cost_eq) p.cost d.cost) HomebrewField.cost
    ++ if_changed (differs (option_eq text_eq) p.description d.description)
        HomebrewField.description
    ++ if_changed (differs (option_eq tags_eq) p.tags d.tags) HomebrewField.tags
    ++ if_changed (differs (option_eq (option_eq rarity_eq)) p.rarity d.rarity) HomebrewField.rarity
    ++ if_changed (differs (option_eq bool_eq) p.requires_attunement d.requires_attunement)
        HomebrewField.requires_attunement
    ++ if_changed (differs (option_eq text_eq) p.attunement_prereq d.attunement_prereq)
        HomebrewField.attunement_prereq

abbrev pub patched_homebrew : ItemDefinition → HomebrewPatch → ItemDefinition
patched_homebrew d p = record d {
  name = or_else p.name d.name;
  category = or_else p.category d.category;
  weight = or_else p.weight d.weight;
  cost = or_else p.cost d.cost;
  description = or_else p.description d.description;
  tags = or_else p.tags d.tags;
  rarity = or_else p.rarity d.rarity;
  requires_attunement = or_else p.requires_attunement d.requires_attunement;
  attunement_prereq = or_else p.attunement_prereq d.attunement_prereq;
}

unfoldable pub edit_homebrew : AppState → ℕ → HomebrewPatch → Result ReducerResult
edit_homebrew state id patch = do
  s ← require_state state
  row ← or_throw (find_row definition_id id s.catalog) unknown_definition
  throw_if (not (is_homebrew row.source)) not_homebrew
  let changed = changed_homebrew row patch
  throw_if (is_empty_list changed) no_change
  ok (record {
    state = record s {
      catalog = update_row definition_id row.id (λ _. patched_homebrew row patch) s.catalog;
    };
    log_entries = LogSlice.edit_homebrew row.id changed ∷ [];
  })

unfoldable pub delete_homebrew : AppState → ℕ → Result ReducerResult
delete_homebrew state id = do
  s ← require_state state
  row ← or_throw (find_row definition_id id s.catalog) unknown_definition
  throw_if (not (is_homebrew row.source)) not_homebrew
  throw_if (any (λ (i : ItemInstance). i.definition_id == id) s.items) in_use
  ok (record {
    state = record s { catalog = remove_row definition_id row.id s.catalog };
    log_entries = LogSlice.delete_homebrew row.id row.name ∷ [];
  })
