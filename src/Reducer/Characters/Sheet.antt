-- ===== src/Reducer/Characters/Sheet.antt =====
-- packages/rules/src/reducer/index.ts: `rename-character`, `edit-character`, `wishlist-add` and
-- `wishlist-remove`.
use dnd_inventory.Prelude.{
  ℕ, not, Option, List, [], ◌∷◌, ◌++◌, any, find_row, update_row, remove_row, or_else, ◌==◌,
  if◌then◌else◌,
}
use dnd_inventory.Prelude.Text.{Text, trim, text_eq}
use dnd_inventory.Result.{
  Result, ok, ◌>>=◌, ◌>>◌, or_throw, throw_if, unknown_character, empty_name, no_change,
  already_exists, unknown_definition, unknown_wish,
}
use dnd_inventory.State.{
  State, AppState, Character, WishlistEntry, character_id, definition_id, wish_id,
}
use dnd_inventory.State.Log.{LogSlice, CharacterField, WishlistKind}
use dnd_inventory.Reducer.Shared.{ReducerResult, require_state}
use dnd_inventory.Reducer.Stashes.{is_empty_text}
use dnd_inventory.Reducer.Shops.{text_differs, number_differs, is_empty_list}

-- `s.characters.map(c => c.id === character.id ? next : c)`
abbrev pub replace_character : Character → State → State
replace_character next s = record s {
  characters = update_row character_id next.id (λ _. next) s.characters;
}

unfoldable pub rename_character : AppState → ℕ → Text → Result ReducerResult
rename_character state id given_name = do
  s ← require_state state
  character ← or_throw (find_row character_id id s.characters) unknown_character
  let new_name = trim given_name
  throw_if (is_empty_text new_name) empty_name
  throw_if (text_eq new_name character.name) no_change
  ok (record {
    state = record s {
      characters =
          update_row character_id character.id (λ (c : Character). record c { name = new_name })
            s.characters;
    };
    log_entries = LogSlice.rename_character character.id character.name new_name ∷ [];
  })

pub record CharacterPatch : Type 0 where
  pub species : Option Text
  pub class : Option Text
  pub level : Option ℕ
  pub str : Option ℕ
  pub max_attunement : Option ℕ

-- The `for` loop over `EDIT_CHARACTER_FIELDS`.
abbrev pub changed_fields : Character → CharacterPatch → List CharacterField
changed_fields c patch =
    (if text_differs patch.species c.species then CharacterField.species ∷ [] else [])
    ++ (if text_differs patch.class c.class then CharacterField.class ∷ [] else [])
    ++ (if number_differs patch.level c.level then CharacterField.level ∷ [] else [])
    ++ (if number_differs patch.str c.str then CharacterField.str ∷ [] else [])
    ++ (if number_differs patch.max_attunement c.max_attunement
        then CharacterField.max_attunement ∷ []
        else [])

abbrev pub patched : Character → CharacterPatch → Character
patched c patch = record c {
  species = or_else patch.species c.species;
  class = or_else patch.class c.class;
  level = or_else patch.level c.level;
  str = or_else patch.str c.str;
  max_attunement = or_else patch.max_attunement c.max_attunement;
}

unfoldable pub edit_character : AppState → ℕ → CharacterPatch → Result ReducerResult
edit_character state id patch = do
  s ← require_state state
  character ← or_throw (find_row character_id id s.characters) unknown_character
  let changed = changed_fields character patch
  throw_if (is_empty_list changed) no_change
  ok (record {
    state = replace_character (patched character patch) s;
    log_entries = LogSlice.edit_character character.id changed ∷ [];
  })

-- The label of an entry of the wishlist, with its kind.
abbrev pub wish_label : State → WishlistEntry → Result (WishlistKind × Text)
wish_label s (WishlistEntry.catalog id definition) = do
  def ← or_throw (find_row definition_id definition s.catalog) unknown_definition
  ok (WishlistKind.catalog, def.name)
wish_label s (WishlistEntry.text id wish) = ok (WishlistKind.text, wish)

unfoldable pub wishlist_add : AppState → ℕ → WishlistEntry → Result ReducerResult
wishlist_add state id entry = do
  s ← require_state state
  character ← or_throw (find_row character_id id s.characters) unknown_character
  throw_if (any (λ e. wish_id e == wish_id entry) character.wishlist) already_exists
  label ← wish_label s entry
  ok (record {
    state = replace_character (record character { wishlist = character.wishlist ++ entry ∷ [] }) s;
    log_entries = LogSlice.wishlist_add character.id (wish_id entry) label.0 label.1 ∷ [];
  })

unfoldable pub wishlist_remove : AppState → ℕ → ℕ → Result ReducerResult
wishlist_remove state id entry = do
  s ← require_state state
  character ← or_throw (find_row character_id id s.characters) unknown_character
  throw_if (not (any (λ e. wish_id e == entry) character.wishlist)) unknown_wish
  ok (record {
    state =
        replace_character
          (record character { wishlist = remove_row wish_id entry character.wishlist }) s;
    log_entries = LogSlice.wishlist_remove character.id entry ∷ [];
  })
