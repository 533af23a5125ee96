-- ===== src/Reducer/Actions/Rest.antt =====
-- That the actions on sessions, on the party's settings, on characters' sheets and on the catalog
-- keep a state sound.
use dnd_inventory.Prelude.{
  ℕ, ◌≡◌, refl, subst, arith, Bool, not, ◌&&◌, some, List, ◌++◌, [], ◌∷◌, Absent, find_row,
  update_row, any, is_some, or_else, bool_eq, if◌then◌else◌, ◌==◌, find_row_self, Unique-update_row,
  sum_of-update_row,
}
use dnd_inventory.Prelude.Text.{Text, trim, text_eq}
use dnd_inventory.Result.{
  ok, found, passed, returned, done, bad_uuid, session_already_current, no_current_session,
  unknown_session, no_change, unknown_party, empty_name, unknown_character, already_exists,
  unknown_wish, unknown_definition, not_homebrew, in_use,
}
use dnd_inventory.Rules.Currency.{Denom, denom_eq}
use dnd_inventory.Rules.Capacity.{EncumbranceRule}
use dnd_inventory.State.{
  State, Context, GameSession, WishlistEntry, ItemDefinition, ItemInstance, character_id, wish_id,
  definition_id,
}
use dnd_inventory.Reducer.Shared.{ReducerResult}
use dnd_inventory.Reducer.Stashes.{is_empty_text}
use dnd_inventory.Reducer.Shops.{is_empty_list}
use dnd_inventory.Reducer.Sessions.{
  StartPayload, session_id, current, demoted, demote, new_session, stored_notes, start_game_session,
  end_game_session, edit_game_session_notes,
}
use dnd_inventory.Reducer.Sessions.Current.{demote-current_count, new_session-IsStarted}
use dnd_inventory.Reducer.Settings.{rule_eq, rename_party, set_encumbrance, update_party_economy}
use dnd_inventory.Reducer.Characters.Sheet.{
  CharacterPatch, rename_character, changed_fields, edit_character, wish_label, wishlist_add,
  wishlist_remove,
}
use dnd_inventory.Reducer.Catalog.{
  HomebrewPayload, HomebrewPatch, seed_catalog, create_homebrew, is_homebrew, changed_homebrew,
  edit_homebrew, delete_homebrew,
}
use dnd_inventory.Reducer.Actions.Invariant.{StateIsSound, with_sessions, with_members}

module _ (ctx : Context) (s : State) (r : ReducerResult) (w : StateIsSound s) where
  pub start_game_session-StateIsSound :
      (p : StartPayload)
      → Absent session_id p.new_game_session_id s.game_sessions
      → start_game_session ctx (some s) p ≡ ok r
      → StateIsSound r.state
  unfolding start_game_session
  start_game_session-StateIsSound p fresh h =
      passed (not (ctx.is_valid_uuid_v7 p.new_game_session_id)) bad_uuid _ h λ _ h.
        passed (is_some (current s.game_sessions) && not p.end_current_first)
          session_already_current _ h
          λ _ h. done h λ same.
            subst (λ (x : ReducerResult). StateIsSound x.state) same
              (with_sessions s
                (demoted (current s.game_sessions) s.game_sessions ++ new_session ctx s p ∷ []) w
                (new_session-IsStarted ctx s p w.sessions fresh).sound)

  pub end_game_session-StateIsSound : end_game_session (some s) ≡ ok r → StateIsSound r.state
  unfolding end_game_session
  end_game_session-StateIsSound h = found (current s.game_sessions) no_current_session _ h λ gs e h.
      done h λ same.
        subst (λ (x : ReducerResult). StateIsSound x.state) same
          (with_sessions s (update_row session_id gs.id demote s.game_sessions) w (record {
            ids =
                Unique-update_row session_id gs.id demote s.game_sessions (λ _ h. h) w.sessions.ids;
            one_current = omega (arith, demote-current_count s.game_sessions gs w.sessions e);
          }))

  pub edit_game_session_notes-StateIsSound :
      (id : ℕ) (notes : Text)
      → edit_game_session_notes (some s) id notes ≡ ok r
      → StateIsSound r.state
  unfolding edit_game_session_notes
  edit_game_session_notes-StateIsSound id notes h =
      found (find_row session_id id s.game_sessions) unknown_session _ h λ gs e h.
        passed (text_eq (or_else gs.notes []) notes) no_change _ h λ _ h. done h λ same.
          let f : GameSession → GameSession = λ g. record g { notes = stored_notes notes } in
          let measure : GameSession → ℕ = λ g. if g.is_current then 1 else 0 in
          let here = find_row_self session_id id s.game_sessions e in
          subst (λ (x : ReducerResult). StateIsSound x.state) same
            (with_sessions s (update_row session_id gs.id f s.game_sessions) w (record {
              ids = Unique-update_row session_id gs.id f s.game_sessions (λ _ h. h) w.sessions.ids;
              one_current = omega (
                arith,
                w.sessions.one_current,
                sum_of-update_row session_id measure gs.id f s.game_sessions w.sessions.ids here,
              );
            }))

  pub rename_party-StateIsSound :
      (party : ℕ) (name : Text) → rename_party (some s) party name ≡ ok r → StateIsSound r.state
  unfolding rename_party
  rename_party-StateIsSound party name h =
      passed (not (party == s.party.id)) unknown_party _ h λ _ h.
        passed (is_empty_text (trim name)) empty_name _ h λ _ h.
          passed (text_eq (trim name) s.party.name) no_change _ h λ _ h. done h λ same.
            subst (λ (x : ReducerResult). StateIsSound x.state) same
              (with_members s (record s.party { name = trim name }) s.memberships w refl
                (record { led = w.members.led; banker = w.members.banker }))

  pub set_encumbrance-StateIsSound :
      (party : ℕ) (rule : EncumbranceRule) (enforce : Bool)
      → set_encumbrance (some s) party rule enforce ≡ ok r
      → StateIsSound r.state
  unfolding set_encumbrance
  set_encumbrance-StateIsSound party rule enforce h =
      passed (not (party == s.party.id)) unknown_party _ h λ _ h.
        passed
          (rule_eq rule s.party.encumbrance_rule && bool_eq enforce s.party.enforce_encumbrance)
          no_change _ h
          λ _ h. done h λ same.
            subst (λ (x : ReducerResult). StateIsSound x.state) same
              (with_members s
                (record s.party { encumbrance_rule = rule; enforce_encumbrance = enforce })
                s.memberships w refl (record { led = w.members.led; banker = w.members.banker }))

  pub update_party_economy-StateIsSound :
      (party modifier : ℕ) (base : Denom)
      → update_party_economy (some s) party modifier base ≡ ok r
      → StateIsSound r.state
  unfolding update_party_economy
  update_party_economy-StateIsSound party modifier base h =
      passed (not (party == s.party.id)) unknown_party _ h λ _ h.
        passed (modifier == s.party.price_modifier && denom_eq base s.party.base_currency) no_change
          _ h
          λ _ h. done h λ same.
            subst (λ (x : ReducerResult). StateIsSound x.state) same
              (with_members s (record s.party { price_modifier = modifier; base_currency = base })
                s.memberships w refl (record { led = w.members.led; banker = w.members.banker }))

  pub rename_character-StateIsSound :
      (id : ℕ) (name : Text) → rename_character (some s) id name ≡ ok r → StateIsSound r.state
  unfolding rename_character
  rename_character-StateIsSound id name h =
      found (find_row character_id id s.characters) unknown_character _ h λ c _ h.
        passed (is_empty_text (trim name)) empty_name _ h λ _ h.
          passed (text_eq (trim name) c.name) no_change _ h
            λ _ h. done h λ same. subst (λ (x : ReducerResult). StateIsSound x.state) same w

  pub edit_character-StateIsSound :
      (id : ℕ) (patch : CharacterPatch)
      → edit_character (some s) id patch ≡ ok r
      → StateIsSound r.state
  unfolding edit_character
  edit_character-StateIsSound id patch h =
      found (find_row character_id id s.characters) unknown_character _ h λ c _ h.
        passed (is_empty_list (changed_fields c patch)) no_change _ h
          λ _ h. done h λ same. subst (λ (x : ReducerResult). StateIsSound x.state) same w

  pub wishlist_add-StateIsSound :
      (id : ℕ) (entry : WishlistEntry)
      → wishlist_add (some s) id entry ≡ ok r
      → StateIsSound r.state
  unfolding wishlist_add
  wishlist_add-StateIsSound id entry h =
      found (find_row character_id id s.characters) unknown_character _ h λ c _ h.
        passed (any (λ e. wish_id e == wish_id entry) c.wishlist) already_exists _ h λ _ h.
          returned (wish_label s entry) _ h
            λ _ _ h. done h λ same. subst (λ (x : ReducerResult). StateIsSound x.state) same w

  pub wishlist_remove-StateIsSound :
      (id entry : ℕ) → wishlist_remove (some s) id entry ≡ ok r → StateIsSound r.state
  unfolding wishlist_remove
  wishlist_remove-StateIsSound id entry h =
      found (find_row character_id id s.characters) unknown_character _ h λ c _ h.
        passed (not (any (λ e. wish_id e == entry) c.wishlist)) unknown_wish _ h
          λ _ h. done h λ same. subst (λ (x : ReducerResult). StateIsSound x.state) same w

  pub seed_catalog-StateIsSound :
      (version : ℕ) (entries : List ItemDefinition)
      → seed_catalog (some s) version entries ≡ ok r
      → StateIsSound r.state
  unfolding seed_catalog
  seed_catalog-StateIsSound version entries h =
      done h λ same. subst (λ (x : ReducerResult). StateIsSound x.state) same w

  pub create_homebrew-StateIsSound :
      (p : HomebrewPayload) → create_homebrew ctx (some s) p ≡ ok r → StateIsSound r.state
  unfolding create_homebrew
  create_homebrew-StateIsSound p h =
      passed (not (ctx.is_valid_uuid_v7 p.new_definition_id)) bad_uuid _ h λ _ h.
        passed (is_empty_text (trim p.name)) empty_name _ h
          λ _ h. done h λ same. subst (λ (x : ReducerResult). StateIsSound x.state) same w

  pub edit_homebrew-StateIsSound :
      (id : ℕ) (patch : HomebrewPatch)
      → edit_homebrew (some s) id patch ≡ ok r
      → StateIsSound r.state
  unfolding edit_homebrew
  edit_homebrew-StateIsSound id patch h =
      found (find_row definition_id id s.catalog) unknown_definition _ h λ row _ h.
        passed (not (is_homebrew row.source)) not_homebrew _ h λ _ h.
          passed (is_empty_list (changed_homebrew row patch)) no_change _ h
            λ _ h. done h λ same. subst (λ (x : ReducerResult). StateIsSound x.state) same w

  pub delete_homebrew-StateIsSound :
      (id : ℕ) → delete_homebrew (some s) id ≡ ok r → StateIsSound r.state
  unfolding delete_homebrew
  delete_homebrew-StateIsSound id h =
      found (find_row definition_id id s.catalog) unknown_definition _ h λ row _ h.
        passed (not (is_homebrew row.source)) not_homebrew _ h λ _ h.
          passed (any (λ (i : ItemInstance). i.definition_id == id) s.items) in_use _ h
            λ _ h. done h λ same. subst (λ (x : ReducerResult). StateIsSound x.state) same w
