-- ===== src/Reducer/Flags/Flips.antt =====
-- What a call of `equip`, `unequip`, `attune` or `unattune` that succeeds has done.
use dnd_inventory.Prelude.{
  ℕ, ◌<◌, ◌≡◌, refl, subst, arith, Bool, false, inl, inr, Option, none, some, List, [], ◌∷◌, Absent,
  find_row, ◌==◌, not, ◌&&◌, ltb, if◌then◌else◌, Bool-cases, bool_eq,
}
use dnd_inventory.Result.{
  ok, returned, passed, found, done, unknown_character, unknown_item, not_in_inventory,
  already_in_state, missing_split_id, bad_uuid,
}
use dnd_inventory.State.{State, ItemInstance, Character, Context, item_id, character_id}
use dnd_inventory.State.Log.{LogSlice}
use dnd_inventory.Reducer.Shared.{ReducerResult}
use dnd_inventory.Reducer.Flags.{
  resolve_inventory_row, FlagPatch, flip_and_restack, split_off_items, split_off, flip,
  EquipPayload, equip_or_unequip, AttunePayload, check_attune, attune_or_unattune,
}

-- The id for an auto-split, where one is given, is no row's.
abbrev pub Fresh : Option ℕ → List ItemInstance → Type 0
Fresh none items = Unit
Fresh (some k) items = Absent item_id k items

-- The two ways in which a flag is set on `row`.
pub data FlippedItems (items : List ItemInstance) (row : ItemInstance) (new_item : Option ℕ)
    (on : Bool) (patch : FlagPatch) : List ItemInstance → Type 0 where
  split_away :
      (new_id : ℕ)
      → new_item ≡ some new_id
      → 1 < row.quantity
      → FlippedItems items row new_item on patch (split_off_items items row new_id patch)
  flipped :
      (on && ltb 1 row.quantity) ≡ false
      → FlippedItems items row new_item on patch (flip_and_restack items row.id patch)

-- A flip that succeeded: the row was in the character's Inventory, and its items are one of those.
pub record IsFlip (s : State) (item character_key : ℕ) (new_item : Option ℕ) (on : Bool)
    (patch : FlagPatch) (s' : State) : Type 0 where
  pub row : ItemInstance
  pub character : Character
  pub row_found : find_row item_id item s.items ≡ some row
  pub character_found : find_row character_id character_key s.characters ≡ some character
  pub carried : row.owner_id ≡ character.inventory_stash_id
  pub items : FlippedItems s.items row new_item on patch s'.items
  pub rest : s' ≡ record s { items = s'.items }

pub resolve_inventory_row-ok :
    (s : State) (item character_key : ℕ) (pair : ItemInstance × Character)
    → resolve_inventory_row s item character_key ≡ ok pair
    → (find_row item_id item s.items ≡ some pair.0)
      × (find_row character_id character_key s.characters ≡ some pair.1)
      × (pair.0.owner_id ≡ pair.1.inventory_stash_id)
resolve_inventory_row-ok s item character_key pair h =
    found (find_row character_id character_key s.characters) unknown_character _ h λ c e_c h.
      found (find_row item_id item s.items) unknown_item _ h λ row e h.
        passed (not (row.owner_id == c.inventory_stash_id)) not_in_inventory _ h λ here h.
          done h λ same.
            subst
              (λ (q : ItemInstance × Character).
                (find_row item_id item s.items ≡ some q.0)
                × (find_row character_id character_key s.characters ≡ some q.1)
                × (q.0.owner_id ≡ q.1.inventory_stash_id))
              same (e, e_c, ground arith)

flip-FlippedItems :
    (ctx : Context) (s : State) (row : ItemInstance) (on : Bool) (new_item : Option ℕ)
    (patch : FlagPatch) (log : ℕ → LogSlice) (r : ReducerResult)
    → flip ctx s row on new_item patch log ≡ ok r
    → FlippedItems s.items row new_item on patch r.state.items
      × (r.state ≡ record s { items = r.state.items })
flip-FlippedItems ctx s row on new_item patch log r h =
    elim (Bool-cases (on && ltb 1 row.quantity)) [
      | inl many ↦
          let h' : split_off ctx s row new_item patch log ≡ ok r =
            subst
              (λ b.
                (if b
                  then split_off ctx s row new_item patch log
                  else ok (record {
                    state = record s { items = flip_and_restack s.items row.id patch };
                    log_entries = log row.id ∷ [];
                  }))
                ≡ ok r)
              many h in
          found new_item missing_split_id _ h' λ new_id e h'.
            passed (not (ctx.is_valid_uuid_v7 new_id)) bad_uuid _ h' λ _ h'. done h' λ same.
              subst
                (λ (x : ReducerResult).
                  FlippedItems s.items row new_item on patch x.state.items
                  × (x.state ≡ record s { items = x.state.items }))
                same (split_away new_id e (ground arith), refl)
      | inr few ↦
          let h' =
            subst
              (λ b.
                (if b
                  then split_off ctx s row new_item patch log
                  else ok (record {
                    state = record s { items = flip_and_restack s.items row.id patch };
                    log_entries = log row.id ∷ [];
                  }))
                ≡ ok r)
              few h in
          done h' λ same.
            subst
              (λ (x : ReducerResult).
                FlippedItems s.items row new_item on patch x.state.items
                × (x.state ≡ record s { items = x.state.items }))
              same (flipped few, refl)
    ]

pub equip_or_unequip-IsFlip :
    (ctx : Context) (s : State) (on : Bool) (p : EquipPayload) (r : ReducerResult)
    → equip_or_unequip ctx (some s) on p ≡ ok r
    → IsFlip s p.item_instance_id p.character_id p.new_item_instance_id on
        (FlagPatch.equipped on)
        r.state
unfolding equip_or_unequip
equip_or_unequip-IsFlip ctx s on p r h =
    returned (resolve_inventory_row s p.item_instance_id p.character_id) _ h λ pair got h.
      passed (bool_eq pair.0.equipped on) already_in_state _ h λ _ h.
        let where_ = resolve_inventory_row-ok s p.item_instance_id p.character_id pair got in
        let step =
          flip-FlippedItems ctx s pair.0 on p.new_item_instance_id (FlagPatch.equipped on) _ r h in
        record {
          row = pair.0;
          character = pair.1;
          row_found = where_.0;
          character_found = where_.1;
          carried = where_.2;
          items = step.0;
          rest = step.1;
        }

pub attune_or_unattune-IsFlip :
    (ctx : Context) (s : State) (on : Bool) (p : AttunePayload) (r : ReducerResult)
    → attune_or_unattune ctx (some s) on p ≡ ok r
    → (flip : IsFlip s p.item_instance_id p.character_id p.new_item_instance_id on
        (FlagPatch.attuned on)
        r.state)
      × ((if on then check_attune s flip.row flip.character p.override_cap else ok tt) ≡ ok tt)
unfolding attune_or_unattune
attune_or_unattune-IsFlip ctx s on p r h =
    returned (resolve_inventory_row s p.item_instance_id p.character_id) _ h λ pair got h.
      passed (bool_eq pair.0.attuned on) already_in_state _ h λ _ h.
        returned (if on then check_attune s pair.0 pair.1 p.override_cap else ok tt) _ h
          λ _ checked h.
            let where_ = resolve_inventory_row-ok s p.item_instance_id p.character_id pair got in
            let step =
              flip-FlippedItems ctx s pair.0 on p.new_item_instance_id (FlagPatch.attuned on) _ r
                h in
            (
              record {
                row = pair.0;
                character = pair.1;
                row_found = where_.0;
                character_found = where_.1;
                carried = where_.2;
                items = step.0;
                rest = step.1;
              },
              checked,
            )
