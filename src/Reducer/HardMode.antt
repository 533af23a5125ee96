-- ===== src/Reducer/HardMode.antt =====
-- What `checkHardMode` keeps `acquire` and `transfer` from.
use dnd_inventory.Prelude.{
  ℕ, ◌≡◌, refl, sym, subst, ◌∙◌, Bool, true, false, not, ◌&&◌, some, List, ◌==◌, find_row, any, leb,
}
use dnd_inventory.Result.{
  ok, returned, passed, found, done, over_capacity, bad_uuid, bad_quantity, unknown_stash,
  unknown_definition, unknown_item, same_stash, throw_if, Error,
}
use dnd_inventory.Rules.Capacity.{encumbrance_state, heavy_threshold, exceeds, EncumbranceState}
use dnd_inventory.Rules.Capacity.Bands.{is_heavy, exceeds-encumbrance_state}
use dnd_inventory.State.{State, ItemInstance, Character, Context, item_id, stash_id, definition_id}
use dnd_inventory.Reducer.Shared.{ReducerResult, hard_mode_character, stash_weight, check_hard_mode}
use dnd_inventory.Reducer.Acquire.{AcquirePayload, place_acquired, acquire}
use dnd_inventory.Reducer.Stacks.{validate_transfer}
use dnd_inventory.Reducer.Transfer.{
  TransferPayload, changing_parent, check_container, place_moved, transfer,
}

-- The band of what a stash holds, for the character whose Inventory it is.
abbrev pub load_of : State → List ItemInstance → ℕ → Character → EncumbranceState
load_of s items stash character =
    encumbrance_state (stash_weight s items stash) character.str character.size
      s.party.encumbrance_rule

last_guard : (c : Bool) (reason : Error) {u : Unit {0}} → throw_if c reason ≡ ok u → c ≡ false
last_guard true reason h = cc
last_guard false reason h = refl

check_hard_mode-light :
    (s : State) (items : List ItemInstance) (stash : ℕ) (character : Character) {u : Unit {0}}
    → hard_mode_character s stash ≡ some character
    → check_hard_mode s items stash ≡ ok u
    → is_heavy (load_of s items stash character) ≡ false
unfolding check_hard_mode
check_hard_mode-light s items stash character e h =
    let threshold = heavy_threshold character.str character.size s.party.encumbrance_rule in
    let guard = rw (check_hard_mode, e) at h in
    sym (
      exceeds-encumbrance_state (stash_weight s items stash) character.str character.size
        s.party.encumbrance_rule)
    ∙ last_guard (exceeds (stash_weight s items stash) threshold) over_capacity guard

-- Where the party enforces its rule and the stash is a character's Inventory, an `acquire` that
-- succeeds does not leave that character heavily encumbered.
pub acquire-light :
    (ctx : Context) (s : State) (p : AcquirePayload) (character : Character) (r : ReducerResult)
    → hard_mode_character s p.stash_id ≡ some character
    → acquire ctx (some s) p ≡ ok r
    → is_heavy (load_of s r.state.items p.stash_id character) ≡ false
unfolding acquire
acquire-light ctx s p character r e h =
    passed (not (ctx.is_valid_uuid_v7 p.new_item_instance_id)) bad_uuid _ h λ _ h.
      passed (leb p.quantity 0) bad_quantity _ h λ _ h.
        passed (not (any (λ st. st.id == p.stash_id) s.stashes)) unknown_stash _ h λ _ h.
          found (find_row definition_id p.definition_id s.catalog) unknown_definition _ h
            λ definition _ h.
              returned (check_hard_mode s (place_acquired ctx.whole s definition p).1 p.stash_id) _
                h
                λ _ light h. done h λ same.
                  subst
                    (λ (x : ReducerResult).
                      is_heavy (load_of s x.state.items p.stash_id character) ≡ false)
                    same
                    (check_hard_mode-light s (place_acquired ctx.whole s definition p).1 p.stash_id
                      character e light)

-- Where the party enforces its rule and the destination is a character's Inventory, a `transfer`
-- that succeeds does not leave that character heavily encumbered.
pub transfer-light :
    (ctx : Context) (s : State) (p : TransferPayload) (character : Character) (r : ReducerResult)
    → hard_mode_character s p.to_stash_id ≡ some character
    → transfer ctx (some s) p ≡ ok r
    → is_heavy (load_of s r.state.items p.to_stash_id character) ≡ false
unfolding transfer
transfer-light ctx s p character r e h =
    passed (not (ctx.is_valid_uuid_v7 p.new_item_instance_id)) bad_uuid _ h λ _ h.
      found (find_row item_id p.item_instance_id s.items) unknown_item _ h λ source _ h.
        found (find_row stash_id p.to_stash_id s.stashes) unknown_stash _ h λ to_stash _ h.
          passed
            (source.owner_id == p.to_stash_id
              && not (changing_parent p.to_container_instance_id source.container_instance_id))
            same_stash _ h
            λ _ h. returned (check_container s p p.to_container_instance_id) _ h λ _ _ h.
              returned (validate_transfer source p.quantity) _ h λ _ _ h.
                returned (check_hard_mode s (place_moved s p to_stash source).1 p.to_stash_id) _ h
                  λ _ light h. done h λ same.
                    subst
                      (λ (x : ReducerResult).
                        is_heavy (load_of s x.state.items p.to_stash_id character) ≡ false)
                      same
                      (check_hard_mode-light s (place_moved s p to_stash source).1 p.to_stash_id
                        character e light)
