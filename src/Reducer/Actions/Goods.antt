-- ===== src/Reducer/Actions/Goods.antt =====
-- That the actions on items keep a state sound.
use dnd_inventory.Prelude.{
  ℕ, ◌<◌, ◌≡◌, refl, sym, subst, arith, Bool, inl, inr, Option, some, none, List, Absent, find_row,
  update_row, map, ◌==◌, ◌&&◌, ltb, not, if◌then◌else◌, Bool-cases, find_row_self, or_else,
  All-find_row, All-remove_row, Unique-remove_row, bool_eq,
}
use dnd_inventory.Result.{
  ok, found, passed, returned, done, unknown_item, unknown_definition, no_change, charges_unset,
  bad_quantity, insufficient_charges, unknown_character,
}
use dnd_inventory.Rules.Charges.{ChargeSpec, BatchRechargeTrigger, use_charge, is_single_use}
use dnd_inventory.State.{State, Context, ItemInstance, item_id, definition_id, character_id}
use dnd_inventory.Reducer.Shared.{ReducerResult}
use dnd_inventory.Reducer.Counts.{ItemsAreSound, set-IsMoved, map-IsMoved, update-ItemsAreSound}
use dnd_inventory.Reducer.Acquire.{AcquirePayload, acquire}
use dnd_inventory.Reducer.Acquire.Quantities.{acquire-IsAcquired}
use dnd_inventory.Reducer.Stacks.{Patch, changes, opt_text_eq, consume, split, edit_item_instance}
use dnd_inventory.Reducer.Stacks.Quantities.{consume-IsConsumed, split-IsSplit}
use dnd_inventory.Reducer.Transfer.{TransferPayload, transfer}
use dnd_inventory.Reducer.Transfer.Quantities.{transfer-IsMoved}
use dnd_inventory.Reducer.Flags.{
  EquipPayload, AttunePayload, equip_or_unequip, attune_or_unattune, resolve_inventory_row,
}
use dnd_inventory.Reducer.Flags.Flips.{Fresh, resolve_inventory_row-ok}
use dnd_inventory.Reducer.Flags.Restack.{equip_or_unequip-IsMoved, attune_or_unattune-IsMoved}
use dnd_inventory.Reducer.ChargeActions.{
  charges_of, set_charges, use_up, spent_items, spend_charge, recharged, recharge_single,
  batch_rows, apply_update, recharge_batch,
}
use dnd_inventory.Reducer.Identify.{
  patched_hint, identify_row, affected_rows, identify_affected, identify, identify_batch,
}
use dnd_inventory.Reducer.ChargeActions.Batch.{apply_update-Keeps}
use dnd_inventory.Reducer.Identify.Batch.{identify_affected-Keeps}
use dnd_inventory.Reducer.Transfer.{is_empty}
use dnd_inventory.Reducer.Actions.Invariant.{StateIsSound, with_items}

-- An action that changed nothing but the items.
only_items :
    (s s' : State)
    → StateIsSound s
    → ItemsAreSound s'.items
    → s' ≡ record s { items = s'.items }
    → StateIsSound s'
only_items s s' w new e = subst StateIsSound (sym e) (with_items s s'.items w new)

module _ (ctx : Context) (s : State) (r : ReducerResult) (w : StateIsSound s) where
  pub acquire-StateIsSound :
      (p : AcquirePayload)
      → Absent item_id p.new_item_instance_id s.items
      → acquire ctx (some s) p ≡ ok r
      → StateIsSound r.state
  acquire-StateIsSound p fresh h =
      let out = acquire-IsAcquired ctx s p r w.items fresh h in
      only_items s r.state w out.0.sound out.1

  pub consume-StateIsSound :
      (item quantity : ℕ) → consume (some s) item quantity ≡ ok r → StateIsSound r.state
  consume-StateIsSound item quantity h =
      let out = consume-IsConsumed s item quantity r w.items h in
      only_items s r.state w out.2.sound out.3

  pub split-StateIsSound :
      (item quantity new_id : ℕ)
      → Absent item_id new_id s.items
      → split ctx (some s) item quantity new_id ≡ ok r
      → StateIsSound r.state
  split-StateIsSound item quantity new_id fresh h =
      let out = split-IsSplit ctx s item quantity new_id r w.items fresh h in
      only_items s r.state w out.2.sound out.3

  pub transfer-StateIsSound :
      (p : TransferPayload)
      → Absent item_id p.new_item_instance_id s.items
      → transfer ctx (some s) p ≡ ok r
      → StateIsSound r.state
  transfer-StateIsSound p fresh h =
      let out = transfer-IsMoved ctx s p r w.items fresh h in
      only_items s r.state w out.0.sound out.1

  pub equip-StateIsSound :
      (on : Bool) (p : EquipPayload)
      → Fresh p.new_item_instance_id s.items
      → equip_or_unequip ctx (some s) on p ≡ ok r
      → StateIsSound r.state
  equip-StateIsSound on p fresh h =
      let out = equip_or_unequip-IsMoved ctx s on p r w.items fresh h in
      only_items s r.state w out.0.sound out.1

  pub attune-StateIsSound :
      (on : Bool) (p : AttunePayload)
      → Fresh p.new_item_instance_id s.items
      → attune_or_unattune ctx (some s) on p ≡ ok r
      → StateIsSound r.state
  attune-StateIsSound on p fresh h =
      let out = attune_or_unattune-IsMoved ctx s on p r w.items fresh h in
      only_items s r.state w out.0.sound out.1

  -- A row is overwritten by one with the same id, definition and quantity.
  overwritten :
      (k : ℕ) (row new_row : ItemInstance)
      → find_row item_id k s.items ≡ some row
      → (new_row.id ≡ row.id)
        × (new_row.definition_id ≡ row.definition_id)
        × (new_row.quantity ≡ row.quantity)
      → StateIsSound (record s { items = update_row item_id row.id (λ _. new_row) s.items })
  overwritten k row new_row e same =
      with_items s (update_row item_id row.id (λ _. new_row) s.items) w
        (set-IsMoved s.items row.id row new_row w.items (find_row_self item_id k s.items e)
          same).sound

  pub edit_item_instance-StateIsSound :
      (item : ℕ) (name notes : Patch)
      → edit_item_instance (some s) item name notes ≡ ok r
      → StateIsSound r.state
  unfolding edit_item_instance
  edit_item_instance-StateIsSound item name notes h =
      found (find_row item_id item s.items) unknown_item _ h λ row e h.
        passed (not (changes name row.custom_name) && not (changes notes row.notes)) no_change _ h
          λ _ h. done h λ same.
            subst (λ (x : ReducerResult). StateIsSound x.state) same
              (overwritten item row
                (record row {
                  custom_name =
                      if changes name row.custom_name then or_else name none else row.custom_name;
                  notes = if changes notes row.notes then or_else notes none else row.notes;
                })
                e (refl, refl, refl))

  pub identify-StateIsSound :
      (item : ℕ) (flag : Bool) (patch : Patch)
      → identify (some s) item flag patch ≡ ok r
      → StateIsSound r.state
  unfolding identify
  identify-StateIsSound item flag patch h =
      found (find_row item_id item s.items) unknown_item _ h λ row e h.
        found (find_row definition_id row.definition_id s.catalog) unknown_definition _ h λ _ _ h.
          passed (bool_eq row.identified flag && opt_text_eq row.hint (patched_hint patch row))
            no_change _ h
            λ _ h. done h λ same.
              subst (λ (x : ReducerResult). StateIsSound x.state) same
                (overwritten item row (identify_row flag patch row) e (refl, refl, refl))

  pub identify_batch-StateIsSound :
      (definition : ℕ) (flag : Bool) (patch : Patch)
      → identify_batch (some s) definition flag patch ≡ ok r
      → StateIsSound r.state
  unfolding identify_batch
  identify_batch-StateIsSound definition flag patch h =
      let affected = affected_rows definition flag s.items in
      let g = identify_affected (map item_id affected) flag patch in
      passed (is_empty affected) no_change _ h λ _ h. done h λ same.
        subst (λ (x : ReducerResult). StateIsSound x.state) same
          (with_items s (map g s.items) w
            (map-IsMoved g s.items (identify_affected-Keeps (map item_id affected) flag patch)
              w.items).sound)

  spent_items-ItemsAreSound :
      (spec : ChargeSpec) (row : ItemInstance) (left : ℕ)
      → find_row item_id row.id s.items ≡ some row
      → ItemsAreSound (spent_items spec row left s.items)
  spent_items-ItemsAreSound spec row left e =
      let filled : ItemInstance → Type 0 = λ i. 0 < i.quantity in
      let positive : 0 < row.quantity =
        All-find_row item_id filled row.id s.items w.items.filled e in
      elim (Bool-cases (is_single_use spec && left == 0 && ltb 0 row.quantity)) [
        | inl used ↦
            rw (spent_items, used)
              (elim (Bool-cases (row.quantity == 1)) [
                | inl last ↦ rw last (record {
                  ids = Unique-remove_row item_id row.id s.items w.items.ids;
                  filled = All-remove_row item_id filled row.id s.items w.items.filled;
                })
                | inr more ↦ rw more (
                    update-ItemsAreSound s.items row row.id (use_up spec.max) (λ _. refl) e
                      (ground arith) w.items)
              ])
        | inr kept ↦
            rw (spent_items, kept)
              (update-ItemsAreSound s.items row row.id (set_charges left) (λ _. refl) e positive
                w.items)
      ]

  pub spend_charge-StateIsSound :
      (item character : ℕ) (amount : Option ℕ)
      → spend_charge (some s) item character amount ≡ ok r
      → StateIsSound r.state
  unfolding spend_charge
  spend_charge-StateIsSound item character amount h =
      returned (resolve_inventory_row s item character) _ h λ pair got h.
        returned (charges_of s pair.0) _ h λ spec _ h.
          found pair.0.current_charges charges_unset _ h λ current _ h.
            passed (or_else amount 1 == 0) bad_quantity _ h λ _ h.
              passed (ltb current (or_else amount 1)) insufficient_charges _ h λ _ h.
                returned (use_charge current (or_else amount 1)) _ h λ left _ h. done h λ same.
                  let e =
                    find_row_self item_id item s.items
                      (resolve_inventory_row-ok s item character pair got).0 in
                  subst (λ (x : ReducerResult). StateIsSound x.state) same
                    (with_items s (spent_items spec pair.0 left s.items) w
                      (spent_items-ItemsAreSound spec pair.0 left e))

  pub recharge_single-StateIsSound :
      (item character : ℕ) (amount : Option ℕ)
      → recharge_single (some s) item character amount ≡ ok r
      → StateIsSound r.state
  unfolding recharge_single
  recharge_single-StateIsSound item character amount h =
      let filled : ItemInstance → Type 0 = λ i. 0 < i.quantity in
      returned (resolve_inventory_row s item character) _ h λ pair got h.
        returned (charges_of s pair.0) _ h λ spec _ h.
          returned (recharged spec (or_else pair.0.current_charges 0) amount) _ h λ after _ h.
            passed (or_else pair.0.current_charges 0 == after) no_change _ h λ _ h. done h λ same.
              let row = pair.0 in
              let e =
                find_row_self item_id item s.items
                  (resolve_inventory_row-ok s item character pair got).0 in
              subst (λ (x : ReducerResult). StateIsSound x.state) same
                (with_items s (update_row item_id row.id (set_charges after) s.items) w (
                  update-ItemsAreSound s.items row row.id (set_charges after) (λ _. refl) e
                    (All-find_row item_id filled row.id s.items w.items.filled e) w.items))

  pub recharge_batch-StateIsSound :
      (character_key : ℕ) (trigger : BatchRechargeTrigger) (amounts : Option (List (ℕ × ℕ)))
      → recharge_batch (some s) character_key trigger amounts ≡ ok r
      → StateIsSound r.state
  unfolding recharge_batch
  recharge_batch-StateIsSound character_key trigger amounts h =
      found (find_row character_id character_key s.characters) unknown_character _ h
        λ character _ h.
          returned (batch_rows s character trigger amounts s.items) _ h λ updated _ h.
            done h λ same.
              subst (λ (x : ReducerResult). StateIsSound x.state) same
                (with_items s (map (apply_update updated) s.items) w
                  (map-IsMoved (apply_update updated) s.items (apply_update-Keeps updated)
                    w.items).sound)
