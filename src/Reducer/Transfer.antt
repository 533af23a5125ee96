-- ===== src/Reducer/Transfer.antt =====
-- packages/rules/src/reducer/index.ts: `transfer`, the move of items to another stash or into and
-- out of a container.
pub mod Placing
pub mod Quantities
use dnd_inventory.Prelude.{
  ℕ, ◌+◌, ◌-◌, Bool, true, false, not, ◌&&◌, ◌||◌, Option, none, some, List, [], ◌∷◌, ◌++◌, map,
  find_row, filter, any, ◌==◌, is_some, opt_eq, if◌then◌else◌, includes,
}
use dnd_inventory.Result.{
  Result, ok, ◌>>=◌, ◌>>◌, or_throw, throw_if, bad_uuid, unknown_item, unknown_stash, same_stash,
  self_reference, nested_container, container_elsewhere,
}
use dnd_inventory.State.{
  State, AppState, ItemInstance, Stash, Context, item_id, stash_id, definition_id,
}
use dnd_inventory.State.Log.{LogSlice, ItemField, ParentChange, keep, take_out, pack_into}
use dnd_inventory.Reducer.Shared.{ReducerResult, require_state, is_inventory, check_hard_mode}
use dnd_inventory.Reducer.Acquire.{charges_max}
use dnd_inventory.Reducer.Stacks.{find_auto_stack_target, validate_transfer, take_quantity}

pub record TransferPayload : Type 0 where
  pub item_instance_id : ℕ
  pub to_stash_id : ℕ
  pub quantity : ℕ
  pub to_container_instance_id : ParentChange
  pub new_item_instance_id : ℕ

-- `changingContainerParent`
abbrev pub changing_parent : ParentChange → Option ℕ → Bool
changing_parent keep old = false
changing_parent take_out old = not (opt_eq none old)
changing_parent (pack_into c) old = not (opt_eq (some c) old)

-- The guards on the destination container.
abbrev pub check_container : State → TransferPayload → ParentChange → Result (Unit {0})
check_container s p keep = ok tt
check_container s p take_out = ok tt
check_container s p (pack_into c) = do
  throw_if (c == p.item_instance_id) self_reference
  parent ← or_throw (find_row item_id c s.items) unknown_item
  throw_if (is_some parent.container_instance_id) nested_container
  throw_if (not (parent.owner_id == p.to_stash_id)) container_elsewhere

-- Whether a stash id is that of a character's Inventory.
abbrev pub is_inventory_id : State → ℕ → Bool
is_inventory_id s stash = elim (find_row stash_id stash s.stashes) [
  | none ↦ false
  | some st ↦ is_inventory st
]

-- `clearedFields`: the flags that a row loses when it leaves an Inventory.
abbrev pub cleared_fields : State → TransferPayload → ItemInstance → List ItemField
cleared_fields s p source =
    if is_inventory_id s source.owner_id && not (p.to_stash_id == source.owner_id)
    then (if source.equipped then ItemField.equipped ∷ [] else [])
      ++ (if source.attuned then ItemField.attuned ∷ [] else [])
    else []

abbrev pub is_keep : ParentChange → Bool
is_keep keep = true
is_keep _ = false

abbrev pub dropping_parent : TransferPayload → ItemInstance → Bool
dropping_parent p source =
    is_keep p.to_container_instance_id
    && is_some source.container_instance_id
    && not (p.to_stash_id == source.owner_id)

-- `enteringChargesMax`
abbrev pub entering_charges_max : State → TransferPayload → Stash → ItemInstance → Option ℕ
entering_charges_max s p to_stash source =
    if is_inventory to_stash
      && not (source.owner_id == p.to_stash_id)
      && not (is_some source.current_charges)
    then elim (find_row definition_id source.definition_id s.catalog) [
      | none ↦ none
      | some d ↦ charges_max d
    ]
    else none

abbrev pub is_empty {ℓ} : {A : Type ℓ} → List A → Bool
is_empty [] = true
is_empty (x ∷ xs) = false

abbrev new_parent : ParentChange → Bool → Option ℕ → Option ℕ
new_parent keep dropping old = if dropping then none else old
new_parent take_out dropping old = none
new_parent (pack_into c) dropping old = some c

-- `applyMovedRowMutations`
abbrev pub moved_row : State → TransferPayload → Stash → ItemInstance → ItemInstance → ItemInstance
moved_row s p to_stash source row =
    let kept = is_empty (cleared_fields s p source) in
    record row {
      equipped = kept && row.equipped;
      attuned = kept && row.attuned;
      current_charges = elim (entering_charges_max s p to_stash source) [
        | none ↦ row.current_charges
        | some max ↦ some max
      ];
      container_instance_id =
          new_parent p.to_container_instance_id (dropping_parent p source)
            row.container_instance_id;
    }

abbrev pub add_quantity : ℕ → ItemInstance → ItemInstance
add_quantity qty i = record i { quantity = i.quantity + qty }

-- A row that stacks: on a full move the source goes, on a partial one it is decremented.
unfoldable pub stacked_items :
    TransferPayload
    → (ItemInstance → ItemInstance)
    → ItemInstance
    → ItemInstance
    → List ItemInstance
    → List ItemInstance
stacked_items p moved source target items =
    if p.quantity == source.quantity
    then map (λ i. if i.id == target.id then moved (add_quantity p.quantity i) else i)
        (filter (λ i. not (i.id == source.id)) items)
    else map
        (λ i.
          if i.id == source.id
          then take_quantity p.quantity i
          else if i.id == target.id
          then moved (add_quantity p.quantity i)
          else i)
        items

-- `childRows`, as the set of their ids.
abbrev pub child_ids : TransferPayload → ItemInstance → List ItemInstance → List ℕ
child_ids p source items =
    if source.owner_id == p.to_stash_id
    then []
    else map item_id (
        filter
          (λ i. opt_eq i.container_instance_id (some source.id) && i.owner_id == source.owner_id)
          items)

-- A full move with nothing to stack onto: the row and its contents change hands.
unfoldable pub moved_items :
    TransferPayload
    → (ItemInstance → ItemInstance)
    → ItemInstance
    → List ItemInstance
    → List ItemInstance
moved_items p moved source items =
    map
      (λ (i : ItemInstance).
        if i.id == source.id
        then moved (record i { owner_id = p.to_stash_id })
        else if includes i.id (child_ids p source items)
        then record i { owner_id = p.to_stash_id }
        else i)
      items

abbrev pub new_row : TransferPayload → (ItemInstance → ItemInstance) → ItemInstance → ItemInstance
new_row p moved source =
    moved (record source {
      id = p.new_item_instance_id;
      owner_id = p.to_stash_id;
      quantity = p.quantity;
    })

-- A partial move with nothing to stack onto: a fresh row for what was moved.
unfoldable pub parted_items :
    TransferPayload
    → (ItemInstance → ItemInstance)
    → ItemInstance
    → List ItemInstance
    → List ItemInstance
parted_items p moved source items =
    map (λ i. if i.id == source.id then take_quantity p.quantity i else i) items
    ++ new_row p moved source ∷ []

-- The row that an arrival stacks onto: none within one stash.
abbrev pub stack_target : State → TransferPayload → ItemInstance → Option ItemInstance
stack_target s p source =
    if source.owner_id == p.to_stash_id
    then none
    else find_auto_stack_target s.items p.to_stash_id source.definition_id source.notes

-- The id of the row that holds what was moved, and the items afterwards.
unfoldable pub place_moved : State → TransferPayload → Stash → ItemInstance → ℕ × List ItemInstance
unfolding stacked_items moved_items parted_items
place_moved s p to_stash source =
    let moved = moved_row s p to_stash source in
    elim (stack_target s p source) [
      | some target ↦ (target.id, stacked_items p moved source target s.items)
      | none ↦
          if p.quantity == source.quantity
          then (source.id, moved_items p moved source s.items)
          else (p.new_item_instance_id, parted_items p moved source s.items)
    ]

abbrev logged_parent : TransferPayload → ItemInstance → ParentChange
logged_parent p source = if dropping_parent p source then take_out else p.to_container_instance_id

abbrev transfer_log : State → TransferPayload → ItemInstance → ℕ → List LogSlice
transfer_log s p source survivor =
    let cleared = cleared_fields s p source in
    LogSlice.transfer survivor p.quantity source.owner_id p.to_stash_id (logged_parent p source)
    ∷ (if is_empty cleared then [] else LogSlice.edit_item_instance survivor cleared ∷ [])

unfoldable pub transfer : Context → AppState → TransferPayload → Result ReducerResult
unfolding place_moved
transfer ctx state p = do
  s ← require_state state
  throw_if (not (ctx.is_valid_uuid_v7 p.new_item_instance_id)) bad_uuid
  source ← or_throw (find_row item_id p.item_instance_id s.items) unknown_item
  to_stash ← or_throw (find_row stash_id p.to_stash_id s.stashes) unknown_stash
  throw_if
      (source.owner_id == p.to_stash_id
        && not (changing_parent p.to_container_instance_id source.container_instance_id))
      same_stash
  check_container s p p.to_container_instance_id
  validate_transfer source p.quantity
  let placed = place_moved s p to_stash source
  check_hard_mode s placed.1 p.to_stash_id
  ok (record {
    state = record s { items = placed.1 };
    log_entries = transfer_log s p source placed.0;
  })
