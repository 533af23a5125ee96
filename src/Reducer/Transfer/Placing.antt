-- ===== src/Reducer/Transfer/Placing.antt =====
-- What the four ways of placing a moved row do to the quantities.
use dnd_inventory.Prelude.{
  ◌<◌, ◌≤◌, ◌≡◌, ◌≢◌, refl, sym, arith, true, false, inl, inr, some, List, Absent, find_row,
  update_row, remove_row, ◌==◌, if◌then◌else◌, Bool-cases, sum_of-update_row, sum_of-remove_row,
  Unique-remove_row, All-remove_row, find_row-update_row_ne, find_row-remove_row_ne, map-update_row,
  map-update_rows, filter-remove_row, Absent-update_row, includes,
}
use dnd_inventory.State.{ItemInstance, item_id}
use dnd_inventory.Reducer.Counts.{
  quantity_as, ItemsAreSound, snoc-ItemsAreSound, count_of-snoc, update-ItemsAreSound, IsMoved,
  Keeps, map-IsMoved,
}
use dnd_inventory.Reducer.Stacks.{take_quantity}
use dnd_inventory.Reducer.Transfer.{
  TransferPayload, add_quantity, stacked_items, moved_items, parted_items, new_row, child_ids,
}

module _ (p : TransferPayload) (moved : ItemInstance → ItemInstance) (keeps : Keeps moved)
    (source : ItemInstance) (items : List ItemInstance) (sound : ItemsAreSound items)
    (e : find_row item_id source.id items ≡ some source) where
  pub moved_items-IsMoved : IsMoved items (moved_items p moved source items)
  unfolding moved_items
  moved_items-IsMoved =
      map-IsMoved _ items
        (λ i.
          elim (i.id == source.id)
            as (λ b.
              let g : ItemInstance =
                if b
                then moved (record i { owner_id = p.to_stash_id })
                else if includes i.id (child_ids p source items)
                then record i { owner_id = p.to_stash_id }
                else i in
              (g.id ≡ i.id) × (g.definition_id ≡ i.definition_id) × (g.quantity ≡ i.quantity)) [
                | true ↦ keeps (record i { owner_id = p.to_stash_id })
                | false ↦
                    elim (includes i.id (child_ids p source items))
                      as (λ b.
                        let g : ItemInstance =
                          if b then record i { owner_id = p.to_stash_id } else i in
                        (g.id ≡ i.id)
                        × (g.definition_id ≡ i.definition_id)
                        × (g.quantity ≡ i.quantity)) [
                          | true ↦ (refl, refl, refl)
                          | false ↦ (refl, refl, refl)
                        ]
              ])
        sound

  pub parted_items-IsMoved :
      Absent item_id p.new_item_instance_id items
      → 0 < p.quantity
      → p.quantity < source.quantity
      → IsMoved items (parted_items p moved source items)
  unfolding parted_items
  parted_items-IsMoved fresh pos less =
      let q = p.quantity in
      let k = keeps (record source {
        id = p.new_item_instance_id;
        owner_id = p.to_stash_id;
        quantity = p.quantity;
      }) in
      rw (map-update_row item_id source.id (take_quantity q) items) (record {
        counts = λ def. ground (
          arith,
          k,
          count_of-snoc (update_row item_id source.id (take_quantity q) items)
              (new_row p moved source) def,
          sum_of-update_row item_id (quantity_as def) source.id (take_quantity q) items sound.ids e,
        );
        sound =
            snoc-ItemsAreSound (update_row item_id source.id (take_quantity q) items)
              (new_row p moved source)
              (rw k.0 (
                Absent-update_row item_id p.new_item_instance_id source.id (take_quantity q) items
                  (λ _ h. h) fresh))
              (rw k.2 pos)
              (update-ItemsAreSound items source source.id (take_quantity q) (λ _. refl) e
                (omega arith) sound);
      })

  module _ (target : ItemInstance) (apart : target.id ≢ source.id)
      (alike : target.definition_id ≡ source.definition_id)
      (e_target : find_row item_id target.id items ≡ some target) (pos : 0 < p.quantity) where
    abbrev arrive : ItemInstance → ItemInstance
    arrive i = moved (add_quantity p.quantity i)

    arrive_key : (i : ItemInstance) → item_id (arrive i) ≡ item_id i
    arrive_key i = (keeps (add_quantity p.quantity i)).0

    whole_stack-IsMoved :
        p.quantity ≡ source.quantity
        → IsMoved items (update_row item_id target.id arrive (remove_row item_id source.id items))
    whole_stack-IsMoved all =
        let rest = remove_row item_id source.id items in
        let e_rest : find_row item_id target.id rest ≡ some target =
          rw (find_row-remove_row_ne item_id target.id source.id items apart) e_target in
        let rest_sound : ItemsAreSound rest = record {
          ids = Unique-remove_row item_id source.id items sound.ids;
          filled =
              All-remove_row item_id (λ (i : ItemInstance). 0 < i.quantity) source.id items
                sound.filled;
        } in
        let k = keeps (add_quantity p.quantity target) in
        record {
          counts = λ def. ground (
            arith,
            k,
            sum_of-remove_row item_id (quantity_as def) source.id items sound.ids e,
            sum_of-update_row item_id (quantity_as def) target.id arrive rest rest_sound.ids e_rest,
          );
          sound =
              update-ItemsAreSound rest target target.id arrive arrive_key e_rest
                (rw k.2 (omega arith)) rest_sound;
        }

    part_stack-IsMoved :
        p.quantity < source.quantity
        → IsMoved items (
            update_row item_id target.id arrive
              (update_row item_id source.id (take_quantity p.quantity) items))
    part_stack-IsMoved less =
        let f = take_quantity p.quantity in
        let rest = update_row item_id source.id f items in
        let e_rest : find_row item_id target.id rest ≡ some target =
          rw (find_row-update_row_ne item_id target.id source.id f items apart (λ _ h. h))
            e_target in
        let rest_sound : ItemsAreSound rest =
          update-ItemsAreSound items source source.id f (λ _. refl) e (omega arith) sound in
        let k = keeps (add_quantity p.quantity target) in
        record {
          counts = λ def. ground (
            arith,
            k,
            sum_of-update_row item_id (quantity_as def) source.id f items sound.ids e,
            sum_of-update_row item_id (quantity_as def) target.id arrive rest rest_sound.ids e_rest,
          );
          sound =
              update-ItemsAreSound rest target target.id arrive arrive_key e_rest
                (rw k.2 (omega arith)) rest_sound;
        }

    pub stacked_items-IsMoved :
        p.quantity ≤ source.quantity → IsMoved items (stacked_items p moved source target items)
    unfolding stacked_items
    stacked_items-IsMoved enough = elim (Bool-cases (p.quantity == source.quantity)) [
      | inl all ↦
          rw
            (
              all,
              filter-remove_row item_id source.id items,
              map-update_row item_id target.id arrive (remove_row item_id source.id items),
            )
            (whole_stack-IsMoved (ground arith))
      | inr part ↦
          rw
            (
              part,
              map-update_rows item_id source.id target.id (take_quantity p.quantity) arrive items
                  (λ h. apart (sym h)) (λ _. refl),
            )
            (part_stack-IsMoved (ground arith))
    ]
