-- ===== src/Reducer/Identify/Batch.antt =====
-- What `identify-batch` does.
use dnd_inventory.Prelude.{ℕ, ◌≡◌, refl, Bool, false, inl, inr, List, includes, Bool-cases}
use dnd_inventory.State.{State, ItemInstance}
use dnd_inventory.Reducer.Counts.{Keeps}
use dnd_inventory.Reducer.Stacks.{Patch}
use dnd_inventory.Reducer.Identify.{is_affected, identify_affected}

-- Every row of the definition is identified, or none is.
abbrev pub IsIdentified : ℕ → Bool → ItemInstance → Type 0
IsIdentified definition flag i = is_affected definition flag i ≡ false

pub identify_affected-Keeps :
    (ids : List ℕ) (flag : Bool) (patch : Patch) → Keeps (identify_affected ids flag patch)
identify_affected-Keeps ids flag patch i = elim (Bool-cases (includes i.id ids)) [
  | inl e ↦ rw (identify_affected, e) (refl, refl, refl)
  | inr e ↦ rw (identify_affected, e) (refl, refl, refl)
]
