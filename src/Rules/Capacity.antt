-- ===== src/Rules/Capacity.antt =====
-- packages/rules/src/capacity.ts: carrying capacity. Weights and the size multiplier are counted in
-- hundredths (of a pound, of the medium size), so that 0.5 is 50 and all of it is exact.
pub mod Bands
use dnd_inventory.Prelude.{ℕ, ◌+◌, ◌*◌, Bool, true, false, Option, none, some, ltb, if◌then◌else◌}

pub data EncumbranceState : Type 0 where
  unencumbered encumbered heavily_encumbered : EncumbranceState

pub data EncumbranceRule : Type 0 where
  off phb variant : EncumbranceRule

pub data CreatureSize : Type 0 where
  tiny small medium large huge gargantuan : CreatureSize

abbrev pub size_multiplier : CreatureSize → ℕ
size_multiplier tiny = 50
size_multiplier small = 50
size_multiplier medium = 100
size_multiplier large = 200
size_multiplier huge = 400
size_multiplier gargantuan = 800

unfoldable pub carry_capacity : ℕ → CreatureSize → ℕ
carry_capacity str size = str * 15 * size_multiplier size

unfoldable pub encumbrance_state : ℕ → ℕ → CreatureSize → EncumbranceRule → EncumbranceState
encumbrance_state weight str size off = unencumbered
encumbrance_state weight str size phb =
    if ltb (str * 15 * size_multiplier size) weight then heavily_encumbered else unencumbered
encumbrance_state weight str size variant =
    if ltb (str * 10 * size_multiplier size) weight
    then heavily_encumbered
    else if ltb (str * 5 * size_multiplier size) weight
    then encumbered
    else unencumbered

-- `none` is the `Infinity` of the rule `off`.
unfoldable pub heavy_threshold : ℕ → CreatureSize → EncumbranceRule → Option ℕ
heavy_threshold str size off = none
heavy_threshold str size phb = some (str * 15 * size_multiplier size)
heavy_threshold str size variant = some (str * 10 * size_multiplier size)

-- `w > t`, where t may be `Infinity`.
abbrev pub exceeds : ℕ → Option ℕ → Bool
exceeds w none = false
exceeds w (some t) = ltb t w

unfoldable pub would_exceed_threshold : ℕ → ℕ → ℕ → CreatureSize → EncumbranceRule → Bool
would_exceed_threshold weight added str size off = false
would_exceed_threshold weight added str size rule =
    exceeds (weight + added) (heavy_threshold str size rule)
