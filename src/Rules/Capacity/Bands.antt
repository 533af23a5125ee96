-- ===== src/Rules/Capacity/Bands.antt =====
-- How the bands of encumbrance and the threshold of hard mode agree.
use dnd_inventory.Prelude.{ℕ, ◌+◌, ◌≤◌, ◌≡◌, arith, Bool, true, false}
use dnd_inventory.Rules.Capacity.{
  EncumbranceState, EncumbranceRule, CreatureSize, encumbrance_state, heavy_threshold, exceeds,
  would_exceed_threshold, unencumbered, encumbered, heavily_encumbered, off, phb, variant, tiny,
  small, medium, large, huge, gargantuan,
}

abbrev pub is_heavy : EncumbranceState → Bool
is_heavy heavily_encumbered = true
is_heavy _ = false

-- The bands in order of weight.
abbrev pub rank : EncumbranceState → ℕ
rank unencumbered = 0
rank encumbered = 1
rank heavily_encumbered = 2

-- A weight exceeds the threshold of hard mode exactly where its band is the heaviest.
pub exceeds-encumbrance_state :
    (weight str : ℕ) (size : CreatureSize) (rule : EncumbranceRule)
    → exceeds weight (heavy_threshold str size rule)
      ≡ is_heavy (encumbrance_state weight str size rule)
unfolding heavy_threshold encumbrance_state
exceeds-encumbrance_state weight str size off = ground arith
exceeds-encumbrance_state weight str size phb = ground arith
exceeds-encumbrance_state weight str size variant = ground arith

-- Adding a weight would exceed the threshold exactly where it brings the band to the heaviest.
pub would_exceed_threshold-encumbrance_state :
    (weight added str : ℕ) (size : CreatureSize) (rule : EncumbranceRule)
    → would_exceed_threshold weight added str size rule
      ≡ is_heavy (encumbrance_state (weight + added) str size rule)
unfolding would_exceed_threshold heavy_threshold encumbrance_state
would_exceed_threshold-encumbrance_state weight added str size off = ground arith
would_exceed_threshold-encumbrance_state weight added str size phb = ground arith
would_exceed_threshold-encumbrance_state weight added str size variant = ground arith

-- More weight is never a lighter band, and more strength never a heavier one.
pub encumbrance_state-monotone :
    (weight weight' str str' : ℕ) (size : CreatureSize) (rule : EncumbranceRule)
    → weight ≤ weight'
    → str' ≤ str
    → rank (encumbrance_state weight str size rule)
      ≤ rank (encumbrance_state weight' str' size rule)
unfolding encumbrance_state
encumbrance_state-monotone w w' str str' size off h k = ground arith
encumbrance_state-monotone w w' str str' size phb h k = elim size [
  | tiny ↦ ground arith
  | small ↦ ground arith
  | medium ↦ ground arith
  | large ↦ ground arith
  | huge ↦ ground arith
  | gargantuan ↦ ground arith
]
encumbrance_state-monotone w w' str str' size variant h k = elim size [
  | tiny ↦ ground arith
  | small ↦ ground arith
  | medium ↦ ground arith
  | large ↦ ground arith
  | huge ↦ ground arith
  | gargantuan ↦ ground arith
]
