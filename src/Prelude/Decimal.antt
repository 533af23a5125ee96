-- ===== src/Prelude/Decimal.antt =====
-- Decimal numerals: the digits of a whole number, and the whole number of digits.
use native.Mathlib.Nat.{div-add-mod}
use Prim.Native.Nat.{ℕ, zero, suc, ◌+◌, ◌-◌, ◌*◌, ◌/◌, ◌%◌, ◌<◌}
use mathlib.Core.Path.{◌≡◌, ap, ◌∙◌}
use mathlib.Core.Bool.{Bool, true, ◌&&◌}
use mathlib.Core.List.{List, [], ◌∷◌, ◌++◌}
use mathlib.Core.Option.{Option, none, some}
use native.Mathlib.Omega.{arith}
use mathlib.Core.Logic.{inl, inr}
use dnd_inventory.Prelude.Tests.{ltb, leb, if◌then◌else◌, Bool-cases}

abbrev pub is_digit : ℕ → Bool
is_digit c = leb b'0' c && leb c b'9'

-- JavaScript's whole numbers, each of which stands for itself (`Infinity` for one beyond the
-- others): the number nearest to a whole number, which `Number.parseInt` and a sum round to, and
-- `String`.
pub record Whole : Type 0 where
  pub nearest : ℕ → ℕ
  pub show : ℕ → List ℕ

-- The value of a text of digits, after `acc`; `none` for any other text.
unfoldable pub parse_digits : ℕ → List ℕ → Option ℕ
parse_digits acc [] = some acc
parse_digits acc (c ∷ cs) =
    let rest = parse_digits (acc * 10 + (c - b'0')) cs in if is_digit c then rest else none

-- One digit for each unit of fuel; `print` gives enough for every digit of `n`.
unfoldable pub print_digits : ℕ → ℕ → List ℕ
print_digits zero n = []
print_digits (suc fuel) n =
    let rest = print_digits fuel (n / 10) in
    if ltb n 10 then (b'0' + n) ∷ [] else rest ++ (b'0' + n % 10) ∷ []

unfoldable pub print : ℕ → List ℕ
unfolding print_digits
print n = print_digits (suc n) n

parse_digits-append :
    (acc : ℕ) (cs : List ℕ) (c : ℕ) {v : ℕ}
    → parse_digits acc cs ≡ some v
    → is_digit c ≡ true
    → parse_digits acc (cs ++ c ∷ []) ≡ some (v * 10 + (c - b'0'))
unfolding parse_digits
parse_digits-append acc [] c h d = ground arith
parse_digits-append acc (x ∷ cs) c {v} h d =
    ground (arith, parse_digits-append (acc * 10 + (x - b'0')) cs c {v = v})

parse-digit : (n : ℕ) → n < 10 → parse_digits 0 ((b'0' + n) ∷ []) ≡ some n
unfolding parse_digits
parse-digit n h = ground arith

parse-print_digits : (fuel n : ℕ) → n < fuel → parse_digits 0 (print_digits fuel n) ≡ some n
unfolding print_digits
parse-print_digits zero n h = elim h [ ]
parse-print_digits (suc fuel) n h = elim (Bool-cases (ltb n 10)) [
  | inl small ↦ rw small (parse-digit n (ground arith))
  | inr large ↦ rw large (longer (parse-print_digits fuel (n / 10) (ground arith)))
]
  where
    longer :
        parse_digits 0 (print_digits fuel (n / 10)) ≡ some (n / 10)
        → parse_digits 0 (print_digits fuel (n / 10) ++ (b'0' + n % 10) ∷ []) ≡ some n
    longer ih =
        let whole : n / 10 * 10 + (b'0' + n % 10 - b'0') ≡ n = omega (arith, div-add-mod n 10) in
        parse_digits-append 0 (print_digits fuel (n / 10)) (b'0' + n % 10) ih (ground arith)
        ∙ ap some whole

-- Reading back a printed number gives the number.
pub parse-print : (n : ℕ) → parse_digits 0 (print n) ≡ some n
unfolding print
parse-print n = parse-print_digits (suc n) n (omega arith)

-- Whole numbers up to 2 ^ 53 are exact, and are printed digit by digit.
abbrev pub IsExact : Whole → Type 0
IsExact whole = (n : ℕ) → n < 9007199254740993 → (whole.nearest n ≡ n) × (whole.show n ≡ print n)
