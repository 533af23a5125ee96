-- ===== src/Reducer/Acquire/Tags.antt =====
-- The tags `#1`, `#2`, ... that `nextContainerNotes` gives to containers.
use dnd_inventory.Prelude.{◌<◌, ◌∙◌}
use dnd_inventory.Prelude.{
  ℕ, ◌+◌, ◌≤◌, ◌≡◌, refl, subst, arith, Bool, true, inl, inr, none, some, List, [], ◌∷◌, All, ◌==◌,
  ltb, Bool-cases, Option-cases, find, find-true, if◌then◌else◌, ◌&&◌,
}
use dnd_inventory.Prelude.Text.{Text, text_eq_sound}
use dnd_inventory.Prelude.Decimal.{Whole, IsExact, parse_digits, print, parse-print}
use dnd_inventory.State.{ItemInstance}
use dnd_inventory.Reducer.Shared.{same_notes}
use dnd_inventory.Reducer.Acquire.{parse_tag, tag_number, highest_tag, next_container_notes, stacks}

-- The highest tag is at least the one that the loop starts from, and at least every row's.
highest_tag-≤ :
    (whole : Whole) (def stash highest : ℕ) (items : List ItemInstance)
    → (highest ≤ highest_tag whole def stash highest items)
      × All (λ i. tag_number whole def stash i ≤ highest_tag whole def stash highest items) items
unfolding highest_tag
highest_tag-≤ whole def stash highest [] = (omega arith, tt)
highest_tag-≤ whole def stash highest (i ∷ items) =
    let n = tag_number whole def stash i in
    let next = if ltb highest n then n else highest in
    let above : highest ≤ next = ground arith in
    let above_tag : n ≤ next = ground arith in
    let rest = highest_tag-≤ whole def stash next items in
    (omega (arith, above, rest.0), (omega (arith, above_tag, rest.0), rest.1))

-- A tag's text of digits is not empty.
parse_tag-digits :
    (whole : Whole) (digits : Text) (n : ℕ)
    → parse_digits 0 digits ≡ some (n + 1)
    → parse_tag whole (b'#' ∷ digits) ≡ some (whole.nearest (n + 1))
unfolding parse_tag parse_digits
parse_tag-digits whole [] n e = absurd (empty e)
  where
    empty : parse_digits 0 [] ≡ some (n + 1) → ⊥
    empty e = ground arith
parse_tag-digits whole (d ∷ ds) n e = rw e refl

-- Reading a tag back gives its number.
parse_tag-print :
    (whole : Whole) (n : ℕ) → parse_tag whole (b'#' ∷ print (n + 1)) ≡ some (whole.nearest (n + 1))
parse_tag-print whole n = parse_tag-digits whole (print (n + 1)) n (parse-print (n + 1))

All-find :
    (P : ItemInstance → Type 0) (p : ItemInstance → Bool) (items : List ItemInstance)
    {i : ItemInstance}
    → All P items
    → find p items ≡ some i
    → P i
All-find P p [] a e = cc
All-find P p (x ∷ xs) {i} a e = elim (Bool-cases (p x)) [
  | inl h ↦ let same : x ≡ i = ground arith in subst P same a.0
  | inr h ↦ All-find P p xs {i = i} a.1 (ground arith)
]

-- A row that stacks with a tag has that tag's number.
stacks-tag_number :
    (whole : Whole) (stash def n : ℕ) (i : ItemInstance)
    → stacks stash def (some (b'#' ∷ print (n + 1))) i ≡ true
    → tag_number whole def stash i ≡ whole.nearest (n + 1)
stacks-tag_number whole stash def n i h = elim (Option-cases i.notes) [
  | inl e ↦ absurd (clash (subst (λ o. same_notes o (some (b'#' ∷ print (n + 1))) ≡ true) e alike))
  | inr (t, e) ↦
      let same : t ≡ b'#' ∷ print (n + 1) =
        text_eq_sound t _
          (subst (λ o. same_notes o (some (b'#' ∷ print (n + 1))) ≡ true) e alike) in
      rw (mine, e, same, parse_tag-print whole n) refl
]
  where
    mine : (i.definition_id == def && i.owner_id == stash) ≡ true
    mine = ground arith

    alike : same_notes i.notes (some (b'#' ∷ print (n + 1))) ≡ true
    alike = ground arith

    clash : same_notes none (some (b'#' ∷ print (n + 1))) ≡ true → ⊥
    clash e = cc

-- Where no row's tag reaches a bound, the highest does not either.
highest_tag-< :
    (whole : Whole) (def stash highest bound : ℕ) (items : List ItemInstance)
    → highest < bound
    → All (λ i. tag_number whole def stash i < bound) items
    → highest_tag whole def stash highest items < bound
unfolding highest_tag
highest_tag-< whole def stash highest bound [] p a = p
highest_tag-< whole def stash highest bound (i ∷ items) p a =
    let n = tag_number whole def stash i in
    let next = if ltb highest n then n else highest in
    let small : next < bound = ground (arith, a.0) in
    highest_tag-< whole def stash next bound items small a.1

-- Where whole numbers up to 2 ^ 53 are exact and no tag of that definition in that stash is 2 ^ 53
-- or above, the tag that a new container gets is one that no row of the definition in the stash
-- has, so that nothing is there to stack it onto.
pub next_container_notes-fresh :
    (whole : Whole) (items : List ItemInstance) (def stash : ℕ)
    → IsExact whole
    → All (λ i. tag_number whole def stash i < 9007199254740992) items
    → find (stacks stash def (some (next_container_notes whole items def stash))) items ≡ none
unfolding next_container_notes
next_container_notes-fresh whole items def stash exact small =
    let n = highest_tag whole def stash 0 items in
    let bounded = highest_tag-< whole def stash 0 9007199254740992 items (omega arith) small in
    let (near, shown) = exact (n + 1) (omega (arith, bounded)) in
    rw (near, shown)
      (elim (Option-cases (find (stacks stash def (some (b'#' ∷ print (n + 1)))) items)) [
        | inl e ↦ e
        | inr (i, e) ↦
            let below : tag_number whole def stash i ≤ n =
              All-find _ _ items (highest_tag-≤ whole def stash 0 items).1 e in
            let tag = stacks-tag_number whole stash def n i (find-true _ items e) ∙ near in
            absurd (omega (arith, tag, below))
      ])
