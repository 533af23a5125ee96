-- ===== src/Rules/Attunement.antt =====
-- packages/rules/src/attunement.ts
use dnd_inventory.Prelude.{ℕ, Bool, Option, none, some, [], ltb}
use dnd_inventory.Prelude.Text.{Text, trim}

abbrev pub has_free_slot : ℕ → ℕ → Bool
has_free_slot attuned_count max_attunement = ltb attuned_count max_attunement

unfoldable pub prereq_display : Option Text → Text
prereq_display none = []
prereq_display (some prereq) = trim prereq
