-- ===== src/Reducer/Departures/Rows.antt =====
-- The rows of the memberships that a departure keeps.
use dnd_inventory.Prelude.{ℕ, ◌≡◌, refl, arith, not, none, List, [], ◌∷◌, ◌==◌, map, filter}
use dnd_inventory.Prelude.Text.{Text}
use dnd_inventory.State.{Membership}
use dnd_inventory.Reducer.Cascade.{unlink}
use dnd_inventory.Reducer.Departures.{close_row}

-- The rows of everybody else, in order, but for the character that they point to, which the cascade
-- may clear.
abbrev pub rows_but : ℕ → List Membership → List Membership
rows_but user members =
    map (λ (m : Membership). record m { character_id = none })
      (filter (λ (m : Membership). not (m.user_id == user)) members)

-- The rows of everybody, in order, but for when they ended and the character that they point to.
abbrev pub tenures : List Membership → List Membership
tenures = map (λ (m : Membership). record m { character_id = none; left_at = none })

pub unlink-rows_but :
    (character user : ℕ) (members : List Membership)
    → rows_but user (map (unlink character) members) ≡ rows_but user members
unlink-rows_but character user [] = refl
unlink-rows_but character user (m ∷ members) =
    ground (arith, unlink-rows_but character user members)

pub unlink-tenures :
    (character : ℕ) (members : List Membership)
    → tenures (map (unlink character) members) ≡ tenures members
unlink-tenures character [] = refl
unlink-tenures character (m ∷ members) = ground (arith, unlink-tenures character members)

module _ (now : Text) (user party : ℕ) where
  pub close-rows_but :
      (members : List Membership)
      → rows_but user (map (close_row now user party) members) ≡ rows_but user members
  close-rows_but [] = refl
  close-rows_but (m ∷ members) = ground (arith, close-rows_but members)

  pub close-tenures :
      (members : List Membership)
      → tenures (map (close_row now user party) members) ≡ tenures members
  close-tenures [] = refl
  close-tenures (m ∷ members) = ground (arith, close-tenures members)
