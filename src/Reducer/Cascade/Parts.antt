-- ===== src/Reducer/Cascade/Parts.antt =====
-- The coins that a cascade adds up, the items that it moves and the memberships that it unlinks.
use dnd_inventory.Reducer.Money.Coins.{total_of, get-add}
use dnd_inventory.Rules.Currency.{Denom, get}
use dnd_inventory.Prelude.{none, true}
use dnd_inventory.Prelude.{
  ℕ, ◌≡◌, refl, arith, false, inl, inr, List, [], ◌∷◌, map, includes, any, All, Bool-cases, pos,
  ◌+ℤ◌, int_laws, parts_of_eq,
}
use dnd_inventory.Rules.Currency.{Currency, full, add, to_copper, zero_currency}
use dnd_inventory.Rules.Currency.Copper.{IsNonneg, add-IsNonneg, to_copper-add}
use dnd_inventory.State.{Membership, CurrencyHolding, ItemInstance}
use dnd_inventory.Reducer.Counts.{Keeps}
use dnd_inventory.Reducer.Money.Conservation.{total_copper, AllNonneg}
use dnd_inventory.Reducer.Cascade.{recovered, aggregate_from, plays, unlink}

pub aggregate_from-copper :
    (acc : Currency) (hs : List CurrencyHolding)
    → to_copper (full (aggregate_from acc hs)) ≡ to_copper (full acc) +ℤ total_copper hs
aggregate_from-copper acc [] = omega int_laws
aggregate_from-copper acc (h ∷ hs) =
    let ih = aggregate_from-copper (add (full acc) (full h.coins)) hs in
    omega (int_laws, parts_of_eq ih, parts_of_eq (to_copper-add (full acc) (full h.coins)))

pub aggregate_from-IsNonneg :
    (acc : Currency) (hs : List CurrencyHolding)
    → IsNonneg acc
    → AllNonneg hs
    → IsNonneg (aggregate_from acc hs)
aggregate_from-IsNonneg acc [] p a = p
aggregate_from-IsNonneg acc (h ∷ hs) p a =
    aggregate_from-IsNonneg (add (full acc) (full h.coins)) hs (add-IsNonneg acc h.coins p a.0) a.1

pub aggregate_from-get :
    (d : Denom) (acc : Currency) (hs : List CurrencyHolding)
    → get d (aggregate_from acc hs) ≡ get d acc +ℤ total_of d hs
aggregate_from-get d acc [] = omega int_laws
aggregate_from-get d acc (h ∷ hs) =
    let ih = aggregate_from-get d (add (full acc) (full h.coins)) hs in
    omega (int_laws, parts_of_eq ih, parts_of_eq (get-add d acc h.coins))

pub zero-get : (d : Denom) → get d zero_currency ≡ pos 0
zero-get Denom.cp = refl
zero-get Denom.sp = refl
zero-get Denom.ep = refl
zero-get Denom.gp = refl
zero-get Denom.pp = refl

pub zero-copper : to_copper (full zero_currency) ≡ pos 0
unfolding to_copper
zero-copper = omega int_laws

pub zero-IsNonneg : IsNonneg zero_currency
zero-IsNonneg = omega arith

pub recovered-Keeps : (owned : List ℕ) (loot : ℕ) → Keeps (recovered owned loot)
recovered-Keeps owned loot i = elim (Bool-cases (includes i.owner_id owned)) [
  | inl h ↦ rw h (refl, refl, refl)
  | inr h ↦ rw h (refl, refl, refl)
]

-- Where an item goes: with its flags and its container cleared.
abbrev pub in_loot : ℕ → ItemInstance → ItemInstance
in_loot loot i = record i {
  owner_id = loot;
  equipped = false;
  attuned = false;
  container_instance_id = none;
}

pub recovered-moved :
    (owned : List ℕ) (loot : ℕ) (i : ItemInstance)
    → includes i.owner_id owned ≡ true
    → recovered owned loot i ≡ in_loot loot i
recovered-moved owned loot i h = rw h refl

pub recovered-stayed :
    (owned : List ℕ) (loot : ℕ) (i : ItemInstance)
    → includes i.owner_id owned ≡ false
    → recovered owned loot i ≡ i
recovered-stayed owned loot i h = rw h refl

pub recovered-emptied :
    (owned : List ℕ) (loot : ℕ) (items : List ItemInstance)
    → includes loot owned ≡ false
    → All
        (λ (i : ItemInstance). includes i.owner_id owned ≡ false)
        (map (recovered owned loot) items)
recovered-emptied owned loot [] n = tt
recovered-emptied owned loot (i ∷ items) n =
    let rest = recovered-emptied owned loot items n in
    elim (Bool-cases (includes i.owner_id owned)) [
      | inl h ↦ rw h (n, rest)
      | inr h ↦ rw h (h, rest)
    ]

pub unlink-no_player :
    (character : ℕ) (members : List Membership)
    → any (plays character) (map (unlink character) members) ≡ false
unlink-no_player character [] = refl
unlink-no_player character (m ∷ members) =
    let rest = unlink-no_player character members in
    elim (Bool-cases (plays character m)) [
      | inl h ↦ rw h (ground arith)
      | inr h ↦ rw h (ground arith)
    ]
