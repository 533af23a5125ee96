-- ===== src/Reducer/Departures/Active.antt =====
-- Who is a member after a departure, and what the cascade before it leaves alone.
use dnd_inventory.Prelude.{
  ℕ, pos, Option-cases, ◌⊎◌, ◌≡◌, ◌≢◌, refl, sym, ap, subst, ◌∙◌, arith, Bool-cases, Bool, true,
  false, not, ◌&&◌, ◌||◌, inl, inr, Option, none, some, List, [], ◌∷◌, any, opt_eq, is_some, ◌==◌,
  if◌then◌else◌, find_row, any-map, any-map-true, any-false,
}
use dnd_inventory.Prelude.Text.{Text}
use dnd_inventory.Result.{ok, found, done, no_holding}
use dnd_inventory.State.{
  State, Character, Membership, Party, Context, character_id, holding_stash, is_dm,
}
use dnd_inventory.Reducer.Counts.{ItemsAreSound, IsMoved}
use dnd_inventory.Reducer.Money.Conservation.{total_copper, IsSound}
use dnd_inventory.Reducer.Cascade.{Cascade, cascade_character, unlink}
use dnd_inventory.Reducer.Cascade.Rollup.{HasLoot, cascade_character-IsTakenOut}
use dnd_inventory.Reducer.Members.{is_active_dm, is_active_player, has_active_dm, has_active_player}
use dnd_inventory.Reducer.Departures.Rows.{
  rows_but, tenures, unlink-rows_but, unlink-tenures, close-rows_but, close-tenures,
}
use dnd_inventory.Reducer.Departures.{is_active, is_other_dm, cascade_if_any, close_row, departed}

-- An active DM of the party, whoever it is.
abbrev pub is_dm_of : ℕ → Membership → Bool
is_dm_of party m = m.party_id == party && is_dm m.role && not (is_some m.left_at)

-- What the departure of a user makes of the members and the party.
pub record IsDeparted (s : State) (user : ℕ) (s' : State) : Type 0 where
  pub gone : any (is_active user s.party.id) s'.memberships ≡ false
  pub other_dms :
      (other : ℕ)
      → other ≢ user
      → has_active_dm other s.party.id s'.memberships ≡ has_active_dm other s.party.id s.memberships
  pub other_players :
      (other : ℕ)
      → other ≢ user
      → has_active_player other s.party.id s'.memberships
        ≡ has_active_player other s.party.id s.memberships
  pub still_led :
      any (is_dm_of s.party.id) s.memberships ≡ true
      → any (is_dm_of s.party.id) s'.memberships ≡ true
  pub same_tenures : tenures s'.memberships ≡ tenures s.memberships
  pub other_rows : rows_but user s'.memberships ≡ rows_but user s.memberships
  pub banker : s'.party.banker_user_id ≢ some user
  pub banker_before :
      (other : ℕ) → s'.party.banker_user_id ≡ some other → s.party.banker_user_id ≡ some other
  pub banker_kept :
      s.party.banker_user_id ≢ some user → s'.party.banker_user_id ≡ s.party.banker_user_id
  pub same_party : (s'.party.id ≡ s.party.id) × (s'.party.owner_user_id ≡ s.party.owner_user_id)

-- What the cascade before it leaves alone.
pub record IsUntouched (s s' : State) : Type 0 where
  pub members :
      (p : Membership → Bool)
      → ((c : ℕ) (m : Membership) → p (unlink c m) ≡ p m)
      → any p s'.memberships ≡ any p s.memberships
  pub same_tenures : tenures s'.memberships ≡ tenures s.memberships
  pub rows : (user : ℕ) → rows_but user s'.memberships ≡ rows_but user s.memberships
  pub party : s'.party ≡ s.party

cascade_character-IsUntouched :
    (ctx : Context) (s : State) (character : Character) (c : Cascade)
    → cascade_character ctx s character ≡ ok c
    → IsUntouched s c.state
unfolding cascade_character
cascade_character-IsUntouched ctx s character c h =
    found (find_row holding_stash s.party.recovered_loot_stash_id s.currencies) no_holding _ h
      λ loot_holding e h. done h λ same.
        subst (λ (x : Cascade). IsUntouched s x.state) same
          (record {
            members =
                λ p keeps. any-map p p (unlink character.id) s.memberships (keeps character.id);
            same_tenures = unlink-tenures character.id s.memberships;
            rows = λ user. unlink-rows_but character.id user s.memberships;
            party = refl;
          })

-- The user had no character, or the cascade ran on it.
pub cascade_if_any-cases :
    (ctx : Context) (s : State) (character : Option ℕ) (c : Cascade)
    → cascade_if_any ctx s character ≡ ok c
    → (c.state ≡ s) ⊎ ((found_one : Character) × (cascade_character ctx s found_one ≡ ok c))
unfolding cascade_if_any
cascade_if_any-cases ctx s none c h = inl (done h λ same. ap (λ (x : Cascade). x.state) (sym same))
cascade_if_any-cases ctx s (some id) c h =
    elim (Option-cases (find_row character_id id s.characters)) [
      | inl missing ↦
          let h' : ok
                (record { state = s; log_entries = []; item_count = 0; currency_total_cp = pos 0 })
              ≡ ok c =
            rw (cascade_if_any, missing) at h in
          inl (done h' λ same. ap (λ (x : Cascade). x.state) (sym same))
      | inr (character, e) ↦ inr (character, (rw (cascade_if_any, e) at h))
    ]

pub cascade_if_any-IsUntouched :
    (ctx : Context) (s : State) (character : Option ℕ) (c : Cascade)
    → cascade_if_any ctx s character ≡ ok c
    → IsUntouched s c.state
cascade_if_any-IsUntouched ctx s character c h = elim (cascade_if_any-cases ctx s character c h) [
  | inl same ↦
      subst (IsUntouched s) (sym same) (record {
        members = λ p keeps. refl;
        same_tenures = refl;
        rows = λ user. refl;
        party = refl;
      })
  | inr (one, ran) ↦ cascade_character-IsUntouched ctx s one c ran
]

-- Nothing of value is lost by the cascade.
pub record IsConserved (s s' : State) : Type 0 where
  pub copper : total_copper s'.currencies ≡ total_copper s.currencies
  pub items : IsMoved s.items s'.items
  pub holdings : IsSound s'

pub cascade_if_any-IsConserved :
    (ctx : Context) (s : State) (character : Option ℕ) (c : Cascade)
    → ItemsAreSound s.items
    → IsSound s
    → HasLoot s
    → cascade_if_any ctx s character ≡ ok c
    → IsConserved s c.state
cascade_if_any-IsConserved ctx s character c items sound loot h =
    elim (cascade_if_any-cases ctx s character c h) [
      | inl same ↦ subst (IsConserved s) (sym same) (record {
        copper = refl;
        items = record { counts = λ _. refl; sound = items };
        holdings = sound;
      })
      | inr (one, ran) ↦
          let out = cascade_character-IsTakenOut ctx s one c items sound loot ran in
          record { copper = out.copper; items = out.items; holdings = out.holdings }
    ]

module _ (now : Text) (user party : ℕ) where
  abbrev close : Membership → Membership
  close = close_row now user party

  close-gone : (m : Membership) → is_active user party (close m) ≡ false
  close-gone m = ground arith

  close-dm :
      (other : ℕ) (m : Membership)
      → other ≢ user
      → is_active_dm other party (close m) ≡ is_active_dm other party m
  close-dm other m n = ground arith

  close-player :
      (other : ℕ) (m : Membership)
      → other ≢ user
      → is_active_player other party (close m) ≡ is_active_player other party m
  close-player other m n = ground arith

  close-other_dm :
      (m : Membership) → is_other_dm user party m ≡ true → is_dm_of party (close m) ≡ true
  close-other_dm m h = ground arith

-- An active DM of the party is the user or another one.
dm_of-or :
    (user party : ℕ) (members : List Membership)
    → any (is_dm_of party) members ≡ true
    → (has_active_dm user party members || any (is_other_dm user party) members) ≡ true
dm_of-or user party [] e = cc
dm_of-or user party (m ∷ members) e = ground (arith, dm_of-or user party members)

dm_of-other :
    (user party : ℕ) (members : List Membership)
    → (has_active_dm user party members && not (any (is_other_dm user party) members)) ≡ false
    → any (is_dm_of party) members ≡ true
    → any (is_other_dm user party) members ≡ true
dm_of-other user party members h e = ground (arith, dm_of-or user party members e)

cleared-banker :
    (banker : Option ℕ) (user : ℕ)
    → (if opt_eq banker (some user) then none else banker) ≢ some user
cleared-banker none user = λ e. absurd (cc)
cleared-banker (some b) user = λ e. absurd (ground arith)

kept-banker :
    (banker : Option ℕ) (user other : ℕ)
    → (if opt_eq banker (some user) then none else banker) ≡ some other
    → banker ≡ some other
kept-banker none user other e = absurd (cc)
kept-banker (some b) user other e = ground arith

untouched-banker :
    (banker : Option ℕ) (user : ℕ)
    → banker ≢ some user
    → (if opt_eq banker (some user) then none else banker) ≡ banker
untouched-banker none user n = refl
untouched-banker (some b) user n = elim (Bool-cases (b == user)) [
  | inl same ↦ absurd (n (ground (arith, same)))
  | inr other ↦ rw other refl
]

-- From a state that the cascade left, where another DM stays or the user was none.
pub departed-IsDeparted :
    (now : Text) (s after : State) (user : ℕ)
    → IsUntouched s after
    → (has_active_dm user s.party.id s.memberships
        && not (any (is_other_dm user s.party.id) s.memberships))
      ≡ false
    → IsDeparted s user (departed now user s.party.id after)
departed-IsDeparted now s after user same led =
    let party = s.party.id in
    let members = after.memberships in
    let g = close_row now user party in
    record {
      gone =
          any-map (is_active user party) (λ _. false) g members (close-gone now user party)
          ∙ any-false (λ _. false) members (λ _. refl);
      other_dms = λ other n.
          any-map (is_active_dm other party) (is_active_dm other party) g members
            (λ m. close-dm now user party other m n)
          ∙ same.members (is_active_dm other party) (λ c m. ground arith);
      other_players = λ other n.
          any-map (is_active_player other party) (is_active_player other party) g members
            (λ m. close-player now user party other m n)
          ∙ same.members (is_active_player other party) (λ c m. ground arith);
      still_led = λ e.
          any-map-true (is_dm_of party) (is_other_dm user party) g members
            (close-other_dm now user party)
            (same.members (is_other_dm user party) (λ c m. ground arith)
              ∙ dm_of-other user party s.memberships led e);
      same_tenures = close-tenures now user party members ∙ same.same_tenures;
      other_rows = close-rows_but now user party members ∙ same.rows user;
      banker = cleared-banker after.party.banker_user_id user;
      banker_before = λ other e.
          subst (λ (p : Party). p.banker_user_id ≡ some other) same.party
            (kept-banker after.party.banker_user_id user other e);
      banker_kept = λ n.
          subst
            (λ (p : Party).
              (if opt_eq p.banker_user_id (some user) then none else p.banker_user_id)
              ≡ s.party.banker_user_id)
            (sym same.party) (untouched-banker s.party.banker_user_id user n);
      same_party =
          (ap (λ (p : Party). p.id) same.party, ap (λ (p : Party). p.owner_user_id) same.party);
    }

pub departed-IsConserved :
    (now : Text) (s after : State) (user : ℕ)
    → IsConserved s after
    → IsConserved s (departed now user s.party.id after)
departed-IsConserved now s after user kept = record {
  copper = kept.copper;
  items = kept.items;
  holdings = record { one_each = kept.holdings.one_each; nonneg = kept.holdings.nonneg };
}
