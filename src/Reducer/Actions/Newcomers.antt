-- ===== src/Reducer/Actions/Newcomers.antt =====
-- That `create-character` keeps a state sound, and that the first state is.
use dnd_inventory.Prelude.{
  ℕ, ◌≡◌, ◌≢◌, refl, sym, ◌∙◌, subst, arith, Bool, true, not, inl, inr, Option, some, none, List,
  [], ◌∷◌, ◌++◌, any, any-append, find, Absent, is_some, Bool-cases, Option-cases,
}
use dnd_inventory.Prelude.Text.{Text, codes}
use dnd_inventory.Result.{
  ok, ◌>>◌, found, passed, returned, done, dm_only_after_bootstrap, party_name_after_bootstrap,
  not_a_member, already_has_character, no_party_stash,
}
use dnd_inventory.State.{State, Stash, Scope, Context, Membership, stash_id, holding_stash}
use dnd_inventory.Reducer.Shared.{ReducerResult}
use dnd_inventory.Reducer.Characters.Founding.{shared_stash, first_slice}
use dnd_inventory.Reducer.Stashes.{empty_holding}
use dnd_inventory.Reducer.Members.{is_active_player}
use dnd_inventory.Reducer.Departures.Active.{is_dm_of}
use dnd_inventory.Reducer.Characters.{
  CreatePayload, NewCharacter, waits_for_character, has_character_as_player, give_character,
  player_row, enrolled, inventory_row, is_party_stash, check_character_ids, with_character,
  create_in_party, is_active_of,
}
use dnd_inventory.Reducer.Characters.Founding.{
  PartyIds, party_ids, party_shell, first_state, bootstrap,
}
use dnd_inventory.Reducer.Actions.Invariant.{StateIsSound, MembersAreSound, with_members}
use dnd_inventory.Reducer.Actions.Holdings.{with_stash}

-- A test of a membership that does not regard the character.
abbrev Ignores : (Membership → Bool) → Type 0
Ignores p = (m : Membership) (c : Option ℕ) → p (record m { character_id = c }) ≡ p m

give_character-any :
    (p : Membership → Bool) (user character : ℕ) (members : List Membership)
    → Ignores p
    → any p (give_character user character members) ≡ any p members
give_character-any p user character [] ignores = refl
give_character-any p user character (m ∷ members) ignores =
    elim (Bool-cases (waits_for_character user m)) [
      | inl here ↦ rw (here, ignores m (some character)) refl
      | inr other ↦ rw (other, give_character-any p user character members ignores) refl
    ]

enrolled-any :
    (p : Membership → Bool) (now : Text) (user party character : ℕ) (members : List Membership)
    → Ignores p
    → any p members ≡ true
    → any p (enrolled now user party character members) ≡ true
enrolled-any p now user party character members ignores h =
    elim (Bool-cases (any (waits_for_character user) members)) [
      | inl waits ↦ rw waits (give_character-any p user character members ignores ∙ h)
      | inr none_waits ↦
          rw (none_waits, any-append p members (player_row now user party character ∷ []), h) refl
    ]

with_character-StateIsSound :
    (now : Text) (s : State) (c : NewCharacter)
    → StateIsSound s
    → Absent stash_id c.inventory_stash_id s.stashes
    → Absent holding_stash c.inventory_stash_id s.currencies
    → StateIsSound (with_character now s c)
with_character-StateIsSound now s c w fresh_stash fresh_holding =
    let party = s.party.id in
    let members = enrolled now s.user_id party c.id s.memberships in
    let joined : MembersAreSound s.party members = record {
      led =
          enrolled-any (is_dm_of party) now s.user_id party c.id s.memberships (λ m k. refl)
            w.members.led;
      banker = λ user e. (
        (w.members.banker user e).0,
        enrolled-any (is_active_player user party) now s.user_id party c.id s.memberships
            (λ m k. refl) (w.members.banker user e).1,
      );
    } in
    let with_it = with_stash s (inventory_row now c) c.holding_id w fresh_stash fresh_holding in
    let grown = record s {
      stashes = s.stashes ++ inventory_row now c ∷ [];
      currencies = s.currencies ++ empty_holding c.holding_id c.inventory_stash_id ∷ [];
    } in
    with_members grown s.party members with_it refl joined

pub create_in_party-StateIsSound :
    (ctx : Context) (s : State) (p : CreatePayload) (r : ReducerResult)
    → StateIsSound s
    → ((c : NewCharacter)
        → p.character ≡ some c
        → Absent stash_id c.inventory_stash_id s.stashes
          × Absent holding_stash c.inventory_stash_id s.currencies)
    → create_in_party ctx s p ≡ ok r
    → StateIsSound r.state
unfolding create_in_party
create_in_party-StateIsSound ctx s p r w fresh h =
    found p.character dm_only_after_bootstrap _ h λ c e h.
      passed (is_some p.party_name) party_name_after_bootstrap _ h λ _ h.
        returned (check_character_ids ctx c) _ h λ _ _ h.
          passed (not (any (is_active_of s.user_id) s.memberships)) not_a_member _ h λ _ h.
            passed (any (has_character_as_player s.user_id) s.memberships) already_has_character _ h
              λ _ h. found (find (is_party_stash s.party.id) s.stashes) no_party_stash _ h λ _ _ h.
                done h λ same.
                  let (fresh_stash, fresh_holding) = fresh c e in
                  subst (λ (x : ReducerResult). StateIsSound x.state) same
                    (with_character-StateIsSound ctx.now s c w fresh_stash fresh_holding)

-- The ids of the stashes that a first state has are distinct.
pub record IdsAreDistinct (ids : PartyIds) (character : Option NewCharacter) : Type 0 where
  pub shared : ids.party_stash ≢ ids.loot
  pub own :
      (c : NewCharacter)
      → character ≡ some c
      → (c.inventory_stash_id ≢ ids.party_stash) × (c.inventory_stash_id ≢ ids.loot)

module _ (ctx : Context) (ids : PartyIds) (name : Option Text)
    (apart : ids.party_stash ≢ ids.loot) where
  abbrev loot_stash : Stash
  loot_stash = shared_stash ctx.now ids.party ids.loot Scope.recovered_loot (codes "Recovered Loot")

  party_shell-StateIsSound : StateIsSound (party_shell ctx ids name)
  party_shell-StateIsSound = record {
    items = record { ids = tt; filled = tt };
    coins = record {
      one_each = ((λ e. apart (sym e), tt), (tt, tt));
      nonneg = (omega arith, (omega arith, tt));
    };
    stashes = record {
      ids = ((λ e. apart (sym e), tt), (tt, tt));
      stash = loot_stash;
      there = ground arith;
      scoped = refl;
    };
    shops = record { ids = tt; stock = tt };
    sessions = record { ids = tt; one_current = omega arith };
    members = record { led = ground arith; banker = λ user e. cc };
  }

  first_state-StateIsSound :
      (c : NewCharacter)
      → c.inventory_stash_id ≢ ids.party_stash
      → c.inventory_stash_id ≢ ids.loot
      → StateIsSound (first_state ctx ids name c)
  first_state-StateIsSound c n1 n2 =
      let shell = party_shell-StateIsSound in
      record {
        items = record { ids = tt; filled = tt };
        coins = record {
          one_each = ((λ e. n1 (sym e), (λ e. n2 (sym e), tt)), shell.coins.one_each);
          nonneg = (omega arith, shell.coins.nonneg);
        };
        stashes = record {
          ids = ((λ e. n1 (sym e), (λ e. n2 (sym e), tt)), shell.stashes.ids);
          stash = loot_stash;
          there = ground arith;
          scoped = refl;
        };
        shops = record { ids = tt; stock = tt };
        sessions = record { ids = tt; one_current = omega arith };
        members = record { led = ground arith; banker = λ user e. cc };
      }

pub bootstrap-StateIsSound :
    (ctx : Context) (p : CreatePayload) (r : ReducerResult)
    → ((ids : PartyIds) → party_ids ctx p ≡ ok ids → IdsAreDistinct ids p.character)
    → bootstrap ctx p ≡ ok r
    → StateIsSound r.state
unfolding bootstrap
bootstrap-StateIsSound ctx p r distinct h = returned (party_ids ctx p) _ h λ ids e_ids h.
    let far = distinct ids e_ids in
    elim (Option-cases p.character) [
      | inl nobody ↦
          let h' : ok (record {
            state = party_shell ctx ids p.party_name;
            log_entries = first_slice ids none;
          })
              ≡ ok r =
            rw nobody at h in
          done h' λ same.
            subst (λ (x : ReducerResult). StateIsSound x.state) same
              (party_shell-StateIsSound ctx ids p.party_name far.shared)
      | inr (c, e) ↦
          let h' : (check_character_ids ctx c
                >> ok (record {
                  state = first_state ctx ids p.party_name c;
                  log_entries = first_slice ids (some (c.id, c.name, c.inventory_stash_id));
                }))
              ≡ ok r =
            rw e at h in
          let (n1, n2) = far.own c e in
          returned (check_character_ids ctx c) _ h' λ _ _ h'. done h' λ same.
            subst (λ (x : ReducerResult). StateIsSound x.state) same
              (first_state-StateIsSound ctx ids p.party_name far.shared c n1 n2)
    ]
