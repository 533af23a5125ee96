-- ===== src/Reducer/Actions/Removals.antt =====
-- That the actions by which stashes, characters and members go keep a state sound.
use dnd_inventory.Prelude.{
  ℕ, ◌≡◌, ◌≢◌, refl, sym, ◌∙◌, subst, arith, true, not, inl, inr, Option, some, map, any, any-map,
  includes, find_row, update_row, remove_row, find_row-key, Unique-remove_row, Unique-filter,
  find_row-filter, find_row-remove_row_ne,
}
use dnd_inventory.Result.{ok, found, returned, done, unknown_stash, no_holding, unknown_character}
use dnd_inventory.State.{
  State, Context, Stash, Character, CurrencyHolding, stash_id, holding_stash, character_id,
}
use dnd_inventory.Reducer.Shared.{ReducerResult}
use dnd_inventory.Reducer.Stashes.{check_storage, rolled_up, reown, delete_stash}
use dnd_inventory.Reducer.Stashes.Deletion.{deleted-IsDeleted, check_storage-ok}
use dnd_inventory.Reducer.Cascade.{
  Cascade, cascaded, cascade_character, delete_character, owned_stash_ids, unlink,
}
use dnd_inventory.Reducer.Cascade.Rollup.{cascaded-IsTakenOut, loot_apart}
use dnd_inventory.Reducer.Members.{has_active_player, is_active_player}
use dnd_inventory.Reducer.Departures.{
  cascade_if_any, played_character, departed, leave_party, kick_player,
}
use dnd_inventory.Reducer.Departures.Active.{is_dm_of, IsDeparted, cascade_if_any-cases}
use dnd_inventory.Reducer.Departures.Leaving.{
  Departing, leave_party-Departing, kick_player-Departing, Departing-IsDeparted,
}
use dnd_inventory.Reducer.Actions.Invariant.{
  StateIsSound, MembersAreSound, coins_of, loot_of, with_members,
}

module _ (s : State) (w : StateIsSound s) where
  abbrev loot : ℕ
  loot = s.party.recovered_loot_stash_id

  -- Without a stash that is not Recovered Loot.
  deleted-StateIsSound :
      (id : ℕ) (coming loot_holding : CurrencyHolding)
      → loot ≢ id
      → find_row holding_stash id s.currencies ≡ some coming
      → find_row holding_stash loot s.currencies ≡ some loot_holding
      → StateIsSound (record s {
        stashes = remove_row stash_id id s.stashes;
        currencies =
            update_row holding_stash loot
              (λ _. rolled_up coming loot_holding)
              (remove_row holding_stash id s.currencies);
        items = map (reown id loot) s.items;
      })
  deleted-StateIsSound id coming loot_holding apart e_coming e_loot =
      let out =
        deleted-IsDeleted s id loot_holding coming w.items (coins_of s w) apart e_coming e_loot in
      record {
        items = out.items.sound;
        coins = record { one_each = out.holdings.one_each; nonneg = out.holdings.nonneg };
        stashes = record {
          ids = Unique-remove_row stash_id id s.stashes w.stashes.ids;
          stash = w.stashes.stash;
          there = find_row-remove_row_ne stash_id loot id s.stashes apart ∙ w.stashes.there;
          scoped = w.stashes.scoped;
        };
        shops = w.shops;
        sessions = w.sessions;
        members = w.members;
      }

  pub delete_stash-StateIsSound :
      (ctx : Context) (id : ℕ) (r : ReducerResult)
      → delete_stash ctx (some s) id ≡ ok r
      → StateIsSound r.state
  unfolding delete_stash
  delete_stash-StateIsSound ctx id r h =
      found (find_row stash_id id s.stashes) unknown_stash _ h λ stash e h.
        returned (check_storage stash) _ h λ _ checked h.
          found (find_row holding_stash stash.id s.currencies) no_holding _ h λ coming e_coming h.
            found (find_row holding_stash loot s.currencies) no_holding _ h λ loot_holding e_loot h.
              done h λ same.
                let key = find_row-key stash_id id s.stashes e in
                let apart : loot ≢ stash.id = λ clash.
                  let two =
                    subst (λ k. find_row stash_id k s.stashes ≡ some w.stashes.stash) (clash ∙ key)
                      w.stashes.there in
                  let st : w.stashes.stash ≡ stash = cc in
                  let scoped = check_storage-ok stash checked in
                  let loot_scoped = w.stashes.scoped in cc in
                subst (λ (x : ReducerResult). StateIsSound x.state) same
                  (deleted-StateIsSound stash.id coming loot_holding apart e_coming e_loot)

  unlinked-MembersAreSound :
      (character : ℕ) → MembersAreSound s.party (map (unlink character) s.memberships)
  unlinked-MembersAreSound character = record {
    led =
        any-map (is_dm_of s.party.id) (is_dm_of s.party.id) (unlink character) s.memberships
          (λ m. ground arith)
        ∙ w.members.led;
    banker = λ user e. (
      (w.members.banker user e).0,
      any-map (is_active_player user s.party.id) (is_active_player user s.party.id)
            (unlink character) s.memberships (λ m. ground arith)
          ∙ (w.members.banker user e).1,
    );
  }

  cascaded-StateIsSound :
      (character : ℕ) (loot_holding : CurrencyHolding)
      → find_row holding_stash loot s.currencies ≡ some loot_holding
      → StateIsSound (cascaded s character loot_holding)
  cascaded-StateIsSound character loot_holding e =
      let sound = coins_of s w in
      let has_loot = loot_of s w in
      let out = cascaded-IsTakenOut s character loot_holding w.items sound has_loot e in
      let owned = owned_stash_ids character s.stashes in
      record {
        items = out.items.sound;
        coins = record { one_each = out.holdings.one_each; nonneg = out.holdings.nonneg };
        stashes = record {
          ids =
              Unique-filter stash_id (λ (st : Stash). not (includes st.id owned)) s.stashes
                w.stashes.ids;
          stash = w.stashes.stash;
          there =
              find_row-filter stash_id loot (λ k. not (includes k owned)) s.stashes
                (ground (arith, loot_apart s character loot_holding w.items sound has_loot e))
              ∙ w.stashes.there;
          scoped = w.stashes.scoped;
        };
        shops = w.shops;
        sessions = w.sessions;
        members = unlinked-MembersAreSound character;
      }

  cascade_character-StateIsSound :
      (ctx : Context) (character : Character) (c : Cascade)
      → cascade_character ctx s character ≡ ok c
      → StateIsSound c.state
  unfolding cascade_character
  cascade_character-StateIsSound ctx character c h =
      found (find_row holding_stash loot s.currencies) no_holding _ h λ loot_holding e h.
        done h λ same.
          subst (λ (x : Cascade). StateIsSound x.state) same
            (cascaded-StateIsSound character.id loot_holding e)

  pub delete_character-StateIsSound :
      (ctx : Context) (id : ℕ) (r : ReducerResult)
      → delete_character ctx (some s) id ≡ ok r
      → StateIsSound r.state
  unfolding delete_character
  delete_character-StateIsSound ctx id r h =
      found (find_row character_id id s.characters) unknown_character _ h λ character _ h.
        returned (cascade_character ctx s character) _ h λ c ran h. done h λ same.
          subst (λ (x : ReducerResult). StateIsSound x.state) same
            (cascade_character-StateIsSound ctx character c ran)

  cascade_if_any-StateIsSound :
      (ctx : Context) (character : Option ℕ) (c : Cascade)
      → cascade_if_any ctx s character ≡ ok c
      → StateIsSound c.state
  cascade_if_any-StateIsSound ctx character c h = elim (cascade_if_any-cases ctx s character c h) [
    | inl same ↦ subst StateIsSound (sym same) w
    | inr (one, ran) ↦ cascade_character-StateIsSound ctx one c ran
  ]

  IsDeparted-MembersAreSound :
      (user : ℕ) (s' : State) → IsDeparted s user s' → MembersAreSound s'.party s'.memberships
  IsDeparted-MembersAreSound user s' d = record {
    led =
        subst (λ k. any (is_dm_of k) s'.memberships ≡ true) (sym d.same_party.0)
          (d.still_led w.members.led);
    banker = λ other e.
        let was = w.members.banker other (d.banker_before other e) in
        let apart : other ≢ user =
          λ same. d.banker (subst (λ k. s'.party.banker_user_id ≡ some k) same e) in
        (
          subst (λ k. other ≢ k) (sym d.same_party.1) was.0,
          subst (λ k. has_active_player other k s'.memberships ≡ true) (sym d.same_party.0)
              (d.other_players other apart ∙ was.1),
        );
  }

  Departing-StateIsSound :
      (ctx : Context) (user : ℕ) (r : ReducerResult) → Departing ctx s user r → StateIsSound r.state
  Departing-StateIsSound ctx user r d =
      let before =
        cascade_if_any-StateIsSound ctx (played_character user s.party.id s.memberships) d.after
          d.ran in
      let gone : State = departed ctx.now user s.party.id d.after.state in
      let out : IsDeparted s user gone =
        subst (IsDeparted s user) (sym d.left) (Departing-IsDeparted ctx s user r d) in
      subst StateIsSound d.left (
        with_members d.after.state gone.party gone.memberships before refl
          (IsDeparted-MembersAreSound user gone out))

  pub leave_party-StateIsSound :
      (ctx : Context) (r : ReducerResult) → leave_party ctx (some s) ≡ ok r → StateIsSound r.state
  leave_party-StateIsSound ctx r h =
      Departing-StateIsSound ctx s.user_id r (leave_party-Departing ctx s r h)

  pub kick_player-StateIsSound :
      (ctx : Context) (kicked : ℕ) (r : ReducerResult)
      → kick_player ctx (some s) kicked ≡ ok r
      → StateIsSound r.state
  kick_player-StateIsSound ctx kicked r h =
      Departing-StateIsSound ctx kicked r (kick_player-Departing ctx s kicked r h).3
