-- ===== src/Reducer/Departures/Leaving.antt =====
-- What `leave-party` and `kick-player` do to the members and to what the party owns.
use dnd_inventory.Prelude.{true}
use dnd_inventory.Prelude.{ℕ, ◌≡◌, ◌≢◌, ap, subst, arith, false, not, ◌&&◌, some, any, ◌==◌}
use dnd_inventory.Result.{
  ok, passed, returned, done, not_a_member, sole_member, sole_dm, self_kick, kick_dm,
}
use dnd_inventory.State.{State, Context}
use dnd_inventory.Reducer.Shared.{ReducerResult}
use dnd_inventory.Reducer.Counts.{ItemsAreSound}
use dnd_inventory.Reducer.Money.Conservation.{IsSound}
use dnd_inventory.Reducer.Cascade.{Cascade}
use dnd_inventory.Reducer.Cascade.Rollup.{HasLoot}
use dnd_inventory.Reducer.Members.{has_active_dm}
use dnd_inventory.Reducer.Departures.{
  is_active, is_active_other, is_other_dm, played_character, cascade_if_any, departed, leave_party,
  kick_player,
}
use dnd_inventory.Reducer.Departures.Active.{
  IsDeparted, IsConserved, departed-IsDeparted, departed-IsConserved, cascade_if_any-IsUntouched,
  cascade_if_any-IsConserved,
}

-- What a departure that succeeded went through.
pub record Departing (ctx : Context) (s : State) (user : ℕ) (r : ReducerResult) : Type 0 where
  pub after : Cascade
  pub ran : cascade_if_any ctx s (played_character user s.party.id s.memberships) ≡ ok after
  pub led :
      (has_active_dm user s.party.id s.memberships
        && not (any (is_other_dm user s.party.id) s.memberships))
      ≡ false
  pub left : departed ctx.now user s.party.id after.state ≡ r.state

pub leave_party-Departing :
    (ctx : Context) (s : State) (r : ReducerResult)
    → leave_party ctx (some s) ≡ ok r
    → Departing ctx s s.user_id r
unfolding leave_party
leave_party-Departing ctx s r h =
    let user = s.user_id in
    let party = s.party.id in
    passed (not (any (is_active user party) s.memberships)) not_a_member _ h λ _ h.
      passed (not (any (is_active_other user party) s.memberships)) sole_member _ h λ _ h.
        passed
          (has_active_dm user party s.memberships
            && not (any (is_other_dm user party) s.memberships))
          sole_dm _ h
          λ led h.
            returned (cascade_if_any ctx s (played_character user party s.memberships)) _ h
              λ after ran h. done h λ same. record {
                after = after;
                ran = ran;
                led = led;
                left = ap (λ (x : ReducerResult). x.state) same;
              }

pub kick_player-Departing :
    (ctx : Context) (s : State) (kicked : ℕ) (r : ReducerResult)
    → kick_player ctx (some s) kicked ≡ ok r
    → (kicked ≢ s.user_id)
      × (any (is_active kicked s.party.id) s.memberships ≡ true)
      × (has_active_dm kicked s.party.id s.memberships ≡ false)
      × Departing ctx s kicked r
unfolding kick_player
kick_player-Departing ctx s kicked r h =
    let party = s.party.id in
    passed (kicked == s.user_id) self_kick _ h λ other h.
      passed (not (any (is_active kicked party) s.memberships)) not_a_member _ h λ member h.
        passed (has_active_dm kicked party s.memberships) kick_dm _ h λ no_dm h.
          returned (cascade_if_any ctx s (played_character kicked party s.memberships)) _ h
            λ after ran h. done h λ same. (
              λ e. absurd (ground arith),
              ground (arith, member),
              no_dm,
              record {
                after = after;
                ran = ran;
                led = ground arith;
                left = ap (λ (x : ReducerResult). x.state) same;
              },
            )

pub Departing-IsDeparted :
    (ctx : Context) (s : State) (user : ℕ) (r : ReducerResult)
    → Departing ctx s user r
    → IsDeparted s user r.state
Departing-IsDeparted ctx s user r d = subst (IsDeparted s user) d.left (
    departed-IsDeparted ctx.now s d.after.state user
      (cascade_if_any-IsUntouched ctx s (played_character user s.party.id s.memberships) d.after
        d.ran)
      d.led)

Departing-IsConserved :
    (ctx : Context) (s : State) (user : ℕ) (r : ReducerResult)
    → ItemsAreSound s.items
    → IsSound s
    → HasLoot s
    → Departing ctx s user r
    → IsConserved s r.state
Departing-IsConserved ctx s user r items sound loot d = subst (IsConserved s) d.left (
    departed-IsConserved ctx.now s d.after.state user (
      cascade_if_any-IsConserved ctx s (played_character user s.party.id s.memberships) d.after
        items sound loot d.ran))

-- Where each stash has at most one holding and none has a negative denomination, item ids are
-- distinct and no row is empty, stash ids are distinct and Recovered Loot is a stash of that scope,
-- a `leave-party` that succeeds leaves the actor no active membership, but no row vanishes, and
-- every row of somebody else is as it was but for the character it may point to, so that nobody
-- else gains or loses the role of player or DM, and a party that had an active DM still has one;
-- the actor is not the banker, the banker stays the banker if it was not the actor, the party and
-- its owner stay; and the value of all holdings and every definition's quantity are as before, the
-- holdings and the items still sound.
pub leave_party-IsDeparted :
    (ctx : Context) (s : State) (r : ReducerResult)
    → ItemsAreSound s.items
    → IsSound s
    → HasLoot s
    → leave_party ctx (some s) ≡ ok r
    → IsDeparted s s.user_id r.state × IsConserved s r.state
leave_party-IsDeparted ctx s r items sound loot h =
    let d = leave_party-Departing ctx s r h in
    (
      Departing-IsDeparted ctx s s.user_id r d,
      Departing-IsConserved ctx s s.user_id r items sound loot d,
    )

-- Where each stash has at most one holding and none has a negative denomination, item ids are
-- distinct and no row is empty, stash ids are distinct and Recovered Loot is a stash of that scope,
-- a `kick-player` that succeeds is of an active member other than the actor who is not a DM, and
-- who is left no active membership; no row vanishes, and every row of somebody else is as it was
-- but for the character it may point to, so that nobody else gains or loses the role of player or
-- DM, and a party that had an active DM still has one; the player is not the banker, the banker
-- stays the banker if it was not the player, the party and its owner stay; and the value of all
-- holdings and every definition's quantity are as before, the holdings and the items still sound.
pub kick_player-IsDeparted :
    (ctx : Context) (s : State) (kicked : ℕ) (r : ReducerResult)
    → ItemsAreSound s.items
    → IsSound s
    → HasLoot s
    → kick_player ctx (some s) kicked ≡ ok r
    → (kicked ≢ s.user_id)
      × (any (is_active kicked s.party.id) s.memberships ≡ true)
      × (has_active_dm kicked s.party.id s.memberships ≡ false)
      × IsDeparted s kicked r.state
      × IsConserved s r.state
kick_player-IsDeparted ctx s kicked r items sound loot h =
    let d = kick_player-Departing ctx s kicked r h in
    (
      d.0,
      d.1,
      d.2,
      Departing-IsDeparted ctx s kicked r d.3,
      Departing-IsConserved ctx s kicked r items sound loot d.3,
    )
