-- ===== src/Reducer/Actions/Moves.antt =====
-- The actions of `reduce` that only move what a party has.
use dnd_inventory.Prelude.{◌≡◌, refl, sym, subst, ◌∙◌, Bool, true, false, some}
use dnd_inventory.Result.{ok}
use dnd_inventory.State.{State, Context}
use dnd_inventory.Reducer.Shared.{ReducerResult}
use dnd_inventory.Reducer.Counts.{IsMoved}
use dnd_inventory.Reducer.Money.Effects.{currency_transfer-IsTransfer}
use dnd_inventory.Reducer.Transfer.Quantities.{transfer-IsMoved}
use dnd_inventory.Reducer.Stacks.Quantities.{split-IsSplit}
use dnd_inventory.Reducer.Flags.Restack.{equip_or_unequip-IsMoved, attune_or_unattune-IsMoved}
use dnd_inventory.Reducer.Stashes.Deletion.{delete_stash-IsDeleted}
use dnd_inventory.Reducer.Cascade.Rollup.{delete_character-IsTakenOut}
use dnd_inventory.Reducer.Departures.Active.{IsConserved}
use dnd_inventory.Reducer.Departures.Leaving.{leave_party-IsDeparted, kick_player-IsDeparted}
use dnd_inventory.Reducer.Action.{Action}
use dnd_inventory.Reducer.Actions.{reduce}
use dnd_inventory.Reducer.Actions.Invariant.{StateIsSound, coins_of, loot_of}
use dnd_inventory.Reducer.Actions.Preserved.{NewIn, reduce-StateIsSound}

-- The actions that carry, part, wear, hand over or leave behind, and neither make nor use up.
abbrev pub is_move : Action → Bool
is_move (Action.transfer _) = true
is_move (Action.split _ _ _) = true
is_move (Action.equip _) = true
is_move (Action.unequip _) = true
is_move (Action.attune _) = true
is_move (Action.unattune _) = true
is_move (Action.currency_transfer _ _ _) = true
is_move (Action.delete_stash _) = true
is_move (Action.delete_character _) = true
is_move Action.leave_party = true
is_move (Action.kick_player _) = true
is_move _ = false

module _ (ctx : Context) (s : State) (r : ReducerResult) (w : StateIsSound s) where
  items_moved :
      IsMoved s.items r.state.items
      → r.state ≡ record s { items = r.state.items }
      → IsConserved s r.state
  items_moved moved rest = subst (IsConserved s) (sym rest) (record {
    copper = refl;
    items = moved;
    holdings = record { one_each = w.coins.one_each; nonneg = w.coins.nonneg };
  })

  pub move-IsConserved :
      (a : Action)
      → NewIn s a
      → is_move a ≡ true
      → reduce ctx (some s) a ≡ ok r
      → IsConserved s r.state
  unfolding reduce
  move-IsConserved (Action.transfer p) new m h =
      let out = transfer-IsMoved ctx s p r w.items new h in items_moved out.0 out.1
  move-IsConserved (Action.split item quantity new_item) new m h =
      let out = split-IsSplit ctx s item quantity new_item r w.items new h in
      items_moved (record { counts = out.2.counts; sound = out.2.sound }) out.3
  move-IsConserved (Action.equip p) new m h =
      let out = equip_or_unequip-IsMoved ctx s true p r w.items new h in items_moved out.0 out.1
  move-IsConserved (Action.unequip p) new m h =
      let out = equip_or_unequip-IsMoved ctx s false p r w.items new h in items_moved out.0 out.1
  move-IsConserved (Action.attune p) new m h =
      let out = attune_or_unattune-IsMoved ctx s true p r w.items new h in items_moved out.0 out.1
  move-IsConserved (Action.unattune p) new m h =
      let out = attune_or_unattune-IsMoved ctx s false p r w.items new h in items_moved out.0 out.1
  move-IsConserved (Action.currency_transfer f t delta) new m h =
      let out = currency_transfer-IsTransfer s f t delta r (coins_of s w) h in
      record {
        copper = out.total;
        items =
            subst (λ (x : State). IsMoved s.items x.items) (sym out.rest)
              (record { counts = λ def. refl; sound = w.items });
        holdings = out.sound;
      }
  move-IsConserved (Action.delete_stash stash) new m h =
      let out =
        delete_stash-IsDeleted ctx s stash w.stashes.stash r w.items (coins_of s w) w.stashes.there
          w.stashes.scoped h in
      record { copper = out.copper; items = out.items; holdings = out.holdings }
  move-IsConserved (Action.delete_character character) new m h =
      let out =
        delete_character-IsTakenOut ctx s character r w.items (coins_of s w) (loot_of s w) h in
      record { copper = out.copper; items = out.items; holdings = out.holdings }
  move-IsConserved Action.leave_party new m h =
      (leave_party-IsDeparted ctx s r w.items (coins_of s w) (loot_of s w) h).1
  move-IsConserved (Action.kick_player user) new m h =
      (kick_player-IsDeparted ctx s user r w.items (coins_of s w) (loot_of s w) h).4
  move-IsConserved _ new m h = absurd (cc)

-- A sequence of such actions, each with new ids and each of which succeeds.
pub data Moves : State → State → Type 0 where
  rest : {s : State} → Moves s s
  move :
      {first last : State} (ctx : Context) (a : Action) (r : ReducerResult)
      → Moves first last
      → NewIn last a
      → is_move a ≡ true
      → reduce ctx (some last) a ≡ ok r
      → Moves first r.state

-- What a sequence of moves keeps: the value of all coins and every definition's quantity.
pub record IsKept (s s' : State) : Type 0 where
  pub conserved : IsConserved s s'
  pub sound : StateIsSound s'

-- However many actions of transfer, split, equip, unequip, attune, unattune, currency-transfer,
-- delete-stash, delete-character, leave-party and kick-player follow on a sound state, each with
-- new ids, the party as a whole has the coins' value and every definition's quantity that it had,
-- and the state is sound.
pub Moves-IsKept : {s s' : State} → Moves s s' → StateIsSound s → IsKept s s'
Moves-IsKept {s = s} rest w = record {
  conserved = record {
    copper = refl;
    items = record { counts = λ def. refl; sound = w.items };
    holdings = coins_of s w;
  };
  sound = w;
}
Moves-IsKept (move {last = last} ctx a r before new m h) w =
    let kept = Moves-IsKept before w in
    let next = move-IsConserved ctx last r kept.sound a new m h in
    record {
      conserved = record {
        copper = next.copper ∙ kept.conserved.copper;
        items = record {
          counts = λ def. next.items.counts def ∙ kept.conserved.items.counts def;
          sound = next.items.sound;
        };
        holdings = next.holdings;
      };
      sound = reduce-StateIsSound ctx (some last) a r kept.sound new h;
    }
