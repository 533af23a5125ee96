-- ===== src/Reducer/Actions/Invariant.antt =====
-- When a state is sound, and how a change of one part of it keeps it so.
use dnd_inventory.Prelude.{ℕ, ◌≡◌, ◌≢◌, sym, subst, true, some, List, Unique, find_row, any}
use dnd_inventory.State.{
  State, Party, Membership, Stash, Shop, GameSession, ItemInstance, CurrencyHolding, stash_id,
  holding_stash, scope_is_recovered_loot,
}
use dnd_inventory.Reducer.Counts.{ItemsAreSound}
use dnd_inventory.Reducer.Money.Conservation.{AllNonneg, IsSound}
use dnd_inventory.Reducer.Cascade.Rollup.{HasLoot}
use dnd_inventory.Reducer.Sessions.Current.{SessionsAreSound}
use dnd_inventory.Reducer.Shops.Trade.Shelves.{ShopsAreSound}
use dnd_inventory.Reducer.Members.{has_active_player}
use dnd_inventory.Reducer.Departures.Active.{is_dm_of}

-- Recovered Loot of the party is a stash of that scope, and no two stashes have one id.
pub record StashesAreSound (loot : ℕ) (stashes : List Stash) : Type 0 where
  pub ids : Unique stash_id stashes
  pub stash : Stash
  pub there : find_row stash_id loot stashes ≡ some stash
  pub scoped : scope_is_recovered_loot stash.scope ≡ true

-- At most one holding for each stash, none of them with a negative denomination.
pub record CoinsAreSound (currencies : List CurrencyHolding) : Type 0 where
  pub one_each : Unique holding_stash currencies
  pub nonneg : AllNonneg currencies

-- The party has an active DM, and its banker, if any, is an active player other than the owner.
pub record MembersAreSound (party : Party) (members : List Membership) : Type 0 where
  pub led : any (is_dm_of party.id) members ≡ true
  pub banker :
      (user : ℕ)
      → party.banker_user_id ≡ some user
      → (user ≢ party.owner_user_id) × (has_active_player user party.id members ≡ true)

-- By the parts of a state, so that a change of one part leaves the others' proofs as they are.
pub record PartsAreSound (party : Party) (ms : List Membership) (gs : List GameSession)
    (sts : List Stash) (shs : List Shop) (is : List ItemInstance) (cs : List CurrencyHolding)
    : Type 0 where
  pub items : ItemsAreSound is
  pub coins : CoinsAreSound cs
  pub stashes : StashesAreSound party.recovered_loot_stash_id sts
  pub shops : ShopsAreSound shs
  pub sessions : SessionsAreSound gs
  pub members : MembersAreSound party ms

abbrev pub StateIsSound : State → Type 0
StateIsSound s =
    PartsAreSound s.party s.memberships s.game_sessions s.stashes s.shops s.items s.currencies

pub coins_of : (s : State) → StateIsSound s → IsSound s
coins_of s w = record { one_each = w.coins.one_each; nonneg = w.coins.nonneg }

pub loot_of : (s : State) → StateIsSound s → HasLoot s
loot_of s w = record {
  ids = w.stashes.ids;
  stash = w.stashes.stash;
  there = w.stashes.there;
  scoped = w.stashes.scoped;
}

pub with_items :
    (s : State) (items : List ItemInstance)
    → StateIsSound s
    → ItemsAreSound items
    → StateIsSound (record s { items = items })
with_items s items w new = record {
  items = new;
  coins = w.coins;
  stashes = w.stashes;
  shops = w.shops;
  sessions = w.sessions;
  members = w.members;
}

pub with_currencies :
    (s : State) (currencies : List CurrencyHolding)
    → StateIsSound s
    → CoinsAreSound currencies
    → StateIsSound (record s { currencies = currencies })
with_currencies s currencies w new = record {
  items = w.items;
  coins = new;
  stashes = w.stashes;
  shops = w.shops;
  sessions = w.sessions;
  members = w.members;
}

pub with_sessions :
    (s : State) (sessions : List GameSession)
    → StateIsSound s
    → SessionsAreSound sessions
    → StateIsSound (record s { game_sessions = sessions })
with_sessions s sessions w new = record {
  items = w.items;
  coins = w.coins;
  stashes = w.stashes;
  shops = w.shops;
  sessions = new;
  members = w.members;
}

pub with_shops :
    (s : State) (shops : List Shop)
    → StateIsSound s
    → ShopsAreSound shops
    → StateIsSound (record s { shops = shops })
with_shops s shops w new = record {
  items = w.items;
  coins = w.coins;
  stashes = w.stashes;
  shops = new;
  sessions = w.sessions;
  members = w.members;
}

pub with_stashes :
    (s : State) (stashes : List Stash)
    → StateIsSound s
    → StashesAreSound s.party.recovered_loot_stash_id stashes
    → StateIsSound (record s { stashes = stashes })
with_stashes s stashes w new = record {
  items = w.items;
  coins = w.coins;
  stashes = new;
  shops = w.shops;
  sessions = w.sessions;
  members = w.members;
}

-- The party may change too, but for its Recovered Loot.
pub with_members :
    (s : State) (party : Party) (members : List Membership)
    → StateIsSound s
    → party.recovered_loot_stash_id ≡ s.party.recovered_loot_stash_id
    → MembersAreSound party members
    → StateIsSound (record s { party = party; memberships = members })
with_members s party members w same new = record {
  items = w.items;
  coins = w.coins;
  stashes = subst (λ k. StashesAreSound k s.stashes) (sym same) w.stashes;
  shops = w.shops;
  sessions = w.sessions;
  members = new;
}
