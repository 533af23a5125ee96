-- ===== src/Reducer/Actions/Wealth.antt =====
-- What a party has, its coins' value and its quantity of each definition, and what `reduce` does to
-- it.
use dnd_inventory.Prelude.{
  ℕ, ◌≡◌, ◌+◌, ◌*◌, ap, Bool, true, some, ℤ, pos, ◌+ℤ◌, ◌-ℤ◌, ◌==◌, if◌then◌else◌, find_row,
}
use dnd_inventory.Result.{ok}
use dnd_inventory.Rules.Currency.{full, to_copper}
use dnd_inventory.State.{
  State, Context, Shop, ShopStockEntry, ItemDefinition, ItemInstance, Cost, item_id, shop_id,
  entry_id, definition_id,
}
use dnd_inventory.Reducer.Shared.{ReducerResult}
use dnd_inventory.Reducer.Counts.{count_of}
use dnd_inventory.Reducer.Money.Conservation.{total_copper}
use dnd_inventory.Reducer.Money.Effects.{currency_change-IsChange}
use dnd_inventory.Reducer.Acquire.Quantities.{acquire-IsAcquired}
use dnd_inventory.Reducer.Stacks.Quantities.{consume-IsConsumed}
use dnd_inventory.Reducer.Shops.Trade.{purchase_unit_cost}
use dnd_inventory.Reducer.Shops.Trade.Buying.{purchase-IsPurchase}
use dnd_inventory.Reducer.Shops.Trade.Selling.{credit_of, sale-IsSale}
use dnd_inventory.Reducer.Action.{Action}
use dnd_inventory.Reducer.Actions.{reduce}
use dnd_inventory.Reducer.Actions.Invariant.{StateIsSound, coins_of}
use dnd_inventory.Reducer.Actions.Preserved.{NewIn}
use dnd_inventory.Reducer.Actions.Moves.{is_move, move-IsConserved}

pub record Wealth : Type 0 where
  pub copper : ℤ
  pub count : ℕ → ℕ

abbrev pub wealth : State → Wealth
wealth s = record { copper = total_copper s.currencies; count = λ def. count_of def s.items }

-- With so many more of one definition.
abbrev pub with_items : ℕ → ℕ → Wealth → Wealth
with_items def n w = record {
  copper = w.copper;
  count = λ d. w.count d + (if def == d then n else 0);
}

-- With coins of so much more value.
abbrev pub with_copper : ℤ → Wealth → Wealth
with_copper v w = record { copper = w.copper +ℤ v; count = w.count }

-- The actions that leave, make, use up or trade what a party has.
abbrev pub is_economic : Action → Bool
is_economic (Action.acquire _) = true
is_economic (Action.consume _ _) = true
is_economic (Action.currency_change _ _ _) = true
is_economic (Action.purchase _) = true
is_economic (Action.sale _) = true
is_economic a = is_move a

-- The least that each of them promises: a purchase pays the price of what it brings, a sale brings
-- the price of what it takes, and the others make, use up or move.
abbrev pub Promise : Context → State → Action → Wealth → Wealth → Type 0
Promise ctx s (Action.acquire p) w w' = w' ≡ with_items p.definition_id p.quantity w
Promise ctx s (Action.consume item quantity) w w' =
    (row : ItemInstance) × (find_row item_id item s.items ≡ some row)
    × (with_items row.definition_id quantity w' ≡ w)
Promise ctx s (Action.currency_change stash delta reason) w w' =
    w' ≡ with_copper (to_copper (full delta)) w
Promise ctx s (Action.purchase p) w w' =
    (shop : Shop) × (entry : ShopStockEntry) × (def : ItemDefinition) × (unit : ℕ) × (find_row
        shop_id p.shop_id s.shops
      ≡ some shop)
    × (find_row entry_id p.stock_entry_id shop.stock ≡ some entry)
    × (find_row definition_id entry.item_definition_id s.catalog ≡ some def)
    × (purchase_unit_cost ctx.numbers s def entry shop ≡ ok unit)
    × (w' ≡ with_items def.id p.quantity (with_copper (pos 0 -ℤ pos (unit * p.quantity)) w))
Promise ctx s (Action.sale p) w w' =
    (shop : Shop) × (item : ItemInstance) × (def : ItemDefinition) × (cost : Cost) × (find_row
        shop_id p.shop_id s.shops
      ≡ some shop)
    × (find_row item_id p.item_instance_id s.items ≡ some item)
    × (find_row definition_id item.definition_id s.catalog ≡ some def)
    × (def.cost ≡ some cost)
    × (with_items item.definition_id p.quantity w'
        ≡ with_copper (pos (credit_of ctx s shop def cost * p.quantity)) w)
Promise ctx s _ w w' = w' ≡ w

wealth_eq : (v w : Wealth) → v.copper ≡ w.copper → ((d : ℕ) → v.count d ≡ w.count d) → v ≡ w
wealth_eq v w p q = λ i. record { copper = p i; count = λ d. q d i }

copper_kept : (s s' : State) → s'.currencies ≡ s.currencies → (wealth s').copper ≡ (wealth s).copper
copper_kept s s' e = ap total_copper e

module _ (ctx : Context) (s : State) (r : ReducerResult) (w : StateIsSound s) where
  move-Promise :
      (a : Action)
      → NewIn s a
      → is_move a ≡ true
      → reduce ctx (some s) a ≡ ok r
      → wealth r.state ≡ wealth s
  move-Promise a new m h =
      let out = move-IsConserved ctx s r w a new m h in
      wealth_eq (wealth r.state) (wealth s) out.copper out.items.counts

  -- On a sound state, an action of the following types that succeeds, with new ids and, of a trade,
  -- with one item or more, changes what the party has as the action promises: an acquire adds its
  -- quantity of its definition, a consume takes its quantity of the row's, a currency-change adds
  -- the value of its delta; a purchase adds the stocked definition and takes the unit price times
  -- the quantity, a sale takes the sold definition and adds the merchant's price times the
  -- quantity; and a transfer, split, equip, unequip, attune, unattune, currency-transfer,
  -- delete-stash, delete-character, leave-party or kick-player changes nothing of it.
  pub reduce-Promise :
      (a : Action)
      → NewIn s a
      → is_economic a ≡ true
      → reduce ctx (some s) a ≡ ok r
      → Promise ctx s a (wealth s) (wealth r.state)
  unfolding reduce
  reduce-Promise (Action.acquire p) new m h =
      let (out, rest, _) = acquire-IsAcquired ctx s p r w.items new h in
      wealth_eq (wealth r.state) (with_items p.definition_id p.quantity (wealth s))
        (copper_kept s r.state (ap (λ (x : State). x.currencies) rest)) out.counts
  reduce-Promise (Action.consume item quantity) new m h =
      let (row, e, out, rest) = consume-IsConsumed s item quantity r w.items h in
      (
        row,
        e,
        wealth_eq (with_items row.definition_id quantity (wealth r.state)) (wealth s)
            (copper_kept s r.state (ap (λ (x : State). x.currencies) rest)) out.counts,
      )
  reduce-Promise (Action.currency_change stash delta reason) new m h =
      let out = currency_change-IsChange s stash delta reason r (coins_of s w) h in
      wealth_eq (wealth r.state) (with_copper (to_copper (full delta)) (wealth s)) out.total
        (λ d. ap (λ (x : State). count_of d x.items) out.rest)
  reduce-Promise (Action.purchase p) new m h =
      let (shop, entry, def, unit, e_shop, e_entry, e_def, e_unit, out) =
        purchase-IsPurchase ctx s p r w.items (coins_of s w) w.shops new.0 new.1 h in
      (
        shop,
        entry,
        def,
        unit,
        e_shop,
        e_entry,
        e_def,
        e_unit,
        wealth_eq (wealth r.state)
            (with_items def.id p.quantity
              (with_copper (pos 0 -ℤ pos (unit * p.quantity)) (wealth s)))
            out.paid.total out.acquired.counts,
      )
  reduce-Promise (Action.sale p) new m h =
      let (shop, item, def, cost, e_shop, e_item, e_def, e_cost, out) =
        sale-IsSale ctx s p r w.items (coins_of s w) w.shops new.0 new.1 h in
      (
        shop,
        item,
        def,
        cost,
        e_shop,
        e_item,
        e_def,
        e_cost,
        wealth_eq (with_items item.definition_id p.quantity (wealth r.state))
            (with_copper (pos (credit_of ctx s shop def cost * p.quantity)) (wealth s))
            out.paid.total out.consumed.counts,
      )
  reduce-Promise a new m h = move-Promise a new m h
