-- ===== src/Reducer/Shops/Trade.antt =====
-- packages/rules/src/reducer/index.ts: `purchase` and `sale`.
pub mod Paying
pub mod Shelves
pub mod Buying
pub mod Restocking
pub mod Selling
use dnd_inventory.Prelude.{
  ℕ, ◌+◌, ◌-◌, ◌*◌, Bool, true, false, not, ◌&&◌, Option, none, some, List, [], ◌∷◌, ◌++◌, find,
  find_row, update_row, remove_row, ltb, ◌==◌, if◌then◌else◌, ℤ, pos, ◌+ℤ◌, ◌-ℤ◌, ltb_ℤ,
}
use dnd_inventory.Result.{
  Result, ok, ◌>>=◌, ◌>>◌, or_throw, throw_if, bad_uuid, unknown_shop, unknown_stock_entry,
  insufficient_stock, unknown_stash, unknown_definition, no_cost, no_holding, insufficient_funds,
  unknown_item, quantity_exceeds_source,
}
use dnd_inventory.Rules.Currency.{multiplier, full, to_copper, from_copper}
use dnd_inventory.Rules.Pricing.{Numbers, PriceContext, buy_price, sell_price}
use dnd_inventory.State.{
  State, AppState, Shop, ShopStockEntry, ItemDefinition, ItemInstance, Stash, CurrencyHolding, Cost,
  Context, shop_id, entry_id, stash_id, definition_id, holding_stash, item_id,
}
use dnd_inventory.State.Log.{LogSlice, Trade}
use dnd_inventory.Reducer.Shared.{ReducerResult, require_state, is_inventory, same_notes}
use dnd_inventory.Reducer.Acquire.{charges_max}
use dnd_inventory.Reducer.Stacks.{consumed_items}
use dnd_inventory.Reducer.Money.{with_coins}
use dnd_inventory.Reducer.Shops.{is_unlimited}

-- `currency.toCopper({ [def.cost.currency]: def.cost.amount })`
abbrev pub base_cp : Numbers → Cost → ℕ
base_cp num cost = num.times cost.amount (num.of_whole (multiplier cost.currency))

abbrev pub prices : State → Shop → PriceContext
prices s shop = record {
  party_modifier = s.party.price_modifier;
  shop_modifier = some shop.price_modifier;
}

unfoldable pub purchase_unit_cost :
    Numbers → State → ItemDefinition → ShopStockEntry → Shop → Result ℕ
purchase_unit_cost num s def entry shop = elim entry.price_override [
  | some price ↦ ok price
  | none ↦ do
    cost ← or_throw def.cost no_cost
    ok (buy_price num (base_cp num cost) def.source (prices s shop))
]

pub record PurchasePayload : Type 0 where
  pub shop_id : ℕ
  pub stock_entry_id : ℕ
  pub target_stash_id : ℕ
  pub quantity : ℕ
  pub new_item_instance_id : ℕ

-- The rows that a purchase stacks onto.
abbrev pub purchase_stacks : ℕ → ℕ → ItemInstance → Bool
purchase_stacks stash def i =
    i.owner_id == stash
    && opt_is_none i.container_instance_id
    && i.definition_id == def
    && same_notes i.notes none
  where
    opt_is_none : Option ℕ → Bool
    opt_is_none none = true
    opt_is_none (some k) = false

abbrev pub purchased_row : Stash → ItemDefinition → PurchasePayload → ItemInstance
purchased_row target def p = record {
  id = p.new_item_instance_id;
  definition_id = def.id;
  owner_id = target.id;
  container_instance_id = none;
  quantity = p.quantity;
  equipped = false;
  attuned = false;
  identified = true;
  hint = none;
  current_charges = if is_inventory target then charges_max def else none;
  custom_name = none;
  notes = none;
}

-- The id of the row that takes the items, and the items after it has taken them.
abbrev pub place_purchased :
    List ItemInstance → Stash → ItemDefinition → PurchasePayload → ℕ × List ItemInstance
place_purchased items target def p = elim (find (purchase_stacks target.id def.id) items) [
  | some existing ↦ (
    existing.id,
    update_row item_id existing.id (λ i. record i { quantity = i.quantity + p.quantity }) items,
  )
  | none ↦ (p.new_item_instance_id, items ++ purchased_row target def p ∷ [])
]

abbrev pub take_stock : ℕ → ShopStockEntry → ShopStockEntry
take_stock n e = if is_unlimited e.quantity then e else record e { quantity = e.quantity -ℤ pos n }

abbrev pub put_stock : ℕ → ShopStockEntry → ShopStockEntry
put_stock n e = if is_unlimited e.quantity then e else record e { quantity = e.quantity +ℤ pos n }

-- The state after a purchase, `paid` being what the stash then holds.
abbrev pub bought :
    State
    → PurchasePayload
    → Shop
    → ShopStockEntry
    → Stash
    → ItemDefinition
    → CurrencyHolding
    → State
bought s p shop entry target def paid = record s {
  items = (place_purchased s.items target def p).1;
  currencies = update_row holding_stash target.id (λ _. paid) s.currencies;
  shops =
      update_row shop_id shop.id
        (λ (sh : Shop). record sh {
          stock = update_row entry_id entry.id (take_stock p.quantity) sh.stock;
        })
        s.shops;
}

unfoldable pub purchase : Context → AppState → PurchasePayload → Result ReducerResult
unfolding purchase_unit_cost
purchase ctx state p = do
  s ← require_state state
  throw_if (not (ctx.is_valid_uuid_v7 p.new_item_instance_id)) bad_uuid
  shop ← or_throw (find_row shop_id p.shop_id s.shops) unknown_shop
  entry ← or_throw (find_row entry_id p.stock_entry_id shop.stock) unknown_stock_entry
  throw_if (not (is_unlimited entry.quantity) && ltb_ℤ entry.quantity (pos p.quantity))
      insufficient_stock
  target ← or_throw (find_row stash_id p.target_stash_id s.stashes) unknown_stash
  def ← or_throw (find_row definition_id entry.item_definition_id s.catalog) unknown_definition
  unit ← purchase_unit_cost ctx.numbers s def entry shop
  let total = unit * p.quantity
  holding ← or_throw (find_row holding_stash target.id s.currencies) no_holding
  let balance = to_copper (full holding.coins)
  throw_if (ltb_ℤ balance (pos total)) insufficient_funds
  coins ← from_copper (balance -ℤ pos total)
  ok (record {
    state = bought s p shop entry target def (with_coins coins holding);
    log_entries =
        LogSlice.purchase (record {
          shop = shop.id;
          entry = entry.id;
          definition = def.id;
          item = (place_purchased s.items target def p).0;
          stash = target.id;
          quantity = p.quantity;
          unit_cp = unit;
          total_cp = total;
        })
        ∷ [];
  })

pub record SalePayload : Type 0 where
  pub shop_id : ℕ
  pub item_instance_id : ℕ
  pub quantity : ℕ
  pub new_stock_entry_id : ℕ

abbrev pub fresh_entry : SalePayload → ItemInstance → ShopStockEntry
fresh_entry p item = record {
  id = p.new_stock_entry_id;
  item_definition_id = item.definition_id;
  price_override = none;
  quantity = pos p.quantity;
}

-- The entry that takes the goods, and the stock with them.
abbrev pub restocked : SalePayload → ItemInstance → List ShopStockEntry → ℕ × List ShopStockEntry
restocked p item stock =
    elim (find (λ (e : ShopStockEntry). e.item_definition_id == item.definition_id) stock) [
      | some existing ↦ (existing.id, update_row entry_id existing.id (put_stock p.quantity) stock)
      | none ↦ (p.new_stock_entry_id, stock ++ fresh_entry p item ∷ [])
    ]

-- The state after a sale, `credited` being what the seller's stash then holds.
abbrev pub sold : State → SalePayload → Shop → ItemInstance → Stash → CurrencyHolding → State
sold s p shop item seller credited = record s {
  items = consumed_items item p.quantity s.items;
  currencies = update_row holding_stash seller.id (λ _. credited) s.currencies;
  shops =
      update_row shop_id shop.id
        (λ (sh : Shop). record sh { stock = (restocked p item shop.stock).1 }) s.shops;
}

unfoldable pub sale : Context → AppState → SalePayload → Result ReducerResult
sale ctx state p = do
  s ← require_state state
  throw_if (not (ctx.is_valid_uuid_v7 p.new_stock_entry_id)) bad_uuid
  shop ← or_throw (find_row shop_id p.shop_id s.shops) unknown_shop
  item ← or_throw (find_row item_id p.item_instance_id s.items) unknown_item
  throw_if (ltb item.quantity p.quantity) quantity_exceeds_source
  seller ← or_throw (find_row stash_id item.owner_id s.stashes) unknown_stash
  def ← or_throw (find_row definition_id item.definition_id s.catalog) unknown_definition
  cost ← or_throw def.cost no_cost
  let unit =
      sell_price ctx.numbers (base_cp ctx.numbers cost) def.source (prices s shop)
        shop.sell_to_merchant_rate
  let total = unit * p.quantity
  holding ← or_throw (find_row holding_stash seller.id s.currencies) no_holding
  coins ← from_copper (to_copper (full holding.coins) +ℤ pos total)
  ok (record {
    state = sold s p shop item seller (with_coins coins holding);
    log_entries =
        LogSlice.sale (record {
          shop = shop.id;
          entry = (restocked p item shop.stock).0;
          definition = item.definition_id;
          item = item.id;
          stash = seller.id;
          quantity = p.quantity;
          unit_cp = unit;
          total_cp = total;
        })
        ∷ [];
  })
