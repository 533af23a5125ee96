-- ===== src/Reducer/Shops/Trade/Selling.antt =====
-- What `sale` does to the coins, the items and the stock.
use dnd_inventory.Prelude.{
  ℕ, ◌*◌, ◌<◌, ◌≡◌, refl, ap, subst, arith, false, some, Absent, find_row, find_row-key, ltb, pos,
  ◌+ℤ◌, All, All-find_row, update_row, not,
}
use dnd_inventory.Result.{
  ok, passed, found, returned, done, bad_uuid, unknown_shop, unknown_item, quantity_exceeds_source,
  unknown_stash, unknown_definition, no_cost, no_holding,
}
use dnd_inventory.Rules.Currency.{Currency, full, to_copper, from_copper}
use dnd_inventory.Rules.Currency.Copper.{from_copper-ok}
use dnd_inventory.Rules.Pricing.{sell_price}
use dnd_inventory.State.{
  State, Shop, ItemDefinition, ItemInstance, Stash, Cost, Context, CurrencyHolding, shop_id,
  entry_id, stash_id, definition_id, holding_stash, item_id,
}
use dnd_inventory.Reducer.Shared.{ReducerResult}
use dnd_inventory.Reducer.Counts.{ItemsAreSound}
use dnd_inventory.Reducer.Stacks.Quantities.{IsConsumed, consumed_items-IsConsumed}
use dnd_inventory.Reducer.Money.{with_coins}
use dnd_inventory.Reducer.Money.Conservation.{IsSound}
use dnd_inventory.Reducer.Shops.Trade.{SalePayload, base_cp, prices, sale, sold}
use dnd_inventory.Reducer.Shops.Trade.Paying.{IsPaid, new_holding-IsPaid}
use dnd_inventory.Reducer.Shops.Trade.Restocking.{IsStocked, sold-IsStocked}
use dnd_inventory.Reducer.Shops.Trade.Shelves.{ShopIsSound, ShopsAreSound, sold-ShopsAreSound}

-- What a merchant pays for one of an item.
abbrev pub credit_of : Context → State → Shop → ItemDefinition → Cost → ℕ
credit_of ctx s shop def cost =
    sell_price ctx.numbers (base_cp ctx.numbers cost) def.source (prices s shop)
      shop.sell_to_merchant_rate

-- What a sale that succeeded went through.
pub record Sold (ctx : Context) (s : State) (p : SalePayload) (r : ReducerResult) : Type 0 where
  pub shop : Shop
  pub item : ItemInstance
  pub seller : Stash
  pub def : ItemDefinition
  pub cost : Cost
  pub holding : CurrencyHolding
  pub coins : Currency
  pub e_shop : find_row shop_id p.shop_id s.shops ≡ some shop
  pub e_item : find_row item_id p.item_instance_id s.items ≡ some item
  pub enough : ltb item.quantity p.quantity ≡ false
  pub e_seller : find_row stash_id item.owner_id s.stashes ≡ some seller
  pub e_def : find_row definition_id item.definition_id s.catalog ≡ some def
  pub e_cost : def.cost ≡ some cost
  pub e_holding : find_row holding_stash seller.id s.currencies ≡ some holding
  pub e_coins :
      from_copper
        (to_copper (full holding.coins) +ℤ pos (credit_of ctx s shop def cost * p.quantity))
      ≡ ok coins
  pub made : sold s p shop item seller (with_coins coins holding) ≡ r.state

sale-Sold :
    (ctx : Context) (s : State) (p : SalePayload) (r : ReducerResult)
    → sale ctx (some s) p ≡ ok r
    → Sold ctx s p r
unfolding sale
sale-Sold ctx s p r h = passed (not (ctx.is_valid_uuid_v7 p.new_stock_entry_id)) bad_uuid _ h λ _ h.
    found (find_row shop_id p.shop_id s.shops) unknown_shop _ h λ shop e_shop h.
      found (find_row item_id p.item_instance_id s.items) unknown_item _ h λ item e_item h.
        passed (ltb item.quantity p.quantity) quantity_exceeds_source _ h λ enough h.
          found (find_row stash_id item.owner_id s.stashes) unknown_stash _ h λ seller e_seller h.
            found (find_row definition_id item.definition_id s.catalog) unknown_definition _ h
              λ def e_def h. found def.cost no_cost _ h λ cost e_cost h.
                found (find_row holding_stash seller.id s.currencies) no_holding _ h
                  λ holding e_holding h.
                    returned
                      (from_copper (
                        to_copper (full holding.coins)
                        +ℤ pos (credit_of ctx s shop def cost * p.quantity)))
                      _ h
                      λ coins e_coins h. done h λ same. record {
                        shop = shop;
                        item = item;
                        seller = seller;
                        def = def;
                        cost = cost;
                        holding = holding;
                        coins = coins;
                        e_shop = e_shop;
                        e_item = e_item;
                        enough = enough;
                        e_seller = e_seller;
                        e_def = e_def;
                        e_cost = e_cost;
                        e_holding = e_holding;
                        e_coins = e_coins;
                        made = ap (λ (x : ReducerResult). x.state) same;
                      }

-- What selling does to a state: `unit` is what the merchant pays for one of `item`.
pub record IsSale (s : State) (p : SalePayload) (item : ItemInstance) (unit : ℕ) (s' : State)
    : Type 0 where
  pub paid : IsPaid item.owner_id (pos (unit * p.quantity)) s.currencies s'.currencies
  pub consumed : IsConsumed item p.quantity s.items s'.items
  pub shops : ShopsAreSound s'.shops
  pub stocked : IsStocked p.shop_id item.definition_id p.quantity s.shops s'.shops
  pub rest : s' ≡ record s { items = s'.items; currencies = s'.currencies; shops = s'.shops }

-- Where each stash has at most one holding and none has a negative denomination, item ids are
-- distinct and no row is empty, and the shops' ids and those of each shop's stock are distinct,
-- with no quantity in stock below 0 but -1, a `sale` that succeeds, of one or more under an id that
-- no stock has, takes exactly that quantity from the one row and nothing else of it or of any other
-- row, pays the stash it lay in the merchant's price of one times the quantity and no other stash,
-- and leaves the coins, the items and the stock sound. The shop has the goods: as a new entry of
-- that quantity, or on top of an entry of the definition that it had, where that has a limit; its
-- other entries, the other shops and everything else stay.
pub sale-IsSale :
    (ctx : Context) (s : State) (p : SalePayload) (r : ReducerResult)
    → ItemsAreSound s.items
    → IsSound s
    → ShopsAreSound s.shops
    → All (λ (sh : Shop). Absent entry_id p.new_stock_entry_id sh.stock) s.shops
    → 0 < p.quantity
    → sale ctx (some s) p ≡ ok r
    → (shop : Shop) × (item : ItemInstance) × (def : ItemDefinition) × (cost : Cost) × (find_row
          shop_id p.shop_id s.shops
        ≡ some shop)
      × (find_row item_id p.item_instance_id s.items ≡ some item)
      × (find_row definition_id item.definition_id s.catalog ≡ some def)
      × (def.cost ≡ some cost)
      × IsSale s p item (credit_of ctx s shop def cost) r.state
sale-IsSale ctx s p r items sound shops fresh positive h =
    let b = sale-Sold ctx s p r h in
    let unit = credit_of ctx s b.shop b.def b.cost in
    let credited = with_coins b.coins b.holding in
    let (worth, nonneg) =
      from_copper-ok (to_copper (full b.holding.coins) +ℤ pos (unit * p.quantity)) b.coins
        b.e_coins in
    let earned : IsPaid b.item.owner_id (pos (unit * p.quantity)) s.currencies
        (update_row holding_stash b.seller.id (λ _. credited) s.currencies) =
      subst
        (λ k.
          IsPaid k (pos (unit * p.quantity)) s.currencies
            (update_row holding_stash b.seller.id (λ _. credited) s.currencies))
        (find_row-key stash_id b.item.owner_id s.stashes b.e_seller)
        (new_holding-IsPaid s.currencies b.seller.id b.holding b.coins (pos (unit * p.quantity))
          sound.one_each sound.nonneg b.e_holding nonneg worth) in
    (
      b.shop,
      b.item,
      b.def,
      b.cost,
      b.e_shop,
      b.e_item,
      b.e_def,
      b.e_cost,
      subst (IsSale s p b.item unit) b.made (record {
        paid = earned;
        consumed =
            consumed_items-IsConsumed s.items p.item_instance_id p.quantity b.item items b.e_item
              positive (ground (arith, b.enough));
        shops = sold-ShopsAreSound s.shops p b.item b.shop p.shop_id shops b.e_shop (
            All-find_row shop_id (λ (sh : Shop). Absent entry_id p.new_stock_entry_id sh.stock)
              p.shop_id s.shops fresh b.e_shop);
        stocked =
            sold-IsStocked s.shops p b.item b.shop p.shop_id
              (All-find_row shop_id ShopIsSound p.shop_id s.shops shops.stock b.e_shop).0
              (All-find_row shop_id (λ (sh : Shop). Absent entry_id p.new_stock_entry_id sh.stock)
                p.shop_id s.shops fresh b.e_shop)
              b.e_shop;
        rest = refl;
      }),
    )
