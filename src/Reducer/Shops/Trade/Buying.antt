-- ===== src/Reducer/Shops/Trade/Buying.antt =====
-- What `purchase` does to the coins, the items and the stock.
use dnd_inventory.Prelude.{
  ℕ, ◌*◌, ◌<◌, ◌≡◌, refl, ap, subst, arith, Bool, true, false, not, ◌&&◌, inl, inr, some, List,
  Absent, find, find_row, update_row, Option-cases, pos, ◌-ℤ◌, ltb_ℤ, int_laws, parts_of_eq,
  find-true, find_row-key,
}
use dnd_inventory.Result.{
  ok, returned, passed, found, done, bad_uuid, unknown_shop, unknown_stock_entry,
  insufficient_stock, unknown_stash, unknown_definition, no_holding, insufficient_funds,
}
use dnd_inventory.Rules.Currency.{Currency, full, to_copper, from_copper}
use dnd_inventory.Rules.Currency.Copper.{from_copper-ok}
use dnd_inventory.State.{
  State, Shop, ShopStockEntry, ItemDefinition, ItemInstance, Stash, Context, CurrencyHolding,
  shop_id, entry_id, stash_id, definition_id, holding_stash, item_id,
}
use dnd_inventory.Reducer.Shared.{ReducerResult}
use dnd_inventory.Reducer.Counts.{ItemsAreSound}
use dnd_inventory.Reducer.Acquire.Quantities.{IsAcquired, stacked-IsAcquired, snoc-IsAcquired}
use dnd_inventory.Reducer.Acquire.Placing.{IsPlaced, stacked-IsPlaced, snoc-IsPlaced}
use dnd_inventory.Reducer.Money.Conservation.{IsSound}
use dnd_inventory.Reducer.Money.{with_coins}
use dnd_inventory.Reducer.Shops.{is_unlimited}
use dnd_inventory.Reducer.Shops.Trade.{
  PurchasePayload, purchase, purchase_unit_cost, purchase_stacks, place_purchased, purchased_row,
  bought,
}
use dnd_inventory.Reducer.Shops.Trade.Paying.{IsPaid, new_holding-IsPaid}
use dnd_inventory.Reducer.Shops.Trade.Shelves.{
  ShopsAreSound, IsTaken, bought-ShopsAreSound, bought-IsTaken,
}

-- What buying does to a state: `unit` is the price of one.
pub record IsPurchase (s : State) (p : PurchasePayload) (def unit : ℕ) (s' : State) : Type 0 where
  pub paid : IsPaid p.target_stash_id (pos 0 -ℤ pos (unit * p.quantity)) s.currencies s'.currencies
  pub acquired : IsAcquired def p.quantity s.items s'.items
  pub placed : IsPlaced p.target_stash_id def p.quantity s.items s'.items
  pub shops : ShopsAreSound s'.shops
  pub taken : IsTaken p.shop_id p.stock_entry_id p.quantity s.shops s'.shops
  pub rest : s' ≡ record s { items = s'.items; currencies = s'.currencies; shops = s'.shops }

place_purchased-IsAcquired :
    (items : List ItemInstance) (target : Stash) (def : ItemDefinition) (p : PurchasePayload)
    → ItemsAreSound items
    → Absent item_id p.new_item_instance_id items
    → 0 < p.quantity
    → IsAcquired def.id p.quantity items (place_purchased items target def p).1
place_purchased-IsAcquired items target def p sound fresh positive =
    let test : ItemInstance → Bool = purchase_stacks target.id def.id in
    elim (Option-cases (find test items)) [
      | inl nothing ↦
          rw (place_purchased, nothing)
            (snoc-IsAcquired items def.id p.quantity sound positive (purchased_row target def p)
              fresh refl refl)
      | inr (existing, hit) ↦
          let holds : test existing ≡ true = find-true test items hit in
          rw (place_purchased, hit)
            (stacked-IsAcquired items def.id p.quantity sound positive test existing hit
              (ground arith))
    ]

place_purchased-IsPlaced :
    (items : List ItemInstance) (target : Stash) (def : ItemDefinition) (p : PurchasePayload)
    → ItemsAreSound items
    → Absent item_id p.new_item_instance_id items
    → IsPlaced target.id def.id p.quantity items (place_purchased items target def p).1
place_purchased-IsPlaced items target def p sound fresh =
    let test : ItemInstance → Bool = purchase_stacks target.id def.id in
    elim (Option-cases (find test items)) [
      | inl nothing ↦
          rw (place_purchased, nothing)
            (snoc-IsPlaced items target.id def.id p.quantity (purchased_row target def p) fresh refl
              refl refl)
      | inr (existing, hit) ↦
          let holds : test existing ≡ true = find-true test items hit in
          rw (place_purchased, hit)
            (stacked-IsPlaced items target.id def.id p.quantity test existing sound.ids hit
              (ground arith) (ground arith))
    ]

-- What a purchase that succeeded went through.
record Bought (ctx : Context) (s : State) (p : PurchasePayload) (r : ReducerResult) : Type 0 where
  shop : Shop
  entry : ShopStockEntry
  target : Stash
  def : ItemDefinition
  unit : ℕ
  holding : CurrencyHolding
  coins : Currency
  e_shop : find_row shop_id p.shop_id s.shops ≡ some shop
  e_entry : find_row entry_id p.stock_entry_id shop.stock ≡ some entry
  enough : (not (is_unlimited entry.quantity) && ltb_ℤ entry.quantity (pos p.quantity)) ≡ false
  e_target : find_row stash_id p.target_stash_id s.stashes ≡ some target
  e_def : find_row definition_id entry.item_definition_id s.catalog ≡ some def
  e_unit : purchase_unit_cost ctx.numbers s def entry shop ≡ ok unit
  e_holding : find_row holding_stash target.id s.currencies ≡ some holding
  e_coins : from_copper (to_copper (full holding.coins) -ℤ pos (unit * p.quantity)) ≡ ok coins
  made : bought s p shop entry target def (with_coins coins holding) ≡ r.state

purchase-Bought :
    (ctx : Context) (s : State) (p : PurchasePayload) (r : ReducerResult)
    → purchase ctx (some s) p ≡ ok r
    → Bought ctx s p r
unfolding purchase
purchase-Bought ctx s p r h =
    passed (not (ctx.is_valid_uuid_v7 p.new_item_instance_id)) bad_uuid _ h λ _ h.
      found (find_row shop_id p.shop_id s.shops) unknown_shop _ h λ shop e_shop h.
        found (find_row entry_id p.stock_entry_id shop.stock) unknown_stock_entry _ h
          λ entry e_entry h.
            passed (not (is_unlimited entry.quantity) && ltb_ℤ entry.quantity (pos p.quantity))
              insufficient_stock _ h
              λ enough h.
                found (find_row stash_id p.target_stash_id s.stashes) unknown_stash _ h
                  λ target e_target h.
                    found (find_row definition_id entry.item_definition_id s.catalog)
                      unknown_definition _ h
                      λ def e_def h.
                        returned (purchase_unit_cost ctx.numbers s def entry shop) _ h
                          λ unit e_unit h.
                            found (find_row holding_stash target.id s.currencies) no_holding _ h
                              λ holding e_holding h.
                                passed
                                  (ltb_ℤ (to_copper (full holding.coins)) (pos (unit * p.quantity)))
                                  insufficient_funds _ h
                                  λ _ h.
                                    returned
                                      (from_copper
                                        (to_copper (full holding.coins) -ℤ pos (unit * p.quantity)))
                                      _ h
                                      λ coins e_coins h. done h λ same. record {
                                        shop = shop;
                                        entry = entry;
                                        target = target;
                                        def = def;
                                        unit = unit;
                                        holding = holding;
                                        coins = coins;
                                        e_shop = e_shop;
                                        e_entry = e_entry;
                                        enough = enough;
                                        e_target = e_target;
                                        e_def = e_def;
                                        e_unit = e_unit;
                                        e_holding = e_holding;
                                        e_coins = e_coins;
                                        made = ap (λ (x : ReducerResult). x.state) same;
                                      }

-- Where each stash has at most one holding and none has a negative denomination, item ids are
-- distinct and no row is empty, and the shops' ids and those of each shop's stock are distinct,
-- with no quantity in stock below 0 but -1, a `purchase` that succeeds, of one or more under an id
-- that no row has, takes from the stash the price of one times the quantity and no coins from
-- another, adds exactly that quantity of the stocked definition in that stash, to one row or as a
-- new one, changes no other row, and leaves the coins, the items and the stock sound. A quantity in
-- stock of -1, without limit, stays; any other was at least the quantity bought and is that much
-- less, so that it never falls below 0; no other entry of the shop and no other shop changes, nor
-- anything else.
pub purchase-IsPurchase :
    (ctx : Context) (s : State) (p : PurchasePayload) (r : ReducerResult)
    → ItemsAreSound s.items
    → IsSound s
    → ShopsAreSound s.shops
    → Absent item_id p.new_item_instance_id s.items
    → 0 < p.quantity
    → purchase ctx (some s) p ≡ ok r
    → (shop : Shop) × (entry : ShopStockEntry) × (def : ItemDefinition) × (unit : ℕ) × (find_row
          shop_id p.shop_id s.shops
        ≡ some shop)
      × (find_row entry_id p.stock_entry_id shop.stock ≡ some entry)
      × (find_row definition_id entry.item_definition_id s.catalog ≡ some def)
      × (purchase_unit_cost ctx.numbers s def entry shop ≡ ok unit)
      × IsPurchase s p def.id unit r.state
purchase-IsPurchase ctx s p r items sound shops fresh positive h =
    let b = purchase-Bought ctx s p r h in
    let paid = with_coins b.coins b.holding in
    let cost = pos (b.unit * p.quantity) in
    let (worth, nonneg) =
      from_copper-ok (to_copper (full b.holding.coins) -ℤ cost) b.coins b.e_coins in
    let key = find_row-key stash_id p.target_stash_id s.stashes b.e_target in
    let spent : IsPaid p.target_stash_id (pos 0 -ℤ cost) s.currencies
        (update_row holding_stash b.target.id (λ _. paid) s.currencies) =
      subst
        (λ k.
          IsPaid k (pos 0 -ℤ cost) s.currencies
            (update_row holding_stash b.target.id (λ _. paid) s.currencies))
        key
        (new_holding-IsPaid s.currencies b.target.id b.holding b.coins (pos 0 -ℤ cost)
          sound.one_each sound.nonneg b.e_holding nonneg (omega (int_laws, parts_of_eq worth))) in
    (
      b.shop,
      b.entry,
      b.def,
      b.unit,
      b.e_shop,
      b.e_entry,
      b.e_def,
      b.e_unit,
      subst (IsPurchase s p b.def.id b.unit) b.made (record {
        paid = spent;
        acquired = place_purchased-IsAcquired s.items b.target b.def p items fresh positive;
        placed =
            subst
              (λ k.
                IsPlaced k b.def.id p.quantity s.items (place_purchased s.items b.target b.def p).1)
              key (place_purchased-IsPlaced s.items b.target b.def p items fresh);
        shops =
            bought-ShopsAreSound s.shops p.quantity b.shop b.entry p.shop_id p.stock_entry_id shops
              b.e_shop b.e_entry b.enough;
        taken =
            bought-IsTaken s.shops p.quantity b.shop b.entry p.shop_id p.stock_entry_id b.e_shop
              b.e_entry b.enough;
        rest = refl;
      }),
    )
