-- ===== src/Reducer/Actions/Stocking.antt =====
-- That a change of a shop's stock keeps a state sound.
use dnd_inventory.Prelude.{
  ℕ, ◌≡◌, refl, subst, arith, true, false, not, ◌&&◌, Option, some, none, List, [], ◌∷◌, ◌++◌, All,
  Absent, Unique, any, find_row, update_row, remove_row, is_some, or_else, ◌==◌, ℤ, find_row_self,
  All-find_row, All-append, All-update_row, All-update_found, All-remove_row, Unique-snoc,
  Unique-update_row, Unique-remove_row,
}
use dnd_inventory.Result.{
  ok, found, passed, done, bad_uuid, already_exists, unknown_shop, no_change, bad_quantity,
  unknown_definition, no_cost, unknown_stock_entry,
}
use dnd_inventory.State.{State, Context, Shop, ShopStockEntry, shop_id, entry_id, definition_id}
use dnd_inventory.Reducer.Shared.{ReducerResult}
use dnd_inventory.Reducer.Shops.{price_changes, quantity_changes, bad_new_stock, unpriced}
use dnd_inventory.Reducer.Shops.{
  StockOperation, edit_shop_stock, bad_stock, has_no_cost, add_stock, update_stock, remove_stock,
  edit_stock,
}
use dnd_inventory.Reducer.Shops.Trade.Shelves.{stock_ok, ShopIsSound, ShopsAreSound}
use dnd_inventory.Reducer.Actions.Invariant.{StateIsSound, with_shops}

any-Absent-entry :
    (k : ℕ) (stock : List ShopStockEntry)
    → any (λ (e : ShopStockEntry). e.id == k) stock ≡ false
    → Absent entry_id k stock
any-Absent-entry k [] h = tt
any-Absent-entry k (e ∷ stock) h = ground (arith, any-Absent-entry k stock)

-- The one shop that an id finds gets another stock, or other fields.
pub updated-ShopsAreSound :
    (shops : List Shop) (j : ℕ) (shop : Shop) (f : Shop → Shop)
    → ShopsAreSound shops
    → find_row shop_id j shops ≡ some shop
    → ((sh : Shop) → shop_id sh ≡ shop.id → shop_id (f sh) ≡ shop.id)
    → ShopIsSound (f shop)
    → ShopsAreSound (update_row shop_id shop.id f shops)
updated-ShopsAreSound shops j shop f sound e keeps good = record {
  ids = Unique-update_row shop_id shop.id f shops keeps sound.ids;
  stock =
      All-update_found shop_id ShopIsSound shop.id f shops sound.ids
        (find_row_self shop_id j shops e) good sound.stock;
}

next-ok :
    (entry : ShopStockEntry) (quantity : Option ℤ)
    → stock_ok entry ≡ true
    → bad_new_stock quantity ≡ false
    → stock_ok (record entry { quantity = or_else quantity entry.quantity }) ≡ true
next-ok entry none was good = was
next-ok entry (some q) was good = ground arith

pub shop_of :
    (s : State) (w : StateIsSound s) (j : ℕ) {shop : Shop}
    → find_row shop_id j s.shops ≡ some shop
    → ShopIsSound shop
shop_of s w j e = All-find_row shop_id ShopIsSound j s.shops w.shops.stock e

module _ (ctx : Context) (s : State) (r : ReducerResult) (w : StateIsSound s) where
  -- The stock of the one shop becomes another.
  edit_stock-StateIsSound :
      (id : ℕ) (shop : Shop) (f : List ShopStockEntry → List ShopStockEntry)
      → find_row shop_id id s.shops ≡ some shop
      → Unique entry_id (f shop.stock)
      → All (λ (e : ShopStockEntry). stock_ok e ≡ true) (f shop.stock)
      → StateIsSound (edit_stock shop.id f s)
  edit_stock-StateIsSound id shop f e ids stock =
      let g : Shop → Shop = λ sh. record sh { stock = f sh.stock } in
      with_shops s (update_row shop_id shop.id g s.shops) w
        (updated-ShopsAreSound s.shops id shop g w.shops e (λ _ h. h) (ids, stock))

  add_stock-StateIsSound :
      (id : ℕ) (shop : Shop) (new_entry definition : ℕ) (price : Option ℕ) (quantity : ℤ)
      → find_row shop_id id s.shops ≡ some shop
      → add_stock ctx s shop new_entry definition price quantity ≡ ok r
      → StateIsSound r.state
  unfolding add_stock
  add_stock-StateIsSound id shop new_entry definition price quantity e h =
      passed (not (ctx.is_valid_uuid_v7 new_entry)) bad_uuid _ h λ _ h.
        passed (any (λ (e : ShopStockEntry). e.id == new_entry) shop.stock) already_exists _ h
          λ fresh h. passed (bad_stock quantity) bad_quantity _ h λ good h.
            found (find_row definition_id definition s.catalog) unknown_definition _ h λ def _ h.
              passed (has_no_cost def && not (is_some price)) no_cost _ h λ _ h. done h λ same.
                let entry : ShopStockEntry = record {
                  id = new_entry;
                  item_definition_id = definition;
                  price_override = price;
                  quantity = quantity;
                } in
                let (ids, stock) = shop_of s w id e in
                subst (λ (x : ReducerResult). StateIsSound x.state) same
                  (edit_stock-StateIsSound id shop (λ stock. stock ++ entry ∷ []) e
                    (Unique-snoc entry_id shop.stock entry
                      (any-Absent-entry new_entry shop.stock fresh) ids)
                    (All-append (λ (e : ShopStockEntry). stock_ok e ≡ true) shop.stock (entry ∷ [])
                      stock (ground arith, tt)))

  update_stock-StateIsSound :
      (id : ℕ) (shop : Shop) (key : ℕ) (price : Option (Option ℕ)) (quantity : Option ℤ)
      → find_row shop_id id s.shops ≡ some shop
      → update_stock s shop key price quantity ≡ ok r
      → StateIsSound r.state
  unfolding update_stock
  update_stock-StateIsSound id shop key price quantity e h =
      found (find_row entry_id key shop.stock) unknown_stock_entry _ h λ entry e_entry h.
        passed
          (not (price_changes price entry.price_override)
            && not (quantity_changes quantity entry.quantity))
          no_change _ h
          λ _ h. passed (bad_new_stock quantity) bad_quantity _ h λ good h.
            passed (unpriced s entry price) no_cost _ h λ _ h. done h λ same.
              let next : ShopStockEntry = record entry {
                price_override = or_else price entry.price_override;
                quantity = or_else quantity entry.quantity;
              } in
              let (ids, stock) = shop_of s w id e in
              let fine : ShopStockEntry → Type 0 = λ e. stock_ok e ≡ true in
              let was = All-find_row entry_id fine key shop.stock stock e_entry in
              let now : stock_ok next ≡ true = next-ok entry quantity was good in
              subst (λ (x : ReducerResult). StateIsSound x.state) same
                (edit_stock-StateIsSound id shop (update_row entry_id entry.id (λ _. next)) e
                  (Unique-update_row entry_id entry.id (λ _. next) shop.stock (λ _ _. refl) ids)
                  (All-update_row entry_id fine entry.id (λ _. next) shop.stock (λ _ _. now) stock))

  remove_stock-StateIsSound :
      (id : ℕ) (shop : Shop) (key : ℕ)
      → find_row shop_id id s.shops ≡ some shop
      → remove_stock s shop key ≡ ok r
      → StateIsSound r.state
  unfolding remove_stock
  remove_stock-StateIsSound id shop key e h =
      found (find_row entry_id key shop.stock) unknown_stock_entry _ h λ entry _ h. done h λ same.
        let (ids, stock) = shop_of s w id e in
        subst (λ (x : ReducerResult). StateIsSound x.state) same
          (edit_stock-StateIsSound id shop (remove_row entry_id entry.id) e
            (Unique-remove_row entry_id entry.id shop.stock ids)
            (All-remove_row entry_id (λ (e : ShopStockEntry). stock_ok e ≡ true) entry.id shop.stock
              stock))

  pub edit_shop_stock-StateIsSound :
      (id : ℕ) (op : StockOperation)
      → edit_shop_stock ctx (some s) id op ≡ ok r
      → StateIsSound r.state
  unfolding edit_shop_stock
  edit_shop_stock-StateIsSound id (StockOperation.add entry definition price quantity) h =
      found (find_row shop_id id s.shops) unknown_shop _ h
        λ shop e h. add_stock-StateIsSound id shop entry definition price quantity e h
  edit_shop_stock-StateIsSound id (StockOperation.update entry price quantity) h =
      found (find_row shop_id id s.shops) unknown_shop _ h
        λ shop e h. update_stock-StateIsSound id shop entry price quantity e h
  edit_shop_stock-StateIsSound id (StockOperation.remove entry) h =
      found (find_row shop_id id s.shops) unknown_shop _ h
        λ shop e h. remove_stock-StateIsSound id shop entry e h
