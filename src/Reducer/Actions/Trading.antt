-- ===== src/Reducer/Actions/Trading.antt =====
-- That the actions on shops keep a state sound.
use dnd_inventory.Prelude.{
  ℕ, ◌<◌, ◌≡◌, refl, sym, subst, arith, Bool, false, not, some, List, [], ◌∷◌, ◌++◌, All, Absent,
  any, find_row, update_row, remove_row, bool_eq, ◌==◌, All-append, All-remove_row, Unique-snoc,
  Unique-remove_row,
}
use dnd_inventory.Prelude.Text.{Text}
use dnd_inventory.Result.{
  ok, found, passed, done, bad_uuid, already_exists, unknown_shop, no_change,
}
use dnd_inventory.State.{State, Context, Shop, shop_id, entry_id, item_id}
use dnd_inventory.Reducer.Shared.{ReducerResult}
use dnd_inventory.Reducer.Counts.{ItemsAreSound}
use dnd_inventory.Reducer.Shops.{
  ShopPatch, create_shop, edit_shop, delete_shop, set_shop_open, changed_shop_fields, patched_shop,
  is_empty_list,
}
use dnd_inventory.Reducer.Shops.Trade.{PurchasePayload, SalePayload, purchase, sale}
use dnd_inventory.Reducer.Shops.Trade.Buying.{purchase-IsPurchase}
use dnd_inventory.Reducer.Shops.Trade.Selling.{sale-IsSale}
use dnd_inventory.Reducer.Shops.Trade.Shelves.{ShopIsSound, ShopsAreSound}
use dnd_inventory.Reducer.Actions.Invariant.{CoinsAreSound, StateIsSound, with_shops, coins_of}
use dnd_inventory.Reducer.Actions.Stocking.{updated-ShopsAreSound, shop_of}

-- Nothing with the key is there, by the test that the handlers make.
any-Absent :
    (k : ℕ) (shops : List Shop)
    → any (λ (sh : Shop). sh.id == k) shops ≡ false
    → Absent shop_id k shops
any-Absent k [] h = tt
any-Absent k (sh ∷ shops) h = ground (arith, any-Absent k shops)

module _ (ctx : Context) (s : State) (r : ReducerResult) (w : StateIsSound s) where
  pub create_shop-StateIsSound :
      (name : Text) (new_shop : ℕ)
      → create_shop ctx (some s) name new_shop ≡ ok r
      → StateIsSound r.state
  unfolding create_shop
  create_shop-StateIsSound name new_shop h =
      passed (not (ctx.is_valid_uuid_v7 new_shop)) bad_uuid _ h λ _ h.
        passed (any (λ (sh : Shop). sh.id == new_shop) s.shops) already_exists _ h λ fresh h.
          done h λ same.
            let shop : Shop = record {
              id = new_shop;
              party_id = s.party.id;
              name = name;
              price_modifier = ctx.numbers.one;
              sell_to_merchant_rate = ctx.numbers.half;
              is_open = false;
              stock = [];
              created_at = ctx.now;
            } in
            subst (λ (x : ReducerResult). StateIsSound x.state) same
              (with_shops s (s.shops ++ shop ∷ []) w (record {
                ids =
                    Unique-snoc shop_id s.shops shop (any-Absent new_shop s.shops fresh)
                      w.shops.ids;
                stock = All-append ShopIsSound s.shops (shop ∷ []) w.shops.stock ((tt, tt), tt);
              }))

  pub edit_shop-StateIsSound :
      (id : ℕ) (patch : ShopPatch) → edit_shop (some s) id patch ≡ ok r → StateIsSound r.state
  unfolding edit_shop
  edit_shop-StateIsSound id patch h =
      found (find_row shop_id id s.shops) unknown_shop _ h λ shop e h.
        passed (is_empty_list (changed_shop_fields shop patch)) no_change _ h λ _ h. done h λ same.
          let new_shop = patched_shop shop patch in
          subst (λ (x : ReducerResult). StateIsSound x.state) same
            (with_shops s (update_row shop_id shop.id (λ _. new_shop) s.shops) w (
              updated-ShopsAreSound s.shops id shop (λ _. new_shop) w.shops e (λ _ _. refl)
                (shop_of s w id e)))

  pub delete_shop-StateIsSound : (id : ℕ) → delete_shop (some s) id ≡ ok r → StateIsSound r.state
  unfolding delete_shop
  delete_shop-StateIsSound id h = found (find_row shop_id id s.shops) unknown_shop _ h λ shop _ h.
      done h λ same.
        subst (λ (x : ReducerResult). StateIsSound x.state) same
          (with_shops s (remove_row shop_id shop.id s.shops) w (record {
            ids = Unique-remove_row shop_id shop.id s.shops w.shops.ids;
            stock = All-remove_row shop_id ShopIsSound shop.id s.shops w.shops.stock;
          }))

  pub set_shop_open-StateIsSound :
      (id : ℕ) (is_open : Bool) → set_shop_open (some s) id is_open ≡ ok r → StateIsSound r.state
  unfolding set_shop_open
  set_shop_open-StateIsSound id is_open h =
      found (find_row shop_id id s.shops) unknown_shop _ h λ shop e h.
        passed (bool_eq shop.is_open is_open) no_change _ h λ _ h. done h λ same.
          let f : Shop → Shop = λ sh. record sh { is_open = is_open } in
          subst (λ (x : ReducerResult). StateIsSound x.state) same
            (with_shops s (update_row shop_id shop.id f s.shops) w
              (updated-ShopsAreSound s.shops id shop f w.shops e (λ _ h. h) (shop_of s w id e)))

  -- A trade changes the items, the coins and the shops.
  traded :
      ItemsAreSound r.state.items
      → CoinsAreSound r.state.currencies
      → ShopsAreSound r.state.shops
      → r.state
        ≡ record s { items = r.state.items; currencies = r.state.currencies; shops = r.state.shops }
      → StateIsSound r.state
  traded items coins shops e =
      let made : StateIsSound (record s {
        items = r.state.items;
        currencies = r.state.currencies;
        shops = r.state.shops;
      }) =
        record {
          items = items;
          coins = coins;
          stashes = w.stashes;
          shops = shops;
          sessions = w.sessions;
          members = w.members;
        } in
      subst StateIsSound (sym e) made

  pub purchase-StateIsSound :
      (p : PurchasePayload)
      → Absent item_id p.new_item_instance_id s.items
      → 0 < p.quantity
      → purchase ctx (some s) p ≡ ok r
      → StateIsSound r.state
  purchase-StateIsSound p fresh positive h =
      let out = (purchase-IsPurchase ctx s p r w.items (coins_of s w) w.shops fresh positive h).8 in
      traded out.acquired.sound (record { one_each = out.paid.one_each; nonneg = out.paid.nonneg })
        out.shops out.rest

  pub sale-StateIsSound :
      (p : SalePayload)
      → All (λ (sh : Shop). Absent entry_id p.new_stock_entry_id sh.stock) s.shops
      → 0 < p.quantity
      → sale ctx (some s) p ≡ ok r
      → StateIsSound r.state
  sale-StateIsSound p fresh positive h =
      let out = (sale-IsSale ctx s p r w.items (coins_of s w) w.shops fresh positive h).8 in
      traded out.consumed.sound (record { one_each = out.paid.one_each; nonneg = out.paid.nonneg })
        out.shops out.rest
