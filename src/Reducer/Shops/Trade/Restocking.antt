-- ===== src/Reducer/Shops/Trade/Restocking.antt =====
-- The stock of a shop after a sale to its merchant.
use dnd_inventory.Prelude.{
  ℕ, ◌+◌, ◌≡◌, ◌≢◌, refl, sym, ap, subst, ◌∙◌, arith, Bool, true, false, ◌⊎◌, inl, inr, none, some,
  List, Bool-cases, Option-cases, Absent, Unique, find, find-true, find_row, find_row-key,
  update_row, ◌==◌, pos, negsuc, ◌+ℤ◌, int_laws, find-find_row, find_row-Absent,
  find_row-update_row_self, find_row-update_row_ne, find_row-snoc, find_row-snoc_ne,
}
use dnd_inventory.State.{Shop, ShopStockEntry, ItemInstance, shop_id, entry_id}
use dnd_inventory.Reducer.Shops.{is_unlimited}
use dnd_inventory.Reducer.Shops.Trade.Shelves.{put_stock-id}
use dnd_inventory.Reducer.Shops.Trade.{put_stock, SalePayload, restocked, fresh_entry}

-- One entry of the definition is new with quantity `n`, or has `n` more unless it has no limit;
-- every other entry is as it was.
pub record IsGrown (definition n : ℕ) (before after : List ShopStockEntry) : Type 0 where
  pub entry : ShopStockEntry
  pub now : find_row entry_id entry.id after ≡ some entry
  pub of_definition : entry.item_definition_id ≡ definition
  pub grown :
      ((find_row entry_id entry.id before ≡ none) × (entry.quantity ≡ pos n))
      ⊎ ((old : ShopStockEntry) × (find_row entry_id entry.id before ≡ some old)
          × (entry ≡ record old { quantity = entry.quantity })
          × (old.quantity ≡ negsuc 0 → entry.quantity ≡ negsuc 0)
          × ((m : ℕ) → old.quantity ≡ pos m → entry.quantity ≡ pos (m + n)))
  pub others : (j : ℕ) → j ≢ entry.id → find_row entry_id j after ≡ find_row entry_id j before

-- The same of the one shop, and the other shops stay.
pub record IsStocked (shop definition n : ℕ) (before after : List Shop) : Type 0 where
  pub old_shop : Shop
  pub new_shop : Shop
  pub shop_was : find_row shop_id shop before ≡ some old_shop
  pub shop_now : find_row shop_id shop after ≡ some new_shop
  pub shop_same : new_shop ≡ record old_shop { stock = new_shop.stock }
  pub goods : IsGrown definition n old_shop.stock new_shop.stock
  pub other_shops : (j : ℕ) → j ≢ shop → find_row shop_id j after ≡ find_row shop_id j before

put_stock-definition :
    (n : ℕ) (e : ShopStockEntry) → (put_stock n e).item_definition_id ≡ e.item_definition_id
put_stock-definition n e = elim (Bool-cases (is_unlimited e.quantity)) [
  | inl endless ↦ rw endless refl
  | inr finite ↦ rw finite refl
]

put_stock-same :
    (n : ℕ) (e : ShopStockEntry) → put_stock n e ≡ record e { quantity = (put_stock n e).quantity }
put_stock-same n e = elim (Bool-cases (is_unlimited e.quantity)) [
  | inl endless ↦ rw (put_stock, endless) refl
  | inr finite ↦ rw (put_stock, finite) refl
]

put_stock-endless :
    (n : ℕ) (e : ShopStockEntry) → e.quantity ≡ negsuc 0 → (put_stock n e).quantity ≡ negsuc 0
put_stock-endless n e h = rw (put_stock, h) refl

put_more : (n m : ℕ) → pos m +ℤ pos n ≡ pos (m + n)
put_more n m = omega (int_laws)

put_stock-counted :
    (n : ℕ) (e : ShopStockEntry) (m : ℕ)
    → e.quantity ≡ pos m
    → (put_stock n e).quantity ≡ pos (m + n)
put_stock-counted n e m h =
    let finite : is_unlimited e.quantity ≡ false = rw h (ground arith) in
    rw (put_stock, finite) (ap (λ q. q +ℤ pos n) h ∙ put_more n m)

restocked-IsGrown :
    (p : SalePayload) (item : ItemInstance) (stock : List ShopStockEntry)
    → Unique entry_id stock
    → Absent entry_id p.new_stock_entry_id stock
    → IsGrown item.definition_id p.quantity stock (restocked p item stock).1
restocked-IsGrown p item stock ids fresh =
    let test : ShopStockEntry → Bool = λ e. e.item_definition_id == item.definition_id in
    elim (Option-cases (find test stock)) [
      | inl nothing ↦
          rw (restocked, nothing)
            (record {
              entry = fresh_entry p item;
              now = find_row-snoc entry_id stock (fresh_entry p item) fresh;
              of_definition = refl;
              grown = inl (find_row-Absent entry_id p.new_stock_entry_id stock fresh, refl);
              others = λ j d. find_row-snoc_ne entry_id j stock (fresh_entry p item) d;
            })
      | inr (old, hit) ↦
          let holds : test old ≡ true = find-true test stock hit in
          let e = find-find_row entry_id test stock ids hit in
          rw (restocked, hit) (onto old e (ground arith))
    ]
  where
    onto :
        (old : ShopStockEntry)
        → find_row entry_id old.id stock ≡ some old
        → old.item_definition_id ≡ item.definition_id
        → IsGrown item.definition_id p.quantity stock
            (update_row entry_id old.id (put_stock p.quantity) stock)
    onto old e of_definition =
        let n = p.quantity in
        let key : (put_stock n old).id ≡ old.id = put_stock-id n old in
        record {
          entry = put_stock n old;
          now =
              subst
                (λ k.
                  find_row entry_id k (update_row entry_id old.id (put_stock n) stock)
                  ≡ some (put_stock n old))
                (sym key) (find_row-update_row_self entry_id old.id (put_stock n) stock e key);
          of_definition = put_stock-definition n old ∙ of_definition;
          grown = inr (
            old,
            subst (λ k. find_row entry_id k stock ≡ some old) (sym key) e,
            put_stock-same n old,
            put_stock-endless n old,
            put_stock-counted n old,
          );
          others = λ j d.
              find_row-update_row_ne entry_id j old.id (put_stock n) stock (λ h. d (h ∙ sym key))
                (λ x h. put_stock-id n x ∙ h);
        }

pub sold-IsStocked :
    (shops : List Shop) (p : SalePayload) (item : ItemInstance) (shop : Shop) (j : ℕ)
    → Unique entry_id shop.stock
    → Absent entry_id p.new_stock_entry_id shop.stock
    → find_row shop_id j shops ≡ some shop
    → IsStocked j item.definition_id p.quantity shops (
        update_row shop_id shop.id
          (λ (sh : Shop). record sh { stock = (restocked p item shop.stock).1 })
          shops)
sold-IsStocked shops p item shop j ids fresh e =
    let put : Shop → Shop = λ sh. record sh { stock = (restocked p item shop.stock).1 } in
    let key = find_row-key shop_id j shops e in
    record {
      old_shop = shop;
      new_shop = put shop;
      shop_was = e;
      shop_now =
          subst (λ i. find_row shop_id j (update_row shop_id i put shops) ≡ some (put shop))
            (sym key) (find_row-update_row_self shop_id j put shops e key);
      shop_same = refl;
      goods = restocked-IsGrown p item shop.stock ids fresh;
      other_shops =
          λ i d. find_row-update_row_ne shop_id i shop.id put shops (λ h. d (h ∙ key)) (λ _ h. h);
    }
