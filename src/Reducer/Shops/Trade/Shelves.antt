-- ===== src/Reducer/Shops/Trade/Shelves.antt =====
-- The stock of the shops when goods leave and enter it.
use dnd_inventory.Prelude.{subst, sym, ◌∙◌}
use dnd_inventory.Prelude.{ap, find_row-key}
use dnd_inventory.Prelude.{
  int_laws, ◌≢◌, ◌≤◌, ◌-◌, find_row-update_row_self, find_row-update_row_ne,
}
use dnd_inventory.Prelude.{
  ℕ, ◌≡◌, refl, ◌∙◌, Bool-cases, arith, Bool, true, false, not, ◌&&◌, ◌||◌, inl, inr, some, List,
  All, Absent, Unique, find, find_row, update_row, Option-cases, ◌==◌, ℤ, pos, negsuc, ◌-ℤ◌, ◌+ℤ◌,
  Unique-snoc, All-append, [], ◌∷◌, ltb_ℤ, find_row_self, All-find_row, All-update_found,
  Unique-update_row, All-update_row,
}
use dnd_inventory.State.{Shop, ShopStockEntry, ItemInstance, shop_id, entry_id}
use dnd_inventory.Reducer.Shops.{is_unlimited}
use dnd_inventory.Reducer.Shops.Trade.{take_stock, put_stock, SalePayload, restocked, fresh_entry}

-- A quantity in stock is -1, for no limit, or not negative.
abbrev pub stock_ok : ShopStockEntry → Bool
stock_ok e = is_unlimited e.quantity || not (ltb_ℤ e.quantity (pos 0))

abbrev pub ShopIsSound : Shop → Type 0
ShopIsSound sh = Unique entry_id sh.stock × All (λ e. stock_ok e ≡ true) sh.stock

pub record ShopsAreSound (shops : List Shop) : Type 0 where
  pub ids : Unique shop_id shops
  pub stock : All ShopIsSound shops

left_over :
    (n : ℕ) (q : ℤ)
    → ltb_ℤ q (pos n) ≡ false
    → (is_unlimited (q -ℤ pos n) || not (ltb_ℤ (q -ℤ pos n) (pos 0))) ≡ true
unfolding ◌-ℤ◌
left_over n (pos k) h = ground arith
left_over n (negsuc k) h = ground arith

take_stock-ok :
    (n : ℕ) (e : ShopStockEntry)
    → (not (is_unlimited e.quantity) && ltb_ℤ e.quantity (pos n)) ≡ false
    → stock_ok e ≡ true
    → stock_ok (take_stock n e) ≡ true
take_stock-ok n e h k = elim (Bool-cases (is_unlimited e.quantity)) [
  | inl endless ↦ rw (take_stock, endless) k
  | inr finite ↦ rw (take_stock, finite) (left_over n e.quantity (rw finite at h))
]

take_stock-id : (n : ℕ) (e : ShopStockEntry) → entry_id (take_stock n e) ≡ entry_id e
take_stock-id n e = elim (Bool-cases (is_unlimited e.quantity)) [
  | inl endless ↦ rw endless refl
  | inr finite ↦ rw finite refl
]

-- The shelves after the entry has given `n`.
pub bought-ShopsAreSound :
    (shops : List Shop) (n : ℕ) (shop : Shop) (entry : ShopStockEntry) (j k : ℕ)
    → ShopsAreSound shops
    → find_row shop_id j shops ≡ some shop
    → find_row entry_id k shop.stock ≡ some entry
    → (not (is_unlimited entry.quantity) && ltb_ℤ entry.quantity (pos n)) ≡ false
    → ShopsAreSound (
        update_row shop_id shop.id
          (λ (sh : Shop). record sh {
            stock = update_row entry_id entry.id (take_stock n) sh.stock;
          })
          shops)
bought-ShopsAreSound shops n shop entry j k sound e_shop e_entry enough =
    let take : Shop → Shop =
      λ sh. record sh { stock = update_row entry_id entry.id (take_stock n) sh.stock } in
    let here = find_row_self shop_id j shops e_shop in
    let there = find_row_self entry_id k shop.stock e_entry in
    let before = All-find_row shop_id ShopIsSound j shops sound.stock e_shop in
    let ok : ShopStockEntry → Type 0 = λ e. stock_ok e ≡ true in
    record {
      ids = Unique-update_row shop_id shop.id take shops (λ _ h. h) sound.ids;
      stock =
          All-update_found shop_id ShopIsSound shop.id take shops sound.ids here
            (
              Unique-update_row entry_id entry.id (take_stock n) shop.stock
                  (λ e h. take_stock-id n e ∙ h) before.0,
              All-update_found entry_id ok entry.id (take_stock n) shop.stock before.0 there
                  (take_stock-ok n entry enough
                    (All-find_row entry_id ok k shop.stock before.1 e_entry))
                  before.1,
            )
            sound.stock;
    }

-- What taking `n` from a stock entry of a shop makes of the shops: a quantity without limit stays,
-- any other was `n` at least and is `n` less.
pub record IsTaken (shop entry n : ℕ) (before after : List Shop) : Type 0 where
  pub old_shop : Shop
  pub new_shop : Shop
  pub shop_was : find_row shop_id shop before ≡ some old_shop
  pub shop_now : find_row shop_id shop after ≡ some new_shop
  pub shop_same : new_shop ≡ record old_shop { stock = new_shop.stock }
  pub old_entry : ShopStockEntry
  pub new_entry : ShopStockEntry
  pub entry_was : find_row entry_id entry old_shop.stock ≡ some old_entry
  pub entry_now : find_row entry_id entry new_shop.stock ≡ some new_entry
  pub entry_same : new_entry ≡ record old_entry { quantity = new_entry.quantity }
  pub endless : old_entry.quantity ≡ negsuc 0 → new_entry.quantity ≡ negsuc 0
  pub counted : (m : ℕ) → old_entry.quantity ≡ pos m → (n ≤ m) × (new_entry.quantity ≡ pos (m - n))
  pub other_entries :
      (j : ℕ) → j ≢ entry → find_row entry_id j new_shop.stock ≡ find_row entry_id j old_shop.stock
  pub other_shops : (j : ℕ) → j ≢ shop → find_row shop_id j after ≡ find_row shop_id j before

take_stock-same :
    (n : ℕ) (e : ShopStockEntry)
    → take_stock n e ≡ record e { quantity = (take_stock n e).quantity }
take_stock-same n e = elim (Bool-cases (is_unlimited e.quantity)) [
  | inl endless ↦ rw (take_stock, endless) refl
  | inr finite ↦ rw (take_stock, finite) refl
]

take_stock-endless :
    (n : ℕ) (e : ShopStockEntry) → e.quantity ≡ negsuc 0 → (take_stock n e).quantity ≡ negsuc 0
take_stock-endless n e h = rw (take_stock, h) refl

taken_left : (n m : ℕ) → n ≤ m → pos m -ℤ pos n ≡ pos (m - n)
taken_left n m h = omega (int_laws, h)

take_stock-counted :
    (n : ℕ) (e : ShopStockEntry) (m : ℕ)
    → (not (is_unlimited e.quantity) && ltb_ℤ e.quantity (pos n)) ≡ false
    → e.quantity ≡ pos m
    → (n ≤ m) × ((take_stock n e).quantity ≡ pos (m - n))
take_stock-counted n e m enough h =
    let covered : n ≤ m = ground (arith, (rw h at enough)) in
    let finite : is_unlimited e.quantity ≡ false = rw h (ground arith) in
    (covered, rw (take_stock, finite) (ap (λ q. q -ℤ pos n) h ∙ taken_left n m covered))

pub bought-IsTaken :
    (shops : List Shop) (n : ℕ) (shop : Shop) (entry : ShopStockEntry) (j k : ℕ)
    → find_row shop_id j shops ≡ some shop
    → find_row entry_id k shop.stock ≡ some entry
    → (not (is_unlimited entry.quantity) && ltb_ℤ entry.quantity (pos n)) ≡ false
    → IsTaken j k n shops (
        update_row shop_id shop.id
          (λ (sh : Shop). record sh {
            stock = update_row entry_id entry.id (take_stock n) sh.stock;
          })
          shops)
bought-IsTaken shops n shop entry j k e_shop e_entry enough =
    let take : Shop → Shop =
      λ sh. record sh { stock = update_row entry_id entry.id (take_stock n) sh.stock } in
    let shop_key = find_row-key shop_id j shops e_shop in
    let entry_key = find_row-key entry_id k shop.stock e_entry in
    record {
      old_shop = shop;
      new_shop = take shop;
      shop_was = e_shop;
      shop_now =
          subst (λ i. find_row shop_id j (update_row shop_id i take shops) ≡ some (take shop))
            (sym shop_key) (find_row-update_row_self shop_id j take shops e_shop shop_key);
      shop_same = refl;
      old_entry = entry;
      new_entry = take_stock n entry;
      entry_was = e_entry;
      entry_now =
          subst
            (λ i.
              find_row entry_id k (update_row entry_id i (take_stock n) shop.stock)
              ≡ some (take_stock n entry))
            (sym entry_key)
            (find_row-update_row_self entry_id k (take_stock n) shop.stock e_entry
              (take_stock-id n entry ∙ entry_key));
      entry_same = take_stock-same n entry;
      endless = take_stock-endless n entry;
      counted = λ m. take_stock-counted n entry m enough;
      other_entries = λ i d.
          find_row-update_row_ne entry_id i entry.id (take_stock n) shop.stock
            (λ h. d (h ∙ entry_key)) (λ e h. take_stock-id n e ∙ h);
      other_shops = λ i d.
          find_row-update_row_ne shop_id i shop.id take shops (λ h. d (h ∙ shop_key)) (λ _ h. h);
    }

more_over :
    (n : ℕ) (q : ℤ)
    → ltb_ℤ q (pos 0) ≡ false
    → (is_unlimited (q +ℤ pos n) || not (ltb_ℤ (q +ℤ pos n) (pos 0))) ≡ true
unfolding ◌+ℤ◌
more_over n (pos k) h = ground arith
more_over n (negsuc k) h = ground arith

put_stock-ok : (n : ℕ) (e : ShopStockEntry) → stock_ok e ≡ true → stock_ok (put_stock n e) ≡ true
put_stock-ok n e k = elim (Bool-cases (is_unlimited e.quantity)) [
  | inl endless ↦ rw (put_stock, endless) k
  | inr finite ↦ rw (put_stock, finite) (more_over n e.quantity (ground (arith, k)))
]

pub put_stock-id : (n : ℕ) (e : ShopStockEntry) → entry_id (put_stock n e) ≡ entry_id e
put_stock-id n e = elim (Bool-cases (is_unlimited e.quantity)) [
  | inl endless ↦ rw endless refl
  | inr finite ↦ rw finite refl
]

restocked-ShopIsSound :
    (p : SalePayload) (item : ItemInstance) (shop : Shop)
    → Absent entry_id p.new_stock_entry_id shop.stock
    → ShopIsSound shop
    → ShopIsSound (record shop { stock = (restocked p item shop.stock).1 })
restocked-ShopIsSound p item shop fresh sound =
    let test : ShopStockEntry → Bool = λ e. e.item_definition_id == item.definition_id in
    let ok : ShopStockEntry → Type 0 = λ e. stock_ok e ≡ true in
    elim (Option-cases (find test shop.stock)) [
      | inl nothing ↦
          rw (restocked, nothing)
            (
              Unique-snoc entry_id shop.stock (fresh_entry p item) fresh sound.0,
              All-append ok shop.stock (fresh_entry p item ∷ []) sound.1 (ground arith, tt),
            )
      | inr (existing, hit) ↦
          rw (restocked, hit)
            (
              Unique-update_row entry_id existing.id (put_stock p.quantity) shop.stock
                  (λ e h. put_stock-id p.quantity e ∙ h) sound.0,
              All-update_row entry_id ok existing.id (put_stock p.quantity) shop.stock
                  (put_stock-ok p.quantity) sound.1,
            )
    ]

-- The shelves after goods have come in.
pub sold-ShopsAreSound :
    (shops : List Shop) (p : SalePayload) (item : ItemInstance) (shop : Shop) (j : ℕ)
    → ShopsAreSound shops
    → find_row shop_id j shops ≡ some shop
    → Absent entry_id p.new_stock_entry_id shop.stock
    → ShopsAreSound (
        update_row shop_id shop.id
          (λ (sh : Shop). record sh { stock = (restocked p item shop.stock).1 })
          shops)
sold-ShopsAreSound shops p item shop j sound e_shop fresh =
    let put : Shop → Shop = λ sh. record sh { stock = (restocked p item shop.stock).1 } in
    record {
      ids = Unique-update_row shop_id shop.id put shops (λ _ h. h) sound.ids;
      stock =
          All-update_found shop_id ShopIsSound shop.id put shops sound.ids
            (find_row_self shop_id j shops e_shop)
            (restocked-ShopIsSound p item shop fresh
              (All-find_row shop_id ShopIsSound j shops sound.stock e_shop))
            sound.stock;
    }
