-- ===== src/Reducer/Shops.antt =====
-- packages/rules/src/reducer/index.ts: `create-shop`, `edit-shop`, `delete-shop`, `set-shop-open`
-- and `edit-shop-stock`.
pub mod Trade
use dnd_inventory.Prelude.{
  ℕ, Bool, true, false, not, ◌&&◌, ◌||◌, Option, none, some, List, [], ◌∷◌, ◌++◌, any, find_row,
  update_row, remove_row, is_some, or_else, opt_eq, bool_eq, ◌==◌, if◌then◌else◌, ℤ, pos, negsuc,
  ltb_ℤ, eqb_ℤ,
}
use dnd_inventory.Prelude.Text.{Text, text_eq}
use dnd_inventory.Result.{
  Result, ok, ◌>>=◌, ◌>>◌, or_throw, throw_if, bad_uuid, already_exists, unknown_shop, no_change,
  bad_quantity, unknown_definition, no_cost, unknown_stock_entry,
}
use dnd_inventory.State.{
  State, AppState, Shop, ShopStockEntry, ItemDefinition, Context, definition_id, shop_id, entry_id,
}
use dnd_inventory.State.Log.{LogSlice, ShopField, StockChange}
use dnd_inventory.Reducer.Shared.{ReducerResult, require_state}

unfoldable pub create_shop : Context → AppState → Text → ℕ → Result ReducerResult
create_shop ctx state name new_shop = do
  s ← require_state state
  throw_if (not (ctx.is_valid_uuid_v7 new_shop)) bad_uuid
  throw_if (any (λ (sh : Shop). sh.id == new_shop) s.shops) already_exists
  let shop : Shop = record {
    id = new_shop;
    party_id = s.party.id;
    name = name;
    price_modifier = ctx.numbers.one;
    sell_to_merchant_rate = ctx.numbers.half;
    is_open = false;
    stock = [];
    created_at = ctx.now;
  }
  ok (record {
    state = record s { shops = s.shops ++ shop ∷ [] };
    log_entries = LogSlice.create_shop new_shop name ∷ [];
  })

pub record ShopPatch : Type 0 where
  pub name : Option Text
  pub price_modifier : Option ℕ
  pub sell_to_merchant_rate : Option ℕ

-- Whether the patch has a value for a key, other than the present one.
abbrev pub text_differs : Option Text → Text → Bool
text_differs none old = false
text_differs (some new_value) old = not (text_eq new_value old)

abbrev pub number_differs : Option ℕ → ℕ → Bool
number_differs none old = false
number_differs (some new_value) old = not (new_value == old)

-- The `for` loop over `EDIT_SHOP_FIELDS`.
abbrev pub changed_shop_fields : Shop → ShopPatch → List ShopField
changed_shop_fields shop patch =
    (if text_differs patch.name shop.name then ShopField.name ∷ [] else [])
    ++ (if number_differs patch.price_modifier shop.price_modifier
        then ShopField.price_modifier ∷ []
        else [])
    ++ (if number_differs patch.sell_to_merchant_rate shop.sell_to_merchant_rate
        then ShopField.sell_to_merchant_rate ∷ []
        else [])

abbrev pub patched_shop : Shop → ShopPatch → Shop
patched_shop shop patch = record shop {
  name = or_else patch.name shop.name;
  price_modifier = or_else patch.price_modifier shop.price_modifier;
  sell_to_merchant_rate = or_else patch.sell_to_merchant_rate shop.sell_to_merchant_rate;
}

abbrev pub is_empty_list {ℓ} : {A : Type ℓ} → List A → Bool
is_empty_list [] = true
is_empty_list (x ∷ xs) = false

unfoldable pub edit_shop : AppState → ℕ → ShopPatch → Result ReducerResult
edit_shop state id patch = do
  s ← require_state state
  shop ← or_throw (find_row shop_id id s.shops) unknown_shop
  let changed = changed_shop_fields shop patch
  throw_if (is_empty_list changed) no_change
  ok (record {
    state = record s { shops = update_row shop_id shop.id (λ _. patched_shop shop patch) s.shops };
    log_entries = LogSlice.edit_shop shop.id changed ∷ [];
  })

unfoldable pub delete_shop : AppState → ℕ → Result ReducerResult
delete_shop state id = do
  s ← require_state state
  shop ← or_throw (find_row shop_id id s.shops) unknown_shop
  ok (record {
    state = record s { shops = remove_row shop_id shop.id s.shops };
    log_entries = LogSlice.delete_shop shop.id shop.name ∷ [];
  })

unfoldable pub set_shop_open : AppState → ℕ → Bool → Result ReducerResult
set_shop_open state id is_open = do
  s ← require_state state
  shop ← or_throw (find_row shop_id id s.shops) unknown_shop
  throw_if (bool_eq shop.is_open is_open) no_change
  ok (record {
    state = record s {
      shops = update_row shop_id shop.id (λ (sh : Shop). record sh { is_open = is_open }) s.shops;
    };
    log_entries = LogSlice.set_shop_open shop.id is_open ∷ [];
  })

-- In `update`, an absent `priceOverride` is `none`, a `null` one is `some none`.
pub data StockOperation : Type 0 where
  add : (new_entry definition : ℕ) (price : Option ℕ) (quantity : ℤ) → StockOperation
  update : (entry : ℕ) (price : Option (Option ℕ)) (quantity : Option ℤ) → StockOperation
  remove : (entry : ℕ) → StockOperation

-- `q === -1`
abbrev pub is_unlimited : ℤ → Bool
is_unlimited q = eqb_ℤ q (negsuc 0)

-- `q !== -1 && q < 0`
abbrev pub bad_stock : ℤ → Bool
bad_stock q = not (is_unlimited q) && ltb_ℤ q (pos 0)

abbrev pub edit_stock : ℕ → (List ShopStockEntry → List ShopStockEntry) → State → State
edit_stock shop f s = record s {
  shops = update_row shop_id shop (λ (sh : Shop). record sh { stock = f sh.stock }) s.shops;
}

abbrev pub has_no_cost : ItemDefinition → Bool
has_no_cost d = not (is_some d.cost)

unfoldable pub add_stock : Context → State → Shop → ℕ → ℕ → Option ℕ → ℤ → Result ReducerResult
add_stock ctx s shop new_entry definition price quantity = do
  throw_if (not (ctx.is_valid_uuid_v7 new_entry)) bad_uuid
  throw_if (any (λ (e : ShopStockEntry). e.id == new_entry) shop.stock) already_exists
  throw_if (bad_stock quantity) bad_quantity
  def ← or_throw (find_row definition_id definition s.catalog) unknown_definition
  throw_if (has_no_cost def && not (is_some price)) no_cost
  let entry : ShopStockEntry = record {
    id = new_entry;
    item_definition_id = definition;
    price_override = price;
    quantity = quantity;
  }
  ok (record {
    state = edit_stock shop.id (λ stock. stock ++ entry ∷ []) s;
    log_entries =
        LogSlice.edit_shop_stock shop.id (StockChange.added new_entry definition price quantity)
        ∷ [];
  })

abbrev pub price_changes : Option (Option ℕ) → Option ℕ → Bool
price_changes none old = false
price_changes (some new_price) old = not (opt_eq new_price old)

abbrev pub quantity_changes : Option ℤ → ℤ → Bool
quantity_changes none old = false
quantity_changes (some new_quantity) old = not (eqb_ℤ new_quantity old)

abbrev pub bad_new_stock : Option ℤ → Bool
bad_new_stock none = false
bad_new_stock (some quantity) = bad_stock quantity

-- The test that a price set to `null` leaves an item of the catalog without a cost.
abbrev pub unpriced : State → ShopStockEntry → Option (Option ℕ) → Bool
unpriced s entry (some none) = elim (find_row definition_id entry.item_definition_id s.catalog) [
  | none ↦ false
  | some def ↦ has_no_cost def
]
unpriced s entry _ = false

unfoldable pub update_stock : State → Shop → ℕ → Option (Option ℕ) → Option ℤ → Result ReducerResult
update_stock s shop id price quantity = do
  entry ← or_throw (find_row entry_id id shop.stock) unknown_stock_entry
  throw_if
      (not (price_changes price entry.price_override)
        && not (quantity_changes quantity entry.quantity))
      no_change
  throw_if (bad_new_stock quantity) bad_quantity
  throw_if (unpriced s entry price) no_cost
  let next = record entry {
    price_override = or_else price entry.price_override;
    quantity = or_else quantity entry.quantity;
  }
  ok (record {
    state = edit_stock shop.id (update_row entry_id entry.id (λ _. next)) s;
    log_entries =
        LogSlice.edit_shop_stock shop.id (
          StockChange.updated entry.id entry.item_definition_id entry.price_override
            next.price_override entry.quantity next.quantity)
        ∷ [];
  })

unfoldable pub remove_stock : State → Shop → ℕ → Result ReducerResult
remove_stock s shop id = do
  entry ← or_throw (find_row entry_id id shop.stock) unknown_stock_entry
  ok (record {
    state = edit_stock shop.id (remove_row entry_id entry.id) s;
    log_entries =
        LogSlice.edit_shop_stock shop.id (StockChange.removed entry.id entry.item_definition_id)
        ∷ [];
  })

unfoldable pub edit_shop_stock : Context → AppState → ℕ → StockOperation → Result ReducerResult
unfolding add_stock update_stock remove_stock
edit_shop_stock ctx state id op = do
  s ← require_state state
  shop ← or_throw (find_row shop_id id s.shops) unknown_shop
  elim op [
    | StockOperation.add entry definition price quantity ↦
        add_stock ctx s shop entry definition price quantity
    | StockOperation.update entry price quantity ↦ update_stock s shop entry price quantity
    | StockOperation.remove entry ↦ remove_stock s shop entry
  ]
