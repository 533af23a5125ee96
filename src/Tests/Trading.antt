-- ===== src/Tests/Trading.antt =====
-- A shop that sells a torch and buys it back, and its prices.
use dnd_inventory.Prelude.{
  ℕ, ◌≡◌, refl, arith, true, false, none, some, [], ◌∷◌, pos, find_row, ◌+ℤ◌, ◌*ℤ◌, ◌-ℤ◌,
}
use dnd_inventory.Prelude.Text.{codes}
use dnd_inventory.Result.{ok}
use dnd_inventory.Rules.Currency.{Denom, to_copper, from_copper}
use dnd_inventory.Rules.Pricing.{buy_price, sell_price, shown_price}
use dnd_inventory.Rules.Pricing.Printing.{IsWorth, shown_price-IsWorth}
use dnd_inventory.State.{
  State, Shop, ShopStockEntry, Cost, ItemDefinition, ItemInstance, ItemCategory, shop_id, entry_id,
  item_id, definition_id,
}
use dnd_inventory.Reducer.Shared.{ReducerResult}
use dnd_inventory.Reducer.Money.Conservation.{IsSound}
use dnd_inventory.Reducer.Shops.Trade.{
  PurchasePayload, SalePayload, purchase_unit_cost, purchase, sale,
}
use dnd_inventory.Reducer.Shops.Trade.Shelves.{ShopsAreSound}
use dnd_inventory.Reducer.Shops.Trade.Buying.{IsPurchase, purchase-IsPurchase}
use dnd_inventory.Reducer.Shops.Trade.Selling.{IsSale, credit_of, sale-IsSale}
use dnd_inventory.Tests.Data.{
  thousandths, context, campaign, definition, success, campaign-ItemsAreSound, campaign-IsSound,
}

shown_price-IsWorth_example : IsWorth 250 Denom.gp (shown_price 250 Denom.gp)
shown_price-IsWorth_example = shown_price-IsWorth 250 Denom.gp

-- A torch costs a silver piece, and there are five.
abbrev torch : ItemDefinition
torch = record (definition 41 (codes "Torch") 100 false ItemCategory.gear) {
  cost = some (record { amount = 1000; currency = Denom.sp });
}

abbrev torches : ShopStockEntry
torches = record { id = 95; item_definition_id = 41; price_override = none; quantity = pos 5 }

abbrev shop : Shop
shop = record {
  id = 90;
  party_id = 100;
  name = codes "The Wick";
  price_modifier = 1000;
  sell_to_merchant_rate = 500;
  is_open = true;
  stock = torches ∷ [];
  created_at = [];
}

abbrev market : State
market = record campaign { shops = shop ∷ []; catalog = torch ∷ [] }

market-IsSound : IsSound market
market-IsSound = record { one_each = campaign-IsSound.one_each; nonneg = campaign-IsSound.nonneg }

market-ShopsAreSound : ShopsAreSound market.shops
market-ShopsAreSound = record { ids = ground arith; stock = (((tt, tt), (refl, tt)), tt) }

abbrev two_torches : PurchasePayload
two_torches = record {
  shop_id = 90;
  stock_entry_id = 95;
  target_stash_id = 14;
  quantity = 2;
  new_item_instance_id = 96;
}

abbrev paid : ReducerResult
paid = success (purchase context (some market) two_torches)

purchase-IsPurchase_example :
    (sh : Shop) × (entry : ShopStockEntry) × (def : ItemDefinition) × (unit : ℕ) × (find_row shop_id
        90 market.shops
      ≡ some sh)
    × (find_row entry_id 95 sh.stock ≡ some entry)
    × (find_row definition_id entry.item_definition_id market.catalog ≡ some def)
    × (purchase_unit_cost thousandths market def entry sh ≡ ok unit)
    × IsPurchase market two_torches def.id unit paid.state
unfolding purchase purchase_unit_cost buy_price from_copper to_copper ◌+ℤ◌ ◌*ℤ◌ ◌-ℤ◌
purchase-IsPurchase_example =
    purchase-IsPurchase context market two_torches paid campaign-ItemsAreSound market-IsSound
      market-ShopsAreSound (ground arith) (omega arith) refl

abbrev three_torches : SalePayload
three_torches = record {
  shop_id = 90;
  item_instance_id = 31;
  quantity = 3;
  new_stock_entry_id = 97;
}

abbrev earned : ReducerResult
earned = success (sale context (some market) three_torches)

sale-IsSale_example :
    (sh : Shop) × (item : ItemInstance) × (def : ItemDefinition) × (cost : Cost) × (find_row shop_id
        90 market.shops
      ≡ some sh)
    × (find_row item_id 31 market.items ≡ some item)
    × (find_row definition_id item.definition_id market.catalog ≡ some def)
    × (def.cost ≡ some cost)
    × IsSale market three_torches item (credit_of context market sh def cost) earned.state
unfolding sale sell_price buy_price from_copper to_copper ◌+ℤ◌ ◌*ℤ◌
sale-IsSale_example =
    sale-IsSale context market three_torches earned campaign-ItemsAreSound market-IsSound
      market-ShopsAreSound (ground arith) (omega arith) refl
