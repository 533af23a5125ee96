-- ===== src/Tests/Coins.antt =====
-- The movements of coins.
use dnd_inventory.Prelude.{◌≡◌, refl, arith, some, [], ◌∷◌, pos, ◌+ℤ◌, ◌-ℤ◌}
use dnd_inventory.Rules.Currency.{
  Currency, add, subtract, split_evenly, split_loop, split_step, zero_currency,
}
use dnd_inventory.State.Log.{ChangeReason}
use dnd_inventory.Reducer.Shared.{ReducerResult}
use dnd_inventory.Reducer.Money.{
  currency_change, currency_transfer, write_two, recipient_inventories, distribute,
  split_evenly_action,
}
use dnd_inventory.Reducer.Money.Conservation.{total_copper}
use dnd_inventory.Reducer.Money.Effects.{
  IsTransfer, currency_transfer-IsTransfer, IsChange, currency_change-IsChange,
}
use dnd_inventory.Reducer.Money.Sharing.{AreRecipients, split_evenly_action-total}
use dnd_inventory.Tests.Data.{campaign, success, campaign-IsSound}

abbrev two_gold : Currency
two_gold = record zero_currency { gp = pos 2 }

abbrev paid : ReducerResult
paid = success (currency_transfer (some campaign) 10 11 two_gold)

currency_transfer-IsTransfer_example : IsTransfer campaign 10 11 two_gold paid.state
unfolding currency_transfer write_two subtract add ◌-ℤ◌
currency_transfer-IsTransfer_example =
    currency_transfer-IsTransfer campaign 10 11 two_gold paid campaign-IsSound refl

abbrev earned : ReducerResult
earned = success (currency_change (some campaign) 14 two_gold ChangeReason.deposit)

currency_change-IsChange_example : IsChange campaign 14 two_gold earned.state
unfolding currency_change add ◌+ℤ◌
currency_change-IsChange_example =
    currency_change-IsChange campaign 14 two_gold ChangeReason.deposit earned campaign-IsSound refl

abbrev shared : ReducerResult
shared = success (split_evenly_action (some campaign) 13 (20 ∷ 21 ∷ []))

recipients : AreRecipients campaign 13 (10 ∷ 11 ∷ [])
recipients = record {
  distinct = ground arith;
  not_pool = ground arith;
  held = ((_, refl), ((_, refl), tt));
}

split_evenly_action-total_example :
    total_copper shared.state.currencies ≡ total_copper campaign.currencies
unfolding split_evenly_action recipient_inventories distribute split_evenly split_loop split_step
split_evenly_action-total_example =
    split_evenly_action-total campaign 13 (20 ∷ 21 ∷ []) (10 ∷ 11 ∷ []) shared campaign-IsSound refl
      recipients refl
