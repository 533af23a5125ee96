-- ===== src/Reducer/Money.antt =====
-- packages/rules/src/reducer/index.ts: `currency-change`, `currency-transfer` and `split-evenly`.
pub mod Coins
pub mod Conservation
pub mod Effects
pub mod Sharing
use dnd_inventory.Prelude.{
  ℕ, suc, ltb, Bool, true, false, not, ◌&&◌, ◌||◌, Option, none, some, List, [], ◌∷◌, ◌++◌, map,
  find_row, update_row, length, includes, ◌==◌, if◌then◌else◌, pos, ltb_ℤ, eqb_ℤ,
}
use dnd_inventory.Result.{
  Result, ok, ◌>>=◌, ◌>>◌, or_throw, throw_if, unknown_stash, no_holding, no_change,
  would_be_negative, same_stash, negative_delta, no_recipients, not_a_party_stash,
  unknown_character,
}
use dnd_inventory.Rules.Currency.{Currency, full, add, subtract, any_negative, split_evenly}
use dnd_inventory.State.{
  State, AppState, CurrencyHolding, Stash, stash_id, holding_stash, character_id, scope_is_party,
}
use dnd_inventory.State.Log.{LogSlice, ChangeReason}
use dnd_inventory.Reducer.Shared.{ReducerResult, require_state}

abbrev pub all_zero : Currency → Bool
all_zero c =
    eqb_ℤ c.cp (pos 0)
    && eqb_ℤ c.sp (pos 0)
    && eqb_ℤ c.ep (pos 0)
    && eqb_ℤ c.gp (pos 0)
    && eqb_ℤ c.pp (pos 0)

-- `{ ...holding, ...coins }`
abbrev pub with_coins : Currency → CurrencyHolding → CurrencyHolding
with_coins coins h = record h { coins = coins }

unfoldable pub currency_change : AppState → ℕ → Currency → ChangeReason → Result ReducerResult
currency_change state stash delta reason = do
  s ← require_state state
  _ ← or_throw (find_row stash_id stash s.stashes) unknown_stash
  holding ← or_throw (find_row holding_stash stash s.currencies) no_holding
  throw_if (all_zero delta) no_change
  let next = add (full holding.coins) (full delta)
  throw_if (any_negative next) would_be_negative
  ok (record {
    state = record s {
      currencies = update_row holding_stash stash (λ _. with_coins next holding) s.currencies;
    };
    log_entries = LogSlice.currency_change stash delta reason ∷ [];
  })

-- The `map` over the holdings that writes both ends of a transfer.
unfoldable pub write_two :
    ℕ → CurrencyHolding → ℕ → CurrencyHolding → List CurrencyHolding → List CurrencyHolding
write_two from_stash next_source to_stash next_dest [] = []
write_two from_stash next_source to_stash next_dest (c ∷ cs) =
    (if c.stash_id == from_stash
      then next_source
      else if c.stash_id == to_stash
      then next_dest
      else c)
    ∷ write_two from_stash next_source to_stash next_dest cs

unfoldable pub currency_transfer : AppState → ℕ → ℕ → Currency → Result ReducerResult
unfolding write_two
currency_transfer state from_stash to_stash delta = do
  s ← require_state state
  throw_if (from_stash == to_stash) same_stash
  throw_if (all_zero delta) no_change
  throw_if (any_negative delta) negative_delta
  _ ← or_throw (find_row stash_id from_stash s.stashes) unknown_stash
  _ ← or_throw (find_row stash_id to_stash s.stashes) unknown_stash
  source ← or_throw (find_row holding_stash from_stash s.currencies) no_holding
  dest ← or_throw (find_row holding_stash to_stash s.currencies) no_holding
  taken ← subtract (full source.coins) (full delta)
  let given = add (full dest.coins) (full delta)
  ok (record {
    state = record s {
      currencies =
          write_two from_stash (with_coins taken source) to_stash (with_coins given dest)
            s.currencies;
    };
    log_entries = LogSlice.currency_transfer from_stash to_stash delta ∷ [];
  })

-- The Inventory stash of each recipient, in order.
unfoldable pub recipient_inventories : State → List ℕ → Result (List ℕ)
recipient_inventories s [] = ok []
recipient_inventories s (c ∷ cs) = do
  character ← or_throw (find_row character_id c s.characters) unknown_character
  rest ← recipient_inventories s cs
  ok (character.inventory_stash_id ∷ rest)

-- The `map` over the holdings: the pool keeps the remainder, each recipient's holding gains a
-- share.
unfoldable pub distribute :
    ℕ → CurrencyHolding → List ℕ → Currency → List CurrencyHolding → List CurrencyHolding
distribute pool next_pool inventories share [] = []
distribute pool next_pool inventories share (c ∷ cs) =
    (if c.stash_id == pool
      then next_pool
      else if includes c.stash_id inventories
      then with_coins (add (full c.coins) (full share)) c
      else c)
    ∷ distribute pool next_pool inventories share cs

abbrev share_log : ℕ → Currency → ℕ → LogSlice
share_log from_stash share to_stash = LogSlice.currency_transfer from_stash to_stash share

unfoldable pub split_evenly_action : AppState → ℕ → List ℕ → Result ReducerResult
unfolding recipient_inventories distribute
split_evenly_action state from_stash recipients = do
  s ← require_state state
  throw_if (ltb (length recipients) 1) no_recipients
  stash ← or_throw (find_row stash_id from_stash s.stashes) not_a_party_stash
  throw_if (not (scope_is_party stash.scope)) not_a_party_stash
  pool ← or_throw (find_row holding_stash from_stash s.currencies) no_holding
  inventories ← recipient_inventories s recipients
  (share, remainder) ← split_evenly pool.coins (pos (length recipients))
  ok (record {
    state = record s {
      currencies = distribute from_stash (with_coins remainder pool) inventories share s.currencies;
    };
    log_entries =
        LogSlice.split_evenly from_stash recipients share remainder
        ∷ (if all_zero share then [] else map (share_log from_stash share) inventories);
  })
