-- ===== src/Lib.antt =====
-- A verification library for the core of the D&D inventory manager: the pure rules of packages/rules
-- and the reducer that turns an action and a state into the next state and the log's slices.
--
-- The program. A party's state (packages/shared/src/schemas/appState.ts) is a record of arrays: stashes,
-- item rows that lie in a stash, one holding of coins for each stash, characters, memberships, game
-- sessions, the catalog. Client and server both run `reduce` (packages/rules/src/reducer/index.ts), one
-- handler for each type of action. A handler checks its guards in order, throws at the first that
-- fails, and otherwise returns the new state with slices for the log. The handlers call the rules:
-- coins, charges, capacity, weight, attunement and stacking.
--
-- The files.
--   Prelude: the native numbers and their tests; Int (integers), Lists (array methods), Table (rows
--     with ids: find, map and filter by id), Filters, Ledger (sums of integers), Rewrites, Text, Decimal.
--   Result: a throw as a value, the chain of a handler, and lemmas that take a chain that succeeded
--     apart step by step.
--   Rules.Currency: packages/rules/src/currency.ts (toCopper, fromCopper, convert, add, subtract,
--     splitEvenly); Rules.Charges: charges.ts; Rules.Capacity: capacity.ts; Rules.Weight: weight.ts;
--     Rules.Attunement: attunement.ts; Rules.Pricing: pricing.ts.
--   State: the rows as records; State.Log: the slices of the log.
--   Reducer.Shared: requireState and checkHardMode; Reducer.Acquire: acquire and nextContainerNotes;
--     Reducer.Stacks: inventory.ts, consume, editItemInstance and split; Reducer.Transfer: transfer;
--     Reducer.Money: currencyChange, currencyTransfer and splitEvenlyReducer; Reducer.Stashes:
--     createStash, renameStash and deleteStash; Reducer.Flags: resolveInventoryRow,
--     applyFlagFlipWithRestack, equipOrUnequip and attuneOrUnattune; Reducer.ChargeActions:
--     spendCharge and rechargeAction; Reducer.Identify: identifyAction and identifyBatchAction;
--     Reducer.Members: appointBanker, revokeBanker and dmTransfer; Reducer.Cascade:
--     cascadeCharacterToRecoveredLoot and deleteCharacter; Reducer.Departures: leaveParty, kickPlayer
--     and joinParty; Reducer.Characters: createCharacterInExistingParty, with Founding
--     (createCharacter) and Sheet (renameCharacter, editCharacter, wishlistAdd, wishlistRemove);
--     Reducer.Settings: renameParty, setEncumbrance and updatePartyEconomy; Reducer.Shops: the shops and their stock,
--     with Trade (purchase, sale); Reducer.Catalog: seedCatalog and the homebrew definitions;
--     Reducer.Sessions: the three handlers of game sessions; Reducer.Counts and Reducer.HardMode:
--     what several handlers keep.
--   Reducer.Action: the type Action of packages/rules/src/reducer/types.ts; Reducer.Actions: reduce,
--     with Invariant (when a state is sound), Preserved (that every action keeps it so, by modules for
--     the kinds of action), Runs (the states that a sequence of actions reaches), Moves (the actions
--     that only move what the party has) and Wealth (an account of coins and items that the reducer
--     implements).
--   Tests: a small campaign, and the theorems applied to it.
--
-- How the state is modelled. Ids, which the code only compares and sorts, are numbers; times and
-- names are texts (lists of UTF-16 code units). Coins are integers, quantities natural numbers.
-- Weights and size multipliers are counted in hundredths, so that sums are exact where the
-- program uses doubles. Prices are scaled by operations on doubles that are parameters
-- (`Numbers`), which the amount of a cost is too; nothing is assumed about them. The whole
-- numbers of container tags (parseInt, + 1, String) are the parameter `Whole`, with the condition
-- `IsExact` that they are exact up to 2^53. The UUID test, the order of `localeCompare`, the
-- clock and a new invite code are fields of `Context`, about which nothing is assumed.
-- `Infinity`, the threshold without a rule, is `none`. Every loop is structural recursion; the
-- numeral printer runs on one unit of fuel more than the number, enough for its digits.
--
-- What is not modelled: the guards of packages/shared/src/guards, which check the actor's role before the
-- reducer runs; hoard generation, initiative, search and validation, which the user interface reads; and
-- the server and the web application, which are input and output around the reducer.
pub mod Prelude
pub mod Result
pub mod Rules
pub mod State
pub mod Reducer
pub mod Tests
