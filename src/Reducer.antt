-- ===== src/Reducer.antt =====
-- packages/rules/src/reducer/index.ts: the handlers of the actions, by the part of the state that
-- they are about.
pub mod Shared
pub mod Counts
pub mod Acquire
pub mod Stacks
pub mod Transfer
pub mod Money
pub mod Stashes
pub mod Flags
pub mod Sessions
pub mod Members
pub mod HardMode
pub mod ChargeActions
pub mod Identify
pub mod Cascade
pub mod Departures
pub mod Shops
pub mod Characters
pub mod Settings
pub mod Catalog
pub mod Action
pub mod Actions
