-- ===== src/Tests.antt =====
-- The theorems at concrete inputs.
mod Data
mod Rules
mod Coins
mod Items
mod Flags
mod Party
mod Charges
mod Identifying
mod Trading
mod Departing
mod Runs
