-- ===== src/Rules.antt =====
-- The pure rules of packages/rules/src, one module for each file there.
pub mod Currency
pub mod Capacity
pub mod Charges
pub mod Weight
pub mod Attunement
pub mod Pricing
