-- ===== src/Tests/Identifying.antt =====
-- Identifying items.
use dnd_inventory.Prelude.{false, some}
use dnd_inventory.Prelude.Text.{codes}
use dnd_inventory.Reducer.Shared.{ReducerResult}
use dnd_inventory.Reducer.Stacks.{Patch}
use dnd_inventory.Reducer.Identify.{identify_batch}
use dnd_inventory.Tests.Data.{campaign, success}

abbrev odd_glow : Patch
odd_glow = some (some (codes "It glows oddly"))

-- All torches become unidentified.
abbrev veiled : ReducerResult
veiled = success (identify_batch (some campaign) 41 false odd_glow)
