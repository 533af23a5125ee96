-- ===== src/Reducer/Members.antt =====
-- packages/rules/src/reducer/index.ts: `appoint-banker`, `revoke-banker` and `dm-transfer`.
pub mod Banker
pub mod Handover
use dnd_inventory.Prelude.{
  ℕ, Bool, true, false, not, ◌&&◌, ◌||◌, Option, none, some, List, [], ◌∷◌, ◌++◌, map, any, filter,
  length, includes, is_some, opt_eq, ltb, ◌==◌, if◌then◌else◌,
}
use dnd_inventory.Prelude.Text.{Text}
use dnd_inventory.Result.{
  Result, ok, ◌>>=◌, ◌>>◌, throw_if, dm_required, self_appoint, banker_set, banker_unset,
  target_not_player, too_few_members, self_transfer,
}
use dnd_inventory.State.{State, AppState, Membership, Party, Role, Context, is_dm, is_player}
use dnd_inventory.State.Log.{LogSlice, RevokeReason}
use dnd_inventory.Reducer.Shared.{ReducerResult, require_state}

-- `m.userId === user && m.partyId === party && m.leftAt === null`, with the role.
abbrev pub is_active_dm : ℕ → ℕ → Membership → Bool
is_active_dm user party m =
    m.user_id == user && m.party_id == party && is_dm m.role && not (is_some m.left_at)

abbrev pub is_active_player : ℕ → ℕ → Membership → Bool
is_active_player user party m =
    m.user_id == user && m.party_id == party && is_player m.role && not (is_some m.left_at)

abbrev pub has_active_dm : ℕ → ℕ → List Membership → Bool
has_active_dm user party members = any (is_active_dm user party) members

abbrev pub has_active_player : ℕ → ℕ → List Membership → Bool
has_active_player user party members = any (is_active_player user party) members

-- `new Set(ids)`, in order of insertion.
abbrev distinct_from : List ℕ → List ℕ → List ℕ
distinct_from seen [] = []
distinct_from seen (k ∷ ks) =
    let rest = distinct_from (k ∷ seen) ks in
    let rest_seen = distinct_from seen ks in if includes k seen then rest_seen else k ∷ rest

abbrev pub active_user_ids : ℕ → List Membership → List ℕ
active_user_ids party members = distinct_from [] (
    map (λ (m : Membership). m.user_id)
      (filter (λ (m : Membership). m.party_id == party && not (is_some m.left_at)) members))

unfoldable pub appoint_banker : AppState → ℕ → Result ReducerResult
appoint_banker state banker = do
  s ← require_state state
  throw_if (not (has_active_dm s.user_id s.party.id s.memberships)) dm_required
  throw_if (banker == s.party.owner_user_id) self_appoint
  throw_if (is_some s.party.banker_user_id) banker_set
  throw_if (not (has_active_player banker s.party.id s.memberships)) target_not_player
  throw_if (ltb (length (active_user_ids s.party.id s.memberships)) 2) too_few_members
  ok (record {
    state = record s { party = record s.party { banker_user_id = some banker } };
    log_entries = LogSlice.appoint_banker banker ∷ [];
  })

unfoldable pub revoke_banker : AppState → RevokeReason → Result ReducerResult
revoke_banker state reason = do
  s ← require_state state
  throw_if (not (has_active_dm s.user_id s.party.id s.memberships)) dm_required
  throw_if (not (is_some s.party.banker_user_id)) banker_unset
  ok (record {
    state = record s { party = record s.party { banker_user_id = none } };
    log_entries = LogSlice.revoke_banker reason ∷ [];
  })

-- A row of the incoming DM's earlier tenure.
abbrev pub is_past_dm : ℕ → ℕ → Membership → Bool
is_past_dm user party m =
    m.user_id == user && m.party_id == party && is_dm m.role && is_some m.left_at

-- The `map` over the memberships.
abbrev pub swap_row : Text → ℕ → ℕ → ℕ → Membership → Membership
swap_row now actor new_dm party m =
    if is_active_dm actor party m
    then record m { left_at = some now }
    else if is_active_player actor party m
    then m
    else if is_past_dm new_dm party m
    then record m { left_at = none; joined_at = now; character_id = none }
    else m

abbrev pub fresh_member : Text → ℕ → ℕ → Role → Membership
fresh_member now user party role = record {
  user_id = user;
  party_id = party;
  role = role;
  character_id = none;
  joined_at = now;
  left_at = none;
}

-- The memberships after the swap, with the rows that did not exist.
abbrev pub swapped : Text → ℕ → ℕ → ℕ → List Membership → List Membership
swapped now actor new_dm party members =
    map (swap_row now actor new_dm party) members
    ++ (if any (is_past_dm new_dm party) members
        then []
        else fresh_member now new_dm party Role.dm ∷ [])
    ++ (if has_active_player actor party members
        then []
        else fresh_member now actor party Role.player ∷ [])

unfoldable pub dm_transfer : Context → AppState → ℕ → Result ReducerResult
dm_transfer ctx state new_dm = do
  s ← require_state state
  throw_if (not (has_active_dm s.user_id s.party.id s.memberships)) dm_required
  throw_if (new_dm == s.user_id) self_transfer
  throw_if (not (has_active_player new_dm s.party.id s.memberships)) target_not_player
  let banker_cascade = opt_eq s.party.banker_user_id (some new_dm)
  ok (record {
    state = record s {
      party = record s.party {
        owner_user_id = new_dm;
        banker_user_id = if banker_cascade then none else s.party.banker_user_id;
      };
      memberships = swapped ctx.now s.user_id new_dm s.party.id s.memberships;
    };
    log_entries =
        (if banker_cascade then LogSlice.revoke_banker RevokeReason.dm_transfer ∷ [] else [])
        ++ LogSlice.dm_transfer s.user_id new_dm ∷ [];
  })
