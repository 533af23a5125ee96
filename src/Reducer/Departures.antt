-- ===== src/Reducer/Departures.antt =====
-- packages/rules/src/reducer/index.ts: `leave-party`, `kick-player` and `join-party`.
pub mod Rows
pub mod Active
pub mod Leaving
pub mod Joining
use dnd_inventory.Prelude.{
  ℕ, pos, Bool, true, false, not, ◌&&◌, Option, none, some, List, [], ◌∷◌, ◌++◌, map, any, find,
  find_row, is_some, opt_eq, ◌==◌, if◌then◌else◌,
}
use dnd_inventory.Prelude.Text.{Text}
use dnd_inventory.Result.{
  Result, ok, ◌>>=◌, ◌>>◌, throw_if, not_a_member, sole_member, sole_dm, self_kick, kick_dm,
  already_member,
}
use dnd_inventory.State.{
  State, AppState, Character, Membership, Party, Role, Context, character_id, is_dm, is_player,
}
use dnd_inventory.State.Log.{LogSlice, RevokeReason}
use dnd_inventory.Reducer.Shared.{ReducerResult, require_state}
use dnd_inventory.Reducer.Cascade.{Cascade, cascade_character}
use dnd_inventory.Reducer.Members.{
  is_active_dm, is_active_player, has_active_dm, has_active_player, fresh_member,
}

-- `m.userId === user && m.partyId === party && m.leftAt === null`
abbrev pub is_active : ℕ → ℕ → Membership → Bool
is_active user party m = m.user_id == user && m.party_id == party && not (is_some m.left_at)

-- The same of any other user.
abbrev pub is_active_other : ℕ → ℕ → Membership → Bool
is_active_other user party m =
    not (m.user_id == user) && m.party_id == party && not (is_some m.left_at)

abbrev is_other_dm : ℕ → ℕ → Membership → Bool
is_other_dm user party m = is_active_other user party m && is_dm m.role

-- `playerRow?.characterId ?? null`
abbrev pub played_character : ℕ → ℕ → List Membership → Option ℕ
played_character user party members = elim (find (is_active_player user party) members) [
  | none ↦ none
  | some row ↦ row.character_id
]

-- The cascade, where the user has a character.
unfoldable pub cascade_if_any : Context → State → Option ℕ → Result Cascade
cascade_if_any ctx s none =
    ok (record { state = s; log_entries = []; item_count = 0; currency_total_cp = pos 0 })
cascade_if_any ctx s (some id) = elim (find_row character_id id s.characters) [
  | none ↦ ok (record { state = s; log_entries = []; item_count = 0; currency_total_cp = pos 0 })
  | some character ↦ cascade_character ctx s character
]

-- `{ ...m, leftAt: now }` on every active row of the user.
abbrev pub close_row : Text → ℕ → ℕ → Membership → Membership
close_row now user party m = if is_active user party m then record m { left_at = some now } else m

-- The state without the user: the rows closed, and the Banker cleared where it was that user.
abbrev pub departed : Text → ℕ → ℕ → State → State
departed now user party s = record s {
  party = record s.party {
    banker_user_id =
        if opt_eq s.party.banker_user_id (some user) then none else s.party.banker_user_id;
  };
  memberships = map (close_row now user party) s.memberships;
}

abbrev banker_slice : State → ℕ → RevokeReason → List LogSlice
banker_slice s user reason =
    if opt_eq s.party.banker_user_id (some user) then LogSlice.revoke_banker reason ∷ [] else []

unfoldable pub leave_party : Context → AppState → Result ReducerResult
leave_party ctx state = do
  s ← require_state state
  let user = s.user_id
  let party = s.party.id
  throw_if (not (any (is_active user party) s.memberships)) not_a_member
  throw_if (not (any (is_active_other user party) s.memberships)) sole_member
  throw_if
      (has_active_dm user party s.memberships && not (any (is_other_dm user party) s.memberships))
      sole_dm
  let character = played_character user party s.memberships
  after ← cascade_if_any ctx s character
  ok (record {
    state = departed ctx.now user party after.state;
    log_entries =
        after.log_entries
        ++ banker_slice after.state user RevokeReason.left_party
        ++ LogSlice.leave_party party character ∷ [];
  })

unfoldable pub kick_player : Context → AppState → ℕ → Result ReducerResult
kick_player ctx state kicked = do
  s ← require_state state
  let party = s.party.id
  throw_if (kicked == s.user_id) self_kick
  throw_if (not (any (is_active kicked party) s.memberships)) not_a_member
  throw_if (has_active_dm kicked party s.memberships) kick_dm
  after ← cascade_if_any ctx s (played_character kicked party s.memberships)
  ok (record {
    state = departed ctx.now kicked party after.state;
    log_entries =
        after.log_entries
        ++ banker_slice after.state kicked RevokeReason.kicked
        ++ LogSlice.kick_player kicked ∷ [];
  })

-- A player's row that was closed when the user left.
abbrev pub is_past_player : ℕ → ℕ → Membership → Bool
is_past_player user party m =
    m.user_id == user && m.party_id == party && is_player m.role && is_some m.left_at

-- The `map` that rewrites the row at the index that `findIndex` returned, the first that passes.
abbrev pub reopen_first : Text → ℕ → ℕ → List Membership → List Membership
reopen_first now user party [] = []
reopen_first now user party (m ∷ members) =
    let rest = reopen_first now user party members in
    if is_past_player user party m
    then record m { left_at = none; joined_at = now; character_id = none } ∷ members
    else m ∷ rest

unfoldable pub join_party : Context → AppState → Result ReducerResult
join_party ctx state = do
  s ← require_state state
  let user = s.user_id
  let party = s.party.id
  throw_if (has_active_player user party s.memberships) already_member
  ok (record {
    state = record s {
      memberships =
          if any (is_past_player user party) s.memberships
          then reopen_first ctx.now user party s.memberships
          else s.memberships ++ fresh_member ctx.now user party Role.player ∷ [];
    };
    log_entries = LogSlice.join_party party ∷ [];
  })
