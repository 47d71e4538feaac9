-- ===== src/Battle/Reborn.antt =====
-- server/kk_local/battle_relay.py: handle_reborn_sync, the Host's observations of mode 16.
use mathlib.Core.List.{foldl}
use kungfukid_local_server.Base.{
  ℕ, ◌+◌, ◌*◌, Bool, not, ◌&&◌, ◌||◌, none, some, List, [], ◌∷◌, any, leb, ◌==◌, if◌then◌else◌,
  nat_eq, pair_eq, member,
}
use kungfukid_local_server.Base.Bytes.{Bytes, slice}
use kungfukid_local_server.Base.Dict.{Dict, lookup, insert}
use kungfukid_local_server.Hub.{Member, fighters, mode_of}
use kungfukid_local_server.Battle.Event.{Event}
use kungfukid_local_server.Battle.Outcome.{
  Context, Outcome, ignore, unknown, relay, to_others, is_own, in_fighters, is_generic, passed,
  unless,
}
use kungfukid_local_server.Battle.Receipts.{note_sequence}

-- `{m.slot: u for u, m in room.fighters.items()}`
abbrev pub roster : Dict ℕ Member → Dict ℕ ℕ
roster members = foldl (λ d entry. insert entry.1.slot entry.0 d) [] members

-- `roster.get(slot, 0)`
abbrev pub roster_at : ℕ → Dict ℕ Member → ℕ
roster_at slot members = elim (lookup slot (roster members)) [ none ↦ 0 | some u ↦ u ]

-- some byte of the row is not zero
abbrev pub nonempty_row : ℕ → Bytes → Bool
nonempty_row slot payload = any (λ b. not (b == 0)) (slice (46 + 36 * slot) 36 payload)

-- the rows of a snapshot against the room's roster
unfoldable pub check_rows : List (ℕ × ℕ) → Dict ℕ Member → Bytes → Outcome → Outcome
check_rows [] members payload rest = rest
check_rows ((slot, player) ∷ rows) members payload rest =
    let expected = roster_at slot members in
    unless (player == expected) "reborn snapshot roster mismatch" (
      unless (not (expected == 0) || not (nonempty_row slot payload))
        "reborn snapshot nonempty vacant slot" (check_rows rows members payload rest))

-- the codes with the values that go with them
abbrev pub valid_event : ℕ → ℕ → Bool
valid_event code value =
    (member code (0 ∷ 1 ∷ 2 ∷ []) && (value == 0))
    || ((((code == 3) || (code == 6)) && (value == 3))
        || (((code == 4) && (value == 4))
            || (((code == 5) && (leb 5 value && leb value 65535))
                || ((code == 7) && (leb 4 value && leb value 65535)))))

-- what the Host reports: a snapshot of the roster, or one event
unfoldable pub check_report : Context → Event → Bytes → Outcome → Outcome
check_report x d payload rest =
    if d.id == 8155
    then check_rows d.rows (fighters x.room) payload rest
    else unless (in_fighters d.participant x.room) "reborn event participant absent"
        (if not (valid_event d.event_code_raw d.value_raw) then unknown x.room none else rest)

-- `handle_reborn_sync`
unfoldable pub decide_reborn_sync : Context → Event → Bytes → Outcome
decide_reborn_sync x d payload =
    let r = x.room in
    if not (mode_of r.request == 16)
    then unknown r none
    else unless (x.game && (in_fighters x.uid r && is_own x)) "reborn sync connection mismatch" (
        unless (d.sender == x.uid) "reborn sync sender spoof" (
          if not (x.uid == r.owner) || not (is_generic d)
          then unknown r none
          else check_report x d payload (
              if passed d.sequence_19_raw (lookup (x.uid, 19) r.last_sequence)
              then ignore none
              else relay (note_sequence x.uid d.sequence_19_raw r) to_others)))
