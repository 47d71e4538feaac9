-- ===== src/Rooms/Requests.antt =====
-- server/kk_local/room_requests.py: what a player asks of the rooms and of its own.
pub mod Handle
pub mod Entering
use kungfukid_local_server.Base.{
  ℕ, ◌+◌, ◌*◌, ◌-◌, Bool, true, false, not, ◌&&◌, ◌||◌, Option, none, some, List, [], ◌∷◌, ◌++◌,
  length, take, drop, map, max, any, all, keep_if, member, is_some, ltb, leb, ◌==◌, if◌then◌else◌,
  nat_eq,
}
use kungfukid_local_server.Base.Bytes.{Bytes, to_le, slice, u8, u16, u32, u64, bytes_eq}
use kungfukid_local_server.Base.Dict.{Dict, lookup, insert, erase, contains, values}
use kungfukid_local_server.Base.Exec.{
  Result, ok, raised, pure, raise, gets, lift, modify, require, for_each, ◌>>=◌, ◌>>◌,
}
use kungfukid_local_server.Wire.{Message}
use kungfukid_local_server.Series.{SeriesProgress, fresh}
use kungfukid_local_server.Hub.{
  Hub, Action, Room, Member, Engine, Connection, Phase, same_phase, Stage, same_stage, engine_of,
  mode_of, fighters, queue, broadcast, take_pending, put_room,
}
use kungfukid_local_server.Battle.Outcome.{record_unknown}
use kungfukid_local_server.Rooms.Members.{
  room_at, change_room, change_member, message, about, clear_ready,
}
use kungfukid_local_server.Rooms.Leave.{leave}
use kungfukid_local_server.Rooms.Places.{
  RoomPackets, capacity_of, position_key, first_free, observer_limit, observers, is_bound,
  member_bound, new_room,
}
use kungfukid_local_server.Rooms.Install.{install}

-- `sorted(hub.rooms.values(), key=lambda r: r.number)`
abbrev insert_room : Room → List Room → List Room
insert_room r [] = r ∷ []
insert_room r (x ∷ xs) =
    let rest = insert_room r xs in if ltb r.number x.number then r ∷ (x ∷ xs) else x ∷ rest

abbrev pub sorted_rooms : Dict ℕ Room → List Room
sorted_rooms [] = []
sorted_rooms ((_, r) ∷ rooms) = insert_room r (sorted_rooms rooms)

-- `p[2] == 136 or p[2] == r.request[46]`
abbrev of_mode : ℕ → Room → Bool
of_mode mode r = (mode == 136) || (mode == mode_of r.request)

abbrev is_waiting : Room → Bool
is_waiting r = same_stage r.stage Stage.room

-- a room that the directory of a mode shows
abbrev pub is_listed : ℕ → ℕ → Room → Bool
is_listed filter mode r =
    not (mode_of r.request == 4) && (of_mode mode r && ((filter == 1) || is_waiting r))

-- what is before the first zero
abbrev pub text_of : Bytes → Bytes
text_of [] = []
text_of (b ∷ bs) = let rest = text_of bs in if b == 0 then [] else b ∷ rest

abbrev has_suspended : Hub → Room → Bool
has_suspended h r = any (λ (entry : ℕ × Member). contains entry.0 h.suspended) r.members

-- a room that a player without an invitation may be put in
abbrev pub is_open : Hub → ℕ → Room → Bool
is_open h mode r =
    not (mode_of r.request == 4)
    && (is_waiting r
        && (of_mode mode r
            && ((u8 21 r.request == 0)
                && (ltb (length (fighters r)) (capacity_of r.request) && not (has_suspended h r)))))

abbrev first_of : (Room → Bool) → List Room → Option Room
first_of p [] = none
first_of p (r ∷ rs) = let rest = first_of p rs in if p r then some r else rest

-- the error of 3080, by priority; 0 lets the player in
unfoldable pub join_error : Hub → Bytes → Option Room → ℕ
join_error h p none =
    if ltb 1 (u8 2 p) || (not (u8 2 p == 0) && (h.spectator_capacity == 0)) then 130 else 29
join_error h p (some r) =
    let watches = not (u8 2 p == 0) in
    if ltb 1 (u8 2 p) || (watches && (h.spectator_capacity == 0))
    then 130
    else if watches && (observer_limit h r == 0)
    then 130
    else if not (is_waiting r)
    then 30
    else if (if watches
        then leb (observer_limit h r) (observers r)
        else leb (capacity_of r.request) (length (fighters r)))
    then 32
    else if has_suspended h r
    then 130
    else if not (bytes_eq (text_of (slice 3 11 p)) (text_of (slice 21 11 r.request)))
    then 31
    else 0

-- `engine.room`
abbrev pub own_room : Engine → Hub → Option Room
own_room e h = elim e.room [ none ↦ none | some n ↦ lookup n h.rooms ]

-- a waiting room of a connection that is in it
abbrev pub waiting_room : Connection → Engine → Hub → Option Room
waiting_room c e h = elim (own_room e h) [
  | none ↦ none
  | some r ↦ if same_phase c.phase Phase.in_room && is_waiting r then some r else none
]

-- `next((i for i in range(1, 256) if i not in hub.rooms), None)`
abbrev room_numbers : Dict ℕ Room → List ℕ
room_numbers [] = []
room_numbers ((n, _) ∷ rooms) = n ∷ room_numbers rooms

unfoldable pub free_number : Hub → Option ℕ
free_number h = first_free (room_numbers h.rooms) 1 255

-- `SeriesProgress(hub.team_series_rounds) if hub.team_series_rounds and p[46] == 1 else None`
abbrev series_for : Hub → Bytes → Option SeriesProgress
series_for h p =
    if not (h.team_series_rounds == 0) && (mode_of p == 1)
    then some (fresh h.team_series_rounds)
    else none
