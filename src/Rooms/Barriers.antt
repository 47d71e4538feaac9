-- ===== src/Rooms/Barriers.antt =====
-- server/kk_local/room_flow.py: the barriers between the stages of a match, and the messages that
-- move them. A stage battle (`room.pve`) is not modelled: as without one, a room of mode 10 stays at the
-- first barrier.
pub mod Stages
pub mod Opens
use kungfukid_local_server.Base.{
  ℕ, ◌+◌, ◌*◌, Bool, true, false, not, ◌&&◌, ◌||◌, Option, none, some, List, [], ◌∷◌, ◌++◌, ltb,
  leb, ◌==◌, if◌then◌else◌, nat_eq, is_some, String, any, all, length, member, add, same_set,
}
use kungfukid_local_server.Base.Bytes.{Bytes, to_le, u16, u32, u64}
use kungfukid_local_server.Base.Dict.{Dict, lookup, contains, keys}
use kungfukid_local_server.Base.Exec.{
  ok, raised, pure, gets, modify, for_each, require, ◌>>=◌, ◌>>◌,
}
use kungfukid_local_server.Wire.{Message}
use kungfukid_local_server.Series.{SeriesProgress, result}
use kungfukid_local_server.Hub.{
  Hub, Action, Room, Member, Engine, Connection, Phase, same_phase, Stage, same_stage, engine_of,
  is_game, fighters, mode_of, queue, broadcast, take_pending,
}
use kungfukid_local_server.Battle.Outcome.{record_unknown}
use kungfukid_local_server.Rooms.Members.{
  room_at, change_room, change_member, set_phase, message, about, owner_clock, p2p_alive,
}
use kungfukid_local_server.Rooms.Flow.{cleared, begin_start}

-- the first barrier: everyone has loaded
unfoldable pub all_loaded : Room → Bool
all_loaded r = same_stage r.stage Stage.loading && same_set r.loaded (keys r.members)

abbrev pub waiting : Room → Room
waiting r = record r { stage = Stage.wait_ready }

-- everyone's connection waits, and the fighters are told
abbrev pub tell_waiting : Room → Action (Unit {0})
tell_waiting r =
    for_each r.members (λ entry. set_phase Phase.wait_ready entry.1.engine)
    >> for_each (fighters r) (λ entry. queue entry.1.engine (message 4180 []))

-- a room of mode 10 waits for the positions of its stage battle
abbrev pub is_held : Room → Bool
is_held r = mode_of r.request == 10

unfoldable pub may_wait : Room → Bool
may_wait r = all_loaded r && not (is_held r)

unfoldable pub to_wait_ready : ℕ → Action (Unit {0})
to_wait_ready n = room_at n >>= λ r.
    if not (may_wait r) then pure tt else modify (change_room n waiting) >> tell_waiting r

-- the second barrier: every fighter takes input
unfoldable pub all_ready : Room → Bool
all_ready r =
    same_stage r.stage Stage.wait_ready
    && (not (length (fighters r) == 0) && same_set r.input_ready (keys (fighters r)))

-- packets.py: `battle_ready`
abbrev pub battle_ready : ℕ → ℕ → Bytes
battle_ready number serial = to_le 4 number ++ (to_le 4 number ++ to_le 4 serial)

abbrev pub fighting : Room → Room
fighting r = record r { stage = Stage.battle }

-- the clock of the battle starts, with the deadline of a public room
abbrev pub clock_set : ℕ → Bool → Room → Room
clock_set now public r = record r {
  battle_clock_origin = some now;
  battle_clock_last = 0;
  public_deadline = (if public then now + (u16 47 r.request + 30) * 1000 else r.public_deadline);
}

-- everyone's connection is in the battle, and is told
abbrev pub tell_battle : ℕ → Room → Action (Unit {0})
tell_battle n r =
    for_each r.members (λ entry. set_phase Phase.battle entry.1.engine)
    >> broadcast r.members (message 8070 (battle_ready n r.serial)) none

abbrev pub set_clock : ℕ → Room → ℕ → Action (Unit {0})
set_clock n r now = gets (λ h. is_some h.public_rooms) >>= λ public.
    modify (change_room n (clock_set now public)) >> tell_battle n r

abbrev pub start_battle : ℕ → Room → Action (Unit {0})
start_battle n r = owner_clock r >>= set_clock n r

unfoldable pub to_battle : ℕ → Action (Unit {0})
to_battle n = room_at n >>= λ r.
    if not (all_ready r) then pure tt else modify (change_room n fighting) >> start_battle n r

-- the last barrier: everyone has left the result
unfoldable pub all_acknowledged : Room → Bool
all_acknowledged r = same_stage r.stage Stage.result && same_set r.result_acks (keys r.members)

abbrev pub unready : Member → Member
unready m = record m { ready = false }

abbrev pub tell_back : Dict ℕ Member → ℕ × Member → Action (Unit {0})
tell_back members (uid, m) =
    set_phase Phase.in_room m.engine
    >> (if m.spectator then pure tt else broadcast members (about 4070 uid) none)

-- a member is back in the waiting room
abbrev pub back_in_room : ℕ → Dict ℕ Member → ℕ × Member → Action (Unit {0})
back_in_room n members entry =
    modify (change_room n (change_member entry.0 unready)) >> tell_back members entry

abbrev pub tell_activity : Dict ℕ Member → ℕ × Member → Action (Unit {0})
tell_activity members (uid, m) =
    if m.activity == 0
    then pure tt
    else broadcast members (message 3550 (to_le 8 uid ++ to_le 4 m.activity)) (some uid)

abbrev pub over : Room → Room
over r = record (cleared r) { stage = Stage.room; public_deadline = 0 }

abbrev pub tell_room : ℕ → Room → Action (Unit {0})
tell_room n r =
    for_each r.members (back_in_room n r.members) >> for_each (fighters r) (tell_activity r.members)

unfoldable pub to_room : ℕ → Action (Unit {0})
to_room n = room_at n >>= λ r.
    if not (all_acknowledged r) then pure tt else modify (change_room n over) >> tell_room n r

-- `advance_barriers(room)`
unfoldable pub advance_barriers : ℕ → Action (Unit {0})
advance_barriers n = to_wait_ready n >> (to_battle n >> to_room n)

-- a report on the result view of a team series
unfoldable pub series_activity : ℕ → Connection → Room → SeriesProgress → ℕ → Action (List Message)
series_activity engine c r s value =
    let uid = c.uid in
    let note = change_room r.number (change_member uid (λ m. record m { activity = value })) in
    if not (contains uid r.result_replies) || member uid r.result_acks
    then pure []
    else if value == 3
    then modify (
        change_room r.number
          (λ r. record r { series = some (record s { viewing = add uid s.viewing }) }))
      >> (modify note >> take_pending engine c)
    else if not (value == 0) || not (member uid s.viewing)
    then pure []
    else modify note
      >> (modify (change_room r.number (λ r. record r { result_acks = add uid r.result_acks }))
          >> (advance_barriers r.number >> take_pending engine c))

abbrev in_result_view : Room → Option SeriesProgress
in_result_view r = elim r.series [
  | none ↦ none
  | some s ↦ elim s.phase [
    | result ↦ if same_stage r.stage Stage.result then some s else none
    | _ ↦ none
  ]
]

-- a report outside of a series result
unfoldable pub room_activity : ℕ → Connection → Room → Member → ℕ → Bytes → Action (List Message)
room_activity engine c r m value p =
    let note = change_room r.number (change_member c.uid (λ m. record m { activity = value })) in
    if same_stage r.stage Stage.result && member c.uid r.result_acks
    then modify note >> pure []
    else if not (same_stage r.stage Stage.room) || not (same_phase c.phase Phase.in_room)
    then pure []
    else if m.activity == value
    then pure []
    else modify note >> (broadcast r.members (message 3550 p) (some c.uid) >> take_pending engine c)

-- `handle_activity(engine, c, message)`
unfoldable pub handle_activity : ℕ → Connection → Message → Action (List Message)
handle_activity engine c msg h =
    let p = msg.payload in
    let value = u32 8 p in
    if not (length p == 12)
    then (raised "room activity length", h)
    else if not (u64 0 p == c.uid)
    then (raised "room activity identity", h)
    else if ltb 3 value
    then (record_unknown engine c msg.id p >> pure []) h
    else elim (engine_of engine h) [
      | none ↦ (ok [], h)
      | some e ↦ elim e.room [
        | none ↦ (ok [], h)
        | some n ↦ elim (lookup n h.rooms) [
          | none ↦ (ok [], h)
          | some r ↦ elim (lookup c.uid (fighters r)) [
            | none ↦ (ok [], h)
            | some m ↦
                if not (m.engine == engine) || not (is_game c e)
                then (ok [], h)
                else elim (in_result_view r) [
                  | some s ↦ series_activity engine c r s value h
                  | none ↦ room_activity engine c r m value p h
                ]
          ]
        ]
      ]
    ]

-- a fighter other than the owner that is not ready, or is suspended
abbrev awaited : Hub → ℕ → ℕ × Member → Bool
awaited h owner (uid, m) = not (uid == owner) && not (m.ready && not (contains uid h.suspended))

abbrev side : ℕ → Dict ℕ Member → ℕ
side team [] = 0
side team ((_, m) ∷ ms) = let rest = side team ms in if m.team == team then 1 + rest else rest

-- modes 0, 1, 2, 3 and 16, and of them the team modes 1 and 3
abbrev competitive : ℕ → Bool
competitive mode = member mode (0 ∷ 1 ∷ 2 ∷ 3 ∷ 16 ∷ [])

abbrev pub is_team_mode : ℕ → Bool
is_team_mode mode = (mode == 1) || (mode == 3)

-- the roster that the owner may start a competition with
unfoldable pub may_compete : Room → Bool
may_compete r =
    let mode = mode_of r.request in
    let a = side 0 (fighters r) in
    let b = side 1 (fighters r) in
    not (competitive mode)
    || (leb 2 (length (fighters r))
        && ((not (is_team_mode mode) || (not (a == 0) && (a == b)))
            && (not (is_some r.series) || (leb a 3 && leb b 3))))

-- a member that is suspended or has no lease
abbrev unreachable : Hub → ℕ × Member → Bool
unreachable h (uid, m) =
    contains uid h.suspended
    || elim (engine_of m.engine h) [ none ↦ true | some e ↦ not (p2p_alive e) ]

abbrev is_ready : ℕ × Member → Bool
is_ready (_, m) = m.ready

-- 4030: a member is ready, and the owner starts
unfoldable pub become_ready : ℕ → Connection → Engine → Room → Member → Action (List Message)
become_ready engine c e r m h =
    let uid = c.uid in
    if not (p2p_alive e)
    then (raised "ready P2P expired", h)
    else if (uid == r.owner) && (not (may_compete r) || any (awaited h r.owner) (fighters r))
    then (ok [], h)
    else ((if m.ready
            then pure tt
            else modify (change_room r.number (change_member uid (λ m. record m { ready = true })))
              >> broadcast r.members (about 4050 uid) none)
          >> (room_at r.number >>= λ r'.
              gets (λ h. not (any (unreachable h) r'.members)) >>= λ reachable.
              (if (uid == r'.owner) && (all is_ready (fighters r') && reachable)
                then begin_start r.number
                else pure tt)
              >> take_pending engine c))
        h

-- 4060: a member is not ready after all
unfoldable pub withdraw_ready : ℕ → Connection → Room → Member → Action (List Message)
withdraw_ready engine c r m =
    (if m.ready
      then modify (change_room r.number (change_member c.uid (λ m. record m { ready = false })))
        >> broadcast r.members (about 4070 c.uid) none
      else pure tt)
    >> take_pending engine c

-- 4160: a member has loaded
unfoldable pub note_loaded : ℕ → Connection → Room → Action (List Message)
note_loaded engine c r =
    if member c.uid r.loaded
    then pure []
    else require (same_stage r.stage Stage.loading && same_phase c.phase Phase.loading) "load phase"
      >> (modify (change_room r.number (λ r. record r { loaded = add c.uid r.loaded }))
          >> (broadcast r.members (about 4170 c.uid) none
              >> (advance_barriers r.number >> take_pending engine c)))

-- 8040: a fighter takes input
unfoldable pub note_input : ℕ → Connection → Room → Member → Bytes → Action (List Message)
note_input engine c r m p =
    require ((u16 0 p == r.number) && (u64 2 p == c.uid)) "input ready identity"
    >> (if m.spectator || member c.uid r.input_ready
        then pure []
        else require (same_stage r.stage Stage.wait_ready && same_phase c.phase Phase.wait_ready)
            "input ready phase"
          >> (modify
                (change_room r.number (λ r. record r { input_ready = add c.uid r.input_ready }))
              >> (advance_barriers r.number >> take_pending engine c)))

-- `handle(engine, c, message)` for 4030, 4060, 4160 and 8040; the sender is a member of its room
unfoldable pub handle_flow : ℕ → Connection → Message → Action (Option (List Message))
handle_flow engine c msg h =
    let p = msg.payload in
    let ready = (msg.id == 4030) || (msg.id == 4060) in
    if not (ready || ((msg.id == 4160) || (msg.id == 8040)))
    then (ok none, h)
    else elim (engine_of engine h) [
      | none ↦ (ok none, h)
      | some e ↦
          let here : Option Room = elim e.room [ none ↦ none | some n ↦ lookup n h.rooms ] in
          let why : String =
            if ready
            then "ready context/length"
            else if msg.id == 4160
            then "load length/context"
            else "input ready shape/context" in
          elim here [
            | none ↦ (raised why, h)
            | some r ↦
                if not (length p == (if msg.id == 8040 then 14 else 0))
                then (raised why, h)
                else if msg.id == 4160
                then (note_loaded engine c r >>= λ out. pure (some out)) h
                else if ready && not (same_stage r.stage Stage.room)
                then (ok (some []), h)
                else elim (lookup c.uid r.members) [
                  | none ↦ (raised "no member", h)
                  | some m ↦
                      if msg.id == 8040
                      then (note_input engine c r m p >>= λ out. pure (some out)) h
                      else if m.spectator
                      then (ok (some []), h)
                      else if msg.id == 4060
                      then (withdraw_ready engine c r m >>= λ out. pure (some out)) h
                      else (become_ready engine c e r m >>= λ out. pure (some out)) h
                ]
          ]
    ]
