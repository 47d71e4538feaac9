-- ===== src/Rooms/Flow.antt =====
-- server/kk_local/room_flow.py: from readiness to the battle and back to the waiting room. Rooms with
-- a stage battle (modes 10 and 21) are not modelled.
use kungfukid_local_server.Base.{
  ℕ, ◌+◌, ◌*◌, ◌-◌, Bool, true, not, ◌&&◌, ◌||◌, Option, none, some, List, [], ◌∷◌, ◌++◌, take,
  drop, ltb, leb, ◌==◌, if◌then◌else◌, nat_eq, is_some, any, all, length, member, discard, max,
}
use kungfukid_local_server.Base.Bytes.{Bytes, to_le}
use kungfukid_local_server.Base.Dict.{Dict, lookup, contains, keys, map_values}
use kungfukid_local_server.Base.Exec.{
  ok, raised, pure, gets, modify, for_each, require, ◌>>=◌, ◌>>◌,
}
use kungfukid_local_server.Wire.{Message}
use kungfukid_local_server.Series.{SeriesProgress, fresh}
use kungfukid_local_server.Hub.{
  Hub, Action, Room, Member, Connection, Phase, same_phase, Stage, same_stage, engine_of, is_game,
  fighters, queue, take_pending,
}
use kungfukid_local_server.Rooms.Members.{
  room_at, change_room, change_engine, change_member, set_phase, message, clear_ready,
  start_identity, same_identity, owner_clock, p2p_alive,
}
use kungfukid_local_server.Rooms.Exchange.{cancel_seat, is_absent}

-- `cancel_network_probe(room)`
unfoldable pub cancel_network_probe : ℕ → Action (Unit {0})
cancel_network_probe n = room_at n >>= λ r.
    if not (is_some r.network_probe)
    then pure tt
    else modify (change_room n (λ r. record r { network_probe = none })) >> clear_ready n r.members

-- the room with nothing of an earlier battle
unfoldable pub cleared : Room → Room
cleared r = record r {
  last_sequence = [];
  motion_payloads = [];
  active_states = [];
  pair_selections = [];
  pair_selection_versions = [];
  projectiles = [];
  pickup_requests = [];
  chest_requests = [];
  pending_hit_receipts = [];
  pending_death_receipts = [];
  spawned_collectibles = [];
  loaded = [];
  input_ready = [];
  talisman_pending = [];
  talisman_sequences = [];
  battle_dispatch_cache = [];
}

abbrev reset_series : Option SeriesProgress → Option SeriesProgress
reset_series none = none
reset_series (some s) = some (fresh s.limit)

-- the room as `start_match` leaves it, but for the deadline
unfoldable pub started : ℕ → Room → Room
started serial r = record (cleared r) {
  serial = serial;
  series = reset_series r.series;
  result_reports = [];
  result_requests = [];
  result_replies = [];
  result_acks = [];
  stage = Stage.loading;
}

-- `struct.pack_into('<I', body, i, v)` and its siblings
abbrev put_at : ℕ → Bytes → Bytes → Bytes
put_at i bs body = take i body ++ (bs ++ drop (i + length bs) body)

abbrev zeros : ℕ → Bytes
zeros n = to_le n 0

-- packets.py: `battle_start`
abbrev pub battle_start : ℕ → ℕ → ℕ → Bytes
battle_start number value serial =
    put_at 45 (to_le 4 number ++ to_le 4 serial)
      (put_at 13 (to_le 4 value) (put_at 5 (to_le 4 serial) (put_at 0 (to_le 4 number) (zeros 53))))

abbrev put_values : List (ℕ × ℕ) → Bytes → Bytes
put_values [] body = body
put_values ((slot, value) ∷ rows) body =
    put_values rows (put_at (13 + slot * 4) (to_le 4 value) body)

-- packets.py: `battle_start_members`
abbrev pub battle_start_members : ℕ → ℕ → ℕ → Dict ℕ ℕ → Action Message
battle_start_members number serial host_slot values =
    require (ltb host_slot 8 && contains host_slot values) "battle host must be an occupied slot"
    >> (require (all (λ row. ltb row.0 8) values) "battle slot bound"
        >> pure (
            message 4080
              (put_values values (put_at 11 (to_le 2 host_slot) (battle_start number 0 serial)))))

-- `{m.slot: m.network_delay_ms for m in room.fighters.values()}`
abbrev delays : Dict ℕ Member → Dict ℕ ℕ
delays [] = []
delays ((_, m) ∷ members) =
    let rest = delays members in
    if contains m.slot rest then rest else (m.slot, m.network_delay_ms) ∷ rest

abbrev host_slot : Room → ℕ
host_slot r = elim (lookup r.owner r.members) [ none ↦ 8 | some m ↦ m.slot ]

-- `start_match(room)`
unfoldable pub start_match : ℕ → Action (Unit {0})
start_match n = room_at n >>= λ r. owner_clock r >>= λ now. gets (λ h. h.next_battle) >>= λ serial.
    gets (λ h. is_some h.public_rooms) >>= λ public.
    modify (λ h. record h { next_battle = h.next_battle + 1 })
    >> (modify (
          change_room n (λ r.
            let r' = started serial r in
            if public then record r' { public_deadline = now + 120000 } else r'))
        >> for_each r.members (λ entry.
          modify (change_room n (change_member entry.0 (λ m. record m { activity = 0 })))
          >> (set_phase Phase.loading entry.1.engine
              >> (modify (change_engine entry.1.engine (λ e. record e { consume_intents = [] }))
                  >> (battle_start_members n serial (host_slot r) (delays (fighters r)) >>= λ m.
                      queue entry.1.engine m)))))

-- `begin_start(room)`
unfoldable pub begin_start : ℕ → Action (Unit {0})
begin_start n =
    cancel_seat n
    >> (gets (λ h. h.network_probe_enabled) >>= λ enabled.
        if not enabled
        then start_match n
        else (room_at n >>= λ r.
            if is_some r.network_probe
            then pure tt
            else (owner_clock r >>= λ now. gets (start_identity r) >>= λ identity.
                modify (
                  change_room n (λ r. record r {
                    network_probe =
                        some (record {
                          start = now;
                          identity = identity;
                          pending = keys (fighters r);
                        });
                    members =
                        map_values {V = Member} (λ _ m. record m { network_delay_ms = 0 })
                          r.members;
                  }))
                >> for_each (fighters r) (λ entry. queue entry.1.engine (message 4150 [])))))

-- a member that is suspended, has no lease, or is not in the room
abbrev pub is_gone : Hub → ℕ × Member → Bool
is_gone h (uid, m) =
    is_absent h (uid, m) || elim (engine_of m.engine h) [ none ↦ true | some e ↦ not (p2p_alive e) ]

-- `network_delay_reply(engine, c, p)`; clocks are whole milliseconds, so the ceiling is void
unfoldable pub network_delay_reply : ℕ → Connection → Bytes → Action (List Message)
network_delay_reply engine c p h =
    if not (length p == 0)
    then (raised "network delay reply length", h)
    else elim (engine_of engine h) [
      | none ↦ (ok [], h)
      | some e ↦ elim e.room [
        | none ↦ (ok [], h)
        | some n ↦ elim (lookup n h.rooms) [
          | none ↦ (ok [], h)
          | some r ↦
              if not (same_stage r.stage Stage.room)
                || (not (is_game c e) || not (same_phase c.phase Phase.in_room))
              then (ok [], h)
              else elim r.network_probe [
                | none ↦ (ok [], h)
                | some probe ↦
                    if not (member c.uid probe.pending)
                    then (ok [], h)
                    else (owner_clock r >>= λ now.
                          if not (same_identity probe.identity (start_identity r h))
                            || (leb 10000 (now - probe.start) || any (is_gone h) r.members)
                          then cancel_network_probe n >> take_pending engine c
                          else let left = discard c.uid probe.pending in
                            modify (
                              change_room n (λ r.
                                record (change_member c.uid
                                  (λ m. record m { network_delay_ms = max 1 (now - probe.start) })
                                  r) {
                                    network_probe =
                                        (if length left == 0
                                          then none
                                          else some (record probe { pending = left }));
                                  }))
                            >> ((if length left == 0 then start_match n else pure tt)
                                >> take_pending engine c))
                        h
              ]
        ]
      ]
    ]
