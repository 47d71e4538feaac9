-- ===== src/Rooms/Exchange.antt =====
-- server/kk_local/seat_exchange.py: two members of a waiting room exchange their places by consent.
use kungfukid_local_server.Base.{
  ℕ, ◌+◌, ◌/◌, Bool, true, false, not, ◌&&◌, ◌||◌, Option, none, some, List, [], ◌∷◌, ltb, leb,
  ◌==◌, if◌then◌else◌, nat_eq, is_some, any, length,
}
use kungfukid_local_server.Base.Bytes.{Bytes, u32, u64, bytes_eq}
use kungfukid_local_server.Base.Dict.{lookup, contains}
use kungfukid_local_server.Base.Exec.{
  ok, raised, pure, gets, modify, for_each, require, ◌>>=◌, ◌>>◌,
}
use kungfukid_local_server.Wire.{Message}
use kungfukid_local_server.Hub.{
  Hub, Action, Room, Member, Engine, Connection, Phase, same_phase, Stage, same_stage, engine_of,
  is_game, fighters, mode_of, queue, broadcast, take_pending,
}
use kungfukid_local_server.Rooms.Members.{
  room_at, change_room, change_member, message, clear_ready, start_identity, same_identity,
  owner_clock,
}

-- `cancel(hub, room)`: both participants that are still there are told
unfoldable pub cancel_seat : ℕ → Action (Unit {0})
cancel_seat n = room_at n >>= λ r.
    modify (change_room n (λ r. record r { seat_exchange = none })) >> elim r.seat_exchange [
      | none ↦ pure tt
      | some pending ↦ for_each (pending.participants.0 ∷ pending.participants.1 ∷ []) (λ uid.
          elim (lookup uid r.members) [
            | none ↦ pure tt
            | some m ↦ queue m.engine (message 3264 [])
          ])
    ]

-- `expire(hub, room)`
unfoldable pub expire_seat : ℕ → Action (Unit {0})
expire_seat n = room_at n >>= λ r. elim r.seat_exchange [
  | none ↦ pure tt
  | some pending ↦ gets (start_identity r) >>= λ now_identity.
      if not (same_identity now_identity pending.identity)
      then cancel_seat n
      else (owner_clock r >>= λ now. if leb pending.deadline now then cancel_seat n else pure tt)
]

-- a member that is away or not in the room
abbrev pub is_absent : Hub → ℕ × Member → Bool
is_absent h (uid, m) = contains uid h.suspended || elim (engine_of m.engine h) [
  | none ↦ true
  | some e ↦ elim e.game [ none ↦ true | some g ↦ not (same_phase g.phase Phase.in_room) ]
]

abbrev has_key : Option ℕ → ℕ → Bool
has_key none key = false
has_key (some k) key = k == key

abbrev takes : ℕ → ℕ → ℕ × Member → Bool
takes target new (uid, m) = not (uid == target) && has_key m.registry_key new

abbrev seated : Option Member → ℕ → Bool
seated none key = false
seated (some m) key = has_key m.registry_key key && not m.ready

-- `old` and `new` are the places that the message names
abbrev pub exchange_fits : Room → ℕ → ℕ → ℕ → ℕ → Bool
exchange_fits r source target old new =
    let a = lookup source (fighters r) in
    not (source == target)
    && (ltb old 8
        && (ltb new 8
            && (not (old == new)
                && (seated a old
                    && (((target == 0) || seated (lookup target (fighters r)) new)
                        && (not (any (takes target new) (fighters r))
                            && (not (target == 0)
                                || elim a [ none ↦ false | some m ↦ (new / 4) == m.team ])))))))

-- the places of the two members change over, or the one member moves
abbrev pub swap_seats : ℕ → Member → ℕ → Option Member → ℕ → Room → Room
swap_seats source a target none new r =
    change_member source (λ m. record m { registry_key = some new }) r
swap_seats source a target (some b) new r =
    change_member target (λ m. record m { registry_key = a.registry_key; team = a.team })
      (change_member source (λ m. record m { registry_key = b.registry_key; team = b.team }) r)

-- from the exchange itself on
unfoldable pub complete_exchange :
    ℕ → Connection → ℕ → Bytes → ℕ → Member → ℕ → Option Member → ℕ → Action (List Message)
complete_exchange engine c n p source a target b new =
    modify (change_room n (swap_seats source a target b new))
    >> (room_at n >>= λ r.
        clear_ready n r.members
        >> (broadcast r.members (message 3265 p) none >> take_pending engine c))

-- the request of a member
unfoldable pub request_exchange :
    ℕ
    → Connection
    → Engine
    → Room
    → Bytes
    → ℕ
    → Member
    → ℕ
    → Option Member
    → ℕ
    → Action (List Message)
request_exchange engine c e r p source a target b new =
    require ((source == c.uid) && (a.engine == engine)) "seat exchange sender spoof"
    >> (if is_some r.seat_exchange then pure (message 3267 [] ∷ []) else elim b [
      | none ↦ complete_exchange engine c r.number p source a target none new
      | some partner ↦ gets (start_identity r) >>= λ identity.
          modify (
            change_room r.number (λ r. record r {
              seat_exchange = some (record {
                payload = p;
                participants = (source, target);
                identity = identity;
                deadline = e.clock + 30000;
              });
            }))
          >> (queue partner.engine (message 3261 p) >> pure [])
    ])

abbrev consents : ℕ → Connection → Room → Bytes → ℕ → Option Member → Bool
consents engine c r p target b = elim r.seat_exchange [
  | none ↦ false
  | some pending ↦
      bytes_eq pending.payload p
      && ((c.uid == target) && elim b [ none ↦ false | some partner ↦ partner.engine == engine ])
]

-- the answer of the other member: 3263 declines
unfoldable pub answer_exchange :
    ℕ → Connection → Room → ℕ → Bytes → ℕ → Member → ℕ → Option Member → ℕ → Action (List Message)
answer_exchange engine c r ident p source a target b new =
    if not (consents engine c r p target b)
    then pure (message 3264 [] ∷ [])
    else modify (change_room r.number (λ r. record r { seat_exchange = none }))
      >> (if ident == 3263
          then queue a.engine (message 3264 []) >> pure []
          else complete_exchange engine c r.number p source a target b new)

-- `handle` once the room and the members are there to exchange
unfoldable pub exchange_in : ℕ → Connection → Engine → Room → Message → Action (List Message)
exchange_in engine c e r m =
    let p = m.payload in
    let source = u64 0 p in
    let target = u64 8 p in
    let new = u32 20 p in
    if not (exchange_fits r source target (u32 16 p) new)
    then pure (message 3264 [] ∷ [])
    else elim (lookup source (fighters r)) [
      | none ↦ pure (message 3264 [] ∷ [])
      | some a ↦
          let b = lookup target (fighters r) in
          if m.id == 3260
          then request_exchange engine c e r p source a target b new
          else answer_exchange engine c r m.id p source a target b new
    ]

-- `handle`
unfoldable pub handle_exchange : ℕ → Connection → Message → Action (List Message)
handle_exchange engine c m h =
    if not (length m.payload == 24)
    then (raised "seat exchange exact24", h)
    else elim (engine_of engine h) [
      | none ↦ (ok [], h)
      | some e ↦
          if not (is_game c e) || not (same_phase c.phase Phase.in_room)
          then (ok [], h)
          else elim e.room [
            | none ↦ (ok [], h)
            | some n ↦ elim (lookup n h.rooms) [
              | none ↦ (ok [], h)
              | some r ↦
                  if not (mode_of r.request == 3)
                    || (not (same_stage r.stage Stage.room)
                        || (is_some r.network_probe || any (is_absent h) r.members))
                  then (ok (message 3264 [] ∷ []), h)
                  else exchange_in engine c e r m h
            ]
          ]
    ]
