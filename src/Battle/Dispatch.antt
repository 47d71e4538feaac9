-- ===== src/Battle/Dispatch.antt =====
-- server/kk_local/battle_relay.py: `dispatch_public`, one execution of an event that native peers
-- send once for each recipient, over TCP and UDP.
use kungfukid_local_server.Base.{
  ℕ, ◌-◌, ◌^◌, Bool, true, false, not, ◌&&◌, ◌||◌, Option, none, some, List, [], ◌∷◌, ◌++◌, length,
  member, subset, all, drop, ltb, ◌==◌, if◌then◌else◌, nat_eq, pair_eq, is_some, String,
}
use kungfukid_local_server.Base.Bytes.{Bytes, bytes_eq}
use kungfukid_local_server.Base.Dict.{Dict, lookup, insert, contains, keys, filter_dict}
use kungfukid_local_server.Base.Exec.{ok, raised, pure, for_each, ◌>>=◌, ◌>>◌}
use kungfukid_local_server.Wire.{Message}
use kungfukid_local_server.Hub.{
  Hub, Action, Room, Member, Connection, Dispatched, Phase, same_phase, Stage, same_stage, fighters,
  engine_of, put_room, enqueue, take_pending, is_game,
}
use kungfukid_local_server.Battle.Event.{Event, Operation, is_zero_float}
use kungfukid_local_server.Battle.Decode.{decode_battle}
use kungfukid_local_server.Battle.Outcome.{count_combat, in_fighters, is_own}
use kungfukid_local_server.Battle.Pairs.{observe_pair_selection}
use kungfukid_local_server.Battle.Handler.{room_of, context, handle}

-- `cache.get((uid, payload))`
abbrev pub find_dispatched : ℕ → Bytes → List Dispatched → Option Dispatched
find_dispatched uid payload [] = none
find_dispatched uid payload (d ∷ ds) =
    if (d.uid == uid) && bytes_eq d.payload payload then some d else find_dispatched uid payload ds

-- the entry with its key, in the place that it has
abbrev pub replace_dispatched : Dispatched → List Dispatched → List Dispatched
replace_dispatched new [] = []
replace_dispatched new (d ∷ ds) =
    if (d.uid == new.uid) && bytes_eq d.payload new.payload
    then new ∷ ds
    else d ∷ replace_dispatched new ds

-- `cache[key] = entry`, then `while len(cache) > 128: cache.popitem(last=False)`
abbrev pub cache_dispatched : Dispatched → List Dispatched → List Dispatched
cache_dispatched new ds = let grown = ds ++ (new ∷ []) in drop (length grown - 128) grown

abbrev same_state : Option (ℕ × ℕ × ℕ) → Event → Bool
same_state none d = false
same_state (some (source, parameter, event)) d =
    (source == d.source) && ((parameter == d.parameter_signed) && (event == d.event_raw))

-- `decoded['operation'] == 'apply' and current != … or … 'cancel' and current is not None`
abbrev superseded_state : Operation → Option (ℕ × ℕ × ℕ) → Event → Bool
superseded_state Operation.apply current d = not (same_state current d)
superseded_state Operation.cancel current d = is_some current
superseded_state Operation.unknown current d = false

abbrev is_alive : ℕ → Room → Bool
is_alive key r = elim (lookup key r.projectiles) [ none ↦ false | some shot ↦ shot.alive ]

abbrev behind : ℕ → Option ℕ → Bool
behind sequence none = false
behind sequence (some seen) = ltb sequence seen

-- a repeat whose sequence number has been passed
unfoldable pub late_repeat : ℕ → Event → Room → Bool
late_repeat uid d r =
    let lane : ℕ = if d.id == 8120 then 15 else 19 in
    behind (if d.id == 8120 then d.sequence_15_raw else d.sequence_19_raw)
      (lookup (uid, lane) r.last_sequence)

-- a repeat whose state or projectile has changed since
unfoldable pub superseded : Event → Room → Bool
superseded d r =
    ((d.id == 8150)
      && superseded_state d.operation (lookup (d.target, d.ustate_code) r.active_states) d)
    || (member d.id (8400 ∷ 8401 ∷ 8402 ∷ 8403 ∷ []) && not (is_alive d.child_key r))

abbrev pub set_capture : Option (List Message) → List ℕ → Hub → Hub
set_capture capture [] h = h
set_capture capture (uid ∷ uids) h = set_capture capture uids (elim (engine_of uid h) [
  | none ↦ h
  | some e ↦ record h {
    engines = insert uid (record e { battle_delivery_capture = capture }) h.engines;
  }
])

abbrev captured : ℕ → Hub → List Message
captured uid h = elim (engine_of uid h) [
  | none ↦ []
  | some e ↦ elim e.battle_delivery_capture [ none ↦ [] | some rows ↦ rows ]
]

abbrev not_capturing : ℕ → Hub → Bool
not_capturing uid h = elim (engine_of uid h) [
  | none ↦ true
  | some e ↦ not (is_some e.battle_delivery_capture)
]

abbrev engines_of : Dict ℕ Member → List ℕ
engines_of [] = []
engines_of ((_, m) ∷ ms) = m.engine ∷ engines_of ms

-- what each member is to get: the captured messages, and the sender's reply behind its own
abbrev collect : ℕ → List Message → Dict ℕ Member → Hub → Dict ℕ (List Message)
collect uid returned [] h = []
collect uid returned ((u, m) ∷ ms) h =
    let rows = captured m.engine h ++ (if u == uid then returned else []) in
    let rest = collect uid returned ms h in
    elim rows [ [] ↦ rest | row ∷ more ↦ (u, row ∷ more) ∷ rest ]

abbrev damage_label : ℕ → String
damage_label bits =
    if is_zero_float bits
    then "zero_amount"
    else if ltb bits (2 ^ 31)
    then "damage_positive"
    else "healing"

abbrev count_damage : Event → Hub → Hub
count_damage d h =
    if d.id == 8121 then count_combat (some d) (damage_label d.signed_hp_amount_bits) 1 h else h

-- the room as the hub holds it
abbrev pub current : Room → Hub → Room
current r h = elim (lookup r.number h.rooms) [ none ↦ r | some r' ↦ r' ]

-- the one execution, with every member's deliveries captured
unfoldable pub execute : ℕ → Connection → Message → Event → Room → Action Dispatched
execute engine c message d r h =
    let members = r.members in
    if not (all (λ u. not_capturing u h) (engines_of members))
    then (raised "reentrant battle capture", h)
    else let (result, h₁) =
        handle engine c message (set_capture (some []) (engines_of members) h) in
      elim result [
        | raised why ↦ (
          raised why,
          set_capture none (engines_of members) (count_combat (some d) "rejected" 1 h₁),
        )
        | ok returned ↦
            let outputs = collect c.uid returned members h₁ in
            let h₂ = set_capture none (engines_of members) h₁ in
            let entry : Dispatched = record {
              uid = c.uid;
              payload = message.payload;
              outputs = outputs;
              delivered = [];
            } in
            elim outputs [
              | [] ↦ (ok entry, count_combat (some d) "suppressed" 1 h₂)
              | _ ∷ _ ↦
                  let r' = current r h₂ in
                  (
                    ok entry,
                    put_room
                        (record r' {
                          battle_dispatch_cache = cache_dispatched entry r'.battle_dispatch_cache;
                        })
                        h₂,
                  )
            ]
      ]

-- what goes out now, to targets that have not had it, and the room with that noted
abbrev pub due : Dispatched → List ℕ → Dict ℕ (List Message)
due entry targets =
    filter_dict (λ u _. member u targets && not (member u entry.delivered)) entry.outputs

abbrev pub note_delivered : Dispatched → Dict ℕ (List Message) → Dispatched
note_delivered entry result = record entry { delivered = keys result ++ entry.delivered }

abbrev count_delivered : Event → Dict ℕ (List Message) → Hub → Hub
count_delivered d [] h = h
count_delivered d (row ∷ rows) h = count_combat (some d) "delivered" (length (row ∷ rows)) h

-- a selection counts for the recipients that it is sent to
abbrev observe_selection : ℕ → Connection → Event → Dict ℕ (List Message) → Room → Hub → Hub
observe_selection engine c d result r h =
    if (d.id == 8143) && ((d.target == 0) || contains d.target result)
    then elim (engine_of engine h) [
      | none ↦ h
      | some e ↦
          put_room
            (observe_pair_selection (context engine c e (current r h) h) d (some (keys result))) h
    ]
    else h

-- the delivery of an entry
unfoldable pub hand_out :
    ℕ
    → Connection
    → Event
    → Room
    → Dispatched
    → List ℕ
    → Bool
    → Action (Dict ℕ (List Message) × List Message)
hand_out engine c d r entry targets udp h =
    let result = due entry targets in
    let h₁ = count_delivered d result h in
    let r' = current r h₁ in
    let h₂ =
      put_room
        (record r' {
          battle_dispatch_cache =
              replace_dispatched (note_delivered entry result) r'.battle_dispatch_cache;
        })
        h₁ in
    let h₃ = observe_selection engine c d result r h₂ in
    if udp
    then (ok (result, []), h₃)
    else (for_each result (λ row. elim (lookup row.0 r.members) [
      | none ↦ pure tt
      | some m ↦ for_each row.1 (λ message. enqueue m.engine message)
    ])
          >> (take_pending engine c >>= λ replies. pure ([], replies)))
        h₃

-- a message with a known layout
unfoldable pub dispatch_known :
    ℕ
    → Connection
    → Message
    → Event
    → Room
    → List ℕ
    → Bool
    → Action (Dict ℕ (List Message) × List Message)
dispatch_known engine c message d r targets udp h =
    let within = subset targets (keys (fighters r)) in
    elim (find_dispatched c.uid message.payload r.battle_dispatch_cache) [
      | some entry ↦
          if late_repeat c.uid d r
          then (ok ([], []), count_combat (some d) "stale" 1 h)
          else if superseded d r
          then (ok ([], []), h)
          else if not within
          then (raised "battle recipient outside current fighters", h)
          else hand_out engine c d r entry targets udp h
      | none ↦
          if not within
          then (raised "battle recipient outside current fighters", h)
          else (execute engine c message d r >>= λ entry. hand_out engine c d r entry targets udp)
              (count_damage d h)
    ]

-- a message with no known layout: it is handled, and leaves nothing to deliver
unfoldable pub unknown_layout :
    ℕ → Connection → Message → Room → List ℕ → Bool → Action (Dict ℕ (List Message) × List Message)
unknown_layout engine c message r targets udp h =
    if not (subset targets (keys (fighters r)))
    then (raised "battle recipient outside current fighters", h)
    else if not (all (λ u. not_capturing u h) (engines_of r.members))
    then (raised "reentrant battle capture", h)
    else let (result, h₁) =
        handle engine c message (set_capture (some []) (engines_of r.members) h) in
      let h₂ = set_capture none (engines_of r.members) h₁ in
      elim result [
        | raised why ↦ (raised why, h₂)
        | ok _ ↦
            if udp
            then (ok ([], []), h₂)
            else (take_pending engine c >>= λ replies. pure ([], replies)) h₂
      ]

-- `dispatch_public`. Over UDP the result is what to send to whom, over TCP the sender's replies.
-- With no recipients named, every member is a target.
unfoldable pub dispatch_public :
    ℕ
    → Connection
    → Message
    → Option (List ℕ)
    → Bool
    → Action (Dict ℕ (List Message) × List Message)
dispatch_public engine c message recipients udp h = elim (engine_of engine h) [
  | none ↦ (raised "public battle dispatch context", h)
  | some e ↦ elim (room_of e h) [
    | none ↦ (raised "public battle dispatch context", h)
    | some r ↦
        let x = context engine c e r h in
        if not (
          same_stage r.stage Stage.battle
          && (is_game c e
              && (same_phase c.phase Phase.battle && (in_fighters c.uid r && is_own x))))
        then (raised "public battle dispatch context", h)
        else elim (decode_battle message.payload) [
          | raised why ↦ (raised why, h)
          | ok decoded ↦
              let targets : List ℕ = elim recipients [ none ↦ keys r.members | some us ↦ us ] in
              elim decoded [
                | none ↦ unknown_layout engine c message r targets udp h
                | some d ↦
                    dispatch_known engine c message d r targets udp
                      (count_combat (some d) "received" 1 h)
              ]
        ]
  ]
]
