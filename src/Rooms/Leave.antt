-- ===== src/Rooms/Leave.antt =====
-- server/kk_local/room_lifecycle.py: how a member leaves a room, is suspended, and what lapses.
use kungfukid_local_server.Base.{
  ℕ, ◌+◌, ◌-◌, Bool, true, false, not, ◌&&◌, ◌||◌, Option, none, some, List, [], ◌∷◌, ltb, leb,
  ◌==◌, if◌then◌else◌, nat_eq, pair_eq, is_some, length, discard, keep_if,
}
use kungfukid_local_server.Base.Dict.{Dict, lookup, insert, erase, filter_dict, map_values}
use kungfukid_local_server.Base.Exec.{ok, pure, gets, modify, for_each, ◌>>=◌, ◌>>◌}
use kungfukid_local_server.Wire.{Message}
use kungfukid_local_server.Hub.{
  Hub, Action, Room, Member, Engine, Phase, Stage, same_stage, Invite, HitWitness, DeathWitness,
  Projectile, engine_of, fighters, mode_of, queue, broadcast,
}
use kungfukid_local_server.Rooms.Members.{
  room_at, change_room, change_engine, change_member, set_phase_if_any, message, about, clear_ready,
  owner_clock, start_identity, same_identity,
}
use kungfukid_local_server.Rooms.Exchange.{cancel_seat, expire_seat}
use kungfukid_local_server.Rooms.Flow.{cancel_network_probe}
use kungfukid_local_server.Rooms.Barriers.{advance_barriers}

-- `drop_invites(uid)`
unfoldable pub drop_invites : ℕ → Hub → Hub
drop_invites uid h = record h {
  invites =
      filter_dict (λ target (invite : Invite). not ((target == uid) || (invite.inviter == uid)))
        h.invites;
}

-- the keys of a pair that begins with `uid`
abbrev pub drop_first : {V : Type 0} → ℕ → Dict (ℕ × ℕ) V → Dict (ℕ × ℕ) V
drop_first uid d = filter_dict (λ key _. not (key.0 == uid)) d

-- what `leave` takes out of the room for the member that goes
unfoldable pub forget : ℕ → Room → Room
forget uid r = record r {
  members = erase uid r.members;
  battle_dispatch_cache = [];
  pickup_requests = erase uid r.pickup_requests;
  chest_requests = erase uid r.chest_requests;
  pending_hit_receipts =
      map_values {V = List HitWitness}
        (λ _ rows. keep_if (λ (row : HitWitness). not (row.source == uid)) rows)
        (erase uid r.pending_hit_receipts);
  pending_death_receipts =
      map_values {V = List DeathWitness}
        (λ _ rows. keep_if (λ (row : DeathWitness). not (row.source == uid)) rows)
        (erase uid r.pending_death_receipts);
  loaded = discard uid r.loaded;
  input_ready = discard uid r.input_ready;
  result_acks = discard uid r.result_acks;
  result_replies = erase uid r.result_replies;
  result_requests = discard uid r.result_requests;
  pair_selection_versions = erase uid r.pair_selection_versions;
  motion_payloads = erase uid r.motion_payloads;
  talisman_pending = drop_first uid r.talisman_pending;
  talisman_sequences = drop_first uid r.talisman_sequences;
  last_sequence = drop_first uid r.last_sequence;
  active_states = drop_first uid r.active_states;
  pair_selections =
      filter_dict (λ first (selection : ℕ × ℕ). not ((first == uid) || (selection.0 == uid)))
        r.pair_selections;
  projectiles = filter_dict (λ _ (shot : Projectile). not (shot.owner == uid)) r.projectiles;
}

-- the engine of a member that is out of its room
abbrev pub out_of_room : Engine → Engine
out_of_room e = set_phase_if_any Phase.lobby (record e { room = none; consume_intents = [] })

-- a running match ends for everyone
unfoldable pub abort_match : ℕ → Room → Action (Unit {0})
abort_match n r =
    for_each r.members (λ entry.
      modify (change_engine entry.1.engine out_of_room) >> queue entry.1.engine (message 3115 []))
    >> modify (λ h. record h { rooms = erase n h.rooms })

-- `min(candidates, key=lambda u: candidates[u].slot)`, the first of the lowest
abbrev pub lowest : Dict ℕ Member → Option (ℕ × ℕ)
lowest [] = none
lowest ((uid, m) ∷ ms) = elim (lowest ms) [
  | none ↦ some (uid, m.slot)
  | some (other, slot) ↦ if leb m.slot slot then some (uid, m.slot) else some (other, slot)
]

-- who is the owner after the member is gone
unfoldable pub elect : ℕ → Room → ℕ
elect uid r =
    if not (r.owner == uid)
    then r.owner
    else let candidates = if length (fighters r) == 0 then r.members else fighters r in
      elim (lowest candidates) [ none ↦ r.owner | some (new, _) ↦ new ]

-- the rest of `leave` in a waiting room that has members left
unfoldable pub go_on : ℕ → ℕ → Room → Message → Action (Unit {0})
go_on uid n r notice =
    broadcast r.members notice none
    >> ((if r.owner == uid
          then modify (change_room n (λ r. record r { owner = elect uid r }))
            >> broadcast r.members (about 3160 (elect uid r)) none
          else pure tt)
        >> clear_ready n r.members)

abbrev is_watching : Option Member → Bool
is_watching none = false
is_watching (some m) = m.spectator

-- `leave` once the member is out: `r` is the room without it, `departed` what it was
unfoldable pub settle : ℕ → ℕ → Room → Option Member → Message → Action (Unit {0})
settle uid n r departed notice =
    if length r.members == 0
    then modify (λ h. record h { rooms = erase n h.rooms })
    else if same_stage r.stage Stage.room
    then go_on uid n r notice
    else if is_watching departed
    then broadcast r.members notice none >> advance_barriers n
    else abort_match n r

-- `leave` of a member in room `n`
unfoldable pub leave_room : ℕ → ℕ → Bool → Option Message → Action (Unit {0})
leave_room uid n acknowledge departure =
    cancel_seat n
    >> (cancel_network_probe n
        >> (modify (drop_invites uid)
            >> (room_at n >>= λ r.
                modify (λ h. record h { suspended = erase uid h.suspended })
                >> (modify (change_room n (forget uid))
                    >> (modify (change_engine uid out_of_room)
                        >> ((if acknowledge then queue uid (message 3115 []) else pure tt)
                            >> settle uid n (forget uid r) (lookup uid r.members) (elim departure [
                              | none ↦ about 3130 uid
                              | some notice ↦ notice
                            ])))))))

-- `leave(engine, acknowledge=…, departure=…)`
unfoldable pub leave : ℕ → Bool → Option Message → Action (Unit {0})
leave uid acknowledge departure h = elim (engine_of uid h) [
  | none ↦ (ok tt, h)
  | some e ↦ elim e.room [
    | none ↦ (ok tt, drop_invites uid h)
    | some n ↦ leave_room uid n acknowledge departure h
  ]
]

-- `disconnected(engine)`: in a waiting room the place is kept for a time
unfoldable pub disconnected : ℕ → Action (Unit {0})
disconnected uid h =
    let h₁ = drop_invites uid h in
    elim (engine_of uid h₁) [
      | none ↦ (ok tt, h₁)
      | some e ↦ elim e.room [
        | none ↦ leave uid false none h₁
        | some n ↦
            (room_at n >>= λ r.
            if not (same_stage r.stage Stage.room) || (mode_of r.request == 4)
            then leave uid false none
            else modify (change_room n (change_member uid (λ m. record m { ready = false })))
              >> (modify (λ h. record h {
                suspended = insert uid (e.clock + h.reconnect_ms) h.suspended;
              })
                  >> broadcast r.members (about 4070 uid) (some uid)))
              h₁
      ]
    ]

-- `hub.public_policy and room.public_deadline and owner.clock() >= room.public_deadline`
abbrev past_deadline : Room → Action Bool
past_deadline r = gets (λ h. is_some h.public_rooms && not (r.public_deadline == 0)) >>= λ limited.
    if limited then (owner_clock r >>= λ now. pure (leb r.public_deadline now)) else pure false

-- a probe lapses when the roster changes, and after ten seconds
unfoldable pub expire_probe : Message → ℕ → Room → Action (Unit {0})
expire_probe notice n r = elim r.network_probe [
  | none ↦ pure tt
  | some probe ↦
      let lapse = cancel_network_probe n >> broadcast r.members notice none in
      gets (start_identity r) >>= λ identity.
      if not (same_identity probe.identity identity)
      then lapse
      else (owner_clock r >>= λ now. if leb 10000 (now - probe.start) then lapse else pure tt)
]

-- the owner of a room leaves at its deadline; else its exchange and its probe may lapse
unfoldable pub expire_room : Message → ℕ × Room → Action (Unit {0})
expire_room notice (n, r) = past_deadline r >>= λ past.
    if past
    then leave (elim (lookup r.owner r.members) [ none ↦ 0 | some m ↦ m.engine ]) true none
    else expire_seat n >> expire_probe notice n r

abbrev has_lapsed : ℕ → ℕ → Hub → Bool
has_lapsed uid deadline h = elim (engine_of uid h) [ none ↦ false | some e ↦ leb deadline e.clock ]

unfoldable pub expire_suspended : ℕ × ℕ → Action (Unit {0})
expire_suspended (uid, deadline) = gets (has_lapsed uid deadline) >>= λ lapsed.
    if lapsed
    then modify (λ h. record h { suspended = erase uid h.suspended }) >> leave uid false none
    else pure tt

abbrev still_open : Hub → Invite → Bool
still_open h invite = elim (engine_of invite.inviter h) [
  | none ↦ false
  | some e ↦ ltb e.clock invite.expires
]

-- `expire()`; `notice` is the message of `system_notice`
unfoldable pub expire : Message → Action (Unit {0})
expire notice = gets (λ h. h.rooms) >>= λ rooms.
    for_each rooms (expire_room notice)
    >> (gets (λ h. h.suspended) >>= λ suspended.
        for_each suspended expire_suspended
        >> modify
            (λ h. record h { invites = filter_dict (λ _ invite. still_open h invite) h.invites }))
