-- ===== src/Rooms/Install.antt =====
-- server/kk_local/room_lifecycle.py: `install`, `equipment_changed` and `restore_bound`, by which a player
-- enters a room, shows its equipment and comes back; server/kk_local/room_flow.py: `toggle_spectator`.
use kungfukid_local_server.Base.{
  ℕ, Bool, true, false, not, ◌&&◌, ◌||◌, Option, none, some, List, [], ◌∷◌, ◌++◌, length, leb, ◌==◌,
  if◌then◌else◌, nat_eq,
}
use kungfukid_local_server.Base.Bytes.{Bytes, to_le}
use kungfukid_local_server.Base.Dict.{Dict, lookup, insert, erase, contains, filter_dict}
use kungfukid_local_server.Base.Exec.{
  ok, raised, pure, raise, gets, lift, modify, for_each, ◌>>=◌, ◌>>◌,
}
use kungfukid_local_server.Wire.{Message}
use kungfukid_local_server.Hub.{
  Hub, Action, Room, Member, Engine, Connection, Phase, same_phase, Stage, same_stage, engine_of,
  fighters, queue, broadcast, take_pending,
}
use kungfukid_local_server.Rooms.Members.{
  room_at, change_room, change_engine, change_member, set_phase, message, about, clear_ready,
}
use kungfukid_local_server.Rooms.Leave.{drop_invites, expire, lowest}
use kungfukid_local_server.Rooms.Entry.{Entry, Peer, has_spectator, records, prepare_entry}
use kungfukid_local_server.Rooms.Places.{
  RoomPackets, capacity_of, free_slot, position_key, observer_limit, observers,
}

abbrev pub tell_owner : ℕ → Option ℕ → Action (Unit {0})
tell_owner uid none = pure tt
tell_owner uid (some owner) = queue uid (about 3160 owner)

-- what a newcomer and a peer learn of each other
unfoldable pub greet : ℕ → Bytes → Option ℕ → Peer → Action (Unit {0})
greet uid own new_owner (peer_uid, (peer, raw)) =
    queue uid (message 3090 raw)
    >> ((if peer.spectator || (peer.activity == 0)
          then pure tt
          else queue uid (message 3550 (to_le 8 peer_uid ++ to_le 4 peer.activity)))
        >> (queue peer.engine (message 3090 own) >> tell_owner peer.engine new_owner))

-- `engine.room = room`
abbrev pub placed : ℕ → Engine → Engine
placed n x = record x { room = some n }

-- the messages of an entry
unfoldable pub welcome : ℕ → ℕ → Bool → Entry → Action (Unit {0})
welcome n uid changed e =
    modify (change_engine uid (placed n))
    >> (set_phase Phase.in_room uid
        >> (queue uid e.entry
            >> (queue uid (about 3160 e.owner)
                >> (for_each e.peers (greet uid e.own (if changed then some e.owner else none))
                    >> (room_at n >>= λ r. clear_ready n r.members)))))

abbrev pub seat_new : ℕ → Entry → Room → Room
seat_new uid e r = record r { members = insert uid e.new r.members; owner = e.owner }

-- a member of the room as it is prepared
unfoldable pub enter : ℕ → ℕ → Bool → Entry → Action (Unit {0})
enter n uid changed e =
    modify (drop_invites uid)
    >> (modify (change_room n (seat_new uid e)) >> welcome n uid changed e)

abbrev pub name_owner : ℕ → Dict ℕ Member → Option (ℕ × ℕ) → Action (Unit {0})
name_owner n ms none = pure tt
name_owner n ms (some (owner, _)) =
    modify (change_room n (λ r. record r { owner = owner })) >> broadcast ms (about 3160 owner) none

-- a spectator that owns a room with fighters hands it to one of them
unfoldable pub hand_over : ℕ → Action (Unit {0})
hand_over n = room_at n >>= λ r.
    if (length (fighters r) == 0) || not (has_spectator r.owner r.members)
    then pure tt
    else name_owner n r.members (lowest (fighters r))

-- what everyone learns of the change of a role
unfoldable pub tell_switch : ℕ → Message → Action (Unit {0})
tell_switch n notice =
    room_at n >>= λ r. clear_ready n r.members >> (broadcast r.members notice none >> hand_over n)

abbrev pub seat_again : ℕ → Member → Room → Room
seat_again uid new r = record r { members = insert uid new r.members }

-- the change of a role that is prepared
unfoldable pub switch_role : ℕ → ℕ → Member → Message → Action (Unit {0})
switch_role n uid new notice = modify (change_room n (seat_again uid new)) >> tell_switch n notice

-- why a role cannot change: 3, 1 and 2 below zero, as words
unfoldable pub toggle_error : Hub → Room → Member → ℕ
toggle_error h r old =
    if not (same_stage r.stage Stage.room)
    then 4294967293
    else if old.spectator && leb (capacity_of r.request) (length (fighters r))
    then 4294967295
    else if not old.spectator && leb (observer_limit h r) (observers r)
    then 4294967294
    else 0

abbrev pub watching : Member → Member
watching old = record old { slot = 8; spectator = true; ready = false; registry_key = some 8 }

-- the place of a fighter; fewer than eight fight, so that a slot is free
abbrev pub fighting : Member → ℕ → Option ℕ → Option Member
fighting old slot none = none
fighting old slot (some key) =
    some (record old { slot = slot; spectator = false; ready = false; registry_key = some key })

abbrev pub to_fighter : Room → ℕ → Member → Option ℕ → Option Member
to_fighter r uid old none = none
to_fighter r uid old (some slot) =
    fighting old slot (position_key r.request r.members old.team slot (some uid))

-- the place in the other role
unfoldable pub other_role : Room → ℕ → Member → Option Member
other_role r uid old =
    if old.spectator then to_fighter r uid old (free_slot r.members) else some (watching old)

abbrev pub toggle_reply : ℕ → ℕ → Message
toggle_reply uid error = message 3092 (to_le 8 uid ++ to_le 4 error)

-- the other members that are not suspended
abbrev erase_suspended : ℕ → Hub → Dict ℕ Member → Dict ℕ Member
erase_suspended uid h ms =
    filter_dict (λ u (_ : Member). not (u == uid) && not (contains u h.suspended)) ms

module _ (k : RoomPackets) where
  -- `install(room, engine, spectator=…)`
  unfoldable pub install : Room → ℕ → Bool → Action (Unit {0})
  install r uid spectator h =
      (lift (prepare_entry k h r uid spectator) >>= λ e.
      enter r.number uid (not (r.owner == e.owner)) e)
        h

  -- `equipment_changed(engine)`: a waiting room sees the new equipment
  unfoldable pub equipment_changed : ℕ → Action (Unit {0})
  equipment_changed uid h = elim (engine_of uid h) [
    | none ↦ (ok tt, h)
    | some e ↦ elim e.room [
      | none ↦ (ok tt, h)
      | some n ↦ elim (lookup n h.rooms) [
        | none ↦ (ok tt, h)
        | some r ↦
            if not (same_stage r.stage Stage.room)
            then (ok tt, h)
            else elim (lookup uid r.members) [
              | none ↦ (raised "no member", h)
              | some m ↦
                  (lift (k.fighter h uid m) >>= λ raw.
                  broadcast r.members (message 3090 raw) (some uid)
                  >> (if m.spectator || (m.activity == 0)
                      then pure tt
                      else broadcast r.members (message 3550 (to_le 8 uid ++ to_le 4 m.activity))
                          (some uid)))
                    h
            ]
      ]
    ]
  ]

  -- the member is back: its place as it was, with no panel open
  unfoldable pub come_back : ℕ → Room → Member → Action (Unit {0})
  come_back uid r m = gets (λ h. h) >>= λ h. lift (k.fighter h uid m) >>= λ own.
      lift (records k h (erase_suspended uid h r.members)) >>= λ peers.
      lift (k.room_entry_member h r r.owner m own) >>= λ entry.
      modify (change_room r.number (change_member uid (λ m. record m { activity = 0 })))
      >> (modify (λ h. record h { suspended = erase uid h.suspended })
          >> (set_phase Phase.in_room uid
              >> (queue uid entry
                  >> (queue uid (about 3160 r.owner) >> for_each peers (greet uid own none)))))

  -- `restore_bound(engine)`; `notice` is the message of a lapsed probe
  unfoldable pub restore_bound : Message → ℕ → Connection → Action (List Message)
  restore_bound notice uid c =
      expire notice
      >> (gets (λ h. h) >>= λ h.
          if not (contains uid h.suspended) then pure [] else elim (engine_of uid h) [
            | none ↦ pure []
            | some e ↦ elim e.room [
              | none ↦ pure []
              | some n ↦ elim (lookup n h.rooms) [
                | none ↦ pure []
                | some r ↦
                    if not (same_stage r.stage Stage.room)
                    then pure []
                    else elim (lookup uid r.members) [
                      | none ↦ raise "no member"
                      | some m ↦ come_back uid r m >> take_pending uid c
                    ]
              ]
            ]
          ])

  -- the change of a role, where it has a place
  unfoldable pub toggle_to : ℕ → Connection → Room → Option Member → Action (List Message)
  toggle_to engine c r none h = (ok (toggle_reply c.uid 4294967295 ∷ []), h)
  toggle_to engine c r (some new) h =
      (lift (k.fighter h c.uid new) >>= λ raw.
      switch_role r.number c.uid new (k.spectator_transition c.uid new.spectator raw)
      >> take_pending engine c)
        h

  -- `toggle_spectator` in a room
  unfoldable pub toggle_in : ℕ → Connection → Room → Member → Action (List Message)
  toggle_in engine c r old h =
      if not (toggle_error h r old == 0)
      then (ok (toggle_reply c.uid (toggle_error h r old) ∷ []), h)
      else toggle_to engine c r (other_role r c.uid old) h

  -- `toggle_spectator(engine, c, message)`
  unfoldable pub toggle_spectator : ℕ → Connection → Message → Action (List Message)
  toggle_spectator engine c msg h =
      if not (length msg.payload == 0)
      then (raised "spectator toggle request length", h)
      else elim (engine_of engine h) [
        | none ↦ (ok [], h)
        | some e ↦ elim e.room [
          | none ↦ (ok [], h)
          | some n ↦ elim (lookup n h.rooms) [
            | none ↦ (ok [], h)
            | some r ↦
                if not (same_phase c.phase Phase.in_room)
                then (ok [], h)
                else elim (lookup c.uid r.members) [
                  | none ↦ (raised "no member", h)
                  | some old ↦ toggle_in engine c r old h
                ]
          ]
        ]
      ]
