-- ===== src/Rooms/Invitations.antt =====
-- server/kk_local/room_requests.py: `handle_invitation`, by which a member asks a player into its room.
use kungfukid_local_server.Base.{
  ℕ, ◌+◌, Bool, true, false, not, ◌&&◌, ◌||◌, Option, none, some, List, [], ◌∷◌, ◌++◌, length, any,
  is_some, ltb, ◌==◌, if◌then◌else◌, nat_eq, String,
}
use kungfukid_local_server.Base.Bytes.{Bytes, to_le, u16, u64}
use kungfukid_local_server.Base.Dict.{lookup, insert, erase, contains}
use kungfukid_local_server.Base.Exec.{Result, ok, raised, pure, gets, modify, ◌>>=◌, ◌>>◌}
use kungfukid_local_server.Wire.{Message}
use kungfukid_local_server.Hub.{
  Hub, Action, Room, Member, Engine, Connection, Phase, same_phase, Stage, same_stage, Invite,
  engine_of, fighters, queue, take_pending, is_game,
}
use kungfukid_local_server.Rooms.Members.{message}
use kungfukid_local_server.Rooms.Places.{RoomPackets, capacity_of, is_bound, member_bound}
use kungfukid_local_server.Rooms.Install.{install}
use kungfukid_local_server.Rooms.Requests.{own_room}

abbrev pub drop_invite : ℕ → Hub → Hub
drop_invite target h = record h { invites = erase target h.invites }

-- a player that may be asked: in the lobby, in no room, and it can be told
abbrev pub can_be_asked : Engine → Bool
can_be_asked peer = elim peer.game [
  | none ↦ false
  | some g ↦ same_phase g.phase Phase.lobby && (not (is_some peer.room) && not peer.delivery_failed)
]

-- a member of a waiting room with a place left may ask
unfoldable pub may_invite : Connection → ℕ → ℕ → Room → Bool
may_invite c target number r =
    same_phase c.phase Phase.in_room
    && (same_stage r.stage Stage.room
        && ((number == r.number)
            && (contains c.uid r.members
                && (not (target == c.uid) && ltb (length (fighters r)) (capacity_of r.request)))))

-- the room, the inviter and the connections are as when the invitation was made
unfoldable pub still_valid : Invite → Connection → Engine → Engine → Hub → Option Room
still_valid invite c e owner h = elim (lookup invite.room h.rooms) [
  | none ↦ none
  | some r ↦ elim owner.game [
    | none ↦ none
    | some g ↦ elim owner.room [
      | none ↦ none
      | some n ↦
          if (g.number == invite.inviter_connection)
            && ((n == invite.room)
                && (same_stage r.stage Stage.room
                    && ((r.serial == invite.serial)
                        && (same_phase g.phase Phase.in_room
                            && (same_phase c.phase Phase.lobby && not (is_some e.room))))))
          then some r
          else none
    ]
  ]
]

abbrev is_unreachable : Hub → ℕ × Member → Bool
is_unreachable h entry = contains entry.0 h.suspended || not (member_bound h entry)

-- there is a place, and everyone can be reached
unfoldable pub has_room : Hub → Room → Engine → Bool
has_room h r e =
    ltb (length (fighters r)) (capacity_of r.request)
    && (not (any (is_unreachable h) r.members) && is_bound e)

module _ (k : RoomPackets) where
  abbrev notice : String → List Message
  notice text = k.system_notice text ∷ []

  abbrev invitation : ℕ → ℕ → ℕ → Message
  invitation uid target number =
      message 3500 (to_le 8 uid ++ (k.name uid ++ (to_le 8 target ++ to_le 2 number)))

  -- the invitation is sent, and noted where it could be
  unfoldable pub send_invitation :
      Connection → Engine → Room → ℕ → ℕ → Connection → Action (List Message)
  send_invitation c e r target number peer_game =
      queue target (invitation c.uid target number)
      >> (gets (λ h. elim (engine_of target h) [ none ↦ true | some peer ↦ peer.delivery_failed ])
          >>= λ failed.
              if failed
              then pure (notice "[本地服务] 对方暂时无法接收房间邀请。")
              else modify (λ h. record h {
                invites =
                    insert target
                      (record {
                        inviter = c.uid;
                        room = r.number;
                        serial = r.serial;
                        inviter_connection = c.number;
                        recipient_connection = peer_game.number;
                        expires = e.clock + h.invite_ms;
                      })
                      h.invites;
              })
                >> pure [])

  -- one invitation at a time
  unfoldable pub invite_peer :
      Connection → Engine → Room → ℕ → ℕ → Connection → Action (List Message)
  invite_peer c e r target number peer_game h = elim (lookup target h.invites) [
    | none ↦ send_invitation c e r target number peer_game h
    | some old ↦
        if (old.inviter == c.uid) && (old.room == r.number)
        then (ok [], h)
        else (ok (notice "[本地服务] 对方正在处理另一份房间邀请。"), h)
  ]

  -- 3500: a member asks a player
  unfoldable pub invite : Connection → Engine → Bytes → Action (List Message)
  invite c e p h =
      let target = u64 29 p in
      let number = u16 37 p in
      let refused : Result (List Message) × Hub = (ok (notice "[本地服务] 当前不能邀请该玩家进入房间。"), h) in
      if not (u64 0 p == c.uid)
      then (raised "invitation sender spoof", h)
      else elim (own_room e h) [
        | none ↦ refused
        | some r ↦ elim (engine_of target h) [
          | none ↦ refused
          | some peer ↦ elim peer.game [
            | none ↦ refused
            | some peer_game ↦
                if not (may_invite c target number r && can_be_asked peer)
                then refused
                else invite_peer c e r target number peer_game h
          ]
        ]
      ]

  abbrev declined : ℕ → ℕ → Message
  declined inviter uid = message 3502 (to_le 8 inviter ++ (k.name uid ++ to_le 8 uid))

  -- 3501 to a valid invitation: consent is used up by it
  unfoldable pub consent : ℕ → Connection → Engine → Room → Bytes → Action (List Message)
  consent engine c e r p h =
      if not (u16 16 p == r.number)
      then (ok (notice "[本地服务] 邀请房间不匹配。"), h)
      else if not (has_room h r e)
      then (ok (notice "[本地服务] 房间已满或连接尚未就绪。"), drop_invite c.uid h)
      else (install k r engine false >> take_pending engine c) h

  -- the answer to a pending invitation
  unfoldable pub answer_pending :
      ℕ → Connection → Engine → ℕ → Bytes → Invite → Action (List Message)
  answer_pending engine c e ident p pending h =
      let lapsed : Result (List Message) × Hub =
        (ok (notice "[本地服务] 房间邀请已失效。"), drop_invite c.uid h) in
      elim (engine_of pending.inviter h) [
        | none ↦ lapsed
        | some owner ↦ elim (still_valid pending c e owner h) [
          | none ↦ lapsed
          | some r ↦
              if ident == 3502
              then (queue pending.inviter (declined pending.inviter c.uid) >> pure [])
                  (drop_invite c.uid h)
              else consent engine c e r p h
        ]
      ]

  -- 3501 and 3502: the player answers
  unfoldable pub answer : ℕ → Connection → Engine → ℕ → Bytes → Action (List Message)
  answer engine c e ident p h =
      if not (u64 (if ident == 3501 then 8 else 29) p == c.uid)
      then (raised "invitation response identity spoof", h)
      else elim (lookup c.uid h.invites) [
        | none ↦ (ok [], h)
        | some pending ↦
            if not ((pending.inviter == u64 0 p) && (pending.recipient_connection == c.number))
            then (ok [], h)
            else answer_pending engine c e ident p pending h
      ]

  abbrev expected_length : ℕ → ℕ
  expected_length ident = if ident == 3500 then 39 else if ident == 3501 then 18 else 37

  -- `handle_invitation(engine, c, message)`, of 3500, 3501 and 3502
  unfoldable pub handle_invitation : ℕ → Connection → Message → Action (List Message)
  handle_invitation engine c msg h =
      if not (length msg.payload == expected_length msg.id)
      then (raised "room invitation length", h)
      else elim (engine_of engine h) [
        | none ↦ (raised "no engine", h)
        | some e ↦
            if not (is_game c e && (c.uid == e.account_uid))
            then (ok [], h)
            else if msg.id == 3500
            then invite c e msg.payload h
            else answer engine c e msg.id msg.payload h
      ]
