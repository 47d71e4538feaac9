-- ===== src/Rooms/Requests/Handle.antt =====
-- server/kk_local/room_requests.py: `handle`, one function for each message.
use kungfukid_local_server.Base.{
  ℕ, Bool, true, false, not, ◌&&◌, ◌||◌, Option, none, some, List, [], ◌∷◌, ◌++◌, length, member,
  is_some, ltb, ◌==◌, if◌then◌else◌, nat_eq, String,
}
use kungfukid_local_server.Base.Bytes.{Bytes, to_le, u8, u32, u64, bytes_eq}
use kungfukid_local_server.Base.Dict.{lookup, contains}
use kungfukid_local_server.Base.Exec.{Result, ok, raised, modify, ◌>>=◌, ◌>>◌}
use kungfukid_local_server.Wire.{Message}
use kungfukid_local_server.Hub.{
  Hub, Action, Room, Member, Engine, Connection, Phase, same_phase, Stage, same_stage, engine_of,
  mode_of, queue, broadcast, take_pending,
}
use kungfukid_local_server.Rooms.Members.{
  room_at, change_room, change_member, message, about, clear_ready,
}
use kungfukid_local_server.Rooms.Leave.{leave}
use kungfukid_local_server.Rooms.Places.{RoomPackets, capacity_of, position_key, is_bound}
use kungfukid_local_server.Rooms.Requests.{own_room, waiting_room}

-- 4052: the answer to a transfer
abbrev transfer_reply : ℕ → Message
transfer_reply error = message 4052 (to_le 2 error)

-- a member that may become the owner
abbrev can_own : Hub → ℕ → Member → Bool
can_own h target m =
    not m.spectator
    && (not (contains target h.suspended)
        && elim (engine_of m.engine h) [ none ↦ false | some e ↦ is_some e.game && is_bound e ])

-- the error of a transfer; 0 lets it go on
unfoldable pub transfer_error : Hub → ℕ → ℕ → ℕ → Option Room → ℕ
transfer_error h uid number target none = 29
transfer_error h uid number target (some r) =
    if not (number == r.number)
    then 29
    else if not (same_stage r.stage Stage.room)
    then 30
    else if not (r.owner == uid) || (target == uid)
    then 129
    else elim (lookup target r.members) [
      | none ↦ 34
      | some m ↦ if can_own h target m then 0 else 34
    ]

-- 4051: the owner hands the room over
unfoldable pub transfer_owner : ℕ → Connection → Engine → Bytes → Action (List Message)
transfer_owner engine c e p h =
    let number = u32 0 p in
    let target = u64 4 p in
    let error = transfer_error h c.uid number target (own_room e h) in
    if not (length p == 12)
    then (raised "owner transfer length", h)
    else if not (same_phase c.phase Phase.in_room)
    then (ok [], h)
    else if not (error == 0)
    then (ok (transfer_reply error ∷ []), h)
    else (modify (change_room number (λ r. record r { owner = target }))
          >> (room_at number >>= λ r.
              clear_ready number r.members
              >> (broadcast r.members (about 3160 target) none
                  >> (queue engine (transfer_reply 0) >> take_pending engine c))))
        h

-- 4031: the time of a member that waits is over
unfoldable pub time_out : ℕ → Connection → Engine → Bytes → Action (List Message)
time_out engine c e p h =
    if not (length p == 0)
    then (raised "waiting timeout request length", h)
    else elim (waiting_room c e h) [
      | none ↦ (ok [], h)
      | some r ↦
          (queue engine (about 4032 c.uid)
              >> (leave engine false (some (about 4032 c.uid)) >> take_pending engine c))
            h
    ]

-- 3110: a member leaves
unfoldable pub go_out : ℕ → Connection → Engine → Bytes → Action (List Message)
go_out engine c e p h =
    if not (length p == 0) then (raised "leave length", h) else elim (own_room e h) [
      | none ↦
          if same_phase c.phase Phase.lobby then (ok [], h) else (raised "leave outside room", h)
      | some r ↦ (leave engine true none >> take_pending engine c) h
    ]

abbrev removal_notice : ℕ → Message
removal_notice target = message 3150 (to_le 8 target ++ (0 ∷ []))

-- a member of the owner's waiting room, other than itself, in an ordinary removal
abbrev removable : Connection → Bytes → Room → Option Member
removable c p r =
    let target = u64 0 p in
    if (r.owner == c.uid) && (not (target == c.uid) && (u8 8 p == 0))
    then lookup target r.members
    else none

module _ (k : RoomPackets) where
  abbrev notice : String → List Message
  notice text = k.system_notice text ∷ []

  -- 3140: the owner removes a member
  unfoldable pub remove_member : ℕ → Connection → Engine → Bytes → Action (List Message)
  remove_member engine c e p h =
      let target = u64 0 p in
      let refused : Result (List Message) × Hub = (ok (notice "[本地服务] 当前不能移除此房间成员。"), h) in
      if not (length p == 9) then (raised "room removal length", h) else elim (waiting_room c e h) [
        | none ↦ refused
        | some r ↦ elim (removable c p r) [
          | none ↦ refused
          | some m ↦
              (queue m.engine (removal_notice target)
                  >> (leave m.engine false (some (removal_notice target)) >> take_pending engine c))
                h
        ]
      ]

  -- the member changes over to a free place of the other team
  unfoldable pub take_team : ℕ → Connection → ℕ → ℕ → ℕ → Action (List Message)
  take_team engine c n team key =
      modify (
        change_room n
          (change_member c.uid (λ m. record m { team = team; registry_key = some key })))
      >> (room_at n >>= λ r.
          broadcast r.members (message 3250 (to_le 8 c.uid ++ (team ∷ key ∷ []))) none
          >> (clear_ready n r.members >> take_pending engine c))

  -- 3230: a member changes its team
  unfoldable pub change_team : ℕ → Connection → Engine → Bytes → Action (List Message)
  change_team engine c e p h =
      let team = u8 0 p in
      let refused : Result (List Message) × Hub = (ok (notice "[本地服务] 当前不能切换队伍。"), h) in
      if not (length p == 1) then (raised "team change length", h) else elim (waiting_room c e h) [
        | none ↦ refused
        | some r ↦ if ltb 1 team then refused else elim (lookup c.uid r.members) [
          | none ↦ (raised "no member", h)
          | some m ↦
              if m.spectator || (m.team == team)
              then (ok [], h)
              else elim (position_key r.request r.members team m.slot (some c.uid)) [
                | none ↦ (ok (notice "[本地服务] 目标队伍已满。"), h)
                | some key ↦ take_team engine c r.number team key h
              ]
        ]
      ]

  -- `room.resolved_request or room.request`
  abbrev current : Room → Bytes
  current r = elim r.resolved_request [ none ↦ r.request | some request ↦ request ]

  abbrev same_request : Option Bytes → Bytes → Bool
  same_request o updated = elim o [ none ↦ false | some request ↦ bytes_eq request updated ]

  -- the accepted settings
  unfoldable pub take_settings : ℕ → Connection → Room → Bytes → Message → Action (List Message)
  take_settings engine c r updated reply =
      modify (
        change_room r.number (λ r. record r { request = updated; resolved_request = some updated }))
      >> (broadcast r.members reply none
          >> (clear_ready r.number r.members >> take_pending engine c))

  -- 3200: the owner changes the settings
  unfoldable pub change_settings : ℕ → Connection → Engine → Bytes → Action (List Message)
  change_settings engine c e p h =
      let refused : Result (List Message) × Hub = (ok (notice "[本地服务] 只有等待房间的房主可以修改设置。"), h) in
      if not (length p == 48)
      then (raised "room settings length", h)
      else elim (waiting_room c e h) [
        | none ↦ refused
        | some r ↦
            if not (r.owner == c.uid) then refused else elim (k.update_room_request (current r) p) [
              | raised why ↦ (ok (notice "[本地服务] 房间设置无效或地图不可用。"), h)
              | ok (updated, reply) ↦
                  if is_some h.public_rooms
                    && not (member (mode_of updated) (0 ∷ 1 ∷ 2 ∷ 3 ∷ 5 ∷ []))
                  then (ok (notice "[服务] 当前模式未开放。"), h)
                  else if is_some r.series && ltb 6 (capacity_of updated)
                  then (ok (notice "[本地服务] 多回合结果界面最多六名玩家。"), h)
                  else if same_request r.resolved_request updated
                  then (ok [], h)
                  else take_settings engine c r updated reply h
            ]
      ]
