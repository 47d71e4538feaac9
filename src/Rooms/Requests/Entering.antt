-- ===== src/Rooms/Requests/Entering.antt =====
-- server/kk_local/room_requests.py: the directory of the rooms, and how a player opens or joins a room; the
-- whole of `handle`.
use kungfukid_local_server.Base.{
  ℕ, ◌*◌, ◌-◌, Bool, false, not, ◌&&◌, Option, none, some, List, [], ◌∷◌, ◌++◌, length, take, drop,
  map, max, all, keep_if, is_some, ltb, leb, ◌==◌, if◌then◌else◌, nat_eq, String,
}
use kungfukid_local_server.Base.Bytes.{Bytes, to_le, u8, u16, bytes_eq}
use kungfukid_local_server.Base.Dict.{lookup}
use kungfukid_local_server.Base.Exec.{ok, raised, pure, gets, lift, or_raise, modify, ◌>>=◌, ◌>>◌}
use kungfukid_local_server.Wire.{Message}
use kungfukid_local_server.Hub.{
  Hub, Action, Room, Engine, Connection, Phase, same_phase, engine_of, mode_of, fighters,
  take_pending, put_room,
}
use kungfukid_local_server.Battle.Outcome.{record_unknown}
use kungfukid_local_server.Rooms.Members.{message}
use kungfukid_local_server.Rooms.Places.{
  RoomPackets, capacity_of, observer_limit, observers, is_bound, member_bound, new_room,
}
use kungfukid_local_server.Rooms.Entry.{prepare_entry}
use kungfukid_local_server.Rooms.Install.{install, enter}
use kungfukid_local_server.Rooms.Requests.{
  sorted_rooms, is_listed, is_open, first_of, join_error, own_room, free_number, series_for,
}
use kungfukid_local_server.Rooms.Requests.Handle.{
  remove_member, change_team, change_settings, transfer_owner, time_out, go_out,
}

-- the nine rooms of a page
abbrev pub page_of : {A : Type 0} → ℕ → List A → List A
page_of page rooms = take 9 (drop ((max 1 page - 1) * 9) rooms)

-- a player that is in no room
abbrev is_free : Connection → Engine → Bool
is_free c e = same_phase c.phase Phase.lobby && not (is_some e.room)

abbrev all_bound : Hub → Room → Bool
all_bound h r = all (member_bound h) r.members

abbrev over_cap : Option ℕ → ℕ → Bool
over_cap none rooms = false
over_cap (some cap) rooms = leb cap rooms

-- the request repeats, in the room that it made
abbrev is_repeated : Connection → Option Room → Bytes → Bool
is_repeated c none p = false
is_repeated c (some r) p = same_phase c.phase Phase.in_room && bytes_eq p r.request

abbrev is_inside : Connection → Option Room → ℕ → Bool
is_inside c none number = false
is_inside c (some r) number = same_phase c.phase Phase.in_room && (r.number == number)

module _ (k : RoomPackets) where
  abbrev notice : String → List Message
  notice text = k.system_notice text ∷ []

  abbrev record_of : Hub → Room → Bytes
  record_of h r = k.room_list_record r (length (fighters r)) (observers r) (observer_limit h r)

  -- 2260: a page of the directory
  unfoldable pub list_rooms : ℕ → Connection → Bytes → Action (List Message)
  list_rooms engine c p h =
      if not (length p == 3)
      then (raised "room directory length", h)
      else if not (same_phase c.phase Phase.lobby)
      then (ok [], h)
      else if ltb 1 (u8 1 p)
      then (record_unknown engine c 2260 p >> pure (k.room_directory [] ∷ [])) h
      else let shown = keep_if (is_listed (u8 1 p) (u8 2 p)) (sorted_rooms h.rooms) in
        (ok (k.room_directory (map (record_of h) (page_of (u8 0 p) shown)) ∷ []), h)

  -- the new room, once its request is resolved and a number is free
  unfoldable pub open_room : ℕ → Connection → Bytes → Bytes → ℕ → Action (List Message)
  open_room engine c p resolved number =
      gets (λ h. new_room c.uid p number resolved (series_for h p)) >>= λ r.
      gets (λ h. prepare_entry k h r engine false) >>= λ prepared. lift prepared >>= λ e.
      modify (put_room r)
      >> (enter number engine (not (r.owner == e.owner)) e >> take_pending engine c)

  -- 3010: a player opens a room
  unfoldable pub create_room : ℕ → Connection → Engine → Bytes → Action (List Message)
  create_room engine c e p h =
      if is_repeated c (own_room e h) p
      then (ok [], h)
      else if not (is_free c e)
      then (raised "create phase", h)
      else if over_cap h.public_rooms (length h.rooms)
      then (ok (k.room_rejection "room capacity reached" ∷ []), h)
      else (lift (k.resolve_room_request p) >>= λ resolved.
            lift (k.room_entry resolved c.uid) >>= λ _.
            or_raise (free_number h) "room IDs exhausted" >>= λ number.
            if not (h.team_series_rounds == 0) && ((mode_of p == 1) && ltb 6 (capacity_of p))
            then pure (k.room_rejection "series UI limited to six fighters" ∷ [])
            else open_room engine c p resolved number)
          h

  -- 3075: a player is put in the first room that is open
  unfoldable pub join_any : ℕ → Connection → Engine → Bytes → Action (List Message)
  join_any engine c e p h =
      if not (length p == 1)
      then (raised "automatic join length", h)
      else if not (is_free c e)
      then (ok (notice "[本地服务] 请先退出当前房间。"), h)
      else elim (first_of (all_bound h) (keep_if (is_open h (u8 0 p)) (sorted_rooms h.rooms))) [
        | none ↦ (ok (notice "[本地服务] 暂无可自动加入的房间。"), h)
        | some r ↦
            if not (is_bound e)
            then (ok (notice "[本地服务] 暂无可自动加入的房间。"), h)
            else (install k r engine false >> take_pending engine c) h
      ]

  -- 3070: a player joins the room that it names
  unfoldable pub join_room : ℕ → Connection → Engine → Bytes → Action (List Message)
  join_room engine c e p h =
      let number = u16 0 p in
      let error = join_error h p (lookup number h.rooms) in
      if not (length p == 14)
      then (raised "join length", h)
      else if is_inside c (own_room e h) number
      then (ok [], h)
      else if not (is_free c e)
      then (raised "join phase", h)
      else if not (error == 0)
      then (ok (message 3080 (p ++ to_le 4 error) ∷ []), h)
      else elim (lookup number h.rooms) [
        | none ↦ (raised "no room", h)
        | some r ↦ (install k r engine (not (u8 2 p == 0)) >> take_pending engine c) h
      ]

  abbrev returned : Action (List Message) → Action (Option (List Message))
  returned m = m >>= λ out. pure (some out)

  -- `handle(engine, c, message)`; none leaves the message to another handler
  unfoldable pub handle_request : ℕ → Connection → Message → Action (Option (List Message))
  handle_request engine c msg h =
      let p = msg.payload in
      elim (engine_of engine h) [
        | none ↦ (raised "no engine", h)
        | some e ↦
            if msg.id == 2260
            then returned (list_rooms engine c p) h
            else if msg.id == 3010
            then returned (create_room engine c e p) h
            else if msg.id == 3075
            then returned (join_any engine c e p) h
            else if msg.id == 3070
            then returned (join_room engine c e p) h
            else if msg.id == 3200
            then returned (change_settings k engine c e p) h
            else if msg.id == 3230
            then returned (change_team k engine c e p) h
            else if msg.id == 3140
            then returned (remove_member k engine c e p) h
            else if msg.id == 4051
            then returned (transfer_owner engine c e p) h
            else if msg.id == 4031
            then returned (time_out engine c e p) h
            else if msg.id == 3110
            then returned (go_out engine c e p) h
            else (ok none, h)
      ]
