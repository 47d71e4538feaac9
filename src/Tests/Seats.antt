-- ===== src/Tests/Seats.antt =====
-- The theorems on the seats of a waiting room, with two members.
use kungfukid_local_server.Base.{
  ℕ, ◌≡◌, refl, ◌⊎◌, inl, inr, false, some, [], ◌∷◌, ◌==◌, nat_eq, arith, Bool-cases, replicate,
  ◌++◌,
}
use kungfukid_local_server.Base.Dict.{lookup}
use kungfukid_local_server.Base.Exec.{ok, raised}
use kungfukid_local_server.Hub.{Hub, Room, Member, Stage, Phase, Connection}
use kungfukid_local_server.Rooms.Members.{message}
use kungfukid_local_server.Rooms.Places.{RoomPackets}
use kungfukid_local_server.Rooms.Install.{install, toggle_spectator}
use kungfukid_local_server.Rooms.Seated.{
  IsSeated, IsHub, empty-IsSeated, insert-IsSeated, one_room-IsHub,
}
use kungfukid_local_server.Rooms.Seated.Changes.{install-IsHub}
use kungfukid_local_server.Rooms.Seated.Roles.{toggle_spectator-IsHub}
use kungfukid_local_server.Tests.Data.{room, hub, seat, connection}

abbrev packets : RoomPackets
packets = record {
  fighter = λ h u m. ok (u ∷ []);
  room_entry_member = λ h r owner m own. ok (message 3020 own);
  spectator_transition = λ u spectator raw. message 3095 raw;
  resolve_room_request = λ p. ok p;
  room_entry = λ p u. ok p;
  room_rejection = λ why. message 3020 [];
  update_room_request = λ old p. raised "unsupported_room_option";
  room_list_record = λ r fighters watching limit. [];
  room_directory = λ records. message 2270 [];
  system_notice = λ text. message 2100 [];
  name = λ u. [];
}

-- up to eight fight in mode 1, and watching is allowed
abbrev waiting : Room
waiting = record room {
  stage = Stage.room;
  request = replicate 34 0 ++ (1 ∷ 0 ∷ 0 ∷ 8 ∷ (replicate 8 0 ++ (1 ∷ replicate 34 0)));
}

abbrev lobby_hub : Hub
lobby_hub = record hub { rooms = (3, waiting) ∷ [] }

waiting-IsSeated : IsSeated waiting.members
waiting-IsSeated =
    insert-IsSeated 9 (seat 9 1) ((7, seat 7 0) ∷ [])
      (inr (omega arith, λ v m found fights. apart_from v m found))
      (insert-IsSeated 7 (seat 7 0) [] (inr (omega arith, λ v m found fights. ground arith))
        empty-IsSeated)
  where
    apart_from :
        (v : ℕ) (m : Member) → lookup v ((7, seat 7 0) ∷ []) ≡ some m → (v ≡ 9) ⊎ (1 ≡ m.slot → ⊥)
    apart_from v m found = elim (Bool-cases (7 == v)) [
      | inl e ↦ inr (λ same. ground (arith, e, found, same))
      | inr e ↦ ground (arith, e, found)
    ]

lobby-IsHub : IsHub lobby_hub
lobby-IsHub = one_room-IsHub lobby_hub 3 waiting refl refl waiting-IsSeated

install-IsHub_example : IsHub (install packets waiting 11 false lobby_hub).1
install-IsHub_example = install-IsHub packets waiting 11 false lobby_hub lobby-IsHub refl

abbrev member_9 : Connection
member_9 = record (connection 9) { phase = Phase.in_room }

toggle_spectator-IsHub_example :
    IsHub (toggle_spectator packets 9 member_9 (message 3091 []) lobby_hub).1
toggle_spectator-IsHub_example =
    toggle_spectator-IsHub packets 9 member_9 (message 3091 []) lobby_hub lobby-IsHub
