-- ===== src/Tests/Clock.antt =====
-- The clock of a running battle, polled one second after its start.
use kungfukid_local_server.Base.{ℕ, ◌≡◌, refl, some, [], ◌∷◌, nat_eq, arith}
use kungfukid_local_server.Base.Dict.{lookup}
use kungfukid_local_server.Hub.{Room, Hub, enqueue, queue, broadcast}
use kungfukid_local_server.Rooms.Clock.{poll_battle_clock, tick}
use kungfukid_local_server.Rooms.Ticking.{RunsOn, poll-RunsOn}
use kungfukid_local_server.Tests.Data.{room, hub, connection}

abbrev running : Room
running = record room { battle_clock_origin = some 0 }

abbrev running_hub : Hub
running_hub = record hub { rooms = (3, running) ∷ [] }

one_second :
    lookup 3 (poll_battle_clock 7 (connection 7) running_hub).1.rooms
    ≡ some (record running { battle_clock_last = 1 })
unfolding poll_battle_clock tick broadcast queue enqueue
one_second = ground arith

running-keyed : (j : ℕ) (s : Room) → lookup j running_hub.rooms ≡ some s → s.number ≡ j
running-keyed j s e = ground arith

poll-RunsOn_example :
    RunsOn running (lookup 3 (poll_battle_clock 7 (connection 7) running_hub).1.rooms)
poll-RunsOn_example = poll-RunsOn 7 (connection 7) running_hub 3 running running-keyed refl
