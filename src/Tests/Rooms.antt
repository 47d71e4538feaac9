-- ===== src/Tests/Rooms.antt =====
-- The theorems on waiting rooms, leases and deliveries, at concrete inputs.
use kungfukid_local_server.Base.{
  ℕ, ◌≤◌, ◌≡◌, ◌≢◌, refl, not, ◌&&◌, ◌⊎◌, [], ◌∷◌, length, member, arith, nat_eq, if◌then◌else◌,
  any,
}
use kungfukid_local_server.Wire.{Message}
use kungfukid_local_server.Hub.{Dispatched, Room, Hub, Stage}
use kungfukid_local_server.Battle.Dispatch.{cache_dispatched}
use kungfukid_local_server.Battle.Delivery.{sent_over, due_once, cache_dispatched-bound}
use kungfukid_local_server.Rooms.Leave.{forget, elect}
use kungfukid_local_server.Rooms.Forgotten.{IsForgotten, forget-IsForgotten}
use kungfukid_local_server.Rooms.Election.{candidates, IsLowest, elect-IsLowest}
use kungfukid_local_server.Leases.{ConnectionBudget, open_budget, acquire, promote, end_lease}
use kungfukid_local_server.Leases.Counts.{
  IsCounted, acquire-IsCounted, promote-IsCounted, end_lease-IsCounted,
}
use kungfukid_local_server.Tests.Data.{hub, room, payload, seat}

abbrev note : Message
note = record { id = 8071; payload = payload }

abbrev entry : Dispatched
entry = record {
  uid = 9;
  payload = payload;
  outputs = (7, note ∷ []) ∷ (8, note ∷ []) ∷ [];
  delivered = 8 ∷ [];
}

due_once_example : sent_over 7 entry ((8 ∷ []) ∷ (7 ∷ 8 ∷ []) ∷ (7 ∷ []) ∷ []) ≡ (
    if any (member 7) ((8 ∷ []) ∷ (7 ∷ 8 ∷ []) ∷ (7 ∷ []) ∷ []) && not (member 7 (8 ∷ []))
    then (note ∷ []) ∷ []
    else [])
due_once_example = due_once ((8 ∷ []) ∷ (7 ∷ 8 ∷ []) ∷ (7 ∷ []) ∷ []) entry 7

cache_dispatched-bound_example : length (cache_dispatched entry (entry ∷ [])) ≤ 128
cache_dispatched-bound_example = cache_dispatched-bound entry (entry ∷ [])

forget-IsForgotten_example : IsForgotten 9 room (forget 9 room)
forget-IsForgotten_example = forget-IsForgotten 9 room

abbrev left_by_host : Room
left_by_host = record room { members = (9, seat 9 1) ∷ [] }

elect-IsLowest_example :
    ((left_by_host.owner ≢ 7) × (elect 7 left_by_host ≡ left_by_host.owner))
    ⊎ ((left_by_host.owner ≡ 7)
        × (slot : ℕ) × IsLowest (elect 7 left_by_host) slot (candidates left_by_host))
elect-IsLowest_example = elect-IsLowest 7 left_by_host (omega arith)

abbrev connections : ConnectionBudget
connections = open_budget (record {
  pending_connections = 64;
  pending_per_ip = 8;
  authenticated_connections = 400;
  connections_per_uid = 4;
})

connections-IsCounted : IsCounted connections
connections-IsCounted = record {
  held = refl;
  held_at = λ peer. refl;
  seated = refl;
  seated_as = λ uid. refl;
  few_held = omega arith;
  few_held_at = λ peer. omega arith;
  few_seated = omega arith;
  few_seated_as = λ uid. omega arith;
}

acquire-IsCounted_example : IsCounted (acquire 1 5 connections).1
acquire-IsCounted_example = acquire-IsCounted 1 5 connections refl connections-IsCounted

promote-IsCounted_example : IsCounted (promote 1 7 (acquire 1 5 connections).1).1
promote-IsCounted_example =
    promote-IsCounted 1 7 (acquire 1 5 connections).1 acquire-IsCounted_example

end_lease-IsCounted_example :
    let b = (promote 1 7 (acquire 1 5 connections).1).1 in
    IsCounted (end_lease 1 b).1 × ((end_lease 1 (end_lease 1 b).1).1 ≡ (end_lease 1 b).1)
end_lease-IsCounted_example =
    end_lease-IsCounted 1 (promote 1 7 (acquire 1 5 connections).1).1 promote-IsCounted_example

-- the fighters 7 and 9 take input
abbrev ready_room : Room
ready_room = record room { stage = Stage.wait_ready }

abbrev ready_hub : Hub
ready_hub = record hub { rooms = (3, ready_room) ∷ [] }
