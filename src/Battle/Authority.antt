-- ===== src/Battle/Authority.antt =====
-- Who may have a battle message relayed.
use kungfukid_local_server.Base.{ℕ, ◌≡◌, true, ◌⊎◌, arith, nat_eq}
use kungfukid_local_server.Base.Bytes.{Bytes}
use kungfukid_local_server.Hub.{Room}
use kungfukid_local_server.Battle.Event.{Event, Operation}
use kungfukid_local_server.Battle.Outcome.{Context, Outcome, Delivery, relay, is_own, in_members}
use kungfukid_local_server.Battle.Receipts.{decide_pickup}
use kungfukid_local_server.Battle.Hits.{decide_hit_receipt}
use kungfukid_local_server.Battle.Deaths.{decide_death_notice}
use kungfukid_local_server.Battle.Pairs.{decide_slip, decide_pair_transform}
use kungfukid_local_server.Battle.Reborn.{decide_reborn_sync}
use kungfukid_local_server.Battle.Relay.{
  decide_relay, check_identity, check_sender, check_actor, check_references, check_order, actor_of,
  host_cancel,
}
use kungfukid_local_server.Battle.SeriesFlow.{decide_series_event}
use kungfukid_local_server.Battle.Handler.{decide_at}

-- The connection is the engine's own, the engine is the member's, and the message names the member.
abbrev pub IsAuthentic : Context → Event → Type 0
IsAuthentic x d = (x.game ≡ true) × (is_own x ≡ true) × (d.sender ≡ x.uid)

module _ (x : Context) (d : Event) (r : Room) (to : Delivery) where
  series-IsAuthentic : (now : ℕ) → decide_series_event x d now ≡ relay r to → IsAuthentic x d
  unfolding decide_series_event
  series-IsAuthentic now h = ground arith

  pickup-IsAuthentic : decide_pickup x d ≡ relay r to → IsAuthentic x d
  unfolding decide_pickup
  pickup-IsAuthentic h = ground arith

  hit-IsAuthentic : decide_hit_receipt x d ≡ relay r to → IsAuthentic x d
  unfolding decide_hit_receipt
  hit-IsAuthentic h = ground arith

  death-IsAuthentic : decide_death_notice x d ≡ relay r to → IsAuthentic x d
  unfolding decide_death_notice
  death-IsAuthentic h = ground arith

  reborn-IsAuthentic : (p : Bytes) → decide_reborn_sync x d p ≡ relay r to → IsAuthentic x d
  unfolding decide_reborn_sync
  reborn-IsAuthentic p h = ground arith

  transform-IsAuthentic : (now : ℕ) → decide_pair_transform x d now ≡ relay r to → IsAuthentic x d
  unfolding decide_pair_transform
  transform-IsAuthentic now h = ground arith

  slip-IsAuthentic : decide_slip x d ≡ relay r to → IsAuthentic x d
  unfolding decide_slip
  slip-IsAuthentic h = ground arith

  relay-IsAuthentic : (p : Bytes) → decide_relay x d p ≡ relay r to → IsAuthentic x d
  unfolding decide_relay check_identity check_sender
  relay-IsAuthentic p h = ground arith

-- What holds of each handler's relays holds of all.
relayed_by :
    (x : Context) (d : Event) (p : Bytes) (owner_now first_now : ℕ) (o : Outcome) {A : Type 0}
    → (decide_series_event x d owner_now ≡ o → A)
    → (decide_pickup x d ≡ o → A)
    → (decide_hit_receipt x d ≡ o → A)
    → (decide_death_notice x d ≡ o → A)
    → (decide_reborn_sync x d p ≡ o → A)
    → (decide_pair_transform x d first_now ≡ o → A)
    → (decide_slip x d ≡ o → A)
    → (decide_relay x d p ≡ o → A)
    → decide_at x d p owner_now first_now ≡ o
    → A
unfolding decide_at
relayed_by x d p owner_now first_now o f1 f2 f3 f4 f5 f6 f7 f8 h = ground arith

-- Whichever handler relays a message, it came over the game connection of an engine that is the
-- member's own, and names that member as its sender.
pub relayed-IsAuthentic :
    (x : Context) (d : Event) (p : Bytes) (owner_now first_now : ℕ) (r : Room) (to : Delivery)
    → decide_at x d p owner_now first_now ≡ relay r to
    → IsAuthentic x d
relayed-IsAuthentic x d p owner_now first_now r to h =
    relayed_by x d p owner_now first_now (relay r to) (series-IsAuthentic x d r to owner_now)
      (pickup-IsAuthentic x d r to) (hit-IsAuthentic x d r to) (death-IsAuthentic x d r to)
      (reborn-IsAuthentic x d r to p) (transform-IsAuthentic x d r to first_now)
      (slip-IsAuthentic x d r to) (relay-IsAuthentic x d r to p) h

actor_checked :
    (x : Context) (d : Event) (rest : Outcome) (r : Room) (to : Delivery)
    → check_actor x d rest ≡ relay r to
    → (actor_of x d ≡ x.uid) ⊎ (host_cancel x d ≡ true)
unfolding check_actor
actor_checked x d rest r to h = ground arith

-- A message that the generic relay passes on is about its sender; the one exception is a Host that
-- cancels a state of a member of the room.
pub relayed_actor :
    (x : Context) (d : Event) (p : Bytes) (r : Room) (to : Delivery)
    → decide_relay x d p ≡ relay r to
    → (actor_of x d ≡ x.uid)
      ⊎ ((d.id ≡ 8150)
          × (d.operation ≡ Operation.cancel)
          × (x.uid ≡ x.room.owner)
          × (in_members d.target x.room ≡ true))
unfolding decide_relay check_identity check_sender
relayed_actor x d p r to h =
    ground (arith, actor_checked x d (check_references x d (check_order x d p)) r to)
