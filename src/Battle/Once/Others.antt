-- ===== src/Battle/Once/Others.antt =====
-- The handlers other than the generic relay: the same message, decided again in the room that
-- relaying it left, is passed over.
use kungfukid_local_server.Base.{◌⊎◌, inl, inr, ℕ, ◌≡◌, none, some, arith, nat_eq, pair_eq}
use kungfukid_local_server.Base.Dict.{lookup, insert, lookup-insert}
use kungfukid_local_server.Hub.{Room}
use kungfukid_local_server.Battle.Event.{Event}
use kungfukid_local_server.Battle.Outcome.{Context, Delivery, relay, ignore}
use kungfukid_local_server.Battle.Receipts.{
  decide_pickup, pickup_request, pickup_response, pickup_completion, no_player,
}
use kungfukid_local_server.Battle.Hits.{decide_hit_receipt, decide_fresh_receipt}
use kungfukid_local_server.Battle.Pairs.{decide_slip, decide_pair_transform}
use kungfukid_local_server.Battle.Deaths.{decide_death_notice}

-- The same context with the room that a decision left.
abbrev pub after : Context → Room → Context
after x r = record x { room = r }

module _ (x : Context) (d : Event) (r : Room) (to : Delivery) where
  pub noted :
      lookup (x.uid, 19) (insert (x.uid, 19) d.sequence_19_raw x.room.last_sequence)
      ≡ some d.sequence_19_raw
  noted =
      ground (arith, lookup-insert (x.uid, 19) (x.uid, 19) d.sequence_19_raw x.room.last_sequence)

  pub death_once :
      decide_death_notice x d ≡ relay r to → decide_death_notice (after x r) d ≡ ignore none
  unfolding decide_death_notice
  death_once h = ground (arith, noted)

-- What every relayed message leaves: the same roster and battle, and its number noted.
abbrev pub IsNoted : Context → Event → Room → Type 0
IsNoted x d r =
    (r.members ≡ x.room.members)
    × (r.number ≡ x.room.number)
    × (r.serial ≡ x.room.serial)
    × (r.owner ≡ x.room.owner)
    × (r.last_sequence ≡ insert (x.uid, 19) d.sequence_19_raw x.room.last_sequence)

module _ (x : Context) (d : Event) (r : Room) (to : Delivery) where
  request-IsNoted : (actor : ℕ) → pickup_request x d actor ≡ relay r to → IsNoted x d r
  unfolding pickup_request
  request-IsNoted actor h = ground arith

  response-IsNoted : (actor : ℕ) → pickup_response x d actor ≡ relay r to → IsNoted x d r
  unfolding pickup_response
  response-IsNoted actor h = ground arith

  completion-IsNoted : (actor : ℕ) → pickup_completion x d actor ≡ relay r to → IsNoted x d r
  unfolding pickup_completion
  completion-IsNoted actor h = ground arith

  pickup-part :
      decide_pickup x d ≡ relay r to
      → let actor = no_player d.player in
        (pickup_request x d actor ≡ relay r to)
        ⊎ (pickup_response x d actor ≡ relay r to)
        ⊎ (pickup_completion x d actor ≡ relay r to)
  unfolding decide_pickup
  pickup-part h = ground arith

  pickup-IsNoted : decide_pickup x d ≡ relay r to → IsNoted x d r
  pickup-IsNoted h = elim (pickup-part h) [
    | inl asked ↦ request-IsNoted (no_player d.player) asked
    | inr (inl answered) ↦ response-IsNoted (no_player d.player) answered
    | inr (inr done) ↦ completion-IsNoted (no_player d.player) done
  ]

  pub pickup_once : decide_pickup x d ≡ relay r to → decide_pickup (after x r) d ≡ ignore none
  unfolding decide_pickup
  pickup_once h = ground (arith, noted x d r to, pickup-IsNoted h)

  hit-IsNoted : decide_fresh_receipt x d ≡ relay r to → IsNoted x d r
  unfolding decide_fresh_receipt
  hit-IsNoted h = ground arith

  pub hit_once :
      decide_hit_receipt x d ≡ relay r to
      → decide_hit_receipt (after x r) d ≡ ignore (some "sequence_stale")
  unfolding decide_hit_receipt
  hit_once h = ground (arith, noted x d r to, hit-IsNoted)

  pub slip_once : decide_slip x d ≡ relay r to → decide_slip (after x r) d ≡ ignore none
  unfolding decide_slip
  slip_once h = ground (arith, noted x d r to)

  pub transform_once :
      (now : ℕ)
      → decide_pair_transform x d now ≡ relay r to
      → decide_pair_transform (after x r) d now ≡ ignore none
  unfolding decide_pair_transform
  transform_once now h = ground (arith, noted x d r to)
