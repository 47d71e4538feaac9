-- ===== src/Battle/Receipts.antt =====
-- server/kk_local/battle_receipts.py: pickups, hit receipts and death notices; and what
-- combat_catalog.py answers about a skill.
mod Witnesses
pub mod Reservations
pub use Witnesses.*
use kungfukid_local_server.Base.{
  ℕ, Bool, true, false, not, ◌&&◌, ◌||◌, Option, none, some, List, [], ◌∷◌, ◌++◌, length, drop, ◌+◌,
  member, ltb, ◌==◌, if◌then◌else◌, nat_eq, pair_eq, pair_beq,
}
use kungfukid_local_server.Base.Bytes.{Bytes, to_le, bytes_eq}
use kungfukid_local_server.Base.Dict.{Dict, lookup, insert, erase}
use kungfukid_local_server.Hub.{Room, Reservation, HitWitness, DeathWitness, CombatCatalog}
use kungfukid_local_server.Battle.Event.{Event}
use kungfukid_local_server.Battle.Outcome.{
  Context, Outcome, reject, ignore, unknown, relay, to_one, to_others, is_own, in_members,
  in_fighters, is_generic, passed, unless,
}

abbrev pub no_player : Option ℕ → ℕ
no_player none = 0
no_player (some p) = p

-- the reservations of world pickups (9000..9002) or of chests (9500..9502)
abbrev pub requests_of : ℕ → Room → Dict ℕ Reservation
requests_of ident r = if ltb ident 9500 then r.pickup_requests else r.chest_requests

abbrev pub put_requests : ℕ → Dict ℕ Reservation → Room → Room
put_requests ident d r =
    if ltb ident 9500 then record r { pickup_requests = d } else record r { chest_requests = d }

-- `room.last_sequence[(uid, 19)] = sequence`
abbrev pub note_sequence : ℕ → ℕ → Room → Room
note_sequence uid sequence r = record r {
  last_sequence = insert (uid, 19) sequence r.last_sequence;
}

-- some request other than `actor`'s has been approved for `item`
abbrev pub approved_by_other : ℕ → ℕ → Dict ℕ Reservation → Bool
approved_by_other actor item [] = false
approved_by_other actor item ((who, r) ∷ d) =
    (not (who == actor) && ((r.key == item) && r.approved)) || approved_by_other actor item d

abbrev pub approved_by_any : ℕ → Dict ℕ Reservation → Bool
approved_by_any item [] = false
approved_by_any item ((who, r) ∷ d) = ((r.key == item) && r.approved) || approved_by_any item d

abbrev pub holds : ℕ → Option Reservation → Bool
holds item none = false
holds item (some r) = r.key == item

abbrev pub is_pending : Option Reservation → Bool
is_pending none = false
is_pending (some r) = not r.approved

abbrev pub is_approved : Option Reservation → Bool
is_approved none = false
is_approved (some r) = r.approved

-- a member asks for a pickup (value 1), or gives its request up (value 0)
unfoldable pub pickup_request : Context → Event → ℕ → Outcome
pickup_request x d actor =
    let r = x.room in
    let requests = requests_of d.id r in
    let prior = lookup actor requests in
    unless ((actor == x.uid) && ltb d.pickup_value_raw 2) "pickup request identity/value" (
      if d.pickup_value_raw == 1
      then (if (x.uid == r.owner) || not (elim prior [ none ↦ true | some _ ↦ false ])
          then ignore none
          else relay
              (note_sequence x.uid d.sequence_19_raw (
                put_requests d.id
                  (insert actor (record { key = d.pickup_key; approved = false }) requests) r))
              (to_one r.owner))
      else if not (holds d.pickup_key prior)
      then ignore none
      else relay
          (note_sequence x.uid d.sequence_19_raw (put_requests d.id (erase actor requests) r))
          (to_one r.owner))

-- the Host approves or declines a pending request
unfoldable pub pickup_response : Context → Event → ℕ → Outcome
pickup_response x d actor =
    let r = x.room in
    let requests = requests_of d.id r in
    let prior = lookup actor requests in
    unless ((x.uid == r.owner) && ltb d.pickup_value_raw 2)
      "pickup response requires Host and boolean result"
      (if not (holds d.pickup_key prior && is_pending prior)
        then ignore none
        else if d.pickup_value_raw == 1
        then unless (not (approved_by_other actor d.pickup_key requests)) "pickup already reserved"
            (relay
              (note_sequence x.uid d.sequence_19_raw (
                put_requests d.id
                  (insert actor (record { key = d.pickup_key; approved = true }) requests) r))
              to_others)
        else relay
            (note_sequence x.uid d.sequence_19_raw (put_requests d.id (erase actor requests) r))
            to_others)

-- a member reports a pickup as done
unfoldable pub pickup_completion : Context → Event → ℕ → Outcome
pickup_completion x d actor =
    let r = x.room in
    let requests = requests_of d.id r in
    let prior = lookup actor requests in
    let done =
      relay (note_sequence x.uid d.sequence_19_raw (put_requests d.id (erase actor requests) r))
        to_others in
    unless ((actor == x.uid) && (d.pickup_value_raw == 1)) "pickup completion identity/value" (
      if not (x.uid == r.owner)
      then unless (holds d.pickup_key prior && is_approved prior)
          "pickup completion without Host approval" done
      else unless (not (approved_by_any d.pickup_key requests))
          "Host pickup conflicts with reservation" done)

abbrev pub room_pair_ok : Option (ℕ × ℕ) → Room → Bool
room_pair_ok none r = true
room_pair_ok (some p) r = pair_beq p (r.number, r.serial)

-- `handle_pickup`
unfoldable pub decide_pickup : Context → Event → Outcome
decide_pickup x d =
    let actor = no_player d.player in
    let request_id = if ltb d.id 9500 then 9000 else 9500 in
    unless (x.game && (in_members x.uid x.room && is_own x)) "pickup connection/member mismatch" (
      unless (d.sender == x.uid) "pickup sender spoof" (
        unless (room_pair_ok d.room_pair x.room) "pickup stale battle" (
          unless (is_generic d) "pickup header variant" (
            unless (in_members actor x.room) "pickup actor outside room" (
              if passed d.sequence_19_raw (lookup (x.uid, 19) x.room.last_sequence)
              then ignore none
              else if d.id == request_id
              then pickup_request x d actor
              else if d.id == request_id + 1
              then pickup_response x d actor
              else pickup_completion x d actor)))))
