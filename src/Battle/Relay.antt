-- ===== src/Battle/Relay.antt =====
-- server/kk_local/battle_relay.py: the generic part of `handle`, for the messages that no other
-- handler takes. The parts are the source's checks in its order: identity, header and sequence,
-- objects and states (Relay/Objects), and then the changes (Relay/Commit). Rooms with a stage
-- battle (`room.pve`) are not modelled.
mod Objects
mod Commit
pub use Objects.{spawn_key}
unfoldable pub use Objects.{decide_object}
pub use Commit.{
  Lane, lane_15, lane_19, lane_number, sequence_of, motion_of, witnesses, note_hit, launched,
  change_projectile,
}
unfoldable pub use Commit.{commit, commit_object, note_lane, note_selection, note_witness}
use kungfukid_local_server.Base.{
  ℕ, Bool, true, false, not, ◌&&◌, ◌||◌, Option, none, some, List, [], ◌∷◌, member, ltb, leb, ◌==◌,
  if◌then◌else◌, nat_eq, pair_eq, pair_beq,
}
use kungfukid_local_server.Base.Bytes.{Bytes, bytes_eq}
use kungfukid_local_server.Base.Dict.{lookup}
use kungfukid_local_server.Hub.{Room}
use kungfukid_local_server.Battle.Event.{Event, is_cancel}
use kungfukid_local_server.Battle.Outcome.{
  Context, Outcome, reject, ignore, unknown, relay, to_others, is_own, in_members, in_fighters,
  passed, unless,
}
use kungfukid_local_server.Battle.Receipts.{room_pair_ok}

abbrev pub relayed_ids : List ℕ
relayed_ids =
    8120 ∷ 8121 ∷ 8122 ∷ 8125 ∷ 8127 ∷ 8140 ∷ 8143 ∷ 8150 ∷ 8280 ∷ 8284 ∷ 8287 ∷ 8288 ∷ 8293 ∷ 8400
    ∷ 8401 ∷ 8402 ∷ 8403 ∷ 8404 ∷ []

-- the Host cancels a member's state
abbrev pub host_cancel : Context → Event → Bool
host_cancel x d =
    (d.id == 8150)
    && (is_cancel d.operation && ((x.uid == x.room.owner) && in_members d.target x.room))

-- whom the message is about
abbrev pub actor_of : Context → Event → ℕ
actor_of x d =
    if d.id == 8121
    then d.target
    else elim d.attacker [ some a ↦ a | none ↦ elim d.player [ some p ↦ p | none ↦ x.uid ] ]

-- the sender, and what is not known rather than forged
unfoldable pub check_sender : Context → Event → Outcome → Outcome
check_sender x d rest =
    unless (x.game && (in_members x.uid x.room && is_own x)) "relay connection/member mismatch" (
      unless (d.sender == x.uid) "relay sender spoof" (
        if ((d.id == 8284) && not (member d.weapon_operation_raw (1 ∷ 2 ∷ 3 ∷ [])))
          || ((d.id == 8288) && (actor_of x d == 0))
        then unknown x.room none
        else rest))

-- whom the message may be about
unfoldable pub check_actor : Context → Event → Outcome → Outcome
check_actor x d rest =
    let actor = actor_of x d in
    if ((d.id == 8284) || (d.id == 8293)) && not (in_fighters actor x.room)
    then unknown x.room none
    else if ((d.id == 8121) || (d.id == 8150)) && (not (actor == x.uid) && not (host_cancel x d))
    then unknown x.room (some "unsupported_actor")
    else unless ((actor == x.uid) || host_cancel x d) "relay actor spoof" rest

-- state codes, targets and the battle that the message names
unfoldable pub check_references : Context → Event → Outcome → Outcome
check_references x d rest =
    unless (not (d.id == 8150) || leb d.ustate_code 255) "state code outside native byte registry" (
      unless
        (not ((d.id == 8143) || (d.id == 8280)) || ((d.target == 0) || in_members d.target x.room))
        "relay target outside current room"
        (unless (room_pair_ok d.room_pair x.room) "relay stale battle" rest))

-- the checks up to `if 'room_pair' in decoded`
unfoldable pub check_identity : Context → Event → Outcome → Outcome
check_identity x d rest = check_sender x d (check_actor x d (check_references x d rest))

-- which counter the header's pair names, if any
abbrev pub lane_of : Event → Option Lane
lane_of d =
    if pair_beq (d.flag, d.header_variant) (0, 0) && (d.id == 8120)
    then some lane_15
    else if pair_beq (d.flag, d.header_variant) (1, 1)
    then some lane_19
    else none

abbrev pub same_motion : Option Bytes → Bytes → Bool
same_motion none p = false
same_motion (some seen) p = bytes_eq seen p

-- a message that was seen, or comes after a later one
abbrev pub is_stale : Context → Event → Bytes → Lane → Bool
is_stale x d p lane_15 = elim (lookup (x.uid, 15) x.room.last_sequence) [
  | none ↦ false
  | some seen ↦
      ltb d.sequence_15_raw seen
      || ((d.sequence_15_raw == seen)
          && same_motion (lookup x.uid x.room.motion_payloads) (motion_of p))
]
is_stale x d p lane_19 = passed d.sequence_19_raw (lookup (x.uid, 19) x.room.last_sequence)

-- the header, the sequence number, the objects, and then the changes
unfoldable pub check_order : Context → Event → Bytes → Outcome
check_order x d p = elim (lane_of d) [
  | none ↦ unknown x.room (some "unsupported_header")
  | some lane ↦
      if is_stale x d p lane
      then ignore (some "sequence_stale")
      else decide_object x d (actor_of x d) (relay (commit x d p lane) to_others)
]

-- `handle` from its list of relayed ids on
unfoldable pub decide_relay : Context → Event → Bytes → Outcome
decide_relay x d p =
    if not (member d.id relayed_ids)
    then unknown x.room none
    else check_identity x d (check_order x d p)
