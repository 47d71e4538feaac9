-- ===== src/Rooms/Entry.antt =====
-- server/kk_local/room_lifecycle.py: what `install` makes ready before it changes anything.
use kungfukid_local_server.Base.{
  ℕ, ◌-◌, ◌%◌, Bool, true, false, not, ◌&&◌, Option, none, some, List, [], ◌∷◌, length, leb,
  if◌then◌else◌, nat_eq,
}
use kungfukid_local_server.Base.Bytes.{Bytes}
use kungfukid_local_server.Base.Dict.{Dict, lookup}
use kungfukid_local_server.Base.Exec.{Result, ok, raised}
use kungfukid_local_server.Base.Fallible.{◌>>=◌}
use kungfukid_local_server.Wire.{Message}
use kungfukid_local_server.Hub.{Hub, Room, Member, Stage, same_stage, fighters}
use kungfukid_local_server.Rooms.Places.{
  RoomPackets, capacity_of, free_slot, position_key, observer_limit, observers,
}

-- a member that has prepared to enter: itself, its record, the records of the others, the new owner and
-- the message of the room
pub record Entry : Type 0 where
  pub new : Member
  pub own : Bytes
  pub peers : List (ℕ × (Member × Bytes))
  pub owner : ℕ
  pub entry : Message

abbrev seat_of : ℕ → ℕ → ℕ → Bool → Option ℕ → Member
seat_of engine slot team spectator key = record {
  engine = engine;
  slot = slot;
  team = team;
  ready = false;
  spectator = spectator;
  activity = 0;
  registry_key = key;
  network_delay_ms = 0;
}

-- the place in the bank of the slot's own team, or in the other one
abbrev pub choose_bank : ℕ → ℕ → Option ℕ → Option ℕ → Result Member
choose_bank uid slot (some key) other = ok (seat_of uid slot (slot % 2) false (some key))
choose_bank uid slot none (some key) = ok (seat_of uid slot (1 - slot % 2) false (some key))
choose_bank uid slot none none = raised "no room position key available"

unfoldable pub seat_in : Room → ℕ → ℕ → Result Member
seat_in r uid slot =
    choose_bank uid slot (position_key r.request r.members (slot % 2) slot none)
      (position_key r.request r.members (1 - slot % 2) slot none)

-- the new member
unfoldable pub new_member : Room → ℕ → Bool → Result Member
new_member r uid true = ok (seat_of uid 8 0 true (some 8))
new_member r uid false = elim (free_slot r.members) [
  | none ↦ raised "no free slot"
  | some slot ↦ seat_in r uid slot
]

abbrev pub is_full : Hub → Room → Bool → Bool
is_full h r spectator =
    if spectator
    then leb (observer_limit h r) (observers r)
    else leb (capacity_of r.request) (length (fighters r))

abbrev pub has_spectator : ℕ → Dict ℕ Member → Bool
has_spectator u ms = elim (lookup u ms) [ none ↦ false | some m ↦ m.spectator ]

-- the owner after a fighter has come to a room that a spectator owns
abbrev pub owner_with : Room → ℕ → Bool → ℕ
owner_with r uid spectator =
    if has_spectator r.owner r.members && not spectator then uid else r.owner

abbrev pub Peer : Type 0
Peer = ℕ × (Member × Bytes)

module _ (k : RoomPackets) where
  -- `[(u, m, hub.fighter(u, m)) for u, m in …]`
  unfoldable pub records : Hub → Dict ℕ Member → Result (List Peer)
  records h [] = ok []
  records h ((u, m) ∷ ms) =
      k.fighter h u m >>= λ raw. records h ms >>= λ rest. ok ((u, (m, raw)) ∷ rest)

  abbrev entry_of : Room → ℕ → Bool → Member → Bytes → List Peer → Message → Entry
  entry_of r uid spectator new own peers entry = record {
    new = new;
    own = own;
    peers = peers;
    owner = owner_with r uid spectator;
    entry = entry;
  }

  -- the records of the new member and of the others, and the message of the room
  unfoldable pub complete : Hub → Room → ℕ → Bool → Member → Result Entry
  complete h r uid spectator new = k.fighter h uid new >>= λ own. records h r.members >>= λ peers.
      k.room_entry_member h r (owner_with r uid spectator) new own >>= λ entry.
      ok (entry_of r uid spectator new own peers entry)

  unfoldable pub prepare_entry : Hub → Room → ℕ → Bool → Result Entry
  prepare_entry h r uid spectator =
      if not (same_stage r.stage Stage.room && not (is_full h r spectator))
      then raised "room is full or already loading"
      else new_member r uid spectator >>= complete h r uid spectator
