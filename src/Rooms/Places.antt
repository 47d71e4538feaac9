-- ===== src/Rooms/Places.antt =====
-- server/kk_local/rooms.py: the places of a room; server/kk_local/packets.py: TEAM_MODES. What the builders
-- of packets.py make of a room is a parameter of the modules that send it.
use kungfukid_local_server.Base.{
  ℕ, zero, suc, ◌+◌, ◌*◌, ◌-◌, Bool, false, not, ◌&&◌, ◌||◌, Option, none, some, List, [], ◌∷◌,
  length, member, is_some, ◌==◌, if◌then◌else◌, nat_eq, String,
}
use kungfukid_local_server.Base.Bytes.{Bytes, u8}
use kungfukid_local_server.Base.Dict.{Dict}
use kungfukid_local_server.Base.Exec.{Result}
use kungfukid_local_server.Wire.{Message}
use kungfukid_local_server.Series.{SeriesProgress}
use kungfukid_local_server.Hub.{
  Hub, Room, Member, Engine, Stage, fighters, mode_of, watchable, engine_of,
}
use kungfukid_local_server.Rooms.Members.{p2p_alive}
use kungfukid_local_server.Rooms.Barriers.{is_team_mode}

-- what packets.py, chat.py and the store make of a room and its members
pub record RoomPackets : Type 0 where
  pub fighter : Hub → ℕ → Member → Result Bytes
  pub room_entry_member : Hub → Room → ℕ → Member → Bytes → Result Message
  pub spectator_transition : ℕ → Bool → Bytes → Message
  pub resolve_room_request : Bytes → Result Bytes
  pub room_entry : Bytes → ℕ → Result Bytes
  pub room_rejection : String → Message
  pub update_room_request : Bytes → Bytes → Result (Bytes × Message)
  pub room_list_record : Room → ℕ → ℕ → ℕ → Bytes
  pub room_directory : List Bytes → Message
  pub system_notice : String → Message
  pub name : ℕ → Bytes

-- `request[37]`, how many may fight
abbrev pub capacity_of : Bytes → ℕ
capacity_of request = u8 37 request

-- the labels of the fighters, but for one of them
abbrev pub used : (Member → ℕ) → Option ℕ → Dict ℕ Member → List ℕ
used label exclude [] = []
used label exclude ((u, m) ∷ ms) =
    let rest = used label exclude ms in
    if m.spectator || elim exclude [ none ↦ false | some x ↦ u == x ] then rest else label m ∷ rest

-- `next((i for i in range(i, i + n) if i not in taken), None)`
abbrev pub first_free : List ℕ → ℕ → ℕ → Option ℕ
first_free taken i zero = none
first_free taken i (suc n) =
    let rest = first_free taken (i + 1) n in if member i taken then rest else some i

abbrev pub slot_label : Member → ℕ
slot_label m = m.slot

-- `m.slot if m.registry_key is None else m.registry_key`
abbrev pub key_label : Member → ℕ
key_label m = elim m.registry_key [ none ↦ m.slot | some key ↦ key ]

-- `next(i for i in range(8) if i not in {m.slot for m in room.fighters.values()})`
unfoldable pub free_slot : Dict ℕ Member → Option ℕ
free_slot ms = first_free (used slot_label none ms) 0 8

-- `position_key(room, team, slot, exclude=…)`: in a team mode a place in the bank of the team
unfoldable pub position_key : Bytes → Dict ℕ Member → ℕ → ℕ → Option ℕ → Option ℕ
position_key request ms team slot exclude =
    if not (is_team_mode (mode_of request))
    then some slot
    else first_free (used key_label exclude ms) (4 * team) 4

-- `observer_limit(room)`
abbrev pub observer_limit : Hub → Room → ℕ
observer_limit h r =
    if not (is_some r.series) && ((mode_of r.request == 1) && watchable r.request)
    then h.spectator_capacity
    else 0

abbrev pub observers : Room → ℕ
observers r = length r.members - length (fighters r)

-- `engine.p2p_alive() and engine.p2p.get('bound')`
abbrev pub is_bound : Engine → Bool
is_bound e = p2p_alive e && elim e.p2p [ none ↦ false | some lease ↦ lease.bound ]

-- the same of a member's engine
abbrev pub member_bound : Hub → ℕ × Member → Bool
member_bound h (_, m) = elim (engine_of m.engine h) [ none ↦ false | some e ↦ is_bound e ]

-- `SharedRoom(uid, p, number, resolved_request=…, series=…)`
abbrev pub new_room : ℕ → Bytes → ℕ → Bytes → Option SeriesProgress → Room
new_room owner request number resolved series = record {
  owner = owner;
  request = request;
  number = number;
  serial = 0;
  stage = Stage.room;
  members = [];
  loaded = [];
  input_ready = [];
  last_sequence = [];
  motion_payloads = [];
  active_states = [];
  pair_selections = [];
  pair_selection_versions = [];
  projectiles = [];
  pickup_requests = [];
  chest_requests = [];
  pending_hit_receipts = [];
  pending_death_receipts = [];
  spawned_collectibles = [];
  resolved_request = some resolved;
  result_reports = [];
  result_requests = [];
  result_replies = [];
  result_acks = [];
  series = series;
  battle_clock_origin = none;
  battle_clock_last = 0;
  network_probe = none;
  seat_exchange = none;
  talisman_pending = [];
  talisman_sequences = [];
  public_deadline = 0;
  battle_dispatch_cache = [];
}
