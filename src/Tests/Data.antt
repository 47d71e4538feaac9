-- ===== src/Tests/Data.antt =====
-- A battle of two accounts: 7, the Host, and 9.
use kungfukid_local_server.Base.{ℕ, ◌+◌, true, false, none, some, [], ◌∷◌}
use kungfukid_local_server.Base.Bytes.{Bytes}
use kungfukid_local_server.Hub.{
  Connection, Phase, Engine, Member, Stage, Room, Hub, Projectile, CombatCatalog,
}
use kungfukid_local_server.Battle.Event.{Event, header}
use kungfukid_local_server.Battle.Outcome.{Context}

abbrev pub connection : ℕ → Connection
connection uid = record { number = 10 + uid; phase = Phase.battle; uid = uid }

abbrev pub engine : ℕ → Engine
engine uid = record {
  account_uid = uid;
  game = some (connection uid);
  room = some 3;
  p2p = none;
  clock = 1000;
  per_client_outgoing = none;
  pending_messages = [];
  pending_bytes = 0;
  delivery_failed = false;
  battle_delivery_capture = none;
  consume_intents = [];
  layout_observations = [];
  unknown = [];
}

abbrev pub seat : ℕ → ℕ → Member
seat uid slot = record {
  engine = uid;
  slot = slot;
  team = slot;
  ready = true;
  spectator = false;
  activity = 0;
  registry_key = none;
  network_delay_ms = 0;
}

abbrev pub shot : Projectile
shot = record {
  owner = 9;
  source = 9;
  definition_id = 1;
  scene_id = 1;
  alive = true;
  hit_reporters = [];
}

abbrev pub room : Room
room = record {
  owner = 7;
  request = [];
  number = 3;
  serial = 5;
  stage = Stage.battle;
  members = (7, seat 7 0) ∷ (9, seat 9 1) ∷ [];
  loaded = 7 ∷ 9 ∷ [];
  input_ready = 7 ∷ 9 ∷ [];
  last_sequence = ((9, 19), 4) ∷ [];
  motion_payloads = [];
  active_states = [];
  pair_selections = [];
  pair_selection_versions = [];
  projectiles = (12, shot) ∷ [];
  pickup_requests = (9, record { key = 40; approved = true }) ∷ [];
  chest_requests = [];
  pending_hit_receipts =
      (9, record { source = 7; skill = 50; status = 1; sequence = 3; outcomes = 1 ∷ [] } ∷ []) ∷ [];
  pending_death_receipts = [];
  spawned_collectibles = [];
  resolved_request = none;
  result_reports = [];
  result_requests = [];
  result_replies = [];
  result_acks = [];
  series = none;
  battle_clock_origin = none;
  battle_clock_last = 0;
  network_probe = none;
  seat_exchange = none;
  talisman_pending = [];
  talisman_sequences = [];
  public_deadline = 0;
  battle_dispatch_cache = [];
}

abbrev pub catalog : CombatCatalog
catalog = record {
  conflicts = [];
  invalid_effect_ids = [];
  attacker_effects = [];
  safe_receipt_ids = 50 ∷ [];
  guard_break_ids = [];
}

abbrev pub guest : Context
guest = record {
  room = room;
  uid = 9;
  engine = 9;
  game = true;
  in_battle = true;
  capturing = false;
  now = 1000;
  catalog = some catalog;
}

-- 9 moves
abbrev pub move : Event
move = header 8120 9 0 0 6 0

-- 9 ends its projectile
abbrev pub shot_ends : Event
shot_ends = record (header 8404 9 1 1 0 6) { child_key = 12 }

-- 9 received the hit that 7 dealt
abbrev pub receipt : Event
receipt = record (header 8126 9 1 1 0 6) {
  target = 9;
  source = 7;
  reporter = 9;
  skill_property_id = 50;
  hit_result_status = 1;
}

-- 9 picks up what the Host approved
abbrev pub completion : Event
completion = record (header 9002 9 1 1 0 6) {
  player = some 9;
  pickup_key = 40;
  pickup_value_raw = 1;
}

abbrev pub hub : Hub
hub = record {
  engines = (7, engine 7) ∷ (9, engine 9) ∷ [];
  rooms = (3, room) ∷ [];
  suspended = [];
  invites = [];
  public_rooms = none;
  reconnect_ms = 30000;
  invite_ms = 30000;
  spectator_capacity = 8;
  team_series_rounds = 3;
  network_probe_enabled = false;
  combat_catalog = some catalog;
  queue_budget = none;
  metrics = none;
  next_battle = 6;
  permanent_battle_rewards_allowed = true;
  match_point_rewards = none;
}

abbrev pub payload : Bytes
payload = 0 ∷ 0 ∷ 0 ∷ 0 ∷ 184 ∷ 31 ∷ 0 ∷ 0 ∷ []
