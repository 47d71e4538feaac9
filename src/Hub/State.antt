-- ===== src/Hub/State.antt =====
-- The records of rooms.py (Member, SharedRoom, RoomHub) and engine.py (Phase, Connection, Engine).
-- An object that the source shares by reference is named by its key: an engine by its account, a
-- room by its number, a connection by its number. Times are milliseconds of the engine's clock.
use kungfukid_local_server.Settlement.Consensus.{View}
use kungfukid_local_server.Base.{
  ℕ, Bool, true, not, ◌&&◌, ◌≡◌, ◌↔◌, arith, Eq, Option, List, ◌==◌, nat_eq, String,
}
use kungfukid_local_server.Base.Bytes.{Bytes, u8}
use kungfukid_local_server.Base.Dict.{Dict, filter_dict}
use kungfukid_local_server.Base.Exec.{Exec}
use kungfukid_local_server.Budget.{MemoryBudget}
use kungfukid_local_server.Series.{SeriesProgress}
use kungfukid_local_server.Wire.{Message}

pub data Phase : Type 0 where
  connected bootstrap profile handoff lobby in_room loading wait_ready battle closed : Phase

-- `p == q` on phases, by the position in the enum
abbrev pub phase_code : Phase → ℕ
phase_code Phase.connected = 0
phase_code Phase.bootstrap = 1
phase_code Phase.profile = 2
phase_code Phase.handoff = 3
phase_code Phase.lobby = 4
phase_code Phase.in_room = 5
phase_code Phase.loading = 6
phase_code Phase.wait_ready = 7
phase_code Phase.battle = 8
phase_code Phase.closed = 9

abbrev pub same_phase : Phase → Phase → Bool
same_phase p q = phase_code p == phase_code q

pub record Connection : Type 0 where
  pub number : ℕ
  pub phase : Phase
  pub uid : ℕ

pub record P2p : Type 0 where
  pub player : ℕ
  pub uid : ℕ
  pub expires : ℕ
  pub bound : Bool

-- A key of the Counter `unknown`: phase, message id and length.
abbrev pub UnknownKey : Type 0
UnknownKey = ℕ × ℕ × ℕ

abbrev unknown_key_beq : UnknownKey → UnknownKey → Bool
unknown_key_beq (a, b, c) (x, y, z) = (a == x) && ((b == y) && (c == z))

pub unknown_key_beq_iff : (p q : UnknownKey) → (unknown_key_beq p q ≡ true) ↔ (p ≡ q)
unknown_key_beq_iff (a, b, c) (x, y, z) = ground arith

instance abbrev pub unknown_key_eq : Eq UnknownKey
unknown_key_eq = record { beq = unknown_key_beq; beq_iff = unknown_key_beq_iff }

pub record Engine : Type 0 where
  pub account_uid : ℕ
  pub game : Option Connection
  pub room : Option ℕ
  pub p2p : Option P2p
  pub clock : ℕ
  pub per_client_outgoing : Option ℕ
  pub pending_messages : List Message
  pub pending_bytes : ℕ
  pub delivery_failed : Bool
  pub battle_delivery_capture : Option (List Message)
  pub consume_intents : Dict ℕ ℕ
  pub layout_observations : Dict ℕ ℕ
  pub unknown : Dict UnknownKey ℕ

pub record Member : Type 0 where
  pub engine : ℕ
  pub slot : ℕ
  pub team : ℕ
  pub ready : Bool
  pub spectator : Bool
  pub activity : ℕ
  pub registry_key : Option ℕ
  pub network_delay_ms : ℕ

pub data Stage : Type 0 where
  room loading wait_ready battle result : Stage

abbrev stage_code : Stage → ℕ
stage_code Stage.room = 0
stage_code Stage.loading = 1
stage_code Stage.wait_ready = 2
stage_code Stage.battle = 3
stage_code Stage.result = 4

abbrev pub same_stage : Stage → Stage → Bool
same_stage s t = stage_code s == stage_code t

-- An applied state: its source, its parameter and its event, as raw words.
abbrev pub ActiveState : Type 0
ActiveState = ℕ × ℕ × ℕ

pub record Projectile : Type 0 where
  pub owner : ℕ
  pub source : ℕ
  pub definition_id : ℕ
  pub scene_id : ℕ
  pub alive : Bool
  pub hit_reporters : List ℕ

pub record Reservation : Type 0 where
  pub key : ℕ
  pub approved : Bool

pub record HitWitness : Type 0 where
  pub source : ℕ
  pub skill : ℕ
  pub status : ℕ
  pub sequence : ℕ
  pub outcomes : List ℕ

pub record DeathWitness : Type 0 where
  pub source : ℕ
  pub skill : ℕ
  pub sequence : ℕ

-- `hub.start_identity(room)`: the roster that a pending start or exchange was made for.
pub record StartIdentity : Type 0 where
  pub owner : ℕ
  pub request : Bytes
  pub rows : List (ℕ × Option ℕ × Member)

pub record Probe : Type 0 where
  pub start : ℕ
  pub identity : StartIdentity
  pub pending : List ℕ

pub record SeatExchange : Type 0 where
  pub payload : Bytes
  pub participants : ℕ × ℕ
  pub identity : StartIdentity
  pub deadline : ℕ

-- A cached decision: the messages for each recipient, and who has had them.
pub record Dispatched : Type 0 where
  pub uid : ℕ
  pub payload : Bytes
  pub outputs : Dict ℕ (List Message)
  pub delivered : List ℕ

pub record Room : Type 0 where
  pub owner : ℕ
  pub request : Bytes
  pub number : ℕ
  pub serial : ℕ
  pub stage : Stage
  pub members : Dict ℕ Member
  pub loaded : List ℕ
  pub input_ready : List ℕ
  pub last_sequence : Dict (ℕ × ℕ) ℕ
  pub motion_payloads : Dict ℕ Bytes
  pub active_states : Dict (ℕ × ℕ) ActiveState
  pub pair_selections : Dict ℕ (ℕ × ℕ)
  pub pair_selection_versions : Dict ℕ ℕ
  pub projectiles : Dict ℕ Projectile
  pub pickup_requests : Dict ℕ Reservation
  pub chest_requests : Dict ℕ Reservation
  pub pending_hit_receipts : Dict ℕ (List HitWitness)
  pub pending_death_receipts : Dict ℕ (List DeathWitness)
  pub spawned_collectibles : Dict (ℕ × ℕ) Bytes
  pub resolved_request : Option Bytes
  pub result_reports : Dict ℕ View
  pub result_requests : List ℕ
  pub result_replies : Dict ℕ Message
  pub result_acks : List ℕ
  pub series : Option SeriesProgress
  pub battle_clock_origin : Option ℕ
  pub battle_clock_last : ℕ
  pub network_probe : Option Probe
  pub seat_exchange : Option SeatExchange
  pub talisman_pending : Dict (ℕ × ℕ) ℕ
  pub talisman_sequences : Dict (ℕ × ℕ) ℕ
  pub public_deadline : ℕ
  pub battle_dispatch_cache : List Dispatched

-- `room.fighters`
abbrev pub fighters_of : Dict ℕ Member → Dict ℕ Member
fighters_of ms = filter_dict (λ _ m. not m.spectator) ms

abbrev pub fighters : Room → Dict ℕ Member
fighters r = fighters_of r.members

-- `request[46]`, `request[37]` and `request[34]`: the game mode, how many may fight, and whether
-- watching is allowed
unfoldable pub mode_of : Bytes → ℕ
mode_of request = u8 46 request

unfoldable pub capacity_of : Bytes → ℕ
capacity_of request = u8 37 request

unfoldable pub watchable : Bytes → Bool
watchable request = not (u8 34 request == 0)

pub record Invite : Type 0 where
  pub inviter : ℕ
  pub room : ℕ
  pub serial : ℕ
  pub inviter_connection : ℕ
  pub recipient_connection : ℕ
  pub expires : ℕ

-- What combat_catalog.py answers about a skill.
pub record CombatCatalog : Type 0 where
  pub conflicts : List ℕ
  pub invalid_effect_ids : List ℕ
  pub attacker_effects : List ℕ
  pub safe_receipt_ids : List ℕ
  pub guard_break_ids : List ℕ

pub record Hub : Type 0 where
  pub engines : Dict ℕ Engine
  pub rooms : Dict ℕ Room
  pub suspended : Dict ℕ ℕ
  pub invites : Dict ℕ Invite
  pub public_rooms : Option ℕ
  pub reconnect_ms : ℕ
  pub invite_ms : ℕ
  pub spectator_capacity : ℕ
  pub team_series_rounds : ℕ
  pub network_probe_enabled : Bool
  pub combat_catalog : Option CombatCatalog
  pub queue_budget : Option MemoryBudget
  pub metrics : Option (List (ℕ × String × ℕ))
  pub next_battle : ℕ
  pub permanent_battle_rewards_allowed : Bool
  pub match_point_rewards : Option (Dict ℕ ℕ)

-- An operation of the hub that may raise ProtocolError.
abbrev pub Action : Type 0 → Type 0
Action A = Exec Hub A
