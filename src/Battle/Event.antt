-- ===== src/Battle/Event.antt =====
-- The fields of a decoded battle message that the handlers read (layouts.py: decode_battle). A
-- field that the message's layout does not have is 0, `none` or empty; floats are raw words.
use kungfukid_local_server.Base.{ℕ, Bool, true, false, Option, none, List, [], ◌==◌, ◌%◌, ◌^◌}
use kungfukid_local_server.Base.Bytes.{Bytes}

pub data Operation : Type 0 where
  cancel apply unknown : Operation

pub data SpawnFamily : Type 0 where
  gem coin unknown : SpawnFamily

pub record Event : Type 0 where
  pub id : ℕ
  pub sender : ℕ
  pub flag : ℕ
  pub header_variant : ℕ
  pub sequence_15_raw : ℕ
  pub sequence_19_raw : ℕ
  pub room_pair : Option (ℕ × ℕ)
  pub attacker : Option ℕ
  pub player : Option ℕ
  pub target : ℕ
  pub source : ℕ
  pub reporter : ℕ
  pub initiator : ℕ
  pub participant : ℕ
  pub event_code_raw : ℕ
  pub value_raw : ℕ
  pub skill_property_id : ℕ
  pub attack_callback_flag : ℕ
  pub signed_hp_amount_bits : ℕ
  pub callback_mode : ℕ
  pub hit_result_status : ℕ
  pub weapon_operation_raw : ℕ
  pub ustate_code : ℕ
  pub parameter_signed : ℕ
  pub event_raw : ℕ
  pub operation : Operation
  pub spawn_family : SpawnFamily
  pub object_id : ℕ
  pub child_key : ℕ
  pub definition_id : ℕ
  pub scene_id_raw : ℕ
  pub result_state_raw : ℕ
  pub first_player : ℕ
  pub second_player : ℕ
  pub first_vector : List ℕ
  pub second_vector : List ℕ
  pub target_timeout_raw : ℕ
  pub pickup_key : ℕ
  pub pickup_value_raw : ℕ
  pub opaque_47_51 : Bytes
  pub ui_value_51_raw : ℕ
  pub interval_arguments_raw : ℕ × ℕ
  pub rows : List (ℕ × ℕ)

-- The header alone.
abbrev pub header : ℕ → ℕ → ℕ → ℕ → ℕ → ℕ → Event
header id sender flag variant lane_15 lane_19 = record {
  id = id;
  sender = sender;
  flag = flag;
  header_variant = variant;
  sequence_15_raw = lane_15;
  sequence_19_raw = lane_19;
  room_pair = none;
  attacker = none;
  player = none;
  target = 0;
  source = 0;
  reporter = 0;
  initiator = 0;
  participant = 0;
  event_code_raw = 0;
  value_raw = 0;
  skill_property_id = 0;
  attack_callback_flag = 0;
  signed_hp_amount_bits = 0;
  callback_mode = 0;
  hit_result_status = 0;
  weapon_operation_raw = 0;
  ustate_code = 0;
  parameter_signed = 0;
  event_raw = 0;
  operation = Operation.unknown;
  spawn_family = SpawnFamily.unknown;
  object_id = 0;
  child_key = 0;
  definition_id = 0;
  scene_id_raw = 0;
  result_state_raw = 0;
  first_player = 0;
  second_player = 0;
  first_vector = [];
  second_vector = [];
  target_timeout_raw = 0;
  pickup_key = 0;
  pickup_value_raw = 0;
  opaque_47_51 = [];
  ui_value_51_raw = 0;
  interval_arguments_raw = (0, 0);
  rows = [];
}

abbrev pub is_cancel : Operation → Bool
is_cancel Operation.cancel = true
is_cancel _ = false

abbrev pub is_apply : Operation → Bool
is_apply Operation.apply = true
is_apply _ = false

abbrev pub is_unknown : Operation → Bool
is_unknown Operation.unknown = true
is_unknown _ = false

-- `x != 0` of a float, from its bits: neither 0.0 nor -0.0
abbrev pub is_zero_float : ℕ → Bool
is_zero_float bits = bits % 2 ^ 31 == 0
