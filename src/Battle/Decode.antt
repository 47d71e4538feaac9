-- ===== src/Battle/Decode.antt =====
-- server/kk_local/layouts.py: decode_battle. Slices that no handler reads are not kept; every check
-- that can refuse a message is.
pub mod Named
use kungfukid_local_server.Base.{
  ℕ, ◌+◌, ◌*◌, ◌/◌, ◌%◌, ◌^◌, Bool, not, ◌||◌, ◌&&◌, Option, none, some, List, [], ◌∷◌, ◌++◌, map,
  length, all, any, ltb, ◌==◌, if◌then◌else◌, nat_eq,
}
use kungfukid_local_server.Base.Bytes.{Bytes, slice, u8, u32, u64}
use kungfukid_local_server.Base.Dict.{Dict, lookup}
use kungfukid_local_server.Base.Exec.{Result, ok, raised}
use kungfukid_local_server.Battle.Event.{Event, Operation, SpawnFamily, header}

-- BATTLE_LENGTHS
abbrev pub battle_lengths : Dict ℕ ℕ
battle_lengths =
    (0x1fb8, 108)
    ∷ (0x1fb9, 94)
    ∷ (8126, 71)
    ∷ (0x1fcc, 103)
    ∷ (0x1fd6, 87)
    ∷ (0x2062, 75)
    ∷ (8122, 51)
    ∷ (8125, 53)
    ∷ (8142, 59)
    ∷ (8276, 51)
    ∷ (8278, 55)
    ∷ (8286, 55)
    ∷ (8293, 51)
    ∷ (8127, 63)
    ∷ (8143, 59)
    ∷ (8144, 115)
    ∷ (8270, 87)
    ∷ (8280, 55)
    ∷ (8282, 47)
    ∷ (8284, 75)
    ∷ (8155, 334)
    ∷ (8157, 55)
    ∷ (8287, 63)
    ∷ (8288, 55)
    ∷ (8294, 47)
    ∷ (8295, 39)
    ∷ (8296, 43)
    ∷ (8297, 39)
    ∷ (8395, 39)
    ∷ (8396, 43)
    ∷ (8421, 139)
    ∷ (8452, 63)
    ∷ (8400, 131)
    ∷ (8401, 123)
    ∷ (8402, 123)
    ∷ (8403, 119)
    ∷ (8404, 51)
    ∷ (9000, 63)
    ∷ (9001, 63)
    ∷ (9002, 63)
    ∷ (9500, 55)
    ∷ (9501, 55)
    ∷ (9502, 55)
    ∷ (0x20ca, 64)
    ∷ (0x20cd, 64)
    ∷ (0x20f8, 71)
    ∷ (0x20f9, 47)
    ∷ (0x2102, 59)
    ∷ (0x2103, 47)
    ∷ []

-- `math.isfinite` of a 32-bit float, from its bits
abbrev pub is_finite : ℕ → Bool
is_finite bits = not (bits / 2 ^ 23 % 256 == 255)

-- the offsets of `n` consecutive floats
abbrev pub floats : ℕ → ℕ → List ℕ
floats offset ℕ.zero = []
floats offset (ℕ.suc n) = offset ∷ floats (offset + 4) n

-- `finite(struct.unpack_from(…))` at each offset
abbrev pub finite : List ℕ → Bytes → Event → Result Event
finite offsets bytes e =
    if all (λ i. is_finite (u32 i bytes)) offsets then ok e else raised "nonfinite battle value"

-- `matrix_payload(data, offset)`: four vectors of three floats, sixteen bytes apart
abbrev pub matrix : ℕ → List ℕ
matrix offset =
    floats offset 3
    ++ (floats (offset + 16) 3 ++ (floats (offset + 32) 3 ++ floats (offset + 48) 3))

abbrev pair : ℕ → Bytes → ℕ × ℕ
pair i p = (u32 i p, u32 (i + 4) p)

abbrev words : ℕ → ℕ → Bytes → List ℕ
words i n p = map (λ j. u32 j p) (floats i n)

-- rows of 8155: slot and player
abbrev roster_rows : Bytes → List (ℕ × ℕ)
roster_rows p = map (λ slot. (slot, u64 (46 + 36 * slot) p)) (0 ∷ 1 ∷ 2 ∷ 3 ∷ 4 ∷ 5 ∷ 6 ∷ 7 ∷ [])

abbrev operation_of : ℕ → Operation
operation_of action =
    if action == 0
    then Operation.cancel
    else if action == 1
    then Operation.apply
    else Operation.unknown

abbrev family_of : ℕ → SpawnFamily
family_of kind =
    if (kind == 1) || (kind == 2)
    then SpawnFamily.gem
    else if kind == 3
    then SpawnFamily.coin
    else SpawnFamily.unknown

-- a layout whose first field after the header is the acting player
abbrev acting : Event → Bytes → Event
acting e p = record e { player = some (u64 39 p) }

-- the layouts from 8120 to 8150
decode_action : Bytes → Event → Result Event
decode_action p e =
    if e.id == 0x1fb8
    then finite (floats 51 3 ++ (floats 63 3 ++ floats 87 2)) p (record e { target = u64 75 p })
    else if e.id == 0x1fb9
    then finite (67 ∷ floats 72 3) p (record e {
      target = u64 39 p;
      source = u64 47 p;
      skill_property_id = u32 56 p;
      attack_callback_flag = u8 65 p;
      signed_hp_amount_bits = u32 67 p;
      callback_mode = u8 84 p;
      hit_result_status = u8 85 p;
      room_pair = some (pair 86 p);
    })
    else if e.id == 8126
    then ok (record e {
      reporter = u64 39 p;
      target = u64 47 p;
      source = u64 55 p;
      skill_property_id = u32 63 p;
      hit_result_status = u32 67 p;
    })
    else if (e.id == 8122) || (e.id == 8125)
    then ok (acting e p)
    else if e.id == 8142
    then ok (record e { room_pair = some (pair 51 p) })
    else if e.id == 8127
    then finite (51 ∷ []) p (record e { player = some (u64 39 p); room_pair = some (pair 55 p) })
    else if e.id == 8143
    then ok
        (record e { player = some (u64 39 p); target = u64 47 p; target_timeout_raw = u32 55 p })
    else if e.id == 8144
    then finite (floats 55 6 ++ floats 83 6) p
        (record e { first_player = u64 39 p; second_player = u64 47 p })
    else if e.id == 0x1fcc
    then finite (floats 63 3) p
        (record e { attacker = some (u64 39 p); room_pair = some (pair 95 p) })
    else if e.id == 0x1fd6
    then ok (record e {
      player = some (u64 39 p);
      source = u64 47 p;
      target = u64 39 p;
      ustate_code = u32 55 p;
      parameter_signed = u32 59 p;
      event_raw = u32 63 p;
      operation = operation_of (u32 75 p);
      room_pair = some (pair 79 p);
    })
    else ok e

-- the layouts from 8155 to 8297
decode_mode : Bytes → Event → Result Event
decode_mode p e =
    if e.id == 8270
    then finite (floats 55 8) p (record e {
      first_player = u64 39 p;
      second_player = u64 47 p;
      first_vector = words 55 3 p ++ words 79 1 p;
      second_vector = words 67 3 p ++ words 83 1 p;
    })
    else if e.id == 8280
    then ok (record e { player = some (u64 39 p); target = u64 47 p })
    else if e.id == 8284
    then ok (record e {
      weapon_operation_raw = u32 39 p;
      player = some (u64 59 p);
      room_pair = some (pair 67 p);
    })
    else if e.id == 8276
    then ok (record e { room_pair = some (pair 43 p) })
    else if e.id == 8155
    then ok (record e { rows = roster_rows p })
    else if e.id == 8157
    then ok (record e { participant = u64 39 p; event_code_raw = u32 47 p; value_raw = u32 51 p })
    else if e.id == 8287
    then finite (floats 51 3) p
        (record e { spawn_family = family_of (u32 39 p); object_id = u32 43 p })
    else if e.id == 8288
    then ok (acting e p)
    else if e.id == 8294
    then ok (record e { interval_arguments_raw = pair 39 p })
    else if e.id == 8278
    then ok (record e {
      player = some (u64 39 p);
      opaque_47_51 = slice 47 4 p;
      ui_value_51_raw = u32 51 p;
    })
    else if e.id == 8286
    then ok (record e { initiator = u64 39 p; target = u64 47 p })
    else if e.id == 8293
    then ok (acting e p)
    else ok e

-- the layouts of scene objects, projectiles, reservations and the rest
decode_object : Bytes → Event → Result Event
decode_object p e =
    if e.id == 8421
    then (if any (λ b. b == 0) (slice 39 32 p)
        then finite (matrix 75) p e
        else raised "unterminated battle resource name")
    else if e.id == 8452
    then finite (floats 51 3) p e
    else if (e.id == 9000) || ((e.id == 9001) || (e.id == 9002))
    then ok (record e {
      player = some (u64 39 p);
      pickup_key = u32 47 p;
      pickup_value_raw = u32 51 p;
      room_pair = some (pair 55 p);
    })
    else if (e.id == 9500) || ((e.id == 9501) || (e.id == 9502))
    then ok
        (record e { player = some (u64 39 p); pickup_key = u32 47 p; pickup_value_raw = u32 51 p })
    else if e.id == 8400
    then finite (matrix 55) p (record e {
      source = u64 39 p;
      child_key = u32 47 p;
      definition_id = u32 51 p;
      scene_id_raw = u32 119 p;
      room_pair = some (pair 123 p);
    })
    else if e.id == 8402
    then finite (matrix 51) p
        (record e { child_key = u32 39 p; target = u64 43 p; room_pair = some (pair 115 p) })
    else if e.id == 8401
    then finite (matrix 47) p (record e {
      child_key = u32 39 p;
      result_state_raw = u32 43 p;
      room_pair = some (pair 115 p);
    })
    else if e.id == 8403
    then finite (matrix 47) p (record e {
      child_key = u32 39 p;
      result_state_raw = u32 43 p;
      room_pair = some (pair 111 p);
    })
    else if e.id == 8404
    then ok (record e { child_key = u32 39 p; room_pair = some (pair 43 p) })
    else if e.id == 0x2062
    then ok (record e { player = some (u64 59 p); room_pair = some (pair 67 p) })
    else ok e

-- the body of a message, by its id; the three parts have no id in common
decode_body : Bytes → Event → Result Event
unfolding decode_action decode_mode decode_object
decode_body p e =
    if ltb e.id 8155
    then decode_action p e
    else if ltb e.id 8298 && not (e.id == 0x2062)
    then decode_mode p e
    else decode_object p e

-- `none` for an id with no known layout
unfoldable pub decode_battle : Bytes → Result (Option Event)
unfolding decode_body
decode_battle p =
    if ltb (1024 * 1024) (length p)
    then raised "menu payload exceeds frame bound"
    else if ltb (length p) 39
    then raised "short battle header"
    else elim (lookup (u32 0 p) battle_lengths) [
      | none ↦ ok none
      | some size ↦
          if not (length p == size)
          then raised "known-layout length mismatch"
          else let e = header (u32 0 p) (u64 4 p) (u8 12 p) (u8 13 p) (u32 15 p) (u32 19 p) in
            elim (decode_body p e) [ ok event ↦ ok (some event) | raised why ↦ raised why ]
    ]
