-- ===== src/Settlement.antt =====
-- server/kk_local/lab_settlement.py: what the clients report at the end of a match, and the result
-- that the reports agree on. The parts are the report (here), the agreement (Settlement/Consensus)
-- and the message of the result (Settlement/Payload).
pub mod Consensus
pub mod Payload
pub mod Accepted
pub mod Fair
use kungfukid_local_server.Base.{
  ℕ, zero, suc, ◌+◌, ◌*◌, ◌%◌, ◌^◌, Bool, true, false, not, ◌&&◌, ◌||◌, Option, none, some, List,
  [], ◌∷◌, ◌++◌, length, any, ltb, ◌==◌, if◌then◌else◌, nat_eq,
}
use kungfukid_local_server.Base.Bytes.{Bytes, slice, u8, u16, u32, u64}
use kungfukid_local_server.Base.Dict.{Dict, lookup, insert, contains}
use kungfukid_local_server.Base.Exec.{Result, ok, raised}
use kungfukid_local_server.Base.Fallible.{◌>>=◌}

-- `ReportSlot`
pub record ReportSlot : Type 0 where
  pub uid : ℕ
  pub maximum_hp : ℕ
  pub hp : ℕ
  pub result_parameter : ℕ
  pub raw : Bytes

abbrev pub enemy_kills_low8 : ReportSlot → ℕ
enemy_kills_low8 s = u8 8 s.raw

abbrev pub penalty_kills_low8 : ReportSlot → ℕ
penalty_kills_low8 s = u8 9 s.raw

-- a signed word of 32 bits, in the order of its values: 2 ^ 31 stands for 0
abbrev pub biased : ℕ → ℕ
biased word = (word + 2 ^ 31) % 2 ^ 32

abbrev pub reborn_points : ReportSlot → ℕ
reborn_points s = biased (u32 37 s.raw)

abbrev pub reborn_counts : ReportSlot → ℕ × ℕ
reborn_counts s = (u16 45 s.raw, u16 47 s.raw)

-- `any(raw)`
abbrev pub nonzero : Bytes → Bool
nonzero raw = any (λ b. not (b == 0)) raw

abbrev pub slot_bytes : ℕ → Bytes → Bytes
slot_bytes slot payload = slice (slot * 87) 87 payload

abbrev pub slot_of : ℕ → Bytes → ReportSlot
slot_of uid raw = record {
  uid = uid;
  maximum_hp = u16 0 raw;
  hp = u16 2 raw;
  result_parameter = u16 65 raw;
  raw = raw;
}

-- the row of an occupied slot
unfoldable pub check_row : ℕ → Bytes → ℕ → ℕ → Dict ℕ ReportSlot → Result (Dict ℕ ReportSlot)
check_row expected raw room_number serial seen =
    let uid = u64 29 raw in
    if not (uid == expected) || contains uid seen
    then raised "4110 roster identity mismatch"
    else if not ((u32 67 raw == room_number) && (u32 71 raw == serial))
    then raised "4110 stale room or battle"
    else if (u16 0 raw == 0) || ltb (u16 0 raw) (u16 2 raw)
    then raised "4110 HP bounds"
    else ok (insert uid (slot_of uid raw) seen)

-- one turn of the loop of `decode_report`
unfoldable pub decode_slot :
    ℕ → Bytes → Dict ℕ ℕ → ℕ → ℕ → Dict ℕ ReportSlot → Result (Dict ℕ ReportSlot)
decode_slot slot payload roster room_number serial seen =
    let raw = slot_bytes slot payload in
    elim (lookup slot roster) [
      | none ↦ if nonzero raw then raised "4110 nonempty unoccupied slot" else ok seen
      | some expected ↦ check_row expected raw room_number serial seen
    ]

unfoldable pub decode_slots :
    List ℕ → Bytes → Dict ℕ ℕ → ℕ → ℕ → Dict ℕ ReportSlot → Result (Dict ℕ ReportSlot)
decode_slots [] payload roster room_number serial seen = ok seen
decode_slots (slot ∷ slots) payload roster room_number serial seen =
    decode_slot slot payload roster room_number serial seen >>= λ now.
    decode_slots slots payload roster room_number serial now

abbrev pub eight : List ℕ
eight = 0 ∷ 1 ∷ 2 ∷ 3 ∷ 4 ∷ 5 ∷ 6 ∷ 7 ∷ []

-- `decode_report(payload, roster, room_number, serial)`
unfoldable pub decode_report : Bytes → Dict ℕ ℕ → ℕ → ℕ → Result (Dict ℕ ReportSlot)
decode_report payload roster room_number serial =
    if not (length payload == 696)
    then raised "4110 requires eight 87-byte slots"
    else decode_slots eight payload roster room_number serial [] >>= λ seen.
        if length seen == 0 then raised "4110 empty roster" else ok seen
