-- ===== src/Settlement/Payload.antt =====
-- server/kk_local/lab_settlement.py: `result_payload`, the message that tells a player the result.
use kungfukid_local_server.Base.{
  ℕ, ◌+◌, ◌%◌, Bool, true, false, not, ◌&&◌, ◌||◌, Option, none, some, List, [], ◌∷◌, ◌++◌, length,
  take, drop, subset, same_set, all, replicate, ltb, leb, ◌==◌, if◌then◌else◌, nat_eq, is_some,
}
use kungfukid_local_server.Base.Bytes.{Bytes, to_le, slice, u16, u32}
use kungfukid_local_server.Base.Dict.{Dict, lookup, keys, contains}
use kungfukid_local_server.Base.Exec.{Result, ok, raised}
use kungfukid_local_server.Settlement.{reborn_points}
use kungfukid_local_server.Settlement.Consensus.{View}

-- `struct.pack_into`, and the assignment of a slice of the same length
abbrev pub put_at : ℕ → Bytes → Bytes → Bytes
put_at i bytes row = take i row ++ (bytes ++ drop (i + length bytes) row)

abbrev own_profile : Option Bytes → Bool
own_profile none = false
own_profile (some profile) = (length profile == 360) && not (u32 0 profile == 0)

-- the checks of the recipient and the outcomes
unfoldable pub result_fits : Dict ℕ ℕ → ℕ → Option Bytes → Bool → Bool
result_fits results recipient profile observer =
    (if observer
      then not (contains recipient results) && not (is_some profile)
      else contains recipient results && own_profile profile)
    && (leb 1 (length results) && (leb (length results) 8 && all (λ row. leb row.1 2) results))

unfoldable pub awards_fit : Dict ℕ ℕ → Dict ℕ ℕ → Bool
awards_fit awards results =
    subset (keys awards) (keys results) && all (λ row. leb row.1 1000000) awards

abbrev own_reports : View → Bool
own_reports reports = all (λ row. row.1.uid == row.0) reports

unfoldable pub reports_fit : Option View → Dict ℕ ℕ → Bool
reports_fit none results = true
reports_fit (some reports) results =
    same_set (keys reports) (keys results) && (leb (length results) 6 && own_reports reports)

-- how many come before `u` by `(-points, uid)`
abbrev points_of : ℕ → View → ℕ
points_of u reports = elim (lookup u reports) [ none ↦ 0 | some s ↦ reborn_points s ]

abbrev before : ℕ → View → ℕ → Bool
before u reports v =
    ltb (points_of u reports) (points_of v reports)
    || ((points_of u reports == points_of v reports) && ltb v u)

abbrev pub rank : ℕ → View → List ℕ → ℕ
rank u reports [] = 1
rank u reports (v ∷ vs) =
    let rest = rank u reports vs in if before u reports v then 1 + rest else rest

-- the fields of a mode with rebirths
abbrev pub reborn_fields : ℕ → View → List ℕ → Bytes
reborn_fields u reports us = elim (lookup u reports) [
  | none ↦ []
  | some s ↦
      slice 37 4 s.raw
      ++ (slice 45 4 s.raw
          ++ (to_le 4 (u16 4 s.raw) ++ (to_le 4 (u16 6 s.raw) ++ to_le 4 (rank u reports us))))
]

abbrev award_of : ℕ → Dict ℕ ℕ → ℕ
award_of u awards = elim (lookup u awards) [ none ↦ 0 | some v ↦ v ]

abbrev profile_at : Option Bytes → Bytes
profile_at none = []
profile_at (some profile) = profile

-- the first 140 bytes of a row
unfoldable pub row_prefix : ℕ → ℕ → Dict ℕ ℕ → Option View → List ℕ → Bytes
row_prefix u result awards reports us =
    let blank = replicate 140 0 in
    let named = put_at 10 ((result % 256) ∷ []) (put_at 0 (to_le 8 u) blank) in
    let scored = put_at 33 (1 ∷ []) (put_at 34 (to_le 4 (award_of u awards)) named) in
    let plain = put_at 87 (255 ∷ 255 ∷ 255 ∷ 255 ∷ []) scored in
    elim reports [ none ↦ plain | some view ↦ put_at 67 (reborn_fields u view us) plain ]

-- the rest of a row: the recipient's own profile, and nothing for anyone else
unfoldable pub row_profile : ℕ → ℕ → Option Bytes → Bool → Bytes
row_profile u recipient profile observer =
    if not observer && (u == recipient) then profile_at profile else replicate 360 0

unfoldable pub result_rows :
    Dict ℕ ℕ → ℕ → Option Bytes → Dict ℕ ℕ → Bool → Option View → List ℕ → Bytes
result_rows [] recipient profile awards observer reports us = []
result_rows ((u, result) ∷ results) recipient profile awards observer reports us =
    row_prefix u result awards reports us
    ++ (row_profile u recipient profile observer
        ++ result_rows results recipient profile awards observer reports us)

-- `result_payload(results, recipient, profile, point_awards=…, observer=…, reborn_reports=…)`
unfoldable pub result_payload :
    Dict ℕ ℕ → ℕ → Option Bytes → Dict ℕ ℕ → Bool → Option View → Result Bytes
result_payload results recipient profile awards observer reports =
    if not (result_fits results recipient profile observer)
    then raised "invalid no-award result"
    else if not (awards_fit awards results)
    then raised "invalid result point awards"
    else if not (reports_fit reports results)
    then raised "invalid Mode16 result observations"
    else ok (result_rows results recipient profile awards observer reports (keys results))
