-- ===== src/Tests/Settlement.antt =====
-- The theorems on the result of a match, at a battle of two teams of one.
use kungfukid_local_server.Base.{
  ℕ, ◌≡◌, ◌≢◌, ◌↔◌, ◌⊎◌, refl, true, Option, some, [], ◌∷◌, ◌++◌, length, member, replicate, nat_eq,
}
use kungfukid_local_server.Base.Bytes.{Bytes, to_le}
use kungfukid_local_server.Base.Dict.{Dict, lookup, contains}
use kungfukid_local_server.Base.Exec.{ok}
use kungfukid_local_server.Settlement.{
  slot_of, decode_slot, check_row, decode_slots, eight, decode_report,
}
use kungfukid_local_server.Settlement.Accepted.{
  IsFine, decode_report-IsFine, decode_report-IsComplete,
}
use kungfukid_local_server.Settlement.Consensus.{
  View, agreed, consensus_survival, agrees_on_survival,
}
use kungfukid_local_server.Settlement.Fair.{IsLast, survival_decided}
use kungfukid_local_server.Hub.{Room, fighters, mode_of}
use kungfukid_local_server.Battle.Results.{Store, Ledger, groups_in, check_profiles, settle_report}
use kungfukid_local_server.Battle.Results.Rewards.{settle_report_rewards}
use kungfukid_local_server.Tests.Data.{room, hub}

-- the row of a fighter in room 3, battle 5
abbrev row : ℕ → ℕ → Bytes
row uid hp =
    to_le 2 100
    ++ (to_le 2 hp
        ++ (replicate 25 0
            ++ (to_le 8 uid ++ (replicate 30 0 ++ (to_le 4 3 ++ (to_le 4 5 ++ replicate 12 0))))))

abbrev payload : Bytes
payload = row 7 60 ++ (row 9 0 ++ replicate 522 0)

abbrev roster : Dict ℕ ℕ
roster = (0, 7) ∷ (1, 9) ∷ []

abbrev view : View
view = (7, slot_of 7 (row 7 60)) ∷ (9, slot_of 9 (row 9 0)) ∷ []

payload_accepted : decode_report payload roster 3 5 ≡ ok view
unfolding decode_report decode_slots decode_slot check_row
payload_accepted = refl

decode_report-IsFine_example :
    (length payload ≡ 696)
    × (IsFine 3 5 9 (slot_of 9 (row 9 0))
        × ((i : ℕ) × ((member i eight ≡ true) × (lookup i roster ≡ some 9))))
decode_report-IsFine_example =
    decode_report-IsFine payload roster 3 5 view 9 (slot_of 9 (row 9 0)) payload_accepted refl

decode_report-IsComplete_example : contains 9 view ≡ true
decode_report-IsComplete_example =
    decode_report-IsComplete payload roster 3 5 view 1 9 payload_accepted refl refl

-- their teams
abbrev teams : Dict ℕ ℕ
teams = (7, 0) ∷ (9, 1) ∷ []

abbrev reports : Dict ℕ View
reports = (7, view) ∷ (9, view) ∷ []

abbrev results : Dict ℕ ℕ
results = (7, 1) ∷ (9, 2) ∷ []

reports_agreed : consensus_survival reports teams ≡ ok (agreed results)
unfolding consensus_survival agrees_on_survival
reports_agreed = refl

survival_decided_example :
    ((lookup 9 results ≡ some 1) ↔ IsLast 1 view teams)
    × ((lookup 9 results ≡ some 2) ↔ ((t : ℕ) × ((t ≢ 1) × IsLast t view teams)))
survival_decided_example =
    survival_decided reports teams results 7 view 9 1 reports_agreed refl refl

abbrev team_room : Room
team_room = record room { request = replicate 46 0 ++ (1 ∷ replicate 34 0) }

abbrev store : Store
store = record {
  profile = λ u. 1 ∷ replicate 359 0;
  has_rules = true;
  award_match_points = λ serial outcomes points mode. ok [];
  match_point_awards = λ serial. [];
}

abbrev ledger : Ledger
ledger = record { hub = hub; grants = [] }

settle_report_rewards_example :
    let after = (settle_report store team_room reports ledger).1 in
    (after.grants ≡ [])
    ⊎ ((outcomes : Dict ℕ ℕ) × ((after.grants ≡ (5, outcomes) ∷ [])
          × ((true ≡ true)
              × (((seen : Option View) × (check_profiles store outcomes seen (fighters team_room)
                      ≡ ok tt))
                  × (((lookup 9 outcomes ≡ some 1) ↔ IsLast 1 view (groups_in team_room))
                      × ((lookup 9 outcomes ≡ some 2)
                          ↔ ((t : ℕ) × ((t ≢ 1) × IsLast t view (groups_in team_room)))))))))
unfolding mode_of
settle_report_rewards_example =
    settle_report_rewards store team_room reports ledger 7 view 9 1 refl refl refl
