-- ===== src/Settlement/Consensus.antt =====
-- server/kk_local/lab_settlement.py: what the reports of a match agree on. An outcome is 0 for a draw,
-- 1 for a win and 2 for a loss.
use kungfukid_local_server.Base.{
  ℕ, ◌+◌, ◌-◌, Bool, true, false, not, ◌&&◌, Option, none, some, List, [], ◌∷◌, length, member, add,
  all, same_set, max, ltb, ◌==◌, if◌then◌else◌, nat_eq, pair_beq,
}
use kungfukid_local_server.Base.Dict.{Dict, lookup, keys, values, map_values}
use kungfukid_local_server.Base.Exec.{Result, ok, raised}
use kungfukid_local_server.Settlement.{
  ReportSlot, enemy_kills_low8, penalty_kills_low8, reborn_points, reborn_counts,
}

-- what one client reports of every fighter, and the reports of all clients
abbrev pub View : Type 0
View = Dict ℕ ReportSlot

-- `value.hp > 0` of a fighter in a report
abbrev pub stands : ℕ → View → Bool
stands u view = elim (lookup u view) [ none ↦ false | some s ↦ ltb 0 s.hp ]

abbrev pub same_bool : Bool → Bool → Bool
same_bool true b = b
same_bool false b = not b

-- a report on the same fighters, with the same ones standing
unfoldable pub agrees_on_survival : View → View → Bool
agrees_on_survival baseline report =
    same_set (keys report) (keys baseline)
    && all (λ u. same_bool (stands u report) (stands u baseline)) (keys baseline)

-- `{teams[u] for u, value in baseline.items() if value.hp > 0}`, over the keys of the baseline
abbrev pub teams_of : List ℕ → View → Dict ℕ ℕ → List ℕ
teams_of [] view teams = []
teams_of (u ∷ us) view teams =
    let rest = teams_of us view teams in
    if stands u view then elim (lookup u teams) [ none ↦ rest | some t ↦ add t rest ] else rest

abbrev pub alive_teams : View → Dict ℕ ℕ → List ℕ
alive_teams view teams = teams_of (keys view) view teams

-- `(1 if group in winners else 2) if len(winners) == 1 else 0`
abbrev pub outcome : List ℕ → ℕ → ℕ
outcome winners group = if length winners == 1 then (if member group winners then 1 else 2) else 0

abbrev pub outcomes_by : List ℕ → Dict ℕ ℕ → Dict ℕ ℕ
outcomes_by winners groups = map_values {V = ℕ} (λ _ g. outcome winners g) groups

-- a report is missing; `ReportDisagreement`; the outcomes
pub data Verdict : Type 0 where
  missing disagreement : Verdict
  agreed : Dict ℕ ℕ → Verdict

-- `consensus_survival(reports, teams)`; no reports of no fighters are no observation
unfoldable pub consensus_survival : Dict ℕ View → Dict ℕ ℕ → Result Verdict
consensus_survival reports teams =
    if not (same_set (keys reports) (keys teams)) then ok missing else elim (values reports) [
      | [] ↦ raised "no observations"
      | baseline ∷ others ↦
          if not (same_set (keys baseline) (keys teams))
          then raised "settlement roster mismatch"
          else if not (all (agrees_on_survival baseline) others)
          then ok disagreement
          else ok (agreed (outcomes_by (alive_teams baseline teams) teams))
    ]

-- the two kill counters of a fighter
abbrev pub kills : ℕ → View → ℕ × ℕ
kills u view = elim (lookup u view) [
  | none ↦ (0, 0)
  | some s ↦ (enemy_kills_low8 s, penalty_kills_low8 s)
]

unfoldable pub agrees_on_kills : View → Dict ℕ ℕ → View → Bool
agrees_on_kills baseline groups report =
    same_set (keys report) (keys groups)
    && all (λ u. pair_beq (kills u report) (kills u baseline)) (keys groups)

-- a team's score: the enemies that it felled, and the others' penalties
abbrev team_score : ℕ → View → Dict ℕ ℕ → ℕ
team_score team [] groups = 0
team_score team ((u, s) ∷ view) groups =
    let rest = team_score team view groups in
    if elim (lookup u groups) [ none ↦ false | some t ↦ t == team ]
    then enemy_kills_low8 s + rest
    else penalty_kills_low8 s + rest

-- `set(groups.values())`
abbrev pub groups_of : Dict ℕ ℕ → List ℕ
groups_of [] = []
groups_of ((_, g) ∷ groups) = add g (groups_of groups)

-- a fighter's own score, with 255 added so that it is a natural number
abbrev own_score : ReportSlot → ℕ
own_score s = enemy_kills_low8 s + 255 - penalty_kills_low8 s

abbrev pub Scores : Type 0
Scores = List (ℕ × ℕ)

abbrev team_scores : List ℕ → View → Dict ℕ ℕ → Scores
team_scores [] view groups = []
team_scores (t ∷ ts) view groups = (t, team_score t view groups) ∷ team_scores ts view groups

abbrev own_scores : View → Scores
own_scores [] = []
own_scores ((u, s) ∷ view) = (u, own_score s) ∷ own_scores view

-- `max(scores.values())`
abbrev pub highest : Scores → ℕ
highest [] = 0
highest ((_, v) ∷ scores) = max v (highest scores)

-- `{key for key, value in scores.items() if value == highest}`
abbrev pub holders : ℕ → Scores → List ℕ
holders top [] = []
holders top ((k, v) ∷ scores) = let rest = holders top scores in if v == top then k ∷ rest else rest

abbrev pub winners_of : Scores → List ℕ
winners_of scores = holders (highest scores) scores

-- every fighter for itself
abbrev pub alone : Dict ℕ ℕ → Dict ℕ ℕ
alone groups = map_values {V = ℕ} (λ u _. u) groups

-- the ranking by the agreed counters
unfoldable pub rank_elimination : View → Dict ℕ ℕ → Bool → Result (Option (Dict ℕ ℕ))
rank_elimination baseline groups team_mode =
    if not team_mode
    then ok (some (outcomes_by (winners_of (own_scores baseline)) (alone groups)))
    else if not (length (groups_of groups) == 2)
    then raised "team elimination needs two teams"
    else ok
        (some (outcomes_by (winners_of (team_scores (groups_of groups) baseline groups)) groups))

-- `consensus_elimination(reports, groups, team_mode=…)`
unfoldable pub consensus_elimination : Dict ℕ View → Dict ℕ ℕ → Bool → Result (Option (Dict ℕ ℕ))
consensus_elimination reports groups team_mode =
    if not (same_set (keys reports) (keys groups)) then ok none else elim (values reports) [
      | [] ↦ raised "settlement empty roster"
      | baseline ∷ others ↦
          if not (same_set (keys baseline) (keys groups))
          then raised "settlement roster mismatch"
          else if not (all (agrees_on_kills baseline groups) (baseline ∷ others))
          then raised "settlement peer score disagreement"
          else rank_elimination baseline groups team_mode
    ]

abbrev same_reborn : Option ReportSlot → Option ReportSlot → Bool
same_reborn (some a) (some b) =
    (reborn_points a == reborn_points b) && pair_beq (reborn_counts a) (reborn_counts b)
same_reborn _ _ = false

unfoldable pub agrees_on_reborn : View → List ℕ → View → Bool
agrees_on_reborn baseline participants report =
    same_set (keys report) participants
    && all (λ u. same_reborn (lookup u report) (lookup u baseline)) participants

abbrev reborn_scores : View → Scores
reborn_scores [] = []
reborn_scores ((u, s) ∷ view) = (u, reborn_points s) ∷ reborn_scores view

-- `sorted(participants)`
abbrev sorted_insert : ℕ → List ℕ → List ℕ
sorted_insert a [] = a ∷ []
sorted_insert a (x ∷ xs) =
    let rest = sorted_insert a xs in if ltb a x then a ∷ (x ∷ xs) else x ∷ rest

abbrev pub sorted : List ℕ → List ℕ
sorted [] = []
sorted (x ∷ xs) = sorted_insert x (sorted xs)

abbrev outcomes_of : List ℕ → List ℕ → Dict ℕ ℕ
outcomes_of winners [] = []
outcomes_of winners (u ∷ us) = (u, outcome winners u) ∷ outcomes_of winners us

-- `consensus_reborn(reports, participants)`
unfoldable pub consensus_reborn : Dict ℕ View → List ℕ → Result (Option (Dict ℕ ℕ))
consensus_reborn reports participants =
    if not (same_set (keys reports) participants) then ok none else elim (values reports) [
      | [] ↦ raised "no observations"
      | baseline ∷ others ↦
          if not (same_set (keys baseline) participants)
          then raised "reborn settlement roster mismatch"
          else if not (all (agrees_on_reborn baseline participants) (baseline ∷ others))
          then raised "reborn peer points/count disagreement"
          else ok (some (outcomes_of (winners_of (reborn_scores baseline)) (sorted participants)))
    ]
