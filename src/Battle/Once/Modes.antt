-- ===== src/Battle/Once/Modes.antt =====
-- Snapshots of mode 16 and series events: the same message, decided again, is passed over.
use kungfukid_local_server.Base.{
  ℕ, not, ◌||◌, Bool-cases, inl, inr, if◌then◌else◌, ◌≡◌, ◌≢◌, refl, none, List, [], ◌∷◌, arith,
  ◌==◌, nat_eq, pair_eq,
}
use kungfukid_local_server.Base.Bytes.{Bytes}
use kungfukid_local_server.Base.Dict.{Dict, lookup}
use kungfukid_local_server.Hub.{Room, Member, fighters}
use kungfukid_local_server.Battle.Event.{Event}
use kungfukid_local_server.Battle.Outcome.{
  Context, Outcome, Delivery, to_others, passed, relay, ignore, unless-relay,
}
use kungfukid_local_server.Battle.Reborn.{
  decide_reborn_sync, check_report, check_rows, roster_at, nonempty_row,
}
use kungfukid_local_server.Battle.SeriesFlow.{decide_series_event, observe_series_event}
use kungfukid_local_server.Battle.Receipts.{note_sequence}
use kungfukid_local_server.Battle.Once.Others.{after, noted}

-- The rows are checked before, and apart from, what follows.
check_rows-relay :
    (rows : List (ℕ × ℕ)) (members : Dict ℕ Member) (p : Bytes) (rest : Outcome) (r : Room)
    (to : Delivery)
    → check_rows rows members p rest ≡ relay r to
    → (rest ≡ relay r to) × ((other : Outcome) → check_rows rows members p other ≡ other)
unfolding check_rows
check_rows-relay [] members p rest r to h = (h, λ other. refl)
check_rows-relay ((slot, player) ∷ rows) members p rest r to h =
    let (known, h₁) =
      unless-relay (player == roster_at slot members) "reborn snapshot roster mismatch" _ r to h in
    let (vacant, h₂) =
      unless-relay (not (roster_at slot members == 0) || not (nonempty_row slot p))
        "reborn snapshot nonempty vacant slot" _ r to h₁ in
    let (last, again) = check_rows-relay rows members p rest r to h₂ in
    (last, λ other. rw (known, vacant) (again other))

module _ (x : Context) (d : Event) (r : Room) (to : Delivery) where
  report-relay :
      (p : Bytes) (rest : Outcome)
      → check_report x d p rest ≡ relay r to
      → (rest ≡ relay r to)
        × (r.members ≡ x.room.members → check_report (after x r) d p (ignore none) ≡ ignore none)
  unfolding check_report
  report-relay p rest h = elim (Bool-cases (d.id == 8155)) [
    | inl snapshot ↦
        let all = check_rows-relay d.rows (fighters x.room) p rest r to (rw snapshot at h) in
        (all.0, λ same. rw (snapshot, same) (all.1 (ignore none)))
    | inr event ↦ (ground arith, λ same. ground arith)
  ]

  pub reborn_once :
      (p : Bytes)
      → decide_reborn_sync x d p ≡ relay r to
      → decide_reborn_sync (after x r) d p ≡ ignore none
  unfolding decide_reborn_sync
  reborn_once p h = ground (
    arith,
    noted x d r to,
    report-relay p (
        if passed d.sequence_19_raw (lookup (x.uid, 19) x.room.last_sequence)
        then ignore none
        else relay (note_sequence x.uid d.sequence_19_raw x.room) to_others),
  )

  observe-members :
      (now : ℕ)
      → ((observe_series_event x d none now).1.members ≡ x.room.members)
        × ((observe_series_event x d none now).1.last_sequence ≡ x.room.last_sequence)
  unfolding observe_series_event
  observe-members now = ground arith

  observe-series :
      (now : ℕ) → x.room.series ≢ none → (observe_series_event x d none now).1.series ≢ none
  unfolding observe_series_event
  observe-series now h = ground arith

  pub series_once :
      (now : ℕ)
      → decide_series_event x d now ≡ relay r to
      → decide_series_event (after x r) d now ≡ ignore none
  unfolding decide_series_event
  series_once now h = ground (arith, noted x d r to, observe-members now, observe-series now)
