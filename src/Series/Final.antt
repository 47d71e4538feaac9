-- ===== src/Series/Final.antt =====
-- server/kk_local/team_series.py: what an accepted final report says, and on whose word it rests.
use kungfukid_local_server.Base.{
  ℕ, ◌+◌, ◌/◌, ◌≤◌, ◌≡◌, ◌↔◌, ◌∙◌, ap, Bool, true, false, ◌&&◌, ◌||◌, inl, inr, Option, List, [],
  ◌∷◌, max, min, arith, nat_eq, member, ◌==◌, if◌then◌else◌,
}
use kungfukid_local_server.Series.{
  SeriesProgress, SeriesReport, ready_event, interval_event, continue_event, finish_event,
  finishing, is_finishing, Observed, fresh, observe, transition, accepts_final,
}
use kungfukid_local_server.Series.Rounds.{IsOpen, observe-cases, Word, watch, watch-IsOpen}

-- the Host of the time, a fighter, says this
abbrev pub host_says : ℕ → Word → Bool
host_says id (d, owner, fighters, to) =
    (d.id == id) && ((d.sender == owner) && member d.sender fighters)

-- how many times the Host has told a score (8294)
abbrev pub intervals_told : List Word → ℕ
intervals_told [] = 0
intervals_told (w ∷ ws) = (if host_says 8294 w then 1 else 0) + intervals_told ws

-- whether the Host has said that the series ends (8297)
abbrev pub end_told : List Word → Bool
end_told [] = false
end_told (w ∷ ws) = host_says 8297 w || end_told ws

module _ (s : SeriesProgress) (d : Observed) (owner : ℕ) (fighters : List ℕ)
    (to : Option (List ℕ)) where
  step_told :
      let s' = (observe s d owner fighters to).1 in
      s'.scores.0 + s'.scores.1
      ≤ s.scores.0 + s.scores.1 + (if host_says 8294 (d, owner, fighters, to) then 1 else 0)
  step_told = elim (observe-cases s d owner fighters to) [
    | inl nothing ↦ rw nothing (ground arith)
    | inr (ready_event, s', _, fighter, moved, e) ↦ ground (arith, fighter, moved, e)
    | inr (interval_event, s', _, fighter, moved, e) ↦ ground (arith, fighter, moved, e)
    | inr (continue_event, s', _, fighter, moved, e) ↦ ground (arith, fighter, moved, e)
    | inr (finish_event, s', _, fighter, moved, e) ↦ ground (arith, fighter, moved, e)
  ]

  step_ends :
      is_finishing (observe s d owner fighters to).1.phase ≡ true
      → (is_finishing s.phase || host_says 8297 (d, owner, fighters, to)) ≡ true
  unfolding observe transition
  step_ends ended = ground arith

watch_told :
    (ds : List Word) (s : SeriesProgress)
    → (watch s ds).scores.0 + (watch s ds).scores.1 ≤ s.scores.0 + s.scores.1 + intervals_told ds
unfolding watch
watch_told [] s = omega arith
watch_told ((d, owner, fighters, to) ∷ ds) s =
    omega (arith, step_told s d owner fighters to, watch_told ds (observe s d owner fighters to).1)

watch_ends :
    (ds : List Word) (s : SeriesProgress)
    → is_finishing (watch s ds).phase ≡ true
    → (is_finishing s.phase || end_told ds) ≡ true
unfolding watch
watch_ends [] s ended = ground (arith, ended)
watch_ends ((d, owner, fighters, to) ∷ ds) s ended =
    either (is_finishing s.phase) (host_says 8297 (d, owner, fighters, to)) (end_told ds)
      (is_finishing (observe s d owner fighters to).1.phase) (step_ends s d owner fighters to)
      (watch_ends ds (observe s d owner fighters to).1 ended)
  where
    either :
        (a b c m : Bool) → (m ≡ true → (a || b) ≡ true) → (m || c) ≡ true → (a || (b || c)) ≡ true
    either a b c m first rest = ground arith

accepted-scores :
    (s : SeriesProgress) (report : SeriesReport)
    → IsOpen s
    → accepts_final s report ≡ true
    → let (x, y) = report.scores in
      (s.phase ≡ finishing)
      × (max x y ≡ s.limit / 2 + 1)
      × (min x y ≤ s.limit / 2)
      × (x + y ≡ s.scores.0 + s.scores.1 + 1)
      × ((report.perfect ≡ true) ↔ (min x y ≡ 0))
unfolding accepts_final
accepted-scores s report h e = ground arith

-- A final report that is accepted after any messages of a new series rests on the Host: the Host of the
-- time has said that the series ends, and every round that is counted, but for the last, was told by the
-- Host in a message of its own. The report has exactly one winner, with one round more than half; the loser
-- has at most half, and the report calls it perfect exactly if the loser has none.
pub final_decides :
    (limit : ℕ) (ds : List Word) (report : SeriesReport)
    → accepts_final (watch (fresh limit) ds) report ≡ true
    → let (x, y) = report.scores in
      (end_told ds ≡ true)
      × (x + y ≤ intervals_told ds + 1)
      × (max x y ≡ limit / 2 + 1)
      × (min x y ≤ limit / 2)
      × ((report.perfect ≡ true) ↔ (min x y ≡ 0))
final_decides limit ds report e =
    let open_now = watch-IsOpen ds (fresh limit) (omega arith, omega arith) in
    let final = accepted-scores (watch (fresh limit) ds) report open_now.0 e in
    let ended = watch_ends ds (fresh limit) (ap is_finishing final.0) in
    let told = watch_told ds (fresh limit) in
    (
      ended,
      omega (arith, final.3, told),
      final.1 ∙ ap (λ n. n / 2 + 1) open_now.1,
      ground (arith, open_now.1),
      final.4,
    )
