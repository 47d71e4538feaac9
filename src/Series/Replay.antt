-- ===== src/Series/Replay.antt =====
-- server/kk_local/team_series.py: a message of a series is counted once, whatever comes between.
use kungfukid_local_server.Base.{
  ℕ, ◌≤◌, ◌≡◌, ◌∙◌, ap, true, false, inl, inr, Option, none, some, List, [], ◌∷◌, arith, nat_eq,
}
use kungfukid_local_server.Base.Dict.{lookup, lookup-insert}
use kungfukid_local_server.Series.{
  SeriesProgress, SeriesEvent, ready_event, interval_event, continue_event, finish_event, Observed,
  observe, stale,
}
use kungfukid_local_server.Series.Rounds.{observe-cases, Word, watch, Moved}

stale_nothing :
    (s : SeriesProgress) (d : Observed) (owner : ℕ) (fighters : List ℕ) (to : Option (List ℕ))
    → stale d.sequence_19_raw (lookup d.sender s.versions) ≡ true
    → observe s d owner fighters to ≡ (none, s)
unfolding observe
stale_nothing s d owner fighters to h = ground arith

Moved-versions :
    (s : SeriesProgress) (d : Observed) (owner : ℕ) (event : SeriesEvent) (s' : SeriesProgress)
    → Moved s d owner event s'
    → s'.versions ≡ s.versions
Moved-versions s d owner ready_event s' moved = ground arith
Moved-versions s d owner interval_event s' moved = ground arith
Moved-versions s d owner continue_event s' moved = ground arith
Moved-versions s d owner finish_event s' moved = ground arith

later : (n m : ℕ) (o : Option ℕ) → stale n o ≡ true → stale m o ≡ false → stale n (some m) ≡ true
later n m none old new = ground arith
later n m (some seen) old new = ground arith

-- a number that has passed stays so
observe-stale :
    (s : SeriesProgress) (d : Observed) (owner : ℕ) (fighters : List ℕ) (to : Option (List ℕ))
    (n u : ℕ)
    → stale n (lookup u s.versions) ≡ true
    → stale n (lookup u (observe s d owner fighters to).1.versions) ≡ true
observe-stale s d owner fighters to n u old = elim (observe-cases s d owner fighters to) [
  | inl nothing ↦ rw nothing old
  | inr (event, s', new, fighter, moved, e) ↦ rw e (
      ground (
        arith,
        old,
        new,
        Moved-versions s d owner event s' moved,
        later n d.sequence_19_raw (lookup d.sender s.versions),
        lookup-insert d.sender u d.sequence_19_raw s'.versions,
      ))
]

watch-stale :
    (ds : List Word) (s : SeriesProgress) (n u : ℕ)
    → stale n (lookup u s.versions) ≡ true
    → stale n (lookup u (watch s ds).versions) ≡ true
unfolding watch
watch-stale [] s n u old = old
watch-stale ((d, owner, fighters, to) ∷ ds) s n u old =
    watch-stale ds (observe s d owner fighters to).1 n u
      (observe-stale s d owner fighters to n u old)

noted :
    (s : SeriesProgress) (d : Observed) (owner : ℕ) (fighters : List ℕ) (to : Option (List ℕ))
    (event : SeriesEvent) (n : ℕ)
    → (observe s d owner fighters to).0 ≡ some event
    → n ≤ d.sequence_19_raw
    → stale n (lookup d.sender (observe s d owner fighters to).1.versions) ≡ true
noted s d owner fighters to event n counted low = elim (observe-cases s d owner fighters to) [
  | inl nothing ↦ absurd (ground (arith, nothing, counted))
  | inr (_, s', _, _, _, e) ↦
      rw e (ground (arith, low, lookup-insert d.sender d.sender d.sequence_19_raw s'.versions))
]

-- Once a message has been counted, no message of that sender with its number or an earlier one is ever
-- counted again: after any further messages, with whatever Host, fighters and recipients, it is passed over
-- and changes nothing.
pub observe_once :
    (s : SeriesProgress) (d : Observed) (owner : ℕ) (fighters : List ℕ) (to : Option (List ℕ))
    (event : SeriesEvent) (ds : List Word) (again : Observed) (owner' : ℕ) (fighters' : List ℕ)
    (to' : Option (List ℕ))
    → (observe s d owner fighters to).0 ≡ some event
    → again.sender ≡ d.sender
    → again.sequence_19_raw ≤ d.sequence_19_raw
    → let s' = watch (observe s d owner fighters to).1 ds in
      observe s' again owner' fighters' to' ≡ (none, s')
observe_once s d owner fighters to event ds again owner' fighters' to' counted same low =
    let s' = watch (observe s d owner fighters to).1 ds in
    stale_nothing s' again owner' fighters' to' (
      ap (λ u. stale again.sequence_19_raw (lookup u s'.versions)) same
      ∙ watch-stale ds (observe s d owner fighters to).1 again.sequence_19_raw d.sender
          (noted s d owner fighters to event again.sequence_19_raw counted low))
