-- ===== src/Series/Rounds.antt =====
-- How a team series moves: who may move it, and how far it can go.
use kungfukid_local_server.Base.{
  ℕ, ◌+◌, ◌/◌, ◌≤◌, ◌≡◌, ◌≢◌, ◌∙◌, refl, true, false, ◌⊎◌, inl, inr, Option, none, some, List, [],
  ◌∷◌, arith, nat_eq, member, Option-cases,
}
use kungfukid_local_server.Base.Dict.{lookup, insert}
use kungfukid_local_server.Series.{
  SeriesProgress, SeriesEvent, playing, interval, finishing, Observed, transition, observe,
  ready_event, interval_event, continue_event, finish_event, stale,
}

-- Neither side has won a tracked series: each score is at most half of the rounds.
abbrev pub IsOpen : SeriesProgress → Type 0
IsOpen s = (s.scores.0 ≤ s.limit / 2) × (s.scores.1 ≤ s.limit / 2)

-- What an event did: which message it was, from whom and in which phase, and what it changed.
abbrev pub Moved : SeriesProgress → Observed → ℕ → SeriesEvent → SeriesProgress → Type 0
Moved s d owner ready_event s' =
    (d.id ≡ 8296)
    × (d.sender ≢ owner)
    × (s.phase ≡ interval)
    × (member d.sender s.ready ≡ false)
    × (s' ≡ record s { ready = d.sender ∷ s.ready })
Moved s d owner interval_event s' =
    let (a, b) = s.scores in
    let (x, y) = d.interval_arguments_raw in
    (d.id ≡ 8294)
    × (d.sender ≡ owner)
    × (s.phase ≡ playing)
    × (x ≤ s.limit / 2)
    × (y ≤ s.limit / 2)
    × (a ≤ x)
    × (b ≤ y)
    × (x + y ≤ a + b + 1)
    × (s' ≡ record s { scores = d.interval_arguments_raw; phase = interval; ready = owner ∷ [] })
Moved s d owner continue_event s' =
    (d.id ≡ 8295)
    × (d.sender ≡ owner)
    × (s.phase ≡ interval)
    × (s' ≡ record s { phase = playing; ready = [] })
Moved s d owner finish_event s' =
    (d.sender ≡ owner) × (s.phase ≡ playing) × (s' ≡ record s { phase = finishing })

module _ (s : SeriesProgress) (d : Observed) (owner : ℕ) (to : Option (List ℕ)) where
  transition-Moved :
      (event : SeriesEvent) (s' : SeriesProgress)
      → transition s d owner to ≡ some (event, s')
      → Moved s d owner event s'
  unfolding transition
  transition-Moved ready_event s' h = ground arith
  transition-Moved interval_event s' h = ground arith
  transition-Moved continue_event s' h = ground arith
  transition-Moved finish_event s' h = ground arith

-- The outcome of one observation: nothing, or an event with a fresh number from a fighter.
pub observe-cases :
    (s : SeriesProgress) (d : Observed) (owner : ℕ) (fighters : List ℕ) (to : Option (List ℕ))
    → (observe s d owner fighters to ≡ (none, s))
      ⊎ ((event : SeriesEvent) × (s' : SeriesProgress) × (stale d.sequence_19_raw
              (lookup d.sender s.versions)
            ≡ false)
          × (member d.sender fighters ≡ true)
          × Moved s d owner event s'
          × (observe s d owner fighters to ≡ (
            some event,
            record s' { versions = insert d.sender d.sequence_19_raw s'.versions },
          )))
unfolding observe
observe-cases s d owner fighters to = elim (Option-cases (transition s d owner to)) [
  | inl nothing ↦ inl (ground arith)
  | inr ((event, s'), moved) ↦ elim (Option-cases (observe s d owner fighters to).0) [
    | inl nothing ↦ inl (ground arith)
    | inr (_, seen) ↦ inr (
      event,
      s',
      ground arith,
      ground arith,
      transition-Moved s d owner to event s' moved,
      ground arith,
    )
  ]
]

-- If neither side of a series has more than half of the rounds, then neither has after any
-- observed message, and the number of rounds stays.
pub observe-IsOpen :
    (s : SeriesProgress) (d : Observed) (owner : ℕ) (fighters : List ℕ) (to : Option (List ℕ))
    → IsOpen s
    → IsOpen (observe s d owner fighters to).1 × ((observe s d owner fighters to).1.limit ≡ s.limit)
observe-IsOpen s d owner fighters to h = elim (observe-cases s d owner fighters to) [
  | inl nothing ↦ ground arith
  | inr (ready_event, s', fresh_number, fighter, moved, e) ↦ ground arith
  | inr (interval_event, s', fresh_number, fighter, moved, e) ↦ ground arith
  | inr (continue_event, s', fresh_number, fighter, moved, e) ↦ ground arith
  | inr (finish_event, s', fresh_number, fighter, moved, e) ↦ ground arith
]

-- A message that is not from the Host leaves the scores and the phase of a series alone.
pub observe_guest :
    (s : SeriesProgress) (d : Observed) (owner : ℕ) (fighters : List ℕ) (to : Option (List ℕ))
    → d.sender ≢ owner
    → let s' = (observe s d owner fighters to).1 in (s'.scores ≡ s.scores) × (s'.phase ≡ s.phase)
observe_guest s d owner fighters to guest = elim (observe-cases s d owner fighters to) [
  | inl nothing ↦ ground arith
  | inr (ready_event, s', fresh_number, fighter, moved, e) ↦ ground arith
  | inr (interval_event, s', fresh_number, fighter, moved, e) ↦ absurd (guest moved.1)
  | inr (continue_event, s', fresh_number, fighter, moved, e) ↦ absurd (guest moved.1)
  | inr (finish_event, s', fresh_number, fighter, moved, e) ↦ absurd (guest moved.0)
]

-- A message with the Host, the fighters and the recipients at that time.
abbrev pub Word : Type 0
Word = Observed × ℕ × List ℕ × Option (List ℕ)

-- A series that has seen these messages, each with its Host, its fighters and its recipients.
unfoldable pub watch : SeriesProgress → List Word → SeriesProgress
watch s [] = s
watch s ((d, owner, fighters, to) ∷ ds) = watch (observe s d owner fighters to).1 ds

pub watch-IsOpen :
    (ds : List Word) (s : SeriesProgress)
    → IsOpen s
    → IsOpen (watch s ds) × ((watch s ds).limit ≡ s.limit)
unfolding watch
watch-IsOpen [] s h = (h, refl)
watch-IsOpen ((d, owner, fighters, to) ∷ ds) s h =
    let step = observe-IsOpen s d owner fighters to h in
    let rest = watch-IsOpen ds (observe s d owner fighters to).1 step.0 in (rest.0, rest.1 ∙ step.1)
