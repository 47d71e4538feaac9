-- ===== src/Series.antt =====
-- server/kk_local/team_series.py: the tracking of a team series by its native Host decisions.
pub mod Rounds
pub mod Replay
pub mod Final
use kungfukid_local_server.Base.{
  ℕ, ◌+◌, ◌/◌, Bool, true, false, not, ◌&&◌, ◌||◌, Option, none, some, List, [], ◌∷◌, max, min, ltb,
  leb, ◌==◌, if◌then◌else◌, nat_eq, pair_eq, pair_beq, member,
}
use kungfukid_local_server.Base.Bytes.{Bytes}
use kungfukid_local_server.Base.Dict.{Dict, lookup, insert}

pub record SeriesRow : Type 0 where
  pub uid : ℕ
  pub name_raw : Bytes
  pub value_raw : ℕ

pub record SeriesReport : Type 0 where
  pub scores : ℕ × ℕ
  pub perfect : Bool
  pub organization_keys : ℕ × ℕ
  pub organization_names_raw : Bytes × Bytes
  pub rows : List SeriesRow

pub data SeriesPhase : Type 0 where
  playing interval finishing result : SeriesPhase

pub record SeriesProgress : Type 0 where
  pub limit : ℕ
  pub scores : ℕ × ℕ
  pub phase : SeriesPhase
  pub ready : List ℕ
  pub viewing : List ℕ
  pub versions : Dict ℕ ℕ
  pub report : Option SeriesReport

-- `SeriesProgress(limit)`
abbrev pub fresh : ℕ → SeriesProgress
fresh limit = record {
  limit = limit;
  scores = (0, 0);
  phase = playing;
  ready = [];
  viewing = [];
  versions = [];
  report = none;
}

-- `sequence <= d.get(key, -1)`: a number that has been passed, or repeats.
abbrev pub stale : ℕ → Option ℕ → Bool
stale sequence none = false
stale sequence (some seen) = leb sequence seen

abbrev pub is_playing : SeriesPhase → Bool
is_playing playing = true
is_playing _ = false

abbrev pub is_interval : SeriesPhase → Bool
is_interval interval = true
is_interval _ = false

abbrev pub is_finishing : SeriesPhase → Bool
is_finishing finishing = true
is_finishing _ = false

pub data SeriesEvent : Type 0 where
  ready_event interval_event continue_event finish_event : SeriesEvent

-- What `observe` reads of a decoded message.
pub record Observed : Type 0 where
  pub id : ℕ
  pub sender : ℕ
  pub flag : ℕ
  pub header_variant : ℕ
  pub sequence_19_raw : ℕ
  pub interval_arguments_raw : ℕ × ℕ

-- `recipients is not None and owner not in recipients`
abbrev not_delivered : Option (List ℕ) → ℕ → Bool
not_delivered none owner = false
not_delivered (some recipients) owner = not (member owner recipients)

-- at most one of the two scores is one higher
abbrev one_round : ℕ × ℕ → ℕ × ℕ → Bool
one_round new (a, b) = pair_beq new (a, b) || (pair_beq new (a + 1, b) || pair_beq new (a, b + 1))

-- The transition of an accepted event, before its sequence number is noted.
unfoldable pub transition :
    SeriesProgress → Observed → ℕ → Option (List ℕ) → Option (SeriesEvent × SeriesProgress)
transition s d owner recipients =
    if d.id == 8296
    then (if (d.sender == owner)
          || (not (is_interval s.phase)
              || (member d.sender s.ready || not_delivered recipients owner))
        then none
        else some (ready_event, record s { ready = d.sender ∷ s.ready }))
    else if not (d.sender == owner)
    then none
    else if d.id == 8294
    then (if not (is_playing s.phase)
          || (not (one_round d.interval_arguments_raw s.scores)
              || ltb (s.limit / 2) (max d.interval_arguments_raw.0 d.interval_arguments_raw.1))
        then none
        else some (
          interval_event,
          record s { scores = d.interval_arguments_raw; phase = interval; ready = owner ∷ [] },
        ))
    else if d.id == 8295
    then (if is_interval s.phase
        then some (continue_event, record s { phase = playing; ready = [] })
        else none)
    else if is_playing s.phase
    then some (finish_event, record s { phase = finishing })
    else none

-- `observe`: the event that was accepted, if any, and the progress after it.
unfoldable pub observe :
    SeriesProgress → Observed → ℕ → List ℕ → Option (List ℕ) → Option SeriesEvent × SeriesProgress
observe s d owner fighters recipients =
    if not (member d.sender fighters)
      || (not (pair_beq (d.flag, d.header_variant) (1, 1))
          || not ((d.id == 8294) || ((d.id == 8295) || ((d.id == 8296) || (d.id == 8297)))))
    then (none, s)
    else if stale d.sequence_19_raw (lookup d.sender s.versions)
    then (none, s)
    else elim (transition s d owner recipients) [
      | none ↦ (none, s)
      | some (event, s') ↦
          (some event, record s' { versions = insert d.sender d.sequence_19_raw s'.versions })
    ]

abbrev same_flag : Bool → Bool → Bool
same_flag true c = c
same_flag false c = not c

unfoldable pub accepts_final : SeriesProgress → SeriesReport → Bool
accepts_final s report =
    let (a, b) = s.scores in
    let (x, y) = report.scores in
    let win = s.limit / 2 + 1 in
    if not (is_finishing s.phase)
    then false
    else (pair_beq (x, y) (a + 1, b) || pair_beq (x, y) (a, b + 1))
      && ((max x y == win) && (ltb (min x y) win && same_flag report.perfect (min x y == 0)))
