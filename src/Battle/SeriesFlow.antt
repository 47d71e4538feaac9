-- ===== src/Battle/SeriesFlow.antt =====
-- server/kk_local/battle_results.py: the events of a team series within a room.
use kungfukid_local_server.Base.{
  ℕ, not, ◌&&◌, Option, none, some, List, ◌==◌, if◌then◌else◌, nat_eq, pair_eq,
}
use kungfukid_local_server.Base.Dict.{lookup, keys}
use kungfukid_local_server.Hub.{Room, Stage, same_stage, fighters}
use kungfukid_local_server.Series.{SeriesEvent, Observed, observe, ready_event, continue_event}
use kungfukid_local_server.Battle.Event.{Event}
use kungfukid_local_server.Battle.Outcome.{
  Context, Outcome, ignore, unknown, relay, to_one, to_others, is_own, in_fighters, passed, unless,
}
use kungfukid_local_server.Battle.Receipts.{note_sequence}

abbrev pub observed : Event → Observed
observed d = record {
  id = d.id;
  sender = d.sender;
  flag = d.flag;
  header_variant = d.header_variant;
  sequence_19_raw = d.sequence_19_raw;
  interval_arguments_raw = d.interval_arguments_raw;
}

-- a new round starts the battle clock again, by the owner's engine
abbrev pub restart_clock : Option SeriesEvent → ℕ → Room → Room
restart_clock (some continue_event) now r = record r {
  battle_clock_origin = some now;
  battle_clock_last = 0;
}
restart_clock _ now r = r

-- `observe_series_event`; `owner_now` is the clock of the owner's engine
unfoldable pub observe_series_event :
    Context → Event → Option (List ℕ) → ℕ → Option SeriesEvent × Room
observe_series_event x d recipients owner_now =
    let r = x.room in
    elim r.series [
      | none ↦ (none, r)
      | some series ↦
          if not (
            same_stage r.stage Stage.battle
            && (x.in_battle && (in_fighters x.uid r && (is_own x && (d.sender == x.uid)))))
          then (none, r)
          else let (event, progress) =
              observe series (observed d) r.owner (keys (fighters r)) recipients in
            (event, restart_clock event owner_now (record r { series = some progress }))
    ]

abbrev pub relay_event : Option SeriesEvent → Context → Event → Room → Outcome
relay_event none x d r = unknown r none
relay_event (some ready_event) x d r =
    relay (note_sequence x.uid d.sequence_19_raw r) (to_one r.owner)
relay_event (some _) x d r = relay (note_sequence x.uid d.sequence_19_raw r) to_others

-- `handle_series_event`
unfoldable pub decide_series_event : Context → Event → ℕ → Outcome
decide_series_event x d owner_now =
    let r = x.room in
    unless (x.game && (in_fighters x.uid r && is_own x)) "series event connection mismatch" (
      unless (d.sender == x.uid) "series sender spoof" (elim r.series [
        | none ↦ unknown r none
        | some _ ↦
            if passed d.sequence_19_raw (lookup (x.uid, 19) r.last_sequence)
            then ignore none
            else let (event, r') = observe_series_event x d none owner_now in
              relay_event event x d r'
      ]))
