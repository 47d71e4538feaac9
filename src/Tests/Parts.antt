-- ===== src/Tests/Parts.antt =====
-- The theorems on the parts below the battle, at concrete inputs.
use kungfukid_local_server.Base.{
  ℕ, ◌+◌, ◌/◌, ◌≤◌, ◌≡◌, ◌≢◌, ◌↔◌, refl, true, ◌⊎◌, none, some, [], ◌∷◌, arith, nat_eq, max, min,
  if◌then◌else◌, ◌==◌, List, Option,
}
use kungfukid_local_server.Base.Dict.{lookup}
use kungfukid_local_server.Base.Exec.{ok}
use kungfukid_local_server.Budget.{MemoryBudget, create, count, set, release}
use kungfukid_local_server.Budget.Invariant.{IsSound, set-IsSound, set_lem, release_frees}
use kungfukid_local_server.Series.{
  SeriesReport, Observed, fresh, observe, transition, accepts_final, interval_event,
}
use kungfukid_local_server.Series.Rounds.{IsOpen, observe-IsOpen, observe_guest, watch}
use kungfukid_local_server.Series.Replay.{observe_once}
use kungfukid_local_server.Series.Final.{end_told, intervals_told, final_decides}
use kungfukid_local_server.Hub.{Engine, enqueue, append_pending}
use kungfukid_local_server.Wire.{Message}
use kungfukid_local_server.Hub.QueueLaws.{IsQueue, enqueue-queues}
use kungfukid_local_server.Tests.Data.{hub, engine}

abbrev budget : MemoryBudget
budget = create 1000 (some 600)

budget-IsSound : IsSound budget
budget-IsSound = record {
  keyed = tt;
  sum = refl;
  bounded = omega arith;
  placed = λ o e. refl;
  within = λ p g e nonzero. omega arith;
  grouped = λ g. refl;
}

set-IsSound_example : IsSound (set 7 100 none budget).1
set-IsSound_example = set-IsSound budget 7 100 none budget-IsSound

set_lem_example :
    ((set 7 100 none budget).0 ≡ ok tt)
      × (count 9 (set 7 100 none budget).1.owners ≡ (if 7 == 9 then 100 else count 9 budget.owners))
    ⊎ ((set 7 100 none budget).0 ≢ ok tt) × ((set 7 100 none budget).1 ≡ budget)
set_lem_example = set_lem budget 7 100 none 9

release_frees_example :
    let b = (set 7 100 none budget).1 in
    ((release 7 b).0 ≡ ok tt)
    × (count 7 (release 7 b).1.owners ≡ 0)
    × ((release 7 b).1.used + count 7 b.owners ≡ b.used)
release_frees_example = release_frees (set 7 100 none budget).1 7 set-IsSound_example

abbrev host_report : Observed
host_report = record {
  id = 8294;
  sender = 7;
  flag = 1;
  header_variant = 1;
  sequence_19_raw = 5;
  interval_arguments_raw = (1, 0);
}

abbrev guest_ready : Observed
guest_ready = record host_report { id = 8296; sender = 9 }

observe-IsOpen_example :
    let s = (observe (fresh 3) host_report 7 (7 ∷ 9 ∷ []) none).1 in IsOpen s × (s.limit ≡ 3)
observe-IsOpen_example =
    observe-IsOpen (fresh 3) host_report 7 (7 ∷ 9 ∷ []) none (omega arith, omega arith)

observe_guest_example :
    let before = (observe (fresh 3) host_report 7 (7 ∷ 9 ∷ []) none).1 in
    let s = (observe before guest_ready 7 (7 ∷ 9 ∷ []) none).1 in
    (s.scores ≡ before.scores) × (s.phase ≡ before.phase)
observe_guest_example =
    observe_guest (observe (fresh 3) host_report 7 (7 ∷ 9 ∷ []) none).1 guest_ready 7 (7 ∷ 9 ∷ [])
      none (omega arith)

abbrev Row : Type 0
Row = Observed × ℕ × List ℕ × Option (List ℕ)

abbrev rounds : List Row
rounds =
    (host_report, 7, (7 ∷ 9 ∷ []), none)
    ∷ (record host_report { id = 8295; sequence_19_raw = 6 }, 7, (7 ∷ 9 ∷ []), none)
    ∷ (record host_report { id = 8297; sequence_19_raw = 7 }, 7, (7 ∷ 9 ∷ []), none)
    ∷ []

abbrev report : SeriesReport
report = record {
  scores = (2, 0);
  perfect = true;
  organization_keys = (0, 0);
  organization_names_raw = ([], []);
  rows = [];
}

report_accepted : accepts_final (watch (fresh 3) rounds) report ≡ true
unfolding accepts_final watch observe transition
report_accepted = refl

final_decides_example :
    (end_told rounds ≡ true)
    × (2 + 0 ≤ intervals_told rounds + 1)
    × (max 2 0 ≡ 3 / 2 + 1)
    × (min 2 0 ≤ 3 / 2)
    × ((true ≡ true) ↔ (min 2 0 ≡ 0))
final_decides_example = final_decides 3 rounds report report_accepted

told : (observe (fresh 3) host_report 7 (7 ∷ 9 ∷ []) none).0 ≡ some interval_event
unfolding observe transition
told = refl

-- after the Host's 8295 the series plays again, and the old report comes once more
observe_once_example :
    let s =
      watch
        (observe (fresh 3) host_report 7 (7 ∷ 9 ∷ []) none).1
        ((record host_report { id = 8295; sequence_19_raw = 6 }, 7, (7 ∷ 9 ∷ []), none) ∷ []) in
    observe s host_report 7 (7 ∷ 9 ∷ []) none ≡ (none, s)
observe_once_example =
    observe_once (fresh 3) host_report 7 (7 ∷ 9 ∷ []) none interval_event
      ((record host_report { id = 8295; sequence_19_raw = 6 }, 7, (7 ∷ 9 ∷ []), none) ∷ [])
      host_report 7 (7 ∷ 9 ∷ []) none told refl (omega arith)

engines-IsQueue : (j : ℕ) (e : Engine) → lookup j hub.engines ≡ some e → IsQueue e
engines-IsQueue j e found = ground arith

abbrev note : Message
note = record { id = 8071; payload = 1 ∷ [] }

abbrev queued : Engine
queued = (append_pending note (engine 9) none).0

queued_there : lookup 9 (enqueue 9 note hub).1.engines ≡ some queued
unfolding enqueue append_pending
queued_there = refl

queued_lem : queued.pending_messages ≡ note ∷ []
unfolding append_pending
queued_lem = refl

enqueue-queues_example : IsQueue queued
enqueue-queues_example = enqueue-queues 9 note hub engines-IsQueue 9 queued queued_there
