-- ===== src/Battle/Results.antt =====
-- server/kk_local/battle_results.py: `handle_lab_result`, the end of a match by what the clients report.
-- What the store answers is a parameter; the grants that it commits are kept in a list.
pub mod Rewards
use kungfukid_local_server.Base.{
  ℕ, Bool, true, false, not, ◌&&◌, ◌||◌, Option, none, some, List, [], ◌∷◌, ◌++◌, length, member,
  add, all, same_set, ◌==◌, if◌then◌else◌, nat_eq, is_some,
}
use kungfukid_local_server.Base.Bytes.{Bytes, bytes_eq}
use kungfukid_local_server.Base.Dict.{Dict, lookup, insert, contains, keys, map_values}
use kungfukid_local_server.Base.Exec.{
  Result, ok, raised, Exec, pure, raise, gets, lift, or_raise, modify, require, when, for_each,
  ◌>>=◌, ◌>>◌,
}
use kungfukid_local_server.Wire.{Message}
use kungfukid_local_server.Settlement.{ReportSlot, decode_report}
use kungfukid_local_server.Settlement.Consensus.{
  View, Verdict, missing, disagreement, agreed, consensus_survival, consensus_elimination,
  consensus_reborn,
}
use kungfukid_local_server.Settlement.Payload.{result_payload}
use kungfukid_local_server.Hub.{
  Hub, Action, Room, Member, Engine, Connection, Stage, same_stage, engine_of, fighters, mode_of,
  queue, cancel_pending, take_pending,
}
use kungfukid_local_server.Battle.Outcome.{record_unknown}
use kungfukid_local_server.Rooms.Members.{change_room, message}
use kungfukid_local_server.Rooms.Barriers.{advance_barriers}

-- what the store answers: the profile of a player, whether quests follow the matches, the profiles after
-- a grant for the battle of a serial, and what that grant gave to whom
pub record Store : Type 0 where
  pub profile : ℕ → Bytes
  pub has_rules : Bool
  pub award_match_points : ℕ → Dict ℕ ℕ → Dict ℕ ℕ → ℕ → Result (Dict ℕ Bytes)
  pub match_point_awards : ℕ → Dict ℕ ℕ

-- the hub, and the grants so far: the serial of a battle and its outcomes
pub record Ledger : Type 0 where
  pub hub : Hub
  pub grants : List (ℕ × Dict ℕ ℕ)

abbrev pub on_hub : {A : Type 0} → Action A → Exec Ledger A
on_hub m l = let (r, h) = m l.hub in (r, record l { hub = h })

-- `a == b` on two reports
abbrev same_slot : Option ReportSlot → Option ReportSlot → Bool
same_slot (some a) (some b) =
    (a.uid == b.uid)
    && ((a.maximum_hp == b.maximum_hp)
        && ((a.hp == b.hp) && ((a.result_parameter == b.result_parameter) && bytes_eq a.raw b.raw)))
same_slot _ _ = false

abbrev pub same_view : View → View → Bool
same_view a b =
    same_set (keys a) (keys b) && all (λ u. same_slot (lookup u a) (lookup u b)) (keys a)

-- `{member.slot: member_uid for … in room.fighters.items()}`
abbrev pub slots_of : Dict ℕ Member → Dict ℕ ℕ → Dict ℕ ℕ
slots_of [] roster = roster
slots_of ((uid, m) ∷ ms) roster = slots_of ms (insert m.slot uid roster)

abbrev pub roster_of : Room → Dict ℕ ℕ
roster_of r = slots_of (fighters r) []

-- who fights together: in modes 0 and 2 everyone alone
abbrev pub groups_in : Room → Dict ℕ ℕ
groups_in r =
    let single = (mode_of r.request == 0) || (mode_of r.request == 2) in
    map_values {V = Member} (λ u m. if single then u else m.team) (fighters r)

-- a disagreement on who stands is a draw in public where nothing can be won, and refused elsewhere
unfoldable pub safe_draw : Bool → Dict ℕ ℕ → Verdict → Result (Option (Dict ℕ ℕ))
safe_draw public groups missing = ok none
safe_draw public groups (agreed outcomes) = ok (some outcomes)
safe_draw public groups disagreement =
    if public
    then ok (some (map_values {V = ℕ} (λ _ _. 0) groups))
    else raised "settlement peer survival disagreement"

-- the outcomes by the mode of the room, and whether they are such a draw
unfoldable pub judge : Bool → Room → Dict ℕ View → Result (Option (Dict ℕ ℕ))
judge public r candidate =
    let mode = mode_of r.request in
    if mode == 16
    then consensus_reborn candidate (keys (fighters r))
    else if (mode == 0) || (mode == 1)
    then elim (consensus_survival candidate (groups_in r)) [
      | raised why ↦ raised why
      | ok verdict ↦ safe_draw public (groups_in r) verdict
    ]
    else consensus_elimination candidate (groups_in r) (mode == 3)

abbrev is_disagreement : Result Verdict → Bool
is_disagreement (ok disagreement) = true
is_disagreement _ = false

abbrev pub is_open : Room → Dict ℕ View → Bool
is_open r candidate =
    ((mode_of r.request == 0) || (mode_of r.request == 1))
    && is_disagreement (consensus_survival candidate (groups_in r))

-- `counts['settlement_hp_disagreement_safe_draw'] += 1`
abbrev pub count_draw : Room → Dict ℕ View → Hub → Hub
count_draw r candidate h =
    if is_open r candidate
    then record h {
      metrics = elim h.metrics [
        | none ↦ none
        | some rows ↦ some ((0, "settlement_hp_disagreement_safe_draw", 1) ∷ rows)
      ];
    }
    else h

-- the policy under which a disagreement is a draw
abbrev pub is_casual : Hub → Bool
is_casual h = is_some h.public_rooms && not h.permanent_battle_rewards_allowed

-- `candidate[room.owner]` in mode 16
abbrev reborn_reports : Room → Dict ℕ View → Result (Option View)
reborn_reports r candidate =
    if mode_of r.request == 16
    then elim (lookup r.owner candidate) [
      | none ↦ raised "no report of the owner"
      | some v ↦ ok (some v)
    ]
    else ok none

-- every outgoing profile makes a payload
unfoldable pub check_profiles : Store → Dict ℕ ℕ → Option View → Dict ℕ Member → Result (Unit {0})
check_profiles store outcomes reports [] = ok tt
check_profiles store outcomes reports ((u, _) ∷ ms) =
    elim (result_payload outcomes u (some (store.profile u)) [] false reports) [
      | raised why ↦ raised why
      | ok _ ↦ check_profiles store outcomes reports ms
    ]

abbrev profiles_of : Store → Dict ℕ Member → Dict ℕ Bytes
profiles_of store ms = map_values {V = Member} (λ u _. store.profile u) ms

-- `hub.match_point_rewards or {0: 0, 1: 0, 2: 0}`
abbrev points_for : Option (Dict ℕ ℕ) → Dict ℕ ℕ
points_for none = (0, 0) ∷ (1, 0) ∷ (2, 0) ∷ []
points_for (some rewards) = rewards

-- the store's answer to a grant; one that it refuses is not there
abbrev pub book_grant :
    Store → ℕ → Dict ℕ ℕ → Result (Dict ℕ Bytes) → Exec Ledger (Dict ℕ Bytes × Dict ℕ ℕ)
book_grant store serial outcomes (raised why) l = (raised why, l)
book_grant store serial outcomes (ok profiles) l = (
  ok (profiles, store.match_point_awards serial),
  record l { grants = (serial, outcomes) ∷ l.grants },
)

-- the durable grant: the profiles after it and what was awarded
unfoldable pub grant : Store → Room → Dict ℕ ℕ → Exec Ledger (Dict ℕ Bytes × Dict ℕ ℕ)
grant store r outcomes l =
    if l.hub.permanent_battle_rewards_allowed
      && (is_some l.hub.match_point_rewards || store.has_rules)
    then book_grant store r.serial outcomes
        (store.award_match_points r.serial outcomes (points_for l.hub.match_point_rewards)
          (mode_of r.request))
        l
    else (ok (profiles_of store (fighters r), []), l)

unfoldable pub replies_to :
    Dict ℕ ℕ → Dict ℕ Bytes → Dict ℕ ℕ → Option View → Dict ℕ Member → Result (Dict ℕ Message)
replies_to outcomes profiles awards reports [] = ok []
replies_to outcomes profiles awards reports ((u, m) ∷ ms) =
    elim (result_payload outcomes u (lookup u profiles) awards m.spectator reports) [
      | raised why ↦ raised why
      | ok payload ↦ elim (replies_to outcomes profiles awards reports ms) [
        | raised why ↦ raised why
        | ok replies ↦ ok ((u, message 4120 payload) ∷ replies)
      ]
    ]

abbrev pub award_and_reply : Store → Room → Dict ℕ ℕ → Option View → Exec Ledger (Dict ℕ Message)
award_and_reply store r outcomes reports = grant store r outcomes >>= λ granted.
    lift (replies_to outcomes granted.0 granted.1 reports r.members)

-- nothing goes to the ledger before every profile is checked
unfoldable pub reply_with : Store → Room → Dict ℕ ℕ → Option View → Exec Ledger (Dict ℕ Message)
reply_with store r outcomes reports =
    lift (check_profiles store outcomes reports (fighters r))
    >> award_and_reply store r outcomes reports

-- the replies of decided outcomes
unfoldable pub prepare :
    Store → Room → Dict ℕ View → Option (Dict ℕ ℕ) → Exec Ledger (Dict ℕ Message)
prepare store r candidate none = pure []
prepare store r candidate (some outcomes) =
    lift (reborn_reports r candidate) >>= reply_with store r outcomes

-- a fighter that has not reported is asked for its report, once
unfoldable pub request_report : ℕ → Dict ℕ View → List ℕ → ℕ × Member → Action (Unit {0})
request_report n candidate requested (target, m) =
    if contains target candidate || member target requested
    then pure tt
    else modify (change_room n (λ r. record r { result_requests = add target r.result_requests }))
      >> queue m.engine (message 4100 [])

unfoldable pub send_reply : Dict ℕ Member → ℕ × Message → Action (Unit {0})
send_reply members (target, reply) = elim (lookup target members) [
  | none ↦ raise "no member"
  | some m ↦ queue m.engine reply
]

-- the room takes the report and, where it is decided, the result
unfoldable pub commit_result :
    Room → Dict ℕ View → Option (Dict ℕ ℕ) → Dict ℕ Message → Action (Unit {0})
commit_result r candidate outcomes replies =
    modify (change_room r.number (λ r. record r { result_reports = candidate }))
    >> ((if not (is_some outcomes) && contains r.owner candidate
          then for_each (fighters r) (request_report r.number candidate r.result_requests)
          else pure tt)
        >> (if length replies == 0
            then pure tt
            else modify (
                change_room r.number
                  (λ r. record r { result_replies = replies; stage = Stage.result }))
              >> for_each replies (send_reply r.members)))

-- the result is prepared, and the room takes it
unfoldable pub finish_report :
    Store → Room → Dict ℕ View → Option (Dict ℕ ℕ) → Exec Ledger (Unit {0})
finish_report store r candidate outcomes =
    on_hub (modify (count_draw r candidate))
    >> (prepare store r candidate outcomes >>= λ replies.
        on_hub (commit_result r candidate outcomes replies))

-- a first report of a fighter
unfoldable pub settle_report : Store → Room → Dict ℕ View → Exec Ledger (Unit {0})
settle_report store r candidate l =
    (lift (judge (is_casual l.hub) r candidate) >>= finish_report store r candidate) l

-- 4115: a member has seen the result
unfoldable pub note_seen : ℕ → Connection → Room → Message → Action (List Message)
note_seen engine c r msg =
    require (length msg.payload == 4) "4115 elapsed-time length"
    >> (if not (contains c.uid r.result_replies)
        then pure []
        else modify (change_room r.number (λ r. record r { result_acks = add c.uid r.result_acks }))
          >> (advance_barriers r.number >> take_pending engine c))

-- whether the room takes reports at all
abbrev pub takes_reports : Room → Bool
takes_reports r =
    (same_stage r.stage Stage.battle
      || (same_stage r.stage Stage.result || same_stage r.stage Stage.room))
    && not (same_stage r.stage Stage.room && (length r.result_replies == 0))

-- 4110: a member reports; a report that repeats is passed over, and one that changes is refused
unfoldable pub note_report :
    Store → ℕ → Connection → Room → Member → Message → Exec Ledger (List Message)
note_report store engine c r m msg =
    if m.spectator || not (takes_reports r)
    then pure []
    else lift (decode_report msg.payload (roster_of r) r.number r.serial) >>= λ decoded.
        on_hub (cancel_pending engine 4100) >> elim (lookup c.uid r.result_reports) [
          | some prior ↦
              require (same_view prior decoded) "4110 changed duplicate report" >> pure []
          | none ↦
              settle_report store r (insert c.uid decoded r.result_reports)
              >> on_hub (take_pending engine c)
        ]

-- modes 0 to 3 and 16
abbrev pub has_result : ℕ → Bool
has_result mode = member mode (0 ∷ 1 ∷ 2 ∷ 3 ∷ 16 ∷ [])

abbrev pub room_of : ℕ → Hub → Option Room
room_of engine h = elim (engine_of engine h) [
  | none ↦ none
  | some e ↦ elim e.room [ none ↦ none | some n ↦ lookup n h.rooms ]
]

-- `handle_lab_result(engine, c, message)`
unfoldable pub handle_lab_result : Store → ℕ → Connection → Message → Exec Ledger (List Message)
handle_lab_result store engine c msg = gets (λ l. room_of engine l.hub) >>= λ found.
    let unknown : Exec Ledger (List Message) =
      on_hub (record_unknown engine c msg.id msg.payload >> pure []) in
    elim found [
      | none ↦ unknown
      | some r ↦ elim (lookup c.uid r.members) [
        | none ↦ unknown
        | some m ↦
            if not (has_result (mode_of r.request))
            then unknown
            else if msg.id == 4115
            then on_hub (note_seen engine c r msg)
            else note_report store engine c r m msg
      ]
    ]
