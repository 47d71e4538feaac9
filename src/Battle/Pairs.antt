-- ===== src/Battle/Pairs.antt =====
-- server/kk_local/battle_pairs.py: owned slips, pair selections and paired transforms.
use kungfukid_local_server.Base.{
  ℕ, ◌+◌, Bool, true, not, ◌&&◌, ◌||◌, Option, none, some, List, member, any, leb, ◌==◌,
  if◌then◌else◌, nat_eq, pair_eq, pair_beq,
}
use kungfukid_local_server.Base.Dict.{lookup, insert, erase}
use kungfukid_local_server.Hub.{Room, same_stage, Stage}
use kungfukid_local_server.Battle.Event.{Event, is_zero_float}
use kungfukid_local_server.Battle.Outcome.{
  Context, Outcome, ignore, unknown, relay, to_others, is_own, in_fighters, is_generic, passed,
  unless,
}
use kungfukid_local_server.Battle.Receipts.{no_player, note_sequence}

-- some component of a direction or the distance is not zero
abbrev moves : List ℕ → Bool
moves words = any (λ w. not (is_zero_float w)) words

-- `handle_owned_slip`
unfoldable pub decide_slip : Context → Event → Outcome
decide_slip x d =
    let r = x.room in
    let pair : ℕ × ℕ = (d.first_player, d.second_player) in
    unless (x.game && (in_fighters x.uid r && is_own x)) "slip connection mismatch" (
      unless (d.sender == x.uid) "slip sender spoof" (
        if not (is_generic d)
        then ignore none
        else if not (pair_beq pair (x.uid, 0) || (pair_beq pair (0, x.uid) || pair_beq pair (0, 0)))
        then unknown r none
        else if ((d.first_player == 0) && moves d.first_vector)
            || ((d.second_player == 0) && moves d.second_vector)
        then unknown r none
        else if passed d.sequence_19_raw (lookup (x.uid, 19) r.last_sequence)
        then ignore none
        else relay (note_sequence x.uid d.sequence_19_raw r) to_others))

abbrev delivered_to : Option (List ℕ) → ℕ → Bool
delivered_to none target = true
delivered_to (some recipients) target = member target recipients

-- the pair selection lasts 15 seconds
abbrev pub selection_ms : ℕ
selection_ms = 15000

-- the messages that `observe_pair_selection` takes note of
abbrev pub selects : Context → Event → Bool
selects x d =
    not x.capturing
    && (same_stage x.room.stage Stage.battle
        && (x.in_battle
            && (in_fighters x.uid x.room
                && (is_own x
                    && ((d.id == 8143)
                        && ((d.sender == x.uid)
                            && ((no_player d.player == x.uid) && is_generic d)))))))

-- `observe_pair_selection`: the room with the selection noted, replaced or withdrawn
unfoldable pub observe_pair_selection : Context → Event → Option (List ℕ) → Room
observe_pair_selection x d recipients =
    let r = x.room in
    if not (selects x d)
    then r
    else if passed d.sequence_19_raw (lookup x.uid r.pair_selection_versions)
    then r
    else record r {
      pair_selection_versions = insert x.uid d.sequence_19_raw r.pair_selection_versions;
      pair_selections =
          if in_fighters d.target r
            && (not (d.target == x.uid)
                && ((d.target_timeout_raw == 15000) && delivered_to recipients d.target))
          then insert x.uid (d.target, x.now + selection_ms) r.pair_selections
          else erase x.uid r.pair_selections;
    }

-- `handle_pair_transform`; `first_now` is the clock of the first player's engine
unfoldable pub decide_pair_transform : Context → Event → ℕ → Outcome
decide_pair_transform x d first_now =
    let r = x.room in
    let first = d.first_player in
    unless (x.game && (in_fighters x.uid r && is_own x)) "paired transform connection mismatch" (
      unless (d.sender == x.uid) "paired transform sender spoof" (
        if not (in_fighters first r)
          || (not (in_fighters d.second_player r)
              || ((first == d.second_player)
                  || (not (d.second_player == x.uid) || not (is_generic d))))
        then unknown r none
        else elim (lookup first r.pair_selections) [
          | none ↦ unknown r none
          | some selection ↦
              if not (selection.0 == d.second_player)
              then unknown r none
              else if leb selection.1 first_now
              then unknown (record r { pair_selections = erase first r.pair_selections }) none
              else if passed d.sequence_19_raw (lookup (x.uid, 19) r.last_sequence)
              then ignore none
              else relay (note_sequence x.uid d.sequence_19_raw r) to_others
        ]))
