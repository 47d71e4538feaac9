-- ===== src/Tests/Isolation.antt =====
-- Player 9 applies a state to itself: what the room holds of player 7 stays.
use kungfukid_local_server.Base.{
  ℕ, ◌≡◌, ◌⊎◌, refl, some, [], ◌∷◌, ◌++◌, replicate, arith, nat_eq, pair_eq,
}
use kungfukid_local_server.Base.Bytes.{Bytes, to_le}
use kungfukid_local_server.Base.Dict.{lookup}
use kungfukid_local_server.Base.Exec.{ok}
use kungfukid_local_server.Hub.{Room}
use kungfukid_local_server.Battle.Event.{Event, Operation, header}
use kungfukid_local_server.Battle.Decode.{decode_battle}
use kungfukid_local_server.Battle.Outcome.{relay, to_others}
use kungfukid_local_server.Battle.Relay.{
  decide_relay, decide_object, check_identity, check_sender, check_actor, check_references,
  check_order, commit, lane_19,
}
use kungfukid_local_server.Battle.Isolation.{SameOf, Cancels, relayed_others}
use kungfukid_local_server.Tests.Data.{room, guest}

-- 8150 from 9, number 6: state 4 with parameter 2 and event 1, applied by 9 to itself
abbrev applies : Bytes
applies =
    to_le 4 8150
    ++ (to_le 8 9
        ++ ((1 ∷ 1 ∷ 0 ∷ [])
            ++ (to_le 4 0
                ++ (to_le 4 6
                    ++ (replicate 16 0
                        ++ (to_le 8 9
                            ++ (to_le 8 9
                                ++ (to_le 4 4
                                    ++ (to_le 4 2
                                        ++ (to_le 4 1
                                            ++ (replicate 8 0
                                                ++ (to_le 4 1
                                                    ++ (to_le 4 3 ++ to_le 4 5)))))))))))))

abbrev state : Event
state = record (header 8150 9 1 1 0 6) {
  player = some 9;
  source = 9;
  target = 9;
  ustate_code = 4;
  parameter_signed = 2;
  event_raw = 1;
  operation = Operation.apply;
  room_pair = some (3, 5);
}

state_decoded : decode_battle applies ≡ ok (some state)
unfolding decode_battle
state_decoded = refl

abbrev stronger : Room
stronger = commit guest state applies lane_19

state_relayed : decide_relay guest state applies ≡ relay stronger to_others
unfolding decide_relay check_identity check_sender check_actor check_references check_order
    decide_object
state_relayed = refl

relayed_others_example :
    SameOf 7 room stronger
    × ((code : ℕ)
        → (lookup (7, code) stronger.active_states ≡ lookup (7, code) room.active_states)
          ⊎ Cancels guest state 7 code stronger)
relayed_others_example =
    relayed_others guest state applies stronger to_others 7 state_decoded state_relayed
      (omega arith)
