-- ===== src/Tests/Battle.antt =====
-- The theorems on battle messages, at one room.
use kungfukid_local_server.Base.{◌≡◌, refl, true, ◌⊎◌, inl, none, some, [], arith, nat_eq}
use kungfukid_local_server.Base.Dict.{lookup}
use kungfukid_local_server.Hub.{Room, Reservation}
use kungfukid_local_server.Battle.Outcome.{ignore, relay, to_one, to_others}
use kungfukid_local_server.Battle.Receipts.{
  decide_pickup, pickup_completion, note_sequence, requests_of,
}
use kungfukid_local_server.Battle.Receipts.Reservations.{
  IsExclusive, pickup-IsExclusive, completion_needs_approval,
}
use kungfukid_local_server.Battle.Hits.{decide_hit_receipt, decide_fresh_receipt, spend_hit}
use kungfukid_local_server.Battle.Relay.{
  decide_relay, decide_object, check_identity, check_sender, check_actor, check_references,
  check_order, commit, lane_15, lane_19,
}
use kungfukid_local_server.Battle.Handler.{decide_at}
use kungfukid_local_server.Battle.Once.{decide_once}
use kungfukid_local_server.Battle.Once.Others.{after}
use kungfukid_local_server.Battle.Authority.{IsAuthentic, relayed-IsAuthentic}
use kungfukid_local_server.Battle.Projectiles.{Continues, relayed-Continues}
use kungfukid_local_server.Battle.Spending.{SpendsOne, receipt_spends}
use kungfukid_local_server.Tests.Data.{
  room, guest, move, shot, shot_ends, receipt, completion, payload,
}

abbrev moved : Room
moved = commit guest move payload lane_15

move_relayed : decide_at guest move payload 0 0 ≡ relay moved to_others
unfolding decide_at decide_relay check_identity check_sender check_actor check_references
    check_order decide_object
move_relayed = refl

decide_once_example :
    (decide_at (after guest moved) move payload 0 0 ≡ ignore none)
    ⊎ (decide_at (after guest moved) move payload 0 0 ≡ ignore (some "sequence_stale"))
decide_once_example = decide_once guest move payload 0 0 moved to_others move_relayed

relayed-IsAuthentic_example : IsAuthentic guest move
relayed-IsAuthentic_example =
    relayed-IsAuthentic guest move payload 0 0 moved to_others move_relayed

abbrev ended : Room
ended = commit guest shot_ends payload lane_19

end_relayed : decide_relay guest shot_ends payload ≡ relay ended to_others
unfolding decide_relay check_identity check_sender check_actor check_references check_order
    decide_object
end_relayed = refl

relayed-Continues_example : Continues shot (lookup 12 ended.projectiles)
relayed-Continues_example =
    relayed-Continues guest shot_ends payload ended to_others 12 shot end_relayed refl

abbrev received : Room
received = note_sequence 9 6 (spend_hit 9 receipt [] room)

receipt_relayed : decide_hit_receipt guest receipt ≡ relay received (to_one 7)
unfolding decide_hit_receipt decide_fresh_receipt
receipt_relayed = refl

receipt_spends_example : SpendsOne guest receipt received
receipt_spends_example = receipt_spends guest receipt received (to_one 7) receipt_relayed

abbrev picked : Room
picked = note_sequence 9 6 (record room { pickup_requests = [] })

completion_relayed : decide_pickup guest completion ≡ relay picked to_others
unfolding decide_pickup pickup_completion
completion_relayed = refl

pickup-IsExclusive_example : IsExclusive (requests_of 9002 picked)
pickup-IsExclusive_example =
    pickup-IsExclusive guest completion picked to_others completion_relayed
      (record { one = λ a b ra rb ea eb pa pb k. ground arith })

completion_needs_approval_example :
    (held : Reservation) × (lookup 9 (requests_of 9002 room) ≡ some held)
    × (held.key ≡ 40)
    × (held.approved ≡ true)
    × (lookup 9 (requests_of 9002 picked) ≡ none)
completion_needs_approval_example =
    completion_needs_approval guest completion picked to_others (inl refl) (omega arith)
      completion_relayed
