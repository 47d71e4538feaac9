-- ===== src/Battle/Hits.antt =====
-- server/kk_local/battle_receipts.py: handle_hit_receipt.
use kungfukid_local_server.Base.{
  ℕ, not, ◌&&◌, ◌||◌, none, some, List, [], ◌==◌, if◌then◌else◌, nat_eq, pair_eq,
}
use kungfukid_local_server.Base.Dict.{lookup, insert}
use kungfukid_local_server.Hub.{Room, HitWitness, DeathWitness}
use kungfukid_local_server.Battle.Event.{Event}
use kungfukid_local_server.Battle.Outcome.{
  Context, Outcome, Delivery, ignore, unknown, relay, to_one, nobody, is_own, in_members,
  in_fighters, is_generic, passed, unless,
}
use kungfukid_local_server.Battle.Receipts.{
  note_sequence, append_bounded, take_hit, take_death, permits,
}

abbrev pub hit_ledger : ℕ → Room → List HitWitness
hit_ledger uid r = elim (lookup uid r.pending_hit_receipts) [ none ↦ [] | some rows ↦ rows ]

abbrev pub death_ledger : ℕ → Room → List DeathWitness
death_ledger uid r = elim (lookup uid r.pending_death_receipts) [ none ↦ [] | some rows ↦ rows ]

-- the room after a hit witness is spent: statuses 1 and 5 leave a witness for one death
abbrev pub spend_hit : ℕ → Event → List HitWitness → Room → Room
spend_hit uid d left r =
    let spent = record r { pending_hit_receipts = insert uid left r.pending_hit_receipts } in
    if (d.hit_result_status == 1) || (d.hit_result_status == 5)
    then record spent {
      pending_death_receipts =
          insert uid
            (append_bounded (death_ledger uid r) (record {
              source = d.source;
              skill = d.skill_property_id;
              sequence = d.sequence_19_raw;
            }))
            r.pending_death_receipts;
    }
    else spent

-- the source's own client needs no copy
abbrev pub receipt_delivery : ℕ → ℕ → Delivery
receipt_delivery uid source = if source == uid then nobody else to_one source

-- what follows once the sequence is fresh: a witness is spent, or the receipt is passed over
unfoldable pub decide_fresh_receipt : Context → Event → Outcome
decide_fresh_receipt x d =
    let r = x.room in
    elim (take_hit d.source d.skill_property_id d.hit_result_status d.sequence_19_raw
      (hit_ledger x.uid r)) [
        | some left ↦
            relay (note_sequence x.uid d.sequence_19_raw (spend_hit x.uid d left r))
              (receipt_delivery x.uid d.source)
        | none ↦
            if d.hit_result_status == 3
            then elim (take_death d.source d.skill_property_id d.sequence_19_raw
                (death_ledger x.uid r)) [
                  | none ↦ ignore (some "missing_witness")
                  | some left ↦
                      relay
                        (note_sequence x.uid d.sequence_19_raw (record r {
                          pending_death_receipts = insert x.uid left r.pending_death_receipts;
                        }))
                        (receipt_delivery x.uid d.source)
                ]
            else ignore (some "missing_witness")
      ]

-- `handle_hit_receipt`
unfoldable pub decide_hit_receipt : Context → Event → Outcome
decide_hit_receipt x d =
    let r = x.room in
    unless (x.game && (in_members x.uid r && is_own x)) "hit receipt connection mismatch" (
      unless ((d.sender == x.uid) && (d.reporter == x.uid)) "hit receipt sender/reporter spoof" (
        if not (d.target == x.uid)
          || (not (in_fighters d.source r) || not (permits x.catalog d.skill_property_id))
        then unknown r (some "unsupported_receipt")
        else if not (is_generic d)
        then ignore (some "unsupported_header")
        else if passed d.sequence_19_raw (lookup (x.uid, 19) r.last_sequence)
        then ignore (some "sequence_stale")
        else decide_fresh_receipt x d))
