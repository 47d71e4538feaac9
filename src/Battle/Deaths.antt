-- ===== src/Battle/Deaths.antt =====
-- server/kk_local/battle_receipts.py: handle_death_notice.
use kungfukid_local_server.Base.{not, ◌&&◌, ◌||◌, none, ltb, ◌==◌, if◌then◌else◌, nat_eq, pair_eq}
use kungfukid_local_server.Base.Bytes.{to_le, bytes_eq}
use kungfukid_local_server.Base.Dict.{lookup}
use kungfukid_local_server.Battle.Event.{Event}
use kungfukid_local_server.Battle.Outcome.{
  Context, Outcome, ignore, unknown, relay, to_one, to_others, is_own, in_fighters, is_generic,
  passed, unless,
}
use kungfukid_local_server.Battle.Receipts.{no_player, note_sequence}

-- `handle_death_notice`
unfoldable pub decide_death_notice : Context → Event → Outcome
decide_death_notice x d =
    let r = x.room in
    let target = if d.id == 8286 then d.target else no_player d.player in
    let accepted =
      if passed d.sequence_19_raw (lookup (x.uid, 19) r.last_sequence)
      then ignore none
      else relay (note_sequence x.uid d.sequence_19_raw r)
          (if d.id == 8278 then to_one target else to_others) in
    unless (x.game && (in_fighters x.uid r && is_own x)) "death notice connection mismatch" (
      unless (d.sender == x.uid) "death notice sender spoof" (
        if not (is_generic d)
        then unknown r none
        else unless (in_fighters target r) "death notice target outside fighters" (
            if d.id == 8286
            then unless (d.initiator == x.uid) "death terminal initiator spoof" (
                unless ((target == x.uid) || (x.uid == r.owner))
                  "death terminal requires owner or Host" accepted)
            else unless ((x.uid == r.owner) && not (target == x.uid))
                "countdown requires remote Host target"
                (if not (bytes_eq d.opaque_47_51 (to_le 4 1)) || ltb 0x7fffffff d.ui_value_51_raw
                  then unknown r none
                  else accepted))))
