-- ===== src/Battle/Handler.antt =====
-- server/kk_local/battle_relay.py: `handle`, which gives each battle message to its handler.
use kungfukid_local_server.Base.{
  ℕ, Bool, false, not, ◌||◌, Option, none, some, List, [], ◌∷◌, member, ◌==◌, if◌then◌else◌, nat_eq,
  is_some,
}
use kungfukid_local_server.Base.Bytes.{Bytes}
use kungfukid_local_server.Base.Dict.{lookup}
use kungfukid_local_server.Base.Exec.{ok, raised}
use kungfukid_local_server.Wire.{Message}
use kungfukid_local_server.Hub.{
  Hub, Action, Room, Engine, Connection, Phase, same_phase, Stage, same_stage, engine_of, is_game,
}
use kungfukid_local_server.Battle.Event.{Event}
use kungfukid_local_server.Battle.Decode.{decode_battle}
use kungfukid_local_server.Battle.Outcome.{Context, Outcome, perform, record_unknown}
use kungfukid_local_server.Battle.Receipts.{decide_pickup}
use kungfukid_local_server.Battle.Deaths.{decide_death_notice}
use kungfukid_local_server.Battle.Hits.{decide_hit_receipt}
use kungfukid_local_server.Battle.Pairs.{decide_slip, decide_pair_transform}
use kungfukid_local_server.Battle.Reborn.{decide_reborn_sync}
use kungfukid_local_server.Battle.Relay.{decide_relay}
use kungfukid_local_server.Battle.SeriesFlow.{decide_series_event}

-- `engine.room`
abbrev pub room_of : Engine → Hub → Option Room
room_of e h = elim e.room [ none ↦ none | some number ↦ lookup number h.rooms ]

abbrev in_battle_phase : Option Connection → Bool
in_battle_phase none = false
in_battle_phase (some g) = same_phase g.phase Phase.battle

abbrev pub context : ℕ → Connection → Engine → Room → Hub → Context
context engine c e r h = record {
  room = r;
  uid = c.uid;
  engine = engine;
  game = is_game c e;
  in_battle = in_battle_phase e.game;
  capturing = is_some e.battle_delivery_capture;
  now = e.clock;
  catalog = h.combat_catalog;
}

-- `room.members[uid].engine.clock()`
abbrev pub clock_of : ℕ → Room → Hub → ℕ
clock_of uid r h = elim (lookup uid r.members) [
  | none ↦ 0
  | some m ↦ elim (engine_of m.engine h) [ none ↦ 0 | some e ↦ e.clock ]
]

-- which handler decides, by the id; the clocks are those of the owner's and of the first player's
-- engine
unfoldable pub decide_at : Context → Event → Bytes → ℕ → ℕ → Outcome
decide_at x d p owner_now first_now =
    if member d.id (8294 ∷ 8295 ∷ 8296 ∷ 8297 ∷ [])
    then decide_series_event x d owner_now
    else if member d.id (9000 ∷ 9001 ∷ 9002 ∷ 9500 ∷ 9501 ∷ 9502 ∷ [])
    then decide_pickup x d
    else if d.id == 8126
    then decide_hit_receipt x d
    else if (d.id == 8278) || (d.id == 8286)
    then decide_death_notice x d
    else if (d.id == 8155) || (d.id == 8157)
    then decide_reborn_sync x d p
    else if d.id == 8144
    then decide_pair_transform x d first_now
    else if d.id == 8270
    then decide_slip x d
    else decide_relay x d p

abbrev pub decide : Context → Event → Bytes → Hub → Outcome
decide x d p h = decide_at x d p (clock_of x.room.owner x.room h) (clock_of d.first_player x.room h)

-- `handle`
unfoldable pub handle : ℕ → Connection → Message → Action (List Message)
handle engine c message h = elim (engine_of engine h) [
  | none ↦ (ok [], h)
  | some e ↦ elim (room_of e h) [
    | none ↦ (ok [], h)
    | some r ↦
        if not (same_phase c.phase Phase.battle) || not (same_stage r.stage Stage.battle)
        then (ok [], h)
        else elim (decode_battle message.payload) [
          | raised why ↦ (raised why, h)
          | ok none ↦
              let (result, h') = record_unknown engine c message.id message.payload h in
              elim result [ ok _ ↦ (ok [], h') | raised why ↦ (raised why, h') ]
          | ok (some d) ↦
              let x = context engine c e r h in
              perform x c d message.payload (decide x d message.payload h) h
        ]
  ]
]
