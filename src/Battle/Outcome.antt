-- ===== src/Battle/Outcome.antt =====
-- What a battle handler decides about one message, and how the decision is carried out. The source
-- interleaves the two; no handler changes the room before its last check but where `unknown` says.
use kungfukid_local_server.Base.{
  ◌≡◌, refl, ℕ, ◌+◌, Bool, true, false, not, ◌&&◌, ◌||◌, Option, none, some, List, [], ◌∷◌, length,
  leb, ◌==◌, if◌then◌else◌, nat_eq, pair_beq, String,
}
use kungfukid_local_server.Base.Bytes.{Bytes}
use kungfukid_local_server.Base.Dict.{lookup, insert, contains}
use kungfukid_local_server.Base.Exec.{ok, raised}
use kungfukid_local_server.Wire.{Message}
use kungfukid_local_server.Hub.{
  Hub, Action, Engine, Room, Connection, CombatCatalog, phase_code, unknown_key_eq, engine_of,
  put_room, queue, broadcast, take_pending, fighters,
}
use kungfukid_local_server.Battle.Event.{Event}
use kungfukid_local_server.Battle.Decode.{decode_battle}

pub data Delivery : Type 0 where
  to_one : ℕ → Delivery
  to_others nobody : Delivery

-- A refusal by exception; a message that is passed over, with what is counted for it; a message
-- that is recorded as unknown, with the room as it then stands; a message that is relayed.
pub data Outcome : Type 0 where
  reject : String → Outcome
  ignore : Option String → Outcome
  unknown : Room → Option String → Outcome
  relay : Room → Delivery → Outcome

-- What a handler looks at: the room, the sender's uid, its engine and whether the connection is
-- that engine's game and whether that is in battle, whether the engine's deliveries are being
-- captured, the time and the combat catalogue.
pub record Context : Type 0 where
  pub room : Room
  pub uid : ℕ
  pub engine : ℕ
  pub game : Bool
  pub in_battle : Bool
  pub capturing : Bool
  pub now : ℕ
  pub catalog : Option CombatCatalog

-- `room.members[uid].engine is engine`
abbrev pub is_own : Context → Bool
is_own x = elim (lookup x.uid x.room.members) [ none ↦ false | some m ↦ m.engine == x.engine ]

abbrev pub in_members : ℕ → Room → Bool
in_members uid r = contains uid r.members

abbrev pub in_fighters : ℕ → Room → Bool
in_fighters uid r = contains uid (fighters r)

-- `(decoded['flag'], decoded['header_variant']) == (1, 1)`
abbrev pub is_generic : Event → Bool
is_generic d = pair_beq (d.flag, d.header_variant) (1, 1)

-- `sequence <= room.last_sequence.get(key, -1)`
abbrev pub passed : ℕ → Option ℕ → Bool
passed sequence none = false
passed sequence (some seen) = leb sequence seen

-- `if not c: raise …`, and then the rest
abbrev pub unless : Bool → String → Outcome → Outcome
unless true why rest = rest
unless false why rest = reject why

-- What is relayed has passed the checks before it.
pub unless-relay :
    (c : Bool) (why : String) (rest : Outcome) (r : Room) (to : Delivery)
    → unless c why rest ≡ relay r to
    → (c ≡ true) × (rest ≡ relay r to)
unless-relay true why rest r to h = (refl, h)
unless-relay false why rest r to h = cc

-- `_count_combat(decoded, outcome)`
abbrev is_combat : ℕ → Bool
is_combat id = (id == 8120) || ((id == 8121) || ((id == 8125) || ((id == 8126) || (id == 8140))))

abbrev pub count_combat : Option Event → String → ℕ → Hub → Hub
count_combat none outcome amount h = h
count_combat (some d) outcome amount h =
    if is_combat d.id
    then record h {
      metrics = elim h.metrics [ none ↦ none | some rows ↦ some ((d.id, outcome, amount) ∷ rows) ];
    }
    else h

-- `record_unknown` of engine.py. Of the ids that it decodes only 8071 comes from a battle handler.
-- The key of the overflow row is that of no phase.
record_unknown_at : ℕ → Connection → ℕ → ℕ → Engine → Engine
record_unknown_at uid c ident size e =
    let seen = contains (phase_code c.phase, ident, size) e.unknown in
    let key =
      if not seen && leb 4096 (length e.unknown)
      then (10, 0, 0)
      else (phase_code c.phase, ident, size) in
    let before : ℕ = elim (lookup key e.unknown) [ none ↦ 0 | some n ↦ n ] in
    record e { unknown = insert key (before + 1) e.unknown }

observe_layout : ℕ → Engine → Engine
observe_layout ident e =
    let before : ℕ = elim (lookup ident e.layout_observations) [ none ↦ 0 | some n ↦ n ] in
    record e { layout_observations = insert ident (before + 1) e.layout_observations }

unfoldable pub record_unknown : ℕ → Connection → ℕ → Bytes → Action (Unit {0})
unfolding record_unknown_at observe_layout decode_battle
record_unknown uid c ident p h = elim (engine_of uid h) [
  | none ↦ (ok tt, h)
  | some e ↦
      if ident == 8071
      then elim (decode_battle p) [
        | raised why ↦ (raised why, h)
        | ok none ↦ (
          ok tt,
          record h { engines = insert uid (record_unknown_at uid c ident (length p) e) h.engines },
        )
        | ok (some _) ↦ (
          ok tt,
          record h {
            engines =
                insert uid (record_unknown_at uid c ident (length p) (observe_layout ident e))
                  h.engines;
          },
        )
      ]
      else (
        ok tt,
        record h { engines = insert uid (record_unknown_at uid c ident (length p) e) h.engines },
      )
]

abbrev pub counted : Event → Option String → Hub → Hub
counted d none h = h
counted d (some outcome) h = count_combat (some d) outcome 1 h

abbrev pub deliver : Room → ℕ → Delivery → Message → Action (Unit {0})
deliver r uid (to_one target) m h = elim (lookup target r.members) [
  | none ↦ (ok tt, h)
  | some member ↦ queue member.engine m h
]
deliver r uid to_others m h = broadcast r.members m (some uid) h
deliver r uid nobody m h = (ok tt, h)

-- Carries the decision out and returns what the sender's own queue holds.
unfoldable pub perform : Context → Connection → Event → Bytes → Outcome → Action (List Message)
perform x c d payload (reject why) h = (raised why, h)
perform x c d payload (ignore label) h = (ok [], counted d label h)
perform x c d payload (unknown r label) h =
    let (result, h') = record_unknown x.engine c 8071 payload (counted d label (put_room r h)) in
    elim result [ ok _ ↦ (ok [], h') | raised why ↦ (raised why, h') ]
perform x c d payload (relay r delivery) h =
    let (result, h') =
      deliver r x.uid delivery (record { id = 8071; payload = payload }) (put_room r h) in
    elim result [ ok _ ↦ take_pending x.engine c h' | raised why ↦ (raised why, h') ]
