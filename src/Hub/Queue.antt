-- ===== src/Hub/Queue.antt =====
-- engine.py: enqueue, take_pending, cancel_pending; rooms.py: queue, broadcast.
use kungfukid_local_server.Base.{
  ℕ, ◌+◌, ◌*◌, Bool, true, false, not, ◌||◌, Option, none, some, List, [], ◌∷◌, ◌++◌, length,
  keep_if, is_some, ltb, leb, ◌==◌, if◌then◌else◌, nat_eq,
}
use kungfukid_local_server.Base.Dict.{Dict, lookup, insert}
use kungfukid_local_server.Base.Exec.{Result, ok, raised, pure, for_each}
use kungfukid_local_server.Budget
use kungfukid_local_server.Budget.{MemoryBudget}
use kungfukid_local_server.Wire.{Message}
use kungfukid_local_server.Hub.State.{Engine, Room, Member, Hub, Action, Connection}

abbrev pub engine_of : ℕ → Hub → Option Engine
engine_of uid h = lookup uid h.engines

abbrev pub put_engine : Engine → Hub → Hub
put_engine e h = record h { engines = insert e.account_uid e h.engines }

abbrev pub put_room : Room → Hub → Hub
put_room r h = record h { rooms = insert r.number r h.rooms }

-- `sum(len(m.payload) for m in messages)`
abbrev pub payload_bytes : List Message → ℕ
payload_bytes [] = 0
payload_bytes (m ∷ ms) = length m.payload + payload_bytes ms

-- `if self.queue_budget: self.queue_budget.release(self)`
abbrev pub released : ℕ → Option MemoryBudget → Option MemoryBudget
released uid none = none
released uid (some b) = some (Budget.release uid b).1

-- `self.queue_budget.set(self, size, group=self.account_uid)`, where there is a budget
abbrev pub reserved : ℕ → ℕ → Option MemoryBudget → Result (Unit {0}) × Option MemoryBudget
reserved uid size none = (ok tt, none)
reserved uid size (some b) = let (r, b') = Budget.set uid size (some uid) b in (r, some b')

-- The queue of an engine that can take no more: it is emptied and its bytes are given back.
abbrev pub fail_delivery : Engine → Option MemoryBudget → Engine × Option MemoryBudget
fail_delivery e budget = (
  record e { delivery_failed = true; pending_messages = []; pending_bytes = 0 },
  released e.account_uid budget,
)

abbrev pub outgoing_cap : Engine → ℕ
outgoing_cap e = elim e.per_client_outgoing [ none ↦ 2 * 1024 * 1024 | some cap ↦ cap ]

-- `enqueue` with no capture: the bounds, the shared budget, and the append.
unfoldable pub append_pending :
    Message → Engine → Option MemoryBudget → Engine × Option MemoryBudget
append_pending m e budget =
    let size = e.pending_bytes + length m.payload in
    if e.delivery_failed
    then (e, budget)
    else if leb 1024 (length e.pending_messages) || ltb (outgoing_cap e) size
    then fail_delivery e budget
    else let (granted, budget') =
        reserved e.account_uid (size + 24 * (length e.pending_messages + 1)) budget in
      elim granted [
        | ok _ ↦ (
          record e { pending_messages = e.pending_messages ++ (m ∷ []); pending_bytes = size },
          budget',
        )
        | raised _ ↦ fail_delivery e budget'
      ]

-- `enqueue`
unfoldable pub enqueue : ℕ → Message → Action (Unit {0})
unfolding append_pending
enqueue uid m h = elim (engine_of uid h) [
  | none ↦ (ok tt, h)
  | some e ↦ elim e.battle_delivery_capture [
    | none ↦
        let (e', budget) = append_pending m e h.queue_budget in
        (ok tt, record h { engines = insert uid e' h.engines; queue_budget = budget })
    | some captured ↦
        if not (m.id == 8071) || ltb 334 (length m.payload)
        then (raised "battle capture envelope", h)
        else if leb 32 (length captured)
        then (raised "battle capture budget", h)
        else (
          ok tt,
          record h {
            engines =
                insert uid (record e { battle_delivery_capture = some (captured ++ (m ∷ [])) })
                  h.engines;
          },
        )
  ]
]

-- `c is self.game`
abbrev pub is_game : Connection → Engine → Bool
is_game c e = elim e.game [ none ↦ false | some g ↦ g.number == c.number ]

-- `take_pending(c)`
unfoldable pub take_pending : ℕ → Connection → Action (List Message)
take_pending uid c h = elim (engine_of uid h) [
  | none ↦ (ok [], h)
  | some e ↦ if not (is_game c e) then (ok [], h) else elim e.battle_delivery_capture [
    | some captured ↦ (
      ok captured,
      record h { engines = insert uid (record e { battle_delivery_capture = some [] }) h.engines },
    )
    | none ↦ (
      ok e.pending_messages,
      record h {
        engines = insert uid (record e { pending_messages = []; pending_bytes = 0 }) h.engines;
        queue_budget = released uid h.queue_budget;
      },
    )
  ]
]

-- `cancel_pending(ident)`
unfoldable pub cancel_pending : ℕ → ℕ → Action (Unit {0})
cancel_pending uid ident h = elim (engine_of uid h) [
  | none ↦ (ok tt, h)
  | some e ↦
      let kept = keep_if (λ (m : Message). not (m.id == ident)) e.pending_messages in
      let (granted, budget) = reserved uid (payload_bytes kept + 24 * length kept) h.queue_budget in
      let h' = record h {
        engines =
            insert uid (record e { pending_messages = kept; pending_bytes = payload_bytes kept })
              h.engines;
        queue_budget = budget;
      } in
      (granted, h')
]

-- `RoomHub.queue(engine, message)`
unfoldable pub queue : ℕ → Message → Action (Unit {0})
unfolding enqueue
queue uid m h = elim (engine_of uid h) [
  | none ↦ (ok tt, h)
  | some e ↦ if is_some e.game then enqueue uid m h else (ok tt, h)
]

abbrev excluded : ℕ → Option ℕ → Bool
excluded uid none = false
excluded uid (some x) = uid == x

-- `RoomHub.broadcast(room, message, exclude=…)`, over the room's members
unfoldable pub broadcast : Dict ℕ Member → Message → Option ℕ → Action (Unit {0})
unfolding queue
broadcast members m exclude =
    for_each members λ entry. if excluded entry.0 exclude then pure tt else queue entry.1.engine m
