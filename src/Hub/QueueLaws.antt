-- ===== src/Hub/QueueLaws.antt =====
-- What the per-connection queues promise: bounds, failure of the slow recipient, isolation.
use kungfukid_local_server.Base.{
  ℕ, ◌+◌, ◌≤◌, ◌≡◌, true, inl, inr, Option, some, List, [], ◌∷◌, ◌++◌, length, length-append, arith,
  Option-cases, nat_eq,
}
use kungfukid_local_server.Base.Dict.{lookup, lookup-insert}
use kungfukid_local_server.Budget.{MemoryBudget}
use kungfukid_local_server.Budget.Invariant.{IsSound}
use kungfukid_local_server.Wire.{Message}
use kungfukid_local_server.Hub.State.{Engine, Hub}
use kungfukid_local_server.Hub.Queue.{append_pending, enqueue, payload_bytes, outgoing_cap}

payload_bytes-append :
    (xs ys : List Message) → payload_bytes (xs ++ ys) ≡ payload_bytes xs + payload_bytes ys
payload_bytes-append [] ys = omega arith
payload_bytes-append (x ∷ xs) ys = omega (arith, payload_bytes-append xs ys)

-- The counters of a queue describe it, and it is within its bounds; a queue that failed is empty.
pub record IsQueue (e : Engine) : Type 0 where
  pub counted : e.pending_bytes ≡ payload_bytes e.pending_messages
  pub few : length e.pending_messages ≤ 1024
  pub small : e.pending_bytes ≤ outgoing_cap e
  pub failed : e.delivery_failed ≡ true → e.pending_messages ≡ []

append_pending-IsQueue :
    (m : Message) (e : Engine) (b : Option MemoryBudget)
    → IsQueue e
    → IsQueue (append_pending m e b).0
unfolding append_pending
append_pending-IsQueue m e b h = ground (
  arith,
  payload_bytes-append e.pending_messages (m ∷ []),
  length-append e.pending_messages (m ∷ []),
)

-- Every engine of the hub has such a queue, and the shared budget is sound.
pub record AreQueues (h : Hub) : Type 0 where
  pub queues : (uid : ℕ) (e : Engine) → lookup uid h.engines ≡ some e → IsQueue e
  pub keyed : (uid : ℕ) (e : Engine) → lookup uid h.engines ≡ some e → e.account_uid ≡ uid
  pub budget : (b : MemoryBudget) → h.queue_budget ≡ some b → IsSound b

account-append_pending :
    (m : Message) (e : Engine) (b : Option MemoryBudget)
    → (append_pending m e b).0.account_uid ≡ e.account_uid
unfolding append_pending
account-append_pending m e b = ground arith

-- If every engine's queue has the counters that describe it and is within its bounds, and is empty
-- where delivery failed, then so it is after one message is queued, whether it is appended,
-- captured, dropped, or ends the delivery to its recipient.
pub enqueue-queues :
    (uid : ℕ) (m : Message) (h : Hub)
    → ((j : ℕ) (e : Engine) → lookup j h.engines ≡ some e → IsQueue e)
    → (j : ℕ) (e : Engine) → lookup j (enqueue uid m h).1.engines ≡ some e
    → IsQueue e
unfolding enqueue
enqueue-queues uid m h all j e found = elim (Option-cases (lookup uid h.engines)) [
  | inl missing ↦ ground (arith, all j e)
  | inr (e₀, known) ↦ elim (Option-cases e₀.battle_delivery_capture) [
    | inl direct ↦ ground (
      arith,
      all j e,
      all uid e₀ known,
      append_pending-IsQueue m e₀ h.queue_budget (all uid e₀ known),
      lookup-insert uid j (append_pending m e₀ h.queue_budget).0 h.engines,
    )
    | inr (captured, on) ↦ ground (
      arith,
      all j e,
      all uid e₀ known,
      lookup-insert uid j (record e₀ { battle_delivery_capture = some (captured ++ (m ∷ [])) })
          h.engines,
    )
  ]
]
