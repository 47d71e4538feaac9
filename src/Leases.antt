-- ===== src/Leases.antt =====
-- server/kk_local/public_policy.py: classes Lease and ConnectionBudget, the account of connections
-- from the socket to the login and on. Peers and accounts are numbers; a lease, which the source
-- shares by reference, is named by a number.
pub mod Counts
use kungfukid_local_server.Base.{
  ℕ, ◌+◌, ◌-◌, Bool, true, false, ◌||◌, Option, none, some, [], leb, ◌==◌, if◌then◌else◌, nat_eq,
}
use kungfukid_local_server.Base.Dict.{Dict, lookup, insert}
use kungfukid_local_server.Base.Exec.{Exec, ok, raised}
use kungfukid_local_server.Budget.{count, book}

-- the fields of the policy that count connections
pub record ConnectionPolicy : Type 0 where
  pub pending_connections : ℕ
  pub pending_per_ip : ℕ
  pub authenticated_connections : ℕ
  pub connections_per_uid : ℕ

pub record Lease : Type 0 where
  pub peer : ℕ
  pub uid : Option ℕ
  pub closed : Bool

-- `ConnectionBudget`, with the leases that it gave out
pub record ConnectionBudget : Type 0 where
  pub policy : ConnectionPolicy
  pub pending : ℕ
  pub active : ℕ
  pub by_ip : Dict ℕ ℕ
  pub by_uid : Dict ℕ ℕ
  pub leases : Dict ℕ Lease

-- `ConnectionBudget(policy)`
abbrev pub open_budget : ConnectionPolicy → ConnectionBudget
open_budget policy = record {
  policy = policy;
  pending = 0;
  active = 0;
  by_ip = [];
  by_uid = [];
  leases = [];
}

-- one connection more from `peer` is pending, and one less
abbrev pub hold : ℕ → ConnectionBudget → ConnectionBudget
hold peer b = record b {
  pending = b.pending + 1;
  by_ip = book peer (count peer b.by_ip + 1) b.by_ip;
}

abbrev pub unhold : ℕ → ConnectionBudget → ConnectionBudget
unhold peer b = record b {
  pending = b.pending - 1;
  by_ip = book peer (count peer b.by_ip - 1) b.by_ip;
}

-- one connection more of `uid` is active, and one less
abbrev pub seat : ℕ → ConnectionBudget → ConnectionBudget
seat uid b = record b { active = b.active + 1; by_uid = book uid (count uid b.by_uid + 1) b.by_uid }

abbrev pub unseat : ℕ → ConnectionBudget → ConnectionBudget
unseat uid b = record b {
  active = b.active - 1;
  by_uid = book uid (count uid b.by_uid - 1) b.by_uid;
}

abbrev pub put_lease : ℕ → Lease → ConnectionBudget → ConnectionBudget
put_lease k lease b = record b { leases = insert k lease b.leases }

-- `acquire(peer)`; `k` names the new lease
unfoldable pub acquire : ℕ → ℕ → Exec ConnectionBudget ℕ
acquire k peer b =
    if leb b.policy.pending_connections b.pending
      || leb b.policy.pending_per_ip (count peer b.by_ip)
    then (raised "server_busy", b)
    else (ok k, put_lease k (record { peer = peer; uid = none; closed = false }) (hold peer b))

-- `lease.promote(uid)`
unfoldable pub promote : ℕ → ℕ → Exec ConnectionBudget (Unit {0})
promote k uid b = elim (lookup k b.leases) [
  | none ↦ (raised "no lease", b)
  | some lease ↦ if lease.closed then (raised "closed_connection", b) else elim lease.uid [
    | some own ↦ if own == uid then (ok tt, b) else (raised "connection_identity_changed", b)
    | none ↦
        if leb b.policy.authenticated_connections b.active
          || leb b.policy.connections_per_uid (count uid b.by_uid)
        then (raised "server_busy", b)
        else (ok tt, put_lease k (record lease { uid = some uid }) (seat uid (unhold lease.peer b)))
  ]
]

-- `lease.release()`
unfoldable pub end_lease : ℕ → Exec ConnectionBudget (Unit {0})
end_lease k b = elim (lookup k b.leases) [
  | none ↦ (raised "no lease", b)
  | some lease ↦
      if lease.closed
      then (ok tt, b)
      else let closed = put_lease k (record lease { closed = true }) b in
        elim lease.uid [
          | none ↦ (ok tt, unhold lease.peer closed)
          | some uid ↦ (ok tt, unseat uid closed)
        ]
]
