-- ===== src/Budget.antt =====
-- server/kk_local/public_policy.py: class MemoryBudget, the account of reserved queue bytes.
-- Owners and groups are numbers; a size is a natural number, so the check for a negative one is
-- void.
pub mod Invariant
use kungfukid_local_server.Base.{
  ℕ, ◌+◌, ◌-◌, Bool, false, Option, none, some, [], max, ltb, ◌==◌, if◌then◌else◌, nat_eq, is_some,
}
use kungfukid_local_server.Base.Dict.{Dict, lookup, insert, erase}
use kungfukid_local_server.Base.Exec.{Exec, raise, ok, raised}

pub record MemoryBudget : Type 0 where
  pub limit : ℕ
  pub per_group : Option ℕ
  pub used : ℕ
  pub peak : ℕ
  pub owners : Dict ℕ ℕ
  pub groups : Dict ℕ ℕ
  pub group_used : Dict ℕ ℕ

abbrev pub create : ℕ → Option ℕ → MemoryBudget
create limit per_group = record {
  limit = limit;
  per_group = per_group;
  used = 0;
  peak = 0;
  owners = [];
  groups = [];
  group_used = [];
}

-- `d.get(k, 0)`, and a Counter's `d[k]`
abbrev pub count : ℕ → Dict ℕ ℕ → ℕ
count k d = elim (lookup k d) [ none ↦ 0 | some v ↦ v ]

abbrev or_default : Option ℕ → ℕ → ℕ
or_default none d = d
or_default (some v) d = v

-- the group that an owner is booked under: its first one, then the given one, then itself
abbrev pub group_of : MemoryBudget → ℕ → Option ℕ → ℕ
group_of b owner group = or_default (lookup owner b.groups) (or_default group owner)

-- `self.per_group and …`: no bound per group where it is None or 0
abbrev over_group : Option ℕ → ℕ → ℕ → Bool
over_group none now old = false
over_group (some bound) now old = if bound == 0 then false else ltb (bound + old) now

-- a Counter's entry is dropped when it comes to 0
abbrev pub book : ℕ → ℕ → Dict ℕ ℕ → Dict ℕ ℕ
book k v d = if v == 0 then erase k d else insert k v d

-- the assignments of `set` after its checks
abbrev pub commit : MemoryBudget → ℕ → ℕ → ℕ → MemoryBudget
commit b owner size group =
    let old = count owner b.owners in
    let used = b.used + size - old in
    record b {
      used = used;
      peak = max b.peak used;
      group_used = book group (count group b.group_used + size - old) b.group_used;
      owners = book owner size b.owners;
      groups = if size == 0 then erase owner b.groups else insert owner group b.groups;
    }

unfoldable pub set : ℕ → ℕ → Option ℕ → Exec MemoryBudget (Unit {0})
set owner size group b =
    let old = count owner b.owners in
    let g = group_of b owner group in
    if ltb (b.limit + old) (b.used + size)
    then (raised "global buffer budget", b)
    else if over_group b.per_group (count g b.group_used + size) old
    then (raised "account buffer budget", b)
    else (ok tt, commit b owner size g)

unfoldable pub release : ℕ → Exec MemoryBudget (Unit {0})
unfolding set
release owner = set owner 0 none
