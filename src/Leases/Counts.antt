-- ===== src/Leases/Counts.antt =====
-- The counters of the connections are those of the leases, and within the policy.
use kungfukid_local_server.Base.{
  ℕ, ◌+◌, ◌-◌, ◌≤◌, ◌≡◌, refl, Bool, true, false, not, ◌&&◌, ◌||◌, ◌⊎◌, inl, inr, Option, none,
  some, [], ◌∷◌, arith, leb, ◌==◌, if◌then◌else◌, nat_eq, Option-cases, Bool-cases,
}
use kungfukid_local_server.Base.Dict.{Dict, lookup, insert, lookup-insert, lookup-erase}
use kungfukid_local_server.Budget.{count, book}
use kungfukid_local_server.Leases.{
  Lease, ConnectionBudget, acquire, promote, end_lease, put_lease, unhold, unseat, seat,
}

-- How many leases pass a test.
abbrev pub tally : (Lease → Bool) → Dict ℕ Lease → ℕ
tally p [] = 0
tally p ((_, lease) ∷ d) = (if p lease then 1 else 0) + tally p d

abbrev weight : (Lease → Bool) → Option Lease → ℕ
weight p none = 0
weight p (some lease) = if p lease then 1 else 0

tally-insert :
    (p : Lease → Bool) (k : ℕ) (v : Lease) (d : Dict ℕ Lease)
    → tally p (insert k v d) + weight p (lookup k d) ≡ tally p d + weight p (some v)
tally-insert p k v [] = ground arith
tally-insert p k v ((j, w) ∷ d) = ground (arith, tally-insert p k v d)

abbrev pub waits : Lease → Bool
waits lease = not lease.closed && elim lease.uid [ none ↦ true | some _ ↦ false ]

abbrev pub waits_at : ℕ → Lease → Bool
waits_at peer lease = waits lease && (lease.peer == peer)

abbrev pub plays : Lease → Bool
plays lease = not lease.closed && elim lease.uid [ none ↦ false | some _ ↦ true ]

abbrev pub plays_as : ℕ → Lease → Bool
plays_as uid lease = not lease.closed && elim lease.uid [ none ↦ false | some own ↦ own == uid ]

-- The four counters count the leases that are open, and respect the policy.
pub record IsCounted (b : ConnectionBudget) : Type 0 where
  pub held : b.pending ≡ tally waits b.leases
  pub held_at : (peer : ℕ) → count peer b.by_ip ≡ tally (waits_at peer) b.leases
  pub seated : b.active ≡ tally plays b.leases
  pub seated_as : (uid : ℕ) → count uid b.by_uid ≡ tally (plays_as uid) b.leases
  pub few_held : b.pending ≤ b.policy.pending_connections
  pub few_held_at : (peer : ℕ) → count peer b.by_ip ≤ b.policy.pending_per_ip
  pub few_seated : b.active ≤ b.policy.authenticated_connections
  pub few_seated_as : (uid : ℕ) → count uid b.by_uid ≤ b.policy.connections_per_uid

counted_book : (k j v : ℕ) (d : Dict ℕ ℕ) → count j (book k v d) ≡ (if k == j then v else count j d)
counted_book k j v d = ground (arith, lookup-insert k j v d, lookup-erase k j d)

-- If the four counters are those of the open leases and within the policy, then so they are after
-- a connection is accepted under a new name, or refused.
pub acquire-IsCounted :
    (k peer : ℕ) (b : ConnectionBudget)
    → lookup k b.leases ≡ none
    → IsCounted b
    → IsCounted (acquire k peer b).1
unfolding acquire
acquire-IsCounted k peer b new h =
    let fresh : Lease = record { peer = peer; uid = none; closed = false } in
    elim (Bool-cases (leb b.policy.pending_connections b.pending)) [
      | inl full ↦ rw full h
      | inr room ↦ elim (Bool-cases (leb b.policy.pending_per_ip (count peer b.by_ip))) [
        | inl full ↦ rw (room, full) h
        | inr place ↦
            rw (room, place)
              (record {
                held = ground (arith, h.held, tally-insert waits k fresh b.leases);
                held_at = λ j. ground (
                  arith,
                  h.held_at j,
                  tally-insert (waits_at j) k fresh b.leases,
                  counted_book peer j (count peer b.by_ip + 1) b.by_ip,
                  h.held_at peer,
                );
                seated = ground (arith, h.seated, tally-insert plays k fresh b.leases);
                seated_as =
                    λ j. ground (arith, h.seated_as j, tally-insert (plays_as j) k fresh b.leases);
                few_held = ground (arith, h.few_held);
                few_held_at = λ j.
                    ground (
                      arith,
                      h.few_held_at j,
                      counted_book peer j (count peer b.by_ip + 1) b.by_ip,
                    );
                few_seated = h.few_seated;
                few_seated_as = h.few_seated_as;
              })
      ]
    ]

module _ (k : ℕ) (lease : Lease) (b : ConnectionBudget) where
  promoted-IsCounted :
      (uid : ℕ)
      → lookup k b.leases ≡ some lease
      → lease.closed ≡ false
      → lease.uid ≡ none
      → leb b.policy.authenticated_connections b.active ≡ false
      → leb b.policy.connections_per_uid (count uid b.by_uid) ≡ false
      → IsCounted b
      → IsCounted (put_lease k (record lease { uid = some uid }) (seat uid (unhold lease.peer b)))
  promoted-IsCounted uid e open_now waiting room place h =
      let new : Lease = record lease { uid = some uid } in
      let down = λ (j : ℕ). counted_book lease.peer j (count lease.peer b.by_ip - 1) b.by_ip in
      let up = λ (j : ℕ). counted_book uid j (count uid b.by_uid + 1) b.by_uid in
      record {
        held = ground (arith, h.held, tally-insert waits k new b.leases);
        held_at = λ j. ground (
          arith,
          h.held_at j,
          h.held_at lease.peer,
          tally-insert (waits_at j) k new b.leases,
          down j,
        );
        seated = ground (arith, h.seated, tally-insert plays k new b.leases);
        seated_as = λ j.
            ground (
              arith,
              h.seated_as j,
              h.seated_as uid,
              tally-insert (plays_as j) k new b.leases,
              up j,
            );
        few_held = ground (arith, h.few_held);
        few_held_at = λ j. ground (arith, h.few_held_at j, h.few_held_at lease.peer, down j);
        few_seated = ground arith;
        few_seated_as = λ j. ground (arith, h.few_seated_as j, up j);
      }

  freed-IsCounted :
      lookup k b.leases ≡ some lease
      → lease.closed ≡ false
      → lease.uid ≡ none
      → IsCounted b
      → IsCounted (unhold lease.peer (put_lease k (record lease { closed = true }) b))
  freed-IsCounted e open_now waiting h =
      let new : Lease = record lease { closed = true } in
      let down = λ (j : ℕ). counted_book lease.peer j (count lease.peer b.by_ip - 1) b.by_ip in
      record {
        held = ground (arith, h.held, tally-insert waits k new b.leases);
        held_at = λ j. ground (
          arith,
          h.held_at j,
          h.held_at lease.peer,
          tally-insert (waits_at j) k new b.leases,
          down j,
        );
        seated = ground (arith, h.seated, tally-insert plays k new b.leases);
        seated_as = λ j. ground (arith, h.seated_as j, tally-insert (plays_as j) k new b.leases);
        few_held = ground (arith, h.few_held);
        few_held_at = λ j. ground (arith, h.few_held_at j, h.few_held_at lease.peer, down j);
        few_seated = h.few_seated;
        few_seated_as = h.few_seated_as;
      }

  unseated-IsCounted :
      (uid : ℕ)
      → lookup k b.leases ≡ some lease
      → lease.closed ≡ false
      → lease.uid ≡ some uid
      → IsCounted b
      → IsCounted (unseat uid (put_lease k (record lease { closed = true }) b))
  unseated-IsCounted uid e open_now playing h =
      let new : Lease = record lease { closed = true } in
      let down = λ (j : ℕ). counted_book uid j (count uid b.by_uid - 1) b.by_uid in
      record {
        held = ground (arith, h.held, tally-insert waits k new b.leases);
        held_at = λ j. ground (arith, h.held_at j, tally-insert (waits_at j) k new b.leases);
        seated = ground (arith, h.seated, tally-insert plays k new b.leases);
        seated_as = λ j. ground (
          arith,
          h.seated_as j,
          h.seated_as uid,
          tally-insert (plays_as j) k new b.leases,
          down j,
        );
        few_held = h.few_held;
        few_held_at = h.few_held_at;
        few_seated = ground (arith, h.few_seated);
        few_seated_as = λ j. ground (arith, h.few_seated_as j, h.few_seated_as uid, down j);
      }

-- A login changes nothing, or it is one of a pending connection with room for it.
promote-cases :
    (k uid : ℕ) (b : ConnectionBudget)
    → ((promote k uid b).1 ≡ b)
      ⊎ ((lease : Lease) × (lookup k b.leases ≡ some lease)
          × (lease.closed ≡ false)
          × (lease.uid ≡ none)
          × (leb b.policy.authenticated_connections b.active ≡ false)
          × (leb b.policy.connections_per_uid (count uid b.by_uid) ≡ false)
          × ((promote k uid b).1
              ≡ put_lease k (record lease { uid = some uid }) (seat uid (unhold lease.peer b))))
unfolding promote
promote-cases k uid b = elim (Option-cases (lookup k b.leases)) [
  | inl missing ↦ inl (ground arith)
  | inr (lease, e) ↦ elim (Option-cases lease.uid) [
    | inr (own, known) ↦ inl (ground arith)
    | inl waiting ↦
        elim (Bool-cases (
          lease.closed
          || (leb b.policy.authenticated_connections b.active
              || leb b.policy.connections_per_uid (count uid b.by_uid)))) [
                | inl refused ↦ inl (ground arith)
                | inr granted ↦
                    inr (lease, e, ground arith, waiting, ground arith, ground arith, ground arith)
              ]
  ]
]

-- Ending a lease changes nothing where it is closed, and frees what it counted for where it is
-- open.
end_lease-cases :
    (k : ℕ) (b : ConnectionBudget)
    → (((end_lease k b).1 ≡ b) × ((end_lease k (end_lease k b).1).1 ≡ (end_lease k b).1))
      ⊎ ((lease : Lease) × (lookup k b.leases ≡ some lease)
          × (lease.closed ≡ false)
          × (let closed = put_lease k (record lease { closed = true }) b in
              ((lease.uid ≡ none) × ((end_lease k b).1 ≡ unhold lease.peer closed))
              ⊎ ((uid : ℕ) × (lease.uid ≡ some uid) × ((end_lease k b).1 ≡ unseat uid closed))))
unfolding end_lease
end_lease-cases k b = elim (Option-cases (lookup k b.leases)) [
  | inl missing ↦ inl (ground arith, ground arith)
  | inr (lease, e) ↦ elim (Bool-cases lease.closed) [
    | inl shut ↦ inl (ground arith, ground arith)
    | inr open_now ↦ elim (Option-cases lease.uid) [
      | inl waiting ↦ inr (lease, e, open_now, inl (waiting, ground arith))
      | inr (uid, playing) ↦ inr (lease, e, open_now, inr (uid, playing, ground arith))
    ]
  ]
]

closed_ends :
    (k : ℕ) (lease : Lease) (b : ConnectionBudget)
    → lookup k b.leases ≡ some lease
    → lease.closed ≡ true
    → (end_lease k b).1 ≡ b
unfolding end_lease
closed_ends k lease b e shut = ground arith

-- If the four counters are those of the open leases and within the policy, then so they are after
-- a login that is granted or refused.
pub promote-IsCounted :
    (k uid : ℕ) (b : ConnectionBudget) → IsCounted b → IsCounted (promote k uid b).1
promote-IsCounted k uid b h = elim (promote-cases k uid b) [
  | inl same ↦ rw same h
  | inr (lease, e, open_now, waiting, room, place, same) ↦
      rw same (promoted-IsCounted k lease b uid e open_now waiting room place h)
]

-- If the four counters are those of the open leases and within the policy, then so they are after
-- a lease is ended, whatever its state; ended again, it changes nothing.
pub end_lease-IsCounted :
    (k : ℕ) (b : ConnectionBudget)
    → IsCounted b
    → IsCounted (end_lease k b).1 × ((end_lease k (end_lease k b).1).1 ≡ (end_lease k b).1)
end_lease-IsCounted k b h = elim (end_lease-cases k b) [
  | inl (same, again) ↦ (rw same h, again)
  | inr (lease, e, open_now, how) ↦
      let shut : Lease = record lease { closed = true } in
      let now = lookup-insert k k shut b.leases in
      elim how [
        | inl (waiting, same) ↦ (
          rw same (freed-IsCounted k lease b e open_now waiting h),
          rw same (
              closed_ends k shut (unhold lease.peer (put_lease k shut b)) (ground (arith, now))
                refl),
        )
        | inr (uid, playing, same) ↦ (
          rw same (unseated-IsCounted k lease b uid e open_now playing h),
          rw same (closed_ends k shut (unseat uid (put_lease k shut b)) (ground (arith, now)) refl),
        )
      ]
]
