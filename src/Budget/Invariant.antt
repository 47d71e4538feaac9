-- ===== src/Budget/Invariant.antt =====
-- The invariant of MemoryBudget, and what `set` and `release` do to it.
mod Sums
pub use Sums.{total, IsKeyed, group_total}
use Sums.{
  total-book, IsKeyed-book, group_total-insert, group_total-erase, in_group, count-le-group_total,
  count-le-total,
}
use kungfukid_local_server.Base.{
  ℕ, ◌+◌, ◌-◌, ◌≤◌, ◌≡◌, ◌≢◌, refl, ◌⊎◌, Bool, true, false, Option, none, some, List, [], ◌∷◌,
  arith, ltb, ◌==◌, if◌then◌else◌, nat_eq, Bool-cases, inl, inr,
}
use kungfukid_local_server.Base.Dict.{Dict, lookup, insert, erase, lookup-insert, lookup-erase}
use kungfukid_local_server.Base.Exec.{ok, raised}
use kungfukid_local_server.Budget.{
  MemoryBudget, create, count, group_of, over_group, book, commit, set, release,
}

-- What a budget promises: the bytes used are the sum of the reservations and stay within the limit,
-- and each group is booked with the sum of its owners' reservations.
pub record IsSound (b : MemoryBudget) : Type 0 where
  pub keyed : IsKeyed b.owners
  pub sum : total b.owners ≡ b.used
  pub bounded : b.used ≤ b.limit
  pub placed : (o : ℕ) → lookup o b.groups ≡ none → lookup o b.owners ≡ none
  pub within : (p g : ℕ) → b.per_group ≡ some p → p ≢ 0 → count g b.group_used ≤ p
  pub grouped : (g : ℕ) → count g b.group_used ≡ group_total g b.groups b.owners

count-book : (k j v : ℕ) (d : Dict ℕ ℕ) → count j (book k v d) ≡ (if k == j then v else count j d)
count-book k j v d = ground (arith, lookup-insert k j v d, lookup-erase k j d)

group_of_known :
    (b : MemoryBudget) (o : ℕ) (group : Option ℕ)
    → IsSound b
    → (lookup o b.groups ≡ some (group_of b o group)) ⊎ (lookup o b.owners ≡ none)
group_of_known b o group h = ground (arith, h.placed o)

module _ (b : MemoryBudget) (o size : ℕ) (group : Option ℕ) (h : IsSound b) where
  commit-grouped :
      (g : ℕ)
      → let b' = commit b o size (group_of b o group) in
        count g b'.group_used ≡ group_total g b'.groups b'.owners
  commit-grouped g =
      let k = group_of b o group in
      ground (
        arith,
        h.grouped g,
        h.grouped k,
        group_of_known b o group h,
        count-le-group_total o k b.groups b.owners,
        group_total-insert g o k size b.groups b.owners,
        group_total-erase g o k b.groups b.owners,
        count-book k g (count k b.group_used + size - count o b.owners) b.group_used,
      )

  commit-within :
      over_group b.per_group (count (group_of b o group) b.group_used + size) (count o b.owners)
        ≡ false
      → (p g : ℕ) → b.per_group ≡ some p
      → p ≢ 0
      → count g (commit b o size (group_of b o group)).group_used ≤ p
  commit-within fits p g e ne =
      let k = group_of b o group in
      ground (
        arith,
        h.within p g e ne,
        count-book k g (count k b.group_used + size - count o b.owners) b.group_used,
      )

  commit-placed :
      (j : ℕ)
      → lookup j (commit b o size (group_of b o group)).groups ≡ none
      → lookup j (commit b o size (group_of b o group)).owners ≡ none
  commit-placed j = ground (
    arith,
    h.placed j,
    lookup-insert o j size b.owners,
    lookup-insert o j (group_of b o group) b.groups,
    lookup-erase o j b.owners,
    lookup-erase o j b.groups,
  )

-- A sound budget stays sound when a reservation is granted or refused: what is used is the sum of
-- the reservations and within the limit, and each group has what its owners hold and no more than
-- its bound.
pub set-IsSound :
    (b : MemoryBudget) (o size : ℕ) (group : Option ℕ) → IsSound b → IsSound (set o size group b).1
unfolding set
set-IsSound b o size group h =
    elim (Bool-cases (ltb (b.limit + count o b.owners) (b.used + size))) [
      | inl over ↦ rw over h
      | inr fits ↦
          elim (Bool-cases (
            over_group b.per_group (count (group_of b o group) b.group_used + size)
              (count o b.owners))) [
                | inl over ↦ rw (fits, over) h
                | inr within ↦
                    rw (fits, within)
                      (record {
                        keyed = IsKeyed-book o size b.owners h.keyed;
                        sum = ground (
                          arith,
                          h.sum,
                          total-book o size b.owners h.keyed,
                          count-le-total o b.owners,
                        );
                        bounded = ground (arith, h.bounded, h.sum, count-le-total o b.owners);
                        placed = commit-placed b o size group h;
                        within = commit-within b o size group h within;
                        grouped = commit-grouped b o size group h;
                      })
              ]
    ]

-- A granted reservation holds exactly the given size for its owner and leaves every other owner's
-- reservation alone; a refused one leaves the whole budget alone.
pub set_lem :
    (b : MemoryBudget) (o size : ℕ) (group : Option ℕ) (j : ℕ)
    → ((set o size group b).0 ≡ ok tt)
        × (count j (set o size group b).1.owners ≡ (if o == j then size else count j b.owners))
      ⊎ ((set o size group b).0 ≢ ok tt) × ((set o size group b).1 ≡ b)
unfolding set
set_lem b o size group j = ground (arith, count-book o j size b.owners)

not_over :
    (bound : Option ℕ) (now old : ℕ)
    → ((p : ℕ) → bound ≡ some p → p ≢ 0 → now ≤ p)
    → over_group bound (now + 0) old ≡ false
not_over none now old h = refl
not_over (some p) now old h = ground (arith, h p refl)

-- In a sound budget, releasing an owner never fails, and frees exactly the bytes that it held.
pub release_frees :
    (b : MemoryBudget) (o : ℕ)
    → IsSound b
    → ((release o b).0 ≡ ok tt)
      × (count o (release o b).1.owners ≡ 0)
      × ((release o b).1.used + count o b.owners ≡ b.used)
unfolding release
release_frees b o h =
    let k = group_of b o none in
    rw (not_over b.per_group (count k b.group_used) (count o b.owners) (λ p. h.within p k))
      (ground (arith, h.bounded, h.sum, count-le-total o b.owners, count-book o o 0 b.owners))
