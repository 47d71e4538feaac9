-- ===== src/Rooms/Election.antt =====
-- Who is the owner of a waiting room after the owner is gone.
use kungfukid_local_server.Base.{
  ℕ, ◌≤◌, ◌≡◌, ◌≢◌, refl, sym, ◌⊎◌, inl, inr, none, some, [], ◌∷◌, arith, All, length, leb, ◌==◌,
  if◌then◌else◌, nat_eq, Option-cases, Bool-cases,
}
use kungfukid_local_server.Base.Dict.{Dict}
use kungfukid_local_server.Hub.{Room, Member, fighters}
use kungfukid_local_server.Rooms.Leave.{elect, lowest}

-- Those that may be owner: the fighters, or everyone if there are none.
abbrev pub candidates : Room → Dict ℕ Member
candidates r = if length (fighters r) == 0 then r.members else fighters r

-- The entry of the dictionary for a key, wherever it stands.
pub data Has (uid slot : ℕ) : Dict ℕ Member → Type 0 where
  here : {m : Member} {ms : Dict ℕ Member} → m.slot ≡ slot → Has uid slot ((uid, m) ∷ ms)
  later : {entry : ℕ × Member} {ms : Dict ℕ Member} → Has uid slot ms → Has uid slot (entry ∷ ms)

widen :
    (a b : ℕ)
    → a ≤ b
    → (ms : Dict ℕ Member) → All (λ (entry : ℕ × Member). b ≤ entry.1.slot) ms
    → All (λ (entry : ℕ × Member). a ≤ entry.1.slot) ms
widen a b h [] all = tt
widen a b h ((u, m) ∷ ms) (here_too, all) = (omega arith, widen a b h ms all)

-- What `lowest` finds: an entry whose slot no other is below.
abbrev pub IsLowest : ℕ → ℕ → Dict ℕ Member → Type 0
IsLowest uid slot ms = Has uid slot ms × All (λ (entry : ℕ × Member). slot ≤ entry.1.slot) ms

lowest-none : (ms : Dict ℕ Member) → lowest ms ≡ none → length ms ≡ 0
lowest-none [] h = refl
lowest-none ((u, m) ∷ ms) h = elim (Option-cases (lowest ms)) [
  | inl nothing ↦ absurd (ground arith)
  | inr ((v, slot), found) ↦ absurd (ground arith)
]

no_members :
    (slot : ℕ) (ms : Dict ℕ Member)
    → length ms ≡ 0
    → All (λ (entry : ℕ × Member). slot ≤ entry.1.slot) ms
no_members slot [] h = tt
no_members slot (entry ∷ ms) h = absurd (ground arith)

lowest-IsLowest :
    (ms : Dict ℕ Member) (uid slot : ℕ) → lowest ms ≡ some (uid, slot) → IsLowest uid slot ms
lowest-IsLowest [] uid slot h = absurd (ground arith)
lowest-IsLowest ((u, m) ∷ ms) uid slot h = elim (Option-cases (lowest ms)) [
  | inl nothing ↦
      let same : u ≡ uid = ground arith in
      let slot_same : m.slot ≡ slot = ground arith in
      rw (sym same) (here slot_same, (omega arith, no_members slot ms (lowest-none ms nothing)))
  | inr ((v, s), found) ↦
      let (inside, least) = lowest-IsLowest ms v s found in
      elim (Bool-cases (leb m.slot s)) [
        | inl below ↦
            let same : u ≡ uid = ground arith in
            let slot_same : m.slot ≡ slot = ground arith in
            rw (sym same) (here slot_same, (omega arith, widen slot s (ground arith) ms least))
        | inr above ↦
            let same : v ≡ uid = ground arith in
            let slot_same : s ≡ slot = ground arith in
            let there : Has v slot ms = rw slot_same at inside in
            rw (sym same) (later there, (ground arith, widen slot s (omega arith) ms least))
      ]
]

-- When the owner is gone and anyone is left, the new owner is one of the candidates, and no
-- candidate has a lower slot; if the owner is still there, it stays.
pub elect-IsLowest :
    (uid : ℕ) (r : Room)
    → length (candidates r) ≢ 0
    → ((r.owner ≢ uid) × (elect uid r ≡ r.owner))
      ⊎ ((r.owner ≡ uid) × (slot : ℕ) × IsLowest (elect uid r) slot (candidates r))
unfolding elect
elect-IsLowest uid r some_left = elim (Bool-cases (r.owner == uid)) [
  | inr stays ↦ inl (ground arith, ground arith)
  | inl gone ↦ elim (Option-cases (lowest (candidates r))) [
    | inl nothing ↦ absurd (some_left (lowest-none (candidates r) nothing))
    | inr ((new, slot), found) ↦
        let same : elect uid r ≡ new = ground arith in
        inr (ground arith, slot, rw same (lowest-IsLowest (candidates r) new slot found))
  ]
]
