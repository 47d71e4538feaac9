-- ===== src/Settlement/Accepted.antt =====
-- server/kk_local/lab_settlement.py: what an accepted report of a match is known to hold.
use mathlib.Core.Path.{subst}
use kungfukid_local_server.Base.{
  ℕ, ◌≡◌, ◌≤◌, ◌<◌, ◌⊎◌, inl, inr, refl, sym, ap, ◌∙◌, Bool, true, false, not, ◌&&◌, ◌||◌, Option,
  none, some, List, [], ◌∷◌, length, member, ltb, ◌==◌, if◌then◌else◌, nat_eq, arith, Bool-cases,
  Option-cases, ==_iff, is_some,
}
use kungfukid_local_server.Base.Bytes.{Bytes, u16, u32, u64}
use kungfukid_local_server.Base.Dict.{Dict, lookup, insert, contains, lookup-insert}
use kungfukid_local_server.Base.Exec.{ok, raised}
use kungfukid_local_server.Base.Fallible.{ok_inj, guard-cases, bind-cases}
use kungfukid_local_server.Settlement.{
  ReportSlot, slot_bytes, slot_of, decode_slot, check_row, decode_slots, eight, decode_report,
  nonzero,
}

-- a row that names its fighter, with its hit points in bounds, sent for this battle of this room
abbrev pub IsFine : ℕ → ℕ → ℕ → ReportSlot → Type 0
IsFine room serial u s =
    (s.uid ≡ u)
    × ((u64 29 s.raw ≡ u)
        × ((0 < s.maximum_hp)
            × ((s.hp ≤ s.maximum_hp) × ((u32 67 s.raw ≡ room) × (u32 71 s.raw ≡ serial)))))

-- every row is fine, and belongs to one of the given slots of the roster
abbrev IsAccepted : List ℕ → Dict ℕ ℕ → ℕ → ℕ → Dict ℕ ReportSlot → Type 0
IsAccepted slots roster room serial seen =
    (u : ℕ) (s : ReportSlot)
    → lookup u seen ≡ some s
    → IsFine room serial u s × ((i : ℕ) × ((member i slots ≡ true) × (lookup i roster ≡ some u)))

abbrev IsBooked : ℕ → Bytes → ℕ → ℕ → Dict ℕ ReportSlot → Dict ℕ ReportSlot → Type 0
IsBooked u raw room serial seen now =
    (now ≡ insert u (slot_of u raw) seen)
    × ((u64 29 raw ≡ u)
        × ((0 < u16 0 raw)
            × ((u16 2 raw ≤ u16 0 raw) × ((u32 67 raw ≡ room) × (u32 71 raw ≡ serial)))))

same_words : (a b : ℕ) (c : Bool) → (not (a == b) || c) ≡ false → a ≡ b
same_words a b c e = ground arith

both_same : (a b c d : ℕ) → not ((a == b) && (c == d)) ≡ false → (a ≡ b) × (c ≡ d)
both_same a b c d e = ground arith

in_bounds : (a b : ℕ) → ((a == 0) || ltb a b) ≡ false → (0 < a) × (b ≤ a)
in_bounds a b e = ground arith

row-cases :
    (u : ℕ) (raw : Bytes) (room serial : ℕ) (seen now : Dict ℕ ReportSlot)
    → check_row u raw room serial seen ≡ ok now
    → IsBooked u raw room serial seen now
unfolding check_row
row-cases u raw room serial seen now given =
    let (e, given') = guard-cases _ _ _ now given in
    let (f, given'') = guard-cases _ _ _ now given' in
    let (g, made) = guard-cases _ _ _ now given'' in
    let same = same_words _ _ _ e in
    let (positive, bounded) = in_bounds _ _ g in
    let (number, epoch) = both_same _ _ _ _ f in
    (
      sym (ok_inj _ _ made) ∙ ap (λ v. insert v (slot_of v raw) seen) same,
      (same, (positive, (bounded, (number, epoch)))),
    )

slot_vacant :
    (i : ℕ) (payload : Bytes) (roster : Dict ℕ ℕ) (room serial : ℕ) (seen : Dict ℕ ReportSlot)
    → lookup i roster ≡ none
    → decode_slot i payload roster room serial seen
      ≡ (if nonzero (slot_bytes i payload) then raised "4110 nonempty unoccupied slot" else ok seen)
unfolding decode_slot
slot_vacant i payload roster room serial seen absent = rw (absent, decode_slot) refl

slot_occupied :
    (i u : ℕ) (payload : Bytes) (roster : Dict ℕ ℕ) (room serial : ℕ) (seen : Dict ℕ ReportSlot)
    → lookup i roster ≡ some u
    → decode_slot i payload roster room serial seen
      ≡ check_row u (slot_bytes i payload) room serial seen
unfolding decode_slot
slot_occupied i u payload roster room serial seen there = rw (there, decode_slot) refl

slot-cases :
    (i : ℕ) (payload : Bytes) (roster : Dict ℕ ℕ) (room serial : ℕ) (seen now : Dict ℕ ReportSlot)
    → decode_slot i payload roster room serial seen ≡ ok now
    → ((lookup i roster ≡ none) × (now ≡ seen))
      ⊎ ((u : ℕ) × ((lookup i roster ≡ some u)
            × IsBooked u (slot_bytes i payload) room serial seen now))
slot-cases i payload roster room serial seen now given = elim (Option-cases (lookup i roster)) [
  | inl absent ↦
      let (e, made) =
        guard-cases _ _ _ now
          (sym (slot_vacant i payload roster room serial seen absent) ∙ given) in
      inl (absent, sym (ok_inj _ _ made))
  | inr (u, there) ↦ inr (
    u,
    (
      there,
      row-cases u (slot_bytes i payload) room serial seen now
          (sym (slot_occupied i u payload roster room serial seen there) ∙ given),
    ),
  )
]

some_inj {ℓ} : {A : Type ℓ} (a b : A) → some a ≡ some b → a ≡ b
some_inj a b e = ap (λ o. elim o [ some c ↦ c | none ↦ a ]) e

booked-IsAccepted :
    (i u : ℕ) (raw : Bytes) (slots : List ℕ) (roster : Dict ℕ ℕ) (room serial : ℕ)
    (seen now : Dict ℕ ReportSlot)
    → lookup i roster ≡ some u
    → member i slots ≡ true
    → IsBooked u raw room serial seen now
    → IsAccepted slots roster room serial seen
    → IsAccepted slots roster room serial now
booked-IsAccepted i u raw slots roster room serial seen now there here (made, fine) before v s
      found =
    let found' : (if u == v then some (slot_of u raw) else lookup v seen) ≡ some s =
      sym (lookup-insert u v (slot_of u raw) seen) ∙ (ap (lookup v) (sym made) ∙ found) in
    elim (Bool-cases (u == v)) [
      | inr e ↦ before v s (sym (rw e refl) ∙ found')
      | inl e ↦
          let row : slot_of u raw ≡ s = some_inj _ _ (sym (rw e refl) ∙ found') in
          let same : u ≡ v = (==_iff u v).0 e in
          subst
            (λ w.
              IsFine room serial w s
              × ((j : ℕ) × ((member j slots ≡ true) × (lookup j roster ≡ some w))))
            same (subst (IsFine room serial u) row (refl, fine), (i, (here, there)))
    ]

member_there : (i j : ℕ) (xs : List ℕ) → member j xs ≡ true → member j (i ∷ xs) ≡ true
member_there i j xs here = ground arith

member_here : (i : ℕ) (xs : List ℕ) → member i (i ∷ xs) ≡ true
member_here i xs = ground arith

slots-IsAccepted :
    (slots every : List ℕ) (payload : Bytes) (roster : Dict ℕ ℕ) (room serial : ℕ)
    (seen now : Dict ℕ ReportSlot)
    → ((i : ℕ) → member i slots ≡ true → member i every ≡ true)
    → decode_slots slots payload roster room serial seen ≡ ok now
    → IsAccepted every roster room serial seen
    → IsAccepted every roster room serial now
unfolding decode_slots
slots-IsAccepted [] every payload roster room serial seen now within given before =
    subst (IsAccepted every roster room serial) (ok_inj _ _ given) before
slots-IsAccepted (i ∷ slots) every payload roster room serial seen now within given before =
    let (mid, (first, rest)) = bind-cases _ _ now given in
    slots-IsAccepted slots every payload roster room serial mid now
      (λ j here. within j (member_there i j slots here)) rest
      (elim (slot-cases i payload roster room serial seen mid first) [
        | inl (absent, same) ↦ subst (IsAccepted every roster room serial) (sym same) before
        | inr (u, (there, booked)) ↦
            booked-IsAccepted i u (slot_bytes i payload) every roster room serial seen mid there
              (within i (member_here i slots)) booked before
      ])

known_lem {ℓ} :
    {A : Type ℓ} (b : Bool) (o : Option A) (a : A)
    → (b || is_some o) ≡ is_some (if b then some a else o)
known_lem true o a = refl
known_lem false o a = refl

either : (a : Bool) {b : Bool} → b ≡ true → (a || b) ≡ true
either true here = refl
either false here = here

whether : {a : Bool} (b : Bool) → a ≡ true → (a || b) ≡ true
whether b here = ap (λ a. a || b) here

clash : (b : Bool) (o : Option ℕ) (a : ℕ) → o ≡ none → o ≡ some a → b ≡ true
clash b o a absent there = ap (λ p. elim p [ none ↦ b | some _ ↦ true ]) (sym absent ∙ there)

empty-IsAccepted :
    (every : List ℕ) (roster : Dict ℕ ℕ) (room serial : ℕ) → IsAccepted every roster room serial []
empty-IsAccepted every roster room serial u s found = ground arith

length_lem : (n : ℕ) → not (n == 696) ≡ false → n ≡ 696
length_lem n e = ground arith

booked-contains :
    (u v : ℕ) (raw : Bytes) (room serial : ℕ) (seen now : Dict ℕ ReportSlot)
    → IsBooked u raw room serial seen now
    → ((u == v) || contains v seen) ≡ contains v now
booked-contains u v raw room serial seen now (made, _) =
    let known : contains v now ≡ contains v (insert u (slot_of u raw) seen) =
      ap (contains v) made in
    known_lem (u == v) (lookup v seen) (slot_of u raw)
    ∙ sym (known ∙ ap is_some (lookup-insert u v (slot_of u raw) seen))

slots-contains :
    (slots : List ℕ) (payload : Bytes) (roster : Dict ℕ ℕ) (room serial v : ℕ)
    (seen now : Dict ℕ ReportSlot)
    → decode_slots slots payload roster room serial seen ≡ ok now
    → contains v seen ≡ true
    → contains v now ≡ true
unfolding decode_slots
slots-contains [] payload roster room serial v seen now given here =
    ap (contains v) (sym (ok_inj _ _ given)) ∙ here
slots-contains (i ∷ slots) payload roster room serial v seen now given here =
    let (mid, (first, rest)) = bind-cases _ _ now given in
    slots-contains slots payload roster room serial v mid now rest
      (elim (slot-cases i payload roster room serial seen mid first) [
        | inl (absent, same) ↦ ap (contains v) same ∙ here
        | inr (u, (there, booked)) ↦
            sym (booked-contains u v (slot_bytes i payload) room serial seen mid booked)
            ∙ either (u == v) here
      ])

-- every slot of the roster has its row
slots-IsComplete :
    (slots : List ℕ) (payload : Bytes) (roster : Dict ℕ ℕ) (room serial j v : ℕ)
    (seen now : Dict ℕ ReportSlot)
    → decode_slots slots payload roster room serial seen ≡ ok now
    → member j slots ≡ true
    → lookup j roster ≡ some v
    → contains v now ≡ true
unfolding decode_slots
slots-IsComplete [] payload roster room serial j v seen now given here found = ground arith
slots-IsComplete (i ∷ slots) payload roster room serial j v seen now given here found =
    let (mid, (first, rest)) = bind-cases _ _ now given in
    elim (Bool-cases (j == i)) [
      | inr e ↦
          slots-IsComplete slots payload roster room serial j v mid now rest
            (ground (arith, here, e)) found
      | inl e ↦
          let found' : lookup i roster ≡ some v =
            ap (λ k. lookup k roster) (sym ((==_iff j i).0 e)) ∙ found in
          slots-contains slots payload roster room serial v mid now rest
            (elim (slot-cases i payload roster room serial seen mid first) [
              | inl (absent, same) ↦ clash _ (lookup i roster) v absent found'
              | inr (u, (there, booked)) ↦
                  let same : u ≡ v = some_inj _ _ (sym there ∙ found') in
                  sym (booked-contains u v (slot_bytes i payload) room serial seen mid booked)
                  ∙ whether _ ((==_iff u v).1 same)
            ])
    ]

-- the report is what the loop over the eight slots has read
report-slots :
    (payload : Bytes) (roster : Dict ℕ ℕ) (room serial : ℕ) (seen : Dict ℕ ReportSlot)
    → decode_report payload roster room serial ≡ ok seen
    → (length payload ≡ 696) × (decode_slots eight payload roster room serial [] ≡ ok seen)
unfolding decode_report
report-slots payload roster room serial seen given =
    let (e, rest) = guard-cases _ _ _ seen given in
    let (now, (read, checked)) = bind-cases _ _ seen rest in
    let (f, same) = guard-cases _ _ _ seen checked in (length_lem _ e, read ∙ same)

-- A row of an accepted report names a fighter of one of the roster's eight slots, was sent for this
-- battle of this room, and has its hit points between 0 and a maximum above 0; the report has 696 bytes.
pub decode_report-IsFine :
    (payload : Bytes) (roster : Dict ℕ ℕ) (room serial : ℕ) (seen : Dict ℕ ReportSlot) (u : ℕ)
    (s : ReportSlot)
    → decode_report payload roster room serial ≡ ok seen
    → lookup u seen ≡ some s
    → (length payload ≡ 696)
      × (IsFine room serial u s
          × ((i : ℕ) × ((member i eight ≡ true) × (lookup i roster ≡ some u))))
decode_report-IsFine payload roster room serial seen u s given found =
    let (size, read) = report-slots payload roster room serial seen given in
    (
      size,
      slots-IsAccepted eight eight payload roster room serial [] seen (λ i here. here) read
          (empty-IsAccepted eight roster room serial) u s found,
    )

-- The fighter of each of the roster's eight slots has a row in an accepted report.
pub decode_report-IsComplete :
    (payload : Bytes) (roster : Dict ℕ ℕ) (room serial : ℕ) (seen : Dict ℕ ReportSlot) (i u : ℕ)
    → decode_report payload roster room serial ≡ ok seen
    → member i eight ≡ true
    → lookup i roster ≡ some u
    → contains u seen ≡ true
decode_report-IsComplete payload roster room serial seen i u given here found =
    slots-IsComplete eight payload roster room serial i u [] seen
      (report-slots payload roster room serial seen given).1 here found
