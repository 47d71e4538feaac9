-- ===== src/Rooms/Seated.antt =====
-- The slots of the fighters of a room, in server/kk_local/room_lifecycle.py, room_flow.py and
-- room_requests.py: no two fighters of a room share one.
pub mod Kept
pub mod Changes
pub mod Roles
use mathlib.Core.Path.{subst}
use kungfukid_local_server.Base.{
  ℕ, zero, suc, ◌+◌, ◌<◌, ◌≤◌, ◌≡◌, ◌≢◌, ◌⊎◌, inl, inr, refl, sym, ap, ◌∙◌, Bool, true, false, not,
  ◌&&◌, ◌||◌, Option, none, some, List, [], ◌∷◌, length, member, ltb, leb, ◌==◌, if◌then◌else◌,
  nat_eq, arith, Bool-cases, Option-cases, ==_iff, is_some,
}
use kungfukid_local_server.Base.Dict.{Dict, lookup, insert, lookup-insert}
use kungfukid_local_server.Hub.{Hub, Room, Member}
use kungfukid_local_server.Rooms.Members.{change_room, change_member}
use kungfukid_local_server.Rooms.Places.{used, first_free, slot_label, free_slot}

-- no two fighters have the same slot, and there are eight of them
pub record IsSeated (ms : Dict ℕ Member) : Type 0 where
  pub apart :
      (u v : ℕ) (m m' : Member)
      → lookup u ms ≡ some m
      → m.spectator ≡ false
      → lookup v ms ≡ some m'
      → m'.spectator ≡ false
      → m.slot ≡ m'.slot
      → u ≡ v
  pub low : (u : ℕ) (m : Member) → lookup u ms ≡ some m → m.spectator ≡ false → m.slot < 8

-- every room stands under its number, with its fighters seated
abbrev pub IsHub : Hub → Type 0
IsHub h = (n : ℕ) (r : Room) → lookup n h.rooms ≡ some r → (r.number ≡ n) × IsSeated r.members

pub some_inj {ℓ} : {A : Type ℓ} (a b : A) → some a ≡ some b → a ≡ b
some_inj a b e = ap (λ o. elim o [ some c ↦ c | none ↦ a ]) e

looked_up :
    (v u : ℕ) (x : Member) (ms : Dict ℕ Member) (b : Bool)
    → (v == u) ≡ b
    → lookup u ((v, x) ∷ ms) ≡ (if b then some x else lookup u ms)
looked_up v u x ms b e = ap (λ c. if c then some x else lookup u ms) e

own_slot :
    (x : Member) (rest : List ℕ)
    → x.spectator ≡ false
    → member x.slot (if x.spectator || false then rest else x.slot ∷ rest) ≡ true
own_slot x rest fights = rw fights (ground arith)

other_slot :
    (s : ℕ) (b : Bool) (t : ℕ) (rest : List ℕ)
    → member s rest ≡ true
    → member s (if b then rest else t ∷ rest) ≡ true
other_slot s b t rest here = ground arith

slot-used :
    (u : ℕ) (m : Member) (ms : Dict ℕ Member)
    → lookup u ms ≡ some m
    → m.spectator ≡ false
    → member m.slot (used slot_label none ms) ≡ true
slot-used u m [] found fights = ground arith
slot-used u m ((v, x) ∷ ms) found fights = elim (Bool-cases (v == u)) [
  | inl e ↦
      let same = some_inj x m (sym (looked_up v u x ms true e) ∙ found) in
      subst (λ (y : Member). member y.slot (used slot_label none ((v, x) ∷ ms)) ≡ true) same
        (own_slot x (used slot_label none ms) (ap (λ (y : Member). y.spectator) same ∙ fights))
  | inr e ↦
      other_slot m.slot (x.spectator || false) x.slot (used slot_label none ms)
        (slot-used u m ms (sym (looked_up v u x ms false e) ∙ found) fights)
]

first_free-IsFree :
    (taken : List ℕ) (i n s : ℕ)
    → first_free taken i n ≡ some s
    → (member s taken ≡ false) × (s < i + n)
first_free-IsFree taken i zero s found = ground arith
first_free-IsFree taken i (suc n) s found =
    let rest = first_free-IsFree taken (i + 1) n s in
    elim (Bool-cases (member i taken)) [
      | inl e ↦ let (new, low) = rest (sym (rw e refl) ∙ found) in (new, omega (arith, low))
      | inr e ↦
          let same = some_inj i s (sym (rw e refl) ∙ found) in
          (ap (λ t. member t taken) (sym same) ∙ e, omega (arith, same))
    ]

-- a slot that no fighter has
abbrev pub IsFresh : ℕ → ℕ → Dict ℕ Member → Type 0
IsFresh slot uid ms =
    (slot < 8)
    × ((v : ℕ) (m : Member)
        → lookup v ms ≡ some m
        → m.spectator ≡ false
        → (v ≡ uid) ⊎ (slot ≢ m.slot))

pub free_slot-IsFresh :
    (uid : ℕ) (ms : Dict ℕ Member) (slot : ℕ) → free_slot ms ≡ some slot → IsFresh slot uid ms
unfolding free_slot
free_slot-IsFresh uid ms slot found =
    let (new, low) = first_free-IsFree (used slot_label none ms) 0 8 slot found in
    (
      low,
      λ v m there fights. inr (λ same.
          let taken = slot-used v m ms there fights in
          ground (arith, ap (λ t. member t (used slot_label none ms)) same, new, taken)),
    )

-- who is found after an insertion
inserted :
    (uid : ℕ) (new : Member) (ms : Dict ℕ Member) (u : ℕ) (m : Member)
    → lookup u (insert uid new ms) ≡ some m
    → ((uid ≡ u) × (new ≡ m)) ⊎ ((uid ≢ u) × (lookup u ms ≡ some m))
inserted uid new ms u m found =
    let found' = sym (lookup-insert uid u new ms) ∙ found in
    elim (Bool-cases (uid == u)) [
      | inl e ↦ inl ((==_iff uid u).0 e, some_inj new m (sym (rw e refl) ∙ found'))
      | inr e ↦ inr ((λ same. ground (arith, e, same)), sym (rw e refl) ∙ found')
    ]

-- a new fighter has no slot of another
kept_apart :
    (uid : ℕ) (new : Member) (ms : Dict ℕ Member) (v : ℕ) (m : Member)
    → (new.spectator ≡ true) ⊎ IsFresh new.slot uid ms
    → new.spectator ≡ false
    → uid ≢ v
    → lookup v ms ≡ some m
    → m.spectator ≡ false
    → new.slot ≢ m.slot
kept_apart uid new ms v m (inl watches) fights other found also = ground (arith, watches, fights)
kept_apart uid new ms v m (inr (low, fresh)) fights other found also = elim (fresh v m found also) [
  | inl same ↦ λ _. other (sym same)
  | inr apart ↦ apart
]

has_low :
    (uid : ℕ) (new : Member) (ms : Dict ℕ Member)
    → (new.spectator ≡ true) ⊎ IsFresh new.slot uid ms
    → new.spectator ≡ false
    → new.slot < 8
has_low uid new ms (inl watches) fights = ground (arith, watches, fights)
has_low uid new ms (inr (low, _)) fights = low

fighter : (new m : Member) → new ≡ m → m.spectator ≡ false → new.spectator ≡ false
fighter new m is fights = ap (λ (y : Member). y.spectator) is ∙ fights

pub void {ℓ} : {A : Type ℓ} → ⊥ → A
void e = elim e [ ]

replaced :
    (n : ℕ) (r : Room) (rooms : Dict ℕ Room) (k : ℕ) (x : Room)
    → lookup k (insert n r rooms) ≡ some x
    → ((n ≡ k) × (r ≡ x)) ⊎ (lookup k rooms ≡ some x)
replaced n r rooms k x found =
    let found' = sym (lookup-insert n k r rooms) ∙ found in
    elim (Bool-cases (n == k)) [
      | inl e ↦ inl ((==_iff n k).0 e, some_inj r x (sym (rw e refl) ∙ found'))
      | inr e ↦ inr (sym (rw e refl) ∙ found')
    ]

pub insert-IsSeated :
    (uid : ℕ) (new : Member) (ms : Dict ℕ Member)
    → (new.spectator ≡ true) ⊎ IsFresh new.slot uid ms
    → IsSeated ms
    → IsSeated (insert uid new ms)
insert-IsSeated uid new ms place seated = record {
  apart = λ u v m m' found fights found' fights' same. elim (inserted uid new ms u m found) [
    | inl (at, is) ↦ elim (inserted uid new ms v m' found') [
      | inl (at', _) ↦ sym at ∙ at'
      | inr (other, old) ↦ void (
          kept_apart uid new ms v m' place (fighter new m is fights) other old fights'
            (ap (λ (y : Member). y.slot) is ∙ same))
    ]
    | inr (other, old) ↦ elim (inserted uid new ms v m' found') [
      | inl (_, is) ↦ void (
          kept_apart uid new ms u m place (fighter new m' is fights') other old fights
            (ap (λ (y : Member). y.slot) is ∙ sym same))
      | inr (_, old') ↦ seated.apart u v m m' old fights old' fights' same
    ]
  ];
  low = λ u m found fights. elim (inserted uid new ms u m found) [
    | inl (_, is) ↦
        subst (λ (y : Member). y.slot < 8) is (has_low uid new ms place (fighter new m is fights))
    | inr (_, old) ↦ seated.low u m old fights
  ];
}

pub changed :
    (n : ℕ) (f : Room → Room) (h : Hub) (o : Option Room)
    → lookup n h.rooms ≡ o
    → change_room n f h ≡ elim o [ none ↦ h | some r ↦ record h { rooms = insert n (f r) h.rooms } ]
changed n f h o e =
    ap (λ p. elim p [ none ↦ h | some r ↦ record h { rooms = insert n (f r) h.rooms } ]) e

-- a change of a room that seats its fighters
pub change-IsHub :
    (n : ℕ) (f : Room → Room) (h : Hub)
    → ((r : Room)
        → lookup n h.rooms ≡ some r
        → ((f r).number ≡ r.number) × (IsSeated r.members → IsSeated (f r).members))
    → IsHub h
    → IsHub (change_room n f h)
change-IsHub n f h good fine = elim (Option-cases (lookup n h.rooms)) [
  | inl absent ↦ subst IsHub (sym (changed n f h none absent)) fine
  | inr (r, there) ↦ subst IsHub (sym (changed n f h (some r) there)) λ k x found.
      elim (replaced n (f r) h.rooms k x found) [
        | inl (at, is) ↦
            let (number, seats) = good r there in
            let (own, seated) = fine n r there in
            (
              ap (λ (y : Room). y.number) (sym is) ∙ (number ∙ (own ∙ at)),
              subst (λ (y : Room). IsSeated y.members) is (seats seated),
            )
        | inr old ↦ fine k x old
      ]
]

pub member_changed :
    (uid : ℕ) (g : Member → Member) (r : Room) (o : Option Member)
    → lookup uid r.members ≡ o
    → change_member uid g r
      ≡ elim o [ none ↦ r | some m ↦ record r { members = insert uid (g m) r.members } ]
member_changed uid g r o e =
    ap (λ p. elim p [ none ↦ r | some m ↦ record r { members = insert uid (g m) r.members } ]) e

still :
    (uid : ℕ) (g : Member → Member) (r : Room) (m : Member)
    → ((m : Member) → ((g m).slot ≡ m.slot) × ((g m).spectator ≡ m.spectator))
    → IsSeated r.members
    → lookup uid r.members ≡ some m
    → ((g m).spectator ≡ true) ⊎ IsFresh (g m).slot uid r.members
still uid g r m same seated there = elim (Bool-cases (g m).spectator) [
  | inl watches ↦ inl watches
  | inr fights ↦
      let fought = sym (same m).1 ∙ fights in
      inr (
        subst (λ s. s < 8) (sym (same m).0) (seated.low uid m there fought),
        λ v x found also. elim (Bool-cases (v == uid)) [
          | inl e ↦ inl ((==_iff v uid).0 e)
          | inr e ↦ inr (λ clash. ground (
            arith,
            e,
            seated.apart v uid x m found also there fought (sym (sym (same m).0 ∙ clash)),
          ))
        ],
      )
]

-- a change of members that leaves slots and roles alone
pub change_member-IsSeated :
    (uid : ℕ) (g : Member → Member) (r : Room)
    → ((m : Member) → ((g m).slot ≡ m.slot) × ((g m).spectator ≡ m.spectator))
    → IsSeated r.members
    → IsSeated (change_member uid g r).members
change_member-IsSeated uid g r same seated = elim (Option-cases (lookup uid r.members)) [
  | inl absent ↦
      subst (λ (y : Room). IsSeated y.members) (sym (member_changed uid g r none absent)) seated
  | inr (m, there) ↦
      subst (λ (y : Room). IsSeated y.members) (sym (member_changed uid g r (some m) there))
        (insert-IsSeated uid (g m) r.members (still uid g r m same seated there) seated)
]

pub empty-IsSeated : IsSeated []
empty-IsSeated = record {
  apart = λ u v m m' found. void (absent u m found);
  low = λ u m found. void (absent u m found);
}
  where
    absent : (u : ℕ) (m : Member) → lookup {V = Member} u [] ≡ some m → ⊥
    absent u m found = ground arith

pub one_room-IsHub :
    (h : Hub) (k : ℕ) (r : Room)
    → h.rooms ≡ (k, r) ∷ []
    → r.number ≡ k
    → IsSeated r.members
    → IsHub h
one_room-IsHub h k r only own seated n x found =
    elim (replaced k r [] n x (ap (lookup n) (sym only) ∙ found)) [
      | inl (at, is) ↦ (
        ap (λ (y : Room). y.number) (sym is) ∙ (own ∙ at),
        subst (λ (y : Room). IsSeated y.members) is seated,
      )
      | inr old ↦ void (missing n x old)
    ]
  where
    missing : (n : ℕ) (x : Room) → lookup {V = Room} n [] ≡ some x → ⊥
    missing n x old = ground arith
