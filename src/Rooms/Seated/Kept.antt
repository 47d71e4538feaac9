-- ===== src/Rooms/Seated/Kept.antt =====
-- Chains of operations on the hub that keep the fighters of every room seated.
use kungfukid_local_server.Base.{
  ℕ, ◌≡◌, inl, inr, refl, sym, ap, ◌∙◌, Bool, true, false, Option, none, some, List, [], ◌∷◌,
  nat_eq, arith, Option-cases, String, if◌then◌else◌,
}
use kungfukid_local_server.Base.Dict.{Dict, lookup}
use kungfukid_local_server.Base.Exec.{
  Result, ok, raised, pure, lift, modify, require, for_each, ◌>>=◌,
}
use kungfukid_local_server.Wire.{Message}
use kungfukid_local_server.Hub.{
  Hub, Action, Room, Member, Engine, Connection, Phase, queue, broadcast, take_pending,
}
use kungfukid_local_server.Rooms.Members.{
  room_at, change_room, change_member, change_engine, set_phase, clear_ready, about,
}
use kungfukid_local_server.Rooms.Ticking.{queue-rooms, broadcast-rooms}
use kungfukid_local_server.Rooms.Seated.{
  IsSeated, IsHub, change-IsHub, change_member-IsSeated, member_changed,
}

-- what holds of a result and its hub; an exception leaves the fighters seated
abbrev pub Ended : {A : Type 0} → (A → Hub → Type 0) → Result A × Hub → Type 0
Ended P (ok a, h) = P a h
Ended P (raised _, h) = IsHub h

abbrev pub Kept : {A : Type 0} → A → Hub → Type 0
Kept _ h = IsHub h

-- an operation that keeps the fighters seated
abbrev pub Keeps : {A : Type 0} → Action A → Type 0
Keeps m = (h : Hub) → IsHub h → Ended Kept (m h)

pub hub-Ended : {A : Type 0} (p : Result A × Hub) → Ended Kept p → IsHub p.1
hub-Ended (ok a, h) kept = kept
hub-Ended (raised why, h) kept = kept

pub bind-Ended :
    {A B : Type 0} (Q : A → Hub → Type 0) (P : B → Hub → Type 0) (m : Action A) (f : A → Action B)
    (h : Hub)
    → Ended Q (m h)
    → ((a : A) (k : Hub) → Q a k → Ended P (f a k))
    → Ended P ((m >>= f) h)
bind-Ended {A = A} {B = B} Q P m f h first next = go (m h) first
  where
    go :
        (p : Result A × Hub)
        → Ended Q p
        → Ended P
            (elim p.0 as (λ _. Result B × Hub) [ ok a ↦ f a p.1 | raised e ↦ (raised e, p.1) ])
    go (ok a, k) first = next a k first
    go (raised why, k) first = first

pub then-Keeps :
    {A B : Type 0} (m : Action A) (f : A → Action B)
    → Keeps m
    → ((a : A) → Keeps (f a))
    → Keeps (m >>= f)
then-Keeps m f first next h fine = bind-Ended Kept Kept m f h (first h fine) next

pub lift-Ended :
    {A : Type 0} (P : A → Hub → Type 0) (r : Result A) (h : Hub)
    → IsHub h
    → ((a : A) → r ≡ ok a → P a h)
    → Ended P (lift r h)
lift-Ended P (ok a) h fine next = next a refl
lift-Ended P (raised why) h fine next = fine

pub require-Ended :
    (P : Unit → Hub → Type 0) (b : Bool) (why : String) (h : Hub)
    → IsHub h
    → P tt h
    → Ended P (require b why h)
require-Ended P true why h fine next = next
require-Ended P false why h fine next = fine

-- an operation that leaves the rooms alone
rooms-IsHub : (h k : Hub) → k.rooms ≡ h.rooms → IsHub h → IsHub k
rooms-IsHub h k same fine n r found = fine n r (ap (lookup n) (sym same) ∙ found)

state-Keeps : {A : Type 0} (m : Action A) → ((h : Hub) → IsHub h → IsHub (m h).1) → Keeps m
state-Keeps {A = A} m keep h fine = go (m h) (keep h fine)
  where
    go : (p : Result A × Hub) → IsHub p.1 → Ended Kept p
    go (ok a, k) kept = kept
    go (raised why, k) kept = kept

pub rooms-Keeps : {A : Type 0} (m : Action A) → ((h : Hub) → (m h).1.rooms ≡ h.rooms) → Keeps m
rooms-Keeps m same = state-Keeps m λ h fine. rooms-IsHub h (m h).1 (same h) fine

pub queue-Keeps : (uid : ℕ) (m : Message) → Keeps (queue uid m)
queue-Keeps uid m = rooms-Keeps (queue uid m) (queue-rooms uid m)

pub broadcast-Keeps :
    (ms : Dict ℕ Member) (m : Message) (exclude : Option ℕ) → Keeps (broadcast ms m exclude)
broadcast-Keeps ms m exclude = rooms-Keeps (broadcast ms m exclude) (broadcast-rooms ms m exclude)

take_pending-rooms : (uid : ℕ) (c : Connection) (h : Hub) → (take_pending uid c h).1.rooms ≡ h.rooms
unfolding take_pending
take_pending-rooms uid c h = ground arith

pub take_pending-Keeps : (uid : ℕ) (c : Connection) → Keeps (take_pending uid c)
take_pending-Keeps uid c = rooms-Keeps (take_pending uid c) (take_pending-rooms uid c)

pub set_phase-rooms :
    (phase : Phase) (uid : ℕ) (h : Hub) → (set_phase phase uid h).1.rooms ≡ h.rooms
set_phase-rooms phase uid h = ground arith

pub set_phase-Keeps : (phase : Phase) (uid : ℕ) → Keeps (set_phase phase uid)
set_phase-Keeps phase uid = rooms-Keeps (set_phase phase uid) (set_phase-rooms phase uid)

change_engine-rooms :
    (uid : ℕ) (f : Engine → Engine) (h : Hub) → (change_engine uid f h).rooms ≡ h.rooms
change_engine-rooms uid f h = ground arith

pub change_engine-Keeps : (uid : ℕ) (f : Engine → Engine) → Keeps (modify (change_engine uid f))
change_engine-Keeps uid f = rooms-Keeps (modify (change_engine uid f)) (change_engine-rooms uid f)

pub for_each-Keeps :
    {A : Type 0} (xs : List A) (m : A → Action (Unit {0}))
    → ((a : A) → Keeps (m a))
    → Keeps (for_each xs m)
for_each-Keeps [] m each h fine = fine
for_each-Keeps (x ∷ xs) m each h fine =
    bind-Ended Kept Kept (m x) (λ _. for_each xs m) h (each x h fine)
      λ _ k kept. for_each-Keeps xs m each k kept

pub change-Keeps :
    (n : ℕ) (f : Room → Room)
    → ((r : Room) → ((f r).number ≡ r.number) × (IsSeated r.members → IsSeated (f r).members))
    → Keeps (modify (change_room n f))
change-Keeps n f good h fine = change-IsHub n f h (λ r _. good r) fine

pub pure-Keeps : {A : Type 0} (a : A) → Keeps (pure a)
pure-Keeps a h fine = fine

pub if-Keeps :
    {A : Type 0} (b : Bool) (m k : Action A) → Keeps m → Keeps k → Keeps (if b then m else k)
if-Keeps true m k first second = first
if-Keeps false m k first second = second

change_member-number :
    (uid : ℕ) (g : Member → Member) (r : Room) → (change_member uid g r).number ≡ r.number
change_member-number uid g r = elim (Option-cases (lookup uid r.members)) [
  | inl absent ↦ ap (λ (y : Room). y.number) (member_changed uid g r none absent)
  | inr (m, there) ↦ ap (λ (y : Room). y.number) (member_changed uid g r (some m) there)
]

pub member-Keeps :
    (n uid : ℕ) (g : Member → Member)
    → ((m : Member) → ((g m).slot ≡ m.slot) × ((g m).spectator ≡ m.spectator))
    → Keeps (modify (change_room n (change_member uid g)))
member-Keeps n uid g same =
    change-Keeps n (change_member uid g)
      λ r. (change_member-number uid g r, change_member-IsSeated uid g r same)

room_at-rooms : (n : ℕ) (h : Hub) → (room_at n h).1.rooms ≡ h.rooms
room_at-rooms n h = ground arith

pub room_at-Keeps : (n : ℕ) → Keeps (room_at n)
room_at-Keeps n = rooms-Keeps (room_at n) λ h. room_at-rooms n h

pub clear_ready-Keeps : (n : ℕ) (ms : Dict ℕ Member) → Keeps (clear_ready n ms)
unfolding clear_ready
clear_ready-Keeps n ms = for_each-Keeps ms _ λ entry.
    if-Keeps entry.1.ready _ _
      (then-Keeps (modify (change_room n (change_member entry.0 (λ m. record m { ready = false }))))
        _ (member-Keeps n entry.0 (λ m. record m { ready = false }) λ m. (refl, refl))
        λ _. broadcast-Keeps ms (about 4070 entry.0) none)
      (pure-Keeps tt)
