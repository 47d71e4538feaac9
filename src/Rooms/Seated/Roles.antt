-- ===== src/Rooms/Seated/Roles.antt =====
-- server/kk_local/room_flow.py: `toggle_spectator` keeps the fighters seated.
use mathlib.Core.Path.{subst}
use kungfukid_local_server.Base.{
  ℕ, ◌≡◌, ◌⊎◌, inl, inr, refl, sym, ap, ◌∙◌, Bool, true, false, not, ◌||◌, Option, none, some,
  nat_eq, arith, Bool-cases, Option-cases, if◌then◌else◌, ◌==◌, length,
}
use kungfukid_local_server.Base.Dict.{Dict, lookup}
use kungfukid_local_server.Base.Exec.{pure, lift, modify}
use kungfukid_local_server.Wire.{Message}
use kungfukid_local_server.Hub.{
  Hub, Room, Member, Connection, Phase, same_phase, broadcast, engine_of, fighters,
}
use kungfukid_local_server.Rooms.Members.{room_at, change_room, clear_ready, about}
use kungfukid_local_server.Rooms.Leave.{lowest}
use kungfukid_local_server.Rooms.Places.{RoomPackets, free_slot}
use kungfukid_local_server.Rooms.Entry.{has_spectator}
use kungfukid_local_server.Rooms.Install.{
  name_owner, hand_over, tell_switch, seat_again, switch_role, watching, fighting, to_fighter,
  other_role, toggle_error, toggle_to, toggle_in, toggle_spectator,
}
use kungfukid_local_server.Rooms.Seated.{
  IsHub, IsFresh, insert-IsSeated, change-IsHub, free_slot-IsFresh, some_inj, void,
}
use kungfukid_local_server.Rooms.Seated.Kept.{
  Ended, Kept, Keeps, hub-Ended, bind-Ended, then-Keeps, lift-Ended, broadcast-Keeps,
  take_pending-Keeps, change-Keeps, room_at-Keeps, clear_ready-Keeps, pure-Keeps, if-Keeps,
}
use kungfukid_local_server.Rooms.Seated.Changes.{HasPlace}

name_owner-Keeps : (n : ℕ) (ms : Dict ℕ Member) (o : Option (ℕ × ℕ)) → Keeps (name_owner n ms o)
name_owner-Keeps n ms none = pure-Keeps tt
name_owner-Keeps n ms (some (owner, slot)) =
    then-Keeps (modify (change_room n (λ r. record r { owner = owner }))) _
      (change-Keeps n (λ r. record r { owner = owner }) λ r. (refl, λ seated. seated))
      λ _. broadcast-Keeps ms (about 3160 owner) none

hand_over-Keeps : (n : ℕ) → Keeps (hand_over n)
unfolding hand_over
hand_over-Keeps n = then-Keeps (room_at n) _ (room_at-Keeps n) λ r.
    if-Keeps ((length (fighters r) == 0) || not (has_spectator r.owner r.members)) (pure tt) _
      (pure-Keeps tt) (name_owner-Keeps n r.members (lowest (fighters r)))

tell_switch-Keeps : (n : ℕ) (notice : Message) → Keeps (tell_switch n notice)
unfolding tell_switch
tell_switch-Keeps n notice = then-Keeps (room_at n) _ (room_at-Keeps n) λ r.
    then-Keeps (clear_ready n r.members) _ (clear_ready-Keeps n r.members) λ _.
      then-Keeps (broadcast r.members notice none) _ (broadcast-Keeps r.members notice none)
        λ _. hand_over-Keeps n

switch_role-Ended :
    (n uid : ℕ) (new : Member) (notice : Message) (h : Hub)
    → IsHub h
    → ((r : Room) → lookup n h.rooms ≡ some r → HasPlace uid new r)
    → Ended Kept (switch_role n uid new notice h)
unfolding switch_role
switch_role-Ended n uid new notice h fine place =
    tell_switch-Keeps n notice (change_room n (seat_again uid new) h) (
      change-IsHub n (seat_again uid new) h
        (λ r there. (refl, insert-IsSeated uid new r.members (place r there))) fine)

none_member : {m : Member} → none ≡ some m → ⊥
none_member e = ground (arith, e)

fighting-slot :
    (old new : Member) (slot : ℕ) (key : Option ℕ)
    → fighting old slot key ≡ some new
    → new.slot ≡ slot
fighting-slot old new slot none made = void (none_member made)
fighting-slot old new slot (some key) made = ap (λ (x : Member). x.slot) (sym (some_inj _ new made))

fighter-HasPlace :
    (r : Room) (uid : ℕ) (old new : Member) (free : Option ℕ)
    → free_slot r.members ≡ free
    → to_fighter r uid old free ≡ some new
    → HasPlace uid new r
fighter-HasPlace r uid old new none found made = void (none_member made)
fighter-HasPlace r uid old new (some slot) found made = inr (
    subst (λ s. IsFresh s uid r.members) (sym (fighting-slot old new slot _ made))
      (free_slot-IsFresh uid r.members slot found))

chosen :
    (b : Bool) (x y : Option Member) (new : Member)
    → (if b then x else y) ≡ some new
    → (x ≡ some new) ⊎ (y ≡ some new)
chosen true x y new made = inl made
chosen false x y new made = inr made

other-HasPlace :
    (r : Room) (uid : ℕ) (old new : Member) → other_role r uid old ≡ some new → HasPlace uid new r
unfolding other_role
other-HasPlace r uid old new made =
    elim (chosen old.spectator (to_fighter r uid old (free_slot r.members)) (some (watching old))
      new made) [
        | inl fights ↦ fighter-HasPlace r uid old new (free_slot r.members) refl fights
        | inr watches ↦ inl (ap (λ (x : Member). x.spectator) (sym (some_inj _ new watches)))
      ]

toggle_to-Ended :
    (k : RoomPackets) (engine : ℕ) (c : Connection) (r : Room) (o : Option Member) (h : Hub)
    → IsHub h
    → lookup r.number h.rooms ≡ some r
    → ((new : Member) → o ≡ some new → HasPlace c.uid new r)
    → Ended Kept (toggle_to k engine c r o h)
unfolding toggle_to
toggle_to-Ended k engine c r none h fine there place = fine
toggle_to-Ended k engine c r (some new) h fine there place =
    bind-Ended (λ _ h'. h' ≡ h) Kept (lift (k.fighter h c.uid new)) _ h
      (lift-Ended (λ _ h'. h' ≡ h) (k.fighter h c.uid new) h fine λ _ _. refl)
      λ raw h' same.
        bind-Ended Kept Kept
          (switch_role r.number c.uid new (k.spectator_transition c.uid new.spectator raw)) _ h'
          (switch_role-Ended r.number c.uid new (k.spectator_transition c.uid new.spectator raw) h'
            (subst IsHub (sym same) fine)
            λ x found.
              subst (HasPlace c.uid new)
                (some_inj r x
                  (sym there ∙ (ap (λ (y : Hub). lookup r.number y.rooms) (sym same) ∙ found)))
                (place new refl))
          λ _ h'' kept. take_pending-Keeps engine c h'' kept

toggle_in-Ended :
    (k : RoomPackets) (engine : ℕ) (c : Connection) (r : Room) (old : Member) (h : Hub)
    → IsHub h
    → lookup r.number h.rooms ≡ some r
    → Ended Kept (toggle_in k engine c r old h)
unfolding toggle_in
toggle_in-Ended k engine c r old h fine there = elim (Bool-cases (toggle_error h r old == 0)) [
  | inl e ↦ rw e (
      toggle_to-Ended k engine c r (other_role r c.uid old) h fine there
        λ new made. other-HasPlace r c.uid old new made)
  | inr e ↦ rw e fine
]

-- A member that changes between fighting and watching, or that is refused, leaves every room with its
-- fighters seated.
pub toggle_spectator-IsHub :
    (k : RoomPackets) (engine : ℕ) (c : Connection) (msg : Message) (h : Hub)
    → IsHub h
    → IsHub (toggle_spectator k engine c msg h).1
unfolding toggle_spectator
toggle_spectator-IsHub k engine c msg h fine = elim (Bool-cases (length msg.payload == 0)) [
  | inr e ↦ rw e fine
  | inl e ↦ elim (Option-cases (engine_of engine h)) [
    | inl gone ↦ rw (e, gone) fine
    | inr (x, known) ↦ elim (Option-cases x.room) [
      | inl outside ↦ rw (e, known, outside) fine
      | inr (n, inside) ↦ elim (Option-cases (lookup n h.rooms)) [
        | inl missing ↦ rw (e, known, inside, missing) fine
        | inr (r, there) ↦ elim (Bool-cases (same_phase c.phase Phase.in_room)) [
          | inr other ↦ rw (e, known, inside, there, other) fine
          | inl waits ↦ elim (Option-cases (lookup c.uid r.members)) [
            | inl absent ↦ rw (e, known, inside, there, waits, absent) fine
            | inr (old, here) ↦
                let own : lookup r.number h.rooms ≡ some r =
                  ap (λ i. lookup i h.rooms) (fine n r there).0 ∙ there in
                rw (e, known, inside, there, waits, here)
                  (hub-Ended (toggle_in k engine c r old h)
                    (toggle_in-Ended k engine c r old h fine own))
          ]
        ]
      ]
    ]
  ]
]
