-- ===== src/Rooms/Barriers/Stages.antt =====
-- server/kk_local/room_flow.py: what `advance_barriers` does to the stage of a room.
use kungfukid_local_server.Base.{
  ℕ, ◌≡◌, inl, inr, refl, sym, ap, ◌∙◌, Bool, true, false, not, Option, none, some, List, [], ◌∷◌,
  ◌++◌, nat_eq, arith, Option-cases, if◌then◌else◌, is_some, ◌==◌, ==_iff,
}
use kungfukid_local_server.Base.Dict.{Dict, lookup, insert, lookup-insert}
use kungfukid_local_server.Base.Exec.{
  Result, pure, modify, for_each, or_raise, ◌>>=◌, ◌>>◌, chain-cases,
}
use kungfukid_local_server.Wire.{Message}
use kungfukid_local_server.Hub.{Hub, Action, Room, Member, Phase, Stage, fighters, queue, broadcast}
use kungfukid_local_server.Rooms.Members.{
  room_at, change_room, change_member, set_phase, owner_clock, message, about,
}
use kungfukid_local_server.Rooms.Barriers.{
  tell_waiting, clock_set, tell_battle, set_clock, start_battle, tell_room, unready, tell_back,
  battle_ready, back_in_room, tell_activity,
}
use kungfukid_local_server.Rooms.Ticking.{queue-rooms, broadcast-rooms}
use kungfukid_local_server.Rooms.Seated.{changed, member_changed}
use kungfukid_local_server.Base.Bytes.{to_le}
use kungfukid_local_server.Rooms.Seated.Kept.{set_phase-rooms}

-- the stage of a room that the hub has
abbrev stage_of : Option Room → Option Stage
stage_of none = none
stage_of (some r) = some r.stage

abbrev pub stage_at : ℕ → Hub → Option Stage
stage_at n h = stage_of (lookup n h.rooms)

module _ (n : ℕ) where
  -- an operation that leaves the stage of the room alone
  abbrev Steady : {A : Type 0} → Action A → Type 0
  Steady m = (h : Hub) → stage_at n (m h).1 ≡ stage_at n h

  then-Steady :
      {A B : Type 0} (m : Action A) (f : A → Action B)
      → Steady m
      → ((a : A) → Steady (f a))
      → Steady (m >>= f)
  then-Steady {B = B} m f first next h = elim (chain-cases m f h) [
    | inl stopped ↦ ap (stage_at n) stopped ∙ first h
    | inr (a, (_, on)) ↦ ap (λ (p : Result B × Hub). stage_at n p.1) on ∙ (next a (m h).1 ∙ first h)
  ]

  each-Steady :
      {A : Type 0} (xs : List A) (m : A → Action (Unit {0}))
      → ((a : A) → Steady (m a))
      → Steady (for_each xs m)
  each-Steady [] m each h = refl
  each-Steady (x ∷ xs) m each h = elim (chain-cases (m x) (λ _. for_each xs m) h) [
    | inl stopped ↦ ap (stage_at n) stopped ∙ each x h
    | inr (a, (_, on)) ↦
        ap (λ (p : Result (Unit {0}) × Hub). stage_at n p.1) on
        ∙ (each-Steady xs m each (m x h).1 ∙ each x h)
  ]

  rooms-Steady : {A : Type 0} (m : Action A) → ((h : Hub) → (m h).1.rooms ≡ h.rooms) → Steady m
  rooms-Steady m same h = ap (λ (rooms : Dict ℕ Room). stage_of (lookup n rooms)) (same h)

  -- the stage after a change of a room
  change-stage :
      (f : Room → Room) (h : Hub) (r : Room)
      → lookup n h.rooms ≡ some r
      → stage_at n (change_room n f h) ≡ some (f r).stage
  change-stage f h r there =
      ap (stage_at n) (changed n f h (some r) there) ∙ ap stage_of (found_new (f r) h.rooms)
    where
      found_new : (x : Room) (rooms : Dict ℕ Room) → lookup n (insert n x rooms) ≡ some x
      found_new x rooms =
          lookup-insert n n x rooms
          ∙ ap (λ b. if b then some x else lookup n rooms) ((==_iff n n).1 refl)

  change-Steady :
      (f : Room → Room) → ((r : Room) → (f r).stage ≡ r.stage) → Steady (modify (change_room n f))
  change-Steady f same h = elim (Option-cases (lookup n h.rooms)) [
    | inl absent ↦ ap (stage_at n) (changed n f h none absent)
    | inr (r, there) ↦ change-stage f h r there ∙ (ap some (same r) ∙ ap stage_of (sym there))
  ]

  phases-Steady :
      (phase : Phase) (ms : Dict ℕ Member)
      → Steady (for_each ms (λ entry. set_phase phase entry.1.engine))
  phases-Steady phase ms =
      each-Steady ms _ λ entry.
        rooms-Steady (set_phase phase entry.1.engine) (set_phase-rooms phase entry.1.engine)

  queues-Steady :
      (ms : Dict ℕ Member) (m : Message) → Steady (for_each ms (λ entry. queue entry.1.engine m))
  queues-Steady ms m =
      each-Steady ms _ λ entry. rooms-Steady (queue entry.1.engine m) (queue-rooms entry.1.engine m)

  broadcast-Steady :
      (ms : Dict ℕ Member) (m : Message) (exclude : Option ℕ) → Steady (broadcast ms m exclude)
  broadcast-Steady ms m exclude =
      rooms-Steady (broadcast ms m exclude) (broadcast-rooms ms m exclude)

  at_room :
      (f : Room → Action (Unit {0})) (r : Room) (h : Hub)
      → lookup n h.rooms ≡ some r
      → (room_at n >>= f) h ≡ f r h
  at_room f r h there = ap (λ o. (or_raise o "room" >>= f) h) there

  -- the room moves when the barrier is open
  pub moves :
      (open_now : Room → Bool) (m : Room → Action (Unit {0})) (r : Room) (h : Hub) (s : Stage)
      → lookup n h.rooms ≡ some r
      → stage_at n (m r h).1 ≡ some s
      → stage_at n ((room_at n >>= λ x. if not (open_now x) then pure tt else m x) h).1
        ≡ some (if open_now r then s else r.stage)
  moves open_now m r h s there moved =
      ap (λ (p : Result (Unit {0}) × Hub). stage_at n p.1)
        (at_room (λ x. if not (open_now x) then pure tt else m x) r h there)
      ∙ chosen (open_now r) (m r) moved
    where
      chosen :
          (b : Bool) (k : Action (Unit {0}))
          → stage_at n (k h).1 ≡ some s
          → stage_at n ((if not b then pure tt else k) h).1 ≡ some (if b then s else r.stage)
      chosen true k went = went
      chosen false k went = ap stage_of there

  -- a change of the room, and then what leaves its stage alone
  pub settles :
      (f : Room → Room) (k : Action (Unit {0})) (r : Room) (h : Hub)
      → Steady k
      → lookup n h.rooms ≡ some r
      → stage_at n ((modify (change_room n f) >> k) h).1 ≡ some (f r).stage
  settles f k r h steady there = steady (change_room n f h) ∙ change-stage f h r there

  pub tell_waiting-Steady : (r : Room) → Steady (tell_waiting r)
  tell_waiting-Steady r =
      then-Steady (for_each r.members (λ entry. set_phase Phase.wait_ready entry.1.engine))
        (λ _. for_each (fighters r) (λ entry. queue entry.1.engine (message 4180 [])))
        (phases-Steady Phase.wait_ready r.members) λ _. queues-Steady (fighters r) (message 4180 [])

  tell_battle-Steady : (r : Room) → Steady (tell_battle n r)
  tell_battle-Steady r =
      then-Steady (for_each r.members (λ entry. set_phase Phase.battle entry.1.engine))
        (λ _. broadcast r.members (message 8070 (battle_ready n r.serial)) none)
        (phases-Steady Phase.battle r.members) λ _. broadcast-Steady r.members _ none

  set_clock-Steady : (r : Room) (now : ℕ) → Steady (set_clock n r now)
  set_clock-Steady r now h =
      then-Steady (modify (change_room n (clock_set now (is_some h.public_rooms))))
        (λ _. tell_battle n r) (change-Steady (clock_set now (is_some h.public_rooms)) λ x. refl)
        (λ _. tell_battle-Steady r) h

  owner_clock-rooms : (r : Room) (h : Hub) → (owner_clock r h).1.rooms ≡ h.rooms
  owner_clock-rooms r h = ground arith

  pub start_battle-Steady : (r : Room) → Steady (start_battle n r)
  start_battle-Steady r =
      then-Steady (owner_clock r) (set_clock n r)
        (rooms-Steady (owner_clock r) (owner_clock-rooms r)) (set_clock-Steady r)

  if-Steady :
      (b : Bool) (m k : Action (Unit {0})) → Steady m → Steady k → Steady (if b then m else k)
  if-Steady true m k first second = first
  if-Steady false m k first second = second

  member-stage :
      (uid : ℕ) (g : Member → Member) (r : Room) → (change_member uid g r).stage ≡ r.stage
  member-stage uid g r = elim (Option-cases (lookup uid r.members)) [
    | inl absent ↦ ap (λ (y : Room). y.stage) (member_changed uid g r none absent)
    | inr (m, there) ↦ ap (λ (y : Room). y.stage) (member_changed uid g r (some m) there)
  ]

  tell_back-Steady : (ms : Dict ℕ Member) (entry : ℕ × Member) → Steady (tell_back ms entry)
  tell_back-Steady ms (uid, m) =
      then-Steady (set_phase Phase.in_room m.engine)
        (λ _. if m.spectator then pure tt else broadcast ms (about 4070 uid) none)
        (rooms-Steady (set_phase Phase.in_room m.engine) (set_phase-rooms Phase.in_room m.engine))
        λ _.
          if-Steady m.spectator (pure tt) (broadcast ms (about 4070 uid) none) (λ h. refl)
            (broadcast-Steady ms (about 4070 uid) none)

  back-Steady : (ms : Dict ℕ Member) (entry : ℕ × Member) → Steady (back_in_room n ms entry)
  back-Steady ms entry =
      then-Steady (modify (change_room n (change_member entry.0 unready))) (λ _. tell_back ms entry)
        (change-Steady (change_member entry.0 unready) (member-stage entry.0 unready))
        λ _. tell_back-Steady ms entry

  tell_activity-Steady : (ms : Dict ℕ Member) (entry : ℕ × Member) → Steady (tell_activity ms entry)
  tell_activity-Steady ms (uid, m) =
      if-Steady (m.activity == 0) (pure tt) _ (λ h. refl)
        (broadcast-Steady ms (message 3550 (to_le 8 uid ++ to_le 4 m.activity)) (some uid))

  pub tell_room-Steady : (r : Room) → Steady (tell_room n r)
  tell_room-Steady r =
      then-Steady (for_each r.members (back_in_room n r.members))
        (λ _. for_each (fighters r) (tell_activity r.members))
        (each-Steady r.members (back_in_room n r.members) (back-Steady r.members))
        λ _. each-Steady (fighters r) (tell_activity r.members) (tell_activity-Steady r.members)
