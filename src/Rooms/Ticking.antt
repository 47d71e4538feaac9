-- ===== src/Rooms/Ticking.antt =====
-- What the messages to the members of a room leave alone, and how the battle clock runs.
use kungfukid_local_server.Base.{
  ℕ, ◌≤◌, ◌≡◌, ◌∙◌, refl, ap, arith, Bool, false, not, ◌||◌, ◌⊎◌, inl, inr, Option, none, some, [],
  ◌∷◌, leb, ◌==◌, nat_eq, Option-cases, Bool-cases,
}
use kungfukid_local_server.Base.Bytes.{to_le}
use kungfukid_local_server.Base.Dict.{Dict, contains, lookup, insert, lookup-insert}
use kungfukid_local_server.Wire.{Message}
use kungfukid_local_server.Hub.{
  Engine, Phase, same_phase, Stage, same_stage, is_game, Hub, Room, Member, Connection, enqueue,
  queue, broadcast, engine_of,
}
use kungfukid_local_server.Rooms.Clock.{tick, poll_battle_clock, elapsed_since, is_paused}

enqueue-rooms : (uid : ℕ) (m : Message) (h : Hub) → (enqueue uid m h).1.rooms ≡ h.rooms
unfolding enqueue
enqueue-rooms uid m h = ground arith

pub queue-rooms : (uid : ℕ) (m : Message) (h : Hub) → (queue uid m h).1.rooms ≡ h.rooms
unfolding queue
queue-rooms uid m h = ground (arith, enqueue-rooms uid m h)

pub broadcast-rooms :
    (members : Dict ℕ Member) (m : Message) (exclude : Option ℕ) (h : Hub)
    → (broadcast members m exclude h).1.rooms ≡ h.rooms
unfolding broadcast
broadcast-rooms [] m exclude h = refl
broadcast-rooms ((uid, member) ∷ members) m exclude h = ground (
  arith,
  queue-rooms member.engine m h,
  broadcast-rooms members m exclude h,
  broadcast-rooms members m exclude (queue member.engine m h).1,
)

-- The room has a later time than before, or the same.
abbrev pub RunsOn : Room → Option Room → Type 0
RunsOn r none = ⊥
RunsOn r (some r') =
    (r.battle_clock_last ≤ r'.battle_clock_last)
    × ((r'.battle_clock_last ≡ r.battle_clock_last) ⊎ (r'.battle_clock_last ≤ 0xffffffff))

abbrev ticked : Room → ℕ → Room
ticked r elapsed = record r { battle_clock_last = elapsed }

-- A tick changes no room, or the time of this one.
tick-rooms :
    (r : Room) (origin : ℕ) (h : Hub)
    → lookup r.number h.rooms ≡ some r
    → ((tick r origin h).1.rooms ≡ h.rooms)
      ⊎ ((now : ℕ) × (leb (elapsed_since origin now) r.battle_clock_last ≡ false)
          × ((tick r origin h).1.rooms
              ≡ insert r.number (ticked r (elapsed_since origin now)) h.rooms))
unfolding tick
tick-rooms r origin h e = elim (Option-cases (lookup r.owner r.members)) [
  | inl missing ↦ inl (ground arith)
  | inr (m, owner) ↦ elim (Option-cases (engine_of m.engine h)) [
    | inl gone ↦ inl (ground arith)
    | inr (host, known) ↦
        elim (Bool-cases (leb (elapsed_since origin host.clock) r.battle_clock_last)) [
          | inl early ↦ inl (ground arith)
          | inr later ↦
              let elapsed = elapsed_since origin host.clock in
              let notice : Message = record { id = 8090; payload = to_le 4 elapsed } in
              let h' : Hub = record h { rooms = insert r.number (ticked r elapsed) h.rooms } in
              inr (host.clock, later, ground (arith, broadcast-rooms r.members notice none h'))
        ]
  ]
]

tick-RunsOn :
    (r : Room) (origin : ℕ) (h : Hub)
    → lookup r.number h.rooms ≡ some r
    → RunsOn r (lookup r.number (tick r origin h).1.rooms)
tick-RunsOn r origin h e = elim (tick-rooms r origin h e) [
  | inl same ↦ rw (same, e) (omega arith, inl refl)
  | inr (now, later, same) ↦
      let found : lookup r.number (tick r origin h).1.rooms
          ≡ some (ticked r (elapsed_since origin now)) =
        ground
          (arith, lookup-insert r.number r.number (ticked r (elapsed_since origin now)) h.rooms) in
      rw found (ground arith, inr (omega arith))
]

-- The clock does not run for this connection.
abbrev stands : Connection → Engine → Room → Bool
stands c e r =
    not (is_game c e)
    || (not (same_phase c.phase Phase.battle)
        || (not (same_stage r.stage Stage.battle)
            || (not (contains c.uid r.members) || is_paused r.series)))

polled :
    (engine : ℕ) (c : Connection) (h : Hub)
    → ((poll_battle_clock engine c h).1 ≡ h)
      ⊎ ((n : ℕ) × (r : Room) × (origin : ℕ) × (lookup n h.rooms ≡ some r)
          × ((poll_battle_clock engine c h).1 ≡ (tick r origin h).1))
unfolding poll_battle_clock
polled engine c h = elim (Option-cases (engine_of engine h)) [
  | inl gone ↦ inl (ground arith)
  | inr (e, known) ↦ elim (Option-cases e.room) [
    | inl outside ↦ inl (ground arith)
    | inr (n, inside) ↦ elim (Option-cases (lookup n h.rooms)) [
      | inl missing ↦ inl (ground arith)
      | inr (r, found) ↦ elim (Option-cases r.battle_clock_origin) [
        | inl unset ↦ inl (ground arith)
        | inr (origin, set) ↦ elim (Bool-cases (stands c e r)) [
          | inl stops ↦ inl (ground arith)
          | inr runs ↦ inr (n, r, origin, found, ground arith)
        ]
      ]
    ]
  ]
]

-- Whatever room it is polled for, the clock of no battle goes back, and a clock that moves stays
-- within 32 bits; the rooms are held under their numbers.
pub poll-RunsOn :
    (engine : ℕ) (c : Connection) (h : Hub) (n : ℕ) (r : Room)
    → ((j : ℕ) (s : Room) → lookup j h.rooms ≡ some s → s.number ≡ j)
    → lookup n h.rooms ≡ some r
    → RunsOn r (lookup n (poll_battle_clock engine c h).1.rooms)
poll-RunsOn engine c h n r keyed e = elim (polled engine c h) [
  | inl same ↦ rw (same, e) (omega arith, inl refl)
  | inr (j, s, origin, found, same) ↦
      let own = keyed j s found in
      let at_s : lookup s.number h.rooms ≡ some s = ap (λ k. lookup k h.rooms) own ∙ found in
      elim (Bool-cases (j == n)) [
        | inl this ↦
            let here : n ≡ s.number = ground arith in
            let r_is : r ≡ s = ground arith in rw (same, here, r_is) (tick-RunsOn s origin h at_s)
        | inr other ↦ elim (tick-rooms s origin h at_s) [
          | inl untouched ↦ rw (same, untouched, e) (omega arith, inl refl)
          | inr (now, later, changed) ↦
              let kept : lookup n (tick s origin h).1.rooms ≡ some r =
                ground
                  (arith, lookup-insert s.number n (ticked s (elapsed_since origin now)) h.rooms) in
              rw (same, kept) (omega arith, inl refl)
        ]
      ]
]
