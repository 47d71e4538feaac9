-- ===== src/Rooms/Clock.antt =====
-- server/kk_local/engine.py: poll_battle_clock, the clock of a running battle.
use kungfukid_local_server.Base.{
  ℕ, ◌-◌, ◌/◌, Bool, false, not, ◌||◌, Option, none, some, min, leb, if◌then◌else◌, nat_eq,
}
use kungfukid_local_server.Base.Bytes.{to_le}
use kungfukid_local_server.Base.Dict.{lookup, contains}
use kungfukid_local_server.Base.Exec.{ok, pure, modify, ◌>>=◌, ◌>>◌}
use kungfukid_local_server.Series.{SeriesProgress, is_playing}
use kungfukid_local_server.Hub.{
  Action, Room, Connection, Phase, same_phase, Stage, same_stage, engine_of, is_game, broadcast,
}
use kungfukid_local_server.Rooms.Members.{change_room, message, owner_clock}

-- between the rounds of a series the clock stands
abbrev pub is_paused : Option SeriesProgress → Bool
is_paused none = false
is_paused (some s) = not (is_playing s.phase)

-- whole seconds since the origin, within 32 bits
abbrev pub elapsed_since : ℕ → ℕ → ℕ
elapsed_since origin now = min 0xffffffff ((now - origin) / 1000)

-- the room tells a later time than before
unfoldable pub tick : Room → ℕ → Action (Unit {0})
tick r origin = owner_clock r >>= λ now.
    let elapsed = elapsed_since origin now in
    if leb elapsed r.battle_clock_last
    then pure tt
    else modify (change_room r.number (λ r. record r { battle_clock_last = elapsed }))
      >> broadcast r.members (message 8090 (to_le 4 elapsed)) none

-- `poll_battle_clock(c)` of an engine in a hub
unfoldable pub poll_battle_clock : ℕ → Connection → Action (Unit {0})
poll_battle_clock engine c h = elim (engine_of engine h) [
  | none ↦ (ok tt, h)
  | some e ↦ elim e.room [
    | none ↦ (ok tt, h)
    | some n ↦ elim (lookup n h.rooms) [
      | none ↦ (ok tt, h)
      | some r ↦
          if not (is_game c e)
            || (not (same_phase c.phase Phase.battle)
                || (not (same_stage r.stage Stage.battle)
                    || (not (contains c.uid r.members) || is_paused r.series)))
          then (ok tt, h)
          else elim r.battle_clock_origin [ none ↦ (ok tt, h) | some origin ↦ tick r origin h ]
    ]
  ]
]
