-- ===== src/Battle/Relay/Objects.antt =====
-- The checks of `handle` on collectibles, projectiles and states.
use kungfukid_local_server.Base.{
  ℕ, not, ◌&&◌, ◌||◌, none, some, [], ◌∷◌, length, member, ltb, ◌==◌, if◌then◌else◌, nat_eq,
  pair_eq,
}
use kungfukid_local_server.Base.Dict.{lookup, contains}
use kungfukid_local_server.Battle.Event.{Event, SpawnFamily, is_cancel, is_unknown}
use kungfukid_local_server.Battle.Outcome.{Context, Outcome, ignore, unknown, in_members, unless}

abbrev pub family_code : SpawnFamily → ℕ
family_code SpawnFamily.gem = 1
family_code SpawnFamily.coin = 2
family_code SpawnFamily.unknown = 0

-- `(decoded['spawn_family'], decoded['object_id'])`
abbrev pub spawn_key : Event → ℕ × ℕ
spawn_key d = (family_code d.spawn_family, d.object_id)

-- 8287: a collectible appears
abbrev pub check_spawn : Context → Event → Outcome → Outcome
check_spawn x d rest =
    let r = x.room in
    unless (x.uid == r.owner) "collectible spawn requires elected Host" (
      if family_code d.spawn_family == 0
      then unknown r none
      else if contains (spawn_key d) r.spawned_collectibles
      then ignore none
      else unless (ltb (length r.spawned_collectibles) 65536) "collectible registry capacity" rest)

-- 8400: a projectile appears
abbrev pub check_launch : Context → Event → Outcome → Outcome
check_launch x d rest =
    let r = x.room in
    unless
      ((d.source == x.uid) || ((x.uid == r.owner) && ((d.source == 0) || in_members d.source r)))
      "projectile source not owned or Host-delegated"
      (elim (lookup d.child_key r.projectiles) [
        | some prior ↦
            unless (prior.owner == x.uid) "projectile key owned by another connection" (ignore none)
        | none ↦ unless (ltb (length r.projectiles) 65536) "projectile registry capacity" rest
      ])

-- 8401 to 8404: an event of a projectile that is alive
abbrev pub check_projectile : Context → Event → Outcome → Outcome
check_projectile x d rest =
    let r = x.room in
    elim (lookup d.child_key r.projectiles) [
      | none ↦ ignore none
      | some prior ↦
          if not prior.alive
          then ignore none
          else if d.id == 8402
          then (if not (d.target == x.uid) then unknown r none else rest)
          else if d.id == 8401
          then (if not (member d.result_state_raw (2 ∷ 3 ∷ 4 ∷ 6 ∷ []))
              then unknown r none
              else unless
                  ((prior.owner == x.uid)
                    || ((d.result_state_raw == 2) && member x.uid prior.hit_reporters))
                  "projectile result without owner/hit witness" rest)
          else unless (prior.owner == x.uid) "projectile event from non-owner" rest
    ]

-- 8150: a state is applied or cancelled; `actor` is whose state it is
abbrev pub check_state : Context → Event → ℕ → Outcome → Outcome
check_state x d actor rest =
    let r = x.room in
    if is_unknown d.operation
    then unknown r none
    else if is_cancel d.operation
    then unless ((d.source == 0) && ((d.parameter_signed == 0) && (d.event_raw == 0)))
        "state cancel must use native zero source/parameters"
        (if not (actor == x.uid) && not (contains (actor, d.ustate_code) r.active_states)
          then ignore none
          else rest)
    else rest

unfoldable pub decide_object : Context → Event → ℕ → Outcome → Outcome
decide_object x d actor rest =
    if d.id == 8287
    then check_spawn x d rest
    else if d.id == 8400
    then check_launch x d rest
    else if (d.id == 8401) || ((d.id == 8402) || ((d.id == 8403) || (d.id == 8404)))
    then check_projectile x d rest
    else if d.id == 8150
    then check_state x d actor rest
    else rest
