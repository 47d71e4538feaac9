-- ===== src/Battle/Projectiles.antt =====
-- Projectiles: their owner never changes, and one that is gone never comes back.
use kungfukid_local_server.Base.{
  ℕ, ◌≡◌, ◌≢◌, ◌∙◌, refl, false, ◌&&◌, not, ◌⊎◌, inl, inr, Option, none, some, arith, nat_eq,
  pair_eq, Option-cases,
}
use kungfukid_local_server.Base.Bytes.{Bytes}
use kungfukid_local_server.Base.Dict.{lookup, lookup-insert}
use kungfukid_local_server.Hub.{Room, Projectile}
use kungfukid_local_server.Battle.Event.{Event}
use kungfukid_local_server.Battle.Outcome.{Context, Outcome, Delivery, relay, to_others}
use kungfukid_local_server.Battle.Pairs.{observe_pair_selection}
use kungfukid_local_server.Battle.Relay.{
  decide_relay, decide_object, check_order, actor_of, commit, commit_object, note_lane,
  note_selection, note_witness, Lane, lane_15, lane_19, launched, change_projectile,
}
use kungfukid_local_server.Battle.Once.Generic.{relay-order, relay-commit}

-- `b` has what `a` had: the same owner, and no second life.
abbrev pub Continues : Projectile → Option Projectile → Type 0
Continues a none = ⊥
Continues a (some b) = (b.owner ≡ a.owner) × ((b.alive && not a.alive) ≡ false)

-- A launch is relayed only for a key that is free.
launch_free :
    (x : Context) (d : Event) (actor : ℕ) (rest : Outcome) (r : Room) (to : Delivery)
    → decide_object x d actor rest ≡ relay r to
    → (d.id ≢ 8400) ⊎ (lookup d.child_key x.room.projectiles ≡ none)
unfolding decide_object
launch_free x d actor rest r to h = ground arith

object-Continues :
    (x : Context) (d : Event) (p : Bytes) (r : Room) (key : ℕ) (shot : Projectile)
    → (d.id ≢ 8400) ⊎ (lookup d.child_key r.projectiles ≡ none)
    → lookup key r.projectiles ≡ some shot
    → Continues shot (lookup key (commit_object x d p r).projectiles)
unfolding commit_object
object-Continues x d p r key shot free e = elim (Option-cases (lookup d.child_key r.projectiles)) [
  | inl vacant ↦ ground (arith, lookup-insert d.child_key key (launched x d) r.projectiles)
  | inr (prior, known) ↦ ground (
    arith,
    lookup-insert d.child_key key (change_projectile x d prior) r.projectiles,
    lookup-insert d.child_key key (launched x d) r.projectiles,
  )
]

module _ (x : Context) (d : Event) (p : Bytes) (r : Room) where
  lane-projectiles : (lane : Lane) → (note_lane x d p lane r).projectiles ≡ r.projectiles
  unfolding note_lane
  lane-projectiles lane_15 = refl
  lane-projectiles lane_19 = refl

  selection-projectiles : (note_selection x d r).projectiles ≡ r.projectiles
  unfolding note_selection observe_pair_selection
  selection-projectiles = ground arith

  witness-projectiles : (lane : Lane) → (note_witness x d lane r).projectiles ≡ r.projectiles
  unfolding note_witness
  witness-projectiles lane = ground arith

commit-Continues :
    (x : Context) (d : Event) (p : Bytes) (lane : Lane) (key : ℕ) (shot : Projectile)
    → (d.id ≢ 8400) ⊎ (lookup d.child_key x.room.projectiles ≡ none)
    → lookup key x.room.projectiles ≡ some shot
    → Continues shot (lookup key (commit x d p lane).projectiles)
unfolding commit
commit-Continues x d p lane key shot free e =
    let r₁ = note_lane x d p lane x.room in
    let r₂ = note_selection x d r₁ in
    let r₃ = note_witness x d lane r₂ in
    let same : r₃.projectiles ≡ x.room.projectiles =
      witness-projectiles x d p r₂ lane
      ∙ (selection-projectiles x d p r₁ ∙ lane-projectiles x d p x.room lane) in
    object-Continues x d p r₃ key shot (rw same free) (rw same e)

-- A message of the generic relay keeps every known projectile, with its owner; one that is gone stays
-- gone.
pub relayed-Continues :
    (x : Context) (d : Event) (p : Bytes) (r : Room) (to : Delivery) (key : ℕ) (shot : Projectile)
    → decide_relay x d p ≡ relay r to
    → lookup key x.room.projectiles ≡ some shot
    → Continues shot (lookup key r.projectiles)
unfolding check_order
relayed-Continues x d p r to key shot h e =
    let o = relay-order x d p r to h in
    let (lane, on_lane, fresh, same, _) = relay-commit x d p r to h in
    let accepted : decide_object x d (actor_of x d) (relay (commit x d p lane) to_others)
        ≡ relay r to =
      ground arith in
    let free = launch_free x d (actor_of x d) (relay (commit x d p lane) to_others) r to accepted in
    rw same (commit-Continues x d p lane key shot free e)
