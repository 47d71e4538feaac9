-- ===== src/Battle/Isolation.antt =====
-- server/kk_local/battle_relay.py: what a message of the generic relay leaves alone of the other members.
use mathlib.Core.Path.{subst}
use kungfukid_local_server.Base.{
  ℕ, ◌+◌, ◌≡◌, ◌≢◌, ◌⊎◌, ◌∙◌, refl, sym, ap, Bool, true, false, inl, inr, none, some, ◌==◌,
  if◌then◌else◌, not, arith, nat_eq, pair_eq,
}
use kungfukid_local_server.Base.Bytes.{Bytes}
use kungfukid_local_server.Base.Dict.{Dict, lookup, insert, erase, lookup-insert, lookup-erase}
use kungfukid_local_server.Base.Exec.{ok}
use kungfukid_local_server.Battle.Decode.{decode_battle}
use kungfukid_local_server.Battle.Decode.Named.{decode_battle-target}
use kungfukid_local_server.Hub.{Room}
use kungfukid_local_server.Battle.Event.{Event, Operation}
use kungfukid_local_server.Battle.Outcome.{passed, Context, Delivery, relay, in_members}
use kungfukid_local_server.Battle.Pairs.{selection_ms, selects, observe_pair_selection}
use kungfukid_local_server.Battle.Relay.{
  decide_relay, actor_of, commit, commit_object, note_lane, note_selection, note_witness, witnesses,
  note_hit, motion_of, Lane, lane_15, lane_19,
}
use kungfukid_local_server.Battle.Once.Generic.{relay-commit}
use kungfukid_local_server.Battle.Authority.{relayed_actor}

-- What the rooms hold of a member is the same: sequence numbers, motion, selection of a partner, and
-- witnesses of hits.
abbrev pub SameOf : ℕ → Room → Room → Type 0
SameOf other r r' =
    ((lane : ℕ) → lookup (other, lane) r'.last_sequence ≡ lookup (other, lane) r.last_sequence)
    × (lookup other r'.motion_payloads ≡ lookup other r.motion_payloads)
    × (lookup other r'.pair_selections ≡ lookup other r.pair_selections)
    × (lookup other r'.pair_selection_versions ≡ lookup other r.pair_selection_versions)
    × (lookup other r'.pending_hit_receipts ≡ lookup other r.pending_hit_receipts)

SameOf-trans : (u : ℕ) (a b c : Room) → SameOf u a b → SameOf u b c → SameOf u a c
SameOf-trans u a b c h k = (λ lane. k.0 lane ∙ h.0 lane, k.1 ∙ h.1, k.2 ∙ h.2, k.3 ∙ h.3, k.4 ∙ h.4)

insert-other :
    {V : Type 0} (k j : ℕ) (v : V) (d : Dict ℕ V) → j ≢ k → lookup j (insert k v d) ≡ lookup j d
insert-other k j v d apart = ground (arith, apart, lookup-insert k j v d)

erase-other : {V : Type 0} (k j : ℕ) (d : Dict ℕ V) → j ≢ k → lookup j (erase k d) ≡ lookup j d
erase-other k j d apart = ground (arith, apart, lookup-erase k j d)

choose : {A : Type 0} (P : A → Type 0) (b : Bool) (m n : A) → P m → P n → P (if b then m else n)
choose P true m n h k = h
choose P false m n h k = k

module _ (x : Context) (d : Event) (p : Bytes) (r : Room) (other : ℕ) (apart : other ≢ x.uid) where
  same : SameOf other r r
  same = (λ lane. refl, refl, refl, refl, refl)

  lane-SameOf : (lane : Lane) → SameOf other r (note_lane x d p lane r)
  unfolding note_lane
  lane-SameOf lane_15 = (
    λ lane.
        ground
          (arith, apart, lookup-insert (x.uid, 15) (other, lane) d.sequence_15_raw r.last_sequence),
    insert-other x.uid other (motion_of p) r.motion_payloads apart,
    refl,
    refl,
    refl,
  )
  lane-SameOf lane_19 = (
    λ lane.
        ground
          (arith, apart, lookup-insert (x.uid, 19) (other, lane) d.sequence_19_raw r.last_sequence),
    refl,
    refl,
    refl,
    refl,
  )

  selection-SameOf : SameOf other r (note_selection x d r)
  unfolding note_selection observe_pair_selection
  selection-SameOf =
      choose (λ y. SameOf other r y) (d.id == 8143) _ r
        (choose (λ y. SameOf other r y) (not (selects (record x { room = r }) d)) r _ same
          (choose (λ y. SameOf other r y)
            (passed d.sequence_19_raw (lookup x.uid r.pair_selection_versions)) r _ same
            (
              λ lane. refl,
              refl,
              choose (λ y. lookup other y ≡ lookup other r.pair_selections) _
                  (insert x.uid (d.target, x.now + selection_ms) r.pair_selections)
                  (erase x.uid r.pair_selections)
                  (insert-other x.uid other (d.target, x.now + selection_ms) r.pair_selections
                    apart)
                  (erase-other x.uid other r.pair_selections apart),
              insert-other x.uid other d.sequence_19_raw r.pair_selection_versions apart,
              refl,
            )))
        same

  witness-SameOf : (lane : Lane) → SameOf other r (note_witness x d lane r)
  unfolding note_witness
  witness-SameOf lane =
      choose (λ y. SameOf other r y) (witnesses x d) (note_hit x d lane r) r
        (λ lane. refl, refl, refl, refl, insert-other x.uid other _ r.pending_hit_receipts apart)
        same

  object-SameOf : SameOf other r (commit_object x d p r)
  unfolding commit_object
  object-SameOf = ground arith

module _ (x : Context) (d : Event) (p : Bytes) (lane : Lane) (other : ℕ)
    (apart : other ≢ x.uid) where
  commit-SameOf : SameOf other x.room (commit x d p lane)
  unfolding commit
  commit-SameOf =
      let r₁ = note_lane x d p lane x.room in
      let r₂ = note_selection x d r₁ in
      let r₃ = note_witness x d lane r₂ in
      let r₄ = commit_object x d p r₃ in
      SameOf-trans other x.room r₁ r₄ (lane-SameOf x d p x.room other apart lane) (
        SameOf-trans other r₁ r₂ r₄ (selection-SameOf x d p r₁ other apart) (
          SameOf-trans other r₂ r₃ r₄ (witness-SameOf x d p r₂ other apart lane)
            (object-SameOf x d p r₃ other apart)))

states-kept :
    (x : Context) (d : Event) (p : Bytes) (lane : Lane)
    → (note_witness x d lane (note_selection x d (note_lane x d p lane x.room))).active_states
      ≡ x.room.active_states
unfolding note_witness note_selection note_lane observe_pair_selection
states-kept x d p lane_15 = ground arith
states-kept x d p lane_19 = ground arith

-- what a message about a state does to the states of a room
object-states :
    (x : Context) (d : Event) (p : Bytes) (r : Room) (other code : ℕ)
    → (lookup (other, code) (commit_object x d p r).active_states
        ≡ lookup (other, code) r.active_states)
      ⊎ ((d.id ≡ 8150) × (other ≡ d.target) × (code ≡ d.ustate_code))
unfolding commit_object
object-states x d p r other code = ground (
  arith,
  lookup-insert (d.target, d.ustate_code) (other, code) (d.source, d.parameter_signed, d.event_raw)
      r.active_states,
  lookup-erase (d.target, d.ustate_code) (other, code) r.active_states,
)

object-cancelled :
    (x : Context) (d : Event) (p : Bytes) (r : Room)
    → d.id ≡ 8150
    → d.operation ≡ Operation.cancel
    → lookup (d.target, d.ustate_code) (commit_object x d p r).active_states ≡ none
unfolding commit_object
object-cancelled x d p r is cancels = ground (
  arith,
  is,
  cancels,
  lookup-erase (d.target, d.ustate_code) (d.target, d.ustate_code) r.active_states,
)

pair_path : {a a' b b' : ℕ} → a ≡ a' → b ≡ b' → ◌≡◌ {A = ℕ × ℕ} (a, b) (a', b')
pair_path e f = cc (e, f)

actor-target :
    (x : Context) (d : Event)
    → d.id ≡ 8150
    → (d.attacker ≡ none) × (d.player ≡ some d.target)
    → actor_of x d ≡ d.target
actor-target x d is (vacant, player) = rw (is, vacant, player) refl

-- The Host cancels this state of this member.
abbrev pub Cancels : Context → Event → ℕ → ℕ → Room → Type 0
Cancels x d other code r =
    (x.uid ≡ x.room.owner)
    × (d.operation ≡ Operation.cancel)
    × (in_members other x.room ≡ true)
    × (other ≡ d.target)
    × (code ≡ d.ustate_code)
    × (lookup (other, code) r.active_states ≡ none)

-- A message that is decoded from its bytes and passed on by the generic relay leaves, for every member but
-- its sender, the sequence numbers, the motion, the selection of a partner, the witnesses of hits and the
-- states in the room as they were. The one exception is a Host that cancels a state of a member, which is
-- gone then.
pub relayed_others :
    (x : Context) (d : Event) (p : Bytes) (r : Room) (to : Delivery) (other : ℕ)
    → decode_battle p ≡ ok (some d)
    → decide_relay x d p ≡ relay r to
    → other ≢ x.uid
    → SameOf other x.room r
      × ((code : ℕ)
          → (lookup (other, code) r.active_states ≡ lookup (other, code) x.room.active_states)
            ⊎ Cancels x d other code r)
unfolding commit
relayed_others x d p r to other decoded relayed apart =
    let (lane, _, _, is, _) = relay-commit x d p r to relayed in
    subst
      (λ (y : Room).
        SameOf other x.room y
        × ((code : ℕ)
            → (lookup (other, code) y.active_states ≡ lookup (other, code) x.room.active_states)
              ⊎ Cancels x d other code y))
      (sym is) (commit-SameOf x d p lane other apart, λ code. states lane code)
  where
    cancelled :
        (lane : Lane) (code : ℕ)
        → d.id ≡ 8150
        → other ≡ d.target
        → code ≡ d.ustate_code
        → (actor_of x d ≡ x.uid)
          ⊎ ((d.id ≡ 8150)
              × (d.operation ≡ Operation.cancel)
              × (x.uid ≡ x.room.owner)
              × (in_members d.target x.room ≡ true))
        → Cancels x d other code (commit x d p lane)
    cancelled lane code is target same_code (inl own) =
        absurd
          (apart (target ∙ (sym (actor-target x d is (decode_battle-target p d decoded is)) ∙ own)))
    cancelled lane code is target same_code (inr (_, cancels, owner, present)) = (
      owner,
      cancels,
      ap (λ u. in_members u x.room) target ∙ present,
      target,
      same_code,
      ap (λ key. lookup key (commit x d p lane).active_states) (pair_path target same_code)
          ∙ object-cancelled x d p
              (note_witness x d lane (note_selection x d (note_lane x d p lane x.room))) is cancels,
    )

    states :
        (lane : Lane) (code : ℕ)
        → (lookup (other, code) (commit x d p lane).active_states
            ≡ lookup (other, code) x.room.active_states)
          ⊎ Cancels x d other code (commit x d p lane)
    states lane code =
        let r₃ = note_witness x d lane (note_selection x d (note_lane x d p lane x.room)) in
        elim (object-states x d p r₃ other code) [
          | inl left ↦ inl (left ∙ ap (λ s. lookup (other, code) s) (states-kept x d p lane))
          | inr (is, target, same_code) ↦
              inr (cancelled lane code is target same_code (relayed_actor x d p r to relayed))
        ]
