-- ===== src/Battle/Once/Generic.antt =====
-- The generic relay: the same message, decided again in the room that relaying it left, is stale.
use kungfukid_local_server.Base.{
  ℕ, ◌≡◌, ◌∙◌, refl, true, false, some, [], ◌∷◌, inl, inr, arith, nat_eq, pair_eq, Option-cases,
  Bool-cases, member,
}
use kungfukid_local_server.Base.Bytes.{Bytes, bytes_eq}
use kungfukid_local_server.Base.Dict.{lookup-insert}
use kungfukid_local_server.Hub.{Room}
use kungfukid_local_server.Battle.Event.{Event}
use kungfukid_local_server.Battle.Outcome.{Context, Outcome, Delivery, to_others, relay, ignore}
use kungfukid_local_server.Battle.Pairs.{observe_pair_selection}
use kungfukid_local_server.Battle.Relay.{
  decide_relay, decide_object, check_identity, check_sender, check_actor, check_references,
  check_order, relayed_ids, actor_of, commit, commit_object, note_lane, note_selection,
  note_witness, lane_of, is_stale, Lane, lane_15, lane_19, motion_of,
}
use kungfukid_local_server.Battle.Once.Others.{after}

bytes_eq_refl : (p : Bytes) → bytes_eq p p ≡ true
bytes_eq_refl [] = refl
bytes_eq_refl (b ∷ p) = ground (arith, bytes_eq_refl p)

-- The parts of a room that a relayed message leaves alone but for the noted number and motion.
abbrev pub SameBattle : Room → Room → Type 0
SameBattle r r' =
    (r'.members ≡ r.members)
    × (r'.owner ≡ r.owner)
    × (r'.number ≡ r.number)
    × (r'.serial ≡ r.serial)
    × (r'.stage ≡ r.stage)
    × (r'.last_sequence ≡ r.last_sequence)
    × (r'.motion_payloads ≡ r.motion_payloads)

SameBattle-trans : (a b c : Room) → SameBattle a b → SameBattle b c → SameBattle a c
SameBattle-trans a b c h k =
    (k.0 ∙ h.0, k.1 ∙ h.1, k.2 ∙ h.2, k.3 ∙ h.3, k.4 ∙ h.4, k.5 ∙ h.5, k.6 ∙ h.6)

module _ (x : Context) (d : Event) (p : Bytes) (r : Room) where
  object-SameBattle : SameBattle r (commit_object x d p r)
  unfolding commit_object
  object-SameBattle = ground arith

  witness-SameBattle : (lane : Lane) → SameBattle r (note_witness x d lane r)
  unfolding note_witness
  witness-SameBattle lane = ground arith

  selection-SameBattle : SameBattle r (note_selection x d r)
  unfolding note_selection observe_pair_selection
  selection-SameBattle = ground arith

module _ (x : Context) (d : Event) (p : Bytes) where
  commit-SameBattle : (lane : Lane) → SameBattle (note_lane x d p lane x.room) (commit x d p lane)
  unfolding commit
  commit-SameBattle lane =
      let r₁ = note_lane x d p lane x.room in
      let r₂ = note_selection x d r₁ in
      let r₃ = note_witness x d lane r₂ in
      let r₄ = commit_object x d p r₃ in
      SameBattle-trans r₁ r₂ r₄ (selection-SameBattle x d p r₁)
        (SameBattle-trans r₂ r₃ r₄ (witness-SameBattle x d p r₂ lane) (object-SameBattle x d p r₃))

  -- After the commit the same message is stale.
  commit_stale : (lane : Lane) → is_stale (after x (commit x d p lane)) d p lane ≡ true
  unfolding note_lane
  commit_stale lane_15 = ground (
    arith,
    commit-SameBattle lane_15,
    lookup-insert (x.uid, 15) (x.uid, 15) d.sequence_15_raw x.room.last_sequence,
    lookup-insert x.uid x.uid (motion_of p) x.room.motion_payloads,
    bytes_eq_refl (motion_of p),
  )
  commit_stale lane_19 = ground (
    arith,
    commit-SameBattle lane_19,
    lookup-insert (x.uid, 19) (x.uid, 19) d.sequence_19_raw x.room.last_sequence,
  )

-- What is relayed has passed the checks before it.
object-relay :
    (x : Context) (d : Event) (actor : ℕ) (rest : Outcome) (r : Room) (to : Delivery)
    → decide_object x d actor rest ≡ relay r to
    → rest ≡ relay r to
unfolding decide_object
object-relay x d actor rest r to h = ground arith

-- The roster and the battle are the same.
abbrev pub SameRoster : Room → Room → Type 0
SameRoster r r' =
    (r'.members ≡ r.members)
    × (r'.owner ≡ r.owner)
    × (r'.number ≡ r.number)
    × (r'.serial ≡ r.serial)

-- The checks on the sender pass again in a room with the same roster.
module _ (x : Context) (d : Event) (rest : Outcome) (r : Room) (to : Delivery) where
  sender-relay :
      check_sender x d rest ≡ relay r to
      → (rest ≡ relay r to)
        × (SameRoster x.room r → (other : Outcome) → check_sender (after x r) d other ≡ other)
  unfolding check_sender
  sender-relay h = (ground arith, λ same other. ground arith)

  actor-relay :
      check_actor x d rest ≡ relay r to
      → (rest ≡ relay r to)
        × (SameRoster x.room r → (other : Outcome) → check_actor (after x r) d other ≡ other)
  unfolding check_actor
  actor-relay h = (ground arith, λ same other. ground arith)

  references-relay :
      check_references x d rest ≡ relay r to
      → (rest ≡ relay r to)
        × (SameRoster x.room r → (other : Outcome) → check_references (after x r) d other ≡ other)
  unfolding check_references
  references-relay h = (ground arith, λ same other. ground arith)

commit-SameRoster :
    (x : Context) (d : Event) (p : Bytes) (lane : Lane) → SameRoster x.room (commit x d p lane)
unfolding note_lane
commit-SameRoster x d p lane_15 = let h = commit-SameBattle x d p lane_15 in (h.0, h.1, h.2, h.3)
commit-SameRoster x d p lane_19 = let h = commit-SameBattle x d p lane_19 in (h.0, h.1, h.2, h.3)

identity-relay :
    (x : Context) (d : Event) (rest : Outcome) (r : Room) (to : Delivery)
    → check_identity x d rest ≡ relay r to
    → (rest ≡ relay r to)
      × (SameRoster x.room r → (other : Outcome) → check_identity (after x r) d other ≡ other)
unfolding check_identity
identity-relay x d rest r to h =
    let (h₁, again₁) = sender-relay x d (check_actor x d (check_references x d rest)) r to h in
    let (h₂, again₂) = actor-relay x d (check_references x d rest) r to h₁ in
    let (h₃, again₃) = references-relay x d rest r to h₂ in
    (
      h₃,
      λ same other.
          again₁ same (check_actor (after x r) d (check_references (after x r) d other))
          ∙ (again₂ same (check_references (after x r) d other) ∙ again₃ same other),
    )

order-relay :
    (x : Context) (d : Event) (p : Bytes) (r : Room) (to : Delivery)
    → check_order x d p ≡ relay r to
    → (lane : Lane) × (lane_of d ≡ some lane)
      × (is_stale x d p lane ≡ false)
      × (r ≡ commit x d p lane)
      × (to ≡ to_others)
unfolding check_order
order-relay x d p r to h = elim (Option-cases (lane_of d)) [
  | inl no_lane ↦ absurd (ground arith)
  | inr (lane, e) ↦
      let done = object-relay x d (actor_of x d) (relay (commit x d p lane) to_others) r to in
      (lane, e, ground arith, ground (arith, done), ground (arith, done))
]

-- The ordering part of a relayed message was itself a relay.
pub relay-order :
    (x : Context) (d : Event) (p : Bytes) (r : Room) (to : Delivery)
    → decide_relay x d p ≡ relay r to
    → check_order x d p ≡ relay r to
unfolding decide_relay
relay-order x d p r to h = (identity-relay x d (check_order x d p) r to (ground arith)).0

-- What a relayed message went through: its lane, a fresh number, and the changes of the commit.
pub relay-commit :
    (x : Context) (d : Event) (p : Bytes) (r : Room) (to : Delivery)
    → decide_relay x d p ≡ relay r to
    → (lane : Lane) × (lane_of d ≡ some lane)
      × (is_stale x d p lane ≡ false)
      × (r ≡ commit x d p lane)
      × (to ≡ to_others)
relay-commit x d p r to h = order-relay x d p r to (relay-order x d p r to h)

order_again :
    (x : Context) (d : Event) (p : Bytes) (lane : Lane)
    → lane_of d ≡ some lane
    → check_order (after x (commit x d p lane)) d p ≡ ignore (some "sequence_stale")
unfolding check_order
order_again x d p lane e = let stale_now = commit_stale x d p lane in ground arith

pub relay_once :
    (x : Context) (d : Event) (p : Bytes) (r : Room) (to : Delivery)
    → decide_relay x d p ≡ relay r to
    → decide_relay (after x r) d p ≡ ignore (some "sequence_stale")
unfolding decide_relay
relay_once x d p r to h = elim (Bool-cases (member d.id relayed_ids)) [
  | inr outside ↦ absurd (ground arith)
  | inl known ↦
      let h' : check_identity x d (check_order x d p) ≡ relay r to = rw known at h in
      let (rest, again) = identity-relay x d (check_order x d p) r to h' in
      let (lane, on_lane, fresh_number, same, _) = order-relay x d p r to rest in
      rw known (
        again (rw same (commit-SameRoster x d p lane)) (check_order (after x r) d p)
        ∙ rw same (order_again x d p lane on_lane))
]
