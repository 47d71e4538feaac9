-- ===== src/Battle/Receipts/Reservations.antt =====
-- Pickups: an item is reserved for one member at a time, and is taken only by who holds it.
use kungfukid_local_server.Base.{
  ℕ, ◌≡◌, ◌≢◌, refl, true, false, ◌⊎◌, inl, inr, none, some, [], ◌∷◌, arith, nat_eq, pair_eq,
  Option-cases,
}
use kungfukid_local_server.Base.Dict.{Dict, lookup, insert, erase, lookup-insert, lookup-erase}
use kungfukid_local_server.Hub.{Room, Reservation}
use kungfukid_local_server.Battle.Event.{Event}
use kungfukid_local_server.Battle.Outcome.{Context, Delivery, relay}
use kungfukid_local_server.Battle.Receipts.{
  requests_of, approved_by_other, pickup_request, pickup_response, pickup_completion, decide_pickup,
  no_player,
}

-- Two members never hold an approved reservation of the same item.
pub record IsExclusive (d : Dict ℕ Reservation) : Type 0 where
  pub one :
      (a b : ℕ) (ra rb : Reservation)
      → lookup a d ≡ some ra
      → lookup b d ≡ some rb
      → ra.approved ≡ true
      → rb.approved ≡ true
      → ra.key ≡ rb.key
      → a ≡ b

approved_by_other-lookup :
    (actor item a : ℕ) (r : Reservation) (d : Dict ℕ Reservation)
    → approved_by_other actor item d ≡ false
    → lookup a d ≡ some r
    → r.approved ≡ true
    → r.key ≡ item
    → a ≡ actor
approved_by_other-lookup actor item a r [] none_found e ok_r k = cc
approved_by_other-lookup actor item a r ((who, r') ∷ d) none_found e ok_r k =
    ground (arith, approved_by_other-lookup actor item a r d)

insert-IsExclusive :
    (actor : ℕ) (new : Reservation) (d : Dict ℕ Reservation)
    → IsExclusive d
    → (new.approved ≡ false) ⊎ (approved_by_other actor new.key d ≡ false)
    → IsExclusive (insert actor new d)
insert-IsExclusive actor new d h free = record {
  one = λ a b ra rb ea eb pa pb k. ground (
    arith,
    h.one a b ra rb,
    lookup-insert actor a new d,
    lookup-insert actor b new d,
    approved_by_other-lookup actor new.key a ra d,
    approved_by_other-lookup actor new.key b rb d,
  );
}

erase-IsExclusive :
    (actor : ℕ) (d : Dict ℕ Reservation) → IsExclusive d → IsExclusive (erase actor d)
erase-IsExclusive actor d h = record {
  one = λ a b ra rb ea eb pa pb k.
      ground (arith, h.one a b ra rb, lookup-erase actor a d, lookup-erase actor b d);
}

-- What a relayed pickup message did to the requests of its kind.
abbrev pub Changed : Context → Event → ℕ → Room → Type 0
Changed x d actor r =
    let before = requests_of d.id x.room in
    let after = requests_of d.id r in
    (after ≡ insert actor (record { key = d.pickup_key; approved = false }) before)
    ⊎ ((after ≡ insert actor (record { key = d.pickup_key; approved = true }) before)
        × (approved_by_other actor d.pickup_key before ≡ false))
    ⊎ (after ≡ erase actor before)

module _ (x : Context) (d : Event) (actor : ℕ) (r : Room) (to : Delivery) where
  request-Changed : pickup_request x d actor ≡ relay r to → Changed x d actor r
  unfolding pickup_request
  request-Changed h = ground arith

  response-Changed : pickup_response x d actor ≡ relay r to → Changed x d actor r
  unfolding pickup_response
  response-Changed h = ground arith

  completion-Changed : pickup_completion x d actor ≡ relay r to → Changed x d actor r
  unfolding pickup_completion
  completion-Changed h = ground arith

relayed-Changed :
    (x : Context) (d : Event) (r : Room) (to : Delivery)
    → decide_pickup x d ≡ relay r to
    → Changed x d (no_player d.player) r
unfolding decide_pickup
relayed-Changed x d r to h =
    let actor = no_player d.player in
    ground (
      arith,
      request-Changed x d actor r to,
      response-Changed x d actor r to,
      completion-Changed x d actor r to,
    )

-- If no two members hold an approved reservation of one item before a pickup message that is
-- relayed, no two do after it.
pub pickup-IsExclusive :
    (x : Context) (d : Event) (r : Room) (to : Delivery)
    → decide_pickup x d ≡ relay r to
    → IsExclusive (requests_of d.id x.room)
    → IsExclusive (requests_of d.id r)
pickup-IsExclusive x d r to h before = elim (relayed-Changed x d r to h) [
  | inl asked ↦
      rw asked
        (insert-IsExclusive (no_player d.player) _ (requests_of d.id x.room) before (inl refl))
  | inr (inl granted) ↦
      rw (granted.0)
        (insert-IsExclusive (no_player d.player) _ (requests_of d.id x.room) before (inr granted.1))
  | inr (inr ended) ↦
      rw ended (erase-IsExclusive (no_player d.player) (requests_of d.id x.room) before)
]

module _ (x : Context) (d : Event) (r : Room) (to : Delivery) where
  completed :
      x.uid ≢ x.room.owner
      → pickup_completion x d x.uid ≡ relay r to
      → (held : Reservation) × (lookup x.uid (requests_of d.id x.room) ≡ some held)
        × (held.key ≡ d.pickup_key)
        × (held.approved ≡ true)
        × (lookup x.uid (requests_of d.id r) ≡ none)
  unfolding pickup_completion
  completed guest h = elim (Option-cases (lookup x.uid (requests_of d.id x.room))) [
    | inl missing ↦ absurd (ground arith)
    | inr (held, e) ↦ (
      held,
      e,
      ground arith,
      ground arith,
      ground (arith, lookup-erase x.uid x.uid (requests_of d.id x.room)),
    )
  ]

  is_completion :
      (d.id ≡ 9002) ⊎ (d.id ≡ 9502)
      → decide_pickup x d ≡ relay r to
      → (pickup_completion x d (no_player d.player) ≡ relay r to) × (no_player d.player ≡ x.uid)
  unfolding decide_pickup pickup_completion
  is_completion which h = ground arith

-- A member other than the Host completes a pickup only of the item that the Host approved for it,
-- and its reservation is gone afterwards.
pub completion_needs_approval :
    (x : Context) (d : Event) (r : Room) (to : Delivery)
    → (d.id ≡ 9002) ⊎ (d.id ≡ 9502)
    → x.uid ≢ x.room.owner
    → decide_pickup x d ≡ relay r to
    → (held : Reservation) × (lookup x.uid (requests_of d.id x.room) ≡ some held)
      × (held.key ≡ d.pickup_key)
      × (held.approved ≡ true)
      × (lookup x.uid (requests_of d.id r) ≡ none)
completion_needs_approval x d r to which guest h =
    let (done, same) = is_completion x d r to which h in completed x d r to guest (rw same at done)
