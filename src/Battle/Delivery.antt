-- ===== src/Battle/Delivery.antt =====
-- Deliveries of `dispatch_public`: what of a cached decision goes out, and how much is kept.
use kungfukid_local_server.Base.{
  ℕ, ◌-◌, ◌≤◌, ◌≡◌, ◌∙◌, inl, inr, any, refl, Bool, Bool-cases, Option, some, true, not, ◌&&◌, ◌||◌,
  none, List, [], ◌∷◌, ◌++◌, length, length-drop, length-append, member, arith, if◌then◌else◌,
  nat_eq,
}
use kungfukid_local_server.Base.Dict.{Dict, lookup, contains, keys, filter_dict}
use kungfukid_local_server.Wire.{Message}
use kungfukid_local_server.Hub.{Dispatched}
use kungfukid_local_server.Battle.Dispatch.{due, note_delivered, cache_dispatched}

member-append : (a : ℕ) (xs ys : List ℕ) → member a (xs ++ ys) ≡ (member a xs || member a ys)
member-append a [] ys = refl
member-append a (x ∷ xs) ys = ground (arith, member-append a xs ys)

lookup-keep :
    (p : ℕ → Bool) (a : ℕ) (d : Dict ℕ (List Message))
    → lookup a (filter_dict (λ u _. p u) d) ≡ (if p a then lookup a d else none)
lookup-keep p a [] = ground arith
lookup-keep p a ((u, row) ∷ d) = ground (arith, lookup-keep p a d)

member-keys : (a : ℕ) (d : Dict ℕ (List Message)) → member a (keys d) ≡ contains a d
member-keys a [] = refl
member-keys a ((u, row) ∷ d) = ground (arith, member-keys a d)

abbrev row_of : Option (List Message) → List (List Message)
row_of none = []
row_of (some row) = row ∷ []

-- what goes out to `a` over deliveries of one decision, each to its targets
abbrev pub sent_over : ℕ → Dispatched → List (List ℕ) → List (List Message)
sent_over a entry [] = []
sent_over a entry (targets ∷ rounds) =
    let result = due entry targets in
    row_of (lookup a result) ++ sent_over a (note_delivered entry result) rounds

lookup-due :
    (entry : Dispatched) (targets : List ℕ) (a : ℕ)
    → lookup a (due entry targets) ≡ (
        if member a targets && not (member a entry.delivered) then lookup a entry.outputs else none)
lookup-due entry targets a =
    lookup-keep (λ u. member u targets && not (member u entry.delivered)) a entry.outputs

-- what a round notes
member-noted :
    (entry : Dispatched) (targets : List ℕ) (a : ℕ)
    → member a (note_delivered entry (due entry targets)).delivered ≡ (
        (member a targets && (not (member a entry.delivered) && contains a entry.outputs))
        || member a entry.delivered)
member-noted entry targets a = ground (
  arith,
  member-append a (keys (due entry targets)) entry.delivered,
  member-keys a (due entry targets),
  lookup-due entry targets a,
)

nothing_more :
    (entry : Dispatched) (rounds : List (List ℕ)) (a : ℕ)
    → member a entry.delivered ≡ true
    → sent_over a entry rounds ≡ []
nothing_more entry [] a had = refl
nothing_more entry (targets ∷ rounds) a had = ground (
  arith,
  lookup-due entry targets a,
  nothing_more (note_delivered entry (due entry targets)) rounds a
      (ground (arith, member-noted entry targets a)),
)

-- Over any deliveries of a decision, each to its own targets, a recipient that has not had it gets what
-- the decision has for it exactly once if it is ever among the targets; a recipient that has had it, or
-- that is never a target, gets nothing.
pub due_once :
    (rounds : List (List ℕ)) (entry : Dispatched) (a : ℕ)
    → sent_over a entry rounds ≡ (
        if any (member a) rounds && not (member a entry.delivered)
        then row_of (lookup a entry.outputs)
        else [])
due_once [] entry a = refl
due_once (targets ∷ rounds) entry a =
    let noted = note_delivered entry (due entry targets) in
    elim (Bool-cases (member a entry.delivered)) [
      | inl had ↦ nothing_more entry (targets ∷ rounds) a had ∙ ground (arith, had)
      | inr new ↦ elim (Bool-cases (member a targets)) [
        | inl now ↦ ground (
          arith,
          lookup-due entry targets a,
          member-noted entry targets a,
          due_once rounds noted a,
        )
        | inr later ↦ ground (
          arith,
          lookup-due entry targets a,
          member-noted entry targets a,
          due_once rounds noted a,
        )
      ]
    ]

-- However many decisions were cached, at most 128 are kept when one is added.
pub cache_dispatched-bound :
    (new : Dispatched) (ds : List Dispatched) → length (cache_dispatched new ds) ≤ 128
cache_dispatched-bound new ds = ground (
  arith,
  length-drop (length (ds ++ (new ∷ [])) - 128) (ds ++ (new ∷ [])),
  length-append ds (new ∷ []),
)
