-- ===== src/Settlement/Fair.antt =====
-- server/kk_local/lab_settlement.py: what an agreed survival result says of every client's report.
use kungfukid_local_server.Base.{
  ℕ, ◌≡◌, ◌≢◌, ◌↔◌, inl, inr, refl, sym, ap, ◌∙◌, Bool, true, false, ◌||◌, some, List, [], ◌∷◌,
  length, member, add, all, same_set, ◌==◌, nat_eq, arith, Bool-cases, Option-cases, member-add,
}
use kungfukid_local_server.Base.Dict.{Dict, lookup, keys, values}
use kungfukid_local_server.Base.Exec.{ok}
use kungfukid_local_server.Settlement.Consensus.{
  View, agreed, stands, same_bool, agrees_on_survival, teams_of, alive_teams, outcome, outcomes_by,
  consensus_survival,
}

-- a team that stands in a report, and no other does
unfoldable pub IsLast : ℕ → View → Dict ℕ ℕ → Type 0
IsLast t view teams =
    ((v : ℕ) × ((stands v view ≡ true) × (lookup v teams ≡ some t)))
    × ((v t' : ℕ) → stands v view ≡ true → lookup v teams ≡ some t' → t' ≡ t)

all-member :
    (p : ℕ → Bool) (us : List ℕ) (u : ℕ) → all p us ≡ true → member u us ≡ true → p u ≡ true
all-member p [] u every here = ground arith
all-member p (x ∷ xs) u every here = ground (arith, all-member p xs u)

member-keys : (v : ℕ) (view : View) → stands v view ≡ true → member v (keys view) ≡ true
member-keys v [] standing = ground arith
member-keys v ((u, s) ∷ view) standing = ground (arith, member-keys v view)

member-teams_of :
    (t v : ℕ) (us : List ℕ) (view : View) (teams : Dict ℕ ℕ)
    → member v us ≡ true
    → stands v view ≡ true
    → lookup v teams ≡ some t
    → member t (teams_of us view teams) ≡ true
member-teams_of t v [] view teams here standing found = ground arith
member-teams_of t v (u ∷ us) view teams here standing found =
    let seen : (a : ℕ)
        → member t (add a (teams_of us view teams))
          ≡ ((t == a) || member t (teams_of us view teams)) =
      λ (a : ℕ). member-add t a (teams_of us view teams) in
    elim (Bool-cases (v == u)) [
      | inl e ↦
          let same : u ≡ v = ground (arith, e) in
          let here' = ap (λ x. stands x view) same ∙ standing in
          let found' = ap (λ x. lookup x teams) same ∙ found in
          rw (here', found', seen t) (ground arith)
      | inr e ↦
          let rest : member t (teams_of us view teams) ≡ true =
            member-teams_of t v us view teams (ground (arith, here, e)) standing found in
          elim (Bool-cases (stands u view)) [
            | inr gone ↦ rw gone rest
            | inl stays ↦ elim (Option-cases (lookup u teams)) [
              | inl absent ↦ rw (stays, absent) rest
              | inr (a, there) ↦ rw (stays, there, seen a, rest) (ground arith)
            ]
          ]
    ]

teams_of-standing :
    (t : ℕ) (us : List ℕ) (view : View) (teams : Dict ℕ ℕ)
    → member t (teams_of us view teams) ≡ true
    → (v : ℕ) × ((stands v view ≡ true) × (lookup v teams ≡ some t))
teams_of-standing t [] view teams here = ground arith
teams_of-standing t (u ∷ us) view teams here =
    let rest = teams_of-standing t us view teams in
    elim (Bool-cases (stands u view)) [
      | inr gone ↦ rest (ground (arith, gone, here))
      | inl stays ↦ elim (Option-cases (lookup u teams)) [
        | inl absent ↦ rest (ground (arith, stays, absent, here))
        | inr (a, there) ↦ elim (Bool-cases (t == a)) [
          | inl e ↦ (u, (stays, (there ∙ ap some (ground (arith, e)))))
          | inr e ↦
              rest (ground (arith, stays, there, here, e, member-add t a (teams_of us view teams)))
        ]
      ]
    ]

abbrev IsDistinct : List ℕ → Type 0
IsDistinct [] = Unit
IsDistinct (x ∷ xs) = (member x xs ≡ false) × IsDistinct xs

add-IsDistinct : (a : ℕ) (xs : List ℕ) → IsDistinct xs → IsDistinct (add a xs)
add-IsDistinct a xs distinct = elim (Bool-cases (member a xs)) [
  | inl e ↦ rw e distinct
  | inr e ↦ rw e (e, distinct)
]

teams_of-IsDistinct :
    (us : List ℕ) (view : View) (teams : Dict ℕ ℕ) → IsDistinct (teams_of us view teams)
teams_of-IsDistinct [] view teams = tt
teams_of-IsDistinct (u ∷ us) view teams =
    let rest = teams_of-IsDistinct us view teams in
    elim (Bool-cases (stands u view)) [
      | inr gone ↦ rw gone rest
      | inl stays ↦ elim (Option-cases (lookup u teams)) [
        | inl absent ↦ rw (stays, absent) rest
        | inr (a, there) ↦ rw (stays, there) (add-IsDistinct a (teams_of us view teams) rest)
      ]
    ]

-- a set of one element only
single :
    (t : ℕ) (xs : List ℕ)
    → IsDistinct xs
    → member t xs ≡ true
    → ((a : ℕ) → member a xs ≡ true → a ≡ t)
    → (length xs == 1) ≡ true
single t [] distinct here only = ground arith
single t (x ∷ []) distinct here only = refl
single t (x ∷ (y ∷ ys)) distinct here only =
    let a : x ≡ t = only x (ground arith) in
    let b : y ≡ t = only y (ground arith) in ground (arith, a, b, distinct)

only_one :
    (t a : ℕ) (xs : List ℕ)
    → (length xs == 1) ≡ true
    → member t xs ≡ true
    → member a xs ≡ true
    → a ≡ t
only_one t a [] one here there = ground arith
only_one t a (x ∷ []) one here there = ground arith
only_one t a (x ∷ (y ∷ ys)) one here there = ground arith

one_alive :
    (t : ℕ) (view : View) (teams : Dict ℕ ℕ)
    → IsLast t view teams
    → (length (alive_teams view teams) == 1) ≡ true
unfolding IsLast
one_alive t view teams ((v, (standing, found)), only) =
    single t (alive_teams view teams) (teams_of-IsDistinct (keys view) view teams)
      (member-teams_of t v (keys view) view teams (member-keys v view standing) standing found)
      (λ a here.
        let (w, (stays, there)) = teams_of-standing a (keys view) view teams here in
        only w a stays there)

last_alive :
    (t : ℕ) (view : View) (teams : Dict ℕ ℕ)
    → IsLast t view teams
    → member t (alive_teams view teams) ≡ true
unfolding IsLast
last_alive t view teams ((v, (standing, found)), only) =
    member-teams_of t v (keys view) view teams (member-keys v view standing) standing found

head_member : (xs : List ℕ) → (length xs == 1) ≡ true → (x : ℕ) × (member x xs ≡ true)
head_member [] one = ground arith
head_member (x ∷ xs) one = (x, ground arith)

alive-IsLast :
    (t : ℕ) (view : View) (teams : Dict ℕ ℕ)
    → (length (alive_teams view teams) == 1) ≡ true
    → member t (alive_teams view teams) ≡ true
    → IsLast t view teams
unfolding IsLast
alive-IsLast t view teams one here = (
  teams_of-standing t (keys view) view teams here,
  (λ v t' standing found.
      only_one t t' (alive_teams view teams) one here
        (member-teams_of t' v (keys view) view teams (member-keys v view standing) standing found)),
)

agrees-stands :
    (baseline report : View)
    → agrees_on_survival baseline report ≡ true
    → (v : ℕ) → stands v report ≡ stands v baseline
unfolding agrees_on_survival
agrees-stands baseline report agrees v =
    let known : all (λ a. member a (keys baseline)) (keys report) ≡ true = ground (arith, agrees) in
    let alike : all (λ u. same_bool (stands u report) (stands u baseline)) (keys baseline) ≡ true =
      ground (arith, agrees) in
    elim (Bool-cases (member v (keys baseline))) [
      | inl e ↦ ground (arith, all-member _ (keys baseline) v alike e)
      | inr e ↦ ground (
        arith,
        e,
        all-member _ (keys report) v known,
        member-keys v report,
        member-keys v baseline,
      )
    ]

same-IsLast :
    (t : ℕ) (view view' : View) (teams : Dict ℕ ℕ)
    → ((v : ℕ) → stands v view ≡ stands v view')
    → IsLast t view teams
    → IsLast t view' teams
unfolding IsLast
same-IsLast t view view' teams alike ((v, (standing, found)), only) = (
  (v, (sym (alike v) ∙ standing, found)),
  (λ w t' stays there. only w t' (alike w ∙ stays) there),
)

lookup-all :
    (p : View → Bool) (r : ℕ) (view : View) (reports : Dict ℕ View)
    → all p (values reports) ≡ true
    → lookup r reports ≡ some view
    → p view ≡ true
lookup-all p r view [] every found = ground arith
lookup-all p r view ((k, w) ∷ reports) every found = elim (Bool-cases (k == r)) [
  | inl e ↦ ground (arith, every, found, e)
  | inr e ↦ lookup-all p r view reports (ground (arith, every)) (ground (arith, found, e))
]

-- what the reports hold when a result comes out
survival-cases :
    (reports : Dict ℕ View) (teams results : Dict ℕ ℕ)
    → consensus_survival reports teams ≡ ok (agreed results)
    → (baseline : View) × ((results ≡ outcomes_by (alive_teams baseline teams) teams)
        × ((r : ℕ) (view : View)
            → lookup r reports ≡ some view
            → (v : ℕ) → stands v view ≡ stands v baseline))
unfolding consensus_survival
survival-cases [] teams results given = elim (Bool-cases (same_set [] (keys teams))) [
  | inl e ↦ ground (arith, given, e)
  | inr e ↦ ground (arith, given, e)
]
survival-cases ((k, baseline) ∷ others) teams results given =
    let agree : all (agrees_on_survival baseline) (values others) ≡ true = ground (arith, given) in
    let result : results ≡ outcomes_by (alive_teams baseline teams) teams = ground (arith, given) in
    (
      baseline,
      (
        result,
        (λ r view seen v. elim (Bool-cases (k == r)) [
          | inl e ↦ ground (arith, seen, e)
          | inr e ↦
              agrees-stands baseline view
                (lookup-all (agrees_on_survival baseline) r view others agree
                  (ground (arith, seen, e)))
                v
        ]),
      ),
    )

lookup-outcomes :
    (winners : List ℕ) (groups : Dict ℕ ℕ) (u g : ℕ)
    → lookup u groups ≡ some g
    → lookup u (outcomes_by winners groups) ≡ some (outcome winners g)
lookup-outcomes winners [] u g found = ground arith
lookup-outcomes winners ((k, h) ∷ groups) u g found = elim (Bool-cases (k == u)) [
  | inl e ↦ ground (arith, found, e)
  | inr e ↦ rw e (lookup-outcomes winners groups u g (ground (arith, e, found)))
]

outcome_one :
    (t : ℕ) (xs : List ℕ) → outcome xs t ≡ 1 → ((length xs == 1) ≡ true) × (member t xs ≡ true)
outcome_one t xs won = ground arith

outcome_two :
    (t : ℕ) (xs : List ℕ) → outcome xs t ≡ 2 → ((length xs == 1) ≡ true) × (member t xs ≡ false)
outcome_two t xs lost = ground arith

some_inj : (a b : ℕ) → some a ≡ some b → a ≡ b
some_inj a b e = ground arith

won-IsLast :
    (t : ℕ) (view : View) (teams : Dict ℕ ℕ)
    → some (outcome (alive_teams view teams) t) ≡ some 1
    → IsLast t view teams
won-IsLast t view teams won =
    let (one, here) = outcome_one t (alive_teams view teams) (some_inj _ _ won) in
    alive-IsLast t view teams one here

last_won :
    (t : ℕ) (view : View) (teams : Dict ℕ ℕ)
    → IsLast t view teams
    → outcome (alive_teams view teams) t ≡ 1
last_won t view teams last =
    let one = one_alive t view teams last in
    let here = last_alive t view teams last in rw (one, here) refl

lost-IsLast :
    (t : ℕ) (view : View) (teams : Dict ℕ ℕ)
    → some (outcome (alive_teams view teams) t) ≡ some 2
    → (t' : ℕ) × ((t' ≢ t) × IsLast t' view teams)
lost-IsLast t view teams lost =
    let (one, gone) = outcome_two t (alive_teams view teams) (some_inj _ _ lost) in
    let (t', here) = head_member (alive_teams view teams) one in
    (
      t',
      (
        (λ same. ground (arith, ap (λ x. member x (alive_teams view teams)) same, here, gone)),
        alive-IsLast t' view teams one here,
      ),
    )

last_lost :
    (t t' : ℕ) (view : View) (teams : Dict ℕ ℕ)
    → t' ≢ t
    → IsLast t' view teams
    → outcome (alive_teams view teams) t ≡ 2
last_lost t t' view teams other last =
    let one = one_alive t' view teams last in
    elim (Bool-cases (member t (alive_teams view teams))) [
      | inl here ↦
          let same : t ≡ t' =
            only_one t' t (alive_teams view teams) one (last_alive t' view teams last) here in
          ground (arith, other, same)
      | inr gone ↦ rw (one, gone) refl
    ]

-- In a result that the clients' reports agree on, a fighter has won exactly when its team is the last
-- one with a standing fighter in the report of any client, and has lost exactly when another team is.
pub survival_decided :
    (reports : Dict ℕ View) (teams results : Dict ℕ ℕ) (r : ℕ) (view : View) (u t : ℕ)
    → consensus_survival reports teams ≡ ok (agreed results)
    → lookup r reports ≡ some view
    → lookup u teams ≡ some t
    → ((lookup u results ≡ some 1) ↔ IsLast t view teams)
      × ((lookup u results ≡ some 2) ↔ ((t' : ℕ) × ((t' ≢ t) × IsLast t' view teams)))
survival_decided reports teams results r view u t given seen found =
    let (baseline, (result, alike)) = survival-cases reports teams results given in
    let there : lookup u results ≡ some (outcome (alive_teams baseline teams) t) =
      rw result (lookup-outcomes (alive_teams baseline teams) teams u t found) in
    (
      (
        (λ won.
            same-IsLast t baseline view teams (λ v. sym (alike r view seen v))
              (won-IsLast t baseline teams (sym there ∙ won))),
        (λ last.
            there
            ∙ ap some (
                last_won t baseline teams
                  (same-IsLast t view baseline teams (alike r view seen) last))),
      ),
      (
        (λ lost.
            let (t', (other, last)) = lost-IsLast t baseline teams (sym there ∙ lost) in
            (
              t',
              (other, same-IsLast t' baseline view teams (λ v. sym (alike r view seen v)) last),
            )),
        (λ (given : (t' : ℕ) × ((t' ≢ t) × IsLast t' view teams)).
            there
            ∙ ap some (
                last_lost t given.0 baseline teams given.1.0
                  (same-IsLast given.0 view baseline teams (alike r view seen) given.1.1))),
      ),
    )
