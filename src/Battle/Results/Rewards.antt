-- ===== src/Battle/Results/Rewards.antt =====
-- server/kk_local/battle_results.py: when a report of a match leads to a durable grant.
use mathlib.Core.Path.{subst}
use kungfukid_local_server.Base.{
  ℕ, ◌≡◌, ◌≢◌, ◌↔◌, ◌⊎◌, inl, inr, refl, sym, ap, ◌∙◌, Bool, true, false, ◌&&◌, ◌||◌, Option, none,
  some, List, ◌∷◌, ◌==◌, nat_eq, is_some, arith, Bool-cases,
}
use kungfukid_local_server.Base.Bytes.{Bytes}
use kungfukid_local_server.Base.Dict.{Dict, lookup}
use kungfukid_local_server.Base.Exec.{chain-cases, Result, ok, raised, Exec, lift, ◌>>=◌}
use kungfukid_local_server.Settlement.Consensus.{
  View, Verdict, missing, disagreement, agreed, consensus_survival,
}
use kungfukid_local_server.Settlement.Fair.{IsLast, survival_decided}
use kungfukid_local_server.Hub.{Hub, Action, Room, fighters, mode_of}
use kungfukid_local_server.Battle.Results.{
  Store, Ledger, on_hub, groups_in, safe_draw, judge, is_casual, check_profiles, book_grant, grant,
  reply_with, prepare, award_and_reply, is_open, replies_to, commit_result, count_draw,
  finish_report, settle_report, reborn_reports,
}

-- the ledger has no new grant, or one that satisfies a condition
abbrev Grants : Type 0
Grants = List (ℕ × Dict ℕ ℕ)

abbrev HasGranted : ℕ → (Dict ℕ ℕ → Type 0) → Grants → Grants → Type 0
HasGranted serial P before after =
    (after ≡ before)
    ⊎ ((outcomes : Dict ℕ ℕ) × ((after ≡ (serial, outcomes) ∷ before) × P outcomes))

weaker :
    (serial : ℕ) (P Q : Dict ℕ ℕ → Type 0) (before after : Grants)
    → ((o : Dict ℕ ℕ) → P o → Q o)
    → HasGranted serial P before after
    → HasGranted serial Q before after
weaker serial P Q before after f (inl same) = inl same
weaker serial P Q before after f (inr (o, (new, why))) = inr (o, (new, f o why))

abbrev Because : Bool → Dict ℕ ℕ → Dict ℕ ℕ → Type 0
Because allowed outcomes o = (o ≡ outcomes) × (allowed ≡ true)

left : (a b : Bool) → (a && b) ≡ true → a ≡ true
left a b e = ground arith

booked-HasGranted :
    (store : Store) (serial : ℕ) (outcomes : Dict ℕ ℕ) (answer : Result (Dict ℕ Bytes)) (l : Ledger)
    (allowed : Bool)
    → allowed ≡ true
    → HasGranted serial
        (Because allowed outcomes)
        l.grants
        (book_grant store serial outcomes answer l).1.grants
booked-HasGranted store serial outcomes (raised why) l allowed e = inl refl
booked-HasGranted store serial outcomes (ok profiles) l allowed e =
    inr (outcomes, (refl, (refl, e)))

grant-HasGranted :
    (store : Store) (r : Room) (outcomes : Dict ℕ ℕ) (l : Ledger)
    → HasGranted r.serial
        (Because l.hub.permanent_battle_rewards_allowed outcomes)
        l.grants
        (grant store r outcomes l).1.grants
unfolding grant
grant-HasGranted store r outcomes l =
    elim (Bool-cases (
      l.hub.permanent_battle_rewards_allowed
      && (is_some l.hub.match_point_rewards || store.has_rules))) [
        | inl e ↦ rw e (booked-HasGranted store r.serial outcomes _ l _ (left _ _ e))
        | inr e ↦ rw e (inl refl)
      ]

-- what a grant was made for
abbrev IsEarned : Store → Room → Option (Dict ℕ ℕ) → Bool → Dict ℕ ℕ → Type 0
IsEarned store r outcomes allowed o =
    (outcomes ≡ some o)
    × ((allowed ≡ true)
        × ((reports : Option View) × (check_profiles store o reports (fighters r) ≡ ok tt)))

-- a part after which no grant is made
on_hub_last :
    {A B : Type 0} (m : Exec Ledger A) (f : A → Action B) (l : Ledger)
    → ((m >>= λ a. on_hub (f a)) l).1.grants ≡ (m l).1.grants
on_hub_last {B = B} m f l = elim (chain-cases m (λ a. on_hub (f a)) l) [
  | inl same ↦ ap (λ (k : Ledger). k.grants) same
  | inr (a, (_, same)) ↦ ap (λ (k : Result B × Ledger). k.1.grants) same
]

lift_last :
    {A B : Type 0} (m : Exec Ledger A) (f : A → Result B) (l : Ledger)
    → ((m >>= λ a. lift (f a)) l).1.grants ≡ (m l).1.grants
lift_last {B = B} m f l = elim (chain-cases m (λ a. lift (f a)) l) [
  | inl same ↦ ap (λ (k : Ledger). k.grants) same
  | inr (a, (_, same)) ↦ ap (λ (k : Result B × Ledger). k.1.grants) same
]

-- a first part that only computes
lift_first :
    {A B : Type 0} (serial : ℕ) (P : Dict ℕ ℕ → Type 0) (m : Result A) (f : A → Exec Ledger B)
    (l : Ledger)
    → ((a : A) → m ≡ ok a → HasGranted serial P l.grants (f a l).1.grants)
    → HasGranted serial P l.grants ((lift m >>= f) l).1.grants
lift_first serial P (ok a) f l next = next a refl
lift_first serial P (raised why) f l next = inl refl

reply_with-HasGranted :
    (store : Store) (r : Room) (outcomes : Dict ℕ ℕ) (reports : Option View) (l : Ledger)
    → HasGranted r.serial
        (IsEarned store r (some outcomes) l.hub.permanent_battle_rewards_allowed)
        l.grants
        (reply_with store r outcomes reports l).1.grants
unfolding reply_with
reply_with-HasGranted store r outcomes reports l =
    lift_first r.serial _ (check_profiles store outcomes reports (fighters r))
      (λ _. award_and_reply store r outcomes reports) l
      λ a checked.
        subst
          (HasGranted r.serial
            (IsEarned store r (some outcomes) l.hub.permanent_battle_rewards_allowed) l.grants)
          (sym (
            lift_last (grant store r outcomes)
              (λ granted. replies_to outcomes granted.0 granted.1 reports r.members) l))
          (weaker r.serial _ _ _ _
            (λ o why. (
              ap some (sym why.0),
              (
                why.1,
                (reports, ap (λ p. check_profiles store p reports (fighters r)) why.0 ∙ checked),
              ),
            ))
            (grant-HasGranted store r outcomes l))

prepare-HasGranted :
    (store : Store) (r : Room) (candidate : Dict ℕ View) (outcomes : Option (Dict ℕ ℕ)) (l : Ledger)
    → HasGranted r.serial
        (IsEarned store r outcomes l.hub.permanent_battle_rewards_allowed)
        l.grants
        (prepare store r candidate outcomes l).1.grants
unfolding prepare
prepare-HasGranted store r candidate none l = inl refl
prepare-HasGranted store r candidate (some outcomes) l =
    lift_first r.serial _ (reborn_reports r candidate) (reply_with store r outcomes) l
      λ reports _. reply_with-HasGranted store r outcomes reports l

count_draw-allowed :
    (r : Room) (candidate : Dict ℕ View) (h : Hub)
    → (count_draw r candidate h).permanent_battle_rewards_allowed
      ≡ h.permanent_battle_rewards_allowed
count_draw-allowed r candidate h = elim (Bool-cases (is_open r candidate)) [
  | inl e ↦ rw e refl
  | inr e ↦ rw e refl
]

finish-HasGranted :
    (store : Store) (r : Room) (candidate : Dict ℕ View) (outcomes : Option (Dict ℕ ℕ)) (l : Ledger)
    → HasGranted r.serial
        (IsEarned store r outcomes l.hub.permanent_battle_rewards_allowed)
        l.grants
        (finish_report store r candidate outcomes l).1.grants
unfolding finish_report
finish-HasGranted store r candidate outcomes l =
    let counted = record l { hub = count_draw r candidate l.hub } in
    subst
      (HasGranted r.serial (IsEarned store r outcomes l.hub.permanent_battle_rewards_allowed)
        l.grants)
      (sym (
        on_hub_last (prepare store r candidate outcomes) (commit_result r candidate outcomes)
          counted))
      (subst
        (λ b.
          HasGranted r.serial (IsEarned store r outcomes b) l.grants
            (prepare store r candidate outcomes counted).1.grants)
        (count_draw-allowed r candidate l.hub)
        (prepare-HasGranted store r candidate outcomes counted))

settle-HasGranted :
    (store : Store) (r : Room) (candidate : Dict ℕ View) (l : Ledger)
    → HasGranted r.serial
        (λ o.
          (judge (is_casual l.hub) r candidate ≡ ok (some o))
          × IsEarned store r (some o) l.hub.permanent_battle_rewards_allowed o)
        l.grants
        (settle_report store r candidate l).1.grants
unfolding settle_report
settle-HasGranted store r candidate l =
    lift_first r.serial _ (judge (is_casual l.hub) r candidate) (finish_report store r candidate) l
      λ outcomes judged.
        weaker r.serial _ _ _ _ (λ o why. (judged ∙ ap ok why.0, (refl, why.1)))
          (finish-HasGranted store r candidate outcomes l)

not_sixteen : (m : ℕ) → ((m == 0) || (m == 1)) ≡ true → (m == 16) ≡ false
not_sixteen m e = ground arith

and_false : (b : Bool) → (b && false) ≡ false
and_false b = ground arith

allowed_casual : (h : Hub) → h.permanent_battle_rewards_allowed ≡ true → is_casual h ≡ false
allowed_casual h allowed = rw allowed (and_false (is_some h.public_rooms))

survived :
    (v : Result Verdict) (groups outcomes : Dict ℕ ℕ)
    → elim v [ raised why ↦ raised why | ok verdict ↦ safe_draw false groups verdict ]
      ≡ ok (some outcomes)
    → v ≡ ok (agreed outcomes)
unfolding safe_draw
survived (raised why) groups outcomes judged = ground arith
survived (ok missing) groups outcomes judged = ground arith
survived (ok disagreement) groups outcomes judged = ground arith
survived (ok (agreed o)) groups outcomes judged = ground arith

judge_survival :
    (r : Room) (candidate : Dict ℕ View)
    → ((mode_of r.request == 0) || (mode_of r.request == 1)) ≡ true
    → judge false r candidate ≡ elim (consensus_survival candidate (groups_in r)) [
      | raised why ↦ raised why
      | ok verdict ↦ safe_draw false (groups_in r) verdict
    ]
unfolding judge
judge_survival r candidate mode = rw (judge, not_sixteen (mode_of r.request) mode, mode) refl

-- where rewards are allowed a disagreement is no draw
judged-survival :
    (r : Room) (candidate : Dict ℕ View) (h : Hub) (outcomes : Dict ℕ ℕ)
    → ((mode_of r.request == 0) || (mode_of r.request == 1)) ≡ true
    → h.permanent_battle_rewards_allowed ≡ true
    → judge (is_casual h) r candidate ≡ ok (some outcomes)
    → consensus_survival candidate (groups_in r) ≡ ok (agreed outcomes)
judged-survival r candidate h outcomes mode allowed judged =
    survived (consensus_survival candidate (groups_in r)) (groups_in r) outcomes (
      sym (judge_survival r candidate mode)
      ∙ (ap (λ b. judge b r candidate) (sym (allowed_casual h allowed)) ∙ judged))

-- In the survival modes 0 and 1, with the report `view` of a client f and the team t of a fighter u, the
-- first report of a fighter adds at most one grant to the ledger. A grant that it adds is for this
-- battle, rewards are allowed, every fighter's profile makes a result message, and u has won in it
-- exactly when t is the last standing team in the view, and lost exactly when another team is.
pub settle_report_rewards :
    (store : Store) (r : Room) (candidate : Dict ℕ View) (l : Ledger) (f : ℕ) (view : View)
    (u t : ℕ)
    → ((mode_of r.request == 0) || (mode_of r.request == 1)) ≡ true
    → lookup f candidate ≡ some view
    → lookup u (groups_in r) ≡ some t
    → let after = (settle_report store r candidate l).1 in
      (after.grants ≡ l.grants)
      ⊎ ((outcomes : Dict ℕ ℕ) × ((after.grants ≡ (r.serial, outcomes) ∷ l.grants)
            × ((l.hub.permanent_battle_rewards_allowed ≡ true)
                × (((reports : Option View) × (check_profiles store outcomes reports (fighters r)
                        ≡ ok tt))
                    × (((lookup u outcomes ≡ some 1) ↔ IsLast t view (groups_in r))
                        × ((lookup u outcomes ≡ some 2)
                            ↔ ((t' : ℕ) × ((t' ≢ t) × IsLast t' view (groups_in r)))))))))
settle_report_rewards store r candidate l f view u t mode seen found =
    elim (settle-HasGranted store r candidate l) [
      | inl same ↦ inl same
      | inr (o, (new, (judged, (_, (allowed, checked))))) ↦ inr (
        o,
        (
          new,
          (
            allowed,
            (
              checked,
              survival_decided candidate (groups_in r) o f view u t
                  (judged-survival r candidate l.hub o mode allowed judged) seen found,
            ),
          ),
        ),
      )
    ]
