-- ===== src/Weapons/Attempts.antt =====
-- server/kk_local/weapon_upgrade.py: what an attempt costs.
use mathlib.Core.Path.{subst}
use kungfukid_local_server.Base.{
  ℕ, ◌+◌, ◌-◌, ◌≤◌, ◌<◌, ◌≡◌, ◌⊎◌, inl, inr, refl, sym, ap, ◌∙◌, Bool, true, false, not, ◌&&◌, ◌||◌,
  Option, none, some, List, length, ltb, leb, ◌==◌, ==_iff, if◌then◌else◌, nat_eq, pair_eq, arith,
  String,
}
use kungfukid_local_server.Base.Bytes.{Bytes, u32}
use kungfukid_local_server.Base.Dict.{lookup, lookup-insert}
use kungfukid_local_server.Base.Exec.{Result, ok}
use kungfukid_local_server.Base.Fallible.{◌>>◌, require, ok_inj, guard-cases, bind-cases}
use kungfukid_local_server.Weapons.{
  Level, Rules, Receipt, Tables, Outcome, Request, balance, level_at, receipt_of, settings,
  request_fits, owned_weapon, afford, payable, lease_over, charge, new_attempt, repeat_attempt,
  attempt, usable,
}

pub require-cases :
    {A : Type 0} (b : Bool) (why : String) (rest : Result A) (a : A)
    → (require b why >> rest) ≡ ok a
    → (b ≡ true) × (rest ≡ ok a)
require-cases true why rest a given = (refl, given)
require-cases false why rest a given = ground arith

-- the row of the weapon's level, which the player can pay for
abbrev pub IsPayable : Tables → Request → Bytes → List Level → Level → Type 0
IsPayable t q item levels r =
    (u32 43 item + 1 < length levels)
    × ((level_at (u32 43 item) levels ≡ some r)
        × ((r.score ≤ u32 47 item) × (r.gold ≤ balance q.uid t)))

in_reach :
    (score gold : ℕ) (r : Level)
    → (ltb score r.score || ltb gold r.gold) ≡ false
    → (r.score ≤ score) × (r.gold ≤ gold)
in_reach score gold r e = ground arith

afford-cases :
    (score gold : ℕ) (o : Option Level) (r : Level)
    → afford score gold o ≡ ok r
    → (o ≡ some r) × ((r.score ≤ score) × (r.gold ≤ gold))
afford-cases score gold none r given = ground arith
afford-cases score gold (some x) r given =
    let (e, same) = guard-cases (ltb score x.score || ltb gold x.gold) _ (ok x) r given in
    let is = ok_inj x r same in
    (
      ap some is,
      subst (λ (y : Level). (y.score ≤ score) × (y.gold ≤ gold)) is (in_reach score gold x e),
    )

below_top : (n level : ℕ) → leb n (level + 1) ≡ false → level + 1 < n
below_top n level e = ground arith

payable-IsPayable :
    (t : Tables) (q : Request) (item : Bytes) (rules : Rules) (r : Level)
    → payable t q item rules ≡ ok r
    → IsPayable t q item rules.levels r
unfolding payable
payable-IsPayable t q item rules r given =
    let (below, made) = guard-cases (leb (length rules.levels) (u32 43 item + 1)) _ _ r given in
    (
      below_top (length rules.levels) (u32 43 item) below,
      afford-cases (u32 47 item) (balance q.uid t) (level_at (u32 43 item) rules.levels) r made,
    )

paid :
    (b : Bool) (cost have : ℕ) (o : Option ℕ) (rest : ℕ)
    → cost ≤ have
    → (b ≡ true → have ≡ rest)
    → (elim o as (λ _. ℕ) [ none ↦ 0 | some g ↦ g ]) ≡ rest
    → (elim (if b then some (have - cost) else o) as (λ _. ℕ) [ none ↦ 0 | some g ↦ g ])
        + (if b then cost else 0)
      ≡ rest
paid true cost have o rest enough same before = let e = same refl in omega (arith, enough, e)
paid false cost have o rest enough same before = omega (arith, before)

balance_after :
    (t : Tables) (q : Request) (item : Bytes) (r : Level) (other : ℕ)
    → r.gold ≤ balance q.uid t
    → balance other (charge t q item r).1 + (if q.uid == other then r.gold else 0) ≡ balance other t
unfolding charge
balance_after t q item r other enough =
    ap
      (λ (o : Option ℕ).
        (elim o as (λ _. ℕ) [ none ↦ 0 | some g ↦ g ]) + (if q.uid == other then r.gold else 0))
      (lookup-insert q.uid other (balance q.uid t - r.gold) t.gold)
    ∙ paid (q.uid == other) r.gold (balance q.uid t) (lookup other t.gold) (balance other t) enough
        (λ e. ap (λ u. balance u t) ((==_iff q.uid other).0 e)) refl

charge-fresh :
    (t : Tables) (q : Request) (item : Bytes) (r : Level) → (charge t q item r).0.fresh ≡ true
unfolding charge
charge-fresh t q item r = refl

-- where an attempt comes out
abbrev pub IsRepeat : Tables → Request → Bytes → Outcome × Tables → Type 0
IsRepeat t q item p =
    (prior : Receipt) × ((receipt_of q.uid q.operation t.receipts ≡ some prior)
      × (repeat_attempt t q item prior ≡ ok p))

abbrev pub IsOriginal : Tables → Request → Bytes → Outcome × Tables → Type 0
IsOriginal t q item p =
    (current : ℕ × Rules) × ((settings t ≡ ok current)
      × ((r : Level) × (IsPayable t q item current.1.levels r × (p ≡ charge t q item r))))

new_attempt-IsOriginal :
    (t : Tables) (q : Request) (item : Bytes) (p : Outcome × Tables)
    → new_attempt t q item ≡ ok p
    → IsOriginal t q item p
unfolding new_attempt
new_attempt-IsOriginal t q item p given =
    let (current, (known, given₁)) = bind-cases (settings t) _ p given in
    let (_, given₂) = require-cases ((current.0 == q.revision) && current.1.enabled) _ _ p given₁ in
    let (_, given₃) = require-cases (usable item) _ _ p given₂ in
    let (_, given₄) = require-cases (not (lease_over t q)) _ _ p given₃ in
    let (r, (paid_for, same)) = bind-cases (payable t q item current.1) _ p given₄ in
    (
      current,
      (known, (r, (payable-IsPayable t q item current.1 r paid_for, sym (ok_inj _ p same)))),
    )

pub attempt-cases :
    (t : Tables) (q : Request) (p : Outcome × Tables)
    → attempt t q ≡ ok p
    → (request_fits q ≡ true)
      × ((item : Bytes) × ((owned_weapon t q ≡ ok item)
            × (IsRepeat t q item p ⊎ IsOriginal t q item p)))
unfolding attempt
attempt-cases t q p given =
    let (fits, given₁) = require-cases (request_fits q) _ _ p given in
    let (item, (owned, given₂)) = bind-cases (owned_weapon t q) _ p given₁ in
    (fits, (item, (owned, chosen item (receipt_of q.uid q.operation t.receipts) refl given₂)))
  where
    chosen :
        (item : Bytes) (o : Option Receipt)
        → receipt_of q.uid q.operation t.receipts ≡ o
        → elim o [ some prior ↦ repeat_attempt t q item prior | none ↦ new_attempt t q item ] ≡ ok p
        → IsRepeat t q item p ⊎ IsOriginal t q item p
    chosen item none found made = inr (new_attempt-IsOriginal t q item p made)
    chosen item (some prior) found made = inl (prior, (found, made))

pub repeated :
    (t : Tables) (q : Request) (item : Bytes) (prior : Receipt) (p : Outcome × Tables)
    → repeat_attempt t q item prior ≡ ok p
    → ((prior.instance_id == q.instance_id) ≡ true)
      × ((record { success = prior.success; gold = balance q.uid t; item = item; fresh = false }, t)
          ≡ p)
unfolding repeat_attempt
repeated t q item prior p given =
    let (same, made) = require-cases (prior.instance_id == q.instance_id) _ _ p given in
    (same, ok_inj _ p made)

-- An attempt that is answered either repeats the answer to an earlier one and leaves every table as it is,
-- or is new, finds the weapon's level in the rules with another level above it, finds a score and a player's
-- gold that pay for it, and takes the gold of the level from the player and none from any other account.
pub attempt_costs :
    (t : Tables) (q : Request) (p : Outcome × Tables) (other : ℕ)
    → attempt t q ≡ ok p
    → ((p.0.fresh ≡ false) × (p.1 ≡ t))
      ⊎ ((item : Bytes) × ((current : ℕ × Rules) × ((r : Level) × ((p.0.fresh ≡ true)
                × ((owned_weapon t q ≡ ok item)
                    × ((settings t ≡ ok current)
                        × (IsPayable t q item current.1.levels r
                            × (balance other p.1 + (if q.uid == other then r.gold else 0)
                                ≡ balance other t))))))))
attempt_costs t q p other given =
    let (_, (item, (owned, either))) = attempt-cases t q p given in
    elim either [
      | inl (prior, (_, made)) ↦
          let (_, same) = repeated t q item prior p made in
          inl (
            ap (λ (x : Outcome × Tables). x.0.fresh) (sym same),
            ap (λ (x : Outcome × Tables). x.1) (sym same),
          )
      | inr (current, (known, (r, (payable_now, same)))) ↦ inr (
        item,
        (
          current,
          (
            r,
            (
              ap (λ (x : Outcome × Tables). x.0.fresh) same ∙ charge-fresh t q item r,
              (
                owned,
                (
                  known,
                  (
                    payable_now,
                    ap
                          (λ (x : Outcome × Tables).
                            balance other x.1 + (if q.uid == other then r.gold else 0))
                          same
                        ∙ balance_after t q item r other payable_now.1.1.1,
                  ),
                ),
              ),
            ),
          ),
        ),
      )
    ]
