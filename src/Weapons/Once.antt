-- ===== src/Weapons/Once.antt =====
-- server/kk_local/weapon_upgrade.py: an operation is charged once.
use mathlib.Core.Path.{subst}
use kungfukid_local_server.Base.{
  ℕ, zero, suc, ◌+◌, ◌-◌, ◌≤◌, ◌≡◌, inl, inr, refl, sym, ap, ◌∙◌, Bool, true, false, not, ◌&&◌,
  Option, none, some, List, [], ◌∷◌, ◌++◌, length, take, drop, length-append, length-take,
  length-drop, ◌==◌, ==_iff, if◌then◌else◌, nat_eq, pair_eq, pair_beq_iff, arith,
}
use kungfukid_local_server.Base.Bytes.{Bytes, from_le, slice, u8, u32, to_le, bytes_eq}
use kungfukid_local_server.Base.Dict.{Dict, lookup, insert, lookup-insert}
use kungfukid_local_server.Base.Exec.{ok, raised}
use kungfukid_local_server.Base.Fallible.{ok_inj, guard-cases}
use kungfukid_local_server.Settlement.Payload.{put_at}
use kungfukid_local_server.Weapons.{
  Level, Receipt, Tables, Outcome, Request, balance, receipt_of, request_fits, is_weapon,
  check_weapon, owned_weapon, charge, changed_item, raise_by, success_of, upgraded, receipt_for,
  repeat_attempt, attempt,
}
use kungfukid_local_server.Weapons.Attempts.{repeated, attempt-cases}

take-front :
    (n k : ℕ) (xs ys : Bytes) → n ≤ k → k ≤ length xs → take n (take k xs ++ ys) ≡ take n xs
take-front zero k xs ys low fits = refl
take-front (suc n) zero xs ys low fits = absurd (omega (arith, low))
take-front (suc n) (suc k) [] ys low fits = absurd (omega (arith, fits))
take-front (suc n) (suc k) (x ∷ xs) ys low fits =
    ap (λ l. x ∷ l) (take-front n k xs ys (omega (arith, low)) (omega (arith, fits)))

pub drop-front :
    (i k : ℕ) (xs ys : Bytes)
    → i ≤ k
    → k ≤ length xs
    → drop i (take k xs ++ ys) ≡ take (k - i) (drop i xs) ++ ys
drop-front zero k xs ys low fits = ap (λ d. take d xs ++ ys) (omega arith)
drop-front (suc i) zero xs ys low fits = absurd (omega (arith, low))
drop-front (suc i) (suc k) [] ys low fits = absurd (omega (arith, fits))
drop-front (suc i) (suc k) (x ∷ xs) ys low fits =
    drop-front i k xs ys (omega (arith, low)) (omega (arith, fits))
    ∙ ap (λ d. take d (drop i xs) ++ ys) (omega arith)

-- what stands before a field that is written
put-slice :
    (i n k : ℕ) (bytes row : Bytes)
    → i + n ≤ k
    → k ≤ length row
    → slice i n (put_at k bytes row) ≡ slice i n row
put-slice i n k bytes row low fits =
    ap (take n) (drop-front i k row (bytes ++ drop (k + length bytes) row) (omega arith) fits)
    ∙ take-front n (k - i) (drop i row) (bytes ++ drop (k + length bytes) row) (omega arith)
        (omega (arith, length-drop i row))

length-put :
    (k : ℕ) (bytes row : Bytes)
    → k + length bytes ≤ length row
    → length (put_at k bytes row) ≡ length row
length-put k bytes row fits = omega (
  arith,
  length-append (take k row) (bytes ++ drop (k + length bytes) row),
  length-append bytes (drop (k + length bytes) row),
  length-take k row,
  length-drop (k + length bytes) row,
)

pub weapon_length : (a : ℕ) (rest : Bool) → ((a == 68) && rest) ≡ true → a ≡ 68
weapon_length a rest is = ground arith

same_tests :
    (a a' b b' d d' c : ℕ)
    → a' ≡ a
    → b' ≡ b
    → d' ≡ d
    → ((a' == 68) && ((b' == c) && (d' == 25))) ≡ ((a == 68) && ((b == c) && (d == 25)))
same_tests a a' b b' d d' c size first kind = rw (size, first, kind) refl

-- a changed weapon is that weapon still
changed_weapon :
    (instance_id : ℕ) (item : Bytes) (level score : ℕ)
    → is_weapon instance_id item ≡ true
    → is_weapon instance_id (changed_item item level score) ≡ true
unfolding changed_item
changed_weapon instance_id item level score is =
    let words = to_le 4 level ++ to_le 4 score in
    let size : length item ≡ 68 = weapon_length (length item) _ is in
    same_tests (length item) (length (put_at 43 words item)) (u32 0 item)
      (u32 0 (put_at 43 words item)) (u8 4 item) (u8 4 (put_at 43 words item)) instance_id
      (length-put 43 words item (omega (arith, size)))
      (ap from_le (put-slice 0 4 43 words item (omega arith) (omega (arith, size))))
      (ap from_le (put-slice 4 1 43 words item (omega arith) (omega (arith, size))))
    ∙ is

weapon-cases :
    (instance_id : ℕ) (o : Option Bytes) (item : Bytes)
    → check_weapon instance_id o ≡ ok item
    → (o ≡ some item) × (is_weapon instance_id item ≡ true)
weapon-cases instance_id none item given = ground arith
weapon-cases instance_id (some x) item given =
    let (e, made) = guard-cases (not (is_weapon instance_id x)) _ (ok x) item given in
    let same = ok_inj x item made in
    (ap some same, ap (is_weapon instance_id) (sym same) ∙ twice (is_weapon instance_id x) e)
  where
    twice : (b : Bool) → not b ≡ false → b ≡ true
    twice true e = refl
    twice false e = sym e

check-weapon :
    (instance_id : ℕ) (o : Option Bytes) (item : Bytes)
    → o ≡ some item
    → is_weapon instance_id item ≡ true
    → check_weapon instance_id o ≡ ok item
check-weapon instance_id o item found is =
    ap (check_weapon instance_id) found
    ∙ ap (λ b. if not b then raised "owned weapon unavailable" else ok item) is

-- the same operation at another time
abbrev pub again : ℕ → ℕ → Request → Request
again now roll q = record q { now = now; roll = roll }

abbrev answered : Receipt → ℕ → Bytes → Outcome
answered prior gold item = record {
  success = prior.success;
  gold = gold;
  item = item;
  fresh = false;
}

attempt-again :
    (t : Tables) (q : Request) (item : Bytes) (prior : Receipt) (now roll : ℕ)
    → request_fits q ≡ true
    → owned_weapon t q ≡ ok item
    → receipt_of q.uid q.operation t.receipts ≡ some prior
    → (prior.instance_id == q.instance_id) ≡ true
    → attempt t (again now roll q) ≡ ok (answered prior (balance q.uid t) item, t)
unfolding attempt request_fits owned_weapon repeat_attempt
attempt-again t q item prior now roll fits owned found same = rw (fits, owned, found, same) refl

bytes_same : (bs : Bytes) → bytes_eq bs bs ≡ true
bytes_same [] = refl
bytes_same (b ∷ bs) = ap (λ c. c && bytes_eq bs bs) ((==_iff b b).1 refl) ∙ bytes_same bs

receipt_first :
    (new : Receipt) (receipts : List Receipt)
    → receipt_of new.uid new.operation (new ∷ receipts) ≡ some new
receipt_first new receipts =
    ap
      (λ b.
        if b && bytes_eq new.operation new.operation
        then some new
        else receipt_of new.uid new.operation receipts)
      ((==_iff new.uid new.uid).1 refl)
    ∙ ap (λ b. if b then some new else receipt_of new.uid new.operation receipts)
        (bytes_same new.operation)

stored :
    (key : ℕ × ℕ) (item : Bytes) (rows : Dict (ℕ × ℕ) Bytes)
    → lookup key (insert key item rows) ≡ some item
stored key item rows =
    lookup-insert key key item rows
    ∙ ap (λ b. if b then some item else lookup key rows) ((pair_beq_iff key key).1 refl)

charged_again :
    (t : Tables) (q : Request) (item : Bytes) (r : Level) (now roll : ℕ)
    → request_fits q ≡ true
    → is_weapon q.instance_id item ≡ true
    → let p = charge t q item r in
      attempt p.1 (again now roll q)
      ≡ ok (
        record { success = p.0.success; gold = balance q.uid p.1; item = p.0.item; fresh = false },
        p.1,
      )
unfolding charge owned_weapon
charged_again t q item r now roll fits is =
    attempt-again (charge t q item r).1 q (upgraded q item r) (receipt_for q item r) now roll fits
      (check-weapon q.instance_id (lookup (q.uid, q.instance_id) (charge t q item r).1.inventory)
        (upgraded q item r) (stored (q.uid, q.instance_id) (upgraded q item r) t.inventory)
        (changed_weapon q.instance_id item (raise_by (success_of q r) (u32 43 item))
          (u32 47 item - r.score) is))
      (receipt_first (receipt_for q item r) t.receipts)
      ((==_iff q.instance_id q.instance_id).1 refl)

abbrev IsAnswered : Request → ℕ → ℕ → Outcome × Tables → Type 0
IsAnswered q now roll p =
    attempt p.1 (again now roll q)
    ≡ ok (
      record { success = p.0.success; gold = balance q.uid p.1; item = p.0.item; fresh = false },
      p.1,
    )

pub owned-weapon :
    (t : Tables) (q : Request) (item : Bytes)
    → owned_weapon t q ≡ ok item
    → is_weapon q.instance_id item ≡ true
unfolding owned_weapon
owned-weapon t q item owned =
    (weapon-cases q.instance_id (lookup (q.uid, q.instance_id) t.inventory) item owned).1

-- Once an attempt has been answered, the same operation attempted again, at any later time and with any
-- roll, has the same success, is no new attempt, and leaves every table as it is.
pub attempt_once :
    (t : Tables) (q : Request) (p : Outcome × Tables) (now roll : ℕ)
    → attempt t q ≡ ok p
    → attempt p.1 (again now roll q)
      ≡ ok (
        record { success = p.0.success; gold = balance q.uid p.1; item = p.0.item; fresh = false },
        p.1,
      )
attempt_once t q p now roll given =
    let (fits, (item, (owned, either))) = attempt-cases t q p given in
    elim either [
      | inl (prior, (found, made)) ↦
          let (same, is) = repeated t q item prior p made in
          subst (IsAnswered q now roll) is
            (attempt-again t q item prior now roll fits owned found same)
      | inr (current, (_, (r, (_, is)))) ↦
          subst (IsAnswered q now roll) (sym is)
            (charged_again t q item r now roll fits (owned-weapon t q item owned))
    ]
