-- ===== src/Weapons/Steps.antt =====
-- server/kk_local/weapon_upgrade.py: changes of the rules and attempts, in any order, against one
-- another. A table of levels that is not empty covers the level of every weapon.
use mathlib.Core.Path.{subst}
use kungfukid_local_server.Base.{
  ℕ, ◌+◌, ◌-◌, ◌≤◌, ◌<◌, ◌≡◌, inl, inr, sym, ap, ◌∙◌, Bool, true, false, not, ◌&&◌, ◌||◌, Option,
  none, some, List, [], ◌∷◌, ◌++◌, length, any, take, drop, leb, ◌==◌, nat_eq, pair_eq, pair_beq,
  arith, Bool-cases,
}
use kungfukid_local_server.Base.Bytes.{Bytes, from_le, to_le, u8, u32}
use kungfukid_local_server.Base.Dict.{Dict, insert, values}
use kungfukid_local_server.Base.Exec.{ok}
use kungfukid_local_server.Base.Fallible.{◌>>◌, ok_inj, bind-cases}
use kungfukid_local_server.Wire.Blocks.{from_le-to_le}
use kungfukid_local_server.Weapons.{
  Level, Rules, Tables, Outcome, Request, validate, settings, configure, current_revision,
  deletes_table, orphaned, is_weapon, charge, changed_item, upgraded, raise_by, success_of, attempt,
}
use kungfukid_local_server.Weapons.Attempts.{require-cases, repeated, attempt-cases}
use kungfukid_local_server.Weapons.Once.{drop-front, weapon_length, owned-weapon}

-- a change of the tables: an attempt that is answered, or a change of the rules that is taken
pub data Step : Tables → Tables → Type 0 where
  attempted : (t : Tables) (q : Request) (p : Outcome × Tables) → attempt t q ≡ ok p → Step t p.1
  configured :
      (t : Tables) (rules : Rules) (expected : ℕ) (p : ℕ × Tables)
      → configure t rules expected ≡ ok p
      → Step t p.1

pub data Steps (t : Tables) : Tables → Type 0 where
  none_yet : Steps t t
  after : {u v : Tables} → Steps t u → Step u v → Steps t v

abbrev pub row_count : Option (ℕ × Rules) → ℕ
row_count none = 0
row_count (some (_, rules)) = length rules.levels

abbrev pub covers : ℕ → List Bytes → Bool
covers n items = (n == 0) || not (any (orphaned n) items)

-- the stored rules can be read, and cover the level of every weapon
abbrev pub IsCovered : Tables → Type 0
IsCovered t =
    ((current : ℕ × Rules) × (settings t ≡ ok current))
    × (covers (row_count t.rules_row) (values t.inventory) ≡ true)

any-insert :
    (p : Bytes → Bool) (key : ℕ × ℕ) (item : Bytes) (rows : Dict (ℕ × ℕ) Bytes)
    → p item ≡ false
    → any p (values rows) ≡ false
    → any p (values (insert key item rows)) ≡ false
any-insert p key item [] new old = ap (λ b. b || false) new
any-insert p key item ((k, v) ∷ rows) new old = elim (Bool-cases (pair_beq k key)) [
  | inl e ↦ rw e (ground (arith, new, old))
  | inr e ↦ rw e (ground (arith, old, any-insert p key item rows new))
]

level_stored :
    (item : Bytes) (level score : ℕ)
    → length item ≡ 68
    → level < 4294967296
    → u32 43 (changed_item item level score) ≡ level
unfolding changed_item
level_stored item level score size small =
    let words = to_le 4 level ++ to_le 4 score in
    ap (λ d. from_le (take 4 d))
      (drop-front 43 43 item (words ++ drop (43 + length words) item) (omega arith)
        (omega (arith, size)))
    ∙ from_le-to_le 4 level small

covered-rows :
    (n : ℕ) (items : List Bytes) → covers n items ≡ true → 1 ≤ n → any (orphaned n) items ≡ false
covered-rows n items covered some_row = ground arith

rows_of :
    (t : Tables) (current : ℕ × Rules)
    → settings t ≡ ok current
    → (row_count t.rules_row ≡ length current.1.levels) × (length current.1.levels ≤ 256)
unfolding settings validate
rows_of t current known = of t.rules_row known
  where
    fits : (n : ℕ) (b : Bool) → (leb n 256 && b) ≡ true → n ≤ 256
    fits n b e = ground arith

    of :
        (o : Option (ℕ × Rules))
        → elim o [
          | none ↦ ok (0, record { enabled = false; levels = [] })
          | some (revision, rules) ↦ validate rules >> ok (revision, rules)
        ]
          ≡ ok current
        → (row_count o ≡ length current.1.levels) × (length current.1.levels ≤ 256)
    of none e =
        let same = ok_inj _ current e in
        (
          ap (λ (c : ℕ × Rules). length c.1.levels) same,
          subst (λ (c : ℕ × Rules). length c.1.levels ≤ 256) same (omega arith),
        )
    of (some (revision, rules)) e =
        let (_, (valid, made)) = bind-cases (validate rules) _ current e in
        let (few, _) =
          require-cases
            (leb (length rules.levels) 256 && (not rules.enabled || leb 2 (length rules.levels))) _
            _ _ valid in
        let same = ok_inj _ current made in
        (
          ap (λ (c : ℕ × Rules). length c.1.levels) same,
          subst (λ (c : ℕ × Rules). length c.1.levels ≤ 256) same
              (fits (length rules.levels) _ few),
        )

raised-at_most : (b : Bool) (n : ℕ) → raise_by b n ≤ n + 1
raised-at_most true n = omega arith
raised-at_most false n = omega arith

not_orphaned : (n level : ℕ) (b : Bool) → level < n → (b && leb n level) ≡ false
not_orphaned n level b small = ground arith

covers-intro : (n : ℕ) (items : List Bytes) → any (orphaned n) items ≡ false → covers n items ≡ true
covers-intro n items e = ground arith

charge-covers :
    (t : Tables) (q : Request) (item : Bytes) (r : Level) (n : ℕ)
    → length item ≡ 68
    → u32 43 item + 1 < n
    → n ≤ 256
    → covers n (values t.inventory) ≡ true
    → covers n (values (charge t q item r).1.inventory) ≡ true
unfolding charge
charge-covers t q item r n size below few covered =
    let level = raise_by (success_of q r) (u32 43 item) in
    let low : level ≤ u32 43 item + 1 = raised-at_most (success_of q r) (u32 43 item) in
    let kept : u32 43 (upgraded q item r) ≡ level =
      level_stored item level (u32 47 item - r.score) size (omega (arith, low, below, few)) in
    covers-intro n (values (insert (q.uid, q.instance_id) (upgraded q item r) t.inventory)) (
      any-insert (orphaned n) (q.uid, q.instance_id) (upgraded q item r) t.inventory
        (not_orphaned n (u32 43 (upgraded q item r)) (u8 4 (upgraded q item r) == 25)
          (omega (arith, kept, low, below)))
        (covered-rows n (values t.inventory) covered (omega (arith, below))))

-- a new attempt
charge-IsCovered :
    (t : Tables) (q : Request) (item : Bytes) (r : Level) (current : ℕ × Rules)
    → settings t ≡ ok current
    → is_weapon q.instance_id item ≡ true
    → u32 43 item + 1 < length current.1.levels
    → IsCovered t
    → IsCovered (charge t q item r).1
unfolding charge settings
charge-IsCovered t q item r current known is below covered =
    let (same, few) = rows_of t current known in
    (
      (current, known),
      charge-covers t q item r (row_count t.rules_row) (weapon_length (length item) _ is)
          (omega (arith, below, same)) (omega (arith, few, same)) covered.1,
    )

attempt-IsCovered :
    (t : Tables) (q : Request) (p : Outcome × Tables)
    → attempt t q ≡ ok p
    → IsCovered t
    → IsCovered p.1
attempt-IsCovered t q p given covered =
    let (_, (item, (owned, either))) = attempt-cases t q p given in
    elim either [
      | inl (prior, (_, made)) ↦
          subst (λ (x : Outcome × Tables). IsCovered x.1) (repeated t q item prior p made).1 covered
      | inr (current, (known, (r, (payable_now, same)))) ↦
          subst (λ (x : Outcome × Tables). IsCovered x.1) (sym same)
            (charge-IsCovered t q item r current known (owned-weapon t q item owned) payable_now.0
              covered)
    ]

configure-IsCovered :
    (t : Tables) (rules : Rules) (expected : ℕ) (p : ℕ × Tables)
    → configure t rules expected ≡ ok p
    → IsCovered p.1
unfolding configure settings
configure-IsCovered t rules expected p given =
    let (u, (valid, given₁)) = bind-cases (validate rules) _ p given in
    let (_, given₂) = require-cases (current_revision t.rules_row == expected) _ _ p given₁ in
    let (_, given₃) = require-cases (not (deletes_table t.rules_row rules)) _ _ p given₂ in
    let (covered, given₄) =
      require-cases (covers (length rules.levels) (values t.inventory)) _ _ p given₃ in
    let revision = current_revision t.rules_row + 1 in
    subst (λ (x : ℕ × Tables). IsCovered x.1) (ok_inj _ p given₄)
      (((revision, rules), ap (λ m. m >> ok (revision, rules)) valid), covered)

Step-IsCovered : {t u : Tables} → Step t u → IsCovered t → IsCovered u
Step-IsCovered (attempted t q p given) covered = attempt-IsCovered t q p given covered
Step-IsCovered (configured t rules expected p given) covered =
    configure-IsCovered t rules expected p given

-- Whatever attempts are answered and whatever changes of the rules are taken, in any order: where the
-- stored rules were valid and their levels, if there are any, covered the level of every weapon, they are and
-- do so afterwards.
pub Steps-IsCovered : {t u : Tables} → Steps t u → IsCovered t → IsCovered u
Steps-IsCovered none_yet covered = covered
Steps-IsCovered (after before step) covered = Step-IsCovered step (Steps-IsCovered before covered)
