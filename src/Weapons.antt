-- ===== src/Weapons.antt =====
-- server/kk_local/weapon_upgrade.py: the rules of weapon upgrades, and an attempt at one. The rows that it
-- reads and writes in the database (storage/upgrades.py, storage/inventory.py, storage/commerce.py,
-- storage/renewal.py) are the fields of a record, and a rule set stands for its JSON.
pub mod Attempts
pub mod Once
pub mod Steps
use kungfukid_local_server.Base.{
  ℕ, zero, suc, ◌+◌, ◌-◌, Bool, true, false, not, ◌&&◌, ◌||◌, Option, none, some, List, [], ◌∷◌,
  ◌++◌, length, all, any, take, drop, member, is_some, ltb, leb, ◌==◌, if◌then◌else◌, nat_eq,
  pair_eq, replicate,
}
use kungfukid_local_server.Base.Bytes.{Bytes, to_le, u8, u16, u32, bytes_eq}
use kungfukid_local_server.Base.Dict.{Dict, lookup, insert, contains, values}
use kungfukid_local_server.Base.Exec.{Result, ok, raised}
use kungfukid_local_server.Base.Fallible.{◌>>=◌, ◌>>◌, require}
use kungfukid_local_server.Wire.{Message}
use kungfukid_local_server.Settlement.Payload.{put_at}

pub record Level : Type 0 where
  pub level : ℕ
  pub score : ℕ
  pub gold : ℕ
  pub odds : ℕ
  pub bonus_percent : ℕ

-- a failure keeps the level, in every rule set
pub record Rules : Type 0 where
  pub enabled : Bool
  pub levels : List Level

pub record Receipt : Type 0 where
  pub uid : ℕ
  pub operation : Bytes
  pub instance_id : ℕ
  pub revision : ℕ
  pub success : Bool
  pub roll : ℕ
  pub score : ℕ
  pub gold : ℕ
  pub before : Bytes
  pub after : Bytes

-- the tables: the current rules with their revision, receipts, items, gold, leases, permanent weapons
pub record Tables : Type 0 where
  pub rules_row : Option (ℕ × Rules)
  pub receipts : List Receipt
  pub inventory : Dict (ℕ × ℕ) Bytes
  pub gold : Dict ℕ ℕ
  pub leases : Dict (ℕ × ℕ) ℕ
  pub permanent : Dict (ℕ × ℕ) Bool

-- the rows of the levels from `i` on
abbrev pub rows_fit : ℕ → List Level → Bool
rows_fit i [] = true
rows_fit i (r ∷ rs) =
    (r.level == i)
    && (leb 1 r.score
        && (leb r.score 0x7fffffff
            && (leb r.gold 0x7fffffff
                && (leb r.odds 100 && (leb r.bonus_percent 100 && rows_fit (suc i) rs)))))

-- `validate(rules)`
unfoldable pub validate : Rules → Result (Unit {0})
validate rules =
    require (leb (length rules.levels) 256 && (not rules.enabled || leb 2 (length rules.levels)))
      "weapon upgrade needs2..256 levels"
    >> require (rows_fit 0 rules.levels) "weapon upgrade level/range"

-- a weapon whose level has no row in the new table
abbrev pub orphaned : ℕ → Bytes → Bool
orphaned rows item = (u8 4 item == 25) && leb rows (u32 43 item)

abbrev pub current_revision : Option (ℕ × Rules) → ℕ
current_revision none = 0
current_revision (some (revision, _)) = revision

abbrev deletes_table : Option (ℕ × Rules) → Rules → Bool
deletes_table none rules = false
deletes_table (some (_, old)) rules = not (length old.levels == 0) && (length rules.levels == 0)

-- `configure(store, rules, expected_revision)`: the tables after it, and the new revision
unfoldable pub configure : Tables → Rules → ℕ → Result (ℕ × Tables)
configure t rules expected =
    validate rules
    >> (require (current_revision t.rules_row == expected)
          "weapon rules changed; reload before editing"
        >> (require (not (deletes_table t.rules_row rules))
              "disable attempts without deleting the native bonus table"
            >> (require
                  ((length rules.levels == 0)
                    || not (any (orphaned (length rules.levels)) (values t.inventory)))
                  "configured table would orphan an existing weapon level"
                >> ok (
                  current_revision t.rules_row + 1,
                  record t { rules_row = some (current_revision t.rules_row + 1, rules) },
                ))))

-- `settings(store)`
unfoldable pub settings : Tables → Result (ℕ × Rules)
settings t = elim t.rules_row [
  | none ↦ ok (0, record { enabled = false; levels = [] })
  | some (revision, rules) ↦ validate rules >> ok (revision, rules)
]

abbrev table_row : Level → Bytes
table_row r =
    to_le 4 r.level
    ++ (to_le 4 r.score
        ++ (to_le 4 r.gold ++ (to_le 4 r.odds ++ ((0 ∷ []) ++ to_le 4 r.bonus_percent))))

abbrev table_rows : List Level → Bytes
table_rows [] = []
table_rows (r ∷ rs) = table_row r ++ table_rows rs

-- `table_packet(rules)`
unfoldable pub table_packet : Rules → Result Message
table_packet rules =
    validate rules
    >> (require (not (length rules.levels == 0)) "empty native table is not a cache reset"
        >> ok (record { id = 21411; payload = table_rows rules.levels }))

-- `store.upgrades.receipt(uid, operation)`
abbrev pub receipt_of : ℕ → Bytes → List Receipt → Option Receipt
receipt_of uid operation [] = none
receipt_of uid operation (r ∷ rs) =
    let rest = receipt_of uid operation rs in
    if (r.uid == uid) && bytes_eq r.operation operation then some r else rest

-- `store.gold_balance(uid)`
abbrev pub balance : ℕ → Tables → ℕ
balance uid t = elim (lookup uid t.gold) [ none ↦ 0 | some g ↦ g ]

-- `rules['levels'][level]`
abbrev pub level_at : ℕ → List Level → Option Level
level_at n [] = none
level_at zero (r ∷ rs) = some r
level_at (suc n) (r ∷ rs) = level_at n rs

-- what an attempt gives: whether it has succeeded, the gold left, the item, and whether it is new
pub record Outcome : Type 0 where
  pub success : Bool
  pub gold : ℕ
  pub item : Bytes
  pub fresh : Bool

-- what an attempt asks for
pub record Request : Type 0 where
  pub uid : ℕ
  pub operation : Bytes
  pub instance_id : ℕ
  pub revision : ℕ
  pub now : ℕ
  pub roll : ℕ

unfoldable pub request_fits : Request → Bool
request_fits q =
    leb 1 q.instance_id
    && (leb q.instance_id 0xffffffff
        && (leb 1 q.revision && (leb 1 (length q.operation) && leb (length q.operation) 128)))

-- the record of a weapon of this instance
abbrev pub is_weapon : ℕ → Bytes → Bool
is_weapon instance_id item =
    (length item == 68) && ((u32 0 item == instance_id) && (u8 4 item == 25))

abbrev pub check_weapon : ℕ → Option Bytes → Result Bytes
check_weapon instance_id none = raised "owned weapon unavailable"
check_weapon instance_id (some item) =
    if not (is_weapon instance_id item) then raised "owned weapon unavailable" else ok item

-- the weapon that the player owns
unfoldable pub owned_weapon : Tables → Request → Result Bytes
owned_weapon t q = check_weapon q.instance_id (lookup (q.uid, q.instance_id) t.inventory)

abbrev pub lease_over : Tables → Request → Bool
lease_over t q =
    elim (lookup (q.uid, q.instance_id) t.leases) [
      | none ↦ false
      | some expires ↦ leb expires q.now
    ]
    && not (contains (q.uid, q.instance_id) t.permanent)

abbrev pub afford : ℕ → ℕ → Option Level → Result Level
afford score gold none = raised "weapon already at configured maximum"
afford score gold (some r) =
    if ltb score r.score || ltb gold r.gold then raised "weapon score/gold insufficient" else ok r

-- the row that the attempt pays for
unfoldable pub payable : Tables → Request → Bytes → Rules → Result Level
payable t q item rules =
    if leb (length rules.levels) (u32 43 item + 1)
    then raised "weapon already at configured maximum"
    else afford (u32 47 item) (balance q.uid t) (level_at (u32 43 item) rules.levels)

-- the level and the score of the weapon after it
unfoldable pub changed_item : Bytes → ℕ → ℕ → Bytes
changed_item item level score = put_at 43 (to_le 4 level ++ to_le 4 score) item

abbrev pub raise_by : Bool → ℕ → ℕ
raise_by true n = n + 1
raise_by false n = n

abbrev pub success_of : Request → Level → Bool
success_of q r = ltb q.roll r.odds

abbrev pub upgraded : Request → Bytes → Level → Bytes
upgraded q item r =
    changed_item item (raise_by (success_of q r) (u32 43 item)) (u32 47 item - r.score)

abbrev pub receipt_for : Request → Bytes → Level → Receipt
receipt_for q item r = record {
  uid = q.uid;
  operation = q.operation;
  instance_id = q.instance_id;
  revision = q.revision;
  success = success_of q r;
  roll = q.roll;
  score = r.score;
  gold = r.gold;
  before = item;
  after = upgraded q item r;
}

-- the charge of a new attempt
unfoldable pub charge : Tables → Request → Bytes → Level → Outcome × Tables
charge t q item r =
    let gold = balance q.uid t - r.gold in
    (
      record { success = success_of q r; gold = gold; item = upgraded q item r; fresh = true },
      record t {
        inventory = insert (q.uid, q.instance_id) (upgraded q item r) t.inventory;
        gold = insert q.uid gold t.gold;
        receipts = receipt_for q item r ∷ t.receipts;
      },
    )

abbrev pub usable : Bytes → Bool
usable item = member (u16 17 item) (0 ∷ 8 ∷ 9 ∷ []) && member (u32 19 item) (0 ∷ 1 ∷ [])

-- a new attempt
unfoldable pub new_attempt : Tables → Request → Bytes → Result (Outcome × Tables)
new_attempt t q item = settings t >>= λ current.
    require ((current.0 == q.revision) && current.1.enabled) "upgrade table stale/disabled"
    >> (require (usable item) "unsupported weapon status/slot"
        >> (require (not (lease_over t q)) "weapon lease expired"
            >> (payable t q item current.1 >>= λ r. ok (charge t q item r))))

-- an operation that has a receipt already: its answer is repeated, and nothing is charged
unfoldable pub repeat_attempt : Tables → Request → Bytes → Receipt → Result (Outcome × Tables)
repeat_attempt t q item prior =
    require (prior.instance_id == q.instance_id) "upgrade operation collision"
    >> ok
        (record { success = prior.success; gold = balance q.uid t; item = item; fresh = false }, t)

-- `attempt(…)`, a transaction: where it raises, the tables are as before
unfoldable pub attempt : Tables → Request → Result (Outcome × Tables)
attempt t q =
    require (request_fits q) "upgrade request identity"
    >> (owned_weapon t q >>= λ item. elim (receipt_of q.uid q.operation t.receipts) [
      | some prior ↦ repeat_attempt t q item prior
      | none ↦ new_attempt t q item
    ])

-- `result_packets(result)`
unfoldable pub result_packets : Outcome → List Message
result_packets o =
    record { id = 1240; payload = to_le 4 o.gold }
    ∷ record { id = 2161; payload = o.item }
    ∷ record {
      id = 21413;
      payload = (if o.success then 1 else 0) ∷ (replicate 8 0 ++ (take 4 o.item ++ replicate 9 0));
    }
    ∷ []
