-- ===== src/Tests/Weapons.antt =====
-- The theorems on an attempt at a weapon upgrade, at a table of two levels.
use kungfukid_local_server.Base.{
  ℕ, ◌+◌, ◌≡◌, ◌⊎◌, refl, true, false, some, [], ◌∷◌, ◌++◌, replicate, if◌then◌else◌, ◌==◌,
}
use kungfukid_local_server.Base.Bytes.{Bytes, to_le}
use kungfukid_local_server.Base.Exec.{ok}
use kungfukid_local_server.Weapons.{
  Rules, Level, Tables, Request, Outcome, validate, settings, balance, request_fits, owned_weapon,
  payable, charge, new_attempt, attempt, configure, changed_item,
}
use kungfukid_local_server.Weapons.Attempts.{IsPayable, attempt_costs}
use kungfukid_local_server.Weapons.Once.{again, attempt_once}
use kungfukid_local_server.Weapons.Steps.{
  none_yet, after, attempted, configured, IsCovered, Steps-IsCovered,
}

abbrev rules : Rules
rules = record {
  enabled = true;
  levels =
      record { level = 0; score = 100; gold = 30; odds = 50; bonus_percent = 0 }
      ∷ record { level = 1; score = 200; gold = 60; odds = 40; bonus_percent = 5 }
      ∷ [];
}

-- weapon 9, of level 0 with a score of 150
abbrev weapon : Bytes
weapon =
    to_le 4 9 ++ ((25 ∷ []) ++ (replicate 38 0 ++ (to_le 4 0 ++ (to_le 4 150 ++ replicate 17 0))))

abbrev tables : Tables
tables = record {
  rules_row = some (1, rules);
  receipts = [];
  inventory = ((7, 9), weapon) ∷ [];
  gold = (7, 100) ∷ (8, 40) ∷ [];
  leases = ((7, 9), 500) ∷ [];
  permanent = ((7, 9), true) ∷ [];
}

abbrev request : Request
request = record {
  uid = 7;
  operation = 49 ∷ 58 ∷ 50 ∷ [];
  instance_id = 9;
  revision = 1;
  now = 1000;
  roll = 20;
}

abbrev result : Outcome × Tables
result =
    charge tables request weapon
      (record { level = 0; score = 100; gold = 30; odds = 50; bonus_percent = 0 })

charged : attempt tables request ≡ ok result
unfolding attempt request_fits owned_weapon new_attempt settings validate payable
charged = refl

result_lem : (result.0.success ≡ true) × (result.0.gold ≡ 70)
unfolding charge
result_lem = (refl, refl)

attempt_once_example :
    attempt result.1 (again 2000 99 request)
    ≡ ok (
      record {
        success = result.0.success;
        gold = balance 7 result.1;
        item = result.0.item;
        fresh = false;
      },
      result.1,
    )
attempt_once_example = attempt_once tables request result 2000 99 charged

attempt_costs_example :
    ((result.0.fresh ≡ false) × (result.1 ≡ tables))
    ⊎ ((item : Bytes) × ((current : ℕ × Rules) × ((r : Level) × ((result.0.fresh ≡ true)
              × ((owned_weapon tables request ≡ ok item)
                  × ((settings tables ≡ ok current)
                      × (IsPayable tables request item current.1.levels r
                          × (balance 7 result.1 + (if 7 == 7 then r.gold else 0)
                              ≡ balance 7 tables))))))))
attempt_costs_example = attempt_costs tables request result 7 charged

abbrev reset : Tables
reset = record result.1 { rules_row = some (2, rules) }

rules_set : configure result.1 rules 1 ≡ ok (2, reset)
unfolding configure validate charge changed_item
rules_set = refl

tables-IsCovered : IsCovered tables
unfolding settings validate
tables-IsCovered = (((1, rules), refl), refl)

Steps-IsCovered_example : IsCovered reset
Steps-IsCovered_example =
    Steps-IsCovered
      (after (after none_yet (attempted tables request result charged))
        (configured result.1 rules 1 (2, reset) rules_set))
      tables-IsCovered
