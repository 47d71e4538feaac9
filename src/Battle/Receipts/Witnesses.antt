-- ===== src/Battle/Receipts/Witnesses.antt =====
-- The one-use witnesses of hit receipts: searches in the bounded ledgers of a room.
use kungfukid_local_server.Base.{
  ℕ, ◌-◌, Bool, false, ◌&&◌, ◌||◌, Option, none, some, List, [], ◌∷◌, ◌++◌, length, drop, member,
  ltb, ◌==◌, if◌then◌else◌,
}
use kungfukid_local_server.Hub.{HitWitness, DeathWitness, CombatCatalog}

-- `rows.append(row); del rows[:-32]`
abbrev pub append_bounded : {A : Type 0} → List A → A → List A
append_bounded rows row = let grown = rows ++ (row ∷ []) in drop (length grown - 32) grown

-- the first row that witnesses the receipt, taken out of the ledger
abbrev pub take_hit : ℕ → ℕ → ℕ → ℕ → List HitWitness → Option (List HitWitness)
take_hit source skill status sequence [] = none
take_hit source skill status sequence (row ∷ rows) =
    let rest = take_hit source skill status sequence rows in
    if (row.source == source)
      && ((row.skill == skill) && (member status row.outcomes && ltb row.sequence sequence))
    then some rows
    else elim rest [ none ↦ none | some left ↦ some (row ∷ left) ]

abbrev pub take_death : ℕ → ℕ → ℕ → List DeathWitness → Option (List DeathWitness)
take_death source skill sequence [] = none
take_death source skill sequence (row ∷ rows) =
    let rest = take_death source skill sequence rows in
    if (row.source == source) && ((row.skill == skill) && ltb row.sequence sequence)
    then some rows
    else elim rest [ none ↦ none | some left ↦ some (row ∷ left) ]

-- combat_catalog.py: `receipt_policy(skill) == 'effect_free'`, with the checks in its order
abbrev pub permits_effect_free_receipt : CombatCatalog → ℕ → Bool
permits_effect_free_receipt c skill =
    if member skill c.conflicts || member skill c.invalid_effect_ids
    then false
    else if member skill c.attacker_effects
    then false
    else member skill c.safe_receipt_ids

-- combat_catalog.py: `receipt_outcomes`
abbrev pub receipt_outcomes : CombatCatalog → ℕ → ℕ → ℕ → List ℕ
receipt_outcomes c skill status flag =
    if permits_effect_free_receipt c skill
      && (member skill c.guard_break_ids && ((status == 2) && (flag == 1)))
    then 2 ∷ 4 ∷ []
    else status ∷ []

abbrev pub permits : Option CombatCatalog → ℕ → Bool
permits none skill = false
permits (some c) skill = permits_effect_free_receipt c skill
