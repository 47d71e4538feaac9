-- ===== src/Battle/Spending.antt =====
-- Hit receipts: each one that is relayed spends exactly one witness.
use kungfukid_local_server.Base.{
  ℕ, ◌<◌, ◌≡◌, true, ◌&&◌, ◌⊎◌, inl, inr, none, some, List, [], ◌∷◌, arith, member, ◌==◌, nat_eq,
  pair_eq, Option-cases, Bool-cases, ltb, sym,
}
use kungfukid_local_server.Base.Dict.{lookup-insert}
use kungfukid_local_server.Hub.{Room, HitWitness, DeathWitness}
use kungfukid_local_server.Battle.Event.{Event}
use kungfukid_local_server.Battle.Outcome.{Context, Delivery, relay}
use kungfukid_local_server.Battle.Receipts.{take_hit, take_death}
use kungfukid_local_server.Battle.Hits.{
  decide_hit_receipt, decide_fresh_receipt, hit_ledger, death_ledger,
}

abbrev pub WitnessesDeath : ℕ → ℕ → ℕ → DeathWitness → Type 0
WitnessesDeath source skill sequence row =
    (row.source ≡ source) × (row.skill ≡ skill) × (row.sequence < sequence)

-- A row of the ledger that stands for the receipt: same source and skill, a status that its hit
-- may have, and an earlier number.
abbrev pub Witnesses : ℕ → ℕ → ℕ → ℕ → HitWitness → Type 0
Witnesses source skill status sequence row =
    (row.source ≡ source)
    × (row.skill ≡ skill)
    × (member status row.outcomes ≡ true)
    × (row.sequence < sequence)

-- `rows` holds a row that fits, and `left` is the rest of it, in its order.
pub data Spends {A : Type 0} (Fits : A → Type 0) : List A → List A → Type 0 where
  here : {row : A} {rows : List A} → Fits row → Spends Fits (row ∷ rows) rows
  later :
      {row : A} {rows left : List A} → Spends Fits rows left → Spends Fits (row ∷ rows) (row ∷ left)

take_hit-Spends :
    (source skill status sequence : ℕ) (rows left : List HitWitness)
    → take_hit source skill status sequence rows ≡ some left
    → Spends (Witnesses source skill status sequence) rows left
take_hit-Spends source skill status sequence [] left h = absurd (ground arith)
take_hit-Spends source skill status sequence (row ∷ rows) left h =
    elim (Bool-cases (
      (row.source == source)
      && ((row.skill == skill) && (member status row.outcomes && ltb row.sequence sequence)))) [
        | inl fits ↦
            let w : Witnesses source skill status sequence row = ground arith in
            let same : rows ≡ left = ground arith in rw (sym same) (here w)
        | inr misfits ↦ elim (Option-cases (take_hit source skill status sequence rows)) [
          | inl nothing ↦ absurd (ground arith)
          | inr (rest, found) ↦
              let same : (row ∷ rest) ≡ left = ground arith in
              rw (sym same) (later (take_hit-Spends source skill status sequence rows rest found))
        ]
      ]

take_death-Spends :
    (source skill sequence : ℕ) (rows left : List DeathWitness)
    → take_death source skill sequence rows ≡ some left
    → Spends (WitnessesDeath source skill sequence) rows left
take_death-Spends source skill sequence [] left h = absurd (ground arith)
take_death-Spends source skill sequence (row ∷ rows) left h =
    elim (Bool-cases
      ((row.source == source) && ((row.skill == skill) && ltb row.sequence sequence))) [
        | inl fits ↦
            let w : WitnessesDeath source skill sequence row = ground arith in
            let same : rows ≡ left = ground arith in rw (sym same) (here w)
        | inr misfits ↦ elim (Option-cases (take_death source skill sequence rows)) [
          | inl nothing ↦ absurd (ground arith)
          | inr (rest, found) ↦
              let same : (row ∷ rest) ≡ left = ground arith in
              rw (sym same) (later (take_death-Spends source skill sequence rows rest found))
        ]
      ]

-- A hit receipt that is relayed is a fresh one.
receipt_is_fresh :
    (x : Context) (d : Event) (r : Room) (to : Delivery)
    → decide_hit_receipt x d ≡ relay r to
    → decide_fresh_receipt x d ≡ relay r to
unfolding decide_hit_receipt
receipt_is_fresh x d r to h = ground arith

-- What a relayed receipt takes from the ledgers of its sender.
abbrev pub SpendsOne : Context → Event → Room → Type 0
SpendsOne x d r =
    Spends (Witnesses d.source d.skill_property_id d.hit_result_status d.sequence_19_raw)
      (hit_ledger x.uid x.room) (hit_ledger x.uid r)
    ⊎ ((d.hit_result_status ≡ 3)
        × (hit_ledger x.uid r ≡ hit_ledger x.uid x.room)
        × Spends (WitnessesDeath d.source d.skill_property_id d.sequence_19_raw)
            (death_ledger x.uid x.room) (death_ledger x.uid r))

ledger_left :
    (x : Context) (d : Event) (r : Room) (to : Delivery) (left : List HitWitness)
    → decide_fresh_receipt x d ≡ relay r to
    → take_hit d.source d.skill_property_id d.hit_result_status d.sequence_19_raw
        (hit_ledger x.uid x.room)
      ≡ some left
    → hit_ledger x.uid r ≡ left
unfolding decide_fresh_receipt
ledger_left x d r to left h e =
    ground (arith, lookup-insert x.uid x.uid left x.room.pending_hit_receipts)

death_left :
    (x : Context) (d : Event) (r : Room) (to : Delivery)
    → decide_fresh_receipt x d ≡ relay r to
    → take_hit d.source d.skill_property_id d.hit_result_status d.sequence_19_raw
        (hit_ledger x.uid x.room)
      ≡ none
    → (left : List DeathWitness) × (take_death d.source d.skill_property_id d.sequence_19_raw
          (death_ledger x.uid x.room)
        ≡ some left)
      × (d.hit_result_status ≡ 3)
      × (hit_ledger x.uid r ≡ hit_ledger x.uid x.room)
      × (death_ledger x.uid r ≡ left)
unfolding decide_fresh_receipt
death_left x d r to h e =
    elim (Option-cases
      (take_death d.source d.skill_property_id d.sequence_19_raw (death_ledger x.uid x.room))) [
        | inl nothing ↦ absurd (ground arith)
        | inr (left, found) ↦
            let kept = lookup-insert x.uid x.uid left x.room.pending_death_receipts in
            (left, found, ground arith, ground arith, ground (arith, kept))
      ]

-- A hit receipt is relayed only against a witness of the same source and skill with an earlier
-- number, and takes exactly that one row out of its sender's ledger: the row of a reported hit
-- whose possible outcomes have the receipt's status, or, for status 3, that of an expected death.
pub receipt_spends :
    (x : Context) (d : Event) (r : Room) (to : Delivery)
    → decide_hit_receipt x d ≡ relay r to
    → SpendsOne x d r
receipt_spends x d r to h =
    let fresh = receipt_is_fresh x d r to h in
    let rows = hit_ledger x.uid x.room in
    elim (Option-cases
      (take_hit d.source d.skill_property_id d.hit_result_status d.sequence_19_raw rows)) [
        | inr (left, found) ↦
            let same = ledger_left x d r to left fresh found in
            inl (
              rw same (
                take_hit-Spends d.source d.skill_property_id d.hit_result_status d.sequence_19_raw
                  rows left found))
        | inl nothing ↦
            let (left, found, three, kept, same) = death_left x d r to fresh nothing in
            let spent =
              take_death-Spends d.source d.skill_property_id d.sequence_19_raw
                (death_ledger x.uid x.room) left found in
            inr (three, kept, rw same spent)
      ]
