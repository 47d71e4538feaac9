-- ===== src/Rooms/Forgotten.antt =====
-- What is left of a member that leaves a room, and who is its owner then.
use kungfukid_local_server.Base.{
  ℕ, ◌≡◌, ◌≢◌, refl, Bool, true, false, not, ◌||◌, inl, inr, none, List, [], ◌∷◌, arith, All,
  member, member-discard, keep_if, ◌==◌, if◌then◌else◌, nat_eq, pair_eq, Bool-cases,
}
use kungfukid_local_server.Base.Dict.{Dict, lookup, erase, filter_dict, map_values, lookup-erase}
use kungfukid_local_server.Hub.{Room, HitWitness, DeathWitness, Projectile}
use kungfukid_local_server.Rooms.Leave.{forget, drop_first}

lookup-drop_first :
    {V : Type 0} (uid a b : ℕ) (d : Dict (ℕ × ℕ) V)
    → lookup (a, b) (drop_first uid d) ≡ (if a == uid then none else lookup (a, b) d)
lookup-drop_first uid a b [] = ground arith
lookup-drop_first uid a b (((i, j), v) ∷ d) = ground (arith, lookup-drop_first uid a b d)

filter_dict-All :
    {V : Type 0} (p : ℕ → V → Bool) (d : Dict ℕ V)
    → All (λ entry. p entry.0 entry.1 ≡ true) (filter_dict p d)
filter_dict-All p [] = tt
filter_dict-All p ((k, v) ∷ d) = elim (Bool-cases (p k v)) [
  | inl kept ↦ rw kept (kept, filter_dict-All p d)
  | inr dropped ↦ rw dropped (filter_dict-All p d)
]

keep_if-All : {A : Type 0} (p : A → Bool) (xs : List A) → All (λ x. p x ≡ true) (keep_if p xs)
keep_if-All p [] = tt
keep_if-All p (x ∷ xs) = elim (Bool-cases (p x)) [
  | inl kept ↦ rw kept (kept, keep_if-All p xs)
  | inr dropped ↦ rw dropped (keep_if-All p xs)
]

map_values-All :
    {A : Type 0} (p : A → Bool) (d : Dict ℕ (List A))
    → All
        (λ entry. All (λ x. p x ≡ true) entry.1)
        (map_values {V = List A} (λ _ rows. keep_if p rows) d)
map_values-All p [] = tt
map_values-All p ((k, rows) ∷ d) = (keep_if-All p rows, map_values-All p d)

lookup-map_values :
    {A : Type 0} (p : A → Bool) (k : ℕ) (d : Dict ℕ (List A))
    → lookup k d ≡ none
    → lookup k (map_values {V = List A} (λ _ rows. keep_if p rows) d) ≡ none
lookup-map_values p k [] h = refl
lookup-map_values p k ((j, rows) ∷ d) h = ground (arith, lookup-map_values p k d)

-- `r` is `before` without what it held of `uid` in these tables, and with what it held of others.
pub record IsForgotten (uid : ℕ) (before r : Room) : Type 0 where
  pub no_member : lookup uid r.members ≡ none
  pub no_sequence : (lane : ℕ) → lookup (uid, lane) r.last_sequence ≡ none
  pub no_state : (code : ℕ) → lookup (uid, code) r.active_states ≡ none
  pub no_motion : lookup uid r.motion_payloads ≡ none
  pub no_request : lookup uid r.pickup_requests ≡ none
  pub no_chest : lookup uid r.chest_requests ≡ none
  pub no_reply : lookup uid r.result_replies ≡ none
  pub no_barrier :
      (member uid r.loaded ≡ false)
      × (member uid r.input_ready ≡ false)
      × (member uid r.result_acks ≡ false)
  pub no_asking : member uid r.result_requests ≡ false
  pub no_version : lookup uid r.pair_selection_versions ≡ none
  pub no_talisman :
      (code : ℕ)
      → (lookup (uid, code) r.talisman_pending ≡ none)
        × (lookup (uid, code) r.talisman_sequences ≡ none)
  pub no_cache : r.battle_dispatch_cache ≡ []
  pub no_projectile : All (λ (row : ℕ × Projectile). (row.1.owner == uid) ≡ false) r.projectiles
  pub no_selection :
      All (λ (row : ℕ × (ℕ × ℕ)). ((row.0 == uid) || (row.1.0 == uid)) ≡ false) r.pair_selections
  pub no_ledger :
      (lookup uid r.pending_hit_receipts ≡ none) × (lookup uid r.pending_death_receipts ≡ none)
  pub no_witness :
      All
        (λ (row : ℕ × List HitWitness). All (λ w. (w.source == uid) ≡ false) row.1)
        r.pending_hit_receipts
  pub no_death :
      All
        (λ (row : ℕ × List DeathWitness). All (λ w. (w.source == uid) ≡ false) row.1)
        r.pending_death_receipts
  pub others_stay :
      (other code : ℕ)
      → other ≢ uid
      → (lookup other r.members ≡ lookup other before.members)
        × (lookup (other, code) r.last_sequence ≡ lookup (other, code) before.last_sequence)
        × (lookup (other, code) r.active_states ≡ lookup (other, code) before.active_states)
        × (lookup other r.pickup_requests ≡ lookup other before.pickup_requests)
        × (member other r.loaded ≡ member other before.loaded)
        × (member other r.input_ready ≡ member other before.input_ready)
        × (member other r.result_acks ≡ member other before.result_acks)

All-map :
    {A : Type 0} {P Q : A → Type 0} (f : (a : A) → P a → Q a) (xs : List A) → All P xs → All Q xs
All-map f [] h = tt
All-map f (x ∷ xs) (p, ps) = (f x p, All-map f xs ps)

negated : (b : Bool) → not b ≡ true → b ≡ false
negated b h = ground arith

-- A room that forgets a member has it no more as a member, has no sequence number, state, motion,
-- pickup or chest request, result request or reply, selection version, talisman or receipt ledger under its
-- name, no mark of it at the barriers, no projectile of its own, no selection by it or of it, no witness of a
-- hit or a death with it as the source, and no cached decisions at all. Of any other member the place, the
-- sequence numbers, states and pickup requests, and the marks at the barriers stay as they were. Nothing
-- is said of the result reports, the series, and mentions in what others have.
pub forget-IsForgotten : (uid : ℕ) (r : Room) → IsForgotten uid r (forget uid r)
unfolding forget
forget-IsForgotten uid r = record {
  no_member = ground (arith, lookup-erase uid uid r.members);
  no_sequence = λ lane. ground (arith, lookup-drop_first uid uid lane r.last_sequence);
  no_state = λ code. ground (arith, lookup-drop_first uid uid code r.active_states);
  no_motion = ground (arith, lookup-erase uid uid r.motion_payloads);
  no_request = ground (arith, lookup-erase uid uid r.pickup_requests);
  no_chest = ground (arith, lookup-erase uid uid r.chest_requests);
  no_reply = ground (arith, lookup-erase uid uid r.result_replies);
  no_barrier = (
    ground (arith, member-discard uid uid r.loaded),
    ground (arith, member-discard uid uid r.input_ready),
    ground (arith, member-discard uid uid r.result_acks),
  );
  no_asking = ground (arith, member-discard uid uid r.result_requests);
  no_version = ground (arith, lookup-erase uid uid r.pair_selection_versions);
  no_talisman = λ code. (
    ground (arith, lookup-drop_first uid uid code r.talisman_pending),
    ground (arith, lookup-drop_first uid uid code r.talisman_sequences),
  );
  no_cache = refl;
  others_stay = λ other code apart. (
    ground (arith, apart, lookup-erase uid other r.members),
    ground (arith, apart, lookup-drop_first uid other code r.last_sequence),
    ground (arith, apart, lookup-drop_first uid other code r.active_states),
    ground (arith, apart, lookup-erase uid other r.pickup_requests),
    ground (arith, apart, member-discard other uid r.loaded),
    ground (arith, apart, member-discard other uid r.input_ready),
    ground (arith, apart, member-discard other uid r.result_acks),
  );
  no_projectile =
      All-map (λ row. negated (row.1.owner == uid)) _
        (filter_dict-All (λ _ (shot : Projectile). not (shot.owner == uid)) r.projectiles);
  no_selection =
      All-map (λ row. negated ((row.0 == uid) || (row.1.0 == uid))) _
        (filter_dict-All (λ first (s : ℕ × ℕ). not ((first == uid) || (s.0 == uid)))
          r.pair_selections);
  no_ledger = (
    lookup-map_values (λ (row : HitWitness). not (row.source == uid)) uid
        (erase uid r.pending_hit_receipts)
        (ground (arith, lookup-erase uid uid r.pending_hit_receipts)),
    lookup-map_values (λ (row : DeathWitness). not (row.source == uid)) uid
        (erase uid r.pending_death_receipts)
        (ground (arith, lookup-erase uid uid r.pending_death_receipts)),
  );
  no_witness =
      All-map (λ row. All-map (λ w. negated (w.source == uid)) row.1) _
        (map_values-All (λ (row : HitWitness). not (row.source == uid))
          (erase uid r.pending_hit_receipts));
  no_death =
      All-map (λ row. All-map (λ w. negated (w.source == uid)) row.1) _
        (map_values-All (λ (row : DeathWitness). not (row.source == uid))
          (erase uid r.pending_death_receipts));
}
