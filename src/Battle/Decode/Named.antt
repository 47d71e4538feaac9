-- ===== src/Battle/Decode/Named.antt =====
-- What a decoded message names: its id, and the player of a state.
use mathlib.Core.Path.{subst}
use kungfukid_local_server.Base.{
  ◌*◌, length, ℕ, ◌≡◌, ◌∙◌, refl, sym, ap, Bool, true, false, Option, none, some, List, [], ◌∷◌,
  ◌++◌, any, String, ◌==◌, if◌then◌else◌, not, ltb, all, ◌&&◌, ◌||◌, arith, nat_eq,
}
use kungfukid_local_server.Base.Bytes.{Bytes, slice, u8, u32, u64}
use kungfukid_local_server.Base.Dict.{lookup}
use kungfukid_local_server.Base.Fallible.{ok_inj, guard-cases}
use kungfukid_local_server.Base.Exec.{Result, ok, raised}
use kungfukid_local_server.Battle.Event.{Event, header}
use kungfukid_local_server.Battle.Decode.{
  battle_lengths, decode_battle, decode_body, decode_action, decode_mode, decode_object, finite,
  is_finite, floats, matrix,
}

-- a result that is an event of this id, if it is one
data Keeps (id : ℕ) : Result Event → Type 0 where
  kept : (d : Event) → d.id ≡ id → Keeps id (ok d)
  refused : (why : String) → Keeps id (raised why)

if-Keeps :
    (id : ℕ) (c : Bool) (a b : Result Event)
    → Keeps id a
    → Keeps id b
    → Keeps id (if c then a else b)
if-Keeps id true a b h k = h
if-Keeps id false a b h k = k

finite-Keeps :
    (id : ℕ) (offsets : List ℕ) (p : Bytes) (e : Event) → e.id ≡ id → Keeps id (finite offsets p e)
finite-Keeps id offsets p e is =
    if-Keeps id (all (λ i. is_finite (u32 i p)) offsets) (ok e) (raised "nonfinite battle value")
      (kept e is) (refused "nonfinite battle value")

action-Keeps : (p : Bytes) (e : Event) → Keeps e.id (decode_action p e)
unfolding decode_action
action-Keeps p e =
    if-Keeps e.id (e.id == 0x1fb8) _ _
      (finite-Keeps e.id (floats 51 3 ++ (floats 63 3 ++ floats 87 2)) p _ refl)
      (if-Keeps e.id (e.id == 0x1fb9) _ _ (finite-Keeps e.id (67 ∷ floats 72 3) p _ refl) (
        if-Keeps e.id (e.id == 8126) _ _ (kept _ refl) (
          if-Keeps e.id ((e.id == 8122) || (e.id == 8125)) _ _ (kept _ refl) (
            if-Keeps e.id (e.id == 8142) _ _ (kept _ refl) (
              if-Keeps e.id (e.id == 8127) _ _ (finite-Keeps e.id (51 ∷ []) p _ refl) (
                if-Keeps e.id (e.id == 8143) _ _ (kept _ refl) (
                  if-Keeps e.id (e.id == 8144) _ _
                    (finite-Keeps e.id (floats 55 6 ++ floats 83 6) p _ refl)
                    (if-Keeps e.id (e.id == 0x1fcc) _ _ (finite-Keeps e.id (floats 63 3) p _ refl)
                      (if-Keeps e.id (e.id == 0x1fd6) _ _ (kept _ refl) (kept _ refl))))))))))

mode-Keeps : (p : Bytes) (e : Event) → Keeps e.id (decode_mode p e)
unfolding decode_mode
mode-Keeps p e = if-Keeps e.id (e.id == 8270) _ _ (finite-Keeps e.id (floats 55 8) p _ refl) (
    if-Keeps e.id (e.id == 8280) _ _ (kept _ refl) (
      if-Keeps e.id (e.id == 8284) _ _ (kept _ refl) (
        if-Keeps e.id (e.id == 8276) _ _ (kept _ refl) (
          if-Keeps e.id (e.id == 8155) _ _ (kept _ refl) (
            if-Keeps e.id (e.id == 8157) _ _ (kept _ refl) (
              if-Keeps e.id (e.id == 8287) _ _ (finite-Keeps e.id (floats 51 3) p _ refl) (
                if-Keeps e.id (e.id == 8288) _ _ (kept _ refl) (
                  if-Keeps e.id (e.id == 8294) _ _ (kept _ refl) (
                    if-Keeps e.id (e.id == 8278) _ _ (kept _ refl) (
                      if-Keeps e.id (e.id == 8286) _ _ (kept _ refl)
                        (if-Keeps e.id (e.id == 8293) _ _ (kept _ refl) (kept _ refl))))))))))))

object-Keeps : (p : Bytes) (e : Event) → Keeps e.id (decode_object p e)
unfolding decode_object
object-Keeps p e =
    if-Keeps e.id (e.id == 8421) _ _
      (if-Keeps e.id (any (λ b. b == 0) (slice 39 32 p)) _ _
        (finite-Keeps e.id (matrix 75) p _ refl) (refused _))
      (if-Keeps e.id (e.id == 8452) _ _ (finite-Keeps e.id (floats 51 3) p _ refl) (
        if-Keeps e.id ((e.id == 9000) || ((e.id == 9001) || (e.id == 9002))) _ _ (kept _ refl) (
          if-Keeps e.id ((e.id == 9500) || ((e.id == 9501) || (e.id == 9502))) _ _ (kept _ refl) (
            if-Keeps e.id (e.id == 8400) _ _ (finite-Keeps e.id (matrix 55) p _ refl) (
              if-Keeps e.id (e.id == 8402) _ _ (finite-Keeps e.id (matrix 51) p _ refl) (
                if-Keeps e.id (e.id == 8401) _ _ (finite-Keeps e.id (matrix 47) p _ refl) (
                  if-Keeps e.id (e.id == 8403) _ _ (finite-Keeps e.id (matrix 47) p _ refl) (
                    if-Keeps e.id (e.id == 8404) _ _ (kept _ refl)
                      (if-Keeps e.id (e.id == 0x2062) _ _ (kept _ refl) (kept _ refl))))))))))

body-Keeps : (p : Bytes) (e : Event) → Keeps e.id (decode_body p e)
unfolding decode_body
body-Keeps p e =
    if-Keeps e.id (ltb e.id 8155) _ _ (action-Keeps p e) (
      if-Keeps e.id (ltb e.id 8298 && not (e.id == 0x2062)) _ _ (mode-Keeps p e) (object-Keeps p e))

-- the state of an 8150 is that of the player it names
abbrev NamesTarget : Result Event → Type 0
NamesTarget (ok d) = (d.attacker ≡ none) × (d.player ≡ some d.target)
NamesTarget (raised _) = Unit

state-target :
    (p : Bytes) (e : Event) → e.id ≡ 8150 → e.attacker ≡ none → NamesTarget (decode_body p e)
unfolding decode_body decode_action
state-target p e is vacant = rw is (vacant, refl)

decoded-target :
    (id : ℕ) (d : Event) (r : Result Event)
    → Keeps id r
    → (id ≡ 8150 → NamesTarget r)
    → elim r [ ok event ↦ ok (some event) | raised why ↦ raised why ] ≡ ok (some d)
    → d.id ≡ 8150
    → (d.attacker ≡ none) × (d.player ≡ some d.target)
decoded-target id d (ok event) (kept _ keeps) names given is =
    let same : event ≡ d =
      ap (λ o. elim o [ some y ↦ y | none ↦ event ]) (ok_inj (some event) (some d) given) in
    subst (λ (y : Event). (y.attacker ≡ none) × (y.player ≡ some y.target)) same
      (names (sym keeps ∙ (ap (λ (y : Event). y.id) same ∙ is)))
decoded-target id d (raised why) keeps names given is = ground (arith, given)

-- A decoded message about a state names the player whose state it is, and no attacker.
pub decode_battle-target :
    (p : Bytes) (d : Event)
    → decode_battle p ≡ ok (some d)
    → d.id ≡ 8150
    → (d.attacker ≡ none) × (d.player ≡ some d.target)
unfolding decode_battle
decode_battle-target p d given is =
    let (_, given₁) = guard-cases (ltb (1024 * 1024) (length p)) _ _ (some d) given in
    let (_, given₂) = guard-cases (ltb (length p) 39) _ _ (some d) given₁ in
    known (lookup (u32 0 p) battle_lengths) given₂
  where
    e : Event
    e = header (u32 0 p) (u64 4 p) (u8 12 p) (u8 13 p) (u32 15 p) (u32 19 p)

    known :
        (o : Option ℕ)
        → elim o [
          | none ↦ ok none
          | some size ↦
              if not (length p == size)
              then raised "known-layout length mismatch"
              else elim (decode_body p e) [ ok event ↦ ok (some event) | raised why ↦ raised why ]
        ]
          ≡ ok (some d)
        → (d.attacker ≡ none) × (d.player ≡ some d.target)
    known none given₃ = ground (arith, given₃)
    known (some size) given₃ =
        let (_, given₄) = guard-cases (not (length p == size)) _ _ (some d) given₃ in
        decoded-target (u32 0 p) d (decode_body p e) (body-Keeps p e)
          (λ id. state-target p e id refl) given₄ is
