-- ===== src/Base/Exec.antt =====
-- Handlers that change a state and may raise: what was written before a raise stays written.
use Prim.Native.String.{String}
use mathlib.Core.Path.{◌≡◌, refl}
use mathlib.Core.Logic.{◌⊎◌, inl, inr}
use mathlib.Core.Bool.{Bool, true, false}
use mathlib.Core.Option.{Option, none, some}
use mathlib.Core.List.{List, [], ◌∷◌}

-- A returned value, or an exception with its message.
pub data Result {ℓ} (A : Type ℓ) : Type ℓ where
  ok : A → Result A
  raised : String → Result A

abbrev pub Exec : Type 0 → Type 0 → Type 0
Exec S A = S → Result A × S

module _ {S A : Type 0} where
  abbrev pub pure : A → Exec S A
  pure a s = (ok a, s)

  abbrev pub raise : String → Exec S A
  raise e s = (raised e, s)

  abbrev pub gets : (S → A) → Exec S A
  gets f s = (ok (f s), s)

  -- A computation that changes no state.
  abbrev pub lift : Result A → Exec S A
  lift r s = (r, s)

  abbrev pub or_raise : Option A → String → Exec S A
  or_raise none e s = (raised e, s)
  or_raise (some a) e s = (ok a, s)

infixl 5 ◌>>=◌ ◌>>◌
abbrev pub ◌>>=◌ : {S A B : Type 0} → Exec S A → (A → Exec S B) → Exec S B
◌>>=◌ m f s = let (r, s') = m s in elim r [ ok a ↦ f a s' | raised e ↦ (raised e, s') ]

abbrev pub ◌>>◌ : {S A B : Type 0} → Exec S A → Exec S B → Exec S B
m >> k = m >>= λ _. k

module _ {S : Type 0} where
  abbrev pub modify : (S → S) → Exec S (Unit {0})
  modify f s = (ok tt, f s)

  -- `require(condition, message)`
  abbrev pub require : Bool → String → Exec S (Unit {0})
  require true e s = (ok tt, s)
  require false e s = (raised e, s)

  -- `if c: m`
  abbrev pub when : Bool → Exec S (Unit {0}) → Exec S (Unit {0})
  when true m s = m s
  when false m s = (ok tt, s)

  -- `for x in xs: m(x)`
  abbrev pub for_each : {A : Type 0} → List A → (A → Exec S (Unit {0})) → Exec S (Unit {0})
  for_each [] m s = (ok tt, s)
  for_each (x ∷ xs) m s =
      let (r, s') = m x s in elim r [ ok _ ↦ for_each xs m s' | raised e ↦ (raised e, s') ]

module _ {S A B : Type 0} where
  -- a chain stops in its first part, or goes on from where that has got
  pub chain-cases :
      (m : Exec S A) (f : A → Exec S B) (s : S)
      → (((m >>= f) s).1 ≡ (m s).1) ⊎ ((a : A) × (((m s).0 ≡ ok a) × (((m >>= f) s) ≡ f a (m s).1)))
  chain-cases m f s = go (m s)
    where
      go :
          (p : Result A × S)
          → let whole = elim p.0 as (λ _. Result B × S) [
            | ok a ↦ f a p.1
            | raised e ↦ (raised e, p.1)
          ] in
            (whole.1 ≡ p.1) ⊎ ((a : A) × ((p.0 ≡ ok a) × (whole ≡ f a p.1)))
      go (ok a, t) = inr (a, (refl, refl))
      go (raised e, t) = inl refl
