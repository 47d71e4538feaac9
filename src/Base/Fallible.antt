-- ===== src/Base/Fallible.antt =====
-- Chains of fallible computations with no state.
use Prim.Native.String.{String}
use mathlib.Core.Bool.{Bool, true, false}
use mathlib.Core.Path.{◌≡◌, refl, ap}
use native.Mathlib.Omega.{arith}
use kungfukid_local_server.Base.Tests.{if◌then◌else◌}
use kungfukid_local_server.Base.Exec.{Result, ok, raised}

infixl 5 ◌>>=◌ ◌>>◌
abbrev pub ◌>>=◌ : {A B : Type 0} → Result A → (A → Result B) → Result B
ok a >>= f = f a
raised e >>= f = raised e

abbrev pub ◌>>◌ : {A B : Type 0} → Result A → Result B → Result B
m >> k = m >>= λ _. k

abbrev pub require : Bool → String → Result (Unit {0})
require true e = ok tt
require false e = raised e

pub ok_inj {ℓ} : {A : Type ℓ} (a b : A) → ok a ≡ ok b → a ≡ b
ok_inj a b e = ap (λ r. elim r [ ok c ↦ c | raised _ ↦ a ]) e

-- a guard that raises has let a result through
pub guard-cases {ℓ} :
    {A : Type ℓ} (b : Bool) (why : String) (rest : Result A) (a : A)
    → (if b then raised why else rest) ≡ ok a
    → (b ≡ false) × (rest ≡ ok a)
guard-cases true why rest a given = ground arith
guard-cases false why rest a given = (refl, given)

-- a chain that returns has returned from its first part
pub bind-cases :
    {A B : Type 0} (m : Result A) (f : A → Result B) (b : B)
    → (m >>= f) ≡ ok b
    → (a : A) × ((m ≡ ok a) × (f a ≡ ok b))
bind-cases (ok a) f b given = (a, (refl, given))
bind-cases (raised why) f b given = ground arith
