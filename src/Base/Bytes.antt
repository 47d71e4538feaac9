-- ===== src/Base/Bytes.antt =====
-- Bytes as numbers below 256, and the little-endian fields of `struct`.
use Prim.Native.Nat.{ℕ, zero, suc, ◌+◌, ◌*◌, ◌/◌, ◌%◌, ◌<◌}
use mathlib.Core.Path.{◌≡◌, refl}
use mathlib.Core.Bool.{Bool, true, false, ◌&&◌}
use mathlib.Core.List.{List, [], ◌∷◌}
use native.Mathlib.Omega.{arith}
use kungfukid_local_server.Base.Lists.{take, drop, length, All}
use kungfukid_local_server.Base.Tests.{◌==◌}

abbrev pub Bytes : Type 0
Bytes = List ℕ

abbrev pub IsBytes : Bytes → Type 0
IsBytes bs = All (λ b. b < 256) bs

-- `int.from_bytes(bs, 'little')`
abbrev pub from_le : Bytes → ℕ
from_le [] = 0
from_le (b ∷ bs) = b + 256 * from_le bs

-- the low `n` bytes of `v`
abbrev pub to_le : ℕ → ℕ → Bytes
to_le zero v = []
to_le (suc n) v = (v % 256) ∷ to_le n (v / 256)

-- `data[i:i + n]`
abbrev pub slice : ℕ → ℕ → Bytes → Bytes
slice i n bs = take n (drop i bs)

-- `struct.unpack_from('<H', bs, i)` and its siblings; the callers have checked the length
abbrev pub u8 : ℕ → Bytes → ℕ
u8 i bs = from_le (slice i 1 bs)

abbrev pub u16 : ℕ → Bytes → ℕ
u16 i bs = from_le (slice i 2 bs)

abbrev pub u32 : ℕ → Bytes → ℕ
u32 i bs = from_le (slice i 4 bs)

abbrev pub u64 : ℕ → Bytes → ℕ
u64 i bs = from_le (slice i 8 bs)

pub length-to_le : (n v : ℕ) → length (to_le n v) ≡ n
length-to_le zero v = refl
length-to_le (suc n) v = omega (arith, length-to_le n (v / 256))

-- `a == b` on bytes
abbrev pub bytes_eq : Bytes → Bytes → Bool
bytes_eq [] [] = true
bytes_eq (a ∷ as') (b ∷ bs) = (a == b) && bytes_eq as' bs
bytes_eq _ _ = false
