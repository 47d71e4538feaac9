-- ===== src/Wire/Blocks.antt =====
-- Blocks that are encoded and decoded with the same key.
use kungfukid_local_server.Base.{
  ℕ, zero, suc, ◌+◌, ◌*◌, ◌/◌, ◌%◌, ◌^◌, ◌≤◌, ◌<◌, ◌≡◌, ◌∙◌, refl, ap, Bool, true, false, some,
  List, [], ◌∷◌, ◌++◌, take, drop, length, length-drop, length-take, All, arith, Option-cases, inl,
  inr,
}
use kungfukid_local_server.Base.Bytes.{Bytes, IsBytes, from_le, to_le}
use kungfukid_local_server.Base.Exec.{ok}
use kungfukid_local_server.Wire.Frames.{
  keys, key_at, blocks, each_block, encode_block, decode_block,
}
use kungfukid_local_server.Wire.Bits.{block_round}

-- `256 ^ n`
abbrev pub limit : ℕ → ℕ
limit zero = 1
limit (suc n) = 256 * limit n

pub from_le-to_le : (n v : ℕ) → v < limit n → from_le (to_le n v) ≡ v
from_le-to_le zero v h = omega arith
from_le-to_le (suc n) v h = omega (arith, from_le-to_le n (v / 256) (omega arith))

from_le-bound : (bs : Bytes) → IsBytes bs → from_le bs < limit (length bs)
from_le-bound [] h = omega arith
from_le-bound (b ∷ bs) (small, rest) = omega (arith, from_le-bound bs rest)

to_le-from_le : (bs : Bytes) → IsBytes bs → to_le (length bs) (from_le bs) ≡ bs
to_le-from_le [] h = refl
to_le-from_le (b ∷ bs) (small, rest) =
    let head : (b + 256 * from_le bs) % 256 ≡ b = omega arith in
    let tail : (b + 256 * from_le bs) / 256 ≡ from_le bs = omega arith in
    rw (head, tail) (ap (λ l. b ∷ l) (to_le-from_le bs rest))

take-IsBytes : (n : ℕ) (bs : Bytes) → IsBytes bs → IsBytes (take n bs)
take-IsBytes zero bs h = tt
take-IsBytes (suc n) [] h = tt
take-IsBytes (suc n) (b ∷ bs) (small, rest) = (small, take-IsBytes n bs rest)

drop-IsBytes : (n : ℕ) (bs : Bytes) → IsBytes bs → IsBytes (drop n bs)
drop-IsBytes zero bs h = h
drop-IsBytes (suc n) [] h = tt
drop-IsBytes (suc n) (b ∷ bs) (small, rest) = drop-IsBytes n bs rest

take-drop : (n : ℕ) (bs : Bytes) → take n bs ++ drop n bs ≡ bs
take-drop zero bs = refl
take-drop (suc n) [] = refl
take-drop (suc n) (b ∷ bs) = ap (λ l. b ∷ l) (take-drop n bs)

pub take_whole : (xs ys : Bytes) → take (length xs) (xs ++ ys) ≡ xs
take_whole [] ys = refl
take_whole (x ∷ xs) ys = ap (λ l. x ∷ l) (take_whole xs ys)

pub drop_whole : (xs ys : Bytes) → drop (length xs) (xs ++ ys) ≡ ys
drop_whole [] ys = refl
drop_whole (x ∷ xs) ys = drop_whole xs ys

length-each_block :
    (n : ℕ) (decode : Bool) (k : ℕ) (bs : Bytes) → length (each_block n decode k bs) ≡ n * 8
length-each_block zero decode k bs = refl
length-each_block (suc n) decode k bs = omega (arith, length-each_block n decode k (drop 8 bs))

-- The first block of a list of `suc n` blocks.
first_block :
    (k : ℕ) (bs rest : Bytes)
    → k < 2 ^ 64
    → IsBytes bs
    → 8 ≤ length bs
    → let code = to_le 8 (encode_block k (from_le (take 8 bs))) in
      (to_le 8 (decode_block k (from_le (take 8 (code ++ rest)))) ≡ take 8 bs)
      × (drop 8 (code ++ rest) ≡ rest)
first_block k bs rest hk bytes long =
    let block = take 8 bs in
    let v = from_le block in
    let e = encode_block k v in
    let size : length block ≡ 8 = omega (arith, length-take 8 bs) in
    let ok_block = take-IsBytes 8 bs bytes in
    let bound = from_le-bound block ok_block in
    let small : v < 2 ^ 64 = rw size at bound in
    let again = to_le-from_le block ok_block in
    let (back, fits) = block_round k v hk small in
    let head : take 8 (to_le 8 e ++ rest) ≡ to_le 8 e = take_whole (to_le 8 e) rest in
    let value : from_le (take 8 (to_le 8 e ++ rest)) ≡ e =
      ap from_le head ∙ from_le-to_le 8 e fits in
    let whole : to_le 8 v ≡ block = rw size at again in
    (
      ap (λ x. to_le 8 (decode_block k x)) value ∙ (ap (to_le 8) back ∙ whole),
      drop_whole (to_le 8 e) rest,
    )

each_block-inverse :
    (n k : ℕ) (bs : Bytes)
    → k < 2 ^ 64
    → IsBytes bs
    → length bs ≡ n * 8
    → each_block n true k (each_block n false k bs) ≡ bs
each_block-inverse zero k [] hk bytes size = refl
each_block-inverse zero k (b ∷ bs) hk bytes size = absurd (omega arith)
each_block-inverse (suc n) k bs hk bytes size =
    let rest = each_block n false k (drop 8 bs) in
    let (head, tail) = first_block k bs rest hk bytes (omega arith) in
    let ih =
      each_block-inverse n k (drop 8 bs) hk (drop-IsBytes 8 bs bytes)
        (omega (arith, length-drop 8 bs)) in
    ap
      (λ l.
        l ++ each_block n true k (drop 8 (to_le 8 (encode_block k (from_le (take 8 bs))) ++ rest)))
      head
    ∙ (ap (λ l. take 8 bs ++ each_block n true k l) tail
        ∙ (ap (λ l. take 8 bs ++ l) ih ∙ take-drop 8 bs))

key_at-bound :
    (n k : ℕ) (ks : List ℕ) → All (λ x. x < 2 ^ 64) ks → key_at n ks ≡ some k → k < 2 ^ 64
key_at-bound n k [] all h = absurd (ground arith)
key_at-bound zero k (x ∷ xs) (small, all) h = ground arith
key_at-bound (suc n) k (x ∷ xs) (small, all) h = key_at-bound n k xs all h

keys-bound : All (λ x. x < 2 ^ 64) keys
keys-bound = (
  omega arith,
  (
    omega arith,
    (
      omega arith,
      (
        omega arith,
        (
          omega arith,
          (
            omega arith,
            (omega arith, (omega arith, (omega arith, (omega arith, (omega arith, tt))))),
          ),
        ),
      ),
    ),
  ),
)

encoded :
    (key : ℕ) (bs code : Bytes)
    → blocks bs key false ≡ ok code
    → (k : ℕ) × (key_at key keys ≡ some k)
      × (length bs % 8 ≡ 0)
      × (code ≡ each_block (length bs / 8) false k bs)
unfolding blocks
encoded key bs code h = elim (Option-cases (key_at key keys)) [
  | inl none_such ↦ absurd (ground arith)
  | inr (k, found) ↦ (k, found, ground arith, ground arith)
]

decoded :
    (key k : ℕ) (code : Bytes)
    → key_at key keys ≡ some k
    → length code % 8 ≡ 0
    → blocks code key true ≡ ok (each_block (length code / 8) true k code)
unfolding blocks
decoded key k code found whole = ground arith

-- Bytes that were encoded under a key, and so are whole blocks, have the same length encoded, and
-- decoding under the same key gives them back.
pub blocks-inverse :
    (key : ℕ) (bs code : Bytes)
    → IsBytes bs
    → blocks bs key false ≡ ok code
    → (blocks code key true ≡ ok bs) × (length code ≡ length bs)
blocks-inverse key bs code bytes h =
    let (k, found, whole, same) = encoded key bs code h in
    let n = length bs / 8 in
    let size : length code ≡ n * 8 = ap length same ∙ length-each_block n false k bs in
    let count : length code / 8 ≡ n = omega arith in
    let back =
      each_block-inverse n k bs (key_at-bound key k keys keys-bound found) bytes (omega arith) in
    (
      decoded key k code found (omega arith)
          ∙ ap ok
              (ap (λ m. each_block m true k code) count ∙ (ap (each_block n true k) same ∙ back)),
      omega arith,
    )

pub append-IsBytes : (xs ys : Bytes) → IsBytes xs → IsBytes ys → IsBytes (xs ++ ys)
append-IsBytes [] ys h k = k
append-IsBytes (x ∷ xs) ys (small, h) k = (small, append-IsBytes xs ys h k)

pub to_le-IsBytes : (n v : ℕ) → IsBytes (to_le n v)
to_le-IsBytes zero v = tt
to_le-IsBytes (suc n) v = (omega arith, to_le-IsBytes n (v / 256))

each_block-IsBytes : (n k : ℕ) (bs : Bytes) → IsBytes (each_block n false k bs)
each_block-IsBytes zero k bs = tt
each_block-IsBytes (suc n) k bs =
    append-IsBytes (to_le 8 (encode_block k (from_le (take 8 bs))))
      (each_block n false k (drop 8 bs)) (to_le-IsBytes 8 (encode_block k (from_le (take 8 bs))))
      (each_block-IsBytes n k (drop 8 bs))

-- What is encoded is bytes.
pub blocks-IsBytes : (key : ℕ) (bs code : Bytes) → blocks bs key false ≡ ok code → IsBytes code
blocks-IsBytes key bs code h =
    let (k, found, whole, same) = encoded key bs code h in
    rw same (each_block-IsBytes (length bs / 8) k bs)
