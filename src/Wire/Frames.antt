-- ===== src/Wire/Frames.antt =====
-- server/kk_local/wire.py: the blocks and the frames of the game connection.
use Prim.Native.Nat.{bit_and, bit_or, bit_xor}
use kungfukid_local_server.Base.{
  ℕ, zero, suc, ◌+◌, ◌-◌, ◌*◌, ◌/◌, ◌%◌, ◌^◌, Bool, true, false, not, ◌&&◌, ◌||◌, Option, none,
  some, List, [], ◌∷◌, ◌++◌, take, drop, length, ltb, leb, ◌==◌, if◌then◌else◌, replicate,
}
use kungfukid_local_server.Base.Bytes.{Bytes, from_le, to_le, slice, u16, u32}
use kungfukid_local_server.Base.Exec.{Result, ok, raised, Exec}
use kungfukid_local_server.Wire.{Message}

-- `KEYS`, each 8 letters as a little-endian number
abbrev pub keys : List ℕ
keys =
    7234524270285434928 ∷ 4621088386759274544 ∷ 4923353941963324988 ∷ 5999132469300965680
    ∷ 8296022434721447484 ∷ 8314897674167083364 ∷ 4483980270323118128 ∷ 4629739055506931260
    ∷ 4923385897409524016 ∷ 3917695351128997436 ∷ 5281118383400840299 ∷ []

abbrev pub key_at : ℕ → List ℕ → Option ℕ
key_at n [] = none
key_at zero (k ∷ ks) = some k
key_at (suc n) (k ∷ ks) = key_at n ks

-- one block: three bits to the left, around, and the key
abbrev pub encode_block : ℕ → ℕ → ℕ
encode_block k v = bit_xor (bit_or (v * 8 % 2 ^ 64) (v / 2 ^ 61)) k

-- the key, and three bits to the right, around
abbrev pub decode_block : ℕ → ℕ → ℕ
decode_block k v = let w = bit_xor v k in bit_or (w / 8) (w * 2 ^ 61 % 2 ^ 64)

abbrev pub step_block : Bool → ℕ → ℕ → ℕ
step_block true k v = decode_block k v
step_block false k v = encode_block k v

-- the loop of `blocks` over `n` blocks
abbrev pub each_block : ℕ → Bool → ℕ → Bytes → Bytes
each_block zero decode k bytes = []
each_block (suc n) decode k bytes =
    to_le 8 (step_block decode k (from_le (take 8 bytes))) ++ each_block n decode k (drop 8 bytes)

-- `blocks(data, key, decode)`
unfoldable pub blocks : Bytes → ℕ → Bool → Result Bytes
blocks bytes key decode = elim (key_at key keys) [
  | none ↦ raised "invalid block key/alignment"
  | some k ↦
      if not (length bytes % 8 == 0)
      then raised "invalid block key/alignment"
      else ok (each_block (length bytes / 8) decode k bytes)
]

-- `(n + 7) & ~7`
abbrev pub aligned : ℕ → ℕ
aligned n = (n + 7) / 8 * 8

abbrev pub max_frame : ℕ
max_frame = 1024 * 1024

-- `(n ^ 0xbbcc) & 0x88aa`
unfoldable pub length_mask : ℕ → ℕ
length_mask n = bit_and (bit_xor n 0xbbcc) 0x88aa

-- `payload.ljust(n, b'\0')`
abbrev pub padded : ℕ → Bytes → Bytes
padded n payload = payload ++ replicate (n - length payload) 0

-- the frame around its inner part
abbrev pub frame_of : Bytes → Result Bytes
frame_of inner = elim (blocks inner 0 false) [
  | raised why ↦ raised why
  | ok body ↦
      ok (
        to_le 2 0xaaee
        ++ (to_le 2 (length_mask (length inner)) ++ (to_le 4 (length inner) ++ body)))
]

-- `encode_game(message, key)`; an id or a key that `struct` has no room for is no message
unfoldable pub encode_game : Message → ℕ → Result Bytes
encode_game m key =
    let n = aligned (length m.payload) in
    if ltb max_frame (n + 24) || leb (2 ^ 32) m.id
    then raised "frame too large or invalid ID"
    else elim (blocks (padded n m.payload) key false) [
      | raised why ↦ raised why
      | ok body ↦
          frame_of (
            to_le 4 m.id
            ++ (to_le 2 key ++ (to_le 4 (length m.payload) ++ (body ++ replicate 6 0))))
    ]

-- what a header validator may say of an id and a length
abbrev pub Validator : Type 0
Validator = Option (ℕ → ℕ → Result (Unit {0}))

-- the check of the first 16 bytes of the body, where there is a validator
unfoldable pub check_early : Validator → ℕ → Bytes → Result (Unit {0})
check_early none n buffer = ok tt
check_early (some validate) n buffer =
    if ltb (length buffer) 24 then ok tt else elim (blocks (slice 8 16 buffer) 0 true) [
      | raised why ↦ raised why
      | ok early ↦
          let size = u32 6 early in
          if not (16 + aligned size == n)
          then raised "inner length mismatch"
          else validate (u32 0 early) size
    ]

-- the message in the body of a frame of `n` bytes
unfoldable pub open_body : ℕ → Bytes → Result Message
open_body n body =
    let size = u32 6 body in
    if not (16 + aligned size == n)
    then raised "inner length mismatch"
    else elim (blocks (slice 10 (aligned size) body) (u16 4 body) true) [
      | raised why ↦ raised why
      | ok plain ↦
          let payload = take size plain in
          if (u32 0 body == 0) && not (length payload == 0)
          then raised "nonempty heartbeat"
          else ok (record { id = u32 0 body; payload = payload })
    ]

-- the frame of `n` bytes after its header, where it is complete
unfoldable pub read_frame : Validator → ℕ → Bytes → Result (Option (Message × Bytes))
read_frame validate n buffer = elim (check_early validate n buffer) [
  | raised why ↦ raised why
  | ok _ ↦
      if ltb (length buffer) (n + 8) then ok none else elim (blocks (slice 8 n buffer) 0 true) [
        | raised why ↦ raised why
        | ok body ↦ elim (open_body n body) [
          | raised why ↦ raised why
          | ok m ↦ ok (some (m, drop (n + 8) buffer))
        ]
      ]
]

-- one turn of the loop of `feed`: an error, no frame yet, or a message and the rest of the buffer
unfoldable pub next_frame : Validator → Bytes → Result (Option (Message × Bytes))
next_frame validate buffer =
    let n = u32 4 buffer in
    if ltb (length buffer) 8
    then ok none
    else if not (u16 0 buffer == 0xaaee)
        || (ltb n 16 || (not (n % 8 == 0) || ltb max_frame (n + 8)))
    then raised "invalid game header"
    else if not (u16 2 buffer == length_mask n)
    then raised "invalid game length mask"
    else read_frame validate n buffer

-- the loop of `feed`, with fuel; the messages before an error are lost with it, their frames are
-- out of the buffer
unfoldable pub drain : ℕ → Validator → Exec Bytes (List Message)
drain zero validate buffer = (ok [], buffer)
drain (suc fuel) validate buffer = elim (next_frame validate buffer) [
  | raised why ↦ (raised why, buffer)
  | ok none ↦ (ok [], buffer)
  | ok (some (m, rest)) ↦
      let (result, left) = drain fuel validate rest in
      elim result [ raised why ↦ (raised why, left) | ok ms ↦ (ok (m ∷ ms), left) ]
]

-- `GameDecoder.feed(bytes)`, on the decoder's buffer; each frame takes 24 bytes at least
unfoldable pub feed : Validator → Bytes → Exec Bytes (List Message)
feed validate bytes buffer =
    if ltb (max_frame + 65536) (length buffer + length bytes)
    then (raised "receive buffer limit", buffer)
    else drain (length (buffer ++ bytes)) validate (buffer ++ bytes)
