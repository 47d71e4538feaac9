-- ===== src/Wire/RoundTrip.antt =====
-- A frame that was encoded is read as the message that it was made of.
use Prim.Native.Nat.{bit_and, bit_xor, bit_and-bitwise, digits}
use kungfukid_local_server.Base.{
  ℕ, zero, suc, ◌+◌, ◌-◌, ◌/◌, ◌%◌, ◌^◌, ◌≤◌, ◌<◌, ◌≡◌, ◌≢◌, ◌∙◌, refl, sym, ap, true, false, ◌⊎◌,
  inl, inr, none, some, ◌++◌, take, drop, length, length-append, replicate, min, arith, String,
}
use kungfukid_local_server.Base.Bytes.{Bytes, IsBytes, to_le, slice, u16, u32}
use kungfukid_local_server.Base.Exec.{Result, ok, raised}
use kungfukid_local_server.Wire.{Message}
use kungfukid_local_server.Wire.Frames.{
  encode_game, blocks, aligned, padded, length_mask, open_body, read_frame, next_frame, check_early,
  max_frame,
}
use kungfukid_local_server.Wire.Blocks.{
  blocks-inverse, blocks-IsBytes, append-IsBytes, to_le-IsBytes, from_le-to_le, take_whole,
  drop_whole,
}

abbrev and_digits : ℕ → ℕ → ℕ → ℕ
and_digits n a b = digits (λ b. zero) min n a b

and_digits-fuel : (n m a b : ℕ) → a ≤ n → a ≤ m → and_digits n a b ≡ and_digits m a b
and_digits-fuel zero zero a b p q = refl
and_digits-fuel zero (suc m) zero b p q = refl
and_digits-fuel zero (suc m) (suc a) b p q = absurd (omega arith)
and_digits-fuel (suc n) zero zero b p q = refl
and_digits-fuel (suc n) zero (suc a) b p q = absurd (omega arith)
and_digits-fuel (suc n) (suc m) zero b p q = refl
and_digits-fuel (suc n) (suc m) (suc a) b p q =
    omega (arith, and_digits-fuel n m (suc a / 2) (b / 2) (omega arith) (omega arith))

and_bound_fuel : (n a b : ℕ) → a ≤ n → bit_and a b ≤ b
and_bound_fuel n zero b p = omega (arith, bit_and-bitwise 0 b)
and_bound_fuel zero (suc a) b p = absurd (omega arith)
and_bound_fuel (suc n) (suc a) b p = omega (
  arith,
  bit_and-bitwise (suc a) b,
  bit_and-bitwise (suc a / 2) (b / 2),
  and_digits-fuel a (suc a / 2) (suc a / 2) (b / 2) (omega arith) (omega arith),
  and_bound_fuel n (suc a / 2) (b / 2) (omega arith),
)

mask-bound : (n : ℕ) → length_mask n < 65536
unfolding length_mask
mask-bound n =
    omega (arith, and_bound_fuel (bit_xor n 0xbbcc) (bit_xor n 0xbbcc) 0x88aa (omega arith))

length-replicate : (n : ℕ) → length {A = ℕ} (replicate n 0) ≡ n
length-replicate zero = refl
length-replicate (suc n) = omega (arith, length-replicate n)

zeros-IsBytes : (n : ℕ) → IsBytes (replicate n 0)
zeros-IsBytes zero = tt
zeros-IsBytes (suc n) = (omega arith, zeros-IsBytes n)

-- The inner part of a frame.
abbrev inner_of : Message → ℕ → Bytes → Bytes
inner_of m key body =
    to_le 4 m.id ++ (to_le 2 key ++ (to_le 4 (length m.payload) ++ (body ++ replicate 6 0)))

-- What `open_body` finds, from the fields that it reads.
open_fields :
    (m : Message) (key n : ℕ) (inner body plain : Bytes)
    → u32 0 inner ≡ m.id
    → u16 4 inner ≡ key
    → u32 6 inner ≡ length m.payload
    → slice 10 (aligned (length m.payload)) inner ≡ body
    → blocks body key true ≡ ok plain
    → take (length m.payload) plain ≡ m.payload
    → 16 + aligned (length m.payload) ≡ n
    → (m.id ≢ 0) ⊎ (length m.payload ≡ 0)
    → open_body n inner ≡ ok m
unfolding open_body
open_fields m key n inner body plain e₁ e₂ e₃ e₄ e₅ e₆ e₇ alive =
    rw (e₃, e₄, e₂, e₅, e₃, e₁, e₆) (ground arith)

-- The inner part is opened again.
open_inner :
    (m : Message) (key n : ℕ) (body : Bytes)
    → m.id < 2 ^ 32
    → key < 65536
    → length m.payload < 2 ^ 32
    → (m.id ≢ 0) ⊎ (length m.payload ≡ 0)
    → aligned (length m.payload) ≡ n
    → length body ≡ n
    → blocks body key true ≡ ok (padded n m.payload)
    → open_body (16 + n) (inner_of m key body) ≡ ok m
open_inner m key n body hid hkey hlen alive al size plain =
    let id_back : u32 0 (inner_of m key body) ≡ m.id = from_le-to_le 4 m.id hid in
    let key_back : u16 4 (inner_of m key body) ≡ key = from_le-to_le 2 key hkey in
    let len_back : u32 6 (inner_of m key body) ≡ length m.payload =
      from_le-to_le 4 (length m.payload) hlen in
    let cut : take n (body ++ replicate 6 0) ≡ body =
      ap (λ k. take k (body ++ replicate 6 0)) (sym size) ∙ take_whole body (replicate 6 0) in
    let part : slice 10 (aligned (length m.payload)) (inner_of m key body) ≡ body =
      ap (λ k. slice 10 k (inner_of m key body)) al ∙ cut in
    let back = take_whole m.payload (replicate (n - length m.payload) 0) in
    open_fields m key (16 + n) (inner_of m key body) body (padded n m.payload) id_back key_back
      len_back part plain back (omega arith) alive

-- A buffer that begins with a header of a sound length, and the frame's code behind it, is read.
frame_fields :
    (n : ℕ) (buffer code inner rest : Bytes) (m : Message)
    → 16 ≤ n
    → n % 8 ≡ 0
    → n + 8 ≤ max_frame
    → u16 0 buffer ≡ 0xaaee
    → u16 2 buffer ≡ length_mask n
    → u32 4 buffer ≡ n
    → n + 8 ≤ length buffer
    → slice 8 n buffer ≡ code
    → blocks code 0 true ≡ ok inner
    → open_body n inner ≡ ok m
    → drop (n + 8) buffer ≡ rest
    → next_frame none buffer ≡ ok (some (m, rest))
unfolding next_frame read_frame check_early
frame_fields n buffer code inner rest m big whole fits e₁ e₂ e₃ long e₄ e₅ e₆ e₇ =
    rw (e₃, e₁, e₂, e₄, e₅, e₃, e₆, e₃, e₇) (ground arith)

Result-cases :
    (r : Result Bytes) → ((bs : Bytes) × (r ≡ ok bs)) ⊎ ((why : String) × (r ≡ raised why))
Result-cases (ok bs) = inl (bs, refl)
Result-cases (raised why) = inr (why, refl)

-- The frame around an inner part.
abbrev wrapped : ℕ → Bytes → Bytes
wrapped n code = to_le 2 0xaaee ++ (to_le 2 (length_mask n) ++ (to_le 4 n ++ code))

-- What a message that can be encoded is encoded to.
encode-parts :
    (m : Message) (key : ℕ) (frame : Bytes)
    → encode_game m key ≡ ok frame
    → (body : Bytes) × (code : Bytes) × (m.id < 2 ^ 32)
      × (aligned (length m.payload) + 24 ≤ max_frame)
      × (blocks (padded (aligned (length m.payload)) m.payload) key false ≡ ok body)
      × (blocks (inner_of m key body) 0 false ≡ ok code)
      × (frame ≡ wrapped (length (inner_of m key body)) code)
unfolding encode_game
encode-parts m key frame h =
    elim (Result-cases (blocks (padded (aligned (length m.payload)) m.payload) key false)) [
      | inr (why, no_body) ↦ absurd (ground arith)
      | inl (body, e) ↦ elim (Result-cases (blocks (inner_of m key body) 0 false)) [
        | inr (why, no_code) ↦ absurd (ground arith)
        | inl (code, e') ↦ (body, code, ground arith, ground arith, e, e', ground arith)
      ]
    ]

inner-IsBytes :
    (m : Message) (key : ℕ) (body : Bytes) → IsBytes body → IsBytes (inner_of m key body)
inner-IsBytes m key body bytes =
    let tail = body ++ replicate {A = ℕ} 6 0 in
    let sized = to_le 4 (length m.payload) ++ tail in
    append-IsBytes (to_le 4 m.id) (to_le 2 key ++ sized) (to_le-IsBytes 4 m.id) (
      append-IsBytes (to_le 2 key) sized (to_le-IsBytes 2 key) (
        append-IsBytes (to_le 4 (length m.payload)) tail (to_le-IsBytes 4 (length m.payload))
          (append-IsBytes body (replicate 6 0) bytes (zeros-IsBytes 6))))

length-inner :
    (m : Message) (key : ℕ) (body : Bytes) → length (inner_of m key body) ≡ 16 + length body
length-inner m key body = omega (arith, length-append body (replicate 6 0))

-- The header of a frame, and what is behind it.
wrapped_fields :
    (n : ℕ) (code more : Bytes)
    → n < 2 ^ 32
    → length code ≡ n
    → let buffer = wrapped n code ++ more in
      (u16 2 buffer ≡ length_mask n)
      × (u32 4 buffer ≡ n)
      × (slice 8 n buffer ≡ code)
      × (drop (n + 8) buffer ≡ more)
      × (n + 8 ≤ length buffer)
wrapped_fields n code more small size = (
  from_le-to_le 2 (length_mask n) (mask-bound n),
  from_le-to_le 4 n small,
  ap (λ k. take k (code ++ more)) (sym size) ∙ take_whole code more,
  ap (λ k. drop k (wrapped n code ++ more)) (sym total) ∙ drop_whole (wrapped n code) more,
  omega (arith, total, length-append (wrapped n code) more),
)
  where
    total : length (wrapped n code) ≡ n + 8
    total = omega arith

padded-length : (n : ℕ) (payload : Bytes) → length payload ≤ n → length (padded n payload) ≡ n
padded-length n payload h = omega (
  arith,
  length-append payload (replicate (n - length payload) 0),
  length-replicate (n - length payload),
)

padded-IsBytes : (n : ℕ) (payload : Bytes) → IsBytes payload → IsBytes (padded n payload)
padded-IsBytes n payload h =
    append-IsBytes payload (replicate (n - length payload) 0) h (zeros-IsBytes (n - length payload))

-- A message of bytes that could be encoded under a key of 16 bits, other than a heartbeat with a
-- payload, is read back from its frame, whatever follows it in the buffer, and exactly the frame is
-- taken out of the buffer.
pub next_frame-encode_game :
    (m : Message) (key : ℕ) (frame more : Bytes)
    → IsBytes m.payload
    → key < 65536
    → (m.id ≢ 0) ⊎ (length m.payload ≡ 0)
    → encode_game m key ≡ ok frame
    → next_frame none (frame ++ more) ≡ ok (some (m, more))
next_frame-encode_game m key frame more bytes hkey alive h =
    let n = aligned (length m.payload) in
    let (body, code, hid, fits, sealed, wrapped_up, same) = encode-parts m key frame h in
    let (plain, body_size) =
      blocks-inverse key (padded n m.payload) body (padded-IsBytes n m.payload bytes) sealed in
    let pad = padded-length n m.payload (omega arith) in
    let body_bytes = blocks-IsBytes key (padded n m.payload) body sealed in
    let (opened, code_size) =
      blocks-inverse 0 (inner_of m key body) code (inner-IsBytes m key body body_bytes)
        wrapped_up in
    let inner_size : length (inner_of m key body) ≡ 16 + n =
      length-inner m key body ∙ omega arith in
    let frame_is : frame ≡ wrapped (16 + n) code = same ∙ ap (λ k. wrapped k code) inner_size in
    let (mask, size, part, rest, long) =
      wrapped_fields (16 + n) code more (omega arith) (omega arith) in
    let message = open_inner m key n body hid hkey (omega arith) alive refl (omega arith) plain in
    rw frame_is (
      frame_fields (16 + n) (wrapped (16 + n) code ++ more) code (inner_of m key body) more m
        (omega arith) (omega arith) (omega arith) refl mask size long part opened message rest)
