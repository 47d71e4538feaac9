-- ===== src/Wire/Stream.antt =====
-- The decoder reads a stream of frames the same however it is split into chunks.
use kungfukid_local_server.Base.{
  ℕ, zero, suc, ◌+◌, ◌-◌, ◌≤◌, ◌<◌, ◌≡◌, ◌∙◌, refl, sym, ap, false, ◌⊎◌, inl, inr, Option, none,
  some, List, [], ◌∷◌, ◌++◌, take, drop, length, length-append, length-drop, ltb, arith, Bool-cases,
  String,
}
use kungfukid_local_server.Base.Bytes.{Bytes, from_le, slice, u16, u32}
use kungfukid_local_server.Base.Exec.{Result, ok, raised}
use kungfukid_local_server.Wire.{Message}
use kungfukid_local_server.Wire.Frames.{
  Validator, check_early, read_frame, next_frame, drain, feed, max_frame,
}

take-append : (n : ℕ) (xs ys : Bytes) → n ≤ length xs → take n (xs ++ ys) ≡ take n xs
take-append zero xs ys h = refl
take-append (suc n) [] ys h = absurd (omega arith)
take-append (suc n) (x ∷ xs) ys h = ap (λ l. x ∷ l) (take-append n xs ys (omega arith))

drop-append : (n : ℕ) (xs ys : Bytes) → n ≤ length xs → drop n (xs ++ ys) ≡ drop n xs ++ ys
drop-append zero xs ys h = refl
drop-append (suc n) [] ys h = absurd (omega arith)
drop-append (suc n) (x ∷ xs) ys h = drop-append n xs ys (omega arith)

slice-append : (i n : ℕ) (xs ys : Bytes) → i + n ≤ length xs → slice i n (xs ++ ys) ≡ slice i n xs
slice-append i n xs ys h =
    rw (drop-append i xs ys (omega arith))
      (take-append n (drop i xs) ys (omega (arith, length-drop i xs)))

early-append :
    (v : Validator) (n : ℕ) (buffer more : Bytes)
    → 24 ≤ length buffer
    → check_early v n (buffer ++ more) ≡ check_early v n buffer
unfolding check_early
early-append none n buffer more h = refl
early-append (some validate) n buffer more h =
    let same = slice-append 8 16 buffer more (omega arith) in
    let longer = length-append buffer more in
    let open_a : ltb (length (buffer ++ more)) 24 ≡ false = ground arith in
    let open_b : ltb (length buffer) 24 ≡ false = ground arith in rw (open_a, open_b, same) refl

read-append :
    (v : Validator) (n : ℕ) (buffer more rest : Bytes) (m : Message)
    → 16 ≤ n
    → read_frame v n buffer ≡ ok (some (m, rest))
    → (read_frame v n (buffer ++ more) ≡ ok (some (m, rest ++ more)))
      × (length rest + 24 ≤ length buffer)
unfolding read_frame
read-append v n buffer more rest m big h = elim (Bool-cases (ltb (length buffer) (n + 8))) [
  | inl short ↦ absurd (ground arith)
  | inr whole ↦
      let long : n + 8 ≤ length buffer = ground arith in
      let same = slice-append 8 n buffer more (omega arith) in
      let early = early-append v n buffer more (omega arith) in
      let tail = drop-append (n + 8) buffer more long in
      let size = length-append buffer more in
      let left = length-drop (n + 8) buffer in
      let whole' : ltb (length (buffer ++ more)) (n + 8) ≡ false = ground arith in
      (ground arith, ground arith)
]

header-append :
    (buffer more : Bytes)
    → 8 ≤ length buffer
    → (u16 0 (buffer ++ more) ≡ u16 0 buffer)
      × (u16 2 (buffer ++ more) ≡ u16 2 buffer)
      × (u32 4 (buffer ++ more) ≡ u32 4 buffer)
header-append buffer more h = (
  ap from_le (slice-append 0 2 buffer more (omega arith)),
  ap from_le (slice-append 2 2 buffer more (omega arith)),
  ap from_le (slice-append 4 4 buffer more (omega arith)),
)

-- A buffer whose next frame is complete reads the same with more bytes behind it.
pub frame-append :
    (v : Validator) (buffer more rest : Bytes) (m : Message)
    → next_frame v buffer ≡ ok (some (m, rest))
    → (next_frame v (buffer ++ more) ≡ ok (some (m, rest ++ more)))
      × (length rest + 24 ≤ length buffer)
unfolding next_frame
frame-append v buffer more rest m h = elim (Bool-cases (ltb (length buffer) 8)) [
  | inl short ↦ absurd (ground arith)
  | inr header ↦
      let size = length-append buffer more in
      let (magic, mask, n) = header-append buffer more (ground arith) in
      let read : read_frame v (u32 4 buffer) buffer ≡ ok (some (m, rest)) = ground arith in
      let big : 16 ≤ u32 4 buffer = ground arith in
      let (again, left) = read-append v (u32 4 buffer) buffer more rest m big read in
      let header' : ltb (length (buffer ++ more)) 8 ≡ false = ground arith in
      (rw (magic, mask, n, header') (ground arith), left)
]

pub frame-short :
    (v : Validator) (buffer : Bytes) → length buffer < 8 → next_frame v buffer ≡ ok none
unfolding next_frame
frame-short v buffer h = ground arith

pub frame-cases :
    (r : Result (Option (Message × Bytes)))
    → ((why : String) × (r ≡ raised why))
      ⊎ (r ≡ ok none)
      ⊎ ((m : Message) × (rest : Bytes) × (r ≡ ok (some (m, rest))))
frame-cases (raised why) = inl (why, refl)
frame-cases (ok none) = inr (inl refl)
frame-cases (ok (some (m, rest))) = inr (inr (m, rest, refl))

-- What is read with the given messages before it.
abbrev pub prefixed : List Message → Result (List Message) × Bytes → Result (List Message) × Bytes
prefixed ms (raised why, left) = (raised why, left)
prefixed ms (ok more, left) = (ok (ms ++ more), left)

prefixed-nil : (x : Result (List Message) × Bytes) → prefixed [] x ≡ x
prefixed-nil (raised why, left) = refl
prefixed-nil (ok more, left) = refl

prefixed-cons :
    (m : Message) (ms : List Message) (x : Result (List Message) × Bytes)
    → prefixed (m ∷ ms) x ≡ prefixed (m ∷ []) (prefixed ms x)
prefixed-cons m ms (raised why, left) = refl
prefixed-cons m ms (ok more, left) = refl

module _ (f : ℕ) (v : Validator) (buffer : Bytes) where
  pub drain-raised :
      (why : String)
      → next_frame v buffer ≡ raised why
      → drain (suc f) v buffer ≡ (raised why, buffer)
  unfolding drain
  drain-raised why e = ground arith

  pub drain-none : next_frame v buffer ≡ ok none → drain (suc f) v buffer ≡ (ok [], buffer)
  unfolding drain
  drain-none e = ground arith

  pub drain-some :
      (m : Message) (rest : Bytes)
      → next_frame v buffer ≡ ok (some (m, rest))
      → drain (suc f) v buffer ≡ prefixed (m ∷ []) (drain f v rest)
  unfolding drain
  drain-some m rest e = ground arith

pub drain-zero :
    (g : ℕ) (v : Validator) (buffer : Bytes)
    → length buffer ≡ 0
    → drain g v buffer ≡ (ok [], buffer)
unfolding drain
drain-zero zero v buffer h = refl
drain-zero (suc g) v buffer h = drain-none g v buffer (frame-short v buffer (omega arith))

-- Fuel beyond the length of the buffer changes nothing.
pub drain-fuel :
    (f g : ℕ) (v : Validator) (buffer : Bytes)
    → length buffer ≤ f
    → length buffer ≤ g
    → drain f v buffer ≡ drain g v buffer
drain-fuel zero g v buffer hf hg =
    drain-zero zero v buffer (omega arith) ∙ sym (drain-zero g v buffer (omega arith))
drain-fuel (suc f) zero v buffer hf hg =
    drain-zero (suc f) v buffer (omega arith) ∙ sym (drain-zero zero v buffer (omega arith))
drain-fuel (suc f) (suc g) v buffer hf hg = elim (frame-cases (next_frame v buffer)) [
  | inl (why, e) ↦ drain-raised f v buffer why e ∙ sym (drain-raised g v buffer why e)
  | inr (inl e) ↦ drain-none f v buffer e ∙ sym (drain-none g v buffer e)
  | inr (inr (m, rest, e)) ↦
      let (_, shorter) = frame-append v buffer [] rest m e in
      drain-some f v buffer m rest e
      ∙ (ap (prefixed (m ∷ [])) (drain-fuel f g v rest (omega arith) (omega arith))
          ∙ sym (drain-some g v buffer m rest e))
]

pub prefixed-ok :
    (m : Message) (ms : List Message) (left : Bytes) (x : Result (List Message) × Bytes)
    → prefixed (m ∷ []) x ≡ (ok ms, left)
    → (rest : List Message) × (x ≡ (ok rest, left)) × (ms ≡ m ∷ rest)
prefixed-ok m ms left (raised why, l) h = absurd (ground arith)
prefixed-ok m ms left (ok more, l) h = (more, ground arith, ground arith)

-- What a first part of the stream left and gave, and then the rest, is what the whole gives.
drain-append :
    (f g : ℕ) (v : Validator) (buffer more left : Bytes) (ms : List Message)
    → length buffer ≤ f
    → length (buffer ++ more) ≤ g
    → drain f v buffer ≡ (ok ms, left)
    → (drain g v (buffer ++ more) ≡ prefixed ms (drain g v (left ++ more)))
      × (length left ≤ length buffer)
drain-append zero g v buffer more left ms hf hg e =
    let e' = drain-zero zero v buffer (omega arith) in
    let same : left ≡ buffer = cc in
    let nothing : ms ≡ [] = cc in
    (rw (same, nothing) (sym (prefixed-nil (drain g v (buffer ++ more)))), rw same (omega arith))
drain-append (suc f) g v buffer more left ms hf hg e = elim (frame-cases (next_frame v buffer)) [
  | inl (why, found) ↦ absurd (let e' = drain-raised f v buffer why found in ground arith)
  | inr (inl found) ↦
      let e' = drain-none f v buffer found in
      let same : left ≡ buffer = ground arith in
      let nothing : ms ≡ [] = ground arith in
      (rw (same, nothing) (sym (prefixed-nil (drain g v (buffer ++ more)))), rw same (omega arith))
  | inr (inr (m, rest, found)) ↦
      let h = g - 1 in
      let (again, shorter) = frame-append v buffer more rest m found in
      let (ms', read, cons) =
        prefixed-ok m ms left (drain f v rest) (sym (drain-some f v buffer m rest found) ∙ e) in
      let total = length-append buffer more in
      let part = length-append rest more in
      let tail = length-append left more in
      let (ih, less) = drain-append f h v rest more left ms' (omega arith) (omega arith) read in
      let one_more : g ≡ suc h = omega arith in
      let fuel = drain-fuel h g v (left ++ more) (omega arith) (omega arith) in
      (
        rw cons (
            ap (λ k. drain k v (buffer ++ more)) one_more
            ∙ (drain-some h v (buffer ++ more) m (rest ++ more) again
                ∙ (ap (prefixed (m ∷ [])) ih
                    ∙ (sym (prefixed-cons m ms' (drain h v (left ++ more)))
                        ∙ ap (prefixed (m ∷ ms')) fuel)))),
        omega arith,
      )
]

pub append_assoc : (xs ys zs : Bytes) → xs ++ (ys ++ zs) ≡ (xs ++ ys) ++ zs
append_assoc [] ys zs = refl
append_assoc (x ∷ xs) ys zs = ap (λ l. x ∷ l) (append_assoc xs ys zs)

pub feed-drain :
    (v : Validator) (chunk buffer : Bytes)
    → length buffer + length chunk ≤ max_frame + 65536
    → feed v chunk buffer ≡ drain (length (buffer ++ chunk)) v (buffer ++ chunk)
unfolding feed
feed-drain v chunk buffer fits = ground arith

-- A stream that comes in two chunks, of which the first was accepted, gives what it gives as one:
-- the same messages in the same order, the same error if there is one, and the same bytes left over
-- in the buffer; the whole must keep the limit of the receive buffer.
pub feed-append :
    (v : Validator) (a b buffer left : Bytes) (ms : List Message)
    → length buffer + (length a + length b) ≤ max_frame + 65536
    → feed v a buffer ≡ (ok ms, left)
    → feed v (a ++ b) buffer ≡ prefixed ms (feed v b left)
feed-append v a b buffer left ms fits e =
    let first = buffer ++ a in
    let assoc = append_assoc buffer a b in
    let n = length (first ++ b) in
    let la = length-append a b in
    let lf = length-append buffer a in
    let lb = length-append first b in
    let read = sym (feed-drain v a buffer (omega arith)) ∙ e in
    let (whole, less) =
      drain-append (length first) n v first b left ms (omega arith) (omega arith) read in
    let ll = length-append left b in
    let all_of : feed v (a ++ b) buffer ≡ drain n v (first ++ b) =
      feed-drain v (a ++ b) buffer (omega arith) ∙ ap (λ (l : Bytes). drain (length l) v l) assoc in
    let last : drain n v (left ++ b) ≡ feed v b left =
      drain-fuel n (length (left ++ b)) v (left ++ b) (omega arith) (omega arith)
      ∙ sym (feed-drain v b left (omega arith)) in
    all_of ∙ (whole ∙ ap (prefixed ms) last)
