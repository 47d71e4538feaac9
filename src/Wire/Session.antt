-- ===== src/Wire/Session.antt =====
-- server/kk_local/wire.py: a whole stream of frames, from the messages that were sent to those received.
use kungfukid_local_server.Base.{
  ℕ, zero, suc, ◌+◌, ◌-◌, ◌≤◌, ◌<◌, ◌≡◌, ◌≢◌, ◌∙◌, refl, sym, ap, ◌⊎◌, inl, inr, none, List, [],
  ◌∷◌, ◌++◌, length, arith,
}
use kungfukid_local_server.Base.Bytes.{Bytes, IsBytes}
use kungfukid_local_server.Base.Exec.{Result, ok}
use kungfukid_local_server.Wire.{Message}
use kungfukid_local_server.Wire.Frames.{Validator, encode_game, next_frame, drain, feed, max_frame}
use kungfukid_local_server.Wire.RoundTrip.{next_frame-encode_game}
use kungfukid_local_server.Wire.Stream.{
  frame-cases, frame-short, frame-append, drain-zero, drain-raised, drain-none, drain-some,
  prefixed, prefixed-ok, feed-drain,
}

drain-exhausts :
    (f : ℕ) (v : Validator) (buffer left : Bytes) (ms : List Message)
    → length buffer ≤ f
    → drain f v buffer ≡ (ok ms, left)
    → next_frame v left ≡ ok none
drain-exhausts zero v buffer left ms enough given =
    let same : buffer ≡ left =
      ap (λ (p : Result (List Message) × Bytes). p.1)
        (sym (drain-zero zero v buffer (omega arith)) ∙ given) in
    ap (next_frame v) (sym same) ∙ frame-short v buffer (omega arith)
drain-exhausts (suc f) v buffer left ms enough given = elim (frame-cases (next_frame v buffer)) [
  | inl (why, found) ↦ absurd (let e = drain-raised f v buffer why found in ground arith)
  | inr (inl found) ↦
      let same : buffer ≡ left =
        ap (λ (p : Result (List Message) × Bytes). p.1)
          (sym (drain-none f v buffer found) ∙ given) in
      ap (next_frame v) (sym same) ∙ found
  | inr (inr (m, rest, found)) ↦
      let (_, shorter) = frame-append v buffer [] rest m found in
      let (ms', read, _) =
        prefixed-ok m ms left (drain f v rest) (sym (drain-some f v buffer m rest found) ∙ given) in
      drain-exhausts f v rest left ms' (omega arith) read
]

-- When a chunk has been taken in without an error, no complete frame is left in the buffer: the fuel of the
-- loop never ends it.
pub feed_exhausts :
    (v : Validator) (chunk buffer left : Bytes) (ms : List Message)
    → length buffer + length chunk ≤ max_frame + 65536
    → feed v chunk buffer ≡ (ok ms, left)
    → next_frame v left ≡ ok none
feed_exhausts v chunk buffer left ms fits given =
    drain-exhausts (length (buffer ++ chunk)) v (buffer ++ chunk) left ms (omega arith)
      (sym (feed-drain v chunk buffer fits) ∙ given)

-- the frames of a list of messages, one after another, each under a key of its own
pub data IsSent : List Message → Bytes → Type 0 where
  nothing : IsSent [] []
  then_frame :
      (m : Message) (key : ℕ) (frame bytes : Bytes) (ms : List Message)
      → IsBytes m.payload
      → key < 65536
      → (m.id ≢ 0) ⊎ (length m.payload ≡ 0)
      → encode_game m key ≡ ok frame
      → IsSent ms bytes
      → IsSent (m ∷ ms) (frame ++ bytes)

sent-drain :
    (f : ℕ) (ms : List Message) (bytes : Bytes)
    → length bytes ≤ f
    → IsSent ms bytes
    → drain f none bytes ≡ (ok ms, [])
sent-drain f ms bytes enough nothing = drain-zero f none [] refl
sent-drain f ms bytes enough (then_frame m key frame rest ms' payload small alive made sent) =
    let read = next_frame-encode_game m key frame rest payload small alive made in
    let (_, shorter) = frame-append none (frame ++ rest) [] rest m read in
    let one_more : f ≡ suc (f - 1) = omega (arith, enough, shorter) in
    ap (λ g. drain g none (frame ++ rest)) one_more
    ∙ (drain-some (f - 1) none (frame ++ rest) m rest read
        ∙ ap (prefixed (m ∷ []))
            (sent-drain (f - 1) ms' rest (omega (arith, enough, shorter)) sent))

-- What was sent as messages, each encoded in a frame, is received as just these messages, in their order,
-- and nothing is left over, where the whole keeps the limit of the receive buffer.
pub feed_sent :
    (ms : List Message) (bytes : Bytes)
    → length bytes ≤ max_frame + 65536
    → IsSent ms bytes
    → feed none bytes [] ≡ (ok ms, [])
feed_sent ms bytes fits sent =
    feed-drain none bytes [] (omega (arith, fits))
    ∙ sent-drain (length bytes) ms bytes (omega arith) sent
