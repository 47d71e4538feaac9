-- ===== src/Tests/Wire.antt =====
-- Frames of the game connection, encoded and read.
use kungfukid_local_server.Base.{
  ◌≡◌, ◌≤◌, ◌+◌, refl, inl, none, some, [], ◌∷◌, ◌++◌, take, drop, length, true, false, arith,
}
use kungfukid_local_server.Base.Bytes.{Bytes}
use kungfukid_local_server.Base.Exec.{ok, raised}
use kungfukid_local_server.Wire.{Message}
use kungfukid_local_server.Wire.Frames.{
  encode_game, feed, drain, next_frame, read_frame, check_early, open_body, blocks, length_mask,
  max_frame,
}
use kungfukid_local_server.Wire.Blocks.{blocks-inverse}
use kungfukid_local_server.Wire.RoundTrip.{next_frame-encode_game}
use kungfukid_local_server.Wire.Stream.{prefixed, feed-append}
use kungfukid_local_server.Wire.Session.{IsSent, nothing, then_frame, feed_exhausts, feed_sent}

abbrev greeting : Message
greeting = record { id = 2010; payload = 7 ∷ 8 ∷ 9 ∷ [] }

abbrev frame : Bytes
unfolding encode_game blocks length_mask
frame = elim (encode_game greeting 3) [ raised _ ↦ [] | ok bytes ↦ bytes ]

-- the first chunk ends within a second frame
abbrev chunk : Bytes
chunk = frame ++ take 9 frame

chunk_read : feed none chunk [] ≡ (ok (greeting ∷ []), take 9 frame)
unfolding feed drain next_frame read_frame check_early open_body blocks length_mask frame
    encode_game
chunk_read = refl

feed-append_example :
    feed none (chunk ++ drop 9 frame) []
    ≡ prefixed (greeting ∷ []) (feed none (drop 9 frame) (take 9 frame))
unfolding frame
feed-append_example =
    feed-append none chunk (drop 9 frame) [] (take 9 frame) (greeting ∷ []) (omega arith) chunk_read

abbrev two_blocks : Bytes
two_blocks = 1 ∷ 2 ∷ 3 ∷ 4 ∷ 5 ∷ 6 ∷ 7 ∷ 255 ∷ 9 ∷ 0 ∷ 0 ∷ 0 ∷ 0 ∷ 0 ∷ 0 ∷ 128 ∷ []

abbrev sealed : Bytes
unfolding blocks
sealed = elim (blocks two_blocks 4 false) [ raised _ ↦ [] | ok bytes ↦ bytes ]

two_blocks-sealed : blocks two_blocks 4 false ≡ ok sealed
unfolding blocks sealed
two_blocks-sealed = refl

blocks-inverse_example : (blocks sealed 4 true ≡ ok two_blocks) × (length sealed ≡ 16)
blocks-inverse_example = blocks-inverse 4 two_blocks sealed (ground arith) two_blocks-sealed

greeting-frame : encode_game greeting 3 ≡ ok frame
unfolding encode_game blocks length_mask frame
greeting-frame = refl

next_frame-encode_game_example :
    next_frame none (frame ++ take 9 frame) ≡ ok (some (greeting, take 9 frame))
next_frame-encode_game_example =
    next_frame-encode_game greeting 3 frame (take 9 frame) (ground arith) (omega arith)
      (inl (omega arith)) greeting-frame

feed_exhausts_example : next_frame none (take 9 frame) ≡ ok none
unfolding frame
feed_exhausts_example =
    feed_exhausts none chunk [] (take 9 frame) (greeting ∷ []) (omega arith) chunk_read

greetings-IsSent : IsSent (greeting ∷ greeting ∷ []) (frame ++ (frame ++ []))
greetings-IsSent =
    then_frame greeting 3 frame (frame ++ []) (greeting ∷ []) (ground arith) (omega arith)
      (inl (omega arith)) greeting-frame
      (then_frame greeting 3 frame [] [] (ground arith) (omega arith) (inl (omega arith))
        greeting-frame nothing)

frames-bound : length (frame ++ (frame ++ [])) ≤ max_frame + 65536
unfolding frame
frames-bound = omega arith

feed_sent_example : feed none (frame ++ (frame ++ [])) [] ≡ (ok (greeting ∷ greeting ∷ []), [])
feed_sent_example =
    feed_sent (greeting ∷ greeting ∷ []) (frame ++ (frame ++ [])) frames-bound greetings-IsSent
