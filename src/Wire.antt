-- ===== src/Wire.antt =====
-- server/kk_local/wire.py: the messages of the game connection, and their frames.
pub mod Frames
pub mod Stream
pub mod Bits
pub mod Blocks
pub mod RoundTrip
pub mod Session
use kungfukid_local_server.Base.{ℕ}
use kungfukid_local_server.Base.Bytes.{Bytes}

pub record Message : Type 0 where
  pub id : ℕ
  pub payload : Bytes
