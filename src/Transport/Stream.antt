-- ===== src/Transport/Stream.antt =====
-- The stream under a channel, which is not part of the program: its answers to the calls, in order,
-- are arguments of the model. A call that no answer is left for waits beyond its deadline.
use assuan_library_rs.Prelude.{ℕ, List, [], ◌∷◌, ◌++◌, Bytes}

-- The answers to a read; no bytes are the end of the input.
pub data Read : Type 0 where
  got : Bytes → Read
  read_failed read_stalled : Read

-- The answers to writing some bytes and flushing them; a failed or late call may have delivered a
-- part of them.
pub data Write : Type 0 where
  flushed : Write
  write_failed write_stalled : ℕ → Write

-- `delivered` is what the other end has been sent.
pub record Stream : Type 0 where
  pub reads : List Read
  pub writes : List Write
  pub delivered : Bytes

-- The bytes that the reads bring, up to the end of the input, a failure or a wait.
unfoldable pub arrives : List Read → Bytes
arrives (got (byte ∷ bytes) ∷ reads) = (byte ∷ bytes) ++ arrives reads
arrives (got [] ∷ reads) = []
arrives (read_failed ∷ reads) = []
arrives (read_stalled ∷ reads) = []
arrives [] = []
