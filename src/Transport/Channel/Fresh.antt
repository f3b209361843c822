-- ===== src/Transport/Channel/Fresh.antt =====
-- `Channel::new`.
use assuan_library_rs.Prelude.{ℕ, refl, [], length-replicate, arith}
use assuan_library_rs.Protocol.Encode.{max_line_bytes}
use assuan_library_rs.Protocol.Frame
use assuan_library_rs.Protocol.Frame.{zeros}
use assuan_library_rs.Transport.Stream.{Stream, arrives}
use assuan_library_rs.Transport.Channel
use assuan_library_rs.Transport.Channel.Reading.{Fits, IsOpen}

-- A channel over a new stream.
pub new-IsOpen : (s : Stream) → Fits s.reads → IsOpen (Channel.new s) s (arrives s.reads)
unfolding Channel.new Frame.new zeros
new-IsOpen s small = record {
  ahead = [];
  stream = refl;
  carries = record { ahead = refl; pending = refl; fits = omega arith };
  arriving = refl;
  small = small;
  size = length-replicate {A = ℕ} max_line_bytes 0;
}
