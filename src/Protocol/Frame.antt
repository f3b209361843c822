-- ===== src/Protocol/Frame.antt =====
-- crates/assuan-protocol/src/frame.rs: one line assembled in fixed storage. A method that changes the
-- buffer returns it beside its result.
pub mod Chunks
pub mod Lines
pub mod Complete
use assuan_library_rs.Prelude.{
  ℕ, zero, suc, ◌+◌, ◌-◌, ◌<◌, Bool, true, false, not, ◌&&◌, Option, none, some, [], ◌∷◌, Bytes,
  length, get_or, set, take, replicate, ltb, ◌==◌, if◌then◌else◌, Result, ok, err,
}
use assuan_library_rs.Protocol.Error.{ProtocolError, line_too_long, unexpected_eof}
use assuan_library_rs.Protocol.Encode.{max_line_bytes}

pub record LineBuffer : Type 0 where
  pub storage : Bytes
  pub len : ℕ
  pub ready : Bool
  pub content_len : ℕ
  pub failed : Bool

-- The zeroed storage.
unfoldable pub zeros : Bytes
zeros = replicate max_line_bytes 0

unfoldable pub new : LineBuffer
new = record { storage = zeros; len = 0; ready = false; content_len = 0; failed = false }

-- `storage[..].zeroize()` keeps the size of the storage.
unfoldable pub clear : LineBuffer → LineBuffer
clear b = record {
  storage = replicate (length b.storage) 0;
  len = 0;
  ready = false;
  content_len = 0;
  failed = false;
}

abbrev pub store : LineBuffer → ℕ → LineBuffer
store b byte = record b { storage = set b.storage b.len byte; len = b.len + 1 }

-- What the line feed, just stored, completes.
abbrev pub complete : LineBuffer → LineBuffer
complete b =
    let content = b.len - 1 in
    let cr = ltb 0 content && (get_or b.storage (content - 1) 0 == b'\r') in
    record b { content_len = if cr then content - 1 else content; ready = true }

abbrev pub overflow : LineBuffer → LineBuffer
overflow b = record (clear b) { failed = true }

abbrev pub Fed : Type 0
Fed = LineBuffer × Result ProtocolError ℕ

-- The loop over the input; `index` bytes have been stored, all of them at the end of the input.
unfoldable pub feed_loop : LineBuffer → Bytes → ℕ → Fed
feed_loop b [] index = (b, ok index)
feed_loop b (byte ∷ input) index =
    let stored = store b byte in
    let next = feed_loop stored input (index + 1) in
    if byte == b'\n'
    then (complete stored, ok (index + 1))
    else if stored.len == max_line_bytes
    then (overflow stored, err line_too_long)
    else next

unfoldable pub feed : LineBuffer → Bytes → Fed
unfolding feed_loop
feed b input =
    if b.failed then (b, err line_too_long) else if b.ready then (b, ok 0) else feed_loop b input 0

unfoldable pub line : LineBuffer → Option Bytes
line b = if not b.ready then none else some (take b.content_len b.storage)

unfoldable pub finish_eof : LineBuffer → Result ProtocolError (Unit {0})
finish_eof b =
    if b.failed
    then err line_too_long
    else if not (b.len == 0) && not b.ready
    then err unexpected_eof
    else ok tt
