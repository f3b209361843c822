-- ===== src/Protocol/Secret.antt =====
-- crates/assuan-protocol/src/secret.rs and limits.rs: bytes in storage of fixed capacity. A method
-- that changes the storage returns it beside its result. `reserve` is the allocator's answer to a
-- request for so many bytes.
pub mod Bounded
pub mod Calls
use assuan_library_rs.Prelude.{
  ℕ, Bool, Bytes, length, take, replicate, ltb, ◌==◌, if◌then◌else◌, Result, ok, err, ◌>>=◌, ok_or,
  usize_max, checked_add,
}
use assuan_library_rs.Protocol.Error.{
  LimitError, allocation_failed, length_overflow, capacity_exceeded,
}
use assuan_library_rs.Protocol.Encode.{copy_at}

unfoldable pub extended_length : ℕ → ℕ → ℕ → Result LimitError ℕ
extended_length current additional capacity =
    ok_or (checked_add usize_max current additional) length_overflow >>= λ length.
    if ltb capacity length then err capacity_exceeded else ok length

pub record SecretBytes : Type 0 where
  pub storage : Bytes
  pub len : ℕ

unfoldable pub with_capacity : (ℕ → Bool) → ℕ → Result LimitError SecretBytes
with_capacity reserve capacity =
    if reserve capacity
    then ok (record { storage = replicate capacity 0; len = 0 })
    else err allocation_failed

unfoldable pub capacity : SecretBytes → ℕ
capacity s = length s.storage

unfoldable pub extend_from_slice : SecretBytes → Bytes → SecretBytes × Result LimitError (Unit {0})
unfolding extended_length capacity
extend_from_slice s bytes = elim (extended_length s.len (length bytes) (capacity s)) [
  | ok end ↦ (record { storage = copy_at s.storage s.len bytes; len = end }, ok tt)
  | err e ↦ (s, err e)
]

unfoldable pub expose : SecretBytes → Bytes
expose s = take s.len s.storage

unfoldable pub clear : SecretBytes → SecretBytes
clear s = record { storage = replicate (length s.storage) 0; len = 0 }

unfoldable pub is_empty : SecretBytes → Bool
is_empty s = s.len == 0
