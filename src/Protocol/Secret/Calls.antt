-- ===== src/Protocol/Secret/Calls.antt =====
-- crates/assuan-protocol/src/secret.rs: sequences of calls on the storage, against a bounded
-- sequence of bytes that is cleared at times.
use assuan_library_rs.Prelude.{
  ℕ, ◌+◌, ◌≤◌, ◌≡◌, refl, ap, inl, inr, Bool, true, false, List, [], ◌∷◌, ◌++◌, Bytes, length,
  replicate, length-replicate, ltb, le→ltb, lt→ltb, if◌then◌else◌, Result, ok, err, usize_max,
  arith, ◌==◌,
}
use assuan_library_rs.Protocol.Error.{LimitError, allocation_failed}
use assuan_library_rs.Protocol.Secret.{
  SecretBytes, with_capacity, capacity, extend_from_slice, expose, clear, is_empty,
}
use assuan_library_rs.Protocol.Secret.Bounded.{
  Keeps, Keeps-expose, capacity-Keeps, extend_from_slice-Keeps,
}

pub data Call : Type 0 where
  extend : Bytes → Call
  wipe : Call

abbrev pub perform : Call → SecretBytes → SecretBytes
perform (extend bytes) s = (extend_from_slice s bytes).0
perform wipe s = clear s

abbrev pub run : List Call → SecretBytes → SecretBytes
run [] s = s
run (call ∷ calls) s = run calls (perform call s)

-- The abstract view: what a sequence with room for `size` bytes holds after the calls.
abbrev pub held_after : ℕ → Bytes → Call → Bytes
held_after size text (extend bytes) =
    if ltb size (length text + length bytes) then text else text ++ bytes
held_after size text wipe = []

abbrev pub held : ℕ → Bytes → List Call → Bytes
held size text [] = text
held size text (call ∷ calls) = held size (held_after size text call) calls

-- A new allocation, or any storage after it was wiped, whatever it held, within its length or not.
pub data Fresh : SecretBytes → Type 0 where
  granted :
      (reserve : ℕ → Bool) (size : ℕ) (s : SecretBytes)
      → with_capacity reserve size ≡ ok s
      → Fresh s
  wiped : (s : SecretBytes) → Fresh (clear s)

zeros-Keeps : (size : ℕ) → Keeps size [] (record { storage = replicate size 0; len = 0 })
zeros-Keeps size = record { storage = refl; len = refl; room = omega arith }

wiped-Keeps : (s : SecretBytes) → Keeps (capacity (clear s)) [] (clear s)
unfolding capacity clear
wiped-Keeps s = rw (length-replicate {A = ℕ} (length s.storage) 0) (zeros-Keeps (length s.storage))

reserved-Keeps :
    (granted : Bool) (size : ℕ) (s : SecretBytes) (x : LimitError)
    → ◌≡◌ {A = Result LimitError SecretBytes}
        (if granted then ok (record { storage = replicate size 0; len = 0 }) else err x)
        (ok s)
    → Keeps (capacity s) [] s
unfolding capacity
reserved-Keeps true size s x e =
    let same : record { storage = replicate size 0; len = 0 } ≡ s = cc in
    rw (← same) (rw (length-replicate {A = ℕ} size 0) (zeros-Keeps size))
reserved-Keeps false size s x e = cc

Fresh-Keeps : {s : SecretBytes} → Fresh s → Keeps (capacity s) [] s
unfolding with_capacity
Fresh-Keeps (granted reserve size s e) = reserved-Keeps (reserve size) size s allocation_failed e
Fresh-Keeps (wiped s) = wiped-Keeps s

extend-Keeps :
    (size : ℕ) (text bytes : Bytes) (s : SecretBytes)
    → Keeps size text s
    → size ≤ usize_max
    → Keeps size (held_after size text (extend bytes)) (extend_from_slice s bytes).0
extend-Keeps size text bytes s k word = elim (extend_from_slice-Keeps size text bytes s k word) [
  | inl (fits, (kept, done, shown)) ↦ rw (le→ltb _ _ fits) kept
  | inr (full, inl e) ↦ rw (lt→ltb _ _ full, e) k
  | inr (full, inr (e, rest)) ↦ rw (lt→ltb _ _ full, e) k
]

clear-Keeps :
    (size : ℕ) (text : Bytes) (s : SecretBytes) → Keeps size text s → Keeps size [] (clear s)
unfolding clear capacity
clear-Keeps size text s k =
    let size_kept : length s.storage ≡ size = capacity-Keeps size text s k in
    rw size_kept (zeros-Keeps size)

run-Keeps :
    (calls : List Call) (size : ℕ) (text : Bytes) (s : SecretBytes)
    → Keeps size text s
    → size ≤ usize_max
    → Keeps size (held size text calls) (run calls s)
run-Keeps [] size text s k word = k
run-Keeps (extend bytes ∷ calls) size text s k word =
    run-Keeps calls size (held_after size text (extend bytes)) (extend_from_slice s bytes).0
      (extend-Keeps size text bytes s k word) word
run-Keeps (wipe ∷ calls) size text s k word =
    run-Keeps calls size [] (clear s) (clear-Keeps size text s k) word

is_empty-Keeps :
    (size : ℕ) (text : Bytes) (s : SecretBytes)
    → Keeps size text s
    → is_empty s ≡ (length text == 0)
unfolding is_empty
is_empty-Keeps size text s k = ap (λ z. z == 0) k.len

-- The storage refines a bounded sequence of bytes. From a granted allocation, or from any storage once
-- it is wiped, whatever bytes it held even behind its length, of a capacity that fits in a word, any
-- calls leave what the sequence holds after them: the bytes that fitted since the last wipe are
-- exposed, the rest of the allocation is zeros, the capacity stays, and `is_empty` says whether
-- nothing is held.
pub run-Fresh :
    (s : SecretBytes) (calls : List Call)
    → Fresh s
    → capacity s ≤ usize_max
    → Keeps (capacity s) (held (capacity s) [] calls) (run calls s)
      × (expose (run calls s) ≡ held (capacity s) [] calls)
      × (capacity (run calls s) ≡ capacity s)
      × (is_empty (run calls s) ≡ (length (held (capacity s) [] calls) == 0))
run-Fresh s calls fresh word =
    let size = capacity s in
    let text = held size [] calls in
    let k = run-Keeps calls size [] s (Fresh-Keeps fresh) word in
    (
      k,
      Keeps-expose size text (run calls s) k,
      capacity-Keeps size text (run calls s) k,
      is_empty-Keeps size text (run calls s) k,
    )
