-- ===== src/Fixed.antt =====
-- `PinaPodFixed` of pinapod/src/traits.rs: reading, validating and initializing a value whose
-- representation has one size. A buffer is the list of its bytes.
pub mod Laws
use pinapod.Base.{
  ℕ, ◌≡◌, Bool, not, true, false, List, ltb, ◌==◌, if◌then◌else◌, length, take, drop, replicate,
  ◌++◌,
}
use pinapod.Base.Memory.{copy_at, fill}
use pinapod.Error.{PinaPodError, buffer_too_small, invalid_length, Result, ok, err, ◌>>=◌, ◌>>◌}
use pinapod.Elem.{ZcElem, Checked}

module _ (Zc : Type 0) ⦃z : ZcElem Zc⦄ where
  -- The cast of a pointer to the first bytes of `data`.
  abbrev pub cast : List ℕ → Zc
  cast bytes = z.from_bytes (take z.size bytes)

  unfoldable pub validate_exact : List ℕ → Checked
  validate_exact bytes =
      if not (length bytes == z.size)
      then (if ltb (length bytes) z.size then err buffer_too_small else err invalid_length)
      else z.validate_ref (cast bytes)

  unfoldable pub validate_prefix : List ℕ → Checked
  validate_prefix bytes =
      if ltb (length bytes) z.size then err buffer_too_small else z.validate_ref (cast bytes)

  -- `read_exact`; `read_exact_mut` borrows the same value.
  unfoldable pub read_exact : List ℕ → Result PinaPodError Zc
  unfolding validate_exact
  read_exact bytes = do validate_exact bytes; ok (cast bytes)

  -- `read_prefix`; `read_prefix_mut` borrows the same value.
  unfoldable pub read_prefix : List ℕ → Result PinaPodError Zc
  unfolding validate_prefix
  read_prefix bytes = do validate_prefix bytes; ok (cast bytes)

  -- A write through the reference that a `_mut` reader returned.
  unfoldable pub write_back : List ℕ → Zc → List ℕ
  write_back bytes value = copy_at 0 (z.to_bytes value) bytes

  -- `initialize`, with the closure as a function that returns the changed value and its result.
  unfoldable pub initialize : List ℕ → (Zc → Zc × Checked) → List ℕ × Result PinaPodError Zc
  unfolding write_back
  initialize bytes configure =
      if ltb (length bytes) z.size
      then (bytes, err buffer_too_small)
      else if not (length bytes == z.size)
      then (bytes, err invalid_length)
      else let zeroed = fill 0 (length bytes) 0 bytes in
        let (value, done) = configure (cast zeroed) in
        let written = write_back zeroed value in
        elim (done >> z.validate_ref value) [
          | ok _ ↦ (written, ok value)
          | err e ↦ (fill 0 (length written) 0 written, err e)
        ]
