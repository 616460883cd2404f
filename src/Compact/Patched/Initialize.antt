-- ===== src/Compact/Patched/Initialize.antt =====
-- `initialize` of a patch (pinapod-derive/src/compact.rs), whatever the patch and the destination.
use pinapod.Base.{
  ℕ, ◌≤◌, ◌≡◌, refl, ap, sym, ◌∙◌, arith, ◌⊎◌, inl, inr, Bool, List, length, take, replicate, ltb,
  ◌==◌, Bool-cases,
}
use pinapod.Base.Memory.{length-fill, fill-all}
use pinapod.Error.{PinaPodError, Result, ok, err, >>=-eq-ok, invalid_length, buffer_too_small}
use pinapod.Compact.{Schema, header_size, validate_storage_len}
use pinapod.Compact.Walks.{validate}
use pinapod.Compact.Edits.{Writer, new_unchecked}
use pinapod.Compact.Commit.{commit}
use pinapod.Compact.Staging.{Checked-cases}
use pinapod.Compact.Committed.Sized.{length-commit}
use pinapod.Compact.Patch.{
  Patch, initialized_len, initialize_end, initialize_planned, try_initialize, initialize,
  initial_writer, zeroed, zero_failed,
}
use pinapod.Compact.Patched.Inlines.{length-inline_writes}

-- A result that stands: the planned length, whose bytes `validate` accepts.
abbrev pub Initialized :
    (um : ℕ) (s : Schema) (top alignment : ℕ) → Patch → (size encoded : ℕ) → List ℕ → Type 0
Initialized um s top alignment patch size encoded after =
    (length after ≡ size)
    × (encoded ≤ size)
    × (validate um s top alignment (take encoded after) ≡ ok tt)
    × (initialized_len um s patch ≡ ok encoded)

module _ (um : ℕ) (s : Schema) (top alignment : ℕ) (full_validation : Bool) (patch : Patch) where
  Outcome : ℕ → List ℕ × Result PinaPodError ℕ → Type 0
  Outcome size r =
      ((encoded : ℕ) × ((after : List ℕ) × (r ≡ (after, ok encoded))
          × Initialized um s top alignment patch size encoded after))
      ⊎ ((e : PinaPodError) × ((after : List ℕ) × (r ≡ (after, err e)) × (length after ≡ size)))

  initialize_end-Outcome :
      (size expected : ℕ) (r : Writer × Result PinaPodError ℕ)
      → length r.0.bytes ≡ size
      → expected ≤ size
      → initialized_len um s patch ≡ ok expected
      → Outcome size (initialize_end um s top alignment expected r)
  unfolding initialize_end Outcome
  initialize_end-Outcome size expected (w, err e) len fits planned = inr (e, (w.bytes, refl, len))
  initialize_end-Outcome size expected (w, ok encoded) len fits planned =
      elim (Checked-cases (validate um s top alignment (take encoded w.bytes))) [
        | inr (e, bad) ↦ inr (e, (w.bytes, rw bad refl, len))
        | inl valid ↦ elim (Bool-cases (encoded == expected)) [
          | inr other ↦ inr (invalid_length, (w.bytes, rw (valid, other) refl, len))
          | inl exact ↦
              let same : encoded ≡ expected = ground (arith, exact) in
              inl (
                encoded,
                (
                  w.bytes,
                  rw (valid, exact) refl,
                  (len, omega (arith, same, fits), valid, planned ∙ ap ok (sym same)),
                ),
              )
        ]
      ]

  initialize_planned-Outcome :
      (bytes : List ℕ) (r : Result PinaPodError ℕ)
      → ((k : ℕ) → r ≡ ok k → initialized_len um s patch ≡ ok k)
      → Outcome (length bytes) (initialize_planned um s top alignment full_validation patch bytes r)
  unfolding initialize_planned new_unchecked Outcome
  initialize_planned-Outcome bytes (err e) planned = inr (e, (bytes, refl, refl))
  initialize_planned-Outcome bytes (ok expected) planned =
      elim (Bool-cases (ltb (length bytes) expected)) [
        | inl long ↦ inr (buffer_too_small, (bytes, rw long refl, refl))
        | inr fits ↦ rw fits (
            initialize_end-Outcome (length bytes) expected
              (commit um s top alignment full_validation (initial_writer um s patch bytes))
              (length-commit um s top alignment full_validation (initial_writer um s patch bytes)
                ∙ length-inline_writes s.inline_fields patch.inlines 0 bytes)
              (ground (arith, fits)) (planned expected refl))
      ]

  try_initialize-Outcome :
      (bytes : List ℕ)
      → Outcome (length bytes) (try_initialize um s top alignment full_validation patch bytes)
  unfolding try_initialize
  try_initialize-Outcome bytes =
      initialize_planned-Outcome bytes _ (λ k e.
        (>>=-eq-ok (validate_storage_len (header_size s) top alignment (length bytes)) _ e).2)

  Outcome-size :
      (size other : ℕ) (r : List ℕ × Result PinaPodError ℕ)
      → size ≡ other
      → Outcome size r
      → Outcome other r
  Outcome-size size other r e h = rw (← e) h

  zero_failed-Outcome :
      (size : ℕ) (r : List ℕ × Result PinaPodError ℕ)
      → Outcome size r
      → ((encoded : ℕ) × ((after : List ℕ) × (zero_failed r ≡ (after, ok encoded))
            × Initialized um s top alignment patch size encoded after))
        ⊎ ((e : PinaPodError) × (zero_failed r ≡ (replicate size 0, err e)))
  unfolding Outcome
  zero_failed-Outcome size r (inl (encoded, (after, e, facts))) =
      inl (encoded, (after, ap zero_failed e, facts))
  zero_failed-Outcome size r (inr (why, (after, e, len))) = inr (
    why,
    ap zero_failed e ∙ ap (λ l. (l, err why)) (fill-all 0 after ∙ ap (λ k. replicate k 0) len),
  )

  -- `initialize`, on any destination and at either depth of the entry check of the commit, either
  -- returns the planned length, which fits the destination, whose size is unchanged and whose
  -- first bytes up to that length `validate` accepts, or fails and leaves every byte zero.
  pub initialize_lem :
      (bytes : List ℕ)
      → ((encoded : ℕ) × ((after : List ℕ) × (initialize um s top alignment full_validation patch
                bytes
              ≡ (after, ok encoded))
            × Initialized um s top alignment patch (length bytes) encoded after))
        ⊎ ((e : PinaPodError) × (initialize um s top alignment full_validation patch bytes
              ≡ (replicate (length bytes) 0, err e)))
  unfolding initialize
  initialize_lem bytes = zero_failed-Outcome (length bytes) _ (
      Outcome-size (length (zeroed bytes)) (length bytes) _ (length-fill 0 (length bytes) 0 bytes)
        (try_initialize-Outcome (zeroed bytes)))
