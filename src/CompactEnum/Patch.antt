-- ===== src/CompactEnum/Patch.antt =====
-- The patch of a compact enum, as `generate_patch_impl` of pinapod-derive/src/compact_enum.rs emits
-- it: one whole write of a variant.
use pinapod.Base.{ℕ, ◌+◌, ◌%◌, ◌^◌, ◌==◌, not, if◌then◌else◌, List, ltb, leb, length, take}
use pinapod.Base.Bytes.{to_le_bytes}
use pinapod.Base.Memory.{copy_at, fill}
use pinapod.Error.{
  PinaPodError, buffer_too_small, invalid_length, overflow, Result, ok, err, ◌>>=◌, ◌>>◌, ensure,
}
use pinapod.Compact.{validate_storage_len, validate_elems}
use pinapod.Compact.Support.{checked_add, checked_mul, check_prefix, read_prefix}
use pinapod.Compact.Patch.{zeroed, zero_failed}
use pinapod.CompactEnum.{
  VariantPayload, unit, string, vector, fixed, CompactVariant, Content, find_variant, read_tag,
  validate,
}

module _ (um tag_size : ℕ) where
  -- `length_arms`
  unfoldable pub length_of : VariantPayload → ℕ → List ℕ → Result PinaPodError ℕ
  unfolding check_prefix checked_add checked_mul validate_elems
  length_of unit count source = ok tag_size
  length_of (string max pfx) count source = do
    ensure (leb count max) overflow
    check_prefix um count pfx
    payload_offset ← checked_add um tag_size pfx
    checked_add um payload_offset count
  length_of (vector elem max pfx) count source = do
    ensure (leb count max) overflow
    check_prefix um count pfx
    ensure (not (elem.size == 0)) invalid_length
    validate_elems elem count source
    byte_len ← checked_mul um count elem.size
    payload_offset ← checked_add um tag_size pfx
    checked_add um payload_offset byte_len
  length_of (fixed elem) count source = elem.check source >> checked_add um tag_size elem.size

  -- `current_size_arms`
  unfoldable pub current_size_of : VariantPayload → List ℕ → Result PinaPodError ℕ
  unfolding read_prefix checked_add checked_mul
  current_size_of unit bytes = ok tag_size
  current_size_of (string max pfx) bytes = do
    len ← read_prefix um bytes tag_size pfx
    payload_offset ← checked_add um tag_size pfx
    checked_add um payload_offset len
  current_size_of (vector elem max pfx) bytes = do
    count ← read_prefix um bytes tag_size pfx
    byte_len ← checked_mul um count elem.size
    payload_offset ← checked_add um tag_size pfx
    checked_add um payload_offset byte_len
  current_size_of (fixed elem) bytes = checked_add um tag_size elem.size

  -- The prefix and the payload of `write_arms`.
  unfoldable pub write_prefixed : (pfx count : ℕ) → List ℕ → List ℕ → List ℕ
  write_prefixed pfx count source bytes =
      copy_at (tag_size + pfx) source
        (copy_at tag_size (take pfx (to_le_bytes 8 (count % 2 ^ 64))) bytes)

  unfoldable pub write_payload : VariantPayload → ℕ → List ℕ → List ℕ → List ℕ
  unfolding write_prefixed
  write_payload unit count source bytes = bytes
  write_payload (string max pfx) count source bytes = write_prefixed pfx count source bytes
  write_payload (vector elem max pfx) count source bytes = write_prefixed pfx count source bytes
  write_payload (fixed elem) count source bytes = copy_at tag_size source bytes

  -- `Patch::write`
  unfoldable pub write : Content → List ℕ → List ℕ
  unfolding write_payload
  write c bytes =
      write_payload c.variant.payload c.count c.source
        (copy_at 0 (to_le_bytes tag_size c.variant.disc) bytes)

  abbrev pub encoded_len : Content → Result PinaPodError ℕ
  encoded_len c = length_of c.variant.payload c.count c.source

module _ (um tag_size : ℕ) (variants : List CompactVariant) (low top : ℕ) where
  unfoldable pub current_encoded_len : List ℕ → Result PinaPodError ℕ
  unfolding find_variant read_tag current_size_of
  current_encoded_len bytes = do
    v ← find_variant variants (read_tag um tag_size bytes)
    current_size_of um tag_size v.payload bytes

  unfoldable pub updated_len : Content → List ℕ → Result PinaPodError ℕ
  unfolding validate length_of
  updated_len c bytes = validate um tag_size variants low top bytes >> encoded_len um tag_size c

  -- The checks of `update`, up to the first write: the old and the new encoded length.
  unfoldable pub update_plan : Content → List ℕ → Result PinaPodError (ℕ × ℕ)
  unfolding validate current_encoded_len length_of
  update_plan c bytes = do
    validate um tag_size variants low top bytes
    old ← current_encoded_len bytes
    encoded ← encoded_len um tag_size c
    ensure (leb encoded (length bytes)) buffer_too_small
    ok (old, encoded)

  unfoldable pub update_planned :
      Content → List ℕ → Result PinaPodError (ℕ × ℕ) → List ℕ × Result PinaPodError ℕ
  unfolding write
  update_planned c bytes (err e) = (bytes, err e)
  update_planned c bytes (ok (old, encoded)) =
      let written = write um tag_size c bytes in
      (if ltb encoded old then fill encoded old 0 written else written, ok encoded)

  unfoldable pub update : Content → List ℕ → List ℕ × Result PinaPodError ℕ
  unfolding update_plan update_planned
  update c bytes = update_planned c bytes (update_plan c bytes)

  unfoldable pub initialize_planned :
      Content → List ℕ → Result PinaPodError ℕ → List ℕ × Result PinaPodError ℕ
  unfolding write validate
  initialize_planned c bytes (err e) = (bytes, err e)
  initialize_planned c bytes (ok encoded) =
      let written = write um tag_size c bytes in
      (written, validate um tag_size variants low top written >> ok encoded)

  -- The checks of `try_initialize`, up to the first write.
  unfoldable pub initialize_plan : Content → List ℕ → Result PinaPodError ℕ
  unfolding validate_storage_len length_of
  initialize_plan c bytes = do
    validate_storage_len low top 1 (length bytes)
    encoded ← encoded_len um tag_size c
    ensure (leb encoded (length bytes)) buffer_too_small
    ok encoded

  unfoldable pub try_initialize : Content → List ℕ → List ℕ × Result PinaPodError ℕ
  unfolding initialize_plan initialize_planned
  try_initialize c bytes = initialize_planned c bytes (initialize_plan c bytes)

  unfoldable pub initialize : Content → List ℕ → List ℕ × Result PinaPodError ℕ
  unfolding try_initialize
  initialize c bytes = zero_failed (try_initialize c (zeroed bytes))
