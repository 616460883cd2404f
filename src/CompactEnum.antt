-- ===== src/CompactEnum.antt =====
-- What the code that pinapod-derive/src/compact_enum.rs generates for a compact enum does to a buffer:
-- a tag, and then the payload of the variant that the tag names.
pub mod Patch
pub mod Sizes
pub mod Written
pub mod RoundTrip
pub mod Updated
pub mod Initialized
use pinapod.Base.{
  ℕ, ◌+◌, ◌*◌, ◌==◌, Option, none, some, not, if◌then◌else◌, List, [], ◌∷◌, ltb, leb, length, take,
  drop,
}
use pinapod.Base.Bytes.{from_le_bytes}
use pinapod.Error.{
  PinaPodError, buffer_too_small, invalid_length, invalid_utf8, invalid_discriminant, Result, ok,
  err, ◌>>=◌, ◌>>◌, ensure,
}
use pinapod.Elem.{Checked}
use pinapod.Utf8.{is_utf8}
use Prim.Native.String.{String}
use pinapod.Compact.{Element, validate_storage_len, validate_elems}
use pinapod.Compact.Support.{ok_or, get_range, checked_add, checked_mul, read_prefix}
use pinapod.Compact.Views.{read_len}

-- `enum VariantPayload`
pub data VariantPayload : Type 0 where
  unit : VariantPayload
  string : (max pfx : ℕ) → VariantPayload
  vector : (elem : Element) (max pfx : ℕ) → VariantPayload
  fixed : Element → VariantPayload

-- `struct CompactVariant`
pub record CompactVariant : Type 0 where
  pub name : String
  pub disc : ℕ
  pub payload : VariantPayload

-- A variant with its payload, as `Ref` shows it and `Patch` holds it: a count, and the bytes of the
-- values. A fixed payload is one value, and a unit variant has none.
pub record Content : Type 0 where
  pub variant : CompactVariant
  pub count : ℕ
  pub source : List ℕ

-- The arms of `match __tag`; the last is the error.
unfoldable pub find_variant : List CompactVariant → ℕ → Result PinaPodError CompactVariant
find_variant [] tag = err invalid_discriminant
find_variant (v ∷ vs) tag = if tag == v.disc then ok v else find_variant vs tag

module _ (um tag_size : ℕ) where
  -- `read_tag_expr`
  unfoldable pub read_tag : List ℕ → ℕ
  read_tag bytes = from_le_bytes (take tag_size bytes)

  -- `payload_bounds_tokens`: the count and the bytes of the payload.
  unfoldable pub payload_bounds : VariantPayload → List ℕ → Result PinaPodError (ℕ × List ℕ)
  unfolding read_prefix checked_add checked_mul
  payload_bounds unit bytes = ok (0, [])
  payload_bounds (string max pfx) bytes = do
    byte_len ← read_prefix um bytes tag_size pfx
    ensure (leb byte_len max) invalid_length
    payload_offset ← checked_add um tag_size pfx
    payload_end ← checked_add um payload_offset byte_len
    payload ← ok_or (get_range bytes payload_offset payload_end) buffer_too_small
    ok (byte_len, payload)
  payload_bounds (vector elem max pfx) bytes = do
    count ← read_prefix um bytes tag_size pfx
    ensure (leb count max) invalid_length
    payload_offset ← checked_add um tag_size pfx
    byte_len ← checked_mul um count elem.size
    payload_end ← checked_add um payload_offset byte_len
    payload ← ok_or (get_range bytes payload_offset payload_end) buffer_too_small
    ok (count, payload)
  payload_bounds (fixed elem) bytes = do
    payload_end ← checked_add um tag_size elem.size
    payload ← ok_or (get_range bytes tag_size payload_end) buffer_too_small
    ok (1, payload)

  -- What `validate_payload_tokens` adds; `validate_prefix` of a fixed payload reads its size.
  unfoldable pub payload_semantic : VariantPayload → ℕ × List ℕ → Checked
  unfolding validate_elems
  payload_semantic unit r = ok tt
  payload_semantic (string max pfx) (len, payload) = ensure (is_utf8 payload) invalid_utf8
  payload_semantic (vector elem max pfx) (count, payload) = validate_elems elem count payload
  payload_semantic (fixed elem) (count, payload) =
      if ltb (length payload) elem.size
      then err buffer_too_small
      else elem.check (take elem.size payload)

  -- `construct_ref_tokens`
  unfoldable pub construct_ref :
      CompactVariant → VariantPayload → List ℕ → Result PinaPodError Content
  unfolding read_len
  construct_ref v unit bytes = ok (record { variant = v; count = 0; source = [] })
  construct_ref v (string max pfx) bytes =
      let byte_len = read_len um bytes tag_size pfx in
      ok (record {
        variant = v;
        count = byte_len;
        source = take byte_len (drop (tag_size + pfx) bytes);
      })
  construct_ref v (vector elem max pfx) bytes =
      let count = read_len um bytes tag_size pfx in
      ok (record {
        variant = v;
        count = count;
        source = take (count * elem.size) (drop (tag_size + pfx) bytes);
      })
  construct_ref v (fixed elem) bytes =
      let rest = drop tag_size bytes in
      if ltb (length rest) elem.size
      then err buffer_too_small
      else elem.check (take elem.size rest)
        >> ok (record { variant = v; count = 1; source = take elem.size rest })

-- `low` and `top` are `MIN_SIZE` and `MAX_SIZE`; `TAIL_ALIGNMENT` is 1.
module _ (um tag_size : ℕ) (variants : List CompactVariant) (low top : ℕ) where
  unfoldable pub validate : List ℕ → Checked
  unfolding validate_storage_len find_variant read_tag payload_bounds payload_semantic
  validate bytes = do
    validate_storage_len low top 1 (length bytes)
    v ← find_variant variants (read_tag um tag_size bytes)
    r ← payload_bounds um tag_size v.payload bytes
    payload_semantic um tag_size v.payload r

  unfoldable pub validate_layout : List ℕ → Checked
  unfolding validate_storage_len find_variant read_tag payload_bounds
  validate_layout bytes = do
    validate_storage_len low top 1 (length bytes)
    v ← find_variant variants (read_tag um tag_size bytes)
    _ ← payload_bounds um tag_size v.payload bytes
    ok tt

  -- `Ref::new`, which is also `read_prefix` of the enum.
  unfoldable pub new : List ℕ → Result PinaPodError Content
  unfolding validate find_variant read_tag construct_ref
  new bytes = do
    validate bytes
    v ← find_variant variants (read_tag um tag_size bytes)
    construct_ref um tag_size v v.payload bytes
