-- ===== src/Compact/Walks.antt =====
-- `validate` and `validate_layout` of a compact schema, as `generate_trait_impl` of
-- pinapod-derive/src/compact.rs emits them, from the same statements for each tail.
use pinapod.Base.{ℕ, ◌==◌, Bool, Option, none, some, not, if◌then◌else◌, List, leb, length, get_or}
use pinapod.Error.{PinaPodError, buffer_too_small, invalid_length, invalid_tag, invalid_utf8}
use pinapod.Error.{Result, ok, err, ◌>>=◌, ◌>>◌, ensure}
use pinapod.Elem.{Checked}
use pinapod.Utf8.{is_utf8}
use pinapod.Compact.Support.{ok_or, get_range, decode_prefix}
use pinapod.Compact.{always, option_tag, TailPayload, string, vector, Tail, Schema}
use pinapod.Compact.{header_size, inline_size, validate_storage_len, field_bytes, validate_elems}
use pinapod.Compact.{
  validate_header, walk_tails, bounded_tail_end, bounded_byte_len, bounded_read_prefix,
}

-- The active payload of a tail, if it is present: its stored count and its bytes.
abbrev pub Segment : Type 0
Segment = Option (ℕ × List ℕ)

module _ (um : ℕ) (bytes : List ℕ) where
  -- The layout statements of an always-present tail.
  unfoldable pub always_bounds : TailPayload → ℕ → ℕ → Result PinaPodError (Segment × ℕ)
  unfolding decode_prefix bounded_tail_end bounded_byte_len
  always_bounds (string max pfx) at offset = do
    len ← decode_prefix um (field_bytes bytes at pfx)
    ensure (leb len max) invalid_length
    end ← bounded_tail_end um pfx offset len
    tail ← ok_or (get_range bytes offset end) buffer_too_small
    ok (some (len, tail), end)
  always_bounds (vector elem max pfx) at offset = do
    len ← decode_prefix um (field_bytes bytes at pfx)
    ensure (leb len max) invalid_length
    ensure (not (elem.size == 0)) invalid_length
    byte_len ← bounded_byte_len um pfx len elem.size
    end ← bounded_tail_end um pfx offset byte_len
    tail ← ok_or (get_range bytes offset end) buffer_too_small
    ok (some (len, tail), end)

  -- The layout statements of an optional tail whose tag is 1.
  unfoldable pub some_bounds : TailPayload → ℕ → Result PinaPodError (Segment × ℕ)
  unfolding bounded_read_prefix bounded_tail_end bounded_byte_len
  some_bounds (string max pfx) offset = do
    byte_len ← bounded_read_prefix um bytes offset pfx
    ensure (leb byte_len max) invalid_length
    payload_offset ← bounded_tail_end um pfx offset pfx
    payload_end ← bounded_tail_end um pfx payload_offset byte_len
    payload ← ok_or (get_range bytes payload_offset payload_end) buffer_too_small
    ok (some (byte_len, payload), payload_end)
  some_bounds (vector elem max pfx) offset = do
    count ← bounded_read_prefix um bytes offset pfx
    ensure (leb count max) invalid_length
    ensure (not (elem.size == 0)) invalid_length
    payload_offset ← bounded_tail_end um pfx offset pfx
    byte_len ← bounded_byte_len um pfx count elem.size
    payload_end ← bounded_tail_end um pfx payload_offset byte_len
    payload ← ok_or (get_range bytes payload_offset payload_end) buffer_too_small
    ok (some (count, payload), payload_end)

  unfoldable pub bounds : Tail → ℕ → ℕ → Result PinaPodError (Segment × ℕ)
  unfolding always_bounds some_bounds
  bounds t at offset = elim t.presence [
    | always ↦ always_bounds t.payload at offset
    | option_tag ↦
        let tag = get_or bytes at 0 in
        if tag == 0
        then ok (none, offset)
        else if tag == 1
        then some_bounds t.payload offset
        else err invalid_tag
  ]

  -- What only `validate` checks.
  unfoldable pub semantic : TailPayload → Segment → Checked
  semantic payload none = ok tt
  semantic (string max pfx) (some (len, tail)) = ensure (is_utf8 tail) invalid_utf8
  semantic (vector elem max pfx) (some (count, tail)) = validate_elems elem count tail

  unfoldable pub layout_step : Tail → ℕ → ℕ → Result PinaPodError ℕ
  unfolding bounds
  layout_step t at offset = bounds t at offset >>= λ r. ok r.1

  unfoldable pub full_step : Tail → ℕ → ℕ → Result PinaPodError ℕ
  unfolding bounds semantic
  full_step t at offset = bounds t at offset >>= λ r. (semantic t.payload r.0 >> ok r.1)

-- `top` is `MAX_SIZE`, and `alignment` is `TAIL_ALIGNMENT`.
module _ (um : ℕ) (s : Schema) (top alignment : ℕ) where
  unfoldable pub validate : List ℕ → Checked
  unfolding full_step
  validate bytes = do
    validate_storage_len (header_size s) top alignment (length bytes)
    validate_header bytes s.inline_fields 0
    _ ← walk_tails (full_step um bytes) s.tail_fields (inline_size s.inline_fields) (header_size s)
    ok tt

  -- The end of the last tail; `validate_layout` drops it.
  unfoldable pub layout_end : List ℕ → Result PinaPodError ℕ
  unfolding layout_step
  layout_end bytes = do
    validate_storage_len (header_size s) top alignment (length bytes)
    walk_tails (layout_step um bytes) s.tail_fields (inline_size s.inline_fields) (header_size s)

  unfoldable pub validate_layout : List ℕ → Checked
  unfolding layout_end
  validate_layout bytes = layout_end bytes >>= λ _. ok tt

  -- `commit_entry_validate`, whose depth is a feature of the crate.
  unfoldable pub commit_entry_validate : Bool → List ℕ → Checked
  unfolding validate validate_layout
  commit_entry_validate full_validation bytes =
      if full_validation then validate bytes else validate_layout bytes
