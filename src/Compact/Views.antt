-- ===== src/Compact/Views.antt =====
-- The read accessors of a compact schema, as `generate_ref` and `compute_offset_tokens` of
-- pinapod-derive/src/compact.rs emit them: no check and no error, on bytes that were validated.
use pinapod.Base.{
  ℕ, zero, suc, ◌+◌, ◌*◌, ◌-◌, ◌%◌, ◌==◌, none, some, if◌then◌else◌, List, [], ◌∷◌, take, drop,
  get_or, length,
}
use pinapod.Base.Bytes.{from_le_bytes}
use pinapod.Compact.{
  always, option_tag, TailPayload, string, vector, Tail, Schema, pfx_of, header_width, header_size,
  inline_size, field_bytes,
}
use pinapod.Compact.Walks.{Segment}

-- The bytes of `count` values of a payload.
abbrev pub payload_len : TailPayload → ℕ → ℕ
payload_len (string max pfx) count = count
payload_len (vector elem max pfx) count = count * elem.size

module _ (um : ℕ) (bytes : List ℕ) where
  -- `__hdr.len as usize`, and the same of `self.data`.
  unfoldable pub read_len : ℕ → ℕ → ℕ
  read_len at pfx = from_le_bytes (field_bytes bytes at pfx) % (um + 1)

  -- One step of `compute_offset_tokens`; sums and products wrap around.
  unfoldable pub offset_step : Tail → ℕ → ℕ → ℕ
  unfolding read_len
  offset_step t at offset = elim t.presence [
    | always ↦
        (offset + payload_len t.payload (read_len at (pfx_of t.payload)) % (um + 1)) % (um + 1)
    | option_tag ↦
        let count = read_len offset (pfx_of t.payload) in
        if get_or bytes at 0 == 0
        then offset
        else (offset + (pfx_of t.payload + payload_len t.payload count % (um + 1)) % (um + 1))
          % (um + 1)
  ]

  -- The accessor of a tail, once its offset is computed.
  unfoldable pub field_at : Tail → ℕ → ℕ → Segment
  unfolding read_len
  field_at t at offset = elim t.presence [
    | always ↦
        let count = read_len at (pfx_of t.payload) in
        some (count, take (payload_len t.payload count) (drop offset bytes))
    | option_tag ↦
        let count = read_len offset (pfx_of t.payload) in
        let payload_offset = (offset + pfx_of t.payload) % (um + 1) in
        if get_or bytes at 0 == 0
        then none
        else some (count, take (payload_len t.payload count) (drop payload_offset bytes))
  ]

  -- `compute_offset_tokens` up to the index, and then the accessor.
  unfoldable pub accessor_from : List Tail → ℕ → ℕ → ℕ → Segment
  unfolding field_at offset_step header_width
  accessor_from [] i at offset = none
  accessor_from (t ∷ ts) zero at offset = field_at t at offset
  accessor_from (t ∷ ts) (suc i) at offset =
      accessor_from ts i (at + header_width t) (offset_step t at offset)

  unfoldable pub encoded_from : List Tail → ℕ → ℕ → ℕ
  unfolding offset_step header_width
  encoded_from [] at offset = offset
  encoded_from (t ∷ ts) at offset = encoded_from ts (at + header_width t) (offset_step t at offset)

-- The accessor of the tail field `i`.
unfoldable pub accessor : (um : ℕ) → Schema → List ℕ → ℕ → Segment
unfolding accessor_from header_size inline_size
accessor um s bytes i =
    accessor_from um bytes s.tail_fields i (inline_size s.inline_fields) (header_size s)

unfoldable pub current_encoded_len : (um : ℕ) → Schema → List ℕ → ℕ
unfolding encoded_from header_size inline_size
current_encoded_len um s bytes =
    encoded_from um bytes s.tail_fields (inline_size s.inline_fields) (header_size s)

-- `self.data.len() - self.encoded_len`
unfoldable pub spare_capacity : (um : ℕ) → Schema → List ℕ → ℕ
unfolding current_encoded_len
spare_capacity um s bytes = length bytes - current_encoded_len um s bytes
