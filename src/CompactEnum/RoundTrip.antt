-- ===== src/CompactEnum/RoundTrip.antt =====
-- What a reader of a compact enum (pinapod-derive/src/compact_enum.rs) shows of a buffer that a patch
-- wrote, and `update` as a whole.
use pinapod.Base.{
  ℕ, ◌+◌, ◌/◌, ◌^◌, ◌≤◌, ◌<◌, ◌≡◌, refl, ap, sym, ◌∙◌, arith, false, List, length, leb, ltb, take,
  drop,
}
use pinapod.Base.{le→leb, le→ltb, take-length, length-drop}
use pinapod.Base.Bytes.{from_le_bytes, from_le_bytes-to_le_bytes}
use pinapod.Base.Slices.{slice}
use pinapod.Error.{ok, >>=-eq-ok, ensure, invalid_length, invalid_utf8, buffer_too_small}
use pinapod.Compact.{Element, IsTarget, validate_storage_len}
use pinapod.Compact.Support.{
  check_prefix, checked_add, checked_mul, read_prefix, get_range, ok_or, decode_prefix,
}
use pinapod.Compact.Bounds.{ok_or-within}
use pinapod.Compact.Accessors.{read_len-decode}
use pinapod.Compact.Stored.{read-decoded, range-ok}
use pinapod.Compact.Planning.Lengths.{add-ok}
use pinapod.Compact.Views.{read_len}
use pinapod.Compact.Writing.Tails.{prefix_bytes, prefix_bytes-ok}
use pinapod.CompactEnum.{
  VariantPayload, unit, string, vector, fixed, CompactVariant, Content, find_variant, read_tag,
  payload_bounds, payload_semantic, construct_ref, validate, new,
}
use pinapod.CompactEnum.Patch.{current_size_of}
use pinapod.CompactEnum.Written.{IsContent, IsAccepted, Holds}

module _ {um : ℕ} (target : IsTarget um) (tag_size disc : ℕ) where
  prefix-read :
      (count : ℕ) (after : List ℕ) (pfx : ℕ)
      → length after ≤ um / 2
      → check_prefix um count pfx ≡ ok tt
      → slice tag_size pfx after ≡ prefix_bytes pfx count
      → tag_size + pfx ≤ length after
      → (read_prefix um after tag_size pfx ≡ ok count) × (read_len um after tag_size pfx ≡ count)
  prefix-read count after pfx size fits stored within =
      let decodes : decode_prefix um (slice tag_size pfx after) ≡ ok count =
        rw stored (prefix_bytes-ok target count pfx fits).1 in
      (
        (read-decoded um after tag_size pfx count within size decodes).0,
        read_len-decode um after tag_size pfx count decodes,
      )

  -- The walk of `validate` over a payload, and the view of it.
  reads :
      (v : CompactVariant) (p : VariantPayload) (count : ℕ) (source after : List ℕ)
      → length after ≤ um / 2
      → IsContent p count source
      → IsAccepted um p count source
      → Holds tag_size disc p count source after
      → (payload_bounds um tag_size p after ≡ ok (count, source))
        × (payload_semantic um tag_size p (count, source) ≡ ok tt)
        × (construct_ref um tag_size v p after
            ≡ ok (record { variant = v; count = count; source = source }))
  unfolding payload_bounds payload_semantic construct_ref
  reads v unit count source after size (none_left, empty) accepted holds =
      (rw (none_left, empty) refl, refl, rw (none_left, empty) refl)
  reads v (string max pfx) count source after size (sized, text) (few, fits)
        (tag, prefix, tail, within) =
      let (read, len) = prefix-read count after pfx size fits prefix (omega (arith, within)) in
      let ranged = range-ok after (tag_size + pfx) (length source) within in
      (
        rw
            (
              read,
              le→leb count max few,
              add-ok um tag_size pfx (omega (arith, within, size)),
              ← sized,
              add-ok um (tag_size + pfx) (length source) (omega (arith, within, size)),
              ranged,
              tail,
            )
            refl,
        ap (λ b. ensure b invalid_utf8) text,
        rw (len, ← sized)
            (ap (λ l. ok (record { variant = v; count = length source; source = l })) tail),
      )
  reads v (vector elem max pfx) count source after size sized (few, fits, valid)
        (tag, prefix, tail, within) =
      let (read, len) = prefix-read count after pfx size fits prefix (omega (arith, within)) in
      let ranged = range-ok after (tag_size + pfx) (length source) within in
      let product : checked_mul um count elem.size ≡ ok (length source) =
        unfold checked_mul in ground (arith, sized, within, size) in
      (
        rw
            (
              read,
              le→leb count max few,
              add-ok um tag_size pfx (omega (arith, within, size)),
              product,
              add-ok um (tag_size + pfx) (length source) (omega (arith, within, size)),
              ranged,
              tail,
            )
            refl,
        valid,
        rw (len, ← sized) (ap (λ l. ok (record { variant = v; count = count; source = l })) tail),
      )
  reads v (fixed elem) count source after size (one, sized) valid (tag, prefix, tail, within) =
      let ranged = range-ok after tag_size (length source) within in
      let exact = le→ltb (length source) (length source) (omega arith) in
      let rest : ltb (length (drop tag_size after)) (length source) ≡ false =
        le→ltb (length (drop tag_size after)) (length source)
          (omega (arith, within, length-drop tag_size after)) in
      (
        rw
            (
              ← sized,
              add-ok um tag_size (length source) (omega (arith, within, size)),
              ranged,
              tail,
              one,
            )
            refl,
        rw (← sized, exact, take-length source, valid) refl,
        rw (← sized, rest, tail, valid, one) refl,
      )

  -- A reader shows what a valid write left.
  module _ (variants : List CompactVariant) (low top : ℕ) (c : Content)
      (declared : find_variant variants c.variant.disc ≡ ok c.variant)
      (small : c.variant.disc < 256 ^ tag_size) (same : c.variant.disc ≡ disc) where
    pub new-Holds :
        (after : List ℕ)
        → length after ≤ um / 2
        → validate_storage_len low top 1 (length after) ≡ ok tt
        → IsContent c.variant.payload c.count c.source
        → IsAccepted um c.variant.payload c.count c.source
        → Holds tag_size disc c.variant.payload c.count c.source after
        → new um tag_size variants low top after ≡ ok c
    unfolding new validate read_tag
    new-Holds after size stored typed accepted holds =
        let tag : from_le_bytes (take tag_size after) ≡ c.variant.disc =
          ap from_le_bytes holds.0
          ∙ from_le_bytes-to_le_bytes tag_size disc (rw (← same) small)
          ∙ sym same in
        let (bounded, valid, shown) =
          reads c.variant c.variant.payload c.count c.source after size typed accepted holds in
        rw (stored, tag, declared, bounded, valid) shown

module _ (um tag_size pfx count start end : ℕ) (bytes : List ℕ)
    (read : read_prefix um bytes tag_size pfx ≡ ok count)
    (front : checked_add um tag_size pfx ≡ ok start) where
  string-sized :
      (max : ℕ)
      → checked_add um start count ≡ ok end
      → current_size_of um tag_size (string max pfx) bytes ≡ ok end
  unfolding current_size_of
  string-sized max sum = rw (read, front) sum

  vector-sized :
      (elem : Element) (max len : ℕ)
      → checked_mul um count elem.size ≡ ok len
      → checked_add um start len ≡ ok end
      → current_size_of um tag_size (vector elem max pfx) bytes ≡ ok end
  unfolding current_size_of
  vector-sized elem max len product sum = rw (read, product, front) sum

-- A payload that the bounds accept has a size, which fits the buffer.
pub current_size-bounds :
    (um tag_size : ℕ) (p : VariantPayload) (bytes : List ℕ) (r : ℕ × List ℕ)
    → tag_size ≤ length bytes
    → payload_bounds um tag_size p bytes ≡ ok r
    → (old : ℕ) × (current_size_of um tag_size p bytes ≡ ok old) × (old ≤ length bytes)
unfolding payload_bounds current_size_of
current_size-bounds um tag_size unit bytes r h e = (tag_size, refl, h)
current_size-bounds um tag_size (string max pfx) bytes r h e =
    let (len, read, e1) = >>=-eq-ok (read_prefix um bytes tag_size pfx) _ e in
    let (_, _, e2) = >>=-eq-ok (ensure (leb len max) invalid_length) _ e1 in
    let (start, front, e3) = >>=-eq-ok (checked_add um tag_size pfx) _ e2 in
    let (end, sum, e4) = >>=-eq-ok (checked_add um start len) _ e3 in
    let (tail, found, _) = >>=-eq-ok (ok_or (get_range bytes start end) buffer_too_small) _ e4 in
    (
      end,
      string-sized um tag_size pfx len start end bytes read front max sum,
      ok_or-within bytes start end tail found,
    )
current_size-bounds um tag_size (vector elem max pfx) bytes r h e =
    let (count, read, e1) = >>=-eq-ok (read_prefix um bytes tag_size pfx) _ e in
    let (_, _, e2) = >>=-eq-ok (ensure (leb count max) invalid_length) _ e1 in
    let (start, front, e3) = >>=-eq-ok (checked_add um tag_size pfx) _ e2 in
    let (len, product, e4) = >>=-eq-ok (checked_mul um count elem.size) _ e3 in
    let (end, sum, e5) = >>=-eq-ok (checked_add um start len) _ e4 in
    let (tail, found, _) = >>=-eq-ok (ok_or (get_range bytes start end) buffer_too_small) _ e5 in
    (
      end,
      vector-sized um tag_size pfx count start end bytes read front elem max len product sum,
      ok_or-within bytes start end tail found,
    )
current_size-bounds um tag_size (fixed elem) bytes r h e =
    let (end, sum, e1) = >>=-eq-ok (checked_add um tag_size elem.size) _ e in
    let (tail, found, _) = >>=-eq-ok (ok_or (get_range bytes tag_size end) buffer_too_small) _ e1 in
    (end, sum, ok_or-within bytes tag_size end tail found)
