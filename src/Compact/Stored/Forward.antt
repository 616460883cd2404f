-- ===== src/Compact/Stored/Forward.antt =====
-- The layout statements on a buffer that stores a segment.
use pinapod.Base.{
  ℕ, zero, suc, [], ◌∷◌, ◌+◌, ◌/◌, ◌≤◌, ◌≡◌, refl, ap, sym, ◌∙◌, arith, none, some, true, not, List,
  ◌==◌, length, take, drop, get_or,
}
use pinapod.Base.{le→leb, length-append}
use pinapod.Base.Slices.{slice}
use Prim.Native.String.{String}
use pinapod.Error.{ok}
use pinapod.Compact.Support.{decode_prefix}
use pinapod.Compact.{
  TailPresence, always, option_tag, TailPayload, string, vector, pfx_of, header_width, field_bytes,
  capacity_checks,
}
use pinapod.Compact.Walks.{Segment, always_bounds, some_bounds, bounds}
use pinapod.Compact.Stored.{
  Value, Stored, tail_end-ok, byte_len-ok, range-ok, read-decoded, slice-parts,
}

take-get_or : (i : ℕ) (xs : List ℕ) → get_or (take 1 (drop i xs)) 0 0 ≡ get_or xs i 0
take-get_or zero [] = refl
take-get_or zero (x ∷ xs) = refl
take-get_or (suc i) [] = refl
take-get_or (suc i) (x ∷ xs) = take-get_or i xs

-- The tag of a header field is the byte in the buffer.
pub get_or-field :
    (bytes : List ℕ) (at : ℕ) → get_or (field_bytes bytes at 1) 0 0 ≡ get_or bytes at 0
get_or-field bytes at = take-get_or at bytes

module _ (um : ℕ) (bytes : List ℕ) (size : length bytes ≤ um / 2) where
  always-Stored :
      (p : TailPayload) (at offset count : ℕ) (source : List ℕ)
      → capacity_checks um p ≡ true
      → decode_prefix um (field_bytes bytes at (pfx_of p)) ≡ ok count
      → Value p count source
      → slice offset (length source) bytes ≡ source
      → offset + length source ≤ length bytes
      → always_bounds um bytes p at offset ≡ ok (some (count, source), offset + length source)
  unfolding always_bounds
  always-Stored (string max pfx) at offset count source h decoded (few, sized) shown inside =
      rw
        (
          decoded,
          le→leb count max few,
          ← sized,
          tail_end-ok um pfx offset (length source) (omega (arith, inside, size)),
          range-ok bytes offset (length source) inside,
          shown,
        )
        refl
  always-Stored (vector elem max pfx) at offset count source h decoded (few, sized) shown inside =
      let real : not (elem.size == 0) ≡ true = unfold capacity_checks in ground (arith, h) in
      rw
        (
          decoded,
          le→leb count max few,
          real,
          byte_len-ok um pfx count elem.size (omega (arith, inside, size, sized)),
          ← sized,
          tail_end-ok um pfx offset (length source) (omega (arith, inside, size)),
          range-ok bytes offset (length source) inside,
          shown,
        )
        refl

  some-Stored :
      (p : TailPayload) (offset count : ℕ) (prefix source : List ℕ)
      → capacity_checks um p ≡ true
      → length prefix ≡ pfx_of p
      → decode_prefix um prefix ≡ ok count
      → Value p count source
      → slice offset (length prefix) bytes ≡ prefix
      → slice (offset + length prefix) (length source) bytes ≡ source
      → offset + length prefix + length source ≤ length bytes
      → some_bounds um bytes p offset
        ≡ ok (some (count, source), offset + length prefix + length source)
  unfolding some_bounds
  some-Stored (string max pfx) offset count prefix source h width decoded (few, sized) front shown
        inside =
      let there : slice offset pfx bytes ≡ prefix = rw (← width) front in
      let read =
        (read-decoded um bytes offset pfx count (omega (arith, inside, width)) size
          (rw there decoded)).1 in
      rw
        (
          read,
          le→leb count max few,
          ← width,
          tail_end-ok um (length prefix) offset (length prefix) (omega (arith, inside, size)),
          ← sized,
          tail_end-ok um (length prefix) (offset + length prefix) (length source)
              (omega (arith, inside, size)),
          range-ok bytes (offset + length prefix) (length source) inside,
          shown,
        )
        refl
  some-Stored (vector elem max pfx) offset count prefix source h width decoded (few, sized) front
        shown inside =
      let there : slice offset pfx bytes ≡ prefix = rw (← width) front in
      let real : not (elem.size == 0) ≡ true = unfold capacity_checks in ground (arith, h) in
      let read =
        (read-decoded um bytes offset pfx count (omega (arith, inside, width)) size
          (rw there decoded)).1 in
      rw
        (
          read,
          le→leb count max few,
          real,
          ← width,
          tail_end-ok um (length prefix) offset (length prefix) (omega (arith, inside, size)),
          byte_len-ok um (length prefix) count elem.size (omega (arith, inside, size, sized)),
          ← sized,
          tail_end-ok um (length prefix) (offset + length prefix) (length source)
              (omega (arith, inside, size)),
          range-ok bytes (offset + length prefix) (length source) inside,
          shown,
        )
        refl

  -- The layout statements accept what is stored, and end behind its block.
  pub bounds-Stored :
      (name : String) (r : TailPresence) (p : TailPayload) (at offset : ℕ) (segment : Segment)
      (block : List ℕ)
      → capacity_checks um p ≡ true
      → Stored um bytes (record { name = name; presence = r; payload = p }) at offset segment block
      → bounds um bytes (record { name = name; presence = r; payload = p }) at offset
        ≡ ok (segment, offset + length block)
  unfolding bounds header_width
  bounds-Stored name always p at offset none block h (field, b, shown, inside) = absurd field
  bounds-Stored name always p at offset (some (count, source)) block h
        (field, (value, same), shown, inside) =
      rw same (
        always-Stored p at offset count source h field value (rw (← same) shown)
          (rw (← same) inside))
  bounds-Stored name option_tag p at offset none block h (field, same, shown, inside) =
      let tag = sym (get_or-field bytes at) ∙ field in
      rw (tag, same) (ap (λ k. ok (none, k)) (omega arith))
  bounds-Stored name option_tag p at offset (some (count, source)) block h
        (field, (value, prefix, width, decoded, same), shown, inside) =
      let tag = sym (get_or-field bytes at) ∙ field in
      let (front, back) =
        slice-parts offset prefix source bytes (rw same at shown) (rw same at inside) in
      let end : offset + length prefix + length source ≡ offset + length block =
        omega (arith, ap length same, length-append prefix source) in
      rw tag (
        some-Stored p offset count prefix source h width decoded value front back
          (omega (arith, end, inside))
        ∙ ap (λ k. ok (some (count, source), k)) end)
