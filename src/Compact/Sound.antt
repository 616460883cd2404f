-- ===== src/Compact/Sound.antt =====
-- What the read accessors show on a buffer that `validate` accepted.
use pinapod.Base.{ℕ, zero, suc, ◌+◌, ◌/◌, ◌≤◌, ◌≡◌, ◌∙◌, arith}
use pinapod.Base.{some, true, List, [], ◌∷◌, length, get_elem?, All}
use pinapod.Base.Bytes.{IsByte}
use pinapod.Error.{ok-eq, ok, Returns-of, >>=-eq-ok}
use pinapod.Compact.{Tail, Schema, header_width, header_size, inline_size}
use pinapod.Compact.{
  capacity_checks, IsTarget, IsCompact, walk_tails, validate_storage_len, validate_header,
}
use pinapod.Compact.Walks.{bounds, semantic, full_step, validate, layout_end}
use pinapod.Compact.Views.{
  offset_step, field_at, accessor_from, encoded_from, accessor, current_encoded_len,
}
use pinapod.Compact.Bounds.{bounds-Within}
use pinapod.Compact.Depth.{walk-depth}
use pinapod.Compact.Contract.{storage-fits}
use pinapod.Compact.Optionals.{bounds-Meets}

module _ {um : ℕ} (target : IsTarget um) (bytes : List ℕ) (bytes-IsByte : All IsByte bytes)
    (size : length bytes ≤ um / 2) where
  -- A step that `validate` accepts: the accessor's segment passes its checks, and the unchecked
  -- offset is the validated one.
  pub step-Meets :
      (t : Tail) (at offset next : ℕ)
      → capacity_checks um t.payload ≡ true
      → offset ≤ length bytes
      → full_step um bytes t at offset ≡ ok next
      → (semantic um bytes t.payload (field_at um bytes t at offset) ≡ ok tt)
        × (offset_step um bytes t at offset ≡ next)
        × (next ≤ length bytes)
  unfolding full_step
  step-Meets t at offset next h inside e =
      let (r, walked, checked) = >>=-eq-ok (bounds um bytes t at offset) _ e in
      let (_, valid, last) = >>=-eq-ok (semantic um bytes t.payload r.0) _ checked in
      let (shown, moved) =
        Returns-of _ (bounds um bytes t at offset) r
          (bounds-Meets target bytes bytes-IsByte size t at offset h inside) walked in
      let front =
        Returns-of _ (bounds um bytes t at offset) r (bounds-Within um bytes t at offset inside)
          walked in
      let same = ok-eq last in (rw shown valid, moved ∙ same, rw (← same) front)

  accessor_from-semantic :
      (ts : List Tail) (i at offset end : ℕ) (t : Tail)
      → All (λ u. capacity_checks um u.payload ≡ true) ts
      → offset ≤ length bytes
      → walk_tails (full_step um bytes) ts at offset ≡ ok end
      → get_elem? ts i ≡ some t
      → semantic um bytes t.payload (accessor_from um bytes ts i at offset) ≡ ok tt
  unfolding walk_tails accessor_from
  accessor_from-semantic [] i at offset end t h inside e found = absurd (ground (arith, found))
  accessor_from-semantic (u ∷ ts) zero at offset end t h inside e found =
      let (next, stepped, _) = >>=-eq-ok (full_step um bytes u at offset) _ e in
      let same : u ≡ t = cc in rw (← same) (step-Meets u at offset next h.0 inside stepped).0
  accessor_from-semantic (u ∷ ts) (suc i) at offset end t h inside e found =
      let (next, stepped, rest) = >>=-eq-ok (full_step um bytes u at offset) _ e in
      let (_, moved, front) = step-Meets u at offset next h.0 inside stepped in
      rw moved (accessor_from-semantic ts i (at + header_width u) next end t h.1 front rest found)

  pub encoded_from-walk :
      (ts : List Tail) (at offset end : ℕ)
      → All (λ u. capacity_checks um u.payload ≡ true) ts
      → offset ≤ length bytes
      → walk_tails (full_step um bytes) ts at offset ≡ ok end
      → (encoded_from um bytes ts at offset ≡ end) × (end ≤ length bytes)
  unfolding walk_tails encoded_from
  encoded_from-walk [] at offset end h inside e = let same = ok-eq e in (same, rw (← same) inside)
  encoded_from-walk (u ∷ ts) at offset end h inside e =
      let (next, stepped, rest) = >>=-eq-ok (full_step um bytes u at offset) _ e in
      let (_, moved, front) = step-Meets u at offset next h.0 inside stepped in
      rw moved (encoded_from-walk ts (at + header_width u) next end h.1 front rest)

module _ {um : ℕ} (target : IsTarget um) (s : Schema) (top alignment : ℕ)
    (compiles : IsCompact um s) (bytes : List ℕ) (bytes-IsByte : All IsByte bytes)
    (size : length bytes ≤ um / 2) (accepted : validate um s top alignment bytes ≡ ok tt) where
  pub walked :
      (end : ℕ) × (walk_tails
          (full_step um bytes)
          s.tail_fields
          (inline_size s.inline_fields)
          (header_size s)
        ≡ ok end)
      × (header_size s ≤ length bytes)
      × (validate_storage_len (header_size s) top alignment (length bytes) ≡ ok tt)
  unfolding validate
  walked =
      let (_, stored, rest) =
        >>=-eq-ok (validate_storage_len (header_size s) top alignment (length bytes)) _ accepted in
      let (_, _, tails) = >>=-eq-ok (validate_header bytes s.inline_fields 0) _ rest in
      let (end, ends, _) =
        >>=-eq-ok
          (walk_tails (full_step um bytes) s.tail_fields (inline_size s.inline_fields)
            (header_size s))
          _ tails in
      (end, ends, (storage-fits (header_size s) top alignment (length bytes) stored).0, stored)

  -- For a schema whose compile-time assertions hold, on a target of 32 to 64 bits, and a buffer
  -- of bytes no longer than `isize::MAX` that `validate` accepts: what the unchecked accessor of
  -- any tail field shows passes the checks of `validate` on that field, so the bytes of a string
  -- are well-formed UTF-8 and the elements of a vector are valid.
  pub accessor-semantic :
      (i : ℕ) (t : Tail)
      → get_elem? s.tail_fields i ≡ some t
      → semantic um bytes t.payload (accessor um s bytes i) ≡ ok tt
  unfolding accessor
  accessor-semantic i t found =
      let (end, ends, front, _) = walked in
      accessor_from-semantic target bytes bytes-IsByte size s.tail_fields i _ (header_size s) end t
        compiles front ends found

  -- For a schema whose compile-time assertions hold, on a target of 32 to 64 bits, and a buffer
  -- of bytes no longer than `isize::MAX` that `validate` accepts: the unchecked walk of
  -- `current_encoded_len` ends where the checked walk ends, within the buffer.
  pub current_encoded_len-layout_end :
      (layout_end um s top alignment bytes ≡ ok (current_encoded_len um s bytes))
      × (current_encoded_len um s bytes ≤ length bytes)
  unfolding current_encoded_len layout_end
  current_encoded_len-layout_end =
      let (end, ends, front, stored) = walked in
      let (same, inside) =
        encoded_from-walk target bytes bytes-IsByte size s.tail_fields _ (header_size s) end
          compiles front ends in
      rw (same, stored)
        (
          walk-depth um bytes s.tail_fields (inline_size s.inline_fields) (header_size s) end ends,
          inside,
        )
