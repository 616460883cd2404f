-- ===== src/Compact/Stored/Back.antt =====
-- What the layout statements accept is stored.
use pinapod.Base.{
  ℕ, ◌+◌, ◌/◌, ◌≤◌, ◌≡◌, ◌⊎◌, refl, ap, sym, ◌∙◌, arith, inl, inr, none, some, true, not, List, [],
  ◌++◌, leb, ◌==◌, if◌then◌else◌, length, get_or, All, Bool-cases,
}
use pinapod.Base.{length-append, ==_iff}
use pinapod.Base.Bytes.{IsByte}
use pinapod.Base.Slices.{slice, length-slice, slice-add}
use Prim.Native.String.{String}
use pinapod.Error.{
  Result, PinaPodError, ok, ok-eq, err, >>=-eq-ok, ensure, ensure-eq-ok, buffer_too_small,
  invalid_length, invalid_tag,
}
use pinapod.Compact.Support.{ok_or, get_range, decode_prefix, read_prefix, checked_add}
use pinapod.Compact.{
  TailPresence, always, option_tag, TailPayload, string, vector, pfx_of, header_width, field_bytes,
  bounded_tail_end, bounded_byte_len, bounded_read_prefix, capacity_checks, IsTarget,
}
use pinapod.Compact.Walks.{Segment, always_bounds, some_bounds, bounds}
use pinapod.Compact.Views.{payload_len}
use pinapod.Compact.Bounds.{ok_or-within}
use pinapod.Compact.Agree.{string-end, vector-end, vector-product, sum_of, product_of}
use pinapod.Compact.Reads.{read-agree}
use pinapod.Compact.Contract.{read-within, start-agree}
use pinapod.Compact.Accessors.{range-value}
use pinapod.Compact.Stored.{max_of, Value, Stored}
use pinapod.Compact.Stored.Forward.{get_or-field}

-- A range that was found is a slice of its length.
found-slice :
    (bytes : List ℕ) (lo n hi : ℕ) (x : List ℕ)
    → ok_or (get_range bytes lo hi) buffer_too_small ≡ ok x
    → hi ≡ lo + n
    → (length x ≡ n) × (slice lo n bytes ≡ x) × (lo + n ≤ length bytes)
found-slice bytes lo n hi x e h =
    let within = ok_or-within bytes lo hi x e in
    let value = range-value bytes lo n hi x e h in
    (
      ap length value ∙ length-slice lo n bytes (omega (arith, h, within)),
      sym value,
      omega (arith, h, within),
    )

fits-le : (a b : ℕ) → ensure (leb a b) invalid_length ≡ ok tt → a ≤ b
fits-le a b e = let t = ensure-eq-ok (leb a b) invalid_length e in ground (arith, t)

read-slice :
    (um : ℕ) (bytes : List ℕ) (offset width x : ℕ)
    → read_prefix um bytes offset width ≡ ok x
    → decode_prefix um (slice offset width bytes) ≡ ok x
unfolding read_prefix
read-slice um bytes offset width x e =
    let (end, added, rest) = >>=-eq-ok (checked_add um offset width) _ e in
    let (found, got, decoded) =
      >>=-eq-ok (ok_or (get_range bytes offset end) buffer_too_small) _ rest in
    rw (range-value bytes offset width end found got (sum_of um offset width end added)) at decoded

module _ {um : ℕ} (target : IsTarget um) (bytes : List ℕ) (bytes-IsByte : All IsByte bytes)
    (size : length bytes ≤ um / 2) where
  -- A value that stands at an offset, and the result of the statements on it.
  abbrev Found : TailPayload → ℕ → ℕ → Segment × ℕ → Type 0
  Found p start count r =
      (source : List ℕ) × Value p count source
      × (slice start (length source) bytes ≡ source)
      × (start + length source ≤ length bytes)
      × (r ≡ (some (count, source), start + length source))

  range-Found :
      (p : TailPayload) (start begin count n end : ℕ) (x : List ℕ) (r : Segment × ℕ)
      → count ≤ max_of p
      → n ≡ payload_len p count
      → start ≡ begin
      → end ≡ start + n
      → ok_or (get_range bytes start end) buffer_too_small ≡ ok x
      → ◌≡◌ {A = Result PinaPodError (Segment × ℕ)} (ok (some (count, x), end)) (ok r)
      → Found p begin count r
  range-Found p start begin count n end x r few sized begins ends found last =
      let (len, shown, inside) = found-slice bytes start n end x found ends in
      (
        x,
        (few, len ∙ sized),
        ap (λ k. slice begin k bytes) len ∙ ap (λ k. slice k n bytes) (sym begins) ∙ shown,
        omega (arith, len, inside, begins),
        sym (ok-eq last) ∙ ap (λ k. (some (count, x), k)) (omega (arith, len, ends, begins)),
      )

  always-Found :
      (p : TailPayload) (at offset : ℕ) (r : Segment × ℕ)
      → capacity_checks um p ≡ true
      → offset ≤ length bytes
      → always_bounds um bytes p at offset ≡ ok r
      → (count : ℕ) × (decode_prefix um (field_bytes bytes at (pfx_of p)) ≡ ok count)
        × Found p offset count r
  unfolding always_bounds
  always-Found (string max pfx) at offset r h inside e =
      let (count, decoded, e1) = >>=-eq-ok (decode_prefix um (field_bytes bytes at pfx)) _ e in
      let (_, fits, e2) = >>=-eq-ok (ensure (leb count max) invalid_length) _ e1 in
      let (end, ends, e3) = >>=-eq-ok (bounded_tail_end um pfx offset count) _ e2 in
      let (x, found, last) = >>=-eq-ok (ok_or (get_range bytes offset end) buffer_too_small) _ e3 in
      let few = fits-le count max fits in
      let sum =
        sum_of um offset count end
          (string-end target bytes bytes-IsByte size max pfx offset count h inside few ∙ ends) in
      (
        count,
        decoded,
        range-Found (string max pfx) offset offset count count end x r few refl refl sum found last,
      )
  always-Found (vector elem max pfx) at offset r h inside e =
      let (count, decoded, e1) = >>=-eq-ok (decode_prefix um (field_bytes bytes at pfx)) _ e in
      let (_, fits, e2) = >>=-eq-ok (ensure (leb count max) invalid_length) _ e1 in
      let (_, _, e3) = >>=-eq-ok (ensure (not (elem.size == 0)) invalid_length) _ e2 in
      let (n, product, e4) = >>=-eq-ok (bounded_byte_len um pfx count elem.size) _ e3 in
      let (end, ends, e5) = >>=-eq-ok (bounded_tail_end um pfx offset n) _ e4 in
      let (x, found, last) = >>=-eq-ok (ok_or (get_range bytes offset end) buffer_too_small) _ e5 in
      let few = fits-le count max fits in
      let made = vector-product target bytes bytes-IsByte size elem max pfx count h few ∙ product in
      let sum = sum_of um offset n end (
        vector-end target bytes bytes-IsByte size elem max pfx offset count n h inside few made
        ∙ ends) in
      (
        count,
        decoded,
        range-Found (vector elem max pfx) offset offset count n end x r few
            (product_of um count elem.size n made) refl sum found last,
      )

  some-Found :
      (p : TailPayload) (offset : ℕ) (r : Segment × ℕ)
      → capacity_checks um p ≡ true
      → offset ≤ length bytes
      → some_bounds um bytes p offset ≡ ok r
      → (count : ℕ) × (decode_prefix um (slice offset (pfx_of p) bytes) ≡ ok count)
        × (offset + pfx_of p ≤ length bytes)
        × Found p (offset + pfx_of p) count r
  unfolding some_bounds
  some-Found (string max pfx) offset r h inside e =
      let (count, reads, e1) = >>=-eq-ok (bounded_read_prefix um bytes offset pfx) _ e in
      let (_, fits, e2) = >>=-eq-ok (ensure (leb count max) invalid_length) _ e1 in
      let (start, begins, e3) = >>=-eq-ok (bounded_tail_end um pfx offset pfx) _ e2 in
      let (end, ends, e4) = >>=-eq-ok (bounded_tail_end um pfx start count) _ e3 in
      let (x, found, last) = >>=-eq-ok (ok_or (get_range bytes start end) buffer_too_small) _ e4 in
      let few = fits-le count max fits in
      let read =
        read-agree target bytes bytes-IsByte size (string max pfx) offset h inside ∙ reads in
      let front = read-within um bytes offset pfx count read in
      let begun =
        sum_of um offset pfx start
          (start-agree target bytes bytes-IsByte size offset pfx front ∙ begins) in
      let sum = sum_of um start count end (
        string-end target bytes bytes-IsByte size max pfx start count h
          (omega (arith, begun, front)) few
        ∙ ends) in
      (
        count,
        read-slice um bytes offset pfx count read,
        front,
        range-Found (string max pfx) start (offset + pfx) count count end x r few refl begun sum
            found last,
      )
  some-Found (vector elem max pfx) offset r h inside e =
      let (count, reads, e1) = >>=-eq-ok (bounded_read_prefix um bytes offset pfx) _ e in
      let (_, fits, e2) = >>=-eq-ok (ensure (leb count max) invalid_length) _ e1 in
      let (_, _, e3) = >>=-eq-ok (ensure (not (elem.size == 0)) invalid_length) _ e2 in
      let (start, begins, e4) = >>=-eq-ok (bounded_tail_end um pfx offset pfx) _ e3 in
      let (n, product, e5) = >>=-eq-ok (bounded_byte_len um pfx count elem.size) _ e4 in
      let (end, ends, e6) = >>=-eq-ok (bounded_tail_end um pfx start n) _ e5 in
      let (x, found, last) = >>=-eq-ok (ok_or (get_range bytes start end) buffer_too_small) _ e6 in
      let few = fits-le count max fits in
      let read =
        read-agree target bytes bytes-IsByte size (vector elem max pfx) offset h inside ∙ reads in
      let front = read-within um bytes offset pfx count read in
      let begun =
        sum_of um offset pfx start
          (start-agree target bytes bytes-IsByte size offset pfx front ∙ begins) in
      let made = vector-product target bytes bytes-IsByte size elem max pfx count h few ∙ product in
      let sum = sum_of um start n end (
        vector-end target bytes bytes-IsByte size elem max pfx start count n h
          (omega (arith, begun, front)) few made
        ∙ ends) in
      (
        count,
        read-slice um bytes offset pfx count read,
        front,
        range-Found (vector elem max pfx) start (offset + pfx) count n end x r few
            (product_of um count elem.size n made) begun sum found last,
      )

  tag-cases :
      (p : TailPayload) (at offset : ℕ) (r : Segment × ℕ)
      → (if get_or bytes at 0 == 0
          then ok (none, offset)
          else if get_or bytes at 0 == 1
          then some_bounds um bytes p offset
          else err invalid_tag)
        ≡ ok r
      → ((get_or bytes at 0 ≡ 0) × (r ≡ (none, offset)))
        ⊎ ((get_or bytes at 0 ≡ 1) × (some_bounds um bytes p offset ≡ ok r))
  tag-cases p at offset r e = elim (Bool-cases (get_or bytes at 0 == 0)) [
    | inl absent ↦ inl ((==_iff _ _).0 absent, sym (ok-eq (rw absent at e)))
    | inr other ↦ elim (Bool-cases (get_or bytes at 0 == 1)) [
      | inl present ↦ inr ((==_iff _ _).0 present, rw (other, present) at e)
      | inr wrong ↦ absurd (ground (arith, rw (other, wrong) at e))
    ]
  ]

  -- The block of a tail that the layout statements accept, and that it is stored.
  pub bounds-Back :
      (name : String) (v : TailPresence) (p : TailPayload) (at offset : ℕ) (r : Segment × ℕ)
      → capacity_checks um p ≡ true
      → offset ≤ length bytes
      → bounds um bytes (record { name = name; presence = v; payload = p }) at offset ≡ ok r
      → (block : List ℕ) × Stored um bytes
          (record { name = name; presence = v; payload = p })
          at
          offset
          r.0
          block
        × (r.1 ≡ offset + length block)
  unfolding bounds header_width
  bounds-Back name always p at offset r h inside e =
      let (count, decoded, (source, value, shown, within, same)) =
        always-Found p at offset r h inside e in
      rw same (source, (decoded, (value, refl), shown, within), refl)
  bounds-Back name option_tag p at offset r h inside e = elim (tag-cases p at offset r e) [
    | inl (tag, same) ↦
        rw same ([], (get_or-field bytes at ∙ tag, refl, refl, omega (arith, inside)), omega arith)
    | inr (tag, found) ↦
        let (count, decoded, front, (source, value, shown, within, same)) =
          some-Found p offset r h inside found in
        let prefix = slice offset (pfx_of p) bytes in
        let width : length prefix ≡ pfx_of p = length-slice offset (pfx_of p) bytes front in
        let total : length (prefix ++ source) ≡ pfx_of p + length source =
          omega (arith, length-append prefix source, width) in
        rw same (
          prefix ++ source,
          (
            get_or-field bytes at ∙ tag,
            (value, prefix, width, decoded, refl),
            ap (λ k. slice offset k bytes) total
                ∙ slice-add offset (pfx_of p) (length source) bytes
                ∙ ap (λ l. prefix ++ l) shown,
            omega (arith, total, within),
          ),
          omega (arith, total),
        )
  ]
