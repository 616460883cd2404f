-- ===== src/Compact/Optionals.antt =====
-- The accessors of optional tails, and so of every tail, against the validating walk.
use pinapod.Base.{ℕ, ◌+◌, ◌/◌, ◌%◌, ◌≤◌, ◌≡◌, refl, ◌∙◌, sym, arith, inl, inr}
use pinapod.Base.{
  none, some, true, false, not, List, leb, ◌==◌, if◌then◌else◌, length, get_or, All, Bool-cases,
}
use pinapod.Base.Bytes.{IsByte}
use native.Mathlib.Nat.{mod-eq_of_lt}
use pinapod.Error.{
  buffer_too_small, invalid_length, invalid_tag, ok, err, ensure, ensure-eq-ok, Returns,
  Returns->>=,
}
use pinapod.Compact.Support.{ok_or, get_range, read_prefix}
use pinapod.Compact.{always, option_tag, TailPayload, string, vector, Tail, pfx_of}
use pinapod.Compact.{
  bounded_tail_end, bounded_byte_len, bounded_read_prefix, capacity_checks, IsTarget,
}
use pinapod.Compact.Walks.{always_bounds, some_bounds, bounds}
use pinapod.Compact.Views.{payload_len, offset_step, field_at}
use pinapod.Compact.Bounds.{presence-cases, ok_or-within}
use pinapod.Compact.Agree.{string-end, vector-end, vector-product, sum_of, product_of}
use pinapod.Compact.Reads.{read-agree}
use pinapod.Compact.Contract.{read-within, start-agree}
use pinapod.Compact.Accessors.{Meets, read_len-read, range-value, plain, always-Meets, small}

plain_option :
    (um offset pfx n end : ℕ)
    → end ≡ offset + pfx + n
    → end ≤ um
    → (offset + (pfx + n % (um + 1)) % (um + 1)) % (um + 1) ≡ end
plain_option um offset pfx n end e h =
    let inner : n % (um + 1) ≡ n = mod-eq_of_lt {n = n} {m = um + 1} (omega (arith, e, h)) in
    rw inner (plain um offset (pfx + n) end (omega (arith, e)) h)

module _ {um : ℕ} (target : IsTarget um) (bytes : List ℕ) (bytes-IsByte : All IsByte bytes)
    (size : length bytes ≤ um / 2) where
  some-found :
      (t : Tail) (at offset count n start end : ℕ) (x : List ℕ)
      → t.presence ≡ option_tag
      → (get_or bytes at 0 == 0) ≡ false
      → read_prefix um bytes offset (pfx_of t.payload) ≡ ok count
      → payload_len t.payload count ≡ n
      → start ≡ offset + pfx_of t.payload
      → end ≡ start + n
      → ok_or (get_range bytes start end) buffer_too_small ≡ ok x
      → Meets um bytes t at offset (some (count, x), end)
  unfolding field_at offset_step
  some-found t at offset count n start end x p tag reads e starts ends found =
      let value = read_len-read um bytes offset (pfx_of t.payload) count reads in
      let shown = range-value bytes start n end x found ends in
      let top = small target bytes bytes-IsByte size end (ok_or-within bytes start end x found) in
      let begun : (offset + pfx_of t.payload) % (um + 1) ≡ start =
        mod-eq_of_lt {n = offset + pfx_of t.payload} {m = um + 1} (omega (arith, starts, ends, top))
        ∙ sym starts in
      (
        rw (p, tag, value, e, begun, shown) refl,
        rw (p, tag, value, e)
            (plain_option um offset (pfx_of t.payload) n end (omega (arith, starts, ends)) top),
      )

  some-Meets :
      (t : Tail) (p : TailPayload) (at offset : ℕ)
      → t.presence ≡ option_tag
      → (get_or bytes at 0 == 0) ≡ false
      → t.payload ≡ p
      → capacity_checks um p ≡ true
      → offset ≤ length bytes
      → Returns (Meets um bytes t at offset) (some_bounds um bytes p offset)
  unfolding some_bounds
  some-Meets t (string max pfx) at offset p tag e h inside =
      Returns->>= (Meets um bytes t at offset) (bounded_read_prefix um bytes offset pfx) _
        λ len reads.
          Returns->>= (Meets um bytes t at offset) (ensure (leb len max) invalid_length) _ λ _ fits.
            Returns->>= (Meets um bytes t at offset) (bounded_tail_end um pfx offset pfx) _
              λ start begins.
                Returns->>= (Meets um bytes t at offset) (bounded_tail_end um pfx start len) _
                  λ end ends.
                    Returns->>= (Meets um bytes t at offset)
                      (ok_or (get_range bytes start end) buffer_too_small) _
                      λ x found.
                        (let few : len ≤ max =
                            (let b = ensure-eq-ok (leb len max) invalid_length fits in
                              ground (arith, b)) in
                          let read =
                            read-agree target bytes bytes-IsByte size (string max pfx) offset h
                              inside
                            ∙ reads in
                          let front = read-within um bytes offset pfx len read in
                          let begun = sum_of um offset pfx start (
                            start-agree target bytes bytes-IsByte size offset pfx front ∙ begins) in
                          let sum = sum_of um start len end (
                            string-end target bytes bytes-IsByte size max pfx start len h
                              (omega (arith, begun, front)) few
                            ∙ ends) in
                          some-found t at offset len len start end x p tag (rw e read) (rw e refl)
                            (rw e begun) sum found)
  some-Meets t (vector elem max pfx) at offset p tag e h inside =
      Returns->>= (Meets um bytes t at offset) (bounded_read_prefix um bytes offset pfx) _
        λ len reads.
          Returns->>= (Meets um bytes t at offset) (ensure (leb len max) invalid_length) _ λ _ fits.
            Returns->>= (Meets um bytes t at offset) (ensure (not (elem.size == 0)) invalid_length)
              _
              λ _ _.
                Returns->>= (Meets um bytes t at offset) (bounded_tail_end um pfx offset pfx) _
                  λ start begins.
                    Returns->>= (Meets um bytes t at offset) (bounded_byte_len um pfx len elem.size)
                      _
                      λ byte_len product.
                        Returns->>= (Meets um bytes t at offset)
                          (bounded_tail_end um pfx start byte_len) _
                          λ end ends.
                            Returns->>= (Meets um bytes t at offset)
                              (ok_or (get_range bytes start end) buffer_too_small) _
                              λ x found.
                                (let few : len ≤ max =
                                    (let b = ensure-eq-ok (leb len max) invalid_length fits in
                                      ground (arith, b)) in
                                  let read =
                                    read-agree target bytes bytes-IsByte size (vector elem max pfx)
                                      offset h inside
                                    ∙ reads in
                                  let front = read-within um bytes offset pfx len read in
                                  let begun = sum_of um offset pfx start (
                                    start-agree target bytes bytes-IsByte size offset pfx front
                                    ∙ begins) in
                                  let made =
                                    vector-product target bytes bytes-IsByte size elem max pfx len h
                                      few
                                    ∙ product in
                                  let sum = sum_of um start byte_len end (
                                    vector-end target bytes bytes-IsByte size elem max pfx start len
                                      byte_len h (omega (arith, begun, front)) few made
                                    ∙ ends) in
                                  some-found t at offset len byte_len start end x p tag (rw e read)
                                    (rw e (sym (product_of um len elem.size byte_len made)))
                                    (rw e begun) sum found)

  absent-Meets :
      (t : Tail) (at offset : ℕ)
      → t.presence ≡ option_tag
      → (get_or bytes at 0 == 0) ≡ true
      → Meets um bytes t at offset (none, offset)
  unfolding field_at offset_step
  absent-Meets t at offset p tag = (rw (p, tag) refl, rw (p, tag) refl)

  bounds-always :
      (t : Tail) (at offset : ℕ)
      → t.presence ≡ always
      → bounds um bytes t at offset ≡ always_bounds um bytes t.payload at offset
  unfolding bounds
  bounds-always t at offset p = rw p refl

  bounds-option :
      (t : Tail) (at offset : ℕ)
      → t.presence ≡ option_tag
      → bounds um bytes t at offset ≡ (
          if get_or bytes at 0 == 0
          then ok (none, offset)
          else if get_or bytes at 0 == 1
          then some_bounds um bytes t.payload offset
          else err invalid_tag)
  unfolding bounds
  bounds-option t at offset p = rw p refl

  pub bounds-Meets :
      (t : Tail) (at offset : ℕ)
      → capacity_checks um t.payload ≡ true
      → offset ≤ length bytes
      → Returns (Meets um bytes t at offset) (bounds um bytes t at offset)
  bounds-Meets t at offset h inside = elim (presence-cases t.presence) [
    | inl p ↦
        rw (bounds-always t at offset p)
          (always-Meets target bytes bytes-IsByte size t t.payload at offset p refl h inside)
    | inr p ↦ elim (Bool-cases (get_or bytes at 0 == 0)) [
      | inl absent ↦ rw (bounds-option t at offset p, absent) (absent-Meets t at offset p absent)
      | inr other ↦ elim (Bool-cases (get_or bytes at 0 == 1)) [
        | inl present ↦
            rw (bounds-option t at offset p, other, present)
              (some-Meets t t.payload at offset p other refl h inside)
        | inr wrong ↦ rw (bounds-option t at offset p, other, wrong) tt
      ]
    ]
  ]
