-- ===== src/Compact/Exact.antt =====
-- What a tail adds to the offset: no more than `MAX_SIZE` counts for it, in units of
-- `TAIL_ALIGNMENT`.
use pinapod.Base.{ℕ, ◌+◌, ◌*◌, ◌/◌, ◌≤◌, ◌≡◌, ◌∙◌, arith}
use pinapod.Base.{some, true, not, List, [], ◌∷◌, leb, ◌==◌, length, All}
use pinapod.Base.Bytes.{IsByte}
use Prim.Native.Nat.{◌∣◌}
use native.Mathlib.Nat.{dvd_trans, one-dvd, dvd-add, dvd-mul_left_of_dvd, mul-le-mul_right}
use pinapod.Error.{buffer_too_small, invalid_length, ensure, ensure-eq-ok, Returns, Returns->>=}
use pinapod.Compact.Support.{ok_or, get_range, decode_prefix}
use pinapod.Compact.{TailPayload, string, vector, pfx_of, field_bytes}
use pinapod.Compact.{
  bounded_tail_end, bounded_byte_len, bounded_read_prefix, capacity_checks, IsTarget,
}
use pinapod.Compact.Walks.{always_bounds, some_bounds}
use pinapod.Compact.Sizes.{checked, payload_max, payload_atoms}
use pinapod.Compact.Reads.{read-agree}
use pinapod.Compact.Agree.{string-end, vector-end, vector-product, sum_of, product_of}
use pinapod.Compact.Contract.{read-within, start-agree}

-- From `offset` to `next` by at most `most`, in steps of `a`.
abbrev pub Grown : (a most offset next : ℕ) → Type 0
Grown a most offset next = (d : ℕ) × (next ≡ offset + d) × (d ≤ most) × (a ∣ d)

pub checked-value : (um n m : ℕ) → checked um n ≡ some m → m ≡ n
checked-value um n m e = ground arith

module _ {um : ℕ} (target : IsTarget um) (bytes : List ℕ) (bytes-IsByte : All IsByte bytes)
    (size : length bytes ≤ um / 2) (a : ℕ) where
  pub always-Grown :
      (p : TailPayload) (at offset most : ℕ)
      → capacity_checks um p ≡ true
      → offset ≤ length bytes
      → payload_max um p ≡ some most
      → All (λ n. a ∣ n) (payload_atoms p [])
      → Returns (λ r. Grown a most offset r.1) (always_bounds um bytes p at offset)
  unfolding always_bounds payload_max
  always-Grown (string max pfx) at offset most h inside e units =
      Returns->>= (λ r. Grown a most offset r.1) (decode_prefix um (field_bytes bytes at pfx)) _
        λ len _.
          Returns->>= (λ r. Grown a most offset r.1) (ensure (leb len max) invalid_length) _
            λ _ fits.
              Returns->>= (λ r. Grown a most offset r.1) (bounded_tail_end um pfx offset len) _
                λ end ends.
                  Returns->>= (λ r. Grown a most offset r.1)
                    (ok_or (get_range bytes offset end) buffer_too_small) _
                    λ x _.
                      (let small : len ≤ max =
                          (let t = ensure-eq-ok (leb len max) invalid_length fits in
                            ground (arith, t)) in
                        (
                          len,
                          sum_of um offset len end (
                              string-end target bytes bytes-IsByte size max pfx offset len h inside
                                small
                              ∙ ends),
                          ground (arith, small, e),
                          dvd_trans a units.0 (one-dvd len),
                        ))
  always-Grown (vector elem max pfx) at offset most h inside e units =
      Returns->>= (λ r. Grown a most offset r.1) (decode_prefix um (field_bytes bytes at pfx)) _
        λ len _.
          Returns->>= (λ r. Grown a most offset r.1) (ensure (leb len max) invalid_length) _
            λ _ fits.
              Returns->>= (λ r. Grown a most offset r.1)
                (ensure (not (elem.size == 0)) invalid_length) _
                λ _ _.
                  Returns->>= (λ r. Grown a most offset r.1) (bounded_byte_len um pfx len elem.size)
                    _
                    λ byte_len product.
                      Returns->>= (λ r. Grown a most offset r.1)
                        (bounded_tail_end um pfx offset byte_len) _
                        λ end ends.
                          Returns->>= (λ r. Grown a most offset r.1)
                            (ok_or (get_range bytes offset end) buffer_too_small) _
                            λ x _.
                              (let small : len ≤ max =
                                  (let t = ensure-eq-ok (leb len max) invalid_length fits in
                                    ground (arith, t)) in
                                let made =
                                  vector-product target bytes bytes-IsByte size elem max pfx len h
                                    small
                                  ∙ product in
                                let value = product_of um len elem.size byte_len made in
                                (
                                  byte_len,
                                  sum_of um offset byte_len end (
                                      vector-end target bytes bytes-IsByte size elem max pfx offset
                                        len byte_len h inside small made
                                      ∙ ends),
                                  rw (value, checked-value um (max * elem.size) most e)
                                      (mul-le-mul_right elem.size small),
                                  rw value (dvd-mul_left_of_dvd a units.0 len),
                                ))

  pub some-Grown :
      (p : TailPayload) (offset most : ℕ)
      → capacity_checks um p ≡ true
      → offset ≤ length bytes
      → payload_max um p ≡ some most
      → All (λ n. a ∣ n) (payload_atoms p (pfx_of p ∷ []))
      → Returns (λ r. Grown a (most + pfx_of p) offset r.1) (some_bounds um bytes p offset)
  unfolding some_bounds payload_max
  some-Grown (string max pfx) offset most h inside e units =
      Returns->>= (λ r. Grown a (most + pfx) offset r.1) (bounded_read_prefix um bytes offset pfx) _
        λ len reads.
          Returns->>= (λ r. Grown a (most + pfx) offset r.1) (ensure (leb len max) invalid_length) _
            λ _ fits.
              Returns->>= (λ r. Grown a (most + pfx) offset r.1)
                (bounded_tail_end um pfx offset pfx) _
                λ start begins.
                  Returns->>= (λ r. Grown a (most + pfx) offset r.1)
                    (bounded_tail_end um pfx start len) _
                    λ end ends.
                      Returns->>= (λ r. Grown a (most + pfx) offset r.1)
                        (ok_or (get_range bytes start end) buffer_too_small) _
                        λ x _.
                          (let small : len ≤ max =
                              (let t = ensure-eq-ok (leb len max) invalid_length fits in
                                ground (arith, t)) in
                            let front = read-within um bytes offset pfx len (
                              read-agree target bytes bytes-IsByte size (string max pfx) offset h
                                inside
                              ∙ reads) in
                            let begun = sum_of um offset pfx start (
                              start-agree target bytes bytes-IsByte size offset pfx front
                              ∙ begins) in
                            let ended = sum_of um start len end (
                              string-end target bytes bytes-IsByte size max pfx start len h
                                (omega (arith, begun, front)) small
                              ∙ ends) in
                            (
                              pfx + len,
                              omega (arith, begun, ended),
                              ground (arith, small, e),
                              dvd-add a units.1.0 (dvd_trans a units.0 (one-dvd len)),
                            ))
  some-Grown (vector elem max pfx) offset most h inside e units =
      Returns->>= (λ r. Grown a (most + pfx) offset r.1) (bounded_read_prefix um bytes offset pfx) _
        λ len reads.
          Returns->>= (λ r. Grown a (most + pfx) offset r.1) (ensure (leb len max) invalid_length) _
            λ _ fits.
              Returns->>= (λ r. Grown a (most + pfx) offset r.1)
                (ensure (not (elem.size == 0)) invalid_length) _
                λ _ _.
                  Returns->>= (λ r. Grown a (most + pfx) offset r.1)
                    (bounded_tail_end um pfx offset pfx) _
                    λ start begins.
                      Returns->>= (λ r. Grown a (most + pfx) offset r.1)
                        (bounded_byte_len um pfx len elem.size) _
                        λ byte_len product.
                          Returns->>= (λ r. Grown a (most + pfx) offset r.1)
                            (bounded_tail_end um pfx start byte_len) _
                            λ end ends.
                              Returns->>= (λ r. Grown a (most + pfx) offset r.1)
                                (ok_or (get_range bytes start end) buffer_too_small) _
                                λ x _.
                                  (let small : len ≤ max =
                                      (let t = ensure-eq-ok (leb len max) invalid_length fits in
                                        ground (arith, t)) in
                                    let front = read-within um bytes offset pfx len (
                                      read-agree target bytes bytes-IsByte size
                                        (vector elem max pfx) offset h inside
                                      ∙ reads) in
                                    let begun = sum_of um offset pfx start (
                                      start-agree target bytes bytes-IsByte size offset pfx front
                                      ∙ begins) in
                                    let made =
                                      vector-product target bytes bytes-IsByte size elem max pfx len
                                        h small
                                      ∙ product in
                                    let value = product_of um len elem.size byte_len made in
                                    let ended = sum_of um start byte_len end (
                                      vector-end target bytes bytes-IsByte size elem max pfx start
                                        len byte_len h (omega (arith, begun, front)) small made
                                      ∙ ends) in
                                    let bound : byte_len ≤ most =
                                      rw (value, checked-value um (max * elem.size) most e)
                                        (mul-le-mul_right elem.size small) in
                                    (
                                      pfx + byte_len,
                                      omega (arith, begun, ended),
                                      omega (arith, bound),
                                      dvd-add a units.1.0
                                          (rw value (dvd-mul_left_of_dvd a units.0 len)),
                                    ))
