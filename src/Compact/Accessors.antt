-- ===== src/Compact/Accessors.antt =====
-- The unchecked accessors and the walk of the validation.
use pinapod.Base.{ℕ, ◌+◌, ◌-◌, ◌/◌, ◌%◌, ◌≤◌, ◌≡◌, refl, ap, ◌∙◌, sym, arith}
use pinapod.Base.{some, true, not, List, leb, ◌==◌, length, take, drop, All}
use pinapod.Base.Bytes.{IsByte, from_le_bytes}
use native.Mathlib.Nat.{mod-eq_of_lt}
use pinapod.Error.{
  buffer_too_small, invalid_length, ok, ensure, ensure-eq-ok, Returns, Returns->>=, >>=-eq-ok,
}
use pinapod.Compact.Support.{ok_or, get_range, decode_prefix, read_prefix, checked_add}
use pinapod.Compact.{always, TailPayload, string, vector, Tail, pfx_of, field_bytes}
use pinapod.Compact.{bounded_tail_end, bounded_byte_len, capacity_checks, IsTarget}
use pinapod.Compact.Walks.{Segment, always_bounds}
use pinapod.Compact.Views.{payload_len, read_len, offset_step, field_at}
use pinapod.Compact.Bounds.{ok_or-within}
use pinapod.Compact.Agree.{string-end, vector-end, vector-product, sum_of, product_of}

decode-value :
    (um : ℕ) (bs : List ℕ) (x : ℕ) → decode_prefix um bs ≡ ok x → (from_le_bytes bs ≡ x) × (x ≤ um)
unfolding decode_prefix
decode-value um bs x e = ground arith

pub range-value :
    (bytes : List ℕ) (lo n hi : ℕ) (x : List ℕ)
    → ok_or (get_range bytes lo hi) buffer_too_small ≡ ok x
    → hi ≡ lo + n
    → x ≡ take n (drop lo bytes)
range-value bytes lo n hi x e h =
    let gap : hi - lo ≡ n = omega (arith, h) in
    let taken : take (hi - lo) (drop lo bytes) ≡ x = ground (arith, e) in
    sym taken ∙ ap (λ k. take k (drop lo bytes)) gap

module _ (um : ℕ) (bytes : List ℕ) where
  pub read_len-decode :
      (at pfx x : ℕ)
      → decode_prefix um (field_bytes bytes at pfx) ≡ ok x
      → read_len um bytes at pfx ≡ x
  unfolding read_len
  read_len-decode at pfx x e =
      let (value, small) = decode-value um (field_bytes bytes at pfx) x e in
      rw value (mod-eq_of_lt {n = x} {m = um + 1} (omega (arith, small)))

  pub read_len-read :
      (offset pfx x : ℕ) → read_prefix um bytes offset pfx ≡ ok x → read_len um bytes offset pfx ≡ x
  unfolding read_prefix
  read_len-read offset pfx x e =
      let (end, added, rest) = >>=-eq-ok (checked_add um offset pfx) _ e in
      let (found, got, decoded) =
        >>=-eq-ok (ok_or (get_range bytes offset end) buffer_too_small) _ rest in
      let value = range-value bytes offset pfx end found got (sum_of um offset pfx end added) in
      read_len-decode offset pfx x (rw value at decoded)

  -- What the accessor and the step make of a tail, against its segment and its end.
  abbrev pub Meets : Tail → ℕ → ℕ → Segment × ℕ → Type 0
  Meets t at offset r =
      (field_at um bytes t at offset ≡ r.0) × (offset_step um bytes t at offset ≡ r.1)

-- Sums below the modulus do not wrap around.
pub plain :
    (um offset n end : ℕ) → end ≡ offset + n → end ≤ um → (offset + n % (um + 1)) % (um + 1) ≡ end
plain um offset n end e h =
    let inner : n % (um + 1) ≡ n = mod-eq_of_lt {n = n} {m = um + 1} (omega (arith, e, h)) in
    rw (inner, ← e) (mod-eq_of_lt {n = end} {m = um + 1} (omega (arith, h)))

module _ {um : ℕ} (target : IsTarget um) (bytes : List ℕ) (bytes-IsByte : All IsByte bytes)
    (size : length bytes ≤ um / 2) where
  pub small : (n : ℕ) → n ≤ length bytes → n ≤ um
  small n h = omega (arith, h, size)

  always-found :
      (t : Tail) (at offset count n end : ℕ) (x : List ℕ)
      → t.presence ≡ always
      → decode_prefix um (field_bytes bytes at (pfx_of t.payload)) ≡ ok count
      → payload_len t.payload count ≡ n
      → end ≡ offset + n
      → ok_or (get_range bytes offset end) buffer_too_small ≡ ok x
      → Meets um bytes t at offset (some (count, x), end)
  unfolding field_at offset_step
  always-found t at offset count n end x p decoded e ends found =
      let value = read_len-decode um bytes at (pfx_of t.payload) count decoded in
      let shown = range-value bytes offset n end x found ends in
      (
        rw (p, value, e, shown) refl,
        rw (p, value, e)
            (plain um offset n end ends (small end (ok_or-within bytes offset end x found))),
      )

  pub always-Meets :
      (t : Tail) (p : TailPayload) (at offset : ℕ)
      → t.presence ≡ always
      → t.payload ≡ p
      → capacity_checks um p ≡ true
      → offset ≤ length bytes
      → Returns (Meets um bytes t at offset) (always_bounds um bytes p at offset)
  unfolding always_bounds
  always-Meets t (string max pfx) at offset p e h inside =
      Returns->>= (Meets um bytes t at offset) (decode_prefix um (field_bytes bytes at pfx)) _
        λ len decoded.
          Returns->>= (Meets um bytes t at offset) (ensure (leb len max) invalid_length) _ λ _ fits.
            Returns->>= (Meets um bytes t at offset) (bounded_tail_end um pfx offset len) _
              λ end ends.
                Returns->>= (Meets um bytes t at offset)
                  (ok_or (get_range bytes offset end) buffer_too_small) _
                  λ x found.
                    (let few : len ≤ max =
                        (let b = ensure-eq-ok (leb len max) invalid_length fits in
                          ground (arith, b)) in
                      let sum = sum_of um offset len end (
                        string-end target bytes bytes-IsByte size max pfx offset len h inside few
                        ∙ ends) in
                      always-found t at offset len len end x p (rw e decoded) (rw e refl) sum found)
  always-Meets t (vector elem max pfx) at offset p e h inside =
      Returns->>= (Meets um bytes t at offset) (decode_prefix um (field_bytes bytes at pfx)) _
        λ len decoded.
          Returns->>= (Meets um bytes t at offset) (ensure (leb len max) invalid_length) _ λ _ fits.
            Returns->>= (Meets um bytes t at offset) (ensure (not (elem.size == 0)) invalid_length)
              _
              λ _ _.
                Returns->>= (Meets um bytes t at offset) (bounded_byte_len um pfx len elem.size) _
                  λ byte_len product.
                    Returns->>= (Meets um bytes t at offset)
                      (bounded_tail_end um pfx offset byte_len) _
                      λ end ends.
                        Returns->>= (Meets um bytes t at offset)
                          (ok_or (get_range bytes offset end) buffer_too_small) _
                          λ x found.
                            (let few : len ≤ max =
                                (let b = ensure-eq-ok (leb len max) invalid_length fits in
                                  ground (arith, b)) in
                              let made =
                                vector-product target bytes bytes-IsByte size elem max pfx len h few
                                ∙ product in
                              let sum = sum_of um offset byte_len end (
                                vector-end target bytes bytes-IsByte size elem max pfx offset len
                                  byte_len h inside few made
                                ∙ ends) in
                              always-found t at offset len byte_len end x p (rw e decoded)
                                (rw e (sym (product_of um len elem.size byte_len made))) sum found)
