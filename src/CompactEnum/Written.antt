-- ===== src/CompactEnum/Written.antt =====
-- What a patch of a compact enum (pinapod-derive/src/compact_enum.rs) checks, and what its write
-- leaves: the tag, the prefix and the payload, one behind the other.
use pinapod.Base.{
  ℕ, ◌+◌, ◌*◌, ◌≤◌, ◌≡◌, refl, ap, sym, ◌∙◌, arith, inl, true, List, [], length, leb, not, ◌==◌,
}
use pinapod.Base.Bytes.{to_le_bytes}
use pinapod.Base.Memory.{copy_at, length-copy_at}
use pinapod.Base.Slices.{slice, slice-copy_at, slice-copy_apart}
use pinapod.Error.{ok, ok-eq, >>=-eq-ok, ensure, ensure-eq-ok, overflow, invalid_length}
use pinapod.Utf8.{is_utf8}
use pinapod.Compact.{IsTarget, validate_elems}
use pinapod.Compact.Agree.{sum_of, product_of}
use pinapod.Compact.Support.{check_prefix, checked_add, checked_mul}
use pinapod.Compact.Writing.Tails.{prefix_bytes, prefix_bytes-ok}
use pinapod.CompactEnum.{VariantPayload, unit, string, vector, fixed}
use pinapod.CompactEnum.Patch.{length_of, write_prefixed, write_payload}

-- What the type of a payload promises.
abbrev pub IsContent : VariantPayload → ℕ → List ℕ → Type 0
IsContent unit count source = (count ≡ 0) × (source ≡ [])
IsContent (string max pfx) count source = (length source ≡ count) × (is_utf8 source ≡ true)
IsContent (vector elem max pfx) count source = length source ≡ count * elem.size
IsContent (fixed elem) count source = (count ≡ 1) × (length source ≡ elem.size)

-- What `encoded_len` checks.
abbrev pub IsAccepted : (um : ℕ) → VariantPayload → ℕ → List ℕ → Type 0
IsAccepted um unit count source = Unit
IsAccepted um (string max pfx) count source = (count ≤ max) × (check_prefix um count pfx ≡ ok tt)
IsAccepted um (vector elem max pfx) count source =
    (count ≤ max) × (check_prefix um count pfx ≡ ok tt) × (validate_elems elem count source ≡ ok tt)
IsAccepted um (fixed elem) count source = elem.check source ≡ ok tt

-- The bytes before the payload, and the end of it.
abbrev pub start_of : ℕ → VariantPayload → ℕ
start_of tag_size unit = tag_size
start_of tag_size (string max pfx) = tag_size + pfx
start_of tag_size (vector elem max pfx) = tag_size + pfx
start_of tag_size (fixed elem) = tag_size

abbrev pub extent : ℕ → VariantPayload → List ℕ → ℕ
extent tag_size p source = start_of tag_size p + length source

-- The prefix of a payload that has one.
abbrev pub HasPrefix : ℕ → VariantPayload → ℕ → List ℕ → Type 0
HasPrefix tag_size unit count after = Unit
HasPrefix tag_size (string max pfx) count after = slice tag_size pfx after ≡ prefix_bytes pfx count
HasPrefix tag_size (vector elem max pfx) count after =
    slice tag_size pfx after ≡ prefix_bytes pfx count
HasPrefix tag_size (fixed elem) count after = Unit

-- A buffer that encodes a variant.
abbrev pub Holds : ℕ → ℕ → VariantPayload → ℕ → List ℕ → List ℕ → Type 0
Holds tag_size disc p count source after =
    (slice 0 tag_size after ≡ to_le_bytes tag_size disc)
    × HasPrefix tag_size p count after
    × (slice (start_of tag_size p) (length source) after ≡ source)
    × (extent tag_size p source ≤ length after)

module _ (um tag_size : ℕ) where
  pub length_of-facts :
      (p : VariantPayload) (count : ℕ) (source : List ℕ) (n : ℕ)
      → IsContent p count source
      → length_of um tag_size p count source ≡ ok n
      → (n ≡ extent tag_size p source) × IsAccepted um p count source
  unfolding length_of
  length_of-facts unit count source n (_, empty) e = (omega (arith, ok-eq e, ap length empty), tt)
  length_of-facts (string max pfx) count source n (sized, _) e =
      let (_, few, e1) = >>=-eq-ok (ensure (leb count max) overflow) _ e in
      let (_, fits, e2) = >>=-eq-ok (check_prefix um count pfx) _ e1 in
      let (a, front, last) = >>=-eq-ok (checked_add um tag_size pfx) _ e2 in
      let b = ensure-eq-ok (leb count max) overflow few in
      (
        omega (arith, sum_of um tag_size pfx a front, sum_of um a count n last, sized),
        (ground (arith, b), fits),
      )
  length_of-facts (vector elem max pfx) count source n sized e =
      let (_, few, e1) = >>=-eq-ok (ensure (leb count max) overflow) _ e in
      let (_, fits, e2) = >>=-eq-ok (check_prefix um count pfx) _ e1 in
      let (_, _, e3) = >>=-eq-ok (ensure (not (elem.size == 0)) invalid_length) _ e2 in
      let (_, valid, e4) = >>=-eq-ok (validate_elems elem count source) _ e3 in
      let (k, product, e5) = >>=-eq-ok (checked_mul um count elem.size) _ e4 in
      let (a, front, last) = >>=-eq-ok (checked_add um tag_size pfx) _ e5 in
      let b = ensure-eq-ok (leb count max) overflow few in
      let long : k ≡ length source = product_of um count elem.size k product ∙ sym sized in
      (
        omega (arith, sum_of um tag_size pfx a front, sum_of um a k n last, long),
        (ground (arith, b), fits, valid),
      )
  length_of-facts (fixed elem) count source n (_, sized) e =
      let (_, valid, last) = >>=-eq-ok (elem.check source) _ e in
      (omega (arith, sum_of um tag_size elem.size n last, sized), valid)

  -- A write of a prefix and a payload behind the tag.
  prefixed-Holds :
      (pfx count : ℕ) (source bytes : List ℕ)
      → length (prefix_bytes pfx count) ≡ pfx
      → tag_size + pfx + length source ≤ length bytes
      → (slice 0 tag_size (write_prefixed um tag_size pfx count source bytes)
          ≡ slice 0 tag_size bytes)
        × (slice tag_size pfx (write_prefixed um tag_size pfx count source bytes)
            ≡ prefix_bytes pfx count)
        × (slice
              (tag_size + pfx)
              (length source)
              (write_prefixed um tag_size pfx count source bytes)
            ≡ source)
        × (length (write_prefixed um tag_size pfx count source bytes) ≡ length bytes)
  unfolding write_prefixed
  prefixed-Holds pfx count source bytes width fits =
      let prefix = prefix_bytes pfx count in
      let middle = copy_at tag_size prefix bytes in
      let len : length middle ≡ length bytes = length-copy_at tag_size prefix bytes in
      (
        slice-copy_apart 0 tag_size (tag_size + pfx) source middle (inl (omega arith))
            ∙ slice-copy_apart 0 tag_size tag_size prefix bytes (inl (omega arith)),
        slice-copy_apart tag_size pfx (tag_size + pfx) source middle (inl (omega arith))
            ∙ ap (λ k. slice tag_size k middle) (sym width)
            ∙ slice-copy_at tag_size prefix bytes (omega (arith, width, fits)),
        slice-copy_at (tag_size + pfx) source middle (omega (arith, len, fits)),
        length-copy_at (tag_size + pfx) source middle ∙ len,
      )

  pub write_payload-Holds :
      IsTarget um
      → (disc : ℕ) (p : VariantPayload) (count : ℕ) (source bytes : List ℕ)
      → IsAccepted um p count source
      → extent tag_size p source ≤ length bytes
      → slice 0 tag_size bytes ≡ to_le_bytes tag_size disc
      → IsContent p count source
      → Holds tag_size disc p count source (write_payload um tag_size p count source bytes)
        × (length (write_payload um tag_size p count source bytes) ≡ length bytes)
  unfolding write_payload
  write_payload-Holds target disc unit count source bytes h fits tag (_, empty) =
      ((tag, tt, rw empty refl, fits), refl)
  write_payload-Holds target disc (string max pfx) count source bytes h fits tag typed =
      let (front, prefix, tail, len) =
        prefixed-Holds pfx count source bytes (prefix_bytes-ok target count pfx h.1).0 fits in
      ((front ∙ tag, prefix, tail, omega (arith, len, fits)), len)
  write_payload-Holds target disc (vector elem max pfx) count source bytes h fits tag typed =
      let (front, prefix, tail, len) =
        prefixed-Holds pfx count source bytes (prefix_bytes-ok target count pfx h.1).0 fits in
      ((front ∙ tag, prefix, tail, omega (arith, len, fits)), len)
  write_payload-Holds target disc (fixed elem) count source bytes h fits tag typed =
      let len = length-copy_at tag_size source bytes in
      (
        (
          slice-copy_apart 0 tag_size tag_size source bytes (inl (omega arith)) ∙ tag,
          tt,
          slice-copy_at tag_size source bytes fits,
          omega (arith, len, fits),
        ),
        len,
      )

pub start_of-le : (tag_size : ℕ) (p : VariantPayload) → tag_size ≤ start_of tag_size p
start_of-le tag_size unit = omega arith
start_of-le tag_size (string max pfx) = omega arith
start_of-le tag_size (vector elem max pfx) = omega arith
start_of-le tag_size (fixed elem) = omega arith

HasPrefix-same :
    (tag_size : ℕ) (p : VariantPayload) (count : ℕ) (after later : List ℕ)
    → ((at n : ℕ) → at + n ≤ start_of tag_size p → slice at n later ≡ slice at n after)
    → HasPrefix tag_size p count after
    → HasPrefix tag_size p count later
HasPrefix-same tag_size unit count after later same h = tt
HasPrefix-same tag_size (string max pfx) count after later same h =
    same tag_size pfx (omega arith) ∙ h
HasPrefix-same tag_size (vector elem max pfx) count after later same h =
    same tag_size pfx (omega arith) ∙ h
HasPrefix-same tag_size (fixed elem) count after later same h = tt

-- What is behind the payload does not matter.
pub Holds-same :
    (tag_size disc : ℕ) (p : VariantPayload) (count : ℕ) (source after later : List ℕ)
    → length later ≡ length after
    → ((at n : ℕ) → at + n ≤ extent tag_size p source → slice at n later ≡ slice at n after)
    → Holds tag_size disc p count source after
    → Holds tag_size disc p count source later
Holds-same tag_size disc p count source after later len same (tag, prefix, tail, fits) = (
  same 0 tag_size (omega (arith, start_of-le tag_size p)) ∙ tag,
  HasPrefix-same tag_size p count after later (λ at n h. same at n (omega (arith, h))) prefix,
  same (start_of tag_size p) (length source) (omega arith) ∙ tail,
  omega (arith, len, fits),
)
