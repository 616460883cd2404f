-- ===== src/Compact/Stored.antt =====
-- What a buffer stores for a tail, by its header field and its block of bytes, and the layout
-- statements on such a buffer.
pub mod Forward
pub mod Back
use pinapod.Base.{
  ℕ, ◌+◌, ◌-◌, ◌*◌, ◌/◌, ◌%◌, ◌≤◌, ◌<◌, ◌≡◌, refl, ap, ap₂, sym, ◌∙◌, arith, inl, inr, none, some,
  true, false, not, List, [], ◌∷◌, ◌++◌, ltb, leb, ◌==◌, if◌then◌else◌, length, take, drop, get_or,
  Bool-cases,
}
use pinapod.Base.{le→leb, length-append}
use pinapod.Base.Bytes.{from_le_bytes}
use pinapod.Base.Slices.{slice, length-slice, slice-add}
use native.Mathlib.Nat.{mod-eq_of_lt}
use Prim.Native.String.{String}
use pinapod.Error.{Result, PinaPodError, ok, buffer_too_small}
use pinapod.Compact.Support.{ok_or, get_range, decode_prefix, read_prefix, checked_add, checked_mul}
use pinapod.Compact.{
  TailPresence, always, option_tag, TailPayload, string, vector, Tail, pfx_of, header_width,
  field_bytes, bounded_tail_end, bounded_byte_len, bounded_read_prefix, capacity_checks,
}
use pinapod.Compact.Walks.{Segment, always_bounds, some_bounds, bounds}
use pinapod.Compact.Views.{payload_len}
use pinapod.Compact.Bounds.{bounded_tail_end_lem, bounded_byte_len_lem}

abbrev pub max_of : TailPayload → ℕ
max_of (string max pfx) = max
max_of (vector elem max pfx) = max

-- A value that fits the payload: its count, and its bytes.
abbrev pub Value : TailPayload → ℕ → List ℕ → Type 0
Value p count source = (count ≤ max_of p) × (length source ≡ payload_len p count)

module _ (um : ℕ) where
  -- The header field of a tail: the length, or the tag.
  abbrev pub HeaderOf : TailPresence → Segment → List ℕ → Type 0
  HeaderOf always none field = ⊥
  HeaderOf always (some (count, source)) field = decode_prefix um field ≡ ok count
  HeaderOf option_tag none field = get_or field 0 0 ≡ 0
  HeaderOf option_tag (some (count, source)) field = get_or field 0 0 ≡ 1

  -- The bytes of a tail behind the header: the value, behind its length where it is optional.
  abbrev pub BlockOf : TailPresence → TailPayload → Segment → List ℕ → Type 0
  BlockOf always p none block = ⊥
  BlockOf always p (some (count, source)) block = Value p count source × (block ≡ source)
  BlockOf option_tag p none block = block ≡ []
  BlockOf option_tag p (some (count, source)) block =
      Value p count source
      × (prefix : List ℕ) × (length prefix ≡ pfx_of p)
      × (decode_prefix um prefix ≡ ok count)
      × (block ≡ prefix ++ source)

  abbrev pub Stored : List ℕ → Tail → ℕ → ℕ → Segment → List ℕ → Type 0
  Stored bytes t at offset segment block =
      HeaderOf t.presence segment (field_bytes bytes at (header_width t))
      × BlockOf t.presence t.payload segment block
      × (slice offset (length block) bytes ≡ block)
      × (offset + length block ≤ length bytes)

  pub tail_end-ok :
      (pfx offset n : ℕ) → offset + n ≤ um → bounded_tail_end um pfx offset n ≡ ok (offset + n)
  tail_end-ok pfx offset n h =
      bounded_tail_end_lem um pfx offset n (λ _. h) ∙ unfold checked_add in ground (arith, h)

  pub byte_len-ok :
      (pfx count size : ℕ)
      → count * size ≤ um
      → bounded_byte_len um pfx count size ≡ ok (count * size)
  byte_len-ok pfx count size h =
      bounded_byte_len_lem um pfx count size (λ _. h) ∙ unfold checked_mul in ground (arith, h)

pub range-ok :
    (bytes : List ℕ) (offset n : ℕ)
    → offset + n ≤ length bytes
    → get_range bytes offset (offset + n) ≡ some (slice offset n bytes)
range-ok bytes offset n h =
    let e : offset + n - offset ≡ n = omega arith in
    rw (le→leb offset (offset + n) (omega arith), le→leb (offset + n) (length bytes) h, e) refl

pub decode-small :
    (um : ℕ) (bs : List ℕ) (x : ℕ)
    → decode_prefix um bs ≡ ok x
    → (from_le_bytes bs ≡ x) × (x ≤ um) × (1 ≤ length bs) × (length bs ≤ 8)
unfolding decode_prefix
decode-small um bs x e = ground arith

-- A prefix that decodes is what either reader returns.
pub read-decoded :
    (um : ℕ) (bytes : List ℕ) (offset pfx count : ℕ)
    → offset + pfx ≤ length bytes
    → length bytes ≤ um / 2
    → decode_prefix um (slice offset pfx bytes) ≡ ok count
    → (read_prefix um bytes offset pfx ≡ ok count)
      × (bounded_read_prefix um bytes offset pfx ≡ ok count)
unfolding bounded_read_prefix
read-decoded um bytes offset pfx count h size e = (
  checked,
  elim (Bool-cases (leb pfx 2)) [
    | inr wide ↦ rw wide checked
    | inl short ↦
        let below : ltb (length bytes) (offset + pfx) ≡ false = ground (arith, h) in
        let value = (decode-small um (slice offset pfx bytes) count e).0 in
        rw
          (
            short,
            mod-eq_of_lt {n = offset + pfx} {m = um + 1} (omega (arith, h, size)),
            below,
            value,
          )
          refl
  ],
)
  where
    checked : read_prefix um bytes offset pfx ≡ ok count
    checked =
        unfold read_prefix in
        (let added : checked_add um offset pfx ≡ ok (offset + pfx) =
            unfold checked_add in ground (arith, h, size) in
          rw (added, range-ok bytes offset pfx h) e)

append_cancel {ℓ} :
    {A : Type ℓ} (xs xs' ys ys' : List A)
    → length xs ≡ length xs'
    → xs ++ ys ≡ xs' ++ ys'
    → (xs ≡ xs') × (ys ≡ ys')
append_cancel [] [] ys ys' h e = (refl, e)
append_cancel [] (x ∷ xs) ys ys' h e = absurd (omega (arith, h))
append_cancel (x ∷ xs) [] ys ys' h e = absurd (omega (arith, h))
append_cancel (x ∷ xs) (x' ∷ xs') ys ys' h e =
    let (front, back) = append_cancel xs xs' ys ys' (omega (arith, h)) (cc) in ((cc), back)

-- The two parts of a block that stands in the buffer.
pub slice-parts {ℓ} :
    {A : Type ℓ} (at : ℕ) (xs ys bytes : List A)
    → slice at (length (xs ++ ys)) bytes ≡ xs ++ ys
    → at + length (xs ++ ys) ≤ length bytes
    → (slice at (length xs) bytes ≡ xs) × (slice (at + length xs) (length ys) bytes ≡ ys)
slice-parts at xs ys bytes e h =
    append_cancel (slice at (length xs) bytes) xs (slice (at + length xs) (length ys) bytes) ys
      (length-slice at (length xs) bytes (omega (arith, h, length-append xs ys)))
      (sym (slice-add at (length xs) (length ys) bytes)
        ∙ ap (λ k. slice at k bytes) (sym (length-append xs ys))
        ∙ e)
