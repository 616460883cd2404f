-- ===== src/Compact/Prefixes.antt =====
-- The length prefixes that a commit writes and the readers of them.
use pinapod.Base.{
  ℕ, ◌+◌, ◌-◌, ◌%◌, ◌^◌, ◌≤◌, ◌<◌, ◌≡◌, refl, ap, ◌∙◌, sym, arith, List, ◌++◌, ◌⊎◌, inl, inr,
}
use pinapod.Base.{length, some, take, drop}
use pinapod.Base.{
  length-take, length-drop, take-append-drop, le→leb, take-length_append, drop-length_append,
}
use pinapod.Base.Memory.{copy_at, copy_at-append, length-copy_at}
use pinapod.Base.Bytes.{
  to_le_bytes, from_le_bytes, take-to_le_bytes, length-to_le_bytes, from_le_bytes-to_le_bytes,
}
use pinapod.Error.{ok-eq, ok, >>=-eq-ok, buffer_too_small}
use pinapod.Compact.{IsTarget}
use pinapod.Compact.Support.{
  ok_or, get_range, checked_add, check_prefix, decode_prefix, read_prefix, write_prefix, prefix_max,
}
use pinapod.Compact.Agree.{sum_of}
use pinapod.Compact.Bounds.{ok_or-within}

-- A prefix check that passes bounds the value by the width.
pub check_prefix-cases :
    {um : ℕ}
    → IsTarget um
    → (value width : ℕ) → check_prefix um value width ≡ ok tt
    → ((width ≡ 1) × (value < 2 ^ 8))
      ⊎ ((width ≡ 2) × (value < 2 ^ 16))
      ⊎ ((width ≡ 4) × (value < 2 ^ 32))
      ⊎ ((width ≡ 8) × (value < 2 ^ 64))
unfolding check_prefix prefix_max
check_prefix-cases target value width h = ground (arith, target.narrow)

pub check_prefix-le :
    {um : ℕ} → IsTarget um → (value width : ℕ) → check_prefix um value width ≡ ok tt → value ≤ um
unfolding check_prefix prefix_max
check_prefix-le target value width h = ground (arith, target.wide)

pub stored :
    (width value : ℕ)
    → ((width ≡ 1) × (value < 2 ^ 8))
      ⊎ ((width ≡ 2) × (value < 2 ^ 16))
      ⊎ ((width ≡ 4) × (value < 2 ^ 32))
      ⊎ ((width ≡ 8) × (value < 2 ^ 64))
    → (take width (to_le_bytes 8 (value % 2 ^ 64)) ≡ to_le_bytes width value)
      × (from_le_bytes (to_le_bytes width value) ≡ value)
stored width value h = (front, back)
  where
    low : value % 2 ^ 64 ≡ value
    low = ground (arith, h)

    few : width ≤ 8
    few = ground (arith, h)

    room : value < 256 ^ width
    room = elim h [
      | inl (w, t) ↦ rw w (omega (arith, t))
      | inr (inl (w, t)) ↦ rw w (omega (arith, t))
      | inr (inr (inl (w, t))) ↦ rw w (omega (arith, t))
      | inr (inr (inr (w, t))) ↦ rw w (omega (arith, t))
    ]

    front : take width (to_le_bytes 8 (value % 2 ^ 64)) ≡ to_le_bytes width value
    front = ap (λ n. take width (to_le_bytes 8 n)) low ∙ take-to_le_bytes width 8 value few

    back : from_le_bytes (to_le_bytes width value) ≡ value
    back = from_le_bytes-to_le_bytes width value room

-- What a copy over the middle of a list leaves there.
copied :
    (bytes vs : List ℕ) (offset : ℕ)
    → offset + length vs ≤ length bytes
    → take (length vs) (drop offset (copy_at offset vs bytes)) ≡ vs
copied bytes vs offset h = rw (whole, behind, take-length_append vs rest) refl
  where
    pre : List ℕ
    pre = take offset bytes

    old : List ℕ
    old = take (length vs) (drop offset bytes)

    rest : List ℕ
    rest = drop (length vs) (drop offset bytes)

    at_pre : length pre ≡ offset
    at_pre = omega (arith, length-take offset bytes)

    parts : bytes ≡ pre ++ (old ++ rest)
    parts =
        sym (take-append-drop offset bytes)
        ∙ ap (λ t. pre ++ t) (sym (take-append-drop (length vs) (drop offset bytes)))

    same : length vs ≡ length old
    same = omega (arith, length-take (length vs) (drop offset bytes), length-drop offset bytes)

    whole : copy_at offset vs bytes ≡ pre ++ (vs ++ rest)
    whole =
        ap (copy_at offset vs) parts
        ∙ ap (λ k. copy_at k vs (pre ++ (old ++ rest))) (sym at_pre)
        ∙ copy_at-append pre vs old rest same

    behind : drop offset (pre ++ (vs ++ rest)) ≡ vs ++ rest
    behind =
        ap (λ k. drop k (pre ++ (vs ++ rest))) (sym at_pre) ∙ drop-length_append pre (vs ++ rest)

pub decoded :
    (um width value : ℕ)
    → ((width ≡ 1) × (value < 2 ^ 8))
      ⊎ ((width ≡ 2) × (value < 2 ^ 16))
      ⊎ ((width ≡ 4) × (value < 2 ^ 32))
      ⊎ ((width ≡ 8) × (value < 2 ^ 64))
    → value ≤ um
    → decode_prefix um (to_le_bytes width value) ≡ ok value
unfolding decode_prefix
decoded um width value h small =
    let back = (stored width value h).1 in
    ground (arith, back, length-to_le_bytes width value, h, small)

ranged :
    (bytes vs : List ℕ) (offset end : ℕ)
    → end ≡ offset + length vs
    → end ≤ length bytes
    → get_range (copy_at offset vs bytes) offset end ≡ some vs
ranged bytes vs offset end e h =
    let gap : end - offset ≡ length vs = omega (arith, e) in
    rw
      (
        le→leb offset end (omega (arith, e)),
        length-copy_at offset vs bytes,
        le→leb end (length bytes) h,
        gap,
        copied bytes vs offset (omega (arith, e, h)),
      )
      refl

-- On a target of 32 to 64 bits, a `write_prefix` that succeeds keeps the size of the buffer, and
-- `read_prefix` at the same place then returns the value.
pub read_prefix-write_prefix :
    {um : ℕ}
    → IsTarget um
    → (bytes : List ℕ) (offset width value : ℕ) (after : List ℕ)
    → write_prefix um bytes offset width value ≡ ok after
    → (length after ≡ length bytes) × (read_prefix um after offset width ≡ ok value)
unfolding write_prefix read_prefix
read_prefix-write_prefix {um} target bytes offset width value after e =
    let (_, checked, rest) = >>=-eq-ok (check_prefix um value width) _ e in
    let (end, added, last) = >>=-eq-ok (checked_add um offset width) _ rest in
    let (found, got, made) =
      >>=-eq-ok (ok_or (get_range bytes offset end) buffer_too_small) _ last in
    let cases = check_prefix-cases target value width checked in
    let (front, back) = stored width value cases in
    let ends = sum_of um offset width end added in
    let inside = ok_or-within bytes offset end found got in
    let sized = length-to_le_bytes width value in
    let same : copy_at offset (to_le_bytes width value) bytes ≡ after = rw front at (ok-eq made) in
    rw (← same) (
      length-copy_at offset (to_le_bytes width value) bytes,
      rw
          (
            added,
            ranged bytes (to_le_bytes width value) offset end (omega (arith, ends, sized)) inside,
          )
          (decoded um width value cases (check_prefix-le target value width checked)),
    )
