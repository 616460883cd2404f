-- ===== src/CompactEnum/Updated.antt =====
-- `update` of a compact enum as a whole (`generate_patch_impl` of
-- pinapod-derive/src/compact_enum.rs).
use pinapod.Base.{
  ℕ, ◌+◌, ◌-◌, ◌/◌, ◌^◌, ◌≤◌, ◌<◌, ◌≡◌, refl, ap, sym, ◌∙◌, arith, ◌⊎◌, inl, inr, List, length, leb,
  ltb, replicate, Bool-cases, if◌then◌else◌,
}
use pinapod.Base.{le→leb}
use pinapod.Base.Bytes.{to_le_bytes, length-to_le_bytes}
use pinapod.Base.Memory.{copy_at, length-copy_at, fill, length-fill}
use pinapod.Base.Slices.{slice, slice-copy_at, slice-fill, slice-fill_behind}
use pinapod.Error.{
  PinaPodError, ok, err, ok-eq, >>=-eq-ok, ensure, ensure-eq-ok, buffer_too_small, Result-cases,
}
use pinapod.Compact.{IsTarget, validate_storage_len}
use pinapod.Compact.Contract.{storage-fits}
use pinapod.CompactEnum.{
  CompactVariant, Content, find_variant, read_tag, payload_bounds, validate, new,
}
use pinapod.CompactEnum.Patch.{
  current_size_of, write, encoded_len, current_encoded_len, update_plan, update_planned, update,
}
use pinapod.CompactEnum.Written.{
  IsContent, IsAccepted, start_of-le, extent, Holds, length_of-facts, write_payload-Holds,
  Holds-same,
}
use pinapod.CompactEnum.RoundTrip.{new-Holds, current_size-bounds}

-- The buffer after the write of a patch that fits.
pub write-Holds :
    {um : ℕ} (target : IsTarget um) (tag_size : ℕ) (c : Content)
    (typed : IsContent c.variant.payload c.count c.source) (bytes : List ℕ) (n : ℕ)
    → encoded_len um tag_size c ≡ ok n
    → n ≤ length bytes
    → (n ≡ extent tag_size c.variant.payload c.source)
      × IsAccepted um c.variant.payload c.count c.source
      × Holds tag_size c.variant.disc c.variant.payload c.count c.source (write um tag_size c bytes)
      × (length (write um tag_size c bytes) ≡ length bytes)
unfolding write
write-Holds {um} target tag_size c typed bytes n encodes fits =
    let (ends, accepted) =
      length_of-facts um tag_size c.variant.payload c.count c.source n typed encodes in
    let tag = to_le_bytes tag_size c.variant.disc in
    let width = length-to_le_bytes tag_size c.variant.disc in
    let first = copy_at 0 tag bytes in
    let first_len = length-copy_at 0 tag bytes in
    let low_end = start_of-le tag_size c.variant.payload in
    let tag_there : slice 0 tag_size first ≡ tag =
      ap (λ k. slice 0 k first) (sym width)
      ∙ slice-copy_at 0 tag bytes (omega (arith, width, ends, fits, low_end)) in
    let (holds, len) =
      write_payload-Holds um tag_size target c.variant.disc c.variant.payload c.count c.source first
        accepted (omega (arith, first_len, ends, fits)) tag_there typed in
    (ends, accepted, holds, len ∙ first_len)

-- When a patch of an enum is applied, with the old and the new length.
abbrev pub Applies :
    (um tag_size : ℕ) → List CompactVariant → (low top : ℕ) → Content → List ℕ → ℕ → ℕ → Type 0
Applies um tag_size variants low top c bytes old n =
    (validate um tag_size variants low top bytes ≡ ok tt)
    × (current_encoded_len um tag_size variants low top bytes ≡ ok old)
    × (encoded_len um tag_size c ≡ ok n)
    × (n ≤ length bytes)

-- What a patch of an enum leaves: a reader shows it, and the end of the old payload is zeroed.
abbrev pub Replaced :
    (um tag_size : ℕ)
    → List CompactVariant
    → (low top : ℕ) → Content
    → List ℕ
    → ℕ
    → ℕ
    → List ℕ
    → Type 0
Replaced um tag_size variants low top c bytes old n after =
    (new um tag_size variants low top after ≡ ok c)
    × (length after ≡ length bytes)
    × (slice n (old - n) after ≡ replicate (old - n) 0)

module _ {um : ℕ} (target : IsTarget um) (tag_size : ℕ) (variants : List CompactVariant)
    (low top : ℕ) (tagged : tag_size ≤ low) (c : Content)
    (declared : find_variant variants c.variant.disc ≡ ok c.variant)
    (small : c.variant.disc < 256 ^ tag_size) (typed : IsContent c.variant.payload c.count c.source)
    (bytes : List ℕ) (size : length bytes ≤ um / 2) where
  abbrev cleared : ℕ → ℕ → List ℕ → List ℕ
  cleared old n written = if ltb n old then fill n old 0 written else written

  cleared-facts :
      (old n : ℕ) (written : List ℕ)
      → old ≤ length written
      → (length (cleared old n written) ≡ length written)
        × ((at k : ℕ) → at + k ≤ n → slice at k (cleared old n written) ≡ slice at k written)
        × (slice n (old - n) (cleared old n written) ≡ replicate (old - n) 0)
  cleared-facts old n written inside = elim (Bool-cases (ltb n old)) [
    | inl less ↦
        let gap : n + (old - n) ≡ old = ground (arith, less) in
        rw less (
          length-fill n old 0 written,
          λ at k h. slice-fill_behind at k n old 0 written h,
          ap (λ k. slice n (old - n) (fill n k 0 written)) (sym gap)
              ∙ slice-fill n (old - n) 0 written (omega (arith, gap, inside)),
        )
    | inr more ↦
        let none_left : old - n ≡ 0 = ground (arith, more) in
        rw (more, none_left) (refl, λ at k h. refl, refl)
  ]

  current-found :
      (v : CompactVariant) (old : ℕ)
      → find_variant variants (read_tag um tag_size bytes) ≡ ok v
      → current_size_of um tag_size v.payload bytes ≡ ok old
      → current_encoded_len um tag_size variants low top bytes ≡ ok old
  unfolding current_encoded_len
  current-found v old found sized = rw found sized

  validate-storage :
      validate um tag_size variants low top bytes ≡ ok tt
      → (validate_storage_len low top 1 (length bytes) ≡ ok tt)
        × ((old : ℕ) × (current_encoded_len um tag_size variants low top bytes ≡ ok old)
            × (old ≤ length bytes))
  unfolding validate
  validate-storage valid =
      let (_, stored, e1) = >>=-eq-ok (validate_storage_len low top 1 (length bytes)) _ valid in
      let (v, found, e2) = >>=-eq-ok (find_variant variants (read_tag um tag_size bytes)) _ e1 in
      let (r, bounded, _) = >>=-eq-ok (payload_bounds um tag_size v.payload bytes) _ e2 in
      let (old, sized, inside) =
        current_size-bounds um tag_size v.payload bytes r
          (omega (arith, tagged, (storage-fits low top 1 (length bytes) stored).0)) bounded in
      (stored, (old, current-found v old found sized, inside))

  applied :
      (old n : ℕ)
      → Applies um tag_size variants low top c bytes old n
      → (after : List ℕ) × (update um tag_size variants low top c bytes ≡ (after, ok n))
        × Replaced um tag_size variants low top c bytes old n after
  unfolding update update_plan update_planned
  applied old n (valid, current, encodes, fits) =
      let (stored, (found, sized, inside)) = validate-storage valid in
      let same_old : found ≡ old = ok-eq (sym sized ∙ current) in
      let (ends, accepted, holds, len) = write-Holds target tag_size c typed bytes n encodes fits in
      let written = write um tag_size c bytes in
      let (clear_len, below, zeros) =
        cleared-facts old n written (omega (arith, len, inside, same_old)) in
      let total : length (cleared old n written) ≡ length bytes = clear_len ∙ len in
      let final =
        Holds-same tag_size c.variant.disc c.variant.payload c.count c.source written
          (cleared old n written) clear_len (λ at k h. below at k (omega (arith, h, ends))) holds in
      (
        cleared old n written,
        rw (valid, current, encodes, le→leb n (length bytes) fits) refl,
        (
          new-Holds target tag_size c.variant.disc variants low top c declared small refl
              (cleared old n written) (omega (arith, total, size)) (rw (← total) at stored) typed
              accepted final,
          total,
          zeros,
        ),
      )

  update_plan-Applies :
      (old n : ℕ)
      → update_plan um tag_size variants low top c bytes ≡ ok (old, n)
      → Applies um tag_size variants low top c bytes old n
  unfolding update_plan
  update_plan-Applies old n e =
      let (_, valid, e1) = >>=-eq-ok (validate um tag_size variants low top bytes) _ e in
      let (k, current, e2) =
        >>=-eq-ok (current_encoded_len um tag_size variants low top bytes) _ e1 in
      let (m, encodes, e3) = >>=-eq-ok (encoded_len um tag_size c) _ e2 in
      let (_, fits, e4) = >>=-eq-ok (ensure (leb m (length bytes)) buffer_too_small) _ e3 in
      let same = ok-eq e4 in
      let b = ensure-eq-ok (leb m (length bytes)) buffer_too_small fits in
      let room : m ≤ length bytes = ground (arith, b) in
      (
        valid,
        current ∙ ap (λ r. ok r.0) same,
        encodes ∙ ap (λ r. ok r.1) same,
        omega (arith, room, ap (λ r. r.1) same),
      )

  refused :
      (e : PinaPodError)
      → update_plan um tag_size variants low top c bytes ≡ err e
      → update um tag_size variants low top c bytes ≡ (bytes, err e)
  unfolding update update_planned
  refused e failed = ap (update_planned um tag_size variants low top c bytes) failed

  -- On a target of 32 to 64 bits, for an enum whose tag fits its smallest allocation, a patch of
  -- a variant of its own with a discriminant that fits the tag, whose payload has the bytes that
  -- its type promises, and a buffer no longer than `isize::MAX`: either `validate` accepts the
  -- buffer, its old payload has a size, the patch passes its checks and fits the buffer, and
  -- `update` returns the new length and leaves a buffer of the same size that `Ref::new` shows as
  -- the patched variant, where the end of a longer old payload is zeroed; or one of these fails,
  -- and `update` fails and changes nothing.
  pub update-Replaced :
      ((old : ℕ) × ((n : ℕ) × (Applies um tag_size variants low top c bytes old n
            × ((after : List ℕ) × (update um tag_size variants low top c bytes ≡ (after, ok n))
                × Replaced um tag_size variants low top c bytes old n after))))
      ⊎ (((old n : ℕ) → Applies um tag_size variants low top c bytes old n → ⊥)
          × ((e : PinaPodError) × (update um tag_size variants low top c bytes ≡ (bytes, err e))))
  update-Replaced = elim (Result-cases (update_plan um tag_size variants low top c bytes)) [
    | inl ((old, n), made) ↦
        let h = update_plan-Applies old n made in inl (old, (n, (h, applied old n h)))
    | inr (e, failed) ↦
        let kept = refused e failed in
        inr (
          λ old n h. absurd (
              let (after, made, _) = applied old n h in
              ground (arith, ap (λ r. r.1) (sym made ∙ kept))),
          (e, kept),
        )
  ]
