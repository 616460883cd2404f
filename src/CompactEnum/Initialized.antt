-- ===== src/CompactEnum/Initialized.antt =====
-- `initialize` of a compact enum (`generate_patch_impl` of pinapod-derive/src/compact_enum.rs).
use pinapod.Base.{
  ℕ, ◌/◌, ◌^◌, ◌≤◌, ◌<◌, ◌≡◌, refl, ap, sym, ◌∙◌, arith, ◌⊎◌, inl, inr, List, length, leb,
  replicate,
}
use pinapod.Base.{le→leb}
use pinapod.Base.Memory.{length-fill, fill-all}
use pinapod.Error.{
  PinaPodError, ok, err, ok-eq, >>=-eq-ok, ensure, ensure-eq-ok, buffer_too_small, Result-cases,
}
use pinapod.Compact.{IsTarget, validate_storage_len}
use pinapod.Compact.Patch.{zeroed, zero_failed}
use pinapod.CompactEnum.{CompactVariant, Content, find_variant, validate, new}
use pinapod.CompactEnum.Patch.{
  write, encoded_len, initialize_plan, initialize_planned, try_initialize, initialize,
}
use pinapod.CompactEnum.Written.{IsContent}
use pinapod.CompactEnum.RoundTrip.{new-Holds}
use pinapod.CompactEnum.Updated.{write-Holds}

-- When a patch fits a destination, with its length.
abbrev pub Suits :
    (um tag_size : ℕ) → List CompactVariant → (low top : ℕ) → Content → List ℕ → ℕ → Type 0
Suits um tag_size variants low top c bytes n =
    (validate_storage_len low top 1 (length bytes) ≡ ok tt)
    × (encoded_len um tag_size c ≡ ok n)
    × (n ≤ length bytes)

new-valid :
    (um tag_size : ℕ) (variants : List CompactVariant) (low top : ℕ) (bytes : List ℕ) (c : Content)
    → new um tag_size variants low top bytes ≡ ok c
    → validate um tag_size variants low top bytes ≡ ok tt
unfolding new
new-valid um tag_size variants low top bytes c e =
    (>>=-eq-ok (validate um tag_size variants low top bytes) _ e).1

module _ {um : ℕ} (target : IsTarget um) (tag_size : ℕ) (variants : List CompactVariant)
    (low top : ℕ) (c : Content) (declared : find_variant variants c.variant.disc ≡ ok c.variant)
    (small : c.variant.disc < 256 ^ tag_size)
    (typed : IsContent c.variant.payload c.count c.source) where
  initialize_plan-Suits :
      (bytes : List ℕ) (n : ℕ)
      → initialize_plan um tag_size variants low top c bytes ≡ ok n
      → Suits um tag_size variants low top c bytes n
  unfolding initialize_plan
  initialize_plan-Suits bytes n e =
      let (_, stored, e1) = >>=-eq-ok (validate_storage_len low top 1 (length bytes)) _ e in
      let (m, encodes, e2) = >>=-eq-ok (encoded_len um tag_size c) _ e1 in
      let (_, fits, e3) = >>=-eq-ok (ensure (leb m (length bytes)) buffer_too_small) _ e2 in
      let b = ensure-eq-ok (leb m (length bytes)) buffer_too_small fits in
      let room : m ≤ length bytes = ground (arith, b) in
      (stored, encodes ∙ e3, omega (arith, room, ok-eq e3))

  filled :
      (bytes : List ℕ) (n : ℕ)
      → length bytes ≤ um / 2
      → Suits um tag_size variants low top c bytes n
      → (try_initialize um tag_size variants low top c bytes ≡ (write um tag_size c bytes, ok n))
        × (new um tag_size variants low top (write um tag_size c bytes) ≡ ok c)
  unfolding try_initialize initialize_plan initialize_planned
  filled bytes n size (stored, encodes, fits) =
      let (_, accepted, holds, len) = write-Holds target tag_size c typed bytes n encodes fits in
      let shown =
        new-Holds target tag_size c.variant.disc variants low top c declared small refl
          (write um tag_size c bytes) (omega (arith, len, size)) (rw len stored) typed accepted
          holds in
      let valid = new-valid um tag_size variants low top (write um tag_size c bytes) c shown in
      (rw (stored, encodes, le→leb n (length bytes) fits, valid) refl, shown)

  refused :
      (bytes : List ℕ) (e : PinaPodError)
      → initialize_plan um tag_size variants low top c bytes ≡ err e
      → try_initialize um tag_size variants low top c bytes ≡ (bytes, err e)
  unfolding try_initialize initialize_planned
  refused bytes e failed = ap (initialize_planned um tag_size variants low top c bytes) failed

  -- On a target of 32 to 64 bits, for a patch of a variant of the enum with a discriminant that
  -- fits the tag, whose payload has the bytes that its type promises, and a destination no longer
  -- than `isize::MAX`: either the destination is an admitted allocation that the checked patch
  -- fits, and `initialize` returns its length and leaves what `Ref::new` shows as the patched
  -- variant; or it is not, and `initialize` fails and leaves every byte zero.
  pub initialize-Shown :
      (bytes : List ℕ)
      → length bytes ≤ um / 2
      → ((n : ℕ) × (Suits um tag_size variants low top c bytes n
            × ((after : List ℕ) × (initialize um tag_size variants low top c bytes ≡ (after, ok n))
                × (new um tag_size variants low top after ≡ ok c))))
        ⊎ (((n : ℕ) → Suits um tag_size variants low top c bytes n → ⊥)
            × ((e : PinaPodError) × (initialize um tag_size variants low top c bytes
                  ≡ (replicate (length bytes) 0, err e))))
  unfolding initialize
  initialize-Shown bytes size =
      let len : length (zeroed bytes) ≡ length bytes = length-fill 0 (length bytes) 0 bytes in
      elim (Result-cases (initialize_plan um tag_size variants low top c (zeroed bytes))) [
        | inl (n, made) ↦
            let h = initialize_plan-Suits (zeroed bytes) n made in
            let (done, shown) = filled (zeroed bytes) n (omega (arith, len, size)) h in
            inl (
              n,
              (
                (rw len at h.0, h.1, omega (arith, len, h.2)),
                (write um tag_size c (zeroed bytes), ap zero_failed done, shown),
              ),
            )
        | inr (e, failed) ↦
            let left = refused (zeroed bytes) e failed in
            inr (
              λ n h. absurd (
                  let (done, _) =
                    filled (zeroed bytes) n (omega (arith, len, size))
                      (rw len h.0, h.1, omega (arith, len, h.2)) in
                  ground (arith, ap (λ r. r.1) (sym done ∙ left))),
              (
                e,
                ap zero_failed left
                    ∙ ap (λ l. (l, err e))
                        (fill-all 0 (zeroed bytes) ∙ ap (λ k. replicate k 0) len),
              ),
            )
      ]
