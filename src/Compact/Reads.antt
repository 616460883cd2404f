-- ===== src/Compact/Reads.antt =====
-- The single compare of a short prefix and the checked read of the support functions.
use pinapod.Base.{ℕ, ◌+◌, ◌-◌, ◌/◌, ◌≤◌, ◌<◌, ◌≡◌, refl, ap, ◌∙◌, arith, ◌⊎◌, inl, inr}
use pinapod.Base.{
  some, true, false, List, ltb, leb, if◌then◌else◌, length, take, drop, All, Bool-cases,
}
use pinapod.Base.{le→leb, length-take, length-drop, All-take, All-drop}
use pinapod.Base.Bytes.{IsByte, from_le_bytes, from_le_bytes-lt}
use native.Mathlib.Nat.{mod-eq_of_lt}
use pinapod.Error.{buffer_too_small, ok, err}
use pinapod.Compact.Support.{get_range, decode_prefix, read_prefix, checked_add}
use pinapod.Compact.{TailPayload, pfx_of}
use pinapod.Compact.{bounded_read_prefix, capacity_checks, IsTarget}
use pinapod.Compact.Agree.{short_widths}

module _ {um : ℕ} (target : IsTarget um) (bytes : List ℕ) (bytes-IsByte : All IsByte bytes)
    (size : length bytes ≤ um / 2) where
  short_read :
      (offset pfx : ℕ)
      → (pfx ≡ 1) ⊎ (pfx ≡ 2)
      → offset ≤ length bytes
      → read_prefix um bytes offset pfx ≡ (
          if ltb (length bytes) (offset + pfx)
          then err buffer_too_small
          else ok (from_le_bytes (take pfx (drop offset bytes))))
  unfolding read_prefix checked_add decode_prefix
  short_read offset pfx w within = elim (Bool-cases (ltb (length bytes) (offset + pfx))) [
    | inl over ↦ ground (arith, over, small)
    | inr fits ↦
        let room : ltb um (offset + pfx) ≡ false = ground (arith, small) in
        rw (room, fits, short_range fits) (short_decode fits)
  ]
    where
      small : offset + pfx ≤ um
      small = ground (arith, target.wide, size, within, w)

      short_range :
          ltb (length bytes) (offset + pfx) ≡ false
          → get_range bytes offset (offset + pfx) ≡ some (take pfx (drop offset bytes))
      short_range fits =
          let enough : offset + pfx ≤ length bytes = ground (arith, fits) in
          let e : offset + pfx - offset ≡ pfx = omega arith in
          rw (le→leb offset (offset + pfx) (omega arith), le→leb _ (length bytes) enough)
            (ap (λ k. some (take k (drop offset bytes))) e)

      width :
          ltb (length bytes) (offset + pfx) ≡ false → length (take pfx (drop offset bytes)) ≡ pfx
      width fits =
          let enough : offset + pfx ≤ length bytes = ground (arith, fits) in
          omega (arith, enough, length-take pfx (drop offset bytes), length-drop offset bytes)

      low :
          length (take pfx (drop offset bytes)) ≡ pfx
          → from_le_bytes (take pfx (drop offset bytes)) < 65536
      low e =
          let b =
            from_le_bytes-lt (take pfx (drop offset bytes))
              (All-take IsByte pfx _ (All-drop IsByte offset bytes bytes-IsByte)) in
          elim w [
            | inl one ↦
                (let t : from_le_bytes (take pfx (drop offset bytes)) < 256 = rw (e ∙ one) at b in
                  omega (arith, t))
            | inr two ↦ rw (e ∙ two) at b
          ]

      short_decode :
          ltb (length bytes) (offset + pfx) ≡ false
          → decode_prefix um (take pfx (drop offset bytes))
            ≡ ok (from_le_bytes (take pfx (drop offset bytes)))
      short_decode fits = ground (arith, width fits, low (width fits), target.wide, w)

  -- The single compare of a short prefix does what the checked read does.
  pub read-agree :
      (p : TailPayload) (offset : ℕ)
      → capacity_checks um p ≡ true
      → offset ≤ length bytes
      → read_prefix um bytes offset (pfx_of p) ≡ bounded_read_prefix um bytes offset (pfx_of p)
  unfolding bounded_read_prefix
  read-agree p offset h within = elim (Bool-cases (leb (pfx_of p) 2)) [
    | inr wide ↦ rw wide refl
    | inl short ↦
        let small : offset + pfx_of p ≤ um =
          omega (arith, target.wide, size, within, le_of (pfx_of p) short) in
        rw (short, mod-eq_of_lt {n = offset + pfx_of p} {m = um + 1} (omega (arith, small)))
          (short_read offset (pfx_of p) (short_widths target p h (le_of (pfx_of p) short)) within)
  ]
    where
      le_of : (n : ℕ) → leb n 2 ≡ true → n ≤ 2
      le_of n e = ground arith
