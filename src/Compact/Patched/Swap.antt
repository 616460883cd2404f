-- ===== src/Compact/Patched/Swap.antt =====
-- A buffer whose header is written (by the inline writes of pinapod-derive/src/compact.rs): its tails
-- and its validity.
use pinapod.Base.{ℕ, ◌/◌, ◌≤◌, ◌≡◌, refl, sym, ◌∙◌, arith, List, length, All, drop}
use pinapod.Base.Bytes.{IsByte}
use pinapod.Error.{ok}
use pinapod.Compact.{
  Schema, header_size, inline_size, IsTarget, IsCompact, validate_header, walk_tails,
}
use pinapod.Compact.Walks.{full_step, validate}
use pinapod.Compact.Views.{accessor, current_encoded_len}
use pinapod.Compact.Sound.{walked, encoded_from-walk}
use pinapod.Compact.Patch.{}
use pinapod.Compact.Patched.Inlines.{}
use pinapod.Compact.Patched.Behind.{walk-behind, accessor-behind}

module _ {um : ℕ} (target : IsTarget um) (s : Schema) (top alignment : ℕ)
    (compiles : IsCompact um s) (bytes after : List ℕ) (octets : All IsByte bytes)
    (octets' : All IsByte after) (size : length bytes ≤ um / 2) (len : length after ≡ length bytes)
    (same : (x : ℕ) → inline_size s.inline_fields ≤ x → drop x after ≡ drop x bytes) where
  front-le : inline_size s.inline_fields ≤ header_size s
  unfolding header_size
  front-le = omega arith

  module _ (valid : validate um s top alignment bytes ≡ ok tt) where
    tails-walk :
        walk_tails (full_step um after) s.tail_fields (inline_size s.inline_fields) (header_size s)
        ≡ ok (walked target s top alignment compiles bytes octets size valid).0
    tails-walk =
        let (end, ends, front, _) =
          walked target s top alignment compiles bytes octets size valid in
        walk-behind target bytes after octets octets' size len (inline_size s.inline_fields) same
          s.tail_fields (inline_size s.inline_fields) (header_size s) end compiles (omega arith)
          front-le front ends

    -- The tails of a valid buffer are the same when its header fields are written.
    pub tails-swap :
        (current_encoded_len um s after ≡ current_encoded_len um s bytes)
        × ((i : ℕ) → accessor um s after i ≡ accessor um s bytes i)
    unfolding current_encoded_len accessor
    tails-swap =
        let (end, ends, front, _) =
          walked target s top alignment compiles bytes octets size valid in
        let before =
          encoded_from-walk target bytes octets size s.tail_fields _ _ end compiles front ends in
        let later =
          encoded_from-walk target after octets' (omega (arith, len, size)) s.tail_fields _ _ end
            compiles (omega (arith, front, len)) tails-walk in
        (
          later.0 ∙ sym before.0,
          λ i.
              accessor-behind target bytes after octets octets' size len
                (inline_size s.inline_fields) same s.tail_fields i (inline_size s.inline_fields)
                (header_size s) end compiles (omega arith) front-le front ends,
        )

    -- A valid buffer is valid, when its header is written and valid.
    pub header-swap :
        validate_header after s.inline_fields 0 ≡ ok tt → validate um s top alignment after ≡ ok tt
    unfolding validate
    header-swap inlines =
        let (end, ends, front, stored) =
          walked target s top alignment compiles bytes octets size valid in
        rw (len, stored, inlines, tails-walk) refl
