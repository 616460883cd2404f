-- ===== src/Compact/Contract.antt =====
-- The contract of `diagnose`: the walk over the tails, and the whole function.
use pinapod.Base.{ℕ, ◌+◌, ◌/◌, ◌≤◌, ◌≡◌, refl, ap, ◌∙◌, sym, arith, inl, inr}
use pinapod.Base.{
  none, true, not, List, [], ◌∷◌, leb, ◌==◌, if◌then◌else◌, length, get_or, All, Bool-cases,
}
use pinapod.Base.Bytes.{IsByte}
use pinapod.Error.{
  PinaPodError, buffer_too_small, invalid_length, invalid_tag, invalid_utf8, Result, ok, err, ◌>>=◌,
  ◌>>◌,
}
use pinapod.Error.{
  into_error, into_error->>=, >>=-same, >>=-eq-ok, Returns, Returns->>=, Returns-of,
}
use pinapod.Utf8.{is_utf8}
use Prim.Native.String.{String}
use pinapod.Compact.Support.{ok_or, get_range, read_prefix, checked_add, checked_mul}
use pinapod.Compact.{
  TailPayload, string, vector, Inline, Tail, Schema, header_width, header_size, inline_size,
}
use pinapod.Compact.{
  bounded_tail_end, bounded_byte_len, bounded_read_prefix, capacity_checks, IsTarget, IsCompact,
  validate_elems,
}
use pinapod.Compact.{walk_tails, validate_header, validate_storage_len, field_bytes}
use pinapod.Compact.Walks.{some_bounds, bounds, semantic, full_step, validate}
use pinapod.Compact.Diagnose.{diagnostic, named, some_probe, probe, inline_probes, diagnose}
use pinapod.Compact.Bounds.{bounded_tail_end_lem, presence-cases, ok_or-within, bounds-Within}
use pinapod.Compact.Reads.{read-agree}
use pinapod.Compact.Agree.{
  agree-named, agree-ensure, agree-range, last-ensure, last-named, string-end, vector-end,
  vector-product, always-agree, sum_of,
}

pub read-within :
    (um : ℕ) (bytes : List ℕ) (offset width x : ℕ)
    → read_prefix um bytes offset width ≡ ok x
    → offset + width ≤ length bytes
unfolding read_prefix
read-within um bytes offset width x e =
    let (end, added, rest) = >>=-eq-ok (checked_add um offset width) _ e in
    let (found, got, _) = >>=-eq-ok (ok_or (get_range bytes offset end) buffer_too_small) _ rest in
    omega (arith, ok_or-within bytes offset end found got, sum_of um offset width end added)

module _ {um : ℕ} (target : IsTarget um) (bytes : List ℕ) (bytes-IsByte : All IsByte bytes)
    (size : length bytes ≤ um / 2) where
  pub start-agree :
      (offset pfx : ℕ)
      → offset + pfx ≤ length bytes
      → checked_add um offset pfx ≡ bounded_tail_end um pfx offset pfx
  start-agree offset pfx h =
      sym (bounded_tail_end_lem um pfx offset pfx λ _. omega (arith, h, size))

  some-agree :
      (name : String) (p : TailPayload) (offset : ℕ)
      → capacity_checks um p ≡ true
      → offset ≤ length bytes
      → into_error (some_probe um bytes name p offset)
        ≡ (some_bounds um bytes p offset >>= λ r. (semantic um bytes p r.0 >> ok r.1))
  unfolding some_probe some_bounds semantic
  some-agree name (string max pfx) offset h within =
      agree-named name (read_prefix um bytes offset pfx) (bounded_read_prefix um bytes offset pfx) _
        _ _ (read-agree target bytes bytes-IsByte size (string max pfx) offset h within)
        λ len read. agree-ensure name (leb len max) invalid_length _ _ _ λ fits.
          let front = read-within um bytes offset pfx len read in
          agree-named name (checked_add um offset pfx) (bounded_tail_end um pfx offset pfx) _ _ _
            (start-agree offset pfx front)
            λ start begun.
              agree-named name (checked_add um start len) (bounded_tail_end um pfx start len) _ _ _
                (string-end target bytes bytes-IsByte size max pfx start len h
                  (omega (arith, sum_of um offset pfx start begun, front)) (ground (arith, fits)))
                λ end _.
                  agree-range name (get_range bytes start end) buffer_too_small _ _ _
                    λ payload. last-ensure name (is_utf8 payload) invalid_utf8 end
  some-agree name (vector elem max pfx) offset h within =
      agree-named name (read_prefix um bytes offset pfx) (bounded_read_prefix um bytes offset pfx) _
        _ _ (read-agree target bytes bytes-IsByte size (vector elem max pfx) offset h within)
        λ count read. agree-ensure name (leb count max) invalid_length _ _ _ λ fits.
          agree-ensure name (not (elem.size == 0)) invalid_length _ _ _ λ _.
            let front = read-within um bytes offset pfx count read in
            agree-named name (checked_add um offset pfx) (bounded_tail_end um pfx offset pfx) _ _ _
              (start-agree offset pfx front)
              λ start begun.
                agree-named name (checked_mul um count elem.size)
                  (bounded_byte_len um pfx count elem.size) _ _ _
                  (vector-product target bytes bytes-IsByte size elem max pfx count h
                    (ground (arith, fits)))
                  λ byte_len e.
                    agree-named name (checked_add um start byte_len)
                      (bounded_tail_end um pfx start byte_len) _ _ _
                      (vector-end target bytes bytes-IsByte size elem max pfx start count byte_len h
                        (omega (arith, sum_of um offset pfx start begun, front))
                        (ground (arith, fits)) e)
                      λ end _.
                        agree-range name (get_range bytes start end) buffer_too_small _ _ _
                          λ payload. last-named name (validate_elems elem count payload) end

  step-agree :
      (t : Tail) (at offset : ℕ)
      → capacity_checks um t.payload ≡ true
      → offset ≤ length bytes
      → into_error (probe um bytes t at offset) ≡ full_step um bytes t at offset
  unfolding probe full_step bounds
  step-agree t at offset h within = elim (presence-cases t.presence) [
    | inl e ↦ rw e (always-agree target bytes bytes-IsByte size t.name t.payload at offset h within)
    | inr e ↦ rw e (by_tag (get_or bytes at 0))
  ]
    where
      by_tag :
          (tag : ℕ)
          → into_error (
              if tag == 0
              then ok offset
              else if tag == 1
              then some_probe um bytes t.name t.payload offset
              else err (diagnostic t.name invalid_tag))
            ≡ ((if tag == 0
                  then ok (none, offset)
                  else if tag == 1
                  then some_bounds um bytes t.payload offset
                  else err invalid_tag)
                >>= λ r. (semantic um bytes t.payload r.0 >> ok r.1))
      by_tag tag = elim (Bool-cases (tag == 0)) [
        | inl absent ↦ rw absent (unfold semantic in refl)
        | inr other ↦ elim (Bool-cases (tag == 1)) [
          | inl present ↦ rw (other, present) (some-agree t.name t.payload offset h within)
          | inr wrong ↦ rw (other, wrong) refl
        ]
      ]

  full-within :
      (t : Tail) (at offset : ℕ)
      → offset ≤ length bytes
      → Returns (λ next. next ≤ length bytes) (full_step um bytes t at offset)
  unfolding full_step
  full-within t at offset h =
      Returns->>= (λ next. next ≤ length bytes) (bounds um bytes t at offset) _
        λ r e.
          Returns->>= (λ next. next ≤ length bytes) (semantic um bytes t.payload r.0) _
            λ _ _.
              Returns-of _ (bounds um bytes t at offset) r (bounds-Within um bytes t at offset h) e

  walk-agree :
      (ts : List Tail) (at offset : ℕ)
      → All (λ t. capacity_checks um t.payload ≡ true) ts
      → offset ≤ length bytes
      → into_error (walk_tails (probe um bytes) ts at offset)
        ≡ walk_tails (full_step um bytes) ts at offset
  unfolding walk_tails
  walk-agree [] at offset h within = refl
  walk-agree (t ∷ ts) at offset h within =
      into_error->>= (probe um bytes t at offset) _
      ∙ ap
          (λ m.
            m >>= λ next. into_error (walk_tails (probe um bytes) ts (at + header_width t) next))
          (step-agree t at offset h.0 within)
      ∙ >>=-same (full_step um bytes t at offset) _ _ λ next e.
        walk-agree ts (at + header_width t) next h.1
          (Returns-of _ (full_step um bytes t at offset) next (full-within t at offset within) e)

unname : {A : Type 0} (name : String) (m : Result PinaPodError A) → into_error (named name m) ≡ m
unname name (ok x) = refl
unname name (err why) = refl

inline-agree :
    (bytes : List ℕ) (fs : List Inline) (at : ℕ)
    → into_error (inline_probes bytes fs at) ≡ validate_header bytes fs at
unfolding inline_probes validate_header
inline-agree bytes [] at = refl
inline-agree bytes (f ∷ fs) at =
    let m = f.elem.check (field_bytes bytes at f.elem.size) in
    into_error->>= (named f.name m) _
    ∙ rw (unname f.name m) (ap (λ r. m >> r) (inline-agree bytes fs (at + f.elem.size)))

pub storage-fits :
    (min max alignment size : ℕ)
    → validate_storage_len min max alignment size ≡ ok tt
    → (min ≤ size) × (size ≤ max)
unfolding validate_storage_len
storage-fits min max alignment size e = ground arith

-- For a schema whose compile-time assertions hold, on a target of 32 to 64 bits, and a buffer of
-- bytes no longer than `isize::MAX`, `diagnose`, which checks every sum and product, accepts and
-- rejects exactly what `validate` does, whose sums and products behind short prefixes are
-- unchecked, with the same error.
pub diagnose-validate :
    {um : ℕ}
    → IsTarget um
    → (s : Schema) (top alignment : ℕ) → IsCompact um s
    → (bytes : List ℕ) → All IsByte bytes
    → length bytes ≤ um / 2
    → into_error (diagnose um s top alignment bytes) ≡ validate um s top alignment bytes
unfolding diagnose validate
diagnose-validate {um} target s top alignment h bytes b size =
    let storage = validate_storage_len (header_size s) top alignment (length bytes) in
    into_error->>= (named s.name storage) _
    ∙ rw (unname s.name storage) (
        >>=-same storage _ _ λ u fits.
          into_error->>= (inline_probes bytes s.inline_fields 0) _
          ∙ rw (inline-agree bytes s.inline_fields 0) (
              ap (λ r. validate_header bytes s.inline_fields 0 >> r)
                (into_error->>=
                    (walk_tails (probe um bytes) s.tail_fields (inline_size s.inline_fields)
                      (header_size s))
                    _
                  ∙ rw
                      (walk-agree target bytes b size s.tail_fields (inline_size s.inline_fields)
                        (header_size s) h
                        (storage-fits (header_size s) top alignment (length bytes) fits).0)
                      refl)))
