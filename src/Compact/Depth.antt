-- ===== src/Compact/Depth.antt =====
-- The two depths of validation, and the checked prefix of the commit.
use pinapod.Base.{ℕ, ◌+◌, ◌≡◌, refl, List, [], ◌∷◌, Bool, true, false}
use pinapod.Base.{length}
use pinapod.Error.{ok, >>=-eq-ok}
use pinapod.Compact.{Tail, Schema, header_width, header_size, inline_size, walk_tails}
use pinapod.Compact.{validate_storage_len, validate_header}
use pinapod.Compact.Walks.{
  bounds, semantic, layout_step, full_step, validate, validate_layout, commit_entry_validate,
}
use pinapod.Compact.Walks.{layout_end}

module _ (um : ℕ) (bytes : List ℕ) where
  step-depth :
      (t : Tail) (at offset next : ℕ)
      → full_step um bytes t at offset ≡ ok next
      → layout_step um bytes t at offset ≡ ok next
  unfolding full_step layout_step
  step-depth t at offset next e =
      let (r, found, rest) = >>=-eq-ok (bounds um bytes t at offset) _ e in
      let (_, _, last) = >>=-eq-ok (semantic um bytes t.payload r.0) _ rest in rw found last

  pub walk-depth :
      (ts : List Tail) (at offset end : ℕ)
      → walk_tails (full_step um bytes) ts at offset ≡ ok end
      → walk_tails (layout_step um bytes) ts at offset ≡ ok end
  unfolding walk_tails
  walk-depth [] at offset end e = e
  walk-depth (t ∷ ts) at offset end e =
      let (next, stepped, rest) = >>=-eq-ok (full_step um bytes t at offset) _ e in
      rw (step-depth t at offset next stepped) (walk-depth ts (at + header_width t) next end rest)

-- What `validate` accepts, the entry check of a commit accepts, at either depth.
pub commit_entry_validate-validate :
    (um : ℕ) (s : Schema) (top alignment : ℕ) (full_validation : Bool) (bytes : List ℕ)
    → validate um s top alignment bytes ≡ ok tt
    → commit_entry_validate um s top alignment full_validation bytes ≡ ok tt
unfolding commit_entry_validate validate validate_layout layout_end
commit_entry_validate-validate um s top alignment true bytes e = e
commit_entry_validate-validate um s top alignment false bytes e =
    let (_, stored, rest) =
      >>=-eq-ok (validate_storage_len (header_size s) top alignment (length bytes)) _ e in
    let (_, _, walked) = >>=-eq-ok (validate_header bytes s.inline_fields 0) _ rest in
    let (end, ends, _) =
      >>=-eq-ok
        (walk_tails (full_step um bytes) s.tail_fields (inline_size s.inline_fields)
          (header_size s))
        _ walked in
    rw
      (
        stored,
        walk-depth um bytes s.tail_fields (inline_size s.inline_fields) (header_size s) end ends,
      )
      refl
