-- ===== src/Compact/Committed.antt =====
-- The commit of a staged writer (`generate_commit_body` of pinapod-derive/src/compact.rs), whatever
-- its schema has for tails.
pub mod Tails
pub mod Buffer
pub mod Octets
pub mod Sized
pub mod Plans
pub mod Writer
pub mod Written
pub mod Finished
pub mod Refused
use pinapod.Base.{
  ℕ, ◌-◌, ◌≤◌, ◌<◌, ◌≡◌, refl, ap, sym, ◌∙◌, arith, Option, none, some, Bool, List, [], ◌∷◌, length,
  get_or, replicate,
}
use pinapod.Base.Slices.{slice}
use pinapod.Error
use pinapod.Error.{PinaPodError, ok, err}
use pinapod.Compact.{IsTarget, Schema, Tail, IsCompact, header_size, inline_size}
use pinapod.Compact.Depth.{commit_entry_validate-validate}
use pinapod.Compact.Views.{accessor, accessor_from, current_encoded_len, encoded_from}
use pinapod.Compact.Edits.{Edit}
use pinapod.Compact.Edits as E
use pinapod.Compact.Commit.{commit, commit_of, commit_header, commit_tails, clear_edits}
use pinapod.Compact.Planning.{AllStaged, new_end}
use Tails.{new_segment}
use Writer.{IsWriter, committed_len, Committed, start}
use Refused.{commit_tails-refused}
use Finished.{commit_tails_lem}

no_edits :
    (um : ℕ) (ts : List Tail) (es : List (Option Edit)) → AllStaged um ts es → ts ≡ [] → es ≡ []
no_edits um [] [] h e = refl
no_edits um [] (x ∷ es) h e = absurd h
no_edits um (t ∷ ts) es h e = absurd (ground (arith, e))

module _ {um : ℕ} (target : IsTarget um) (s : Schema) (top alignment : ℕ)
    (compiles : IsCompact um s) (w : E.Writer) (writer : IsWriter um s top alignment w) where
  module _ (bare : s.tail_fields ≡ []) where
    bare-len : committed_len um s w ≡ header_size s
    unfolding committed_len new_end
    bare-len =
        ap
          (λ ts.
            new_end um w.bytes ts w.edits (inline_size s.inline_fields) (header_size s)
              (header_size s))
          bare

    bare-total : w.total_len ≡ header_size s
    unfolding current_encoded_len encoded_from
    bare-total =
        writer.counted
        ∙ ap (λ ts. encoded_from um w.bytes ts (inline_size s.inline_fields) (header_size s)) bare

    bare-edits : w.edits ≡ []
    bare-edits = no_edits um s.tail_fields w.edits writer.staged_edits bare

    bare-accessor : (i : ℕ) → accessor um s w.bytes i ≡ none
    unfolding accessor accessor_from
    bare-accessor i =
        ap (λ ts. accessor_from um w.bytes ts i (inline_size s.inline_fields) (header_size s)) bare

    bare-Committed : Committed um s top alignment w w
    bare-Committed =
        let gap : w.total_len - committed_len um s w ≡ 0 = omega (arith, bare-len, bare-total) in
        (
          writer,
          bare-total ∙ sym bare-len,
          refl,
          λ i.
              bare-accessor i
              ∙ sym (
                  ap (λ es. new_segment (get_or es i none) (accessor um s w.bytes i)) bare-edits
                  ∙ bare-accessor i),
          λ at n h. refl,
          ap (λ k. slice (committed_len um s w) k w.bytes) gap ∙ ap (λ k. replicate k 0) (sym gap),
          bare-edits ∙ sym (ap clear_edits bare-edits),
        )

    bare-commit :
        (full_validation : Bool)
        → commit_header um s top alignment full_validation w ≡ (w, ok (committed_len um s w))
    unfolding commit_header
    bare-commit full_validation =
        ap (λ r. (w, Error.◌>>◌ r (ok (header_size s))))
          (commit_entry_validate-validate um s top alignment full_validation w.bytes
            writer.accepted)
        ∙ ap (λ k. (w, ok k)) (sym bare-len)

  commit_of-lem :
      (full_validation : Bool) (ts : List Tail)
      → s.tail_fields ≡ ts
      → committed_len um s w ≤ length w.bytes
      → (after : E.Writer) × (commit_of um s top alignment full_validation ts w
          ≡ (after, ok (committed_len um s w)))
        × Committed um s top alignment w after
  unfolding commit_of
  commit_of-lem full_validation [] e room = (w, bare-commit e full_validation, bare-Committed e)
  commit_of-lem full_validation (t ∷ ts) e room =
      commit_tails_lem target s top alignment compiles w writer room full_validation

  -- For a schema whose compile-time assertions hold, on a target of 32 to 64 bits, and a writer
  -- over a buffer of bytes that `validate` accepts, no longer than `isize::MAX`, whose edits
  -- passed the setters: where the encoded length with the edits fits the buffer, `commit`
  -- succeeds at either depth of its entry check and returns that length. The buffer keeps its
  -- size and its inline fields, `validate` accepts it, each tail accessor shows the staged value,
  -- or what it showed before where nothing was staged, the freed end of the old tails is zeroed,
  -- and the writer is again in such a state, with no edit left.
  pub commit_lem :
      (full_validation : Bool)
      → committed_len um s w ≤ length w.bytes
      → (after : E.Writer) × (commit um s top alignment full_validation w
          ≡ (after, ok (committed_len um s w)))
        × Committed um s top alignment w after
  unfolding commit
  commit_lem full_validation room = commit_of-lem full_validation s.tail_fields refl room

  commit_of-refused :
      (full_validation : Bool) (ts : List Tail)
      → s.tail_fields ≡ ts
      → length w.bytes < committed_len um s w
      → (e : PinaPodError) × (commit_of um s top alignment full_validation ts w ≡ (w, err e))
  unfolding commit_of
  commit_of-refused full_validation [] e short =
      let (_, front, _) = start target s top alignment compiles w writer in
      absurd (omega (arith, bare-len e, front, short))
  commit_of-refused full_validation (t ∷ ts) e short =
      commit_tails-refused target s top alignment compiles w writer full_validation short

  -- For a schema whose compile-time assertions hold, on a target of 32 to 64 bits, and a writer
  -- over a buffer of bytes that `validate` accepts, no longer than `isize::MAX`, whose edits
  -- passed the setters: where the encoded length with the edits exceeds the buffer, `commit`
  -- fails, and neither the buffer nor the staged edits change.
  pub commit-refused :
      (full_validation : Bool)
      → length w.bytes < committed_len um s w
      → (e : PinaPodError) × (commit um s top alignment full_validation w ≡ (w, err e))
  unfolding commit
  commit-refused full_validation short = commit_of-refused full_validation s.tail_fields refl short
