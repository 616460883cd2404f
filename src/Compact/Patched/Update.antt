-- ===== src/Compact/Patched/Update.antt =====
-- `updated_len` and `update` of a patch (pinapod-derive/src/compact.rs).
use pinapod.Base.{
  ℕ, ◌+◌, ◌-◌, ◌/◌, ◌≤◌, ◌<◌, ◌≡◌, Bool, refl, ap, sym, ◌∙◌, arith, ◌⊎◌, inl, inr, none, true, List,
  length, All, map, get_or, ltb, ◌==◌, Bool-cases, drop,
}
use pinapod.Base.{le→ltb}
use pinapod.Base.Bytes.{IsByte}
use pinapod.Error.{PinaPodError, ok, err, >>=-eq-ok, Result-cases, buffer_too_small}
use pinapod.Compact.{
  Schema, header_size, inline_size, IsTarget, IsCompact, validate_header, validate_storage_len,
}
use pinapod.Compact.Walks.{validate}
use pinapod.Compact.Views.{accessor, current_encoded_len}
use pinapod.Compact.Edits.{Writer, new_unchecked}
use pinapod.Compact.Planning.Setup.{walk-le}
use pinapod.Compact.Committed.{commit_lem, commit-refused}
use pinapod.Compact.Committed.Tails.{new_segment}
use pinapod.Compact.Committed.Writer.{IsWriter, Committed, committed_len, start}
use pinapod.Compact.Staging.{Checked-cases}
use pinapod.Compact.Patch.{
  Patch, check_inlines, validate_inputs, stage_value, stage_steps, inline_writes, updated_len,
  update, update_end, update_planned,
}
use pinapod.Compact.Patched.Inputs.{TailsTyped, InlinesTyped, check_tails-AllStaged}
use pinapod.Compact.Patched.Length.{updated_steps-ok}
use pinapod.Compact.Patched.Inlines.{
  Patched, Patched-before, length-inline_writes, inline_writes-Octets, drop-inline_writes,
  inline_writes-Patched, Patched-valid,
}
use pinapod.Compact.Patched.Swap.{tails-swap, header-swap}

-- The buffer after a patch: `validate` accepts it, it encodes the length, each tail and each inline
-- field holds its value, or what it held before.
abbrev pub Updated :
    (um : ℕ) (s : Schema) (top alignment : ℕ) → Patch → ℕ → (bytes after : List ℕ) → Type 0
Updated um s top alignment patch encoded bytes after =
    (validate um s top alignment after ≡ ok tt)
    × All IsByte after
    × (length after ≡ length bytes)
    × (current_encoded_len um s after ≡ encoded)
    × ((i : ℕ)
        → accessor um s after i
          ≡ new_segment (get_or (map stage_value patch.tails) i none) (accessor um s bytes i))
    × Patched s.inline_fields patch.inlines 0 bytes after

-- The writer that `update` commits.
abbrev pub writer_of : (um : ℕ) → Schema → Patch → List ℕ → Writer
writer_of um s patch bytes = stage_steps patch (new_unchecked um s bytes)

-- When a patch is applied.
abbrev pub IsApplicable :
    (um : ℕ) (s : Schema) (top alignment : ℕ) → Patch → (bytes : List ℕ) → Type 0
IsApplicable um s top alignment patch bytes =
    (validate_inputs um s patch ≡ ok tt)
    × (validate um s top alignment bytes ≡ ok tt)
    × (committed_len um s (writer_of um s patch bytes) ≤ length bytes)

module _ {um : ℕ} (target : IsTarget um) (s : Schema) (top alignment : ℕ)
    (compiles : IsCompact um s) (patch : Patch)
    (typed : InlinesTyped s.inline_fields patch.inlines × TailsTyped s.tail_fields patch.tails)
    (bytes : List ℕ) (octets : All IsByte bytes) (size : length bytes ≤ um / 2) where
  module _ (inputs : validate_inputs um s patch ≡ ok tt)
      (valid : validate um s top alignment bytes ≡ ok tt) where
    writer_of-IsWriter : IsWriter um s top alignment (writer_of um s patch bytes)
    unfolding validate_inputs new_unchecked
    writer_of-IsWriter =
        let (_, _, tails) = >>=-eq-ok (check_inlines um s.inline_fields patch.inlines) _ inputs in
        record {
          accepted = valid;
          octets = octets;
          size = size;
          counted = refl;
          staged_edits = check_tails-AllStaged um s.tail_fields patch.tails typed.1 tails;
        }

    updated_len-ok :
        committed_len um s (writer_of um s patch bytes) ≤ um / 2
        → updated_len um s top alignment patch bytes
          ≡ ok (committed_len um s (writer_of um s patch bytes))
    unfolding updated_len committed_len new_unchecked
    updated_len-ok fits =
        let writer = writer_of-IsWriter in
        let (ends, front, inside) =
          start target s top alignment compiles (writer_of um s patch bytes) writer in
        let below =
          walk-le target (writer_of um s patch bytes) octets size inside s.tail_fields _
            (header_size s) (writer_of um s patch bytes).total_len compiles front ends in
        let (last, steps) =
          updated_steps-ok target (writer_of um s patch bytes) octets size inside s.tail_fields
            patch.tails (inline_size s.inline_fields) (header_size s) (header_size s)
            (writer_of um s patch bytes).total_len compiles writer.staged_edits front ends inside
            fits in
        let total : header_size s + ((writer_of um s patch bytes).total_len - header_size s)
            ≡ (writer_of um s patch bytes).total_len =
          omega (arith, below) in
        rw (inputs, valid, last) (rw total at steps)

    -- The end of `update`, after a commit that fits.
    update_end-ok :
        (after : Writer)
        → Committed um s top alignment (writer_of um s patch bytes) after
        → (update_end s patch
              (committed_len um s (writer_of um s patch bytes))
              (after, ok (committed_len um s (writer_of um s patch bytes)))
            ≡ (
              inline_writes s.inline_fields patch.inlines 0 after.bytes,
              ok (committed_len um s (writer_of um s patch bytes)),
            ))
          × Updated um s top alignment patch
              (committed_len um s (writer_of um s patch bytes))
              bytes
              (inline_writes s.inline_fields patch.inlines 0 after.bytes)
    unfolding update_end validate_inputs validate header_size new_unchecked
    update_end-ok after (writer, total, len, shown, front, _, _) =
        let k = committed_len um s (writer_of um s patch bytes) in
        let exact : (k == k) ≡ true = ground arith in
        let (_, checked, _) = >>=-eq-ok (check_inlines um s.inline_fields patch.inlines) _ inputs in
        let (_, _, rest) =
          >>=-eq-ok (validate_storage_len (header_size s) top alignment (length after.bytes)) _
            writer.accepted in
        let (_, header, _) = >>=-eq-ok (validate_header after.bytes s.inline_fields 0) _ rest in
        let (_, inside, _) = start target s top alignment compiles after writer in
        let final = inline_writes s.inline_fields patch.inlines 0 after.bytes in
        let final_len = length-inline_writes s.inline_fields patch.inlines 0 after.bytes in
        let final_octets =
          inline_writes-Octets s.inline_fields patch.inlines 0 after.bytes typed.0 writer.octets in
        let patched =
          inline_writes-Patched s.inline_fields patch.inlines 0 after.bytes typed.0
            (omega (arith, inside)) in
        let outside : (x : ℕ)
            → inline_size s.inline_fields ≤ x
            → drop x final ≡ drop x after.bytes =
          λ x h.
            drop-inline_writes s.inline_fields patch.inlines 0 after.bytes x typed.0
              (omega (arith, h)) in
        let (encoded, accessors) =
          tails-swap target s top alignment compiles after.bytes final writer.octets final_octets
            writer.size final_len outside writer.accepted in
        let valid' =
          header-swap target s top alignment compiles after.bytes final writer.octets final_octets
            writer.size final_len outside writer.accepted
            (Patched-valid um s.inline_fields patch.inlines 0 after.bytes final patched checked
              header) in
        (
          rw exact refl,
          (
            valid',
            final_octets,
            final_len ∙ len,
            encoded ∙ sym writer.counted ∙ total,
            λ i. accessors i ∙ shown i,
            Patched-before s.inline_fields patch.inlines 0 (inline_size s.inline_fields) bytes
                after.bytes final (λ x n h u. front x n u) (omega arith) patched,
          ),
        )

    update-ok :
        (full_validation : Bool)
        → committed_len um s (writer_of um s patch bytes) ≤ length bytes
        → (after : List ℕ) × (update um s top alignment full_validation patch bytes
            ≡ (after, ok (committed_len um s (writer_of um s patch bytes))))
          × Updated um s top alignment patch
              (committed_len um s (writer_of um s patch bytes))
              bytes
              after
    unfolding update update_planned
    update-ok full_validation room =
        let (after, done, committed) =
          commit_lem target s top alignment compiles (writer_of um s patch bytes) writer_of-IsWriter
            full_validation room in
        let (made, facts) = update_end-ok after committed in
        (
          inline_writes s.inline_fields patch.inlines 0 after.bytes,
          rw
              (
                updated_len-ok (omega (arith, room, size)),
                le→ltb (length bytes) (committed_len um s (writer_of um s patch bytes)) room,
                done,
              )
              made,
          facts,
        )

    update-short :
        (full_validation : Bool)
        → length bytes < committed_len um s (writer_of um s patch bytes)
        → (e : PinaPodError) × (update um s top alignment full_validation patch bytes
            ≡ (bytes, err e))
    unfolding update update_planned update_end new_unchecked
    update-short full_validation short =
        elim (Result-cases (updated_len um s top alignment patch bytes)) [
          | inr (e, failed) ↦
              (e, ap (update_planned um s top alignment full_validation patch bytes) failed)
          | inl (expected, made) ↦ elim (Bool-cases (ltb (length bytes) expected)) [
            | inl less ↦ (buffer_too_small, rw (made, less) refl)
            | inr more ↦
                let (e, refused) =
                  commit-refused target s top alignment compiles (writer_of um s patch bytes)
                    writer_of-IsWriter full_validation short in
                (e, rw (made, more, refused) refl)
          ]
        ]

  -- On a target of 32 to 64 bits, for a schema whose compile-time assertions hold, a patch whose
  -- values have the bytes that their types promise, and a buffer of bytes no longer than
  -- `isize::MAX`: either the patch passes its checks, `validate` accepts the buffer and the
  -- encoded length with the patch fits it, and `update` returns that length and leaves a buffer
  -- that `validate` accepts, that encodes this length, and whose fields hold the patched values
  -- and else what they held before; or one of the three fails, and `update` fails and leaves the
  -- buffer as it was. Both hold at either depth of the entry check of the commit.
  pub update_lem :
      (full_validation : Bool)
      → (IsApplicable um s top alignment patch bytes
          × ((after : List ℕ) × (update um s top alignment full_validation patch bytes
                ≡ (after, ok (committed_len um s (writer_of um s patch bytes))))
              × Updated um s top alignment patch
                  (committed_len um s (writer_of um s patch bytes))
                  bytes
                  after))
        ⊎ ((IsApplicable um s top alignment patch bytes → ⊥)
            × ((e : PinaPodError) × (update um s top alignment full_validation patch bytes
                  ≡ (bytes, err e))))
  unfolding update update_planned updated_len
  update_lem full_validation = elim (Checked-cases (validate_inputs um s patch)) [
    | inr (e, bad) ↦ inr (λ h. absurd (ground (arith, h.0, bad)), (e, rw bad refl))
    | inl inputs ↦ elim (Checked-cases (validate um s top alignment bytes)) [
      | inr (e, bad) ↦ inr (λ h. absurd (ground (arith, h.1, bad)), (e, rw (inputs, bad) refl))
      | inl valid ↦
          elim (Bool-cases (ltb (length bytes) (committed_len um s (writer_of um s patch bytes)))) [
            | inr fits ↦
                let room : committed_len um s (writer_of um s patch bytes) ≤ length bytes =
                  ground (arith, fits) in
                inl ((inputs, valid, room), update-ok inputs valid full_validation room)
            | inl long ↦
                let short : length bytes < committed_len um s (writer_of um s patch bytes) =
                  ground (arith, long) in
                inr (
                  λ h. absurd (omega (arith, h.2, short)),
                  update-short inputs valid full_validation short,
                )
          ]
    ]
  ]
