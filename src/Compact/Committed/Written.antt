-- ===== src/Compact/Committed/Written.antt =====
-- The plan and the writes of a commit on a valid writer.
use pinapod.Base.{ℕ, ◌+◌, ◌≤◌, ◌≡◌, refl, ap, sym, ◌∙◌, arith, none, Bool, List, length, All}
use pinapod.Base.{All-map, All-map₂, All-map₄, le→leb}
use pinapod.Base.Bytes.{IsByte}
use pinapod.Base.Slices.{slice, length-slice}
use pinapod.Error.{ok}
use pinapod.Compact.{Schema, header_size, inline_size, IsTarget, IsCompact}
use pinapod.Compact.Depth.{commit_entry_validate-validate}
use pinapod.Compact.Edits.{Writer}
use pinapod.Compact.Commit.{relocate}
use pinapod.Compact.Commit.Plan.{Move, plan}
use pinapod.Compact.Planning.{moves_of, moves_of-Chain}
use pinapod.Compact.Planning.Setup.{Before, setup-ok, moves_of-Before, moves_of-Inside}
use pinapod.Compact.Committed.Tails.{Stored-after, semantic-new_segment}
use pinapod.Compact.Committed.Buffer.{IsPlanned, relocate-lem}
use pinapod.Compact.Committed.Octets.{relocate-Octets}
use pinapod.Compact.Committed.Plans.{moves_of-Fields, moves_of-IsStaged, moves_of-below, After}
use pinapod.Compact.Committed.Writer.{IsWriter, committed_len, start}

module _ {um : ℕ} (target : IsTarget um) (s : Schema) (top alignment : ℕ)
    (compiles : IsCompact um s) (w : Writer) (writer : IsWriter um s top alignment w)
    (room : committed_len um s w ≤ length w.bytes) where
  unfoldable pub moves : List Move
  unfolding header_size inline_size
  moves =
      moves_of um w.bytes s.tail_fields w.edits (inline_size s.inline_fields) (header_size s)
        (header_size s)

  pub plan-ok :
      (full_validation : Bool)
      → plan um s top alignment full_validation w ≡ ok (moves, committed_len um s w)
  unfolding plan moves committed_len
  plan-ok full_validation =
      let (ends, front, inside) = start target s top alignment compiles w writer in
      let (_, checked, total) =
        moves_of-Inside target w writer.octets writer.size inside s.tail_fields w.edits _
          (header_size s) (header_size s) w.total_len compiles front ends (omega arith) room in
      let made =
        setup-ok target w writer.octets writer.size inside (header_size s) none s.tail_fields
          w.edits (inline_size s.inline_fields) (header_size s) (header_size s) w.total_len compiles
          writer.staged_edits (unfold plan in refl) front ends (omega arith)
          (omega (arith, room, writer.size)) in
      rw
        (
          commit_entry_validate-validate um s top alignment full_validation w.bytes writer.accepted,
          made,
          checked,
          total,
          le→leb _ (length w.bytes) room,
        )
        refl

  pub planned :
      All (IsPlanned um (length w.bytes)) moves
      × All (Before um w.bytes) moves
      × All (λ m. m.new_off + m.new_len ≤ committed_len um s w) moves
  unfolding moves committed_len
  planned =
      let (ends, front, inside) = start target s top alignment compiles w writer in
      let (within, _, _) =
        moves_of-Inside target w writer.octets writer.size inside s.tail_fields w.edits _
          (header_size s) (header_size s) w.total_len compiles front ends (omega arith) room in
      (
        All-map₂ (λ m i e. (i, e.0, e.1)) _ within
            (moves_of-IsStaged um w.bytes s.tail_fields w.edits _ (header_size s) (header_size s)
              writer.staged_edits),
        moves_of-Before target w writer.octets writer.size inside s.tail_fields w.edits _
            (header_size s) (header_size s) w.total_len compiles writer.staged_edits front ends,
        moves_of-below um w.bytes s.tail_fields w.edits _ (header_size s) (header_size s),
      )

  -- The buffer after all the writes, and after the rest of the old tails is zeroed.
  abbrev pub Written : List ℕ → Type 0
  Written after =
      (length after ≡ length w.bytes)
      × All IsByte after
      × All (After um w.bytes after) moves
      × ((at n : ℕ) → at + n ≤ inline_size s.inline_fields → slice at n after ≡ slice at n w.bytes)

  pub moves-Written :
      (after : List ℕ) × (relocate um moves w.bytes ≡ (after, ok tt)) × Written after
  unfolding moves header_size
  moves-Written =
      let (_, front, _) = start target s top alignment compiles w writer in
      let (fit, before, _) = planned in
      let (fields, ends) =
        moves_of-Fields um w.bytes s.tail_fields w.edits (inline_size s.inline_fields)
          (header_size s) (header_size s) in
      let (after, done, len, held, tails, same) =
        relocate-lem target (header_size s) (inline_size s.inline_fields) moves w.bytes writer.size
          (moves_of-Chain um w.bytes s.tail_fields w.edits _ (header_size s) (header_size s)) fields
          ends front fit in
      (
        after,
        done,
        (
          len,
          rw (ap (λ r. r.0) done) at
              (relocate-Octets um moves w.bytes (All-map (λ m p. p.1) moves fit) writer.octets),
          All-map₄
              (λ m p b t f.
                let shown =
                  Stored-after target w.bytes after m.tail m.at m.old_off m.new_off m.old_len m.edit
                    _ b.0 (length-slice m.old_off m.old_len w.bytes b.2) b.3 f
                    (ap (λ k. slice m.new_off k after) (sym p.2) ∙ t)
                    (omega (arith, p.0.1, p.2, len)) in
                (
                  _,
                  shown.0,
                  shown.1 ∙ sym p.2,
                  semantic-new_segment target w.bytes after m.tail m.edit _ b.1 b.3,
                ))
              moves fit before tails held,
          same,
        ),
      )
