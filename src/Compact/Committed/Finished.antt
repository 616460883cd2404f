-- ===== src/Compact/Committed/Finished.antt =====
-- The end of a commit on a valid writer: the rest of the old tails is zeroed, and the writer is valid.
use pinapod.Base.{
  ℕ, ◌+◌, ◌-◌, ◌/◌, ◌≤◌, ◌≡◌, refl, ap, sym, ◌∙◌, arith, inl, inr, Bool, List, ltb, if◌then◌else◌,
  length, replicate, All, Bool-cases,
}
use pinapod.Base.{All-map, All-map₄}
use pinapod.Base.Memory.{fill, length-fill}
use pinapod.Base.Bytes.{IsByte}
use pinapod.Base.Slices.{slice, slice-fill, slice-fill_behind}
use pinapod.Error.{ok, >>=-eq-ok}
use pinapod.Compact.{
  Schema, header_width, header_size, inline_size, IsTarget, IsCompact, validate_header,
  validate_storage_len, walk_tails,
}
use pinapod.Compact.Walks.{full_step, validate}
use pinapod.Compact.Views.{accessor, current_encoded_len}
use pinapod.Compact.Sound.{walked, encoded_from-walk}
use pinapod.Compact.Edits.{Writer}
use pinapod.Compact.Commit.{relocate, finish, commit_plan, commit_tails, clear_edits}
use pinapod.Compact.Commit.Plan.{Move}
use pinapod.Compact.Planning.{new_end-le}
use pinapod.Compact.Planning.Setup.{}
use pinapod.Compact.Committed.Tails.{semantic-any}
use pinapod.Compact.Writing.{Spaced-within}
use pinapod.Compact.Committed.Buffer.{field_width}
use pinapod.Compact.Committed.Octets.{fill-Octets}
use pinapod.Compact.Committed.Plans.{moves_of-Fields, After, After-walk, After-accessor}
use pinapod.Compact.Committed.Writer.{
  IsWriter, committed_len, Committed, start, validate_header-same, clear-AllStaged,
}
use pinapod.Compact.Committed.Written

module _ {um : ℕ} (target : IsTarget um) (s : Schema) (top alignment : ℕ)
    (compiles : IsCompact um s) (w : Writer) (writer : IsWriter um s top alignment w)
    (room : committed_len um s w ≤ length w.bytes) where
  abbrev moves : List Move
  moves = Written.moves target s top alignment compiles w writer room

  abbrev Facts : List ℕ → Type 0
  Facts = Written.Written target s top alignment compiles w writer room

  -- `self.data[final..total].fill(0)`
  abbrev zeroed : List ℕ → List ℕ
  zeroed after =
      if ltb (committed_len um s w) w.total_len
      then fill (committed_len um s w) w.total_len 0 after
      else after

  zeroed-facts :
      (after : List ℕ)
      → length after ≡ length w.bytes
      → All IsByte after
      → (length (zeroed after) ≡ length w.bytes)
        × All IsByte (zeroed after)
        × ((at n : ℕ)
            → at + n ≤ committed_len um s w
            → slice at n (zeroed after) ≡ slice at n after)
        × (slice (committed_len um s w) (w.total_len - committed_len um s w) (zeroed after)
            ≡ replicate (w.total_len - committed_len um s w) 0)
  zeroed-facts after len h = elim (Bool-cases (ltb (committed_len um s w) w.total_len)) [
    | inl less ↦
        let gap : w.total_len ≡ committed_len um s w + (w.total_len - committed_len um s w) =
          ground (arith, less) in
        let (_, _, inside) = start target s top alignment compiles w writer in
        rw less (
          length-fill (committed_len um s w) w.total_len 0 after ∙ len,
          fill-Octets (committed_len um s w) w.total_len after h,
          λ at n below. slice-fill_behind at n (committed_len um s w) w.total_len 0 after below,
          ap
                (λ k.
                  slice (committed_len um s w) (w.total_len - committed_len um s w)
                    (fill (committed_len um s w) k 0 after))
                gap
              ∙ slice-fill (committed_len um s w) (w.total_len - committed_len um s w) 0 after
                  (omega (arith, gap, inside, len)),
        )
    | inr more ↦
        let none_left : w.total_len - committed_len um s w ≡ 0 = ground (arith, more) in
        rw (more, none_left) (len, h, λ at n below. refl, refl)
  ]

  After-same :
      (after later : List ℕ) (m : Move)
      → length later ≡ length after
      → m.at + header_width m.tail ≤ committed_len um s w
      → m.new_off + m.new_len ≤ committed_len um s w
      → ((at n : ℕ) → at + n ≤ committed_len um s w → slice at n later ≡ slice at n after)
      → After um w.bytes after m
      → After um w.bytes later m
  After-same after later m len field tail same (block, (h, b, there, inside), sized, valid) = (
    block,
    (
      rw (same m.at (header_width m.tail) field) h,
      b,
      same m.new_off (length block) (omega (arith, sized, tail)) ∙ there,
      omega (arith, len, inside),
    ),
    sized,
    semantic-any um later after m.tail.payload _ ∙ valid,
  )

  front-le : header_size s ≤ committed_len um s w
  unfolding committed_len
  front-le = new_end-le um w.bytes s.tail_fields w.edits _ (header_size s) (header_size s)

  fields-le : All (λ m. m.at + header_width m.tail ≤ committed_len um s w) moves
  unfolding Written.moves header_size
  fields-le =
      let (fields, ends) =
        moves_of-Fields um w.bytes s.tail_fields w.edits (inline_size s.inline_fields)
          (header_size s) (header_size s) in
      All-map (λ m h. omega (arith, h, ends, front-le)) moves
        (Spaced-within (λ m. m.at) field_width (inline_size s.inline_fields) moves fields)

  finished :
      (after : List ℕ) × (relocate um moves w.bytes ≡ (after, ok tt))
      × Facts (zeroed after)
      × (slice (committed_len um s w) (w.total_len - committed_len um s w) (zeroed after)
          ≡ replicate (w.total_len - committed_len um s w) 0)
  unfolding header_size
  finished =
      let (after, done, (len, octets, tails, same)) =
        Written.moves-Written target s top alignment compiles w writer room in
      let (len', octets', below, zeros) = zeroed-facts after len octets in
      let (_, _, ends) = Written.planned target s top alignment compiles w writer room in
      (
        after,
        done,
        (
          len',
          octets',
          All-map₄ (λ m a f e u. After-same after (zeroed after) m (len' ∙ sym len) f e below a)
              moves tails fields-le ends ends,
          λ at n h. below at n (omega (arith, h, front-le)) ∙ same at n h,
        ),
        zeros,
      )

  -- The writer that a commit leaves.
  abbrev committed : List ℕ → Writer
  committed bytes = record {
    bytes = bytes;
    total_len = committed_len um s w;
    edits = clear_edits w.edits;
  }

  module _ (later : List ℕ) (facts : Facts later)
      (zeros : slice (committed_len um s w) (w.total_len - committed_len um s w) later
        ≡ replicate (w.total_len - committed_len um s w) 0) where
    small : length later ≤ um / 2
    small = omega (arith, facts.0, writer.size)

    later-walk :
        walk_tails (full_step um later) s.tail_fields (inline_size s.inline_fields) (header_size s)
        ≡ ok (committed_len um s w)
    unfolding committed_len Written.moves
    later-walk =
        After-walk um w.bytes later small s.tail_fields w.edits (inline_size s.inline_fields)
          (header_size s) (header_size s) compiles writer.staged_edits facts.2

    later-accepted : validate um s top alignment later ≡ ok tt
    unfolding validate
    later-accepted =
        let (_, _, _, stored) =
          walked target s top alignment compiles w.bytes writer.octets writer.size
            writer.accepted in
        let (_, _, rest) =
          >>=-eq-ok (validate_storage_len (header_size s) top alignment (length w.bytes)) _
            writer.accepted in
        let (_, inlines, _) = >>=-eq-ok (validate_header w.bytes s.inline_fields 0) _ rest in
        rw
          (
            facts.0,
            stored,
            validate_header-same w.bytes later (inline_size s.inline_fields) s.inline_fields 0
                facts.3 (omega arith),
            inlines,
            later-walk,
          )
          refl

    later-counted : committed_len um s w ≡ current_encoded_len um s later
    unfolding current_encoded_len
    later-counted =
        let (_, front, _) = start target s top alignment compiles w writer in
        sym
          (encoded_from-walk target later facts.1 small s.tail_fields _ (header_size s)
            (committed_len um s w) compiles (omega (arith, front, facts.0)) later-walk).0

    committed-Committed : Committed um s top alignment w (committed later)
    unfolding Written.moves accessor
    committed-Committed =
        let (ends, front, _) = start target s top alignment compiles w writer in
        (
          record {
            accepted = later-accepted;
            octets = facts.1;
            size = small;
            counted = later-counted;
            staged_edits = clear-AllStaged um s.tail_fields w.edits writer.staged_edits;
          },
          refl,
          facts.0,
          λ i.
              After-accessor um w.bytes later small target writer.octets facts.1 writer.size
                s.tail_fields w.edits i (inline_size s.inline_fields) (header_size s)
                (header_size s) w.total_len compiles writer.staged_edits front
                (omega (arith, front, facts.0)) ends facts.2,
          facts.3,
          zeros,
          refl,
        )

  pub commit_tails_lem :
      (full_validation : Bool)
      → (after : Writer) × (commit_tails um s top alignment full_validation w
          ≡ (after, ok (committed_len um s w)))
        × Committed um s top alignment w after
  unfolding commit_tails commit_plan finish
  commit_tails_lem full_validation =
      let (after, done, facts, zeros) = finished in
      (
        committed (zeroed after),
        ap (commit_plan um w)
              (Written.plan-ok target s top alignment compiles w writer room full_validation)
            ∙ ap (finish w (committed_len um s w)) done,
        committed-Committed (zeroed after) facts zeros,
      )
