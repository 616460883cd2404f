-- ===== src/Compact/Planning/Setup.antt =====
-- The plan of a commit on a buffer that was validated, with staged edits.
use pinapod.Base.{
  ℕ, ◌+◌, ◌/◌, ◌≤◌, ◌≡◌, refl, ap, ◌∙◌, arith, Option, none, some, true, List, [], ◌∷◌, length, All,
}
use pinapod.Base.{le→leb}
use pinapod.Base.Bytes.{IsByte}
use pinapod.Base.Slices.{slice, length-slice}
use pinapod.Error.{ok, ok-eq, >>=-eq-ok}
use pinapod.Compact.{Tail, header_width, capacity_checks, IsTarget, walk_tails}
use pinapod.Compact.Walks.{semantic, full_step}
use pinapod.Compact.Views.{field_at}
use pinapod.Compact.Edits.{Edit, Writer}
use pinapod.Compact.Commit.Plan.{
  Move, placed, offsets, resized, setup, range_checks, final_total, total_of,
}
use pinapod.Compact.Relocation.{Inside}
use pinapod.Compact.Stored.{Stored}
use pinapod.Compact.Planning.{
  resized_len, IsStaged, AllStaged, stored_len, moves_of, new_end, new_end-le, step-Stored,
}
use pinapod.Compact.Planning.Lengths.{add-ok, old_size-Stored, new_size-IsStaged}

abbrev pub AllFit : ℕ → List Tail → Type 0
AllFit um ts = All (λ u. capacity_checks um u.payload ≡ true) ts

resized-ok :
    (um : ℕ) (t : Tail) (e : Option Edit) (old : ℕ)
    → IsStaged um t e
    → resized_len t e old ≤ um
    → resized um t e old ≡ ok (resized_len t e old)
unfolding resized
resized-ok um t none old h fits = refl
resized-ok um t (some edit) old h fits =
    new_size-IsStaged um t.name t.presence t.payload edit h fits

-- The last sum of a plan, from the sum that the last but one would give.
final_total-total_of :
    (um : ℕ) (m : Move) (ms : List Move)
    → m.new_off + m.new_len ≤ um
    → final_total um m ms ≡ total_of um (m.new_off + m.new_len) ms
unfolding final_total total_of
final_total-total_of um m [] h = add-ok um m.new_off m.new_len h
final_total-total_of um m (m' ∷ ms) h = refl

-- What is known of a move of an unchanged buffer: the tail is stored at its old place.
abbrev pub Before : (um : ℕ) → List ℕ → Move → Type 0
Before um bytes m =
    Stored um bytes m.tail m.at m.old_off (field_at um bytes m.tail m.at m.old_off)
      (slice m.old_off m.old_len bytes)
    × (semantic um bytes m.tail.payload (field_at um bytes m.tail m.at m.old_off) ≡ ok tt)
    × (m.old_off + m.old_len ≤ length bytes)
    × IsStaged um m.tail m.edit

module _ {um : ℕ} (target : IsTarget um) (w : Writer) (bytes-IsByte : All IsByte w.bytes)
    (size : length w.bytes ≤ um / 2) (counted : w.total_len ≤ length w.bytes) where
  pub walk-le :
      (ts : List Tail) (at offset end : ℕ)
      → AllFit um ts
      → offset ≤ length w.bytes
      → walk_tails (full_step um w.bytes) ts at offset ≡ ok end
      → offset ≤ end
  unfolding walk_tails
  walk-le [] at offset end h inside e = omega (arith, ok-eq e)
  walk-le (t ∷ ts) at offset end h inside e =
      let (next, stepped, rest) = >>=-eq-ok (full_step um w.bytes t at offset) _ e in
      let (_, _, sum, within) =
        step-Stored target w.bytes bytes-IsByte size t at offset next h.0 inside stepped in
      omega (arith, sum, walk-le ts (at + header_width t) next end h.1 within rest)

  -- The plan holds the moves.
  pub setup-ok :
      (front : ℕ) (prev : Option Move) (ts : List Tail) (es : List (Option Edit)) (at o n end : ℕ)
      → AllFit um ts
      → AllStaged um ts es
      → offsets um front prev ≡ ok (o, n)
      → o ≤ length w.bytes
      → walk_tails (full_step um w.bytes) ts at o ≡ ok end
      → end ≤ w.total_len
      → new_end um w.bytes ts es at o n ≤ um
      → setup um w front prev ts es at ≡ ok (moves_of um w.bytes ts es at o n)
  unfolding setup moves_of new_end walk_tails
  setup-ok front prev [] [] at o n end h staged begins inside e ends fits = refl
  setup-ok front prev [] (e' ∷ es) at o n end h staged begins inside e ends fits = absurd staged
  setup-ok front prev (t ∷ ts) [] at o n end h staged begins inside e ends fits = absurd staged
  setup-ok front prev (t ∷ ts) (edit ∷ es) at o n end h staged begins inside e ends fits =
      let (next, stepped, rest) = >>=-eq-ok (full_step um w.bytes t at o) _ e in
      let (there, _, sum, within) =
        step-Stored target w.bytes bytes-IsByte size t at o next h.0 inside stepped in
      let old = stored_len um w.bytes t at o in
      let last = walk-le ts (at + header_width t) next end h.1 within rest in
      let new = resized_len t edit old in
      let room = new_end-le um w.bytes ts es (at + header_width t) (o + old) (n + new) in
      let block = length-slice o old w.bytes (omega (arith, sum, within)) in
      let measured =
        old_size-Stored um w size counted t.name t.presence t.payload at o _ _ there
          (omega (arith, block, sum, last, ends))
        ∙ ap ok block in
      let resizes = resized-ok um t edit old staged.0 (omega (arith, room, fits)) in
      let following : offsets um front (some (placed t at edit (o, n) old new))
          ≡ ok (o + old, n + new) =
        (let a = add-ok um o old (omega (arith, sum, within, size)) in
          let b = add-ok um n new (omega (arith, room, fits)) in
          unfold offsets in rw (a, b) refl) in
      rw
        (
          begins,
          measured,
          resizes,
          setup-ok front (some (placed t at edit (o, n) old new)) ts es (at + header_width t)
              (o + old) (n + new) end h.1 staged.1 following (omega (arith, sum, within))
              (rw (← sum) at rest) ends fits,
        )
        refl

  pub moves_of-Before :
      (ts : List Tail) (es : List (Option Edit)) (at o n end : ℕ)
      → AllFit um ts
      → AllStaged um ts es
      → o ≤ length w.bytes
      → walk_tails (full_step um w.bytes) ts at o ≡ ok end
      → All (Before um w.bytes) (moves_of um w.bytes ts es at o n)
  unfolding moves_of walk_tails
  moves_of-Before [] es at o n end h staged inside e = tt
  moves_of-Before (t ∷ ts) [] at o n end h staged inside e = tt
  moves_of-Before (t ∷ ts) (edit ∷ es) at o n end h staged inside e =
      let (next, stepped, rest) = >>=-eq-ok (full_step um w.bytes t at o) _ e in
      let (there, valid, sum, within) =
        step-Stored target w.bytes bytes-IsByte size t at o next h.0 inside stepped in
      let old = stored_len um w.bytes t at o in
      (
        (there, valid, omega (arith, sum, within), staged.0),
        moves_of-Before ts es (at + header_width t) (o + old) (n + resized_len t edit old) end h.1
            staged.1 (omega (arith, sum, within)) (rw (← sum) at rest),
      )

  pub moves_of-Inside :
      (ts : List Tail) (es : List (Option Edit)) (at o n end : ℕ)
      → AllFit um ts
      → o ≤ length w.bytes
      → walk_tails (full_step um w.bytes) ts at o ≡ ok end
      → end ≤ w.total_len
      → new_end um w.bytes ts es at o n ≤ length w.bytes
      → All (Inside (length w.bytes)) (moves_of um w.bytes ts es at o n)
        × (range_checks um w.total_len (length w.bytes) (moves_of um w.bytes ts es at o n) ≡ ok tt)
        × (total_of um n (moves_of um w.bytes ts es at o n) ≡ ok (new_end um w.bytes ts es at o n))
  unfolding moves_of walk_tails new_end range_checks total_of
  moves_of-Inside [] es at o n end h inside e ends fits = (tt, refl, refl)
  moves_of-Inside (t ∷ ts) [] at o n end h inside e ends fits = (tt, refl, refl)
  moves_of-Inside (t ∷ ts) (edit ∷ es) at o n end h inside e ends fits =
      let (next, stepped, rest) = >>=-eq-ok (full_step um w.bytes t at o) _ e in
      let (_, _, sum, within) =
        step-Stored target w.bytes bytes-IsByte size t at o next h.0 inside stepped in
      let old = stored_len um w.bytes t at o in
      let new = resized_len t edit old in
      let last = walk-le ts (at + header_width t) next end h.1 within rest in
      let room = new_end-le um w.bytes ts es (at + header_width t) (o + old) (n + new) in
      let (more, checked, total) =
        moves_of-Inside ts es (at + header_width t) (o + old) (n + new) end h.1
          (omega (arith, sum, within)) (rw (← sum) at rest) ends fits in
      (
        ((omega (arith, sum, within), omega (arith, room, fits)), more),
        rw
            (
              add-ok um o old (omega (arith, sum, within, size)),
              le→leb (o + old) w.total_len (omega (arith, sum, last, ends)),
              add-ok um n new (omega (arith, room, fits, size)),
              le→leb (n + new) (length w.bytes) (omega (arith, room, fits)),
            )
            checked,
        final_total-total_of um (placed t at edit (o, n) old new)
              (moves_of um w.bytes ts es (at + header_width t) (o + old) (n + new))
              (omega (arith, room, fits, size))
            ∙ total,
      )
