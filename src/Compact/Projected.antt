-- ===== src/Compact/Projected.antt =====
-- The projected size of a staged writer (`try_projected_size` of pinapod-derive/src/compact.rs).
use pinapod.Base.{
  ℕ, ◌+◌, ◌-◌, ◌/◌, ◌≤◌, ◌≡◌, refl, ap, sym, ◌∙◌, arith, Option, none, some, List, [], ◌∷◌, length,
  All,
}
use pinapod.Base.{le→ltb}
use pinapod.Base.Bytes.{IsByte}
use pinapod.Base.Slices.{length-slice}
use pinapod.Error.{ok, >>=-eq-ok, ok-eq}
use pinapod.Compact.{
  Tail, Schema, header_width, header_size, inline_size, IsTarget, IsCompact, walk_tails,
}
use pinapod.Compact.Walks.{full_step}
use pinapod.Compact.Sound.{step-Meets}
use pinapod.Compact.Edits.{
  Edit, Writer, projected_step, projected_from, unwrap_or, try_projected_size, projected_size,
}
use pinapod.Compact.Planning.{
  edit_len, resized_len, IsStaged, AllStaged, stored_len, new_end, new_end-le, step-Stored,
}
use pinapod.Compact.Planning.Lengths.{add-ok, old_size-Stored, new_size-IsStaged}
use pinapod.Compact.Planning.Setup.{AllFit, walk-le}
use pinapod.Compact.Committed.Writer.{IsWriter, committed_len, start}

module _ {um : ℕ} (target : IsTarget um) (w : Writer) (octets : All IsByte w.bytes)
    (size : length w.bytes ≤ um / 2) (counted : w.total_len ≤ length w.bytes) where
  projected_step-ok :
      (t : Tail) (edit : Option Edit) (at o next n rest : ℕ)
      → AllFit um (t ∷ [])
      → IsStaged um t edit
      → o ≤ length w.bytes
      → full_step um w.bytes t at o ≡ ok next
      → next ≤ w.total_len
      → n + resized_len t edit (stored_len um w.bytes t at o) ≤ um / 2
      → rest ≤ length w.bytes
      → projected_step um w t edit at o (n + (stored_len um w.bytes t at o + rest))
        ≡ ok (n + resized_len t edit (stored_len um w.bytes t at o) + rest)
  unfolding projected_step
  projected_step-ok t none at o next n rest h staged inside e ends fits small = ap ok (omega arith)
  projected_step-ok t (some edit) at o next n rest h staged inside e ends fits small =
      let (there, _, sum, within) =
        step-Stored target w.bytes octets size t at o next h.0 inside e in
      let old = stored_len um w.bytes t at o in
      let block = length-slice o old w.bytes (omega (arith, sum, within)) in
      let measured =
        old_size-Stored um w size counted t.name t.presence t.payload at o _ _ there
          (omega (arith, block, sum, ends))
        ∙ ap ok block in
      let resized =
        new_size-IsStaged um t.name t.presence t.payload edit staged (omega (arith, fits)) in
      let less : n + (old + rest) - old ≡ n + rest = omega arith in
      let total : n + rest + edit_len t edit ≡ n + edit_len t edit + rest = omega arith in
      rw
        (
          measured,
          resized,
          le→ltb (n + (old + rest)) old (omega arith),
          less,
          add-ok um (n + rest) (edit_len t edit) (omega (arith, fits, small, size)),
          total,
        )
        refl

  projected_from-ok :
      (ts : List Tail) (es : List (Option Edit)) (at o n end : ℕ)
      → AllFit um ts
      → AllStaged um ts es
      → o ≤ length w.bytes
      → walk_tails (full_step um w.bytes) ts at o ≡ ok end
      → end ≤ w.total_len
      → new_end um w.bytes ts es at o n ≤ um / 2
      → projected_from um w ts es at o (n + (end - o)) ≡ ok (new_end um w.bytes ts es at o n)
  unfolding projected_from new_end walk_tails
  projected_from-ok [] [] at o n end h staged inside e ends fits = ap ok (omega (arith, ok-eq e))
  projected_from-ok [] (x ∷ es) at o n end h staged inside e ends fits = absurd staged
  projected_from-ok (t ∷ ts) [] at o n end h staged inside e ends fits = absurd staged
  projected_from-ok (t ∷ ts) (edit ∷ es) at o n end h staged inside e ends fits =
      let (next, stepped, rest) = >>=-eq-ok (full_step um w.bytes t at o) _ e in
      let (_, _, sum, within) =
        step-Stored target w.bytes octets size t at o next h.0 inside stepped in
      let old = stored_len um w.bytes t at o in
      let last =
        walk-le target w octets size counted ts (at + header_width t) next end h.1 within rest in
      let room =
        new_end-le um w.bytes ts es (at + header_width t) (o + old) (n + resized_len t edit old) in
      let gap : end - o ≡ old + (end - next) = omega (arith, sum, last) in
      let step =
        projected_step-ok t edit at o next n (end - next) (h.0, tt) staged.0 inside stepped
          (omega (arith, last, ends)) (omega (arith, room, fits)) (omega (arith, ends, counted)) in
      let moved =
        (step-Meets target w.bytes octets size t at o next h.0 inside stepped).1 ∙ sym sum in
      let further =
        projected_from-ok ts es (at + header_width t) (o + old) (n + resized_len t edit old) end h.1
          staged.1 (omega (arith, sum, within)) (rw (← sum) at rest) ends fits in
      let width = n + resized_len t edit old in
      rw (gap, step)
        (ap (λ k. projected_from um w ts es (at + header_width t) k (width + (end - next))) moved
          ∙ ap (λ k. projected_from um w ts es (at + header_width t) (o + old) (width + (end - k)))
              (sym sum)
          ∙ further)

module _ {um : ℕ} (target : IsTarget um) (s : Schema) (top alignment : ℕ)
    (compiles : IsCompact um s) (w : Writer) (writer : IsWriter um s top alignment w) where
  -- For a schema whose compile-time assertions hold, on a target of 32 to 64 bits, and a writer
  -- over a buffer of bytes that `validate` accepts, no longer than `isize::MAX`, whose edits
  -- passed the setters: `try_projected_size` and `projected_size` return the encoded length that
  -- a commit leaves, if that is at most `isize::MAX`.
  pub try_projected_size-committed_len :
      committed_len um s w ≤ um / 2
      → (try_projected_size um s w ≡ ok (committed_len um s w))
        × (projected_size um s w ≡ committed_len um s w)
  unfolding try_projected_size projected_size committed_len
  try_projected_size-committed_len fits =
      let (ends, front, inside) = start target s top alignment compiles w writer in
      let below =
        walk-le target w writer.octets writer.size inside s.tail_fields _ (header_size s)
          w.total_len compiles front ends in
      let total : w.total_len ≡ header_size s + (w.total_len - header_size s) =
        omega (arith, below) in
      let made =
        ap (projected_from um w s.tail_fields w.edits (inline_size s.inline_fields) (header_size s))
          total
        ∙ projected_from-ok target w writer.octets writer.size inside s.tail_fields w.edits
            (inline_size s.inline_fields) (header_size s) (header_size s) w.total_len compiles
            writer.staged_edits front ends (omega arith) fits in
      (made, ap (λ r. unwrap_or r um) made)
