-- ===== src/Compact/Committed/Plans.antt =====
-- The plan of a validated writer, as the writes of a commit need it.
use pinapod.Base.{
  ℕ, ◌+◌, ◌/◌, ◌≤◌, ◌≡◌, refl, ap, sym, ◌∙◌, arith, Option, none, List, [], ◌∷◌, length, All,
  get_or, zero, suc,
}
use pinapod.Base.Bytes.{IsByte}
use pinapod.Error.{ok, >>=-eq-ok, Returns-of}
use pinapod.Compact.{Tail, header_width, tails_width, IsTarget, walk_tails}
use pinapod.Compact.Walks.{bounds, semantic, full_step}
use pinapod.Compact.Views.{offset_step, field_at, accessor_from}
use pinapod.Compact.Optionals.{bounds-Meets}
use pinapod.Compact.Sound.{step-Meets}
use pinapod.Compact.Edits.{Edit}
use pinapod.Compact.Commit.Plan.{Move}
use pinapod.Compact.Stored.{Stored}
use pinapod.Compact.Stored.Forward.{bounds-Stored}
use pinapod.Compact.Planning.{
  resized_len, IsStaged, AllStaged, stored_len, moves_of, new_end, new_end-le, step-Stored,
}
use pinapod.Compact.Planning.Setup.{AllFit}
use pinapod.Compact.Committed.Tails.{new_segment, full_step-Stored}
use pinapod.Compact.Committed.Buffer.{Fields, fields_end}

module _ (um : ℕ) (bytes : List ℕ) where
  pub moves_of-Fields :
      (ts : List Tail) (es : List (Option Edit)) (at o n : ℕ)
      → Fields at (moves_of um bytes ts es at o n)
        × (fields_end at (moves_of um bytes ts es at o n) ≤ at + tails_width ts)
  unfolding moves_of tails_width
  moves_of-Fields [] es at o n = (tt, omega arith)
  moves_of-Fields (t ∷ ts) [] at o n = (tt, omega arith)
  moves_of-Fields (t ∷ ts) (e ∷ es) at o n =
      let (fields, end) =
        moves_of-Fields ts es (at + header_width t) (o + stored_len um bytes t at o)
          (n + resized_len t e (stored_len um bytes t at o)) in
      ((refl, fields), omega (arith, end))

  pub moves_of-IsStaged :
      (ts : List Tail) (es : List (Option Edit)) (at o n : ℕ)
      → AllStaged um ts es
      → All
          (λ m. IsStaged um m.tail m.edit × (m.new_len ≡ resized_len m.tail m.edit m.old_len))
          (moves_of um bytes ts es at o n)
  unfolding moves_of
  moves_of-IsStaged [] es at o n h = tt
  moves_of-IsStaged (t ∷ ts) [] at o n h = tt
  moves_of-IsStaged (t ∷ ts) (e ∷ es) at o n h =
      ((h.0, refl), moves_of-IsStaged ts es (at + header_width t) _ _ h.1)

  pub moves_of-below :
      (ts : List Tail) (es : List (Option Edit)) (at o n : ℕ)
      → All
          (λ m. m.new_off + m.new_len ≤ new_end um bytes ts es at o n)
          (moves_of um bytes ts es at o n)
  unfolding moves_of new_end
  moves_of-below [] es at o n = tt
  moves_of-below (t ∷ ts) [] at o n = tt
  moves_of-below (t ∷ ts) (e ∷ es) at o n = (
    new_end-le um bytes ts es (at + header_width t) _ _,
    moves_of-below ts es (at + header_width t) _ _,
  )

-- A move of a plan in the buffer after the commit: its tail is stored at its new place, as edited.
abbrev pub After : (um : ℕ) → (bytes after : List ℕ) → Move → Type 0
After um bytes after m =
    (block : List ℕ) × Stored um after m.tail m.at m.new_off
      (new_segment m.edit (field_at um bytes m.tail m.at m.old_off)) block
    × (length block ≡ m.new_len)
    × (semantic um after m.tail.payload
          (new_segment m.edit (field_at um bytes m.tail m.at m.old_off))
        ≡ ok tt)

module _ (um : ℕ) (bytes after : List ℕ) (size : length after ≤ um / 2) where
  -- The walk of `validate` over the tails after the commit.
  pub After-walk :
      (ts : List Tail) (es : List (Option Edit)) (at o n : ℕ)
      → AllFit um ts
      → AllStaged um ts es
      → All (After um bytes after) (moves_of um bytes ts es at o n)
      → walk_tails (full_step um after) ts at n ≡ ok (new_end um bytes ts es at o n)
  unfolding moves_of new_end walk_tails
  After-walk [] [] at o n h staged all = refl
  After-walk [] (e ∷ es) at o n h staged all = absurd staged
  After-walk (t ∷ ts) [] at o n h staged all = absurd staged
  After-walk (t ∷ ts) (e ∷ es) at o n h staged ((block, there, len, valid), all) =
      let old = stored_len um bytes t at o in
      let rest =
        After-walk ts es (at + header_width t) (o + old) (n + resized_len t e old) h.1 staged.1
          all in
      rw (full_step-Stored um after t at n _ block size h.0 there valid)
        (ap (λ k. walk_tails (full_step um after) ts (at + header_width t) (n + k)) len ∙ rest)

  -- What each accessor shows after the commit.
  pub After-accessor :
      (target : IsTarget um) (bytes-IsByte : All IsByte bytes) (after-IsByte : All IsByte after)
      (small : length bytes ≤ um / 2) (ts : List Tail) (es : List (Option Edit)) (i at o n end : ℕ)
      → AllFit um ts
      → AllStaged um ts es
      → o ≤ length bytes
      → n ≤ length after
      → walk_tails (full_step um bytes) ts at o ≡ ok end
      → All (After um bytes after) (moves_of um bytes ts es at o n)
      → accessor_from um after ts i at n
        ≡ new_segment (get_or es i none) (accessor_from um bytes ts i at o)
  unfolding moves_of walk_tails accessor_from
  After-accessor target b a small [] [] i at o n end h staged front room e all = refl
  After-accessor target b a small [] (e' ∷ es) i at o n end h staged front room e all =
      absurd staged
  After-accessor target b a small (t ∷ ts) [] i at o n end h staged front room e all = absurd staged
  After-accessor target b a small (t ∷ ts) (edit ∷ es) zero at o n end h staged front room e
        ((block, there, len, valid), all) =
      (Returns-of _ (bounds um after t at n) _ (bounds-Meets target after a size t at n h.0 room)
        (bounds-Stored um after size t.name t.presence t.payload at n _ block h.0 there)).0
  After-accessor target b a small (t ∷ ts) (edit ∷ es) (suc i) at o n end h staged front room e
        ((block, there, len, valid), all) =
      let (next, stepped, rest) = >>=-eq-ok (full_step um bytes t at o) _ e in
      let (_, _, sum, within) = step-Stored target bytes b small t at o next h.0 front stepped in
      let old = stored_len um bytes t at o in
      let moved =
        (Returns-of _ (bounds um after t at n) _ (bounds-Meets target after a size t at n h.0 room)
          (bounds-Stored um after size t.name t.presence t.payload at n _ block h.0 there)).1 in
      let stayed : offset_step um bytes t at o ≡ o + old =
        (step-Meets target bytes b small t at o next h.0 front stepped).1 ∙ sym sum in
      rw (moved, len)
        (After-accessor target b a small ts es i (at + header_width t) (o + old)
            (n + resized_len t edit old) end h.1 staged.1 (omega (arith, sum, within))
            (omega (arith, len, there.3)) (rw (← sum) at rest) all
          ∙ ap
              (λ k.
                new_segment (get_or es i none)
                  (accessor_from um bytes ts i (at + header_width t) k))
              (sym stayed))
