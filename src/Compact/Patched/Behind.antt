-- ===== src/Compact/Patched/Behind.antt =====
-- Two buffers that agree from some place on: a walk of the tails there, and their accessors, are the
-- same for both.
use pinapod.Base.{
  ℕ, ◌+◌, ◌/◌, ◌≤◌, ◌≡◌, refl, ap, ◌∙◌, arith, Option, none, List, [], ◌∷◌, length, drop, take, All,
  map, get_or, zero, suc,
}
use pinapod.Base.Bytes.{IsByte}
use pinapod.Error.{ok, ok-eq, >>=-eq-ok}
use pinapod.Compact.{Tail, header_width, IsTarget, walk_tails}
use pinapod.Compact.Walks.{full_step}
use pinapod.Compact.Views.{accessor_from}
use pinapod.Compact.Edits.{Edit}
use pinapod.Compact.Planning.{stored_len, step-Stored, moves_of, new_end}
use pinapod.Compact.Planning.Setup.{AllFit}
use pinapod.Compact.Committed.Tails.{semantic-any}
use pinapod.Compact.Committed.Plans.{After, After-walk, After-accessor}
use pinapod.Compact.Staging.{no_edits-AllStaged}
use pinapod.Base.Slices.{length-slice}

abbrev no_edits : List Tail → List (Option Edit)
no_edits ts = map (λ _. none) ts

get_or-no_edits : (ts : List Tail) (i : ℕ) → get_or (no_edits ts) i none ≡ none
get_or-no_edits [] i = refl
get_or-no_edits (t ∷ ts) zero = refl
get_or-no_edits (t ∷ ts) (suc i) = get_or-no_edits ts i

module _ {um : ℕ} (target : IsTarget um) (bytes after : List ℕ) (octets : All IsByte bytes)
    (octets' : All IsByte after) (size : length bytes ≤ um / 2) (len : length after ≡ length bytes)
    (front : ℕ) (same : (x : ℕ) → front ≤ x → drop x after ≡ drop x bytes) where
  kept-After :
      (ts : List Tail) (at o end : ℕ)
      → AllFit um ts
      → front ≤ at
      → front ≤ o
      → o ≤ length bytes
      → walk_tails (full_step um bytes) ts at o ≡ ok end
      → All (After um bytes after) (moves_of um bytes ts (no_edits ts) at o o)
        × (new_end um bytes ts (no_edits ts) at o o ≡ end)
  unfolding moves_of new_end walk_tails
  kept-After [] at o end h behind later inside e = (tt, ok-eq e)
  kept-After (t ∷ ts) at o end h behind later inside e =
      let (next, stepped, rest) = >>=-eq-ok (full_step um bytes t at o) _ e in
      let ((field, block, there, room), valid, sum, within) =
        step-Stored target bytes octets size t at o next h.0 inside stepped in
      let old = stored_len um bytes t at o in
      let (more, ends) =
        kept-After ts (at + header_width t) (o + old) end h.1 (omega (arith, behind))
          (omega (arith, later)) (omega (arith, sum, within)) (rw (← sum) at rest) in
      (
        (
          (
            _,
            (
              rw (same at behind) field,
              block,
              ap (take _) (same o later) ∙ there,
              omega (arith, len, room),
            ),
            length-slice o old bytes (omega (arith, sum, within)),
            semantic-any um after bytes t.payload _ ∙ valid,
          ),
          more,
        ),
        ends,
      )

  pub walk-behind :
      (ts : List Tail) (at o end : ℕ)
      → AllFit um ts
      → front ≤ at
      → front ≤ o
      → o ≤ length bytes
      → walk_tails (full_step um bytes) ts at o ≡ ok end
      → walk_tails (full_step um after) ts at o ≡ ok end
  walk-behind ts at o end h behind later inside e =
      let (kept, ends) = kept-After ts at o end h behind later inside e in
      After-walk um bytes after (omega (arith, len, size)) ts (no_edits ts) at o o h
        (no_edits-AllStaged um ts) kept
      ∙ ap ok ends

  pub accessor-behind :
      (ts : List Tail) (i at o end : ℕ)
      → AllFit um ts
      → front ≤ at
      → front ≤ o
      → o ≤ length bytes
      → walk_tails (full_step um bytes) ts at o ≡ ok end
      → accessor_from um after ts i at o ≡ accessor_from um bytes ts i at o
  accessor-behind ts i at o end h behind later inside e =
      let (kept, _) = kept-After ts at o end h behind later inside e in
      let shown =
        After-accessor um bytes after (omega (arith, len, size)) target octets octets' size ts
          (no_edits ts) i at o o end h (no_edits-AllStaged um ts) inside
          (omega (arith, inside, len)) e kept in
      rw (get_or-no_edits ts i) at shown
