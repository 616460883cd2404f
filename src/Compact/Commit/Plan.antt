-- ===== src/Compact/Commit/Plan.antt =====
-- The first part of a commit: the old and the new place of each tail, and the range checks, before
-- anything is written.
use pinapod.Base.{ℕ, ◌+◌, Bool, Option, none, some, List, [], ◌∷◌, leb, length}
use pinapod.Error.{PinaPodError, buffer_too_small, Result, ok, ◌>>=◌, ◌>>◌, ensure}
use pinapod.Elem.{Checked}
use pinapod.Compact.Support.{checked_add}
use pinapod.Compact.{Tail, Schema, header_width, header_size, inline_size}
use pinapod.Compact.Walks.{commit_entry_validate}
use pinapod.Compact.Edits.{Edit, Writer, old_size, new_size}

-- The variables of one tail: its field, the place of its header field, its edit, and the old and the
-- new offset and length.
pub record Move : Type 0 where
  pub tail : Tail
  pub at : ℕ
  pub edit : Option Edit
  pub old_off : ℕ
  pub new_off : ℕ
  pub old_len : ℕ
  pub new_len : ℕ

abbrev pub placed : Tail → ℕ → Option Edit → ℕ × ℕ → ℕ → ℕ → Move
placed t at e places old new = record {
  tail = t;
  at = at;
  edit = e;
  old_off = places.0;
  new_off = places.1;
  old_len = old;
  new_len = new;
}

module _ (um : ℕ) where
  -- The offsets of a tail: the size of the header, or the ends of the tail before it.
  unfoldable pub offsets : ℕ → Option Move → Result PinaPodError (ℕ × ℕ)
  unfolding checked_add
  offsets front none = ok (front, front)
  offsets front (some prev) = do
    old ← checked_add um prev.old_off prev.old_len
    new ← checked_add um prev.new_off prev.new_len
    ok (old, new)

  unfoldable pub resized : Tail → Option Edit → ℕ → Result PinaPodError ℕ
  unfolding new_size
  resized t none old = ok old
  resized t (some edit) old = new_size um t edit

  -- `setup_positions`
  unfoldable pub setup :
      Writer
      → ℕ
      → Option Move
      → List Tail
      → List (Option Edit)
      → ℕ
      → Result PinaPodError (List Move)
  unfolding offsets old_size resized header_width
  setup w front prev (t ∷ ts) (e ∷ es) at = do
    places ← offsets front prev
    old ← old_size um w t at places.0
    new ← resized t e old
    rest ← setup w front (some (placed t at e places old new)) ts es (at + header_width t)
    ok (placed t at e places old new ∷ rest)
  setup w front prev [] es at = ok []
  setup w front prev (t ∷ ts) [] at = ok []

  -- `range_checks`
  unfoldable pub range_checks : (total_len size : ℕ) → List Move → Checked
  unfolding checked_add
  range_checks total_len size [] = ok tt
  range_checks total_len size (m ∷ ms) = do
    old_end ← checked_add um m.old_off m.old_len
    ensure (leb old_end total_len) buffer_too_small
    new_end ← checked_add um m.new_off m.new_len
    ensure (leb new_end size) buffer_too_small
    range_checks total_len size ms

  -- The sum of the last new offset and the last new length.
  unfoldable pub final_total : Move → List Move → Result PinaPodError ℕ
  unfolding checked_add
  final_total m [] = checked_add um m.new_off m.new_len
  final_total m (n ∷ ms) = final_total n ms

  unfoldable pub total_of : ℕ → List Move → Result PinaPodError ℕ
  unfolding final_total
  total_of front [] = ok front
  total_of front (m ∷ ms) = final_total m ms

-- What runs before the first write; a schema with no tail has nothing to plan.
unfoldable pub plan :
    (um : ℕ)
    → Schema
    → (top alignment : ℕ) → (full_validation : Bool) → Writer
    → Result PinaPodError (List Move × ℕ)
unfolding commit_entry_validate setup range_checks total_of header_size inline_size
plan um s top alignment full_validation w = do
  commit_entry_validate um s top alignment full_validation w.bytes
  moves ← setup um w (header_size s) none s.tail_fields w.edits (inline_size s.inline_fields)
  range_checks um w.total_len (length w.bytes) moves
  final ← total_of um (header_size s) moves
  ensure (leb final (length w.bytes)) buffer_too_small
  ok (moves, final)
