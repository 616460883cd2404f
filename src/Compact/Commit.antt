-- ===== src/Compact/Commit.antt =====
-- The commit of the staged edits, as `generate_commit_body` of pinapod-derive/src/compact.rs emits
-- it: the plan, the moves of the tails that stay, the writes of the edited ones, and the header.
pub mod Plan
pub mod Moves
pub mod Writes
use pinapod.Base.{ℕ, Bool, Option, none, List, [], ◌∷◌, ltb, if◌then◌else◌, map}
use pinapod.Base.Memory.{fill}
use pinapod.Error
use pinapod.Error.{PinaPodError, Result, ok, err}
use pinapod.Compact.{Tail, Schema, header_size}
use pinapod.Compact.Walks.{commit_entry_validate}
use pinapod.Compact.Edits.{Edit, Writer}
use Plan.{Move, plan}
use Moves.{phase_1a, phase_1b}
use Writes.{Action, ◌>>=◌, ◌>>◌, modify, phase_2, update_lens}

-- `clear_edits`
abbrev pub clear_edits : List (Option Edit) → List (Option Edit)
clear_edits edits = map (λ _. none) edits

-- All that a commit does to the buffer, once the plan stands.
unfoldable pub relocate : (um : ℕ) → List Move → Action (Unit {0})
unfolding phase_1a phase_1b phase_2 update_lens
relocate um moves =
    modify (phase_1a moves)
    >> (modify (phase_1b moves) >> (phase_2 um moves >> update_lens um moves))

-- The end of a commit, from what the writes left.
unfoldable pub finish :
    Writer → ℕ → List ℕ × Result PinaPodError (Unit {0}) → Writer × Result PinaPodError ℕ
finish w final (written, err e) = (record w { bytes = written }, err e)
finish w final (written, ok done) = (
  record {
    bytes = if ltb final w.total_len then fill final w.total_len 0 written else written;
    total_len = final;
    edits = clear_edits w.edits;
  },
  ok final,
)

-- The writes of a commit, where the plan stands.
unfoldable pub commit_plan :
    (um : ℕ) → Writer → Result PinaPodError (List Move × ℕ) → Writer × Result PinaPodError ℕ
unfolding relocate finish
commit_plan um w (err e) = (w, err e)
commit_plan um w (ok (moves, final)) = finish w final (relocate um moves w.bytes)

module _ (um : ℕ) (s : Schema) (top alignment : ℕ) (full_validation : Bool) where
  -- `commit` of a schema with tails.
  unfoldable pub commit_tails : Writer → Writer × Result PinaPodError ℕ
  unfolding plan commit_plan
  commit_tails w = commit_plan um w (plan um s top alignment full_validation w)

  -- `commit` of a schema without tails.
  unfoldable pub commit_header : Writer → Writer × Result PinaPodError ℕ
  unfolding commit_entry_validate header_size
  commit_header w = (
    w,
    Error.◌>>◌ (commit_entry_validate um s top alignment full_validation w.bytes)
        (ok (header_size s)),
  )

  unfoldable pub commit_of : List Tail → Writer → Writer × Result PinaPodError ℕ
  unfolding commit_tails commit_header
  commit_of [] = commit_header
  commit_of (t ∷ ts) = commit_tails

  unfoldable pub commit : Writer → Writer × Result PinaPodError ℕ
  unfolding commit_of
  commit = commit_of s.tail_fields
