-- ===== src/Compact/Commit/Moves.antt =====
-- The second part of a commit: the tails that stay unedited are moved within the buffer, first those
-- that go down, from the front, and then those that go up, from the back.
use pinapod.Base.{ℕ, ◌&&◌, List, [], ◌∷◌, ltb, if◌then◌else◌}
use pinapod.Base.Memory.{copy_at}
use pinapod.Base.Slices.{slice}
use pinapod.Compact.Edits.{is_none}
use pinapod.Compact.Commit.Plan.{Move}

-- `core::ptr::copy`, which reads before it writes.
unfoldable pub copy_tail : Move → List ℕ → List ℕ
copy_tail m bytes = copy_at m.new_off (slice m.old_off m.old_len bytes) bytes

unfoldable pub move_down : Move → List ℕ → List ℕ
unfolding copy_tail
move_down m bytes =
    if is_none m.edit && ltb m.new_off m.old_off && ltb 0 m.old_len
    then copy_tail m bytes
    else bytes

unfoldable pub move_up : Move → List ℕ → List ℕ
unfolding copy_tail
move_up m bytes =
    if is_none m.edit && ltb m.old_off m.new_off && ltb 0 m.old_len
    then copy_tail m bytes
    else bytes

-- Phase 1a, in the order of the fields.
unfoldable pub phase_1a : List Move → List ℕ → List ℕ
unfolding move_down
phase_1a [] bytes = bytes
phase_1a (m ∷ ms) bytes = phase_1a ms (move_down m bytes)

-- Phase 1b, in the reverse order.
unfoldable pub phase_1b : List Move → List ℕ → List ℕ
unfolding move_up
phase_1b [] bytes = bytes
phase_1b (m ∷ ms) bytes = move_up m (phase_1b ms bytes)
