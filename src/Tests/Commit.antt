-- ===== src/Tests/Commit.antt =====
-- Staged edits of the account of Tests/Compact: a vector that shrinks before an option that moves
-- down, and a pair that outgrows the buffer.
use pinapod.Base.{
  ℕ, ◌≤◌, ◌+◌, ◌≡◌, refl, arith, ◌⊎◌, true, false, none, some, Option, List, [], ◌∷◌, length, All,
}
use pinapod.Base.Slices.{slice}
use pinapod.Error.{PinaPodError, ok, err}
use pinapod.Pod.Flag
use pinapod.Compact.{
  walk_tails, validate_header, validate_storage_len, always, option_tag, vector, header_size,
  inline_size, validate_elems,
}
use pinapod.Compact.Support.{check_prefix}
use pinapod.Compact.Walks.{semantic}
use pinapod.Compact.Views.{current_encoded_len, offset_step}
use pinapod.Compact.Edits.{
  Edit, null, staged, is_none, new, set_always, try_projected_size, projected_size,
}
use pinapod.Compact.Edits as E
use pinapod.Compact.Commit.{commit}
use pinapod.Compact.Commit.Plan.{Move, placed}
use pinapod.Compact.Commit.Moves.{phase_1a, phase_1b}
use pinapod.Compact.Planning.{AllStaged, new_end}
use pinapod.Compact.Relocation.{phases-lands}
use pinapod.Compact.Committed.{commit_lem, commit-refused}
use pinapod.Compact.Committed.Writer.{IsWriter, committed_len, Committed}
use pinapod.Compact.Session.{Keeps, Session, opened, next, sets, commits, Session-IsWriter}
use pinapod.Compact.Staging.{IsAccepted, set_always_lem}
use pinapod.Compact.Projected.{try_projected_size-committed_len}
use pinapod.Tests.Compact.{
  um, word, target, ledger, account, ledger-IsCompact, account-IsByte, account_valid,
}

abbrev with_edits : List (Option Edit) → E.Writer
with_edits edits = record { bytes = account; total_len = 13; edits = edits }

-- One id in place of two.
abbrev shrunk : E.Writer
shrunk = with_edits (some (staged 1 (7 ∷ 0 ∷ [])) ∷ none ∷ [])

-- Three ids and two sums.
abbrev outgrown : E.Writer
outgrown = with_edits (
    some (staged 3 (1 ∷ 0 ∷ 2 ∷ 0 ∷ 3 ∷ 0 ∷ []))
    ∷ some (staged 2 (1 ∷ 1 ∷ 1 ∷ 1 ∷ 2 ∷ 2 ∷ 2 ∷ 2 ∷ []))
    ∷ [])

account_len : 13 ≡ current_encoded_len um ledger account
unfolding current_encoded_len header_size inline_size
account_len = refl

with_edits-IsWriter :
    (edits : List (Option Edit))
    → AllStaged um ledger.tail_fields edits
    → IsWriter um ledger 19 2 (with_edits edits)
with_edits-IsWriter edits h = record {
  accepted = account_valid;
  octets = account-IsByte;
  size = omega arith;
  counted = account_len;
  staged_edits = h;
}

shrunk-IsWriter : IsWriter um ledger 19 2 shrunk
unfolding semantic check_prefix validate_elems
shrunk-IsWriter =
    with_edits-IsWriter _
      (((omega arith, refl), refl, refl, (omega arith, (omega arith, tt))), (tt, tt))

outgrown-IsWriter : IsWriter um ledger 19 2 outgrown
unfolding semantic check_prefix validate_elems
outgrown-IsWriter = with_edits-IsWriter _ (
  (
    (omega arith, refl),
    refl,
    refl,
    (omega arith, (omega arith, (omega arith, (omega arith, (omega arith, (omega arith, tt)))))),
  ),
  (
    (
      (omega arith, refl),
      refl,
      refl,
      (
        omega arith,
        (
          omega arith,
          (
            omega arith,
            (omega arith, (omega arith, (omega arith, (omega arith, (omega arith, tt))))),
          ),
        ),
      ),
    ),
    tt,
  ),
)

shrunk_len : committed_len um ledger shrunk ≡ 11
unfolding committed_len new_end offset_step
shrunk_len = refl

outgrown_len : committed_len um ledger outgrown ≡ 19
unfolding committed_len new_end offset_step
outgrown_len = refl

-- The sum stands two bytes below its old place, and the bytes behind it are zero.
shrunk_bytes : commit um ledger 19 2 true shrunk ≡ (
  record {
    bytes = 1 ∷ 1 ∷ 1 ∷ 7 ∷ 0 ∷ 1 ∷ 0 ∷ 9 ∷ 9 ∷ 9 ∷ 9 ∷ 0 ∷ 0 ∷ 0 ∷ 0 ∷ [];
    total_len = 11;
    edits = none ∷ none ∷ [];
  },
  ok 11,
)
unfolding commit validate_storage_len validate_header Flag.validate_ref walk_tails validate_elems
shrunk_bytes = refl

commit_lem_example :
    (after : E.Writer) × (commit um ledger 19 2 true shrunk
      ≡ (after, ok (committed_len um ledger shrunk)))
    × Committed um ledger 19 2 shrunk after
commit_lem_example =
    commit_lem target ledger 19 2 ledger-IsCompact shrunk shrunk-IsWriter true
      (rw shrunk_len (omega arith))

commit-refused_example :
    (e : PinaPodError) × (commit um ledger 19 2 false outgrown ≡ (outgrown, err e))
commit-refused_example =
    commit-refused target ledger 19 2 ledger-IsCompact outgrown outgrown-IsWriter false
      (rw outgrown_len (omega arith))

try_projected_size-committed_len_example :
    (try_projected_size um ledger outgrown ≡ ok (committed_len um ledger outgrown))
    × (projected_size um ledger outgrown ≡ committed_len um ledger outgrown)
try_projected_size-committed_len_example =
    try_projected_size-committed_len target ledger 19 2 ledger-IsCompact outgrown outgrown-IsWriter
      (rw outgrown_len (omega arith))

-- The rest of the code agrees on the size that the edits need.
outgrown_size : projected_size um ledger outgrown ≡ 19
unfolding projected_size
outgrown_size = refl

fresh : new um ledger 19 2 account ≡ ok (with_edits (none ∷ none ∷ []))
unfolding new validate_storage_len header_size walk_tails validate_header Flag.validate_ref
    validate_elems
fresh = refl

set_always_lem_example :
    (IsAccepted um (vector (word 2) 3 1) 1 (8 ∷ 0 ∷ [])
      × (set_always um shrunk 0 (vector (word 2) 3 1) 1 (8 ∷ 0 ∷ [])
          ≡ (with_edits (some (staged 1 (8 ∷ 0 ∷ [])) ∷ none ∷ []), ok tt))
      × IsWriter um ledger 19 2 (with_edits (some (staged 1 (8 ∷ 0 ∷ [])) ∷ none ∷ [])))
    ⊎ ((IsAccepted um (vector (word 2) 3 1) 1 (8 ∷ 0 ∷ []) → ⊥)
        × ((e : PinaPodError) × (set_always um shrunk 0 (vector (word 2) 3 1) 1 (8 ∷ 0 ∷ [])
              ≡ (shrunk, err e))))
set_always_lem_example =
    set_always_lem um ledger 19 2 shrunk shrunk-IsWriter 0
      (record { name = "ids"; presence = always; payload = vector (word 2) 3 1 }) refl 1
      (8 ∷ 0 ∷ []) (refl, (omega arith, (omega arith, tt)))

-- The plan of the first writer.
abbrev shifts : List Move
shifts =
    placed (record { name = "ids"; presence = always; payload = vector (word 2) 3 1 }) 1
      (some (staged 1 (7 ∷ 0 ∷ []))) (3, 3) 4 2
    ∷ placed (record { name = "sums"; presence = option_tag; payload = vector (word 4) 2 2 }) 2 none
        (7, 5) 6 6
    ∷ []

phases-lands_example :
    (length (phase_1b shifts (phase_1a shifts account)) ≡ length account)
    × All
        (λ m.
          is_none m.edit ≡ true
          → slice m.new_off m.old_len (phase_1b shifts (phase_1a shifts account))
            ≡ slice m.old_off m.old_len account)
        shifts
    × ((at len : ℕ)
        → at + len ≤ 3
        → slice at len (phase_1b shifts (phase_1a shifts account)) ≡ slice at len account)
phases-lands_example =
    phases-lands 3 3 shifts account
      (refl, refl, λ h. absurd (ground (arith, h)), (refl, refl, λ h. refl, tt))
      ((omega arith, omega arith), ((omega arith, omega arith), tt))

-- The setter of the ids, and then a commit.
staged_ids :
    set_always um (with_edits (none ∷ none ∷ [])) 0 (vector (word 2) 3 1) 1 (7 ∷ 0 ∷ [])
    ≡ (shrunk, ok tt)
unfolding set_always check_prefix validate_elems
staged_ids = refl

session :
    Session um ledger 19 2 true
      (with_edits (none ∷ none ∷ []))
      (commit um ledger 19 2 true
        (set_always um (with_edits (none ∷ none ∷ [])) 0 (vector (word 2) 3 1) 1 (7 ∷ 0 ∷ [])).0).0
session =
    next
      (next opened (
        sets (with_edits (none ∷ none ∷ [])) 0
          (record { name = "ids"; presence = always; payload = vector (word 2) 3 1 }) 1 (7 ∷ 0 ∷ [])
          refl (refl, (omega arith, (omega arith, tt)))))
      (commits _)

Session-IsWriter_example :
    IsWriter um ledger 19 2
      (commit um ledger 19 2 true
        (set_always um (with_edits (none ∷ none ∷ [])) 0 (vector (word 2) 3 1) 1 (7 ∷ 0 ∷ [])).0).0
    × Keeps ledger account
        (commit um ledger 19 2 true
          (set_always um
            (with_edits (none ∷ none ∷ []))
            0
            (vector (word 2) 3 1)
            1
            (7 ∷ 0 ∷ [])).0).0.bytes
Session-IsWriter_example =
    Session-IsWriter target ledger 19 2 ledger-IsCompact true account
      (with_edits (none ∷ none ∷ [])) _ account-IsByte (omega arith) fresh session
