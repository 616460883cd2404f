-- ===== src/Tests/Patch.antt =====
-- Patches of the account of Tests/Compact: one that closes it and drops an id, one that outgrows the
-- buffer, and the initialization of a new one.
use pinapod.Base.{ℕ, ◌≡◌, refl, arith, ◌⊎◌, true, none, some, List, [], ◌∷◌, replicate}
use pinapod.Error.{PinaPodError, ok, err, buffer_too_small, overflow}
use pinapod.Pod.Flag
use pinapod.Compact.{walk_tails, validate_header, validate_storage_len, validate_elems}
use pinapod.Compact.Commit.{commit}
use pinapod.Compact.Committed.Writer.{committed_len}
use pinapod.Compact.Patch.{Patch, update, initialize}
use pinapod.Compact.Patched.Inputs.{TailsTyped, InlinesTyped}
use pinapod.Compact.Patched.Update.{writer_of, IsApplicable, Updated, update_lem}
use pinapod.Compact.Patched.Initialize.{Initialized, initialize_lem}
use pinapod.Compact.Patched.Filled.{Filled, initialize-Filled}
use pinapod.Tests.Compact.{um, target, ledger, ledger-IsCompact, account, account-IsByte}

-- The flag cleared, one id in place of two, the sums as they are.
abbrev closing : Patch
closing = record { inlines = some (0 ∷ []) ∷ []; tails = some (some (1, 7 ∷ 0 ∷ [])) ∷ none ∷ [] }

closing-typed :
    InlinesTyped ledger.inline_fields closing.inlines × TailsTyped ledger.tail_fields closing.tails
closing-typed =
    (((refl, (omega arith, tt)), tt), ((refl, (omega arith, (omega arith, tt))), (tt, tt)))

closed :
    update um ledger 19 2 true closing account
    ≡ (0 ∷ 1 ∷ 1 ∷ 7 ∷ 0 ∷ 1 ∷ 0 ∷ 9 ∷ 9 ∷ 9 ∷ 9 ∷ 0 ∷ 0 ∷ 0 ∷ 0 ∷ [], ok 11)
unfolding update commit validate_storage_len validate_header Flag.validate_ref walk_tails
    validate_elems
closed = refl

-- Three ids and the two sums do not fit.
outgrowing :
    update um ledger 19 2 true
      (record {
        inlines = none ∷ [];
        tails =
            some (some (3, 1 ∷ 0 ∷ 2 ∷ 0 ∷ 3 ∷ 0 ∷ []))
            ∷ some (some (2, 1 ∷ 1 ∷ 1 ∷ 1 ∷ 2 ∷ 2 ∷ 2 ∷ 2 ∷ []))
            ∷ [];
      })
      account
    ≡ (account, err buffer_too_small)
unfolding update commit validate_storage_len validate_header Flag.validate_ref walk_tails
    validate_elems
outgrowing = refl

update_lem_example :
    (IsApplicable um ledger 19 2 closing account
      × ((after : List ℕ) × (update um ledger 19 2 true closing account
            ≡ (after, ok (committed_len um ledger (writer_of um ledger closing account))))
          × Updated um ledger 19 2 closing
              (committed_len um ledger (writer_of um ledger closing account))
              account
              after))
    ⊎ ((IsApplicable um ledger 19 2 closing account → ⊥)
        × ((e : PinaPodError) × (update um ledger 19 2 true closing account ≡ (account, err e))))
update_lem_example =
    update_lem target ledger 19 2 ledger-IsCompact closing closing-typed account account-IsByte
      (omega arith) true

abbrev opening : Patch
opening = record { inlines = some (1 ∷ []) ∷ []; tails = some (some (1, 7 ∷ 0 ∷ [])) ∷ none ∷ [] }

opening-typed :
    InlinesTyped ledger.inline_fields opening.inlines × TailsTyped ledger.tail_fields opening.tails
opening-typed =
    (((refl, (omega arith, tt)), tt), ((refl, (omega arith, (omega arith, tt))), (tt, tt)))

-- A destination that was used before.
abbrev used : List ℕ
used = 8 ∷ 8 ∷ 8 ∷ 8 ∷ 8 ∷ 8 ∷ 8 ∷ []

opened : initialize um ledger 19 2 true opening used ≡ (1 ∷ 1 ∷ 0 ∷ 7 ∷ 0 ∷ 0 ∷ 0 ∷ [], ok 5)
unfolding initialize commit validate_storage_len validate_header Flag.validate_ref walk_tails
    validate_elems
opened = refl

-- A vector beyond its capacity is refused, and the destination is zeroed.
refused :
    initialize um ledger 19 2 true
      (record { inlines = none ∷ []; tails = some (some (4, replicate 8 0)) ∷ none ∷ [] })
      used
    ≡ (replicate 7 0, err overflow)
unfolding initialize commit validate_storage_len validate_header Flag.validate_ref walk_tails
    validate_elems
refused = refl

initialize_lem_example :
    ((encoded : ℕ) × ((after : List ℕ) × (initialize um ledger 19 2 true opening used
          ≡ (after, ok encoded))
        × Initialized um ledger 19 2 opening 7 encoded after))
    ⊎ ((e : PinaPodError) × (initialize um ledger 19 2 true opening used ≡ (replicate 7 0, err e)))
initialize_lem_example = initialize_lem um ledger 19 2 true opening used

initialize-Filled_example : Filled um ledger 19 2 opening 7 5 (1 ∷ 1 ∷ 0 ∷ 7 ∷ 0 ∷ 0 ∷ 0 ∷ [])
initialize-Filled_example =
    initialize-Filled target ledger 19 2 ledger-IsCompact opening opening-typed used (omega arith) _
      5 opened
