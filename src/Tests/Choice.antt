-- ===== src/Tests/Choice.antt =====
-- A compact enum of a unit, a string and a pair of bytes: a string replaced by a shorter one.
use pinapod.Base.{ℕ, ◌≤◌, some, ◌≡◌, refl, arith, ◌⊎◌, List, [], ◌∷◌, replicate}
use pinapod.Error.{PinaPodError, ok, err, buffer_too_small, invalid_discriminant}
use pinapod.Utf8.{is_utf8}
use pinapod.Compact.{validate_storage_len}
use pinapod.CompactEnum.{unit, string, vector, CompactVariant, Content, find_variant, new}
use pinapod.CompactEnum.Sizes.{enum_min_size, enum_max_size, length_of-admitted}
use pinapod.CompactEnum.Patch.{encoded_len, length_of, update, initialize}
use pinapod.CompactEnum.Initialized.{Suits, initialize-Shown}
use pinapod.CompactEnum.Updated.{Applies, Replaced, update-Replaced}
use pinapod.Tests.Compact.{um, target, word}

abbrev idle : CompactVariant
idle = record { name = "Idle"; disc = 0; payload = unit }

abbrev text : CompactVariant
text = record { name = "Text"; disc = 2; payload = string 4 1 }

abbrev pairs : CompactVariant
pairs = record { name = "Pairs"; disc = 5; payload = vector (word 2) 2 1 }

abbrev status : List CompactVariant
status = idle ∷ text ∷ pairs ∷ []

-- The text `abc`, and a spare byte.
abbrev stored : List ℕ
stored = 2 ∷ 3 ∷ 97 ∷ 98 ∷ 99 ∷ 0 ∷ []

abbrev pair : Content
pair = record { variant = pairs; count = 1; source = 7 ∷ 9 ∷ [] }

found : find_variant status 5 ≡ ok pairs
unfolding find_variant
found = refl

swapped : update um 1 status 1 6 pair stored ≡ (5 ∷ 1 ∷ 7 ∷ 9 ∷ 0 ∷ 0 ∷ [], ok 4)
unfolding update is_utf8
swapped = refl

shown : new um 1 status 1 6 (5 ∷ 1 ∷ 7 ∷ 9 ∷ 0 ∷ 0 ∷ []) ≡ ok pair
unfolding new
shown = refl

unknown : new um 1 status 1 6 (1 ∷ 0 ∷ []) ≡ err invalid_discriminant
unfolding new
unknown = refl

-- Four bytes do not fit a destination of three, which is zeroed.
short : initialize um 1 status 1 6 pair (8 ∷ 8 ∷ 8 ∷ []) ≡ (0 ∷ 0 ∷ 0 ∷ [], err buffer_too_small)
unfolding initialize
short = refl

update-Replaced_example :
    ((old : ℕ) × ((n : ℕ) × (Applies um 1 status 1 6 pair stored old n
          × ((after : List ℕ) × (update um 1 status 1 6 pair stored ≡ (after, ok n))
              × Replaced um 1 status 1 6 pair stored old n after))))
    ⊎ (((old n : ℕ) → Applies um 1 status 1 6 pair stored old n → ⊥)
        × ((e : PinaPodError) × (update um 1 status 1 6 pair stored ≡ (stored, err e))))
update-Replaced_example =
    update-Replaced target 1 status 1 6 (omega arith) pair found (omega arith) refl stored
      (omega arith)

initialize-Shown_example :
    ((n : ℕ) × (Suits um 1 status 1 6 pair (8 ∷ 8 ∷ 8 ∷ 8 ∷ []) n
        × ((after : List ℕ) × (initialize um 1 status 1 6 pair (8 ∷ 8 ∷ 8 ∷ 8 ∷ []) ≡ (after, ok n))
            × (new um 1 status 1 6 after ≡ ok pair))))
    ⊎ (((n : ℕ) → Suits um 1 status 1 6 pair (8 ∷ 8 ∷ 8 ∷ 8 ∷ []) n → ⊥)
        × ((e : PinaPodError) × (initialize um 1 status 1 6 pair (8 ∷ 8 ∷ 8 ∷ 8 ∷ [])
              ≡ (replicate 4 0, err e))))
initialize-Shown_example =
    initialize-Shown target 1 status 1 6 pair found (omega arith) refl (8 ∷ 8 ∷ 8 ∷ 8 ∷ [])
      (omega arith)

least : enum_min_size um 1 status ≡ some 1
unfolding enum_min_size
least = refl

most : enum_max_size um 1 status ≡ some 6
unfolding enum_max_size
most = refl

pair_len : encoded_len um 1 pair ≡ ok 4
unfolding length_of
pair_len = refl

length_of-admitted_example : (1 ≤ 1) × (validate_storage_len 1 6 1 4 ≡ ok tt)
length_of-admitted_example =
    length_of-admitted um 1 status 1 6 pair 4 (omega arith) least most found refl pair_len
