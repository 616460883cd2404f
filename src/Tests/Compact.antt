-- ===== src/Tests/Compact.antt =====
-- A compact schema of a boolean, a vector of two-byte elements and an optional vector of four-byte
-- ones, and one with a string.
use pinapod.Base.{
  ℕ, ◌-◌, ◌^◌, ◌≤◌, ◌≡◌, ◌⊎◌, refl, arith, List, [], ◌∷◌, length, get_or, some, false, All,
}
use pinapod.Base.Bytes.{IsByte}
use Prim.Native.Nat.{◌∣◌, ◌<◌}
use pinapod.Error.{invalid_utf8, ok, err, into_error}
use pinapod.Utf8.{is_utf8}
use pinapod.Pod.Flag
use pinapod.Pod.Prefix.{cap_check}
use pinapod.Compact.{
  Element, always, option_tag, string, vector, Schema, IsTarget, IsCompact, capacity_checks,
}
use pinapod.Compact.{header_size, validate_storage_len, validate_header}
use pinapod.Compact.{walk_tails, validate_elems}
use pinapod.Compact.Support.{read_prefix, write_prefix}
use pinapod.Compact.Walks.{layout_end, validate, commit_entry_validate}
use pinapod.Compact.Diagnose.{diagnose}
use pinapod.Compact.Sizes.{compact_max_size, compact_tail_alignment}
use pinapod.Compact.Divides.{SizesDivide, compact_tail_alignment-greatest}
use pinapod.Compact.Views.{accessor, current_encoded_len}
use pinapod.Compact.Walks.{semantic}
use pinapod.Compact.Sound.{accessor-semantic, current_encoded_len-layout_end}
use pinapod.Compact.{inline_size}
use pinapod.Compact.Contract.{diagnose-validate}
use pinapod.Compact.Allocation.{layout_end-validate_storage_len}
use pinapod.Compact.Depth.{commit_entry_validate-validate}
use pinapod.Compact.Prefixes.{read_prefix-write_prefix}

abbrev pub um : ℕ
um = 2 ^ 64 - 1

pub target : IsTarget um
target = record { wide = omega arith; narrow = omega arith }

abbrev pub flag : Element
flag = record { size = 1; check = λ bs. Flag.validate_ref (record { byte = get_or bs 0 0 }) }

abbrev pub word : ℕ → Element
word k = record { size = k; check = λ _. ok tt }

abbrev pub ledger : Schema
ledger = record {
  name = "Ledger";
  inline_fields = record { name = "open"; elem = flag } ∷ [];
  tail_fields =
      record { name = "ids"; presence = always; payload = vector (word 2) 3 1 }
      ∷ record { name = "sums"; presence = option_tag; payload = vector (word 4) 2 2 }
      ∷ [];
}

-- Two ids, one sum, and two spare bytes.
abbrev pub account : List ℕ
account = 1 ∷ 2 ∷ 1 ∷ 1 ∷ 0 ∷ 2 ∷ 0 ∷ 1 ∷ 0 ∷ 9 ∷ 9 ∷ 9 ∷ 9 ∷ 0 ∷ 0 ∷ []

abbrev note : Schema
note = record {
  name = "Note";
  inline_fields = [];
  tail_fields = record { name = "text"; presence = always; payload = string 4 1 } ∷ [];
}

-- A text of a single continuation byte.
abbrev broken : List ℕ
broken = 1 ∷ 0x80 ∷ []

pub ledger-IsCompact : IsCompact um ledger
unfolding capacity_checks cap_check
ledger-IsCompact = (refl, (refl, tt))

note-IsCompact : IsCompact um note
unfolding capacity_checks cap_check
note-IsCompact = (refl, tt)

broken-IsByte : All IsByte broken
broken-IsByte = (omega arith, (omega arith, tt))

pub account-IsByte : All IsByte account
account-IsByte = ground arith

diagnose-validate_example : into_error (diagnose um note 5 1 broken) ≡ validate um note 5 1 broken
diagnose-validate_example =
    diagnose-validate target note 5 1 note-IsCompact broken broken-IsByte (omega arith)

-- The rejection names the field.
broken_text : diagnose um note 5 1 broken ≡ err (record { field = "text"; error = invalid_utf8 })
unfolding diagnose validate_storage_len header_size walk_tails is_utf8
broken_text = refl

account_end : layout_end um ledger 19 (compact_tail_alignment ledger) account ≡ ok 13
unfolding layout_end validate_storage_len header_size walk_tails compact_tail_alignment
account_end = refl

ledger_top : compact_max_size um ledger ≡ some 19
unfolding compact_max_size
ledger_top = refl

layout_end-validate_storage_len_example :
    (13 ≤ length account)
    × (validate_storage_len (header_size ledger) 19 (compact_tail_alignment ledger) 13 ≡ ok tt)
layout_end-validate_storage_len_example =
    layout_end-validate_storage_len target ledger 19 ledger-IsCompact ledger_top account
      account-IsByte (omega arith) 13 account_end

compact_tail_alignment-greatest_example :
    (0 < compact_tail_alignment ledger)
    × All (SizesDivide (compact_tail_alignment ledger)) ledger.tail_fields
    × (((d : ℕ) → All (SizesDivide d) ledger.tail_fields → d ∣ compact_tail_alignment ledger)
        ⊎ ((compact_tail_alignment ledger ≡ 1) × All (SizesDivide 0) ledger.tail_fields))
compact_tail_alignment-greatest_example = compact_tail_alignment-greatest ledger

-- Two of the element sizes and a prefix width have the common unit 2.
ledger_unit : compact_tail_alignment ledger ≡ 2
unfolding compact_tail_alignment
ledger_unit = refl

pub account_valid : validate um ledger 19 2 account ≡ ok tt
unfolding validate validate_storage_len header_size walk_tails validate_header Flag.validate_ref
    validate_elems
account_valid = refl

commit_entry_validate-validate_example : commit_entry_validate um ledger 19 2 false account ≡ ok tt
commit_entry_validate-validate_example =
    commit_entry_validate-validate um ledger 19 2 false account account_valid

written : write_prefix um (7 ∷ 7 ∷ 7 ∷ 7 ∷ []) 1 2 513 ≡ ok (7 ∷ 1 ∷ 2 ∷ 7 ∷ [])
unfolding write_prefix
written = refl

read_prefix-write_prefix_example :
    (◌≡◌ {A = ℕ} 4 4) × (read_prefix um (7 ∷ 1 ∷ 2 ∷ 7 ∷ []) 1 2 ≡ ok 513)
read_prefix-write_prefix_example =
    read_prefix-write_prefix target (7 ∷ 7 ∷ 7 ∷ 7 ∷ []) 1 2 513 (7 ∷ 1 ∷ 2 ∷ 7 ∷ []) written

accessor-semantic_example :
    semantic um account (vector (word 4) 2 2) (accessor um ledger account 1) ≡ ok tt
accessor-semantic_example =
    accessor-semantic target ledger 19 2 ledger-IsCompact account account-IsByte (omega arith)
      account_valid 1
      (record { name = "sums"; presence = option_tag; payload = vector (word 4) 2 2 }) refl

-- The accessor skips the ids and the prefix of the sums.
sums : accessor um ledger account 1 ≡ some (1, 9 ∷ 9 ∷ 9 ∷ 9 ∷ [])
unfolding accessor header_size inline_size
sums = refl

current_encoded_len-layout_end_example :
    (layout_end um ledger 19 2 account ≡ ok (current_encoded_len um ledger account))
    × (current_encoded_len um ledger account ≤ length account)
current_encoded_len-layout_end_example =
    current_encoded_len-layout_end target ledger 19 2 ledger-IsCompact account account-IsByte
      (omega arith) account_valid
