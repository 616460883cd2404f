-- ===== src/Tests/Text.antt =====
-- `PodString<8, 2>`, with the text of an ASCII letter and a character of three bytes.
use pinapod.Base.{
  ℕ, ◌≡◌, ◌≤◌, ◌<◌, ◌-◌, refl, arith, List, [], ◌∷◌, ◌++◌, true, false, length, replicate, drop,
  take,
}
use pinapod.Error.{ok, ◌>>=◌}
use pinapod.Utf8.{is_utf8, is_char_boundary, scan, advance}
use pinapod.Pod.Prefix
use pinapod.Pod.Prefix.RoundTrip.{try_decode_len-encode_len}
use pinapod.Pod.Text
use pinapod.Pod.Text.{PodString, round_down}
use pinapod.Pod.Text.Writes.{Shows, Stores}
use pinapod.Pod.Text.Truncate.{truncate_text}
use pinapod.Pod.Text.Reads.{validate_ref_text, try_as_str-validate_ref}
use pinapod.Pod.Text.Refine.{Op, try_push_str, truncate, clear, spec_run, Canonical, run}
use pinapod.Pod.Text.Refine.{run_refines_text, Canonical-valid}
use pinapod.Tests.{eight, eight-IsLayout}

abbrev letter_snowman : List ℕ
letter_snowman = 0x61 ∷ 0xe2 ∷ 0x98 ∷ 0x83 ∷ []

abbrev word : PodString
word = record { prefix = 4 ∷ 0 ∷ []; slots = letter_snowman ++ replicate 4 0 }

-- The same text with other bytes behind it.
abbrev dirty : PodString
dirty = record { prefix = 4 ∷ 0 ∷ []; slots = letter_snowman ++ (1 ∷ 2 ∷ 3 ∷ 255 ∷ []) }

letter_snowman_text : is_utf8 letter_snowman ≡ true
unfolding is_utf8 scan advance
letter_snowman_text = refl

word-Canonical : Canonical eight word letter_snowman
unfolding Prefix.try_decode_len
word-Canonical =
    (letter_snowman_text, record { exact = refl; memory = refl; total = refl; width = refl })

dirty-Shows : Shows eight dirty letter_snowman (1 ∷ 2 ∷ 3 ∷ 255 ∷ [])
unfolding Prefix.clamped_len Prefix.decode_len Prefix.try_decode_len
dirty-Shows = record { active = refl; memory = refl; total = refl; width = refl }

abbrev calls : List Op
calls = truncate 3 ∷ try_push_str letter_snowman letter_snowman_text ∷ clear ∷ []

run_refines_text_example :
    ((run eight word calls).1 ≡ (spec_run 8 letter_snowman calls).1)
    × Canonical eight (run eight word calls).0 (spec_run 8 letter_snowman calls).0
run_refines_text_example = run_refines_text eight-IsLayout calls word letter_snowman word-Canonical

Canonical-valid_example :
    (Text.validate_ref eight word ≡ ok tt) × (Text.try_as_str eight word ≡ ok letter_snowman)
Canonical-valid_example = Canonical-valid eight-IsLayout word letter_snowman word-Canonical

truncate_text_example :
    let b = round_down letter_snowman 3 in
    (b ≤ 3)
    × ((j : ℕ) → b < j → j ≤ 3 → is_char_boundary letter_snowman j ≡ false)
    × (is_utf8 (take b letter_snowman) ≡ true)
    × Stores eight
        (Text.truncate eight dirty 3)
        (take b letter_snowman)
        (replicate (4 - b) 0 ++ (1 ∷ 2 ∷ 3 ∷ 255 ∷ []))
truncate_text_example =
    truncate_text eight-IsLayout dirty 3 dirty-Shows letter_snowman_text (omega arith)

-- The cut falls behind the letter.
one_byte_left : round_down letter_snowman 3 ≡ 1
unfolding round_down is_char_boundary
one_byte_left = refl

dirty_valid : Text.validate_ref eight dirty ≡ ok tt
unfolding Text.validate_ref Prefix.try_decode_len is_utf8 scan advance
dirty_valid = refl

validate_ref_text_example :
    (Text.try_as_str eight dirty ≡ ok (Text.as_bytes eight dirty))
    × (is_utf8 (Text.as_bytes eight dirty) ≡ true)
    × Stores eight dirty
        (Text.as_bytes eight dirty)
        (drop (length (Text.as_bytes eight dirty)) dirty.slots)
validate_ref_text_example = validate_ref_text eight dirty refl refl dirty_valid

try_as_str-validate_ref_example :
    (Text.try_as_str eight dirty >>= λ _. ok tt) ≡ Text.validate_ref eight dirty
try_as_str-validate_ref_example = try_as_str-validate_ref eight dirty

try_decode_len-encode_len_example :
    Prefix.try_decode_len eight (Prefix.encode_len eight 7 (255 ∷ 255 ∷ [])) ≡ ok 7
try_decode_len-encode_len_example =
    try_decode_len-encode_len eight-IsLayout 7 (255 ∷ 255 ∷ []) refl (omega arith)

word-Shows : Shows eight word letter_snowman (replicate 4 0)
unfolding Prefix.clamped_len Prefix.decode_len Prefix.try_decode_len
word-Shows = record { active = refl; memory = refl; total = refl; width = refl }
