-- ===== src/Utf8.antt =====
-- What pinapod/src/pod/string.rs uses of Rust's `core::str`: `from_utf8`, as the automaton of the
-- well-formed byte sequences (Unicode, table 3-7), and `str::is_char_boundary`.
pub mod Laws
use pinapod.Base.{ℕ, zero, suc, ◌≡◌, Bool, true, false, not, ◌&&◌, ◌||◌, Option, none, some}
use pinapod.Base.{List, [], ◌∷◌, ltb, leb, ◌==◌, if◌then◌else◌, length, get_or}

-- What may follow: nothing pending, or one to three continuation bytes, the first of them in a
-- narrower range behind E0, ED, F0 and F4.
pub data Phase : Type 0 where
  start one two three after_e0 after_ed after_f0 after_f4 : Phase

abbrev pub within : ℕ → ℕ → ℕ → Phase → Option Phase
within lo hi b next = if leb lo b && leb b hi then some next else none

unfoldable pub advance : Phase → ℕ → Option Phase
advance start b =
    if ltb b 0x80
    then some start
    else if ltb b 0xc2
    then none
    else if ltb b 0xe0
    then some one
    else if b == 0xe0
    then some after_e0
    else if b == 0xed
    then some after_ed
    else if ltb b 0xf0
    then some two
    else if b == 0xf0
    then some after_f0
    else if ltb b 0xf4
    then some three
    else if b == 0xf4
    then some after_f4
    else none
advance one b = within 0x80 0xbf b start
advance two b = within 0x80 0xbf b one
advance three b = within 0x80 0xbf b two
advance after_e0 b = within 0xa0 0xbf b one
advance after_ed b = within 0x80 0x9f b one
advance after_f0 b = within 0x90 0xbf b two
advance after_f4 b = within 0x80 0x8f b two

unfoldable pub scan : Phase → List ℕ → Option Phase
scan p [] = some p
scan p (b ∷ bs) = elim (advance p b) [ none ↦ none | some q ↦ scan q bs ]

abbrev pub at_rest : Option Phase → Bool
at_rest (some start) = true
at_rest _ = false

-- `core::str::from_utf8(bytes).is_ok()`
unfoldable pub is_utf8 : List ℕ → Bool
unfolding scan advance
is_utf8 bs = at_rest (scan start bs)

-- A byte that is no continuation byte: `(b as i8) >= -0x40`.
abbrev pub leads : ℕ → Bool
leads b = ltb b 0x80 || leb 0xc0 b

unfoldable pub is_char_boundary : List ℕ → ℕ → Bool
is_char_boundary bs index =
    if index == 0
    then true
    else if leb (length bs) index
    then index == length bs
    else leads (get_or bs index 0)
