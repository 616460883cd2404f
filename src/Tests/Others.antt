-- ===== src/Tests/Others.antt =====
-- `PodBool`, `PodOption<PodBool, 2>`, and the fixed layout of a `PodBool`.
use pinapod.Base.{ℕ, ◌≡◌, ◌⊎◌, ◌<◌, refl, arith, List, [], ◌∷◌, true}
use pinapod.Base.{some, none, length, take, drop, replicate}
use pinapod.Base.Bytes.{from_le_bytes}
use pinapod.Error.{PinaPodError, buffer_too_small, invalid_length, invalid_tag, ok, err, ◌>>=◌}
use pinapod.Elem.{Checked}
use pinapod.Pod.Elems.{bool_elem, bool_elem-IsZcElem, bool_elem-fits}
use pinapod.Pod.Flag.{PodBool}
use pinapod.Pod.Maybe
use pinapod.Pod.Maybe.{PodOption, pfx_check}
use pinapod.Pod.Maybe.Laws.{Shows, writers_lem, validate_ref_option, try_get_ref_lem}
use pinapod.Fixed.{read_exact, read_prefix, write_back, initialize}
use pinapod.Fixed.Laws.{read_prefix-write_back, initialize-cases}

abbrev seven : PodBool
seven = record { byte = 7 }

abbrev yes : PodBool
yes = record { byte = 1 }

-- The tag `0x0101`, which a decoder of one byte would take for 1.
abbrev wrong_tag : PodOption PodBool
wrong_tag = record { tag = 1 ∷ 1 ∷ []; value = seven }

two_bytes : pfx_check 2 ≡ true
unfolding pfx_check
two_bytes = refl

writers_lem_example :
    Shows 2 (Maybe.set_option 2 wrong_tag (some yes)) (some yes)
    × Shows 2 (Maybe.some_value 2 seven) (some seven)
    × Shows 2 (Maybe.none_value {T = PodBool} 2) none
    × Shows 2 (Maybe.clear 2 wrong_tag) none
    × Shows 2 (Maybe.take 2 wrong_tag).0 none
    × ((Maybe.take 2 wrong_tag).1 ≡ Maybe.get 2 wrong_tag)
    × Shows 2 (Maybe.replace 2 wrong_tag seven).0 (some seven)
    × ((Maybe.replace 2 wrong_tag seven).1 ≡ Maybe.get 2 wrong_tag)
writers_lem_example = writers_lem 2 two_bytes wrong_tag seven (some yes)

validate_ref_option_example :
    ((from_le_bytes (1 ∷ 1 ∷ []) ≡ 0)
      × (Maybe.validate_ref 2 wrong_tag ≡ ok tt)
      × (Maybe.get 2 wrong_tag ≡ none))
    ⊎ ((from_le_bytes (1 ∷ 1 ∷ []) ≡ 1)
        × (Maybe.validate_ref 2 wrong_tag ≡ bool_elem.validate_ref seven)
        × (Maybe.get 2 wrong_tag ≡ some seven))
    ⊎ ((1 < from_le_bytes (1 ∷ 1 ∷ []))
        × (Maybe.validate_ref 2 wrong_tag ≡ err invalid_tag)
        × (Maybe.get 2 wrong_tag ≡ none))
validate_ref_option_example = validate_ref_option 2 two_bytes wrong_tag refl

try_get_ref_lem_example :
    Maybe.try_get_ref 2 wrong_tag
    ≡ (Maybe.validate_ref 2 wrong_tag >>= λ _. ok (Maybe.get 2 wrong_tag))
try_get_ref_lem_example = try_get_ref_lem 2 two_bytes wrong_tag

-- Two bytes, of which the first is written.
abbrev two_bools : List ℕ
two_bools = 1 ∷ 9 ∷ []

read_prefix-write_back_example :
    (length (write_back PodBool two_bools seven) ≡ 2)
    × (drop 1 (write_back PodBool two_bools seven) ≡ 9 ∷ [])
    × (read_prefix PodBool (write_back PodBool two_bools seven)
        ≡ (bool_elem.validate_ref seven >>= λ _. ok seven))
    × (read_exact PodBool (take 1 (write_back PodBool two_bools seven))
        ≡ (bool_elem.validate_ref seven >>= λ _. ok seven))
unfolding bool_elem
read_prefix-write_back_example =
    read_prefix-write_back PodBool bool_elem-IsZcElem two_bools seven (bool_elem-fits seven)
      (omega arith)

-- A closure that stores 7, which validation then refuses.
abbrev store_seven : PodBool → PodBool × Checked
store_seven p = (seven, ok tt)

initialize-cases_example :
    let (after, result) = initialize PodBool (9 ∷ []) store_seven in
    ((1 < bool_elem.size) × (after ≡ 9 ∷ []) × (result ≡ err buffer_too_small))
    ⊎ ((bool_elem.size < 1) × (after ≡ 9 ∷ []) × (result ≡ err invalid_length))
    ⊎ ((result ≡ ok seven)
        × ((store_seven bool_elem.zeroed).1 ≡ ok tt)
        × (read_exact PodBool after ≡ ok seven))
    ⊎ ((e : PinaPodError) × (result ≡ err e)
        × (bool_elem.validate_ref seven ≡ err e)
        × (after ≡ replicate 1 0))
initialize-cases_example =
    initialize-cases PodBool bool_elem-IsZcElem (9 ∷ []) store_seven
      (λ x _. bool_elem-fits (store_seven x).0)
