-- ===== src/Tests/Numbers.antt =====
-- `PodU16` at its bounds.
use pinapod.Base.{◌≡◌, ◌⊎◌, ◌+◌, ◌*◌, ◌%◌, ◌≤◌, ◌<◌, refl, arith, [], ◌∷◌, some, none}
use pinapod.Pod.Int
use pinapod.Pod.Int.{PodInt, get}
use pinapod.Pod.Int.Unsigned.{unsigned, modulus}
use pinapod.Pod.Int.Laws.{IsPodInt, from-get}
use pinapod.Pod.Int.Arith.{add_lem, sub_lem, mul_lem, div_lem}

abbrev large : PodInt
large = record { bytes = 0xff ∷ 0xff ∷ [] }

abbrev small : PodInt
small = record { bytes = 0x03 ∷ 0x00 ∷ [] }

large-IsPodInt : IsPodInt 2 large
large-IsPodInt = (refl, (omega arith, (omega arith, tt)))

small-IsPodInt : IsPodInt 2 small
small-IsPodInt = (refl, (omega arith, (omega arith, tt)))

from-get_example : Int.from (unsigned 2) (get (unsigned 2) small) ≡ small
from-get_example = from-get 2 small small-IsPodInt

add_lem_example :
    let u = unsigned 2 in
    let sum = get u large + get u small in
    ((sum < modulus 2)
      × (Int.checked_add u large small ≡ some (Int.wrapping_add u large small))
      × (Int.saturating_add u large small ≡ Int.wrapping_add u large small)
      × (get u (Int.wrapping_add u large small) ≡ sum))
    ⊎ ((modulus 2 ≤ sum)
        × (Int.checked_add u large small ≡ none)
        × (Int.saturating_add u large small ≡ Int.max_value u)
        × (get u (Int.wrapping_add u large small) + modulus 2 ≡ sum))
add_lem_example = add_lem 2 large small large-IsPodInt small-IsPodInt

sub_lem_example :
    let u = unsigned 2 in
    ((get u large ≤ get u small)
      × (Int.checked_sub u small large ≡ some (Int.wrapping_sub u small large))
      × (Int.saturating_sub u small large ≡ Int.wrapping_sub u small large)
      × (get u (Int.wrapping_sub u small large) + get u large ≡ get u small))
    ⊎ ((get u small < get u large)
        × (Int.checked_sub u small large ≡ none)
        × (Int.saturating_sub u small large ≡ Int.min_value u)
        × (get u (Int.wrapping_sub u small large) + get u large ≡ get u small + modulus 2))
sub_lem_example = sub_lem 2 small large small-IsPodInt large-IsPodInt

mul_lem_example :
    let u = unsigned 2 in
    let product = get u large * get u small in
    ((product < modulus 2)
      × (Int.checked_mul u large small ≡ some (Int.wrapping_mul u large small))
      × (Int.saturating_mul u large small ≡ Int.wrapping_mul u large small)
      × (get u (Int.wrapping_mul u large small) ≡ product))
    ⊎ ((modulus 2 ≤ product)
        × (Int.checked_mul u large small ≡ none)
        × (Int.saturating_mul u large small ≡ Int.max_value u)
        × (get u (Int.wrapping_mul u large small) ≡ product % modulus 2))
mul_lem_example = mul_lem 2 large small

div_lem_example :
    let u = unsigned 2 in
    ((get u small ≡ 0) × (Int.checked_div u large small ≡ none))
    ⊎ ((0 < get u small)
        × ((r : PodInt) × (Int.checked_div u large small ≡ some r)
            × IsPodInt 2 r
            × (get u small * get u r ≤ get u large)
            × (get u large < get u small * get u r + get u small)))
div_lem_example = div_lem 2 large small large-IsPodInt
