-- ===== src/Tests.antt =====
-- Concrete layouts and values, and runs of the code on them.
mod Vec
mod Text
mod Others
mod Numbers
mod Compact
mod Choice
mod Commit
mod Patch
use pinapod.Base.{◌-◌, ◌^◌, refl, arith, List, [], ◌∷◌}
use pinapod.Pod.Prefix.{Layout, IsLayout, cap_check}

-- Four slots behind one byte of length, and eight behind two, on a 64-bit target.
abbrev pub four : Layout
four = record { usize_max = 2 ^ 64 - 1; n = 4; pfx = 1 }

abbrev pub eight : Layout
eight = record { usize_max = 2 ^ 64 - 1; n = 8; pfx = 2 }

pub four-IsLayout : IsLayout four
unfolding cap_check
four-IsLayout = record { checked = refl; wide = omega arith; narrow = omega arith }

pub eight-IsLayout : IsLayout eight
unfolding cap_check
eight-IsLayout = record { checked = refl; wide = omega arith; narrow = omega arith }
