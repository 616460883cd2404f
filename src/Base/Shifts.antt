-- ===== src/Base/Shifts.antt =====
-- The move of the elements behind a removed one.
use Prim.Native.Nat.{suc, ◌+◌}
use mathlib.Core.Path.{◌≡◌, refl, ap, ◌∙◌}
use mathlib.Core.List.{List, [], ◌∷◌, ◌++◌, append_assoc, append-nil}
use native.Mathlib.Omega.{arith}
use pinapod.Base.Tests.{ltb, if◌then◌else◌, lt→ltb}
use pinapod.Base.Lists.{length, drop, length-append, take, take-length_append}
use pinapod.Base.Memory.{copy_at, copy_at-behind, copy_at-prefix}

module _ {ℓ} {A : Type ℓ} where
  -- The last element of a list that begins with `x`.
  abbrev pub last_of : A → List A → A
  last_of x [] = x
  last_of x (y ∷ ys) = last_of y ys

  drop-last_of :
      (x : A) (post rest : List A) → drop (length post) ((x ∷ post) ++ rest) ≡ last_of x post ∷ rest
  drop-last_of x [] rest = refl
  drop-last_of x (y ∷ post) rest = drop-last_of y post rest

  -- Moving what follows `x` down by one place.
  shift_down :
      (pre : List A) (x : A) (post rest : List A)
      → copy_at (length pre) post ((pre ++ (x ∷ post)) ++ rest)
        ≡ (pre ++ post) ++ (last_of x post ∷ rest)
  shift_down pre x post rest =
      rw (append_assoc pre (x ∷ post) rest, append_assoc pre post (last_of x post ∷ rest))
        (copy_at-behind pre post ((x ∷ post) ++ rest)
          ∙ ap (λ l. pre ++ l)
              (copy_at-prefix post ((x ∷ post) ++ rest) (omega (arith, length-append post rest))
                ∙ ap (λ l. post ++ l) (drop-last_of x post rest)))

  drop-behind :
      (pre : List A) (x : A) (post rest : List A)
      → drop (length pre + 1) ((pre ++ (x ∷ post)) ++ rest) ≡ post ++ rest
  drop-behind [] x post rest = refl
  drop-behind (p ∷ pre) x post rest =
      let e : suc (length pre) + 1 ≡ suc (length pre + 1) = omega arith in
      ap (λ k. drop k (p ∷ ((pre ++ (x ∷ post)) ++ rest))) e ∙ drop-behind pre x post rest

  -- The move that `remove` makes, if anything follows the removed element.
  pub close_gap :
      (pre : List A) (x : A) (post rest : List A)
      → let m = (pre ++ (x ∷ post)) ++ rest in
        (if ltb 0 (length post)
          then copy_at (length pre) (take (length post) (drop (length pre + 1) m)) m
          else m)
        ≡ (pre ++ post) ++ (last_of x post ∷ rest)
  close_gap pre x [] rest = rw (append-nil, append_assoc)
  close_gap pre x (y ∷ post) rest =
      rw
        (
          lt→ltb 0 (length (y ∷ post)) (omega arith),
          drop-behind pre x (y ∷ post) rest,
          take-length_append (y ∷ post) rest,
        )
        (shift_down pre x (y ∷ post) rest)
