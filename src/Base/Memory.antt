-- ===== src/Base/Memory.antt =====
-- The slice writes of the containers: `copy_nonoverlapping` into an array, `fill` of a range, and
-- `copy` within one array. Positions outside the array are left alone.
use Prim.Native.Nat.{ℕ, zero, suc, ◌+◌, ◌-◌, ◌≤◌, ◌<◌}
use mathlib.Core.Path.{◌≡◌, refl, ap, ◌∙◌, sym}
use mathlib.Core.List.{List, [], ◌∷◌, ◌++◌}
use native.Mathlib.Omega.{arith}
use mathlib.Core.Logic.{inl, inr}
use pinapod.Base.Tests.{ltb, if◌then◌else◌, Bool-cases, ltb→lt}
use pinapod.Base.Lists.{length, get_or, set, replicate, drop, length-drop}

module _ {ℓ} {A : Type ℓ} where
  -- `dst[i..i + vs.len()].copy_from_slice(vs)`
  abbrev pub copy_at : ℕ → List A → List A → List A
  copy_at i vs [] = []
  copy_at (suc i) vs (d ∷ ds) = d ∷ copy_at i vs ds
  copy_at zero [] (d ∷ ds) = d ∷ ds
  copy_at zero (v ∷ vs) (d ∷ ds) = v ∷ copy_at zero vs ds

  -- `dst[lo..hi].fill(z)`
  abbrev pub fill : ℕ → ℕ → A → List A → List A
  fill lo hi z [] = []
  fill lo zero z (d ∷ ds) = d ∷ ds
  fill zero (suc hi) z (d ∷ ds) = z ∷ fill zero hi z ds
  fill (suc lo) (suc hi) z (d ∷ ds) = d ∷ fill lo hi z ds

module _ {ℓ} {A : Type ℓ} where
  pub set-append_head :
      (xs rest : List A) (y v : A) → set (xs ++ (y ∷ rest)) (length xs) v ≡ xs ++ (v ∷ rest)
  set-append_head [] rest y v = refl
  set-append_head (x ∷ xs) rest y v = ap (λ l. x ∷ l) (set-append_head xs rest y v)

  pub get_or-append_head :
      (xs rest : List A) (y d : A) → get_or (xs ++ (y ∷ rest)) (length xs) d ≡ y
  get_or-append_head [] rest y d = refl
  get_or-append_head (x ∷ xs) rest y d = get_or-append_head xs rest y d

  pub copy_at-zero :
      (vs old rest : List A) → length vs ≡ length old → copy_at 0 vs (old ++ rest) ≡ vs ++ rest
  copy_at-zero [] [] [] h = refl
  copy_at-zero [] [] (x ∷ rest) h = refl
  copy_at-zero (v ∷ vs) [] rest h = absurd (omega arith)
  copy_at-zero [] (x ∷ old) rest h = absurd (omega arith)
  copy_at-zero (v ∷ vs) (x ∷ old) rest h = ap (λ l. v ∷ l) (copy_at-zero vs old rest (omega arith))

  -- Copying over `old`, which stands behind `xs`.
  pub copy_at-append :
      (xs vs old rest : List A)
      → length vs ≡ length old
      → copy_at (length xs) vs (xs ++ (old ++ rest)) ≡ xs ++ (vs ++ rest)
  copy_at-append [] vs old rest h = copy_at-zero vs old rest h
  copy_at-append (x ∷ xs) vs old rest h = ap (λ l. x ∷ l) (copy_at-append xs vs old rest h)

  pub fill-nothing : (lo : ℕ) (z : A) (ds : List A) → fill lo 0 z ds ≡ ds
  fill-nothing lo z [] = refl
  fill-nothing lo z (d ∷ ds) = refl

  pub fill-zero :
      (old rest : List A) (z : A)
      → fill 0 (length old) z (old ++ rest) ≡ replicate (length old) z ++ rest
  fill-zero [] rest z = fill-nothing 0 z rest
  fill-zero (x ∷ old) rest z = ap (λ l. z ∷ l) (fill-zero old rest z)

  pub fill-all : (z : A) (ds : List A) → fill 0 (length ds) z ds ≡ replicate (length ds) z
  fill-all z [] = refl
  fill-all z (d ∷ ds) = ap (λ l. z ∷ l) (fill-all z ds)

  pub copy_at-all : (vs ds : List A) → length vs ≡ length ds → copy_at 0 vs ds ≡ vs
  copy_at-all [] [] h = refl
  copy_at-all [] (d ∷ ds) h = absurd (omega arith)
  copy_at-all (v ∷ vs) [] h = absurd (omega arith)
  copy_at-all (v ∷ vs) (d ∷ ds) h = ap (λ l. v ∷ l) (copy_at-all vs ds (omega arith))

  -- Filling exactly `old`, which stands behind `xs`.
  pub fill-append :
      (xs old rest : List A) (z : A)
      → fill (length xs) (length xs + length old) z (xs ++ (old ++ rest))
        ≡ xs ++ (replicate (length old) z ++ rest)
  fill-append [] old rest z =
      let e : 0 + length old ≡ length old = omega arith in
      ap (λ k. fill 0 k z (old ++ rest)) e ∙ fill-zero old rest z
  fill-append (x ∷ xs) old rest z =
      let e : suc (length xs) + length old ≡ suc (length xs + length old) = omega arith in
      ap (λ k. fill (suc (length xs)) k z (x ∷ (xs ++ (old ++ rest)))) e
      ∙ ap (λ l. x ∷ l) (fill-append xs old rest z)

  pub length-copy_at : (i : ℕ) (vs ds : List A) → length (copy_at i vs ds) ≡ length ds
  length-copy_at i vs [] = refl
  length-copy_at (suc i) vs (d ∷ ds) = ap suc (length-copy_at i vs ds)
  length-copy_at zero [] (d ∷ ds) = refl
  length-copy_at zero (v ∷ vs) (d ∷ ds) = ap suc (length-copy_at zero vs ds)

  pub length-fill : (lo hi : ℕ) (z : A) (ds : List A) → length (fill lo hi z ds) ≡ length ds
  length-fill lo hi z [] = refl
  length-fill zero zero z (d ∷ ds) = refl
  length-fill (suc lo) zero z (d ∷ ds) = refl
  length-fill zero (suc hi) z (d ∷ ds) = ap suc (length-fill zero hi z ds)
  length-fill (suc lo) (suc hi) z (d ∷ ds) = ap suc (length-fill lo hi z ds)

module _ {ℓ} {A : Type ℓ} where
  pub drop-nil : (n : ℕ) → drop {A = A} n [] ≡ []
  drop-nil zero = refl
  drop-nil (suc n) = refl

  pub drop-all : (n : ℕ) (xs : List A) → length xs ≤ n → drop n xs ≡ []
  drop-all zero [] h = refl
  drop-all zero (x ∷ xs) h = absurd (omega arith)
  drop-all (suc n) [] h = refl
  drop-all (suc n) (x ∷ xs) h = drop-all n xs (omega arith)

  pub drop-append :
      (n : ℕ) (xs ys : List A) → drop n (xs ++ ys) ≡ drop n xs ++ drop (n - length xs) ys
  drop-append n [] ys =
      let e : n ≡ n - 0 = omega arith in
      ap (λ k. drop k ys) e ∙ ap (λ l. l ++ drop (n - 0) ys) (sym (drop-nil n))
  drop-append zero (x ∷ xs) ys =
      let e : 0 ≡ 0 - length (x ∷ xs) = omega arith in ap (λ k. (x ∷ xs) ++ drop k ys) e
  drop-append (suc n) (x ∷ xs) ys =
      let e : n - length xs ≡ suc n - suc (length xs) = omega arith in
      drop-append n xs ys ∙ ap (λ k. drop n xs ++ drop k ys) e

  pub copy_at-behind :
      (xs vs ds : List A) → copy_at (length xs) vs (xs ++ ds) ≡ xs ++ copy_at 0 vs ds
  copy_at-behind [] vs ds = refl
  copy_at-behind (x ∷ xs) vs ds = ap (λ l. x ∷ l) (copy_at-behind xs vs ds)

  pub copy_at-prefix :
      (vs ds : List A) → length vs ≤ length ds → copy_at 0 vs ds ≡ vs ++ drop (length vs) ds
  copy_at-prefix [] [] h = refl
  copy_at-prefix [] (d ∷ ds) h = refl
  copy_at-prefix (v ∷ vs) [] h = absurd (omega arith)
  copy_at-prefix (v ∷ vs) (d ∷ ds) h = ap (λ l. v ∷ l) (copy_at-prefix vs ds (omega arith))

  -- What a setter leaves: the new values, zeros over the rest of the old ones, and the tail as it
  -- was behind the longer of the two.
  abbrev pub replaced : A → List A → List A → List A → List A
  replaced z vs xs rest =
      vs ++ (replicate (length xs - length vs) z ++ drop (length vs - length xs) rest)

  pub overwrite :
      (z : A) (vs xs rest : List A)
      → length vs ≤ length xs + length rest
      → length (xs ++ rest) ≡ length xs + length rest
      → (if ltb (length vs) (length xs)
          then fill (length vs) (length xs) z (copy_at 0 vs (xs ++ rest))
          else copy_at 0 vs (xs ++ rest))
        ≡ replaced z vs xs rest
  overwrite z vs xs rest h t = elim (Bool-cases (ltb (length vs) (length xs))) [
    | inl shorter ↦
        rw shorter
          (ap (fill (length vs) (length xs) z) copied ∙ vacated (omega (arith, ltb→lt _ _ shorter)))
    | inr longer ↦ rw longer (copied ∙ kept (ground arith))
  ]
    where
      copied :
          copy_at 0 vs (xs ++ rest)
          ≡ vs ++ (drop (length vs) xs ++ drop (length vs - length xs) rest)
      copied =
          copy_at-prefix vs (xs ++ rest) (omega arith)
          ∙ ap (λ l. vs ++ l) (drop-append (length vs) xs rest)

      vacated :
          length vs < length xs
          → fill
              (length vs)
              (length xs)
              z
              (vs ++ (drop (length vs) xs ++ drop (length vs - length xs) rest))
            ≡ replaced z vs xs rest
      vacated less =
          let n : length (drop (length vs) xs) ≡ length xs - length vs =
            length-drop (length vs) xs in
          let top : length xs ≡ length vs + length (drop (length vs) xs) = omega (arith, n) in
          ap
            (λ k.
              fill (length vs) k z
                (vs ++ (drop (length vs) xs ++ drop (length vs - length xs) rest)))
            top
          ∙ fill-append vs (drop (length vs) xs) (drop (length vs - length xs) rest) z
          ∙ ap (λ k. vs ++ (replicate k z ++ drop (length vs - length xs) rest)) n

      kept :
          length xs ≤ length vs
          → vs ++ (drop (length vs) xs ++ drop (length vs - length xs) rest) ≡ replaced z vs xs rest
      kept more =
          let none_left : length xs - length vs ≡ 0 = omega arith in
          rw (drop-all (length vs) xs more, none_left)
