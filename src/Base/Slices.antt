-- ===== src/Base/Slices.antt =====
-- Parts of a list by position, and what the slice writes do to them.
use Prim.Native.Nat.{ℕ, zero, suc, ◌+◌, ◌≤◌}
use mathlib.Core.Path.{◌≡◌, refl, ap, ◌∙◌, sym}
use mathlib.Core.Logic.{◌⊎◌, inl, inr}
use mathlib.Core.List.{List, [], ◌∷◌, ◌++◌}
use native.Mathlib.Omega.{arith}
use pinapod.Base.Lists.{length, take, drop, replicate, length-take, length-drop}
use pinapod.Base.Memory.{copy_at, fill}

-- `&bytes[at..at + n]`
abbrev pub slice {ℓ} : {A : Type ℓ} → ℕ → ℕ → List A → List A
slice at n xs = take n (drop at xs)

module _ {ℓ} {A : Type ℓ} where
  pub length-slice : (at n : ℕ) (xs : List A) → at + n ≤ length xs → length (slice at n xs) ≡ n
  length-slice at n xs h = omega (arith, length-take n (drop at xs), length-drop at xs)

  pub take-copy_zero :
      (vs ds : List A) → length vs ≤ length ds → take (length vs) (copy_at 0 vs ds) ≡ vs
  take-copy_zero [] ds h = refl
  take-copy_zero (v ∷ vs) [] h = absurd (omega arith)
  take-copy_zero (v ∷ vs) (d ∷ ds) h = ap (λ l. v ∷ l) (take-copy_zero vs ds (omega arith))

  -- What a write leaves where it wrote.
  pub slice-copy_at :
      (i : ℕ) (vs ds : List A)
      → i + length vs ≤ length ds
      → slice i (length vs) (copy_at i vs ds) ≡ vs
  slice-copy_at zero vs ds h = take-copy_zero vs ds (omega arith)
  slice-copy_at (suc i) [] [] h = refl
  slice-copy_at (suc i) (v ∷ vs) [] h = absurd (omega arith)
  slice-copy_at (suc i) vs (d ∷ ds) h = slice-copy_at i vs ds (omega arith)

  take-copy_behind : (n i : ℕ) (vs ds : List A) → n ≤ i → take n (copy_at i vs ds) ≡ take n ds
  take-copy_behind zero i vs ds h = refl
  take-copy_behind (suc n) i vs [] h = refl
  take-copy_behind (suc n) zero vs (d ∷ ds) h = absurd (omega arith)
  take-copy_behind (suc n) (suc i) vs (d ∷ ds) h =
      ap (λ l. d ∷ l) (take-copy_behind n i vs ds (omega arith))

  -- A write at or behind the end of a slice.
  pub slice-copy_behind :
      (at n i : ℕ) (vs ds : List A) → at + n ≤ i → slice at n (copy_at i vs ds) ≡ slice at n ds
  slice-copy_behind zero n i vs ds h = take-copy_behind n i vs ds (omega arith)
  slice-copy_behind (suc at) n i vs [] h = refl
  slice-copy_behind (suc at) n zero vs (d ∷ ds) h = absurd (omega arith)
  slice-copy_behind (suc at) n (suc i) vs (d ∷ ds) h = slice-copy_behind at n i vs ds (omega arith)

  -- A write that ends before a slice.
  pub drop-copy_before :
      (at i : ℕ) (vs ds : List A) → i + length vs ≤ at → drop at (copy_at i vs ds) ≡ drop at ds
  drop-copy_before at i vs [] h = refl
  drop-copy_before zero zero [] (d ∷ ds) h = refl
  drop-copy_before zero zero (v ∷ vs) (d ∷ ds) h = absurd (omega arith)
  drop-copy_before zero (suc i) vs (d ∷ ds) h = absurd (omega arith)
  drop-copy_before (suc at) zero [] (d ∷ ds) h = refl
  drop-copy_before (suc at) zero (v ∷ vs) (d ∷ ds) h = drop-copy_before at zero vs ds (omega arith)
  drop-copy_before (suc at) (suc i) vs (d ∷ ds) h = drop-copy_before at i vs ds (omega arith)

  pub slice-copy_apart :
      (at n i : ℕ) (vs ds : List A)
      → (at + n ≤ i) ⊎ (i + length vs ≤ at)
      → slice at n (copy_at i vs ds) ≡ slice at n ds
  slice-copy_apart at n i vs ds (inl h) = slice-copy_behind at n i vs ds h
  slice-copy_apart at n i vs ds (inr h) = ap (take n) (drop-copy_before at i vs ds h)

  slice-nil : (at n : ℕ) → slice {A = A} at n [] ≡ []
  slice-nil zero zero = refl
  slice-nil zero (suc n) = refl
  slice-nil (suc at) zero = refl
  slice-nil (suc at) (suc n) = refl

  take-add : (m n : ℕ) (xs : List A) → take (m + n) xs ≡ take m xs ++ take n (drop m xs)
  take-add zero n xs = let e : 0 + n ≡ n = omega arith in ap (λ k. take k xs) e
  take-add (suc m) n [] = slice-nil 0 (suc m + n) ∙ sym (slice-nil 0 n)
  take-add (suc m) n (x ∷ xs) =
      let e : suc m + n ≡ suc (m + n) = omega arith in
      ap (λ k. take k (x ∷ xs)) e ∙ ap (λ l. x ∷ l) (take-add m n xs)

  drop-drop : (m n : ℕ) (xs : List A) → drop m (drop n xs) ≡ drop (n + m) xs
  drop-drop m zero xs = let e : m ≡ 0 + m = omega arith in ap (λ k. drop k xs) e
  drop-drop zero (suc n) [] = let e : suc n ≡ suc n + 0 = omega arith in ap (λ k. drop k []) e
  drop-drop (suc m) (suc n) [] =
      let e : suc (n + suc m) ≡ suc n + suc m = omega arith in ap (λ k. drop {A = A} k []) e
  drop-drop m (suc n) (x ∷ xs) =
      let e : suc (n + m) ≡ suc n + m = omega arith in
      drop-drop m n xs ∙ ap (λ k. drop k (x ∷ xs)) e

  -- A slice in two parts.
  pub slice-add :
      (at m n : ℕ) (xs : List A) → slice at (m + n) xs ≡ slice at m xs ++ slice (at + m) n xs
  slice-add at m n xs =
      take-add m n (drop at xs) ∙ ap (λ l. slice at m xs ++ take n l) (drop-drop m at xs)

  drop-fill_before :
      (at lo hi : ℕ) (z : A) (ds : List A) → hi ≤ at → drop at (fill lo hi z ds) ≡ drop at ds
  drop-fill_before at lo hi z [] h = refl
  drop-fill_before at zero zero z (d ∷ ds) h = refl
  drop-fill_before at (suc lo) zero z (d ∷ ds) h = refl
  drop-fill_before zero lo (suc hi) z (d ∷ ds) h = absurd (omega arith)
  drop-fill_before (suc at) zero (suc hi) z (d ∷ ds) h =
      drop-fill_before at zero hi z ds (omega arith)
  drop-fill_before (suc at) (suc lo) (suc hi) z (d ∷ ds) h =
      drop-fill_before at lo hi z ds (omega arith)

  take-fill_behind :
      (n lo hi : ℕ) (z : A) (ds : List A) → n ≤ lo → take n (fill lo hi z ds) ≡ take n ds
  take-fill_behind zero lo hi z ds h = refl
  take-fill_behind (suc n) lo hi z [] h = refl
  take-fill_behind (suc n) zero hi z (d ∷ ds) h = absurd (omega arith)
  take-fill_behind (suc n) (suc lo) zero z (d ∷ ds) h = refl
  take-fill_behind (suc n) (suc lo) (suc hi) z (d ∷ ds) h =
      ap (λ l. d ∷ l) (take-fill_behind n lo hi z ds (omega arith))

  -- A fill at or behind the end of a slice.
  pub slice-fill_behind :
      (at n lo hi : ℕ) (z : A) (ds : List A)
      → at + n ≤ lo
      → slice at n (fill lo hi z ds) ≡ slice at n ds
  slice-fill_behind zero n lo hi z ds h = take-fill_behind n lo hi z ds (omega arith)
  slice-fill_behind (suc at) n lo hi z [] h = refl
  slice-fill_behind (suc at) n zero hi z (d ∷ ds) h = absurd (omega arith)
  slice-fill_behind (suc at) n (suc lo) zero z (d ∷ ds) h = refl
  slice-fill_behind (suc at) n (suc lo) (suc hi) z (d ∷ ds) h =
      slice-fill_behind at n lo hi z ds (omega arith)

  take-fill_zero :
      (n : ℕ) (z : A) (ds : List A) → n ≤ length ds → take n (fill 0 n z ds) ≡ replicate n z
  take-fill_zero zero z ds h = refl
  take-fill_zero (suc n) z [] h = absurd (omega arith)
  take-fill_zero (suc n) z (d ∷ ds) h = ap (λ l. z ∷ l) (take-fill_zero n z ds (omega arith))

  pub slice-fill :
      (lo n : ℕ) (z : A) (ds : List A)
      → lo + n ≤ length ds
      → slice lo n (fill lo (lo + n) z ds) ≡ replicate n z
  slice-fill zero n z ds h =
      let e : 0 + n ≡ n = omega arith in
      ap (λ k. take n (fill 0 k z ds)) e ∙ take-fill_zero n z ds (omega arith)
  slice-fill (suc lo) n z [] h =
      let e : n ≡ 0 = omega arith in
      ap (λ k. slice {A = A} (suc lo) k []) e ∙ ap (λ k. replicate k z) (sym e)
  slice-fill (suc lo) n z (d ∷ ds) h =
      let e : suc lo + n ≡ suc (lo + n) = omega arith in
      ap (λ k. slice (suc lo) n (fill (suc lo) k z (d ∷ ds))) e ∙ slice-fill lo n z ds (omega arith)
