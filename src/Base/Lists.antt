-- ===== src/Base/Lists.antt =====
-- Lists measured and indexed by native numbers, under the library's names.
use Prim.Native.Nat.{ℕ, zero, suc, ◌+◌, ◌-◌, ◌≤◌, min}
use mathlib.Core.Path.{◌≡◌, refl, ap, ◌∙◌}
use mathlib.Core.Bool.{Bool}
use mathlib.Core.List.{List, [], ◌∷◌, ◌++◌, map}
use mathlib.Core.Option.{Option, none, some}
use native.Mathlib.Omega.{arith}
use pinapod.Base.Tests.{if◌then◌else◌}

module _ {ℓ} {A : Type ℓ} where
  abbrev pub length : List A → ℕ
  length [] = 0
  length (x ∷ xs) = suc (length xs)

  abbrev pub get_elem? : List A → ℕ → Option A
  get_elem? [] i = none
  get_elem? (x ∷ xs) zero = some x
  get_elem? (x ∷ xs) (suc i) = get_elem? xs i

  abbrev pub get_or : List A → ℕ → A → A
  get_or [] i d = d
  get_or (x ∷ xs) zero d = x
  get_or (x ∷ xs) (suc i) d = get_or xs i d

  -- A write out of range changes nothing.
  abbrev pub set : List A → ℕ → A → List A
  set [] i v = []
  set (x ∷ xs) zero v = v ∷ xs
  set (x ∷ xs) (suc i) v = x ∷ set xs i v

  abbrev pub take : ℕ → List A → List A
  take zero xs = []
  take (suc n) [] = []
  take (suc n) (x ∷ xs) = x ∷ take n xs

  abbrev pub drop : ℕ → List A → List A
  drop zero xs = xs
  drop (suc n) [] = []
  drop (suc n) (x ∷ xs) = drop n xs

  abbrev pub replicate : ℕ → A → List A
  replicate zero a = []
  replicate (suc n) a = a ∷ replicate n a

  abbrev pub All {κ} : (A → Type κ) → List A → Type κ
  All P [] = Unit {κ}
  All P (x ∷ xs) = P x × All P xs

  -- The elements that pass a test.
  abbrev pub keep : (A → Bool) → List A → List A
  keep f [] = []
  keep f (x ∷ xs) = if f x then x ∷ keep f xs else keep f xs

module _ {ℓ} {A : Type ℓ} where
  pub length-append : (xs ys : List A) → length (xs ++ ys) ≡ length xs + length ys
  length-append [] ys = omega arith
  length-append (x ∷ xs) ys = omega (arith, length-append xs ys)

  pub length-set : (xs : List A) (i : ℕ) (v : A) → length (set xs i v) ≡ length xs
  length-set [] i v = refl
  length-set (x ∷ xs) zero v = refl
  length-set (x ∷ xs) (suc i) v = ap suc (length-set xs i v)

  pub length-take : (n : ℕ) (xs : List A) → length (take n xs) ≡ min n (length xs)
  length-take zero xs = omega arith
  length-take (suc n) [] = omega arith
  length-take (suc n) (x ∷ xs) = omega (arith, length-take n xs)

  pub length-drop : (n : ℕ) (xs : List A) → length (drop n xs) ≡ length xs - n
  length-drop zero xs = omega arith
  length-drop (suc n) [] = omega arith
  length-drop (suc n) (x ∷ xs) = omega (arith, length-drop n xs)

  pub length-replicate : (n : ℕ) (a : A) → length (replicate n a) ≡ n
  length-replicate zero a = refl
  length-replicate (suc n) a = ap suc (length-replicate n a)

  pub take-append-drop : (n : ℕ) (xs : List A) → take n xs ++ drop n xs ≡ xs
  take-append-drop zero xs = refl
  take-append-drop (suc n) [] = refl
  take-append-drop (suc n) (x ∷ xs) = ap (λ l. x ∷ l) (take-append-drop n xs)

  pub take-length_append : (xs ys : List A) → take (length xs) (xs ++ ys) ≡ xs
  take-length_append [] ys = refl
  take-length_append (x ∷ xs) ys = ap (λ l. x ∷ l) (take-length_append xs ys)

  pub drop-length_append : (xs ys : List A) → drop (length xs) (xs ++ ys) ≡ ys
  drop-length_append [] ys = refl
  drop-length_append (x ∷ xs) ys = drop-length_append xs ys

  pub take-length : (xs : List A) → take (length xs) xs ≡ xs
  take-length [] = refl
  take-length (x ∷ xs) = ap (λ l. x ∷ l) (take-length xs)

  pub replicate-add : (m n : ℕ) (a : A) → replicate m a ++ replicate n a ≡ replicate (m + n) a
  replicate-add zero n a = let e : n ≡ 0 + n = omega arith in ap (λ k. replicate k a) e
  replicate-add (suc m) n a =
      let e : suc (m + n) ≡ suc m + n = omega arith in
      ap (λ l. a ∷ l) (replicate-add m n a) ∙ ap (λ k. replicate k a) e

  pub length-keep : (f : A → Bool) (xs : List A) → length (keep f xs) ≤ length xs
  length-keep f [] = omega arith
  length-keep f (x ∷ xs) = ground (arith, length-keep f xs)

  pub length-map {κ} : {B : Type κ} (f : A → B) (xs : List A) → length (map f xs) ≡ length xs
  length-map f [] = refl
  length-map f (x ∷ xs) = ap suc (length-map f xs)

pub drop-replicate {ℓ} :
    {A : Type ℓ} (k n : ℕ) (a : A) → drop k (replicate n a) ≡ replicate (n - k) a
drop-replicate zero n a = let e : n ≡ n - 0 = omega arith in ap (λ m. replicate m a) e
drop-replicate (suc k) zero a = let e : 0 ≡ 0 - suc k = omega arith in ap (λ m. replicate m a) e
drop-replicate (suc k) (suc n) a =
    let e : n - k ≡ suc n - suc k = omega arith in drop-replicate k n a ∙ ap (λ m. replicate m a) e

module _ {ℓ κ} {A : Type ℓ} (P : A → Type κ) where
  pub All-take : (n : ℕ) (xs : List A) → All P xs → All P (take n xs)
  All-take zero xs h = tt
  All-take (suc n) [] h = tt
  All-take (suc n) (x ∷ xs) h = (h.0, All-take n xs h.1)

  pub All-drop : (n : ℕ) (xs : List A) → All P xs → All P (drop n xs)
  All-drop zero xs h = h
  All-drop (suc n) [] h = tt
  All-drop (suc n) (x ∷ xs) h = All-drop n xs h.1

pub All-map {ℓ κ μ} :
    {A : Type ℓ} {P : A → Type κ} {Q : A → Type μ} (f : (x : A) → P x → Q x) (xs : List A)
    → All P xs
    → All Q xs
All-map f [] h = tt
All-map f (x ∷ xs) h = (f x h.0, All-map f xs h.1)

pub All-map₂ {ℓ κ μ ν} :
    {A : Type ℓ} {P : A → Type κ} {Q : A → Type μ} {R : A → Type ν} (f : (x : A) → P x → Q x → R x)
    (xs : List A)
    → All P xs
    → All Q xs
    → All R xs
All-map₂ f [] h k = tt
All-map₂ f (x ∷ xs) h k = (f x h.0 k.0, All-map₂ f xs h.1 k.1)

pub All-map₄ {ℓ κ} :
    {A : Type ℓ} {P Q R S T : A → Type κ} (f : (x : A) → P x → Q x → R x → S x → T x) (xs : List A)
    → All P xs
    → All Q xs
    → All R xs
    → All S xs
    → All T xs
All-map₄ f [] p q r s = tt
All-map₄ f (x ∷ xs) p q r s = (f x p.0 q.0 r.0 s.0, All-map₄ f xs p.1 q.1 r.1 s.1)
