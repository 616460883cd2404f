-- ===== src/Compact/Writing.antt =====
-- Writes to places that stand one behind the other: what a buffer holds after all of them.
pub mod Tails
pub mod Header
use pinapod.Base.{
  ℕ, ◌+◌, ◌≤◌, ◌≡◌, refl, ap, sym, ◌∙◌, arith, ◌⊎◌, inl, inr, List, [], ◌∷◌, ◌++◌, length, All,
}
use pinapod.Base.{All-map, All-map₂, length-append}
use pinapod.Base.Slices.{slice, slice-add}
use pinapod.Error.{ok}
use pinapod.Compact.Commit.Plan.{Move}
use pinapod.Compact.Commit.Writes.{Action, following, ◌>>=◌, for_each}

-- A statement that succeeds goes on with what it left.
pub after-ok :
    {A B : Type 0} (m : Action A) (k : A → Action B) (bytes after : List ℕ) (a : A)
    → m bytes ≡ (after, ok a)
    → (m >>= k) bytes ≡ k a after
after-ok m k bytes after a e = ap (following k) e

-- A write of a block: the rest of the buffer is as it was.
abbrev pub Wrote : List ℕ → List ℕ → ℕ → List ℕ → Type 0
Wrote bytes after offset block =
    (length after ≡ length bytes)
    × (slice offset (length block) after ≡ block)
    × ((at n : ℕ)
        → (at + n ≤ offset) ⊎ (offset + length block ≤ at)
        → slice at n after ≡ slice at n bytes)

-- Two blocks, one behind the other.
pub Wrote-append :
    (bytes middle after : List ℕ) (offset : ℕ) (xs ys : List ℕ)
    → Wrote bytes middle offset xs
    → Wrote middle after (offset + length xs) ys
    → Wrote bytes after offset (xs ++ ys)
Wrote-append bytes middle after offset xs ys (len, front, apart) (len', back, apart') = (
  len' ∙ len,
  ap (λ k. slice offset k after) (length-append xs ys)
      ∙ slice-add offset (length xs) (length ys) after
      ∙ ap (λ l. l ++ slice (offset + length xs) (length ys) after)
          (apart' offset (length xs) (inl (omega arith)) ∙ front)
      ∙ ap (λ l. xs ++ l) back,
  λ at n h.
      apart' at n (elim h [
        | inl below ↦ inl (omega (arith, below))
        | inr above ↦ inr (omega (arith, above, length-append xs ys))
      ])
      ∙ apart at n (elim h [
        | inl below ↦ inl below
        | inr above ↦ inr (omega (arith, above, length-append xs ys))
      ]),
)

-- Places that stand one behind the other.
module _ (pos width : Move → ℕ) where
  abbrev pub Spaced : ℕ → List Move → Type 0
  Spaced n [] = Unit
  Spaced n (m ∷ ms) = (pos m ≡ n) × Spaced (n + width m) ms

  abbrev pub spaced_end : ℕ → List Move → ℕ
  spaced_end n [] = n
  spaced_end n (m ∷ ms) = spaced_end (n + width m) ms

  Spaced-from : (n : ℕ) (ms : List Move) → Spaced n ms → All (λ m. n ≤ pos m) ms
  Spaced-from n [] h = tt
  Spaced-from n (m ∷ ms) (e, rest) =
      (omega (arith, e), All-map (λ m' b. omega (arith, b)) ms (Spaced-from (n + width m) ms rest))

  pub spaced_end-le : (n : ℕ) (ms : List Move) → n ≤ spaced_end n ms
  spaced_end-le n [] = omega arith
  spaced_end-le n (m ∷ ms) = omega (arith, spaced_end-le (n + width m) ms)

  pub Spaced-within :
      (n : ℕ) (ms : List Move) → Spaced n ms → All (λ m. pos m + width m ≤ spaced_end n ms) ms
  Spaced-within n [] h = tt
  Spaced-within n (m ∷ ms) (e, rest) =
      (omega (arith, e, spaced_end-le (n + width m) ms), Spaced-within (n + width m) ms rest)

module _ (act : Move → Action (Unit {0})) (pos width : Move → ℕ)
    (want : List ℕ → Move → List ℕ) where
  -- One statement: it succeeds, its place holds what is wanted, and the rest is as it was.
  abbrev pub Acts : List ℕ → Move → Type 0
  Acts bytes m =
      (after : List ℕ) × (act m bytes ≡ (after, ok tt))
      × (length after ≡ length bytes)
      × (slice (pos m) (width m) after ≡ want bytes m)
      × ((at n : ℕ)
          → (at + n ≤ pos m) ⊎ (pos m + width m ≤ at)
          → slice at n after ≡ slice at n bytes)

  -- What is wanted at a place depends on that place alone.
  abbrev pub IsLocal : Type 0
  IsLocal =
      (m : Move) (bytes after : List ℕ)
      → slice (pos m) (width m) after ≡ slice (pos m) (width m) bytes
      → want after m ≡ want bytes m

  pub for_each-Acts :
      (size : ℕ) (n : ℕ) (ms : List Move) (bytes : List ℕ)
      → IsLocal
      → Spaced pos width n ms
      → All (λ m. (bs : List ℕ) → length bs ≡ size → Acts bs m) ms
      → length bytes ≡ size
      → (after : List ℕ) × (for_each act ms bytes ≡ (after, ok tt))
        × (length after ≡ length bytes)
        × All (λ m. slice (pos m) (width m) after ≡ want bytes m) ms
        × ((at len : ℕ)
            → (at + len ≤ n) ⊎ (spaced_end pos width n ms ≤ at)
            → slice at len after ≡ slice at len bytes)
  unfolding for_each
  for_each-Acts size n [] bytes local spaced acts sized = (bytes, refl, refl, tt, λ at len h. refl)
  for_each-Acts size n (m ∷ ms) bytes local (first, spaced) acts sized =
      let (middle, done, len, holds, apart) = acts.0 bytes sized in
      let (after, rest, len', held, apart') =
        for_each-Acts size (n + width m) ms middle local spaced acts.1 (len ∙ sized) in
      (
        after,
        after-ok (act m) (λ _. for_each act ms) bytes middle tt done ∙ rest,
        len' ∙ len,
        (
          apart' (pos m) (width m) (inl (omega (arith, first))) ∙ holds,
          All-map₂
              (λ m' from h.
                h
                ∙ local m' bytes middle
                    (apart (pos m') (width m') (inr (omega (arith, from, first)))))
              ms (Spaced-from pos width (n + width m) ms spaced) held,
        ),
        λ at k h.
            apart' at k (elim h [ inl below ↦ inl (omega (arith, below)) | inr above ↦ inr above ])
            ∙ apart at k (elim h [
              | inl below ↦ inl (omega (arith, below, first))
              | inr above ↦
                  inr (omega (arith, above, first, spaced_end-le pos width (n + width m) ms))
            ]),
      )
