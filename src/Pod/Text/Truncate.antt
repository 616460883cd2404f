-- ===== src/Pod/Text/Truncate.antt =====
-- `truncate` of `PodString` (pinapod/src/pod/string.rs).
use pinapod.Base.{
  ℕ, zero, suc, ◌+◌, ◌-◌, ◌≤◌, ◌<◌, ◌≡◌, refl, ap, ◌∙◌, sym, arith, leb, true, false,
}
use pinapod.Base.{List, ◌++◌, Bool-cases, inl, inr, le→leb, lt→leb, append_assoc}
use pinapod.Base.{length, length-append, length-drop, length-take, length-replicate, drop, take}
use pinapod.Base.{replicate, take-append-drop}
use pinapod.Base.Memory.{fill, fill-append}
use pinapod.Utf8.{is_utf8, is_char_boundary}
use pinapod.Utf8.Laws.{is_utf8-cut}
use native.Mathlib.Decide.{ℕ_discrete}
use pinapod.Pod.Prefix
use pinapod.Pod.Prefix.{Layout, IsLayout}
use pinapod.Pod.Prefix.Views.{Views-take}
use pinapod.Pod.Text.{PodString, round_down, truncate}
use pinapod.Pod.Text.Writes.{Shows, Stores, encode_len-Stores}

round_down-le : (bs : List ℕ) (n : ℕ) → round_down bs n ≤ n
unfolding round_down
round_down-le bs zero = omega arith
round_down-le bs (suc n) = ground (arith, round_down-le bs n)

round_down-boundary : (bs : List ℕ) (n : ℕ) → is_char_boundary bs (round_down bs n) ≡ true
unfolding round_down
round_down-boundary bs zero = unfold is_char_boundary in refl
round_down-boundary bs (suc n) = elim (Bool-cases (is_char_boundary bs (suc n))) [
  | inl here ↦ rw (here, here)
  | inr below ↦ rw below (round_down-boundary bs n)
]

round_down-greatest :
    (bs : List ℕ) (n j : ℕ) → round_down bs n < j → j ≤ n → is_char_boundary bs j ≡ false
unfolding round_down
round_down-greatest bs zero j h k = absurd (omega arith)
round_down-greatest bs (suc n) j h k = elim (Bool-cases (is_char_boundary bs (suc n))) [
  | inl here ↦ absurd (omega (arith, stop here))
  | inr below ↦ elim (ℕ_discrete j (suc n)) [
    | yes e ↦ rw e below
    | no less ↦ round_down-greatest bs n j (rw (below, round_down) at h) (omega arith)
  ]
]
  where
    stop : is_char_boundary bs (suc n) ≡ true → round_down bs (suc n) ≡ suc n
    stop here = rw here

module _ {c : Layout} (l : IsLayout c) where
  -- Truncating a string that shows a well-formed text to less than its length cuts at the last
  -- character boundary that is not above the new length, stores the bytes before it, zeroes those
  -- behind it, and leaves the text well formed.
  pub truncate_text :
      (s : PodString) (n : ℕ) {xs rest : List ℕ}
      → Shows c s xs rest
      → is_utf8 xs ≡ true
      → n < length xs
      → let b = round_down xs n in
        (b ≤ n)
        × ((j : ℕ) → b < j → j ≤ n → is_char_boundary xs j ≡ false)
        × (is_utf8 (take b xs) ≡ true)
        × Stores c (truncate c s n) (take b xs) (replicate (length xs - b) 0 ++ rest)
  unfolding truncate
  truncate_text s n {xs} {rest} v good h = (
    round_down-le xs n,
    round_down-greatest xs n,
    (is_utf8-cut xs b good below (round_down-boundary xs n)).0,
    rw (shorter, Views-take v) (encode_len-Stores l w v.width written sizes b (sym front)),
  )
    where
      b : ℕ
      b = round_down xs n

      below : b ≤ length xs
      below = omega (arith, round_down-le xs n)

      shorter : leb (Prefix.clamped_len c s.prefix) n ≡ false
      shorter = lt→leb _ _ (omega (arith, v.active))

      front : length (take b xs) ≡ b
      front = omega (arith, below, length-take b xs)

      back : length (drop b xs) ≡ length xs - b
      back = length-drop b xs

      w : PodString
      w = record s { slots = fill b (Prefix.clamped_len c s.prefix) 0 s.slots }

      parts : xs ++ rest ≡ take b xs ++ (drop b xs ++ rest)
      parts =
          ap (λ t. t ++ rest) (sym (take-append-drop b xs))
          ∙ append_assoc (take b xs) (drop b xs) rest

      top : Prefix.clamped_len c s.prefix ≡ length (take b xs) + length (drop b xs)
      top = omega (arith, v.active, front, back, below)

      written : w.slots ≡ take b xs ++ (replicate (length xs - b) 0 ++ rest)
      written =
          ap (λ m. fill b (Prefix.clamped_len c s.prefix) 0 m) (v.memory ∙ parts)
          ∙ ap (λ k. fill k (Prefix.clamped_len c s.prefix) 0 (take b xs ++ (drop b xs ++ rest)))
              (sym front)
          ∙ ap (λ k. fill (length (take b xs)) k 0 (take b xs ++ (drop b xs ++ rest))) top
          ∙ fill-append (take b xs) (drop b xs) rest 0
          ∙ ap (λ k. take b xs ++ (replicate k 0 ++ rest)) back

      sizes : length (take b xs) + length (replicate (length xs - b) 0 ++ rest) ≡ c.n
      sizes = omega (
        arith,
        v.total,
        front,
        below,
        length-append (replicate (length xs - b) 0) rest,
        length-replicate {A = ℕ} (length xs - b) 0,
      )

  -- `truncate` to no less than the length changes nothing.
  pub truncate_noop :
      (s : PodString) (n : ℕ) {xs rest : List ℕ}
      → Shows c s xs rest
      → length xs ≤ n
      → truncate c s n ≡ s
  unfolding truncate
  truncate_noop s n v h =
      let longer : leb (Prefix.clamped_len c s.prefix) n ≡ true =
        le→leb _ _ (omega (arith, v.active)) in
      rw longer
