-- ===== src/Compact/Relocation.antt =====
-- The moves of a commit: where the bytes of each unedited tail stand after each phase.
use pinapod.Base.{
  ℕ, ◌+◌, ◌≤◌, ◌≡◌, refl, ap, ◌∙◌, arith, min, ◌⊎◌, inl, inr, true, ◌&&◌, List, [], ◌∷◌, ltb,
  length, All, Bool-cases,
}
use pinapod.Base.{All-map, All-map₂}
use pinapod.Base.Memory.{length-copy_at}
use pinapod.Base.Slices.{slice, length-slice, slice-copy_at, slice-copy_apart}
use pinapod.Compact.Edits.{is_none}
use pinapod.Compact.Commit.Plan.{Move}
use pinapod.Compact.Commit.Moves.{copy_tail, move_down, move_up, phase_1a, phase_1b}

-- The tails of a plan stand one behind the other, before and after, and an unedited one keeps its
-- length.
abbrev pub Chain : ℕ → ℕ → List Move → Type 0
Chain o n [] = Unit
Chain o n (m ∷ ms) =
    (m.old_off ≡ o)
    × (m.new_off ≡ n)
    × (is_none m.edit ≡ true → m.new_len ≡ m.old_len)
    × Chain (o + m.old_len) (n + m.new_len) ms

abbrev pub Inside : ℕ → Move → Type 0
Inside size m = (m.old_off + m.old_len ≤ size) × (m.new_off + m.new_len ≤ size)

-- Where an unedited tail stands between the phases.
abbrev pub place : Move → ℕ
place m = min m.old_off m.new_off

module _ (m : Move) (bytes : List ℕ) where
  pub length-move_down : length (move_down m bytes) ≡ length bytes
  unfolding move_down copy_tail
  length-move_down =
      elim (Bool-cases (is_none m.edit && ltb m.new_off m.old_off && ltb 0 m.old_len)) [
        | inl e ↦ rw e (length-copy_at m.new_off _ bytes)
        | inr e ↦ rw e refl
      ]

  pub length-move_up : length (move_up m bytes) ≡ length bytes
  unfolding move_up copy_tail
  length-move_up =
      elim (Bool-cases (is_none m.edit && ltb m.old_off m.new_off && ltb 0 m.old_len)) [
        | inl e ↦ rw e (length-copy_at m.new_off _ bytes)
        | inr e ↦ rw e refl
      ]

  module _ (inside : m.old_off + m.old_len ≤ length bytes) where
    moved : length (slice m.old_off m.old_len bytes) ≡ m.old_len
    moved = length-slice m.old_off m.old_len bytes inside

    copy-apart :
        (at n : ℕ)
        → (at + n ≤ m.new_off) ⊎ (m.new_off + m.old_len ≤ at)
        → slice at n (copy_tail m bytes) ≡ slice at n bytes
    unfolding copy_tail
    copy-apart at n h =
        slice-copy_apart at n m.new_off (slice m.old_off m.old_len bytes) bytes
          (elim h [ inl behind ↦ inl behind | inr before ↦ inr (omega (arith, moved, before)) ])

    copy-lands :
        m.new_off + m.old_len ≤ length bytes
        → slice m.new_off m.old_len (copy_tail m bytes) ≡ slice m.old_off m.old_len bytes
    unfolding copy_tail
    copy-lands room =
        ap (λ k. slice m.new_off k (copy_tail m bytes)) (omega (arith, moved))
        ∙ slice-copy_at m.new_off (slice m.old_off m.old_len bytes) bytes
            (omega (arith, moved, room))

    pub down-apart :
        (at n : ℕ)
        → (at + n ≤ m.new_off) ⊎ (m.old_off + m.old_len ≤ at)
        → slice at n (move_down m bytes) ≡ slice at n bytes
    unfolding move_down
    down-apart at n h =
        elim (Bool-cases (is_none m.edit && ltb m.new_off m.old_off && ltb 0 m.old_len)) [
          | inl e ↦ rw e (
              copy-apart at n
                (elim h [ inl behind ↦ inl behind | inr before ↦ inr (ground (arith, before, e)) ]))
          | inr e ↦ rw e refl
        ]

    pub up-apart :
        (at n : ℕ)
        → (at + n ≤ m.new_off) ⊎ (m.new_off + m.old_len ≤ at)
        → slice at n (move_up m bytes) ≡ slice at n bytes
    unfolding move_up
    up-apart at n h =
        elim (Bool-cases (is_none m.edit && ltb m.old_off m.new_off && ltb 0 m.old_len)) [
          | inl e ↦ rw e (copy-apart at n h)
          | inr e ↦ rw e refl
        ]

    module _ (room : m.new_off + m.old_len ≤ length bytes) (stays : is_none m.edit ≡ true) where
      pub down-lands :
          slice (place m) m.old_len (move_down m bytes) ≡ slice m.old_off m.old_len bytes
      unfolding move_down
      down-lands = elim (Bool-cases (ltb m.new_off m.old_off)) [
        | inr e ↦
            let same : place m ≡ m.old_off = ground (arith, e) in
            rw (stays, e) (ap (λ k. slice k m.old_len bytes) same)
        | inl e ↦ elim (Bool-cases (ltb 0 m.old_len)) [
          | inl some ↦
              let same : place m ≡ m.new_off = ground (arith, e) in
              rw (stays, e, some)
                (ap (λ k. slice k m.old_len (copy_tail m bytes)) same ∙ copy-lands room)
          | inr nothing ↦
              let empty : m.old_len ≡ 0 = ground (arith, nothing) in
              rw (stays, e, nothing, empty) refl
        ]
      ]

      -- What stands at the place of the tail before the last phase stands at its new offset behind.
      pub up-lands : slice m.new_off m.old_len (move_up m bytes) ≡ slice (place m) m.old_len bytes
      unfolding move_up
      up-lands = elim (Bool-cases (ltb m.old_off m.new_off)) [
        | inr e ↦
            let same : m.new_off ≡ place m = ground (arith, e) in
            rw (stays, e) (ap (λ k. slice k m.old_len bytes) same)
        | inl e ↦ elim (Bool-cases (ltb 0 m.old_len)) [
          | inl some ↦
              let same : m.old_off ≡ place m = ground (arith, e) in
              rw (stays, e, some) (copy-lands room ∙ ap (λ k. slice k m.old_len bytes) same)
          | inr nothing ↦
              let empty : m.old_len ≡ 0 = ground (arith, nothing) in
              rw (stays, e, nothing, empty) refl
        ]
      ]

-- The places behind the start of a chain.
pub Chain-from :
    (o n : ℕ) (ms : List Move) → Chain o n ms → All (λ m. (o ≤ m.old_off) × (n ≤ m.new_off)) ms
Chain-from o n [] h = tt
Chain-from o n (m ∷ ms) (old, new, keeps, rest) = (
  (omega (arith, old), omega (arith, new)),
  All-map (λ m b. (omega (arith, b.0), omega (arith, b.1))) ms
      (Chain-from (o + m.old_len) (n + m.new_len) ms rest),
)

-- What each phase leaves below the chain's new start.
module _ (size : ℕ) where
  pub phase_1a-below :
      (o n : ℕ) (ms : List Move) (at len : ℕ) (bytes : List ℕ)
      → Chain o n ms
      → All (Inside size) ms
      → length bytes ≡ size
      → at + len ≤ n
      → slice at len (phase_1a ms bytes) ≡ slice at len bytes
  unfolding phase_1a
  phase_1a-below o n [] at len bytes h inside e below = refl
  phase_1a-below o n (m ∷ ms) at len bytes (old, new, keeps, rest) inside e below =
      phase_1a-below (o + m.old_len) (n + m.new_len) ms at len (move_down m bytes) rest inside.1
        (length-move_down m bytes ∙ e) (omega (arith, below))
      ∙ down-apart m bytes (omega (arith, inside.0.0, e)) at len (inl (omega (arith, new, below)))

  pub length-phase_1a :
      (ms : List Move) (bytes : List ℕ) → length (phase_1a ms bytes) ≡ length bytes
  unfolding phase_1a
  length-phase_1a [] bytes = refl
  length-phase_1a (m ∷ ms) bytes = length-phase_1a ms (move_down m bytes) ∙ length-move_down m bytes

  pub length-phase_1b :
      (ms : List Move) (bytes : List ℕ) → length (phase_1b ms bytes) ≡ length bytes
  unfolding phase_1b
  length-phase_1b [] bytes = refl
  length-phase_1b (m ∷ ms) bytes = length-move_up m (phase_1b ms bytes) ∙ length-phase_1b ms bytes

  phase_1b-below :
      (o n : ℕ) (ms : List Move) (at len : ℕ) (bytes : List ℕ)
      → Chain o n ms
      → All (Inside size) ms
      → length bytes ≡ size
      → at + len ≤ n
      → slice at len (phase_1b ms bytes) ≡ slice at len bytes
  unfolding phase_1b
  phase_1b-below o n [] at len bytes h inside e below = refl
  phase_1b-below o n (m ∷ ms) at len bytes (old, new, keeps, rest) inside e below =
      up-apart m (phase_1b ms bytes) (omega (arith, inside.0.0, e, length-phase_1b ms bytes)) at len
        (inl (omega (arith, new, below)))
      ∙ phase_1b-below (o + m.old_len) (n + m.new_len) ms at len bytes rest inside.1 e
          (omega (arith, below))

  -- After the first phase each unedited tail stands at the lower of its two places.
  phase_1a-lands :
      (o n : ℕ) (ms : List Move) (bytes : List ℕ)
      → Chain o n ms
      → All (Inside size) ms
      → length bytes ≡ size
      → All
          (λ m.
            is_none m.edit ≡ true
            → slice (place m) m.old_len (phase_1a ms bytes) ≡ slice m.old_off m.old_len bytes)
          ms
  unfolding phase_1a
  phase_1a-lands o n [] bytes h inside e = tt
  phase_1a-lands o n (m ∷ ms) bytes (old, new, keeps, rest) inside e = (
    λ stays.
        phase_1a-below (o + m.old_len) (n + m.new_len) ms (place m) m.old_len (move_down m bytes)
          rest inside.1 (length-move_down m bytes ∙ e) (omega (arith, new, keeps stays))
        ∙ down-lands m bytes within (omega (arith, inside.0.1, e, keeps stays)) stays,
    All-map₂
        (λ m' from lands stays.
          lands stays
          ∙ down-apart m bytes within m'.old_off m'.old_len (inr (omega (arith, from.0, old))))
        ms (Chain-from (o + m.old_len) (n + m.new_len) ms rest)
        (phase_1a-lands (o + m.old_len) (n + m.new_len) ms (move_down m bytes) rest inside.1
          (length-move_down m bytes ∙ e)),
  )
    where
      within : m.old_off + m.old_len ≤ length bytes
      within = omega (arith, inside.0.0, e)

  -- The last move keeps what stands behind its new place.
  up-behind :
      (m : Move) (bytes : List ℕ) (at len : ℕ)
      → (is_none m.edit ≡ true → m.new_len ≡ m.old_len)
      → m.old_off + m.old_len ≤ length bytes
      → m.new_off + m.new_len ≤ at
      → slice at len (move_up m bytes) ≡ slice at len bytes
  up-behind m bytes at len keeps within behind = elim (Bool-cases (is_none m.edit)) [
    | inl stays ↦ up-apart m bytes within at len (inr (omega (arith, behind, keeps stays)))
    | inr edited ↦ unfold move_up in rw edited refl
  ]

  phase_1b-lands :
      (o n : ℕ) (ms : List Move) (bytes : List ℕ)
      → Chain o n ms
      → All (Inside size) ms
      → length bytes ≡ size
      → All
          (λ m.
            is_none m.edit ≡ true
            → slice m.new_off m.old_len (phase_1b ms bytes) ≡ slice (place m) m.old_len bytes)
          ms
  unfolding phase_1b
  phase_1b-lands o n [] bytes h inside e = tt
  phase_1b-lands o n (m ∷ ms) bytes (old, new, keeps, rest) inside e = (
    λ stays.
        up-lands m (phase_1b ms bytes) within (omega (arith, inside.0.1, sized, keeps stays)) stays
        ∙ phase_1b-below (o + m.old_len) (n + m.new_len) ms (place m) m.old_len bytes rest inside.1
            e (omega (arith, new, keeps stays)),
    All-map₂
        (λ m' from lands stays.
          up-behind m (phase_1b ms bytes) m'.new_off m'.old_len keeps within
            (omega (arith, from.1, new))
          ∙ lands stays)
        ms (Chain-from (o + m.old_len) (n + m.new_len) ms rest)
        (phase_1b-lands (o + m.old_len) (n + m.new_len) ms bytes rest inside.1 e),
  )
    where
      sized : length (phase_1b ms bytes) ≡ size
      sized = length-phase_1b ms bytes ∙ e

      within : m.old_off + m.old_len ≤ length (phase_1b ms bytes)
      within = omega (arith, inside.0.0, sized)

-- For tails that stand one behind the other from a common first offset, before and after, within
-- the buffer, where an unedited tail keeps its length: the moves of a commit, whichever tails
-- grow or shrink, keep the size of the buffer, bring the bytes of each unedited tail to its new
-- offset, and change nothing below the first new offset.
pub phases-lands :
    (o n : ℕ) (ms : List Move) (bytes : List ℕ)
    → Chain o n ms
    → All (Inside (length bytes)) ms
    → (length (phase_1b ms (phase_1a ms bytes)) ≡ length bytes)
      × All
          (λ m.
            is_none m.edit ≡ true
            → slice m.new_off m.old_len (phase_1b ms (phase_1a ms bytes))
              ≡ slice m.old_off m.old_len bytes)
          ms
      × ((at len : ℕ)
          → at + len ≤ n
          → slice at len (phase_1b ms (phase_1a ms bytes)) ≡ slice at len bytes)
phases-lands o n ms bytes h inside = (
  length-phase_1b (length bytes) ms (phase_1a ms bytes) ∙ length-phase_1a (length bytes) ms bytes,
  All-map₂ (λ m up down stays. up stays ∙ down stays) ms
      (phase_1b-lands (length bytes) o n ms (phase_1a ms bytes) h inside
        (length-phase_1a (length bytes) ms bytes))
      (phase_1a-lands (length bytes) o n ms bytes h inside refl),
  λ at len below.
      phase_1b-below (length bytes) o n ms at len (phase_1a ms bytes) h inside
        (length-phase_1a (length bytes) ms bytes) below
      ∙ phase_1a-below (length bytes) o n ms at len bytes h inside refl below,
)
