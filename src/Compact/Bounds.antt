-- ===== src/Compact/Bounds.antt =====
-- The unchecked sums and products of the generated code, and the ends of the tails.
use pinapod.Base.{ℕ, ◌+◌, ◌*◌, ◌≤◌, ◌≡◌, refl, arith, ◌⊎◌, inl, inr}
use pinapod.Base.{
  none, some, false, not, List, ltb, leb, ◌==◌, if◌then◌else◌, length, get_or, Bool-cases,
}
use native.Mathlib.Nat.{mod-eq_of_lt}
use pinapod.Error.{
  buffer_too_small, invalid_length, invalid_tag, ok, err, ensure, Returns, Returns->>=,
}
use pinapod.Compact.Support.{ok_or, get_range, decode_prefix, checked_add, checked_mul}
use pinapod.Compact.{
  TailPresence, always, option_tag, TailPayload, string, vector, Tail, field_bytes,
}
use pinapod.Compact.{bounded_tail_end, bounded_byte_len, bounded_read_prefix}
use pinapod.Compact.Walks.{Segment, always_bounds, some_bounds, bounds}

module _ (um : ℕ) where
  pub bounded_tail_end_lem :
      (pfx offset len : ℕ)
      → (pfx ≤ 2 → offset + len ≤ um)
      → bounded_tail_end um pfx offset len ≡ checked_add um offset len
  unfolding bounded_tail_end checked_add
  bounded_tail_end_lem pfx offset len h = elim (Bool-cases (leb pfx 2)) [
    | inr wide ↦ rw wide refl
    | inl short ↦
        let small : offset + len ≤ um = h (ground (arith, short)) in
        let room : ltb um (offset + len) ≡ false = ground (arith, small) in
        rw (short, room, mod-eq_of_lt {n = offset + len} {m = um + 1} (omega (arith, small))) refl
  ]

  pub bounded_byte_len_lem :
      (pfx count size : ℕ)
      → (pfx ≤ 2 → count * size ≤ um)
      → bounded_byte_len um pfx count size ≡ checked_mul um count size
  unfolding bounded_byte_len checked_mul
  bounded_byte_len_lem pfx count size h = elim (Bool-cases (leb pfx 2)) [
    | inr wide ↦ rw wide refl
    | inl short ↦
        let small : count * size ≤ um = h (ground (arith, short)) in
        let room : ltb um (count * size) ≡ false = ground (arith, small) in
        rw (short, room, mod-eq_of_lt {n = count * size} {m = um + 1} (omega (arith, small))) refl
  ]

pub get_range-within :
    (bytes : List ℕ) (lo hi : ℕ) (x : List ℕ) → get_range bytes lo hi ≡ some x → hi ≤ length bytes
get_range-within bytes lo hi x e = ground arith

pub ok_or-within :
    (bytes : List ℕ) (lo hi : ℕ) (x : List ℕ)
    → ok_or (get_range bytes lo hi) buffer_too_small ≡ ok x
    → hi ≤ length bytes
ok_or-within bytes lo hi x e = ground arith

pub presence-cases : (p : TailPresence) → (p ≡ always) ⊎ (p ≡ option_tag)
presence-cases always = inl refl
presence-cases option_tag = inr refl

-- The end of a tail.
abbrev pub Within : List ℕ → Segment × ℕ → Type 0
Within bytes r = r.1 ≤ length bytes

module _ (um : ℕ) (bytes : List ℕ) where
  always-Within :
      (p : TailPayload) (at offset : ℕ)
      → Returns (Within bytes) (always_bounds um bytes p at offset)
  unfolding always_bounds
  always-Within (string max pfx) at offset =
      Returns->>= (Within bytes) (decode_prefix um (field_bytes bytes at pfx)) _ λ len _.
        Returns->>= (Within bytes) (ensure (leb len max) invalid_length) _ λ _ _.
          Returns->>= (Within bytes) (bounded_tail_end um pfx offset len) _ λ end _.
            Returns->>= (Within bytes) (ok_or (get_range bytes offset end) buffer_too_small) _
              λ x e. ok_or-within bytes offset end x e
  always-Within (vector elem max pfx) at offset =
      Returns->>= (Within bytes) (decode_prefix um (field_bytes bytes at pfx)) _ λ len _.
        Returns->>= (Within bytes) (ensure (leb len max) invalid_length) _ λ _ _.
          Returns->>= (Within bytes) (ensure (not (elem.size == 0)) invalid_length) _ λ _ _.
            Returns->>= (Within bytes) (bounded_byte_len um pfx len elem.size) _ λ byte_len _.
              Returns->>= (Within bytes) (bounded_tail_end um pfx offset byte_len) _ λ end _.
                Returns->>= (Within bytes) (ok_or (get_range bytes offset end) buffer_too_small) _
                  λ x e. ok_or-within bytes offset end x e

  some-Within :
      (p : TailPayload) (offset : ℕ) → Returns (Within bytes) (some_bounds um bytes p offset)
  unfolding some_bounds
  some-Within (string max pfx) offset =
      Returns->>= (Within bytes) (bounded_read_prefix um bytes offset pfx) _ λ len _.
        Returns->>= (Within bytes) (ensure (leb len max) invalid_length) _ λ _ _.
          Returns->>= (Within bytes) (bounded_tail_end um pfx offset pfx) _ λ start _.
            Returns->>= (Within bytes) (bounded_tail_end um pfx start len) _ λ end _.
              Returns->>= (Within bytes) (ok_or (get_range bytes start end) buffer_too_small) _
                λ x e. ok_or-within bytes start end x e
  some-Within (vector elem max pfx) offset =
      Returns->>= (Within bytes) (bounded_read_prefix um bytes offset pfx) _ λ len _.
        Returns->>= (Within bytes) (ensure (leb len max) invalid_length) _ λ _ _.
          Returns->>= (Within bytes) (ensure (not (elem.size == 0)) invalid_length) _ λ _ _.
            Returns->>= (Within bytes) (bounded_tail_end um pfx offset pfx) _ λ start _.
              Returns->>= (Within bytes) (bounded_byte_len um pfx len elem.size) _ λ byte_len _.
                Returns->>= (Within bytes) (bounded_tail_end um pfx start byte_len) _ λ end _.
                  Returns->>= (Within bytes) (ok_or (get_range bytes start end) buffer_too_small) _
                    λ x e. ok_or-within bytes start end x e

  pub bounds-Within :
      (t : Tail) (at offset : ℕ)
      → offset ≤ length bytes
      → Returns (Within bytes) (bounds um bytes t at offset)
  unfolding bounds
  bounds-Within t at offset h = elim (presence-cases t.presence) [
    | inl e ↦ rw e (always-Within t.payload at offset)
    | inr e ↦ rw e (by_tag (get_or bytes at 0))
  ]
    where
      by_tag :
          (tag : ℕ)
          → Returns (Within bytes) (
              if tag == 0
              then ok (none, offset)
              else if tag == 1
              then some_bounds um bytes t.payload offset
              else err invalid_tag)
      by_tag tag = elim (Bool-cases (tag == 0)) [
        | inl absent ↦ rw absent h
        | inr other ↦ elim (Bool-cases (tag == 1)) [
          | inl present ↦ rw (other, present) (some-Within t.payload offset)
          | inr wrong ↦ rw (other, wrong) tt
        ]
      ]
