-- ===== src/Pod/Int/Laws.antt =====
-- The unsigned pods: what they store, and how the three families of operations relate.
use pinapod.Base.{ℕ, zero, suc, ◌<◌, ◌≡◌, ap, ◌∙◌, sym, arith, ◌↔◌}
use pinapod.Base.{Option, none, some, length, true, All}
use pinapod.Base.{replicate, length-replicate}
use pinapod.Base.Bytes.{IsByte, to_le_bytes, from_le_bytes, length-to_le_bytes, to_le_bytes-IsByte}
use pinapod.Base.Bytes.{from_le_bytes-to_le_bytes, to_le_bytes-from_le_bytes, from_le_bytes-lt}
use pinapod.Base.Bytes.{from_le_bytes-zeros}
use pinapod.Base.Bytes.{bytes_eq_refl, bytes_eq→eq}
use pinapod.Pod.Int.{PodInt, get, set, is_zero, from}
use pinapod.Pod.Int.{eq}
use pinapod.Pod.Int.Unsigned.{modulus, unsigned}

-- The values of the Rust type: an array of `k` bytes.
abbrev pub IsPodInt : ℕ → PodInt → Type 0
IsPodInt k p = (length p.bytes ≡ k) × All IsByte p.bytes

-- `unwrap_or`
abbrev pub or_else : Option PodInt → PodInt → PodInt
or_else (some p) q = p
or_else none q = q

module _ (k : ℕ) where
  pub get-lt : (p : PodInt) → IsPodInt k p → get (unsigned k) p < modulus k
  unfolding get unsigned
  get-lt p (w, b) = rw w at (from_le_bytes-lt p.bytes b)

  -- A number in range is read back from every pod that it is set in and from the pod made of it,
  -- and the pod set has the right width and byte values.
  pub get-set_number :
      (p : PodInt) (v : ℕ)
      → v < modulus k
      → (get (unsigned k) (set (unsigned k) p v) ≡ v)
        × (get (unsigned k) (from (unsigned k) v) ≡ v)
        × IsPodInt k (set (unsigned k) p v)
  unfolding get set from unsigned
  get-set_number p v h = (
    from_le_bytes-to_le_bytes k v h,
    from_le_bytes-to_le_bytes k v h,
    (length-to_le_bytes k v, to_le_bytes-IsByte k v),
  )

  -- Each unsigned pod of the right width is the one that the number read from it is stored as.
  pub from-get : (p : PodInt) → IsPodInt k p → from (unsigned k) (get (unsigned k) p) ≡ p
  unfolding get from unsigned
  from-get p (w, b) =
      ap (λ bs. record { bytes = bs })
        (ap (λ j. to_le_bytes j (from_le_bytes p.bytes)) (sym w)
          ∙ to_le_bytes-from_le_bytes p.bytes b)

  same_value :
      (p q : PodInt) → IsPodInt k p → IsPodInt k q → get (unsigned k) p ≡ get (unsigned k) q → p ≡ q
  same_value p q hp hq e = sym (from-get p hp) ∙ ap (from (unsigned k)) e ∙ from-get q hq

  -- For unsigned pods of the same width, equality of the bytes is equality of the numbers, and
  -- `is_zero` tests for the number 0.
  pub eq_iff_number :
      (p q : PodInt)
      → IsPodInt k p
      → IsPodInt k q
      → ((eq (unsigned k) p q ≡ true) ↔ (get (unsigned k) p ≡ get (unsigned k) q))
        × ((is_zero (unsigned k) p ≡ true) ↔ (get (unsigned k) p ≡ 0))
  unfolding eq is_zero get unsigned
  eq_iff_number p q hp hq = (
    (
      λ e. ap (λ bs. from_le_bytes bs) (bytes_eq→eq _ _ e),
      λ e. rw (ap PodInt.bytes (same_value p q hp hq e)) (bytes_eq_refl q.bytes),
    ),
    (
      λ e. ap (λ bs. from_le_bytes bs) (bytes_eq→eq _ _ e) ∙ from_le_bytes-zeros k,
      λ e.
          rw
            (ap PodInt.bytes (
              same_value p (record { bytes = replicate k 0 }) hp zeros
                (e ∙ sym (from_le_bytes-zeros k))))
            (bytes_eq_refl (replicate k 0)),
    ),
  )
    where
      bytes_zero : (j : ℕ) → All IsByte (replicate j 0)
      bytes_zero zero = tt
      bytes_zero (suc j) = (omega arith, bytes_zero j)

      zeros : IsPodInt k (record { bytes = replicate k 0 })
      zeros = (length-replicate k 0, bytes_zero k)
