-- ===== src/Pod/Int/Arith.antt =====
-- The three families of operations of the unsigned pods, against the numbers and each other.
use pinapod.Base.{ℕ, zero, suc, ◌+◌, ◌-◌, ◌*◌, ◌/◌, ◌%◌, ◌≤◌, ◌<◌, ◌≡◌, refl, ap, ◌∙◌, sym, arith}
use pinapod.Base.{none, some, ◌⊎◌, inl, inr, ltb, ltb→lt, Bool-cases, ◌==◌}
use native.Mathlib.Nat.{
  mod-lt, mod-eq_of_lt, mod-eq-sub-mod, add-mod_right, mod-add-mod, pow-suc, div-add-mod,
  div-le_self,
}
use pinapod.Pod.Int.{PodInt, max_value, min_value, get, set, from, from_option}
use pinapod.Pod.Int.{checked_add, checked_sub, checked_mul, checked_div, wrapping_add, wrapping_sub}
use pinapod.Pod.Int.{wrapping_mul, saturating_add, saturating_sub, saturating_mul}
use pinapod.Pod.Int.Unsigned.{modulus, unsigned}
use pinapod.Pod.Int.Laws.{IsPodInt, get-lt, get-set_number, from-get}

-- Arithmetic below a modulus.
wrap_back : (a b m : ℕ) → a < m → b < m → ((a + b) % m + m - b) % m ≡ a
wrap_back a b m ha hb =
    let e : (a + b) % m + m - b ≡ (a + b) % m + (m - b) = omega arith in
    let f : a + b + (m - b) ≡ a + m = omega arith in
    ap (λ t. t % m) e
    ∙ mod-add-mod (a + b) m (m - b)
    ∙ ap (λ t. t % m) f
    ∙ add-mod_right a m
    ∙ mod-eq_of_lt ha

wrapped_once : (s m : ℕ) → m ≤ s → s < m + m → s % m ≡ s - m
wrapped_once s m h t = mod-eq-sub-mod h ∙ mod-eq_of_lt (omega arith)

modulus-pos : (k : ℕ) → 0 < modulus k
modulus-pos zero = omega arith
modulus-pos (suc k) = rw pow-suc (omega (arith, modulus-pos k))

module _ (k : ℕ) where
  wrap-lt : (n : ℕ) → n % modulus k < modulus k
  wrap-lt n = mod-lt n (modulus-pos k)

  -- For two unsigned pods of the same width: if the sum is in range, `checked_add`,
  -- `saturating_add` and `wrapping_add` all give it; otherwise `checked_add` is `None`,
  -- `saturating_add` the largest value, and `wrapping_add` one modulus below the sum.
  pub add_lem :
      (p q : PodInt)
      → IsPodInt k p
      → IsPodInt k q
      → let u = unsigned k in
        let sum = get u p + get u q in
        ((sum < modulus k)
          × (checked_add u p q ≡ some (wrapping_add u p q))
          × (saturating_add u p q ≡ wrapping_add u p q)
          × (get u (wrapping_add u p q) ≡ sum))
        ⊎ ((modulus k ≤ sum)
            × (checked_add u p q ≡ none)
            × (saturating_add u p q ≡ max_value u)
            × (get u (wrapping_add u p q) + modulus k ≡ sum))
  unfolding checked_add from_option saturating_add wrapping_add max_value unsigned
  add_lem p q hp hq =
      elim (Bool-cases (ltb (get (unsigned k) p + get (unsigned k) q) (modulus k))) [
        | inl small ↦ inl (
            let s = ltb→lt _ _ small in
            let e = mod-eq_of_lt s in
            (
              s,
              rw small (ap (λ t. some (from (unsigned k) t)) (sym e)),
              ap (from (unsigned k)) (omega (arith, e, s)),
              (get-set_number k p _ (wrap-lt _)).1 ∙ e,
            ))
        | inr large ↦ inr (
            let s : modulus k ≤ get (unsigned k) p + get (unsigned k) q = ground (arith, large) in
            let e =
              wrapped_once (get (unsigned k) p + get (unsigned k) q) (modulus k) s
                (omega (arith, get-lt k p hp, get-lt k q hq)) in
            (
              s,
              rw large refl,
              ap (from (unsigned k)) (omega (arith, s)),
              omega (
                arith,
                (get-set_number k p _ (wrap-lt (get (unsigned k) p + get (unsigned k) q))).1,
                e,
                s,
              ),
            ))
      ]

  -- For two unsigned pods of the same width: if the difference is not negative, `checked_sub`,
  -- `saturating_sub` and `wrapping_sub` all give it; otherwise `checked_sub` is `None`,
  -- `saturating_sub` the smallest value, and `wrapping_sub` one modulus above the difference.
  pub sub_lem :
      (p q : PodInt)
      → IsPodInt k p
      → IsPodInt k q
      → let u = unsigned k in
        ((get u q ≤ get u p)
          × (checked_sub u p q ≡ some (wrapping_sub u p q))
          × (saturating_sub u p q ≡ wrapping_sub u p q)
          × (get u (wrapping_sub u p q) + get u q ≡ get u p))
        ⊎ ((get u p < get u q)
            × (checked_sub u p q ≡ none)
            × (saturating_sub u p q ≡ min_value u)
            × (get u (wrapping_sub u p q) + get u q ≡ get u p + modulus k))
  unfolding checked_sub from_option saturating_sub wrapping_sub min_value unsigned
  sub_lem p q hp hq = elim (Bool-cases (ltb (get (unsigned k) p) (get (unsigned k) q))) [
    | inr fits ↦ inl (
        let s : get (unsigned k) q ≤ get (unsigned k) p = ground (arith, fits) in
        let e : (get (unsigned k) p + modulus k - get (unsigned k) q) % modulus k
            ≡ get (unsigned k) p - get (unsigned k) q =
          wrapped_once _ _ (omega (arith, s)) (omega (arith, s, get-lt k p hp))
          ∙ (omega (arith, s)) in
        (
          s,
          rw fits (ap (λ t. some (from (unsigned k) t)) (sym e)),
          ap (from (unsigned k)) (sym e),
          omega (
            arith,
            (get-set_number k p _
                (wrap-lt (get (unsigned k) p + modulus k - get (unsigned k) q))).1,
            e,
            s,
          ),
        ))
    | inl below ↦ inr (
        let s = ltb→lt _ _ below in
        let e : (get (unsigned k) p + modulus k - get (unsigned k) q) % modulus k
            ≡ get (unsigned k) p + modulus k - get (unsigned k) q =
          mod-eq_of_lt (omega (arith, s, get-lt k q hq)) in
        (
          s,
          rw below refl,
          ap (from (unsigned k)) (omega (arith, s)),
          omega (
            arith,
            (get-set_number k p _
                (wrap-lt (get (unsigned k) p + modulus k - get (unsigned k) q))).1,
            e,
            s,
            get-lt k q hq,
          ),
        ))
  ]

  -- For two unsigned pods: if the product is in range, `checked_mul`, `saturating_mul` and
  -- `wrapping_mul` all give it; otherwise `checked_mul` is `None`, `saturating_mul` the largest
  -- value, and `wrapping_mul` the remainder of the product.
  pub mul_lem :
      (p q : PodInt)
      → let u = unsigned k in
        let product = get u p * get u q in
        ((product < modulus k)
          × (checked_mul u p q ≡ some (wrapping_mul u p q))
          × (saturating_mul u p q ≡ wrapping_mul u p q)
          × (get u (wrapping_mul u p q) ≡ product))
        ⊎ ((modulus k ≤ product)
            × (checked_mul u p q ≡ none)
            × (saturating_mul u p q ≡ max_value u)
            × (get u (wrapping_mul u p q) ≡ product % modulus k))
  unfolding checked_mul from_option saturating_mul wrapping_mul max_value unsigned
  mul_lem p q = elim (Bool-cases (ltb (get (unsigned k) p * get (unsigned k) q) (modulus k))) [
    | inl small ↦ inl (
        let s = ltb→lt _ _ small in
        let e = mod-eq_of_lt s in
        (
          s,
          rw small (ap (λ t. some (from (unsigned k) t)) (sym e)),
          ap (from (unsigned k)) (omega (arith, e, s)),
          (get-set_number k p _ (wrap-lt _)).1 ∙ e,
        ))
    | inr large ↦ inr (
        let s : modulus k ≤ get (unsigned k) p * get (unsigned k) q = ground (arith, large) in
        (
          s,
          rw large refl,
          ap (from (unsigned k)) (omega (arith, s)),
          (get-set_number k p _ (wrap-lt (get (unsigned k) p * get (unsigned k) q))).1,
        ))
  ]

  -- For two unsigned pods, the first of the right width, `checked_div` is `None` for the divisor
  -- 0, and otherwise a pod of that width with the quotient rounded down.
  pub div_lem :
      (p q : PodInt)
      → IsPodInt k p
      → let u = unsigned k in
        ((get u q ≡ 0) × (checked_div u p q ≡ none))
        ⊎ ((0 < get u q)
            × ((r : PodInt) × (checked_div u p q ≡ some r)
                × IsPodInt k r
                × (get u q * get u r ≤ get u p)
                × (get u p < get u q * get u r + get u q)))
  unfolding checked_div from_option unsigned set
  div_lem p q hp = elim (Bool-cases (get (unsigned k) q == 0)) [
    | inl nought ↦ inl (ground (arith, nought), rw nought refl)
    | inr some_divisor ↦ inr (
        let s : 0 < get (unsigned k) q = ground (arith, some_divisor) in
        let (_, read, fits) =
          get-set_number k p (get (unsigned k) p / get (unsigned k) q)
            (omega (arith, get-lt k p hp, div-le_self (get (unsigned k) p) (get (unsigned k) q))) in
        (
          s,
          (
            from (unsigned k) (get (unsigned k) p / get (unsigned k) q),
            rw some_divisor refl,
            fits,
            rw read (omega (arith, div-add-mod (get (unsigned k) p) (get (unsigned k) q))),
            rw read (
                omega (
                  arith,
                  div-add-mod (get (unsigned k) p) (get (unsigned k) q),
                  mod-lt (get (unsigned k) p) s,
                )),
          ),
        ))
  ]

  -- For two unsigned pods of the same width, modular subtraction undoes modular addition, byte
  -- for byte.
  pub wrapping_sub-wrapping_add :
      (p q : PodInt)
      → IsPodInt k p
      → IsPodInt k q
      → wrapping_sub (unsigned k) (wrapping_add (unsigned k) p q) q ≡ p
  unfolding wrapping_sub wrapping_add unsigned
  wrapping_sub-wrapping_add p q hp hq =
      ap (λ t. from (unsigned k) ((t + modulus k - get (unsigned k) q) % modulus k))
        (get-set_number k p _ (wrap-lt (get (unsigned k) p + get (unsigned k) q))).1
      ∙ ap (from (unsigned k)) (wrap_back _ _ _ (get-lt k p hp) (get-lt k q hq))
      ∙ from-get k p hp
