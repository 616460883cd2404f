-- ===== src/Pod/Vec/Refine/Steps.antt =====
-- Single calls against the specification of Pod/Vec/Spec (pinapod/src/pod/vec.rs).
use pinapod.Base.{ℕ, suc, ◌+◌, ◌-◌, ◌≤◌, ◌≡◌, refl, ap, ◌∙◌, arith, ltb, leb}
use pinapod.Base.{List, ◌++◌, drop-replicate}
use pinapod.Base.{Bool-cases, inl, inr}
use pinapod.Base.{length, length-replicate, replicate, replicate-add}
use pinapod.Elem.{ZcElem}
use pinapod.Pod.Prefix.{Layout, IsLayout}
use pinapod.Pod.Prefix.Views.{Holds-Views}
use pinapod.Pod.Vec.{PodVec}
use pinapod.Pod.Vec.State.{Shows, Stores}
use pinapod.Pod.Vec.Writes.{try_push_lem, try_push_full, try_extend_from_slice_lem}
use pinapod.Pod.Vec.Writes.{try_extend_from_slice-overflow}
use pinapod.Pod.Vec.Setters.{try_set_from_slice_lem, try_set_from_slice-overflow}
use pinapod.Pod.Vec.Spec.{Op, push, set_all, extend}
use pinapod.Pod.Vec.Spec.{done, spec}
use pinapod.Pod.Vec.Refine.{Canonical, step}

module _ {T : Type 0} ⦃z : ZcElem T⦄ where
  abbrev pub Refines : (d : Layout) → PodVec T → List T → Op T → Type 0
  Refines d v xs op =
      ((step d v op).1 ≡ (spec d.n xs op).1) × Canonical d (step d v op).0 (spec d.n xs op).0

module _ {T : Type 0} ⦃z : ZcElem T⦄ {c : Layout} where
  -- Zeros of any number behind the elements are the right number.
  pub Canonical-of :
      {v : PodVec T} {xs rest : List T} (k : ℕ)
      → Stores c v xs rest
      → rest ≡ replicate k z.zeroed
      → Canonical c v xs
  Canonical-of {xs = xs} {rest = rest} k s e =
      let count : k ≡ c.n - length xs =
        omega (arith, s.total, ap length e, length-replicate k z.zeroed) in
      rw (← ap (λ m. replicate m z.zeroed) count, ← e) s

  pub Canonical-room :
      {v : PodVec T} {xs : List T} (k : ℕ)
      → Canonical c v xs
      → c.n - length xs ≡ k
      → Shows c v xs (replicate k z.zeroed)
  Canonical-room k s e = rw e at (Holds-Views s)

module _ {T : Type 0} ⦃z : ZcElem T⦄ {c : Layout} (l : IsLayout c) {v : PodVec T} {xs : List T}
    (s : Canonical c v xs) where
  Canonical-total : length xs ≤ c.n
  Canonical-total = omega (arith, s.total)

  pub step-push : (x : T) → Refines c v xs (push x)
  unfolding step spec
  step-push x = elim (Bool-cases (leb c.n (length xs))) [
    | inl full ↦
        let shown = Canonical-room 0 s (ground arith) in
        rw (full, try_push_full l (λ (t : T). t) v x shown) (refl, s)
    | inr free ↦
        let shown = Canonical-room (suc (c.n - length xs - 1)) s (ground (arith, s.total)) in
        let (good, kept) = try_push_lem l (λ (t : T). t) v x shown in
        rw free (ap done good, Canonical-of (c.n - length xs - 1) kept refl)
  ]

  pub step-set_all : (ys : List T) → Refines c v xs (set_all ys)
  unfolding step spec
  step-set_all ys = elim (Bool-cases (ltb c.n (length ys))) [
    | inl over ↦ rw (over, try_set_from_slice-overflow l v ys (ground arith)) (refl, s)
    | inr fits ↦
        let (good, kept) = try_set_from_slice_lem l v ys (Holds-Views s) (ground arith) in
        rw fits (
          ap done good,
          Canonical-of (length xs - length ys + (c.n - length xs - (length ys - length xs))) kept (
              ap (λ t. replicate (length xs - length ys) z.zeroed ++ t)
                (drop-replicate (length ys - length xs) (c.n - length xs) z.zeroed)
              ∙ replicate-add (length xs - length ys) _ z.zeroed),
        )
  ]

  pub step-extend : (ys : List T) → Refines c v xs (extend ys)
  unfolding step spec
  step-extend ys = elim (Bool-cases (ltb c.n (length xs + length ys))) [
    | inl over ↦
        rw
          (
            over,
            try_extend_from_slice-overflow l v ys (Holds-Views s)
                (rw (length-replicate (c.n - length xs) z.zeroed) (ground (arith, s.total))),
          )
          (refl, s)
    | inr fits ↦
        let (good, kept) =
          try_extend_from_slice_lem l v ys (Holds-Views s)
            (rw (length-replicate (c.n - length xs) z.zeroed) (ground arith)) in
        rw fits (
          ap done good,
          Canonical-of (c.n - length xs - length ys) kept
              (drop-replicate (length ys) (c.n - length xs) z.zeroed),
        )
  ]
