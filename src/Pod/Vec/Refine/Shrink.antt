-- ===== src/Pod/Vec/Refine/Shrink.antt =====
-- The removing calls of `PodVecRepr` against the specification.
use pinapod.Base.Shifts.{last_of}
use pinapod.Base.{ℕ, suc, ◌+◌, ◌-◌, ◌≡◌, refl, ap, arith, leb}
use pinapod.Base.{List, [], ◌∷◌, ◌++◌, false}
use pinapod.Base.{Bool-cases, inl, inr}
use pinapod.Base.{length, length-append, replicate, replicate-add, keep}
use pinapod.Base.{lt→leb}
use pinapod.Elem.{ZcElem}
use pinapod.Pod.Prefix.{Layout, IsLayout}
use pinapod.Pod.Prefix.Views.{Holds-Views}
use pinapod.Pod.Vec.{PodVec}
use pinapod.Pod.Vec.State.{Shows}
use pinapod.Pod.Vec.Removes.{pop_lem, pop_empty, remove_lem, remove_out_of_bounds}
use pinapod.Pod.Vec.SwapRemove.{swap_remove_last, swap_remove_inner}
use pinapod.Pod.Vec.Shrinks.{truncate_lem, truncate_noop, clear_lem}
use pinapod.Pod.Vec.Retain.{retain_lem}
use pinapod.Pod.Vec.Spec.{Op, pop, swap_remove, remove, truncate}
use pinapod.Pod.Vec.Spec.{retain, clear, taken, spec, Cut, cut, init_of, init-last}
use pinapod.Pod.Vec.Spec.{remove_at-cut, get_elem?-cut, swap_out-last, swap_out-inner, take-all}
use pinapod.Pod.Vec.Refine.{Canonical, step}
use pinapod.Base.{take-length_append, Bool}
use pinapod.Pod.Vec.Refine.Steps.{Refines, Canonical-of}

module _ {T : Type 0} ⦃z : ZcElem T⦄ {c : Layout} (l : IsLayout c) {v : PodVec T} where
  pub step-pop : (xs : List T) → Canonical c v xs → Refines c v xs pop
  unfolding step spec
  step-pop [] s = rw (pop_empty l v (Holds-Views s)) (refl, s)
  step-pop (x ∷ xs) s =
      let shown : Shows c v (init_of x xs ++ (last_of x xs ∷ []))
          (replicate (c.n - length (x ∷ xs)) z.zeroed) =
        rw init-last (Holds-Views s) in
      let (good, kept) = pop_lem l v shown in
      (ap taken good, Canonical-of (suc (c.n - length (x ∷ xs))) kept refl)

  remove-cut :
      (pre post : List T) (x : T)
      → Canonical c v (pre ++ (x ∷ post))
      → Refines c v (pre ++ (x ∷ post)) (remove (length pre))
  unfolding step spec
  remove-cut pre post x s =
      let inside : leb (length (pre ++ (x ∷ post))) (length pre) ≡ false =
        lt→leb _ _ (omega (arith, length-append pre (x ∷ post))) in
      let (good, kept) = remove_lem l v pre post (Holds-Views s) in
      rw (inside, remove_at-cut pre x post, get_elem?-cut pre x post)
        (ap taken good, Canonical-of (suc (c.n - length (pre ++ (x ∷ post)))) kept refl)

  swap_remove-cut :
      (pre post : List T) (x : T)
      → Canonical c v (pre ++ (x ∷ post))
      → Refines c v (pre ++ (x ∷ post)) (swap_remove (length pre))
  unfolding step spec
  swap_remove-cut pre [] x s =
      let inside : leb (length (pre ++ (x ∷ []))) (length pre) ≡ false =
        lt→leb _ _ (omega (arith, length-append pre (x ∷ []))) in
      let (good, kept) = swap_remove_last l v pre (Holds-Views s) in
      rw (inside, swap_out-last pre x, get_elem?-cut pre x [])
        (ap taken good, Canonical-of (suc (c.n - length (pre ++ (x ∷ [])))) kept refl)
  swap_remove-cut pre (y ∷ post) x s =
      let inside : leb (length (pre ++ (x ∷ y ∷ post))) (length pre) ≡ false =
        lt→leb _ _ (omega (arith, length-append pre (x ∷ y ∷ post))) in
      let shown : Shows c v (pre ++ (x ∷ (init_of y post ++ (last_of y post ∷ []))))
          (replicate (c.n - length (pre ++ (x ∷ y ∷ post))) z.zeroed) =
        rw init-last (Holds-Views s) in
      let (good, kept) = swap_remove_inner l v pre (init_of y post) (last_of y post) shown in
      rw (inside, swap_out-inner pre x y post, get_elem?-cut pre x (y ∷ post))
        (ap taken good, Canonical-of (suc (c.n - length (pre ++ (x ∷ y ∷ post)))) kept refl)

  -- An index below the length cuts the list.
  at-Cut :
      (op : ℕ → Op T) (xs : List T) (i : ℕ)
      → Cut xs i
      → ((pre post : List T) (x : T)
          → Canonical c v (pre ++ (x ∷ post))
          → Refines c v (pre ++ (x ∷ post)) (op (length pre)))
      → Canonical c v xs
      → Refines c v xs (op i)
  at-Cut op xs i d step_at s = rw (d.whole, ← d.index) (step_at d.pre d.post d.at (rw d.whole at s))

  pub step-remove : (xs : List T) (i : ℕ) → Canonical c v xs → Refines c v xs (remove i)
  step-remove xs i s = elim (Bool-cases (leb (length xs) i)) [
    | inl outside ↦
        unfold step spec in
        rw (outside, (remove_out_of_bounds l v i (Holds-Views s) (ground arith)).0) (refl, s)
    | inr inside ↦ at-Cut remove xs i (cut xs i (ground arith)) remove-cut s
  ]

  pub step-swap_remove : (xs : List T) (i : ℕ) → Canonical c v xs → Refines c v xs (swap_remove i)
  step-swap_remove xs i s = elim (Bool-cases (leb (length xs) i)) [
    | inl outside ↦
        unfold step spec in
        rw (outside, (remove_out_of_bounds l v i (Holds-Views s) (ground arith)).1) (refl, s)
    | inr inside ↦ at-Cut swap_remove xs i (cut xs i (ground arith)) swap_remove-cut s
  ]

  pub step-truncate : (xs : List T) (k : ℕ) → Canonical c v xs → Refines c v xs (truncate k)
  step-truncate xs k s = elim (Bool-cases (leb (length xs) k)) [
    | inl longer ↦
        unfold step spec in
        rw (truncate_noop l v k (Holds-Views s) (ground arith), take-all k xs (ground arith))
          (refl, s)
    | inr shorter ↦ at-Cut truncate xs k (cut xs k (ground arith)) truncate-cut s
  ]
    where
      truncate-cut :
          (pre post : List T) (x : T)
          → Canonical c v (pre ++ (x ∷ post))
          → Refines c v (pre ++ (x ∷ post)) (truncate (length pre))
      truncate-cut pre post x s =
          unfold step spec in
          rw (take-length_append pre (x ∷ post)) (
            refl,
            Canonical-of (suc (length post) + (c.n - length (pre ++ (x ∷ post))))
                (truncate_lem l v pre x post (Holds-Views s))
                (replicate-add (suc (length post)) _ z.zeroed),
          )

  pub step-retain : (xs : List T) (f : T → Bool) → Canonical c v xs → Refines c v xs (retain f)
  unfolding step spec
  step-retain xs f s = (
    refl,
    Canonical-of (length xs - length (keep f xs) + (c.n - length xs))
        (retain_lem l f v (Holds-Views s))
        (replicate-add (length xs - length (keep f xs)) _ z.zeroed),
  )

  pub step-clear : (xs : List T) → Canonical c v xs → Refines c v xs clear
  unfolding step spec
  step-clear xs s = (
    refl,
    Canonical-of (length xs + (c.n - length xs)) (clear_lem l v (Holds-Views s))
        (replicate-add (length xs) _ z.zeroed),
  )
