-- ===== src/Pod/Vec/Refine/Runs.antt =====
-- Sequences of calls against the specification of Pod/Vec/Spec (pinapod/src/pod/vec.rs).
use pinapod.Base.{◌≡◌, refl, ap₂, List, [], ◌∷◌}
use pinapod.Elem.{ZcElem}
use pinapod.Pod.Prefix.{Layout, IsLayout}
use pinapod.Pod.Vec.{PodVec, new_default}
use pinapod.Pod.Vec.Shrinks.{new_default_lem}
use pinapod.Pod.Vec.Spec.{Op, push, set_all, extend, pop, swap_remove, remove, truncate}
use pinapod.Pod.Vec.Spec.{retain, clear, spec, spec_run}
use pinapod.Pod.Vec.Refine.{Canonical, step, run}
use pinapod.Pod.Vec.Refine.Steps.{Canonical-of, step-push, step-set_all, step-extend}
use pinapod.Pod.Vec.Refine.Shrink.{step-pop, step-remove, step-swap_remove, step-truncate}
use pinapod.Pod.Vec.Refine.Shrink.{step-retain, step-clear}

module _ {T : Type 0} ⦃z : ZcElem T⦄ {c : Layout} (l : IsLayout c) where
  -- Each call replies as the bounded list does, and leaves the vector holding the new list with
  -- zeros behind it.
  pub step_refines :
      (v : PodVec T) (xs : List T) (op : Op T)
      → Canonical c v xs
      → ((step c v op).1 ≡ (spec c.n xs op).1) × Canonical c (step c v op).0 (spec c.n xs op).0
  step_refines v xs (push x) s = step-push l s x
  step_refines v xs (set_all ys) s = step-set_all l s ys
  step_refines v xs (extend ys) s = step-extend l s ys
  step_refines v xs pop s = step-pop l xs s
  step_refines v xs (swap_remove i) s = step-swap_remove l xs i s
  step_refines v xs (remove i) s = step-remove l xs i s
  step_refines v xs (truncate k) s = step-truncate l xs k s
  step_refines v xs (retain f) s = step-retain l xs f s
  step_refines v xs clear s = step-clear l xs s

  -- Each sequence of calls on a vector that stores a list, with zeros in its inactive slots,
  -- replies as the list of bounded length does, and leaves the vector storing the new list, again
  -- with zeros in its inactive slots.
  pub run_refines :
      (ops : List (Op T)) (v : PodVec T) (xs : List T)
      → Canonical c v xs
      → ((run c v ops).1 ≡ (spec_run c.n xs ops).1)
        × Canonical c (run c v ops).0 (spec_run c.n xs ops).0
  unfolding run spec_run
  run_refines [] v xs s = (refl, s)
  run_refines (op ∷ ops) v xs s =
      let (reply, next) = step_refines v xs op s in
      let (replies, last) = run_refines ops (step c v op).0 (spec c.n xs op).0 next in
      (ap₂ ◌∷◌ reply replies, last)

  -- In particular those on a new vector.
  pub new_default_refines :
      (ops : List (Op T))
      → ((run c (new_default c) ops).1 ≡ (spec_run c.n [] ops).1)
        × Canonical c (run c (new_default c) ops).0 (spec_run c.n [] ops).0
  new_default_refines ops =
      run_refines ops (new_default c) [] (Canonical-of c.n (new_default_lem l) refl)
