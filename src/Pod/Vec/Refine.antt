-- ===== src/Pod/Vec/Refine.antt =====
-- `PodVecRepr` against its specification, with every inactive slot zeroed.
pub mod Steps
pub mod Shrink
pub mod Runs
use pinapod.Base.{ℕ, zero, suc, ◌+◌, ◌-◌, ◌≤◌, ◌<◌, ◌≡◌, refl, ap, ◌∙◌, sym, arith, ltb, leb}
use pinapod.Base.{List, [], ◌∷◌, ◌++◌, append_assoc, true, false, some, none, Bool-cases, inl, inr}
use pinapod.Base.{
  length, length-append, length-replicate, replicate, replicate-add, drop, take, keep,
}
use pinapod.Base.{if◌then◌else◌, lt→leb, le→leb, lt→ltb, le→ltb}
use pinapod.Error.{overflow, ok, err}
use pinapod.Elem.{ZcElem}
use pinapod.Pod.Prefix.{Layout, IsLayout}
use pinapod.Pod.Prefix.Views.{Holds-Views}
use pinapod.Pod.Vec
use pinapod.Pod.Vec.{PodVec}
use pinapod.Pod.Vec.State.{Shows, Stores}
use pinapod.Pod.Vec.Spec.{
  Op, Reply, push, set_all, extend, pop, swap_remove, remove, truncate, retain, clear, done, taken,
  spec, spec_run, Cut, cut,
}

-- The vector holds `xs`, its prefix is their number, and all the slots behind them are zeroed.
abbrev pub Canonical : {T : Type 0} ⦃z : ZcElem T⦄ → Layout → PodVec T → List T → Type 0
Canonical ⦃z⦄ c v xs = Stores c v xs (replicate (c.n - length xs) z.zeroed)

module _ {T : Type 0} ⦃z : ZcElem T⦄ (c : Layout) where
  -- A client's call of the code. Values are in their stored form already.
  unfoldable pub step : PodVec T → Op T → PodVec T × Reply T
  step v (push x) = let (w, r) = Vec.try_push c (λ (t : T). t) v x in (w, done r)
  step v (set_all xs) = let (w, r) = Vec.try_set_from_slice c v xs in (w, done r)
  step v (extend xs) = let (w, r) = Vec.try_extend_from_slice c v xs in (w, done r)
  step v pop = let (w, r) = Vec.pop c v in (w, taken r)
  step v (swap_remove i) = let (w, r) = Vec.swap_remove c v i in (w, taken r)
  step v (remove i) = let (w, r) = Vec.remove c v i in (w, taken r)
  step v (truncate k) = (Vec.truncate c v k, done (ok tt))
  step v (retain f) = (Vec.retain c f v, done (ok tt))
  step v clear = (Vec.clear c v, done (ok tt))

  unfoldable pub run : PodVec T → List (Op T) → PodVec T × List (Reply T)
  run v [] = (v, [])
  run v (op ∷ ops) = let (w, r) = step v op in let (u, rs) = run w ops in (u, r ∷ rs)
