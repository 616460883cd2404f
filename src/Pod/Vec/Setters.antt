-- ===== src/Pod/Vec/Setters.antt =====
-- `try_set_from_slice` and `try_set`.
use pinapod.Base.{ℕ, ◌+◌, ◌-◌, ◌≤◌, ◌<◌, ◌≡◌, refl, ap, ◌∙◌, arith, ltb, map}
use pinapod.Base.{List, ◌++◌, lt→ltb, le→ltb}
use pinapod.Base.{
  length, length-append, length-drop, length-replicate, length-map, drop, replicate, if◌then◌else◌,
}
use pinapod.Base.Memory.{copy_at, fill, replaced, overwrite}
use pinapod.Error.{overflow, ok, err}
use pinapod.Elem.{ZcElem}
use pinapod.Pod.Prefix.{Layout, IsLayout}
use pinapod.Pod.Prefix
use pinapod.Pod.Vec.{PodVec, encode_len, try_set, try_set_from_slice}
use pinapod.Pod.Vec.{vacate}
use pinapod.Pod.Vec.State.{Shows, Stores, encode_len-Stores, convert_at-copy_at}

module _ {T : Type 0} ⦃z : ZcElem T⦄ {c : Layout} (l : IsLayout c) where
  prefix-vacate : (w : PodVec T) (lo hi : ℕ) → (vacate c w lo hi).prefix ≡ w.prefix
  unfolding vacate
  prefix-vacate w lo hi = ground arith

  slots-vacate :
      (w : PodVec T) (lo hi : ℕ)
      → (vacate c w lo hi).slots ≡ (if ltb lo hi then fill lo hi z.zeroed w.slots else w.slots)
  unfolding vacate
  slots-vacate w lo hi = ground arith

  -- The values over the old memory, whichever of the two is longer.
  setter-Stores :
      (v : PodVec T) (values : List T) {xs rest : List T}
      → Shows c v xs rest
      → length values ≤ c.n
      → Stores c
          (encode_len c
            (vacate c
              (record v { slots = copy_at 0 values v.slots })
              (length values)
              (Prefix.clamped_len c v.prefix))
            (length values))
          values
          (replicate (length xs - length values) z.zeroed ++ drop (length values - length xs) rest)
  setter-Stores v values {xs} {rest} s h =
      encode_len-Stores l w (ap length (prefix-vacate copied _ _) ∙ s.width) written sizes _ refl
    where
      copied : PodVec T
      copied = record v { slots = copy_at 0 values v.slots }

      w : PodVec T
      w = vacate c copied (length values) (Prefix.clamped_len c v.prefix)

      written : w.slots ≡ replaced z.zeroed values xs rest
      written =
          slots-vacate copied (length values) (Prefix.clamped_len c v.prefix)
          ∙ rw (s.active, s.memory)
              (overwrite z.zeroed values xs rest (omega (arith, s.total)) (length-append xs rest))

      sizes :
          length values
            + length (
                replicate (length xs - length values) z.zeroed
                ++ drop (length values - length xs) rest)
          ≡ c.n
      sizes = omega (
        arith,
        s.total,
        length-append (replicate (length xs - length values) z.zeroed)
            (drop (length values - length xs) rest),
        length-replicate (length xs - length values) z.zeroed,
        length-drop (length values - length xs) rest,
      )

  -- `try_set_from_slice` replaces the active values, and zeroes the slots that it vacates.
  pub try_set_from_slice_lem :
      (v : PodVec T) (values : List T) {xs rest : List T}
      → Shows c v xs rest
      → length values ≤ c.n
      → ((try_set_from_slice c v values).1 ≡ ok tt)
        × Stores c (try_set_from_slice c v values).0 values (
            replicate (length xs - length values) z.zeroed ++ drop (length values - length xs) rest)
  unfolding try_set_from_slice
  try_set_from_slice_lem v values s h =
      rw (le→ltb c.n (length values) h) (refl, setter-Stores v values s h)

  -- On any vector, a set of converted values that fit the capacity succeeds, stores exactly the
  -- converted values, zeroes the old elements behind them, and leaves the slots behind both as
  -- they were.
  pub try_set_lem :
      {V : Type 0} (into : V → T) (v : PodVec T) (values : List V) {xs rest : List T}
      → Shows c v xs rest
      → length values ≤ c.n
      → ((try_set c into v values).1 ≡ ok tt)
        × Stores c (try_set c into v values).0 (map into values) (
            replicate (length xs - length values) z.zeroed ++ drop (length values - length xs) rest)
  unfolding try_set
  try_set_lem into v values s h =
      rw (le→ltb c.n (length values) h, convert_at-copy_at into 0 values v.slots)
        (refl, rw (length-map into values) at (setter-Stores v (map into values) s fits))
    where
      fits : length (map into values) ≤ c.n
      fits = omega (arith, length-map into values)

  -- A set of more values than the capacity fails with `Overflow` and changes nothing.
  pub try_set-overflow :
      {V : Type 0} (into : V → T) (v : PodVec T) (values : List V)
      → c.n < length values
      → try_set c into v values ≡ (v, err overflow)
  unfolding try_set
  try_set-overflow into v values h = rw (lt→ltb c.n (length values) h)

  pub try_set_from_slice-overflow :
      (v : PodVec T) (values : List T)
      → c.n < length values
      → try_set_from_slice c v values ≡ (v, err overflow)
  unfolding try_set_from_slice
  try_set_from_slice-overflow v values h = rw (lt→ltb c.n (length values) h)
