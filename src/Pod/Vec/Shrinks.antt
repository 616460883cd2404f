-- ===== src/Pod/Vec/Shrinks.antt =====
-- `truncate`, `clear` and `default` of pinapod/src/pod/vec.rs.
use pinapod.Base.{ℕ, suc, ◌+◌, ◌≤◌, ◌≡◌, refl, ◌∙◌, arith, ltb}
use pinapod.Base.{List, [], ◌∷◌, ◌++◌, append_assoc, true, false}
use pinapod.Base.{lt→ltb, le→ltb}
use pinapod.Base.{length, length-append, length-replicate, replicate}
use pinapod.Base.Memory.{fill, fill-append}
use pinapod.Base.Memory.{fill-zero}
use pinapod.Elem.{ZcElem}
use pinapod.Pod.Prefix
use pinapod.Pod.Prefix.{Layout, IsLayout}
use pinapod.Pod.Prefix.Views.{zeros-Holds}
use pinapod.Pod.Vec.{PodVec, truncate, clear, new_default}
use pinapod.Pod.Vec.State.{Shows, Stores, encode_len-Stores}

module _ {T : Type 0} ⦃z : ZcElem T⦄ {c : Layout} (l : IsLayout c) where
  -- `truncate` to fewer elements keeps the first ones and zeroes the others.
  pub truncate_lem :
      (v : PodVec T) (xs : List T) (y : T) (ys : List T) {rest : List T}
      → Shows c v (xs ++ (y ∷ ys)) rest
      → Stores c (truncate c v (length xs)) xs (replicate (suc (length ys)) z.zeroed ++ rest)
  unfolding truncate
  truncate_lem v xs y ys {rest} s =
      let shorter : ltb (length xs) (Prefix.clamped_len c v.prefix) ≡ true =
        lt→ltb _ _ (omega (arith, s.active, count)) in
      rw shorter (encode_len-Stores l w s.width written sizes _ refl)
    where
      count : length (xs ++ (y ∷ ys)) ≡ length xs + length (y ∷ ys)
      count = length-append xs (y ∷ ys)

      w : PodVec T
      w = record v { slots = fill (length xs) (Prefix.clamped_len c v.prefix) z.zeroed v.slots }

      written : w.slots ≡ xs ++ (replicate (suc (length ys)) z.zeroed ++ rest)
      written =
          rw (s.active ∙ count, s.memory, append_assoc xs (y ∷ ys) rest)
            (fill-append xs (y ∷ ys) rest z.zeroed)

      sizes : length xs + length (replicate (suc (length ys)) z.zeroed ++ rest) ≡ c.n
      sizes = omega (
        arith,
        count,
        s.total,
        length-append (replicate (suc (length ys)) z.zeroed) rest,
        length-replicate (suc (length ys)) z.zeroed,
      )

  -- `truncate` to no fewer elements than there are changes nothing.
  pub truncate_noop :
      (v : PodVec T) (n : ℕ) {xs rest : List T}
      → Shows c v xs rest
      → length xs ≤ n
      → truncate c v n ≡ v
  unfolding truncate
  truncate_noop v n s h =
      let longer : ltb n (Prefix.clamped_len c v.prefix) ≡ false =
        le→ltb _ _ (omega (arith, s.active)) in
      rw longer

  -- `clear` zeroes every active slot and the whole prefix.
  pub clear_lem :
      (v : PodVec T) {xs rest : List T}
      → Shows c v xs rest
      → Stores c (clear c v) [] (replicate (length xs) z.zeroed ++ rest)
  unfolding clear
  clear_lem v {xs} {rest} s =
      rw (s.active, s.memory, fill-zero xs rest z.zeroed) (zeros-Holds l sizes)
    where
      sizes : length (replicate (length xs) z.zeroed ++ rest) ≡ c.n
      sizes = omega (
        arith,
        s.total,
        length-append (replicate (length xs) z.zeroed) rest,
        length-replicate (length xs) z.zeroed,
      )

  -- The default is empty, and all zeros.
  pub new_default_lem : Stores c (new_default c) [] (replicate c.n z.zeroed)
  unfolding new_default
  new_default_lem = zeros-Holds l (length-replicate c.n z.zeroed)
