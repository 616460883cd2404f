-- ===== src/Pod/Vec/Removes.antt =====
-- `pop` and `remove` of pinapod/src/pod/vec.rs.
use pinapod.Base.Shifts.{last_of, close_gap}
use pinapod.Base.{ℕ, suc, ◌+◌, ◌-◌, ◌≤◌, ◌≡◌, refl, ap, ◌∙◌, arith, ltb, leb, ◌==◌}
use pinapod.Base.{List, [], ◌∷◌, ◌++◌, append_assoc, true, false, some, none}
use pinapod.Base.{lt→leb, le→leb, if◌then◌else◌}
use pinapod.Base.{length, length-append, get_or, set, take, drop}
use pinapod.Base.Memory.{copy_at, set-append_head, get_or-append_head}
use pinapod.Elem.{ZcElem}
use pinapod.Pod.Prefix
use pinapod.Pod.Prefix.{Layout, IsLayout}
use pinapod.Pod.Vec.{PodVec, pop, swap_remove, remove}
use pinapod.Pod.Vec.State.{Shows, Stores, encode_len-Stores}

module _ {T : Type 0} ⦃z : ZcElem T⦄ {c : Layout} (l : IsLayout c) where
  -- `pop` returns the last element and zeroes its slot.
  pub pop_lem :
      (v : PodVec T) {xs : List T} {x : T} {rest : List T}
      → Shows c v (xs ++ (x ∷ [])) rest
      → ((pop c v).1 ≡ some x) × Stores c (pop c v).0 xs (z.zeroed ∷ rest)
  unfolding pop
  pop_lem v {xs} {x} {rest} s =
      let some_left : (Prefix.clamped_len c v.prefix == 0) ≡ false =
        ground (arith, s.active, count) in
      rw some_left (ap some taken, encode_len-Stores l w s.width written sizes _ at_last)
    where
      count : length (xs ++ (x ∷ [])) ≡ length xs + 1
      count = length-append xs (x ∷ [])

      at_last : Prefix.clamped_len c v.prefix - 1 ≡ length xs
      at_last = omega (arith, s.active, count)

      memory : v.slots ≡ xs ++ (x ∷ rest)
      memory = s.memory ∙ append_assoc xs (x ∷ []) rest

      taken : get_or v.slots (Prefix.clamped_len c v.prefix - 1) z.zeroed ≡ x
      taken = rw (at_last, memory) (get_or-append_head xs rest x z.zeroed)

      w : PodVec T
      w = record v { slots = set v.slots (Prefix.clamped_len c v.prefix - 1) z.zeroed }

      written : w.slots ≡ xs ++ (z.zeroed ∷ rest)
      written = rw (at_last, memory) (set-append_head xs rest x z.zeroed)

      sizes : length xs + length (z.zeroed ∷ rest) ≡ c.n
      sizes = omega (arith, count, s.total)

  pub pop_empty : (v : PodVec T) {rest : List T} → Shows c v [] rest → pop c v ≡ (v, none)
  unfolding pop
  pop_empty v s =
      let none_left : (Prefix.clamped_len c v.prefix == 0) ≡ true = ground (arith, s.active) in
      rw none_left

  -- On any vector that shows an element at the index, one with a clamped prefix included,
  -- `remove` returns that element, stores the others in order, and zeroes the freed slot.
  pub remove_lem :
      (v : PodVec T) (pre post : List T) {x : T} {rest : List T}
      → Shows c v (pre ++ (x ∷ post)) rest
      → ((remove c v (length pre)).1 ≡ some x)
        × Stores c (remove c v (length pre)).0 (pre ++ post) (z.zeroed ∷ rest)
  unfolding remove
  remove_lem v pre post {x} {rest} s =
      let inside : leb (Prefix.clamped_len c v.prefix) (length pre) ≡ false =
        lt→leb _ _ (omega (arith, s.active, count)) in
      rw inside (ap some taken, encode_len-Stores l w s.width written sizes _ at_last)
    where
      count : length (pre ++ (x ∷ post)) ≡ length pre + suc (length post)
      count = length-append pre (x ∷ post)

      count_left : length (pre ++ post) ≡ length pre + length post
      count_left = length-append pre post

      at_last : Prefix.clamped_len c v.prefix - 1 ≡ length (pre ++ post)
      at_last = omega (arith, s.active, count, count_left)

      tail : Prefix.clamped_len c v.prefix - length pre - 1 ≡ length post
      tail = omega (arith, s.active, count)

      taken : get_or v.slots (length pre) z.zeroed ≡ x
      taken =
          rw (s.memory, append_assoc pre (x ∷ post) rest)
            (get_or-append_head pre (post ++ rest) x z.zeroed)

      shifted : List T
      shifted =
          if ltb 0 (Prefix.clamped_len c v.prefix - length pre - 1)
          then copy_at (length pre)
              (take (Prefix.clamped_len c v.prefix - length pre - 1)
                (drop (length pre + 1) v.slots))
              v.slots
          else v.slots

      shifted_lem : shifted ≡ (pre ++ post) ++ (last_of x post ∷ rest)
      shifted_lem = rw (tail, s.memory) (close_gap pre x post rest)

      w : PodVec T
      w = record v { slots = set shifted (Prefix.clamped_len c v.prefix - 1) z.zeroed }

      written : w.slots ≡ (pre ++ post) ++ (z.zeroed ∷ rest)
      written =
          rw (at_last, shifted_lem) (set-append_head (pre ++ post) rest (last_of x post) z.zeroed)

      sizes : length (pre ++ post) + length (z.zeroed ∷ rest) ≡ c.n
      sizes = omega (arith, count, count_left, s.total)

  -- An index behind the active elements is refused, by both removals, and changes nothing.
  pub remove_out_of_bounds :
      (v : PodVec T) (index : ℕ) {xs rest : List T}
      → Shows c v xs rest
      → length xs ≤ index
      → (remove c v index ≡ (v, none)) × (swap_remove c v index ≡ (v, none))
  unfolding remove swap_remove
  remove_out_of_bounds v index s h =
      let outside : leb (Prefix.clamped_len c v.prefix) index ≡ true =
        le→leb _ _ (omega (arith, s.active)) in
      rw outside (refl, refl)
