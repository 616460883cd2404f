-- ===== src/Pod/Vec/SwapRemove.antt =====
-- `swap_remove` of pinapod/src/pod/vec.rs.
use pinapod.Base.{suc, ◌+◌, ◌-◌, ◌≡◌, ap, ◌∙◌, sym, arith, leb, ◌==◌}
use pinapod.Base.{List, [], ◌∷◌, ◌++◌, append_assoc, true, false, some}
use pinapod.Base.{lt→leb, ==_iff}
use pinapod.Base.{length, length-append, get_or, set}
use pinapod.Base.Memory.{set-append_head, get_or-append_head}
use pinapod.Elem.{ZcElem}
use pinapod.Pod.Prefix
use pinapod.Pod.Prefix.{Layout, IsLayout}
use pinapod.Pod.Vec.{PodVec, swap_remove}
use pinapod.Pod.Vec.State.{Shows, Stores, encode_len-Stores}

module _ {T : Type 0} ⦃z : ZcElem T⦄ {c : Layout} (l : IsLayout c) where
  -- `swap_remove` of the last element only drops it.
  pub swap_remove_last :
      (v : PodVec T) (pre : List T) {x : T} {rest : List T}
      → Shows c v (pre ++ (x ∷ [])) rest
      → ((swap_remove c v (length pre)).1 ≡ some x)
        × Stores c (swap_remove c v (length pre)).0 pre (z.zeroed ∷ rest)
  unfolding swap_remove
  swap_remove_last v pre {x} {rest} s =
      let inside : leb (Prefix.clamped_len c v.prefix) (length pre) ≡ false =
        lt→leb _ _ (omega (arith, s.active, count)) in
      let same : (length pre == Prefix.clamped_len c v.prefix - 1) ≡ true =
        (==_iff _ _).1 (omega (arith, s.active, count)) in
      rw (inside, same) (ap some taken, encode_len-Stores l w s.width written sizes _ at_last)
    where
      count : length (pre ++ (x ∷ [])) ≡ length pre + 1
      count = length-append pre (x ∷ [])

      at_last : Prefix.clamped_len c v.prefix - 1 ≡ length pre
      at_last = omega (arith, s.active, count)

      memory : v.slots ≡ pre ++ (x ∷ rest)
      memory = s.memory ∙ append_assoc pre (x ∷ []) rest

      taken : get_or v.slots (length pre) z.zeroed ≡ x
      taken = rw memory (get_or-append_head pre rest x z.zeroed)

      w : PodVec T
      w = record v { slots = set v.slots (Prefix.clamped_len c v.prefix - 1) z.zeroed }

      written : w.slots ≡ pre ++ (z.zeroed ∷ rest)
      written = rw (at_last, memory) (set-append_head pre rest x z.zeroed)

      sizes : length pre + length (z.zeroed ∷ rest) ≡ c.n
      sizes = omega (arith, count, s.total)

  -- On any vector, `swap_remove` of a shown element that is not the last returns it, puts the
  -- last element in its place, and zeroes the freed slot.
  pub swap_remove_inner :
      (v : PodVec T) (pre mid : List T) (y : T) {x : T} {rest : List T}
      → Shows c v (pre ++ (x ∷ (mid ++ (y ∷ [])))) rest
      → ((swap_remove c v (length pre)).1 ≡ some x)
        × Stores c (swap_remove c v (length pre)).0 (pre ++ (y ∷ mid)) (z.zeroed ∷ rest)
  unfolding swap_remove
  swap_remove_inner v pre mid y {x} {rest} s =
      let inside : leb (Prefix.clamped_len c v.prefix) (length pre) ≡ false =
        lt→leb _ _ (omega (arith, s.active, count, count_mid)) in
      let other : (length pre == Prefix.clamped_len c v.prefix - 1) ≡ false =
        ground (arith, s.active, count, count_mid) in
      rw (inside, other) (ap some taken, encode_len-Stores l w s.width written sizes _ at_last)
    where
      count : length (pre ++ (x ∷ (mid ++ (y ∷ [])))) ≡ length pre + suc (length (mid ++ (y ∷ [])))
      count = length-append pre (x ∷ (mid ++ (y ∷ [])))

      count_mid : length (mid ++ (y ∷ [])) ≡ length mid + 1
      count_mid = length-append mid (y ∷ [])

      count_front : (a : T) → length (pre ++ (a ∷ mid)) ≡ length pre + suc (length mid)
      count_front a = length-append pre (a ∷ mid)

      at_last : Prefix.clamped_len c v.prefix - 1 ≡ length (pre ++ (y ∷ mid))
      at_last = omega (arith, s.active, count, count_mid, count_front y)

      at_last_old : Prefix.clamped_len c v.prefix - 1 ≡ length (pre ++ (x ∷ mid))
      at_last_old = omega (arith, s.active, count, count_mid, count_front x)

      memory : v.slots ≡ pre ++ (x ∷ (mid ++ (y ∷ rest)))
      memory =
          s.memory
          ∙ append_assoc pre (x ∷ (mid ++ (y ∷ []))) rest
          ∙ ap (λ t. pre ++ (x ∷ t)) (append_assoc mid (y ∷ []) rest)

      memory_back : v.slots ≡ (pre ++ (x ∷ mid)) ++ (y ∷ rest)
      memory_back = memory ∙ sym (append_assoc pre (x ∷ mid) (y ∷ rest))

      taken : get_or v.slots (length pre) z.zeroed ≡ x
      taken = rw memory (get_or-append_head pre (mid ++ (y ∷ rest)) x z.zeroed)

      last_value : get_or v.slots (Prefix.clamped_len c v.prefix - 1) z.zeroed ≡ y
      last_value =
          rw (at_last_old, memory_back) (get_or-append_head (pre ++ (x ∷ mid)) rest y z.zeroed)

      moved : List T
      moved = set v.slots (length pre) (get_or v.slots (Prefix.clamped_len c v.prefix - 1) z.zeroed)

      moved_lem : moved ≡ (pre ++ (y ∷ mid)) ++ (y ∷ rest)
      moved_lem =
          ap (set v.slots (length pre)) last_value
          ∙ ap (λ m. set m (length pre) y) memory
          ∙ set-append_head pre (mid ++ (y ∷ rest)) x y
          ∙ sym (append_assoc pre (y ∷ mid) (y ∷ rest))

      w : PodVec T
      w = record v { slots = set moved (Prefix.clamped_len c v.prefix - 1) z.zeroed }

      written : w.slots ≡ (pre ++ (y ∷ mid)) ++ (z.zeroed ∷ rest)
      written =
          ap (λ m. set m (Prefix.clamped_len c v.prefix - 1) z.zeroed) moved_lem
          ∙ ap (λ k. set ((pre ++ (y ∷ mid)) ++ (y ∷ rest)) k z.zeroed) at_last
          ∙ set-append_head (pre ++ (y ∷ mid)) rest y z.zeroed

      sizes : length (pre ++ (y ∷ mid)) + length (z.zeroed ∷ rest) ≡ c.n
      sizes = omega (arith, count, count_mid, count_front y, s.total)
