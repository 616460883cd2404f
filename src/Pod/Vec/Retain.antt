-- ===== src/Pod/Vec/Retain.antt =====
-- `retain` of pinapod/src/pod/vec.rs: its loop, and the zeroing after it.
use pinapod.Base.{ℕ, suc, ◌+◌, ◌-◌, ◌≡◌, refl, ap, ◌∙◌, sym, arith, Bool, true, false}
use pinapod.Base.{
  List, [], ◌∷◌, ◌++◌, append_assoc, append-nil, Bool-cases, inl, inr, if◌then◌else◌,
}
use pinapod.Base.{
  length, length-append, length-replicate, get_or, set, replicate, keep, length-keep,
}
use pinapod.Base.Memory.{fill, set-append_head, get_or-append_head, fill-append}
use pinapod.Elem.{ZcElem}
use pinapod.Pod.Prefix
use pinapod.Pod.Prefix.{Layout, IsLayout}
use pinapod.Pod.Vec.{PodVec, retain, retain_loop}
use pinapod.Pod.Vec.State.{Shows, Stores, encode_len-Stores}

module _ {T : Type 0} where
  -- The slots between the kept elements and the next one to read, after that one is kept.
  abbrev advance : List T → T → List T
  advance [] u = []
  advance (j ∷ junk) u = junk ++ (u ∷ [])

  length-advance : (junk : List T) (u : T) → length (advance junk u) ≡ length junk
  length-advance [] u = refl
  length-advance (j ∷ junk) u = omega (arith, length-append junk (u ∷ []))

  set-advance :
      (kept junk : List T) (u : T) (more : List T)
      → set (kept ++ (junk ++ (u ∷ more))) (length kept) u
        ≡ (kept ++ (u ∷ [])) ++ (advance junk u ++ more)
  set-advance kept [] u more = set-append_head kept more u u ∙ sym (append_assoc kept (u ∷ []) more)
  set-advance kept (j ∷ junk) u more =
      set-append_head kept (junk ++ (u ∷ more)) j u
      ∙ ap (λ t. kept ++ (u ∷ t)) (sym (append_assoc junk (u ∷ []) more))
      ∙ sym (append_assoc kept (u ∷ []) ((junk ++ (u ∷ [])) ++ more))

module _ {T : Type 0} ⦃z : ZcElem T⦄ (c : Layout) (f : T → Bool) where
  -- What the loop leaves, with some junk between the kept elements and the slots it never reads.
  record Kept (front : List T) (room : ℕ) (rest : List T) (out : ℕ × List T) : Type 0 where
    junk : List T
    write : out.0 ≡ length front
    slots : out.1 ≡ front ++ (junk ++ rest)
    sizes : length front + length junk ≡ room

  Kept-cast :
      {front front' rest : List T} {room room' : ℕ} {out out' : ℕ × List T}
      → front ≡ front'
      → room ≡ room'
      → out ≡ out'
      → Kept front' room' rest out'
      → Kept front room rest out
  Kept-cast p q r k = rw (p, q, r) k

  Kept-fill :
      {front rest : List T} {room : ℕ} {out : ℕ × List T}
      → Kept front room rest out
      → (hi : ℕ) → hi ≡ room
      → fill out.0 hi z.zeroed out.1 ≡ front ++ (replicate (room - length front) z.zeroed ++ rest)
  Kept-fill {front} {rest} {room} k hi e =
      let top : hi ≡ length front + length k.junk = omega (arith, k.sizes) in
      let count : length k.junk ≡ room - length front = omega (arith, k.sizes) in
      rw (k.write, k.slots, top)
        (fill-append front k.junk rest z.zeroed
          ∙ ap (λ n. front ++ (replicate n z.zeroed ++ rest)) count)

  retain_loop_step :
      (count read write : ℕ) (slots : List T) (val : T)
      → get_or slots read z.zeroed ≡ val
      → retain_loop c f (suc count) read write slots
        ≡ retain_loop c f count
            (read + 1)
            (if f val then write + 1 else write)
            (if f val then set slots write val else slots)
  unfolding retain_loop
  retain_loop_step count read write slots val e =
      ap
        (λ t.
          retain_loop c f count (read + 1) (if f t then write + 1 else write)
            (if f t then set slots write t else slots))
        e

  retain_loop_cong :
      (count : ℕ) {read read' write write' : ℕ} {slots slots' : List T}
      → read ≡ read'
      → write ≡ write'
      → slots ≡ slots'
      → retain_loop c f count read write slots ≡ retain_loop c f count read' write' slots'
  retain_loop_cong count p q r = cc

  module _ (kept junk : List T) (u : T) (more : List T) where
    next : get_or (kept ++ (junk ++ (u ∷ more))) (length kept + length junk) z.zeroed ≡ u
    next =
        rw (← append_assoc kept junk (u ∷ more), ← length-append kept junk)
          (get_or-append_head (kept ++ junk) more u z.zeroed)

    step_hit :
        (count : ℕ)
        → f u ≡ true
        → retain_loop c f
            (suc count)
            (length kept + length junk)
            (length kept)
            (kept ++ (junk ++ (u ∷ more)))
          ≡ retain_loop c f count
              (length (kept ++ (u ∷ [])) + length (advance junk u))
              (length (kept ++ (u ∷ [])))
              ((kept ++ (u ∷ [])) ++ (advance junk u ++ more))
    step_hit count hit =
        let one : length (kept ++ (u ∷ [])) ≡ length kept + 1 = length-append kept (u ∷ []) in
        let read : length kept + length junk + 1
            ≡ length (kept ++ (u ∷ [])) + length (advance junk u) =
          omega (arith, one, length-advance junk u) in
        retain_loop_step count _ _ _ u next
        ∙ rw hit (retain_loop_cong count read (sym one) (set-advance kept junk u more))

    step_miss :
        (count : ℕ)
        → f u ≡ false
        → retain_loop c f
            (suc count)
            (length kept + length junk)
            (length kept)
            (kept ++ (junk ++ (u ∷ more)))
          ≡ retain_loop c f count
              (length kept + length (junk ++ (u ∷ [])))
              (length kept)
              (kept ++ ((junk ++ (u ∷ [])) ++ more))
    step_miss count miss =
        let one : length (junk ++ (u ∷ [])) ≡ length junk + 1 = length-append junk (u ∷ []) in
        let read : length kept + length junk + 1 ≡ length kept + length (junk ++ (u ∷ [])) =
          omega (arith, one) in
        retain_loop_step count _ _ _ u next
        ∙ rw miss (
            retain_loop_cong count read refl
              (ap (λ m. kept ++ m) (sym (append_assoc junk (u ∷ []) more))))

  retain_loop_lem :
      (unread kept junk rest : List T)
      → Kept (kept ++ keep f unread) (length kept + length junk + length unread) rest (
          retain_loop c f
            (length unread)
            (length kept + length junk)
            (length kept)
            (kept ++ (junk ++ (unread ++ rest))))
  retain_loop_lem [] kept junk rest = record {
    junk = junk;
    write = unfold retain_loop in ap length (sym (append-nil kept));
    slots = unfold retain_loop in rw append-nil;
    sizes = rw append-nil (omega arith);
  }
  retain_loop_lem (u ∷ unread) kept junk rest = elim (Bool-cases (f u)) [
    | inl hit ↦
        let one : length (kept ++ (u ∷ [])) ≡ length kept + 1 = length-append kept (u ∷ []) in
        Kept-cast (rw hit (sym (append_assoc kept (u ∷ []) (keep f unread))))
          (omega (arith, one, length-advance junk u))
          (step_hit kept junk u (unread ++ rest) (length unread) hit)
          (retain_loop_lem unread (kept ++ (u ∷ [])) (advance junk u) rest)
    | inr miss ↦
        Kept-cast (rw miss) (omega (arith, length-append junk (u ∷ [])))
          (step_miss kept junk u (unread ++ rest) (length unread) miss)
          (retain_loop_lem unread kept (junk ++ (u ∷ [])) rest)
  ]

module _ {T : Type 0} ⦃z : ZcElem T⦄ {c : Layout} (l : IsLayout c) where
  -- On any vector, one with a clamped prefix included, `retain` stores exactly the shown elements
  -- that pass the test, in order, zeroes the slots that it vacates, and leaves those behind as
  -- they were.
  pub retain_lem :
      (f : T → Bool) (v : PodVec T) {xs rest : List T}
      → Shows c v xs rest
      → Stores c
          (retain c f v)
          (keep f xs)
          (replicate (length xs - length (keep f xs)) z.zeroed ++ rest)
  unfolding retain
  retain_lem f v {xs} {rest} s = encode_len-Stores l w s.width written sizes out.0 kept.write
    where
      out : ℕ × List T
      out = retain_loop c f (Prefix.clamped_len c v.prefix) 0 0 v.slots

      kept : Kept c f (keep f xs) (length xs) rest out
      kept =
          Kept-cast c f refl (omega arith) (rw (s.active, s.memory))
            (retain_loop_lem c f xs [] [] rest)

      w : PodVec T
      w = record v { slots = fill out.0 (Prefix.clamped_len c v.prefix) z.zeroed out.1 }

      written : w.slots ≡ keep f xs ++ (replicate (length xs - length (keep f xs)) z.zeroed ++ rest)
      written = Kept-fill c f kept (Prefix.clamped_len c v.prefix) s.active

      sizes :
          length (keep f xs) + length (replicate (length xs - length (keep f xs)) z.zeroed ++ rest)
          ≡ c.n
      sizes = omega (
        arith,
        s.total,
        length-keep f xs,
        length-append (replicate (length xs - length (keep f xs)) z.zeroed) rest,
        length-replicate (length xs - length (keep f xs)) z.zeroed,
      )
