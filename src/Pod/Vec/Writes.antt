-- ===== src/Pod/Vec/Writes.antt =====
-- `try_push`, `try_extend_from_slice` and `try_extend`.
use pinapod.Base.{ℕ, ◌+◌, ◌≤◌, ◌<◌, ◌≡◌, refl, ap, ◌∙◌, arith, leb, map}
use pinapod.Base.{List, [], ◌∷◌, ◌++◌, append_assoc, true, false, lt→leb, le→leb}
use pinapod.Base.{length, length-append, length-drop, length-map, set, drop}
use pinapod.Base.Memory.{copy_at, set-append_head, copy_at-behind}
use pinapod.Base.Memory.{copy_at-prefix}
use pinapod.Error.{overflow, ok, err}
use pinapod.Elem.{ZcElem}
use pinapod.Pod.Prefix.{Layout, IsLayout}
use pinapod.Pod.Prefix
use pinapod.Pod.Prefix.RoundTrip.{fits_prefix}
use pinapod.Pod.Vec.{PodVec, encode_len, try_push}
use pinapod.Pod.Vec.{try_extend, try_extend_from_slice, grown}
use pinapod.Pod.Vec.State.{Shows, Stores, encode_len-Stores, convert_at-copy_at}

module _ {T : Type 0} {c : Layout} (l : IsLayout c) where
  -- `try_push` appends the converted value over the first inactive slot.
  pub try_push_lem :
      {V : Type 0} (into : V → T) (v : PodVec T) (value : V) {xs : List T} {y : T} {rest : List T}
      → Shows c v xs (y ∷ rest)
      → ((try_push c into v value).1 ≡ ok tt)
        × Stores c (try_push c into v value).0 (xs ++ (into value ∷ [])) rest
  unfolding try_push
  try_push_lem into v value {xs} {y} {rest} s =
      let room : leb c.n (Prefix.clamped_len c v.prefix) ≡ false =
        lt→leb c.n _ (omega (arith, s.active, s.total)) in
      rw room
        (refl, encode_len-Stores l w s.width written grown_total _ (omega (arith, s.active, count)))
    where
      w : PodVec T
      w = record v { slots = set v.slots (Prefix.clamped_len c v.prefix) (into value) }

      written : w.slots ≡ (xs ++ (into value ∷ [])) ++ rest
      written = rw (s.active, s.memory, append_assoc) (set-append_head xs rest y (into value))

      count : length (xs ++ (into value ∷ [])) ≡ length xs + 1
      count = length-append xs (into value ∷ [])

      grown_total : length (xs ++ (into value ∷ [])) + length rest ≡ c.n
      grown_total = omega (arith, count, s.total)

  -- At capacity `try_push` fails with `Overflow` and changes nothing.
  pub try_push_full :
      {V : Type 0} (into : V → T) (v : PodVec T) (value : V) {xs : List T}
      → Shows c v xs []
      → try_push c into v value ≡ (v, err overflow)
  unfolding try_push
  try_push_full into v value s =
      let full : leb c.n (Prefix.clamped_len c v.prefix) ≡ true =
        le→leb c.n _ (omega (arith, s.active, s.total)) in
      rw full

module _ {c : Layout} (l : IsLayout c) where
  grown-ok : (cur added : ℕ) → cur + added ≤ c.n → grown c cur added ≡ ok (cur + added)
  unfolding grown
  grown-ok cur added h = ground (arith, fits_prefix l (cur + added) h)

  grown-overflow : (cur added : ℕ) → c.n < cur + added → grown c cur added ≡ err overflow
  unfolding grown
  grown-overflow cur added h = ground arith

module _ {T : Type 0} ⦃z : ZcElem T⦄ {c : Layout} (l : IsLayout c) where
  -- Values behind the active ones.
  extend-Stores :
      (v : PodVec T) (values : List T) {xs rest : List T}
      → Shows c v xs rest
      → length values ≤ length rest
      → Stores c
          (encode_len c
            (record v { slots = copy_at (Prefix.clamped_len c v.prefix) values v.slots })
            (Prefix.clamped_len c v.prefix + length values))
          (xs ++ values)
          (drop (length values) rest)
  extend-Stores v values {xs} {rest} s h =
      encode_len-Stores l w s.width written sizes _ (omega (arith, count, s.active))
    where
      w : PodVec T
      w = record v { slots = copy_at (Prefix.clamped_len c v.prefix) values v.slots }

      written : w.slots ≡ (xs ++ values) ++ drop (length values) rest
      written =
          rw (s.active, s.memory, append_assoc)
            (copy_at-behind xs values rest ∙ ap (λ t. xs ++ t) (copy_at-prefix values rest h))

      count : length (xs ++ values) ≡ length xs + length values
      count = length-append xs values

      sizes : length (xs ++ values) + length (drop (length values) rest) ≡ c.n
      sizes = omega (arith, count, s.total, length-drop (length values) rest)

  -- `try_extend_from_slice` appends the values over the first inactive slots.
  pub try_extend_from_slice_lem :
      (v : PodVec T) (values : List T) {xs rest : List T}
      → Shows c v xs rest
      → length values ≤ length rest
      → ((try_extend_from_slice c v values).1 ≡ ok tt)
        × Stores c (try_extend_from_slice c v values).0 (xs ++ values) (drop (length values) rest)
  unfolding try_extend_from_slice
  try_extend_from_slice_lem v values s h =
      rw
        (
          grown-ok l (Prefix.clamped_len c v.prefix) (length values)
              (omega (arith, s.active, s.total)),
          try_extend_from_slice,
        )
        (refl, extend-Stores v values s h)

  -- `try_extend` does the same with the converted values, and fails where they do not fit, with the
  -- vector unchanged.
  pub try_extend_lem :
      {V : Type 0} (into : V → T) (v : PodVec T) (values : List V) {xs rest : List T}
      → Shows c v xs rest
      → length values ≤ length rest
      → ((try_extend c into v values).1 ≡ ok tt)
        × Stores c
            (try_extend c into v values).0
            (xs ++ map into values)
            (drop (length values) rest)
  unfolding try_extend
  try_extend_lem into v values {xs} {rest} s h =
      rw
        (
          grown-ok l (Prefix.clamped_len c v.prefix) (length values)
              (omega (arith, s.active, s.total)),
          try_extend,
          convert_at-copy_at into (Prefix.clamped_len c v.prefix) values v.slots,
        )
        (refl, rw (length-map into values) at (extend-Stores v (map into values) s fits))
    where
      fits : length (map into values) ≤ length rest
      fits = omega (arith, length-map into values)

  pub try_extend-overflow :
      {V : Type 0} (into : V → T) (v : PodVec T) (values : List V) {xs rest : List T}
      → Shows c v xs rest
      → length rest < length values
      → try_extend c into v values ≡ (v, err overflow)
  unfolding try_extend
  try_extend-overflow into v values s h = rw (
    grown-overflow l (Prefix.clamped_len c v.prefix) (length values)
        (omega (arith, s.active, s.total)),
    try_extend,
  )

  pub try_extend_from_slice-overflow :
      (v : PodVec T) (values : List T) {xs rest : List T}
      → Shows c v xs rest
      → length rest < length values
      → try_extend_from_slice c v values ≡ (v, err overflow)
  unfolding try_extend_from_slice
  try_extend_from_slice-overflow v values s h = rw (
    grown-overflow l (Prefix.clamped_len c v.prefix) (length values)
        (omega (arith, s.active, s.total)),
    try_extend_from_slice,
  )
