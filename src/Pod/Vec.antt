-- ===== src/Pod/Vec.antt =====
-- `PodVecRepr<T, N, PFX>` of pinapod/src/pod/vec.rs. The array `data` is a list of `N` slots; an
-- operation on `&mut self` returns the new vector, first where it also has a result.
pub mod State
pub mod Writes
pub mod Setters
pub mod Removes
pub mod SwapRemove
pub mod Shrinks
pub mod Retain
pub mod Reads
pub mod Spec
pub mod Refine
use pinapod.Base.{ℕ, zero, suc, ◌+◌, ◌-◌, ◌≤◌, Bool, true, false, not, Option, none, some}
use pinapod.Base.{List, [], ◌∷◌, ltb, leb, ◌==◌, if◌then◌else◌, map}
use pinapod.Base.{length, get_elem?, get_or, set, take, drop, replicate}
use pinapod.Base.Memory.{copy_at, fill}
use pinapod.Error.{PinaPodError, overflow, invalid_length, Result, ok, err, ◌>>=◌, ◌>>◌, ensure}
use pinapod.Elem.{ZcElem, Checked}
use pinapod.Pod.Prefix
use pinapod.Pod.Prefix.{Layout}

pub record PodVec (T : Type 0) : Type 0 where
  pub prefix : List ℕ
  pub slots : List T

-- `usize::checked_add`
abbrev pub checked_add : Layout → ℕ → ℕ → Option ℕ
checked_add c a b = if ltb c.usize_max (a + b) then none else some (a + b)

-- `for (slot, value) in slots.iter_mut().zip(values) { *slot = (*value).into(); }`, from `start` on
unfoldable pub convert_at : {V T : Type 0} → (V → T) → ℕ → List V → List T → List T
convert_at into start values [] = []
convert_at into (suc start) values (d ∷ ds) = d ∷ convert_at into start values ds
convert_at into zero [] (d ∷ ds) = d ∷ ds
convert_at into zero (x ∷ values) (d ∷ ds) = into x ∷ convert_at into zero values ds

-- `cur.checked_add(added).filter(|new_len| *new_len <= N).ok_or(Overflow)`
unfoldable pub grown : Layout → ℕ → ℕ → Result PinaPodError ℕ
grown c cur added = elim (checked_add c cur added) [
  | none ↦ err overflow
  | some new_len ↦ if leb new_len c.n then ok new_len else err overflow
]

module _ {T : Type 0} (c : Layout) where
  unfoldable pub try_decode_len : PodVec T → Result PinaPodError ℕ
  try_decode_len v = Prefix.try_decode_len c v.prefix

  unfoldable pub decode_len : PodVec T → ℕ
  decode_len v = Prefix.decode_len c v.prefix

  unfoldable pub encode_len : PodVec T → ℕ → PodVec T
  encode_len v n = record v { prefix = Prefix.encode_len c n v.prefix }

  unfoldable pub len : PodVec T → ℕ
  len v = Prefix.clamped_len c v.prefix

  unfoldable pub is_empty : PodVec T → Bool
  unfolding len
  is_empty v = len v == 0

  unfoldable pub as_slice : PodVec T → List T
  unfolding len
  as_slice v = take (len v) v.slots

  unfoldable pub get : PodVec T → ℕ → Option T
  unfolding as_slice
  get v index = get_elem? (as_slice v) index

  -- `get_mut(index)`, and a write through the reference that it returns.
  unfoldable pub set_at : PodVec T → ℕ → T → Option (PodVec T)
  unfolding as_slice len
  set_at v index value =
      if ltb index (length (as_slice v))
      then some (record v { slots = set v.slots index value })
      else none

  unfoldable pub try_push : {V : Type 0} → (V → T) → PodVec T → V → PodVec T × Checked
  unfolding len encode_len
  try_push into v value =
      let cur = len v in
      if leb c.n cur
      then (v, err overflow)
      else (encode_len (record v { slots = set v.slots cur (into value) }) (cur + 1), ok tt)

module _ {T : Type 0} ⦃z : ZcElem T⦄ (c : Layout) where
  unfoldable pub zero_range : PodVec T → ℕ → ℕ → PodVec T
  zero_range v lo hi = record v { slots = fill lo hi z.zeroed v.slots }

  -- `if new_len < old_len { self.zero_range(new_len..old_len); }`
  unfoldable pub vacate : PodVec T → ℕ → ℕ → PodVec T
  unfolding zero_range
  vacate v new_len old_len = if ltb new_len old_len then zero_range v new_len old_len else v

  unfoldable pub new_default : PodVec T
  new_default = record { prefix = replicate c.pfx 0; slots = replicate c.n z.zeroed }

  unfoldable pub try_as_slice : PodVec T → Result PinaPodError (List T)
  unfolding try_decode_len
  try_as_slice v = do
    raw_len ← try_decode_len c v
    ensure (leb raw_len c.n) invalid_length
    let slice = take raw_len v.slots
    z.validate_slice slice
    ok slice

  -- `impl ZcValidate for PodVecRepr`
  unfoldable pub validate_ref : PodVec T → Checked
  unfolding try_decode_len as_slice
  validate_ref v = do
    raw_len ← try_decode_len c v
    ensure (leb raw_len c.n) invalid_length
    z.validate_slice (as_slice c v)

  unfoldable pub try_set_from_slice : PodVec T → List T → PodVec T × Checked
  unfolding len encode_len vacate
  try_set_from_slice v values =
      let vlen = length values in
      if ltb c.n vlen
      then (v, err overflow)
      else (let old_len = len c v in
          let copied = record v { slots = copy_at 0 values v.slots } in
          (encode_len c (vacate copied vlen old_len) vlen, ok tt))

  unfoldable pub try_set : {V : Type 0} → (V → T) → PodVec T → List V → PodVec T × Checked
  unfolding len encode_len vacate convert_at
  try_set into v values =
      let new_len = length values in
      if ltb c.n new_len
      then (v, err overflow)
      else (let old_len = len c v in
          let copied = record v { slots = convert_at into 0 values v.slots } in
          (encode_len c (vacate copied new_len old_len) new_len, ok tt))

  unfoldable pub try_extend_from_slice : PodVec T → List T → PodVec T × Checked
  unfolding len encode_len
  try_extend_from_slice v values =
      let cur = len c v in
      elim (grown c cur (length values)) [
        | ok new_len ↦
            (encode_len c (record v { slots = copy_at cur values v.slots }) new_len, ok tt)
        | err e ↦ (v, err e)
      ]

  unfoldable pub try_extend : {V : Type 0} → (V → T) → PodVec T → List V → PodVec T × Checked
  unfolding len encode_len convert_at
  try_extend into v values =
      let cur = len c v in
      elim (grown c cur (length values)) [
        | ok new_len ↦
            (encode_len c (record v { slots = convert_at into cur values v.slots }) new_len, ok tt)
        | err e ↦ (v, err e)
      ]

  unfoldable pub pop : PodVec T → PodVec T × Option T
  unfolding len encode_len
  pop v =
      let cur = len c v in
      let new_len = cur - 1 in
      if cur == 0 then (v, none) else (
        encode_len c (record v { slots = set v.slots new_len z.zeroed }) new_len,
        some (get_or v.slots new_len z.zeroed),
      )

  unfoldable pub swap_remove : PodVec T → ℕ → PodVec T × Option T
  unfolding len encode_len
  swap_remove v index =
      let cur = len c v in
      let last = cur - 1 in
      let moved =
        if index == last then v.slots else set v.slots index (get_or v.slots last z.zeroed) in
      if leb cur index then (v, none) else (
        encode_len c (record v { slots = set moved last z.zeroed }) last,
        some (get_or v.slots index z.zeroed),
      )

  unfoldable pub remove : PodVec T → ℕ → PodVec T × Option T
  unfolding len encode_len
  remove v index =
      let cur = len c v in
      let tail = cur - index - 1 in
      let new_len = cur - 1 in
      let shifted =
        if ltb 0 tail
        then copy_at index (take tail (drop (index + 1) v.slots)) v.slots
        else v.slots in
      if leb cur index then (v, none) else (
        encode_len c (record v { slots = set shifted new_len z.zeroed }) new_len,
        some (get_or v.slots index z.zeroed),
      )

  unfoldable pub truncate : PodVec T → ℕ → PodVec T
  unfolding len encode_len zero_range
  truncate v new_len =
      let cur = len c v in
      if ltb new_len cur then encode_len c (zero_range v new_len cur) new_len else v

  -- The loop of `retain`: `count` rounds are left; it returns `write` and the slots.
  unfoldable pub retain_loop : (T → Bool) → ℕ → ℕ → ℕ → List T → ℕ × List T
  retain_loop f zero read write slots = (write, slots)
  retain_loop f (suc count) read write slots =
      let val = get_or slots read z.zeroed in
      retain_loop f count (read + 1) (if f val then write + 1 else write)
        (if f val then set slots write val else slots)

  unfoldable pub retain : (T → Bool) → PodVec T → PodVec T
  unfolding len encode_len zero_range retain_loop
  retain f v =
      let cur = len c v in
      let (write, slots) = retain_loop f cur 0 0 v.slots in
      encode_len c (zero_range (record v { slots = slots }) write cur) write

  unfoldable pub clear : PodVec T → PodVec T
  unfolding len zero_range
  clear v = record (zero_range v 0 (len c v)) { prefix = replicate c.pfx 0 }
