-- ===== src/Pod/Text.antt =====
-- `PodString<N, PFX>` of pinapod/src/pod/string.rs. A `&str` argument is the list of its bytes; an
-- operation on `&mut self` returns the new string, first where it also has a result.
pub mod Writes
pub mod Truncate
pub mod Reads
pub mod Refine
use pinapod.Base.{ℕ, zero, suc, ◌+◌, Bool, true, false, not, Option, none, some, List, [], ◌∷◌}
use pinapod.Base.{ltb, leb, ◌==◌, if◌then◌else◌, length, take, replicate}
use pinapod.Base.Memory.{copy_at, fill}
use pinapod.Base.Bytes.{bytes_eq}
use pinapod.Error.{PinaPodError, overflow, invalid_length, invalid_utf8, Result, ok, err}
use pinapod.Error.{◌>>=◌, ◌>>◌, ensure}
use pinapod.Elem.{Checked}
use pinapod.Utf8.{is_utf8, is_char_boundary}
use pinapod.Pod.Prefix
use pinapod.Pod.Prefix.{Layout}

pub record PodString : Type 0 where
  pub prefix : List ℕ
  pub slots : List ℕ

-- The loop of `truncate`: down to a character boundary.
unfoldable pub round_down : List ℕ → ℕ → ℕ
round_down bs zero = zero
round_down bs (suc boundary) =
    if is_char_boundary bs (suc boundary) then suc boundary else round_down bs boundary

module _ (c : Layout) where
  unfoldable pub try_decode_len : PodString → Result PinaPodError ℕ
  try_decode_len s = Prefix.try_decode_len c s.prefix

  unfoldable pub decode_len : PodString → ℕ
  decode_len s = Prefix.decode_len c s.prefix

  unfoldable pub encode_len : PodString → ℕ → PodString
  encode_len s n = record s { prefix = Prefix.encode_len c n s.prefix }

  unfoldable pub zero_range : PodString → ℕ → ℕ → PodString
  zero_range s lo hi = record s { slots = fill lo hi 0 s.slots }

  unfoldable pub len : PodString → ℕ
  len s = Prefix.clamped_len c s.prefix

  unfoldable pub is_empty : PodString → Bool
  unfolding len
  is_empty s = len s == 0

  -- `as_bytes`; `as_str` shows the same bytes, unchecked.
  unfoldable pub as_bytes : PodString → List ℕ
  unfolding len
  as_bytes s = take (len s) s.slots

  unfoldable pub try_as_str : PodString → Result PinaPodError (List ℕ)
  unfolding try_decode_len
  try_as_str s = do
    raw_len ← try_decode_len s
    ensure (leb raw_len c.n) invalid_length
    let bytes = take raw_len s.slots
    ensure (is_utf8 bytes) invalid_utf8
    ok bytes

  -- `impl ZcValidate for PodString`
  unfoldable pub validate_ref : PodString → Checked
  unfolding try_decode_len
  validate_ref s = do
    raw_len ← try_decode_len s
    ensure (leb raw_len c.n) invalid_length
    let bytes = take raw_len s.slots
    ensure (is_utf8 bytes) invalid_utf8

  unfoldable pub try_set : PodString → List ℕ → PodString × Checked
  unfolding len encode_len zero_range
  try_set s value =
      let vlen = length value in
      if ltb c.n vlen
      then (s, err overflow)
      else (let old_len = len s in
          let copied = record s { slots = copy_at 0 value s.slots } in
          let vacated = if ltb vlen old_len then zero_range copied vlen old_len else copied in
          (encode_len vacated vlen, ok tt))

  -- `cur.checked_add(vlen).ok_or(Overflow)?`
  unfoldable pub checked_add : ℕ → ℕ → Result PinaPodError ℕ
  checked_add cur vlen = if ltb c.usize_max (cur + vlen) then err overflow else ok (cur + vlen)

  unfoldable pub try_push_str : PodString → List ℕ → PodString × Checked
  unfolding len encode_len
  try_push_str s value =
      let cur = len s in
      elim (checked_add cur (length value)) [
        | err e ↦ (s, err e)
        | ok new_len ↦
            if ltb c.n new_len
            then (s, err overflow)
            else (encode_len (record s { slots = copy_at cur value s.slots }) new_len, ok tt)
      ]

  unfoldable pub truncate : PodString → ℕ → PodString
  unfolding len encode_len zero_range as_bytes
  truncate s new_len =
      let boundary = round_down (as_bytes s) new_len in
      if leb (len s) new_len then s else encode_len (zero_range s boundary (len s)) boundary

  unfoldable pub clear : PodString → PodString
  unfolding len zero_range
  clear s = record (zero_range s 0 (len s)) { prefix = replicate c.pfx 0 }

  unfoldable pub new_default : PodString
  new_default = record { prefix = replicate c.pfx 0; slots = replicate c.n 0 }

  -- `impl TryFrom<&str>`
  unfoldable pub try_from : List ℕ → Result PinaPodError PodString
  unfolding new_default try_push_str
  try_from value = let (s, done) = try_push_str new_default value in done >> ok s

  unfoldable pub eq : PodString → PodString → Bool
  unfolding as_bytes bytes_eq
  eq s other = bytes_eq (as_bytes s) (as_bytes other)

  unfoldable pub eq_str : PodString → List ℕ → Bool
  unfolding as_bytes bytes_eq
  eq_str s other = bytes_eq (as_bytes s) other
