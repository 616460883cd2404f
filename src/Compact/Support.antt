-- ===== src/Compact/Support.antt =====
-- The support functions that `generate_support` of pinapod-derive/src/compact.rs emits into each
-- compact schema. `um` is `usize::MAX` of the target.
use pinapod.Base.{ℕ, zero, suc, ◌+◌, ◌-◌, ◌*◌, ◌%◌, ◌^◌, Option, none, some, ◌&&◌, ◌||◌, List}
use pinapod.Base.{ltb, leb, ◌==◌, if◌then◌else◌, length, take, drop}
use pinapod.Base.Memory.{copy_at}
use pinapod.Base.Bytes.{to_le_bytes, from_le_bytes}
use pinapod.Error.{
  PinaPodError, buffer_too_small, overflow, invalid_length, Result, ok, err, ◌>>=◌, ◌>>◌,
}
use pinapod.Elem.{Checked}

-- `Option::ok_or`
abbrev pub ok_or {ℓ κ} : {A : Type ℓ} {E : Type κ} → Option A → E → Result E A
ok_or (some a) e = ok a
ok_or none e = err e

-- `data.get(lo..hi)`
abbrev pub get_range : List ℕ → ℕ → ℕ → Option (List ℕ)
get_range bytes lo hi =
    if leb lo hi && leb hi (length bytes) then some (take (hi - lo) (drop lo bytes)) else none

module _ (um : ℕ) where
  unfoldable pub checked_add : ℕ → ℕ → Result PinaPodError ℕ
  checked_add left right = if ltb um (left + right) then err overflow else ok (left + right)

  unfoldable pub checked_mul : ℕ → ℕ → Result PinaPodError ℕ
  checked_mul left right = if ltb um (left * right) then err overflow else ok (left * right)

  unfoldable pub prefix_max : ℕ → Option ℕ
  prefix_max width =
      if width == 1
      then some 255
      else if width == 2
      then some 65535
      else if width == 4
      then (if ltb um 4294967295 then none else some 4294967295)
      else if width == 8
      then some um
      else none

  unfoldable pub check_prefix : ℕ → ℕ → Checked
  unfolding prefix_max
  check_prefix value width = elim (prefix_max width) [
    | some max ↦ if leb value max then ok tt else err overflow
    | none ↦ err overflow
  ]

  unfoldable pub decode_prefix : List ℕ → Result PinaPodError ℕ
  decode_prefix bytes =
      let width = length bytes in
      if width == 1 || width == 2 || width == 4 || width == 8
      then (if ltb um (from_le_bytes bytes) then err invalid_length else ok (from_le_bytes bytes))
      else err invalid_length

  unfoldable pub read_prefix : List ℕ → ℕ → ℕ → Result PinaPodError ℕ
  unfolding checked_add decode_prefix
  read_prefix bytes offset width = do
    end ← checked_add offset width
    found ← ok_or (get_range bytes offset end) buffer_too_small
    decode_prefix found

  -- The buffer afterwards, and the result.
  unfoldable pub write_prefix : List ℕ → ℕ → ℕ → ℕ → Result PinaPodError (List ℕ)
  unfolding checked_add check_prefix
  write_prefix bytes offset width value = do
    check_prefix value width
    end ← checked_add offset width
    found ← ok_or (get_range bytes offset end) buffer_too_small
    ok (copy_at offset (take width (to_le_bytes 8 (value % 2 ^ 64))) bytes)

-- `while right != 0 { … }`, with a bound on the rounds.
unfoldable pub gcd_loop : ℕ → ℕ → ℕ → ℕ
gcd_loop zero left right = left
gcd_loop (suc rounds) left right =
    let rest = gcd_loop rounds right (left % right) in if right == 0 then left else rest

-- The second argument falls in each round.
unfoldable pub gcd : ℕ → ℕ → ℕ
unfolding gcd_loop
gcd left right = gcd_loop (suc right) left right
