-- ===== src/Pod/Maybe.antt =====
-- `PodOption<T, PFX>` of pinapod/src/pod/option.rs: a tag of `PFX` bytes and a payload.
pub mod Laws
use pinapod.Base.{ℕ, zero, suc, ◌%◌, ◌^◌, Bool, true, false, not, ◌||◌, Option, none, some}
use pinapod.Base.{List, [], ◌∷◌, leb, ◌==◌, if◌then◌else◌, get_or, set, replicate}
use pinapod.Base.Memory.{copy_at}
use pinapod.Base.Bytes.{to_le_bytes, from_le_bytes}
use pinapod.Error.{PinaPodError, invalid_tag, Result, ok, err, ◌>>=◌, ◌>>◌}
use pinapod.Elem.{ZcElem, Checked}

pub record PodOption (T : Type 0) : Type 0 where
  pub tag : List ℕ
  pub value : T

-- `_PFX_CHECK`, whose failure is a compile error.
unfoldable pub pfx_check : ℕ → Bool
pfx_check pfx = pfx == 1 || pfx == 2 || pfx == 4 || pfx == 8

-- `[tag[i], tag[i + 1], …]`, of `k` bytes.
abbrev pub bytes_at : ℕ → ℕ → List ℕ → List ℕ
bytes_at i zero tag = []
bytes_at i (suc k) tag = get_or tag i 0 ∷ bytes_at (suc i) k tag

-- `encode_tag(v: u32)`
unfoldable pub encode_tag : ℕ → ℕ → List ℕ
encode_tag pfx v =
    let buf = replicate pfx 0 in
    if pfx == 1
    then set buf 0 (v % 2 ^ 8)
    else if pfx == 2
    then (let bytes = to_le_bytes 2 (v % 2 ^ 16) in
        set (set buf 0 (get_or bytes 0 0)) 1 (get_or bytes 1 0))
    else if pfx == 4
    then copy_at 0 (to_le_bytes 4 v) buf
    else copy_at 0 (to_le_bytes 8 v) buf

module _ {T : Type 0} (pfx : ℕ) where
  unfoldable pub decode_tag : PodOption T → ℕ
  decode_tag p =
      if pfx == 1
      then get_or p.tag 0 0
      else if pfx == 2
      then from_le_bytes (bytes_at 0 2 p.tag)
      else if pfx == 4
      then from_le_bytes (bytes_at 0 4 p.tag)
      else from_le_bytes (bytes_at 0 8 p.tag)

  unfoldable pub raw_tag : PodOption T → ℕ
  raw_tag p = decode_tag p

  unfoldable pub some_value : T → PodOption T
  some_value v = record { tag = encode_tag pfx 1; value = v }

  unfoldable pub is_some : PodOption T → Bool
  is_some p = decode_tag p == 1

  unfoldable pub is_none : PodOption T → Bool
  unfolding is_some
  is_none p = not (is_some p)

  -- `get`; `get_ref` borrows the same value.
  unfoldable pub get : PodOption T → Option T
  unfolding is_some
  get p = if is_some p then some p.value else none

  unfoldable pub tag_valid : PodOption T → Bool
  unfolding raw_tag
  tag_valid p = leb (raw_tag p) 1

  unfoldable pub unwrap_or : PodOption T → T → T
  unfolding get
  unwrap_or p default = elim (get p) [ some v ↦ v | none ↦ default ]

  unfoldable pub map_or : {U : Type 0} → PodOption T → U → (T → U) → U
  unfolding get
  map_or p default f = elim (get p) [ some v ↦ f v | none ↦ default ]

  unfoldable pub replace : PodOption T → T → PodOption T × Option T
  unfolding get
  replace p v = (record { tag = encode_tag pfx 1; value = v }, get p)

  -- `PartialEq`, over the payload's own.
  unfoldable pub eq : (T → T → Bool) → PodOption T → PodOption T → Bool
  unfolding get
  eq same p q = elim (get p) [
    | some a ↦ elim (get q) [ some b ↦ same a b | none ↦ false ]
    | none ↦ elim (get q) [ some b ↦ false | none ↦ true ]
  ]

module _ {T : Type 0} ⦃z : ZcElem T⦄ (pfx : ℕ) where
  unfoldable pub none_value : PodOption T
  none_value = record { tag = replicate pfx 0; value = z.zeroed }

  unfoldable pub try_get_ref : PodOption T → Result PinaPodError (Option T)
  unfolding raw_tag
  try_get_ref p =
      if raw_tag pfx p == 0
      then ok none
      else if raw_tag pfx p == 1
      then (z.validate_ref p.value >> ok (some p.value))
      else err invalid_tag

  -- `impl ZcValidate for PodOption`
  unfoldable pub validate_ref : PodOption T → Checked
  unfolding raw_tag
  validate_ref p =
      if raw_tag pfx p == 0
      then ok tt
      else if raw_tag pfx p == 1
      then z.validate_ref p.value
      else err invalid_tag

  unfoldable pub set_option : PodOption T → Option T → PodOption T
  set_option p (some v) = record p { tag = encode_tag pfx 1; value = v }
  set_option p none = record p { tag = replicate pfx 0; value = z.zeroed }

  unfoldable pub take : PodOption T → PodOption T × Option T
  unfolding get
  take p = (record p { tag = replicate pfx 0; value = z.zeroed }, get pfx p)

  unfoldable pub clear : PodOption T → PodOption T
  clear p = record p { tag = replicate pfx 0; value = z.zeroed }
