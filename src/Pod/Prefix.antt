-- ===== src/Pod/Prefix.antt =====
-- The length prefix of `PodString` (pinapod/src/pod/string.rs), which `PodVecRepr`
-- (pinapod/src/pod/vec.rs) repeats word for word: its decoder, its encoder, the clamp and the
-- compile-time check of the capacity.
pub mod RoundTrip
pub mod Views
use pinapod.Base.{
  ℕ, ◌+◌, ◌%◌, ◌^◌, ◌≤◌, ◌<◌, ◌≡◌, min, Bool, true, false, ◌&&◌, ◌||◌, List, [], ◌∷◌,
}
use pinapod.Base.{ltb, leb, ◌==◌, if◌then◌else◌, get_or, set, take, replicate}
use pinapod.Base.Memory.{copy_at}
use pinapod.Base.Bytes.{to_le_bytes, from_le_bytes}
use pinapod.Error.{PinaPodError, invalid_length, Result, ok, err}

-- The const generics `N` and `PFX` of a container, and `usize::MAX` of the target.
pub record Layout : Type 0 where
  pub usize_max : ℕ
  pub n : ℕ
  pub pfx : ℕ

unfoldable pub max_n_for_pfx : ℕ → ℕ → ℕ
max_n_for_pfx usize_max pfx =
    if pfx == 1
    then 255
    else if pfx == 2
    then 65535
    else if pfx == 4
    then 4294967295
    else if pfx == 8
    then usize_max
    else 0

-- `_CAP_CHECK`, whose failure is a compile error.
unfoldable pub cap_check : Layout → Bool
unfolding max_n_for_pfx
cap_check c =
    (c.pfx == 1 || c.pfx == 2 || c.pfx == 4 || c.pfx == 8)
    && leb c.n (max_n_for_pfx c.usize_max c.pfx)

-- `let mut buf = [0u8; 8]; buf[..PFX].copy_from_slice(&self.len)`
abbrev pub widened : List ℕ → List ℕ
widened prefix = copy_at 0 prefix (replicate 8 0)

unfoldable pub try_decode_len : Layout → List ℕ → Result PinaPodError ℕ
try_decode_len c prefix =
    if c.pfx == 1
    then ok (get_or prefix 0 0)
    else if c.pfx == 2
    then ok (from_le_bytes (get_or prefix 0 0 ∷ get_or prefix 1 0 ∷ []))
    else let raw = from_le_bytes (widened prefix) in
      if ltb c.usize_max raw then err invalid_length else ok raw

-- `Result::unwrap_or`
abbrev pub unwrap_or : Result PinaPodError ℕ → ℕ → ℕ
unwrap_or (ok n) d = n
unwrap_or (err e) d = d

unfoldable pub decode_len : Layout → List ℕ → ℕ
decode_len c prefix = unwrap_or (try_decode_len c prefix) c.usize_max

-- `len()`: the decoded prefix, clamped to the capacity.
unfoldable pub clamped_len : Layout → List ℕ → ℕ
unfolding decode_len
clamped_len c prefix = min (decode_len c prefix) c.n

-- `n as u8` and the like keep the low bytes.
unfoldable pub encode_len : Layout → ℕ → List ℕ → List ℕ
encode_len c n prefix =
    if c.pfx == 1
    then set prefix 0 (n % 2 ^ 8)
    else if c.pfx == 2
    then (let bytes = to_le_bytes 2 (n % 2 ^ 16) in
        set (set prefix 0 (get_or bytes 0 0)) 1 (get_or bytes 1 0))
    else copy_at 0 (take c.pfx (to_le_bytes 8 (n % 2 ^ 64))) prefix

-- What the compiler and the target guarantee of a container that exists: the check passed, and
-- `usize` has 32 to 64 bits.
pub record IsLayout (c : Layout) : Type 0 where
  pub checked : cap_check c ≡ true
  pub wide : 2 ^ 32 ≤ c.usize_max + 1
  pub narrow : c.usize_max < 2 ^ 64
