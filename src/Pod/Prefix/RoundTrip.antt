-- ===== src/Pod/Prefix/RoundTrip.antt =====
-- Decoding and encoding the length prefix.
use pinapod.Base.{ℕ, zero, suc, ◌/◌, ◌%◌, ◌^◌, ◌≤◌, ◌<◌, ◌≡◌, refl, ap, ◌∙◌, sym, arith}
use pinapod.Base.{◌⊎◌, inl, inr, List, [], ◌∷◌, ltb}
use pinapod.Base.{length, take, replicate, get_or, set, if◌then◌else◌, All}
use pinapod.Base.Memory.{copy_at}
use pinapod.Base.Bytes.{IsByte, to_le_bytes, from_le_bytes, take-to_le_bytes, length-to_le_bytes}
use pinapod.Base.Bytes.{from_le_bytes-to_le_bytes, from_le_bytes-zeros, from_le_bytes-lt}
use pinapod.Base.Bytes.{to_le_bytes-IsByte}
use pinapod.Error.{invalid_length, ok, err}
use pinapod.Pod.Prefix.{Layout, IsLayout, cap_check, try_decode_len, encode_len}

-- The check admits four widths, and bounds the capacity by what the prefix can hold.
pub IsLayout-cases :
    {c : Layout}
    → IsLayout c
    → ((c.pfx ≡ 1) × (c.n < 2 ^ 8))
      ⊎ ((c.pfx ≡ 2) × (c.n < 2 ^ 16))
      ⊎ ((c.pfx ≡ 4) × (c.n < 2 ^ 32))
      ⊎ ((c.pfx ≡ 8) × (c.n ≤ c.usize_max))
unfolding cap_check
IsLayout-cases {c} l = ground arith

-- The zero bytes of the wider buffer do not change the number.
from_le_bytes-copy_at :
    (bs : List ℕ) (m : ℕ)
    → length bs ≤ m
    → from_le_bytes (copy_at 0 bs (replicate m 0)) ≡ from_le_bytes bs
from_le_bytes-copy_at [] zero h = refl
from_le_bytes-copy_at [] (suc m) h = from_le_bytes-zeros (suc m)
from_le_bytes-copy_at (b ∷ bs) zero h = absurd (omega arith)
from_le_bytes-copy_at (b ∷ bs) (suc m) h = omega (arith, from_le_bytes-copy_at bs m (omega arith))

one_byte : (bs : List ℕ) → length bs ≡ 1 → get_or bs 0 0 ≡ from_le_bytes bs
one_byte [] h = absurd (omega arith)
one_byte (b ∷ []) h = omega arith
one_byte (b ∷ d ∷ bs) h = absurd (omega arith)

two_bytes :
    (bs : List ℕ)
    → length bs ≡ 2
    → from_le_bytes (get_or bs 0 0 ∷ get_or bs 1 0 ∷ []) ≡ from_le_bytes bs
two_bytes [] h = absurd (omega arith)
two_bytes (b ∷ []) h = absurd (omega arith)
two_bytes (b ∷ d ∷ []) h = refl
two_bytes (b ∷ d ∷ e ∷ bs) h = absurd (omega arith)

one_write : (bs : List ℕ) (v : ℕ) → length bs ≡ 1 → set bs 0 v ≡ v ∷ []
one_write [] v h = absurd (omega arith)
one_write (b ∷ []) v h = refl
one_write (b ∷ d ∷ bs) v h = absurd (omega arith)

two_writes : (bs : List ℕ) (v w : ℕ) → length bs ≡ 2 → set (set bs 0 v) 1 w ≡ v ∷ w ∷ []
two_writes [] v w h = absurd (omega arith)
two_writes (b ∷ []) v w h = absurd (omega arith)
two_writes (b ∷ d ∷ []) v w h = refl
two_writes (b ∷ d ∷ e ∷ bs) v w h = absurd (omega arith)

whole_write : (bs vs : List ℕ) → length vs ≡ length bs → copy_at 0 vs bs ≡ vs
whole_write [] [] h = refl
whole_write [] (v ∷ vs) h = absurd (omega arith)
whole_write (b ∷ bs) [] h = absurd (omega arith)
whole_write (b ∷ bs) (v ∷ vs) h = ap (λ l. v ∷ l) (whole_write bs vs (omega arith))

low_bytes : (k n : ℕ) → k ≤ 8 → n < 2 ^ 64 → take k (to_le_bytes 8 (n % 2 ^ 64)) ≡ to_le_bytes k n
low_bytes k n h small =
    let e : n % 2 ^ 64 ≡ n = omega arith in
    ap (λ m. take k (to_le_bytes 8 m)) e ∙ take-to_le_bytes k 8 n h

-- The decoder reads the little-endian number, and fails only where that exceeds `usize`.
pub try_decode_len_lem :
    {c : Layout}
    → IsLayout c
    → (prefix : List ℕ) → length prefix ≡ c.pfx
    → All IsByte prefix
    → try_decode_len c prefix ≡ (
        if ltb c.usize_max (from_le_bytes prefix)
        then err invalid_length
        else ok (from_le_bytes prefix))
unfolding try_decode_len
try_decode_len_lem {c} l prefix h b = elim (IsLayout-cases l) [
  | inl (e, small) ↦
      let low : from_le_bytes prefix < 256 = rw (h ∙ e) at (from_le_bytes-lt prefix b) in
      ground (arith, one_byte prefix (h ∙ e))
  | inr (inl (e, small)) ↦
      let low : from_le_bytes prefix < 65536 = rw (h ∙ e) at (from_le_bytes-lt prefix b) in
      ground (arith, two_bytes prefix (h ∙ e))
  | inr (inr (inl (e, small))) ↦ ground (arith, from_le_bytes-copy_at prefix 8 (omega arith))
  | inr (inr (inr (e, small))) ↦ ground (arith, from_le_bytes-copy_at prefix 8 (omega arith))
]

-- The encoder replaces the whole prefix, whatever it held.
encode_len_lem :
    {c : Layout}
    → IsLayout c
    → (n : ℕ) (prefix : List ℕ) → length prefix ≡ c.pfx
    → n ≤ c.n
    → encode_len c n prefix ≡ to_le_bytes c.pfx n
unfolding encode_len
encode_len_lem {c} l n prefix h small = elim (IsLayout-cases l) [
  | inl (e, top) ↦ ground (arith, ap (λ k. to_le_bytes k n) e, one_write prefix (n % 2 ^ 8) (h ∙ e))
  | inr (inl (e, top)) ↦ ground (
    arith,
    ap (λ k. to_le_bytes k n) e,
    two_writes prefix (n % 2 ^ 16 % 256) (n % 2 ^ 16 / 256 % 256) (h ∙ e),
  )
  | inr (inr (inl (e, top))) ↦ ground (
    arith,
    low_bytes c.pfx n (omega arith) (omega arith),
    whole_write prefix (to_le_bytes c.pfx n) (length-to_le_bytes c.pfx n ∙ sym h),
  )
  | inr (inr (inr (e, top))) ↦ ground (
    arith,
    low_bytes c.pfx n (omega arith) (omega arith),
    whole_write prefix (to_le_bytes c.pfx n) (length-to_le_bytes c.pfx n ∙ sym h),
  )
]

pub length-encode_len :
    {c : Layout}
    → IsLayout c
    → (n : ℕ) (prefix : List ℕ) → length prefix ≡ c.pfx
    → n ≤ c.n
    → length (encode_len c n prefix) ≡ c.pfx
length-encode_len {c} l n prefix h small =
    ap length (encode_len_lem l n prefix h small) ∙ length-to_le_bytes c.pfx n

pub encode_len-IsByte :
    {c : Layout}
    → IsLayout c
    → (n : ℕ) (prefix : List ℕ) → length prefix ≡ c.pfx
    → n ≤ c.n
    → All IsByte (encode_len c n prefix)
encode_len-IsByte {c} l n prefix h small =
    rw (encode_len_lem l n prefix h small) (to_le_bytes-IsByte c.pfx n)

-- A length up to the capacity is below what the prefix can hold, and below `usize::MAX`.
pub fits_prefix :
    {c : Layout} → IsLayout c → (n : ℕ) → n ≤ c.n → (n < 256 ^ c.pfx) × (n ≤ c.usize_max)
fits_prefix {c} l n small = elim (IsLayout-cases l) [
  | inl (e, top) ↦ (rw e (omega arith), omega arith)
  | inr (inl (e, top)) ↦ (rw e (omega arith), omega arith)
  | inr (inr (inl (e, top))) ↦ (rw e (omega arith), omega arith)
  | inr (inr (inr (e, top))) ↦ (rw e (omega arith), omega arith)
]

-- In a layout that the compile-time check admits, a length up to the capacity is read back from
-- every prefix of the right width that it was written into.
pub try_decode_len-encode_len :
    {c : Layout}
    → IsLayout c
    → (n : ℕ) (prefix : List ℕ) → length prefix ≡ c.pfx
    → n ≤ c.n
    → try_decode_len c (encode_len c n prefix) ≡ ok n
try_decode_len-encode_len {c} l n prefix h small =
    let written = encode_len_lem l n prefix h small in
    let (room, top) = fits_prefix l n small in
    ground (
      arith,
      try_decode_len_lem l (encode_len c n prefix) (length-encode_len l n prefix h small)
          (encode_len-IsByte l n prefix h small),
      ap from_le_bytes written,
      from_le_bytes-to_le_bytes c.pfx n room,
    )
