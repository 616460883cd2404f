-- ===== src/Base/Bytes.antt =====
-- Little-endian byte strings: `to_le_bytes` and `from_le_bytes` of Rust's unsigned integers.
use Prim.Native.Nat.{ℕ, zero, suc, ◌+◌, ◌*◌, ◌/◌, ◌%◌, ◌^◌, ◌≤◌, ◌<◌}
use mathlib.Core.Path.{◌≡◌, refl, ap, ap₂, ◌∙◌}
use mathlib.Core.List.{List, [], ◌∷◌, ◌++◌}
use native.Mathlib.Nat.{pow-suc}
use native.Mathlib.Omega.{arith}
use mathlib.Core.Bool.{Bool, true, false}
use pinapod.Base.Tests.{◌==◌, if◌then◌else◌}
use pinapod.Base.Lists.{length, All, replicate, take}

abbrev pub IsByte : ℕ → Type 0
IsByte b = b < 256

-- The low `k` bytes of a number.
abbrev pub to_le_bytes : ℕ → ℕ → List ℕ
to_le_bytes zero n = []
to_le_bytes (suc k) n = n % 256 ∷ to_le_bytes k (n / 256)

abbrev pub from_le_bytes : List ℕ → ℕ
from_le_bytes [] = 0
from_le_bytes (b ∷ bs) = b + 256 * from_le_bytes bs

pub length-to_le_bytes : (k n : ℕ) → length (to_le_bytes k n) ≡ k
length-to_le_bytes zero n = refl
length-to_le_bytes (suc k) n = ap suc (length-to_le_bytes k (n / 256))

pub to_le_bytes-IsByte : (k n : ℕ) → All IsByte (to_le_bytes k n)
to_le_bytes-IsByte zero n = tt
to_le_bytes-IsByte (suc k) n = (omega arith, to_le_bytes-IsByte k (n / 256))

pub from_le_bytes-lt : (bs : List ℕ) → All IsByte bs → from_le_bytes bs < 256 ^ length bs
from_le_bytes-lt [] h = omega arith
from_le_bytes-lt (b ∷ bs) h = rw pow-suc (omega (arith, from_le_bytes-lt bs h.1))

pub from_le_bytes-to_le_bytes : (k n : ℕ) → n < 256 ^ k → from_le_bytes (to_le_bytes k n) ≡ n
from_le_bytes-to_le_bytes zero n h = omega arith
from_le_bytes-to_le_bytes (suc k) n h =
    let small : n < 256 ^ k * 256 = rw pow-suc at h in
    omega (arith, from_le_bytes-to_le_bytes k (n / 256) (omega arith))

pub to_le_bytes-from_le_bytes :
    (bs : List ℕ) → All IsByte bs → to_le_bytes (length bs) (from_le_bytes bs) ≡ bs
to_le_bytes-from_le_bytes [] h = refl
to_le_bytes-from_le_bytes (b ∷ bs) h =
    ap₂ ◌∷◌ (omega arith)
      (ap (to_le_bytes (length bs)) (omega arith) ∙ to_le_bytes-from_le_bytes bs h.1)

-- A shorter prefix of the encoding is the shorter encoding.
pub take-to_le_bytes : (k j n : ℕ) → k ≤ j → take k (to_le_bytes j n) ≡ to_le_bytes k n
take-to_le_bytes zero j n h = refl
take-to_le_bytes (suc k) zero n h = absurd (omega arith)
take-to_le_bytes (suc k) (suc j) n h =
    ap (λ l. n % 256 ∷ l) (take-to_le_bytes k j (n / 256) (omega arith))

-- Zero bytes at the end add nothing.
pub from_le_bytes-append_zeros :
    (bs : List ℕ) (j : ℕ) → from_le_bytes (bs ++ replicate j 0) ≡ from_le_bytes bs
from_le_bytes-append_zeros [] zero = refl
from_le_bytes-append_zeros [] (suc j) = omega (arith, from_le_bytes-append_zeros [] j)
from_le_bytes-append_zeros (b ∷ bs) j = omega (arith, from_le_bytes-append_zeros bs j)

pub from_le_bytes-zeros : (j : ℕ) → from_le_bytes (replicate j 0) ≡ 0
from_le_bytes-zeros zero = refl
from_le_bytes-zeros (suc j) = omega (arith, from_le_bytes-zeros j)

-- `<[u8] as PartialEq>::eq`
unfoldable pub bytes_eq : List ℕ → List ℕ → Bool
bytes_eq [] [] = true
bytes_eq [] (y ∷ ys) = false
bytes_eq (x ∷ xs) [] = false
bytes_eq (x ∷ xs) (y ∷ ys) = if x == y then bytes_eq xs ys else false

pub bytes_eq_refl : (xs : List ℕ) → bytes_eq xs xs ≡ true
unfolding bytes_eq
bytes_eq_refl [] = refl
bytes_eq_refl (x ∷ xs) = ground (arith, bytes_eq_refl xs)

pub bytes_eq→eq : (xs ys : List ℕ) → bytes_eq xs ys ≡ true → xs ≡ ys
unfolding bytes_eq
bytes_eq→eq [] [] h = refl
bytes_eq→eq [] (y ∷ ys) h = cc
bytes_eq→eq (x ∷ xs) [] h = cc
bytes_eq→eq (x ∷ xs) (y ∷ ys) h = ground (arith, bytes_eq→eq xs ys)
