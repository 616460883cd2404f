-- ===== src/Pod/Int/Unsigned.antt =====
-- Rust's unsigned integers of `k` bytes, as the macro uses them: numbers below `256 ^ k`.
use pinapod.Base.{ℕ, ◌+◌, ◌-◌, ◌*◌, ◌/◌, ◌%◌, ◌^◌, min, none, some, ltb, ◌==◌, if◌then◌else◌}
use pinapod.Base.Bytes
use Prim.Native.Nat
use Prim.Native.Nat.{Ordering}
use pinapod.Pod.Int.{Native}

abbrev pub modulus : ℕ → ℕ
modulus k = 256 ^ k

unfoldable pub unsigned : ℕ → Native ℕ
unsigned k = record {
  size = k;
  largest = modulus k - 1;
  smallest = 0;
  to_le_bytes = Bytes.to_le_bytes k;
  from_le_bytes = Bytes.from_le_bytes;
  compare = Nat.compare;
  checked_add = λ a b. if ltb (a + b) (modulus k) then some (a + b) else none;
  checked_sub = λ a b. if ltb a b then none else some (a - b);
  checked_mul = λ a b. if ltb (a * b) (modulus k) then some (a * b) else none;
  checked_div = λ a b. if b == 0 then none else some (a / b);
  wrapping_add = λ a b. (a + b) % modulus k;
  wrapping_sub = λ a b. (a + modulus k - b) % modulus k;
  wrapping_mul = λ a b. (a * b) % modulus k;
  saturating_add = λ a b. min (a + b) (modulus k - 1);
  saturating_sub = λ a b. a - b;
  saturating_mul = λ a b. min (a * b) (modulus k - 1);
}
