-- ===== src/Pod/Int.antt =====
-- The integer pods of pinapod/src/pod/numeric.rs: `define_pod_integer!`, over the native integer
-- type that the macro is given.
pub mod Unsigned
pub mod Laws
pub mod Arith
use pinapod.Base.{ℕ, ◌≡◌, Bool, Option, none, some, List, [], ◌∷◌, replicate, ◌==◌, if◌then◌else◌}
use pinapod.Base.Bytes.{bytes_eq}
use Prim.Native.Nat.{Ordering}

-- What the macro uses of a native integer: its size in bytes, its bounds, the two conversions, its
-- order, and the three families of operations.
pub record Native (I : Type 0) : Type 0 where
  pub size : ℕ
  pub largest : I
  pub smallest : I
  pub to_le_bytes : I → List ℕ
  pub from_le_bytes : List ℕ → I
  pub compare : I → I → Ordering
  pub checked_add : I → I → Option I
  pub checked_sub : I → I → Option I
  pub checked_mul : I → I → Option I
  pub checked_div : I → I → Option I
  pub wrapping_add : I → I → I
  pub wrapping_sub : I → I → I
  pub wrapping_mul : I → I → I
  pub saturating_add : I → I → I
  pub saturating_sub : I → I → I
  pub saturating_mul : I → I → I

-- `struct $name([u8; $size])`
pub record PodInt : Type 0 where
  pub bytes : List ℕ

module _ {I : Type 0} (n : Native I) where
  unfoldable pub zero_value : PodInt
  zero_value = record { bytes = replicate n.size 0 }

  unfoldable pub max_value : PodInt
  max_value = record { bytes = n.to_le_bytes n.largest }

  unfoldable pub min_value : PodInt
  min_value = record { bytes = n.to_le_bytes n.smallest }

  -- `get`; `get_volatile` reads the same bytes.
  unfoldable pub get : PodInt → I
  get p = n.from_le_bytes p.bytes

  -- `set`; `set_volatile` writes the same bytes.
  unfoldable pub set : PodInt → I → PodInt
  set p value = record p { bytes = n.to_le_bytes value }

  unfoldable pub is_zero : PodInt → Bool
  unfolding bytes_eq
  is_zero p = bytes_eq p.bytes (replicate n.size 0)

  -- `impl From<$native> for $name`
  unfoldable pub from : I → PodInt
  from value = record { bytes = n.to_le_bytes value }

  -- `.map(Self::from)`
  unfoldable pub from_option : Option I → Option PodInt
  unfolding from
  from_option (some value) = some (from value)
  from_option none = none

  unfoldable pub checked_add : PodInt → PodInt → Option PodInt
  unfolding get from_option
  checked_add p rhs = from_option (n.checked_add (get p) (get rhs))

  unfoldable pub checked_sub : PodInt → PodInt → Option PodInt
  unfolding get from_option
  checked_sub p rhs = from_option (n.checked_sub (get p) (get rhs))

  unfoldable pub checked_mul : PodInt → PodInt → Option PodInt
  unfolding get from_option
  checked_mul p rhs = from_option (n.checked_mul (get p) (get rhs))

  unfoldable pub checked_div : PodInt → PodInt → Option PodInt
  unfolding get from_option
  checked_div p rhs = from_option (n.checked_div (get p) (get rhs))

  unfoldable pub wrapping_add : PodInt → PodInt → PodInt
  unfolding get from
  wrapping_add p rhs = from (n.wrapping_add (get p) (get rhs))

  unfoldable pub wrapping_sub : PodInt → PodInt → PodInt
  unfolding get from
  wrapping_sub p rhs = from (n.wrapping_sub (get p) (get rhs))

  unfoldable pub wrapping_mul : PodInt → PodInt → PodInt
  unfolding get from
  wrapping_mul p rhs = from (n.wrapping_mul (get p) (get rhs))

  unfoldable pub saturating_add : PodInt → PodInt → PodInt
  unfolding get from
  saturating_add p rhs = from (n.saturating_add (get p) (get rhs))

  unfoldable pub saturating_sub : PodInt → PodInt → PodInt
  unfolding get from
  saturating_sub p rhs = from (n.saturating_sub (get p) (get rhs))

  unfoldable pub saturating_mul : PodInt → PodInt → PodInt
  unfolding get from
  saturating_mul p rhs = from (n.saturating_mul (get p) (get rhs))

  -- `PartialEq`, on the bytes.
  unfoldable pub eq : PodInt → PodInt → Bool
  unfolding bytes_eq
  eq p other = bytes_eq p.bytes other.bytes

  -- `Ord`, on the numbers.
  unfoldable pub cmp : PodInt → PodInt → Ordering
  unfolding get
  cmp p other = n.compare (get p) (get other)
