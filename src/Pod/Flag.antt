-- ===== src/Pod/Flag.antt =====
-- `PodBool` of pinapod/src/pod/bool.rs: one byte, of which any but zero reads as `true`.
use pinapod.Base.{ℕ, ◌≡◌, refl, ◌↔◌, arith, Bool, true, false, not, ◌&&◌, ◌||◌}
use pinapod.Base.{ltb, ◌==◌, if◌then◌else◌}
use pinapod.Error.{invalid_bool, ok, err}
use pinapod.Elem.{Checked}

pub record PodBool : Type 0 where
  pub byte : ℕ

-- `value as u8`
abbrev pub as_u8 : Bool → ℕ
as_u8 false = 0
as_u8 true = 1

abbrev pub bool_eq : Bool → Bool → Bool
bool_eq true b = b
bool_eq false b = not b

unfoldable pub get : PodBool → Bool
get p = not (p.byte == 0)

unfoldable pub is_false : PodBool → Bool
unfolding get
is_false p = not (get p)

unfoldable pub set : PodBool → Bool → PodBool
set p value = record { byte = as_u8 value }

unfoldable pub from_bool : Bool → PodBool
from_bool v = record { byte = as_u8 v }

unfoldable pub eq : PodBool → PodBool → Bool
unfolding get
eq p other = bool_eq (get p) (get other)

unfoldable pub negate : PodBool → PodBool
unfolding get from_bool
negate p = from_bool (not (get p))

unfoldable pub bitand : PodBool → Bool → PodBool
unfolding get from_bool
bitand p rhs = from_bool (get p && rhs)

unfoldable pub bitor : PodBool → Bool → PodBool
unfolding get from_bool
bitor p rhs = from_bool (get p || rhs)

-- `impl ZcValidate for PodBool`
unfoldable pub validate_ref : PodBool → Checked
validate_ref p = if ltb 1 p.byte then err invalid_bool else ok tt

-- Whatever byte was stored, a value that is set is read back and passes validation, and so is the
-- value of a new boolean read back.
pub get-set :
    (p : PodBool) (v : Bool)
    → (get (set p v) ≡ v) × (get (from_bool v) ≡ v) × (validate_ref (set p v) ≡ ok tt)
unfolding get set from_bool validate_ref
get-set p true = (refl, refl, refl)
get-set p false = (refl, refl, refl)

-- The Boolean operations on any stored byte give the operation of the values read, and their
-- results pass validation.
pub operations_lem :
    (p : PodBool) (b : Bool)
    → (get (negate p) ≡ not (get p))
      × (get (bitand p b) ≡ (get p && b))
      × (get (bitor p b) ≡ (get p || b))
      × (is_false p ≡ not (get p))
      × (validate_ref (negate p) ≡ ok tt)
      × (validate_ref (bitand p b) ≡ ok tt)
      × (validate_ref (bitor p b) ≡ ok tt)
unfolding negate bitand bitor is_false validate_ref
operations_lem p b = ground arith

-- Validation accepts exactly the booleans whose byte is what the value they read as is stored as.
pub validate_ref_iff : (p : PodBool) → (validate_ref p ≡ ok tt) ↔ (from_bool (get p) ≡ p)
unfolding validate_ref get from_bool
validate_ref_iff p = ground arith

-- Two booleans are equal exactly when they read as the same value, also where their bytes differ.
pub eq_iff_value : (p q : PodBool) → (eq p q ≡ true) ↔ (get p ≡ get q)
unfolding eq
eq_iff_value p q = ground arith
