-- ===== src/Pod/Elems.antt =====
-- The `ZcElem` implementations of pinapod/src/traits.rs for booleans and integers, and their byte
-- layout.
use pinapod.Base.{ℕ, ◌≡◌, refl, sym, arith, List, [], ◌∷◌, get_or}
use pinapod.Base.{length, replicate, length-replicate}
use pinapod.Error.{ok}
use pinapod.Elem.{ZcElem, IsZcElem, walk, walking, trivial}
use pinapod.Pod.Flag.{PodBool}
use pinapod.Pod.Flag
use pinapod.Pod.Int.{PodInt}

instance unfoldable pub bool_elem : ZcElem PodBool
bool_elem = record {
  validate = walking Flag.validate_ref;
  size = 1;
  zeroed = record { byte = 0 };
  from_bytes = λ bs. record { byte = get_or bs 0 0 };
  to_bytes = λ p. p.byte ∷ [];
}

unfoldable pub int_elem : ℕ → ZcElem PodInt
int_elem k = record {
  validate = trivial;
  size = k;
  zeroed = record { bytes = replicate k 0 };
  from_bytes = λ bs. record { bytes = bs };
  to_bytes = λ p. p.bytes;
}

single : (bs : List ℕ) → length bs ≡ 1 → get_or bs 0 0 ∷ [] ≡ bs
single [] h = absurd (omega arith)
single (b ∷ []) h = refl
single (b ∷ d ∷ bs) h = absurd (omega arith)

walk-trivial : {T : Type 0} (xs : List T) → walk (λ _. ok tt) xs ≡ ok tt
walk-trivial [] = refl
walk-trivial (x ∷ xs) = walk-trivial xs

-- A boolean is one byte, and each byte is a value of the stored type.
pub bool_elem-IsZcElem : IsZcElem bool_elem
unfolding bool_elem
bool_elem-IsZcElem = record {
  Fits = λ _. Unit {0};
  validate_slice-walk = λ _. refl;
  validate_array-walk = λ _. refl;
  length-to_bytes = λ _ _. refl;
  from_bytes-to_bytes = λ _ _. refl;
  to_bytes-from_bytes = single;
  from_bytes-Fits = λ _ _. tt;
  to_bytes-zeroed = refl;
  zeroed-Fits = tt;
}

pub bool_elem-fits : (p : PodBool) → bool_elem-IsZcElem.Fits p
unfolding bool_elem-IsZcElem
bool_elem-fits p = tt

-- An integer is its bytes; its overrides of the walks skip no check.
pub int_elem-IsZcElem : (k : ℕ) → IsZcElem (int_elem k)
unfolding int_elem
int_elem-IsZcElem k = record {
  Fits = λ p. length p.bytes ≡ k;
  validate_slice-walk = λ xs. sym (walk-trivial xs);
  validate_array-walk = λ xs. sym (walk-trivial xs);
  length-to_bytes = λ _ h. h;
  from_bytes-to_bytes = λ _ _. refl;
  to_bytes-from_bytes = λ _ _. refl;
  from_bytes-Fits = λ _ h. h;
  to_bytes-zeroed = refl;
  zeroed-Fits = length-replicate k 0;
}
