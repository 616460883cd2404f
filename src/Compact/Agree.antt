-- ===== src/Compact/Agree.antt =====
-- `diagnose` against `validate`: checked arithmetic against unchecked arithmetic.
use pinapod.Base.{ℕ, ◌+◌, ◌*◌, ◌/◌, ◌≤◌, ◌≡◌, refl, sym, arith, ◌⊎◌}
use pinapod.Base.{Option, none, some, Bool, true, false, not, List, leb, ◌==◌, length, All}
use pinapod.Base.Bytes.{IsByte}
use native.Mathlib.Nat.{le-div_iff_mul-le}
use pinapod.Error.{
  PinaPodError, Diagnostic, buffer_too_small, invalid_length, invalid_utf8, Result, ok, err, ◌>>=◌,
  ◌>>◌, ensure, into_error,
}
use pinapod.Utf8.{is_utf8}
use Prim.Native.String.{String}
use pinapod.Pod.Prefix.{cap_check}
use pinapod.Compact.Support.{ok_or, get_range, decode_prefix, checked_add, checked_mul}
use pinapod.Compact.{Element, TailPayload, string, vector, pfx_of, field_bytes}
use pinapod.Compact.{bounded_tail_end, bounded_byte_len, capacity_checks, IsTarget, validate_elems}
use pinapod.Compact.Walks.{always_bounds, semantic}
use pinapod.Compact.Diagnose.{diagnostic, named, always_probe}
use pinapod.Compact.Bounds.{bounded_tail_end_lem, bounded_byte_len_lem}

-- One step of a diagnosis against the same step of a validation, which goes on to a second part.
module _ {A B C : Type 0} (name : String) where
  pub agree-named :
      (m n : Result PinaPodError A) (k : A → Result Diagnostic B) (j : A → Result PinaPodError C)
      (f : C → Result PinaPodError B)
      → m ≡ n
      → ((x : A) → m ≡ ok x → into_error (k x) ≡ (j x >>= f))
      → into_error (named name m >>= k) ≡ ((n >>= j) >>= f)
  agree-named (ok x) n k j f e h = rw (← e) (h x refl)
  agree-named (err why) n k j f e h = rw (← e) refl

module _ {B C : Type 0} (name : String) where
  pub agree-ensure :
      (b : Bool) (e : PinaPodError) (k : Result Diagnostic B) (j : Result PinaPodError C)
      (f : C → Result PinaPodError B)
      → (b ≡ true → into_error k ≡ (j >>= f))
      → into_error (ensure b (diagnostic name e) >> k) ≡ ((ensure b e >> j) >>= f)
  agree-ensure true e k j f h = h refl
  agree-ensure false e k j f h = refl

module _ {A B C : Type 0} (name : String) where
  pub agree-range :
      (o : Option A) (e : PinaPodError) (k : A → Result Diagnostic B)
      (j : A → Result PinaPodError C) (f : C → Result PinaPodError B)
      → ((x : A) → into_error (k x) ≡ (j x >>= f))
      → into_error (ok_or o (diagnostic name e) >>= k) ≡ ((ok_or o e >>= j) >>= f)
  agree-range (some x) e k j f h = h x
  agree-range none e k j f h = refl

module _ {B : Type 0} (name : String) where
  pub last-ensure :
      (b : Bool) (e : PinaPodError) (x : B)
      → into_error (ensure b (diagnostic name e) >> ok x) ≡ (ensure b e >> ok x)
  last-ensure true e x = refl
  last-ensure false e x = refl

  pub last-named :
      (m : Result PinaPodError (Unit {0})) (x : B) → into_error (named name m >> ok x) ≡ (m >> ok x)
  last-named (ok tt) x = refl
  last-named (err why) x = refl

module _ (um : ℕ) where
  pub sum_of : (a b x : ℕ) → checked_add um a b ≡ ok x → x ≡ a + b
  unfolding checked_add
  sum_of a b x e = ground arith

  pub product_of : (a b x : ℕ) → checked_mul um a b ≡ ok x → x ≡ a * b
  unfolding checked_mul
  product_of a b x e = ground arith

-- The capacity assertions bound what the unchecked arithmetic sees.
module _ {um : ℕ} (target : IsTarget um) where
  string-small : (max pfx : ℕ) → capacity_checks um (string max pfx) ≡ true → pfx ≤ 2 → max ≤ 65535
  unfolding capacity_checks cap_check
  string-small max pfx h short = ground arith

  vector-small :
      (elem : Element) (max pfx count : ℕ)
      → capacity_checks um (vector elem max pfx) ≡ true
      → count ≤ max
      → pfx ≤ 2
      → count * elem.size ≤ um / 2
  unfolding capacity_checks
  vector-small elem max pfx count h fits short =
      (le-div_iff_mul-le (ground (arith, h, short))).0 (
        let most : max ≤ um / 2 / elem.size = ground (arith, h, short) in omega (arith, most, fits))

  pub short_widths :
      (p : TailPayload)
      → capacity_checks um p ≡ true
      → pfx_of p ≤ 2
      → (pfx_of p ≡ 1) ⊎ (pfx_of p ≡ 2)
  unfolding capacity_checks cap_check
  short_widths (string max pfx) h short = ground arith
  short_widths (vector elem max pfx) h short = ground arith

module _ {um : ℕ} (target : IsTarget um) (bytes : List ℕ) (bytes-IsByte : All IsByte bytes)
    (size : length bytes ≤ um / 2) where
  pub string-end :
      (max pfx offset len : ℕ)
      → capacity_checks um (string max pfx) ≡ true
      → offset ≤ length bytes
      → len ≤ max
      → checked_add um offset len ≡ bounded_tail_end um pfx offset len
  string-end max pfx offset len h within fits = sym (
      bounded_tail_end_lem um pfx offset len λ short.
        omega (arith, string-small target max pfx h short, target.wide, size, within, fits))

  pub vector-end :
      (elem : Element) (max pfx offset count byte_len : ℕ)
      → capacity_checks um (vector elem max pfx) ≡ true
      → offset ≤ length bytes
      → count ≤ max
      → checked_mul um count elem.size ≡ ok byte_len
      → checked_add um offset byte_len ≡ bounded_tail_end um pfx offset byte_len
  vector-end elem max pfx offset count byte_len h within fits e = sym (
      bounded_tail_end_lem um pfx offset byte_len λ short. omega (
        arith,
        vector-small target elem max pfx count h fits short,
        size,
        within,
        product_of um count elem.size byte_len e,
      ))

  pub vector-product :
      (elem : Element) (max pfx count : ℕ)
      → capacity_checks um (vector elem max pfx) ≡ true
      → count ≤ max
      → checked_mul um count elem.size ≡ bounded_byte_len um pfx count elem.size
  vector-product elem max pfx count h fits = sym (
      bounded_byte_len_lem um pfx count elem.size
        λ short. omega (arith, vector-small target elem max pfx count h fits short))

  pub always-agree :
      (name : String) (p : TailPayload) (at offset : ℕ)
      → capacity_checks um p ≡ true
      → offset ≤ length bytes
      → into_error (always_probe um bytes name p at offset)
        ≡ (always_bounds um bytes p at offset >>= λ r. (semantic um bytes p r.0 >> ok r.1))
  unfolding always_probe always_bounds semantic
  always-agree name (string max pfx) at offset h within =
      agree-named name (decode_prefix um (field_bytes bytes at pfx)) _ _ _ _ refl λ len _.
        agree-ensure name (leb len max) invalid_length _ _ _ λ fits.
          agree-named name (checked_add um offset len) (bounded_tail_end um pfx offset len) _ _ _
            (string-end max pfx offset len h within (ground (arith, fits)))
            λ end _.
              agree-range name (get_range bytes offset end) buffer_too_small _ _ _
                λ tail. last-ensure name (is_utf8 tail) invalid_utf8 end
  always-agree name (vector elem max pfx) at offset h within =
      agree-named name (decode_prefix um (field_bytes bytes at pfx)) _ _ _ _ refl λ count _.
        agree-ensure name (leb count max) invalid_length _ _ _ λ fits.
          agree-ensure name (not (elem.size == 0)) invalid_length _ _ _ λ _.
            agree-named name (checked_mul um count elem.size)
              (bounded_byte_len um pfx count elem.size) _ _ _
              (vector-product elem max pfx count h (ground (arith, fits)))
              λ byte_len e.
                agree-named name (checked_add um offset byte_len)
                  (bounded_tail_end um pfx offset byte_len) _ _ _
                  (vector-end elem max pfx offset count byte_len h within (ground (arith, fits)) e)
                  λ end _.
                    agree-range name (get_range bytes offset end) buffer_too_small _ _ _
                      λ tail. last-named name (validate_elems elem count tail) end
