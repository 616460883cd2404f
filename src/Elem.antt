-- ===== src/Elem.antt =====
-- The representation traits of pinapod/src/traits.rs: `ZcValidate`, with its default walks over an
-- array and a slice, and `ZcElem`, which lays a stored value out in bytes.
use pinapod.Base.{ℕ, List, [], ◌∷◌, ◌≡◌, length, replicate}
use pinapod.Error.{PinaPodError, Result, ok, ◌>>◌}

abbrev pub Checked : Type 0
Checked = Result PinaPodError (Unit {0})

-- `for item in value { Self::validate_ref(item)?; } Ok(())`
abbrev pub walk : {T : Type 0} → (T → Checked) → List T → Checked
walk check [] = ok tt
walk check (x ∷ xs) = check x >> walk check xs

-- `trait ZcValidate`
pub record ZcValidate (T : Type 0) : Type 0 where
  pub validate_ref : T → Checked
  pub validate_array : List T → Checked
  pub validate_slice : List T → Checked

-- The default methods.
abbrev pub walking : {T : Type 0} → (T → Checked) → ZcValidate T
walking check = record {
  validate_ref = check;
  validate_array = walk check;
  validate_slice = walk check;
}

-- `impl_zc_validate_trivial!`: every bit pattern is valid, and no method has a loop.
abbrev pub trivial : {T : Type 0} → ZcValidate T
trivial = record {
  validate_ref = λ _. ok tt;
  validate_array = λ _. ok tt;
  validate_slice = λ _. ok tt;
}

-- `trait ZcElem`, with `size_of`, the zeroed value, and the cast between a value and its bytes.
pub record ZcElem (T : Type 0) : Type 0 where
  pub validate : ZcValidate T
  pub open validate use *
  pub size : ℕ
  pub zeroed : T
  pub from_bytes : List ℕ → T
  pub to_bytes : T → List ℕ

-- What the safety comment of `ZcElem` demands: no padding, every initialized byte pattern is a
-- value, and the overrides of the walks lose no check. `Fits` are the values that Rust's type holds.
pub record IsZcElem {T : Type 0} (z : ZcElem T) : Type 1 where
  pub Fits : T → Type 0
  pub validate_slice-walk : (xs : List T) → z.validate_slice xs ≡ walk z.validate_ref xs
  pub validate_array-walk : (xs : List T) → z.validate_array xs ≡ walk z.validate_ref xs
  pub length-to_bytes : (x : T) → Fits x → length (z.to_bytes x) ≡ z.size
  pub from_bytes-to_bytes : (x : T) → Fits x → z.from_bytes (z.to_bytes x) ≡ x
  pub to_bytes-from_bytes : (bs : List ℕ) → length bs ≡ z.size → z.to_bytes (z.from_bytes bs) ≡ bs
  pub from_bytes-Fits : (bs : List ℕ) → length bs ≡ z.size → Fits (z.from_bytes bs)
  pub to_bytes-zeroed : z.to_bytes z.zeroed ≡ replicate z.size 0
  pub zeroed-Fits : Fits z.zeroed
