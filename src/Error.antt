-- ===== src/Error.antt =====
-- The errors of pinapod/src/error.rs, and Rust's `Result` over them.
use pinapod.Base.{Bool, true, false, ◌≡◌, refl, ◌⊎◌, inl, inr}
use Prim.Native.String.{String}

-- `enum PinaPodError`
pub data PinaPodError : Type 0 where
  buffer_too_small overflow invalid_bool invalid_tag : PinaPodError
  invalid_discriminant invalid_length invalid_utf8 : PinaPodError

-- `enum Result<T, E>`, with the error type first.
pub data Result {ℓ κ} (E : Type κ) (A : Type ℓ) : Type (ℓ ⊔ κ) where
  err : E → Result E A
  ok : A → Result E A

-- `struct Diagnostic`; a field's name is a text.
pub record Diagnostic : Type 0 where
  pub field : String
  pub error : PinaPodError

-- `Result::map_err`
abbrev pub map_err {ℓ κ μ} :
    {E : Type κ} {F : Type μ} {A : Type ℓ} → Result E A → (E → F) → Result F A
map_err (ok a) f = ok a
map_err (err e) f = err (f e)

-- `impl From<Diagnostic> for PinaPodError`, which `?` applies to a diagnosis.
abbrev pub into_error {ℓ} : {A : Type ℓ} → Result Diagnostic A → Result PinaPodError A
into_error m = map_err m (λ d. d.error)

-- `if condition { return Err(error) }`
abbrev pub ensure {μ} : {E : Type μ} → Bool → E → Result E (Unit {0})
ensure true e = ok tt
ensure false e = err e

-- `?`, as a bind: the first error ends the computation.
module _ {ℓ κ μ} {Why : Type μ} {X : Type ℓ} {Y : Type κ} where
  infixl 5 ◌>>=◌
  abbrev pub ◌>>=◌ : Result Why X → (X → Result Why Y) → Result Why Y
  err why >>= next = err why
  ok x >>= next = next x

module _ {κ μ} {Why : Type μ} {Y : Type κ} where
  infixl 5 ◌>>◌
  abbrev pub ◌>>◌ : Result Why (Unit {0}) → Result Why Y → Result Why Y
  check >> after = check >>= λ _. after

-- To split on a result and keep the equation.
pub Result-cases {ℓ κ} :
    {E : Type κ} {A : Type ℓ} (r : Result E A) → ((a : A) × (r ≡ ok a)) ⊎ ((e : E) × (r ≡ err e))
Result-cases (ok a) = inl (a, refl)
Result-cases (err e) = inr (e, refl)

-- A check whose value is not used.
pub >>=-discard {ℓ κ} :
    {E : Type κ} {A : Type ℓ} (m : Result E (Unit {0})) (a : A)
    → ((m >>= λ _. ok a) >>= λ _. ok tt) ≡ m
>>=-discard (ok tt) a = refl
>>=-discard (err e) a = refl

-- What a successful computation went through.
module _ {ℓ κ μ} {Why : Type μ} {X : Type ℓ} {Y : Type κ} {y : Y} where
  pub >>=-eq-ok :
      (m : Result Why X) (next : X → Result Why Y)
      → (m >>= next) ≡ ok y
      → (x : X) × (m ≡ ok x) × (next x ≡ ok y)
  >>=-eq-ok (err why) next h = cc
  >>=-eq-ok (ok x) next h = (x, refl, h)

pub ensure-eq-ok {μ} : {E : Type μ} (b : Bool) (e : E) → ensure b e ≡ ok tt → b ≡ true
ensure-eq-ok true e h = refl
ensure-eq-ok false e h = cc

-- What a computation returns, if it does, has a property.
abbrev pub Returns {ℓ κ μ} : {Why : Type μ} {X : Type ℓ} → (X → Type κ) → Result Why X → Type κ
Returns P (err why) = Unit
Returns P (ok x) = P x

module _ {ℓ κ μ ν} {Why : Type μ} {X : Type ℓ} {Y : Type κ} (P : Y → Type ν) where
  pub Returns->>= :
      (m : Result Why X) (next : X → Result Why Y)
      → ((x : X) → m ≡ ok x → Returns P (next x))
      → Returns P (m >>= next)
  Returns->>= (err why) next h = tt
  Returns->>= (ok x) next h = h x refl

module _ {ℓ κ μ} {Why : Type μ} {X : Type ℓ} (P : X → Type κ) where
  pub Returns-of : (m : Result Why X) (x : X) → Returns P m → m ≡ ok x → P x
  Returns-of m x h e = rw e at h

-- Computations that go on in the same way.
module _ {ℓ κ μ} {Why : Type μ} {X : Type ℓ} {Y : Type κ} where
  pub >>=-same :
      (m : Result Why X) (next after : X → Result Why Y)
      → ((x : X) → m ≡ ok x → next x ≡ after x)
      → (m >>= next) ≡ (m >>= after)
  >>=-same (err why) next after h = refl
  >>=-same (ok x) next after h = h x refl

module _ {ℓ κ} {X : Type ℓ} {Y : Type κ} where
  pub into_error->>= :
      (m : Result Diagnostic X) (next : X → Result Diagnostic Y)
      → into_error (m >>= next) ≡ (into_error m >>= λ x. into_error (next x))
  into_error->>= (err why) next = refl
  into_error->>= (ok x) next = refl

pub ok-eq : {Why X : Type 0} {x y : X} → ◌≡◌ {A = Result Why X} (ok x) (ok y) → x ≡ y
ok-eq e = cc
