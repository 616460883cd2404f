-- ===== src/Compact/Patched/Inputs.antt =====
-- The values of a patch: what their types promise, and what the checks of them add.
use pinapod.Base.{
  ℕ, ◌≡◌, refl, arith, Option, none, some, not, ◌==◌, List, [], ◌∷◌, leb, length, All, map,
}
use pinapod.Base.Bytes.{IsByte}
use pinapod.Error.{ok, >>=-eq-ok, ensure, ensure-eq-ok, overflow, invalid_length}
use pinapod.Compact.Support.{check_prefix}
use pinapod.Compact.{option_tag, TailPayload, string, vector, Inline, Tail}
use pinapod.Compact.Planning.{IsStaged, AllStaged}
use pinapod.Compact.Staging.{IsArgument, IsAccepted, accepted-IsStaged}
use pinapod.Compact.Patch.{PatchValue, check_value, check_tail, check_tails, stage_value}

-- What the type of a value promises: only an optional tail can be cleared.
abbrev pub IsTyped : Tail → Option PatchValue → Type 0
IsTyped t none = Unit
IsTyped t (some none) = t.presence ≡ option_tag
IsTyped t (some (some (len, value))) = IsArgument t.payload len value

abbrev pub TailsTyped : List Tail → List (Option PatchValue) → Type 0
TailsTyped [] [] = Unit
TailsTyped [] (v ∷ vs) = ⊥
TailsTyped (t ∷ ts) [] = ⊥
TailsTyped (t ∷ ts) (v ∷ vs) = IsTyped t v × TailsTyped ts vs

-- An inline value has the size of its stored type.
abbrev pub InlineTyped : Inline → Option (List ℕ) → Type 0
InlineTyped f none = Unit
InlineTyped f (some value) = (length value ≡ f.elem.size) × All IsByte value

abbrev pub InlinesTyped : List Inline → List (Option (List ℕ)) → Type 0
InlinesTyped [] [] = Unit
InlinesTyped [] (v ∷ vs) = ⊥
InlinesTyped (f ∷ fs) [] = ⊥
InlinesTyped (f ∷ fs) (v ∷ vs) = InlineTyped f v × InlinesTyped fs vs

check_value-IsAccepted :
    (um : ℕ) (p : TailPayload) (len : ℕ) (value : List ℕ)
    → check_value um p len value ≡ ok tt
    → IsAccepted um p len value
unfolding check_value
check_value-IsAccepted um (string max pfx) len value e =
    let (_, few, rest) = >>=-eq-ok (ensure (leb len max) overflow) _ e in
    let b = ensure-eq-ok (leb len max) overflow few in (ground (arith, b), rest)
check_value-IsAccepted um (vector elem max pfx) len value e =
    let (_, few, e1) = >>=-eq-ok (ensure (leb len max) overflow) _ e in
    let (_, fits, e2) = >>=-eq-ok (check_prefix um len pfx) _ e1 in
    let (_, _, valid) = >>=-eq-ok (ensure (not (elem.size == 0)) invalid_length) _ e2 in
    let b = ensure-eq-ok (leb len max) overflow few in (ground (arith, b), fits, valid)

check_tail-IsStaged :
    (um : ℕ) (t : Tail) (v : Option PatchValue)
    → IsTyped t v
    → check_tail um t.payload v ≡ ok tt
    → IsStaged um t (stage_value v)
unfolding check_tail
check_tail-IsStaged um t none h e = tt
check_tail-IsStaged um t (some none) h e = h
check_tail-IsStaged um t (some (some (len, value))) h e =
    accepted-IsStaged um t t.payload len value refl h
      (check_value-IsAccepted um t.payload len value e)

-- The checks of a patch are those of the setters.
pub check_tails-AllStaged :
    (um : ℕ) (ts : List Tail) (vs : List (Option PatchValue))
    → TailsTyped ts vs
    → check_tails um ts vs ≡ ok tt
    → AllStaged um ts (map stage_value vs)
unfolding check_tails
check_tails-AllStaged um [] [] h e = tt
check_tails-AllStaged um [] (v ∷ vs) h e = absurd h
check_tails-AllStaged um (t ∷ ts) [] h e = absurd h
check_tails-AllStaged um (t ∷ ts) (v ∷ vs) h e =
    let (_, first, rest) = >>=-eq-ok (check_tail um t.payload v) _ e in
    (check_tail-IsStaged um t v h.0 first, check_tails-AllStaged um ts vs h.1 rest)
