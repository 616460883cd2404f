-- ===== src/Compact/Patched/Inlines.antt =====
-- The inline writes of a patch (`inline_writes` of pinapod-derive/src/compact.rs): what they change of
-- the header, and that they leave the tails alone.
use pinapod.Base.{
  ℕ, ◌+◌, ◌≤◌, ◌≡◌, refl, ap, sym, ◌∙◌, arith, inr, Option, none, some, List, [], ◌∷◌, length, drop,
  All,
}
use pinapod.Base.Memory.{copy_at, length-copy_at}
use pinapod.Base.Bytes.{IsByte}
use pinapod.Base.Slices.{
  slice, slice-copy_at, slice-copy_behind, slice-copy_apart, drop-copy_before,
}
use pinapod.Error.{ok, >>=-eq-ok}
use pinapod.Compact.{Inline, inline_size, validate_header}
use pinapod.Compact.Committed.Octets.{copy_at-Octets}
use pinapod.Compact.Patch.{check_inlines, inline_writes}
use pinapod.Compact.Patched.Inputs.{InlinesTyped}

-- The bytes of an inline field after a patch: the value, where there is one.
abbrev pub new_inline : Option (List ℕ) → List ℕ → List ℕ
new_inline none old = old
new_inline (some value) old = value

-- Each inline field from `at` on holds its value, or what it held before.
abbrev pub Patched : List Inline → List (Option (List ℕ)) → ℕ → (bytes after : List ℕ) → Type 0
Patched [] vs at bytes after = Unit
Patched (f ∷ fs) [] at bytes after = ⊥
Patched (f ∷ fs) (v ∷ vs) at bytes after =
    (slice at f.elem.size after ≡ new_inline v (slice at f.elem.size bytes))
    × Patched fs vs (at + f.elem.size) bytes after

pub length-inline_writes :
    (fs : List Inline) (vs : List (Option (List ℕ))) (at : ℕ) (bytes : List ℕ)
    → length (inline_writes fs vs at bytes) ≡ length bytes
unfolding inline_writes
length-inline_writes [] vs at bytes = refl
length-inline_writes (f ∷ fs) [] at bytes = refl
length-inline_writes (f ∷ fs) (none ∷ vs) at bytes =
    length-inline_writes fs vs (at + f.elem.size) bytes
length-inline_writes (f ∷ fs) (some value ∷ vs) at bytes =
    length-inline_writes fs vs (at + f.elem.size) (copy_at at value bytes)
    ∙ length-copy_at at value bytes

pub inline_writes-Octets :
    (fs : List Inline) (vs : List (Option (List ℕ))) (at : ℕ) (bytes : List ℕ)
    → InlinesTyped fs vs
    → All IsByte bytes
    → All IsByte (inline_writes fs vs at bytes)
unfolding inline_writes
inline_writes-Octets [] vs at bytes typed h = h
inline_writes-Octets (f ∷ fs) [] at bytes typed h = h
inline_writes-Octets (f ∷ fs) (none ∷ vs) at bytes typed h =
    inline_writes-Octets fs vs (at + f.elem.size) bytes typed.1 h
inline_writes-Octets (f ∷ fs) (some value ∷ vs) at bytes typed h =
    inline_writes-Octets fs vs (at + f.elem.size) (copy_at at value bytes) typed.1
      (copy_at-Octets at value bytes typed.0.1 h)

-- Behind the inline fields nothing changes.
pub drop-inline_writes :
    (fs : List Inline) (vs : List (Option (List ℕ))) (at : ℕ) (bytes : List ℕ) (x : ℕ)
    → InlinesTyped fs vs
    → at + inline_size fs ≤ x
    → drop x (inline_writes fs vs at bytes) ≡ drop x bytes
unfolding inline_writes inline_size
drop-inline_writes [] vs at bytes x typed h = refl
drop-inline_writes (f ∷ fs) [] at bytes x typed h = refl
drop-inline_writes (f ∷ fs) (none ∷ vs) at bytes x typed h =
    drop-inline_writes fs vs (at + f.elem.size) bytes x typed.1 (omega (arith, h))
drop-inline_writes (f ∷ fs) (some value ∷ vs) at bytes x typed h =
    drop-inline_writes fs vs (at + f.elem.size) (copy_at at value bytes) x typed.1
      (omega (arith, h))
    ∙ drop-copy_before x at value bytes (omega (arith, h, typed.0.0))

-- Nor before them.
slice-inline_writes :
    (fs : List Inline) (vs : List (Option (List ℕ))) (at : ℕ) (bytes : List ℕ) (x n : ℕ)
    → x + n ≤ at
    → slice x n (inline_writes fs vs at bytes) ≡ slice x n bytes
unfolding inline_writes
slice-inline_writes [] vs at bytes x n h = refl
slice-inline_writes (f ∷ fs) [] at bytes x n h = refl
slice-inline_writes (f ∷ fs) (none ∷ vs) at bytes x n h =
    slice-inline_writes fs vs (at + f.elem.size) bytes x n (omega (arith, h))
slice-inline_writes (f ∷ fs) (some value ∷ vs) at bytes x n h =
    slice-inline_writes fs vs (at + f.elem.size) (copy_at at value bytes) x n (omega (arith, h))
    ∙ slice-copy_behind x n at value bytes h

-- What was there before matters in the header only.
pub Patched-before :
    (fs : List Inline) (vs : List (Option (List ℕ))) (at front : ℕ) (bytes before after : List ℕ)
    → ((x n : ℕ) → at ≤ x → x + n ≤ front → slice x n before ≡ slice x n bytes)
    → at + inline_size fs ≤ front
    → Patched fs vs at before after
    → Patched fs vs at bytes after
unfolding inline_size
Patched-before [] vs at front bytes before after same fits h = tt
Patched-before (f ∷ fs) [] at front bytes before after same fits h = h
Patched-before (f ∷ fs) (v ∷ vs) at front bytes before after same fits h = (
  h.0 ∙ ap (new_inline v) (same at f.elem.size (omega arith) (omega (arith, fits))),
  Patched-before fs vs (at + f.elem.size) front bytes before after
      (λ x n k. same x n (omega (arith, k))) (omega (arith, fits)) h.1,
)

pub inline_writes-Patched :
    (fs : List Inline) (vs : List (Option (List ℕ))) (at : ℕ) (bytes : List ℕ)
    → InlinesTyped fs vs
    → at + inline_size fs ≤ length bytes
    → Patched fs vs at bytes (inline_writes fs vs at bytes)
unfolding inline_writes inline_size
inline_writes-Patched [] vs at bytes typed h = tt
inline_writes-Patched (f ∷ fs) [] at bytes typed h = typed
inline_writes-Patched (f ∷ fs) (none ∷ vs) at bytes typed h = (
  slice-inline_writes fs vs (at + f.elem.size) bytes at f.elem.size (omega arith),
  inline_writes-Patched fs vs (at + f.elem.size) bytes typed.1 (omega (arith, h)),
)
inline_writes-Patched (f ∷ fs) (some value ∷ vs) at bytes typed h =
    let width = typed.0.0 in
    let written = copy_at at value bytes in
    (
      slice-inline_writes fs vs (at + f.elem.size) written at f.elem.size (omega arith)
          ∙ ap (λ k. slice at k written) (sym width)
          ∙ slice-copy_at at value bytes (omega (arith, h, width)),
      Patched-before fs vs (at + f.elem.size) (at + f.elem.size + inline_size fs) bytes written _
          (λ x n k u. slice-copy_apart x n at value bytes (inr (omega (arith, k, width))))
          (omega arith)
          (inline_writes-Patched fs vs (at + f.elem.size) written typed.1
            (omega (arith, h, length-copy_at at value bytes))),
    )

-- The header is valid after the writes, if it was before and the values passed their checks.
pub Patched-valid :
    (um : ℕ) (fs : List Inline) (vs : List (Option (List ℕ))) (at : ℕ) (bytes after : List ℕ)
    → Patched fs vs at bytes after
    → check_inlines um fs vs ≡ ok tt
    → validate_header bytes fs at ≡ ok tt
    → validate_header after fs at ≡ ok tt
unfolding validate_header check_inlines
Patched-valid um [] vs at bytes after h checked valid = refl
Patched-valid um (f ∷ fs) [] at bytes after h checked valid = absurd h
Patched-valid um (f ∷ fs) (none ∷ vs) at bytes after h checked valid =
    let (_, first, rest) = >>=-eq-ok (f.elem.check (slice at f.elem.size bytes)) _ valid in
    rw (h.0, first, Patched-valid um fs vs (at + f.elem.size) bytes after h.1 checked rest) refl
Patched-valid um (f ∷ fs) (some value ∷ vs) at bytes after h checked valid =
    let (_, _, rest) = >>=-eq-ok (f.elem.check (slice at f.elem.size bytes)) _ valid in
    let (_, fine, more) = >>=-eq-ok (f.elem.check value) _ checked in
    rw (h.0, fine, Patched-valid um fs vs (at + f.elem.size) bytes after h.1 more rest) refl
