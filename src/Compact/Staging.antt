-- ===== src/Compact/Staging.antt =====
-- The construction of a staged writer and its setters (`generate_mut` of
-- pinapod-derive/src/compact.rs), and what they keep of the writer's state.
use pinapod.Base.{
  ℕ, zero, suc, ◌*◌, ◌/◌, ◌≤◌, ◌≡◌, refl, ap, arith, ◌⊎◌, inl, inr, Option, none, some, true, List,
  [], ◌∷◌, length, get_elem?, set, All, map, ltb, Bool-cases,
}
use pinapod.Base.Bytes.{IsByte}
use pinapod.Utf8.{is_utf8}
use pinapod.Error.{PinaPodError, ok, err, overflow, invalid_utf8, ensure}
use pinapod.Elem.{Checked}
use pinapod.Compact.Support.{check_prefix}
use pinapod.Compact.{option_tag, TailPayload, string, vector, Tail, Schema, validate_elems}
use pinapod.Compact.Walks.{semantic, validate}
use pinapod.Compact.Edits.{
  Edit, null, staged, is_err, new, new_unchecked, stage, keep_edit, set_always, set_optional,
}
use pinapod.Compact.Edits as E
use pinapod.Compact.Planning.{IsStaged, AllStaged}
use pinapod.Compact.Committed.Writer.{IsWriter}

-- What the type of a setter's argument promises: the bytes of a `str`, or those of the elements of
-- a slice.
abbrev pub IsArgument : TailPayload → ℕ → List ℕ → Type 0
IsArgument (string max pfx) len value =
    (length value ≡ len) × All IsByte value × (is_utf8 value ≡ true)
IsArgument (vector elem max pfx) len value = (length value ≡ len * elem.size) × All IsByte value

-- What a setter checks.
abbrev pub IsAccepted : (um : ℕ) → TailPayload → ℕ → List ℕ → Type 0
IsAccepted um (string max pfx) len value = (len ≤ max) × (check_prefix um len pfx ≡ ok tt)
IsAccepted um (vector elem max pfx) len value =
    (len ≤ max) × (check_prefix um len pfx ≡ ok tt) × (validate_elems elem len value ≡ ok tt)

pub Checked-cases : (r : Checked) → (r ≡ ok tt) ⊎ ((e : PinaPodError) × (r ≡ err e))
Checked-cases (ok tt) = inl refl
Checked-cases (err e) = inr (e, refl)

-- A value is staged exactly if it passes the checks.
stage-cases :
    (um : ℕ) (p : TailPayload) (len : ℕ) (value : List ℕ)
    → (IsAccepted um p len value × (stage um p len value ≡ ok (staged len value)))
      ⊎ ((IsAccepted um p len value → ⊥) × ((e : PinaPodError) × (stage um p len value ≡ err e)))
unfolding stage
stage-cases um (string max pfx) len value = elim (Checked-cases (check_prefix um len pfx)) [
  | inr (e, wide) ↦ inr (λ h. ground (arith, h.1, wide), (overflow, ground (arith, wide)))
  | inl fits ↦ elim (Bool-cases (ltb max len)) [
    | inl long ↦ inr (λ h. ground (arith, h.0, long), (overflow, rw long refl))
    | inr short ↦ inl ((ground (arith, short), fits), rw (short, fits) refl)
  ]
]
stage-cases um (vector elem max pfx) len value = elim (Checked-cases (check_prefix um len pfx)) [
  | inr (e, wide) ↦ inr (λ h. ground (arith, h.1, wide), (overflow, ground (arith, wide)))
  | inl fits ↦ elim (Bool-cases (ltb max len)) [
    | inl long ↦ inr (λ h. ground (arith, h.0, long), (overflow, rw long refl))
    | inr short ↦ elim (Checked-cases (validate_elems elem len value)) [
      | inl valid ↦ inl ((ground (arith, short), fits, valid), rw (short, fits, valid) refl)
      | inr (e, bad) ↦ inr (λ h. ground (arith, h.2, bad), (e, rw (short, fits, bad) refl))
    ]
  ]
]

pub accepted-IsStaged :
    (um : ℕ) (t : Tail) (p : TailPayload) (len : ℕ) (value : List ℕ)
    → t.payload ≡ p
    → IsArgument p len value
    → IsAccepted um p len value
    → IsStaged um t (some (staged len value))
unfolding semantic
accepted-IsStaged um t (string max pfx) len value e (sized, octets, text) (few, fits) =
    rw e ((few, sized), fits, ap (λ b. ensure b invalid_utf8) text, octets)
accepted-IsStaged um t (vector elem max pfx) len value e (sized, octets) (few, fits, valid) =
    rw e ((few, sized), fits, valid, octets)

AllStaged-set :
    (um : ℕ) (ts : List Tail) (es : List (Option Edit)) (i : ℕ) (t : Tail) (e : Option Edit)
    → get_elem? ts i ≡ some t
    → IsStaged um t e
    → AllStaged um ts es
    → AllStaged um ts (set es i e)
AllStaged-set um [] [] i t e found h all = tt
AllStaged-set um [] (x ∷ es) i t e found h all = absurd all
AllStaged-set um (u ∷ ts) [] i t e found h all = absurd all
AllStaged-set um (u ∷ ts) (x ∷ es) zero t e found h all =
    let same : u ≡ t = cc in (rw same h, all.1)
AllStaged-set um (u ∷ ts) (x ∷ es) (suc i) t e found h all =
    (all.0, AllStaged-set um ts es i t e found h all.1)

pub no_edits-AllStaged : (um : ℕ) (ts : List Tail) → AllStaged um ts (map (λ _. none) ts)
no_edits-AllStaged um [] = tt
no_edits-AllStaged um (t ∷ ts) = (tt, no_edits-AllStaged um ts)

module _ (um : ℕ) (s : Schema) (top alignment : ℕ) where
  -- On a buffer of bytes no longer than `isize::MAX`, a writer that the constructor returns is
  -- over that buffer, which `validate` accepts, counts its encoded length, and has no edit that
  -- its setters would refuse.
  pub new-IsWriter :
      (bytes : List ℕ) (w : E.Writer)
      → All IsByte bytes
      → length bytes ≤ um / 2
      → new um s top alignment bytes ≡ ok w
      → IsWriter um s top alignment w × (w.bytes ≡ bytes)
  unfolding new new_unchecked
  new-IsWriter bytes w octets size e = elim (Checked-cases (validate um s top alignment bytes)) [
    | inl valid ↦
        let made : new_unchecked um s bytes ≡ w = ground (arith, e, valid) in
        rw (← made) (
          record {
            accepted = valid;
            octets = octets;
            size = size;
            counted = refl;
            staged_edits = no_edits-AllStaged um s.tail_fields;
          },
          refl,
        )
    | inr (why, bad) ↦ absurd (ground (arith, e, bad))
  ]

  module _ (w : E.Writer) (writer : IsWriter um s top alignment w) (i : ℕ) (t : Tail)
      (found : get_elem? s.tail_fields i ≡ some t) where
    -- The writer with an edit of the field.
    abbrev pub edited : Edit → E.Writer
    edited e = record w { edits = set w.edits i (some e) }

    edited-IsWriter : (e : Edit) → IsStaged um t (some e) → IsWriter um s top alignment (edited e)
    edited-IsWriter e h = record {
      accepted = writer.accepted;
      octets = writer.octets;
      size = writer.size;
      counted = writer.counted;
      staged_edits =
          AllStaged-set um s.tail_fields w.edits i t (some e) found h writer.staged_edits;
    }

    -- For a writer in the state that its constructor and commits leave, a setter with an argument
    -- of its type either finds the value within the capacity, the prefix width and the element
    -- checks, and stages it, which leaves the writer in such a state, or finds that it is not,
    -- and fails and changes nothing.
    pub set_always_lem :
        (len : ℕ) (value : List ℕ)
        → IsArgument t.payload len value
        → (IsAccepted um t.payload len value
            × (set_always um w i t.payload len value ≡ (edited (staged len value), ok tt))
            × IsWriter um s top alignment (edited (staged len value)))
          ⊎ ((IsAccepted um t.payload len value → ⊥)
              × ((e : PinaPodError) × (set_always um w i t.payload len value ≡ (w, err e))))
    unfolding set_always keep_edit
    set_always_lem len value typed = elim (stage-cases um t.payload len value) [
      | inl (accepted, e) ↦ inl (
        accepted,
        ap (keep_edit w i) e,
        edited-IsWriter (staged len value)
            (accepted-IsStaged um t t.payload len value refl typed accepted),
      )
      | inr (refused, (why, e)) ↦ inr (refused, (why, ap (keep_edit w i) e))
    ]

    pub set_optional-none :
        t.presence ≡ option_tag
        → (set_optional um w i t.payload none ≡ (edited null, ok tt))
          × IsWriter um s top alignment (edited null)
    unfolding set_optional
    set_optional-none p = (refl, edited-IsWriter null p)
