-- ===== src/Utf8/Laws.antt =====
-- Cutting and joining well-formed strings.
use pinapod.Base.{ℕ, zero, suc, ◌≤◌, ◌<◌, ◌≡◌, refl, ap, ◌∙◌, sym, arith, Option, none, some}
use pinapod.Base.{
  true, List, [], ◌∷◌, ◌++◌, length, take, drop, get_or, ◌⊎◌, inl, inr, Option-cases,
}
use pinapod.Base.{take-append-drop, take-length}
use pinapod.Utf8.{Phase, start, one, two, three, after_e0, after_ed, after_f0, after_f4}
use pinapod.Utf8.{advance, scan, at_rest, is_utf8, leads, is_char_boundary}

-- A lead byte is accepted only where nothing is pending.
leads-start : (p q : Phase) (b : ℕ) → leads b ≡ true → advance p b ≡ some q → p ≡ start
unfolding advance
leads-start start q b h e = refl
leads-start one q b h e = absurd (ground arith)
leads-start p q b h e = absurd (ground arith)

pub scan-append :
    (xs ys : List ℕ) (p q : Phase) → scan p xs ≡ some q → scan p (xs ++ ys) ≡ scan q ys
unfolding scan
scan-append [] ys p q e = ground arith
scan-append (x ∷ xs) ys p q e = elim (Option-cases (advance p x)) [
  | inl stuck ↦ absurd (ground (arith, stuck))
  | inr (r, next) ↦ rw (next, scan) (scan-append xs ys r q (rw (next, scan) at e))
]

-- Before a lead byte nothing is pending, if the whole string is well formed.
scan-take :
    (bs : List ℕ) (i : ℕ) (p q : Phase)
    → i < length bs
    → leads (get_or bs i 0) ≡ true
    → scan p bs ≡ some q
    → scan p (take i bs) ≡ some start
unfolding scan
scan-take [] i p q h t e = absurd (omega arith)
scan-take (b ∷ bs) zero p q h t e = elim (Option-cases (advance p b)) [
  | inl stuck ↦ absurd (ground (arith, stuck))
  | inr (r, next) ↦ ap some (leads-start p r b t next)
]
scan-take (b ∷ bs) (suc i) p q h t e = elim (Option-cases (advance p b)) [
  | inl stuck ↦ absurd (ground (arith, stuck))
  | inr (r, next) ↦ rw (next, scan) (scan-take bs i r q (omega arith) t (rw (next, scan) at e))
]

at_rest-eq : (o : Option Phase) → at_rest o ≡ true → o ≡ some start
at_rest-eq none h = cc
at_rest-eq (some start) h = refl
at_rest-eq (some one) h = cc
at_rest-eq (some two) h = cc
at_rest-eq (some three) h = cc
at_rest-eq (some after_e0) h = cc
at_rest-eq (some after_ed) h = cc
at_rest-eq (some after_f0) h = cc
at_rest-eq (some after_f4) h = cc

is_utf8-scan : (bs : List ℕ) → is_utf8 bs ≡ true → scan start bs ≡ some start
unfolding is_utf8
is_utf8-scan bs h = at_rest-eq (scan start bs) h

scan-is_utf8 : (bs : List ℕ) → scan start bs ≡ some start → is_utf8 bs ≡ true
scan-is_utf8 bs e = unfold is_utf8 in ap at_rest e

pub is_utf8-nil : is_utf8 [] ≡ true
unfolding is_utf8
is_utf8-nil = refl

-- Well-formed strings join to one.
pub is_utf8-append :
    (xs ys : List ℕ) → is_utf8 xs ≡ true → is_utf8 ys ≡ true → is_utf8 (xs ++ ys) ≡ true
is_utf8-append xs ys hx hy =
    scan-is_utf8 (xs ++ ys)
      (scan-append xs ys start start (is_utf8-scan xs hx) ∙ is_utf8-scan ys hy)

boundary-cases :
    (bs : List ℕ) (i : ℕ)
    → i ≤ length bs
    → is_char_boundary bs i ≡ true
    → (i ≡ 0) ⊎ (i ≡ length bs) ⊎ ((i < length bs) × (leads (get_or bs i 0) ≡ true))
unfolding is_char_boundary
boundary-cases bs i small b = ground arith

-- A cut at a character boundary leaves two well-formed strings.
pub is_utf8-cut :
    (bs : List ℕ) (i : ℕ)
    → is_utf8 bs ≡ true
    → i ≤ length bs
    → is_char_boundary bs i ≡ true
    → (is_utf8 (take i bs) ≡ true) × (is_utf8 (drop i bs) ≡ true)
is_utf8-cut bs i h small b = (scan-is_utf8 _ front, scan-is_utf8 _ back)
  where
    front : scan start (take i bs) ≡ some start
    front = elim (boundary-cases bs i small b) [
      | inl e ↦ rw e (unfold scan in refl)
      | inr (inl e) ↦ rw (e, take-length bs) (is_utf8-scan bs h)
      | inr (inr (less, lead)) ↦ scan-take bs i start start less lead (is_utf8-scan bs h)
    ]

    back : scan start (drop i bs) ≡ some start
    back =
        sym (scan-append (take i bs) (drop i bs) start start front)
        ∙ rw (take-append-drop i bs) (is_utf8-scan bs h)
