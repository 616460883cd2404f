-- ===== src/Pod/Vec/Reads.antt =====
-- The readers of `PodVecRepr`, and the validating ones.
use pinapod.Base.{ℕ, zero, suc, ◌≤◌, ◌<◌, ◌≡◌, refl, ap, ◌∙◌, sym, arith, ltb, leb, inl, inr}
use pinapod.Base.{List, [], ◌∷◌, ◌++◌, some, none, le→leb, Bool-cases}
use pinapod.Base.{length, get_elem?, set, take, drop}
use pinapod.Base.{take-append-drop, length-take, length-drop, if◌then◌else◌}
use pinapod.Error.{Result-cases, >>=-discard, >>=-eq-ok, ensure-eq-ok}
use pinapod.Error.{invalid_length, ok, ◌>>=◌, ensure}
use pinapod.Elem.{ZcElem}
use pinapod.Pod.Prefix
use pinapod.Pod.Prefix.{Layout, IsLayout}
use pinapod.Pod.Prefix.Views.{Views-take, len_exact}
use pinapod.Pod.Vec.{PodVec, as_slice, get, set_at, try_as_slice, validate_ref}
use pinapod.Pod.Vec.State.{Shows, Stores}

set-append {ℓ} :
    {T : Type ℓ} (xs rest : List T) (i : ℕ) (value : T)
    → i < length xs
    → set (xs ++ rest) i value ≡ set xs i value ++ rest
set-append [] rest i value h = absurd (omega arith)
set-append (x ∷ xs) rest zero value h = refl
set-append (x ∷ xs) rest (suc i) value h =
    ap (λ t. x ∷ t) (set-append xs rest i value (omega arith))

module _ {T : Type 0} {c : Layout} where
  -- `as_slice` is the active elements.
  pub as_slice_lem : (v : PodVec T) {xs rest : List T} → Shows c v xs rest → as_slice c v ≡ xs
  unfolding as_slice
  as_slice_lem v s = Views-take s

  -- `get` reads an active element, and nothing behind them.
  pub get_lem :
      (v : PodVec T) (i : ℕ) {xs rest : List T} → Shows c v xs rest → get c v i ≡ get_elem? xs i
  unfolding get
  get_lem v i s = ap (λ ys. get_elem? ys i) (Views-take s)

  -- A write through `get_mut` changes that active element, and is refused behind them.
  pub set_at_lem :
      (v : PodVec T) (i : ℕ) (value : T) {xs rest : List T}
      → Shows c v xs rest
      → set_at c v i value
        ≡ (if ltb i (length xs) then some (record v { slots = set xs i value ++ rest }) else none)
  unfolding set_at
  set_at_lem v i value {xs} {rest} s = elim (Bool-cases (ltb i (length xs))) [
    | inl inside ↦
        rw (Views-take s, inside)
          (ap (λ m. some (record v { slots = m }))
            (ap (λ m. set m i value) s.memory ∙ set-append xs rest i value (ground arith)))
    | inr outside ↦ rw (Views-take s, outside)
  ]

module _ {T : Type 0} ⦃z : ZcElem T⦄ (c : Layout) where
  -- The checked reader of a vector accepts exactly what its validation accepts, and rejects with
  -- the same error.
  pub try_as_slice-validate_ref :
      (v : PodVec T) → (try_as_slice c v >>= λ _. ok tt) ≡ validate_ref c v
  unfolding try_as_slice validate_ref
  try_as_slice-validate_ref v = elim (Result-cases (Prefix.try_decode_len c v.prefix)) [
    | inr (e, p) ↦ rw p
    | inl (n, p) ↦ elim (Bool-cases (leb n c.n)) [
      | inr over ↦ rw (p, over)
      | inl fits ↦
          rw (p, fits, len_exact c v.prefix n p (ground arith))
            (>>=-discard (z.validate_slice (take n v.slots)) (take n v.slots))
    ]
  ]

  accepted :
      (v : PodVec T) (n : ℕ)
      → length v.prefix ≡ c.pfx
      → length v.slots ≡ c.n
      → Prefix.try_decode_len c v.prefix ≡ ok n
      → n ≤ c.n
      → z.validate_slice (as_slice c v) ≡ ok tt
      → (try_as_slice c v ≡ ok (as_slice c v))
        × (z.validate_slice (as_slice c v) ≡ ok tt)
        × Stores c v (as_slice c v) (drop (length (as_slice c v)) v.slots)
  unfolding try_as_slice
  accepted v n w h decoded small valid =
      let exact = len_exact c v.prefix n decoded small in
      let count : length (take n v.slots) ≡ n = omega (arith, length-take n v.slots) in
      let shown : as_slice c v ≡ take n v.slots =
        unfold as_slice in ap (λ k. take k v.slots) exact in
      let checked : z.validate_slice (take n v.slots) ≡ ok tt = rw shown at valid in
      rw (shown, count)
        (
          rw (decoded, le→leb n c.n small, checked),
          checked,
          record {
            exact = decoded ∙ ap ok (sym count);
            memory = sym (take-append-drop n v.slots);
            total = omega (arith, count, length-drop n v.slots);
            width = w;
          },
        )

  -- For a vector of the right sizes that validation accepts, the checked and the unchecked reader
  -- show the same elements, the element walk accepts them, and the stored prefix is exactly their
  -- number.
  pub validate_ref_vec :
      (v : PodVec T)
      → length v.prefix ≡ c.pfx
      → length v.slots ≡ c.n
      → validate_ref c v ≡ ok tt
      → (try_as_slice c v ≡ ok (as_slice c v))
        × (z.validate_slice (as_slice c v) ≡ ok tt)
        × Stores c v (as_slice c v) (drop (length (as_slice c v)) v.slots)
  unfolding validate_ref
  validate_ref_vec v w h e =
      let (n, decoded, checked) = >>=-eq-ok (Prefix.try_decode_len c v.prefix) _ e in
      let (_, fits, valid) = >>=-eq-ok (ensure (leb n c.n) invalid_length) _ checked in
      let small : n ≤ c.n =
        (let t = ensure-eq-ok (leb n c.n) invalid_length fits in ground (arith, t)) in
      accepted v n w h decoded small valid
