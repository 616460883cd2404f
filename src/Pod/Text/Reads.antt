-- ===== src/Pod/Text/Reads.antt =====
-- The readers of `PodString`, and the validating ones.
use pinapod.Base.{ℕ, ◌≤◌, ◌≡◌, ap, ◌∙◌, sym, arith, leb, inl, inr, Bool-cases, true}
use pinapod.Base.{List, length, take, drop, take-append-drop, length-take, length-drop}
use pinapod.Base.{le→leb, ◌↔◌}
use pinapod.Error.{invalid_length, invalid_utf8, ok, ◌>>=◌, ensure, ensure-eq-ok}
use pinapod.Error.{Result-cases, >>=-eq-ok}
use pinapod.Utf8.{is_utf8}
use pinapod.Pod.Prefix
use pinapod.Pod.Prefix.{Layout, IsLayout}
use pinapod.Pod.Prefix.Views.{Views-take, len_exact}
use pinapod.Base.Bytes.{bytes_eq_refl, bytes_eq→eq}
use pinapod.Pod.Text.{PodString, as_bytes, try_as_str, validate_ref, eq}
use pinapod.Pod.Text.Writes.{Shows, Stores}

module _ {c : Layout} where
  -- `as_bytes` is the active bytes.
  pub as_bytes_lem : (s : PodString) {xs rest : List ℕ} → Shows c s xs rest → as_bytes c s ≡ xs
  unfolding as_bytes
  as_bytes_lem s v = Views-take v

module _ (c : Layout) where
  -- The checked reader of a string accepts exactly what its validation accepts, and rejects with
  -- the same error.
  pub try_as_str-validate_ref : (s : PodString) → (try_as_str c s >>= λ _. ok tt) ≡ validate_ref c s
  unfolding try_as_str validate_ref
  try_as_str-validate_ref s = elim (Result-cases (Prefix.try_decode_len c s.prefix)) [
    | inr (e, p) ↦ rw p
    | inl (n, p) ↦ elim (Bool-cases (leb n c.n)) [
      | inr over ↦ rw (p, over)
      | inl fits ↦ rw (p, fits) (ground arith)
    ]
  ]

  accepted :
      (s : PodString) (n : ℕ)
      → length s.prefix ≡ c.pfx
      → length s.slots ≡ c.n
      → Prefix.try_decode_len c s.prefix ≡ ok n
      → n ≤ c.n
      → is_utf8 (take n s.slots) ≡ true
      → (try_as_str c s ≡ ok (as_bytes c s))
        × (is_utf8 (as_bytes c s) ≡ true)
        × Stores c s (as_bytes c s) (drop (length (as_bytes c s)) s.slots)
  unfolding try_as_str
  accepted s n w h decoded small valid =
      let exact = len_exact c s.prefix n decoded small in
      let count : length (take n s.slots) ≡ n = omega (arith, length-take n s.slots) in
      let shown : as_bytes c s ≡ take n s.slots =
        unfold as_bytes in ap (λ k. take k s.slots) exact in
      rw (shown, count)
        (
          rw (decoded, le→leb n c.n small, valid),
          valid,
          record {
            exact = decoded ∙ ap ok (sym count);
            memory = sym (take-append-drop n s.slots);
            total = omega (arith, count, length-drop n s.slots);
            width = w;
          },
        )

  -- For a string of the right sizes that validation accepts, the checked and the unchecked reader
  -- show the same bytes, they are well-formed UTF-8, and the stored prefix is exactly their
  -- number.
  pub validate_ref_text :
      (s : PodString)
      → length s.prefix ≡ c.pfx
      → length s.slots ≡ c.n
      → validate_ref c s ≡ ok tt
      → (try_as_str c s ≡ ok (as_bytes c s))
        × (is_utf8 (as_bytes c s) ≡ true)
        × Stores c s (as_bytes c s) (drop (length (as_bytes c s)) s.slots)
  unfolding validate_ref
  validate_ref_text s w h e =
      let (n, decoded, checked) = >>=-eq-ok (Prefix.try_decode_len c s.prefix) _ e in
      let (_, fits, valid) = >>=-eq-ok (ensure (leb n c.n) invalid_length) _ checked in
      let within = ensure-eq-ok (leb n c.n) invalid_length fits in
      let small : n ≤ c.n = ground (arith, within) in
      accepted s n w h decoded small (ensure-eq-ok _ invalid_utf8 valid)

-- Two strings are equal exactly when they show the same bytes, whatever stands behind those.
pub eq_iff_bytes :
    {c : Layout} (s t : PodString) {xs rest ys more : List ℕ}
    → Shows c s xs rest
    → Shows c t ys more
    → (eq c s t ≡ true) ↔ (xs ≡ ys)
unfolding eq
eq_iff_bytes s t {ys = ys} v w =
    rw (Views-take v, Views-take w) (bytes_eq→eq _ _, λ e. rw e (bytes_eq_refl ys))
