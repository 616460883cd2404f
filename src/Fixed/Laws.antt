-- ===== src/Fixed/Laws.antt =====
-- Reading and initializing fixed values.
use pinapod.Base.{ℕ, ◌≡◌, ◌<◌, ◌≤◌, refl, ap, ◌∙◌, sym, arith, ◌⊎◌, inl, inr, List}
use pinapod.Base.{
  true, ltb, ◌==◌, length, take, drop, replicate, take-length, length-take, length-replicate,
  ltb→lt, le→ltb, lt→ltb, Bool-cases,
}
use pinapod.Base.Memory.{copy_at, fill, fill-all, copy_at-all, length-copy_at}
use pinapod.Base.Slices.{take-copy_zero, drop-copy_before}
use pinapod.Error.{
  PinaPodError, buffer_too_small, invalid_length, Result-cases, ok, err, ◌>>=◌, ◌>>◌, >>=-eq-ok,
}
use pinapod.Elem.{ZcElem, IsZcElem, Checked}
use pinapod.Fixed.{
  cast, validate_exact, validate_prefix, read_exact, read_prefix, write_back, initialize,
}

size-cases : (a b : ℕ) → (a < b) ⊎ (b < a) ⊎ (a ≡ b)
size-cases a b = ground arith

test : {a b : ℕ} → a ≡ b → (a == b) ≡ true
test {a} {b} e = ground arith

by_check : {A : Type 0} (m : Checked) (a : A) → (m >> ok a) ≡ (m >>= λ _. ok a)
by_check m a = refl

module _ (Zc : Type 0) ⦃z : ZcElem Zc⦄ where
  whole : (bytes : List ℕ) → length bytes ≡ z.size → take z.size bytes ≡ bytes
  whole bytes e = ap (λ k. take k bytes) (sym e) ∙ take-length bytes

  -- The prefix reader fails with `BufferTooSmall` on a short buffer, and otherwise does what the
  -- exact reader does on the first bytes.
  pub read_prefix_lem :
      (bytes : List ℕ)
      → ((length bytes < z.size) × (read_prefix Zc bytes ≡ err buffer_too_small))
        ⊎ ((z.size ≤ length bytes) × (read_prefix Zc bytes ≡ read_exact Zc (take z.size bytes)))
  unfolding read_prefix validate_prefix read_exact validate_exact
  read_prefix_lem bytes = elim (Bool-cases (ltb (length bytes) z.size)) [
    | inl short ↦ inl (ltb→lt _ _ short, rw short refl)
    | inr enough ↦
        let fits : z.size ≤ length bytes = ground (arith, enough) in
        let e : length (take z.size bytes) ≡ z.size =
          omega (arith, length-take z.size bytes, fits) in
        inr (fits, rw (enough, test e, cast, whole (take z.size bytes) e) refl)
  ]

module _ (Zc : Type 0) ⦃z : ZcElem Zc⦄ (laws : IsZcElem z) where
  from_zeros : z.from_bytes (replicate z.size 0) ≡ z.zeroed
  from_zeros =
      ap z.from_bytes (sym laws.to_bytes-zeroed)
      ∙ laws.from_bytes-to_bytes z.zeroed laws.zeroed-Fits

  reread :
      (value : Zc)
      → laws.Fits value
      → z.validate_ref value ≡ ok tt
      → read_exact Zc (z.to_bytes value) ≡ ok value
  unfolding read_exact validate_exact
  reread value fits valid =
      let width = laws.length-to_bytes value fits in
      rw
        (
          test width,
          cast,
          whole Zc (z.to_bytes value) width,
          laws.from_bytes-to_bytes value fits,
          valid,
        )
        refl

  -- Given a representation with the layout laws, a value that it holds, and a buffer with room
  -- for it: a write of the value, through the reference of a `_mut` reader, keeps the size of the
  -- buffer and all bytes behind the value, and then the prefix reader of the buffer and the exact
  -- reader of its first bytes return that value exactly if validation accepts it, with the error
  -- of validation otherwise.
  pub read_prefix-write_back :
      (bytes : List ℕ) (value : Zc)
      → laws.Fits value
      → z.size ≤ length bytes
      → (length (write_back Zc bytes value) ≡ length bytes)
        × (drop z.size (write_back Zc bytes value) ≡ drop z.size bytes)
        × (read_prefix Zc (write_back Zc bytes value) ≡ (z.validate_ref value >>= λ _. ok value))
        × (read_exact Zc (take z.size (write_back Zc bytes value))
            ≡ (z.validate_ref value >>= λ _. ok value))
  unfolding write_back read_prefix validate_prefix read_exact validate_exact
  read_prefix-write_back bytes value fits room =
      let width = laws.length-to_bytes value fits in
      let len = length-copy_at 0 (z.to_bytes value) bytes in
      let front : take z.size (copy_at 0 (z.to_bytes value) bytes) ≡ z.to_bytes value =
        ap (λ k. take k (copy_at 0 (z.to_bytes value) bytes)) (sym width)
        ∙ take-copy_zero (z.to_bytes value) bytes (omega (arith, width, room)) in
      let back = laws.from_bytes-to_bytes value fits in
      let enough = le→ltb (length bytes) z.size room in
      (
        len,
        drop-copy_before z.size 0 (z.to_bytes value) bytes (omega (arith, width)),
        rw (len, enough, cast, front, back) (by_check (z.validate_ref value) value),
        rw (front, test width, cast, whole Zc (z.to_bytes value) width, back)
            (by_check (z.validate_ref value) value),
      )

  -- On a buffer of the right size, the bytes of the value, or zeros.
  initialize-exact :
      (bytes : List ℕ) (configure : Zc → Zc × Checked)
      → length bytes ≡ z.size
      → laws.Fits (configure z.zeroed).0
      → initialize Zc bytes configure
        ≡ elim ((configure z.zeroed).1 >> z.validate_ref (configure z.zeroed).0) [
          | ok _ ↦ (z.to_bytes (configure z.zeroed).0, ok (configure z.zeroed).0)
          | err e ↦ (replicate (length bytes) 0, err e)
        ]
  unfolding initialize write_back
  initialize-exact bytes configure size fits =
      elim (Result-cases ((configure z.zeroed).1 >> z.validate_ref (configure z.zeroed).0)) [
        | inl (_, e) ↦
            rw (le→ltb (length bytes) z.size (omega arith), test size, read, e, written, read) refl
        | inr (_, e) ↦
            rw
              (
                le→ltb (length bytes) z.size (omega arith),
                test size,
                read,
                e,
                written,
                fill-all 0 (z.to_bytes (configure z.zeroed).0),
                width,
                size,
              )
              refl
      ]
    where
      width : length (z.to_bytes (configure z.zeroed).0) ≡ z.size
      width = laws.length-to_bytes (configure z.zeroed).0 fits

      blank : fill 0 (length bytes) 0 bytes ≡ replicate z.size 0
      blank = fill-all 0 bytes ∙ ap (λ k. replicate k 0) size

      read : cast Zc (fill 0 (length bytes) 0 bytes) ≡ z.zeroed
      read = rw (blank, cast, whole Zc (replicate z.size 0) (length-replicate z.size 0)) from_zeros

      stored :
          copy_at 0 (z.to_bytes (configure z.zeroed).0) (replicate z.size 0)
          ≡ z.to_bytes (configure z.zeroed).0
      stored = copy_at-all _ (replicate z.size 0) (width ∙ sym (length-replicate z.size 0))

      written :
          write_back Zc
            (fill 0 (length bytes) 0 bytes)
            (configure (cast Zc (fill 0 (length bytes) 0 bytes))).0
          ≡ z.to_bytes (configure z.zeroed).0
      written = rw (read, blank) stored

  initialize-made :
      (bytes : List ℕ) (configure : Zc → Zc × Checked)
      → length bytes ≡ z.size
      → laws.Fits (configure z.zeroed).0
      → let (after, result) = initialize Zc bytes configure in
        let (value, done) = configure z.zeroed in
        ((result ≡ ok value) × (done ≡ ok tt) × (read_exact Zc after ≡ ok value))
        ⊎ ((e : PinaPodError) × (result ≡ err e)
            × ((done >> z.validate_ref value) ≡ err e)
            × (after ≡ replicate (length bytes) 0))
  initialize-made bytes configure size fits =
      let (value, done) = configure z.zeroed in
      elim (Result-cases (done >> z.validate_ref value)) [
        | inr (e, failed) ↦ inr (
          e,
          rw (initialize-exact bytes configure size fits, failed) refl,
          failed,
          rw (initialize-exact bytes configure size fits, failed) refl,
        )
        | inl (_, passed) ↦ inl (
            let (_, configured, valid) = >>=-eq-ok done (λ _. z.validate_ref value) passed in
            rw (initialize-exact bytes configure size fits, passed)
              (refl, configured, reread value fits valid))
      ]

  -- Given a representation with the layout laws and a closure that stays within it,
  -- initialization leaves one of these: the error of a short or of a long buffer, with the buffer
  -- unchanged; the configured value, which the buffer then reads as; or the error of the closure
  -- or of validation, with every byte zero.
  pub initialize-cases :
      (bytes : List ℕ) (configure : Zc → Zc × Checked)
      → ((x : Zc) → laws.Fits x → laws.Fits (configure x).0)
      → let (after, result) = initialize Zc bytes configure in
        let (value, done) = configure z.zeroed in
        ((length bytes < z.size) × (after ≡ bytes) × (result ≡ err buffer_too_small))
        ⊎ ((z.size < length bytes) × (after ≡ bytes) × (result ≡ err invalid_length))
        ⊎ ((result ≡ ok value) × (done ≡ ok tt) × (read_exact Zc after ≡ ok value))
        ⊎ ((e : PinaPodError) × (result ≡ err e)
            × ((done >> z.validate_ref value) ≡ err e)
            × (after ≡ replicate (length bytes) 0))
  unfolding initialize write_back
  initialize-cases bytes configure keeps = elim (size-cases (length bytes) z.size) [
    | inl short ↦ inl (
      short,
      rw (lt→ltb (length bytes) z.size short) refl,
      rw (lt→ltb (length bytes) z.size short) refl,
    )
    | inr (inl long) ↦ inr (inl (long, ground (arith, long), ground (arith, long)))
    | inr (inr size) ↦
        inr (inr (initialize-made bytes configure size (keeps z.zeroed laws.zeroed-Fits)))
  ]
