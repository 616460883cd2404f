-- ===== src/Compact/Committed/Buffer.antt =====
-- What all the writes of a commit leave in the buffer, for any plan whose tails stand one behind the
-- other.
use pinapod.Base.{
  ℕ, ◌+◌, ◌/◌, ◌≤◌, ◌≡◌, refl, ap, ◌∙◌, arith, inl, inr, Option, none, some, true, List, [], ◌∷◌,
  length, All,
}
use pinapod.Base.{All-map, All-map₂}
use pinapod.Base.Slices.{slice}
use pinapod.Error.{ok}
use pinapod.Compact.{IsTarget, header_width}
use pinapod.Compact.Edits.{Edit, null, staged, is_none}
use pinapod.Compact.Planning.{resized_len, IsStaged}
use pinapod.Compact.Relocation.{Chain, Chain-from, Inside, phases-lands}
use pinapod.Compact.Commit.{relocate}
use pinapod.Compact.Commit.Plan.{Move}
use pinapod.Compact.Commit.Moves.{phase_1a, phase_1b}
use pinapod.Compact.Commit.Writes.{put_edit, phase_2, update_header, update_lens}
use pinapod.Compact.Writing.{
  Spaced, spaced_end, spaced_end-le, Spaced-within, for_each-Acts, after-ok,
}
use pinapod.Compact.Writing.Tails.{new_block, want_tail, put_edit-Acts}
use pinapod.Compact.Writing.Header.{new_field, want_field, update_header-Acts}

abbrev pub field_width : Move → ℕ
field_width m = header_width m.tail

-- The header fields of a plan stand one behind the other.
abbrev pub Fields : ℕ → List Move → Type 0
Fields at ms = Spaced (λ m. m.at) field_width at ms

abbrev pub fields_end : ℕ → List Move → ℕ
fields_end at ms = spaced_end (λ m. m.at) field_width at ms

-- A move of a plan within a buffer of that size.
abbrev pub IsPlanned : ℕ → ℕ → Move → Type 0
IsPlanned um size m =
    Inside size m × IsStaged um m.tail m.edit × (m.new_len ≡ resized_len m.tail m.edit m.old_len)

module _ {um : ℕ} (target : IsTarget um) (front inline : ℕ) (ms : List Move) (bytes : List ℕ)
    (size : length bytes ≤ um / 2) (chain : Chain front front ms) (fields : Fields inline ms)
    (header : fields_end inline ms ≤ front) (inside : front ≤ length bytes)
    (planned : All (IsPlanned um (length bytes)) ms) where
  Chain-Spaced :
      (o n : ℕ) (ms : List Move) → Chain o n ms → Spaced (λ m. m.new_off) (λ m. m.new_len) n ms
  Chain-Spaced o n [] h = tt
  Chain-Spaced o n (m ∷ ms) (_, new, _, rest) =
      (new, Chain-Spaced (o + m.old_len) (n + m.new_len) ms rest)

  shifted : List ℕ
  shifted = phase_1b ms (phase_1a ms bytes)

  -- The tails after phase 2.
  abbrev Filled : List ℕ → Type 0
  Filled after =
      (length after ≡ length bytes)
      × All
          (λ m.
            slice m.new_off m.new_len after
            ≡ new_block m.tail m.edit (slice m.old_off m.old_len bytes))
          ms
      × ((at n : ℕ) → at + n ≤ front → slice at n after ≡ slice at n bytes)

  tail_of :
      (m : Move) (after : List ℕ) (edit : Option Edit)
      → m.new_len ≡ resized_len m.tail edit m.old_len
      → (is_none edit ≡ true → slice m.new_off m.old_len after ≡ slice m.old_off m.old_len bytes)
      → new_block m.tail edit (slice m.new_off m.new_len after)
        ≡ new_block m.tail edit (slice m.old_off m.old_len bytes)
  tail_of m after none len lands = ap (λ k. slice m.new_off k after) len ∙ lands refl
  tail_of m after (some null) len lands = refl
  tail_of m after (some (staged count source)) len lands = refl

  filled : (after : List ℕ) × (phase_2 um ms shifted ≡ (after, ok tt)) × Filled after
  unfolding shifted phase_2
  filled =
      let (len, lands, below) =
        phases-lands front front ms bytes chain (All-map (λ m p. p.0) ms planned) in
      let (after, done, len', held, apart) =
        for_each-Acts (λ m. put_edit um m m.edit) (λ m. m.new_off) (λ m. m.new_len) want_tail
          (length bytes) front ms shifted (λ m before later e. ap (new_block m.tail m.edit) e)
          (Chain-Spaced front front ms chain)
          (All-map
            (λ m p bs e.
              put_edit-Acts target bs (omega (arith, e, size)) m p.1 p.2 (omega (arith, p.0.1, e)))
            ms planned)
          len in
      (
        after,
        done,
        (
          len' ∙ len,
          All-map₂ (λ m h f. h ∙ f) ms held
              (All-map₂ (λ m p l. tail_of m shifted m.edit p.2 l) ms planned lands),
          λ at n h. apart at n (inl h) ∙ below at n h,
        ),
      )

  -- All the writes succeed. Each header field and each tail then holds what is wanted, and what
  -- stands before the header fields is as it was.
  pub relocate-lem :
      (after : List ℕ) × (relocate um ms bytes ≡ (after, ok tt))
      × (length after ≡ length bytes)
      × All
          (λ m.
            slice m.at (field_width m) after
            ≡ new_field m.tail m.edit (slice m.at (field_width m) bytes))
          ms
      × All
          (λ m.
            slice m.new_off m.new_len after
            ≡ new_block m.tail m.edit (slice m.old_off m.old_len bytes))
          ms
      × ((at n : ℕ) → at + n ≤ inline → slice at n after ≡ slice at n bytes)
  unfolding relocate update_lens shifted
  relocate-lem =
      let (middle, done, (len, tails, below)) = filled in
      let within = Spaced-within (λ m. m.at) field_width inline ms fields in
      let (after, done', len', held, apart) =
        for_each-Acts (λ m. update_header um m m.edit) (λ m. m.at) field_width want_field
          (length bytes) inline ms middle (λ m before later e. ap (new_field m.tail m.edit) e)
          fields
          (All-map₂
            (λ m p w bs e.
              update_header-Acts target bs (omega (arith, e, size)) m p.1
                (omega (arith, w, header, inside, e)))
            ms planned within)
          len in
      (
        after,
        after-ok (phase_2 um ms) (λ _. update_lens um ms) shifted middle tt done ∙ done',
        len' ∙ len,
        All-map₂
            (λ m h w.
              h
              ∙ ap (new_field m.tail m.edit)
                  (below m.at (field_width m) (omega (arith, w, header))))
            ms held within,
        All-map₂ (λ m t from. apart m.new_off m.new_len (inr (omega (arith, from.1, header))) ∙ t)
            ms tails (Chain-from front front ms chain),
        λ at n h.
            apart at n (inl h)
            ∙ below at n
                (omega (arith, h, header, spaced_end-le (λ m. m.at) field_width inline ms)),
      )
