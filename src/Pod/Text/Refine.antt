-- ===== src/Pod/Text/Refine.antt =====
-- `PodString` against its specification: a well-formed text of at most `N` bytes.
use pinapod.Base.{ℕ, ◌+◌, ◌-◌, ◌≡◌, refl, ap, ap₂, ◌∙◌, arith, ltb, leb, true}
use pinapod.Base.{List, [], ◌∷◌, ◌++◌, Bool-cases, inl, inr, if◌then◌else◌, drop-replicate}
use pinapod.Base.{
  length, length-replicate, replicate, replicate-add, take, le→leb, take-length_append,
}
use pinapod.Error.{overflow, ok, err}
use pinapod.Elem.{Checked}
use pinapod.Utf8.{is_utf8}
use pinapod.Utf8.Laws.{is_utf8-nil, is_utf8-append}
use pinapod.Pod.Prefix.{Layout, IsLayout}
use pinapod.Pod.Prefix.Views.{Holds-Views}
use pinapod.Pod.Text
use pinapod.Pod.Text.{PodString, round_down, new_default}
use pinapod.Pod.Text.Writes.{
  Stores, try_set_text, try_set-overflow, try_push_str_lem, try_push_str-overflow,
}
use pinapod.Pod.Text.Writes.{clear_lem}
use pinapod.Pod.Text.Truncate.{truncate_text, truncate_noop}

-- A client's calls. The arguments of the first two are texts: their bytes are well formed.
pub data Op : Type 0 where
  try_set try_push_str : (value : List ℕ) → is_utf8 value ≡ true → Op
  truncate : ℕ → Op
  clear : Op

-- The text afterwards, and the result.
unfoldable pub spec : ℕ → List ℕ → Op → List ℕ × Checked
spec n xs (try_set value _) = if ltb n (length value) then (xs, err overflow) else (value, ok tt)
spec n xs (try_push_str value _) =
    if ltb n (length xs + length value) then (xs, err overflow) else (xs ++ value, ok tt)
spec n xs (truncate k) =
    if leb (length xs) k then (xs, ok tt) else (take (round_down xs k) xs, ok tt)
spec n xs clear = ([], ok tt)

module _ (c : Layout) where
  -- The string holds the text `xs`, its prefix is the exact length, and all the bytes behind it are
  -- zero.
  abbrev pub Canonical : PodString → List ℕ → Type 0
  Canonical s xs = (is_utf8 xs ≡ true) × Stores c s xs (replicate (c.n - length xs) 0)

  unfoldable pub step : PodString → Op → PodString × Checked
  step s (try_set value _) = Text.try_set c s value
  step s (try_push_str value _) = Text.try_push_str c s value
  step s (truncate k) = (Text.truncate c s k, ok tt)
  step s clear = (Text.clear c s, ok tt)

  unfoldable pub run : PodString → List Op → PodString × List Checked
  run s [] = (s, [])
  run s (op ∷ ops) = let (t, r) = step s op in let (u, rs) = run t ops in (u, r ∷ rs)

unfoldable pub spec_run : ℕ → List ℕ → List Op → List ℕ × List Checked
spec_run n xs [] = (xs, [])
spec_run n xs (op ∷ ops) =
    let (ys, r) = spec n xs op in let (zs, rs) = spec_run n ys ops in (zs, r ∷ rs)

module _ {c : Layout} (l : IsLayout c) where
  Canonical-of :
      {s : PodString} {xs rest : List ℕ} (k : ℕ)
      → is_utf8 xs ≡ true
      → Stores c s xs rest
      → rest ≡ replicate k 0
      → Canonical c s xs
  Canonical-of {xs = xs} k good s e =
      let count : k ≡ c.n - length xs =
        omega (arith, s.total, ap length e, length-replicate {A = ℕ} k 0) in
      (good, rw (← ap (λ m. replicate {A = ℕ} m 0) count, ← e) s)

  -- Each call returns what the specification returns, and leaves the string holding the new text,
  -- well formed, with zeros behind it.
  pub step_refines_text :
      (s : PodString) (xs : List ℕ) (op : Op)
      → Canonical c s xs
      → ((step c s op).1 ≡ (spec c.n xs op).1) × Canonical c (step c s op).0 (spec c.n xs op).0
  unfolding step spec
  step_refines_text s xs (try_set value text) (good, h) =
      elim (Bool-cases (ltb c.n (length value))) [
        | inl over ↦ rw (over, try_set-overflow l s value (ground arith)) (refl, (good, h))
        | inr fits ↦
            let (done, kept) = try_set_text l s value (Holds-Views h) (ground arith) in
            rw fits (
              done,
              Canonical-of
                  (length xs - length value + (c.n - length xs - (length value - length xs))) text
                  kept
                  (ap (λ t. replicate (length xs - length value) 0 ++ t)
                      (drop-replicate (length value - length xs) (c.n - length xs) 0)
                    ∙ replicate-add (length xs - length value) _ 0),
            )
      ]
  step_refines_text s xs (try_push_str value text) (good, h) =
      elim (Bool-cases (ltb c.n (length xs + length value))) [
        | inl over ↦
            rw
              (
                over,
                try_push_str-overflow l s value (Holds-Views h)
                    (rw (length-replicate {A = ℕ} (c.n - length xs) 0) (ground (arith, h.total))),
              )
              (refl, (good, h))
        | inr fits ↦
            let (done, kept) =
              try_push_str_lem l s value (Holds-Views h)
                (rw (length-replicate {A = ℕ} (c.n - length xs) 0) (ground arith)) in
            rw fits (
              done,
              Canonical-of (c.n - length xs - length value) (is_utf8-append xs value good text) kept
                  (drop-replicate (length value) (c.n - length xs) 0),
            )
      ]
  step_refines_text s xs (truncate k) (good, h) = elim (Bool-cases (leb (length xs) k)) [
    | inl longer ↦ rw (longer, truncate_noop l s k (Holds-Views h) (ground arith)) (refl, (good, h))
    | inr shorter ↦
        let (_, _, text, kept) = truncate_text l s k (Holds-Views h) good (ground arith) in
        rw shorter (
          refl,
          Canonical-of (length xs - round_down xs k + (c.n - length xs)) text kept
              (replicate-add (length xs - round_down xs k) _ 0),
        )
  ]
  step_refines_text s xs clear (good, h) = (
    refl,
    Canonical-of (length xs + (c.n - length xs)) is_utf8-nil (clear_lem l s (Holds-Views h))
        (replicate-add (length xs) _ 0),
  )

  -- Each sequence of calls, with well-formed arguments, on a string that stores a well-formed
  -- text with zeros behind it returns what the bounded text returns, and leaves the string
  -- storing the new text, well formed, with zeros behind it.
  pub run_refines_text :
      (ops : List Op) (s : PodString) (xs : List ℕ)
      → Canonical c s xs
      → ((run c s ops).1 ≡ (spec_run c.n xs ops).1)
        × Canonical c (run c s ops).0 (spec_run c.n xs ops).0
  unfolding run spec_run
  run_refines_text [] s xs h = (refl, h)
  run_refines_text (op ∷ ops) s xs h =
      let (reply, next) = step_refines_text s xs op h in
      let (replies, last) = run_refines_text ops (step c s op).0 (spec c.n xs op).0 next in
      (ap₂ ◌∷◌ reply replies, last)

  -- A string that stores a well-formed text with zeros behind it passes validation, and the
  -- checked reader returns that text.
  pub Canonical-valid :
      (s : PodString) (xs : List ℕ)
      → Canonical c s xs
      → (Text.validate_ref c s ≡ ok tt) × (Text.try_as_str c s ≡ ok xs)
  unfolding Text.validate_ref Text.try_as_str
  Canonical-valid s xs (good, h) =
      let shown : take (length xs) s.slots ≡ xs = rw h.memory (take-length_append xs _) in
      let fits = le→leb (length xs) c.n (omega (arith, h.total)) in
      (rw (h.exact, fits, shown, good) refl, rw (h.exact, fits, shown, good) refl)
