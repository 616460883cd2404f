-- ===== src/Compact/Patched/Filled.antt =====
-- What `initialize` of a patch (pinapod-derive/src/compact.rs) leaves where it succeeds, in a build
-- whose commits validate in full.
use pinapod.Base.{
  ℕ, zero, suc, ◌+◌, ◌/◌, ◌≤◌, ◌≡◌, refl, ap, sym, ◌∙◌, arith, inl, inr, Option, none, some, true,
  List, [], ◌∷◌, length, All, map, get_or, get_elem?, take, replicate, ltb, Bool-cases,
}
use pinapod.Base.Bytes.{IsByte}
use pinapod.Base.{length-replicate}
use pinapod.Base.Memory.{fill-all}
use pinapod.Base.Slices.{slice}
use pinapod.Error.{PinaPodError, Result, ok, err, ok-eq, >>=-eq-ok}
use pinapod.Compact.{
  Inline, Tail, Schema, header_size, inline_size, IsTarget, IsCompact, validate_storage_len,
}
use pinapod.Compact.Walks.{validate, commit_entry_validate}
use pinapod.Compact.Views.{accessor, current_encoded_len}
use pinapod.Compact.Edits.{Writer, new_unchecked}
use pinapod.Compact.Commit.{commit, commit_of, commit_header, commit_tails, commit_plan}
use pinapod.Compact.Commit.Plan.{Move, plan}
use pinapod.Compact.Committed.{commit_lem, commit-refused}
use pinapod.Compact.Committed.Tails.{new_segment}
use pinapod.Compact.Committed.Writer.{IsWriter, committed_len, start}
use pinapod.Compact.Patch.{
  Patch, check_inlines, validate_inputs, stage_value, initialized_len, initialize_end,
  initialize_planned, try_initialize, initialize, initial_writer, zeroed, zero_failed,
}
use pinapod.Compact.Patched.Inputs.{TailsTyped, InlinesTyped, check_tails-AllStaged}
use pinapod.Compact.Patched.Inlines.{
  Patched, length-inline_writes, inline_writes-Octets, drop-inline_writes, inline_writes-Patched,
}
use pinapod.Compact.Patched.Swap.{tails-swap}
use pinapod.Compact.Patched.Zeros.{initial_segment, accessor-zeros}

-- A commit that succeeds passed its entry check.
module _ (um : ℕ) (s : Schema) (top alignment : ℕ) (w after : Writer) (n : ℕ) where
  commit_plan-made :
      (r : Result PinaPodError (List Move × ℕ))
      → commit_plan um w r ≡ (after, ok n)
      → (p : List Move × ℕ) × (r ≡ ok p)
  unfolding commit_plan
  commit_plan-made (err e) h = absurd (ground (arith, ap (λ x. x.1) h))
  commit_plan-made (ok p) h = (p, refl)

  commit_of-valid :
      (ts : List Tail)
      → commit_of um s top alignment true ts w ≡ (after, ok n)
      → validate um s top alignment w.bytes ≡ ok tt
  unfolding commit_of commit_header commit_tails plan commit_entry_validate
  commit_of-valid [] e = (>>=-eq-ok (validate um s top alignment w.bytes) _ (ap (λ r. r.1) e)).1
  commit_of-valid (t ∷ ts) e =
      let (_, made) = commit_plan-made (plan um s top alignment true w) e in
      (>>=-eq-ok (validate um s top alignment w.bytes) _ made).1

  commit-valid :
      commit um s top alignment true w ≡ (after, ok n) → validate um s top alignment w.bytes ≡ ok tt
  unfolding commit
  commit-valid e = commit_of-valid s.tail_fields e

module _ (um : ℕ) (s : Schema) (top alignment : ℕ) (patch : Patch) (after : List ℕ) (n : ℕ) where
  initialize_end-made :
      (expected : ℕ) (r : Writer × Result PinaPodError ℕ)
      → initialize_end um s top alignment expected r ≡ (after, ok n)
      → (w : Writer) × (r ≡ (w, ok n)) × (w.bytes ≡ after)
  unfolding initialize_end
  initialize_end-made expected (w, err e) h = absurd (ground (arith, ap (λ x. x.1) h))
  initialize_end-made expected (w, ok k) h =
      let (_, _, rest) =
        >>=-eq-ok (validate um s top alignment (take k w.bytes)) _ (ap (λ x. x.1) h) in
      let same : k ≡ n = ground (arith, rest) in (w, ap (λ x. (w, ok x)) same, ap (λ x. x.0) h)

  initialize_planned-made :
      (bytes : List ℕ) (r : Result PinaPodError ℕ)
      → initialize_planned um s top alignment true patch bytes r ≡ (after, ok n)
      → (expected : ℕ) × (r ≡ ok expected)
        × (initialize_end um s top alignment expected
              (commit um s top alignment true (initial_writer um s patch bytes))
            ≡ (after, ok n))
  unfolding initialize_planned
  initialize_planned-made bytes (err e) h = absurd (ground (arith, ap (λ x. x.1) h))
  initialize_planned-made bytes (ok expected) h = elim (Bool-cases (ltb (length bytes) expected)) [
    | inl long ↦ absurd (ground (arith, ap (λ x. x.1) (rw long at h)))
    | inr fits ↦ (expected, refl, rw fits at h)
  ]

  zero_failed-made :
      (r : List ℕ × Result PinaPodError ℕ) → zero_failed r ≡ (after, ok n) → r ≡ (after, ok n)
  zero_failed-made (l, ok k) h = h
  zero_failed-made (l, err e) h = absurd (ground (arith, ap (λ x. x.1) h))

  -- A successful `initialize` passed its checks and committed its writer.
  initialize-made :
      (bytes : List ℕ)
      → initialize um s top alignment true patch bytes ≡ (after, ok n)
      → (validate_inputs um s patch ≡ ok tt)
        × ((w : Writer) × (commit um s top alignment true (initial_writer um s patch (zeroed bytes))
              ≡ (w, ok n))
            × (w.bytes ≡ after))
  unfolding initialize try_initialize initialized_len
  initialize-made bytes e =
      let (expected, planned, ends) =
        initialize_planned-made (zeroed bytes) _ (zero_failed-made _ e) in
      let (_, _, counted) =
        >>=-eq-ok (validate_storage_len (header_size s) top alignment (length (zeroed bytes))) _
          planned in
      let (_, inputs, _) = >>=-eq-ok (validate_inputs um s patch) _ counted in
      (inputs, initialize_end-made expected _ ends)

-- A buffer of the size that encodes `n` bytes and holds the patch, over blank fields.
abbrev pub Filled :
    (um : ℕ) (s : Schema) (top alignment : ℕ) → Patch → (size n : ℕ) → List ℕ → Type 0
Filled um s top alignment patch size n after =
    (validate um s top alignment after ≡ ok tt)
    × (current_encoded_len um s after ≡ n)
    × Patched s.inline_fields patch.inlines 0 (replicate size 0) after
    × ((i : ℕ) (t : Tail)
        → get_elem? s.tail_fields i ≡ some t
        → accessor um s after i
          ≡ new_segment (get_or (map stage_value patch.tails) i none) (initial_segment t.presence))

zeros-IsByte : (k : ℕ) → All IsByte (replicate k 0)
zeros-IsByte zero = tt
zeros-IsByte (suc k) = (omega arith, zeros-IsByte k)

Patched-after :
    (fs : List Inline) (vs : List (Option (List ℕ))) (at front : ℕ) (bytes middle after : List ℕ)
    → ((x k : ℕ) → x + k ≤ front → slice x k after ≡ slice x k middle)
    → at + inline_size fs ≤ front
    → Patched fs vs at bytes middle
    → Patched fs vs at bytes after
unfolding inline_size
Patched-after [] vs at front bytes middle after same fits h = tt
Patched-after (f ∷ fs) [] at front bytes middle after same fits h = h
Patched-after (f ∷ fs) (v ∷ vs) at front bytes middle after same fits h = (
  same at f.elem.size (omega (arith, fits)) ∙ h.0,
  Patched-after fs vs (at + f.elem.size) front bytes middle after same (omega (arith, fits)) h.1,
)

module _ {um : ℕ} (target : IsTarget um) (s : Schema) (top alignment : ℕ)
    (compiles : IsCompact um s) (patch : Patch)
    (typed : InlinesTyped s.inline_fields patch.inlines × TailsTyped s.tail_fields patch.tails)
    (size : ℕ) (small : size ≤ um / 2) (n : ℕ) where
  abbrev blank : List ℕ
  blank = replicate size 0

  abbrev first : Writer
  first = initial_writer um s patch blank

  module _ (inputs : validate_inputs um s patch ≡ ok tt)
      (valid : validate um s top alignment first.bytes ≡ ok tt) where
    first-octets : All IsByte first.bytes
    first-octets =
        inline_writes-Octets s.inline_fields patch.inlines 0 blank typed.0 (zeros-IsByte size)

    first-len : length first.bytes ≡ size
    first-len = length-inline_writes s.inline_fields patch.inlines 0 blank ∙ length-replicate size 0

    -- The tails of the blank buffer are those of the first writer.
    blank-tails :
        (current_encoded_len um s blank ≡ current_encoded_len um s first.bytes)
        × ((i : ℕ) → accessor um s blank i ≡ accessor um s first.bytes i)
    blank-tails =
        tails-swap target s top alignment compiles first.bytes blank first-octets
          (zeros-IsByte size) (omega (arith, first-len, small))
          (sym (length-inline_writes s.inline_fields patch.inlines 0 blank))
          (λ x h.
            sym (
              drop-inline_writes s.inline_fields patch.inlines 0 blank x typed.0
                (omega (arith, h))))
          valid

    first-IsWriter : IsWriter um s top alignment first
    unfolding validate_inputs new_unchecked
    first-IsWriter =
        let (_, _, tails) = >>=-eq-ok (check_inlines um s.inline_fields patch.inlines) _ inputs in
        record {
          accepted = valid;
          octets = first-octets;
          size = omega (arith, first-len, small);
          counted = blank-tails.0;
          staged_edits = check_tails-AllStaged um s.tail_fields patch.tails typed.1 tails;
        }

  committed-Filled :
      (w : Writer)
      → validate_inputs um s patch ≡ ok tt
      → commit um s top alignment true first ≡ (w, ok n)
      → Filled um s top alignment patch size n w.bytes
  unfolding header_size new_unchecked
  committed-Filled w inputs done =
      let valid = commit-valid um s top alignment first w n done in
      let writer = first-IsWriter inputs valid in
      let (_, inside, _) = start target s top alignment compiles first writer in
      elim (Bool-cases (ltb (length first.bytes) (committed_len um s first))) [
        | inl long ↦
            let (e, refused) =
              commit-refused target s top alignment compiles first writer true
                (ground (arith, long)) in
            absurd (ground (arith, ap (λ r. r.1) (sym refused ∙ done)))
        | inr fits ↦
            let (after, made, (writer', total, len, shown, front, _, _)) =
              commit_lem target s top alignment compiles first writer true (ground (arith, fits)) in
            let same : w ≡ after = ap (λ r. r.0) (sym done ∙ made) in
            let exact : committed_len um s first ≡ n = ok-eq (ap (λ r. r.1) (sym made ∙ done)) in
            let written =
              inline_writes-Patched s.inline_fields patch.inlines 0 blank typed.0
                (omega (arith, inside, first-len inputs valid, length-replicate {A = ℕ} size 0)) in
            rw same (
              writer'.accepted,
              sym writer'.counted ∙ total ∙ exact,
              Patched-after s.inline_fields patch.inlines 0 (inline_size s.inline_fields) blank
                  first.bytes after.bytes front (omega arith) written,
              λ i t found.
                  shown i
                  ∙ ap (new_segment (get_or (map stage_value patch.tails) i none))
                      (sym ((blank-tails inputs valid).1 i) ∙ accessor-zeros um size s i t found),
            )
      ]

module _ {um : ℕ} (target : IsTarget um) (s : Schema) (top alignment : ℕ)
    (compiles : IsCompact um s) (patch : Patch)
    (typed : InlinesTyped s.inline_fields patch.inlines × TailsTyped s.tail_fields patch.tails)
    (bytes : List ℕ) (small : length bytes ≤ um / 2) where
  -- On a target of 32 to 64 bits, for a schema whose compile-time assertions hold, a patch whose
  -- values have the bytes that their types promise, and a destination no longer than
  -- `isize::MAX`, in a build whose commits validate in full: where `initialize` succeeds,
  -- `validate` accepts the whole destination, whose encoded length is the one returned, and each
  -- field reads back as the patched value, or else as zero bytes, an empty value or none.
  pub initialize-Filled :
      (after : List ℕ) (n : ℕ)
      → initialize um s top alignment true patch bytes ≡ (after, ok n)
      → Filled um s top alignment patch (length bytes) n after
  initialize-Filled after n e =
      let (inputs, (w, done, same)) = initialize-made um s top alignment patch after n bytes e in
      rw (← same) (
        committed-Filled target s top alignment compiles patch typed (length bytes) small n w inputs
          (rw (fill-all {A = ℕ} 0 bytes) at done))
