-- ===== src/Compact/Planning.antt =====
-- The moves that a plan holds, written without checks, and the plan of `generate_commit_body`
-- (pinapod-derive/src/compact.rs) against them.
pub mod Lengths
pub mod Setup
use pinapod.Base.{
  ℕ, ◌+◌, ◌-◌, ◌*◌, ◌/◌, ◌≤◌, ◌≡◌, refl, ap, sym, ◌∙◌, arith, inl, inr, Option, none, some, true,
  false, List, [], ◌∷◌, ◌++◌, ltb, leb, ◌==◌, if◌then◌else◌, length, get_or, All,
}
use pinapod.Base.{le→leb, length-append}
use pinapod.Base.Bytes.{IsByte}
use pinapod.Base.Slices.{slice, length-slice}
use native.Mathlib.Nat.{mod-eq_of_lt}
use Prim.Native.String.{String}
use pinapod.Error.{ok, ok-eq, err, >>=-eq-ok, Returns-of, ensure, invalid_tag}
use pinapod.Compact.Support.{checked_add, checked_mul, check_prefix, decode_prefix, read_prefix}
use pinapod.Compact.{
  TailPresence, always, option_tag, TailPayload, string, vector, Tail, pfx_of, header_width,
  field_bytes, capacity_checks, IsTarget, walk_tails,
}
use pinapod.Compact.Walks.{Segment, bounds, semantic, full_step}
use pinapod.Compact.Views.{payload_len, read_len, offset_step, field_at}
use pinapod.Compact.Accessors.{read_len-decode}
use pinapod.Compact.Sound.{step-Meets}
use pinapod.Compact.Optionals.{bounds-Meets}
use pinapod.Compact.Edits.{
  Edit, null, staged, Writer, is_none, byte_len, old_option_size, old_size, new_option_size,
  new_size,
}
use pinapod.Compact.Commit.Plan.{Move, placed, offsets, resized, setup, range_checks, final_total}
use pinapod.Compact.Relocation.{Chain, Inside}
use pinapod.Compact.Stored.{max_of, Value, HeaderOf, BlockOf, Stored, read-decoded, decode-small}
use pinapod.Compact.Stored.Forward.{get_or-field}
use pinapod.Compact.Stored.Back.{bounds-Back}

-- The length of an edited tail.
abbrev pub edit_len : Tail → Edit → ℕ
edit_len t null = 0
edit_len t (staged count source) = elim t.presence [
  | always ↦ length source
  | option_tag ↦ pfx_of t.payload + length source
]

abbrev pub resized_len : Tail → Option Edit → ℕ → ℕ
resized_len t none old = old
resized_len t (some edit) old = edit_len t edit

-- What a setter stages: an optional tail may be cleared, and a value passed its checks.
abbrev pub IsStaged : (um : ℕ) → Tail → Option Edit → Type 0
IsStaged um t none = Unit
IsStaged um t (some null) = t.presence ≡ option_tag
IsStaged um t (some (staged count source)) =
    Value t.payload count source
    × (check_prefix um count (pfx_of t.payload) ≡ ok tt)
    × (semantic um [] t.payload (some (count, source)) ≡ ok tt)
    × All IsByte source

abbrev pub AllStaged : (um : ℕ) → List Tail → List (Option Edit) → Type 0
AllStaged um [] [] = Unit
AllStaged um [] (e ∷ es) = ⊥
AllStaged um (t ∷ ts) [] = ⊥
AllStaged um (t ∷ ts) (e ∷ es) = IsStaged um t e × AllStaged um ts es

module _ (um : ℕ) (bytes : List ℕ) where
  -- The bytes that a tail takes, from its offset to the next.
  abbrev pub stored_len : Tail → ℕ → ℕ → ℕ
  stored_len t at offset = offset_step um bytes t at offset - offset

  unfoldable pub moves_of : List Tail → List (Option Edit) → ℕ → ℕ → ℕ → List Move
  moves_of [] es at o n = []
  moves_of (t ∷ ts) [] at o n = []
  moves_of (t ∷ ts) (e ∷ es) at o n =
      let old = stored_len t at o in
      let new = resized_len t e old in
      placed t at e (o, n) old new ∷ moves_of ts es (at + header_width t) (o + old) (n + new)

  -- The end of the tails after the commit.
  unfoldable pub new_end : List Tail → List (Option Edit) → ℕ → ℕ → ℕ → ℕ
  new_end [] es at o n = n
  new_end (t ∷ ts) [] at o n = n
  new_end (t ∷ ts) (e ∷ es) at o n =
      let old = stored_len t at o in
      new_end ts es (at + header_width t) (o + old) (n + resized_len t e old)

  pub moves_of-Chain :
      (ts : List Tail) (es : List (Option Edit)) (at o n : ℕ) → Chain o n (moves_of ts es at o n)
  unfolding moves_of
  moves_of-Chain [] es at o n = tt
  moves_of-Chain (t ∷ ts) [] at o n = tt
  moves_of-Chain (t ∷ ts) (none ∷ es) at o n =
      (refl, refl, λ h. refl, moves_of-Chain ts es (at + header_width t) _ _)
  moves_of-Chain (t ∷ ts) (some e ∷ es) at o n =
      (refl, refl, λ h. absurd (ground (arith, h)), moves_of-Chain ts es (at + header_width t) _ _)

  pub new_end-le :
      (ts : List Tail) (es : List (Option Edit)) (at o n : ℕ) → n ≤ new_end ts es at o n
  unfolding new_end
  new_end-le [] es at o n = omega arith
  new_end-le (t ∷ ts) [] at o n = omega arith
  new_end-le (t ∷ ts) (e ∷ es) at o n = omega (
    arith,
    new_end-le ts es (at + header_width t) (o + stored_len t at o)
        (n + resized_len t e (stored_len t at o)),
  )

module _ {um : ℕ} (target : IsTarget um) (bytes : List ℕ) (bytes-IsByte : All IsByte bytes)
    (size : length bytes ≤ um / 2) where
  -- A tail that the full step accepts is stored, as the accessor shows it.
  pub step-Stored :
      (t : Tail) (at offset next : ℕ)
      → capacity_checks um t.payload ≡ true
      → offset ≤ length bytes
      → full_step um bytes t at offset ≡ ok next
      → Stored um bytes t at offset
          (field_at um bytes t at offset)
          (slice offset (stored_len um bytes t at offset) bytes)
        × (semantic um bytes t.payload (field_at um bytes t at offset) ≡ ok tt)
        × (offset + stored_len um bytes t at offset ≡ next)
        × (next ≤ length bytes)
  unfolding full_step
  step-Stored t at offset next h inside e =
      let (valid, moved, within) =
        step-Meets target bytes bytes-IsByte size t at offset next h inside e in
      let (r, walked, checked) = >>=-eq-ok (bounds um bytes t at offset) _ e in
      let (shown, stepped) =
        Returns-of _ (bounds um bytes t at offset) r
          (bounds-Meets target bytes bytes-IsByte size t at offset h inside) walked in
      let (block, (field, kind, there, room), ends) =
        bounds-Back target bytes bytes-IsByte size t.name t.presence t.payload at offset r h inside
          walked in
      let len : stored_len um bytes t at offset ≡ length block = omega (arith, ends, stepped) in
      let same : slice offset (stored_len um bytes t at offset) bytes ≡ block =
        ap (λ k. slice offset k bytes) len ∙ there in
      (
        rw (same, shown) (field, kind, there, room),
        valid,
        omega (arith, len, ends, stepped, moved),
        within,
      )
