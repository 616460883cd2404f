-- ===== src/Compact/Allocation.antt =====
-- The active end of a compact representation, taken as an allocation.
use pinapod.Base.{ℕ, ◌+◌, ◌-◌, ◌%◌, ◌/◌, ◌≤◌, ◌≡◌, arith, inl, inr}
use pinapod.Base.{
  none, some, true, List, [], ◌∷◌, ◌==◌, if◌then◌else◌, length, get_or, All, Bool-cases,
  Option-cases,
}
use pinapod.Base.Bytes.{IsByte}
use Prim.Native.Nat.{◌∣◌}
use native.Mathlib.Nat.{dvd-zero, dvd-add, mod-eq-zero_of_dvd}
use pinapod.Error.{invalid_tag, ok, err, Returns, Returns->>=, Returns-of, >>=-eq-ok}
use pinapod.Compact.{option_tag, Tail, Schema, pfx_of, header_width, header_size, inline_size}
use pinapod.Compact.{walk_tails, validate_storage_len, capacity_checks, IsTarget, IsCompact}
use pinapod.Compact.Walks.{some_bounds, bounds, layout_step, layout_end}
use pinapod.Compact.Sizes.{
  checked, payload_max, contribution, max_steps, compact_max_size, compact_tail_alignment, atoms,
}
use pinapod.Compact.Divides.{compact_tail_alignment-dvd}
use pinapod.Compact.Bounds.{presence-cases, bounds-Within}
use pinapod.Compact.Contract.{storage-fits}
use pinapod.Compact.Exact.{Grown, checked-value, always-Grown, some-Grown}

module _ {um : ℕ} (target : IsTarget um) (bytes : List ℕ) (bytes-IsByte : All IsByte bytes)
    (size : length bytes ≤ um / 2) (a : ℕ) where
  tag-Grown :
      (t : Tail) (offset most tag : ℕ)
      → capacity_checks um t.payload ≡ true
      → offset ≤ length bytes
      → payload_max um t.payload ≡ some most
      → t.presence ≡ option_tag
      → All (λ n. a ∣ n) (atoms t)
      → Returns
          (λ r. Grown a (most + pfx_of t.payload) offset r.1)
          (if tag == 0
            then ok (none, offset)
            else if tag == 1
            then some_bounds um bytes t.payload offset
            else err invalid_tag)
  unfolding atoms
  tag-Grown t offset most tag h inside e p units = elim (Bool-cases (tag == 0)) [
    | inl absent ↦ rw absent (0, omega arith, omega arith, dvd-zero a)
    | inr other ↦ elim (Bool-cases (tag == 1)) [
      | inl present ↦
          rw (other, present)
            (some-Grown target bytes bytes-IsByte size a t.payload offset most h inside e
              (rw p at units))
      | inr wrong ↦ rw (other, wrong) tt
    ]
  ]

  bounds-Grown :
      (t : Tail) (at offset added : ℕ)
      → capacity_checks um t.payload ≡ true
      → offset ≤ length bytes
      → contribution um t ≡ some added
      → All (λ n. a ∣ n) (atoms t)
      → Returns (λ r. Grown a added offset r.1) (bounds um bytes t at offset)
  unfolding bounds contribution atoms
  bounds-Grown t at offset added h inside c units = elim (Option-cases (payload_max um t.payload)) [
    | inl e ↦ absurd (ground (arith, e))
    | inr (most, e) ↦ elim (presence-cases t.presence) [
      | inl p ↦
          let same : most ≡ added = ground (arith, e, p) in
          rw (p, ← same)
            (always-Grown target bytes bytes-IsByte size a t.payload at offset most h inside e
              (rw p at units))
      | inr p ↦
          let sum : checked um (most + pfx_of t.payload) ≡ some added = ground (arith, e, p, c) in
          rw (p, checked-value um (most + pfx_of t.payload) added sum)
            (tag-Grown t offset most (get_or bytes at 0) h inside e p units)
    ]
  ]

  step-Grown :
      (t : Tail) (at offset added : ℕ)
      → capacity_checks um t.payload ≡ true
      → offset ≤ length bytes
      → contribution um t ≡ some added
      → All (λ n. a ∣ n) (atoms t)
      → Returns
          (λ next. (next ≤ length bytes) × Grown a added offset next)
          (layout_step um bytes t at offset)
  unfolding layout_step
  step-Grown t at offset added h inside c units =
      Returns->>= (λ next. (next ≤ length bytes) × Grown a added offset next)
        (bounds um bytes t at offset) _
        λ r e. (
          Returns-of _ (bounds um bytes t at offset) r (bounds-Within um bytes t at offset inside)
              e,
          Returns-of _ (bounds um bytes t at offset) r
              (bounds-Grown t at offset added h inside c units) e,
        )

  -- The walk from `offset`, which is reached from `base` in steps of `a`.
  walk-Grown :
      (ts : List Tail) (at base offset acc top : ℕ)
      → All (λ t. capacity_checks um t.payload ≡ true) ts
      → All (λ t. All (λ n. a ∣ n) (atoms t)) ts
      → max_steps um ts acc ≡ some top
      → offset ≤ length bytes
      → offset ≤ acc
      → (d : ℕ) → offset ≡ base + d
      → a ∣ d
      → Returns
          (λ end. (end ≤ length bytes) × (end ≤ top) × ((g : ℕ) × (end ≡ base + g) × (a ∣ g)))
          (walk_tails (layout_step um bytes) ts at offset)
  unfolding walk_tails max_steps
  walk-Grown [] at base offset acc top h units m inside below d e u =
      (inside, ground (arith, m), (d, e, u))
  walk-Grown (t ∷ ts) at base offset acc top h units m inside below d reach u =
      elim (Option-cases (contribution um t)) [
        | inl c ↦ absurd (ground (arith, c))
        | inr (added, c) ↦ elim (Option-cases (checked um (acc + added))) [
          | inl over ↦ absurd (ground (arith, c, over, m))
          | inr (next, n) ↦
              let room = checked-value um (acc + added) next n in
              let rest : max_steps um ts next ≡ some top = ground (arith, c, n, m) in
              Returns->>= _ (layout_step um bytes t at offset) _ λ end e.
                let (fits, (g, moved, little, unit)) =
                  Returns-of _ (layout_step um bytes t at offset) end
                    (step-Grown t at offset added h.0 inside c units.0) e in
                walk-Grown ts (at + header_width t) base end next top h.1 units.1 rest fits
                  (omega (arith, room, moved, little, below)) (d + g) (omega (arith, moved, reach))
                  (dvd-add a u unit)
        ]
      ]

-- For a schema whose compile-time assertions hold, on a target of 32 to 64 bits, and a buffer of
-- bytes no longer than `isize::MAX`: where `validate_layout` accepts the buffer, its last active
-- tail ends within it, and the size up to that end is itself an allocation that
-- `validate_storage_len` accepts.
pub layout_end-validate_storage_len :
    {um : ℕ}
    → IsTarget um
    → (s : Schema) (top : ℕ) → IsCompact um s
    → compact_max_size um s ≡ some top
    → (bytes : List ℕ) → All IsByte bytes
    → length bytes ≤ um / 2
    → (end : ℕ) → layout_end um s top (compact_tail_alignment s) bytes ≡ ok end
    → (end ≤ length bytes)
      × (validate_storage_len (header_size s) top (compact_tail_alignment s) end ≡ ok tt)
unfolding layout_end compact_max_size validate_storage_len
layout_end-validate_storage_len {um} target s top h m bytes b size end e =
    let a = compact_tail_alignment s in
    let (some_unit, units) = compact_tail_alignment-dvd s in
    let (_, accepted, walked) =
      >>=-eq-ok (validate_storage_len (header_size s) top a (length bytes)) _ e in
    let (header, _) = storage-fits (header_size s) top a (length bytes) accepted in
    let (inside, below, (g, reach, unit)) =
      Returns-of _
        (walk_tails (layout_step um bytes) s.tail_fields (inline_size s.inline_fields)
          (header_size s))
        end
        (walk-Grown target bytes b size a s.tail_fields (inline_size s.inline_fields)
          (header_size s) (header_size s) (header_size s) top h units m header (omega arith) 0
          (omega arith) (dvd-zero a))
        walked in
    let grown : end - header_size s ≡ g = omega (arith, reach) in
    let rest : (end - header_size s) % a ≡ 0 = rw grown (mod-eq-zero_of_dvd a unit) in
    (inside, ground (arith, some_unit, rest, below, reach))
