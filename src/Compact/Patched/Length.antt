-- ===== src/Compact/Patched/Length.antt =====
-- The planned length of a patch (`updated_len` of pinapod-derive/src/compact.rs).
use pinapod.Base.{
  ℕ, ◌+◌, ◌-◌, ◌/◌, ◌%◌, ◌≤◌, ◌≡◌, refl, ap, sym, ◌∙◌, arith, Option, none, some, List, [], ◌∷◌,
  length, All, map,
}
use pinapod.Base.{le→ltb, length-append}
use pinapod.Base.Bytes.{IsByte}
use pinapod.Base.Slices.{slice, length-slice}
use native.Mathlib.Nat.{mod-eq_of_lt}
use Prim.Native.String.{String}
use pinapod.Error.{ok, >>=-eq-ok, ok-eq}
use pinapod.Compact.{
  TailPresence, always, option_tag, TailPayload, Tail, pfx_of, header_width, IsTarget, walk_tails,
}
use pinapod.Compact.Walks.{Segment, full_step}
use pinapod.Compact.Accessors.{read_len-decode}
use pinapod.Compact.Edits.{staged, Writer}
use pinapod.Compact.Stored.{Stored, slice-parts}
use pinapod.Compact.Stored.Forward.{get_or-field}
use pinapod.Compact.Planning.{
  edit_len, resized_len, IsStaged, AllStaged, stored_len, new_end, new_end-le, step-Stored,
}
use pinapod.Compact.Planning.Lengths.{add-ok, byte_len-Value}
use pinapod.Compact.Planning.Setup.{AllFit, walk-le}
use pinapod.Compact.Patch.{
  PatchValue, old_encoded, preflight_walk, value_len, updated_steps, stage_value,
}

small_mod : (um n : ℕ) → n ≤ um → n % (um + 1) ≡ n
small_mod um n h = mod-eq_of_lt {n = n} {m = um + 1} (omega (arith, h))

module _ (um : ℕ) (bytes : List ℕ) (size : length bytes ≤ um / 2) where
  -- The old size of a stored tail is the length of its block.
  old_encoded-Stored :
      (name : String) (v : TailPresence) (p : TailPayload) (at offset : ℕ) (segment : Segment)
      (block : List ℕ)
      → Stored um bytes (record { name = name; presence = v; payload = p }) at offset segment block
      → old_encoded um bytes (record { name = name; presence = v; payload = p }) at offset
        ≡ length block
  unfolding old_encoded header_width
  old_encoded-Stored name always p at offset none block (field, kind, there, inside) = absurd field
  old_encoded-Stored name always p at offset (some (count, source)) block
        (field, ((few, sized), same), there, inside) =
      let len = ap length same in
      rw (read_len-decode um bytes at (pfx_of p) count field, ← sized)
        (small_mod um (length source) (omega (arith, inside, size, len)) ∙ sym len)
  old_encoded-Stored name option_tag p at offset none block (field, same, there, inside) =
      let tag = sym (get_or-field bytes at) ∙ field in rw (tag, same) refl
  old_encoded-Stored name option_tag p at offset (some (count, source)) block
        (field, ((few, sized), prefix, width, decoded, same), there, inside) =
      let tag = sym (get_or-field bytes at) ∙ field in
      let (front, _) =
        slice-parts offset prefix source bytes (rw same at there) (rw same at inside) in
      let len : length block ≡ pfx_of p + length source =
        omega (arith, ap length same, length-append prefix source, width) in
      let at_front : slice offset (pfx_of p) bytes ≡ prefix = rw (← width) front in
      let read = read_len-decode um bytes offset (pfx_of p) count (rw at_front decoded) in
      rw
        (
          tag,
          read,
          ← sized,
          small_mod um (length source) (omega (arith, inside, size, len)),
          small_mod um (pfx_of p + length source) (omega (arith, inside, size, len)),
        )
        (sym len)

-- The length of a value is that of its edit.
value_len-IsStaged :
    (um : ℕ) (name : String) (r : TailPresence) (p : TailPayload) (count : ℕ) (source : List ℕ)
    → IsStaged um (record { name = name; presence = r; payload = p }) (some (staged count source))
    → edit_len (record { name = name; presence = r; payload = p }) (staged count source) ≤ um
    → value_len um (record { name = name; presence = r; payload = p }) (some (count, source))
      ≡ ok (edit_len (record { name = name; presence = r; payload = p }) (staged count source))
unfolding value_len
value_len-IsStaged um name always p count source (value, _, _, _) h =
    byte_len-Value um p count source value h
value_len-IsStaged um name option_tag p count source (value, _, _, _) h =
    rw (byte_len-Value um p count source value (omega (arith, h)))
      (add-ok um (pfx_of p) (length source) h)

module _ {um : ℕ} (target : IsTarget um) (w : Writer) (octets : All IsByte w.bytes)
    (size : length w.bytes ≤ um / 2) (counted : w.total_len ≤ length w.bytes) where
  old_encoded-stored_len :
      (t : Tail) (at o next : ℕ)
      → AllFit um (t ∷ [])
      → o ≤ length w.bytes
      → full_step um w.bytes t at o ≡ ok next
      → old_encoded um w.bytes t at o ≡ stored_len um w.bytes t at o
  old_encoded-stored_len t at o next h inside e =
      let (there, _, sum, within) =
        step-Stored target w.bytes octets size t at o next h.0 inside e in
      old_encoded-Stored um w.bytes size t.name t.presence t.payload at o _ _ there
      ∙ length-slice o (stored_len um w.bytes t at o) w.bytes (omega (arith, sum, within))

  -- One statement of `updated_steps`.
  updated_step-ok :
      (t : Tail) (v : Option PatchValue) (ts : List Tail) (vs : List (Option PatchValue))
      (olds : List ℕ) (old n rest : ℕ)
      → IsStaged um t (stage_value v)
      → n + resized_len t (stage_value v) old + rest ≤ um
      → updated_steps um (t ∷ ts) (v ∷ vs) (old ∷ olds) (n + (old + rest))
        ≡ updated_steps um ts vs olds (n + resized_len t (stage_value v) old + rest)
  unfolding updated_steps value_len
  updated_step-ok t none ts vs olds old n rest ready fits =
      let total : n + (old + rest) ≡ n + old + rest = omega arith in
      ap (updated_steps um ts vs olds) total
  updated_step-ok t (some none) ts vs olds old n rest ready fits =
      let less : n + (old + rest) - old ≡ n + rest = omega arith in
      let total : n + rest + 0 ≡ n + 0 + rest = omega arith in
      rw
        (
          le→ltb (n + (old + rest)) old (omega arith),
          less,
          add-ok um (n + rest) 0 (omega (arith, fits)),
          total,
        )
        refl
  updated_step-ok t (some (some (count, source))) ts vs olds old n rest ready fits =
      let less : n + (old + rest) - old ≡ n + rest = omega arith in
      let len = edit_len t (staged count source) in
      let total : n + rest + len ≡ n + len + rest = omega arith in
      rw
        (
          value_len-IsStaged um t.name t.presence t.payload count source ready
              (omega (arith, fits)),
          le→ltb (n + (old + rest)) old (omega arith),
          less,
          add-ok um (n + rest) len (omega (arith, fits)),
          total,
        )
        refl

  -- The walk of the old sizes ends where the walk of `validate` does, and the steps end where a
  -- commit of the staged values does.
  pub updated_steps-ok :
      (ts : List Tail) (vs : List (Option PatchValue)) (at o n end : ℕ)
      → AllFit um ts
      → AllStaged um ts (map stage_value vs)
      → o ≤ length w.bytes
      → walk_tails (full_step um w.bytes) ts at o ≡ ok end
      → end ≤ length w.bytes
      → new_end um w.bytes ts (map stage_value vs) at o n ≤ um / 2
      → ((preflight_walk um w.bytes ts at o).1 ≡ end)
        × (updated_steps um ts vs (preflight_walk um w.bytes ts at o).0 (n + (end - o))
            ≡ ok (new_end um w.bytes ts (map stage_value vs) at o n))
  unfolding preflight_walk new_end walk_tails updated_steps
  updated_steps-ok [] [] at o n end h ready inside e ends fits =
      (ok-eq e, ap ok (omega (arith, ok-eq e)))
  updated_steps-ok [] (x ∷ vs) at o n end h ready inside e ends fits = absurd ready
  updated_steps-ok (t ∷ ts) [] at o n end h ready inside e ends fits = absurd ready
  updated_steps-ok (t ∷ ts) (v ∷ vs) at o n end h ready inside e ends fits =
      let (next, stepped, rest) = >>=-eq-ok (full_step um w.bytes t at o) _ e in
      let (_, _, sum, within) =
        step-Stored target w.bytes octets size t at o next h.0 inside stepped in
      let old = stored_len um w.bytes t at o in
      let last =
        walk-le target w octets size counted ts (at + header_width t) next end h.1 within rest in
      let new = resized_len t (stage_value v) old in
      let room =
        new_end-le um w.bytes ts (map stage_value vs) (at + header_width t) (o + old) (n + new) in
      let gap : end - o ≡ old + (end - next) = omega (arith, sum, last) in
      let same = old_encoded-stored_len t at o next (h.0, tt) inside stepped in
      let moved = small_mod um (o + old) (omega (arith, sum, within, size)) in
      let (final, further) =
        updated_steps-ok ts vs (at + header_width t) (o + old) (n + new) end h.1 ready.1
          (omega (arith, sum, within)) (rw (← sum) at rest) ends fits in
      let step =
        updated_step-ok t v ts vs (preflight_walk um w.bytes ts (at + header_width t) (o + old)).0
          old n (end - next) ready.0 (omega (arith, room, fits, ends, size)) in
      rw (same, moved, gap)
        (
          final,
          step
              ∙ ap
                  (λ k.
                    updated_steps um ts vs
                      (preflight_walk um w.bytes ts (at + header_width t) (o + old)).0
                      (n + new + (end - k)))
                  (sym sum)
              ∙ further,
        )
