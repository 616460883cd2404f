-- ===== src/Compact/Patched/Zeros.antt =====
-- The accessors (`generate_ref` of pinapod-derive/src/compact.rs) on a zeroed buffer.
use pinapod.Base.{
  ℕ, zero, suc, ◌+◌, ◌*◌, ◌-◌, ◌≡◌, refl, ap, ◌∙◌, arith, some, none, List, [], ◌∷◌, take,
  replicate, get_or, get_elem?,
}
use pinapod.Base.{drop-replicate}
use pinapod.Base.Bytes.{from_le_bytes}
use pinapod.Compact.{
  TailPresence, always, option_tag, TailPayload, string, vector, Tail, Schema, header_width,
}
use Prim.Native.String.{String}
use pinapod.Compact.Walks.{Segment}
use pinapod.Compact.Views.{read_len, offset_step, field_at, accessor_from, accessor}

-- What a tail holds before it is set.
abbrev pub initial_segment : TailPresence → Segment
initial_segment always = some (0, [])
initial_segment option_tag = none

take-zeros : (k n : ℕ) → from_le_bytes (take k (replicate n 0)) ≡ 0
take-zeros zero n = refl
take-zeros (suc k) zero = refl
take-zeros (suc k) (suc n) = rw (take-zeros k n) refl

get_or-zeros : (n i : ℕ) → ◌≡◌ {A = ℕ} (get_or (replicate n 0) i 0) 0
get_or-zeros zero i = refl
get_or-zeros (suc n) zero = refl
get_or-zeros (suc n) (suc i) = get_or-zeros n i

module _ (um n : ℕ) where
  read_len-zeros : (at pfx : ℕ) → read_len um (replicate n 0) at pfx ≡ 0
  unfolding read_len
  read_len-zeros at pfx = rw (drop-replicate {A = ℕ} at n 0, take-zeros pfx (n - at)) (omega arith)

  field_at-zeros :
      (name : String) (v : TailPresence) (p : TailPayload) (at o : ℕ)
      → field_at um (replicate n 0) (record { name = name; presence = v; payload = p }) at o
        ≡ initial_segment v
  unfolding field_at
  field_at-zeros name always (string max pfx) at o = rw (read_len-zeros at pfx) refl
  field_at-zeros name always (vector elem max pfx) at o =
      let none_read : 0 * elem.size ≡ 0 = omega arith in rw (read_len-zeros at pfx, none_read) refl
  field_at-zeros name option_tag p at o = rw (get_or-zeros n at) refl

  accessor_from-zeros :
      (ts : List Tail) (i : ℕ) (t : Tail) (at o : ℕ)
      → get_elem? ts i ≡ some t
      → accessor_from um (replicate n 0) ts i at o ≡ initial_segment t.presence
  unfolding accessor_from
  accessor_from-zeros [] i t at o found = absurd (ground (arith, found))
  accessor_from-zeros (u ∷ ts) zero t at o found =
      let same : u ≡ t = cc in
      field_at-zeros u.name u.presence u.payload at o ∙ ap (λ x. initial_segment x.presence) same
  accessor_from-zeros (u ∷ ts) (suc i) t at o found =
      accessor_from-zeros ts i t (at + header_width u) (offset_step um (replicate n 0) u at o) found

  pub accessor-zeros :
      (s : Schema) (i : ℕ) (t : Tail)
      → get_elem? s.tail_fields i ≡ some t
      → accessor um s (replicate n 0) i ≡ initial_segment t.presence
  unfolding accessor
  accessor-zeros s i t found = accessor_from-zeros s.tail_fields i t _ _ found
