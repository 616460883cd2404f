-- ===== src/Compact/Planning/Lengths.antt =====
-- The checked lengths of a plan: the old one of a stored tail, and the new one of a staged edit.
use pinapod.Base.{ℕ, ◌+◌, ◌/◌, ◌≤◌, ◌≡◌, refl, ap, sym, ◌∙◌, arith, none, some, List, length}
use pinapod.Base.{le→leb, length-append}
use pinapod.Base.Slices.{slice}
use Prim.Native.String.{String}
use pinapod.Error.{ok}
use pinapod.Compact.Support.{checked_add, checked_mul}
use pinapod.Compact.{
  TailPresence, always, option_tag, TailPayload, string, vector, pfx_of, header_width,
}
use pinapod.Compact.Walks.{Segment}
use pinapod.Compact.Accessors.{read_len-decode}
use pinapod.Compact.Edits.{
  Edit, null, staged, Writer, byte_len, old_option_size, old_size, new_option_size, new_size,
}
use pinapod.Compact.Stored.{Value, Stored, read-decoded, slice-parts}
use pinapod.Compact.Stored.Forward.{get_or-field}
use pinapod.Compact.Planning.{edit_len, IsStaged}

module _ (um : ℕ) where
  pub add-ok : (a b : ℕ) → a + b ≤ um → checked_add um a b ≡ ok (a + b)
  unfolding checked_add
  add-ok a b h = ground (arith, h)

  pub byte_len-Value :
      (p : TailPayload) (count : ℕ) (source : List ℕ)
      → Value p count source
      → length source ≤ um
      → byte_len um p count ≡ ok (length source)
  unfolding byte_len checked_mul
  byte_len-Value (string max pfx) count source (few, sized) h = ap ok (sym sized)
  byte_len-Value (vector elem max pfx) count source (few, sized) h = ground (arith, sized, h)

module _ (um : ℕ) (w : Writer) (size : length w.bytes ≤ um / 2)
    (counted : w.total_len ≤ length w.bytes) where
  -- The checked old length of a stored tail is the length of its block.
  pub old_size-Stored :
      (name : String) (v : TailPresence) (p : TailPayload) (at offset : ℕ) (segment : Segment)
      (block : List ℕ)
      → Stored um w.bytes
          (record { name = name; presence = v; payload = p })
          at
          offset
          segment
          block
      → offset + length block ≤ w.total_len
      → old_size um w (record { name = name; presence = v; payload = p }) at offset
        ≡ ok (length block)
  unfolding old_size old_option_size header_width
  old_size-Stored name always p at offset none block (field, kind, there, inside) h = absurd field
  old_size-Stored name always p at offset (some (count, source)) block
        (field, (value, same), there, inside) h =
      let len = ap length same in
      rw (read_len-decode um w.bytes at (pfx_of p) count field) (
        byte_len-Value um p count source value (omega (arith, h, counted, size, len))
        ∙ ap ok (sym len))
  old_size-Stored name option_tag p at offset none block (field, same, there, inside) h =
      let tag = sym (get_or-field w.bytes at) ∙ field in rw (tag, same) refl
  old_size-Stored name option_tag p at offset (some (count, source)) block
        (field, (value, prefix, width, decoded, same), there, inside) h =
      let tag = sym (get_or-field w.bytes at) ∙ field in
      let (front, _) =
        slice-parts offset prefix source w.bytes (rw same at there) (rw same at inside) in
      let len : length block ≡ pfx_of p + length source =
        omega (arith, ap length same, length-append prefix source, width) in
      let at_front : slice offset (pfx_of p) w.bytes ≡ prefix = rw (← width) front in
      let read =
        (read-decoded um w.bytes offset (pfx_of p) count (omega (arith, inside, len)) size
          (rw at_front decoded)).0 in
      rw
        (
          tag,
          read,
          byte_len-Value um p count source value (omega (arith, h, counted, size, len)),
          add-ok um (pfx_of p) (length source) (omega (arith, h, counted, size, len)),
          ← len,
          add-ok um offset (length block) (omega (arith, h, counted, size)),
          le→leb (offset + length block) w.total_len h,
        )
        refl

-- The checked new length of a staged edit, where it does not overflow.
pub new_size-IsStaged :
    (um : ℕ) (name : String) (v : TailPresence) (p : TailPayload) (edit : Edit)
    → IsStaged um (record { name = name; presence = v; payload = p }) (some edit)
    → edit_len (record { name = name; presence = v; payload = p }) edit ≤ um
    → new_size um (record { name = name; presence = v; payload = p }) edit
      ≡ ok (edit_len (record { name = name; presence = v; payload = p }) edit)
unfolding new_size new_option_size
new_size-IsStaged um name always p null cleared h = absurd (ground (arith, cleared))
new_size-IsStaged um name always p (staged count source) (value, _, _, _) h =
    byte_len-Value um p count source value h
new_size-IsStaged um name option_tag p null _ h = refl
new_size-IsStaged um name option_tag p (staged count source) (value, _, _, _) h =
    rw (byte_len-Value um p count source value (omega (arith, h)))
      (add-ok um (pfx_of p) (length source) h)
