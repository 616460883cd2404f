-- ===== src/Compact/Writing/Header.antt =====
-- The lengths and tags that a commit writes into the header: `update_lens`.
use pinapod.Base.{
  ℕ, zero, suc, ◌+◌, ◌/◌, ◌≤◌, ◌≡◌, refl, ap, ◌∙◌, arith, Option, none, some, List, [], ◌∷◌, length,
  set,
}
use pinapod.Base.Memory.{copy_at, copy_at-all}
use pinapod.Base.Slices.{slice, length-slice}
use Prim.Native.String.{String}
use pinapod.Error.{ok}
use pinapod.Compact.Support.{check_prefix}
use pinapod.Compact.{
  IsTarget, TailPresence, always, option_tag, TailPayload, Tail, pfx_of, header_width, field_bytes,
}
use pinapod.Compact.Edits.{Edit, null, staged, edit_count}
use pinapod.Compact.Planning.{IsStaged}
use pinapod.Compact.Commit.Plan.{Move, placed}
use pinapod.Compact.Commit.Writes.{update_len, update_header, tag_of, written}
use pinapod.Compact.Writing.{Wrote, Acts}
use pinapod.Compact.Writing.Tails.{
  prefix_bytes, prefix_bytes-ok, put_prefix-Wrote, copy-Wrote, of_Wrote,
}

-- One byte is a write of length 1.
pub set-copy_at : (bytes : List ℕ) (i v : ℕ) → set bytes i v ≡ copy_at i (v ∷ []) bytes
set-copy_at [] i v = refl
set-copy_at (b ∷ []) zero v = refl
set-copy_at (b ∷ c ∷ bytes) zero v = refl
set-copy_at (b ∷ bytes) (suc i) v = ap (λ l. b ∷ l) (set-copy_at bytes i v)

-- The header field of a tail after its statement.
abbrev pub new_field : Tail → Option Edit → List ℕ → List ℕ
new_field t none old = old
new_field t (some edit) old = elim t.presence [
  | always ↦ prefix_bytes (pfx_of t.payload) (edit_count edit)
  | option_tag ↦ tag_of edit ∷ []
]

abbrev pub want_field : List ℕ → Move → List ℕ
want_field bytes m = new_field m.tail m.edit (slice m.at (header_width m.tail) bytes)

abbrev pub FieldActs : ℕ → List ℕ → Move → Type 0
FieldActs um =
    Acts (λ m. update_header um m m.edit) (λ m. m.at) (λ m. header_width m.tail) want_field

module _ {um : ℕ} (target : IsTarget um) (bytes : List ℕ) (size : length bytes ≤ um / 2) where
  update_len-Wrote :
      (at pfx count : ℕ)
      → check_prefix um count pfx ≡ ok tt
      → at + pfx ≤ length bytes
      → (after : List ℕ) × (update_len um at pfx count bytes ≡ (after, ok tt))
        × Wrote bytes after at (prefix_bytes pfx count)
  unfolding update_len
  update_len-Wrote at pfx count fits room =
      let (width, _) = prefix_bytes-ok target count pfx fits in
      let field = field_bytes bytes at pfx in
      let len : length field ≡ pfx = length-slice at pfx bytes room in
      let (stored, _) =
        put_prefix-Wrote um field 0 pfx count fits width (omega (arith, len))
          (omega (arith, len, room, size)) in
      let whole = copy_at-all (prefix_bytes pfx count) field (omega (arith, len, width)) in
      (
        copy_at at (prefix_bytes pfx count) bytes,
        ap (written (λ f. copy_at at f bytes) bytes) (stored ∙ ap ok whole),
        copy-Wrote bytes at (prefix_bytes pfx count) (omega (arith, width, room)),
      )

  update_header-Acts_parts :
      (name : String) (v : TailPresence) (p : TailPayload) (at : ℕ) (edit : Option Edit)
      (o n old new : ℕ)
      → IsStaged um (record { name = name; presence = v; payload = p }) edit
      → at + header_width (record { name = name; presence = v; payload = p }) ≤ length bytes
      → FieldActs um bytes
          (placed (record { name = name; presence = v; payload = p }) at edit (o, n) old new)
  unfolding update_header header_width
  update_header-Acts_parts name v p at none o n old new h room =
      (bytes, refl, refl, refl, λ at' k apart. refl)
  update_header-Acts_parts name always p at (some null) o n old new h room =
      absurd (ground (arith, h))
  update_header-Acts_parts name always p at (some (staged count source)) o n old new
        (value, fits, valid, _) room =
      of_Wrote _ bytes at (pfx_of p) (prefix_bytes (pfx_of p) count)
        (update_len-Wrote at (pfx_of p) count fits room)
        (prefix_bytes-ok target count (pfx_of p) fits).0
  update_header-Acts_parts name option_tag p at (some edit) o n old new h room =
      of_Wrote _ bytes at 1 (tag_of edit ∷ [])
        (
          copy_at at (tag_of edit ∷ []) bytes,
          ap (λ l. (l, ok tt)) (set-copy_at bytes at (tag_of edit)),
          copy-Wrote bytes at (tag_of edit ∷ []) (omega (arith, room)),
        )
        refl

  -- The header statement of a staged move.
  pub update_header-Acts :
      (m : Move)
      → IsStaged um m.tail m.edit
      → m.at + header_width m.tail ≤ length bytes
      → FieldActs um bytes m
  update_header-Acts m h room =
      update_header-Acts_parts m.tail.name m.tail.presence m.tail.payload m.at m.edit m.old_off
        m.new_off m.old_len m.new_len h room
