-- ===== src/Compact/Sizes.antt =====
-- The allocation constants of a compact schema, `compact_max_size` and `compact_tail_alignment` of
-- pinapod-derive/src/compact.rs.
use pinapod.Base.{ℕ, ◌+◌, ◌*◌, ◌==◌, Option, none, some, if◌then◌else◌, ltb, List, [], ◌∷◌}
use pinapod.Compact.Support.{gcd}
use pinapod.Compact.{
  TailPresence, always, option_tag, TailPayload, string, vector, Tail, Schema, pfx_of, header_size,
}

-- `usize::checked_add` and `usize::checked_mul`; a failure is a panic of the compiler.
abbrev pub checked : ℕ → ℕ → Option ℕ
checked um n = if ltb um n then none else some n

unfoldable pub payload_max : ℕ → TailPayload → Option ℕ
payload_max um (string max pfx) = some max
payload_max um (vector elem max pfx) = checked um (max * elem.size)

unfoldable pub contribution : ℕ → Tail → Option ℕ
unfolding payload_max
contribution um t = elim (payload_max um t.payload) [
  | none ↦ none
  | some most ↦ elim t.presence [
    | always ↦ some most
    | option_tag ↦ checked um (most + pfx_of t.payload)
  ]
]

unfoldable pub max_steps : ℕ → List Tail → ℕ → Option ℕ
unfolding contribution
max_steps um [] size = some size
max_steps um (t ∷ ts) size = elim (contribution um t) [
  | none ↦ none
  | some added ↦ elim (checked um (size + added)) [ none ↦ none | some next ↦ max_steps um ts next ]
]

unfoldable pub compact_max_size : ℕ → Schema → Option ℕ
unfolding max_steps header_size
compact_max_size um s = max_steps um s.tail_fields (header_size s)

-- The atoms of one tail.
abbrev pub payload_atoms : TailPayload → List ℕ → List ℕ
payload_atoms (string max pfx) width = 1 ∷ width
payload_atoms (vector elem max pfx) width = elem.size ∷ width

abbrev pub tag_atoms : TailPresence → ℕ → List ℕ
tag_atoms always pfx = []
tag_atoms option_tag pfx = pfx ∷ []

unfoldable pub atoms : Tail → List ℕ
atoms t = payload_atoms t.payload (tag_atoms t.presence (pfx_of t.payload))

unfoldable pub gcd_steps : List ℕ → ℕ → ℕ
unfolding gcd
gcd_steps [] alignment = alignment
gcd_steps (n ∷ ns) alignment = gcd_steps ns (gcd alignment n)

unfoldable pub alignment_steps : List Tail → ℕ → ℕ
unfolding gcd_steps atoms
alignment_steps [] alignment = alignment
alignment_steps (t ∷ ts) alignment = alignment_steps ts (gcd_steps (atoms t) alignment)

unfoldable pub compact_tail_alignment : Schema → ℕ
unfolding alignment_steps
compact_tail_alignment s =
    let alignment = alignment_steps s.tail_fields 0 in if alignment == 0 then 1 else alignment
