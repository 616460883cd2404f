-- ===== src/Compact/Patch.antt =====
-- The patch of a compact schema, as `generate_patch` and `generate_preflight_walk` of
-- pinapod-derive/src/compact.rs emit it: the checks of its values, the planned lengths, and the two
-- ways to apply it.
use pinapod.Base.{
  ℕ, ◌+◌, ◌%◌, ◌==◌, Bool, not, Option, none, some, if◌then◌else◌, List, [], ◌∷◌, ltb, leb, length,
  take, get_or, map,
}
use pinapod.Base.Memory.{copy_at, fill}
use pinapod.Error.{
  PinaPodError, buffer_too_small, invalid_length, overflow, Result, ok, err, ◌>>=◌, ◌>>◌, ensure,
}
use pinapod.Elem.{Checked}
use pinapod.Compact.Support.{checked_add, check_prefix}
use pinapod.Compact.{
  always, option_tag, TailPayload, string, vector, Inline, Tail, Schema, pfx_of, header_width,
  header_size, inline_size, validate_elems, validate_storage_len,
}
use pinapod.Compact.Walks.{validate}
use pinapod.Compact.Views.{payload_len, read_len}
use pinapod.Compact.Edits.{Edit, null, staged, Writer, byte_len, checked_sub, new_unchecked}
use pinapod.Compact.Commit.{commit}

-- A value for a tail: `None` clears an optional one.
abbrev pub PatchValue : Type 0
PatchValue = Option (ℕ × List ℕ)

-- `struct Patch`: what it sets of each field. An inline value is the bytes of its stored type. A
-- field that the schema keeps out of patches is never set.
pub record Patch : Type 0 where
  pub inlines : List (Option (List ℕ))
  pub tails : List (Option PatchValue)

module _ (um : ℕ) where
  -- `input_validations`, of the inline fields and of the tails.
  unfoldable pub check_inlines : List Inline → List (Option (List ℕ)) → Checked
  check_inlines (f ∷ fs) (none ∷ vs) = check_inlines fs vs
  check_inlines (f ∷ fs) (some value ∷ vs) = f.elem.check value >> check_inlines fs vs
  check_inlines [] vs = ok tt
  check_inlines (f ∷ fs) [] = ok tt

  unfoldable pub check_value : TailPayload → ℕ → List ℕ → Checked
  unfolding check_prefix validate_elems
  check_value (string max pfx) len value = do ensure (leb len max) overflow; check_prefix um len pfx
  check_value (vector elem max pfx) len value = do
    ensure (leb len max) overflow
    check_prefix um len pfx
    ensure (not (elem.size == 0)) invalid_length
    validate_elems elem len value

  unfoldable pub check_tail : TailPayload → Option PatchValue → Checked
  unfolding check_value
  check_tail p none = ok tt
  check_tail p (some none) = ok tt
  check_tail p (some (some (len, value))) = check_value p len value

  unfoldable pub check_tails : List Tail → List (Option PatchValue) → Checked
  unfolding check_tail
  check_tails (t ∷ ts) (v ∷ vs) = check_tail t.payload v >> check_tails ts vs
  check_tails [] vs = ok tt
  check_tails (t ∷ ts) [] = ok tt

  unfoldable pub validate_inputs : Schema → Patch → Checked
  unfolding check_inlines check_tails
  validate_inputs s patch =
      check_inlines s.inline_fields patch.inlines >> check_tails s.tail_fields patch.tails

  -- One `__old_encoded` of the preflight walk; sums and products wrap around.
  unfoldable pub old_encoded : List ℕ → Tail → ℕ → ℕ → ℕ
  unfolding read_len
  old_encoded bytes t at offset = elim t.presence [
    | always ↦ payload_len t.payload (read_len um bytes at (pfx_of t.payload)) % (um + 1)
    | option_tag ↦
        let count = read_len um bytes offset (pfx_of t.payload) in
        if not (get_or bytes at 0 == 0)
        then (pfx_of t.payload + payload_len t.payload count % (um + 1)) % (um + 1)
        else 0
  ]

  -- `generate_preflight_walk`: the old encoded sizes, and the encoded length.
  unfoldable pub preflight_walk : List ℕ → List Tail → ℕ → ℕ → List ℕ × ℕ
  unfolding old_encoded header_width
  preflight_walk bytes [] at offset = ([], offset)
  preflight_walk bytes (t ∷ ts) at offset =
      let old = old_encoded bytes t at offset in
      let (olds, end) = preflight_walk bytes ts (at + header_width t) ((offset + old) % (um + 1)) in
      (old ∷ olds, end)

  -- The encoded length of a value.
  unfoldable pub value_len : Tail → PatchValue → Result PinaPodError ℕ
  unfolding byte_len checked_add
  value_len t none = ok 0
  value_len t (some (len, value)) = elim t.presence [
    | always ↦ byte_len um t.payload len
    | option_tag ↦ byte_len um t.payload len >>= λ n. checked_add um (pfx_of t.payload) n
  ]

  -- `updated_steps`
  unfoldable pub updated_steps :
      List Tail → List (Option PatchValue) → List ℕ → ℕ → Result PinaPodError ℕ
  unfolding value_len checked_add
  updated_steps (t ∷ ts) (none ∷ vs) (old ∷ olds) total = updated_steps ts vs olds total
  updated_steps (t ∷ ts) (some v ∷ vs) (old ∷ olds) total = do
    new_len ← value_len t v
    less ← checked_sub total old
    next ← checked_add um less new_len
    updated_steps ts vs olds next
  updated_steps [] vs olds total = ok total
  updated_steps (t ∷ ts) [] olds total = ok total
  updated_steps (t ∷ ts) (v ∷ vs) [] total = ok total

  -- `initial_steps`
  unfoldable pub initial_steps : List Tail → List (Option PatchValue) → ℕ → Result PinaPodError ℕ
  unfolding value_len checked_add
  initial_steps (t ∷ ts) (none ∷ vs) total = initial_steps ts vs total
  initial_steps (t ∷ ts) (some none ∷ vs) total = initial_steps ts vs total
  initial_steps (t ∷ ts) (some (some v) ∷ vs) total = do
    new_len ← value_len t (some v)
    next ← checked_add um total new_len
    initial_steps ts vs next
  initial_steps [] vs total = ok total
  initial_steps (t ∷ ts) [] total = ok total

-- `stage_steps`
abbrev pub stage_value : Option PatchValue → Option Edit
stage_value none = none
stage_value (some none) = some null
stage_value (some (some (len, value))) = some (staged len value)

abbrev pub stage_steps : Patch → Writer → Writer
stage_steps patch w = record w { edits = map stage_value patch.tails }

-- `inline_writes`
unfoldable pub inline_writes : List Inline → List (Option (List ℕ)) → ℕ → List ℕ → List ℕ
inline_writes (f ∷ fs) (none ∷ vs) at bytes = inline_writes fs vs (at + f.elem.size) bytes
inline_writes (f ∷ fs) (some value ∷ vs) at bytes =
    inline_writes fs vs (at + f.elem.size) (copy_at at value bytes)
inline_writes [] vs at bytes = bytes
inline_writes (f ∷ fs) [] at bytes = bytes

unfoldable pub updated_len :
    (um : ℕ) → Schema → (top alignment : ℕ) → Patch → List ℕ → Result PinaPodError ℕ
unfolding validate_inputs validate preflight_walk updated_steps header_size inline_size
updated_len um s top alignment patch bytes = do
  validate_inputs um s patch
  validate um s top alignment bytes
  let walk = preflight_walk um bytes s.tail_fields (inline_size s.inline_fields) (header_size s)
  updated_steps um s.tail_fields patch.tails walk.0 walk.1

unfoldable pub initialized_len : (um : ℕ) → Schema → Patch → Result PinaPodError ℕ
unfolding validate_inputs initial_steps header_size
initialized_len um s patch = do
  validate_inputs um s patch
  initial_steps um s.tail_fields patch.tails (header_size s)

-- `update`, once the commit is done.
unfoldable pub update_end :
    Schema → Patch → ℕ → Writer × Result PinaPodError ℕ → List ℕ × Result PinaPodError ℕ
unfolding inline_writes
update_end s patch expected (w, err e) = (w.bytes, err e)
update_end s patch expected (w, ok encoded) = (
  inline_writes s.inline_fields patch.inlines 0 w.bytes,
  if encoded == expected then ok encoded else err invalid_length,
)

-- The staged writer of `try_initialize`, after its inline writes.
abbrev pub initial_writer : (um : ℕ) → Schema → Patch → List ℕ → Writer
initial_writer um s patch bytes =
    let w = stage_steps patch (new_unchecked um s bytes) in
    record w { bytes = inline_writes s.inline_fields patch.inlines 0 bytes }

abbrev pub zeroed : List ℕ → List ℕ
zeroed bytes = fill 0 (length bytes) 0 bytes

abbrev pub zero_failed : List ℕ × Result PinaPodError ℕ → List ℕ × Result PinaPodError ℕ
zero_failed (bytes, ok encoded) = (bytes, ok encoded)
zero_failed (bytes, err e) = (zeroed bytes, err e)

-- The end of `try_initialize`, once the commit is done.
unfoldable pub initialize_end :
    (um : ℕ)
    → Schema
    → (top alignment : ℕ) → ℕ
    → Writer × Result PinaPodError ℕ
    → List ℕ × Result PinaPodError ℕ
unfolding validate
initialize_end um s top alignment expected (w, err e) = (w.bytes, err e)
initialize_end um s top alignment expected (w, ok encoded) = (
  w.bytes,
  validate um s top alignment (take encoded w.bytes)
      >> (if encoded == expected then ok encoded else err invalid_length),
)

module _ (um : ℕ) (s : Schema) (top alignment : ℕ) (full_validation : Bool) (patch : Patch) where
  unfoldable pub update_planned : List ℕ → Result PinaPodError ℕ → List ℕ × Result PinaPodError ℕ
  unfolding update_end commit new_unchecked
  update_planned bytes (err e) = (bytes, err e)
  update_planned bytes (ok expected) =
      if ltb (length bytes) expected
      then (bytes, err buffer_too_small)
      else update_end s patch expected
          (commit um s top alignment full_validation (stage_steps patch (new_unchecked um s bytes)))

  unfoldable pub update : List ℕ → List ℕ × Result PinaPodError ℕ
  unfolding updated_len update_planned
  update bytes = update_planned bytes (updated_len um s top alignment patch bytes)

  unfoldable pub initialize_planned :
      List ℕ → Result PinaPodError ℕ → List ℕ × Result PinaPodError ℕ
  unfolding initialize_end commit new_unchecked inline_writes
  initialize_planned bytes (err e) = (bytes, err e)
  initialize_planned bytes (ok expected) =
      if ltb (length bytes) expected
      then (bytes, err buffer_too_small)
      else initialize_end um s top alignment expected
          (commit um s top alignment full_validation (initial_writer um s patch bytes))

  unfoldable pub try_initialize : List ℕ → List ℕ × Result PinaPodError ℕ
  unfolding initialize_planned initialized_len validate_storage_len header_size
  try_initialize bytes = initialize_planned bytes (
      validate_storage_len (header_size s) top alignment (length bytes)
      >> initialized_len um s patch)

  unfoldable pub initialize : List ℕ → List ℕ × Result PinaPodError ℕ
  unfolding try_initialize
  initialize bytes = zero_failed (try_initialize (zeroed bytes))
