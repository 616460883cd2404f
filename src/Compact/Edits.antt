-- ===== src/Compact/Edits.antt =====
-- The staged writer that `generate_mut` of pinapod-derive/src/compact.rs emits: its setters, and the
-- size that the staged edits need.
use pinapod.Base.{
  ℕ, ◌+◌, ◌-◌, ◌==◌, Bool, true, false, ◌||◌, Option, none, some, if◌then◌else◌, List, [], ◌∷◌, ltb,
  leb, get_or, set, map,
}
use pinapod.Error.{
  PinaPodError, buffer_too_small, overflow, invalid_tag, Result, ok, err, ◌>>=◌, ◌>>◌, ensure,
}
use pinapod.Elem.{Checked}
use pinapod.Compact.Support.{checked_add, checked_mul, check_prefix, read_prefix}
use pinapod.Compact.{
  always, option_tag, TailPayload, string, vector, Tail, Schema, pfx_of, header_width, header_size,
  inline_size, validate_elems,
}
use pinapod.Compact.Walks.{validate}
use pinapod.Compact.Views.{read_len, offset_step, current_encoded_len}

-- A staged `(*const u8, usize)`: the null pointer of a cleared option, or a pointer to bytes that
-- live as long as the writer, with the length or the count of the value.
pub data Edit : Type 0 where
  null : Edit
  staged : (count : ℕ) (source : List ℕ) → Edit

-- The second component of an edit, and the bytes behind the pointer.
abbrev pub edit_count : Edit → ℕ
edit_count null = 0
edit_count (staged count source) = count

abbrev pub edit_source : Edit → List ℕ
edit_source null = []
edit_source (staged count source) = source

-- `struct Mut`
pub record Writer : Type 0 where
  pub bytes : List ℕ
  pub total_len : ℕ
  pub edits : List (Option Edit)

abbrev pub is_none : Option Edit → Bool
is_none none = true
is_none (some e) = false

abbrev pub is_err : Checked → Bool
is_err (ok tt) = false
is_err (err e) = true

-- `Mut::new_unchecked`
unfoldable pub new_unchecked : (um : ℕ) → Schema → List ℕ → Writer
unfolding current_encoded_len
new_unchecked um s bytes = record {
  bytes = bytes;
  total_len = current_encoded_len um s bytes;
  edits = map (λ _. none) s.tail_fields;
}

-- `Mut::new`
unfoldable pub new : (um : ℕ) → Schema → (top alignment : ℕ) → List ℕ → Result PinaPodError Writer
unfolding validate new_unchecked
new um s top alignment bytes = validate um s top alignment bytes >> ok (new_unchecked um s bytes)

-- `count * size_of::<T>()`, checked; a string counts bytes.
unfoldable pub byte_len : (um : ℕ) → TailPayload → ℕ → Result PinaPodError ℕ
unfolding checked_mul
byte_len um (string max pfx) count = ok count
byte_len um (vector elem max pfx) count = checked_mul um count elem.size

-- `total.checked_sub(old)`
abbrev pub checked_sub : ℕ → ℕ → Result PinaPodError ℕ
checked_sub total old = if ltb total old then err overflow else ok (total - old)

-- `Result::unwrap_or`
abbrev pub unwrap_or : Result PinaPodError ℕ → ℕ → ℕ
unwrap_or (ok size) other = size
unwrap_or (err e) other = other

-- `self.edit = Some(…)`, unless the value was refused.
unfoldable pub keep_edit : Writer → ℕ → Result PinaPodError Edit → Writer × Checked
keep_edit w i (ok edit) = (record w { edits = set w.edits i (some edit) }, ok tt)
keep_edit w i (err e) = (w, err e)

module _ (um : ℕ) where
  -- What a setter stages for a value, given as its length or count and its bytes.
  unfoldable pub stage : TailPayload → ℕ → List ℕ → Result PinaPodError Edit
  unfolding check_prefix validate_elems
  stage (string max pfx) len value =
      if ltb max len || is_err (check_prefix um len pfx)
      then err overflow
      else ok (staged len value)
  stage (vector elem max pfx) len value =
      if ltb max len || is_err (check_prefix um len pfx)
      then err overflow
      else (validate_elems elem len value >> ok (staged len value))

  -- The setter of the tail field `i`, where it is always present.
  unfoldable pub set_always : Writer → ℕ → TailPayload → ℕ → List ℕ → Writer × Checked
  unfolding stage keep_edit
  set_always w i payload len value = keep_edit w i (stage payload len value)

  -- The setter of the tail field `i`, where it is optional.
  unfoldable pub set_optional : Writer → ℕ → TailPayload → Option (ℕ × List ℕ) → Writer × Checked
  unfolding set_always
  set_optional w i payload (some (len, value)) = set_always w i payload len value
  set_optional w i payload none = (record w { edits = set w.edits i (some null) }, ok tt)

  -- `old_option_string_size_expr` and `old_option_vec_size_expr`
  unfoldable pub old_option_size : Writer → TailPayload → ℕ → ℕ → Result PinaPodError ℕ
  unfolding read_prefix checked_add byte_len
  old_option_size w payload at offset =
      let present : Result PinaPodError ℕ = (do
        count ← read_prefix um w.bytes offset (pfx_of payload)
        len ← byte_len um payload count
        encoded ← checked_add um (pfx_of payload) len
        end ← checked_add um offset encoded
        ensure (leb end w.total_len) buffer_too_small
        ok encoded) in
      let tag = get_or w.bytes at 0 in
      if tag == 0 then ok 0 else if tag == 1 then present else err invalid_tag

  unfoldable pub old_size : Writer → Tail → ℕ → ℕ → Result PinaPodError ℕ
  unfolding read_len byte_len old_option_size
  old_size w t at offset = elim t.presence [
    | always ↦ byte_len um t.payload (read_len um w.bytes at (pfx_of t.payload))
    | option_tag ↦ old_option_size w t.payload at offset
  ]

  unfoldable pub new_option_size : TailPayload → Edit → Result PinaPodError ℕ
  unfolding byte_len checked_add
  new_option_size payload null = ok 0
  new_option_size payload (staged count source) = do
    len ← byte_len um payload count
    checked_add um (pfx_of payload) len

  unfoldable pub new_size : Tail → Edit → Result PinaPodError ℕ
  unfolding new_option_size byte_len
  new_size t edit = elim t.presence [
    | always ↦ byte_len um t.payload (edit_count edit)
    | option_tag ↦ new_option_size t.payload edit
  ]

  -- The statement of `try_projected_size` for one tail.
  unfoldable pub projected_step : Writer → Tail → Option Edit → ℕ → ℕ → ℕ → Result PinaPodError ℕ
  unfolding old_size new_size checked_add
  projected_step w t none at offset total = ok total
  projected_step w t (some edit) at offset total = do
    old ← old_size w t at offset
    new_len ← new_size t edit
    less ← checked_sub total old
    checked_add um less new_len

  unfoldable pub projected_from :
      Writer → List Tail → List (Option Edit) → ℕ → ℕ → ℕ → Result PinaPodError ℕ
  unfolding projected_step offset_step header_width
  projected_from w (t ∷ ts) (e ∷ es) at offset total = do
    next ← projected_step w t e at offset total
    projected_from w ts es (at + header_width t) (offset_step um w.bytes t at offset) next
  projected_from w [] es at offset total = ok total
  projected_from w (t ∷ ts) [] at offset total = ok total

  unfoldable pub try_projected_size : Schema → Writer → Result PinaPodError ℕ
  unfolding projected_from header_size inline_size
  try_projected_size s w =
      projected_from w s.tail_fields w.edits (inline_size s.inline_fields) (header_size s)
        w.total_len

  unfoldable pub projected_size : Schema → Writer → ℕ
  unfolding try_projected_size
  projected_size s w = unwrap_or (try_projected_size s w) um
