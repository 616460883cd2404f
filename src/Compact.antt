-- ===== src/Compact.antt =====
-- What the code that pinapod-derive/src/compact.rs generates for a compact schema does to a buffer:
-- the schema is data, and the statements that the macro emits for each field are the steps of a walk.
pub mod Support
pub mod Walks
pub mod Diagnose
pub mod Bounds
pub mod Agree
pub mod Reads
pub mod Contract
pub mod Sizes
pub mod Divides
pub mod Exact
pub mod Allocation
pub mod Depth
pub mod Prefixes
pub mod Views
pub mod Accessors
pub mod Optionals
pub mod Sound
pub mod Edits
pub mod Commit
pub mod Relocation
pub mod Stored
pub mod Planning
pub mod Writing
pub mod Committed
pub mod Staging
pub mod Session
pub mod Projected
pub mod Patch
pub mod Patched
use pinapod.Base.{
  ℕ, zero, suc, ◌+◌, ◌-◌, ◌*◌, ◌/◌, ◌%◌, ◌≤◌, ◌≡◌, ◌^◌, ◌<◌, true, Option, none, some, Bool, ◌&&◌,
  ◌||◌, not,
}
use pinapod.Base.{List, [], ◌∷◌, ltb, leb, ◌==◌, if◌then◌else◌, length, take, drop, get_or, All}
use pinapod.Base.Bytes.{from_le_bytes}
use pinapod.Error.{
  PinaPodError, Diagnostic, buffer_too_small, invalid_length, invalid_tag, invalid_utf8,
}
use pinapod.Error.{Result, ok, err, ◌>>=◌, ◌>>◌, ensure, map_err}
use pinapod.Elem.{Checked}
use pinapod.Utf8.{is_utf8}
use Prim.Native.String.{String}
use pinapod.Pod.Prefix.{cap_check}
use Support.{ok_or, get_range, checked_add, checked_mul, decode_prefix, read_prefix, gcd}

-- A stored type, as far as a schema uses it: its size, and the validation of one value's bytes.
pub record Element : Type 0 where
  pub size : ℕ
  pub check : List ℕ → Checked

-- `enum TailPresence`
pub data TailPresence : Type 0 where
  always option_tag : TailPresence

-- `enum TailPayload`
pub data TailPayload : Type 0 where
  string : (max pfx : ℕ) → TailPayload
  vector : (elem : Element) (max pfx : ℕ) → TailPayload

pub record Inline : Type 0 where
  pub name : String
  pub elem : Element

pub record Tail : Type 0 where
  pub name : String
  pub presence : TailPresence
  pub payload : TailPayload

-- `struct Schema`, of a compact layout: the inline fields stand first.
pub record Schema : Type 0 where
  pub name : String
  pub inline_fields : List Inline
  pub tail_fields : List Tail

abbrev pub pfx_of : TailPayload → ℕ
pfx_of (string max pfx) = pfx
pfx_of (vector elem max pfx) = pfx

-- The bytes of a tail in the header: its length prefix, or its tag.
unfoldable pub header_width : Tail → ℕ
header_width t = elim t.presence [ always ↦ pfx_of t.payload | option_tag ↦ 1 ]

unfoldable pub inline_size : List Inline → ℕ
inline_size [] = 0
inline_size (f ∷ fs) = f.elem.size + inline_size fs

unfoldable pub tails_width : List Tail → ℕ
unfolding header_width
tails_width [] = 0
tails_width (t ∷ ts) = header_width t + tails_width ts

-- `size_of` of the generated header.
unfoldable pub header_size : Schema → ℕ
unfolding inline_size tails_width
header_size s = inline_size s.inline_fields + tails_width s.tail_fields

-- `PinaPodCompact::validate_storage_len`
unfoldable pub validate_storage_len : (min max alignment size : ℕ) → Checked
validate_storage_len min max alignment size =
    if alignment == 0 || ltb size min || ltb max size || not ((size - min) % alignment == 0)
    then err invalid_length
    else ok tt

-- The bytes of a header field.
abbrev pub field_bytes : List ℕ → ℕ → ℕ → List ℕ
field_bytes bytes at width = take width (drop at bytes)

-- `validate_slice` over `count` elements.
unfoldable pub validate_elems : Element → ℕ → List ℕ → Checked
validate_elems e zero bytes = ok tt
validate_elems e (suc count) bytes =
    e.check (take e.size bytes) >> validate_elems e count (drop e.size bytes)

-- `ZcValidate` of the generated header, from the field at `at` on.
unfoldable pub validate_header : List ℕ → List Inline → ℕ → Checked
validate_header bytes [] at = ok tt
validate_header bytes (f ∷ fs) at =
    f.elem.check (field_bytes bytes at f.elem.size) >> validate_header bytes fs (at + f.elem.size)

-- The steps of one tail after the other: `at` is the place of its header field, `offset` the end of
-- the tails before it.
unfoldable pub walk_tails :
    {E : Type 0} → (Tail → ℕ → ℕ → Result E ℕ) → List Tail → ℕ → ℕ → Result E ℕ
unfolding header_width
walk_tails step [] at offset = ok offset
walk_tails step (t ∷ ts) at offset =
    step t at offset >>= λ next. walk_tails step ts (at + header_width t) next

module _ (um : ℕ) where
  -- A sum that the generated code does not check wraps around.
  unfoldable pub bounded_tail_end : ℕ → ℕ → ℕ → Result PinaPodError ℕ
  unfolding checked_add
  bounded_tail_end pfx offset len =
      if leb pfx 2 then ok ((offset + len) % (um + 1)) else checked_add um offset len

  unfoldable pub bounded_byte_len : ℕ → ℕ → ℕ → Result PinaPodError ℕ
  unfolding checked_mul
  bounded_byte_len pfx count size =
      if leb pfx 2 then ok ((count * size) % (um + 1)) else checked_mul um count size

  unfoldable pub bounded_read_prefix : List ℕ → ℕ → ℕ → Result PinaPodError ℕ
  unfolding read_prefix
  bounded_read_prefix bytes offset pfx =
      if leb pfx 2
      then (if ltb (length bytes) ((offset + pfx) % (um + 1))
          then err buffer_too_small
          else ok (from_le_bytes (take pfx (drop offset bytes))))
      else read_prefix um bytes offset pfx

  -- The constant assertions of `compact_capacity_checks`.
  unfoldable pub capacity_checks : TailPayload → Bool
  unfolding cap_check
  capacity_checks (string max pfx) = cap_check (record { usize_max = um; n = max; pfx = pfx })
  capacity_checks (vector elem max pfx) =
      cap_check (record { usize_max = um; n = max; pfx = pfx })
      && not (elem.size == 0)
      && (not (leb pfx 2) || leb max (um / 2 / elem.size))

-- The target: `usize` has 32 to 64 bits. Its `isize::MAX` is `um / 2`.
pub record IsTarget (um : ℕ) : Type 0 where
  pub wide : 2 ^ 32 ≤ um + 1
  pub narrow : um < 2 ^ 64

-- A schema that compiles: its assertions hold.
abbrev pub IsCompact : ℕ → Schema → Type 0
IsCompact um s = All (λ t. capacity_checks um t.payload ≡ true) s.tail_fields
