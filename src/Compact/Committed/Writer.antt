-- ===== src/Compact/Committed/Writer.antt =====
-- The state of a staged writer between its calls, and after a commit.
use pinapod.Base.{
  ℕ, ◌+◌, ◌-◌, ◌/◌, ◌≤◌, ◌≡◌, refl, ap, sym, ◌∙◌, arith, Option, none, List, [], ◌∷◌, length,
  replicate, get_or, All,
}
use pinapod.Base.Bytes.{IsByte}
use pinapod.Base.Slices.{slice}
use pinapod.Error.{ok}
use pinapod.Compact.{
  Inline, Tail, Schema, header_size, inline_size, IsTarget, IsCompact, validate_header, walk_tails,
}
use pinapod.Compact.Walks.{full_step, validate}
use pinapod.Compact.Views.{accessor, current_encoded_len}
use pinapod.Compact.Sound.{walked, encoded_from-walk}
use pinapod.Compact.Edits.{Edit, Writer}
use pinapod.Compact.Commit.{clear_edits}
use pinapod.Compact.Planning.{AllStaged, new_end}
use pinapod.Compact.Planning.Setup.{}
use pinapod.Compact.Committed.Tails.{new_segment}
use pinapod.Compact.Committed.Plans.{}

-- What holds of a writer between its calls.
pub record IsWriter (um : ℕ) (s : Schema) (top alignment : ℕ) (w : Writer) : Type 0 where
  pub accepted : validate um s top alignment w.bytes ≡ ok tt
  pub octets : All IsByte w.bytes
  pub size : length w.bytes ≤ um / 2
  pub counted : w.total_len ≡ current_encoded_len um s w.bytes
  pub staged_edits : AllStaged um s.tail_fields w.edits

-- The encoded length once the edits are committed.
unfoldable pub committed_len : (um : ℕ) → Schema → Writer → ℕ
unfolding header_size inline_size
committed_len um s w =
    new_end um w.bytes s.tail_fields w.edits (inline_size s.inline_fields) (header_size s)
      (header_size s)

-- A writer after a commit: each tail holds its edit or what it held before, the inline fields are as
-- they were, the rest of the old tails is zeroed, and no edit is left.
abbrev pub Committed : (um : ℕ) → Schema → (top alignment : ℕ) → (w after : Writer) → Type 0
Committed um s top alignment w after =
    IsWriter um s top alignment after
    × (after.total_len ≡ committed_len um s w)
    × (length after.bytes ≡ length w.bytes)
    × ((i : ℕ)
        → accessor um s after.bytes i
          ≡ new_segment (get_or w.edits i none) (accessor um s w.bytes i))
    × ((at n : ℕ)
        → at + n ≤ inline_size s.inline_fields
        → slice at n after.bytes ≡ slice at n w.bytes)
    × (slice (committed_len um s w) (w.total_len - committed_len um s w) after.bytes
        ≡ replicate (w.total_len - committed_len um s w) 0)
    × (after.edits ≡ clear_edits w.edits)

pub validate_header-same :
    (bytes after : List ℕ) (front : ℕ) (fs : List Inline) (at : ℕ)
    → ((x n : ℕ) → x + n ≤ front → slice x n after ≡ slice x n bytes)
    → at + inline_size fs ≤ front
    → validate_header after fs at ≡ validate_header bytes fs at
unfolding validate_header inline_size
validate_header-same bytes after front [] at same h = refl
validate_header-same bytes after front (f ∷ fs) at same h =
    rw
      (
        same at f.elem.size (omega (arith, h)),
        validate_header-same bytes after front fs (at + f.elem.size) same (omega (arith, h)),
      )
      refl

pub clear-AllStaged :
    (um : ℕ) (ts : List Tail) (es : List (Option Edit))
    → AllStaged um ts es
    → AllStaged um ts (clear_edits es)
clear-AllStaged um [] [] h = tt
clear-AllStaged um [] (e ∷ es) h = absurd h
clear-AllStaged um (t ∷ ts) [] h = absurd h
clear-AllStaged um (t ∷ ts) (e ∷ es) h = (tt, clear-AllStaged um ts es h.1)

module _ {um : ℕ} (target : IsTarget um) (s : Schema) (top alignment : ℕ)
    (compiles : IsCompact um s) (w : Writer) (writer : IsWriter um s top alignment w) where
  -- The walk that validation took, and the encoded length that it ends at.
  pub start :
      (walk_tails (full_step um w.bytes) s.tail_fields (inline_size s.inline_fields) (header_size s)
        ≡ ok w.total_len)
      × (header_size s ≤ length w.bytes)
      × (w.total_len ≤ length w.bytes)
  unfolding current_encoded_len
  start =
      let (end, ends, front, _) =
        walked target s top alignment compiles w.bytes writer.octets writer.size writer.accepted in
      let (same, inside) =
        encoded_from-walk target w.bytes writer.octets writer.size s.tail_fields _ (header_size s)
          end compiles front ends in
      let total = writer.counted ∙ same in
      (ends ∙ ap ok (sym total), front, omega (arith, total, inside))
