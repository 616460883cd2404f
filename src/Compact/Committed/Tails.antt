-- ===== src/Compact/Committed/Tails.antt =====
-- A tail after the commit: what its header field and its block store.
use pinapod.Base.{
  ℕ, ◌+◌, ◌/◌, ◌≤◌, ◌≡◌, refl, ap, ◌∙◌, arith, Option, none, some, true, List, [], length,
}
use pinapod.Base.{length-append}
use pinapod.Base.Slices.{slice}
use Prim.Native.String.{String}
use pinapod.Error.{ok}
use pinapod.Compact.{
  IsTarget, TailPresence, always, option_tag, TailPayload, string, vector, Tail, pfx_of,
  header_width, capacity_checks,
}
use pinapod.Compact.Walks.{Segment, semantic, full_step}
use pinapod.Compact.Edits.{Edit, null, staged}
use pinapod.Compact.Stored.{HeaderOf, BlockOf, Stored}
use pinapod.Compact.Stored.Forward.{bounds-Stored}
use pinapod.Compact.Planning.{resized_len, IsStaged}
use pinapod.Compact.Writing.Tails.{prefix_bytes, prefix_bytes-ok, new_block}
use pinapod.Compact.Writing.Header.{new_field}

-- What the accessor of a tail shows after the commit of its edit.
abbrev pub new_segment : Option Edit → Segment → Segment
new_segment none old = old
new_segment (some null) old = none
new_segment (some (staged count source)) old = some (count, source)

-- The semantic check does not look at the buffer.
pub semantic-any :
    (um : ℕ) (bytes after : List ℕ) (p : TailPayload) (segment : Segment)
    → semantic um bytes p segment ≡ semantic um after p segment
unfolding semantic
semantic-any um bytes after p none = refl
semantic-any um bytes after (string max pfx) (some (len, tail)) = refl
semantic-any um bytes after (vector elem max pfx) (some (count, tail)) = refl

module _ {um : ℕ} (target : IsTarget um) where
  kept :
      (v : TailPresence) (p : TailPayload) (edit : Option Edit) (field block : List ℕ)
      (segment : Segment) (name : String) (old : ℕ)
      → HeaderOf um v segment field
      → BlockOf um v p segment block
      → IsStaged um (record { name = name; presence = v; payload = p }) edit
      → length block ≡ old
      → HeaderOf um v
          (new_segment edit segment)
          (new_field (record { name = name; presence = v; payload = p }) edit field)
        × BlockOf um v p
            (new_segment edit segment)
            (new_block (record { name = name; presence = v; payload = p }) edit block)
        × (length (new_block (record { name = name; presence = v; payload = p }) edit block)
            ≡ resized_len (record { name = name; presence = v; payload = p }) edit old)
  kept v p none field block segment name old h b ready len = (h, b, len)
  kept always p (some null) field block segment name old h b cleared len =
      absurd (ground (arith, cleared))
  kept option_tag p (some null) field block segment name old h b cleared len = (refl, refl, refl)
  kept always p (some (staged count source)) field block segment name old h b
        (value, fits, valid, _) len =
      ((prefix_bytes-ok target count (pfx_of p) fits).1, (value, refl), refl)
  kept option_tag p (some (staged count source)) field block segment name old h b
        (value, fits, valid, _) len =
      let (width, decoded) = prefix_bytes-ok target count (pfx_of p) fits in
      (
        refl,
        (value, prefix_bytes (pfx_of p) count, width, decoded, refl),
        omega (arith, length-append (prefix_bytes (pfx_of p) count) source, width),
      )

  -- A stored tail, once its field and its block hold what is wanted.
  pub Stored-after :
      (bytes after : List ℕ) (t : Tail) (at o n old : ℕ) (edit : Option Edit) (segment : Segment)
      → Stored um bytes t at o segment (slice o old bytes)
      → length (slice o old bytes) ≡ old
      → IsStaged um t edit
      → slice at (header_width t) after ≡ new_field t edit (slice at (header_width t) bytes)
      → slice n (resized_len t edit old) after ≡ new_block t edit (slice o old bytes)
      → n + resized_len t edit old ≤ length after
      → Stored um after t at n (new_segment edit segment) (new_block t edit (slice o old bytes))
        × (length (new_block t edit (slice o old bytes)) ≡ resized_len t edit old)
  Stored-after bytes after t at o n old edit segment (h, b, _, _) len ready field block room =
      let (h', b', len') =
        kept t.presence t.payload edit (slice at (header_width t) bytes) (slice o old bytes) segment
          t.name old h b ready len in
      ((rw field h', b', ap (λ k. slice n k after) len' ∙ block, omega (arith, len', room)), len')

  pub semantic-new_segment :
      (bytes after : List ℕ) (t : Tail) (edit : Option Edit) (segment : Segment)
      → semantic um bytes t.payload segment ≡ ok tt
      → IsStaged um t edit
      → semantic um after t.payload (new_segment edit segment) ≡ ok tt
  semantic-new_segment bytes after t none segment valid ready =
      semantic-any um after bytes t.payload segment ∙ valid
  semantic-new_segment bytes after t (some null) segment valid ready = unfold semantic in refl
  semantic-new_segment bytes after t (some (staged count source)) segment _ (_, _, valid, _) =
      semantic-any um after [] t.payload (some (count, source)) ∙ valid

-- The full step on a stored tail that passes the semantic check.
pub full_step-Stored :
    (um : ℕ) (bytes : List ℕ) (t : Tail) (at offset : ℕ) (segment : Segment) (block : List ℕ)
    → length bytes ≤ um / 2
    → capacity_checks um t.payload ≡ true
    → Stored um bytes t at offset segment block
    → semantic um bytes t.payload segment ≡ ok tt
    → full_step um bytes t at offset ≡ ok (offset + length block)
unfolding full_step
full_step-Stored um bytes t at offset segment block size h there valid =
    rw
      (
        bounds-Stored um bytes size t.name t.presence t.payload at offset segment block h there,
        valid,
      )
      refl
