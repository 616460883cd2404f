-- ===== src/Compact/Writing/Tails.antt =====
-- The writes of the edited tails: phase 2 of a commit.
use pinapod.Base.{
  ℕ, ◌+◌, ◌%◌, ◌^◌, ◌/◌, ◌≤◌, ◌≡◌, refl, ap, sym, ◌∙◌, arith, ◌⊎◌, inl, inr, Option, none, some,
  List, [], ◌∷◌, ◌++◌, ltb, length, take, Bool-cases,
}
use pinapod.Base.{take-length, length-append}
use pinapod.Base.Memory.{copy_at, length-copy_at}
use pinapod.Base.Bytes.{to_le_bytes, length-to_le_bytes}
use pinapod.Base.Slices.{slice, slice-copy_at, slice-copy_apart}
use Prim.Native.String.{String}
use pinapod.Error.{Result, PinaPodError, ok}
use pinapod.Compact.Support.{check_prefix, decode_prefix, write_prefix}
use pinapod.Compact.{
  IsTarget, TailPresence, always, option_tag, TailPayload, string, vector, Tail, pfx_of,
}
use pinapod.Compact.Prefixes.{check_prefix-cases, check_prefix-le, stored, decoded}
use pinapod.Compact.Edits.{Edit, null, staged}
use pinapod.Compact.Stored.{Value, range-ok}
use pinapod.Compact.Planning.{resized_len, IsStaged}
use pinapod.Compact.Planning.Lengths.{add-ok, byte_len-Value}
use pinapod.Compact.Commit.Plan.{Move, placed}
use pinapod.Compact.Commit.Writes.{put_prefix, put_payload, put_always, put_option, put_edit}
use pinapod.Compact.Writing.{Wrote, Wrote-append, Acts}

-- The bytes that `__pinapod_write_prefix` copies.
abbrev pub prefix_bytes : ℕ → ℕ → List ℕ
prefix_bytes width count = take width (to_le_bytes 8 (count % 2 ^ 64))

pub prefix_bytes-ok :
    {um : ℕ}
    → IsTarget um
    → (count width : ℕ) → check_prefix um count width ≡ ok tt
    → (length (prefix_bytes width count) ≡ width)
      × (decode_prefix um (prefix_bytes width count) ≡ ok count)
prefix_bytes-ok {um} target count width e =
    let cases = check_prefix-cases target count width e in
    let (front, _) = stored width count cases in
    rw front (
      length-to_le_bytes width count,
      decoded um width count cases (check_prefix-le target count width e),
    )

pub copy-Wrote :
    (bytes : List ℕ) (offset : ℕ) (source : List ℕ)
    → offset + length source ≤ length bytes
    → Wrote bytes (copy_at offset source bytes) offset source
copy-Wrote bytes offset source h = (
  length-copy_at offset source bytes,
  slice-copy_at offset source bytes h,
  λ at n apart. slice-copy_apart at n offset source bytes apart,
)

module _ (um : ℕ) where
  pub put_prefix-Wrote :
      (bytes : List ℕ) (offset width count : ℕ)
      → check_prefix um count width ≡ ok tt
      → length (prefix_bytes width count) ≡ width
      → offset + width ≤ length bytes
      → length bytes ≤ um / 2
      → (write_prefix um bytes offset width count
          ≡ ok (copy_at offset (prefix_bytes width count) bytes))
        × Wrote bytes
            (copy_at offset (prefix_bytes width count) bytes)
            offset
            (prefix_bytes width count)
  unfolding write_prefix
  put_prefix-Wrote bytes offset width count fits len h size = (
    rw (fits, add-ok um offset width (omega (arith, h, size)), range-ok bytes offset width h) refl,
    copy-Wrote bytes offset (prefix_bytes width count) (omega (arith, len, h)),
  )

  put_payload-Wrote :
      (bytes : List ℕ) (offset len : ℕ) (source : List ℕ)
      → len ≡ length source
      → offset + length source ≤ length bytes
      → length bytes ≤ um / 2
      → (after : List ℕ) × (put_payload um offset len source bytes ≡ (after, ok tt))
        × Wrote bytes after offset source
  unfolding put_payload
  put_payload-Wrote bytes offset len source e h size = elim (Bool-cases (ltb 0 len)) [
    | inl any ↦ (
      copy_at offset source bytes,
      rw (any, add-ok um offset len (omega (arith, e, h, size)), e, take-length source) refl,
      copy-Wrote bytes offset source h,
    )
    | inr nothing ↦
        let empty : length source ≡ 0 = ground (arith, nothing, e) in
        (bytes, rw nothing refl, (refl, nothing_of source empty, λ at n apart. refl))
  ]
    where
      nothing_of : (xs : List ℕ) → length xs ≡ 0 → slice offset (length xs) bytes ≡ xs
      nothing_of [] h = refl
      nothing_of (x ∷ xs) h = absurd (omega (arith, h))

  put_option-Wrote :
      (bytes : List ℕ) (p : TailPayload) (m : Move) (count : ℕ) (source : List ℕ)
      → Value p count source
      → check_prefix um count (pfx_of p) ≡ ok tt
      → length (prefix_bytes (pfx_of p) count) ≡ pfx_of p
      → m.new_off + (pfx_of p + length source) ≤ length bytes
      → length bytes ≤ um / 2
      → (after : List ℕ) × (put_option um p m (staged count source) bytes ≡ (after, ok tt))
        × Wrote bytes after m.new_off (prefix_bytes (pfx_of p) count ++ source)
  unfolding put_option put_prefix
  put_option-Wrote bytes p m count source value fits width h size =
      let (written, wrote) =
        put_prefix-Wrote bytes m.new_off (pfx_of p) count fits width (omega (arith, h)) size in
      let middle = copy_at m.new_off (prefix_bytes (pfx_of p) count) bytes in
      let len : length middle ≡ length bytes = wrote.0 in
      let (after, done, wrote') =
        put_payload-Wrote middle (m.new_off + length (prefix_bytes (pfx_of p) count))
          (length source) source refl (omega (arith, h, width, len)) (omega (arith, size, len)) in
      (
        after,
        rw
            (
              written,
              byte_len-Value um p count source value (omega (arith, h, size)),
              add-ok um m.new_off (pfx_of p) (omega (arith, h, size)),
            )
            (ap (λ k. put_payload um (m.new_off + k) (length source) source middle) (sym width)
              ∙ done),
        Wrote-append bytes middle after m.new_off _ source wrote wrote',
      )

-- The bytes of a tail after its statement of phase 2.
abbrev pub new_block : Tail → Option Edit → List ℕ → List ℕ
new_block t none old = old
new_block t (some null) old = []
new_block t (some (staged count source)) old = elim t.presence [
  | always ↦ source
  | option_tag ↦ prefix_bytes (pfx_of t.payload) count ++ source
]

abbrev pub want_tail : List ℕ → Move → List ℕ
want_tail bytes m = new_block m.tail m.edit (slice m.new_off m.new_len bytes)

abbrev pub TailActs : ℕ → List ℕ → Move → Type 0
TailActs um = Acts (λ m. put_edit um m m.edit) (λ m. m.new_off) (λ m. m.new_len) want_tail

pub of_Wrote :
    (run : List ℕ × Result PinaPodError (Unit {0})) (bytes : List ℕ) (offset n : ℕ) (block : List ℕ)
    → (after : List ℕ) × (run ≡ (after, ok tt)) × Wrote bytes after offset block
    → length block ≡ n
    → (after : List ℕ) × (run ≡ (after, ok tt))
      × (length after ≡ length bytes)
      × (slice offset n after ≡ block)
      × ((at k : ℕ) → (at + k ≤ offset) ⊎ (offset + n ≤ at) → slice at k after ≡ slice at k bytes)
of_Wrote run bytes offset n block (after, done, (len, front, apart)) e = (
  after,
  done,
  len,
  ap (λ k. slice offset k after) (sym e) ∙ front,
  λ at k h.
      apart at k (elim h [ inl below ↦ inl below | inr above ↦ inr (omega (arith, above, e)) ]),
)

module _ {um : ℕ} (target : IsTarget um) (bytes : List ℕ) (size : length bytes ≤ um / 2) where
  always-Acts :
      (name : String) (p : TailPayload) (at o n old new count : ℕ) (source : List ℕ)
      → IsStaged um
          (record { name = name; presence = always; payload = p })
          (some (staged count source))
      → new ≡ length source
      → n + new ≤ length bytes
      → TailActs um bytes (
          placed
            (record { name = name; presence = always; payload = p })
            at
            (some (staged count source))
            (o, n)
            old
            new)
  unfolding put_edit put_always
  always-Acts name (string max pfx) at o n old new count source ((few, sized), _, _, _) e h =
      of_Wrote _ bytes n new source
        (put_payload-Wrote um bytes n count source (sym sized) (omega (arith, e, h)) size) (sym e)
  always-Acts name (vector elem max pfx) at o n old new count source fits e h =
      of_Wrote _ bytes n new source
        (put_payload-Wrote um bytes n new source e (omega (arith, e, h)) size) (sym e)

  put_edit-Acts_parts :
      (name : String) (v : TailPresence) (p : TailPayload) (at : ℕ) (edit : Option Edit)
      (o n old new : ℕ)
      → IsStaged um (record { name = name; presence = v; payload = p }) edit
      → new ≡ resized_len (record { name = name; presence = v; payload = p }) edit old
      → n + new ≤ length bytes
      → TailActs um bytes
          (placed (record { name = name; presence = v; payload = p }) at edit (o, n) old new)
  unfolding put_edit put_option
  put_edit-Acts_parts name v p at none o n old new h e room =
      (bytes, refl, refl, refl, λ at k apart. refl)
  put_edit-Acts_parts name always p at (some null) o n old new h e room = absurd (ground (arith, h))
  put_edit-Acts_parts name option_tag p at (some null) o n old new h e room =
      (bytes, refl, refl, ap (λ k. slice n k bytes) e, λ at k apart. refl)
  put_edit-Acts_parts name always p at (some (staged count source)) o n old new h e room =
      always-Acts name p at o n old new count source h e room
  put_edit-Acts_parts name option_tag p at (some (staged count source)) o n old new
        (value, fits, valid, _) e room =
      let (width, _) = prefix_bytes-ok target count (pfx_of p) fits in
      let m =
        placed (record { name = name; presence = option_tag; payload = p }) at
          (some (staged count source)) (o, n) old new in
      of_Wrote _ bytes n new (prefix_bytes (pfx_of p) count ++ source)
        (put_option-Wrote um bytes p m count source value fits width (omega (arith, e, room)) size)
        (omega (arith, length-append (prefix_bytes (pfx_of p) count) source, width, e))

  -- The statement of phase 2 for a staged move.
  pub put_edit-Acts :
      (m : Move)
      → IsStaged um m.tail m.edit
      → m.new_len ≡ resized_len m.tail m.edit m.old_len
      → m.new_off + m.new_len ≤ length bytes
      → TailActs um bytes m
  put_edit-Acts m h e room =
      put_edit-Acts_parts m.tail.name m.tail.presence m.tail.payload m.at m.edit m.old_off m.new_off
        m.old_len m.new_len h e room
