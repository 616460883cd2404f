-- ===== src/Compact/Session.antt =====
-- The life of a staged writer (`generate_mut` of pinapod-derive/src/compact.rs): its construction, and
-- then setters and commits in any order.
use pinapod.Base.{
  ℕ, ◌+◌, ◌/◌, ◌≤◌, ◌≡◌, refl, ◌∙◌, arith, inl, inr, none, some, Bool, List, length, get_elem?, All,
  ltb, Bool-cases,
}
use pinapod.Base.Bytes.{IsByte}
use pinapod.Base.Slices.{slice}
use pinapod.Error.{ok}
use pinapod.Compact.{IsTarget, IsCompact, option_tag, Tail, Schema, inline_size}
use pinapod.Compact.Edits.{new, set_always, set_optional}
use pinapod.Compact.Edits as E
use pinapod.Compact.Commit.{commit}
use pinapod.Compact.Committed.{commit_lem, commit-refused}
use pinapod.Compact.Committed.Writer.{IsWriter, committed_len}
use pinapod.Compact.Staging.{IsArgument, new-IsWriter, set_always_lem, set_optional-none}

module _ (um : ℕ) (s : Schema) (top alignment : ℕ) (full_validation : Bool) where
  -- A call on a staged writer, with arguments of its types. It may fail.
  pub data Call : E.Writer → E.Writer → Type 0 where
    sets :
        (w : E.Writer) (i : ℕ) (t : Tail) (len : ℕ) (value : List ℕ)
        → get_elem? s.tail_fields i ≡ some t
        → IsArgument t.payload len value
        → Call w (set_always um w i t.payload len value).0
    sets_some :
        (w : E.Writer) (i : ℕ) (t : Tail) (len : ℕ) (value : List ℕ)
        → get_elem? s.tail_fields i ≡ some t
        → IsArgument t.payload len value
        → Call w (set_optional um w i t.payload (some (len, value))).0
    clears :
        (w : E.Writer) (i : ℕ) (t : Tail)
        → get_elem? s.tail_fields i ≡ some t
        → t.presence ≡ option_tag
        → Call w (set_optional um w i t.payload none).0
    commits : (w : E.Writer) → Call w (commit um s top alignment full_validation w).0

  -- Any sequence of calls.
  pub data Session (w : E.Writer) : E.Writer → Type 0 where
    opened : Session w w
    next : {middle after : E.Writer} → Session w middle → Call middle after → Session w after

-- What a call keeps: the size of the buffer, and its inline fields.
abbrev pub Keeps : Schema → (before after : List ℕ) → Type 0
Keeps s before after =
    (length after ≡ length before)
    × ((at n : ℕ) → at + n ≤ inline_size s.inline_fields → slice at n after ≡ slice at n before)

module _ {um : ℕ} (target : IsTarget um) (s : Schema) (top alignment : ℕ)
    (compiles : IsCompact um s) (full_validation : Bool) where
  abbrev Kept : E.Writer → E.Writer → Type 0
  Kept w after = IsWriter um s top alignment after × Keeps s w.bytes after.bytes

  set-Kept :
      (w : E.Writer) (i : ℕ) (t : Tail) (len : ℕ) (value : List ℕ)
      → IsWriter um s top alignment w
      → get_elem? s.tail_fields i ≡ some t
      → IsArgument t.payload len value
      → Kept w (set_always um w i t.payload len value).0
  set-Kept w i t len value writer found typed =
      elim (set_always_lem um s top alignment w writer i t found len value typed) [
        | inl (_, e, after) ↦ rw e (after, (refl, λ at n h. refl))
        | inr (_, (why, e)) ↦ rw e (writer, (refl, λ at n h. refl))
      ]

  commit-Kept :
      (w : E.Writer)
      → IsWriter um s top alignment w
      → Kept w (commit um s top alignment full_validation w).0
  commit-Kept w writer = elim (Bool-cases (ltb (length w.bytes) (committed_len um s w))) [
    | inl long ↦
        let (e, refused) =
          commit-refused target s top alignment compiles w writer full_validation
            (ground (arith, long)) in
        rw refused (writer, (refl, λ at n h. refl))
    | inr fits ↦
        let (after, made, (writer', _, len, _, front, _, _)) =
          commit_lem target s top alignment compiles w writer full_validation
            (ground (arith, fits)) in
        rw made (writer', (len, front))
  ]

  Call-Kept :
      {w after : E.Writer}
      → Call um s top alignment full_validation w after
      → IsWriter um s top alignment w
      → Kept w after
  unfolding set_optional
  Call-Kept (sets w i t len value found typed) writer = set-Kept w i t len value writer found typed
  Call-Kept (sets_some w i t len value found typed) writer =
      set-Kept w i t len value writer found typed
  Call-Kept (clears w i t found p) writer =
      ((set_optional-none um s top alignment w writer i t found p).1, (refl, λ at n h. refl))
  Call-Kept (commits w) writer = commit-Kept w writer

  Session-Kept :
      {w after : E.Writer}
      → Session um s top alignment full_validation w after
      → IsWriter um s top alignment w
      → Kept w after
  Session-Kept opened writer = (writer, (refl, λ at n h. refl))
  Session-Kept (next before call) writer =
      let (middle, (len, front)) = Session-Kept before writer in
      let (after, (len', front')) = Call-Kept call middle in
      (after, (len' ∙ len, λ at n h. front' at n h ∙ front at n h))

  -- For a schema whose compile-time assertions hold, on a target of 32 to 64 bits, and a buffer
  -- of bytes no longer than `isize::MAX`: whatever setters with arguments of their types and
  -- commits follow the construction of a staged writer, in any order and whether they fail or
  -- not, `validate` accepts the buffer of the writer, whose bytes are bytes and whose size and
  -- inline fields are those of the first buffer, the writer counts its encoded length, and it has
  -- no edit that its setters would refuse.
  pub Session-IsWriter :
      (bytes : List ℕ) (w after : E.Writer)
      → All IsByte bytes
      → length bytes ≤ um / 2
      → new um s top alignment bytes ≡ ok w
      → Session um s top alignment full_validation w after
      → IsWriter um s top alignment after × Keeps s bytes after.bytes
  Session-IsWriter bytes w after octets size made calls =
      let (writer, same) = new-IsWriter um s top alignment bytes w octets size made in
      rw same at (Session-Kept calls writer)
