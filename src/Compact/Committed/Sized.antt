-- ===== src/Compact/Committed/Sized.antt =====
-- A commit (`generate_commit_body` of pinapod-derive/src/compact.rs) never changes the size of the
-- buffer, also where it fails.
use pinapod.Base.{
  ℕ, ◌≡◌, refl, ◌∙◌, Option, none, some, Bool, List, [], ◌∷◌, ltb, length, take, Bool-cases, inl,
  inr,
}
use pinapod.Base.{length-set}
use pinapod.Base.Memory.{copy_at, length-copy_at, length-fill}
use Prim.Native.String.{String}
use pinapod.Error.{Result, PinaPodError, ok, err, >>=-eq-ok, ok-eq, buffer_too_small}
use pinapod.Compact.Support.{write_prefix, check_prefix, checked_add, ok_or, get_range}
use pinapod.Compact.{
  Schema, TailPresence, always, option_tag, TailPayload, string, vector, Tail, field_bytes, pfx_of,
}
use pinapod.Compact.Edits.{Edit, null, staged, Writer, edit_count, edit_source, byte_len}
use pinapod.Compact.Relocation.{length-phase_1a, length-phase_1b}
use pinapod.Compact.Commit.{
  relocate, finish, commit_plan, commit_tails, commit_header, commit_of, commit,
}
use pinapod.Compact.Commit.Plan.{Move, placed, plan}
use pinapod.Compact.Commit.Moves.{phase_1a, phase_1b}
use pinapod.Compact.Commit.Writes.{
  Action, following, ◌>>=◌, lift, modify, written, for_each, put_prefix, put_payload, put_always,
  put_option, put_edit, phase_2, tag_of, update_len, update_header, update_lens,
}

abbrev KeepsLen : {A : Type 0} → Action A → Type 0
KeepsLen act = (bytes : List ℕ) → length (act bytes).0 ≡ length bytes

length-following :
    {A B : Type 0} (k : A → Action B) (r : List ℕ × Result PinaPodError A) (size : ℕ)
    → length r.0 ≡ size
    → ((a : A) → KeepsLen (k a))
    → length (following k r).0 ≡ size
length-following k (after, ok a) size h g = g a after ∙ h
length-following k (after, err e) size h g = h

length-written :
    (back : List ℕ → List ℕ) (bytes : List ℕ) (r : Result PinaPodError (List ℕ))
    → ((part : List ℕ) → r ≡ ok part → length (back part) ≡ length bytes)
    → length (written back bytes r).0 ≡ length bytes
length-written back bytes (ok part) g = g part refl
length-written back bytes (err e) g = refl

write_prefix-len :
    (um : ℕ) (bytes : List ℕ) (offset width value : ℕ) (after : List ℕ)
    → write_prefix um bytes offset width value ≡ ok after
    → length after ≡ length bytes
unfolding write_prefix
write_prefix-len um bytes offset width value after e =
    let (_, _, rest) = >>=-eq-ok (check_prefix um value width) _ e in
    let (end, _, last) = >>=-eq-ok (checked_add um offset width) _ rest in
    let (_, _, made) = >>=-eq-ok (ok_or (get_range bytes offset end) buffer_too_small) _ last in
    rw (← ok-eq made) (length-copy_at offset _ bytes)

module _ (um : ℕ) where
  put_prefix-len : (offset width value : ℕ) → KeepsLen (put_prefix um offset width value)
  unfolding put_prefix
  put_prefix-len offset width value bytes =
      length-written (λ after. after) bytes (write_prefix um bytes offset width value)
        (write_prefix-len um bytes offset width value)

  put_payload-len : (offset len : ℕ) (source : List ℕ) → KeepsLen (put_payload um offset len source)
  unfolding put_payload
  put_payload-len offset len source bytes = elim (Bool-cases (ltb 0 len)) [
    | inl e ↦ rw e (
        length-following (λ _. modify (copy_at offset (take len source)))
          (bytes, checked_add um offset len) (length bytes) refl (λ _ b. length-copy_at offset _ b))
    | inr e ↦ rw e refl
  ]

  put_option-len : (p : TailPayload) (m : Move) (edit : Edit) → KeepsLen (put_option um p m edit)
  unfolding put_option
  put_option-len p m null bytes = refl
  put_option-len p m (staged count source) bytes =
      length-following
        (λ _. lift (byte_len um p count) >>= λ len.
          lift (checked_add um m.new_off (pfx_of p)) >>= λ start. put_payload um start len source)
        (put_prefix um m.new_off (pfx_of p) count bytes) (length bytes)
        (put_prefix-len m.new_off (pfx_of p) count bytes)
        (λ _ b.
          length-following
            (λ len. lift (checked_add um m.new_off (pfx_of p)) >>= λ start.
              put_payload um start len source)
            (b, byte_len um p count) (length b) refl
            (λ len b'.
              length-following (λ start. put_payload um start len source)
                (b', checked_add um m.new_off (pfx_of p)) (length b') refl
                (λ start. put_payload-len start len source)))

  put_always-len : (p : TailPayload) (m : Move) (edit : Edit) → KeepsLen (put_always um p m edit)
  unfolding put_always
  put_always-len (string max pfx) m edit = put_payload-len m.new_off _ (edit_source edit)
  put_always-len (vector elem max pfx) m edit = put_payload-len m.new_off _ (edit_source edit)

  update_len-len : (at pfx count : ℕ) → KeepsLen (update_len um at pfx count)
  unfolding update_len
  update_len-len at pfx count bytes =
      length-written (λ field. copy_at at field bytes) bytes
        (write_prefix um (field_bytes bytes at pfx) 0 pfx count)
        (λ field e. length-copy_at at field bytes)

  -- The two statements of a tail, by its presence.
  edit-len :
      (name : String) (v : TailPresence) (p : TailPayload) (at : ℕ) (edit : Option Edit)
      (o n old new : ℕ)
      → (let m =
            placed (record { name = name; presence = v; payload = p }) at edit (o, n) old new in
          KeepsLen (put_edit um m edit) × KeepsLen (update_header um m edit))
  unfolding put_edit update_header
  edit-len name v p at none o n old new = (λ bytes. refl, λ bytes. refl)
  edit-len name always p at (some edit) o n old new = (
    put_always-len p
        (placed (record { name = name; presence = always; payload = p }) at (some edit) (o, n) old
          new)
        edit,
    update_len-len at (pfx_of p) (edit_count edit),
  )
  edit-len name option_tag p at (some edit) o n old new = (
    put_option-len p
        (placed (record { name = name; presence = option_tag; payload = p }) at (some edit) (o, n)
          old new)
        edit,
    λ bytes. length-set bytes at (tag_of edit),
  )

  move-len : (m : Move) → KeepsLen (put_edit um m m.edit) × KeepsLen (update_header um m m.edit)
  move-len m =
      edit-len m.tail.name m.tail.presence m.tail.payload m.at m.edit m.old_off m.new_off m.old_len
        m.new_len

  for_each-len :
      (act : Move → Action (Unit {0})) (ms : List Move)
      → ((m : Move) → KeepsLen (act m))
      → KeepsLen (for_each act ms)
  unfolding for_each
  for_each-len act [] k bytes = refl
  for_each-len act (m ∷ ms) k bytes =
      length-following (λ _. for_each act ms) (act m bytes) (length bytes) (k m bytes)
        (λ _. for_each-len act ms k)

  length-relocate : (ms : List Move) → KeepsLen (relocate um ms)
  unfolding relocate phase_2 update_lens
  length-relocate ms bytes =
      length-following (λ _. update_lens um ms) (phase_2 um ms (phase_1b ms (phase_1a ms bytes)))
        (length bytes)
        (for_each-len (λ m. put_edit um m m.edit) ms (λ m. (move-len m).0) _
          ∙ length-phase_1b 0 ms _
          ∙ length-phase_1a 0 ms bytes)
        (λ _. for_each-len (λ m. update_header um m m.edit) ms (λ m. (move-len m).1))

length-finish :
    (w : Writer) (final : ℕ) (r : List ℕ × Result PinaPodError (Unit {0}))
    → length (finish w final r).0.bytes ≡ length r.0
unfolding finish
length-finish w final (after, err e) = refl
length-finish w final (after, ok tt) = elim (Bool-cases (ltb final w.total_len)) [
  | inl less ↦ rw less (length-fill final w.total_len 0 after)
  | inr more ↦ rw more refl
]

length-commit_plan :
    (um : ℕ) (w : Writer) (r : Result PinaPodError (List Move × ℕ))
    → length (commit_plan um w r).0.bytes ≡ length w.bytes
unfolding commit_plan
length-commit_plan um w (err e) = refl
length-commit_plan um w (ok (ms, final)) =
    length-finish w final (relocate um ms w.bytes) ∙ length-relocate um ms w.bytes

module _ (um : ℕ) (s : Schema) (top alignment : ℕ) (full_validation : Bool) where
  length-commit_of :
      (ts : List Tail) (w : Writer)
      → length (commit_of um s top alignment full_validation ts w).0.bytes ≡ length w.bytes
  unfolding commit_of commit_header commit_tails
  length-commit_of [] w = refl
  length-commit_of (t ∷ ts) w = length-commit_plan um w (plan um s top alignment full_validation w)

  pub length-commit :
      (w : Writer) → length (commit um s top alignment full_validation w).0.bytes ≡ length w.bytes
  unfolding commit
  length-commit = length-commit_of s.tail_fields
