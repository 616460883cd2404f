-- ===== src/Compact/Committed/Octets.antt =====
-- The writes of a commit store bytes.
use pinapod.Base.{
  ℕ, zero, suc, ◌%◌, ◌^◌, ◌<◌, ◌≡◌, refl, arith, Option, none, some, List, [], ◌∷◌, ltb, ◌&&◌, take,
  set, All, Bool-cases, inl, inr,
}
use pinapod.Base.{All-take, All-drop, All-map}
use pinapod.Base.Memory.{copy_at, fill}
use pinapod.Base.Bytes.{IsByte, to_le_bytes-IsByte}
use Prim.Native.String.{String}
use pinapod.Error.{Result, PinaPodError, ok, err, >>=-eq-ok, ok-eq, buffer_too_small}
use pinapod.Compact.Support.{write_prefix, check_prefix, checked_add, ok_or, get_range}
use pinapod.Compact.{
  always, option_tag, TailPresence, TailPayload, string, vector, Tail, field_bytes, pfx_of,
}
use pinapod.Compact.Edits.{Edit, null, staged, is_none, edit_source, byte_len, edit_count}
use pinapod.Compact.Planning.{IsStaged}
use pinapod.Compact.Commit.{relocate}
use pinapod.Compact.Commit.Plan.{Move, placed}
use pinapod.Compact.Commit.Moves.{copy_tail, move_down, move_up, phase_1a, phase_1b}
use pinapod.Compact.Commit.Writes.{
  Action, following, ◌>>=◌, lift, modify, written, for_each, put_prefix, put_payload, put_always,
  put_option, put_edit, phase_2, tag_of, update_len, update_header, update_lens,
}

abbrev pub Octets : List ℕ → Type 0
Octets = All IsByte

pub copy_at-Octets : (i : ℕ) (vs ds : List ℕ) → Octets vs → Octets ds → Octets (copy_at i vs ds)
copy_at-Octets i vs [] h k = tt
copy_at-Octets (suc i) vs (d ∷ ds) h k = (k.0, copy_at-Octets i vs ds h k.1)
copy_at-Octets zero [] (d ∷ ds) h k = k
copy_at-Octets zero (v ∷ vs) (d ∷ ds) h k = (h.0, copy_at-Octets zero vs ds h.1 k.1)

pub fill-Octets : (lo hi : ℕ) (ds : List ℕ) → Octets ds → Octets (fill lo hi 0 ds)
fill-Octets lo hi [] h = tt
fill-Octets zero zero (d ∷ ds) h = h
fill-Octets (suc lo) zero (d ∷ ds) h = h
fill-Octets zero (suc hi) (d ∷ ds) h = (omega arith, fill-Octets zero hi ds h.1)
fill-Octets (suc lo) (suc hi) (d ∷ ds) h = (h.0, fill-Octets lo hi ds h.1)

set-Octets : (bytes : List ℕ) (i v : ℕ) → v < 256 → Octets bytes → Octets (set bytes i v)
set-Octets [] i v h k = tt
set-Octets (b ∷ bytes) zero v h k = (h, k.1)
set-Octets (b ∷ bytes) (suc i) v h k = (k.0, set-Octets bytes i v h k.1)

copy_tail-Octets : (m : Move) (bytes : List ℕ) → Octets bytes → Octets (copy_tail m bytes)
unfolding copy_tail
copy_tail-Octets m bytes h =
    copy_at-Octets m.new_off _ bytes
      (All-take IsByte m.old_len _ (All-drop IsByte m.old_off bytes h)) h

move_down-Octets : (m : Move) (bytes : List ℕ) → Octets bytes → Octets (move_down m bytes)
unfolding move_down
move_down-Octets m bytes h =
    elim (Bool-cases (is_none m.edit && ltb m.new_off m.old_off && ltb 0 m.old_len)) [
      | inl e ↦ rw e (copy_tail-Octets m bytes h)
      | inr e ↦ rw e h
    ]

move_up-Octets : (m : Move) (bytes : List ℕ) → Octets bytes → Octets (move_up m bytes)
unfolding move_up
move_up-Octets m bytes h =
    elim (Bool-cases (is_none m.edit && ltb m.old_off m.new_off && ltb 0 m.old_len)) [
      | inl e ↦ rw e (copy_tail-Octets m bytes h)
      | inr e ↦ rw e h
    ]

phase_1a-Octets : (ms : List Move) (bytes : List ℕ) → Octets bytes → Octets (phase_1a ms bytes)
unfolding phase_1a
phase_1a-Octets [] bytes h = h
phase_1a-Octets (m ∷ ms) bytes h =
    phase_1a-Octets ms (move_down m bytes) (move_down-Octets m bytes h)

phase_1b-Octets : (ms : List Move) (bytes : List ℕ) → Octets bytes → Octets (phase_1b ms bytes)
unfolding phase_1b
phase_1b-Octets [] bytes h = h
phase_1b-Octets (m ∷ ms) bytes h = move_up-Octets m (phase_1b ms bytes) (phase_1b-Octets ms bytes h)

-- An action that keeps bytes bytes, also where it fails.
abbrev Keeps : {A : Type 0} → Action A → Type 0
Keeps act = (bytes : List ℕ) → Octets bytes → Octets (act bytes).0

following-Octets :
    {A B : Type 0} (k : A → Action B) (r : List ℕ × Result PinaPodError A)
    → Octets r.0
    → ((a : A) → Keeps (k a))
    → Octets (following k r).0
following-Octets k (after, ok a) h g = g a after h
following-Octets k (after, err e) h g = h

written-Octets :
    (back : List ℕ → List ℕ) (bytes : List ℕ) (r : Result PinaPodError (List ℕ))
    → Octets bytes
    → ((part : List ℕ) → r ≡ ok part → Octets (back part))
    → Octets (written back bytes r).0
written-Octets back bytes (ok part) h g = g part refl
written-Octets back bytes (err e) h g = h

write_prefix-Octets :
    (um : ℕ) (bytes : List ℕ) (offset width value : ℕ) (after : List ℕ)
    → Octets bytes
    → write_prefix um bytes offset width value ≡ ok after
    → Octets after
unfolding write_prefix
write_prefix-Octets um bytes offset width value after h e =
    let (_, _, rest) = >>=-eq-ok (check_prefix um value width) _ e in
    let (end, _, last) = >>=-eq-ok (checked_add um offset width) _ rest in
    let (_, _, made) = >>=-eq-ok (ok_or (get_range bytes offset end) buffer_too_small) _ last in
    rw (← ok-eq made) (
      copy_at-Octets offset _ bytes
        (All-take IsByte width _ (to_le_bytes-IsByte 8 (value % 2 ^ 64))) h)

module _ (um : ℕ) where
  put_prefix-Octets : (offset width value : ℕ) → Keeps (put_prefix um offset width value)
  unfolding put_prefix
  put_prefix-Octets offset width value bytes h =
      written-Octets (λ after. after) bytes (write_prefix um bytes offset width value) h
        (λ after e. write_prefix-Octets um bytes offset width value after h e)

  put_payload-Octets :
      (offset len : ℕ) (source : List ℕ) → Octets source → Keeps (put_payload um offset len source)
  unfolding put_payload
  put_payload-Octets offset len source s bytes h = elim (Bool-cases (ltb 0 len)) [
    | inl e ↦ rw e (
        following-Octets (λ _. modify (copy_at offset (take len source)))
          (bytes, checked_add um offset len) h
          (λ _ b k. copy_at-Octets offset _ b (All-take IsByte len source s) k))
    | inr e ↦ rw e h
  ]

  put_option-Octets :
      (p : TailPayload) (m : Move) (edit : Edit)
      → Octets (edit_source edit)
      → Keeps (put_option um p m edit)
  unfolding put_option
  put_option-Octets p m null s bytes h = h
  put_option-Octets p m (staged count source) s bytes h =
      following-Octets
        (λ _. lift (byte_len um p count) >>= λ len.
          lift (checked_add um m.new_off (pfx_of p)) >>= λ start. put_payload um start len source)
        (put_prefix um m.new_off (pfx_of p) count bytes)
        (put_prefix-Octets m.new_off (pfx_of p) count bytes h)
        (λ _ b k.
          following-Octets
            (λ len. lift (checked_add um m.new_off (pfx_of p)) >>= λ start.
              put_payload um start len source)
            (b, byte_len um p count) k
            (λ len b' k'.
              following-Octets (λ start. put_payload um start len source)
                (b', checked_add um m.new_off (pfx_of p)) k'
                (λ start. put_payload-Octets start len source s)))

  put_always-Octets :
      (p : TailPayload) (m : Move) (edit : Edit)
      → Octets (edit_source edit)
      → Keeps (put_always um p m edit)
  unfolding put_always
  put_always-Octets (string max pfx) m edit s = put_payload-Octets m.new_off _ (edit_source edit) s
  put_always-Octets (vector elem max pfx) m edit s =
      put_payload-Octets m.new_off _ (edit_source edit) s

  edit-Octets : (t : Tail) (edit : Edit) → IsStaged um t (some edit) → Octets (edit_source edit)
  edit-Octets t null h = tt
  edit-Octets t (staged count source) h = h.3

  put_edit-Octets_parts :
      (name : String) (v : TailPresence) (p : TailPayload) (at : ℕ) (edit : Option Edit)
      (o n old new : ℕ)
      → IsStaged um (record { name = name; presence = v; payload = p }) edit
      → Keeps (
          put_edit um
            (placed (record { name = name; presence = v; payload = p }) at edit (o, n) old new)
            edit)
  unfolding put_edit
  put_edit-Octets_parts name v p at none o n old new s bytes h = h
  put_edit-Octets_parts name always p at (some edit) o n old new s bytes h =
      put_always-Octets p
        (placed (record { name = name; presence = always; payload = p }) at (some edit) (o, n) old
          new)
        edit (edit-Octets (record { name = name; presence = always; payload = p }) edit s) bytes h
  put_edit-Octets_parts name option_tag p at (some edit) o n old new s bytes h =
      put_option-Octets p
        (placed (record { name = name; presence = option_tag; payload = p }) at (some edit) (o, n)
          old new)
        edit (edit-Octets (record { name = name; presence = option_tag; payload = p }) edit s) bytes
        h

  put_edit-Octets : (m : Move) → IsStaged um m.tail m.edit → Keeps (put_edit um m m.edit)
  put_edit-Octets m s =
      put_edit-Octets_parts m.tail.name m.tail.presence m.tail.payload m.at m.edit m.old_off
        m.new_off m.old_len m.new_len s

  update_len-Octets : (at pfx count : ℕ) → Keeps (update_len um at pfx count)
  unfolding update_len
  update_len-Octets at pfx count bytes h =
      written-Octets _ bytes (write_prefix um (field_bytes bytes at pfx) 0 pfx count) h (λ field e.
        copy_at-Octets at field bytes
          (write_prefix-Octets um _ 0 pfx count field
            (All-take IsByte pfx _ (All-drop IsByte at bytes h)) e)
          h)

  tag_of-lt : (edit : Edit) → tag_of edit < 256
  tag_of-lt null = omega arith
  tag_of-lt (staged count source) = omega arith

  update_header-Octets_parts :
      (name : String) (v : TailPresence) (p : TailPayload) (at : ℕ) (edit : Option Edit)
      (o n old new : ℕ)
      → Keeps (
          update_header um
            (placed (record { name = name; presence = v; payload = p }) at edit (o, n) old new)
            edit)
  unfolding update_header
  update_header-Octets_parts name v p at none o n old new bytes h = h
  update_header-Octets_parts name always p at (some edit) o n old new bytes h =
      update_len-Octets at (pfx_of p) (edit_count edit) bytes h
  update_header-Octets_parts name option_tag p at (some edit) o n old new bytes h =
      set-Octets bytes at (tag_of edit) (tag_of-lt edit) h

  update_header-Octets : (m : Move) → Keeps (update_header um m m.edit)
  update_header-Octets m =
      update_header-Octets_parts m.tail.name m.tail.presence m.tail.payload m.at m.edit m.old_off
        m.new_off m.old_len m.new_len

  for_each-Octets :
      (act : Move → Action (Unit {0})) (ms : List Move)
      → All (λ m. Keeps (act m)) ms
      → Keeps (for_each act ms)
  unfolding for_each
  for_each-Octets act [] k bytes h = h
  for_each-Octets act (m ∷ ms) k bytes h =
      following-Octets (λ _. for_each act ms) (act m bytes) (k.0 bytes h)
        (λ _. for_each-Octets act ms k.1)

  pub relocate-Octets :
      (ms : List Move) (bytes : List ℕ)
      → All (λ m. IsStaged um m.tail m.edit) ms
      → Octets bytes
      → Octets (relocate um ms bytes).0
  unfolding relocate phase_2 update_lens
  relocate-Octets ms bytes s h =
      following-Octets (λ _. update_lens um ms) (phase_2 um ms (phase_1b ms (phase_1a ms bytes)))
        (for_each-Octets (λ m. put_edit um m m.edit) ms (All-map (λ m e. put_edit-Octets m e) ms s)
          _ (phase_1b-Octets ms _ (phase_1a-Octets ms bytes h)))
        (λ _.
          for_each-Octets (λ m. update_header um m m.edit) ms
            (All-map (λ m e. update_header-Octets m) ms s))
