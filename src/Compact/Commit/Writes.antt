-- ===== src/Compact/Commit/Writes.antt =====
-- The third part of a commit: the edited tails are written, and then their lengths and tags in the
-- header. An error leaves what was written.
use pinapod.Base.{ℕ, Option, none, some, List, [], ◌∷◌, ltb, if◌then◌else◌, set}
use pinapod.Base.{take}
use pinapod.Base.Memory.{copy_at}
use pinapod.Error.{PinaPodError, Result, ok, err}
use pinapod.Compact.Support.{checked_add, write_prefix}
use pinapod.Compact.{always, option_tag, TailPayload, string, vector, pfx_of, field_bytes}
use pinapod.Compact.Edits.{Edit, null, staged, edit_count, edit_source, byte_len}
use pinapod.Compact.Commit.Plan.{Move}

-- A computation on the buffer, which keeps it also where it fails.
abbrev pub Action : Type 0 → Type 0
Action A = List ℕ → List ℕ × Result PinaPodError A

abbrev pub following :
    {A B : Type 0}
    → (A → Action B)
    → List ℕ × Result PinaPodError A
    → List ℕ × Result PinaPodError B
following f (after, ok a) = f a after
following f (after, err e) = (after, err e)

infixl 5 ◌>>=◌ ◌>>◌
abbrev pub ◌>>=◌ : {A B : Type 0} → Action A → (A → Action B) → Action B
◌>>=◌ m f bytes = following f (m bytes)

abbrev pub ◌>>◌ : {B : Type 0} → Action (Unit {0}) → Action B → Action B
m >> k = m >>= λ _. k

abbrev pub lift : {A : Type 0} → Result PinaPodError A → Action A
lift r bytes = (bytes, r)

abbrev pub modify : (List ℕ → List ℕ) → Action (Unit {0})
modify f bytes = (f bytes, ok tt)

-- The statements of each tail, in the order of the fields.
unfoldable pub for_each : (Move → Action (Unit {0})) → List Move → Action (Unit {0})
for_each act [] = modify (λ bytes. bytes)
for_each act (m ∷ ms) = act m >> for_each act ms

-- A write of a part of the buffer, which an error leaves alone.
abbrev pub written :
    (List ℕ → List ℕ)
    → List ℕ
    → Result PinaPodError (List ℕ)
    → List ℕ × Result PinaPodError (Unit {0})
written back bytes (ok part) = (back part, ok tt)
written back bytes (err e) = (bytes, err e)

-- `if ptr.is_null() { 0 } else { 1 }`
abbrev pub tag_of : Edit → ℕ
tag_of null = 0
tag_of (staged count source) = 1

module _ (um : ℕ) where
  -- `__pinapod_write_prefix(self.data, …)?`
  unfoldable pub put_prefix : (offset width value : ℕ) → Action (Unit {0})
  unfolding write_prefix
  put_prefix offset width value bytes =
      written (λ after. after) bytes (write_prefix um bytes offset width value)

  -- `self.data[offset..end].copy_from_slice(source)`, where the value has any bytes.
  unfoldable pub put_payload : (offset len : ℕ) (source : List ℕ) → Action (Unit {0})
  unfolding checked_add
  put_payload offset len source bytes =
      if ltb 0 len
      then (lift (checked_add um offset len) >>= λ _. modify (copy_at offset (take len source)))
          bytes
      else (bytes, ok tt)

  unfoldable pub put_always : TailPayload → Move → Edit → Action (Unit {0})
  unfolding put_payload
  put_always (string max pfx) m edit = put_payload m.new_off (edit_count edit) (edit_source edit)
  put_always (vector elem max pfx) m edit = put_payload m.new_off m.new_len (edit_source edit)

  unfoldable pub put_option : TailPayload → Move → Edit → Action (Unit {0})
  unfolding put_prefix put_payload byte_len checked_add
  put_option payload m null = modify (λ bytes. bytes)
  put_option payload m (staged count source) = do
    put_prefix m.new_off (pfx_of payload) count
    len ← lift (byte_len um payload count)
    payload_offset ← lift (checked_add um m.new_off (pfx_of payload))
    put_payload payload_offset len source

  unfoldable pub put_edit : Move → Option Edit → Action (Unit {0})
  unfolding put_always put_option
  put_edit m none = modify (λ bytes. bytes)
  put_edit m (some edit) = elim m.tail.presence [
    | always ↦ put_always m.tail.payload m edit
    | option_tag ↦ put_option m.tail.payload m edit
  ]

  -- Phase 2.
  unfoldable pub phase_2 : List Move → Action (Unit {0})
  unfolding put_edit for_each
  phase_2 = for_each (λ m. put_edit m m.edit)

  -- `__pinapod_write_prefix(&mut self.header_mut().len, 0, …)?`
  unfoldable pub update_len : (at pfx count : ℕ) → Action (Unit {0})
  unfolding write_prefix
  update_len at pfx count bytes =
      written (λ field. copy_at at field bytes) bytes
        (write_prefix um (field_bytes bytes at pfx) 0 pfx count)

  unfoldable pub update_header : Move → Option Edit → Action (Unit {0})
  unfolding update_len
  update_header m none = modify (λ bytes. bytes)
  update_header m (some edit) = elim m.tail.presence [
    | always ↦ update_len m.at (pfx_of m.tail.payload) (edit_count edit)
    | option_tag ↦ modify (λ bytes. set bytes m.at (tag_of edit))
  ]

  -- `update_lens`
  unfoldable pub update_lens : List Move → Action (Unit {0})
  unfolding update_header for_each
  update_lens = for_each (λ m. update_header m m.edit)
