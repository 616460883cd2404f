-- ===== src/Compact/Diagnose.antt =====
-- `diagnose` of a compact schema, as `generate_diagnose` of pinapod-derive/src/compact.rs emits it: a
-- walk of its own, with checked arithmetic throughout and the field's name on each error.
use pinapod.Base.{ℕ, ◌+◌, ◌==◌, not, if◌then◌else◌, List, [], ◌∷◌, leb, length, get_or}
use pinapod.Error.{
  PinaPodError, Diagnostic, buffer_too_small, invalid_length, invalid_tag, invalid_utf8,
}
use pinapod.Error.{Result, ok, err, ◌>>=◌, ◌>>◌, ensure, map_err}
use pinapod.Utf8.{is_utf8}
use Prim.Native.String.{String}
use pinapod.Compact.Support.{ok_or, get_range, decode_prefix, read_prefix, checked_add, checked_mul}
use pinapod.Compact.{always, option_tag, TailPayload, string, vector, Inline, Tail, Schema}
use pinapod.Compact.{
  header_size, inline_size, validate_storage_len, field_bytes, validate_elems, walk_tails,
}

abbrev pub diagnostic : String → PinaPodError → Diagnostic
diagnostic name e = record { field = name; error = e }

-- `.map_err(|error| Diagnostic::new(name, error))`
abbrev pub named {ℓ} : {A : Type ℓ} → String → Result PinaPodError A → Result Diagnostic A
named name m = map_err m (diagnostic name)

module _ (um : ℕ) (bytes : List ℕ) (name : String) where
  unfoldable pub always_probe : TailPayload → ℕ → ℕ → Result Diagnostic ℕ
  unfolding decode_prefix checked_add checked_mul validate_elems
  always_probe (string max pfx) at offset = do
    len ← named name (decode_prefix um (field_bytes bytes at pfx))
    ensure (leb len max) (diagnostic name invalid_length)
    end ← named name (checked_add um offset len)
    tail ← ok_or (get_range bytes offset end) (diagnostic name buffer_too_small)
    ensure (is_utf8 tail) (diagnostic name invalid_utf8)
    ok end
  always_probe (vector elem max pfx) at offset = do
    count ← named name (decode_prefix um (field_bytes bytes at pfx))
    ensure (leb count max) (diagnostic name invalid_length)
    ensure (not (elem.size == 0)) (diagnostic name invalid_length)
    byte_len ← named name (checked_mul um count elem.size)
    end ← named name (checked_add um offset byte_len)
    tail ← ok_or (get_range bytes offset end) (diagnostic name buffer_too_small)
    named name (validate_elems elem count tail)
    ok end

  unfoldable pub some_probe : TailPayload → ℕ → Result Diagnostic ℕ
  unfolding read_prefix checked_add checked_mul validate_elems
  some_probe (string max pfx) offset = do
    len ← named name (read_prefix um bytes offset pfx)
    ensure (leb len max) (diagnostic name invalid_length)
    payload_offset ← named name (checked_add um offset pfx)
    payload_end ← named name (checked_add um payload_offset len)
    payload ← ok_or (get_range bytes payload_offset payload_end) (diagnostic name buffer_too_small)
    ensure (is_utf8 payload) (diagnostic name invalid_utf8)
    ok payload_end
  some_probe (vector elem max pfx) offset = do
    count ← named name (read_prefix um bytes offset pfx)
    ensure (leb count max) (diagnostic name invalid_length)
    ensure (not (elem.size == 0)) (diagnostic name invalid_length)
    payload_offset ← named name (checked_add um offset pfx)
    byte_len ← named name (checked_mul um count elem.size)
    payload_end ← named name (checked_add um payload_offset byte_len)
    payload ← ok_or (get_range bytes payload_offset payload_end) (diagnostic name buffer_too_small)
    named name (validate_elems elem count payload)
    ok payload_end

module _ (um : ℕ) (bytes : List ℕ) where
  unfoldable pub probe : Tail → ℕ → ℕ → Result Diagnostic ℕ
  unfolding always_probe some_probe
  probe t at offset = elim t.presence [
    | always ↦ always_probe um bytes t.name t.payload at offset
    | option_tag ↦
        let tag = get_or bytes at 0 in
        if tag == 0
        then ok offset
        else if tag == 1
        then some_probe um bytes t.name t.payload offset
        else err (diagnostic t.name invalid_tag)
  ]

module _ (bytes : List ℕ) where
  unfoldable pub inline_probes : List Inline → ℕ → Result Diagnostic (Unit {0})
  inline_probes [] at = ok tt
  inline_probes (f ∷ fs) at =
      named f.name (f.elem.check (field_bytes bytes at f.elem.size))
      >> inline_probes fs (at + f.elem.size)

-- `top` is `MAX_SIZE`, and `alignment` is `TAIL_ALIGNMENT`.
unfoldable pub diagnose :
    (um : ℕ) (s : Schema) (top alignment : ℕ) → List ℕ → Result Diagnostic (Unit {0})
unfolding probe inline_probes
diagnose um s top alignment bytes = do
  named s.name (validate_storage_len (header_size s) top alignment (length bytes))
  inline_probes bytes s.inline_fields 0
  _ ← walk_tails (probe um bytes) s.tail_fields (inline_size s.inline_fields) (header_size s)
  ok tt
