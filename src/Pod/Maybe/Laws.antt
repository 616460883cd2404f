-- ===== src/Pod/Maybe/Laws.antt =====
-- `PodOption` against `Option`: what each operation stores and returns, and what validation accepts.
use pinapod.Base.{ℕ, suc, ◌<◌, ◌≡◌, refl, ap, ap₂, ◌∙◌, sym, arith, ◌⊎◌, inl, inr}
use pinapod.Base.{true, not, Option, none, some, List, [], ◌∷◌, ◌++◌, append_assoc}
use pinapod.Base.{length, length-append, length-replicate, get_or, replicate}
use pinapod.Base.Memory.{get_or-append_head}
use pinapod.Base.Bytes.{from_le_bytes, from_le_bytes-zeros}
use pinapod.Error.{invalid_tag, ok, err, ◌>>=◌}
use pinapod.Elem.{ZcElem}
use pinapod.Pod.Maybe.{PodOption, pfx_check, bytes_at, encode_tag, decode_tag, raw_tag, some_value}
use pinapod.Pod.Maybe.{is_some, is_none, get, tag_valid, replace, none_value}
use pinapod.Pod.Maybe.{try_get_ref, validate_ref, set_option, take, clear}

bytes_at-whole : (pre tag : List ℕ) → bytes_at (length pre) (length tag) (pre ++ tag) ≡ tag
bytes_at-whole pre [] = refl
bytes_at-whole pre (b ∷ tag) = ap₂ ◌∷◌ (get_or-append_head pre tag b 0) (
    let e : suc (length pre) ≡ length (pre ++ (b ∷ [])) =
      omega (arith, length-append pre (b ∷ [])) in
    ap (λ k. bytes_at k (length tag) (pre ++ (b ∷ tag))) e
    ∙ ap (bytes_at (length (pre ++ (b ∷ []))) (length tag)) (sym (append_assoc pre (b ∷ []) tag))
    ∙ bytes_at-whole (pre ++ (b ∷ [])) tag)

pfx_cases : (pfx : ℕ) → pfx_check pfx ≡ true → (pfx ≡ 1) ⊎ (pfx ≡ 2) ⊎ (pfx ≡ 4) ⊎ (pfx ≡ 8)
unfolding pfx_check
pfx_cases pfx h = ground arith

one_byte : (tag : List ℕ) → length tag ≡ 1 → get_or tag 0 0 ≡ from_le_bytes tag
one_byte [] h = absurd (omega arith)
one_byte (b ∷ []) h = omega arith
one_byte (b ∷ d ∷ tag) h = absurd (omega arith)

module _ {T : Type 0} {pfx : ℕ} (ok_pfx : pfx_check pfx ≡ true) where
  -- The tag is the little-endian number of its bytes, at every width.
  pub raw_tag_lem : (p : PodOption T) → length p.tag ≡ pfx → raw_tag pfx p ≡ from_le_bytes p.tag
  unfolding raw_tag decode_tag
  raw_tag_lem p h =
      let whole : bytes_at 0 pfx p.tag ≡ p.tag =
        ap (λ k. bytes_at 0 k p.tag) (sym h) ∙ bytes_at-whole [] p.tag in
      elim (pfx_cases pfx ok_pfx) [
        | inl e ↦ ground (arith, one_byte p.tag (h ∙ e))
        | inr (inl e) ↦ ground (arith, ap from_le_bytes whole, e)
        | inr (inr (inl e)) ↦ ground (arith, ap from_le_bytes whole, e)
        | inr (inr (inr e)) ↦ ground (arith, ap from_le_bytes whole, e)
      ]

-- Each width of the tag has the little-endian one.
encode_tag_lem :
    (pfx : ℕ)
    → pfx_check pfx ≡ true
    → (length (encode_tag pfx 1) ≡ pfx) × (from_le_bytes (encode_tag pfx 1) ≡ 1)
unfolding encode_tag
encode_tag_lem pfx h = elim (pfx_cases pfx h) [
  | inl e ↦ rw e (refl, refl)
  | inr (inl e) ↦ rw e (refl, refl)
  | inr (inr (inl e)) ↦ rw e (refl, refl)
  | inr (inr (inr e)) ↦ rw e (refl, refl)
]

-- The option that a stored value stands for: its tag is exactly that of `none`, with a zeroed
-- payload, or that of `some`.
abbrev pub Stores : {T : Type 0} ⦃z : ZcElem T⦄ → ℕ → PodOption T → Option T → Type 0
Stores ⦃z = z⦄ pfx p none = (p.tag ≡ replicate pfx 0) × (p.value ≡ z.zeroed)
Stores ⦃z = z⦄ pfx p (some x) = (p.tag ≡ encode_tag pfx 1) × (p.value ≡ x)

-- The number of a tag, and the payload behind it: zeroed for an absent one.
abbrev pub tag_number : {T : Type 0} → Option T → ℕ
tag_number none = 0
tag_number (some x) = 1

abbrev pub payload_of : {T : Type 0} ⦃z : ZcElem T⦄ → Option T → T
payload_of ⦃z = z⦄ none = z.zeroed
payload_of ⦃z = z⦄ (some x) = x

-- A stored value is an option: its tag has the width and the little-endian number 0 or 1, its payload
-- is the value or zeroed, `get` reads the option, and validation judges the payload of a present
-- value only.
abbrev pub Shows : {T : Type 0} ⦃z : ZcElem T⦄ → ℕ → PodOption T → Option T → Type 0
Shows ⦃z = z⦄ pfx p o =
    (length p.tag ≡ pfx)
    × (from_le_bytes p.tag ≡ tag_number o)
    × (p.value ≡ payload_of o)
    × (get pfx p ≡ o)
    × (validate_ref pfx p ≡ elim o [ none ↦ ok tt | some x ↦ z.validate_ref x ])

module _ {T : Type 0} ⦃z : ZcElem T⦄ (pfx : ℕ) (ok_pfx : pfx_check pfx ≡ true) where
  raw_tag-some : (p : PodOption T) → p.tag ≡ encode_tag pfx 1 → raw_tag pfx p ≡ 1
  raw_tag-some p e =
      let (size, number) = encode_tag_lem pfx ok_pfx in
      raw_tag_lem ok_pfx p (ap length e ∙ size) ∙ ap from_le_bytes e ∙ number

  raw_tag-none : (p : PodOption T) → p.tag ≡ replicate pfx 0 → raw_tag pfx p ≡ 0
  raw_tag-none p e =
      raw_tag_lem ok_pfx p (ap length e ∙ length-replicate pfx 0)
      ∙ ap from_le_bytes e
      ∙ from_le_bytes-zeros pfx

  -- Each reader shows the option that the memory stores.
  pub readers_lem :
      (p : PodOption T) (o : Option T)
      → Stores pfx p o
      → (get pfx p ≡ o)
        × (tag_valid pfx p ≡ true)
        × (is_some pfx p ≡ not (is_none pfx p))
        × (validate_ref pfx p ≡ elim o [ none ↦ ok tt | some x ↦ z.validate_ref x ])
  unfolding get tag_valid is_some is_none validate_ref raw_tag
  readers_lem p none s = ground (arith, raw_tag-none p s.0)
  readers_lem p (some x) s = ground (arith, raw_tag-some p s.0, s.1)

  Stores-Shows : (p : PodOption T) (o : Option T) → Stores pfx p o → Shows pfx p o
  Stores-Shows p none s =
      let (shown, _, _, valid) = readers_lem p none s in
      (
        ap length s.0 ∙ length-replicate pfx 0,
        ap from_le_bytes s.0 ∙ from_le_bytes-zeros pfx,
        s.1,
        shown,
        valid,
      )
  Stores-Shows p (some x) s =
      let (shown, _, _, valid) = readers_lem p (some x) s in
      let (width, number) = encode_tag_lem pfx ok_pfx in
      (ap length s.0 ∙ width, ap from_le_bytes s.0 ∙ number, s.1, shown, valid)

  -- With an admitted tag width, whatever an option held before, a corrupt tag included: what each
  -- of `set`, `some`, `none`, `clear`, `take` and `replace` stores has a tag of the width with
  -- the little-endian number 1 and the payload given, or 0 and a zeroed payload; `get` reads it
  -- as the option written, and validation judges the payload of a present value, and accepts an
  -- absent one. `take` and `replace` return what `get` read before.
  pub writers_lem :
      (p : PodOption T) (x : T) (o : Option T)
      → Shows pfx (set_option pfx p o) o
        × Shows pfx (some_value pfx x) (some x)
        × Shows pfx (none_value {T = T} pfx) none
        × Shows pfx (clear pfx p) none
        × Shows pfx (take pfx p).0 none
        × ((take pfx p).1 ≡ get pfx p)
        × Shows pfx (replace pfx p x).0 (some x)
        × ((replace pfx p x).1 ≡ get pfx p)
  unfolding set_option some_value none_value clear take replace
  writers_lem p x o = (
    Stores-Shows (set_option pfx p o) o (stored o),
    Stores-Shows (some_value pfx x) (some x) (refl, refl),
    Stores-Shows (none_value pfx) none (refl, refl),
    Stores-Shows (clear pfx p) none (refl, refl),
    Stores-Shows (take pfx p).0 none (refl, refl),
    refl,
    Stores-Shows (replace pfx p x).0 (some x) (refl, refl),
    refl,
  )
    where
      stored : (q : Option T) → Stores pfx (set_option pfx p q) q
      stored none = (refl, refl)
      stored (some y) = (refl, refl)

  -- With an admitted tag width and a tag of that width, validation accepts the tag 0, judges the
  -- payload under the tag 1, and rejects every other tag, which `get` reads as absent.
  pub validate_ref_option :
      (p : PodOption T)
      → length p.tag ≡ pfx
      → ((from_le_bytes p.tag ≡ 0) × (validate_ref pfx p ≡ ok tt) × (get pfx p ≡ none))
        ⊎ ((from_le_bytes p.tag ≡ 1)
            × (validate_ref pfx p ≡ z.validate_ref p.value)
            × (get pfx p ≡ some p.value))
        ⊎ ((1 < from_le_bytes p.tag) × (validate_ref pfx p ≡ err invalid_tag) × (get pfx p ≡ none))
  unfolding validate_ref get is_some raw_tag
  validate_ref_option p h = ground (arith, raw_tag_lem ok_pfx p h)

  -- With an admitted tag width, the checked reader of an option fails exactly where validation
  -- fails, with the same error, and otherwise returns what `get` reads.
  pub try_get_ref_lem :
      (p : PodOption T) → try_get_ref pfx p ≡ (validate_ref pfx p >>= λ _. ok (get pfx p))
  unfolding try_get_ref validate_ref get is_some raw_tag
  try_get_ref_lem p = ground arith
