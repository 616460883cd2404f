-- ===== src/CompactEnum/Sizes.antt =====
-- The allocation constants of a compact enum, `enum_min_size` and `enum_max_size` of
-- pinapod-derive/src/compact_enum.rs, and the encoded lengths of its variants.
use pinapod.Base.{
  ℕ, ◌+◌, ◌*◌, ◌≤◌, ◌≡◌, refl, ap, sym, ◌∙◌, arith, inl, inr, Option, none, some, List, [], ◌∷◌,
  length, ltb, ◌==◌, if◌then◌else◌, Bool-cases,
}
use native.Mathlib.Nat.{mul-le-mul_right}
use pinapod.Error.{ok, ok-eq}
use pinapod.Compact.{validate_storage_len}
use pinapod.Compact.Sizes.{checked}
use pinapod.CompactEnum.{
  VariantPayload, unit, string, vector, fixed, CompactVariant, Content, find_variant,
}
use pinapod.CompactEnum.Patch.{encoded_len}
use pinapod.CompactEnum.Written.{IsContent, IsAccepted, extent, length_of-facts}

-- `match … { Some(value) => value, None => panic!(…) }`, in a constant.
abbrev pub or_panic : Option ℕ → (ℕ → Option ℕ) → Option ℕ
or_panic none next = none
or_panic (some value) next = next value

-- `payload_min`
abbrev pub payload_min : VariantPayload → ℕ
payload_min unit = 0
payload_min (string max pfx) = pfx
payload_min (vector elem max pfx) = pfx
payload_min (fixed elem) = elem.size

-- `payload_max`
unfoldable pub payload_max : (um : ℕ) → VariantPayload → Option ℕ
payload_max um unit = some 0
payload_max um (string max pfx) = checked um (max + pfx)
payload_max um (vector elem max pfx) =
    or_panic (checked um (max * elem.size)) (λ len. checked um (len + pfx))
payload_max um (fixed elem) = some elem.size

module _ (um tag_size : ℕ) where
  unfoldable pub min_steps : List CompactVariant → ℕ → Option ℕ
  min_steps [] least = some least
  min_steps (v ∷ vs) least =
      or_panic (checked um (tag_size + payload_min v.payload))
        (λ candidate. min_steps vs (if ltb candidate least then candidate else least))

  unfoldable pub enum_min_size : List CompactVariant → Option ℕ
  unfolding min_steps
  enum_min_size vs = min_steps vs um

  unfoldable pub max_steps : List CompactVariant → ℕ → Option ℕ
  unfolding payload_max
  max_steps [] most = some most
  max_steps (v ∷ vs) most = or_panic (payload_max um v.payload) (λ payload.
      or_panic (checked um (tag_size + payload))
        (λ candidate. max_steps vs (if ltb most candidate then candidate else most)))

  unfoldable pub enum_max_size : List CompactVariant → Option ℕ
  unfolding max_steps
  enum_max_size vs = max_steps vs 0

or_panic-some :
    (m : Option ℕ) (next : ℕ → Option ℕ) (y : ℕ)
    → or_panic m next ≡ some y
    → (x : ℕ) × (m ≡ some x) × (next x ≡ some y)
or_panic-some none next y e = absurd (ground (arith, e))
or_panic-some (some x) next y e = (x, refl, e)

checked-some : (um n x : ℕ) → checked um n ≡ some x → x ≡ n
checked-some um n x e = ground (arith, e)

smaller : (a b : ℕ) → ((if ltb a b then a else b) ≤ a) × ((if ltb a b then a else b) ≤ b)
smaller a b = elim (Bool-cases (ltb a b)) [
  | inl less ↦ rw less (omega arith, ground (arith, less))
  | inr more ↦ rw more (ground (arith, more), omega arith)
]

larger : (a b : ℕ) → (a ≤ (if ltb b a then a else b)) × (b ≤ (if ltb b a then a else b))
larger a b = elim (Bool-cases (ltb b a)) [
  | inl less ↦ rw less (omega arith, ground (arith, less))
  | inr more ↦ rw more (ground (arith, more), omega arith)
]

module _ (um tag_size : ℕ) where
  min_steps-le :
      (vs : List CompactVariant) (least low : ℕ)
      → min_steps um tag_size vs least ≡ some low
      → low ≤ least
  unfolding min_steps
  min_steps-le [] least low e = ground (arith, e)
  min_steps-le (v ∷ vs) least low e =
      let (k, _, rest) = or_panic-some (checked um (tag_size + payload_min v.payload)) _ low e in
      omega (arith, min_steps-le vs _ low rest, (smaller k least).1)

  min_steps-declared :
      (vs : List CompactVariant) (least low disc : ℕ) (v : CompactVariant)
      → min_steps um tag_size vs least ≡ some low
      → find_variant vs disc ≡ ok v
      → low ≤ tag_size + payload_min v.payload
  unfolding min_steps find_variant
  min_steps-declared [] least low disc v e found = absurd (ground (arith, found))
  min_steps-declared (u ∷ vs) least low disc v e found =
      let (k, sum, rest) = or_panic-some (checked um (tag_size + payload_min u.payload)) _ low e in
      elim (Bool-cases (disc == u.disc)) [
        | inl here ↦
            let same : u ≡ v = ok-eq (rw here at found) in
            let width : tag_size + payload_min u.payload ≡ tag_size + payload_min v.payload =
              ap (λ x. tag_size + payload_min x.payload) same in
            omega (
              arith,
              min_steps-le vs _ low rest,
              (smaller k least).0,
              checked-some um _ k sum,
              width,
            )
        | inr later ↦ min_steps-declared vs _ low disc v rest (rw later at found)
      ]

  min_steps-tag :
      (vs : List CompactVariant) (least low : ℕ)
      → tag_size ≤ least
      → min_steps um tag_size vs least ≡ some low
      → tag_size ≤ low
  unfolding min_steps
  min_steps-tag [] least low h e = ground (arith, e, h)
  min_steps-tag (v ∷ vs) least low h e =
      let (k, sum, rest) = or_panic-some (checked um (tag_size + payload_min v.payload)) _ low e in
      let wide = checked-some um _ k sum in
      min_steps-tag vs _ low
        (elim (Bool-cases (ltb k least)) [
          | inl less ↦ rw less (omega (arith, wide))
          | inr more ↦ rw more h
        ])
        rest

  max_steps-le :
      (vs : List CompactVariant) (most top : ℕ)
      → max_steps um tag_size vs most ≡ some top
      → most ≤ top
  unfolding max_steps
  max_steps-le [] most top e = ground (arith, e)
  max_steps-le (v ∷ vs) most top e =
      let (payload, _, e1) = or_panic-some (payload_max um v.payload) _ top e in
      let (k, _, rest) = or_panic-some (checked um (tag_size + payload)) _ top e1 in
      omega (arith, max_steps-le vs _ top rest, (larger k most).1)

  max_steps-declared :
      (vs : List CompactVariant) (most top disc : ℕ) (v : CompactVariant)
      → max_steps um tag_size vs most ≡ some top
      → find_variant vs disc ≡ ok v
      → (payload : ℕ) × (payload_max um v.payload ≡ some payload) × (tag_size + payload ≤ top)
  unfolding max_steps find_variant
  max_steps-declared [] most top disc v e found = absurd (ground (arith, found))
  max_steps-declared (u ∷ vs) most top disc v e found =
      let (payload, largest, e1) = or_panic-some (payload_max um u.payload) _ top e in
      let (k, sum, rest) = or_panic-some (checked um (tag_size + payload)) _ top e1 in
      elim (Bool-cases (disc == u.disc)) [
        | inl here ↦
            let same : u ≡ v = ok-eq (rw here at found) in
            (
              payload,
              ap (λ x. payload_max um x.payload) (sym same) ∙ largest,
              omega (arith, max_steps-le vs _ top rest, (larger k most).0, checked-some um _ k sum),
            )
        | inr later ↦ max_steps-declared vs _ top disc v rest (rw later at found)
      ]

  -- An admitted payload is no longer than the largest, and has its prefix.
  payload-bounds :
      (p : VariantPayload) (count : ℕ) (source : List ℕ) (payload : ℕ)
      → IsContent p count source
      → IsAccepted um p count source
      → payload_max um p ≡ some payload
      → (tag_size + payload_min p ≤ extent tag_size p source)
        × (extent tag_size p source ≤ tag_size + payload)
  unfolding payload_max
  payload-bounds unit count source payload (_, empty) accepted e =
      (omega arith, omega (arith, ap length empty))
  payload-bounds (string max pfx) count source payload (sized, _) (few, _) e =
      (omega arith, omega (arith, sized, few, checked-some um (max + pfx) payload e))
  payload-bounds (vector elem max pfx) count source payload sized (few, _, _) e =
      let (len, product, sum) = or_panic-some (checked um (max * elem.size)) _ payload e in
      (
        omega arith,
        omega (
          arith,
          sized,
          mul-le-mul_right elem.size few,
          checked-some um (max * elem.size) len product,
          checked-some um (len + pfx) payload sum,
        ),
      )
  payload-bounds (fixed elem) count source payload (_, sized) accepted e =
      (omega (arith, sized), ground (arith, e, sized))

  -- For a tag size that is a `usize`, an enum whose `MIN_SIZE` and `MAX_SIZE` do not overflow,
  -- and a patch of one of its variants, whose payload has the bytes that its type promises and
  -- passes the checks of `encoded_len`: the tag fits the smallest allocation, so that every
  -- admitted buffer has one, and an allocation of exactly the encoded length is admitted.
  pub length_of-admitted :
      (vs : List CompactVariant) (low top : ℕ) (c : Content) (n : ℕ)
      → tag_size ≤ um
      → enum_min_size um tag_size vs ≡ some low
      → enum_max_size um tag_size vs ≡ some top
      → find_variant vs c.variant.disc ≡ ok c.variant
      → IsContent c.variant.payload c.count c.source
      → encoded_len um tag_size c ≡ ok n
      → (tag_size ≤ low) × (validate_storage_len low top 1 n ≡ ok tt)
  unfolding enum_min_size enum_max_size validate_storage_len
  length_of-admitted vs low top c n tag least most declared typed encodes =
      let (ends, accepted) =
        length_of-facts um tag_size c.variant.payload c.count c.source n typed encodes in
      let (payload, largest, inside) =
        max_steps-declared vs 0 top c.variant.disc c.variant most declared in
      let above = min_steps-declared vs um low c.variant.disc c.variant least declared in
      let (long, short) =
        payload-bounds c.variant.payload c.count c.source payload typed accepted largest in
      let fits : low ≤ n = omega (arith, above, long, ends) in
      let below : n ≤ top = omega (arith, short, inside, ends) in
      (min_steps-tag vs um low tag least, ground (arith, fits, below))
