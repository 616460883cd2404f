-- ===== src/Pod/Vec/State.antt =====
-- What stands in the memory of a `PodVecRepr`, and the two writes that its operations share.
use pinapod.Base.{ℕ, zero, suc, ◌+◌, ◌≡◌, refl, ap, map}
use pinapod.Base.{List, [], ◌∷◌, ◌++◌}
use pinapod.Base.{length}
use pinapod.Base.Memory.{copy_at}
use pinapod.Elem.{ZcElem}
use pinapod.Pod.Prefix.{Layout, IsLayout}
use pinapod.Pod.Prefix
use pinapod.Pod.Prefix.Views.{Views, Holds, encode_len-Holds}
use pinapod.Pod.Vec.{PodVec, encode_len, convert_at}

-- The vector shows `xs`, with `rest` in its inactive slots.
abbrev pub Shows : {T : Type 0} → Layout → PodVec T → List T → List T → Type 0
Shows c v xs rest = Views c v.prefix v.slots xs rest

-- The vector shows `xs`, and its stored prefix is exactly their number.
abbrev pub Stores : {T : Type 0} → Layout → PodVec T → List T → List T → Type 0
Stores c v xs rest = Holds c v.prefix v.slots xs rest

module _ {T : Type 0} {c : Layout} (l : IsLayout c) where
  -- `encode_len` over a memory of the right size.
  pub encode_len-Stores :
      (w : PodVec T) {xs rest : List T}
      → length w.prefix ≡ c.pfx
      → w.slots ≡ xs ++ rest
      → length xs + length rest ≡ c.n
      → (n : ℕ) → n ≡ length xs
      → Stores c (encode_len c w n) xs rest
  unfolding encode_len
  encode_len-Stores w h m t n e =
      encode_len-Holds l w.prefix h m t (ap (λ k. Prefix.encode_len c k w.prefix) e)

-- The conversion loops write what a copy of the converted values writes.
pub convert_at-copy_at :
    {V T : Type 0} ⦃z : ZcElem T⦄ (into : V → T) (i : ℕ) (values : List V) (ds : List T)
    → convert_at into i values ds ≡ copy_at i (map into values) ds
unfolding convert_at
convert_at-copy_at into i values [] = refl
convert_at-copy_at into (suc i) values (d ∷ ds) =
    ap (λ t. d ∷ t) (convert_at-copy_at into i values ds)
convert_at-copy_at into zero [] (d ∷ ds) = refl
convert_at-copy_at into zero (x ∷ values) (d ∷ ds) =
    ap (λ t. into x ∷ t) (convert_at-copy_at into zero values ds)
