-- ===== src/Pod/Text/Writes.antt =====
-- What the writers of `PodString` leave in memory.
use pinapod.Base.{ℕ, ◌+◌, ◌-◌, ◌≤◌, ◌<◌, ◌≡◌, refl, ap, ◌∙◌, arith, ltb}
use pinapod.Base.{List, [], ◌++◌, append_assoc, le→ltb, lt→ltb}
use pinapod.Base.{
  length, length-append, length-drop, length-replicate, drop, replicate, if◌then◌else◌,
}
use pinapod.Base.Memory.{
  copy_at, fill, fill-zero, replaced, overwrite, copy_at-behind, copy_at-prefix,
}
use pinapod.Error.{overflow, ok, err}
use pinapod.Pod.Prefix
use pinapod.Pod.Prefix.{Layout, IsLayout}
use pinapod.Pod.Prefix.RoundTrip.{fits_prefix}
use pinapod.Pod.Prefix.Views.{Views, Holds, encode_len-Holds, zeros-Holds}
use pinapod.Pod.Text.{PodString, encode_len, zero_range, try_set, try_push_str, clear, new_default}
use pinapod.Pod.Text.{checked_add}

-- The string shows the bytes `xs`, with `rest` behind them.
abbrev pub Shows : Layout → PodString → List ℕ → List ℕ → Type 0
Shows c s xs rest = Views c s.prefix s.slots xs rest

-- The string shows `xs`, and its stored prefix is exactly their number.
abbrev pub Stores : Layout → PodString → List ℕ → List ℕ → Type 0
Stores c s xs rest = Holds c s.prefix s.slots xs rest

module _ {c : Layout} (l : IsLayout c) where
  pub encode_len-Stores :
      (w : PodString) {xs rest : List ℕ}
      → length w.prefix ≡ c.pfx
      → w.slots ≡ xs ++ rest
      → length xs + length rest ≡ c.n
      → (n : ℕ) → n ≡ length xs
      → Stores c (encode_len c w n) xs rest
  unfolding encode_len
  encode_len-Stores w h m t n e =
      encode_len-Holds l w.prefix h m t (ap (λ k. Prefix.encode_len c k w.prefix) e)

  -- `try_set` replaces the text, and zeroes what it vacates.
  pub try_set_text :
      (s : PodString) (value : List ℕ) {xs rest : List ℕ}
      → Shows c s xs rest
      → length value ≤ c.n
      → ((try_set c s value).1 ≡ ok tt)
        × Stores c
            (try_set c s value).0
            value
            (replicate (length xs - length value) 0 ++ drop (length value - length xs) rest)
  unfolding try_set
  try_set_text s value {xs} {rest} v h = rw (le→ltb c.n (length value) h) (refl, stored)
    where
      copied : PodString
      copied = record s { slots = copy_at 0 value s.slots }

      w : PodString
      w =
          if ltb (length value) (Prefix.clamped_len c s.prefix)
          then zero_range c copied (length value) (Prefix.clamped_len c s.prefix)
          else copied

      width : length w.prefix ≡ c.pfx
      width = ground (arith, v.width)

      slots : w.slots ≡ (
          if ltb (length value) (Prefix.clamped_len c s.prefix)
          then fill (length value) (Prefix.clamped_len c s.prefix) 0 (copy_at 0 value s.slots)
          else copy_at 0 value s.slots)
      slots = ground arith

      written : w.slots ≡ replaced 0 value xs rest
      written =
          slots
          ∙ rw (v.active, v.memory)
              (overwrite 0 value xs rest (omega (arith, v.total)) (length-append xs rest))

      sizes :
          length value
            + length
                (replicate (length xs - length value) 0 ++ drop (length value - length xs) rest)
          ≡ c.n
      sizes = omega (
        arith,
        v.total,
        length-append (replicate (length xs - length value) 0)
            (drop (length value - length xs) rest),
        length-replicate {A = ℕ} (length xs - length value) 0,
        length-drop (length value - length xs) rest,
      )

      stored :
          Stores c
            (encode_len c w (length value))
            value
            (replicate (length xs - length value) 0 ++ drop (length value - length xs) rest)
      stored = encode_len-Stores w width written sizes (length value) refl

  -- A text longer than the capacity is refused, and nothing changes.
  pub try_set-overflow :
      (s : PodString) (value : List ℕ) → c.n < length value → try_set c s value ≡ (s, err overflow)
  unfolding try_set
  try_set-overflow s value h = rw (lt→ltb c.n (length value) h)

  -- `try_push_str` appends the text over the first inactive bytes.
  pub try_push_str_lem :
      (s : PodString) (value : List ℕ) {xs rest : List ℕ}
      → Shows c s xs rest
      → length value ≤ length rest
      → ((try_push_str c s value).1 ≡ ok tt)
        × Stores c (try_push_str c s value).0 (xs ++ value) (drop (length value) rest)
  unfolding try_push_str
  try_push_str_lem s value {xs} {rest} v h =
      rw (added, try_push_str, le→ltb c.n (Prefix.clamped_len c s.prefix + length value) small)
        (refl, encode_len-Stores w v.width written sizes _ (omega (arith, count, v.active)))
    where
      small : Prefix.clamped_len c s.prefix + length value ≤ c.n
      small = omega (arith, v.active, v.total)

      added :
          checked_add c (Prefix.clamped_len c s.prefix) (length value)
          ≡ ok (Prefix.clamped_len c s.prefix + length value)
      added = unfold checked_add in ground (arith, fits_prefix l _ small)

      w : PodString
      w = record s { slots = copy_at (Prefix.clamped_len c s.prefix) value s.slots }

      written : w.slots ≡ (xs ++ value) ++ drop (length value) rest
      written =
          rw (v.active, v.memory, append_assoc)
            (copy_at-behind xs value rest ∙ ap (λ t. xs ++ t) (copy_at-prefix value rest h))

      count : length (xs ++ value) ≡ length xs + length value
      count = length-append xs value

      sizes : length (xs ++ value) + length (drop (length value) rest) ≡ c.n
      sizes = omega (arith, count, v.total, length-drop (length value) rest)

  -- A text that does not fit behind the old one is refused, and nothing changes.
  pub try_push_str-overflow :
      (s : PodString) (value : List ℕ) {xs rest : List ℕ}
      → Shows c s xs rest
      → length rest < length value
      → try_push_str c s value ≡ (s, err overflow)
  unfolding try_push_str checked_add
  try_push_str-overflow s value v h =
      let over : c.n < Prefix.clamped_len c s.prefix + length value =
        omega (arith, v.active, v.total) in
      ground (arith, over)

  -- `clear` zeroes every active byte and the whole prefix.
  pub clear_lem :
      (s : PodString) {xs rest : List ℕ}
      → Shows c s xs rest
      → Stores c (clear c s) [] (replicate (length xs) 0 ++ rest)
  unfolding clear
  clear_lem s {xs} {rest} v = rw (v.active, v.memory, fill-zero xs rest 0) (zeros-Holds l sizes)
    where
      sizes : length (replicate (length xs) 0 ++ rest) ≡ c.n
      sizes = omega (
        arith,
        v.total,
        length-append (replicate (length xs) 0) rest,
        length-replicate {A = ℕ} (length xs) 0,
      )

  pub new_default_lem : Stores c (new_default c) [] (replicate c.n 0)
  unfolding new_default
  new_default_lem = zeros-Holds l (length-replicate c.n 0)
