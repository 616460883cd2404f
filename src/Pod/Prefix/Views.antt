-- ===== src/Pod/Prefix/Views.antt =====
-- The state of a container's memory: the prefix, the active elements and what stands behind them.
use pinapod.Base.{ℕ, zero, suc, ◌+◌, ◌≤◌, ◌≡◌, refl, ◌∙◌, sym, arith}
use pinapod.Base.{List, ◌++◌, [], length, take, drop, replicate, All, length-replicate}
use pinapod.Base.{take-append-drop, length-take, length-drop, take-length_append, length-append}
use pinapod.Base.Bytes.{IsByte, from_le_bytes-zeros}
use pinapod.Error.{ok}
use pinapod.Pod.Prefix.{Layout, IsLayout, try_decode_len, decode_len, clamped_len, encode_len}
use pinapod.Pod.Prefix.RoundTrip.{try_decode_len-encode_len, try_decode_len_lem, length-encode_len}

-- Any memory of the right size, seen through the clamped `len()`.
pub record Views (c : Layout) {A : Type 0} (prefix : List ℕ) (slots xs rest : List A) : Type 0 where
  pub active : clamped_len c prefix ≡ length xs
  pub memory : slots ≡ xs ++ rest
  pub total : length xs + length rest ≡ c.n
  pub width : length prefix ≡ c.pfx

-- Memory whose prefix is the exact count of the active elements.
pub record Holds (c : Layout) {A : Type 0} (prefix : List ℕ) (slots xs rest : List A) : Type 0 where
  pub exact : try_decode_len c prefix ≡ ok (length xs)
  pub memory : slots ≡ xs ++ rest
  pub total : length xs + length rest ≡ c.n
  pub width : length prefix ≡ c.pfx

module _ {c : Layout} {A : Type 0} {prefix : List ℕ} {slots xs rest : List A} where
  pub Holds-Views : Holds c prefix slots xs rest → Views c prefix slots xs rest
  unfolding clamped_len decode_len
  Holds-Views h = ground arith

  -- Writing the count of the active elements makes the prefix exact.
  pub encode_len-Holds :
      IsLayout c
      → (old : List ℕ) → length old ≡ c.pfx
      → slots ≡ xs ++ rest
      → length xs + length rest ≡ c.n
      → prefix ≡ encode_len c (length xs) old
      → Holds c prefix slots xs rest
  encode_len-Holds l old w m t e = ground (
    arith,
    try_decode_len-encode_len l (length xs) old w (omega arith),
    length-encode_len l (length xs) old w (omega arith),
  )

zeros-IsByte : (k : ℕ) → All IsByte (replicate k 0)
zeros-IsByte zero = tt
zeros-IsByte (suc k) = (omega arith, zeros-IsByte k)

-- A prefix of zero bytes is the length 0.
pub try_decode_len-zeros : {c : Layout} → IsLayout c → try_decode_len c (replicate c.pfx 0) ≡ ok 0
try_decode_len-zeros {c} l = ground (
  arith,
  try_decode_len_lem l (replicate c.pfx 0) (length-replicate c.pfx 0) (zeros-IsByte c.pfx),
  from_le_bytes-zeros c.pfx,
)

pub zeros-Holds :
    {c : Layout} {A : Type 0} {slots : List A}
    → IsLayout c
    → length slots ≡ c.n
    → Holds c (replicate c.pfx 0) slots [] slots
zeros-Holds {c} l h = record {
  exact = try_decode_len-zeros l;
  memory = refl;
  total = omega arith;
  width = length-replicate c.pfx 0;
}

pub clamped_len-le : (c : Layout) (prefix : List ℕ) → clamped_len c prefix ≤ c.n
unfolding clamped_len
clamped_len-le c prefix = omega arith

-- Every memory of the right size has a view, whatever bytes its prefix holds.
pub clamped_view :
    (c : Layout) {A : Type 0} (prefix : List ℕ) (slots : List A)
    → length prefix ≡ c.pfx
    → length slots ≡ c.n
    → Views c prefix slots (take (clamped_len c prefix) slots) (drop (clamped_len c prefix) slots)
clamped_view c prefix slots w h = record {
  active = omega (arith, length-take (clamped_len c prefix) slots, clamped_len-le c prefix);
  memory = sym (take-append-drop (clamped_len c prefix) slots);
  total = omega (
    arith,
    length-take (clamped_len c prefix) slots,
    length-drop (clamped_len c prefix) slots,
    clamped_len-le c prefix,
  );
  width = w;
}

-- The active elements are what the slice of `len()` elements shows.
pub Views-take :
    {c : Layout} {A : Type 0} {prefix : List ℕ} {slots xs rest : List A}
    → Views c prefix slots xs rest
    → take (clamped_len c prefix) slots ≡ xs
Views-take {xs = xs} {rest = rest} v = rw (v.active, v.memory) (take-length_append xs rest)

pub Views-length :
    {c : Layout} {A : Type 0} {prefix : List ℕ} {slots xs rest : List A}
    → Views c prefix slots xs rest
    → length slots ≡ c.n
Views-length {xs = xs} {rest = rest} v = rw v.memory (length-append xs rest ∙ v.total)

-- A decoded length within the capacity is not clamped.
pub len_exact :
    (c : Layout) (prefix : List ℕ) (n : ℕ)
    → try_decode_len c prefix ≡ ok n
    → n ≤ c.n
    → clamped_len c prefix ≡ n
unfolding clamped_len decode_len
len_exact c prefix n e h = ground arith
