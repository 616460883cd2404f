-- ===== src/Compact/Divides.antt =====
-- The tail alignment of a compact schema (`compact_tail_alignment` of pinapod-derive/src/compact.rs)
-- and the sizes that its tails can have.
use pinapod.Base.{
  ℕ, zero, suc, ◌+◌, ◌*◌, refl, ◌⊎◌, ◌%◌, ◌<◌, ◌≡◌, arith, ◌==◌, List, [], ◌∷◌, All, Bool-cases,
  inl, inr,
}
use Prim.Native.Nat.{◌∣◌}
use native.Mathlib.Nat.{
  dvd_refl, dvd-zero, dvd_trans, dvd-mod_iff, mod-lt, one-dvd, dvd-add, dvd-add_iff_right,
  dvd-mul_left_of_dvd,
}
use pinapod.Compact.Support.{gcd_loop, gcd}
use Prim.Native.String.{String}
use pinapod.Compact.{
  TailPresence, always, option_tag, TailPayload, string, vector, Tail, Schema, pfx_of,
}
use pinapod.Compact.Views.{payload_len}
use pinapod.Compact.Sizes.{atoms, gcd_steps, alignment_steps, compact_tail_alignment}

gcd_loop-dvd :
    (rounds left right : ℕ)
    → right < rounds
    → (gcd_loop rounds left right ∣ left) × (gcd_loop rounds left right ∣ right)
unfolding gcd_loop
gcd_loop-dvd zero left right h = absurd (omega arith)
gcd_loop-dvd (suc rounds) left right h = elim (Bool-cases (right == 0)) [
  | inl done ↦
      let e : right ≡ 0 = ground (arith, done) in rw (done, e) (dvd_refl left, dvd-zero left)
  | inr more ↦
      let some_left : 0 < right = ground (arith, more) in
      let fall = mod-lt left some_left in
      let (first, second) = gcd_loop-dvd rounds right (left % right) (omega (arith, fall)) in
      rw more ((dvd-mod_iff _ first).0 second, first)
]

-- The greatest common divisor divides both numbers; the rounds suffice.
pub gcd-dvd : (left right : ℕ) → (gcd left right ∣ left) × (gcd left right ∣ right)
unfolding gcd
gcd-dvd left right = gcd_loop-dvd (suc right) left right (omega arith)

All-dvd : (g h : ℕ) (ns : List ℕ) → g ∣ h → All (λ n. h ∣ n) ns → All (λ n. g ∣ n) ns
All-dvd g h [] d k = tt
All-dvd g h (n ∷ ns) d k = (dvd_trans g d k.0, All-dvd g h ns d k.1)

gcd_steps-dvd : (ns : List ℕ) (a : ℕ) → (gcd_steps ns a ∣ a) × All (λ n. gcd_steps ns a ∣ n) ns
unfolding gcd_steps
gcd_steps-dvd [] a = (dvd_refl a, tt)
gcd_steps-dvd (n ∷ ns) a =
    let (front, rest) = gcd_steps-dvd ns (gcd a n) in
    let (left, right) = gcd-dvd a n in (dvd_trans _ front left, (dvd_trans _ front right, rest))

alignment_steps-dvd :
    (ts : List Tail) (a : ℕ)
    → (alignment_steps ts a ∣ a) × All (λ t. All (λ n. alignment_steps ts a ∣ n) (atoms t)) ts
unfolding alignment_steps
alignment_steps-dvd [] a = (dvd_refl a, tt)
alignment_steps-dvd (t ∷ ts) a =
    let (front, rest) = alignment_steps-dvd ts (gcd_steps (atoms t) a) in
    let (left, right) = gcd_steps-dvd (atoms t) a in
    (dvd_trans _ front left, (All-dvd _ _ (atoms t) front right, rest))

All-one : (ns : List ℕ) → All (λ n. 1 ∣ n) ns
All-one [] = tt
All-one (n ∷ ns) = (one-dvd n, All-one ns)

All-ones : (ts : List Tail) → All (λ t. All (λ n. 1 ∣ n) (atoms t)) ts
All-ones [] = tt
All-ones (t ∷ ts) = (All-one (atoms t), All-ones ts)

-- The tail alignment is positive, and divides the atoms of each tail.
pub compact_tail_alignment-dvd :
    (s : Schema)
    → (0 < compact_tail_alignment s)
      × All (λ t. All (λ n. compact_tail_alignment s ∣ n) (atoms t)) s.tail_fields
unfolding compact_tail_alignment
compact_tail_alignment-dvd s = elim (Bool-cases (alignment_steps s.tail_fields 0 == 0)) [
  | inl nought ↦ rw nought (omega arith, All-ones s.tail_fields)
  | inr some_unit ↦
      rw some_unit (ground (arith, some_unit), (alignment_steps-dvd s.tail_fields 0).1)
]

-- A number that divides both divides what the loop returns.
gcd_loop-greatest :
    (rounds left right d : ℕ) → d ∣ left → d ∣ right → d ∣ gcd_loop rounds left right
unfolding gcd_loop
gcd_loop-greatest zero left right d a b = a
gcd_loop-greatest (suc rounds) left right d a b = elim (Bool-cases (right == 0)) [
  | inl done ↦ rw done a
  | inr more ↦ rw more (gcd_loop-greatest rounds right (left % right) d b ((dvd-mod_iff _ b).1 a))
]

gcd_steps-greatest : (ns : List ℕ) (a d : ℕ) → d ∣ a → All (λ n. d ∣ n) ns → d ∣ gcd_steps ns a
unfolding gcd_steps gcd
gcd_steps-greatest [] a d h k = h
gcd_steps-greatest (n ∷ ns) a d h k =
    gcd_steps-greatest ns (gcd a n) d (gcd_loop-greatest (suc n) a n d h k.0) k.1

-- The bytes that a tail holds behind the header, with a count of values: a tag in the header has the
-- prefix next to the values.
abbrev pub held_size : TailPresence → TailPayload → ℕ → ℕ
held_size always p count = payload_len p count
held_size option_tag p count = pfx_of p + payload_len p count

-- A number divides every size that a tail can have.
abbrev pub SizesDivide : ℕ → Tail → Type 0
SizesDivide d t = (count : ℕ) → d ∣ held_size t.presence t.payload count

-- The first two sizes have the prefix and the unit as parts.
parts-dvd : (d p u : ℕ) → d ∣ p + 0 → d ∣ p + u → (d ∣ u) × (d ∣ p)
parts-dvd d p u none_held one_held =
    let e : p + 0 ≡ p = omega arith in
    let front : d ∣ p = rw e at none_held in ((dvd-add_iff_right d front).1 one_held, front)

SizesDivide-atoms :
    (d : ℕ) (name : String) (v : TailPresence) (p : TailPayload)
    → (All (λ n. d ∣ n) (atoms (record { name = name; presence = v; payload = p }))
        → SizesDivide d (record { name = name; presence = v; payload = p }))
      × (SizesDivide d (record { name = name; presence = v; payload = p })
          → All (λ n. d ∣ n) (atoms (record { name = name; presence = v; payload = p })))
unfolding atoms
SizesDivide-atoms d name always (string max pfx) =
    (λ h count. dvd_trans d h.0 (one-dvd count), λ h. (h 1, tt))
SizesDivide-atoms d name always (vector elem max pfx) =
    let e : 1 * elem.size ≡ elem.size = omega arith in
    (λ h count. dvd-mul_left_of_dvd d h.0 count, λ h. (rw e at (h 1), tt))
SizesDivide-atoms d name option_tag (string max pfx) = (
  λ h count. dvd-add d h.1.0 (dvd_trans d h.0 (one-dvd count)),
  λ h. let (unit, front) = parts-dvd d pfx 1 (h 0) (h 1) in (unit, (front, tt)),
)
SizesDivide-atoms d name option_tag (vector elem max pfx) =
    let e : 1 * elem.size ≡ elem.size = omega arith in
    let f : 0 * elem.size ≡ 0 = omega arith in
    (
      λ h count. dvd-add d h.1.0 (dvd-mul_left_of_dvd d h.0 count),
      λ h.
          let (unit, front) = parts-dvd d pfx elem.size (rw f at (h 0)) (rw e at (h 1)) in
          (unit, (front, tt)),
    )

All-SizesDivide :
    (d : ℕ) (ts : List Tail) → All (λ t. All (λ n. d ∣ n) (atoms t)) ts → All (SizesDivide d) ts
All-SizesDivide d [] h = tt
All-SizesDivide d (t ∷ ts) h =
    ((SizesDivide-atoms d t.name t.presence t.payload).0 h.0, All-SizesDivide d ts h.1)

alignment_steps-greatest :
    (ts : List Tail) (a d : ℕ) → d ∣ a → All (SizesDivide d) ts → d ∣ alignment_steps ts a
unfolding alignment_steps
alignment_steps-greatest [] a d h k = h
alignment_steps-greatest (t ∷ ts) a d h k =
    alignment_steps-greatest ts (gcd_steps (atoms t) a) d
      (gcd_steps-greatest (atoms t) a d h ((SizesDivide-atoms d t.name t.presence t.payload).1 k.0))
      k.1

-- The tail alignment of a schema is positive and divides every size that a tail can have, for any
-- count of values: that of its values, and of its length prefix with them where the tail is
-- optional. It is the greatest such number, as each other divides it, or every such size is 0,
-- and it is 1.
pub compact_tail_alignment-greatest :
    (s : Schema)
    → (0 < compact_tail_alignment s)
      × All (SizesDivide (compact_tail_alignment s)) s.tail_fields
      × (((d : ℕ) → All (SizesDivide d) s.tail_fields → d ∣ compact_tail_alignment s)
          ⊎ ((compact_tail_alignment s ≡ 1) × All (SizesDivide 0) s.tail_fields))
compact_tail_alignment-greatest s =
    let (some_unit, units) = compact_tail_alignment-dvd s in
    (
      some_unit,
      All-SizesDivide (compact_tail_alignment s) s.tail_fields units,
      elim (Bool-cases (alignment_steps s.tail_fields 0 == 0)) [
        | inl nought ↦
            let e : alignment_steps s.tail_fields 0 ≡ 0 = ground (arith, nought) in
            inr (
              unfold compact_tail_alignment in rw nought refl,
              All-SizesDivide 0 s.tail_fields (rw e at (alignment_steps-dvd s.tail_fields 0).1),
            )
        | inr some_size ↦ inl (λ d k.
            unfold compact_tail_alignment in
            rw some_size (alignment_steps-greatest s.tail_fields 0 d (dvd-zero d) k))
      ],
    )
