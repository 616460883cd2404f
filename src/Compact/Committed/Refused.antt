-- ===== src/Compact/Committed/Refused.antt =====
-- A commit whose tails do not fit the buffer (`generate_commit_body` of
-- pinapod-derive/src/compact.rs).
use pinapod.Base.{
  ℕ, ◌+◌, ◌/◌, ◌≤◌, ◌<◌, ◌≡◌, ap, sym, ◌∙◌, arith, inl, inr, Option, none, some, Bool, List, [],
  ◌∷◌, leb, length, All,
}
use pinapod.Base.Bytes.{IsByte}
use pinapod.Base.Slices.{length-slice}
use Prim.Native.String.{String}
use pinapod.Error.{
  PinaPodError, ok, err, ok-eq, >>=-eq-ok, Result-cases, ensure, ensure-eq-ok, buffer_too_small,
}
use pinapod.Compact.Support.{checked_add}
use pinapod.Compact.{
  TailPresence, always, option_tag, TailPayload, string, vector, Tail, Schema, pfx_of, header_width,
  header_size, inline_size, IsTarget, IsCompact, walk_tails,
}
use pinapod.Compact.Walks.{full_step, commit_entry_validate}
use pinapod.Compact.Agree.{sum_of, product_of}
use pinapod.Compact.Edits.{
  Edit, null, staged, Writer, byte_len, new_option_size, new_size, old_size,
}
use pinapod.Compact.Commit.{commit_plan, commit_tails}
use pinapod.Compact.Commit.Plan.{
  Move, placed, offsets, resized, setup, range_checks, final_total, total_of, plan,
}
use pinapod.Compact.Stored.{Value}
use pinapod.Compact.Planning.{
  edit_len, resized_len, IsStaged, AllStaged, stored_len, moves_of, new_end, step-Stored,
}
use pinapod.Compact.Planning.Lengths.{old_size-Stored}
use pinapod.Compact.Planning.Setup.{AllFit, walk-le}
use pinapod.Compact.Committed.Writer.{IsWriter, committed_len, start}

-- A checked length that is returned is the plain one.
module _ (um : ℕ) where
  byte_len-only :
      (p : TailPayload) (count : ℕ) (source : List ℕ) (x : ℕ)
      → Value p count source
      → byte_len um p count ≡ ok x
      → x ≡ length source
  unfolding byte_len
  byte_len-only (string max pfx) count source x (few, sized) e = sym (ok-eq e) ∙ sym sized
  byte_len-only (vector elem max pfx) count source x (few, sized) e =
      product_of um count elem.size x e ∙ sym sized

  new_size-only :
      (name : String) (v : TailPresence) (p : TailPayload) (edit : Edit) (x : ℕ)
      → IsStaged um (record { name = name; presence = v; payload = p }) (some edit)
      → new_size um (record { name = name; presence = v; payload = p }) edit ≡ ok x
      → x ≡ edit_len (record { name = name; presence = v; payload = p }) edit
  unfolding new_size new_option_size
  new_size-only name always p null x h e = absurd (ground (arith, h))
  new_size-only name always p (staged count source) x (value, _, _, _) e =
      byte_len-only p count source x value e
  new_size-only name option_tag p null x h e = sym (ok-eq e)
  new_size-only name option_tag p (staged count source) x (value, _, _, _) e =
      let (len, measured, added) = >>=-eq-ok (byte_len um p count) _ e in
      sum_of um (pfx_of p) len x added
      ∙ ap (λ k. pfx_of p + k) (byte_len-only p count source len value measured)

  resized-only :
      (t : Tail) (edit : Option Edit) (old x : ℕ)
      → IsStaged um t edit
      → resized um t edit old ≡ ok x
      → x ≡ resized_len t edit old
  unfolding resized
  resized-only t none old x h e = sym (ok-eq e)
  resized-only t (some edit) old x h e = new_size-only t.name t.presence t.payload edit x h e

  final_total-only :
      (m : Move) (ms : List Move) (x : ℕ)
      → final_total um m ms ≡ ok x
      → total_of um (m.new_off + m.new_len) ms ≡ ok x
  unfolding final_total total_of
  final_total-only m [] x e = ap ok (sym (sum_of um m.new_off m.new_len x e))
  final_total-only m (m' ∷ ms) x e = e

  total_of-only :
      (bytes : List ℕ) (ts : List Tail) (es : List (Option Edit)) (at o n x : ℕ)
      → total_of um n (moves_of um bytes ts es at o n) ≡ ok x
      → x ≡ new_end um bytes ts es at o n
  unfolding total_of moves_of new_end
  total_of-only bytes [] es at o n x e = sym (ok-eq e)
  total_of-only bytes (t ∷ ts) [] at o n x e = sym (ok-eq e)
  total_of-only bytes (t ∷ ts) (edit ∷ es) at o n x e =
      let old = stored_len um bytes t at o in
      let new = resized_len t edit old in
      total_of-only bytes ts es (at + header_width t) (o + old) (n + new) x (
        final_total-only (placed t at edit (o, n) old new)
          (moves_of um bytes ts es (at + header_width t) (o + old) (n + new)) x e)

  offsets-only :
      (front : ℕ) (m : Move) (places : ℕ × ℕ)
      → offsets um front (some m) ≡ ok places
      → places ≡ (m.old_off + m.old_len, m.new_off + m.new_len)
  unfolding offsets
  offsets-only front m places e =
      let (old, a, rest) = >>=-eq-ok (checked_add um m.old_off m.old_len) _ e in
      let (new, b, last) = >>=-eq-ok (checked_add um m.new_off m.new_len) _ rest in
      sym (ok-eq last)
      ∙ ap (λ k. (k, new)) (sum_of um m.old_off m.old_len old a)
      ∙ ap (λ k. (m.old_off + m.old_len, k)) (sum_of um m.new_off m.new_len new b)

module _ {um : ℕ} (target : IsTarget um) (w : Writer) (octets : All IsByte w.bytes)
    (size : length w.bytes ≤ um / 2) (counted : w.total_len ≤ length w.bytes) where
  -- A plan that is made holds the plain moves.
  setup-only :
      (front : ℕ) (prev : Option Move) (ts : List Tail) (es : List (Option Edit)) (at o n end : ℕ)
      (ms : List Move)
      → AllFit um ts
      → AllStaged um ts es
      → ((places : ℕ × ℕ) → offsets um front prev ≡ ok places → places ≡ (o, n))
      → o ≤ length w.bytes
      → walk_tails (full_step um w.bytes) ts at o ≡ ok end
      → end ≤ w.total_len
      → setup um w front prev ts es at ≡ ok ms
      → ms ≡ moves_of um w.bytes ts es at o n
  unfolding setup moves_of walk_tails
  setup-only front prev [] [] at o n end ms h ready begins inside e ends made = sym (ok-eq made)
  setup-only front prev [] (x ∷ es) at o n end ms h ready begins inside e ends made = absurd ready
  setup-only front prev (t ∷ ts) [] at o n end ms h ready begins inside e ends made = absurd ready
  setup-only front prev (t ∷ ts) (edit ∷ es) at o n end ms h ready begins inside e ends made =
      let (next, stepped, rest) = >>=-eq-ok (full_step um w.bytes t at o) _ e in
      let (there, _, sum, within) =
        step-Stored target w.bytes octets size t at o next h.0 inside stepped in
      let last =
        walk-le target w octets size counted ts (at + header_width t) next end h.1 within rest in
      let old = stored_len um w.bytes t at o in
      let block = length-slice o old w.bytes (omega (arith, sum, within)) in
      let measured =
        old_size-Stored um w size counted t.name t.presence t.payload at o _ _ there
          (omega (arith, block, sum, last, ends))
        ∙ ap ok block in
      let (places, first, made1) = >>=-eq-ok (offsets um front prev) _ made in
      let (old', measures, made2) = >>=-eq-ok (old_size um w t at places.0) _ made1 in
      let (new, resizes, made3) = >>=-eq-ok (resized um t edit old') _ made2 in
      let move = placed t at edit places old' new in
      let (more, further, made4) =
        >>=-eq-ok (setup um w front (some move) ts es (at + header_width t)) _ made3 in
      let same : places ≡ (o, n) = begins places first in
      let same_old : old' ≡ old =
        ok-eq (sym measures ∙ ap (λ k. old_size um w t at k) (ap (λ k. k.0) same) ∙ measured) in
      let same_new : new ≡ resized_len t edit old =
        resized-only um t edit old' new ready.0 resizes ∙ ap (resized_len t edit) same_old in
      let tail =
        setup-only front (some move) ts es (at + header_width t) (o + old)
          (n + resized_len t edit old) end more h.1 ready.1
          (λ p q.
            offsets-only um front move p q
            ∙ (λ i. ((same i).0 + same_old i, (same i).1 + same_new i)))
          (omega (arith, sum, within)) (rw (← sum) at rest) ends further in
      let whole : move ∷ more ≡ ms = ok-eq made4 in
      sym whole ∙ (λ i. placed t at edit (same i) (same_old i) (same_new i) ∷ tail i)

module _ {um : ℕ} (target : IsTarget um) (s : Schema) (top alignment : ℕ)
    (compiles : IsCompact um s) (w : Writer) (writer : IsWriter um s top alignment w) where
  plan-only :
      (full_validation : Bool) (ms : List Move) (final : ℕ)
      → plan um s top alignment full_validation w ≡ ok (ms, final)
      → (final ≡ committed_len um s w) × (final ≤ length w.bytes)
  unfolding plan committed_len
  plan-only full_validation ms final e =
      let (ends, front, inside) = start target s top alignment compiles w writer in
      let (_, _, e1) =
        >>=-eq-ok (commit_entry_validate um s top alignment full_validation w.bytes) _ e in
      let (moves, made, e2) =
        >>=-eq-ok
          (setup um w (header_size s) none s.tail_fields w.edits (inline_size s.inline_fields)) _
          e1 in
      let (_, _, e3) = >>=-eq-ok (range_checks um w.total_len (length w.bytes) moves) _ e2 in
      let (last, total, e4) = >>=-eq-ok (total_of um (header_size s) moves) _ e3 in
      let (_, fits, e5) = >>=-eq-ok (ensure (leb last (length w.bytes)) buffer_too_small) _ e4 in
      let same : last ≡ final = ap (λ r. r.1) (ok-eq e5) in
      let room : last ≤ length w.bytes =
        (let b = ensure-eq-ok (leb last (length w.bytes)) buffer_too_small fits in
          ground (arith, b)) in
      let plain =
        setup-only target w writer.octets writer.size inside (header_size s) none s.tail_fields
          w.edits (inline_size s.inline_fields) (header_size s) (header_size s) w.total_len moves
          compiles writer.staged_edits (λ places q. sym (ok-eq q)) front ends (omega arith) made in
      (
        sym same
            ∙ total_of-only um w.bytes s.tail_fields w.edits (inline_size s.inline_fields)
                (header_size s) (header_size s) last (rw plain at total),
        omega (arith, same, room),
      )

  pub commit_tails-refused :
      (full_validation : Bool)
      → length w.bytes < committed_len um s w
      → (e : PinaPodError) × (commit_tails um s top alignment full_validation w ≡ (w, err e))
  unfolding commit_tails commit_plan
  commit_tails-refused full_validation short =
      elim (Result-cases (plan um s top alignment full_validation w)) [
        | inl ((ms, final), made) ↦
            let (same, room) = plan-only full_validation ms final made in
            absurd (omega (arith, same, room, short))
        | inr (e, failed) ↦ (e, ap (commit_plan um w) failed)
      ]
