-- ===== src/Tests/Vec.antt =====
-- `PodVecRepr<PodBool, 4, 1>`, and one whose prefix exceeds its capacity.
use pinapod.Base.{ℕ, ◌-◌, ◌≡◌, refl, List, [], ◌∷◌, ◌++◌, some, length, replicate, keep, drop}
use pinapod.Error.{ok, ◌>>=◌}
use pinapod.Pod.Elems.{bool_elem}
use pinapod.Pod.Flag
use pinapod.Pod.Flag.{PodBool}
use pinapod.Pod.Prefix
use pinapod.Pod.Vec
use pinapod.Pod.Vec.{PodVec}
use pinapod.Pod.Vec.State.{Shows, Stores}
use pinapod.Pod.Vec.Reads.{validate_ref_vec, try_as_slice-validate_ref}
use pinapod.Pod.Vec.Removes.{remove_lem}
use pinapod.Pod.Vec.Retain.{retain_lem}
use pinapod.Pod.Vec.Spec.{Op, push, pop, remove, truncate, done, taken, spec, spec_run}
use pinapod.Pod.Vec.Refine.{Canonical, run}
use pinapod.Pod.Vec.Refine.Runs.{run_refines}
use pinapod.Tests.{four, four-IsLayout}

abbrev bit : ℕ → PodBool
bit b = record { byte = b }

-- `[true, false]`, with the other slots zeroed.
abbrev two_flags : PodVec PodBool
two_flags = record { prefix = 2 ∷ []; slots = bit 1 ∷ bit 0 ∷ bit 0 ∷ bit 0 ∷ [] }

-- A prefix of 200, which reads as the capacity.
abbrev corrupt : PodVec PodBool
corrupt = record { prefix = 200 ∷ []; slots = bit 1 ∷ bit 0 ∷ bit 1 ∷ bit 7 ∷ [] }

abbrev calls : List (Op PodBool)
calls = push (bit 1) ∷ remove 0 ∷ pop ∷ truncate 5 ∷ []

two_flags-Canonical : Canonical four two_flags (bit 1 ∷ bit 0 ∷ [])
unfolding bool_elem Prefix.try_decode_len
two_flags-Canonical = record { exact = refl; memory = refl; total = refl; width = refl }

corrupt-Shows : Shows four corrupt (bit 1 ∷ bit 0 ∷ bit 1 ∷ bit 7 ∷ []) []
unfolding Prefix.clamped_len Prefix.decode_len Prefix.try_decode_len
corrupt-Shows = record { active = refl; memory = refl; total = refl; width = refl }

run_refines_example :
    ((run four two_flags calls).1 ≡ (spec_run 4 (bit 1 ∷ bit 0 ∷ []) calls).1)
    × Canonical four (run four two_flags calls).0 (spec_run 4 (bit 1 ∷ bit 0 ∷ []) calls).0
run_refines_example =
    run_refines four-IsLayout calls two_flags (bit 1 ∷ bit 0 ∷ []) two_flags-Canonical

-- What those calls return.
replies :
    (spec_run 4 (bit 1 ∷ bit 0 ∷ []) calls).1
    ≡ done (ok tt) ∷ taken (some (bit 1)) ∷ taken (some (bit 1)) ∷ done (ok tt) ∷ []
unfolding spec_run spec
replies = refl

two_flags_valid : Vec.validate_ref four two_flags ≡ ok tt
unfolding Vec.validate_ref Prefix.try_decode_len bool_elem Vec.as_slice Prefix.clamped_len
    Prefix.decode_len Flag.validate_ref
two_flags_valid = refl

validate_ref_vec_example :
    (Vec.try_as_slice four two_flags ≡ ok (Vec.as_slice four two_flags))
    × (bool_elem.validate_slice (Vec.as_slice four two_flags) ≡ ok tt)
    × Stores four two_flags
        (Vec.as_slice four two_flags)
        (drop (length (Vec.as_slice four two_flags)) two_flags.slots)
validate_ref_vec_example = validate_ref_vec four two_flags refl refl two_flags_valid

try_as_slice-validate_ref_example :
    (Vec.try_as_slice four corrupt >>= λ _. ok tt) ≡ Vec.validate_ref four corrupt
try_as_slice-validate_ref_example = try_as_slice-validate_ref four corrupt

retain_lem_example :
    Stores four
      (Vec.retain four Flag.get corrupt)
      (keep Flag.get (bit 1 ∷ bit 0 ∷ bit 1 ∷ bit 7 ∷ []))
      (replicate (4 - length (keep Flag.get (bit 1 ∷ bit 0 ∷ bit 1 ∷ bit 7 ∷ []))) bool_elem.zeroed
        ++ [])
retain_lem_example = retain_lem four-IsLayout Flag.get corrupt corrupt-Shows

remove_lem_example :
    ((Vec.remove four corrupt 1).1 ≡ some (bit 0))
    × Stores four (Vec.remove four corrupt 1).0 (bit 1 ∷ bit 1 ∷ bit 7 ∷ []) (bool_elem.zeroed ∷ [])
remove_lem_example =
    remove_lem four-IsLayout corrupt (bit 1 ∷ []) (bit 1 ∷ bit 7 ∷ []) corrupt-Shows
