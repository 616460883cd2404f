-- ===== src/Pod/Vec/Spec.antt =====
-- What `PodVecRepr` promises: a list of at most `N` elements, with the operations of a client and
-- what each returns. The representation, the prefix and the inactive slots, is forgotten.
use pinapod.Base.Shifts.{last_of}
use pinapod.Base.{ℕ, zero, suc, ◌+◌, ◌≤◌, ◌<◌, ◌≡◌, refl, ap, arith, ltb, leb, Bool}
use pinapod.Base.{List, [], ◌∷◌, ◌++◌, some, none, Option, length, get_elem?, take, keep}
use pinapod.Base.{if◌then◌else◌}
use pinapod.Error.{overflow, ok, err}
use pinapod.Elem.{Checked}

pub data Op (T : Type 0) : Type 0 where
  push : T → Op T
  set_all : List T → Op T
  extend : List T → Op T
  pop : Op T
  swap_remove : ℕ → Op T
  remove : ℕ → Op T
  truncate : ℕ → Op T
  retain : (T → Bool) → Op T
  clear : Op T

pub data Reply (T : Type 0) : Type 0 where
  done : Checked → Reply T
  taken : Option T → Reply T

module _ {T : Type 0} where
  -- Everything but the last element.
  abbrev pub init_of : T → List T → List T
  init_of x [] = []
  init_of x (y ∷ ys) = x ∷ init_of y ys

  abbrev pub remove_at : List T → ℕ → List T
  remove_at [] i = []
  remove_at (x ∷ xs) zero = xs
  remove_at (x ∷ xs) (suc i) = x ∷ remove_at xs i

  -- The last element takes the place of the removed one.
  abbrev pub swap_out : List T → ℕ → List T
  swap_out [] i = []
  swap_out (x ∷ []) zero = []
  swap_out (x ∷ y ∷ xs) zero = last_of y xs ∷ init_of y xs
  swap_out (x ∷ xs) (suc i) = x ∷ swap_out xs i

  abbrev pub pop_list : List T → List T × Option T
  pop_list [] = ([], none)
  pop_list (x ∷ xs) = (init_of x xs, some (last_of x xs))

  unfoldable pub spec : ℕ → List T → Op T → List T × Reply T
  spec n xs (push x) =
      if leb n (length xs) then (xs, done (err overflow)) else (xs ++ (x ∷ []), done (ok tt))
  spec n xs (set_all ys) =
      if ltb n (length ys) then (xs, done (err overflow)) else (ys, done (ok tt))
  spec n xs (extend ys) =
      if ltb n (length xs + length ys) then (xs, done (err overflow)) else (xs ++ ys, done (ok tt))
  spec n xs pop = let (ys, r) = pop_list xs in (ys, taken r)
  spec n xs (swap_remove i) =
      if leb (length xs) i then (xs, taken none) else (swap_out xs i, taken (get_elem? xs i))
  spec n xs (remove i) =
      if leb (length xs) i then (xs, taken none) else (remove_at xs i, taken (get_elem? xs i))
  spec n xs (truncate k) = (take k xs, done (ok tt))
  spec n xs (retain f) = (keep f xs, done (ok tt))
  spec n xs clear = ([], done (ok tt))

  unfoldable pub spec_run : ℕ → List T → List (Op T) → List T × List (Reply T)
  spec_run n xs [] = (xs, [])
  spec_run n xs (op ∷ ops) =
      let (ys, r) = spec n xs op in let (zs, rs) = spec_run n ys ops in (zs, r ∷ rs)

  -- A list cut before the index `i`.
  pub record Cut (xs : List T) (i : ℕ) : Type 0 where
    pub pre : List T
    pub at : T
    pub post : List T
    pub whole : xs ≡ pre ++ (at ∷ post)
    pub index : length pre ≡ i

  pub cut : (xs : List T) (i : ℕ) → i < length xs → Cut xs i
  cut [] i h = absurd (omega arith)
  cut (x ∷ xs) zero h = record { pre = []; at = x; post = xs; whole = refl; index = refl }
  cut (x ∷ xs) (suc i) h =
      let c = cut xs i (omega arith) in
      record {
        pre = x ∷ c.pre;
        at = c.at;
        post = c.post;
        whole = ap (λ t. x ∷ t) c.whole;
        index = ap suc c.index;
      }

  pub init-last : (x : T) (xs : List T) → init_of x xs ++ (last_of x xs ∷ []) ≡ x ∷ xs
  init-last x [] = refl
  init-last x (y ∷ xs) = ap (λ t. x ∷ t) (init-last y xs)

  pub remove_at-cut :
      (pre : List T) (x : T) (post : List T)
      → remove_at (pre ++ (x ∷ post)) (length pre) ≡ pre ++ post
  remove_at-cut [] x post = refl
  remove_at-cut (p ∷ pre) x post = ap (λ t. p ∷ t) (remove_at-cut pre x post)

  pub get_elem?-cut :
      (pre : List T) (x : T) (post : List T) → get_elem? (pre ++ (x ∷ post)) (length pre) ≡ some x
  get_elem?-cut [] x post = refl
  get_elem?-cut (p ∷ pre) x post = get_elem?-cut pre x post

  pub swap_out-last : (pre : List T) (x : T) → swap_out (pre ++ (x ∷ [])) (length pre) ≡ pre
  swap_out-last [] x = refl
  swap_out-last (p ∷ []) x = refl
  swap_out-last (p ∷ q ∷ pre) x = ap (λ t. p ∷ t) (swap_out-last (q ∷ pre) x)

  pub swap_out-inner :
      (pre : List T) (x y : T) (post : List T)
      → swap_out (pre ++ (x ∷ y ∷ post)) (length pre) ≡ pre ++ (last_of y post ∷ init_of y post)
  swap_out-inner [] x y post = refl
  swap_out-inner (p ∷ []) x y post = refl
  swap_out-inner (p ∷ q ∷ pre) x y post = ap (λ t. p ∷ t) (swap_out-inner (q ∷ pre) x y post)

  pub take-all : (n : ℕ) (xs : List T) → length xs ≤ n → take n xs ≡ xs
  take-all zero [] h = refl
  take-all zero (x ∷ xs) h = absurd (omega arith)
  take-all (suc n) [] h = refl
  take-all (suc n) (x ∷ xs) h = ap (λ t. x ∷ t) (take-all n xs (omega arith))
