-- ===== src/Prelude/Lists.antt =====
-- Lists measured and indexed by native numbers, under the library's names.
use Prim.Native.Nat.{ℕ, zero, suc, ◌+◌, ◌-◌, ◌≤◌, ◌<◌}
use mathlib.Core.Path.{◌≡◌, refl, ap}
use mathlib.Core.List.{List, [], ◌∷◌, ◌++◌}
use mathlib.Core.Bool.{Bool, true, false, ◌&&◌, ◌||◌}
use mathlib.Core.Option.{Option, none, some}
use native.Mathlib.Omega.{arith}
use assuan_library_rs.Prelude.Tests.{||-false}

module _ {ℓ} {A : Type ℓ} where
  abbrev pub length : List A → ℕ
  length [] = 0
  length (x ∷ xs) = suc (length xs)

  abbrev pub get_elem? : List A → ℕ → Option A
  get_elem? [] i = none
  get_elem? (x ∷ xs) zero = some x
  get_elem? (x ∷ xs) (suc i) = get_elem? xs i

  abbrev pub get_or : List A → ℕ → A → A
  get_or [] i d = d
  get_or (x ∷ xs) zero d = x
  get_or (x ∷ xs) (suc i) d = get_or xs i d

  -- A write out of bounds changes nothing.
  abbrev pub set : List A → ℕ → A → List A
  set [] i v = []
  set (x ∷ xs) zero v = v ∷ xs
  set (x ∷ xs) (suc i) v = x ∷ set xs i v

  abbrev pub take : ℕ → List A → List A
  take zero xs = []
  take (suc n) [] = []
  take (suc n) (x ∷ xs) = x ∷ take n xs

  abbrev pub drop : ℕ → List A → List A
  drop zero xs = xs
  drop (suc n) [] = []
  drop (suc n) (x ∷ xs) = drop n xs

  abbrev pub replicate : ℕ → A → List A
  replicate zero a = []
  replicate (suc n) a = a ∷ replicate n a

  abbrev pub is_empty : List A → Bool
  is_empty [] = true
  is_empty (x ∷ xs) = false

  -- `xs.iter().any(p)` and `xs.iter().all(p)`.
  abbrev pub any : (A → Bool) → List A → Bool
  any p [] = false
  any p (x ∷ xs) = p x || any p xs

  abbrev pub all : (A → Bool) → List A → Bool
  all p [] = true
  all p (x ∷ xs) = p x && all p xs

  -- The elements of the parts, in order.
  abbrev pub concat : List (List A) → List A
  concat [] = []
  concat (xs ∷ xss) = xs ++ concat xss

module _ {ℓ} {A : Type ℓ} where
  pub any-append :
      (p : A → Bool) (xs ys : List A)
      → any p xs ≡ false
      → any p ys ≡ false
      → any p (xs ++ ys) ≡ false
  any-append p [] ys h k = k
  any-append p (x ∷ xs) ys h k =
      let (h0, h1) = ||-false (p x) _ h in rw h0 (any-append p xs ys h1 k)

  pub length-append : (xs ys : List A) → length (xs ++ ys) ≡ length xs + length ys
  length-append [] ys = omega arith
  length-append (x ∷ xs) ys = omega (arith, length-append xs ys)

  pub length-set : (xs : List A) (i : ℕ) (v : A) → length (set xs i v) ≡ length xs
  length-set [] i v = refl
  length-set (x ∷ xs) zero v = refl
  length-set (x ∷ xs) (suc i) v = ap suc (length-set xs i v)

  pub length-drop : (n : ℕ) (xs : List A) → length (drop n xs) ≡ length xs - n
  length-drop zero xs = omega arith
  length-drop (suc n) [] = omega arith
  length-drop (suc n) (x ∷ xs) = omega (arith, length-drop n xs)

  pub length-replicate : (n : ℕ) (a : A) → length (replicate n a) ≡ n
  length-replicate zero a = refl
  length-replicate (suc n) a = ap suc (length-replicate n a)

  pub drop-append : (xs ys : List A) → drop (length xs) (xs ++ ys) ≡ ys
  drop-append [] ys = refl
  drop-append (x ∷ xs) ys = drop-append xs ys

  pub take-append : (xs ys : List A) → take (length xs) (xs ++ ys) ≡ xs
  take-append [] ys = refl
  take-append (x ∷ xs) ys = ap (λ zs. x ∷ zs) (take-append xs ys)

  pub drop-suc-append :
      (xs : List A) (y : A) (ys : List A) → drop (suc (length xs)) (xs ++ y ∷ ys) ≡ ys
  drop-suc-append [] y ys = refl
  drop-suc-append (x ∷ xs) y ys = drop-suc-append xs y ys

  -- A write just behind a prefix.
  pub set-append :
      (xs : List A) (y : A) (ys : List A) (v : A) → set (xs ++ y ∷ ys) (length xs) v ≡ xs ++ v ∷ ys
  set-append [] y ys v = refl
  set-append (x ∷ xs) y ys v = ap (λ zs. x ∷ zs) (set-append xs y ys v)

  pub get_or-append :
      (xs : List A) (y : A) (ys : List A) (d : A) → get_or (xs ++ y ∷ ys) (length xs) d ≡ y
  get_or-append [] y ys d = refl
  get_or-append (x ∷ xs) y ys d = get_or-append xs y ys d

  -- A list that is long enough splits at an index into a prefix, an element and the rest.
  pub split_at :
      (i : ℕ) (xs : List A)
      → i < length xs
      → (pre : List A) × (x : A) × (post : List A) × (xs ≡ pre ++ x ∷ post) × (length pre ≡ i)
  split_at i [] h = elim h [ ]
  split_at zero (x ∷ xs) h = ([], x, xs, refl, refl)
  split_at (suc i) (x ∷ xs) h =
      let (pre, y, post, e, l) = split_at i xs (omega arith) in
      (x ∷ pre, y, post, ap (λ zs. x ∷ zs) e, ap suc l)

  -- Reading on from an index.
  pub drop-cons :
      (i : ℕ) (xs : List A) (d : A) {x : A} {r : List A}
      → drop i xs ≡ x ∷ r
      → (get_or xs i d ≡ x) × (drop (suc i) xs ≡ r) × (i < length xs)
  drop-cons zero [] d e = cc
  drop-cons zero (x ∷ xs) d e = (cc, cc, omega arith)
  drop-cons (suc i) [] d e = cc
  drop-cons (suc i) (x ∷ xs) d e = let (g, t, l) = drop-cons i xs d e in (g, t, omega arith)

  pub drop-nil : (i : ℕ) (xs : List A) → drop i xs ≡ [] → length xs ≤ i
  drop-nil zero [] e = omega arith
  drop-nil zero (x ∷ xs) e = cc
  drop-nil (suc i) [] e = omega arith
  drop-nil (suc i) (x ∷ xs) e = omega (arith, drop-nil i xs e)

  pub drop-set_lt : (i w : ℕ) (xs : List A) (v : A) → w < i → drop i (set xs w v) ≡ drop i xs
  drop-set_lt zero w xs v h = absurd (omega arith)
  drop-set_lt (suc i) w [] v h = refl
  drop-set_lt (suc i) zero (x ∷ xs) v h = refl
  drop-set_lt (suc i) (suc w) (x ∷ xs) v h = drop-set_lt i w xs v (omega arith)

  -- A write just behind a prefix, where the rest still holds older contents.
  pub set-append-drop :
      (xs ys : List A) (v : A)
      → length xs < length ys
      → set (xs ++ drop (length xs) ys) (length xs) v ≡ (xs ++ v ∷ []) ++ drop (suc (length xs)) ys
  set-append-drop [] [] v h = elim h [ ]
  set-append-drop [] (y ∷ ys) v h = refl
  set-append-drop (x ∷ xs) [] v h = elim h [ ]
  set-append-drop (x ∷ xs) (y ∷ ys) v h = ap (λ zs. x ∷ zs) (set-append-drop xs ys v (omega arith))

  pub length-snoc : (xs : List A) (v : A) → length (xs ++ v ∷ []) ≡ suc (length xs)
  length-snoc [] v = refl
  length-snoc (x ∷ xs) v = ap suc (length-snoc xs v)

  pub drop-replicate : (n m : ℕ) (a : A) → drop n (replicate m a) ≡ replicate (m - n) a
  drop-replicate zero m a = let e : m - 0 ≡ m = omega arith in rw e
  drop-replicate (suc n) zero a = let e : 0 - suc n ≡ 0 = omega arith in rw e
  drop-replicate (suc n) (suc m) a =
      let e : suc m - suc n ≡ m - n = omega arith in rw e (drop-replicate n m a)
