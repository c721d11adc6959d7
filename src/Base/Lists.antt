-- ===== src/Base/Lists.antt =====
-- Lists measured and indexed by native numbers, under the library's names, and `copy_to`, which
-- is `std::copy` into an array that keeps its size.
use Prim.Native.Nat.{ℕ, zero, suc, ◌+◌, ◌-◌, ◌≤◌, min}
use mathlib.Core.Path.{◌≡◌, refl, ap}
use mathlib.Core.List.{List, [], ◌∷◌, ◌++◌}
use native.Mathlib.Omega.{arith}

module _ {ℓ} {A : Type ℓ} where
  abbrev pub length : List A → ℕ
  length [] = 0
  length (x ∷ xs) = suc (length xs)

  abbrev pub take : ℕ → List A → List A
  take zero xs = []
  take (suc n) [] = []
  take (suc n) (x ∷ xs) = x ∷ take n xs

  abbrev pub drop : ℕ → List A → List A
  drop zero xs = xs
  drop (suc n) [] = []
  drop (suc n) (x ∷ xs) = drop n xs

  abbrev pub replicate : ℕ → A → List A
  replicate zero a = []
  replicate (suc n) a = a ∷ replicate n a

  -- Elements past the end of the array are not written.
  abbrev pub copy_to : List A → ℕ → List A → List A
  copy_to [] i ys = []
  copy_to (x ∷ xs) zero [] = x ∷ xs
  copy_to (x ∷ xs) zero (y ∷ ys) = y ∷ copy_to xs zero ys
  copy_to (x ∷ xs) (suc i) ys = x ∷ copy_to xs i ys

  pub length-append : (xs ys : List A) → length (xs ++ ys) ≡ length xs + length ys
  length-append [] ys = omega arith
  length-append (x ∷ xs) ys = omega (arith, length-append xs ys)

  pub length-take : (n : ℕ) (xs : List A) → length (take n xs) ≡ min n (length xs)
  length-take zero xs = omega arith
  length-take (suc n) [] = omega arith
  length-take (suc n) (x ∷ xs) = omega (arith, length-take n xs)

  pub length-drop : (n : ℕ) (xs : List A) → length (drop n xs) ≡ length xs - n
  length-drop zero xs = omega arith
  length-drop (suc n) [] = omega arith
  length-drop (suc n) (x ∷ xs) = omega (arith, length-drop n xs)

  pub length-replicate : (n : ℕ) (a : A) → length (replicate n a) ≡ n
  length-replicate zero a = refl
  length-replicate (suc n) a = ap suc (length-replicate n a)

  pub length-copy_to : (xs : List A) (i : ℕ) (ys : List A) → length (copy_to xs i ys) ≡ length xs
  length-copy_to [] i ys = refl
  length-copy_to (x ∷ xs) zero [] = refl
  length-copy_to (x ∷ xs) zero (y ∷ ys) = ap suc (length-copy_to xs zero ys)
  length-copy_to (x ∷ xs) (suc i) ys = ap suc (length-copy_to xs i ys)

  pub take-append-drop : (n : ℕ) (xs : List A) → take n xs ++ drop n xs ≡ xs
  take-append-drop zero xs = refl
  take-append-drop (suc n) [] = refl
  take-append-drop (suc n) (x ∷ xs) = ap (◌∷◌ x) (take-append-drop n xs)

  pub take_all : (n : ℕ) (xs : List A) → length xs ≤ n → take n xs ≡ xs
  take_all zero [] h = refl
  take_all zero (x ∷ xs) h = absurd (omega arith)
  take_all (suc n) [] h = refl
  take_all (suc n) (x ∷ xs) h = ap (◌∷◌ x) (take_all n xs (omega arith))

  pub drop_all : (n : ℕ) (xs : List A) → length xs ≤ n → drop n xs ≡ []
  drop_all zero [] h = refl
  drop_all zero (x ∷ xs) h = absurd (omega arith)
  drop_all (suc n) [] h = refl
  drop_all (suc n) (x ∷ xs) h = drop_all n xs (omega arith)

  pub take-append : (n : ℕ) (xs ys : List A) → n ≤ length xs → take n (xs ++ ys) ≡ take n xs
  take-append zero xs ys h = refl
  take-append (suc n) [] ys h = absurd (omega arith)
  take-append (suc n) (x ∷ xs) ys h = ap (◌∷◌ x) (take-append n xs ys (omega arith))

  pub drop-append : (n : ℕ) (xs ys : List A) → n ≤ length xs → drop n (xs ++ ys) ≡ drop n xs ++ ys
  drop-append zero xs ys h = refl
  drop-append (suc n) [] ys h = absurd (omega arith)
  drop-append (suc n) (x ∷ xs) ys h = drop-append n xs ys (omega arith)

  pub drop-drop : (a b c : ℕ) (xs : List A) → c ≡ a + b → drop b (drop a xs) ≡ drop c xs
  drop-drop zero b c xs e = ap (λ n. drop n xs) (omega arith)
  drop-drop (suc a) zero zero [] e = refl
  drop-drop (suc a) (suc b) zero [] e = absurd (omega arith)
  drop-drop (suc a) zero (suc c) [] e = refl
  drop-drop (suc a) (suc b) (suc c) [] e = refl
  drop-drop (suc a) b zero (x ∷ xs) e = absurd (omega arith)
  drop-drop (suc a) b (suc c) (x ∷ xs) e = drop-drop a b c xs (omega arith)

  pub drop-take : (a n m : ℕ) (xs : List A) → m ≡ a + n → drop a (take m xs) ≡ take n (drop a xs)
  drop-take zero n m xs e = ap (λ k. take k xs) (omega arith)
  drop-take (suc a) n zero xs e = absurd (omega arith)
  drop-take (suc a) zero (suc m) [] e = refl
  drop-take (suc a) (suc n) (suc m) [] e = refl
  drop-take (suc a) n (suc m) (x ∷ xs) e = drop-take a n m xs (omega arith)

  pub take-take : (n m : ℕ) (xs : List A) → n ≤ m → take n (take m xs) ≡ take n xs
  take-take zero m xs h = refl
  take-take (suc n) zero xs h = absurd (omega arith)
  take-take (suc n) (suc m) [] h = refl
  take-take (suc n) (suc m) (x ∷ xs) h = ap (◌∷◌ x) (take-take n m xs (omega arith))

  -- What a copy leaves in front of its end: the old bytes up to the start, then the new ones.
  pub take-copy_to :
      (xs : List A) (w : ℕ) (ys : List A) (m : ℕ)
      → m ≡ w + length ys
      → m ≤ length xs
      → take m (copy_to xs w ys) ≡ take w xs ++ ys
  take-copy_to [] zero [] zero e h = refl
  take-copy_to [] w ys (suc m) e h = absurd (omega arith)
  take-copy_to [] zero (y ∷ ys) zero e h = absurd (omega arith)
  take-copy_to [] (suc w) ys zero e h = absurd (omega arith)
  take-copy_to (x ∷ xs) zero [] zero e h = refl
  take-copy_to (x ∷ xs) zero [] (suc m) e h = absurd (omega arith)
  take-copy_to (x ∷ xs) zero (y ∷ ys) zero e h = absurd (omega arith)
  take-copy_to (x ∷ xs) zero (y ∷ ys) (suc m) e h =
      ap (◌∷◌ y) (take-copy_to xs zero ys m (omega arith) (omega arith))
  take-copy_to (x ∷ xs) (suc w) ys zero e h = absurd (omega arith)
  take-copy_to (x ∷ xs) (suc w) ys (suc m) e h =
      ap (◌∷◌ x) (take-copy_to xs w ys m (omega arith) (omega arith))

  pub drop-copy_to :
      (xs : List A) (r w k : ℕ) (ys : List A)
      → w ≡ r + k
      → drop r (copy_to xs w ys) ≡ copy_to (drop r xs) k ys
  drop-copy_to xs zero w k ys e = ap (λ n. copy_to xs n ys) (omega arith)
  drop-copy_to [] (suc r) w k ys e = refl
  drop-copy_to (x ∷ xs) (suc r) zero k ys e = absurd (omega arith)
  drop-copy_to (x ∷ xs) (suc r) (suc w) k ys e = drop-copy_to xs r w k ys (omega arith)

  -- Bytes behind the end of a copy stay.
  pub drop_end-copy_to :
      (xs : List A) (ys : List A) → drop (length ys) (copy_to xs zero ys) ≡ drop (length ys) xs
  drop_end-copy_to [] ys = refl
  drop_end-copy_to (x ∷ xs) [] = refl
  drop_end-copy_to (x ∷ xs) (y ∷ ys) = drop_end-copy_to xs ys

  pub take-plus :
      (a b c : ℕ) (xs : List A) → c ≡ a + b → take c xs ≡ take a xs ++ take b (drop a xs)
  take-plus zero b c xs e = ap (λ n. take n xs) (omega arith)
  take-plus (suc a) b zero xs e = absurd (omega arith)
  take-plus (suc a) zero (suc c) [] e = refl
  take-plus (suc a) (suc b) (suc c) [] e = refl
  take-plus (suc a) b (suc c) (x ∷ xs) e = ap (◌∷◌ x) (take-plus a b c xs (omega arith))
