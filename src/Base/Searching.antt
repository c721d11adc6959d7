-- ===== src/Base/Searching.antt =====
-- Texts in which a byte does not occur, and the first places at which it is found.
use user_center.Base.{
  ℕ, zero, suc, ◌+◌, ◌≡◌, ◌++◌, refl, ap, List, [], ◌∷◌, none, some, Bool, true, not, ◌&&◌, Bytes,
  arith, length, take, drop, find_byte, ◌==◌,
}

abbrev pub lacks : ℕ → Bytes → Bool
lacks c [] = true
lacks c (a ∷ s) = not (a == c) && lacks c s

pub find_byte-lacks : (c : ℕ) (s : Bytes) → lacks c s ≡ true → find_byte c s ≡ none
unfolding find_byte
find_byte-lacks c [] h = refl
find_byte-lacks c (a ∷ s) h = ground (arith, find_byte-lacks c s)

-- The first place of a byte that ends a text without it.
pub find_byte_at :
    (c : ℕ) (s t : Bytes) → lacks c s ≡ true → find_byte c (s ++ c ∷ t) ≡ some (length s)
unfolding find_byte
find_byte_at c [] t h = ground arith
find_byte_at c (a ∷ s) t h = ground (arith, find_byte_at c s t)

pub lacks-append :
    (c : ℕ) (s t : Bytes) → lacks c s ≡ true → lacks c t ≡ true → lacks c (s ++ t) ≡ true
lacks-append c [] t h k = k
lacks-append c (a ∷ s) t h k = ground (arith, lacks-append c s t)

module _ {ℓ} {A : Type ℓ} where
  pub take_front : (s t : List A) → take (length s) (s ++ t) ≡ s
  take_front [] t = refl
  take_front (a ∷ s) t = ap (◌∷◌ a) (take_front s t)

  pub drop_front : (s t : List A) → drop (length s) (s ++ t) ≡ t
  drop_front [] t = refl
  drop_front (a ∷ s) t = drop_front s t

  pub drop_behind : (n m : ℕ) (s t : List A) → m ≡ length s + n → drop m (s ++ t) ≡ drop n t
  drop_behind n m [] t e = ap (λ k. drop k t) (omega (arith, e))
  drop_behind n zero (a ∷ s) t e = absurd (omega (arith, e))
  drop_behind n (suc m) (a ∷ s) t e = drop_behind n m s t (omega (arith, e))
