-- ===== src/Http/Context/Fields.antt =====
-- src/http/Context.cpp: a header line as a client writes it, and what parseHeader reads in it.
use user_center.Base.{
  ℕ, ◌+◌, ◌≡◌, ◌∙◌, ◌++◌, refl, ap, [], ◌∷◌, some, Bool, true, false, not, ◌&&◌, Bytes, arith,
  length, take, take_all, to_string,
}
use user_center.Base.Searching.{lacks, find_byte_at, take_front, drop_behind}
use user_center.Base.Strtol.{is_digit}
use user_center.Base.Decimal.{are_digits, to_string-are_digits, to_string-head}
use user_center.Http.Request.{HttpRequest, add_header}
use user_center.Http.Context.{
  parse_header, is_blank, first_not_blank, last_not_blank, trim_left, trim_right,
}

-- The last byte is no blank.
abbrev pub ends_tight : ℕ → Bytes → Bool
ends_tight a [] = not (is_blank a)
ends_tight a (b ∷ s) = ends_tight b s

-- Neither the first byte nor the last is a blank.
abbrev pub is_tight : Bytes → Bool
is_tight [] = false
is_tight (a ∷ s) = not (is_blank a) && ends_tight a s

ends_tight-last_not_blank :
    (a : ℕ) (s : Bytes) → ends_tight a s ≡ true → last_not_blank (a ∷ s) ≡ some (length s)
unfolding last_not_blank is_blank
ends_tight-last_not_blank a [] h = ground arith
ends_tight-last_not_blank a (b ∷ s) h = rw (ends_tight-last_not_blank b s h) refl

take_all_of : (s : Bytes) (n : ℕ) → n ≡ length s → take n s ≡ s
take_all_of s n e = ap (λ k. take k s) e ∙ take_all (length s) s (omega arith)

first_not_blank-blank :
    (a : ℕ) (s : Bytes) → is_blank a ≡ false → first_not_blank (32 ∷ a ∷ s) ≡ some 1
unfolding first_not_blank
first_not_blank-blank a s h = rw (h, first_not_blank) refl

trim_left-blank : (a : ℕ) (s : Bytes) → is_blank a ≡ false → trim_left (32 ∷ a ∷ s) ≡ a ∷ s
unfolding trim_left
trim_left-blank a s h = rw (first_not_blank-blank a s h, trim_left) refl

trim_right-tight : (a : ℕ) (s : Bytes) → ends_tight a s ≡ true → trim_right (a ∷ s) ≡ a ∷ s
unfolding trim_right
trim_right-tight a s h =
    rw (ends_tight-last_not_blank a s h, trim_right)
      (take_all_of (a ∷ s) (length s + 1) (omega arith))

trim_blank : (s : Bytes) → is_tight s ≡ true → trim_right (trim_left (32 ∷ s)) ≡ s
trim_blank [] h = cc
trim_blank (a ∷ s) h = rw (trim_left-blank a s (ground arith)) (trim_right-tight a s (ground arith))

pub parse_header-add_header :
    (name value : Bytes) (r : HttpRequest)
    → lacks 58 name ≡ true
    → is_tight value ≡ true
    → parse_header (name ++ 58 ∷ 32 ∷ value) r ≡ (add_header name value r, true)
unfolding parse_header
parse_header-add_header name value r h k =
    rw
      (
        find_byte_at 58 name (32 ∷ value) h,
        take_front name (58 ∷ 32 ∷ value),
        drop_behind 1 (length name + 1) name (58 ∷ 32 ∷ value) refl,
        trim_blank value k,
        parse_header,
      )
      refl

digits-ends_tight : (a : ℕ) (s : Bytes) → are_digits (a ∷ s) ≡ true → ends_tight a s ≡ true
unfolding is_digit is_blank
digits-ends_tight a [] h = ground arith
digits-ends_tight a (b ∷ s) h = ground (arith, digits-ends_tight b s)

digits_tight : (s : Bytes) (c : ℕ) (t : Bytes) → s ≡ c ∷ t → are_digits s ≡ true → is_tight s ≡ true
unfolding is_digit is_blank
digits_tight [] c t e h = cc
digits_tight (a ∷ s) c t e h = ground (arith, digits-ends_tight a s)

-- A length that a client prints is a header value.
pub to_string-is_tight : (n : ℕ) → is_tight (to_string n) ≡ true
to_string-is_tight n =
    let (c, t, e) = to_string-head n in digits_tight (to_string n) c t e (to_string-are_digits n)

digits_lack : (s : Bytes) → are_digits s ≡ true → lacks 13 s ≡ true
unfolding is_digit
digits_lack [] h = refl
digits_lack (a ∷ s) h = ground (arith, digits_lack s)

pub lacks_cr-to_string : (n : ℕ) → lacks 13 (to_string n) ≡ true
lacks_cr-to_string n = digits_lack (to_string n) (to_string-are_digits n)
