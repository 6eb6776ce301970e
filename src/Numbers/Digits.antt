-- ===== src/Numbers/Digits.antt =====
-- A number that is printed and read again.
use rp_t_minigames_server.Prelude.{
  ℕ, zero, suc, ◌+◌, ◌-◌, ◌*◌, ◌/◌, ◌%◌, ◌^◌, ◌<◌, ◌≡◌, refl, sym, ◌∙◌, ap, inl, inr, Bool-cases,
  true, false, [], ◌∷◌, ◌++◌, Text, ltb, is_empty, ◌==◌, arith,
}
use rp_t_minigames_server.Outcome.{ok}
use rp_t_minigames_server.Numbers.{
  digits, to_string, is_space, is_digit, skip_spaces, read_digits, signed, stoull,
}

abbrev pub Digits : Text → Type 0
Digits [] = Unit {0}
Digits (c ∷ s) = (is_digit c ≡ true) × Digits s

digits_small : (f n : ℕ) → ltb n 10 ≡ true → digits (suc f) n ≡ (b'0' + n) ∷ []
unfolding digits
digits_small f n h = rw (digits, h) refl

digits_large :
    (f n : ℕ) → ltb n 10 ≡ false → digits (suc f) n ≡ digits f (n / 10) ++ (b'0' + n % 10) ∷ []
unfolding digits
digits_large f n h = rw (digits, h) refl

is_digit-of : (n : ℕ) → n < 10 → is_digit (b'0' + n) ≡ true
is_digit-of n h = ground (arith, h)

Digits-append : (s : Text) (c : ℕ) → Digits s → is_digit c ≡ true → Digits (s ++ c ∷ [])
Digits-append [] c p h = (h, tt)
Digits-append (d ∷ s) c p h = (p.0, Digits-append s c p.1 h)

small : (n : ℕ) → ltb n 10 ≡ true → n < 10
small n h = ground (arith, h)

digits-Digits : (f n : ℕ) → Digits (digits f n)
unfolding digits
digits-Digits zero n = tt
digits-Digits (suc f) n = elim (Bool-cases (ltb n 10)) [
  | inl h ↦ rw (digits_small f n h) (is_digit-of n (small n h), tt)
  | inr h ↦ rw (digits_large f n h) (
      Digits-append (digits f (n / 10)) (b'0' + n % 10) (digits-Digits f (n / 10))
        (is_digit-of (n % 10) (omega arith)))
]

read_digits-append :
    (acc : ℕ) (s : Text) (c : ℕ)
    → Digits s
    → is_digit c ≡ true
    → read_digits acc (s ++ c ∷ []) ≡ read_digits acc s * 10 + (c - b'0')
unfolding read_digits
read_digits-append acc [] c p h = rw h refl
read_digits-append acc (d ∷ s) c p h = rw p.0 (read_digits-append (acc * 10 + (d - b'0')) s c p.1 h)

read_digits-digits : (f n : ℕ) → n < f → read_digits 0 (digits f n) ≡ n
unfolding read_digits
read_digits-digits zero n h = omega arith
read_digits-digits (suc f) n h = elim (Bool-cases (ltb n 10)) [
  | inl is ↦
      ap (read_digits 0) (digits_small f n is) ∙ rw (is_digit-of n (small n is)) (omega arith)
  | inr is ↦
      let n_large : 10 < n + 1 = ground (arith, is) in
      ap (read_digits 0) (digits_large f n is)
      ∙ read_digits-append 0 (digits f (n / 10)) (b'0' + n % 10) (digits-Digits f (n / 10))
          (is_digit-of (n % 10) (omega arith))
      ∙ ap (λ v. v * 10 + (b'0' + n % 10 - b'0')) (read_digits-digits f (n / 10) (omega arith))
      ∙ omega arith
]

is_empty-append : (s : Text) (c : ℕ) → is_empty (s ++ c ∷ []) ≡ false
is_empty-append [] c = refl
is_empty-append (d ∷ s) c = refl

is_empty-digits : (f n : ℕ) → is_empty (digits (suc f) n) ≡ false
is_empty-digits f n = elim (Bool-cases (ltb n 10)) [
  | inl h ↦ ap is_empty (digits_small f n h)
  | inr h ↦ ap is_empty (digits_large f n h) ∙ is_empty-append (digits f (n / 10)) (b'0' + n % 10)
]

not_space : (c : ℕ) → is_digit c ≡ true → is_space c ≡ false
not_space c h = ground (arith, h)

not_sign : (c : ℕ) → is_digit c ≡ true → ((c == b'-') ≡ false) × ((c == b'+') ≡ false)
not_sign c h = (ground (arith, h), ground (arith, h))

digit_first : (c : ℕ) (s : Text) → is_digit c ≡ true → skip_spaces (c ∷ s) ≡ c ∷ s
unfolding skip_spaces
digit_first c s h = rw (not_space c h) refl

no_sign : (c : ℕ) (s : Text) → is_digit c ≡ true → signed (c ∷ s) ≡ (false, c ∷ s)
no_sign c s h = rw ((not_sign c h).0, (not_sign c h).1) refl

first_digit :
    (c : ℕ) (s : Text)
    → is_digit c ≡ true
    → read_digits 0 (c ∷ s) ≡ read_digits (0 * 10 + (c - b'0')) s
unfolding read_digits
first_digit c s h = rw h refl

stoull_of_Digits :
    (s : Text) (n : ℕ)
    → Digits s
    → is_empty s ≡ false
    → read_digits 0 s ≡ n
    → ltb n (2 ^ 64) ≡ true
    → stoull s ≡ ok n
unfolding stoull
stoull_of_Digits [] n p nonempty value fits = cc
stoull_of_Digits (c ∷ s) n p nonempty value fits =
    let rest : read_digits (0 * 10 + (c - b'0')) s ≡ n = sym (first_digit c s p.0) ∙ value in
    rw (stoull, digit_first c s p.0, no_sign c s p.0, p.0, rest, fits)
      (rw (digit_first c s p.0, no_sign c s p.0) refl)

fits_64 : (n : ℕ) → n < 2 ^ 64 → ltb n (2 ^ 64) ≡ true
fits_64 n h = ground (arith, h)

pub to_string-Digits : (n : ℕ) → Digits (to_string n)
unfolding to_string
to_string-Digits n = digits-Digits (n + 1) n

pub is_empty-to_string : (n : ℕ) → is_empty (to_string n) ≡ false
unfolding to_string
is_empty-to_string n = let more : n + 1 ≡ suc n = omega arith in rw more (is_empty-digits n n)

read_digits-to_string : (n : ℕ) → read_digits 0 (to_string n) ≡ n
unfolding to_string
read_digits-to_string n = read_digits-digits (n + 1) n (omega arith)

-- What a number of 64 bits is printed as is read back as that number.
pub stoull-to_string : (n : ℕ) → n < 2 ^ 64 → stoull (to_string n) ≡ ok n
stoull-to_string n h =
    stoull_of_Digits (to_string n) n (to_string-Digits n) (is_empty-to_string n)
      (read_digits-to_string n) (fits_64 n h)
