-- ===== src/Numbers.antt =====
-- `std::to_string`, and the conversions `std::stoi` and `std::stoull` that the parsers call.
pub mod Digits
use rp_t_minigames_server.Prelude.{
  ℕ, zero, suc, ◌+◌, ◌-◌, ◌*◌, ◌/◌, ◌%◌, ◌^◌, Bool, true, false, ◌&&◌, ◌||◌, [], ◌∷◌, ◌++◌, Text,
  text, ltb, leb, ◌==◌, if◌then◌else◌,
}
use rp_t_minigames_server.Prelude.Int.{ℤ, pos, negsuc, negate}
use rp_t_minigames_server.Outcome.{Result, ok, err, invalid_argument, out_of_range}

-- The digits of a number below 10 ^ fuel, and of any number below the fuel.
unfoldable pub digits : ℕ → ℕ → Text
digits zero n = []
digits (suc fuel) n = elim (ltb n 10) [
  | true ↦ (b'0' + n) ∷ []
  | false ↦ digits fuel (n / 10) ++ (b'0' + n % 10) ∷ []
]

unfoldable pub to_string : ℕ → Text
unfolding digits
to_string n = digits (n + 1) n

unfoldable pub to_string_ℤ : ℤ → Text
unfolding to_string
to_string_ℤ (pos n) = to_string n
to_string_ℤ (negsuc n) = b'-' ∷ to_string (n + 1)

-- `std::isspace` in the "C" locale.
abbrev pub is_space : ℕ → Bool
is_space c = c == 32 || (leb 9 c && leb c 13)

abbrev pub is_digit : ℕ → Bool
is_digit c = leb b'0' c && leb c b'9'

unfoldable pub skip_spaces : Text → Text
skip_spaces [] = []
skip_spaces (c ∷ s) = if is_space c then skip_spaces s else c ∷ s

-- The value of the digits at the front of a text, after those read so far.
unfoldable pub read_digits : ℕ → Text → ℕ
read_digits acc [] = acc
read_digits acc (c ∷ s) =
    let more = read_digits (acc * 10 + (c - b'0')) s in if is_digit c then more else acc

-- `strtol` and `strtoull` in base 10: a sign, then at least one digit; the rest is ignored.
abbrev pub unsigned_part : Text → Result ℕ
unsigned_part [] = err (invalid_argument (text "no conversion"))
unsigned_part (c ∷ s) =
    if is_digit c then ok (read_digits 0 (c ∷ s)) else err (invalid_argument (text "no conversion"))

abbrev pub signed : Text → Bool × Text
signed [] = (false, [])
signed (c ∷ s) = if c == b'-' then (true, s) else if c == b'+' then (false, s) else (false, c ∷ s)

unfoldable pub stoull : Text → Result ℕ
unfolding skip_spaces read_digits
stoull s =
    let (negative, body) = signed (skip_spaces s) in
    elim (unsigned_part body) [
      | err e ↦ err (invalid_argument (text "stoull"))
      | ok n ↦
          if ltb n (2 ^ 64)
          then ok (if negative then (2 ^ 64 - n) % 2 ^ 64 else n)
          else err (out_of_range (text "stoull"))
    ]

unfoldable pub stoi : Text → Result ℤ
unfolding skip_spaces read_digits
stoi s =
    let (negative, body) = signed (skip_spaces s) in
    elim (unsigned_part body) [
      | err e ↦ err (invalid_argument (text "stoi"))
      | ok n ↦
          if ltb n (2 ^ 31)
          then ok (if negative then negate (pos n) else pos n)
          else if negative && (n == 2 ^ 31)
          then ok (negsuc (2 ^ 31 - 1))
          else err (out_of_range (text "stoi"))
    ]
