-- ===== src/Utils/TextProtocol/Joined.antt =====
-- Words joined by spaces, and the parser on them.
use rp_t_minigames_server.Prelude.{
  ℕ, ◌≡◌, refl, ◌∙◌, ap, true, false, is_empty, List, [], ◌∷◌, ◌++◌, Text, ltb, ◌==◌, if◌then◌else◌,
  length, arith,
}
use rp_t_minigames_server.Outcome.{ok, err, not_enough_words}
use rp_t_minigames_server.Numbers.{to_string, is_digit}
use rp_t_minigames_server.Numbers.Digits.{Digits, to_string-Digits, is_empty-to_string}
use rp_t_minigames_server.Utils.TextProtocol.{space, skip_separators, new_parser}
use rp_t_minigames_server.Utils.TextProtocol.Words.{
  first_word, split, parsed_by_words, cut, cut-space, cut_letter, kept_letter,
  new_parser-parsed_by_words,
}

abbrev pub Spaceless : Text → Type 0
Spaceless [] = Unit {0}
Spaceless (c ∷ s) = ((c == space) ≡ false) × Spaceless s

-- At least one character, and no space.
abbrev pub IsWord : Text → Type 0
IsWord [] = ⊥
IsWord (c ∷ s) = Spaceless (c ∷ s)

abbrev pub AreWords : List Text → Type 0
AreWords [] = Unit {0}
AreWords (w ∷ words) = IsWord w × AreWords words

abbrev pub join : List Text → Text → Text
join [] rest = rest
join (w ∷ words) rest = w ++ space ∷ join words rest

not_space : (c : ℕ) → is_digit c ≡ true → (c == space) ≡ false
not_space c h = ground (arith, h)

Digits-Spaceless : (s : Text) → Digits s → Spaceless s
Digits-Spaceless [] p = tt
Digits-Spaceless (c ∷ s) p = (not_space c p.0, Digits-Spaceless s p.1)

Digits-IsWord : (s : Text) → Digits s → is_empty s ≡ false → IsWord s
Digits-IsWord [] p h = cc
Digits-IsWord (c ∷ s) p h = Digits-Spaceless (c ∷ s) p

pub to_string-IsWord : (n : ℕ) → IsWord (to_string n)
to_string-IsWord n = Digits-IsWord (to_string n) (to_string-Digits n) (is_empty-to_string n)

pub skip_separators-word : (w rest : Text) → IsWord w → skip_separators (w ++ rest) ≡ w ++ rest
skip_separators-word [] rest p = elim p [ ]
skip_separators-word (c ∷ w) rest p = kept_letter c (w ++ rest) p.0

cut-word : (w rest : Text) → Spaceless w → cut (w ++ space ∷ rest) ≡ (w, rest)
cut-word [] rest p = cut-space space rest refl
cut-word (c ∷ w) rest p =
    cut_letter c (w ++ space ∷ rest) p.0 ∙ ap (λ x. (c ∷ x.0, x.1)) (cut-word w rest p.1)

split-join :
    (words : List Text) (rest : Text)
    → AreWords words
    → split (length words) (join words rest) ≡ (words, rest)
unfolding split
split-join [] rest p = refl
split-join ([] ∷ words) rest p = elim p.0 [ ]
split-join ((c ∷ w) ∷ words) rest p =
    ap (first_word (split (length words))) (kept_letter c (w ++ space ∷ join words rest) p.0.0)
    ∙ ap (λ x. (x.0 ∷ (split (length words) x.1).0, (split (length words) x.1).1))
        (cut-word (c ∷ w) (join words rest) p.0)
    ∙ ap (λ x. ((c ∷ w) ∷ x.0, x.1)) (split-join words rest p.1)

enough : (n : ℕ) → ltb n n ≡ false
enough n = ground arith

-- Words that are joined by spaces are parsed back: a parser for as many words as were joined, each of
-- them not empty and without a space, holds them in their order, and what followed them without the
-- spaces in front.
pub new_parser-join :
    (words : List Text) (rest : Text)
    → AreWords words
    → new_parser (join words rest) (length words)
      ≡ ok (record { parsed_words = words; unparsed_words = skip_separators rest })
unfolding parsed_by_words
new_parser-join words rest p =
    new_parser-parsed_by_words (join words rest) (length words)
    ∙ ap
        (λ x.
          if ltb (length x.0) (length words)
          then err (not_enough_words (length x.0) (length words))
          else ok (record { parsed_words = x.0; unparsed_words = skip_separators x.1 }))
        (split-join words rest p)
    ∙ rw (enough (length words)) refl
