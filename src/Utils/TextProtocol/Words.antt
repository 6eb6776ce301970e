-- ===== src/Utils/TextProtocol/Words.antt =====
-- The parser's scan, which counts in indices, against a splitter that cuts one word after another.
use rp_t_minigames_server.Prelude.{
  ℕ, zero, suc, ◌+◌, ◌≡◌, refl, sym, ◌∙◌, ap, inl, inr, true, false, Bool-cases, List, [], ◌∷◌,
  ◌++◌, Text, ltb, ◌==◌, if◌then◌else◌, length, length-append, take, drop, ++_nil, ++_assoc, arith,
}
use rp_t_minigames_server.Outcome.{Result, ok, err, not_enough_words}
use rp_t_minigames_server.Utils.TextProtocol.{
  WordScan, space, push_word, scan_char, scan_words, skip_separators, TextProtocolParser,
  new_parser,
}

-- The characters up to the first space, and those behind it.
abbrev pub word_of : Text → Text
word_of [] = []
word_of (c ∷ s) = let rest = word_of s in if c == space then [] else c ∷ rest

abbrev pub after_word : Text → Text
after_word [] = []
after_word (c ∷ s) = let rest = after_word s in if c == space then s else rest

abbrev pub first_word : (Text → List Text × Text) → Text → List Text × Text
first_word next [] = ([], [])
first_word next (c ∷ s) =
    (word_of (c ∷ s) ∷ (next (after_word (c ∷ s))).0, (next (after_word (c ∷ s))).1)

-- At most so many words, and what is behind them.
unfoldable pub split : ℕ → Text → List Text × Text
split zero s = ([], s)
split (suc n) s = first_word (split n) (skip_separators s)

-- The parser that the words of the text define.
unfoldable pub parsed_by_words : Text → ℕ → Result TextProtocolParser
parsed_by_words command expected =
    let (words, rest) = split expected command in
    if ltb (length words) expected
    then err (not_enough_words (length words) expected)
    else ok (record { parsed_words = words; unparsed_words = skip_separators rest })

abbrev at_char : List Text → ℕ → ℕ → ℕ → WordScan
at_char words begin_i word_length i = record {
  parsed_words = words;
  word_begin_i = begin_i;
  word_length = word_length;
  char_i = i;
}

-- The last word, if the text ends in one.
abbrev finish : Text → WordScan × Text → List Text × Text
finish command (s, rest) =
    ((if s.word_length == 0 then s else push_word command s).parsed_words, rest)

not_zero : (k : ℕ) → (suc k == 0) ≡ false
not_zero k = ground arith

drop-next :
    {A : Type 0} (i : ℕ) (xs : List A) {x : A} {ys : List A}
    → drop i xs ≡ x ∷ ys
    → drop (suc i) xs ≡ ys
drop-next zero [] h = cc
drop-next zero (x ∷ xs) h = cc
drop-next (suc i) [] h = cc
drop-next (suc i) (x ∷ xs) h = drop-next i xs h

take-front : (w r : Text) → take (length w) (w ++ r) ≡ w
take-front [] r = refl
take-front (c ∷ w) r = ap (λ s. c ∷ s) (take-front w r)

-- Where a text is cut.
abbrev pub cut : Text → Text × Text
cut s = (word_of s, after_word s)

pub cut-space : (c : ℕ) (rest : Text) → (c == space) ≡ true → cut (c ∷ rest) ≡ ([], rest)
cut-space c rest h = rw h refl

pub cut_letter :
    (c : ℕ) (rest : Text)
    → (c == space) ≡ false
    → cut (c ∷ rest) ≡ (c ∷ word_of rest, after_word rest)
cut_letter c rest h = rw h refl

pub kept_letter :
    (c : ℕ) (rest : Text) → (c == space) ≡ false → skip_separators (c ∷ rest) ≡ c ∷ rest
unfolding skip_separators
kept_letter c rest h = rw h refl

module _ (command : Text) (expected : ℕ) where
  scan_next :
      (c : ℕ) (rest : Text) (s : WordScan)
      → ltb (length s.parsed_words) expected ≡ true
      → scan_words command expected (c ∷ rest) s
        ≡ scan_words command expected rest (scan_char command c s)
  unfolding scan_words
  scan_next c rest s h = rw h refl

  scan_stops :
      (c : ℕ) (rest : Text) (s : WordScan)
      → ltb (length s.parsed_words) expected ≡ false
      → scan_words command expected (c ∷ rest) s ≡ (s, c ∷ rest)
  unfolding scan_words
  scan_stops c rest s h = rw h refl

  idle_space :
      (c : ℕ) (words : List Text) (b i : ℕ)
      → (c == space) ≡ true
      → scan_char command c (at_char words b 0 i) ≡ at_char words b 0 (i + 1)
  unfolding scan_char
  idle_space c words b i h = rw h refl

  idle_letter :
      (c : ℕ) (words : List Text) (b i : ℕ)
      → (c == space) ≡ false
      → scan_char command c (at_char words b 0 i) ≡ at_char words i 1 (i + 1)
  unfolding scan_char
  idle_letter c words b i h = rw h refl

  word_space :
      (c : ℕ) (words : List Text) (b k i : ℕ)
      → (c == space) ≡ true
      → scan_char command c (at_char words b (suc k) i)
        ≡ at_char (words ++ take (suc k) (drop b command) ∷ []) b 0 (i + 1)
  unfolding scan_char push_word
  word_space c words b k i h = rw (h, not_zero k) refl

  word_letter :
      (c : ℕ) (words : List Text) (b k i : ℕ)
      → (c == space) ≡ false
      → scan_char command c (at_char words b (suc k) i) ≡ at_char words b (suc (suc k)) (i + 1)
  unfolding scan_char
  word_letter c words b k i h =
      let one_more : suc k + 1 ≡ suc (suc k) = omega arith in
      rw (h, not_zero k) (ap (λ n. at_char words b n (i + 1)) one_more)

  -- Where the scan is: between two words, or inside the word `w`, which starts at `b`.
  record Between (words : List Text) (m i : ℕ) (rest : Text) : Type 0 where
    left : length words + m ≡ expected
    here : drop i command ≡ rest

  record Inside (words : List Text) (m b k i : ℕ) (w rest : Text) : Type 0 where
    left : length words + suc m ≡ expected
    here : drop i command ≡ rest
    word : drop b command ≡ w ++ rest
    long : suc k ≡ length w

  -- What the scan ends with, in the words of the splitter.
  abbrev Scans : WordScan → Text → List Text × Text → Type 0
  Scans s rest x = finish command (scan_words command expected rest s) ≡ x

  abbrev joined : List Text → List Text × Text → List Text × Text
  joined words x = (words ++ x.0, x.1)

  abbrev word_joined : List Text → Text → Text → List Text × Text → List Text × Text
  word_joined words w rest x = (words ++ (w ++ word_of rest) ∷ x.0, x.1)

  the_word :
      (words : List Text) (m b k i : ℕ) (w rest : Text)
      → Inside words m b k i w rest
      → take (suc k) (drop b command) ≡ w
  the_word words m b k i w rest p =
      ap (λ n. take n (drop b command)) p.long ∙ ap (take (length w)) p.word ∙ take-front w rest

  next_place :
      (i : ℕ) {c : ℕ} {rest : Text} → drop i command ≡ c ∷ rest → drop (i + 1) command ≡ rest
  next_place i {c} {rest} h =
      let one_more : i + 1 ≡ suc i = omega arith in
      ap (λ n. drop n command) one_more ∙ drop-next i command h

  abbrev BetweenScans : Text → Type 0
  BetweenScans rest =
      (words : List Text) (m b i : ℕ)
      → Between words m i rest
      → Scans (at_char words b 0 i) rest (joined words (split m rest))

  abbrev InsideScans : Text → Type 0
  InsideScans rest =
      (words : List Text) (m b k i : ℕ) (w : Text)
      → Inside words m b k i w rest
      → Scans (at_char words b (suc k) i) rest
          (word_joined words w rest (split m (after_word rest)))

  split_nil : (m : ℕ) → split m [] ≡ ([], [])
  unfolding split skip_separators
  split_nil zero = refl
  split_nil (suc m) = refl

  between_end : BetweenScans []
  unfolding scan_words
  between_end words m b i p =
      sym (ap (joined words) (split_nil m) ∙ ap (λ ws. (ws, [])) (++_nil words))

  inside_end : InsideScans []
  unfolding scan_words push_word
  inside_end words m b k i w p =
      let last : finish command (at_char words b (suc k) i, [])
          ≡ (words ++ take (suc k) (drop b command) ∷ [], []) =
        rw (not_zero k) refl in
      last
      ∙ ap (λ (v : Text). (words ++ v ∷ [], [])) (the_word words m b k i w [] p ∙ sym (++_nil w))
      ∙ sym (ap (word_joined words w []) (split_nil m))

  room :
      (words : List Text) (m : ℕ)
      → length words + suc m ≡ expected
      → ltb (length words) expected ≡ true
  room words m h = ground (arith, h)

  no_room : (words : List Text) → length words + 0 ≡ expected → ltb (length words) expected ≡ false
  no_room words h = ground (arith, h)

  full-Scans :
      (c : ℕ) (rest : Text) (words : List Text) (b i : ℕ)
      → length words + 0 ≡ expected
      → Scans (at_char words b 0 i) (c ∷ rest) (joined words (split zero (c ∷ rest)))
  unfolding split
  full-Scans c rest words b i h =
      ap (finish command) (scan_stops c rest (at_char words b 0 i) (no_room words h))
      ∙ ap (λ ws. (ws, c ∷ rest)) (sym (++_nil words))

  split-space :
      (c : ℕ) (rest : Text) (m : ℕ)
      → (c == space) ≡ true
      → split (suc m) (c ∷ rest) ≡ split (suc m) rest
  unfolding split skip_separators
  split-space c rest m h = rw h refl

  split_letter :
      (c : ℕ) (rest : Text) (m : ℕ)
      → (c == space) ≡ false
      → split (suc m) (c ∷ rest)
        ≡ ((c ∷ word_of rest) ∷ (split m (after_word rest)).0, (split m (after_word rest)).1)
  unfolding split
  split_letter c rest m h =
      ap (first_word (split m)) (kept_letter c rest h)
      ∙ ap (λ x. (x.0 ∷ (split m x.1).0, (split m x.1).1)) (cut_letter c rest h)

  pushed :
      (words : List Text) (w : Text) (m : ℕ)
      → length words + suc m ≡ expected
      → length (words ++ w ∷ []) + m ≡ expected
  pushed words w m h = rw (length-append words (w ∷ [])) (omega (arith, h))

  longer : (c : ℕ) (w : Text) (k : ℕ) → suc k ≡ length w → suc (suc k) ≡ length (w ++ c ∷ [])
  longer c w k h = rw (length-append w (c ∷ [])) (omega (arith, h))

  -- One character further.
  between_next :
      (c : ℕ) (rest : Text) → BetweenScans rest → InsideScans rest → BetweenScans (c ∷ rest)
  between_next c rest between inside words zero b i p = full-Scans c rest words b i p.left
  between_next c rest between inside words (suc m) b i p =
      let step =
        ap (finish command) (scan_next c rest (at_char words b 0 i) (room words m p.left)) in
      elim (Bool-cases (c == space)) [
        | inl is ↦
            step
            ∙ ap (λ s. finish command (scan_words command expected rest s))
                (idle_space c words b i is)
            ∙ between words (suc m) b (i + 1) record { left = p.left; here = next_place i p.here }
            ∙ ap (joined words) (sym (split-space c rest m is))
        | inr is ↦
            step
            ∙ ap (λ s. finish command (scan_words command expected rest s))
                (idle_letter c words b i is)
            ∙ inside words m i 0 (i + 1) (c ∷ [])
                record { left = p.left; here = next_place i p.here; word = p.here; long = refl }
            ∙ ap (joined words) (sym (split_letter c rest m is))
      ]

  inside_next :
      (c : ℕ) (rest : Text) → BetweenScans rest → InsideScans rest → InsideScans (c ∷ rest)
  inside_next c rest between inside words m b k i w p =
      let step =
        ap (finish command) (scan_next c rest (at_char words b (suc k) i) (room words m p.left)) in
      elim (Bool-cases (c == space)) [
        | inl is ↦
            step
            ∙ ap (λ s. finish command (scan_words command expected rest s))
                (word_space c words b k i is)
            ∙ ap
                (λ (v : Text).
                  finish command
                    (scan_words command expected rest (at_char (words ++ v ∷ []) b 0 (i + 1))))
                (the_word words m b k i w (c ∷ rest) p)
            ∙ between (words ++ w ∷ []) m b (i + 1)
                record { left = pushed words w m p.left; here = next_place i p.here }
            ∙ ap (λ ws. (ws, (split m rest).1)) (++_assoc words (w ∷ []) (split m rest).0)
            ∙ ap (λ (v : Text). (words ++ v ∷ (split m rest).0, (split m rest).1)) (sym (++_nil w))
            ∙ sym (
                ap (λ x. (words ++ (w ++ x.0) ∷ (split m x.1).0, (split m x.1).1))
                  (cut-space c rest is))
        | inr is ↦
            step
            ∙ ap (λ s. finish command (scan_words command expected rest s))
                (word_letter c words b k i is)
            ∙ inside words m b (suc k) (i + 1) (w ++ c ∷ []) record {
              left = p.left;
              here = next_place i p.here;
              word = p.word ∙ sym (++_assoc w (c ∷ []) rest);
              long = longer c w k p.long;
            }
            ∙ ap
                (λ (v : Text).
                  (words ++ v ∷ (split m (after_word rest)).0, (split m (after_word rest)).1))
                (++_assoc w (c ∷ []) (word_of rest))
            ∙ sym (
                ap (λ x. (words ++ (w ++ x.0) ∷ (split m x.1).0, (split m x.1).1))
                  (cut_letter c rest is))
      ]

  scans : (rest : Text) → BetweenScans rest × InsideScans rest
  scans [] = (between_end, inside_end)
  scans (c ∷ rest) =
      let (between, inside) = scans rest in
      (between_next c rest between inside, inside_next c rest between inside)

-- The constructor of the parser, which scans the command by indices, gives what cutting one word after
-- another gives: the same words, the same rest without the spaces in front, and the same error when
-- there are fewer words than expected, for every command and number of words.
pub new_parser-parsed_by_words :
    (command : Text) (expected : ℕ) → new_parser command expected ≡ parsed_by_words command expected
unfolding new_parser parsed_by_words
new_parser-parsed_by_words command expected =
    ap
      (λ x.
        if ltb (length x.0) expected
        then err (not_enough_words (length x.0) expected)
        else ok (record { parsed_words = x.0; unparsed_words = skip_separators x.1 }))
      ((scans command expected command).0 [] expected 0 0
        record { left = omega arith; here = refl })
