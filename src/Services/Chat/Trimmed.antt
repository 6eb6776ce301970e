-- ===== src/Services/Chat/Trimmed.antt =====
-- The spaces around a message of the chat.
use rp_t_minigames_server.Prelude.{
  ℕ, ◌≡◌, refl, ◌∙◌, ap, inl, inr, Bool-cases, true, false, ◌&&◌, [], ◌∷◌, ◌++◌, Text,
  if◌then◌else◌, is_empty,
}
use rp_t_minigames_server.Numbers.{is_space, skip_spaces}
use rp_t_minigames_server.Services.Chat.{trim, trim_end}

-- Nothing but spaces.
abbrev pub Spaces : Text → Type 0
Spaces [] = Unit {0}
Spaces (c ∷ s) = (is_space c ≡ true) × Spaces s

-- A last character, which is no space.
abbrev pub EndsVisible : Text → Type 0
EndsVisible [] = ⊥
EndsVisible (c ∷ []) = is_space c ≡ false
EndsVisible (c ∷ d ∷ s) = EndsVisible (d ∷ s)

-- No space at either end, and not empty.
abbrev pub Visible : Text → Type 0
Visible [] = ⊥
Visible (c ∷ s) = (is_space c ≡ false) × EndsVisible (c ∷ s)

skip_spaces-Spaces : (front s : Text) → Spaces front → skip_spaces (front ++ s) ≡ skip_spaces s
unfolding skip_spaces
skip_spaces-Spaces [] s p = refl
skip_spaces-Spaces (c ∷ front) s p = rw p.0 (skip_spaces-Spaces front s p.1)

skip_spaces-Visible : (core s : Text) → Visible core → skip_spaces (core ++ s) ≡ core ++ s
unfolding skip_spaces
skip_spaces-Visible [] s v = elim v [ ]
skip_spaces-Visible (c ∷ core) s v = rw v.0 refl

trim_end-Spaces : (back : Text) → Spaces back → trim_end back ≡ []
unfolding trim_end
trim_end-Spaces [] p = refl
trim_end-Spaces (c ∷ back) p = rw (trim_end-Spaces back p.1, p.0) refl

kept_space :
    (c d : ℕ) (s : Text) → (if is_space c && is_empty (d ∷ s) then [] else c ∷ d ∷ s) ≡ c ∷ d ∷ s
kept_space c d s = elim (Bool-cases (is_space c)) [
  | inl spaced ↦ rw spaced refl
  | inr visible ↦ rw visible refl
]

trim_end-EndsVisible :
    (core back : Text) → EndsVisible core → Spaces back → trim_end (core ++ back) ≡ core
unfolding trim_end
trim_end-EndsVisible [] back v p = elim v [ ]
trim_end-EndsVisible (c ∷ []) back v p = rw (trim_end-Spaces back p, v) refl
trim_end-EndsVisible (c ∷ d ∷ s) back v p =
    ap (λ (rest : Text). if is_space c && is_empty rest then [] else c ∷ rest)
      (trim_end-EndsVisible (d ∷ s) back v p)
    ∙ kept_space c d s

ends : (core : Text) → Visible core → EndsVisible core
ends [] v = v
ends (c ∷ s) v = v.1

pub trim-Visible :
    (front core back : Text)
    → Spaces front
    → Visible core
    → Spaces back
    → trim (front ++ (core ++ back)) ≡ core
unfolding trim
trim-Visible front core back p v q =
    ap trim_end (skip_spaces-Spaces front (core ++ back) p ∙ skip_spaces-Visible core back v)
    ∙ trim_end-EndsVisible core back (ends core v) q

pub trim-Spaces : (blank : Text) → Spaces blank → trim blank ≡ []
unfolding trim skip_spaces trim_end
trim-Spaces [] p = refl
trim-Spaces (c ∷ blank) p = rw p.0 (trim-Spaces blank p.1)

pub is_empty-Visible : (core : Text) → Visible core → is_empty core ≡ false
is_empty-Visible [] v = elim v [ ]
is_empty-Visible (c ∷ s) v = refl
