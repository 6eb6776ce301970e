-- ===== src/Maps/Lookup.antt =====
-- What is found in a map that was changed.
use rp_t_minigames_server.Prelude.{
  ℕ, ◌≡◌, ◌≢◌, refl, sym, ◌∙◌, ap, ◌⊎◌, inl, inr, true, false, Bool-cases, List, Option, none, some,
  ◌==◌, ==→≡, arith,
}
use rp_t_minigames_server.Maps.{find, insert, erase, adjust, map_option, find-erase, find-adjust}

pub same_value {ℓ} : {A : Type ℓ} {a b : A} → some a ≡ some b → a ≡ b
same_value h = cc

pub no_value {ℓ} : {A : Type ℓ} {a : A} → none ≢ some a
no_value h = cc

pub ==_self : (n : ℕ) → (n == n) ≡ true
==_self n = ground arith

pub ==_sym : (n k : ℕ) → (n == k) ≡ false → (k == n) ≡ false
==_sym n k h = ground (arith, h)

pub unequal : (n k : ℕ) → (n == k) ≡ false → n ≢ k
unequal n k h e = ground (arith, h, e)

pub values-differ :
    (t u : ℕ) (m : List (ℕ × ℕ)) {v w : ℕ}
    → find t m ≡ some v
    → find u m ≡ some w
    → (v == w) ≡ false
    → (t == u) ≡ false
values-differ t u m {v} {w} held there apart = elim (Bool-cases (t == u)) [
  | inr other ↦ other
  | inl same ↦
      absurd
        (unequal v w apart (same_value (sym held ∙ ap (λ x. find x m) (==→≡ t u same) ∙ there)))
]

module _ {V : Type 0} where
  pub adjust-other :
      (t u : ℕ) (f : V → V) (m : List (ℕ × V)) → (t == u) ≡ false → find u (adjust t f m) ≡ find u m
  adjust-other t u f m apart = find-adjust t u f m ∙ rw apart refl

  pub adjust-found :
      (t : ℕ) (f : V → V) (m : List (ℕ × V)) {v : V}
      → find t m ≡ some v
      → find t (adjust t f m) ≡ some (f v)
  adjust-found t f m h = find-adjust t t f m ∙ rw (==_self t) (ap (map_option f) h)

  -- A value of the changed map: the changed one of the key, or the one that was there.
  pub adjust-inv :
      (t u : ℕ) (f : V → V) (m : List (ℕ × V)) {v' : V}
      → find u (adjust t f m) ≡ some v'
      → (v : V) × (find u m ≡ some v) × (((t ≡ u) × (v' ≡ f v)) ⊎ (((t == u) ≡ false) × (v' ≡ v)))
  adjust-inv t u f m {v'} h = elim (Bool-cases (t == u)) [
    | inl same ↦
        let here : map_option f (find u m) ≡ some v' =
          sym (find-adjust t u f m ∙ rw same refl) ∙ h in
        let (v, old, new) = mapped (find u m) here in (v, old, inl (==→≡ t u same, new))
    | inr apart ↦ (v', sym (adjust-other t u f m apart) ∙ h, inr (apart, refl))
  ]
    where
      mapped : (o : Option V) {w : V} → map_option f o ≡ some w → (v : V) × (o ≡ some v) × (w ≡ f v)
      mapped none e = absurd (no_value e)
      mapped (some v) e = (v, refl, sym (same_value e))

  pub adjust-held :
      (t u : ℕ) (f : V → V) (m : List (ℕ × V)) {v : V}
      → find u m ≡ some v
      → (v' : V) × (find u (adjust t f m) ≡ some v')
  adjust-held t u f m {v} h = elim (Bool-cases (t == u)) [
    | inl same ↦ (f v, find-adjust t u f m ∙ rw same (ap (map_option f) h))
    | inr apart ↦ (v, adjust-other t u f m apart ∙ h)
  ]

  pub erase-inv :
      (t u : ℕ) (m : List (ℕ × V)) {v : V}
      → find u (erase t m) ≡ some v
      → ((t == u) ≡ false) × (find u m ≡ some v)
  erase-inv t u m h = elim (Bool-cases (t == u)) [
    | inl same ↦ absurd (no_value (sym (find-erase t u m ∙ rw same refl) ∙ h))
    | inr apart ↦ (apart, sym (find-erase t u m ∙ rw apart refl) ∙ h)
  ]

  pub erase-other : (t u : ℕ) (m : List (ℕ × V)) → (t == u) ≡ false → find u (erase t m) ≡ find u m
  erase-other t u m apart = find-erase t u m ∙ rw apart refl

  -- An insertion under a key that is not there.
  pub insert-inv :
      (t u : ℕ) (w : V) (m : List (ℕ × V)) {v : V}
      → find u (insert t w m) ≡ some v
      → ((t ≡ u) × (v ≡ w)) ⊎ (((t == u) ≡ false) × (find u m ≡ some v))
  unfolding find
  insert-inv t u w m h = elim (Bool-cases (t == u)) [
    | inl same ↦ inl (==→≡ t u same, ground (arith, same, h))
    | inr apart ↦ inr (apart, ground (arith, apart, h))
  ]

  pub insert-other :
      (t u : ℕ) (w : V) (m : List (ℕ × V)) → (t == u) ≡ false → find u (insert t w m) ≡ find u m
  unfolding find
  insert-other t u w m apart = rw apart refl

  pub insert-found : (t : ℕ) (w : V) (m : List (ℕ × V)) → find t (insert t w m) ≡ some w
  unfolding find
  insert-found t w m = rw (==_self t) refl

  -- Two keys of which one is there and the other is not, or which hold different values, differ.
  pub keys-differ :
      (t u : ℕ) (m : List (ℕ × V)) {v : V} → find t m ≡ none → find u m ≡ some v → (t == u) ≡ false
  keys-differ t u m absent held = elim (Bool-cases (t == u)) [
    | inr apart ↦ apart
    | inl same ↦ absurd (no_value (sym absent ∙ ap (λ x. find x m) (==→≡ t u same) ∙ held))
  ]
