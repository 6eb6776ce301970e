-- ===== src/Maps.antt =====
-- The `std::unordered_map`s with 64-bit keys, as association lists.
pub mod Lookup
use rp_t_minigames_server.Prelude.{
  ℕ, ◌≡◌, refl, Bool, true, false, List, [], ◌∷◌, Option, none, some, text, ◌==◌, if◌then◌else◌,
  arith,
}
use rp_t_minigames_server.Outcome.{Result, ok, err, out_of_range}

module _ {V : Type 0} where
  unfoldable pub find : ℕ → List (ℕ × V) → Option V
  find k [] = none
  find k ((j, v) ∷ m) = if j == k then some v else find k m

  -- `insert` on a key that is not there. Its callers have tested that.
  abbrev pub insert : ℕ → V → List (ℕ × V) → List (ℕ × V)
  insert k v m = (k, v) ∷ m

  unfoldable pub erase : ℕ → List (ℕ × V) → List (ℕ × V)
  erase k [] = []
  erase k ((j, v) ∷ m) = let rest = erase k m in if j == k then rest else (j, v) ∷ rest

  -- An assignment through a reference to the value of a key.
  unfoldable pub adjust : ℕ → (V → V) → List (ℕ × V) → List (ℕ × V)
  adjust k f [] = []
  adjust k f ((j, v) ∷ m) =
      let rest = adjust k f m in if j == k then (j, f v) ∷ rest else (j, v) ∷ rest

  abbrev pub has_key : ℕ → List (ℕ × V) → Bool
  has_key k m = elim (find k m) [ none ↦ false | some v ↦ true ]

  -- `.at(k)`.
  abbrev pub found : Option V → Result V
  found none = err (out_of_range (text "_Map_base::at"))
  found (some v) = ok v

  abbrev pub at_key : ℕ → List (ℕ × V) → Result V
  at_key k m = found (find k m)

  pub find-erase :
      (k j : ℕ) (m : List (ℕ × V)) → find j (erase k m) ≡ (if k == j then none else find j m)
  unfolding find erase
  find-erase k j [] = ground arith
  find-erase k j ((i, v) ∷ m) = ground (arith, find-erase k j m)

  pub find-insert :
      (k j : ℕ) (v : V) (m : List (ℕ × V))
      → find j (insert k v m) ≡ (if k == j then some v else find j m)
  unfolding find
  find-insert k j v m = refl

  abbrev pub map_option : {W : Type 0} → (V → W) → Option V → Option W
  map_option f none = none
  map_option f (some v) = some (f v)

  pub find-adjust :
      (k j : ℕ) (f : V → V) (m : List (ℕ × V))
      → find j (adjust k f m) ≡ (if k == j then map_option f (find j m) else find j m)
  unfolding find adjust
  find-adjust k j f [] = ground arith
  find-adjust k j f ((i, v) ∷ m) = ground (arith, find-adjust k j f m)
