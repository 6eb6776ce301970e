-- ===== src/Board/Axis/Lines.antt =====
-- The construction of an iterator: between any two squares of an allowed axis it returns, and the
-- iterator has the destination at the number of moves that lead to it.
use rp_t_minigames_server.Prelude.{
  ℕ, zero, suc, ◌+◌, ◌-◌, ◌%◌, ◌^◌, ◌≤◌, ◌<◌, ◌≡◌, ◌≢◌, ◌⊎◌, inl, inr, refl, sym, ◌∙◌, ap, subst,
  arith, true, false, not, Bool, Bool-cases, ◌==◌, ◌&&◌, if◌then◌else◌, List, [], Option, none,
  some, length,
}
use rp_t_minigames_server.Prelude.Int.{pos, ◌-ℤ◌, eqb_ℤ, negate, to_int}
use rp_t_minigames_server.Outcome.{ok}
use rp_t_minigames_server.Board.Grid.{Grid, Coordinates, is_inside_grid, columns_of}
use rp_t_minigames_server.Board.Grid.Cells.{IsValid}
use rp_t_minigames_server.Board.Axis.{
  AxisType, AxisIterator, DirectionVector, moves, scan, scan_fuel, abs, axis_between, axis_flags,
  direction_for, is_allowed, initialize_axis, new_axis, distance_from_destination,
}
use rp_t_minigames_server.Board.Axis.Signs.{
  Sign, minus, level, plus, step, sign, gap, Leads, unit-step, step-Leads, vector,
  direction_for-vector,
}
use rp_t_minigames_server.Board.Axis.Reach.{
  square, InRange, InRange-inside, inside-InRange, remaining, vector-Advances, Way, scan-Way,
}

-- Where a number of moves leads.
pub travel : DirectionVector → ℕ → Coordinates → Coordinates
travel v zero p = p
travel v (suc k) p = travel v k (moves v p)

travel-Way :
    (g : Grid) (v : DirectionVector) (to : Coordinates) (k : ℕ) (p : Coordinates)
    → Way g v to k p
    → travel v k p ≡ to
unfolding travel
travel-Way g v to zero p w = w
travel-Way g v to (suc k) p w = travel-Way g v to k (moves v p) w.1

arrived : (s : Sign) (a b : ℕ) → Leads s 0 a b → a ≡ b
arrived minus a b l = omega (arith, l)
arrived level a b l = sym l
arrived plus a b l = omega (arith, l)

one_more : (s : Sign) (k a b : ℕ) → Leads s (suc k) a b → Leads s (k + 1) a b
one_more minus k a b l = omega (arith, l)
one_more level k a b l = l
one_more plus k a b l = omega (arith, l)

moves-square :
    (sx sy : Sign) (a b : ℕ)
    → 0 < a
    → 0 < b
    → moves (vector sx sy) (square a b) ≡ square (step sy a) (step sx b)
unfolding moves
moves-square sx sy a b ha hb = rw (unit-step sy a ha, unit-step sx b hb) refl

Leads-Way :
    (g : Grid) (sx sy : Sign) (k a b c d : ℕ)
    → InRange g a b
    → InRange g c d
    → Leads sy k a c
    → Leads sx k b d
    → Way g (vector sx sy) (square c d) k (square a b)
Leads-Way g sx sy zero a b c d r t ly lx = rw (arrived sy a c ly, arrived sx b d lx) refl
Leads-Way g sx sy (suc k) a b c d r t ly lx =
    let (la, ha, ly') =
      step-Leads sy k a c (length g.squares_matrix) r.0 r.1 t.0 t.1 (one_more sy k a c ly) in
    let (lb, hb, lx') =
      step-Leads sx k b d (columns_of g.squares_matrix) r.2 r.3 t.2 t.3 (one_more sx k b d lx) in
    (
      InRange-inside g a b r,
      subst (Way g (vector sx sy) (square c d) k) (sym (moves-square sx sy a b r.0 r.2))
          (Leads-Way g sx sy k (step sy a) (step sx b) c d (la, ha, lb, hb) t ly' lx'),
    )

-- The test of `axis_between` on the squares of a grid.
Aligned : ℕ → ℕ → ℕ → ℕ → Type 0
Aligned a b c d = (gap a c ≡ gap b d) ⊎ (a ≡ c) ⊎ (b ≡ d)

abs-gap : (a b : ℕ) → abs (pos b -ℤ pos a) ≡ pos (gap a b)
unfolding ◌-ℤ◌
abs-gap a b = ground arith

zero-gap : (a b : ℕ) → eqb_ℤ (pos b -ℤ pos a) (pos 0) ≡ (a == b)
unfolding ◌-ℤ◌
zero-gap a b = ground arith

equal-test :
    (x y : ℕ) (p q : Bool)
    → (not (eqb_ℤ (pos x) (pos y)) && not p && not q) ≡ false
    → p ≡ false
    → q ≡ false
    → x ≡ y
equal-test x y p q h hp hq = ground arith

test-Aligned :
    (a b c d : ℕ)
    → (not (eqb_ℤ (pos (gap b d)) (pos (gap a c))) && not (b == d) && not (a == c)) ≡ false
    → Aligned a b c d
unfolding Aligned
test-Aligned a b c d h = elim (Bool-cases (a == c)) [
  | inl e ↦ inr (inl (ground arith))
  | inr n ↦ elim (Bool-cases (b == d)) [
    | inl e ↦ inr (inr (ground arith))
    | inr o ↦ inl (sym (equal-test (gap b d) (gap a c) (b == d) (a == c) h o n))
  ]
]

axis_between-Aligned :
    (a b c d : ℕ) (flags : AxisType)
    → axis_between (square a b) (square c d) ≡ ok flags
    → Aligned a b c d × (direction_for flags ≡ vector (sign b d) (sign a c))
unfolding axis_between Aligned
axis_between-Aligned a b c d flags e =
    elim (Bool-cases (
      not (eqb_ℤ (abs (pos d -ℤ pos b)) (abs (pos c -ℤ pos a)))
      && not (eqb_ℤ (pos d -ℤ pos b) (pos 0))
      && not (eqb_ℤ (pos c -ℤ pos a) (pos 0)))) [
        | inl apart ↦ absurd (ground arith)
        | inr linked ↦
            let flagged : axis_flags (pos d -ℤ pos b) (pos c -ℤ pos a) ≡ flags = ground arith in
            (
              test-Aligned a b c d
                  (rw (abs-gap b d, abs-gap a c, zero-gap b d, zero-gap a c) at linked),
              ap direction_for (sym flagged) ∙ direction_for-vector b a d c,
            )
      ]

-- The number of moves between two squares.
abbrev distance : ℕ → ℕ → ℕ → ℕ → ℕ
distance a b c d = if a == c then gap b d else gap a c

sign-Leads : (k a b : ℕ) → (a ≡ b) ⊎ (gap a b ≡ k) → Leads (sign a b) k a b
sign-Leads k a b (inl e) = ground arith
sign-Leads k a b (inr e) = ground arith

Aligned-Leads :
    (a b c d : ℕ)
    → Aligned a b c d
    → Leads (sign a c) (distance a b c d) a c × Leads (sign b d) (distance a b c d) b d
unfolding Aligned
Aligned-Leads a b c d l = elim (Bool-cases (a == c)) [
  | inl e ↦
      let k : distance a b c d ≡ gap b d = rw e in
      (
        sign-Leads (distance a b c d) a c (inl (ground arith)),
        sign-Leads (distance a b c d) b d (inr (sym k)),
      )
  | inr n ↦
      let k : distance a b c d ≡ gap a c = rw n in
      (
        sign-Leads (distance a b c d) a c (inr (sym k)),
        sign-Leads (distance a b c d) b d (elim l [
          | inl same ↦ inr (sym same ∙ sym k)
          | inr (inl e) ↦ absurd (ground arith)
          | inr (inr e) ↦ inl e
        ]),
      )
]

fuel-remaining :
    (sx sy : Sign) (g : Grid) (a b : ℕ)
    → InRange g a b
    → remaining sx sy g (square a b) < scan_fuel g
fuel-remaining minus level g a b r = omega (arith, r.0, r.1, r.2, r.3)
fuel-remaining level level g a b r = omega (arith, r.0, r.1, r.2, r.3)
fuel-remaining plus level g a b r = omega (arith, r.0, r.1, r.2, r.3)
fuel-remaining sx minus g a b r = omega (arith, r.0, r.1, r.2, r.3)
fuel-remaining sx plus g a b r = omega (arith, r.0, r.1, r.2, r.3)

moving-sign : (a b c d : ℕ) → square a b ≢ square c d → (sign b d ≢ level) ⊎ (sign a c ≢ level)
moving-sign a b c d apart = elim (Bool-cases (b == d)) [
  | inr n ↦ inl (λ e. ground arith)
  | inl e ↦ elim (Bool-cases (a == c)) [
    | inr n ↦ inr (λ e. ground arith)
    | inl e' ↦ absurd (apart (ground arith))
  ]
]

moving-distance : (a b c d : ℕ) → square a b ≢ square c d → Aligned a b c d → 0 < distance a b c d
unfolding Aligned
moving-distance a b c d apart l = elim (Bool-cases (a == c)) [
  | inr n ↦ ground arith
  | inl e ↦ elim (Bool-cases (b == d)) [
    | inr n ↦ ground arith
    | inl e' ↦ absurd (apart (ground arith))
  ]
]

to_int-negative : (k : ℕ) → 0 < k → k < 53 → to_int ((0 + 2 ^ 64 - k) % 2 ^ 64) ≡ negate (pos k)
unfolding to_int
to_int-negative k pos_k small = ground arith

-- What an iterator from one square to another has, at its start.
abbrev pub Leading : Grid → Coordinates → Coordinates → AxisType → AxisIterator → Type 0
Leading g from to d it =
    (k : ℕ) × (0 < k)
    × (k ≤ 52)
    × (travel (direction_for d) k from ≡ to)
    × (it.destination_pos ≡ some k)
    × (it.current_pos ≡ 0)
    × (distance_from_destination it ≡ ok (negate (pos k)))

new_axis-scanned :
    (writable : Bool) (g : Grid) (from to : Coordinates) (allowed : List AxisType) (d : AxisType)
    (squares : List Coordinates) (dest : Option ℕ)
    → axis_between from to ≡ ok d
    → is_inside_grid g from ≡ true
    → is_inside_grid g to ≡ true
    → is_allowed d allowed ≡ true
    → scan (scan_fuel g) g (direction_for d) to from 0 none ≡ ok (squares, dest)
    → new_axis writable g from to allowed
      ≡ ok (record {
        mutable_grid = writable;
        direction = d;
        axis = if writable then squares else [];
        const_axis = if writable then [] else squares;
        current_pos = 0;
        destination_pos = dest;
      })
unfolding new_axis initialize_axis
new_axis-scanned writable g from to allowed d squares dest e f t a s = rw (e, f, t, a, s) refl

distance-lt :
    (g : Grid) (a b c e : ℕ) → IsValid g → InRange g a b → InRange g c e → distance a b c e < 53
distance-lt g a b c e v r t =
    ground (arith, v.few_lines, v.few_columns, r.0, r.1, r.2, r.3, t.0, t.1, t.2, t.3)

zero_plus : (k : ℕ) → 0 + k ≡ k
zero_plus k = omega arith

squares-Leading :
    (writable : Bool) (g : Grid) (a b c e : ℕ) (allowed : List AxisType) (d : AxisType)
    → IsValid g
    → InRange g a b
    → InRange g c e
    → axis_between (square a b) (square c e) ≡ ok d
    → is_allowed d allowed ≡ true
    → square a b ≢ square c e
    → (it : AxisIterator) × (new_axis writable g (square a b) (square c e) allowed ≡ ok it)
      × Leading g (square a b) (square c e) d it
unfolding distance_from_destination
squares-Leading writable g a b c e allowed d valid r t between allows apart =
    let k = distance a b c e in
    let (aligned, pointing) = axis_between-Aligned a b c e d between in
    let (ly, lx) = Aligned-Leads a b c e aligned in
    let v = vector (sign b e) (sign a c) in
    let way : Way g v (square c e) k (square a b) =
      Leads-Way g (sign b e) (sign a c) k a b c e r t ly lx in
    let positive : 0 < k = moving-distance a b c e apart aligned in
    let small : k < 53 = distance-lt g a b c e valid r t in
    let (squares, scanned) =
      scan-Way g v (square c e) (remaining (sign b e) (sign a c) g)
        (vector-Advances (sign b e) (sign a c) g (moving-sign a b c e apart)) (scan_fuel g) k
        (square a b) 0 none (InRange-inside g c e t) (fuel-remaining (sign b e) (sign a c) g a b r)
        way (omega (arith, positive)) in
    (
      record {
        mutable_grid = writable;
        direction = d;
        axis = if writable then squares else [];
        const_axis = if writable then [] else squares;
        current_pos = 0;
        destination_pos = some k;
      },
      new_axis-scanned writable g (square a b) (square c e) allowed d squares (some k) between
          (InRange-inside g a b r) (InRange-inside g c e t) allows
          (rw pointing (scanned ∙ ap (λ j. ok (squares, some j)) (zero_plus k))),
      (
        k,
        positive,
        omega (arith, small),
        rw pointing (travel-Way g v (square c e) k (square a b) way),
        refl,
        refl,
        ap ok (to_int-negative k positive small),
      ),
    )

-- Between two different squares inside a valid grid, on an axis that is allowed, the construction of an
-- iterator returns, for writing or not: its walk along the axis ends within the fuel. The destination is
-- then at the number of moves that leads there from the origin, at most 52, and the distance to it
-- reads as minus that number.
pub new_axis-Leading :
    (writable : Bool) (g : Grid) (from to : Coordinates) (allowed : List AxisType) (d : AxisType)
    → IsValid g
    → is_inside_grid g from ≡ true
    → is_inside_grid g to ≡ true
    → axis_between from to ≡ ok d
    → is_allowed d allowed ≡ true
    → from ≢ to
    → (it : AxisIterator) × (new_axis writable g from to allowed ≡ ok it) × Leading g from to d it
new_axis-Leading writable g from to allowed d valid f t between allows apart =
    let (a, b, from_is, r) = inside-InRange g from f in
    let (c, e, to_is, q) = inside-InRange g to t in
    let made =
      squares-Leading writable g a b c e allowed d valid r q
        (subst (λ p. axis_between p (square c e) ≡ ok d) from_is
          (subst (λ p. axis_between from p ≡ ok d) to_is between))
        allows (λ h. apart (from_is ∙ h ∙ sym to_is)) in
    subst
      (λ p. (it : AxisIterator) × (new_axis writable g p to allowed ≡ ok it) × Leading g p to d it)
      (sym from_is)
      (subst
        (λ p.
          (it : AxisIterator) × (new_axis writable g (square a b) p allowed ≡ ok it)
          × Leading g (square a b) p d it)
        (sym to_is) made)
