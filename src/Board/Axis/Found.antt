-- ===== src/Board/Axis/Found.antt =====
-- Where the scan of an axis finds the destination, and what moving forward reads.
use rp_t_minigames_server.Prelude.{
  ℕ, zero, suc, ◌+◌, ◌-◌, ◌≤◌, ◌<◌, ◌≡◌, refl, ◌∙◌, ◌⊎◌, inl, inr, true, false, List, [], ◌∷◌,
  Option, none, some, arith, if◌then◌else◌, length, get_elem?, get_elem?-lt, Bool-cases,
  Option-cases, sym, ap, subst,
}
use rp_t_minigames_server.Prelude.Int.{ℤ, pos, negate, to_int, eqb_ℤ, eqb_ℤ_iff}
use rp_t_minigames_server.Outcome.{ok, Result-cases, bind, bind-eq-ok}
use rp_t_minigames_server.Board.Grid.{Grid, Coordinates, coordinates_eq, is_inside_grid}
use rp_t_minigames_server.Board.Grid.Cells.{IsValid, Coordinates-eq}
use rp_t_minigames_server.Board.Axis.{
  AxisIterator, AxisType, DirectionVector, moves, scan, scan_fuel, initialize_axis, new_axis,
  axis_between, move_forward, distance_from_destination, is_allowed, direction_for,
}

pub coordinates_eq_sound : (p q : Coordinates) → coordinates_eq p q ≡ true → p ≡ q
coordinates_eq_sound p q e =
    Coordinates-eq p q ((eqb_ℤ_iff p.line q.line).0 (ground arith))
      ((eqb_ℤ_iff p.column q.column).0 (ground arith))

-- One round of the scan.
scan-step :
    (fuel : ℕ) (g : Grid) (v : DirectionVector) (to sq : Coordinates) (n : ℕ) (dest : Option ℕ)
    {x : List Coordinates × Option ℕ}
    → scan (suc fuel) g v to sq n dest ≡ ok x
    → ((is_inside_grid g sq ≡ false) × (x ≡ ([], dest)))
      ⊎ ((rest : List Coordinates × Option ℕ) × (is_inside_grid g sq ≡ true)
          × (scan fuel g v to (moves v sq) (n + 1) (if coordinates_eq sq to then some n else dest)
              ≡ ok rest)
          × (x ≡ (sq ∷ rest.0, rest.1)))
unfolding scan
scan-step fuel g v to sq n dest e = elim (Bool-cases (is_inside_grid g sq)) [
  | inr out ↦ inl (out, ground arith)
  | inl inside ↦
      elim (Result-cases
        (scan fuel g v to (moves v sq) (n + 1) (if coordinates_eq sq to then some n else dest))) [
          | inl (rest, r) ↦ inr (rest, inside, r, ground arith)
          | inr (_, r) ↦ absurd (ground arith)
        ]
]

-- What the scan leaves as the position of the destination is where its list has it, or what it
-- had been given.
Finds : Coordinates → ℕ → Option ℕ → List Coordinates × Option ℕ → Type 0
Finds to n dest x =
    (k : ℕ) → x.1 ≡ some k → (dest ≡ some k) ⊎ ((n ≤ k) × (get_elem? x.0 (k - n) ≡ some to))

shifted :
    (x : List Coordinates × Option ℕ) (sq : Coordinates) (rest : List Coordinates × Option ℕ)
    (n k : ℕ) {to : Coordinates}
    → x ≡ (sq ∷ rest.0, rest.1)
    → n + 1 ≤ k
    → get_elem? rest.0 (k - (n + 1)) ≡ some to
    → get_elem? x.0 (k - n) ≡ some to
shifted x sq rest n k same late held =
    let next : k - n ≡ suc (k - (n + 1)) = omega arith in
    rw (ap (λ (y : List Coordinates × Option ℕ). y.0) same, next) held

first :
    (x : List Coordinates × Option ℕ) (sq : Coordinates) (rest : List Coordinates × Option ℕ)
    (n k : ℕ)
    → x ≡ (sq ∷ rest.0, rest.1)
    → n ≡ k
    → get_elem? x.0 (k - n) ≡ some sq
first x sq rest n k same at_n =
    let none_left : k - n ≡ zero = omega arith in
    rw (ap (λ (y : List Coordinates × Option ℕ). y.0) same, none_left)

scan-Finds :
    (fuel : ℕ) (g : Grid) (v : DirectionVector) (to sq : Coordinates) (n : ℕ) (dest : Option ℕ)
    {x : List Coordinates × Option ℕ}
    → scan fuel g v to sq n dest ≡ ok x
    → Finds to n dest x
unfolding Finds
scan-Finds zero g v to sq n dest e k found = unfold scan in cc
scan-Finds (suc fuel) g v to sq n dest {x} e k found = elim (scan-step fuel g v to sq n dest e) [
  | inl (_, same) ↦ inl (sym (ap (λ (y : List Coordinates × Option ℕ). y.1) same) ∙ found)
  | inr (rest, _, r, same) ↦
      let met = coordinates_eq sq to in
      let later : rest.1 ≡ some k =
        sym (ap (λ (y : List Coordinates × Option ℕ). y.1) same) ∙ found in
      let ih =
        scan-Finds fuel g v to (moves v sq) (n + 1) (if met then some n else dest) r k later in
      elim ih [
        | inr (late, held) ↦ inr (omega arith, shifted x sq rest n k same late held)
        | inl h ↦ elim (Bool-cases met) [
          | inr other ↦ inl (ground arith)
          | inl here ↦
              let at_n : n ≡ k = ground arith in
              inr (
                omega arith,
                first x sq rest n k same at_n ∙ ap some (coordinates_eq_sound sq to here),
              )
        ]
      ]
]

scan-length :
    (fuel : ℕ) (g : Grid) (v : DirectionVector) (to sq : Coordinates) (n : ℕ) (dest : Option ℕ)
    {x : List Coordinates × Option ℕ}
    → scan fuel g v to sq n dest ≡ ok x
    → length x.0 ≤ fuel
scan-length zero g v to sq n dest e = unfold scan in cc
scan-length (suc fuel) g v to sq n dest {x} e = elim (scan-step fuel g v to sq n dest e) [
  | inl (_, same) ↦ omega (arith, ap (λ (y : List Coordinates × Option ℕ). length y.0) same)
  | inr (rest, _, r, same) ↦ omega (
    arith,
    ap (λ (y : List Coordinates × Option ℕ). length y.0) same,
    scan-length fuel g v to (moves v sq) (n + 1) _ r,
  )
]

-- What an iterator on a writable grid has after its construction.
pub record Made (g : Grid) (from to : Coordinates) (it : AxisIterator) : Type 0 where
  pub writable : it.mutable_grid ≡ true
  pub at_start : it.current_pos ≡ 0
  pub short : length it.axis ≤ scan_fuel g
  pub found : (k : ℕ) → it.destination_pos ≡ some k → get_elem? it.axis k ≡ some to

abbrev pub built : AxisType → List Coordinates × Option ℕ → AxisIterator
built d x = record {
  mutable_grid = true;
  direction = d;
  axis = x.0;
  const_axis = [];
  current_pos = 0;
  destination_pos = x.1;
}

-- What the construction has tested, and what it has scanned.
pub record Construction (g : Grid) (from to : Coordinates) (allowed : List AxisType)
    (it : AxisIterator) : Type 0 where
  pub d : AxisType
  pub x : List Coordinates × Option ℕ
  pub between : axis_between from to ≡ ok d
  pub from_inside : is_inside_grid g from ≡ true
  pub to_inside : is_inside_grid g to ≡ true
  pub is_one : is_allowed d allowed ≡ true
  pub scanned : scan (scan_fuel g) g (direction_for d) to from 0 none ≡ ok x
  pub made : it ≡ built d x

initialize_axis-tests :
    (g : Grid) (from to : Coordinates) (allowed : List AxisType) (d : AxisType)
    {x : List Coordinates × Option ℕ}
    → initialize_axis g from to allowed d ≡ ok x
    → (is_inside_grid g from ≡ true)
      × (is_inside_grid g to ≡ true)
      × (is_allowed d allowed ≡ true)
      × (scan (scan_fuel g) g (direction_for d) to from 0 none ≡ ok x)
unfolding initialize_axis
initialize_axis-tests g from to allowed d e = ground arith

new_axis-built :
    (g : Grid) (from to : Coordinates) (allowed : List AxisType)
    → new_axis true g from to allowed
      ≡ bind
          (axis_between from to)
          (λ d. bind (initialize_axis g from to allowed d) (λ x. ok (built d x)))
unfolding new_axis
new_axis-built g from to allowed = refl

pub new_axis-Construction :
    (g : Grid) (from to : Coordinates) (allowed : List AxisType) {it : AxisIterator}
    → new_axis true g from to allowed ≡ ok it
    → Construction g from to allowed it
new_axis-Construction g from to allowed {it} e =
    let (d, between, e1) =
      bind-eq-ok (axis_between from to)
        (λ d. bind (initialize_axis g from to allowed d) (λ x. ok (built d x)))
        (sym (new_axis-built g from to allowed) ∙ e) in
    let (x, init, e2) = bind-eq-ok (initialize_axis g from to allowed d) (λ x. ok (built d x)) e1 in
    let tests = initialize_axis-tests g from to allowed d init in
    record {
      d = d;
      x = x;
      between = between;
      from_inside = tests.0;
      to_inside = tests.1;
      is_one = tests.2;
      scanned = tests.3;
      made = cc (e2);
    }

from_start :
    (x : List Coordinates × Option ℕ) (k : ℕ) {to : Coordinates}
    → Finds to 0 none x
    → x.1 ≡ some k
    → get_elem? x.0 k ≡ some to
unfolding Finds
from_start x k f h = elim (f k h) [
  | inl impossible ↦ cc
  | inr (_, held) ↦ let same : k - 0 ≡ k = omega arith in rw same at held
]

pub new_axis-Made :
    (g : Grid) (from to : Coordinates) (allowed : List AxisType) {it : AxisIterator}
    → new_axis true g from to allowed ≡ ok it
    → Made g from to it
new_axis-Made g from to allowed {it} e =
    let c = new_axis-Construction g from to allowed e in
    subst (Made g from to) (sym c.made) (record {
      writable = refl;
      at_start = refl;
      short = scan-length (scan_fuel g) g (direction_for c.d) to from 0 none c.scanned;
      found = λ k h.
          from_start c.x k (scan-Finds (scan_fuel g) g (direction_for c.d) to from 0 none c.scanned)
            h;
    })

-- A move forward on a writable grid reads the next square of the axis.
pub move_forward-next :
    (it : AxisIterator) {next : AxisIterator × Coordinates}
    → move_forward it ≡ ok next
    → (next.0 ≡ record it { current_pos = it.current_pos + 1 })
      × (get_elem? it.axis (it.current_pos + 1) ≡ some next.1)
unfolding move_forward
move_forward-next it e = elim (Option-cases (get_elem? it.axis (it.current_pos + 1))) [
  | inl past ↦ absurd (ground arith)
  | inr (square, held) ↦ ground arith
]

-- The second move from the start reads the third square.
pub landing :
    (move it it' : AxisIterator) (s d to : Coordinates)
    → move_forward move ≡ ok (it, s)
    → move_forward it ≡ ok (it', d)
    → move.current_pos ≡ 0
    → get_elem? move.axis 2 ≡ some to
    → d ≡ to
landing move it it' s d to m m' start second =
    let (moved_once, _) = move_forward-next move m in
    let (_, read) = move_forward-next it m' in
    let two : it.current_pos + 1 ≡ 2 =
      omega (arith, ap (λ (i : AxisIterator). i.current_pos) moved_once) in
    let same_axis = ap (λ (i : AxisIterator). i.axis) moved_once in
    let held : get_elem? it.axis 2 ≡ some d = rw two at read in
    cc (sym second, rw same_axis at held)

-- A distance of one or two, before the iterator moves, is the position of the destination.
pub distance-position :
    (it : AxisIterator) (n : ℕ) {distance : ℤ}
    → it.current_pos ≡ 0
    → length it.axis ≤ 53
    → ((k : ℕ) → it.destination_pos ≡ some k → k < 53)
    → distance_from_destination it ≡ ok distance
    → 0 < n
    → n < 53
    → eqb_ℤ (negate distance) (pos n) ≡ true
    → it.destination_pos ≡ some n
unfolding distance_from_destination to_int
distance-position it n at_start short bound e pos_n small h =
    elim (Option-cases it.destination_pos) [
      | inl unset ↦ absurd (ground arith)
      | inr (k, set_to) ↦ ground (arith, bound k set_to)
    ]

-- On a valid grid the destination that lies one or two squares away is there on the axis.
pub destination-near :
    (g : Grid) (from to : Coordinates) (it : AxisIterator) (n : ℕ) {distance : ℤ}
    → IsValid g
    → Made g from to it
    → distance_from_destination it ≡ ok distance
    → 0 < n
    → n < 53
    → eqb_ℤ (negate distance) (pos n) ≡ true
    → get_elem? it.axis n ≡ some to
destination-near g from to it n valid m e some_way near h = m.found n (
    distance-position it n m.at_start short
      (λ k set_to. omega (arith, get_elem?-lt it.axis k (m.found k set_to))) e some_way near h)
  where
    short : length it.axis ≤ 53
    short = omega (arith, m.short, valid.few_lines, valid.few_columns)
