-- ===== src/Board/Axis/Signs.antt =====
-- The direction of an axis in one dimension: its sign, a step along it, and the squares it leads to.
use Prim.Native.Nat.{bit_or}
use rp_t_minigames_server.Prelude.{
  ℕ, ◌+◌, ◌-◌, ◌≤◌, ◌<◌, ◌≡◌, ◌≢◌, refl, arith, true, false, Bool, ltb, if◌then◌else◌,
}
use rp_t_minigames_server.Prelude.Int.{ℤ, pos, negsuc, pos_part, ◌+ℤ◌, ◌-ℤ◌, ltb_ℤ}
use rp_t_minigames_server.Board.Axis.{
  AxisType, up, down, left, right, DirectionVector, direction_for, has_flag_of, axis_flags,
}

pub data Sign : Type 0 where
  minus level plus : Sign

abbrev pub unit : Sign → ℤ
unit minus = negsuc 0
unit level = pos 0
unit plus = pos 1

abbrev pub step : Sign → ℕ → ℕ
step minus a = a - 1
step level a = a
step plus a = a + 1

-- The sign of the way from one coordinate to another, and their distance.
abbrev pub sign : ℕ → ℕ → Sign
sign a b = if ltb a b then plus else if ltb b a then minus else level

abbrev pub gap : ℕ → ℕ → ℕ
gap a b = if ltb a b then b - a else a - b

-- A coordinate that `k` steps lead to.
abbrev pub Leads : Sign → ℕ → ℕ → ℕ → Type 0
Leads minus k a b = b + k ≡ a
Leads level k a b = b ≡ a
Leads plus k a b = b ≡ a + k

pub unit-step : (s : Sign) (a : ℕ) → 0 < a → pos a +ℤ unit s ≡ pos (step s a)
unfolding ◌+ℤ◌
unit-step minus a h = ground arith
unit-step level a h = ground arith
unit-step plus a h = ground arith

-- A step towards a coordinate in range stays in range.
pub step-Leads :
    (s : Sign) (k a b n : ℕ)
    → 0 < a
    → a ≤ n
    → 0 < b
    → b ≤ n
    → Leads s (k + 1) a b
    → (0 < step s a) × (step s a ≤ n) × Leads s k (step s a) b
step-Leads minus k a b n a0 an b0 bn l = (omega arith, omega arith, omega arith)
step-Leads level k a b n a0 an b0 bn l = (a0, an, l)
step-Leads plus k a b n a0 an b0 bn l = (omega arith, omega arith, omega arith)

-- How many steps are left to the border.
abbrev pub left_over : Sign → ℕ → ℤ → ℕ
left_over minus n z = pos_part z
left_over level n z = 0
left_over plus n z = n + 1 - pos_part z

pub left_over-step :
    (s : Sign) (a n : ℕ)
    → s ≢ level
    → 0 < a
    → a ≤ n
    → left_over s n (pos a +ℤ unit s) < left_over s n (pos a)
unfolding ◌+ℤ◌
left_over-step minus a n e a0 an = ground arith
left_over-step level a n e a0 an = absurd (e refl)
left_over-step plus a n e a0 an = ground arith

-- The vector of an axis.
abbrev pub vector : Sign → Sign → DirectionVector
vector sx sy = record { x = unit sx; y = unit sy }

positive : (a b : ℕ) → ltb_ℤ (pos 0) (pos b -ℤ pos a) ≡ ltb a b
unfolding ◌-ℤ◌
positive a b = ground arith

negative : (a b : ℕ) → ltb_ℤ (pos b -ℤ pos a) (pos 0) ≡ ltb b a
unfolding ◌-ℤ◌
negative a b = ground arith

-- The flags by the four comparisons, and the vector that they stand for.
abbrev flags : Bool → Bool → Bool → Bool → AxisType
flags px nx py ny =
    let horizontal = if px then bit_or 0 right else if nx then bit_or 0 left else 0 in
    if py then bit_or horizontal down else if ny then bit_or horizontal up else horizontal

abbrev signed : Bool → Bool → Sign
signed p n = if p then plus else if n then minus else level

direction_for-flags :
    (px nx py ny : Bool) → direction_for (flags px nx py ny) ≡ vector (signed px nx) (signed py ny)
unfolding direction_for has_flag_of
direction_for-flags true nx true ny = refl
direction_for-flags true nx false true = refl
direction_for-flags true nx false false = refl
direction_for-flags false true true ny = refl
direction_for-flags false true false true = refl
direction_for-flags false true false false = refl
direction_for-flags false false true ny = refl
direction_for-flags false false false true = refl
direction_for-flags false false false false = refl

pub direction_for-vector :
    (ax ay bx by : ℕ)
    → direction_for (axis_flags (pos bx -ℤ pos ax) (pos by -ℤ pos ay))
      ≡ vector (sign ax bx) (sign ay by)
unfolding axis_flags
direction_for-vector ax ay bx by =
    rw (positive ax bx, negative ax bx, positive ay by, negative ay by)
      (direction_for-flags (ltb ax bx) (ltb bx ax) (ltb ay by) (ltb by ay))
