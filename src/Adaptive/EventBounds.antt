-- ===== src/Adaptive/EventBounds.antt =====
-- How far the events of a job move in a round.
use condora.Base.{
  ℕ, zero, suc, false, ◌⊎◌, some, ◌≡◌, refl, inl, inr, ◌+◌, ◌*◌, ◌/◌, ◌%◌, ◌≤◌, ◌<◌, ◌==◌, ◌||◌,
  not, ltb, max, nat_eq, Bool-cases, arith,
}
use native.Mathlib.Nat.{mul-le-mul_left, mul-le-mul_right, le_of_mul-le-mul_left}
use condora.Planner.{Fraction, is_less}
use condora.Fractions.{whole, is_positive, minus, over, greater, smaller, nearest}
use condora.Adaptive.{Metrics}
use condora.Adaptive.Throughput.{
  ThroughputOptimization, optimize_for, total_median_wall, tuned_events,
  compute_throughput_optimization,
}

parity : (q : ℕ) → (q % 2 ≡ 0) ⊎ (q % 2 ≡ 1)
parity q = ground arith

-- The quotient where the rest is at most one half, and the next number where it is at least that.
nearest-cases :
    (f : Fraction)
    → ((nearest f ≡ f.num / f.den) × (2 * (f.num % f.den) ≤ f.den))
      ⊎ ((nearest f ≡ suc (f.num / f.den)) × (f.den ≤ 2 * (f.num % f.den)))
unfolding nearest
nearest-cases f = elim (Bool-cases (ltb (2 * (f.num % f.den)) f.den)) [
  | inl below ↦ rw below (inl (refl, ground arith))
  | inr not_below ↦ elim (Bool-cases (ltb f.den (2 * (f.num % f.den)))) [
    | inl above ↦ rw (not_below, above) (inr (omega arith, ground arith))
    | inr not_above ↦ elim (parity (f.num / f.den)) [
      | inl even ↦ rw (not_below, not_above) (inl (omega (arith, even), ground arith))
      | inr odd ↦ rw (not_below, not_above) (inr (omega (arith, odd), ground arith))
    ]
  ]
]

-- A rounded fraction is at most one half away.
nearest-le : (f : Fraction) → 2 * (f.den * nearest f) ≤ 2 * f.num + f.den
nearest-le f = elim (nearest-cases f) [
  | inl (at, half) ↦ rw at (omega arith)
  | inr (at, half) ↦ rw at (omega (arith, half))
]

nearest-ge : (f : Fraction) → 0 < f.den → 2 * f.num ≤ 2 * (f.den * nearest f) + f.den
nearest-ge f one = elim (nearest-cases f) [
  | inl (at, half) ↦ rw at (omega (arith, half))
  | inr (at, half) ↦ rw at (omega (arith, one))
]

-- The clamped value stands between the bounds, if these are in order.
clamped_le :
    (lower ideal upper : Fraction)
    → 0 < lower.den
    → is_less upper lower ≡ false
    → let x = greater lower (smaller ideal upper) in x.num * upper.den ≤ upper.num * x.den
clamped_le lower ideal upper d ordered = ground arith

clamped_ge :
    (lower ideal upper : Fraction)
    → let x = greater lower (smaller ideal upper) in lower.num * x.den ≤ x.num * lower.den
clamped_ge lower ideal upper = ground arith

clamped-positive :
    (lower ideal upper : Fraction)
    → 0 < lower.den
    → 0 < ideal.den
    → 0 < upper.den
    → 0 < (greater lower (smaller ideal upper)).den
clamped-positive lower ideal upper a b c = ground arith

-- The two bounds, multiplied by a denominator `d`.
scaled_up :
    (d n r b : ℕ)
    → n * 1 ≤ b * d
    → 2 * (d * 100 * r) ≤ 2 * (n * 1) + d * 100
    → d * (r * 100) ≤ d * (b + 50)
scaled_up d n r b bound rounded = grind (arith, bound, rounded)

scaled_down :
    (d n r c k : ℕ)
    → c * 1 * d ≤ n * (1 * k)
    → 2 * (n * 1) ≤ 2 * (d * 100 * r) + d * 100
    → d * c ≤ d * (k * (r * 100 + 50))
scaled_down d n r c k bound rounded =
    let half : n ≤ d * (r * 100 + 50) = grind (arith, rounded) in
    let times_k : n * k ≤ d * (r * 100 + 50) * k = mul-le-mul_right k half in
    grind (arith, bound, times_k)

squared_ge : (c k : ℕ) → 0 < k → c ≤ c * k * k
squared_ge c k one = omega (arith, mul-le-mul_left c one, mul-le-mul_left (c * k) one)

module _ (c k m : ℕ) (ideal : Fraction) (some_change : 0 < k) (positive_den : 0 < ideal.den) where
  abbrev lower : Fraction
  lower = over (whole c) (whole k)

  abbrev upper : Fraction
  upper = whole (c * k)

  abbrev clamped : Fraction
  clamped = greater lower (smaller ideal upper)

  clamped_den : 0 < clamped.den
  unfolding over
  clamped_den = clamped-positive lower ideal upper (omega arith) positive_den (omega arith)

  abbrev hundreds : ℕ
  hundreds = nearest (over clamped (whole 100))

  in_order : is_less upper lower ≡ false
  unfolding over
  in_order = ground (arith, squared_ge c k some_change)

  hundreds-le : hundreds * 100 ≤ c * k + 50
  unfolding over
  hundreds-le =
      let up = clamped_le lower ideal upper (omega arith) in_order in
      let rounded = nearest-le (over clamped (whole 100)) in
      let scaled : clamped.den * (hundreds * 100) ≤ clamped.den * (c * k + 50) =
        scaled_up clamped.den clamped.num hundreds (c * k) up rounded in
      le_of_mul-le-mul_left scaled clamped_den

  hundreds-ge : c ≤ k * (hundreds * 100 + 50)
  unfolding over
  hundreds-ge =
      let low = clamped_ge lower ideal upper in
      let rounded = nearest-ge (over clamped (whole 100)) (omega (arith, clamped_den)) in
      let scaled : clamped.den * c ≤ clamped.den * (k * (hundreds * 100 + 50)) =
        scaled_down clamped.den clamped.num hundreds c k low rounded in
      le_of_mul-le-mul_left scaled clamped_den

-- At least the floor; at most `max_change_factor` times as many as before, and 50 for the rounding,
-- or the floor; at least one part in `max_change_factor` of those before, less 50.
pub record IsModest (current max_change_factor min_events_per_job tuned : ℕ) : Type 0 where
  pub at_least : min_events_per_job ≤ tuned
  pub no_leap : tuned ≤ max min_events_per_job (current * max_change_factor + 50)
  pub no_drop : current ≤ max_change_factor * (tuned + 50)

tuned_events-IsModest :
    (c k m : ℕ) (ideal : Fraction)
    → 0 < k
    → 0 < ideal.den
    → IsModest c k m (tuned_events c k m ideal)
unfolding tuned_events
tuned_events-IsModest c k m ideal one positive_den =
    let up = hundreds-le c k m ideal one positive_den in
    let down = hundreds-ge c k m ideal one positive_den in
    let n = hundreds c k m ideal one positive_den in
    let more : n * 100 + 50 ≤ max m (n * 100) + 50 = omega arith in
    record {
      at_least = omega arith;
      no_leap = omega (arith, up);
      no_drop = omega (arith, down, mul-le-mul_left k more);
    }

positive_factor : (a b c : ℕ) → c < a * b → 0 < a
positive_factor zero b c lt = omega (arith, lt)
positive_factor (suc a) b c lt = omega arith

product_positive : (a b : ℕ) → 0 < a → 0 < b → 0 < a * b
product_positive a b ha hb = omega (arith, ha, mul-le-mul_left a hb)

known_events : (a n : ℕ) → 0 < a → 0 < n → (a == 0 || not (ltb 0 n)) ≡ false
known_events a n ha hn = ground arith

known_times : (a b : ℕ) → 0 < a → 0 < b → (not (ltb 0 a) || not (ltb 0 b)) ≡ false
known_times a b ha hb = ground arith

-- Where some events are run now, wall times are known, and the target is above the overhead of the
-- start, `compute_throughput_optimization` gives a number of events per job: not below the floor; up
-- to the rounding to hundreds, not above the number before times the factor, unless the floor is
-- above that; and not below the number before divided by the factor.
pub compute_throughput_optimization-IsModest :
    (current k m : ℕ) (startup target : Fraction) (merged : Metrics)
    → 0 < current
    → 0 < k
    → 0 < startup.den
    → 0 < target.den
    → 0 < (total_median_wall merged.steps).num
    → startup.num * target.den < target.num * startup.den
    → (o : ThroughputOptimization) × ((compute_throughput_optimization current startup k m merged
            target
          ≡ some o)
        × IsModest current k m o.tuned_events_per_job)
unfolding compute_throughput_optimization optimize_for minus over
compute_throughput_optimization-IsModest current k m startup target merged some_events one dens dent
      known above =
    let total = total_median_wall merged.steps in
    let available = minus target startup in
    let available_num : 0 < available.num = omega (arith, above) in
    let asked : (current == 0 || not (is_positive target)) ≡ false =
      known_events current target.num some_events
        (positive_factor target.num startup.den (startup.num * target.den) above) in
    let enough : (not (is_positive total) || not (is_positive available)) ≡ false =
      known_times total.num available.num known available_num in
    (
      optimize_for current startup k m total available,
      (
        rw (asked, enough) refl,
        tuned_events-IsModest current k m (over available (over total (whole current))) one (
            product_positive (target.den * startup.den) (total.num * 1)
              (product_positive target.den startup.den dent dens) (omega (arith, known))),
      ),
    )
