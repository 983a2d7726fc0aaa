-- ===== src/Adaptive/Power.antt =====
-- The power of two that `_nearest_power_of_2` gives.
use condora.Base.{
  ℕ, zero, suc, true, false, ◌≡◌, ◌⊎◌, inl, inr, ◌*◌, ◌≤◌, ◌<◌, Bool-cases, refl, arith,
}
use mathlib.Core.Path.{subst}
use native.Mathlib.Nat.{mul-le-mul_left, mul-le-mul_right}
use condora.Planner.{Fraction}
use condora.Fractions.{whole, is_at_most}
use condora.Adaptive.{is_near, power_from, nearest_power_of_2}

-- A power of two up to 64.
pub data IsPower : ℕ → Type 0 where
  one : IsPower 1
  twice : {p : ℕ} → IsPower p → p < 64 → IsPower (p * 2)

-- Above the geometric mean of `p / 2` and `p`, except at 1, and not above that of `p` and `2 * p`,
-- except at 64. Squares stand for the roots.
pub record IsNearest (n : Fraction) (p : ℕ) : Type 0 where
  pub power : IsPower p
  pub above : (p ≡ 1) ⊎ (p * p * (n.den * n.den) < 2 * (n.num * n.num))
  pub below : (p ≡ 64) ⊎ (n.num * n.num ≤ 2 * (p * p) * (n.den * n.den))

abbrev doubled : ℕ → ℕ → ℕ
doubled zero p = p
doubled (suc fuel) p = doubled fuel (p * 2)

doubled-ge : (fuel p : ℕ) → p ≤ doubled fuel p
doubled-ge zero p = omega arith
doubled-ge (suc fuel) p = omega (arith, doubled-ge fuel (p * 2))

pub positive : {p : ℕ} → IsPower p → 0 < p
positive one = omega arith
positive (twice power lt) = omega (arith, positive power)

module _ (n : Fraction) where
  abbrev d : ℕ
  d = n.den * n.den

  near : (p : ℕ) → is_near n p ≡ true → n.num * n.num ≤ 2 * (p * p) * d
  near p h = ground arith

  -- Not near `p`: above the mean of `p` and its double.
  far : (p : ℕ) → is_near n p ≡ false → p * 2 * (p * 2) * d < 2 * (n.num * n.num)
  far p h = let apart : 2 * (p * p) * d < n.num * n.num = ground arith in omega (arith, apart)

  -- A loop that goes so far ends at 64.
  power_from-IsNearest :
      (fuel p : ℕ)
      → IsPower p
      → doubled fuel p ≡ 64
      → (p ≡ 1) ⊎ (p * p * d < 2 * (n.num * n.num))
      → IsNearest n (power_from fuel p n)
  unfolding power_from
  power_from-IsNearest zero p power ends above = record {
    power = subst IsPower ends power;
    above = subst (λ q. (q ≡ 1) ⊎ (q * q * d < 2 * (n.num * n.num))) ends above;
    below = inl refl;
  }
  power_from-IsNearest (suc fuel) p power ends above = elim (Bool-cases (is_near n p)) [
    | inl close ↦ rw close (record { power = power; above = above; below = inr (near p close) })
    | inr apart ↦ rw apart (
        power_from-IsNearest fuel (p * 2)
          (twice power (omega (arith, positive power, doubled-ge fuel (p * 2), ends))) ends
          (inr (far p apart)))
  ]

-- `_nearest_power_of_2` gives a power of two from 1 to 64 that lies above the geometric mean with its
-- half, except at 1, and not above the one with its double, except at 64.
pub nearest_power_of_2-IsNearest : (n : Fraction) → IsNearest n (nearest_power_of_2 n)
unfolding nearest_power_of_2
nearest_power_of_2-IsNearest n = elim (Bool-cases (is_at_most n (whole 1))) [
  | inl small ↦
      let at_most : n.num ≤ n.den = ground arith in
      rw small (record {
        power = one;
        above = inl refl;
        below = inr (omega (arith, mul-le-mul_left n.num at_most, mul-le-mul_right n.den at_most));
      })
  | inr large ↦ rw large (power_from-IsNearest n 6 1 one refl (inl refl))
]
