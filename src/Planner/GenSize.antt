-- ===== src/Planner/GenSize.antt =====
-- What a generation workflow still has to generate, and the size of its jobs.
use mathlib.Core.Path.{subst}
use native.Mathlib.Nat.{div-mul-le_self, lt-div-mul-add}
use condora.Base.{
  ℕ, suc, Option, none, some, ◌≡◌, refl, ◌⊎◌, inl, inr, ◌+◌, ◌*◌, ◌/◌, ◌<◌, ◌≤◌, ◌==◌, ◌&&◌, true,
  false, max, if◌then◌else◌, ltb, nat_eq, Bool-cases, Option-cases, arith,
}
use condora.Planner.{
  Fraction, is_proper, is_below_one, is_less, scale, target_output, GenInput, effective_fraction,
  events_per_job, remaining_output, remaining_events,
}

-- `max(1, int(n * f))`
abbrev pub IsScaled : ℕ → Fraction → ℕ → Type 0
IsScaled n f m =
    ((m * f.den ≤ n * f.num) × (n * f.num < suc m * f.den)) ⊎ ((n * f.num < f.den) × (m ≡ 1))

scale-IsScaled : (n : ℕ) (f : Fraction) → 0 < f.den → IsScaled n f (max 1 (scale n f))
unfolding scale
scale-IsScaled n f pos =
    let q = n * f.num / f.den in
    let low : q * f.den ≤ n * f.num = div-mul-le_self (n * f.num) f.den in
    let high : n * f.num < q * f.den + f.den = lt-div-mul-add {a = n * f.num} {b = f.den} pos in
    elim (Bool-cases (q == 0)) [
      | inl nothing ↦
          let at : q ≡ 0 = ground (arith, nothing) in
          rw at (inr (omega (arith, rw at at high), refl))
      | inr some_left ↦
          let at : max 1 q ≡ q = ground (arith, some_left) in rw at (inl (low, omega (arith, high)))
    ]

-- The share of a round: the part that a test runs; in round 0 that of the pilot, unless the test's is
-- smaller; and everything where neither is a proper fraction.
abbrev pub IsShare : GenInput → Option Fraction → Type 0
IsShare g none =
    (is_proper g.test_fraction ≡ false)
    × (g.current_round == 0 && is_proper g.pilot_fraction ≡ false)
IsShare g (some f) =
    ((is_proper g.test_fraction ≡ true)
      × ((f ≡ g.test_fraction)
          × (g.current_round == 0
                && (is_proper g.pilot_fraction && is_less g.pilot_fraction g.test_fraction)
              ≡ false)))
    ⊎ ((g.current_round == 0 && is_proper g.pilot_fraction ≡ true)
        × ((f ≡ g.pilot_fraction)
            × (is_proper g.test_fraction && is_less g.test_fraction g.pilot_fraction ≡ false)))

not_both_less : (f g : Fraction) → is_less f g ≡ true → is_less g f ≡ false
not_both_less f g less = ground (arith, less)

pub effective_fraction-IsShare :
    (g : GenInput) → IsShare g (effective_fraction g.current_round g.pilot_fraction g.test_fraction)
unfolding effective_fraction
effective_fraction-IsShare g = elim (Bool-cases (g.current_round == 0)) [
  | inr later ↦ elim (Bool-cases (is_proper g.test_fraction)) [
    | inl tested ↦ rw (later, tested) (inl (tested, (refl, ground (arith, later))))
    | inr full ↦ rw (later, full) (full, ground (arith, later))
  ]
  | inl first ↦ elim (Bool-cases (is_proper g.pilot_fraction)) [
    | inr no_pilot ↦ elim (Bool-cases (is_proper g.test_fraction)) [
      | inl tested ↦ rw (first, no_pilot, tested) (inl (tested, (refl, ground (arith, no_pilot))))
      | inr full ↦ rw (first, no_pilot, full) (full, ground (arith, no_pilot))
    ]
    | inl pilot ↦ elim (Bool-cases (is_proper g.test_fraction)) [
      | inr full ↦
          rw (first, pilot, full) (inr (ground (arith, first, pilot), (refl, ground (arith, full))))
      | inl tested ↦ elim (Bool-cases (is_less g.test_fraction g.pilot_fraction)) [
        | inl less ↦
            rw (first, pilot, tested, less)
              (inl (
                tested,
                (refl, ground (arith, not_both_less g.test_fraction g.pilot_fraction less)),
              ))
        | inr not_less ↦
            rw (first, pilot, tested, not_less)
              (inr (ground (arith, first, pilot), (refl, ground (arith, not_less))))
      ]
    ]
  ]
]

share-den : (g : GenInput) (f : Fraction) → IsShare g (some f) → 0 < f.den
share-den g f (inl (tested, (at, _))) = rw at (ground (arith, tested))
share-den g f (inr (pilot, (at, _))) = rw at (ground (arith, pilot))

-- The events of a job: as asked for, or 100000, in the share of the round.
abbrev pub asked_events : GenInput → ℕ
asked_events g = if g.params_events_per_job == 0 then 100000 else g.params_events_per_job

abbrev pub IsJobSize : GenInput → Option Fraction → ℕ → Type 0
IsJobSize g none size = size ≡ asked_events g
IsJobSize g (some f) size = IsScaled (asked_events g) f size

pub events_per_job-IsJobSize :
    (g : GenInput)
    → IsJobSize g
        (effective_fraction g.current_round g.pilot_fraction g.test_fraction)
        (events_per_job g)
unfolding events_per_job
events_per_job-IsJobSize g =
    elim (Option-cases (effective_fraction g.current_round g.pilot_fraction g.test_fraction)) [
      | inl whole ↦ rw (whole, events_per_job) refl
      | inr (f, scaled) ↦
          rw (scaled, events_per_job)
            (scale-IsScaled (asked_events g) f
              (share-den g f (subst (IsShare g) scaled (effective_fraction-IsShare g))))
    ]

-- The output that is asked for, in a test the part of it.
abbrev pub IsTarget : GenInput → ℕ → Type 0
IsTarget g target =
    ((is_proper g.test_fraction && ltb 0 g.request_num_events ≡ true)
      × IsScaled g.request_num_events g.test_fraction target)
    ⊎ ((is_proper g.test_fraction && ltb 0 g.request_num_events ≡ false)
        × (target ≡ g.request_num_events))

pub target_output-IsTarget : (g : GenInput) → IsTarget g (target_output g)
unfolding target_output
target_output-IsTarget g =
    elim (Bool-cases (is_proper g.test_fraction && ltb 0 g.request_num_events)) [
      | inl in_test ↦ rw in_test (
          inl (refl, scale-IsScaled g.request_num_events g.test_fraction (ground (arith, in_test))))
      | inr full ↦ rw full (inr (refl, refl))
    ]

-- The events to generate for so much output: the quotient by the filter efficiency, rounded down.
abbrev pub IsNeeded : Fraction → ℕ → ℕ → Type 0
IsNeeded efficiency output n =
    ((efficiency.num < efficiency.den)
      × ((n * efficiency.num ≤ output * efficiency.den)
          × (output * efficiency.den < suc n * efficiency.num)))
    ⊎ ((efficiency.den ≤ efficiency.num) × (n ≡ output))

pub remaining_events-cases :
    (g : GenInput)
    → ((remaining_events g ≡ none) × (g.filter_efficiency.num ≡ 0))
      ⊎ ((n : ℕ) × ((remaining_events g ≡ some n)
            × IsNeeded g.filter_efficiency (remaining_output g) n))
unfolding remaining_events
remaining_events-cases g =
    let e = g.filter_efficiency in
    let out = remaining_output g * e.den in
    elim (Bool-cases (is_below_one e)) [
      | inr whole ↦ rw whole (inr (remaining_output g, (refl, inr (ground (arith, whole), refl))))
      | inl below ↦ rw below (elim (Bool-cases (e.num == 0)) [
        | inl nothing ↦ rw nothing (inl (refl, ground (arith, nothing)))
        | inr positive ↦
            let pos : 0 < e.num = ground (arith, positive) in
            let low : out / e.num * e.num ≤ out = div-mul-le_self out e.num in
            let high : out < out / e.num * e.num + e.num =
              lt-div-mul-add {a = out} {b = e.num} pos in
            rw positive
              (inr (out / e.num, (refl, inl (ground (arith, below), (low, omega (arith, high))))))
      ])
    ]
