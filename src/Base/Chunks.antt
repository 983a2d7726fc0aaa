-- ===== src/Base/Chunks.antt =====
-- `for i in range(0, len(xs), n): xs[i : i + n]`, for a positive step `n`.
use Prim.Native.Nat.{ℕ, zero, suc, ◌+◌, ◌*◌, ◌≤◌, ◌<◌}
use mathlib.Core.Path.{◌≡◌, refl}
use mathlib.Core.Logic.{◌⊎◌, inl, inr}
use mathlib.Core.List.{List, [], ◌∷◌, flatten}
use native.Mathlib.Omega.{arith}
use condora.Base.Lists.{length, take, drop, All, take-append-drop, length-take-le, length-drop}

mul-cases : (n k : ℕ) → (n * k ≡ 0) ⊎ (n ≤ n * k)
mul-cases n zero = inl (omega arith)
mul-cases n (suc k) = inr (omega arith)

module _ {ℓ} {A : Type ℓ} where
  -- The rounds of the loop; the fuel is the number of elements, which is never too little.
  unfoldable pub chunks_from : ℕ → ℕ → List A → List (List A)
  chunks_from fuel n [] = []
  chunks_from zero n (x ∷ xs) = []
  chunks_from (suc fuel) n (x ∷ xs) = take n (x ∷ xs) ∷ chunks_from fuel n (drop n (x ∷ xs))

  unfoldable pub chunks : ℕ → List A → List (List A)
  unfolding chunks_from
  chunks n xs = chunks_from (length xs) n xs

  flatten-chunks_from :
      (fuel n : ℕ) (xs : List A) → 0 < n → length xs ≤ fuel → flatten (chunks_from fuel n xs) ≡ xs
  unfolding chunks_from flatten
  flatten-chunks_from fuel n [] pos enough = refl
  flatten-chunks_from zero n (x ∷ xs) pos enough = absurd (omega arith)
  flatten-chunks_from (suc fuel) n (x ∷ xs) pos enough =
      rw (flatten-chunks_from fuel n (drop n (x ∷ xs)) pos (omega (arith, length-drop n (x ∷ xs))))
        (take-append-drop n (x ∷ xs))

  pub flatten-chunks : (n : ℕ) (xs : List A) → 0 < n → flatten (chunks n xs) ≡ xs
  unfolding chunks
  flatten-chunks n xs pos = flatten-chunks_from (length xs) n xs pos (omega arith)

  -- Not empty, and at most `n` long.
  abbrev pub IsChunk : ℕ → List A → Type 0
  IsChunk n c = (0 < length c) × (length c ≤ n)

  chunks_from-IsChunk : (fuel n : ℕ) (xs : List A) → 0 < n → All (IsChunk n) (chunks_from fuel n xs)
  unfolding chunks_from
  chunks_from-IsChunk fuel n [] pos = tt
  chunks_from-IsChunk zero n (x ∷ xs) pos = tt
  chunks_from-IsChunk (suc fuel) (suc n) (x ∷ xs) pos = (
    (omega arith, length-take-le (suc n) (x ∷ xs)),
    chunks_from-IsChunk fuel (suc n) (drop n xs) pos,
  )
  chunks_from-IsChunk (suc fuel) zero (x ∷ xs) pos = absurd (omega arith)

  pub chunks-IsChunk : (n : ℕ) (xs : List A) → 0 < n → All (IsChunk n) (chunks n xs)
  unfolding chunks
  chunks-IsChunk n xs pos = chunks_from-IsChunk (length xs) n xs pos

  -- All chunks but the last are full, so there are as many as the quotient, rounded up.
  length-chunks_from :
      (fuel n : ℕ) (xs : List A)
      → 0 < n
      → length xs ≤ fuel
      → (length xs ≤ n * length (chunks_from fuel n xs))
        × (n * length (chunks_from fuel n xs) < length xs + n)
  unfolding chunks_from
  length-chunks_from fuel n [] pos enough = (omega arith, omega arith)
  length-chunks_from zero n (x ∷ xs) pos enough = absurd (omega arith)
  length-chunks_from (suc fuel) n (x ∷ xs) pos enough =
      let ih =
        length-chunks_from fuel n (drop n (x ∷ xs)) pos (omega (arith, length-drop n (x ∷ xs))) in
      omega (
        arith,
        ih,
        length-drop n (x ∷ xs),
        mul-cases n (length (chunks_from fuel n (drop n (x ∷ xs)))),
      )

  pub length-chunks :
      (n : ℕ) (xs : List A)
      → 0 < n
      → (length xs ≤ n * length (chunks n xs)) × (n * length (chunks n xs) < length xs + n)
  unfolding chunks
  length-chunks n xs pos = length-chunks_from (length xs) n xs pos (omega arith)

  -- What holds of every element holds of every element of every chunk.
  All-take {κ} : (P : A → Type κ) (n : ℕ) (xs : List A) → All P xs → All P (take n xs)
  All-take P zero xs h = tt
  All-take P (suc n) [] h = tt
  All-take P (suc n) (x ∷ xs) h = (h.0, All-take P n xs h.1)

  All-drop {κ} : (P : A → Type κ) (n : ℕ) (xs : List A) → All P xs → All P (drop n xs)
  All-drop P zero xs h = h
  All-drop P (suc n) [] h = tt
  All-drop P (suc n) (x ∷ xs) h = All-drop P n xs h.1

  All-chunks_from {κ} :
      (P : A → Type κ) (fuel n : ℕ) (xs : List A) → All P xs → All (All P) (chunks_from fuel n xs)
  unfolding chunks_from
  All-chunks_from P fuel n [] h = tt
  All-chunks_from P zero n (x ∷ xs) h = tt
  All-chunks_from P (suc fuel) n (x ∷ xs) h = (
    All-take P n (x ∷ xs) h,
    All-chunks_from P fuel n (drop n (x ∷ xs)) (All-drop P n (x ∷ xs) h),
  )

  pub All-chunks {κ} : (P : A → Type κ) (n : ℕ) (xs : List A) → All P xs → All (All P) (chunks n xs)
  unfolding chunks
  All-chunks P n xs h = All-chunks_from P (length xs) n xs h
