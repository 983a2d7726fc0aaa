-- ===== src/Planner/Batches.antt =====
-- `batch_by_size` loses no file and keeps batches small.
use mathlib.Core.List.{flatten, append_assoc}
use condora.Base.{
  ℕ, String, List, [], ◌∷◌, ◌++◌, Option, ◌≡◌, refl, ap, ◌∙◌, ◌⊎◌, inl, inr, ◌<◌, ◌≤◌, ◌+◌, ltb,
  length, sum_of, All, sum_of-append, Bool-cases, arith,
}
use condora.Planner.{batch_file_size, batches_from, batch_by_size}

-- A batch has some file; with more than one it is no larger than allowed.
abbrev pub IsBatch : (String → ℕ) → ℕ → List String → Type 0
IsBatch size max_size batch =
    (0 < length batch) × ((length batch ≡ 1) ⊎ (sum_of size batch ≤ max_size))

-- The same of the current batch, which may be empty.
abbrev IsCurrent : (String → ℕ) → ℕ → List String → Type 0
IsCurrent size max_size batch = (length batch ≤ 1) ⊎ (sum_of size batch ≤ max_size)

abbrev AreBatches : (String → ℕ) → ℕ → List String → List String → List (List String) → Type 0
AreBatches size max_size current files batches =
    (flatten batches ≡ current ++ files) × All (IsBatch size max_size) batches

batches_from-AreBatches :
    (size : String → ℕ) (max_size : ℕ) (current files : List String) (current_size : ℕ)
    → current_size ≡ sum_of size current
    → IsCurrent size max_size current
    → AreBatches size max_size current files (batches_from size max_size current current_size files)
unfolding batches_from flatten
batches_from-AreBatches size max_size [] [] current_size same ok = (refl, tt)
batches_from-AreBatches size max_size (c ∷ current) [] current_size same ok =
    (refl, ((omega arith, ground (arith, ok)), tt))
batches_from-AreBatches size max_size [] (f ∷ files) current_size same ok =
    batches_from-AreBatches size max_size (f ∷ []) files (current_size + size f)
      (omega (arith, same)) (inl (omega arith))
batches_from-AreBatches size max_size (c ∷ current) (f ∷ files) current_size same ok =
    elim (Bool-cases (ltb max_size (current_size + size f))) [
      | inl full ↦
          let (all, each) =
            batches_from-AreBatches size max_size (f ∷ []) files (size f) (omega arith)
              (inl (omega arith)) in
          rw (full, batches_from)
            (ap (λ rest. c ∷ (current ++ rest)) all, ((omega arith, ground (arith, ok)), each))
      | inr room ↦
          let grown : sum_of size (c ∷ (current ++ f ∷ [])) ≡ sum_of size (c ∷ current) + size f =
            omega (arith, sum_of-append size current (f ∷ [])) in
          let (all, each) =
            batches_from-AreBatches size max_size (c ∷ (current ++ f ∷ [])) files
              (current_size + size f) (omega (arith, grown, same))
              (inr (ground (arith, grown, same, room))) in
          rw (room, batches_from)
            (all ∙ ap (λ rest. c ∷ rest) (append_assoc current (f ∷ []) files), each)
    ]

-- The batches together have the files in their order. No batch is empty, and a batch of more than
-- one file holds no more than `max_size`.
pub batch_by_size-AreBatches :
    (file_sizes : List (String × ℕ)) (on_disk : String → Option ℕ) (max_size : ℕ)
    (files : List String)
    → let batches = batch_by_size file_sizes on_disk max_size files in
      (flatten batches ≡ files)
      × All (IsBatch (batch_file_size file_sizes on_disk max_size) max_size) batches
unfolding batch_by_size
batch_by_size-AreBatches file_sizes on_disk max_size files =
    batches_from-AreBatches (batch_file_size file_sizes on_disk max_size) max_size [] files 0 refl
      (inl (omega arith))
