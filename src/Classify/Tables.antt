-- ===== src/Classify/Tables.antt =====
-- The tables of exit codes: which category each listed code gets.
use condora.Base.{
  Option, none, some, if◌then◌else◌, ℕ, Bool, true, false, List, [], ◌∷◌, ◌&&◌, not, ◌≡◌, ℤ, pos,
  in_codes, contains, all, nat_beq, nat_eq, nat_beq_iff, arith, refl, Bool-cases, inl, inr,
}
use condora.Base.Texts.{Text}
use condora.Classify.{
  Category, permanent, bad_data, infrastructure, infrastructure_memory, permanent_codes, data_codes,
  memory_codes, infrastructure_codes, classify_error, is_zombie, is_hard_wall_time,
}

contains-all :
    (p : ℕ → Bool) (n : ℕ) (xs : List ℕ) → all p xs ≡ true → contains n xs ≡ true → p n ≡ true
contains-all p n [] ok found = absurd (ground arith)
contains-all p n (x ∷ xs) ok found = elim (Bool-cases (nat_beq x n)) [
  | inl here ↦ ground (arith, nat_beq_iff x n)
  | inr there ↦ contains-all p n xs (ground arith) (ground arith)
]

-- Outside a table, and neither 0 nor 80.
abbrev is_apart : List ℕ → ℕ → Bool
is_apart codes c = not (contains c codes) && (not (nat_beq c 0) && not (nat_beq c 80))

-- The same of the test that the code makes, which stays shut.
abbrev IsApart : List ℕ → ℕ → Type 0
IsApart codes n = (in_codes (pos n) codes ≡ false) × (nat_beq n 0 ≡ false) × (nat_beq n 80 ≡ false)

IsApart-of : (codes : List ℕ) (n : ℕ) → is_apart codes n ≡ true → IsApart codes n
unfolding in_codes
IsApart-of codes n h = ground arith

in_codes-IsApart :
    (codes others : List ℕ) (n : ℕ)
    → all (is_apart others) codes ≡ true
    → in_codes (pos n) codes ≡ true
    → IsApart others n
unfolding in_codes
in_codes-IsApart codes others n ok h =
    IsApart-of others n (contains-all (is_apart others) n codes ok h)

module _ (n : ℕ) where
  data-IsApart : in_codes (pos n) data_codes ≡ true → IsApart permanent_codes n
  data-IsApart = in_codes-IsApart data_codes permanent_codes n refl

  memory-IsApart :
      in_codes (pos n) memory_codes ≡ true → IsApart permanent_codes n × IsApart data_codes n
  memory-IsApart h = (
    in_codes-IsApart memory_codes permanent_codes n refl h,
    in_codes-IsApart memory_codes data_codes n refl h,
  )

  infrastructure-IsApart :
      in_codes (pos n) infrastructure_codes ≡ true
      → IsApart permanent_codes n × IsApart data_codes n
  infrastructure-IsApart h = (
    in_codes-IsApart infrastructure_codes permanent_codes n refl h,
    in_codes-IsApart infrastructure_codes data_codes n refl h,
  )

  permanent-IsApart : in_codes (pos n) permanent_codes ≡ true → IsApart [] n
  permanent-IsApart = in_codes-IsApart permanent_codes [] n refl

  permanent-8001 : nat_beq n 8001 ≡ true → in_codes (pos n) permanent_codes ≡ true
  unfolding in_codes
  permanent-8001 h = ground (arith, nat_beq_iff n 8001)

-- The four tables, each with its category.
classify_error-tables :
    (n : ℕ) (job_exit_code : ℤ) (error_message log_tail reason : Text)
    → is_zombie reason ≡ false
    → is_hard_wall_time reason ≡ false
    → let found = (classify_error (pos n) job_exit_code error_message log_tail reason).category in
      (in_codes (pos n) data_codes ≡ true → found ≡ bad_data)
      × (in_codes (pos n) memory_codes ≡ true → found ≡ infrastructure_memory)
      × (in_codes (pos n) infrastructure_codes ≡ true
          → in_codes (pos n) memory_codes ≡ false
          → found ≡ infrastructure)
      × (in_codes (pos n) permanent_codes ≡ true → nat_beq n 8001 ≡ false → found ≡ permanent)
unfolding classify_error
classify_error-tables n job_exit_code error_message log_tail reason kept in_time = (
  λ h. ground (arith, data-IsApart n h),
  λ h. ground (arith, memory-IsApart n h),
  λ h other. ground (arith, infrastructure-IsApart n h),
  λ h other. ground (arith, permanent-IsApart n h),
)

-- The category of the table in which a code stands; 8001 is left open.
unfoldable pub table_category : ℕ → Option Category
table_category n =
    if in_codes (pos n) data_codes
    then some bad_data
    else if in_codes (pos n) memory_codes
    then some infrastructure_memory
    else if in_codes (pos n) infrastructure_codes
    then some infrastructure
    else if in_codes (pos n) permanent_codes && not (nat_beq n 8001)
    then some permanent
    else none

-- A job that HTCondor did not remove and whose CMSSW exit code stands in a table gets the category
-- of that table, whatever the job's exit code, the message and the log are: data, memory, and,
-- outside the memory codes, infrastructure; a permanent code gives the permanent category unless it
-- is 8001.
pub classify_error-category :
    (n : ℕ) (job_exit_code : ℤ) (error_message log_tail reason : Text) (c : Category)
    → is_zombie reason ≡ false
    → is_hard_wall_time reason ≡ false
    → table_category n ≡ some c
    → (classify_error (pos n) job_exit_code error_message log_tail reason).category ≡ c
unfolding table_category
classify_error-category n job_exit_code error_message log_tail reason c kept in_time found =
    ground (arith, classify_error-tables n job_exit_code error_message log_tail reason kept in_time)
