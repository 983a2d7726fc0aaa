-- ===== src/Splitters/Location.antt =====
-- The site that a job is sent to.
use mathlib.Core.List.{Memᴰ}
use condora.Base.{
  ℕ, String, List, [], ◌∷◌, none, some, ◌+◌, ◌≤◌, ◌≡◌, ◌≢◌, ◌==◌, string_eq, inl, inr, All, ltb,
  sum_of, arith, refl, Bool-cases, if◌then◌else◌,
}
use condora.Base.Dict.{lookup, get_or, increment}
use condora.Splitters.{
  InputFile, count_sites, count_locations, max_from, max_site, pick_primary_location,
}

abbrev Counts : Type 0
Counts = List (String × ℕ)

abbrev count_of : String → Counts → ℕ
count_of s m = get_or s 0 m

lookup-increment :
    (k j : String) (m : Counts)
    → lookup j (increment k m) ≡ (if k == j then some (count_of k m + 1) else lookup j m)
unfolding lookup increment
lookup-increment k j [] = ground (arith, string_eq.same_iff k j)
lookup-increment k j ((i, n) ∷ m) = ground (
  arith,
  string_eq.same_iff k j,
  string_eq.same_iff i k,
  string_eq.same_iff i j,
  lookup-increment k j m,
)

-- How often the site stands among the locations of the files.
abbrev pub occurrences : String → List String → ℕ
occurrences s [] = 0
occurrences s (site ∷ sites) = (if site == s then 1 else 0) + occurrences s sites

abbrev pub located_at : String → List InputFile → ℕ
located_at s files = sum_of (λ f. occurrences s f.locations) files

count_of-count_sites :
    (s : String) (sites : List String) (m : Counts)
    → count_of s (count_sites sites m) ≡ count_of s m + occurrences s sites
unfolding count_sites
count_of-count_sites s [] m = omega arith
count_of-count_sites s (site ∷ sites) m = ground (
  arith,
  string_eq.same_iff site s,
  lookup-increment site s m,
  count_of-count_sites s sites (increment site m),
)

count_of-count_locations :
    (s : String) (files : List InputFile) (m : Counts)
    → count_of s (count_locations files m) ≡ count_of s m + located_at s files
unfolding count_locations
count_of-count_locations s [] m = omega arith
count_of-count_locations s (f ∷ files) m = omega (
  arith,
  count_of-count_sites s f.locations m,
  count_of-count_locations s files (count_sites f.locations m),
)

-- No key stands twice.
abbrev IsDistinct : Counts → Type 0
IsDistinct [] = Unit
IsDistinct ((k, n) ∷ m) = (lookup k m ≡ none) × IsDistinct m

increment-IsDistinct : (k : String) (m : Counts) → IsDistinct m → IsDistinct (increment k m)
unfolding increment lookup
increment-IsDistinct k [] d = (refl, tt)
increment-IsDistinct k ((j, n) ∷ m) d = elim (Bool-cases (j == k)) [
  | inl here ↦ rw here d
  | inr there ↦ rw there (
    ground (arith, lookup-increment k j m, string_eq.same_iff k j, string_eq.same_iff j k),
    increment-IsDistinct k m d.1,
  )
]

count_sites-IsDistinct :
    (sites : List String) (m : Counts) → IsDistinct m → IsDistinct (count_sites sites m)
unfolding count_sites
count_sites-IsDistinct [] m d = d
count_sites-IsDistinct (site ∷ sites) m d =
    count_sites-IsDistinct sites _ (increment-IsDistinct site m d)

count_locations-IsDistinct :
    (files : List InputFile) (m : Counts) → IsDistinct m → IsDistinct (count_locations files m)
unfolding count_locations
count_locations-IsDistinct [] m d = d
count_locations-IsDistinct (f ∷ files) m d =
    count_locations-IsDistinct files _ (count_sites-IsDistinct f.locations m d)

lookup-ne-none : (e : String × ℕ) (m : Counts) → Memᴰ e m → lookup e.0 m ≢ none
unfolding lookup
lookup-ne-none e [] t = elim t [ ]
lookup-ne-none e (f ∷ m) (Memᴰ.head p) = λ h. ground (arith, string_eq.same_iff f.0 e.0)
lookup-ne-none e (f ∷ m) (Memᴰ.tail t) = λ h. ground (arith, lookup-ne-none e m t)

count_of-mem : (e : String × ℕ) (m : Counts) → IsDistinct m → Memᴰ e m → count_of e.0 m ≡ e.1
unfolding lookup
count_of-mem e [] d t = elim t [ ]
count_of-mem e (f ∷ m) d (Memᴰ.head p) = ground (arith, string_eq.same_iff f.0 e.0)
count_of-mem e (f ∷ m) d (Memᴰ.tail t) = elim (Bool-cases (f.0 == e.0)) [
  | inl here ↦ absurd (lookup-ne-none e m t (rw ((string_eq.same_iff f.0 e.0).0 here) at d.0))
  | inr there ↦ ground (arith, count_of-mem e m d.1 t)
]

skip_second : {A : Type 0} {x a : A} (b : A) {l : List A} → Memᴰ x (a ∷ l) → Memᴰ x (a ∷ b ∷ l)
skip_second b (Memᴰ.head p) = Memᴰ.head p
skip_second b (Memᴰ.tail t) = Memᴰ.tail (Memᴰ.tail t)

max_from-mem : (best : String × ℕ) (es : Counts) → Memᴰ (max_from best es) (best ∷ es)
unfolding max_from
max_from-mem best [] = Memᴰ.head refl
max_from-mem best (e ∷ es) = elim (Bool-cases (ltb best.1 e.1)) [
  | inl more ↦ rw more (Memᴰ.tail (max_from-mem e es))
  | inr less ↦ rw less (skip_second e (max_from-mem best es))
]

-- Nothing that was counted passes the bound.
max_from-le :
    (best : String × ℕ) (es : Counts)
    → (best.1 ≤ (max_from best es).1) × All (λ e. e.1 ≤ (max_from best es).1) es
unfolding max_from
max_from-le best [] = (omega arith, tt)
max_from-le best (e ∷ es) =
    let next = if ltb best.1 e.1 then e else best in
    let (above, rest) = max_from-le next es in
    (ground (arith, above), (ground (arith, above), rest))

count_of-le : (s : String) (b : ℕ) (m : Counts) → All (λ e. e.1 ≤ b) m → count_of s m ≤ b
unfolding lookup
count_of-le s b [] h = omega arith
count_of-le s b ((j, n) ∷ m) h = ground (arith, count_of-le s b m h.1)

max_site-count : (s : String) (m : Counts) → IsDistinct m → count_of s m ≤ count_of (max_site m) m
unfolding max_site lookup
max_site-count s [] d = omega arith
max_site-count s (e ∷ es) d =
    let (above, rest) = max_from-le e es in
    rw (count_of-mem (max_from e es) (e ∷ es) d (max_from-mem e es))
      (count_of-le s (max_from e es).1 (e ∷ es) (above, rest))

-- For every group of files: no site stands more often among the locations of the files than the
-- site that is picked for the job.
pub located_at-pick_primary_location :
    (files : List InputFile) (s : String)
    → located_at s files ≤ located_at (pick_primary_location files) files
unfolding pick_primary_location lookup
located_at-pick_primary_location files s = omega (
  arith,
  count_of-count_locations s files [],
  count_of-count_locations (max_site (count_locations files [])) files [],
  max_site-count s (count_locations files []) (count_locations-IsDistinct files [] tt),
)
