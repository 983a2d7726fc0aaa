-- ===== src/ErrorHandler/SiteFailures.antt =====
-- Which sites a failed DAG blames.
use condora.Base.{
  ℕ, String, true, false, List, [], ◌∷◌, ◌≡◌, ◌≤◌, inl, inr, sym, ap, Bool, none, some,
  Option-cases, Bool-cases, ◌+◌, ◌*◌, ◌&&◌, ◌||◌, ◌==◌, ltb, leb, select, contains, length,
  string_eq, refl, arith, if◌then◌else◌,
}
use condora.Base.Dict.{lookup, get_or, keys, increment}
use condora.ErrorHandler.{
  PostEntry, site_of, is_site_failure, is_problem, count_failures, count_total, problems,
  analyze_site_failures,
}

-- No key twice.
IsDict : List (String × ℕ) → Type 0
IsDict [] = Unit
IsDict (e ∷ m) = (contains e.0 (keys m) ≡ false) × IsDict m

get_or-increment :
    (s t : String) (m : List (String × ℕ))
    → get_or s 0 (increment t m) ≡ (if t == s then get_or s 0 m + 1 else get_or s 0 m)
unfolding lookup increment
get_or-increment s t [] = ground arith
get_or-increment s t ((u, n) ∷ m) = ground (
  arith,
  get_or-increment s t m,
  string_eq.same_iff u s,
  string_eq.same_iff u t,
  string_eq.same_iff t s,
)

contains-increment :
    (s t : String) (m : List (String × ℕ))
    → contains s (keys (increment t m)) ≡ (t == s || contains s (keys m))
unfolding increment
contains-increment s t [] = refl
contains-increment s t ((u, n) ∷ m) = ground (
  arith,
  contains-increment s t m,
  string_eq.same_iff u s,
  string_eq.same_iff u t,
  string_eq.same_iff t s,
)

increment-IsDict : (t : String) (m : List (String × ℕ)) → IsDict m → IsDict (increment t m)
unfolding increment IsDict
increment-IsDict t [] h = (refl, tt)
increment-IsDict t ((u, n) ∷ m) h = ground (
  arith,
  increment-IsDict t m,
  contains-increment u t m,
  string_eq.same_iff t u,
  string_eq.same_iff u t,
)

get_or-count_failures :
    (s : String) (post_data : List PostEntry) (m : List (String × ℕ))
    → get_or s 0 (count_failures post_data m)
      ≡ length (select (λ e. site_of e == s && is_site_failure e) post_data) + get_or s 0 m
unfolding count_failures
get_or-count_failures s [] m = omega arith
get_or-count_failures s (e ∷ post_data) m = ground (
  arith,
  get_or-count_failures s post_data m,
  get_or-count_failures s post_data (increment (site_of e) m),
  get_or-increment s (site_of e) m,
)

get_or-count_total :
    (s : String) (post_data : List PostEntry) (m : List (String × ℕ))
    → get_or s 0 (count_total post_data m)
      ≡ length (select (λ e. site_of e == s) post_data) + get_or s 0 m
unfolding count_total
get_or-count_total s [] m = omega arith
get_or-count_total s (e ∷ post_data) m = ground (
  arith,
  get_or-count_total s post_data (increment (site_of e) m),
  get_or-increment s (site_of e) m,
)

count_failures-IsDict :
    (post_data : List PostEntry) (m : List (String × ℕ))
    → IsDict m
    → IsDict (count_failures post_data m)
unfolding count_failures
count_failures-IsDict [] m h = h
count_failures-IsDict (e ∷ post_data) m h =
    elim (is_site_failure e)
      as (λ b. IsDict (count_failures post_data (if b then increment (site_of e) m else m))) [
        | true ↦
            count_failures-IsDict post_data (increment (site_of e) m)
              (increment-IsDict (site_of e) m h)
        | false ↦ count_failures-IsDict post_data m h
      ]

-- A site that is not a key is not a problem.
contains-problems-absent :
    (s : String) (total m : List (String × ℕ))
    → contains s (keys m) ≡ false
    → contains s (problems total m) ≡ false
unfolding problems
contains-problems-absent s total [] h = refl
contains-problems-absent s total ((u, n) ∷ m) h = ground (arith, contains-problems-absent s total m)

contains-problems :
    (s : String) (total m : List (String × ℕ))
    → IsDict m
    → contains s (problems total m) ≡ is_problem (get_or s 0 total) (get_or s 0 m)
unfolding problems lookup IsDict
contains-problems s total [] h = ground arith
contains-problems s total ((u, n) ∷ m) h = elim (Bool-cases (u == s)) [
  | inl same ↦
      let at_u : u ≡ s = (string_eq.same_iff u s).0 same in
      let no_other = contains-problems-absent s total m (rw (sym at_u) h.0) in
      ground (arith, ap (λ t. get_or t 0 total) at_u)
  | inr other ↦ ground (arith, contains-problems s total m h.1)
]

length-select-le :
    (s : String) (post_data : List PostEntry)
    → length (select (λ e. site_of e == s && is_site_failure e) post_data)
      ≤ length (select (λ e. site_of e == s) post_data)
length-select-le s [] = omega arith
length-select-le s (e ∷ post_data) = ground (arith, length-select-le s post_data)

abbrev pub is_category : String → PostEntry → Bool
is_category c e = elim e.category [ none ↦ false | some k ↦ k == c ]

-- The causes that a site may have.
abbrev pub is_site_cause : PostEntry → Bool
is_site_cause e =
    is_category "infrastructure" e
    || (is_category "infrastructure_memory" e || is_category "data" e)

is_site_failure-cause : (e : PostEntry) → is_site_failure e ≡ is_site_cause e
is_site_failure-cause e = elim (Option-cases e.category) [
  | inl absent ↦ rw absent
  | inr (c, given) ↦ rw given
]

select-cause :
    (s : String) (post_data : List PostEntry)
    → select (λ e. site_of e == s && is_site_failure e) post_data
      ≡ select (λ e. site_of e == s && is_site_cause e) post_data
select-cause s [] = refl
select-cause s (e ∷ post_data) = rw (is_site_failure-cause e, select-cause s post_data) refl

-- A site is a problem exactly where at least three of its jobs failed and more than half of its jobs
-- did, counting the failures of the categories "infrastructure", "infrastructure_memory" and "data".
pub contains-analyze_site_failures :
    (s : String) (post_data : List PostEntry)
    → let failures = length (select (λ e. site_of e == s && is_site_cause e) post_data) in
      let total = length (select (λ e. site_of e == s) post_data) in
      contains s (analyze_site_failures post_data) ≡ (leb 3 failures && ltb total (2 * failures))
unfolding analyze_site_failures IsDict
contains-analyze_site_failures s post_data =
    rw
      (
        contains-problems s (count_total post_data []) (count_failures post_data [])
            (count_failures-IsDict post_data [] tt),
        get_or-count_failures,
        get_or-count_total,
        sym (select-cause s post_data),
      )
      (ground (arith, length-select-le s post_data))
