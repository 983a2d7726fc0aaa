-- ===== src/Lifecycle/MainLoop/Names.antt =====
-- The requests that a cycle has still to evaluate, by their names.
use mathlib.Core.Path.{subst}
use condora.Base.{
  ℕ, suc, String, Bool, true, false, List, [], ◌∷◌, map, ◌≡◌, refl, sym, ◌≤◌, inl, inr, ◌==◌, ◌&&◌,
  not, length, select, any, All, contains, string_eq, Bool-cases, arith,
}
use condora.Enums.{is_terminal}
use condora.Rows.{RequestRow}
use condora.Repository.{Db, get_non_terminal_requests}
use condora.Lifecycle.MainLoop.{remaining}

abbrev pub names_of : List RequestRow → List String
names_of rows = map (λ r. r.request_name) rows

abbrev pub names : Db → List String
names db = names_of db.requests

-- A request of this name that is not terminal.
abbrev pub waits_as : String → RequestRow → Bool
waits_as x r = r.request_name == x && not (is_terminal r.status)

abbrev pub is_waiting : String → Db → Bool
is_waiting x db = any (waits_as x) db.requests

-- How many of the names have not failed.
abbrev pub unfailed : List String → List String → ℕ
unfailed failed_names xs = length (select (λ x. not (contains x failed_names)) xs)

abbrev pub IsPending : List String → Db → RequestRow → Type 0
IsPending failed_names db r =
    (contains r.request_name (names db) ≡ true) × (contains r.request_name failed_names ≡ false)

abbrev goes_on : List String → RequestRow → Bool
goes_on failed_names r = not (contains r.request_name failed_names)

abbrev rest_of : List String → List RequestRow → List RequestRow
rest_of failed_names rows =
    select (goes_on failed_names) (select (λ r. not (is_terminal r.status)) rows)

rest_of-bound :
    (failed_names : List String) (rows : List RequestRow)
    → length (rest_of failed_names rows) ≤ unfailed failed_names (names_of rows)
rest_of-bound failed_names [] = omega arith
rest_of-bound failed_names (r ∷ rows) = elim (Bool-cases (is_terminal r.status)) [
  | inl over ↦ elim (Bool-cases (contains r.request_name failed_names)) [
    | inl failed ↦ rw (over, failed) (rest_of-bound failed_names rows)
    | inr going ↦ rw (over, going) (omega (arith, rest_of-bound failed_names rows))
  ]
  | inr waits ↦ elim (Bool-cases (contains r.request_name failed_names)) [
    | inl failed ↦ rw (waits, failed) (rest_of-bound failed_names rows)
    | inr going ↦ rw (waits, going) (omega (arith, rest_of-bound failed_names rows))
  ]
]

pub remaining-bound :
    (failed_names : List String) (db : Db)
    → length (remaining failed_names db) ≤ unfailed failed_names (names db)
unfolding remaining get_non_terminal_requests
remaining-bound failed_names db = rest_of-bound failed_names db.requests

same_text : (x y : String) → x == y ≡ true → x ≡ y
same_text x y = (string_eq.same_iff x y).0

rest_of-contains :
    (x : String) (failed_names : List String) (rows : List RequestRow)
    → any (waits_as x) rows ≡ true
    → contains x failed_names ≡ false
    → contains x (names_of (rest_of failed_names rows)) ≡ true
rest_of-contains x failed_names [] waits going = cc
rest_of-contains x failed_names (r ∷ rows) waits going =
    let rest = rest_of-contains x failed_names rows in
    elim (Bool-cases (r.request_name == x)) [
      | inl named ↦
          let spared : contains r.request_name failed_names ≡ false =
            subst (λ y. contains y failed_names ≡ false) (sym (same_text r.request_name x named))
              going in
          elim (Bool-cases (is_terminal r.status)) [
            | inl over ↦ rw over (rest (rw (named, over) at waits) going)
            | inr waiting ↦ rw (waiting, spared, named)
          ]
      | inr other ↦
          let later : any (waits_as x) rows ≡ true = rw other at waits in
          elim (Bool-cases (is_terminal r.status)) [
            | inl over ↦ rw over (rest later going)
            | inr waiting ↦ elim (Bool-cases (contains r.request_name failed_names)) [
              | inl failed ↦ rw (waiting, failed) (rest later going)
              | inr spared ↦ rw (waiting, spared, other) (rest later going)
            ]
          ]
    ]

-- A request that waits and has not failed is in the new list.
pub remaining-contains :
    (x : String) (failed_names : List String) (db : Db)
    → is_waiting x db ≡ true
    → contains x failed_names ≡ false
    → contains x (names_of (remaining failed_names db)) ≡ true
unfolding remaining get_non_terminal_requests
remaining-contains x failed_names db = rest_of-contains x failed_names db.requests

unfailed-le :
    (n : String) (failed_names xs : List String)
    → unfailed (n ∷ failed_names) xs ≤ unfailed failed_names xs
unfailed-le n failed_names [] = omega arith
unfailed-le n failed_names (x ∷ xs) = elim (Bool-cases (contains x failed_names)) [
  | inl failed ↦ elim (Bool-cases (n == x)) [
    | inl named ↦ rw (failed, named) (unfailed-le n failed_names xs)
    | inr other ↦ rw (failed, other) (unfailed-le n failed_names xs)
  ]
  | inr spared ↦ elim (Bool-cases (n == x)) [
    | inl named ↦ rw (spared, named) (omega (arith, unfailed-le n failed_names xs))
    | inr other ↦ rw (spared, other) (omega (arith, unfailed-le n failed_names xs))
  ]
]

-- A failure of one that had not failed leaves fewer.
pub unfailed-lt :
    (n : String) (failed_names xs : List String)
    → contains n xs ≡ true
    → contains n failed_names ≡ false
    → suc (unfailed (n ∷ failed_names) xs) ≤ unfailed failed_names xs
unfailed-lt n failed_names [] member spared = cc
unfailed-lt n failed_names (x ∷ xs) member spared = elim (Bool-cases (x == n)) [
  | inl named ↦
      let same : x ≡ n = same_text x n named in
      let spared_x : contains x failed_names ≡ false = rw same spared in
      let named' : n == x ≡ true = (string_eq.same_iff n x).1 (sym same) in
      rw (spared_x, named') (omega (arith, unfailed-le n failed_names xs))
  | inr other ↦
      let rest = unfailed-lt n failed_names xs (rw other at member) spared in
      elim (Bool-cases (contains x failed_names)) [
        | inl failed ↦ elim (Bool-cases (n == x)) [
          | inl named ↦ rw (failed, named) rest
          | inr other' ↦ rw (failed, other') rest
        ]
        | inr going ↦ elim (Bool-cases (n == x)) [
          | inl named ↦ rw (going, named) (omega (arith, rest))
          | inr other' ↦ rw (going, other') (omega (arith, rest))
        ]
      ]
]

-- What is in the new list has not failed, and is a request of the database.
rest_of-IsPending :
    (failed_names xs : List String) (rows : List RequestRow)
    → ((n : String) → contains n (names_of rows) ≡ true → contains n xs ≡ true)
    → All
        (λ r. (contains r.request_name xs ≡ true) × (contains r.request_name failed_names ≡ false))
        (rest_of failed_names rows)
rest_of-IsPending failed_names xs [] within = tt
rest_of-IsPending failed_names xs (r ∷ rows) within =
    let rest = rest_of-IsPending failed_names xs rows (λ n member.
      within n (elim (Bool-cases (r.request_name == n)) [
        | inl named ↦ rw named
        | inr other ↦ rw other member
      ])) in
    let first : contains r.request_name xs ≡ true =
      within r.request_name (rw ((string_eq.same_iff r.request_name r.request_name).1 refl)) in
    elim (Bool-cases (is_terminal r.status)) [
      | inl over ↦ rw over rest
      | inr waiting ↦ elim (Bool-cases (contains r.request_name failed_names)) [
        | inl failed ↦ rw (waiting, failed) rest
        | inr spared ↦ rw (waiting, spared) ((first, spared), rest)
      ]
    ]

pub remaining-IsPending :
    (failed_names : List String) (db : Db)
    → All (IsPending failed_names db) (remaining failed_names db)
unfolding remaining get_non_terminal_requests
remaining-IsPending failed_names db =
    rest_of-IsPending failed_names (names db) db.requests (λ n member. member)
