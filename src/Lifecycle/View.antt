-- ===== src/Lifecycle/View.antt =====
-- What a handler does to the states of the requests: nothing, or one transition of its own request.
use condora.Base.{
  ℕ, String, Bool, true, false, List, [], ◌∷◌, ◌++◌, map, Option, none, some, ◌≡◌, ◌⊎◌, inl, inr,
  ◌==◌, string_eq, Bool-cases, refl, ap, ◌∙◌, if◌then◌else◌,
}
use condora.Enums.{RequestStatus}
use condora.Rows.{RequestRow, Transition}
use condora.Repository.{Db, update_where, update_request}
use condora.Effects.{
  CondorCall, Condor, State, Result, return, raise, M, and_then, ◌>>=◌, update, perform, job_alive,
  for_each,
}
use condora.Lifecycle.Transitions.{moved, transition}

-- The name of a request, its status and its transitions.
abbrev pub View : Type 0
View = String × (RequestStatus × List Transition)

abbrev pub view_of : RequestRow → View
view_of r = (r.request_name, (r.status, r.status_transitions))

abbrev pub views : State → List View
views s = map view_of s.db.requests

-- The view of a request after its transition; another request's is as it was.
abbrev pub move_view : ℕ → String → RequestStatus → View → View
move_view now request_name new_status v =
    if v.0 == request_name
    then (
      v.0,
      (new_status, v.1.1 ++ record { from = v.1.0; to = new_status; timestamp = now } ∷ []),
    )
    else v

-- The states of the requests stay as they are.
abbrev pub Keeps : {A : Type 0} → M A → Type 0
Keeps m = (s : State) → views (m s).1 ≡ views s

-- They stay, or the named request makes one transition along an edge, which its history records, and
-- the others stay.
abbrev pub IsStep : ℕ → String → (RequestStatus → Type 0) → List View → List View → Type 0
IsStep now request_name Edge before after =
    (after ≡ before)
    ⊎ ((new_status : RequestStatus) × (Edge new_status
          × (after ≡ map (move_view now request_name new_status) before)))

abbrev pub Moves : {A : Type 0} → ℕ → String → (RequestStatus → Type 0) → M A → Type 0
Moves now request_name Edge m = (s : State) → IsStep now request_name Edge (views s) (views (m s).1)

module _ {A B : Type 0} where
  pub bind-Keeps : (m : M A) (f : A → M B) → Keeps m → ((a : A) → Keeps (f a)) → Keeps (m >>= f)
  bind-Keeps m f hm hf s = next (m s).0 ∙ hm s
    where
      next : (r : Result A) → views (and_then r f (m s).1).1 ≡ views (m s).1
      next (return a) = hf a (m s).1
      next (raise e) = refl

  pub bind-Moves :
      (now : ℕ) (name : String) (Edge : RequestStatus → Type 0) (m : M A) (f : A → M B)
      → Keeps m
      → ((a : A) → Moves now name Edge (f a))
      → Moves now name Edge (m >>= f)
  bind-Moves now name Edge m f hm hf s = next (m s).0
    where
      next : (r : Result A) → IsStep now name Edge (views s) (views (and_then r f (m s).1).1)
      next (raise e) = inl (hm s)
      next (return a) = elim (hf a (m s).1) [
        | inl same ↦ inl (same ∙ hm s)
        | inr (to, (edge, step)) ↦ inr (to, (edge, step ∙ ap (map (move_view now name to)) (hm s)))
      ]

-- A branch that keeps, or moves, on both sides.
pub if-Keeps : {A : Type 0} (b : Bool) (m n : M A) → Keeps m → Keeps n → Keeps (if b then m else n)
if-Keeps true m n hm hn s = hm s
if-Keeps false m n hm hn s = hn s

pub option-Keeps :
    {A B : Type 0} (o : Option A) (m : M B) (f : A → M B)
    → Keeps m
    → ((a : A) → Keeps (f a))
    → Keeps (elim o [ none ↦ m | some a ↦ f a ])
option-Keeps none m f hm hf s = hm s
option-Keeps (some a) m f hm hf s = hf a s

module _ (now : ℕ) (name : String) (Edge : RequestStatus → Type 0) where
  pub if-Moves :
      {A : Type 0} (b : Bool) (m n : M A)
      → Moves now name Edge m
      → Moves now name Edge n
      → Moves now name Edge (if b then m else n)
  if-Moves true m n hm hn s = hm s
  if-Moves false m n hm hn s = hn s

  pub option-Moves :
      {A B : Type 0} (o : Option A) (m : M B) (f : A → M B)
      → Moves now name Edge m
      → ((a : A) → Moves now name Edge (f a))
      → Moves now name Edge (elim o [ none ↦ m | some a ↦ f a ])
  option-Moves none m f hm hf s = hm s
  option-Moves (some a) m f hm hf s = hf a s

pub update-Keeps : (f : Db → Db) → ((db : Db) → (f db).requests ≡ db.requests) → Keeps (update f)
update-Keeps f h s = ap (map view_of) (h s.db)

pub perform-Keeps : (condor : Condor) (call : CondorCall) → Keeps (perform condor call)
unfolding perform
perform-Keeps condor call s = refl

pub job_alive-Keeps :
    (condor : Condor) (schedd_name : Option String) (cluster_id : Option ℕ)
    → Keeps (job_alive condor schedd_name cluster_id)
unfolding job_alive
job_alive-Keeps condor schedd_name cluster_id s = refl

pub for_each-Keeps :
    {A : Type 0} (xs : List A) (body : A → M (Unit {0}))
    → ((x : A) → Keeps (body x))
    → Keeps (for_each xs body)
unfolding for_each
for_each-Keeps [] body h s = refl
for_each-Keeps (x ∷ xs) body h s =
    bind-Keeps (body x) (λ _. for_each xs body) (h x) (λ _. for_each-Keeps xs body h) s

pub map-update_where :
    (now : ℕ) (name : String) (new_status : RequestStatus) (rows : List RequestRow)
    → map view_of (
        update_where
          (λ r. r.request_name == name)
          (λ r. let r' = moved now new_status r in record r' { updated_at = now })
          rows)
      ≡ map (move_view now name new_status) (map view_of rows)
unfolding update_where
map-update_where now name new_status [] = refl
map-update_where now name new_status (r ∷ rows) = elim (Bool-cases (r.request_name == name)) [
  | inl own ↦ rw (map-update_where now name new_status rows, own)
  | inr other ↦ rw (map-update_where now name new_status rows, other)
]

pub transition-Moves :
    (now : ℕ) (name : String) (Edge : RequestStatus → Type 0) (to : RequestStatus)
    → Edge to
    → Moves now name Edge (transition now name to)
unfolding transition update_request
transition-Moves now name Edge to edge s =
    inr (to, (edge, map-update_where now name to s.db.requests))
