-- ===== src/Effects/Maintains.antt =====
-- What holds of the state before a handler and after it, whatever the handler returns or raises.
use condora.Base.{Bool, true, false, List, [], ◌∷◌, Option, none, some, if◌then◌else◌}
use condora.Repository.{Db}
use condora.Effects.{
  State, Exception, Result, return, raise, M, and_then, ◌>>=◌, ◌>>◌, pure, query, caught, catching,
  try_quietly, for_each,
}

module _ (P : State → Type 0) where
  abbrev pub Maintains : {A : Type 0} → M A → Type 0
  Maintains m = (s : State) → P s → P (m s).1

  pub pure-Maintains : {A : Type 0} (a : A) → Maintains (pure a)
  pure-Maintains a s ok = ok

  pub query-Maintains : {A : Type 0} (f : Db → A) → Maintains (query f)
  query-Maintains f s ok = ok

  module _ {A B : Type 0} where
    pub bind-Maintains :
        (m : M A) (f : A → M B) → Maintains m → ((a : A) → Maintains (f a)) → Maintains (m >>= f)
    bind-Maintains m f hm hf s ok = next (m s).0
      where
        next : (r : Result A) → P (and_then r f (m s).1).1
        next (return a) = hf a (m s).1 (hm s ok)
        next (raise e) = hm s ok

    pub then-Maintains : (m : M A) (n : M B) → Maintains m → Maintains n → Maintains (m >> n)
    then-Maintains m n hm hn = bind-Maintains m (λ _. n) hm (λ _. hn)

    pub option-Maintains :
        (o : Option A) (m : M B) (f : A → M B)
        → Maintains m
        → ((a : A) → Maintains (f a))
        → Maintains (elim o [ none ↦ m | some a ↦ f a ])
    option-Maintains none m f hm hf s ok = hm s ok
    option-Maintains (some a) m f hm hf s ok = hf a s ok

  module _ {A : Type 0} where
    pub catching-Maintains :
        (body : M A) (handler : Exception → M A)
        → Maintains body
        → ((e : Exception) → Maintains (handler e))
        → Maintains (catching body handler)
    catching-Maintains body handler hb hh s ok = next (body s).0
      where
        next : (r : Result A) → P (caught r handler (body s).1).1
        next (return a) = hb s ok
        next (raise e) = hh e (body s).1 (hb s ok)

    pub if-Maintains :
        (b : Bool) (m n : M A) → Maintains m → Maintains n → Maintains (if b then m else n)
    if-Maintains true m n hm hn s ok = hm s ok
    if-Maintains false m n hm hn s ok = hn s ok

  pub try_quietly-Maintains : (body : M (Unit {0})) → Maintains body → Maintains (try_quietly body)
  try_quietly-Maintains body h s ok = h s ok

  pub for_each-Maintains :
      {A : Type 0} (xs : List A) (body : A → M (Unit {0}))
      → ((x : A) → Maintains (body x))
      → Maintains (for_each xs body)
  unfolding for_each
  for_each-Maintains [] body h s ok = ok
  for_each-Maintains (x ∷ xs) body h s ok =
      then-Maintains (body x) (for_each xs body) (h x) (for_each-Maintains xs body h) s ok

pub ruleset keeps_rules = (
  pure-Maintains, then-Maintains, bind-Maintains, if-Maintains, catching-Maintains,
  for_each-Maintains, try_quietly-Maintains,
)

-- What a handler returns, where it returns, has the property `Q`.
abbrev pub Post : {A : Type 0} → (A → Type 0) → Result A → Type 0
Post Q (return a) = Q a
Post Q (raise e) = Unit

abbrev pub Returns : {A : Type 0} → (A → Type 0) → M A → Type 0
Returns Q m = (s : State) → Post Q (m s).0

module _ {A B : Type 0} where
  pub bind-Returns :
      (Q : B → Type 0) (m : M A) (f : A → M B) → ((a : A) → Returns Q (f a)) → Returns Q (m >>= f)
  bind-Returns Q m f hf s = next (m s).0
    where
      next : (r : Result A) → Post Q (and_then r f (m s).1).0
      next (return a) = hf a (m s).1
      next (raise e) = tt

  -- The second part is only run on what the first one returns.
  pub bind-Maintains_where :
      (P : State → Type 0) (Q : A → Type 0) (m : M A) (f : A → M B)
      → Maintains P m
      → Returns Q m
      → ((a : A) → Q a → Maintains P (f a))
      → Maintains P (m >>= f)
  bind-Maintains_where P Q m f hm returns hf s ok = next (m s).0 (returns s)
    where
      next : (r : Result A) → Post Q r → P (and_then r f (m s).1).1
      next (return a) q = hf a q (m s).1 (hm s ok)
      next (raise e) q = hm s ok

  pub bind-Returns_where :
      (Q : A → Type 0) (R : B → Type 0) (m : M A) (f : A → M B)
      → Returns Q m
      → ((a : A) → Q a → Returns R (f a))
      → Returns R (m >>= f)
  bind-Returns_where Q R m f returns hf s = next (m s).0 (returns s)
    where
      next : (r : Result A) → Post Q r → Post R (and_then r f (m s).1).0
      next (return a) q = hf a q (m s).1
      next (raise e) q = tt
