-- ===== src/Effects.antt =====
-- What a handler does: it reads and changes the database, calls HTCondor, DBS and Rucio, and may
-- raise. The calls stand in the order in which they were made; an exception leaves what was done
-- before it.
pub mod Maintains
use condora.Base.{ℕ, String, Bool, List, [], ◌∷◌, ◌++◌, Option}
use condora.Repository.{Db}
use condora.Services.{DataCall, DataServices, replied, failed}

-- The calls of src/condora/adapters/base.py that change the pool, and a change of a file.
pub data CondorCall : Type 0 where
  remove_job : Option String → Option ℕ → CondorCall
  remove_dag_children : Option String → Option ℕ → CondorCall
  submit_dag : String → Bool → Option String → CondorCall
  edit_job_attr : ℕ → ℕ → String → ℕ → CondorCall
  release_jobs : ℕ → ℕ → CondorCall
  edit_dag_payload_attr : ℕ → String → ℕ → CondorCall
  -- The memory in a submit file on disk.
  update_sub_file : String → String → ℕ → CondorCall

-- What the pool answers: a value, or an exception.
pub data Answer (A : Type 0) : Type 0 where
  answer : A → Answer A
  unreachable : Answer A

-- The HTCondor adapter. Its answers may depend on the calls made so far.
pub record Condor : Type 0 where
  pub job_exists : List CondorCall → Option String → Option ℕ → Answer Bool
  pub job_completed : List CondorCall → Option String → Option ℕ → Answer Bool
  pub removes : List CondorCall → CondorCall → Answer (Unit {0})
  pub submits : List CondorCall → CondorCall → Answer (ℕ × String)
  pub job_iwd : List CondorCall → ℕ → String → Answer (Option String)
  pub ping_schedd : List CondorCall → Option String → Bool

pub record State : Type 0 where
  pub db : Db
  pub calls : List CondorCall
  pub data_calls : List DataCall
  -- `_rucio_registered_cache`: blocks and the sites at which their files were registered.
  pub registered : List (ℕ × String)

-- An exception: the pool is out of reach, the code raises `ValueError`, DBS or Rucio raises, or the
-- code raises `RucioRegistrationError`; the last two with the text of what went wrong.
pub data Exception : Type 0 where
  condor_error value_error : Exception
  service_error registration_error : String → Exception

pub data Result (A : Type 0) : Type 0 where
  return : A → Result A
  raise : Exception → Result A

abbrev pub M : Type 0 → Type 0
M A = State → Result A × State

module _ {A B : Type 0} where
  abbrev pub and_then : Result A → (A → M B) → M B
  and_then (return a) f = f a
  and_then (raise e) f = λ s. (raise e, s)

  infixl 5 ◌>>=◌ ◌>>◌
  abbrev pub ◌>>=◌ : M A → (A → M B) → M B
  m >>= f = λ s. let (result, after) = m s in and_then result f after

  abbrev pub ◌>>◌ : M A → M B → M B
  m >> n = m >>= λ _. n

module _ {A : Type 0} where
  abbrev pub pure : A → M A
  pure a s = (return a, s)

  abbrev pub throw : Exception → M A
  throw e s = (raise e, s)

  -- A query.
  abbrev pub query : (Db → A) → M A
  query f s = (return (f s.db), s)

abbrev pub done : M (Unit {0})
done = pure tt

abbrev pub update : (Db → Db) → M (Unit {0})
update f s = (return tt, record s { db = f s.db })

-- `try: body` / `except Exception: log`
abbrev pub try_quietly : M (Unit {0}) → M (Unit {0})
try_quietly body s = let (result, after) = body s in (return tt, after)

-- `try: body` / `except Exception as e: handler`
abbrev pub caught : {A : Type 0} → Result A → (Exception → M A) → M A
caught (return a) handler = pure a
caught (raise e) handler = handler e

abbrev pub catching : {A : Type 0} → M A → (Exception → M A) → M A
catching body handler s = let (result, after) = body s in caught result handler after

-- A call of DBS or Rucio.
unfoldable pub send : DataServices → DataCall → M String
send services call s = (
  elim (services s.data_calls call) [
    | replied text ↦ return text
    | failed text ↦ raise (service_error text)
  ],
  record s { data_calls = s.data_calls ++ call ∷ [] },
)

-- A call that changes the pool; the adapter raises where the pool does not answer.
unfoldable pub perform : Condor → CondorCall → M (Unit {0})
perform condor call s = (
  elim (condor.removes s.calls call) [ answer _ ↦ return tt | unreachable ↦ raise condor_error ],
  record s { calls = s.calls ++ call ∷ [] },
)

-- `query_job(…) is not None`
unfoldable pub job_alive : Condor → Option String → Option ℕ → M Bool
job_alive condor schedd_name cluster_id s = (
  elim (condor.job_exists s.calls schedd_name cluster_id) [
    | answer b ↦ return b
    | unreachable ↦ raise condor_error
  ],
  s,
)

-- `ping_schedd`; the adapter answers `False` where the pool is out of reach.
unfoldable pub ping : Condor → Option String → M Bool
ping condor schedd_name s = (return (condor.ping_schedd s.calls schedd_name), s)

-- The submission of a DAG: its cluster and its schedd.
unfoldable pub submit : Condor → CondorCall → M (ℕ × String)
submit condor call s = (
  elim (condor.submits s.calls call) [ answer job ↦ return job | unreachable ↦ raise condor_error ],
  record s { calls = s.calls ++ call ∷ [] },
)

-- An answer that changes nothing.
abbrev pub ask : {A : Type 0} → (List CondorCall → Answer A) → M A
ask question s =
    (elim (question s.calls) [ answer a ↦ return a | unreachable ↦ raise condor_error ], s)

-- A loop over a list.
unfoldable pub for_each : {A : Type 0} → List A → (A → M (Unit {0})) → M (Unit {0})
for_each [] body = done
for_each (x ∷ xs) body = body x >> for_each xs body
