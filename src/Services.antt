-- ===== src/Services.antt =====
-- src/condora/adapters/base.py: DBS, where output files are registered in blocks, and Rucio, which
-- places them. Both stand outside the program: it knows of them what they answer.
use condora.Base.{ℕ, String, List, Option, ◌≡◌, ◌⊎◌, inl, inr, refl}

-- A produced file. A key that the file's dictionary lacks is "", 0 or absent.
pub record OutputFile : Type 0 where
  pub lfn : String
  pub size : ℕ
  pub adler32 : String
  pub site : Option String

-- A file as Rucio is told of it.
pub record Replica : Type 0 where
  pub scope : String
  pub name : String
  pub bytes : ℕ
  pub adler32 : Option String
  pub pfn : Option String

-- The calls that change DBS or Rucio.
pub data DataCall : Type 0 where
  open_block : String → ℕ → String → DataCall
  register_files : Option String → List OutputFile → DataCall
  close_block : String → DataCall
  invalidate_block : String → DataCall
  create_rule : String → String → String → DataCall
  delete_rule : String → DataCall
  register_replicas : String → List Replica → DataCall
  add_did : String → String → String → DataCall
  attach_dids : String → String → List (String × String) → DataCall

-- The answer: the name of a block, the identifier of a rule or nothing of interest; or an exception,
-- with its text.
pub data Reply : Type 0 where
  replied failed : String → Reply

pub Reply-cases :
    (r : Reply) → ((text : String) × (r ≡ replied text)) ⊎ ((text : String) × (r ≡ failed text))
Reply-cases (replied text) = inl (text, refl)
Reply-cases (failed text) = inr (text, refl)

-- The adapters. Their answers may depend on the calls made so far.
abbrev pub DataServices : Type 0
DataServices = List DataCall → DataCall → Reply
