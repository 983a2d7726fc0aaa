-- ===== src/Output/Rules.antt =====
-- What a property of the state needs to be kept by the operations of the manager: the calls of the
-- services, and the updates of a block's columns, keep it.
use condora.Base.{ℕ, String, List}
use condora.Services.{DataServices, DataCall}
use condora.Rows.{BlockRow}
use condora.Effects.{State, Exception, M, ◌>>=◌, send}
use condora.Effects.Maintains.{Maintains, bind-Maintains, keeps_rules}
use condora.Output.{failed_attempt}
use condora.Output.Rucio.{OutputManager, set_block, is_registered, remember}
use condora.Output.Cycle.{invalidated_row}
use condora.Output.Blocks.{
  settled, archived_by, consolidated_by, reconsolidated_by, completed_row, opened_as, with_rule,
  fail_attempt, text_of,
}

pub record Rules (P : State → Type 0) : Type 0 where
  pub sends : (services : DataServices) (call : DataCall) → Maintains P (send services call)
  pub remembers : (block : BlockRow) (rse : String) → Maintains P (remember block rse)
  pub fails :
      (block : BlockRow) (now : ℕ) (error : String) (attempts : ℕ)
      → Maintains P (set_block block (failed_attempt now error attempts))
  pub archives :
      (block : BlockRow) (rule : String) → Maintains P (set_block block (archived_by rule))
  pub consolidates :
      (block : BlockRow) (rule : String) → Maintains P (set_block block (consolidated_by rule))
  pub reconsolidates :
      (block : BlockRow) (rule : String) → Maintains P (set_block block (reconsolidated_by rule))
  pub settles : (block : BlockRow) → Maintains P (set_block block settled)
  pub completes : (block : BlockRow) → Maintains P (set_block block completed_row)
  pub opens : (block : BlockRow) (name : String) → Maintains P (set_block block (opened_as name))
  pub protects :
      (block : BlockRow) (rule_ids : List (String × String))
      → Maintains P (set_block block (with_rule rule_ids))
  pub invalidates : (block : BlockRow) → Maintains P (set_block block invalidated_row)

module _ {P : State → Type 0} (rules : Rules P) where
  pub remembers-Maintains : (block : BlockRow) (rse : String) → Maintains P (remember block rse)
  remembers-Maintains block rse = rules.remembers block rse

  pub archives-Maintains :
      (block : BlockRow) (rule : String) → Maintains P (set_block block (archived_by rule))
  archives-Maintains block rule = rules.archives block rule

  pub consolidates-Maintains :
      (block : BlockRow) (rule : String) → Maintains P (set_block block (consolidated_by rule))
  consolidates-Maintains block rule = rules.consolidates block rule

  pub reconsolidates-Maintains :
      (block : BlockRow) (rule : String) → Maintains P (set_block block (reconsolidated_by rule))
  reconsolidates-Maintains block rule = rules.reconsolidates block rule

  pub settles-Maintains : (block : BlockRow) → Maintains P (set_block block settled)
  settles-Maintains block = rules.settles block

  pub completes-Maintains : (block : BlockRow) → Maintains P (set_block block completed_row)
  completes-Maintains block = rules.completes block

  pub opens-Maintains :
      (block : BlockRow) (name : String) → Maintains P (set_block block (opened_as name))
  opens-Maintains block name = rules.opens block name

  pub protects-Maintains :
      (block : BlockRow) (rule_ids : List (String × String))
      → Maintains P (set_block block (with_rule rule_ids))
  protects-Maintains block rule_ids = rules.protects block rule_ids

  pub invalidates-Maintains : (block : BlockRow) → Maintains P (set_block block invalidated_row)
  invalidates-Maintains block = rules.invalidates block

  -- A call of a service, and what follows it.
  pub send_then-Maintains :
      {A : Type 0} (services : DataServices) (call : DataCall) (f : String → M A)
      → ((text : String) → Maintains P (f text))
      → Maintains P (send services call >>= f)
  send_then-Maintains services call f h =
      bind-Maintains P (send services call) f (rules.sends services call) h

  pub fail_attempt-Maintains :
      (o : OutputManager) (block : BlockRow) (e : Exception) → Maintains P (fail_attempt o block e)
  unfolding fail_attempt
  fail_attempt-Maintains o block e s ok =
      rules.fails block o.now (text_of e) block.rucio_attempt_count s ok

  pub is_registered-Maintains :
      (block : BlockRow) (rse : String) → Maintains P (is_registered block rse)
  unfolding is_registered
  is_registered-Maintains block rse s ok = ok

pub ruleset block_rules = (
  keeps_rules, send_then-Maintains, fail_attempt-Maintains, is_registered-Maintains,
  remembers-Maintains, archives-Maintains, consolidates-Maintains, reconsolidates-Maintains,
  settles-Maintains, completes-Maintains, opens-Maintains, protects-Maintains,
  invalidates-Maintains,
)
