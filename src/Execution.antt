-- ===== src/Execution.antt =====
-- The executions of the commercial automation and their leases:
-- apps/api/src/commercial-automation-execution-domain.ts, and
-- PrismaCommercialAutomationExecutionRepository of apps/api/src/prisma-repositories.ts. The table is
-- the list of its rows, and each call of a method runs alone.
pub mod Table
pub mod Start
pub mod Transactions
pub mod Unique
pub mod Machine
pub mod Kept
pub mod Added
pub mod Composed
pub mod Rows
pub mod Steps
pub mod Outcomes
pub mod Begins
pub mod Retries
pub mod Leases
use afiliado_shopee.Prelude.{
  ℕ, Bool, true, false, ◌&&◌, ◌||◌, not, Option, none, some, List, ◌∷◌, [], Text, codes, leb,
  text_eq, option_eq, ◌==◌, ltb,
}

pub data ExecutionMode : Type 0 where
  preview send : ExecutionMode

pub data ExecutionStatus : Type 0 where
  started blocked preview_ready queued failed ambiguous : ExecutionStatus

pub data ExternalStage : Type 0 where
  not_reached external_may_have_started : ExternalStage

pub record Execution : Type 0 where
  pub id : Text
  pub scheduler_job_id : Text
  pub bull_mq_job_id : Option Text
  pub active_key : Option Text
  pub owner_id : Option Text
  pub heartbeat_at : Option ℕ
  pub lease_expires_at : Option ℕ
  pub mode : ExecutionMode
  pub status : ExecutionStatus
  pub external_stage : ExternalStage
  pub reasons : List Text
  pub commercial_run_id : Option Text
  pub failure_code : Option Text
  pub started_at : ℕ
  pub completed_at : Option ℕ

abbrev pub the_active_key : Text
the_active_key = codes "commercial-automation"

abbrev pub is_started : ExecutionStatus → Bool
is_started started = true
is_started _ = false

abbrev pub is_queued : ExecutionStatus → Bool
is_queued queued = true
is_queued _ = false

abbrev pub is_ambiguous : ExecutionStatus → Bool
is_ambiguous ambiguous = true
is_ambiguous _ = false

-- `!text`.
abbrev pub is_falsy : Option Text → Bool
is_falsy none = true
is_falsy (some []) = true
is_falsy (some (c ∷ s)) = false

abbrev pub is_null {ℓ} : {A : Type ℓ} → Option A → Bool
is_null none = true
is_null (some a) = false

abbrev pub lease_over : Option ℕ → ℕ → Bool
lease_over none now = true
lease_over (some t) now = leb t now

unfoldable pub is_commercial_automation_execution_stale : Execution → ℕ → Bool
is_commercial_automation_execution_stale e now =
    is_started e.status
    && (is_falsy e.active_key
        || (is_falsy e.owner_id || (is_null e.heartbeat_at || lease_over e.lease_expires_at now)))

-- The `where` of an execution whose lease is over.
unfoldable pub stale_commercial_execution : ℕ → Execution → Bool
stale_commercial_execution at e =
    is_started e.status
    && (is_null e.active_key
        || (is_null e.owner_id || (is_null e.heartbeat_at || lease_over e.lease_expires_at at)))

pub record Ownership : Type 0 where
  pub execution_id : Text
  pub owner_id : Text

-- The `where` of an execution that its owner holds.
unfoldable pub owned_commercial_execution : Ownership → ℕ → Execution → Bool
owned_commercial_execution o at e =
    (e.id == o.execution_id)
    && (is_started e.status
        && ((e.owner_id == some o.owner_id)
            && (not (is_null e.active_key) && not (lease_over e.lease_expires_at at))))
