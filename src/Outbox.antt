-- ===== src/Outbox.antt =====
-- The outbox of a dispatch: `markPublished` and `markAmbiguous` of
-- PrismaCommercialDispatchOutboxRepository in apps/api/src/prisma-repositories.ts, each one
-- transaction over the row of the outbox and that of its run.
pub mod Marks
use afiliado_shopee.Prelude.{
  ℕ, Bool, true, false, ◌&&◌, ◌||◌, not, Option, none, some, Text, text_eq, option_eq, ◌==◌,
  is_some, if◌then◌else◌,
}
use afiliado_shopee.Publication.{OutboxStatus}
use afiliado_shopee.Run.{RunMode, RunStatus, FinalStatus, is_confirmed}

pub record OutboxRow : Type 0 where
  pub id : Text
  pub commercial_run_id : Text
  pub dispatch_id : Text
  pub job_id : Text
  pub status : OutboxStatus
  pub failure_code : Option Text
  pub published_at : Option ℕ

-- The columns of the run that the two writes read or change.
pub record OutboxRun : Type 0 where
  pub mode : RunMode
  pub status : RunStatus
  pub dispatch_id : Option Text
  pub job_id : Option Text
  pub final_status : Option FinalStatus
  pub investigation_required : Bool
  pub failure_code : Option Text
  pub completed_at : Option ℕ

-- An outbox and the run that its `commercialRunId` refers to, which is not deleted while it does.
pub record Pair : Type 0 where
  pub outbox : OutboxRow
  pub run : OutboxRun

-- The `where` of the update of the run.
unfoldable pub run_accepts_job : Pair → Bool
run_accepts_job p =
    is_confirmed p.run.mode
    && ((p.run.dispatch_id == some p.outbox.dispatch_id)
        && (not (is_some p.run.job_id) || (p.run.job_id == some p.outbox.job_id)))

abbrev pub published_row : ℕ → OutboxRow → OutboxRow
published_row at o = record o {
  status = OutboxStatus.published;
  failure_code = none;
  published_at = some at;
}

-- Where the run does not accept the job, the transaction is rolled back.
unfoldable pub mark_published : ℕ → Option Pair → Option OutboxRow × Option Pair
unfolding run_accepts_job
mark_published at none = (none, none)
mark_published at (some p) = elim p.outbox.status [
  | OutboxStatus.ambiguous ↦ (none, some p)
  | OutboxStatus.published ↦ (some p.outbox, some p)
  | OutboxStatus.pending ↦
      if run_accepts_job p
      then (
        some (published_row at p.outbox),
        some (record {
          outbox = published_row at p.outbox;
          run = record p.run { job_id = some p.outbox.job_id };
        }),
      )
      else (none, some p)
]

abbrev pub ambiguous_row : Text → OutboxRow → OutboxRow
ambiguous_row code o = record o { status = OutboxStatus.ambiguous; failure_code = some code }

abbrev pub ambiguous_run : Text → ℕ → OutboxRun → OutboxRun
ambiguous_run code at r = record r {
  status = RunStatus.failed;
  final_status = some FinalStatus.ambiguous;
  investigation_required = true;
  failure_code = some code;
  completed_at = some at;
}

unfoldable pub mark_ambiguous : Text → ℕ → Option Pair → Option OutboxRow × Option Pair
mark_ambiguous code at none = (none, none)
mark_ambiguous code at (some p) = elim p.outbox.status [
  | OutboxStatus.ambiguous ↦ (some p.outbox, some p)
  | _ ↦ (
    some (ambiguous_row code p.outbox),
    some (record { outbox = ambiguous_row code p.outbox; run = ambiguous_run code at p.run }),
  )
]
