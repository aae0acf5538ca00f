-- ===== src/Execution/Transactions.antt =====
-- What the transactions that write several tables write to the table of executions. Each reads the
-- execution first (`seen`); a write that does not change one row throws, and the transaction is
-- rolled back.
use afiliado_shopee.Prelude.{
  ℕ, Bool, true, false, ◌&&◌, ◌||◌, none, some, List, Text, codes, text_eq, option_eq, nat_eq, ◌==◌,
  nat_beq, if◌then◌else◌,
}
use afiliado_shopee.Execution.{
  Execution, ExecutionMode, ExternalStage, send, preview, is_started, is_queued, is_ambiguous,
  is_null, not_reached, external_may_have_started, blocked, failed,
}
use afiliado_shopee.Execution.Table.{update_many, count_of, has_id}

abbrev pub is_send : ExecutionMode → Bool
is_send send = true
is_send preview = false

abbrev pub is_stage : ExternalStage → ExternalStage → Bool
is_stage not_reached not_reached = true
is_stage external_may_have_started external_may_have_started = true
is_stage _ _ = false

abbrev pub committed :
    (Execution → Bool) → (Execution → Execution) → List Execution → List Execution
committed p f es = if nat_beq (count_of p es) 1 then update_many p f es else es

abbrev pub same_lease : Execution → Execution → Bool
same_lease seen e =
    (e.owner_id == seen.owner_id)
    && ((e.active_key == seen.active_key)
        && ((e.heartbeat_at == seen.heartbeat_at) && (e.lease_expires_at == seen.lease_expires_at)))

abbrev pub failed_with : Text → ℕ → Execution → Execution
failed_with code at e = record e {
  active_key = none;
  status = failed;
  failure_code = some code;
  completed_at = some at;
}

abbrev pub safe_pre_external_send_failure : Text
safe_pre_external_send_failure = codes "COMMERCIAL_EXECUTION_SAFE_PRE_EXTERNAL_SEND_FAILURE"

-- The status is the one that was read: QUEUED, or STARTED with the same lease.
abbrev pub is_safe_failure : Execution → Text → Text → Execution → Bool
is_safe_failure seen id run e =
    has_id id e
    && ((if is_queued seen.status
          then is_queued e.status
          else (is_started e.status && same_lease seen e))
        && (is_stage e.external_stage not_reached && (e.commercial_run_id == some run)))

unfoldable pub fail_safe_pre_external :
    Execution → Text → Text → ℕ → List Execution → List Execution
fail_safe_pre_external seen id run completed_at es =
    committed (is_safe_failure seen id run)
      (failed_with safe_pre_external_send_failure completed_at) es

abbrev pub is_pre_marker : Execution → Text → Execution → Bool
is_pre_marker seen id e =
    has_id id e
    && (is_started e.status
        && (is_stage e.external_stage not_reached
            && (is_null e.commercial_run_id && same_lease seen e)))

unfoldable pub fail_pre_marker : Execution → Text → Text → ℕ → List Execution → List Execution
fail_pre_marker seen id failure_code completed_at es =
    committed (is_pre_marker seen id) (failed_with failure_code completed_at) es

abbrev pub is_pre_confirmation : Execution → Text → Execution → Bool
is_pre_confirmation seen id e =
    has_id id e
    && (is_started e.status
        && (is_stage e.external_stage seen.external_stage
            && ((e.commercial_run_id == seen.commercial_run_id) && same_lease seen e)))

unfoldable pub fail_pre_confirmation : Execution → Text → Text → ℕ → List Execution → List Execution
fail_pre_confirmation seen id failure_code completed_at es =
    committed (is_pre_confirmation seen id) (failed_with failure_code completed_at) es

abbrev same_job : Execution → Execution → Bool
same_job seen e =
    (e.scheduler_job_id == seen.scheduler_job_id) && (e.bull_mq_job_id == seen.bull_mq_job_id)

abbrev same_end : Execution → Execution → Bool
same_end seen e =
    (e.failure_code == seen.failure_code)
    && (nat_beq e.started_at seen.started_at && (e.completed_at == seen.completed_at))

abbrev pub is_pre_provider : Execution → Execution → Bool
is_pre_provider seen e =
    has_id seen.id e
    && (is_ambiguous e.status
        && ((same_job seen e && (same_lease seen e && is_send e.mode))
            && (is_stage e.external_stage external_may_have_started
                && (is_null e.commercial_run_id && same_end seen e))))

abbrev pub made_blocked : Execution → Execution
made_blocked e = record e { status = blocked }

unfoldable pub block_pre_provider : Execution → List Execution → List Execution
block_pre_provider seen es = committed (is_pre_provider seen) made_blocked es

abbrev pub is_handed_off : Text → Text → Execution → Bool
is_handed_off id run e =
    has_id id e
    && (is_send e.mode
        && ((is_started e.status || is_queued e.status)
            && (is_null e.commercial_run_id || (e.commercial_run_id == some run))))

abbrev pub with_run : Text → Execution → Execution
with_run run e = record e { commercial_run_id = some run }

unfoldable pub link_run : Text → Text → List Execution → List Execution
link_run id run es = committed (is_handed_off id run) (with_run run) es
