-- ===== src/Recovery.antt =====
-- The recovery of an execution whose lease is over: how
-- apps/api/src/commercial-automation-execution-recovery-service.ts classifies it from the run, the
-- dispatch, the outbox and the job in the queue.
pub mod Decided
pub mod Identity
use afiliado_shopee.Prelude.{
  ℕ, Bool, true, false, ◌&&◌, ◌||◌, not, Option, none, some, List, Text, codes, text_eq, option_eq,
  ◌==◌, is_some, ltb, Nullish, undefined, null, value, or_null, Result, ok, err, ◌>>=◌,
  if◌then◌else◌, outbox_reconciliation_required,
}
use afiliado_shopee.Dispatch.Row.{DispatchStatus, is_status}
use afiliado_shopee.Run.{RunMode, FinalStatus, final_is, dry_run, is_confirmed}
use afiliado_shopee.Publication.{OutboxStatus}
use afiliado_shopee.Instance.{StickyIdentity, StickyOptions, assert_commercial_sticky_identity}
use afiliado_shopee.Execution.{
  Execution, ExecutionStatus, ExternalStage, is_falsy, queued, failed, ambiguous,
  external_may_have_started, not_reached,
}

pub record RecoveryDispatch : Type 0 where
  pub id : Text
  pub status : DispatchStatus
  pub attempt_count : ℕ
  pub instance_name : Option Text
  pub destination_assigned_instance_name : Nullish Text
  pub destination_assigned_instance_names : Option (List Text)

pub record RecoveryOutbox : Type 0 where
  pub commercial_run_id : Text
  pub dispatch_id : Text
  pub job_id : Text
  pub instance_name : Option Text
  pub status : OutboxStatus

pub record RecoveryRun : Type 0 where
  pub id : Text
  pub mode : RunMode
  pub dispatch_id : Option Text
  pub job_id : Option Text
  pub instance_name : Option Text
  pub final_status : Option FinalStatus
  pub investigation_required : Bool
  pub dispatch : Option RecoveryDispatch
  pub outbox : Option RecoveryOutbox

pub record RecoveryContext : Type 0 where
  pub execution : Execution
  pub run : Option RecoveryRun

pub record JobEvidence : Type 0 where
  pub id : Text
  pub dispatch_id : Text
  pub instance_name : Nullish Text

-- What the queue answers; a lookup that throws is `unavailable`.
pub data Lookup : Type 0 where
  unavailable : Lookup
  answered : Option JobEvidence → Lookup

pub record Decision : Type 0 where
  pub status : ExecutionStatus
  pub failure_code : Option Text

abbrev pub ambiguous_decision : Decision
ambiguous_decision = record {
  status = ambiguous;
  failure_code = some (codes "COMMERCIAL_EXECUTION_RECOVERY_AMBIGUOUS");
}

abbrev pub abandoned_safe : Decision
abandoned_safe = record {
  status = failed;
  failure_code = some (codes "COMMERCIAL_EXECUTION_ABANDONED_SAFE");
}

abbrev pub dispatch_failed : Decision
dispatch_failed = record {
  status = failed;
  failure_code = some (codes "COMMERCIAL_EXECUTION_DISPATCH_FAILED");
}

abbrev pub queued_decision : Decision
queued_decision = record { status = queued; failure_code = none }

abbrev pub dispatch_is : DispatchStatus → Option RecoveryDispatch → Bool
dispatch_is s none = false
dispatch_is s (some d) = is_status d.status s

abbrev pub is_outbox_status : OutboxStatus → OutboxStatus → Bool
is_outbox_status OutboxStatus.pending OutboxStatus.pending = true
is_outbox_status OutboxStatus.published OutboxStatus.published = true
is_outbox_status OutboxStatus.ambiguous OutboxStatus.ambiguous = true
is_outbox_status _ _ = false

abbrev pub outbox_is : OutboxStatus → Option RecoveryOutbox → Bool
outbox_is s none = false
outbox_is s (some o) = is_outbox_status o.status s

-- Something may have gone out.
unfoldable pub is_doubtful : RecoveryRun → Bool
is_doubtful r =
    final_is FinalStatus.ambiguous r.final_status
    || (r.investigation_required
        || (outbox_is OutboxStatus.ambiguous r.outbox
            || dispatch_is DispatchStatus.processing r.dispatch))

unfoldable pub is_sent : RecoveryRun → Bool
is_sent r =
    final_is FinalStatus.sent r.final_status
    || (dispatch_is DispatchStatus.sent r.dispatch
        || (dispatch_is DispatchStatus.delivered r.dispatch
            || dispatch_is DispatchStatus.read r.dispatch))

unfoldable pub has_no_lifecycle : RecoveryRun → Bool
has_no_lifecycle r =
    is_falsy r.dispatch_id
    && (is_falsy r.job_id && (not (is_some r.dispatch) && not (is_some r.outbox)))

unfoldable pub base_identities_are_consistent :
    Execution → RecoveryRun → RecoveryDispatch → RecoveryOutbox → Bool
base_identities_are_consistent e r d o =
    (e.commercial_run_id == some r.id)
    && ((r.dispatch_id == some d.id)
        && ((r.dispatch_id == some o.dispatch_id)
            && ((r.id == o.commercial_run_id)
                && (not (is_some r.job_id) || (r.job_id == some o.job_id)))))

abbrev pub missing_job_allowed : StickyOptions
missing_job_allowed = record { allow_legacy_full_null = none; allow_missing_job = some true }

-- The legacy name counts where there is no ordered list.
abbrev legacy_name : Option RecoveryDispatch → Nullish Text
legacy_name none = undefined
legacy_name (some d) = elim d.destination_assigned_instance_names [
  | none ↦ d.destination_assigned_instance_name
  | some names ↦ undefined
]

abbrev ordered_of : Option RecoveryDispatch → Option (List Text)
ordered_of none = none
ordered_of (some d) = d.destination_assigned_instance_names

abbrev to_nullish : Option Text → Nullish Text
to_nullish none = null
to_nullish (some t) = value t

abbrev dispatch_name : Option RecoveryDispatch → Nullish Text
dispatch_name none = undefined
dispatch_name (some d) = to_nullish d.instance_name

abbrev outbox_name : Option RecoveryOutbox → Nullish Text
outbox_name none = undefined
outbox_name (some o) = to_nullish o.instance_name

unfoldable pub identity_of : RecoveryRun → Nullish Text → StickyIdentity
identity_of r job = record {
  run_instance_name = to_nullish r.instance_name;
  dispatch_instance_name = dispatch_name r.dispatch;
  outbox_instance_name = outbox_name r.outbox;
  job_instance_name = job;
  destination_assigned_instance_name = legacy_name r.dispatch;
  destination_assigned_instance_names = ordered_of r.dispatch;
}

abbrev same_instance : JobEvidence → Option Text → Bool
same_instance job none = true
same_instance job (some name) = or_null job.instance_name == some name

unfoldable pub job_has_expected_sticky_instance : RecoveryRun → JobEvidence → Result Bool
unfolding identity_of
job_has_expected_sticky_instance r job =
    assert_commercial_sticky_identity (identity_of r job.instance_name) missing_job_allowed
    >>= λ identity. ok (same_instance job identity)

-- `jobMatches`.
unfoldable pub job_matches : RecoveryRun → RecoveryOutbox → Option JobEvidence → Result Bool
unfolding job_has_expected_sticky_instance
job_matches r o none = ok false
job_matches r o (some job) = elim ((job.id == o.job_id) && (job.dispatch_id == o.dispatch_id)) [
  | false ↦ ok false
  | true ↦ job_has_expected_sticky_instance r job
]

-- A job that was found is not looked up again.
abbrev pub looked_up : Option JobEvidence → Lookup → Lookup
looked_up none later = later
looked_up (some job) later = answered (some job)

unfoldable pub decide_by_job : RecoveryOutbox → Option JobEvidence → Bool → Result Decision
decide_by_job o job matches = elim o.status [
  | OutboxStatus.pending ↦
      if is_some job && not matches
      then ok ambiguous_decision
      else err outbox_reconciliation_required
  | _ ↦ if matches then ok queued_decision else ok ambiguous_decision
]

unfoldable pub decide_by_lookup : RecoveryRun → RecoveryOutbox → Lookup → Result Decision
unfolding job_matches decide_by_job
decide_by_lookup r o unavailable = ok ambiguous_decision
decide_by_lookup r o (answered job) = job_matches r o job >>= decide_by_job o job

unfoldable pub classify_confirmed :
    (Text → Lookup)
    → Option JobEvidence
    → Execution
    → RecoveryRun
    → Option RecoveryDispatch
    → Option RecoveryOutbox
    → Result Decision
unfolding base_identities_are_consistent decide_by_lookup
classify_confirmed find_job sticky_job e r (some d) (some o) =
    if not (base_identities_are_consistent e r d o)
    then ok ambiguous_decision
    else if ltb 0 d.attempt_count
    then ok ambiguous_decision
    else if is_outbox_status o.status OutboxStatus.published && not (r.job_id == some o.job_id)
    then ok ambiguous_decision
    else decide_by_lookup r o (looked_up sticky_job (find_job o.job_id))
classify_confirmed find_job sticky_job e r _ _ = ok ambiguous_decision

unfoldable pub classify_run :
    (Text → Lookup) → Option JobEvidence → Execution → RecoveryRun → Result Decision
unfolding is_doubtful is_sent has_no_lifecycle classify_confirmed
classify_run find_job sticky_job e r =
    if is_doubtful r
    then ok ambiguous_decision
    else if is_sent r
    then ok queued_decision
    else if dispatch_is DispatchStatus.failed r.dispatch
    then ok dispatch_failed
    else if not (is_confirmed r.mode)
    then ok (if has_no_lifecycle r then abandoned_safe else ambiguous_decision)
    else classify_confirmed find_job sticky_job e r r.dispatch r.outbox

abbrev pub is_external : ExternalStage → Bool
is_external external_may_have_started = true
is_external not_reached = false

unfoldable pub classify : (Text → Lookup) → RecoveryContext → Option JobEvidence → Result Decision
unfolding classify_run
classify find_job context sticky_job = elim (is_falsy context.execution.commercial_run_id) [
  | true ↦
      ok (
        if is_external context.execution.external_stage then ambiguous_decision else abandoned_safe)
  | false ↦ elim context.run [
    | none ↦ ok ambiguous_decision
    | some r ↦ classify_run find_job sticky_job context.execution r
  ]
]
