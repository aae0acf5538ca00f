-- ===== src/Examples/Recoveries.antt =====
-- A concrete recovery: a confirmed run whose job waits in the queue.
use afiliado_shopee.Prelude.{
  false, ◌≡◌, refl, none, some, [], ◌∷◌, Text, codes, ok, err, value, instance_lifecycle_mismatch,
}
use afiliado_shopee.Dispatch.Row.{DispatchStatus}
use afiliado_shopee.Run.{FinalStatus, confirmed}
use afiliado_shopee.Publication.{OutboxStatus}
use afiliado_shopee.Instance.{assert_commercial_sticky_identity}
use afiliado_shopee.Execution.{Execution, send, started, external_may_have_started}
use afiliado_shopee.Recovery.{
  RecoveryDispatch, RecoveryOutbox, RecoveryRun, RecoveryContext, Lookup, answered, queued_decision,
  classify,
}
use afiliado_shopee.Recovery.Decided.{Justified, classify-Justified}
use afiliado_shopee.Recovery.Identity.{recover_by_evidence, recover_by_evidence-legacy}

abbrev execution : Execution
execution = record {
  id = codes "e1";
  scheduler_job_id = codes "s1";
  bull_mq_job_id = some (codes "s1");
  active_key = some (codes "commercial-automation");
  owner_id = some (codes "o1");
  heartbeat_at = some 100;
  lease_expires_at = some 160;
  mode = send;
  status = started;
  external_stage = external_may_have_started;
  reasons = [];
  commercial_run_id = some (codes "r1");
  failure_code = none;
  started_at = 100;
  completed_at = none;
}

abbrev dispatch : RecoveryDispatch
dispatch = record {
  id = codes "d1";
  status = DispatchStatus.pending;
  attempt_count = 0;
  instance_name = some (codes "a");
  destination_assigned_instance_name = value (codes "a");
  destination_assigned_instance_names = none;
}

abbrev outbox : RecoveryOutbox
outbox = record {
  commercial_run_id = codes "r1";
  dispatch_id = codes "d1";
  job_id = codes "j1";
  instance_name = some (codes "a");
  status = OutboxStatus.published;
}

abbrev run : RecoveryRun
run = record {
  id = codes "r1";
  mode = confirmed;
  dispatch_id = some (codes "d1");
  job_id = some (codes "j1");
  instance_name = some (codes "a");
  final_status = some FinalStatus.pending;
  investigation_required = false;
  dispatch = some dispatch;
  outbox = some outbox;
}

abbrev context : RecoveryContext
context = record { execution = execution; run = some run }

abbrev find_job : Text → Lookup
find_job id =
    answered
      (some (record { id = id; dispatch_id = codes "d1"; instance_name = value (codes "a") }))

classified : classify find_job context none ≡ ok queued_decision
unfolding classify assert_commercial_sticky_identity
classified = refl

classify-Justified_example : Justified find_job context none queued_decision
classify-Justified_example = classify-Justified find_job context none queued_decision classified

recover_by_evidence-legacy_example :
    recover_by_evidence none find_job find_job 200 context (execution ∷ [])
    ≡ (err instance_lifecycle_mismatch, execution ∷ [])
recover_by_evidence-legacy_example =
    recover_by_evidence-legacy none find_job find_job 200 context (execution ∷ []) run dispatch
      outbox (codes "a") refl refl refl refl refl refl refl refl refl
