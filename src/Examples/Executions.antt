-- ===== src/Examples/Executions.antt =====
-- A concrete table of executions: one owner gets the key, loses its lease and is recovered.
use afiliado_shopee.Prelude.{
  true, false, ◌≡◌, refl, none, some, List, [], ◌∷◌, ◌++◌, get_elem?, Text, text_eq, codes, ok, err,
  arith, execution_ownership_lost,
}
use mathlib.Core.Path.{subst, ap}
use afiliado_shopee.Planner.Sorted.{Pairs}
use afiliado_shopee.Execution.{
  Execution, Ownership, send, failed, queued, not_reached, the_active_key,
  owned_commercial_execution, stale_commercial_execution, is_commercial_automation_execution_stale,
}
use afiliado_shopee.Execution.Table.{
  heartbeat, mark_external_may_have_started, Finish, finish, Recovery, recover_stale, with_lease,
  recovered,
}
use afiliado_shopee.Execution.Start.{
  StartInput, start, created, existing, new_execution, attempt, create,
}
use afiliado_shopee.Execution.Transactions.{
  fail_safe_pre_external, failed_with, safe_pre_external_send_failure,
}
use afiliado_shopee.Execution.Unique.{IsSound, holds, released, NotBothStarted}
use afiliado_shopee.Execution.Machine.{AllLater}
use afiliado_shopee.Execution.Steps.{
  Reach, here, next, starting, failing_safe, Reach-one_started, Reach-AllLater,
}
use afiliado_shopee.Execution.Outcomes.{Reach-fenced}
use afiliado_shopee.Execution.Begins.{NoneStarted, start-alone, recover_stale-start}
use afiliado_shopee.Execution.Retries.{start-retry}
use afiliado_shopee.Execution.Leases.{heartbeat-renews}

abbrev job : Text → Text → StartInput
job name owner = record {
  scheduler_job_id = name;
  bull_mq_job_id = some name;
  mode = send;
  started_at = 100;
  owner_id = owner;
  heartbeat_at = 100;
  lease_expires_at = 160;
  expected_schedule_revision = some 3;
}

abbrev first : Execution
first = new_execution (codes "e1") (job (codes "j1") (codes "o1"))

abbrev table : List Execution
table = first ∷ []

started_table :
    start (codes "e1") 3 (job (codes "j1") (codes "o1")) [] ≡ (ok (created first), table)
unfolding start attempt create
started_table = refl

table-IsSound : IsSound table
unfolding new_execution
table-IsSound = ((tt, tt), (holds refl refl, tt))

abbrev give_up : Recovery
give_up = record { status = failed; failure_code = some (codes "ABANDONED"); completed_at = 200 }

over : stale_commercial_execution 200 first ≡ true
unfolding stale_commercial_execution new_execution
over = refl

abbrev done : List Execution
done = recovered give_up first ∷ []

empty_reaches : Reach [] table
empty_reaches =
    subst (Reach []) (ap (λ r. r.1) started_table)
      (next here (starting (codes "e1") 3 (job (codes "j1") (codes "o1"))))

Reach-one_started_example : Pairs NotBothStarted table
Reach-one_started_example = Reach-one_started empty_reaches

-- An execution that was queued fails before its external stage.
abbrev queued_one : Execution
queued_one = record first {
  active_key = none;
  status = queued;
  commercial_run_id = some (codes "r1");
}

abbrev unsent_one : Execution
unsent_one = failed_with safe_pre_external_send_failure 200 queued_one

queued-IsSound : IsSound (queued_one ∷ [])
unfolding new_execution
queued-IsSound = ((tt, tt), (released refl refl, tt))

failed_table :
    fail_safe_pre_external queued_one (codes "e1") (codes "r1") 200 (queued_one ∷ [])
    ≡ unsent_one ∷ []
unfolding fail_safe_pre_external new_execution
failed_table = refl

queued_reaches : Reach (queued_one ∷ []) (unsent_one ∷ [])
queued_reaches =
    subst (Reach (queued_one ∷ [])) failed_table
      (next here (failing_safe queued_one (codes "e1") (codes "r1") 200))

Reach-AllLater_example : AllLater (queued_one ∷ []) (unsent_one ∷ [])
Reach-AllLater_example = Reach-AllLater queued-IsSound queued_reaches

done-IsSound : IsSound done
unfolding new_execution
done-IsSound = ((tt, tt), (released refl refl, tt))

abbrev finishing_late : Finish
finishing_late = record {
  status = queued;
  reasons = none;
  commercial_run_id = none;
  failure_code = none;
  completed_at = 210;
}

abbrev owner_one : Ownership
owner_one = record { execution_id = codes "e1"; owner_id = codes "o1" }

Reach-fenced_example :
    (heartbeat owner_one 210 270 done ≡ (err execution_ownership_lost, done))
    × (mark_external_may_have_started owner_one 210 done ≡ (err execution_ownership_lost, done))
    × (finish owner_one finishing_late done ≡ (err execution_ownership_lost, done))
unfolding new_execution
Reach-fenced_example =
    Reach-fenced done done 0 (recovered give_up first) done-IsSound refl refl here owner_one refl
      210 270 finishing_late

recover_stale-start_example :
    (start
      (codes "e2")
      3
      (job (codes "j2") (codes "o2"))
      (recover_stale (codes "e1") give_up table).1).0
    ≡ ok (created (new_execution (codes "e2") (job (codes "j2") (codes "o2"))))
unfolding new_execution
recover_stale-start_example =
    recover_stale-start give_up table 0 first (codes "e2") 3 (job (codes "j2") (codes "o2")) refl
      table-IsSound refl over ((refl, refl), tt) refl

start-alone_example :
    NoneStarted []
    × (table ≡ [] ++ (first ∷ []))
    × (first.bull_mq_job_id ≡ some (codes "j1"))
    × (first.active_key ≡ some the_active_key)
    × (first.external_stage ≡ not_reached)
    × (owned_commercial_execution owner_one 130 first ≡ true)
    × (stale_commercial_execution 160 first ≡ true)
start-alone_example =
    start-alone (codes "e1") 3 (job (codes "j1") (codes "o1")) [] table first 130 160 (tt, tt)
      started_table (omega arith) (omega arith)

start-retry_example :
    (x : Execution) × (start (codes "e3") 9 (job (codes "j1") (codes "o3")) table
      ≡ (ok (existing x), table))
    × (x.bull_mq_job_id ≡ some (codes "j1"))
unfolding new_execution
start-retry_example =
    start-retry (codes "e3") 9 (job (codes "j1") (codes "o3")) table 0 first b'j' (b'1' ∷ []) refl
      refl refl

owned : owned_commercial_execution owner_one 130 first ≡ true
unfolding owned_commercial_execution new_execution
owned = refl

heartbeat-renews_example :
    ((heartbeat owner_one 130 190 table).0 ≡ ok tt)
    × (get_elem? (heartbeat owner_one 130 190 table).1 0 ≡ some (with_lease 130 190 first))
    × (is_commercial_automation_execution_stale (with_lease 130 190 first) 189 ≡ false)
heartbeat-renews_example =
    heartbeat-renews owner_one 130 190 189 table 0 first table-IsSound refl owned tt (omega arith)
