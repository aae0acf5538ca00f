-- ===== src/Execution/Start.antt =====
-- `start` and `createBlocked` of `PrismaCommercialAutomationExecutionRepository`.
use afiliado_shopee.Prelude.{
  ℕ, Bool, true, false, ◌&&◌, ◌||◌, not, Option, none, some, List, [], ◌∷◌, ◌++◌, Text, text_eq,
  option_eq, ◌==◌, nat_beq, leb, any, find, is_some, Result, ok, err, if◌then◌else◌,
  unique_violation, schedule_revision_stale,
}
use afiliado_shopee.Execution.{
  Execution, ExecutionMode, started, blocked, not_reached, the_active_key, is_falsy,
  is_commercial_automation_execution_stale,
}

pub record StartInput : Type 0 where
  pub scheduler_job_id : Text
  pub bull_mq_job_id : Option Text
  pub mode : ExecutionMode
  pub started_at : ℕ
  pub owner_id : Text
  pub heartbeat_at : ℕ
  pub lease_expires_at : ℕ
  pub expected_schedule_revision : Option ℕ

-- The row that `start` makes; its `id` is the database's.
unfoldable pub new_execution : Text → StartInput → Execution
new_execution id input = record {
  id = id;
  scheduler_job_id = input.scheduler_job_id;
  bull_mq_job_id = input.bull_mq_job_id;
  active_key = some the_active_key;
  owner_id = some input.owner_id;
  heartbeat_at = some input.heartbeat_at;
  lease_expires_at = some input.lease_expires_at;
  mode = input.mode;
  status = started;
  external_stage = not_reached;
  reasons = [];
  commercial_run_id = none;
  failure_code = none;
  started_at = input.started_at;
  completed_at = none;
}

-- Two values of a unique column that may be null.
abbrev pub both_have : Option Text → Option Text → Bool
both_have none b = false
both_have (some a) b = b == some a

-- The unique columns: `id`, `bullMqJobId` and `activeKey`.
unfoldable pub clashes : Execution → Execution → Bool
clashes a b =
    (a.id == b.id)
    || (both_have a.bull_mq_job_id b.bull_mq_job_id || both_have a.active_key b.active_key)

-- `create`: an error where a unique value is taken, else the row is added.
unfoldable pub create : Execution → List Execution → Result (List Execution)
create e es = if any (λ x. clashes e x) es then err unique_violation else ok (es ++ (e ∷ []))

abbrev is_manual : Text → Execution → Bool
is_manual job e = (e.scheduler_job_id == job) && not (is_some e.bull_mq_job_id)

abbrev earlier : Execution → Option Execution → Option Execution
earlier e none = some e
earlier e (some x) = if leb e.started_at x.started_at then some e else some x

-- `findFirst` by the scheduler job, in the order of `startedAt`.
unfoldable pub find_by_scheduler_job_id : Text → List Execution → Option Execution
find_by_scheduler_job_id job [] = none
find_by_scheduler_job_id job (e ∷ es) =
    let rest = find_by_scheduler_job_id job es in if is_manual job e then earlier e rest else rest

abbrev pub has_bull_job : Text → Execution → Bool
has_bull_job job e = e.bull_mq_job_id == some job

unfoldable pub find_by_bull_mq_job_id : Text → List Execution → Option Execution
find_by_bull_mq_job_id job es = find (has_bull_job job) es

-- What the attempt to create finds.
pub data Attempt : Type 0 where
  existing_one : Execution → Attempt
  created_one : List Execution → Attempt
  taken stale_revision : Attempt

abbrev pub of_create : Result (List Execution) → Attempt
of_create (ok es) = created_one es
of_create (err c) = taken

abbrev pub or_create : Option Execution → Attempt → Attempt
or_create none rest = rest
or_create (some e) rest = existing_one e

abbrev pub existing_job : Option Text → List Execution → Option Execution
existing_job none es = none
existing_job (some []) es = none
existing_job (some (c ∷ s)) es = find_by_bull_mq_job_id (c ∷ s) es

abbrev pub if_current : Bool → Attempt → Attempt
if_current true rest = rest
if_current false rest = stale_revision

-- `revision` is the stored one, or 0 where there are no settings.
unfoldable pub attempt : Text → ℕ → StartInput → List Execution → Attempt
unfolding create find_by_scheduler_job_id find_by_bull_mq_job_id
attempt id revision input es = elim input.expected_schedule_revision [
  | none ↦ elim (is_falsy input.bull_mq_job_id) [
    | true ↦
        or_create (find_by_scheduler_job_id input.scheduler_job_id es)
          (of_create (create (new_execution id input) es))
    | false ↦ of_create (create (new_execution id input) es)
  ]
  | some expected ↦
      or_create (existing_job input.bull_mq_job_id es)
        (if_current (nat_beq revision expected) (of_create (create (new_execution id input) es)))
]

pub data StartOutcome : Type 0 where
  existing : Execution → StartOutcome
  created : Execution → StartOutcome
  concurrent : Bool → StartOutcome

-- `activeKey` is unique.
unfoldable pub find_active : List Execution → Option Execution
find_active es = find (λ e. e.active_key == some the_active_key) es

abbrev pub stale_at : Option Execution → ℕ → Bool
stale_at none now = false
stale_at (some e) now = is_commercial_automation_execution_stale e now

abbrev pub or_found : Option Execution → StartOutcome → StartOutcome
or_found none rest = rest
or_found (some e) rest = existing e

-- After a unique value was taken.
unfoldable pub start_conflict : StartInput → List Execution → StartOutcome
unfolding find_by_scheduler_job_id find_by_bull_mq_job_id find_active
start_conflict input es =
    or_found
      (if is_falsy input.bull_mq_job_id
        then find_by_scheduler_job_id input.scheduler_job_id es
        else existing_job input.bull_mq_job_id es)
      (concurrent (stale_at (find_active es) input.started_at))

-- Other errors are thrown.
unfoldable pub start : Text → ℕ → StartInput → List Execution → Result StartOutcome × List Execution
unfolding attempt start_conflict
start id revision input es = elim (attempt id revision input es) [
  | existing_one e ↦ (ok (existing e), es)
  | created_one es' ↦ (ok (created (new_execution id input)), es')
  | taken ↦ (ok (start_conflict input es), es)
  | stale_revision ↦ (err schedule_revision_stale, es)
]

pub record BlockedInput : Type 0 where
  pub scheduler_job_id : Text
  pub bull_mq_job_id : Option Text
  pub mode : ExecutionMode
  pub reasons : List Text
  pub completed_at : ℕ

unfoldable pub blocked_execution : Text → BlockedInput → Execution
blocked_execution id input = record {
  id = id;
  scheduler_job_id = input.scheduler_job_id;
  bull_mq_job_id = input.bull_mq_job_id;
  active_key = none;
  owner_id = none;
  heartbeat_at = none;
  lease_expires_at = none;
  mode = input.mode;
  status = blocked;
  external_stage = not_reached;
  reasons = input.reasons;
  commercial_run_id = none;
  failure_code = none;
  started_at = input.completed_at;
  completed_at = some input.completed_at;
}

abbrev pub or_throw : Option Execution → Result Execution
or_throw none = err unique_violation
or_throw (some e) = ok e

unfoldable pub create_blocked :
    Text → BlockedInput → List Execution → Result Execution × List Execution
unfolding create find_by_bull_mq_job_id
create_blocked id input es = elim (create (blocked_execution id input) es) [
  | ok es' ↦ (ok (blocked_execution id input), es')
  | err c ↦ (or_throw (existing_job input.bull_mq_job_id es), es)
]
