-- ===== src/Execution/Table.antt =====
-- The writes of `PrismaCommercialAutomationExecutionRepository` to one row, by their `where`.
use afiliado_shopee.Prelude.{
  ℕ, Bool, ◌&&◌, not, Option, none, some, List, [], ◌∷◌, Text, text_eq, option_eq, ◌==◌, length,
  select, find, nat_beq, Result, ok, err, or_else, if◌then◌else◌, execution_ownership_lost,
}
use afiliado_shopee.Execution.{
  Execution, ExecutionStatus, Ownership, is_started, is_queued, is_ambiguous, ambiguous,
  external_may_have_started, owned_commercial_execution, stale_commercial_execution,
}

-- `updateMany`: the table after, and the count.
abbrev pub update_many :
    (Execution → Bool) → (Execution → Execution) → List Execution → List Execution
update_many p f [] = []
update_many p f (e ∷ es) = (if p e then f e else e) ∷ update_many p f es

abbrev pub count_of : (Execution → Bool) → List Execution → ℕ
count_of p es = length (select p es)

abbrev pub has_id : Text → Execution → Bool
has_id id e = e.id == id

unfoldable pub find_by_id : Text → List Execution → Option Execution
find_by_id id es = find (has_id id) es

-- `findExecutionAfterMutation`.
unfoldable pub find_execution_after_mutation : Text → List Execution → Result Execution
unfolding find_by_id
find_execution_after_mutation id es = elim (find_by_id id es) [
  | none ↦ err execution_ownership_lost
  | some e ↦ ok e
]

-- A guarded write that has to change one row.
unfoldable pub guarded :
    (Execution → Bool)
    → (Execution → Execution)
    → List Execution
    → Result (Unit {0}) × List Execution
guarded p f es =
    (if nat_beq (count_of p es) 1 then ok tt else err execution_ownership_lost, update_many p f es)

-- The row after a guarded write.
unfoldable pub then_find :
    Text → Result (Unit {0}) × List Execution → Result Execution × List Execution
then_find id (err c, es) = (err c, es)
then_find id (ok done, es) = (find_execution_after_mutation id es, es)

abbrev pub with_lease : ℕ → ℕ → Execution → Execution
with_lease at expires e = record e { heartbeat_at = some at; lease_expires_at = some expires }

unfoldable pub heartbeat : Ownership → ℕ → ℕ → List Execution → Result (Unit {0}) × List Execution
unfolding guarded
heartbeat o heartbeat_at lease_expires_at es =
    guarded (owned_commercial_execution o heartbeat_at) (with_lease heartbeat_at lease_expires_at)
      es

abbrev pub marked_external : Execution → Execution
marked_external e = record e { external_stage = external_may_have_started }

unfoldable pub mark_external_may_have_started :
    Ownership → ℕ → List Execution → Result Execution × List Execution
unfolding guarded then_find
mark_external_may_have_started o marked_at es =
    then_find o.execution_id (guarded (owned_commercial_execution o marked_at) marked_external es)

-- A column that the `data` leaves out stays as it is.
pub record Finish : Type 0 where
  pub status : ExecutionStatus
  pub reasons : Option (List Text)
  pub commercial_run_id : Option Text
  pub failure_code : Option Text
  pub completed_at : ℕ

abbrev pub kept_or {ℓ} : {A : Type ℓ} → Option A → Option A → Option A
kept_or none old = old
kept_or (some a) old = some a

abbrev pub finished : Finish → Execution → Execution
finished input e = record e {
  active_key = none;
  status = input.status;
  reasons = or_else input.reasons e.reasons;
  commercial_run_id = kept_or input.commercial_run_id e.commercial_run_id;
  failure_code = kept_or input.failure_code e.failure_code;
  completed_at = some input.completed_at;
}

unfoldable pub finish : Ownership → Finish → List Execution → Result Execution × List Execution
unfolding guarded then_find
finish o input es =
    then_find o.execution_id
      (guarded (owned_commercial_execution o input.completed_at) (finished input) es)

pub record QueuedAmbiguous : Type 0 where
  pub commercial_run_id : Text
  pub failure_code : Text
  pub completed_at : ℕ

abbrev pub is_queued_run : Text → Text → Execution → Bool
is_queued_run id run e = has_id id e && (is_queued e.status && (e.commercial_run_id == some run))

abbrev pub made_ambiguous : QueuedAmbiguous → Execution → Execution
made_ambiguous input e = record e {
  active_key = none;
  status = ambiguous;
  failure_code = some input.failure_code;
  completed_at = some input.completed_at;
}

-- The same write was made before.
abbrev is_marked : QueuedAmbiguous → Execution → Bool
is_marked input e =
    is_ambiguous e.status
    && ((e.commercial_run_id == some input.commercial_run_id)
        && (e.failure_code == some input.failure_code))

-- What a write that changed no row finds: a row that passes the test, or the lease is lost.
abbrev pub current_if : (Execution → Bool) → Option Execution → Result Execution
current_if p none = err execution_ownership_lost
current_if p (some e) = if p e then ok e else err execution_ownership_lost

abbrev pub or_current :
    (Execution → Bool)
    → Text
    → Result (Unit {0}) × List Execution
    → Result Execution × List Execution
or_current p id (ok done, es) = (find_execution_after_mutation id es, es)
or_current p id (err c, es) = (current_if p (find_by_id id es), es)

unfoldable pub mark_queued_ambiguous :
    Text → QueuedAmbiguous → List Execution → Result Execution × List Execution
unfolding guarded find_by_id find_execution_after_mutation
mark_queued_ambiguous id input es =
    or_current (is_marked input) id
      (guarded (is_queued_run id input.commercial_run_id) (made_ambiguous input) es)

pub record Recovery : Type 0 where
  pub status : ExecutionStatus
  pub failure_code : Option Text
  pub completed_at : ℕ

abbrev pub recovered : Recovery → Execution → Execution
recovered input e = record e {
  active_key = none;
  status = input.status;
  failure_code = kept_or input.failure_code e.failure_code;
  completed_at = some input.completed_at;
}

abbrev pub is_stale_id : Text → ℕ → Execution → Bool
is_stale_id id at e = has_id id e && stale_commercial_execution at e

unfoldable pub recover_stale : Text → Recovery → List Execution → Result Execution × List Execution
unfolding guarded find_by_id find_execution_after_mutation
recover_stale id input es =
    or_current (λ e. not (is_started e.status)) id
      (guarded (is_stale_id id input.completed_at) (recovered input) es)
