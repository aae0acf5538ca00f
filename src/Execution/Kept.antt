-- ===== src/Execution/Kept.antt =====
-- Each call of the repository keeps the table sound and every row later than it was.
use afiliado_shopee.Prelude.{
  ℕ, Bool, true, false, List, Text, text_eq, option_eq, ◌≡◌, refl, sym, Result, ok, err, inl, inr,
  and_true,
}
use mathlib.Core.Path.{subst}
use afiliado_shopee.Execution.{
  Execution, ExecutionStatus, Ownership, is_started, is_queued, ExternalStage, started, blocked,
  preview_ready, queued, failed, ambiguous, owned_commercial_execution, stale_commercial_execution,
  not_reached, external_may_have_started,
}
use afiliado_shopee.Execution.Table.{
  guarded, then_find, or_current, heartbeat, with_lease, mark_external_may_have_started,
  marked_external, Finish, finished, finish, QueuedAmbiguous, is_queued_run, made_ambiguous,
  mark_queued_ambiguous, Recovery, recovered, is_stale_id, recover_stale,
}
use afiliado_shopee.Execution.Unique.{KeyOk, holds, released, IsSound, Tame, update_many-IsSound}
use afiliado_shopee.Execution.Machine.{
  Moves, stays, ends, doubted, StageKept, Later, AllLater, update_many-AllLater, stage_refl,
}

-- What a step keeps.
abbrev pub Kept : List Execution → List Execution → Type 0
Kept es es' = IsSound es' × AllLater es es'

then_find-table : (id : Text) (r : Result (Unit {0}) × List Execution) → (then_find id r).1 ≡ r.1
unfolding then_find
then_find-table id (ok done, es) = refl
then_find-table id (err c, es) = refl

or_current-table :
    (p : Execution → Bool) (id : Text) (r : Result (Unit {0}) × List Execution)
    → (or_current p id r).1 ≡ r.1
or_current-table p id (ok done, es) = refl
or_current-table p id (err c, es) = refl

pub same_key :
    (e e' : Execution) → e'.status ≡ e.status → e'.active_key ≡ e.active_key → KeyOk e → KeyOk e'
same_key e e' s k (holds a b) = holds (rw s a) (rw k b)
same_key e e' s k (released a b) = released (rw s a) (rw k b)

pub is_started-eq : (s : ExecutionStatus) → is_started s ≡ true → s ≡ started
is_started-eq started h = refl
is_started-eq blocked h = cc
is_started-eq preview_ready h = cc
is_started-eq queued h = cc
is_started-eq failed h = cc
is_started-eq ambiguous h = cc

pub is_queued-eq : (s : ExecutionStatus) → is_queued s ≡ true → s ≡ queued
is_queued-eq queued h = refl
is_queued-eq started h = cc
is_queued-eq blocked h = cc
is_queued-eq preview_ready h = cc
is_queued-eq failed h = cc
is_queued-eq ambiguous h = cc

-- A row that its owner holds, or whose lease is over, is started.
owned-started :
    (o : Ownership) (at : ℕ) (e : Execution)
    → owned_commercial_execution o at e ≡ true
    → e.status ≡ started
unfolding owned_commercial_execution
owned-started o at e h = is_started-eq e.status (and_true _ _ (and_true _ _ h).1).0

stale-started :
    (id : Text) (at : ℕ) (e : Execution) → is_stale_id id at e ≡ true → e.status ≡ started
unfolding stale_commercial_execution
stale-started id at e h = is_started-eq e.status (and_true _ _ (and_true _ _ h).1).0

-- A guarded write of the kind that is used here.
module _ (p : Execution → Bool) (f : Execution → Execution) (tame : (e : Execution) → Tame e (f e))
    (key : (e : Execution) → p e ≡ true → KeyOk e → KeyOk (f e))
    (later : (e : Execution) → p e ≡ true → Later e (f e)) where
  guarded-Kept : (es : List Execution) → IsSound es → Kept es (guarded p f es).1
  unfolding guarded
  guarded-Kept es s = (update_many-IsSound p f tame key es s, update_many-AllLater p f later es)

  then_find-Kept :
      (id : Text) (es : List Execution) → IsSound es → Kept es (then_find id (guarded p f es)).1
  then_find-Kept id es s =
      subst (Kept es) (sym (then_find-table id (guarded p f es))) (guarded-Kept es s)

  or_current-Kept :
      (q : Execution → Bool) (id : Text) (es : List Execution)
      → IsSound es
      → Kept es (or_current q id (guarded p f es)).1
  or_current-Kept q id es s =
      subst (Kept es) (sym (or_current-table q id (guarded p f es))) (guarded-Kept es s)

-- A write that ends an execution.
pub ended :
    (e : Execution) (s : ExecutionStatus)
    → is_started s ≡ false
    → e.status ≡ started
    → Moves e.status s
ended e s h begun = subst (λ a. Moves a s) (sym begun) (ends s h)

pub heartbeat-Kept :
    (o : Ownership) (at expires : ℕ) (es : List Execution)
    → IsSound es
    → Kept es (heartbeat o at expires es).1
unfolding heartbeat
heartbeat-Kept o at expires =
    guarded-Kept (owned_commercial_execution o at) (with_lease at expires)
      (λ e. (refl, refl, inl refl)) (λ e hit k. same_key e _ refl refl k)
      (λ e hit. record {
        same_id = refl;
        same_job = refl;
        same_owner = refl;
        moves = stays e.status;
        stage = stage_refl e.external_stage;
      })

pub mark-Kept :
    (o : Ownership) (at : ℕ) (es : List Execution)
    → IsSound es
    → Kept es (mark_external_may_have_started o at es).1
unfolding mark_external_may_have_started
mark-Kept o at es =
    then_find-Kept (owned_commercial_execution o at) marked_external (λ e. (refl, refl, inl refl))
      (λ e hit k. same_key e _ refl refl k)
      (λ e hit. record {
        same_id = refl;
        same_job = refl;
        same_owner = refl;
        moves = stays e.status;
        stage = may_have e.external_stage;
      })
      o.execution_id es
  where
    may_have : (s : ExternalStage) → StageKept s external_may_have_started
    may_have external_may_have_started = refl
    may_have not_reached = tt

pub finish-Kept :
    (o : Ownership) (input : Finish)
    → is_started input.status ≡ false
    → (es : List Execution) → IsSound es
    → Kept es (finish o input es).1
unfolding finish
finish-Kept o input final es =
    then_find-Kept (owned_commercial_execution o input.completed_at) (finished input)
      (λ e. (refl, refl, inr refl)) (λ e hit k. released final refl)
      (λ e hit. record {
        same_id = refl;
        same_job = refl;
        same_owner = refl;
        moves = ended e input.status final (owned-started o input.completed_at e hit);
        stage = stage_refl e.external_stage;
      })
      o.execution_id es

pub mark_queued_ambiguous-Kept :
    (id : Text) (input : QueuedAmbiguous) (es : List Execution)
    → IsSound es
    → Kept es (mark_queued_ambiguous id input es).1
unfolding mark_queued_ambiguous
mark_queued_ambiguous-Kept id input es =
    or_current-Kept (is_queued_run id input.commercial_run_id) (made_ambiguous input)
      (λ e. (refl, refl, inr refl)) (λ e hit k. released refl refl)
      (λ e hit. record {
        same_id = refl;
        same_job = refl;
        same_owner = refl;
        stage = stage_refl e.external_stage;
        moves =
            subst (λ a. Moves a ambiguous)
              (sym (is_queued-eq e.status (and_true _ _ (and_true _ _ hit).1).0)) doubted;
      })
      _ id es

pub recover_stale-Kept :
    (id : Text) (input : Recovery)
    → is_started input.status ≡ false
    → (es : List Execution) → IsSound es
    → Kept es (recover_stale id input es).1
unfolding recover_stale
recover_stale-Kept id input final es =
    or_current-Kept (is_stale_id id input.completed_at) (recovered input)
      (λ e. (refl, refl, inr refl)) (λ e hit k. released final refl)
      (λ e hit. record {
        same_id = refl;
        same_job = refl;
        same_owner = refl;
        moves = ended e input.status final (stale-started id input.completed_at e hit);
        stage = stage_refl e.external_stage;
      })
      _ id es
