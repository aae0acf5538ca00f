-- ===== src/Run.antt =====
-- The finalization of a pipeline run from the state of its dispatch: `finalizeByDispatchId`,
-- `resolveFinalizationKind` and `isFinalizationPersisted` of apps/api/src/prisma-repositories.ts.
pub mod Settled
use afiliado_shopee.Prelude.{
  ℕ, zero, suc, ◌+◌, Bool, true, false, ◌&&◌, ◌||◌, not, Option, none, some, Text, Result, ok, err,
  run_finalization_conflict, if◌then◌else◌,
}
use afiliado_shopee.Dispatch.Row.{DispatchStatus, is_status, delivered, read}

pub data RunMode : Type 0 where
  dry_run confirmed : RunMode

pub data RunStatus : Type 0 where
  started completed blocked failed : RunStatus

pub data FinalStatus : Type 0 where
  pending sent failed ambiguous : FinalStatus

pub data Kind : Type 0 where
  sent failed ambiguous : Kind

pub data FailureCode : Type 0 where
  commercial_dispatch_failed : FailureCode
  other_code : Text → FailureCode

pub record Run : Type 0 where
  pub id : Text
  pub mode : RunMode
  pub status : RunStatus
  pub final_status : Option FinalStatus
  pub failure_code : Option FailureCode
  pub investigation_required : Bool
  pub completed_at : Option ℕ

-- A run with the status of its dispatch, as `readCurrent` selects them.
pub record Current : Type 0 where
  pub run : Run
  pub open run use *
  pub dispatch : Option DispatchStatus

abbrev pub is_confirmed : RunMode → Bool
is_confirmed confirmed = true
is_confirmed dry_run = false

abbrev pub is_run_status : RunStatus → RunStatus → Bool
is_run_status started started = true
is_run_status completed completed = true
is_run_status blocked blocked = true
is_run_status RunStatus.failed RunStatus.failed = true
is_run_status _ _ = false

abbrev pub final_is : FinalStatus → Option FinalStatus → Bool
final_is FinalStatus.pending (some FinalStatus.pending) = true
final_is FinalStatus.sent (some FinalStatus.sent) = true
final_is FinalStatus.failed (some FinalStatus.failed) = true
final_is FinalStatus.ambiguous (some FinalStatus.ambiguous) = true
final_is _ _ = false

abbrev pub dispatch_is : Option DispatchStatus → DispatchStatus → Bool
dispatch_is none s = false
dispatch_is (some d) s = is_status d s

unfoldable pub resolve_finalization_kind : Current → Kind
resolve_finalization_kind c =
    if final_is FinalStatus.sent c.final_status
      || (dispatch_is c.dispatch DispatchStatus.sent
          || (dispatch_is c.dispatch delivered || dispatch_is c.dispatch read))
    then Kind.sent
    else if (final_is FinalStatus.failed c.final_status && not c.investigation_required)
        || dispatch_is c.dispatch DispatchStatus.failed
    then Kind.failed
    else Kind.ambiguous

unfoldable pub is_finalization_persisted : Run → Kind → Bool
is_finalization_persisted r Kind.sent =
    is_run_status r.status completed
    && (final_is FinalStatus.sent r.final_status && not r.investigation_required)
is_finalization_persisted r Kind.failed =
    is_run_status r.status RunStatus.failed
    && (final_is FinalStatus.failed r.final_status && not r.investigation_required)
is_finalization_persisted r Kind.ambiguous =
    is_run_status r.status RunStatus.failed
    && (final_is FinalStatus.ambiguous r.final_status && r.investigation_required)

-- The `data` of the update.
unfoldable pub finalized : Kind → ℕ → Run → Run
finalized Kind.sent at r = record r {
  status = completed;
  final_status = some FinalStatus.sent;
  failure_code = none;
  investigation_required = false;
  completed_at = some at;
}
finalized Kind.failed at r = record r {
  status = RunStatus.failed;
  final_status = some FinalStatus.failed;
  failure_code = some commercial_dispatch_failed;
  investigation_required = false;
  completed_at = some at;
}
finalized Kind.ambiguous at r = record r {
  status = RunStatus.failed;
  final_status = some FinalStatus.ambiguous;
  failure_code = some commercial_dispatch_failed;
  investigation_required = true;
  completed_at = some at;
}

-- The `where` of the update.
unfoldable pub may_finalize : Kind → Run → Bool
may_finalize Kind.sent r = is_confirmed r.mode
may_finalize Kind.failed r =
    is_confirmed r.mode
    && (is_run_status r.status started
        || ((is_run_status r.status RunStatus.failed
              && (final_is FinalStatus.ambiguous r.final_status && r.investigation_required))
            || (is_run_status r.status RunStatus.failed
                && (final_is FinalStatus.failed r.final_status && r.investigation_required))))
may_finalize Kind.ambiguous r = is_confirmed r.mode && is_run_status r.status started

pub record World : Type 0 where
  pub current : Option Current
  pub calls : ℕ

-- What the other processes do before this process's database call number `k`.
abbrev pub Env : Type 0
Env = ℕ → Option Current → Option Current

pub record Finalization : Type 0 where
  pub kind : Kind
  pub transitioned : Bool

abbrev pub Answer : Type 0
Answer = Result (Option Finalization)

-- `updateMany` by the id of the run that was read.
unfoldable pub update_run : Env → Kind → ℕ → World → Bool × World
unfolding may_finalize finalized
update_run env kind at w = elim (env w.calls w.current) [
  | none ↦ (false, record { current = none; calls = w.calls + 1 })
  | some c ↦
      if may_finalize kind c.run
      then (
        true,
        record { current = some (record c { run = finalized kind at c.run }); calls = w.calls + 1 },
      )
      else (false, record { current = some c; calls = w.calls + 1 })
]

module _ (env : Env) (at : ℕ) where
  unfoldable pub write_kind : (World → Answer × World) → Kind → World → Answer × World
  unfolding update_run
  write_kind again kind w =
      let (changed, w') = update_run env kind at w in
      if changed then (ok (some (record { kind = kind; transitioned = true })), w') else again w'

  unfoldable pub with_current : (World → Answer × World) → Option Current → World → Answer × World
  unfolding write_kind resolve_finalization_kind is_finalization_persisted
  with_current again none w = (ok none, w)
  with_current again (some c) w =
      let kind = resolve_finalization_kind c in
      if not (is_confirmed c.mode)
      then (ok none, w)
      else if is_finalization_persisted c.run kind
      then (ok (some (record { kind = kind; transitioned = false })), w)
      else write_kind again kind w

  -- The loop, by the attempts left: the source makes two.
  unfoldable pub finalize_attempts : ℕ → World → Answer × World
  unfolding with_current
  finalize_attempts zero w = (err run_finalization_conflict, w)
  finalize_attempts (suc n) w =
      let c = env w.calls w.current in
      with_current (finalize_attempts n) c (record { current = c; calls = w.calls + 1 })

unfoldable pub finalize_by_dispatch_id : Env → ℕ → Option Current → Answer × World
unfolding finalize_attempts
finalize_by_dispatch_id env at c = finalize_attempts env at 2 (record { current = c; calls = 0 })
