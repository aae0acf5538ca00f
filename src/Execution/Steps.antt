-- ===== src/Execution/Steps.antt =====
-- The writes to the table of executions as its steps, and the tables that they reach.
use afiliado_shopee.Prelude.{ℕ, false, Text, List, [], ◌≡◌}
use afiliado_shopee.Execution.{Execution, Ownership, is_started}
use afiliado_shopee.Execution.Table.{
  heartbeat, mark_external_may_have_started, Finish, finish, QueuedAmbiguous, mark_queued_ambiguous,
  Recovery, recover_stale,
}
use afiliado_shopee.Execution.Start.{StartInput, BlockedInput, start, create_blocked}
use afiliado_shopee.Execution.Unique.{IsSound, NotBothStarted, IsSound-one_started}
use afiliado_shopee.Execution.Machine.{AllLater, AllLater-refl, AllLater-trans}
use afiliado_shopee.Planner.Sorted.{Pairs}
use afiliado_shopee.Execution.Kept.{
  Kept, heartbeat-Kept, mark-Kept, finish-Kept, mark_queued_ambiguous-Kept, recover_stale-Kept,
}
use afiliado_shopee.Execution.Added.{start-Kept, create_blocked-Kept}
use afiliado_shopee.Execution.Transactions.{
  fail_safe_pre_external, fail_pre_marker, fail_pre_confirmation, block_pre_provider, link_run,
}
use afiliado_shopee.Execution.Composed.{
  fail_safe_pre_external-Kept, fail_pre_marker-Kept, fail_pre_confirmation-Kept,
  block_pre_provider-Kept, link_run-Kept,
}

-- One write to the table: a call of the repository, or what a transaction over several tables writes
-- to it. What `finish` and `recoverStale` are given is not STARTED, as their types say.
pub data Step (es : List Execution) : List Execution → Type 0 where
  starting :
      (id : Text) (revision : ℕ) (input : StartInput) → Step es (start id revision input es).1
  blocking : (id : Text) (input : BlockedInput) → Step es (create_blocked id input es).1
  beating : (o : Ownership) (at expires : ℕ) → Step es (heartbeat o at expires es).1
  marking : (o : Ownership) (at : ℕ) → Step es (mark_external_may_have_started o at es).1
  finishing :
      (o : Ownership) (input : Finish)
      → is_started input.status ≡ false
      → Step es (finish o input es).1
  doubting : (id : Text) (input : QueuedAmbiguous) → Step es (mark_queued_ambiguous id input es).1
  recovering :
      (id : Text) (input : Recovery)
      → is_started input.status ≡ false
      → Step es (recover_stale id input es).1
  failing_safe :
      (seen : Execution) (id run : Text) (at : ℕ)
      → Step es (fail_safe_pre_external seen id run at es)
  failing_pre_marker :
      (seen : Execution) (id code : Text) (at : ℕ) → Step es (fail_pre_marker seen id code at es)
  failing_pre_confirmation :
      (seen : Execution) (id code : Text) (at : ℕ)
      → Step es (fail_pre_confirmation seen id code at es)
  blocking_pre_provider : (seen : Execution) → Step es (block_pre_provider seen es)
  linking : (id run : Text) → Step es (link_run id run es)

pub data Reach (es : List Execution) : List Execution → Type 0 where
  here : Reach es es
  next : {fs gs : List Execution} → Reach es fs → Step fs gs → Reach es gs

Step-Kept : {es fs : List Execution} → Step es fs → IsSound es → Kept es fs
Step-Kept {es} (starting id revision input) s = start-Kept id revision input es s
Step-Kept {es} (blocking id input) s = create_blocked-Kept id input es s
Step-Kept {es} (beating o at expires) s = heartbeat-Kept o at expires es s
Step-Kept {es} (marking o at) s = mark-Kept o at es s
Step-Kept {es} (finishing o input final) s = finish-Kept o input final es s
Step-Kept {es} (doubting id input) s = mark_queued_ambiguous-Kept id input es s
Step-Kept {es} (recovering id input final) s = recover_stale-Kept id input final es s
Step-Kept {es} (failing_safe seen id run at) s = fail_safe_pre_external-Kept seen id run at es s
Step-Kept {es} (failing_pre_marker seen id code at) s = fail_pre_marker-Kept seen id code at es s
Step-Kept {es} (failing_pre_confirmation seen id code at) s =
    fail_pre_confirmation-Kept seen id code at es s
Step-Kept {es} (blocking_pre_provider seen) s = block_pre_provider-Kept seen es s
Step-Kept {es} (linking id run) s = link_run-Kept id run es s

pub Reach-Kept : {es fs : List Execution} → Reach es fs → IsSound es → Kept es fs
Reach-Kept {es} here s = (s, AllLater-refl es)
Reach-Kept {es} (next {fs} {gs} r st) s =
    let (sound, later) = Reach-Kept r s in
    let (sound', later') = Step-Kept st sound in (sound', AllLater-trans es fs gs later later')

-- Whatever writes are made from an empty table, in whatever order, by the calls of the repository of
-- executions and by the transactions over several tables, no two executions are STARTED at the same
-- time.
pub Reach-one_started : {es : List Execution} → Reach [] es → Pairs NotBothStarted es
Reach-one_started {es} r = IsSound-one_started es (Reach-Kept r (tt, tt)).0

-- Whatever writes are made, by the calls of the repository and by the transactions over several
-- tables, to a table that is sound (the unique columns are unique, and the active key is held by what
-- is STARTED), each row is still there with its id, job and owner; its
-- status has stayed, has gone from STARTED to another, from QUEUED to FAILED, AMBIGUOUS or BLOCKED,
-- or from AMBIGUOUS to BLOCKED; and an external stage that was marked is still marked.
pub Reach-AllLater : {es fs : List Execution} → IsSound es → Reach es fs → AllLater es fs
Reach-AllLater s r = (Reach-Kept r s).1
