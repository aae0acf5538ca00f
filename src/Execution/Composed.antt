-- ===== src/Execution/Composed.antt =====
-- What the transactions over several tables write to an execution keeps the table sound and every
-- row later than it was.
use afiliado_shopee.Prelude.{
  ℕ, Bool, true, false, ◌&&◌, List, Text, text_eq, option_eq, nat_eq, ◌≡◌, refl, sym, if◌then◌else◌,
  Bool-cases, inl, inr, and_true, nat_beq,
}
use mathlib.Core.Path.{subst}
use afiliado_shopee.Execution.{
  Execution, ExecutionStatus, is_started, is_queued, is_ambiguous, started, blocked, preview_ready,
  queued, failed, ambiguous,
}
use afiliado_shopee.Execution.Table.{count_of}
use afiliado_shopee.Execution.Transactions.{
  committed, same_lease, failed_with, safe_pre_external_send_failure, is_safe_failure,
  fail_safe_pre_external, is_pre_marker, fail_pre_marker, is_pre_confirmation,
  fail_pre_confirmation, is_pre_provider, made_blocked, block_pre_provider, is_handed_off, with_run,
  link_run,
}
use afiliado_shopee.Execution.Unique.{KeyOk, holds, released, IsSound, Tame, update_many-IsSound}
use afiliado_shopee.Execution.Machine.{
  Moves, stays, unsent, settled, Later, AllLater-refl, update_many-AllLater, stage_refl,
}
use afiliado_shopee.Execution.Kept.{Kept, same_key, is_started-eq, is_queued-eq, ended}

is_ambiguous-eq : (s : ExecutionStatus) → is_ambiguous s ≡ true → s ≡ ambiguous
is_ambiguous-eq ambiguous h = refl
is_ambiguous-eq started h = cc
is_ambiguous-eq blocked h = cc
is_ambiguous-eq preview_ready h = cc
is_ambiguous-eq queued h = cc
is_ambiguous-eq failed h = cc

committed-Kept :
    (p : Execution → Bool) (f : Execution → Execution)
    → ((e : Execution) → Tame e (f e))
    → ((e : Execution) → p e ≡ true → KeyOk e → KeyOk (f e))
    → ((e : Execution) → p e ≡ true → Later e (f e))
    → (es : List Execution) → IsSound es
    → Kept es (committed p f es)
committed-Kept p f tame key later es s = elim (Bool-cases (nat_beq (count_of p es) 1)) [
  | inl one ↦ rw one (update_many-IsSound p f tame key es s, update_many-AllLater p f later es)
  | inr other ↦ rw other (s, AllLater-refl es)
]

failed-Later :
    (code : Text) (at : ℕ) (e : Execution) → Moves e.status failed → Later e (failed_with code at e)
failed-Later code at e moves = record {
  same_id = refl;
  same_job = refl;
  same_owner = refl;
  moves = moves;
  stage = stage_refl e.external_stage;
}

fails-Kept :
    (p : Execution → Bool) (code : Text) (at : ℕ)
    → ((e : Execution) → p e ≡ true → Moves e.status failed)
    → (es : List Execution) → IsSound es
    → Kept es (committed p (failed_with code at) es)
fails-Kept p code at moves =
    committed-Kept p (failed_with code at) (λ e. (refl, refl, inr refl))
      (λ e hit k. released refl refl) (λ e hit. failed-Later code at e (moves e hit))

-- A started row that fails.
begun-Moves : (e : Execution) → is_started e.status ≡ true → Moves e.status failed
begun-Moves e h = ended e failed refl (is_started-eq e.status h)

safe-Moves :
    (q same : Bool) (e : Execution)
    → (if q then is_queued e.status else (is_started e.status && same)) ≡ true
    → Moves e.status failed
safe-Moves true same e h = subst (λ s. Moves s failed) (sym (is_queued-eq e.status h)) unsent
safe-Moves false same e h = begun-Moves e (and_true _ _ h).0

pub fail_safe_pre_external-Kept :
    (seen : Execution) (id run : Text) (at : ℕ) (es : List Execution)
    → IsSound es
    → Kept es (fail_safe_pre_external seen id run at es)
unfolding fail_safe_pre_external
fail_safe_pre_external-Kept seen id run at =
    fails-Kept (is_safe_failure seen id run) safe_pre_external_send_failure at (λ e hit.
      safe-Moves (is_queued seen.status) (same_lease seen e) e
        (and_true _ _ (and_true _ _ hit).1).0)

pub fail_pre_marker-Kept :
    (seen : Execution) (id code : Text) (at : ℕ) (es : List Execution)
    → IsSound es
    → Kept es (fail_pre_marker seen id code at es)
unfolding fail_pre_marker
fail_pre_marker-Kept seen id code at =
    fails-Kept (is_pre_marker seen id) code at
      (λ e hit. begun-Moves e (and_true _ _ (and_true _ _ hit).1).0)

pub fail_pre_confirmation-Kept :
    (seen : Execution) (id code : Text) (at : ℕ) (es : List Execution)
    → IsSound es
    → Kept es (fail_pre_confirmation seen id code at es)
unfolding fail_pre_confirmation
fail_pre_confirmation-Kept seen id code at =
    fails-Kept (is_pre_confirmation seen id) code at
      (λ e hit. begun-Moves e (and_true _ _ (and_true _ _ hit).1).0)

blocked_key : (e : Execution) → is_ambiguous e.status ≡ true → KeyOk e → KeyOk (made_blocked e)
blocked_key e h (holds a b) =
    let s : e.status ≡ ambiguous = is_ambiguous-eq e.status h in
    let begun : is_started ambiguous ≡ true = subst (λ t. is_started t ≡ true) s a in cc
blocked_key e h (released a b) = released refl b

pub block_pre_provider-Kept :
    (seen : Execution) (es : List Execution) → IsSound es → Kept es (block_pre_provider seen es)
unfolding block_pre_provider
block_pre_provider-Kept seen =
    committed-Kept (is_pre_provider seen) made_blocked (λ e. (refl, refl, inl refl))
      (λ e hit. blocked_key e (and_true _ _ (and_true _ _ hit).1).0)
      (λ e hit. record {
        same_id = refl;
        same_job = refl;
        same_owner = refl;
        stage = stage_refl e.external_stage;
        moves =
            subst (λ s. Moves s blocked)
              (sym (is_ambiguous-eq e.status (and_true _ _ (and_true _ _ hit).1).0)) settled;
      })

pub link_run-Kept :
    (id run : Text) (es : List Execution) → IsSound es → Kept es (link_run id run es)
unfolding link_run
link_run-Kept id run =
    committed-Kept (is_handed_off id run) (with_run run) (λ e. (refl, refl, inl refl))
      (λ e hit k. same_key e (with_run run e) refl refl k)
      (λ e hit. record {
        same_id = refl;
        same_job = refl;
        same_owner = refl;
        moves = stays e.status;
        stage = stage_refl e.external_stage;
      })
