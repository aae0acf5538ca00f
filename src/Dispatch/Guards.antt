-- ===== src/Dispatch/Guards.antt =====
-- The guarded writes of a dispatch, and what goes wrong where a guard does not cover a column.
use afiliado_shopee.Prelude.{
  ℕ, ◌+◌, true, false, ◌&&◌, ◌||◌, not, ◌≡◌, ◌≢◌, ◌↔◌, ◌⊎◌, Option, none, some, arith, Text, ok,
  nat_beq, if◌then◌else◌, text_eq, option_eq, ◌==◌,
}
use afiliado_shopee.Dispatch.{apply_to_row, transition}
use afiliado_shopee.Dispatch.Row.{
  pending, processing, submitted, sent, failed, DeliveryEventStatus, delivery_ack, Dispatch,
  ErrorMessage, sticky_identity_diverged, event_already_satisfied,
}
use afiliado_shopee.Dispatch.Store.{Env}
use afiliado_shopee.Dispatch.Writes.{
  mark_attempt_pending, ClaimDestination, assignment_matches, claimed_for_sending, not_pending,
  sticky_instance_mismatch, claim_pending_for_sending, Submission, mark_submitted, expire_row,
  mark_failed,
}
use afiliado_shopee.Dispatch.Progress.{Follows}
use afiliado_shopee.Dispatch.Order.{deliver}

-- What a later state of the row keeps, and its three times as they were.
abbrev pub Onward : Dispatch → Dispatch → Type 0
Onward a b =
    Follows a b
    × (b.sent_at ≡ a.sent_at)
    × (b.delivered_at ≡ a.delivered_at)
    × (b.read_at ≡ a.read_at)

mark_attempt_pending-Onward : (d : Dispatch) → Onward d (mark_attempt_pending d).1
unfolding mark_attempt_pending
mark_attempt_pending-Onward d = ground arith

abbrev pub OnwardIn : Dispatch → Option Dispatch → Type 0
OnwardIn d none = ⊥
OnwardIn d (some e) = Onward d e

claim-Onward :
    (name : Text) (to : ClaimDestination) (d : Dispatch)
    → OnwardIn d (claim_pending_for_sending name to (some d)).1
unfolding claim_pending_for_sending
claim-Onward name to d = ground arith

mark_submitted-Onward :
    (s : Submission) (d : Dispatch) {e : Dispatch} → mark_submitted s d ≡ ok e → Onward d e
unfolding mark_submitted
mark_submitted-Onward s d h = ground arith

expire_row-Onward : (now : ℕ) (d : Dispatch) → Onward d (expire_row now d)
unfolding expire_row
expire_row-Onward now d = ground arith

-- Attempting, claiming, submitting and expiring a dispatch each leave it where it was or move it
-- forward, and leave its send, delivery and read times as they were.
pub writes-Follow :
    (name : Text) (to : ClaimDestination) (s : Submission) (now : ℕ) (d : Dispatch)
    → Onward d (mark_attempt_pending d).1
      × OnwardIn d (claim_pending_for_sending name to (some d)).1
      × ((e : Dispatch) → mark_submitted s d ≡ ok e → Onward d e)
      × Onward d (expire_row now d)
writes-Follow name to s now d = (
  mark_attempt_pending-Onward d,
  claim-Onward name to d,
  λ e h. mark_submitted-Onward s d h,
  expire_row-Onward now d,
)

-- A claim succeeds exactly on a pending dispatch that is not for a group, or whose own instance
-- and whose group's assignment are the expected one; then it counts one attempt and the dispatch
-- is processing. On a pending dispatch of a group that fails the test, the answer is a mismatch, and
-- the dispatch is failed with the message that the identity diverged. Otherwise nothing is written.
pub claim_pending_for_sending_exact :
    (name : Text) (to : ClaimDestination) (d : Dispatch)
    → let (claim, after) = claim_pending_for_sending name to (some d) in
      let fits =
        not to.is_group || ((d.instance_name == some name) && assignment_matches to name) in
      ((claim ≡ claimed_for_sending) ↔ ((d.status ≡ pending) × (fits ≡ true)))
      × (claim ≡ claimed_for_sending
          → after
            ≡ some (record d {
              status = processing;
              attempt_count = d.attempt_count + 1;
              error_message = none;
            }))
      × ((claim ≡ sticky_instance_mismatch) ↔ ((d.status ≡ pending) × (fits ≡ false)))
      × (claim ≡ sticky_instance_mismatch
          → after
            ≡ some (record d { status = failed; error_message = some sticky_identity_diverged }))
      × ((claim ≡ not_pending) ↔ (d.status ≢ pending))
      × (claim ≡ not_pending → after ≡ some d)
unfolding claim_pending_for_sending
claim_pending_for_sending_exact name to d = (
  (λ h. ground arith, λ h. ground arith),
  λ h. ground arith,
  (λ h. ground arith, λ h. ground arith),
  λ h. ground arith,
  (λ h. ground arith, λ h. ground arith),
  λ h. ground arith,
)

-- `markFailed` has no guard: it moves a dispatch forward exactly when the dispatch is not yet
-- confirmed or ambiguous; a confirmed one goes back to failed.
pub mark_failed-Follows_iff :
    (m : ErrorMessage) (d : Dispatch)
    → Follows d (mark_failed m d) ↔ (
        (d.status ≡ pending)
        ⊎ (d.status ≡ processing)
        ⊎ (d.status ≡ submitted)
        ⊎ (d.status ≡ failed))
unfolding mark_failed
mark_failed-Follows_iff m d = (λ f. ground (arith, f.status), λ h. ground arith)

-- The others write a delivery acknowledgement just before this process's update, and nothing else.
abbrev pub acknowledged_meanwhile : ℕ → Env
acknowledged_meanwhile at k r = if nat_beq k 0 then deliver delivery_ack at r else r

-- A read receipt that took its snapshot while the row was sent, with a send time and no delivery
-- time, replaces the delivery time which an acknowledgement wrote in between, whatever the two
-- times are.
pub delivered_at-overwritten :
    (d : Dispatch) (t u n : ℕ)
    → d.status ≡ sent
    → d.sent_at ≡ some n
    → d.delivered_at ≡ none
    → let after =
        (apply_to_row
          (acknowledged_meanwhile t)
          DeliveryEventStatus.read
          u
          3
          d
          (record { row = d; calls = 0 })).1 in
      ((deliver delivery_ack t d).delivered_at ≡ some t) × (after.row.delivered_at ≡ some u)
unfolding apply_to_row deliver transition event_already_satisfied
delivered_at-overwritten d t u n s p q = ground arith
