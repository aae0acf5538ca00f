-- ===== src/Examples.antt =====
-- Concrete rows, runs, groups and schedules, and the theorems about them at these inputs.
pub mod Plans
pub mod Outboxes
pub mod Recoveries
pub mod Executions
pub mod Runs
pub mod Groups
pub mod Schedules
pub mod Publications
pub mod Pauses
pub mod Days
use afiliado_shopee.Prelude.{
  ℕ, zero, suc, ◌+◌, ◌-◌, ◌*◌, ◌/◌, ◌%◌, ◌^◌, ◌≤◌, ◌<◌, max, min, Bool, true, false, not, ◌&&◌,
  ◌||◌, ◌≡◌, ◌≢◌, ◌↔◌, ◌⊎◌, refl, Option, none, some, List, [], ◌∷◌, ◌++◌, Text, codes, Result, ok,
  err, Nullish, undefined, null, value, text_eq, option_eq, ◌==◌, All, includes, ltb, nat_beq, map,
  trim, take, arith, inl, inr, any, select, Code,
}
use mathlib.Core.List.{Perm, Permᴰ}
use afiliado_shopee.Dispatch.{ApplyResult, apply_to_row, apply_delivery_event}
use afiliado_shopee.Dispatch.Row.{
  DispatchStatus, DeliveryEventStatus, server_ack, delivery_ack, Dispatch, DeliveryEvent, submitted,
  sent, processing, pending, delivered, delivery_stage, other_message, ErrorMessage, failed,
  sticky_identity_diverged,
}
use afiliado_shopee.Dispatch.Writes.{
  ClaimDestination, Submission, mark_attempt_pending, claim_pending_for_sending, mark_submitted,
  expire_row, mark_failed, claimed_for_sending, not_pending, sticky_instance_mismatch,
  assignment_matches,
}
use afiliado_shopee.Dispatch.Progress.{Follows, Follows-refl}
use afiliado_shopee.Dispatch.Table.{AllFollow, apply_delivery_event-AllFollow}
use afiliado_shopee.Dispatch.Outcomes.{Tells, apply_to_row-Tells}
use afiliado_shopee.Dispatch.Guards.{
  Onward, OnwardIn, writes-Follow, claim_pending_for_sending_exact, mark_failed-Follows_iff,
  acknowledged_meanwhile, delivered_at-overwritten,
}
use afiliado_shopee.Dispatch.Order.{
  alone, deliver, deliver_all, is_stamped, IsAck, apply_to_row-deliver, deliver_idem,
  deliver_all-perm,
}

abbrev row : Dispatch
row = record {
  id = codes "d1";
  status = submitted;
  attempt_count = 1;
  instance_name = some (codes "i1");
  external_message_id = some (codes "m1");
  submitted_at = some 10;
  confirmation_deadline_at = some 900;
  sent_at = none;
  delivered_at = none;
  read_at = none;
  error_message = none;
}

abbrev sent_row : Dispatch
sent_row = record row { status = sent; sent_at = some 20; confirmation_deadline_at = none }

abbrev receipt : DeliveryEvent
receipt = record {
  instance_name = codes "i1";
  external_message_id = codes "m1";
  status = delivery_ack;
  occurred_at = 30;
}

abbrev ack : DeliveryEvent
ack = record receipt { status = server_ack; occurred_at = 25 }

alone-Follows : (k : ℕ) (r : Dispatch) → Follows r (alone k r)
alone-Follows k r = Follows-refl r

apply_delivery_event-AllFollow_example :
    AllFollow (row ∷ []) (apply_delivery_event alone receipt (row ∷ [])).1
apply_delivery_event-AllFollow_example =
    apply_delivery_event-AllFollow alone alone-Follows receipt (row ∷ []) ((λ e. refl, tt), tt)

apply_to_row-Tells_example :
    let (result, w) = apply_to_row alone delivery_ack 30 3 row (record { row = row; calls = 0 }) in
    Tells delivery_ack w.row result
apply_to_row-Tells_example =
    apply_to_row-Tells alone alone-Follows delivery_ack 30 2 row (record { row = row; calls = 0 })
      (Follows-refl row)

apply_to_row-deliver_example :
    (apply_to_row alone delivery_ack 30 3 row (record { row = row; calls = 0 })).1.row
    ≡ deliver delivery_ack 30 row
apply_to_row-deliver_example = apply_to_row-deliver 2 delivery_ack 30 0 row

deliver_all-perm_example :
    (deliver_all (ack ∷ receipt ∷ []) row).status ≡ (deliver_all (receipt ∷ ack ∷ []) row).status
unfolding is_stamped delivery_stage
deliver_all-perm_example =
    deliver_all-perm (ack ∷ receipt ∷ []) (receipt ∷ ack ∷ []) row 0 ∣ Permᴰ.swap refl refl ∣₁
      (refl, (refl, tt)) (refl, (refl, tt)) refl refl

abbrev queued : Dispatch
queued = record row { status = pending; external_message_id = none }

abbrev group_of_i1 : ClaimDestination
group_of_i1 = record {
  is_group = true;
  assigned_instance_name = none;
  instance_assignments = codes "i1" ∷ codes "i2" ∷ [];
}

abbrev submission : Submission
submission = record {
  external_message_id = codes "m1";
  submitted_at = 10;
  confirmation_deadline_at = 900;
}

claim_pending_for_sending_exact_example :
    let (claim, after) = claim_pending_for_sending (codes "i1") group_of_i1 (some queued) in
    ((claim ≡ claimed_for_sending) ↔ ((queued.status ≡ pending) × (true ≡ true)))
    × (claim ≡ claimed_for_sending
        → after
          ≡ some
              (record queued { status = processing; attempt_count = 1 + 1; error_message = none }))
    × ((claim ≡ sticky_instance_mismatch) ↔ ((queued.status ≡ pending) × (true ≡ false)))
    × (claim ≡ sticky_instance_mismatch
        → after
          ≡ some (record queued { status = failed; error_message = some sticky_identity_diverged }))
    × ((claim ≡ not_pending) ↔ (queued.status ≢ pending))
    × (claim ≡ not_pending → after ≡ some queued)
claim_pending_for_sending_exact_example =
    claim_pending_for_sending_exact (codes "i1") group_of_i1 queued

writes-Follow_example :
    Onward queued (mark_attempt_pending queued).1
    × OnwardIn queued (claim_pending_for_sending (codes "i1") group_of_i1 (some queued)).1
    × ((e : Dispatch) → mark_submitted submission queued ≡ ok e → Onward queued e)
    × Onward queued (expire_row 1000 queued)
writes-Follow_example = writes-Follow (codes "i1") group_of_i1 submission 1000 queued
