-- ===== src/Dispatch/Row.antt =====
-- The dispatch row and its statuses (apps/api/src/repositories.ts) and the predicates on a delivery
-- snapshot (apps/api/src/prisma-repositories.ts). A row stands for its own snapshot, which has some
-- of its columns.
use afiliado_shopee.Prelude.{
  ℕ, Bool, true, false, not, ◌&&◌, ◌||◌, Option, none, some, Text, is_some, leb,
}

pub data DispatchStatus : Type 0 where
  pending processing submitted sent delivered read failed ambiguous : DispatchStatus

pub data DeliveryEventStatus : Type 0 where
  pending server_ack delivery_ack read error : DeliveryEventStatus

pub data ErrorMessage : Type 0 where
  sticky_identity_diverged failed_before_server_ack confirmation_expired : ErrorMessage
  other_message : Text → ErrorMessage

pub record Dispatch : Type 0 where
  pub id : Text
  pub status : DispatchStatus
  pub attempt_count : ℕ
  pub instance_name : Option Text
  pub external_message_id : Option Text
  pub submitted_at : Option ℕ
  pub confirmation_deadline_at : Option ℕ
  pub sent_at : Option ℕ
  pub delivered_at : Option ℕ
  pub read_at : Option ℕ
  pub error_message : Option ErrorMessage

pub record DeliveryEvent : Type 0 where
  pub instance_name : Text
  pub external_message_id : Text
  pub status : DeliveryEventStatus
  pub occurred_at : ℕ

abbrev pub is_status : DispatchStatus → DispatchStatus → Bool
is_status pending pending = true
is_status processing processing = true
is_status submitted submitted = true
is_status sent sent = true
is_status delivered delivered = true
is_status read read = true
is_status failed failed = true
is_status ambiguous ambiguous = true
is_status _ _ = false

-- `none` is the source's -1.
unfoldable pub delivery_stage : DispatchStatus → Option ℕ
delivery_stage submitted = some 0
delivery_stage sent = some 1
delivery_stage delivered = some 2
delivery_stage read = some 3
delivery_stage _ = none

-- `stage >= n`, at an `n` above 0.
abbrev pub at_least : Option ℕ → ℕ → Bool
at_least none n = false
at_least (some s) n = leb n s

unfoldable pub event_already_satisfied : DeliveryEventStatus → Dispatch → Bool
unfolding delivery_stage
event_already_satisfied DeliveryEventStatus.pending d = true
event_already_satisfied server_ack d = at_least (delivery_stage d.status) 1 && is_some d.sent_at
event_already_satisfied delivery_ack d =
    at_least (delivery_stage d.status) 2 && is_some d.delivered_at
event_already_satisfied DeliveryEventStatus.read d =
    at_least (delivery_stage d.status) 3 && is_some d.read_at
event_already_satisfied error d = is_status d.status failed || at_least (delivery_stage d.status) 1

unfoldable pub event_blocked_by_terminal_state : DeliveryEventStatus → Dispatch → Bool
unfolding event_already_satisfied
event_blocked_by_terminal_state e d =
    (is_status d.status failed || is_status d.status ambiguous) && not (event_already_satisfied e d)
