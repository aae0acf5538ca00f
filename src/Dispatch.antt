-- ===== src/Dispatch.antt =====
-- The repository of dispatches, `PrismaWhatsAppDispatchRepository` of
-- apps/api/src/prisma-repositories.ts: claiming, submission, delivery events and expiry.
pub mod Row
pub mod Store
pub mod Writes
pub mod Progress
pub mod Table
pub mod Outcomes
pub mod Order
pub mod Guards
use afiliado_shopee.Prelude.{
  ℕ, zero, suc, ◌+◌, Bool, true, false, ◌&&◌, ◌||◌, not, Option, none, some, List, [], ◌∷◌, Text,
  text_eq, option_eq, ◌==◌, is_some, leb, length, includes, get_elem?, select, take, map,
  if◌then◌else◌,
}
use Row.{
  DispatchStatus, DeliveryEventStatus, server_ack, delivery_ack, error, Dispatch, DeliveryEvent,
  is_status, event_already_satisfied, event_blocked_by_terminal_state, submitted, sent, delivered,
  failed, ambiguous, processing, sticky_identity_diverged, failed_before_server_ack,
  confirmation_expired, ErrorMessage,
}
use Store.{World, Env, read_row, Transition, update_row}

pub data ApplyResult : Type 0 where
  updated : Dispatch → ApplyResult
  noop : Option Dispatch → ApplyResult
  not_found : ApplyResult
  still_pending : Dispatch → ApplyResult
  blocked : Dispatch → ApplyResult

-- `...(current === null ? { column: occurredAt } : {})`: the stored column stays otherwise.
abbrev pub stamp : Option ℕ → ℕ → Option ℕ → Option ℕ
stamp none at column = some at
stamp (some t) at column = column

abbrev pub sent_update : Dispatch → ℕ → Dispatch → Dispatch
sent_update current at r = record r {
  status = sent;
  sent_at = stamp current.sent_at at r.sent_at;
  confirmation_deadline_at = none;
  error_message = none;
}

abbrev pub delivered_update : Dispatch → ℕ → Dispatch → Dispatch
delivered_update current at r = record r {
  status = delivered;
  sent_at = stamp current.sent_at at r.sent_at;
  delivered_at = stamp current.delivered_at at r.delivered_at;
  confirmation_deadline_at = none;
  error_message = none;
}

abbrev pub read_update : Dispatch → ℕ → Dispatch → Dispatch
read_update current at r = record r {
  status = DispatchStatus.read;
  sent_at = stamp current.sent_at at r.sent_at;
  delivered_at = stamp current.delivered_at at r.delivered_at;
  read_at = stamp current.read_at at r.read_at;
  confirmation_deadline_at = none;
  error_message = none;
}

abbrev pub failed_update : Dispatch → Dispatch
failed_update r = record r {
  status = failed;
  confirmation_deadline_at = none;
  error_message = some failed_before_server_ack;
}

abbrev pub up_to_submitted : DispatchStatus → Bool
up_to_submitted s = is_status s submitted

abbrev pub up_to_sent : DispatchStatus → Bool
up_to_sent s = is_status s submitted || is_status s sent

abbrev pub up_to_delivered : DispatchStatus → Bool
up_to_delivered s = is_status s submitted || (is_status s sent || is_status s delivered)

abbrev when : Bool → Transition → Option Transition
when b t = if b then some t else none

-- The `transition` that `applyDeliveryEvent` tries from a snapshot.
unfoldable pub transition : DeliveryEventStatus → ℕ → Dispatch → Option Transition
transition server_ack at current = when (up_to_submitted current.status) (record {
  from_status = up_to_submitted;
  from_sent_at = current.sent_at;
  assign = sent_update current at;
})
transition delivery_ack at current = when (up_to_sent current.status) (record {
  from_status = up_to_sent;
  from_sent_at = current.sent_at;
  assign = delivered_update current at;
})
transition DeliveryEventStatus.read at current = when (up_to_delivered current.status) (record {
  from_status = up_to_delivered;
  from_sent_at = current.sent_at;
  assign = read_update current at;
})
transition error at current =
    when (up_to_submitted current.status && not (is_some current.sent_at))
      (record { from_status = up_to_submitted; from_sent_at = none; assign = failed_update })
transition DeliveryEventStatus.pending at current = none

module _ (env : Env) (event : DeliveryEventStatus) (at : ℕ) where
  -- The branch with no transition.
  unfoldable pub no_transition : World → ApplyResult × World
  unfolding read_row
  no_transition w =
      let (r, w') = read_row env w in
      if event_already_satisfied event r
      then (noop (some r), w')
      else if event_blocked_by_terminal_state event r
      then (blocked r, w')
      else (still_pending r, w')

  unfoldable pub respond_updated : World → ApplyResult × World
  unfolding read_row
  respond_updated w = let (r, w') = read_row env w in (updated r, w')

  unfoldable pub respond_noop : World → ApplyResult × World
  unfolding read_row
  respond_noop w = let (r, w') = read_row env w in (noop (some r), w')

  -- The loop, by the attempts left after this one; `again` is the next round from a new snapshot.
  unfoldable pub lost_race : (Dispatch → World → ApplyResult × World) → World → ApplyResult × World
  unfolding read_row
  lost_race again w =
      let (r, w') = read_row env w in
      if event_already_satisfied event r
      then (noop (some r), w')
      else if event_blocked_by_terminal_state event r
      then (blocked r, w')
      else again r w'

  unfoldable pub try_transition :
      (Dispatch → World → ApplyResult × World) → Option Transition → World → ApplyResult × World
  unfolding no_transition respond_updated lost_race update_row
  try_transition again none w = no_transition w
  try_transition again (some t) w =
      let (changed, w') = update_row env t w in
      if changed then respond_updated w' else lost_race again w'

  unfoldable pub attempt :
      (Dispatch → World → ApplyResult × World) → Dispatch → World → ApplyResult × World
  unfolding respond_noop try_transition
  attempt again current w =
      if event_already_satisfied event current
      then respond_noop w
      else try_transition again (transition event at current) w

  abbrev give_up : Dispatch → World → ApplyResult × World
  give_up r w = (still_pending r, w)

  unfoldable pub apply_to_row : ℕ → Dispatch → World → ApplyResult × World
  unfolding attempt
  apply_to_row zero current w = give_up current w
  apply_to_row (suc more) current w = attempt (apply_to_row more) current w

abbrev pub correlates : DeliveryEvent → Dispatch → Bool
correlates input d =
    (d.instance_name == some input.instance_name)
    && (d.external_message_id == some input.external_message_id)

-- The row with an id is the one that the run of the loop left.
abbrev pub replace_row : Dispatch → List Dispatch → List Dispatch
replace_row r = map (λ d. if d.id == r.id then r else d)

module _ (env : Env) (input : DeliveryEvent) where
  -- One correlated row gets three attempts.
  apply_to_only : Dispatch → List Dispatch → ApplyResult × List Dispatch
  unfolding apply_to_row
  apply_to_only d rows =
      let (result, w) =
        apply_to_row env input.status input.occurred_at 3 d (record { row = d; calls = 0 }) in
      (result, replace_row w.row rows)

  apply_correlated : List Dispatch → List Dispatch → ApplyResult × List Dispatch
  unfolding apply_to_only
  apply_correlated [] rows = (not_found, rows)
  apply_correlated (d ∷ []) rows = apply_to_only d rows
  apply_correlated (d ∷ e ∷ more) rows = (noop none, rows)

  unfoldable pub apply_delivery_event : List Dispatch → ApplyResult × List Dispatch
  unfolding apply_correlated
  apply_delivery_event rows = apply_correlated (take 2 (select (correlates input) rows)) rows
