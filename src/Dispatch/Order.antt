-- ===== src/Dispatch/Order.antt =====
-- Delivery events on a row that nobody else writes: the loop against one conditional update, and
-- events in any order.
use mathlib.Core.Logic.{∥∥₁_elim}
use mathlib.Core.List.{Perm, Permᴰ}
use native.Mathlib.Nat.{ℕ_set}
use afiliado_shopee.Prelude.{
  ap, ℕ, suc, max, ◌&&◌, Bool, true, ◌≡◌, refl, ◌∙◌, Option, none, some, List, [], ◌∷◌, All, arith,
  if◌then◌else◌, is_some,
}
use afiliado_shopee.Dispatch.{transition, apply_to_row}
use afiliado_shopee.Dispatch.Row.{
  DispatchStatus, sent, delivered, DeliveryEventStatus, pending, server_ack, delivery_ack, read,
  error, DeliveryEvent, Dispatch, delivery_stage, event_already_satisfied,
}
use afiliado_shopee.Dispatch.Store.{Env, Transition}

abbrev pub alone : Env
alone k r = r

-- What one delivery event means for a row.
abbrev pub transitioned : Option Transition → Dispatch → Dispatch
transitioned none d = d
transitioned (some t) d = t.assign d

unfoldable pub deliver : DeliveryEventStatus → ℕ → Dispatch → Dispatch
deliver e at d = if event_already_satisfied e d then d else transitioned (transition e at d) d

-- On a row that nobody else writes, with at least one attempt left the loop writes exactly what
-- one conditional update writes: nothing if the event is met already or no transition fits, and
-- else the transition.
pub apply_to_row-deliver :
    (n : ℕ) (e : DeliveryEventStatus) (at k : ℕ) (d : Dispatch)
    → (apply_to_row alone e at (suc n) d (record { row = d; calls = k })).1.row ≡ deliver e at d
unfolding apply_to_row deliver transition
apply_to_row-deliver n e at k d = ground arith

-- The times that a status stands for are written.
unfoldable pub is_stamped : Dispatch → Bool
is_stamped d = elim d.status [
  | sent ↦ is_some d.sent_at
  | delivered ↦ is_some d.sent_at && is_some d.delivered_at
  | DispatchStatus.read ↦ is_some d.sent_at && (is_some d.delivered_at && is_some d.read_at)
  | _ ↦ true
]

deliver-is_stamped :
    (e : DeliveryEventStatus) (at : ℕ) (d : Dispatch)
    → is_stamped d ≡ true
    → is_stamped (deliver e at d) ≡ true
unfolding deliver transition is_stamped event_already_satisfied
deliver-is_stamped e at d h = ground arith

-- On a row whose times are written as its status says, an event that was delivered once changes
-- nothing when it is delivered again, at any time.
pub deliver_idem :
    (e : DeliveryEventStatus) (at at' : ℕ) (d : Dispatch)
    → is_stamped d ≡ true
    → deliver e at' (deliver e at d) ≡ deliver e at d
unfolding deliver transition is_stamped event_already_satisfied
deliver_idem e at at' d h = ground arith

-- The stage that an acknowledgement brings a row to; `none` is a reported error.
abbrev pub ack_stage : DeliveryEventStatus → Option ℕ
ack_stage pending = some 0
ack_stage server_ack = some 1
ack_stage delivery_ack = some 2
ack_stage read = some 3
ack_stage error = none

abbrev pub IsAck : DeliveryEvent → Type 0
IsAck e = is_some (ack_stage e.status) ≡ true

abbrev pub higher : Option ℕ → ℕ → ℕ
higher none s = s
higher (some a) s = max a s

pub top_stage : List DeliveryEvent → ℕ → ℕ
top_stage [] s = s
top_stage (e ∷ es) s = top_stage es (higher (ack_stage e.status) s)

pub deliver_all : List DeliveryEvent → Dispatch → Dispatch
deliver_all [] d = d
deliver_all (e ∷ es) d = deliver_all es (deliver e.status e.occurred_at d)

deliver_stage :
    (e : DeliveryEventStatus) (at : ℕ) (d : Dispatch) (s : ℕ)
    → is_stamped d ≡ true
    → is_some (ack_stage e) ≡ true
    → delivery_stage d.status ≡ some s
    → delivery_stage (deliver e at d).status ≡ some (higher (ack_stage e) s)
unfolding deliver transition is_stamped event_already_satisfied delivery_stage
deliver_stage e at d s h a p = ground arith

pub deliver_all-stage :
    (es : List DeliveryEvent) (d : Dispatch) (s : ℕ)
    → is_stamped d ≡ true
    → All IsAck es
    → delivery_stage d.status ≡ some s
    → delivery_stage (deliver_all es d).status ≡ some (top_stage es s)
unfolding deliver_all top_stage
deliver_all-stage [] d s h a p = p
deliver_all-stage (e ∷ es) d s h a p =
    deliver_all-stage es (deliver e.status e.occurred_at d) (higher (ack_stage e.status) s)
      (deliver-is_stamped e.status e.occurred_at d h) a.1
      (deliver_stage e.status e.occurred_at d s h a.0 p)

higher_comm : (a b : Option ℕ) (s : ℕ) → higher a (higher b s) ≡ higher b (higher a s)
higher_comm a b s = ground arith

top_stage-permᴰ :
    {es fs : List DeliveryEvent} → Permᴰ es fs → (s : ℕ) → top_stage es s ≡ top_stage fs s
unfolding top_stage
top_stage-permᴰ Permᴰ.nil s = refl
top_stage-permᴰ (Permᴰ.cons {b = b} same p) s =
    rw same (top_stage-permᴰ p (higher (ack_stage b.status) s))
top_stage-permᴰ (Permᴰ.swap {a = a} {b = b} {l = l} p q) s =
    rw (← p, ← q) (ap (top_stage l) (higher_comm (ack_stage b.status) (ack_stage a.status) s))
top_stage-permᴰ (Permᴰ.trans p q) s = top_stage-permᴰ p s ∙ top_stage-permᴰ q s

stage_injective :
    (a b : DispatchStatus) {s : ℕ} → delivery_stage a ≡ some s → delivery_stage b ≡ some s → a ≡ b
unfolding delivery_stage
stage_injective a b p q = ground arith

-- Acknowledgements that arrive in any two orders leave a submitted or confirmed row, whose times
-- are written as its status says, with the same status.
pub deliver_all-perm :
    (es fs : List DeliveryEvent) (d : Dispatch) (s : ℕ)
    → Perm es fs
    → All IsAck es
    → All IsAck fs
    → is_stamped d ≡ true
    → delivery_stage d.status ≡ some s
    → (deliver_all es d).status ≡ (deliver_all fs d).status
deliver_all-perm es fs d s p acks acks' stamped stage =
    let same : top_stage es s ≡ top_stage fs s =
      ∥∥₁_elim p (ℕ_set _ _) (λ q. top_stage-permᴰ q s) in
    stage_injective _ _ (deliver_all-stage es d s stamped acks stage)
      (rw same (deliver_all-stage fs d s stamped acks' stage))
