-- ===== src/Dispatch/Progress.antt =====
-- The order in which a dispatch may move, and that the writes respect it.
use afiliado_shopee.Prelude.{
  ℕ, zero, suc, ◌+◌, Bool, true, false, ◌≡◌, refl, ◌∙◌, Option, none, some, is_some, nat_beq, arith,
  Bool-cases, inl, inr, nat_eq, option_eq,
}
use afiliado_shopee.Dispatch.{
  ApplyResult, transition, attempt, apply_to_row, try_transition, no_transition, lost_race,
  respond_noop, respond_updated,
}
use afiliado_shopee.Dispatch.Row.{
  DispatchStatus, pending, processing, submitted, sent, delivered, read, DeliveryEventStatus,
  Dispatch, is_status, event_already_satisfied,
}
use afiliado_shopee.Dispatch.Store.{World, Env, read_row, Transition, matches, update_row}

-- `may_follow s t`: a row that was `s` may be `t` later.
abbrev pub may_follow : DispatchStatus → DispatchStatus → Bool
may_follow pending t = true
may_follow processing pending = false
may_follow processing t = true
may_follow submitted pending = false
may_follow submitted processing = false
may_follow submitted t = true
may_follow sent sent = true
may_follow sent delivered = true
may_follow sent read = true
may_follow sent t = false
may_follow delivered delivered = true
may_follow delivered read = true
may_follow delivered t = false
may_follow s t = is_status s t

may_follow_refl : (s : DispatchStatus) → may_follow s s ≡ true
may_follow_refl s = ground arith

may_follow_trans :
    (s t u : DispatchStatus) → may_follow s t ≡ true → may_follow t u ≡ true → may_follow s u ≡ true
may_follow_trans s t u h k = ground arith

abbrev pub keeps : Option ℕ → Option ℕ → Bool
keeps none b = true
keeps (some t) none = false
keeps (some t) (some u) = nat_beq t u

abbrev pub implies : Bool → Bool → Bool
implies false b = true
implies true b = b

-- What a later state of a row keeps of an earlier one.
pub record Follows (a b : Dispatch) : Type 0 where
  pub id : a.id ≡ b.id
  pub status : may_follow a.status b.status ≡ true
  pub sent_at : keeps a.sent_at b.sent_at ≡ true
  pub delivered_set : implies (is_some a.delivered_at) (is_some b.delivered_at) ≡ true
  pub read_set : implies (is_some a.read_at) (is_some b.read_at) ≡ true

pub Follows-refl : (a : Dispatch) → Follows a a
Follows-refl a = record {
  id = refl;
  status = may_follow_refl a.status;
  sent_at = ground arith;
  delivered_set = ground arith;
  read_set = ground arith;
}

pub Follows-trans : {a b c : Dispatch} → Follows a b → Follows b c → Follows a c
Follows-trans {a} {b} {c} p q = record {
  id = p.id ∙ q.id;
  status = may_follow_trans a.status b.status c.status p.status q.status;
  sent_at = ground (arith, p.sent_at, q.sent_at);
  delivered_set = ground (arith, p.delivered_set, q.delivered_set);
  read_set = ground (arith, p.read_set, q.read_set);
}

-- A transition moves a row forward if its guard holds of the row.
pub transition-Follows :
    (e : DeliveryEventStatus) (at : ℕ) (current r : Dispatch) {t : Transition}
    → transition e at current ≡ some t
    → matches t r ≡ true
    → Follows r (t.assign r)
unfolding transition
transition-Follows e at current r h m = ground arith

module _ (env : Env) (calm : (k : ℕ) (r : Dispatch) → Follows r (env k r)) where
  read_row-Follows : (w : World) → Follows w.row (read_row env w).1.row
  unfolding read_row
  read_row-Follows w = calm w.calls w.row

  module _ (e : DeliveryEventStatus) (at : ℕ) where
    no_transition-Follows : (w : World) → Follows w.row (no_transition env e at w).1.row
    unfolding no_transition
    no_transition-Follows w = ground (arith, calm w.calls w.row)

    lost_race-Follows :
        (again : Dispatch → World → ApplyResult × World)
        → ((d : Dispatch) (v : World) → Follows v.row (again d v).1.row)
        → (w : World) → Follows w.row (lost_race env e at again w).1.row
    unfolding lost_race
    lost_race-Follows again ih w =
        let r = env w.calls w.row in
        let later : World = record { row = r; calls = w.calls + 1 } in
        let onward = Follows-trans (calm w.calls w.row) (ih r later) in
        ground (arith, calm w.calls w.row, onward)

    respond-Follows :
        (w : World)
        → Follows w.row (respond_updated env e at w).1.row
          × Follows w.row (respond_noop env e at w).1.row
    unfolding respond_updated respond_noop
    respond-Follows w = (calm w.calls w.row, calm w.calls w.row)

    update_row-Follows :
        (current : Dispatch) {t : Transition}
        → transition e at current ≡ some t
        → (w : World) → Follows w.row (update_row env t w).1.row
    unfolding update_row
    update_row-Follows current {t} h w =
        let r = env w.calls w.row in
        elim (Bool-cases (matches t r)) [
          | inl hit ↦
              rw hit (Follows-trans (calm w.calls w.row) (transition-Follows e at current r h hit))
          | inr miss ↦ rw miss (calm w.calls w.row)
        ]

    try_transition-Follows :
        (again : Dispatch → World → ApplyResult × World)
        → ((d : Dispatch) (v : World) → Follows v.row (again d v).1.row)
        → (current : Dispatch) (o : Option Transition) → transition e at current ≡ o
        → (w : World) → Follows w.row (try_transition env e at again o w).1.row
    unfolding try_transition
    try_transition-Follows again ih current none h w = no_transition-Follows w
    try_transition-Follows again ih current (some t) h w =
        let (changed, w') = update_row env t w in
        let onward = update_row-Follows current h w in
        elim (Bool-cases changed) [
          | inl hit ↦ rw hit (Follows-trans onward (respond-Follows w').0)
          | inr miss ↦ rw miss (Follows-trans onward (lost_race-Follows again ih w'))
        ]

    attempt-Follows :
        (again : Dispatch → World → ApplyResult × World)
        → ((d : Dispatch) (v : World) → Follows v.row (again d v).1.row)
        → (current : Dispatch) (w : World) → Follows w.row (attempt env e at again current w).1.row
    unfolding attempt
    attempt-Follows again ih current w = elim (Bool-cases (event_already_satisfied e current)) [
      | inl done ↦ rw done (respond-Follows w).1
      | inr todo ↦ rw todo (try_transition-Follows again ih current _ refl w)
    ]

    -- While every other writer only moves the row forward, a delivery event moves it only forward,
    -- whatever snapshot it starts from and however often it loses the race.
    pub apply_to_row-Follows :
        (n : ℕ) (current : Dispatch) (w : World)
        → Follows w.row (apply_to_row env e at n current w).1.row
    unfolding apply_to_row
    apply_to_row-Follows zero current w = Follows-refl w.row
    apply_to_row-Follows (suc n) current w =
        attempt-Follows (apply_to_row env e at n) (apply_to_row-Follows n) current w
