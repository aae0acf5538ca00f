-- ===== src/Dispatch/Outcomes.antt =====
-- What the result of `applyDeliveryEvent` tells of the row.
use afiliado_shopee.Prelude.{
  ℕ, zero, suc, ◌+◌, true, false, ◌≡◌, refl, Option, none, some, arith, Bool-cases, inl, inr,
}
use afiliado_shopee.Dispatch.{
  ApplyResult, updated, noop, not_found, still_pending, blocked, transition, attempt, apply_to_row,
  try_transition, no_transition, lost_race, respond_noop, respond_updated,
}
use afiliado_shopee.Dispatch.Row.{
  DeliveryEventStatus, Dispatch, event_already_satisfied, event_blocked_by_terminal_state,
}
use afiliado_shopee.Dispatch.Store.{World, Env, Transition, matches}
use afiliado_shopee.Dispatch.Progress.{Follows, Follows-refl, Follows-trans}

-- A later state of a row that has met an event still meets it.
satisfied-Follows :
    (e : DeliveryEventStatus) (a b : Dispatch)
    → Follows a b
    → event_already_satisfied e a ≡ true
    → event_already_satisfied e b ≡ true
unfolding event_already_satisfied
satisfied-Follows e a b f h = ground arith

-- A transition from an earlier state of the row makes it meet the event.
transition-satisfies :
    (e : DeliveryEventStatus) (at : ℕ) (current r : Dispatch) {t : Transition}
    → Follows current r
    → transition e at current ≡ some t
    → matches t r ≡ true
    → event_already_satisfied e (t.assign r) ≡ true
unfolding transition event_already_satisfied
transition-satisfies e at current r f h m = ground arith

-- The answer carries the row that the last read saw, and the answer's kind is true of it.
abbrev pub Tells : DeliveryEventStatus → Dispatch → ApplyResult → Type 0
Tells e row (updated d) = (d ≡ row) × (event_already_satisfied e d ≡ true)
Tells e row (noop (some d)) = (d ≡ row) × (event_already_satisfied e d ≡ true)
Tells e row (blocked d) = (d ≡ row) × (event_blocked_by_terminal_state e d ≡ true)
Tells e row (still_pending d) =
    (d ≡ row)
    × (event_already_satisfied e d ≡ false)
    × (event_blocked_by_terminal_state e d ≡ false)
Tells e row (noop none) = ⊥
Tells e row not_found = ⊥

module _ (env : Env) (calm : (k : ℕ) (r : Dispatch) → Follows r (env k r)) where
  module _ (e : DeliveryEventStatus) (at : ℕ) where
    no_transition-Tells :
        (w : World) → let (result, w') = no_transition env e at w in Tells e w'.row result
    unfolding no_transition
    no_transition-Tells w =
        let r = env w.calls w.row in
        elim (Bool-cases (event_already_satisfied e r)) [
          | inl met ↦ rw met (refl, met)
          | inr unmet ↦ elim (Bool-cases (event_blocked_by_terminal_state e r)) [
            | inl stuck ↦ rw (unmet, stuck) (refl, stuck)
            | inr free ↦ rw (unmet, free) (refl, unmet, free)
          ]
        ]

    -- What a round has to do when it starts from a row that neither meets nor bars the event.
    abbrev Onward : (Dispatch → World → ApplyResult × World) → Type 0
    Onward again =
        (w : World)
        → event_already_satisfied e w.row ≡ false
        → event_blocked_by_terminal_state e w.row ≡ false
        → let (result, w') = again w.row w in Tells e w'.row result

    lost_race-Tells :
        (again : Dispatch → World → ApplyResult × World)
        → Onward again
        → (w : World) → let (result, w') = lost_race env e at again w in Tells e w'.row result
    unfolding lost_race
    lost_race-Tells again ih w =
        let r = env w.calls w.row in
        elim (Bool-cases (event_already_satisfied e r)) [
          | inl met ↦ rw met (refl, met)
          | inr unmet ↦ elim (Bool-cases (event_blocked_by_terminal_state e r)) [
            | inl stuck ↦ rw (unmet, stuck) (refl, stuck)
            | inr free ↦ rw (unmet, free) (ih (record { row = r; calls = w.calls + 1 }) unmet free)
          ]
        ]

    respond-Tells :
        (w : World)
        → event_already_satisfied e w.row ≡ true
        → (let (result, w') = respond_updated env e at w in Tells e w'.row result)
          × (let (result, w') = respond_noop env e at w in Tells e w'.row result)
    unfolding respond_updated respond_noop
    respond-Tells w met =
        let later = satisfied-Follows e w.row (env w.calls w.row) (calm w.calls w.row) met in
        ((refl, later), (refl, later))

    try_transition-Tells :
        (again : Dispatch → World → ApplyResult × World)
        → Onward again
        → (current : Dispatch) (o : Option Transition) → transition e at current ≡ o
        → (w : World) → Follows current w.row
        → let (result, w') = try_transition env e at again o w in Tells e w'.row result
    unfolding try_transition
    try_transition-Tells again ih current none h w f = no_transition-Tells w
    try_transition-Tells again ih current (some t) h w f =
        let r = env w.calls w.row in
        elim (Bool-cases (matches t r)) [
          | inl hit ↦
              rw hit
                (respond-Tells (record { row = t.assign r; calls = w.calls + 1 })
                  (transition-satisfies e at current r (Follows-trans f (calm w.calls w.row)) h
                    hit)).0
          | inr miss ↦ rw miss (lost_race-Tells again ih (record { row = r; calls = w.calls + 1 }))
        ]

    attempt-Tells :
        (again : Dispatch → World → ApplyResult × World)
        → Onward again
        → (current : Dispatch) (w : World) → Follows current w.row
        → let (result, w') = attempt env e at again current w in Tells e w'.row result
    unfolding attempt
    attempt-Tells again ih current w f = elim (Bool-cases (event_already_satisfied e current)) [
      | inl done ↦ rw done (respond-Tells w (satisfied-Follows e current w.row f done)).1
      | inr todo ↦ rw todo (try_transition-Tells again ih current _ refl w f)
    ]

    onward : (n : ℕ) → Onward (apply_to_row env e at n)
    unfolding apply_to_row
    onward zero w unmet free = (refl, unmet, free)
    onward (suc n) w unmet free =
        attempt-Tells (apply_to_row env e at n) (onward n) w.row w (Follows-refl w.row)

    -- While every other writer only moves the row forward, a delivery event that starts from an
    -- earlier state of the row, with at least one attempt, answers truly of the row that its last
    -- read saw: `updated` and `noop` that the row has met the event, `blocked` that it is failed
    -- or ambiguous and has not met it, `still_pending` that it has not met it and is not barred
    -- either.
    pub apply_to_row-Tells :
        (n : ℕ) (current : Dispatch) (w : World)
        → Follows current w.row
        → let (result, w') = apply_to_row env e at (suc n) current w in Tells e w'.row result
    unfolding apply_to_row
    apply_to_row-Tells n current w f =
        attempt-Tells (apply_to_row env e at n) (onward n) current w f
