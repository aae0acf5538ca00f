-- ===== src/Planner/Promises.antt =====
-- What holds of the slots that `planCommercialTargetSlots` returns.
use afiliado_shopee.Prelude.{
  ℕ, suc, ◌+◌, ◌-◌, ◌*◌, ◌≤◌, ◌<◌, true, false, some, List, length, take, Text, All, ◌≡◌, ◌≢◌, refl,
  sym, ap, ok, inr, ◌⊎◌, arith, length-map, length-take_le,
}
use mathlib.Core.Path.{subst}
use afiliado_shopee.Schedule.{EffectiveSchedule}
use afiliado_shopee.Schedule.Windows.{ZonedDateParts}
use afiliado_shopee.Schedule.Days.{get_local_day_range}
use afiliado_shopee.Planner.{
  Candidate, TargetState, Plan, sort_by, target_states, target_state, interval_of, next_base_of,
  is_selected_active, remaining_for_group,
}
use afiliado_shopee.Planner.Sorted.{
  Pairs, All-map, All-take, All-sort_by, All-weaken, Pairs-sort_by, Pairs-take, Pairs-map,
}
use afiliado_shopee.Planner.Target.{PlannerTarget, minute_ms, in_schedule, in_target}
use afiliado_shopee.Planner.Rounds.{total_remaining}
use afiliado_shopee.Planner.Slots.{
  Runtime, PlannedSlot, PlannerInput, planned_slot, compare_targets, compare_candidates, start_plan,
  plan_states, plan_in_day, plan_commercial_target_slots, global_remaining, horizon_end, result_of,
}
use afiliado_shopee.Planner.Started.{target_states-All, target_states-Pairs}
use afiliado_shopee.Planner.Kept.{plan_rounds-keeps}
use afiliado_shopee.Planner.Ends.{plan_rounds-ok}
use afiliado_shopee.Planner.Totals.{total, total-map, total-take_le, total-sort_by}
use afiliado_shopee.Planner.Limits.{
  in_group, room_in, limit_in-room, plan_rounds-within, target_states-within,
}
use afiliado_shopee.Planner.Bounds.{Among, All-Among, Fits, StateFits, plan_rounds-Fits}
use afiliado_shopee.Planner.Spacing.{Apart, Apart-symmetric, Spaced, round-Spaced}
use afiliado_shopee.Planner.Plans.{Planned, plan-Planned}

-- The slots of a group among those that are returned.
abbrev pub planned_in : Text → List PlannedSlot → ℕ
planned_in group = total (λ s. in_group group s.target.logical_group_fingerprint 1)

-- Targets with different logical groups.
abbrev pub OtherGroups : PlannerTarget → PlannerTarget → Type 0
OtherGroups a b = b.logical_group_fingerprint ≢ a.logical_group_fingerprint

-- Two slots of one logical group that are at least the schedule's minimum interval apart.
abbrev pub SlotsApart : EffectiveSchedule → PlannedSlot → PlannedSlot → Type 0
SlotsApart schedule a b =
    a.target.logical_group_fingerprint ≡ b.target.logical_group_fingerprint
    → (a.scheduled_for + schedule.minimum_interval_minutes * minute_ms ≤ b.scheduled_for)
      ⊎ (b.scheduled_for + schedule.minimum_interval_minutes * minute_ms ≤ a.scheduled_for)

module _ (zoned : Text → ℕ → ZonedDateParts) (runtime : Runtime) (input : PlannerInput) where
  -- A slot of one of the targets at a time that the schedule and the target allow.
  abbrev pub IsAllowedSlot : ℕ × ℕ → PlannedSlot → Type 0
  IsAllowedSlot day s =
      (t : PlannerTarget) × Among t input.targets
      × (s.target.campaign_id ≡ t.campaign_id)
      × (s.target.group_id ≡ t.group_id)
      × (input.now ≤ s.scheduled_for)
      × (s.scheduled_for ≤ day.1)
      × (s.scheduled_for ≤ input.now + input.horizon_minutes * minute_ms)
      × (in_schedule zoned input.schedule s.scheduled_for ≡ true)
      × (in_target zoned input.schedule t s.scheduled_for ≡ true)
      × (is_selected_active t s.target.instance_name ≡ true)

  module _ (slots : List PlannedSlot) (skipped : List Text)
      (planned : plan_commercial_target_slots zoned runtime input ≡ ok (slots, skipped)) where
    way : Planned zoned runtime input slots skipped
    way = plan-Planned zoned runtime input slots skipped planned

    slots_eq : slots ≡ (result_of zoned runtime input way.plan).0
    slots_eq = ap (λ r. r.0) way.result

    abbrev IsTarget : PlannerTarget → Type 0
    IsTarget t = Among t input.targets

    started-StateFits : All (StateFits zoned input.now input.schedule IsTarget) way.states
    unfolding target_state next_base_of interval_of
    started-StateFits =
        target_states-All zoned input.now input.schedule way.day input.max_slots_per_target
          (StateFits zoned input.now input.schedule IsTarget) IsTarget
          (λ t anchor q n m. (q, omega arith, omega arith)) _ way.states way.left_out
          (All-sort_by IsTarget (compare_targets runtime) input.targets (All-Among input.targets))
          way.started

    abbrev SpacedHere : List TargetState → Plan → Type 0
    SpacedHere = Spaced zoned input.now input.schedule (horizon_end zoned runtime input way.day)

    started-Spaced :
        Pairs OtherGroups input.targets → SpacedHere way.states (start_plan way.left_out)
    unfolding target_state interval_of
    started-Spaced differ = (
      tt,
      target_states-All zoned input.now input.schedule way.day input.max_slots_per_target
          (λ st. (input.schedule.minimum_interval_minutes ≤ st.interval) × (0 < st.interval) × Unit)
          IsTarget (λ t anchor q n m. (omega arith, omega arith, tt)) _ way.states way.left_out
          (All-sort_by IsTarget (compare_targets runtime) input.targets (All-Among input.targets))
          way.started,
      target_states-Pairs zoned input.now input.schedule way.day input.max_slots_per_target
          OtherGroups _ way.states way.left_out
          (Pairs-sort_by OtherGroups (λ a b other same. other (sym same)) (compare_targets runtime)
            input.targets differ)
          way.started,
    )

    candidates-Apart :
        Pairs OtherGroups input.targets
        → Pairs (Apart (input.schedule.minimum_interval_minutes * minute_ms)) way.plan.candidates
    candidates-Apart differ =
        (plan_rounds-keeps zoned input.now input.schedule (horizon_end zoned runtime input way.day)
          SpacedHere
          (λ g s p kept.
            round-Spaced zoned input.now input.schedule (horizon_end zoned runtime input way.day) g
              s (record p { made_progress = false }) kept)
          _ _ way.states (start_plan way.left_out) way.plan (started-Spaced differ) way.ended).1.0

    -- A plan has no more slots than the global daily limit leaves after the messages sent today.
    pub plan-global_limit :
        length slots ≤ input.schedule.daily_global_limit - input.global_sent_today
    plan-global_limit = rw slots_eq (
        omega (
          arith,
          length-map (planned_slot runtime input.now input.schedule)
              (take _ (sort_by (compare_candidates runtime) way.plan.candidates)),
          length-take_le (input.schedule.daily_global_limit - input.global_sent_today)
              (sort_by (compare_candidates runtime) way.plan.candidates),
        ))

    -- For each logical group, a plan has no more slots than the sum, over the group's targets, of what
    -- is left to the target: the smaller of the target's daily limit and the schedule's daily limit
    -- for a group, each less what the group has got today, and no more than the slots asked for each
    -- target where a number is asked.
    pub plan-group_limit :
        (group : Text)
        → planned_in group slots
          ≤ room_in group input.schedule input.max_slots_per_target input.targets
    plan-group_limit group =
        let sorted = sort_by (compare_candidates runtime) way.plan.candidates in
        let count = λ (c : Candidate). in_group group c.target.logical_group_fingerprint 1 in
        let limit = λ (t : PlannerTarget).
          in_group group t.logical_group_fingerprint
            (remaining_for_group input.schedule input.max_slots_per_target t) in
        rw slots_eq (
          omega (
            arith,
            total-map (λ s. in_group group s.target.logical_group_fingerprint 1) count
                (planned_slot runtime input.now input.schedule) (λ c. unfold planned_slot in refl)
                (take (global_remaining zoned runtime input) sorted),
            total-take_le count (global_remaining zoned runtime input) sorted,
            total-sort_by count (compare_candidates runtime) way.plan.candidates,
            plan_rounds-within group zoned input.now input.schedule
                (horizon_end zoned runtime input way.day) _ _ _ _ _ way.ended,
            target_states-within group zoned input.now input.schedule way.day
                input.max_slots_per_target _ _ _ way.started,
            total-sort_by limit (compare_targets runtime) input.targets,
            limit_in-room group input.schedule input.max_slots_per_target input.targets,
          ))

    -- Each slot of a plan is for one of the targets, at an instant that is not before now, not after
    -- the day's end and not after the horizon, inside the window of the schedule and the target's
    -- own, with an instance that is active.
    pub plan-allowed :
        (day : ℕ × ℕ)
        → get_local_day_range zoned input.now input.schedule.timezone ≡ some day
        → All (IsAllowedSlot day) slots
    unfolding planned_slot
    plan-allowed day is_day =
        let same : way.day ≡ day = grind (arith, way.is_day) in
        subst (λ d. All (IsAllowedSlot d) slots) same
          (rw slots_eq (
            All-map (IsAllowedSlot way.day) (planned_slot runtime input.now input.schedule) _ (
              All-weaken (Fits zoned input.now input.schedule IsTarget horizon) _ _ allowed_at (
                All-take (Fits zoned input.now input.schedule IsTarget horizon) _ _ (
                  All-sort_by (Fits zoned input.now input.schedule IsTarget horizon)
                    (compare_candidates runtime) way.plan.candidates fit)))))
      where
        horizon : ℕ
        horizon = horizon_end zoned runtime input way.day

        fit : All (Fits zoned input.now input.schedule IsTarget horizon) way.plan.candidates
        fit =
            plan_rounds-Fits zoned input.now input.schedule IsTarget horizon _ _ way.states
              (start_plan way.left_out) way.plan started-StateFits tt way.ended

        allowed_at :
            (c : Candidate)
            → Fits zoned input.now input.schedule IsTarget horizon c
            → IsAllowedSlot way.day (planned_slot runtime input.now input.schedule c)
        allowed_at c f = (
          c.target,
          f.is_target,
          refl,
          refl,
          f.not_before,
          omega (arith, f.not_after),
          omega (arith, f.not_after),
          f.allowed,
          f.target_allowed,
          f.selected_active,
        )

    -- Where no two targets have one logical group, any two slots of a group are at least the
    -- schedule's minimum interval apart.
    pub plan-spaced : Pairs OtherGroups input.targets → Pairs (SlotsApart input.schedule) slots
    unfolding planned_slot
    plan-spaced differ = rw slots_eq (
        Pairs-map (SlotsApart input.schedule) (planned_slot runtime input.now input.schedule) _ (
          Pairs-take _ _ _ (
            Pairs-sort_by gap_apart
              (Apart-symmetric (input.schedule.minimum_interval_minutes * minute_ms))
              (compare_candidates runtime) way.plan.candidates (candidates-Apart differ))))
      where
        gap_apart : Candidate → Candidate → Type 0
        gap_apart = Apart (input.schedule.minimum_interval_minutes * minute_ms)

  -- The loop over the targets ends: where the day has its bounds and the targets have their states,
  -- a plan is returned.
  pub plan-returns :
      (day : ℕ × ℕ) (start : List TargetState × List Text)
      → get_local_day_range zoned input.now input.schedule.timezone ≡ some day
      → target_states zoned input.now input.schedule day input.max_slots_per_target
          (sort_by (compare_targets runtime) input.targets)
        ≡ ok start
      → (slots : List PlannedSlot) × (skipped : List Text) × (plan_commercial_target_slots zoned
            runtime input
          ≡ ok (slots, skipped))
  unfolding plan_commercial_target_slots plan_in_day plan_states
  plan-returns day start is_day started =
      let (plan, e) =
        plan_rounds-ok zoned input.now input.schedule (horizon_end zoned runtime input day)
          (global_remaining zoned runtime input) (suc (total_remaining start.0)) start.0
          (start_plan start.1) (inr (omega arith)) in
      let result = result_of zoned runtime input plan in
      (result.0, result.1, rw (is_day, started, e) refl)
