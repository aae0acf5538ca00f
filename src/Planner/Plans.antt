-- ===== src/Planner/Plans.antt =====
-- What holds of the slots that `planCommercialTargetSlots` returns.
use afiliado_shopee.Prelude.{
  ℕ, suc, Option, none, some, List, Text, ◌≡◌, ok, ◌>>=◌, returned, arith,
}
use afiliado_shopee.Schedule.Windows.{ZonedDateParts}
use afiliado_shopee.Schedule.Days.{get_local_day_range}
use afiliado_shopee.Planner.{TargetState, Plan, sort_by, target_states}
use afiliado_shopee.Planner.Rounds.{plan_rounds, total_remaining}
use afiliado_shopee.Planner.Slots.{
  Runtime, PlannedSlot, PlannerInput, compare_targets, start_plan, plan_states, plan_in_day,
  plan_commercial_target_slots, global_remaining, horizon_end, result_of, day_or_unfinished,
}

module _ (zoned : Text → ℕ → ZonedDateParts) (runtime : Runtime) (input : PlannerInput) where
  -- A plan that is returned, by what was computed on the way.
  pub record Planned (slots : List PlannedSlot) (skipped : List Text) : Type 0 where
    pub day : ℕ × ℕ
    pub is_day : get_local_day_range zoned input.now input.schedule.timezone ≡ some day
    pub states : List TargetState
    pub left_out : List Text
    pub started :
        target_states zoned input.now input.schedule day input.max_slots_per_target
          (sort_by (compare_targets runtime) input.targets)
        ≡ ok (states, left_out)
    pub plan : Plan
    pub ended :
        plan_rounds zoned input.now input.schedule
          (horizon_end zoned runtime input day)
          (global_remaining zoned runtime input)
          (suc (total_remaining states))
          states
          (start_plan left_out)
        ≡ ok plan
    pub result : (slots, skipped) ≡ result_of zoned runtime input plan

  pub plan-Planned :
      (slots : List PlannedSlot) (skipped : List Text)
      → plan_commercial_target_slots zoned runtime input ≡ ok (slots, skipped)
      → Planned slots skipped
  unfolding plan_commercial_target_slots plan_in_day plan_states
  plan-Planned slots skipped h =
      let (day, f, h') =
        returned
          (day_or_unfinished zoned runtime input
            (get_local_day_range zoned input.now input.schedule.timezone))
          (plan_in_day zoned runtime input) h in
      let (start, g, h'') =
        returned
          (target_states zoned input.now input.schedule day input.max_slots_per_target
            (sort_by (compare_targets runtime) input.targets))
          (λ start. plan_states zoned runtime input day start >>= λ plan.
            ok (result_of zoned runtime input plan))
          h' in
      let (plan, k, l) =
        returned (plan_states zoned runtime input day start)
          (λ plan. ok (result_of zoned runtime input plan)) h'' in
      record {
        day = day;
        is_day = day_found _ day f;
        states = start.0;
        left_out = start.1;
        started = g;
        plan = plan;
        ended = k;
        result = grind arith;
      }
    where
      day_found :
          (o : Option (ℕ × ℕ)) (day : ℕ × ℕ)
          → day_or_unfinished zoned runtime input o ≡ ok day
          → o ≡ some day
      day_found none day e = cc
      day_found (some d) day e = cc
