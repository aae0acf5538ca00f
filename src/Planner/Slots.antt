-- ===== src/Planner/Slots.antt =====
-- The slots that `planCommercialTargetSlots` returns.
use Prim.Native.Nat.{Ordering, compare}
use afiliado_shopee.Prelude.{
  ℕ, suc, ◌+◌, ◌-◌, ◌*◌, min, true, Option, none, some, List, [], ◌∷◌, ◌++◌, map, Text, codes, take,
  Result, ok, err, ◌>>=◌, loop_unfinished,
}
use afiliado_shopee.Schedule.{EffectiveSchedule}
use afiliado_shopee.Schedule.Windows.{ZonedDateParts}
use afiliado_shopee.Schedule.Days.{get_local_day_range}
use afiliado_shopee.Planner.{Candidate, TargetState, Plan, sort_by, target_states}
use afiliado_shopee.Planner.Rounds.{plan_rounds, total_remaining}
use afiliado_shopee.Planner.Target.{PlannerTarget, canonical_target_key, decimal, join, minute_ms}

-- `CommercialAutomationTargetConstraint` of a slot, with the instant where the source has its text.
pub record TargetConstraint : Type 0 where
  pub campaign_id : Text
  pub group_id : Text
  pub logical_group_fingerprint : Text
  pub instance_name : Text
  pub scheduled_for : ℕ
  pub slot_key : Text
  pub schedule_revision : ℕ
  pub assignment_revision : Option ℕ

pub record PlannedSlot : Type 0 where
  pub slot_key : Text
  pub job_id : Text
  pub scheduled_for : ℕ
  pub delay_ms : ℕ
  pub target : TargetConstraint

-- What the planner calls of the language's run time.
pub record Runtime : Type 0 where
  pub locale_compare : Text → Text → Ordering
  pub iso_string : ℕ → Text
  pub sha256_hex : Text → Text

unfoldable pub make_slot_key : Runtime → ℕ → PlannerTarget → ℕ → Text → Text
make_slot_key runtime revision target scheduled_for name = runtime.sha256_hex (
    join (
      decimal revision
      ∷ canonical_target_key target
      ∷ name
      ∷ runtime.iso_string scheduled_for
      ∷ []))

-- `a || b` of two comparisons.
abbrev or_then : Ordering → Ordering → Ordering
or_then Ordering.eq next = next
or_then first next = first

unfoldable pub compare_targets : Runtime → PlannerTarget → PlannerTarget → Ordering
compare_targets runtime a b =
    runtime.locale_compare (canonical_target_key a) (canonical_target_key b)

unfoldable pub compare_candidates : Runtime → Candidate → Candidate → Ordering
compare_candidates runtime a b =
    or_then (compare a.scheduled_for b.scheduled_for)
      (or_then (compare_targets runtime a.target b.target) (compare a.slot_index b.slot_index))

unfoldable pub planned_slot : Runtime → ℕ → EffectiveSchedule → Candidate → PlannedSlot
planned_slot runtime now schedule c =
    let key =
      make_slot_key runtime schedule.schedule_revision c.target c.scheduled_for
        c.selected_instance_name in
    record {
      slot_key = key;
      job_id = codes "commercial-target-" ++ key;
      scheduled_for = c.scheduled_for;
      delay_ms = c.scheduled_for - now;
      target = record {
        campaign_id = c.target.campaign_id;
        group_id = c.target.group_id;
        logical_group_fingerprint = c.target.logical_group_fingerprint;
        instance_name = c.selected_instance_name;
        scheduled_for = c.scheduled_for;
        slot_key = key;
        schedule_revision = schedule.schedule_revision;
        assignment_revision = c.target.assignment_revision;
      };
    }

pub record PlannerInput : Type 0 where
  pub now : ℕ
  pub schedule : EffectiveSchedule
  pub targets : List PlannerTarget
  pub global_sent_today : ℕ
  pub horizon_minutes : ℕ
  pub max_slots_per_target : Option ℕ

abbrev pub start_plan : List Text → Plan
start_plan skipped = record {
  candidates = [];
  cursor = none;
  made_progress = true;
  skipped = skipped;
}

module _ (zoned : Text → ℕ → ZonedDateParts) (runtime : Runtime) (input : PlannerInput) where
  abbrev pub global_remaining : ℕ
  global_remaining = input.schedule.daily_global_limit - input.global_sent_today

  abbrev pub horizon_end : ℕ × ℕ → ℕ
  horizon_end day = min day.1 (input.now + input.horizon_minutes * minute_ms)

  -- The loop, with as many rounds as there are slots left for the targets, and one to end it.
  unfoldable pub plan_states : ℕ × ℕ → List TargetState × List Text → Result Plan
  plan_states day (states, skipped) =
      plan_rounds zoned input.now input.schedule (horizon_end day) global_remaining
        (suc (total_remaining states)) states (start_plan skipped)

  abbrev pub result_of : Plan → List PlannedSlot × List Text
  result_of plan = (
    map (planned_slot runtime input.now input.schedule)
        (take global_remaining (sort_by (compare_candidates runtime) plan.candidates)),
    plan.skipped,
  )

  unfoldable pub plan_in_day : ℕ × ℕ → Result (List PlannedSlot × List Text)
  plan_in_day day =
      target_states zoned input.now input.schedule day input.max_slots_per_target
        (sort_by (compare_targets runtime) input.targets)
      >>= λ start. plan_states day start >>= λ plan. ok (result_of plan)

  abbrev pub day_or_unfinished : Option (ℕ × ℕ) → Result (ℕ × ℕ)
  day_or_unfinished none = err loop_unfinished
  day_or_unfinished (some day) = ok day

  unfoldable pub plan_commercial_target_slots : Result (List PlannedSlot × List Text)
  plan_commercial_target_slots =
      day_or_unfinished (get_local_day_range zoned input.now input.schedule.timezone)
      >>= plan_in_day
