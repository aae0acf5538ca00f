-- ===== src/Examples/Plans.antt =====
-- A concrete plan: two groups on the second day of 1970, in a zone without an offset.
use Prim.Native.Nat.{Ordering, compare}
use afiliado_shopee.Prelude.{
  ℕ, ◌+◌, ◌*◌, ◌/◌, ◌%◌, ◌≤◌, ◌<◌, true, false, ◌≡◌, ◌≢◌, refl, none, some, List, [], ◌∷◌, length,
  Text, text_eq, codes, ok, arith, All,
}
use afiliado_shopee.Schedule.{EffectiveSchedule}
use afiliado_shopee.Schedule.Windows.{ZonedDateParts, is_inside_allowed_window}
use afiliado_shopee.Schedule.Clock.{parse_time}
use afiliado_shopee.Schedule.Opening.{
  first_candidate, opening_from, search_minutes, next_window_opening_at_or_after,
}
use afiliado_shopee.Planner.Grid.{both_windows, find_next_grid_slot-first, find_next_grid_slot-none}
use afiliado_shopee.Planner.Valid.{IsFirst, find_next_valid_slot-IsFirst}
use afiliado_shopee.Planner.{
  TargetState, target_states, sort_by, insert_by, interval_of, is_selected_active, is_skipped,
  next_base_of, ordered_names_of, remaining_for_group, stagger_floor, target_state,
}
use afiliado_shopee.Schedule.Days.{
  get_local_day_range, day_start, bisect_from, walk_back, is_same_local_day, bisect, day_end,
  walk_forward,
}
use afiliado_shopee.Planner.Target.{
  PlannerTarget, canonical_target_key, in_schedule, in_target, next_schedule_opening,
  next_target_opening, decimal, join, find_next_grid_slot, find_next_valid_slot,
  get_grid_index_at_or_after, get_stable_rotation_slot_index, grid_slot_from,
  resolve_rotation_anchor, valid_slot_from,
}
use afiliado_shopee.Planner.Sorted.{Pairs}
use afiliado_shopee.Planner.Limits.{room_in}
use afiliado_shopee.Planner.Rounds.{
  plan_rounds, visit_all, visit, take_slot, slot_found, wanted_slot, advanced, candidate_at,
}
use afiliado_shopee.Planner.Promises.{
  plan-global_limit, plan-group_limit, plan-allowed, plan-spaced, plan-returns, planned_in,
  IsAllowedSlot, SlotsApart,
}
use afiliado_shopee.Planner.Slots.{
  Runtime, PlannerInput, PlannedSlot, planned_slot, compare_targets, compare_candidates,
  plan_in_day, plan_states, plan_commercial_target_slots,
}

abbrev clock : Text → ℕ → ZonedDateParts
clock timezone t = record {
  year = 1970;
  month = 1;
  day = 1 + t / 86400000;
  hour = t / 3600000 % 24;
  minute = t / 60000 % 60;
  second = t / 1000 % 60;
}

abbrev order : Text → Text → Ordering
order [] [] = Ordering.eq
order [] (b ∷ t) = Ordering.lt
order (a ∷ s) [] = Ordering.gt
order (a ∷ s) (b ∷ t) = elim (compare a b) [
  | Ordering.lt ↦ Ordering.lt
  | Ordering.gt ↦ Ordering.gt
  | Ordering.eq ↦ order s t
]

abbrev runtime : Runtime
runtime = record { locale_compare = order; iso_string = λ t. t ∷ []; sha256_hex = λ t. t }

abbrev schedule : EffectiveSchedule
schedule = record {
  timezone = codes "UTC";
  allowed_start_time = codes "01:00";
  allowed_end_time = codes "22:00";
  daily_global_limit = 3;
  daily_group_limit = 2;
  daily_shopee_http_limit = 10;
  daily_openai_generation_limit = 10;
  minimum_interval_minutes = 30;
  stagger_minutes = 5;
  schedule_revision = 1;
}

abbrev target : Text → PlannerTarget
target name = record {
  group_id = name;
  instance_name = some (codes "a");
  ordered_instance_names = some (codes "a" ∷ codes "b" ∷ []);
  assignment_revision = some 1;
  logical_group_fingerprint = name;
  campaign_id = name;
  daily_limit = 4;
  cadence_minutes = some 60;
  timezone = none;
  allowed_start_time = none;
  allowed_end_time = none;
  next_eligible_at = none;
  active = true;
  available = true;
  instance_active = true;
  last_sent_at = none;
  group_sent_today = 0;
  instance_active_by_name = some (λ n. true);
}

abbrev input : PlannerInput
input = record {
  now = 100000000;
  schedule = schedule;
  targets = target (codes "h") ∷ target (codes "g") ∷ [];
  global_sent_today = 0;
  horizon_minutes = 1440;
  max_slots_per_target = none;
}

abbrev day : ℕ × ℕ
day = (86400000, 172800000)

abbrev slot : Text → Text → ℕ → ℕ → PlannedSlot
slot group name at index = planned_slot runtime 100000000 schedule (record {
  target = target group;
  scheduled_for = at;
  slot_index = index;
  selected_instance_name = name;
})

-- 04:00, 05:00 and 06:00.
abbrev the_slots : List PlannedSlot
the_slots =
    slot (codes "g") (codes "b") 100800000 3
    ∷ slot (codes "h") (codes "a") 104400000 4
    ∷ slot (codes "g") (codes "b") 108000000 5
    ∷ []

different : codes "g" ≢ codes "h"
different h =
    let e : text_eq.beq (codes "g") (codes "h") ≡ true =
      (text_eq.beq_iff (codes "g") (codes "h")).1 h in
    cc

is_day : get_local_day_range clock 100000000 (codes "UTC") ≡ some day
unfolding get_local_day_range day_start bisect_from walk_back is_same_local_day bisect day_end
    walk_forward
is_day = refl

planned : plan_commercial_target_slots clock runtime input ≡ ok (the_slots, [])
unfolding plan_commercial_target_slots plan_in_day plan_states plan_rounds visit_all visit take_slot
    get_local_day_range day_start bisect_from walk_back is_same_local_day bisect day_end
    walk_forward target_states sort_by compare_targets canonical_target_key in_schedule
    is_inside_allowed_window parse_time next_schedule_opening next_window_opening_at_or_after
    advanced candidate_at slot_found wanted_slot compare_candidates decimal find_next_grid_slot
    find_next_valid_slot get_grid_index_at_or_after get_stable_rotation_slot_index grid_slot_from
    in_target join next_target_opening resolve_rotation_anchor valid_slot_from insert_by interval_of
    is_selected_active is_skipped next_base_of ordered_names_of remaining_for_group stagger_floor
    target_state first_candidate opening_from search_minutes
planned = refl

plan-global_limit_example : length the_slots ≤ 3
plan-global_limit_example = plan-global_limit clock runtime input the_slots [] planned

plan-group_limit_example :
    planned_in (codes "g") the_slots ≤ room_in (codes "g") schedule none input.targets
plan-group_limit_example = plan-group_limit clock runtime input the_slots [] planned (codes "g")

plan-allowed_example : All (IsAllowedSlot clock runtime input day) the_slots
plan-allowed_example = plan-allowed clock runtime input the_slots [] planned day is_day

plan-spaced_example : Pairs (SlotsApart schedule) the_slots
plan-spaced_example =
    plan-spaced clock runtime input the_slots [] planned ((different, tt), (tt, tt))

abbrev the_states : List TargetState
the_states =
    target_state clock 100000000 schedule day none (target (codes "g")) 90000000
    ∷ target_state clock 100000000 schedule day none (target (codes "h")) 90000000
    ∷ []

started :
    target_states clock 100000000 schedule day none
      (sort_by (compare_targets runtime) input.targets)
    ≡ ok (the_states, [])
unfolding target_states sort_by compare_targets canonical_target_key in_schedule
    is_inside_allowed_window parse_time next_schedule_opening next_window_opening_at_or_after
    decimal find_next_valid_slot in_target join next_target_opening resolve_rotation_anchor
    valid_slot_from insert_by is_skipped ordered_names_of remaining_for_group first_candidate
    opening_from search_minutes
started = refl

plan-returns_example :
    (slots : List PlannedSlot) × (skipped : List Text) × (plan_commercial_target_slots clock runtime
        input
      ≡ ok (slots, skipped))
plan-returns_example = plan-returns clock runtime input day (the_states, []) is_day started

-- From 03:46:40, hourly from 01:00.
found :
    find_next_grid_slot clock schedule (target (codes "g")) 172800000 90000000 60 100000000
    ≡ some 100800000
unfolding find_next_grid_slot grid_slot_from get_grid_index_at_or_after in_schedule in_target
    is_inside_allowed_window parse_time
found = refl

find_next_grid_slot-first_example :
    (100000000 ≤ 100800000)
    × (100800000 ≤ 172800000)
    × (in_schedule clock schedule 100800000 ≡ true)
    × (in_target clock schedule (target (codes "g")) 100800000 ≡ true)
    × ((k : ℕ) × (◌≡◌ {A = ℕ} 100800000 (90000000 + k * (60 * 60000)))
        × ((j : ℕ)
            → 100000000 ≤ 90000000 + j * (60 * 60000)
            → j < k
            → both_windows clock schedule (target (codes "g")) (90000000 + j * (60 * 60000))
              ≡ false))
find_next_grid_slot-first_example =
    find_next_grid_slot-first clock schedule (target (codes "g")) 172800000 90000000 60 100000000
      (omega arith) 100800000 found

-- No slot from 22:30 to midnight.
refused :
    find_next_grid_slot clock schedule (target (codes "g")) 172800000 90000000 60 167400000 ≡ none
unfolding find_next_grid_slot grid_slot_from get_grid_index_at_or_after in_schedule in_target
    is_inside_allowed_window parse_time
refused = refl

find_next_grid_slot-none_example :
    both_windows clock schedule (target (codes "g")) (90000000 + 22 * (60 * 60000)) ≡ false
find_next_grid_slot-none_example =
    find_next_grid_slot-none clock schedule (target (codes "g")) 172800000 90000000 60 167400000
      (omega arith) (omega arith) refused 22 (omega arith) (omega arith)

find_next_valid_slot-IsFirst_example :
    IsFirst clock schedule (target (codes "g")) 172800000 86400000 90000000
unfolding find_next_valid_slot valid_slot_from in_schedule in_target next_schedule_opening
    next_target_opening next_window_opening_at_or_after is_inside_allowed_window parse_time
    first_candidate opening_from search_minutes
find_next_valid_slot-IsFirst_example =
    find_next_valid_slot-IsFirst clock schedule (target (codes "g")) 172800000 86400000 90000000
      refl
