-- ===== src/Planner/Target.antt =====
-- The targets of the scheduler planner, their keys and their slots in time:
-- apps/api/src/commercial-automation-scheduler-planner.ts.
use afiliado_shopee.Prelude.{
  ℕ, zero, suc, ◌+◌, ◌-◌, ◌*◌, ◌/◌, ◌%◌, Bool, true, false, ◌&&◌, Option, none, some, List, [], ◌∷◌,
  ◌++◌, Text, ltb, Result, ok, ◌>>=◌, or_else,
}
use afiliado_shopee.Schedule.{EffectiveSchedule}
use afiliado_shopee.Schedule.Windows.{ZonedDateParts, is_inside_allowed_window}
use afiliado_shopee.Schedule.Opening.{next_window_opening_at_or_after, round_up}

-- `instanceActiveByName[name] === true` is a test on names.
pub record PlannerTarget : Type 0 where
  pub group_id : Text
  pub instance_name : Option Text
  pub ordered_instance_names : Option (List Text)
  pub assignment_revision : Option ℕ
  pub logical_group_fingerprint : Text
  pub campaign_id : Text
  pub daily_limit : ℕ
  pub cadence_minutes : Option ℕ
  pub timezone : Option Text
  pub allowed_start_time : Option Text
  pub allowed_end_time : Option Text
  pub next_eligible_at : Option ℕ
  pub active : Bool
  pub available : Bool
  pub instance_active : Bool
  pub last_sent_at : Option ℕ
  pub group_sent_today : ℕ
  pub instance_active_by_name : Option (Text → Bool)

-- A number in a template or a join, in decimal digits.
unfoldable decimal_from : ℕ → ℕ → Text → Text
decimal_from zero n digits = digits
decimal_from (suc fuel) n digits = elim (ltb n 10) [
  | true ↦ (48 + n) ∷ digits
  | false ↦ decimal_from fuel (n / 10) ((48 + n % 10) ∷ digits)
]

unfoldable pub decimal : ℕ → Text
unfolding decimal_from
decimal n = decimal_from (suc n) n []

-- `join('|')`.
unfoldable pub join : List Text → Text
join [] = []
join (t ∷ []) = t
join (t ∷ u ∷ ts) = t ++ (b'|' ∷ join (u ∷ ts))

abbrev revision_text : Option ℕ → Text
revision_text none = []
revision_text (some n) = decimal n

unfoldable pub canonical_target_key : PlannerTarget → Text
unfolding join decimal
canonical_target_key t = join (
    or_else t.instance_name []
    ∷ (or_else t.ordered_instance_names []
        ++ (revision_text t.assignment_revision
            ∷ t.logical_group_fingerprint
            ∷ t.campaign_id
            ∷ t.group_id
            ∷ [])))

abbrev pub minute_ms : ℕ
minute_ms = 60000

module _ (zoned : Text → ℕ → ZonedDateParts) (schedule : EffectiveSchedule) where
  unfoldable pub in_schedule : ℕ → Bool
  in_schedule t =
      is_inside_allowed_window zoned t schedule.timezone schedule.allowed_start_time
        schedule.allowed_end_time

  unfoldable pub in_target : PlannerTarget → ℕ → Bool
  in_target target t =
      is_inside_allowed_window zoned t (or_else target.timezone schedule.timezone)
        (or_else target.allowed_start_time schedule.allowed_start_time)
        (or_else target.allowed_end_time schedule.allowed_end_time)

  unfoldable pub next_schedule_opening : ℕ → Result ℕ
  next_schedule_opening t =
      next_window_opening_at_or_after zoned t schedule.timezone schedule.allowed_start_time
        schedule.allowed_end_time

  unfoldable pub next_target_opening : PlannerTarget → ℕ → Result ℕ
  next_target_opening target t =
      next_window_opening_at_or_after zoned t (or_else target.timezone schedule.timezone)
        (or_else target.allowed_start_time schedule.allowed_start_time)
        (or_else target.allowed_end_time schedule.allowed_end_time)

  -- The loop of `findNextValidSlot`, by the attempts left.
  unfoldable pub valid_slot_from : PlannerTarget → ℕ → ℕ → ℕ → Result (Option ℕ)
  valid_slot_from target horizon_end zero timestamp = ok none
  valid_slot_from target horizon_end (suc attempts) timestamp = elim (ltb horizon_end timestamp) [
    | true ↦ ok none
    | false ↦ elim (in_schedule timestamp) [
      | false ↦
          next_schedule_opening timestamp >>= λ t. valid_slot_from target horizon_end attempts t
      | true ↦ elim (in_target target timestamp) [
        | false ↦ next_target_opening target timestamp >>= λ t.
            valid_slot_from target horizon_end attempts t
        | true ↦ ok (some timestamp)
      ]
    ]
  ]

  unfoldable pub find_next_valid_slot : PlannerTarget → ℕ → ℕ → Result (Option ℕ)
  unfolding valid_slot_from
  find_next_valid_slot target horizon_end candidate =
      valid_slot_from target horizon_end 2880 (round_up candidate)

  unfoldable pub resolve_rotation_anchor : ℕ → ℕ → PlannerTarget → Result ℕ
  unfolding find_next_valid_slot
  resolve_rotation_anchor day_starts_at day_ends_at target =
      find_next_valid_slot target day_ends_at day_starts_at >>= λ slot.
      ok (or_else slot day_starts_at)

  -- The loop of `findNextGridSlot`.
  unfoldable pub grid_slot_from : PlannerTarget → ℕ → ℕ → ℕ → ℕ → ℕ → Option ℕ
  grid_slot_from target horizon_end anchor interval zero index = none
  grid_slot_from target horizon_end anchor interval (suc attempts) index =
      let t = anchor + index * (interval * minute_ms) in
      elim (ltb horizon_end t) [
        | true ↦ none
        | false ↦ elim (in_schedule t && in_target target t) [
          | true ↦ some t
          | false ↦ grid_slot_from target horizon_end anchor interval attempts (index + 1)
        ]
      ]

-- `Math.max(0, Math.floor(...))`: the difference of the source is negative where that of ℕ is 0.
unfoldable pub get_stable_rotation_slot_index : ℕ → ℕ → ℕ → ℕ
get_stable_rotation_slot_index scheduled_for anchor interval =
    (scheduled_for - anchor) / (interval * minute_ms)

-- `Math.max(0, Math.ceil(...))`, for an interval that is not 0.
unfoldable pub get_grid_index_at_or_after : ℕ → ℕ → ℕ → ℕ
get_grid_index_at_or_after candidate anchor interval =
    ((candidate - anchor) + (interval * minute_ms - 1)) / (interval * minute_ms)

unfoldable pub find_next_grid_slot :
    (Text → ℕ → ZonedDateParts) → EffectiveSchedule → PlannerTarget → ℕ → ℕ → ℕ → ℕ → Option ℕ
unfolding grid_slot_from get_grid_index_at_or_after
find_next_grid_slot zoned schedule target horizon_end anchor interval candidate =
    grid_slot_from zoned schedule target horizon_end anchor interval 2880
      (get_grid_index_at_or_after candidate anchor interval)
