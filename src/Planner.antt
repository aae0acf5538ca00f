-- ===== src/Planner.antt =====
-- The scheduler planner: `planCommercialTargetSlots` of
-- apps/api/src/commercial-automation-scheduler-planner.ts. The order of `localeCompare`, the text of
-- an instant and the hash are parameters.
pub mod Target
pub mod Sorted
pub mod Grid
pub mod Kept
pub mod Promises
pub mod Totals
pub mod Limits
pub mod Plans
pub mod Started
pub mod Valid
pub mod Ends
pub mod Rounds
pub mod Slots
pub mod Spacing
pub mod Bounds
use Prim.Native.Nat.{Ordering, compare}
use afiliado_shopee.Prelude.{
  ℕ, zero, suc, ◌+◌, ◌-◌, ◌*◌, ◌%◌, max, min, Bool, true, false, ◌&&◌, ◌||◌, not, Option, none,
  some, List, [], ◌∷◌, ◌++◌, map, Text, text_eq, option_eq, ◌==◌, codes, ltb, leb, nat_beq, length,
  take, get_elem?, Result, ok, err, ◌>>=◌, or_else, is_some, if◌then◌else◌, loop_unfinished,
}
use afiliado_shopee.Schedule.{EffectiveSchedule}
use afiliado_shopee.Schedule.Windows.{ZonedDateParts}
use afiliado_shopee.Schedule.Days.{get_local_day_range}
use Target.{
  PlannerTarget, canonical_target_key, decimal, join, minute_ms, resolve_rotation_anchor,
  find_next_grid_slot, get_stable_rotation_slot_index,
}

-- A stable `sort` by a comparison: `x` goes before the first element that it is not greater than.
abbrev pub placed {ℓ} : {A : Type ℓ} → Ordering → A → A → List A → List A → List A
placed Ordering.gt x y ys rest = y ∷ rest
placed Ordering.lt x y ys rest = x ∷ y ∷ ys
placed Ordering.eq x y ys rest = x ∷ y ∷ ys

module _ {ℓ} {A : Type ℓ} (cmp : A → A → Ordering) where
  unfoldable pub insert_by : A → List A → List A
  insert_by x [] = x ∷ []
  insert_by x (y ∷ ys) = placed (cmp x y) x y ys (insert_by x ys)

  unfoldable pub sort_by : List A → List A
  unfolding insert_by
  sort_by [] = []
  sort_by (x ∷ xs) = insert_by x (sort_by xs)

pub record Candidate : Type 0 where
  pub target : PlannerTarget
  pub scheduled_for : ℕ
  pub slot_index : ℕ
  pub selected_instance_name : Text

-- What a round keeps of a target.
pub record TargetState : Type 0 where
  pub target : PlannerTarget
  pub interval : ℕ
  pub remaining : ℕ
  pub names : List Text
  pub rotation_anchor : ℕ
  pub next_base : ℕ

-- The variables of the loop; `cursor` is none before the first slot.
pub record Plan : Type 0 where
  pub candidates : List Candidate
  pub cursor : Option ℕ
  pub made_progress : Bool
  pub skipped : List Text

abbrev one_name : Option Text → List Text
one_name none = []
one_name (some []) = []
one_name (some name) = name ∷ []

abbrev names_of : Option (List Text) → Option Text → List Text
names_of (some (n ∷ ns)) one = n ∷ ns
names_of _ one = one_name one

unfoldable pub ordered_names_of : PlannerTarget → List Text
ordered_names_of t = names_of t.ordered_instance_names t.instance_name

unfoldable pub interval_of : EffectiveSchedule → PlannerTarget → ℕ
interval_of schedule t =
    max schedule.minimum_interval_minutes (max 1 (or_else t.cadence_minutes 15))

abbrev at_most : Option ℕ → ℕ → ℕ
at_most none n = n
at_most (some m) n = min n m

unfoldable pub remaining_for_group : EffectiveSchedule → Option ℕ → PlannerTarget → ℕ
remaining_for_group schedule max_slots t =
    at_most max_slots (min t.daily_limit schedule.daily_group_limit - t.group_sent_today)

abbrev after_interval : ℕ → Option ℕ → ℕ
after_interval interval none = 0
after_interval interval (some t) = t + interval * minute_ms

-- `maxTimestamp(now, ...)`.
unfoldable pub next_base_of : ℕ → EffectiveSchedule → PlannerTarget → ℕ
unfolding interval_of
next_base_of now schedule t =
    max now
      (max (after_interval (interval_of schedule t) t.last_sent_at) (or_else t.next_eligible_at 0))

abbrev pub is_empty_list {ℓ} : {A : Type ℓ} → List A → Bool
is_empty_list [] = true
is_empty_list (x ∷ xs) = false

unfoldable pub is_skipped : EffectiveSchedule → Option ℕ → PlannerTarget → Bool
unfolding ordered_names_of remaining_for_group
is_skipped schedule max_slots t =
    (not t.active
      || (not t.available || (not t.instance_active || is_empty_list (ordered_names_of t))))
    || nat_beq (remaining_for_group schedule max_slots t) 0

module _ (zoned : Text → ℕ → ZonedDateParts) (now : ℕ) (schedule : EffectiveSchedule) (day : ℕ × ℕ)
    (max_slots : Option ℕ) where
  unfoldable pub target_state : PlannerTarget → ℕ → TargetState
  unfolding ordered_names_of interval_of remaining_for_group next_base_of
  target_state t anchor = record {
    target = t;
    interval = interval_of schedule t;
    remaining = remaining_for_group schedule max_slots t;
    names = ordered_names_of t;
    rotation_anchor = anchor;
    next_base = next_base_of now schedule t;
  }

  -- The states of the targets that are not skipped, and the campaigns of the others.
  unfoldable pub target_states : List PlannerTarget → Result (List TargetState × List Text)
  unfolding is_skipped target_state resolve_rotation_anchor
  target_states [] = ok ([], [])
  target_states (t ∷ ts) = elim (is_skipped schedule max_slots t) [
    | true ↦ target_states ts >>= λ (states, skipped). ok (states, t.campaign_id ∷ skipped)
    | false ↦ resolve_rotation_anchor zoned schedule day.0 day.1 t >>= λ anchor.
        target_states ts >>= λ (states, skipped). ok (target_state t anchor ∷ states, skipped)
  ]

-- `-Infinity` is 0 here: the other side of the maximum is not below it.
unfoldable pub stagger_floor : ℕ → EffectiveSchedule → Option ℕ → ℕ
stagger_floor now schedule cursor = elim (ltb 0 schedule.stagger_minutes) [
  | true ↦ elim cursor [ none ↦ now | some c ↦ c + schedule.stagger_minutes * minute_ms ]
  | false ↦ 0
]

-- The index is below the length.
abbrev pub name_at : List Text → ℕ → Text
name_at names i = or_else (get_elem? names i) []

unfoldable pub is_selected_active : PlannerTarget → Text → Bool
is_selected_active t name = elim t.instance_active_by_name [
  | none ↦ (some name == t.instance_name) && t.instance_active
  | some is_active ↦ is_active name
]
