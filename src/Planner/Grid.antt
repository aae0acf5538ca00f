-- ===== src/Planner/Grid.antt =====
-- The grid of a target: what `findNextGridSlot` finds.
use afiliado_shopee.Prelude.{
  ℕ, zero, suc, ◌+◌, ◌-◌, ◌*◌, ◌≤◌, ◌<◌, Bool, true, false, ◌&&◌, none, some, Text, ltb, ◌≡◌,
  Bool-cases, ltb→lt, nat_beq, nat_beq_iff, inl, inr, ◌⊎◌, arith, and_true,
}
use mathlib.Core.Path.{subst}
use native.Mathlib.Nat.{lt-div-mul-add, div-lt_iff_lt-mul, mul-le-mul_right, add-mul}
use afiliado_shopee.Schedule.{EffectiveSchedule}
use afiliado_shopee.Schedule.Windows.{ZonedDateParts}
use afiliado_shopee.Planner.Target.{
  PlannerTarget, in_schedule, in_target, minute_ms, grid_slot_from, get_grid_index_at_or_after,
  find_next_grid_slot,
}

-- The grid point that the loop stops at, with the points before it refused.
pub record Found (windows : ℕ → Bool) (horizon_end anchor interval start t : ℕ) : Type 0 where
  pub index : ℕ
  pub index_ge : start ≤ index
  pub on_grid : t ≡ anchor + index * (interval * minute_ms)
  pub in_horizon : t ≤ horizon_end
  pub in_windows : windows t ≡ true
  pub first :
      (j : ℕ) → start ≤ j → j < index → windows (anchor + j * (interval * minute_ms)) ≡ false

module _ (zoned : Text → ℕ → ZonedDateParts) (schedule : EffectiveSchedule)
    (target : PlannerTarget) where
  abbrev pub both_windows : ℕ → Bool
  both_windows t = in_schedule zoned schedule t && in_target zoned schedule target t

  module _ (horizon_end anchor interval : ℕ) where
    abbrev point : ℕ → ℕ
    point j = anchor + j * (interval * minute_ms)

    -- One turn of the loop that returns.
    grid_step :
        (attempts start t : ℕ)
        → grid_slot_from zoned schedule target horizon_end anchor interval (suc attempts) start
          ≡ some t
        → ((t ≡ point start) × (t ≤ horizon_end) × (both_windows t ≡ true))
          ⊎ ((both_windows (point start) ≡ false)
              × (grid_slot_from zoned schedule target horizon_end anchor interval attempts
                    (start + 1)
                  ≡ some t))
    unfolding grid_slot_from
    grid_step attempts start t h = ground arith

    refused_before :
        (start k : ℕ)
        → both_windows (point start) ≡ false
        → ((j : ℕ) → start + 1 ≤ j → j < k → both_windows (point j) ≡ false)
        → (j : ℕ) → start ≤ j
        → j < k
        → both_windows (point j) ≡ false
    refused_before start k here later j ge lt = elim (Bool-cases (nat_beq start j)) [
      | inl same ↦ subst (λ i. both_windows (point i) ≡ false) ((nat_beq_iff start j).0 same) here
      | inr other ↦ later j (ground arith) lt
    ]

    pub grid_slot_from-Found :
        (attempts start t : ℕ)
        → grid_slot_from zoned schedule target horizon_end anchor interval attempts start ≡ some t
        → Found both_windows horizon_end anchor interval start t
    grid_slot_from-Found zero start t h = unfold grid_slot_from in cc
    grid_slot_from-Found (suc attempts) start t h = elim (grid_step attempts start t h) [
      | inl (at, in_h, valid) ↦ record {
        index = start;
        index_ge = omega arith;
        on_grid = at;
        in_horizon = in_h;
        in_windows = valid;
        first = λ j ge lt. absurd (omega arith);
      }
      | inr (refused, next) ↦
          let rest = grid_slot_from-Found attempts (start + 1) t next in
          record {
            index = rest.index;
            index_ge = omega (arith, rest.index_ge);
            on_grid = rest.on_grid;
            in_horizon = rest.in_horizon;
            in_windows = rest.in_windows;
            first = refused_before start rest.index refused rest.first;
          }
    ]

    step-none :
        (attempts start : ℕ)
        → grid_slot_from zoned schedule target horizon_end anchor interval (suc attempts) start
          ≡ none
        → (horizon_end < point start)
          ⊎ ((both_windows (point start) ≡ false)
              × (grid_slot_from zoned schedule target horizon_end anchor interval attempts
                    (start + 1)
                  ≡ none))
    unfolding grid_slot_from
    step-none attempts start h = ground arith

    -- A loop that finds nothing has refused each point in the horizon.
    grid_slot_from-none :
        (attempts start : ℕ)
        → grid_slot_from zoned schedule target horizon_end anchor interval attempts start ≡ none
        → (j : ℕ) → start ≤ j
        → j < start + attempts
        → point j ≤ horizon_end
        → both_windows (point j) ≡ false
    grid_slot_from-none zero start h j ge lt inside = absurd (omega arith)
    grid_slot_from-none (suc attempts) start h j ge lt inside = elim (step-none attempts start h) [
      | inl out ↦ absurd (omega (arith, mul-le-mul_right (interval * minute_ms) ge))
      | inr (refused, next) ↦ elim (Bool-cases (nat_beq start j)) [
        | inl same ↦
            subst (λ i. both_windows (point i) ≡ false) ((nat_beq_iff start j).0 same) refused
        | inr other ↦
            grid_slot_from-none attempts (start + 1) next j (ground arith) (omega arith) inside
      ]
    ]

  module _ (anchor interval : ℕ) (positive : 0 < interval) where
    get_grid_index-ge :
        (candidate : ℕ)
        → candidate
          ≤ anchor + get_grid_index_at_or_after candidate anchor interval * (interval * minute_ms)
    unfolding get_grid_index_at_or_after
    get_grid_index-ge candidate = omega (
      arith,
      lt-div-mul-add {a = (candidate - anchor) + (interval * minute_ms - 1)}
          {b = interval * minute_ms} (omega arith),
    )

    get_grid_index-least :
        (candidate j : ℕ)
        → candidate ≤ anchor + j * (interval * minute_ms)
        → get_grid_index_at_or_after candidate anchor interval ≤ j
    unfolding get_grid_index_at_or_after
    get_grid_index-least candidate j h = omega (
      arith,
      (div-lt_iff_lt-mul {k = interval * minute_ms}
            {x = (candidate - anchor) + (interval * minute_ms - 1)} {y = j + 1} (omega arith)).1
          (grind arith),
    )

module _ (zoned : Text → ℕ → ZonedDateParts) (schedule : EffectiveSchedule) (target : PlannerTarget)
    (horizon_end anchor interval candidate : ℕ) (positive : 0 < interval) where
  -- For an interval above 0, a slot that `findNextGridSlot` returns is the first grid point from the
  -- candidate on that lies in the window of the schedule and in that of the target: it is not before
  -- the candidate, not after the horizon, a whole number of intervals after the anchor, in both
  -- windows, and each earlier grid point not before the candidate is out of one of the windows.
  pub find_next_grid_slot-first :
      (t : ℕ)
      → find_next_grid_slot zoned schedule target horizon_end anchor interval candidate ≡ some t
      → (candidate ≤ t)
        × (t ≤ horizon_end)
        × (in_schedule zoned schedule t ≡ true)
        × (in_target zoned schedule target t ≡ true)
        × ((k : ℕ) × (t ≡ anchor + k * (interval * minute_ms))
            × ((j : ℕ)
                → candidate ≤ anchor + j * (interval * minute_ms)
                → j < k
                → both_windows zoned schedule target (anchor + j * (interval * minute_ms)) ≡ false))
  find_next_grid_slot-first t h =
      let found =
        grid_slot_from-Found zoned schedule target horizon_end anchor interval 2880
          (get_grid_index_at_or_after candidate anchor interval) t
          (unfold find_next_grid_slot in h) in
      let (a, b) = and_true _ _ found.in_windows in
      (
        omega (
          arith,
          found.on_grid,
          get_grid_index-ge zoned schedule target anchor interval positive candidate,
          mul-le-mul_right (interval * minute_ms) found.index_ge,
        ),
        found.in_horizon,
        a,
        b,
        (
          found.index,
          found.on_grid,
          λ j ge lt.
              found.first j
                (get_grid_index-least zoned schedule target anchor interval positive candidate j ge)
                lt,
        ),
      )

  -- For an interval above 0 and a horizon less than 2880 minutes after the candidate, where
  -- `findNextGridSlot` returns null, no grid point from the candidate to the horizon lies in both
  -- windows: the bound on its attempts loses no slot.
  pub find_next_grid_slot-none :
      horizon_end < candidate + 2880 * minute_ms
      → find_next_grid_slot zoned schedule target horizon_end anchor interval candidate ≡ none
      → (j : ℕ) → candidate ≤ anchor + j * (interval * minute_ms)
      → anchor + j * (interval * minute_ms) ≤ horizon_end
      → both_windows zoned schedule target (anchor + j * (interval * minute_ms)) ≡ false
  find_next_grid_slot-none near h j ge le =
      grid_slot_from-none zoned schedule target horizon_end anchor interval 2880
        (get_grid_index_at_or_after candidate anchor interval) (unfold find_next_grid_slot in h) j
        (get_grid_index-least zoned schedule target anchor interval positive candidate j ge) enough
        le
    where
      index : ℕ
      index = get_grid_index_at_or_after candidate anchor interval

      step : ℕ
      step = interval * minute_ms

      enough : j < index + 2880
      enough = elim (Bool-cases (ltb j (index + 2880))) [
        | inl yes' ↦ ltb→lt j _ yes'
        | inr no' ↦ absurd (
            omega (
              arith,
              mul-le-mul_right {m = index + 2880} {n = j} step (ground arith),
              add-mul index 2880 step,
              get_grid_index-ge zoned schedule target anchor interval positive candidate,
            ))
      ]
