-- ===== src/Planner/Valid.antt =====
-- The first valid minute of a target: what `findNextValidSlot` finds.
use afiliado_shopee.Prelude.{
  ℕ, zero, suc, ◌+◌, ◌*◌, ◌%◌, ◌≤◌, ◌<◌, Bool, true, false, ◌&&◌, Option, none, some, Text, ltb,
  nat_beq, nat_beq_iff, ◌≡◌, refl, Bool-cases, inl, inr, ◌⊎◌, arith, Result, ok, ◌>>=◌, returned,
}
use mathlib.Core.Path.{subst}
use native.Mathlib.Nat.{lt-div-mul-add}
use afiliado_shopee.Schedule.{EffectiveSchedule}
use afiliado_shopee.Schedule.Windows.{ZonedDateParts}
use afiliado_shopee.Schedule.Opening.{round_up, next_window_opening-ok}
use afiliado_shopee.Planner.Target.{
  PlannerTarget, in_schedule, in_target, next_schedule_opening, next_target_opening,
  valid_slot_from, find_next_valid_slot,
}
use afiliado_shopee.Planner.Grid.{both_windows}

-- A minute from an instant outside the window up to the opening that is found is outside.
refused_from :
    (inside : ℕ → Bool) (from mid : ℕ)
    → inside from ≡ false
    → inside mid ≡ true
    → ((mid ≡ from)
        ⊎ ((mid % 60000 ≡ 0)
            × ((q : ℕ) → from < q * 60000 → q * 60000 < mid → inside (q * 60000) ≡ false)))
    → (q : ℕ) → from ≤ q * 60000
    → q * 60000 < mid
    → inside (q * 60000) ≡ false
refused_from inside from mid out here (inl same) q le lt = absurd (omega arith)
refused_from inside from mid out here (inr (whole, refused)) q le lt =
    elim (Bool-cases (nat_beq from (q * 60000))) [
      | inl same ↦ subst (λ u. inside u ≡ false) ((nat_beq_iff from (q * 60000)).0 same) out
      | inr other ↦ refused q (ground arith) lt
    ]

and_false_left : (a b : Bool) → a ≡ false → (a && b) ≡ false
and_false_left a b h = ground arith

and_false_right : (a b : Bool) → b ≡ false → (a && b) ≡ false
and_false_right a b h = ground arith

module _ (zoned : Text → ℕ → ZonedDateParts) (schedule : EffectiveSchedule) (target : PlannerTarget)
    (horizon_end : ℕ) where
  -- No whole minute from the one instant up to the other is in both windows.
  abbrev pub NoneBetween : ℕ → ℕ → Type 0
  NoneBetween from to =
      (q : ℕ)
      → from ≤ q * 60000
      → q * 60000 < to
      → both_windows zoned schedule target (q * 60000) ≡ false

  abbrev pub IsFirst : ℕ → ℕ → Type 0
  IsFirst from t =
      (from ≤ t)
      × (t ≤ horizon_end)
      × (in_schedule zoned schedule t ≡ true)
      × (in_target zoned schedule target t ≡ true)
      × NoneBetween from t

  later : (from mid t : ℕ) → from ≤ mid → NoneBetween from mid → IsFirst mid t → IsFirst from t
  later from mid t le refused (ge, inside, a, b, rest) = (
    omega arith,
    inside,
    a,
    b,
    λ q h k. elim (Bool-cases (ltb (q * 60000) mid)) [
      | inl before ↦ refused q h (ground arith)
      | inr after ↦ rest q (ground arith) k
    ],
  )

  schedule_opening :
      (from mid : ℕ)
      → in_schedule zoned schedule from ≡ false
      → next_schedule_opening zoned schedule from ≡ ok mid
      → (from ≤ mid) × NoneBetween from mid
  unfolding in_schedule next_schedule_opening
  schedule_opening from mid out e =
      let (inside, le, why) =
        next_window_opening-ok zoned from schedule.timezone schedule.allowed_start_time
          schedule.allowed_end_time mid e in
      (
        le,
        λ q h k.
            and_false_left _ _
              (refused_from (in_schedule zoned schedule) from mid out inside why q h k),
      )

  target_opening :
      (from mid : ℕ)
      → in_target zoned schedule target from ≡ false
      → next_target_opening zoned schedule target from ≡ ok mid
      → (from ≤ mid) × NoneBetween from mid
  unfolding in_target next_target_opening
  target_opening from mid out e =
      let (inside, le, why) = next_window_opening-ok zoned from _ _ _ mid e in
      (
        le,
        λ q h k.
            and_false_right _ _
              (refused_from (in_target zoned schedule target) from mid out inside why q h k),
      )

  valid_step :
      (attempts from t : ℕ)
      → valid_slot_from zoned schedule target horizon_end (suc attempts) from ≡ ok (some t)
      → ((t ≡ from) × IsFirst from from)
        ⊎ ((mid : ℕ) × (from ≤ mid)
            × NoneBetween from mid
            × (valid_slot_from zoned schedule target horizon_end attempts mid ≡ ok (some t)))
  unfolding valid_slot_from
  valid_step attempts from t h =
      go (ltb horizon_end from) refl (in_schedule zoned schedule from) refl
        (in_target zoned schedule target from) refl h
    where
      attempt : ℕ → Result (Option ℕ)
      attempt u = valid_slot_from zoned schedule target horizon_end attempts u

      go :
          (out : Bool)
          → ltb horizon_end from ≡ out
          → (a : Bool) → in_schedule zoned schedule from ≡ a
          → (b : Bool) → in_target zoned schedule target from ≡ b
          → (elim out as (λ x. Result (Option ℕ)) [
            | true ↦ ok none
            | false ↦ elim a as (λ x. Result (Option ℕ)) [
              | false ↦ next_schedule_opening zoned schedule from >>= attempt
              | true ↦ elim b as (λ x. Result (Option ℕ)) [
                | false ↦ next_target_opening zoned schedule target from >>= attempt
                | true ↦ ok (some from)
              ]
            ]
          ])
            ≡ ok (some t)
          → ((t ≡ from) × IsFirst from from)
            ⊎ ((mid : ℕ) × (from ≤ mid) × NoneBetween from mid × (attempt mid ≡ ok (some t)))
      go true e a f b g k = cc
      go false e false f b g k =
          let (mid, first, next) = returned (next_schedule_opening zoned schedule from) attempt k in
          let (le, refused) = schedule_opening from mid f first in inr (mid, le, refused, next)
      go false e true f false g k =
          let (mid, first, next) =
            returned (next_target_opening zoned schedule target from) attempt k in
          let (le, refused) = target_opening from mid g first in inr (mid, le, refused, next)
      go false e true f true g k =
          inl (grind arith, (omega arith, ground arith, f, g, λ q h l. absurd (omega arith)))

  valid_slot_from-IsFirst :
      (attempts from t : ℕ)
      → valid_slot_from zoned schedule target horizon_end attempts from ≡ ok (some t)
      → IsFirst from t
  valid_slot_from-IsFirst zero from t h = unfold valid_slot_from in cc
  valid_slot_from-IsFirst (suc attempts) from t h = elim (valid_step attempts from t h) [
    | inl (same, found) ↦ subst (IsFirst from) (ground arith) found
    | inr (mid, le, refused, next) ↦
        later from mid t le refused (valid_slot_from-IsFirst attempts mid t next)
  ]

  -- A slot that `findNextValidSlot` returns is not before the candidate and not after the
  -- horizon, lies in the window of the schedule and in that of the target, and comes before each
  -- other whole minute from the candidate on that does: the jumps to the next opening of either
  -- window skip no minute that lies in both.
  pub find_next_valid_slot-IsFirst :
      (candidate t : ℕ)
      → find_next_valid_slot zoned schedule target horizon_end candidate ≡ ok (some t)
      → IsFirst candidate t
  unfolding find_next_valid_slot
  find_next_valid_slot-IsFirst candidate t h =
      let first = valid_slot_from-IsFirst 2880 (round_up candidate) t h in
      let up = lt-div-mul-add {a = candidate + 59999} {b = 60000} (omega arith) in
      (omega arith, first.1, first.2, first.3, λ q ge lt. first.4 q (omega arith) lt)
