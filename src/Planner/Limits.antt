-- ===== src/Planner/Limits.antt =====
-- The slots of a group stay within its limit.
use afiliado_shopee.Prelude.{
  ℕ, ◌+◌, ◌-◌, ◌≤◌, min, false, Option, none, some, or_else, List, [], ◌∷◌, Text, text_eq, ◌==◌,
  ◌≡◌, ◌≢◌, ok, if◌then◌else◌, inl, inr, arith,
}
use mathlib.Core.Path.{subst}
use afiliado_shopee.Schedule.{EffectiveSchedule}
use afiliado_shopee.Schedule.Windows.{ZonedDateParts}
use afiliado_shopee.Planner.{
  Candidate, TargetState, Plan, remaining_for_group, target_state, target_states,
}
use afiliado_shopee.Planner.Totals.{total, total-append}
use afiliado_shopee.Planner.Target.{PlannerTarget}
use afiliado_shopee.Planner.Rounds.{candidate_at, advanced, visit_all, plan_rounds}
use afiliado_shopee.Planner.Kept.{
  Turn, passed, exhausted, taken, declined, visit-Turn, visited, round, round-cases,
  plan_rounds-keeps,
}
use afiliado_shopee.Planner.Started.{target_states-Start, left_out, joined, no_states}

-- The weight of something that belongs to the group.
abbrev pub in_group : Text → Text → ℕ → ℕ
in_group group mine n = if mine == group then n else 0

module _ (group : Text) where
  abbrev pub slots_in : List Candidate → ℕ
  slots_in = total (λ c. in_group group c.target.logical_group_fingerprint 1)

  abbrev pub left_in : List TargetState → ℕ
  left_in = total (λ st. in_group group st.target.logical_group_fingerprint st.remaining)

  -- What the plan gives the targets of the group to send today.
  abbrev pub limit_in : EffectiveSchedule → Option ℕ → List PlannerTarget → ℕ
  limit_in schedule max_slots =
      total
        (λ t. in_group group t.logical_group_fingerprint (remaining_for_group schedule max_slots t))

  -- What the daily limits leave the targets of the group after what each group has got today, with
  -- no target above the slots that are asked for it.
  abbrev pub room_in : EffectiveSchedule → Option ℕ → List PlannerTarget → ℕ
  room_in schedule max_slots = total (λ t. in_group group t.logical_group_fingerprint (
      min (or_else max_slots t.daily_limit) (
        min (t.daily_limit - t.group_sent_today)
          (schedule.daily_group_limit - t.group_sent_today))))

  in_group-le : (mine : Text) (m n : ℕ) → m ≤ n → in_group group mine m ≤ in_group group mine n
  in_group-le mine m n h = ground arith

  remaining-room :
      (schedule : EffectiveSchedule) (max_slots : Option ℕ) (t : PlannerTarget)
      → remaining_for_group schedule max_slots t
        ≤ min (or_else max_slots t.daily_limit) (
            min
              (t.daily_limit - t.group_sent_today)
              (schedule.daily_group_limit - t.group_sent_today))
  unfolding remaining_for_group
  remaining-room schedule none t = omega arith
  remaining-room schedule (some m) t = omega arith

  pub limit_in-room :
      (schedule : EffectiveSchedule) (max_slots : Option ℕ) (ts : List PlannerTarget)
      → limit_in schedule max_slots ts ≤ room_in schedule max_slots ts
  limit_in-room schedule max_slots [] = omega arith
  limit_in-room schedule max_slots (t ∷ ts) = omega (
    arith,
    in_group-le t.logical_group_fingerprint _ _ (remaining-room schedule max_slots t),
    limit_in-room schedule max_slots ts,
  )

  in_group-one :
      (mine : Text) (n : ℕ)
      → n ≢ 0
      → in_group group mine 1 + in_group group mine (n - 1) ≤ in_group group mine n
  in_group-one mine n some' = ground arith

  module _ (zoned : Text → ℕ → ZonedDateParts) (now : ℕ) (schedule : EffectiveSchedule) where
    module _ (horizon_end : ℕ) where
      visit-within :
          (st : TargetState) (plan : Plan) (r : TargetState × Plan)
          → Turn zoned now schedule horizon_end st plan r
          → slots_in r.1.candidates
              + in_group group r.0.target.logical_group_fingerprint r.0.remaining
            ≤ slots_in plan.candidates
              + in_group group st.target.logical_group_fingerprint st.remaining
      visit-within st plan r (passed h) = omega arith
      visit-within st plan r (exhausted h w) = ground arith
      visit-within st plan r (taken t h w a) =
          unfold candidate_at advanced in
          omega (
            arith,
            total-append (λ c. in_group group c.target.logical_group_fingerprint 1) plan.candidates
                (candidate_at st t ∷ []),
            in_group-one st.target.logical_group_fingerprint st.remaining h,
          )
      visit-within st plan r (declined t h w) = unfold advanced in ground arith

      round-within :
          (g : ℕ) (sts : List TargetState) (plan : Plan)
          → (let r = round zoned now schedule horizon_end g sts plan in
              slots_in r.1.candidates + left_in r.0 ≤ slots_in plan.candidates + left_in sts)
      round-within g [] plan = unfold visit_all in omega arith
      round-within g (st ∷ sts) plan =
          elim (round-cases zoned now schedule horizon_end g st sts plan) [
            | inl stop ↦ rw stop (omega arith)
            | inr go_on ↦
                let r = visited zoned now schedule horizon_end st plan in
                let here =
                  visit-within st plan r (visit-Turn zoned now schedule horizon_end st plan) in
                let rest = round-within g sts r.1 in rw go_on (omega arith)
          ]

      pub plan_rounds-within :
          (g fuel : ℕ) (sts : List TargetState) (plan final : Plan)
          → plan_rounds zoned now schedule horizon_end g fuel sts plan ≡ ok final
          → slots_in final.candidates ≤ slots_in plan.candidates + left_in sts
      plan_rounds-within g fuel sts plan final h =
          let limit = slots_in plan.candidates + left_in sts in
          let (last, within) : (last : List TargetState) × (slots_in final.candidates + left_in last
                ≤ limit) =
            plan_rounds-keeps zoned now schedule horizon_end
              (λ s p. slots_in p.candidates + left_in s ≤ limit)
              (λ g' s p i. omega (arith, round-within g' s (record p { made_progress = false }))) g
              fuel sts plan final (omega arith) h in
          omega arith

    pub target_states-within :
        (day : ℕ × ℕ) (max_slots : Option ℕ) (ts : List PlannerTarget) (states : List TargetState)
        (skipped : List Text)
        → target_states zoned now schedule day max_slots ts ≡ ok (states, skipped)
        → left_in states ≤ limit_in schedule max_slots ts
    unfolding target_state
    target_states-within day max_slots [] states skipped h =
        subst (λ s. left_in s ≤ 0) (no_states zoned now schedule day max_slots states skipped h)
          (omega arith)
    target_states-within day max_slots (t ∷ ts) states skipped h =
        elim (target_states-Start zoned now schedule day max_slots t ts states skipped h) [
          | left_out k e rest ↦ omega (arith, target_states-within day max_slots ts states k rest)
          | joined anchor ss k e f g same ↦
              rw same (omega (arith, target_states-within day max_slots ts ss k g))
        ]
