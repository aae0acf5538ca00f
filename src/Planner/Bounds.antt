-- ===== src/Planner/Bounds.antt =====
-- Each slot of a plan fits the day, the windows and the instances.
use afiliado_shopee.Prelude.{
  ℕ, suc, ◌≤◌, ◌<◌, max, true, false, some, List, [], ◌∷◌, get_elem?, Text, All, ◌≡◌, refl, ok, inl,
  inr, arith,
}
use afiliado_shopee.Schedule.{EffectiveSchedule}
use afiliado_shopee.Schedule.Windows.{ZonedDateParts}
use afiliado_shopee.Planner.{Candidate, TargetState, Plan, is_selected_active, stagger_floor}
use afiliado_shopee.Planner.Sorted.{All-append, All-weaken}
use afiliado_shopee.Planner.Target.{PlannerTarget, in_schedule, in_target}
use afiliado_shopee.Planner.Rounds.{wanted_slot, candidate_at, advanced, visit_all, plan_rounds}
use afiliado_shopee.Planner.Grid.{find_next_grid_slot-first}
use afiliado_shopee.Planner.Kept.{
  Turn, passed, exhausted, taken, declined, visit-Turn, visited, round, round-cases,
  plan_rounds-keeps,
}

-- An element of the list.
abbrev pub Among {ℓ} : {A : Type ℓ} → A → List A → Type ℓ
Among x xs = (i : ℕ) × (get_elem? xs i ≡ some x)

pub All-Among {ℓ} : {A : Type ℓ} (xs : List A) → All (λ x. Among x xs) xs
All-Among [] = tt
All-Among (x ∷ xs) =
    ((0, refl), All-weaken (λ y. Among y xs) _ xs (λ y (i, e). (suc i, e)) (All-Among xs))

module _ (zoned : Text → ℕ → ZonedDateParts) (now : ℕ) (schedule : EffectiveSchedule)
    (Q : PlannerTarget → Type 0) where
  -- The time is in the windows of the schedule and the target, and the instance is active.
  pub record FitsAt (horizon_end : ℕ) (t : PlannerTarget) (at : ℕ) (name : Text) : Type 0 where
    pub is_target : Q t
    pub not_before : now ≤ at
    pub not_after : at ≤ horizon_end
    pub allowed : in_schedule zoned schedule at ≡ true
    pub target_allowed : in_target zoned schedule t at ≡ true
    pub selected_active : is_selected_active t name ≡ true

  abbrev pub Fits : ℕ → Candidate → Type 0
  Fits horizon_end c = FitsAt horizon_end c.target c.scheduled_for c.selected_instance_name

  abbrev pub StateFits : TargetState → Type 0
  StateFits st = Q st.target × (now ≤ st.next_base) × (0 < st.interval)

  module _ (horizon_end : ℕ) where
    abbrev AllFit : List TargetState → Plan → Type 0
    AllFit sts plan = All StateFits sts × All (Fits horizon_end) plan.candidates

    visit-Fits :
        (st : TargetState) (plan : Plan) (r : TargetState × Plan)
        → Turn zoned now schedule horizon_end st plan r
        → StateFits st
        → All (Fits horizon_end) plan.candidates
        → StateFits r.0 × All (Fits horizon_end) r.1.candidates
    visit-Fits st plan r (passed h) state fits = (state, fits)
    visit-Fits st plan r (exhausted h w) state fits = (state, fits)
    visit-Fits st plan r (taken t h w a) (q, from, positive) fits =
        let (ge, le, s, g, grid) =
          find_next_grid_slot-first zoned schedule st.target horizon_end st.rotation_anchor
            st.interval (max st.next_base (stagger_floor now schedule plan.cursor)) positive t
            (unfold wanted_slot in w) in
        unfold candidate_at advanced in
        (
          (q, omega arith, positive),
          All-append (Fits horizon_end) plan.candidates _ fits (
            record {
              is_target = q;
              not_before = omega arith;
              not_after = le;
              allowed = s;
              target_allowed = g;
              selected_active = a;
            },
            tt,
          ),
        )
    visit-Fits st plan r (declined t h w) (q, from, positive) fits =
        let first =
          find_next_grid_slot-first zoned schedule st.target horizon_end st.rotation_anchor
            st.interval (max st.next_base (stagger_floor now schedule plan.cursor)) positive t
            (unfold wanted_slot in w) in
        unfold advanced in ((q, omega (arith, first.0), positive), fits)

    round-Fits :
        (g : ℕ) (sts : List TargetState) (plan : Plan)
        → AllFit sts plan
        → (let r = round zoned now schedule horizon_end g sts plan in AllFit r.0 r.1)
    round-Fits g [] plan fit = unfold visit_all in fit
    round-Fits g (st ∷ sts) plan ((state, states), fits) =
        elim (round-cases zoned now schedule horizon_end g st sts plan) [
          | inl stop ↦ rw stop ((state, states), fits)
          | inr go_on ↦
              let r = visited zoned now schedule horizon_end st plan in
              let (state', fits') =
                visit-Fits st plan r (visit-Turn zoned now schedule horizon_end st plan) state
                  fits in
              let (states', fits'') = round-Fits g sts r.1 (states, fits') in
              rw go_on ((state', states'), fits'')
        ]

    pub plan_rounds-Fits :
        (g fuel : ℕ) (sts : List TargetState) (plan final : Plan)
        → All StateFits sts
        → All (Fits horizon_end) plan.candidates
        → plan_rounds zoned now schedule horizon_end g fuel sts plan ≡ ok final
        → All (Fits horizon_end) final.candidates
    plan_rounds-Fits g fuel sts plan final states fits h =
        (plan_rounds-keeps zoned now schedule horizon_end AllFit
          (λ g' s p fit. round-Fits g' s (record p { made_progress = false }) fit) g fuel sts plan
          final (states, fits) h).1.1
