-- ===== src/Planner/Ends.antt =====
-- The loop over the rounds ends.
use afiliado_shopee.Prelude.{
  ℕ, zero, suc, ◌≤◌, ◌<◌, true, false, List, [], ◌∷◌, Text, ◌≡◌, refl, ok, Bool-cases, inl, inr,
  ◌⊎◌, arith,
}
use afiliado_shopee.Schedule.{EffectiveSchedule}
use afiliado_shopee.Schedule.Windows.{ZonedDateParts}
use afiliado_shopee.Planner.{TargetState, Plan}
use afiliado_shopee.Planner.Rounds.{advanced, visit_all, is_over, plan_rounds, total_remaining}
use afiliado_shopee.Planner.Kept.{
  Turn, passed, exhausted, taken, declined, visit-Turn, visited, round, round-cases,
}

module _ (zoned : Text → ℕ → ZonedDateParts) (now : ℕ) (schedule : EffectiveSchedule)
    (horizon_end : ℕ) where
  -- What is left does not grow, and falls where there was progress.
  abbrev Falls : ℕ → Plan → ℕ → Plan → Type 0
  Falls before plan after plan' =
      (after ≤ before)
      × (plan'.made_progress ≡ true → (plan.made_progress ≡ true) ⊎ (after < before))

  visit-Falls :
      (st : TargetState) (plan : Plan) (r : TargetState × Plan)
      → Turn zoned now schedule horizon_end st plan r
      → Falls st.remaining plan r.0.remaining r.1
  visit-Falls st plan r (passed h) = (omega arith, λ p. inl p)
  visit-Falls st plan r (exhausted h w) = (omega arith, λ p. inl p)
  visit-Falls st plan r (taken t h w a) = unfold advanced in (omega arith, λ p. inr (ground arith))
  visit-Falls st plan r (declined t h w) = unfold advanced in (omega arith, λ p. inr (ground arith))

  round-Falls :
      (g : ℕ) (sts : List TargetState) (plan : Plan)
      → (let r = round zoned now schedule horizon_end g sts plan in
          Falls (total_remaining sts) plan (total_remaining r.0) r.1)
  round-Falls g [] plan = unfold visit_all in (omega arith, λ p. inl p)
  round-Falls g (st ∷ sts) plan = elim (round-cases zoned now schedule horizon_end g st sts plan) [
    | inl stop ↦ rw stop (omega arith, λ p. inl p)
    | inr go_on ↦
        let r = visited zoned now schedule horizon_end st plan in
        let (less, falls) =
          visit-Falls st plan r (visit-Turn zoned now schedule horizon_end st plan) in
        let (less', falls') = round-Falls g sts r.1 in
        rw go_on (
          omega arith,
          λ p. elim (falls' p) [
            | inl q ↦ elim (falls q) [ inl same ↦ inl same | inr lower ↦ inr (omega arith) ]
            | inr lower ↦ inr (omega arith)
          ],
        )
  ]

  -- As many rounds as there are slots left, and one, are enough.
  pub plan_rounds-ok :
      (g fuel : ℕ) (sts : List TargetState) (plan : Plan)
      → (plan.made_progress ≡ false) ⊎ (total_remaining sts < fuel)
      → (final : Plan) × (plan_rounds zoned now schedule horizon_end g fuel sts plan ≡ ok final)
  unfolding plan_rounds
  plan_rounds-ok g zero sts plan (inl idle) = (plan, rw (idle, plan_rounds) (ground arith))
  plan_rounds-ok g zero sts plan (inr few) = absurd (omega arith)
  plan_rounds-ok g (suc fuel) sts plan few = elim (Bool-cases (is_over g plan)) [
    | inl over ↦ (plan, rw (over, plan_rounds) refl)
    | inr on ↦
        let next =
          round zoned now schedule horizon_end g sts (record plan { made_progress = false }) in
        let (less, falls) = round-Falls g sts (record plan { made_progress = false }) in
        let busy : plan.made_progress ≡ true = ground arith in
        let (final, e) =
          plan_rounds-ok g fuel next.0 next.1 (elim (Bool-cases next.1.made_progress) [
            | inl p ↦ elim (falls p) [
              | inl q ↦ cc
              | inr lower ↦ elim few [ inl idle ↦ cc | inr enough ↦ inr (omega arith) ]
            ]
            | inr idle ↦ inl idle
          ]) in
        (final, rw (on, plan_rounds) e)
  ]
