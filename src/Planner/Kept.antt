-- ===== src/Planner/Kept.antt =====
-- What the rounds of the planner keep of the targets' states and of the plan.
use afiliado_shopee.Prelude.{
  ℕ, zero, suc, Bool, true, false, Option, none, some, List, [], ◌∷◌, ◌++◌, length, Text, ◌≡◌, ◌≢◌,
  refl, if◌then◌else◌, nat_beq_iff, Result, ok, err, leb, nat_beq, Bool-cases, inl, inr, ◌⊎◌, arith,
  loop_unfinished,
}
use mathlib.Core.Path.{subst}
use afiliado_shopee.Schedule.{EffectiveSchedule}
use afiliado_shopee.Schedule.Windows.{ZonedDateParts}
use afiliado_shopee.Planner.{TargetState, Plan, is_selected_active}
use afiliado_shopee.Planner.Rounds.{
  wanted_slot, candidate_at, advanced, take_slot, slot_found, visit, visit_all, is_over,
  plan_rounds,
}

module _ (zoned : Text → ℕ → ZonedDateParts) (now : ℕ) (schedule : EffectiveSchedule)
    (horizon_end : ℕ) where
  abbrev pub visited : TargetState → Plan → TargetState × Plan
  visited st plan = visit zoned now schedule horizon_end st plan

  abbrev pub round : ℕ → List TargetState → Plan → List TargetState × Plan
  round g sts plan = visit_all zoned now schedule horizon_end g sts plan

  -- The ways in which a target is passed over or gets a slot.
  pub data Turn (st : TargetState) (plan : Plan) : TargetState × Plan → Type 0 where
    passed : st.remaining ≡ 0 → Turn st plan (st, plan)
    exhausted :
        st.remaining ≢ 0
        → wanted_slot zoned now schedule horizon_end st plan ≡ none
        → Turn st plan (record st { remaining = 0 }, plan)
    taken :
        (t : ℕ)
        → st.remaining ≢ 0
        → wanted_slot zoned now schedule horizon_end st plan ≡ some t
        → is_selected_active st.target (candidate_at st t).selected_instance_name ≡ true
        → Turn st plan (
          advanced st t,
          record plan {
            candidates = plan.candidates ++ (candidate_at st t ∷ []);
            cursor = some t;
            made_progress = true;
          },
        )
    declined :
        (t : ℕ)
        → st.remaining ≢ 0
        → wanted_slot zoned now schedule horizon_end st plan ≡ some t
        → Turn st plan (
          advanced st t,
          record plan {
            cursor = some t;
            made_progress = true;
            skipped = plan.skipped ++ (st.target.campaign_id ∷ []);
          },
        )

  take_slot-Turn :
      (st : TargetState) (plan : Plan) (t : ℕ)
      → st.remaining ≢ 0
      → wanted_slot zoned now schedule horizon_end st plan ≡ some t
      → Turn st plan (take_slot st t plan)
  unfolding take_slot
  take_slot-Turn st plan t h w =
      elim (Bool-cases (is_selected_active st.target (candidate_at st t).selected_instance_name)) [
        | inl a ↦ rw a (taken t h w a)
        | inr a ↦ rw a (declined t h w)
      ]

  pub visit-Turn : (st : TargetState) (plan : Plan) → Turn st plan (visited st plan)
  unfolding visit slot_found
  visit-Turn st plan =
      go (nat_beq st.remaining 0) refl (wanted_slot zoned now schedule horizon_end st plan) refl
    where
      go :
          (b : Bool)
          → nat_beq st.remaining 0 ≡ b
          → (slot : Option ℕ) → wanted_slot zoned now schedule horizon_end st plan ≡ slot
          → Turn st plan
              (if b then (st, plan) else slot_found zoned now schedule horizon_end st plan slot)
      go true e slot f = passed ((nat_beq_iff st.remaining 0).0 e)
      go false e none f = exhausted (λ h. ground arith) f
      go false e (some t) f = take_slot-Turn st plan t (λ h. ground arith) f

  -- A round stops where the slots are enough, or visits the first target and goes on.
  pub round-cases :
      (g : ℕ) (st : TargetState) (sts : List TargetState) (plan : Plan)
      → (let r = visited st plan in
          (round g (st ∷ sts) plan ≡ (st ∷ sts, plan))
          ⊎ (round g (st ∷ sts) plan ≡ (r.0 ∷ (round g sts r.1).0, (round g sts r.1).1)))
  unfolding visit_all
  round-cases g st sts plan = elim (Bool-cases (leb g (length plan.candidates))) [
    | inl enough ↦ inl (rw (enough, visit_all) refl)
    | inr more ↦ inr (rw (more, visit_all) refl)
  ]

  -- What a round keeps of a state and the plan, if a visit keeps it.
  module _ (I : List TargetState → Plan → Type 0)
      (round_keeps : (g : ℕ) (sts : List TargetState) (plan : Plan)
        → I sts plan
        → (let r = round g sts (record plan { made_progress = false }) in I r.0 r.1)) where
    pub plan_rounds-keeps :
        (g fuel : ℕ) (sts : List TargetState) (plan final : Plan)
        → I sts plan
        → plan_rounds zoned now schedule horizon_end g fuel sts plan ≡ ok final
        → (last : List TargetState) × I last final
    unfolding plan_rounds
    plan_rounds-keeps g zero sts plan final i h = go (is_over g plan) h
      where
        go :
            (b : Bool)
            → (if b then ok plan else err loop_unfinished) ≡ ok final
            → (last : List TargetState) × I last final
        go true k = (sts, subst (I sts) (grind arith) i)
        go false k = cc
    plan_rounds-keeps g (suc fuel) sts plan final i h =
        let next = round g sts (record plan { made_progress = false }) in
        go (is_over g plan)
          (plan_rounds-keeps g fuel next.0 next.1 final (round_keeps g sts plan i)) h
      where
        next : List TargetState × Plan
        next = round g sts (record plan { made_progress = false })

        go :
            (b : Bool)
            → (plan_rounds zoned now schedule horizon_end g fuel next.0 next.1 ≡ ok final
                → (last : List TargetState) × I last final)
            → (elim b as (λ x. Result Plan) [
              | true ↦ ok plan
              | false ↦ plan_rounds zoned now schedule horizon_end g fuel next.0 next.1
            ])
              ≡ ok final
            → (last : List TargetState) × I last final
        go true ih k = (sts, subst (I sts) (grind arith) i)
        go false ih k = ih k
