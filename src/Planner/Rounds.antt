-- ===== src/Planner/Rounds.antt =====
-- The rounds of `planCommercialTargetSlots` over the targets.
use afiliado_shopee.Prelude.{
  ℕ, zero, suc, ◌+◌, ◌-◌, ◌*◌, ◌%◌, max, Bool, true, false, ◌||◌, not, Option, none, some, List, [],
  ◌∷◌, ◌++◌, Text, leb, nat_beq, length, Result, ok, err, if◌then◌else◌, loop_unfinished,
}
use afiliado_shopee.Schedule.{EffectiveSchedule}
use afiliado_shopee.Schedule.Windows.{ZonedDateParts}
use afiliado_shopee.Planner.{
  Candidate, TargetState, Plan, stagger_floor, name_at, is_selected_active,
}
use afiliado_shopee.Planner.Target.{minute_ms, find_next_grid_slot, get_stable_rotation_slot_index}

unfoldable pub candidate_at : TargetState → ℕ → Candidate
candidate_at st t =
    let index = get_stable_rotation_slot_index t st.rotation_anchor st.interval in
    record {
      target = st.target;
      scheduled_for = t;
      slot_index = index;
      selected_instance_name = name_at st.names (index % length st.names);
    }

unfoldable pub advanced : TargetState → ℕ → TargetState
advanced st t = record st { remaining = st.remaining - 1; next_base = t + st.interval * minute_ms }

unfoldable pub take_slot : TargetState → ℕ → Plan → TargetState × Plan
unfolding candidate_at advanced
take_slot st t plan =
    let c = candidate_at st t in
    if is_selected_active st.target c.selected_instance_name
    then (
      advanced st t,
      record plan {
        candidates = plan.candidates ++ (c ∷ []);
        cursor = some t;
        made_progress = true;
      },
    )
    else (
      advanced st t,
      record plan {
        cursor = some t;
        made_progress = true;
        skipped = plan.skipped ++ (st.target.campaign_id ∷ []);
      },
    )

abbrev pub is_over : ℕ → Plan → Bool
is_over global_remaining plan =
    leb global_remaining (length plan.candidates) || not plan.made_progress

module _ (zoned : Text → ℕ → ZonedDateParts) (now : ℕ) (schedule : EffectiveSchedule)
    (horizon_end : ℕ) where
  -- The slot that the loop looks for next for a target.
  unfoldable pub wanted_slot : TargetState → Plan → Option ℕ
  wanted_slot st plan =
      find_next_grid_slot zoned schedule st.target horizon_end st.rotation_anchor st.interval
        (max st.next_base (stagger_floor now schedule plan.cursor))

  unfoldable pub slot_found : TargetState → Plan → Option ℕ → TargetState × Plan
  unfolding take_slot
  slot_found st plan none = (record st { remaining = 0 }, plan)
  slot_found st plan (some t) = take_slot st t plan

  -- The body of the `for` loop.
  unfoldable pub visit : TargetState → Plan → TargetState × Plan
  unfolding slot_found wanted_slot
  visit st plan =
      if nat_beq st.remaining 0 then (st, plan) else slot_found st plan (wanted_slot st plan)

  unfoldable pub visit_all : ℕ → List TargetState → Plan → List TargetState × Plan
  unfolding visit
  visit_all global_remaining [] plan = ([], plan)
  visit_all global_remaining (st ∷ sts) plan =
      elim (leb global_remaining (length plan.candidates)) [
        | true ↦ (st ∷ sts, plan)
        | false ↦
            let (st', plan') = visit st plan in
            let (sts', plan'') = visit_all global_remaining sts plan' in (st' ∷ sts', plan'')
      ]

  -- The `while` loop, with `fuel` rounds at most.
  unfoldable pub plan_rounds : ℕ → ℕ → List TargetState → Plan → Result Plan
  unfolding visit_all
  plan_rounds global_remaining zero sts plan =
      if is_over global_remaining plan then ok plan else err loop_unfinished
  plan_rounds global_remaining (suc fuel) sts plan = elim (is_over global_remaining plan) [
    | true ↦ ok plan
    | false ↦
        let (sts', plan') =
          visit_all global_remaining sts (record plan { made_progress = false }) in
        plan_rounds global_remaining fuel sts' plan'
  ]

-- Each round that goes on takes a slot from some target.
abbrev pub total_remaining : List TargetState → ℕ
total_remaining [] = 0
total_remaining (st ∷ sts) = st.remaining + total_remaining sts
