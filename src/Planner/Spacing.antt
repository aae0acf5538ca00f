-- ===== src/Planner/Spacing.antt =====
-- The distance between two slots of a group.
use afiliado_shopee.Prelude.{
  ℕ, ◌+◌, ◌*◌, ◌≤◌, ◌<◌, max, some, List, [], ◌∷◌, Text, All, ◌≡◌, ◌≢◌, refl, sym, inl, inr, ◌⊎◌,
  arith,
}
use mathlib.Core.Path.{subst}
use afiliado_shopee.Schedule.{EffectiveSchedule}
use afiliado_shopee.Schedule.Windows.{ZonedDateParts}
use afiliado_shopee.Planner.{Candidate, TargetState, Plan, stagger_floor}
use afiliado_shopee.Planner.Sorted.{Pairs, All-append, All-weaken, Pairs-append}
use afiliado_shopee.Planner.Target.{minute_ms}
use afiliado_shopee.Planner.Rounds.{wanted_slot, candidate_at, advanced, visit_all}
use afiliado_shopee.Planner.Grid.{find_next_grid_slot-first}
use afiliado_shopee.Planner.Kept.{
  Turn, passed, exhausted, taken, declined, visit-Turn, visited, round, round-cases,
}

-- The logical group of a slot.
abbrev pub group_of : Candidate → Text
group_of c = c.target.logical_group_fingerprint

-- Two slots of one group that are at least `gap` milliseconds apart.
abbrev pub Apart : ℕ → Candidate → Candidate → Type 0
Apart gap c d =
    group_of c ≡ group_of d
    → (c.scheduled_for + gap ≤ d.scheduled_for) ⊎ (d.scheduled_for + gap ≤ c.scheduled_for)

pub Apart-symmetric : (gap : ℕ) (c d : Candidate) → Apart gap c d → Apart gap d c
Apart-symmetric gap c d h same = elim (h (sym same)) [ inl a ↦ inr a | inr a ↦ inl a ]

-- The slots of the group end a gap before the base.
abbrev pub Clear : ℕ → Text → ℕ → List Candidate → Type 0
Clear gap group base = All (λ c. group_of c ≡ group → c.scheduled_for + gap ≤ base)

module _ (zoned : Text → ℕ → ZonedDateParts) (now : ℕ) (schedule : EffectiveSchedule)
    (horizon_end : ℕ) where
  abbrev pub gap : ℕ
  gap = schedule.minimum_interval_minutes * minute_ms

  abbrev pub state_group : TargetState → Text
  state_group st = st.target.logical_group_fingerprint

  abbrev pub StateIsClear : List Candidate → TargetState → Type 0
  StateIsClear cs st =
      (schedule.minimum_interval_minutes ≤ st.interval)
      × (0 < st.interval)
      × Clear gap (state_group st) st.next_base cs

  wanted-ge :
      (st : TargetState) (plan : Plan) (t : ℕ)
      → 0 < st.interval
      → wanted_slot zoned now schedule horizon_end st plan ≡ some t
      → st.next_base ≤ t
  unfolding wanted_slot
  wanted-ge st plan t positive h = omega (
    arith,
    (find_next_grid_slot-first zoned schedule st.target horizon_end st.rotation_anchor st.interval
        (max st.next_base (stagger_floor now schedule plan.cursor)) positive t h).0,
  )

  visit-target :
      (st : TargetState) (plan : Plan) (r : TargetState × Plan)
      → Turn zoned now schedule horizon_end st plan r
      → r.0.target ≡ st.target
  visit-target st plan r (passed h) = refl
  visit-target st plan r (exhausted h w) = refl
  visit-target st plan r (taken t h w a) = unfold advanced in refl
  visit-target st plan r (declined t h w) = unfold advanced in refl

  visit-Clear_other :
      (group : Text) (base : ℕ) (st : TargetState) (plan : Plan) (r : TargetState × Plan)
      → Turn zoned now schedule horizon_end st plan r
      → state_group st ≢ group
      → Clear gap group base plan.candidates
      → Clear gap group base r.1.candidates
  visit-Clear_other group base st plan r (passed h) other clear = clear
  visit-Clear_other group base st plan r (exhausted h w) other clear = clear
  visit-Clear_other group base st plan r (taken t h w a) other clear =
      All-append _ plan.candidates _ clear
        (λ same. absurd (other (unfold candidate_at in same)), tt)
  visit-Clear_other group base st plan r (declined t h w) other clear = clear

  visit-StateIsClear :
      (st : TargetState) (plan : Plan) (r : TargetState × Plan)
      → Turn zoned now schedule horizon_end st plan r
      → StateIsClear plan.candidates st
      → Pairs (Apart gap) plan.candidates
      → StateIsClear r.1.candidates r.0 × Pairs (Apart gap) r.1.candidates
  visit-StateIsClear st plan r (passed h) clear apart = (clear, apart)
  visit-StateIsClear st plan r (exhausted h w) clear apart = (clear, apart)
  visit-StateIsClear st plan r (taken t h w a) (wide, positive, clear) apart =
      let later = wanted-ge st plan t positive w in
      unfold candidate_at advanced in
      (
        (
          wide,
          positive,
          All-append _ plan.candidates _
              (All-weaken _ _ plan.candidates (λ c old same. omega (arith, old same)) clear)
              (λ same. omega arith, tt),
        ),
        Pairs-append (Apart gap) plan.candidates _ apart
            (All-weaken _ _ plan.candidates (λ c old same. inl (omega (arith, old same))) clear),
      )
  visit-StateIsClear st plan r (declined t h w) (wide, positive, clear) apart =
      let later = wanted-ge st plan t positive w in
      unfold advanced in
      (
        (
          wide,
          positive,
          All-weaken _ _ plan.candidates (λ c old same. omega (arith, old same)) clear,
        ),
        apart,
      )

  abbrev OtherGroup : Text → TargetState → Type 0
  OtherGroup group st = state_group st ≢ group

  abbrev pub GroupsDiffer : TargetState → TargetState → Type 0
  GroupsDiffer a b = state_group b ≢ state_group a

  -- What a round knows: the slots are apart, each state is after the slots of its group, and no
  -- two states have one group.
  abbrev pub Spaced : List TargetState → Plan → Type 0
  Spaced sts plan =
      Pairs (Apart gap) plan.candidates
      × All (StateIsClear plan.candidates) sts
      × Pairs GroupsDiffer sts

  round-Clear_other :
      (group : Text) (base g : ℕ) (sts : List TargetState) (plan : Plan)
      → All (OtherGroup group) sts
      → Clear gap group base plan.candidates
      → Clear gap group base (round zoned now schedule horizon_end g sts plan).1.candidates
  round-Clear_other group base g [] plan others clear = unfold visit_all in clear
  round-Clear_other group base g (st ∷ sts) plan (other, others) clear =
      elim (round-cases zoned now schedule horizon_end g st sts plan) [
        | inl stop ↦ rw stop clear
        | inr go_on ↦ rw go_on (
            round-Clear_other group base g sts _ others (
              visit-Clear_other group base st plan _
                (visit-Turn zoned now schedule horizon_end st plan) other clear))
      ]

  -- The states keep their targets, so that what holds of every group still does.
  round-OtherGroup :
      (group : Text) (g : ℕ) (sts : List TargetState) (plan : Plan)
      → All (OtherGroup group) sts
      → All (OtherGroup group) (round zoned now schedule horizon_end g sts plan).0
  round-OtherGroup group g [] plan others = unfold visit_all in others
  round-OtherGroup group g (st ∷ sts) plan (other, others) =
      elim (round-cases zoned now schedule horizon_end g st sts plan) [
        | inl stop ↦ rw stop (other, others)
        | inr go_on ↦ rw go_on (
          subst (λ t. t.logical_group_fingerprint ≢ group)
              (sym (visit-target st plan _ (visit-Turn zoned now schedule horizon_end st plan)))
              other,
          round-OtherGroup group g sts _ others,
        )
      ]

  visit-others :
      (st : TargetState) (sts : List TargetState) (plan : Plan)
      → All (GroupsDiffer st) sts
      → All (StateIsClear plan.candidates) sts
      → All (StateIsClear (visited zoned now schedule horizon_end st plan).1.candidates) sts
  visit-others st [] plan differ clear = tt
  visit-others st (o ∷ os) plan (differ, differs) ((wide, positive, clear), clears) = (
    (
      wide,
      positive,
      visit-Clear_other (state_group o) o.next_base st plan _
          (visit-Turn zoned now schedule horizon_end st plan) (λ same. differ (sym same)) clear,
    ),
    visit-others st os plan differs clears,
  )

  pub round-Spaced :
      (g : ℕ) (sts : List TargetState) (plan : Plan)
      → Spaced sts plan
      → (let r = round zoned now schedule horizon_end g sts plan in Spaced r.0 r.1)
  round-Spaced g [] plan spaced = unfold visit_all in spaced
  round-Spaced g (st ∷ sts) plan (apart, (clear, clears), (differ, differs)) =
      elim (round-cases zoned now schedule horizon_end g st sts plan) [
        | inl stop ↦ rw stop (apart, (clear, clears), (differ, differs))
        | inr go_on ↦
            let r = visited zoned now schedule horizon_end st plan in
            let seen = visit-Turn zoned now schedule horizon_end st plan in
            let (here, apart') = visit-StateIsClear st plan r seen clear apart in
            let (apart'', clears', differs') =
              round-Spaced g sts r.1 (apart', visit-others st sts plan differ clears, differs) in
            let others : All (OtherGroup (state_group r.0)) sts =
              subst (λ t. All (OtherGroup t.logical_group_fingerprint) sts)
                (sym (visit-target st plan r seen)) differ in
            rw go_on (
              apart'',
              (
                (
                  here.0,
                  here.1,
                  round-Clear_other (state_group r.0) r.0.next_base g sts r.1 others here.2,
                ),
                clears',
              ),
              (round-OtherGroup (state_group r.0) g sts r.1 others, differs'),
            )
      ]
