-- ===== src/Planner/Started.antt =====
-- What the states of the targets start from.
use afiliado_shopee.Prelude.{
  ℕ, Bool, true, false, Option, List, [], ◌∷◌, Text, All, ◌≡◌, refl, Result, ok, ◌>>=◌, returned,
  arith,
}
use mathlib.Core.Path.{subst}
use afiliado_shopee.Schedule.{EffectiveSchedule}
use afiliado_shopee.Schedule.Windows.{ZonedDateParts}
use afiliado_shopee.Planner.{TargetState, is_skipped, target_state, target_states}
use afiliado_shopee.Planner.Sorted.{Pairs}
use afiliado_shopee.Planner.Target.{PlannerTarget, resolve_rotation_anchor}

module _ (zoned : Text → ℕ → ZonedDateParts) (now : ℕ) (schedule : EffectiveSchedule) (day : ℕ × ℕ)
    (max_slots : Option ℕ) where
  abbrev states_of : List PlannerTarget → Result (List TargetState × List Text)
  states_of = target_states zoned now schedule day max_slots

  -- The states of a list are those of its tail, or one more that is not skipped.
  pub data Start (t : PlannerTarget) (ts : List PlannerTarget) (states : List TargetState)
      : Type 0 where
    left_out :
        (skipped : List Text)
        → is_skipped schedule max_slots t ≡ true
        → states_of ts ≡ ok (states, skipped)
        → Start t ts states
    joined :
        (anchor : ℕ) (rest : List TargetState) (skipped : List Text)
        → is_skipped schedule max_slots t ≡ false
        → resolve_rotation_anchor zoned schedule day.0 day.1 t ≡ ok anchor
        → states_of ts ≡ ok (rest, skipped)
        → states ≡ target_state zoned now schedule day max_slots t anchor ∷ rest
        → Start t ts states

  pub target_states-Start :
      (t : PlannerTarget) (ts : List PlannerTarget) (states : List TargetState)
      (skipped : List Text)
      → states_of (t ∷ ts) ≡ ok (states, skipped)
      → Start t ts states
  unfolding target_states
  target_states-Start t ts states skipped h = go (is_skipped schedule max_slots t) refl h
    where
      cont : List TargetState × List Text → Result (List TargetState × List Text)
      cont (s, k) = ok (s, t.campaign_id ∷ k)

      join' : ℕ → List TargetState × List Text → Result (List TargetState × List Text)
      join' anchor (s, k) = ok (target_state zoned now schedule day max_slots t anchor ∷ s, k)

      go :
          (b : Bool)
          → is_skipped schedule max_slots t ≡ b
          → (elim b as (λ x. Result (List TargetState × List Text)) [
            | true ↦ states_of ts >>= cont
            | false ↦ resolve_rotation_anchor zoned schedule day.0 day.1 t >>= λ anchor.
                states_of ts >>= join' anchor
          ])
            ≡ ok (states, skipped)
          → Start t ts states
      go true e k =
          let (rest, f, g) = returned (states_of ts) cont k in left_out rest.1 e (grind arith)
      go false e k =
          let (anchor, f, k') =
            returned (resolve_rotation_anchor zoned schedule day.0 day.1 t)
              (λ anchor. states_of ts >>= join' anchor) k in
          let (rest, g, l) = returned (states_of ts) (join' anchor) k' in
          joined anchor rest.0 rest.1 e f g (grind arith)

  pub no_states :
      (states : List TargetState) (skipped : List Text)
      → states_of [] ≡ ok (states, skipped)
      → [] ≡ states
  unfolding target_states
  no_states states skipped h = grind arith

  pub target_states-All :
      (P : TargetState → Type 0) (Q : PlannerTarget → Type 0)
      → ((t : PlannerTarget) (anchor : ℕ)
          → Q t
          → is_skipped schedule max_slots t ≡ false
          → resolve_rotation_anchor zoned schedule day.0 day.1 t ≡ ok anchor
          → P (target_state zoned now schedule day max_slots t anchor))
      → (ts : List PlannerTarget) (states : List TargetState) (skipped : List Text) → All Q ts
      → states_of ts ≡ ok (states, skipped)
      → All P states
  target_states-All P Q make [] states skipped qs h = subst (All P) (no_states states skipped h) tt
  target_states-All P Q make (t ∷ ts) states skipped (q, qs) h =
      elim (target_states-Start t ts states skipped h) [
        | left_out k e rest ↦ target_states-All P Q make ts states k qs rest
        | joined anchor rs k e f g same ↦
            rw same (make t anchor q e f, target_states-All P Q make ts rs k qs g)
      ]

  pub target_states-Pairs :
      (R : PlannerTarget → PlannerTarget → Type 0)
      → (ts : List PlannerTarget) (states : List TargetState) (skipped : List Text) → Pairs R ts
      → states_of ts ≡ ok (states, skipped)
      → Pairs (λ a b. R a.target b.target) states
  target_states-Pairs R [] states skipped rs h =
      subst (Pairs (λ a b. R a.target b.target)) (no_states states skipped h) tt
  target_states-Pairs R (t ∷ ts) states skipped (r, rs) h =
      elim (target_states-Start t ts states skipped h) [
        | left_out k e rest ↦ target_states-Pairs R ts states k rs rest
        | joined anchor ss k e f g same ↦ rw same (
          target_states-All
              (λ b. R (target_state zoned now schedule day max_slots t anchor).target b.target)
              (R t) (λ u anchor' q n m. unfold target_state in q) ts ss k r g,
          target_states-Pairs R ts ss k rs g,
        )
      ]
