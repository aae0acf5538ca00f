-- ===== src/Execution/Outcomes.antt =====
-- What the calls return: a lease that was lost, and an execution that is recovered.
use afiliado_shopee.Prelude.{
  ℕ, zero, suc, Bool, true, false, some, List, [], ◌∷◌, get_elem?, Text, text_eq, option_eq, ◌==◌,
  All, ◌≡◌, ◌≢◌, refl, sym, ◌∙◌, ap, ok, err, if◌then◌else◌, Bool-cases, inl, inr, text_beq_iff,
  execution_ownership_lost, and_true,
}
use mathlib.Core.Path.{subst}
use afiliado_shopee.Planner.Sorted.{Pairs, All-weaken}
use afiliado_shopee.Execution.{
  Execution, Ownership, is_started, owned_commercial_execution, stale_commercial_execution,
}
use afiliado_shopee.Execution.Table.{
  update_many, then_find, heartbeat, with_lease, mark_external_may_have_started, marked_external,
  Finish, finish, finished, Recovery, recovered, is_stale_id, recover_stale,
}
use afiliado_shopee.Execution.Unique.{IsSound, NotBothStarted, IsSound-one_started}
use afiliado_shopee.Execution.Machine.{Moves-ended}
use afiliado_shopee.Execution.Steps.{Reach, Reach-Kept}
use afiliado_shopee.Execution.Rows.{
  All-of_row, AllLater-lookup, guarded-miss, guarded-hit, find_execution-hit, All-lookup, some_inj,
}

-- No execution with the id is started.
abbrev pub IsOver : Text → List Execution → Type 0
IsOver id es = All (λ x. x.id ≡ id → is_started x.status ≡ false) es

pub Reach-IsOver :
    (es fs : List Execution) (i : ℕ) (e : Execution)
    → IsSound es
    → get_elem? es i ≡ some e
    → is_started e.status ≡ false
    → Reach es fs
    → IsOver e.id fs
Reach-IsOver es fs i e sound at over r =
    let (sound', later) = Reach-Kept r sound in
    let (e', at', moved) = AllLater-lookup es fs i e later at in
    let over' = Moves-ended e.status e'.status moved.moves over in
    All-of_row (λ x. x.id ≡ e.id → is_started x.status ≡ false) e' fs i at' sound'.0 (λ same. over')
      (others e' fs moved.same_id)
  where
    others :
        (e' : Execution) (fs : List Execution)
        → e'.id ≡ e.id
        → All (λ x. x.id ≢ e'.id → x.id ≡ e.id → is_started x.status ≡ false) fs
    others e' [] same = tt
    others e' (x ∷ fs) same = ((λ other is_e. absurd (other (is_e ∙ sym same))), others e' fs same)

not_owned :
    (o : Ownership) (at : ℕ) (x : Execution)
    → (x.id ≡ o.execution_id → is_started x.status ≡ false)
    → owned_commercial_execution o at x ≡ false
unfolding owned_commercial_execution
not_owned o at x over = elim (Bool-cases (x.id == o.execution_id)) [
  | inl same ↦ rw (same, over ((text_beq_iff x.id o.execution_id).0 same)) refl
  | inr other ↦ rw other refl
]

-- Once an execution is not STARTED, whatever writes are made after it by the calls of the repository and
-- by the transactions over several tables, no owner renews its lease, marks its external stage or
-- finishes it again: each of these calls fails with the ownership lost, and changes no row.
pub Reach-fenced :
    (es fs : List Execution) (i : ℕ) (e : Execution)
    → IsSound es
    → get_elem? es i ≡ some e
    → is_started e.status ≡ false
    → Reach es fs
    → (o : Ownership) → o.execution_id ≡ e.id
    → (at expires : ℕ) (input : Finish)
    → (heartbeat o at expires fs ≡ (err execution_ownership_lost, fs))
      × (mark_external_may_have_started o at fs ≡ (err execution_ownership_lost, fs))
      × (finish o input fs ≡ (err execution_ownership_lost, fs))
unfolding heartbeat mark_external_may_have_started finish then_find
Reach-fenced es fs i e sound at_i over r o its at expires input =
    let is_over : IsOver o.execution_id fs =
      subst (λ id. IsOver id fs) (sym its) (Reach-IsOver es fs i e sound at_i over r) in
    (
      guarded-miss _ (with_lease at expires) fs (missed is_over at),
      rw (guarded-miss (owned_commercial_execution o at) marked_external fs (missed is_over at))
          refl,
      rw
          (guarded-miss (owned_commercial_execution o input.completed_at) (finished input) fs
            (missed is_over input.completed_at))
          refl,
    )
  where
    missed :
        IsOver o.execution_id fs
        → (now : ℕ) → All (λ x. owned_commercial_execution o now x ≡ false) fs
    missed is_over now =
        All-weaken _ (λ x. owned_commercial_execution o now x ≡ false) fs (not_owned o now) is_over

-- A row with another id is not hit.
stale_own : (id : Text) (at : ℕ) (x : Execution) → x.id ≢ id → is_stale_id id at x ≡ false
stale_own id at x other = elim (Bool-cases (x.id == id)) [
  | inl same ↦ absurd (other ((text_beq_iff x.id id).0 same))
  | inr differs ↦ rw differs refl
]

bool_false : (b : Bool) → (b ≡ true → ⊥) → b ≡ false
bool_false true h = absurd (h refl)
bool_false false h = refl

-- Where one execution is started, the others are not.
others_ended :
    (e : Execution) (es : List Execution) (i : ℕ)
    → is_started e.status ≡ true
    → get_elem? es i ≡ some e
    → Pairs NotBothStarted es
    → All (λ x. x.id ≢ e.id → is_started x.status ≡ false) es
others_ended e [] i begun at n = tt
others_ended e (x ∷ es) zero begun at (n, ns) =
    let same : x ≡ e = some_inj x e at in
    (
      (λ other. absurd (other (ap (λ y. y.id) same))),
      All-weaken (NotBothStarted x) _ es
          (λ y apart other.
            bool_false _ (apart (subst (λ z. is_started z.status ≡ true) (sym same) begun)))
          n,
    )
others_ended e (x ∷ es) (suc i) begun at (n, ns) = (
  (λ other. bool_false _ (λ h. All-lookup (NotBothStarted x) es i e n at h begun)),
  others_ended e es i begun at ns,
)

pub All-update_many :
    (P : Execution → Type 0) (p : Execution → Bool) (f : Execution → Execution)
    (es : List Execution)
    → All (λ x. P (if p x then f x else x)) es
    → All P (update_many p f es)
All-update_many P p f [] h = tt
All-update_many P p f (x ∷ es) (h, hs) = (h, All-update_many P p f es hs)

module _ (input : Recovery) (final : is_started input.status ≡ false) (es : List Execution)
    (sound : IsSound es) (i : ℕ) (e : Execution) (at : get_elem? es i ≡ some e)
    (stale : stale_commercial_execution input.completed_at e ≡ true) where
  test : Execution → Bool
  test = is_stale_id e.id input.completed_at

  hit : test e ≡ true
  unfolding test
  hit = rw ((text_beq_iff e.id e.id).1 refl) stale

  begun : is_started e.status ≡ true
  unfolding stale_commercial_execution
  begun = (and_true _ _ stale).0

  none_started : All (λ x. is_started x.status ≡ false) (update_many test (recovered input) es)
  unfolding test
  none_started =
      All-update_many (λ x. is_started x.status ≡ false) test (recovered input) es
        (All-of_row (λ x. is_started (if test x then recovered input x else x).status ≡ false) e es
          i at sound.0 (rw hit final)
          (All-weaken (λ x. x.id ≢ e.id → is_started x.status ≡ false) _ es
            (λ x over other. rw (stale_own e.id input.completed_at x other) (over other))
            (others_ended e es i begun at (IsSound-one_started es sound))))

  -- In a sound table, an execution whose lease is over is recovered: the call returns its row with
  -- the status asked for, and no execution is STARTED after it.
  pub recover_stale-frees :
      (recover_stale e.id input es).0 ≡ ok (recovered input e)
      × All (λ x. is_started x.status ≡ false) (recover_stale e.id input es).1
  unfolding recover_stale test
  recover_stale-frees =
      rw
        (guarded-hit test (recovered input) e hit (stale_own e.id input.completed_at) refl es i at
          sound.0)
        (
          find_execution-hit test (recovered input) e hit (stale_own e.id input.completed_at) refl
              es i at sound.0,
          none_started,
        )

  pub recover_stale-table :
      (recover_stale e.id input es).1
      ≡ update_many (is_stale_id e.id input.completed_at) (recovered input) es
  unfolding recover_stale test
  recover_stale-table =
      rw
        (guarded-hit test (recovered input) e hit (stale_own e.id input.completed_at) refl es i at
          sound.0)
        refl
