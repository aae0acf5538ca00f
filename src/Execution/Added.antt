-- ===== src/Execution/Added.antt =====
-- `start` and `createBlocked` keep the table sound and every row later than it was.
use afiliado_shopee.Prelude.{
  ℕ, Bool, true, false, Option, none, some, List, [], ◌∷◌, Text, text_eq, option_eq, ◌≡◌, refl, sym,
  Result, ok, err, nat_beq, schedule_revision_stale,
}
use mathlib.Core.Path.{subst}
use afiliado_shopee.Execution.{Execution, is_falsy}
use afiliado_shopee.Execution.Start.{
  StartInput, BlockedInput, new_execution, blocked_execution, create, attempt, start,
  create_blocked, existing_one, created_one, taken, stale_revision, Attempt, StartOutcome, existing,
  created, start_conflict, or_throw, or_create, of_create, if_current, existing_job,
  find_by_scheduler_job_id,
}
use afiliado_shopee.Execution.Unique.{KeyOk, holds, released, IsSound, create-IsSound, create-ok}
use afiliado_shopee.Execution.Machine.{AllLater, AllLater-refl, AllLater-append}
use afiliado_shopee.Execution.Kept.{Kept}

create-Kept :
    (e : Execution) (es es' : List Execution)
    → KeyOk e
    → create e es ≡ ok es'
    → IsSound es
    → Kept es es'
create-Kept e es es' k h s = (
  create-IsSound e es es' k h s,
  subst (AllLater es) (sym (create-ok e es es' h).1) (AllLater-append es (e ∷ [])),
)

or_create-created :
    (o : Option Execution) (a : Attempt) (es : List Execution)
    → or_create o a ≡ created_one es
    → a ≡ created_one es
or_create-created none a es h = h
or_create-created (some e) a es h = cc

if_current-created :
    (b : Bool) (a : Attempt) (es : List Execution)
    → if_current b a ≡ created_one es
    → a ≡ created_one es
if_current-created true a es h = h
if_current-created false a es h = cc

of_create-created :
    (r : Result (List Execution)) (es : List Execution) → of_create r ≡ created_one es → r ≡ ok es
of_create-created (ok fs) es h = cc
of_create-created (err c) es h = cc

-- An attempt that adds a row is a `create`.
pub attempt-created :
    (id : Text) (revision : ℕ) (input : StartInput) (es es' : List Execution)
    → attempt id revision input es ≡ created_one es'
    → create (new_execution id input) es ≡ ok es'
unfolding attempt
attempt-created id revision input es es' =
    go input.expected_schedule_revision (is_falsy input.bull_mq_job_id)
  where
    made : Attempt
    made = of_create (create (new_execution id input) es)

    go :
        (expected : Option ℕ) (no_job : Bool)
        → (elim expected as (λ x. Attempt) [
          | none ↦ elim no_job as (λ x. Attempt) [
            | true ↦ or_create (find_by_scheduler_job_id input.scheduler_job_id es) made
            | false ↦ made
          ]
          | some n ↦
              or_create
                (existing_job input.bull_mq_job_id es)
                (if_current (nat_beq revision n) made)
        ])
          ≡ created_one es'
        → create (new_execution id input) es ≡ ok es'
    go none true h = of_create-created _ es' (or_create-created _ made es' h)
    go none false h = of_create-created _ es' h
    go (some n) _ h =
        of_create-created _ es' (if_current-created _ made es' (or_create-created _ _ es' h))

pub start-Kept :
    (id : Text) (revision : ℕ) (input : StartInput) (es : List Execution)
    → IsSound es
    → Kept es (start id revision input es).1
unfolding start new_execution
start-Kept id revision input es s = go (attempt id revision input es) refl
  where
    new_key : KeyOk (new_execution id input)
    new_key = holds refl refl

    go :
        (a : Attempt)
        → attempt id revision input es ≡ a
        → Kept es
            (elim a as (λ x. Result StartOutcome × List Execution) [
              | existing_one e ↦ (ok (existing e), es)
              | created_one es' ↦ (ok (created (new_execution id input)), es')
              | taken ↦ (ok (start_conflict input es), es)
              | stale_revision ↦ (err schedule_revision_stale, es)
            ]).1
    go (existing_one e) h = (s, AllLater-refl es)
    go (created_one es') h =
        create-Kept (new_execution id input) es es' new_key
          (attempt-created id revision input es es' h) s
    go taken h = (s, AllLater-refl es)
    go stale_revision h = (s, AllLater-refl es)

pub create_blocked-Kept :
    (id : Text) (input : BlockedInput) (es : List Execution)
    → IsSound es
    → Kept es (create_blocked id input es).1
unfolding create_blocked blocked_execution
create_blocked-Kept id input es s = go (create (blocked_execution id input) es) refl
  where
    blocked_key : KeyOk (blocked_execution id input)
    blocked_key = released refl refl

    go :
        (r : Result (List Execution))
        → create (blocked_execution id input) es ≡ r
        → Kept es
            (elim r as (λ x. Result Execution × List Execution) [
              | ok es' ↦ (ok (blocked_execution id input), es')
              | err c ↦ (or_throw (existing_job input.bull_mq_job_id es), es)
            ]).1
    go (ok es') h = create-Kept (blocked_execution id input) es es' blocked_key h s
    go (err c) h = (s, AllLater-refl es)
