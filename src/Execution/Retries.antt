-- ===== src/Execution/Retries.antt =====
-- A start for a job that was started before.
use afiliado_shopee.Prelude.{
  ℕ, zero, suc, Bool, true, ◌||◌, none, some, List, [], ◌∷◌, get_elem?, any, find, Text, text_eq,
  option_eq, ◌==◌, ◌≡◌, refl, sym, ◌∙◌, ap, Result, ok, err, Bool-cases, inl, inr, arith,
  option_beq_iff, Option-cases, unique_violation, schedule_revision_stale,
}
use mathlib.Core.Path.{subst}
use afiliado_shopee.Execution.{Execution}
use afiliado_shopee.Execution.Start.{
  StartInput, new_execution, clashes, both_have, create, attempt, Attempt, start, StartOutcome,
  existing, created, start_conflict, existing_one, created_one, taken, stale_revision, of_create,
  find_by_bull_mq_job_id, has_bull_job,
}
use afiliado_shopee.Execution.Rows.{some_inj}

find-some :
    (p : Execution → Bool) (es : List Execution) (i : ℕ) (e : Execution)
    → get_elem? es i ≡ some e
    → p e ≡ true
    → (x : Execution) × (find p es ≡ some x) × (p x ≡ true)
find-some p [] i e at h = cc
find-some p (y ∷ es) zero e at h =
    let this : p y ≡ true = ap p (some_inj y e at) ∙ h in (y, rw this refl, this)
find-some p (y ∷ es) (suc i) e at h = elim (Bool-cases (p y)) [
  | inl this ↦ (y, rw this refl, this)
  | inr other ↦ let (x, f, g) = find-some p es i e at h in (x, rw other f, g)
]

any-some :
    (p : Execution → Bool) (es : List Execution) (i : ℕ) (e : Execution)
    → get_elem? es i ≡ some e
    → p e ≡ true
    → any p es ≡ true
any-some p [] i e at h = cc
any-some p (y ∷ es) zero e at h = let this : p y ≡ true = ap p (some_inj y e at) ∙ h in rw this refl
any-some p (y ∷ es) (suc i) e at h = rw (any-some p es i e at h) (ground arith)

or_true : (a b c : Bool) → b ≡ true → (a || (b || c)) ≡ true
or_true a b c h = ground arith

create-taken :
    (e : Execution) (es : List Execution)
    → any (λ x. clashes e x) es ≡ true
    → create e es ≡ err unique_violation
unfolding create
create-taken e es h = simp (h) refl

job_clash :
    (id : Text) (input : StartInput) (e : Execution) (j : Text)
    → input.bull_mq_job_id ≡ some j
    → has_bull_job j e ≡ true
    → clashes (new_execution id input) e ≡ true
unfolding clashes new_execution
job_clash id input e j job its =
    or_true (id == e.id) _ _ (subst (λ b. both_have b e.bull_mq_job_id ≡ true) (sym job) its)

retried :
    (id : Text) (revision : ℕ) (input : StartInput) (es : List Execution) (i : ℕ) (e x : Execution)
    (c : ℕ) (s : Text)
    → input.bull_mq_job_id ≡ some (c ∷ s)
    → get_elem? es i ≡ some e
    → has_bull_job (c ∷ s) e ≡ true
    → find (has_bull_job (c ∷ s)) es ≡ some x
    → start id revision input es ≡ (ok (existing x), es)
unfolding start attempt start_conflict find_by_bull_mq_job_id
retried id revision input es i e x c s job at its found =
    elim (Option-cases input.expected_schedule_revision) [
      | inl nothing ↦
          ap ending (attempt_of nothing ∙ ap of_create collides) ∙ ap (λ o. (ok o, es)) (conflict)
      | inr (n, expected) ↦ simp (expected, job, found, attempt, start) refl
    ]
  where
    ending : Attempt → Result StartOutcome × List Execution
    ending a = elim a [
      | existing_one y ↦ (ok (existing y), es)
      | created_one es' ↦ (ok (created (new_execution id input)), es')
      | taken ↦ (ok (start_conflict input es), es)
      | stale_revision ↦ (err schedule_revision_stale, es)
    ]

    attempt_of :
        input.expected_schedule_revision ≡ none
        → attempt id revision input es ≡ of_create (create (new_execution id input) es)
    attempt_of nothing = simp (nothing, job, attempt) refl

    conflict : start_conflict input es ≡ existing x
    conflict = simp (job, found, start_conflict) refl

    collides : create (new_execution id input) es ≡ err unique_violation
    collides = create-taken (new_execution id input) es (
        any-some (λ y. clashes (new_execution id input) y) es i e at
          (job_clash id input e (c ∷ s) job its))

-- A start for a job that some execution of the table has, for whatever owner and revision of the
-- schedule, returns an execution of that job and changes no row.
pub start-retry :
    (id : Text) (revision : ℕ) (input : StartInput) (es : List Execution) (i : ℕ) (e : Execution)
    (c : ℕ) (s : Text)
    → input.bull_mq_job_id ≡ some (c ∷ s)
    → get_elem? es i ≡ some e
    → e.bull_mq_job_id ≡ some (c ∷ s)
    → (x : Execution) × (start id revision input es ≡ (ok (existing x), es))
      × (x.bull_mq_job_id ≡ some (c ∷ s))
start-retry id revision input es i e c s job at its =
    let has_its : has_bull_job (c ∷ s) e ≡ true =
      (option_beq_iff text_eq e.bull_mq_job_id (some (c ∷ s))).1 its in
    let (x, found, has) = find-some (has_bull_job (c ∷ s)) es i e at has_its in
    (
      x,
      retried id revision input es i e x c s job at has_its found,
      (option_beq_iff text_eq x.bull_mq_job_id (some (c ∷ s))).0 has,
    )
