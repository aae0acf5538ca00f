-- ===== src/Execution/Begins.antt =====
-- What `start` does.
use afiliado_shopee.Prelude.{
  ℕ, Bool, true, false, Option, none, some, List, [], ◌∷◌, ◌++◌, ◌<◌, ◌≤◌, leb, arith, text_beq_iff,
  get_elem?, any, find, Text, text_eq, option_eq, ◌==◌, All, ◌≡◌, refl, sym, ◌∙◌, ap, Result, ok,
  err, if◌then◌else◌, Bool-cases, inl, inr, nat_beq_iff, or_false, schedule_revision_stale,
}
use mathlib.Core.Path.{subst}
use afiliado_shopee.Planner.Sorted.{All-weaken}
use afiliado_shopee.Execution.{
  Execution, is_started, is_falsy, the_active_key, stale_commercial_execution,
  owned_commercial_execution, not_reached,
}
use afiliado_shopee.Execution.Table.{Recovery, recovered, recover_stale, is_stale_id}
use afiliado_shopee.Execution.Start.{
  StartInput, new_execution, clashes, both_have, create, attempt, Attempt, start, StartOutcome,
  existing, created, start_conflict, existing_one, created_one, taken, stale_revision, or_found,
  stale_at, find_active, concurrent, existing_job, find_by_bull_mq_job_id, find_by_scheduler_job_id,
  has_bull_job,
}
use afiliado_shopee.Execution.Unique.{IsSound, KeyOk, holds, released, create-ok}
use afiliado_shopee.Execution.Kept.{recover_stale-Kept}
use afiliado_shopee.Execution.Added.{attempt-created}
use afiliado_shopee.Execution.Outcomes.{recover_stale-frees, recover_stale-table, All-update_many}

-- The values of the unique columns that are given are not in the table.
abbrev pub IsFresh : Text → StartInput → List Execution → Type 0
IsFresh id input es =
    All (λ x. ((id == x.id) ≡ false) × (both_have input.bull_mq_job_id x.bull_mq_job_id ≡ false)) es

abbrev pub NoneStarted : List Execution → Type 0
NoneStarted es = All (λ x. is_started x.status ≡ false) es

no_key :
    (x : Execution)
    → KeyOk x
    → is_started x.status ≡ false
    → both_have (some the_active_key) x.active_key ≡ false
no_key x (holds a b) over = cc
no_key x (released a b) over = rw b refl

none_clash :
    (id : Text) (input : StartInput) (es : List Execution)
    → All KeyOk es
    → NoneStarted es
    → IsFresh id input es
    → any (λ x. clashes (new_execution id input) x) es ≡ false
unfolding clashes new_execution
none_clash id input [] k n f = refl
none_clash id input (x ∷ es) (k, ks) (n, ns) ((a, b), fs) =
    rw (here', none_clash id input es ks ns fs) refl
  where
    here' : clashes (new_execution id input) x ≡ false
    here' = rw (a, b, no_key x k n, clashes) refl

no_job :
    (j : Text) (es : List Execution)
    → All (λ x. both_have (some j) x.bull_mq_job_id ≡ false) es
    → find (has_bull_job j) es ≡ none
no_job j [] h = refl
no_job j (x ∷ es) (h, hs) = rw h (no_job j es hs)

no_existing :
    (job : Option Text) (es : List Execution)
    → All (λ x. both_have job x.bull_mq_job_id ≡ false) es
    → existing_job job es ≡ none
unfolding find_by_bull_mq_job_id
no_existing none es h = refl
no_existing (some []) es h = refl
no_existing (some (c ∷ s)) es h = no_job (c ∷ s) es h

create-free :
    (e : Execution) (es : List Execution)
    → any (λ x. clashes e x) es ≡ false
    → create e es ≡ ok (es ++ (e ∷ []))
unfolding create
create-free e es h = simp (h) refl

attempt-free :
    (id : Text) (revision : ℕ) (input : StartInput) (es es' : List Execution)
    → input.expected_schedule_revision ≡ some revision
    → existing_job input.bull_mq_job_id es ≡ none
    → create (new_execution id input) es ≡ ok es'
    → attempt id revision input es ≡ created_one es'
unfolding attempt
attempt-free id revision input es es' current no_one made =
    simp (current, no_one, made, (nat_beq_iff revision revision).1 refl, attempt) refl

-- In a sound table where no execution is STARTED, a start for the stored revision of the schedule,
-- with an id and a job that the table does not have, creates the execution and adds its row.
pub start-creates :
    (id : Text) (revision : ℕ) (input : StartInput) (es : List Execution)
    → IsSound es
    → NoneStarted es
    → IsFresh id input es
    → input.expected_schedule_revision ≡ some revision
    → start id revision input es
      ≡ (ok (created (new_execution id input)), es ++ (new_execution id input ∷ []))
unfolding start
start-creates id revision input es sound none' fresh current =
    simp
      (
        attempt-free id revision input es (es ++ (new_execution id input ∷ [])) current
            (no_existing input.bull_mq_job_id es (All-weaken _ _ es (λ x f. f.1) fresh))
            (create-free (new_execution id input) es (none_clash id input es sound.1 none' fresh)),
        start,
      )
      refl

-- In a sound table, once the lease of the STARTED execution is over, a recovery and then a start,
-- for the stored revision of the schedule and with an id and a job that the table does not have,
-- create a new execution: an owner that is gone does not block the automation for ever.
pub recover_stale-start :
    (recovery : Recovery) (es : List Execution) (i : ℕ) (e : Execution) (id : Text) (revision : ℕ)
    (input : StartInput)
    → is_started recovery.status ≡ false
    → IsSound es
    → get_elem? es i ≡ some e
    → stale_commercial_execution recovery.completed_at e ≡ true
    → IsFresh id input es
    → input.expected_schedule_revision ≡ some revision
    → (start id revision input (recover_stale e.id recovery es).1).0
      ≡ ok (created (new_execution id input))
recover_stale-start recovery es i e id revision input final sound at stale fresh current =
    ap (λ r. r.0)
      (start-creates id revision input (recover_stale e.id recovery es).1
        (recover_stale-Kept e.id recovery final es sound).0
        (recover_stale-frees recovery final es sound i e at stale).1
        (subst (IsFresh id input) (sym (recover_stale-table recovery final es sound i e at stale)) (
          All-update_many _ (is_stale_id e.id recovery.completed_at) (recovered recovery) es
            (All-weaken _ _ es still fresh)))
        current)
  where
    still :
        (x : Execution)
        → ((id == x.id) ≡ false) × (both_have input.bull_mq_job_id x.bull_mq_job_id ≡ false)
        → (let y = if is_stale_id e.id recovery.completed_at x then recovered recovery x else x in
            ((id == y.id) ≡ false) × (both_have input.bull_mq_job_id y.bull_mq_job_id ≡ false))
    still x f = elim (Bool-cases (is_stale_id e.id recovery.completed_at x)) [
      | inl a ↦ rw a f
      | inr a ↦ rw a f
    ]

-- A start that creates is a `create`.
start-cases :
    (id : Text) (revision : ℕ) (input : StartInput) (es fs : List Execution) (e : Execution)
    → start id revision input es ≡ (ok (created e), fs)
    → (e ≡ new_execution id input) × (create (new_execution id input) es ≡ ok fs)
unfolding start start_conflict
start-cases id revision input es fs e h = go (attempt id revision input es) refl h
  where
    result_eq :
        {a b : StartOutcome} {xs ys : List Execution}
        → ◌≡◌ {A = Result StartOutcome × List Execution} (ok a, xs) (ok b, ys)
        → a ≡ b
    result_eq k = cc

    not_created : (o : Option Execution) (b : Bool) → or_found o (concurrent b) ≡ created e → ⊥
    not_created none b k = cc
    not_created (some x) b k = cc

    go :
        (a : Attempt)
        → attempt id revision input es ≡ a
        → (elim a as (λ x. Result StartOutcome × List Execution) [
          | existing_one x ↦ (ok (existing x), es)
          | created_one es' ↦ (ok (created (new_execution id input)), es')
          | taken ↦ (ok (start_conflict input es), es)
          | stale_revision ↦ (err schedule_revision_stale, es)
        ])
          ≡ (ok (created e), fs)
        → (e ≡ new_execution id input) × (create (new_execution id input) es ≡ ok fs)
    go (existing_one x) k l = cc
    go (created_one es') k l = (cc, attempt-created id revision input es es' k ∙ cc)
    go taken k l = absurd (
        not_created
          (if is_falsy input.bull_mq_job_id
            then find_by_scheduler_job_id input.scheduler_job_id es
            else existing_job input.bull_mq_job_id es)
          (stale_at (find_active es) input.started_at) (result_eq l))
    go stale_revision k l = cc

free_of_started :
    (id : Text) (input : StartInput) (es : List Execution)
    → any (λ x. clashes (new_execution id input) x) es ≡ false
    → All KeyOk es
    → NoneStarted es
unfolding clashes new_execution
free_of_started id input [] h k = tt
free_of_started id input (x ∷ es) h (k, ks) =
    let (here, rest) = or_false _ _ h in
    (over k (or_false _ _ (or_false _ _ here).1).1, free_of_started id input es rest ks)
  where
    over :
        KeyOk x → both_have (some the_active_key) x.active_key ≡ false → is_started x.status ≡ false
    over (holds a b) free =
        absurd (taken_key (subst (λ key. both_have (some the_active_key) key ≡ false) b free))
      where
        taken_key : both_have (some the_active_key) (some the_active_key) ≡ false → ⊥
        taken_key t = cc
    over (released a b) free = a

text_beq_refl : (t : Text) → (t == t) ≡ true
text_beq_refl t = (text_beq_iff t t).1 refl

leb-above : (m n : ℕ) → n < m → leb m n ≡ false
leb-above m n h = ground arith

leb-below : (m n : ℕ) → m ≤ n → leb m n ≡ true
leb-below m n h = ground arith

new-owned :
    (id : Text) (input : StartInput) (now : ℕ)
    → now < input.lease_expires_at
    → owned_commercial_execution
        (record { execution_id = id; owner_id = input.owner_id })
        now
        (new_execution id input)
      ≡ true
unfolding owned_commercial_execution new_execution
new-owned id input now before =
    rw (text_beq_refl id, text_beq_refl input.owner_id, leb-above input.lease_expires_at now before)
      refl

-- A start that creates an execution in a sound table finds no other STARTED, and adds one row at the
-- end: the execution that it returns, with the id, the job and the owner that it was given, the
-- active key and no external stage; its owner holds it at any instant before the lease's given end,
-- and its lease is over from that end on.
pub start-alone :
    (id : Text) (revision : ℕ) (input : StartInput) (es fs : List Execution) (e : Execution)
    (now later : ℕ)
    → IsSound es
    → start id revision input es ≡ (ok (created e), fs)
    → now < input.lease_expires_at
    → input.lease_expires_at ≤ later
    → NoneStarted es
      × (fs ≡ es ++ (e ∷ []))
      × (e.bull_mq_job_id ≡ input.bull_mq_job_id)
      × (e.active_key ≡ some the_active_key)
      × (e.external_stage ≡ not_reached)
      × (owned_commercial_execution (record { execution_id = id; owner_id = input.owner_id }) now e
          ≡ true)
      × (stale_commercial_execution later e ≡ true)
unfolding new_execution stale_commercial_execution
start-alone id revision input es fs e now later sound h before after =
    let (same, made) = start-cases id revision input es fs e h in
    let (free, table) = create-ok (new_execution id input) es fs made in
    (
      free_of_started id input es free sound.1,
      subst (λ x. fs ≡ es ++ (x ∷ [])) (sym same) table,
      ap (λ x. x.bull_mq_job_id) same,
      ap (λ x. x.active_key) same,
      ap (λ x. x.external_stage) same,
      rw same (new-owned id input now before),
      rw (same, leb-below input.lease_expires_at later after) refl,
    )
