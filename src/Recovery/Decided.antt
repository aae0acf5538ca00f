-- ===== src/Recovery/Decided.antt =====
-- What justifies a decision of the recovery.
use afiliado_shopee.Prelude.{
  Bool, true, false, ◌&&◌, not, Option, none, some, Text, text_eq, text_beq_iff, option_eq, ◌==◌,
  ltb, ◌≡◌, refl, sym, inl, inr, ◌⊎◌, arith, Result, ok, returned, if◌then◌else◌, and_true,
}
use mathlib.Core.Path.{subst}
use afiliado_shopee.Dispatch.Row.{DispatchStatus}
use afiliado_shopee.Run.{is_confirmed}
use afiliado_shopee.Publication.{OutboxStatus}
use afiliado_shopee.Execution.{is_falsy}
use afiliado_shopee.Recovery.{
  RecoveryContext, RecoveryRun, RecoveryDispatch, RecoveryOutbox, JobEvidence, Lookup, unavailable,
  answered, Decision, ambiguous_decision, abandoned_safe, dispatch_failed, queued_decision,
  dispatch_is, is_outbox_status, is_doubtful, is_sent, has_no_lifecycle,
  base_identities_are_consistent, job_has_expected_sticky_instance, job_matches, looked_up,
  decide_by_job, decide_by_lookup, classify_confirmed, classify_run, is_external, classify,
}

-- The evidence that a decision needs; a doubtful execution may always be called ambiguous.
pub data Justified (find_job : Text → Lookup) (context : RecoveryContext)
    (sticky_job : Option JobEvidence) : Decision → Type 0 where
  in_doubt : Justified find_job context sticky_job ambiguous_decision
  never_ran :
      is_falsy context.execution.commercial_run_id ≡ true
      → is_external context.execution.external_stage ≡ false
      → Justified find_job context sticky_job abandoned_safe
  never_sent :
      (r : RecoveryRun)
      → context.run ≡ some r
      → is_doubtful r ≡ false
      → is_sent r ≡ false
      → is_confirmed r.mode ≡ false
      → has_no_lifecycle r ≡ true
      → Justified find_job context sticky_job abandoned_safe
  not_sent :
      (r : RecoveryRun)
      → context.run ≡ some r
      → is_doubtful r ≡ false
      → is_sent r ≡ false
      → dispatch_is DispatchStatus.failed r.dispatch ≡ true
      → Justified find_job context sticky_job dispatch_failed
  was_sent :
      (r : RecoveryRun)
      → context.run ≡ some r
      → is_doubtful r ≡ false
      → is_sent r ≡ true
      → Justified find_job context sticky_job queued_decision
  is_enqueued :
      (r : RecoveryRun) (d : RecoveryDispatch) (o : RecoveryOutbox) (job : JobEvidence)
      → context.run ≡ some r
      → r.dispatch ≡ some d
      → r.outbox ≡ some o
      → is_doubtful r ≡ false
      → base_identities_are_consistent context.execution r d o ≡ true
      → ltb 0 d.attempt_count ≡ false
      → (sticky_job ≡ some job) ⊎ (find_job o.job_id ≡ answered (some job))
      → job.id ≡ o.job_id
      → job.dispatch_id ≡ o.dispatch_id
      → Justified find_job context sticky_job queued_decision

ok_inj : (a b : Decision) → ◌≡◌ {A = Result Decision} (ok a) (ok b) → a ≡ b
ok_inj a b h = cc

module _ (find_job : Text → Lookup) (context : RecoveryContext)
    (sticky_job : Option JobEvidence) where
  abbrev IsJustified : Decision → Type 0
  IsJustified = Justified find_job context sticky_job

  doubted :
      (d : Decision) → ◌≡◌ {A = Result Decision} (ok ambiguous_decision) (ok d) → IsJustified d
  doubted d h = subst IsJustified (ok_inj ambiguous_decision d h) in_doubt

  -- What a job that matches says.
  job_matches-true :
      (r : RecoveryRun) (o : RecoveryOutbox) (job : Option JobEvidence)
      → job_matches r o job ≡ ok true
      → (j : JobEvidence) × (job ≡ some j) × (j.id ≡ o.job_id) × (j.dispatch_id ≡ o.dispatch_id)
  unfolding job_matches
  job_matches-true r o none h = cc
  job_matches-true r o (some j) h =
      go ((j.id == o.job_id) && (j.dispatch_id == o.dispatch_id)) refl h
    where
      go :
          (b : Bool)
          → ((j.id == o.job_id) && (j.dispatch_id == o.dispatch_id)) ≡ b
          → (elim b as (λ x. Result Bool) [
            | false ↦ ok false
            | true ↦ job_has_expected_sticky_instance r j
          ])
            ≡ ok true
          → (k : JobEvidence) × (some j ≡ some k)
            × (k.id ≡ o.job_id)
            × (k.dispatch_id ≡ o.dispatch_id)
      go false e k = cc
      go true e k =
          let (a, b) = and_true _ _ e in
          (
            j,
            refl,
            (text_beq_iff j.id o.job_id).0 a,
            (text_beq_iff j.dispatch_id o.dispatch_id).0 b,
          )

  decide_by_job-ok :
      (o : RecoveryOutbox) (job : Option JobEvidence) (matches : Bool) (d : Decision)
      → decide_by_job o job matches ≡ ok d
      → (d ≡ ambiguous_decision) ⊎ ((matches ≡ true) × (d ≡ queued_decision))
  unfolding decide_by_job
  decide_by_job-ok o job matches d h = ground arith

  lookup_source :
      (s : Option JobEvidence) (l : Lookup) (job : JobEvidence)
      → looked_up s l ≡ answered (some job)
      → (s ≡ some job) ⊎ (l ≡ answered (some job))
  lookup_source none l job h = inr h
  lookup_source (some j) l job h = inl (cc)

  decide_by_lookup-ok :
      (r : RecoveryRun) (o : RecoveryOutbox) (l : Lookup) (dec : Decision)
      → decide_by_lookup r o l ≡ ok dec
      → (dec ≡ ambiguous_decision)
        ⊎ ((job : JobEvidence) × (l ≡ answered (some job))
            × (job.id ≡ o.job_id)
            × (job.dispatch_id ≡ o.dispatch_id)
            × (dec ≡ queued_decision))
  unfolding decide_by_lookup
  decide_by_lookup-ok r o unavailable dec h = inl (sym (ok_inj ambiguous_decision dec h))
  decide_by_lookup-ok r o (answered job) dec h =
      let (matches, first, then_) = returned (job_matches r o job) (decide_by_job o job) h in
      elim (decide_by_job-ok o job matches dec then_) [
        | inl doubt ↦ inl doubt
        | inr (yes_, same) ↦
            let (j, is_j, a, b) =
              job_matches-true r o job (subst (λ m. job_matches r o job ≡ ok m) yes_ first) in
            inr (j, subst (λ x. answered job ≡ answered x) is_j refl, a, b, same)
      ]

  doubt_ambiguous :
      (r : RecoveryRun) (dec : Decision)
      → is_doubtful r ≡ true
      → classify_run find_job sticky_job context.execution r ≡ ok dec
      → ◌≡◌ {A = Result Decision} (ok ambiguous_decision) (ok dec)
  unfolding classify_run
  doubt_ambiguous r dec e h = go (is_doubtful r) e _ h
    where
      go :
          (b : Bool)
          → b ≡ true
          → (rest : Result Decision) → (if b then ok ambiguous_decision else rest) ≡ ok dec
          → ◌≡◌ {A = Result Decision} (ok ambiguous_decision) (ok dec)
      go true x rest k = k
      go false x rest k = cc

  module _ (r : RecoveryRun) (run : context.run ≡ some r) (calm : is_doubtful r ≡ false) where
    confirmed-Justified :
        (od : Option RecoveryDispatch) (oo : Option RecoveryOutbox) (dec : Decision)
        → r.dispatch ≡ od
        → r.outbox ≡ oo
        → classify_confirmed find_job sticky_job context.execution r od oo ≡ ok dec
        → IsJustified dec
    unfolding classify_confirmed
    confirmed-Justified none oo dec e f h = doubted dec h
    confirmed-Justified (some d) none dec e f h = doubted dec h
    confirmed-Justified (some d) (some o) dec e f h =
        go (not (base_identities_are_consistent context.execution r d o)) refl
          (ltb 0 d.attempt_count) refl
          (is_outbox_status o.status OutboxStatus.published && not (r.job_id == some o.job_id)) h
      where
        found : Result Decision
        found = decide_by_lookup r o (looked_up sticky_job (find_job o.job_id))

        not_false : (b : Bool) → not b ≡ false → b ≡ true
        not_false true k = refl
        not_false false k = cc

        go :
            (a : Bool)
            → not (base_identities_are_consistent context.execution r d o) ≡ a
            → (b : Bool) → ltb 0 d.attempt_count ≡ b
            → (c : Bool)
            → (if a
                then ok ambiguous_decision
                else if b
                then ok ambiguous_decision
                else if c
                then ok ambiguous_decision
                else found)
              ≡ ok dec
            → IsJustified dec
        go true x b y c k = doubted dec k
        go false x true y c k = doubted dec k
        go false x false y true k = doubted dec k
        go false x false y false k =
            elim (decide_by_lookup-ok r o (looked_up sticky_job (find_job o.job_id)) dec k) [
              | inl doubt ↦ subst IsJustified (sym doubt) in_doubt
              | inr (job, l, m, n, same) ↦ subst IsJustified (sym same) (
                  is_enqueued r d o job run e f calm (not_false _ x) y
                    (lookup_source sticky_job (find_job o.job_id) job l) m n)
            ]

    classify_run-Justified :
        (dec : Decision)
        → classify_run find_job sticky_job context.execution r ≡ ok dec
        → IsJustified dec
    unfolding classify_run
    classify_run-Justified dec h =
        go (is_doubtful r) calm (is_sent r) refl (dispatch_is DispatchStatus.failed r.dispatch) refl
          (is_confirmed r.mode) refl (has_no_lifecycle r) refl h
      where
        go :
            (a : Bool)
            → a ≡ false
            → (b : Bool) → is_sent r ≡ b
            → (c : Bool) → dispatch_is DispatchStatus.failed r.dispatch ≡ c
            → (m : Bool) → is_confirmed r.mode ≡ m
            → (n : Bool) → has_no_lifecycle r ≡ n
            → (if a
                then ok ambiguous_decision
                else if b
                then ok queued_decision
                else if c
                then ok dispatch_failed
                else if not m
                then ok (if n then abandoned_safe else ambiguous_decision)
                else classify_confirmed find_job sticky_job context.execution r r.dispatch r.outbox)
              ≡ ok dec
            → IsJustified dec
        go true v b w c x m y n z k = cc
        go false v true w c x m y n z k =
            subst IsJustified (ok_inj queued_decision dec k) (was_sent r run calm w)
        go false v false w true x m y n z k =
            subst IsJustified (ok_inj dispatch_failed dec k) (not_sent r run calm w x)
        go false v false w false x false y true z k =
            subst IsJustified (ok_inj abandoned_safe dec k) (never_sent r run calm w y z)
        go false v false w false x false y false z k = doubted dec k
        go false v false w false x true y n z k =
            confirmed-Justified r.dispatch r.outbox dec refl refl k

  -- For whatever the queue answers, a decision of the recovery has its evidence. It is FAILED as safe
  -- only where no run was made and the external stage was not marked, or where the run is a dry one
  -- without dispatch, job or outbox; FAILED by the dispatch only where the dispatch failed; QUEUED
  -- only where the run or the dispatch says that it was sent, or where the job of the outbox was
  -- found for the very dispatch, the identities agree and nothing was attempted. None of these is
  -- chosen where the run is doubtful; anything else is AMBIGUOUS.
  pub classify-Justified :
      (dec : Decision)
      → classify find_job context sticky_job ≡ ok dec
      → Justified find_job context sticky_job dec
  unfolding classify
  classify-Justified dec h =
      go (is_falsy context.execution.commercial_run_id) refl
        (is_external context.execution.external_stage) refl context.run refl h
    where
      by_doubt :
          (r : RecoveryRun)
          → context.run ≡ some r
          → (b : Bool) → is_doubtful r ≡ b
          → classify_run find_job sticky_job context.execution r ≡ ok dec
          → IsJustified dec
      by_doubt r run true f k = doubted dec (doubt_ambiguous r dec f k)
      by_doubt r run false f k = classify_run-Justified r run f dec k

      go :
          (a : Bool)
          → is_falsy context.execution.commercial_run_id ≡ a
          → (b : Bool) → is_external context.execution.external_stage ≡ b
          → (o : Option RecoveryRun) → context.run ≡ o
          → (elim a as (λ x. Result Decision) [
            | true ↦ ok (if b then ambiguous_decision else abandoned_safe)
            | false ↦ elim o as (λ x. Result Decision) [
              | none ↦ ok ambiguous_decision
              | some r ↦ classify_run find_job sticky_job context.execution r
            ]
          ])
            ≡ ok dec
          → IsJustified dec
      go true e true f o g k = doubted dec k
      go true e false f o g k = subst IsJustified (ok_inj abandoned_safe dec k) (never_ran e f)
      go false e b f none g k = doubted dec k
      go false e b f (some r) g k = by_doubt r g (is_doubtful r) refl k
