-- ===== src/Recovery/Identity.antt =====
-- `validateStickyIdentity` of the recovery, and the recovery by evidence that it begins.
use afiliado_shopee.Prelude.{
  ℕ, Bool, true, false, ◌&&◌, not, Option, none, some, List, [], ◌∷◌, Text, text_eq, option_eq,
  ◌==◌, Nullish, undefined, null, value, or_null, ◌≡◌, refl, Result, ok, err, ◌>>=◌, if◌then◌else◌,
  instance_lifecycle_mismatch,
}
use mathlib.Core.Path.{ap, subst}
use afiliado_shopee.Run.{is_confirmed}
use afiliado_shopee.Publication.{OutboxStatus}
use afiliado_shopee.Instance.{
  StickyIdentity, agree_on, compared_values, lifecycle_values, StickyOptions, Directory,
  assert_commercial_sticky_identity, assert_active_commercial_instance,
}
use afiliado_shopee.Execution.{Execution, is_falsy}
use afiliado_shopee.Execution.Table.{recover_stale}
use afiliado_shopee.Recovery.{
  RecoveryContext, RecoveryRun, RecoveryDispatch, RecoveryOutbox, JobEvidence, Lookup, unavailable,
  answered, Decision, has_no_lifecycle, outbox_is, identity_of, missing_job_allowed, classify,
}

abbrev pub no_options : StickyOptions
no_options = record { allow_legacy_full_null = none; allow_missing_job = none }

-- The name of the job, undefined where there is none.
abbrev job_name : Option JobEvidence → Nullish Text
job_name none = undefined
job_name (some job) = job.instance_name

abbrev other_name : Option JobEvidence → Text → Bool
other_name none name = false
other_name (some job) name = not (or_null job.instance_name == some name)

-- The job of an outbox that is PENDING, against the identity.
abbrev pub check_pending_job : Text → Lookup → Result (Option JobEvidence)
check_pending_job name unavailable = err instance_lifecycle_mismatch
check_pending_job name (answered job) =
    if other_name job name then err instance_lifecycle_mismatch else ok none

abbrev pub pending_identity : Option Text → Lookup → Result (Option JobEvidence)
pending_identity none found = ok none
pending_identity (some []) found = ok none
pending_identity (some (c ∷ s)) found = check_pending_job (c ∷ s) found

abbrev is_job_of : RecoveryOutbox → Text → JobEvidence → Bool
is_job_of o name job =
    (job.id == o.job_id)
    && ((job.dispatch_id == o.dispatch_id) && (or_null job.instance_name == some name))

abbrev checked_job : RecoveryOutbox → Text → Option JobEvidence → Result (Option JobEvidence)
checked_job o name none = err instance_lifecycle_mismatch
checked_job o name (some job) =
    if is_job_of o name job then ok (some job) else err instance_lifecycle_mismatch

abbrev pub active_identity :
    Option Directory
    → RecoveryOutbox
    → Option JobEvidence
    → Option Text
    → Result (Option JobEvidence)
active_identity instances o job none = ok none
active_identity instances o job (some []) = ok none
active_identity instances o job (some (c ∷ s)) =
    assert_active_commercial_instance instances (c ∷ s) >>= λ active. checked_job o (c ∷ s) job

abbrev pub check_job :
    Option Directory → RecoveryRun → RecoveryOutbox → Lookup → Result (Option JobEvidence)
check_job instances r o unavailable = err instance_lifecycle_mismatch
check_job instances r o (answered job) =
    assert_commercial_sticky_identity (identity_of r (job_name job)) no_options
    >>= active_identity instances o job

abbrev pub persisted_identity :
    Option Directory
    → (Text → Lookup)
    → RecoveryRun
    → Option RecoveryDispatch
    → Option RecoveryOutbox
    → Option Text
    → Result (Option JobEvidence)
persisted_identity instances find_job r od oo none = ok none
persisted_identity instances find_job r (some d) (some o) (some name) =
    if is_falsy r.job_id
    then err instance_lifecycle_mismatch
    else check_job instances r o (find_job o.job_id)
persisted_identity instances find_job r _ _ (some name) = err instance_lifecycle_mismatch

-- A run whose outbox is PENDING and has no job yet.
abbrev pub pending_outbox : RecoveryRun → Option RecoveryOutbox
pending_outbox r =
    if outbox_is OutboxStatus.pending r.outbox && is_falsy r.job_id then r.outbox else none

unfoldable pub validate_run_identity :
    Option Directory → (Text → Lookup) → RecoveryRun → Result (Option JobEvidence)
validate_run_identity instances find_job r =
    elim (not (is_confirmed r.mode) && has_no_lifecycle r) [
      | true ↦ ok none
      | false ↦ elim (pending_outbox r) [
        | some o ↦
            assert_commercial_sticky_identity (identity_of r undefined) missing_job_allowed
            >>= λ identity. pending_identity identity (find_job o.job_id)
        | none ↦
            assert_commercial_sticky_identity (identity_of r undefined) no_options
            >>= persisted_identity instances find_job r r.dispatch r.outbox
      ]
    ]

unfoldable pub validate_sticky_identity :
    Option Directory → (Text → Lookup) → RecoveryContext → Result (Option JobEvidence)
unfolding validate_run_identity
validate_sticky_identity instances find_job context = elim context.run [
  | none ↦ ok none
  | some r ↦ validate_run_identity instances find_job r
]

-- The end of `recover`: the write follows the decision. The queue is asked for the job twice.
abbrev write_decision :
    ℕ → Text → List Execution → Result Decision → Result Execution × List Execution
write_decision now id es (err c) = (err c, es)
write_decision now id es (ok d) =
    recover_stale id
      (record { status = d.status; failure_code = d.failure_code; completed_at = now }) es

unfoldable pub recover_by_evidence :
    Option Directory
    → (Text → Lookup)
    → (Text → Lookup)
    → ℕ
    → RecoveryContext
    → List Execution
    → Result Execution × List Execution
unfolding validate_sticky_identity
recover_by_evidence instances find_first find_later now context es =
    write_decision now context.execution.id es (
      validate_sticky_identity instances find_first context >>= λ job.
      classify find_later context job)

-- Three names and the missing name of the job.
abbrev mixed : Text → Nullish Text → StickyIdentity
mixed name legacy = record {
  run_instance_name = value name;
  dispatch_instance_name = value name;
  outbox_instance_name = value name;
  job_instance_name = undefined;
  destination_assigned_instance_name = legacy;
  destination_assigned_instance_names = none;
}

mixed_refused :
    (name : Text) (legacy : Nullish Text)
    → assert_commercial_sticky_identity (mixed name legacy) no_options
      ≡ err instance_lifecycle_mismatch
unfolding assert_commercial_sticky_identity compared_values lifecycle_values agree_on
mixed_refused name undefined = refl
mixed_refused name null = refl
mixed_refused name (value t) = refl

legacy_identity :
    (r : RecoveryRun) (d : RecoveryDispatch) (o : RecoveryOutbox) (name : Text)
    → r.dispatch ≡ some d
    → r.outbox ≡ some o
    → d.destination_assigned_instance_names ≡ none
    → r.instance_name ≡ some name
    → d.instance_name ≡ some name
    → o.instance_name ≡ some name
    → assert_commercial_sticky_identity (identity_of r undefined) no_options
      ≡ err instance_lifecycle_mismatch
unfolding identity_of
legacy_identity r d o name dispatch outbox unordered a b c =
    simp (dispatch, outbox, unordered, a, b, c, identity_of)
      (mixed_refused name d.destination_assigned_instance_name)

-- Where the destination has no ordered list of instances, the recovery of a confirmed run whose run,
-- dispatch and outbox name one instance, and whose outbox is not PENDING, throws an error whatever
-- the queue answers and however well the job matches, and changes no row: its first test of the
-- identity counts the job, which it has not looked up yet, as a missing name.
pub recover_by_evidence-legacy :
    (instances : Option Directory) (find_first find_later : Text → Lookup) (now : ℕ)
    (context : RecoveryContext) (es : List Execution) (r : RecoveryRun) (d : RecoveryDispatch)
    (o : RecoveryOutbox) (name : Text)
    → context.run ≡ some r
    → is_confirmed r.mode ≡ true
    → r.dispatch ≡ some d
    → r.outbox ≡ some o
    → outbox_is OutboxStatus.pending r.outbox ≡ false
    → d.destination_assigned_instance_names ≡ none
    → r.instance_name ≡ some name
    → d.instance_name ≡ some name
    → o.instance_name ≡ some name
    → recover_by_evidence instances find_first find_later now context es
      ≡ (err instance_lifecycle_mismatch, es)
unfolding recover_by_evidence validate_sticky_identity validate_run_identity
recover_by_evidence-legacy instances find_first find_later now context es r d o name run mode
      dispatch outbox settled unordered a b c =
    ap (write_decision now context.execution.id es)
      (ap (λ v. v >>= classify find_later context) validated)
  where
    no_pending : (b : Bool) → b ≡ false → (if b && is_falsy r.job_id then r.outbox else none) ≡ none
    no_pending true e = cc
    no_pending false e = refl

    bad :
        assert_commercial_sticky_identity (identity_of r undefined) no_options
        ≡ err instance_lifecycle_mismatch
    bad = legacy_identity r d o name dispatch outbox unordered a b c

    next : Result (Option Text) → Result (Option JobEvidence)
    next v = v >>= persisted_identity instances find_first r r.dispatch r.outbox

    go :
        (m : Bool)
        → m ≡ true
        → (p : Option RecoveryOutbox) → p ≡ none
        → (v : Result (Option Text)) → v ≡ err instance_lifecycle_mismatch
        → (elim (not m && has_no_lifecycle r) as (λ x. Result (Option JobEvidence)) [
          | true ↦ ok none
          | false ↦ elim p as (λ x. Result (Option JobEvidence)) [
            | some out ↦
                assert_commercial_sticky_identity (identity_of r undefined) missing_job_allowed
                >>= λ identity. pending_identity identity (find_first out.job_id)
            | none ↦ next v
          ]
        ])
          ≡ err instance_lifecycle_mismatch
    go false e p f v g = cc
    go true e (some out) f v g = cc
    go true e none f v g = ap next g

    refused : validate_run_identity instances find_first r ≡ err instance_lifecycle_mismatch
    refused =
        go (is_confirmed r.mode) mode (pending_outbox r)
          (no_pending (outbox_is OutboxStatus.pending r.outbox) settled) _ bad

    validated :
        validate_sticky_identity instances find_first context ≡ err instance_lifecycle_mismatch
    validated = of_run context.run run
      where
        of_run :
            (m : Option RecoveryRun)
            → m ≡ some r
            → (elim m as (λ x. Result (Option JobEvidence)) [
              | none ↦ ok none
              | some q ↦ validate_run_identity instances find_first q
            ])
              ≡ err instance_lifecycle_mismatch
        of_run none e = cc
        of_run (some q) e =
            subst
              (λ z. validate_run_identity instances find_first z ≡ err instance_lifecycle_mismatch)
              (cc) refused
