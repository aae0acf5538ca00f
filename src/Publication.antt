-- ===== src/Publication.antt =====
-- The status of a manual publication, projected from the run, the dispatch and the outbox:
-- apps/api/src/manual-publication-lifecycle-finalizer.ts.
pub mod Projected
pub mod Aggregate
use afiliado_shopee.Prelude.{
  ℕ, zero, Bool, true, false, ◌&&◌, ◌||◌, not, Option, none, some, List, [], ◌∷◌, any, every,
  select, length, nat_beq, ltb, if◌then◌else◌,
}
use afiliado_shopee.Dispatch.Row.{DispatchStatus, delivered, read}
use afiliado_shopee.Run.{RunStatus, FinalStatus, is_run_status, final_is, dispatch_is}

pub data TargetStatus : Type 0 where
  accepted processing queued sent blocked failed ambiguous : TargetStatus

pub data OutboxStatus : Type 0 where
  pending published ambiguous : OutboxStatus

pub record Observation : Type 0 where
  pub has_run : Bool
  pub run_status : Option RunStatus
  pub run_final_status : Option FinalStatus
  pub run_investigation_required : Bool
  pub has_dispatch : Bool
  pub dispatch_status : Option DispatchStatus
  pub has_outbox : Bool
  pub outbox_status : Option OutboxStatus

pub record TargetState : Type 0 where
  pub status : TargetStatus
  pub investigation_required : Bool

abbrev pub is_target : TargetStatus → TargetStatus → Bool
is_target accepted accepted = true
is_target processing processing = true
is_target queued queued = true
is_target sent sent = true
is_target blocked blocked = true
is_target TargetStatus.failed TargetStatus.failed = true
is_target TargetStatus.ambiguous TargetStatus.ambiguous = true
is_target _ _ = false

abbrev outbox_is_ambiguous : Option OutboxStatus → Bool
outbox_is_ambiguous (some OutboxStatus.ambiguous) = true
outbox_is_ambiguous _ = false

-- The test that the two functions share.
unfoldable pub observed_ambiguous : Observation → Bool
observed_ambiguous o =
    outbox_is_ambiguous o.outbox_status
    || (final_is FinalStatus.ambiguous o.run_final_status || o.run_investigation_required)

-- What the dispatch and the run say of the message.
unfoldable pub dispatch_confirmed : Observation → Bool
dispatch_confirmed o =
    dispatch_is o.dispatch_status DispatchStatus.sent
    || (dispatch_is o.dispatch_status delivered || dispatch_is o.dispatch_status read)

unfoldable pub dispatch_failed : Observation → Bool
dispatch_failed o = dispatch_is o.dispatch_status DispatchStatus.failed

unfoldable pub run_sent : Observation → Bool
run_sent o = final_is FinalStatus.sent o.run_final_status

unfoldable pub run_failed : Observation → Bool
run_failed o = final_is FinalStatus.failed o.run_final_status

unfoldable pub derive_manual_publication_target_state : TargetState → Observation → TargetState
derive_manual_publication_target_state current o =
    if is_target current.status TargetStatus.ambiguous
    then current
    else if observed_ambiguous o
    then record { status = TargetStatus.ambiguous; investigation_required = true }
    else if dispatch_confirmed o || run_sent o
    then record { status = sent; investigation_required = false }
    else if dispatch_failed o || run_failed o
    then record { status = TargetStatus.failed; investigation_required = false }
    else if o.has_outbox || o.has_dispatch
    then record { status = queued; investigation_required = current.investigation_required }
    else if o.has_run
    then record { status = processing; investigation_required = current.investigation_required }
    else record { status = current.status; investigation_required = current.investigation_required }

abbrev run_is : Option RunStatus → RunStatus → Bool
run_is none s = false
run_is (some r) s = is_run_status r s

unfoldable pub resolve_manual_publication_terminal_status : Observation → Option TargetStatus
resolve_manual_publication_terminal_status o =
    if observed_ambiguous o
    then some TargetStatus.ambiguous
    else if o.has_run
        && (run_is o.run_status RunStatus.completed
            && (o.has_dispatch && (dispatch_confirmed o && run_sent o)))
    then some sent
    else if o.has_run
        && (run_is o.run_status RunStatus.failed
            && (o.has_dispatch && (dispatch_failed o && run_failed o)))
    then some TargetStatus.failed
    else none

pub data RequestStatus : Type 0 where
  ambiguous processing completed partial blocked failed : RequestStatus

abbrev pub is_active : TargetStatus → Bool
is_active s = is_target s accepted || (is_target s processing || is_target s queued)

abbrev pub is_terminal_target : TargetStatus → Bool
is_terminal_target s = is_target s sent || (is_target s blocked || is_target s TargetStatus.failed)

-- `statuses.filter(test).length`.
abbrev pub count : (TargetStatus → Bool) → List TargetStatus → ℕ
count p ss = length (select p ss)

unfoldable pub aggregate_manual_publication_request_status : List TargetStatus → RequestStatus
aggregate_manual_publication_request_status ss =
    let sent_count = count (λ s. is_target s sent) ss in
    let terminal_count = count is_terminal_target ss in
    if any (λ s. is_target s TargetStatus.ambiguous) ss
    then RequestStatus.ambiguous
    else if any is_active ss
    then RequestStatus.processing
    else if nat_beq sent_count (length ss)
    then RequestStatus.completed
    else if ltb 0 sent_count
    then partial
    else if nat_beq terminal_count (length ss) && every (λ s. is_target s blocked) ss
    then RequestStatus.blocked
    else RequestStatus.failed

-- The statuses of the list in the source; `processing` is not in it.
abbrev pub is_manual_publication_request_terminal : RequestStatus → Bool
is_manual_publication_request_terminal RequestStatus.processing = false
is_manual_publication_request_terminal _ = true
