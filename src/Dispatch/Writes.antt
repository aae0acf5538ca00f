-- ===== src/Dispatch/Writes.antt =====
-- The other writes of `PrismaWhatsAppDispatchRepository`, each a guarded update of one row.
use afiliado_shopee.Prelude.{
  ℕ, ◌+◌, Bool, true, false, ◌&&◌, ◌||◌, not, Option, none, some, List, [], ◌∷◌, Text, text_eq,
  option_eq, ◌==◌, is_some, leb, includes, map, select, Result, ok, err,
  submission_persistence_conflict, if◌then◌else◌,
}
use afiliado_shopee.Dispatch.Row.{
  Dispatch, ErrorMessage, is_status, pending, processing, submitted, failed, ambiguous,
  sticky_identity_diverged, confirmation_expired,
}

abbrev claimed : Dispatch → Dispatch
claimed d = record d {
  status = processing;
  attempt_count = d.attempt_count + 1;
  error_message = none;
}

unfoldable pub mark_attempt_pending : Dispatch → Bool × Dispatch
mark_attempt_pending d = if is_status d.status pending then (true, claimed d) else (false, d)

-- The columns of the destination that `claimPendingForSending` selects.
pub record ClaimDestination : Type 0 where
  pub is_group : Bool
  pub assigned_instance_name : Option Text
  pub instance_assignments : List Text

pub data Claim : Type 0 where
  claimed_for_sending not_pending sticky_instance_mismatch : Claim

abbrev pub assignment_matches : ClaimDestination → Text → Bool
assignment_matches destination expected = elim destination.instance_assignments [
  | [] ↦ destination.assigned_instance_name == some expected
  | name ∷ names ↦ includes (name ∷ names) expected
]

-- The transaction, which locks the destination; `none` is a dispatch that is not there.
unfoldable pub claim_pending_for_sending :
    Text → ClaimDestination → Option Dispatch → Claim × Option Dispatch
claim_pending_for_sending expected destination none = (not_pending, none)
claim_pending_for_sending expected destination (some d) =
    if not (is_status d.status pending)
    then (not_pending, some d)
    else if destination.is_group
        && (not (d.instance_name == some expected) || not (assignment_matches destination expected))
    then (
      sticky_instance_mismatch,
      some (record d { status = failed; error_message = some sticky_identity_diverged }),
    )
    else (claimed_for_sending, some (claimed d))

pub record Submission : Type 0 where
  pub external_message_id : Text
  pub submitted_at : ℕ
  pub confirmation_deadline_at : ℕ

-- `markSubmitted`, up to the drain of the inbox.
unfoldable pub mark_submitted : Submission → Dispatch → Result Dispatch
mark_submitted s d =
    if is_status d.status processing && not (is_some d.external_message_id)
    then ok (record d {
      status = submitted;
      external_message_id = some s.external_message_id;
      submitted_at = some s.submitted_at;
      confirmation_deadline_at = some s.confirmation_deadline_at;
      error_message = none;
    })
    else err submission_persistence_conflict

abbrev pub is_due : ℕ → Dispatch → Bool
is_due now d = elim d.confirmation_deadline_at [
  | none ↦ false
  | some t ↦ is_status d.status submitted && leb t now
]

unfoldable pub expire_row : ℕ → Dispatch → Dispatch
expire_row now d =
    if is_due now d
    then record d {
      status = ambiguous;
      confirmation_deadline_at = none;
      error_message = some confirmation_expired;
    }
    else d

-- The expired rows, and the table after the pass.
unfoldable pub expire_submitted_confirmations : ℕ → List Dispatch → List Dispatch × List Dispatch
unfolding expire_row
expire_submitted_confirmations now rows =
    (map (expire_row now) (select (is_due now) rows), map (expire_row now) rows)

unfoldable pub mark_failed : ErrorMessage → Dispatch → Dispatch
mark_failed message d = record d { status = failed; error_message = some message }
