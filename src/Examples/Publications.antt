-- ===== src/Examples/Publications.antt =====
-- Concrete observations of a publication.
use afiliado_shopee.Prelude.{true, false, ◌≡◌, refl, some}
use afiliado_shopee.Dispatch.Row.{DispatchStatus}
use afiliado_shopee.Run.{RunStatus, FinalStatus}
use afiliado_shopee.Publication.{
  TargetStatus, OutboxStatus, Observation, TargetState, queued, sent, is_target, observed_ambiguous,
  derive_manual_publication_target_state, resolve_manual_publication_terminal_status,
  dispatch_confirmed, run_sent,
}
use afiliado_shopee.Publication.Projected.{resolve-derive}

abbrev delivered : Observation
delivered = record {
  has_run = true;
  run_status = some RunStatus.completed;
  run_final_status = some FinalStatus.sent;
  run_investigation_required = false;
  has_dispatch = true;
  dispatch_status = some DispatchStatus.delivered;
  has_outbox = true;
  outbox_status = some OutboxStatus.published;
}

abbrev waiting : TargetState
waiting = record { status = queued; investigation_required = false }

resolve-derive_example :
    ((derive_manual_publication_target_state waiting delivered).status ≡ sent)
    × ((derive_manual_publication_target_state waiting delivered).investigation_required
        ≡ is_target sent TargetStatus.ambiguous)
unfolding resolve_manual_publication_terminal_status observed_ambiguous dispatch_confirmed run_sent
resolve-derive_example = resolve-derive waiting delivered sent refl refl
