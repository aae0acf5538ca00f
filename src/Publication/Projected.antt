-- ===== src/Publication/Projected.antt =====
-- The projection of a target and the terminal status of the worker, against each other.
use afiliado_shopee.Prelude.{true, false, ◌≡◌, some, arith}
use afiliado_shopee.Publication.{
  Observation, TargetState, TargetStatus, is_target, derive_manual_publication_target_state,
  resolve_manual_publication_terminal_status, observed_ambiguous, dispatch_confirmed,
  dispatch_failed, run_sent, run_failed,
}

dispatch_failed-not_confirmed :
    (o : Observation) → dispatch_failed o ≡ true → dispatch_confirmed o ≡ false
unfolding dispatch_failed dispatch_confirmed
dispatch_failed-not_confirmed o h = ground arith

run_failed-not_sent : (o : Observation) → run_failed o ≡ true → run_sent o ≡ false
unfolding run_failed run_sent
run_failed-not_sent o h = ground arith

-- Where the worker finds a terminal status, the projection of a target that was not ambiguous yet is
-- that status, and asks for an investigation exactly if it is ambiguous.
pub resolve-derive :
    (c : TargetState) (o : Observation) (s : TargetStatus)
    → is_target c.status TargetStatus.ambiguous ≡ false
    → resolve_manual_publication_terminal_status o ≡ some s
    → ((derive_manual_publication_target_state c o).status ≡ s)
      × ((derive_manual_publication_target_state c o).investigation_required
          ≡ is_target s TargetStatus.ambiguous)
unfolding resolve_manual_publication_terminal_status derive_manual_publication_target_state
resolve-derive c o s h k =
    let failed_dispatch = dispatch_failed-not_confirmed o in
    let failed_run = run_failed-not_sent o in (ground arith, ground arith)

-- Projecting twice from one observation is projecting once, and an ambiguous target stays as it is
-- whatever is observed.
pub derive_idem :
    (c : TargetState) (o p : Observation)
    → (derive_manual_publication_target_state (derive_manual_publication_target_state c o) o
        ≡ derive_manual_publication_target_state c o)
      × (observed_ambiguous o ≡ true
          → (derive_manual_publication_target_state
              (derive_manual_publication_target_state c o)
              p).status
            ≡ TargetStatus.ambiguous)
unfolding derive_manual_publication_target_state
derive_idem c o p = (ground arith, λ h. ground arith)
