-- ===== src/Examples/Runs.antt =====
-- Concrete pipeline runs.
use afiliado_shopee.Prelude.{false, ◌≡◌, refl, none, some, codes, ok}
use afiliado_shopee.Dispatch.Row.{DispatchStatus}
use afiliado_shopee.Run.{
  Run, Current, Kind, confirmed, started, resolve_finalization_kind, is_finalization_persisted,
  finalized, may_finalize, finalize_by_dispatch_id,
}
use afiliado_shopee.Run.Settled.{
  alone, won_meanwhile, finalize_by_dispatch_id-settled, finalize_by_dispatch_id-converges,
}

abbrev begun : Run
begun = record {
  id = codes "r1";
  mode = confirmed;
  status = started;
  final_status = none;
  failure_code = none;
  investigation_required = false;
  completed_at = none;
}

abbrev lost : Current
lost = record { run = begun; dispatch = some DispatchStatus.failed }

abbrev won : Current
won = record { run = finalized Kind.sent 5 begun; dispatch = some DispatchStatus.sent }

finalize_by_dispatch_id-settled_example :
    let after = (finalize_by_dispatch_id alone 7 (some lost)).1.current in
    let (answer, w) = finalize_by_dispatch_id alone 9 after in
    (answer ≡ ok (some (record { kind = Kind.failed; transitioned = false }))) × (w.current ≡ after)
unfolding finalize_by_dispatch_id
finalize_by_dispatch_id-settled_example = finalize_by_dispatch_id-settled 7 9 lost refl

finalize_by_dispatch_id-converges_example :
    let (answer, w) = finalize_by_dispatch_id (won_meanwhile won) 7 (some lost) in
    (answer ≡ ok (some (record { kind = resolve_finalization_kind won; transitioned = false })))
    × (w.current ≡ some won)
unfolding resolve_finalization_kind is_finalization_persisted finalized may_finalize
finalize_by_dispatch_id-converges_example =
    finalize_by_dispatch_id-converges 7 lost won refl refl refl refl refl
