-- ===== src/Examples/Outboxes.antt =====
-- A concrete outbox: published, doubted, and asked to be published again.
use afiliado_shopee.Prelude.{false, ◌≡◌, refl, none, some, List, [], ◌∷◌, codes}
use afiliado_shopee.Publication.{OutboxStatus}
use afiliado_shopee.Run.{RunStatus, FinalStatus, confirmed}
use afiliado_shopee.Outbox.{Pair, OutboxRow, mark_published}
use afiliado_shopee.Outbox.Marks.{
  waits, AllInStep, IsPublished, Mark, publishing, doubting, marks, marks-IsInStep,
}

abbrev pair : Pair
pair = record {
  outbox = record {
    id = codes "o1";
    commercial_run_id = codes "r1";
    dispatch_id = codes "d1";
    job_id = codes "j1";
    status = OutboxStatus.pending;
    failure_code = none;
    published_at = none;
  };
  run = record {
    mode = confirmed;
    status = RunStatus.started;
    dispatch_id = some (codes "d1");
    job_id = none;
    final_status = some FinalStatus.pending;
    investigation_required = false;
    failure_code = none;
    completed_at = none;
  };
}

abbrev calls : List Mark
calls = publishing 100 ∷ doubting (codes "UNKNOWN") 120 ∷ publishing 130 ∷ []

marks-IsInStep_example :
    AllInStep (marks calls (some pair))
    × ((o : OutboxRow)
        → (mark_published 140 (marks calls (some pair))).0 ≡ some o
        → IsPublished o (mark_published 140 (marks calls (some pair))).1)
marks-IsInStep_example = marks-IsInStep calls (some pair) 140 (waits refl)
