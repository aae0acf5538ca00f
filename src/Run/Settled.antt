-- ===== src/Run/Settled.antt =====
-- What the finalization of a run settles, alone and against other writers.
use afiliado_shopee.Prelude.{
  ℕ, Bool, true, false, not, ◌≡◌, ◌≢◌, sym, ◌∙◌, ap, Option, none, some, arith, ok, err,
  run_finalization_conflict, nat_beq, if◌then◌else◌,
}
use afiliado_shopee.Run.{
  Current, Kind, Finalization, Answer, World, Env, is_confirmed, resolve_finalization_kind,
  is_finalization_persisted, finalized, may_finalize, update_run, write_kind, with_current,
  finalize_attempts, finalize_by_dispatch_id,
}

abbrev pub alone : Env
alone k c = c

-- One read and at most one write, with nobody else about.
unfoldable pub finalize_once : ℕ → Current → Answer × Current
finalize_once at c =
    let kind = resolve_finalization_kind c in
    if not (is_confirmed c.mode)
    then (ok none, c)
    else if is_finalization_persisted c.run kind
    then (ok (some (record { kind = kind; transitioned = false })), c)
    else if may_finalize kind c.run
    then (
      ok (some (record { kind = kind; transitioned = true })),
      record c { run = finalized kind at c.run },
    )
    else (err run_finalization_conflict, c)

-- With nobody else about, the two attempts answer and write what one read and one guarded write do.
pub finalize_by_dispatch_id-once :
    (at : ℕ) (c : Current)
    → let (answer, w) = finalize_by_dispatch_id alone at (some c) in
      (answer ≡ (finalize_once at c).0) × (w.current ≡ some (finalize_once at c).1)
unfolding finalize_by_dispatch_id finalize_attempts with_current write_kind update_run finalize_once
finalize_by_dispatch_id-once at c = ground arith

finalize_once-settled :
    (at at' : ℕ) (c : Current) {f : Finalization}
    → (finalize_once at c).0 ≡ ok (some f)
    → finalize_once at' (finalize_once at c).1
      ≡ (ok (some (record { kind = f.kind; transitioned = false })), (finalize_once at c).1)
unfolding finalize_once resolve_finalization_kind is_finalization_persisted finalized may_finalize
finalize_once-settled at at' c h = ground arith

-- With nobody else about, a finalization that answered is settled: a second one answers the same kind, reports no
-- transition and writes nothing, at any time.
pub finalize_by_dispatch_id-settled :
    (at at' : ℕ) (c : Current) {f : Finalization}
    → (finalize_by_dispatch_id alone at (some c)).0 ≡ ok (some f)
    → let after = (finalize_by_dispatch_id alone at (some c)).1.current in
      let (answer, w) = finalize_by_dispatch_id alone at' after in
      (answer ≡ ok (some (record { kind = f.kind; transitioned = false }))) × (w.current ≡ after)
finalize_by_dispatch_id-settled at at' c {f} h =
    let (answers, leaves) = finalize_by_dispatch_id-once at c in
    let (answers', leaves') = finalize_by_dispatch_id-once at' (finalize_once at c).1 in
    let again = finalize_once-settled at at' c {f = f} (sym answers ∙ h) in
    rw leaves (answers' ∙ ap (λ p. p.0) again, leaves' ∙ ap (λ p. some p.1) again)

abbrev pub is_settled_sent : Option Current → Bool
is_settled_sent none = false
is_settled_sent (some c) = is_finalization_persisted c.run Kind.sent

-- No write undoes a run that another process has settled as sent, whatever kind this process chose
-- from an older read: the run stays settled as sent, and a write of another kind is refused.
pub update_run-keeps_sent :
    (env : Env) (kind : Kind) (at : ℕ) (w : World)
    → is_settled_sent (env w.calls w.current) ≡ true
    → let (changed, w') = update_run env kind at w in
      (is_settled_sent w'.current ≡ true)
      × (kind ≢ Kind.sent → (changed ≡ false) × (w'.current ≡ env w.calls w.current))
unfolding update_run is_finalization_persisted may_finalize finalized
update_run-keeps_sent env kind at w h = (ground arith, λ other. (ground arith, ground arith))

-- Another process puts `winner` in place just before this process's first write.
abbrev pub won_meanwhile : Current → Env
won_meanwhile winner k c = if nat_beq k 1 then some winner else c

-- Let a confirmed run that is not settled be read, and before it is written let another process
-- settle it, also as confirmed, in a way that bars this process's kind. Then the second attempt
-- answers the winner's kind, with no transition of its own, and the winner's run stays as it is.
pub finalize_by_dispatch_id-converges :
    (at : ℕ) (c winner : Current)
    → is_confirmed c.mode ≡ true
    → is_finalization_persisted c.run (resolve_finalization_kind c) ≡ false
    → is_confirmed winner.mode ≡ true
    → is_finalization_persisted winner.run (resolve_finalization_kind winner) ≡ true
    → may_finalize (resolve_finalization_kind c) winner.run ≡ false
    → let (answer, w) = finalize_by_dispatch_id (won_meanwhile winner) at (some c) in
      (answer
        ≡ ok (some (record { kind = resolve_finalization_kind winner; transitioned = false })))
      × (w.current ≡ some winner)
unfolding finalize_by_dispatch_id
finalize_by_dispatch_id-converges at c winner m u m' s lost = ground arith
