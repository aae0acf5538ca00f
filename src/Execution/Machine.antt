-- ===== src/Execution/Machine.antt =====
-- The state machine of an execution: what a write may do to a row, and to the table.
use afiliado_shopee.Prelude.{
  Bool, true, false, List, [], ◌∷◌, ◌++◌, ◌≡◌, refl, ◌∙◌, if◌then◌else◌, Bool-cases, inl, inr,
}
use afiliado_shopee.Execution.{
  Execution, ExecutionStatus, ExternalStage, is_started, started, blocked, queued, failed,
  ambiguous, not_reached, external_may_have_started,
}
use afiliado_shopee.Execution.Table.{update_many}

-- The moves of the status: a started execution ends once, one that was queued may turn out failed or
-- ambiguous, and one that is ambiguous may turn out blocked.
pub data Moves : ExecutionStatus → ExecutionStatus → Type 0 where
  stays : (s : ExecutionStatus) → Moves s s
  ends : (s : ExecutionStatus) → is_started s ≡ false → Moves started s
  unsent : Moves queued failed
  doubted : Moves queued ambiguous
  settled : Moves ambiguous blocked
  doubted_settled : Moves queued blocked

pub Moves-trans : (a b c : ExecutionStatus) → Moves a b → Moves b c → Moves a c
Moves-trans a b c (stays s) n = n
Moves-trans a b c (ends s e) (stays s') = ends s e
Moves-trans a b c (ends s e) (ends s' e') = cc
Moves-trans a b c (ends s e) unsent = ends failed refl
Moves-trans a b c (ends s e) doubted = ends ambiguous refl
Moves-trans a b c (ends s e) settled = ends blocked refl
Moves-trans a b c (ends s e) doubted_settled = ends blocked refl
Moves-trans a b c unsent (stays s) = unsent
Moves-trans a b c doubted (stays s) = doubted
Moves-trans a b c doubted settled = doubted_settled
Moves-trans a b c settled (stays s) = settled
Moves-trans a b c doubted_settled (stays s) = doubted_settled

pub Moves-ended : (a b : ExecutionStatus) → Moves a b → is_started a ≡ false → is_started b ≡ false
Moves-ended a b (stays s) e = e
Moves-ended a b (ends s h) e = h
Moves-ended a b unsent e = refl
Moves-ended a b doubted e = refl
Moves-ended a b settled e = refl
Moves-ended a b doubted_settled e = refl

-- The external stage is not taken back.
abbrev pub StageKept : ExternalStage → ExternalStage → Type 0
StageKept external_may_have_started s = s ≡ external_may_have_started
StageKept not_reached s = Unit

pub stage_refl : (s : ExternalStage) → StageKept s s
stage_refl external_may_have_started = refl
stage_refl not_reached = tt

pub stage_trans : (a b c : ExternalStage) → StageKept a b → StageKept b c → StageKept a c
stage_trans external_may_have_started external_may_have_started c h k = k
stage_trans external_may_have_started not_reached c h k = cc
stage_trans not_reached b c h k = tt

pub record Later (e e' : Execution) : Type 0 where
  pub same_id : e'.id ≡ e.id
  pub same_job : e'.bull_mq_job_id ≡ e.bull_mq_job_id
  pub same_owner : e'.owner_id ≡ e.owner_id
  pub moves : Moves e.status e'.status
  pub stage : StageKept e.external_stage e'.external_stage

pub Later-refl : (e : Execution) → Later e e
Later-refl e = record {
  same_id = refl;
  same_job = refl;
  same_owner = refl;
  moves = stays e.status;
  stage = stage_refl e.external_stage;
}

pub Later-trans : (a b c : Execution) → Later a b → Later b c → Later a c
Later-trans a b c h k = record {
  same_id = k.same_id ∙ h.same_id;
  same_job = k.same_job ∙ h.same_job;
  same_owner = k.same_owner ∙ h.same_owner;
  moves = Moves-trans a.status b.status c.status h.moves k.moves;
  stage = stage_trans a.external_stage b.external_stage c.external_stage h.stage k.stage;
}

-- Each row is still there, at its place, and later; new rows come at the end.
abbrev pub AllLater : List Execution → List Execution → Type 0
AllLater [] es' = Unit
AllLater (e ∷ es) [] = ⊥
AllLater (e ∷ es) (e' ∷ es') = Later e e' × AllLater es es'

pub AllLater-refl : (es : List Execution) → AllLater es es
AllLater-refl [] = tt
AllLater-refl (e ∷ es) = (Later-refl e, AllLater-refl es)

pub AllLater-trans :
    (as' bs cs : List Execution) → AllLater as' bs → AllLater bs cs → AllLater as' cs
AllLater-trans [] bs cs h k = tt
AllLater-trans (a ∷ as') [] cs h k = elim h [ ]
AllLater-trans (a ∷ as') (b ∷ bs) [] h k = elim k [ ]
AllLater-trans (a ∷ as') (b ∷ bs) (c ∷ cs) (h, hs) (k, ks) =
    (Later-trans a b c h k, AllLater-trans as' bs cs hs ks)

pub AllLater-append : (es fs : List Execution) → AllLater es (es ++ fs)
AllLater-append [] fs = tt
AllLater-append (e ∷ es) fs = (Later-refl e, AllLater-append es fs)

pub update_many-AllLater :
    (p : Execution → Bool) (f : Execution → Execution)
    → ((e : Execution) → p e ≡ true → Later e (f e))
    → (es : List Execution) → AllLater es (update_many p f es)
update_many-AllLater p f later [] = tt
update_many-AllLater p f later (e ∷ es) = (here, update_many-AllLater p f later es)
  where
    here : Later e (if p e then f e else e)
    here = elim (Bool-cases (p e)) [
      | inl hit ↦ rw hit (later e hit)
      | inr miss ↦ rw miss (Later-refl e)
    ]
