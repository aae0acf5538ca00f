-- ===== src/Outbox/Marks.antt =====
-- What the marks of an outbox keep.
use afiliado_shopee.Prelude.{
  ℕ, Bool, true, false, Option, none, some, Text, ◌≡◌, refl, if◌then◌else◌, List, [], ◌∷◌,
}
use mathlib.Core.Path.{subst}
use afiliado_shopee.Publication.{OutboxStatus}
use afiliado_shopee.Run.{FinalStatus}
use afiliado_shopee.Outbox.{
  published_row, ambiguous_row, ambiguous_run, OutboxRow, Pair, run_accepts_job, mark_published,
  mark_ambiguous,
}

-- A published outbox has its job on the run; an ambiguous one has a run to be investigated.
pub data IsInStep (p : Pair) : Type 0 where
  waits : p.outbox.status ≡ OutboxStatus.pending → IsInStep p
  went_out :
      p.outbox.status ≡ OutboxStatus.published → p.run.job_id ≡ some p.outbox.job_id → IsInStep p
  in_doubt :
      p.outbox.status ≡ OutboxStatus.ambiguous
      → p.run.final_status ≡ some FinalStatus.ambiguous
      → p.run.investigation_required ≡ true
      → IsInStep p

-- One call of the publisher.
pub data Mark : Type 0 where
  publishing : ℕ → Mark
  doubting : Text → ℕ → Mark

unfoldable pub mark : Mark → Option Pair → Option OutboxRow × Option Pair
unfolding mark_published mark_ambiguous
mark (publishing at) p = mark_published at p
mark (doubting code at) p = mark_ambiguous code at p

-- The pair after a list of calls.
unfoldable pub marks : List Mark → Option Pair → Option Pair
unfolding mark
marks [] p = p
marks (m ∷ ms) p = marks ms (mark m p).1

abbrev pub AllInStep : Option Pair → Type 0
AllInStep none = Unit
AllInStep (some p) = IsInStep p

mark_published-IsInStep :
    (at : ℕ) (p : Pair) → IsInStep p → AllInStep (mark_published at (some p)).1
unfolding mark_published
mark_published-IsInStep at p sound = go p.outbox.status (run_accepts_job p)
  where
    go :
        (s : OutboxStatus) (b : Bool)
        → AllInStep
            (elim s as (λ x. Option OutboxRow × Option Pair) [
              | OutboxStatus.ambiguous ↦ (none, some p)
              | OutboxStatus.published ↦ (some p.outbox, some p)
              | OutboxStatus.pending ↦
                  if b
                  then (
                    some (published_row at p.outbox),
                    some (record {
                      outbox = published_row at p.outbox;
                      run = record p.run { job_id = some p.outbox.job_id };
                    }),
                  )
                  else (none, some p)
            ]).1
    go OutboxStatus.ambiguous b = sound
    go OutboxStatus.published b = sound
    go OutboxStatus.pending true = went_out refl refl
    go OutboxStatus.pending false = sound

mark_ambiguous-IsInStep :
    (code : Text) (at : ℕ) (p : Pair) → IsInStep p → AllInStep (mark_ambiguous code at (some p)).1
unfolding mark_ambiguous
mark_ambiguous-IsInStep code at p sound = go p.outbox.status
  where
    made : Option OutboxRow × Option Pair
    made = (
      some (ambiguous_row code p.outbox),
      some (record { outbox = ambiguous_row code p.outbox; run = ambiguous_run code at p.run }),
    )

    go :
        (s : OutboxStatus)
        → AllInStep
            (elim s as (λ x. Option OutboxRow × Option Pair) [
              | OutboxStatus.ambiguous ↦ (some p.outbox, some p)
              | OutboxStatus.published ↦ made
              | OutboxStatus.pending ↦ made
            ]).1
    go OutboxStatus.ambiguous = sound
    go OutboxStatus.published = in_doubt refl refl refl
    go OutboxStatus.pending = in_doubt refl refl refl

mark-IsInStep : (m : Mark) (p : Option Pair) → AllInStep p → AllInStep (mark m p).1
unfolding mark
mark-IsInStep (publishing at) none sound = unfold mark_published in tt
mark-IsInStep (publishing at) (some p) sound = mark_published-IsInStep at p sound
mark-IsInStep (doubting code at) none sound = unfold mark_ambiguous in tt
mark-IsInStep (doubting code at) (some p) sound = mark_ambiguous-IsInStep code at p sound

marks-AllInStep : (ms : List Mark) (p : Option Pair) → AllInStep p → AllInStep (marks ms p)
unfolding marks
marks-AllInStep [] p sound = sound
marks-AllInStep (m ∷ ms) p sound = marks-AllInStep ms (mark m p).1 (mark-IsInStep m p sound)

-- What a row that is returned as published stands for.
abbrev pub IsPublished : OutboxRow → Option Pair → Type 0
IsPublished o none = ⊥
IsPublished o (some q) =
    (q.outbox ≡ o) × (o.status ≡ OutboxStatus.published) × (q.run.job_id ≡ some o.job_id)

published_job :
    (p : Pair)
    → IsInStep p
    → p.outbox.status ≡ OutboxStatus.published
    → p.run.job_id ≡ some p.outbox.job_id
published_job p (waits e) h = cc
published_job p (went_out e j) h = j
published_job p (in_doubt e f i) h = cc

returned_row :
    (at : ℕ) (o : OutboxRow) (p : Option Pair)
    → AllInStep p
    → (mark_published at p).0 ≡ some o
    → IsPublished o (mark_published at p).1
unfolding mark_published
returned_row at o none sound h = cc
returned_row at o (some p) sound h = go p.outbox.status refl (run_accepts_job p) h
  where
    out : OutboxStatus → Bool → Option OutboxRow × Option Pair
    out s b = elim s [
      | OutboxStatus.ambiguous ↦ (none, some p)
      | OutboxStatus.published ↦ (some p.outbox, some p)
      | OutboxStatus.pending ↦
          if b
          then (
            some (published_row at p.outbox),
            some (record {
              outbox = published_row at p.outbox;
              run = record p.run { job_id = some p.outbox.job_id };
            }),
          )
          else (none, some p)
    ]

    same_row : (a b : OutboxRow) → ◌≡◌ {A = Option OutboxRow} (some a) (some b) → a ≡ b
    same_row a b k = cc

    go :
        (s : OutboxStatus)
        → p.outbox.status ≡ s
        → (b : Bool) → (out s b).0 ≡ some o
        → IsPublished o (out s b).1
    go OutboxStatus.ambiguous e b k = cc
    go OutboxStatus.published e b k =
        subst
          (λ r.
            (p.outbox ≡ r) × (r.status ≡ OutboxStatus.published) × (p.run.job_id ≡ some r.job_id))
          (same_row p.outbox o k) (refl, e, published_job p sound e)
    go OutboxStatus.pending e true k =
        subst
          (λ r.
            (published_row at p.outbox ≡ r)
            × (r.status ≡ OutboxStatus.published)
            × (some p.outbox.job_id ≡ some r.job_id))
          (same_row (published_row at p.outbox) o k) (refl, refl, refl)
    go OutboxStatus.pending e false k = cc

-- From an outbox in step with its run (a published one has its job on the run, an ambiguous one a
-- run to be investigated), any calls that mark it published or ambiguous keep it in step; and a row
-- that a call then returns as published is stored so, with its job on the run.
pub marks-IsInStep :
    (ms : List Mark) (p : Option Pair) (at : ℕ)
    → AllInStep p
    → AllInStep (marks ms p)
      × ((o : OutboxRow)
          → (mark_published at (marks ms p)).0 ≡ some o
          → IsPublished o (mark_published at (marks ms p)).1)
marks-IsInStep ms p at sound =
    let kept = marks-AllInStep ms p sound in (kept, λ o h. returned_row at o (marks ms p) kept h)
