-- ===== src/Execution/Leases.antt =====
-- The lease of an execution: the two tests that it is over, and its renewal.
use afiliado_shopee.Prelude.{
  ℕ, zero, suc, Bool, true, false, ◌&&◌, ◌||◌, Option, none, some, List, [], ◌∷◌, get_elem?, Text,
  text_eq, option_eq, ◌==◌, ◌≡◌, ◌≢◌, ◌<◌, refl, sym, ap, ◌∙◌, ok, leb, Bool-cases, inl, inr, arith,
  text_beq_iff, option_beq_iff, and_true,
}
use mathlib.Core.Path.{subst}
use afiliado_shopee.Execution.{
  Execution, Ownership, is_started, is_falsy, is_null, is_commercial_automation_execution_stale,
  stale_commercial_execution, owned_commercial_execution,
}
use afiliado_shopee.Execution.Table.{update_many, heartbeat, with_lease}
use afiliado_shopee.Execution.Unique.{KeyOk, holds, released, IsSound}
use afiliado_shopee.Execution.Rows.{All-lookup, guarded-hit, some_inj}

-- A text that is stored is not empty.
abbrev pub IsStored : Option Text → Type 0
IsStored none = Unit
IsStored (some []) = ⊥
IsStored (some (c ∷ s)) = Unit

falsy-null : (t : Option Text) → IsStored t → is_falsy t ≡ is_null t
falsy-null none h = refl
falsy-null (some []) h = elim h [ ]
falsy-null (some (c ∷ s)) h = refl

key-IsStored : (e : Execution) → KeyOk e → IsStored e.active_key
key-IsStored e (holds a b) = subst IsStored (sym b) tt
key-IsStored e (released a b) = subst IsStored (sym b) tt

-- For a row whose key is in order and whose owner is not the empty text, the test of the service and
-- the condition of the query agree on whether the lease is over.
pub is_stale-query :
    (e : Execution) (now : ℕ)
    → KeyOk e
    → IsStored e.owner_id
    → is_commercial_automation_execution_stale e now ≡ stale_commercial_execution now e
unfolding is_commercial_automation_execution_stale stale_commercial_execution
is_stale-query e now key owner =
    rw (falsy-null e.active_key (key-IsStored e key), falsy-null e.owner_id owner) refl

get-update_many :
    (p : Execution → Bool) (f : Execution → Execution) (es : List Execution) (i : ℕ) (e : Execution)
    → p e ≡ true
    → get_elem? es i ≡ some e
    → get_elem? (update_many p f es) i ≡ some (f e)
get-update_many p f [] i e h at = cc
get-update_many p f (x ∷ es) zero e h at =
    let same = some_inj x e at in
    let this : p x ≡ true = ap p same ∙ h in rw this (ap (λ y. some (f y)) same)
get-update_many p f (x ∷ es) (suc i) e h at = get-update_many p f es i e h at

owned_own :
    (o : Ownership) (at : ℕ) (x : Execution)
    → x.id ≢ o.execution_id
    → owned_commercial_execution o at x ≡ false
unfolding owned_commercial_execution
owned_own o at x other = elim (Bool-cases (x.id == o.execution_id)) [
  | inl same ↦ absurd (other ((text_beq_iff x.id o.execution_id).0 same))
  | inr differs ↦ rw differs refl
]

owned-id :
    (o : Ownership) (at : ℕ) (e : Execution)
    → owned_commercial_execution o at e ≡ true
    → e.id ≡ o.execution_id
unfolding owned_commercial_execution
owned-id o at e h = (text_beq_iff e.id o.execution_id).0 (and_true _ _ h).0

owned-started :
    (o : Ownership) (at : ℕ) (e : Execution)
    → owned_commercial_execution o at e ≡ true
    → is_started e.status ≡ true
unfolding owned_commercial_execution
owned-started o at e h = (and_true _ _ (and_true _ _ h).1).0

owned-owner :
    (o : Ownership) (at : ℕ) (e : Execution)
    → owned_commercial_execution o at e ≡ true
    → e.owner_id ≡ some o.owner_id
unfolding owned_commercial_execution
owned-owner o at e h =
    (option_beq_iff text_eq e.owner_id (some o.owner_id)).0
      (and_true _ _ (and_true _ _ (and_true _ _ h).1).1).0

not_falsy : (t : Option Text) → IsStored t → t ≢ none → is_falsy t ≡ false
not_falsy none h k = absurd (k refl)
not_falsy (some []) h k = elim h [ ]
not_falsy (some (c ∷ s)) h k = refl

key_held : (e : Execution) → KeyOk e → is_started e.status ≡ true → is_falsy e.active_key ≡ false
key_held e (holds a b) begun = rw b refl
key_held e (released a b) begun = cc

renewed :
    (e : Execution) (at expires now : ℕ)
    → KeyOk e
    → is_started e.status ≡ true
    → IsStored e.owner_id
    → e.owner_id ≢ none
    → now < expires
    → is_commercial_automation_execution_stale (with_lease at expires e) now ≡ false
unfolding is_commercial_automation_execution_stale
renewed e at expires now key begun owner has before =
    or_stale (is_started e.status) (is_falsy e.active_key) (is_falsy e.owner_id) (leb expires now)
      (key_held e key begun) (not_falsy e.owner_id owner has) (ground arith)
  where
    or_stale :
        (s a b l : Bool)
        → a ≡ false
        → b ≡ false
        → l ≡ false
        → (s && (a || (b || (false || l)))) ≡ false
    or_stale s a b l h k m = ground arith

-- In a sound table, the owner that holds the lease renews it: the call succeeds, its row has the new
-- lease, and the lease is not over before the new end.
pub heartbeat-renews :
    (o : Ownership) (at expires now : ℕ) (es : List Execution) (i : ℕ) (e : Execution)
    → IsSound es
    → get_elem? es i ≡ some e
    → owned_commercial_execution o at e ≡ true
    → IsStored (some o.owner_id)
    → now < expires
    → ((heartbeat o at expires es).0 ≡ ok tt)
      × (get_elem? (heartbeat o at expires es).1 i ≡ some (with_lease at expires e))
      × (is_commercial_automation_execution_stale (with_lease at expires e) now ≡ false)
unfolding heartbeat
heartbeat-renews o at expires now es i e sound at_i owned stored before =
    let hit =
      guarded-hit (owned_commercial_execution o at) (with_lease at expires) e owned
        (λ x other. owned_own o at x (λ same. other (same ∙ sym (owned-id o at e owned)))) refl es i
        at_i sound.0 in
    (
      ap (λ r. r.0) hit,
      subst (λ fs. get_elem? fs i ≡ some (with_lease at expires e)) (sym (ap (λ r. r.1) hit))
          (get-update_many (owned_commercial_execution o at) (with_lease at expires) es i e owned
            at_i),
      renewed e at expires now (All-lookup KeyOk es i e sound.1 at_i) (owned-started o at e owned)
          (subst IsStored (sym (owned-owner o at e owned)) stored)
          (λ gone. ground (arith, owned-owner o at e owned)) before,
    )
