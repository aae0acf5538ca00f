-- ===== src/Execution/Rows.antt =====
-- One row of a sound table, by its place: what a guarded write by its id does.
use afiliado_shopee.Prelude.{
  ℕ, zero, suc, Bool, true, false, Option, some, List, [], ◌∷◌, get_elem?, find, text_eq, All, ◌≡◌,
  ◌≢◌, refl, sym, ◌∙◌, ap, ok, err, Bool-cases, inl, inr, text_beq_iff, execution_ownership_lost,
}
use mathlib.Core.Path.{subst}
use afiliado_shopee.Planner.Sorted.{Pairs}
use afiliado_shopee.Execution.{Execution}
use afiliado_shopee.Execution.Table.{
  update_many, count_of, has_id, guarded, find_execution_after_mutation,
}
use afiliado_shopee.Execution.Unique.{Differ}
use afiliado_shopee.Execution.Machine.{Later, AllLater}

pub some_inj : (a b : Execution) → ◌≡◌ {A = Option Execution} (some a) (some b) → a ≡ b
some_inj a b h = cc

pub All-lookup {κ} :
    (P : Execution → Type κ) (es : List Execution) (i : ℕ) (e : Execution)
    → All P es
    → get_elem? es i ≡ some e
    → P e
All-lookup P [] i e h k = cc
All-lookup P (x ∷ es) zero e (h, hs) k = subst P (some_inj x e k) h
All-lookup P (x ∷ es) (suc i) e (h, hs) k = All-lookup P es i e hs k

pub AllLater-lookup :
    (es fs : List Execution) (i : ℕ) (e : Execution)
    → AllLater es fs
    → get_elem? es i ≡ some e
    → (e' : Execution) × (get_elem? fs i ≡ some e') × Later e e'
AllLater-lookup [] fs i e h k = cc
AllLater-lookup (x ∷ es) [] i e h k = elim h [ ]
AllLater-lookup (x ∷ es) (y ∷ fs) zero e (h, hs) k =
    (y, refl, subst (λ a. Later a y) (some_inj x e k) h)
AllLater-lookup (x ∷ es) (y ∷ fs) (suc i) e (h, hs) k = AllLater-lookup es fs i e hs k

-- The other rows have other ids.
abbrev Others : (Execution → Type 0) → Execution → List Execution → Type 0
Others P e = All (λ x. x.id ≢ e.id → P x)

by_difference :
    (P : Execution → Type 0) (e : Execution) (es : List Execution)
    → All (Differ e) es
    → Others P e es
    → All P es
by_difference P e [] d h = tt
by_difference P e (x ∷ es) (d, ds) (h, hs) =
    (h (λ same. d.0 (sym same)), by_difference P e es ds hs)

-- What holds of the row at a place and of the rows with other ids holds of all.
pub All-of_row :
    (P : Execution → Type 0) (e : Execution) (es : List Execution) (i : ℕ)
    → get_elem? es i ≡ some e
    → Pairs Differ es
    → P e
    → Others P e es
    → All P es
All-of_row P e [] i at d h hs = tt
All-of_row P e (x ∷ es) zero at (d, ds) h (k, ks) =
    let same = some_inj x e at in
    (subst P (sym same) h, by_difference P e es (subst (λ y. All (Differ y) es) same d) ks)
All-of_row P e (x ∷ es) (suc i) at (d, ds) h (k, ks) =
    (k (All-lookup (Differ x) es i e d at).0, All-of_row P e es i at ds h ks)

-- A write that hits no row.
pub update_many-miss :
    (p : Execution → Bool) (f : Execution → Execution) (es : List Execution)
    → All (λ x. p x ≡ false) es
    → update_many p f es ≡ es
update_many-miss p f [] h = refl
update_many-miss p f (x ∷ es) (h, hs) = rw (h, update_many-miss p f es hs) refl

count-miss :
    (p : Execution → Bool) (es : List Execution) → All (λ x. p x ≡ false) es → count_of p es ≡ 0
count-miss p [] h = refl
count-miss p (x ∷ es) (h, hs) = rw h (count-miss p es hs)

pub guarded-miss :
    (p : Execution → Bool) (f : Execution → Execution) (es : List Execution)
    → All (λ x. p x ≡ false) es
    → guarded p f es ≡ (err execution_ownership_lost, es)
unfolding guarded
guarded-miss p f es h = rw (count-miss p es h, update_many-miss p f es h) refl

-- A write that hits the row with its id, and no other.
module _ (p : Execution → Bool) (f : Execution → Execution) (e : Execution) (hit : p e ≡ true)
    (own : (x : Execution) → x.id ≢ e.id → p x ≡ false) (same_id : (f e).id ≡ e.id) where
  others_missed : (es : List Execution) → All (Differ e) es → All (λ x. p x ≡ false) es
  others_missed [] d = tt
  others_missed (x ∷ es) (d, ds) = (own x (λ same. d.0 (sym same)), others_missed es ds)

  count-hit :
      (es : List Execution) (i : ℕ) → get_elem? es i ≡ some e → Pairs Differ es → count_of p es ≡ 1
  count-hit [] i at d = cc
  count-hit (x ∷ es) zero at (d, ds) =
      let same = some_inj x e at in
      let this : p x ≡ true = ap p same ∙ hit in
      rw this (ap suc (count-miss p es (others_missed es (subst (λ y. All (Differ y) es) same d))))
  count-hit (x ∷ es) (suc i) at (d, ds) =
      let this : p x ≡ false = own x (All-lookup (Differ x) es i e d at).0 in
      rw this (count-hit es i at ds)

  find-hit :
      (es : List Execution) (i : ℕ)
      → get_elem? es i ≡ some e
      → Pairs Differ es
      → find (has_id e.id) (update_many p f es) ≡ some (f e)
  find-hit [] i at d = cc
  find-hit (x ∷ es) zero at (d, ds) =
      let same = some_inj x e at in
      let this : p x ≡ true = ap p same ∙ hit in
      let its : has_id e.id (f x) ≡ true =
        (text_beq_iff (f x).id e.id).1 (ap (λ y. (f y).id) same ∙ same_id) in
      rw (this, its) (ap (λ y. some (f y)) same)
  find-hit (x ∷ es) (suc i) at (d, ds) =
      let other : x.id ≢ e.id = (All-lookup (Differ x) es i e d at).0 in
      let this : p x ≡ false = own x other in
      elim (Bool-cases (has_id e.id x)) [
        | inl same ↦ absurd (other ((text_beq_iff x.id e.id).0 same))
        | inr differs ↦ rw (this, differs) (find-hit es i at ds)
      ]

  pub guarded-hit :
      (es : List Execution) (i : ℕ)
      → get_elem? es i ≡ some e
      → Pairs Differ es
      → guarded p f es ≡ (ok tt, update_many p f es)
  unfolding guarded
  guarded-hit es i at d = rw (count-hit es i at d) refl

  pub find_execution-hit :
      (es : List Execution) (i : ℕ)
      → get_elem? es i ≡ some e
      → Pairs Differ es
      → find_execution_after_mutation e.id (update_many p f es) ≡ ok (f e)
  unfolding find_execution_after_mutation
  find_execution-hit es i at d = rw (find-hit es i at d, find_execution_after_mutation) refl
