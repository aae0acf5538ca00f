-- ===== src/Execution/Unique.antt =====
-- The table of executions keeps its unique columns, and its key is held by what is started.
use afiliado_shopee.Prelude.{
  Bool, true, false, Option, none, some, List, [], ◌∷◌, ◌++◌, Text, text_eq, option_eq, ◌==◌, any,
  All, ◌≡◌, ◌≢◌, refl, sym, ok, err, if◌then◌else◌, Bool-cases, inl, inr, ◌⊎◌, or_false,
  text_beq_iff, unique_violation,
}
use afiliado_shopee.Planner.Sorted.{Pairs, All-append, Pairs-append}
use afiliado_shopee.Execution.{Execution, is_started, the_active_key}
use afiliado_shopee.Execution.Table.{update_many}
use afiliado_shopee.Execution.Start.{clashes, create, both_have}

-- Two rows that no unique column has in common.
abbrev pub Differ : Execution → Execution → Type 0
Differ a b =
    (a.id ≢ b.id)
    × ((j : Text) → a.bull_mq_job_id ≡ some j → b.bull_mq_job_id ≡ some j → ⊥)
    × ((k : Text) → a.active_key ≡ some k → b.active_key ≡ some k → ⊥)

-- A started execution holds the key, and no other does.
pub data KeyOk (e : Execution) : Type 0 where
  holds : is_started e.status ≡ true → e.active_key ≡ some the_active_key → KeyOk e
  released : is_started e.status ≡ false → e.active_key ≡ none → KeyOk e

abbrev pub IsSound : List Execution → Type 0
IsSound es = Pairs Differ es × All KeyOk es

-- Two executions that are not both started.
abbrev pub NotBothStarted : Execution → Execution → Type 0
NotBothStarted a b = is_started a.status ≡ true → is_started b.status ≡ true → ⊥

not_both : (a b : Execution) → KeyOk a → KeyOk b → Differ a b → NotBothStarted a b
not_both a b (holds s k) (holds t l) d h h' = d.2 the_active_key k l
not_both a b (holds s k) (released t l) d h h' = cc
not_both a b (released s k) other d h h' = cc

one_of :
    (a : Execution) (es : List Execution)
    → KeyOk a
    → All KeyOk es
    → All (Differ a) es
    → All (NotBothStarted a) es
one_of a [] k ks d = tt
one_of a (b ∷ es) k (l, ls) (d, ds) = (not_both a b k l d, one_of a es k ls ds)

pub IsSound-one_started : (es : List Execution) → IsSound es → Pairs NotBothStarted es
IsSound-one_started [] s = tt
IsSound-one_started (a ∷ es) ((d, ds), (k, ks)) =
    (one_of a es k ks d, IsSound-one_started es (ds, ks))

-- A write that keeps the unique columns, or lets the key go.
abbrev pub Tame : Execution → Execution → Type 0
Tame e e' =
    (e'.id ≡ e.id)
    × (e'.bull_mq_job_id ≡ e.bull_mq_job_id)
    × ((e'.active_key ≡ e.active_key) ⊎ (e'.active_key ≡ none))

Differ-Tame : (a b a' b' : Execution) → Tame a a' → Tame b b' → Differ a b → Differ a' b'
Differ-Tame a b a' b' (i, j, k) (i', j', k') (d, e, f) = (
  λ h. d (cc),
  λ job h h'. e job (cc) (cc),
  λ key h h'. elim k [
    | inl same ↦ elim k' [ inl same' ↦ f key (cc) (cc) | inr gone ↦ absurd (cc) ]
    | inr gone ↦ absurd (cc)
  ],
)

-- Writes of this kind keep the table sound.
module _ (p : Execution → Bool) (f : Execution → Execution) (tame : (e : Execution) → Tame e (f e))
    (key : (e : Execution) → p e ≡ true → KeyOk e → KeyOk (f e)) where
  abbrev written : Execution → Execution
  written e = if p e then f e else e

  written-Tame : (e : Execution) → Tame e (written e)
  written-Tame e = elim (Bool-cases (p e)) [
    | inl hit ↦ rw hit (tame e)
    | inr miss ↦ rw miss (refl, refl, inl refl)
  ]

  written-KeyOk : (e : Execution) → KeyOk e → KeyOk (written e)
  written-KeyOk e k = elim (Bool-cases (p e)) [
    | inl hit ↦ rw hit (key e hit k)
    | inr miss ↦ rw miss k
  ]

  update_many-Differ :
      (a : Execution) (es : List Execution)
      → All (Differ a) es
      → All (Differ (written a)) (update_many p f es)
  update_many-Differ a [] d = tt
  update_many-Differ a (b ∷ es) (d, ds) = (
    Differ-Tame a b (written a) (written b) (written-Tame a) (written-Tame b) d,
    update_many-Differ a es ds,
  )

  pub update_many-IsSound : (es : List Execution) → IsSound es → IsSound (update_many p f es)
  update_many-IsSound [] s = s
  update_many-IsSound (e ∷ es) ((d, ds), (k, ks)) =
      let (ds', ks') = update_many-IsSound es (ds, ks) in
      ((update_many-Differ e es d, ds'), (written-KeyOk e k, ks'))

not_both_have :
    (a b : Option Text) → both_have a b ≡ false → (j : Text) → b ≡ some j → a ≡ some j → ⊥
not_both_have none b h j e f = cc
not_both_have (some t) b h j e f =
    let same : text_eq.beq j t ≡ true = (text_beq_iff j t).1 (cc) in
    let test : (b == some t) ≡ true = rw e same in cc

not_true-false : (b : Bool) → b ≡ true → b ≡ false → ⊥
not_true-false b h k = cc

no_clash : (e x : Execution) → clashes e x ≡ false → Differ x e
unfolding clashes
no_clash e x h =
    let a : (e.id == x.id) ≡ false = (or_false _ _ h).0 in
    let (b, c) = or_false _ _ (or_false _ _ h).1 in
    (
      λ same.
          let test : (e.id == x.id) ≡ true = (text_beq_iff e.id x.id).1 (sym same) in
          not_true-false _ test a,
      not_both_have e.bull_mq_job_id x.bull_mq_job_id b,
      not_both_have e.active_key x.active_key c,
    )

no_clashes :
    (e : Execution) (es : List Execution)
    → any (λ x. clashes e x) es ≡ false
    → All (λ x. Differ x e) es
no_clashes e [] h = tt
no_clashes e (x ∷ es) h = let (a, b) = or_false _ _ h in (no_clash e x a, no_clashes e es b)

-- A row that is created shares no unique column, and goes to the end.
pub create-ok :
    (e : Execution) (es es' : List Execution)
    → create e es ≡ ok es'
    → (any (λ x. clashes e x) es ≡ false) × (es' ≡ es ++ (e ∷ []))
unfolding create
create-ok e es es' h = go (any (λ x. clashes e x) es) refl h
  where
    go :
        (b : Bool)
        → any (λ x. clashes e x) es ≡ b
        → (if b then err unique_violation else ok (es ++ (e ∷ []))) ≡ ok es'
        → (any (λ x. clashes e x) es ≡ false) × (es' ≡ es ++ (e ∷ []))
    go true e' k = cc
    go false e' k = (e', cc)

pub create-IsSound :
    (e : Execution) (es es' : List Execution)
    → KeyOk e
    → create e es ≡ ok es'
    → IsSound es
    → IsSound es'
create-IsSound e es es' k h (d, ks) =
    let (free, same) = create-ok e es es' h in
    rw same
      (Pairs-append Differ es e d (no_clashes e es free), All-append KeyOk es (e ∷ []) ks (k, tt))
