-- ===== src/Instance/Sticky.antt =====
-- What an accepted sticky identity guarantees.
use mathlib.Core.Path.{subst, subst₂}
use afiliado_shopee.Prelude.{
  Bool, true, false, ◌||◌, ◌≡◌, ◌⊎◌, refl, sym, Option, none, some, List, [], ◌∷◌, ◌++◌, map, Text,
  text_eq, option_eq, Eq, any, All, includes, unique, unique_from, length, trim, ok, throw_if,
  returned, or_null, value, is_true, arith, inl, inr, if◌then◌else◌,
}
use afiliado_shopee.Instance.{
  StickyIdentity, StickyOptions, present, lifecycle_values, compared_values, agree_on,
  assert_commercial_sticky_identity, normalize_ordered_assignments, destination_identity,
  ordered_assignments, destination_diverges, three_values, lifecycle_identity_values, is_undefined,
}

module _ {ℓ} {A : Type ℓ} ⦃e : Eq A⦄ where
  one_value : (x : A) (xs : List A) → length (unique_from (x ∷ []) xs) ≡ 0 → All (λ y. y ≡ x) xs
  one_value x [] h = tt
  one_value x (y ∷ ys) h = go (one_value x ys) (e.beq x y) refl h
    where
      go :
          (length (unique_from (x ∷ []) ys) ≡ 0 → All (λ z. z ≡ x) ys)
          → (b : Bool) → e.beq x y ≡ b
          → length (elim (b || false) [
            | true ↦ unique_from (x ∷ []) ys
            | false ↦ y ∷ unique_from (y ∷ x ∷ []) ys
          ])
            ≡ 0
          → (y ≡ x) × All (λ z. z ≡ x) ys
      go ih true same h' = (sym ((e.beq_iff x y).0 same), ih h')
      go ih false other h' = absurd (omega arith)

All-absent : (vs : List (Option Text)) → any present vs ≡ false → All (λ v. v ≡ none) vs
All-absent [] h = tt
All-absent (none ∷ vs) h = (refl, All-absent vs h)
All-absent (some n ∷ vs) h = cc

-- The tests that an accepted list of values has passed.
agree_on-tests :
    (o : StickyOptions) (ordered : Option (List Text)) (v : Option Text) (vs : List (Option Text))
    → {r : Option Text} → agree_on o ordered (v ∷ vs) ≡ ok r
    → ((any present (v ∷ vs) ≡ false) × (r ≡ none))
      ⊎ ((any present (v ∷ vs) ≡ true) × (length (unique (v ∷ vs)) ≡ 1) × (r ≡ v))
unfolding agree_on
agree_on-tests o ordered v vs h = ground arith

-- Accepted values are all the same name, or there is none among them.
agree_on-ok :
    (o : StickyOptions) (ordered : Option (List Text)) (vs : List (Option Text)) {r : Option Text}
    → agree_on o ordered vs ≡ ok r
    → All (λ w. w ≡ r) vs
agree_on-ok o ordered [] h = tt
agree_on-ok o ordered (v ∷ vs) {r} h = elim (agree_on-tests o ordered v vs h) [
  | inl (nothing, gone) ↦
      subst (λ q. All (λ w. w ≡ q) (v ∷ vs)) (sym gone) (All-absent (v ∷ vs) nothing)
  | inr (something, one, first) ↦
      subst (λ q. All (λ w. w ≡ q) (v ∷ vs)) (sym first) (refl, one_value v vs (omega (arith, one)))
]

-- An accepted name stands in the ordered assignments, if there are any.
agree_on-inside :
    (o : StickyOptions) (names : List Text) (vs : List (Option Text)) (n : Text)
    → agree_on o (some names) vs ≡ ok (some n)
    → includes names n ≡ true
unfolding agree_on
agree_on-inside o names [] n h = ground arith
agree_on-inside o names (v ∷ vs) n h = ground arith

module _ (P : Option Text → Type 0) where
  All-append_left : (xs ys : List (Option Text)) → All P (xs ++ ys) → All P xs
  All-append_left [] ys h = tt
  All-append_left (x ∷ xs) ys h = (h.0, All-append_left xs ys h.1)

  -- The identities that are compared whatever the options are, and the job's where it is there.
  abbrev pub Covered : StickyIdentity → StickyOptions → Type 0
  Covered i o =
      P (or_null i.run_instance_name)
      × P (or_null i.dispatch_instance_name)
      × P (or_null i.outbox_instance_name)
      × ((job : Text)
          → i.job_instance_name ≡ value job
          → is_true o.allow_missing_job ≡ false
          → P (some job))

  covered_by :
      (i : StickyIdentity) (without_job : Bool)
      → All P (if without_job then three_values i else lifecycle_identity_values i)
      → P (or_null i.run_instance_name)
        × P (or_null i.dispatch_instance_name)
        × P (or_null i.outbox_instance_name)
        × (without_job ≡ false → P (or_null i.job_instance_name))
  covered_by i true (a, (b, (c, _))) = (a, b, c, λ e. cc)
  covered_by i false (a, (b, (c, (d, _)))) = (a, b, c, λ e. d)

  lifecycle_values-Covered :
      (i : StickyIdentity) (o : StickyOptions) (ordered : Option (List Text))
      → All P (lifecycle_values i o ordered)
      → Covered i o
  unfolding lifecycle_values
  lifecycle_values-Covered i o none h =
      let (a, b, c, d) = covered_by i (is_true o.allow_missing_job) h in
      (a, b, c, λ job e n. subst (λ j. P (or_null j)) e (d n))
  lifecycle_values-Covered i o (some names) h =
      let without_job = is_true o.allow_missing_job || is_undefined i.job_instance_name in
      let (a, b, c, d) = covered_by i without_job h in
      (a, b, c, λ job e n. subst (λ j. P (or_null j)) e (d (ground arith)))

compared_values-Covered :
    (P : Option Text → Type 0) (i : StickyIdentity) (o : StickyOptions)
    (ordered : Option (List Text))
    → All P (compared_values i o ordered)
    → Covered P i o
unfolding compared_values
compared_values-Covered P i o ordered h =
    lifecycle_values-Covered P i o ordered (narrow (any present (lifecycle_values i o ordered)) h)
  where
    narrow :
        (b : Bool)
        → All P (
            if b
            then lifecycle_values i o ordered
              ++ destination_identity i.destination_assigned_instance_name ordered
            else lifecycle_values i o ordered)
        → All P (lifecycle_values i o ordered)
    narrow true k = All-append_left P _ _ k
    narrow false k = k

-- The ordered assignments that the assertion compares with are the trimmed ones of the destination.
ordered_assignments-ok :
    (names : List Text) {ordered : Option (List Text)}
    → ordered_assignments (some names) ≡ ok ordered
    → ordered ≡ some (map trim names)
unfolding normalize_ordered_assignments
ordered_assignments-ok [] h = cc
ordered_assignments-ok (n ∷ ns) h = ground arith

-- An accepted identity is one: the run, the dispatch and the outbox all have it, and the job too
-- where it is given and may not be missing; that is one name for all of them, or null for all of
-- them. If it is a name and the destination has ordered assignments, the name is one of them.
pub assert_commercial_sticky_identity-ok :
    (i : StickyIdentity) (o : StickyOptions) (r : Option Text)
    → assert_commercial_sticky_identity i o ≡ ok r
    → Covered (λ v. v ≡ r) i o
      × ((names : List Text) (n : Text)
          → i.destination_assigned_instance_names ≡ some names
          → r ≡ some n
          → includes (map trim names) n ≡ true)
unfolding assert_commercial_sticky_identity
assert_commercial_sticky_identity-ok i o r h =
    let (ordered, listed, h') =
      returned (ordered_assignments i.destination_assigned_instance_names) _ h in
    let (_, _, agreed) =
      returned (throw_if (destination_diverges i.destination_assigned_instance_name ordered) _) _
        h' in
    (
      compared_values-Covered _ i o ordered (agree_on-ok o ordered _ agreed),
      λ names n given same.
          let these : ordered ≡ some (map trim names) =
            ordered_assignments-ok names
              (subst (λ d. ordered_assignments d ≡ ok ordered) given listed) in
          agree_on-inside o (map trim names) (compared_values i o ordered) n
            (subst₂ (λ q s. agree_on o q (compared_values i o ordered) ≡ ok s) these same agreed),
    )
