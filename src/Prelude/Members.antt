-- ===== src/Prelude/Members.antt =====
-- `includes`, `unique` and `Distinct`.
use mathlib.Core.Path.{◌≡◌, refl, sym, ap, subst}
use mathlib.Core.Bool.{Bool, true, false, ◌&&◌, ◌||◌}
use mathlib.Core.List.{List, [], ◌∷◌, ◌++◌}
use Prim.Native.Nat.{suc, ◌≤◌}
use native.Mathlib.Omega.{arith}
use mathlib.Core.Logic.{inl, inr}
use afiliado_shopee.Prelude.Tests.{Bool-cases}
use afiliado_shopee.Prelude.Lists.{Eq, includes, unique, unique_from, Distinct, select, length, All}

module _ {ℓ} {A : Type ℓ} ⦃e : Eq A⦄ where
  pub beq_refl : (x : A) → e.beq x x ≡ true
  beq_refl x = (e.beq_iff x x).1 refl

  pub includes-append :
      (xs ys : List A) (a : A) → includes (xs ++ ys) a ≡ (includes xs a || includes ys a)
  includes-append [] ys a = refl
  includes-append (x ∷ xs) ys a = ground (arith, includes-append xs ys a)

  -- What is seen and what is kept together have what was seen and what was given.
  includes-unique_from :
      (seen xs : List A) (a : A)
      → (includes seen a || includes (unique_from seen xs) a) ≡ (includes seen a || includes xs a)
  includes-unique_from seen [] a = refl
  includes-unique_from seen (x ∷ xs) a =
      go (includes-unique_from seen xs a) (includes-unique_from (x ∷ seen) xs a) (includes seen x)
        refl
    where
      go :
          (includes seen a || includes (unique_from seen xs) a) ≡ (includes seen a || includes xs a)
          → (includes (x ∷ seen) a || includes (unique_from (x ∷ seen) xs) a)
            ≡ (includes (x ∷ seen) a || includes xs a)
          → (b : Bool) → includes seen x ≡ b
          → (includes seen a
              || includes
                  (elim b [ true ↦ unique_from seen xs | false ↦ x ∷ unique_from (x ∷ seen) xs ])
                  a)
            ≡ (includes seen a || (e.beq x a || includes xs a))
      go ih ih' true old = elim (Bool-cases (e.beq x a)) [
        | inl same ↦
            let old' : includes seen a ≡ true =
              subst (λ z. includes seen z ≡ true) ((e.beq_iff x a).0 same) old in
            ground (arith, old')
        | inr other ↦ ground (arith, ih)
      ]
      go ih ih' false new = ground (arith, ih')

  pub includes-unique : (xs : List A) (a : A) → includes (unique xs) a ≡ includes xs a
  includes-unique xs a = includes-unique_from [] xs a

  -- A kept element was not seen before, and is kept once.
  unique_from-fresh :
      (seen xs : List A) (a : A) → includes seen a ≡ true → includes (unique_from seen xs) a ≡ false
  unique_from-fresh seen [] a h = refl
  unique_from-fresh seen (x ∷ xs) a h =
      go (unique_from-fresh seen xs a h) (unique_from-fresh (x ∷ seen) xs a (ground (arith, h)))
        (includes seen x) refl
    where
      go :
          includes (unique_from seen xs) a ≡ false
          → includes (unique_from (x ∷ seen) xs) a ≡ false
          → (b : Bool) → includes seen x ≡ b
          → includes
              (elim b [ true ↦ unique_from seen xs | false ↦ x ∷ unique_from (x ∷ seen) xs ])
              a
            ≡ false
      go ih ih' true old = ih
      go ih ih' false new = elim (Bool-cases (e.beq x a)) [
        | inl same ↦
            let new' : includes seen a ≡ false =
              subst (λ z. includes seen z ≡ false) ((e.beq_iff x a).0 same) new in
            ground (arith, new')
        | inr other ↦ ground (arith, ih')
      ]

  unique_from-Distinct : (seen xs : List A) → Distinct (unique_from seen xs)
  unique_from-Distinct seen [] = tt
  unique_from-Distinct seen (x ∷ xs) =
      go (unique_from-Distinct seen xs) (unique_from-Distinct (x ∷ seen) xs)
        (unique_from-fresh (x ∷ seen) xs x (rw (beq_refl x))) (includes seen x)
    where
      go :
          Distinct (unique_from seen xs)
          → Distinct (unique_from (x ∷ seen) xs)
          → includes (unique_from (x ∷ seen) xs) x ≡ false
          → (b : Bool)
          → Distinct (elim b [ true ↦ unique_from seen xs | false ↦ x ∷ unique_from (x ∷ seen) xs ])
      go ih ih' fresh true = ih
      go ih ih' fresh false = (fresh, ih')

  pub unique-Distinct : (xs : List A) → Distinct (unique xs)
  unique-Distinct xs = unique_from-Distinct [] xs

  length-unique_from_le : (seen xs : List A) → length (unique_from seen xs) ≤ length xs
  length-unique_from_le seen [] = omega arith
  length-unique_from_le seen (x ∷ xs) =
      go (length-unique_from_le seen xs) (length-unique_from_le (x ∷ seen) xs) (includes seen x)
    where
      go :
          length (unique_from seen xs) ≤ length xs
          → length (unique_from (x ∷ seen) xs) ≤ length xs
          → (b : Bool)
          → length (elim b [ true ↦ unique_from seen xs | false ↦ x ∷ unique_from (x ∷ seen) xs ])
            ≤ suc (length xs)
      go ih ih' true = omega arith
      go ih ih' false = omega arith

  -- A list that loses nothing is its own set.
  unique_from-full :
      (seen xs : List A) → length (unique_from seen xs) ≡ length xs → unique_from seen xs ≡ xs
  unique_from-full seen [] h = refl
  unique_from-full seen (x ∷ xs) h =
      go (unique_from-full (x ∷ seen) xs) (length-unique_from_le seen xs) (includes seen x) h
    where
      go :
          (length (unique_from (x ∷ seen) xs) ≡ length xs → unique_from (x ∷ seen) xs ≡ xs)
          → length (unique_from seen xs) ≤ length xs
          → (b : Bool)
          → length (elim b [ true ↦ unique_from seen xs | false ↦ x ∷ unique_from (x ∷ seen) xs ])
            ≡ suc (length xs)
          → (elim b [ true ↦ unique_from seen xs | false ↦ x ∷ unique_from (x ∷ seen) xs ]) ≡ x ∷ xs
      go ih short true k = absurd (omega arith)
      go ih short false k = ap (λ l. x ∷ l) (ih (omega (arith, k)))

  pub unique-full : (xs : List A) → length (unique xs) ≡ length xs → unique xs ≡ xs
  unique-full xs h = unique_from-full [] xs h

  pub Distinct-of_full : (xs : List A) → length (unique xs) ≡ length xs → Distinct xs
  Distinct-of_full xs h = subst Distinct (unique-full xs h) (unique-Distinct xs)

  pub includes-select :
      (p : A → Bool) (xs : List A) (a : A) → includes (select p xs) a ≡ (includes xs a && p a)
  includes-select p [] a = refl
  includes-select p (x ∷ xs) a = elim (Bool-cases (e.beq x a)) [
    | inl same ↦
        let px : p x ≡ p a = ap p ((e.beq_iff x a).0 same) in
        ground (arith, includes-select p xs a, px)
    | inr other ↦ ground (arith, includes-select p xs a)
  ]

  beq_sym : (a b : A) → e.beq a b ≡ false → e.beq b a ≡ false
  beq_sym a b h = elim (Bool-cases (e.beq b a)) [ inl same ↦ absurd (lem same) | inr other ↦ other ]
    where
      lem : e.beq b a ≡ true → ⊥
      lem same = cc ((e.beq_iff a b).1 (sym ((e.beq_iff b a).0 same)), h)

  widen :
      (seen xs : List A) (x : A)
      → includes xs x ≡ false
      → All (λ y. includes seen y ≡ false) xs
      → All (λ y. includes (x ∷ seen) y ≡ false) xs
  widen seen [] x h k = tt
  widen seen (y ∷ ys) x h k =
      let other : e.beq x y ≡ false = beq_sym y x (ground arith) in
      (ground (arith, other, k.0), widen seen ys x (ground arith) k.1)

  unique_from-of_Distinct :
      (seen xs : List A)
      → All (λ x. includes seen x ≡ false) xs
      → Distinct xs
      → unique_from seen xs ≡ xs
  unique_from-of_Distinct seen [] k d = refl
  unique_from-of_Distinct seen (x ∷ xs) k d =
      rw (k.0, unique_from)
        (ap (λ l. x ∷ l) (unique_from-of_Distinct (x ∷ seen) xs (widen seen xs x d.0 k.1) d.1))

  none_seen : (xs : List A) → All (λ x. includes [] x ≡ false) xs
  none_seen [] = tt
  none_seen (x ∷ xs) = (refl, none_seen xs)

  pub unique_of_Distinct : (xs : List A) → Distinct xs → unique xs ≡ xs
  unique_of_Distinct xs d = unique_from-of_Distinct [] xs (none_seen xs) d
