-- ===== src/Planner/Totals.antt =====
-- The sum of a weight over a list, and what a sort, a cut and a map do to it.
use Prim.Native.Nat.{Ordering}
use afiliado_shopee.Prelude.{
  ℕ, zero, suc, ◌+◌, ◌≤◌, ◌≡◌, refl, List, [], ◌∷◌, ◌++◌, map, take, arith,
}
use afiliado_shopee.Planner.{placed, insert_by, sort_by}

abbrev pub total {ℓ} : {A : Type ℓ} → (A → ℕ) → List A → ℕ
total w [] = 0
total w (x ∷ xs) = w x + total w xs

module _ {ℓ} {A : Type ℓ} (w : A → ℕ) where
  pub total-append : (xs ys : List A) → total w (xs ++ ys) ≡ total w xs + total w ys
  total-append [] ys = omega arith
  total-append (x ∷ xs) ys = omega (arith, total-append xs ys)

  pub total-take_le : (n : ℕ) (xs : List A) → total w (take n xs) ≤ total w xs
  total-take_le zero xs = omega arith
  total-take_le (suc n) [] = omega arith
  total-take_le (suc n) (x ∷ xs) = omega (arith, total-take_le n xs)

  total-placed :
      (o : Ordering) (x y : A) (ys rest : List A)
      → total w rest ≡ w x + total w ys
      → total w (placed o x y ys rest) ≡ w x + (w y + total w ys)
  total-placed Ordering.lt x y ys rest h = refl
  total-placed Ordering.eq x y ys rest h = refl
  total-placed Ordering.gt x y ys rest h = omega arith

  total-insert_by :
      (cmp : A → A → Ordering) (x : A) (xs : List A)
      → total w (insert_by cmp x xs) ≡ w x + total w xs
  unfolding insert_by
  total-insert_by cmp x [] = refl
  total-insert_by cmp x (y ∷ ys) =
      total-placed (cmp x y) x y ys (insert_by cmp x ys) (total-insert_by cmp x ys)

  pub total-sort_by : (cmp : A → A → Ordering) (xs : List A) → total w (sort_by cmp xs) ≡ total w xs
  unfolding sort_by
  total-sort_by cmp [] = refl
  total-sort_by cmp (x ∷ xs) =
      omega (arith, total-insert_by cmp x (sort_by cmp xs), total-sort_by cmp xs)

pub total-map {ℓ κ} :
    {A : Type ℓ} {B : Type κ} (w : B → ℕ) (v : A → ℕ) (f : A → B)
    → ((a : A) → w (f a) ≡ v a)
    → (xs : List A) → total w (map f xs) ≡ total v xs
total-map w v f same [] = refl
total-map w v f same (x ∷ xs) = omega (arith, same x, total-map w v f same xs)
