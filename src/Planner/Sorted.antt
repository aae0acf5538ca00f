-- ===== src/Planner/Sorted.antt =====
-- What a stable sort and a cut keep of a list, whatever the comparison is.
use Prim.Native.Nat.{Ordering}
use afiliado_shopee.Prelude.{ℕ, zero, suc, List, [], ◌∷◌, ◌++◌, map, All, take}
use afiliado_shopee.Planner.{placed, insert_by, sort_by}

-- Each two elements, the earlier one first.
abbrev pub Pairs {ℓ κ} : {A : Type ℓ} → (A → A → Type κ) → List A → Type κ
Pairs R [] = Unit
Pairs R (x ∷ xs) = All (R x) xs × Pairs R xs

module _ {ℓ κ} {A : Type ℓ} (P : A → Type κ) where
  pub All-append : (xs ys : List A) → All P xs → All P ys → All P (xs ++ ys)
  All-append [] ys hx hy = hy
  All-append (x ∷ xs) ys hx hy = (hx.0, All-append xs ys hx.1 hy)

  pub All-take : (n : ℕ) (xs : List A) → All P xs → All P (take n xs)
  All-take zero xs h = tt
  All-take (suc n) [] h = tt
  All-take (suc n) (x ∷ xs) h = (h.0, All-take n xs h.1)

pub All-map {ℓ κ μ} :
    {A : Type ℓ} {B : Type κ} (P : B → Type μ) (f : A → B) (xs : List A)
    → All (λ x. P (f x)) xs
    → All P (map f xs)
All-map P f [] h = tt
All-map P f (x ∷ xs) h = (h.0, All-map P f xs h.1)

pub All-weaken {ℓ κ μ} :
    {A : Type ℓ} (P : A → Type κ) (Q : A → Type μ) (xs : List A)
    → ((x : A) → P x → Q x)
    → All P xs
    → All Q xs
All-weaken P Q [] f h = tt
All-weaken P Q (x ∷ xs) f h = (f x h.0, All-weaken P Q xs f h.1)

All-placed {ℓ κ} :
    {A : Type ℓ} (P : A → Type κ) (o : Ordering) (x y : A) (ys rest : List A)
    → P x
    → P y
    → All P ys
    → All P rest
    → All P (placed o x y ys rest)
All-placed P Ordering.lt x y ys rest h k ks r = (h, (k, ks))
All-placed P Ordering.eq x y ys rest h k ks r = (h, (k, ks))
All-placed P Ordering.gt x y ys rest h k ks r = (k, r)

module _ {ℓ κ} {A : Type ℓ} (P : A → Type κ) (cmp : A → A → Ordering) where
  All-insert_by : (x : A) (xs : List A) → P x → All P xs → All P (insert_by cmp x xs)
  unfolding insert_by
  All-insert_by x [] h k = (h, tt)
  All-insert_by x (y ∷ ys) h (k, ks) =
      All-placed P (cmp x y) x y ys (insert_by cmp x ys) h k ks (All-insert_by x ys h ks)

  pub All-sort_by : (xs : List A) → All P xs → All P (sort_by cmp xs)
  unfolding sort_by
  All-sort_by [] h = tt
  All-sort_by (x ∷ xs) (h, hs) = All-insert_by x (sort_by cmp xs) h (All-sort_by xs hs)

module _ {ℓ κ} {A : Type ℓ} (R : A → A → Type κ) (symmetric : (x y : A) → R x y → R y x)
    (cmp : A → A → Ordering) where
  Pairs-placed :
      (o : Ordering) (x y : A) (ys rest : List A)
      → R x y
      → All (R x) ys
      → All (R y) ys
      → Pairs R ys
      → All (R y) rest
      → Pairs R rest
      → Pairs R (placed o x y ys rest)
  Pairs-placed Ordering.lt x y ys rest h hs k ks r rs = ((h, hs), (k, ks))
  Pairs-placed Ordering.eq x y ys rest h hs k ks r rs = ((h, hs), (k, ks))
  Pairs-placed Ordering.gt x y ys rest h hs k ks r rs = (r, rs)

  Pairs-insert_by : (x : A) (xs : List A) → All (R x) xs → Pairs R xs → Pairs R (insert_by cmp x xs)
  unfolding insert_by
  Pairs-insert_by x [] h k = (tt, tt)
  Pairs-insert_by x (y ∷ ys) (h, hs) (k, ks) =
      Pairs-placed (cmp x y) x y ys (insert_by cmp x ys) h hs k ks
        (All-insert_by (R y) cmp x ys (symmetric x y h) k) (Pairs-insert_by x ys hs ks)

  pub Pairs-sort_by : (xs : List A) → Pairs R xs → Pairs R (sort_by cmp xs)
  unfolding sort_by
  Pairs-sort_by [] h = tt
  Pairs-sort_by (x ∷ xs) (h, hs) =
      Pairs-insert_by x (sort_by cmp xs) (All-sort_by (R x) cmp xs h) (Pairs-sort_by xs hs)

module _ {ℓ κ} {A : Type ℓ} (R : A → A → Type κ) where
  pub Pairs-take : (n : ℕ) (xs : List A) → Pairs R xs → Pairs R (take n xs)
  Pairs-take zero xs h = tt
  Pairs-take (suc n) [] h = tt
  Pairs-take (suc n) (x ∷ xs) (h, hs) = (All-take (R x) n xs h, Pairs-take n xs hs)

  -- A new last element that every earlier one is related to.
  pub Pairs-append :
      (xs : List A) (y : A) → Pairs R xs → All (λ x. R x y) xs → Pairs R (xs ++ (y ∷ []))
  Pairs-append [] y h k = (tt, tt)
  Pairs-append (x ∷ xs) y (h, hs) (k, ks) =
      (All-append (R x) xs (y ∷ []) h (k, tt), Pairs-append xs y hs ks)

pub Pairs-map {ℓ κ μ} :
    {A : Type ℓ} {B : Type κ} (R : B → B → Type μ) (f : A → B) (xs : List A)
    → Pairs (λ x y. R (f x) (f y)) xs
    → Pairs R (map f xs)
Pairs-map R f [] h = tt
Pairs-map R f (x ∷ xs) (h, hs) = (All-map (R (f x)) f xs h, Pairs-map R f xs hs)
