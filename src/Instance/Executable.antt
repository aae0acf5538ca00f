-- ===== src/Instance/Executable.antt =====
-- Which groups `filterExecutableCommercialGroups` keeps.
use afiliado_shopee.Prelude.{
  Bool, true, false, ◌≡◌, refl, ◌∙◌, ap, some, none, List, [], ◌∷◌, ◌++◌, Text, text_eq, any, All,
  select, includes, includes-unique, includes-select, beq_refl, unique, arith, Bool-cases, inl, inr,
}
use afiliado_shopee.Instance.{
  Assignment, Directory, is_running, assigned_names, all_names, has_names,
  filter_executable_commercial_groups,
}

select-cong {ℓ} :
    {A : Type ℓ} (p q : A → Bool) (xs : List A)
    → All (λ x. p x ≡ q x) xs
    → select p xs ≡ select q xs
select-cong p q [] h = refl
select-cong p q (x ∷ xs) h =
    let rest = select-cong p q xs h.1 in
    elim (Bool-cases (q x)) [
      | inl hit ↦ let hit' : p x ≡ true = h.0 ∙ hit in rw (hit, hit') (ap (λ l. x ∷ l) rest)
      | inr miss ↦ let miss' : p x ≡ false = h.0 ∙ miss in rw (miss, miss') rest
    ]

select-select {ℓ} :
    {A : Type ℓ} (p q : A → Bool) (xs : List A)
    → ((x : A) → p x ≡ false → q x ≡ false)
    → select q (select p xs) ≡ select q xs
select-select p q [] h = refl
select-select p q (x ∷ xs) h = elim (Bool-cases (p x)) [
  | inl hit ↦ elim (Bool-cases (q x)) [
    | inl in' ↦ rw (hit, in') (ap (λ l. x ∷ l) (select-select p q xs h))
    | inr out ↦ rw (hit, out) (select-select p q xs h)
  ]
  | inr miss ↦ rw (miss, h x miss) (select-select p q xs h)
]

-- Membership in the set of active names, for names that were looked up.
any-active :
    (run : Text → Bool) (known names : List Text)
    → All (λ n. includes known n ≡ true) names
    → any (includes (select run (unique known))) names ≡ any run names
any-active run known [] h = refl
any-active run known (n ∷ ns) h =
    let here : includes (select run (unique known)) n ≡ run n =
      includes-select run (unique known) n ∙ rw (includes-unique known n, h.0) in
    ground (arith, here, any-active run known ns h.1)

abbrev Known : List Text → List Text → Type 0
Known pool names = All (λ n. includes pool n ≡ true) names

Known-cons : (x : Text) (pool names : List Text) → Known pool names → Known (x ∷ pool) names
Known-cons x pool [] h = tt
Known-cons x pool (n ∷ ns) h = (ground (arith, h.0), Known-cons x pool ns h.1)

Known-append : (xs pool names : List Text) → Known pool names → Known (xs ++ pool) names
Known-append [] pool names h = h
Known-append (x ∷ xs) pool names h = Known-cons x (xs ++ pool) names (Known-append xs pool names h)

Known-self : (xs ys : List Text) → Known (xs ++ ys) xs
Known-self [] ys = tt
Known-self (x ∷ xs) ys = (rw (beq_refl x), Known-cons x (xs ++ ys) xs (Known-self xs ys))

module _ {ℓ} {G : Type ℓ} (assignment : G → Assignment) where
  All-Known-append :
      (xs pool : List Text) (gs : List G)
      → All (λ g. Known pool (assigned_names assignment g)) gs
      → All (λ g. Known (xs ++ pool) (assigned_names assignment g)) gs
  All-Known-append xs pool [] h = tt
  All-Known-append xs pool (g ∷ gs) h =
      (Known-append xs pool (assigned_names assignment g) h.0, All-Known-append xs pool gs h.1)

  All-Known :
      (gs : List G) → All (λ g. Known (all_names assignment gs) (assigned_names assignment g)) gs
  All-Known [] = tt
  All-Known (g ∷ gs) = (
    Known-self (assigned_names assignment g) (all_names assignment gs),
    All-Known-append (assigned_names assignment g) (all_names assignment gs) gs (All-Known gs),
  )

  abbrev pub can_run : Directory → G → Bool
  can_run find g = any (λ n. is_running (find n)) (assigned_names assignment g)

  All-any-active :
      (run : Text → Bool) (known : List Text) (gs : List G)
      → All (λ g. Known known (assigned_names assignment g)) gs
      → All
          (λ g.
            any (includes (select run (unique known))) (assigned_names assignment g)
            ≡ any run (assigned_names assignment g))
          gs
  All-any-active run known [] h = tt
  All-any-active run known (g ∷ gs) h =
      (any-active run known (assigned_names assignment g) h.0, All-any-active run known gs h.1)

  unnamed-cannot_run :
      (find : Directory) (g : G) → has_names assignment g ≡ false → can_run find g ≡ false
  unnamed-cannot_run find g h = by_names (assigned_names assignment g) h
    where
      by_names :
          (names : List Text)
          → (elim names [ [] ↦ false | n ∷ ns ↦ true ]) ≡ false
          → any (λ n. is_running (find n)) names ≡ false
      by_names [] k = refl
      by_names (n ∷ ns) k = cc

  -- The groups that can be executed are, in their order, those with an assigned instance which the
  -- directory has as active and not paused. With no directory there are none. Collecting the names
  -- of all groups first, each looked up once, makes no difference.
  pub filter_executable-eq-select :
      (gs : List G) (find : Directory)
      → (filter_executable_commercial_groups assignment gs (some find) ≡ select (can_run find) gs)
        × (filter_executable_commercial_groups assignment gs none ≡ [])
  unfolding filter_executable_commercial_groups
  filter_executable-eq-select gs find =
      let assigned = select (has_names assignment) gs in
      (
        select-cong _ (can_run find) assigned (
              All-any-active (λ n. is_running (find n)) (all_names assignment assigned) assigned
                (All-Known assigned))
            ∙ select-select (has_names assignment) (can_run find) gs (unnamed-cannot_run find),
        refl,
      )
