-- ===== src/Prelude/Trim.antt =====
-- `trim` removes spaces at both ends once and for all.
use mathlib.Core.List.{reverse-reverse, reverse-append, reverse}
use mathlib.Core.Path.{◌≡◌, refl, sym, ap, ◌∙◌, subst}
use mathlib.Core.Bool.{Bool, true, false}
use mathlib.Core.List.{[], ◌∷◌, ◌++◌}
use mathlib.Core.Logic.{inl, inr}
use native.Mathlib.Omega.{arith}
use afiliado_shopee.Prelude.Tests.{Bool-cases, if◌then◌else◌}
use afiliado_shopee.Prelude.Strings.{Text, is_space, trim_start, trim}

abbrev starts_clean : Text → Bool
starts_clean [] = true
starts_clean (c ∷ s) = if is_space c then false else true

trim_start_clean : (s : Text) → starts_clean (trim_start s) ≡ true
unfolding trim_start
trim_start_clean [] = refl
trim_start_clean (c ∷ s) = ground (arith, trim_start_clean s)

trim_start_of_clean : (s : Text) → starts_clean s ≡ true → trim_start s ≡ s
unfolding trim_start
trim_start_of_clean [] h = refl
trim_start_of_clean (c ∷ s) h = ground arith

-- What `trim_start` removes.
removed : Text → Text
removed [] = []
removed (c ∷ s) = if is_space c then c ∷ removed s else []

removed-trim_start : (s : Text) → removed s ++ trim_start s ≡ s
unfolding removed trim_start
removed-trim_start [] = refl
removed-trim_start (c ∷ s) = elim (Bool-cases (is_space c)) [
  | inl space ↦ rw space (ap (λ t. c ∷ t) (removed-trim_start s))
  | inr other ↦ rw other refl
]

clean_prefix : (s t : Text) → starts_clean (s ++ t) ≡ true → starts_clean s ≡ true
clean_prefix [] t h = refl
clean_prefix (c ∷ s) t h = h

pub trim_idem : (s : Text) → trim (trim s) ≡ trim s
unfolding trim
trim_idem s =
    let t = trim_start s in
    let u = trim_start (reverse t) in
    let split : reverse u ++ reverse (removed (reverse t)) ≡ t =
      sym (reverse-append (removed (reverse t)) u)
      ∙ ap reverse (removed-trim_start (reverse t))
      ∙ reverse-reverse t in
    let clean : starts_clean (reverse u) ≡ true =
      clean_prefix (reverse u) _
        (subst (λ x. starts_clean x ≡ true) (sym split) (trim_start_clean s)) in
    ap (λ x. reverse (trim_start (reverse x))) (trim_start_of_clean (reverse u) clean)
    ∙ ap (λ x. reverse (trim_start x)) (reverse-reverse u)
    ∙ ap reverse (trim_start_of_clean u (trim_start_clean (reverse t)))
