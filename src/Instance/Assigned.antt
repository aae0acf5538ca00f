-- ===== src/Instance/Assigned.antt =====
-- What a valid list of assigned instances is, and which groups can be executed.
use mathlib.Core.Path.{subst}
use afiliado_shopee.Prelude.{
  false, ◌≡◌, refl, sym, ◌∙◌, ap, Option, none, some, List, [], ◌∷◌, map, Text, text_eq,
  text_beq_iff, any, unique, Distinct, Distinct-of_full, unique_of_Distinct, length, trim,
  trim_idem, Result, ok, returned, throw_if, ◌>>=◌, ◌>>◌, instance_assignment_invalid, Nullish,
  undefined, null, value, arith, Bool-cases, inl, inr,
}
use afiliado_shopee.Instance.{
  Assignment, is_empty, has_bad_names, checked_names, legacy_diverges, legacy_names, ordered_names,
  get_ordered_assigned_instance_names,
}

map-trim_idem : (names : List Text) → map trim (map trim names) ≡ map trim names
map-trim_idem [] = refl
map-trim_idem (n ∷ ns) = cc (trim_idem n, map-trim_idem ns)

-- No name is empty, none occurs twice, and all are trimmed.
pub record IsNames (names : List Text) : Type 0 where
  pub filled : any is_empty names ≡ false
  pub distinct : Distinct names
  pub trimmed : map trim names ≡ names

has_bad_names-IsNames :
    (raw : List Text) → has_bad_names (map trim raw) ≡ false → IsNames (map trim raw)
unfolding has_bad_names
has_bad_names-IsNames raw h = record {
  filled = ground arith;
  distinct = Distinct-of_full (map trim raw) (ground arith);
  trimmed = map-trim_idem raw;
}

legacy_names-IsNames : (legacy : Nullish Text) → IsNames (legacy_names legacy)
unfolding legacy_names
legacy_names-IsNames undefined = record { filled = refl; distinct = tt; trimmed = refl }
legacy_names-IsNames null = record { filled = refl; distinct = tt; trimmed = refl }
legacy_names-IsNames (value name) = elim (Bool-cases (is_empty (trim name))) [
  | inl empty ↦ rw empty (record { filled = refl; distinct = tt; trimmed = refl })
  | inr filled ↦ rw filled (record {
    filled = ground arith;
    distinct = (refl, tt);
    trimmed = ap (λ t. t ∷ []) (trim_idem name);
  })
]

-- The legacy name agrees with the head of the list.
abbrev pub HeadIs : Nullish Text → List Text → Type 0
HeadIs (value name) (first ∷ rest) = trim name ≡ first
HeadIs _ names = Unit

legacy_names-HeadIs : (legacy : Nullish Text) → HeadIs legacy (legacy_names legacy)
unfolding legacy_names
legacy_names-HeadIs undefined = tt
legacy_names-HeadIs null = tt
legacy_names-HeadIs (value name) = elim (Bool-cases (is_empty (trim name))) [
  | inl empty ↦ rw empty tt
  | inr filled ↦ rw filled refl
]

legacy_diverges-HeadIs :
    (legacy : Nullish Text) (names : List Text)
    → legacy_diverges legacy names ≡ false
    → HeadIs legacy names
unfolding legacy_diverges
legacy_diverges-HeadIs undefined names h = tt
legacy_diverges-HeadIs null names h = tt
legacy_diverges-HeadIs (value name) [] h = tt
legacy_diverges-HeadIs (value name) (first ∷ rest) h =
    (text_beq_iff (trim name) first).0 (ground arith)

listed-ok :
    (legacy : Nullish Text) (n : Text) (ns names : List Text)
    → ordered_names legacy (some (n ∷ ns)) ≡ ok names
    → (names ≡ map trim (n ∷ ns))
      × (has_bad_names (map trim (n ∷ ns)) ≡ false)
      × (legacy_diverges legacy names ≡ false)
unfolding ordered_names
listed-ok legacy n ns names h =
    let (checked, given, h') = returned (checked_names (map trim (n ∷ ns))) _ h in
    let (_, fits, same) = returned (throw_if (legacy_diverges legacy checked) _) _ h' in
    let (_, good, these) =
      returned (throw_if (has_bad_names (map trim (n ∷ ns))) _) (λ _. ok (map trim (n ∷ ns)))
        given in
    (ground arith, ground (arith, good), ground (arith, fits))

-- The names of a group, if they are accepted, are trimmed, not empty and all different, and the
-- legacy name agrees with the first of them.
pub get_ordered-IsNames :
    (a : Assignment) (names : List Text)
    → get_ordered_assigned_instance_names a ≡ ok names
    → IsNames names × HeadIs a.assigned_instance_name names
unfolding get_ordered_assigned_instance_names
get_ordered-IsNames a names h = by_list a.assigned_instance_names h
  where
    by_list :
        (listed : Option (List Text))
        → ordered_names a.assigned_instance_name listed ≡ ok names
        → IsNames names × HeadIs a.assigned_instance_name names
    by_list none k =
        let same : legacy_names a.assigned_instance_name ≡ names = ground arith in
        (
          subst IsNames same (legacy_names-IsNames a.assigned_instance_name),
          subst (HeadIs a.assigned_instance_name) same
              (legacy_names-HeadIs a.assigned_instance_name),
        )
    by_list (some []) k = cc
    by_list (some (n ∷ ns)) k =
        let (same, good, fits) = listed-ok a.assigned_instance_name n ns names k in
        (
          subst IsNames (sym same) (has_bad_names-IsNames (n ∷ ns) good),
          legacy_diverges-HeadIs a.assigned_instance_name names fits,
        )

IsNames-good : (names : List Text) → IsNames names → has_bad_names names ≡ false
unfolding has_bad_names
IsNames-good names v =
    let full : length (unique names) ≡ length names =
      ap length (unique_of_Distinct names v.distinct) in
    ground (arith, full, v.filled)

HeadIs-agrees :
    (legacy : Nullish Text) (n : Text) (ns : List Text)
    → HeadIs legacy (n ∷ ns)
    → legacy_diverges legacy (n ∷ ns) ≡ false
unfolding legacy_diverges
HeadIs-agrees undefined n ns h = refl
HeadIs-agrees null n ns h = refl
HeadIs-agrees (value name) n ns h = ground (arith, text_beq_iff (trim name) n)

checked_names-good :
    (names : List Text) → has_bad_names names ≡ false → checked_names names ≡ ok names
unfolding checked_names
checked_names-good names good = ground (arith, good)

listed-again :
    (legacy : Nullish Text) (n : Text) (ns : List Text)
    → map trim (n ∷ ns) ≡ n ∷ ns
    → checked_names (n ∷ ns) ≡ ok (n ∷ ns)
    → legacy_diverges legacy (n ∷ ns) ≡ false
    → ordered_names legacy (some (n ∷ ns)) ≡ ok (n ∷ ns)
unfolding ordered_names
listed-again legacy n ns trimmed good fits =
    ap (λ m. checked_names m >>= after) trimmed ∙ ap (λ r. r >>= after) good ∙ rw fits
  where
    after : List Text → Result (List Text)
    after names = throw_if (legacy_diverges legacy names) instance_assignment_invalid >> ok names

-- A list of at least one name that is read from a group reads as itself when it is stored as the
-- group's ordered list, whether it came from such a list or from the legacy name.
pub get_ordered-stored :
    (a : Assignment) (n : Text) (ns : List Text)
    → get_ordered_assigned_instance_names a ≡ ok (n ∷ ns)
    → get_ordered_assigned_instance_names (record a { assigned_instance_names = some (n ∷ ns) })
      ≡ ok (n ∷ ns)
unfolding get_ordered_assigned_instance_names
get_ordered-stored a n ns h =
    let (valid, head) = get_ordered-IsNames a (n ∷ ns) h in
    listed-again a.assigned_instance_name n ns valid.trimmed
      (checked_names-good (n ∷ ns) (IsNames-good (n ∷ ns) valid))
      (HeadIs-agrees a.assigned_instance_name n ns head)
