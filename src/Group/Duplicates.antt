-- ===== src/Group/Duplicates.antt =====
-- What `duplicateLogicalGroupFingerprints` lists.
use mathlib.Core.Path.{subst}
use afiliado_shopee.Prelude.{
  ℕ, ◌+◌, Bool, true, false, ◌&&◌, ◌||◌, ◌≡◌, refl, ◌∙◌, ap, List, [], ◌∷◌, map, Text, text_eq,
  text_beq_iff, includes, select, ltb, arith, ◌==◌, Bool-cases, inl, inr, if◌then◌else◌, Distinct,
}
use afiliado_shopee.Group.{
  GroupRecord, Counts, bump_count, count_fingerprints, insert_text, sort_texts, text_before,
  repeated, key, duplicate_logical_group_fingerprints,
}

-- How many groups have the fingerprint.
pub occurrences : Text → List GroupRecord → ℕ
occurrences f [] = 0
occurrences f (g ∷ gs) = (if g.fingerprint == f then 1 else 0) + occurrences f gs

-- The count that a map has for a key, and 0 where it has none.
stored : Text → Counts → ℕ
stored f [] = 0
stored f ((j, n) ∷ counts) = if j == f then n else stored f counts

stored-bump_count :
    (f k : Text) (counts : Counts)
    → stored f (bump_count k counts) ≡ (if k == f then 1 else 0) + stored f counts
unfolding stored bump_count
stored-bump_count f k [] = ground arith
stored-bump_count f k ((j, n) ∷ counts) =
    ground
      (arith, text_beq_iff j k, text_beq_iff j f, text_beq_iff k f, stored-bump_count f k counts)

stored-count_fingerprints :
    (f : Text) (gs : List GroupRecord) (counts : Counts)
    → stored f (count_fingerprints gs counts) ≡ occurrences f gs + stored f counts
unfolding occurrences count_fingerprints
stored-count_fingerprints f [] counts = omega arith
stored-count_fingerprints f (g ∷ gs) counts = omega (
  arith,
  stored-count_fingerprints f gs (bump_count g.fingerprint counts),
  stored-bump_count f g.fingerprint counts,
)

-- A map has each key once.
abbrev keys : Counts → List Text
keys = map key

includes-bump_count :
    (f k : Text) (counts : Counts)
    → includes (keys (bump_count k counts)) f ≡ ((k == f) || includes (keys counts) f)
unfolding bump_count
includes-bump_count f k [] = refl
includes-bump_count f k ((j, n) ∷ counts) =
    ground
      (arith, text_beq_iff j k, text_beq_iff j f, text_beq_iff k f, includes-bump_count f k counts)

bump_count-Distinct :
    (k : Text) (counts : Counts) → Distinct (keys counts) → Distinct (keys (bump_count k counts))
unfolding bump_count
bump_count-Distinct k [] h = (refl, tt)
bump_count-Distinct k ((j, n) ∷ counts) h = elim (Bool-cases (j == k)) [
  | inl same ↦ rw same h
  | inr other ↦ rw other (
    rw (includes-bump_count j k counts) (ground (arith, h.0, text_beq_iff j k, text_beq_iff k j)),
    bump_count-Distinct k counts h.1,
  )
]

count_fingerprints-Distinct :
    (gs : List GroupRecord) (counts : Counts)
    → Distinct (keys counts)
    → Distinct (keys (count_fingerprints gs counts))
unfolding count_fingerprints
count_fingerprints-Distinct [] counts h = h
count_fingerprints-Distinct (g ∷ gs) counts h =
    count_fingerprints-Distinct gs (bump_count g.fingerprint counts)
      (bump_count-Distinct g.fingerprint counts h)

stored_of_absent :
    (f : Text) (counts : Counts) → includes (keys counts) f ≡ false → stored f counts ≡ 0
unfolding stored
stored_of_absent f [] h = refl
stored_of_absent f ((j, n) ∷ counts) h = ground (arith, stored_of_absent f counts)

includes-keys-repeated :
    (f : Text) (counts : Counts)
    → Distinct (keys counts)
    → includes (keys (select repeated counts)) f ≡ ltb 1 (stored f counts)
unfolding stored
includes-keys-repeated f [] h = refl
includes-keys-repeated f ((j, n) ∷ counts) h = elim (Bool-cases (j == f)) [
  | inl same ↦
      let gone : stored f counts ≡ 0 =
        stored_of_absent f counts
          (subst (λ k. includes (keys counts) k ≡ false) ((text_beq_iff j f).0 same) h.0) in
      ground (arith, includes-keys-repeated f counts h.1, gone, same)
  | inr other ↦ ground (arith, includes-keys-repeated f counts h.1)
]

includes-insert_text :
    (f t : Text) (ts : List Text) → includes (insert_text t ts) f ≡ ((t == f) || includes ts f)
unfolding insert_text
includes-insert_text f t [] = refl
includes-insert_text f t (u ∷ us) = ground (arith, includes-insert_text f t us)

includes-sort_texts : (f : Text) (ts : List Text) → includes (sort_texts ts) f ≡ includes ts f
unfolding sort_texts
includes-sort_texts f [] = refl
includes-sort_texts f (t ∷ ts) =
    includes-insert_text f t (sort_texts ts) ∙ ap (λ b. (t == f) || b) (includes-sort_texts f ts)

text_before_total : (s t : Text) → text_before s t ≡ false → text_before t s ≡ true
unfolding text_before
text_before_total [] t h = cc
text_before_total (a ∷ s) [] h = refl
text_before_total (a ∷ s) (b ∷ t) h = ground (arith, text_before_total s t)

abbrev head_after : Text → List Text → Bool
head_after s [] = true
head_after s (t ∷ ts) = text_before s t

pub in_order : List Text → Bool
in_order [] = true
in_order (s ∷ ss) = head_after s ss && in_order ss

insert_text-in_order :
    (s : Text) (ts : List Text)
    → in_order ts ≡ true
    → (in_order (insert_text s ts) ≡ true)
      × ((r : Text)
          → text_before r s ≡ true
          → head_after r ts ≡ true
          → head_after r (insert_text s ts) ≡ true)
unfolding in_order insert_text
insert_text-in_order s [] h = (refl, λ r p q. p)
insert_text-in_order s (t ∷ ts) h = elim (Bool-cases (text_before s t)) [
  | inl first ↦ rw first (ground arith, λ r p q. p)
  | inr later ↦
      let (rest, above) = insert_text-in_order s ts (ground arith) in
      let follows : head_after t (insert_text s ts) ≡ true =
        above t (text_before_total s t later) (ground arith) in
      rw later (ground (arith, rest, follows), λ r p q. q)
]

sort_texts-in_order : (ts : List Text) → in_order (sort_texts ts) ≡ true
unfolding in_order sort_texts
sort_texts-in_order [] = refl
sort_texts-in_order (t ∷ ts) = (insert_text-in_order t (sort_texts ts) (sort_texts-in_order ts)).0

-- The list names a fingerprint exactly when two groups or more have it, and it is in the order of
-- the code units.
pub includes-duplicates :
    (gs : List GroupRecord) (f : Text)
    → (includes (duplicate_logical_group_fingerprints gs) f ≡ ltb 1 (occurrences f gs))
      × (in_order (duplicate_logical_group_fingerprints gs) ≡ true)
unfolding duplicate_logical_group_fingerprints stored
includes-duplicates gs f =
    let counts = count_fingerprints gs [] in
    let found : stored f counts ≡ occurrences f gs =
      stored-count_fingerprints f gs [] ∙ omega arith in
    (
      includes-sort_texts f (keys (select repeated counts))
          ∙ includes-keys-repeated f counts (count_fingerprints-Distinct gs [] tt)
          ∙ ap (ltb 1) found,
      sort_texts-in_order (keys (select repeated counts)),
    )
