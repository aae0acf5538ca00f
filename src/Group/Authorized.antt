-- ===== src/Group/Authorized.antt =====
-- When a message may go to a group.
use mathlib.Core.Path.{subst, sym}
use afiliado_shopee.Prelude.{
  true, false, ◌≡◌, ◌↔◌, Option, some, Text, text_eq, codes, ◌==◌, trim, trim_idem, take, ◌++◌, ok,
  err, is_true, arith, Bool-cases, inl, inr, option_eq, option_beq_iff, Result-cases, if◌then◌else◌,
  ◌∙◌, group_id_invalid,
}
use afiliado_shopee.Group.{
  is_group, SendPolicyOptions, SendDestination, first_some, is_blank, send_assignment_matches,
  normalize_whatsapp_group_id, fingerprint_whatsapp_group_id, assert_authorized, at_digits,
}

normalize-inv :
    (raw id : Text)
    → normalize_whatsapp_group_id raw ≡ ok id
    → (at_digits (trim raw) ≡ true) × (trim raw ≡ id)
unfolding normalize_whatsapp_group_id
normalize-inv raw id h = elim (Bool-cases (at_digits (trim raw))) [
  | inl good ↦ (good, cc (good, h))
  | inr bad ↦ cc (bad, h)
]

normalize-again :
    (raw id : Text)
    → normalize_whatsapp_group_id raw ≡ ok id
    → normalize_whatsapp_group_id id ≡ ok id
unfolding normalize_whatsapp_group_id
normalize-again raw id h =
    let (good, same) = normalize-inv raw id h in
    subst (λ t. (if at_digits (trim t) then ok (trim t) else err group_id_invalid) ≡ ok t) same
      (rw trim_idem (rw good))

-- A normalized group id is its own normal form, and has the fingerprint of what it came from: grp_
-- and the first twelve characters of its hash.
pub normalize-fingerprint :
    (sha : Text → Text) (raw id : Text)
    → normalize_whatsapp_group_id raw ≡ ok id
    → (normalize_whatsapp_group_id id ≡ ok id)
      × (fingerprint_whatsapp_group_id sha id ≡ fingerprint_whatsapp_group_id sha raw)
      × (fingerprint_whatsapp_group_id sha raw ≡ ok (codes "grp_" ++ take 12 (sha id)))
unfolding fingerprint_whatsapp_group_id
normalize-fingerprint sha raw id h =
    let again = normalize-again raw id h in (again, by_id id again ∙ sym (by_id raw h), by_id raw h)
  where
    by_id :
        (t : Text)
        → normalize_whatsapp_group_id t ≡ ok id
        → fingerprint_whatsapp_group_id sha t ≡ ok (codes "grp_" ++ take 12 (sha id))
    by_id t k = rw k

text_option_iff : (a b : Option Text) → ((a == b) ≡ true) ↔ (a ≡ b)
text_option_iff a b = option_beq_iff text_eq a b

-- All that the policy asks of a group.
abbrev pub MaySend : (Text → Text) → SendPolicyOptions → SendDestination → Option Text → Type 0
MaySend sha o d expected =
    (o.enabled ≡ true)
    × (o.safe_mode ≡ true)
    × (d.available ≡ true)
    × (d.active ≡ true)
    × (is_true d.paused ≡ false)
    × (is_blank (first_some expected o.instance_name) ≡ false)
    × (send_assignment_matches d (first_some expected o.instance_name) ≡ true)
    × ((id : Text) × (normalize_whatsapp_group_id d.destination ≡ ok id)
        × (fingerprint_whatsapp_group_id sha d.destination ≡ ok (codes "grp_" ++ take 12 (sha id)))
        × (d.fingerprint ≡ some (codes "grp_" ++ take 12 (sha id))))

-- A message may go to a destination that is no group. It may go to a group exactly when sending to
-- groups is enabled in safe mode, the group is available, authorized and not paused, the instance
-- is known and assigned to the group, and the stored fingerprint is that of the group's id.
pub assert_authorized_iff :
    (sha : Text → Text) (o : SendPolicyOptions) (d : SendDestination) (expected : Option Text)
    → (is_group d.kind ≡ false → assert_authorized sha o d expected ≡ ok tt)
      × (is_group d.kind ≡ true
          → ((assert_authorized sha o d expected ≡ ok tt) ↔ MaySend sha o d expected))
unfolding assert_authorized
assert_authorized_iff sha o d expected = (λ k. rw k, λ g. (λ h. sound g h, λ m. complete g m))
  where
    sound :
        is_group d.kind ≡ true
        → assert_authorized sha o d expected ≡ ok tt
        → MaySend sha o d expected
    sound g h = elim (Result-cases (normalize_whatsapp_group_id d.destination)) [
      | inl (id, e) ↦
          let (again, same, print) = normalize-fingerprint sha d.destination id e in
          let print' = same ∙ print in
          let mine = text_option_iff d.fingerprint (some (codes "grp_" ++ take 12 (sha id))) in
          (
            ground (arith, e, print'),
            ground (arith, e, print'),
            ground (arith, e, print'),
            ground (arith, e, print'),
            ground (arith, e, print'),
            ground (arith, e, print'),
            ground (arith, e, print'),
            (id, e, print, mine.0 (ground (arith, e, print'))),
          )
      | inr (c, e) ↦ ground (arith, e)
    ]

    complete :
        is_group d.kind ≡ true
        → MaySend sha o d expected
        → assert_authorized sha o d expected ≡ ok tt
    complete g (a, b, c, e, p, n, m, (id, i, f, s)) =
        let (again, same, print) = normalize-fingerprint sha d.destination id i in
        let print' = same ∙ print in
        let mine = (text_option_iff d.fingerprint (some (codes "grp_" ++ take 12 (sha id)))).1 s in
        ground (arith, print', mine)
