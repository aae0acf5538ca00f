-- ===== src/Group.antt =====
-- The selection of commercial groups (apps/api/src/commercial-group-selection.ts), the identity of a
-- WhatsApp group (packages/providers/src/whatsapp-group-directory.ts) and the policy that lets a
-- message go to a group (apps/api/src/whatsapp-group-send-policy.ts).
pub mod Duplicates
pub mod Authorized
use afiliado_shopee.Prelude.{
  ℕ, zero, suc, ◌+◌, Bool, true, false, ◌&&◌, ◌||◌, not, Option, none, some, List, [], ◌∷◌, ◌++◌,
  map, Text, text_eq, codes, ◌==◌, every, any, select, length, nat_beq, leb, ltb, trim, take,
  Result, ok, err, ◌>>=◌, ◌>>◌, throw_if, Nullish, undefined, null, value, or_else, or_null,
  is_true, is_some, if◌then◌else◌, option_eq, group_id_invalid, group_send_disabled,
  group_safe_mode_required, group_unavailable, group_not_authorized, group_paused,
  group_instance_mismatch, group_identity_mismatch,
}
use afiliado_shopee.Instance.{Assignment, is_commercial_instance_assigned}

pub data DestinationType : Type 0 where
  individual group : DestinationType

abbrev pub is_group : DestinationType → Bool
is_group group = true
is_group individual = false

pub record GroupRecord : Type 0 where
  pub id : Text
  pub name : Text
  pub destination : Text
  pub kind : DestinationType
  pub active : Bool
  pub paused : Option Bool
  pub available : Bool
  pub fingerprint : Text
  pub source_instance_name : Text
  pub assignment : Assignment
  pub open assignment use *
  pub assignment_revision : Option ℕ

abbrev pub is_digit : ℕ → Bool
is_digit c = leb b'0' c && leb c b'9'

abbrev pub is_hex : ℕ → Bool
is_hex c = (leb b'a' c && leb c b'f') || is_digit c

-- /^grp_[a-f0-9]{12}$/
unfoldable pub is_group_fingerprint : Text → Bool
is_group_fingerprint (g ∷ r ∷ p ∷ u ∷ hex) =
    (g ∷ r ∷ p ∷ u ∷ []) == codes "grp_" && (nat_beq (length hex) 12 && every is_hex hex)
is_group_fingerprint _ = false

abbrev pub operational : GroupRecord → Bool
operational g = is_group g.kind && (g.active && (not (is_true g.paused) && g.available))

abbrev legacy_allows : Nullish Text → Text → Bool
legacy_allows (value name) instance_name = name == instance_name
legacy_allows _ instance_name = true

unfoldable pub is_commercial_authorized_group : GroupRecord → Text → Bool
unfolding is_group_fingerprint
is_commercial_authorized_group g name =
    operational g
    && (g.source_instance_name == name
        && ((if is_some g.assigned_instance_names
              then is_commercial_instance_assigned g.assignment name
              else legacy_allows g.assigned_instance_name name)
            && is_group_fingerprint g.fingerprint))

unfoldable pub is_commercial_assigned_group : GroupRecord → Text → Bool
unfolding is_group_fingerprint
is_commercial_assigned_group g name =
    operational g
    && (is_commercial_instance_assigned g.assignment name && is_group_fingerprint g.fingerprint)

-- A `Map` from fingerprints to counts, in order of insertion.
abbrev pub Counts : Type 0
Counts = List (Text × ℕ)

unfoldable pub bump_count : Text → Counts → Counts
bump_count k [] = (k, 1) ∷ []
bump_count k ((j, n) ∷ counts) =
    if j == k then (j, n + 1) ∷ counts else (j, n) ∷ bump_count k counts

unfoldable pub count_fingerprints : List GroupRecord → Counts → Counts
unfolding bump_count
count_fingerprints [] counts = counts
count_fingerprints (g ∷ gs) counts = count_fingerprints gs (bump_count g.fingerprint counts)

-- The order of `sort` on strings, by code units.
unfoldable pub text_before : Text → Text → Bool
text_before [] t = true
text_before (a ∷ s) [] = false
text_before (a ∷ s) (b ∷ t) = if nat_beq a b then text_before s t else ltb a b

unfoldable pub insert_text : Text → List Text → List Text
unfolding text_before
insert_text s [] = s ∷ []
insert_text s (t ∷ ts) = if text_before s t then s ∷ t ∷ ts else t ∷ insert_text s ts

unfoldable pub sort_texts : List Text → List Text
unfolding insert_text
sort_texts [] = []
sort_texts (s ∷ ss) = insert_text s (sort_texts ss)

abbrev pub repeated : Text × ℕ → Bool
repeated (k, n) = ltb 1 n

abbrev pub key : Text × ℕ → Text
key (k, n) = k

unfoldable pub duplicate_logical_group_fingerprints : List GroupRecord → List Text
unfolding count_fingerprints sort_texts
duplicate_logical_group_fingerprints groups =
    sort_texts (map key (select repeated (count_fingerprints groups [])))

-- /^\d+(?:-\d+)*@g\.us$/, from inside a run of digits or at the start of one.
unfoldable mutual
  pub in_digits : Text → Bool
  in_digits [] = false
  in_digits (c ∷ s) = elim (is_digit c) [
    | true ↦ in_digits s
    | false ↦ elim (nat_beq c b'-') [
      | true ↦ at_digits s
      | false ↦ nat_beq c b'@' && (s == codes "g.us")
    ]
  ]

  pub at_digits : Text → Bool
  at_digits [] = false
  at_digits (c ∷ s) = elim (is_digit c) [ true ↦ in_digits s | false ↦ false ]

unfoldable pub normalize_whatsapp_group_id : Text → Result Text
unfolding in_digits at_digits
normalize_whatsapp_group_id id =
    let normalized = trim id in if at_digits normalized then ok normalized else err group_id_invalid

-- `sha256_hex` is `createHash('sha256')` of node:crypto, in hexadecimal digits.
unfoldable pub fingerprint_whatsapp_group_id : (Text → Text) → Text → Result Text
fingerprint_whatsapp_group_id sha256_hex id = do
  normalized ← normalize_whatsapp_group_id id
  ok (codes "grp_" ++ take 12 (sha256_hex normalized))

pub record SendPolicyOptions : Type 0 where
  pub enabled : Bool
  pub safe_mode : Bool
  pub instance_name : Option Text

-- The destination of a dispatch; its columns may be null.
pub record SendDestination : Type 0 where
  pub kind : DestinationType
  pub destination : Text
  pub available : Bool
  pub active : Bool
  pub paused : Option Bool
  pub fingerprint : Option Text
  pub source_instance_name : Option Text
  pub assignment : Assignment
  pub open assignment use *

-- `expectedInstanceName ?? this.options.instanceName`.
abbrev pub first_some : Option Text → Option Text → Option Text
first_some none b = b
first_some (some a) b = some a

abbrev pub is_blank : Option Text → Bool
is_blank none = true
is_blank (some []) = true
is_blank (some (c ∷ s)) = false

unfoldable pub send_assignment_matches : SendDestination → Option Text → Bool
send_assignment_matches d name =
    if is_some d.assigned_instance_names
    then is_commercial_instance_assigned d.assignment (or_else name [])
    else first_some (or_null d.assigned_instance_name) d.source_instance_name == name

unfoldable pub assert_authorized :
    (Text → Text) → SendPolicyOptions → SendDestination → Option Text → Result (Unit {0})
assert_authorized sha256_hex o d expected = if not (is_group d.kind) then ok tt else do
  external_group_id ← normalize_whatsapp_group_id d.destination
  fingerprint ← fingerprint_whatsapp_group_id sha256_hex external_group_id
  throw_if (not o.enabled) group_send_disabled
  throw_if (not o.safe_mode) group_safe_mode_required
  throw_if (not d.available) group_unavailable
  throw_if (not d.active) group_not_authorized
  throw_if (is_true d.paused) group_paused
  let name = first_some expected o.instance_name
  throw_if (is_blank name || not (send_assignment_matches d name)) group_instance_mismatch
  throw_if (not (d.fingerprint == some fingerprint)) group_identity_mismatch
  ok tt
