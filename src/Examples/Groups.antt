-- ===== src/Examples/Groups.antt =====
-- Concrete groups, their instances and their identity.
use afiliado_shopee.Prelude.{
  true, false, ◌≡◌, ◌↔◌, refl, none, some, List, [], ◌∷◌, ◌++◌, Text, codes, ok, undefined, value,
  includes, map, trim, take, text_eq, option_eq, select,
}
use afiliado_shopee.Instance.{
  Assignment, Directory, StickyIdentity, StickyOptions, filter_executable_commercial_groups,
  assert_commercial_sticky_identity,
}
use afiliado_shopee.Instance.Executable.{can_run, filter_executable-eq-select}
use afiliado_shopee.Instance.Sticky.{Covered, assert_commercial_sticky_identity-ok}
use afiliado_shopee.Group.{
  group, GroupRecord, SendPolicyOptions, SendDestination, is_group, normalize_whatsapp_group_id,
  fingerprint_whatsapp_group_id, assert_authorized,
}
use afiliado_shopee.Group.Authorized.{MaySend, normalize-fingerprint, assert_authorized_iff}

abbrev two_names : Assignment
two_names = record {
  assigned_instance_name = value (codes "i1 ");
  assigned_instance_names = some (codes " i1" ∷ codes "i2" ∷ []);
}

abbrev only_i2 : Directory
only_i2 name = elim (text_eq.beq name (codes "i2")) [
  | true ↦ some (record { name = name; active = true; paused = none })
  | false ↦ none
]

abbrev itself : Assignment → Assignment
itself a = a

filter_executable-eq-select_example :
    (filter_executable_commercial_groups itself (two_names ∷ []) (some only_i2)
      ≡ select (can_run itself only_i2) (two_names ∷ []))
    × (filter_executable_commercial_groups itself (two_names ∷ []) none ≡ [])
filter_executable-eq-select_example = filter_executable-eq-select itself (two_names ∷ []) only_i2

abbrev identity : StickyIdentity
identity = record {
  run_instance_name = value (codes "i1");
  dispatch_instance_name = value (codes "i1");
  outbox_instance_name = value (codes "i1");
  job_instance_name = value (codes "i1");
  destination_assigned_instance_name = undefined;
  destination_assigned_instance_names = some (codes "i2" ∷ codes "i1" ∷ []);
}

abbrev no_options : StickyOptions
no_options = record { allow_legacy_full_null = none; allow_missing_job = none }

assert_commercial_sticky_identity-ok_example :
    Covered (λ v. v ≡ some (codes "i1")) identity no_options
    × ((names : List Text) (n : Text)
        → identity.destination_assigned_instance_names ≡ some names
        → some (codes "i1") ≡ some n
        → includes (map trim names) n ≡ true)
unfolding assert_commercial_sticky_identity trim
assert_commercial_sticky_identity-ok_example =
    assert_commercial_sticky_identity-ok identity no_options (some (codes "i1")) refl

abbrev friends : GroupRecord
friends = record {
  id = codes "g1";
  name = codes "friends";
  destination = codes "55-1@g.us";
  kind = group;
  active = true;
  paused = none;
  available = true;
  fingerprint = codes "grp_0123456789ab";
  source_instance_name = codes "i1";
  assignment = two_names;
  assignment_revision = none;
}

-- A stand-in for the hash.
abbrev hash : Text → Text
hash t = codes "0123456789abcdef"

normalize-fingerprint_example :
    (normalize_whatsapp_group_id (codes "55-1@g.us") ≡ ok (codes "55-1@g.us"))
    × (fingerprint_whatsapp_group_id hash (codes "55-1@g.us")
        ≡ fingerprint_whatsapp_group_id hash (codes " 55-1@g.us"))
    × (fingerprint_whatsapp_group_id hash (codes " 55-1@g.us")
        ≡ ok (codes "grp_" ++ take 12 (hash (codes "55-1@g.us"))))
unfolding normalize_whatsapp_group_id trim
normalize-fingerprint_example =
    normalize-fingerprint hash (codes " 55-1@g.us") (codes "55-1@g.us") refl

abbrev to_friends : SendDestination
to_friends = record {
  kind = group;
  destination = codes "55-1@g.us";
  available = true;
  active = true;
  paused = none;
  fingerprint = some (codes "grp_0123456789ab");
  source_instance_name = some (codes "i1");
  assignment = two_names;
}

abbrev safe : SendPolicyOptions
safe = record { enabled = true; safe_mode = true; instance_name = some (codes "i1") }

assert_authorized_iff_example :
    (is_group to_friends.kind ≡ false → assert_authorized hash safe to_friends none ≡ ok tt)
    × (is_group to_friends.kind ≡ true
        → ((assert_authorized hash safe to_friends none ≡ ok tt)
            ↔ MaySend hash safe to_friends none))
assert_authorized_iff_example = assert_authorized_iff hash safe to_friends none
