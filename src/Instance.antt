-- ===== src/Instance.antt =====
-- The ordered instance assignments of a group and the sticky identity of a commercial lifecycle:
-- apps/api/src/commercial-instance-stickiness.ts. The lists of names are arrays of strings, as their
-- types say; the run-time tests for other values are left out.
pub mod Assigned
pub mod Executable
pub mod Sticky
use afiliado_shopee.Prelude.{
  ℕ, Bool, true, false, ◌&&◌, ◌||◌, not, Option, none, some, List, [], ◌∷◌, ◌++◌, map, Text,
  text_eq, option_eq, ◌==◌, any, every, select, includes, unique, length, nat_beq, trim, Result, ok,
  err, ◌>>=◌, ◌>>◌, throw_if, is_ok, Nullish, undefined, null, value, or_null, or_else, is_true,
  is_some, if◌then◌else◌, instance_lifecycle_mismatch, instance_assignment_required,
  instance_assignment_invalid, instance_inactive,
}

-- The two fields of a group that say which instances may send to it.
pub record Assignment : Type 0 where
  pub assigned_instance_name : Nullish Text
  pub assigned_instance_names : Option (List Text)

abbrev pub is_empty : Text → Bool
is_empty [] = true
is_empty (c ∷ s) = false

-- `names.some((name) => name === '') || new Set(names).size !== names.length`.
unfoldable pub has_bad_names : List Text → Bool
has_bad_names names = any is_empty names || not (nat_beq (length (unique names)) (length names))

unfoldable pub checked_names : List Text → Result (List Text)
unfolding has_bad_names
checked_names names = do throw_if (has_bad_names names) instance_assignment_invalid; ok names

-- The legacy name, if it is a string, has to be the first of the list.
unfoldable pub legacy_diverges : Nullish Text → List Text → Bool
legacy_diverges (value name) (first ∷ rest) = not (trim name == first)
legacy_diverges (value name) [] = true
legacy_diverges _ names = false

unfoldable pub legacy_names : Nullish Text → List Text
legacy_names (value name) = if is_empty (trim name) then [] else trim name ∷ []
legacy_names _ = []

unfoldable pub ordered_names : Nullish Text → Option (List Text) → Result (List Text)
unfolding checked_names legacy_diverges legacy_names
ordered_names legacy none = ok (legacy_names legacy)
ordered_names legacy (some []) = err instance_assignment_invalid
ordered_names legacy (some (n ∷ ns)) = do
  names ← checked_names (map trim (n ∷ ns))
  throw_if (legacy_diverges legacy names) instance_assignment_invalid
  ok names

unfoldable pub get_ordered_assigned_instance_names : Assignment → Result (List Text)
unfolding ordered_names
get_ordered_assigned_instance_names a =
    ordered_names a.assigned_instance_name a.assigned_instance_names

abbrev first_required : List Text → Result Text
first_required [] = err instance_assignment_required
first_required (n ∷ ns) = ok n

unfoldable pub require_assigned_instance_name : Assignment → Result Text
unfolding get_ordered_assigned_instance_names
require_assigned_instance_name a = do
  names ← get_ordered_assigned_instance_names a
  first_required names

-- The list that a `try` with an empty fallback leaves.
abbrev pub names_or_none : Result (List Text) → List Text
names_or_none (ok names) = names
names_or_none (err c) = []

unfoldable pub is_commercial_instance_assigned : Assignment → Text → Bool
unfolding get_ordered_assigned_instance_names
is_commercial_instance_assigned a name =
    includes (names_or_none (get_ordered_assigned_instance_names a)) name

pub record InstanceRecord : Type 0 where
  pub name : Text
  pub active : Bool
  pub paused : Option Bool

abbrev pub Directory : Type 0
Directory = Text → Option InstanceRecord

-- `active === true && paused !== true` of a record that may be missing.
unfoldable pub is_running : Option InstanceRecord → Bool
is_running none = false
is_running (some r) = r.active && not (is_true r.paused)

abbrev find_by_name : Option Directory → Text → Option InstanceRecord
find_by_name none name = none
find_by_name (some find) name = find name

abbrev active_or_throw : Option InstanceRecord → Result InstanceRecord
active_or_throw none = err instance_inactive
active_or_throw (some r) = do throw_if (not r.active || is_true r.paused) instance_inactive; ok r

unfoldable pub assert_active_commercial_instance : Option Directory → Text → Result InstanceRecord
assert_active_commercial_instance instances name = active_or_throw (find_by_name instances name)

-- `filterExecutableCommercialGroups`, for anything that has an assignment.
module _ {ℓ} {G : Type ℓ} (assignment : G → Assignment) where
  abbrev pub assigned_names : G → List Text
  assigned_names g = names_or_none (get_ordered_assigned_instance_names (assignment g))

  abbrev pub all_names : List G → List Text
  all_names [] = []
  all_names (g ∷ gs) = assigned_names g ++ all_names gs

  abbrev pub has_names : G → Bool
  has_names g = elim (assigned_names g) [ [] ↦ false | n ∷ ns ↦ true ]

  unfoldable pub filter_executable_commercial_groups : List G → Option Directory → List G
  unfolding get_ordered_assigned_instance_names is_running
  filter_executable_commercial_groups groups none = []
  filter_executable_commercial_groups groups (some find) =
      let assigned = select has_names groups in
      let active_names = select (λ name. is_running (find name)) (unique (all_names assigned)) in
      select (λ g. any (includes active_names) (assigned_names g)) assigned

-- The sticky identity.
pub record StickyIdentity : Type 0 where
  pub run_instance_name : Nullish Text
  pub dispatch_instance_name : Nullish Text
  pub outbox_instance_name : Nullish Text
  pub job_instance_name : Nullish Text
  pub destination_assigned_instance_name : Nullish Text
  pub destination_assigned_instance_names : Option (List Text)

pub record StickyOptions : Type 0 where
  pub allow_legacy_full_null : Option Bool
  pub allow_missing_job : Option Bool

unfoldable pub normalize_ordered_assignments : List Text → Result (List Text)
unfolding has_bad_names
normalize_ordered_assignments [] = err instance_lifecycle_mismatch
normalize_ordered_assignments (n ∷ ns) = do
  let names = map trim (n ∷ ns)
  throw_if (has_bad_names names) instance_lifecycle_mismatch
  ok names

abbrev pub lifecycle_identity_values : StickyIdentity → List (Option Text)
lifecycle_identity_values i =
    or_null i.run_instance_name
    ∷ or_null i.dispatch_instance_name
    ∷ or_null i.outbox_instance_name
    ∷ or_null i.job_instance_name
    ∷ []

abbrev pub present : Option Text → Bool
present = is_some

-- The values of `commercialStickyIdentityValues`.
abbrev destination_values : Nullish Text → Option (List Text) → List (Option Text)
destination_values undefined none = []
destination_values undefined (some []) = none ∷ []
destination_values undefined (some (n ∷ ns)) = some n ∷ []
destination_values name names = or_null name ∷ []

unfoldable pub sticky_identity_values : StickyIdentity → List (Option Text)
sticky_identity_values i =
    lifecycle_identity_values i
    ++ destination_values i.destination_assigned_instance_name i.destination_assigned_instance_names

unfoldable pub is_legacy_sticky_identity : StickyIdentity → Bool
is_legacy_sticky_identity i = every (λ v. not (present v)) (lifecycle_identity_values i)

abbrev pub ordered_assignments : Option (List Text) → Result (Option (List Text))
ordered_assignments none = ok none
ordered_assignments (some names) = do
  ordered ← normalize_ordered_assignments names
  ok (some ordered)

-- The legacy name of the destination against the head of the ordered list.
abbrev pub destination_diverges : Nullish Text → Option (List Text) → Bool
destination_diverges (value name) (some (first ∷ rest)) = not (trim name == first)
destination_diverges (value name) (some []) = true
destination_diverges _ ordered = false

abbrev pub is_undefined : Nullish Text → Bool
is_undefined undefined = true
is_undefined _ = false

abbrev pub three_values : StickyIdentity → List (Option Text)
three_values i =
    or_null i.run_instance_name
    ∷ or_null i.dispatch_instance_name
    ∷ or_null i.outbox_instance_name
    ∷ []

unfoldable pub lifecycle_values :
    StickyIdentity → StickyOptions → Option (List Text) → List (Option Text)
lifecycle_values i options (some ordered) =
    if is_true options.allow_missing_job || is_undefined i.job_instance_name
    then three_values i
    else lifecycle_identity_values i
lifecycle_values i options none =
    if is_true options.allow_missing_job then three_values i else lifecycle_identity_values i

abbrev pub destination_identity : Nullish Text → Option (List Text) → List (Option Text)
destination_identity name (some ordered) = []
destination_identity undefined none = []
destination_identity name none = or_null name ∷ []

unfoldable pub compared_values :
    StickyIdentity → StickyOptions → Option (List Text) → List (Option Text)
unfolding lifecycle_values
compared_values i options ordered =
    let lifecycle = lifecycle_values i options ordered in
    if any present lifecycle
    then lifecycle ++ destination_identity i.destination_assigned_instance_name ordered
    else lifecycle

abbrev pub first_value : List (Option Text) → Option Text
first_value [] = none
first_value (v ∷ vs) = v

-- `orderedAssignments.includes(lifecycleIdentity)`.
abbrev pub outside_assignments : Option (List Text) → Option Text → Bool
outside_assignments none identity = false
outside_assignments (some ordered) none = true
outside_assignments (some ordered) (some name) = not (includes ordered name)

abbrev pub is_false : Option Bool → Bool
is_false (some false) = true
is_false _ = false

-- The tests on the compared values.
unfoldable pub agree_on :
    StickyOptions → Option (List Text) → List (Option Text) → Result (Option Text)
agree_on options ordered values = do
  let has_null = any (λ v. not (present v)) values
  let has_value = any present values
  throw_if (has_null && has_value) instance_lifecycle_mismatch
  if not has_value && not (is_false options.allow_legacy_full_null) then ok none else do
    throw_if (not has_value || not (nat_beq (length (unique values)) 1)) instance_lifecycle_mismatch
    throw_if (outside_assignments ordered (first_value values)) instance_lifecycle_mismatch
    ok (first_value values)

unfoldable pub assert_commercial_sticky_identity :
    StickyIdentity → StickyOptions → Result (Option Text)
unfolding normalize_ordered_assignments compared_values agree_on
assert_commercial_sticky_identity i options = do
  ordered ← ordered_assignments i.destination_assigned_instance_names
  throw_if (destination_diverges i.destination_assigned_instance_name ordered)
      instance_lifecycle_mismatch
  agree_on options ordered (compared_values i options ordered)
