-- ===== src/Schedule/WellFormed.antt =====
-- What an accepted update leaves of the schedule, from `updateScheduleSettings` of
-- apps/api/src/commercial-automation-policy-service.ts.
use mathlib.Core.Path.{subst}
use afiliado_shopee.Prelude.{
  ℕ, ◌+◌, ◌≤◌, Bool, true, false, not, ◌≡◌, ◌≢◌, refl, inl, inr, sym, ◌∙◌, Option, none, some, Text,
  text_eq, nat_eq, ◌==◌, Result, ok, ◌>>◌, throw_if, Code, Nullish, undefined, null, value, or_else,
  or_null, arith, and_true, schedule_revision_conflict, returned, Bool-cases,
}
use afiliado_shopee.Schedule.{
  PolicyConfig, Settings, EffectiveSchedule, ScheduleUpdate, absent, present, get, JsNumber, whole,
  negative, not_whole, resolve_schedule, assert_schedule_update, safe_within, limit_is_bad,
  daily_limit_max,
}
use afiliado_shopee.Schedule.Clock.{is_time}
use afiliado_shopee.Schedule.Windows.{ZonedDateParts, is_inside_allowed_window, is_inside-same}
use afiliado_shopee.Schedule.Updates.{
  patch, patch_number, is_stored, revision_matches, patched, update_schedule,
  update_schedule_settings,
}

-- A schedule that the planner can work with.
unfoldable pub LimitOk : ℕ → Type 0
LimitOk n = (1 ≤ n) × (n ≤ daily_limit_max)

pub record IsWellFormed (known_timezone : Text → Bool) (e : EffectiveSchedule) : Type 0 where
  pub start : is_time e.allowed_start_time ≡ true
  pub end : is_time e.allowed_end_time ≡ true
  pub timezone : known_timezone e.timezone ≡ true
  pub window : e.allowed_start_time ≢ e.allowed_end_time
  pub interval : (1 ≤ e.minimum_interval_minutes) × (e.minimum_interval_minutes ≤ 1440)
  pub stagger : e.stagger_minutes ≤ 1440
  pub global : LimitOk e.daily_global_limit
  pub group : LimitOk e.daily_group_limit
  pub shopee : LimitOk e.daily_shopee_http_limit
  pub openai : LimitOk e.daily_openai_generation_limit

abbrev is_null {ℓ} : {A : Type ℓ} → Nullish A → Bool
is_null null = true
is_null _ = false

guard {ℓ} :
    {A : Type ℓ} (b : Bool) (c : Code) (k : Result A) {x : A}
    → (throw_if b c >> k) ≡ ok x
    → (b ≡ false) × (k ≡ ok x)
guard b c k h = ground arith

unfoldable pub NoNull : ScheduleUpdate → Type 0
NoNull u =
    (is_null (get u.allowed_start_time) ≡ false)
    × (is_null (get u.allowed_end_time) ≡ false)
    × (is_null (get u.timezone) ≡ false)
    × (is_null (get u.minimum_interval_minutes) ≡ false)
    × (is_null (get u.stagger_minutes) ≡ false)
    × (is_null (get u.daily_global_limit) ≡ false)
    × (is_null (get u.daily_group_limit) ≡ false)
    × (is_null (get u.daily_shopee_http_limit) ≡ false)
    × (is_null (get u.daily_openai_generation_limit) ≡ false)

-- A column that is not cleared has, after the update, the value that was tested.
patch-value {ℓ} :
    {A : Type ℓ} (n : Nullish A) (old : Option A) (d : A)
    → is_null n ≡ false
    → or_else (or_null n) (or_else old d) ≡ or_else (patch n old) d
patch-value undefined old d h = refl
patch-value null old d h = cc
patch-value (value a) old d h = refl

patch_number-within :
    (lo hi : ℕ) (n : Nullish JsNumber) (old : Option ℕ) (d : ℕ)
    → is_null n ≡ false
    → is_stored n ≡ true
    → safe_within lo hi (or_else (or_null n) (whole (or_else old d))) ≡ true
    → (lo ≤ or_else (patch_number n old) d) × (or_else (patch_number n old) d ≤ hi)
patch_number-within lo hi undefined old d h s w = (ground arith, ground arith)
patch_number-within lo hi null old d h s w = cc
patch_number-within lo hi (value (whole n)) old d h s w = (ground arith, ground arith)
patch_number-within lo hi (value (negative n)) old d h s w = cc
patch_number-within lo hi (value not_whole) old d h s w = cc

-- `d` and `d'` are the defaults before and after the update.
patch_number-LimitOk :
    (n : Nullish JsNumber) (old : Option ℕ) (d d' : ℕ)
    → is_null n ≡ false
    → limit_is_bad n ≡ false
    → LimitOk (or_else old d)
    → (old ≡ none → LimitOk d')
    → LimitOk (or_else (patch_number n old) d')
unfolding LimitOk
patch_number-LimitOk undefined none d d' h b l l' = l' refl
patch_number-LimitOk undefined (some a) d d' h b l l' = l
patch_number-LimitOk null old d d' h b l l' = cc
patch_number-LimitOk (value (whole n)) old d d' h b l l' = (ground arith, ground arith)
patch_number-LimitOk (value (negative n)) old d d' h b l l' = cc
patch_number-LimitOk (value not_whole) old d d' h b l l' = cc

limit_keeps :
    (n : Nullish JsNumber) (old : Option ℕ) (d : ℕ)
    → is_null n ≡ false
    → limit_is_bad n ≡ false
    → LimitOk (or_else old d)
    → LimitOk (or_else (patch_number n old) d)
limit_keeps n old d h b l =
    patch_number-LimitOk n old d d h b l (λ e. subst (λ o. LimitOk (or_else o d)) e l)

not-false : (b : Bool) → not b ≡ false → b ≡ true
not-false b h = ground arith

-- What the tests of an accepted update say.
record IsAccepted (known_timezone : Text → Bool) (u : ScheduleUpdate) (e : EffectiveSchedule)
    : Type 0 where
  start : is_time (or_else (or_null (get u.allowed_start_time)) e.allowed_start_time) ≡ true
  end : is_time (or_else (or_null (get u.allowed_end_time)) e.allowed_end_time) ≡ true
  timezone : known_timezone (or_else (or_null (get u.timezone)) e.timezone) ≡ true
  window :
      (or_else (or_null (get u.allowed_start_time)) e.allowed_start_time
        == or_else (or_null (get u.allowed_end_time)) e.allowed_end_time)
      ≡ false
  interval :
      safe_within 1 1440
        (or_else (or_null (get u.minimum_interval_minutes)) (whole e.minimum_interval_minutes))
      ≡ true
  global : limit_is_bad (get u.daily_global_limit) ≡ false
  group : limit_is_bad (get u.daily_group_limit) ≡ false
  shopee : limit_is_bad (get u.daily_shopee_http_limit) ≡ false
  openai : limit_is_bad (get u.daily_openai_generation_limit) ≡ false
  stagger :
      safe_within 0 1440 (or_else (or_null (get u.stagger_minutes)) (whole e.stagger_minutes))
      ≡ true

assert_schedule_update-IsAccepted :
    (known_timezone : Text → Bool) (u : ScheduleUpdate) (e : EffectiveSchedule) {x : Unit {0}}
    → assert_schedule_update known_timezone u e ≡ ok x
    → IsAccepted known_timezone u e
unfolding assert_schedule_update
assert_schedule_update-IsAccepted known_timezone u e h =
    let (_, h1) = guard _ _ _ h in
    let (start, h2) = guard _ _ _ h1 in
    let (end, h3) = guard _ _ _ h2 in
    let (zone, h4) = guard _ _ _ h3 in
    let (window, h5) = guard _ _ _ h4 in
    let (interval, h6) = guard _ _ _ h5 in
    let (global, h7) = guard _ _ _ h6 in
    let (group, h8) = guard _ _ _ h7 in
    let (shopee, h9) = guard _ _ _ h8 in
    let (openai, h10) = guard _ _ _ h9 in
    let (stagger, _) = guard _ _ _ h10 in
    record {
      start = not-false _ start;
      end = not-false _ end;
      timezone = not-false _ zone;
      window = window;
      interval = not-false _ interval;
      global = global;
      group = group;
      shopee = shopee;
      openai = openai;
      stagger = not-false _ stagger;
    }

update_schedule-is_stored :
    (u : ScheduleUpdate) (now : ℕ) (s s' : Settings)
    → update_schedule u now s ≡ ok s'
    → (is_stored (get u.minimum_interval_minutes) ≡ true)
      × (is_stored (get u.stagger_minutes) ≡ true)
unfolding update_schedule
update_schedule-is_stored u now s s' h =
    let (stored, _) = guard _ _ _ h in
    let (interval, rest) = and_true _ _ (not-false _ stored) in
    let (stagger, _) = and_true _ _ rest in (interval, stagger)

ok-injective {ℓ} : {A : Type ℓ} {a b : A} → ok a ≡ ok b → a ≡ b
ok-injective h = cc

update_schedule-eq :
    (u : ScheduleUpdate) (now : ℕ) (s s' : Settings)
    → update_schedule u now s ≡ ok s'
    → patched u now s ≡ s'
unfolding update_schedule
update_schedule-eq u now s s' h =
    let (_, h1) = guard _ _ _ h in
    let (_, h2) =
      guard (not (revision_matches u.expected_revision s.schedule_revision))
        schedule_revision_conflict (ok (patched u now s)) h1 in
    ok-injective h2

different {ℓ} : {A : Type ℓ} → true ≡ false → A
different h = cc

patched-IsWellFormed :
    (known_timezone : Text → Bool) (config : PolicyConfig) (u : ScheduleUpdate) (now : ℕ)
    (s : Settings)
    → NoNull u
    → IsWellFormed known_timezone (resolve_schedule config s)
    → IsAccepted known_timezone u (resolve_schedule config s)
    → is_stored (get u.minimum_interval_minutes) ≡ true
    → is_stored (get u.stagger_minutes) ≡ true
    → IsWellFormed known_timezone (resolve_schedule config (patched u now s))
unfolding patched resolve_schedule NoNull
patched-IsWellFormed known_timezone config u now s (n1, n2, n3, n4, n5, n6, n7, n8, n9) w a i1 i2 =
    let start =
      patch-value (get u.allowed_start_time) s.allowed_start_time config.allowed_start_time n1 in
    let end = patch-value (get u.allowed_end_time) s.allowed_end_time config.allowed_end_time n2 in
    let zone = patch-value (get u.timezone) s.timezone config.timezone n3 in
    let (_, stagger) =
      patch_number-within 0 1440 (get u.stagger_minutes) s.stagger_minutes 0 n5 i2 a.stagger in
    let global =
      limit_keeps (get u.daily_global_limit) s.daily_global_limit config.daily_global_limit n6
        a.global w.global in
    record {
      start = subst (λ x. is_time x ≡ true) start a.start;
      end = subst (λ x. is_time x ≡ true) end a.end;
      timezone = subst (λ x. known_timezone x ≡ true) zone a.timezone;
      window =
          λ same. different (sym (((text_eq).beq_iff _ _).1 (start ∙ same ∙ sym end)) ∙ a.window);
      interval =
          patch_number-within 1 1440 (get u.minimum_interval_minutes) s.minimum_interval_minutes
            config.minimum_interval_minutes n4 i1 a.interval;
      stagger = stagger;
      global = global;
      group =
          limit_keeps (get u.daily_group_limit) s.daily_group_limit config.daily_group_limit n7
            a.group w.group;
      shopee =
          patch_number-LimitOk (get u.daily_shopee_http_limit) s.daily_shopee_http_limit _ _ n8
            a.shopee w.shopee (λ _. global);
      openai =
          patch_number-LimitOk (get u.daily_openai_generation_limit) s.daily_openai_generation_limit
            _ _ n9 a.openai w.openai (λ _. global);
    }

-- An update that clears no field and is accepted leaves a well-formed schedule, if the schedule was
-- well-formed before it, and the revision is one higher.
pub update_schedule_settings-IsWellFormed :
    (known_timezone : Text → Bool) (config : PolicyConfig) (u : ScheduleUpdate) (now : ℕ)
    (s s' : Settings)
    → NoNull u
    → IsWellFormed known_timezone (resolve_schedule config s)
    → update_schedule_settings known_timezone config u now s ≡ ok s'
    → IsWellFormed known_timezone (resolve_schedule config s')
      × (s'.schedule_revision ≡ s.schedule_revision + 1)
unfolding update_schedule_settings patched
update_schedule_settings-IsWellFormed known_timezone config u now s s' n w h =
    let (_, accepted, stored) = returned _ _ h in
    let (interval, stagger) = update_schedule-is_stored u now s s' stored in
    let a =
      assert_schedule_update-IsAccepted known_timezone u (resolve_schedule config s) accepted in
    subst
      (λ x.
        IsWellFormed known_timezone (resolve_schedule config x)
        × (x.schedule_revision ≡ s.schedule_revision + 1))
      (update_schedule-eq u now s s' stored)
      (patched-IsWellFormed known_timezone config u now s n w a interval stagger, refl)

safe_of_bounds : (lo n : ℕ) → lo ≤ n → n ≤ 1440 → safe_within lo 1440 (whole n) ≡ true
safe_of_bounds lo n h l = ground arith

abbrev pub clear_start : ScheduleUpdate
clear_start = record {
  allowed_start_time = present null;
  allowed_end_time = absent;
  timezone = absent;
  minimum_interval_minutes = absent;
  stagger_minutes = absent;
  daily_global_limit = absent;
  daily_group_limit = absent;
  daily_shopee_http_limit = absent;
  daily_openai_generation_limit = absent;
  expected_revision = none;
}

-- From a well-formed schedule whose stored end time is the configured start time, a client that
-- clears the start time is not refused. The window then starts and ends at one time, and every
-- instant is inside it.
pub clear_start-never_closed :
    (known_timezone : Text → Bool) (config : PolicyConfig) (now : ℕ) (s : Settings)
    → IsWellFormed known_timezone (resolve_schedule config s)
    → s.allowed_end_time ≡ some config.allowed_start_time
    → (s' : Settings) × (update_schedule_settings known_timezone config clear_start now s ≡ ok s')
      × ((zoned : Text → ℕ → ZonedDateParts) (date : ℕ)
          → is_inside_allowed_window zoned date
              (resolve_schedule config s').timezone
              (resolve_schedule config s').allowed_start_time
              (resolve_schedule config s').allowed_end_time
            ≡ true)
unfolding update_schedule_settings assert_schedule_update update_schedule patched resolve_schedule
clear_start-never_closed known_timezone config now s w e =
    let differ : (or_else s.allowed_start_time config.allowed_start_time
          == or_else s.allowed_end_time config.allowed_end_time)
        ≡ false =
      elim (Bool-cases (
        or_else s.allowed_start_time config.allowed_start_time
        == or_else s.allowed_end_time config.allowed_end_time)) [
          | inl b ↦ absurd (w.window ((text_eq.beq_iff _ _).0 b))
          | inr b ↦ b
        ] in
    let (i1, i2) = w.interval in
    let interval : safe_within 1 1440
          (whole (or_else s.minimum_interval_minutes config.minimum_interval_minutes))
        ≡ true =
      safe_of_bounds 1 _ i1 i2 in
    let stagger : safe_within 0 1440 (whole (or_else s.stagger_minutes 0)) ≡ true =
      safe_of_bounds 0 _ (omega arith) w.stagger in
    (
      patched clear_start now s,
      rw (w.start, w.end, w.timezone, differ, interval, stagger) refl,
      λ zoned date. rw (e) (
          is_inside-same zoned date (or_else s.timezone config.timezone) config.allowed_start_time
            (subst (λ o. is_time (or_else o config.allowed_end_time) ≡ true) e w.end)),
    )
