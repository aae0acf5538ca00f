-- ===== src/Schedule.antt =====
-- The commercial schedule: effective settings, the validation of an update, windows of local time
-- and the local day. From apps/api/src/commercial-automation-policy-service.ts. Instants are
-- milliseconds since 1970.
pub mod Clock
pub mod Windows
pub mod Opening
pub mod Days
pub mod Updates
pub mod WellFormed
pub mod Pause
use afiliado_shopee.Prelude.{
  ℕ, zero, suc, ◌+◌, ◌-◌, ◌*◌, ◌^◌, Bool, true, false, ◌&&◌, ◌||◌, not, Option, none, some, List,
  [], ◌∷◌, Text, text_eq, ◌==◌, every, leb, ltb, Result, ok, err, ◌>>=◌, ◌>>◌, throw_if, Nullish,
  undefined, null, value, or_else, or_null, schedule_invalid, if◌then◌else◌,
}
use Clock.{is_time}

pub record PolicyConfig : Type 0 where
  pub enabled : Bool
  pub timezone : Text
  pub allowed_start_time : Text
  pub allowed_end_time : Text
  pub daily_global_limit : ℕ
  pub daily_group_limit : ℕ
  pub minimum_interval_minutes : ℕ

-- The columns of the settings that the policy and the planner read.
pub record Settings : Type 0 where
  pub paused : Bool
  pub paused_at : Option ℕ
  pub resumed_at : Option ℕ
  pub allowed_start_time : Option Text
  pub allowed_end_time : Option Text
  pub timezone : Option Text
  pub minimum_interval_minutes : Option ℕ
  pub stagger_minutes : Option ℕ
  pub daily_global_limit : Option ℕ
  pub daily_group_limit : Option ℕ
  pub daily_shopee_http_limit : Option ℕ
  pub daily_openai_generation_limit : Option ℕ
  pub schedule_revision : ℕ
  pub updated_at : ℕ

pub record EffectiveSchedule : Type 0 where
  pub timezone : Text
  pub allowed_start_time : Text
  pub allowed_end_time : Text
  pub daily_global_limit : ℕ
  pub daily_group_limit : ℕ
  pub daily_shopee_http_limit : ℕ
  pub daily_openai_generation_limit : ℕ
  pub minimum_interval_minutes : ℕ
  pub stagger_minutes : ℕ
  pub schedule_revision : ℕ

unfoldable pub resolve_schedule : PolicyConfig → Settings → EffectiveSchedule
resolve_schedule config settings = record {
  timezone = or_else settings.timezone config.timezone;
  allowed_start_time = or_else settings.allowed_start_time config.allowed_start_time;
  allowed_end_time = or_else settings.allowed_end_time config.allowed_end_time;
  daily_global_limit = or_else settings.daily_global_limit config.daily_global_limit;
  daily_group_limit = or_else settings.daily_group_limit config.daily_group_limit;
  daily_shopee_http_limit =
      or_else settings.daily_shopee_http_limit
        (or_else settings.daily_global_limit config.daily_global_limit);
  daily_openai_generation_limit =
      or_else settings.daily_openai_generation_limit
        (or_else settings.daily_global_limit config.daily_global_limit);
  minimum_interval_minutes =
      or_else settings.minimum_interval_minutes config.minimum_interval_minutes;
  stagger_minutes = or_else settings.stagger_minutes 0;
  schedule_revision = settings.schedule_revision;
}

unfoldable pub fallback_settings : ℕ → Settings
fallback_settings now = record {
  paused = true;
  paused_at = some now;
  resumed_at = none;
  allowed_start_time = none;
  allowed_end_time = none;
  timezone = none;
  minimum_interval_minutes = none;
  stagger_minutes = none;
  daily_global_limit = none;
  daily_group_limit = none;
  daily_shopee_http_limit = none;
  daily_openai_generation_limit = none;
  schedule_revision = 0;
  updated_at = now;
}

-- A number that a client sends: a natural number, a negative one, or one that is not whole (a
-- fraction, an infinity or NaN). A negative fraction is not whole.
pub data JsNumber : Type 0 where
  whole : ℕ → JsNumber
  negative : ℕ → JsNumber
  not_whole : JsNumber

-- A property of an object: it is not there, or it is, with a value that may be undefined.
pub data Property {ℓ} (A : Type ℓ) : Type ℓ where
  absent : Property A
  present : Nullish A → Property A

pub record ScheduleUpdate : Type 0 where
  pub allowed_start_time : Property Text
  pub allowed_end_time : Property Text
  pub timezone : Property Text
  pub minimum_interval_minutes : Property JsNumber
  pub stagger_minutes : Property JsNumber
  pub daily_global_limit : Property JsNumber
  pub daily_group_limit : Property JsNumber
  pub daily_shopee_http_limit : Property JsNumber
  pub daily_openai_generation_limit : Property JsNumber
  pub expected_revision : Option JsNumber

-- `key in object`.
abbrev pub is_in {ℓ} : {A : Type ℓ} → Property A → Bool
is_in absent = false
is_in (present a) = true

-- `object[key]`.
abbrev pub get {ℓ} : {A : Type ℓ} → Property A → Nullish A
get absent = undefined
get (present a) = a

abbrev pub max_safe_integer : ℕ
max_safe_integer = 2 ^ 53 - 1

abbrev pub daily_limit_max : ℕ
daily_limit_max = 1000000

-- `Number.isSafeInteger(n) && n >= lo && n <= hi`, for a bound `lo` that is not negative.
abbrev pub safe_within : ℕ → ℕ → JsNumber → Bool
safe_within lo hi (whole n) = leb n max_safe_integer && (leb lo n && leb n hi)
safe_within lo hi _ = false

abbrev pub limit_is_bad : Nullish JsNumber → Bool
limit_is_bad (value n) = not (safe_within 1 daily_limit_max n)
limit_is_bad _ = false

abbrev revision_is_bad : Option JsNumber → Bool
revision_is_bad none = false
revision_is_bad (some n) = not (safe_within 0 max_safe_integer n)

unfoldable pub has_schedule_field : ScheduleUpdate → Bool
has_schedule_field u =
    is_in u.allowed_start_time
    || (is_in u.allowed_end_time
        || (is_in u.timezone
            || (is_in u.minimum_interval_minutes
                || (is_in u.stagger_minutes
                    || (is_in u.daily_global_limit
                        || (is_in u.daily_group_limit
                            || (is_in u.daily_shopee_http_limit
                                || is_in u.daily_openai_generation_limit)))))))

-- `known_timezone` is whether `Intl.DateTimeFormat` takes a time zone.
unfoldable pub assert_schedule_update :
    (Text → Bool) → ScheduleUpdate → EffectiveSchedule → Result (Unit {0})
unfolding has_schedule_field
assert_schedule_update known_timezone u e = do
  throw_if (not (has_schedule_field u)) schedule_invalid
  let start = or_else (or_null (get u.allowed_start_time)) e.allowed_start_time
  let end = or_else (or_null (get u.allowed_end_time)) e.allowed_end_time
  throw_if (not (is_time start)) schedule_invalid
  throw_if (not (is_time end)) schedule_invalid
  throw_if (not (known_timezone (or_else (or_null (get u.timezone)) e.timezone))) schedule_invalid
  throw_if (start == end) schedule_invalid
  throw_if
      (not (
        safe_within 1 1440
          (or_else (or_null (get u.minimum_interval_minutes)) (whole e.minimum_interval_minutes))))
      schedule_invalid
  throw_if (limit_is_bad (get u.daily_global_limit)) schedule_invalid
  throw_if (limit_is_bad (get u.daily_group_limit)) schedule_invalid
  throw_if (limit_is_bad (get u.daily_shopee_http_limit)) schedule_invalid
  throw_if (limit_is_bad (get u.daily_openai_generation_limit)) schedule_invalid
  throw_if
      (not
        (safe_within 0 1440 (or_else (or_null (get u.stagger_minutes)) (whole e.stagger_minutes))))
      schedule_invalid
  throw_if (revision_is_bad u.expected_revision) schedule_invalid
  ok tt
