-- ===== src/Schedule/Updates.antt =====
-- Storing a schedule update: `updateSchedule` of apps/api/src/prisma-repositories.ts and
-- `updateScheduleSettings` of apps/api/src/commercial-automation-policy-service.ts.
use afiliado_shopee.Prelude.{
  ℕ, ◌+◌, Bool, true, false, ◌&&◌, not, Option, none, some, Text, text_eq, nat_eq, ◌==◌, Result, ok,
  ◌>>◌, throw_if, Nullish, undefined, null, value, schedule_revision_conflict, number_not_stored,
}
use afiliado_shopee.Schedule.{
  PolicyConfig, Settings, ScheduleUpdate, get, JsNumber, whole, resolve_schedule,
  assert_schedule_update,
}

-- A column after the update: an undefined field keeps it, null clears it.
abbrev pub patch {ℓ} : {A : Type ℓ} → Nullish A → Option A → Option A
patch undefined old = old
patch null old = none
patch (value a) old = some a

-- An integer column. The database takes no other number: `is_stored` is asked first.
abbrev pub patch_number : Nullish JsNumber → Option ℕ → Option ℕ
patch_number (value (whole n)) old = some n
patch_number null old = none
patch_number _ old = old

abbrev pub is_stored : Nullish JsNumber → Bool
is_stored (value (whole n)) = true
is_stored (value _) = false
is_stored _ = true

abbrev pub revision_matches : Option JsNumber → ℕ → Bool
revision_matches none revision = true
revision_matches (some (whole n)) revision = n == revision
revision_matches (some _) revision = false

unfoldable pub patched : ScheduleUpdate → ℕ → Settings → Settings
patched u now s = record {
  paused = s.paused;
  paused_at = s.paused_at;
  resumed_at = s.resumed_at;
  allowed_start_time = patch (get u.allowed_start_time) s.allowed_start_time;
  allowed_end_time = patch (get u.allowed_end_time) s.allowed_end_time;
  timezone = patch (get u.timezone) s.timezone;
  minimum_interval_minutes =
      patch_number (get u.minimum_interval_minutes) s.minimum_interval_minutes;
  stagger_minutes = patch_number (get u.stagger_minutes) s.stagger_minutes;
  daily_global_limit = patch_number (get u.daily_global_limit) s.daily_global_limit;
  daily_group_limit = patch_number (get u.daily_group_limit) s.daily_group_limit;
  daily_shopee_http_limit = patch_number (get u.daily_shopee_http_limit) s.daily_shopee_http_limit;
  daily_openai_generation_limit =
      patch_number (get u.daily_openai_generation_limit) s.daily_openai_generation_limit;
  schedule_revision = s.schedule_revision + 1;
  updated_at = now;
}

unfoldable pub update_schedule : ScheduleUpdate → ℕ → Settings → Result Settings
update_schedule u now s = do
  throw_if
      (not (
        is_stored (get u.minimum_interval_minutes)
        && (is_stored (get u.stagger_minutes)
            && (is_stored (get u.daily_global_limit)
                && (is_stored (get u.daily_group_limit)
                    && (is_stored (get u.daily_shopee_http_limit)
                        && is_stored (get u.daily_openai_generation_limit)))))))
      number_not_stored
  throw_if (not (revision_matches u.expected_revision s.schedule_revision))
      schedule_revision_conflict
  ok (patched u now s)

-- The stored settings after `updateScheduleSettings`. Nobody else writes them between its calls.
unfoldable pub update_schedule_settings :
    (Text → Bool) → PolicyConfig → ScheduleUpdate → ℕ → Settings → Result Settings
update_schedule_settings known_timezone config u now current = do
  assert_schedule_update known_timezone u (resolve_schedule config current)
  update_schedule u now current
