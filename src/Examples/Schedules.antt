-- ===== src/Examples/Schedules.antt =====
-- Concrete schedules and statuses. The clock of the examples has one zone, without an offset.
use afiliado_shopee.Prelude.{
  ℕ, ◌+◌, ◌*◌, ◌/◌, ◌%◌, ◌≤◌, ◌<◌, Bool, true, false, ◌≡◌, ◌≢◌, ◌↔◌, ◌⊎◌, refl, sym, none, some,
  Text, codes, ok, undefined, value, arith, any, text_eq,
}
use afiliado_shopee.Schedule.{
  PolicyConfig, Settings, ScheduleUpdate, present, whole, fallback_settings, resolve_schedule,
  assert_schedule_update,
}
use afiliado_shopee.Schedule.Clock.{is_time, parse_time}
use afiliado_shopee.Schedule.Windows.{ZonedDateParts, is_inside_allowed_window}
use afiliado_shopee.Schedule.Opening.{
  search_minutes, next_window_opening_at_or_after, first_candidate, next_window_opening-ok,
  next_window_opening-finds,
}
use afiliado_shopee.Schedule.Updates.{update_schedule_settings, patched, update_schedule}
use afiliado_shopee.Schedule.WellFormed.{
  NoNull, IsWellFormed, LimitOk, clear_start, update_schedule_settings-IsWellFormed,
  clear_start-never_closed,
}
use afiliado_shopee.Policy.{
  Context, Target, Status, build_status, global_limit_reached, is_hard_blocking, status_with,
  reasons_of, next_allowed, outside_window, target_blocked, group_blocked, interval_blocked,
  opening_after_blocking, opening_candidates, latest, later_candidates,
}
use afiliado_shopee.Policy.Allowed.{IsClear, build_status-allowed_iff, build_status-room}
use afiliado_shopee.Policy.Next.{Ready, build_status-Ready}

abbrev utc : Text → ℕ → ZonedDateParts
utc timezone t = record {
  year = 2026;
  month = 1;
  day = t / 86400000;
  hour = t / 3600000 % 24;
  minute = t / 60000 % 60;
  second = t / 1000 % 60;
}

abbrev zone : Text
zone = codes "UTC"

abbrev nine : Text
nine = codes "09:00"

abbrev ten : Text
ten = codes "22:00"

different_times : nine ≢ ten
different_times h = let e : text_eq.beq nine ten ≡ true = (text_eq.beq_iff nine ten).1 h in cc

next_window_opening-ok_example :
    (is_inside_allowed_window utc 32400000 zone nine ten ≡ true)
    × (32370000 ≤ 32400000)
    × (◌≡◌ {A = ℕ} 32400000 32370000
        ⊎ ((32400000 % 60000 ≡ 0)
            × ((q : ℕ)
                → 32370000 < q * 60000
                → q * 60000 < 32400000
                → is_inside_allowed_window utc (q * 60000) zone nine ten ≡ false)))
unfolding search_minutes next_window_opening_at_or_after is_inside_allowed_window parse_time
    first_candidate
next_window_opening-ok_example = next_window_opening-ok utc 32370000 zone nine ten 32400000 refl

next_window_opening-finds_example :
    (t : ℕ) × (next_window_opening_at_or_after utc 32370000 zone nine ten ≡ ok t)
unfolding is_inside_allowed_window parse_time
next_window_opening-finds_example =
    next_window_opening-finds utc 32370000 zone nine ten 541 (omega arith) (omega arith) refl

abbrev config : PolicyConfig
config = record {
  enabled = true;
  timezone = zone;
  allowed_start_time = nine;
  allowed_end_time = ten;
  daily_global_limit = 20;
  daily_group_limit = 5;
  minimum_interval_minutes = 30;
}

abbrev any_zone : Text → Bool
any_zone t = true

abbrev settings : Settings
settings = record (fallback_settings 0) { paused = false }

abbrev later_end : ScheduleUpdate
later_end = record clear_start {
  allowed_start_time = present undefined;
  allowed_end_time = present (value (codes "23:00"));
  stagger_minutes = present (value (whole 3));
}

settings-IsWellFormed : IsWellFormed any_zone (resolve_schedule config settings)
unfolding fallback_settings resolve_schedule is_time LimitOk
settings-IsWellFormed = record {
  start = refl;
  end = refl;
  timezone = refl;
  window = different_times;
  interval = (omega arith, omega arith);
  stagger = omega arith;
  global = (omega arith, omega arith);
  group = (omega arith, omega arith);
  shopee = (omega arith, omega arith);
  openai = (omega arith, omega arith);
}

later_end-NoNull : NoNull later_end
unfolding NoNull
later_end-NoNull = (refl, refl, refl, refl, refl, refl, refl, refl, refl)

update_schedule_settings-IsWellFormed_example :
    IsWellFormed any_zone (resolve_schedule config (patched later_end 9 settings))
    × ((patched later_end 9 settings).schedule_revision ≡ settings.schedule_revision + 1)
unfolding update_schedule_settings assert_schedule_update update_schedule fallback_settings
    resolve_schedule is_time
update_schedule_settings-IsWellFormed_example =
    update_schedule_settings-IsWellFormed any_zone config later_end 9 settings
      (patched later_end 9 settings) later_end-NoNull settings-IsWellFormed refl

-- The stored window ends when the configured one starts.
abbrev night : Settings
night = record settings { allowed_start_time = some ten; allowed_end_time = some nine }

night-IsWellFormed : IsWellFormed any_zone (resolve_schedule config night)
unfolding fallback_settings resolve_schedule is_time LimitOk
night-IsWellFormed = record {
  start = refl;
  end = refl;
  timezone = refl;
  window = λ h. different_times (sym h);
  interval = (omega arith, omega arith);
  stagger = omega arith;
  global = (omega arith, omega arith);
  group = (omega arith, omega arith);
  shopee = (omega arith, omega arith);
  openai = (omega arith, omega arith);
}

clear_start-never_closed_example :
    (s : Settings) × (update_schedule_settings any_zone config clear_start 9 night ≡ ok s)
    × ((zoned : Text → ℕ → ZonedDateParts) (date : ℕ)
        → is_inside_allowed_window zoned date
            (resolve_schedule config s).timezone
            (resolve_schedule config s).allowed_start_time
            (resolve_schedule config s).allowed_end_time
          ≡ true)
clear_start-never_closed_example =
    clear_start-never_closed any_zone config 9 night night-IsWellFormed refl

abbrev target : Target
target = record {
  daily_limit = whole 4;
  timezone = none;
  allowed_start_time = none;
  allowed_end_time = none;
}

-- 10:00, inside the window, with one message sent at 09:00.
abbrev morning : Context
morning = record {
  now = 36000000;
  config = config;
  settings = settings;
  authorized_group_count = 1;
  target = some target;
  target_eligible = true;
  duplicate_logical_group = false;
  ambiguous_execution = false;
  active_execution = false;
  stale_execution = false;
  history = record {
    global_sent_today = 1;
    group_sent_today = 1;
    last_sent_at = some 32400000;
    global_last_sent_at = undefined;
    group_last_sent_at = value 32400000;
  };
  day_ends_at = 86400000;
}

-- 09:10, within the minimum interval.
abbrev early : Context
early = record morning { now = 33000000 }

build_status-allowed_iff_example :
    ((s : Status) × (build_status utc morning ≡ ok s) × (s.allowed ≡ true)) ↔ IsClear utc morning
build_status-allowed_iff_example = build_status-allowed_iff utc morning

build_status-room_example :
    (1 ≤ (status_with utc morning none).global_remaining_today)
    × (1 + (status_with utc morning none).global_remaining_today
        ≡ (status_with utc morning none).daily_global_limit)
    × ((n : ℕ) → (status_with utc morning none).group_remaining_today ≡ some n → 1 ≤ n)
unfolding build_status next_allowed reasons_of outside_window global_limit_reached target_blocked
    group_blocked interval_blocked is_inside_allowed_window fallback_settings resolve_schedule
    parse_time
build_status-room_example = build_status-room utc morning (status_with utc morning none) refl refl

-- The interval ends at 09:30.
build_status-Ready_example :
    Ready utc early 34200000
    × ((status_with utc early (some 34200000)).allowed ≡ false)
    × (any is_hard_blocking (status_with utc early (some 34200000)).reasons ≡ false)
unfolding search_minutes build_status next_allowed reasons_of outside_window global_limit_reached
    target_blocked group_blocked interval_blocked is_inside_allowed_window fallback_settings
    resolve_schedule opening_after_blocking opening_candidates latest later_candidates
    next_window_opening_at_or_after parse_time
build_status-Ready_example =
    build_status-Ready utc early (status_with utc early (some 34200000)) 34200000 refl refl
