-- ===== src/Policy.antt =====
-- Whether the commercial automation may send now, and if not from when:
-- `CommercialAutomationPolicyService` of apps/api/src/commercial-automation-policy-service.ts. An
-- instant is a number of milliseconds, also where the source prints it as text.
pub mod Allowed
pub mod Next
use afiliado_shopee.Prelude.{
  ℕ, zero, ◌+◌, ◌-◌, ◌*◌, min, max, Bool, true, false, ◌&&◌, ◌||◌, not, Option, none, some, List,
  [], ◌∷◌, ◌++◌, Text, leb, ltb, any, select, Result, ok, err, ◌>>=◌, ◌>>◌, throw_if, or_else,
  or_null, Nullish, is_some, if◌then◌else◌, invalid_date,
}
use afiliado_shopee.Schedule.{
  PolicyConfig, Settings, resolve_schedule, JsNumber, whole, max_safe_integer, safe_within,
}
use afiliado_shopee.Schedule.Windows.{ZonedDateParts, is_inside_allowed_window}
use afiliado_shopee.Schedule.Opening.{next_window_opening_at_or_after}

pub data Reason : Type 0 where
  automation_disabled automation_paused outside_allowed_window global_daily_limit_reached : Reason
  target_not_eligible group_daily_limit_reached minimum_interval_not_reached : Reason
  no_authorized_group multiple_authorized_groups duplicate_logical_group_found
        ambiguous_commercial_run_exists :
      Reason
  commercial_execution_in_progress stale_commercial_execution_exists : Reason

-- The fields of a target that the status depends on.
pub record Target : Type 0 where
  pub daily_limit : JsNumber
  pub timezone : Option Text
  pub allowed_start_time : Option Text
  pub allowed_end_time : Option Text

pub record History : Type 0 where
  pub global_sent_today : ℕ
  pub group_sent_today : ℕ
  pub last_sent_at : Option ℕ
  pub global_last_sent_at : Nullish ℕ
  pub group_last_sent_at : Nullish ℕ

-- What `loadOperationalContext` read, with the instant, the settings and the configuration.
pub record Context : Type 0 where
  pub now : ℕ
  pub config : PolicyConfig
  pub settings : Settings
  pub authorized_group_count : ℕ
  pub target : Option Target
  pub target_eligible : Bool
  pub duplicate_logical_group : Bool
  pub ambiguous_execution : Bool
  pub active_execution : Bool
  pub stale_execution : Bool
  pub history : History
  pub day_ends_at : ℕ

pub record Status : Type 0 where
  pub enabled : Bool
  pub allowed : Bool
  pub reasons : List Reason
  pub next_allowed_at : Option ℕ
  pub global_sent_today : ℕ
  pub global_remaining_today : ℕ
  pub group_sent_today : Option ℕ
  pub group_remaining_today : Option ℕ
  pub last_sent_at : Option ℕ
  pub global_last_sent_at : Option ℕ
  pub group_last_sent_at : Option ℕ
  pub paused : Bool
  pub paused_at : Option ℕ
  pub resumed_at : Option ℕ
  pub updated_at : ℕ
  pub allowed_start_time : Text
  pub allowed_end_time : Text
  pub timezone : Text
  pub daily_global_limit : ℕ
  pub daily_group_limit : ℕ
  pub minimum_interval_minutes : ℕ
  pub authorized_group_count : ℕ

abbrev pub is_valid_daily_quota : JsNumber → Bool
is_valid_daily_quota n = safe_within 1 max_safe_integer n

abbrev pub is_hard_blocking : Reason → Bool
is_hard_blocking outside_allowed_window = false
is_hard_blocking global_daily_limit_reached = false
is_hard_blocking group_daily_limit_reached = false
is_hard_blocking minimum_interval_not_reached = false
is_hard_blocking multiple_authorized_groups = false
is_hard_blocking _ = true

abbrev pub target_timezone : Context → Text
target_timezone c =
    let default = (resolve_schedule c.config c.settings).timezone in
    elim c.target [ none ↦ default | some t ↦ or_else t.timezone default ]

abbrev pub target_start_time : Context → Text
target_start_time c =
    let default = (resolve_schedule c.config c.settings).allowed_start_time in
    elim c.target [ none ↦ default | some t ↦ or_else t.allowed_start_time default ]

abbrev pub target_end_time : Context → Text
target_end_time c =
    let default = (resolve_schedule c.config c.settings).allowed_end_time in
    elim c.target [ none ↦ default | some t ↦ or_else t.allowed_end_time default ]

unfoldable pub outside_window : (Text → ℕ → ZonedDateParts) → Context → Bool
outside_window zoned c = not (
    is_inside_allowed_window zoned c.now (target_timezone c) (target_start_time c)
      (target_end_time c))

unfoldable pub global_limit_reached : Context → Bool
global_limit_reached c =
    let limit = (resolve_schedule c.config c.settings).daily_global_limit in
    not (is_valid_daily_quota (whole limit)) || leb limit c.history.global_sent_today

abbrev pub group_quota_valid : Context → Bool
group_quota_valid c =
    is_valid_daily_quota (whole (resolve_schedule c.config c.settings).daily_group_limit)

-- `effectiveGroupLimit` of a target.
abbrev smaller_limit : Bool → JsNumber → ℕ → Option ℕ
smaller_limit true (whole n) m = some (min n m)
smaller_limit _ _ _ = none

abbrev pub effective_group_limit : Context → Target → Option ℕ
effective_group_limit c t =
    smaller_limit (is_valid_daily_quota t.daily_limit && group_quota_valid c) t.daily_limit
      (resolve_schedule c.config c.settings).daily_group_limit

abbrev reached : Option ℕ → ℕ → Bool
reached none sent = false
reached (some limit) sent = leb limit sent

abbrev pub group_limit_reached : Context → Target → Bool
group_limit_reached c t = reached (effective_group_limit c t) c.history.group_sent_today

-- The end of the minimum interval after the last message to the target's group.
abbrev interval_after : Option ℕ → ℕ → Option ℕ
interval_after none interval = none
interval_after (some sent) interval = some (sent + interval * 60000)

abbrev pub interval_ends_at : Context → Option ℕ
interval_ends_at c =
    interval_after (or_null c.history.group_last_sent_at)
      (resolve_schedule c.config c.settings).minimum_interval_minutes

abbrev is_after : Option ℕ → ℕ → Bool
is_after none now = false
is_after (some t) now = ltb now t

-- The tests of the reasons about a target, each false without one.
unfoldable pub target_blocked : Context → Bool
target_blocked c = elim c.target [
  | none ↦ false
  | some t ↦ not c.target_eligible || not (is_valid_daily_quota t.daily_limit)
]

unfoldable pub group_blocked : Context → Bool
group_blocked c = elim c.target [
  | none ↦ false
  | some t ↦ not (group_quota_valid c) || group_limit_reached c t
]

unfoldable pub interval_blocked : Context → Bool
interval_blocked c = elim c.target [ none ↦ false | some t ↦ is_after (interval_ends_at c) c.now ]

-- `if (test) reasons.push(reason)`, before the reasons of the later tests.
abbrev pub push_if {ℓ} : {A : Type ℓ} → Bool → A → List A → List A
push_if true r rest = r ∷ rest
push_if false r rest = rest

unfoldable pub reasons_of : (Text → ℕ → ZonedDateParts) → Context → List Reason
reasons_of zoned c = push_if (not c.config.enabled) automation_disabled (
    push_if c.settings.paused automation_paused (
      push_if (outside_window zoned c) outside_allowed_window (
        push_if (global_limit_reached c) global_daily_limit_reached (
          push_if (target_blocked c) target_not_eligible (
            push_if (group_blocked c) group_daily_limit_reached (
              push_if (interval_blocked c) minimum_interval_not_reached (
                push_if (leb c.authorized_group_count 0) no_authorized_group (
                  push_if c.duplicate_logical_group duplicate_logical_group_found (
                    push_if c.ambiguous_execution ambiguous_commercial_run_exists (
                      push_if c.active_execution commercial_execution_in_progress
                        (push_if c.stale_execution stale_commercial_execution_exists [])))))))))))

abbrev pub is_empty {ℓ} : {A : Type ℓ} → List A → Bool
is_empty [] = true
is_empty _ = false

-- `new Date(Math.max(...instants))`, which is no date where there is no instant.
unfoldable pub latest : List ℕ → Result ℕ
latest [] = err invalid_date
latest (t ∷ []) = ok t
latest (t ∷ u ∷ ts) = latest (u ∷ ts) >>= λ m. ok (max t m)

abbrev pub opening : (Text → ℕ → ZonedDateParts) → Context → ℕ → Result ℕ
opening zoned c date =
    next_window_opening_at_or_after zoned date (target_timezone c) (target_start_time c)
      (target_end_time c)

abbrev pub push_instant : Bool → Option ℕ → List ℕ → List ℕ
push_instant true (some t) rest = t ∷ rest
push_instant _ _ rest = rest

unfoldable pub later_candidates : Context → List ℕ
later_candidates c =
    push_if (global_limit_reached c || group_blocked c) c.day_ends_at
      (push_instant (interval_blocked c) (interval_ends_at c) [])

-- The first candidate, where the instant is outside the window.
unfoldable pub opening_candidates : (Text → ℕ → ZonedDateParts) → Context → Result (List ℕ)
opening_candidates zoned c =
    let opens = opening zoned c c.now >>= λ t. ok (t ∷ []) in
    if outside_window zoned c then opens else ok []

unfoldable pub opening_after_blocking : (Text → ℕ → ZonedDateParts) → Context → Result ℕ
opening_after_blocking zoned c = opening_candidates zoned c >>= λ opens.
    latest (opens ++ later_candidates c) >>= λ last. opening zoned c last

unfoldable pub next_allowed : (Text → ℕ → ZonedDateParts) → Context → Result (Option ℕ)
next_allowed zoned c =
    let reasons = reasons_of zoned c in
    let later = opening_after_blocking zoned c >>= λ t. ok (some t) in
    if not (is_empty reasons) && not (any is_hard_blocking reasons) then later else ok none

abbrev first_some : Option ℕ → Option ℕ → Option ℕ
first_some none d = d
first_some (some a) d = some a

-- The object that `buildStatus` returns, with its `nextAllowedAt`.
abbrev pub status_with : (Text → ℕ → ZonedDateParts) → Context → Option ℕ → Status
status_with zoned c next =
    let e = resolve_schedule c.config c.settings in
    let reasons = reasons_of zoned c in
    let last = first_some (or_null c.history.global_last_sent_at) c.history.last_sent_at in
    record {
      enabled = c.config.enabled;
      allowed = is_empty reasons;
      reasons = reasons;
      next_allowed_at = next;
      global_sent_today = c.history.global_sent_today;
      global_remaining_today =
          if is_valid_daily_quota (whole e.daily_global_limit)
          then e.daily_global_limit - c.history.global_sent_today
          else 0;
      group_sent_today = elim c.target [ none ↦ none | some t ↦ some c.history.group_sent_today ];
      group_remaining_today = elim c.target [
        | none ↦ none
        | some t ↦ some (or_else (effective_group_limit c t) 0 - c.history.group_sent_today)
      ];
      last_sent_at = last;
      global_last_sent_at = last;
      group_last_sent_at = elim c.target [
        | none ↦ none
        | some t ↦ or_null c.history.group_last_sent_at
      ];
      paused = c.settings.paused;
      paused_at = c.settings.paused_at;
      resumed_at = c.settings.resumed_at;
      updated_at = c.settings.updated_at;
      allowed_start_time = e.allowed_start_time;
      allowed_end_time = e.allowed_end_time;
      timezone = e.timezone;
      daily_global_limit = e.daily_global_limit;
      daily_group_limit = e.daily_group_limit;
      minimum_interval_minutes = e.minimum_interval_minutes;
      authorized_group_count = c.authorized_group_count;
    }

unfoldable pub build_status : (Text → ℕ → ZonedDateParts) → Context → Result Status
build_status zoned c = next_allowed zoned c >>= λ next. ok (status_with zoned c next)

abbrev pub is_scheduling_only : Reason → Bool
is_scheduling_only automation_disabled = true
is_scheduling_only automation_paused = true
is_scheduling_only outside_allowed_window = true
is_scheduling_only _ = false

-- The status for a manual message: the reasons of the schedule are left out.
abbrev pub manual_status : Status → Status
manual_status status =
    let reasons = select (λ r. not (is_scheduling_only r)) status.reasons in
    record status { reasons = reasons; allowed = is_empty reasons }

unfoldable pub evaluate_manual_send_safety : (Text → ℕ → ZonedDateParts) → Context → Result Status
evaluate_manual_send_safety zoned c = build_status zoned c >>= λ status. ok (manual_status status)
