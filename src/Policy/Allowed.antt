-- ===== src/Policy/Allowed.antt =====
-- When the automation is allowed to send.
use mathlib.Core.Path.{subst}
use afiliado_shopee.Prelude.{
  ℕ, ◌+◌, ◌≤◌, true, false, ◌≡◌, ◌↔◌, refl, ap, ◌∙◌, Option, none, some, [], Text, leb, ok, arith,
  returned,
}
use afiliado_shopee.Schedule.Windows.{ZonedDateParts, is_inside_allowed_window}
use afiliado_shopee.Policy.{
  Context, Status, target_timezone, target_start_time, target_end_time, outside_window,
  global_limit_reached, target_blocked, group_blocked, interval_blocked, reasons_of, build_status,
  status_with, is_empty, next_allowed,
}

-- No test of a reason holds.
pub record IsClear (zoned : Text → ℕ → ZonedDateParts) (c : Context) : Type 0 where
  pub enabled : c.config.enabled ≡ true
  pub running : c.settings.paused ≡ false
  pub inside :
      is_inside_allowed_window zoned c.now
        (target_timezone c)
        (target_start_time c)
        (target_end_time c)
      ≡ true
  pub global : global_limit_reached c ≡ false
  pub target : target_blocked c ≡ false
  pub group : group_blocked c ≡ false
  pub interval : interval_blocked c ≡ false
  pub authorized : 1 ≤ c.authorized_group_count
  pub distinct : c.duplicate_logical_group ≡ false
  pub unambiguous : c.ambiguous_execution ≡ false
  pub idle : c.active_execution ≡ false
  pub fresh : c.stale_execution ≡ false

reasons_of-IsClear :
    (zoned : Text → ℕ → ZonedDateParts) (c : Context)
    → is_empty (reasons_of zoned c) ≡ true
    → IsClear zoned c
unfolding reasons_of outside_window
reasons_of-IsClear zoned c h = record {
  enabled = ground arith;
  running = ground arith;
  inside = ground arith;
  global = ground arith;
  target = ground arith;
  group = ground arith;
  interval = ground arith;
  authorized = ground arith;
  distinct = ground arith;
  unambiguous = ground arith;
  idle = ground arith;
  fresh = ground arith;
}

pub leb_zero : (n : ℕ) → 1 ≤ n → leb n 0 ≡ false
leb_zero n h = ground arith

IsClear-reasons_of :
    (zoned : Text → ℕ → ZonedDateParts) (c : Context) → IsClear zoned c → reasons_of zoned c ≡ []
unfolding reasons_of outside_window
IsClear-reasons_of zoned c k = simp (
  k.enabled,
  k.running,
  k.inside,
  k.global,
  k.target,
  k.group,
  k.interval,
  k.distinct,
  k.unambiguous,
  k.idle,
  k.fresh,
  leb_zero c.authorized_group_count k.authorized,
)

ok-injective {ℓ} : {A : Type ℓ} {a b : A} → ok a ≡ ok b → a ≡ b
ok-injective h = cc

pub build_status-eq :
    (zoned : Text → ℕ → ZonedDateParts) (c : Context) (s : Status)
    → build_status zoned c ≡ ok s
    → (next : Option ℕ) × (next_allowed zoned c ≡ ok next) × (status_with zoned c next ≡ s)
unfolding build_status
build_status-eq zoned c s h = let (next, e, f) = returned _ _ h in (next, e, ok-injective f)

-- The status is given and allows a message exactly when every condition holds: the automation is
-- enabled and not paused, the instant is inside the target's window, neither the target nor a quota
-- nor the minimum interval blocks, some group is authorized and no two are one logical group, and no
-- commercial execution is ambiguous, active or stale.
pub build_status-allowed_iff :
    (zoned : Text → ℕ → ZonedDateParts) (c : Context)
    → ((s : Status) × (build_status zoned c ≡ ok s) × (s.allowed ≡ true)) ↔ IsClear zoned c
unfolding build_status next_allowed
build_status-allowed_iff zoned c = (
  λ (s, e, a).
      let (next, _, f) = build_status-eq zoned c s e in
      reasons_of-IsClear zoned c (ap (λ x. x.allowed) f ∙ a),
  λ k. let r = IsClear-reasons_of zoned c k in (status_with zoned c none, rw (r) refl, rw (r) refl),
)

IsClear-room :
    (zoned : Text → ℕ → ZonedDateParts) (c : Context) (next : Option ℕ)
    → IsClear zoned c
    → (1 ≤ (status_with zoned c next).global_remaining_today)
      × ((status_with zoned c next).global_sent_today
            + (status_with zoned c next).global_remaining_today
          ≡ (status_with zoned c next).daily_global_limit)
      × ((n : ℕ) → (status_with zoned c next).group_remaining_today ≡ some n → 1 ≤ n)
unfolding global_limit_reached group_blocked target_blocked
IsClear-room zoned c next k =
    (ground (arith, k.global), ground (arith, k.global), λ n e. ground (arith, k.group, k.target))

pub build_status-room :
    (zoned : Text → ℕ → ZonedDateParts) (c : Context) (s : Status)
    → build_status zoned c ≡ ok s
    → s.allowed ≡ true
    → (1 ≤ s.global_remaining_today)
      × (s.global_sent_today + s.global_remaining_today ≡ s.daily_global_limit)
      × ((n : ℕ) → s.group_remaining_today ≡ some n → 1 ≤ n)
unfolding build_status
build_status-room zoned c s h a =
    let (next, _, f) = build_status-eq zoned c s h in
    subst
      (λ x.
        (1 ≤ x.global_remaining_today)
        × (x.global_sent_today + x.global_remaining_today ≡ x.daily_global_limit)
        × ((n : ℕ) → x.group_remaining_today ≡ some n → 1 ≤ n))
      f (IsClear-room zoned c next (reasons_of-IsClear zoned c (ap (λ x. x.allowed) f ∙ a)))
