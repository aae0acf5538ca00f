-- ===== src/Policy/Next.antt =====
-- From when the automation may send, and the safety of a manual message.
use mathlib.Core.Path.{subst}
use afiliado_shopee.Prelude.{
  ℕ, ◌≤◌, Bool, true, false, ◌||◌, not, ◌≡◌, ◌↔◌, refl, ap, ◌∙◌, Option, some, List, [], ◌∷◌, ◌++◌,
  Text, any, select, All, ok, ◌>>=◌, arith, returned,
}
use afiliado_shopee.Schedule.Windows.{ZonedDateParts, is_inside_allowed_window}
use afiliado_shopee.Schedule.Opening.{next_window_opening-ok}
use afiliado_shopee.Policy.{
  Context, Status, Reason, automation_disabled, automation_paused, outside_allowed_window,
  target_timezone, target_start_time, target_end_time, outside_window, global_limit_reached,
  target_blocked, group_blocked, interval_blocked, reasons_of, build_status, is_empty, next_allowed,
  push_if, evaluate_manual_send_safety, manual_status, latest, is_scheduling_only, later_candidates,
  opening_after_blocking, opening_candidates, opening, interval_ends_at, push_instant,
  is_hard_blocking,
}
use afiliado_shopee.Policy.Allowed.{build_status-eq, leb_zero}

All-le : (n m : ℕ) (ts : List ℕ) → n ≤ m → All (λ t. t ≤ n) ts → All (λ t. t ≤ m) ts
All-le n m [] h a = tt
All-le n m (t ∷ ts) h (l, a) = (omega arith, All-le n m ts h a)

latest_le : (ts : List ℕ) (m : ℕ) → latest ts ≡ ok m → All (λ t. t ≤ m) ts
unfolding latest
latest_le [] m h = cc
latest_le (t ∷ []) m h = (ground arith, tt)
latest_le (t ∷ u ∷ ts) m h =
    let (n, e, f) = returned _ _ h in
    let le = latest_le (u ∷ ts) n e in (ground arith, All-le n m (u ∷ ts) (ground arith) le)

pub Ready : (Text → ℕ → ZonedDateParts) → Context → ℕ → Type 0
Ready zoned c t =
    (is_inside_allowed_window zoned t (target_timezone c) (target_start_time c) (target_end_time c)
      ≡ true)
    × (global_limit_reached c ≡ true → c.day_ends_at ≤ t)
    × (group_blocked c ≡ true → c.day_ends_at ≤ t)
    × ((u : ℕ) → interval_blocked c ≡ true → interval_ends_at c ≡ some u → u ≤ t)

opening-ok :
    (zoned : Text → ℕ → ZonedDateParts) (c : Context) (date t : ℕ)
    → opening zoned c date ≡ ok t
    → (is_inside_allowed_window zoned t
          (target_timezone c)
          (target_start_time c)
          (target_end_time c)
        ≡ true)
      × (date ≤ t)
opening-ok zoned c date t h =
    let (inside, late, _) = next_window_opening-ok zoned date _ _ _ t h in (inside, late)

All-append {ℓ κ} : {A : Type ℓ} (P : A → Type κ) (xs ys : List A) → All P (xs ++ ys) → All P ys
All-append P [] ys h = h
All-append P (x ∷ xs) ys (_, h) = All-append P xs ys h

later_candidates-le :
    (c : Context) (last : ℕ)
    → All (λ t. t ≤ last) (later_candidates c)
    → (global_limit_reached c ≡ true → c.day_ends_at ≤ last)
      × (group_blocked c ≡ true → c.day_ends_at ≤ last)
      × ((u : ℕ) → interval_blocked c ≡ true → interval_ends_at c ≡ some u → u ≤ last)
unfolding later_candidates
later_candidates-le c last h =
    candidates (global_limit_reached c) (group_blocked c) (interval_blocked c) c.day_ends_at
      (interval_ends_at c) last h
  where
    candidates :
        (g b i : Bool) (d : ℕ) (e : Option ℕ) (last : ℕ)
        → All (λ t. t ≤ last) (push_if (g || b) d (push_instant i e []))
        → (g ≡ true → d ≤ last)
          × (b ≡ true → d ≤ last)
          × ((u : ℕ) → i ≡ true → e ≡ some u → u ≤ last)
    candidates g b i d e last h =
        (λ p. ground (arith, h), λ p. ground (arith, h), λ u p q. ground (arith, h))

opening_after_blocking-Ready :
    (zoned : Text → ℕ → ZonedDateParts) (c : Context) (t : ℕ)
    → opening_after_blocking zoned c ≡ ok t
    → Ready zoned c t
unfolding opening_after_blocking Ready
opening_after_blocking-Ready zoned c t h =
    let (opens, e, h1) =
      returned (opening_candidates zoned c)
        (λ opens. latest (opens ++ later_candidates c) >>= λ last. opening zoned c last) h in
    let (last, l, o) = returned (latest (opens ++ later_candidates c)) (opening zoned c) h1 in
    let (inside, late) = opening-ok zoned c last t o in
    let le =
      All-append (λ u. u ≤ last) opens (later_candidates c)
        (latest_le (opens ++ later_candidates c) last l) in
    let (global, group, interval) = later_candidates-le c last le in
    (
      inside,
      λ b. omega (arith, global b),
      λ b. omega (arith, group b),
      λ u b s. omega (arith, interval u b s),
    )

inner : {a b : ℕ} → ok (some a) ≡ ok (some b) → a ≡ b
inner h = cc

next_allowed-Ready :
    (zoned : Text → ℕ → ZonedDateParts) (c : Context) (t : ℕ)
    → next_allowed zoned c ≡ ok (some t)
    → Ready zoned c t
      × (is_empty (reasons_of zoned c) ≡ false)
      × (any is_hard_blocking (reasons_of zoned c) ≡ false)
unfolding next_allowed
next_allowed-Ready zoned c t h =
    let later : (opening_after_blocking zoned c >>= λ u. ok (some u)) ≡ ok (some t) =
      ground arith in
    let (u, e, f) = returned _ _ later in
    (opening_after_blocking-Ready zoned c t (e ∙ ap ok (inner f)), ground arith, ground arith)

-- The instant from which a blocked message is allowed again is inside the target's window. It is not
-- before the end of the local day where a daily limit is reached, nor before the end of the minimum
-- interval where that runs, and it is given only with a status that does not allow the message and
-- whose reasons all pass with time.
pub build_status-Ready :
    (zoned : Text → ℕ → ZonedDateParts) (c : Context) (s : Status) (t : ℕ)
    → build_status zoned c ≡ ok s
    → s.next_allowed_at ≡ some t
    → Ready zoned c t × (s.allowed ≡ false) × (any is_hard_blocking s.reasons ≡ false)
unfolding next_allowed
build_status-Ready zoned c s t h n =
    let (next, e, f) = build_status-eq zoned c s h in
    let same : next ≡ some t = ap (λ x. x.next_allowed_at) f ∙ n in
    let (r, empty, soft) = next_allowed-Ready zoned c t (e ∙ ap ok same) in
    subst (λ x. Ready zoned c t × (x.allowed ≡ false) × (any is_hard_blocking x.reasons ≡ false)) f
      (r, empty, soft)

-- What blocks a message beyond its schedule.
pub record IsSafe (c : Context) : Type 0 where
  pub global : global_limit_reached c ≡ false
  pub target : target_blocked c ≡ false
  pub group : group_blocked c ≡ false
  pub interval : interval_blocked c ≡ false
  pub authorized : 1 ≤ c.authorized_group_count
  pub distinct : c.duplicate_logical_group ≡ false
  pub unambiguous : c.ambiguous_execution ≡ false
  pub idle : c.active_execution ≡ false
  pub fresh : c.stale_execution ≡ false

abbrev remaining : (Text → ℕ → ZonedDateParts) → Context → List Reason
remaining zoned c = select (λ r. not (is_scheduling_only r)) (reasons_of zoned c)

remaining-IsSafe :
    (zoned : Text → ℕ → ZonedDateParts) (c : Context)
    → is_empty (remaining zoned c) ≡ true
    → IsSafe c
unfolding reasons_of outside_window
remaining-IsSafe zoned c h = record {
  global = ground arith;
  target = ground arith;
  group = ground arith;
  interval = ground arith;
  authorized = ground arith;
  distinct = ground arith;
  unambiguous = ground arith;
  idle = ground arith;
  fresh = ground arith;
}

only_scheduling :
    (a b d : Bool)
    → is_empty (
        select
          (λ r. not (is_scheduling_only r))
          (push_if a automation_disabled
            (push_if b automation_paused (push_if d outside_allowed_window []))))
      ≡ true
only_scheduling a b d = ground arith

IsSafe-remaining :
    (zoned : Text → ℕ → ZonedDateParts) (c : Context)
    → IsSafe c
    → is_empty (remaining zoned c) ≡ true
unfolding reasons_of
IsSafe-remaining zoned c k =
    simp
      (
        k.global,
        k.target,
        k.group,
        k.interval,
        k.distinct,
        k.unambiguous,
        k.idle,
        k.fresh,
        leb_zero c.authorized_group_count k.authorized,
      )
      (only_scheduling (not c.config.enabled) c.settings.paused (outside_window zoned c))

select-empty :
    (rs : List Reason)
    → is_empty rs ≡ true
    → is_empty (select (λ r. not (is_scheduling_only r)) rs) ≡ true
select-empty [] h = refl
select-empty (r ∷ rs) h = cc

any-select :
    (rs : List Reason)
    → any is_scheduling_only (select (λ r. not (is_scheduling_only r)) rs) ≡ false
any-select [] = refl
any-select (r ∷ rs) = ground (arith, any-select rs)

-- A manual message is safe exactly when no reason is left but those of the schedule: the switch, the
-- pause and the window. So it is safe where the automation itself may send, and only the reasons
-- that block it are listed.
pub evaluate_manual_send_safety-allowed_iff :
    (zoned : Text → ℕ → ZonedDateParts) (c : Context) (s m : Status)
    → build_status zoned c ≡ ok s
    → evaluate_manual_send_safety zoned c ≡ ok m
    → ((m.allowed ≡ true) ↔ IsSafe c)
      × (s.allowed ≡ true → m.allowed ≡ true)
      × (any is_scheduling_only m.reasons ≡ false)
unfolding evaluate_manual_send_safety
evaluate_manual_send_safety-allowed_iff zoned c s m h k =
    let (next, _, f) = build_status-eq zoned c s h in
    let g : manual_status s ≡ m = cc in
    subst
      (λ x.
        ((x.allowed ≡ true) ↔ IsSafe c)
        × (s.allowed ≡ true → x.allowed ≡ true)
        × (any is_scheduling_only x.reasons ≡ false))
      g
      (subst
        (λ x.
          (((manual_status x).allowed ≡ true) ↔ IsSafe c)
          × (x.allowed ≡ true → (manual_status x).allowed ≡ true)
          × (any is_scheduling_only (manual_status x).reasons ≡ false))
        f
        (
          (remaining-IsSafe zoned c, IsSafe-remaining zoned c),
          select-empty (reasons_of zoned c),
          any-select (reasons_of zoned c),
        ))
