-- ===== src/Schedule/Windows.antt =====
-- Daily windows of local time: `isInsideAllowedWindow` of
-- apps/api/src/commercial-automation-policy-service.ts. The local time of an instant, `getZonedParts`,
-- is asked of `Intl.DateTimeFormat`; it is the parameter `zoned`, for time zones that the formatter
-- knows: on another one `getFormatter` throws, which is left out.
use afiliado_shopee.Prelude.{
  ℕ, ◌+◌, ◌-◌, ◌*◌, ◌≤◌, Bool, true, false, ◌&&◌, ◌||◌, not, ◌≡◌, ◌≢◌, refl, Option, some, [], ◌∷◌,
  Text, ltb, leb, arith, if◌then◌else◌, sym, ◌∙◌, ap,
}
use afiliado_shopee.Schedule.Clock.{is_time, parse_time, parse_time-is_time}

pub record ZonedDateParts : Type 0 where
  pub year : ℕ
  pub month : ℕ
  pub day : ℕ
  pub hour : ℕ
  pub minute : ℕ
  pub second : ℕ

-- `a < b` and `a >= b` where a side may be NaN, `none`.
abbrev less : Option ℕ → Option ℕ → Bool
less (some a) (some b) = ltb a b
less _ _ = false

abbrev at_least : Option ℕ → Option ℕ → Bool
at_least (some a) (some b) = leb b a
at_least _ _ = false

abbrev in_window : Option ℕ → Option ℕ → Option ℕ → Bool
in_window start end current =
    if less start end
    then at_least current start && less current end
    else (at_least current start || less current end)

unfoldable pub is_inside_allowed_window :
    (Text → ℕ → ZonedDateParts) → ℕ → Text → Text → Text → Bool
is_inside_allowed_window zoned date timezone start_time end_time =
    let parts = zoned timezone date in
    in_window (parse_time start_time) (parse_time end_time) (some (parts.hour * 60 + parts.minute))

swap :
    (s e c : ℕ)
    → s ≢ e
    → in_window (some s) (some e) (some c) ≡ not (in_window (some e) (some s) (some c))
swap s e c h = ground arith

same : (s c : ℕ) → in_window (some s) (some s) (some c) ≡ true
same s c = ground arith

abbrev Digits : ℕ → ℕ → ℕ → ℕ → ℕ → Type 0
Digits a b c d e =
    (c ≡ 58)
    × ((48 ≤ a) × (a ≤ 50))
    × ((48 ≤ b) × (b ≤ 57))
    × ((48 ≤ d) × (d ≤ 53))
    × ((48 ≤ e) × (e ≤ 57))

digits : (a b c d e : ℕ) → is_time (a ∷ b ∷ c ∷ d ∷ e ∷ []) ≡ true → Digits a b c d e
unfolding is_time
digits a b c d e h = (
  ground arith,
  (ground arith, ground arith),
  (ground arith, ground arith),
  (ground arith, ground arith),
  (ground arith, ground arith),
)

two_digits : (a b a' b' : ℕ) → (b ≤ 9) → (b' ≤ 9) → a * 10 + b ≡ a' * 10 + b' → (a ≡ a') × (b ≡ b')
two_digits a b a' b' h k p = (omega arith, omega arith)

hours_minutes :
    (a b a' b' : ℕ) → (b ≤ 59) → (b' ≤ 59) → a * 60 + b ≡ a' * 60 + b' → (a ≡ a') × (b ≡ b')
hours_minutes a b a' b' h k p = (omega arith, omega arith)

minutes :
    (a b c d e : ℕ)
    → is_time (a ∷ b ∷ c ∷ d ∷ e ∷ []) ≡ true
    → parse_time (a ∷ b ∷ c ∷ d ∷ e ∷ [])
      ≡ some (((a - 48) * 10 + (b - 48)) * 60 + ((d - 48) * 10 + (e - 48)))
unfolding is_time parse_time
minutes a b c d e h = ground arith

is_five :
    (t : Text)
    → is_time t ≡ true
    → (a : ℕ) × (b : ℕ) × (c : ℕ) × (d : ℕ) × (e : ℕ) × (t ≡ a ∷ b ∷ c ∷ d ∷ e ∷ [])
unfolding is_time
is_five (a ∷ b ∷ c ∷ d ∷ e ∷ []) h = (a, b, c, d, e, refl)
is_five [] h = cc
is_five _ h = cc

same_digits :
    (a b c d e a' b' c' d' e' : ℕ)
    → Digits a b c d e
    → Digits a' b' c' d' e'
    → ((a - 48) * 10 + (b - 48) ≡ (a' - 48) * 10 + (b' - 48))
      × ((d - 48) * 10 + (e - 48) ≡ (d' - 48) * 10 + (e' - 48))
    → ◌≡◌ {A = Text} (a ∷ b ∷ c ∷ d ∷ e ∷ []) (a' ∷ b' ∷ c' ∷ d' ∷ e' ∷ [])
same_digits a b c d e a' b' c' d' e' h k (p, q) =
    let (h0, (h1, h2), (h3, h4), (h5, h6), (h7, h8)) = h in
    let (k0, (k1, k2), (k3, k4), (k5, k6), (k7, k8)) = k in
    let r : (a ≡ a') × (b ≡ b') × (c ≡ c') × (d ≡ d') × (e ≡ e') =
      (omega arith, omega arith, omega arith, omega arith, omega arith) in
    let (r0, r1, r2, r3, r4) = r in cc

some-injective : {m n : ℕ} → some m ≡ some n → m ≡ n
some-injective h = cc

same_codes :
    (a b c d e a' b' c' d' e' : ℕ)
    → is_time (a ∷ b ∷ c ∷ d ∷ e ∷ []) ≡ true
    → is_time (a' ∷ b' ∷ c' ∷ d' ∷ e' ∷ []) ≡ true
    → parse_time (a ∷ b ∷ c ∷ d ∷ e ∷ []) ≡ parse_time (a' ∷ b' ∷ c' ∷ d' ∷ e' ∷ [])
    → ◌≡◌ {A = Text} (a ∷ b ∷ c ∷ d ∷ e ∷ []) (a' ∷ b' ∷ c' ∷ d' ∷ e' ∷ [])
same_codes a b c d e a' b' c' d' e' h k p =
    let (_, (a1, a2), (b1, b2), (d1, d2), (e1, e2)) = digits a b c d e h in
    let (_, (a1', a2'), (b1', b2'), (d1', d2'), (e1', e2')) = digits a' b' c' d' e' k in
    same_digits a b c d e a' b' c' d' e' (digits a b c d e h) (digits a' b' c' d' e' k) (
      hours_minutes ((a - 48) * 10 + (b - 48)) ((d - 48) * 10 + (e - 48))
        ((a' - 48) * 10 + (b' - 48)) ((d' - 48) * 10 + (e' - 48)) (omega arith) (omega arith)
        (some-injective (sym (minutes a b c d e h) ∙ p ∙ minutes a' b' c' d' e' k)))

-- Two different times of the pattern are different minutes of the day.
pub parse_time-injective :
    (s t : Text) → is_time s ≡ true → is_time t ≡ true → parse_time s ≡ parse_time t → s ≡ t
parse_time-injective s t h k p =
    let (a, b, c, d, e, s5) = is_five s h in
    let (a', b', c', d', e', t5) = is_five t k in
    s5
    ∙ same_codes a b c d e a' b' c' d' e' (ap is_time (sym s5) ∙ h) (ap is_time (sym t5) ∙ k)
        (ap parse_time (sym s5) ∙ p ∙ ap parse_time t5)
    ∙ sym t5

-- For two different times of the pattern, the window from one to the other and the window back
-- split the day: each instant is in exactly one of them, also where a window passes midnight.
pub is_inside-swap :
    (zoned : Text → ℕ → ZonedDateParts) (date : ℕ) (timezone start end : Text)
    → is_time start ≡ true
    → is_time end ≡ true
    → start ≢ end
    → is_inside_allowed_window zoned date timezone start end
      ≡ not (is_inside_allowed_window zoned date timezone end start)
unfolding is_inside_allowed_window
is_inside-swap zoned date timezone start end hs he d =
    let (m, pm, m1) = parse_time-is_time start hs in
    let (n, pn, n1) = parse_time-is_time end he in
    rw (pm, pn)
      (swap m n ((zoned timezone date).hour * 60 + (zoned timezone date).minute)
        (λ q. d (parse_time-injective start end hs he (pm ∙ ap some q ∙ sym pn))))

-- A window whose two times are one contains every instant.
pub is_inside-same :
    (zoned : Text → ℕ → ZonedDateParts) (date : ℕ) (timezone time : Text)
    → is_time time ≡ true
    → is_inside_allowed_window zoned date timezone time time ≡ true
unfolding is_inside_allowed_window
is_inside-same zoned date timezone time h =
    let (m, p, _) = parse_time-is_time time h in
    rw (p) (same m ((zoned timezone date).hour * 60 + (zoned timezone date).minute))
