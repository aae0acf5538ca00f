-- ===== src/Schedule/Days.antt =====
-- The local day around an instant: `getLocalDayRange` of
-- apps/api/src/commercial-automation-policy-service.ts, with `zoned` for `getZonedParts`. The loops
-- run on fuel; `none` is a loop that is still running when the fuel is used up.
use afiliado_shopee.Prelude.{
  ℕ, zero, suc, ◌+◌, ◌-◌, ◌*◌, ◌/◌, ◌≤◌, ◌<◌, Bool, true, false, not, ◌&&◌, ◌≡◌, refl, sym, ap, ◌∙◌,
  Option, none, some, Text, nat_beq, ltb, ltb→lt, arith, Bool-cases, inl, inr, if◌then◌else◌,
}
use afiliado_shopee.Schedule.Windows.{ZonedDateParts}

abbrev pub six_hours : ℕ
six_hours = 21600000

-- Steps from the inside until an instant is outside: the last two instants.
unfoldable pub walk_forward : (ℕ → Bool) → ℕ → ℕ → Option (ℕ × ℕ)
walk_forward same zero inside = none
walk_forward same (suc fuel) inside =
    let rest = walk_forward same fuel (inside + six_hours) in
    if same (inside + six_hours) then rest else some (inside, inside + six_hours)

unfoldable pub walk_back : (ℕ → Bool) → ℕ → ℕ → Option (ℕ × ℕ)
walk_back same zero inside = none
walk_back same (suc fuel) inside =
    let rest = walk_back same fuel (inside - six_hours) in
    if same (inside - six_hours) then rest else some (inside - six_hours, inside)

-- The bisection. `after` is the test of the source: the same day going back, another day going
-- forward.
unfoldable pub bisect : (ℕ → Bool) → ℕ → ℕ → ℕ → Option ℕ
bisect after zero lower upper = if ltb 1 (upper - lower) then none else some upper
bisect after (suc fuel) lower upper =
    let middle = (lower + upper) / 2 in
    let low = bisect after fuel lower middle in
    let high = bisect after fuel middle upper in
    if ltb 1 (upper - lower) then (if after middle then low else high) else some upper

unfoldable pub bisect_from : (ℕ → Bool) → Option (ℕ × ℕ) → Option ℕ
bisect_from after none = none
bisect_from after (some (lower, upper)) = bisect after 25 lower upper

unfoldable pub day_end : (ℕ → Bool) → ℕ → Option ℕ
day_end same now = bisect_from (λ t. not (same t)) (walk_forward same 9 now)

unfoldable pub day_start : (ℕ → Bool) → ℕ → Option ℕ
day_start same now = bisect_from same (walk_back same 9 now)

-- `isSameLocalDay`.
unfoldable pub is_same_local_day : (Text → ℕ → ZonedDateParts) → Text → ℕ → ℕ → Bool
is_same_local_day zoned timezone now t =
    nat_beq (zoned timezone t).year (zoned timezone now).year
    && (nat_beq (zoned timezone t).month (zoned timezone now).month
        && nat_beq (zoned timezone t).day (zoned timezone now).day)

abbrev pub both : Option ℕ → Option ℕ → Option (ℕ × ℕ)
both (some a) (some b) = some (a, b)
both _ _ = none

unfoldable pub get_local_day_range : (Text → ℕ → ZonedDateParts) → ℕ → Text → Option (ℕ × ℕ)
get_local_day_range zoned now timezone =
    both (day_start (is_same_local_day zoned timezone now) now)
      (day_end (is_same_local_day zoned timezone now) now)

twice : ℕ → ℕ
twice zero = 1
twice (suc n) = 2 * twice n

-- `after` turns true at `b`.
Turns : (ℕ → Bool) → ℕ → ℕ → ℕ → Type 0
Turns after b lower upper =
    (lower < b)
    × (b ≤ upper)
    × ((t : ℕ) → lower ≤ t → t < b → after t ≡ false)
    × ((t : ℕ) → b ≤ t → t ≤ upper → after t ≡ true)

clash : {x : Bool} → x ≡ true → x ≡ false → ⊥
clash h k = absurd (true-not_false (sym h ∙ k))
  where
    true-not_false : true ≡ false → ⊥
    true-not_false e = cc

turn_le :
    (after : ℕ → Bool) (b lower upper m : ℕ)
    → lower ≤ m
    → ((t : ℕ) → lower ≤ t → t < b → after t ≡ false)
    → after m ≡ true
    → b ≤ m
turn_le after b lower upper m h before turned = elim (Bool-cases (ltb m b)) [
  | inl early ↦ absurd (clash turned (before m h (ltb→lt m b early)))
  | inr late ↦ ground (arith, late)
]

lt_turn :
    (after : ℕ → Bool) (b lower upper m : ℕ)
    → m ≤ upper
    → ((t : ℕ) → b ≤ t → t ≤ upper → after t ≡ true)
    → after m ≡ false
    → m < b
lt_turn after b lower upper m h since early = elim (Bool-cases (ltb m b)) [
  | inl lt ↦ ltb→lt m b lt
  | inr late ↦ absurd (clash (since m (ground (arith, late)) h) early)
]

bisect-eq :
    (after : ℕ → Bool) (b n lower upper : ℕ)
    → Turns after b lower upper
    → upper - lower ≤ twice n
    → bisect after n lower upper ≡ some b
unfolding bisect Turns twice
bisect-eq after b zero lower upper (l, u, before, since) w =
    let e : upper ≡ b = omega arith in ground arith
bisect-eq after b (suc n) lower upper (l, u, before, since) w =
    elim (Bool-cases (ltb 1 (upper - lower))) [
      | inr close ↦ let e : upper ≡ b = ground arith in rw (close, e) refl
      | inl far ↦
          let wide : 1 < upper - lower = ground arith in
          elim (Bool-cases (after ((lower + upper) / 2))) [
            | inl turned ↦
                let m : b ≤ (lower + upper) / 2 =
                  turn_le after b lower upper ((lower + upper) / 2) (omega arith) before turned in
                rw (far, turned)
                  (bisect-eq after b n lower ((lower + upper) / 2)
                    (l, m, before, λ t h k. since t h (omega arith)) (omega arith))
            | inr early ↦
                let m : (lower + upper) / 2 < b =
                  lt_turn after b lower upper ((lower + upper) / 2) (omega arith) since early in
                rw (far, early)
                  (bisect-eq after b n ((lower + upper) / 2) upper
                    (m, u, λ t h k. before t (omega arith) k, since) (omega arith))
          ]
    ]

-- The walk stops at the first step that leaves the day.
walk_forward-finds :
    (same : ℕ → Bool) (e n inside : ℕ)
    → inside < e
    → e ≤ inside + n * six_hours
    → ((t : ℕ) → inside ≤ t → t < e → same t ≡ true)
    → ((t : ℕ) → e ≤ t → t < e + six_hours → same t ≡ false)
    → (lo : ℕ) × (walk_forward same n inside ≡ some (lo, lo + six_hours))
      × (inside ≤ lo)
      × (lo < e)
      × (e ≤ lo + six_hours)
unfolding walk_forward
walk_forward-finds same e zero inside h r day next = absurd (omega arith)
walk_forward-finds same e (suc n) inside h r day next =
    elim (Bool-cases (ltb (inside + six_hours) e)) [
      | inl more ↦
          let lt = ltb→lt (inside + six_hours) e more in
          let on = day (inside + six_hours) (omega arith) lt in
          let (lo, w, a, b, c) =
            walk_forward-finds same e n (inside + six_hours) lt (omega arith)
              (λ t p q. day t (omega arith) q) next in
          (lo, rw on w, omega arith, b, c)
      | inr past ↦
          let reached : e ≤ inside + six_hours = ground (arith, past) in
          let off = next (inside + six_hours) reached (omega arith) in
          (inside, rw off refl, omega arith, h, reached)
    ]

walk_back-finds :
    (same : ℕ → Bool) (s n inside : ℕ)
    → six_hours ≤ s
    → s ≤ inside
    → inside < s + n * six_hours
    → ((t : ℕ) → s ≤ t → t ≤ inside → same t ≡ true)
    → ((t : ℕ) → s ≤ t + six_hours → t < s → same t ≡ false)
    → (hi : ℕ) × (walk_back same n inside ≡ some (hi - six_hours, hi))
      × (hi ≤ inside)
      × (s ≤ hi)
      × (hi - six_hours < s)
unfolding walk_back
walk_back-finds same s zero inside k h r day before = absurd (omega arith)
walk_back-finds same s (suc n) inside k h r day before =
    elim (Bool-cases (ltb (inside - six_hours) s)) [
      | inr more ↦
          let ge : s ≤ inside - six_hours = ground (arith, more) in
          let on = day (inside - six_hours) ge (omega arith) in
          let (hi, w, a, b, c) =
            walk_back-finds same s n (inside - six_hours) k ge (omega arith)
              (λ t p q. day t p (omega arith)) before in
          (hi, rw on w, omega arith, b, c)
      | inl past ↦
          let lt = ltb→lt (inside - six_hours) s past in
          let off = before (inside - six_hours) (omega arith) lt in
          (inside, rw off refl, omega arith, h, lt)
    ]

bisect_from-eq :
    (after : ℕ → Bool) (b lower upper : ℕ) {o : Option (ℕ × ℕ)}
    → o ≡ some (lower, upper)
    → Turns after b lower upper
    → upper - lower ≤ six_hours
    → bisect_from after o ≡ some b
unfolding bisect_from twice
bisect_from-eq after b lower upper e turns w =
    rw e (bisect-eq after b 25 lower upper turns (omega arith))

day_end-eq :
    (same : ℕ → Bool) (now e : ℕ)
    → now < e
    → e ≤ now + 8 * six_hours
    → ((t : ℕ) → now ≤ t → t < e → same t ≡ true)
    → ((t : ℕ) → e ≤ t → t < e + six_hours → same t ≡ false)
    → day_end same now ≡ some e
unfolding day_end Turns
day_end-eq same now e h r day next =
    let (lo, w, a, b, c) = walk_forward-finds same e 9 now h (omega arith) day next in
    bisect_from-eq (λ t. not (same t)) e lo (lo + six_hours) w
      (b, c, λ t p q. ap not (day t (omega arith) q), λ t p q. ap not (next t p (omega arith)))
      (omega arith)

day_start-eq :
    (same : ℕ → Bool) (now s : ℕ)
    → six_hours ≤ s
    → s ≤ now
    → now < s + 8 * six_hours
    → ((t : ℕ) → s ≤ t → t ≤ now → same t ≡ true)
    → ((t : ℕ) → s ≤ t + six_hours → t < s → same t ≡ false)
    → day_start same now ≡ some s
unfolding day_start Turns
day_start-eq same now s k h r day before =
    let (hi, w, a, b, c) = walk_back-finds same s 9 now k h (omega arith) day before in
    bisect_from-eq same s (hi - six_hours) hi w
      (c, b, λ t p q. before t (omega arith) q, λ t p q. day t p (omega arith)) (omega arith)

-- If the instants of the local day are those from `start` until before `end`, as far as six hours
-- before and after them, and the day is not longer than 48 hours and starts later than six hours
-- into 1970, then both loops end and the range is exactly that day.
pub get_local_day_range-eq :
    (zoned : Text → ℕ → ZonedDateParts) (now : ℕ) (timezone : Text) (start end : ℕ)
    → six_hours ≤ start
    → start ≤ now
    → now < end
    → end ≤ start + 8 * six_hours
    → ((t : ℕ) → start ≤ t → t < end → is_same_local_day zoned timezone now t ≡ true)
    → ((t : ℕ) → start ≤ t + six_hours → t < start → is_same_local_day zoned timezone now t ≡ false)
    → ((t : ℕ) → end ≤ t → t < end + six_hours → is_same_local_day zoned timezone now t ≡ false)
    → get_local_day_range zoned now timezone ≡ some (start, end)
unfolding get_local_day_range
get_local_day_range-eq zoned now timezone start end k h r l day before next =
    let same : ℕ → Bool = is_same_local_day zoned timezone now in
    let starts =
      day_start-eq same now start k h (omega arith) (λ t p q. day t p (omega arith)) before in
    let ends = day_end-eq same now end r (omega arith) (λ t p q. day t (omega arith) q) next in
    rw (starts, ends) refl
