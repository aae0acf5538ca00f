-- ===== src/Schedule/Opening.antt =====
-- The next instant of a window: `nextWindowOpeningAtOrAfter` of
-- apps/api/src/commercial-automation-policy-service.ts.
use mathlib.Core.Path.{subst}
use afiliado_shopee.Prelude.{
  ℕ, zero, suc, ◌+◌, ◌-◌, ◌*◌, ◌/◌, ◌<◌, ◌≤◌, Bool, true, false, ◌≡◌, refl, ◌⊎◌, inl, inr, Text,
  leb, arith, if◌then◌else◌, Result, ok, err, window_not_found, sym, ◌∙◌, ap, Bool-cases, nat_beq,
  nat_beq_iff, ◌%◌,
}
use afiliado_shopee.Schedule.Windows.{ZonedDateParts, is_inside_allowed_window}

-- The loop, over any test of an instant: `fuel` minutes are left to try, from number `minute` on.
unfoldable pub search_minutes : (ℕ → Bool) → ℕ → ℕ → ℕ → Result ℕ
search_minutes inside candidate minute zero = err window_not_found
search_minutes inside candidate minute (suc fuel) =
    let rest = search_minutes inside candidate (minute + 1) fuel in
    if inside (candidate + minute * 60000) then ok (candidate + minute * 60000) else rest

abbrev pub round_up : ℕ → ℕ
round_up date = (date + 59999) / 60000 * 60000

-- `Math.ceil(date / 60_000) * 60_000`, and a minute more where that is not after the date.
unfoldable pub first_candidate : ℕ → ℕ
first_candidate date = if leb (round_up date) date then round_up date + 60000 else round_up date

unfoldable pub opening_from : (ℕ → Bool) → ℕ → Result ℕ
opening_from inside date =
    if inside date then ok date else search_minutes inside (first_candidate date) 0 4320

unfoldable pub next_window_opening_at_or_after :
    (Text → ℕ → ZonedDateParts) → ℕ → Text → Text → Text → Result ℕ
unfolding opening_from
next_window_opening_at_or_after zoned date timezone start_time end_time =
    opening_from (λ t. is_inside_allowed_window zoned t timezone start_time end_time) date

-- The first minute mark after the date.
first_candidate-bounds :
    (date : ℕ) → (date < first_candidate date) × (first_candidate date ≤ date + 60000)
unfolding first_candidate
first_candidate-bounds date = (ground arith, ground arith)

first_candidate-eq : (date : ℕ) → (r : ℕ) × (first_candidate date ≡ r * 60000)
unfolding first_candidate
first_candidate-eq date = elim (Bool-cases (leb (round_up date) date)) [
  | inl h ↦ ((date + 59999) / 60000 + 1, ground arith)
  | inr h ↦ ((date + 59999) / 60000, ground arith)
]

-- What the loop finds: the first of the minutes from number `m` on that is inside.
Found : (ℕ → Bool) → ℕ → ℕ → ℕ → ℕ → Type 0
Found inside c m n t =
    (k : ℕ) × (m ≤ k)
    × (k < m + n)
    × (t ≡ c + k * 60000)
    × (inside t ≡ true)
    × ((j : ℕ) → m ≤ j → j < k → inside (c + j * 60000) ≡ false)

Found-later :
    (inside : ℕ → Bool) (c m n t : ℕ)
    → inside (c + m * 60000) ≡ false
    → Found inside c (m + 1) n t
    → Found inside c m (suc n) t
unfolding Found
Found-later inside c m n t h (k, mk, kn, e, i, before) = (
  k,
  omega arith,
  omega arith,
  e,
  i,
  λ j mj jk. elim (Bool-cases (nat_beq j m)) [
    | inl b ↦ subst (λ x. inside (c + x * 60000) ≡ false) (sym ((nat_beq_iff j m).0 b)) h
    | inr b ↦ before j (ground arith) jk
  ],
)

search_minutes-ok :
    (inside : ℕ → Bool) (c m n t : ℕ) → search_minutes inside c m n ≡ ok t → Found inside c m n t
unfolding search_minutes Found
search_minutes-ok inside c m zero t h = cc
search_minutes-ok inside c m (suc n) t h = elim (Bool-cases (inside (c + m * 60000))) [
  | inl b ↦
      let e : t ≡ c + m * 60000 = ground arith in
      (m, omega arith, omega arith, e, cc, λ j mj jm. absurd (omega arith))
  | inr b ↦ Found-later inside c m n t b (search_minutes-ok inside c (m + 1) n t (ground arith))
]

different {ℓ} : {A : Type ℓ} → true ≡ false → A
different h = cc

search_minutes-finds :
    (inside : ℕ → Bool) (c m n k : ℕ)
    → m ≤ k
    → k < m + n
    → inside (c + k * 60000) ≡ true
    → (t : ℕ) × (search_minutes inside c m n ≡ ok t)
unfolding search_minutes
search_minutes-finds inside c m zero k h l i = absurd (omega arith)
search_minutes-finds inside c m (suc n) k h l i = elim (Bool-cases (inside (c + m * 60000))) [
  | inl b ↦ (c + m * 60000, ground arith)
  | inr b ↦
      let d : m + 1 ≤ k = elim (Bool-cases (nat_beq k m)) [
        | inl q ↦ different (sym i ∙ ap (λ x. inside (c + x * 60000)) ((nat_beq_iff k m).0 q) ∙ b)
        | inr q ↦ ground arith
      ] in
      let (t, e) = search_minutes-finds inside c (m + 1) n k d (omega arith) i in (t, ground arith)
]

multiple : (q t : ℕ) → t ≡ q * 60000 → t % 60000 ≡ 0
multiple q t e = omega arith

mark_eq : (c r q : ℕ) → c ≡ r * 60000 → r ≤ q → c + (q - r) * 60000 ≡ q * 60000
mark_eq c r q e l = omega arith

not_before : (c date r q : ℕ) → c ≡ r * 60000 → c ≤ date + 60000 → date < q * 60000 → r ≤ q
not_before c date r q e l h = omega arith

before_found :
    (c t r q k : ℕ) → c ≡ r * 60000 → r ≤ q → t ≡ c + k * 60000 → q * 60000 < t → q - r < k
before_found c t r q k e l f h = omega arith

on_mark : (c t r k : ℕ) → c ≡ r * 60000 → t ≡ c + k * 60000 → t ≡ (r + k) * 60000
on_mark c t r k e f = omega arith

within :
    (c date r q : ℕ)
    → c ≡ r * 60000
    → date < c
    → q * 60000 ≤ date + 72 * 60 * 60000
    → q - r < 0 + 4320
within c date r q e h s = omega arith

search_minutes-first :
    (inside : ℕ → Bool) (date n t : ℕ)
    → search_minutes inside (first_candidate date) 0 n ≡ ok t
    → (inside t ≡ true)
      × (date ≤ t)
      × (t % 60000 ≡ 0)
      × ((q : ℕ) → date < q * 60000 → q * 60000 < t → inside (q * 60000) ≡ false)
unfolding Found
search_minutes-first inside date n t h =
    let (r, f) = first_candidate-eq date in
    let (above, below) = first_candidate-bounds date in
    let (k, _, _, e, i, before) = search_minutes-ok inside (first_candidate date) 0 n t h in
    (
      i,
      omega (arith, e, above),
      multiple (r + k) t (on_mark (first_candidate date) t r k f e),
      λ q after early.
          let reached = not_before (first_candidate date) date r q f below after in
          subst (λ u. inside u ≡ false) (mark_eq (first_candidate date) r q f reached)
            (before (q - r) (omega arith)
              (before_found (first_candidate date) t r q k f reached e early)),
    )

opening_from-ok :
    (inside : ℕ → Bool) (date t : ℕ)
    → opening_from inside date ≡ ok t
    → (inside t ≡ true)
      × (date ≤ t)
      × ((t ≡ date)
          ⊎ ((t % 60000 ≡ 0)
              × ((q : ℕ) → date < q * 60000 → q * 60000 < t → inside (q * 60000) ≡ false)))
unfolding opening_from
opening_from-ok inside date t h = elim (Bool-cases (inside date)) [
  | inl b ↦
      let e : t ≡ date = ground (arith, b, h) in
      (subst (λ u. inside u ≡ true) (sym e) b, omega (arith, e), inl e)
  | inr b ↦
      let (i, late, mark, before) =
        search_minutes-first inside date 4320 t (ground (arith, b, h)) in
      (i, late, inr (mark, before))
]

opening_from-finds :
    (inside : ℕ → Bool) (date q : ℕ)
    → date < q * 60000
    → q * 60000 ≤ date + 72 * 60 * 60000
    → inside (q * 60000) ≡ true
    → (t : ℕ) × (opening_from inside date ≡ ok t)
unfolding opening_from
opening_from-finds inside date q after soon here = elim (Bool-cases (inside date)) [
  | inl b ↦ (date, rw b refl)
  | inr b ↦
      let (r, e) = first_candidate-eq date in
      let (above, below) = first_candidate-bounds date in
      let reached = not_before (first_candidate date) date r q e below after in
      let mark = mark_eq (first_candidate date) r q e reached in
      let (t, f) =
        search_minutes-finds inside (first_candidate date) 0 4320 (q - r) (omega arith)
          (within (first_candidate date) date r q e above soon)
          (subst (λ u. inside u ≡ true) (sym mark) here) in
      (t, rw b f)
]

pub next_window_opening-ok :
    (zoned : Text → ℕ → ZonedDateParts) (date : ℕ) (timezone start end : Text) (t : ℕ)
    → next_window_opening_at_or_after zoned date timezone start end ≡ ok t
    → (is_inside_allowed_window zoned t timezone start end ≡ true)
      × (date ≤ t)
      × ((t ≡ date)
          ⊎ ((t % 60000 ≡ 0)
              × ((q : ℕ)
                  → date < q * 60000
                  → q * 60000 < t
                  → is_inside_allowed_window zoned (q * 60000) timezone start end ≡ false)))
unfolding next_window_opening_at_or_after
next_window_opening-ok zoned date timezone start end t h =
    opening_from-ok (λ u. is_inside_allowed_window zoned u timezone start end) date t h

-- The search gives no error where some whole minute of the next 72 hours is inside the window.
pub next_window_opening-finds :
    (zoned : Text → ℕ → ZonedDateParts) (date : ℕ) (timezone start end : Text) (q : ℕ)
    → date < q * 60000
    → q * 60000 ≤ date + 72 * 60 * 60000
    → is_inside_allowed_window zoned (q * 60000) timezone start end ≡ true
    → (t : ℕ) × (next_window_opening_at_or_after zoned date timezone start end ≡ ok t)
unfolding next_window_opening_at_or_after
next_window_opening-finds zoned date timezone start end q after soon inside =
    opening_from-finds (λ u. is_inside_allowed_window zoned u timezone start end) date q after soon
      inside
