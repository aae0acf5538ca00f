-- ===== src/Schedule/Clock.antt =====
-- Times of day as text: `TIME_PATTERN` and `parseTime` of
-- apps/api/src/commercial-automation-policy-service.ts.
use afiliado_shopee.Prelude.{
  ℕ, ◌+◌, ◌-◌, ◌*◌, ◌<◌, Bool, true, false, ◌&&◌, ◌||◌, ◌≡◌, refl, Option, none, some, List, [],
  ◌∷◌, Text, codes, leb, nat_beq, every, arith, if◌then◌else◌,
}

abbrev pub is_digit : ℕ → Bool
is_digit c = leb b'0' c && leb c b'9'

-- /^([01]\d|2[0-3]):([0-5]\d)$/
unfoldable pub is_time : Text → Bool
is_time (a ∷ b ∷ c ∷ d ∷ e ∷ []) =
    (((nat_beq a b'0' || nat_beq a b'1') && is_digit b)
      || (nat_beq a b'2' && (leb b'0' b && leb b b'3')))
    && (nat_beq c b':' && ((leb b'0' d && leb d b'5') && is_digit e))
is_time _ = false

-- `split(':')`.
abbrev onto_first : ℕ → List Text → List Text
onto_first c [] = (c ∷ []) ∷ []
onto_first c (t ∷ ts) = (c ∷ t) ∷ ts

unfoldable pub split_colon : Text → List Text
split_colon [] = [] ∷ []
split_colon (c ∷ s) =
    let rest = split_colon s in if nat_beq c b':' then [] ∷ rest else onto_first c rest

unfoldable pub digits_value : ℕ → Text → ℕ
digits_value acc [] = acc
digits_value acc (c ∷ s) = digits_value (acc * 10 + (c - 48)) s

-- `Number` of a run of digits, and 0 of the empty text. The other numerals that `Number` takes
-- (spaces, signs, fractions, exponents, other bases) are read as NaN, `none`: no stored time has one.
unfoldable pub number : Text → Option ℕ
unfolding digits_value
number s = if every is_digit s then some (digits_value 0 s) else none

abbrev minutes_of : Option ℕ → Option ℕ → Option ℕ
minutes_of (some h) (some m) = some (h * 60 + m)
minutes_of _ _ = none

abbrev first_two : List Text → Option ℕ
first_two (h ∷ m ∷ rest) = minutes_of (number h) (number m)
first_two _ = none

unfoldable pub parse_time : Text → Option ℕ
unfolding split_colon number
parse_time t = first_two (split_colon t)

parse_time_test : parse_time (codes "23:07") ≡ some 1387
unfolding parse_time
parse_time_test = refl

-- A text of the pattern is a minute of the day.
pub parse_time-is_time :
    (t : Text) → is_time t ≡ true → (m : ℕ) × (parse_time t ≡ some m) × (m < 1440)
unfolding is_time parse_time
parse_time-is_time (a ∷ b ∷ c ∷ d ∷ e ∷ []) h =
    (((a - 48) * 10 + (b - 48)) * 60 + ((d - 48) * 10 + (e - 48)), ground arith, ground arith)
parse_time-is_time [] h = cc
parse_time-is_time _ h = cc
