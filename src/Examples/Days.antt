-- ===== src/Examples/Days.antt =====
-- A concrete local day: the second one of 1970, in a zone without an offset.
use afiliado_shopee.Prelude.{
  ℕ, ◌+◌, ◌/◌, ◌≤◌, ◌<◌, true, false, ◌≡◌, refl, some, Text, codes, arith,
}
use afiliado_shopee.Schedule.Windows.{ZonedDateParts}
use afiliado_shopee.Schedule.Days.{
  six_hours, is_same_local_day, get_local_day_range, get_local_day_range-eq,
}

abbrev days_of_1970 : Text → ℕ → ZonedDateParts
days_of_1970 timezone t = record {
  year = 1970;
  month = 1;
  day = 1 + t / 86400000;
  hour = 0;
  minute = 0;
  second = 0;
}

abbrev zone : Text
zone = codes "UTC"

second_day :
    (t : ℕ) → 86400000 ≤ t → t < 172800000 → is_same_local_day days_of_1970 zone 100000000 t ≡ true
unfolding is_same_local_day
second_day t h k = let e : t / 86400000 ≡ 1 = omega arith in rw e refl

first_day :
    (t : ℕ)
    → 86400000 ≤ t + six_hours
    → t < 86400000
    → is_same_local_day days_of_1970 zone 100000000 t ≡ false
unfolding is_same_local_day
first_day t h k = let e : t / 86400000 ≡ 0 = omega arith in rw e refl

third_day :
    (t : ℕ)
    → 172800000 ≤ t
    → t < 172800000 + six_hours
    → is_same_local_day days_of_1970 zone 100000000 t ≡ false
unfolding is_same_local_day
third_day t h k = let e : t / 86400000 ≡ 2 = omega arith in rw e refl

get_local_day_range-eq_example :
    get_local_day_range days_of_1970 100000000 zone ≡ some (86400000, 172800000)
get_local_day_range-eq_example =
    get_local_day_range-eq days_of_1970 100000000 zone 86400000 172800000 (omega arith)
      (omega arith) (omega arith) (omega arith) second_day first_day third_day
