-- ===== src/DatePicker/Submission.antt =====
-- What a form sends for the value of the picker: the schema of
-- web/frontend/src/domain/shared/date_with_precision.ts. The value is a midnight of UTC, and the
-- schema sets its month and its day in local time. The local zone has a fixed offset from UTC, of
-- which only the sign is read: where it is negative, the local date of a midnight of UTC is the day
-- before, and the date of UTC is the day after the local one.
use touhou_cloud_music_thcdb.Common.{
  ℕ, suc, ◌+◌, ◌-◌, ◌≤◌, ◌≡◌, refl, ap, Bool, true, false, Option, none, some, ltb, if◌then◌else◌,
  arith,
}
use touhou_cloud_music_thcdb.DatePicker.{
  Store, Value, DatePrecision, by_year, by_month, by_day, store_to_value,
}
use touhou_cloud_music_thcdb.DatePicker.Calendar.{Date, roll, month_length}
use touhou_cloud_music_thcdb.DatePicker.Normal.{IsNormal, IsYear}
use touhou_cloud_music_thcdb.DatePicker.RoundTrip.{from_ymd_lem, first_day, fields}

unfoldable pub day_before : Date → Date
unfolding month_length
day_before d =
    if ltb 1 d.day
    then record d { day = d.day - 1 }
    else if ltb 1 d.month
    then record d { month = d.month - 1; day = month_length d.year (d.month - 1) }
    else record { year = d.year - 1; month = 12; day = 31 }

unfoldable pub day_after : Date → Date
unfolding roll
day_after d = roll d.year d.month (d.day + 1)

-- `setMonth(0)` and `setDate(1)` on a local date
unfoldable pub set_january : Date → Date
unfolding roll
set_january d = roll d.year 1 d.day

abbrev set_first : Date → Date
set_first d = record d { day = 1 }

unfoldable pub set_parts : DatePrecision → Date → Date
unfolding set_january
set_parts by_year d = set_first (set_january d)
set_parts by_month d = set_first d
set_parts by_day d = d

unfoldable pub to_output : Bool → Value → Value
unfolding day_before day_after set_parts
to_output behind v = record v {
  date =
      if behind
      then day_after (set_parts v.precision (day_before v.date))
      else set_parts v.precision v.date;
}

abbrev pub submitted : Bool → Option Value → Option Value
submitted behind none = none
submitted behind (some v) = some (to_output behind v)

sent :
    (y m d : Option ℕ)
    → IsYear y m d
    → submitted false (store_to_value (fields y m d)) ≡ store_to_value (fields y m d)
unfolding store_to_value to_output
sent none m d h = refl
sent (some y) none none h = ground (arith, from_ymd_lem y 1 1 (first_day y 1))
sent (some y) none (some d) h = absurd (cc)
sent (some y) (some m) none h = ground (arith, from_ymd_lem y m 1 (first_day y m))
sent (some y) (some m) (some d) h = refl

-- Where the local time is that of UTC or ahead of it, the form sends the date of a normal store.
pub submitted-store_to_value :
    (s : Store) → IsNormal s → submitted false (store_to_value s) ≡ store_to_value s
unfolding IsNormal
submitted-store_to_value s h = sent s.year s.month s.day h

year-value :
    (y : ℕ)
    → store_to_value (fields (some y) none none)
      ≡ some (record { date = record { year = y; month = 1; day = 1 }; precision = by_year })
unfolding store_to_value
year-value y = ground (arith, from_ymd_lem y 1 1 (first_day y 1))

month-value :
    (y m : ℕ)
    → store_to_value (fields (some y) (some m) none)
      ≡ some (record { date = record { year = y; month = m; day = 1 }; precision = by_month })
unfolding store_to_value
month-value y m = ground (arith, from_ymd_lem y m 1 (first_day y m))

second_day : (y m : ℕ) → 2 ≤ month_length y m
unfolding month_length
second_day y m = ground arith

year-output :
    (y : ℕ)
    → to_output true
        (record { date = record { year = suc y; month = 1; day = 1 }; precision = by_year })
      ≡ record { date = record { year = y; month = 1; day = 2 }; precision = by_year }
unfolding to_output
year-output y = ground arith

month-output :
    (y m : ℕ)
    → 1 ≤ m
    → to_output true
        (record { date = record { year = y; month = suc m; day = 1 }; precision = by_month })
      ≡ record { date = record { year = y; month = m; day = 2 }; precision = by_month }
unfolding to_output
month-output y m low = ground (arith, second_day y m)

-- Where the local time is behind UTC, the form sends for a year the second of January of the year
-- before, and for a month after January the second day of the month before.
pub submitted-behind :
    (y m : ℕ)
    → 1 ≤ m
    → m ≤ 11
    → (submitted true (store_to_value (record { year = some (suc y); month = none; day = none }))
        ≡ some (record { date = record { year = y; month = 1; day = 2 }; precision = by_year }))
      × (submitted true
            (store_to_value (record { year = some y; month = some (suc m); day = none }))
          ≡ some (record { date = record { year = y; month = m; day = 2 }; precision = by_month }))
submitted-behind y m low high = (
  rw (year-value (suc y)) (ap some (year-output y)),
  rw (month-value y (suc m)) (ap some (month-output y m low)),
)
