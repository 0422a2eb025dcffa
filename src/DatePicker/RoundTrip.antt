-- ===== src/DatePicker/RoundTrip.antt =====
-- From the store to a date and back.
use touhou_cloud_music_thcdb.Common.{ℕ, ◌≤◌, ◌≡◌, refl, Option, none, some, arith}
use touhou_cloud_music_thcdb.DatePicker.{
  Store, Value, by_year, by_month, by_day, store_normalize, value_to_store, store_to_value,
  kept_month, kept_day,
}
use touhou_cloud_music_thcdb.DatePicker.Calendar.{
  days_in_month, month_length, utc_year, is_leap, from_ymd, utc, roll, set_utc_full_year,
}
use touhou_cloud_music_thcdb.DatePicker.Normal.{IsNormal, IsDay, IsMonth, IsYear}

-- The length of February is taken from the year that `Date.UTC` makes of it, and is never too long.
days-length : (y m : ℕ) → days_in_month y m ≤ month_length y m
unfolding days_in_month utc_year month_length is_leap
days-length y m = ground arith

-- The date of a day that the month has is that day, the years from 0 to 99 included.
pub from_ymd_lem :
    (y m d : ℕ) → d ≤ days_in_month y m → from_ymd y m d ≡ record { year = y; month = m; day = d }
unfolding from_ymd utc set_utc_full_year roll days_in_month
from_ymd_lem y m d h = ground (arith, days-length y m)

kept_month_lem : (m : ℕ) → 1 ≤ m → m ≤ 12 → kept_month (some m) ≡ some m
kept_month_lem m h k = ground arith

kept_day_lem : (y m : ℕ) (d : Option ℕ) → IsDay y m d → kept_day y (some m) d ≡ d
kept_day_lem y m none h = refl
kept_day_lem y m (some d) h = ground arith

abbrev pub fields : Option ℕ → Option ℕ → Option ℕ → Store
fields y m d = record { year = y; month = m; day = d }

normalize-normal :
    (y : ℕ) (m d : Option ℕ)
    → IsMonth y m d
    → store_normalize (fields (some y) m d) ≡ fields (some y) m d
unfolding store_normalize
normalize-normal y none d h = rw h refl
normalize-normal y (some m) d (low, high, h) =
    rw (kept_month_lem m low high) (rw (kept_day_lem y m d h) refl)

pub first_day : (y m : ℕ) → 1 ≤ days_in_month y m
unfolding days_in_month month_length
first_day y m = ground arith

round_trip :
    (y m d : Option ℕ)
    → IsYear y m d
    → value_to_store (store_to_value (fields y m d)) ≡ fields y m d
unfolding store_to_value value_to_store
round_trip none m d (h, k) = rw (h, k) refl
round_trip (some y) none d h = ground (arith, from_ymd_lem y 1 1 (first_day y 1))
round_trip (some y) (some m) none (low, high, h) =
    rw (from_ymd_lem y m 1 (first_day y m)) (normalize-normal y (some m) none (low, high, h))
round_trip (some y) (some m) (some d) (low, high, (one, h)) =
    rw (from_ymd_lem y m d h) (normalize-normal y (some m) (some d) (low, high, (one, h)))

-- A normal store comes back from the date that it gives, the years from 0 to 99 included.
pub value_to_store-store_to_value : (s : Store) → IsNormal s → value_to_store (store_to_value s) ≡ s
unfolding IsNormal
value_to_store-store_to_value s h = round_trip s.year s.month s.day h

-- The date with the parts that the precision leaves out set to their first.
abbrev pub truncated : Value → Value
truncated v = record v {
  date = elim v.precision [
    | by_year ↦ record { year = v.date.year; month = 1; day = 1 }
    | by_month ↦ record { year = v.date.year; month = v.date.month; day = 1 }
    | by_day ↦ v.date
  ];
}

-- A date of the calendar comes back from the store with the parts that its precision leaves out set
-- to 1.
pub store_to_value-value_to_store :
    (v : Value)
    → IsMonth v.date.year (some v.date.month) (some v.date.day)
    → store_to_value (value_to_store (some v)) ≡ some (truncated v)
unfolding store_to_value value_to_store store_normalize
store_to_value-value_to_store v (low, high, (one, h)) = ground (
  arith,
  from_ymd_lem v.date.year 1 1 (first_day v.date.year 1),
  from_ymd_lem v.date.year v.date.month 1 (first_day v.date.year v.date.month),
  from_ymd_lem v.date.year v.date.month v.date.day h,
)
