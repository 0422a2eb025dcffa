-- ===== src/DatePicker/Calendar.antt =====
-- Dates at midnight, with months counted from 1: the functions of the language's `Date` that the
-- picker calls, and web/frontend/packages/toolkit/data/date.ts.
use touhou_cloud_music_thcdb.Common.{
  ℕ, ◌+◌, ◌-◌, ◌%◌, Bool, not, ◌&&◌, ◌||◌, leb, ◌==◌, if◌then◌else◌,
}

pub record Date : Type 0 where
  pub year : ℕ
  pub month : ℕ
  pub day : ℕ

unfoldable pub is_leap : ℕ → Bool
is_leap y = (y % 4 == 0) && (not (y % 100 == 0) || (y % 400 == 0))

unfoldable pub month_length : ℕ → ℕ → ℕ
unfolding is_leap
month_length y m =
    if m == 2
    then (if is_leap y then 29 else 28)
    else if (m == 4) || (m == 6) || (m == 9) || (m == 11)
    then 30
    else 31

-- `Date.UTC` and the years from 0 to 99
unfoldable pub utc_year : ℕ → ℕ
utc_year y = if leb y 99 then 1900 + y else y

-- A day past the end of a month is counted on into the next.
unfoldable pub roll : ℕ → ℕ → ℕ → Date
unfolding month_length
roll y m d =
    if leb d (month_length y m)
    then record { year = y; month = m; day = d }
    else if leb m 11
    then record { year = y; month = m + 1; day = d - month_length y m }
    else record { year = y + 1; month = 1; day = d - month_length y m }

-- `Date.UTC(y, m - 1, d)`, for a month from 1 to 12 and a day from 1 to 31
unfoldable pub utc : ℕ → ℕ → ℕ → Date
unfolding utc_year roll
utc y m d = roll (utc_year y) m d

unfoldable pub set_utc_full_year : Date → ℕ → Date
unfolding roll
set_utc_full_year d y = roll y d.month d.day

unfoldable pub from_ymd : ℕ → ℕ → ℕ → Date
unfolding utc set_utc_full_year
from_ymd year month day = set_utc_full_year (utc year month day) year

-- `new Date(Date.UTC(year, month, 0)).getUTCDate()`: the day before the first of the next month
unfoldable pub days_in_month : ℕ → ℕ → ℕ
unfolding utc_year month_length
days_in_month year month = month_length (utc_year year) month
