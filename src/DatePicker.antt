-- ===== src/DatePicker.antt =====
-- The input of a date that may lack its day or its month:
-- web/frontend/src/component/form/DateWithPrecision/state.ts, over the dates of Calendar. What was
-- typed is a list of character codes; the year in which the program runs is an argument.
pub mod Calendar
pub mod Normal
pub mod RoundTrip
pub mod Submission
pub mod Display
mod Examples
use touhou_cloud_music_thcdb.Common.{
  ℕ, zero, suc, ◌+◌, ◌-◌, ◌*◌, min, Bool, true, false, ◌&&◌, Option, none, some, Text, List, [],
  ◌∷◌, leb, ltb, if◌then◌else◌, or_else,
}
use Calendar.{Date, days_in_month, from_ymd}

abbrev is_digit : ℕ → Bool
is_digit c = leb 48 c && leb c 57

-- `/^\d*$/`
unfoldable pub all_digits : Text → Bool
all_digits [] = true
all_digits (c ∷ cs) = is_digit c && all_digits cs

-- `slice(0, n)`
unfoldable pub slice : ℕ → Text → Text
slice zero cs = []
slice (suc n) [] = []
slice (suc n) (c ∷ cs) = c ∷ slice n cs

unfoldable pub digits_value : ℕ → Text → ℕ
digits_value acc [] = acc
digits_value acc (c ∷ cs) = digits_value (acc * 10 + (c - 48)) cs

-- `parseNumber` with the schema for a number of digits
unfoldable pub parse_number : ℕ → Text → Option ℕ
unfolding all_digits slice digits_value
parse_number most raw = if all_digits raw then parsed (slice most raw) else none
  where
    parsed : Text → Option ℕ
    parsed [] = none
    parsed (c ∷ cs) = some (digits_value 0 (c ∷ cs))

pub record Store : Type 0 where
  pub year : Option ℕ
  pub month : Option ℕ
  pub day : Option ℕ

abbrev pub empty_store : Store
empty_store = record { year = none; month = none; day = none }

pub data DatePrecision : Type 0 where
  by_year by_month by_day : DatePrecision

pub record Value : Type 0 where
  pub date : Date
  pub precision : DatePrecision

-- The month, and the day within it, that are kept.
abbrev kept_month : Option ℕ → Option ℕ
kept_month none = none
kept_month (some m) = if ltb m 1 then none else some (min m 12)

abbrev kept_day : ℕ → Option ℕ → Option ℕ → Option ℕ
kept_day year none day = none
kept_day year (some m) none = none
kept_day year (some m) (some d) = if ltb d 1 then none else some (min d (days_in_month year m))

unfoldable pub store_normalize : Store → Store
store_normalize store = elim store.year [
  | none ↦ empty_store
  | some year ↦
      let month = kept_month store.month in
      record { year = some year; month = month; day = kept_day year month store.day }
]

unfoldable pub store_get_precision : Store → Option DatePrecision
store_get_precision store = elim store.year [
  | none ↦ none
  | some _ ↦ elim store.month [
    | none ↦ some by_year
    | some _ ↦ elim store.day [ none ↦ some by_month | some _ ↦ some by_day ]
  ]
]

abbrev at_most : ℕ → Option ℕ → Option ℕ
at_most limit none = none
at_most limit (some year) = some (min year limit)

unfoldable pub set_year : ℕ → Store → Text → Store
unfolding parse_number store_normalize
set_year this_year store raw =
    store_normalize (record store { year = at_most this_year (parse_number 4 raw) })

unfoldable pub set_month : Store → Text → Store
unfolding parse_number store_normalize
set_month store raw = store_normalize (record store { month = parse_number 2 raw })

unfoldable pub set_day : Store → Text → Store
unfolding parse_number store_normalize
set_day store raw = store_normalize (record store { day = parse_number 2 raw })

unfoldable pub value_to_store : Option Value → Store
unfolding store_normalize
value_to_store none = empty_store
value_to_store (some v) = store_normalize (record {
  year = some v.date.year;
  month = elim v.precision [ by_year ↦ none | _ ↦ some v.date.month ];
  day = elim v.precision [ by_day ↦ some v.date.day | _ ↦ none ];
})

unfoldable pub store_to_value : Store → Option Value
unfolding store_get_precision from_ymd
store_to_value store = elim (store_get_precision store) [
  | none ↦ none
  | some precision ↦ some (record {
    date = from_ymd (or_else store.year 0) (or_else store.month 1) (or_else store.day 1);
    precision = precision;
  })
]
