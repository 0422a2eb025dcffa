-- ===== src/DatePicker/Examples.antt =====
-- Dates that are typed.
use touhou_cloud_music_thcdb.Common.{◌≡◌, refl, true, none, some, List, [], ◌∷◌, codes, arith}
use touhou_cloud_music_thcdb.DatePicker.{
  Store, Value, empty_store, set_year, set_month, set_day, value_to_store, store_to_value, by_year,
  by_month,
}
use touhou_cloud_music_thcdb.DatePicker.Calendar.{days_in_month}
use touhou_cloud_music_thcdb.DatePicker.Normal.{
  IsNormal, IsPast, IsCivil, Accepts, Edit, typed_year, typed_month, typed_day, edit_all,
  edit_all-IsNormal,
}
use touhou_cloud_music_thcdb.DatePicker.RoundTrip.{value_to_store-store_to_value}
use touhou_cloud_music_thcdb.DatePicker.Submission.{submitted, submitted-behind}

abbrev leap_day : Store
leap_day = record { year = some 2024; month = some 2; day = some 29 }

the_day_is_cut :
    set_year 2026 leap_day (codes "2023")
    ≡ record { year = some 2023; month = some 2; day = some 28 }
unfolding set_year days_in_month
the_day_is_cut = refl

only_four_digits :
    set_year 2026 empty_store (codes "19985")
    ≡ record { year = some 1998; month = none; day = none }
unfolding set_year
only_four_digits = refl

abbrev edits : List Edit
edits = typed_year (codes "2024") ∷ typed_month (codes "2") ∷ typed_day (codes "31") ∷ []

edits_end_on_the_leap_day : edit_all 2026 edits empty_store ≡ leap_day
unfolding edit_all set_year set_month set_day days_in_month
edits_end_on_the_leap_day = refl

empty-IsNormal : IsNormal empty_store
unfolding IsNormal
empty-IsNormal = (refl, refl)

leap_day-IsNormal : IsNormal leap_day
unfolding IsNormal days_in_month
leap_day-IsNormal = (omega arith, omega arith, (omega arith, omega arith))

edit_all-IsNormal_example :
    IsNormal (edit_all 2026 edits empty_store)
    × IsPast 2026 (edit_all 2026 edits empty_store)
    × IsCivil (edit_all 2026 edits empty_store)
    × Accepts (edit_all 2026 edits empty_store)
edit_all-IsNormal_example =
    edit_all-IsNormal 2026 edits empty_store empty-IsNormal (λ y e. absurd (cc))

value_to_store-store_to_value_example : value_to_store (store_to_value leap_day) ≡ leap_day
value_to_store-store_to_value_example = value_to_store-store_to_value leap_day leap_day-IsNormal

abbrev spring : Value
spring = record { date = record { year = 2024; month = 5; day = 17 }; precision = by_month }

submitted-behind_example :
    (submitted true (store_to_value (record { year = some 2024; month = none; day = none }))
      ≡ some (record { date = record { year = 2023; month = 1; day = 2 }; precision = by_year }))
    × (submitted true (store_to_value (record { year = some 2023; month = some 5; day = none }))
        ≡ some (record { date = record { year = 2023; month = 4; day = 2 }; precision = by_month }))
submitted-behind_example = submitted-behind 2023 4 (omega arith) (omega arith)
