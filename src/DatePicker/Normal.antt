-- ===== src/DatePicker/Normal.antt =====
-- What every edit leaves in the store.
use touhou_cloud_music_thcdb.Common.{
  ℕ, ◌+◌, ◌-◌, ◌%◌, ◌≤◌, min, leb, ◌==◌, if◌then◌else◌, ◌≡◌, refl, inl, inr, Option, none, some,
  Text, List, [], ◌∷◌, arith, ltb, Bool-cases,
}
use touhou_cloud_music_thcdb.DatePicker.{
  Store, store_normalize, set_year, set_month, set_day, kept_month, kept_day, at_most, parse_number,
}
use touhou_cloud_music_thcdb.DatePicker.Calendar.{days_in_month, month_length, utc_year, is_leap}

abbrev pub IsDay : ℕ → ℕ → Option ℕ → Type 0
IsDay y m none = Unit
IsDay y m (some d) = (1 ≤ d) × (d ≤ days_in_month y m)

abbrev pub IsMonth : ℕ → Option ℕ → Option ℕ → Type 0
IsMonth y none day = day ≡ none
IsMonth y (some m) day = (1 ≤ m) × (m ≤ 12) × IsDay y m day

abbrev pub IsYear : Option ℕ → Option ℕ → Option ℕ → Type 0
IsYear none month day = (month ≡ none) × (day ≡ none)
IsYear (some y) month day = IsMonth y month day

-- There is no month without a year and no day without a month, the month is from 1 to 12, and the
-- day is one of that month.
unfoldable pub IsNormal : Store → Type 0
IsNormal s = IsYear s.year s.month s.day

days_positive : (y m : ℕ) → 1 ≤ days_in_month y m
unfolding days_in_month month_length
days_positive y m = ground arith

kept_day-IsDay : (y m : ℕ) (d : Option ℕ) → IsDay y m (kept_day y (some m) d)
kept_day-IsDay y m none = tt
kept_day-IsDay y m (some d) = elim (Bool-cases (ltb d 1)) [
  | inl low ↦ rw low tt
  | inr high ↦ rw high (grind (arith, days_positive y m), omega arith)
]

kept_month-IsMonth :
    (y : ℕ) (m d : Option ℕ) → IsMonth y (kept_month m) (kept_day y (kept_month m) d)
kept_month-IsMonth y none d = refl
kept_month-IsMonth y (some m) d = elim (Bool-cases (ltb m 1)) [
  | inl low ↦ rw low refl
  | inr high ↦ rw high (ground arith, omega arith, kept_day-IsDay y (min m 12) d)
]

pub normalize-IsNormal : (s : Store) → IsNormal (store_normalize s)
unfolding store_normalize IsNormal
normalize-IsNormal s = elim s.year as (λ y. IsNormal (store_normalize (record s { year = y }))) [
  | none ↦ (refl, refl)
  | some y ↦ kept_month-IsMonth y s.month s.day
]

-- The days of a month by the calendar.
abbrev pub month_days : ℕ → ℕ → ℕ
month_days y m =
    if m == 2
    then (if y % 400 == 0 then 29 else if y % 100 == 0 then 28 else if y % 4 == 0 then 29 else 28)
    else if leb m 7
    then 30 + m % 2
    else 31 - m % 2

-- The year whose months are taken.
abbrev pub counted_year : ℕ → ℕ
counted_year y = if ltb y 100 then y + 1900 else y

-- A day of the store is one of its month.
abbrev pub IsCivil : Store → Type 0
IsCivil s =
    (y m d : ℕ)
    → s.year ≡ some y
    → s.month ≡ some m
    → s.day ≡ some d
    → (1 ≤ d) × (d ≤ month_days (counted_year y) m)

-- A day of the store's month that is typed is kept.
abbrev pub Accepts : Store → Type 0
Accepts s =
    (y m d : ℕ) (raw : Text)
    → s.year ≡ some y
    → s.month ≡ some m
    → (1 ≤ m) × (m ≤ 12)
    → parse_number 2 raw ≡ some d
    → (1 ≤ d) × (d ≤ month_days (counted_year y) m)
    → (set_day s raw).day ≡ some d

days_lem : (y m : ℕ) → 1 ≤ m → m ≤ 12 → days_in_month y m ≡ month_days (counted_year y) m
unfolding days_in_month month_length utc_year is_leap
days_lem y m a b = ground arith

normal-IsCivil : (s : Store) → IsNormal s → IsCivil s
unfolding IsNormal
normal-IsCivil s n y m d ey em ed =
    let in_month : IsYear (some y) (some m) (some d) = rw (ey, em, ed) at n in
    let (low, high, (first, last)) = in_month in (first, rw (days_lem y m low high) at last)

every-Accepts : (s : Store) → Accepts s
unfolding set_day store_normalize
every-Accepts s y m d raw ey em (low, high) e (first, last) = ground (arith, days_lem y m low high)

pub data Edit : Type 0 where
  typed_year typed_month typed_day : Text → Edit

module _ (this_year : ℕ) where
  unfoldable pub edit : Edit → Store → Store
  edit (typed_year raw) s = set_year this_year s raw
  edit (typed_month raw) s = set_month s raw
  edit (typed_day raw) s = set_day s raw

  unfoldable pub edit_all : List Edit → Store → Store
  unfolding edit
  edit_all [] s = s
  edit_all (e ∷ es) s = edit_all es (edit e s)

  -- The year is not after this one.
  abbrev pub IsPast : Store → Type 0
  IsPast s = (y : ℕ) → s.year ≡ some y → y ≤ this_year

  edit-lem : (e : Edit) (s : Store) → IsPast s → IsNormal (edit e s) × IsPast (edit e s)
  unfolding edit set_year set_month set_day store_normalize
  edit-lem (typed_year raw) s h = (
    normalize-IsNormal (record s { year = at_most this_year (parse_number 4 raw) }),
    λ y e. ground arith,
  )
  edit-lem (typed_month raw) s h =
      (normalize-IsNormal (record s { month = parse_number 2 raw }), λ y e. ground (arith, h y))
  edit-lem (typed_day raw) s h =
      (normalize-IsNormal (record s { day = parse_number 2 raw }), λ y e. ground (arith, h y))

  edits-lem :
      (es : List Edit) (s : Store)
      → IsNormal s
      → IsPast s
      → IsNormal (edit_all es s) × IsPast (edit_all es s)
  unfolding edit_all
  edits-lem [] s n p = (n, p)
  edits-lem (e ∷ es) s n p =
      let (normal, past) = edit-lem e s p in edits-lem es (edit e s) normal past

  -- Whatever is typed into the three fields, in whatever order, in a store that is normal and whose
  -- year is not after this one: it stays so, a day that it has is one of the month by the calendar,
  -- and every day of its month can then be typed in. A year up to 99 has the months of the year
  -- that is 1900 years later.
  pub edit_all-IsNormal :
      (es : List Edit) (s : Store)
      → IsNormal s
      → IsPast s
      → IsNormal (edit_all es s)
        × IsPast (edit_all es s)
        × IsCivil (edit_all es s)
        × Accepts (edit_all es s)
  edit_all-IsNormal es s n p =
      let (normal, past) = edits-lem es s n p in
      (normal, past, normal-IsCivil (edit_all es s) normal, every-Accepts (edit_all es s))
