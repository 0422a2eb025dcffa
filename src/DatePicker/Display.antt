-- ===== src/DatePicker/Display.antt =====
-- How a date is shown: `display` and `toInput` of
-- web/frontend/src/domain/shared/date_with_precision.ts. A date is its text, year-month-day;
-- `new Date` on it is an argument.
use touhou_cloud_music_thcdb.Common.{
  ℕ, ◌≡◌, refl, ap, ◌∙◌, false, Option, none, some, List, [], ◌∷◌, ◌++◌, ◌==◌, Text, codes, All,
  get_elem?, or_else, if◌then◌else◌,
}
use touhou_cloud_music_thcdb.DatePicker.{Value, DatePrecision, by_year, by_month, by_day}
use touhou_cloud_music_thcdb.DatePicker.Calendar.{Date}

-- What the server sends.
pub record DateText : Type 0 where
  pub value : Text
  pub precision : DatePrecision

-- The code of "-".
abbrev pub dash : ℕ
dash = 45

abbrev pub start_part : ℕ → List Text → List Text
start_part c [] = (c ∷ []) ∷ []
start_part c (part ∷ parts) = (c ∷ part) ∷ parts

-- `split("-")`
unfoldable pub split_dashes : Text → List Text
split_dashes [] = [] ∷ []
split_dashes (c ∷ s) =
    let rest = split_dashes s in if c == dash then [] ∷ rest else start_part c rest

-- A part in a template; one that is missing is `undefined`.
abbrev pub part_text : List Text → ℕ → Text
part_text parts i = or_else (get_elem? parts i) (codes "undefined")

abbrev pub display_parts : List Text → DatePrecision → Text
display_parts parts by_year = part_text parts 0
display_parts parts by_month = part_text parts 0 ++ codes "-" ++ part_text parts 1
display_parts parts by_day =
    part_text parts 0 ++ codes "-" ++ part_text parts 1 ++ codes "-" ++ part_text parts 2

unfoldable pub display : Option DateText → Option Text
unfolding split_dashes
display none = none
display (some date) = some (display_parts (split_dashes date.value) date.precision)

module _ (new_date : Text → Date) where
  unfoldable pub to_input : Option DateText → Option Value
  to_input none = none
  to_input (some date) = some (record { date = new_date date.value; precision = date.precision })

-- No character of the text is "-".
abbrev pub IsPart : Text → Type 0
IsPart s = All (λ c. (c == dash) ≡ false) s

split-part : (s : Text) → IsPart s → split_dashes s ≡ s ∷ []
unfolding split_dashes
split-part [] h = refl
split-part (c ∷ s) (n, h) = rw (n, split-part s h) refl

split-parts : (s rest : Text) → IsPart s → split_dashes (s ++ (dash ∷ rest)) ≡ s ∷ split_dashes rest
unfolding split_dashes
split-parts [] rest h = refl
split-parts (c ∷ s) rest (n, h) = rw (n, split-parts s rest h) refl

abbrev pub shown_parts : Text → Text → Text → DatePrecision → Text
shown_parts y m d by_year = y
shown_parts y m d by_month = y ++ codes "-" ++ m
shown_parts y m d by_day = y ++ codes "-" ++ m ++ codes "-" ++ d

-- A date of three parts without dashes is shown with those that its precision names.
pub display-parts :
    (y m d : Text) (precision : DatePrecision)
    → IsPart y
    → IsPart m
    → IsPart d
    → display (some (record { value = y ++ (dash ∷ m ++ (dash ∷ d)); precision = precision }))
      ≡ some (shown_parts y m d precision)
unfolding display
display-parts y m d precision p q r =
    let three =
      split-parts y (m ++ (dash ∷ d)) p
      ∙ ap (◌∷◌ y) (split-parts m d q ∙ ap (◌∷◌ m) (split-part d r)) in
    rw three (by_precision precision)
  where
    by_precision :
        (precision : DatePrecision)
        → some (display_parts (y ∷ m ∷ d ∷ []) precision) ≡ some (shown_parts y m d precision)
    by_precision by_year = refl
    by_precision by_month = refl
    by_precision by_day = refl
