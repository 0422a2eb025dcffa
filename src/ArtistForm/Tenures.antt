-- ===== src/ArtistForm/Tenures.antt =====
-- When the tenures of a membership are accepted.
use touhou_cloud_music_thcdb.Common.{
  ◌≡◌, ◌↔◌, Option, none, some, List, [], ◌∷◌, ◌++◌, ℤ, ltb_ℤ, true, arith,
}
use touhou_cloud_music_thcdb.ArtistForm.{
  Tenure, not_record, years, TenureError, compare_years, entry_errors, errors_after,
  compute_tenure_error,
}

-- The first year, if both are known, is before the second.
abbrev pub IsBefore : Option ℤ → Option ℤ → Type 0
IsBefore none second = Unit
IsBefore (some first) none = Unit
IsBefore (some first) (some second) = ltb_ℤ first second ≡ true

abbrev pub IsInOrder : Tenure → Type 0
IsInOrder not_record = Unit
IsInOrder (years join leave) = IsBefore join leave

-- One tenure ends before the other begins.
abbrev pub EndsBefore : Tenure → Tenure → Type 0
EndsBefore not_record next = Unit
EndsBefore (years join leave) not_record = Unit
EndsBefore (years join leave) (years next_join next_leave) = IsBefore leave next_join

-- Every tenure is in order and ends before the next begins.
abbrev pub IsChronological : List Tenure → Type 0
IsChronological [] = Unit
IsChronological (t ∷ []) = IsInOrder t
IsChronological (t ∷ u ∷ tenures) = IsInOrder t × EndsBefore t u × IsChronological (u ∷ tenures)

compare_years_iff :
    (e f : TenureError) (first second : Option ℤ)
    → (compare_years e f first second ≡ []) ↔ IsBefore first second
unfolding compare_years
compare_years_iff e f none second = ground arith
compare_years_iff e f (some first) none = ground arith
compare_years_iff e f (some first) (some second) = ground arith

append_nil : {A : Type 0} (xs ys : List A) → (xs ++ ys ≡ []) ↔ ((xs ≡ []) × (ys ≡ []))
append_nil [] ys = ground arith
append_nil (x ∷ xs) ys = ground arith

first_errors_iff : (t : Tenure) → (entry_errors none t ≡ []) ↔ IsInOrder t
unfolding entry_errors
first_errors_iff not_record = ground arith
first_errors_iff (years join leave) = compare_years_iff _ _ join leave

next_errors_iff : (t u : Tenure) → (entry_errors (some t) u ≡ []) ↔ (EndsBefore t u × IsInOrder u)
unfolding entry_errors
next_errors_iff not_record not_record = ground arith
next_errors_iff (years a b) not_record = ground arith
next_errors_iff not_record (years join leave) =
    let (f, g) = compare_years_iff _ _ join leave in (λ e. (tt, f e), λ h. g h.1)
next_errors_iff (years a b) (years join leave) =
    let (f, g) = compare_years_iff _ _ join leave in
    let (h, k) = compare_years_iff _ _ b join in
    let (s, t) = append_nil _ _ in (λ e. (h (s e).1, f (s e).0), λ p. t (g p.1, k p.0))

-- Every tenure after one that is given.
abbrev FollowsAll : Tenure → List Tenure → Type 0
FollowsAll t [] = Unit
FollowsAll t (u ∷ tenures) = EndsBefore t u × IsInOrder u × FollowsAll u tenures

errors_after_iff :
    (t : Tenure) (tenures : List Tenure)
    → (errors_after (some t) tenures ≡ []) ↔ FollowsAll t tenures
unfolding errors_after
errors_after_iff t [] = ground arith
errors_after_iff t (u ∷ tenures) =
    let (f, g) = next_errors_iff t u in
    let (h, k) = errors_after_iff u tenures in
    let (s, j) = append_nil (entry_errors (some t) u) (errors_after (some u) tenures) in
    (λ e. ((f (s e).0).0, (f (s e).0).1, h (s e).1), λ p. j (g (p.0, p.1), k p.2))

follows-IsChronological :
    (t : Tenure) (tenures : List Tenure)
    → (IsInOrder t × FollowsAll t tenures) ↔ IsChronological (t ∷ tenures)
follows-IsChronological t [] = (λ p. p.0, λ h. (h, tt))
follows-IsChronological t (u ∷ tenures) =
    let (f, g) = follows-IsChronological u tenures in
    (λ p. (p.0, p.1.0, f (p.1.1, p.1.2)), λ h. (h.0, (h.1, (g h.2).0, (g h.2).1)))

-- No error is shown for the tenures of a membership exactly when each of them, where both years are
-- known, begins before it ends, and each, where the years are known, ends before the next one
-- begins; an entry that is no record is compared with none.
pub compute_tenure_error_iff :
    (tenures : List Tenure) → (compute_tenure_error tenures ≡ []) ↔ IsChronological tenures
unfolding compute_tenure_error errors_after
compute_tenure_error_iff [] = ground arith
compute_tenure_error_iff (t ∷ tenures) =
    let (f, g) = first_errors_iff t in
    let (h, k) = errors_after_iff t tenures in
    let (s, j) = append_nil (entry_errors none t) (errors_after (some t) tenures) in
    let (c, d) = follows-IsChronological t tenures in
    (λ e. c (f (s e).0, h (s e).1), λ chron. let p = d chron in j (g p.0, k p.1))
