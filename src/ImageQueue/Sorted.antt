-- ===== src/ImageQueue/Sorted.antt =====
-- The ids in descending order, each once.
use touhou_cloud_music_thcdb.Common.{
  ◌≡◌, ◌≢◌, refl, sym, ap, ◌∙◌, ◌↔◌, ◌⊎◌, inl, inr, true, false, List, [], ◌∷◌, map, In, ℤ, pos,
  negsuc, ltb_ℤ, arith, Bool-cases,
}
use touhou_cloud_music_thcdb.EntityTags.{is_above, sign_of_difference, sort, insert}
use touhou_cloud_music_thcdb.Toolkit.Arrays.{dedupe_by}
use touhou_cloud_music_thcdb.Toolkit.Dedupe.{IsDistinct, dedupe_by-keys}
use touhou_cloud_music_thcdb.ImageQueue.{same_ℤ, descending, unique_ids}

pub same_ℤ_iff : (a b : ℤ) → (same_ℤ a b ≡ true) ↔ (a ≡ b)
same_ℤ_iff (pos m) (pos n) = ground arith
same_ℤ_iff (pos m) (negsuc n) = ground arith
same_ℤ_iff (negsuc m) (pos n) = ground arith
same_ℤ_iff (negsuc m) (negsuc n) = ground arith

descending-above : (a b : ℤ) → is_above (descending a b) ≡ ltb_ℤ a b
unfolding sign_of_difference
descending-above a b = ground arith

-- The id is above all of these.
abbrev pub IsTop : ℤ → List ℤ → Type 0
IsTop x xs = (y : ℤ) → In y xs → ltb_ℤ y x ≡ true

abbrev pub IsDescending : List ℤ → Type 0
IsDescending [] = Unit
IsDescending (x ∷ xs) = IsTop x xs × IsDescending xs

insert-In : (y : ℤ) (xs : List ℤ) (x : ℤ) → In x (insert descending y xs) → (y ≡ x) ⊎ In x xs
unfolding insert
insert-In y [] x = elim [ inl e ↦ inl e | inr h ↦ absurd h ]
insert-In y (z ∷ zs) x = elim (Bool-cases (is_above (descending y z))) [
  | inl e ↦
      simp (insert, e)
        (elim [
          | inl p ↦ inr (inl p)
          | inr h ↦ elim (insert-In y zs x h) [ inl p ↦ inl p | inr k ↦ inr (inr k) ]
        ])
  | inr e ↦ simp (insert, e) (λ h. h)
]

In-insert : (y : ℤ) (xs : List ℤ) (x : ℤ) → (y ≡ x) ⊎ In x xs → In x (insert descending y xs)
unfolding insert
In-insert y [] x = λ h. h
In-insert y (z ∷ zs) x = elim (Bool-cases (is_above (descending y z))) [
  | inl e ↦
      simp (insert, e)
        (elim [
          | inl p ↦ inr (In-insert y zs x (inl p))
          | inr h ↦ elim h [ inl p ↦ inl p | inr k ↦ inr (In-insert y zs x (inr k)) ]
        ])
  | inr e ↦ simp (insert, e) (λ h. h)
]

pub above_trans : (a b c : ℤ) → ltb_ℤ a b ≡ true → ltb_ℤ b c ≡ true → ltb_ℤ a c ≡ true
above_trans a b c p q = ground arith

above-rest : (y z : ℤ) → ltb_ℤ y z ≡ false → y ≢ z → ltb_ℤ z y ≡ true
above-rest y z p n = ground (arith, same_ℤ_iff y z)

insert-IsDescending :
    (y : ℤ) (xs : List ℤ) → ¬ In y xs → IsDescending xs → IsDescending (insert descending y xs)
unfolding insert
insert-IsDescending y [] n d = (λ x h. absurd h, tt)
insert-IsDescending y (z ∷ zs) n (top, d) = elim (Bool-cases (ltb_ℤ y z)) [
  | inl e ↦
      simp (insert, descending-above y z ∙ e)
        (
          λ x h. elim (insert-In y zs x h) [
            | inl p ↦ ap (λ a. ltb_ℤ a z) (sym p) ∙ e
            | inr k ↦ top x k
          ],
          insert-IsDescending y zs (λ h. n (inr h)) d,
        )
  | inr e ↦
      let under = above-rest y z e (λ p. n (inl (sym p))) in
      simp (insert, descending-above y z ∙ e)
        (
          λ x. elim [
            | inl p ↦ ap (λ a. ltb_ℤ a y) (sym p) ∙ under
            | inr k ↦ above_trans x z y (top x k) under
          ],
          (top, d),
        )
]

sort-In : (xs : List ℤ) (x : ℤ) → In x (sort descending xs) → In x xs
unfolding sort
sort-In [] x h = h
sort-In (y ∷ ys) x h = elim (insert-In y (sort descending ys) x h) [
  | inl p ↦ inl p
  | inr k ↦ inr (sort-In ys x k)
]

In-sort : (xs : List ℤ) (x : ℤ) → In x xs → In x (sort descending xs)
unfolding sort
In-sort [] x h = h
In-sort (y ∷ ys) x (inl p) = In-insert y (sort descending ys) x (inl p)
In-sort (y ∷ ys) x (inr h) = In-insert y (sort descending ys) x (inr (In-sort ys x h))

sort-IsDescending : (xs : List ℤ) → IsDistinct xs → IsDescending (sort descending xs)
unfolding sort
sort-IsDescending [] d = tt
sort-IsDescending (x ∷ xs) (n, d) =
    insert-IsDescending x (sort descending xs) (λ h. n (sort-In xs x h)) (sort-IsDescending xs d)

map-id : (xs : List ℤ) → map (λ id. id) xs ≡ xs
map-id [] = refl
map-id (x ∷ xs) = ap (◌∷◌ x) (map-id xs)

deduped :
    (ids : List ℤ) (x : ℤ)
    → let unique = dedupe_by same_ℤ ids (λ id. id) in IsDistinct unique × (In x unique ↔ In x ids)
deduped ids x =
    let unique = dedupe_by same_ℤ ids (λ id. id) in
    let (first, distinct, same) = dedupe_by-keys same_ℤ (λ id. id) same_ℤ_iff ids x in
    (simp (map-id unique) at distinct, simp (map-id ids, map-id unique) at same)

-- The ids of the list, in descending order, each once.
pub unique_ids-IsDescending : (ids : List ℤ) → IsDescending (unique_ids ids)
unfolding unique_ids
unique_ids-IsDescending ids =
    sort-IsDescending (dedupe_by same_ℤ ids (λ id. id)) (deduped ids (negsuc 0)).0

pub unique_ids-In : (ids : List ℤ) (x : ℤ) → In x (unique_ids ids) ↔ In x ids
unfolding unique_ids
unique_ids-In ids x =
    let unique = dedupe_by same_ℤ ids (λ id. id) in
    let (distinct, same) = deduped ids x in
    (λ h. same.0 (sort-In unique x h), λ h. In-sort unique x (same.1 h))
