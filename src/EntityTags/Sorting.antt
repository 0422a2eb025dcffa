-- ===== src/EntityTags/Sorting.antt =====
-- The order in which the tags are shown.
use mathlib.Core.List.{Perm}
use mathlib.Core.List.Perm
use touhou_cloud_music_thcdb.Common.{
  ◌<◌, ◌≡◌, refl, ◌⊎◌, inl, inr, true, false, List, [], ◌∷◌, Text, ltb_ℤ, arith, Bool-cases,
}
use touhou_cloud_music_thcdb.EntityTags.{
  is_above, Sign, insert, sort, sign_of_difference, compare_tags, sort_entity_tags,
  EntityTagAggregate,
}

module _ {A : Type 0} (compare : A → A → Sign) where
  -- The item need not come after the first of the list.
  abbrev pub IsBefore : A → List A → Type 0
  IsBefore x [] = Unit
  IsBefore x (y ∷ ys) = is_above (compare x y) ≡ false

  abbrev pub IsSorted : List A → Type 0
  IsSorted [] = Unit
  IsSorted (x ∷ xs) = IsBefore x xs × IsSorted xs

  insert-Perm : (x : A) (xs : List A) → Perm (insert compare x xs) (x ∷ xs)
  unfolding insert
  insert-Perm x [] = Perm.rfl
  insert-Perm x (y ∷ ys) = elim (Bool-cases (is_above (compare x y))) [
    | inl e ↦ rw e (Perm.trans (Perm.cons y (insert-Perm x ys)) (Perm.swap x y ys))
    | inr e ↦ rw e Perm.rfl
  ]

  pub sort-Perm : (xs : List A) → Perm (sort compare xs) xs
  unfolding sort
  sort-Perm [] = Perm.rfl
  sort-Perm (x ∷ xs) = Perm.trans (insert-Perm x (sort compare xs)) (Perm.cons x (sort-Perm xs))

  module _ (flip : (x y : A) → is_above (compare x y) ≡ true → is_above (compare y x) ≡ false) where
    insert-IsBefore :
        (x y : A) (ys : List A)
        → is_above (compare y x) ≡ false
        → IsBefore y ys
        → IsBefore y (insert compare x ys)
    unfolding insert
    insert-IsBefore x y [] n b = n
    insert-IsBefore x y (z ∷ zs) n b = elim (Bool-cases (is_above (compare x z))) [
      | inl e ↦ simp (insert, e) b
      | inr e ↦ simp (insert, e) n
    ]

    insert-IsSorted : (x : A) (xs : List A) → IsSorted xs → IsSorted (insert compare x xs)
    unfolding insert
    insert-IsSorted x [] s = (tt, tt)
    insert-IsSorted x (y ∷ ys) (b, s) = elim (Bool-cases (is_above (compare x y))) [
      | inl e ↦ simp (insert, e) (insert-IsBefore x y ys (flip x y e) b, insert-IsSorted x ys s)
      | inr e ↦ simp (insert, e) (refl, (b, s))
    ]

    pub sort-IsSorted : (xs : List A) → IsSorted (sort compare xs)
    unfolding sort
    sort-IsSorted [] = tt
    sort-IsSorted (x ∷ xs) = insert-IsSorted x (sort compare xs) (sort-IsSorted xs)

module _ (locale_compare : Text → Text → Sign) where
  -- The relevance is higher, or it is the same and the count is higher, or both are the same and the
  -- name does not come later.
  abbrev pub Precedes : EntityTagAggregate → EntityTagAggregate → Type 0
  Precedes x y =
      (ltb_ℤ y.relevance x.relevance ≡ true)
      ⊎ ((ltb_ℤ x.relevance y.relevance ≡ false)
          × ((y.count < x.count)
              ⊎ ((x.count ≡ y.count) × (is_above (locale_compare x.name y.name) ≡ false))))

  -- Every item precedes the next one.
  abbrev pub IsOrdered : List EntityTagAggregate → Type 0
  IsOrdered [] = Unit
  IsOrdered (x ∷ []) = Unit
  IsOrdered (x ∷ y ∷ tags) = Precedes x y × IsOrdered (y ∷ tags)

  compare_tags-Precedes :
      (x y : EntityTagAggregate) → is_above (compare_tags locale_compare x y) ≡ false → Precedes x y
  unfolding compare_tags sign_of_difference
  compare_tags-Precedes x y h = ground arith

  IsSorted-IsOrdered :
      (tags : List EntityTagAggregate)
      → IsSorted (compare_tags locale_compare) tags
      → IsOrdered tags
  IsSorted-IsOrdered [] s = tt
  IsSorted-IsOrdered (x ∷ []) s = tt
  IsSorted-IsOrdered (x ∷ y ∷ tags) (b, s) =
      (compare_tags-Precedes x y b, IsSorted-IsOrdered (y ∷ tags) s)

  module _
      (locale_flip : (s t : Text)
        → is_above (locale_compare s t) ≡ true
        → is_above (locale_compare t s) ≡ false) where
    compare_tags-flip :
        (x y : EntityTagAggregate)
        → is_above (compare_tags locale_compare x y) ≡ true
        → is_above (compare_tags locale_compare y x) ≡ false
    unfolding compare_tags sign_of_difference
    compare_tags-flip x y h = ground (arith, locale_flip x.name y.name)

    -- If of two names at most one comes after the other: the sorted tags are those of the list, and
    -- each of them has a higher relevance than the next, or the same and a higher count, or both
    -- the same and a name that does not come after.
    pub sort_entity_tags-IsOrdered :
        (tags : List EntityTagAggregate)
        → IsOrdered (sort_entity_tags locale_compare tags)
          × Perm (sort_entity_tags locale_compare tags) tags
    unfolding sort_entity_tags
    sort_entity_tags-IsOrdered tags = (
      IsSorted-IsOrdered (sort (compare_tags locale_compare) tags)
          (sort-IsSorted (compare_tags locale_compare) compare_tags-flip tags),
      sort-Perm (compare_tags locale_compare) tags,
    )
