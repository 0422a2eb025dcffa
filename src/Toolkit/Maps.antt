-- ===== src/Toolkit/Maps.antt =====
-- What `getOrInsert` finds and leaves.
use touhou_cloud_music_thcdb.Common.{
  ◌≡◌, refl, ap, ◌∙◌, ◌↔◌, inl, inr, Bool, true, List, ◌∷◌, none, some, if◌then◌else◌, Bool-cases,
  Option-cases,
}
use touhou_cloud_music_thcdb.Toolkit.Arrays.{map_get, get_or_insert, get_or_insert_with}

module _ {K V : Type 0} (same : K → K → Bool)
    (same_iff : (a b : K) → (same a b ≡ true) ↔ (a ≡ b)) where
  map_get-same :
      (self : List (K × V)) (key j : K)
      → map_get same self j ≡ (if same key j then map_get same self key else map_get same self j)
  map_get-same self key j = elim (Bool-cases (same key j)) [
    | inl p ↦ rw (p, (same_iff key j).0 p) refl
    | inr p ↦ rw p refl
  ]

  get_or_insert-found :
      (self : List (K × V)) (key : K) (default v : V)
      → map_get same self key ≡ some v
      → (get_or_insert same self key default ≡ (v, self))
        × (get_or_insert_with same self key (λ _. default) ≡ (v, self))
  unfolding get_or_insert get_or_insert_with
  get_or_insert-found self key default v e = (simp (get_or_insert, e), simp (get_or_insert_with, e))

  get_or_insert-missing :
      (self : List (K × V)) (key : K) (default : V)
      → map_get same self key ≡ none
      → (get_or_insert same self key default ≡ (default, (key, default) ∷ self))
        × (get_or_insert_with same self key (λ _. default) ≡ (default, (key, default) ∷ self))
  unfolding get_or_insert get_or_insert_with
  get_or_insert-missing self key default e = (simp (get_or_insert, e), simp (get_or_insert_with, e))

  map_get-head :
      (self : List (K × V)) (key : K) (v : V) → map_get same ((key, v) ∷ self) key ≡ some v
  unfolding map_get
  map_get-head self key v = rw ((same_iff key key).1 refl) refl

  -- `getOrInsert` returns the value that the map has for the key afterwards, and leaves the values
  -- of all other keys as they were; a second call returns the same and changes nothing, whatever
  -- its default, and `getOrInsertWith` does the same as `getOrInsert`.
  pub get_or_insert-get :
      (self : List (K × V)) (key j : K) (default other : V)
      → let (v, inserted) = get_or_insert same self key default in
        (map_get same inserted j ≡ (if same key j then some v else map_get same self j))
        × (get_or_insert same inserted key other ≡ (v, inserted))
        × (get_or_insert_with same self key (λ _. default) ≡ (v, inserted))
  unfolding map_get
  get_or_insert-get self key j default other = elim (Option-cases (map_get same self key)) [
    | inl e ↦
        let (once, lazy) = get_or_insert-missing self key default e in
        rw (once, lazy)
          (
            refl,
            (get_or_insert-found ((key, default) ∷ self) key other default
                (map_get-head self key default)).0,
            refl,
          )
    | inr (v, e) ↦
        let (once, lazy) = get_or_insert-found self key default v e in
        rw (once, lazy)
          (
            map_get-same self key j ∙ ap (λ o. if same key j then o else map_get same self j) e,
            (get_or_insert-found self key other v e).0,
            refl,
          )
  ]
