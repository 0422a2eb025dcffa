-- ===== src/Toolkit/Arrays.antt =====
-- The helpers on arrays and maps: web/frontend/packages/toolkit/data/array/index.ts and map.ts. The
-- package `dual`, which only reorders arguments, is applied. A `Set` is the list of its members,
-- the one added last first; `same` is the equality of its keys.
use touhou_cloud_music_thcdb.Common.{
  Bool, false, ◌||◌, List, [], ◌∷◌, ◌++◌, map, Option, none, some, if◌then◌else◌,
}

module _ {A B : Type 0} where
  -- `nil` is `null | undefined`.
  unfoldable pub map_or_default : Option (List A) → (A → B) → List B
  map_or_default none f = []
  map_or_default (some self) f = map f self

module _ {K : Type 0} (same : K → K → Bool) where
  -- `Set.prototype.has`
  unfoldable pub set_has : List K → K → Bool
  set_has [] key = false
  set_has (k ∷ seen) key = same k key || set_has seen key

  module _ {A : Type 0} where
    -- The loop of `dedupeBy`, with what it has seen and its result so far.
    unfoldable pub dedupe_loop : (A → K) → List K → List A → List A → List A
    dedupe_loop f seen result [] = result
    dedupe_loop f seen result (item ∷ self) =
        let key = f item in
        let skipped = dedupe_loop f seen result self in
        let pushed = dedupe_loop f (key ∷ seen) (result ++ (item ∷ [])) self in
        if set_has seen key then skipped else pushed

    unfoldable pub dedupe_by : List A → (A → K) → List A
    dedupe_by self f = dedupe_loop f [] [] self

    -- `item[key]` is a function of the item and the key.
    unfoldable pub dedupe_by_key : {P : Type 0} → (A → P → K) → List A → P → List A
    dedupe_by_key member self key = dedupe_loop (λ item. member item key) [] [] self

  module _ {V : Type 0} where
    -- `Map.prototype.get`; the entry set last is first.
    unfoldable pub map_get : List (K × V) → K → Option V
    map_get [] key = none
    map_get ((k, v) ∷ entries) key = if same k key then some v else map_get entries key

    -- The value and the map afterwards. A stored value is never `undefined`.
    unfoldable pub get_or_insert : List (K × V) → K → V → V × List (K × V)
    get_or_insert self key default = elim (map_get self key) [
      | some v ↦ (v, self)
      | none ↦ (default, (key, default) ∷ self)
    ]

    -- The default is computed where it is needed.
    unfoldable pub get_or_insert_with : List (K × V) → K → (Unit {0} → V) → V × List (K × V)
    get_or_insert_with self key default = elim (map_get self key) [
      | some v ↦ (v, self)
      | none ↦ (default tt, (key, default tt) ∷ self)
    ]
