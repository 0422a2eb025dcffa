-- ===== src/TagTree/Active.antt =====
-- The item that takes part in the tab order.
use touhou_cloud_music_thcdb.Common.{
  ℕ, ◌<◌, ◌≡◌, refl, inl, inr, true, false, Option, none, some, List, [], ◌∷◌, has, or_else,
  Bool-cases,
}
use touhou_cloud_music_thcdb.TagTree.{
  Forest, get, build_tag_tree_index, resolve_active_tree_id, or_first,
}
use touhou_cloud_music_thcdb.TagTree.Index.{IsDistinct, build-IsRanked}
use touhou_cloud_music_thcdb.TagTree.Climb.{Nearest, next, up, Found, climb-Found}
use touhou_cloud_music_thcdb.TagTree.Parents.{Parent, build-Parent}

-- `a` is the first visible one among the ancestors of `k` in the tree.
pub data Ancestor (visible : List ℕ) (f : Forest) : ℕ → ℕ → Type 0 where
  parent : {k p : ℕ} → Parent f p k → has visible p ≡ true → Ancestor visible f k p
  further :
      {k p a : ℕ}
      → Parent f p k
      → has visible p ≡ false
      → Ancestor visible f p a
      → Ancestor visible f k a

abbrev parents_of : Forest → List (ℕ × Option ℕ)
parents_of f = (build_tag_tree_index f).parent_by_id

Nearest-Ancestor :
    {visible : List ℕ} {f : Forest} {k a : ℕ}
    → IsDistinct f
    → Nearest visible (parents_of f) k a
    → Ancestor visible f k a
Nearest-Ancestor {f} d (next {k} {p} e h) = parent ((build-Parent f d p k).0 e) h
Nearest-Ancestor {f} d (up {k} {p} e h n) =
    further ((build-Parent f d p k).0 e) h (Nearest-Ancestor d n)

Ancestor-Nearest :
    {visible : List ℕ} {f : Forest} {k a : ℕ}
    → IsDistinct f
    → Ancestor visible f k a
    → Nearest visible (parents_of f) k a
Ancestor-Nearest {f} d (parent {k} {p} q h) = next ((build-Parent f d p k).1 q) h
Ancestor-Nearest {f} d (further {k} {p} q h n) =
    up ((build-Parent f d p k).1 q) h (Ancestor-Nearest d n)

-- What the active item of the component means, from the item that was made active last.
pub data Resolves (f : Forest) : List ℕ → Option ℕ → Option ℕ → Type 0 where
  nothing : {active : Option ℕ} → Resolves f [] active none
  unset : {first : ℕ} {ids : List ℕ} → Resolves f (first ∷ ids) none (some first)
  itself :
      {first a : ℕ} {ids : List ℕ}
      → has (first ∷ ids) a ≡ true
      → Resolves f (first ∷ ids) (some a) (some a)
  ancestor :
      {first a b : ℕ} {ids : List ℕ}
      → has (first ∷ ids) a ≡ false
      → Ancestor (first ∷ ids) f a b
      → Resolves f (first ∷ ids) (some a) (some b)
  fallback :
      {first a : ℕ} {ids : List ℕ}
      → has (first ∷ ids) a ≡ false
      → ((b : ℕ) → ¬ Ancestor (first ∷ ids) f a b)
      → Resolves f (first ∷ ids) (some a) (some first)

abbrev result_of : ℕ → Option ℕ → Option ℕ
result_of first none = some first
result_of first (some b) = some b

hidden-Resolves :
    (f : Forest) {first a : ℕ} {ids : List ℕ} (r : Option ℕ)
    → IsDistinct f
    → has (first ∷ ids) a ≡ false
    → Found (first ∷ ids) (parents_of f) a r
    → Resolves f (first ∷ ids) (some a) (result_of first r)
hidden-Resolves f none d h n = fallback h (λ b q. n b (Ancestor-Nearest d q))
hidden-Resolves f (some b) d h n = ancestor h (Nearest-Ancestor d n)

or_first_of : (first : ℕ) (r : Option ℕ) → or_first first (some r) ≡ some (result_of first r)
or_first_of first none = refl
or_first_of first (some b) = refl

-- In a tree with distinct ids, with more fuel than the depth of the active item, the loop of
-- `resolveActiveTreeId` ends. Nothing is active if nothing is visible; otherwise the result is the
-- active item if it is visible, else its nearest visible ancestor in the tree, else the first
-- visible item.
pub resolve-Resolves :
    (f : Forest) (visible : List ℕ) (active : Option ℕ) (fuel : ℕ)
    → IsDistinct f
    → ((a : ℕ) → active ≡ some a → or_else (get (build_tag_tree_index f).depth_by_id a) 0 < fuel)
    → (r : Option ℕ) × (resolve_active_tree_id fuel active visible
          (build_tag_tree_index f).parent_by_id
        ≡ some r)
      × Resolves f visible active r
unfolding resolve_active_tree_id
resolve-Resolves f [] active fuel d h = (none, refl, nothing)
resolve-Resolves f (first ∷ ids) none fuel d h = (some first, refl, unset)
resolve-Resolves f (first ∷ ids) (some a) fuel d h = elim (Bool-cases (has (first ∷ ids) a)) [
  | inl shown ↦ (some a, rw shown, itself shown)
  | inr hidden ↦
      let (r, e, found) =
        climb-Found (first ∷ ids) (build_tag_tree_index f) (build-IsRanked f d) fuel a (h a refl) in
      (result_of first r, rw (hidden, e) (or_first_of first r), hidden-Resolves f r d hidden found)
]
