-- ===== src/TagTree/Examples.antt =====
-- A tree of five tags.
use touhou_cloud_music_thcdb.Common.{
  ℕ, ◌≡◌, ◌≢◌, refl, true, Option, none, some, [], ◌∷◌, codes, arith,
}
use touhou_cloud_music_thcdb.TagTree.{
  Forest, nil, node, TagTree, visible_ids, build_tag_tree_index, get, resolve_active_tree_id,
}
use touhou_cloud_music_thcdb.TagTree.Keyboard.{index_of, arrow_down}
use touhou_cloud_music_thcdb.TagTree.Horizontal.{IsInner}
use touhou_cloud_music_thcdb.TagTree.Index.{IsDistinct, member}
use touhou_cloud_music_thcdb.TagTree.Active.{Resolves, resolve-Resolves}
use touhou_cloud_music_thcdb.TagTree.Parents.{is_root}
use touhou_cloud_music_thcdb.TagTree.Bubbling.{focus_in, key_down, focus_in-root}

abbrev leaf : ℕ → Forest → Forest
leaf id rest = node id (codes "tag") nil rest

abbrev tags : Forest
tags = node 1 (codes "genre") (node 2 (codes "rock") (leaf 3 nil) (leaf 4 nil)) (leaf 5 nil)

abbrev tree : TagTree
tree = record { nodes = tags; expanded_override = none; active = none }

all_visible : visible_ids tree ≡ 1 ∷ 2 ∷ 3 ∷ 4 ∷ 5 ∷ []
unfolding visible_ids
all_visible = refl

tags-IsDistinct : IsDistinct tags
unfolding member
tags-IsDistinct = ground arith

resolve-Resolves_example :
    (r : Option ℕ) × (resolve_active_tree_id 3
        (some 3)
        (1 ∷ 5 ∷ [])
        (build_tag_tree_index tags).parent_by_id
      ≡ some r)
    × Resolves tags (1 ∷ 5 ∷ []) (some 3) r
unfolding build_tag_tree_index get
resolve-Resolves_example =
    resolve-Resolves tags (1 ∷ 5 ∷ []) (some 3) 3 tags-IsDistinct (λ a e. ground (arith, e))

focus_in-root_example :
    (r : ℕ) × ((focus_in 3 tree).active ≡ some r) × (is_root tags r ≡ true) × (r ≢ 3)
unfolding member is_root
focus_in-root_example = focus_in-root tree 3 refl refl

-- The handlers of 3, 2 and 1 run, and the last makes the item after 1 active.
down_on_nested : (key_down 3 arrow_down tree).active ≡ some 2
unfolding key_down visible_ids index_of
down_on_nested = refl

abbrev half_open : TagTree
half_open = record { nodes = tags; expanded_override = some (1 ∷ []); active = none }

two-IsInner : IsInner half_open 2 0 (leaf 3 nil)
unfolding build_tag_tree_index get
two-IsInner = record { indexed = refl; parental = refl; placed = refl }
