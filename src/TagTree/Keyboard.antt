-- ===== src/TagTree/Keyboard.antt =====
-- The keys of the tree: handleHorizontalKey and handleTreeKeyDown of
-- web/frontend/src/view/tag/TagTree.tsx.
use touhou_cloud_music_thcdb.Common.{
  ℕ, zero, suc, ◌+◌, Bool, true, false, not, ◌&&◌, Option, none, some, List, [], ◌∷◌, has, leb,
  ◌==◌, or_else, if◌then◌else◌, length, get_elem?,
}
use touhou_cloud_music_thcdb.TagTree.{
  Forest, TagTree, has_nodes, first_id, get, parent_of, build_tag_tree_index, expanded_ids,
  visible_ids, toggle_expanded, focus_tree_item,
}

abbrev focus_if : Option ℕ → TagTree → TagTree
focus_if none t = t
focus_if (some id) t = focus_tree_item id t

-- `ids.indexOf(id)`, `none` for -1
unfoldable pub index_of : List ℕ → ℕ → Option ℕ
index_of [] id = none
index_of (x ∷ xs) id =
    if x == id then some 0 else elim (index_of xs id) [ none ↦ none | some i ↦ some (suc i) ]

unfoldable pub last : List ℕ → Option ℕ
last [] = none
last (x ∷ []) = some x
last (x ∷ y ∷ xs) = last (y ∷ xs)

pub data Key : Type 0 where
  arrow_down arrow_up home end arrow_right arrow_left other : Key

abbrev go_right : ℕ → ℕ → Forest → Bool → TagTree → TagTree × Bool
unfolding toggle_expanded
go_right id depth children expanded t =
    if not (has_nodes children)
    then (t, false)
    else if not expanded
    then (toggle_expanded id depth expanded t, true)
    else (focus_if (first_id children) t, true)

abbrev go_left : ℕ → ℕ → Option ℕ → Bool → TagTree → TagTree × Bool
unfolding toggle_expanded
go_left id depth parent expanded t =
    if expanded then (toggle_expanded id depth expanded t, true) else (focus_if parent t, true)

-- The result also says whether the event's default action was prevented.
unfoldable pub handle_horizontal_key : ℕ → Key → TagTree → TagTree × Bool
unfolding toggle_expanded expanded_ids build_tag_tree_index get
handle_horizontal_key id key t =
    let ix = build_tag_tree_index t.nodes in
    elim (get ix.node_by_id id) [
      | none ↦ (t, false)
      | some children ↦
          let expanded = has_nodes children && has (expanded_ids t) id in
          let depth = or_else (get ix.depth_by_id id) 0 in
          elim key [
            | arrow_right ↦ go_right id depth children expanded t
            | arrow_left ↦ go_left id depth (parent_of ix.parent_by_id id) expanded t
            | _ ↦ (t, false)
          ]
    ]

abbrev go_down : List ℕ → Option ℕ → TagTree → TagTree × Bool
go_down ids none t = (t, false)
go_down ids (some i) t =
    if leb (length ids) (i + 1) then (t, false) else (focus_if (get_elem? ids (i + 1)) t, true)

abbrev go_up : List ℕ → Option ℕ → TagTree → TagTree × Bool
go_up ids none t = (t, false)
go_up ids (some zero) t = (t, false)
go_up ids (some (suc i)) t = (focus_if (get_elem? ids i) t, true)

unfoldable pub handle_tree_key_down : ℕ → Key → TagTree → TagTree × Bool
unfolding visible_ids index_of last handle_horizontal_key
handle_tree_key_down id arrow_down t = go_down (visible_ids t) (index_of (visible_ids t) id) t
handle_tree_key_down id arrow_up t = go_up (visible_ids t) (index_of (visible_ids t) id) t
handle_tree_key_down id home t = (focus_if (get_elem? (visible_ids t) 0) t, true)
handle_tree_key_down id end t = (focus_if (last (visible_ids t)) t, true)
handle_tree_key_down id other t = (t, false)
handle_tree_key_down id key t = handle_horizontal_key id key t
