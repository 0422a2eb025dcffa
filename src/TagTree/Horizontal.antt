-- ===== src/TagTree/Horizontal.antt =====
-- The right and the left arrow open and close a node.
use touhou_cloud_music_thcdb.Common.{ℕ, suc, ◌≡◌, ◌∙◌, Bool, true, false, some, has, arith}
use touhou_cloud_music_thcdb.TagTree.{
  Forest, TagTree, has_nodes, get, build_tag_tree_index, expanded_ids, toggle_expanded,
}
use touhou_cloud_music_thcdb.TagTree.Keyboard.{
  handle_tree_key_down, handle_horizontal_key, arrow_right, arrow_left,
}
use touhou_cloud_music_thcdb.TagTree.Visible.{expanded_ids-toggle}

-- A node with children, below the roots.
pub record IsInner (t : TagTree) (id depth : ℕ) (children : Forest) : Type 0 where
  pub indexed : get (build_tag_tree_index t.nodes).node_by_id id ≡ some children
  pub parental : has_nodes children ≡ true
  pub placed : get (build_tag_tree_index t.nodes).depth_by_id id ≡ some (suc depth)

right_lem :
    (t : TagTree) (id depth : ℕ) (children : Forest)
    → IsInner t id depth children
    → has (expanded_ids t) id ≡ false
    → handle_tree_key_down id arrow_right t ≡ (toggle_expanded id (suc depth) false t, true)
unfolding handle_tree_key_down handle_horizontal_key
right_lem t id depth children node shut =
    ground (arith, node.indexed, node.parental, node.placed, shut)

left_lem :
    (t : TagTree) (id depth : ℕ) (children : Forest)
    → IsInner t id depth children
    → has (expanded_ids t) id ≡ true
    → handle_tree_key_down id arrow_left t ≡ (toggle_expanded id (suc depth) true t, true)
unfolding handle_tree_key_down handle_horizontal_key
left_lem t id depth children node open_ =
    ground (arith, node.indexed, node.parental, node.placed, open_)

toggle-nodes :
    (id depth : ℕ) (expanded : Bool) (t : TagTree)
    → (toggle_expanded id depth expanded t).nodes ≡ t.nodes
unfolding toggle_expanded
toggle-nodes id depth expanded t = ground arith

toggle-active :
    (id depth : ℕ) (expanded : Bool) (t : TagTree)
    → (toggle_expanded id depth expanded t).active ≡ t.active
unfolding toggle_expanded
toggle-active id depth expanded t = ground arith

toggle-IsInner :
    (t : TagTree) (id depth : ℕ) (children : Forest)
    → IsInner t id depth children
    → IsInner (toggle_expanded id (suc depth) false t) id depth children
toggle-IsInner t id depth children node = record {
  indexed = rw (toggle-nodes id (suc depth) false t) node.indexed;
  parental = node.parental;
  placed = rw (toggle-nodes id (suc depth) false t) node.placed;
}

-- On a collapsed node that has children and lies below the roots, the right arrow expands the node,
-- and the left arrow that follows brings back the expansion of every node; the active item stays.
pub right-left :
    (t : TagTree) (id depth k : ℕ) (children : Forest)
    → IsInner t id depth children
    → has (expanded_ids t) id ≡ false
    → let opened = (handle_tree_key_down id arrow_right t).0 in
      let closed = (handle_tree_key_down id arrow_left opened).0 in
      (has (expanded_ids opened) id ≡ true)
      × (has (expanded_ids closed) k ≡ has (expanded_ids t) k)
      × (closed.active ≡ t.active)
right-left t id depth k children node shut =
    let opened = toggle_expanded id (suc depth) false t in
    let in_opened : has (expanded_ids opened) id ≡ true =
      ground (arith, expanded_ids-toggle id (suc depth) id false t (ground arith), shut) in
    rw (right_lem t id depth children node shut) (
      rw (left_lem opened id depth children (toggle-IsInner t id depth children node) in_opened) (
        in_opened,
        ground (
          arith,
          expanded_ids-toggle id (suc depth) k true opened (ground arith),
          expanded_ids-toggle id (suc depth) k false t (ground arith),
        ),
        toggle-active id (suc depth) true opened ∙ toggle-active id (suc depth) false t,
      ))
