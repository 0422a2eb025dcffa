-- ===== src/TagTree.antt =====
-- The tree of tags: the logic of web/frontend/src/view/tag/TagTree.tsx. The rendering is not
-- modelled. A `Set` of ids is the list of its members, a `Map` the list of its entries, the entry
-- set last first.
pub mod Visible
pub mod Index
pub mod Parents
pub mod Climb
pub mod Active
pub mod Keyboard
pub mod Bubbling
pub mod Horizontal
pub mod Keys
mod Examples
use touhou_cloud_music_thcdb.Common.{
  ℕ, zero, suc, ◌+◌, ◌-◌, Bool, true, false, not, ◌&&◌, ◌||◌, Option, none, some, Text, List, [],
  ◌∷◌, ◌++◌, has, leb, ltb, ◌==◌, is_some, or_else, if◌then◌else◌, length, get_elem?,
}

-- A list of nodes: the first node's id, name and children, and the nodes after it.
pub data Forest : Type 0 where
  nil : Forest
  node : (id : ℕ) (name : Text) (children rest : Forest) → Forest

-- `children.length > 0`
abbrev pub has_nodes : Forest → Bool
has_nodes nil = false
has_nodes (node id name children rest) = true

-- `nodes[0]?.id`
abbrev pub first_id : Forest → Option ℕ
first_id nil = none
first_id (node id name children rest) = some id

abbrev pub default_expanded_depth : ℕ
default_expanded_depth = 2

abbrev pub add : ℕ → List ℕ → List ℕ
add id s = if has s id then s else id ∷ s

unfoldable pub delete : ℕ → List ℕ → List ℕ
delete id [] = []
delete id (x ∷ s) = let rest = delete id s in if x == id then rest else x ∷ rest

-- the inner `walk` of `collectExpandedIds`
unfoldable pub walk_expanded : ℕ → Forest → ℕ → List ℕ → List ℕ
walk_expanded most nil depth expanded = expanded
walk_expanded most (node id name children rest) depth expanded =
    let below = walk_expanded most children (suc depth) (add id expanded) in
    let here = if has_nodes children then below else expanded in
    let all = walk_expanded most rest depth here in if leb most depth then expanded else all

unfoldable pub collect_expanded_ids : Forest → ℕ → List ℕ
unfolding walk_expanded
collect_expanded_ids nodes most = walk_expanded most nodes 0 []

-- `Map.prototype.get`
unfoldable pub get {ℓ} : {V : Type ℓ} → List (ℕ × V) → ℕ → Option V
get [] k = none
get ((j, v) ∷ m) k = if j == k then some v else get m k

-- `nodeById` maps an id to the children of its node, which are all that is read of it.
pub record TagTreeIndex : Type 0 where
  pub node_by_id : List (ℕ × Forest)
  pub parent_by_id : List (ℕ × Option ℕ)
  pub depth_by_id : List (ℕ × ℕ)

abbrev pub put_node : ℕ → Forest → Option ℕ → ℕ → TagTreeIndex → TagTreeIndex
put_node id children parent depth ix = record {
  node_by_id = (id, children) ∷ ix.node_by_id;
  parent_by_id = (id, parent) ∷ ix.parent_by_id;
  depth_by_id = (id, depth) ∷ ix.depth_by_id;
}

-- the inner `walk` of `buildTagTreeIndex`
unfoldable pub walk_index : Forest → Option ℕ → ℕ → TagTreeIndex → TagTreeIndex
walk_index nil parent depth ix = ix
walk_index (node id name children rest) parent depth ix =
    walk_index rest parent depth
      (walk_index children (some id) (suc depth) (put_node id children parent depth ix))

abbrev empty_index : TagTreeIndex
empty_index = record { node_by_id = []; parent_by_id = []; depth_by_id = [] }

unfoldable pub build_tag_tree_index : Forest → TagTreeIndex
unfolding walk_index
build_tag_tree_index roots = walk_index roots none 0 empty_index

unfoldable pub collect_visible_node_ids : Forest → List ℕ → List ℕ
collect_visible_node_ids nil expanded = []
collect_visible_node_ids (node id name children rest) expanded =
    let below = collect_visible_node_ids children expanded in
    id
    ∷ ((if has_nodes children && has expanded id then below else [])
        ++ collect_visible_node_ids rest expanded)

-- `parentById.get(id)`, where no entry and a null parent are the same
abbrev pub parent_of : List (ℕ × Option ℕ) → ℕ → Option ℕ
parent_of parents id = elim (get parents id) [ none ↦ none | some p ↦ p ]

-- The loop of `resolveActiveTreeId`: `some (some p)` for its `return`, `some none` for its `break`;
-- `none` when the fuel has run out.
unfoldable pub climb : ℕ → List ℕ → List (ℕ × Option ℕ) → ℕ → Option (Option ℕ)
climb zero visible parents current = none
climb (suc fuel) visible parents current = elim (parent_of parents current) [
  | none ↦ some none
  | some p ↦
      let further = climb fuel visible parents p in if has visible p then some (some p) else further
]

abbrev or_first : ℕ → Option (Option ℕ) → Option (Option ℕ)
or_first first none = none
or_first first (some none) = some (some first)
or_first first (some (some p)) = some (some p)

unfoldable pub resolve_active_tree_id :
    ℕ → Option ℕ → List ℕ → List (ℕ × Option ℕ) → Option (Option ℕ)
unfolding climb
resolve_active_tree_id fuel active [] parents = some none
resolve_active_tree_id fuel none (first ∷ visible) parents = some (some first)
resolve_active_tree_id fuel (some a) (first ∷ visible) parents =
    if has (first ∷ visible) a
    then some (some a)
    else or_first first (climb fuel (first ∷ visible) parents a)

-- The signals of the component.
pub record TagTree : Type 0 where
  pub nodes : Forest
  pub expanded_override : Option (List ℕ)
  pub active : Option ℕ

unfoldable pub expanded_ids : TagTree → List ℕ
unfolding collect_expanded_ids
expanded_ids t = or_else t.expanded_override (collect_expanded_ids t.nodes default_expanded_depth)

unfoldable pub visible_ids : TagTree → List ℕ
unfolding expanded_ids collect_visible_node_ids
visible_ids t = collect_visible_node_ids t.nodes (expanded_ids t)

unfoldable pub toggle_expanded : ℕ → ℕ → Bool → TagTree → TagTree
unfolding expanded_ids delete
toggle_expanded id depth expanded t =
    let base = expanded_ids t in
    if depth == 0 && expanded
    then record t { expanded_override = some [] }
    else if has base id
    then record t { expanded_override = some (delete id base) }
    else record t { expanded_override = some (add id base) }

-- The microtask that it queues focuses the item: `focus_in` of Bubbling.
abbrev pub focus_tree_item : ℕ → TagTree → TagTree
focus_tree_item id t = record t { active = some id }
