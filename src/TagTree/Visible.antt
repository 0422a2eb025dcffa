-- ===== src/TagTree/Visible.antt =====
-- Which nodes are visible, and what a toggle changes.
use touhou_cloud_music_thcdb.Common.{
  ℕ, ◌≡◌, refl, ◌↔◌, inl, inr, Bool, true, false, not, ◌&&◌, Text, List, [], ◌∷◌, has, In,
  In-append_left, In-append_right, In-append_cases, ◌==◌, if◌then◌else◌, Bool-cases, arith,
}
use mathlib.Core.Path.{subst}
use touhou_cloud_music_thcdb.TagTree.{
  Forest, nil, node, has_nodes, delete, collect_visible_node_ids, TagTree, expanded_ids,
  visible_ids, toggle_expanded,
}

-- A node is shown if it is a root, or a child of an expanded node that is shown.
pub data Shown (expanded : List ℕ) : Forest → ℕ → Type 0 where
  here :
      {id : ℕ} {name : Text} {children rest : Forest}
      → Shown expanded (node id name children rest) id
  below :
      {id k : ℕ} {name : Text} {children rest : Forest}
      → has expanded id ≡ true
      → Shown expanded children k
      → Shown expanded (node id name children rest) k
  after :
      {id k : ℕ} {name : Text} {children rest : Forest}
      → Shown expanded rest k
      → Shown expanded (node id name children rest) k

visible_sound :
    (f : Forest) (expanded : List ℕ) (k : ℕ)
    → In k (collect_visible_node_ids f expanded)
    → Shown expanded f k
unfolding collect_visible_node_ids
visible_sound nil expanded k h = absurd h
visible_sound (node id name children rest) expanded k (inl e) = subst (Shown expanded _) e here
visible_sound (node id name children rest) expanded k (inr h) =
    elim (Bool-cases (has_nodes children && has expanded id)) [
      | inl open_ ↦
          elim (In-append_cases k (collect_visible_node_ids children expanded)
            (collect_visible_node_ids rest expanded) (rw open_ at h)) [
              | inl inside ↦ below (ground arith) (visible_sound children expanded k inside)
              | inr later ↦ after (visible_sound rest expanded k later)
            ]
      | inr shut ↦ after (visible_sound rest expanded k (rw shut at h))
    ]

Shown-has_nodes : {expanded : List ℕ} {f : Forest} {k : ℕ} → Shown expanded f k → has_nodes f ≡ true
Shown-has_nodes here = refl
Shown-has_nodes (below h s) = refl
Shown-has_nodes (after s) = refl

visible_complete :
    {expanded : List ℕ} {f : Forest} {k : ℕ}
    → Shown expanded f k
    → In k (collect_visible_node_ids f expanded)
unfolding collect_visible_node_ids
visible_complete here = inl refl
visible_complete {expanded} (below {k} {children} {rest} h s) = inr (
    rw (Shown-has_nodes s, h)
      (In-append_left k (collect_visible_node_ids children expanded)
        (collect_visible_node_ids rest expanded) (visible_complete s)))
visible_complete (after {k} s) = inr (In-append_right k _ _ (visible_complete s))

-- The visible ids are exactly those of the nodes that are shown.
pub visible_iff :
    (f : Forest) (expanded : List ℕ) (k : ℕ)
    → In k (collect_visible_node_ids f expanded) ↔ Shown expanded f k
visible_iff f expanded k = (visible_sound f expanded k, visible_complete)

abbrev pub roots : Forest → List ℕ
roots nil = []
roots (node id name children rest) = id ∷ roots rest

visible-collapsed : (f : Forest) → collect_visible_node_ids f [] ≡ roots f
unfolding collect_visible_node_ids
visible-collapsed nil = refl
visible-collapsed (node id name children rest) = ground (arith, visible-collapsed rest)

-- Collapsing an expanded root collapses the whole tree: its roots are what is visible.
pub visible_ids-toggle-root :
    (id : ℕ) (t : TagTree) → visible_ids (toggle_expanded id 0 true t) ≡ roots t.nodes
unfolding visible_ids toggle_expanded
visible_ids-toggle-root id t = visible-collapsed t.nodes

has-delete : (k id : ℕ) (s : List ℕ) → has (delete id s) k ≡ (if k == id then false else has s k)
unfolding delete
has-delete k id [] = ground arith
has-delete k id (x ∷ s) = ground (arith, has-delete k id s)

-- A toggle, other than one of an expanded root, turns the membership of its own id around, and
-- leaves every other membership.
pub expanded_ids-toggle :
    (id depth k : ℕ) (expanded : Bool) (t : TagTree)
    → (depth == 0 && expanded) ≡ false
    → has (expanded_ids (toggle_expanded id depth expanded t)) k
      ≡ (if k == id then not (has (expanded_ids t) k) else has (expanded_ids t) k)
unfolding expanded_ids toggle_expanded
expanded_ids-toggle id depth k expanded t h = ground (arith, has-delete k id (expanded_ids t))
