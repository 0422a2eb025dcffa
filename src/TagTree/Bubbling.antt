-- ===== src/TagTree/Bubbling.antt =====
-- Events on the items of the tree: the handlers of `TagTreeItem` in
-- web/frontend/src/view/tag/TagTree.tsx. The items are nested elements, and no handler stops an
-- event, so that each runs for the item of the event and then for its ancestors, up to the root.
use touhou_cloud_music_thcdb.Common.{
  ℕ, ◌≡◌, ◌≢◌, refl, ap, ◌∙◌, Bool, true, false, some, List, [], ◌∷◌, ◌++◌, ◌==◌, inl, inr,
  if◌then◌else◌, Bool-cases, arith,
}
use touhou_cloud_music_thcdb.TagTree.{Forest, nil, node, TagTree}
use touhou_cloud_music_thcdb.TagTree.Index.{member}
use touhou_cloud_music_thcdb.TagTree.Parents.{is_root}
use touhou_cloud_music_thcdb.TagTree.Keyboard.{Key, handle_tree_key_down}

abbrev is_some_path : List ℕ → Bool
is_some_path [] = false
is_some_path (x ∷ xs) = true

-- The item and its ancestors, up to the root.
unfoldable pub path_of : Forest → ℕ → List ℕ
path_of nil k = []
path_of (node id name children rest) k =
    let below = path_of children k in
    let later = path_of rest k in
    if id == k then id ∷ [] else if is_some_path below then below ++ (id ∷ []) else later

unfoldable pub dispatch : (ℕ → TagTree → TagTree) → List ℕ → TagTree → TagTree
dispatch handler [] t = t
dispatch handler (id ∷ path) t = dispatch handler path (handler id t)

abbrev pub handle_focus_in : ℕ → TagTree → TagTree
handle_focus_in id t = record t { active = some id }

-- An item gets the focus.
unfoldable pub focus_in : ℕ → TagTree → TagTree
unfolding dispatch path_of
focus_in id t = dispatch handle_focus_in (path_of t.nodes id) t

-- A key, other than Enter, that is pressed on an item.
unfoldable pub key_down : ℕ → Key → TagTree → TagTree
unfolding dispatch path_of handle_tree_key_down
key_down id key t = dispatch (λ item s. (handle_tree_key_down item key s).0) (path_of t.nodes id) t

-- A path up to this item.
abbrev EndsAt : List ℕ → ℕ → Type 0
EndsAt path r = (below : List ℕ) × (path ≡ below ++ (r ∷ []))

EndsAt-some : (path : List ℕ) (r : ℕ) → EndsAt path r → is_some_path path ≡ true
EndsAt-some path r ([], e) = ap is_some_path e
EndsAt-some path r (x ∷ xs, e) = ap is_some_path e

path_of-missing : (f : Forest) (k : ℕ) → member f k ≡ false → path_of f k ≡ []
unfolding path_of member
path_of-missing nil k h = refl
path_of-missing (node id name children rest) k h =
    ground (arith, path_of-missing children k, path_of-missing rest k)

path_of-EndsAt :
    (f : Forest) (k : ℕ)
    → member f k ≡ true
    → (r : ℕ) × (is_root f r ≡ true) × EndsAt (path_of f k) r
unfolding path_of member is_root
path_of-EndsAt nil k h = absurd (cc)
path_of-EndsAt (node id name children rest) k h = elim (Bool-cases (id == k)) [
  | inl e ↦ (id, ground arith, ([], rw e refl))
  | inr e ↦ elim (Bool-cases (member children k)) [
    | inl inside ↦
        let (r, root, path) = path_of-EndsAt children k inside in
        let full = EndsAt-some (path_of children k) r path in
        (id, ground arith, (path_of children k, rw (e, full) refl))
    | inr outside ↦
        let (r, root, (below, path)) = path_of-EndsAt rest k (ground arith) in
        let empty = path_of-missing children k outside in
        (r, ground arith, (below, rw (e, empty) path))
  ]
]

dispatch-active :
    (below : List ℕ) (r : ℕ) (t : TagTree)
    → (dispatch handle_focus_in (below ++ (r ∷ [])) t).active ≡ some r
unfolding dispatch
dispatch-active [] r t = refl
dispatch-active (x ∷ below) r t = dispatch-active below r (handle_focus_in x t)

-- When an item of the tree that is no root gets the focus, the item that is active afterwards is
-- another one: a root.
pub focus_in-root :
    (t : TagTree) (id : ℕ)
    → member t.nodes id ≡ true
    → is_root t.nodes id ≡ false
    → (r : ℕ) × ((focus_in id t).active ≡ some r) × (is_root t.nodes r ≡ true) × (r ≢ id)
unfolding focus_in
focus_in-root t id h n =
    let (r, root, (below, path)) = path_of-EndsAt t.nodes id h in
    (
      r,
      ap (λ p. (dispatch handle_focus_in p t).active) path ∙ dispatch-active below r t,
      root,
      λ e. cc (ap (is_root t.nodes) e, root, n),
    )
