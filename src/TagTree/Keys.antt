-- ===== src/TagTree/Keys.antt =====
-- Moving through the visible items: the handler of one item for the arrow keys.
use touhou_cloud_music_thcdb.Common.{
  ℕ, zero, suc, ◌+◌, ◌<◌, ◌≡◌, refl, ap, inl, inr, true, false, ◌||◌, ◌&&◌, Option, some, List, [],
  ◌∷◌, ◌++◌, has, length, get_elem?, Bool-cases, arith,
}
use native.Mathlib.Numerals.{add-one}
use touhou_cloud_music_thcdb.TagTree.{
  Forest, nil, node, has_nodes, collect_visible_node_ids, TagTree, visible_ids, expanded_ids,
}
use touhou_cloud_music_thcdb.TagTree.Keyboard.{index_of, arrow_down, arrow_up, handle_tree_key_down}
use touhou_cloud_music_thcdb.TagTree.Index.{IsDistinct, member}

abbrev pub IsNodup : List ℕ → Type 0
IsNodup [] = Unit
IsNodup (x ∷ xs) = (has xs x ≡ false) × IsNodup xs

has-append : (k : ℕ) (xs ys : List ℕ) → has (xs ++ ys) k ≡ (has xs k || has ys k)
has-append k [] ys = refl
has-append k (x ∷ xs) ys = ground (arith, has-append k xs ys)

IsNodup-append :
    (xs ys : List ℕ)
    → IsNodup xs
    → IsNodup ys
    → ((k : ℕ) → has xs k ≡ true → has ys k ≡ false)
    → IsNodup (xs ++ ys)
IsNodup-append [] ys a b c = b
IsNodup-append (x ∷ xs) ys (p, a) b c =
    (ground (arith, has-append x xs ys, c x), IsNodup-append xs ys a b (λ k h. c k (ground arith)))

visible-member :
    (f : Forest) (expanded : List ℕ) (k : ℕ)
    → has (collect_visible_node_ids f expanded) k ≡ true
    → member f k ≡ true
unfolding collect_visible_node_ids member
visible-member nil expanded k h = h
visible-member (node id name children rest) expanded k h = ground (
  arith,
  visible-member children expanded k,
  visible-member rest expanded k,
  has-append k (collect_visible_node_ids children expanded)
      (collect_visible_node_ids rest expanded),
)

-- In a tree with distinct ids no id is visible twice.
visible-IsNodup :
    (f : Forest) (expanded : List ℕ) → IsDistinct f → IsNodup (collect_visible_node_ids f expanded)
unfolding collect_visible_node_ids
visible-IsNodup nil expanded d = tt
visible-IsNodup (node id name children rest) expanded (a, b, c, dc, dr) =
    let inner = collect_visible_node_ids children expanded in
    let later = collect_visible_node_ids rest expanded in
    let apart : IsNodup (inner ++ later) =
      IsNodup-append inner later (visible-IsNodup children expanded dc)
        (visible-IsNodup rest expanded dr)
        (λ k h.
          ground
            (arith, visible-member children expanded k, visible-member rest expanded k, c k)) in
    elim (Bool-cases (has_nodes children && has expanded id)) [
      | inl open_ ↦ rw open_ (
        ground (
          arith,
          has-append id inner later,
          visible-member children expanded id,
          visible-member rest expanded id,
        ),
        apart,
      )
      | inr shut ↦
          rw shut
            (ground (arith, visible-member rest expanded id), visible-IsNodup rest expanded dr)
    ]

index_of-get : (ids : List ℕ) (id i : ℕ) → index_of ids id ≡ some i → get_elem? ids i ≡ some id
unfolding index_of
index_of-get [] id i h = cc
index_of-get (x ∷ ids) id zero h = ground arith
index_of-get (x ∷ ids) id (suc i) h = ground (arith, index_of-get ids id i)

get-has : (ids : List ℕ) (id i : ℕ) → get_elem? ids i ≡ some id → has ids id ≡ true
get-has [] id i h = cc
get-has (x ∷ ids) id zero h = ground arith
get-has (x ∷ ids) id (suc i) h = ground (arith, get-has ids id i)

get-index_of :
    (ids : List ℕ) (id i : ℕ) → IsNodup ids → get_elem? ids i ≡ some id → index_of ids id ≡ some i
unfolding index_of
get-index_of [] id i n h = cc
get-index_of (x ∷ ids) id zero n h = ground arith
get-index_of (x ∷ ids) id (suc i) (p, n) h =
    ground (arith, get-index_of ids id i n, get-has ids id i)

get_total : (ids : List ℕ) (i : ℕ) → i < length ids → (id : ℕ) × (get_elem? ids i ≡ some id)
get_total [] i h = absurd (omega arith)
get_total (x ∷ ids) zero h = (x, refl)
get_total (x ∷ ids) (suc i) h = get_total ids i (omega arith)

visible_ids-IsNodup : (t : TagTree) → IsDistinct t.nodes → IsNodup (visible_ids t)
unfolding visible_ids
visible_ids-IsNodup t d = visible-IsNodup t.nodes (expanded_ids t) d

visible_ids-focus :
    (t : TagTree) (a : Option ℕ) → visible_ids (record t { active = a }) ≡ visible_ids t
unfolding visible_ids
visible_ids-focus t a = refl

down_lem :
    (t : TagTree) (id below i : ℕ)
    → index_of (visible_ids t) id ≡ some i
    → get_elem? (visible_ids t) (i + 1) ≡ some below
    → i + 1 < length (visible_ids t)
    → handle_tree_key_down id arrow_down t ≡ (record t { active = some below }, true)
unfolding handle_tree_key_down
down_lem t id below i h e k = ground arith

up_lem :
    (t : TagTree) (id above i : ℕ)
    → index_of (visible_ids t) id ≡ some (suc i)
    → get_elem? (visible_ids t) i ≡ some above
    → handle_tree_key_down id arrow_up t ≡ (record t { active = some above }, true)
unfolding handle_tree_key_down
up_lem t id above i h e = ground arith

-- In a tree with distinct ids, the handler of a visible item that is not the last makes the next
-- visible item active for the down arrow, and that one's handler comes back for the up arrow. The
-- handlers of the ancestors are not part of this.
pub down-up :
    (t : TagTree) (id i : ℕ)
    → IsDistinct t.nodes
    → index_of (visible_ids t) id ≡ some i
    → i + 1 < length (visible_ids t)
    → let moved = (handle_tree_key_down id arrow_down t).0 in
      (below : ℕ) × (get_elem? (visible_ids t) (i + 1) ≡ some below)
      × (moved.active ≡ some below)
      × ((handle_tree_key_down below arrow_up moved).0 ≡ record t { active = some id })
down-up t id i d h k =
    let ids = visible_ids t in
    let (below, found) = get_total ids (i + 1) k in
    let down = down_lem t id below i h found k in
    let moved = record t { active = some below } in
    let same : visible_ids moved ≡ ids = visible_ids-focus t (some below) in
    let at_ : index_of ids below ≡ some (suc i) =
      get-index_of ids below (suc i) (visible_ids-IsNodup t d) (rw add-one at found) in
    let up = up_lem moved below id i (rw same at_) (rw same (index_of-get ids id i h)) in
    (below, found, ap (λ r. r.0.active) down, cc (down, up))
