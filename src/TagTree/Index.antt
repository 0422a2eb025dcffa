-- ===== src/TagTree/Index.antt =====
-- The index of a tree whose ids are distinct: a parent lies one level above its child.
use touhou_cloud_music_thcdb.Common.{
  ℕ, suc, ◌≡◌, refl, ◌∙◌, inl, inr, Bool, true, false, ◌||◌, Option, none, some, ◌==◌,
  if◌then◌else◌, Bool-cases, arith,
}
use touhou_cloud_music_thcdb.TagTree.{
  Forest, nil, node, TagTreeIndex, get, put_node, walk_index, build_tag_tree_index, empty_index,
  parent_of,
}

-- Whether an id stands in the tree.
unfoldable pub member : Forest → ℕ → Bool
member nil k = false
member (node id name children rest) k = id == k || (member children k || member rest k)

-- No id stands twice in the tree.
abbrev pub IsDistinct : Forest → Type 0
IsDistinct nil = Unit
IsDistinct (node id name children rest) =
    (member children id ≡ false)
    × (member rest id ≡ false)
    × ((k : ℕ) → member children k ≡ true → member rest k ≡ false)
    × IsDistinct children
    × IsDistinct rest

-- A parent that is recorded has a depth, and the child's is one more.
abbrev pub IsRanked : TagTreeIndex → Type 0
IsRanked ix =
    (k p : ℕ)
    → parent_of ix.parent_by_id k ≡ some p
    → (d : ℕ) × (get ix.depth_by_id p ≡ some d) × (get ix.depth_by_id k ≡ some (suc d))

-- The parent under which a list of nodes is entered, and its depth.
abbrev Below : Option ℕ → ℕ → TagTreeIndex → Type 0
Below none depth ix = Unit {0}
Below (some p) depth ix = (d : ℕ) × (get ix.depth_by_id p ≡ some d) × (depth ≡ suc d)

-- No node of the tree is in the index yet.
abbrev IsFresh : Forest → TagTreeIndex → Type 0
IsFresh f ix = (k : ℕ) → member f k ≡ true → get ix.depth_by_id k ≡ none

pub walk-get :
    (f : Forest) (parent : Option ℕ) (depth : ℕ) (ix : TagTreeIndex) (k : ℕ)
    → member f k ≡ false
    → (get (walk_index f parent depth ix).depth_by_id k ≡ get ix.depth_by_id k)
      × (get (walk_index f parent depth ix).parent_by_id k ≡ get ix.parent_by_id k)
      × (get (walk_index f parent depth ix).node_by_id k ≡ get ix.node_by_id k)
unfolding member walk_index get
walk-get nil parent depth ix k h = (refl, refl, refl)
walk-get (node id name children rest) parent depth ix k h =
    let ix' = put_node id children parent depth ix in
    let inner = walk_index children (some id) (suc depth) ix' in
    ground
      (arith, walk-get children (some id) (suc depth) ix' k, walk-get rest parent depth inner k)

put-IsRanked :
    (id depth : ℕ) (children : Forest) (parent : Option ℕ) (ix : TagTreeIndex)
    → get ix.depth_by_id id ≡ none
    → Below parent depth ix
    → IsRanked ix
    → IsRanked (put_node id children parent depth ix)
unfolding get
put-IsRanked id depth children parent ix fresh b r k p h = elim (Bool-cases (id == k)) [
  | inl same ↦ under parent b same (ground arith)
  | inr apart ↦ let (d, above, here) = r k p (ground arith) in (d, ground arith, ground arith)
]
  where
    under :
        (q : Option ℕ)
        → Below q depth ix
        → (id == k) ≡ true
        → q ≡ some p
        → (d : ℕ) × ((if id == p then some depth else get ix.depth_by_id p) ≡ some d)
          × ((if id == k then some depth else get ix.depth_by_id k) ≡ some (suc d))
    under none b same h = absurd (ground arith)
    under (some q) (d, above, e) same h = (d, ground arith, ground arith)

put-IsFresh :
    (id depth : ℕ) (children f : Forest) (parent : Option ℕ) (ix : TagTreeIndex)
    → member f id ≡ false
    → IsFresh f ix
    → IsFresh f (put_node id children parent depth ix)
unfolding get
put-IsFresh id depth children f parent ix a n k h = ground (arith, n k)

walk-IsFresh :
    (g f : Forest) (parent : Option ℕ) (depth : ℕ) (ix : TagTreeIndex)
    → ((k : ℕ) → member g k ≡ true → member f k ≡ false)
    → IsFresh f ix
    → IsFresh f (walk_index g parent depth ix)
walk-IsFresh g f parent depth ix e n k h = elim (Bool-cases (member g k)) [
  | inl both ↦ absurd (ground (arith, e k))
  | inr apart ↦ (walk-get g parent depth ix k apart).0 ∙ n k h
]

put-Below :
    (id depth level : ℕ) (children : Forest) (parent over : Option ℕ) (ix : TagTreeIndex)
    → get ix.depth_by_id id ≡ none
    → Below over level ix
    → Below over level (put_node id children parent depth ix)
unfolding get
put-Below id depth level children parent none ix n b = tt
put-Below id depth level children parent (some p) ix n (d, above, e) = (d, ground arith, e)

walk-Below :
    (g : Forest) (parent over : Option ℕ) (depth level : ℕ) (ix : TagTreeIndex)
    → IsFresh g ix
    → Below over level ix
    → Below over level (walk_index g parent depth ix)
walk-Below g parent none depth level ix n b = tt
walk-Below g parent (some p) depth level ix n (d, above, e) = elim (Bool-cases (member g p)) [
  | inl inside ↦ absurd (cc (n p inside))
  | inr apart ↦ (d, (walk-get g parent depth ix p apart).0 ∙ above, e)
]

walk-IsRanked :
    (f : Forest) (parent : Option ℕ) (depth : ℕ) (ix : TagTreeIndex)
    → IsDistinct f
    → IsFresh f ix
    → Below parent depth ix
    → IsRanked ix
    → IsRanked (walk_index f parent depth ix)
unfolding walk_index
walk-IsRanked nil parent depth ix d n b r = r
walk-IsRanked (node id name children rest) parent depth ix (a, c, e, dc, dr) n b r =
    let one = put_node id children parent depth ix in
    let fresh_id : get ix.depth_by_id id ≡ none = n id (unfold member in ground arith) in
    let fresh_children : IsFresh children one =
      put-IsFresh id depth children children parent ix a
        (λ k h. n k (unfold member in ground arith)) in
    let fresh_rest : IsFresh rest one =
      put-IsFresh id depth children rest parent ix c (λ k h. n k (unfold member in ground arith)) in
    walk-IsRanked rest parent depth (walk_index children (some id) (suc depth) one) dr
      (walk-IsFresh children rest (some id) (suc depth) one e fresh_rest)
      (walk-Below children (some id) parent (suc depth) depth one fresh_children
        (put-Below id depth depth children parent parent ix fresh_id b))
      (walk-IsRanked children (some id) (suc depth) one dc fresh_children
        (depth, unfold get in ground arith, refl)
        (put-IsRanked id depth children parent ix fresh_id b r))

-- In the index of a tree with distinct ids, a parent has a depth, and its child's is one more.
pub build-IsRanked : (f : Forest) → IsDistinct f → IsRanked (build_tag_tree_index f)
unfolding build_tag_tree_index get
build-IsRanked f d = walk-IsRanked f none 0 empty_index d (λ k h. refl) tt (λ k p h. absurd (cc))
