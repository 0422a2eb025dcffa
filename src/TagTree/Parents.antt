-- ===== src/TagTree/Parents.antt =====
-- The parents in the index are those of the tree.
use touhou_cloud_music_thcdb.Common.{
  ℕ, suc, ◌≡◌, refl, sym, ◌∙◌, ap, ◌↔◌, ◌⊎◌, inl, inr, Bool, true, false, ◌||◌, Option, none, some,
  ◌==◌, Text, Bool-cases, arith,
}
use touhou_cloud_music_thcdb.TagTree.{
  Forest, nil, node, TagTreeIndex, get, put_node, walk_index, build_tag_tree_index, empty_index,
  parent_of,
}
use touhou_cloud_music_thcdb.TagTree.Index.{member, IsDistinct, walk-get}

-- An id at the upper end of a list of nodes.
unfoldable pub is_root : Forest → ℕ → Bool
is_root nil k = false
is_root (node id name children rest) k = id == k || is_root rest k

-- `k` is the id of a child of the node `p`.
abbrev pub Parent : Forest → ℕ → ℕ → Type 0
Parent nil p k = ⊥
Parent (node id name children rest) p k =
    ((id ≡ p) × (is_root children k ≡ true)) ⊎ (Parent children p k ⊎ Parent rest p k)

root-member : (f : Forest) (k : ℕ) → is_root f k ≡ true → member f k ≡ true
unfolding is_root member
root-member nil k h = h
root-member (node id name children rest) k h = ground (arith, root-member rest k)

Parent-member : (f : Forest) (p k : ℕ) → Parent f p k → member f k ≡ true
unfolding member
Parent-member nil p k h = absurd h
Parent-member (node id name children rest) p k (inl (e, h)) =
    ground (arith, root-member children k h)
Parent-member (node id name children rest) p k (inr (inl h)) =
    ground (arith, Parent-member children p k h)
Parent-member (node id name children rest) p k (inr (inr h)) =
    ground (arith, Parent-member rest p k h)

-- Where a node of the list has its parent: in the list, or above all of it.
abbrev Above : Forest → Option ℕ → ℕ → ℕ → Type 0
Above f parent p k = Parent f p k ⊎ ((is_root f k ≡ true) × (parent ≡ some p))

module _ (p k : ℕ) where
  no-Parent : (f : Forest) → member f k ≡ false → ¬ Parent f p k
  no-Parent f a h = cc (Parent-member f p k h, a)

  no_root : (f : Forest) → member f k ≡ false → is_root f k ≡ false
  no_root f a = elim (Bool-cases (is_root f k)) [
    | inl r ↦ absurd (cc (root-member f k r, a))
    | inr r ↦ r
  ]

  module _ (id : ℕ) (name : Text) (children rest : Forest) (parent : Option ℕ) where
    at_node :
        (id == k) ≡ true
        → member children k ≡ false
        → member rest k ≡ false
        → (parent ≡ some p) ↔ Above (node id name children rest) parent p k
    unfolding is_root
    at_node e a b = (
      λ h. inr (ground arith, h),
      elim [
        | inl (inl (q, r)) ↦ absurd (cc (root-member children k r, a))
        | inl (inr (inl h)) ↦ absurd (no-Parent children a h)
        | inl (inr (inr h)) ↦ absurd (no-Parent rest b h)
        | inr (r, h) ↦ h
      ],
    )

    in_children :
        (id == k) ≡ false
        → member rest k ≡ false
        → Above children (some id) p k ↔ Above (node id name children rest) parent p k
    unfolding is_root
    in_children n b = (
      elim [ inl h ↦ inl (inr (inl h)) | inr (r, e) ↦ inl (inl (ground arith, r)) ],
      elim [
        | inl (inl (q, r)) ↦ inr (r, ap some q)
        | inl (inr (inl h)) ↦ inl h
        | inl (inr (inr h)) ↦ absurd (no-Parent rest b h)
        | inr (r, h) ↦ absurd (ground (arith, no_root rest b))
      ],
    )

    in_rest :
        (id == k) ≡ false
        → member children k ≡ false
        → Above rest parent p k ↔ Above (node id name children rest) parent p k
    unfolding is_root
    in_rest n a = (
      elim [ inl h ↦ inl (inr (inr h)) | inr (r, e) ↦ inr (ground arith, e) ],
      elim [
        | inl (inl (q, r)) ↦ absurd (cc (root-member children k r, a))
        | inl (inr (inl h)) ↦ absurd (no-Parent children a h)
        | inl (inr (inr h)) ↦ inl h
        | inr (r, h) ↦ inr (ground arith, h)
      ],
    )

  abbrev IsRecorded : TagTreeIndex → Type 0
  IsRecorded ix = parent_of ix.parent_by_id k ≡ some p

  same_parent :
      (a b : TagTreeIndex)
      → get a.parent_by_id k ≡ get b.parent_by_id k
      → parent_of a.parent_by_id k ≡ parent_of b.parent_by_id k
  same_parent a b h = rw (h, parent_of) refl

  distinct_root :
      (f : Forest) (id : ℕ) → member f id ≡ false → member f k ≡ true → (id == k) ≡ false
  distinct_root f id a h = elim (Bool-cases (id == k)) [
    | inl e ↦ let same : id ≡ k = ground arith in absurd (cc (ap (member f) same, a, h))
    | inr e ↦ e
  ]

  not_both : {b : Bool} (a : Bool) → (a ≡ true → b ≡ false) → b ≡ true → a ≡ false
  not_both a c h = ground arith

  chain : {A B C : Type 0} → A ↔ B → B ↔ C → A ↔ C
  chain (f, g) (f', g') = (λ x. f' (f x), λ y. g (g' y))

  from_get :
      {A : Type 0} (a b : TagTreeIndex)
      → get a.parent_by_id k ≡ get b.parent_by_id k
      → IsRecorded b ↔ A
      → IsRecorded a ↔ A
  from_get a b h (f, g) = let e = same_parent a b h in (λ x. f (sym e ∙ x), λ y. e ∙ g y)

  at_once :
      (id depth : ℕ) (children : Forest) (parent : Option ℕ) (ix : TagTreeIndex)
      → (id == k) ≡ true
      → IsRecorded (put_node id children parent depth ix) ↔ (parent ≡ some p)
  unfolding get
  at_once id depth children parent ix e = (λ h. ground arith, λ h. ground arith)

  walk-Above :
      (f : Forest) (parent : Option ℕ) (depth : ℕ) (ix : TagTreeIndex)
      → IsDistinct f
      → member f k ≡ true
      → IsRecorded (walk_index f parent depth ix) ↔ Above f parent p k
  unfolding walk_index
  walk-Above nil parent depth ix d h = absurd (unfold member in cc)
  walk-Above (node id name children rest) parent depth ix (a, b, c, dc, dr) h =
      let one = put_node id children parent depth ix in
      let two = walk_index children (some id) (suc depth) one in
      elim (Bool-cases (member rest k)) [
        | inl later ↦
            let apart : (id == k) ≡ false = distinct_root rest id b later in
            let outside : member children k ≡ false = not_both (member children k) (c k) later in
            chain (walk-Above rest parent depth two dr later)
              (in_rest id name children rest parent apart outside)
        | inr early ↦ elim (Bool-cases (member children k)) [
          | inl inside ↦
              let apart : (id == k) ≡ false = distinct_root children id a inside in
              from_get (walk_index rest parent depth two) two
                (walk-get rest parent depth two k early).1
                (chain (walk-Above children (some id) (suc depth) one dc inside)
                  (in_children id name children rest parent apart early))
          | inr outside ↦
              let same : (id == k) ≡ true = unfold member in ground arith in
              from_get (walk_index rest parent depth two) one
                ((walk-get rest parent depth two k early).1
                  ∙ (walk-get children (some id) (suc depth) one k outside).1)
                (chain (at_once id depth children parent ix same)
                  (at_node id name children rest parent same outside early))
        ]
      ]

  walk-missing :
      (f : Forest) → member f k ≡ false → get (build_tag_tree_index f).parent_by_id k ≡ none
  unfolding build_tag_tree_index get
  walk-missing f h = (walk-get f none 0 empty_index k h).1

-- In a tree with distinct ids, the index has the parents of the tree.
pub build-Parent :
    (f : Forest)
    → IsDistinct f
    → (p k : ℕ) → (parent_of (build_tag_tree_index f).parent_by_id k ≡ some p) ↔ Parent f p k
unfolding build_tag_tree_index
build-Parent f d p k = elim (Bool-cases (member f k)) [
  | inl inside ↦
      let (to, from) = walk-Above p k f none 0 empty_index d inside in
      (λ h. elim (to h) [ inl q ↦ q | inr (r, e) ↦ absurd (cc) ], λ q. from (inl q))
  | inr outside ↦ (
    λ h. absurd (ground (arith, walk-missing p k f outside)),
    λ q. absurd (no-Parent p k f outside q),
  )
]
