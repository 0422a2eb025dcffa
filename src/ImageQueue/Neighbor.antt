-- ===== src/ImageQueue/Neighbor.antt =====
-- The entries before and after the one that is shown.
use mathlib.Core.Bool.{true≢false}
use mathlib.Core.Option
use touhou_cloud_music_thcdb.Common.{
  ℕ, zero, suc, ◌≡◌, refl, sym, ap, ◌∙◌, ◌↔◌, ◌⊎◌, inl, inr, Bool, true, false, Option, none, some,
  List, [], ◌∷◌, In, ℤ, ltb_ℤ, get_elem?, arith, Option-cases, if◌then◌else◌,
}
use touhou_cloud_music_thcdb.Api.Values.{Json}
use touhou_cloud_music_thcdb.ImageQueue.{
  same_ℤ, index_of, item_before, unique_ids, cached_neighbor, all_ids,
}
use touhou_cloud_music_thcdb.ImageQueue.Cached.{IsCached, all_ids-IsCached}
use touhou_cloud_music_thcdb.ImageQueue.Sorted.{
  IsTop, IsDescending, same_ℤ_iff, unique_ids-IsDescending, unique_ids-In,
}

-- The greatest of the ids below this one, if there is one.
abbrev pub NextOf : ℤ → (ℤ → Type 0) → Option ℤ → Type 0
NextOf e ids none = (x : ℤ) → ids x → ltb_ℤ x e ≡ false
NextOf e ids (some n) =
    ids n × (ltb_ℤ n e ≡ true) × ((x : ℤ) → ids x → (ltb_ℤ x e ≡ false) ⊎ (ltb_ℤ n x ≡ false))

abbrev IsNext : ℤ → List ℤ → Option ℤ → Type 0
IsNext e ids o = NextOf e (λ x. In x ids) o

-- The least of the ids above this one, if there is one.
abbrev pub PreviousOf : ℤ → (ℤ → Type 0) → Option ℤ → Type 0
PreviousOf e ids none = (x : ℤ) → ids x → ltb_ℤ e x ≡ false
PreviousOf e ids (some p) =
    ids p × (ltb_ℤ e p ≡ true) × ((x : ℤ) → ids x → (ltb_ℤ e x ≡ false) ⊎ (ltb_ℤ x p ≡ false))

abbrev IsPrevious : ℤ → List ℤ → Option ℤ → Type 0
IsPrevious e ids o = PreviousOf e (λ x. In x ids) o

not_above : (a b : ℤ) → ltb_ℤ a b ≡ true → ltb_ℤ b a ≡ false
not_above a b h = ground arith

not_self : (a : ℤ) → ltb_ℤ a a ≡ false
not_self a = ground arith

index_cases :
    (b : Bool) (o : Option ℕ) (i : ℕ)
    → (if b then some 0 else Option.map suc o) ≡ some i
    → ((b ≡ true) × (i ≡ 0)) ⊎ ((j : ℕ) × (i ≡ suc j) × (o ≡ some j))
index_cases true o i h = inl (refl, cc)
index_cases false none i h = cc
index_cases false (some j) i h = inr (j, cc, refl)

index_missing :
    (b : Bool) (o : Option ℕ)
    → (if b then some 0 else Option.map suc o) ≡ none
    → (b ≡ false) × (o ≡ none)
index_missing true o h = cc
index_missing false none h = (refl, refl)
index_missing false (some j) h = cc

index_of-cons :
    (e x : ℤ) (xs : List ℤ) (i : ℕ)
    → index_of e (x ∷ xs) ≡ some i
    → ((x ≡ e) × (i ≡ 0)) ⊎ ((j : ℕ) × (i ≡ suc j) × (index_of e xs ≡ some j))
unfolding index_of
index_of-cons e x xs i h = elim (index_cases (same_ℤ x e) (index_of e xs) i h) [
  | inl (b, z) ↦ inl ((same_ℤ_iff x e).0 b, z)
  | inr later ↦ inr later
]

index_of-In : (e : ℤ) (xs : List ℤ) (i : ℕ) → index_of e xs ≡ some i → In e xs
unfolding index_of
index_of-In e [] i h = cc
index_of-In e (x ∷ xs) i h = elim (index_of-cons e x xs i h) [
  | inl (p, z) ↦ inl p
  | inr (j, s, q) ↦ inr (index_of-In e xs j q)
]

index_of-none : (e : ℤ) (xs : List ℤ) → index_of e xs ≡ none → ¬ In e xs
unfolding index_of
index_of-none e [] h = λ k. k
index_of-none e (x ∷ xs) h =
    let (other, missing) = index_missing (same_ℤ x e) (index_of e xs) h in
    elim [
      | inl p ↦ absurd (true≢false (sym ((same_ℤ_iff x e).1 p) ∙ other))
      | inr k ↦ index_of-none e xs missing k
    ]

first-IsNext :
    (x : ℤ) (xs : List ℤ) → IsTop x xs → IsDescending xs → IsNext x (x ∷ xs) (get_elem? xs 0)
first-IsNext x [] top d =
    λ y h. elim h [ inl p ↦ ap (λ a. ltb_ℤ a x) (sym p) ∙ not_self x | inr k ↦ absurd k ]
first-IsNext x (n ∷ xs) top (below, d) = (
  inr (inl refl),
  top n (inl refl),
  λ y h. elim h [
    | inl p ↦ inl (ap (λ a. ltb_ℤ a x) (sym p) ∙ not_self x)
    | inr k ↦ elim k [
      | inl p ↦ inr (ap (ltb_ℤ n) (sym p) ∙ not_self n)
      | inr j ↦ inr (not_above y n (below y j))
    ]
  ],
)

more-IsNext :
    (e x : ℤ) (xs : List ℤ) (o : Option ℤ) → ltb_ℤ e x ≡ true → IsNext e xs o → IsNext e (x ∷ xs) o
more-IsNext e x xs none up next =
    λ y h. elim h [ inl p ↦ ap (λ a. ltb_ℤ a e) (sym p) ∙ not_above e x up | inr k ↦ next y k ]
more-IsNext e x xs (some n) up (member, under, most) = (
  inr member,
  under,
  λ y h. elim h [ inl p ↦ inl (ap (λ a. ltb_ℤ a e) (sym p) ∙ not_above e x up) | inr k ↦ most y k ],
)

index_of-IsNext :
    (e : ℤ) (xs : List ℤ) (i : ℕ)
    → IsDescending xs
    → index_of e xs ≡ some i
    → IsNext e xs (get_elem? xs (suc i))
unfolding index_of
index_of-IsNext e [] i d h = cc
index_of-IsNext e (x ∷ xs) i (top, d) h = elim (index_of-cons e x xs i h) [
  | inl (p, z) ↦ rw (z, sym p) (first-IsNext x xs top d)
  | inr (j, s, q) ↦ rw s (
      more-IsNext e x xs (get_elem? xs (suc j)) (top e (index_of-In e xs j q))
        (index_of-IsNext e xs j d q))
]

more-IsPrevious :
    (e x : ℤ) (xs : List ℤ) (o : Option ℤ)
    → IsTop x xs
    → (p : ℤ) × (o ≡ some p)
    → IsPrevious e xs o
    → IsPrevious e (x ∷ xs) o
more-IsPrevious e x xs none top (p, q) previous = cc
more-IsPrevious e x xs (some p) top q (member, above, least) = (
  inr member,
  above,
  λ y. elim [
    | inl r ↦ inr (ap (λ a. ltb_ℤ a p) (sym r) ∙ not_above p x (top p member))
    | inr k ↦ least y k
  ],
)

earlier-some :
    (e : ℤ) (xs : List ℤ) (j : ℕ)
    → index_of e xs ≡ some (suc j)
    → (p : ℤ) × (get_elem? xs j ≡ some p)
unfolding index_of
earlier-some e [] j h = cc
earlier-some e (x ∷ xs) zero h = (x, refl)
earlier-some e (x ∷ xs) (suc j) h = elim (index_of-cons e x xs (suc (suc j)) h) [
  | inl (p, z) ↦ absurd (omega (arith, z))
  | inr (k, s, q) ↦ earlier-some e xs j (q ∙ ap some (omega (arith, s)))
]

top-IsPrevious :
    (e x : ℤ) (xs : List ℤ) (j : ℕ)
    → IsTop x xs
    → IsDescending xs
    → index_of e xs ≡ some j
    → IsPrevious e xs (item_before xs j)
    → IsPrevious e (x ∷ xs) (get_elem? (x ∷ xs) j)
top-IsPrevious e x xs zero top d h previous = (
  inl refl,
  top e (index_of-In e xs 0 h),
  λ y. elim [ inl q ↦ inr (ap (λ a. ltb_ℤ a x) (sym q) ∙ not_self x) | inr k ↦ inl (previous y k) ],
)
top-IsPrevious e x xs (suc j) top d h previous =
    more-IsPrevious e x xs (get_elem? xs j) top (earlier-some e xs j h) previous

index_of-IsPrevious :
    (e : ℤ) (xs : List ℤ) (i : ℕ)
    → IsDescending xs
    → index_of e xs ≡ some i
    → IsPrevious e xs (item_before xs i)
unfolding index_of
index_of-IsPrevious e [] i d h = cc
index_of-IsPrevious e (x ∷ xs) i (top, d) h = elim (index_of-cons e x xs i h) [
  | inl (p, z) ↦
      rw (z, sym p)
        (λ y. elim [ inl q ↦ ap (ltb_ℤ x) (sym q) ∙ not_self x | inr k ↦ not_above y x (top y k) ])
  | inr (j, s, q) ↦ rw s (top-IsPrevious e x xs j top d q (index_of-IsPrevious e xs j d q))
]

abbrev pub IsNeighbor : ℤ → (ℤ → Type 0) → Option (Option ℤ × Option ℤ) → Type 0
IsNeighbor e ids none = ¬ ids e
IsNeighbor e ids (some (p, n)) = ids e × PreviousOf e ids p × NextOf e ids n

module _ (a : List ℤ) (ids : ℤ → Type 0) (same : (x : ℤ) → In x a ↔ ids x) where
  same-IsNext : (e : ℤ) (o : Option ℤ) → IsNext e a o → NextOf e ids o
  same-IsNext e none h = λ x k. h x ((same x).1 k)
  same-IsNext e (some n) (member, under, most) =
      ((same n).0 member, under, λ x k. most x ((same x).1 k))

  same-IsPrevious : (e : ℤ) (o : Option ℤ) → IsPrevious e a o → PreviousOf e ids o
  same-IsPrevious e none h = λ x k. h x ((same x).1 k)
  same-IsPrevious e (some n) (member, over, least) =
      ((same n).0 member, over, λ x k. least x ((same x).1 k))

-- An entry has neighbors exactly when its id is that of an item on a page of a cached list, however
-- often and in whatever order the ids stand there: the one before it is the least of the ids above
-- its own, the one after it the greatest of those below, and one is missing exactly when there is
-- none.
pub cached_neighbor-IsNeighbor :
    (e : ℤ) (cached : List Json) → IsNeighbor e (λ x. IsCached x cached) (cached_neighbor e cached)
unfolding cached_neighbor
cached_neighbor-IsNeighbor e cached =
    let unique = unique_ids (all_ids cached) in
    let sorted = unique_ids-IsDescending (all_ids cached) in
    let same : (x : ℤ) → In x unique ↔ IsCached x cached = λ x. (
      λ h. (all_ids-IsCached cached x).0 ((unique_ids-In (all_ids cached) x).0 h),
      λ h. (unique_ids-In (all_ids cached) x).1 ((all_ids-IsCached cached x).1 h),
    ) in
    elim (Option-cases (index_of e unique)) [
      | inl q ↦ simp (cached_neighbor, q) (λ h. index_of-none e unique q ((same e).1 h))
      | inr (i, q) ↦
          simp (cached_neighbor, q)
            (
              (same e).0 (index_of-In e unique i q),
              same-IsPrevious unique (λ x. IsCached x cached) same e (item_before unique i)
                  (index_of-IsPrevious e unique i sorted q),
              same-IsNext unique (λ x. IsCached x cached) same e (get_elem? unique (suc i))
                  (index_of-IsNext e unique i sorted q),
            )
    ]
