-- ===== src/Search/Tabs.antt =====
-- Which tabs are shown, and which of them is active.
use touhou_cloud_music_thcdb.Common.{
  ◌≡◌, ◌≢◌, refl, sym, ap, ◌∙◌, ◌⊎◌, inl, inr, true, false, ◌&&◌, ◌||◌, Option, none, some, List,
  [], ◌∷◌, ltb, arith, Bool-cases, Option-cases, if◌then◌else◌,
}
use touhou_cloud_music_thcdb.Search.{
  SearchTab, SearchEntity, all_entities, only, Queries, item_count, is_loading_tab, is_loading_any,
  with_items, search_tabs, visible_tabs, includes, same_tab, first_tab, requested_in, active_tab,
  Shown, no_term, searching, no_results, results, search_results,
}

same_tab-eq : (t u : SearchTab) → same_tab t u ≡ true → t ≡ u
same_tab-eq t u h = ground arith

includes-with_items :
    (qs : Queries) (tabs : List SearchTab) (u : SearchTab)
    → includes (with_items qs tabs) u ≡ (includes tabs u && ltb 0 (item_count qs u))
unfolding with_items
includes-with_items qs [] u = refl
includes-with_items qs (t ∷ tabs) u = elim (Bool-cases (same_tab t u)) [
  | inl e ↦
      let same = ap (item_count qs) (same_tab-eq t u e) in
      ground (arith, includes-with_items qs tabs u, e, same)
  | inr e ↦ ground (arith, includes-with_items qs tabs u, e)
]

includes-search_tabs : (u : SearchTab) → includes search_tabs u ≡ true
includes-search_tabs u = ground arith

includes-visible :
    (qs : Queries) (u : SearchTab)
    → is_loading_any qs ≡ false
    → includes (visible_tabs all_entities qs) u ≡ ltb 0 (item_count qs u)
unfolding visible_tabs
includes-visible qs u h = rw (h, includes-with_items qs search_tabs u, includes-search_tabs u) refl

-- The requested tab if it is visible, else the first of those that are.
abbrev pub IsActive : List SearchTab → Option SearchTab → SearchTab → Type 0
IsActive visible requested t =
    ((requested_in visible requested ≡ true) × (requested ≡ some t))
    ⊎ ((requested_in visible requested ≡ false) × (first_tab visible ≡ some t))

active_tab-IsActive :
    (visible : List SearchTab) (requested : Option SearchTab) (t : SearchTab)
    → active_tab visible requested ≡ some t
    → IsActive visible requested t
unfolding active_tab
active_tab-IsActive visible requested t h = elim (Bool-cases (requested_in visible requested)) [
  | inl e ↦ inl (e, ap (λ b. if b then requested else first_tab visible) (sym e) ∙ h)
  | inr e ↦ inr (e, ap (λ b. if b then requested else first_tab visible) (sym e) ∙ h)
]

same_tab_refl : (t : SearchTab) → same_tab t t ≡ true
same_tab_refl t = ground arith

active_tab-none :
    (visible : List SearchTab) (requested : Option SearchTab)
    → active_tab visible requested ≡ none
    → visible ≡ []
unfolding active_tab
active_tab-none [] requested h = refl
active_tab-none (t ∷ visible) none h = cc
active_tab-none (t ∷ visible) (some u) h = ground arith

active_tab-some :
    (visible : List SearchTab) (requested : Option SearchTab) (t : SearchTab)
    → active_tab visible requested ≡ some t
    → visible ≢ []
unfolding active_tab
active_tab-some [] none t h e = cc
active_tab-some [] (some u) t h e = cc
active_tab-some (u ∷ visible) requested t h e = cc

-- Nothing has been found among the tabs of the entity.
abbrev pub IsEmpty : SearchEntity → Queries → Type 0
IsEmpty all_entities qs = (t : SearchTab) → item_count qs t ≡ 0
IsEmpty (only t) qs = (item_count qs t ≡ 0) × (is_loading_tab qs t ≡ false)

-- Exactly the tabs of the entity with items are visible, and no query is loading; where the entity
-- is one tab, that tab, which has items or is loading.
abbrev pub IsVisible : SearchEntity → Queries → List SearchTab → Type 0
IsVisible all_entities qs visible =
    (is_loading_any qs ≡ false) × ((t : SearchTab) → includes visible t ≡ ltb 0 (item_count qs t))
IsVisible (only t) qs visible =
    (visible ≡ t ∷ []) × (ltb 0 (item_count qs t) || is_loading_tab qs t ≡ true)

-- Nothing of the entity is there yet: a query is loading, and where the entity is one tab, it is
-- another tab's, and the tab has no items.
abbrev pub IsSearching : SearchEntity → Queries → Type 0
IsSearching all_entities qs = is_loading_any qs ≡ true
IsSearching (only t) qs =
    (is_loading_any qs ≡ true) × (item_count qs t ≡ 0) × (is_loading_tab qs t ≡ false)

abbrev pub Shows : SearchEntity → Option SearchTab → Queries → Shown → Type 0
Shows e requested qs no_term = ⊥
Shows e requested qs searching = IsSearching e qs
Shows e requested qs no_results = (is_loading_any qs ≡ false) × IsEmpty e qs
Shows e requested qs (results visible t) = IsVisible e qs visible × IsActive visible requested t

visible_tabs-IsEmpty :
    (e : SearchEntity) (qs : Queries)
    → is_loading_any qs ≡ false
    → visible_tabs e qs ≡ []
    → IsEmpty e qs
unfolding visible_tabs
visible_tabs-IsEmpty all_entities qs h v =
    λ t. ground (arith, includes-visible qs t h, ap (λ l. includes l t) v)
visible_tabs-IsEmpty (only t) qs h v = ground arith

visible_tabs-IsSearching :
    (e : SearchEntity) (qs : Queries)
    → is_loading_any qs ≡ true
    → visible_tabs e qs ≡ []
    → IsSearching e qs
unfolding visible_tabs
visible_tabs-IsSearching all_entities qs h v = h
visible_tabs-IsSearching (only t) qs h v = ground arith

visible_tabs-IsVisible :
    (e : SearchEntity) (requested : Option SearchTab) (qs : Queries) (t : SearchTab)
    → active_tab (visible_tabs e qs) requested ≡ some t
    → IsVisible e qs (visible_tabs e qs)
unfolding visible_tabs
visible_tabs-IsVisible all_entities requested qs t h = elim (Bool-cases (is_loading_any qs)) [
  | inl b ↦ absurd (active_tab-some (visible_tabs all_entities qs) requested t h (rw b refl))
  | inr b ↦ (b, λ u. includes-visible qs u b)
]
visible_tabs-IsVisible (only t0) requested qs t h =
    ground (arith, active_tab-some (visible_tabs (only t0) qs) requested t h)

-- What a search shows. Results: for all entities, no query is loading and the tabs are those with
-- items; for one entity, its tab, which has items or is loading; the active tab is the requested
-- one if that is among the tabs, else the first. "Searching": a query is loading, and for one
-- entity it is another's, and its tab has no items. "No results": no query is loading and no tab of
-- the entity has items.
pub search_results-Shows :
    (e : SearchEntity) (requested : Option SearchTab) (qs : Queries)
    → Shows e requested qs (search_results e requested qs)
unfolding search_results
search_results-Shows e requested qs =
    elim (Option-cases (active_tab (visible_tabs e qs) requested)) [
      | inl h ↦ elim (Bool-cases (is_loading_any qs)) [
        | inl b ↦
            simp (search_results, h)
              (rw b
                (visible_tabs-IsSearching e qs b (active_tab-none (visible_tabs e qs) requested h)))
        | inr b ↦
            simp (search_results, h, b)
              (refl, visible_tabs-IsEmpty e qs b (active_tab-none (visible_tabs e qs) requested h))
      ]
      | inr (t, h) ↦
          simp (search_results, h)
            (
              visible_tabs-IsVisible e requested qs t h,
              active_tab-IsActive (visible_tabs e qs) requested t h,
            )
    ]
