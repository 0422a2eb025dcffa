-- ===== src/Search/Choice.antt =====
-- What the address says, and the choice of a tab.
use touhou_cloud_music_thcdb.Common.{
  ◌≡◌, refl, sym, ap, ◌∙◌, ◌↔◌, inl, inr, Bool, true, false, not, Option, none, some, List, Text,
  text_eq, text_eq_iff, codes, arith, Bool-cases, if◌then◌else◌,
}
use touhou_cloud_music_thcdb.Search.{
  SearchTab, artist, event, label, release, song, tag, SearchEntity, Queries, Search, tab_name,
  is_search_tab, entity, enabled, term, patch_search, visible_tabs, includes, active_tab, no_term,
  no_results, searching, is_loading_any, results, search_results, search_page,
}

-- A text is read as a tab exactly when it is the name of that tab.
pub is_search_tab_iff :
    (value : Text) (t : SearchTab) → (is_search_tab value ≡ some t) ↔ (value ≡ tab_name t)
unfolding is_search_tab text_eq
is_search_tab_iff value t = (read, λ e. rw e (named t))
  where
    read : is_search_tab value ≡ some t → value ≡ tab_name t
    read h = ground (
      arith,
      text_eq_iff value (codes "artist"),
      text_eq_iff value (codes "release"),
      text_eq_iff value (codes "song"),
      text_eq_iff value (codes "event"),
      text_eq_iff value (codes "label"),
      text_eq_iff value (codes "tag"),
    )

    named : (t : SearchTab) → is_search_tab (tab_name t) ≡ some t
    named artist = refl
    named event = refl
    named label = refl
    named release = refl
    named song = refl
    named tag = refl

results-visible :
    (active : Option SearchTab) (is_idle : Bool) (tabs visible : List SearchTab) (u : SearchTab)
    → elim active [ some t ↦ results tabs t | none ↦ if is_idle then no_results else searching ]
      ≡ results visible u
    → tabs ≡ visible
results-visible (some t) is_idle tabs visible u h = cc
results-visible none true tabs visible u h = cc
results-visible none false tabs visible u h = cc

chosen :
    (e : SearchEntity) (r : Option SearchTab) (qs : Queries) (visible : List SearchTab)
    (t u : SearchTab)
    → search_results e r qs ≡ results visible u
    → includes visible t ≡ true
    → search_results e (some t) qs ≡ results visible t
unfolding search_results active_tab
chosen e r qs visible t u h k =
    let shown =
      results-visible (active_tab (visible_tabs e qs) r) (not (is_loading_any qs))
        (visible_tabs e qs) visible u h in
    rw (search_results, active_tab, shown, k) (ap (λ v. results v t) shown)

-- Where results are shown, a click on a visible tab shows the same tabs with that one active.
pub patch_search-active :
    (s : Search) (qs : Queries) (visible : List SearchTab) (t u : SearchTab)
    → search_page s qs ≡ results visible u
    → includes visible t ≡ true
    → search_page (patch_search t s) qs ≡ results visible t
unfolding search_page patch_search term enabled entity
patch_search-active s qs visible t u h k = elim (Bool-cases (enabled s)) [
  | inl e ↦ rw e (
      chosen (entity s) s.tab qs visible t u
        (ap (λ b. if b then search_results (entity s) s.tab qs else no_term) (sym e) ∙ h) k)
  | inr e ↦ absurd (
      no_term-results
        (ap (λ b. if b then search_results (entity s) s.tab qs else no_term) (sym e) ∙ h))
]
  where
    no_term-results : no_term ≡ results visible u → ⊥
    no_term-results e = cc
