-- ===== src/Locale/Choice.antt =====
-- The choice lasts.
use touhou_cloud_music_thcdb.Common.{
  ◌≡◌, refl, inl, inr, Option, none, some, List, [], ◌∷◌, ◌++◌, Text, text_eq, or_else, All,
  Option-cases,
}
use touhou_cloud_music_thcdb.Locale.{
  AppLocale, en, zh_cn, locale_text, default_locale, match_locale, match_fallback, is_app_locale,
  read_saved_locale, persist_locale_preference, resolve_browser_locale, resolve_initial_locale,
}

saved_locale : (l : AppLocale) → read_saved_locale (some (locale_text l)) ≡ some l
unfolding read_saved_locale is_app_locale text_eq
saved_locale en = refl
saved_locale zh_cn = refl

-- The first choice lasts: the next one is the same, whatever the browser asks for then, and leaves
-- the storage as it is.
pub resolve_initial_locale-lasts :
    (languages later_languages : List Text) (language later_language storage : Option Text)
    → let (chosen, stored) = resolve_initial_locale languages language storage in
      resolve_initial_locale later_languages later_language stored ≡ (chosen, stored)
unfolding resolve_initial_locale persist_locale_preference
resolve_initial_locale-lasts languages later_languages language later_language storage =
    elim (Option-cases (read_saved_locale storage)) [
      | inl e ↦
          simp (resolve_initial_locale, e, saved_locale (resolve_browser_locale languages language))
      | inr (saved, e) ↦ simp (resolve_initial_locale, e, e)
    ]

-- No language of the list is known.
abbrev pub NoneMatch : List Text → Type 0
NoneMatch languages = All (λ l. match_locale l ≡ none) languages

-- The first known language of the browser decides; if it has none, the fallback does, and without
-- that English.
pub resolve_browser_locale-first :
    (before after : List Text) (language : Text) (fallback : Option Text) (l : AppLocale)
    → NoneMatch before
    → match_locale language ≡ some l
    → (resolve_browser_locale (before ++ (language ∷ after)) fallback ≡ l)
      × (resolve_browser_locale before fallback ≡ or_else (match_fallback fallback) default_locale)
unfolding resolve_browser_locale
resolve_browser_locale-first [] after language fallback l n h = (rw h refl, refl)
resolve_browser_locale-first (b ∷ before) after language fallback l (e, n) h =
    rw e (resolve_browser_locale-first before after language fallback l n h)
