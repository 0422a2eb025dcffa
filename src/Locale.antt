-- ===== src/Locale.antt =====
-- The first choice of a language: web/frontend/src/state/i18n/init.ts. The storage is the value of
-- its one key, `none` where there is none; the browser's languages are arguments.
pub mod Choice
mod Examples
use touhou_cloud_music_thcdb.Common.{
  ℕ, Bool, true, false, ◌&&◌, Option, none, some, List, [], ◌∷◌, ◌==◌, Text, codes, text_eq,
  or_else, is_some, if◌then◌else◌,
}

pub data AppLocale : Type 0 where
  en zh_cn : AppLocale

abbrev pub locale_text : AppLocale → Text
locale_text en = codes "en"
locale_text zh_cn = codes "zh-CN"

abbrev pub default_locale : AppLocale
default_locale = en

-- `startsWith`
abbrev pub starts_with : Text → Text → Bool
starts_with s [] = true
starts_with [] (c ∷ prefix) = false
starts_with (d ∷ s) (c ∷ prefix) = d == c && starts_with s prefix

unfoldable pub match_locale : Text → Option AppLocale
match_locale language =
    if starts_with language (codes "en")
    then some en
    else if starts_with language (codes "zh")
    then some zh_cn
    else none

unfoldable pub persist_locale_preference : AppLocale → Option Text → Option Text
persist_locale_preference locale storage = some (locale_text locale)

-- `isAppLocale`, with the locale that the text is.
unfoldable pub is_app_locale : Text → Option AppLocale
is_app_locale locale =
    if text_eq locale (codes "en")
    then some en
    else if text_eq locale (codes "zh-CN")
    then some zh_cn
    else none

unfoldable pub read_saved_locale : Option Text → Option AppLocale
unfolding is_app_locale
read_saved_locale none = none
read_saved_locale (some saved) = is_app_locale saved

-- `fallback === undefined ? undefined : matchLocale(fallback)`
abbrev pub match_fallback : Option Text → Option AppLocale
match_fallback none = none
match_fallback (some language) = match_locale language

unfoldable pub resolve_browser_locale : List Text → Option Text → AppLocale
resolve_browser_locale [] fallback = or_else (match_fallback fallback) default_locale
resolve_browser_locale (language ∷ languages) fallback =
    let rest = resolve_browser_locale languages fallback in or_else (match_locale language) rest

-- The locale and the storage afterwards.
unfoldable pub resolve_initial_locale :
    List Text → Option Text → Option Text → AppLocale × Option Text
unfolding persist_locale_preference resolve_browser_locale
resolve_initial_locale languages language storage = elim (read_saved_locale storage) [
  | some saved ↦ (saved, storage)
  | none ↦
      let detected = resolve_browser_locale languages language in
      (detected, persist_locale_preference detected storage)
]
