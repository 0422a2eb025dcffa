-- ===== src/Locale/Examples.antt =====
-- A browser that asks for Japanese, then for Chinese.
use touhou_cloud_music_thcdb.Common.{◌≡◌, refl, none, some, List, [], ◌∷◌, Text, codes, text_eq}
use touhou_cloud_music_thcdb.Locale.{
  en, zh_cn, match_locale, is_app_locale, read_saved_locale, resolve_browser_locale,
  persist_locale_preference, resolve_initial_locale,
}

abbrev languages : List Text
languages = codes "ja-JP" ∷ codes "zh-Hans" ∷ codes "en" ∷ []

chinese_is_detected : resolve_initial_locale languages none none ≡ (zh_cn, some (codes "zh-CN"))
unfolding resolve_initial_locale read_saved_locale resolve_browser_locale match_locale
    persist_locale_preference
chinese_is_detected = refl

saved_english_is_kept :
    resolve_initial_locale languages none (some (codes "en")) ≡ (en, some (codes "en"))
unfolding resolve_initial_locale read_saved_locale is_app_locale text_eq
saved_english_is_kept = refl
