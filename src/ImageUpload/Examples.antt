-- ===== src/ImageUpload/Examples.antt =====
-- Uploads of files that are numbers.
use touhou_cloud_music_thcdb.Common.{ℕ, ◌≡◌, refl, Option, none, some, List, [], ◌∷◌, codes}
use touhou_cloud_music_thcdb.ImageUpload.{
  Store, Thrown, error_with, create, begin_submit, settle_submit, on_draft_save,
}
use touhou_cloud_music_thcdb.ImageUpload.Urls.{Event, saved, submitted, settled, after_all}

abbrev first : Store ℕ
first = create (some 5) none

abbrev events : List (Event ℕ)
events = saved 6 ∷ submitted ∷ saved 7 ∷ settled none ∷ []

third_url_is_live : (after_all events first).live ≡ 2 ∷ []
unfolding after_all create on_draft_save begin_submit settle_submit
third_url_is_live = refl

abbrev too_large : Option Thrown
too_large = some (error_with (codes "Too large"))
