-- ===== src/Widgets/Examples.antt =====
-- An image that fails and gets another address, a sentinel that stays in view, and a page that is
-- scrolled.
use touhou_cloud_music_thcdb.Common.{◌≡◌, refl, true, false, some, codes, [], ◌∷◌}
use touhou_cloud_music_thcdb.Widgets.Image.{
  ImageContext, loading, shows_image, shows_fallback, src_given, load_reported, error_reported,
  failed_forever,
}
use touhou_cloud_music_thcdb.Widgets.Image
use touhou_cloud_music_thcdb.Widgets.Sentinel.{Sentinel, on_mount, new_sentinel, stays}
use touhou_cloud_music_thcdb.Widgets.Scrolling.{scrolled, mount, up}

abbrev shown : ImageContext
shown = record { state = loading; src = some (codes "a.png") }

failed_forever_example :
    let t =
      Image.after_all
        (src_given (some (codes "b.png")) ∷ load_reported ∷ [])
        (Image.after error_reported shown) in
    (shows_image t ≡ false) × (shows_fallback t ≡ true)
unfolding shows_image
failed_forever_example =
    failed_forever (src_given (some (codes "b.png")) ∷ load_reported ∷ []) shown refl

abbrev watching : Sentinel
watching = on_mount (new_sentinel (some 3))

-- It came into view while the next page was not to be loaded, and stays there.
never_loaded : (stays (false ∷ true ∷ true ∷ []) watching).loads ≡ 0
unfolding on_mount stays
never_loaded = refl

up_again : (scrolled 50 (90 ∷ 40 ∷ 45 ∷ []) (mount 0)).direction ≡ some up
unfolding scrolled
up_again = refl
