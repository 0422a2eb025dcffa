-- ===== src/Combobox/Examples.antt =====
-- An item below the view, and keys that are held.
use touhou_cloud_music_thcdb.Common.{◌≡◌, refl, List, [], ◌∷◌, some}
use touhou_cloud_music_thcdb.Combobox.{Geometry, scroll_to_item, arrow_up, arrow_down}
use touhou_cloud_music_thcdb.Combobox.Keys.{KeyEvent, pressed, released, ms_passed}

abbrev below : Geometry
below = record { offset_top = 300; offset_height = 20; scroll_top = 0; client_height = 100 }

scrolls_down : scroll_to_item below ≡ some 220
unfolding scroll_to_item
scrolls_down = refl

abbrev keys : List KeyEvent
keys = pressed arrow_down ∷ ms_passed ∷ pressed arrow_up ∷ released arrow_down ∷ []
