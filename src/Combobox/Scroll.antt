-- ===== src/Combobox/Scroll.antt =====
-- When scrolling becomes instant, and what is in view after it.
use touhou_cloud_music_thcdb.Common.{◌+◌, ◌≤◌, ◌<◌, ◌≡◌, ◌⊎◌, none, or_else, arith}
use touhou_cloud_music_thcdb.Combobox.{Geometry, scroll_to_item}

-- An item that is no higher than the list is fully in view after the scroll to it, and the list
-- goes up only for an item that begins above the view.
pub scroll_to_item-visible :
    (g : Geometry)
    → g.offset_height ≤ g.client_height
    → let top = or_else (scroll_to_item g) g.scroll_top in
      (top ≤ g.offset_top)
      × (g.offset_top + g.offset_height ≤ top + g.client_height)
      × ((scroll_to_item g ≡ none) ⊎ (g.offset_top < g.scroll_top) ⊎ (g.scroll_top < top))
unfolding scroll_to_item
scroll_to_item-visible g h = ground arith
