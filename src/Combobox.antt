-- ===== src/Combobox.antt =====
-- How the list of a combobox scrolls:
-- web/frontend/src/component/atomic/Combobox/__internal/scroll.ts. Its two debounced functions are
-- those of the toolkit, with no arguments; a scroll ends where it is asked to.
pub mod Scroll
pub mod Keys
mod Examples
use touhou_cloud_music_thcdb.Common.{
  ℕ, zero, suc, ◌+◌, ◌-◌, Bool, true, false, Option, none, some, List, [], ◌∷◌, ltb, if◌then◌else◌,
}
use touhou_cloud_music_thcdb.Toolkit.Timer.{Debounced, debounced, call, cancel, fired, pass_ms}

pub data ScrollBehavior : Type 0 where
  smooth instant : ScrollBehavior

-- `e.code` of a key event
pub data Code : Type 0 where
  arrow_up arrow_down other_key : Code

-- The behaviour, and the two debounced functions.
pub record ComboboxScroll : Type 0 where
  pub scroll_behavior : ScrollBehavior
  pub up : Debounced (Unit {0})
  pub down : Debounced (Unit {0})

abbrev pub scroll_delay : ℕ
scroll_delay = 150

unfoldable pub create_combobox_scroll : ComboboxScroll
create_combobox_scroll = record { scroll_behavior = smooth; up = debounced; down = debounced }

unfoldable pub handle_key_down : Code → ComboboxScroll → ComboboxScroll
handle_key_down arrow_up s = record s { up = call scroll_delay tt s.up }
handle_key_down arrow_down s = record s { down = call scroll_delay tt s.down }
handle_key_down other_key s = s

unfoldable pub handle_key_up : Code → ComboboxScroll → ComboboxScroll
handle_key_up arrow_up s = record s { up = cancel s.up; scroll_behavior = smooth }
handle_key_up arrow_down s = record s { down = cancel s.down; scroll_behavior = smooth }
handle_key_up other_key s = s

-- The debounced functions that are called set the behaviour.
abbrev pub behavior_after : ScrollBehavior → List (Unit {0}) → ScrollBehavior
behavior_after b [] = b
behavior_after b (_ ∷ calls) = instant

-- One ms passes.
unfoldable pub scroll_ms : ComboboxScroll → ComboboxScroll
scroll_ms s = record {
  scroll_behavior =
      behavior_after (behavior_after s.scroll_behavior (fired s.up.timers)) (fired s.down.timers);
  up = pass_ms s.up;
  down = pass_ms s.down;
}

unfoldable pub scroll_pass : ℕ → ComboboxScroll → ComboboxScroll
scroll_pass zero s = s
scroll_pass (suc n) s = scroll_pass n (scroll_ms s)

unfoldable pub on_cleanup : ComboboxScroll → ComboboxScroll
on_cleanup s = record s { up = cancel s.up; down = cancel s.down }

-- The geometry of an item and of its container.
pub record Geometry : Type 0 where
  pub offset_top : ℕ
  pub offset_height : ℕ
  pub scroll_top : ℕ
  pub client_height : ℕ

-- Where the container is asked to scroll to. The second difference is never below 0, since the
-- bottom of the item is then below that of the view.
unfoldable pub scroll_to_item : Geometry → Option ℕ
scroll_to_item g =
    let item_bottom = g.offset_top + g.offset_height in
    let view_bottom = g.scroll_top + g.client_height in
    if ltb g.offset_top g.scroll_top
    then some g.offset_top
    else if ltb view_bottom item_bottom
    then some (item_bottom - g.client_height)
    else none
