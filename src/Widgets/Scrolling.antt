-- ===== src/Widgets/Scrolling.antt =====
-- The direction of scrolling and clicks outside: web/frontend/src/utils/solid/useScrollDirection.ts
-- and createClickOutside.ts beside it. Places are natural numbers, from the top of the page.
use touhou_cloud_music_thcdb.Common.{
  ℕ, ◌≤◌, ◌≡◌, refl, Bool, true, false, not, ◌&&◌, Option, none, some, List, [], ◌∷◌, ltb, arith,
  if◌then◌else◌,
}

pub data ScrollDirection : Type 0 where
  up : ScrollDirection
  down : ScrollDirection

pub record Scrolling : Type 0 where
  pub direction : Option ScrollDirection
  pub last_scroll_y : ℕ

-- `onMount` at a place
abbrev pub mount : ℕ → Scrolling
mount y = record { direction = none; last_scroll_y = y }

unfoldable pub handle_scroll : ℕ → ℕ → Scrolling → Scrolling
handle_scroll min_y current_y s =
    if ltb s.last_scroll_y current_y && ltb min_y current_y
    then record { direction = some down; last_scroll_y = current_y }
    else if ltb current_y s.last_scroll_y
    then record { direction = some up; last_scroll_y = current_y }
    else record s { last_scroll_y = current_y }

unfoldable pub scrolled : ℕ → List ℕ → Scrolling → Scrolling
unfolding handle_scroll
scrolled min_y [] s = s
scrolled min_y (y ∷ ys) s = scrolled min_y ys (handle_scroll min_y y s)

abbrev pub is_down : Option ScrollDirection → Bool
is_down (some down) = true
is_down d = false

-- Near the top the direction is not down.
abbrev pub IsCalm : ℕ → Scrolling → Type 0
IsCalm min_y s = s.last_scroll_y ≤ min_y → is_down s.direction ≡ false

handle_scroll-IsCalm :
    (min_y y : ℕ) (s : Scrolling) → IsCalm min_y s → IsCalm min_y (handle_scroll min_y y s)
unfolding handle_scroll
handle_scroll-IsCalm min_y y s h = λ le. ground (arith, h)

scrolled-IsCalm :
    (min_y : ℕ) (ys : List ℕ) (s : Scrolling) → IsCalm min_y s → IsCalm min_y (scrolled min_y ys s)
unfolding scrolled
scrolled-IsCalm min_y [] s h = h
scrolled-IsCalm min_y (y ∷ ys) s h =
    scrolled-IsCalm min_y ys (handle_scroll min_y y s) (handle_scroll-IsCalm min_y y s h)

-- Top
pub not_down_at_top :
    (min_y start : ℕ) (ys : List ℕ)
    → (scrolled min_y ys (mount start)).last_scroll_y ≤ min_y
    → is_down (scrolled min_y ys (mount start)).direction ≡ false
not_down_at_top min_y start ys = scrolled-IsCalm min_y ys (mount start) (λ le. refl)

-- `createClickOutside`: whether it is shown, and the listeners of the document, of which there are as
-- many as the effect has added and not removed.
pub record ClickOutside : Type 0 where
  pub show : Bool
  pub listening : Bool

-- The effect after a write: the callback, added at most once, listens while it is shown.
unfoldable pub set_show : Bool → ClickOutside → ClickOutside
set_show state s = record { show = state; listening = state }

-- A click, whether its path has the element, and whether the event is a mouseup.
unfoldable pub on_click : Bool → Bool → ClickOutside → ClickOutside
unfolding set_show
on_click is_mouseup is_inside s =
    if not s.listening
    then s
    else if is_mouseup
    then s
    else if is_inside
    then s
    else set_show false s
