-- ===== src/Widgets/Image.antt =====
-- An image with a fallback: web/frontend/src/component/image/__internal.tsx. The browser reports a
-- load or an error only of an element that is there.
use touhou_cloud_music_thcdb.Common.{
  ◌≡◌, refl, Bool, true, false, not, ◌&&◌, Option, none, some, Text, nonempty, List, [], ◌∷◌, arith,
  if◌then◌else◌,
}

pub data LoadState : Type 0 where
  loading : LoadState
  failed : LoadState
  loaded : LoadState

-- The state of the context, and the address that `Img` is given and hands on.
pub record ImageContext : Type 0 where
  pub state : LoadState
  pub src : Option Text

abbrev pub new_image : ImageContext
new_image = record { state = loading; src = none }

abbrev pub is_error : LoadState → Bool
is_error failed = true
is_error s = false

abbrev pub is_ok : LoadState → Bool
is_ok loaded = true
is_ok s = false

abbrev pub given : Option Text → Bool
given none = false
given (some src) = nonempty src

-- Whether `Img` and `Fallback` show what they have.
unfoldable pub shows_image : ImageContext → Bool
shows_image s = not (is_error s.state) && given s.src

unfoldable pub shows_fallback : ImageContext → Bool
shows_fallback s = not (is_ok s.state)

unfoldable pub set_src : Option Text → ImageContext → ImageContext
set_src src s = record s { src = src }

unfoldable pub on_load : ImageContext → ImageContext
on_load s = record s { state = loaded }

unfoldable pub on_error : ImageContext → ImageContext
on_error s = record s { state = failed }

pub data Event : Type 0 where
  src_given : Option Text → Event
  load_reported : Event
  error_reported : Event

unfoldable pub after : Event → ImageContext → ImageContext
unfolding shows_image set_src on_load on_error
after (src_given src) s = set_src src s
after load_reported s = if shows_image s then on_load s else s
after error_reported s = if shows_image s then on_error s else s

unfoldable pub after_all : List Event → ImageContext → ImageContext
unfolding after
after_all [] s = s
after_all (ev ∷ evs) s = after_all evs (after ev s)

after-failed : (ev : Event) (s : ImageContext) → s.state ≡ failed → (after ev s).state ≡ failed
unfolding after
after-failed (src_given src) s h = h
after-failed load_reported s h = ground arith
after-failed error_reported s h = ground arith

all-failed :
    (evs : List Event) (s : ImageContext) → s.state ≡ failed → (after_all evs s).state ≡ failed
unfolding after_all
all-failed [] s h = h
all-failed (ev ∷ evs) s h = all-failed evs (after ev s) (after-failed ev s h)

error-failed : (s : ImageContext) → shows_image s ≡ true → (after error_reported s).state ≡ failed
unfolding after
error-failed s h = rw h refl

hidden : (s : ImageContext) → s.state ≡ failed → (shows_image s ≡ false) × (shows_fallback s ≡ true)
unfolding shows_image shows_fallback
hidden s h = rw h (refl, refl)

-- An image that is shown fails: whatever addresses it is given and whatever is reported afterwards,
-- it is never shown again and the fallback is.
pub failed_forever :
    (evs : List Event) (s : ImageContext)
    → shows_image s ≡ true
    → let t = after_all evs (after error_reported s) in
      (shows_image t ≡ false) × (shows_fallback t ≡ true)
failed_forever evs s h =
    hidden (after_all evs (after error_reported s))
      (all-failed evs (after error_reported s) (error-failed s h))

-- An image that was loaded and whose address is taken away leaves nothing to see.
pub taken_away :
    (s : ImageContext)
    → shows_image s ≡ true
    → let t = after (src_given none) (after load_reported s) in
      (shows_image t ≡ false) × (shows_fallback t ≡ false)
unfolding shows_image shows_fallback after
taken_away s h = ground arith
