-- ===== src/Widgets/Sentinel.antt =====
-- The sentinel at the end of a list: web/frontend/src/utils/solid/useIntersectionSentinel.ts. The
-- browser's observer is part of the state: the elements it observes, and whether it last reported
-- that the target is in view; it reports when it begins to observe and when that changes.
use touhou_cloud_music_thcdb.Common.{
  ℕ, ◌+◌, ◌≡◌, refl, ap, ◌∙◌, Bool, true, false, not, Option, none, some, List, [], ◌∷◌, arith,
  if◌then◌else◌,
}
use touhou_cloud_music_thcdb.ImageUpload.{remove}

pub record Sentinel : Type 0 where
  pub has_observer : Bool
  pub target : Option ℕ
  pub observed : List ℕ
  pub reported : Option Bool
  pub loads : ℕ

abbrev pub new_sentinel : Option ℕ → Sentinel
new_sentinel target = record {
  has_observer = false;
  target = target;
  observed = [];
  reported = none;
  loads = 0;
}

-- `observer.unobserve(target)`, if there are both
abbrev pub unobserved : Option ℕ → List ℕ → List ℕ
unfolding remove
unobserved none observed = observed
unobserved (some el) observed = remove el observed

abbrev pub observing : Option ℕ → List ℕ → List ℕ
observing none observed = observed
observing (some el) observed = el ∷ observed

unfoldable pub set_target : Option ℕ → Sentinel → Sentinel
unfolding remove
set_target el s =
    if s.has_observer
    then record s {
      target = el;
      observed = observing el (unobserved s.target s.observed);
      reported = none;
    }
    else record s { target = el }

unfoldable pub on_mount : Sentinel → Sentinel
on_mount s = record s { has_observer = true; observed = observing s.target []; reported = none }

unfoldable pub on_cleanup : Sentinel → Sentinel
on_cleanup s = record s { has_observer = false; target = none; observed = []; reported = none }

-- The callback with the first entry.
unfoldable pub on_entries : Option Bool → Bool → Sentinel → Sentinel
on_entries none enabled s = s
on_entries (some false) enabled s = s
on_entries (some true) enabled s = if enabled then record s { loads = s.loads + 1 } else s

abbrev pub is_news : Option Bool → Bool → Bool
is_news none in_view = true
is_news (some true) in_view = not in_view
is_news (some false) in_view = in_view

-- What the browser does when the target, observed, is in view or is not: a report if that is news.
unfoldable pub browser_looks : Bool → Bool → Sentinel → Sentinel
unfolding on_entries
browser_looks in_view enabled s = elim s.observed [
  | [] ↦ s
  | el ∷ rest ↦
      if is_news s.reported in_view
      then on_entries (some in_view) enabled (record s { reported = some in_view })
      else s
]

pub data Event : Type 0 where
  placed : Option ℕ → Event
  mounted : Event
  unmounted : Event
  looked : Bool → Bool → Event

unfoldable pub after : Event → Sentinel → Sentinel
after (placed el) s = set_target el s
after mounted s = on_mount s
after unmounted s = on_cleanup s
after (looked in_view enabled) s = browser_looks in_view enabled s

unfoldable pub after_all : List Event → Sentinel → Sentinel
unfolding after
after_all [] s = s
after_all (ev ∷ evs) s = after_all evs (after ev s)

-- The target, and nothing else, is observed as long as there is an observer.
abbrev pub IsObserving : Sentinel → Type 0
IsObserving s = s.observed ≡ (if s.has_observer then observing s.target [] else [])

after-IsObserving : (ev : Event) (s : Sentinel) → IsObserving s → IsObserving (after ev s)
unfolding after set_target on_mount on_cleanup browser_looks remove
after-IsObserving (placed el) s h = ground arith
after-IsObserving mounted s h = refl
after-IsObserving unmounted s h = refl
after-IsObserving (looked in_view enabled) s h = ground arith

pub all-IsObserving :
    (evs : List Event) (s : Sentinel) → IsObserving s → IsObserving (after_all evs s)
unfolding after_all
all-IsObserving [] s h = h
all-IsObserving (ev ∷ evs) s h = all-IsObserving evs (after ev s) (after-IsObserving ev s h)

-- The browser looks again and again while the target stays in view.
unfoldable pub stays : List Bool → Sentinel → Sentinel
unfolding browser_looks
stays [] s = s
stays (enabled ∷ more) s = stays more (browser_looks true enabled s)

looks_same :
    (enabled : Bool) (s : Sentinel) → s.reported ≡ some true → browser_looks true enabled s ≡ s
unfolding browser_looks
looks_same enabled s h = ground arith

stays-reported : (enabled : List Bool) (s : Sentinel) → s.reported ≡ some true → stays enabled s ≡ s
unfolding stays
stays-reported [] s h = refl
stays-reported (e ∷ enabled) s h = rw (looks_same e s h) (stays-reported enabled s h)

looks-reported :
    (e : Bool) (el : ℕ) (s : Sentinel)
    → s.observed ≡ el ∷ []
    → (browser_looks true e s).reported ≡ some true
unfolding browser_looks
looks-reported true el s h = ground arith
looks-reported false el s h = ground arith

first_look :
    (e : Bool) (el : ℕ) (s : Sentinel)
    → s.observed ≡ el ∷ []
    → is_news s.reported true ≡ true
    → (browser_looks true e s).loads ≡ (if e then s.loads + 1 else s.loads)
unfolding browser_looks
first_look true el s h n = ground arith
first_look false el s h n = ground arith

-- Once
pub stays-loads :
    (first : Bool) (enabled : List Bool) (el : ℕ) (s : Sentinel)
    → IsObserving s
    → s.has_observer ≡ true
    → s.target ≡ some el
    → is_news s.reported true ≡ true
    → (stays (first ∷ enabled) s).loads ≡ (if first then s.loads + 1 else s.loads)
unfolding stays
stays-loads first enabled el s o has target n =
    let here : s.observed ≡ el ∷ [] = ground arith in
    ap (λ t. t.loads)
      (stays-reported enabled (browser_looks true first s) (looks-reported first el s here))
    ∙ first_look first el s here n
