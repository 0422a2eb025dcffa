-- ===== src/ImageQueue/Cached.antt =====
-- The ids in the cached lists of the image queue.
use touhou_cloud_music_thcdb.Common.{
  ◌≡◌, refl, sym, ap, ◌↔◌, ◌⊎◌, inl, inr, true, Option, none, some, List, [], ◌∷◌, In,
  In-append_left, In-append_right, In-append_cases, ℤ, codes, Bool-cases,
}
use mathlib.Core.Path.{subst}
use touhou_cloud_music_thcdb.Api.Values.{
  Json, Items, nil, cons, null, bool, num, str, arr, obj, prop,
}
use touhou_cloud_music_thcdb.Ports.{is_record}
use touhou_cloud_music_thcdb.ImageQueue.{
  item_id, item_ids, page_ids, pages_ids, extract_infinite_query_ids, all_ids,
}

abbrev pub InItems : Json → Items → Type 0
InItems j nil = ⊥
InItems j (cons item items) = (item ≡ j) ⊎ InItems j items

-- An item with this id, a page with such an item, and a list with such a page.
pub record IsItem (id : ℤ) (item : Json) : Type 0 where
  pub is_object : is_record item ≡ true
  pub its_id : prop item (codes "id") ≡ some (num id)

pub record IsPage (id : ℤ) (page : Json) : Type 0 where
  pub is_object : is_record page ≡ true
  pub items : Items
  pub its_items : prop page (codes "items") ≡ some (arr items)
  pub found : (item : Json) × InItems item items × IsItem id item

pub record IsPaged (id : ℤ) (list : Json) : Type 0 where
  pub is_object : is_record list ≡ true
  pub pages : Items
  pub its_pages : prop list (codes "pages") ≡ some (arr pages)
  pub found : (page : Json) × InItems page pages × IsPage id page

abbrev pub IsCached : ℤ → List Json → Type 0
IsCached id cached = (list : Json) × In list cached × IsPaged id list

-- What is read of an array, or nothing.
read_array :
    (x : ℤ) (o : Option Json) (read : Items → List ℤ)
    → In x (elim o [ some (arr items) ↦ read items | _ ↦ [] ])
    → (items : Items) × (o ≡ some (arr items)) × In x (read items)
read_array x (some (arr items)) read h = (items, refl, h)
read_array x none read h = absurd h
read_array x (some null) read h = absurd h
read_array x (some (bool b)) read h = absurd h
read_array x (some (num n)) read h = absurd h
read_array x (some (str t)) read h = absurd h
read_array x (some (obj fs)) read h = absurd h

read_number :
    (x : ℤ) (o : Option Json)
    → In x (elim o [ some (num id) ↦ id ∷ [] | _ ↦ [] ])
    → o ≡ some (num x)
read_number x (some (num n)) (inl e) = ap (λ k. some (num k)) e
read_number x (some (num n)) (inr h) = absurd h
read_number x none h = absurd h
read_number x (some null) h = absurd h
read_number x (some (bool b)) h = absurd h
read_number x (some (arr items)) h = absurd h
read_number x (some (str t)) h = absurd h
read_number x (some (obj fs)) h = absurd h

item_id-IsItem : (item : Json) (x : ℤ) → In x (item_id item) → IsItem x item
item_id-IsItem item x h = elim (Bool-cases (is_record item)) [
  | inl b ↦ record { is_object = b; its_id = read_number x (prop item (codes "id")) (rw b at h) }
  | inr b ↦ absurd (rw b at h)
]

IsItem-item_id : (item : Json) (x : ℤ) → IsItem x item → In x (item_id item)
IsItem-item_id item x h = rw (h.is_object, h.its_id) (inl refl)

item_ids-found :
    (items : Items) (x : ℤ)
    → In x (item_ids items)
    → (item : Json) × InItems item items × IsItem x item
unfolding item_ids
item_ids-found nil x h = absurd h
item_ids-found (cons item items) x h = elim (In-append_cases x (item_id item) (item_ids items) h) [
  | inl k ↦ (item, inl refl, item_id-IsItem item x k)
  | inr k ↦ let (found, inside, is) = item_ids-found items x k in (found, inr inside, is)
]

found-item_ids :
    (items : Items) (x : ℤ) (item : Json)
    → InItems item items
    → IsItem x item
    → In x (item_ids items)
unfolding item_ids
found-item_ids nil x item h k = absurd h
found-item_ids (cons first items) x item (inl e) k =
    In-append_left x (item_id first) (item_ids items)
      (IsItem-item_id first x (subst (IsItem x) (sym e) k))
found-item_ids (cons first items) x item (inr h) k =
    In-append_right x (item_id first) (item_ids items) (found-item_ids items x item h k)

page_ids-IsPage : (page : Json) (x : ℤ) → In x (page_ids page) → IsPage x page
page_ids-IsPage page x h = elim (Bool-cases (is_record page)) [
  | inl b ↦
      let (items, e, k) = read_array x (prop page (codes "items")) item_ids (rw b at h) in
      record { is_object = b; items = items; its_items = e; found = item_ids-found items x k }
  | inr b ↦ absurd (rw b at h)
]

IsPage-page_ids : (page : Json) (x : ℤ) → IsPage x page → In x (page_ids page)
IsPage-page_ids page x h =
    let (item, inside, is) = h.found in
    rw (h.is_object, h.its_items) (found-item_ids h.items x item inside is)

pages_ids-found :
    (pages : Items) (x : ℤ)
    → In x (pages_ids pages)
    → (page : Json) × InItems page pages × IsPage x page
unfolding pages_ids
pages_ids-found nil x h = absurd h
pages_ids-found (cons page pages) x h =
    elim (In-append_cases x (page_ids page) (pages_ids pages) h) [
      | inl k ↦ (page, inl refl, page_ids-IsPage page x k)
      | inr k ↦ let (found, inside, is) = pages_ids-found pages x k in (found, inr inside, is)
    ]

found-pages_ids :
    (pages : Items) (x : ℤ) (page : Json)
    → InItems page pages
    → IsPage x page
    → In x (pages_ids pages)
unfolding pages_ids
found-pages_ids nil x page h k = absurd h
found-pages_ids (cons first pages) x page (inl e) k =
    In-append_left x (page_ids first) (pages_ids pages)
      (IsPage-page_ids first x (subst (IsPage x) (sym e) k))
found-pages_ids (cons first pages) x page (inr h) k =
    In-append_right x (page_ids first) (pages_ids pages) (found-pages_ids pages x page h k)

list-IsPaged : (list : Json) (x : ℤ) → In x (extract_infinite_query_ids list) → IsPaged x list
unfolding extract_infinite_query_ids
list-IsPaged list x h = elim (Bool-cases (is_record list)) [
  | inl b ↦
      let (pages, e, k) = read_array x (prop list (codes "pages")) pages_ids (rw b at h) in
      record { is_object = b; pages = pages; its_pages = e; found = pages_ids-found pages x k }
  | inr b ↦ absurd (rw b at h)
]

IsPaged-list : (list : Json) (x : ℤ) → IsPaged x list → In x (extract_infinite_query_ids list)
unfolding extract_infinite_query_ids
IsPaged-list list x h =
    let (page, inside, is) = h.found in
    rw (h.is_object, h.its_pages) (found-pages_ids h.pages x page inside is)

all_ids_found : (cached : List Json) (x : ℤ) → In x (all_ids cached) → IsCached x cached
unfolding all_ids
all_ids_found [] x h = absurd h
all_ids_found (list ∷ cached) x h =
    elim (In-append_cases x (extract_infinite_query_ids list) (all_ids cached) h) [
      | inl k ↦ (list, inl refl, list-IsPaged list x k)
      | inr k ↦ let (found, inside, is) = all_ids_found cached x k in (found, inr inside, is)
    ]

IsCached-all_ids :
    (cached : List Json) (x : ℤ) (list : Json)
    → In list cached
    → IsPaged x list
    → In x (all_ids cached)
unfolding all_ids
IsCached-all_ids [] x list h k = absurd h
IsCached-all_ids (first ∷ cached) x list (inl e) k =
    In-append_left x (extract_infinite_query_ids first) (all_ids cached)
      (IsPaged-list first x (subst (IsPaged x) (sym e) k))
IsCached-all_ids (first ∷ cached) x list (inr h) k =
    In-append_right x (extract_infinite_query_ids first) (all_ids cached)
      (IsCached-all_ids cached x list h k)

-- The ids that the page collects are those of the items on the pages of the cached lists.
pub all_ids-IsCached : (cached : List Json) (x : ℤ) → In x (all_ids cached) ↔ IsCached x cached
all_ids-IsCached cached x =
    (all_ids_found cached x, λ (list, inside, is). IsCached-all_ids cached x list inside is)
