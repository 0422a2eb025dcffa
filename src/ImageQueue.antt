-- ===== src/ImageQueue.antt =====
-- The page of an entry of the image queue: web/frontend/src/view/image_queue/detail.tsx. The data of
-- the third-party cache are arguments, as JSON where the page reads them unchecked.
pub mod Sorted
pub mod Cached
pub mod Neighbor
mod Examples
use mathlib.Core.Option
use touhou_cloud_music_thcdb.Common.{
  ℕ, zero, suc, Bool, true, false, not, ◌&&◌, ◌||◌, Option, none, some, List, [], ◌∷◌, ◌++◌, ◌==◌,
  Text, codes, text_eq, nonempty, or_else, is_some, ltb_ℤ, get_elem?, ℤ, if◌then◌else◌,
}
use touhou_cloud_music_thcdb.Api.Values.{Json, Items, nil, cons, num, arr, obj, prop}
use touhou_cloud_music_thcdb.EntityTags.{Sign, sign_of_difference, sort}
use touhou_cloud_music_thcdb.Ports.{is_record}
use touhou_cloud_music_thcdb.Toolkit.Arrays.{dedupe_by}

pub data ImageQueueStatus : Type 0 where
  pending approved rejected cancelled reverted : ImageQueueStatus

pub data Color : Type 0 where
  marisa green reimu slate blue : Color

-- The status of the server, `none` for one that is unknown to the page.
unfoldable pub status_tone : Option ImageQueueStatus → Color × Text
status_tone (some pending) = (marisa, codes "Pending")
status_tone (some approved) = (green, codes "Approved")
status_tone (some rejected) = (reimu, codes "Rejected")
status_tone (some cancelled) = (slate, codes "Cancelled")
status_tone (some reverted) = (blue, codes "Reverted")
status_tone none = (slate, codes "Unknown")

pub record Image : Type 0 where
  pub directory : Text
  pub filename : Text

-- The member that says whose image it is.
pub record Target : Type 0 where
  pub id : ℕ
  pub type : Text

pub record ImageQueueDetail : Type 0 where
  pub created_by : ℕ
  pub image : Option Image
  pub artist : Option Target
  pub release : Option Target

-- `replaceAll(/\/+$/g, "")`: the slashes at the end; 47 is the code of "/".
unfoldable pub strip_slashes : Text → Text
strip_slashes [] = []
strip_slashes (c ∷ s) =
    let rest = strip_slashes s in if c == 47 && not (nonempty rest) then [] else c ∷ rest

unfoldable pub image_path : ImageQueueDetail → Option Text
unfolding strip_slashes
image_path detail = elim detail.image [
  | none ↦ none
  | some image ↦
      let dir = strip_slashes image.directory in
      if nonempty dir then some (dir ++ codes "/" ++ image.filename) else some image.filename
]

pub record TargetMeta : Type 0 where
  pub label : Text
  pub target : Target
  pub image_label : Text
  pub to : Text

unfoldable pub get_target_meta : ImageQueueDetail → Option TargetMeta
get_target_meta detail = elim detail.artist [
  | some t ↦ some (record {
    label = codes "Artist";
    target = t;
    image_label = codes "profile image";
    to = codes "/artist/$id";
  })
  | none ↦ elim detail.release [
    | some t ↦ some (record {
      label = codes "Release";
      target = t;
      image_label = codes "cover art";
      to = codes "/release/$id";
    })
    | none ↦ none
  ]
]

abbrev pub manages : List Text → Bool
manages [] = false
manages (role ∷ roles) =
    text_eq role (codes "Admin") || text_eq role (codes "Moderator") || manages roles

unfoldable pub has_image_queue_manage_permission : Option (List Text) → Bool
has_image_queue_manage_permission none = false
has_image_queue_manage_permission (some roles) = manages roles

-- `const id = item["id"]`, where it is a number
abbrev pub item_id : Json → List ℤ
item_id item =
    if not (is_record item)
    then []
    else elim (prop item (codes "id")) [ some (num id) ↦ id ∷ [] | _ ↦ [] ]

-- the inner loop
unfoldable pub item_ids : Items → List ℤ
item_ids nil = []
item_ids (cons item items) = item_id item ++ item_ids items

abbrev pub page_ids : Json → List ℤ
page_ids page =
    if not (is_record page)
    then []
    else elim (prop page (codes "items")) [ some (arr items) ↦ item_ids items | _ ↦ [] ]

-- the outer loop
unfoldable pub pages_ids : Items → List ℤ
unfolding item_ids is_record
pages_ids nil = []
pages_ids (cons page pages) = page_ids page ++ pages_ids pages

unfoldable pub extract_infinite_query_ids : Json → List ℤ
unfolding is_record pages_ids
extract_infinite_query_ids d =
    if not (is_record d)
    then []
    else elim (prop d (codes "pages")) [ some (arr pages) ↦ pages_ids pages | _ ↦ [] ]

pub data BackLink : Type 0 where
  pending_queue : BackLink
  user_queue : ℕ → BackLink

unfoldable pub back_link : Bool → Option ImageQueueDetail → BackLink
back_link can_manage none = pending_queue
back_link can_manage (some detail) =
    if not can_manage then user_queue detail.created_by else pending_queue

-- The keys whose queries are loaded again after an action.
pub data QueryKey : Type 0 where
  queue_detail queue_list queue_pending_count queue_user : QueryKey
  artist_profile release_info : ℕ → QueryKey

abbrev pub target_key : (ℕ → QueryKey) → Option Target → List QueryKey
target_key key none = []
target_key key (some t) = key t.id ∷ []

abbrev pub artist_of : Option ImageQueueDetail → Option Target
artist_of none = none
artist_of (some d) = d.artist

abbrev pub release_of : Option ImageQueueDetail → Option Target
release_of none = none
release_of (some d) = d.release

unfoldable pub refresh : Option ImageQueueDetail → List QueryKey
refresh detail =
    (queue_detail ∷ queue_list ∷ queue_pending_count ∷ queue_user ∷ [])
    ++ target_key artist_profile (artist_of detail)
    ++ target_key release_info (release_of detail)

-- The error of the mutation: an `Error` with its message, or anything else.
unfoldable pub mutation_error_message : Option (Option Text) → Option Text
mutation_error_message none = none
mutation_error_message (some none) = some (codes "Request failed.")
mutation_error_message (some (some message)) =
    some (if nonempty message then message else codes "Request failed.")

-- `flatMap(([, data]) => extractInfiniteQueryIds(data))`
unfoldable pub all_ids : List Json → List ℤ
all_ids [] = []
all_ids (d ∷ cached) = extract_infinite_query_ids d ++ all_ids cached

abbrev pub same_ℤ : ℤ → ℤ → Bool
same_ℤ a b = if ltb_ℤ a b then false else if ltb_ℤ b a then false else true

-- `(a, b) => b - a`
abbrev pub descending : ℤ → ℤ → Sign
descending a b = sign_of_difference b a

-- `Array.from(new Set(ids)).toSorted(...)`
unfoldable pub unique_ids : List ℤ → List ℤ
unique_ids ids = sort descending (dedupe_by same_ℤ ids (λ id. id))

-- `Array.prototype.indexOf`, `none` for -1
unfoldable pub index_of : ℤ → List ℤ → Option ℕ
index_of id [] = none
index_of id (x ∷ xs) =
    let rest = index_of id xs in if same_ℤ x id then some 0 else Option.map suc rest

-- `unique[index - 1]`
abbrev pub item_before : List ℤ → ℕ → Option ℤ
item_before xs zero = none
item_before xs (suc i) = get_elem? xs i

-- The data of the lists and those of the queues of users; the ids before and after the entry.
unfoldable pub cached_neighbor : ℤ → List Json → Option (Option ℤ × Option ℤ)
unfolding unique_ids index_of
cached_neighbor entry_id cached =
    let unique = unique_ids (all_ids cached) in
    elim (index_of entry_id unique) [
      | none ↦ none
      | some index ↦ some (item_before unique index, get_elem? unique (suc index))
    ]
