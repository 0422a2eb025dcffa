-- ===== src/Ports.antt =====
-- The clients of the notifications and of the image queue:
-- web/frontend/packages/api/src/port/notification/index.ts and port/image-queue/index.ts, whose
-- helpers are the same. `fetch` is an argument: what it does with a request.
pub mod Envelopes
pub mod Agreement
mod Examples
use touhou_cloud_music_thcdb.Common.{
  ℕ, Bool, true, false, not, ◌&&◌, Option, none, some, List, [], ◌∷◌, ◌++◌, Text, codes, leb,
  or_else, is_some, if◌then◌else◌,
}
use touhou_cloud_music_thcdb.Api.{
  Either, left, right, ApiError, ErrorType, server, response_only, Response, is_text, is_string,
}
use touhou_cloud_music_thcdb.Api.Values.{Json, obj, prop, str}

-- A value of a query: left out, or its text.
pub data QueryValue : Type 0 where
  omitted : QueryValue
  given : Text → QueryValue

-- The path below `/api` and the search parameters; the browser encodes them.
pub record Url : Type 0 where
  pub path : Text
  pub search : List (Text × Text)

-- `URLSearchParams.set` on names that differ
unfoldable pub search_params : List (Text × QueryValue) → List (Text × Text)
search_params [] = []
search_params ((key, omitted) ∷ query) = search_params query
search_params ((key, given value) ∷ query) = (key, value) ∷ search_params query

unfoldable pub build_url : Text → List (Text × QueryValue) → Url
unfolding search_params
build_url path query = record { path = codes "/api" ++ path; search = search_params query }

pub data Method : Type 0 where
  get : Method
  post : Method

pub record Request : Type 0 where
  pub method : Method
  pub url : Url

-- What `fetch` does: it throws, an `Error` with its message or anything else, or gives a response
-- with the body as JSON, `none` where that is refused.
pub data Fetched : Type 0 where
  threw : Option Text → Fetched
  gave : Response → Option Json → Fetched

-- `res`, `json` and `error`; `json` is `null` where the body is no JSON.
pub record Requested : Type 0 where
  pub res : Option Response
  pub json : Option Json
  pub error : Text

unfoldable pub request_json : Fetched → Requested
request_json (threw e) = record {
  res = none;
  json = none;
  error = or_else e (codes "Unknown network error");
}
request_json (gave res json) = record {
  res = some res;
  json = some (or_else json Json.null);
  error = [];
}

-- `ObjExt.isRecord`
unfoldable pub is_record : Json → Bool
is_record (obj fields) = true
is_record _ = false

unfoldable pub is_ok_data_response : Json → Bool
is_ok_data_response json =
    is_record json
    && is_text (prop json (codes "status")) (codes "Ok")
    && is_some (prop json (codes "data"))

unfoldable pub is_ok_message_response : Json → Bool
is_ok_message_response json =
    is_record json
    && is_text (prop json (codes "status")) (codes "Ok")
    && is_string (prop json (codes "message"))

unfoldable pub is_err_message_response : Json → Bool
is_err_message_response json =
    is_record json
    && is_text (prop json (codes "status")) (codes "Err")
    && is_string (prop json (codes "message"))

abbrev pub text_of : Option Json → Option Text
text_of (some (str s)) = some s
text_of _ = none

unfoldable pub expect_message : Json → Option Text
expect_message json =
    if not (is_ok_message_response json) then none else text_of (prop json (codes "message"))

unfoldable pub extract_server_error : Json → Option Text
extract_server_error json =
    if not (is_err_message_response json) then none else text_of (prop json (codes "message"))

-- `Response.ok`
abbrev pub is_ok : Response → Bool
is_ok res = leb 200 res.status && leb res.status 299

-- An error of these clients carries no status.
abbrev pub port_error : ErrorType → Text → ApiError
port_error type error = record { type = type; error = error; status_code = none; detail = none }

abbrev pub invalid_shape : Text
invalid_shape = codes "Invalid response shape"

abbrev pub json_of : Option Json → Json
json_of json = or_else json Json.null

-- What `getData` makes of the reply.
unfoldable pub read_data : Requested → Either ApiError (Option Json)
read_data r = elim r.res [
  | none ↦ left (port_error response_only r.error)
  | some res ↦
      if not (is_ok res)
      then left
          (port_error server (or_else (extract_server_error (json_of r.json)) res.status_text))
      else if not (is_ok_data_response (json_of r.json))
      then left (port_error response_only invalid_shape)
      else right (prop (json_of r.json) (codes "data"))
]

-- What `postMessage` makes of the reply.
unfoldable pub read_message : Requested → Either ApiError Text
read_message r = elim r.res [
  | none ↦ left (port_error response_only r.error)
  | some res ↦
      if not (is_ok res)
      then left
          (port_error server (or_else (extract_server_error (json_of r.json)) res.status_text))
      else elim (expect_message (json_of r.json)) [
        | none ↦ left (port_error response_only invalid_shape)
        | some message ↦ right message
      ]
]

module _ (fetch : Request → Fetched) (show : ℕ → Text) where
  unfoldable pub get_data : Text → List (Text × QueryValue) → Either ApiError (Option Json)
  get_data path query =
      read_data (request_json (fetch (record { method = get; url = build_url path query })))

  unfoldable pub post_message : Text → List (Text × QueryValue) → Either ApiError Text
  post_message path query =
      read_message (request_json (fetch (record { method = post; url = build_url path query })))

  unfoldable pub list : List (Text × QueryValue) → Either ApiError (Option Json)
  list query = get_data (codes "/notifications") query

  unfoldable pub unread_count : Either ApiError (Option Json)
  unread_count = get_data (codes "/notifications/unread-count") []

  unfoldable pub mark_read : ℕ → Either ApiError Text
  mark_read id = post_message (codes "/notifications/" ++ show id ++ codes "/read") []

  unfoldable pub read_all : Either ApiError Text
  read_all = post_message (codes "/notifications/read-all") []

  unfoldable pub queue_list : List (Text × QueryValue) → Either ApiError (Option Json)
  queue_list query = get_data (codes "/image-queue") query

  unfoldable pub user_queue : ℕ → List (Text × QueryValue) → Either ApiError (Option Json)
  user_queue id query = get_data (codes "/user/" ++ show id ++ codes "/image-queue") query

  unfoldable pub pending_count : Either ApiError (Option Json)
  pending_count = get_data (codes "/image-queue/pending-count") []

  unfoldable pub detail : ℕ → Either ApiError (Option Json)
  detail id = get_data (codes "/image-queue/" ++ show id) []

  unfoldable pub handle : ℕ → Text → Either ApiError Text
  handle id method =
      post_message (codes "/image-queue/" ++ show id) ((codes "method", given method) ∷ [])
