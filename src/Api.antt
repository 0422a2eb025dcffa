-- ===== src/Api.antt =====
-- How a reply of the server becomes a value or an error:
-- web/frontend/packages/api/src/shared/index.ts.
pub mod Values
pub mod Laws
pub mod Messages
mod Examples
use touhou_cloud_music_thcdb.Common.{
  ℕ, Bool, true, false, not, ◌&&◌, Option, none, some, Text, text_eq, nonempty, codes, is_some,
  if◌then◌else◌, ◌⊎◌, inl, inr,
}
use touhou_cloud_music_thcdb.Api.Values.{
  Json, null, str, arr, obj, Fields, end, entry, prop, truthy,
}

pub data Either {ℓ κ} (E : Type ℓ) (A : Type κ) : Type (ℓ ⊔ κ) where
  left : E → Either E A
  right : A → Either E A

pub data ErrorType : Type 0 where
  server response_only : ErrorType

pub record ApiError : Type 0 where
  pub type : ErrorType
  pub error : Text
  pub status_code : Option ℕ
  pub detail : Option Json

-- The part of a fetch `Response` that is read; its body is passed beside it.
pub record Response : Type 0 where
  pub status : ℕ
  pub status_text : Text

-- `data` and `error` are the two optional members of `ADTEnum`.
pub record FetchResponse : Type 0 where
  pub value : Option Json
  pub error : Option Json
  pub response : Response

abbrev pub unknown_server_error : Text
unknown_server_error = codes "Unknown server error"

abbrev pub unexpected_json : Text
unexpected_json = codes "Unexpected JSON response"

abbrev string_or : Option Json → Text → Text
string_or (some (str s)) d = s
string_or _ d = d

unfoldable pub extract_error_message : Json → Text
extract_error_message (str s) = s
extract_error_message error = string_or (prop error (codes "message")) unknown_server_error

-- `res.error` as a condition
abbrev present : Option Json → Option Json
present none = none
present (some j) = if truthy j then some j else none

unfoldable pub handle_error : FetchResponse → ApiError
unfolding extract_error_message
handle_error res = elim (present res.error) [
  | some e ↦ record {
    type = server;
    error = extract_error_message e;
    status_code = some res.response.status;
    detail = some e;
  }
  | none ↦ record {
    type = response_only;
    error = res.response.status_text;
    status_code = some res.response.status;
    detail = none;
  }
]

abbrev pub is_text : Option Json → Text → Bool
is_text (some (str s)) t = text_eq s t
is_text _ t = false

abbrev pub is_string : Option Json → Bool
is_string (some (str s)) = true
is_string _ = false

unfoldable pub is_err_response : Json → Bool
is_err_response j =
    is_text (prop j (codes "status")) (codes "Err") && is_string (prop j (codes "message"))

unfoldable pub is_ok_response : Json → Bool
is_ok_response j = is_text (prop j (codes "status")) (codes "Ok") && is_some (prop j (codes "data"))

unfoldable pub to_err_response : Text → Json
to_err_response message =
    obj (entry (codes "status") (str (codes "Err")) (entry (codes "message") (str message) end))

abbrev refused : Response → Json → FetchResponse
refused response e = record { value = none; error = some e; response = response }

abbrev delivered : Response → Json → FetchResponse
delivered response d = record { value = some d; error = none; response = response }

-- the body of the `try`
abbrev sort_json : Response → Json → FetchResponse
sort_json response j =
    if is_err_response j
    then refused response j
    else if is_ok_response j
    then delivered response j
    else refused response (to_err_response unexpected_json)

abbrev sort_message_json : Response → Json → FetchResponse
sort_message_json response j =
    if is_err_response j then refused response j else elim (prop j (codes "message")) [
      | some (str message) ↦ delivered response (obj (entry (codes "message") (str message) end))
      | _ ↦ refused response (to_err_response unexpected_json)
    ]

-- `parse` is `JSON.parse`, `none` where it throws; `text` is the body, read to its end.
module _ (parse : Text → Option Json) where
  unfoldable pub adapt_fetch_response : Response → Text → FetchResponse
  unfolding is_err_response is_ok_response to_err_response
  adapt_fetch_response response text =
      if nonempty text
      then elim (parse text) [
        | some j ↦ sort_json response j
        | none ↦ refused response (to_err_response text)
      ]
      else refused response (to_err_response response.status_text)

  unfoldable pub adapt_fetch_message_response : Response → Text → FetchResponse
  unfolding is_err_response to_err_response
  adapt_fetch_message_response response text =
      if nonempty text
      then elim (parse text) [
        | some j ↦ sort_message_json response j
        | none ↦ refused response (to_err_response text)
      ]
      else refused response (to_err_response response.status_text)

-- `res.data ?? handleError(res)`: a delivered envelope, or an error.
unfoldable pub adapt_api : FetchResponse → Either ApiError Json
unfolding handle_error
adapt_api res = elim res.value [ some d ↦ right d | none ↦ left (handle_error res) ]

unfoldable pub adapt_api_result : FetchResponse → Either ApiError (Option Json)
unfolding handle_error
adapt_api_result res = elim (present res.value) [
  | some d ↦ right (prop d (codes "data"))
  | none ↦ left (handle_error res)
]

-- `O.fromNullable`
unfoldable pub from_nullable : Option Json → Option Json
from_nullable (some null) = none
from_nullable v = v

unfoldable pub adapt_api_result_optional : FetchResponse → Either ApiError (Option Json)
unfolding handle_error from_nullable
adapt_api_result_optional res = elim (present res.value) [
  | some d ↦ right (from_nullable (prop d (codes "data")))
  | none ↦ left (handle_error res)
]

unfoldable pub adapt_api_result_message : FetchResponse → Either ApiError (Option Json)
unfolding handle_error
adapt_api_result_message res = elim (present res.value) [
  | some d ↦ right (prop d (codes "message"))
  | none ↦ left (handle_error res)
]
