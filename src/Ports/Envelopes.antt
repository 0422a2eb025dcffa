-- ===== src/Ports/Envelopes.antt =====
-- Which replies the clients accept, and which errors are the server's.
use touhou_cloud_music_thcdb.Common.{
  ◌≡◌, ◌≢◌, refl, sym, ap, ◌∙◌, ◌↔◌, inl, inr, Bool, true, false, Option, none, some, Text, codes,
  arith, Option-cases,
}
use touhou_cloud_music_thcdb.Api.{
  Either, left, right, ApiError, ErrorType, server, Response, is_ok_response,
}
use touhou_cloud_music_thcdb.Api.Laws.{IsOkEnvelope, is_ok_response_sound, is_ok_response_complete}
use touhou_cloud_music_thcdb.Api.Values.{Json, null, bool, num, str, arr, obj, prop}
use touhou_cloud_music_thcdb.Ports.{
  Fetched, threw, gave, request_json, is_record, is_ok, is_ok_data_response, read_data,
  read_message, json_of, expect_message,
}

-- The two tests of an envelope are the same: only an object has members.
pub is_ok_data_response-eq : (j : Json) → is_ok_data_response j ≡ is_ok_response j
unfolding is_ok_data_response is_ok_response is_record prop
is_ok_data_response-eq null = refl
is_ok_data_response-eq (bool b) = refl
is_ok_data_response-eq (num n) = refl
is_ok_data_response-eq (str s) = refl
is_ok_data_response-eq (arr xs) = refl
is_ok_data_response-eq (obj fs) = refl

-- A reply with a status of success and such an envelope.
abbrev pub IsAnswer : Fetched → Json → Type 0
IsAnswer fetched d =
    (res : Response) × (j : Json) × (fetched ≡ gave res (some j))
    × (is_ok res ≡ true)
    × IsOkEnvelope j d

read_data-answer :
    (res : Response) (j d : Json)
    → is_ok res ≡ true
    → IsOkEnvelope j d
    → read_data (request_json (gave res (some j))) ≡ right (some d)
unfolding read_data request_json
read_data-answer res j d ok envelope =
    rw (ok, is_ok_data_response-eq j, is_ok_response_complete j d envelope) (ap right envelope.1)

answer-read_data :
    (res : Response) (b : Option Json) (d : Json)
    → read_data (request_json (gave res b)) ≡ right (some d)
    → (is_ok res ≡ true)
      × (is_ok_data_response (json_of b) ≡ true)
      × (prop (json_of b) (codes "data") ≡ some d)
unfolding read_data request_json
answer-read_data res b d h = ground arith

null-refused : is_ok_data_response null ≢ true
unfolding is_ok_data_response is_record
null-refused h = cc

threw-refused : (e : Option Text) (d : Json) → read_data (request_json (threw e)) ≢ right (some d)
unfolding read_data request_json
threw-refused e d h = cc

-- A request to the notifications or the image queue succeeds with a value exactly when there is a
-- response with a status of success whose body is an object with the status "Ok" and the member
-- "data" equal to that value.
pub read_data_iff :
    (fetched : Fetched) (d : Json)
    → (read_data (request_json fetched) ≡ right (some d)) ↔ IsAnswer fetched d
read_data_iff fetched d = (accepted fetched d, answered)
  where
    answered : IsAnswer fetched d → read_data (request_json fetched) ≡ right (some d)
    answered (res, j, e, ok, envelope) = rw e (read_data-answer res j d ok envelope)

    accepted : (f : Fetched) (d : Json) → read_data (request_json f) ≡ right (some d) → IsAnswer f d
    accepted (threw e) d h = absurd (threw-refused e d h)
    accepted (gave res none) d h = absurd (null-refused (answer-read_data res none d h).1)
    accepted (gave res (some j)) d h =
        let (ok, is_data, found) = answer-read_data res (some j) d h in
        let (e, (named, member)) =
          is_ok_response_sound j (sym (is_ok_data_response-eq j) ∙ is_data) in
        (res, j, refl, ok, (named, found))

abbrev pub error_type {ℓ} : {A : Type ℓ} → Either ApiError A → Option ErrorType
error_type (left e) = some e.type
error_type (right a) = none

-- A reply with a status that is no success.
abbrev pub IsRefusal : Fetched → Type 0
IsRefusal fetched =
    (res : Response) × (b : Option Json) × (fetched ≡ gave res b) × (is_ok res ≡ false)

abbrev succeeded : Fetched → Bool
succeeded (threw e) = true
succeeded (gave res b) = is_ok res

IsRefusal-succeeded : (f : Fetched) → IsRefusal f → succeeded f ≡ false
IsRefusal-succeeded f (res, b, e, n) = ap succeeded e ∙ n

succeeded-IsRefusal : (f : Fetched) → succeeded f ≡ false → IsRefusal f
succeeded-IsRefusal (threw e) h = cc
succeeded-IsRefusal (gave res b) h = (res, b, refl, h)

data-failed :
    (f : Fetched) → (error_type (read_data (request_json f)) ≡ some server) ↔ (succeeded f ≡ false)
unfolding read_data request_json
data-failed (threw e) = ground arith
data-failed (gave res b) = ground arith

message-failed :
    (f : Fetched)
    → (error_type (read_message (request_json f)) ≡ some server) ↔ (succeeded f ≡ false)
unfolding read_message request_json
message-failed (threw e) = ground arith
message-failed (gave res b) = elim (Option-cases (expect_message (json_of b))) [
  | inl e ↦ ground (arith, e)
  | inr (m, e) ↦ ground (arith, e)
]

-- An error is the server's exactly when the reply has a status that is no success, for values and
-- for messages alike.
pub server_error_iff :
    (f : Fetched)
    → ((error_type (read_data (request_json f)) ≡ some server) ↔ IsRefusal f)
      × ((error_type (read_message (request_json f)) ≡ some server) ↔ IsRefusal f)
server_error_iff f = (
  (
    λ h. succeeded-IsRefusal f ((data-failed f).0 h),
    λ r. (data-failed f).1 (IsRefusal-succeeded f r),
  ),
  (
    λ h. succeeded-IsRefusal f ((message-failed f).0 h),
    λ r. (message-failed f).1 (IsRefusal-succeeded f r),
  ),
)
