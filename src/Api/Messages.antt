-- ===== src/Api/Messages.antt =====
-- When a caller sees a value, and what an error says.
use touhou_cloud_music_thcdb.Common.{
  ◌≡◌, refl, ◌↔◌, true, false, Option, none, some, Text, nonempty, codes, text_eq, arith,
}
use touhou_cloud_music_thcdb.Api.{
  left, right, server, ApiError, Response, FetchResponse, handle_error, refused, delivered,
  extract_error_message, is_err_response, is_ok_response, to_err_response, adapt_fetch_response,
  adapt_api_result, unexpected_json,
}
use touhou_cloud_music_thcdb.Api.Values.{Json, null, str, obj, prop}
use touhou_cloud_music_thcdb.Api.Laws.{
  IsOkEnvelope, IsErrEnvelope, Reading, empty, malformed, an_error, a_value, unexpected,
  adapt_fetch_response-Reading, prop-truthy, ok-not-err, is_ok_response_complete,
}

result_of_delivered :
    (res : Response) (j d : Json)
    → IsOkEnvelope j d
    → adapt_api_result (delivered res j) ≡ right (some d)
unfolding adapt_api_result
result_of_delivered res j d (p, q) = ground (arith, prop-truthy j _ p)

extract_of_prop :
    (j : Json) (m : Text) → prop j (codes "message") ≡ some (str m) → extract_error_message j ≡ m
unfolding extract_error_message prop
extract_of_prop (obj fs) m h = rw h refl
extract_of_prop null m h = cc
extract_of_prop _ m h = cc

abbrev error_of : Response → Text → Json → ApiError
error_of res m j = record {
  type = server;
  error = m;
  status_code = some res.status;
  detail = some j;
}

result_of_refused :
    (res : Response) (j : Json) (m : Text)
    → IsErrEnvelope j m
    → adapt_api_result (refused res j) ≡ left (error_of res m j)
unfolding adapt_api_result handle_error
result_of_refused res j m (p, q) = ground (arith, prop-truthy j _ p, extract_of_prop j m q)

never :
    {res : Response} {r : FetchResponse} {d : Option Json} (j : Json) (m : Text)
    → r ≡ refused res j
    → IsErrEnvelope j m
    → adapt_api_result r ≡ right d
    → ⊥
never {res} j m e q k = cc (result_of_refused res j m q)

to_err_response-IsErrEnvelope : (m : Text) → IsErrEnvelope (to_err_response m) m
unfolding to_err_response prop text_eq
to_err_response-IsErrEnvelope m = (refl, refl)

module _ {parse : Text → Option Json} {res : Response} {text : Text} {r : FetchResponse} where
  value_of_Reading :
      (d : Json)
      → Reading parse res text r
      → adapt_api_result r ≡ right (some d)
      → (nonempty text ≡ true) × ((j : Json) × (parse text ≡ some j) × IsOkEnvelope j d)
  value_of_Reading d (empty h e) k = absurd (never _ _ e (to_err_response-IsErrEnvelope _) k)
  value_of_Reading d (malformed h p e) k = absurd (never _ _ e (to_err_response-IsErrEnvelope _) k)
  value_of_Reading d (an_error j m h p q e) k = absurd (never _ _ e q k)
  value_of_Reading d (a_value j d' h p q e) k =
      (h, (j, p, (q.0, cc (result_of_delivered res j d' q, q.1))))
  value_of_Reading d (unexpected j h p n m e) k =
      absurd (never _ _ e (to_err_response-IsErrEnvelope _) k)

-- A reply succeeds with a value exactly when its body is not empty, parses, and is an object with
-- the status "Ok" and the member "data" equal to that value; the HTTP status is not read.
pub adapt_right_iff :
    (parse : Text → Option Json) (res : Response) (text : Text) (d : Json)
    → (adapt_api_result (adapt_fetch_response parse res text) ≡ right (some d))
      ↔ ((nonempty text ≡ true) × ((j : Json) × (parse text ≡ some j) × IsOkEnvelope j d))
unfolding adapt_fetch_response
adapt_right_iff parse res text d = (
  value_of_Reading d (adapt_fetch_response-Reading parse res text),
  λ (full, (j, parsed, envelope)).
      rw (full, parsed)
        (rw (ok-not-err j d envelope, is_ok_response_complete j d envelope)
          (result_of_delivered res j d envelope)),
)

-- Why a reply is an error, with the message that is shown for it.
pub data Explains (parse : Text → Option Json) (res : Response) (text : Text) : Text → Type 0 where
  no_body : nonempty text ≡ false → Explains parse res text res.status_text
  no_json : nonempty text ≡ true → parse text ≡ none → Explains parse res text text
  reported :
      (j : Json) (m : Text) → parse text ≡ some j → IsErrEnvelope j m → Explains parse res text m
  no_envelope :
      (j : Json)
      → parse text ≡ some j
      → is_err_response j ≡ false
      → is_ok_response j ≡ false
      → Explains parse res text unexpected_json

abbrev pub Refusal : (Text → Option Json) → Response → Text → ApiError → Type 0
Refusal parse res text e =
    (e.type ≡ server) × (e.status_code ≡ some res.status) × Explains parse res text e.error

Refusal-refused :
    {parse : Text → Option Json} {res : Response} {text : Text} {r : FetchResponse} (m : Text)
    (j : Json) (e : ApiError)
    → r ≡ refused res j
    → IsErrEnvelope j m
    → Explains parse res text m
    → adapt_api_result r ≡ left e
    → Refusal parse res text e
Refusal-refused {parse} {res} {text} m j e p q x k =
    let same : e ≡ error_of res m j = cc (result_of_refused res j m q) in rw same (refl, refl, x)

module _ {parse : Text → Option Json} {res : Response} {text : Text} {r : FetchResponse} where
  Refusal-Reading :
      (e : ApiError)
      → Reading parse res text r
      → adapt_api_result r ≡ left e
      → Refusal parse res text e
  Refusal-Reading e (empty h p) k =
      Refusal-refused _ _ e p (to_err_response-IsErrEnvelope _) (no_body h) k
  Refusal-Reading e (malformed h q p) k =
      Refusal-refused _ _ e p (to_err_response-IsErrEnvelope _) (no_json h q) k
  Refusal-Reading e (an_error j m h q en p) k = Refusal-refused m j e p en (reported j m q en) k
  Refusal-Reading e (a_value j d h q en p) k = absurd (cc (result_of_delivered res j d en))
  Refusal-Reading e (unexpected j h q n m p) k =
      Refusal-refused _ _ e p (to_err_response-IsErrEnvelope _) (no_envelope j q n m) k

-- An error of a reply is always the server's, carries the HTTP status, and shows the status line of
-- an empty reply, the text of one that does not parse, the message of an "Err" envelope, or
-- "Unexpected JSON response" for any other value.
pub adapt_left :
    (parse : Text → Option Json) (res : Response) (text : Text) (e : ApiError)
    → adapt_api_result (adapt_fetch_response parse res text) ≡ left e
    → Refusal parse res text e
adapt_left parse res text e k = Refusal-Reading e (adapt_fetch_response-Reading parse res text) k
