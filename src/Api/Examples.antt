-- ===== src/Api/Examples.antt =====
-- Replies of the server, read by the adapters.
use touhou_cloud_music_thcdb.Common.{
  ◌≡◌, refl, ◌↔◌, Option, none, some, Text, codes, nonempty, text_eq, true, pos, if◌then◌else◌,
}
use touhou_cloud_music_thcdb.Api.{
  right, server, ApiError, Response, adapt_api_result, adapt_fetch_response, to_err_response,
}
use touhou_cloud_music_thcdb.Api.Values.{Json, null, num, str, obj, end, entry, prop, truthy}
use touhou_cloud_music_thcdb.Api.Laws.{IsOkEnvelope}
use touhou_cloud_music_thcdb.Api.Messages.{adapt_right_iff}

abbrev seven : Json
seven = obj (entry (codes "status") (str (codes "Ok")) (entry (codes "data") (num (pos 7)) end))

-- A parser of two texts.
abbrev parse : Text → Option Json
parse text =
    if text_eq text (codes "7")
    then some seven
    else if text_eq text (codes "x")
    then none
    else some null

abbrev ok : Response
ok = record { status = 200; status_text = codes "OK" }

abbrev teapot : Response
teapot = record { status = 418; status_text = codes "I'm a teapot" }

value :
    adapt_api_result (adapt_fetch_response parse teapot (codes "7")) ≡ right (some (num (pos 7)))
unfolding adapt_api_result adapt_fetch_response text_eq prop truthy
value = refl

adapt_right_iff_example :
    (adapt_api_result (adapt_fetch_response parse ok (codes "7")) ≡ right (some (num (pos 7)))) ↔ (
      (nonempty (codes "7") ≡ true)
      × ((j : Json) × (parse (codes "7") ≡ some j) × IsOkEnvelope j (num (pos 7))))
adapt_right_iff_example = adapt_right_iff parse ok (codes "7") (num (pos 7))

abbrev broken : ApiError
broken = record {
  type = server;
  error = codes "x";
  status_code = some 418;
  detail = some (to_err_response (codes "x"));
}
