-- ===== src/Ports/Examples.antt =====
-- Replies with the number 7, a missing page and a broken connection.
use touhou_cloud_music_thcdb.Common.{
  ◌≡◌, refl, ◌↔◌, Option, none, some, Text, codes, text_eq, pos, if◌then◌else◌, [],
}
use touhou_cloud_music_thcdb.Api.{right, Response, adapt_fetch_response, adapt_api_result}
use touhou_cloud_music_thcdb.Api.Values.{Json, num, str, obj, end, entry}
use touhou_cloud_music_thcdb.Ports.{gave, request_json, read_data}
use touhou_cloud_music_thcdb.Ports.Agreement.{read_data-adapt}

abbrev seven : Json
seven = obj (entry (codes "status") (str (codes "Ok")) (entry (codes "data") (num (pos 7)) end))

abbrev ok : Response
ok = record { status = 200; status_text = codes "OK" }

abbrev missing : Response
missing = record { status = 404; status_text = codes "Not Found" }

abbrev parse : Text → Option Json
parse text = if text_eq text (codes "7") then some seven else none

parse-empty : parse [] ≡ none
unfolding text_eq
parse-empty = refl

read_data-adapt_example :
    (read_data (request_json (gave ok (parse (codes "7")))) ≡ right (some (num (pos 7))))
    ↔ (adapt_api_result (adapt_fetch_response parse ok (codes "7")) ≡ right (some (num (pos 7))))
read_data-adapt_example = read_data-adapt parse parse-empty ok (codes "7") (num (pos 7)) refl
