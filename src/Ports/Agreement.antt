-- ===== src/Ports/Agreement.antt =====
-- These clients beside the adapters of web/frontend/packages/api/src/shared/index.ts.
use touhou_cloud_music_thcdb.Common.{
  ◌≡◌, refl, ap, ◌↔◌, true, Option, none, some, Text, nonempty, [], ◌∷◌,
}
use touhou_cloud_music_thcdb.Api.{right, Response, adapt_fetch_response, adapt_api_result}
use touhou_cloud_music_thcdb.Api.Values.{Json}
use touhou_cloud_music_thcdb.Api.Laws.{IsOkEnvelope}
use touhou_cloud_music_thcdb.Api.Messages.{adapt_right_iff}
use touhou_cloud_music_thcdb.Ports.{Fetched, gave, request_json, is_ok, read_data}
use touhou_cloud_music_thcdb.Ports.Envelopes.{IsAnswer, read_data_iff}

module _ (parse : Text → Option Json) (empty_body : parse [] ≡ none) where
  nonempty-parse : (text : Text) (j : Json) → parse text ≡ some j → nonempty text ≡ true
  nonempty-parse [] j h = cc
  nonempty-parse (c ∷ text) j h = refl

  answer-parts :
      (res : Response) (b : Option Json) (d : Json)
      → IsAnswer (gave res b) d
      → (j : Json) × (b ≡ some j) × IsOkEnvelope j d
  answer-parts res b d (r, j, e, ok, envelope) = (j, ap body_of e, envelope)
    where
      body_of : Fetched → Option Json
      body_of (gave res b) = b
      body_of _ = none

  -- Where an empty text does not parse, a reply with a status of success gives a value through the
  -- clients of the notifications and of the image queue exactly when it gives that value through
  -- the shared adapters.
  pub read_data-adapt :
      (res : Response) (text : Text) (d : Json)
      → is_ok res ≡ true
      → (read_data (request_json (gave res (parse text))) ≡ right (some d))
        ↔ (adapt_api_result (adapt_fetch_response parse res text) ≡ right (some d))
  read_data-adapt res text d ok = (to, from)
    where
      to :
          read_data (request_json (gave res (parse text))) ≡ right (some d)
          → adapt_api_result (adapt_fetch_response parse res text) ≡ right (some d)
      to h =
          let (j, parsed, envelope) =
            answer-parts res (parse text) d ((read_data_iff (gave res (parse text)) d).0 h) in
          (adapt_right_iff parse res text d).1 (nonempty-parse text j parsed, (j, parsed, envelope))

      from :
          adapt_api_result (adapt_fetch_response parse res text) ≡ right (some d)
          → read_data (request_json (gave res (parse text))) ≡ right (some d)
      from h =
          let (full, (j, parsed, envelope)) = (adapt_right_iff parse res text d).0 h in
          (read_data_iff (gave res (parse text)) d).1 (res, j, ap (gave res) parsed, ok, envelope)
