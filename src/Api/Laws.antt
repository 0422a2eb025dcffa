-- ===== src/Api/Laws.antt =====
-- What the callers of the API see of a reply, stated of the reply itself.
use touhou_cloud_music_thcdb.Common.{
  ◌≡◌, refl, inl, inr, true, false, Option, none, some, Text, text_eq, text_eq_iff, text_eq_refl,
  nonempty, codes, arith, Option-cases, Bool-cases, is_some,
}
use mathlib.Core.Bool.{and-eq-true_iff}
use touhou_cloud_music_thcdb.Api.{
  Response, FetchResponse, is_err_response, is_ok_response, to_err_response, adapt_fetch_response,
  is_text, is_string, refused, delivered, sort_json, unexpected_json,
}
use touhou_cloud_music_thcdb.Api.Values.{Json, null, str, obj, prop, truthy}

-- The envelopes of the server's protocol.
abbrev pub IsOkEnvelope : Json → Json → Type 0
IsOkEnvelope j d =
    (prop j (codes "status") ≡ some (str (codes "Ok"))) × (prop j (codes "data") ≡ some d)

abbrev pub IsErrEnvelope : Json → Text → Type 0
IsErrEnvelope j m =
    (prop j (codes "status") ≡ some (str (codes "Err"))) × (prop j (codes "message") ≡ some (str m))

is_text_sound : (v : Option Json) (t : Text) → is_text v t ≡ true → v ≡ some (str t)
is_text_sound none t h = cc
is_text_sound (some (str s)) t h = ground (arith, text_eq_iff s t)
is_text_sound (some _) t h = cc

is_string_sound : (v : Option Json) → is_string v ≡ true → (m : Text) × (v ≡ some (str m))
is_string_sound (some (str m)) h = (m, refl)
is_string_sound none h = cc
is_string_sound (some _) h = cc

is_some_sound : (v : Option Json) → is_some v ≡ true → (d : Json) × (v ≡ some d)
is_some_sound (some d) h = (d, refl)
is_some_sound none h = cc

pub prop-truthy : (j : Json) (k : Text) {v : Json} → prop j k ≡ some v → truthy j ≡ true
unfolding prop truthy
prop-truthy (obj fs) k h = refl
prop-truthy null k h = cc
prop-truthy _ k h = cc

pub is_err_response_sound : (j : Json) → is_err_response j ≡ true → (m : Text) × IsErrEnvelope j m
unfolding is_err_response
is_err_response_sound j h =
    let (isErr, hasText) = (and-eq-true_iff _ _).0 h in
    let (m, found) = is_string_sound (prop j (codes "message")) hasText in
    (m, (is_text_sound _ (codes "Err") isErr, found))

pub is_err_response_complete : (j : Json) (m : Text) → IsErrEnvelope j m → is_err_response j ≡ true
unfolding is_err_response
is_err_response_complete j m (p, q) = rw (p, q) (rw text_eq_refl refl)

pub is_ok_response_sound : (j : Json) → is_ok_response j ≡ true → (d : Json) × IsOkEnvelope j d
unfolding is_ok_response
is_ok_response_sound j h =
    let (isOk, hasData) = (and-eq-true_iff _ _).0 h in
    let (d, found) = is_some_sound (prop j (codes "data")) hasData in
    (d, (is_text_sound _ (codes "Ok") isOk, found))

pub is_ok_response_complete : (j d : Json) → IsOkEnvelope j d → is_ok_response j ≡ true
unfolding is_ok_response
is_ok_response_complete j d (p, q) = rw (p, q) (rw text_eq_refl refl)

pub ok-not-err : (j d : Json) → IsOkEnvelope j d → is_err_response j ≡ false
unfolding is_err_response
ok-not-err j d (p, q) = rw p (unfold text_eq in refl)

-- The five ways in which a reply is read.
pub data Reading (parse : Text → Option Json) (res : Response) (text : Text) (r : FetchResponse)
    : Type 0 where
  empty :
      nonempty text ≡ false
      → r ≡ refused res (to_err_response res.status_text)
      → Reading parse res text r
  malformed :
      nonempty text ≡ true
      → parse text ≡ none
      → r ≡ refused res (to_err_response text)
      → Reading parse res text r
  an_error :
      (j : Json) (m : Text)
      → nonempty text ≡ true
      → parse text ≡ some j
      → IsErrEnvelope j m
      → r ≡ refused res j
      → Reading parse res text r
  a_value :
      (j d : Json)
      → nonempty text ≡ true
      → parse text ≡ some j
      → IsOkEnvelope j d
      → r ≡ delivered res j
      → Reading parse res text r
  unexpected :
      (j : Json)
      → nonempty text ≡ true
      → parse text ≡ some j
      → is_err_response j ≡ false
      → is_ok_response j ≡ false
      → r ≡ refused res (to_err_response unexpected_json)
      → Reading parse res text r

module _ (parse : Text → Option Json) (res : Response) (text : Text) where
  read_json :
      (j : Json)
      → nonempty text ≡ true
      → parse text ≡ some j
      → Reading parse res text (sort_json res j)
  read_json j h p = elim (Bool-cases (is_err_response j)) [
    | inl bad ↦
        let (m, envelope) = is_err_response_sound j bad in an_error j m h p envelope (rw bad)
    | inr fine ↦ elim (Bool-cases (is_ok_response j)) [
      | inl good ↦
          let (d, envelope) = is_ok_response_sound j good in
          a_value j d h p envelope (rw (fine, good))
      | inr odd ↦ unexpected j h p fine odd (rw (fine, odd))
    ]
  ]

  pub adapt_fetch_response-Reading : Reading parse res text (adapt_fetch_response parse res text)
  unfolding adapt_fetch_response
  adapt_fetch_response-Reading = elim (Bool-cases (nonempty text)) [
    | inr none_left ↦ empty none_left (rw none_left)
    | inl full ↦ elim (Option-cases (parse text)) [
      | inl broken ↦ malformed full broken (rw (full, broken))
      | inr (j, parsed) ↦ rw (full, parsed) (read_json j full parsed)
    ]
  ]
