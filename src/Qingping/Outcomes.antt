-- ===== src/Qingping/Outcomes.antt =====
-- What `Export` does with a packet, on every branch.
use tzsp_server.Prelude.{
  ℕ, ◌≤◌, ◌<◌, ◌↔◌, ◌≡◌, refl, sym, ap, ◌∙◌, ◌⊎◌, inl, inr, true, false, Option, none, some, List,
  [], ◌∷◌, Bytes, length, ◌==◌, arith, Bool-cases, Option-cases, ok, err, slice,
}
use tzsp_server.Decoder.{PacketInfo}
use tzsp_server.Qingping.{
  ExtractError, no_json, incomplete_json, matches_filter, index_byte, find_topic, cut_json,
  extract_json,
}
use tzsp_server.Qingping.Extract.{extracted, no_opening, no_closing, extract_json_answers}
use tzsp_server.Qingping.Export
use tzsp_server.Qingping.Export.{
  Response, failed, answered, Config, Environment, Effect, Request, Outcome, SubmitError,
  ExportError, crashed, submit_failed, validation_failed_continuing, submit_to_upstream,
  status_error, post, export,
}

-- A packet whose JSON text is submitted: it passes the filter, a text is found in its bytes, and
-- the text is valid unless invalid texts are let through.
pub record IsSubmitted (env : Environment) (config : Config) (pkt : PacketInfo) (json topic : Bytes)
    : Type 0 where
  pub matched : matches_filter config.filter pkt ≡ true
  pub found : extract_json pkt.packet_data ≡ ok (json, topic)
  pub accepted : (env.json_error json ≡ none) ⊎ (config.strict_json ≡ false)

-- The request that carries the text `json` to the upstream server.
pub record IsPost (config : Config) (json : Bytes) (request : Request) : Type 0 where
  pub url_is : request.url ≡ config.upstream_url
  pub body_is : request.body ≡ json

-- The server's answer has a status from 200 to 299.
pub data IsSuccess (response : Response) : Type 0 where
  succeeded :
      (status : ℕ) (body : Bytes)
      → response ≡ answered status body
      → 200 ≤ status
      → status < 300
      → IsSuccess response

-- The requests of `Export`: none, or one with the text that was found.
pub data Posted (env : Environment) (config : Config) (pkt : PacketInfo) (requests : List Request)
    : Type 0 where
  no_request : requests ≡ [] → Posted env config pkt requests
  one_request :
      (json topic : Bytes) (request : Request)
      → IsSubmitted env config pkt json topic
      → IsPost config json request
      → requests ≡ request ∷ []
      → Posted env config pkt requests

finish-requests :
    (config : Config) (outcomes : List Outcome) (requests : List Request) (o : Option SubmitError)
    → (Export.finish config outcomes (requests, o)).requests ≡ requests
unfolding Export.finish
finish-requests config outcomes requests none = refl
finish-requests config outcomes requests (some why) = ground arith

extract_json_nothing : extract_json [] ≡ err (no_json [])
unfolding extract_json find_topic cut_json index_byte slice
extract_json_nothing = refl

not_empty :
    (payload : Bytes) {found : Bytes × Bytes}
    → extract_json payload ≡ ok found
    → (length payload == 0) ≡ false
not_empty [] e = absurd (cc (extract_json_nothing, e))
not_empty (b ∷ payload) e = ground arith

module _ (env : Environment) (config : Config) (pkt : PacketInfo) where
  -- A submission makes the one request, if it can be made at all.
  submit-requests :
      (json topic : Bytes)
      → ((submit_to_upstream env config pkt json topic).0 ≡ [])
        ⊎ ((submit_to_upstream env config pkt json topic).0 ≡ post env config pkt json topic ∷ [])
  unfolding submit_to_upstream
  submit-requests json topic = ground (arith, Option-cases (env.request_error config.upstream_url))

  Posted-of :
      (json topic : Bytes) (outcomes : List Outcome)
      → IsSubmitted env config pkt json topic
      → Posted env config pkt
          (Export.finish config outcomes (submit_to_upstream env config pkt json topic)).requests
  Posted-of json topic outcomes s =
      let (rs, o) = submit_to_upstream env config pkt json topic in
      let posted : IsPost config json (post env config pkt json topic) = record {
        url_is = refl;
        body_is = refl;
      } in
      let e = finish-requests config outcomes rs o in
      elim (submit-requests json topic) [
        | inl none_made ↦ no_request (e ∙ none_made)
        | inr one_made ↦
            one_request json topic (post env config pkt json topic) s posted (e ∙ one_made)
      ]

  Posted-validated :
      (json topic : Bytes) (o : Option Bytes)
      → env.json_error json ≡ o
      → matches_filter config.filter pkt ≡ true
      → extract_json pkt.packet_data ≡ ok (json, topic)
      → Posted env config pkt (Export.validated env config pkt json topic o).requests
  unfolding Export.validated
  Posted-validated json topic none e m x =
      Posted-of json topic [] (record { matched = m; found = x; accepted = inl e })
  Posted-validated json topic (some why) e m x = elim (Bool-cases config.strict_json) [
    | inl strict ↦ simp strict (no_request refl)
    | inr lenient ↦ simp lenient (
        Posted-of json topic (validation_failed_continuing ∷ [])
          (record { matched = m; found = x; accepted = inr lenient }))
  ]

  Posted-refused :
      (why : ExtractError)
      → Posted env config pkt (Export.extracted env config pkt (err why)).requests
  unfolding Export.extracted
  Posted-refused why = elim (Bool-cases config.strict_json) [
    | inl strict ↦ rw strict (no_request refl)
    | inr lenient ↦ rw lenient (no_request refl)
  ]

  -- `Export` makes no request, or the one POST to the upstream URL whose body is the JSON text found in
  -- the packet; and then the packet passes the filter, and the text is valid or the mode is lenient.
  pub export_posts_at_most_once : Posted env config pkt (export env config pkt).requests
  unfolding export
  export_posts_at_most_once = elim (Bool-cases (matches_filter config.filter pkt)) [
    | inr other ↦ rw other (no_request refl)
    | inl matched ↦ rw matched (elim (Bool-cases (length pkt.packet_data == 0)) [
      | inl empty ↦ rw empty (no_request refl)
      | inr some_bytes ↦ rw some_bytes (elim (extract_json_answers pkt.packet_data) [
        | extracted json topic start et cut e ↦ rw e (
            unfold Export.extracted in
            Posted-validated json topic (env.json_error json) refl matched e)
        | no_opening topic start et clear e ↦ rw e (Posted-refused (no_json topic))
        | no_closing topic start first et u e ↦ rw e (Posted-refused (incomplete_json topic))
      ])
    ])
  ]

  status_error_iff : (response : Response) → (status_error response ≡ none) ↔ IsSuccess response
  status_error_iff (failed why) =
      ((λ e. absurd (cc)), (λ h. elim h [ succeeded status body e lo hi ↦ absurd (cc) ]))
  status_error_iff (answered status body) = (
    (λ e. succeeded status body refl (ground arith) (ground arith)),
    (λ h. elim h [ succeeded s b e lo hi ↦ within s b e lo hi ]),
  )
    where
      within :
          (s : ℕ) (b : Bytes)
          → answered status body ≡ answered s b
          → 200 ≤ s
          → s < 300
          → status_error (answered status body) ≡ none
      within s b e lo hi =
          let same : status ≡ s = cc in
          let low : 200 ≤ status = omega arith in
          let high : status < 300 = omega arith in ground arith

  -- The error of the end of `Export` is nil if errors are ignored, or if there is none.
  finish-error_iff :
      (outcomes : List Outcome) (requests : List Request) (o : Option SubmitError)
      → ((Export.finish config outcomes (requests, o)).error ≡ none)
        ↔ ((config.ignore_http_errors ≡ true) ⊎ (o ≡ none))
  unfolding Export.finish
  finish-error_iff outcomes requests none = ((λ e. inr refl), (λ h. refl))
  finish-error_iff outcomes requests (some why) = elim (Bool-cases config.ignore_http_errors) [
    | inl ignored ↦ rw ignored ((λ e. inl refl), (λ h. refl))
    | inr strict ↦ rw strict ((λ e. absurd (cc)), (λ h. absurd (ground arith)))
  ]

  -- The whole of `Export` on such a packet.
  export-finish :
      (json topic : Bytes)
      → IsSubmitted env config pkt json topic
      → env.request_error config.upstream_url ≡ none
      → (outcomes : List Outcome) × (export env config pkt
          ≡ Export.finish config outcomes (
            post env config pkt json topic ∷ [],
            status_error (env.respond (post env config pkt json topic)),
          ))
  unfolding export Export.extracted Export.validated submit_to_upstream
  export-finish json topic s made =
      let bytes = not_empty pkt.packet_data s.found in
      elim (Option-cases (env.json_error json)) [
        | inl valid ↦ ([], rw (s.matched, bytes, s.found, valid, made) refl)
        | inr (why, invalid) ↦ elim s.accepted [
          | inl valid ↦ absurd (cc (valid, invalid))
          | inr lenient ↦ (
            validation_failed_continuing ∷ [],
            rw (s.matched, bytes, s.found, invalid, lenient, made) refl,
          )
        ]
      ]

  -- A packet that is to be submitted is: if a request to the URL can be made, `Export` makes the one POST
  -- to the upstream URL with the JSON text as its body; and its error is nil exactly if errors of the
  -- server are ignored, or the server answers that request with a status from 200 to 299.
  pub export_submits :
      (json topic : Bytes)
      → IsSubmitted env config pkt json topic
      → env.request_error config.upstream_url ≡ none
      → (request : Request) × IsPost config json request
        × ((export env config pkt).requests ≡ request ∷ [])
        × (((export env config pkt).error ≡ none)
            ↔ ((config.ignore_http_errors ≡ true) ⊎ IsSuccess (env.respond request)))
  export_submits json topic s made =
      let request = post env config pkt json topic in
      let (outcomes, is) = export-finish json topic s made in
      let ends = finish-error_iff outcomes (request ∷ []) (status_error (env.respond request)) in
      let status = status_error_iff (env.respond request) in
      (
        request,
        record { url_is = refl; body_is = refl },
        ap (λ (x : Effect). x.requests) is ∙ finish-requests config outcomes (request ∷ []) _,
        (
          (λ e. elim (ends.0 (sym (ap (λ (x : Effect). x.error) is) ∙ e)) [
            | inl ignored ↦ inl ignored
            | inr fine ↦ inr (status.0 fine)
          ]),
          (λ h.
              ap (λ (x : Effect). x.error) is
              ∙ ends.1
                  (elim h [ inl ignored ↦ inl ignored | inr success ↦ inr (status.1 success) ])),
        ),
      )
