-- ===== src/Qingping/Export.antt =====
-- internal/qingping/exporter.go, lines 213-426: the export of a packet and its POST to the upstream
-- server. What the log entries carry is not modelled but for their level and outcome. The validation
-- of JSON and the HTTP client are the environment's.
use tzsp_server.Prelude.{
  true, false, ℕ, ◌+◌, Bool, not, ◌||◌, Option, none, some, List, [], ◌∷◌, ◌++◌, Bytes, length, ltb,
  leb, ◌==◌, if◌then◌else◌, Result, ok, err, panic, stuck,
}
use tzsp_server.Prelude.Int.{ℤ, pos, negsuc}
use tzsp_server.Prelude.Text.{codes, text_eq}
use tzsp_server.Prelude.Decimal.{decimal}
use tzsp_server.Decoder.{PacketInfo}
use tzsp_server.Qingping.{Filter, matches_filter, ExtractError, extract_json}

pub record Config : Type 0 where
  pub enabled : Bool
  pub filter : Filter
  pub strict_json : Bool
  pub upstream_url : Bytes
  pub ignore_ssl : Bool
  pub ignore_http_errors : Bool

pub record Request : Type 0 where
  pub url : Bytes
  pub headers : List (Bytes × Bytes)
  pub body : Bytes

-- What `httpClient.Do` gives: an error, or a status code and a body.
pub data Response : Type 0 where
  failed : Bytes → Response
  answered : ℕ → Bytes → Response

-- `json_error` is the error of `json.Unmarshal`, `request_error` that of `http.NewRequest`.
pub record Environment : Type 0 where
  pub json_error : Bytes → Option Bytes
  pub request_error : Bytes → Option Bytes
  pub respond : Request → Response

pub data SubmitError : Type 0 where
  not_created : Bytes → SubmitError
  request_failed : Bytes → SubmitError
  bad_status : ℕ → Bytes → SubmitError

-- The errors of `Export`; a panic of the search would end the program.
pub data ExportError : Type 0 where
  extraction_failed : ExtractError → ExportError
  validation_failed : Bytes → ExportError
  submit_failed : SubmitError → ExportError
  crashed : ExportError

-- The "outcome" fields of the log entries.
pub data Outcome : Type 0 where
  skipped failed_empty_payload failed_extraction_strict failed_extraction_lenient : Outcome
  failed_validation_strict validation_failed_continuing : Outcome
  upstream_failed_ignored failed_upstream success : Outcome

-- What a call of `Export` does: the outcomes it logs, the requests it makes, and its error.
pub record Effect : Type 0 where
  pub outcomes : List Outcome
  pub requests : List Request
  pub error : Option ExportError

abbrev pub quiet : Outcome → Option ExportError → Effect
quiet outcome error = record { outcomes = outcome ∷ []; requests = []; error = error }

-- `fmt.Sprintf("%d", n)` of a signed number.
abbrev pub signed : ℤ → Bytes
signed (pos n) = decimal n
signed (negsuc n) = b'-' ∷ decimal (n + 1)

-- A header that is set if its value is not empty.
abbrev optional : Bytes → Bytes → List (Bytes × Bytes)
optional name value = if text_eq value [] then [] else (name, value) ∷ []

unfoldable pub request_headers : PacketInfo → Bytes → List (Bytes × Bytes)
request_headers pkt topic =
    (codes "Content-Type", codes "application/json")
    ∷ (codes "User-Agent", codes "tzsp-qingping-exporter/1.0")
    ∷ (optional (codes "X-Source-IP") pkt.src_ip
        ++ (optional (codes "X-Destination-IP") pkt.dst_ip
            ++ ((codes "X-Destination-Port", decimal pkt.dst_port)
                ∷ (codes "X-Protocol", pkt.protocol)
                ∷ (codes "X-Timestamp", signed pkt.timestamp)
                ∷ optional (codes "X-MQTT-Topic") topic)))

abbrev pub status_error : Response → Option SubmitError
status_error (failed why) = some (request_failed why)
status_error (answered status body) =
    if ltb status 200 || leb 300 status then some (bad_status status body) else none

-- `submitToUpstream`: the requests made, and the error.
abbrev pub post : Environment → Config → PacketInfo → Bytes → Bytes → Request
post env config pkt json topic = record {
  url = config.upstream_url;
  headers = request_headers pkt topic;
  body = json;
}

unfoldable pub send : Environment → Request → Option Bytes → List Request × Option SubmitError
send env request (some why) = ([], some (not_created why))
send env request none = (request ∷ [], status_error (env.respond request))

unfoldable pub submit_to_upstream :
    Environment → Config → PacketInfo → Bytes → Bytes → List Request × Option SubmitError
unfolding send
submit_to_upstream env config pkt json topic =
    send env (post env config pkt json topic) (env.request_error config.upstream_url)

-- The end of `Export`, on the result of the submission.
unfoldable pub finish : Config → List Outcome → List Request × Option SubmitError → Effect
finish config outcomes (requests, none) = record {
  outcomes = outcomes ++ success ∷ [];
  requests = requests;
  error = none;
}
finish config outcomes (requests, some why) =
    if config.ignore_http_errors
    then record {
      outcomes = outcomes ++ upstream_failed_ignored ∷ [];
      requests = requests;
      error = none;
    }
    else record {
      outcomes = outcomes ++ failed_upstream ∷ [];
      requests = requests;
      error = some (submit_failed why);
    }

-- From the validation of the JSON text on.
unfoldable pub validated : Environment → Config → PacketInfo → Bytes → Bytes → Option Bytes → Effect
unfolding finish
validated env config pkt json topic none =
    finish config [] (submit_to_upstream env config pkt json topic)
validated env config pkt json topic (some why) =
    if config.strict_json
    then quiet failed_validation_strict (some (validation_failed why))
    else finish config (validation_failed_continuing ∷ [])
        (submit_to_upstream env config pkt json topic)

-- From the result of `extractJSON` on.
unfoldable pub extracted :
    Environment → Config → PacketInfo → Result ExtractError (Bytes × Bytes) → Effect
unfolding validated
extracted env config pkt (ok (json, topic)) =
    validated env config pkt json topic (env.json_error json)
extracted env config pkt (err why) =
    if config.strict_json
    then quiet failed_extraction_strict (some (extraction_failed why))
    else quiet failed_extraction_lenient none
extracted env config pkt panic = record { outcomes = []; requests = []; error = some crashed }
extracted env config pkt stuck = record { outcomes = []; requests = []; error = some crashed }

unfoldable pub export : Environment → Config → PacketInfo → Effect
unfolding extracted
export env config pkt =
    if not (matches_filter config.filter pkt)
    then quiet skipped none
    else if length pkt.packet_data == 0
    then quiet failed_empty_payload none
    else extracted env config pkt (extract_json pkt.packet_data)

-- `NewExporter`: nil if it is not enabled, an error without an upstream URL.
pub data Setup : Type 0 where
  disabled missing_url : Setup
  created : Config → Setup

unfoldable pub new_exporter : Config → Setup
new_exporter config =
    if not config.enabled
    then disabled
    else if text_eq config.upstream_url []
    then missing_url
    else created config

-- `GetStats`, which takes a nil exporter too.
pub record Stats : Type 0 where
  pub enabled : Bool
  pub upstream_url : Bytes
  pub strict_json : Bool

abbrev pub get_stats : Option Config → Option Stats
get_stats none = none
get_stats (some config) = some (record {
  enabled = config.enabled;
  upstream_url = config.upstream_url;
  strict_json = config.strict_json;
})

-- `Close` lets the idle connections go, of an exporter that is not nil; it has no error.
pub record Closed : Type 0 where
  pub connections_closed : Bool
  pub error : Option Bytes

abbrev pub close : Option Config → Closed
close none = record { connections_closed = false; error = none }
close (some config) = record { connections_closed = true; error = none }
