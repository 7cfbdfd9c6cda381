-- ===== src/Llm/Http.antt =====
-- pan-llm/src/http.rs: the client that posts json, with its retries. The exchange over a socket, the clock
-- and the sleep read and write the world; they are arguments, and so are printing and parsing json.
-- `post_json_ex` and `post_json_ex_async` differ in what they wait with.
pub mod Laws
use Prim.Native.String.{len, slice}
use package.text.Mathlib.Text.{is_char_boundary}
use pan.Prelude.{
  ℕ, zero, suc, ◌+◌, ◌-◌, ◌*◌, ◌/◌, ◌%◌, ◌^◌, Bool, true, false, ◌||◌, String, List, [], ◌∷◌,
  Option, none, some, Result, ok, err, and_then, ok_or, bind, unwrap_or, leb, ◌==◌, if◌then◌else◌,
  str_eq, strip_prefix, split_once, split_once_at, split_whitespace, trim, lines,
  lowercase_starts_with, trim_end_matches, parse_below, get_elem?, ◌⧺◌,
}
use pan.Json.{Value}
use pan.Caps.Http.{rsplit_once, parse_u16}

pub data Scheme : Type 0 where
  http https : Scheme

pub record Target : Type 0 where
  pub scheme : Scheme
  pub host : String
  pub port : ℕ
  pub full_path : String

-- `http_exchange` and `https_exchange` up to the text that they return, the sleep for some milliseconds,
-- the nanoseconds of the clock, `{}` of a number, `{:?}` of a text, the version of the package, and
-- `to_string` and `from_str` of serde_json.
pub record Client (W : Type 0) : Type 0 where
  pub exchange : Target → String → W → Result String String × W
  pub sleep : ℕ → W → W
  pub subsec_nanos : W → ℕ
  pub decimal : ℕ → String
  pub debug : String → String
  pub version : String
  pub to_string : Value → String
  pub from_str : String → Result String Value

abbrev pub max_retries : ℕ
max_retries = 3

unfoldable pub scheme_of : String → Option (Scheme × String × ℕ)
unfolding strip_prefix
scheme_of base = elim (strip_prefix "https://" base) [
  | some rest ↦ some (https, rest, 443)
  | none ↦ elim (strip_prefix "http://" base) [ some rest ↦ some (http, rest, 80) | none ↦ none ]
]

module _ {W : Type 0} (client : Client W) where
  unfoldable pub host_and_port : String → ℕ → Result String (String × ℕ)
  unfolding rsplit_once parse_u16
  host_and_port authority default_port = elim (rsplit_once ":" authority) [
    | some (h, p) ↦ elim (parse_u16 p) [
      | some port ↦ ok (h, port)
      | none ↦ err ("bad port " ⧺ client.debug p)
    ]
    | none ↦ ok (authority, default_port)
  ]

  unfoldable pub parse_base : String → String → Result String Target
  unfolding scheme_of host_and_port split_once trim_end_matches
  parse_base base path = elim (scheme_of base) [
    | none ↦ err ("base " ⧺ (client.debug base ⧺ " must start with http:// or https://"))
    | some (scheme, rest, default_port) ↦
        let (authority, prefix) : String × String = elim (split_once "/" rest) [
          | some (a, p) ↦ (a, trim_end_matches "/" p)
          | none ↦ (rest, "")
        ] in
        and_then (host_and_port authority default_port) λ hp.
          if str_eq hp.0 ""
          then err "empty host"
          else ok (record {
            scheme = scheme;
            host = hp.0;
            port = hp.1;
            full_path = if str_eq prefix "" then path else "/" ⧺ (prefix ⧺ path);
          })
  ]

  unfoldable pub header_text : List (String × String) → String
  header_text [] = ""
  header_text ((name, value) ∷ hs) = name ⧺ (": " ⧺ (value ⧺ ("\r\n" ⧺ header_text hs)))

  unfoldable pub build_request_ex : String → String → Value → List (String × String) → String
  unfolding header_text
  build_request_ex host full_path body extra_headers =
      let payload = client.to_string body in
      "POST "
      ⧺ (full_path
          ⧺ (" HTTP/1.0\r\nHost: "
              ⧺ (host
                  ⧺ ("\r\nUser-Agent: pan/"
                      ⧺ (client.version
                          ⧺ ("\r\nContent-Type: application/json\r\nContent-Length: "
                              ⧺ (client.decimal (len payload)
                                  ⧺ ("\r\n"
                                      ⧺ (header_text extra_headers ⧺ ("\r\n" ⧺ payload))))))))))

  unfoldable pub split_response_body : String → Result String (String × String)
  unfolding split_once_at
  split_response_body raw = elim (split_once_at "\r\n\r\n" raw) [
    | some p ↦ ok p
    | none ↦ elim (split_once_at "\n\n" raw) [
      | some p ↦ ok p
      | none ↦ err "malformed HTTP response"
    ]
  ]

  -- The code of a status line.
  unfoldable pub status_code : String → Option ℕ
  unfolding split_whitespace parse_u16
  status_code status_line = bind (get_elem? (split_whitespace status_line) 1) parse_u16

  -- `&s[..s.len().min(400)]`, which panics inside of a character.
  unfoldable pub preview : String → Option String
  preview s =
      if leb (len s) 400
      then some s
      else if is_char_boundary s 400
      then some (slice s 0 400)
      else none

  -- The answer, or the status with a message; there is none where the cut panics.
  unfoldable pub parse_response : String → Option (Result (ℕ × String) Value)
  unfolding split_response_body lines status_code preview
  parse_response raw = elim (split_response_body raw) [
    | err e ↦ some (err (0, e))
    | ok (head, response_body) ↦
        let status_line = unwrap_or (get_elem? (lines head) 0) "" in
        elim (status_code status_line) [
          | none ↦ some (err (0, "bad status line: " ⧺ client.debug status_line))
          | some status ↦
              if status == 200
              then some (elim (client.from_str response_body) [
                | ok v ↦ ok v
                | err e ↦ err (status, "bad response JSON: " ⧺ e)
              ])
              else bind (preview response_body) λ text. some (err (status, text))
        ]
  ]

  -- The milliseconds that a line asks for: the first `retry-after` with a number that can be read.
  unfoldable pub retry_after_in : List String → Option ℕ
  unfolding lowercase_starts_with split_once trim parse_below
  retry_after_in [] = none
  retry_after_in (line ∷ rest) =
      let later = retry_after_in rest in
      if lowercase_starts_with "retry-after:" line
      then (elim (split_once ":" line) [
        | none ↦ none
        | some (_, behind) ↦
            let val : String = elim (split_once ":" behind) [ some p ↦ p.0 | none ↦ behind ] in
            elim (parse_below (2 ^ 64) (trim val)) [
              | some secs ↦ some ((if leb secs 30 then secs else 30) * 1000)
              | none ↦ later
            ]
      ])
      else later

  unfoldable pub parse_retry_after : String → Option ℕ
  unfolding split_once_at lines retry_after_in
  parse_retry_after raw =
      bind (split_once_at "\r\n\r\n" raw) λ (p : String × String). retry_after_in (lines p.0)

  unfoldable pub rand_delay : ℕ → W → ℕ
  rand_delay base_ms w = client.subsec_nanos w % (base_ms / 2 + 1)

  -- The wait before an attempt that is not the first.
  unfoldable pub back_off : ℕ → W → W
  unfolding rand_delay
  back_off zero w = w
  back_off (suc attempt) w =
      let delay_ms = 500 * 2 ^ attempt in client.sleep (delay_ms + rand_delay delay_ms w) w

  -- The wait that the answer asks for.
  unfoldable pub pause : String → W → W
  unfolding parse_retry_after
  pause raw w = elim (parse_retry_after raw) [ some ms ↦ client.sleep ms w | none ↦ w ]

  unfoldable pub exhausted : Option (ℕ × String) → String
  exhausted none = "max retries exceeded"
  exhausted (some (status, msg)) =
      "HTTP "
      ⧺ (client.decimal status ⧺ (" after " ⧺ (client.decimal max_retries ⧺ (" retries: " ⧺ msg))))

  abbrev pub retryable : ℕ → Bool
  retryable status = (status == 429) || leb 500 status

  -- The rounds of the loop that are left, from an attempt on. There is no result where it panics.
  unfoldable pub attempts :
      Target → String → ℕ → ℕ → Option (ℕ × String) → W → Option (Result String Value) × W
  unfolding back_off parse_response pause exhausted
  attempts target request zero attempt last_err w = (some (err (exhausted last_err)), w)
  attempts target request (suc left) attempt last_err w =
      let (r, w') = client.exchange target request (back_off attempt w) in
      elim r [
        | err e ↦ (some (err e), w')
        | ok raw ↦ elim (parse_response raw) [
          | none ↦ (none, w')
          | some (ok v) ↦ (some (ok v), w')
          | some (err (status, msg)) ↦ elim (leb 429 status) [
            | false ↦ (some (err msg), w')
            | true ↦ elim (retryable status) [
              | true ↦
                  attempts target request left (attempt + 1) (some (status, msg)) (pause raw w')
              | false ↦
                  (some (err ("HTTP " ⧺ (client.decimal status ⧺ (": " ⧺ msg)))), pause raw w')
            ]
          ]
        ]
      ]

  unfoldable pub post_json_ex :
      String → String → Value → List (String × String) → W → Option (Result String Value) × W
  unfolding parse_base build_request_ex attempts
  post_json_ex base path body extra_headers w = elim (parse_base base path) [
    | err e ↦ (some (err e), w)
    | ok target ↦
        attempts target (build_request_ex target.host target.full_path body extra_headers)
          (max_retries + 1) 0 none w
  ]

  abbrev pub bearer : Option String → List (String × String)
  bearer (some k) = ("Authorization", "Bearer " ⧺ k) ∷ []
  bearer none = []

  unfoldable pub post_json :
      String → String → Option String → Value → W → Option (Result String Value) × W
  unfolding post_json_ex
  post_json base path api_key body w = post_json_ex base path body (bearer api_key) w
