-- ===== src/Llm/Download.antt =====
-- pan-llm/src/http.rs: the client that gets bytes and follows redirects. A text of the wire is a list of
-- bytes; the exchange over a socket and the decoding of UTF-8 are arguments.
mod Split
pub mod Laws
use pan.Prelude.{
  ℕ, zero, suc, Bool, true, false, ◌&&◌, not, String, List, [], ◌∷◌, Option, none, some, Result, ok,
  err, and_then, ok_or, map_err, bind, unwrap_or, ltb, leb, ◌==◌, if◌then◌else◌, starts_with_char,
  split_once, split_whitespace, trim, lines, lowercase_starts_with, get_elem?, length, drop, ◌⧺◌,
}
use pan.Json.{Value}
use pan.Caps.Http.{parse_u16}
use pan.Llm.Http.{Target, Client, parse_base}

abbrev pub Bytes : Type 0
Bytes = List ℕ

-- `async_raw_exchange`; `from_utf8`, which may fail, and `from_utf8_lossy`; `from_slice` of serde_json.
pub record Downloads (W : Type 0) : Type 0 where
  pub raw_exchange : Target → String → W → Result String Bytes × W
  pub from_utf8 : Bytes → Result String String
  pub from_utf8_lossy : Bytes → String
  pub from_slice : Bytes → Result String Value

pub data BytesResult : Type 0 where
  body : Bytes → BytesResult
  redirect : String → BytesResult

abbrev pub prefix_of : Bytes → Bytes → Bool
prefix_of [] bs = true
prefix_of (p ∷ ps) [] = false
prefix_of (p ∷ ps) (b ∷ bs) = (p == b) && prefix_of ps bs

abbrev pub crlf_crlf : Bytes
crlf_crlf = 13 ∷ 10 ∷ 13 ∷ 10 ∷ []

abbrev pub lf_lf : Bytes
lf_lf = 10 ∷ 10 ∷ []

-- One of the two loops: the positions before the length less that of the separator.
unfoldable pub split_at : Bytes → Bytes → Option (Bytes × Bytes)
split_at sep [] = none
split_at sep (b ∷ bs) =
    let later = split_at sep bs in
    if ltb (length sep) (length (b ∷ bs))
    then if prefix_of sep (b ∷ bs)
      then some ([], drop (length sep) (b ∷ bs))
      else bind later (λ p. some (b ∷ p.0, p.1))
    else none

unfoldable pub split_http_response : Bytes → Option (Bytes × Bytes)
unfolding split_at
split_http_response bytes = elim (split_at crlf_crlf bytes) [
  | some p ↦ some p
  | none ↦ split_at lf_lf bytes
]

-- The value of the first `Location` line.
unfoldable pub parse_location : List String → Option String
unfolding lowercase_starts_with split_once trim
parse_location [] = none
parse_location (line ∷ rest) =
    let later = parse_location rest in
    if lowercase_starts_with "location:" line
    then bind (split_once ":" line) (λ (p : String × String). some (trim p.1))
    else later

abbrev pub take_bytes : ℕ → Bytes → Bytes
take_bytes zero bs = []
take_bytes (suc n) [] = []
take_bytes (suc n) (b ∷ bs) = b ∷ take_bytes n bs

-- The parts of a text between the separators, as `split('/')`; those that are asked for.
unfoldable pub take_parts : ℕ → String → String
unfolding split_once
take_parts zero s = ""
take_parts (suc zero) s = elim (split_once "/" s) [ some p ↦ p.0 | none ↦ s ]
take_parts (suc (suc n)) s = elim (split_once "/" s) [
  | some p ↦ p.0 ⧺ ("/" ⧺ take_parts (suc n) p.1)
  | none ↦ s
]

-- Where a redirect leads: a path is taken from the host of the url.
unfoldable pub next_url : String → String → String
unfolding take_parts
next_url url loc = if starts_with_char loc "/" then take_parts 3 url ⧺ loc else loc

module _ {W : Type 0} (client : Client W) (downloads : Downloads W) where
  unfoldable pub build_get_request : String → String → String
  build_get_request host full_path =
      "GET "
      ⧺ (full_path
          ⧺ (" HTTP/1.0\r\nHost: "
              ⧺ (host
                  ⧺ ("\r\nUser-Agent: pan/"
                      ⧺ (client.version ⧺ "\r\nConnection: close\r\nAccept: */*\r\n\r\n")))))

  unfoldable pub code_of : List String → ℕ
  unfolding split_whitespace parse_u16
  code_of head =
      unwrap_or (bind (get_elem? (split_whitespace (unwrap_or (get_elem? head 0) "")) 1) parse_u16)
        0

  -- What is made of the head and the body of an answer.
  unfoldable pub by_code : Bytes → String → Result String BytesResult
  unfolding lines parse_location code_of
  by_code content head =
      let code = code_of (lines head) in
      if leb 300 code && ltb code 400
      then (elim (parse_location (lines head)) [
        | some loc ↦ ok (redirect loc)
        | none ↦ err ("HTTP " ⧺ (client.decimal code ⧺ ": redirect with no Location"))
      ])
      else if not (leb 200 code && ltb code 300)
      then err (
          "HTTP "
          ⧺ (client.decimal code ⧺ (": " ⧺ downloads.from_utf8_lossy (take_bytes 200 content))))
      else ok (body content)

  unfoldable pub read_response : Bytes → Result String BytesResult
  unfolding split_http_response by_code
  read_response raw = and_then (ok_or "malformed HTTP response" (split_http_response raw)) λ p.
      and_then (map_err (λ e. "bad response headers: " ⧺ e) (downloads.from_utf8 p.0)) (by_code p.1)

  unfoldable pub get_bytes_once : String → W → Result String BytesResult × W
  unfolding parse_base build_get_request read_response
  get_bytes_once url w = elim (parse_base client url "") [
    | err e ↦ (err e, w)
    | ok target ↦
        let (r, w') =
          downloads.raw_exchange target (build_get_request target.host target.full_path) w in
        (and_then r read_response, w')
  ]

  -- The rounds of the loop that are left.
  unfoldable pub follow : ℕ → String → W → Result String Bytes × W
  unfolding get_bytes_once next_url
  follow zero url w = (err "too many redirects", w)
  follow (suc hops) url w =
      let (r, w') = get_bytes_once url w in
      elim r [
        | err e ↦ (err e, w')
        | ok (body bytes) ↦ (ok bytes, w')
        | ok (redirect loc) ↦ follow hops (next_url url loc) w'
      ]

  unfoldable pub get_bytes_async : String → W → Result String Bytes × W
  unfolding follow
  get_bytes_async url w = follow 5 url w

  unfoldable pub get_json_async : String → W → Result String Value × W
  unfolding get_bytes_async
  get_json_async url w =
      let (r, w') = get_bytes_async url w in
      (
        and_then r λ bytes. map_err (λ e. "bad response JSON: " ⧺ e) (downloads.from_slice bytes),
        w',
      )
