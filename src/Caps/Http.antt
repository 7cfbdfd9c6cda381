-- ===== src/Caps/Http.antt =====
-- pan-cap/src/http.rs: `cap.http`. The exchange over the socket is an argument that reads and writes the
-- world, and so is the printing of a number.
pub mod Laws
use Prim.Native.Char.{Char, code}
use Prim.Native.String.{len}
use pan.Prelude.{
  ℕ, ◌+◌, ◌-◌, ◌*◌, Bool, ◌&&◌, String, Option, none, some, Result, ok, err, and_then, ok_or, bind,
  unwrap_or, ltb, leb, same_char, if◌then◌else◌, str_eq, strip_prefix, split_once, ◌⧺◌,
}
use pan.Json.{
  Value, null, number, pos_int, text, object, Fields, end, field, get, as_object, as_str,
}

-- `s.rsplit_once(c)`: around the last `c`.
unfoldable pub rsplit_once : Char → String → Option (String × String)
rsplit_once c String.[] = none
rsplit_once c (String.◌∷◌ d s) = elim (rsplit_once c s) [
  | some p ↦ some (String.◌∷◌ d p.0, p.1)
  | none ↦ if same_char d c then some ("", s) else none
]

unfoldable pub is_digit : Char → Bool
is_digit c = leb 48 (code c) && leb (code c) 57

unfoldable pub digits_below : ℕ → String → Option ℕ
unfolding is_digit
digits_below n String.[] = some n
digits_below n (String.◌∷◌ c s) =
    let more = n * 10 + (code c - 48) in
    let rest = digits_below more s in if is_digit c && ltb more 65536 then rest else none

-- `p.parse::<u16>()`: digits, behind an optional plus sign, below 2^16.
unfoldable pub parse_u16 : String → Option ℕ
unfolding digits_below
parse_u16 String.[] = none
parse_u16 (String.◌∷◌ c s) =
    if same_char c "+"
    then (if str_eq s "" then none else digits_below 0 s)
    else digits_below 0 (String.◌∷◌ c s)

pub record ParsedUrl : Type 0 where
  pub host : String
  pub port : ℕ
  pub path : String

-- The host and the port of an authority.
unfoldable pub host_port : String → Result String (String × ℕ)
unfolding rsplit_once parse_u16
host_port authority = elim (rsplit_once ":" authority) [
  | some p ↦ elim (parse_u16 p.1) [
    | some port ↦ ok (p.0, port)
    | none ↦ err ("bad port \"" ⧺ (p.1 ⧺ "\""))
  ]
  | none ↦ ok (authority, 80)
]

unfoldable pub authority_path : String → String × String
unfolding split_once
authority_path rest = elim (split_once "/" rest) [ some p ↦ (p.0, "/" ⧺ p.1) | none ↦ (rest, "/") ]

unfoldable pub parse_url : String → Result String ParsedUrl
unfolding strip_prefix authority_path host_port
parse_url url = elim (strip_prefix "http://" url) [
  | none ↦ err ("unsupported URL scheme (only http:// is supported): \"" ⧺ (url ⧺ "\""))
  | some rest ↦
      let (authority, path) = authority_path rest in
      and_then (host_port authority) λ p.
        if str_eq p.0 ""
        then err "empty host in URL"
        else ok (record { host = p.0; port = p.1; path = path })
]

-- The headers whose values are strings.
unfoldable pub header_lines : Fields → String
header_lines end = ""
header_lines (field k v fs) =
    let rest = header_lines fs in
    elim (as_str v) [ some val ↦ k ⧺ (": " ⧺ (val ⧺ ("\r\n" ⧺ rest))) | none ↦ rest ]

-- What `cap.http` uses: `TcpStream` with a host, a port and a request, which yields the status and the
-- body, and `{}` of a length.
pub record Network (W : Type 0) : Type 0 where
  pub exchange : String → ℕ → String → W → Result String (ℕ × String) × W
  pub decimal : ℕ → String

unfoldable pub arg_str : Value → String → Result String String
arg_str args key = ok_or ("`" ⧺ (key ⧺ "` must be a string")) (bind (get args key) as_str)

module _ {W : Type 0} (net : Network W) where
  unfoldable pub build_request : String → String → String → Value → Option String → String
  unfolding header_lines
  build_request method host path headers body =
      method
      ⧺ (" "
          ⧺ (path
              ⧺ (" HTTP/1.0\r\nHost: "
                  ⧺ (host
                      ⧺ ("\r\nConnection: close\r\n"
                          ⧺ (elim (as_object headers) [ some fs ↦ header_lines fs | none ↦ "" ]
                              ⧺ elim body [
                                | some b ↦
                                    "Content-Length: " ⧺ (net.decimal (len b) ⧺ ("\r\n\r\n" ⧺ b))
                                | none ↦ "\r\n"
                              ]))))))

  -- `do_get` and `do_post`, which differ in the method and the body.
  unfoldable pub do_request : String → String → Value → Option String → W → Result String Value × W
  unfolding parse_url build_request
  do_request method url headers body w = elim (parse_url url) [
    | err e ↦ (err e, w)
    | ok u ↦
        let (r, w') =
          net.exchange u.host u.port (build_request method u.host u.path headers body) w in
        (
          elim r [
            | ok (status, response) ↦ ok (
                object
                  (field "body" (text response) (field "status" (number (pos_int status)) end)))
            | err e ↦ err e
          ],
          w',
        )
  ]

  -- The arms of `execute`.
  unfoldable pub run_http : String → Value → String → Value → W → Result String Value × W
  unfolding do_request arg_str
  run_http capability args url headers w =
      if str_eq capability "cap.http.get"
      then do_request "GET" url headers none w
      else if str_eq capability "cap.http.post"
      then (elim (arg_str args "body") [
        | ok body ↦ do_request "POST" url headers (some body) w
        | err e ↦ (err e, w)
      ])
      else (err ("cap.http has no `" ⧺ (capability ⧺ "`")), w)

  unfoldable pub execute_http : String → Value → W → Result String Value × W
  unfolding run_http arg_str
  execute_http capability args w = elim (arg_str args "url") [
    | ok url ↦ run_http capability args url (unwrap_or (get args "headers") null) w
    | err e ↦ (err e, w)
  ]
