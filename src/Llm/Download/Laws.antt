-- ===== src/Llm/Download/Laws.antt =====
-- What a download returns.
use pan.Prelude.{
  ℕ, zero, suc, ◌+◌, ◌≤◌, ◌<◌, ◌≡◌, ap, ◌∙◌, String, ◌++◌, ◌⧺◌, some, ok, ok_or, map_err, arith,
  length, Result-cases, inl, inr, ◌⊎◌, and_then-ok, ok_or-ok, map_err-ok, lines, ok-injective,
}
use pan.Llm.Download.Split.{split_http_response-some}
use pan.Llm.Http.{Target, Client, parse_base}
use pan.Llm.Download.{
  Bytes, Downloads, BytesResult, body, redirect, code_of, parse_location, split_http_response,
  crlf_crlf, lf_lf, by_code, build_get_request, read_response, get_bytes_once, follow, next_url,
  get_bytes_async,
}

module _ {W : Type 0} (client : Client W) (downloads : Downloads W) where
  -- The request for the url was sent, and was answered by a head of that text and by that content, with
  -- a blank line between them.
  pub record Exchanged (url : String) (w : W) (head : String) (content : Bytes) (after : W)
      : Type 0 where
    pub target : Target
    pub raw : Bytes
    pub head_bytes : Bytes
    pub parsed : parse_base client url "" ≡ ok target
    pub received :
        downloads.raw_exchange target
          (build_get_request client downloads target.host target.full_path)
          w
        ≡ (ok raw, after)
    pub parts :
        (raw ≡ head_bytes ++ (crlf_crlf ++ content)) ⊎ (raw ≡ head_bytes ++ (lf_lf ++ content))
    pub decoded : downloads.from_utf8 head_bytes ≡ ok head
    pub is_there : 0 < length content

  -- In so many exchanges at most, each at the url that the one before was redirected to, the bytes come
  -- as the content of an answer with a code of 200 to 299.
  pub data Fetches : ℕ → String → W → Bytes → W → Type 0 where
    answered :
        {rounds : ℕ} {url : String} {w after : W} {head : String} {content : Bytes}
        → Exchanged url w head content after
        → 200 ≤ code_of client downloads (lines head)
        → code_of client downloads (lines head) < 300
        → Fetches (suc rounds) url w content after
    redirected :
        {rounds : ℕ} {url : String} {w after last : W} {head loc : String} {content bytes : Bytes}
        → Exchanged url w head content after
        → 300 ≤ code_of client downloads (lines head)
        → code_of client downloads (lines head) < 400
        → parse_location (lines head) ≡ some loc
        → Fetches rounds (next_url url loc) after bytes last
        → Fetches (suc rounds) url w bytes last

  by_code-body :
      (content : Bytes) (head : String) (bytes : Bytes)
      → by_code client downloads content head ≡ ok (body bytes)
      → (content ≡ bytes)
        × (200 ≤ code_of client downloads (lines head))
        × (code_of client downloads (lines head) < 300)
  unfolding by_code
  by_code-body content head bytes h = (ground arith, ground arith, ground arith)

  by_code-redirect :
      (content : Bytes) (head loc : String)
      → by_code client downloads content head ≡ ok (redirect loc)
      → (300 ≤ code_of client downloads (lines head))
        × (code_of client downloads (lines head) < 400)
        × (parse_location (lines head) ≡ some loc)
  unfolding by_code
  by_code-redirect content head loc h = (ground arith, ground arith, ground arith)

  -- What was answered, where the one round comes to a result.
  get_bytes_once-ok :
      (url : String) (w : W) (r : BytesResult)
      → (get_bytes_once client downloads url w).0 ≡ ok r
      → (head : String) × (content : Bytes) × Exchanged url w head content
          (get_bytes_once client downloads url w).1
        × (by_code client downloads content head ≡ ok r)
  unfolding get_bytes_once read_response
  get_bytes_once-ok url w r h = elim (Result-cases (parse_base client url "")) [
    | inr (e, p) ↦ absurd (ground arith)
    | inl (target, p) ↦
        let request = build_get_request client downloads target.host target.full_path in
        let exchanged = downloads.raw_exchange target request w in
        let (raw, x, y) =
          and_then-ok exchanged.0 (read_response client downloads) (rw (get_bytes_once, p) at h) in
        let (split, s, rest) =
          and_then-ok (ok_or "malformed HTTP response" (split_http_response raw)) _ y in
        let (head, d, last) =
          and_then-ok (map_err (λ e. "bad response headers: " ⧺ e) (downloads.from_utf8 split.0))
            (by_code client downloads split.1) rest in
        let (parts, full) = split_http_response-some raw split.0 split.1 (ok_or-ok _ _ s) in
        (
          head,
          split.1,
          record {
            target = target;
            raw = raw;
            head_bytes = split.0;
            parsed = p;
            received = rw (get_bytes_once, p) (ap (λ o. (o, exchanged.1)) x);
            parts = parts;
            decoded = map_err-ok _ _ d;
            is_there = full;
          },
          last,
        )
  ]

  follow-Fetches :
      (hops : ℕ) (url : String) (w : W) (bytes : Bytes)
      → (follow client downloads hops url w).0 ≡ ok bytes
      → Fetches hops url w bytes (follow client downloads hops url w).1
  unfolding follow
  follow-Fetches zero url w bytes h = absurd (ground arith)
  follow-Fetches (suc hops) url w bytes h =
      let w' = (get_bytes_once client downloads url w).1 in
      elim (Result-cases (get_bytes_once client downloads url w).0) [
        | inr (e, r) ↦ absurd (ground arith)
        | inl (body bs, r) ↦
            let (head, content, x, c) = get_bytes_once-ok url w (body bs) r in
            let (same, from, to) = by_code-body content head bs c in
            let all : content ≡ bytes = same ∙ ok-injective (rw (follow, r) at h) in
            rw (follow, r) (rw all at (answered {rounds = hops} x from to))
        | inl (redirect loc, r) ↦
            let (head, content, x, c) = get_bytes_once-ok url w (redirect loc) r in
            let (from, to, l) = by_code-redirect content head loc c in
            let below = follow-Fetches hops (next_url url loc) w' bytes (rw (follow, r) at h) in
            rw (follow, r) (redirected x from to l below)
      ]

  module _ (count : W → ℕ)
      (ticks : (target : Target) (request : String) (w : W)
        → count (downloads.raw_exchange target request w).1 ≡ count w + 1) where
    get_bytes_once-count :
        (url : String) (w : W) → count (get_bytes_once client downloads url w).1 ≤ count w + 1
    unfolding get_bytes_once
    get_bytes_once-count url w = elim (Result-cases (parse_base client url "")) [
      | inr (e, h) ↦ rw (get_bytes_once, h) (omega arith)
      | inl (target, h) ↦ rw (get_bytes_once, h) (omega (arith, ticks target _ w))
    ]

    follow-count :
        (hops : ℕ) (url : String) (w : W)
        → count (follow client downloads hops url w).1 ≤ count w + hops
    unfolding follow
    follow-count zero url w = omega arith
    follow-count (suc hops) url w =
        let once = get_bytes_once-count url w in
        let w' = (get_bytes_once client downloads url w).1 in
        elim (Result-cases (get_bytes_once client downloads url w).0) [
          | inr (e, h) ↦ rw (follow, h) (omega arith)
          | inl (body bytes, h) ↦ rw (follow, h) (omega arith)
          | inl (redirect loc, h) ↦
              rw (follow, h) (omega (arith, follow-count hops (next_url url loc) w'))
        ]

    -- Counted by a number of the world that an exchange raises by one, a download makes five
    -- exchanges at most; where it returns bytes, it has fetched them in five exchanges at most from the
    -- world it began in to the one it leaves: the first exchange at its own url, each redirect followed
    -- to where it leads, and the bytes the content of an answer with a code of 200 to 299.
    pub get_bytes_async-answered :
        (url : String) (w : W)
        → let p = get_bytes_async client downloads url w in
          (count p.1 ≤ count w + 5) × ((bytes : Bytes) → p.0 ≡ ok bytes → Fetches 5 url w bytes p.1)
    unfolding get_bytes_async
    get_bytes_async-answered url w =
        (follow-count 5 url w, λ bytes h. follow-Fetches 5 url w bytes h)
