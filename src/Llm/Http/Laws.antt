-- ===== src/Llm/Http/Laws.antt =====
-- What the retries of a post come to.
use pan.Prelude.{
  ℕ, zero, suc, ◌+◌, ◌≤◌, ◌≡◌, refl, true, String, List, Option, none, some, Result, ok, err, arith,
  leb, Option-cases, Result-cases, Bool-cases, inl, inr,
}
use pan.Json.{Value}
use pan.Llm.Http.{
  Target, Client, parse_base, build_request_ex, parse_response, back_off, pause, attempts,
  post_json_ex, exhausted, retryable, parse_retry_after,
}

module _ {W : Type 0} (client : Client W) where
  module _ (count : W → ℕ) (asleep : (ms : ℕ) (w : W) → count (client.sleep ms w) ≡ count w) where
    count-back_off : (attempt : ℕ) (w : W) → count (back_off client attempt w) ≡ count w
    unfolding back_off
    count-back_off zero w = refl
    count-back_off (suc attempt) w = asleep _ w

    count-pause : (raw : String) (w : W) → count (pause client raw w) ≡ count w
    unfolding pause
    count-pause raw w = elim (Option-cases (parse_retry_after client raw)) [
      | inl n ↦ rw (pause, n) refl
      | inr (ms, h) ↦ rw (pause, h) (asleep ms w)
    ]

    module _ (target : Target) (request : String)
        (ticks : (w : W) → count (client.exchange target request w).1 ≡ count w + 1) where
      -- An exchange that was answered with the value.
      abbrev pub Served : Value → Type 0
      Served v =
          (raw : String) × (w : W) × ((client.exchange target request w).0 ≡ ok raw)
          × (parse_response client raw ≡ some (ok v))

      abbrev Within : ℕ → W → Option (Result String Value) × W → Type 0
      Within left w p = (count p.1 ≤ count w + left) × ((v : Value) → p.0 ≡ some (ok v) → Served v)

      attempts-Within :
          (left attempt : ℕ) (last : Option (ℕ × String)) (w : W)
          → Within left w (attempts client target request left attempt last w)
      unfolding attempts
      attempts-Within zero attempt last w = (omega arith, λ v e. absurd (cc))
      attempts-Within (suc left) attempt last w =
          let w1 = back_off client attempt w in
          let slept = count-back_off attempt w in
          let ticked = ticks w1 in
          elim (Result-cases (client.exchange target request w1).0) [
            | inr (e, h) ↦ rw (attempts, h) (omega arith, λ v c. absurd (cc))
            | inl (raw, h) ↦ elim (Option-cases (parse_response client raw)) [
              | inl n ↦ rw (attempts, h, n) (omega arith, λ v c. absurd (cc))
              | inr (ok v, p) ↦ rw (attempts, h, p) (omega arith, λ v' c. (raw, w1, h, cc))
              | inr (err (status, msg), p) ↦ elim (Bool-cases (leb 429 status)) [
                | inr small ↦ rw (attempts, h, p, small) (omega arith, λ v c. absurd (cc))
                | inl large ↦
                    let w2 = (client.exchange target request w1).1 in
                    let paused = count-pause raw w2 in
                    elim (Bool-cases (retryable client status)) [
                      | inr stop ↦
                          rw (attempts, h, p, large, stop) (omega arith, λ v c. absurd (cc))
                      | inl again ↦
                          let more =
                            attempts-Within left (attempt + 1) (some (status, msg))
                              (pause client raw w2) in
                          rw (attempts, h, p, large, again) (omega (arith, more.0), more.1)
                    ]
              ]
            ]
          ]

      attempts-steady :
          (status : ℕ) (msg : String)
          → leb 429 status ≡ true
          → retryable client status ≡ true
          → ((w : W)
              → (raw : String) × ((client.exchange target request w).0 ≡ ok raw)
                × (parse_response client raw ≡ some (err (status, msg))))
          → (left attempt : ℕ) (w : W)
          → let p = attempts client target request left attempt (some (status, msg)) w in
            (p.0 ≡ some (err (exhausted client (some (status, msg)))))
            × (count p.1 ≡ count w + left)
      unfolding attempts
      attempts-steady status msg large again steady zero attempt w = (refl, omega arith)
      attempts-steady status msg large again steady (suc left) attempt w =
          let w1 = back_off client attempt w in
          let slept = count-back_off attempt w in
          let ticked = ticks w1 in
          let (raw, h, p) = steady w1 in
          let w2 = (client.exchange target request w1).1 in
          let paused = count-pause raw w2 in
          let more =
            attempts-steady status msg large again steady left (attempt + 1)
              (pause client raw w2) in
          rw (attempts, h, p, large, again) (more.0, omega (arith, more.1))

    module _ (base path : String) (body : Value) (headers : List (String × String)) (w : W)
        (ticks : (target : Target) (request : String) (w' : W)
          → count (client.exchange target request w').1 ≡ count w' + 1) where
      -- Counted by a number of the world that an exchange raises by one and a sleep leaves, a post
      -- makes four exchanges at most; and where it returns a value, one of its exchanges, with the
      -- target of the base and its request, was answered with a text that parses to that value.
      pub post_json_ex-Within :
          let p = post_json_ex client base path body headers w in
          (count p.1 ≤ count w + 4)
          × ((v : Value)
              → p.0 ≡ some (ok v)
              → (target : Target) × (raw : String) × (w' : W) × (parse_base client base path
                  ≡ ok target)
                × ((client.exchange target
                      (build_request_ex client target.host target.full_path body headers)
                      w').0
                    ≡ ok raw)
                × (parse_response client raw ≡ some (ok v)))
      unfolding post_json_ex
      post_json_ex-Within = elim (Result-cases (parse_base client base path)) [
        | inr (e, h) ↦ rw (post_json_ex, h) (omega arith, λ v c. absurd (cc))
        | inl (target, h) ↦
            let request = build_request_ex client target.host target.full_path body headers in
            let all = attempts-Within target request (ticks target request) 4 0 none w in
            rw (post_json_ex, h)
              (all.0, λ v c. let (raw, w', x, y) = all.1 v c in (target, raw, w', refl, x, y))
      ]

      -- Where the base can be parsed and every exchange of the request is answered with the same
      -- status, 429 or one from 500 on, and the same message, a post makes exactly four exchanges,
      -- by a number that an exchange raises by one and a sleep leaves, and returns the error that
      -- gives the status and the message after the retries.
      pub post_json_ex-steady :
          (target : Target) (status : ℕ) (msg : String)
          → parse_base client base path ≡ ok target
          → retryable client status ≡ true
          → ((w' : W)
              → (raw : String) × ((client.exchange target
                    (build_request_ex client target.host target.full_path body headers)
                    w').0
                  ≡ ok raw)
                × (parse_response client raw ≡ some (err (status, msg))))
          → let p = post_json_ex client base path body headers w in
            (p.0 ≡ some (err (exhausted client (some (status, msg))))) × (count p.1 ≡ count w + 4)
      unfolding post_json_ex attempts
      post_json_ex-steady target status msg h again steady =
          let request = build_request_ex client target.host target.full_path body headers in
          let large : leb 429 status ≡ true = ground arith in
          let (raw, x, y) = steady w in
          let w2 = (client.exchange target request w).1 in
          let paused = count-pause raw w2 in
          let ticked = ticks target request w in
          let more =
            attempts-steady target request (ticks target request) status msg large again steady 3 1
              (pause client raw w2) in
          rw (post_json_ex, h, attempts, x, y, large, again) (more.0, omega (arith, more.1))
