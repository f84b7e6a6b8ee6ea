-- ===== src/Ai/Request.antt =====
-- internal/ai/client.go: postJSONWithRetry, retryableStatus and backoff.
use walkie_talk_server.Base.{
  ℕ, zero, suc, ◌+◌, ◌-◌, ◌*◌, ◌^◌, ◌%◌, Bool, not, ◌&&◌, ◌||◌, List, [], ◌∷◌, Option, none, some,
  Text, lit, ltb, leb, ◌==◌, if◌then◌else◌, is_empty,
}
use walkie_talk_server.Json.{ℤ, pos, negsuc, trim}
use walkie_talk_server.Ai.Clean.{Library, extract_reply}

-- What one request finds: it cannot be made, client.Do fails, or there is a status and a body of at
-- most a mebibyte.
pub data Attempt : Type 0 where
  unmade : Text → Attempt
  failed : Text → Attempt
  replied : ℕ → Text → Attempt

-- A reply or an error.
pub data Reply : Type 0 where
  reply : Text → Reply
  failure : Text → Reply

unfoldable pub retryable_status : ℕ → Bool
retryable_status code =
    code == 408
    || code == 409
    || code == 425
    || code == 429
    || code == 500
    || code == 502
    || code == 503
    || code == 504

-- A signed 64-bit number as its two's complement.
abbrev pub int64 : ℤ → ℕ
int64 (pos n) = n % 2 ^ 64
int64 (negsuc n) = 2 ^ 64 - (n % 2 ^ 64 + 1)

-- The wait after an attempt, in nanoseconds and 64 bits; more than four seconds become four.
unfoldable pub backoff : ℕ → ℕ → ℕ
backoff attempt base =
    let a = if ltb attempt 1 then 1 else attempt in
    let d = (base * (2 ^ (a - 1) % 2 ^ 64)) % 2 ^ 64 in
    if ltb 4000000000 d && ltb d (2 ^ 63) then 4000000000 else d

abbrev pub is_ok : ℕ → Bool
is_ok code = leb 200 code && ltb code 300

-- The loop with `left` turns to go, what it returns, and its waits; `last` is lastErr.
module _ (g : Library) (attempts base : ℕ) (net : ℕ → Attempt) where
  unfoldable pub try_posts : ℕ → ℕ → Option Text → Reply × List ℕ
  unfolding backoff retryable_status
  try_posts zero attempt last = elim last [
    | some e ↦ (failure e, [])
    | none ↦ (failure (lit "AI backend request failed"), [])
  ]
  try_posts (suc left) attempt last =
      let rest = λ (e : Text). try_posts left (suc attempt) (some e) in
      elim (net attempt) [
        | unmade e ↦ (failure e, [])
        | failed e ↦
            if ltb attempt attempts
            then ((rest e).0, backoff attempt base ∷ (rest e).1)
            else (failure e, [])
        | replied code body ↦
            let e = g.http_error code (trim body 180) in
            if not (is_ok code)
            then (if retryable_status code && ltb attempt attempts
                then ((rest e).0, backoff attempt base ∷ (rest e).1)
                else (failure e, []))
            else if not (is_empty (extract_reply g body))
            then (reply (extract_reply g body), [])
            else rest (lit "AI backend returned JSON without text/reply/response")
      ]

  unfoldable pub post_json_with_retry : Reply × List ℕ
  post_json_with_retry = try_posts attempts 1 none
