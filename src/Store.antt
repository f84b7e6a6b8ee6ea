-- ===== src/Store.antt =====
-- internal/store/rate_store.go: the rate limiter, with Redis behind a circuit breaker and a local
-- sliding window. Times are nanoseconds; each reading of the clock is an argument.
pub mod Window
pub mod Bound
pub mod Calls
pub mod Script
pub mod ScriptLimit
pub mod Circuit
use walkie_talk_server.Base.{
  is_empty, ℕ, suc, ◌+◌, Bool, true, false, not, ◌&&◌, ◌||◌, List, [], ◌∷◌, ◌++◌, Option, none,
  some, Text, ltb, leb, ◌==◌, if◌then◌else◌, length, keep,
}
use walkie_talk_server.Base.Dict.{lookup, insert, remove}

pub record RateStore : Type 0 where
  pub failure_threshold : ℕ
  pub circuit_open_time : ℕ
  -- `rdb != nil`
  pub has_redis : Bool
  pub times : List (Text × List ℕ)
  pub redis_failures : ℕ
  -- `none` is the zero time
  pub redis_circuit_until : Option ℕ

-- NewRateStore: Redis is used if it is enabled, its address parses, and it answers a ping.
unfoldable pub new_rate_store : ℕ → ℕ → Bool → Text → Bool → Bool → RateStore
new_rate_store failure_threshold circuit_open_time enabled url parsed pinged = record {
  failure_threshold = failure_threshold;
  circuit_open_time = circuit_open_time;
  has_redis = enabled && not (is_empty url) && parsed && pinged;
  times = [];
  redis_failures = 0;
  redis_circuit_until = none;
}

-- What EVAL answers: an integer, or an error.
pub data Reply : Type 0 where
  replied : ℕ → Reply
  failed : Reply

-- What one call of Check reads from outside: three times of the clock in the order of reading,
-- the answer of Redis, and the order in which a loop over the map `local` meets its keys.
pub record Outside : Type 0 where
  pub asked_at : ℕ
  pub failed_at : ℕ
  pub counted_at : ℕ
  pub reply : Reply
  pub key_order : List Text

-- m[k] of a Go map of slices: a missing key gives the empty slice.
unfoldable pub items_of : Text → List (Text × List ℕ) → List ℕ
items_of k m = elim (lookup k m) [ none ↦ [] | some ts ↦ ts ]

-- `t.After(now.Add(-window))`
unfoldable pub in_window : ℕ → ℕ → ℕ → Bool
in_window window now t = ltb now (t + window)

-- The loop that shrinks the map to 45000 keys.
unfoldable pub shrink : List Text → List (Text × List ℕ) → List (Text × List ℕ)
shrink [] m = m
shrink (k ∷ ks) m =
    let rest = shrink ks (remove k m) in
    if leb (length (remove k m)) 45000 then remove k m else rest

unfoldable pub evict : List Text → List (Text × List ℕ) → List (Text × List ℕ)
unfolding shrink
evict order m = if ltb 50000 (length m) then shrink order m else m

unfoldable pub check_local : List Text → ℕ → Text → ℕ → ℕ → RateStore → RateStore × Bool
unfolding in_window items_of
check_local order now key limit window s =
    let kept = keep (in_window window now) (items_of key s.times) in
    if leb limit (length kept)
    then (record s { times = insert key kept s.times }, false)
    else (record s { times = evict order (insert key (kept ++ now ∷ []) s.times) }, true)

unfoldable pub redis_circuit_open : ℕ → RateStore → Bool
redis_circuit_open now s = elim s.redis_circuit_until [ none ↦ false | some t ↦ ltb now t ]

unfoldable pub mark_redis_success : RateStore → RateStore
mark_redis_success s = record s { redis_failures = 0; redis_circuit_until = none }

unfoldable pub mark_redis_failure : ℕ → RateStore → RateStore
mark_redis_failure now s =
    if leb s.failure_threshold (suc s.redis_failures)
    then record s {
      redis_failures = suc s.redis_failures;
      redis_circuit_until = some (now + s.circuit_open_time);
    }
    else record s { redis_failures = suc s.redis_failures }

-- The branch of Check that asks Redis.
unfoldable pub check_redis : Outside → Text → ℕ → ℕ → RateStore → RateStore × Bool
unfolding mark_redis_success mark_redis_failure
check_redis o key limit window s = elim o.reply [
  | replied n ↦ (mark_redis_success s, n == 1)
  | failed ↦
      check_local o.key_order o.counted_at key limit window (mark_redis_failure o.failed_at s)
]

unfoldable pub check : Outside → Text → ℕ → ℕ → RateStore → RateStore × Bool
unfolding redis_circuit_open check_redis
check o key limit window s =
    if limit == 0
    then (s, false)
    else if s.has_redis && not (redis_circuit_open o.asked_at s)
    then check_redis o key limit window s
    else check_local o.key_order o.counted_at key limit window s

-- RedisOK: `pinged` is the outcome of PING.
unfoldable pub redis_ok : ℕ → ℕ → Bool → RateStore → RateStore × Bool
unfolding redis_circuit_open mark_redis_success mark_redis_failure
redis_ok now failed_at pinged s =
    if not s.has_redis || redis_circuit_open now s
    then (s, false)
    else if pinged
    then (mark_redis_success s, true)
    else (mark_redis_failure failed_at s, false)

pub record Stats : Type 0 where
  pub redis_enabled : Bool
  pub redis_circuit_is_open : Bool
  pub redis_consecutive_failures : ℕ
  pub local_rate_keys : ℕ

unfoldable pub stats : ℕ → RateStore → Stats
unfolding redis_circuit_open
stats now s = record {
  redis_enabled = s.has_redis;
  redis_circuit_is_open = redis_circuit_open now s;
  redis_consecutive_failures = s.redis_failures;
  local_rate_keys = length s.times;
}
