-- ===== src/Store/Circuit.antt =====
-- The circuit breaker in front of Redis, internal/store/rate_store.go.
use walkie_talk_server.Store.{
  RateStore, Outside, Reply, check, redis_circuit_open, mark_redis_failure, mark_redis_success,
  redis_ok,
}
use walkie_talk_server.Base.{
  ℕ, ◌+◌, ◌≤◌, ◌<◌, ◌≡◌, refl, Bool, true, false, List, [], ◌∷◌, Text, arith, ltb, length,
}

-- Failures one after the other, at the given times.
unfoldable pub fail_at : List ℕ → RateStore → RateStore
fail_at [] s = s
fail_at (t ∷ ts) s = fail_at ts (mark_redis_failure t s)

mark_redis_failure-count :
    (t : ℕ) (s : RateStore)
    → ((mark_redis_failure t s).redis_failures ≡ s.redis_failures + 1)
      × ((mark_redis_failure t s).failure_threshold ≡ s.failure_threshold)
      × ((mark_redis_failure t s).circuit_open_time ≡ s.circuit_open_time)
unfolding mark_redis_failure
mark_redis_failure-count t s = ground arith

fail_at-count :
    (ts : List ℕ) (s : RateStore)
    → ((fail_at ts s).redis_failures ≡ s.redis_failures + length ts)
      × ((fail_at ts s).failure_threshold ≡ s.failure_threshold)
      × ((fail_at ts s).circuit_open_time ≡ s.circuit_open_time)
unfolding fail_at
fail_at-count [] s = ground arith
fail_at-count (t ∷ ts) s =
    ground (arith, mark_redis_failure-count t s, fail_at-count ts (mark_redis_failure t s))

fail_at-until :
    (ts : List ℕ) (s : RateStore)
    → s.redis_failures + length ts < s.failure_threshold
    → (fail_at ts s).redis_circuit_until ≡ s.redis_circuit_until
unfolding fail_at mark_redis_failure
fail_at-until [] s h = refl
fail_at-until (t ∷ ts) s h = ground (arith, fail_at-until ts (mark_redis_failure t s))

-- After a success the circuit stays closed through fewer failures than the threshold; the failure
-- that reaches the threshold, or comes after it, opens the circuit for the open time.
pub fail_at-circuit :
    (ts : List ℕ) (t now : ℕ) (s : RateStore)
    → let r = mark_redis_success s in
      (length ts < s.failure_threshold → redis_circuit_open now (fail_at ts r) ≡ false)
      × (s.failure_threshold ≤ length ts + 1
          → redis_circuit_open now (mark_redis_failure t (fail_at ts r))
            ≡ ltb now (t + s.circuit_open_time))
unfolding redis_circuit_open mark_redis_failure mark_redis_success
fail_at-circuit ts t now s = (
  λ h. ground (arith, fail_at-until ts (mark_redis_success s)),
  λ h. ground (arith, fail_at-count ts (mark_redis_success s)),
)

-- While the circuit is open, Check does not look at the answer of Redis, and RedisOK says no
-- without a ping: two calls that differ in the answer alone end alike.
pub check_open :
    (o : Outside) (a : Reply) (key : Text) (limit window : ℕ) (s : RateStore)
    → redis_circuit_open o.asked_at s ≡ true
    → (check (record o { reply = a }) key limit window s ≡ check o key limit window s)
      × ((failed_at : ℕ) (pinged : Bool) → redis_ok o.asked_at failed_at pinged s ≡ (s, false))
unfolding check redis_ok
check_open o a key limit window s h = (rw h (ground arith), λ t p. rw h (ground arith))
