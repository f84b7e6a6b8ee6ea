-- ===== src/Tests/Store.antt =====
-- internal/store/rate_store.go
use walkie_talk_server.Store.{
  RateStore, redis_circuit_open, mark_redis_failure, mark_redis_success, check_local, evict,
}
use walkie_talk_server.Store.Window
use walkie_talk_server.Store.Window.{verdicts, ideal, empty_history, allowed}
use walkie_talk_server.Store.ScriptLimit
use walkie_talk_server.Store.Script.{
  SortedSet, eval_rate_script, live_entries, cutoff_of, unix_seconds, seconds_of, ttl_of, expiry,
  counts,
}
use walkie_talk_server.Store.ScriptLimit.{Holds}
use walkie_talk_server.Store.Circuit
use walkie_talk_server.Store.Circuit.{fail_at}
use walkie_talk_server.Tests.Samples.{store, whole}
use walkie_talk_server.Base.{
  ℕ, ◌+◌, ◌≤◌, ◌<◌, ◌≡◌, refl, true, false, List, [], ◌∷◌, none, some, Text, lit, arith, ltb, leb,
  text_dec,
}
use walkie_talk_server.Base.Dict.{lookup, insert, remove}

abbrev key : Text
key = lit "sid:voice"

abbrev calls : List (Text × ℕ)
calls = (key, 1) ∷ (key, 2) ∷ (key, 3) ∷ (key, 12) ∷ []

abbrev two_per_key : Text → ℕ
two_per_key k = 2

abbrev ten_per_key : Text → ℕ
ten_per_key k = 10

verdicts_run : verdicts two_per_key ten_per_key [] calls store ≡ true ∷ true ∷ false ∷ true ∷ []
unfolding verdicts check_local evict lookup insert remove text_dec
verdicts_run = refl

verdicts-ideal_example :
    verdicts two_per_key ten_per_key [] calls store
    ≡ ideal two_per_key ten_per_key calls empty_history
verdicts-ideal_example =
    Window.verdicts-ideal two_per_key ten_per_key [] calls store refl (omega arith) (omega arith)

abbrev no_set : SortedSet
no_set = record { entries = []; expires_at = none }

-- A window of ten seconds, with float64 numbers that stand for whole seconds.
abbrev window : ℕ
window = 10000000000

no_set-Holds : Holds whole window 0 no_set []
unfolding live_entries
no_set-Holds = record { past = refl; agree = λ m h. refl }

cutoff_mono :
    (x m n : ℕ)
    → m ≤ n
    → leb x (cutoff_of whole window m) ≡ true
    → leb x (cutoff_of whole window n) ≡ true
unfolding cutoff_of unix_seconds seconds_of
cutoff_mono x m n h k = ground arith

call_aged : (t m : ℕ) → expiry (ttl_of whole window) t ≤ m → counts whole window m t ≡ false
unfolding expiry ttl_of cutoff_of unix_seconds seconds_of
call_aged t m h = ground arith

eval_rate_script-allowed_example :
    let r = eval_rate_script whole window 5000000000 (lit "r_1") 2 no_set in
    (r.1 ≡ 1) × Holds whole window 5000000000 r.0 (5000000000 ∷ [])
unfolding lookup
eval_rate_script-allowed_example =
    ScriptLimit.eval_rate_script-allowed whole window cutoff_mono call_aged 5000000000 2 (lit "r_1")
      no_set [] 0 (omega arith) refl no_set-Holds

fail_at-circuit_example :
    (2 < 3 → redis_circuit_open 50 (fail_at (1 ∷ 2 ∷ []) (mark_redis_success store)) ≡ false)
    × (3 ≤ 3
        → redis_circuit_open 50
            (mark_redis_failure 3 (fail_at (1 ∷ 2 ∷ []) (mark_redis_success store)))
          ≡ ltb 50 (3 + 15000000000))
fail_at-circuit_example = Circuit.fail_at-circuit (1 ∷ 2 ∷ []) 3 50 store

abbrev broken : RateStore
broken = record store { has_redis = true; redis_circuit_until = some 100 }
