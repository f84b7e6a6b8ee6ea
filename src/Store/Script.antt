-- ===== src/Store/Script.antt =====
-- redisRateLua of internal/store/rate_store.go on one sorted set, and the arguments that Check gives
-- it. Scores are float64 numbers of seconds. Redis is taken to read the clock of the caller.
use walkie_talk_server.Json.{Float64, ℤ, pos, negsuc}
use walkie_talk_server.Base.{
  ℕ, ◌+◌, ◌*◌, ◌/◌, ◌%◌, Bool, not, List, [], Option, none, some, Text, leb, if◌then◌else◌, length,
  keep,
}
use walkie_talk_server.Base.Dict.{insert}

-- The score of a member is the bits of a float64.
pub record SortedSet : Type 0 where
  pub entries : List (Text × ℕ)
  -- `none`: the key has no time to live
  pub expires_at : Option ℕ

-- What Redis holds under the key now: nothing after its time to live.
unfoldable pub live_entries : ℕ → SortedSet → List (Text × ℕ)
live_entries now z = elim z.expires_at [
  | none ↦ z.entries
  | some t ↦ if leb t now then [] else z.entries
]

-- When a key expires that gets so many whole seconds to live now; with none or fewer it is deleted.
unfoldable pub expiry : ℤ → ℕ → ℕ
expiry (pos n) now = now + n * 1000000000
expiry (negsuc n) now = 0

-- The script: zremrangebyscore up to the cutoff, zcard, and if there is room zadd and expire. Its
-- answer is 0 or 1.
unfoldable pub rate_script : Float64 → ℕ → Text → ℕ → ℕ → ℤ → ℕ → SortedSet → SortedSet × ℕ
unfolding live_entries expiry
rate_script f cutoff member score limit ttl now z =
    let kept = keep (λ e. not (f.less_eq e.1 cutoff)) (live_entries now z) in
    if leb limit (length kept)
    then (record { entries = kept; expires_at = z.expires_at }, 0)
    else (record { entries = insert member score kept; expires_at = some (expiry ttl now) }, 1)

module _ (f : Float64) where
  -- float64(time.Now().UnixNano()) / 1e9
  unfoldable pub unix_seconds : ℕ → ℕ
  unix_seconds now = f.over (f.of_ℕ now) (f.of_ℕ 1000000000)

  -- window.Seconds(): whole seconds and the rest, each as a float64
  unfoldable pub seconds_of : ℕ → ℕ
  seconds_of window =
      f.plus (f.of_ℕ (window / 1000000000))
        (f.over (f.of_ℕ (window % 1000000000)) (f.of_ℕ 1000000000))

  unfoldable pub cutoff_of : ℕ → ℕ → ℕ
  unfolding unix_seconds seconds_of
  cutoff_of window now = f.minus (unix_seconds now) (seconds_of window)

  -- int(window.Seconds() * 2)
  unfoldable pub ttl_of : ℕ → ℤ
  unfolding seconds_of
  ttl_of window = f.to_int (f.times (seconds_of window) (f.of_ℕ 2))

  -- The script with the arguments that Check gives it.
  unfoldable pub eval_rate_script : ℕ → ℕ → Text → ℕ → SortedSet → SortedSet × ℕ
  unfolding rate_script unix_seconds cutoff_of ttl_of
  eval_rate_script window now member limit z =
      rate_script f (cutoff_of window now) member (unix_seconds now) limit (ttl_of window) now z

  -- A call at time `t` still counts at time `m`: its float64 is above the cutoff.
  abbrev pub counts : ℕ → ℕ → ℕ → Bool
  counts window m t = not (f.less_eq (unix_seconds t) (cutoff_of window m))
