-- ===== src/Api/Ready.antt =====
-- internal/api/server.go: handleReady with its cache.
use walkie_talk_server.Base.{
  ℕ, ◌+◌, ◌-◌, ◌/◌, Bool, false, not, ◌&&◌, [], ◌∷◌, Option, none, some, Text, ltb, if◌then◌else◌,
  is_empty, List,
}
use walkie_talk_server.Api.Supabase.{Answer, is_success}

-- What handleReady reads of the configuration; durations are in nanoseconds.
pub record Settings : Type 0 where
  pub instance_id : Text
  pub readiness_cache_ttl : ℕ
  pub redis_enabled : Bool
  pub redis_url : Text
  pub supabase_url : Text
  pub supabase_key : Text
  pub mapbox_access_token : Text

-- The map that is answered, less the entries `ok` and `websocket`, which are always true, and `cache`.
pub record Report : Type 0 where
  pub instance : Text
  pub redis : Option Bool
  pub supabase : Option Bool
  pub mapbox : Bool
  pub uptime_s : ℕ

-- The entry `cache`.
pub data Origin : Type 0 where
  hit : Origin
  miss : Origin

-- readyCached with readyExpires.
pub record Cache : Type 0 where
  pub report : Report
  pub expires : ℕ

-- What a request would find: the time at its start and for the uptime, and the answers of Redis and
-- Supabase.
pub record Probe : Type 0 where
  pub now : ℕ
  pub shown_at : ℕ
  pub redis_ok : Bool
  pub supabase : Answer

unfoldable pub new_report : Settings → ℕ → Probe → Report
new_report c start p = record {
  instance = c.instance_id;
  redis = if c.redis_enabled && not (is_empty c.redis_url) then some p.redis_ok else none;
  supabase =
      if not (is_empty c.supabase_url) && not (is_empty c.supabase_key)
      then some (elim p.supabase.error [ none ↦ is_success p.supabase.status | some e ↦ false ])
      else none;
  mapbox = not (is_empty c.mapbox_access_token);
  uptime_s = (p.shown_at - start) / 1000000000;
}

-- The report that the cache gives at a time, if it is on.
unfoldable pub cached_at : Settings → ℕ → Option Cache → Option Report
cached_at c now none = none
cached_at c now (some k) =
    if ltb 0 c.readiness_cache_ttl && ltb now k.expires then some k.report else none

unfoldable pub handle_ready : Settings → ℕ → Probe → Option Cache → (Report × Origin) × Option Cache
unfolding new_report cached_at
handle_ready c start p k = elim (cached_at c p.now k) [
  | some r ↦ ((r, hit), k)
  | none ↦ (
    (new_report c start p, miss),
    if ltb 0 c.readiness_cache_ttl
        then some
            (record { report = new_report c start p; expires = p.now + c.readiness_cache_ttl })
        else k,
  )
]

-- One request after another.
unfoldable pub handle_readies : Settings → ℕ → List Probe → Option Cache → List (Report × Origin)
handle_readies c start [] k = []
handle_readies c start (p ∷ ps) k =
    (handle_ready c start p k).0 ∷ handle_readies c start ps (handle_ready c start p k).1
