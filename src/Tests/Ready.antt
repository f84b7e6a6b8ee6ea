-- ===== src/Tests/Ready.antt =====
-- internal/api/server.go: the cache of handleReady
use walkie_talk_server.Api.Ready.{Settings, Probe, handle_readies}
use walkie_talk_server.Api.ReadyCache
use walkie_talk_server.Api.ReadyCache.{AllFresh}
use walkie_talk_server.Base.{ℕ, true, false, [], ◌∷◌, none, lit}

abbrev settings : Settings
settings = record {
  instance_id = lit "inst";
  readiness_cache_ttl = 20;
  redis_enabled = true;
  redis_url = lit "redis";
  supabase_url = [];
  supabase_key = [];
  mapbox_access_token = [];
}

abbrev at : ℕ → Probe
at now = record {
  now = now;
  shown_at = now;
  redis_ok = false;
  supabase = record { status = 0; body = []; error = none };
}

handle_readies-fresh_example :
    AllFresh settings 0 []
      (at 10 ∷ at 15 ∷ at 30 ∷ [])
      (handle_readies settings 0 (at 10 ∷ at 15 ∷ at 30 ∷ []) none)
handle_readies-fresh_example =
    ReadyCache.handle_readies-fresh settings 0 (at 10 ∷ at 15 ∷ at 30 ∷ [])
