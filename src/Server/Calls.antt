-- ===== src/Server/Calls.antt =====
-- What the handlers of internal/api/server.go ask of the rate store that they share with the hub.
use mathlib.Core.List.{head-eq_of_cons-eq}
use walkie_talk_server.Base.{
  ℕ, ◌≡◌, ◌≢◌, ◌⊎◌, refl, sym, subst, Bool, true, false, ◌&&◌, ◌||◌, [], ◌∷◌, ◌++◌, Text, lit,
  arith, if◌then◌else◌, is_empty, Bool-cases, inl, inr,
}
use walkie_talk_server.Base.KeySet.{has, same}
use walkie_talk_server.Store.{RateStore, Outside, check, redis_ok}
use walkie_talk_server.Store.Calls.{Use, unused, other}
use walkie_talk_server.Config.Load.{Config}
use walkie_talk_server.Realtime.State.{Limits}
use walkie_talk_server.Realtime.Spoken.{voice_key, Use-eq}
use walkie_talk_server.Realtime.Pumps.{handle_ws, register}
use walkie_talk_server.Api.Access.{client_ip, handle_keep_alive_webhook, valid_keep_alive_token}
use walkie_talk_server.Api.Supabase.{post_zone, Saved, saved, unavailable, refused}
use walkie_talk_server.Api.ZoneValues.{Library}
use walkie_talk_server.Api.Zones.{
  Zone, zone_map, outcome_of, list_zones, write_zone, answer_with, handle_zones, ZoneCall,
  post_zone_request, get_zones,
}
use walkie_talk_server.Api.ZoneChecks.{checked_zone-decides}
use walkie_talk_server.Api.Public.{
  cors, routes, Handler, ready, keep_alive, channels_list, all_zones, zone_by_id, web_socket,
  handle_channels,
}
use walkie_talk_server.Api.Serve.{
  Server, Call, zone_settings, serve_ready, serve_zones, serve_zone_by_id, serve_ws, dispatch,
  serve,
}

module _ (k : Text) (limit window : ℕ) (o : Outside) (s : RateStore) where
  -- A call with another key, if there is one.
  may-Use :
      (b : Bool) (key : Text) (most span : ℕ)
      → key ≢ k
      → Use k limit window s o.counted_at [] (if b then (check o key most span s).0 else s)
  may-Use true key most span d = other o key most span d
  may-Use false key most span d = unused o.counted_at

ZoneCall-cases :
    (z : ZoneCall) → (z ≡ list_zones) ⊎ (z ≡ write_zone) ⊎ ((status : ℕ) × (z ≡ answer_with status))
ZoneCall-cases list_zones = inl refl
ZoneCall-cases write_zone = inr (inl refl)
ZoneCall-cases (answer_with status) = inr (inr (status, refl))

-- Sessions are named sid_ and something.
module _ (g : Library) (l : Limits) (c : Config) (x : Text) (q : Call) (s : Server) where
  abbrev pub sid : Text
  sid = lit "sid_" ++ x

  abbrev pub ApiUse : Server → Type 0
  ApiUse s' =
      Use (voice_key sid) l.max_msg_rate l.msg_rate_window s.lobby.hub.rate q.outside.counted_at []
        s'.lobby.hub.rate

  -- A handler that calls the store with a key of its own, if it does.
  api-Use :
      (s' : Server) (b : Bool) (key : Text) (most span : ℕ)
      → key ≢ voice_key sid
      → s'.lobby.hub.rate
        ≡ (if b then (check q.outside key most span s.lobby.hub.rate).0 else s.lobby.hub.rate)
      → ApiUse s'
  api-Use s' b key most span d e =
      Use-eq (voice_key sid) l.max_msg_rate l.msg_rate_window s.lobby.hub.rate _ _
        q.outside.counted_at [] []
        (may-Use (voice_key sid) l.max_msg_rate l.msg_rate_window q.outside s.lobby.hub.rate b key
          most span d)
        refl (sym e)

  -- The first characters of the keys of the handlers are others.
  key-other : (a : ℕ) (key : Text) → a ≢ 115 → a ∷ key ≢ voice_key sid
  key-other a key d h = d (head-eq_of_cons-eq h)

  keep_alive-Use : ApiUse (dispatch g l c keep_alive q s).1
  unfolding dispatch handle_keep_alive_webhook
  keep_alive-Use =
      api-Use (dispatch g l c keep_alive q s).1
        (has q.request.method (lit "GET" ∷ lit "POST" ∷ lit "HEAD" ∷ [])
          && (is_empty c.keep_alive_token
              || valid_keep_alive_token g.unicode c.keep_alive_token q.request))
        (lit "keepalive:" ++ client_ip q.request) 180 60000000000 (key-other _ _ (omega arith))
        (ground arith)

  channels-Use : ApiUse (dispatch g l c channels_list q s).1
  unfolding dispatch handle_channels
  channels-Use =
      api-Use (dispatch g l c channels_list q s).1 (same q.request.method (lit "GET"))
        (lit "channels_read:" ++ client_ip q.request) c.max_zone_read_rate l.msg_rate_window
        (key-other _ _ (omega arith)) (ground arith)

  outcome_of-rate : (z : Zone) (rate : RateStore) (r : Saved) → (outcome_of z rate r).rate ≡ rate
  unfolding outcome_of
  outcome_of-rate z rate (saved i b) = refl
  outcome_of-rate z rate (unavailable e) = refl
  outcome_of-rate z rate (refused status b) = refl

  abbrev write_check : RateStore × Bool
  write_check =
      check q.outside (lit "zones_write:" ++ client_ip q.request) c.max_zone_write_rate
        l.msg_rate_window s.lobby.hub.rate

  post_zone-rate :
      (post_zone_request g
        (zone_settings l c)
        q.outside
        q.save
        q.random
        q.request
        q.body
        s.lobby.hub.rate).rate
      ≡ write_check.0
  unfolding post_zone_request zone_settings
  post_zone-rate = elim (Bool-cases write_check.1) [
    | inl e ↦ elim (checked_zone-decides g (zone_settings l c) q.random q.body) [
      | inl (z, p, v) ↦
          ground (arith, outcome_of-rate z write_check.0 (post_zone g.unicode q.save (zone_map z)))
      | inr (y, p, v) ↦ ground arith
    ]
    | inr e ↦ ground arith
  ]

  get_zones-rate :
      (get_zones g (zone_settings l c) q.outside q.find q.request s.lobby.hub.rate).2
      ≡ (check q.outside
          (lit "zones_read:" ++ client_ip q.request)
          c.max_zone_read_rate
          l.msg_rate_window
          s.lobby.hub.rate).0
  unfolding get_zones zone_settings
  get_zones-rate = ground arith

  zones-Use : ApiUse (serve_zones g l c q s).1
  unfolding serve_zones
  zones-Use = elim (ZoneCall-cases (handle_zones (zone_settings l c) q.request)) [
    | inl e ↦
        api-Use (serve_zones g l c q s).1 true (lit "zones_read:" ++ client_ip q.request)
          c.max_zone_read_rate l.msg_rate_window (key-other _ _ (omega arith))
          (rw (e, serve_zones) get_zones-rate)
    | inr (inl e) ↦
        api-Use (serve_zones g l c q s).1 true (lit "zones_write:" ++ client_ip q.request)
          c.max_zone_write_rate l.msg_rate_window (key-other _ _ (omega arith))
          (rw (e, serve_zones) post_zone-rate)
    | inr (inr (status, e)) ↦ rw (e, serve_zones) (unused q.outside.counted_at)
  ]

  zone_by_id-Use : ApiUse (serve_zone_by_id g l c q s).1
  unfolding serve_zone_by_id
  zone_by_id-Use = unused q.outside.counted_at

  ready-rate :
      s.lobby.hub.rate.has_redis ≡ false
      → (serve_ready g l c q s).1.lobby.hub.rate ≡ s.lobby.hub.rate
  unfolding serve_ready redis_ok
  ready-rate e = ground arith

  ws-rate : (serve_ws g l c q s).1.lobby.hub.rate ≡ s.lobby.hub.rate
  unfolding serve_ws handle_ws register
  ws-rate = ground arith

  same-Use : (s' : Server) → s'.lobby.hub.rate ≡ s.lobby.hub.rate → ApiUse s'
  same-Use s' e =
      subst
        (λ y.
          Use (voice_key sid) l.max_msg_rate l.msg_rate_window s.lobby.hub.rate q.outside.counted_at
            [] y)
        (sym e) (unused q.outside.counted_at)

  dispatch-Use :
      (h : Handler) → s.lobby.hub.rate.has_redis ≡ false → ApiUse (dispatch g l c h q s).1
  unfolding dispatch
  dispatch-Use ready e = same-Use (serve_ready g l c q s).1 (ready-rate e)
  dispatch-Use keep_alive e = keep_alive-Use
  dispatch-Use channels_list e = channels-Use
  dispatch-Use all_zones e = zones-Use
  dispatch-Use zone_by_id e = zone_by_id-Use
  dispatch-Use web_socket e = same-Use (serve_ws g l c q s).1 ws-rate
  dispatch-Use h e = unused q.outside.counted_at

  pub serve-Use : s.lobby.hub.rate.has_redis ≡ false → ApiUse (serve g l c q s).1
  unfolding serve
  serve-Use e = elim (Bool-cases (cors c.cors_origins q.request).is_passed_on) [
    | inl p ↦ rw p (dispatch-Use (routes q.request.path) e)
    | inr p ↦ rw p (unused q.outside.counted_at)
  ]
