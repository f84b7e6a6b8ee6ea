-- ===== src/Api/Served.antt =====
-- What the server of internal/api/server.go does to the hub, and what its responses show.
use walkie_talk_server.Base.{
  ℕ, ◌≡◌, ◌≢◌, refl, Bool, true, not, ◌&&◌, ◌||◌, none, some, lit, arith, all, Bool-cases,
  Option-cases, inl, inr,
}
use walkie_talk_server.Util.Runes.{has_prefix}
use walkie_talk_server.Config.Load.{Config}
use walkie_talk_server.Realtime.State.{Limits, Message}
use walkie_talk_server.Realtime.Listing.{is_secret_free, channels_snapshot-listing}
use walkie_talk_server.Realtime.Status.{hub_stats}
use walkie_talk_server.Realtime.Pumps.{handle_ws, register}
use walkie_talk_server.Api.Access.{authorized, handle_zone_by_id}
use walkie_talk_server.Api.ZoneValues.{Library}
use walkie_talk_server.Api.Zones.{post_zone_request, handle_zones}
use walkie_talk_server.Api.ZoneChecks.{post_zone_request-told}
use walkie_talk_server.Api.Public.{
  Handler, ready, all_zones, zone_by_id, web_socket, routes, cors, handle_stats, handle_channels,
  handle_mapbox_config,
}
use walkie_talk_server.Api.Serve.{
  Server, Call, Response, shown_stats, shown_channels, shown_token, shown_zone, shown_deletion,
  told, tell, zone_settings, serve_ready, serve_zones, serve_zone_by_id, serve_ws, dispatch, serve,
}

-- The status of a response that tells all clients of something.
abbrev pub told_status : Response → ℕ
told_status (shown_zone status error z) = status
told_status (shown_deletion d) = d.0
told_status r = 0

module _ (g : Library) (l : Limits) (c : Config) (q : Call) (s : Server) where
  -- The part of the hub that a response leaves as it is, and what it makes of the queues.
  abbrev pub Kept : Response × Server → Type 0
  Kept d =
      (d.1.lobby.hub.core ≡ s.lobby.hub.core)
      × (d.1.lobby.hub.net ≡ tell (told d.0) s.lobby.hub.net)
      × (d.1.lobby.registering ≡ s.lobby.registering)
      × (d.1.lobby.unregistering ≡ s.lobby.unregistering)

  zones-Kept : Kept (serve_zones g l c q s)
  unfolding serve_zones told tell
  zones-Kept = ground arith

  zone_by_id-Kept : Kept (serve_zone_by_id g l c q s)
  unfolding serve_zone_by_id
  zone_by_id-Kept = ground arith

  ready-Kept : Kept (serve_ready g l c q s)
  unfolding serve_ready told tell
  ready-Kept = ground arith

  dispatch-Kept : (h : Handler) → h ≢ web_socket → Kept (dispatch g l c h q s)
  unfolding dispatch told tell
  dispatch-Kept ready e = ready-Kept
  dispatch-Kept all_zones e = zones-Kept
  dispatch-Kept zone_by_id e = zone_by_id-Kept
  dispatch-Kept web_socket e = absurd (e refl)
  dispatch-Kept h e = ground arith

  serve-Kept : routes q.request.path ≢ web_socket → Kept (serve g l c q s)
  unfolding serve told tell
  serve-Kept e = elim (Bool-cases (cors c.cors_origins q.request).is_passed_on) [
    | inl p ↦ rw p (dispatch-Kept (routes q.request.path) e)
    | inr p ↦ rw p (refl, refl, refl, refl)
  ]

  ws-core : (serve_ws g l c q s).1.lobby.hub.core ≡ s.lobby.hub.core
  unfolding serve_ws handle_ws register
  ws-core = ground arith

  dispatch-core : (h : Handler) → (dispatch g l c h q s).1.lobby.hub.core ≡ s.lobby.hub.core
  unfolding dispatch
  dispatch-core web_socket = ws-core
  dispatch-core h = (dispatch-Kept h (λ e. cc)).0

  -- No request changes the maps of the hub, not even a websocket.
  pub serve-core : (serve g l c q s).1.lobby.hub.core ≡ s.lobby.hub.core
  unfolding serve
  serve-core = elim (Bool-cases (cors c.cors_origins q.request).is_passed_on) [
    | inl p ↦ rw p (dispatch-core (routes q.request.path))
    | inr p ↦ rw p
  ]

  -- The call may change zones.
  abbrev pub MayWrite : Response → Type 0
  MayWrite r =
      (m : Message)
      → told r ≡ some m
      → ((not c.zone_write_requires_api_key || authorized c.public_api_key q.request) ≡ true)
        × (told_status r ≡ 200)

  zones-MayWrite : MayWrite (serve_zones g l c q s).0
  unfolding serve_zones told handle_zones zone_settings
  zones-MayWrite m h =
      let t = zone_settings l c in
      let rate = s.lobby.hub.rate in
      let d = post_zone_request g t q.outside q.save q.random q.request q.body rate in
      elim (Option-cases d.told) [
        | inl e ↦ ground arith
        | inr (z, e) ↦ ground (
          arith,
          (post_zone_request-told g t q.outside q.save q.random q.request q.body rate z e).0,
        )
      ]

  zone_by_id-MayWrite : MayWrite (serve_zone_by_id g l c q s).0
  unfolding serve_zone_by_id told handle_zone_by_id
  zone_by_id-MayWrite m h = ground arith

  ready-MayWrite : MayWrite (serve_ready g l c q s).0
  unfolding serve_ready told
  ready-MayWrite m h = ground arith

  ws-MayWrite : MayWrite (serve_ws g l c q s).0
  unfolding serve_ws told
  ws-MayWrite m h = ground arith

  dispatch-MayWrite : (h : Handler) → MayWrite (dispatch g l c h q s).0
  unfolding dispatch told
  dispatch-MayWrite ready m e = ready-MayWrite m e
  dispatch-MayWrite all_zones m e = zones-MayWrite m e
  dispatch-MayWrite zone_by_id m e = zone_by_id-MayWrite m e
  dispatch-MayWrite web_socket m e = ws-MayWrite m e
  dispatch-MayWrite h m e = ground arith

  -- A request that is no websocket changes no room, user, channel or screen, and the queues only by
  -- one message to all: that a zone is saved or deleted. Then the status is 200, and the request has
  -- the API key where zones need it.
  pub serve-hub :
      routes q.request.path ≢ web_socket → Kept (serve g l c q s) × MayWrite (serve g l c q s).0
  unfolding serve told
  serve-hub e = (
    serve-Kept e,
    elim (Bool-cases (cors c.cors_origins q.request).is_passed_on) [
      | inl p ↦ rw p (dispatch-MayWrite (routes q.request.path))
      | inr p ↦ rw p (λ m h. ground arith)
    ],
  )

  -- The lists of channels are free of the codes, the statistics are for those with the key, and the
  -- token does not start with `sk.`.
  abbrev pub is_discreet : Response → Bool
  is_discreet (shown_stats (status, some r)) =
      all is_secret_free r.hub.channels && authorized c.public_api_key q.request
  is_discreet (shown_channels (status, some r)) = all is_secret_free r.0
  is_discreet (shown_token t) = elim t.token [
    | none ↦ true
    | some k ↦ not (has_prefix (lit "sk.") k)
  ]
  is_discreet r = true

  zones-is_discreet : is_discreet (serve_zones g l c q s).0 ≡ true
  unfolding serve_zones
  zones-is_discreet = ground arith

  ws-is_discreet : is_discreet (serve_ws g l c q s).0 ≡ true
  unfolding serve_ws
  ws-is_discreet = ground arith

  dispatch-is_discreet : (h : Handler) → is_discreet (dispatch g l c h q s).0 ≡ true
  unfolding dispatch handle_stats hub_stats handle_channels handle_mapbox_config serve_ready
      serve_zone_by_id
  dispatch-is_discreet all_zones = zones-is_discreet
  dispatch-is_discreet web_socket = ws-is_discreet
  dispatch-is_discreet h =
      ground (arith, (channels_snapshot-listing c.channel_empty_ttl q.now s.lobby.hub.core).3)

  -- In no response of the server does a list of channels have an invite code, a PIN hash or the field
  -- with the session of the owner, only a request with the API key, where one is set, gets the
  -- statistics, and the token for the map is no secret one.
  pub serve-is_discreet : is_discreet (serve g l c q s).0 ≡ true
  unfolding serve
  serve-is_discreet = elim (Bool-cases (cors c.cors_origins q.request).is_passed_on) [
    | inl p ↦ rw p (dispatch-is_discreet (routes q.request.path))
    | inr p ↦ rw p
  ]
