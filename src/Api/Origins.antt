-- ===== src/Api/Origins.antt =====
-- Who may read the responses of internal/api/server.go from a page of another origin, and open a
-- websocket from it.
use walkie_talk_server.Base.{
  ◌≡◌, ◌≢◌, ◌⊎◌, Bool, true, ◌||◌, List, [], ◌∷◌, some, Text, lit, is_empty, arith, Bool-cases, inl,
  inr,
}
use walkie_talk_server.Base.KeySet.{has}
use walkie_talk_server.Config.Load.{Config}
use walkie_talk_server.Realtime.State.{Limits}
use walkie_talk_server.Api.Access.{Request, origin_allowed}
use walkie_talk_server.Api.ZoneValues.{Library}
use walkie_talk_server.Api.Public.{any_origin, cors, Handler, all_zones, web_socket, routes}
use walkie_talk_server.Api.Serve.{
  Server, Call, upgraded, serve_ready, serve_zones, serve_zone_by_id, serve_ws, dispatch, serve,
}

abbrev pub origin_of : Request → Text
origin_of r = r.header (lit "Origin")

-- An origin of the list, or any if the list is `*` alone.
abbrev pub is_listed : List Text → Text → Bool
is_listed origins origin = any_origin origins || has origin origins

origin_allowed_lem :
    (origins : List Text) (origin : Text)
    → origin_allowed origins origin ≡ (is_empty origin || is_listed origins origin)
unfolding origin_allowed any_origin has
origin_allowed_lem [] origin = ground arith
origin_allowed_lem (o ∷ []) origin = ground arith
origin_allowed_lem (o ∷ p ∷ os) origin = ground arith

cors-origin :
    (origins : List Text) (r : Request) (a : Text)
    → (cors origins r).allow_origin ≡ some a
    → ((a ≡ lit "*") × (any_origin origins ≡ true))
      ⊎ ((a ≡ origin_of r) × (has (origin_of r) origins ≡ true))
unfolding cors
cors-origin origins r a h = elim (Bool-cases (any_origin origins)) [
  | inl e ↦ inl (ground (arith, origin_allowed_lem origins (origin_of r)), e)
  | inr e ↦ inr (
    ground (arith, origin_allowed_lem origins (origin_of r)),
    ground (arith, origin_allowed_lem origins (origin_of r)),
  )
]

module _ (g : Library) (l : Limits) (c : Config) (q : Call) (s : Server) (sid : Text) where
  ws-listed :
      (serve_ws g l c q s).0 ≡ upgraded sid
      → (is_empty (origin_of q.request) || is_listed c.cors_origins (origin_of q.request)) ≡ true
  unfolding serve_ws
  ws-listed h = ground (arith, origin_allowed_lem c.cors_origins (origin_of q.request))

  zones-closed : (serve_zones g l c q s).0 ≢ upgraded sid
  unfolding serve_zones
  zones-closed h = ground arith

  dispatch-listed :
      (h : Handler)
      → (dispatch g l c h q s).0 ≡ upgraded sid
      → (is_empty (origin_of q.request) || is_listed c.cors_origins (origin_of q.request)) ≡ true
  unfolding dispatch serve_ready serve_zone_by_id
  dispatch-listed all_zones e = absurd (zones-closed e)
  dispatch-listed web_socket e = ws-listed e
  dispatch-listed h e = ground arith

  serve-listed :
      (serve g l c q s).0 ≡ upgraded sid
      → (is_empty (origin_of q.request) || is_listed c.cors_origins (origin_of q.request)) ≡ true
  unfolding serve
  serve-listed h = elim (Bool-cases (cors c.cors_origins q.request).is_passed_on) [
    | inl p ↦ dispatch-listed (routes q.request.path) (rw p at h)
    | inr p ↦ ground arith
  ]

-- A page of another origin may read a response only if its origin is in CORS_ORIGINS or CORS_ORIGINS
-- is `*` alone: the response names that origin, or `*`. The server opens a websocket only for such a
-- page, or for a caller that names no origin.
pub serve-origins :
    (g : Library) (l : Limits) (c : Config) (q : Call) (s : Server) (a sid : Text)
    → ((cors c.cors_origins q.request).allow_origin ≡ some a
        → ((a ≡ lit "*") × (any_origin c.cors_origins ≡ true))
          ⊎ ((a ≡ origin_of q.request) × (has (origin_of q.request) c.cors_origins ≡ true)))
      × ((serve g l c q s).0 ≡ upgraded sid
          → (is_empty (origin_of q.request) || is_listed c.cors_origins (origin_of q.request))
            ≡ true)
serve-origins g l c q s a sid = (cors-origin c.cors_origins q.request a, serve-listed g l c q s sid)
