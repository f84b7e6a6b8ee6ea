-- ===== src/Server/Pinged.antt =====
-- The pings of cmd/server/main.go at the hook of internal/api/server.go, under the settings of
-- internal/config/config.go.
use walkie_talk_server.Base.{
  ◌≡◌, ◌⊎◌, ap, refl, true, false, [], ◌∷◌, ◌++◌, Text, lit, if◌then◌else◌, is_empty, arith,
  Bool-cases, inl, inr, text_dec,
}
use walkie_talk_server.Base.KeySet.{has, same}
use walkie_talk_server.Util.Runes.{Unicode, trim_space}
use walkie_talk_server.Util.Trim.{trim_space_idem}
use walkie_talk_server.Store.{RateStore, Outside, check}
use walkie_talk_server.Config.{Sources, env, without_newlines}
use walkie_talk_server.Json.{trim_quotes_left, trim_quotes_right}
use walkie_talk_server.Config.Load.{Config, load}
use walkie_talk_server.Api.Access.{
  or_else, token_of, valid_keep_alive_token, client_ip, handle_keep_alive_webhook,
}
use walkie_talk_server.Api.ZoneValues.{Library}
use walkie_talk_server.Api.Public.{cors, routes, keep_alive}
use walkie_talk_server.Api.Serve.{Server, Call, answered, serve, dispatch}
use walkie_talk_server.Realtime.State.{Limits}
use walkie_talk_server.Server.KeepAlive.{Address, ping, ping_header}

env-trimmed :
    (o : Sources) (key fallback : Text)
    → trim_space fallback ≡ fallback
    → trim_space (env o key fallback) ≡ env o key fallback
unfolding env
env-trimmed o key fallback h = ground (
  arith,
  trim_space_idem
      (without_newlines (trim_quotes_right (trim_quotes_left (trim_space (o.getenv key))))),
)

keep_alive_token-trimmed :
    (o : Sources) (random : Text)
    → trim_space (load o random).keep_alive_token ≡ (load o random).keep_alive_token
unfolding load trim_space
keep_alive_token-trimmed o random = env-trimmed o (lit "KEEP_ALIVE_TOKEN") [] refl

ping-token_of :
    (u : Unicode) (w : Address) (c : Config) (caller reason : Text)
    → is_empty c.keep_alive_token ≡ false
    → trim_space c.keep_alive_token ≡ c.keep_alive_token
    → token_of u (ping w c caller reason) ≡ c.keep_alive_token
unfolding token_of or_else ping ping_header text_dec
ping-token_of u w c caller reason e t = ground arith

ping-method :
    (w : Address) (c : Config) (caller reason : Text)
    → let m = (ping w c caller reason).method in
      (has m (lit "GET" ∷ lit "POST" ∷ lit "HEAD" ∷ []) ≡ true)
      × (same m (lit "HEAD") ≡ false)
      × (same m (lit "OPTIONS") ≡ false)
unfolding ping has text_dec
ping-method w c caller reason = (refl, refl, refl)

hook-routed :
    (path : Text)
    → (path ≡ lit "/webhook/keepalive") ⊎ (path ≡ lit "/hooks/keepalive")
    → routes path ≡ keep_alive
unfolding routes text_dec
hook-routed path (inl e) = rw e refl
hook-routed path (inr e) = rw e refl

hook-accepts :
    (v : Sources) (random : Text) (u : Unicode) (w : Address) (caller reason : Text) (o : Outside)
    (rate : RateStore)
    → let c = load v random in
      let r = ping w c caller reason in
      (handle_keep_alive_webhook u o c.keep_alive_token r rate).0
      ≡ (if (check o (lit "keepalive:" ++ client_ip r) 180 60000000000 rate).1 then 200 else 429)
unfolding handle_keep_alive_webhook valid_keep_alive_token text_dec
hook-accepts v random u w caller reason o rate =
    let c = load v random in
    let r = ping w c caller reason in
    elim (Bool-cases (is_empty c.keep_alive_token)) [
      | inl e ↦ ground (arith, ping-method w c caller reason)
      | inr e ↦ ground (
        arith,
        ping-method w c caller reason,
        ping-token_of u w c caller reason e (keep_alive_token-trimmed v random),
      )
    ]

-- With the settings that Load makes of any environment, a server that pings itself at one of the two
-- paths of its hook is never turned away for its method or its token: Routes and cors pass the ping
-- on, and the answer is 200 if the rate store lets it through, and 429 otherwise.
pub ping-accepted :
    (v : Sources) (random : Text) (g : Library) (l : Limits) (w : Address) (caller reason : Text)
    (q : Call) (s : Server)
    → let c = load v random in
      let r = ping w c caller reason in
      (r.path ≡ lit "/webhook/keepalive") ⊎ (r.path ≡ lit "/hooks/keepalive")
      → (serve g l c (record q { request = r }) s).0
        ≡ answered (
            if (check q.outside
              (lit "keepalive:" ++ client_ip r)
              180
              60000000000
              s.lobby.hub.rate).1
            then 200
            else 429)
unfolding serve dispatch cors
ping-accepted v random g l w caller reason q s e =
    let c = load v random in
    let r = ping w c caller reason in
    let passed : same r.method (lit "OPTIONS") ≡ false = (ping-method w c caller reason).2 in
    rw (passed, hook-routed r.path e)
      (ap answered (hook-accepts v random g.unicode w caller reason q.outside s.lobby.hub.rate))
