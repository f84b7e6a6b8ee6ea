-- ===== src/Api/Guards.antt =====
-- What the guards of the handlers in internal/api/server.go keep out.
use walkie_talk_server.Base.{
  ◌≡◌, ◌≢◌, Bool, true, false, not, ◌||◌, [], ◌∷◌, none, some, Text, lit, is_empty, arith, inl, inr,
  Option-cases,
}
use walkie_talk_server.Base.KeySet.{has}
use walkie_talk_server.Util.Runes.{Unicode, trim_space}
use walkie_talk_server.Store.{RateStore, Outside}
use walkie_talk_server.Api.Supabase.{Answer, is_success}
use walkie_talk_server.Api.Access.{
  Request, authorized, bearer_of, or_else, token_of, valid_keep_alive_token,
  handle_keep_alive_webhook, handle_zone_by_id, zone_id_of, device_id_from_request,
}

-- The keep-alive hook answers 401, before the rate is counted, to a call that carries the configured
-- token in none of its four places. The token is not empty and the method is one of the three.
pub keep_alive-refuses :
    (u : Unicode) (o : Outside) (token : Text) (r : Request) (rate : RateStore)
    → is_empty token ≡ false
    → has r.method (lit "GET" ∷ lit "POST" ∷ lit "HEAD" ∷ []) ≡ true
    → trim_space (r.header (lit "X-Keep-Alive-Token")) ≢ token
    → trim_space (r.header (lit "X-Webhook-Token")) ≢ token
    → bearer_of u r ≢ token
    → trim_space (r.query (lit "token")) ≢ token
    → handle_keep_alive_webhook u o token r rate ≡ (401, rate)
unfolding handle_keep_alive_webhook valid_keep_alive_token token_of or_else
keep_alive-refuses u o token r rate t m a b c d = ground arith

-- Clients are told of the deletion of a zone only if the request names a device and is allowed, and
-- Supabase answered with success when asked to delete the zone of the request for that device; then
-- the status is 200. A success need not mean that there was such a zone.
pub handle_zone_by_id-told :
    (delete_zone : Text → Text → Answer) (requires_key : Bool) (key : Text) (r : Request)
    (zone device : Text)
    → let d = handle_zone_by_id delete_zone requires_key key r in
      d.1 ≡ some (zone, device)
      → (d.0 ≡ 200)
        × (zone ≡ zone_id_of r)
        × (device ≡ device_id_from_request r)
        × (is_empty device ≡ false)
        × (r.method ≡ lit "DELETE")
        × ((not requires_key || authorized key r) ≡ true)
        × ((delete_zone zone device).error ≡ none)
        × (is_success (delete_zone zone device).status ≡ true)
unfolding handle_zone_by_id
handle_zone_by_id-told delete_zone requires_key key r zone device h =
    elim (Option-cases (delete_zone (zone_id_of r) (device_id_from_request r)).error) [
      | inl e ↦ ground arith
      | inr (x, e) ↦ ground arith
    ]
