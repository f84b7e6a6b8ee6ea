-- ===== src/Api/Access.antt =====
-- internal/api/server.go: who may call, and the handlers handleKeepAliveWebhook and handleZoneByID.
use walkie_talk_server.Base.{
  ℕ, Bool, not, ◌&&◌, ◌||◌, List, [], ◌∷◌, ◌++◌, map, Option, none, some, Text, lit, if◌then◌else◌,
  is_empty, drop, length,
}
use walkie_talk_server.Base.KeySet.{has, same}
use walkie_talk_server.Util.Runes.{Unicode, trim_space, to_lower, has_prefix}
use walkie_talk_server.Util.Sanitize.{clean_device, clean_small_text}
use walkie_talk_server.Store.{RateStore, Outside, check}
use walkie_talk_server.Util.Pieces.{split}
use walkie_talk_server.Api.Supabase.{Answer, is_success}

-- What the handlers read of an http.Request: Header.Get, and URL.Query().Get.
pub record Request : Type 0 where
  pub method : Text
  pub path : Text
  pub header : Text → Text
  pub query : Text → Text
  pub remote_addr : Text

unfoldable pub authorized : Text → Request → Bool
authorized public_api_key r =
    let h = r.header (lit "X-Api-Key") in
    let key = if is_empty h then r.query (lit "api_key") else h in
    is_empty public_api_key || same key public_api_key

unfoldable pub origin_allowed : List Text → Text → Bool
origin_allowed (o ∷ []) origin = is_empty origin || (same o (lit "*") || same origin o)
origin_allowed origins origin = is_empty origin || has origin origins

-- The token of an Authorization header, or the empty text.
unfoldable pub bearer_of : Unicode → Request → Text
bearer_of u r =
    let auth = trim_space (r.header (lit "Authorization")) in
    if has_prefix (lit "bearer ") (map (to_lower u) auth) then trim_space (drop 7 auth) else []

unfoldable pub or_else : Text → Text → Text
or_else s t = if is_empty s then t else s

unfoldable pub token_of : Unicode → Request → Text
unfolding or_else bearer_of
token_of u r =
    or_else
      (or_else
        (or_else (trim_space (r.header (lit "X-Keep-Alive-Token")))
          (trim_space (r.header (lit "X-Webhook-Token"))))
        (bearer_of u r))
      (trim_space (r.query (lit "token")))

unfoldable pub valid_keep_alive_token : Unicode → Text → Request → Bool
valid_keep_alive_token u keep_alive_token r =
    not (is_empty (token_of u r)) && same (token_of u r) keep_alive_token

unfoldable pub first_device : List Text → Text
first_device [] = []
first_device (v ∷ vs) =
    let rest = first_device vs in if is_empty (clean_device v) then rest else clean_device v

unfoldable pub device_id_from_request : Request → Text
unfolding first_device
device_id_from_request r = first_device (
    r.query (lit "device_id")
    ∷ r.query (lit "deviceId")
    ∷ r.header (lit "X-Device-Id")
    ∷ r.header (lit "X-WT-Device-Id")
    ∷ [])

unfoldable pub first_part : List Text → Text
first_part [] = []
first_part (p ∷ ps) = p

unfoldable pub client_ip : Request → Text
unfolding first_part
client_ip r =
    let forwarded = r.header (lit "X-Forwarded-For") in
    if is_empty forwarded then r.remote_addr else trim_space (first_part (split b',' forwarded))

-- The status of the response, and the rate store after it.
unfoldable pub handle_keep_alive_webhook :
    Unicode → Outside → Text → Request → RateStore → ℕ × RateStore
handle_keep_alive_webhook u o keep_alive_token r rate =
    let c = check o (lit "keepalive:" ++ client_ip r) 180 60000000000 rate in
    if not (has r.method (lit "GET" ∷ lit "POST" ∷ lit "HEAD" ∷ []))
    then (405, rate)
    else if not (is_empty keep_alive_token) && not (valid_keep_alive_token u keep_alive_token r)
    then (401, rate)
    else if not c.1
    then (429, c.0)
    else if same r.method (lit "HEAD")
    then (204, c.0)
    else (200, c.0)

-- strings.TrimPrefix(path, "/zones/")
unfoldable pub zone_id_of : Request → Text
zone_id_of r =
    let prefix = lit "/zones/" in
    clean_small_text (if has_prefix prefix r.path then drop (length prefix) r.path else r.path) 128

-- The status of the response, and the zone and device that all clients are told of. What Supabase
-- answers to the deletion of a zone of a device is an argument.
unfoldable pub handle_zone_by_id :
    (Text → Text → Answer) → Bool → Text → Request → ℕ × Option (Text × Text)
handle_zone_by_id delete_zone requires_key public_api_key r =
    let zone = zone_id_of r in
    let device = device_id_from_request r in
    let a = delete_zone zone device in
    if is_empty zone
    then (400, none)
    else if not (same r.method (lit "DELETE"))
    then (405, none)
    else if requires_key && not (authorized public_api_key r)
    then (401, none)
    else if is_empty device
    then (400, none)
    else elim a.error [
      | some e ↦ (503, none)
      | none ↦ if not (is_success a.status) then (a.status, none) else (200, some (zone, device))
    ]
