-- ===== src/Api/Zones.antt =====
-- internal/api/server.go: the zones, in handleZones, getZones and postZone.
use walkie_talk_server.Base.{
  ℕ, Bool, true, false, not, ◌&&◌, ◌||◌, List, [], ◌∷◌, ◌++◌, Option, none, some, Text, lit,
  if◌then◌else◌, is_empty, take,
}
use walkie_talk_server.Base.KeySet.{same}
use walkie_talk_server.Util.Sanitize.{clean_device, clean_small_text, clean_room, clean_color}
use walkie_talk_server.Store.{RateStore, Outside, check}
use walkie_talk_server.Realtime.Secrets.{Random, random_id}
use walkie_talk_server.Json.{Value, string, number, boolean, null, Fields, get}
use walkie_talk_server.Api.Supabase.{
  Answer, is_success, is_supabase_schema_mismatch, Saved, saved, unavailable, refused, post_zone,
}
use walkie_talk_server.Api.Access.{Request, authorized, client_ip, device_id_from_request}
use walkie_talk_server.Api.ZoneValues.{
  Library, Settings, any_string, first_non_empty, any_bool, bounded_float, whole, negative,
}

-- The map `zone` of postZone, with one field for `radius` and `radius_m`, which have the same value.
pub record Zone : Type 0 where
  pub id : Text
  pub device_id : Text
  pub name : Text
  pub channel : Text
  pub lat : ℕ
  pub lng : ℕ
  pub radius : ℕ
  pub color : Text
  pub auto_join : Bool
  pub created_by : Text
  pub expires_at : Text

unfoldable pub zone_map : Zone → List (Text × Value)
zone_map z =
    (lit "id", string z.id)
    ∷ (lit "device_id", string z.device_id)
    ∷ (lit "name", string z.name)
    ∷ (lit "channel", string z.channel)
    ∷ (lit "lat", number z.lat)
    ∷ (lit "lng", number z.lng)
    ∷ (lit "radius", number z.radius)
    ∷ (lit "radius_m", number z.radius)
    ∷ (lit "color", string z.color)
    ∷ (lit "auto_join", boolean z.auto_join)
    ∷ (lit "created_by", string z.created_by)
    ∷ (lit "expires_at", string z.expires_at)
    ∷ []

unfoldable pub radius_of : Fields → Value
radius_of body = elim (get (lit "radius_m") body) [ null ↦ get (lit "radius") body | v ↦ v ]

unfoldable pub zone_id : Library → Random → Fields → Text
unfolding random_id
zone_id g r body =
    let id = clean_small_text (any_string g (get (lit "id") body)) 128 in
    if is_empty id then random_id (lit "zone_") r else id

-- The channel before and after its default.
unfoldable pub asked_channel : Library → Settings → Fields → Text
asked_channel g c body =
    let name = clean_small_text (any_string g (get (lit "name") body)) 80 in
    let channel = clean_room g.unicode (any_string g (get (lit "channel") body)) c.max_room_len in
    if is_empty channel && not (is_empty name)
    then clean_room g.unicode name c.max_room_len
    else channel

unfoldable pub zone_channel : Library → Settings → Fields → Text
zone_channel g c body =
    if is_empty (asked_channel g c body) then lit "ZONE" else asked_channel g c body

unfoldable pub zone_name : Library → Settings → Fields → Text
zone_name g c body =
    let name = clean_small_text (any_string g (get (lit "name") body)) 80 in
    if is_empty name then first_non_empty (asked_channel g c body ∷ lit "Zone" ∷ []) else name

unfoldable pub zone_expiry : Library → Settings → Fields → Text
zone_expiry g c body =
    let t = any_string g (get (lit "expires_at") body) in
    if is_empty t || not (g.is_rfc3339 t) then g.after c.zone_ttl else t

unfoldable pub zone_device : Library → Fields → Text
zone_device g body = clean_device (
    first_non_empty
      (any_string g (get (lit "device_id") body) ∷ any_string g (get (lit "deviceId") body) ∷ []))

-- The zone that postZone makes of a body that passes the checks.
unfoldable pub make_zone : Library → Settings → Random → Fields → ℕ → ℕ → ℕ → Zone
make_zone g c r body lat lng radius = record {
  id = zone_id g r body;
  device_id = zone_device g body;
  name = zone_name g c body;
  channel = zone_channel g c body;
  lat = lat;
  lng = lng;
  radius = radius;
  color = clean_color (any_string g (get (lit "color") body));
  auto_join = any_bool g (get (lit "auto_join") body) true;
  created_by = clean_small_text (any_string g (get (lit "created_by") body)) 80;
  expires_at = zone_expiry g c body;
}

pub data Checked : Type 0 where
  bad : Text → Checked
  good : Zone → Checked

-- json.NewDecoder(io.LimitReader(r.Body, 128*1024)).Decode(&body)
unfoldable pub decoded_body : Library → List ℕ → Option Fields
decoded_body g bytes = g.decode (take 131072 bytes)

-- The checks of postZone on a decoded body, and the zone that it makes.
unfoldable pub checked_fields : Library → Settings → Random → Option Fields → Checked
checked_fields g c r none = bad (lit "invalid JSON")
checked_fields g c r (some body) =
    if is_empty (zone_device g body)
    then bad (lit "device_id is required")
    else elim (bounded_float g (get (lit "lat") body) (negative g 90) (whole g 90)) [
      | none ↦ bad (lit "lat must be a number between -90 and 90")
      | some lat ↦ elim (bounded_float g (get (lit "lng") body) (negative g 180) (whole g 180)) [
        | none ↦ bad (lit "lng must be a number between -180 and 180")
        | some lng ↦ elim (bounded_float g (radius_of body) (whole g 10) (whole g 50000)) [
          | none ↦ bad (lit "radius must be a number between 10 and 50000 meters")
          | some radius ↦ good (make_zone g c r body lat lng radius)
        ]
      ]
    ]

unfoldable pub checked_zone : Library → Settings → Random → List ℕ → Checked
unfolding checked_fields decoded_body
checked_zone g c r bytes = checked_fields g c r (decoded_body g bytes)

-- A response, what all clients are told of, and the rate store.
pub record Outcome : Type 0 where
  pub status : ℕ
  pub error : Text
  pub told : Option Zone
  pub rate : RateStore

abbrev pub refuse : ℕ → Text → RateStore → Outcome
refuse status error rate = record { status = status; error = error; told = none; rate = rate }

unfoldable pub outcome_of : Zone → RateStore → Saved → Outcome
outcome_of z rate (saved i body) = record { status = 200; error = []; told = some z; rate = rate }
outcome_of z rate (unavailable e) = refuse 503 e rate
outcome_of z rate (refused status body) = refuse status body rate

-- The whole of postZone; what Supabase answers to a form of the zone is an argument.
module _ (g : Library) (c : Settings) (o : Outside) (ask : List (Text × Value) → Answer) where
  unfoldable pub post_zone_request : Random → Request → List ℕ → RateStore → Outcome
  unfolding outcome_of
  post_zone_request r q body rate =
      let k =
        check o (lit "zones_write:" ++ client_ip q) c.max_zone_write_rate c.msg_rate_window rate in
      if not k.1
      then refuse 429 (lit "Slow down — too many zone changes") k.0
      else elim (checked_zone g c r body) [
        | bad e ↦ refuse 400 e k.0
        | good z ↦ outcome_of z k.0 (post_zone g.unicode ask (zone_map z))
      ]

-- The query of getZones as keys and values, which url.Values encodes.
unfoldable pub zone_query : Text → Bool → List (Text × Text)
zone_query device ordered =
    (lit "select", lit "*")
    ∷ (lit "device_id", lit "eq." ++ device)
    ∷ (if ordered then (lit "order", lit "created_at.desc") ∷ [] else [])

-- The response of getZones: an error, no device, or the body that holds the zones.
pub data Found : Type 0 where
  failure : ℕ → Text → Found
  no_device : Found
  zones : Text → Found

unfoldable pub found_of : Answer → Found
found_of a = elim a.error [
  | some e ↦ failure 503 e
  | none ↦ if is_success a.status then zones a.body else failure a.status a.body
]

-- With each response the queries that were sent.
module _ (g : Library) (c : Settings) (o : Outside) (ask : List (Text × Text) → Answer) where
  unfoldable pub get_zones : Request → RateStore → Found × List (List (Text × Text)) × RateStore
  unfolding found_of
  get_zones q rate =
      let k =
        check o (lit "zones_read:" ++ client_ip q) c.max_zone_read_rate c.msg_rate_window rate in
      let device = device_id_from_request q in
      let first = zone_query device true in
      let second = zone_query device false in
      let a = ask first in
      if not k.1
      then (failure 429 (lit "Slow down — too many zone sync requests"), [], k.0)
      else if is_empty device
      then (no_device, [], k.0)
      else elim a.error [
        | some e ↦ (failure 503 e, first ∷ [], k.0)
        | none ↦
            if not (is_success a.status) && is_supabase_schema_mismatch g.unicode a.status a.body
            then (found_of (ask second), first ∷ second ∷ [], k.0)
            else (found_of a, first ∷ [], k.0)
      ]

-- What handleZones does with a request: the handler that it calls, or a status of its own.
pub data ZoneCall : Type 0 where
  list_zones : ZoneCall
  write_zone : ZoneCall
  answer_with : ℕ → ZoneCall

unfoldable pub handle_zones : Settings → Request → ZoneCall
handle_zones c q =
    if same q.method (lit "GET")
    then list_zones
    else if same q.method (lit "POST")
    then (if c.zone_write_requires_api_key && not (authorized c.public_api_key q)
        then answer_with 401
        else write_zone)
    else if same q.method (lit "OPTIONS")
    then answer_with 204
    else answer_with 405
