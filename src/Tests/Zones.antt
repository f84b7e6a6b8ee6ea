-- ===== src/Tests/Zones.antt =====
-- internal/api/server.go: the zones
use walkie_talk_server.Api.Supabase.{Answer}
use walkie_talk_server.Api.Access.{Request}
use walkie_talk_server.Api.ZoneValues.{
  Library, Settings, any_string, first_non_empty, any_bool, bounded_float,
}
use walkie_talk_server.Api.Zones.{
  Zone, make_zone, zone_device, zone_id, zone_name, zone_channel, asked_channel, zone_expiry,
  radius_of, checked_zone, checked_fields, decoded_body, good, bad, get_zones, handle_zones,
  write_zone,
}
use walkie_talk_server.Api.ZoneChecks
use walkie_talk_server.Api.ZoneChecks.{IsRefused}
use walkie_talk_server.Api.ZoneValid.{IsValid}
use walkie_talk_server.Api.ZoneReads
use walkie_talk_server.Api.ZoneReads.{Reads}
use walkie_talk_server.Util.Runes.{trim_space}
use walkie_talk_server.Util.Sanitize.{clean_device, clean_small_text, clean_room, clean_color}
use walkie_talk_server.Json.{Value, number, string, Fields, field, no_fields, get}
use walkie_talk_server.Tests.Samples.{ascii, whole, store, outside_reads}
use walkie_talk_server.Base.{
  ℕ, ◌≡◌, ◌⊎◌, refl, true, false, List, [], none, some, Text, lit, text_dec, rune_len, ◌∷◌, take,
}
use walkie_talk_server.Base.Dict.{lookup}

-- The bytes of a body stand for one object, whatever they are.
abbrev body : Fields
body = field (lit "deviceId") (string (lit " d1 ")) (
    field (lit "name") (string (lit "home")) (
      field (lit "lat") (number 0)
        (field (lit "lng") (number 100) (field (lit "radius") (number 30) no_fields))))

abbrev pub bytes : List ℕ
bytes = 123 ∷ 125 ∷ []

abbrev pub library : Library
library = record {
  unicode = ascii;
  sprint = λ v. [];
  float = whole;
  is_nan = λ f. false;
  is_inf = λ f. false;
  parse_float = λ s. none;
  is_rfc3339 = λ s. false;
  after = λ d. lit "later";
  decode = λ bytes. elim bytes [ [] ↦ none | b ∷ bs ↦ some body ];
}

abbrev settings : Settings
settings = record {
  max_room_len = 40;
  zone_ttl = 60;
  max_zone_read_rate = 5;
  max_zone_write_rate = 5;
  msg_rate_window = 10;
  zone_write_requires_api_key = false;
  public_api_key = [];
}

abbrev home : Zone
home = record {
  id = lit "zone_fallback";
  device_id = lit "d1";
  name = lit "home";
  channel = lit "HOME";
  lat = 0;
  lng = 100;
  radius = 30;
  color = lit "#007aff";
  auto_join = true;
  created_by = [];
  expires_at = lit "later";
}

checked_zone_run : checked_zone library settings none bytes ≡ good home
unfolding checked_zone checked_fields decoded_body make_zone zone_device zone_id zone_name
    zone_channel asked_channel zone_expiry radius_of bounded_float any_string first_non_empty
    any_bool get text_dec clean_device clean_small_text clean_room clean_color trim_space rune_len
checked_zone_run = refl

checked_zone-decides_example :
    ((z : Zone) × (checked_zone library settings none bytes ≡ good z) × IsValid library settings z)
    ⊎ ((e : Text) × (checked_zone library settings none bytes ≡ bad e)
        × IsRefused library (library.decode (take 131072 bytes)))
checked_zone-decides_example = ZoneChecks.checked_zone-decides library settings none bytes

abbrev pub call : Request
call = record {
  method = lit "POST";
  path = lit "/zones";
  header = λ name. [];
  query = λ name. lit "d1";
  remote_addr = lit "10.0.0.1";
}

abbrev pub accepting : List (Text × Value) → Answer
accepting form = record { status = 201; body = lit "[]"; error = none }

-- The table has no column for the order.
abbrev unordered : List (Text × Text) → Answer
unordered query = elim (lookup (lit "order") query) [
  | none ↦ record { status = 200; body = lit "[]"; error = none }
  | some v ↦ record { status = 400; body = lit "column not found"; error = none }
]

get_zones-own_example :
    Reads unordered call (get_zones library settings outside_reads unordered call store)
get_zones-own_example = ZoneReads.get_zones-own library settings outside_reads unordered call store

handle_zones_run : handle_zones settings call ≡ write_zone
unfolding handle_zones text_dec
handle_zones_run = refl
