-- ===== src/Tests/Api.antt =====
-- internal/api/server.go
use walkie_talk_server.Api.Supabase.{
  Attempt, failed, replied, Answer, supabase_request_body, is_success, retryable,
}
use walkie_talk_server.Api.Access.{
  Request, authorized, zone_id_of, device_id_from_request, client_ip, origin_allowed,
  handle_zone_by_id,
}
use walkie_talk_server.Api.Retry
use walkie_talk_server.Api.Guards
use walkie_talk_server.Util.Pieces.{split}
use walkie_talk_server.Util.Runes.{trim_space, has_prefix}
use walkie_talk_server.Util.Sanitize.{clean_small_text, clean_device}
use walkie_talk_server.Json.{Value, number, string}
use walkie_talk_server.Base.{
  ℕ, ◌≡◌, refl, true, false, not, ◌||◌, List, [], ◌∷◌, none, some, Text, lit, is_empty,
  if◌then◌else◌, text_dec, rune_len, ◌==◌,
}
use walkie_talk_server.Base.Dict.{lookup}

-- The first request fails, the second finds a busy server, the third is answered.
abbrev network : ℕ → Attempt
network attempt =
    if attempt == 1
    then failed (lit "refused")
    else if attempt == 2
    then replied 503 []
    else replied 200 (lit "[]")

abbrev status_text : ℕ → Text
status_text code = lit "Supabase HTTP"

supabase_request_body-answer_example :
    supabase_request_body status_text network (lit "https://db") (lit "key")
    ≡ (record { status = 200; body = lit "[]"; error = none }, 350000000 ∷ 700000000 ∷ [])
unfolding retryable
supabase_request_body-answer_example =
    Retry.supabase_request_body-answer status_text network (lit "https://db") (lit "key") refl

abbrev zone : List (Text × Value)
zone =
    (lit "id", string (lit "z1"))
    ∷ (lit "device_id", string (lit "d1"))
    ∷ (lit "radius", number 30)
    ∷ (lit "radius_m", number 30)
    ∷ (lit "auto_join", number 1)
    ∷ []

-- A table without the column radius_m.
abbrev old_table : List (Text × Value) → Answer
old_table form = elim (lookup (lit "radius_m") form) [
  | none ↦ record { status = 201; body = lit "[]"; error = none }
  | some v ↦ record { status = 400; body = lit "could not find radius_m"; error = none }
]

-- A call with the wrong token.
abbrev call : Request
call = record {
  method = lit "GET";
  path = lit "/webhook/keepalive";
  header = λ name. lit " wrong ";
  query = λ name. [];
  remote_addr = lit "10.0.0.1";
}

abbrev deletion : Request
deletion = record {
  method = lit "DELETE";
  path = lit "/zones/z1";
  header = λ name. [];
  query = λ name. lit "d1";
  remote_addr = lit "10.0.0.1";
}

abbrev deleted : Text → Text → Answer
deleted z d = record { status = 200; body = lit "[]"; error = none }

handle_zone_by_id-told_example :
    ((handle_zone_by_id deleted false [] deletion).0 ≡ 200)
    × (lit "z1" ≡ zone_id_of deletion)
    × (lit "d1" ≡ device_id_from_request deletion)
    × (is_empty (lit "d1") ≡ false)
    × (deletion.method ≡ lit "DELETE")
    × ((not false || authorized [] deletion) ≡ true)
    × ((deleted (lit "z1") (lit "d1")).error ≡ none)
    × (is_success (deleted (lit "z1") (lit "d1")).status ≡ true)
unfolding handle_zone_by_id zone_id_of clean_small_text has_prefix text_dec device_id_from_request
    clean_device rune_len is_success
handle_zone_by_id-told_example =
    Guards.handle_zone_by_id-told deleted false [] deletion (lit "z1") (lit "d1") refl

origin_run : origin_allowed (lit "https://a" ∷ []) (lit "https://b") ≡ false
unfolding origin_allowed text_dec
origin_run = refl

client_ip_run : client_ip (record call { header = λ name. lit "1.2.3.4, 5.6.7.8" }) ≡ lit "1.2.3.4"
unfolding client_ip trim_space split
client_ip_run = refl
