-- ===== src/Api/Supabase.antt =====
-- supabaseRequestBody and retryable of internal/api/server.go, and the loop of postZone that tries
-- one form of a zone after another.
use walkie_talk_server.Base.{
  ℕ, zero, suc, ◌+◌, ◌*◌, Bool, not, ◌&&◌, ◌||◌, List, [], ◌∷◌, map, Option, none, some, Text, lit,
  ltb, leb, ◌==◌, if◌then◌else◌, is_empty,
}
use walkie_talk_server.Base.Dict.{lookup}
use walkie_talk_server.Util.Runes.{Unicode, to_lower}
use walkie_talk_server.Util.Pieces.{contains}
use walkie_talk_server.Json.{Value}

-- What one turn of the loop finds: no request can be made, client.Do fails, or there is a status and
-- the start of a body.
pub data Attempt : Type 0 where
  unmade : Text → Attempt
  failed : Text → Attempt
  replied : ℕ → Text → Attempt

-- The three results of supabaseRequestBody; `none` is a nil error.
pub record Answer : Type 0 where
  pub status : ℕ
  pub body : Text
  pub error : Option Text

unfoldable pub broken : Option Text → Answer
broken e = record { status = 0; body = []; error = e }

unfoldable pub retryable : ℕ → Bool
retryable code =
    code == 408
    || code == 409
    || code == 425
    || code == 429
    || code == 500
    || code == 502
    || code == 503
    || code == 504

-- time.Duration(attempt) * 350 * time.Millisecond
unfoldable pub pause : ℕ → ℕ
pause attempt = attempt * 350000000

-- The loop with `left` turns to go, what it returns, and its pauses; `last` is lastErr. The text of
-- the error for a status is an argument.
module _ (status_error : ℕ → Text) (net : ℕ → Attempt) where
  unfoldable pub try_requests : ℕ → ℕ → Option Text → Answer × List ℕ
  unfolding broken pause
  try_requests zero attempt last = (broken last, [])
  try_requests (suc left) attempt last =
      let rest = λ (e : Text). try_requests left (suc attempt) (some e) in
      elim (net attempt) [
        | unmade e ↦ (broken (some e), [])
        | failed e ↦
            if ltb attempt 3
            then ((rest e).0, pause attempt ∷ (rest e).1)
            else (broken (some e), [])
        | replied code body ↦
            if retryable code && ltb attempt 3
            then ((rest (status_error code)).0, pause attempt ∷ (rest (status_error code)).1)
            else (record { status = code; body = body; error = none }, [])
      ]

  unfoldable pub supabase_request_body : Text → Text → Answer × List ℕ
  unfolding try_requests
  supabase_request_body url key =
      if is_empty url || is_empty key
      then (broken (some (lit "SUPABASE_URL/SUPABASE_KEY not configured")), [])
      else try_requests 3 1 none

-- copyOnly: the entries of the zone with these keys.
unfoldable pub copy_only : List (Text × Value) → List Text → List (Text × Value)
copy_only zone [] = []
copy_only zone (k ∷ ks) = elim (lookup k zone) [
  | none ↦ copy_only zone ks
  | some v ↦ (k, v) ∷ copy_only zone ks
]

unfoldable pub modern_keys : Text → List Text
modern_keys radius =
    lit "id"
    ∷ lit "device_id"
    ∷ lit "name"
    ∷ lit "channel"
    ∷ lit "lat"
    ∷ lit "lng"
    ∷ radius
    ∷ lit "color"
    ∷ lit "auto_join"
    ∷ lit "created_by"
    ∷ lit "expires_at"
    ∷ []

unfoldable pub legacy_keys : Text → List Text
legacy_keys radius =
    lit "id"
    ∷ lit "device_id"
    ∷ lit "name"
    ∷ lit "lat"
    ∷ lit "lng"
    ∷ radius
    ∷ lit "color"
    ∷ lit "expires_at"
    ∷ []

unfoldable pub zone_payload_variants : List (Text × Value) → List (List (Text × Value))
unfolding copy_only modern_keys legacy_keys
zone_payload_variants zone = map (copy_only zone) (
    modern_keys (lit "radius_m")
    ∷ modern_keys (lit "radius")
    ∷ legacy_keys (lit "radius_m")
    ∷ legacy_keys (lit "radius")
    ∷ [])

unfoldable pub is_supabase_schema_mismatch : Unicode → ℕ → Text → Bool
is_supabase_schema_mismatch u status body =
    let msg = map (to_lower u) body in
    (status == 400 || status == 404 || status == 409)
    && (contains msg (lit "schema cache")
        || (contains msg (lit "column")
            && (contains msg (lit "not exist") || contains msg (lit "not found")))
        || contains msg (lit "could not find"))

unfoldable pub is_success : ℕ → Bool
is_success status = leb 200 status && ltb status 300

-- How postZone ends: with the number of the form that was saved, with an error, or with the last
-- status and body.
pub data Saved : Type 0 where
  saved : ℕ → Text → Saved
  unavailable : Text → Saved
  refused : ℕ → Text → Saved

unfoldable pub refusal : ℕ → Text → Saved
refusal status body = refused (if status == 0 then 502 else status) body

-- The loop over the forms from number `i` on, with the status and body of the last answer.
module _ (u : Unicode) (ask : List (Text × Value) → Answer) where
  unfoldable pub save_zone : ℕ → ℕ → Text → List (List (Text × Value)) → Saved
  unfolding refusal
  save_zone i status body [] = refusal status body
  save_zone i status body (p ∷ ps) =
      let a = ask p in
      let rest = save_zone (suc i) a.status a.body ps in
      elim a.error [
        | some e ↦ unavailable e
        | none ↦
            if is_success a.status
            then saved (i + 1) a.body
            else if not (is_supabase_schema_mismatch u a.status a.body)
            then refusal a.status a.body
            else rest
      ]

  unfoldable pub post_zone : List (Text × Value) → Saved
  post_zone zone = save_zone 0 0 [] (zone_payload_variants zone)
