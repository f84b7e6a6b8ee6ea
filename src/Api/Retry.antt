-- ===== src/Api/Retry.antt =====
-- What the loops of internal/api/server.go come to: which request of supabaseRequestBody decides,
-- and which form of a zone.
use walkie_talk_server.Base.{
  ℕ, suc, ◌+◌, ◌-◌, ◌≡◌, refl, Bool, true, false, not, ◌&&◌, ◌||◌, List, [], ◌∷◌, ◌++◌, map, Option,
  none, some, Text, lit, ltb, if◌then◌else◌, is_empty, arith, ◌⊎◌, inl, inr, Option-cases, length,
  all, take,
}
use walkie_talk_server.Base.Dict.{lookup}
use walkie_talk_server.Base.KeySet.{has}
use walkie_talk_server.Json.{Value}
use walkie_talk_server.Util.Runes.{Unicode}
use walkie_talk_server.Api.Supabase.{
  Attempt, unmade, failed, replied, Answer, broken, retryable, pause, try_requests,
  supabase_request_body, copy_only, modern_keys, legacy_keys, zone_payload_variants,
  is_supabase_schema_mismatch, is_success, Saved, saved, unavailable, refusal, save_zone, post_zone,
}

-- No later request would be sent after this one, were there turns left.
abbrev pub is_final : Attempt → Bool
is_final (unmade e) = true
is_final (failed e) = false
is_final (replied code body) = not (retryable code)

abbrev pub answer_of : Attempt → Answer
answer_of (unmade e) = record { status = 0; body = []; error = some e }
answer_of (failed e) = record { status = 0; body = []; error = some e }
answer_of (replied code body) = record { status = code; body = body; error = none }

-- The attempt that decides: the first final one, or else the third.
abbrev pub last_attempt : (ℕ → Attempt) → ℕ
last_attempt net = if is_final (net 1) then 1 else if is_final (net 2) then 2 else 3

module _ (status_error : ℕ → Text) (net : ℕ → Attempt) where
  abbrev error_of : Attempt → Option Text
  error_of (unmade e) = some e
  error_of (failed e) = some e
  error_of (replied code body) = some (status_error code)

  -- One turn of the loop.
  turn :
      (left k : ℕ) (last : Option Text) (a : Attempt)
      → net k ≡ a
      → let r = try_requests status_error net left (suc k) (error_of a) in
        try_requests status_error net (suc left) k last
        ≡ (if is_final a || not (ltb k 3) then (answer_of a, []) else (r.0, pause k ∷ r.1))
  unfolding try_requests broken
  turn left k last (unmade e) h = ground arith
  turn left k last (failed e) h = ground arith
  turn left k last (replied code body) h = ground arith

  -- The result of a configured request is that of the first attempt that ends the loop, or of the
  -- third, with the pauses of 350 and 700 milliseconds that come before that attempt: at most three
  -- requests are sent.
  pub supabase_request_body-answer :
      (url key : Text)
      → (is_empty url || is_empty key) ≡ false
      → supabase_request_body status_error net url key ≡ (
        answer_of (net (last_attempt net)),
        take (last_attempt net - 1) (350000000 ∷ 700000000 ∷ []),
      )
  unfolding supabase_request_body pause
  supabase_request_body-answer url key h = ground (
    arith,
    turn 2 1 none (net 1) refl,
    turn 1 2 (error_of (net 1)) (net 2) refl,
    turn 0 3 (error_of (net 2)) (net 3) refl,
  )

-- The form of a zone with the listed keys has just these, each with what it is in the zone.
lookup-copy_only :
    (zone : List (Text × Value)) (k : Text) (ks : List Text)
    → lookup k (copy_only zone ks) ≡ (if has k ks then lookup k zone else none)
unfolding copy_only lookup has
lookup-copy_only zone k [] = refl
lookup-copy_only zone k (j ∷ ks) = elim (Option-cases (lookup j zone)) [
  | inl e ↦ ground (arith, lookup-copy_only zone k ks)
  | inr (v, e) ↦ ground (arith, lookup-copy_only zone k ks)
]

module _ (u : Unicode) (ask : List (Text × Value) → Answer) where
  -- The next form is tried: there was no error, no success, and the schema did not fit.
  abbrev pub passes_on : List (Text × Value) → Bool
  passes_on p =
      elim (ask p).error [ none ↦ true | some e ↦ false ]
      && (not (is_success (ask p).status)
          && is_supabase_schema_mismatch u (ask p).status (ask p).body)

  -- What the answer to form `n` comes to, if it is the last to be tried.
  abbrev pub outcome : ℕ → Answer → Saved
  outcome n a = elim a.error [
    | some e ↦ unavailable e
    | none ↦ if is_success a.status then saved n a.body else refusal a.status a.body
  ]

  save_zone-decided :
      (i status : ℕ) (body : Text) (before after : List (List (Text × Value)))
      (p : List (Text × Value))
      → all passes_on before ≡ true
      → passes_on p ≡ false
      → save_zone u ask i status body (before ++ p ∷ after)
        ≡ outcome (suc (length before + i)) (ask p)
  unfolding save_zone
  save_zone-decided i status body [] after p a e = elim (Option-cases (ask p).error) [
    | inl h ↦ ground arith
    | inr (x, h) ↦ ground arith
  ]
  save_zone-decided i status body (q ∷ before) after p a e =
      ground (arith, save_zone-decided (suc i) (ask q).status (ask q).body before after p)

  -- The last form decides, whatever its answer, if the ones before it passed on.
  save_zone-last :
      (i status : ℕ) (body : Text) (before : List (List (Text × Value))) (p : List (Text × Value))
      → all passes_on before ≡ true
      → save_zone u ask i status body (before ++ p ∷ []) ≡ outcome (suc (length before + i)) (ask p)
  unfolding save_zone
  save_zone-last i status body [] p a = elim (Option-cases (ask p).error) [
    | inl h ↦ ground arith
    | inr (x, h) ↦ ground arith
  ]
  save_zone-last i status body (q ∷ before) p a =
      ground (arith, save_zone-last (suc i) (ask q).status (ask q).body before p)

  -- The first form whose answer does not pass on decides how postZone ends: with its number if it is
  -- saved, with 503 or the answer's own status otherwise. If all four pass on, the last one decides.
  pub post_zone-decided :
      (zone : List (Text × Value)) (before after : List (List (Text × Value)))
      (p : List (Text × Value))
      → zone_payload_variants zone ≡ before ++ p ∷ after
      → all passes_on before ≡ true
      → (passes_on p ≡ false) ⊎ (after ≡ [])
      → post_zone u ask zone ≡ outcome (suc (length before)) (ask p)
  unfolding post_zone
  post_zone-decided zone before after p h a (inl e) =
      ground (arith, h, save_zone-decided 0 0 [] before after p a e)
  post_zone-decided zone before after p h a (inr e) =
      ground (arith, h, e, save_zone-last 0 0 [] before p a)

-- What a form of a zone has under each key: the first two all that a zone has but the other radius,
-- the last two neither the channel, nor auto_join, nor the maker.
pub zone_payload_variants-fields :
    (zone : List (Text × Value)) (k : Text)
    → map (lookup k) (zone_payload_variants zone)
      ≡ map
          (λ ks. if has k ks then lookup k zone else none)
          (modern_keys (lit "radius_m")
            ∷ modern_keys (lit "radius")
            ∷ legacy_keys (lit "radius_m")
            ∷ legacy_keys (lit "radius")
            ∷ [])
unfolding zone_payload_variants
zone_payload_variants-fields zone k =
    rw
      (
        lookup-copy_only zone k (modern_keys (lit "radius_m")),
        lookup-copy_only zone k (modern_keys (lit "radius")),
        lookup-copy_only zone k (legacy_keys (lit "radius_m")),
        lookup-copy_only zone k (legacy_keys (lit "radius")),
      )
      refl
