-- ===== src/Api/ZoneReads.antt =====
-- Whose zones getZones of internal/api/server.go asks for.
use walkie_talk_server.Base.{
  text_dec, subst, sym, length, ◌≤◌, not, ◌&&◌, ◌≡◌, refl, inl, inr, Bool, true, false, List, [],
  ◌∷◌, ◌++◌, none, some, Text, lit, arith, is_empty, Bool-cases, Option-cases,
}
use walkie_talk_server.Base.Dict.{lookup}
use walkie_talk_server.Store.{RateStore, Outside, check}
use walkie_talk_server.Api.Supabase.{Answer, is_success, is_supabase_schema_mismatch}
use walkie_talk_server.Api.Access.{Request, device_id_from_request, client_ip}
use walkie_talk_server.Api.ZoneValues.{Library, Settings}
use walkie_talk_server.Api.Zones.{zone_query, Found, zones, failure, no_device, found_of, get_zones}

-- A query that was sent asks for the zones of the request's device, which is not empty.
abbrev pub IsOwn : Request → List (Text × Text) → Type 0
IsOwn r query =
    (lookup (lit "device_id") query ≡ some (lit "eq." ++ device_id_from_request r))
    × (is_empty (device_id_from_request r) ≡ false)

abbrev pub AllOwn : Request → List (List (Text × Text)) → Type 0
AllOwn r [] = Unit
AllOwn r (p ∷ ps) = IsOwn r p × AllOwn r ps

zone_query-IsOwn :
    (r : Request) (ordered : Bool)
    → is_empty (device_id_from_request r) ≡ false
    → IsOwn r (zone_query (device_id_from_request r) ordered)
unfolding zone_query lookup text_dec
zone_query-IsOwn r ordered h = (refl, h)

found_of-zones :
    (a : Answer) (body : Text)
    → found_of a ≡ zones body
    → (a.error ≡ none) × (is_success a.status ≡ true) × (a.body ≡ body)
unfolding found_of
found_of-zones a body h = elim (Option-cases a.error) [
  | inl e ↦ ground arith
  | inr (x, e) ↦ ground arith
]

-- The zones of a response come from a query that succeeded.
abbrev pub ComesFrom : (List (Text × Text) → Answer) → Request → Text → Type 0
ComesFrom ask r body =
    (query : List (Text × Text)) × IsOwn r query
    × ((ask query).error ≡ none)
    × (is_success (ask query).status ≡ true)
    × ((ask query).body ≡ body)

answer-ComesFrom :
    (ask : List (Text × Text) → Answer) (r : Request) (ordered : Bool) (body : Text)
    → is_empty (device_id_from_request r) ≡ false
    → found_of (ask (zone_query (device_id_from_request r) ordered)) ≡ zones body
    → ComesFrom ask r body
answer-ComesFrom ask r ordered body h e =
    let q = zone_query (device_id_from_request r) ordered in
    let (a, b, c) = found_of-zones (ask q) body e in (q, zone_query-IsOwn r ordered h, a, b, c)

abbrev pub Reads :
    (List (Text × Text) → Answer) → Request → Found × List (List (Text × Text)) × RateStore → Type 0
Reads ask r d =
    AllOwn r d.1 × (length d.1 ≤ 2) × ((body : Text) → d.0 ≡ zones body → ComesFrom ask r body)

by_result :
    (ask : List (Text × Text) → Answer) (r : Request)
    (d : Found × List (List (Text × Text)) × RateStore) (f : Found)
    (queries : List (List (Text × Text))) (rate : RateStore)
    → d ≡ (f, queries, rate)
    → AllOwn r queries
    → length queries ≤ 2
    → ((body : Text) → f ≡ zones body → ComesFrom ask r body)
    → Reads ask r d
by_result ask r d f queries rate e p q h = subst (Reads ask r) (sym e) (p, q, h)

-- Every query that is sent asks for the zones of the device that the request names, and the zones of
-- a response are the body of such a query that succeeded; at most two queries are sent.
pub get_zones-own :
    (g : Library) (c : Settings) (o : Outside) (ask : List (Text × Text) → Answer) (r : Request)
    (rate : RateStore)
    → Reads ask r (get_zones g c o ask r rate)
unfolding get_zones
get_zones-own g c o ask r rate =
    let device = device_id_from_request r in
    let k =
      check o (lit "zones_read:" ++ client_ip r) c.max_zone_read_rate c.msg_rate_window rate in
    let first = zone_query device true in
    let second = zone_query device false in
    let a = ask first in
    let slow = failure 429 (lit "Slow down — too many zone sync requests") in
    let d = get_zones g c o ask r rate in
    elim (Bool-cases k.1) [
      | inr e ↦ by_result ask r d slow [] k.0 (rw e) tt (omega arith) (λ body h. ground arith)
      | inl e ↦ elim (Bool-cases (is_empty device)) [
        | inl f ↦
            by_result ask r d no_device [] k.0 (rw (e, f)) tt (omega arith) (λ body h. ground arith)
        | inr f ↦ elim (Option-cases a.error) [
          | inl x ↦
              let again =
                not (is_success a.status)
                && is_supabase_schema_mismatch g.unicode a.status a.body in
              elim (Bool-cases again) [
                | inl y ↦
                    by_result ask r d (found_of (ask second)) (first ∷ second ∷ []) k.0
                      (rw (e, f, x, y))
                      (zone_query-IsOwn r true f, (zone_query-IsOwn r false f, tt)) (omega arith)
                      (λ body h. answer-ComesFrom ask r false body f h)
                | inr y ↦
                    by_result ask r d (found_of a) (first ∷ []) k.0 (simp (e, f, x, y))
                      (zone_query-IsOwn r true f, tt) (omega arith)
                      (λ body h. answer-ComesFrom ask r true body f h)
              ]
          | inr (v, x) ↦
              by_result ask r d (failure 503 v) (first ∷ []) k.0 (rw (e, f, x))
                (zone_query-IsOwn r true f, tt) (omega arith) (λ body h. ground arith)
        ]
      ]
    ]
