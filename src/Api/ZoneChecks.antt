-- ===== src/Api/ZoneChecks.antt =====
-- What the checks of postZone in internal/api/server.go let through, and who is told of a zone.
use mathlib.Core.Option.{some-injective}
use walkie_talk_server.Base.{
  ℕ, ◌≡◌, refl, subst, ◌⊎◌, inl, inr, true, false, List, ◌++◌, Option, none, some, Text, lit, arith,
  is_empty, Bool-cases, Option-cases, take,
}
use walkie_talk_server.Store.{RateStore, Outside, check}
use walkie_talk_server.Realtime.Secrets.{Random}
use walkie_talk_server.Json.{Value, Fields, get}
use walkie_talk_server.Api.Supabase.{Answer, Saved, saved, unavailable, refused, post_zone}
use walkie_talk_server.Api.Access.{Request, client_ip}
use walkie_talk_server.Api.ZoneValues.{
  Library, Settings, is_within, bounded_float, whole, negative, to_float,
}
use walkie_talk_server.Api.Zones.{
  Zone, zone_map, radius_of, zone_device, make_zone, bad, good, checked_zone, checked_fields,
  decoded_body, outcome_of, post_zone_request,
}
use walkie_talk_server.Api.ZoneValid.{IsValid, make_zone-IsValid}

-- The value is no number that lies between the bounds.
abbrev pub IsOutside : Library → ℕ → ℕ → Value → Type 0
IsOutside g low high v = (f : ℕ) → to_float g v ≡ some f → is_within g low high f ≡ false

bounded_float-IsOutside :
    (g : Library) (v : Value) (low high : ℕ)
    → bounded_float g v low high ≡ none
    → IsOutside g low high v
unfolding bounded_float
bounded_float-IsOutside g v low high h f e = ground arith

-- Why postZone refuses a body.
abbrev pub IsRefused : Library → Option Fields → Type 0
IsRefused g none = Unit
IsRefused g (some body) =
    (is_empty (zone_device g body) ≡ true)
    ⊎ IsOutside g (negative g 90) (whole g 90) (get (lit "lat") body)
    ⊎ IsOutside g (negative g 180) (whole g 180) (get (lit "lng") body)
    ⊎ IsOutside g (whole g 10) (whole g 50000) (radius_of body)

bounded_float-within :
    (g : Library) (v : Value) (low high f : ℕ)
    → bounded_float g v low high ≡ some f
    → is_within g low high f ≡ true
unfolding bounded_float
bounded_float-within g v low high f h = ground arith

checked_fields-decides :
    (g : Library) (c : Settings) (r : Random) (body : Option Fields)
    → ((z : Zone) × (checked_fields g c r body ≡ good z) × IsValid g c z)
      ⊎ ((e : Text) × (checked_fields g c r body ≡ bad e) × IsRefused g body)
unfolding checked_fields
checked_fields-decides g c r none = inr (lit "invalid JSON", refl, tt)
checked_fields-decides g c r (some body) = elim (Bool-cases (is_empty (zone_device g body))) [
  | inl e ↦ inr (lit "device_id is required", rw e refl, inl e)
  | inr d ↦
      elim (Option-cases (bounded_float g (get (lit "lat") body) (negative g 90) (whole g 90))) [
        | inl e ↦ inr (
          lit "lat must be a number between -90 and 90",
          rw (d, e) refl,
          inr (inl (bounded_float-IsOutside g _ _ _ e)),
        )
        | inr (lat, p) ↦
            elim (Option-cases
              (bounded_float g (get (lit "lng") body) (negative g 180) (whole g 180))) [
                | inl e ↦ inr (
                  lit "lng must be a number between -180 and 180",
                  rw (d, p, e) refl,
                  inr (inr (inl (bounded_float-IsOutside g _ _ _ e))),
                )
                | inr (lng, q) ↦
                    elim (Option-cases
                      (bounded_float g (radius_of body) (whole g 10) (whole g 50000))) [
                        | inl e ↦ inr (
                          lit "radius must be a number between 10 and 50000 meters",
                          rw (d, p, q, e) refl,
                          inr (inr (inr (bounded_float-IsOutside g _ _ _ e))),
                        )
                        | inr (radius, s) ↦ inl (
                          make_zone g c r body lat lng radius,
                          rw (d, p, q, s),
                          make_zone-IsValid g c r body lat lng radius d
                              (bounded_float-within g _ _ _ lat p)
                              (bounded_float-within g _ _ _ lng q)
                              (bounded_float-within g _ _ _ radius s),
                        )
                      ]
              ]
      ]
]

-- The checks of postZone make a valid zone of the bytes of a body, or they refuse it, and only for one
-- of these reasons: its first 131072 bytes begin with neither a JSON object nor null, its device is
-- empty once cleaned, or its latitude, longitude or radius is no number within its bounds.
pub checked_zone-decides :
    (g : Library) (c : Settings) (r : Random) (bytes : List ℕ)
    → ((z : Zone) × (checked_zone g c r bytes ≡ good z) × IsValid g c z)
      ⊎ ((e : Text) × (checked_zone g c r bytes ≡ bad e)
          × IsRefused g (g.decode (take 131072 bytes)))
unfolding checked_zone decoded_body
checked_zone-decides g c r bytes = checked_fields-decides g c r (g.decode (take 131072 bytes))

outcome_of-told :
    (z' z : Zone) (rate : RateStore) (v : Saved)
    → (outcome_of z' rate v).told ≡ some z
    → (z' ≡ z) × ((outcome_of z' rate v).status ≡ 200) × ((i : ℕ) × (b : Text) × (v ≡ saved i b))
unfolding outcome_of
outcome_of-told z' z rate (saved i b) h = (some-injective z' z h, refl, (i, b, refl))
outcome_of-told z' z rate (unavailable e) h = ground arith
outcome_of-told z' z rate (refused status b) h = ground arith

pub post_zone_request-told :
    (g : Library) (c : Settings) (o : Outside) (ask : List (Text × Value) → Answer) (r : Random)
    (q : Request) (body : List ℕ) (rate : RateStore) (z : Zone)
    → let d = post_zone_request g c o ask r q body rate in
      d.told ≡ some z
      → (d.status ≡ 200)
        × IsValid g c z
        × ((i : ℕ) × (b : Text) × (post_zone g.unicode ask (zone_map z) ≡ saved i b))
unfolding post_zone_request
post_zone_request-told g c o ask r q body rate z h =
    let k =
      check o (lit "zones_write:" ++ client_ip q) c.max_zone_write_rate c.msg_rate_window rate in
    elim (Bool-cases k.1) [
      | inr e ↦ ground arith
      | inl e ↦ elim (checked_zone-decides g c r body) [
        | inr (x, p, w) ↦ ground arith
        | inl (z', p, v) ↦
            let (a, b, i) =
              outcome_of-told z' z k.0 (post_zone g.unicode ask (zone_map z')) (rw (e, p) at h) in
            (
              rw (e, p) b,
              subst (IsValid g c) a v,
              subst (λ y. (i : ℕ) × (b : Text) × (post_zone g.unicode ask (zone_map y) ≡ saved i b))
                  a i,
            )
      ]
    ]
