-- ===== src/Realtime/QualityBounds.antt =====
-- What is kept of the connection quality of a client in internal/realtime/hub.go, and its score.
use walkie_talk_server.Json.{Float64, ℤ, pos, negsuc}
use walkie_talk_server.Realtime.State.{QualityState}
use walkie_talk_server.Base.{
  ℕ, ◌-◌, ◌≤◌, Bool, true, false, List, [], ◌∷◌, ◌++◌, Text, arith, length, length-drop,
  Option-cases, inl, inr,
}
use walkie_talk_server.Base.Dict.{lookup, insert}
use walkie_talk_server.Base.Sort.{sort}
use walkie_talk_server.Realtime.Quality.{
  append_bounded, median_of, drop_percent, jitter_of, latency_score, drop_score, jitter_score,
  clamp_score, quality_score, expire_ping, answer,
}

length-append_bounded {ℓ} :
    {A : Type ℓ} (items : List A) (value : A) (max : ℕ)
    → length (append_bounded items value max) ≤ max
unfolding append_bounded
length-append_bounded items value max =
    let n = length (items ++ value ∷ []) in
    ground (arith, length-drop (n - max) (items ++ value ∷ []))

score_le :
    (f : Float64) (rtts : List ℕ) (cycles : List Bool) → (quality_score f rtts cycles).0 ≤ 100
unfolding quality_score
score_le f [] cycles = omega arith
score_le f (r ∷ rs) cycles =
    let s = sort f.less (r ∷ rs) in
    let total =
      f.plus (f.plus (latency_score f (median_of f s)) (drop_score f (drop_percent f cycles)))
        (jitter_score f (jitter_of f s)) in
    clamp_le f (f.to_int (f.round total))
  where
    clamp_le : (f : Float64) (z : ℤ) → clamp_score f z ≤ 100
    clamp_le f (pos n) = ground arith
    clamp_le f (negsuc n) = omega arith

-- What happens to the state of a client: a ping is sent, its timer ends, or a pong comes that many
-- milliseconds after the ping.
pub data Measure : Type 0 where
  pinged : Text → ℕ → Measure
  expired : Text → Measure
  answered : Text → (ℕ → ℕ) → Measure

unfoldable pub measure : Measure → QualityState → QualityState
measure (pinged nonce now) q = record q { pending = insert nonce now q.pending }
measure (expired nonce) q = expire_ping nonce q
measure (answered nonce rtt) q = answer nonce rtt q

unfoldable pub measures : List Measure → QualityState → QualityState
unfolding measure
measures [] q = q
measures (m ∷ ms) q = measures ms (measure m q)

abbrev IsShort : QualityState → Type 0
IsShort q = (length q.rtts ≤ 5) × (length q.cycles ≤ 5)

answer-IsShort :
    (nonce : Text) (rtt : ℕ → ℕ) (q : QualityState) → IsShort q → IsShort (answer nonce rtt q)
unfolding answer
answer-IsShort nonce rtt q h = (
  elim (Option-cases (lookup nonce q.pending)) [
    | inl e ↦ rw (e, answer) h.0
    | inr (sent, e) ↦ rw (e, answer) (length-append_bounded q.rtts (rtt sent) 5)
  ],
  ground (arith, h.1, length-append_bounded q.cycles true 5),
)

measure-IsShort : (m : Measure) (q : QualityState) → IsShort q → IsShort (measure m q)
unfolding measure expire_ping
measure-IsShort (pinged nonce now) q h = h
measure-IsShort (expired nonce) q h = ground (arith, h, length-append_bounded q.cycles false 5)
measure-IsShort (answered nonce rtt) q h = answer-IsShort nonce rtt q h

measures-IsShort : (ms : List Measure) (q : QualityState) → IsShort q → IsShort (measures ms q)
unfolding measures
measures-IsShort [] q h = h
measures-IsShort (m ∷ ms) q h = measures-IsShort ms (measure m q) (measure-IsShort m q h)

-- Whatever pings, timers and pongs come to a new client, at most five round trips and five outcomes
-- are kept, and the score is at most 100, for all float operations.
pub quality_bounds :
    (f : Float64) (ms : List Measure)
    → let q = measures ms (record { pending = []; rtts = []; cycles = [] }) in
      (length q.rtts ≤ 5) × (length q.cycles ≤ 5) × ((quality_score f q.rtts q.cycles).0 ≤ 100)
quality_bounds f ms =
    let q : QualityState = measures ms (record { pending = []; rtts = []; cycles = [] }) in
    let h =
      measures-IsShort ms (record { pending = []; rtts = []; cycles = [] })
        (omega arith, omega arith) in
    (h.0, h.1, score_le f q.rtts q.cycles)
