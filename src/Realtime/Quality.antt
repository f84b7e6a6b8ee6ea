-- ===== src/Realtime/Quality.antt =====
-- The connection quality in internal/realtime/hub.go: pings, pongs and the score. Numbers are float64
-- bit patterns under the operations of `Float64`.
use walkie_talk_server.Json.{Runtime, Float64, ℤ, pos, negsuc, string, Fields, get, round1}
use walkie_talk_server.Realtime.State.{QualityState, Core, Message, quality_update}
use walkie_talk_server.Base.{
  ℕ, ◌-◌, ◌/◌, ◌%◌, Bool, true, false, not, ◌&&◌, List, [], ◌∷◌, ◌++◌, Option, none, some, Text,
  lit, ltb, leb, ◌==◌, if◌then◌else◌, is_empty, length, drop, keep,
}
use walkie_talk_server.Base.Dict.{lookup, insert, remove}
use walkie_talk_server.Base.Sort.{sort}

-- appendBoundedFloat and appendBoundedBool
unfoldable pub append_bounded {ℓ} : {A : Type ℓ} → List A → A → ℕ → List A
append_bounded items value max =
    let items' = items ++ value ∷ [] in
    if ltb max (length items') then drop (length items' - max) items' else items'

module _ (f : Float64) where
  -- s[i], for an index in range
  unfoldable pub item : List ℕ → ℕ → ℕ
  item [] i = f.of_ℕ 0
  item (x ∷ xs) i = if i == 0 then x else item xs (i - 1)

  unfoldable pub median_of : List ℕ → ℕ
  unfolding item
  median_of s =
      if length s % 2 == 0
      then f.over (f.plus (item s (length s / 2 - 1)) (item s (length s / 2))) (f.of_ℕ 2)
      else item s (length s / 2)

  unfoldable pub sum : ℕ → List ℕ → ℕ
  sum acc [] = acc
  sum acc (v ∷ vs) = sum (f.plus acc v) vs

  unfoldable pub squares : ℕ → ℕ → List ℕ → ℕ
  squares mean acc [] = acc
  squares mean acc (v ∷ vs) = squares mean (f.plus acc (f.pow (f.minus v mean) (f.of_ℕ 2))) vs

  unfoldable pub mean_of : List ℕ → ℕ
  unfolding sum
  mean_of s = f.over (sum (f.of_ℕ 0) s) (f.of_ℕ (length s))

  unfoldable pub jitter_of : List ℕ → ℕ
  unfolding squares mean_of
  jitter_of s =
      if leb 2 (length s)
      then f.sqrt (f.over (squares (mean_of s) (f.of_ℕ 0) s) (f.of_ℕ (length s - 1)))
      else f.of_ℕ 0

  unfoldable pub drop_percent : List Bool → ℕ
  drop_percent cycles =
      if leb 1 (length cycles)
      then f.times (f.over (f.of_ℕ (length (keep not cycles))) (f.of_ℕ (length cycles)))
          (f.of_ℕ 100)
      else f.of_ℕ 0

  -- `50.0 - (median-100)/300*25` up to 400, `math.Max(0, 25-(median-400)/200*25)` above
  unfoldable pub latency_score : ℕ → ℕ
  latency_score m =
      if f.less (f.of_ℕ 100) m && f.less_eq m (f.of_ℕ 400)
      then f.minus (f.of_ℕ 50) (f.times (f.over (f.minus m (f.of_ℕ 100)) (f.of_ℕ 300)) (f.of_ℕ 25))
      else if f.less (f.of_ℕ 400) m
      then f.max (f.of_ℕ 0)
          (f.minus (f.of_ℕ 25) (f.times (f.over (f.minus m (f.of_ℕ 400)) (f.of_ℕ 200)) (f.of_ℕ 25)))
      else f.of_ℕ 50

  unfoldable pub drop_score : ℕ → ℕ
  drop_score d = f.max (f.of_ℕ 0) (f.minus (f.of_ℕ 30) (f.times (f.over d (f.of_ℕ 50)) (f.of_ℕ 30)))

  unfoldable pub jitter_score : ℕ → ℕ
  jitter_score j =
      if f.less (f.of_ℕ 20) j && f.less_eq j (f.of_ℕ 150)
      then f.minus (f.of_ℕ 20) (f.times (f.over (f.minus j (f.of_ℕ 20)) (f.of_ℕ 130)) (f.of_ℕ 10))
      else if f.less (f.of_ℕ 150) j
      then f.max (f.of_ℕ 0)
          (f.minus (f.of_ℕ 10) (f.times (f.over (f.minus j (f.of_ℕ 150)) (f.of_ℕ 100)) (f.of_ℕ 10)))
      else f.of_ℕ 20

  -- `if score < 0 { score = 0 }`, `if score > 100 { score = 100 }`
  unfoldable pub clamp_score : ℤ → ℕ
  clamp_score (pos n) = if ltb 100 n then 100 else n
  clamp_score (negsuc n) = 0

  -- Score, latency, drop percentage and jitter.
  unfoldable pub quality_score : List ℕ → List Bool → ℕ × ℕ × ℕ × ℕ
  unfolding clamp_score
  quality_score [] cycles = (100, f.of_ℕ 0, f.of_ℕ 0, f.of_ℕ 0)
  quality_score (r ∷ rs) cycles =
      let s = sort f.less (r ∷ rs) in
      let median = median_of s in
      let jitter = jitter_of s in
      let percent = drop_percent cycles in
      let total =
        f.plus (f.plus (latency_score median) (drop_score percent)) (jitter_score jitter) in
      (clamp_score (f.to_int (f.round total)), round1 f median, round1 f percent, round1 f jitter)

  -- The "quality_update" of a state.
  unfoldable pub update_of : QualityState → Message
  update_of q =
      let (score, rtt, percent, jitter) = quality_score q.rtts q.cycles in
      quality_update score rtt percent jitter

-- A round of qualityLoop, up to the send of the ping: none if the client is gone.
unfoldable pub ping : Text → ℕ → Text → Core → Option Core
ping nonce now sid c = elim (lookup sid c.quality) [
  | none ↦ none
  | some q ↦ some (record c {
    quality = insert sid (record q { pending = insert nonce now q.pending }) c.quality;
  })
]

-- The timer of a ping: a ping without an answer counts as lost.
unfoldable pub expire_ping : Text → QualityState → QualityState
expire_ping nonce q = elim (lookup nonce q.pending) [
  | none ↦ q
  | some t ↦ record q { pending = remove nonce q.pending; cycles = append_bounded q.cycles false 5 }
]

-- A pong that answers a pending ping; `rtt` is the time since the ping in milliseconds.
unfoldable pub answer : Text → (ℕ → ℕ) → QualityState → QualityState
answer nonce rtt q = elim (lookup nonce q.pending) [
  | none ↦ q
  | some sent ↦ record q {
    pending = remove nonce q.pending;
    rtts = append_bounded q.rtts (rtt sent) 5;
    cycles = append_bounded q.cycles true 5;
  }
]

-- `data["nonce"].(string)`, or the empty text
unfoldable pub nonce_of : Fields → Text
nonce_of fs = elim (get (lit "nonce") fs) [ string s ↦ s | _ ↦ [] ]

-- handleQualityPong: the state after it, and the message to the client if there is one. The time
-- since the ping is in whole milliseconds.
unfoldable pub handle_quality_pong : Runtime → ℕ → Text → Fields → Core → Core × Option Message
handle_quality_pong g now sid fs c =
    if is_empty (nonce_of fs) then (c, none) else elim (lookup sid c.quality) [
      | none ↦ (c, none)
      | some q ↦
          let q' = answer (nonce_of fs) (λ sent. g.float.of_ℕ ((now - sent) / 1000000)) q in
          (record c { quality = insert sid q' c.quality }, some (update_of g.float q'))
    ]
