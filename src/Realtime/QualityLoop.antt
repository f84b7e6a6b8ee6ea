-- ===== src/Realtime/QualityLoop.antt =====
-- qualityLoop of internal/realtime/hub.go on the hub: a round, and what its timer does.
use walkie_talk_server.Json.{Float64}
use walkie_talk_server.Realtime.State.{quality_ping, Hub}
use walkie_talk_server.Realtime.Send.{send}
use walkie_talk_server.Realtime.Quality.{ping, expire_ping, update_of}
use walkie_talk_server.Base.{ℕ, none, some, Text}
use walkie_talk_server.Base.Dict.{lookup, insert}

-- A round of the loop: the ping, unless the client is gone.
unfoldable pub quality_round : Text → ℕ → Text → Hub → Hub
quality_round nonce now sid h = elim (ping nonce now sid h.core) [
  | none ↦ h
  | some c ↦ record h { core = c; net = send sid (quality_ping nonce) h.net }
]

-- Five seconds after a ping: it is lost if it is not answered, and the client gets its score.
unfoldable pub quality_timeout : Float64 → Text → Text → Hub → Hub
quality_timeout f nonce sid h = elim (lookup sid h.core.quality) [
  | none ↦ h
  | some q ↦
      let q' = expire_ping nonce q in
      record h {
        core = record h.core { quality = insert sid q' h.core.quality };
        net = send sid (update_of f q') h.net;
      }
]
