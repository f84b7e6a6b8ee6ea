-- ===== src/Realtime/Writes.antt =====
-- WritePump of internal/realtime/client.go under every choice of its select.
use walkie_talk_server.Realtime.State.{Message, Queue}
use walkie_talk_server.Realtime.Pumps.{
  Outgoing, close_message, write_one, Choice, received, ticked, write_loop,
}
use walkie_talk_server.Realtime.Fifo.{written}
use walkie_talk_server.Base.{
  ℕ, suc, ◌<◌, length, ◌≡◌, refl, ap, Bool, true, false, ◌&&◌, List, [], ◌∷◌, ◌++◌, some, arith,
}

-- The messages among what goes to the websocket.
abbrev pub messages : List Outgoing → List Message
messages [] = []
messages (o ∷ os) = written (some o) ++ messages os

-- A close message is the last thing, and comes once the hub has closed the queue and it is empty.
abbrev pub IsClosing : List Outgoing → Queue → Type 0
IsClosing [] q = Unit {0}
IsClosing (close_message ∷ os) q = (os ≡ []) × (q.closed ≡ true) × (q.buffer ≡ [])
IsClosing (o ∷ os) q = IsClosing os q

-- Whatever the select of WritePump chooses and whichever writes fail: the messages that go to the
-- websocket, with those that still wait, are those that waited, in order; a close message is the last
-- thing and comes only when the hub has closed the queue and nothing waits any more.
pub write_loop-ordered :
    (cs : List Choice) (ms : List Message) (closed : Bool)
    → let q : Queue = record { buffer = ms; closed = closed } in
      let d = write_loop cs q in
      (messages d.1 ++ d.0.buffer ≡ ms) × (d.0.closed ≡ closed) × IsClosing d.1 d.0
unfolding write_loop write_one
write_loop-ordered [] ms closed = (refl, refl, tt)
write_loop-ordered (received ok ∷ cs) [] true = (refl, refl, (refl, refl, refl))
write_loop-ordered (received ok ∷ cs) [] false = write_loop-ordered cs [] false
write_loop-ordered (received true ∷ cs) (m ∷ ms) closed =
    let (a, b, c) = write_loop-ordered cs ms closed in (ap (λ x. m ∷ x) a, b, c)
write_loop-ordered (received false ∷ cs) (m ∷ ms) closed = (refl, refl, tt)
write_loop-ordered (ticked true ∷ cs) ms closed = write_loop-ordered cs ms closed
write_loop-ordered (ticked false ∷ cs) ms closed = (refl, refl, tt)

-- Each choice to receive takes a message, as long as all writes succeed, so that WritePump is done
-- after one more choice than messages wait, whatever pings come in between.
abbrev pub receives : List Choice → ℕ
receives [] = 0
receives (received ok ∷ cs) = suc (receives cs)
receives (ticked ok ∷ cs) = receives cs

abbrev pub all_ok : List Choice → Bool
all_ok [] = true
all_ok (received ok ∷ cs) = ok && all_ok cs
all_ok (ticked ok ∷ cs) = ok && all_ok cs

pub write_loop-drains :
    (cs : List Choice) (ms : List Message)
    → all_ok cs ≡ true
    → length ms < receives cs
    → let d = write_loop cs (record { buffer = ms; closed = true }) in
      (messages d.1 ≡ ms) × (d.0.buffer ≡ []) × (d.2 ≡ true)
unfolding write_loop write_one
write_loop-drains [] ms h n = absurd (omega arith)
write_loop-drains (received ok ∷ cs) [] h n = (refl, refl, refl)
write_loop-drains (received true ∷ cs) (m ∷ ms) h n =
    let (a, b, c) = write_loop-drains cs ms h (omega arith) in (ap (λ x. m ∷ x) a, b, c)
write_loop-drains (received false ∷ cs) (m ∷ ms) h n = ground arith
write_loop-drains (ticked true ∷ cs) ms h n = write_loop-drains cs ms h n
write_loop-drains (ticked false ∷ cs) ms h n = ground arith
