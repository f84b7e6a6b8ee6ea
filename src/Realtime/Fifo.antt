-- ===== src/Realtime/Fifo.antt =====
-- The queue between the hub and WritePump (internal/realtime/client.go and hub.go).
use mathlib.Core.List.{append_assoc, append-nil}
use walkie_talk_server.Realtime.State.{Message, Queue}
use walkie_talk_server.Realtime.Send.{queue_size, enqueue}
use walkie_talk_server.Realtime.Delivery.{enqueue_bounded}
use walkie_talk_server.Realtime.Pumps.{
  Outgoing, json_message, close_message, ping_message, write_one, write_pump,
}
use walkie_talk_server.Base.{
  ℕ, zero, suc, ◌≤◌, ◌<◌, ◌≡◌, refl, ap, sym, ◌∙◌, Bool, true, false, List, [], ◌∷◌, ◌++◌, map,
  Option, none, some, arith, length, if◌then◌else◌,
}

-- What happens to a queue: the hub puts a message, WritePump takes one, the hub closes it.
pub data QueueOp : Type 0 where
  put : Message → QueueOp
  take_one : QueueOp
  shut : QueueOp

abbrev pub written : Option Outgoing → List Message
written none = []
written (some (json_message m)) = m ∷ []
written (some close_message) = []
written (some ping_message) = []

-- The queue at the end, the messages that WritePump wrote, and those that enqueue accepted.
unfoldable pub queue_run : List QueueOp → Queue → Queue × List Message × List Message
queue_run [] q = (q, [], [])
queue_run (put m ∷ ops) q =
    let r = queue_run ops (enqueue m q).0 in (r.0, r.1, if (enqueue m q).1 then m ∷ r.2 else r.2)
queue_run (take_one ∷ ops) q =
    let r = queue_run ops (write_one q).0 in (r.0, written (write_one q).1 ++ r.1, r.2)
queue_run (shut ∷ ops) q = queue_run ops (record q { closed = true })

put_lem :
    (m : Message) (ms : List Message) {buffer l : List Message} (r : List Message) (e : Bool)
    → buffer ≡ (if e then ms ++ m ∷ [] else ms)
    → l ≡ buffer ++ r
    → l ≡ ms ++ (if e then m ∷ r else r)
put_lem m ms r true p q = q ∙ ap (λ b. b ++ r) p ∙ append_assoc ms (m ∷ []) r
put_lem m ms r false p q = q ∙ ap (λ b. b ++ r) p

pub write_one-buffer :
    (q : Queue)
    → (written (write_one q).1 ++ (write_one q).0.buffer ≡ q.buffer)
      × (length (write_one q).0.buffer ≤ length q.buffer)
unfolding write_one
write_one-buffer q = by_buffer q.buffer q.closed
  where
    by_buffer :
        (ms : List Message) (c : Bool)
        → let q' : Queue = record { buffer = ms; closed = c } in
          (written (write_one q').1 ++ (write_one q').0.buffer ≡ ms)
          × (length (write_one q').0.buffer ≤ length ms)
    by_buffer [] true = (refl, omega arith)
    by_buffer [] false = (refl, omega arith)
    by_buffer (m ∷ ms) c = (refl, omega arith)

-- What was written, with what still waits, is what waited at first with what was accepted since, in
-- the same order; and at most 256 messages wait, however puts, writes and a closing interleave.
pub queue_run-fifo :
    (ops : List QueueOp) (q : Queue)
    → length q.buffer ≤ queue_size
    → let r = queue_run ops q in
      (r.1 ++ r.0.buffer ≡ q.buffer ++ r.2) × (length r.0.buffer ≤ queue_size)
unfolding queue_run
queue_run-fifo [] q h = (sym (append-nil q.buffer), h)
queue_run-fifo (put m ∷ ops) q h =
    let (e1, e2, e3, e4) = enqueue_bounded m q in
    let (i, j) = queue_run-fifo ops (enqueue m q).0 (e4 h) in
    (put_lem m q.buffer (queue_run ops (enqueue m q).0).2 (enqueue m q).1 e3 i, j)
queue_run-fifo (take_one ∷ ops) q h =
    let (e, b) = write_one-buffer q in
    let (i, j) = queue_run-fifo ops (write_one q).0 (omega arith) in
    (
      append_assoc (written (write_one q).1) (queue_run ops (write_one q).0).1
            (queue_run ops (write_one q).0).0.buffer
          ∙ ap (λ r. written (write_one q).1 ++ r) i
          ∙ sym (
              append_assoc (written (write_one q).1) (write_one q).0.buffer
                (queue_run ops (write_one q).0).2)
          ∙ ap (λ r. r ++ (queue_run ops (write_one q).0).2) e,
      j,
    )
queue_run-fifo (shut ∷ ops) q h = queue_run-fifo ops (record q { closed = true }) h

-- Once the hub has closed a queue, WritePump writes all that waits, then a close message, and is done.
pub write_pump-drains :
    (ms : List Message) (n : ℕ)
    → length ms < n
    → let q : Queue = record { buffer = ms; closed = true } in
      write_pump n q
      ≡ (record { buffer = []; closed = true }, map json_message ms ++ close_message ∷ [])
unfolding write_pump write_one
write_pump-drains ms zero h = elim (not_below h) [ ]
  where
    not_below : length ms < 0 → ⊥
    not_below h = omega arith
write_pump-drains [] (suc n) h = refl
write_pump-drains (m ∷ ms) (suc n) h =
    ap (λ r. (r.0, json_message m ∷ r.1)) (write_pump-drains ms n (omega arith))
