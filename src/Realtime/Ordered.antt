-- ===== src/Realtime/Ordered.antt =====
-- The hub of internal/realtime and the WritePump of one client together, among all other clients.
use mathlib.Core.List.{append_assoc, append-nil}
use walkie_talk_server.Json.{Runtime, Fields}
use walkie_talk_server.Realtime.State.{Limits, Message, Queue, Hub}
use walkie_talk_server.Realtime.Send.{queue_size, enqueue, send}
use walkie_talk_server.Realtime.Channels.{cleanup_expired_channels}
use walkie_talk_server.Realtime.Events.{Inputs, handle_event}
use walkie_talk_server.Realtime.Lifecycle.{add_client, remove_client, close}
use walkie_talk_server.Realtime.Pumps.{write_one}
use walkie_talk_server.Realtime.Fifo.{
  QueueOp, put, take_one, shut, written, queue_run, queue_run-fifo,
}
use walkie_talk_server.Realtime.Only.{
  Only-send, only, no_takes, applied, queue_run-append, Sends, sends,
}
use walkie_talk_server.Realtime.Order.{
  handle_event-Sends, remove_client-Sends, add_client-Sends, cleanup-Sends, close-Sends,
}
use walkie_talk_server.Base.{
  ℕ, ◌≤◌, ◌≡◌, refl, sym, ap, ap₂, subst, ◌∙◌, true, List, [], ◌∷◌, ◌++◌, Option, none, some, Text,
  length, arith,
}
use walkie_talk_server.Base.Dict.{lookup, insert, lookup-insert}

-- What may happen next: an event of any session, the removal of a client, a sweep, the registration
-- of a client, Close, a message that a goroutine sends (the quality loop, the answer of a chat), or
-- one turn of WritePump of the session that is watched.
pub data Turn : Type 0 where
  event : Inputs → Text → Text → Fields → Turn
  departure : ℕ → ℕ → Text → Text → Turn
  sweeping : ℕ → ℕ → Turn
  arrival : Text → Turn
  closing : Turn
  sending : Text → Message → Turn
  writing : Turn

module _ (l : Limits) (g : Runtime) (s : Text) where
  abbrev write_turn : Option Queue → Hub → Hub × List Message
  write_turn none h = (h, [])
  write_turn (some q) h = (
    record h { net = record h.net { queues = insert s (write_one q).0 h.net.queues } },
    written (write_one q).1,
  )

  -- The hub after a turn, and the messages of the session that were written.
  unfoldable pub run_turn : Turn → Hub → Hub × List Message
  run_turn (event o sid e fs) h = (handle_event l g o sid e fs h, [])
  run_turn (departure now shown_at sid reason) h = (remove_client l now shown_at sid reason h, [])
  run_turn (sweeping now shown_at) h =
      (cleanup_expired_channels l.channel_empty_ttl now shown_at h, [])
  run_turn (arrival sid) h = (add_client l sid h, [])
  run_turn closing h = (close h, [])
  run_turn (sending sid m) h = (record h { net = send sid m h.net }, [])
  run_turn writing h = write_turn (lookup s h.net.queues) h

  unfoldable pub run_turns : List Turn → Hub → Hub × List Message
  unfolding run_turn
  run_turns [] h = (h, [])
  run_turns (t ∷ ts) h = let r = run_turns ts (run_turn t h).0 in (r.0, (run_turn t h).1 ++ r.1)

no_takes-written : (ops : List QueueOp) (q : Queue) → no_takes ops ≡ true → (queue_run ops q).1 ≡ []
unfolding queue_run
no_takes-written [] q h = refl
no_takes-written (put m ∷ ops) q h = no_takes-written ops (enqueue m q).0 h
no_takes-written (take_one ∷ ops) q h = ground arith
no_takes-written (shut ∷ ops) q h = no_takes-written ops (record q { closed = true }) h

queue_run_written :
    (xs ys : List QueueOp) (q : Queue)
    → (queue_run (xs ++ ys) q).1 ≡ (queue_run xs q).1 ++ (queue_run ys (queue_run xs q).0).1
unfolding queue_run
queue_run_written [] ys q = refl
queue_run_written (put m ∷ xs) ys q = queue_run_written xs ys (enqueue m q).0
queue_run_written (take_one ∷ xs) ys q =
    ap (λ r. written (write_one q).1 ++ r) (queue_run_written xs ys (write_one q).0)
    ∙ sym (append_assoc (written (write_one q).1) (queue_run xs (write_one q).0).1 _)
queue_run_written (shut ∷ xs) ys q = queue_run_written xs ys (record q { closed = true })

-- The queue of the session, and what was written of it, come from a run of the queue alone.
abbrev Traced : Text → Queue → Hub × List Message → Type 0
Traced s q d =
    (ops : List QueueOp) × (lookup s d.0.net.queues ≡ some (queue_run ops q).0)
    × (d.1 ≡ (queue_run ops q).1)

Sends-Traced :
    (s : Text) (q : Queue) (h h' : Hub)
    → Sends s h h'
    → lookup s h.net.queues ≡ some q
    → Traced s q (h', [])
Sends-Traced s q h h' (sends (only ops k p)) e =
    (ops, p ∙ ap (applied ops) e, sym (no_takes-written ops q k))

module _ (l : Limits) (g : Runtime) (s : Text) where
  turn-Traced :
      (t : Turn) (h : Hub) (q : Queue)
      → lookup s h.net.queues ≡ some q
      → Traced s q (run_turn l g s t h)
  unfolding run_turn queue_run
  turn-Traced (event o sid e fs) h q p =
      Sends-Traced s q h _ (handle_event-Sends l g o sid fs h e) p
  turn-Traced (departure now shown_at sid reason) h q p =
      Sends-Traced s q h _ (remove_client-Sends l now shown_at sid reason h) p
  turn-Traced (sweeping now shown_at) h q p =
      Sends-Traced s q h _ (cleanup-Sends l.channel_empty_ttl now shown_at h) p
  turn-Traced (arrival sid) h q p = Sends-Traced s q h _ (add_client-Sends l sid h) p
  turn-Traced closing h q p = Sends-Traced s q h _ (close-Sends h) p
  turn-Traced (sending sid m) h q p =
      Sends-Traced s q h (record h { net = send sid m h.net }) (sends (Only-send sid m h.net)) p
  turn-Traced writing h q p =
      subst (λ o. Traced s q (write_turn l g s o h)) (sym p)
        (
          take_one ∷ [],
          ground (arith, lookup-insert s s (write_one q).0 h.net.queues),
          sym (append-nil (written (write_one q).1)),
        )

  turns-Traced :
      (ts : List Turn) (h : Hub) (q : Queue)
      → lookup s h.net.queues ≡ some q
      → Traced s q (run_turns l g s ts h)
  unfolding run_turns queue_run
  turns-Traced [] h q p = ([], p, refl)
  turns-Traced (t ∷ ts) h q p =
      let (xs, a, b) = turn-Traced t h q p in
      let (ys, c, d) = turns-Traced ts (run_turn l g s t h).0 (queue_run xs q).0 a in
      (
        xs ++ ys,
        c ∙ ap (λ x. some x) (sym (queue_run-append xs ys q)),
        ap₂ (λ x y. x ++ y) b d ∙ sym (queue_run_written xs ys q),
      )

  -- However the turns of all clients and of the hub come, what WritePump of the session writes, with
  -- what still waits, begins with what waited at first, and at most 256 wait.
  pub run_turns-ordered :
      (ts : List Turn) (h : Hub) (q : Queue)
      → lookup s h.net.queues ≡ some q
      → length q.buffer ≤ queue_size
      → let d = run_turns l g s ts h in
        (q' : Queue) × (accepted : List Message) × (lookup s d.0.net.queues ≡ some q')
        × (d.1 ++ q'.buffer ≡ q.buffer ++ accepted)
        × (length q'.buffer ≤ queue_size)
  run_turns-ordered ts h q p b =
      let (ops, a, w) = turns-Traced ts h q p in
      let (x, y) = queue_run-fifo ops q b in
      (
        (queue_run ops q).0,
        (queue_run ops q).2,
        a,
        ap (λ r. r ++ (queue_run ops q).0.buffer) w ∙ x,
        y,
      )
