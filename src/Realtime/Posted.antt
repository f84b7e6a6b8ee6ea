-- ===== src/Realtime/Posted.antt =====
-- What Send, Broadcast and BroadcastAll of internal/realtime/hub.go post to a session, and what its
-- WritePump (internal/realtime/client.go) takes of it.
use mathlib.Core.List.{append_assoc, append-nil}
use walkie_talk_server.Realtime.State.{Message, Queue, Core, Net, members_of}
use walkie_talk_server.Realtime.Send.{enqueue, send, broadcast, broadcast_all, close_client_send}
use walkie_talk_server.Realtime.Delivery.{
  queued, deliver-queues, deliver-clients, deliver_all-queues, broadcast-queues, broadcast-clients,
  broadcast_all-clients,
}
use walkie_talk_server.Realtime.Pumps.{write_one}
use walkie_talk_server.Realtime.Fifo.{written, write_one-buffer}
use walkie_talk_server.Base.{
  ℕ, suc, ◌-◌, ◌≤◌, ◌≡◌, refl, sym, ap, subst, ◌∙◌, Bool, true, false, not, ◌&&◌, ◌||◌, List, [],
  ◌∷◌, ◌++◌, Option, none, some, Text, leb, length, length-append, if◌then◌else◌, arith,
  Option-cases, inl, inr,
}
use walkie_talk_server.Base.Dict.{lookup, insert, lookup-insert}
use walkie_talk_server.Base.KeySet.{has, same, Distinct}

-- Whom a message goes to: one session, the members of a room but one, or all clients.
pub data Address : Type 0 where
  one : Text → Address
  members : Core → Text → Text → Address
  everyone : Address

-- A message is posted, the queue of a client is closed, or WritePump of the session that is watched
-- takes what it writes.
pub data Post : Type 0 where
  posting : Address → Message → Post
  cutting : Text → Post
  writing : Post

unfoldable pub post : Address → Message → Net → Net
post (one sid) m n = send sid m n
post (members c room skip) m n = broadcast room m skip c n
post everyone m n = broadcast_all m n

abbrev write_turn : Text → Option Queue → Net → Net × List Message
write_turn s none n = (n, [])
write_turn s (some q) n =
    (record n { queues = insert s (write_one q).0 n.queues }, written (write_one q).1)

-- The queues after a post, and the messages that were written.
unfoldable pub run_post : Text → Post → Net → Net × List Message
unfolding post
run_post s (posting a m) n = (post a m n, [])
run_post s (cutting sid) n = (close_client_send sid n, [])
run_post s writing n = write_turn s (lookup s n.queues) n

unfoldable pub run_posts : Text → List Post → Net → Net × List Message
unfolding run_post
run_posts s [] n = (n, [])
run_posts s (p ∷ ps) n =
    let r = run_posts s ps (run_post s p n).0 in (r.0, (run_post s p n).1 ++ r.1)

-- The session is one of those that the message goes to.
abbrev pub is_meant : Text → List Text → Address → Bool
is_meant s clients (one sid) = same sid s && has sid clients
is_meant s clients (members c room skip) =
    has s (members_of room c.rooms) && (not (same s skip) && has s clients)
is_meant s clients everyone = has s clients

-- The messages that are meant for the session and come while its queue is open and holds fewer than
-- 256, by counting: so many wait at first, and the queue may be closed.
abbrev pub taken : Text → List Text → List Post → ℕ → Bool → List Message
taken s clients [] waiting closed = []
taken s clients (posting a m ∷ ps) waiting closed =
    let fits = is_meant s clients a && (not closed && not (leb 256 waiting)) in
    (if fits then m ∷ [] else [])
    ++ taken s clients ps (if fits then suc waiting else waiting) closed
taken s clients (cutting sid ∷ ps) waiting closed =
    taken s clients ps waiting (closed || same sid s)
taken s clients (writing ∷ ps) waiting closed = taken s clients ps (waiting - 1) closed

-- No room that a message goes to lists a session twice.
abbrev pub AllDistinct : List Post → Type 0
AllDistinct [] = Unit {0}
AllDistinct (posting (members c room skip) m ∷ ps) =
    Distinct (members_of room c.rooms) × AllDistinct ps
AllDistinct (p ∷ ps) = AllDistinct ps

post-clients : (a : Address) (m : Message) (n : Net) → (post a m n).clients ≡ n.clients
unfolding post send
post-clients (one sid) m n = ground (arith, deliver-clients m sid n)
post-clients (members c room skip) m n = broadcast-clients room m skip c n
post-clients everyone m n = broadcast_all-clients m n

abbrev IsOne : Address → Type 0
IsOne (members c room skip) = Distinct (members_of room c.rooms)
IsOne a = Unit {0}

post-queues :
    (s : Text) (a : Address) (m : Message) (n : Net)
    → Distinct n.clients
    → IsOne a
    → lookup s (post a m n).queues
      ≡ (if is_meant s n.clients a then queued m (lookup s n.queues) else lookup s n.queues)
unfolding post send broadcast_all
post-queues s (one sid) m n d i = ground (arith, deliver-queues m sid s n)
post-queues s (members c room skip) m n d i = (broadcast-queues room m skip c n i s).0
post-queues s everyone m n d i = deliver_all-queues m n.clients s n d

cut-queues :
    (s sid : Text) (n : Net) (q : Queue)
    → lookup s n.queues ≡ some q
    → (lookup s (close_client_send sid n).queues
        ≡ some (record q { closed = q.closed || same sid s }))
      × ((close_client_send sid n).clients ≡ n.clients)
unfolding close_client_send
cut-queues s sid n q e = elim (Option-cases (lookup sid n.queues)) [
  | inl k ↦ ground arith
  | inr (r, k) ↦ ground (arith, lookup-insert sid s (record r { closed = true }) n.queues)
]

-- The queue after a message that may be meant for the session.
offered :
    (b : Bool) (m : Message) (q : Queue) (o : Option Queue)
    → o ≡ some q
    → (if b then queued m o else o) ≡ some (if b then (enqueue m q).0 else q)
offered true m q o e = ap (queued m) e
offered false m q o e = e

offered-buffer :
    (b closed : Bool) (m : Message) (q : Queue) (waiting : ℕ)
    → length q.buffer ≡ waiting
    → q.closed ≡ closed
    → let fits = b && (not closed && not (leb 256 waiting)) in
      let r : Queue = if b then (enqueue m q).0 else q in
      (r.buffer ≡ q.buffer ++ (if fits then m ∷ [] else []))
      × (length r.buffer ≡ (if fits then suc waiting else waiting))
      × (r.closed ≡ closed)
unfolding enqueue
offered-buffer b closed m q waiting w c =
    ground (arith, w, c, length-append q.buffer (m ∷ []), append-nil q.buffer)

write_one-closed : (q : Queue) → (write_one q).0.closed ≡ q.closed
unfolding write_one
write_one-closed q = ground arith

write_one-length : (q : Queue) → length (write_one q).0.buffer ≡ length q.buffer - 1
unfolding write_one
write_one-length q = ground arith

-- The session's queue at the end, and that what was written, with what still waits, is what waited at
-- first and then what the queue has taken, where so many wait and the queue may be closed.
abbrev Got : Text → List Text → List Post → Net → Queue → ℕ → Bool → Type 0
Got s clients ps n q waiting closed =
    (q' : Queue) × (lookup s (run_posts s ps n).0.queues ≡ some q')
    × ((run_posts s ps n).1 ++ q'.buffer ≡ q.buffer ++ taken s clients ps waiting closed)
    × (waiting ≤ 256 → length q'.buffer ≤ 256)

joined :
    (w r b x t ms y : List Message)
    → w ++ x ≡ y ++ ms
    → r ++ b ≡ x ++ t
    → (w ++ r) ++ b ≡ y ++ (ms ++ t)
joined w r b x t ms y e k =
    append_assoc w r b
    ∙ ap (λ z. w ++ z) k
    ∙ sym (append_assoc w x t)
    ∙ ap (λ z. z ++ t) e
    ∙ append_assoc y ms t

AllDistinct-cases :
    (a : Address) (m : Message) (ps : List Post)
    → AllDistinct (posting a m ∷ ps)
    → IsOne a × AllDistinct ps
AllDistinct-cases (one sid) m ps d = (tt, d)
AllDistinct-cases (members c room skip) m ps d = d
AllDistinct-cases everyone m ps d = (tt, d)

module _ (s : Text) (clients : List Text) (d : Distinct clients) where
  got :
      (ps : List Post) (n : Net) (q : Queue) (waiting : ℕ) (closed : Bool)
      → lookup s n.queues ≡ some q
      → n.clients ≡ clients
      → length q.buffer ≡ waiting
      → q.closed ≡ closed
      → AllDistinct ps
      → Got s clients ps n q waiting closed
  unfolding run_posts run_post
  got [] n q waiting closed e k w c i = (q, e, sym (append-nil q.buffer), λ h. omega (arith, w, h))
  got (posting a m ∷ ps) n q waiting closed e k w c i =
      let b = is_meant s clients a in
      let fits = b && (not closed && not (leb 256 waiting)) in
      let (x, y, z) = offered-buffer b closed m q waiting w c in
      let (o, r) = AllDistinct-cases a m ps i in
      let p =
        subst
          (λ cs.
            lookup s (post a m n).queues
            ≡ (if is_meant s cs a then queued m (lookup s n.queues) else lookup s n.queues))
          k (post-queues s a m n (subst (λ cs. Distinct cs) (sym k) d) o) in
      let (q', l, t, f) =
        got ps (post a m n) (if b then (enqueue m q).0 else q)
          (if fits then suc waiting else waiting) closed (p ∙ offered b m q (lookup s n.queues) e)
          (post-clients a m n ∙ k) y z r in
      (
        q',
        l,
        joined [] (run_posts s ps (post a m n)).1 q'.buffer
            (if b then (enqueue m q).0 else q).buffer
            (taken s clients ps (if fits then suc waiting else waiting) closed)
            (if fits then m ∷ [] else []) q.buffer x t,
        λ h. f (ground arith),
      )
  got (cutting sid ∷ ps) n q waiting closed e k w c i =
      let (x, y) = cut-queues s sid n q e in
      got ps (close_client_send sid n) (record q { closed = q.closed || same sid s }) waiting
        (closed || same sid s) x (y ∙ k) w (ap (λ b. b || same sid s) c) i
  got (writing ∷ ps) n q waiting closed e k w c i =
      let q1 = (write_one q).0 in
      let n1 : Net = record n { queues = insert s q1 n.queues } in
      let (q', l, t, f) =
        got ps n1 q1 (waiting - 1) closed (ground (arith, lookup-insert s s q1 n.queues)) k
          (write_one-length q ∙ ap (λ x. x - 1) w) (write_one-closed q ∙ c) i in
      subst
        (λ o.
          (x : Queue) × (lookup s (run_posts s ps (write_turn s o n).0).0.queues ≡ some x)
          × (((write_turn s o n).1 ++ (run_posts s ps (write_turn s o n).0).1) ++ x.buffer
              ≡ q.buffer ++ taken s clients ps (waiting - 1) closed)
          × (waiting ≤ 256 → length x.buffer ≤ 256))
        (sym e)
        (
          q',
          l,
          joined (written (write_one q).1) (run_posts s ps n1).1 q'.buffer q1.buffer
              (taken s clients ps (waiting - 1) closed) [] q.buffer
              ((write_one-buffer q).0 ∙ sym (append-nil q.buffer)) t,
          λ h. f (omega (arith, h)),
        )

-- WritePump of a session writes, in order and each once, just those of the messages posted to it that
-- find its queue open and with fewer than 256 waiting, after what waited at first, and less what still
-- waits, whatever is posted to others and whichever queues are closed in between; and at most 256 wait
-- if so at first. Clients and rooms list a session once.
pub run_posts-taken :
    (s : Text) (ps : List Post) (n : Net) (q : Queue)
    → lookup s n.queues ≡ some q
    → Distinct n.clients
    → AllDistinct ps
    → let d = run_posts s ps n in
      (q' : Queue) × (lookup s d.0.queues ≡ some q')
      × (d.1 ++ q'.buffer ≡ q.buffer ++ taken s n.clients ps (length q.buffer) q.closed)
      × (length q.buffer ≤ 256 → length q'.buffer ≤ 256)
run_posts-taken s ps n q e d i =
    got s n.clients d ps n q (length q.buffer) q.closed e refl refl refl i
