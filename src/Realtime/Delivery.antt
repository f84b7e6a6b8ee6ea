-- ===== src/Realtime/Delivery.antt =====
-- Who gets a message: Broadcast, BroadcastAll and Send of internal/realtime/hub.go.
use walkie_talk_server.Realtime.State.{Message, Queue, Core, Net, members_of}
use walkie_talk_server.Realtime.Send.{
  queue_size, enqueue, deliver, deliver_all, audience, broadcast, broadcast_all,
}
use walkie_talk_server.Base.{
  ◌≤◌, ◌≡◌, refl, Bool, not, ◌&&◌, ◌||◌, List, [], ◌∷◌, ◌++◌, Option, none, some, Text, text_dec,
  arith, leb, if◌then◌else◌, length, keep, length-append, Option-cases, inl, inr, ap,
}
use walkie_talk_server.Base.Dict.{lookup, lookup-insert}
use walkie_talk_server.Base.KeySet.{has, same, Distinct}

-- The queue of a client after one message for it.
abbrev pub queued : Message → Option Queue → Option Queue
queued m none = none
queued m (some q) = some (enqueue m q).0

-- One delivery changes one queue.
pub deliver-queues :
    (m : Message) (sid s : Text) (n : Net)
    → lookup s (deliver m sid n).queues
      ≡ (if same sid s then queued m (lookup s n.queues) else lookup s n.queues)
unfolding deliver enqueue
deliver-queues m sid s n = elim (Option-cases (lookup sid n.queues)) [
  | inl e ↦ ground arith
  | inr (q, e) ↦ ground (arith, lookup-insert sid s (enqueue m q).0 n.queues)
]

pub deliver-clients : (m : Message) (sid : Text) (n : Net) → (deliver m sid n).clients ≡ n.clients
unfolding deliver
deliver-clients m sid n = ground arith

pub deliver_all-clients :
    (m : Message) (sids : List Text) (n : Net) → (deliver_all m sids n).clients ≡ n.clients
unfolding deliver_all
deliver_all-clients m [] n = refl
deliver_all-clients m (sid ∷ sids) n =
    ground (arith, deliver_all-clients m sids (deliver m sid n), deliver-clients m sid n)

pub deliver_all-queues :
    (m : Message) (sids : List Text) (s : Text) (n : Net)
    → Distinct sids
    → lookup s (deliver_all m sids n).queues
      ≡ (if has s sids then queued m (lookup s n.queues) else lookup s n.queues)
unfolding deliver_all has
deliver_all-queues m [] s n d = refl
deliver_all-queues m (sid ∷ sids) s n d =
    ground (arith, deliver_all-queues m sids s (deliver m sid n) d.1, deliver-queues m sid s n)

has-keep : (p : Text → Bool) (s : Text) (xs : List Text) → has s (keep p xs) ≡ (p s && has s xs)
unfolding has
has-keep p s [] = ground arith
has-keep p s (x ∷ xs) = elim (text_dec x s) [
  | yes e ↦ ground (arith, has-keep p s xs, ap p e)
  | no e ↦ ground (arith, has-keep p s xs)
]

keep-Distinct : (p : Text → Bool) (xs : List Text) → Distinct xs → Distinct (keep p xs)
keep-Distinct p [] d = tt
keep-Distinct p (x ∷ xs) d = ground (arith, has-keep p x xs, keep-Distinct p xs)

-- A broadcast puts the message into the queue of each member of the room but the one to skip that
-- has a client, once, and changes no other queue and no client.
pub broadcast-queues :
    (room : Text) (m : Message) (skip : Text) (c : Core) (n : Net)
    → Distinct (members_of room c.rooms)
    → (s : Text)
    → let d = broadcast room m skip c n in
      (lookup s d.queues ≡ (
        if has s (members_of room c.rooms) && (not (same s skip) && has s n.clients)
        then queued m (lookup s n.queues)
        else lookup s n.queues))
      × (d.clients ≡ n.clients)
unfolding broadcast audience
broadcast-queues room m skip c n d s =
    let sids = members_of room c.rooms in
    let listens : Text → Bool = λ x. not (same x skip) && has x n.clients in
    (
      rw
          (
            deliver_all-queues m (keep listens sids) s n (keep-Distinct listens sids d),
            has-keep listens s sids,
          )
          (ground arith),
      deliver_all-clients m (keep listens sids) n,
    )

-- An accepted message stands at the end of the queue; a queue that is closed or holds 256 messages
-- stays as it is. No queue grows beyond 256.
pub enqueue_bounded :
    (m : Message) (q : Queue)
    → ((enqueue m q).1 ≡ not (q.closed || leb queue_size (length q.buffer)))
      × ((enqueue m q).0.closed ≡ q.closed)
      × ((enqueue m q).0.buffer ≡ (if (enqueue m q).1 then q.buffer ++ m ∷ [] else q.buffer))
      × (length q.buffer ≤ queue_size → length (enqueue m q).0.buffer ≤ queue_size)
unfolding enqueue
enqueue_bounded m q = ground (arith, length-append q.buffer (m ∷ []))

pub broadcast-clients :
    (room : Text) (m : Message) (skip : Text) (c : Core) (n : Net)
    → (broadcast room m skip c n).clients ≡ n.clients
unfolding broadcast
broadcast-clients room m skip c n = deliver_all-clients m (audience room skip c n) n

pub broadcast_all-clients : (m : Message) (n : Net) → (broadcast_all m n).clients ≡ n.clients
unfolding broadcast_all
broadcast_all-clients m n = deliver_all-clients m n.clients n
