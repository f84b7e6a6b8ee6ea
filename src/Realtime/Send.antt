-- ===== src/Realtime/Send.antt =====
-- Delivery in internal/realtime/hub.go: enqueue, closeClientSend, Send, Broadcast, BroadcastAll.
use walkie_talk_server.Realtime.State.{Message, Queue, Core, Net, members_of}
use walkie_talk_server.Base.{
  ℕ, Bool, true, false, not, ◌&&◌, ◌||◌, List, [], ◌∷◌, ◌++◌, none, some, Text, lit, leb, length,
  keep, if◌then◌else◌,
}
use walkie_talk_server.Base.Dict.{lookup, insert}
use walkie_talk_server.Base.KeySet.{has, same}

-- make(chan Envelope, 256)
abbrev pub queue_size : ℕ
queue_size = 256

-- A send on a closed channel panics, which is recovered.
unfoldable pub enqueue : Message → Queue → Queue × Bool
enqueue m q =
    if q.closed || leb queue_size (length q.buffer)
    then (q, false)
    else (record q { buffer = q.buffer ++ m ∷ [] }, true)

-- Closing a closed channel panics, which is recovered.
unfoldable pub close_client_send : Text → Net → Net
close_client_send sid n = elim (lookup sid n.queues) [
  | none ↦ n
  | some q ↦ record n { queues = insert sid (record q { closed = true }) n.queues }
]

-- The body of the loops and of Send: a client whose queue takes nothing is removed by a goroutine.
unfoldable pub deliver : Message → Text → Net → Net
unfolding enqueue
deliver m sid n = elim (lookup sid n.queues) [
  | none ↦ n
  | some q ↦
      if (enqueue m q).1
      then record n { queues = insert sid (enqueue m q).0 n.queues }
      else record n {
        removals = n.removals ++ record { sid = sid; reason = lit "slow_consumer" } ∷ [];
      }
]

unfoldable pub send : Text → Message → Net → Net
send sid m n = if has sid n.clients then deliver m sid n else n

unfoldable pub deliver_all : Message → List Text → Net → Net
deliver_all m [] n = n
deliver_all m (sid ∷ sids) n = deliver_all m sids (deliver m sid n)

-- The members but one that have a client, collected before anything is sent.
unfoldable pub audience : Text → Text → Core → Net → List Text
audience room skip c n =
    keep (λ sid. not (same sid skip) && has sid n.clients) (members_of room c.rooms)

unfoldable pub broadcast : Text → Message → Text → Core → Net → Net
unfolding audience
broadcast room m skip c n = deliver_all m (audience room skip c n) n

unfoldable pub broadcast_all : Message → Net → Net
broadcast_all m n = deliver_all m n.clients n
