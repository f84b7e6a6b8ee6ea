-- ===== src/Realtime/Only.antt =====
-- What the functions of internal/realtime/hub.go do to the queue of one client.
use walkie_talk_server.Realtime.State.{ScreenState, Failure, Message, Queue, Core, Net, Hub}
use walkie_talk_server.Realtime.Send.{
  enqueue, deliver, deliver_all, audience, broadcast, broadcast_all, close_client_send, send,
}
use walkie_talk_server.Realtime.Delivery.{queued, deliver-queues}
use walkie_talk_server.Realtime.Relay.{send-queues}
use walkie_talk_server.Realtime.Channels.{broadcast_channels_state}
use walkie_talk_server.Realtime.Join.{Check, refused, go_on}
use walkie_talk_server.Realtime.Fifo.{QueueOp, put, take_one, shut, queue_run}
use walkie_talk_server.Base.{
  subst, text_dec, if_pos, if_neg, ℕ, ◌≡◌, refl, sym, ap, ◌∙◌, Bool, true, false, List, [], ◌∷◌,
  ◌++◌, Option, none, some, Text, arith, if◌then◌else◌, Option-cases, inl, inr,
}
use walkie_talk_server.Base.Dict.{lookup, insert, lookup-insert}
use walkie_talk_server.Base.KeySet.{same}

abbrev pub applied : List QueueOp → Option Queue → Option Queue
applied ops none = none
applied ops (some q) = some (queue_run ops q).0

abbrev pub no_takes : List QueueOp → Bool
no_takes [] = true
no_takes (put m ∷ ops) = no_takes ops
no_takes (take_one ∷ ops) = false
no_takes (shut ∷ ops) = no_takes ops

-- The queue of a session changes by puts and closings only.
pub data Only (s : Text) (n n' : Net) : Type 0 where
  only :
      (ops : List QueueOp)
      → no_takes ops ≡ true
      → lookup s n'.queues ≡ applied ops (lookup s n.queues)
      → Only s n n'

no_takes-append :
    (xs ys : List QueueOp) → no_takes xs ≡ true → no_takes ys ≡ true → no_takes (xs ++ ys) ≡ true
no_takes-append [] ys h k = k
no_takes-append (put m ∷ xs) ys h k = no_takes-append xs ys h k
no_takes-append (take_one ∷ xs) ys h k = ground arith
no_takes-append (shut ∷ xs) ys h k = no_takes-append xs ys h k

pub queue_run-append :
    (xs ys : List QueueOp) (q : Queue)
    → (queue_run (xs ++ ys) q).0 ≡ (queue_run ys (queue_run xs q).0).0
unfolding queue_run
queue_run-append [] ys q = refl
queue_run-append (put m ∷ xs) ys q = queue_run-append xs ys (enqueue m q).0
queue_run-append (take_one ∷ xs) ys q = queue_run-append xs ys _
queue_run-append (shut ∷ xs) ys q = queue_run-append xs ys (record q { closed = true })

applied-append :
    (xs ys : List QueueOp) (o : Option Queue) → applied (xs ++ ys) o ≡ applied ys (applied xs o)
applied-append xs ys none = refl
applied-append xs ys (some q) = ap (λ x. some x) (queue_run-append xs ys q)

module _ {s : Text} where
  pub Only-refl : (n : Net) → Only s n n
  unfolding queue_run
  Only-refl n = only [] refl (nothing (lookup s n.queues))
    where
      nothing : (o : Option Queue) → o ≡ applied [] o
      nothing none = refl
      nothing (some q) = refl

  pub Only-trans : {a b c : Net} → Only s a b → Only s b c → Only s a c
  Only-trans {a} (only xs h p) (only ys k q) =
      only (xs ++ ys) (no_takes-append xs ys h k)
        (q ∙ ap (applied ys) p ∙ sym (applied-append xs ys (lookup s a.queues)))

  Only-queued :
      (m : Message) (b : Bool) (n n' : Net)
      → lookup s n'.queues ≡ (if b then queued m (lookup s n.queues) else lookup s n.queues)
      → Only s n n'
  unfolding queue_run
  Only-queued m true n n' h = only (put m ∷ []) refl (h ∙ one (lookup s n.queues))
    where
      one : (o : Option Queue) → queued m o ≡ applied (put m ∷ []) o
      one none = refl
      one (some q) = refl
  Only-queued m false n n' h = only [] refl (h ∙ nothing (lookup s n.queues))
    where
      nothing : (o : Option Queue) → o ≡ applied [] o
      nothing none = refl
      nothing (some q) = refl

  pub Only-send : (sid : Text) (m : Message) (n : Net) → Only s n (send sid m n)
  Only-send sid m n = Only-queued m _ n (send sid m n) (send-queues sid s m n)

  pub Only-deliver_all :
      (m : Message) (sids : List Text) (n : Net) → Only s n (deliver_all m sids n)
  unfolding deliver_all
  Only-deliver_all m [] n = Only-refl n
  Only-deliver_all m (sid ∷ sids) n =
      Only-trans (Only-queued m (same sid s) n (deliver m sid n) (deliver-queues m sid s n))
        (Only-deliver_all m sids (deliver m sid n))

  pub Only-broadcast :
      (room : Text) (m : Message) (skip : Text) (c : Core) (n : Net)
      → Only s n (broadcast room m skip c n)
  unfolding broadcast
  Only-broadcast room m skip c n = Only-deliver_all m (audience room skip c n) n

  pub Only-channels :
      (ttl now : ℕ) (c : Core) (n : Net) → Only s n (broadcast_channels_state ttl now c n)
  unfolding broadcast_channels_state broadcast_all
  Only-channels ttl now c n = Only-deliver_all _ n.clients n

  Only-shut :
      (sid : Text) (q : Queue) (n : Net)
      → lookup sid n.queues ≡ some q
      → Only s n (record n { queues = insert sid (record q { closed = true }) n.queues })
  unfolding queue_run
  Only-shut sid q n h =
      let l = lookup-insert sid s (record q { closed = true }) n.queues in
      elim (text_dec sid s) [
        | yes e ↦
            let here : lookup s n.queues ≡ some q = subst (λ x. lookup x n.queues ≡ some q) e h in
            only (shut ∷ []) refl (
              l
              ∙ if_pos (text_dec sid s) e (some (record q { closed = true })) (lookup s n.queues)
              ∙ sym (ap (applied (shut ∷ [])) here))
        | no e ↦ only [] refl (
            l
            ∙ if_neg (text_dec sid s) e (some (record q { closed = true })) (lookup s n.queues)
            ∙ nothing (lookup s n.queues))
      ]
    where
      nothing : (o : Option Queue) → o ≡ applied [] o
      nothing none = refl
      nothing (some q) = refl

  pub Only-close : (sid : Text) (n : Net) → Only s n (close_client_send sid n)
  unfolding close_client_send
  Only-close sid n = elim (Option-cases (lookup sid n.queues)) [
    | inl e ↦ rw (e, close_client_send) (Only-refl n)
    | inr (q, e) ↦ rw (e, close_client_send) (Only-shut sid q n e)
  ]

  pub Only-all : (m : Message) (n : Net) → Only s n (broadcast_all m n)
  unfolding broadcast_all
  Only-all m n = Only-deliver_all m n.clients n

  -- The list of clients does not matter.
  pub Only-clients :
      (cs : List Text) (n x : Net) → Only s (record n { clients = cs }) x → Only s n x
  Only-clients cs n x (only ops h p) = only ops h p

  -- Rules for what follows other changes.
  pub then-send : (sid : Text) (m : Message) (n x : Net) → Only s n x → Only s n (send sid m x)
  then-send sid m n x p = Only-trans p (Only-send sid m x)

  pub then-broadcast :
      (room : Text) (m : Message) (skip : Text) (c : Core) (n x : Net)
      → Only s n x
      → Only s n (broadcast room m skip c x)
  then-broadcast room m skip c n x p = Only-trans p (Only-broadcast room m skip c x)

  pub then-channels :
      (ttl now : ℕ) (c : Core) (n x : Net)
      → Only s n x
      → Only s n (broadcast_channels_state ttl now c x)
  then-channels ttl now c n x p = Only-trans p (Only-channels ttl now c x)

-- The same of hubs, under the tests and the splits that the handlers make.
pub data Sends (s : Text) (h h' : Hub) : Type 0 where
  sends : Only s h.net h'.net → Sends s h h'

module _ {s : Text} {h : Hub} where
  pub Sends-nothing : Sends s h h
  Sends-nothing = sends (Only-refl h.net)

  pub Sends-if : (b : Bool) (x y : Hub) → Sends s h x → Sends s h y → Sends s h (if b then x else y)
  Sends-if true x y p q = p
  Sends-if false x y p q = q

pub Sends-check :
    {s : Text} {h : Hub} (k : Check) (f : Failure → Hub) (x : Hub)
    → ((e : Failure) → Sends s h (f e))
    → Sends s h x
    → Sends s h (elim k [ refused e ↦ f e | go_on ↦ x ])
Sends-check (refused e) f x p q = p e
Sends-check go_on f x p q = q

pub Sends-screen :
    {s : Text} {h : Hub} (o : Option (Text × ScreenState)) (x : Hub) (f : Text → ScreenState → Hub)
    → Sends s h x
    → ((r : Text) (t : ScreenState) → Sends s h (f r t))
    → Sends s h (elim o [ none ↦ x | some (r, t) ↦ f r t ])
Sends-screen none x f p q = p
Sends-screen (some (r, t)) x f p q = q r t

pub Only-if :
    {s : Text} {n : Net} (b : Bool) (x y : Net)
    → Only s n x
    → Only s n y
    → Only s n (if b then x else y)
Only-if true x y p q = p
Only-if false x y p q = q
