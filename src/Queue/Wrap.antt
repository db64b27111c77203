-- ===== src/Queue/Wrap.antt =====
-- The counters of std/queue.h where the tail has gone round 2 ^ 16 and the head has not.
use shipwreck.Base.{◌+◌, ◌<◌, ◌≡◌, none, arith}
use shipwreck.Queue.{Message, SharedQueue, Others, ushort_mod, enqueue, enqueue_from}

-- The difference of the counters is not the number of messages once the tail has wrapped: while
-- it is more than one below a head of 16 bits, `enqueue` finds a queue of less than 2 ^ 16 slots
-- full, however few messages it holds and whatever other threads do, and leaves it as it is.
pub enqueue_wrapped :
    (others : Others) (msg : Message) (q : SharedQueue)
    → q.q_locked.tail + 1 < q.q_locked.head
    → q.q_locked.head < ushort_mod
    → q.max_size < ushort_mod
    → enqueue others msg q ≡ (none, q)
unfolding enqueue enqueue_from
enqueue_wrapped others msg q w h m = ground arith
