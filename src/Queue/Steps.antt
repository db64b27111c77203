-- ===== src/Queue/Steps.antt =====
-- The first two steps of a worker (system/events.cpp) on a queue of std/queue.h that it has to
-- itself: `gather_new_data` and `dequeue`.
use shipwreck.Base.{
  ℕ, suc, ◌+◌, ◌-◌, ◌%◌, ◌≡◌, sym, ap, ap₂, subst, ◌∙◌, true, false, List, arith, length, drop,
  if◌then◌else◌, ltb, ◌==◌,
}
use shipwreck.Queue.{
  Message, QueueRange, SharedQueue, ushort_mod, distance, gather_new_data, gather_from,
  dequeue_from, same_range,
}
use shipwreck.Queue.Window.{window, Filled, gather_from-Filled, drop-window, Filled-drop}
use shipwreck.Queue.Shared.{Holds, alone}

-- After `gather_new_data` every message is in the safe range.
unfoldable pub gathered : SharedQueue → SharedQueue
gathered q = record q { q_safe = record (q.q_safe) { tail = q.q_locked.tail }; safe_tail_mtx = 0 }

pub gather_new_data-gathered :
    (q : SharedQueue) (items : List Message) → Holds q items → gather_new_data q ≡ gathered q
unfolding gather_new_data gathered
gather_new_data-gathered q items h =
    rw (h.unlocked.0, gather_new_data)
      (ap (λ t. record q { q_safe = record (q.q_safe) { tail = t }; safe_tail_mtx = 0 }) moved)
  where
    n : ℕ
    n = q.q_locked.tail - q.q_safe.tail

    ready : ℕ
    ready = q.q_safe.tail - q.q_safe.head

    size : distance q.q_locked.tail q.q_safe.tail ≡ n
    size = omega (arith, h.order, h.small.0)

    rest : Filled (window q.slots q.max_size q.q_safe.tail n)
    rest =
        subst Filled
          (ap (drop ready) (sym h.stored)
            ∙ drop-window q.slots q.max_size q.q_safe.head ready (length items)
                (omega (arith, h.order, h.count))
            ∙ ap₂ (window q.slots q.max_size)
                (let e : q.q_safe.head + ready ≡ q.q_safe.tail = omega (arith, h.order) in e)
                (omega (arith, h.order, h.count)))
          (Filled-drop ready items h.filled)

    moved :
        gather_from q.max_size (distance q.q_locked.tail q.q_safe.tail) q.slots q.q_safe.tail
        ≡ q.q_locked.tail
    moved =
        ap (λ k. gather_from q.max_size k q.slots q.q_safe.tail) size
        ∙ gather_from-Filled q.slots q.max_size n q.q_safe.tail rest
            (omega (arith, h.order, h.small.0))
        ∙ omega (arith, h.order)

-- What `dequeue` leaves of a queue whose safe range has `n` messages.
unfoldable pub taken : ℕ → SharedQueue → SharedQueue
taken k q = record q { q_safe = record (q.q_safe) { head = q.q_safe.head + k } }

same_self : (r : QueueRange) → same_range r r ≡ true
same_self r = ground arith

-- The number that a consumer which asks for `num` gets of `size`.
abbrev limited : ℕ → ℕ → ℕ
limited size num = if ltb size num then size else num

pub dequeue_from-taken :
    (left i num : ℕ) (q : SharedQueue) (k : ℕ)
    → (distance q.q_safe.tail q.q_safe.head == 0) ≡ false
    → (q.q_safe.head + limited (distance q.q_safe.tail q.q_safe.head) num) % ushort_mod
      ≡ q.q_safe.head + k
    → dequeue_from (suc left) i alone num q.q_safe q
      ≡ (record { head = q.q_safe.head; tail = q.q_safe.head + k }, taken k q)
unfolding dequeue_from taken
dequeue_from-taken left i num q k e f = rw (e, same_self q.q_safe, f)
