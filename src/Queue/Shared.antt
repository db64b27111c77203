-- ===== src/Queue/Shared.antt =====
-- `SharedQueue` of std/queue.h as a bounded queue, and the worker that empties it
-- (system/events.cpp), before the counters wrap.
use shipwreck.Base.{
  ℕ, suc, ◌+◌, ◌-◌, ◌%◌, ◌≤◌, ◌<◌, ◌≡◌, ◌≢◌, refl, sym, ap, ap₂, ◌∙◌, true, false, none, some, List,
  [], ◌∷◌, ◌++◌, arith, length, length-append, update, update_self, ltb, mod-ne, ◌^◌,
}
use shipwreck.Queue.{
  Message, QueueRange, SharedQueue, ushort_mod, distance, same_range, enqueue, enqueue_from,
}
use shipwreck.Queue.Window.{window, window-update, window-snoc, Filled, Filled-append}

-- The queue holds these messages, the oldest first, with no range taken and not yet given back.
pub record Holds (q : SharedQueue) (items : List Message) : Type 0 where
  pub unlocked : (q.safe_tail_mtx ≡ 0) × (q.locked_head_mtx ≡ 0)
  pub heads : q.q_locked.head ≡ q.q_safe.head
  pub order : (q.q_safe.head ≤ q.q_safe.tail) × (q.q_safe.tail ≤ q.q_locked.tail)
  pub count : q.q_locked.tail ≡ q.q_safe.head + length items
  pub room : length items ≤ q.max_size
  pub small : (q.q_locked.tail < ushort_mod) × (q.max_size < ushort_mod)
  pub stored : window q.slots q.max_size q.q_safe.head (length items) ≡ items
  pub filled : Filled items

-- No other thread changes the queue in between.
abbrev pub alone : ℕ → SharedQueue → SharedQueue
alone i q = q

enqueued : Message → SharedQueue → SharedQueue
enqueued msg q = record q {
  q_locked = record (q.q_locked) { tail = (q.q_locked.tail + 1) % ushort_mod };
  slots = update q.slots (q.q_locked.tail % q.max_size) msg;
}

same_self : (r : QueueRange) → same_range r r ≡ true
same_self r = ground arith

enqueue_from-some :
    (left i : ℕ) (msg : Message) (q : SharedQueue)
    → ltb q.max_size ((distance q.q_locked.tail q.q_locked.head + 1) % 2 ^ 32) ≡ false
    → enqueue_from (suc left) i alone msg q ≡ (some q.q_locked.tail, enqueued msg q)
unfolding enqueue_from enqueued
enqueue_from-some left i msg q e = rw (e, same_self q.q_locked)

enqueue_from-none :
    (left i : ℕ) (msg : Message) (q : SharedQueue)
    → ltb q.max_size ((distance q.q_locked.tail q.q_locked.head + 1) % 2 ^ 32) ≡ true
    → enqueue_from (suc left) i alone msg q ≡ (none, q)
unfolding enqueue_from
enqueue_from-none left i msg q e = rw e

enqueued-Holds :
    (msg : Message) (q : SharedQueue) (items : List Message)
    → Holds q items
    → msg.msg_id ≢ 0
    → q.q_locked.tail + 1 < ushort_mod
    → length items < q.max_size
    → Holds (enqueued msg q) (items ++ msg ∷ [])
unfolding enqueued
enqueued-Holds msg q items h ne fits lt =
    let n = length items in
    let longer : length (items ++ msg ∷ []) ≡ suc n =
      omega (arith, length-append items (msg ∷ [])) in
    record {
      unlocked = h.unlocked;
      heads = h.heads;
      order = (h.order.0, omega (arith, h.order.1));
      count = omega (arith, h.count, longer);
      room = omega (arith, longer);
      small = (omega arith, h.small.1);
      stored =
          ap (window put_in q.max_size q.q_safe.head) longer
          ∙ window-snoc put_in q.max_size q.q_safe.head n
          ∙ ap₂ (λ (xs : List Message) (m : Message). xs ++ m ∷ []) (kept ∙ h.stored) put;
      filled = Filled-append items msg h.filled ne;
    }
  where
    put_in : ℕ → Message
    put_in = update q.slots (q.q_locked.tail % q.max_size) msg

    kept :
        window put_in q.max_size q.q_safe.head (length items)
        ≡ window q.slots q.max_size q.q_safe.head (length items)
    kept =
        window-update q.slots q.max_size q.q_safe.head (length items) q.q_locked.tail msg
          (λ k below e.
            mod-ne q.max_size (q.q_safe.head + k) (length items - k) (omega arith) (omega arith)
              (sym e ∙ ap (λ t. t % q.max_size) (omega (arith, h.count))))

    put : put_in ((q.q_safe.head + length items) % q.max_size) ≡ msg
    put =
        ap (λ t. put_in (t % q.max_size)) (sym h.count)
        ∙ update_self q.slots (q.q_locked.tail % q.max_size) msg

-- Alone with a queue whose counters are not at their end, `enqueue` puts a message with an id
-- other than 0 behind the others and returns its index, if there is room; else it returns -1 and
-- changes nothing.
pub enqueue_lem :
    (msg : Message) (q : SharedQueue) (items : List Message)
    → Holds q items
    → msg.msg_id ≢ 0
    → q.q_locked.tail + 1 < ushort_mod
    → (length items < q.max_size
        → ((enqueue alone msg q).0 ≡ some q.q_locked.tail)
          × Holds (enqueue alone msg q).1 (items ++ msg ∷ []))
      × (length items ≡ q.max_size → enqueue alone msg q ≡ (none, q))
unfolding enqueue
enqueue_lem msg q items h ne fits = (there, full)
  where
    size : distance q.q_locked.tail q.q_locked.head ≡ length items
    size = omega (arith, h.count, h.heads, h.small.0)

    there :
        length items < q.max_size
        → ((enqueue alone msg q).0 ≡ some q.q_locked.tail)
          × Holds (enqueue alone msg q).1 (items ++ msg ∷ [])
    there lt =
        rw (enqueue_from-some 9 0 msg q (ground (arith, size, h.small)))
          (refl, enqueued-Holds msg q items h ne fits lt)

    full : length items ≡ q.max_size → enqueue alone msg q ≡ (none, q)
    full e = enqueue_from-none 9 0 msg q (ground (arith, size, h.small))
