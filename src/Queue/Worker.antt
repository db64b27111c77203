-- ===== src/Queue/Worker.antt =====
-- `CallbackWorker::run` of system/events.cpp on the queue of std/queue.h: it serves the messages
-- in the order in which they came, at most ten at a time.
use shipwreck.Base.{
  ℕ, ◌+◌, ◌-◌, ◌≤◌, ◌<◌, ◌≡◌, refl, sym, ap, ap₂, ◌∙◌, true, false, List, [], ◌∷◌, arith, length,
  take, drop, length-drop, ◌==◌, min,
}
use shipwreck.Base.Int.{ℤ, pos, negsuc, ◌-ℤ◌}
use shipwreck.Queue.{
  Message, SharedQueue, distance, batch, dequeue, release, release_from, garbage_collect,
  collect_from, run_worker, serve, serve_gathered,
}
use shipwreck.Queue.Window.{
  window, release_from-window, release_from-free, collect_from-free, take-window, drop-window,
  Filled-drop, messages-window,
}
use shipwreck.Queue.Shared.{Holds, alone}
use shipwreck.Queue.Steps.{gathered, gather_new_data-gathered, taken, dequeue_from-taken}

-- The queue after a run that took `k` messages.
finished : ℕ → SharedQueue → SharedQueue
finished k q = record q {
  q_locked = record (q.q_locked) { head = q.q_safe.head + k };
  q_safe = record { head = q.q_safe.head + k; tail = q.q_locked.tail };
  slots = release_from q.max_size k q.q_safe.head q.slots;
  safe_tail_mtx = 0;
  locked_head_mtx = 0;
}

release-taken :
    (k : ℕ) (q : SharedQueue)
    → release (record { head = q.q_safe.head; tail = q.q_safe.head + k }) (taken k (gathered q))
      ≡ record (taken k (gathered q)) { slots = release_from q.max_size k q.q_safe.head q.slots }
unfolding release gathered taken
release-taken k q =
    ap
      (λ n. record (taken k (gathered q)) {
        slots = release_from q.max_size n q.q_safe.head q.slots;
      })
      (let e : q.q_safe.head + k - q.q_safe.head ≡ k = omega arith in e)

garbage_collect-finished :
    (k : ℕ) (q : SharedQueue)
    → q.locked_head_mtx ≡ 0
    → collect_from q.max_size
        (q.q_safe.head + k - q.q_locked.head)
        (release_from q.max_size k q.q_safe.head q.slots)
        q.q_locked.head
      ≡ q.q_safe.head + k
    → garbage_collect
        (record (taken k (gathered q)) { slots = release_from q.max_size k q.q_safe.head q.slots })
      ≡ finished k q
unfolding garbage_collect gathered taken finished
garbage_collect-finished k q u c = rw (u, c)

serve-taken :
    (signal : ℤ) (k : ℕ) (q : SharedQueue)
    → q.locked_head_mtx ≡ 0
    → collect_from q.max_size
        (q.q_safe.head + k - q.q_locked.head)
        (release_from q.max_size k q.q_safe.head q.slots)
        q.q_locked.head
      ≡ q.q_safe.head + k
    → serve signal (record { head = q.q_safe.head; tail = q.q_safe.head + k }, taken k (gathered q))
      ≡ (
        window q.slots q.max_size q.q_safe.head k,
        (signal -ℤ (pos (q.q_safe.head + k) -ℤ pos q.q_safe.head), finished k q),
      )
unfolding serve taken gathered
serve-taken signal k q u c =
    ap₂
      (λ (ms : List Message) (q' : SharedQueue).
        (ms, (signal -ℤ (pos (q.q_safe.head + k) -ℤ pos q.q_safe.head), q')))
      (messages-window (taken k (gathered q)) q.q_safe.head _ ∙ same_window)
      (ap garbage_collect (release-taken k q) ∙ garbage_collect-finished k q u c)
  where
    same_window :
        window
          (taken k (gathered q)).slots
          (taken k (gathered q)).max_size
          q.q_safe.head
          (q.q_safe.head + k - q.q_safe.head)
        ≡ window q.slots q.max_size q.q_safe.head k
    same_window = ap (window q.slots q.max_size q.q_safe.head) (omega arith)

-- A worker that finds no message does nothing more.
serve_gathered-none :
    (signal : ℤ) (q : SharedQueue)
    → (distance q.q_locked.tail q.q_safe.head == 0) ≡ true
    → serve_gathered signal (gathered q) ≡ ([], (signal, gathered q))
unfolding serve_gathered gathered
serve_gathered-none signal q e = rw e

serve_gathered-some :
    (signal : ℤ) (q : SharedQueue)
    → (distance q.q_locked.tail q.q_safe.head == 0) ≡ false
    → serve_gathered signal (gathered q) ≡ serve signal (dequeue alone batch (gathered q))
unfolding serve_gathered gathered
serve_gathered-some signal q e = rw e

gathered-Holds : (q : SharedQueue) (items : List Message) → Holds q items → Holds (gathered q) items
unfolding gathered
gathered-Holds q items h = record {
  unlocked = (refl, h.unlocked.1);
  heads = h.heads;
  order = (omega (arith, h.order), omega arith);
  count = h.count;
  room = h.room;
  small = h.small;
  stored = h.stored;
  filled = h.filled;
}

finished-Holds :
    (k : ℕ) (q : SharedQueue) (items : List Message)
    → Holds q items
    → k ≤ length items
    → Holds (finished k q) (drop k items)
unfolding finished
finished-Holds k q items h le =
    let n : length (drop k items) ≡ length items - k = length-drop k items in
    record {
      unlocked = (refl, refl);
      heads = refl;
      order = (omega (arith, h.count), omega arith);
      count = omega (arith, h.count, n);
      room = omega (arith, h.room, n);
      small = h.small;
      stored =
          ap (window slots' q.max_size (q.q_safe.head + k)) n
          ∙ release_from-window q.slots q.max_size k q.q_safe.head (q.q_safe.head + k)
              (length items - k) (omega arith) (omega (arith, h.room))
          ∙ sym (drop-window q.slots q.max_size q.q_safe.head k (length items) le)
          ∙ ap (drop k) h.stored;
      filled = Filled-drop k items h.filled;
    }
  where
    slots' : ℕ → Message
    slots' = release_from q.max_size k q.q_safe.head q.slots

-- The number of messages that one run serves.
abbrev pub served : List Message → ℕ
served items = min (length items) batch

dequeue-taken :
    (q : SharedQueue) (items : List Message)
    → Holds q items
    → 0 < length items
    → dequeue alone batch (gathered q) ≡ (
      record { head = q.q_safe.head; tail = q.q_safe.head + served items },
      taken (served items) (gathered q),
    )
unfolding dequeue gathered
dequeue-taken q items h some_item =
    dequeue_from-taken 9 0 batch (gathered q) (served items) (ground (arith, h.small.0, h.count))
      (ground (arith, h.small.0, h.count))

collect_from-released :
    (k : ℕ) (q : SharedQueue) (items : List Message)
    → Holds q items
    → k ≤ length items
    → collect_from q.max_size
        (q.q_safe.head + k - q.q_locked.head)
        (release_from q.max_size k q.q_safe.head q.slots)
        q.q_locked.head
      ≡ q.q_safe.head + k
collect_from-released k q items h le =
    ap (λ head. collect_from q.max_size (q.q_safe.head + k - head) slots' head) h.heads
    ∙ ap (λ n. collect_from q.max_size n slots' q.q_safe.head)
        (let e : q.q_safe.head + k - q.q_safe.head ≡ k = omega arith in e)
    ∙ collect_from-free slots' q.max_size k q.q_safe.head
        (release_from-free q.slots q.max_size k q.q_safe.head) (omega (arith, h.count, h.small.0))
  where
    slots' : ℕ → Message
    slots' = release_from q.max_size k q.q_safe.head q.slots

minus-zero : (a : ℤ) → a ≡ a -ℤ pos 0
unfolding ◌-ℤ◌
minus-zero (pos n) = ground arith
minus-zero (negsuc n) = ground arith

pos-minus : (a k : ℕ) → pos (a + k) -ℤ pos a ≡ pos k
unfolding ◌-ℤ◌
pos-minus a k = ground arith

run_worker-some :
    (signal : ℤ) (q : SharedQueue) (items : List Message)
    → Holds q items
    → 0 < length items
    → run_worker signal q
      ≡ (take (served items) items, (signal -ℤ pos (served items), finished (served items) q))
unfolding run_worker
run_worker-some signal q items h some_item =
    ap (serve_gathered signal) (gather_new_data-gathered q items h)
    ∙ serve_gathered-some signal q (ground (arith, h.small.0, h.count))
    ∙ ap (serve signal) (dequeue-taken q items h some_item)
    ∙ serve-taken signal k q h.unlocked.1 (collect_from-released k q items h (ground arith))
    ∙ ap₂ (λ (ms : List Message) (z : ℤ). (ms, (z, finished k q)))
        (sym (take-window q.slots q.max_size q.q_safe.head k (length items) (ground arith))
          ∙ ap (take k) h.stored)
        (ap (λ z. signal -ℤ z) (pos-minus q.q_safe.head k))
  where
    k : ℕ
    k = served items

-- With no other thread at work, and on a queue that holds `items`, none of which
-- has id 0, with both mutexes free and no
-- message taken but not yet released, and whose counters have not wrapped (head <= tail < 2 ^ 16): a
-- run calls back for the first ten items, or for all where there are fewer, in their order, subtracts
-- their number from the signal and leaves such a queue that holds the rest.
pub run_worker_lem :
    (signal : ℤ) (q : SharedQueue) (items : List Message)
    → Holds q items
    → ((run_worker signal q).0 ≡ take (served items) items)
      × ((run_worker signal q).1.0 ≡ signal -ℤ pos (served items))
      × Holds (run_worker signal q).1.1 (drop (served items) items)
unfolding run_worker
run_worker_lem signal q [] h =
    rw
      (
        gather_new_data-gathered q [] h,
        serve_gathered-none signal q (ground (arith, h.small.0, h.count)),
      )
      (refl, minus-zero signal, gathered-Holds q [] h)
run_worker_lem signal q (m ∷ items) h =
    rw (run_worker-some signal q (m ∷ items) h (omega arith))
      (refl, refl, finished-Holds (served (m ∷ items)) q (m ∷ items) h (ground arith))
