-- ===== src/Queue.antt =====
-- src/include/std/queue.h: the message queues between interrupts, workers and processes. `head`
-- and `tail` are 16-bit counters; their difference is taken as an `int` and read as a `uint`.
-- Between the snapshot and the compare-and-swap of a round, other threads may change the queue:
-- `others i` is what they do in round `i`.
pub mod Window
pub mod Shared
pub mod Steps
pub mod Worker
pub mod Wrap
pub mod Plain
use shipwreck.Base.{
  ℕ, zero, suc, ◌+◌, ◌-◌, ◌%◌, ◌^◌, Bool, true, false, ◌&&◌, Option, none, some, List, [], ◌∷◌,
  ◌==◌, ltb, leb, if◌then◌else◌, update,
}
use shipwreck.Base.Int.{ℤ, pos, ◌-ℤ◌}

pub record Message : Type 0 where
  pub msg_id : ℕ
  pub body : ℕ

pub record QueueRange : Type 0 where
  pub head : ℕ
  pub tail : ℕ

abbrev pub ushort_mod : ℕ
ushort_mod = 2 ^ 16

-- `tail - head` of two promoted ushorts, as a `uint`.
abbrev pub distance : ℕ → ℕ → ℕ
distance tail head = (tail + 2 ^ 32 - head) % 2 ^ 32

abbrev pub range_size : QueueRange → ℕ
range_size q = distance q.tail q.head

abbrev pub same_range : QueueRange → QueueRange → Bool
same_range p q = p.head == q.head && p.tail == q.tail

-- `SharedQueue<Message, N>`. A slot is free where its first word, `msg_id`, is 0.
pub record SharedQueue : Type 0 where
  pub max_size : ℕ
  pub q_locked : QueueRange
  pub q_safe : QueueRange
  pub safe_tail_mtx : ℕ
  pub locked_head_mtx : ℕ
  pub slots : ℕ → Message

abbrev pub max_race_tries : ℕ
max_race_tries = 10

abbrev pub Others : Type 0
Others = ℕ → SharedQueue → SharedQueue

unfoldable pub get : ℕ → SharedQueue → Message
get i q = q.slots (i % q.max_size)

-- The rounds of `enqueue`; `none` is the result -1.
unfoldable pub enqueue_from : ℕ → ℕ → Others → Message → SharedQueue → Option ℕ × SharedQueue
enqueue_from zero i others msg q = (none, q)
enqueue_from (suc left) i others msg q =
    let tmp = q.q_locked in
    let now = others i q in
    let rest = enqueue_from left (i + 1) others msg now in
    if ltb q.max_size ((range_size tmp + 1) % 2 ^ 32)
    then (none, q)
    else if same_range now.q_locked tmp
    then (
      some tmp.tail,
      record now {
        q_locked = record tmp { tail = (tmp.tail + 1) % ushort_mod };
        slots = update now.slots (tmp.tail % now.max_size) msg;
      },
    )
    else rest

unfoldable pub enqueue : Others → Message → SharedQueue → Option ℕ × SharedQueue
unfolding enqueue_from
enqueue others msg q = enqueue_from max_race_tries 0 others msg q

-- The loop of `gather_new_data`, which moves `q_safe.tail` over the slots that are filled.
unfoldable pub gather_from : ℕ → ℕ → (ℕ → Message) → ℕ → ℕ
gather_from max zero slots tail = tail
gather_from max (suc left) slots tail = elim ((slots (tail % max)).msg_id == 0) [
  | true ↦ tail
  | false ↦ gather_from max left slots ((tail + 1) % ushort_mod)
]

unfoldable pub gather_new_data : SharedQueue → SharedQueue
unfolding gather_from
gather_new_data q =
    if q.safe_tail_mtx == 0
    then record q {
      q_safe = record (q.q_safe) {
        tail =
            gather_from q.max_size (distance q.q_locked.tail q.q_safe.tail) q.slots q.q_safe.tail;
      };
      safe_tail_mtx = 0;
    }
    else record q { safe_tail_mtx = 1 }

abbrev pub no_range : QueueRange
no_range = record { head = 0; tail = 0 }

-- The rounds of `dequeue`. `tmp` is the snapshot of the safe range.
unfoldable pub dequeue_from :
    ℕ → ℕ → Others → ℕ → QueueRange → SharedQueue → QueueRange × SharedQueue
dequeue_from zero i others num tmp q = (no_range, q)
dequeue_from (suc left) i others num tmp q =
    let size = range_size tmp in
    let n = if ltb size num then size else num in
    let head' = (tmp.head + n) % ushort_mod in
    let now = others i q in
    let rest = dequeue_from left (i + 1) others n now.q_safe now in
    if size == 0
    then (no_range, q)
    else if same_range now.q_safe tmp
    then (
      record { head = tmp.head; tail = head' },
      record now { q_safe = record tmp { head = head' } },
    )
    else rest

unfoldable pub dequeue : Others → ℕ → SharedQueue → QueueRange × SharedQueue
unfolding dequeue_from
dequeue others num q = dequeue_from max_race_tries 0 others num q.q_safe q

-- The loop of `release` over the indices from `i` on.
unfoldable pub release_from : ℕ → ℕ → ℕ → (ℕ → Message) → ℕ → Message
release_from max zero i slots = slots
release_from max (suc left) i slots =
    release_from max left (i + 1) (update slots (i % max) (record (slots (i % max)) { msg_id = 0 }))

unfoldable pub release : QueueRange → SharedQueue → SharedQueue
unfolding release_from
release r q = record q { slots = release_from q.max_size (r.tail - r.head) r.head q.slots }

-- The loop of `garbage_collect`, over free slots.
unfoldable pub collect_from : ℕ → ℕ → (ℕ → Message) → ℕ → ℕ
collect_from max zero slots head = head
collect_from max (suc left) slots head = elim ((slots (head % max)).msg_id == 0) [
  | true ↦ collect_from max left slots ((head + 1) % ushort_mod)
  | false ↦ head
]

-- A negative `q_size` makes no round.
unfoldable pub garbage_collect : SharedQueue → SharedQueue
unfolding collect_from
garbage_collect q =
    if q.locked_head_mtx == 0
    then record q {
      q_locked = record (q.q_locked) {
        head = collect_from q.max_size (q.q_safe.head - q.q_locked.head) q.slots q.q_locked.head;
      };
      locked_head_mtx = 0;
    }
    else record q { locked_head_mtx = 1 }

-- `get` over a range, in the order of the workers' loops.
unfoldable pub messages : ℕ → ℕ → SharedQueue → List Message
unfolding get
messages i zero q = []
messages i (suc left) q = get i q ∷ messages (i + 1) left q

-- The constant that the workers' calls of `dequeue` share.
abbrev pub batch : ℕ
batch = 10

-- What `CallbackWorker::run` of system/events.cpp does with the range that it took: it calls the
-- messages back in order, gives the range back and subtracts its size from the signal.
unfoldable pub serve : ℤ → QueueRange × SharedQueue → List Message × (ℤ × SharedQueue)
unfolding messages release garbage_collect
serve signal (r, q) = (
  messages r.head (r.tail - r.head) q,
  (signal -ℤ (pos r.tail -ℤ pos r.head), garbage_collect (release r q)),
)

unfoldable pub serve_gathered : ℤ → SharedQueue → List Message × (ℤ × SharedQueue)
unfolding serve
serve_gathered signal q =
    if range_size q.q_safe == 0
    then ([], (signal, q))
    else serve signal (dequeue (λ i s. s) batch q)

-- `CallbackWorker::run` with no other consumer: the messages that it calls back for, in order, and
-- the signal and the queue that it leaves.
unfoldable pub run_worker : ℤ → SharedQueue → List Message × (ℤ × SharedQueue)
unfolding serve_gathered
run_worker signal q = serve_gathered signal (gather_new_data q)
