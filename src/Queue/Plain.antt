-- ===== src/Queue/Plain.antt =====
-- `MsgQueue` (include/std/queue.h), the queue of one process, and `send_msg` (system/process.cpp),
-- which fills it. Nothing limits how many messages are put in.
use shipwreck.Base.{
  ℕ, ◌+◌, ◌-◌, ◌%◌, ◌^◌, ◌<◌, ◌≡◌, ◌∙◌, arith, false, ◌==◌, ltb, if◌then◌else◌, update, update_ne,
  mod-ne, dec_lt, ◌≢◌, sym, ap,
}
use shipwreck.Base.Int.{ℤ, pos, ◌+ℤ◌}
use shipwreck.Queue.{Message, QueueRange, ushort_mod, range_size, no_range}

pub record MsgQueue : Type 0 where
  pub max_size : ℕ
  pub q_locked : QueueRange
  pub q_safe : QueueRange
  pub slots : ℕ → Message

-- `MsgQueue::enqueue`
unfoldable pub put_msg : Message → MsgQueue → MsgQueue
put_msg msg q =
    let tail = (q.q_locked.tail + 1) % ushort_mod in
    record q {
      slots = update q.slots (q.q_locked.tail % q.max_size) msg;
      q_locked = record (q.q_locked) { tail = tail };
      q_safe = record (q.q_safe) { tail = tail };
    }

-- `MsgQueue::dequeue`: the range that is handed out.
unfoldable pub take_msgs : ℕ → MsgQueue → QueueRange × MsgQueue
take_msgs num q =
    let size = range_size q.q_safe in
    let my_num = if ltb size num then size else num in
    let head = (q.q_safe.head + my_num) % ushort_mod in
    if size == 0 then (no_range, q) else (
      record { head = q.q_safe.head; tail = head },
      record q { q_safe = record (q.q_safe) { head = head } },
    )

-- `MsgQueue::release`; the difference of two ushorts is an `int` that is read as a `uint`.
unfoldable pub release_msgs : ℕ → MsgQueue → MsgQueue
release_msgs num q =
    if ltb ((q.q_safe.head + 2 ^ 32 - q.q_locked.head) % 2 ^ 32) num
    then q
    else record q { q_locked = record (q.q_locked) { head = (q.q_locked.head + num) % ushort_mod } }

-- `Process::send_msg`, with the signal that it raises.
unfoldable pub send_msg : Message → ℤ × MsgQueue → ℤ × MsgQueue
unfolding put_msg
send_msg msg (signal, q) = (signal +ℤ pos 1, put_msg msg q)

-- A message sent is in the slot of the old tail, and those of the last `max_size - 1` before it stay.
pub send_msg_lem :
    (msg : Message) (signal : ℤ) (q : MsgQueue) (d : ℕ)
    → d < q.q_locked.tail + 1
    → d < q.max_size
    → (let q' = (send_msg msg (signal, q)).1 in
        q'.slots ((q.q_locked.tail - d) % q.max_size)
        ≡ (if d == 0 then msg else q.slots ((q.q_locked.tail - d) % q.max_size)))
unfolding send_msg put_msg
send_msg_lem msg signal q d h k = elim (dec_lt 0 d) [
  | no none ↦ let e : d ≡ 0 = omega arith in newest e
  | yes some ↦ older some
]
  where
    newest :
        d ≡ 0
        → update q.slots (q.q_locked.tail % q.max_size) msg ((q.q_locked.tail - d) % q.max_size)
          ≡ (if d == 0 then msg else q.slots ((q.q_locked.tail - d) % q.max_size))
    newest e = rw e (ground arith)

    apart : 0 < d → q.q_locked.tail % q.max_size ≢ (q.q_locked.tail - d) % q.max_size
    apart lt e =
        let back : q.q_locked.tail - d + d ≡ q.q_locked.tail = omega arith in
        mod-ne q.max_size (q.q_locked.tail - d) d lt k (sym e ∙ ap (λ t. t % q.max_size) (sym back))

    older :
        0 < d
        → update q.slots (q.q_locked.tail % q.max_size) msg ((q.q_locked.tail - d) % q.max_size)
          ≡ (if d == 0 then msg else q.slots ((q.q_locked.tail - d) % q.max_size))
    older lt =
        let f : (d == 0) ≡ false = ground (arith, lt) in
        rw f (update_ne q.slots (q.q_locked.tail % q.max_size) msg _ (apart lt))
