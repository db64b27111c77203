-- ===== src/Tests/Queues.antt =====
-- The shared queue (Queue.antt) with two messages.
use shipwreck.Base.{
  ◌≡◌, ◌<◌, refl, none, some, List, [], ◌∷◌, ◌++◌, length, take, drop, arith, ◌==◌, if◌then◌else◌,
}
use shipwreck.Base.Int.{pos, ◌-ℤ◌}
use shipwreck.Queue.{Message, SharedQueue, enqueue, run_worker}
use shipwreck.Queue.Shared.{Holds, alone, enqueue_lem}
use shipwreck.Queue.Worker.{served, run_worker_lem}
use shipwreck.Queue.Wrap.{enqueue_wrapped}

abbrev two_messages : List Message
two_messages = record { msg_id = 7; body = 1 } ∷ record { msg_id = 7; body = 2 } ∷ []

abbrev two_queued : SharedQueue
two_queued = record {
  max_size = 4;
  q_locked = record { head = 0; tail = 2 };
  q_safe = record { head = 0; tail = 0 };
  safe_tail_mtx = 0;
  locked_head_mtx = 0;
  slots = λ i. if i == 0 then record { msg_id = 7; body = 1 } else record { msg_id = 7; body = 2 };
}

two_queued-Holds : Holds two_queued two_messages
two_queued-Holds = record {
  unlocked = (refl, refl);
  heads = refl;
  order = (omega arith, omega arith);
  count = refl;
  room = omega arith;
  small = (omega arith, omega arith);
  stored = refl;
  filled = (ground arith, (ground arith, tt));
}

abbrev third_message : Message
third_message = record { msg_id = 9; body = 3 }

enqueue_lem_example :
    (length two_messages < two_queued.max_size
      → ((enqueue alone third_message two_queued).0 ≡ some 2)
        × Holds (enqueue alone third_message two_queued).1 (two_messages ++ third_message ∷ []))
    × (length two_messages ≡ two_queued.max_size
        → enqueue alone third_message two_queued ≡ (none, two_queued))
enqueue_lem_example =
    enqueue_lem third_message two_queued two_messages two_queued-Holds (omega arith) (omega arith)

run_worker_lem_example :
    ((run_worker (pos 2) two_queued).0 ≡ take (served two_messages) two_messages)
    × ((run_worker (pos 2) two_queued).1.0 ≡ pos 2 -ℤ pos (served two_messages))
    × Holds (run_worker (pos 2) two_queued).1.1 (drop (served two_messages) two_messages)
run_worker_lem_example = run_worker_lem (pos 2) two_queued two_messages two_queued-Holds

-- One message in a queue of 64 slots, after the tail has come back to 0.
abbrev wrapped : SharedQueue
wrapped = record two_queued { max_size = 64; q_locked = record { head = 65535; tail = 0 } }

enqueue_wrapped_example : enqueue alone third_message wrapped ≡ (none, wrapped)
enqueue_wrapped_example =
    enqueue_wrapped alone third_message wrapped (omega arith) (omega arith) (omega arith)
