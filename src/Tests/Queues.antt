-- ===== src/Tests/Queues.antt =====
-- The outbox of the native reporter: two messages in a queue that holds two.
use lite_checker.Prelude.{◌≡◌, refl, String, Bool, true, some, [], ◌∷◌, nat_eq, arith}
use lite_checker.Direct.{Queue, stored, Bounds, valid_queue, valid_messages, valid_message, enqueue}
use lite_checker.Direct.Drained.{works, deliver, Delivered, deliver-pending}
use lite_checker.Direct.Enqueued.{EnqueuedAnswer, enqueue-Enqueued}

abbrev any_time : String → Bool
any_time t = true

abbrev first_id : String
first_id = "0123456789abcdef0123456789abcdef"

abbrev second_id : String
second_id = "fedcba9876543210fedcba9876543210"

abbrev third_id : String
third_id = "00000000000000000000000000000000"

abbrev queue : Queue
queue = record {
  messages =
      record {
        message_id = first_id;
        created_at = "t0";
        chunks = "a1" ∷ "a2" ∷ [];
        next_chunk_index = 1;
      }
      ∷ record {
        message_id = second_id;
        created_at = "t1";
        chunks = "b1" ∷ "b2" ∷ [];
        next_chunk_index = 0;
      }
      ∷ [];
  dropped_messages = 4;
  last_accepted_at = some "t1";
}

queue-valid : valid_queue any_time works queue ≡ true
unfolding valid_queue valid_messages valid_message
queue-valid = refl

deliver-pending_example :
    Delivered any_time "t2" queue.messages 4 (deliver any_time "t2" 3 (stored queue))
deliver-pending_example = deliver-pending any_time "t2" queue refl queue-valid

abbrev two : Bounds
two = record { max_messages = 2; max_chunks = 10 }

enqueue-Enqueued_example :
    EnqueuedAnswer any_time works two
      ("c1" ∷ [])
      "t2"
      third_id
      queue
      (enqueue any_time works two ("c1" ∷ []) "t2" third_id (stored queue))
enqueue-Enqueued_example =
    enqueue-Enqueued any_time works two ("c1" ∷ []) "t2" third_id queue (omega arith) queue-valid
      refl refl
