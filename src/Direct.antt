-- ===== src/Direct.antt =====
-- direct_outbox.py: the outbox of the native reporter, a file that holds a queue of messages. A
-- value in the file that has not the types of a queue is `misshapen`, and so is a symbolic link.
pub mod Drained
pub mod Enqueued
use lite_checker.Prelude.{
  ℕ, suc, zero, ◌+◌, ◌-◌, String, Bool, true, false, Option, none, some, List, [], ◌∷◌, ◌++◌, ◌&&◌,
  ◌||◌, not, ltb, leb, length, get_elem?, contains, count, string_eq, nat_eq, ◌==◌, if◌then◌else◌,
}
use lite_checker.State.{Host}

-- `DirectOutboxError` with its code; `index_error` is the `IndexError` of a list
pub data DirectOutboxError : Type 0 where
  message_too_large state_unavailable state_invalid ack_invalid index_error : DirectOutboxError

pub data Result {ℓ} (A : Type ℓ) : Type ℓ where
  good : A → Result A
  bad : DirectOutboxError → Result A

pub record Message : Type 0 where
  pub message_id : String
  pub created_at : String
  pub chunks : List String
  pub next_chunk_index : ℕ

pub record Queue : Type 0 where
  pub messages : List Message
  pub dropped_messages : ℕ
  pub last_accepted_at : Option String

pub record PendingChunk : Type 0 where
  pub message_id : String
  pub chunk_index : ℕ
  pub body : String

pub data QueueFile : Type 0 where
  missing : QueueFile
  misshapen : QueueFile
  stored : Queue → QueueFile

pub record Bounds : Type 0 where
  pub max_messages : ℕ
  pub max_chunks : ℕ

abbrev pub Turn : Type 0 → Type 0
Turn A = QueueFile → Result A × QueueFile

-- a chunk is a text of 1 to 4096 characters
abbrev pub fits : String → Bool
fits chunk = leb 1 (count chunk) && leb (count chunk) 4096

abbrev pub all_fit : List String → Bool
all_fit [] = true
all_fit (c ∷ cs) = fits c && all_fit cs

unfoldable pub valid_message : Message → Bool
valid_message m =
    count m.message_id == 32
    && not (length m.chunks == 0)
    && all_fit m.chunks
    && ltb m.next_chunk_index (length m.chunks)

-- the loop of `_validate_state`, with the ids that it has seen
unfoldable pub valid_messages : List String → List Message → Bool
valid_messages ids [] = true
valid_messages ids (m ∷ ms) =
    valid_message m && not (contains ids m.message_id) && valid_messages (m.message_id ∷ ids) ms

abbrev pub remaining_chunks : Message → ℕ
remaining_chunks m = length m.chunks - m.next_chunk_index

-- `_pending_chunks`
abbrev pub pending_chunks : List Message → ℕ
pending_chunks [] = 0
pending_chunks (m ∷ ms) = remaining_chunks m + pending_chunks ms

-- the loop of `enqueue` that drops the oldest messages, and counts them
unfoldable pub drop_oldest : Bounds → List Message → ℕ → List Message × ℕ
drop_oldest b [] dropped = ([], dropped)
drop_oldest b (m ∷ ms) dropped =
    let rest = drop_oldest b ms (dropped + 1) in
    if ltb b.max_messages (length (m ∷ ms)) || ltb b.max_chunks (pending_chunks (m ∷ ms))
    then rest
    else (m ∷ ms, dropped)

abbrev pub first_pending : Message → Option String → Result (Option PendingChunk)
first_pending m none = bad index_error
first_pending m (some c) =
    good (some (record { message_id = m.message_id; chunk_index = m.next_chunk_index; body = c }))

-- `is_time` says which texts `datetime.fromisoformat` reads as a time with a zone
module _ (is_time : String → Bool) (h : Host) where
  unfoldable pub valid_queue : Queue → Bool
  valid_queue q =
      valid_messages [] q.messages && elim q.last_accepted_at [ none ↦ true | some t ↦ is_time t ]

  -- `_read_unlocked`
  unfoldable pub read_queue : QueueFile → Result Queue
  read_queue missing =
      good (record { messages = []; dropped_messages = 0; last_accepted_at = none })
  read_queue misshapen = bad state_invalid
  read_queue (stored q) = if valid_queue q then good q else bad state_invalid

  -- `_write_unlocked`
  unfoldable pub write_queue : {A : Type 0} → A → Queue → Turn A
  write_queue a q f = if h.writes then (good a, stored q) else (bad state_unavailable, f)

  -- `with self._locked()`
  unfoldable pub under_lock : {A : Type 0} → Turn A → Turn A
  under_lock body f =
      if h.acquires
      then (if h.releases then body f else (bad state_unavailable, (body f).1))
      else (bad state_unavailable, f)

  abbrev pub on_queue : {A : Type 0} → (Queue → Turn A) → Result Queue → Turn A
  on_queue body (bad e) f = (bad e, f)
  on_queue body (good q) f = body q f

  abbrev pub in_queue : {A : Type 0} → (Queue → Turn A) → Turn A
  in_queue body = under_lock (λ f. on_queue body (read_queue f) f)

  -- the queue after `enqueue`
  unfoldable pub queue_message : Bounds → Message → Queue → Queue
  queue_message b m q =
      let (kept, dropped) = drop_oldest b (q.messages ++ m ∷ []) q.dropped_messages in
      record q { messages = kept; dropped_messages = dropped }

  -- `DirectOutbox.enqueue`, with the id that `uuid4` gives
  unfoldable pub enqueue : Bounds → List String → String → String → Turn String
  enqueue b chunks created id f =
      if length chunks == 0 || ltb b.max_chunks (length chunks) || not (all_fit chunks)
      then (bad message_too_large, f)
      else in_queue
          (λ q. write_queue id (
            queue_message b
              (record {
                message_id = id;
                created_at = created;
                chunks = chunks;
                next_chunk_index = 0;
              })
              q))
          f

  abbrev pub oldest : List Message → Result (Option PendingChunk)
  oldest [] = good none
  oldest (m ∷ ms) = first_pending m (get_elem? m.chunks m.next_chunk_index)

  -- `DirectOutbox.next_chunk`
  unfoldable pub next_chunk : Turn (Option PendingChunk)
  next_chunk = in_queue (λ q f. (oldest q.messages, f))

  -- the chunk that is acknowledged is the oldest one
  unfoldable pub is_oldest : PendingChunk → Message → Option String → Bool
  is_oldest p m none = false
  is_oldest p m (some c) =
      p.message_id == m.message_id && p.chunk_index == m.next_chunk_index && p.body == c

  unfoldable pub move_on : Message → List Message → List Message
  move_on m ms =
      if m.next_chunk_index + 1 == length m.chunks
      then ms
      else record m { next_chunk_index = m.next_chunk_index + 1 } ∷ ms

  unfoldable pub acknowledge_oldest : PendingChunk → String → List Message → Queue → Turn (Unit {0})
  acknowledge_oldest p accepted [] q f = (bad ack_invalid, f)
  acknowledge_oldest p accepted (m ∷ ms) q f =
      if is_oldest p m (get_elem? m.chunks m.next_chunk_index)
      then write_queue tt (record q { messages = move_on m ms; last_accepted_at = some accepted }) f
      else (bad ack_invalid, f)

  -- `DirectOutbox.acknowledge`
  unfoldable pub acknowledge : PendingChunk → String → Turn (Unit {0})
  acknowledge p accepted = in_queue (λ q. acknowledge_oldest p accepted q.messages q)
