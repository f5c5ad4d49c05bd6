-- ===== src/Direct/Drained.antt =====
-- Sending the queue out, chunk by chunk.
use lite_checker.Prelude.{
  ℕ, suc, zero, ◌+◌, ◌≡◌, ◌≤◌, ◌<◌, ◌∙◌, refl, sym, ap, arith, String, Bool, true, Option, some,
  List, [], ◌∷◌, ◌++◌, length, drop, get_elem?, contains, string_eq, nat_eq, ◌==◌, beq_refl,
  Bool-cases, inl, inr,
}
use lite_checker.State.{Host}
use lite_checker.Direct.{
  Message, Queue, PendingChunk, QueueFile, stored, Result, good, valid_message, valid_messages,
  pending_chunks, valid_queue, read_queue, write_queue, under_lock, next_chunk, is_oldest, move_on,
  acknowledge_oldest, acknowledge,
}

-- the chunks that are still to be sent, oldest first
abbrev pub pending_bodies : List Message → List String
pending_bodies [] = []
pending_bodies (m ∷ ms) = drop m.next_chunk_index m.chunks ++ pending_bodies ms

abbrev pub works : Host
works = record { acquires = true; writes = true; releases = true }

module _ (is_time : String → Bool) (now : String) where
  -- One delivery: the oldest chunk, sent, and acknowledged at `now`.
  abbrev pub sent :
      Result (Option PendingChunk)
      → (PendingChunk → List String × QueueFile)
      → QueueFile
      → List String × QueueFile
  sent (good (some p)) rest f = (p.body ∷ (rest p).0, (rest p).1)
  sent _ rest f = ([], f)

  unfoldable pub deliver : ℕ → QueueFile → List String × QueueFile
  deliver zero f = ([], f)
  deliver (suc k) f =
      sent (next_chunk is_time works f).0 (λ p. deliver k (acknowledge is_time works p now f).1) f

  pub valid-weaken :
      (ids js : List String) (ms : List Message)
      → ((i : String) → contains js i ≡ true → contains ids i ≡ true)
      → valid_messages ids ms ≡ true
      → valid_messages js ms ≡ true
  unfolding valid_messages
  valid-weaken ids js [] sub h = refl
  valid-weaken ids js (m ∷ ms) sub h = ground (
    arith,
    sub m.message_id,
    valid-weaken (m.message_id ∷ ids) (m.message_id ∷ js) ms (λ i k. ground (arith, sub i)),
  )

  move_on-valid :
      (m : Message) (ms : List Message)
      → valid_messages [] (m ∷ ms) ≡ true
      → valid_messages [] (move_on is_time works m ms) ≡ true
  unfolding move_on valid_messages valid_message
  move_on-valid m ms h = elim (Bool-cases (m.next_chunk_index + 1 == length m.chunks)) [
    | inl e ↦ rw e (valid-weaken (m.message_id ∷ []) [] ms (λ i k. absurd (cc k)) (ground arith))
    | inr e ↦ rw e (ground arith)
  ]

  -- the chunk at an index within the list
  chunk-at :
      (xs : List String) (i : ℕ)
      → i < length xs
      → (c : String) × (get_elem? xs i ≡ some c) × (drop i xs ≡ c ∷ drop (i + 1) xs)
  chunk-at [] i h = absurd (omega arith)
  chunk-at (x ∷ xs) zero h =
      let next : suc zero ≡ zero + 1 = omega arith in (x, refl, ap (λ n. x ∷ drop n (x ∷ xs)) next)
  chunk-at (x ∷ xs) (suc i) h =
      let (c, at, rest) = chunk-at xs i (omega arith) in
      let next : suc (i + 1) ≡ suc i + 1 = omega arith in
      (c, at, rest ∙ ap (λ n. c ∷ drop n (x ∷ xs)) next)

  drop-end : (xs : List String) (i : ℕ) → length xs ≤ i → drop i xs ≡ []
  drop-end [] zero h = refl
  drop-end [] (suc i) h = refl
  drop-end (x ∷ xs) zero h = absurd (omega arith)
  drop-end (x ∷ xs) (suc i) h = drop-end xs i (omega arith)

  move_on-bodies :
      (m : Message) (ms : List Message) (c : String)
      → drop m.next_chunk_index m.chunks ≡ c ∷ drop (m.next_chunk_index + 1) m.chunks
      → pending_bodies (m ∷ ms) ≡ c ∷ pending_bodies (move_on is_time works m ms)
  unfolding move_on
  move_on-bodies m ms c e = elim (Bool-cases (m.next_chunk_index + 1 == length m.chunks)) [
    | inl f ↦ rw (f, e, drop-end m.chunks (m.next_chunk_index + 1) (ground arith)) refl
    | inr f ↦ rw (f, e) refl
  ]

  move_on-chunks :
      (m : Message) (ms : List Message)
      → m.next_chunk_index < length m.chunks
      → pending_chunks (m ∷ ms) ≡ suc (pending_chunks (move_on is_time works m ms))
  unfolding move_on
  move_on-chunks m ms h = ground arith

  module _ (m : Message) (ms : List Message) (dropped : ℕ) (last : Option String) where
    abbrev before : Queue
    before = record { messages = m ∷ ms; dropped_messages = dropped; last_accepted_at = last }

    abbrev after : Queue
    after = record {
      messages = move_on is_time works m ms;
      dropped_messages = dropped;
      last_accepted_at = some now;
    }

    abbrev head_chunk : String → PendingChunk
    head_chunk c = record { message_id = m.message_id; chunk_index = m.next_chunk_index; body = c }

    next_chunk-head :
        (c : String)
        → valid_queue is_time works before ≡ true
        → get_elem? m.chunks m.next_chunk_index ≡ some c
        → (next_chunk is_time works (stored before)).0 ≡ good (some (head_chunk c))
    unfolding next_chunk under_lock read_queue
    next_chunk-head c v e = rw (v, e) refl

    acknowledge-head :
        (c : String)
        → valid_queue is_time works before ≡ true
        → get_elem? m.chunks m.next_chunk_index ≡ some c
        → (acknowledge is_time works (head_chunk c) now (stored before)).1 ≡ stored after
    unfolding acknowledge under_lock read_queue acknowledge_oldest is_oldest write_queue
    acknowledge-head c v e =
        rw (v, e) (rw (beq_refl m.message_id, beq_refl m.next_chunk_index, beq_refl c) refl)

    after-valid :
        is_time now ≡ true
        → valid_queue is_time works before ≡ true
        → valid_queue is_time works after ≡ true
    unfolding valid_queue
    after-valid t v = ground (arith, move_on-valid m ms)

    head-index : valid_queue is_time works before ≡ true → m.next_chunk_index < length m.chunks
    unfolding valid_queue valid_messages valid_message
    head-index v = ground arith

  abbrev pub Delivered : List Message → ℕ → List String × QueueFile → Type 0
  Delivered ms dropped r =
      (r.0 ≡ pending_bodies ms)
      × (q : Queue) × (r.1 ≡ stored q)
      × (q.messages ≡ [])
      × (q.dropped_messages ≡ dropped)

  deliver-Delivered :
      (k : ℕ) (ms : List Message) (dropped : ℕ) (last : Option String)
      → is_time now ≡ true
      → valid_queue is_time works
          (record { messages = ms; dropped_messages = dropped; last_accepted_at = last })
        ≡ true
      → pending_chunks ms ≡ k
      → Delivered ms dropped (
          deliver k (
            stored (record { messages = ms; dropped_messages = dropped; last_accepted_at = last })))
  unfolding deliver
  deliver-Delivered zero [] dropped last t v e = (refl, _, refl, refl, refl)
  deliver-Delivered zero (m ∷ ms) dropped last t v e =
      absurd (omega (arith, head-index m ms dropped last v))
  deliver-Delivered (suc k) [] dropped last t v e = absurd (omega arith)
  deliver-Delivered (suc k) (m ∷ ms) dropped last t v e =
      let i = head-index m ms dropped last v in
      let (c, at, rest) = chunk-at m.chunks m.next_chunk_index i in
      let (bodies, q, f, g, d) =
        deliver-Delivered k (move_on is_time works m ms) dropped (some now) t
          (after-valid m ms dropped last t v) (omega (arith, move_on-chunks m ms i)) in
      rw (next_chunk-head m ms dropped last c v at, acknowledge-head m ms dropped last c v at)
        (ap (λ b. c ∷ b) bodies ∙ sym (move_on-bodies m ms c rest), q, f, g, d)

  -- From a queue that is valid, on a host that does not fail, as many deliveries as there are pending
  -- chunks send every one of them once, in their order and the order of the messages, and leave the
  -- queue empty, with the count of dropped messages as it was.
  pub deliver-pending :
      (q : Queue)
      → is_time now ≡ true
      → valid_queue is_time works q ≡ true
      → Delivered q.messages q.dropped_messages (deliver (pending_chunks q.messages) (stored q))
  deliver-pending q t v =
      deliver-Delivered (pending_chunks q.messages) q.messages q.dropped_messages q.last_accepted_at
        t v refl
