-- ===== src/Direct/Enqueued.antt =====
-- What `enqueue` makes of the queue.
use lite_checker.Prelude.{
  ℕ, ◌+◌, ◌≡◌, ◌≤◌, ◌⊎◌, refl, ap, sym, ◌∙◌, ◌<◌, subst, arith, String, Bool, true, false, List, [],
  ◌∷◌, ◌++◌, ◌||◌, not, ltb, length, contains, count, string_eq, nat_eq, ◌==◌, Bool-cases, inl, inr,
}
use mathlib.Core.List.{append_assoc}
use lite_checker.State.{Host}
use lite_checker.Direct.{
  Message, Queue, QueueFile, stored, Result, good, bad, message_too_large, state_unavailable,
  Bounds, valid_message, valid_messages, remaining_chunks, pending_chunks, drop_oldest, valid_queue,
  read_queue, write_queue, under_lock, queue_message, enqueue, all_fit,
}
use lite_checker.Direct.Drained.{valid-weaken}

abbrev pub message_ids : List Message → List String
message_ids [] = []
message_ids (m ∷ ms) = m.message_id ∷ message_ids ms

-- each message that is dropped leaves a queue that was over one of the bounds
abbrev pub Forced : Bounds → List Message → List Message → Type 0
Forced b [] kept = Unit
Forced b (x ∷ lost) kept =
    ((b.max_messages < length (x ∷ lost ++ kept))
      ⊎ (b.max_chunks < pending_chunks (x ∷ lost ++ kept)))
    × Forced b lost kept

-- Of the messages `ms`, the oldest are dropped while there are too many; the new one `m` stands last, in the bounds.
pub record Trimmed (b : Bounds) (ms : List Message) (m : Message) (dropped : ℕ)
    (r : List Message × ℕ) : Type 0 where
  pub lost : List Message
  pub older : List Message
  pub splits : ms ≡ lost ++ older
  pub keeps : r.0 ≡ older ++ m ∷ []
  pub counts : r.1 ≡ dropped + length lost
  pub few : length r.0 ≤ b.max_messages
  pub forced : Forced b lost r.0
  pub small : pending_chunks r.0 ≤ b.max_chunks

drop_oldest-Trimmed :
    (b : Bounds) (ms : List Message) (m : Message) (dropped : ℕ)
    → 1 ≤ b.max_messages
    → remaining_chunks m ≤ b.max_chunks
    → Trimmed b ms m dropped (drop_oldest b (ms ++ m ∷ []) dropped)
unfolding drop_oldest
drop_oldest-Trimmed b [] m dropped h k =
    let fits_in : (ltb b.max_messages (length (m ∷ []))
          || ltb b.max_chunks (pending_chunks (m ∷ [])))
        ≡ false =
      ground arith in
    rw fits_in (record {
      lost = [];
      older = [];
      splits = refl;
      keeps = refl;
      counts = omega arith;
      few = omega arith;
      forced = tt;
      small = omega arith;
    })
drop_oldest-Trimmed b (x ∷ ms) m dropped h k =
    let all = x ∷ ms ++ m ∷ [] in
    let ih = drop_oldest-Trimmed b ms m (dropped + 1) h k in
    let exceeded : (ltb b.max_messages (length all) || ltb b.max_chunks (pending_chunks all)) ≡ true
        → (b.max_messages < length all) ⊎ (b.max_chunks < pending_chunks all) =
      λ e. ground (arith, e) in
    let whole : ms ++ m ∷ [] ≡ ih.lost ++ (drop_oldest b (ms ++ m ∷ []) (dropped + 1)).0 =
      ap (λ l. l ++ m ∷ []) ih.splits
      ∙ append_assoc ih.lost ih.older (m ∷ [])
      ∙ ap (λ l. ih.lost ++ l) (sym ih.keeps) in
    elim (Bool-cases (ltb b.max_messages (length all) || ltb b.max_chunks (pending_chunks all))) [
      | inl e ↦ rw e (record {
        lost = x ∷ ih.lost;
        older = ih.older;
        splits = ap (λ l. x ∷ l) ih.splits;
        keeps = ih.keeps;
        counts = omega (arith, ih.counts);
        few = ih.few;
        forced = (
          subst (λ l. (b.max_messages < length (x ∷ l)) ⊎ (b.max_chunks < pending_chunks (x ∷ l)))
              whole (exceeded e),
          ih.forced,
        );
        small = ih.small;
      })
      | inr e ↦ rw e (record {
        lost = [];
        older = x ∷ ms;
        splits = refl;
        keeps = refl;
        counts = omega arith;
        few = ground arith;
        forced = tt;
        small = ground arith;
      })
    ]

valid_messages-append :
    (ids : List String) (ms : List Message) (m : Message)
    → valid_messages ids ms ≡ true
    → valid_message m ≡ true
    → contains ids m.message_id ≡ false
    → contains (message_ids ms) m.message_id ≡ false
    → valid_messages ids (ms ++ m ∷ []) ≡ true
unfolding valid_messages
valid_messages-append ids [] m h v f g = ground arith
valid_messages-append ids (x ∷ ms) m h v f g =
    ground (arith, valid_messages-append (x.message_id ∷ ids) ms m)

valid_messages-suffix :
    (is_time : String → Bool) (now : String) (ids : List String) (lost older : List Message)
    → valid_messages ids (lost ++ older) ≡ true
    → valid_messages [] older ≡ true
unfolding valid_messages
valid_messages-suffix is_time now ids [] older h =
    valid-weaken is_time now ids [] older (λ i k. absurd (cc k)) h
valid_messages-suffix is_time now ids (x ∷ lost) older h =
    valid_messages-suffix is_time now (x.message_id ∷ ids) lost older (ground arith)

contains-suffix :
    (lost older : List Message) (i : String)
    → contains (message_ids (lost ++ older)) i ≡ false
    → contains (message_ids older) i ≡ false
contains-suffix [] older i h = h
contains-suffix (x ∷ lost) older i h = contains-suffix lost older i (ground arith)

module _ (is_time : String → Bool) (h : Host) (b : Bounds) (chunks : List String)
    (created id : String) (q : Queue) where
  abbrev pub new_message : Message
  new_message = record {
    message_id = id;
    created_at = created;
    chunks = chunks;
    next_chunk_index = 0;
  }

  -- the queue `q'` is `q` with the new message, valid and in the bounds
  pub record Enqueued (q' : Queue) : Type 0 where
    pub trimmed :
        Trimmed b q.messages new_message q.dropped_messages (q'.messages, q'.dropped_messages)
    pub valid : valid_queue is_time h q' ≡ true

  abbrev pub too_large : Bool
  too_large = length chunks == 0 || ltb b.max_chunks (length chunks) || not (all_fit chunks)

  -- what the host failed to do
  abbrev pub HostFailed : QueueFile → Type 0
  HostFailed f =
      (((h.acquires ≡ false) ⊎ (h.writes ≡ false)) × (f ≡ stored q)) ⊎ (h.releases ≡ false)

  abbrev pub EnqueuedAnswer : Result String × QueueFile → Type 0
  EnqueuedAnswer (good i, f) = (i ≡ id) × (q' : Queue) × (f ≡ stored q') × Enqueued q'
  EnqueuedAnswer (bad e, f) =
      ((e ≡ message_too_large) × (too_large ≡ true) × (f ≡ stored q))
      ⊎ ((e ≡ state_unavailable) × HostFailed f)

  module _ (bounded : 1 ≤ b.max_messages) (valid : valid_queue is_time h q ≡ true)
      (long : (count id == 32) ≡ true) (fresh : contains (message_ids q.messages) id ≡ false) where
    queue_message-Enqueued : too_large ≡ false → Enqueued (queue_message is_time h b new_message q)
    unfolding queue_message valid_queue
    queue_message-Enqueued e =
        let t =
          drop_oldest-Trimmed b q.messages new_message q.dropped_messages bounded (ground arith) in
        let older_valid : valid_messages [] t.older ≡ true =
          valid_messages-suffix is_time created [] t.lost t.older
            (subst (λ l. valid_messages [] l ≡ true) t.splits (ground arith)) in
        let older_fresh =
          contains-suffix t.lost t.older id
            (subst (λ l. contains (message_ids l) id ≡ false) t.splits fresh) in
        let new_valid : valid_message new_message ≡ true = unfold valid_message in ground arith in
        let all_valid =
          valid_messages-append [] t.older new_message older_valid new_valid refl older_fresh in
        record { trimmed = t; valid = rw t.keeps (ground arith) }

    -- From a valid queue, with bounds of at least one message and a message id of 32 characters that
    -- the queue has not: `enqueue` that returns gives that id and stores the queue with the new
    -- message last. Only oldest messages are dropped, each from a queue that was over one of the bounds, and
    -- counted; what is left is in the bounds and
    -- is read as valid. It raises only when the message is too large or empty, or the host fails, and the
    -- file is then as before unless the lock was not released.
    pub enqueue-Enqueued : EnqueuedAnswer (enqueue is_time h b chunks created id (stored q))
    unfolding enqueue under_lock read_queue write_queue
    enqueue-Enqueued = elim (Bool-cases too_large) [
      | inl e ↦ rw e (inl (refl, e, refl))
      | inr e ↦
          rw (e, valid)
            (elim (Bool-cases h.acquires) [
              | inr a ↦ simp a (inr (refl, inl (inl refl, refl)))
              | inl a ↦ simp a (elim (Bool-cases h.releases) [
                | inr r ↦ simp r (inr (refl, inr refl))
                | inl r ↦ simp r (elim (Bool-cases h.writes) [
                  | inr w ↦ simp w (inr (refl, inl (inr refl, refl)))
                  | inl w ↦ simp w (refl, _, refl, queue_message-Enqueued e)
                ])
              ])
            ])
    ]
