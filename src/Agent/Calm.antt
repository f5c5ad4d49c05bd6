-- ===== src/Agent/Calm.antt =====
-- A delivery that nothing disturbs.
use lite_checker.Prelude.{
  ℕ, ◌≡◌, refl, ap, Bool, true, false, Option, none, some, [], string_eq, nat_eq, ◌==◌, inl, inr,
  Bool-cases,
}
use lite_checker.Json.{Fields, obj, get}
use lite_checker.State.{Reply, ok, refused, File, holds, Host, Step}
use lite_checker.State.Pending.{
  PendingState, pending_identity, identity_at, read_pending, envelope, load, save, replace_if_event,
  clear, is_pending,
}
use lite_checker.State.Pending.Delivery.{perform_all}
use lite_checker.Agent.{
  retry, owns, clear_if, if_replaced, after_retry, retry_first, if_owned, AgentReport, Surroundings,
  World, Process, after, call, model_dump, retry_pending, send_current, check_and_send,
  count_dropped, deliver_locked, deliver_current, deliver_report,
}
use lite_checker.Agent.Sent.{identity_of}
use lite_checker.State.Pending.Working.{
  works, held, held-is_pending, held-clear, held-replace_if_event, Below, save-works, load-works,
}

-- Nothing fails, nobody else writes, and the collector accepts everything.
pub record IsCalm (s : Surroundings) : Type 0 where
  pub host : (t : ℕ) → s.host t ≡ works
  pub alone : (t : ℕ) → s.others t ≡ []
  pub accepts : (t : ℕ) → s.collector_accepts t ≡ true
  pub acquired : s.lock_acquired ≡ true
  pub released : s.lock_released ≡ true

-- a process that returns, and what then holds
abbrev pub Sure : {A : Type 0} → (A → File → Type 0) → Reply A × World → Type 0
Sure P (ok a, w) = P a w.file
Sure P (refused e, w) = ⊥

after-Sure :
    {A B : Type 0} (P : A → File → Type 0) (Q : B → File → Type 0) (x : Reply A × World)
    (f : A → Process B)
    → Sure P x
    → ((a : A) (w : World) → P a w.file → Sure Q (f a w))
    → Sure Q (after x f)
after-Sure P Q (ok a, w) f h k = k a w h
after-Sure P Q (refused e, w) f h k = absurd h

module _ (s : Surroundings) (calm : IsCalm s) where
  call-Sure :
      {A : Type 0} (P : A → File → Type 0) (step : Host → Step A) (w : World) (a : A) (g : File)
      → step works w.file ≡ (ok a, g)
      → P a g
      → Sure P (call s step w)
  unfolding perform_all
  call-Sure P step w a g e p = rw (calm.host w.tick, calm.alone w.tick) (rw e p)

  -- the file holds the report `q`
  abbrev HeldAs : AgentReport → File → Type 0
  HeldAs q f = f ≡ holds (obj (envelope (identity_of q) (some (model_dump q))))

  -- the report was accepted, and the file is done with it
  abbrev pub Done : AgentReport → AgentReport × Bool → File → Type 0
  Done q a f =
      (a.0.event_id ≡ q.event_id) × (a.1 ≡ true) × (f ≡ holds (obj (envelope (identity_of q) none)))

  module _ (q : AgentReport) (named : (q.event_id == "") ≡ false) where
    dumped : pending_identity (model_dump q) ≡ ok (identity_of q)
    unfolding pending_identity identity_at model_dump get
    dumped = rw named refl

    owns-Sure : (w : World) → HeldAs q w.file → Sure (λ b f. (b ≡ true) × HeldAs q f) (owns s q w)
    owns-Sure w h =
        call-Sure (λ b f. (b ≡ true) × HeldAs q f) (λ k. is_pending k q.event_id q.sequence) w true
          (held (identity_of q) named (model_dump q) dumped)
          (rw h (held-is_pending (identity_of q) named (model_dump q) dumped)) (refl, refl)

    clear_if-Sure : (w : World) → HeldAs q w.file → Sure (Done q) (clear_if s true q w)
    clear_if-Sure w h =
        after-Sure (λ b f. f ≡ holds (obj (envelope (identity_of q) none))) (Done q)
          (call s (λ k. clear k q.event_id) w) _
          (call-Sure (λ b f. f ≡ holds (obj (envelope (identity_of q) none)))
            (λ k. clear k q.event_id) w true (holds (obj (envelope (identity_of q) none)))
            (rw h (held-clear (identity_of q) named (model_dump q) dumped)) refl)
          (λ b v e. (refl, refl, e))

    check_and_send-Sure : (w : World) → HeldAs q w.file → Sure (Done q) (check_and_send s q w)
    unfolding check_and_send send_current
    check_and_send-Sure w h =
        after-Sure (λ b f. (b ≡ true) × HeldAs q f) (Done q) (owns s q w) (send_current s q)
          (owns-Sure w h) (λ b v (t, k). rw t (rw (calm.accepts v.tick) (clear_if-Sure _ k)))

  module _ (r : AgentReport) (named : (r.event_id == "") ≡ false) where
    count_dropped-Sure :
        (n : ℕ) (w : World) → HeldAs r w.file → Sure (Done r) (count_dropped s r n w)
    unfolding count_dropped
    count_dropped-Sure n w h = elim (Bool-cases (n == 0)) [
      | inl t ↦ rw t (check_and_send-Sure r named w h)
      | inr t ↦ rw t (
          let q : AgentReport = record r { dropped_report_count = n } in
          after-Sure (λ b f. (b ≡ true) × HeldAs q f) (Done r)
            (call s (λ k. replace_if_event k r.event_id (model_dump q)) w) (if_replaced s q)
            (call-Sure (λ b f. (b ≡ true) × HeldAs q f)
              (λ k. replace_if_event k r.event_id (model_dump q)) w true
              (holds (obj (envelope (identity_of q) (some (model_dump q)))))
              (rw h (
                held-replace_if_event (identity_of r) named (model_dump r) (dumped r named)
                  (model_dump q) (dumped q named)))
              (refl, refl))
            (λ b v (t, k). rw t (check_and_send-Sure q named v k)))
    ]

    -- the earlier report is sent, or is not valid
    retry_pending-Sure :
        (p : Option Fields) (w : World)
        → HeldAs r w.file
        → Sure (λ n f. HeldAs r f) (retry_pending s p w)
    unfolding retry_pending
    retry_pending-Sure none w h = h
    retry_pending-Sure (some d) w h = go (s.validate d)
      where
        go : (o : Option AgentReport) → Sure (λ n f. HeldAs r f) (retry s o w)
        go none = h
        go (some q) = h

    deliver_locked-Sure :
        (p : Option Fields) (w : World) → HeldAs r w.file → Sure (Done r) (deliver_locked s r p w)
    unfolding deliver_locked
    deliver_locked-Sure p w h =
        after-Sure (λ b f. (b ≡ true) × HeldAs r f) (Done r) (owns s r w) (retry_first s r p)
          (owns-Sure r named w h)
          (λ b v (t, k). rw t (
            after-Sure (λ n f. HeldAs r f) (Done r) (retry_pending s p v)
              (λ n u. after (owns s r u) (after_retry s r n)) (retry_pending-Sure p v k)
              (λ n u j.
                after-Sure (λ b f. (b ≡ true) × HeldAs r f) (Done r) (owns s r u)
                  (after_retry s r n) (owns-Sure r named u j)
                  (λ c x (t', i). rw t' (count_dropped-Sure n x i)))))

    deliver_current-Sure :
        (p : Option Fields) (w : World) → HeldAs r w.file → Sure (Done r) (deliver_current s r p w)
    unfolding deliver_current
    deliver_current-Sure p w h = rw (calm.acquired, calm.released) (deliver_locked-Sure p w h)

    deliver_report-Sure :
        (w : World) (st : PendingState)
        → read_pending w.file ≡ ok st
        → Below st.high_water r.sequence
        → Sure (Done r) (deliver_report s r w)
    unfolding deliver_report
    deliver_report-Sure w st read below =
        after-Sure (λ p f. f ≡ w.file) (Done r) (call s load w)
          (λ p v. after (call s (λ h. save h (model_dump r)) v) (if_owned s r p))
          (call-Sure (λ p f. f ≡ w.file) load w st.report w.file (load-works w.file st read) refl)
          (λ p v e.
            after-Sure (λ b f. (b ≡ true) × HeldAs r f) (Done r)
              (call s (λ h. save h (model_dump r)) v) (if_owned s r p)
              (call-Sure (λ b f. (b ≡ true) × HeldAs r f) (λ h. save h (model_dump r)) v true
                (holds (obj (envelope (identity_of r) (some (model_dump r)))))
                (rw e
                  (save-works w.file st (identity_of r) (model_dump r) read (dumped r named) below))
                (refl, refl))
              (λ b u (t, k). rw t (deliver_current-Sure p u k)))

    -- If nothing fails, nobody else writes and the collector accepts what it is sent, then the
    -- delivery of a report with an id, whose sequence is above the mark of a readable file, returns,
    -- says that the report is accepted, and leaves the file with the mark of the report and nothing
    -- pending, whatever was pending before.
    pub deliver_report-accepts :
        (w : World) (st : PendingState)
        → read_pending w.file ≡ ok st
        → Below st.high_water r.sequence
        → (q : AgentReport) × (v : World) × (deliver_report s r w ≡ (ok (q, true), v))
          × (q.event_id ≡ r.event_id)
          × (v.file ≡ holds (obj (envelope (identity_of r) none)))
    deliver_report-accepts w st read below =
        given (deliver_report s r w) (deliver_report-Sure w st read below)
      where
        given :
            (x : Reply (AgentReport × Bool) × World)
            → Sure (Done r) x
            → (q : AgentReport) × (v : World) × (x ≡ (ok (q, true), v))
              × (q.event_id ≡ r.event_id)
              × (v.file ≡ holds (obj (envelope (identity_of r) none)))
        given (ok (q, b), v) (same, t, e) = (q, v, ap (λ b. (ok (q, b), v)) t, same, e)
        given (refused e, v) h = absurd h
