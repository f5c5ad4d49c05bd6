-- ===== src/Agent/Delivered.antt =====
-- What a delivery has sent, and where it leaves the report.
use lite_checker.Prelude.{
  ℕ, Bool, true, false, Option, List, ◌++◌, ◌≡◌, ◌⊎◌, ◌∙◌, refl, ap, subst, nat_eq, ◌==◌, string_eq,
  inl, inr, Bool-cases, if◌then◌else◌,
}
use lite_checker.Json.{Fields}
use lite_checker.State.{Reply, ok, refused, Host}
use lite_checker.State.Pending.{load, save, replace_if_event}
use lite_checker.Agent.Slot.{InFile, IsHeld}
use lite_checker.Agent.{
  AgentReport, model_dump, Surroundings, World, after, call, retry_pending, owns, if_replaced,
  count_dropped, after_retry, retry_first, deliver_locked, release, deliver_current, if_owned,
  deliver_report,
}
use lite_checker.Agent.Sent.{
  Post, after-Post, identity_of, found, call-Post, Retried, retry_pending-Post, owns-Post, SentAs,
  check_and_send-Post,
}

module _ (s : Surroundings) where
  -- the report with the number of dropped ones, if there are any
  abbrev pub counted : AgentReport → ℕ → AgentReport
  counted r n = if n == 0 then r else record r { dropped_report_count = n }

  if_replaced-Post :
      (base : List (AgentReport × Bool)) (r : AgentReport) (b : Bool) (w : World)
      → w.sent ≡ base
      → Post (SentAs s base r) (if_replaced s r b w)
  if_replaced-Post base r false w e = (refl, inl e)
  if_replaced-Post base r true w e = check_and_send-Post s base r w e

  count_dropped-Post :
      (base : List (AgentReport × Bool)) (r : AgentReport) (n : ℕ) (w : World)
      → w.sent ≡ base
      → Post (SentAs s base (counted r n)) (count_dropped s r n w)
  unfolding count_dropped
  count_dropped-Post base r n w e = elim (Bool-cases (n == 0)) [
    | inl t ↦ rw t (check_and_send-Post s base r w e)
    | inr t ↦ rw t (
        let q : AgentReport = record r { dropped_report_count = n } in
        after-Post (λ b v. (v.sent ≡ w.sent) × Unit) (SentAs s base q)
          (call s (λ h. replace_if_event h r.event_id (model_dump q)) w) (if_replaced s q)
          (call-Post s (λ h. replace_if_event h r.event_id (model_dump q)) w (λ b f. Unit)
            (λ h b x. tt))
          (λ b v (same, u). if_replaced-Post base q b v (same ∙ e)))
  ]

  -- Nothing was sent; or the earlier report was, and then the report was not or was, with what came
  -- of it.
  abbrev pub IsDelivered :
      Option Fields → List (AgentReport × Bool) → AgentReport → AgentReport × Bool → World → Type 0
  IsDelivered p base r answer v =
      ((answer ≡ (r, false)) × (v.sent ≡ base))
      ⊎ ((earlier : List (AgentReport × Bool)) × (n : ℕ) × Retried s p earlier n
          × (((answer ≡ (r, false)) × (v.sent ≡ base ++ earlier))
              ⊎ SentAs s (base ++ earlier) (counted r n) answer v))

  module _ (p : Option Fields) (base : List (AgentReport × Bool)) (r : AgentReport) where
    abbrev Result : AgentReport × Bool → World → Type 0
    Result = IsDelivered p base r

    after_retry-Post :
        (earlier : List (AgentReport × Bool)) (n : ℕ) (b : Bool) (w : World)
        → Retried s p earlier n
        → w.sent ≡ base ++ earlier
        → Post Result (after_retry s r n b w)
    after_retry-Post earlier n false w h e = inr (earlier, n, h, inl (refl, e))
    after_retry-Post earlier n true w h e =
        weaken (count_dropped s r n w) (count_dropped-Post (base ++ earlier) r n w e)
      where
        weaken :
            (x : Reply (AgentReport × Bool) × World)
            → Post (SentAs s (base ++ earlier) (counted r n)) x
            → Post Result x
        weaken (ok a, v) k = inr (earlier, n, h, inr k)
        weaken (refused y, v) k = tt

    retry_first-Post : (b : Bool) (w : World) → w.sent ≡ base → Post Result (retry_first s r p b w)
    retry_first-Post false w e = inl (refl, e)
    retry_first-Post true w e =
        after-Post
          (λ n v.
            (earlier : List (AgentReport × Bool)) × Retried s p earlier n
            × (v.sent ≡ w.sent ++ earlier))
          Result (retry_pending s p w) (λ n v. after (owns s r v) (after_retry s r n))
          (retry_pending-Post s p w)
          (λ n v (earlier, h, q).
            after-Post
              (λ b u. (u.sent ≡ v.sent) × (b ≡ true → InFile (IsHeld (identity_of r)) u.file))
              Result (owns s r v) (after_retry s r n) (owns-Post s r v)
              (λ b u (same, held).
                after_retry-Post earlier n b u h (same ∙ q ∙ ap (λ x. x ++ earlier) e)))

    deliver_current-Post : (w : World) → w.sent ≡ base → Post Result (deliver_current s r p w)
    unfolding deliver_current deliver_locked
    deliver_current-Post w e = elim (Bool-cases s.lock_acquired) [
      | inr t ↦ rw t (inl (refl, e))
      | inl t ↦ rw t (
          released (deliver_locked s r p w) (
            after-Post
              (λ b u. (u.sent ≡ w.sent) × (b ≡ true → InFile (IsHeld (identity_of r)) u.file))
              Result (owns s r w) (retry_first s r p) (owns-Post s r w)
              (λ b u (same, held). retry_first-Post b u (same ∙ e))))
    ]
      where
        released :
            (x : Reply (AgentReport × Bool) × World) → Post Result x → Post Result (release s x)
        released x h = elim (Bool-cases s.lock_released) [ inl t ↦ rw t h | inr t ↦ rw t tt ]

    if_owned-Post : (b : Bool) (w : World) → w.sent ≡ base → Post Result (if_owned s r p b w)
    if_owned-Post false w e = inl (refl, e)
    if_owned-Post true w e = deliver_current-Post w e

  -- what the delivery finds pending at its start
  abbrev pub Loaded : World → Option Fields → Type 0
  Loaded w p = (h : Host) × ((load h (found s w)).0 ≡ ok p)

  abbrev Delivers : AgentReport → World → AgentReport × Bool → World → Type 0
  Delivers r w answer v = (p : Option Fields) × Loaded w p × IsDelivered p w.sent r answer v

  deliver_report-Post : (r : AgentReport) (w : World) → Post (Delivers r w) (deliver_report s r w)
  unfolding deliver_report
  deliver_report-Post r w =
      after-Post (λ p v. (v.sent ≡ w.sent) × Loaded w p) (Delivers r w) (call s load w)
        (λ p v. after (call s (λ h. save h (model_dump r)) v) (if_owned s r p))
        (call-Post s load w (λ p f. Loaded w p) (λ h p e. (h, e)))
        (λ p v (same, loaded).
          after-Post (λ b u. (u.sent ≡ v.sent) × Unit) (Delivers r w)
            (call s (λ h. save h (model_dump r)) v) (if_owned s r p)
            (call-Post s (λ h. save h (model_dump r)) v (λ b f. Unit) (λ h b x. tt))
            (λ b u (like, y).
              wrap p loaded (if_owned s r p b u) (if_owned-Post p w.sent r b u (like ∙ same))))
    where
      wrap :
          (p : Option Fields)
          → Loaded w p
          → (x : Reply (AgentReport × Bool) × World) → Post (IsDelivered p w.sent r) x
          → Post (Delivers r w) x
      wrap p l (ok a, v) k = (p, l, k)
      wrap p l (refused y, v) k = tt

  pub deliver_report-IsDelivered :
      (r : AgentReport) (w v : World) (answer : AgentReport × Bool)
      → deliver_report s r w ≡ (ok answer, v)
      → (p : Option Fields) × Loaded w p × IsDelivered p w.sent r answer v
  deliver_report-IsDelivered r w v answer e =
      subst (Post (Delivers r w)) e (deliver_report-Post r w)
