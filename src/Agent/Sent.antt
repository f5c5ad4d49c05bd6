-- ===== src/Agent/Sent.antt =====
-- The calls of a delivery: what each has sent, and where it leaves the report.
use lite_checker.Prelude.{
  ℕ, ◌+◌, Bool, true, false, Option, none, some, List, [], ◌∷◌, ◌++◌, ◌≡◌, ◌⊎◌, ◌∙◌, refl, sym, ap,
  subst, nat_eq, ◌==◌, string_eq, inl, inr, Bool-cases,
}
use mathlib.Core.List.{append-nil}
use lite_checker.Json.{Fields}
use lite_checker.State.{Reply, ok, refused, File, Host, Step}
use lite_checker.State.Pending.{Identity, identity_at, clear, is_pending}
use lite_checker.State.Pending.Delivery.{perform_all}
use lite_checker.Agent.Slot.{
  InFile, IsHeld, IsGone, tests_owner-IsHeld, perform_all-IsHeld, clear-IsGone,
}
use lite_checker.Agent.{
  AgentReport, Surroundings, World, Process, after, give, call, count_of, retry, retry_pending,
  owns, clear_if, send_current, check_and_send,
}

-- a property of what a process returns and leaves
abbrev pub Post : {A : Type 0} → (A → World → Type 0) → Reply A × World → Type 0
Post P (ok a, w) = P a w
Post P (refused e, w) = Unit

pub after-Post :
    {A B : Type 0} (P : A → World → Type 0) (Q : B → World → Type 0) (x : Reply A × World)
    (f : A → Process B)
    → Post P x
    → ((a : A) (w : World) → P a w → Post Q (f a w))
    → Post Q (after x f)
after-Post P Q (ok a, w) f h k = k a w h
after-Post P Q (refused e, w) f h k = tt

abbrev pub identity_of : AgentReport → Identity
identity_of r = record { event_id = r.event_id; sequence = r.sequence }

is_pending-IsHeld :
    (h : Host) (r : AgentReport) (f : File)
    → (is_pending h r.event_id r.sequence f).0 ≡ ok true
    → InFile (IsHeld (identity_of r)) (is_pending h r.event_id r.sequence f).1
unfolding is_pending identity_at
is_pending-IsHeld h r f = elim (Bool-cases (r.event_id == "")) [
  | inl t ↦ rw t (λ e. absurd (cc e))
  | inr t ↦ rw t (tests_owner-IsHeld (identity_of r) f h (ok (identity_of r)) refl)
]

module _ (s : Surroundings) where
  -- what the call finds
  abbrev pub found : World → File
  found w = perform_all (s.others w.tick) w.file

  pub call-Post :
      {A : Type 0} (step : Host → Step A) (w : World) (Q : A → File → Type 0)
      → ((h : Host) (a : A) → (step h (found w)).0 ≡ ok a → Q a (step h (found w)).1)
      → Post (λ a v. (v.sent ≡ w.sent) × Q a v.file) (call s step w)
  call-Post {A} step w Q h = go (step (s.host w.tick) (found w)).0 refl
    where
      go :
          (x : Reply A)
          → (step (s.host w.tick) (found w)).0 ≡ x
          → Post
              (λ a v. (v.sent ≡ w.sent) × Q a v.file)
              (
                x,
                record {
                  file = (step (s.host w.tick) (found w)).1;
                  tick = w.tick + 1;
                  sent = w.sent;
                },
              )
      go (ok a) e = (refl, h (s.host w.tick) a e)
      go (refused x) e = tt

  abbrev pub RetriedAs : Option AgentReport → List (AgentReport × Bool) → ℕ → Type 0
  RetriedAs none earlier n = (earlier ≡ []) × (n ≡ 1)
  RetriedAs (some q) earlier n = (b : Bool) × (earlier ≡ (q, b) ∷ []) × (n ≡ count_of s b)

  -- The report that was pending is sent first. It counts as dropped unless it was accepted.
  abbrev pub Retried : Option Fields → List (AgentReport × Bool) → ℕ → Type 0
  Retried none earlier n = (earlier ≡ []) × (n ≡ 0)
  Retried (some d) earlier n = RetriedAs (s.validate d) earlier n

  pub retry_pending-Post :
      (p : Option Fields) (w : World)
      → Post
          (λ n v.
            (earlier : List (AgentReport × Bool)) × Retried p earlier n
            × (v.sent ≡ w.sent ++ earlier))
          (retry_pending s p w)
  unfolding retry_pending
  retry_pending-Post none w = ([], (refl, refl), sym (append-nil w.sent))
  retry_pending-Post (some d) w = go (s.validate d)
    where
      go :
          (q : Option AgentReport)
          → Post
              (λ n v.
                (earlier : List (AgentReport × Bool)) × RetriedAs q earlier n
                × (v.sent ≡ w.sent ++ earlier))
              (retry s q w)
      go none = ([], (refl, refl), sym (append-nil w.sent))
      go (some q) =
          ((q, s.collector_accepts w.tick) ∷ [], (s.collector_accepts w.tick, refl, refl), refl)

  pub owns-Post :
      (r : AgentReport) (w : World)
      → Post
          (λ b v. (v.sent ≡ w.sent) × (b ≡ true → InFile (IsHeld (identity_of r)) v.file))
          (owns s r w)
  owns-Post r w =
      call-Post (λ h. is_pending h r.event_id r.sequence) w
        (λ b f. b ≡ true → InFile (IsHeld (identity_of r)) f)
        (λ h b e t. is_pending-IsHeld h r (found w) (e ∙ ap ok t))

  -- A report that the collector has accepted is gone from the file; one that was not accepted was
  -- sent in vain, or not at all.
  abbrev pub IsSent : List (AgentReport × Bool) → AgentReport → Bool → World → Type 0
  IsSent base r true v =
      InFile (IsGone (identity_of r)) v.file × (v.sent ≡ base ++ ((r, true) ∷ []))
  IsSent base r false v = (v.sent ≡ base) ⊎ (v.sent ≡ base ++ ((r, false) ∷ []))

  abbrev pub SentAs : List (AgentReport × Bool) → AgentReport → AgentReport × Bool → World → Type 0
  SentAs base r answer v = (answer.0 ≡ r) × IsSent base r answer.1 v

  clear_if-Post :
      (base : List (AgentReport × Bool)) (r : AgentReport) (b : Bool) (w : World)
      → InFile (IsHeld (identity_of r)) w.file
      → w.sent ≡ base ++ ((r, b) ∷ [])
      → Post (SentAs base r) (clear_if s b r w)
  clear_if-Post base r false w held sent = (refl, inr sent)
  clear_if-Post base r true w held sent =
      after-Post (λ a v. (v.sent ≡ w.sent) × InFile (IsGone (identity_of r)) v.file) (SentAs base r)
        (call s (λ h. clear h r.event_id) w) (λ cleared. give (r, true))
        (call-Post (λ h. clear h r.event_id) w (λ a f. InFile (IsGone (identity_of r)) f)
          (λ h a q.
            clear-IsGone (identity_of r) (found w) h a
              (perform_all-IsHeld (identity_of r) (s.others w.tick) w.file held) q))
        (λ a v (same, gone). (refl, (gone, same ∙ sent)))

  send_current-Post :
      (r : AgentReport) (b : Bool) (w : World)
      → (b ≡ true → InFile (IsHeld (identity_of r)) w.file)
      → Post (SentAs w.sent r) (send_current s r b w)
  unfolding send_current
  send_current-Post r false w held = (refl, inl refl)
  send_current-Post r true w held =
      clear_if-Post w.sent r (s.collector_accepts w.tick) _ (held refl) refl

  pub check_and_send-Post :
      (base : List (AgentReport × Bool)) (r : AgentReport) (w : World)
      → w.sent ≡ base
      → Post (SentAs base r) (check_and_send s r w)
  unfolding check_and_send
  check_and_send-Post base r w e =
      after-Post (λ b v. (v.sent ≡ w.sent) × (b ≡ true → InFile (IsHeld (identity_of r)) v.file))
        (SentAs base r) (owns s r w) (send_current s r) (owns-Post r w)
        (λ b v (same, held).
          subst (λ x. Post (SentAs x r) (send_current s r b v)) (same ∙ e)
            (send_current-Post r b v held))
