-- ===== src/Agent/Accepted.antt =====
-- A report that the collector has accepted stays out of the file.
use lite_checker.Prelude.{
  ℕ, Bool, true, Option, some, List, ◌≡◌, ◌<◌, refl, subst, nat_eq, ◌==◌, inl, inr, Bool-cases,
}
use lite_checker.Json.{Fields}
use lite_checker.State.{ok}
use lite_checker.State.Pending.{Identity, PendingState, pending_identity, read_pending}
use lite_checker.State.Pending.Delivery.{Operation, perform_all}
use lite_checker.Agent.Slot.{InFile, IsGone, IsGone-later, perform_all-IsGone}
use lite_checker.Agent.Sent.{identity_of}
use lite_checker.Agent.Delivered.{counted, IsDelivered, deliver_report-IsDelivered}
use lite_checker.Agent.{AgentReport, Surroundings, World, deliver_report}

module _ (s : Surroundings) where
  counted-identity : (r : AgentReport) (n : ℕ) → identity_of (counted s r n) ≡ identity_of r
  counted-identity r n = elim (Bool-cases (n == 0)) [ inl t ↦ rw t refl | inr t ↦ rw t refl ]

  accepted-IsGone :
      (p : Option Fields) (base : List (AgentReport × Bool)) (r q : AgentReport) (v : World)
      → IsDelivered s p base r (q, true) v
      → InFile (IsGone (identity_of r)) v.file
  accepted-IsGone p base r q v (inl (e, sent)) = absurd (cc e)
  accepted-IsGone p base r q v (inr (earlier, n, h, inl (e, sent))) = absurd (cc e)
  accepted-IsGone p base r q v (inr (earlier, n, h, inr (e, (gone, sent)))) =
      subst (λ i. InFile (IsGone i) v.file) (counted-identity r n) gone

  -- Once a delivery has said that its report is accepted, no series of saves, replacements and clears
  -- by any process, failing or not, makes that report pending again: what is pending afterwards has a
  -- later sequence.
  pub deliver_report-later :
      (r q : AgentReport) (w v : World) (os : List Operation) (u : PendingState) (d : Fields)
      → deliver_report s r w ≡ (ok (q, true), v)
      → read_pending (perform_all os v.file) ≡ ok u
      → u.report ≡ some d
      → (j : Identity) × (pending_identity d ≡ ok j) × (r.sequence < j.sequence)
  deliver_report-later r q w v os u d e read pending =
      let (p, loaded, h) = deliver_report-IsDelivered s r w v (q, true) e in
      IsGone-later (identity_of r) (perform_all os v.file) u d
        (perform_all-IsGone (identity_of r) os v.file (accepted-IsGone p w.sent r q v h)) read
        pending
