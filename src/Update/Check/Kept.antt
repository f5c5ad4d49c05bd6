-- ===== src/Update/Check/Kept.antt =====
-- The recovery of an update that was interrupted keeps every moment sound.
use lite_checker.Prelude.{
  ℕ, ◌≡◌, ◌≢◌, ◌∙◌, refl, sym, ap, subst, Bool, true, false, Option, none, some, Outcome, returned,
  raised,
}
use lite_checker.Update.Manifest.{Formats}
use lite_checker.Update.Install.{Pending, InstallState, read_install, failed, rolled_back}
use lite_checker.Update.Machine.{
  Environment, Machine, Place, at, unknown, late, after, give, ticked, go_live, restore,
  write_outcome,
}
use lite_checker.Update.Recovery.{
  Report, mark_failed, rolled_back_to, after_restore, recover_now, recover_pending, recover,
  release_path, maintenance_lock,
}
use lite_checker.Update.Check.{ChannelFile}
use lite_checker.Update.Check.Sound.{
  SafeAt, Sound, Safe, Journalled, Journalled-Safe, Whole, AllWhole, Recoverable, Whole-read,
  after-Keeps,
}
use lite_checker.Update.Check.Steps.{
  release_path-Ends, maintenance_lock-Ends, restore-cases, write_outcome-Safe, with_cleanup-Keeps,
  closed_with-Safe,
}
use lite_checker.Update.Check.Ends.{Ends, Never, after-Ends, rescue-Ends, released-Ends, after-Last}
use lite_checker.Update.Check.Judged.{Unmarked}

module _ (e : Environment) (timely : (t : ℕ) → e.writes t ≢ late) (f : Formats) (file : ChannelFile)
    (b : InstallState) where
  abbrev SafeNow : Machine → Type 0
  SafeNow = Safe f e file b

  -- the journal of the start, and the old release running
  abbrev Restored : Pending → Machine → Type 0
  Restored p w = Journalled f e file b w × (w.live ≡ at p.from_version)

  rolled_back_to-Safe :
      (p : Pending) (w : Machine)
      → p.from_version ≡ b.active
      → Restored p w
      → SafeNow (rolled_back_to e p w).1
  unfolding rolled_back_to
  rolled_back_to-Safe p w from ((past, any, same), live) =
      let w' : Machine = record w { state = mark_failed e p.sequence p.digest w.state } in
      let idle : Recoverable none w.state.active w.live = live ∙ ap at (from ∙ sym same) in
      after-Keeps SafeNow
        (write_outcome e rolled_back (some "interrupted update was rolled back") w') _
        (write_outcome-Safe e timely f file b rolled_back
          (some "interrupted update was rolled back") w'
          (past, (any w.live).0, (idle, (any w.live).1.1, (any w.live).1.2)))
        (λ _ v.
          with_cleanup-Keeps e (SafeAt f e file b) rolled_back
            (some "interrupted update was rolled back") (some p.to_version) v)

  abbrev Answered : Pending → Bool → Machine → Type 0
  Answered p true w = Restored p w
  Answered p false w = Journalled f e file b w

  after_restore-Safe :
      (p : Pending) (restored : Bool) (w : Machine)
      → p.from_version ≡ b.active
      → Answered p restored w
      → SafeNow (after_restore e p restored w).1
  unfolding after_restore
  after_restore-Safe p true w from k = rolled_back_to-Safe p w from k
  after_restore-Safe p false w from k =
      closed_with-Safe e timely f file b failed "interrupted update recovery failed" w
        (Journalled-Safe f e file b w k)

  recover_now-Safe :
      (p : Pending) (lock : Bool) (w : Machine)
      → p.from_version ≡ b.active
      → Journalled f e file b w
      → SafeNow (recover_now e p lock w).1
  unfolding recover_now
  recover_now-Safe p false w from k = Journalled-Safe f e file b w k
  recover_now-Safe p true w from (past, any, same) =
      after-Last (Answered p) (Journalled f e file b) SafeNow _ _
        (released-Ends (Answered p) Never (Journalled f e file b) e.maintenance_releases _
          (rescue-Ends (Answered p) (Journalled f e file b) Never
            (restore e p.from_version p.was_running w) (give false)
            (restore-cases e timely (Answered p) (Journalled f e file b) p.from_version
              p.was_running w answered (((any (at p.from_version)).0, past), any, same)
              (((any unknown).0, past), any, same))
            (λ v k. k))
          journalled (λ v n. absurd n))
        (Journalled-Safe f e file b) (λ restored v. after_restore-Safe p restored v from)
    where
      journalled : (restored : Bool) (v : Machine) → Answered p restored v → Journalled f e file b v
      journalled true v a = a.0
      journalled false v a = a

      answered :
          (answer : Bool) → Answered p answer (ticked (go_live (at p.from_version) (ticked w)))
      answered true = ((((any (at p.from_version)).0, past), any, same), refl)
      answered false = (((any (at p.from_version)).0, past), any, same)

  -- the machine when the lock is held: the state of the file, in the variable too
  abbrev pub Opened : Machine → Type 0
  Opened w =
      AllWhole f e file b w.past
      × Whole f e file b w.install w.live
      × (read_install w.install ≡ some b)
      × Recoverable b.pending b.active w.live

  -- with a journal in the state, any release may run
  Opened-Journalled :
      (p : Pending) (w : Machine)
      → b.pending ≡ some p
      → Opened w
      → w.state ≡ b
      → (p.from_version ≡ b.active) × Journalled f e file b w
  Opened-Journalled p w pending (past, whole, found, runs) same =
      let from : p.from_version ≡ b.active =
        subst (λ q. Recoverable q b.active w.live) pending runs in
      let every : (live : Place) → Recoverable b.pending b.active live =
        λ live. subst (λ q. Recoverable q b.active live) (sym pending) from in
      let any : (live : Place) → Whole f e file b w.install live × Sound f e file b w.state live =
        λ live.
          let both = Whole-read f e file b w.install live found (every live) in
          (both.0, subst (λ s. Sound f e file b s live) (sym same) both.1) in
      (from, (past, any, ap (λ s. s.active) same))

  -- what the recovery leaves: a result, or the machine as it was
  abbrev pub Recovered : Option Report → Machine → Type 0
  Recovered (some r) w = SafeNow w
  Recovered none w = Unmarked e timely f file b w

  Opened-Unmarked :
      (w : Machine) → b.pending ≡ none → Opened w → w.state ≡ b → Unmarked e timely f file b w
  Opened-Unmarked w pending (past, whole, found, runs) same =
      let both = Whole-read f e file b w.install w.live found runs in
      let memory : Sound f e file b w.state w.live =
        subst (λ s. Sound f e file b s w.live) (sym same) both.1 in
      (
        (
          (past, whole, memory),
          ap (λ s. s.active) same,
          ap (λ s. s.previous) same,
          ap (λ s. s.pending) same ∙ pending,
        ),
        ap (λ s. s.highest_sequence) same,
        ap (λ s. s.highest_digest) same,
      )

  wrapped :
      (r : Outcome Report × Machine)
      → SafeNow r.1
      → Ends Recovered SafeNow (after r (λ a. give (some a)))
  wrapped (returned a, w) s = s
  wrapped (raised x, w) s = s

  recover_pending-Ends :
      (q : Option Pending) (w : Machine)
      → b.pending ≡ q
      → Opened w
      → w.state ≡ b
      → Ends Recovered SafeNow (recover_pending e q w)
  unfolding recover_pending
  recover_pending-Ends none w pending opened same = Opened-Unmarked w pending opened same
  recover_pending-Ends (some p) w pending opened same =
      let (from, journalled) = Opened-Journalled p w pending opened same in
      after-Ends (λ _. Journalled f e file b) Recovered SafeNow (release_path e p.from_version w) _
        (weaken (release_path e p.from_version w)
          (release_path-Ends e (Journalled f e file b) p.from_version w journalled))
        (λ _ v j.
          after-Ends (λ _. Journalled f e file b) Recovered SafeNow (maintenance_lock e v) _
            (weaken (maintenance_lock e v) (maintenance_lock-Ends e (Journalled f e file b) v j))
            (λ lock u k. wrapped (recover_now e p lock u) (recover_now-Safe p lock u from k)))
    where
      weaken :
          {A : Type 0} (r : Outcome A × Machine)
          → Ends (λ _. Journalled f e file b) (Journalled f e file b) r
          → Ends (λ _. Journalled f e file b) SafeNow r
      weaken (returned a, w) j = j
      weaken (raised x, w) j = Journalled-Safe f e file b w j

  pub recover-Ends : (w : Machine) → Opened w → w.state ≡ b → Ends Recovered SafeNow (recover e w)
  unfolding recover
  recover-Ends w opened same =
      recover_pending-Ends w.state.pending w (sym (ap (λ s. s.pending) same)) opened same
