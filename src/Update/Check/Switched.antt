-- ===== src/Update/Check/Switched.antt =====
-- The switch to a release that was offered, and every way back from it, keeps each moment sound.
use lite_checker.Prelude.{
  ℕ, ◌≡◌, ◌≢◌, ◌∙◌, refl, sym, ap, inr, String, Bool, true, false, Option, none, some,
}
use lite_checker.Update.Manifest.{Formats, ReleaseMetadata}
use lite_checker.Update.Install.{InstallState, busy, failed, rolled_back, updated}
use lite_checker.Update.Machine.{
  Environment, Machine, at, unknown, late, write_install, write_outcome, restore,
}
use lite_checker.Update.Store.{remove_release}
use lite_checker.Update.Switch.{
  Verdict, committed, back, stuck, verdict_of, rollback_text, committed_state, commit, fall_back,
  decide, switch, after_rollback, after_commit, let_go, rolled_back_state, conclude, switch_under,
}
use lite_checker.Update.Check.{ChannelFile}
use lite_checker.Update.Check.Sound.{
  SafeAt, Sound, Safe, Journalled, Journalled-Safe, Whole, AllWhole, MarkKept, Recoverable,
  IsOffered, after-Keeps,
}
use lite_checker.Update.Check.Steps.{
  write_install-cases, restore-cases, write_outcome-Safe, remove_release-Keeps, with_cleanup-Keeps,
  closed_with-Safe,
}
use lite_checker.Update.Check.Ends.{
  Ends, Either, Never, after-Ends, rescue-Ends, succeeds-Ends, after-Last, released-Ends,
}

module _ (e : Environment) (timely : (t : ℕ) → e.writes t ≢ late) (f : Formats) (file : ChannelFile)
    (b : InstallState) (r : ReleaseMetadata) (offered : IsOffered f e file b.active r)
    (kept : MarkKept b.highest_sequence b.highest_digest r.sequence (some r.artifact.sha256)) where
  abbrev SafeNow : Machine → Type 0
  SafeNow = Safe f e file b

  abbrev JournalledNow : Machine → Type 0
  JournalledNow = Journalled f e file b

  -- journalled, and a release runs
  abbrev Runs : Option String → Machine → Type 0
  Runs v w = JournalledNow w × (w.live ≡ at v)

  weaken : (w : Machine) → JournalledNow w → SafeNow w
  weaken w j = Journalled-Safe f e file b w j

  restore-Runs :
      (v : Option String) (running : Bool) (w : Machine)
      → JournalledNow w
      → Ends (λ _. Runs v) JournalledNow (restore e v running w)
  restore-Runs v running w (past, any, same) =
      restore-cases e timely (λ _. Runs v) JournalledNow v running w
        (λ _. ((((any (at v)).0, past), any, same), refl)) (((any (at v)).0, past), any, same)
        (((any unknown).0, past), any, same)

  abbrev Judged : Verdict → Machine → Type 0
  Judged committed w = SafeNow w
  Judged (back permanent) w = Runs b.active w
  Judged stuck w = JournalledNow w

  verdict-Judged :
      (permanent answer : Bool) (w : Machine)
      → Runs b.active w
      → Judged (verdict_of permanent answer) w
  verdict-Judged permanent true w (j, l) = (j, l)
  verdict-Judged permanent false w (j, l) = j

  fall_back-Judged :
      (running permanent : Bool) (w : Machine)
      → JournalledNow w
      → Ends Judged Never (fall_back e r b.active running permanent w)
  unfolding fall_back
  fall_back-Judged running permanent w j =
      rescue-Ends Judged JournalledNow Never _ _
        (after-Ends (λ _. Runs b.active) Judged JournalledNow (restore e b.active running w) _
          (restore-Runs b.active running w j) (verdict-Judged permanent))
        (λ v k. k)

  commit-Ends :
      (w : Machine) → Runs (some r.version) w → Ends (λ _. SafeNow) JournalledNow (commit e r w)
  unfolding commit
  commit-Ends w ((past, any, same), live) =
      let sound : Sound f e file b (committed_state e r w.state) w.live =
        (live, kept, inr (r, offered, refl, same, refl, refl)) in
      after-Ends
        (λ _ v.
          AllWhole f e file b v.past
          × Whole f e file b v.install v.live
          × Sound f e file b (committed_state e r w.state) v.live)
        (λ _. SafeNow) JournalledNow (write_install e (committed_state e r w.state) w) _
        (write_install-cases e timely
          (λ _ v.
            AllWhole f e file b v.past
            × Whole f e file b v.install v.live
            × Sound f e file b (committed_state e r w.state) v.live)
          JournalledNow (committed_state e r w.state) w ((sound, past), sound, sound)
          (past, any, same) (past, any, same))
        (λ _ v k. k)

  -- what is known of the candidate's health
  abbrev Tried : Option Bool → Machine → Type 0
  Tried none w = JournalledNow w
  Tried (some answer) w = Runs (some r.version) w

  decide-Judged :
      (running : Bool) (health : Option Bool) (w : Machine)
      → Tried health w
      → Ends Judged Never (decide e r b.active running health w)
  unfolding decide
  decide-Judged running none w j = fall_back-Judged running true w j
  decide-Judged running (some false) w (j, l) =
      rescue-Ends Judged JournalledNow Never _ _
        (after-Ends (λ _. Runs b.active) Judged JournalledNow (restore e b.active running w) _
          (restore-Runs b.active running w j) (verdict-Judged true))
        (fall_back-Judged running true)
  decide-Judged running (some true) w k =
      after-Ends (Either SafeNow JournalledNow) Judged Never _ _
        (succeeds-Ends SafeNow JournalledNow (commit e r w) (commit-Ends w k)) split
    where
      split :
          (done : Bool) (v : Machine)
          → Either SafeNow JournalledNow done v
          → Ends Judged Never (after_commit e r b.active running done v)
      split true v s = s
      split false v j = fall_back-Judged running false v j

  switch-Judged :
      (running : Bool) (w : Machine)
      → JournalledNow w
      → Ends Judged Never (switch e r b.active running w)
  unfolding switch
  switch-Judged running w j =
      after-Ends Tried Judged Never _ _
        (rescue-Ends Tried JournalledNow Never _ _
          (after-Ends (λ _. Runs (some r.version)) Tried JournalledNow
            (restore e (some r.version) running w) _ (restore-Runs (some r.version) running w j)
            (λ _ v k. k))
          (λ v k. k))
        (decide-Judged running)

  -- with the old release running, the journal may be closed
  rolled-Sound :
      (permanent : Bool) (w : Machine)
      → Runs b.active w
      → Sound f e file b (rolled_back_state e r permanent w.state) w.live
  rolled-Sound true w ((past, any, same), live) =
      (live ∙ ap at (sym same), (any w.live).1.1, (any w.live).1.2)
  rolled-Sound false w ((past, any, same), live) =
      (live ∙ ap at (sym same), (any w.live).1.1, (any w.live).1.2)

  conclude-Safe :
      (verdict : Verdict) (w : Machine) → Judged verdict w → SafeNow (conclude e r verdict w).1
  unfolding conclude after_rollback
  conclude-Safe committed w s = with_cleanup-Keeps e (SafeAt f e file b) updated none none w s
  conclude-Safe stuck w j =
      closed_with-Safe e timely f file b failed
        "activation and rollback failed; recovery remains pending" w (weaken w j)
  conclude-Safe (back permanent) w k =
      let sound = rolled-Sound permanent w k in
      let safe = weaken w k.0 in
      after-Last (Either Rolled SafeNow) Never SafeNow _ _
        (succeeds-Ends Rolled SafeNow (write_install e (rolled_back_state e r permanent w.state) w)
          (write_install-cases e timely (λ _. Rolled) SafeNow
            (rolled_back_state e r permanent w.state) w ((sound, k.0.0), sound, sound) safe safe))
        (λ v n. absurd n) split
    where
      Rolled : Machine → Type 0
      Rolled v =
          AllWhole f e file b v.past
          × Whole f e file b v.install v.live
          × Sound f e file b (rolled_back_state e r permanent w.state) v.live

      split :
          (done : Bool) (v : Machine)
          → Either Rolled SafeNow done v
          → SafeNow (after_rollback e r permanent w.state done v).1
      split true v (past, whole, memory) =
          with_cleanup-Keeps e (SafeAt f e file b) rolled_back (some (rollback_text permanent))
            (some r.version) (record v { state = rolled_back_state e r permanent w.state })
            (past, whole, memory)
      split false v s = s

  let_go-Safe : (w : Machine) → SafeNow w → SafeNow (let_go e r w).1
  unfolding let_go
  let_go-Safe w s =
      after-Keeps SafeNow (write_outcome e busy (some "maintenance window is busy") w) _
        (write_outcome-Safe e timely f file b busy (some "maintenance window is busy") w s)
        (λ _ v sv.
          after-Keeps SafeNow (remove_release e r.version v) _
            (remove_release-Keeps e (SafeAt f e file b) r.version v sv) (λ _ u su. su))

  Judged-Safe : (verdict : Verdict) (v : Machine) → Judged verdict v → SafeNow v
  Judged-Safe committed v s = s
  Judged-Safe (back permanent) v k = weaken v k.0
  Judged-Safe stuck v k = weaken v k

  pub switch_under-Safe :
      (running lock : Bool) (w : Machine)
      → Runs b.active w
      → SafeNow (switch_under e r b.active running lock w).1
  unfolding switch_under
  switch_under-Safe running true w (j, live) =
      after-Last Judged SafeNow SafeNow _ _
        (released-Ends Judged Never SafeNow e.maintenance_releases (switch e r b.active running w)
          (switch-Judged running w j) Judged-Safe (λ v n. absurd n))
        (λ v s. s) conclude-Safe
  switch_under-Safe running false w ((past, any, same), live) =
      let sound = any w.live in
      let idle : Recoverable none w.state.active w.live = live ∙ ap at (sym same) in
      let_go-Safe (record w { state = record w.state { pending = none } })
        (past, sound.0, (idle, sound.1.1, sound.1.2))
