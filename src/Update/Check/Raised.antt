-- ===== src/Update/Check/Raised.antt =====
-- The mark of the install file while a release is installed whose sequence is the mark.
use lite_checker.Prelude.{
  ◌≡◌, inl, inr, ◌∙◌, refl, String, Bool, true, false, Option, none, some, List, [], ◌∷◌,
  Bool-cases, Outcome, returned, raised,
}
use lite_checker.Update.Manifest.{ReleaseMetadata}
use lite_checker.Update.Install.{InstallState, busy, failed, rolled_back, updated}
use lite_checker.Update.Machine.{
  Environment, Machine, after, rescue, give, ticked, check, write_install, write_outcome, restore,
}
use lite_checker.Update.Store.{remove_release, stage, stage_as}
use lite_checker.Update.Switch.{
  Verdict, committed, back, stuck, verdict_of, rollback_text, committed_state, commit, fall_back,
  decide, switch, after_rollback, after_commit, let_go, rolled_back_state, conclude, switch_under,
  journal_of, after_journal, journal, obtain, get_ready, after_ready, after_obtain, install_release,
}
use lite_checker.Update.Check.Sound.{after-Keeps, rescue-Keeps}
use lite_checker.Update.Check.Steps.{remove_release-Keeps}
use lite_checker.Update.Check.Ends.{released-Keeps}
use lite_checker.Update.Check.Rising.{
  Held, HeldAt, write_install-Held, write_outcome-Held, closed_with-Held, with_cleanup-Held,
  restore-Held, or_raise-Held, locked-Held,
}

module _ (e : Environment) (r : ReleaseMetadata) where
  abbrev pub HeldNow : Machine → Type 0
  HeldNow = Held e r.sequence

  commit-Held : (w : Machine) → HeldNow w → HeldNow (commit e r w).1
  unfolding commit
  commit-Held w h =
      after-Keeps HeldNow (write_install e (committed_state e r w.state) w) _
        (write_install-Held e r.sequence (committed_state e r w.state) w refl h)
        (λ _ v k. (k.0, k.1, refl))

  -- a call that ends in a value of its answer
  answered :
      {A : Type 0} (x : Outcome Bool × Machine) (g : Bool → A)
      → HeldNow x.1
      → HeldNow (after x (λ b. give (g b))).1
  answered (returned b, w) g h = h
  answered (raised y, w) g h = h

  fall_back-Held :
      (old : Option String) (running permanent : Bool) (w : Machine)
      → HeldNow w
      → HeldNow (fall_back e r old running permanent w).1
  unfolding fall_back
  fall_back-Held old running permanent w h =
      rescue-Keeps HeldNow _ (give stuck)
        (answered (restore e old running w) (verdict_of permanent)
          (restore-Held e r.sequence old running w h))
        (λ v k. k)

  pub succeeds-Held :
      (x : Outcome (Unit {0}) × Machine)
      → HeldNow x.1
      → HeldNow (rescue (after x (λ _. give true)) (give false)).1
  succeeds-Held (returned u, w) h = h
  succeeds-Held (raised y, w) h = h

  tried :
      (x : Outcome Bool × Machine)
      → HeldNow x.1
      → HeldNow (rescue (after x (λ b. give (some b))) (give none)).1
  tried (returned b, w) h = h
  tried (raised y, w) h = h

  after_commit-Held :
      (old : Option String) (running done : Bool) (w : Machine)
      → HeldNow w
      → HeldNow (after_commit e r old running done w).1
  after_commit-Held old running true w h = h
  after_commit-Held old running false w h = fall_back-Held old running false w h

  decide-Held :
      (old : Option String) (running : Bool) (health : Option Bool) (w : Machine)
      → HeldNow w
      → HeldNow (decide e r old running health w).1
  unfolding decide
  decide-Held old running none w h = fall_back-Held old running true w h
  decide-Held old running (some true) w h =
      after-Keeps HeldNow _ (after_commit e r old running)
        (succeeds-Held (commit e r w) (commit-Held w h)) (after_commit-Held old running)
  decide-Held old running (some false) w h =
      rescue-Keeps HeldNow _ (fall_back e r old running true)
        (answered (restore e old running w) (verdict_of true)
          (restore-Held e r.sequence old running w h))
        (fall_back-Held old running true)

  switch-Held :
      (old : Option String) (running : Bool) (w : Machine)
      → HeldNow w
      → HeldNow (switch e r old running w).1
  unfolding switch
  switch-Held old running w h =
      after-Keeps HeldNow _ (decide e r old running)
        (tried (restore e (some r.version) running w)
          (restore-Held e r.sequence (some r.version) running w h))
        (decide-Held old running)

  rolled_back_state-held :
      (permanent : Bool) (s : InstallState)
      → (rolled_back_state e r permanent s).highest_sequence ≡ s.highest_sequence
  rolled_back_state-held true s = refl
  rolled_back_state-held false s = refl

  after_rollback-Held :
      (permanent : Bool) (s : InstallState) (done : Bool) (w : Machine)
      → s.highest_sequence ≡ r.sequence
      → HeldNow w
      → HeldNow (after_rollback e r permanent s done w).1
  unfolding after_rollback
  after_rollback-Held permanent s true w same h =
      with_cleanup-Held e r.sequence rolled_back (some (rollback_text permanent)) (some r.version)
        (record w { state = rolled_back_state e r permanent s })
        (h.0, h.1, rolled_back_state-held permanent s ∙ same)
  after_rollback-Held permanent s false w same h = h

  conclude-Held : (verdict : Verdict) (w : Machine) → HeldNow w → HeldNow (conclude e r verdict w).1
  unfolding conclude
  conclude-Held committed w h = with_cleanup-Held e r.sequence updated none none w h
  conclude-Held stuck w h =
      closed_with-Held e r.sequence failed
        "activation and rollback failed; recovery remains pending" w h
  conclude-Held (back permanent) w h =
      after-Keeps HeldNow _ (after_rollback e r permanent w.state)
        (succeeds-Held (write_install e (rolled_back_state e r permanent w.state) w) (
          write_install-Held e r.sequence (rolled_back_state e r permanent w.state) w
            (rolled_back_state-held permanent w.state ∙ h.2) h))
        (λ done v. after_rollback-Held permanent w.state done v h.2)

  let_go-Held : (w : Machine) → HeldNow w → HeldNow (let_go e r w).1
  unfolding let_go
  let_go-Held w h =
      after-Keeps HeldNow (write_outcome e busy (some "maintenance window is busy") w) _
        (write_outcome-Held e r.sequence busy (some "maintenance window is busy") w h)
        (λ _ v k.
          after-Keeps HeldNow (remove_release e r.version v) _
            (remove_release-Keeps e (HeldAt e r.sequence) r.version v k) (λ _ u l. l))

  switch_under-Held :
      (old : Option String) (running lock : Bool) (w : Machine)
      → HeldNow w
      → HeldNow (switch_under e r old running lock w).1
  unfolding switch_under
  switch_under-Held old running true w h =
      after-Keeps HeldNow _ (conclude e r)
        (released-Keeps HeldNow e.maintenance_releases (switch e r old running w)
          (switch-Held old running w h))
        conclude-Held
  switch_under-Held old running false w h =
      let_go-Held (record w { state = record w.state { pending = none } }) h

  after_journal-Held :
      (running : Bool) (s : InstallState) (done : Bool) (w : Machine)
      → HeldNow w
      → HeldNow (after_journal e r running s done w).1
  unfolding after_journal
  after_journal-Held running s true w h =
      locked-Held e r.sequence s.active _ w h (switch_under-Held s.active running)
  after_journal-Held running s false w h =
      after-Keeps HeldNow (remove_release e r.version w) _
        (remove_release-Keeps e (HeldAt e r.sequence) r.version w h) (λ _ v k. k)

  journal-Held : (running : Bool) (w : Machine) → HeldNow w → HeldNow (journal e r running w).1
  unfolding journal
  journal-Held running w h =
      let v : Machine = record w { state = journal_of e r running w.state } in
      after-Keeps HeldNow _ (after_journal e r running w.state)
        (succeeds-Held (write_install e (journal_of e r running w.state) v)
          (write_install-Held e r.sequence (journal_of e r running w.state) v h.2 h))
        (after_journal-Held running w.state)

  obtain-Held : (urls : List String) (w : Machine) → HeldNow w → HeldNow (obtain e r urls w).1
  unfolding obtain
  obtain-Held [] w h = h
  obtain-Held (url ∷ urls) w h = elim (Bool-cases (e.archive w.tick url r)) [
    | inl t ↦ rw t h
    | inr t ↦ rw t (obtain-Held urls (ticked w) h)
  ]

  get_ready-Held : (w : Machine) → HeldNow w → HeldNow (get_ready e r w).1
  unfolding get_ready stage
  get_ready-Held w h =
      after-Keeps HeldNow (stage_as (e.stages w.tick r.version) r.version (ticked w)) _
        (staged (e.stages w.tick r.version))
        (λ _ v k.
          after-Keeps HeldNow (check (e.prepares v.tick r.version) (ticked v)) _
            (checked (e.prepares v.tick r.version) (ticked v) k)
            (λ _ u l. or_raise-Held e r.sequence (e.is_running u.tick) (ticked u) l))
    where
      staged : (done : Bool) → HeldNow (stage_as done r.version (ticked w)).1
      staged true = h
      staged false = h

      checked : (done : Bool) (v : Machine) → HeldNow v → HeldNow (check done v).1
      checked true v k = k
      checked false v k = k

  after_ready-Held :
      (ready : Option Bool) (w : Machine) → HeldNow w → HeldNow (after_ready e r ready w).1
  unfolding after_ready
  after_ready-Held (some running) w h = journal-Held running w h
  after_ready-Held none w h =
      after-Keeps HeldNow (remove_release e r.version w) _
        (remove_release-Keeps e (HeldAt e r.sequence) r.version w h)
        (λ _ v. closed_with-Held e r.sequence failed "release preparation failed" v)

  after_obtain-Held :
      (found : Bool) (w : Machine) → HeldNow w → HeldNow (after_obtain e r found w).1
  unfolding after_obtain
  after_obtain-Held false w h =
      closed_with-Held e r.sequence failed "release archive is unavailable or invalid" w h
  after_obtain-Held true w h =
      after-Keeps HeldNow _ (after_ready e r) (tried (get_ready e r w) (get_ready-Held w h))
        after_ready-Held

  pub install_release-Held : (w : Machine) → HeldNow w → HeldNow (install_release e r w).1
  unfolding install_release
  install_release-Held w h =
      after-Keeps HeldNow (obtain e r r.artifact.urls w) (after_obtain e r)
        (obtain-Held r.artifact.urls w h) after_obtain-Held
