-- ===== src/Update/Check/Repaired.antt =====
-- The run after a crash: with a journal in the file and a host that works, the old release runs again.
use lite_checker.Prelude.{
  ℕ, ◌+◌, ◌≡◌, ◌∷◌, refl, sym, subst, String, Bool, true, false, ◌&&◌, Option, none, some, List,
  Outcome, returned, raised, arith, string_eq, option_beq, beq_refl,
}
use lite_checker.Update.Manifest.{Formats, ChannelConfig}
use lite_checker.Update.Install.{
  Pending, InstallState, InstallFile, stored, read_install, valid_install, rolled_back,
}
use lite_checker.Update.Machine.{
  Environment, Machine, Turn, Place, acquired, Moment, at, replaced, rescue, give, ticked,
  write_outcome, write_install, load_install, restore, go_live,
}
use lite_checker.Update.Recovery.{
  Report, recover, recover_pending, recover_now, after_restore, rolled_back_to, release_path,
  maintenance_lock,
}
use lite_checker.Update.Check.{
  ChannelFile, load_channel, start, transact, unless_recovered, check_for_update,
}
use lite_checker.Update.Check.Steps.{with_cleanup-Keeps, with_cleanup-returns}
use lite_checker.Update.Check.Ends.{Ends, Never, Ends-returned, after-Ends, released-Keeps}

-- The host does what it is asked. The marker of a release is that of the root.
pub record Works (e : Environment) : Type 0 where
  pub reads : (t : ℕ) → e.reads t ≡ true
  pub writes : (t : ℕ) → e.writes t ≡ replaced
  pub platform : Option String
  pub root : e.distribution ≡ returned platform
  pub markers : (t : ℕ) (v : Option String) → e.release_marker t v ≡ returned platform
  pub transaction : e.transaction ≡ acquired
  pub maintenance : (t : ℕ) → e.maintenance t ≡ acquired
  pub transaction_releases : (t : ℕ) → e.transaction_releases t ≡ true
  pub maintenance_releases : (t : ℕ) → e.maintenance_releases t ≡ true
  pub activates : (t : ℕ) (v : Option String) (running : Bool) → e.activates t v running ≡ true
  pub healthy : (t : ℕ) (v : Option String) (running : Bool) → e.healthy t v running ≡ some true

-- the state that a recovery writes
abbrev pub repaired : Pending → InstallState → InstallState
repaired p b = record b {
  pending = none;
  failure = some (record { sequence = p.sequence; digest = p.digest });
  status = rolled_back;
  error = some "interrupted update was rolled back";
}

and-false : (t : Bool) → (t && false) ≡ false
and-false true = refl
and-false false = refl

option_beq_refl : (v : Option String) → option_beq v v ≡ true
option_beq_refl none = refl
option_beq_refl (some s) = beq_refl s

repaired-valid :
    (p : Pending) (b : InstallState)
    → b.pending ≡ some p
    → valid_install b ≡ true
    → valid_install (repaired p b) ≡ true
unfolding valid_install
repaired-valid p b h v = ground arith

module _ (f : Formats) (e : Environment) (w : Works e) (p : Pending) (b : InstallState) where
  -- the release of the journal runs, and the file has no journal
  abbrev Repaired : List Moment → InstallFile → Place → InstallState → Type 0
  Repaired past install live s = (install ≡ stored (repaired p b)) × (live ≡ at p.from_version)

  abbrev IsRepaired : Machine → Type 0
  IsRepaired m = Repaired m.past m.install m.live m.state

  abbrev opened : Machine → Machine
  opened m = record m { state = b }

  release_path-works :
      (v : Option String) (m : Machine) → release_path e v m ≡ (returned tt, ticked m)
  unfolding release_path
  release_path-works v m = simp (w.markers, w.root, option_beq_refl)

  maintenance_lock-works : (m : Machine) → maintenance_lock e m ≡ (returned true, ticked m)
  unfolding maintenance_lock
  maintenance_lock-works m = simp (w.maintenance)

  restore-works :
      (v : Option String) (running : Bool) (m : Machine)
      → restore e v running m ≡ (returned true, ticked (go_live (at v) (ticked m)))
  unfolding restore
  restore-works v running m = simp (w.activates, w.healthy)

  module _ (pending : b.pending ≡ some p) (valid : valid_install b ≡ true) where
    rolled_back_to-Repaired :
        (m : Machine)
        → m.live ≡ at p.from_version
        → Ends (λ _. IsRepaired) Never (rolled_back_to e p (opened m))
    unfolding rolled_back_to write_outcome write_install
    rolled_back_to-Repaired m live = rw (repaired-valid p b pending valid) (
        rw (w.writes m.tick) (
          let m' : Machine = record m {
            tick = m.tick + 1;
            state = repaired p b;
            install = stored (repaired p b);
            past = (record { install = stored (repaired p b); live = m.live }) ∷ m.past;
          } in
          Ends-returned IsRepaired _ (with_cleanup-returns e rolled_back _ p.to_version m') (
            with_cleanup-Keeps e Repaired rolled_back (some "interrupted update was rolled back")
              (some p.to_version) m' (refl, live))))

    -- a result, after the repair
    abbrev Done : Option Report → Machine → Type 0
    Done none v = ⊥
    Done (some r) v = IsRepaired v

    recover_pending-Done : (m : Machine) → Ends Done Never (recover_pending e (some p) (opened m))
    unfolding recover_pending recover_now after_restore
    recover_pending-Done m =
        let m' : Machine = ticked (ticked m) in
        let switched : Machine = ticked (go_live (at p.from_version) (ticked m')) in
        rw (release_path-works p.from_version (opened m)) (
          rw (maintenance_lock-works (opened (ticked m))) (
            rw
              (
                restore-works p.from_version p.was_running (opened m'),
                w.maintenance_releases switched.tick,
              )
              (after-Ends (λ _. IsRepaired) Done Never (rolled_back_to e p (opened switched))
                (λ r. give (some r)) (rolled_back_to-Repaired switched refl) (λ r v k. k))))

    unless_recovered-Done :
        (force : Bool) (c : ChannelConfig) (now : ℕ) (r : Option Report) (m : Machine)
        → Done r m
        → Ends (λ _. IsRepaired) Never (unless_recovered f e force c now r m)
    unfolding unless_recovered
    unless_recovered-Done force c now none m n = absurd n
    unless_recovered-Done force c now (some r) m k = k

    transact-Repaired :
        (force : Bool) (c : ChannelConfig) (now : ℕ) (m : Machine)
        → read_install m.install ≡ some b
        → Ends (λ _. IsRepaired) Never (transact f e force c now m)
    unfolding transact load_install recover
    transact-Repaired force c now m found = rw (w.reads m.tick) (
        rw found (
          after-Ends Done (λ _. IsRepaired) Never (recover_pending e b.pending (opened m')) _
            (subst (λ q. Ends Done Never (recover_pending e q (opened m'))) (sym pending)
              (recover_pending-Done m'))
            (λ r v. unless_recovered-Done force c now r v)))
      where
        m' : Machine
        m' = ticked m

    rescued :
        (r : Outcome Report × Machine) (h : Turn Report)
        → Ends (λ _. IsRepaired) Never r
        → IsRepaired (rescue r h).1
    rescued (returned a, v) h k = k
    rescued (raised x, v) h k = absurd k

    -- On a host that works, with a channel that can be read, enabled or not, and a journal in a valid
    -- install file, `check_for_update` ends with the release of the journal running, and with a file
    -- that has no journal, marks the interrupted release as failed, and is otherwise as it was.
    pub check_for_update-Repaired :
        (file : ChannelFile) (c : ChannelConfig) (force : Bool) (now : ℕ) (m : Machine)
        → load_channel f e file ≡ some (some c)
        → read_install m.install ≡ some b
        → let v = (check_for_update f e file true m.install force now m).1 in
          (v.install ≡ stored (repaired p b)) × (v.live ≡ at p.from_version)
    unfolding check_for_update start
    check_for_update-Repaired file c force now m loaded found =
        rw (loaded, found)
          (simp (pending, w.transaction, and-false)
            (released-Keeps IsRepaired e.transaction_releases _ (
              rescued (transact f e force c now (opened m)) _
                (transact-Repaired force c now (opened m) found))))
