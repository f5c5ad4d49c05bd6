-- ===== src/Update/Check/Rising.antt =====
-- The high-water mark of the install file from one moment of `check_for_update` to the next.
use lite_checker.Prelude.{
  ℕ, ◌≤◌, ◌≡◌, inl, inr, String, Bool, true, false, Option, none, some, List, [], ◌∷◌, arith,
  Bool-cases,
}
use lite_checker.Update.Install.{
  Status, Pending, InstallState, InstallFile, missing, unusable, stored, valid_install, failed,
  rolled_back,
}
use lite_checker.Update.Machine.{
  Environment, Machine, Turn, Place, Moment, Written, replaced, refused, late, after, give, at,
  unknown, put_file, go_live, ticked, write_as, went_live, or_raise, with_outcome, write_install,
  write_outcome, healthy, activate, restore,
}
use lite_checker.Update.Recovery.{
  mark_failed, rolled_back_to, after_restore, recover_now, recover_pending, with_cleanup,
  release_path, maintenance_lock, closed_with,
}
use lite_checker.Update.Check.Sound.{after-Keeps, rescue-Keeps}
use lite_checker.Update.Check.Steps.{release_path-Ends, maintenance_lock-Ends, with_cleanup-Keeps}
use lite_checker.Update.Check.Ends.{Ends-both, released-Keeps}

-- the mark in the file; a file that cannot be read has none
abbrev pub mark_of : InstallFile → ℕ
mark_of missing = 0
mark_of unusable = 0
mark_of (stored s) = s.highest_sequence

-- From each moment to the next one, up to the file as it is, the mark does not move back.
abbrev pub Rises : List Moment → InstallFile → Type 0
Rises [] i = Unit
Rises (m ∷ ms) i = (mark_of m.install ≤ mark_of i) × Rises ms m.install

Rises-mono :
    (ms : List Moment) (i j : InstallFile) → mark_of i ≤ mark_of j → Rises ms i → Rises ms j
Rises-mono [] i j le h = tt
Rises-mono (m ∷ ms) i j le (below, h) = (omega (arith, le, below), h)

module _ (e : Environment) (mark : ℕ) where
  -- the variable has this mark, and the file none above it
  abbrev pub HeldAt : List Moment → InstallFile → Place → InstallState → Type 0
  HeldAt past i live s = Rises past i × (mark_of i ≤ mark) × (s.highest_sequence ≡ mark)

  abbrev pub Held : Machine → Type 0
  Held w = HeldAt w.past w.install w.live w.state

  put_file-Held :
      (s : InstallState) (w : Machine) → s.highest_sequence ≡ mark → Held w → Held (put_file s w)
  put_file-Held s w same (rises, below, held) = (
    (omega arith, Rises-mono w.past w.install (stored s) (omega (arith, below, same)) rises),
    omega (arith, same),
    held,
  )

  go_live-Held : (p : Place) (w : Machine) → Held w → Held (go_live p w)
  go_live-Held p w (rises, below, held) = ((omega arith, rises), below, held)

  pub write_install-Held :
      (s : InstallState) (w : Machine)
      → s.highest_sequence ≡ mark
      → Held w
      → Held (write_install e s w).1
  unfolding write_install
  write_install-Held s w same h = elim (Bool-cases (valid_install s)) [
    | inr bad ↦ simp bad h
    | inl good ↦ simp good (split (e.writes w.tick))
  ]
    where
      split : (o : Written) → Held (write_as o s (ticked w)).1
      split replaced = put_file-Held s (ticked w) same h
      split refused = h
      split late = put_file-Held s (ticked w) same h

  pub write_outcome-Held :
      (status : Status) (error : Option String) (w : Machine)
      → Held w
      → Held (write_outcome e status error w).1
  unfolding write_outcome
  write_outcome-Held status error w h =
      write_install-Held (with_outcome e status error w.state)
        (record w { state = with_outcome e status error w.state }) h.2 h

  pub closed_with-Held :
      (status : Status) (text : String) (w : Machine)
      → Held w
      → Held (closed_with e status text w).1
  unfolding closed_with
  closed_with-Held status text w h =
      after-Keeps Held (write_outcome e status (some text) w) _
        (write_outcome-Held status (some text) w h) (λ _ v k. k)

  pub with_cleanup-Held :
      (status : Status) (error remove : Option String) (w : Machine)
      → Held w
      → Held (with_cleanup e status error remove w).1
  with_cleanup-Held status error remove w h = with_cleanup-Keeps e HeldAt status error remove w h

  pub or_raise-Held : {A : Type 0} (o : Option A) (w : Machine) → Held w → Held (or_raise o w).1
  or_raise-Held none w h = h
  or_raise-Held (some a) w h = h

  went_live-Held :
      (done : Bool) (v : Option String) (w : Machine) → Held w → Held (went_live done v w).1
  went_live-Held true v w h = go_live-Held (at v) w h
  went_live-Held false v w h = go_live-Held unknown w h

  pub restore-Held :
      (v : Option String) (running : Bool) (w : Machine) → Held w → Held (restore e v running w).1
  unfolding restore activate healthy
  restore-Held v running w h =
      after-Keeps Held (went_live (e.activates w.tick v running) v (ticked w)) _
        (went_live-Held (e.activates w.tick v running) v (ticked w) h)
        (λ _ u k. or_raise-Held (e.healthy u.tick v running) (ticked u) k)

  rolled_back_to-Held : (p : Pending) (w : Machine) → Held w → Held (rolled_back_to e p w).1
  unfolding rolled_back_to
  rolled_back_to-Held p w h =
      after-Keeps Held
        (write_outcome e rolled_back (some "interrupted update was rolled back")
          (record w { state = mark_failed e p.sequence p.digest w.state }))
        _
        (write_outcome-Held rolled_back (some "interrupted update was rolled back")
          (record w { state = mark_failed e p.sequence p.digest w.state }) h)
        (λ _ v.
          with_cleanup-Held rolled_back (some "interrupted update was rolled back")
            (some p.to_version) v)

  after_restore-Held :
      (p : Pending) (restored : Bool) (w : Machine) → Held w → Held (after_restore e p restored w).1
  unfolding after_restore
  after_restore-Held p true w h = rolled_back_to-Held p w h
  after_restore-Held p false w h = closed_with-Held failed "interrupted update recovery failed" w h

  recover_now-Held :
      (p : Pending) (lock : Bool) (w : Machine) → Held w → Held (recover_now e p lock w).1
  unfolding recover_now
  recover_now-Held p false w h = h
  recover_now-Held p true w h =
      after-Keeps Held _ (after_restore e p)
        (released-Keeps Held e.maintenance_releases _ (
          rescue-Keeps Held (restore e p.from_version p.was_running w) (give false)
            (restore-Held p.from_version p.was_running w h) (λ v k. k)))
        (after_restore-Held p)

  pub locked-Held :
      {A : Type 0} (v : Option String) (k : Bool → Turn A) (w : Machine)
      → Held w
      → ((lock : Bool) (u : Machine) → Held u → Held (k lock u).1)
      → Held (after (release_path e v w) (λ _ u. after (maintenance_lock e u) k)).1
  locked-Held v k w h next =
      after-Keeps Held (release_path e v w) _
        (Ends-both Held (release_path e v w) (release_path-Ends e Held v w h))
        (λ _ u hu.
          after-Keeps Held (maintenance_lock e u) k
            (Ends-both Held (maintenance_lock e u) (maintenance_lock-Ends e Held u hu)) next)

  pub recover_pending-Held :
      (q : Option Pending) (w : Machine) → Held w → Held (recover_pending e q w).1
  unfolding recover_pending
  recover_pending-Held none w h = h
  recover_pending-Held (some p) w h = locked-Held p.from_version _ w h (λ lock u hu.
      after-Keeps Held (recover_now e p lock u) _ (recover_now-Held p lock u hu) (λ r v k. k))
