-- ===== src/Update/Switch.antt =====
-- The second half of `check_for_update`: the archive, the journal, the switch to the new release and
-- the way back.
use lite_checker.Prelude.{
  String, Bool, true, false, Option, none, some, List, [], ◌∷◌, ltb, if◌then◌else◌,
}
use lite_checker.Update.Manifest.{ReleaseMetadata}
use lite_checker.Update.Install.{InstallState, busy, failed, rolled_back, updated}
use lite_checker.Update.Machine.{
  Environment, Turn, finally_release, ◌>>=◌, ◌>>◌, attempt, succeeds, give, ask, check, or_raise,
  get_state, set_state, write_install, write_outcome, with_outcome, restore,
}
use lite_checker.Update.Store.{remove_release, stage}
use lite_checker.Update.Recovery.{
  Report, closed, with_cleanup, release_path, maintenance_lock, closed_with, mark_failed,
}

-- how the switch ended: committed; the old release is back, and whether the new one is to blame; or
-- neither runs
pub data Verdict : Type 0 where
  committed : Verdict
  back : Bool → Verdict
  stuck : Verdict

-- `rollback_ok` after the way back was tried
abbrev pub verdict_of : Bool → Bool → Verdict
verdict_of permanent true = back permanent
verdict_of permanent false = stuck

abbrev pub rollback_text : Bool → String
rollback_text true = "activation failed; previous release restored"
rollback_text false = "activation commit failed; previous release restored"

module _ (e : Environment) (release : ReleaseMetadata) where
  abbrev pub committed_state : InstallState → InstallState
  committed_state s = record s {
    active = some release.version;
    previous = s.active;
    highest_sequence = release.sequence;
    highest_digest = some release.artifact.sha256;
    pending = none;
    failure = none;
    status = updated;
    error = none;
  }

  -- the write of the committed state, which then becomes the variable `state`
  unfoldable pub commit : Turn (Unit {0})
  commit = do s ← get_state; write_install e (committed_state s); set_state (committed_state s)

  -- the handler of the switch
  unfoldable pub fall_back : Option String → Bool → Bool → Turn Verdict
  fall_back old running permanent =
      attempt (restore e old running >>= λ b. give (verdict_of permanent b)) (give stuck)

  abbrev pub after_commit : Option String → Bool → Bool → Turn Verdict
  after_commit old running true = give committed
  after_commit old running false = fall_back old running false

  -- what follows the health of the candidate; `none` stands for a call that raised
  unfoldable pub decide : Option String → Bool → Option Bool → Turn Verdict
  unfolding commit fall_back
  decide old running none = fall_back old running true
  decide old running (some true) = do done ← succeeds commit; after_commit old running done
  decide old running (some false) =
      attempt (restore e old running >>= λ b. give (verdict_of true b)) (fall_back old running true)

  unfoldable pub switch : Option String → Bool → Turn Verdict
  unfolding decide
  switch old running = do
    health ← attempt (restore e (some release.version) running >>= λ b. give (some b)) (give none)
    decide old running health

  abbrev pub rolled_back_state : Bool → InstallState → InstallState
  rolled_back_state permanent s = with_outcome e rolled_back (some (rollback_text permanent)) (
      if permanent
      then mark_failed e release.sequence release.artifact.sha256 s
      else record s { pending = none })

  -- what follows the write of the state that was rolled back
  unfoldable pub after_rollback : Bool → InstallState → Bool → Turn Report
  after_rollback permanent s true =
      set_state (rolled_back_state permanent s)
      >> with_cleanup e rolled_back (some (rollback_text permanent)) (some release.version)
  after_rollback permanent s false =
      give
        (closed rolled_back s (some "previous release restored; recovery journal remains pending"))

  unfoldable pub conclude : Verdict → Turn Report
  unfolding with_cleanup closed_with after_rollback
  conclude committed = with_cleanup e updated none none
  conclude (back permanent) = do
    s ← get_state
    done ← succeeds (write_install e (rolled_back_state permanent s))
    after_rollback permanent s done
  conclude stuck = closed_with e failed "activation and rollback failed; recovery remains pending"

  -- the release is dropped, since nothing may be switched
  unfoldable pub let_go : Turn Report
  unfolding write_outcome
  let_go = do
    write_outcome e busy (some "maintenance window is busy")
    remove_release e release.version
    s ← get_state
    give (closed busy s s.error)

  unfoldable pub switch_under : Option String → Bool → Bool → Turn Report
  unfolding switch conclude let_go
  switch_under old running true = do
    verdict ← finally_release e.maintenance_releases (switch old running)
    conclude verdict
  switch_under old running false = do s ← get_state; set_state (record s { pending = none }); let_go

  abbrev pub journal_of : Bool → InstallState → InstallState
  journal_of running s = record s {
    pending = some (record {
      from_version = s.active;
      to_version = release.version;
      sequence = release.sequence;
      digest = release.artifact.sha256;
      was_running = running;
    });
  }

  -- what follows the write of the journal
  unfoldable pub after_journal : Bool → InstallState → Bool → Turn Report
  unfolding switch_under release_path maintenance_lock
  after_journal running s true = do
    release_path e s.active
    lock ← maintenance_lock e
    switch_under s.active running lock
  after_journal running s false = do
    remove_release e release.version
    give (closed failed (journal_of running s) (some "recovery journal could not be persisted"))

  -- the journal is written before anything is activated
  unfoldable pub journal : Bool → Turn Report
  unfolding after_journal
  journal running = do
    s ← get_state
    set_state (journal_of running s)
    done ← succeeds (write_install e (journal_of running s))
    after_journal running s done

  -- the loop over the URLs of the archive
  unfoldable pub obtain : List String → Turn Bool
  obtain [] = give false
  obtain (url ∷ urls) = do
    valid ← ask (λ t. e.archive t url release)
    let rest = obtain urls
    if valid then give true else rest

  -- `stage`, `prepare` and `is_running`
  unfoldable pub get_ready : Turn Bool
  unfolding stage
  get_ready = do
    stage e release.version
    prepared ← ask (λ t. e.prepares t release.version)
    check prepared
    running ← ask e.is_running
    or_raise running

  unfoldable pub after_ready : Option Bool → Turn Report
  unfolding journal closed_with
  after_ready none = do
    remove_release e release.version
    closed_with e failed "release preparation failed"
  after_ready (some running) = journal running

  unfoldable pub after_obtain : Bool → Turn Report
  unfolding get_ready after_ready closed_with
  after_obtain false = closed_with e failed "release archive is unavailable or invalid"
  after_obtain true = do
    ready ← attempt (get_ready >>= λ b. give (some b)) (give none)
    after_ready ready

  unfoldable pub install_release : Turn Report
  unfolding obtain after_obtain
  install_release = do found ← obtain release.artifact.urls; after_obtain found

  abbrev pub marked : InstallState → InstallState
  marked s = record s {
    highest_sequence = release.sequence;
    highest_digest = some release.artifact.sha256;
  }

  unfoldable pub after_mark : InstallState → Bool → Turn Report
  unfolding install_release
  after_mark s true = install_release
  after_mark s false =
      give (closed failed (marked s) (some "release high-water mark could not be persisted"))

  unfoldable pub raise_from : InstallState → Bool → Turn Report
  unfolding after_mark install_release
  raise_from s false = install_release
  raise_from s true = do
    set_state (marked s)
    done ← succeeds (write_install e (marked s))
    after_mark s done

  -- the high-water mark, and then the installation
  unfoldable pub raise_mark : Turn Report
  unfolding raise_from
  raise_mark = do s ← get_state; raise_from s (ltb s.highest_sequence release.sequence)
