-- ===== src/Update/Recovery.antt =====
-- The results of updater.py, and `_recover`, which undoes an update that was interrupted.
use lite_checker.Prelude.{
  ℕ, String, Bool, true, false, Option, none, some, string_eq, option_beq, nat_eq, ◌==◌,
  if◌then◌else◌, raised, other_error,
}
use lite_checker.Update.Install.{Status, Pending, InstallState, busy, failed, rolled_back}
use lite_checker.Update.Machine.{
  Environment, Turn, Lock, acquired, held, unsafe, crashed, finally_release, ◌>>=◌, ◌>>◌, attempt,
  give, ask, check, lift, get_state, set_state, write_outcome, restore,
}
use lite_checker.Update.Store.{Counts, no_counts, remove_release, cleanup}

-- the dictionary of `_closed`
pub record Report : Type 0 where
  pub status : Status
  pub version : Option String
  pub previous : Option String
  pub error : Option String
  pub cleanup_counts : Counts
  pub warning : Option String

-- `_closed`
abbrev pub closed : Status → InstallState → Option String → Report
closed status s error = record {
  status = status;
  version = s.active;
  previous = s.previous;
  error = error;
  cleanup_counts = no_counts;
  warning = none;
}

abbrev pub cleaned : Option String → Bool × Counts → Report → Report
cleaned warning (false, c) r = record r { warning = some "update-cleanup-failed" }
cleaned warning (true, c) r = record r {
  cleanup_counts = c;
  warning = if c.deferred_count == 0 then warning else some "update-cleanup-deferred";
}

module _ (e : Environment) where
  -- the first part of `_with_cleanup`: its warning
  unfoldable pub drop_release : Option String → Turn (Option String)
  drop_release none = give none
  drop_release (some v) =
      attempt (remove_release e v >> give none) (give (some "update-cleanup-failed"))

  -- its second part: the counts, or that the cleanup raised
  unfoldable pub try_cleanup : InstallState → Turn (Bool × Counts)
  try_cleanup s = attempt (cleanup e s >>= λ c. give (true, c)) (give (false, no_counts))

  -- `_with_cleanup` on the variable `state`
  unfoldable pub with_cleanup : Status → Option String → Option String → Turn Report
  unfolding drop_release try_cleanup
  with_cleanup status error remove_version = do
    warning ← drop_release remove_version
    s ← get_state
    counts ← try_cleanup s
    give (cleaned warning counts (closed status s error))

  -- `_release_path`: it raises where the markers cannot be read or differ
  unfoldable pub release_path : Option String → Turn (Unit {0})
  release_path v = do
    marker ← ask (λ t. e.release_marker t v)
    theirs ← lift marker
    ours ← lift e.distribution
    check (option_beq theirs ours)

  abbrev pub won : Lock → Turn Bool
  won acquired = give true
  won held = give false
  won unsafe = check false >> give false
  won crashed = lift (raised other_error)

  -- `_maintenance_lock`
  unfoldable pub maintenance_lock : Turn Bool
  maintenance_lock = do lock ← ask e.maintenance; won lock

  -- `_write_outcome` and a result with the error that it wrote
  unfoldable pub closed_with : Status → String → Turn Report
  unfolding write_outcome
  closed_with status error = do
    write_outcome e status (some error)
    s ← get_state
    give (closed status s s.error)

  abbrev pub mark_failed : ℕ → String → InstallState → InstallState
  mark_failed sequence digest s = record s {
    pending = none;
    failure = some (record { sequence = sequence; digest = digest });
  }

  -- the previous release runs again
  unfoldable pub rolled_back_to : Pending → Turn Report
  unfolding with_cleanup write_outcome
  rolled_back_to p = do
    s ← get_state
    set_state (mark_failed p.sequence p.digest s)
    write_outcome e rolled_back (some "interrupted update was rolled back")
    with_cleanup rolled_back (some "interrupted update was rolled back") (some p.to_version)

  unfoldable pub after_restore : Pending → Bool → Turn Report
  unfolding rolled_back_to closed_with
  after_restore p true = rolled_back_to p
  after_restore p false = closed_with failed "interrupted update recovery failed"

  unfoldable pub recover_now : Pending → Bool → Turn Report
  unfolding after_restore
  recover_now p false = do s ← get_state; give (closed busy s (some "maintenance window is busy"))
  recover_now p true = do
    restored ←
        finally_release e.maintenance_releases
          (attempt (restore e p.from_version p.was_running) (give false))
    after_restore p restored

  unfoldable pub recover_pending : Option Pending → Turn (Option Report)
  unfolding recover_now release_path maintenance_lock
  recover_pending none = give none
  recover_pending (some p) = do
    release_path p.from_version
    lock ← maintenance_lock
    r ← recover_now p lock
    give (some r)

  -- `_recover`
  unfoldable pub recover : Turn (Option Report)
  unfolding recover_pending
  recover = do s ← get_state; recover_pending s.pending
